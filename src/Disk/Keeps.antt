-- ===== src/Disk/Keeps.antt =====
-- What a chain of calls leaves as it was: one rule for each way to build it, and the calls that
-- touch neither a file nor the log.
use medb.Base.{◌≡◌, refl, ap, inl, inr, ◌∙◌, arith}
use medb.Result.{Result, Error, ok, err, Result-cases}
use medb.Disk.Calls.{Disk, Io, pure, ◌>>=◌, attempt, attempt_sync}

-- `m` relates the disk before it to the disk after it, whether it returns or fails.
abbrev pub Keeps : {A : Type 0} → (Disk → Disk → Type 0) → Io A → Type 0
Keeps R m = (d : Disk) → R d (m d).1

-- A relation that holds along any chain of steps that keep it.
pub record IsPreorder (R : Disk → Disk → Type 0) : Type 0 where
  pub same : (d : Disk) → R d d
  pub chain : (a b c : Disk) → R a b → R b c → R a c

module _ {R : Disk → Disk → Type 0} (order : IsPreorder R) {A B : Type 0} where
  pub Keeps-bind :
      (m : Io A) (f : A → Io B) → Keeps R m → ((a : A) → Keeps R (f a)) → Keeps R (m >>= f)
  Keeps-bind m f km kf d = go (m d).0 (m d).1 (km d)
    where
      go : (r : Result A) (d' : Disk) → R d d' → R d (◌>>=◌ {A = A} {B = B} (λ _. (r, d')) f d).1
      go (ok a) d' h = order.chain d d' _ h (kf a d')
      go (err e) d' h = h

-- What a chain does once the outcome of its first part is known.
module _ {A B : Type 0} (f : A → Io B) where
  bind_from :
      (r q : Result A) (d : Disk)
      → r ≡ q
      → ◌>>=◌ {A = A} {B = B} (λ _. (r, d)) f d ≡ ◌>>=◌ {A = A} {B = B} (λ _. (q, d)) f d
  bind_from r q d e = ap (λ t. ◌>>=◌ {A = A} {B = B} (λ _. (t, d)) f d) e

  pub bind_ok : (m : Io A) (d : Disk) {a : A} → (m d).0 ≡ ok a → (m >>= f) d ≡ f a (m d).1
  bind_ok m d {a} e = bind_from (m d).0 (ok a) (m d).1 e

  pub bind_err :
      (m : Io A) (d : Disk) {e : Error} → (m d).0 ≡ err e → (m >>= f) d ≡ (err e, (m d).1)
  bind_err m d {e} h = bind_from (m d).0 (err e) (m d).1 h

  -- A chain that succeeds: its first part succeeded, and it went on from there.
  pub bind_inv :
      (m : Io A) (d : Disk) {b : B}
      → ((m >>= f) d).0 ≡ ok b
      → (a : A) × ((m d).0 ≡ ok a) × ((m >>= f) d ≡ f a (m d).1)
  bind_inv m d h = elim (Result-cases (m d).0) [
    | inl (a, e) ↦ (a, e, bind_ok m d e)
    | inr (bad, e) ↦ let failed = ap (λ t. t.0) (bind_err m d e) in cc
  ]

-- No file and no byte of the log has changed.
pub record Quiet (d d' : Disk) : Type 0 where
  pub wal : d'.wal ≡ d.wal
  pub files : d'.files ≡ d.files

pub Quiet-order : IsPreorder Quiet
Quiet-order = record {
  same = λ d. record { wal = refl; files = refl };
  chain = λ a b c p q. record { wal = q.wal ∙ p.wal; files = q.files ∙ p.files };
}

pub attempt-Quiet : Keeps Quiet attempt
unfolding attempt
attempt-Quiet d = ground arith

pub attempt_sync-Quiet : Keeps Quiet attempt_sync
unfolding attempt_sync
attempt_sync-Quiet d = ground arith

pub pure-Quiet : {A : Type 0} (a : A) → Keeps Quiet (pure a)
pure-Quiet a d = Quiet-order.same d
