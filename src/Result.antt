-- ===== src/Result.antt =====
-- Errors as values: the sentinel errors of medb.go and the failures of the calls that it makes.
use medb.Base.{ℕ, ◌≡◌, refl, ◌⊎◌, inl, inr, Bytes, Option, none, some}

-- Why a log record is refused by `replayLog`.
pub data Corruption : Type 0 where
  bad_json bad_name no_doc : Corruption

pub data Error : Type 0 where
  -- ErrNotFound, ErrClosed, ErrTooLarge
  not_found closed too_large : Error
  -- a failed system call; a path component that is a file
  io not_directory : Error
  -- json.Marshal or json.Unmarshal
  json : Error
  corrupt_wal : ℕ → Corruption → Error
  corrupt_snapshot : Bytes → Error
  -- an option out of range
  bad_option : Error
  -- ErrLocked
  locked : Error
  -- an error that a caller's function returned
  callback : ℕ → Error

pub data Result {ℓ} (A : Type ℓ) : Type ℓ where
  ok : A → Result A
  err : Error → Result A

abbrev pub or_error {ℓ} : {A : Type ℓ} → Option A → Error → Result A
or_error none e = err e
or_error (some a) e = ok a

-- `if err != nil { return err }`
abbrev pub and_then {ℓ κ} : {A : Type ℓ} {B : Type κ} → Result A → (A → Result B) → Result B
and_then (ok a) f = f a
and_then (err e) f = err e

pub Result-cases {ℓ} :
    {A : Type ℓ} (r : Result A) → ((a : A) × (r ≡ ok a)) ⊎ ((e : Error) × (r ≡ err e))
Result-cases (ok a) = inl (a, refl)
Result-cases (err e) = inr (e, refl)
