-- ===== src/Disk/Calls.antt =====
-- Calls that may fail: each system call takes the next outcome of a schedule, so that a theorem
-- over all schedules covers every failure, and, as the program does no more after a failure, every
-- point at which the process may be killed.
use medb.Base.{ℕ, List, [], ◌∷◌, Bytes, Map}
use medb.Result.{Result, ok, err, io}

-- `failure n` of a write leaves the first `n` bytes written. `unsupported` is what a directory sync
-- may say; any other call fails with it.
pub data Outcome : Type 0 where
  success unsupported : Outcome
  failure : ℕ → Outcome

-- The contents of `wal.log`, the other files by path, the directories, and the outcomes to come
-- (none left means success).
pub record Disk : Type 0 where
  pub wal : Bytes
  pub files : Map Bytes
  pub dirs : List Bytes
  pub faults : List Outcome

abbrev pub Io : Type 0 → Type 0
Io A = Disk → Result A × Disk

infixl 5 ◌>>=◌ ◌>>◌
abbrev pub ◌>>=◌ : {A B : Type 0} → Io A → (A → Io B) → Io B
◌>>=◌ m f d = let (r, d') = m d in elim r [ ok a ↦ f a d' | err e ↦ (err e, d') ]

abbrev pub ◌>>◌ : {A B : Type 0} → Io A → Io B → Io B
m >> k = m >>= λ _. k

abbrev pub pure : {A : Type 0} → A → Io A
pure a d = (ok a, d)

abbrev pub modify : (Disk → Disk) → Io (Unit {0})
modify f d = (ok tt, f d)

abbrev pub next_outcome : Disk → Outcome × Disk
next_outcome d = elim d.faults [ [] ↦ (success, d) | o ∷ rest ↦ (o, record d { faults = rest }) ]

-- A call that changes nothing that the model sees.
unfoldable pub attempt : Io (Unit {0})
attempt d = let (o, d') = next_outcome d in elim o [ success ↦ (ok tt, d') | _ ↦ (err io, d') ]

-- dirSyncUnsupported
unfoldable pub attempt_sync : Io (Unit {0})
attempt_sync d =
    let (o, d') = next_outcome d in
    elim o [ success ↦ (ok tt, d') | unsupported ↦ (ok tt, d') | failure _ ↦ (err io, d') ]
