-- ===== src/Db/Opening.antt =====
-- `Open` from its options on: `options` and its setters, `validate`, `lock.Acquire` of
-- internal/lock/lock_unix.go and `openLog` of wal.go. The database directory itself exists in the
-- model, so that the `MkdirAll` of it has nothing to do.
use medb.Base.{
  ◌≡◌, refl, ap, sym, ◌∙◌, inl, inr, ℕ, zero, suc, ◌*◌, Bool, true, false, none, some, List, [],
  ◌∷◌, arith, Bytes, bytes, bytes_eq, bytes_eq_iff, Bool-cases, length, length-append, lookup,
  lookup-insert, insert, if◌then◌else◌,
}
use medb.Name.{coll_path}
use medb.Result.{Error, Result, ok, err, bad_option, locked, Result-cases}
use medb.Store.Cells.{Cell, Value, doc_cell, home, over}
use medb.Store.History.{touch_all}
use medb.Disk.Keeps.{Keeps, IsPreorder, Keeps-bind}
use medb.Codec.{Codec, JsonLaws}
use medb.Disk.{Disk, Io, modify, ◌>>◌, attempt, attempt_sync, sync_dir}
use medb.Snapshot.Flush.{file_of}
use medb.Db.{Db, open_db}
use medb.Db.Invariant.{Holds, Reopened}
use medb.Db.Steps.InPlace.{same_file}
use medb.Db.Recovery.Reopen.{open_db-Reopened}

-- Go's signed numbers.
pub data ℤ : Type 0 where
  pos : ℕ → ℤ
  negsuc : ℕ → ℤ

abbrev pub to_ℕ : ℤ → ℕ
to_ℕ (pos n) = n
to_ℕ (negsuc n) = 0

-- x <= 0
abbrev pub is_not_positive : ℤ → Bool
is_not_positive (pos zero) = true
is_not_positive (pos (suc n)) = false
is_not_positive (negsuc n) = true

-- `flush_interval` in nanoseconds.
pub record Options : Type 0 where
  pub max_doc_size : ℤ
  pub flush_bytes : ℤ
  pub flush_interval : ℤ

abbrev pub default_options : Options
default_options = record {
  max_doc_size = pos (16 * 1048576);
  flush_bytes = pos (64 * 1048576);
  flush_interval = pos 5000000000;
}

-- `WithMaxDocSize`, `WithFlushBytes` and `WithFlushInterval`
pub data Setting : Type 0 where
  with_max_doc_size with_flush_bytes with_flush_interval : ℤ → Setting

unfoldable pub set_option : Setting → Options → Options
set_option (with_max_doc_size n) o = record o { max_doc_size = n }
set_option (with_flush_bytes n) o = record o { flush_bytes = n }
set_option (with_flush_interval n) o = record o { flush_interval = n }

unfoldable pub set_options : List Setting → Options → Options
set_options [] o = o
set_options (s ∷ settings) o = set_options settings (set_option s o)

unfoldable pub validate : Options → Result (Unit {0})
validate o =
    if is_not_positive o.max_doc_size
    then err bad_option
    else if is_not_positive o.flush_bytes
    then err bad_option
    else if is_not_positive o.flush_interval
    then err bad_option
    else ok tt

-- `lock.Acquire`: open the lock file, made if it is missing, and lock it, unless another process
-- holds the lock (`held`).
unfoldable pub create_lock : Io (Unit {0})
create_lock = do
  attempt
  modify (λ d. elim (lookup (bytes "lock") d.files) [
    | none ↦ record d { files = insert (bytes "lock") [] d.files }
    | some _ ↦ d
  ])

unfoldable pub acquire : Bool → Io (Unit {0})
acquire held d =
    let (r, d') = create_lock d in
    elim r [ err e ↦ (err e, d') | ok _ ↦ if held then (err locked, d') else (ok tt, d') ]

-- `openLog`
unfoldable pub open_log : Io (Unit {0})
open_log = do attempt; sync_dir []

unfoldable pub open_medb : Codec → Bool → List Setting → Disk → Result Db × Disk
open_medb c held settings d =
    let o = set_options settings default_options in
    elim (validate o) [
      | err e ↦ (err e, d)
      | ok _ ↦
          let (r, d') = (acquire held >> open_log) d in
          elim r [
            | err e ↦ (err e, d')
            | ok _ ↦ open_db c (to_ℕ o.max_doc_size) (to_ℕ o.flush_bytes) d'
          ]
    ]

-- The lock file is no collection's.
lock_path : (name : Bytes) → bytes_eq (bytes "lock") (coll_path name) ≡ false
unfolding coll_path
lock_path name = elim (Bool-cases (bytes_eq (bytes "lock") (coll_path name))) [
  | inr ne ↦ ne
  | inl same ↦ absurd (
      omega (
        arith,
        ap length ((bytes_eq_iff (bytes "lock") (coll_path name)).0 same),
        length-append name (bytes ".json"),
      ))
]

-- The log and the collections' files are as they were.
record Prepared (d d' : Disk) : Type 0 where
  wal : d'.wal ≡ d.wal
  files : (name : Bytes) → file_of name d' ≡ file_of name d

Prepared-order : IsPreorder Prepared
Prepared-order = record {
  same = λ d. record { wal = refl; files = λ name. refl };
  chain = λ a b c p q. record { wal = q.wal ∙ p.wal; files = λ name. q.files name ∙ p.files name };
}

acquire-Prepared : (held : Bool) → Keeps Prepared (acquire held)
unfolding acquire create_lock attempt
acquire-Prepared held d = record {
  wal = ground arith;
  files = λ name.
      ground (arith, lookup-insert (bytes "lock") (coll_path name) [] d.files, lock_path name);
}

open_log-Prepared : Keeps Prepared open_log
unfolding open_log attempt attempt_sync sync_dir
open_log-Prepared d = record { wal = ground arith; files = λ name. ground arith }

prepare-Prepared : (held : Bool) → Keeps Prepared (acquire held >> open_log)
prepare-Prepared held =
    Keeps-bind Prepared-order (acquire held) (λ _. open_log) (acquire-Prepared held)
      (λ _. open_log-Prepared)

module _ {c : Codec} {IsText IsJson : Bytes → Type 0} (laws : JsonLaws c IsText IsJson) where
  Prepared-Holds :
      (d d' : Disk) (state : Cell → Value)
      → Prepared d d'
      → Holds c IsText IsJson d state
      → Holds c IsText IsJson d' state
  Prepared-Holds d d' state p h =
      let view' = λ (k : Cell). same_file c d d' k (p.files (home k)) in
      record {
        logged = h.logged;
        torn = h.torn;
        on_disk = record {
          batch = h.on_disk.batch;
          wal = p.wal ∙ h.on_disk.wal;
          encoded = h.on_disk.encoded;
          wire = h.on_disk.wire;
          line = h.on_disk.line;
          readable = λ name content valid has_file.
              h.on_disk.readable name content valid (sym (p.files name) ∙ has_file);
          plain = λ coll i v named has_value.
              h.on_disk.plain coll i v named (sym (view' (doc_cell coll i)) ∙ has_value);
        };
        value = λ k named. ap (over (touch_all h.logged k)) (view' k) ∙ h.value k named;
      }

  refused :
      (d : Disk) (state : Cell → Value) (e : Error)
      → Holds c IsText IsJson d state
      → Reopened c IsText IsJson state (err e) d
  refused d state e h = record { holds = h; opened = λ db bad. cc }

  -- `Open` with any settings on a directory that holds a state, whichever call fails and whether or
  -- not another process has the lock: the directory still holds the state, and a database that comes
  -- of it has the state and is ready for the steps that follow.
  pub open_medb-Reopened :
      (held : Bool) (settings : List Setting) (d : Disk) (state : Cell → Value)
      → Holds c IsText IsJson d state
      → Reopened c IsText IsJson state
          (open_medb c held settings d).0
          (open_medb c held settings d).1
  unfolding open_medb
  open_medb-Reopened held settings d state h =
      let o = set_options settings default_options in
      let d' = ((acquire held >> open_log) d).1 in
      let h' = Prepared-Holds d d' state (prepare-Prepared held d) h in
      elim (Result-cases (validate o)) [
        | inr (e, bad) ↦ rw (open_medb, bad) (refused d state e h)
        | inl (_, good) ↦ elim (Result-cases ((acquire held >> open_log) d).0) [
          | inr (e, failed) ↦ rw (open_medb, good, failed) (refused d' state e h')
          | inl (_, made) ↦
              rw (open_medb, good, made)
                (open_db-Reopened laws (to_ℕ o.max_doc_size) (to_ℕ o.flush_bytes) d' state h')
        ]
      ]

-- A database opens only with positive settings, and never while another process has the lock.
pub open_medb_refused :
    (c : Codec) (held : Bool) (settings : List Setting) (d : Disk) (db : Db)
    → (open_medb c held settings d).0 ≡ ok db
    → let o = set_options settings default_options in
      (held ≡ false)
      × (is_not_positive o.max_doc_size ≡ false)
      × (is_not_positive o.flush_bytes ≡ false)
      × (is_not_positive o.flush_interval ≡ false)
unfolding open_medb validate acquire
open_medb_refused c held settings d db h = (ground arith, ground arith, ground arith, ground arith)
