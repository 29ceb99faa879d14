-- ===== src/Db.antt =====
-- The database object: `DB` of medb.go with its write, read and worker methods, `enqueue`, `writeLog`
-- and `replayLog` of wal.go, `writeSnapshot` of snapshot.go.
pub mod Invariant
pub mod Files
pub mod Steps
pub mod Recovery
pub mod Run
pub mod Crash
pub mod Closing
pub mod LockName
pub mod Opening
pub mod Tests
pub mod StepTests
use medb.Base.{
  ℕ, suc, ◌+◌, Bool, true, false, ◌&&◌, ◌||◌, not, Option, none, some, List, [], ◌∷◌, ◌++◌, ◌==◌,
  leb, ltb, if◌then◌else◌, length, take, is_empty, Bytes, Map,
}
use medb.Result.{Error, Result, ok, err, not_found, closed, too_large, io, json, or_error, and_then}
use medb.Store.{Record, Store, apply, get_doc, empty_store}
use medb.Codec.{Codec}
use medb.Wal.{encode_batch, replay_lines}
use medb.Disk.{Disk, Io, pure, ◌>>=◌, ◌>>◌, attempt, next_outcome, success, failure, unsupported}
use medb.Snapshot.{Plan, capture, flush, truncate_wal, load}

-- A `*commit` is the number of its allocation; `settled` holds the error of each closed commit, nil
-- as none. `run_err` is the local `err` of `run`; `pending` and `spare` are two halves of one double
-- buffer, of which the model keeps the contents of the first.
pub record Db : Type 0 where
  pub max_doc_size : ℕ
  pub flush_bytes : ℕ
  pub store : Store
  pub is_closed : Bool
  pub disk : Disk
  pub size : ℕ
  pub pending : List Bytes
  pub commit : Option ℕ
  pub next_commit : ℕ
  pub settled : List (ℕ × Option Error)
  pub run_err : Option Error
  pub failed : Option Error

-- `enqueue`: the commit that will carry the record's outcome, allocated if there is none.
unfoldable pub enqueue : Bytes → Db → ℕ × Db
enqueue rec db = elim db.commit [
  | none ↦ (
    db.next_commit,
    record db {
      commit = some db.next_commit;
      next_commit = suc db.next_commit;
      pending = db.pending ++ rec ∷ [];
    },
  )
  | some id ↦ (id, record db { pending = db.pending ++ rec ∷ [] })
]

-- `DB.write` up to `commit.wait()`: the commit to wait for.
unfoldable pub write : Codec → Record → Db → Result ℕ × Db
unfolding enqueue
write c rec db = elim (c.marshal_record rec) [
  | none ↦ (err json, db)
  | some buf ↦
      if db.is_closed
      then (err closed, db)
      else (let (id, db') = enqueue buf (record db { store = apply rec db.store }) in (ok id, db'))
]

unfoldable pub read : Bytes → Bytes → Db → Result Bytes
read coll id db =
    if db.is_closed then err closed else or_error (get_doc coll id db.store.colls) not_found

-- `len(raw) > db.opts.maxDocSize`
unfoldable pub check_doc_size : Bytes → Db → Result (Unit {0})
check_doc_size raw db = if ltb db.max_doc_size (length raw) then err too_large else ok tt

-- db.log.Write: a failure may leave a prefix.
unfoldable pub append_wal : Bytes → Io (Unit {0})
append_wal buf d =
    let (o, d') = next_outcome d in
    elim o [
      | success ↦ (ok tt, record d' { wal = d'.wal ++ buf })
      | failure n ↦ (err io, record d' { wal = d'.wal ++ take n buf })
      | unsupported ↦ (err io, d')
    ]

abbrev pub to_error {ℓ} : {A : Type ℓ} → Result A → Option Error
to_error (ok a) = none
to_error (err e) = some e

-- The part of `writeLog` that runs when the batch has a commit: the new `err`, the disk and the size.
unfoldable pub log_batch : Option Error → List Bytes → Disk → ℕ → Option Error × Disk × ℕ
log_batch (some e) batch d size = (some e, d, size)
log_batch none [] d size = (none, d, size)
log_batch none (rec ∷ batch) d size =
    let buf = encode_batch (rec ∷ batch) in
    let (r, d') = (append_wal buf >> attempt) d in
    elim r [ ok _ ↦ (none, d', size + length buf) | err e ↦ (some e, d', size) ]

-- `writeLog`, with `run_err` for the error that it takes and returns.
unfoldable pub write_log : Db → Db
unfolding log_batch
write_log db = elim db.commit [
  | none ↦ record db { pending = [] }
  | some id ↦
      let (e, d, n) = log_batch db.run_err db.pending db.disk db.size in
      record db {
        pending = [];
        commit = none;
        disk = d;
        size = n;
        run_err = e;
        settled = (id, e) ∷ db.settled;
      }
]

-- The part of `writeSnapshot` after the early return: the dirty marks are cleared whether or not
-- the encoding succeeds.
unfoldable pub take_snapshot : Codec → Db → Db
take_snapshot c db =
    let cleared = record db { store = record { colls = db.store.colls; dirty = [] } } in
    elim (capture c db.store.dirty db.store.colls) [
      | err e ↦ record cleared { run_err = some e }
      | ok plan ↦
          let (r, d) = flush plan db.disk in
          elim r [
            | ok _ ↦ record cleared { disk = d; size = 0 }
            | err e ↦ record cleared { disk = d; run_err = some e }
          ]
    ]

-- `writeSnapshot`, with `run_err` for the error that it takes and returns.
unfoldable pub write_snapshot : Codec → Db → Db
unfolding take_snapshot
write_snapshot c db = elim db.run_err [
  | some _ ↦ db
  | none ↦ if is_empty db.store.dirty && db.size == 0 then db else take_snapshot c db
]

-- The cases of the `select` in `run`.
unfoldable pub on_notify : Codec → Db → Db
on_notify c db =
    let db' = write_log db in if leb db'.flush_bytes db'.size then write_snapshot c db' else db'

unfoldable pub on_tick : Codec → Db → Db
on_tick c db = write_snapshot c db

unfoldable pub on_stop : Codec → Db → Db
on_stop c db = let db' = write_snapshot c (write_log db) in record db' { failed = db'.run_err }

-- `replayLog`: the loop, and the torn tail cut off. The disk comes back after an error too.
unfoldable pub replay_log : Codec → Db → Result Db × Disk
replay_log c db =
    let data' = db.disk.wal in
    elim (replay_lines c (suc (length data')) 1 0 data' db.store) [
      | none ↦ (err io, db.disk)
      | some (err e) ↦ (err e, db.disk)
      | some (ok (size, s)) ↦
          if ltb size (length data')
          then (let (r, d) = truncate_wal size db.disk in
              (and_then r (λ _. ok (record db { store = s; size = size; disk = d })), d))
          else (ok (record db { store = s; size = size }), db.disk)
    ]

abbrev pub new_db : ℕ → ℕ → Disk → Db
new_db max_doc_size flush_bytes d = record {
  max_doc_size = max_doc_size;
  flush_bytes = flush_bytes;
  store = empty_store;
  is_closed = false;
  disk = d;
  size = 0;
  pending = [];
  commit = none;
  next_commit = 0;
  settled = [];
  run_err = none;
  failed = none;
}

-- `Open` once the options are valid, the directory is made and its lock and log are open: load the
-- snapshots, replay the log, write a first snapshot.
unfoldable pub recover : Codec → ℕ → ℕ → Disk → Result Db × Disk
recover c max_doc_size flush_bytes d = elim (load c d.files) [
  | err e ↦ (err e, d)
  | ok colls ↦
      replay_log c (record (new_db max_doc_size flush_bytes d) {
        store = record { colls = colls; dirty = [] };
      })
]

unfoldable pub open_db : Codec → ℕ → ℕ → Disk → Result Db × Disk
unfolding recover
open_db c max_doc_size flush_bytes d =
    let (r, d') = recover c max_doc_size flush_bytes d in
    elim r [
      | err e ↦ (err e, d')
      | ok db ↦
          let db' = write_snapshot c db in
          (elim db'.run_err [ none ↦ ok db' | some e ↦ err e ], db'.disk)
    ]
