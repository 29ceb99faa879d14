-- ===== src/Db/StepTests.antt =====
-- Examples of the single steps, with the sample codec.
use medb.Base.{
  Bytes, false, ◌≡◌, refl, true, none, some, List, [], ◌∷◌, ◌++◌, arith, bytes, inl, lookup, insert,
  erase, bytes_eq,
}
use medb.Result.{ok, err, closed, io, not_directory}
use medb.Store.{get_doc, apply, apply_op, docs_of, mark}
use medb.Store.Cells.{view, over}
use medb.Store.History.{touch_all}
use medb.Codec.Sample.{
  sample_codec, sample_laws, AnyText, IsFilled, put_record, put_field, op_tag, put_docs,
}
use medb.Name.{snapshot_name, valid_name, coll_path, temp_path}
use medb.Wal.{replay_lines, cut_line, encode_batch}
use medb.Disk.{
  Disk, Outcome, failure, attempt, attempt_sync, stat, is_file, mkdir_all, missing_parents,
  make_dirs, sync_dirs, dir_of, write_file_atomic, write_temp, create_file, write_file, rename_file,
  sync_dir,
}
use medb.Snapshot.{load, load_paths, capture, flush, write_snaps, remove_colls, truncate_wal}
use medb.Db.{
  recover, replay_log, Db, new_db, open_db, write, enqueue, write_log, log_batch, append_wal,
  write_snapshot, take_snapshot, on_stop, read, check_doc_size,
}
use medb.Db.Invariant.{Inv, Holds, Reopened}
use medb.Db.Steps.Write.{write-Inv}
use medb.Db.Steps.Log.{write_log-Inv_ok, write_log-Inv_failed}
use medb.Db.Steps.Tick.{write_snapshot-Inv}
use medb.Db.Recovery.Reopen.{open_db-Reopened}
use medb.Db.Run.{call, notify, run, watch_all, close_db}
use medb.Collection.{Typed, update_doc}
use medb.Db.Run.Overlap.{
  ClientCall, call_write, call_update, call_read, call_close, closing, applied, updated, found,
  client_call, begin_snapshot, finish_snapshot, calls, calls-take_snapshot,
}
use medb.Db.Run.Stuck.{run_stuck}
use medb.Db.Crash.{no_calls, close_durable}
use medb.Db.LockName.{below_lock, lock_name_blocks}
use medb.Db.Opening.{
  pos, with_flush_bytes, set_options, validate, acquire, create_lock, open_log, open_medb,
  open_medb-Reopened,
}
use medb.Db.Tests.{nothing, fresh, fresh-Holds, opened_ok, first, second}

-- An empty database, and one with a record in flight.
abbrev pub empty : List Outcome → Db
empty faults = new_db 100 50 (fresh faults)

abbrev pub written : List Outcome → Db
written faults = (write sample_codec first (empty faults)).1

open_db-Reopened_example :
    Reopened sample_codec AnyText IsFilled nothing
      (open_db sample_codec 100 50 (fresh [])).0
      (open_db sample_codec 100 50 (fresh [])).1
open_db-Reopened_example = open_db-Reopened sample_laws 100 50 (fresh []) nothing (fresh-Holds [])

empty-Inv : (faults : List Outcome) → Inv sample_codec AnyText IsFilled (empty faults) (view []) []
empty-Inv faults =
    let h =
      (open_db-Reopened sample_laws 100 50 (fresh faults) nothing (fresh-Holds faults)).opened
        (empty faults) (opened_ok faults) in
    h.2

accepted : (faults : List Outcome) → (write sample_codec first (empty faults)).0 ≡ ok 0
unfolding write enqueue put_record op_tag
accepted faults = refl

first_wire : valid_name first.coll ≡ true
unfolding valid_name
first_wire = refl

write-Inv_example : Inv sample_codec AnyText IsFilled (written []) (view []) ([] ++ first ∷ [])
write-Inv_example =
    write-Inv sample_laws (empty []) (view []) [] first 0 (empty-Inv [])
      (first_wire, tt, inl (refl, omega arith)) (accepted [])

pub written-Inv :
    (faults : List Outcome)
    → Inv sample_codec AnyText IsFilled (written faults) (view []) (first ∷ [])
written-Inv faults =
    write-Inv sample_laws (empty faults) (view []) [] first 0 (empty-Inv faults)
      (first_wire, tt, inl (refl, omega arith)) (accepted faults)

logged_ok : (write_log (written [])).run_err ≡ none
unfolding write enqueue put_record op_tag write_log log_batch append_wal attempt
logged_ok = refl

write_log-Inv_ok_example :
    Inv sample_codec AnyText IsFilled
      (write_log (written []))
      (λ k. over (touch_all (first ∷ []) k) (view [] k))
      []
write_log-Inv_ok_example =
    write_log-Inv_ok sample_laws (written []) (view []) (first ∷ []) (written-Inv []) logged_ok

abbrev bad_disk : List Outcome
bad_disk = failure 2 ∷ []

logged_bad : (write_log (written bad_disk)).run_err ≡ some io
unfolding write enqueue put_record op_tag write_log log_batch append_wal attempt
logged_bad = refl

write_log-Inv_failed_example :
    Inv sample_codec AnyText IsFilled (write_log (written bad_disk)) (view []) (first ∷ [])
write_log-Inv_failed_example =
    write_log-Inv_failed sample_laws (written bad_disk) (view []) (first ∷ []) io
      (written-Inv bad_disk) logged_bad

write_snapshot-Inv_example :
    Inv sample_codec AnyText IsFilled
      (write_snapshot sample_codec (written []))
      (view [])
      (first ∷ [])
write_snapshot-Inv_example =
    write_snapshot-Inv sample_laws (written []) (view []) (first ∷ []) (written-Inv [])

run_stuck_example :
    let db = write_log (written bad_disk) in
    let events = call second ∷ notify ∷ [] in
    ((run sample_codec events db).run_err ≡ some io)
    × ((run sample_codec events db).disk ≡ db.disk)
    × ((watch_all sample_codec events db no_calls).told ≡ [])
run_stuck_example =
    run_stuck sample_codec (call second ∷ notify ∷ []) io (write_log (written bad_disk)) no_calls
      logged_bad

pub closed_ok : (close_db sample_codec (written [])).0 ≡ none
unfolding close_db on_stop write enqueue put_record put_field put_docs op_tag write_log log_batch
    append_wal attempt attempt_sync encode_batch apply apply_op docs_of mark lookup insert erase
    bytes_eq write_snapshot take_snapshot capture flush write_snaps remove_colls truncate_wal
    mkdir_all missing_parents make_dirs sync_dirs dir_of coll_path temp_path write_file_atomic
    write_temp create_file write_file rename_file sync_dir
closed_ok = refl

close_durable_example :
    Holds sample_codec AnyText IsFilled
      (close_db sample_codec (written [])).1.disk
      (view (written []).store.colls)
close_durable_example =
    close_durable sample_laws (written []) (view []) (first ∷ []) (written-Inv []) closed_ok

-- A collection below the lock file.
abbrev with_lock : Db
with_lock = record (new_db 100 50 (record (fresh []) { files = (bytes "lock", []) ∷ [] })) {
  store = record {
    colls = (below_lock (bytes "x"), []) ∷ [];
    dirty = (below_lock (bytes "x"), true) ∷ [];
  };
}

lock_there : stat (bytes "lock") with_lock.disk ≡ is_file
unfolding stat lookup bytes_eq
lock_there = refl

lock_name_blocks_example : (write_snapshot sample_codec with_lock).run_err ≡ some not_directory
unfolding lookup bytes_eq put_docs
lock_name_blocks_example =
    lock_name_blocks sample_codec with_lock (bytes "x") [] [] lock_there refl refl refl refl

open_medb-Reopened_example :
    let r =
      open_medb sample_codec false (with_flush_bytes (pos 10) ∷ []) (fresh (failure 0 ∷ [])) in
    Reopened sample_codec AnyText IsFilled nothing r.0 r.1
open_medb-Reopened_example =
    open_medb-Reopened sample_laws false (with_flush_bytes (pos 10) ∷ []) (fresh (failure 0 ∷ []))
      nothing (fresh-Holds (failure 0 ∷ []))

abbrev locked_disk : Disk
locked_disk = record (fresh []) { files = (bytes "lock", []) ∷ [] }

opened_with :
    (open_medb sample_codec false [] locked_disk).0 ≡ ok (new_db 16777216 67108864 locked_disk)
unfolding open_medb set_options validate acquire create_lock open_log attempt attempt_sync sync_dir
    open_db recover load load_paths snapshot_name replay_log replay_lines cut_line write_snapshot
    lookup bytes_eq
opened_with = refl

abbrev raw_docs : Typed Bytes
raw_docs = record { marshal = λ b. some b; unmarshal = λ b. some b }

-- A write, an update of the document in flight, a read of it, `Close`, and a write that comes too late.
abbrev meanwhile : List (ClientCall Bytes)
meanwhile =
    call_write second
    ∷ (call_update raw_docs (bytes "users") (bytes "ann") (λ v. some (ok (bytes "[1]")))
        ∷ (call_read (bytes "users") (bytes "ann") ∷ (call_close ∷ (call_write first ∷ []))))

calls-take_snapshot_example :
    let db = written [] in
    let (p, begun) = begin_snapshot sample_codec db in
    let (answers, db') = calls sample_codec meanwhile begun in
    calls sample_codec meanwhile (take_snapshot sample_codec db) ≡ (answers, finish_snapshot p db')
calls-take_snapshot_example = calls-take_snapshot sample_codec meanwhile (written [])

answered :
    (calls sample_codec meanwhile (begin_snapshot sample_codec (written [])).1).0
    ≡ applied (ok 0)
      ∷ (updated (some (ok 0))
          ∷ (found (ok (bytes "[1]")) ∷ (closing none ∷ (applied (err closed) ∷ []))))
unfolding calls client_call write update_doc read put_record op_tag begin_snapshot get_doc lookup
    apply insert bytes_eq check_doc_size
answered = refl
