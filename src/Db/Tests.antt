-- ===== src/Db/Tests.antt =====
-- Examples of the database with the sample codec: a fresh directory, two writes of which the second
-- meets a full disk, and the next `Open`.
use medb.Base.{
  ◌≡◌, ◌≢◌, refl, ap, none, some, List, [], ◌∷◌, All, arith, Bytes, lookup, bytes, insert, erase,
  bytes_eq, inl,
}
use medb.Result.{Result, ok}
use medb.Store.{Record, op_set}
use medb.Store.Cells.{Cell, doc_cell, Value, view, over, touch}
use medb.Store.History.{touch_all, touch_all-nil}
use medb.Codec.Sample.{sample_codec, sample_laws, AnyText, IsFilled}
use medb.Disk.{Disk, Outcome, success, failure}
use medb.Db.{Db, new_db, open_db, recover}
use medb.Db.Invariant.{Holds, IsNamed, recovered}
use medb.Db.Run.{Event, call, notify, tick, run, Calls, watch_all, outcome}
use medb.Db.Run.Safe.{WireEvents, records}
use medb.Db.Files.{file_view}
use medb.Wal.{encode_batch, replay_lines, cut_line, read_record}
use medb.Snapshot.{
  load, load_paths, flush, capture, truncate_wal, write_snaps, remove_colls, remove_coll,
}
use medb.Name.{valid_name}
use medb.Codec.Sample.{
  put_record, put_field, op_tag, get_record, get_field, tag_op, put_docs, get_docs,
}
use medb.Db.{
  write, enqueue, write_log, log_batch, append_wal, on_notify, on_tick, write_snapshot,
  take_snapshot, replay_log,
}
use medb.Db.Run.{watch, step}
use medb.Store.{apply, apply_op, docs_of, mark}
use medb.Disk.{
  attempt, mkdir_all, write_file_atomic, missing_parents, dir_of, make_dirs, sync_dirs, write_temp,
  create_file, write_file, rename_file, sync_dir, attempt_sync, dirs_from, make_dir, remove_file,
  stat,
}
use medb.Name.{coll_path, temp_path, snapshot_name}
use medb.Db.Crash.{no_calls, run_told, crash_safe, crash_recovers}

abbrev pub nothing : Cell → Value
nothing k = none

abbrev pub fresh : List Outcome → Disk
fresh faults = record { wal = []; files = []; dirs = []; faults = faults }

pub fresh-Holds :
    (faults : List Outcome) → Holds sample_codec AnyText IsFilled (fresh faults) nothing
unfolding encode_batch lookup
fresh-Holds faults = record {
  logged = [];
  torn = [];
  on_disk = record {
    batch = [];
    wal = refl;
    encoded = tt;
    wire = tt;
    line = tt;
    readable = λ name content valid has_file. cc;
    plain = λ coll i v named has_value. cc;
  };
  value = λ k named. fresh_value k;
}
  where
    fresh_value : (k : Cell) → recovered sample_codec (fresh faults) [] k ≡ none
    fresh_value k = ap (λ o. over o (file_view sample_codec (fresh faults) k)) (touch_all-nil k)

pub opened_ok :
    (faults : List Outcome)
    → (open_db sample_codec 100 50 (fresh faults)).0 ≡ ok (new_db 100 50 (fresh faults))
unfolding open_db recover load load_paths replay_log replay_lines cut_line write_snapshot
opened_ok faults = refl

abbrev pub set_rec : Bytes → Bytes → Bytes → Record
set_rec coll id doc = record { op = op_set; coll = coll; id = id; doc = doc }

abbrev pub first : Record
first = set_rec (bytes "users") (bytes "ann") (bytes "{}")

abbrev pub second : Record
second = set_rec (bytes "users") (bytes "bob") (bytes "[]")

-- The calls of the first write and of the snapshot succeed, the second write leaves three bytes.
abbrev full_disk : List Outcome
full_disk =
    success
    ∷ success
    ∷ success
    ∷ success
    ∷ success
    ∷ success
    ∷ success
    ∷ success
    ∷ success
    ∷ success
    ∷ success
    ∷ success
    ∷ failure 3
    ∷ []

abbrev events : List Event
events = call first ∷ notify ∷ tick ∷ call second ∷ notify ∷ []

abbrev live_db : Db
live_db = new_db 100 50 (fresh full_disk)

events_wire : WireEvents AnyText IsFilled events
unfolding valid_name
events_wire = ((refl, tt, inl (refl, omega arith)), ((refl, tt, inl (refl, omega arith)), tt))

abbrev after : Db
after = run sample_codec events live_db

abbrev known : Calls
known = watch_all sample_codec events live_db no_calls

run_told_example :
    All (λ p. outcome p.0 after.settled ≡ some none) known.told
    × All (λ p. outcome p.0 after.settled ≢ some none) known.waiting
run_told_example =
    run_told sample_laws 100 50 (fresh full_disk) nothing live_db events (fresh-Holds full_disk)
      (opened_ok full_disk)

abbrev file_text : Bytes
file_text = put_docs ((bytes "ann", bytes "{}") ∷ [])

after_disk : after.disk ≡ record {
  wal = 1 ∷ 137 ∷ 135 ∷ [];
  files = (coll_path (bytes "users"), file_text) ∷ [];
  dirs = [];
  faults = [];
}
unfolding append_wal apply apply_op attempt attempt_sync bytes_eq capture coll_path create_file
    dir_of dirs_from docs_of encode_batch enqueue erase flush insert log_batch lookup make_dir
    make_dirs mark missing_parents mkdir_all on_notify on_tick op_tag put_docs put_field put_record
    remove_coll remove_colls remove_file rename_file run stat step sync_dir sync_dirs take_snapshot
    temp_path truncate_wal write write_file write_file_atomic write_log write_snaps write_snapshot
    write_temp
after_disk = refl

-- The client of the first write is told that it is durable, the client of the second is not.
known_after : known ≡ record { told = (0, first) ∷ []; waiting = (1, second) ∷ [] }
unfolding append_wal apply apply_op attempt attempt_sync bytes_eq capture coll_path create_file
    dir_of dirs_from docs_of encode_batch enqueue erase flush insert log_batch lookup make_dir
    make_dirs mark missing_parents mkdir_all on_notify on_tick op_tag put_docs put_field put_record
    remove_coll remove_colls remove_file rename_file stat step sync_dir sync_dirs take_snapshot
    temp_path truncate_wal watch watch_all write write_file write_file_atomic write_log write_snaps
    write_snapshot write_temp
known_after = refl

abbrev ann : Cell
ann = doc_cell (bytes "users") (bytes "ann")

ann-IsNamed : IsNamed ann
unfolding valid_name
ann-IsNamed = refl

ann_untouched : touch_all (records known.waiting) ann ≡ none
unfolding touch_all touch bytes_eq
ann_untouched = rw known_after

crash_recovers_example :
    (again : Db) × ((recover sample_codec 100 50 (record after.disk { faults = [] })).0 ≡ ok again)
    × (view again.store.colls ann ≡ over (touch_all (records known.told) ann) none)
crash_recovers_example =
    crash_recovers sample_laws 100 50 (fresh full_disk) nothing live_db events
      (fresh-Holds full_disk) (opened_ok full_disk) events_wire 100 50 ann ann-IsNamed ann_untouched

-- The next `Open`, of which the first call fails.
abbrev again_faults : List Outcome
again_faults = []

abbrev reopened : Disk → Result Db
reopened d = (open_db sample_codec 100 50 (record d { faults = again_faults })).0

-- The file is loaded, and the torn tail is cut off.
abbrev left : Disk
left = record {
  wal = 1 ∷ 137 ∷ 135 ∷ [];
  files = (coll_path (bytes "users"), file_text) ∷ [];
  dirs = [];
  faults = [];
}

abbrev again : Db
again = record (new_db 100 50 (record left { wal = [] })) {
  store = record { colls = (bytes "users", (bytes "ann", bytes "{}") ∷ []) ∷ []; dirty = [] };
}

reopened_ok : reopened after.disk ≡ ok again
unfolding open_db recover load load_paths replay_log replay_lines cut_line read_record get_record
    get_field tag_op truncate_wal write_snapshot snapshot_name get_docs valid_name attempt lookup
    insert bytes_eq coll_path temp_path put_docs put_field
reopened_ok = rw after_disk

crash_safe_example : view again.store.colls ann ≡ over (touch_all (records known.told) ann) none
crash_safe_example =
    crash_safe sample_laws 100 50 (fresh full_disk) nothing live_db events (fresh-Holds full_disk)
      (opened_ok full_disk) events_wire 100 50 again_faults again ann reopened_ok ann-IsNamed
      ann_untouched
