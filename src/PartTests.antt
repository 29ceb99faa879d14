-- ===== src/PartTests.antt =====
-- Examples of the log, the snapshots, the file calls and the documents, with the sample codec.
use medb.Base.{
  ◌≡◌, refl, true, Option, none, some, List, [], ◌∷◌, ◌++◌, arith, Bytes, ℕ, ◌+◌, length, bytes,
  inl, lookup, insert, bytes_eq,
}
use medb.Result.{Result, ok}
use medb.Name.{valid_name, coll_path, snapshot_name}
use medb.Store.{op_set, op_del, Record, Store, Colls, apply_all, empty_store}
use medb.Store.Cells.{doc_cell, view, over, touch, touch_op}
use medb.Store.History.{touch_all, apply_all-view}
use medb.Codec.Sample.{
  sample_codec, sample_laws, put_record, put_field, op_tag, get_docs, put_docs, get_field,
}
use medb.Wal.{encode_batch, replay_lines, cut_line}
use medb.Wal.RoundTrip.{Encodes, replay_lines-encode_batch}
use medb.Wal.Tail.{Kept, replay_lines_total, replay_lines-Kept}
use medb.Disk.{Disk, Outcome, success, failure, write_file_atomic}
use medb.Disk.Atomic.{Replaced, write_file_atomic-Replaced}
use medb.Snapshot.{Plan, capture, flush, load, load_paths}
use medb.Snapshot.Cut.{Flushed, flush-Flushed}
use medb.Snapshot.Capture.{target}
use medb.Snapshot.Load.{stored, load-stored}

abbrev users : Bytes
users = bytes "users"

abbrev set_ann : Record
set_ann = record { op = op_set; coll = users; id = bytes "ann"; doc = bytes "{}" }

abbrev del_ann : Record
del_ann = record { op = op_del; coll = users; id = bytes "ann"; doc = [] }

abbrev set_bob : Record
set_bob = record { op = op_set; coll = users; id = bytes "bob"; doc = bytes "[]" }

abbrev recs : List Record
recs = set_ann ∷ set_bob ∷ []

-- The line of a `set` record.
abbrev line : Bytes → Bytes → Bytes
line id doc = 1 ∷ (put_field users ++ (put_field id ++ (put_field doc ++ [])))

abbrev lines : List Bytes
lines = line (bytes "ann") (bytes "{}") ∷ line (bytes "bob") (bytes "[]") ∷ []

lines_encode : Encodes sample_codec recs lines
unfolding put_record op_tag
lines_encode = (refl, (refl, tt))

named_users : valid_name users ≡ true
unfolding valid_name
named_users = refl

replay_lines-encode_batch_example :
    replay_lines sample_codec
      (length (encode_batch lines ++ 1 ∷ []) + 1)
      1
      0
      (encode_batch lines ++ 1 ∷ [])
      empty_store
    ≡ some (ok (0 + length (encode_batch lines), apply_all recs empty_store))
replay_lines-encode_batch_example =
    replay_lines-encode_batch sample_codec sample_laws recs lines (1 ∷ [])
      (length (encode_batch lines ++ 1 ∷ []) + 1) 1 0 empty_store
      ((named_users, tt, inl (refl, omega arith)), ((named_users, tt, inl (refl, omega arith)), tt))
      lines_encode ((λ e. absurd (omega arith)), tt) (omega arith)

-- A log of one torn byte.
torn_replayed : replay_lines sample_codec 5 1 0 (7 ∷ []) empty_store ≡ some (ok (0, empty_store))
unfolding replay_lines cut_line
torn_replayed = refl

replay_lines-Kept_example : Kept sample_codec 5 1 0 (7 ∷ []) empty_store 0 empty_store
replay_lines-Kept_example =
    replay_lines-Kept sample_codec 5 1 0 (7 ∷ []) empty_store 0 empty_store torn_replayed

replay_lines_total_example :
    (r : Result (ℕ × Store)) × (replay_lines sample_codec 5 1 0 (bytes "x\ny") empty_store ≡ some r)
replay_lines_total_example =
    replay_lines_total sample_codec 5 1 0 (bytes "x\ny") empty_store (omega arith)

apply_all-view_example :
    view (apply_all (set_ann ∷ del_ann ∷ []) empty_store).colls (doc_cell users (bytes "ann"))
    ≡ over
        (touch_all (set_ann ∷ del_ann ∷ []) (doc_cell users (bytes "ann")))
        (view [] (doc_cell users (bytes "ann")))
apply_all-view_example =
    apply_all-view (set_ann ∷ del_ann ∷ []) empty_store (doc_cell users (bytes "ann"))

bob_untouched : touch_all (set_bob ∷ []) (doc_cell users (bytes "ann")) ≡ none
unfolding touch_all touch touch_op bytes_eq
bob_untouched = refl

abbrev disk : List Outcome → Disk
disk faults = record { wal = bytes "log"; files = []; dirs = []; faults = faults }

write_file_atomic-Replaced_example :
    Replaced
      (bytes "a.json")
      (bytes "{}")
      (disk (success ∷ failure 1 ∷ []))
      (write_file_atomic (bytes "a.json") (bytes "{}") (disk (success ∷ failure 1 ∷ []))).1
write_file_atomic-Replaced_example =
    write_file_atomic-Replaced (bytes "a.json") (bytes "{}") (disk (success ∷ failure 1 ∷ []))

-- One dirty collection to write, and one to drop.
abbrev colls : Colls
colls = (users, (bytes "ann", bytes "{}") ∷ []) ∷ []

abbrev content : Bytes
content = put_docs ((bytes "ann", bytes "{}") ∷ [])

abbrev plan : Plan
plan = record { snaps = (users, content) ∷ []; dropped = bytes "old" ∷ [] }

captured : capture sample_codec ((users, true) ∷ (bytes "old", true) ∷ []) colls ≡ ok plan
unfolding capture lookup bytes_eq
captured = refl

abbrev goal : Bytes → Option Bytes
goal = target sample_codec colls (λ name. none)

goal_snap : some content ≡ goal users
unfolding lookup bytes_eq
goal_snap = refl

goal_drop : goal (bytes "old") ≡ none
unfolding lookup bytes_eq
goal_drop = refl

flush-Flushed_example :
    Flushed goal plan
      (disk (success ∷ failure 0 ∷ []))
      (flush plan (disk (success ∷ failure 0 ∷ []))).0
      (flush plan (disk (success ∷ failure 0 ∷ []))).1
flush-Flushed_example =
    flush-Flushed goal plan (goal_snap, tt) (goal_drop, tt) (disk (success ∷ failure 0 ∷ []))

loaded : load sample_codec ((coll_path users, content) ∷ (bytes "wal.log", []) ∷ []) ≡ ok colls
unfolding load load_paths lookup bytes_eq coll_path snapshot_name get_docs put_docs put_field
    get_field valid_name insert
loaded = refl

load-stored_example :
    lookup users colls
    ≡ stored sample_codec ((coll_path users, content) ∷ (bytes "wal.log", []) ∷ []) users
load-stored_example =
    load-stored sample_codec ((coll_path users, content) ∷ (bytes "wal.log", []) ∷ []) colls users
      named_users loaded
