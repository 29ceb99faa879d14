-- ===== src/Snapshot.antt =====
-- Snapshots: snapshot.go. `capture` is what `writeSnapshot` does under `db.mu`, `flush` the calls
-- that follow it, `load` reads the snapshots back.
pub mod Paths
pub mod Flush
pub mod Cut
pub mod Capture
pub mod Load
use medb.Base.{
  ℕ, Bool, Option, none, some, List, [], ◌∷◌, if◌then◌else◌, take, Bytes, Map, lookup, insert, keys,
}
use medb.Result.{Result, ok, err, io, json, corrupt_snapshot, or_error, and_then}
use medb.Name.{coll_path, snapshot_name}
use medb.Store.{Colls}
use medb.Codec.{Codec}
use medb.Disk.{
  Io, pure, modify, ◌>>=◌, ◌>>◌, attempt, dir_of, sync_dir, mkdir_all, write_file_atomic,
  remove_file,
}

-- `snaps` and `dropped` of `writeSnapshot`.
pub record Plan : Type 0 where
  pub snaps : List (Bytes × Bytes)
  pub dropped : List Bytes

abbrev pub add_snap : Bytes → Bytes → Plan → Plan
add_snap name content p = record p { snaps = (name, content) ∷ p.snaps }

abbrev pub add_dropped : Bytes → Plan → Plan
add_dropped name p = record p { dropped = name ∷ p.dropped }

-- The loop over the dirty names: a dirty name that no longer has a collection was dropped.
unfoldable pub capture : Codec → Map Bool → Colls → Result Plan
capture c [] colls = ok (record { snaps = []; dropped = [] })
capture c ((name, _) ∷ dirty) colls = elim (lookup name colls) [
  | none ↦ and_then (capture c dirty colls) (λ p. ok (add_dropped name p))
  | some coll ↦
      and_then (or_error (c.marshal_docs coll) json)
        (λ content. and_then (capture c dirty colls) (λ p. ok (add_snap name content p)))
]

unfoldable pub write_snaps : List (Bytes × Bytes) → Io (Unit {0})
write_snaps [] = pure tt
write_snaps ((name, content) ∷ snaps) = do
  mkdir_all (dir_of (coll_path name))
  write_file_atomic (coll_path name) content
  write_snaps snaps

-- A collection dropped before its first flush has no file.
unfoldable pub remove_coll : Bytes → Io (Unit {0})
remove_coll name = do
  existed ← remove_file (coll_path name)
  if existed then sync_dir (dir_of (coll_path name)) else pure tt

unfoldable pub remove_colls : List Bytes → Io (Unit {0})
remove_colls [] = pure tt
remove_colls (name ∷ dropped) = do remove_coll name; remove_colls dropped

-- db.log.Truncate and db.log.Sync
unfoldable pub truncate_wal : ℕ → Io (Unit {0})
truncate_wal n = do attempt; modify (λ d. record d { wal = take n d.wal }); attempt

unfoldable pub flush : Plan → Io (Unit {0})
flush p = do write_snaps p.snaps; remove_colls p.dropped; truncate_wal 0

-- The walk over the paths in the directory, each file being read when it is met.
unfoldable pub load_paths : Codec → Map Bytes → List Bytes → Result Colls
load_paths c files [] = ok []
load_paths c files (path ∷ paths) = elim (snapshot_name path) [
  | none ↦ load_paths c files paths
  | some name ↦ elim (lookup path files) [
    | none ↦ err io
    | some content ↦ elim (c.unmarshal_docs content) [
      | none ↦ err (corrupt_snapshot path)
      | some coll ↦ and_then (load_paths c files paths) (λ colls. ok (insert name coll colls))
    ]
  ]
]

unfoldable pub load : Codec → Map Bytes → Result Colls
unfolding load_paths
load c files = load_paths c files (keys files)
