-- ===== src/Db/LockName.antt =====
-- Collections below the name of the lock file: `validName` of medb.go, `writeSnapshot` of snapshot.go
-- and the file `lock` that `Open` makes.
use medb.Base.{
  ◌≡◌, ap, inl, inr, true, Bool-cases, none, some, List, [], ◌∷◌, ◌++◌, arith, Bytes, bytes, any_of,
  ◌==◌, lookup,
}
use medb.Name.{coll_path}
use medb.Result.{err, not_directory}
use medb.Store.{Docs}
use medb.Codec.{Codec}
use medb.Disk.{
  Disk, ◌>>◌, stat, is_file, dir_of, dir_chain, dirs_from, mkdir_all, write_file_atomic,
}
use medb.Disk.Keeps.{bind_err}
use medb.Disk.Dirs.{mkdir_all-through_file}
use medb.Snapshot.{capture, write_snaps, remove_colls, truncate_wal, flush}
use medb.Db.{Db, write_snapshot, take_snapshot}

abbrev pub below_lock : Bytes → Bytes
below_lock rest = bytes "lock/" ++ rest

lock_chain :
    (path : Bytes)
    → (down : List Bytes) × (dir_chain (dir_of (below_lock path)) ≡ bytes "lock" ∷ down)
unfolding dir_of dirs_from
lock_chain path = elim (Bool-cases (any_of (λ b. b == b'/') path)) [
  | inl deep ↦ (dirs_from (bytes "lock/") (dir_of path), rw deep)
  | inr flat ↦ ([], rw flat)
]

flush_blocked :
    (rest content : Bytes) (snaps : List (Bytes × Bytes)) (dropped : List Bytes) (d : Disk)
    → stat (bytes "lock") d ≡ is_file
    → (flush (record { snaps = (below_lock rest, content) ∷ snaps; dropped = dropped }) d).0
      ≡ err not_directory
unfolding flush write_snaps coll_path
flush_blocked rest content snaps dropped d file =
    let path = coll_path (below_lock rest) in
    let (down, chain) = lock_chain (rest ++ bytes ".json") in
    let blocked = mkdir_all-through_file (dir_of path) (bytes "lock") down d chain file in
    let failed =
      bind_err (λ _. write_file_atomic path content >> write_snaps snaps) (mkdir_all (dir_of path))
        d blocked in
    ap (λ t. t.0)
      (bind_err (λ _. remove_colls dropped >> truncate_wal 0)
        (write_snaps ((below_lock rest, content) ∷ snaps)) d (ap (λ t. t.0) failed))

-- Where the lock file is in place and a collection named `lock/...` is what changed, a snapshot fails
-- with ENOTDIR, whatever the outcomes of the calls before.
pub lock_name_blocks :
    (c : Codec) (db : Db) (rest content : Bytes) (docs : Docs)
    → stat (bytes "lock") db.disk ≡ is_file
    → db.run_err ≡ none
    → db.store.dirty ≡ (below_lock rest, true) ∷ []
    → lookup (below_lock rest) db.store.colls ≡ some docs
    → c.marshal_docs docs ≡ some content
    → (write_snapshot c db).run_err ≡ some not_directory
unfolding write_snapshot take_snapshot capture
lock_name_blocks c db rest content docs file no_error dirty there enc =
    let blocked = flush_blocked rest content [] [] db.disk file in ground arith
