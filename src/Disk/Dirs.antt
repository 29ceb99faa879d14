-- ===== src/Disk/Dirs.antt =====
-- `MkdirAll` and `SyncDir` of internal/fsutil/fsutil.go.
use medb.Base.{◌≡◌, refl, ap, ◌∙◌, List, [], ◌∷◌, Bytes, arith, inl, inr}
use medb.Result.{Error, err, not_directory, Result-cases}
use medb.Disk.{
  Disk, Io, modify, ◌>>◌, attempt, attempt_sync, stat, missing_parents, make_dir, make_dirs,
  sync_dir, sync_dirs, mkdir_all, dir_chain, reversed, is_file,
}
use medb.Disk.Keeps.{Keeps, Quiet, Quiet-order, Keeps-bind, bind_ok, bind_err, pure-Quiet}

modify_dirs-Quiet : (dir : Bytes) → Keeps Quiet (modify (λ d'. record d' { dirs = dir ∷ d'.dirs }))
modify_dirs-Quiet dir d = record { wal = refl; files = refl }

make_dir-Quiet : (dir : Bytes) → Keeps Quiet (make_dir dir)
unfolding make_dir attempt
make_dir-Quiet dir d = ground arith

pub make_dirs-Quiet : (dirs : List Bytes) → Keeps Quiet (make_dirs dirs)
unfolding make_dirs
make_dirs-Quiet [] = pure-Quiet tt
make_dirs-Quiet (dir ∷ dirs) =
    Keeps-bind Quiet-order (make_dir dir) (λ _. make_dirs dirs) (make_dir-Quiet dir)
      (λ _. make_dirs-Quiet dirs)

pub sync_dir-Quiet : (dir : Bytes) → Keeps Quiet (sync_dir dir)
unfolding sync_dir attempt attempt_sync
sync_dir-Quiet dir d = ground arith

pub sync_dirs-Quiet : (dirs : List Bytes) → Keeps Quiet (sync_dirs dirs)
unfolding sync_dirs
sync_dirs-Quiet [] = pure-Quiet tt
sync_dirs-Quiet (dir ∷ dirs) =
    Keeps-bind Quiet-order (sync_dir dir) (λ _. sync_dirs dirs) (sync_dir-Quiet dir)
      (λ _. sync_dirs-Quiet dirs)

-- Only `stat` is called: the disk is the same, and ENOTDIR is the one error.
missing_parents_lem :
    (up : List Bytes) (d : Disk)
    → ((missing_parents up d).1 ≡ d)
      × ((e : Error) → (missing_parents up d).0 ≡ err e → e ≡ not_directory)
unfolding missing_parents
missing_parents_lem [] d = (refl, λ e h. cc)
missing_parents_lem (dir ∷ up) d =
    let (same, only) = missing_parents_lem up d in (ground arith, λ e h. ground (arith, only e))

missing_parents-Quiet : (up : List Bytes) → Keeps Quiet (missing_parents up)
missing_parents-Quiet up d = rw (missing_parents_lem up d).0 (Quiet-order.same d)

pub mkdir_all-Quiet : (path : Bytes) → Keeps Quiet (mkdir_all path)
unfolding mkdir_all
mkdir_all-Quiet path =
    Keeps-bind Quiet-order (missing_parents (reversed (dir_chain path) []))
      (λ parents. make_dirs (dir_chain path) >> sync_dirs (reversed parents []))
      (missing_parents-Quiet (reversed (dir_chain path) []))
      λ parents.
        Keeps-bind Quiet-order (make_dirs (dir_chain path)) (λ _. sync_dirs (reversed parents []))
          (make_dirs-Quiet (dir_chain path)) (λ _. sync_dirs-Quiet (reversed parents []))

make_dirs-through_file :
    (top : Bytes) (down : List Bytes) (d : Disk)
    → stat top d ≡ is_file
    → (make_dirs (top ∷ down) d).0 ≡ err not_directory
unfolding make_dirs make_dir
make_dirs-through_file top down d h = ground arith

-- `MkdirAll` of a path that leads through a file fails with ENOTDIR, whatever else happens.
pub mkdir_all-through_file :
    (path top : Bytes) (down : List Bytes) (d : Disk)
    → dir_chain path ≡ top ∷ down
    → stat top d ≡ is_file
    → (mkdir_all path d).0 ≡ err not_directory
unfolding mkdir_all
mkdir_all-through_file path top down d chain file =
    let ups = reversed (dir_chain path) [] in
    let (same, only) = missing_parents_lem ups d in
    elim (Result-cases (missing_parents ups d).0) [
      | inl (parents, e) ↦
          ap (λ t. t.0) (bind_ok (rest path) (missing_parents ups) d e)
          ∙ ap (λ t. t.0)
              (bind_err (λ _. sync_dirs (reversed parents [])) (make_dirs (dir_chain path))
                (missing_parents ups d).1
                (rw (same, chain) (make_dirs-through_file top down d file)))
      | inr (e, failed) ↦
          ap (λ t. t.0) (bind_err (rest path) (missing_parents ups) d failed)
          ∙ ap err (only e failed)
    ]
  where
    rest : Bytes → List Bytes → Io (Unit {0})
    rest path parents = make_dirs (dir_chain path) >> sync_dirs (reversed parents [])
