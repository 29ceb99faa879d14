-- ===== src/Snapshot/Flush.antt =====
-- The calls of `writeSnapshot` (snapshot.go) that write and remove the collections' files.
use medb.Base.{
  ◌≡◌, refl, ap, sym, subst, ◌∙◌, ◌⊎◌, inl, List, [], ◌∷◌, All, arith, Option, some, none, Bytes,
  bytes_eq_iff, lookup, lookup-erase, lookup-erase_self,
}
use medb.Result.{Result, ok}
use medb.Name.{coll_path}
use medb.Disk.{
  Disk, Io, ◌>>◌, attempt, attempt_sync, dir_of, mkdir_all, write_file_atomic, remove_file,
  remove_other, sync_dir,
}
use medb.Disk.Keeps.{Keeps, IsPreorder, Keeps-bind, Quiet, bind_inv}
use medb.Disk.Dirs.{mkdir_all-Quiet}
use medb.Disk.Atomic.{Replaced, write_file_atomic-Replaced, write_file_atomic_ok}
use medb.Snapshot.{write_snaps, remove_coll, remove_colls}
use medb.Snapshot.Paths.{bytes_eq-coll_path, bytes_eq-temp_path}

-- The content of a collection's file.
abbrev pub file_of : Bytes → Disk → Option Bytes
file_of name d = lookup (coll_path name) d.files

-- `target` gives each collection the content that it is to have, none if it is to have no file.
module _ (target : Bytes → Option Bytes) where
  -- Each file has its old content or the target, and the log is as it was.
  pub record Toward (d d' : Disk) : Type 0 where
    pub wal : d'.wal ≡ d.wal
    pub files :
        (name : Bytes) → (file_of name d' ≡ file_of name d) ⊎ (file_of name d' ≡ target name)

  abbrev pub Done : Bytes → Disk → Type 0
  Done name d = file_of name d ≡ target name

  pub Toward-order : IsPreorder Toward
  Toward-order = record {
    same = λ d. record { wal = refl; files = λ name. inl refl };
    chain = λ a b c p q. record {
      wal = q.wal ∙ p.wal;
      files = λ name. ground (arith, p.files name, q.files name);
    };
  }

  pub Done-Toward : (name : Bytes) (d d' : Disk) → Toward d d' → Done name d → Done name d'
  Done-Toward name d d' t h = ground (arith, t.files name)

  Quiet-Toward : (d d' : Disk) → Quiet d d' → Toward d d'
  Quiet-Toward d d' q = record {
    wal = q.wal;
    files = λ name. inl (ap (lookup (coll_path name)) q.files);
  }

  Replaced-Toward :
      (name content : Bytes) (d d' : Disk)
      → some content ≡ target name
      → Replaced (coll_path name) content d d'
      → Toward d d'
  Replaced-Toward name content d d' goal r = record {
    wal = r.wal;
    files = λ other. ground (
      arith,
      bytes_eq-coll_path name other,
      bytes_eq_iff name other,
      r.others (coll_path other),
      bytes_eq-temp_path (coll_path name) other,
      r.atomic,
    );
  }

  abbrev pub Snaps : List (Bytes × Bytes) → Type 0
  Snaps = All (λ e. some e.1 ≡ target e.0)

  one_snap : Bytes → Bytes → Io (Unit {0})
  one_snap name content =
      mkdir_all (dir_of (coll_path name)) >> write_file_atomic (coll_path name) content

  pub write_snaps-Toward :
      (snaps : List (Bytes × Bytes)) → Snaps snaps → Keeps Toward (write_snaps snaps)
  unfolding write_snaps
  write_snaps-Toward [] h = λ d. Toward-order.same d
  write_snaps-Toward ((name, content) ∷ snaps) h =
      Keeps-bind Toward-order (mkdir_all (dir_of (coll_path name)))
        (λ _. write_file_atomic (coll_path name) content >> write_snaps snaps)
        (λ d. Quiet-Toward d _ (mkdir_all-Quiet (dir_of (coll_path name)) d))
        λ _.
          Keeps-bind Toward-order (write_file_atomic (coll_path name) content)
            (λ _. write_snaps snaps)
            (λ d.
              Replaced-Toward name content d _ h.0
                (write_file_atomic-Replaced (coll_path name) content d))
            (λ _. write_snaps-Toward snaps h.1)

  -- The snapshots of a run that succeeds are all in place.
  pub write_snaps-Done :
      (snaps : List (Bytes × Bytes)) (d : Disk)
      → Snaps snaps
      → (write_snaps snaps d).0 ≡ ok tt
      → All (λ e. Done e.0 (write_snaps snaps d).1) snaps
  unfolding write_snaps
  write_snaps-Done [] d h s = tt
  write_snaps-Done ((name, content) ∷ snaps) d h s =
      let path = coll_path name in
      let rest = λ (_ : Unit {0}). write_file_atomic path content >> write_snaps snaps in
      let (_, made, to_write) = bind_inv rest (mkdir_all (dir_of path)) d s in
      let d1 = (mkdir_all (dir_of path) d).1 in
      let (_, written, to_rest) =
        bind_inv (λ _. write_snaps snaps) (write_file_atomic path content) d1
          (sym (ap (λ t. t.0) to_write) ∙ s) in
      let d2 = (write_file_atomic path content d1).1 in
      let e = to_write ∙ to_rest in
      let kept = Done-Toward name d2 (write_snaps snaps d2).1 (write_snaps-Toward snaps h.1 d2) in
      subst (λ (t : Result (Unit {0}) × Disk). Done name t.1 × All (λ e. Done e.0 t.1) snaps)
        (sym e)
        (
          kept (write_file_atomic_ok path content d1 written ∙ h.0),
          write_snaps-Done snaps d2 h.1 (sym (ap (λ t. t.0) e) ∙ s),
        )

  abbrev pub Drops : List Bytes → Type 0
  Drops = All (λ name. target name ≡ none)

  remove_coll-Toward : (name : Bytes) → target name ≡ none → Keeps Toward (remove_coll name)
  unfolding remove_coll remove_file remove_other sync_dir attempt attempt_sync
  remove_coll-Toward name h d = record {
    wal = ground arith;
    files = λ other. ground (
      arith,
      bytes_eq-coll_path name other,
      bytes_eq_iff name other,
      lookup-erase (coll_path name) (coll_path other) d.files,
    );
  }

  remove_coll-Done :
      (name : Bytes) (d : Disk)
      → target name ≡ none
      → (remove_coll name d).0 ≡ ok tt
      → Done name (remove_coll name d).1
  unfolding remove_coll remove_file remove_other sync_dir attempt attempt_sync
  remove_coll-Done name d h s = ground (arith, lookup-erase_self (coll_path name) d.files)

  pub remove_colls-Toward :
      (dropped : List Bytes) → Drops dropped → Keeps Toward (remove_colls dropped)
  unfolding remove_colls
  remove_colls-Toward [] h = λ d. Toward-order.same d
  remove_colls-Toward (name ∷ dropped) h =
      Keeps-bind Toward-order (remove_coll name) (λ _. remove_colls dropped)
        (remove_coll-Toward name h.0) (λ _. remove_colls-Toward dropped h.1)

  pub remove_colls-Done :
      (dropped : List Bytes) (d : Disk)
      → Drops dropped
      → (remove_colls dropped d).0 ≡ ok tt
      → All (λ name. Done name (remove_colls dropped d).1) dropped
  unfolding remove_colls
  remove_colls-Done [] d h s = tt
  remove_colls-Done (name ∷ dropped) d h s =
      let (_, removed, e) = bind_inv (λ _. remove_colls dropped) (remove_coll name) d s in
      let d1 = (remove_coll name d).1 in
      let kept =
        Done-Toward name d1 (remove_colls dropped d1).1 (remove_colls-Toward dropped h.1 d1) in
      subst (λ (t : Result (Unit {0}) × Disk). Done name t.1 × All (λ n. Done n t.1) dropped)
        (sym e)
        (
          kept (remove_coll-Done name d h.0 removed),
          remove_colls-Done dropped d1 h.1 (sym (ap (λ t. t.0) e) ∙ s),
        )
