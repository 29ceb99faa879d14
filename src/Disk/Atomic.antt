-- ===== src/Disk/Atomic.antt =====
-- `WriteFileAtomic` of internal/fsutil/fsutil.go, at every point where it may stop.
use medb.Base.{
  ◌≡◌, ap, ◌∙◌, sym, ◌⊎◌, inl, inr, [], Bytes, some, arith, false, lookup, lookup-insert,
  lookup-erase, bytes_eq, bytes_eq_iff, bytes, length, length-append, lookup-insert_self,
  Bool-cases, erase, insert,
}
use medb.Result.{ok, Result-cases}
use medb.Name.{temp_path}
use medb.Disk.{
  Disk, Io, ◌>>◌, attempt, attempt_sync, create_file, write_file, write_temp, rename_file,
  write_file_atomic, sync_dir, dir_of,
}
use medb.Disk.Keeps.{bind_ok, bind_err}

-- Only the file at `tmp` may differ.
pub record Beside (tmp : Bytes) (d d' : Disk) : Type 0 where
  pub wal : d'.wal ≡ d.wal
  pub others : (q : Bytes) → bytes_eq tmp q ≡ false → lookup q d'.files ≡ lookup q d.files

module _ (tmp content : Bytes) (d : Disk) where
  write_temp-Beside : Beside tmp d (write_temp tmp content d).1
  unfolding write_temp create_file write_file attempt
  write_temp-Beside = record { wal = ground arith; others = λ q ne. grind (arith, lookup-insert) }

  write_temp-content :
      (write_temp tmp content d).0 ≡ ok tt
      → lookup tmp (write_temp tmp content d).1.files ≡ some content
  unfolding write_temp create_file write_file attempt
  write_temp-content h = ground (arith, lookup-insert_self tmp content (insert tmp [] d.files))

temp_path-ne : (path : Bytes) → bytes_eq (temp_path path) path ≡ false
unfolding temp_path
temp_path-ne path = elim (Bool-cases (bytes_eq (temp_path path) path)) [
  | inl same ↦ absurd (
      omega (
        arith,
        ap length ((bytes_eq_iff (temp_path path) path).0 same),
        length-append path (bytes ".tmp"),
      ))
  | inr ne ↦ ne
]

-- What an atomic write of `content` to `path` may have done: the file has its old content or
-- `content`, and apart from it only the temporary file may differ.
pub record Replaced (path content : Bytes) (d d' : Disk) : Type 0 where
  pub wal : d'.wal ≡ d.wal
  pub others :
      (q : Bytes)
      → bytes_eq path q ≡ false
      → bytes_eq (temp_path path) q ≡ false
      → lookup q d'.files ≡ lookup q d.files
  pub atomic : (lookup path d'.files ≡ lookup path d.files) ⊎ (lookup path d'.files ≡ some content)

abbrev put_in_place : Bytes → Io (Unit {0})
put_in_place path = rename_file (temp_path path) path >> sync_dir (dir_of path)

module _ (path content : Bytes) (d : Disk)
    (full : lookup (temp_path path) d.files ≡ some content) where
  put_in_place-others :
      (q : Bytes)
      → bytes_eq path q ≡ false
      → bytes_eq (temp_path path) q ≡ false
      → lookup q (put_in_place path d).1.files ≡ lookup q d.files
  unfolding rename_file sync_dir attempt attempt_sync
  put_in_place-others q p t = ground (
    arith,
    lookup-insert path q content (erase (temp_path path) d.files),
    lookup-erase (temp_path path) q d.files,
  )

  put_in_place-wal : (put_in_place path d).1.wal ≡ d.wal
  unfolding rename_file sync_dir attempt attempt_sync
  put_in_place-wal = ground arith

  put_in_place-atomic :
      (lookup path (put_in_place path d).1.files ≡ lookup path d.files)
      ⊎ (lookup path (put_in_place path d).1.files ≡ some content)
  unfolding rename_file sync_dir attempt attempt_sync
  put_in_place-atomic =
      ground (arith, lookup-insert_self path content (erase (temp_path path) d.files))

  put_in_place-ok :
      (put_in_place path d).0 ≡ ok tt → lookup path (put_in_place path d).1.files ≡ some content
  unfolding rename_file sync_dir attempt attempt_sync
  put_in_place-ok h =
      ground (arith, lookup-insert_self path content (erase (temp_path path) d.files))

module _ (path content : Bytes) (d : Disk) where
  abbrev tmp_disk : Disk
  tmp_disk = (write_temp (temp_path path) content d).1

  -- Whatever calls fail, an atomic write leaves the old content or the new one, and changes no
  -- other file but the temporary one.
  pub write_file_atomic-Replaced : Replaced path content d (write_file_atomic path content d).1
  unfolding write_file_atomic
  write_file_atomic-Replaced =
      let beside = write_temp-Beside (temp_path path) content d in
      let kept = beside.others path (temp_path-ne path) in
      elim (Result-cases (write_temp (temp_path path) content d).0) [
        | inl (u, e) ↦
            let full = write_temp-content (temp_path path) content d e in
            rw (bind_ok (λ _. put_in_place path) (write_temp (temp_path path) content) d e)
              (record {
                wal = put_in_place-wal path content tmp_disk full ∙ beside.wal;
                others = λ q p t.
                    put_in_place-others path content tmp_disk full q p t ∙ beside.others q t;
                atomic = ground (arith, put_in_place-atomic path content tmp_disk full, kept);
              })
        | inr (bad, e) ↦
            rw (bind_err (λ _. put_in_place path) (write_temp (temp_path path) content) d e)
              (record { wal = beside.wal; others = λ q p t. beside.others q t; atomic = inl kept })
      ]

  -- An atomic write that reports success has put the new content in place.
  pub write_file_atomic_ok :
      (write_file_atomic path content d).0 ≡ ok tt
      → lookup path (write_file_atomic path content d).1.files ≡ some content
  unfolding write_file_atomic
  write_file_atomic_ok h = elim (Result-cases (write_temp (temp_path path) content d).0) [
    | inl (u, e) ↦
        let full = write_temp-content (temp_path path) content d e in
        let go = bind_ok (λ _. put_in_place path) (write_temp (temp_path path) content) d e in
        ap (λ t. lookup path t.1.files) go
        ∙ put_in_place-ok path content tmp_disk full (sym (ap (λ t. t.0) go) ∙ h)
    | inr (bad, e) ↦
        let go = bind_err (λ _. put_in_place path) (write_temp (temp_path path) content) d e in
        cc (ap (λ t. t.0) go)
  ]
