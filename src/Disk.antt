-- ===== src/Disk.antt =====
-- The database directory, and the calls that the program makes on it: internal/fsutil/fsutil.go,
-- the `file` interface of wal.go, and what they use of package os. Paths are relative to the
-- directory, which is the empty path.
pub mod Calls
pub mod Keeps
pub mod Atomic
pub mod Dirs
unfoldable pub use Calls.*
use medb.Base.{
  ℕ, Bool, true, false, ◌||◌, Option, none, some, List, [], ◌∷◌, ◌++◌, ◌==◌, if◌then◌else◌,
  is_empty, is_some, take, any_of, Bytes, bytes_eq, Map, keys, lookup, insert, erase,
}
use medb.Result.{Result, ok, err, not_directory, io}
use medb.Name.{temp_path}

-- filepath.Dir: what stands before the last slash.
unfoldable pub dir_of : Bytes → Bytes
dir_of [] = []
dir_of (c ∷ rest) = let up = dir_of rest in if any_of (λ b. b == b'/') rest then c ∷ up else []

-- The directories on the way down to a path, the path itself last.
unfoldable pub dirs_from : Bytes → Bytes → List Bytes
dirs_from acc [] = acc ∷ []
dirs_from acc (c ∷ rest) =
    let more = dirs_from (acc ++ c ∷ []) rest in if c == b'/' then acc ∷ more else more

abbrev pub dir_chain : Bytes → List Bytes
dir_chain [] = []
dir_chain (c ∷ path) = dirs_from [] (c ∷ path)

pub data Stat : Type 0 where
  is_dir is_file missing blocked : Stat

-- os.Stat; `blocked` is ENOTDIR, for a path below a file.
unfoldable pub stat : Bytes → Disk → Stat
stat path d =
    if is_empty path || any_of (λ p. bytes_eq p path) d.dirs
    then is_dir
    else if is_some (lookup path d.files)
    then is_file
    else if any_of (λ p. is_some (lookup p d.files)) (dir_chain path)
    then blocked
    else missing

-- The loop of `mkdirAll` from the path upwards: the parents of the directories that are missing,
-- the deepest first. It ends at the latest at the database directory, which exists.
unfoldable pub missing_parents : List Bytes → Io (List Bytes)
missing_parents [] = pure []
missing_parents (dir ∷ up) = λ d. elim (stat dir d) [
  | is_dir ↦ (ok [], d)
  | is_file ↦ (ok [], d)
  | blocked ↦ (err not_directory, d)
  | missing ↦ (do parents ← missing_parents up; pure (dir_of dir ∷ parents)) d
]

-- os.Mkdir of one path, as os.MkdirAll calls it on its way down.
unfoldable pub make_dir : Bytes → Io (Unit {0})
make_dir dir d = elim (stat dir d) [
  | is_dir ↦ (ok tt, d)
  | missing ↦ (do attempt; modify (λ d'. record d' { dirs = dir ∷ d'.dirs })) d
  | _ ↦ (err not_directory, d)
]

-- os.MkdirAll
unfoldable pub make_dirs : List Bytes → Io (Unit {0})
make_dirs [] = pure tt
make_dirs (dir ∷ down) = do make_dir dir; make_dirs down

-- SyncDir: open, sync and close, where a sync that is not supported counts as done.
unfoldable pub sync_dir : Bytes → Io (Unit {0})
sync_dir path = do attempt; attempt_sync; attempt

unfoldable pub sync_dirs : List Bytes → Io (Unit {0})
sync_dirs [] = pure tt
sync_dirs (dir ∷ dirs) = do sync_dir dir; sync_dirs dirs

abbrev pub reversed : List Bytes → List Bytes → List Bytes
reversed [] acc = acc
reversed (x ∷ xs) acc = reversed xs (x ∷ acc)

-- MkdirAll
unfoldable pub mkdir_all : Bytes → Io (Unit {0})
mkdir_all path = do
  parents ← missing_parents (reversed (dir_chain path) [])
  make_dirs (dir_chain path)
  sync_dirs (reversed parents [])

-- os.OpenFile with O_CREATE and O_TRUNC
unfoldable pub create_file : Bytes → Io (Unit {0})
create_file path = do attempt; modify (λ d. record d { files = insert path [] d.files })

-- f.Write of a file just created: a failure may leave a prefix.
unfoldable pub write_file : Bytes → Bytes → Io (Unit {0})
write_file path content d =
    let (o, d') = next_outcome d in
    elim o [
      | success ↦ (ok tt, record d' { files = insert path content d'.files })
      | failure n ↦ (err io, record d' { files = insert path (take n content) d'.files })
      | unsupported ↦ (err io, d')
    ]

-- os.Rename: the file moves over whatever stands at `path`.
unfoldable pub rename_file : Bytes → Bytes → Io (Unit {0})
rename_file from path d = elim (lookup from d.files) [
  | none ↦ (err io, d)
  | some content ↦
      (do attempt; modify (λ d'. record d' { files = insert path content (erase from d'.files) })) d
]

unfoldable pub write_temp : Bytes → Bytes → Io (Unit {0})
write_temp tmp content = do create_file tmp; write_file tmp content; attempt; attempt

-- WriteFileAtomic
unfoldable pub write_file_atomic : Bytes → Bytes → Io (Unit {0})
write_file_atomic path content = do
  write_temp (temp_path path) content
  rename_file (temp_path path) path
  sync_dir (dir_of path)

-- Something stands in a directory.
unfoldable pub has_entries : Bytes → Disk → Bool
unfolding dir_of
has_entries path d =
    any_of (λ p. bytes_eq (dir_of p) path) (keys d.files)
    || any_of (λ p. bytes_eq (dir_of p) path) d.dirs

abbrev remove_dir : Bytes → List Bytes → List Bytes
remove_dir path [] = []
remove_dir path (p ∷ dirs) =
    let rest = remove_dir path dirs in if bytes_eq p path then rest else p ∷ rest

-- os.Remove of a path that is no file: a directory goes if it is empty, a path below a file is ENOTDIR,
-- and what does not exist is ErrNotExist (`false`).
unfoldable pub remove_other : Bytes → Io Bool
unfolding has_entries
remove_other path d = elim (stat path d) [
  | is_dir ↦
      if has_entries path d
      then (err io, d)
      else (do attempt; modify (λ d'. record d' { dirs = remove_dir path d'.dirs }); pure true) d
  | blocked ↦ (err not_directory, d)
  | _ ↦ (do attempt; pure false) d
]

-- os.Remove: whether there was something to remove, which is then gone.
unfoldable pub remove_file : Bytes → Io Bool
remove_file path d = elim (lookup path d.files) [
  | none ↦ remove_other path d
  | some _ ↦ (do attempt; modify (λ d'. record d' { files = erase path d'.files }); pure true) d
]
