-- ===== src/Name.antt =====
-- Collection names and the files that hold them: `validName` and `collPath` of medb.go, the file
-- filter of `load` in snapshot.go, and the server's copy of the grammar in cmd/medb/protocol.go.
pub mod Grammar
pub mod Files
mod Tests
use medb.Base.{
  ℕ, ◌+◌, ◌-◌, Bool, true, false, ◌&&◌, ◌||◌, Option, none, some, [], ◌∷◌, ◌++◌, ltb, leb, ◌==◌,
  if◌then◌else◌, length, take, drop, Bytes, bytes, bytes_eq, has_prefix,
}

abbrev pub max_name_len : ℕ
max_name_len = 240

-- The letters of a path segment.
pub is_name_char : ℕ → Bool
is_name_char c = (leb b'a' c && leb c b'z') || (leb b'0' c && leb c b'9') || c == b'_' || c == b'-'

-- The loop over the bytes; `seg` counts those of the current segment.
pub valid_segments : ℕ → Bytes → Bool
valid_segments seg [] = ltb 0 seg
valid_segments seg (c ∷ rest) =
    let after_slash = valid_segments 0 rest in
    let in_segment = valid_segments (seg + 1) rest in
    if c == b'/'
    then (if seg == 0 then false else after_slash)
    else if is_name_char c
    then in_segment
    else false

unfoldable pub valid_name : Bytes → Bool
unfolding valid_segments is_name_char
valid_name name = if ltb max_name_len (length name) then false else valid_segments 0 name

-- cmd/medb/protocol.go: the copy that the server checks before it calls `medb.C`.
pub is_collection_char : ℕ → Bool
is_collection_char c =
    (leb b'a' c && leb c b'z') || (leb b'0' c && leb c b'9') || c == b'-' || c == b'_'

pub collection_segments : ℕ → Bytes → Bool
collection_segments segment [] = ltb 0 segment
collection_segments segment (c ∷ rest) =
    let after_slash = collection_segments 0 rest in
    let in_segment = collection_segments (segment + 1) rest in
    if c == b'/'
    then (if segment == 0 then false else after_slash)
    else if is_collection_char c
    then in_segment
    else false

unfoldable pub valid_collection_name : Bytes → Bool
unfolding collection_segments is_collection_char
valid_collection_name name =
    if length name == 0 || ltb 240 (length name) then false else collection_segments 0 name

unfoldable pub reserved_collection : Bytes → Bool
reserved_collection name = bytes_eq name (bytes "_meta") || has_prefix name (bytes "_meta/")

-- strings.HasSuffix, strings.TrimSuffix
unfoldable pub has_suffix : Bytes → Bytes → Bool
has_suffix s p = leb (length p) (length s) && bytes_eq (drop (length s - length p) s) p

pub trim_suffix : Bytes → Bytes → Bytes
trim_suffix s p = if has_suffix s p then take (length s - length p) s else s

-- `d.Name()` of a walked entry: what follows the last slash.
pub base_from : Bytes → Bytes → Bytes
base_from acc [] = acc
base_from acc (c ∷ rest) = base_from (if c == b'/' then [] else acc ++ c ∷ []) rest

abbrev pub json_suffix : Bytes
json_suffix = bytes ".json"

-- The path of a collection's file below the database directory.
unfoldable pub coll_path : Bytes → Bytes
coll_path name = name ++ json_suffix

-- The temporary file of an atomic write.
unfoldable pub temp_path : Bytes → Bytes
temp_path path = path ++ bytes ".tmp"

-- What `load` makes of a walked file, by its path below the directory: the collection that it
-- holds, or nothing if the file is skipped.
unfoldable pub snapshot_name : Bytes → Option Bytes
unfolding has_suffix trim_suffix base_from valid_name
snapshot_name rel =
    if has_suffix (base_from [] rel) json_suffix
    then (let name = trim_suffix rel json_suffix in if valid_name name then some name else none)
    else none
