-- ===== src/Wal.antt =====
-- The bytes of the write-ahead log: the batch that `writeLog` builds and the loop of `replayLog`
-- in wal.go.
pub mod RoundTrip
pub mod Tail
pub mod Prefix
use medb.Base.{
  ℕ, zero, suc, ◌+◌, Bool, true, false, ◌&&◌, not, Option, none, some, List, [], ◌∷◌, ◌++◌, ◌==◌,
  if◌then◌else◌, length, is_empty, Bytes,
}
use medb.Result.{Result, ok, err, bad_json, bad_name, no_doc, corrupt_wal}
use medb.Name.{valid_name}
use medb.Store.{Op, op_set, Record, Store, apply}
use medb.Codec.{Codec}

-- Each record followed by a newline.
unfoldable pub encode_batch : List Bytes → Bytes
encode_batch [] = []
encode_batch (rec ∷ batch) = rec ++ b'\n' ∷ encode_batch batch

-- bytes.IndexByte(data, '\n'): what stands before the first newline, and what follows it.
unfoldable pub cut_line : Bytes → Option (Bytes × Bytes)
cut_line [] = none
cut_line (c ∷ data') =
    let next = cut_line data' in
    if c == b'\n'
    then some ([], data')
    else elim next [ none ↦ none | some (line, rest) ↦ some (c ∷ line, rest) ]

abbrev pub is_set : Op → Bool
is_set op_set = true
is_set _ = false

-- One line, as record `n`: decoded, with a valid collection name, and a document if it sets one.
unfoldable pub read_record : Codec → ℕ → Bytes → Result Record
read_record c n line = elim (c.unmarshal_record line) [
  | none ↦ err (corrupt_wal n bad_json)
  | some rec ↦
      if not (valid_name rec.coll)
      then err (corrupt_wal n bad_name)
      else if is_set rec.op && is_empty rec.doc
      then err (corrupt_wal n no_doc)
      else ok rec
]

-- The loop over the complete lines, from record `n` at offset `size`: the offset of the torn tail
-- and the store with every record applied. The outer `none` means that the fuel ran out.
unfoldable pub replay_lines : Codec → ℕ → ℕ → ℕ → Bytes → Store → Option (Result (ℕ × Store))
replay_lines c zero n size data' s = none
replay_lines c (suc fuel) n size data' s = elim (cut_line data') [
  | none ↦ some (ok (size, s))
  | some (line, rest) ↦ elim (read_record c n line) [
    | err e ↦ some (err e)
    | ok rec ↦ replay_lines c fuel (n + 1) (size + length line + 1) rest (apply rec s)
  ]
]
