-- ===== src/Collection/Tests.antt =====
-- Examples of a collection of numbers, each stored as one byte.
use medb.Base.{
  ◌≡◌, refl, ◌+◌, ◌≤◌, ℕ, true, ◌&&◌, Option, none, some, [], ◌∷◌, Bytes, bytes, bytes_eq, lookup,
  length, if◌then◌else◌,
}
use medb.Result.{Result, ok}
use medb.Store.{get_doc, docs_of}
use medb.Codec.Sample.{sample_codec, put_record, op_tag}
use medb.Db.{Db, new_db, read, write, enqueue, check_doc_size}
use medb.Collection.{Typed, set_doc, update_doc, update_with}
use medb.Collection.Writes.{set_doc-read, update_doc-read}

abbrev byte_of : Bytes → Option ℕ
byte_of (n ∷ []) = some n
byte_of _ = none

abbrev numbers : Typed ℕ
numbers = record { marshal = λ n. some (n ∷ []); unmarshal = byte_of }

abbrev name : Bytes
name = bytes "n"

abbrev key : Bytes
key = bytes "k"

abbrev db : Db
db = record (new_db 4 100 (record { wal = []; files = []; dirs = []; faults = [] })) {
  store = record { colls = (bytes "z", []) ∷ ((name, (key, 7 ∷ []) ∷ []) ∷ []); dirty = [] };
}

abbrev shut : Db
shut = record db { is_closed = true }

set_accepted : (set_doc numbers name sample_codec key 9 db).0 ≡ ok 0
unfolding set_doc check_doc_size write enqueue put_record op_tag
set_accepted = refl

set_doc-read_example :
    (raw : Bytes) × (numbers.marshal 9 ≡ some raw)
    × (length raw ≤ 4)
    × (read name key (set_doc numbers name sample_codec key 9 db).1
        ≡ (if bytes_eq name name && bytes_eq key key then ok raw else read name key db))
set_doc-read_example = set_doc-read numbers sample_codec name key 9 db 0 name key set_accepted

abbrev next : ℕ → Option (Result ℕ)
next n = some (ok (n + 1))

abbrev panics : ℕ → Option (Result ℕ)
panics n = none

update_accepted : (update_doc numbers name sample_codec key next db).0 ≡ some (ok 0)
unfolding update_doc update_with check_doc_size enqueue put_record op_tag get_doc docs_of lookup
    bytes_eq
update_accepted = refl

update_doc-read_example :
    (raw : Bytes) × (v : ℕ) × (v' : ℕ) × (out : Bytes) × (read name key db ≡ ok raw)
    × (byte_of raw ≡ some v)
    × (next v ≡ some (ok v'))
    × (numbers.marshal v' ≡ some out)
    × (length out ≤ 4)
    × (read name key (update_doc numbers name sample_codec key next db).1
        ≡ (if bytes_eq name name && bytes_eq key key then ok out else read name key db))
update_doc-read_example =
    update_doc-read numbers sample_codec name next key db 0 name key update_accepted
