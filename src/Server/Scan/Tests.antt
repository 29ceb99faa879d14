-- ===== src/Server/Scan/Tests.antt =====
-- A scan of two documents, of which the second write fails.
use medb.Base.{
  ◌≡◌, refl, ℕ, true, false, Option, some, is_some, List, [], ◌∷◌, ◌++◌, Bytes, bytes, bytes_eq,
  has_prefix, lookup, keys, take,
}
use medb.Name.{valid_collection_name, reserved_collection}
use medb.Store.{docs_of}
use medb.Db.{Db, new_db}
use medb.Collection.{Typed, all_docs, seq_of, sorted, insert_sorted, leb_bytes}
use medb.Collection.Sorted.{IsSorted, member}
use medb.Server.Sample.{host}
use medb.Server.Fields.{Fields, good, collection_target, check_fields, string_field, is_json_null}
use medb.Server.Handlers.{handle_scan, read_object, stream}
use medb.Server.Response.{call_header, call_content, call_flush}
use medb.Server.Scan.{Turn, calm, cut_short, scan_loop, scan_stream}
use medb.Server.Scan.Lines.{sent, AreLines, EndsAt, scan_lem}

abbrev raw_docs : Typed Bytes
raw_docs = record { marshal = λ b. some b; unmarshal = λ b. some b }

abbrev line : Bytes → Bytes → Option Bytes
line id document = some (id ++ document)

abbrev db : Db
db = record (new_db 100 100 (record { wal = []; files = []; dirs = []; faults = [] })) {
  store = record {
    colls = (bytes "notes", (bytes "b", bytes "2") ∷ ((bytes "a", bytes "1") ∷ [])) ∷ [];
    dirty = [];
  };
}

abbrev fields : Fields
fields = (bytes "collection", bytes "notes") ∷ []

abbrev turns : List Turn
turns = calm ∷ (record { is_done = false; write_fails = true } ∷ [])

scanned :
    handle_scan host raw_docs 10 (good fields) db ≡ stream (all_docs raw_docs (bytes "notes") db)
unfolding handle_scan read_object check_fields collection_target string_field is_json_null lookup
    bytes_eq valid_collection_name reserved_collection has_prefix
scanned = refl

streamed : scan_stream true line (all_docs raw_docs (bytes "notes") db) turns ≡ (
  call_header 200
      ∷ (call_content (bytes "a1") ∷ (call_flush true ∷ (call_content (bytes "b2") ∷ []))),
  cut_short,
)
unfolding scan_stream scan_loop all_docs seq_of sorted insert_sorted leb_bytes docs_of lookup
    bytes_eq
streamed = refl

scan_lem_example :
    (fields' : Fields) × (name : Bytes) × (read_object
        (bytes "collection" ∷ [])
        (bytes "collection" ∷ [])
        (good fields)
      ≡ good fields')
    × (collection_target host fields' ≡ good name)
    × (reserved_collection name ≡ false)
    × (let docs = docs_of name db.store.colls in
        let all = sorted (keys docs) in
        let (calls, ending) = scan_stream true line (all_docs raw_docs (bytes "notes") db) turns in
        IsSorted all
        × ((id : Bytes) → member id all ≡ is_some (lookup id docs))
        × ((k : ℕ) × AreLines raw_docs line docs (take k all) (sent calls)
            × EndsAt raw_docs line docs all turns k ending))
scan_lem_example =
    scan_lem host raw_docs 10 true line (good fields) db (all_docs raw_docs (bytes "notes") db)
      turns refl scanned
