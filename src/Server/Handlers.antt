-- ===== src/Server/Handlers.antt =====
-- The handlers of the data endpoints: cmd/medb/handlers.go, and `mutationError` of
-- cmd/medb/server.go. A handler that writes ends at `commit.wait()`; `finish` is what follows it.
use medb.Base.{
  ℕ, Bool, true, false, not, Option, none, some, List, [], ◌∷◌, Bytes, bytes, lookup, if◌then◌else◌,
}
use medb.Name.{reserved_collection}
use medb.Result.{Error, Result, ok, err, not_found, closed, too_large}
use medb.Codec.{Codec}
use medb.Db.{Db}
use medb.Collection.{
  Typed, Seq, get, set_doc, delete_doc, drop_coll, has, count, collections, all_docs,
}
use medb.Server.{Host}
use medb.Server.Fields.{
  ApiFailure, fail_not_found, fail_document_too_large, fail_storage, fail_internal,
  fail_unavailable, fail_invalid_request, Checked, good, fail, Fields, check_fields,
  collection_target, document_target,
}

-- What a handler answers; `waits` is a handler at `commit.wait()`, `panics` one that medb.C made panic.
pub data Reply : Type 0 where
  no_content panics : Reply
  document : Bytes → Reply
  exists' : Bool → Reply
  counted : ℕ → Reply
  names : List Bytes → Reply
  stream : Seq Bytes → Reply
  failed : ApiFailure → Reply
  waits : ℕ → Reply

-- `mutationError`: the failure, and whether the server is unavailable from then on.
unfoldable pub mutation_error : Error → ApiFailure × Bool
mutation_error too_large = (fail_document_too_large, false)
mutation_error closed = (fail_unavailable, true)
mutation_error _ = (fail_storage, true)

-- After `commit.wait()`
unfoldable pub finish : Option Error → Reply × Bool
finish none = (no_content, false)
finish (some e) = let (f, down) = mutation_error e in (failed f, down)

-- The answer to a write, and whether the server stays available.
unfoldable pub write_reply : Result ℕ × Db → Reply × Db
write_reply (ok commit, db) = (waits commit, db)
write_reply (err e, db) = (failed (mutation_error e).0, db)

unfoldable pub read_object : List Bytes → List Bytes → Checked Fields → Checked Fields
read_object allowed required (fail f) = fail f
read_object allowed required (good fields) = check_fields allowed required fields

abbrev pub target_fields : List Bytes
target_fields = bytes "collection" ∷ (bytes "id" ∷ [])

-- `handleCollections`
unfoldable pub public_names : List Bytes → List Bytes
public_names [] = []
public_names (name ∷ rest) =
    let more = public_names rest in if not (reserved_collection name) then name ∷ more else more

unfoldable pub handle_collections : Db → Reply
handle_collections db = names (public_names (collections db))

module _ (h : Host) (raw : Typed Bytes) (max_id_size : ℕ) where
  unfoldable pub handle_get : Checked Fields → Db → Reply
  handle_get body db = elim (read_object target_fields target_fields body) [
    | fail f ↦ failed f
    | good fields ↦ elim (document_target h max_id_size fields) [
      | fail f ↦ failed f
      | good (collection, id) ↦ elim (get raw collection id db) [
        | ok doc ↦ document doc
        | err not_found ↦ failed fail_not_found
        | err closed ↦ failed fail_unavailable
        | err _ ↦ failed fail_internal
      ]
    ]
  ]

  -- The field `document`, which `readObject` requires, as raw JSON.
  unfoldable pub handle_set : Codec → Checked Fields → Db → Reply × Db
  handle_set c body db =
      let all = bytes "collection" ∷ (bytes "id" ∷ (bytes "document" ∷ [])) in
      elim (read_object all all body) [
        | fail f ↦ (failed f, db)
        | good fields ↦ elim (document_target h max_id_size fields) [
          | fail f ↦ (failed f, db)
          | good (collection, id) ↦ elim (lookup (bytes "document") fields) [
            | none ↦ (failed fail_invalid_request, db)
            | some doc ↦ write_reply (set_doc raw collection c id doc db)
          ]
        ]
      ]

  unfoldable pub handle_delete : Codec → Checked Fields → Db → Reply × Db
  handle_delete c body db = elim (read_object target_fields target_fields body) [
    | fail f ↦ (failed f, db)
    | good fields ↦ elim (document_target h max_id_size fields) [
      | fail f ↦ (failed f, db)
      | good (collection, id) ↦ write_reply (delete_doc raw collection c id db)
    ]
  ]

  unfoldable pub handle_has : Checked Fields → Db → Reply
  handle_has body db = elim (read_object target_fields target_fields body) [
    | fail f ↦ failed f
    | good fields ↦ elim (document_target h max_id_size fields) [
      | fail f ↦ failed f
      | good (collection, id) ↦ exists' (has collection id db)
    ]
  ]

  unfoldable pub handle_count : Checked Fields → Db → Reply
  handle_count body db =
      elim (read_object (bytes "collection" ∷ []) (bytes "collection" ∷ []) body) [
        | fail f ↦ failed f
        | good fields ↦ elim (collection_target h fields) [
          | fail f ↦ failed f
          | good collection ↦ counted (count collection db)
        ]
      ]

  unfoldable pub handle_scan : Checked Fields → Db → Reply
  handle_scan body db =
      elim (read_object (bytes "collection" ∷ []) (bytes "collection" ∷ []) body) [
        | fail f ↦ failed f
        | good fields ↦ elim (collection_target h fields) [
          | fail f ↦ failed f
          | good collection ↦ stream (all_docs raw collection db)
        ]
      ]

  unfoldable pub handle_drop : Codec → Checked Fields → Db → Reply × Db
  handle_drop c body db =
      elim (read_object (bytes "collection" ∷ []) (bytes "collection" ∷ []) body) [
        | fail f ↦ (failed f, db)
        | good fields ↦ elim (collection_target h fields) [
          | fail f ↦ (failed f, db)
          | good collection ↦ elim (drop_coll c collection db) [
            | none ↦ (panics, db)
            | some r ↦ write_reply r
          ]
        ]
      ]
