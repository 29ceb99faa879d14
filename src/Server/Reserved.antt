-- ===== src/Server/Reserved.antt =====
-- The `_meta` namespace and the data endpoints of cmd/medb/handlers.go.
use medb.Base.{
  ◌≡◌, ◌≢◌, refl, ap, sym, ◌∙◌, inl, inr, ℕ, true, false, ◌&&◌, not, Option-cases, none, is_some,
  List, [], ◌∷◌, arith, Bytes, bytes, bytes_eq, bytes_eq_iff, lookup,
}
use medb.Name.{reserved_collection}
use medb.Result.{Result, ok, err, Result-cases}
use medb.Store.{op_set, op_del, op_drop, Record}
use medb.Store.Cells.{doc_cell, touch, touch_op}
use medb.Codec.{Codec}
use medb.Db.{Db, read, write, check_doc_size}
use medb.Collection.{Typed, set_doc, delete_doc, drop_coll, collections}
use medb.Collection.Sorted.{member, collections-IsSorted}
use medb.Collection.Writes.{write_applied, applied_read, read-view}
use medb.Server.{Host}
use medb.Server.Fields.{
  Checked, Fields, Checked-cases, collection_target, collection_target_lem, document_target,
  document_target_lem,
}
use medb.Server.Handlers.{
  public_names, handle_set, handle_delete, handle_drop, read_object, write_reply, panics,
  target_fields, handle_collections, names,
}

touch_other :
    (r : Record) (coll id : Bytes)
    → bytes_eq r.coll coll ≡ false
    → touch r (doc_cell coll id) ≡ none
unfolding touch touch_op
touch_other r coll id ne = ground arith

-- A write changes no other collection's documents, accepted or not.
write-other :
    (c : Codec) (r : Record) (db : Db) (coll id : Bytes)
    → bytes_eq r.coll coll ≡ false
    → read coll id (write c r db).1 ≡ read coll id db
write-other c r db coll id ne = elim (Result-cases (write c r db).0) [
  | inl (commit, e) ↦
      let (live, live', store) = write_applied c r db commit e in
      applied_read r db (write c r db).1 coll id live live' store
      ∙ rw (touch_other r coll id ne) (sym (read-view coll id db live))
  | inr (e, refused) ↦ unfold write in ground arith
]

module _ {ℓ} {T : Type ℓ} (t : Typed T) (c : Codec) (name : Bytes) where
  pub set_doc-other :
      (id : Bytes) (doc : T) (db : Db) (coll id' : Bytes)
      → bytes_eq name coll ≡ false
      → read coll id' (set_doc t name c id doc db).1 ≡ read coll id' db
  unfolding set_doc check_doc_size
  set_doc-other id doc db coll id' ne = elim (Option-cases (t.marshal doc)) [
    | inl e ↦ rw (e, set_doc)
    | inr (raw, e) ↦
        let same =
          write-other c (record { op = op_set; coll = name; id = id; doc = raw }) db coll id' ne in
        ground arith
  ]

  pub delete_doc-other :
      (id : Bytes) (db : Db) (coll id' : Bytes)
      → bytes_eq name coll ≡ false
      → read coll id' (delete_doc t name c id db).1 ≡ read coll id' db
  unfolding delete_doc
  delete_doc-other id db coll id' ne =
      write-other c (record { op = op_del; coll = name; id = id; doc = [] }) db coll id' ne

reserved_ne :
    (name coll : Bytes)
    → reserved_collection name ≡ false
    → reserved_collection coll ≡ true
    → bytes_eq name coll ≡ false
reserved_ne name coll free taken = ground (arith, bytes_eq_iff name coll, ap reserved_collection)

write_reply-db : (r : Result ℕ × Db) → (write_reply r).1 ≡ r.1
unfolding write_reply
write_reply-db (ok n, db) = refl
write_reply-db (err e, db) = refl

module _ (h : Host) (raw : Typed Bytes) (max_id_size : ℕ) (c : Codec) (db : Db) (coll id : Bytes)
    (taken : reserved_collection coll ≡ true) where
  set_keeps :
      (body : Checked Fields)
      → read coll id (handle_set h raw max_id_size c body db).1 ≡ read coll id db
  unfolding handle_set
  set_keeps body =
      let all = bytes "collection" ∷ (bytes "id" ∷ (bytes "document" ∷ [])) in
      elim (Checked-cases (read_object all all body)) [
        | inr (f, e) ↦ rw (handle_set, e)
        | inl (fields, e) ↦ elim (Checked-cases (document_target h max_id_size fields)) [
          | inr (f, e') ↦ rw (handle_set, e, e')
          | inl ((name, id'), e') ↦
              let (_, free, _, _, _) = document_target_lem h max_id_size fields name id' e' in
              elim (Option-cases (lookup (bytes "document") fields)) [
                | inl none_left ↦ rw (handle_set, e, e', none_left)
                | inr (doc, there) ↦
                    rw (handle_set, e, e', there, write_reply-db (set_doc raw name c id' doc db))
                      (set_doc-other raw c name id' doc db coll id
                        (reserved_ne name coll free taken))
              ]
        ]
      ]

  delete_keeps :
      (body : Checked Fields)
      → read coll id (handle_delete h raw max_id_size c body db).1 ≡ read coll id db
  unfolding handle_delete
  delete_keeps body = elim (Checked-cases (read_object target_fields target_fields body)) [
    | inr (f, e) ↦ rw (handle_delete, e)
    | inl (fields, e) ↦ elim (Checked-cases (document_target h max_id_size fields)) [
      | inr (f, e') ↦ rw (handle_delete, e, e')
      | inl ((name, id'), e') ↦
          let (_, free, _, _, _) = document_target_lem h max_id_size fields name id' e' in
          rw (handle_delete, e, e', write_reply-db (delete_doc raw name c id' db))
            (delete_doc-other raw c name id' db coll id (reserved_ne name coll free taken))
    ]
  ]

  drop_keeps :
      (body : Checked Fields)
      → read coll id (handle_drop h raw max_id_size c body db).1 ≡ read coll id db
  unfolding handle_drop drop_coll
  drop_keeps body =
      elim (Checked-cases (read_object (bytes "collection" ∷ []) (bytes "collection" ∷ []) body)) [
        | inr (f, e) ↦ rw (handle_drop, e)
        | inl (fields, e) ↦ elim (Checked-cases (collection_target h fields)) [
          | inr (f, e') ↦ rw (handle_drop, e, e')
          | inl (name, e') ↦
              let (valid, free) = collection_target_lem h fields name e' in
              let rec : Record = record { op = op_drop; coll = name; id = []; doc = [] } in
              rw (handle_drop, drop_coll, e, e', valid, write_reply-db (write c rec db))
                (write-other c rec db coll id (reserved_ne name coll free taken))
        ]
      ]

  -- Whatever a request says, the handlers of `/v1/set`, `/v1/delete` and `/v1/drop` leave every
  -- document of a reserved collection as it was.
  pub handlers_keep_reserved :
      (body : Checked Fields)
      → (read coll id (handle_set h raw max_id_size c body db).1 ≡ read coll id db)
        × (read coll id (handle_delete h raw max_id_size c body db).1 ≡ read coll id db)
        × (read coll id (handle_drop h raw max_id_size c body db).1 ≡ read coll id db)
  handlers_keep_reserved body = (set_keeps body, delete_keeps body, drop_keeps body)

-- `Drop` is called with valid names only: the handler does not panic.
pub handle_drop_total :
    (h : Host) (raw : Typed Bytes) (max_id_size : ℕ) (c : Codec) (body : Checked Fields) (db : Db)
    → (handle_drop h raw max_id_size c body db).0 ≢ panics
unfolding handle_drop drop_coll write_reply
handle_drop_total h raw max_id_size c body db =
    elim (Checked-cases (read_object (bytes "collection" ∷ []) (bytes "collection" ∷ []) body)) [
      | inr (f, e) ↦ λ bad. ground arith
      | inl (fields, e) ↦ elim (Checked-cases (collection_target h fields)) [
        | inr (f, e') ↦ λ bad. ground arith
        | inl (name, e') ↦
            let (valid, free) = collection_target_lem h fields name e' in λ bad. ground arith
      ]
    ]

member-public_names :
    (name : Bytes) (all : List Bytes)
    → member name (public_names all) ≡ (not (reserved_collection name) && member name all)
unfolding public_names
member-public_names name [] = ground arith
member-public_names name (n ∷ all) =
    ground (arith, bytes_eq_iff n name, ap reserved_collection, member-public_names name all)

-- `/v1/collections` lists just the collections that exist and are not reserved.
pub handle_collections-names :
    (db : Db) (name : Bytes)
    → db.is_closed ≡ false
    → (listed : List Bytes) × (handle_collections db ≡ names listed)
      × (member name listed
          ≡ (not (reserved_collection name) && is_some (lookup name db.store.colls)))
unfolding handle_collections
handle_collections-names db name live =
    let (_, there) = collections-IsSorted db name live in
    (public_names (collections db), refl, ground (arith, member-public_names name (collections db)))
