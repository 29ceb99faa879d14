-- ===== src/Collection/Writes.antt =====
-- What `Set`, `Delete` and `Update` do to what is read afterwards.
use medb.Base.{
  ◌≡◌, ap, sym, ◌∙◌, ◌≤◌, ℕ, Bool, true, false, ◌&&◌, Option, some, [], arith, Bytes, bytes_eq,
  lookup-nil, length, if◌then◌else◌,
}
use medb.Result.{Result, ok, err, not_found, Error, or_error}
use medb.Store.{op_set, op_del, Record, docs_of, apply, get_doc, Colls}
use medb.Store.Cells.{doc_cell, view, over, touch, touch_op, apply-view}
use medb.Codec.{Codec}
use medb.Db.{Db, write, read, check_doc_size, enqueue}
use medb.Collection.{Typed, set_doc, delete_doc, update_doc, update_with}

get_doc-view :
    (coll id : Bytes) (colls : Colls) → get_doc coll id colls ≡ view colls (doc_cell coll id)
unfolding get_doc view docs_of
get_doc-view coll id colls = ground (arith, lookup-nil {V = Bytes} id)

-- What an open database reads, in terms of the view.
pub read-view :
    (coll id : Bytes) (db : Db)
    → db.is_closed ≡ false
    → read coll id db ≡ or_error (view db.store.colls (doc_cell coll id)) not_found
unfolding read
read-view coll id db live = ground (arith, get_doc-view coll id db.store.colls)

-- A record that was applied, and the database otherwise as it was but for its queue.
pub applied_read :
    (r : Record) (db db' : Db) (coll id : Bytes)
    → db.is_closed ≡ false
    → db'.is_closed ≡ false
    → db'.store ≡ apply r db.store
    → read coll id db'
      ≡ or_error
          (over (touch r (doc_cell coll id)) (view db.store.colls (doc_cell coll id)))
          not_found
applied_read r db db' coll id live live' store =
    read-view coll id db' live'
    ∙ ap (λ o. or_error o not_found)
        (ap (λ s. view s.colls (doc_cell coll id)) store ∙ apply-view r db.store (doc_cell coll id))

pub write_applied :
    (c : Codec) (r : Record) (db : Db) (commit : ℕ)
    → (write c r db).0 ≡ ok commit
    → (db.is_closed ≡ false)
      × ((write c r db).1.is_closed ≡ false)
      × ((write c r db).1.store ≡ apply r db.store)
unfolding write enqueue
write_applied c r db commit h = (ground arith, ground arith, ground arith)

-- Reading after a document was set.
set_touch :
    (name id coll' id' raw : Bytes) (db : Db)
    → db.is_closed ≡ false
    → or_error
        (over
          (touch (record { op = op_set; coll = name; id = id; doc = raw }) (doc_cell coll' id'))
          (view db.store.colls (doc_cell coll' id')))
        not_found
      ≡ (if bytes_eq name coll' && bytes_eq id id' then ok raw else read coll' id' db)
unfolding touch touch_op
set_touch name id coll' id' raw db live = ground (arith, read-view coll' id' db live)

-- The call returned a commit to wait for.
abbrev pub is_accepted : Option (Result ℕ) → Bool
is_accepted (some (ok _)) = true
is_accepted _ = false

module _ {ℓ} {T : Type ℓ} (t : Typed T) (c : Codec) (name : Bytes) where
  pub set_doc_inv :
      (id : Bytes) (doc : T) (db : Db) (commit : ℕ)
      → (set_doc t name c id doc db).0 ≡ ok commit
      → (raw : Bytes) × (t.marshal doc ≡ some raw)
        × (length raw ≤ db.max_doc_size)
        × (set_doc t name c id doc db
            ≡ write c (record { op = op_set; coll = name; id = id; doc = raw }) db)
  unfolding set_doc check_doc_size
  set_doc_inv id doc db commit h = ground arith

  -- A `Set` that is accepted stored the document's encoding, which is within the size limit: it is what
  -- is read for this id of this collection, and every other document is as it was.
  pub set_doc-read :
      (id : Bytes) (doc : T) (db : Db) (commit : ℕ) (coll' id' : Bytes)
      → (set_doc t name c id doc db).0 ≡ ok commit
      → (raw : Bytes) × (t.marshal doc ≡ some raw)
        × (length raw ≤ db.max_doc_size)
        × (read coll' id' (set_doc t name c id doc db).1
            ≡ (if bytes_eq name coll' && bytes_eq id id' then ok raw else read coll' id' db))
  set_doc-read id doc db commit coll' id' h =
      let (raw, enc, small, e) = set_doc_inv id doc db commit h in
      let rec : Record = record { op = op_set; coll = name; id = id; doc = raw } in
      let (live, live', store) = write_applied c rec db commit (sym (ap (λ p. p.0) e) ∙ h) in
      (
        raw,
        enc,
        small,
        ap (λ p. read coll' id' p.1) e
            ∙ applied_read rec db (write c rec db).1 coll' id' live live' store
            ∙ set_touch name id coll' id' raw db live,
      )

  -- A `Delete` that is accepted removes the document, which may not have been there, and no other.
  pub delete_doc-read :
      (id : Bytes) (db : Db) (commit : ℕ) (coll' id' : Bytes)
      → (delete_doc t name c id db).0 ≡ ok commit
      → read coll' id' (delete_doc t name c id db).1
        ≡ (if bytes_eq name coll' && bytes_eq id id' then err not_found else read coll' id' db)
  unfolding delete_doc touch touch_op
  delete_doc-read id db commit coll' id' h =
      let rec : Record = record { op = op_del; coll = name; id = id; doc = [] } in
      let (live, live', store) = write_applied c rec db commit h in
      ground (
        arith,
        applied_read rec db (write c rec db).1 coll' id' live live' store,
        read-view coll' id' db live,
      )

  update_with_inv :
      (id : Bytes) (v : T) (db : Db) (commit : ℕ)
      → (update_with t name c id v db).0 ≡ ok commit
      → (out : Bytes) × (t.marshal v ≡ some out)
        × (length out ≤ db.max_doc_size)
        × ((update_with t name c id v db).1.is_closed ≡ db.is_closed)
        × ((update_with t name c id v db).1.store
            ≡ apply (record { op = op_set; coll = name; id = id; doc = out }) db.store)
  unfolding update_with check_doc_size enqueue
  update_with_inv id v db commit h = ground arith

  update_with_refused :
      (id : Bytes) (v : T) (db : Db) (e : Error)
      → (update_with t name c id v db).0 ≡ err e
      → (update_with t name c id v db).1 ≡ db
  unfolding update_with check_doc_size
  update_with_refused id v db e h = ground arith

  module _ (fn : T → Option (Result T)) where
    update_doc_inv :
        (id : Bytes) (db : Db) (commit : ℕ)
        → (update_doc t name c id fn db).0 ≡ some (ok commit)
        → (db.is_closed ≡ false)
          × ((raw : Bytes) × (v : T) × (v' : T) × (get_doc name id db.store.colls ≡ some raw)
              × (t.unmarshal raw ≡ some v)
              × (fn v ≡ some (ok v'))
              × ((update_with t name c id v' db).0 ≡ ok commit)
              × ((update_doc t name c id fn db).1 ≡ (update_with t name c id v' db).1))
    unfolding update_doc
    update_doc_inv id db commit h = (ground arith, ground arith)

    -- An `Update` that is accepted decoded the stored document, called the function on it, and
    -- stored the encoding of its result, within the size limit; no other document changed.
    pub update_doc-read :
        (id : Bytes) (db : Db) (commit : ℕ) (coll' id' : Bytes)
        → (update_doc t name c id fn db).0 ≡ some (ok commit)
        → (raw : Bytes) × (v : T) × (v' : T) × (out : Bytes) × (read name id db ≡ ok raw)
          × (t.unmarshal raw ≡ some v)
          × (fn v ≡ some (ok v'))
          × (t.marshal v' ≡ some out)
          × (length out ≤ db.max_doc_size)
          × (read coll' id' (update_doc t name c id fn db).1
              ≡ (if bytes_eq name coll' && bytes_eq id id' then ok out else read coll' id' db))
    update_doc-read id db commit coll' id' h =
        let (live, (raw, v, v', found, dec, called, stored, e)) = update_doc_inv id db commit h in
        let (out, enc, small, shut, store) = update_with_inv id v' db commit stored in
        let rec : Record = record { op = op_set; coll = name; id = id; doc = out } in
        (
          raw,
          v,
          v',
          out,
          unfold read in ground arith,
          dec,
          called,
          enc,
          small,
          ap (read coll' id') e
              ∙ applied_read rec db (update_with t name c id v' db).1 coll' id' live (shut ∙ live)
                  store
              ∙ set_touch name id coll' id' out db live,
        )

    -- An `Update` that is not accepted leaves the database unchanged: when it is closed, when the
    -- document is missing or cannot be decoded, when the function returns an error or panics, when
    -- its result cannot be encoded or is too large.
    pub update_doc_refused :
        (id : Bytes) (db : Db)
        → is_accepted (update_doc t name c id fn db).0 ≡ false
        → (update_doc t name c id fn db).1 ≡ db
    unfolding update_doc update_with check_doc_size
    update_doc_refused id db h = ground arith
