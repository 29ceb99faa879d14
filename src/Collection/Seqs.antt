-- ===== src/Collection/Seqs.antt =====
-- What a range over `All` (collection.go) meets at each id, and what `Get` returns there.
use medb.Base.{◌≡◌, false, Option, none, some, List, ◌∷◌, arith, Bytes, lookup}
use medb.Result.{ok}
use medb.Store.{Docs, docs_of, get_doc}
use medb.Db.{Db, read}
use medb.Collection.{Typed, seq_next, seq_panic, seq_of, get}

module _ {ℓ} {T : Type ℓ} (t : Typed T) where
  module _ (docs : Docs) where
    -- The document that is stored with an id, decoded.
    unfoldable pub decoded : Bytes → Option T
    decoded id = elim (lookup id docs) [ none ↦ none | some raw ↦ t.unmarshal raw ]

    pub seq_of_next :
        (id : Bytes) (ids : List Bytes) (v : T)
        → decoded id ≡ some v
        → seq_of t docs (id ∷ ids) ≡ seq_next id v (seq_of t docs ids)
    unfolding decoded seq_of
    seq_of_next id ids v e = ground arith

    pub seq_of_panic :
        (id : Bytes) (ids : List Bytes)
        → decoded id ≡ none
        → seq_of t docs (id ∷ ids) ≡ seq_panic id
    unfolding decoded seq_of
    seq_of_panic id ids e = ground arith

  pub get-decoded :
      (name id : Bytes) (v : T) (db : Db)
      → db.is_closed ≡ false
      → decoded (docs_of name db.store.colls) id ≡ some v
      → get t name id db ≡ ok v
  unfolding decoded get read get_doc
  get-decoded name id v db live e = ground arith

  pub decoded-get :
      (name id : Bytes) (v : T) (db : Db)
      → get t name id db ≡ ok v
      → decoded (docs_of name db.store.colls) id ≡ some v
  unfolding decoded get read get_doc
  decoded-get name id v db e = ground arith
