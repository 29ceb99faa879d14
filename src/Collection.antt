-- ===== src/Collection.antt =====
-- The typed collections: `Collection` of collection.go, and `Collections` and `Drop` of medb.go.
pub mod Sorted
pub mod Seqs
pub mod Writes
pub mod Closed
mod Tests
use medb.Base.{
  ℕ, Bool, true, false, Option, none, some, List, [], ◌∷◌, ◌==◌, ltb, if◌then◌else◌, length, Bytes,
  Map, lookup, keys,
}
use medb.Name.{valid_name}
use medb.Result.{Result, ok, err, json, closed, not_found, or_error, and_then}
use medb.Store.{op_set, op_del, op_drop, Record, Docs, docs_of, apply, get_doc}
use medb.Codec.{Codec}
use medb.Db.{Db, write, read, check_doc_size, enqueue}

-- json.Marshal and json.Unmarshal at the type of a collection's documents.
pub record Typed {ℓ} (T : Type ℓ) : Type ℓ where
  pub marshal : T → Option Bytes
  pub unmarshal : Bytes → Option T

-- `a <= b` on Go strings: byte by byte.
unfoldable pub leb_bytes : Bytes → Bytes → Bool
leb_bytes [] ys = true
leb_bytes (x ∷ xs) [] = false
leb_bytes (x ∷ xs) (y ∷ ys) = let rest = leb_bytes xs ys in if x == y then rest else ltb x y

-- slices.Sorted
unfoldable pub insert_sorted : Bytes → List Bytes → List Bytes
insert_sorted x [] = x ∷ []
insert_sorted x (y ∷ ys) =
    let rest = insert_sorted x ys in if leb_bytes x y then x ∷ (y ∷ ys) else y ∷ rest

unfoldable pub sorted : List Bytes → List Bytes
sorted [] = []
sorted (x ∷ xs) = insert_sorted x (sorted xs)

-- `DB.Collections`, where nil is the empty list.
unfoldable pub collections : Db → List Bytes
collections db = if db.is_closed then [] else sorted (keys db.store.colls)

-- `DB.Drop`, which panics (`none`) on an invalid name.
unfoldable pub drop_coll : Codec → Bytes → Db → Option (Result ℕ × Db)
drop_coll c name db =
    if valid_name name
    then some (write c (record { op = op_drop; coll = name; id = []; doc = [] }) db)
    else none

module _ {ℓ} {T : Type ℓ} (t : Typed T) (name : Bytes) where
  unfoldable pub get : Bytes → Db → Result T
  get id db = and_then (read name id db) (λ raw. or_error (t.unmarshal raw) json)

  -- `Set`, up to `commit.wait()`
  unfoldable pub set_doc : Codec → Bytes → T → Db → Result ℕ × Db
  set_doc c id doc db = elim (t.marshal doc) [
    | none ↦ (err json, db)
    | some raw ↦ elim (check_doc_size raw db) [
      | err e ↦ (err e, db)
      | ok _ ↦ write c (record { op = op_set; coll = name; id = id; doc = raw }) db
    ]
  ]

  unfoldable pub delete_doc : Codec → Bytes → Db → Result ℕ × Db
  delete_doc c id db = write c (record { op = op_del; coll = name; id = id; doc = [] }) db

  -- The end of `update`, with the result of the caller's function in hand.
  unfoldable pub update_with : Codec → Bytes → T → Db → Result ℕ × Db
  update_with c id v db = elim (t.marshal v) [
    | none ↦ (err json, db)
    | some out ↦ elim (check_doc_size out db) [
      | err e ↦ (err e, db)
      | ok _ ↦
          let rec : Record = record { op = op_set; coll = name; id = id; doc = out } in
          elim (c.marshal_record rec) [
            | none ↦ (err json, db)
            | some buf ↦
                let (commit, db') = enqueue buf (record db { store = apply rec db.store }) in
                (ok commit, db')
          ]
    ]
  ]

  -- `update`. The function of the caller may panic (`none`), and then `update` does.
  unfoldable pub update_doc : Codec → Bytes → (T → Option (Result T)) → Db → Option (Result ℕ) × Db
  unfolding update_with
  update_doc c id fn db =
      if db.is_closed then (some (err closed), db) else elim (get_doc name id db.store.colls) [
        | none ↦ (some (err not_found), db)
        | some raw ↦ elim (t.unmarshal raw) [
          | none ↦ (some (err json), db)
          | some v ↦ elim (fn v) [
            | none ↦ (none, db)
            | some (err e) ↦ (some (err e), db)
            | some (ok v') ↦ let (r, db') = update_with c id v' db in (some r, db')
          ]
        ]
      ]

unfoldable pub has : Bytes → Bytes → Db → Bool
has name id db = elim (read name id db) [ ok _ ↦ true | err _ ↦ false ]

unfoldable pub count : Bytes → Db → ℕ
count name db = if db.is_closed then 0 else length (docs_of name db.store.colls)

-- What a range over `All` sees: a document, or the panic of one that cannot be decoded.
pub data Seq {ℓ} (T : Type ℓ) : Type ℓ where
  seq_end : Seq T
  seq_panic : Bytes → Seq T
  seq_next : Bytes → T → Seq T → Seq T

unfoldable pub seq_of {ℓ} : {T : Type ℓ} → Typed T → Docs → List Bytes → Seq T
seq_of t snap [] = seq_end
seq_of t snap (id ∷ ids) =
    let rest = seq_of t snap ids in
    elim (lookup id snap) [
      | none ↦ seq_panic id
      | some raw ↦ elim (t.unmarshal raw) [ none ↦ seq_panic id | some v ↦ seq_next id v rest ]
    ]

unfoldable pub all_docs {ℓ} : {T : Type ℓ} → Typed T → Bytes → Db → Seq T
all_docs t name db =
    if db.is_closed
    then seq_end
    else (let snap = docs_of name db.store.colls in seq_of t snap (sorted (keys snap)))
