-- ===== src/Store.antt =====
-- The documents in memory and the records that change them: `record` and `apply` of wal.go, the
-- maps of `DB` in medb.go.
pub mod Cells
pub mod History
use medb.Base.{Bool, true, Option, none, some, List, [], ◌∷◌, Bytes, Map, lookup, insert, erase}

-- The strings "set", "del" and "drop"; `op_other` is any other string, which `apply` ignores.
pub data Op : Type 0 where
  op_set op_del op_drop : Op
  op_other : Bytes → Op

pub record Record : Type 0 where
  pub op : Op
  pub coll : Bytes
  pub id : Bytes
  pub doc : Bytes

-- Documents by id, as raw JSON; collections by name.
abbrev pub Docs : Type 0
Docs = Map Bytes

abbrev pub Colls : Type 0
Colls = Map Docs

-- The part of `DB` that `apply` changes.
pub record Store : Type 0 where
  pub colls : Colls
  pub dirty : Map Bool

abbrev pub empty_store : Store
empty_store = record { colls = []; dirty = [] }

-- A missing collection reads as Go's nil map.
unfoldable pub docs_of : Bytes → Colls → Docs
docs_of name colls = elim (lookup name colls) [ none ↦ [] | some c ↦ c ]

unfoldable pub mark : Bytes → Colls → Store → Store
mark name colls s = record { colls = colls; dirty = insert name true s.dirty }

unfoldable pub apply_op : Op → Record → Store → Store
unfolding docs_of mark
apply_op op_set rec s =
    mark rec.coll (insert rec.coll (insert rec.id rec.doc (docs_of rec.coll s.colls)) s.colls) s
apply_op op_del rec s =
    let c = docs_of rec.coll s.colls in
    elim (lookup rec.id c) [
      | none ↦ s
      | some _ ↦ mark rec.coll (insert rec.coll (erase rec.id c) s.colls) s
    ]
apply_op op_drop rec s = elim (lookup rec.coll s.colls) [
  | none ↦ s
  | some _ ↦ mark rec.coll (erase rec.coll s.colls) s
]
apply_op (op_other _) rec s = s

unfoldable pub apply : Record → Store → Store
unfolding apply_op
apply rec s = apply_op rec.op rec s

unfoldable pub apply_all : List Record → Store → Store
apply_all [] s = s
apply_all (rec ∷ recs) s = apply_all recs (apply rec s)

-- db.colls[coll][id]
unfoldable pub get_doc : Bytes → Bytes → Colls → Option Bytes
unfolding docs_of
get_doc coll id colls = lookup id (docs_of coll colls)
