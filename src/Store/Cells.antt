-- ===== src/Store/Cells.antt =====
-- The abstract view of the collections: what a reader can tell of them, one cell at a time, and
-- what `apply` of wal.go does to it.
use medb.Base.{
  ◌≡◌, refl, Bool, true, false, ◌&&◌, Option, none, some, [], arith, if◌then◌else◌, Bytes, bytes_eq,
  bytes_eq_iff, lookup, lookup-insert, lookup-erase, lookup-nil, insert, erase,
}
use medb.Store.{
  Op, op_set, op_del, op_drop, op_other, Record, Docs, Colls, Store, docs_of, apply_op, apply,
}

-- The document of an id in a collection, or whether a collection exists.
pub data Cell : Type 0 where
  doc_cell : Bytes → Bytes → Cell
  coll_cell : Bytes → Cell

abbrev pub Value : Type 0
Value = Option Bytes

-- The collection that a cell belongs to.
abbrev pub home : Cell → Bytes
home (doc_cell c i) = c
home (coll_cell c) = c

abbrev pub exists_value : Bool → Value
exists_value true = some []
exists_value false = none

unfoldable pub view : Colls → Cell → Value
view colls (doc_cell c i) = elim (lookup c colls) [ none ↦ none | some d ↦ lookup i d ]
view colls (coll_cell c) = elim (lookup c colls) [ none ↦ none | some d ↦ some [] ]

-- The value that a record gives to a cell, or nothing if it leaves the cell alone.
unfoldable pub touch_op : Op → Record → Cell → Option Value
touch_op op_set r (doc_cell c i) =
    if bytes_eq r.coll c && bytes_eq r.id i then some (some r.doc) else none
touch_op op_set r (coll_cell c) = if bytes_eq r.coll c then some (some []) else none
touch_op op_del r (doc_cell c i) = if bytes_eq r.coll c && bytes_eq r.id i then some none else none
touch_op op_del r (coll_cell c) = none
touch_op op_drop r (doc_cell c i) = if bytes_eq r.coll c then some none else none
touch_op op_drop r (coll_cell c) = if bytes_eq r.coll c then some none else none
touch_op (op_other _) r k = none

unfoldable pub touch : Record → Cell → Option Value
unfolding touch_op
touch r k = touch_op r.op r k

abbrev pub over : Option Value → Value → Value
over none v = v
over (some w) v = w

apply_op-view :
    (op : Op) (r : Record) (s : Store) (k : Cell)
    → view (apply_op op r s).colls k ≡ over (touch_op op r k) (view s.colls k)
unfolding apply_op view touch_op
apply_op-view op_set r s (doc_cell c i) =
    let d = docs_of r.coll s.colls in
    ground (
      arith,
      lookup-insert r.coll c (insert r.id r.doc d) s.colls,
      lookup-insert r.id i r.doc d,
      bytes_eq_iff r.coll c,
      lookup-nil {V = Bytes} i,
    )
apply_op-view op_set r s (coll_cell c) =
    let d = docs_of r.coll s.colls in
    ground (arith, lookup-insert r.coll c (insert r.id r.doc d) s.colls, bytes_eq_iff r.coll c)
apply_op-view op_del r s (doc_cell c i) =
    let d = docs_of r.coll s.colls in
    ground (
      arith,
      lookup-insert r.coll c (erase r.id d) s.colls,
      lookup-erase r.id i d,
      bytes_eq_iff r.coll c,
      bytes_eq_iff r.id i,
      lookup-nil {V = Bytes} i,
    )
apply_op-view op_del r s (coll_cell c) =
    let d = docs_of r.coll s.colls in
    ground (
      arith,
      lookup-insert r.coll c (erase r.id d) s.colls,
      bytes_eq_iff r.coll c,
      lookup-nil {V = Bytes} r.id,
    )
apply_op-view op_drop r s (doc_cell c i) =
    ground (arith, lookup-erase r.coll c s.colls, bytes_eq_iff r.coll c)
apply_op-view op_drop r s (coll_cell c) =
    ground (arith, lookup-erase r.coll c s.colls, bytes_eq_iff r.coll c)
apply_op-view (op_other _) r s k = refl

-- Applying a record changes exactly the cells that it touches, to the values that it gives them.
pub apply-view :
    (r : Record) (s : Store) (k : Cell)
    → view (apply r s).colls k ≡ over (touch r k) (view s.colls k)
unfolding apply touch
apply-view r s k = apply_op-view r.op r s k

-- A cell of one collection, read from the collection alone.
abbrev pub read_cell : Option Docs → Cell → Value
read_cell none k = none
read_cell (some docs) (doc_cell c i) = lookup i docs
read_cell (some docs) (coll_cell c) = some []

pub view-read : (colls : Colls) (k : Cell) → view colls k ≡ read_cell (lookup (home k) colls) k
unfolding view
view-read colls (doc_cell c i) = ground arith
view-read colls (coll_cell c) = ground arith

pub read_cell-same :
    (a b : Docs) (k : Cell)
    → ((i : Bytes) → lookup i a ≡ lookup i b)
    → read_cell (some a) k ≡ read_cell (some b) k
read_cell-same a b (doc_cell c i) h = h i
read_cell-same a b (coll_cell c) h = refl
