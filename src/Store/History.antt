-- ===== src/Store/History.antt =====
-- What a sequence of records leaves in each cell: `apply` of wal.go, as `replayLog` calls it.
use medb.Base.{
  ◌≡◌, refl, true, false, Option, none, some, List, [], ◌∷◌, ◌++◌, arith, Bytes, bytes_eq, lookup,
  lookup-insert, lookup-erase, erase, Option-cases, inl, inr, insert, fun_ext,
}
use medb.Store.{
  Op, op_set, op_del, op_drop, op_other, Record, Colls, Store, docs_of, mark, apply_op, apply,
  apply_all,
}
use medb.Store.Cells.{Cell, Value, view, touch, over, apply-view}

abbrev pub or_else : Option Value → Option Value → Option Value
or_else (some v) o = some v
or_else none o = o

-- The value that the records give to a cell, or nothing if none of them touches it.
unfoldable pub touch_all : List Record → Cell → Option Value
touch_all [] k = none
touch_all (r ∷ rs) k = or_else (touch_all rs k) (touch r k)

pub touch_all-append :
    (xs ys : List Record) (k : Cell)
    → touch_all (xs ++ ys) k ≡ or_else (touch_all ys k) (touch_all xs k)
unfolding touch_all
touch_all-append [] ys k = ground arith
touch_all-append (r ∷ xs) ys k = ground (arith, touch_all-append xs ys k)

pub touch_all-snoc :
    (xs : List Record) (r : Record) (k : Cell)
    → touch_all (xs ++ r ∷ []) k ≡ or_else (touch r k) (touch_all xs k)
unfolding touch_all
touch_all-snoc xs r k = touch_all-append xs (r ∷ []) k

pub touch_all-nil : (k : Cell) → touch_all [] k ≡ none
unfolding touch_all
touch_all-nil k = refl

-- The state after a sequence of records, cell by cell: the last record that touches a cell decides
-- its value, and a cell that none touches keeps the one it had.
pub apply_all-view :
    (rs : List Record) (s : Store) (k : Cell)
    → view (apply_all rs s).colls k ≡ over (touch_all rs k) (view s.colls k)
unfolding apply_all touch_all
apply_all-view [] s k = refl
apply_all-view (r ∷ rs) s k = ground (arith, apply_all-view rs (apply r s) k, apply-view r s k)

pub apply_all-append :
    (xs ys : List Record) (s : Store) → apply_all (xs ++ ys) s ≡ apply_all ys (apply_all xs s)
unfolding apply_all
apply_all-append [] ys s = refl
apply_all-append (r ∷ xs) ys s = apply_all-append xs ys (apply r s)

-- Replaying records over a state that already has them, and later ones that touch no cell of
-- theirs, changes nothing: a log may be replayed over a snapshot that is newer than its start.
pub replay_absorbed :
    (old log new : List Record) (s : Store) (k : Cell)
    → touch_all new k ≡ none
    → view (apply_all log (apply_all (old ++ (log ++ new)) s)).colls k
      ≡ view (apply_all (old ++ log) s).colls k
replay_absorbed old log new s k h = ground (
  arith,
  apply_all-view log (apply_all (old ++ (log ++ new)) s) k,
  apply_all-view (old ++ (log ++ new)) s k,
  apply_all-view (old ++ log) s k,
  touch_all-append old (log ++ new) k,
  touch_all-append log new k,
  touch_all-append old log k,
)

-- Replaying a log twice is the same as replaying it once.
pub replay_twice :
    (log : List Record) (s : Store)
    → view (apply_all log (apply_all log s)).colls ≡ view (apply_all log s).colls
replay_twice log s =
    fun_ext λ k. ground (arith, apply_all-view log (apply_all log s) k, apply_all-view log s k)

-- A collection that is not marked dirty was not changed since the marks were cleared.
abbrev pub IsClean : Bytes → Store → Type 0
IsClean c s = lookup c s.dirty ≡ none

abbrev pub SameColl : Bytes → Store → Store → Type 0
SameColl c s t = IsClean c s × (lookup c t.colls ≡ lookup c s.colls)

mark-clean :
    (name c : Bytes) (colls : Colls) (s : Store)
    → (bytes_eq name c ≡ false → lookup c colls ≡ lookup c s.colls)
    → IsClean c (mark name colls s)
    → SameColl c s (mark name colls s)
unfolding mark
mark-clean name c colls s same h = ground (arith, lookup-insert name c true s.dirty)

apply_op-clean :
    (op : Op) (r : Record) (s : Store) (c : Bytes)
    → IsClean c (apply_op op r s)
    → SameColl c s (apply_op op r s)
unfolding apply_op
apply_op-clean op_set r s c h =
    let d = insert r.id r.doc (docs_of r.coll s.colls) in
    mark-clean r.coll c (insert r.coll d s.colls) s
      (λ ne. rw (lookup-insert r.coll c d s.colls, ne)) h
apply_op-clean op_del r s c h =
    let d = docs_of r.coll s.colls in
    elim (Option-cases (lookup r.id d)) [
      | inl missing ↦ ground arith
      | inr (v, found) ↦
          rw (found, apply_op)
            (mark-clean r.coll c (insert r.coll (erase r.id d) s.colls) s
              (λ ne. rw (lookup-insert r.coll c (erase r.id d) s.colls, ne))
              (rw (found, apply_op) at h))
    ]
apply_op-clean op_drop r s c h = elim (Option-cases (lookup r.coll s.colls)) [
  | inl missing ↦ ground arith
  | inr (v, found) ↦
      rw (found, apply_op)
        (mark-clean r.coll c (erase r.coll s.colls) s (λ ne. rw (lookup-erase r.coll c s.colls, ne))
          (rw (found, apply_op) at h))
]
apply_op-clean (op_other _) r s c h = (h, refl)

-- A collection that is not marked dirty after a record was not marked before it, and the record
-- did not change it.
pub apply-IsClean :
    (r : Record) (s : Store) (c : Bytes) → IsClean c (apply r s) → SameColl c s (apply r s)
unfolding apply
apply-IsClean r s c h = apply_op-clean r.op r s c h
