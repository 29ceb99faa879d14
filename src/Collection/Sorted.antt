-- ===== src/Collection/Sorted.antt =====
-- The order in which `Collections` and `All` list names and ids.
use medb.Base.{
  ◌≡◌, refl, Bool, true, false, ◌||◌, is_some, List, [], ◌∷◌, arith, All, All-map, any_of, Bytes,
  bytes_eq, Map, lookup, keys, Bool-cases, inl, inr,
}
use medb.Db.{Db}
use medb.Collection.{leb_bytes, insert_sorted, sorted, collections}

-- Each element is at most the next ones.
abbrev pub IsSorted : List Bytes → Type 0
IsSorted [] = Unit
IsSorted (x ∷ xs) = All (λ y. leb_bytes x y ≡ true) xs × IsSorted xs

leb_bytes_total : (x y : Bytes) → leb_bytes x y ≡ false → leb_bytes y x ≡ true
unfolding leb_bytes
leb_bytes_total [] y h = cc
leb_bytes_total (a ∷ x) [] h = refl
leb_bytes_total (a ∷ x) (b ∷ y) h = ground (arith, leb_bytes_total x y)

leb_bytes_trans :
    (x y z : Bytes) → leb_bytes x y ≡ true → leb_bytes y z ≡ true → leb_bytes x z ≡ true
unfolding leb_bytes
leb_bytes_trans [] y z h k = refl
leb_bytes_trans (a ∷ x) [] z h k = cc
leb_bytes_trans (a ∷ x) (b ∷ y) [] h k = cc
leb_bytes_trans (a ∷ x) (b ∷ y) (c ∷ z) h k = ground (arith, leb_bytes_trans x y z)

All-insert_sorted :
    (x y : Bytes) (ys : List Bytes)
    → leb_bytes y x ≡ true
    → All (λ z. leb_bytes y z ≡ true) ys
    → All (λ z. leb_bytes y z ≡ true) (insert_sorted x ys)
unfolding insert_sorted
All-insert_sorted x y [] h all = (h, tt)
All-insert_sorted x y (z ∷ ys) h all = elim (Bool-cases (leb_bytes x z)) [
  | inl here ↦ rw (here, insert_sorted) (h, all)
  | inr on ↦ rw (on, insert_sorted) (all.0, All-insert_sorted x y ys h all.1)
]

insert_sorted-IsSorted : (x : Bytes) (ys : List Bytes) → IsSorted ys → IsSorted (insert_sorted x ys)
unfolding insert_sorted
insert_sorted-IsSorted x [] h = (tt, tt)
insert_sorted-IsSorted x (y ∷ ys) h = elim (Bool-cases (leb_bytes x y)) [
  | inl here ↦
      rw (here, insert_sorted) ((here, All-map ys (λ z le. leb_bytes_trans x y z here le) h.0), h)
  | inr on ↦
      rw (on, insert_sorted)
        (All-insert_sorted x y ys (leb_bytes_total x y on) h.0, insert_sorted-IsSorted x ys h.1)
]

pub sorted-IsSorted : (xs : List Bytes) → IsSorted (sorted xs)
unfolding sorted
sorted-IsSorted [] = tt
sorted-IsSorted (x ∷ xs) = insert_sorted-IsSorted x (sorted xs) (sorted-IsSorted xs)

abbrev pub member : Bytes → List Bytes → Bool
member k xs = any_of (λ j. bytes_eq j k) xs

member-insert_sorted :
    (k x : Bytes) (ys : List Bytes) → member k (insert_sorted x ys) ≡ (bytes_eq x k || member k ys)
unfolding insert_sorted
member-insert_sorted k x [] = refl
member-insert_sorted k x (y ∷ ys) = ground (arith, member-insert_sorted k x ys)

pub member-sorted : (k : Bytes) (xs : List Bytes) → member k (sorted xs) ≡ member k xs
unfolding sorted
member-sorted k [] = refl
member-sorted k (x ∷ xs) = ground (arith, member-insert_sorted k x (sorted xs), member-sorted k xs)

pub member-keys {ℓ} :
    {V : Type ℓ} (k : Bytes) (m : Map V) → member k (keys m) ≡ is_some (lookup k m)
unfolding lookup
member-keys k [] = refl
member-keys k ((j, v) ∷ m) = ground (arith, member-keys k m)

-- Before it is closed, a database lists its collections in ascending order, a name just where the
-- collection exists.
pub collections-IsSorted :
    (db : Db) (name : Bytes)
    → db.is_closed ≡ false
    → IsSorted (collections db)
      × (member name (collections db) ≡ is_some (lookup name db.store.colls))
unfolding collections
collections-IsSorted db name live = rw live (
  sorted-IsSorted (keys db.store.colls),
  ground (arith, member-sorted name (keys db.store.colls), member-keys name db.store.colls),
)
