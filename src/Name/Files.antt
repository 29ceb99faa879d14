-- ===== src/Name/Files.antt =====
-- The files that `load` (snapshot.go) takes for collections, those that `collPath` (medb.go) names, and
-- the temporary files of atomic writes (internal/fsutil/fsutil.go).
use medb.Base.{
  ℕ, ◌+◌, ◌-◌, ◌≤◌, ◌≡◌, refl, ◌≢◌, ◌↔◌, ◌∙◌, sym, ap, true, false, [], ◌∷◌, ◌++◌, some, none,
  arith, ◌==◌, if◌then◌else◌, length, take, drop, All, Bytes, bytes, bytes_eq_iff, bytes_eq_refl,
  length-append, Bool-cases, inl, inr, drop-append, take-append, take-append-drop, append_assoc,
  append-nil,
}
use medb.Name.{
  valid_name, coll_path, temp_path, snapshot_name, has_suffix, trim_suffix, base_from, json_suffix,
}
use medb.Name.Grammar.{segments, split_from, valid_name_iff}

module _ (s p : Bytes) where
  length-front : length (s ++ p) - length p ≡ length s
  length-front = omega (arith, length-append s p)

  has_suffix-append : has_suffix (s ++ p) p ≡ true
  unfolding has_suffix
  has_suffix-append =
      rw (length-front, drop-append s p, bytes_eq_refl p) (ground (arith, length-append s p))

  trim_suffix-append : trim_suffix (s ++ p) p ≡ s
  unfolding trim_suffix
  trim_suffix-append = rw (has_suffix-append, length-front) (take-append s p)

  has_suffix-drop : has_suffix s p ≡ true → drop (length s - length p) s ≡ p
  unfolding has_suffix
  has_suffix-drop h = (bytes_eq_iff _ _).0 (ground arith)

  has_suffix-split : has_suffix s p ≡ true → s ≡ trim_suffix s p ++ p
  unfolding trim_suffix
  has_suffix-split h =
      rw h (sym (take-append-drop n s) ∙ ap (λ d. take n s ++ d) (has_suffix-drop h))
    where
      n : ℕ
      n = length s - length p

-- A name's own bytes stay in front of a suffix that has no slash.
base_from-letters : (acc p : Bytes) → All (λ c. c ≢ b'/') p → base_from acc p ≡ acc ++ p
unfolding base_from
base_from-letters acc [] h = sym (append-nil acc)
base_from-letters acc (c ∷ p) h =
    rw (letter c h.0) (base_from-letters (acc ++ c ∷ []) p h.1 ∙ append_assoc acc (c ∷ []) p)
  where
    letter : (c : ℕ) → c ≢ b'/' → (c == b'/') ≡ false
    letter c h = ground arith

base_from-append :
    (acc a p : Bytes) → All (λ c. c ≢ b'/') p → base_from acc (a ++ p) ≡ base_from acc a ++ p
unfolding base_from
base_from-append acc [] p h = base_from-letters acc p h
base_from-append acc (c ∷ a) p h = base_from-append (if c == b'/' then [] else acc ++ c ∷ []) a p h

last_or : ℕ → Bytes → ℕ
last_or d [] = d
last_or d (c ∷ s) = last_or c s

last_or-append : (d : ℕ) (a b : Bytes) → last_or d (a ++ b) ≡ last_or (last_or d a) b
unfolding last_or
last_or-append d [] b = refl
last_or-append d (c ∷ a) b = last_or-append c a b

-- What `base_from` returns ends the path.
base_from-tail : (acc rel : Bytes) → (dir : Bytes) × (acc ++ rel ≡ dir ++ base_from acc rel)
unfolding base_from
base_from-tail acc [] = ([], append-nil acc)
base_from-tail acc (c ∷ rel) = elim (Bool-cases (c == b'/')) [
  | inl slash ↦
      let (dir, e) = base_from-tail [] rel in
      (acc ++ c ∷ dir, rw slash (ap (λ t. acc ++ c ∷ t) e ∙ sym (append_assoc acc (c ∷ dir) _)))
  | inr other ↦
      let (dir, e) = base_from-tail (acc ++ c ∷ []) rel in
      (dir, rw other (sym (append_assoc acc (c ∷ []) rel) ∙ e))
]

has_suffix-of_base :
    (rel p : Bytes) → has_suffix (base_from [] rel) p ≡ true → has_suffix rel p ≡ true
has_suffix-of_base rel p h =
    let (dir, e) = base_from-tail [] rel in
    let base = base_from [] rel in
    let whole : rel ≡ (dir ++ trim_suffix base p) ++ p =
      e
      ∙ ap (λ b. dir ++ b) (has_suffix-split base p h)
      ∙ sym (append_assoc dir (trim_suffix base p) p) in
    rw whole (has_suffix-append (dir ++ trim_suffix base p) p)

json_letters : All (λ c. c ≢ b'/') json_suffix
json_letters = omega arith

loaded_only :
    (rel name : Bytes)
    → snapshot_name rel ≡ some name
    → (rel ≡ coll_path name) × (valid_name name ≡ true)
unfolding snapshot_name coll_path
loaded_only rel name h = elim (Bool-cases (has_suffix (base_from [] rel) json_suffix)) [
  | inl ends ↦
      let split = has_suffix-split rel json_suffix (has_suffix-of_base rel json_suffix ends) in
      let trimmed : trim_suffix rel json_suffix ≡ name = ground arith in
      (split ∙ ap (λ n. n ++ json_suffix) trimmed, ground arith)
  | inr not_json ↦ ground arith
]

loaded : (name : Bytes) → valid_name name ≡ true → snapshot_name (coll_path name) ≡ some name
unfolding snapshot_name coll_path
loaded name v = rw (
  base_from-append [] name json_suffix json_letters,
  has_suffix-append (base_from [] name) json_suffix,
  trim_suffix-append name json_suffix,
  v,
)

-- A file below the database directory is loaded as the collection `name` exactly when it is the
-- file of that collection and the name is valid: no collection loses its file, no file is taken
-- for two collections, and every other file is skipped.
pub snapshot_name_iff :
    (rel name : Bytes)
    → (snapshot_name rel ≡ some name) ↔ ((rel ≡ coll_path name) × (valid_name name ≡ true))
snapshot_name_iff rel name = (loaded_only rel name, λ (e, v). rw e (loaded name v))

not_json : (s : Bytes) → has_suffix (s ++ bytes ".tmp") json_suffix ≡ false
unfolding last_or
not_json s = elim (Bool-cases (has_suffix (s ++ bytes ".tmp") json_suffix)) [
  | inl ends ↦ absurd (wrong_letter (has_suffix-split (s ++ bytes ".tmp") json_suffix ends))
  | inr e ↦ e
]
  where
    wrong_letter :
        s ++ bytes ".tmp" ≡ trim_suffix (s ++ bytes ".tmp") json_suffix ++ json_suffix → ⊥
    wrong_letter e = omega (
      arith,
      ap (last_or 0) e,
      last_or-append 0 s (bytes ".tmp"),
      last_or-append 0 (trim_suffix (s ++ bytes ".tmp") json_suffix) json_suffix,
    )

-- The temporary file that an interrupted atomic write leaves behind is never loaded.
pub snapshot_name-temp_path : (path : Bytes) → snapshot_name (temp_path path) ≡ none
unfolding snapshot_name temp_path
snapshot_name-temp_path path =
    rw (base_from-append [] path (bytes ".tmp") (omega arith)) (rw (not_json (base_from [] path)))

pub coll_path-injective : (a b : Bytes) → coll_path a ≡ coll_path b → a ≡ b
unfolding coll_path
coll_path-injective a b e =
    sym (trim_suffix-append a json_suffix)
    ∙ ap (λ t. trim_suffix t json_suffix) e
    ∙ trim_suffix-append b json_suffix

pub coll_path-ne-temp_path : (path name : Bytes) → temp_path path ≢ coll_path name
unfolding coll_path temp_path last_or
coll_path-ne-temp_path path name e = omega (
  arith,
  ap (last_or 0) e,
  last_or-append 0 path (bytes ".tmp"),
  last_or-append 0 name json_suffix,
)

split_from-le :
    (seg rest : Bytes) (bound : ℕ)
    → length seg + length rest ≤ bound
    → All (λ s. length s ≤ bound) (split_from seg rest)
unfolding split_from
split_from-le seg [] bound h = (omega arith, tt)
split_from-le seg (c ∷ rest) bound h = elim (Bool-cases (c == b'/')) [
  | inl slash ↦ rw slash (omega arith, split_from-le [] rest bound (omega arith))
  | inr other ↦
      rw other
        (split_from-le (seg ++ c ∷ []) rest bound (omega (arith, length-append seg (c ∷ []))))
]

-- Every path component of the temporary file of a valid name, the longest path that is written
-- for it, has at most 255 bytes, the limit of the usual file systems.
pub temp_path_fits :
    (name : Bytes)
    → valid_name name ≡ true
    → All (λ s. length s ≤ 255) (segments (temp_path (coll_path name)))
unfolding temp_path coll_path
temp_path_fits name v = split_from-le [] (temp_path (coll_path name)) 255 (
    omega (
      arith,
      ((valid_name_iff name).0 v).short,
      length-append name json_suffix,
      length-append (name ++ json_suffix) (bytes ".tmp"),
    ))
