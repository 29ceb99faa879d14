-- ===== src/Name/Grammar.antt =====
-- The grammar of collection names, the loop of `validName` (medb.go) and the server's copy of it
-- (cmd/medb/protocol.go).
use medb.Base.{
  ℕ, ◌+◌, ◌≤◌, ◌<◌, ◌≡◌, refl, ◌↔◌, ◌⊎◌, true, List, [], ◌∷◌, ◌++◌, arith, ◌==◌, if◌then◌else◌,
  length, All, All-append_iff, Bytes, length-append, Bool-cases, inl, inr,
}
use medb.Name.{
  max_name_len, is_name_char, valid_segments, valid_name, is_collection_char, collection_segments,
  valid_collection_name,
}

-- The segments of a path, split at its slashes; `seg` is the current one so far.
unfoldable pub split_from : Bytes → Bytes → List Bytes
split_from seg [] = seg ∷ []
split_from seg (c ∷ rest) =
    let here = split_from [] rest in
    let more = split_from (seg ++ c ∷ []) rest in if c == b'/' then seg ∷ here else more

abbrev pub segments : Bytes → List Bytes
segments = split_from []

-- A lowercase ASCII letter, a digit, `_` or `-`.
abbrev pub IsNameChar : ℕ → Type 0
IsNameChar c = (b'a' ≤ c) × (c ≤ b'z') ⊎ (b'0' ≤ c) × (c ≤ b'9') ⊎ (c ≡ b'_') ⊎ (c ≡ b'-')

abbrev pub IsSegment : Bytes → Type 0
IsSegment s = (0 < length s) × All IsNameChar s

-- At most 240 bytes, and each segment between slashes is non-empty and of these letters.
pub record IsCollName (name : Bytes) : Type 0 where
  pub short : length name ≤ max_name_len
  pub parts : All IsSegment (segments name)

is_name_char_iff : (c : ℕ) → (is_name_char c ≡ true) ↔ IsNameChar c
unfolding is_name_char
is_name_char_iff c = (λ h. ground arith, λ h. ground arith)

All-snoc : (s : Bytes) (c : ℕ) → All IsNameChar s → IsNameChar c → All IsNameChar (s ++ c ∷ [])
All-snoc [] c h k = (k, tt)
All-snoc (x ∷ s) c h k = (h.0, All-snoc s c h.1 k)

length-snoc : (s : Bytes) (c : ℕ) → length (s ++ c ∷ []) ≡ length s + 1
length-snoc s c = length-append s (c ∷ [])

-- The loop accepts what makes the segments well formed, `seg` being the start of the first one.
valid_segments_sound :
    (seg rest : Bytes)
    → All IsNameChar seg
    → valid_segments (length seg) rest ≡ true
    → All IsSegment (split_from seg rest)
unfolding valid_segments split_from
valid_segments_sound seg [] h v = ((ground arith, h), tt)
valid_segments_sound seg (c ∷ rest) h v = elim (Bool-cases (c == b'/')) [
  | inl slash ↦ rw slash ((ground arith, h), valid_segments_sound [] rest tt (ground arith))
  | inr other ↦ rw other (
      valid_segments_sound (seg ++ c ∷ []) rest
        (All-snoc seg c h ((is_name_char_iff c).0 (ground arith)))
        (rw (length-snoc seg c) (ground arith)))
]

split_from-first : (seg rest : Bytes) → All IsSegment (split_from seg rest) → All IsNameChar seg
unfolding split_from
split_from-first seg [] h = h.0.1
split_from-first seg (c ∷ rest) h = elim (Bool-cases (c == b'/')) [
  | inl slash ↦ (rw slash at h).0.1
  | inr other ↦
      (All-append_iff IsNameChar seg (c ∷ [])
        (split_from-first (seg ++ c ∷ []) rest (rw other at h))).0
]

valid_segments_complete :
    (seg rest : Bytes)
    → All IsSegment (split_from seg rest)
    → valid_segments (length seg) rest ≡ true
unfolding valid_segments split_from
valid_segments_complete seg [] h = let first = h.0.0 in ground arith
valid_segments_complete seg (c ∷ rest) h = elim (Bool-cases (c == b'/')) [
  | inl slash ↦
      let parts : IsSegment seg × All IsSegment (split_from [] rest) = rw slash at h in
      let filled = parts.0.0 in let ih = valid_segments_complete [] rest parts.1 in ground arith
  | inr other ↦
      let parts : All IsSegment (split_from (seg ++ c ∷ []) rest) = rw other at h in
      let ih = valid_segments_complete (seg ++ c ∷ []) rest parts in
      let letters =
        All-append_iff IsNameChar seg (c ∷ []) (split_from-first (seg ++ c ∷ []) rest parts) in
      let letter = (is_name_char_iff c).1 letters.1.0 in rw (other, letter) (rw length-snoc at ih)
]

-- A name is accepted exactly when it has at most 240 bytes and its segments between slashes are
-- non-empty words over the lowercase letters, the digits, `_` and `-`.
pub valid_name_iff : (name : Bytes) → (valid_name name ≡ true) ↔ IsCollName name
unfolding valid_name
valid_name_iff name = (
  λ h. record { short = ground arith; parts = valid_segments_sound [] name tt (ground arith) },
  λ h. let v = valid_segments_complete [] name h.parts in let s = h.short in ground arith,
)

collection_segments_eq :
    (seg : ℕ) (rest : Bytes) → collection_segments seg rest ≡ valid_segments seg rest
unfolding valid_segments collection_segments is_name_char is_collection_char
collection_segments_eq seg [] = refl
collection_segments_eq seg (c ∷ rest) =
    ground (arith, collection_segments_eq 0 rest, collection_segments_eq (seg + 1) rest)

-- The server's check accepts exactly the names that the database accepts, so that `medb.C` does
-- not panic on a name that passed it.
pub valid_collection_name-eq : (name : Bytes) → valid_collection_name name ≡ valid_name name
unfolding valid_collection_name valid_name valid_segments
valid_collection_name-eq [] = refl
valid_collection_name-eq (c ∷ name) = ground (arith, collection_segments_eq 0 (c ∷ name))
