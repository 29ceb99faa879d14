-- ===== src/Codec/Sample.antt =====
-- A small codec that satisfies `JsonLaws`: each byte of a field is shifted away from the newline and
-- from the zero that ends the field. It shows that the laws can hold, and runs the examples.
use medb.Base.{
  ℕ, zero, suc, ◌+◌, ◌-◌, ◌<◌, ◌≡◌, refl, ap, sym, subst, ◌≢◌, ◌∙◌, Option, none, some, [], ◌∷◌,
  ◌++◌, All-append, arith, length-append, length, ◌==◌, if◌then◌else◌, Bytes,
}
use medb.Store.{Op, op_set, op_del, op_drop, op_other, Record, Docs}
use medb.Codec.{Codec, JsonLaws, NoNewline}

unfoldable pub put_field : Bytes → Bytes
put_field [] = 0 ∷ []
put_field (x ∷ xs) = (x + 20) ∷ put_field xs

unfoldable pub get_field : Bytes → Option (Bytes × Bytes)
get_field [] = none
get_field (x ∷ xs) =
    let next = get_field xs in
    if x == 0
    then some ([], xs)
    else elim next [ none ↦ none | some (field, rest) ↦ some ((x - 20) ∷ field, rest) ]

pub get_field-put_field : (xs rest : Bytes) → get_field (put_field xs ++ rest) ≡ some (xs, rest)
unfolding get_field put_field
get_field-put_field [] rest = refl
get_field-put_field (x ∷ xs) rest = ground (arith, get_field-put_field xs rest)

put_field-NoNewline : (xs : Bytes) → NoNewline (put_field xs)
unfolding put_field
put_field-NoNewline [] = (λ e. absurd (omega arith), tt)
put_field-NoNewline (x ∷ xs) = (λ e. absurd (omega arith), put_field-NoNewline xs)

unfoldable pub op_tag : Op → Option ℕ
op_tag op_set = some 1
op_tag op_del = some 2
op_tag op_drop = some 3
op_tag (op_other _) = none

unfoldable pub tag_op : ℕ → Op
tag_op t = if t == 1 then op_set else if t == 2 then op_del else op_drop

unfoldable pub put_record : Record → Option Bytes
put_record r = elim (op_tag r.op) [
  | none ↦ none
  | some t ↦ some (t ∷ (put_field r.coll ++ (put_field r.id ++ (put_field r.doc ++ []))))
]

unfoldable pub get_record : Bytes → Option Record
get_record [] = none
get_record (t ∷ line) = elim (get_field line) [
  | none ↦ none
  | some (coll, line') ↦ elim (get_field line') [
    | none ↦ none
    | some (id, line'') ↦ elim (get_field line'') [
      | none ↦ none
      | some (doc, _) ↦ some (record { op = tag_op t; coll = coll; id = id; doc = doc })
    ]
  ]
]

unfoldable pub put_docs : Docs → Bytes
put_docs [] = []
put_docs ((id, doc) ∷ docs) = put_field id ++ (put_field doc ++ put_docs docs)

unfoldable pub get_docs : ℕ → Bytes → Option Docs
get_docs zero b = none
get_docs (suc fuel) [] = some []
get_docs (suc fuel) (x ∷ b) = elim (get_field (x ∷ b)) [
  | none ↦ none
  | some (id, b') ↦ elim (get_field b') [
    | none ↦ none
    | some (doc, b'') ↦ elim (get_docs fuel b'') [
      | none ↦ none
      | some docs ↦ some ((id, doc) ∷ docs)
    ]
  ]
]

put_field-length : (xs : Bytes) → 0 < length (put_field xs)
unfolding put_field
put_field-length [] = omega arith
put_field-length (x ∷ xs) = omega arith

put_field-cons : (xs rest : Bytes) → (x : ℕ) × (b : Bytes) × (put_field xs ++ rest ≡ x ∷ b)
unfolding put_field
put_field-cons [] rest = (0, rest, refl)
put_field-cons (x ∷ xs) rest = (x + 20, put_field xs ++ rest, refl)

get_docs-put_docs :
    (fuel : ℕ) (docs : Docs)
    → length (put_docs docs) < fuel
    → get_docs fuel (put_docs docs) ≡ some docs
unfolding get_docs put_docs
get_docs-put_docs zero docs h = absurd (omega arith)
get_docs-put_docs (suc fuel) [] h = refl
get_docs-put_docs (suc fuel) ((id, doc) ∷ docs) h =
    let rest = put_field doc ++ put_docs docs in
    let (x, b, e) = put_field-cons id rest in
    let shorter : length (put_docs docs) < fuel = omega (
      arith,
      length-append (put_field id) rest,
      length-append (put_field doc) (put_docs docs),
      put_field-length id,
    ) in
    let first : get_field (x ∷ b) ≡ some (id, rest) =
      ap get_field (sym e) ∙ get_field-put_field id rest in
    rw (e, get_docs)
      (rw (first, get_field-put_field doc (put_docs docs), get_docs-put_docs fuel docs shorter))

-- The line of a record with this tag.
abbrev line_of : ℕ → Bytes → Bytes → Bytes → Bytes
line_of t coll id doc = t ∷ (put_field coll ++ (put_field id ++ (put_field doc ++ [])))

get_record-line_of :
    (t : ℕ) (coll id doc : Bytes)
    → get_record (line_of t coll id doc)
      ≡ some (record { op = tag_op t; coll = coll; id = id; doc = doc })
unfolding get_record
get_record-line_of t coll id doc = ground (
  arith,
  get_field-put_field coll (put_field id ++ (put_field doc ++ [])),
  get_field-put_field id (put_field doc ++ []),
  get_field-put_field doc [],
)

line_of-NoNewline : (t : ℕ) (coll id doc : Bytes) → t ≢ 10 → NoNewline (line_of t coll id doc)
line_of-NoNewline t coll id doc h = (
  h,
  All-append ne (put_field coll) _ (put_field-NoNewline coll) (
      All-append ne (put_field id) _ (put_field-NoNewline id)
        (All-append ne (put_field doc) [] (put_field-NoNewline doc) tt)),
)
  where
    ne : ℕ → Type 0
    ne c = c ≢ 10

put_record_inv :
    (r : Record) (b : Bytes)
    → put_record r ≡ some b
    → (t : ℕ) × (b ≡ line_of t r.coll r.id r.doc) × (tag_op t ≡ r.op) × (t < 10)
unfolding put_record op_tag tag_op
put_record_inv r b h = go r.op r b h refl
  where
    go :
        (op : Op) (r : Record) (b : Bytes)
        → put_record r ≡ some b
        → r.op ≡ op
        → (t : ℕ) × (b ≡ line_of t r.coll r.id r.doc) × (tag_op t ≡ r.op) × (t < 10)
    go op_set r b h e = (1, ground arith, sym e, omega arith)
    go op_del r b h e = (2, ground arith, sym e, omega arith)
    go op_drop r b h e = (3, ground arith, sym e, omega arith)
    go (op_other x) r b h e = absurd (ground arith)

put_record_back : (r : Record) (b : Bytes) → put_record r ≡ some b → get_record b ≡ some r
put_record_back r b h =
    let (t, e, op, _) = put_record_inv r b h in
    ap get_record e
    ∙ get_record-line_of t r.coll r.id r.doc
    ∙ ap (λ o. some (record r { op = o })) op

put_record-NoNewline : (r : Record) (b : Bytes) → put_record r ≡ some b → NoNewline b
put_record-NoNewline r b h =
    let (t, e, _, small) = put_record_inv r b h in
    subst NoNewline (sym e) (line_of-NoNewline t r.coll r.id r.doc (λ bad. absurd (omega arith)))

abbrev pub sample_codec : Codec
sample_codec = record {
  marshal_record = put_record;
  unmarshal_record = get_record;
  marshal_docs = λ d. some (put_docs d);
  unmarshal_docs = λ b. get_docs (suc (length b)) b;
}

-- Any id is a text, and any document with a byte is compact.
abbrev pub AnyText : Bytes → Type 0
AnyText i = Unit

abbrev pub IsFilled : Bytes → Type 0
IsFilled v = 0 < length v

filled_docs :
    (d : Docs) (b : Bytes) → ◌≡◌ {A = Option Bytes} (some (put_docs d)) (some b) → b ≡ put_docs d
filled_docs d b e = ground arith

pub sample_laws : JsonLaws sample_codec AnyText IsFilled
sample_laws = record {
  record_back = λ r b w e. put_record_back r b e;
  record_line = λ r b w e. put_record-NoNewline r b e;
  docs_back = λ d b plain e. (
    d,
    rw (filled_docs d b e) (get_docs-put_docs (suc (length (put_docs d))) d (omega arith)),
    λ i. refl,
  );
  json_filled = λ v filled. filled;
}
