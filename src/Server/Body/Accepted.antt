-- ===== src/Server/Body/Accepted.antt =====
-- Which bodies `readObject` of cmd/medb/protocol.go accepts, and as which fields.
use medb.Base.{
  ◌≡◌, refl, ap, sym, ◌∙◌, ◌≤◌, ◌<◌, inl, inr, ℕ, Bool-cases, true, false, not, Option-cases, none,
  some, List, [], ◌∷◌, arith, Bytes, bytes, bytes_eq, bytes_eq_iff, bytes_eq_refl, is_some, Map,
  lookup, lookup-insert, lookup-nil, insert, keys, any_of, length,
}
use medb.Server.{Host}
use medb.Server.Fields.{fail_request_too_large, Checked-cases, good, fail, Fields, check_fields}
use medb.Server.Unicode.{valid_json_unicode}
use medb.Server.Handlers.{read_object}
use medb.Server.Body.{
  Incoming, Members, member, bad_token, bad_value, closing, bad_closing, BodyReader, collect,
  decode_object, decode_body, spell, AreDistinct,
}

-- What `collect` adds to the fields that it has: the members that are spelled, all new.
collect_lem :
    (fields : Fields) (members : Members) (all : Fields)
    → collect fields members ≡ good all
    → (ms : Map Bytes) × (members ≡ spell ms)
      × AreDistinct (keys ms)
      × ((name : Bytes)
          → lookup name all
            ≡ (elim (lookup name fields) [ none ↦ lookup name ms | some raw ↦ some raw ]))
      × ((name : Bytes)
          → any_of (λ n. bytes_eq n name) (keys ms) ≡ true
          → lookup name fields ≡ none)
unfolding collect spell lookup
collect_lem fields closing all e = ([], refl, tt, λ name. ground arith, λ name bad. cc)
collect_lem fields (member name raw rest) all e = elim (Option-cases (lookup name fields)) [
  | inr (old, there) ↦ absurd (ground arith)
  | inl fresh ↦
      let (ms, spelled, distinct, look, unused) =
        collect_lem (insert name raw fields) rest all (ground arith) in
      (
        (name, raw) ∷ ms,
        ap (member name raw) spelled,
        (
          elim (Bool-cases (any_of (λ n. bytes_eq n name) (keys ms))) [
            | inr ne ↦ ne
            | inl twice ↦
                let gone = unused name twice in
                absurd (ground (arith, lookup-insert name name raw fields, bytes_eq_refl name))
          ],
          distinct,
        ),
        λ n.
            let found = look n in
            let same = lookup-insert name n raw fields in
            elim (Bool-cases (bytes_eq name n)) [
              | inl eq ↦
                  let fresh' : lookup n fields ≡ none =
                    ap (λ k. lookup k fields) (sym ((bytes_eq_iff name n).0 eq)) ∙ fresh in
                  ground arith
              | inr ne ↦ ground arith
            ],
        λ n among.
            let same = lookup-insert name n raw fields in
            elim (Bool-cases (bytes_eq name n)) [
              | inl eq ↦ ap (λ k. lookup k fields) (sym ((bytes_eq_iff name n).0 eq)) ∙ fresh
              | inr ne ↦
                  let gone : lookup n (insert name raw fields) ≡ none = unused n (ground arith) in
                  ground arith
            ],
      )
]
collect_lem fields bad_token all e = absurd (ground arith)
collect_lem fields (bad_value name) all e = absurd (ground arith)
collect_lem fields bad_closing all e = absurd (ground arith)

module _ (h : Host) (reader : BodyReader) where
  decode_object_inv :
      (body : Bytes) (fields : Fields)
      → decode_object h reader body ≡ good fields
      → (h.valid_utf8 body ≡ true)
        × (valid_json_unicode body ≡ some true)
        × (reader.valid_json body ≡ true)
        × ((members : Members) × (reader.decode (h.trim_space body) ≡ some members)
            × (collect [] members ≡ good fields))
  unfolding decode_object
  decode_object_inv body fields e = (ground arith, ground arith, ground arith, ground arith)

  decode_body_inv :
      (limit : ℕ) (r : Incoming) (fields : Fields)
      → decode_body h reader limit r ≡ good fields
      → (r.content_encoding ≡ [])
        × (reader.media_type r.content_type ≡ some (bytes "application/json"))
        × (length r.sent ≤ limit)
        × (r.broken ≡ false)
        × (decode_object h reader r.sent ≡ good fields)
  unfolding decode_body
  decode_body_inv limit r fields e = (
    ground arith,
    elim (Option-cases (reader.media_type r.content_type)) [
      | inl none_there ↦ absurd (ground arith)
      | inr (media, there) ↦
          there ∙ ap some ((bytes_eq_iff media (bytes "application/json")).0 (ground arith))
    ],
    ground arith,
    ground arith,
    ground arith,
  )

  -- A body that is accepted came whole, within the limit, with the JSON media type and no content
  -- encoding. It is valid UTF-8 and valid JSON, an object whose names are all different and
  -- allowed, the required ones among them; the fields are its members.
  pub read_object_lem :
      (allowed required : List Bytes) (limit : ℕ) (r : Incoming) (fields : Fields)
      → read_object allowed required (decode_body h reader limit r) ≡ good fields
      → ((r.content_encoding ≡ [])
          × (reader.media_type r.content_type ≡ some (bytes "application/json"))
          × (length r.sent ≤ limit)
          × (r.broken ≡ false)
          × (h.valid_utf8 r.sent ≡ true)
          × (valid_json_unicode r.sent ≡ some true)
          × (reader.valid_json r.sent ≡ true))
        × ((ms : Map Bytes) × (reader.decode (h.trim_space r.sent) ≡ some (spell ms))
            × AreDistinct (keys ms)
            × ((name : Bytes) → lookup name fields ≡ lookup name ms))
        × (any_of (λ name. not (any_of (λ n. bytes_eq n name) allowed)) (keys fields) ≡ false)
        × (any_of (λ name. not (is_some (lookup name fields))) required ≡ false)
  unfolding read_object check_fields
  read_object_lem allowed required limit r fields e =
      elim (Checked-cases (decode_body h reader limit r)) [
        | inr (f, e1) ↦ absurd (ground arith)
        | inl (fields', e1) ↦
            let same : fields' ≡ fields = ground arith in
            let got : decode_body h reader limit r ≡ good fields = e1 ∙ ap good same in
            let (encoding, media, small, whole, decoded) = decode_body_inv limit r fields got in
            let (utf8, escapes, json, (members, calls, collected)) =
              decode_object_inv r.sent fields decoded in
            let (ms, spelled, distinct, look, _) = collect_lem [] members fields collected in
            (
              (encoding, media, small, whole, utf8, escapes, json),
              (
                ms,
                calls ∙ ap some spelled,
                distinct,
                λ name. look name ∙ rw (lookup-nil {V = Bytes} name),
              ),
              ground arith,
              ground arith,
            )
      ]

  -- A body that is longer than the limit is refused as such, whatever else is wrong with it, once the
  -- headers are right.
  pub read_object_too_large :
      (allowed required : List Bytes) (limit : ℕ) (r : Incoming)
      → r.content_encoding ≡ []
      → reader.media_type r.content_type ≡ some (bytes "application/json")
      → limit < length r.sent
      → read_object allowed required (decode_body h reader limit r) ≡ fail fail_request_too_large
  unfolding read_object decode_body
  read_object_too_large allowed required limit r plain media long =
      ground (arith, bytes_eq_refl (bytes "application/json"))
