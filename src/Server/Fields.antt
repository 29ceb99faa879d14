-- ===== src/Server/Fields.antt =====
-- The fields of a request and the collection and id that it names: cmd/medb/protocol.go.
use medb.Base.{
  ◌≡◌, refl, ◌⊎◌, inl, inr, ◌≤◌, ℕ, Bool, true, false, ◌||◌, not, Option, none, some, List, ltb,
  arith, Bytes, bytes, bytes_eq, Map, lookup, length, is_some, keys, any_of, if◌then◌else◌,
}
use medb.Name.{valid_name, valid_collection_name, reserved_collection}
use medb.Name.Grammar.{valid_collection_name-eq}
use medb.Server.{Host}

-- The values of `failure` that a request may meet, each with its own status and code.
pub data ApiFailure : Type 0 where
  fail_invalid_json fail_invalid_request fail_invalid_collection fail_invalid_id : ApiFailure
  fail_auth_required fail_invalid_token fail_forbidden fail_reserved : ApiFailure
  fail_not_found fail_route_not_found fail_method fail_user_disabled : ApiFailure
  fail_document_too_large fail_request_too_large fail_media_type : ApiFailure
  fail_storage fail_internal fail_unavailable : ApiFailure

-- The HTTP status of a failure.
unfoldable pub status : ApiFailure → ℕ
status fail_invalid_json = 400
status fail_invalid_request = 400
status fail_invalid_collection = 400
status fail_invalid_id = 400
status fail_auth_required = 401
status fail_invalid_token = 401
status fail_forbidden = 403
status fail_reserved = 403
status fail_not_found = 404
status fail_route_not_found = 404
status fail_method = 405
status fail_user_disabled = 409
status fail_document_too_large = 413
status fail_request_too_large = 413
status fail_media_type = 415
status fail_storage = 500
status fail_internal = 500
status fail_unavailable = 503

-- A value, or the failure to answer with.
pub data Checked {ℓ} (A : Type ℓ) : Type ℓ where
  good : A → Checked A
  fail : ApiFailure → Checked A

pub Checked-cases {ℓ} :
    {A : Type ℓ} (c : Checked A) → ((a : A) × (c ≡ good a)) ⊎ ((f : ApiFailure) × (c ≡ fail f))
Checked-cases (good a) = inl (a, refl)
Checked-cases (fail f) = inr (f, refl)

abbrev pub Fields : Type 0
Fields = Map Bytes

-- The end of `readObject`: no field that is not allowed, and every field that is required.
unfoldable pub check_fields : List Bytes → List Bytes → Fields → Checked Fields
check_fields allowed required fields =
    if any_of (λ name. not (any_of (λ a. bytes_eq a name) allowed)) (keys fields)
    then fail fail_invalid_request
    else if any_of (λ name. not (is_some (lookup name fields))) required
    then fail fail_invalid_request
    else good fields

module _ (h : Host) where
  unfoldable pub is_json_null : Bytes → Bool
  is_json_null raw = bytes_eq (h.trim_space raw) (bytes "null")

  unfoldable pub string_field : Fields → Bytes → Checked Bytes
  string_field fields name = elim (lookup name fields) [
    | none ↦ fail fail_invalid_request
    | some raw ↦
        if is_json_null raw
        then fail fail_invalid_request
        else elim (h.json_string raw) [ none ↦ fail fail_invalid_request | some value ↦ good value ]
  ]

  unfoldable pub optional_string_field : Fields → Bytes → Checked (Option Bytes)
  unfolding string_field
  optional_string_field fields name = elim (lookup name fields) [
    | none ↦ good none
    | some raw ↦
        if is_json_null raw
        then good none
        else elim (string_field fields name) [ fail f ↦ fail f | good value ↦ good (some value) ]
  ]

  unfoldable pub optional_bool_field : Fields → Bytes → Checked (Option Bool)
  optional_bool_field fields name = elim (lookup name fields) [
    | none ↦ good none
    | some raw ↦
        if is_json_null raw
        then fail fail_invalid_request
        else elim (h.json_bool raw) [ none ↦ fail fail_invalid_request | some b ↦ good (some b) ]
  ]

  unfoldable pub collection_target : Fields → Checked Bytes
  collection_target fields = elim (string_field fields (bytes "collection")) [
    | fail f ↦ fail f
    | good collection ↦
        if not (valid_collection_name collection)
        then fail fail_invalid_collection
        else if reserved_collection collection
        then fail fail_reserved
        else good collection
  ]

  unfoldable pub document_target : ℕ → Fields → Checked (Bytes × Bytes)
  document_target max_id_bytes fields = elim (string_field fields (bytes "collection")) [
    | fail f ↦ fail f
    | good collection ↦
        if not (valid_collection_name collection)
        then fail fail_invalid_collection
        else if reserved_collection collection
        then fail fail_reserved
        else elim (string_field fields (bytes "id")) [
          | fail f ↦ fail f
          | good id ↦
              if not (h.valid_utf8 id) || ltb max_id_bytes (length id)
              then fail fail_invalid_id
              else good (collection, id)
        ]
  ]

  pub collection_target_lem :
      (fields : Fields) (collection : Bytes)
      → collection_target fields ≡ good collection
      → (valid_name collection ≡ true) × (reserved_collection collection ≡ false)
  unfolding collection_target
  collection_target_lem fields collection e =
      let same = valid_collection_name-eq collection in (ground arith, ground arith)

  -- The collection of an accepted request has a name that `medb.C` accepts without a panic, outside
  -- the `_meta` namespace; the id is valid UTF-8 within the limit.
  pub document_target_lem :
      (max_id_bytes : ℕ) (fields : Fields) (collection id : Bytes)
      → document_target max_id_bytes fields ≡ good (collection, id)
      → (valid_name collection ≡ true)
        × (reserved_collection collection ≡ false)
        × (h.valid_utf8 id ≡ true)
        × (length id ≤ max_id_bytes)
        × (collection_target fields ≡ good collection)
  unfolding document_target collection_target
  document_target_lem max_id_bytes fields collection id e =
      let same = valid_collection_name-eq collection in
      (ground arith, ground arith, ground arith, ground arith, ground arith)
