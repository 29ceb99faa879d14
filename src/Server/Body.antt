-- ===== src/Server/Body.antt =====
-- The body of a request: `readObject` of cmd/medb/protocol.go up to its checks of the fields, which are
-- `check_fields` of Fields. The header parser and the JSON decoder of Go's packages are the record
-- `BodyReader`, a parameter; a request's body is what its connection brings.
pub mod Accepted
mod Tests
use medb.Base.{
  ◌≡◌, ◌≢◌, refl, ap, sym, ◌∙◌, ◌≤◌, ◌⊎◌, inl, inr, ℕ, Bool, Bool-cases, true, false, ◌&&◌, ◌||◌,
  not, Option, Option-cases, none, some, List, [], ◌∷◌, ◌==◌, ltb, leb, arith, Bytes, bytes,
  bytes_eq, bytes_eq_iff, bytes_eq_refl, is_empty, is_some, Map, lookup, lookup-insert, lookup-nil,
  insert, keys, any_of, length, if◌then◌else◌,
}
use medb.Db.Opening.{ℤ, pos, negsuc}
use medb.Server.{Host}
use medb.Server.Fields.{
  ApiFailure, fail_invalid_json, fail_invalid_request, fail_request_too_large, fail_media_type,
  Checked, Checked-cases, good, fail, Fields, check_fields,
}
use medb.Server.Unicode.{valid_json_unicode}
use medb.Server.Handlers.{read_object}

-- What `readObject` reads of a request: two headers, the length that is announced (-1 if none is), and
-- the bytes that come, with whether the connection breaks after them.
pub record Incoming : Type 0 where
  pub content_encoding : Bytes
  pub content_type : Bytes
  pub content_length : ℤ
  pub sent : Bytes
  pub broken : Bool

-- What the decoder gives after the opening brace, one call after another: a name and a value; a token
-- that is an error or no string; a name whose value is an error; the closing token or its error.
pub data Members : Type 0 where
  member : Bytes → Bytes → Members → Members
  bad_token : Members
  bad_value : Bytes → Members
  closing : Members
  bad_closing : Members

pub record BodyReader : Type 0 where
  -- the media type of mime.ParseMediaType
  pub media_type : Bytes → Option Bytes
  -- json.Valid
  pub valid_json : Bytes → Bool
  -- the calls of a json.Decoder; none where the first token is no opening brace
  pub decode : Bytes → Option Members

-- `r.ContentLength > maxBytes`
unfoldable pub longer_than : ℤ → ℕ → Bool
longer_than (pos n) limit = ltb limit n
longer_than (negsuc n) limit = false

-- io.ReadAll of a http.MaxBytesReader
unfoldable pub read_all : ℕ → Incoming → Checked Bytes
read_all limit r =
    if ltb limit (length r.sent)
    then fail fail_request_too_large
    else if r.broken
    then fail fail_invalid_json
    else good r.sent

-- The loop over `decoder.More()`, with the token after it.
unfoldable pub collect : Fields → Members → Checked Fields
collect fields closing = good fields
collect fields bad_closing = fail fail_invalid_json
collect fields bad_token = fail fail_invalid_json
collect fields (bad_value name) =
    if is_some (lookup name fields) then fail fail_invalid_request else fail fail_invalid_json
collect fields (member name raw rest) =
    let more = collect (insert name raw fields) rest in
    if is_some (lookup name fields) then fail fail_invalid_request else more

unfoldable pub starts_object : Bytes → Bool
starts_object [] = false
starts_object (c ∷ rest) = c == b'{'

module _ (h : Host) (reader : BodyReader) where
  unfoldable pub passes_unicode : Bytes → Bool
  passes_unicode body = elim (valid_json_unicode body) [ none ↦ false | some ok ↦ ok ]

  -- From the bytes of the body on.
  unfoldable pub decode_object : Bytes → Checked Fields
  unfolding passes_unicode starts_object
  decode_object body =
      if is_empty body
        || (not (h.valid_utf8 body) || (not (passes_unicode body) || not (reader.valid_json body)))
      then fail fail_invalid_json
      else if not (starts_object (h.trim_space body))
      then fail fail_invalid_json
      else elim (reader.decode (h.trim_space body)) [
        | none ↦ fail fail_invalid_json
        | some members ↦ collect [] members
      ]

  unfoldable pub decode_body : ℕ → Incoming → Checked Fields
  unfolding longer_than read_all decode_object
  decode_body limit r =
      if not (is_empty r.content_encoding)
      then fail fail_media_type
      else elim (reader.media_type r.content_type) [
        | none ↦ fail fail_media_type
        | some media ↦
            if not (bytes_eq media (bytes "application/json"))
            then fail fail_media_type
            else if longer_than r.content_length limit
            then fail fail_request_too_large
            else elim (read_all limit r) [ fail f ↦ fail f | good body ↦ decode_object body ]
      ]

-- The decoder's calls on an object with these members.
unfoldable pub spell : Map Bytes → Members
spell [] = closing
spell ((name, raw) ∷ rest) = member name raw (spell rest)

-- No name stands twice.
abbrev pub AreDistinct : List Bytes → Type 0
AreDistinct [] = Unit
AreDistinct (name ∷ rest) = (any_of (λ n. bytes_eq n name) rest ≡ false) × AreDistinct rest
