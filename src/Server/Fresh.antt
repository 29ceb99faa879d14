-- ===== src/Server/Fresh.antt =====
-- Fresh ids and tokens: `NewID` of medb.go, `newToken`, `uniqueUserID` and `uniqueToken` of
-- cmd/medb/auth.go. What rand.Read gives is a list of draws, in which `none` is its error.
use medb.Base.{
  ◌≡◌, ◌⊎◌, refl, inl, inr, ℕ, ◌+◌, ◌*◌, ◌/◌, ◌%◌, ◌-◌, ◌<◌, ◌≤◌, true, false, not, Option, none,
  some, List, [], ◌∷◌, ◌++◌, ltb, arith, All, Bytes, bytes, length, has_prefix, if◌then◌else◌,
}
use medb.Db.{Db}
use medb.Collection.{has}
use medb.Server.{Host}
use medb.Server.Roles.{valid_hex_id, all_hex, is_hex_digit}
use medb.Server.Auth.{user_collection, token_collection, valid_token, parse_utc_timestamp}

-- hex.EncodeToString
unfoldable pub hex_digit_of : ℕ → ℕ
hex_digit_of n = if ltb n 10 then b'0' + n else b'a' + (n - 10)

unfoldable pub hex_encode : Bytes → Bytes
unfolding hex_digit_of
hex_encode [] = []
hex_encode (c ∷ rest) = hex_digit_of (c / 16) ∷ (hex_digit_of (c % 16) ∷ hex_encode rest)

-- The result of a loop that draws: a value, the error of rand.Read (on which `NewID` panics), or
-- that the loop goes on past the draws given.
pub data Drawn {ℓ} (A : Type ℓ) : Type ℓ where
  drawn : A → Drawn A
  draw_failed drawing : Drawn A

pub Drawn-cases {ℓ} :
    {A : Type ℓ} (d : Drawn A) → ((a : A) × (d ≡ drawn a)) ⊎ ((d ≡ draw_failed) ⊎ (d ≡ drawing))
Drawn-cases (drawn a) = inl (a, refl)
Drawn-cases draw_failed = inr (inl refl)
Drawn-cases drawing = inr (inr refl)

abbrev pub Draws : Type 0
Draws = List (Option Bytes)

unfoldable pub unique_user_id : Draws → Db → Drawn Bytes
unique_user_id [] db = drawing
unique_user_id (none ∷ draws) db = draw_failed
unique_user_id (some b ∷ draws) db =
    let more = unique_user_id draws db in
    let id = hex_encode b in if not (has user_collection id db) then drawn id else more

-- Draws of this many bytes.
abbrev pub IsByte : ℕ → Type 0
IsByte c = c < 256

abbrev pub IsDraw : ℕ → Option Bytes → Type 0
IsDraw size none = Unit
IsDraw size (some b) = (length b ≡ size) × All IsByte b

hex_digit_of-is_hex : (n : ℕ) → n < 16 → is_hex_digit (hex_digit_of n) ≡ true
unfolding hex_digit_of is_hex_digit
hex_digit_of-is_hex n h = ground arith

hex_encode-all_hex : (b : Bytes) → All IsByte b → all_hex (hex_encode b) ≡ true
unfolding hex_encode all_hex
hex_encode-all_hex [] h = refl
hex_encode-all_hex (c ∷ b) (h, hs) =
    let high : c / 16 < 16 = omega arith in
    let low : c % 16 < 16 = omega arith in
    rw (hex_digit_of-is_hex (c / 16) high, hex_digit_of-is_hex (c % 16) low)
      (hex_encode-all_hex b hs)

length-hex_encode : (b : Bytes) → length (hex_encode b) ≡ 2 * length b
unfolding hex_encode
length-hex_encode [] = refl
length-hex_encode (c ∷ b) = omega (arith, length-hex_encode b)

-- A drawn id has the form of a user's id, and no user has it.
pub unique_user_id_lem :
    (draws : Draws) (db : Db) (id : Bytes)
    → All (IsDraw 16) draws
    → unique_user_id draws db ≡ drawn id
    → (valid_hex_id id 32 ≡ true) × (has user_collection id db ≡ false)
unfolding unique_user_id
unique_user_id_lem [] db id ok h = ground arith
unique_user_id_lem (none ∷ draws) db id ok h = ground arith
unique_user_id_lem (some b ∷ draws) db id ((size, ok), oks) h =
    let hex : valid_hex_id (hex_encode b) 32 ≡ true =
      unfold valid_hex_id in ground (arith, hex_encode-all_hex b ok, length-hex_encode b) in
    ground (arith, unique_user_id_lem draws db id oks)

module _ (h : Host) where
  unfoldable pub new_token : Option Bytes → Option Bytes
  new_token none = none
  new_token (some secret) = some (bytes "medb_" ++ h.encode_base64 secret)

  unfoldable pub unique_token : Draws → Db → Drawn (Bytes × Bytes)
  unfolding new_token
  unique_token [] db = drawing
  unique_token (draw ∷ draws) db =
      let more = unique_token draws db in
      elim (new_token draw) [
        | none ↦ draw_failed
        | some token ↦
            let id = h.digest token in
            if not (has token_collection id db) then drawn (token, id) else more
      ]

  -- What Go's packages document of these functions: a SHA-256 sum is 32 bytes in hexadecimal, ASCII
  -- is valid UTF-8, base64
  -- decodes what it encoded, and an instant is read back from its own format up to the year 9999, or if it was parsed.
  pub record HostLaws (last : ℕ) : Type 0 where
    pub digest_hex : (s : Bytes) → valid_hex_id (h.digest s) 64 ≡ true
    pub ascii_text : (s : Bytes) → All (λ b. b < 128) s → h.valid_utf8 s ≡ true
    pub encode_length : (b : Bytes) → length b ≡ 32 → length (h.encode_base64 b) ≡ 43
    pub encode_back : (b : Bytes) → h.decode_base64 (h.encode_base64 b) ≡ some b
    pub time_back : (t : ℕ) → t ≤ last → parse_utc_timestamp h (h.format_time t) ≡ some t
    pub parsed_back :
        (s : Bytes) (t : ℕ)
        → parse_utc_timestamp h s ≡ some t
        → parse_utc_timestamp h (h.format_time t) ≡ some t

  module _ {last : ℕ} (laws : HostLaws last) where
    -- `medb token generate` prints a token that the server accepts as one.
    pub new_token_lem :
        (draw : Option Bytes) (token : Bytes)
        → IsDraw 32 draw
        → new_token draw ≡ some token
        → valid_token h token ≡ true
    unfolding new_token valid_token has_prefix
    new_token_lem none token ok e = ground arith
    new_token_lem (some b) token (size, ok) e =
        ground (arith, laws.encode_length b, laws.encode_back b)

    pub unique_token_lem :
        (draws : Draws) (db : Db) (token id : Bytes)
        → All (IsDraw 32) draws
        → unique_token draws db ≡ drawn (token, id)
        → (valid_token h token ≡ true)
          × (id ≡ h.digest token)
          × (valid_hex_id id 64 ≡ true)
          × (has token_collection id db ≡ false)
    unfolding unique_token
    unique_token_lem [] db token id ok e = ground arith
    unique_token_lem (none ∷ draws) db token id (ok, oks) e = ground arith
    unique_token_lem (some b ∷ draws) db token id (ok, oks) e =
        let made = new_token_lem (some b) (bytes "medb_" ++ h.encode_base64 b) ok refl in
        let hex = laws.digest_hex (bytes "medb_" ++ h.encode_base64 b) in
        ground (arith, unique_token_lem draws db token id oks)
