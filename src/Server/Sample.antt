-- ===== src/Server/Sample.antt =====
-- Small functions in place of Go's packages, which satisfy `HostLaws` and `RecordLaws`: they show that
-- the laws can hold, and run the examples.
use medb.Base.{
  ◌≡◌, refl, ap, ◌∙◌, ℕ, zero, suc, ◌-◌, Bool, true, false, ◌==◌, Option, none, some, [], ◌∷◌, ◌++◌,
  arith, Bytes, bytes, bytes_eq, bytes_eq_refl, length, length-append, take, take-append, drop, leb,
  if◌then◌else◌,
}
use medb.Name.{has_suffix}
use medb.Codec.Sample.{put_field, get_field, get_field-put_field}
use medb.Db.Opening.{pos}
use medb.Server.{Host}
use medb.Server.Roles.{
  Role, role_reader, role_writer, role_admin, role_other, valid_role, valid_hex_id, all_hex,
  is_hex_digit,
}
use medb.Server.Auth.{User, Token, AuthStore, parse_utc_timestamp}
use medb.Server.Fresh.{HostLaws}
use medb.Server.Records.{RecordLaws}

abbrev pub token_id_1 : Bytes
token_id_1 = bytes "bbbbbbbbbbbbbbbbbbbbbbbbbbbbbbbbbbbbbbbbbbbbbbbbbbbbbbbbbbbbbbbb"

-- An instant as so many digits.
unfoldable pub stamp : ℕ → Bytes
stamp zero = bytes "Z"
stamp (suc t) = b'0' ∷ stamp t

abbrev pub host : Host
host = record {
  valid_utf8 = λ s. true;
  parse_time = λ s. some (length s - 1);
  format_time = stamp;
  decode_base64 = λ s. some (take (length s - 11) s);
  encode_base64 = λ b. b ++ bytes "AAAAAAAAAAA";
  digest = λ s. token_id_1;
  json_string = λ s. some s;
  json_bool = λ s. some true;
  trim_space = λ s. s;
  split_fields = λ s. bytes "Bearer" ∷ (s ∷ []);
  equal_fold = bytes_eq;
}

length-stamp : (t : ℕ) → length (stamp t) ≡ suc t
unfolding stamp
length-stamp zero = refl
length-stamp (suc t) = omega (arith, length-stamp t)

drop-stamp : (t : ℕ) → drop t (stamp t) ≡ bytes "Z"
unfolding stamp
drop-stamp zero = refl
drop-stamp (suc t) = drop-stamp t

stamp_back : (t : ℕ) → parse_utc_timestamp host (stamp t) ≡ some t
unfolding parse_utc_timestamp has_suffix
stamp_back t =
    let less : suc t - 1 ≡ t = omega arith in
    let long : leb 1 (suc t) ≡ true = ground arith in
    rw (length-stamp t) (rw (long, less, drop-stamp t) (rw (bytes_eq_refl (bytes "Z"))))

encode_back : (b : Bytes) → host.decode_base64 (host.encode_base64 b) ≡ some b
encode_back b =
    let less : length (b ++ bytes "AAAAAAAAAAA") - 11 ≡ length b =
      omega (arith, length-append b (bytes "AAAAAAAAAAA")) in
    ap some (rw less (take-append b (bytes "AAAAAAAAAAA")))

token_id_hex : valid_hex_id token_id_1 64 ≡ true
unfolding valid_hex_id all_hex is_hex_digit
token_id_hex = refl

pub host_laws : HostLaws host 1000
host_laws = record {
  digest_hex = λ s. token_id_hex;
  ascii_text = λ s all. refl;
  encode_length = λ b size. omega (arith, length-append b (bytes "AAAAAAAAAAA"));
  encode_back = encode_back;
  time_back = λ t early. stamp_back t;
  parsed_back = λ s t e. stamp_back t;
}

-- A record as its tags and its texts, each ended by a zero.
unfoldable pub role_tag : Role → ℕ
role_tag role_reader = 0
role_tag role_writer = 1
role_tag _ = 2

unfoldable pub tag_role : ℕ → Role
tag_role t = if t == 0 then role_reader else if t == 1 then role_writer else role_admin

unfoldable pub put_user : User → Bytes
put_user u =
    role_tag u.role
    ∷ ((if u.disabled then 1 else 0)
        ∷ (put_field u.user_name ++ (put_field u.created_at ++ (put_field u.updated_at ++ []))))

unfoldable pub take_user : Bytes → Option User
take_user (role ∷ (disabled ∷ line)) = elim (get_field line) [
  | none ↦ none
  | some (name, line') ↦ elim (get_field line') [
    | none ↦ none
    | some (created, line'') ↦ elim (get_field line'') [
      | none ↦ none
      | some (updated, _) ↦ some (record {
        user_name = name;
        role = tag_role role;
        disabled = disabled == 1;
        created_at = created;
        updated_at = updated;
      })
    ]
  ]
]
take_user _ = none

role_back : (r : Role) → valid_role r ≡ true → tag_role (role_tag r) ≡ r
unfolding role_tag tag_role valid_role
role_back role_reader h = refl
role_back role_writer h = refl
role_back role_admin h = refl
role_back (role_other b) h = cc

bit_back : (b : Bool) → ((if b then 1 else 0) == 1) ≡ b
bit_back true = refl
bit_back false = refl

user_back : (u : User) → valid_role u.role ≡ true → take_user (put_user u) ≡ some u
unfolding put_user take_user
user_back u known =
    let rest = put_field u.created_at ++ (put_field u.updated_at ++ []) in
    ground (
      arith,
      get_field-put_field u.user_name rest,
      get_field-put_field u.created_at (put_field u.updated_at ++ []),
      get_field-put_field u.updated_at [],
      role_back u.role known,
      bit_back u.disabled,
    )

unfoldable pub put_token : Token → Bytes
put_token t =
    elim t.expires_at [ none ↦ 0 | some _ ↦ 1 ]
    ∷ (put_field t.user_id
        ++ (put_field t.label
            ++ (put_field t.created_at
                ++ (put_field (elim t.expires_at [ none ↦ [] | some e ↦ e ]) ++ []))))

unfoldable pub take_token : Bytes → Option Token
take_token (lasting ∷ line) = elim (get_field line) [
  | none ↦ none
  | some (uid, line1) ↦ elim (get_field line1) [
    | none ↦ none
    | some (label, line2) ↦ elim (get_field line2) [
      | none ↦ none
      | some (created, line3) ↦ elim (get_field line3) [
        | none ↦ none
        | some (expires, _) ↦ some (record {
          user_id = uid;
          label = label;
          created_at = created;
          expires_at = if lasting == 0 then none else some expires;
        })
      ]
    ]
  ]
]
take_token _ = none

token_back : (t : Token) → take_token (put_token t) ≡ some t
unfolding put_token take_token
token_back t =
    let expires : Bytes = elim t.expires_at [ none ↦ [] | some e ↦ e ] in
    let rest2 = put_field t.created_at ++ (put_field expires ++ []) in
    ground (
      arith,
      get_field-put_field t.user_id (put_field t.label ++ rest2),
      get_field-put_field t.label rest2,
      get_field-put_field t.created_at (put_field expires ++ []),
      get_field-put_field expires [],
    )

abbrev pub auth_store : AuthStore
auth_store = record {
  state = record {
    marshal = λ s. some (1 ∷ []);
    unmarshal = λ b. some (record { version = pos 1; auth_initialized = true });
  };
  users = record { marshal = λ u. some (put_user u); unmarshal = take_user };
  tokens = record { marshal = λ t. some (put_token t); unmarshal = take_token };
}

some_back : (b raw : Bytes) → ◌≡◌ {A = Option Bytes} (some b) (some raw) → raw ≡ b
some_back b raw e = ground arith

pub record_laws : RecordLaws host auth_store
record_laws = record {
  state_back = λ raw e. refl;
  user_back =
      λ user raw form e. ap take_user (some_back (put_user user) raw e) ∙ user_back user form.1;
  token_back =
      λ id token raw valid e. ap take_token (some_back (put_token token) raw e) ∙ token_back token;
}
