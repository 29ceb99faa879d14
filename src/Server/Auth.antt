-- ===== src/Server/Auth.antt =====
-- Stored users and tokens, and who a bearer token speaks for: cmd/medb/auth.go.
use medb.Base.{
  ◌≡◌, ℕ, Bool, true, false, ◌&&◌, ◌||◌, not, Option, none, some, [], ◌∷◌, ◌==◌, ltb, arith, Bytes,
  bytes, bytes_eq_refl, drop, length, has_prefix, if◌then◌else◌,
}
use medb.Name.{has_suffix}
use medb.Result.{Result, ok, err}
use medb.Codec.{Codec}
use medb.Db.{Db}
use medb.Db.Opening.{ℤ, pos, negsuc}
use medb.Collection.{Typed, Seq, seq_end, seq_panic, seq_next, get, delete_doc, all_docs}
use medb.Collection.Writes.{delete_doc-read}
use medb.Server.{Host}
use medb.Server.Roles.{Role, role_admin, valid_role, valid_hex_id, valid_label}

pub record User : Type 0 where
  pub user_name : Bytes
  pub role : Role
  pub disabled : Bool
  pub created_at : Bytes
  pub updated_at : Bytes

pub record Token : Type 0 where
  pub user_id : Bytes
  pub label : Bytes
  pub created_at : Bytes
  pub expires_at : Option Bytes

-- `stateRecord`
pub record ServerState : Type 0 where
  pub version : ℤ
  pub auth_initialized : Bool

-- `authStore`, with the JSON forms of its records.
pub record AuthStore : Type 0 where
  pub state : Typed ServerState
  pub users : Typed User
  pub tokens : Typed Token

abbrev pub state_collection : Bytes
state_collection = bytes "_meta/state"

abbrev pub user_collection : Bytes
user_collection = bytes "_meta/users"

abbrev pub token_collection : Bytes
token_collection = bytes "_meta/tokens"

-- `stateID`
abbrev pub state_id : Bytes
state_id = bytes "server"

-- `validateStateRecord`: whether it returns nil.
unfoldable pub valid_state_record : ServerState → Bool
valid_state_record s = (elim s.version [ pos n ↦ n == 1 | negsuc _ ↦ false ]) && s.auth_initialized

unfoldable pub get_state : AuthStore → Db → Result ServerState
get_state a db = get a.state state_collection state_id db

unfoldable pub get_user : AuthStore → Bytes → Db → Result User
get_user a id db = get a.users user_collection id db

unfoldable pub get_token : AuthStore → Bytes → Db → Result Token
get_token a id db = get a.tokens token_collection id db

module _ (h : Host) where
  unfoldable pub valid_token : Bytes → Bool
  valid_token token =
      if not (length token == 48) || not (has_prefix token (bytes "medb_"))
      then false
      else elim (h.decode_base64 (drop 5 token)) [ none ↦ false | some b ↦ length b == 32 ]

  unfoldable pub parse_utc_timestamp : Bytes → Option ℕ
  parse_utc_timestamp value = if has_suffix value (bytes "Z") then h.parse_time value else none

  -- `validateUserRecord`: whether it returns nil.
  unfoldable pub valid_user_record : Bytes → User → Bool
  valid_user_record id user =
      if not (valid_hex_id id 32)
      then false
      else if not (valid_label h user.user_name)
      then false
      else if not (valid_role user.role)
      then false
      else elim (parse_utc_timestamp user.created_at) [
        | none ↦ false
        | some created ↦ elim (parse_utc_timestamp user.updated_at) [
          | none ↦ false
          | some updated ↦ not (ltb updated created)
        ]
      ]

  -- The end of `validateTokenRecord`.
  unfoldable pub valid_expiry : ℕ → Option Bytes → Bool
  valid_expiry created none = true
  valid_expiry created (some expires_at) = elim (parse_utc_timestamp expires_at) [
    | none ↦ false
    | some expires ↦ ltb created expires
  ]

  -- `validateTokenRecord`: whether it returns nil.
  unfoldable pub valid_token_record : Bytes → Token → Bool
  valid_token_record id token =
      if not (valid_hex_id id 64)
      then false
      else if not (valid_hex_id token.user_id 32)
      then false
      else if not (valid_label h token.label)
      then false
      else elim (parse_utc_timestamp token.created_at) [
        | none ↦ false
        | some created ↦ valid_expiry created token.expires_at
      ]

  -- The test `record.ExpiresAt != nil` and what it guards: whether the token may still be used.
  unfoldable pub is_live : ℕ → Option Bytes → Bool
  is_live now none = true
  is_live now (some expires_at) = elim (parse_utc_timestamp expires_at) [
    | none ↦ false
    | some expires ↦ ltb now expires
  ]

  module _ (a : AuthStore) where
    -- `authenticate`: the role, with the ok result as the option.
    unfoldable pub authenticate : Bytes → ℕ → Db → Option Role
    authenticate token now db =
        if not (valid_token token)
        then none
        else (let tid = h.digest token in
            elim (get_token a tid db) [
              | err _ ↦ none
              | ok rec ↦
                  if not (valid_token_record tid rec)
                  then none
                  else if not (is_live now rec.expires_at)
                  then none
                  else elim (get_user a rec.user_id db) [
                    | err _ ↦ none
                    | ok user ↦
                        if not (valid_user_record rec.user_id user) || user.disabled
                        then none
                        else some user.role
                  ]
            ])

    -- The body of the loop of `hasActiveAdmin`: whether this token is an active administrator's.
    unfoldable pub is_admin_token : Bytes → Token → ℕ → Db → Bool
    is_admin_token tid rec now db =
        if not (valid_token_record tid rec)
        then false
        else if not (is_live now rec.expires_at)
        then false
        else elim (get_user a rec.user_id db) [
          | err _ ↦ false
          | ok user ↦
              if not (valid_user_record rec.user_id user)
              then false
              else not user.disabled && (elim user.role [ role_admin ↦ true | _ ↦ false ])
        ]

    -- `hasActiveAdmin`; the recovered panic of `All` is the error (`none`).
    unfoldable pub any_admin : Seq Token → ℕ → Db → Option Bool
    any_admin seq_end now db = some false
    any_admin (seq_panic id) now db = none
    any_admin (seq_next tid rec rest) now db =
        let more = any_admin rest now db in
        if is_admin_token tid rec now db then some true else more

    unfoldable pub has_active_admin : ℕ → Db → Option Bool
    has_active_admin now db = any_admin (all_docs a.tokens token_collection db) now db

-- `trimOneLineEnding`
unfoldable pub trim_one_line_ending : Bytes → Bytes
trim_one_line_ending [] = []
trim_one_line_ending (c ∷ rest) =
    let more = trim_one_line_ending rest in
    elim rest [
      | [] ↦ if c == b'\n' then [] else c ∷ []
      | d ∷ rest' ↦
          if c == b'\r' && (d == b'\n' && (elim rest' [ [] ↦ true | _ ∷ _ ↦ false ]))
          then []
          else c ∷ more
    ]

-- Where a token is accepted, its record is stored under its digest, valid and not expired at that
-- time, and its user is stored, valid and not disabled; the role is the user's, one of the three.
pub authenticate_lem :
    (h : Host) (a : AuthStore) (token : Bytes) (now : ℕ) (db : Db) (role : Role)
    → authenticate h a token now db ≡ some role
    → (rec : Token) × (user : User) × (get_token a (h.digest token) db ≡ ok rec)
      × (get_user a rec.user_id db ≡ ok user)
      × (is_live h now rec.expires_at ≡ true)
      × (user.disabled ≡ false)
      × (user.role ≡ role)
      × (valid_role role ≡ true)
unfolding authenticate valid_user_record
authenticate_lem h a token now db role e = ground arith

-- A token that was revoked, by a `Delete` of its record that was accepted, is refused.
pub authenticate_revoked :
    (h : Host) (a : AuthStore) (c : Codec) (token : Bytes) (now : ℕ) (db : Db) (commit : ℕ)
    → (delete_doc a.tokens token_collection c (h.digest token) db).0 ≡ ok commit
    → authenticate h a token now (delete_doc a.tokens token_collection c (h.digest token) db).1
      ≡ none
unfolding authenticate get_token get
authenticate_revoked h a c token now db commit e =
    let gone =
      delete_doc-read a.tokens c token_collection (h.digest token) db commit token_collection
        (h.digest token) e in
    ground (arith, bytes_eq_refl token_collection, bytes_eq_refl (h.digest token))
