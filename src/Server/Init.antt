-- ===== src/Server/Init.antt =====
-- The first initialization of the server's users: `initializeAuth`, `initEnvironmentPresent`,
-- `initialToken` of cmd/medb/auth.go and `envString` of cmd/medb/config.go. Nothing else uses the
-- database at that time. The environment is the function `getenv`, the token file what
-- `read_file` gives; `worker` is what the database's worker does until a commit is settled.
pub mod Calls
pub mod Stages
pub mod Resume
pub mod Finish
pub mod Restart
pub mod Admin
pub mod Marked
mod Tests
use medb.Base.{
  ℕ, Bool, true, false, ◌&&◌, ◌||◌, not, Option, none, some, List, [], ◌∷◌, ◌==◌, any_of, Bytes,
  bytes, bytes_eq, is_some, is_empty, if◌then◌else◌,
}
use medb.Name.{reserved_collection}
use medb.Result.{Error, Result, ok, err, not_found}
use medb.Codec.{Codec}
use medb.Db.{Db}
use medb.Db.Opening.{ℤ, pos}
use medb.Db.Run.{outcome}
use medb.Collection.{Typed, set_doc, count, collections}
use medb.Server.{Host}
use medb.Server.Roles.{Role, role_admin, valid_label}
use medb.Server.Auth.{
  ServerState, User, Token, AuthStore, state_collection, user_collection, token_collection,
  state_id, valid_state_record, get_state, get_user, get_token, valid_token, valid_user_record,
  valid_token_record, has_active_admin, trim_one_line_ending,
}
use medb.Server.Fresh.{Draws, drawn, draw_failed, drawing, unique_user_id}

-- The errors of `initializeAuth`, in the order in which it may return them, and those of
-- `recoverAuth` (Recover).
pub data InitError : Type 0 where
  bad_state admins_unreadable no_admin state_unreadable state_not_empty : InitError
  conflicting_collection : Bytes → InitError
  bad_admin_name not_one_source token_file_unreadable bad_token : InitError
  unrelated_records : InitError
  write_failed : Error → InitError
  token_unreadable conflicting_token conflicting_users : InitError
  user_unreadable conflicting_user not_validated : InitError
  random_failed : InitError
  open_failed close_failed : Error → InitError

-- How it ends: well, with an error, with the panic of `NewID`; or it goes on for ever, drawing ids or
-- waiting for a commit.
pub data Ending {ℓ} (A : Type ℓ) : Type ℓ where
  done : A → Ending A
  stops : InitError → Ending A
  aborted draws_on waits_on : Ending A

-- Code that stops at the first error and changes the database as it goes.
abbrev pub Init {ℓ} : Type ℓ → Type ℓ
Init A = Db → Ending A × Db

infixl 5 ◌>>=◌ ◌>>◌
abbrev pub ◌>>=◌ {ℓ κ} : {A : Type ℓ} {B : Type κ} → Init A → (A → Init B) → Init B
◌>>=◌ m f db =
    let (r, db') = m db in
    elim r [
      | done x ↦ f x db'
      | stops e ↦ (stops e, db')
      | aborted ↦ (aborted, db')
      | draws_on ↦ (draws_on, db')
      | waits_on ↦ (waits_on, db')
    ]

abbrev pub ◌>>◌ {ℓ} : {B : Type ℓ} → Init (Unit {0}) → Init B → Init B
m >> k = m >>= λ _. k

abbrev pub pure {ℓ} : {A : Type ℓ} → A → Init A
pure x db = (done x, db)

abbrev pub stop {ℓ} : {A : Type ℓ} → InitError → Init A
stop e db = (stops e, db)

abbrev pub GetEnv : Type 0
GetEnv = Bytes → Option Bytes

-- A variable that is set, and not to the empty string.
unfoldable pub env_value : GetEnv → Bytes → Option Bytes
env_value getenv name = elim (getenv name) [
  | none ↦ none
  | some value ↦ if is_empty value then none else some value
]

unfoldable pub env_string : GetEnv → Bytes → Bytes → Bytes
unfolding env_value
env_string getenv name fallback = elim (env_value getenv name) [
  | none ↦ fallback
  | some value ↦ value
]

unfoldable pub init_environment_present : GetEnv → Bool
unfolding env_value
init_environment_present getenv =
    any_of (λ name. is_some (env_value getenv name))
      (bytes "MEDB_INIT_ADMIN_NAME"
        ∷ (bytes "MEDB_INIT_ADMIN_TOKEN" ∷ (bytes "MEDB_INIT_ADMIN_TOKEN_FILE" ∷ [])))

-- The loop over `db.Collections()`: the first name that is in the way.
unfoldable pub in_the_way : Bytes → Bool
in_the_way name =
    reserved_collection name
    && not (
        any_of (λ n. bytes_eq n name)
          (state_collection ∷ (user_collection ∷ (token_collection ∷ []))))

unfoldable pub first_conflict : List Bytes → Option Bytes
unfolding in_the_way
first_conflict [] = none
first_conflict (name ∷ names) =
    let rest = first_conflict names in if in_the_way name then some name else rest

abbrev pub is_admin : Role → Bool
is_admin role_admin = true
is_admin _ = false

abbrev pub initial_label : Bytes
initial_label = bytes "initial"

module _ (h : Host) where
  -- The end of `initialToken`
  unfoldable pub checked_token : Bytes → Ending Bytes
  checked_token value = if not (valid_token h value) then stops bad_token else done value

  unfoldable pub initial_token : GetEnv → (Bytes → Option Bytes) → Ending Bytes
  unfolding checked_token env_value
  initial_token getenv read_file = elim (env_value getenv (bytes "MEDB_INIT_ADMIN_TOKEN")) [
    | some direct ↦ elim (env_value getenv (bytes "MEDB_INIT_ADMIN_TOKEN_FILE")) [
      | some _ ↦ stops not_one_source
      | none ↦ checked_token direct
    ]
    | none ↦ elim (env_value getenv (bytes "MEDB_INIT_ADMIN_TOKEN_FILE")) [
      | none ↦ stops not_one_source
      | some path ↦ elim (read_file path) [
        | none ↦ stops token_file_unreadable
        | some content ↦ checked_token (trim_one_line_ending content)
      ]
    ]
  ]

  module _ (a : AuthStore) (c : Codec) (worker : Db → Db) where
    -- `Set`, with the wait for its commit.
    unfoldable pub set_and_wait {ℓ} : {T : Type ℓ} → Typed T → Bytes → Bytes → T → Init (Unit {0})
    set_and_wait t name id doc db =
        let (r, db') = set_doc t name c id doc db in
        elim r [
          | err e ↦ (stops (write_failed e), db')
          | ok commit ↦
              let db'' = worker db' in
              elim (outcome commit db''.settled) [
                | none ↦ (waits_on, db'')
                | some none ↦ (done tt, db'')
                | some (some e) ↦ (stops (write_failed e), db'')
              ]
        ]

    -- The case of a state marker.
    unfoldable pub check_marker : ServerState → ℕ → Init (Unit {0})
    check_marker s now db =
        if not (valid_state_record s)
        then (stops bad_state, db)
        else elim (has_active_admin h a now db) [
          | none ↦ (stops admins_unreadable, db)
          | some false ↦ (stops no_admin, db)
          | some true ↦ (done tt, db)
        ]

    unfoldable pub create_initial_token : Draws → ℕ → Bytes → Init Token
    create_initial_token draws now tid db = elim (unique_user_id draws db) [
      | drawing ↦ (draws_on, db)
      | draw_failed ↦ (aborted, db)
      | drawn uid ↦
          let rec : Token = record {
            user_id = uid;
            label = initial_label;
            created_at = h.format_time now;
            expires_at = none;
          } in
          (set_and_wait a.tokens token_collection tid rec >> pure rec) db
    ]

    -- The first switch: the token's record, made now or found.
    unfoldable pub initial_record : Draws → ℕ → Bytes → Init Token
    initial_record draws now tid db = elim (get_token a tid db) [
      | err not_found ↦
          if not (count token_collection db == 0) || not (count user_collection db == 0)
          then (stops unrelated_records, db)
          else create_initial_token draws now tid db
      | err _ ↦ (stops token_unreadable, db)
      | ok rec ↦
          if not (count token_collection db == 1)
            || (not (valid_token_record h tid rec)
                || (not (bytes_eq rec.label initial_label) || is_some rec.expires_at))
          then (stops conflicting_token, db)
          else (done rec, db)
    ]

    -- The second switch: the user's record, made now or found.
    unfoldable pub initial_user : ℕ → Bytes → Bytes → Init User
    initial_user now name uid db = elim (get_user a uid db) [
      | err not_found ↦
          if not (count user_collection db == 0)
          then (stops conflicting_users, db)
          else (let user : User = record {
            user_name = name;
            role = role_admin;
            disabled = false;
            created_at = h.format_time now;
            updated_at = h.format_time now;
          } in
              (set_and_wait a.users user_collection uid user >> pure user) db)
      | err _ ↦ (stops user_unreadable, db)
      | ok user ↦
          if not (count user_collection db == 1)
            || (not (valid_user_record h uid user)
                || (not (bytes_eq user.user_name name)
                    || (not (is_admin user.role) || user.disabled)))
          then (stops conflicting_user, db)
          else (done user, db)
    ]

    -- From the checks of both records on.
    unfoldable pub finish_init : Bytes → Token → User → Init (Unit {0})
    finish_init tid rec user db =
        if not (valid_token_record h tid rec)
          || (not (valid_user_record h rec.user_id user)
              || (user.disabled || not (is_admin user.role)))
        then (stops not_validated, db)
        else set_and_wait a.state state_collection state_id
            (record { version = pos 1; auth_initialized = true }) db

    -- What follows when there is no marker and nothing is in the way, with the token at hand. The
    -- clock is read for the token's record and again for the user's.
    unfoldable pub create_admin : Draws → ℕ → ℕ → Bytes → Bytes → Init (Unit {0})
    create_admin draws now_token now_user name token = do
      rec ← initial_record draws now_token (h.digest token)
      user ← initial_user now_user name rec.user_id
      finish_init (h.digest token) rec user

    unfoldable pub initialize_auth :
        GetEnv → (Bytes → Option Bytes) → Draws → ℕ → ℕ → Init (Unit {0})
    initialize_auth getenv read_file draws now now_user db = elim (get_state a db) [
      | ok s ↦ check_marker s now db
      | err not_found ↦
          if not (count state_collection db == 0)
          then (stops state_not_empty, db)
          else elim (first_conflict (collections db)) [
            | some name ↦ (stops (conflicting_collection name), db)
            | none ↦
                let name = env_string getenv (bytes "MEDB_INIT_ADMIN_NAME") (bytes "admin") in
                if not (valid_label h name)
                then (stops bad_admin_name, db)
                else elim (initial_token getenv read_file) [
                  | done token ↦ create_admin draws now now_user name token db
                  | stops e ↦ (stops e, db)
                  | aborted ↦ (aborted, db)
                  | draws_on ↦ (draws_on, db)
                  | waits_on ↦ (waits_on, db)
                ]
          ]
      | err _ ↦ (stops state_unreadable, db)
    ]
