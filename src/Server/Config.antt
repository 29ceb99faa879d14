-- ===== src/Server/Config.antt =====
-- The configuration of `medb serve` and `medb auth recover`, and the choice of the command:
-- cmd/medb/config.go and `run` of cmd/medb/main.go. The flag package and the parsers of strconv and
-- time are the record `Parsers`, a parameter.
pub mod Accepted
mod Tests
use medb.Base.{
  ◌≡◌, refl, ◌⊎◌, inl, inr, ℕ, Bool, true, false, ◌&&◌, not, Option, none, some, List, [], ◌∷◌, leb,
  Bytes, bytes, bytes_eq, is_empty, if◌then◌else◌,
}
use medb.Db.Opening.{
  ℤ, pos, negsuc, is_not_positive, Setting, with_max_doc_size, with_flush_bytes,
  with_flush_interval,
}
use medb.Server.{Host}
use medb.Server.Roles.{valid_label}
use medb.Server.Init.{GetEnv, env_string}

pub data ConfigError : Type 0 where
  bad_flags unexpected_arguments no_dir no_listen bad_bool : ConfigError
  bad_max_doc_size bad_flush_bytes bad_flush_interval bad_max_id_size : ConfigError
  bad_max_request_size bad_shutdown_timeout request_too_small bad_name : ConfigError

pub data Parsed {ℓ} (A : Type ℓ) : Type ℓ where
  parsed : A → Parsed A
  rejected : ConfigError → Parsed A

infixl 5 ◌>>=◌ ◌>>◌
abbrev pub ◌>>=◌ {ℓ κ} : {A : Type ℓ} {B : Type κ} → Parsed A → (A → Parsed B) → Parsed B
parsed x >>= f = f x
rejected e >>= f = rejected e

abbrev pub ◌>>◌ {ℓ} : {B : Type ℓ} → Parsed (Unit {0}) → Parsed B → Parsed B
m >> k = m >>= λ _. k

abbrev pub refuse_if : Bool → ConfigError → Parsed (Unit {0})
refuse_if true e = rejected e
refuse_if false e = parsed tt

-- The values of the flags of `medb serve` as texts.
pub record RawConfig : Type 0 where
  pub dir : Bytes
  pub listen : Bytes
  pub no_auth : Bytes
  pub max_doc_size : Bytes
  pub flush_bytes : Bytes
  pub flush_interval : Bytes
  pub max_id_size : Bytes
  pub max_request_size : Bytes
  pub shutdown_timeout : Bytes

-- Those of `medb auth recover`; this is also `recoverConfig`.
pub record RecoverConfig : Type 0 where
  pub dir : Bytes
  pub name : Bytes

-- `serveConfig`, with durations in nanoseconds.
pub record ServeConfig : Type 0 where
  pub dir : Bytes
  pub listen : Bytes
  pub no_auth : Bool
  pub max_doc_size : ℤ
  pub flush_bytes : ℤ
  pub flush_interval : ℤ
  pub max_id_size : ℤ
  pub max_request_size : ℤ
  pub shutdown_timeout : ℤ

pub record Parsers : Type 0 where
  -- `fs.Parse(args)` from these defaults, with `fs.Args()`; the flag `-no-auth` takes its values
  -- through the given function.
  pub parse_flags :
      (Bytes → Option Bytes) → List Bytes → RawConfig → Option (RawConfig × List Bytes)
  pub parse_recover_flags : List Bytes → RecoverConfig → Option (RecoverConfig × List Bytes)
  -- strconv.ParseInt in base 10, for int (bit size 0) and int64; time.ParseDuration
  pub parse_int : Bytes → Option ℤ
  pub parse_int64 : Bytes → Option ℤ
  pub parse_duration : Bytes → Option ℤ
  -- strconv.ParseBool and strconv.FormatBool
  pub parse_bool : Bytes → Option Bool
  pub format_bool : Bool → Bytes

-- The defaults, where the environment does not give others.
unfoldable pub serve_defaults : GetEnv → RawConfig
serve_defaults getenv = record {
  dir = env_string getenv (bytes "MEDB_DIR") [];
  listen = env_string getenv (bytes "MEDB_LISTEN") (bytes "127.0.0.1:6332");
  no_auth = env_string getenv (bytes "MEDB_NO_AUTH") (bytes "false");
  max_doc_size = env_string getenv (bytes "MEDB_MAX_DOC_SIZE") (bytes "16777216");
  flush_bytes = env_string getenv (bytes "MEDB_FLUSH_BYTES") (bytes "67108864");
  flush_interval = env_string getenv (bytes "MEDB_FLUSH_INTERVAL") (bytes "5s");
  max_id_size = env_string getenv (bytes "MEDB_MAX_ID_SIZE") (bytes "65536");
  max_request_size = env_string getenv (bytes "MEDB_MAX_REQUEST_SIZE") (bytes "17825792");
  shutdown_timeout = env_string getenv (bytes "MEDB_SHUTDOWN_TIMEOUT") (bytes "10s");
}

-- x <= y
unfoldable pub leb_ℤ : ℤ → ℤ → Bool
leb_ℤ (pos m) (pos n) = leb m n
leb_ℤ (pos m) (negsuc n) = false
leb_ℤ (negsuc m) (pos n) = true
leb_ℤ (negsuc m) (negsuc n) = leb n m

-- `parsePositiveInt`, `parsePositiveInt64` and `parsePositiveDuration`, after the parser they call.
unfoldable pub positive : Option ℤ → ConfigError → Parsed ℤ
positive none e = rejected e
positive (some n) e = if is_not_positive n then rejected e else parsed n

module _ (p : Parsers) where
  -- `boolFlagValue.Set`: the text that is kept.
  unfoldable pub set_bool_flag : Bytes → Option Bytes
  set_bool_flag value = elim (p.parse_bool value) [ none ↦ none | some b ↦ some (p.format_bool b) ]

  unfoldable pub parse_bool_value : Bytes → Parsed Bool
  parse_bool_value value = elim (p.parse_bool value) [
    | none ↦ rejected bad_bool
    | some b ↦ parsed b
  ]

  -- The checks after the flags are parsed.
  unfoldable pub check_serve_config : RawConfig → List Bytes → Parsed ServeConfig
  unfolding positive parse_bool_value
  check_serve_config raw rest = do
    refuse_if (not (is_empty rest)) unexpected_arguments
    refuse_if (is_empty raw.dir) no_dir
    refuse_if (is_empty raw.listen) no_listen
    no_auth ← parse_bool_value raw.no_auth
    max_doc_size ← positive (p.parse_int raw.max_doc_size) bad_max_doc_size
    flush_bytes ← positive (p.parse_int64 raw.flush_bytes) bad_flush_bytes
    flush_interval ← positive (p.parse_duration raw.flush_interval) bad_flush_interval
    max_id_size ← positive (p.parse_int raw.max_id_size) bad_max_id_size
    max_request_size ← positive (p.parse_int64 raw.max_request_size) bad_max_request_size
    shutdown_timeout ← positive (p.parse_duration raw.shutdown_timeout) bad_shutdown_timeout
    refuse_if (leb_ℤ max_request_size max_doc_size) request_too_small
    parsed (record {
      dir = raw.dir;
      listen = raw.listen;
      no_auth = no_auth;
      max_doc_size = max_doc_size;
      flush_bytes = flush_bytes;
      flush_interval = flush_interval;
      max_id_size = max_id_size;
      max_request_size = max_request_size;
      shutdown_timeout = shutdown_timeout;
    })

  unfoldable pub parse_serve_config : List Bytes → GetEnv → Parsed ServeConfig
  unfolding set_bool_flag
  parse_serve_config args getenv = elim (p.parse_flags set_bool_flag args (serve_defaults getenv)) [
    | none ↦ rejected bad_flags
    | some (raw, rest) ↦ check_serve_config raw rest
  ]

  unfoldable pub parse_recover_config : Host → List Bytes → Parsed RecoverConfig
  parse_recover_config h args = elim (p.parse_recover_flags args (record { dir = []; name = [] })) [
    | none ↦ rejected bad_flags
    | some (cfg, rest) ↦ do
      refuse_if (not (is_empty rest)) unexpected_arguments
      refuse_if (is_empty cfg.dir) no_dir
      refuse_if (not (valid_label h cfg.name)) bad_name
      parsed cfg
  ]

-- The settings that `serve` passes to `medb.Open`.
unfoldable pub open_settings : ServeConfig → List Setting
open_settings cfg =
    with_max_doc_size cfg.max_doc_size
    ∷ (with_flush_bytes cfg.flush_bytes ∷ (with_flush_interval cfg.flush_interval ∷ []))

-- `run`: which command the arguments name, with its own arguments.
pub data Command : Type 0 where
  serve_command recover_command : List Bytes → Command
  token_generate : Command
  command_required token_usage auth_usage : Command
  unknown_command : Bytes → Command

unfoldable pub token_command : List Bytes → Command
token_command (arg ∷ []) = if bytes_eq arg (bytes "generate") then token_generate else token_usage
token_command _ = token_usage

unfoldable pub auth_command : List Bytes → Command
auth_command [] = auth_usage
auth_command (arg ∷ args) =
    if bytes_eq arg (bytes "recover") then recover_command args else auth_usage

unfoldable pub choose_command : List Bytes → Command
unfolding token_command auth_command
choose_command [] = command_required
choose_command (arg ∷ args) =
    if bytes_eq arg (bytes "serve")
    then serve_command args
    else if bytes_eq arg (bytes "token")
    then token_command args
    else if bytes_eq arg (bytes "auth")
    then auth_command args
    else unknown_command arg
