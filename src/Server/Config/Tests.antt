-- ===== src/Server/Config/Tests.antt =====
-- The default configuration, with a directory.
use medb.Base.{
  ◌≡◌, refl, ◌<◌, ℕ, ◌+◌, ◌*◌, ◌-◌, false, none, some, [], ◌∷◌, Bytes, bytes, bytes_eq, length,
  if◌then◌else◌,
}
use medb.Result.{ok}
use medb.Db.Opening.{pos, default_options, set_options, validate}
use medb.Server.Init.{GetEnv, env_string}
use medb.Server.Config.{
  Parsers, ServeConfig, parsed, check_serve_config, parse_serve_config, serve_defaults,
  open_settings, leb_ℤ, choose_command, recover_command, token_generate,
}
use medb.Server.Config.Accepted.{parse_serve_config_opens}

unfoldable decimal : ℕ → Bytes → ℕ
decimal n [] = n
decimal n (c ∷ rest) = decimal (10 * n + (c - b'0')) rest

abbrev parsers : Parsers
parsers = record {
  parse_flags = λ set args raw. some (record raw { dir = bytes "db" }, []);
  parse_recover_flags = λ args cfg. none;
  parse_int = λ b. some (pos (decimal 0 b));
  parse_int64 = λ b. some (pos (decimal 0 b));
  parse_duration = λ b. some (pos (length b));
  parse_bool = λ b. some (bytes_eq b (bytes "true"));
  format_bool = λ b. if b then bytes "true" else bytes "false";
}

abbrev no_env : GetEnv
no_env name = none

abbrev default_config : ServeConfig
default_config = record {
  dir = bytes "db";
  listen = bytes "127.0.0.1:6332";
  no_auth = false;
  max_doc_size = pos 16777216;
  flush_bytes = pos 67108864;
  flush_interval = pos 2;
  max_id_size = pos 65536;
  max_request_size = pos 17825792;
  shutdown_timeout = pos 3;
}

accepted : parse_serve_config parsers [] no_env ≡ parsed default_config
unfolding parse_serve_config check_serve_config serve_defaults env_string decimal leb_ℤ bytes_eq
accepted = refl

parse_serve_config_opens_example :
    let o = set_options (open_settings default_config) default_options in
    (validate o ≡ ok tt)
    × (o.max_doc_size ≡ pos 16777216)
    × (0 < 16777216)
    × (16777216 < 17825792)
    × (0 < 65536)
parse_serve_config_opens_example =
    parse_serve_config_opens parsers [] no_env default_config accepted

commands :
    (choose_command (bytes "token" ∷ (bytes "generate" ∷ [])) ≡ token_generate)
    × (choose_command (bytes "auth" ∷ (bytes "recover" ∷ (bytes "x" ∷ [])))
        ≡ recover_command (bytes "x" ∷ []))
unfolding choose_command bytes_eq
commands = (refl, refl)
