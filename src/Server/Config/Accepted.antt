-- ===== src/Server/Config/Accepted.antt =====
-- What an accepted configuration of cmd/medb/config.go is good for.
use medb.Base.{
  ◌≡◌, refl, ◌↔◌, ◌<◌, true, false, Option-cases, inl, inr, some, List, arith, Bytes, is_empty,
}
use medb.Result.{ok}
use medb.Db.Opening.{to_ℕ, is_not_positive, default_options, set_options, set_option, validate}
use medb.Server.Init.{GetEnv}
use medb.Server.Config.{
  parsed, positive, Parsers, RawConfig, ServeConfig, check_serve_config, open_settings, leb_ℤ,
  parse_bool_value, parse_serve_config, set_bool_flag, serve_defaults,
}

-- The configuration that these texts of the flags, with nothing left over, stand for: its numbers are
-- positive, and a request may be longer than a document.
abbrev pub IsConfig : Parsers → RawConfig → List Bytes → ServeConfig → Type 0
IsConfig p raw rest cfg =
    ((is_empty rest ≡ true)
      × (is_empty raw.dir ≡ false)
      × (is_empty raw.listen ≡ false)
      × (cfg.dir ≡ raw.dir)
      × (cfg.listen ≡ raw.listen)
      × (p.parse_bool raw.no_auth ≡ some cfg.no_auth))
    × ((p.parse_int raw.max_doc_size ≡ some cfg.max_doc_size)
        × (p.parse_int64 raw.flush_bytes ≡ some cfg.flush_bytes)
        × (p.parse_duration raw.flush_interval ≡ some cfg.flush_interval)
        × (p.parse_int raw.max_id_size ≡ some cfg.max_id_size)
        × (p.parse_int64 raw.max_request_size ≡ some cfg.max_request_size)
        × (p.parse_duration raw.shutdown_timeout ≡ some cfg.shutdown_timeout))
    × ((is_not_positive cfg.max_doc_size ≡ false)
        × (is_not_positive cfg.flush_bytes ≡ false)
        × (is_not_positive cfg.flush_interval ≡ false)
        × (is_not_positive cfg.max_id_size ≡ false)
        × (is_not_positive cfg.max_request_size ≡ false)
        × (is_not_positive cfg.shutdown_timeout ≡ false)
        × (leb_ℤ cfg.max_request_size cfg.max_doc_size ≡ false))

module _ (p : Parsers) where
  check_serve_config-IsConfig :
      (raw : RawConfig) (rest : List Bytes) (cfg : ServeConfig)
      → check_serve_config p raw rest ≡ parsed cfg
      → IsConfig p raw rest cfg
  unfolding check_serve_config positive parse_bool_value
  check_serve_config-IsConfig raw rest cfg h = (
    (ground arith, ground arith, ground arith, ground arith, ground arith, ground arith),
    (ground arith, ground arith, ground arith, ground arith, ground arith, ground arith),
    (
      ground arith,
      ground arith,
      ground arith,
      ground arith,
      ground arith,
      ground arith,
      ground arith,
    ),
  )

  check_serve_config_complete :
      (raw : RawConfig) (rest : List Bytes) (cfg : ServeConfig)
      → IsConfig p raw rest cfg
      → check_serve_config p raw rest ≡ parsed cfg
  unfolding check_serve_config positive parse_bool_value
  check_serve_config_complete raw rest cfg h = ground arith

  -- The checks of `parseServeConfig` accept just the texts that stand for a configuration, and give
  -- that one.
  pub check_serve_config_iff :
      (raw : RawConfig) (rest : List Bytes) (cfg : ServeConfig)
      → (check_serve_config p raw rest ≡ parsed cfg) ↔ IsConfig p raw rest cfg
  check_serve_config_iff raw rest cfg =
      (check_serve_config-IsConfig raw rest cfg, check_serve_config_complete raw rest cfg)

  -- A configuration that `parseServeConfig` accepted has settings that `medb.Open` accepts, and leaves
  -- room in a request for the largest document and more.
  pub parse_serve_config_opens :
      (args : List Bytes) (getenv : GetEnv) (cfg : ServeConfig)
      → parse_serve_config p args getenv ≡ parsed cfg
      → let o = set_options (open_settings cfg) default_options in
        (validate o ≡ ok tt)
        × (o.max_doc_size ≡ cfg.max_doc_size)
        × (0 < to_ℕ cfg.max_doc_size)
        × (to_ℕ cfg.max_doc_size < to_ℕ cfg.max_request_size)
        × (0 < to_ℕ cfg.max_id_size)
  unfolding parse_serve_config
  parse_serve_config_opens args getenv cfg h =
      elim (Option-cases (p.parse_flags (set_bool_flag p) args (serve_defaults getenv))) [
        | inl e ↦ absurd (ground arith)
        | inr ((raw, rest), e) ↦
            let (_, _, limits) = check_serve_config-IsConfig raw rest cfg (ground arith) in
            unfold validate in
            unfold set_options in
            unfold set_option in
            unfold open_settings in
            unfold leb_ℤ in (ground arith, refl, ground arith, ground arith, ground arith)
      ]
