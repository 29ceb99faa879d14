-- ===== src/Server.antt =====
-- The HTTP server of cmd/medb: what it decides, over the database. What it calls of Go's packages on
-- UTF-8, time, base64, hashing and JSON is the record `Host`, a parameter.
pub mod Roles
pub mod Sample
pub mod Auth
pub mod Unicode
pub mod Fresh
pub mod Records
pub mod Accounts
pub mod Init
pub mod Recover
pub mod Config
pub mod Body
pub mod Failures
pub mod Response
pub mod Requests
pub mod Scan
pub mod Serve
pub mod Fields
pub mod Dispatch
pub mod Handlers
pub mod Reserved
mod Tests
use medb.Base.{Bool, List, Option, Bytes, ℕ}

pub record Host : Type 0 where
  -- utf8.ValidString
  pub valid_utf8 : Bytes → Bool
  -- time.Parse of RFC3339Nano, as an instant
  pub parse_time : Bytes → Option ℕ
  -- its Format of RFC3339Nano, of an instant in UTC
  pub format_time : ℕ → Bytes
  -- base64.RawURLEncoding: DecodeString and EncodeToString
  pub decode_base64 : Bytes → Option Bytes
  pub encode_base64 : Bytes → Bytes
  -- hex.EncodeToString of sha256.Sum256
  pub digest : Bytes → Bytes
  -- json.Unmarshal into a string and into a bool
  pub json_string : Bytes → Option Bytes
  pub json_bool : Bytes → Option Bool
  -- bytes.TrimSpace
  pub trim_space : Bytes → Bytes
  -- strings.Fields and strings.EqualFold
  pub split_fields : Bytes → List Bytes
  pub equal_fold : Bytes → Bytes → Bool
