-- ===== src/Server/Requests.antt =====
-- A whole request: `ServeHTTP` of cmd/medb/server.go with the handlers of cmd/medb/handlers.go behind
-- its routes, up to the wait for a commit.
pub mod Authority
use medb.Base.{ℕ, Bool, List, Bytes, Option}
use medb.Codec.{Codec}
use medb.Db.{Db}
use medb.Collection.{Typed}
use medb.Server.{Host}
use medb.Server.Auth.{AuthStore}
use medb.Server.Fields.{ApiFailure, Checked, Fields}
use medb.Server.Fresh.{Draws}
use medb.Server.Body.{BodyReader, Incoming, decode_body}
use medb.Server.Dispatch.{
  Endpoint, at_collections, at_get, at_set, at_delete, at_has, at_count, at_scan, at_drop, at_users,
  at_user_create, at_user_update, at_token_create, at_tokens, at_token_revoke, Request, Flags,
  Decision, answer, healthy, handle, serve_http,
}
use medb.Server.Handlers.{
  Reply, handle_collections, handle_get, handle_set, handle_delete, handle_has, handle_count,
  handle_scan, handle_drop,
}
use medb.Server.Accounts.{
  Answer, handle_users, handle_user_create, handle_user_update, handle_token_create, handle_tokens,
  handle_token_revoke,
}

-- What a request comes to: a failure before any handler, the health check, or a handler's answer.
pub data Served : Type 0 where
  refused_early : ApiFailure → Served
  is_healthy : Served
  replied : Reply → Served
  answered : Answer → Served

abbrev with_reply : Reply × Db → Served × Db
with_reply (r, db) = (replied r, db)

abbrev with_answer : Answer × Db → Served × Db
with_answer (r, db) = (answered r, db)

module _ (h : Host) (reader : BodyReader) (a : AuthStore) (raw : Typed Bytes) (c : Codec)
    (max_id_size max_request_size : ℕ) (draws : Draws) (now : ℕ) where
  -- The handler of an endpoint, on a request's body.
  unfoldable pub serve_endpoint : Endpoint → Checked Fields → Db → Served × Db
  serve_endpoint at_collections body db = (replied (handle_collections db), db)
  serve_endpoint at_get body db = (replied (handle_get h raw max_id_size body db), db)
  serve_endpoint at_set body db = with_reply (handle_set h raw max_id_size c body db)
  serve_endpoint at_delete body db = with_reply (handle_delete h raw max_id_size c body db)
  serve_endpoint at_has body db = (replied (handle_has h raw max_id_size body db), db)
  serve_endpoint at_count body db = (replied (handle_count h raw max_id_size body db), db)
  serve_endpoint at_scan body db = (replied (handle_scan h raw max_id_size body db), db)
  serve_endpoint at_drop body db = with_reply (handle_drop h raw max_id_size c body db)
  serve_endpoint at_users body db = (answered (handle_users h a db), db)
  serve_endpoint at_user_create body db = with_answer (handle_user_create h a c draws now body db)
  serve_endpoint at_user_update body db = with_answer (handle_user_update h a c now body db)
  serve_endpoint at_token_create body db = with_answer (handle_token_create h a c draws now body db)
  serve_endpoint at_tokens body db = (answered (handle_tokens h a body db), db)
  serve_endpoint at_token_revoke body db = with_answer (handle_token_revoke h a c body db)

  unfoldable pub serve_request : Flags → Request → Incoming → Db → Served × Db
  serve_request s r incoming db = elim (serve_http h a now db s r) [
    | answer f ↦ (refused_early f, db)
    | healthy ↦ (is_healthy, db)
    | handle e ↦ serve_endpoint e (decode_body h reader max_request_size incoming) db
  ]
