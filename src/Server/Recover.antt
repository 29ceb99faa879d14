-- ===== src/Server/Recover.antt =====
-- A new administrator while the server is stopped: `recoverAuth` of cmd/medb/auth.go, up to the lines
-- that it prints.
pub mod Written
pub mod Made
mod Tests
use medb.Base.{
  ◌≡◌, refl, ap, sym, ◌∙◌, ◌≤◌, inl, inr, ℕ, Bool, true, false, ◌&&◌, not, Option, Option-cases,
  none, some, List, [], ◌∷◌, arith, All, Bytes, bytes, bytes_eq, bytes_eq_refl, if◌then◌else◌,
}
use medb.Result.{Error, Result, ok, err, Result-cases, or_error, and_then}
use medb.Codec.{Codec}
use medb.Disk.{Disk}
use medb.Db.{Db, read}
use medb.Db.Opening.{ℤ, pos, open_medb}
use medb.Db.Run.{outcome, close_db}
use medb.Collection.{Typed, get, set_doc, has}
use medb.Server.{Host}
use medb.Server.Roles.{role_admin, valid_role, valid_label, valid_hex_id}
use medb.Server.Auth.{
  ServerState, User, Token, AuthStore, state_collection, user_collection, token_collection,
  state_id, get_state, get_user, get_token, valid_user_record, valid_token_record, valid_expiry,
  is_live, authenticate,
}
use medb.Server.Fresh.{
  Draws, drawn, draw_failed, drawing, IsDraw, Drawn-cases, HostLaws, unique_user_id,
  unique_user_id_lem, unique_token, unique_token_lem,
}
use medb.Server.Records.{
  RecordLaws, valid_user_record-IsUserForm, set_user_lem, set_token_lem, get-set_doc,
  get-set_doc_other,
}
use medb.Server.Accounts.Users.{new_user-valid_user_record}
use medb.Server.Init.{
  Init, Ending, done, stops, aborted, draws_on, waits_on, open_failed, close_failed, random_failed,
  set_and_wait, ◌>>=◌, ◌>>◌, pure, stop,
}
use medb.Server.Init.Calls.{IsWorker}

-- What is printed: the ids of the user and of the token, and the token.
pub record Credential : Type 0 where
  pub user_id : Bytes
  pub token_id : Bytes
  pub token : Bytes

unfoldable pub draw_user_id : Draws → Init Bytes
draw_user_id draws db = elim (unique_user_id draws db) [
  | drawing ↦ (draws_on, db)
  | draw_failed ↦ (aborted, db)
  | drawn uid ↦ (done uid, db)
]

unfoldable pub draw_token : Host → Draws → Init (Bytes × Bytes)
draw_token h draws db = elim (unique_token h draws db) [
  | drawing ↦ (draws_on, db)
  | draw_failed ↦ (stops random_failed, db)
  | drawn pair ↦ (done pair, db)
]

module _ (h : Host) (a : AuthStore) (c : Codec) (worker : Db → Db) where
  -- The three writes, once the ids are drawn.
  unfoldable pub write_credential : ℕ → Bytes → Credential → Init Credential
  write_credential now name cred = do
    set_and_wait h a c worker a.tokens token_collection cred.token_id (record {
      user_id = cred.user_id;
      label = bytes "recovery";
      created_at = h.format_time now;
      expires_at = none;
    })
    set_and_wait h a c worker a.users user_collection cred.user_id (record {
      user_name = name;
      role = role_admin;
      disabled = false;
      created_at = h.format_time now;
      updated_at = h.format_time now;
    })
    set_and_wait h a c worker a.state state_collection state_id
        (record { version = pos 1; auth_initialized = true })
    pure cred

  -- What is done with the open database.
  unfoldable pub create_credential : Draws → Draws → ℕ → Bytes → Init Credential
  create_credential draws token_draws now name = do
    uid ← draw_user_id draws
    pair ← draw_token h token_draws
    write_credential now name (record { user_id = uid; token_id = pair.1; token = pair.0 })

  -- The database is closed in any case; the first error counts.
  unfoldable pub recover_auth : Bool → Draws → Draws → ℕ → Bytes → Disk → Ending Credential × Disk
  recover_auth held draws token_draws now name d =
      let (opened, d') = open_medb c held [] d in
      elim opened [
        | err e ↦ (stops (open_failed e), d')
        | ok db ↦
            let (r, db') = create_credential draws token_draws now name db in
            let (e, db'') = close_db c db' in
            elim r [
              | done cred ↦
                  (elim e [ none ↦ done cred | some x ↦ stops (close_failed x) ], db''.disk)
              | stops x ↦ (stops x, db''.disk)
              | aborted ↦ (aborted, db''.disk)
              | draws_on ↦ (draws_on, db'.disk)
              | waits_on ↦ (waits_on, db'.disk)
            ]
      ]
