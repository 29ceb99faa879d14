-- ===== src/Server/Recover/Made.antt =====
-- What the administrator that `recoverAuth` of cmd/medb/auth.go makes can do.
use medb.Base.{
  ◌≡◌, refl, ap, sym, subst, ◌∙◌, ◌≤◌, ℕ, true, false, none, some, arith, All, Bytes, bytes,
  bytes_eq, bytes_eq_refl, if◌then◌else◌,
}
use medb.Result.{ok}
use medb.Codec.{Codec}
use medb.Db.{Db}
use medb.Db.Opening.{pos}
use medb.Collection.{has}
use medb.Server.{Host}
use medb.Server.Roles.{role_admin, valid_role, valid_label, valid_hex_id}
use medb.Server.Auth.{
  ServerState, User, Token, AuthStore, state_collection, user_collection, token_collection,
  state_id, get_state, get_user, get_token, valid_user_record, valid_token_record, valid_expiry,
  valid_token, is_live, authenticate,
}
use medb.Server.Fresh.{
  Draws, drawn, IsDraw, HostLaws, unique_user_id, unique_user_id_lem, unique_token,
  unique_token_lem,
}
use medb.Server.Records.{RecordLaws}
use medb.Server.Accounts.Users.{new_user-valid_user_record}
use medb.Server.Init.{Ending, done, set_and_wait, ◌>>=◌, ◌>>◌, pure}
use medb.Server.Init.Calls.{IsWorker}
use medb.Server.Recover.{Credential, draw_user_id, draw_token, write_credential, create_credential}
use medb.Server.Recover.Written.{>>=-done, token_written, user_written, marker_written}

-- A drawn id and a drawn token leave the database alone.
draw_user_id_done :
    (draws : Draws) (db : Db) (uid : Bytes)
    → (draw_user_id draws db).0 ≡ done uid
    → (unique_user_id draws db ≡ drawn uid) × ((draw_user_id draws db).1 ≡ db)
unfolding draw_user_id
draw_user_id_done draws db uid e = (ground arith, ground arith)

draw_token_done :
    (h : Host) (draws : Draws) (db : Db) (pair : Bytes × Bytes)
    → (draw_token h draws db).0 ≡ done pair
    → (unique_token h draws db ≡ drawn pair) × ((draw_token h draws db).1 ≡ db)
unfolding draw_token
draw_token_done h draws db pair e = (ground arith, ground arith)

module _ {h : Host} {a : AuthStore} {last : ℕ} (laws : HostLaws h last) (json : RecordLaws h a)
    (c : Codec) {worker : Db → Db} (works : IsWorker worker) where
  abbrev marker' : ServerState
  marker' = record { version = pos 1; auth_initialized = true }

  write_credential_done :
      (now : ℕ) (name : Bytes) (cred : Credential) (db : Db) (cred' : Credential)
      → now ≤ last
      → valid_label h name ≡ true
      → valid_hex_id cred.user_id 32 ≡ true
      → valid_hex_id cred.token_id 64 ≡ true
      → (write_credential h a c worker now name cred db).0 ≡ done cred'
      → (rec : Token) × (user : User) × (cred ≡ cred')
        × (rec.user_id ≡ cred.user_id)
        × (rec.expires_at ≡ none)
        × (valid_token_record h cred.token_id rec ≡ true)
        × (valid_user_record h cred.user_id user ≡ true)
        × (user.role ≡ role_admin)
        × (user.disabled ≡ false)
        × ((id : Bytes)
            → get_user a id (write_credential h a c worker now name cred db).1
              ≡ (if bytes_eq cred.user_id id then ok user else get_user a id db))
        × ((tid : Bytes)
            → get_token a tid (write_credential h a c worker now name cred db).1
              ≡ (if bytes_eq cred.token_id tid then ok rec else get_token a tid db))
        × (get_state a (write_credential h a c worker now name cred db).1 ≡ ok marker')
  unfolding write_credential
  write_credential_done now name cred db cred' early labelled uid_hex tid_hex e =
      let time = laws.time_back now early in
      let rec : Token = record {
        user_id = cred.user_id;
        label = bytes "recovery";
        created_at = h.format_time now;
        expires_at = none;
      } in
      let user : User = record {
        user_name = name;
        role = role_admin;
        disabled = false;
        created_at = h.format_time now;
        updated_at = h.format_time now;
      } in
      let text : valid_label h (bytes "recovery") ≡ true =
        unfold valid_label in rw (laws.ascii_text (bytes "recovery") (omega arith)) in
      let valid : valid_token_record h cred.token_id rec ≡ true =
        unfold valid_token_record in unfold valid_expiry in rw (tid_hex, uid_hex, text, time) in
      let valid_user : valid_user_record h cred.user_id user ≡ true =
        new_user-valid_user_record h cred.user_id user now uid_hex labelled
          (unfold valid_role in refl) time refl in
      let set_token = set_and_wait h a c worker a.tokens token_collection cred.token_id rec in
      let set_user = set_and_wait h a c worker a.users user_collection cred.user_id user in
      let set_state = set_and_wait h a c worker a.state state_collection state_id marker' in
      let (_, e1, db1) =
        >>=-done set_token (λ _. set_user >> (set_state >> pure cred)) db cred' e in
      let db' = (set_token db).1 in
      let (users1, tokens1) = token_written laws json c works cred.token_id rec db valid e1 in
      let e' : ((set_user >> (set_state >> pure cred)) db').0 ≡ done cred' =
        sym (ap (λ p. p.0) db1) ∙ e in
      let (_, e2, db2) = >>=-done set_user (λ _. set_state >> pure cred) db' cred' e' in
      let db'' = (set_user db').1 in
      let (users2, tokens2) = user_written laws json c works cred.user_id user db' valid_user e2 in
      let e'' : ((set_state >> pure cred) db'').0 ≡ done cred' = sym (ap (λ p. p.0) db2) ∙ e' in
      let (_, e3, db3) = >>=-done set_state (λ _. pure cred) db'' cred' e'' in
      let (users3, tokens3, marked) = marker_written laws json c works db'' e3 in
      let all = db1 ∙ db2 ∙ db3 in
      (
        rec,
        user,
        ground (arith, ap (λ (p : Ending Credential × Db). p.0) all),
        refl,
        refl,
        valid,
        valid_user,
        refl,
        refl,
        λ id. ap (λ p. get_user a id p.1) all ∙ users3 id ∙ users2 id ∙ rw (users1 id),
        λ tid. ap (λ p. get_token a tid p.1) all ∙ tokens3 tid ∙ tokens2 tid ∙ tokens1 tid,
        ap (λ p. get_state a p.1) all ∙ marked,
      )

  -- The printed ids were free, the token is an administrator's at any time, the users count as
  -- initialized, and every other user and token is as it was.
  abbrev pub IsMade : Credential → Db → Db → Type 0
  IsMade cred db db' =
      (has user_collection cred.user_id db ≡ false)
      × (has token_collection cred.token_id db ≡ false)
      × ((later : ℕ) → authenticate h a cred.token later db' ≡ some role_admin)
      × (get_state a db' ≡ ok marker')
      × ((id : Bytes) → bytes_eq cred.user_id id ≡ false → get_user a id db' ≡ get_user a id db)
      × ((tid : Bytes)
          → bytes_eq cred.token_id tid ≡ false
          → get_token a tid db' ≡ get_token a tid db)

  made_authenticates :
      (cred : Credential) (rec : Token) (user : User) (db' : Db) (later : ℕ)
      → valid_token h cred.token ≡ true
      → cred.token_id ≡ h.digest cred.token
      → get_token a cred.token_id db' ≡ ok rec
      → get_user a rec.user_id db' ≡ ok user
      → rec.expires_at ≡ none
      → valid_token_record h cred.token_id rec ≡ true
      → valid_user_record h rec.user_id user ≡ true
      → user.role ≡ role_admin
      → user.disabled ≡ false
      → authenticate h a cred.token later db' ≡ some role_admin
  unfolding authenticate is_live
  made_authenticates cred rec user db' later form id_same got found lasting valid valid_user admin
        enabled =
      ground arith

  -- Where the writes of `medb auth recover` end well, with a valid name and a clock whose text is read
  -- back: no user and no token had the printed ids; the printed token is accepted at any time as an
  -- administrator's; the marker says that the users are initialized, so that the server starts;
  -- every other user and token is as it was.
  pub create_credential_lem :
      (draws token_draws : Draws) (now : ℕ) (name : Bytes) (db : Db) (cred : Credential)
      → All (IsDraw 16) draws
      → All (IsDraw 32) token_draws
      → now ≤ last
      → valid_label h name ≡ true
      → (create_credential h a c worker draws token_draws now name db).0 ≡ done cred
      → IsMade cred db (create_credential h a c worker draws token_draws now name db).1
  unfolding create_credential
  create_credential_lem draws token_draws now name db cred drawn_ids drawn_tokens early labelled e =
      let draw_id = draw_user_id draws in
      let draw = draw_token h token_draws in
      let write = λ (uid : Bytes) (pair : Bytes × Bytes).
        write_credential h a c worker now name
          (record { user_id = uid; token_id = pair.1; token = pair.0 }) in
      let (uid, e1, db1) = >>=-done draw_id (λ uid. draw >>= λ pair. write uid pair) db cred e in
      let (id_drawn, same1) = draw_user_id_done draws db uid e1 in
      let (uid_hex, uid_free) = unique_user_id_lem draws db uid drawn_ids id_drawn in
      let at1 = db1 ∙ ap (draw >>= λ pair. write uid pair) same1 in
      let e' : ((draw >>= λ pair. write uid pair) db).0 ≡ done cred = sym (ap (λ p. p.0) at1) ∙ e in
      let (pair, e2, db2) = >>=-done draw (write uid) db cred e' in
      let (token_drawn, same2) = draw_token_done h token_draws db pair e2 in
      let (form, id_same, tid_hex, tid_free) =
        unique_token_lem h laws token_draws db pair.0 pair.1 drawn_tokens token_drawn in
      let all = at1 ∙ db2 ∙ ap (write uid pair) same2 in
      let e'' : (write uid pair db).0 ≡ done cred = sym (ap (λ p. p.0) all) ∙ e in
      let cred' : Credential = record { user_id = uid; token_id = pair.1; token = pair.0 } in
      let (
        rec, user, same, owner, lasting, valid, valid_user, admin, enabled, users, tokens, marked,
      ) =
        write_credential_done now name cred' db cred early labelled uid_hex tid_hex e'' in
      let db' = (write uid pair db).1 in
      let user_there : get_user a uid db' ≡ ok user = users uid ∙ rw (bytes_eq_refl uid) in
      let token_there : get_token a pair.1 db' ≡ ok rec =
        tokens pair.1 ∙ rw (bytes_eq_refl pair.1) in
      let made : IsMade cred' db db' = (
        uid_free,
        tid_free,
        λ later.
            made_authenticates cred' rec user db' later form id_same token_there
              (rw owner user_there) lasting valid (rw owner valid_user) admin enabled,
        marked,
        λ id other. users id ∙ rw other,
        λ tid other. tokens tid ∙ rw other,
      ) in
      subst (λ k. IsMade k db (create_credential h a c worker draws token_draws now name db).1) same
        (subst (IsMade cred' db) (sym (ap (λ p. p.1) all)) made)
