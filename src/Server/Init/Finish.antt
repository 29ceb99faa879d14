-- ===== src/Server/Init/Finish.antt =====
-- The user and the marker of `initializeAuth` (cmd/medb/auth.go), and the whole of it from each stage
-- that an earlier run may have left.
use medb.Base.{
  ◌≡◌, refl, ap, ◌∙◌, ◌≤◌, ◌⊎◌, inl, inr, ℕ, true, false, ◌==◌, [], arith, Bytes, bytes_eq,
  bytes_eq_iff,
}
use medb.Result.{ok, err, not_found}
use medb.Store.{docs_of}
use medb.Codec.{Codec}
use medb.Db.{Db}
use medb.Db.Opening.{pos}
use medb.Collection.{count}
use medb.Server.{Host}
use medb.Server.Roles.{role_admin, valid_role, valid_hex_id, valid_label}
use medb.Server.Auth.{
  User, Token, AuthStore, state_collection, user_collection, token_collection, state_id, get_user,
  valid_user_record, valid_token_record,
}
use medb.Server.Fresh.{HostLaws}
use medb.Server.Records.{RecordLaws, valid_user_record-IsUserForm, users_apart}
use medb.Server.Accounts.Users.{new_user-valid_user_record}
use medb.Server.Init.{done, set_and_wait, initial_user, finish_init, is_admin, pure}
use medb.Server.Init.Calls.{IsWorker, Ends, Ends-bind, set_and_wait-Ends, get_absent, get_only}
use medb.Server.Init.Stages.{
  put_colls-NothingElse, docs_of-put_colls_first, docs_of-put_colls_other, HasToken, HasUser,
  IsPartial,
}
use medb.Server.Init.Resume.{
  TokenReady, UserReady, IsComplete, TokenReady-IsPartial, UserReady-IsPartial,
  IsComplete-IsPartial, own_collections, state_apart, count_docs,
}

module _ {h : Host} {a : AuthStore} {last : ℕ} (laws : HostLaws h last) (json : RecordLaws h a)
    (c : Codec) {worker : Db → Db} (works : IsWorker worker) (tid name : Bytes) where
  token_user_hex :
      (rec : Token) (db : Db)
      → HasToken h a tid name db.store.colls rec
      → valid_hex_id rec.user_id 32 ≡ true
  token_user_hex rec db token = let valid = token.valid in unfold valid_token_record in ground arith

  -- The administrator of an initialization whose token is stored.
  pub initial_user-Ends :
      (rec : Token) (now : ℕ) (db : Db)
      → now ≤ last
      → valid_label h name ≡ true
      → TokenReady h a tid name rec db
      → Ends
          (λ user. UserReady h a tid name rec user)
          (IsPartial h a tid name)
          (initial_user h a c worker now name rec.user_id db)
  unfolding initial_user
  initial_user-Ends rec now db early labelled ready = go ready.user
    where
      go :
          (docs_of user_collection db.store.colls ≡ [])
            ⊎ ((user : User) × HasUser h a tid name db.store.colls rec user)
          → Ends
              (λ user. UserReady h a tid name rec user)
              (IsPartial h a tid name)
              (initial_user h a c worker now name rec.user_id db)
      go (inr (user, there)) =
          let got : get_user a rec.user_id db ≡ ok user =
            unfold get_user in
            get_only a.users user_collection rec.user_id there.raw user db ready.live there.only
              there.decoded in
          let one : (count user_collection db == 1) ≡ true =
            rw (count_docs user_collection db ready.live, there.only) in
          let same : bytes_eq user.user_name name ≡ true =
            (bytes_eq_iff user.user_name name).1 there.named in
          let admin : is_admin user.role ≡ true = ap is_admin there.admin in
          let enabled = there.enabled in
          let valid = there.valid in
          let e : initial_user h a c worker now name rec.user_id db ≡ (done user, db) =
            ground arith in
          rw e (record {
            live = ready.live;
            clear = ready.clear;
            unmarked = ready.unmarked;
            token = ready.token;
            user = there;
          })
      go (inl u) =
          let got : get_user a rec.user_id db ≡ err not_found =
            unfold get_user in get_absent a.users user_collection rec.user_id db ready.live u in
          let no_user : (count user_collection db == 0) ≡ true =
            rw (count_docs user_collection db ready.live, u) in
          let time = laws.time_back now early in
          let user : User = record {
            user_name = name;
            role = role_admin;
            disabled = false;
            created_at = h.format_time now;
            updated_at = h.format_time now;
          } in
          let valid : valid_user_record h rec.user_id user ≡ true =
            new_user-valid_user_record h rec.user_id user now (token_user_hex rec db ready.token)
              labelled (unfold valid_role in refl) time refl in
          let id = rec.user_id in
          rw (initial_user, got, no_user)
            (Ends-bind (λ _. UserReady h a tid name rec user)
              (λ user'. UserReady h a tid name rec user') (IsPartial h a tid name)
              (set_and_wait h a c worker a.users user_collection id user) (λ _. pure user) db
              (set_and_wait-Ends h a c works a.users user_collection
                (UserReady h a tid name rec user) (IsPartial h a tid name)
                (UserReady-IsPartial h a tid name rec user) id user db
                (TokenReady-IsPartial h a tid name rec db ready)
                (λ raw db' enc live colls. record {
                  live = live;
                  clear = rw colls (
                      put_colls-NothingElse user_collection id raw db.store.colls own_collections.1
                        ready.clear);
                  unmarked =
                      ap (docs_of state_collection) colls
                      ∙ docs_of-put_colls_other user_collection id raw db.store.colls
                          state_collection state_apart.2
                      ∙ ready.unmarked;
                  token = record {
                    raw = ready.token.raw;
                    only =
                        ap (docs_of token_collection) colls
                        ∙ docs_of-put_colls_other user_collection id raw db.store.colls
                            token_collection users_apart
                        ∙ ready.token.only;
                    decoded = ready.token.decoded;
                    valid = ready.token.valid;
                    labelled = ready.token.labelled;
                    lasting = ready.token.lasting;
                  };
                  user = record {
                    raw = raw;
                    only =
                        ap (docs_of user_collection) colls
                        ∙ docs_of-put_colls_first user_collection id raw db.store.colls u;
                    decoded =
                        json.user_back user raw (valid_user_record-IsUserForm h id user valid) enc;
                    valid = valid;
                    named = refl;
                    admin = refl;
                    enabled = refl;
                  };
                }))
              (λ _ db' done_user. done_user))

  -- The marker, once both records are stored.
  pub finish_init-Ends :
      (rec : Token) (user : User) (db : Db)
      → UserReady h a tid name rec user db
      → Ends
          (λ _. IsComplete h a tid name)
          (IsPartial h a tid name)
          (finish_init h a c worker tid rec user db)
  unfolding finish_init
  finish_init-Ends rec user db ready =
      let admin : is_admin user.role ≡ true = ap is_admin ready.user.admin in
      rw (finish_init, ready.token.valid, ready.user.valid, ready.user.enabled, admin)
        (set_and_wait-Ends h a c works a.state state_collection (IsComplete h a tid name)
          (IsPartial h a tid name) (IsComplete-IsPartial h a tid name) state_id
          (record { version = pos 1; auth_initialized = true }) db
          (UserReady-IsPartial h a tid name rec user db ready)
          (λ raw db' enc live colls. record {
            live = live;
            clear = rw colls (
                put_colls-NothingElse state_collection state_id raw db.store.colls own_collections.0
                  ready.clear);
            rec = rec;
            admin = user;
            marker = record {
              raw = raw;
              only =
                  ap (docs_of state_collection) colls
                  ∙ docs_of-put_colls_first state_collection state_id raw db.store.colls
                      ready.unmarked;
              decoded = json.state_back raw enc;
            };
            token = record {
              raw = ready.token.raw;
              only =
                  ap (docs_of token_collection) colls
                  ∙ docs_of-put_colls_other state_collection state_id raw db.store.colls
                      token_collection state_apart.1
                  ∙ ready.token.only;
              decoded = ready.token.decoded;
              valid = ready.token.valid;
              labelled = ready.token.labelled;
              lasting = ready.token.lasting;
            };
            user = record {
              raw = ready.user.raw;
              only =
                  ap (docs_of user_collection) colls
                  ∙ docs_of-put_colls_other state_collection state_id raw db.store.colls
                      user_collection state_apart.0
                  ∙ ready.user.only;
              decoded = ready.user.decoded;
              valid = ready.user.valid;
              named = ready.user.named;
              admin = ready.user.admin;
              enabled = ready.user.enabled;
            };
          }))
