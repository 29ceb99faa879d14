-- ===== src/Server/Init/Resume.antt =====
-- The parts of `initializeAuth` (cmd/medb/auth.go), from each stage that an earlier one may have left.
use medb.Base.{
  ◌≡◌, refl, ap, ◌∙◌, ◌≤◌, ◌⊎◌, inl, inr, ℕ, true, false, ◌==◌, none, [], arith, All, Bytes,
  bytes_eq, bytes_eq_iff, length, has_prefix, is_some,
}
use medb.Name.{reserved_collection}
use medb.Result.{ok, err, not_found}
use medb.Store.{docs_of}
use medb.Codec.{Codec}
use medb.Db.{Db}
use medb.Collection.{count}
use medb.Server.{Host}
use medb.Server.Roles.{valid_hex_id, valid_label}
use medb.Server.Auth.{
  User, Token, AuthStore, state_collection, user_collection, token_collection, get_token,
  valid_token_record, valid_expiry,
}
use medb.Server.Fresh.{Draws, IsDraw, Drawn-cases, HostLaws, unique_user_id, unique_user_id_lem}
use medb.Server.Records.{RecordLaws, tokens_apart}
use medb.Server.Init.{
  in_the_way, set_and_wait, initial_label, create_initial_token, initial_record, pure,
}
use medb.Server.Init.Calls.{IsWorker, Ends, Ends-bind, set_and_wait-Ends, get_absent, get_only}
use medb.Server.Init.Stages.{
  NothingElse, put_colls-NothingElse, docs_of-put_colls_first, docs_of-put_colls_other, HasToken,
  HasUser, HasMarker, Stage, untouched, with_token, with_user, complete, IsPartial,
}

pub own_collections :
    (in_the_way state_collection ≡ false)
    × (in_the_way user_collection ≡ false)
    × (in_the_way token_collection ≡ false)
unfolding in_the_way bytes_eq reserved_collection has_prefix
own_collections = (refl, refl, refl)

pub state_apart :
    (bytes_eq state_collection user_collection ≡ false)
    × (bytes_eq state_collection token_collection ≡ false)
    × (bytes_eq user_collection state_collection ≡ false)
    × (bytes_eq token_collection state_collection ≡ false)
unfolding bytes_eq
state_apart = (refl, refl, refl, refl)

pub count_docs :
    (coll : Bytes) (db : Db)
    → db.is_closed ≡ false
    → count coll db ≡ length (docs_of coll db.store.colls)
unfolding count
count_docs coll db live = rw live

module _ (h : Host) (a : AuthStore) (tid name : Bytes) where
  -- The token is stored, and the user if an earlier run wrote it.
  pub record TokenReady (rec : Token) (db : Db) : Type 0 where
    pub live : db.is_closed ≡ false
    pub clear : NothingElse db.store.colls
    pub unmarked : docs_of state_collection db.store.colls ≡ []
    pub token : HasToken h a tid name db.store.colls rec
    pub user :
        (docs_of user_collection db.store.colls ≡ [])
        ⊎ ((user : User) × HasUser h a tid name db.store.colls rec user)

  pub record UserReady (rec : Token) (admin : User) (db : Db) : Type 0 where
    pub live : db.is_closed ≡ false
    pub clear : NothingElse db.store.colls
    pub unmarked : docs_of state_collection db.store.colls ≡ []
    pub token : HasToken h a tid name db.store.colls rec
    pub user : HasUser h a tid name db.store.colls rec admin

  pub record IsComplete (db : Db) : Type 0 where
    pub live : db.is_closed ≡ false
    pub clear : NothingElse db.store.colls
    pub rec : Token
    pub admin : User
    pub marker : HasMarker h a tid name db.store.colls
    pub token : HasToken h a tid name db.store.colls rec
    pub user : HasUser h a tid name db.store.colls rec admin

  pub IsComplete-IsPartial : (db : Db) → IsComplete db → IsPartial h a tid name db
  IsComplete-IsPartial db r = record {
    live = r.live;
    clear = r.clear;
    stage = complete r.rec r.admin r.marker r.token r.user;
  }

  pub UserReady-IsPartial :
      (rec : Token) (user : User) (db : Db) → UserReady rec user db → IsPartial h a tid name db
  UserReady-IsPartial rec user db r = record {
    live = r.live;
    clear = r.clear;
    stage = with_user rec user r.unmarked r.token r.user;
  }

  pub TokenReady-IsPartial : (rec : Token) (db : Db) → TokenReady rec db → IsPartial h a tid name db
  TokenReady-IsPartial rec db r = record {
    live = r.live;
    clear = r.clear;
    stage = elim r.user [
      | inl none_there ↦ with_token rec r.unmarked r.token none_there
      | inr (user, there) ↦ with_user rec user r.unmarked r.token there
    ];
  }

module _ {h : Host} {a : AuthStore} {last : ℕ} (laws : HostLaws h last) (json : RecordLaws h a)
    (c : Codec) {worker : Db → Db} (works : IsWorker worker) (tid name : Bytes)
    (hex : valid_hex_id tid 64 ≡ true) where
  labelled_initial : valid_label h initial_label ≡ true
  unfolding valid_label
  labelled_initial = rw (laws.ascii_text initial_label (omega arith))

  create_initial_token-Ends :
      (draws : Draws) (now : ℕ) (db : Db)
      → All (IsDraw 16) draws
      → now ≤ last
      → IsPartial h a tid name db
      → docs_of state_collection db.store.colls ≡ []
      → docs_of token_collection db.store.colls ≡ []
      → docs_of user_collection db.store.colls ≡ []
      → Ends
          (TokenReady h a tid name)
          (IsPartial h a tid name)
          (create_initial_token h a c worker draws now tid db)
  unfolding create_initial_token
  create_initial_token-Ends draws now db bytes_drawn early part s t u =
      elim (Drawn-cases (unique_user_id draws db)) [
        | inr (inl e) ↦ rw (create_initial_token, e) part
        | inr (inr e) ↦ rw (create_initial_token, e) part
        | inl (uid, e) ↦
            let (uid_hex, _) = unique_user_id_lem draws db uid bytes_drawn e in
            let time = laws.time_back now early in
            let rec : Token = record {
              user_id = uid;
              label = initial_label;
              created_at = h.format_time now;
              expires_at = none;
            } in
            let valid : valid_token_record h tid rec ≡ true =
              unfold valid_token_record in
              unfold valid_expiry in rw (hex, uid_hex, labelled_initial, time) in
            rw (create_initial_token, e)
              (Ends-bind (λ _. TokenReady h a tid name rec) (TokenReady h a tid name)
                (IsPartial h a tid name)
                (set_and_wait h a c worker a.tokens token_collection tid rec) (λ _. pure rec) db
                (set_and_wait-Ends h a c works a.tokens token_collection
                  (TokenReady h a tid name rec) (IsPartial h a tid name)
                  (TokenReady-IsPartial h a tid name rec) tid rec db part
                  (λ raw db' enc live colls. record {
                    live = live;
                    clear = rw colls (
                        put_colls-NothingElse token_collection tid raw db.store.colls
                          own_collections.2 part.clear);
                    unmarked =
                        ap (docs_of state_collection) colls
                        ∙ docs_of-put_colls_other token_collection tid raw db.store.colls
                            state_collection state_apart.3
                        ∙ s;
                    token = record {
                      raw = raw;
                      only =
                          ap (docs_of token_collection) colls
                          ∙ docs_of-put_colls_first token_collection tid raw db.store.colls t;
                      decoded = json.token_back tid rec raw valid enc;
                      valid = valid;
                      labelled = refl;
                      lasting = refl;
                    };
                    user = inl (
                        ap (docs_of user_collection) colls
                        ∙ docs_of-put_colls_other token_collection tid raw db.store.colls
                            user_collection tokens_apart
                        ∙ u);
                  }))
                (λ _ db' ready. ready))
      ]

  -- The token of an initialization that has no marker yet.
  pub initial_record-Ends :
      (draws : Draws) (now : ℕ) (db : Db)
      → All (IsDraw 16) draws
      → now ≤ last
      → IsPartial h a tid name db
      → docs_of state_collection db.store.colls ≡ []
      → Ends
          (TokenReady h a tid name)
          (IsPartial h a tid name)
          (initial_record h a c worker draws now tid db)
  unfolding initial_record
  initial_record-Ends draws now db bytes_drawn early part s = go part.stage
    where
      found :
          (rec : Token)
          → HasToken h a tid name db.store.colls rec
          → TokenReady h a tid name rec db
          → Ends
              (TokenReady h a tid name)
              (IsPartial h a tid name)
              (initial_record h a c worker draws now tid db)
      found rec token ready =
          let got : get_token a tid db ≡ ok rec =
            unfold get_token in
            get_only a.tokens token_collection tid token.raw rec db part.live token.only
              token.decoded in
          let one : (count token_collection db == 1) ≡ true =
            rw (count_docs token_collection db part.live, token.only) in
          let label : bytes_eq rec.label initial_label ≡ true =
            (bytes_eq_iff rec.label initial_label).1 token.labelled in
          let lasting : is_some rec.expires_at ≡ false = ap is_some token.lasting in
          rw (initial_record, got, one, token.valid, label, lasting) ready

      go :
          Stage h a tid name db.store.colls
          → Ends
              (TokenReady h a tid name)
              (IsPartial h a tid name)
              (initial_record h a c worker draws now tid db)
      go (untouched _ t u) =
          let got : get_token a tid db ≡ err not_found =
            unfold get_token in get_absent a.tokens token_collection tid db part.live t in
          let no_token : (count token_collection db == 0) ≡ true =
            rw (count_docs token_collection db part.live, t) in
          let no_user : (count user_collection db == 0) ≡ true =
            rw (count_docs user_collection db part.live, u) in
          rw (initial_record, got, no_token, no_user)
            (create_initial_token-Ends draws now db bytes_drawn early part s t u)
      go (with_token rec _ token u) = found rec token (record {
        live = part.live;
        clear = part.clear;
        unmarked = s;
        token = token;
        user = inl u;
      })
      go (with_user rec user _ token there) = found rec token (record {
        live = part.live;
        clear = part.clear;
        unmarked = s;
        token = token;
        user = inr (user, there);
      })
      go (complete rec user marker token there) = absurd (ground (arith, s, marker.only))
