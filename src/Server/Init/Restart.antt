-- ===== src/Server/Init/Restart.antt =====
-- `initializeAuth` of cmd/medb/auth.go as a whole, started again after it was stopped.
use medb.Base.{
  ◌≡◌, refl, ap, ◌∙◌, ◌≤◌, ℕ, true, ◌==◌, Option, some, [], arith, All, Bytes, bytes, bytes_eq_refl,
  lookup,
}
use medb.Result.{ok, err, not_found}
use medb.Store.{docs_of}
use medb.Codec.{Codec}
use medb.Db.{Db}
use medb.Db.Opening.{pos}
use medb.Collection.{count, all_docs, Seq, seq_next, seq_end, seq_of, sorted, insert_sorted}
use medb.Server.{Host}
use medb.Server.Roles.{role_admin, valid_label}
use medb.Server.Auth.{
  Token, AuthStore, state_collection, user_collection, token_collection, state_id, get_state,
  get_user, get_token, valid_token, valid_state_record, is_live, authenticate, has_active_admin,
  any_admin, is_admin_token,
}
use medb.Server.Fresh.{Draws, IsDraw, HostLaws}
use medb.Server.Records.{RecordLaws}
use medb.Server.Init.{
  done, GetEnv, env_string, initial_token, checked_token, env_value, create_admin, initial_record,
  initial_user, finish_init, check_marker, initialize_auth, ◌>>=◌,
}
use medb.Server.Init.Calls.{IsWorker, Ends, Ends-bind, Ends-map, get_absent, get_only}
use medb.Server.Init.Stages.{
  first_conflict-none, Stage, untouched, with_token, with_user, complete, IsPartial,
}
use medb.Server.Init.Resume.{TokenReady, UserReady, IsComplete, count_docs, initial_record-Ends}
use medb.Server.Init.Finish.{initial_user-Ends, finish_init-Ends}

-- The initial token that the environment gives has the form of a token.
initial_token-valid_token :
    (h : Host) (getenv : GetEnv) (read_file : Bytes → Option Bytes) (token : Bytes)
    → initial_token h getenv read_file ≡ done token
    → valid_token h token ≡ true
unfolding initial_token checked_token env_value
initial_token-valid_token h getenv read_file token e = ground arith

module _ {h : Host} {a : AuthStore} (tid name : Bytes) (db : Db)
    (r : IsComplete h a tid name db) where
  complete_records : (get_token a tid db ≡ ok r.rec) × (get_user a r.rec.user_id db ≡ ok r.admin)
  complete_records = (
    unfold get_token in
        get_only a.tokens token_collection tid r.token.raw r.rec db r.live r.token.only
          r.token.decoded,
    unfold get_user in
        get_only a.users user_collection r.rec.user_id r.user.raw r.admin db r.live r.user.only
          r.user.decoded,
  )

  complete_authenticates :
      (token : Bytes) (now : ℕ)
      → h.digest token ≡ tid
      → valid_token h token ≡ true
      → authenticate h a token now db ≡ some role_admin
  unfolding authenticate is_live
  complete_authenticates token now same form =
      let (got, user) = complete_records in
      let valid = r.token.valid in
      let lasting = r.token.lasting in
      let valid_user = r.user.valid in
      let admin = r.user.admin in let enabled = r.user.enabled in ground arith

  complete_admin_token : (now : ℕ) → is_admin_token h a tid r.rec now db ≡ true
  unfolding is_admin_token is_live
  complete_admin_token now =
      let (got, user) = complete_records in
      let valid = r.token.valid in
      let lasting = r.token.lasting in
      let valid_user = r.user.valid in
      let admin = r.user.admin in let enabled = r.user.enabled in ground arith

  complete_tokens : all_docs a.tokens token_collection db ≡ seq_next tid r.rec seq_end
  unfolding all_docs seq_of sorted insert_sorted lookup
  complete_tokens =
      let live = r.live in
      let only = r.token.only in let decoded = r.token.decoded in ground (arith, bytes_eq_refl tid)

  complete_has_admin : (now : ℕ) → has_active_admin h a now db ≡ some true
  unfolding has_active_admin any_admin
  complete_has_admin now =
      let admin = complete_admin_token now in
      let tokens = complete_tokens in
      ap (λ (seq : Seq Token). any_admin h a seq now db) tokens ∙ ground arith

module _ {h : Host} {a : AuthStore} {last : ℕ} (laws : HostLaws h last) (json : RecordLaws h a)
    (c : Codec) {worker : Db → Db} (works : IsWorker worker) (getenv : GetEnv)
    (read_file : Bytes → Option Bytes) (token : Bytes)
    (given : initial_token h getenv read_file ≡ done token) where
  abbrev admin_name : Bytes
  admin_name = env_string getenv (bytes "MEDB_INIT_ADMIN_NAME") (bytes "admin")

  abbrev Partial : Db → Type 0
  Partial = IsPartial h a (h.digest token) admin_name

  abbrev Complete : Db → Type 0
  Complete = IsComplete h a (h.digest token) admin_name

  module _ (draws : Draws) (now now_user : ℕ) (bytes_drawn : All (IsDraw 16) draws)
      (early : now ≤ last) (early' : now_user ≤ last)
      (labelled : valid_label h admin_name ≡ true) where
    create_admin-Ends :
        (db : Db)
        → Partial db
        → docs_of state_collection db.store.colls ≡ []
        → Ends
            (λ _. Complete)
            Partial
            (create_admin h a c worker draws now now_user admin_name token db)
    unfolding create_admin
    create_admin-Ends db part s =
        let tid = h.digest token in
        Ends-bind (TokenReady h a tid admin_name) (λ _. Complete) Partial
          (initial_record h a c worker draws now tid)
          (λ rec. initial_user h a c worker now_user admin_name rec.user_id >>= λ user.
            finish_init h a c worker tid rec user)
          db
          (initial_record-Ends laws json c works tid admin_name (laws.digest_hex token) draws now db
            bytes_drawn early part s)
          (λ rec db' ready.
            Ends-bind (λ user. UserReady h a tid admin_name rec user) (λ _. Complete) Partial
              (initial_user h a c worker now_user admin_name rec.user_id)
              (λ user. finish_init h a c worker tid rec user) db'
              (initial_user-Ends laws json c works tid admin_name rec now_user db' early' labelled
                ready)
              (λ user db'' ready'.
                finish_init-Ends laws json c works tid admin_name rec user db'' ready'))

    initialize_auth-Ends :
        (db : Db)
        → Partial db
        → Ends
            (λ _. Complete)
            Partial
            (initialize_auth h a c worker getenv read_file draws now now_user db)
    unfolding initialize_auth check_marker
    initialize_auth-Ends db part = go part.stage
      where
        unmarked :
            docs_of state_collection db.store.colls ≡ []
            → Ends
                (λ _. Complete)
                Partial
                (initialize_auth h a c worker getenv read_file draws now now_user db)
        unmarked s =
            let got : get_state a db ≡ err not_found =
              unfold get_state in get_absent a.state state_collection state_id db part.live s in
            let no_state : (count state_collection db == 0) ≡ true =
              rw (count_docs state_collection db part.live, s) in
            rw (initialize_auth, got, no_state, first_conflict-none db part.clear, labelled, given)
              (create_admin-Ends db part s)

        go :
            Stage h a (h.digest token) admin_name db.store.colls
            → Ends
                (λ _. Complete)
                Partial
                (initialize_auth h a c worker getenv read_file draws now now_user db)
        go (untouched s _ _) = unmarked s
        go (with_token _ s _ _) = unmarked s
        go (with_user _ _ s _ _) = unmarked s
        go (complete rec user marker held there) =
            let r : Complete db = record {
              live = part.live;
              clear = part.clear;
              rec = rec;
              admin = user;
              marker = marker;
              token = held;
              user = there;
            } in
            let got : get_state a db ≡ ok (record { version = pos 1; auth_initialized = true }) =
              unfold get_state in
              get_only a.state state_collection state_id marker.raw
                (record { version = pos 1; auth_initialized = true }) db part.live marker.only
                marker.decoded in
            let has_admin = complete_has_admin (h.digest token) admin_name db r now in
            let valid : valid_state_record (record { version = pos 1; auth_initialized = true })
                ≡ true =
              unfold valid_state_record in refl in
            rw (initialize_auth, got, check_marker, valid, has_admin) r

    -- From each stage at which an initialization with the same token and name may have stopped, the
    -- untouched one included, with nothing else stored under `_meta` and clocks whose text is read
    -- back: `initializeAuth` ends well, or one of its writes fails, or rand.Read does, or it still
    -- draws an id or waits for a commit; it never refuses what the earlier run left. Where it ends
    -- well, both records and the marker are stored, and the initial token is accepted at any time
    -- as an administrator's; where it does not, it leaves such a stage again.
    pub initialize_auth_resumes :
        (db : Db)
        → Partial db
        → Ends
            (λ _ db'.
              Complete db' × ((later : ℕ) → authenticate h a token later db' ≡ some role_admin))
            Partial
            (initialize_auth h a c worker getenv read_file draws now now_user db)
    initialize_auth_resumes db part =
        let form = initial_token-valid_token h getenv read_file token given in
        Ends-map (λ _. Complete)
          (λ _ db'.
            Complete db' × ((later : ℕ) → authenticate h a token later db' ≡ some role_admin))
          Partial (initialize_auth h a c worker getenv read_file draws now now_user db)
          (initialize_auth-Ends db part)
          (λ _ db' r. (
            r,
            λ later. complete_authenticates (h.digest token) admin_name db' r token later refl form,
          ))
