-- ===== src/Server/Recover/Written.antt =====
-- The writes of `recoverAuth` of cmd/medb/auth.go, one by one.
use medb.Base.{
  ◌≡◌, refl, ap, ◌∙◌, inl, inr, ℕ, true, false, arith, Bytes, bytes_eq, bytes_eq_refl,
  if◌then◌else◌,
}
use medb.Result.{ok, Result-cases}
use medb.Codec.{Codec}
use medb.Db.{Db, read}
use medb.Db.Opening.{pos}
use medb.Collection.{Typed, get, set_doc}
use medb.Server.{Host}
use medb.Server.Auth.{
  ServerState, User, Token, AuthStore, state_collection, user_collection, token_collection,
  state_id, get_state, get_user, get_token, valid_user_record, valid_token_record,
}
use medb.Server.Fresh.{HostLaws}
use medb.Server.Records.{
  RecordLaws, valid_user_record-IsUserForm, set_user_lem, set_token_lem, get-set_doc,
  get-set_doc_other,
}
use medb.Server.Init.{Init, Ending, done, stops, aborted, draws_on, waits_on, set_and_wait, ◌>>=◌}
use medb.Server.Init.Calls.{IsWorker}

-- A read depends on the documents, and on whether the database is closed.
get-same {ℓ} :
    {T : Type ℓ} (t : Typed T) (coll id : Bytes) (db db' : Db)
    → db'.store.colls ≡ db.store.colls
    → db'.is_closed ≡ db.is_closed
    → get t coll id db' ≡ get t coll id db
unfolding get read
get-same t coll id db db' colls shut = rw (colls, shut)

pub >>=-done {ℓ κ} :
    {A : Type ℓ} {B : Type κ} (m : Init A) (f : A → Init B) (db : Db) (y : B)
    → ((m >>= f) db).0 ≡ done y
    → (x : A) × ((m db).0 ≡ done x) × ((m >>= f) db ≡ f x (m db).1)
>>=-done {A = A} {B = B} m f db y e = go (m db) e
  where
    after : Ending A × Db → Ending B × Db
    after p = elim p.0 [
      | done x ↦ f x p.1
      | stops e ↦ (stops e, p.1)
      | aborted ↦ (aborted, p.1)
      | draws_on ↦ (draws_on, p.1)
      | waits_on ↦ (waits_on, p.1)
    ]

    go : (p : Ending A × Db) → (after p).0 ≡ done y → (x : A) × (p.0 ≡ done x) × (after p ≡ f x p.1)
    go (done x, db') e = (x, refl, refl)
    go (stops x, db') e = absurd (ground arith)
    go (aborted, db') e = absurd (ground arith)
    go (draws_on, db') e = absurd (ground arith)
    go (waits_on, db') e = absurd (ground arith)

module _ (h : Host) (a : AuthStore) (c : Codec) {worker : Db → Db} (works : IsWorker worker) where
  set_and_wait_done {ℓ κ} :
      {T : Type ℓ} {U : Type κ} (t : Typed T) (u : Typed U) (name id : Bytes) (doc : T) (db : Db)
      → (set_and_wait h a c worker t name id doc db).0 ≡ done tt
      → (commit : ℕ) × ((set_doc t name c id doc db).0 ≡ ok commit)
        × ((coll id' : Bytes)
            → get u coll id' (set_and_wait h a c worker t name id doc db).1
              ≡ get u coll id' (set_doc t name c id doc db).1)
  unfolding set_and_wait
  set_and_wait_done t u name id doc db e = elim (Result-cases (set_doc t name c id doc db).0) [
    | inr (x, refused) ↦ absurd (ground arith)
    | inl (commit, accepted) ↦
        let db' = (set_doc t name c id doc db).1 in
        let same : (set_and_wait h a c worker t name id doc db).1 ≡ worker db' = ground arith in
        (
          commit,
          accepted,
          λ coll id'.
              ap (get u coll id') same
              ∙ get-same u coll id' db' (worker db') (works.same_colls db') (works.same_closed db'),
        )
  ]

module _ {h : Host} {a : AuthStore} {last : ℕ} (laws : HostLaws h last) (json : RecordLaws h a)
    (c : Codec) {worker : Db → Db} (works : IsWorker worker) where
  -- The three writes, in turn: each is read as it was written, and nothing else changes.
  pub token_written :
      (tid : Bytes) (token : Token) (db : Db)
      → valid_token_record h tid token ≡ true
      → (set_and_wait h a c worker a.tokens token_collection tid token db).0 ≡ done tt
      → let db' = (set_and_wait h a c worker a.tokens token_collection tid token db).1 in
        ((id : Bytes) → get_user a id db' ≡ get_user a id db)
        × ((tid' : Bytes)
            → get_token a tid' db' ≡ (if bytes_eq tid tid' then ok token else get_token a tid' db))
  token_written tid token db valid e =
      let (commit, set, tokens) =
        set_and_wait_done h a c works a.tokens a.tokens token_collection tid token db e in
      let (_, _, users) =
        set_and_wait_done h a c works a.tokens a.users token_collection tid token db e in
      let (users', tokens') = set_token_lem json c db commit tid token valid set in
      (
        λ id. unfold get_user in (users user_collection id ∙ users' id),
        λ tid'. unfold get_token in (tokens token_collection tid' ∙ tokens' tid'),
      )

  pub user_written :
      (uid : Bytes) (user : User) (db : Db)
      → valid_user_record h uid user ≡ true
      → (set_and_wait h a c worker a.users user_collection uid user db).0 ≡ done tt
      → let db' = (set_and_wait h a c worker a.users user_collection uid user db).1 in
        ((id : Bytes) → get_user a id db' ≡ (if bytes_eq uid id then ok user else get_user a id db))
        × ((tid : Bytes) → get_token a tid db' ≡ get_token a tid db)
  user_written uid user db valid e =
      let (commit, set, users) =
        set_and_wait_done h a c works a.users a.users user_collection uid user db e in
      let (_, _, tokens) =
        set_and_wait_done h a c works a.users a.tokens user_collection uid user db e in
      let (users', tokens') =
        set_user_lem json c db commit uid user (valid_user_record-IsUserForm h uid user valid)
          set in
      (
        λ id. unfold get_user in (users user_collection id ∙ users' id),
        λ tid. unfold get_token in (tokens token_collection tid ∙ tokens' tid),
      )

  abbrev pub marker : ServerState
  marker = record { version = pos 1; auth_initialized = true }

  marker_apart :
      (bytes_eq state_collection user_collection ≡ false)
      × (bytes_eq state_collection token_collection ≡ false)
  unfolding bytes_eq
  marker_apart = (refl, refl)

  pub marker_written :
      (db : Db)
      → (set_and_wait h a c worker a.state state_collection state_id marker db).0 ≡ done tt
      → let db' = (set_and_wait h a c worker a.state state_collection state_id marker db).1 in
        ((id : Bytes) → get_user a id db' ≡ get_user a id db)
        × ((tid : Bytes) → get_token a tid db' ≡ get_token a tid db)
        × (get_state a db' ≡ ok marker)
  marker_written db e =
      let (commit, set, states) =
        set_and_wait_done h a c works a.state a.state state_collection state_id marker db e in
      let (_, _, users) =
        set_and_wait_done h a c works a.state a.users state_collection state_id marker db e in
      let (_, _, tokens) =
        set_and_wait_done h a c works a.state a.tokens state_collection state_id marker db e in
      (
        λ id.
            unfold get_user in
            (users user_collection id
              ∙ get-set_doc_other a.state a.users c state_collection state_id marker db
                  user_collection id marker_apart.0),
        λ tid.
            unfold get_token in
            (tokens token_collection tid
              ∙ get-set_doc_other a.state a.tokens c state_collection state_id marker db
                  token_collection tid marker_apart.1),
        unfold get_state in
            (states state_collection state_id
              ∙ get-set_doc a.state c state_collection state_id marker db commit state_id
                  (λ raw enc. json.state_back raw enc) (bytes_eq_refl state_collection) set
              ∙ rw (bytes_eq_refl state_id)),
      )
