-- ===== src/Server/Records.antt =====
-- How the records of users and tokens are stored and read back: the use of encoding/json at
-- `userRecord` and `tokenRecord` of cmd/medb/auth.go.
use medb.Base.{
  ◌≡◌, refl, ◌∙◌, ℕ, true, false, is_some, Option, some, arith, Bytes, bytes_eq, bytes_eq_refl,
  if◌then◌else◌,
}
use medb.Result.{Result, ok}
use medb.Codec.{Codec}
use medb.Db.{Db, read}
use medb.Db.Opening.{pos}
use medb.Collection.{Typed, get, set_doc, update_doc}
use medb.Collection.Writes.{set_doc-read, update_doc-read}
use medb.Server.{Host}
use medb.Server.Roles.{valid_role, valid_label}
use medb.Server.Auth.{
  User, Token, AuthStore, user_collection, token_collection, get_user, get_token,
  parse_utc_timestamp, valid_user_record, valid_token_record,
}
use medb.Server.Reserved.{set_doc-other}

-- A user whose fields are what they should be, but for the order of the two times.
abbrev pub IsUserForm : Host → User → Type 0
IsUserForm h user =
    (valid_label h user.user_name ≡ true)
    × (valid_role user.role ≡ true)
    × (is_some (parse_utc_timestamp h user.created_at) ≡ true)
    × (is_some (parse_utc_timestamp h user.updated_at) ≡ true)

pub valid_user_record-IsUserForm :
    (h : Host) (id : Bytes) (user : User) → valid_user_record h id user ≡ true → IsUserForm h user
unfolding valid_user_record
valid_user_record-IsUserForm h id user e = (ground arith, ground arith, ground arith, ground arith)

-- Records made of valid UTF-8 come back from their JSON.
pub record RecordLaws (h : Host) (a : AuthStore) : Type 0 where
  pub state_back :
      (raw : Bytes)
      → a.state.marshal (record { version = pos 1; auth_initialized = true }) ≡ some raw
      → a.state.unmarshal raw ≡ some (record { version = pos 1; auth_initialized = true })
  pub user_back :
      (user : User) (raw : Bytes)
      → IsUserForm h user
      → a.users.marshal user ≡ some raw
      → a.users.unmarshal raw ≡ some user
  pub token_back :
      (id : Bytes) (token : Token) (raw : Bytes)
      → valid_token_record h id token ≡ true
      → a.tokens.marshal token ≡ some raw
      → a.tokens.unmarshal raw ≡ some token

module _ {ℓ} {T : Type ℓ} (t : Typed T) (c : Codec) (name : Bytes) where
  -- What is read of a collection after a `Set` in it.
  pub get-set_doc :
      (id : Bytes) (doc : T) (db : Db) (commit : ℕ) (id' : Bytes)
      → ((raw : Bytes) → t.marshal doc ≡ some raw → t.unmarshal raw ≡ some doc)
      → bytes_eq name name ≡ true
      → (set_doc t name c id doc db).0 ≡ ok commit
      → get t name id' (set_doc t name c id doc db).1
        ≡ (if bytes_eq id id' then ok doc else get t name id' db)
  unfolding get
  get-set_doc id doc db commit id' back same e =
      let (raw, enc, _, found) = set_doc-read t c name id doc db commit name id' e in
      let dec = back raw enc in rw found (ground arith)

  -- What an accepted `Update` does, in terms of the documents.
  pub get-update_doc :
      (fn : T → Option (Result T)) (id : Bytes) (db : Db) (commit : ℕ)
      → ((v v' : T) (raw : Bytes)
          → fn v ≡ some (ok v')
          → t.marshal v' ≡ some raw
          → t.unmarshal raw ≡ some v')
      → bytes_eq name name ≡ true
      → (update_doc t name c id fn db).0 ≡ some (ok commit)
      → (v : T) × (v' : T) × (get t name id db ≡ ok v)
        × (fn v ≡ some (ok v'))
        × ((id' : Bytes)
            → get t name id' (update_doc t name c id fn db).1
              ≡ (if bytes_eq id id' then ok v' else get t name id' db))
  unfolding get
  get-update_doc fn id db commit back same e =
      let (raw, v, v', out, before, dec, called, enc, _, _) =
        update_doc-read t c name fn id db commit name id e in
      (
        v,
        v',
        rw (before, dec),
        called,
        λ id'.
            let (raw2, w, w', out2, before2, dec2, called2, enc2, _, found) =
              update_doc-read t c name fn id db commit name id' e in
            let dec' = back w w' out2 called2 enc2 in
            let same_doc : v' ≡ w' = ground arith in rw (found, same_doc) (ground arith),
      )

module _ {ℓ κ} {T : Type ℓ} {U : Type κ} (t : Typed T) (u : Typed U) (c : Codec) where
  -- What is read of another collection.
  pub get-set_doc_other :
      (name id : Bytes) (doc : T) (db : Db) (coll id' : Bytes)
      → bytes_eq name coll ≡ false
      → get u coll id' (set_doc t name c id doc db).1 ≡ get u coll id' db
  unfolding get
  get-set_doc_other name id doc db coll id' ne = rw (set_doc-other t c name id doc db coll id' ne)

  pub get-update_doc_other :
      (name : Bytes) (fn : T → Option (Result T)) (id : Bytes) (db : Db) (commit : ℕ)
      (coll id' : Bytes)
      → bytes_eq name coll ≡ false
      → (update_doc t name c id fn db).0 ≡ some (ok commit)
      → get u coll id' (update_doc t name c id fn db).1 ≡ get u coll id' db
  unfolding get
  get-update_doc_other name fn id db commit coll id' ne e =
      let (raw, v, v', out, before, dec, called, enc, _, found) =
        update_doc-read t c name fn id db commit coll id' e in
      let same : read coll id' (update_doc t name c id fn db).1 ≡ read coll id' db =
        found ∙ ground arith in
      rw same

pub users_apart : bytes_eq user_collection token_collection ≡ false
unfolding bytes_eq
users_apart = refl

pub tokens_apart : bytes_eq token_collection user_collection ≡ false
unfolding bytes_eq
tokens_apart = refl

module _ {h : Host} {a : AuthStore} (laws : RecordLaws h a) (c : Codec) (db : Db) (commit : ℕ) where
  -- A user that was written is read as it is, and no other user or token has changed.
  pub set_user_lem :
      (id : Bytes) (user : User)
      → IsUserForm h user
      → (set_doc a.users user_collection c id user db).0 ≡ ok commit
      → ((id' : Bytes)
          → get_user a id' (set_doc a.users user_collection c id user db).1
            ≡ (if bytes_eq id id' then ok user else get_user a id' db))
        × ((tid : Bytes)
            → get_token a tid (set_doc a.users user_collection c id user db).1 ≡ get_token a tid db)
  unfolding get_user get_token
  set_user_lem id user form e = (
    λ id'.
        get-set_doc a.users c user_collection id user db commit id'
          (λ raw enc. laws.user_back user raw form enc) (bytes_eq_refl user_collection) e,
    λ tid.
        get-set_doc_other a.users a.tokens c user_collection id user db token_collection tid
          users_apart,
  )

  pub set_token_lem :
      (tid : Bytes) (token : Token)
      → valid_token_record h tid token ≡ true
      → (set_doc a.tokens token_collection c tid token db).0 ≡ ok commit
      → ((id : Bytes)
          → get_user a id (set_doc a.tokens token_collection c tid token db).1 ≡ get_user a id db)
        × ((tid' : Bytes)
            → get_token a tid' (set_doc a.tokens token_collection c tid token db).1
              ≡ (if bytes_eq tid tid' then ok token else get_token a tid' db))
  unfolding get_user get_token
  set_token_lem tid token valid e = (
    λ id.
        get-set_doc_other a.tokens a.users c token_collection tid token db user_collection id
          tokens_apart,
    λ tid'.
        get-set_doc a.tokens c token_collection tid token db commit tid'
          (λ raw enc. laws.token_back tid token raw valid enc) (bytes_eq_refl token_collection) e,
  )
