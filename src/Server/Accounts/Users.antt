-- ===== src/Server/Accounts/Users.antt =====
-- What creating and updating a user does: `handleUserCreate` and `handleUserUpdate` of
-- cmd/medb/handlers.go.
use medb.Base.{
  ◌≡◌, refl, ap, ◌∙◌, ◌≤◌, inl, inr, ℕ, true, false, some, [], ◌∷◌, arith, All, Bytes, bytes,
  bytes_eq, if◌then◌else◌,
}
use medb.Result.{Result, ok, err}
use medb.Codec.{Codec}
use medb.Db.{Db}
use medb.Collection.{set_doc, has}
use medb.Server.{Host}
use medb.Server.Roles.{Role, valid_role, valid_hex_id, valid_label}
use medb.Server.Auth.{
  User, AuthStore, user_collection, get_user, get_token, parse_utc_timestamp, valid_user_record,
}
use medb.Server.Fields.{Checked, Checked-cases, good, Fields}
use medb.Server.Fresh.{Draws, IsDraw, Drawn-cases, HostLaws, unique_user_id, unique_user_id_lem}
use medb.Server.Handlers.{read_object}
use medb.Server.Records.{RecordLaws, valid_user_record-IsUserForm, set_user_lem}
use medb.Server.Accounts.{
  UserView, view_user, Answer, waits_then, created_user, write_answer, label_field, role_field,
  create_user, handle_user_create,
}

pub write_answer_inv :
    (answer : Answer) (r : Result ℕ × Db) (commit : ℕ) (answer' : Answer)
    → (write_answer answer r).0 ≡ waits_then commit answer'
    → (r.0 ≡ ok commit) × (answer ≡ answer') × ((write_answer answer r).1 ≡ r.1)
unfolding write_answer
write_answer_inv answer (ok n, db) commit answer' e = (ground arith, ground arith, refl)
write_answer_inv answer (err x, db) commit answer' e = absurd (ground arith)

module _ (h : Host) where
  pub label_field_lem :
      (fields : Fields) (name value : Bytes)
      → label_field h fields name ≡ good value
      → valid_label h value ≡ true
  unfolding label_field
  label_field_lem fields name value e = ground arith

  pub role_field_lem :
      (fields : Fields) (role : Role) → role_field h fields ≡ good role → valid_role role ≡ true
  unfolding role_field
  role_field_lem fields role e = ground arith

  -- An accepted request to create a user, in its parts.
  user_create_inv :
      (a : AuthStore) (c : Codec) (draws : Draws) (now : ℕ) (body : Checked Fields) (db : Db)
      (commit : ℕ) (v : UserView)
      → (handle_user_create h a c draws now body db).0 ≡ waits_then commit (created_user v)
      → (name : Bytes) × (role : Role) × (valid_label h name ≡ true)
        × (valid_role role ≡ true)
        × ((create_user h a c draws now name role db).0 ≡ waits_then commit (created_user v))
        × ((handle_user_create h a c draws now body db).1
            ≡ (create_user h a c draws now name role db).1)
  unfolding handle_user_create
  user_create_inv a c draws now body db commit v e =
      let all = bytes "name" ∷ (bytes "role" ∷ []) in
      elim (Checked-cases (read_object all all body)) [
        | inr (f, e1) ↦ absurd (ground arith)
        | inl (fields, e1) ↦ elim (Checked-cases (label_field h fields (bytes "name"))) [
          | inr (f, e2) ↦ absurd (ground arith)
          | inl (name, e2) ↦ elim (Checked-cases (role_field h fields)) [
            | inr (f, e3) ↦ absurd (ground arith)
            | inl (role, e3) ↦ (
              name,
              role,
              label_field_lem fields (bytes "name") name e2,
              role_field_lem fields role e3,
              ground arith,
              rw (handle_user_create, e1, e2, e3),
            )
          ]
        ]
      ]

  -- A user made at this instant with a valid name and role is a valid record under a valid id.
  pub new_user-valid_user_record :
      (id : Bytes) (user : User) (now : ℕ)
      → valid_hex_id id 32 ≡ true
      → valid_label h user.user_name ≡ true
      → valid_role user.role ≡ true
      → parse_utc_timestamp h user.created_at ≡ some now
      → user.updated_at ≡ user.created_at
      → valid_user_record h id user ≡ true
  unfolding valid_user_record
  new_user-valid_user_record id user now hex label role time same = ground arith

  module _ {a : AuthStore} {last : ℕ} (laws : HostLaws h last) (json : RecordLaws h a) where
    create_user_lem :
        (c : Codec) (draws : Draws) (now : ℕ) (name : Bytes) (role : Role) (db : Db) (commit : ℕ)
        (v : UserView)
        → All (IsDraw 16) draws
        → now ≤ last
        → valid_label h name ≡ true
        → valid_role role ≡ true
        → (create_user h a c draws now name role db).0 ≡ waits_then commit (created_user v)
        → (user : User) × (v ≡ view_user v.id user)
          × (has user_collection v.id db ≡ false)
          × (valid_user_record h v.id user ≡ true)
          × (user.disabled ≡ false)
          × ((id : Bytes)
              → get_user a id (create_user h a c draws now name role db).1
                ≡ (if bytes_eq v.id id then ok user else get_user a id db))
          × ((tid : Bytes)
              → get_token a tid (create_user h a c draws now name role db).1 ≡ get_token a tid db)
    unfolding create_user view_user
    create_user_lem c draws now name role db commit v bytes_drawn early labelled known e =
        elim (Drawn-cases (unique_user_id draws db)) [
          | inr (inl e1) ↦ absurd (ground arith)
          | inr (inr e1) ↦ absurd (ground arith)
          | inl (id, e1) ↦
              let (hex, free) = unique_user_id_lem draws db id bytes_drawn e1 in
              let time = laws.time_back now early in
              let user : User = record {
                user_name = name;
                role = role;
                disabled = false;
                created_at = h.format_time now;
                updated_at = h.format_time now;
              } in
              let set : Result ℕ × Db = set_doc a.users user_collection c id user db in
              let made : (write_answer (created_user (view_user id user)) set).0
                  ≡ waits_then commit (created_user v) =
                ground arith in
              let (done, same, db') =
                write_answer_inv (created_user (view_user id user)) set commit (created_user v)
                  made in
              let valid = new_user-valid_user_record id user now hex labelled known time refl in
              let (users, tokens) =
                set_user_lem json c db commit id user (valid_user_record-IsUserForm h id user valid)
                  done in
              let v_id : v.id ≡ id = ground arith in
              (
                user,
                ground arith,
                rw v_id free,
                rw v_id valid,
                refl,
                λ id'. rw (create_user, e1, v_id, db') (users id'),
                λ tid. rw (create_user, e1, db') (tokens tid),
              )
        ]

    -- A user whose creation was answered with its view, at a time whose text is read back: no user had
    -- its id, it is stored as the view says, valid and not disabled, with a valid role, and every
    -- other user and every token is as it was.
    pub handle_user_create_lem :
        (c : Codec) (draws : Draws) (now : ℕ) (body : Checked Fields) (db : Db) (commit : ℕ)
        (v : UserView)
        → All (IsDraw 16) draws
        → now ≤ last
        → (handle_user_create h a c draws now body db).0 ≡ waits_then commit (created_user v)
        → (user : User) × (v ≡ view_user v.id user)
          × (has user_collection v.id db ≡ false)
          × (valid_user_record h v.id user ≡ true)
          × (user.disabled ≡ false)
          × ((id : Bytes)
              → get_user a id (handle_user_create h a c draws now body db).1
                ≡ (if bytes_eq v.id id then ok user else get_user a id db))
          × ((tid : Bytes)
              → get_token a tid (handle_user_create h a c draws now body db).1 ≡ get_token a tid db)
    handle_user_create_lem c draws now body db commit v bytes_drawn early e =
        let (name, role, labelled, known, made, db') =
          user_create_inv a c draws now body db commit v e in
        let (user, view, free, valid, live, users, tokens) =
          create_user_lem c draws now name role db commit v bytes_drawn early labelled known made in
        (
          user,
          view,
          free,
          valid,
          live,
          λ id. ap (get_user a id) db' ∙ users id,
          λ tid. ap (get_token a tid) db' ∙ tokens tid,
        )
