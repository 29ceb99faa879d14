-- ===== src/Server/Accounts/Updates.antt =====
-- What updating a user does: `handleUserUpdate` of cmd/medb/handlers.go.
use medb.Base.{
  ◌≡◌, ◌≢◌, refl, ap, subst, ◌∙◌, ◌≤◌, ◌<◌, inl, inr, ℕ, Bool, true, false, ◌&&◌, not, is_some,
  Option, none, some, List, [], ◌∷◌, arith, Bytes, bytes, bytes_eq, bytes_eq_refl, if◌then◌else◌,
}
use medb.Result.{Result, ok, err}
use medb.Codec.{Codec}
use medb.Db.{Db}
use medb.Collection.{update_doc}
use medb.Server.{Host}
use medb.Server.Roles.{Role, valid_role}
use medb.Server.Auth.{
  User, Token, AuthStore, user_collection, token_collection, get_user, get_token,
  parse_utc_timestamp, valid_user_record, authenticate,
}
use medb.Server.Fields.{Checked-cases, good, Fields, check_fields, optional_bool_field}
use medb.Server.Fresh.{HostLaws}
use medb.Server.Handlers.{read_object}
use medb.Server.Records.{
  IsUserForm, RecordLaws, valid_user_record-IsUserForm, get-update_doc, get-update_doc_other,
  users_apart,
}
use medb.Server.Accounts.{
  waits_reread, update_answer, new_role_field, id_field, change_user, update_user,
  handle_user_update,
}
use medb.Server.Accounts.Users.{role_field_lem}

update_answer_inv :
    (uid : Bytes) (r : Option (Result ℕ) × Db) (commit : ℕ) (uid' : Bytes)
    → (update_answer uid r).0 ≡ waits_reread commit uid'
    → (r.0 ≡ some (ok commit)) × (uid ≡ uid') × ((update_answer uid r).1 ≡ r.1)
unfolding update_answer
update_answer_inv uid (none, db) commit uid' e = absurd (ground arith)
update_answer_inv uid (some (ok n), db) commit uid' e = (ground arith, ground arith, refl)
update_answer_inv uid (some (err x), db) commit uid' e = absurd (ground arith)

module _ (h : Host) where
  new_role_field_lem :
      (fields : Fields) (role : Role)
      → new_role_field h fields ≡ good (some role)
      → valid_role role ≡ true
  unfolding new_role_field
  new_role_field_lem fields role e = ground (arith, role_field_lem h fields role)

  read_object_good :
      (allowed required : List Bytes) (fields fields' : Fields)
      → read_object allowed required (good fields) ≡ good fields'
      → fields ≡ fields'
  unfolding read_object check_fields
  read_object_good allowed required fields fields' e = ground arith

  update_user_inv :
      (a : AuthStore) (c : Codec) (now : ℕ) (uid : Bytes) (new_role : Option Role)
      (disabled : Option Bool) (db : Db) (commit : ℕ) (uid' : Bytes)
      → (update_user h a c now uid new_role disabled db).0 ≡ waits_reread commit uid'
      → (uid ≡ uid')
        × ((update_doc a.users user_collection c uid (change_user h uid new_role disabled now) db).0
            ≡ some (ok commit))
        × ((update_user h a c now uid new_role disabled db).1
            ≡ (update_doc a.users user_collection c uid
                (change_user h uid new_role disabled now)
                db).1)
  unfolding update_user
  update_user_inv a c now uid new_role disabled db commit uid' e =
      let r =
        update_doc a.users user_collection c uid (change_user h uid new_role disabled now) db in
      let (done, same, db') = update_answer_inv uid r commit uid' e in (same, done, db')

  -- An accepted request to change a user, in its parts.
  user_update_inv :
      (a : AuthStore) (c : Codec) (now : ℕ) (fields : Fields) (db : Db) (commit : ℕ) (uid : Bytes)
      → (handle_user_update h a c now (good fields) db).0 ≡ waits_reread commit uid
      → (new_role : Option Role) × (disabled : Option Bool) × (new_role_field h fields
          ≡ good new_role)
        × (optional_bool_field h fields (bytes "disabled") ≡ good disabled)
        × ((update_user h a c now uid new_role disabled db).0 ≡ waits_reread commit uid)
        × ((handle_user_update h a c now (good fields) db).1
            ≡ (update_user h a c now uid new_role disabled db).1)
  unfolding handle_user_update
  user_update_inv a c now fields db commit uid e =
      let all = bytes "user_id" ∷ (bytes "role" ∷ (bytes "disabled" ∷ [])) in
      elim (Checked-cases (read_object all (bytes "user_id" ∷ []) (good fields))) [
        | inr (f, e1) ↦ absurd (ground arith)
        | inl (fields', e1) ↦
            let same = read_object_good all (bytes "user_id" ∷ []) fields fields' e1 in
            elim (Checked-cases (id_field h fields' (bytes "user_id") 32)) [
              | inr (f, e2) ↦ absurd (ground arith)
              | inl (uid', e2) ↦ elim (Checked-cases (new_role_field h fields')) [
                | inr (f, e3) ↦ absurd (ground arith)
                | inl (new_role, e3) ↦
                    elim (Checked-cases (optional_bool_field h fields' (bytes "disabled"))) [
                      | inr (f, e4) ↦ absurd (ground arith)
                      | inl (disabled, e4) ↦
                          let some_change : (not (is_some new_role) && not (is_some disabled))
                              ≡ false =
                            ground arith in
                          let made : (update_user h a c now uid' new_role disabled db).0
                              ≡ waits_reread commit uid =
                            ground arith in
                          let (ids, _, _) =
                            update_user_inv a c now uid' new_role disabled db commit uid made in
                          (
                            new_role,
                            disabled,
                            rw same e3,
                            rw same e4,
                            subst
                                (λ i.
                                  (update_user h a c now i new_role disabled db).0
                                  ≡ waits_reread commit uid)
                                ids made,
                            rw (handle_user_update, e1, e2, e3, e4, some_change, ids),
                          )
                    ]
              ]
            ]
      ]

  abbrev pub changed : Option Role → Option Bool → Bytes → User → User
  changed new_role disabled time user = record user {
    role = elim new_role [ none ↦ user.role | some role ↦ role ];
    disabled = elim disabled [ none ↦ user.disabled | some d ↦ d ];
    updated_at = time;
  }

  change_user_inv :
      (uid : Bytes) (new_role : Option Role) (disabled : Option Bool) (now : ℕ) (user user' : User)
      → change_user h uid new_role disabled now user ≡ some (ok user')
      → (valid_user_record h uid user ≡ true)
        × (changed new_role disabled (h.format_time now) user ≡ user')
  unfolding change_user
  change_user_inv uid new_role disabled now user user' e = (ground arith, ground arith)

  module _ {a : AuthStore} {last : ℕ} (laws : HostLaws h last) (json : RecordLaws h a) where
    changed-IsUserForm :
        (uid : Bytes) (new_role : Option Role) (disabled : Option Bool) (now : ℕ) (user : User)
        → now ≤ last
        → ((role : Role) → new_role ≡ some role → valid_role role ≡ true)
        → valid_user_record h uid user ≡ true
        → IsUserForm h (changed new_role disabled (h.format_time now) user)
    changed-IsUserForm uid none disabled now user early roles valid =
        let (label, role, created, _) = valid_user_record-IsUserForm h uid user valid in
        let time = laws.time_back now early in (label, role, created, ground arith)
    changed-IsUserForm uid (some r) disabled now user early roles valid =
        let (label, role, created, _) = valid_user_record-IsUserForm h uid user valid in
        let time = laws.time_back now early in (label, roles r refl, created, ground arith)

    -- A user whose update was accepted, at a time whose text is read back: a valid record was stored
    -- under that id. Its role is the one of the request, if there is one, and so whether it is
    -- disabled; its name and the time of its creation stay, and no other user and no token changes.
    pub handle_user_update_lem :
        (c : Codec) (now : ℕ) (fields : Fields) (db : Db) (commit : ℕ) (uid : Bytes)
        → now ≤ last
        → (handle_user_update h a c now (good fields) db).0 ≡ waits_reread commit uid
        → (new_role : Option Role) × (disabled : Option Bool) × (user : User) × (new_role_field h
              fields
            ≡ good new_role)
          × (optional_bool_field h fields (bytes "disabled") ≡ good disabled)
          × (get_user a uid db ≡ ok user)
          × (valid_user_record h uid user ≡ true)
          × ((id : Bytes)
              → get_user a id (handle_user_update h a c now (good fields) db).1 ≡ (
                  if bytes_eq uid id
                  then ok (changed new_role disabled (h.format_time now) user)
                  else get_user a id db))
          × ((tid : Bytes)
              → get_token a tid (handle_user_update h a c now (good fields) db).1
                ≡ get_token a tid db)
    handle_user_update_lem c now fields db commit uid early e =
        let (new_role, disabled, e1, e2, made, db') =
          user_update_inv a c now fields db commit uid e in
        let (_, done, db'') = update_user_inv a c now uid new_role disabled db commit uid made in
        let fn = change_user h uid new_role disabled now in
        let back : (v v' : User) (raw : Bytes)
            → fn v ≡ some (ok v')
            → a.users.marshal v' ≡ some raw
            → a.users.unmarshal raw ≡ some v' =
          λ v v' raw called enc.
            (let (valid, same) = change_user_inv uid new_role disabled now v v' called in
              json.user_back v' raw
                (subst (IsUserForm h) same (
                  changed-IsUserForm uid new_role disabled now v early
                    (λ r is_new. new_role_field_lem fields r (e1 ∙ ap good is_new)) valid))
                enc) in
        let (v, v', found, called, users) =
          get-update_doc a.users c user_collection fn uid db commit back
            (bytes_eq_refl user_collection) done in
        let (valid, same) = change_user_inv uid new_role disabled now v v' called in
        (
          new_role,
          disabled,
          v,
          e1,
          e2,
          unfold get_user in found,
          valid,
          λ id. unfold get_user in rw (db', db'', same) (users id),
          λ tid.
              unfold get_token in
              rw (db', db'')
                (get-update_doc_other a.users a.tokens c user_collection fn uid db commit
                  token_collection tid users_apart done),
        )

    -- Once an update that disables a user is accepted, every token of that user is refused, at any
    -- time.
    pub handle_user_update_disables :
        (c : Codec) (now : ℕ) (fields : Fields) (db : Db) (commit : ℕ) (uid token : Bytes)
        (rec : Token) (later : ℕ)
        → now ≤ last
        → (handle_user_update h a c now (good fields) db).0 ≡ waits_reread commit uid
        → optional_bool_field h fields (bytes "disabled") ≡ good (some true)
        → get_token a (h.digest token) db ≡ ok rec
        → rec.user_id ≡ uid
        → authenticate h a token later (handle_user_update h a c now (good fields) db).1 ≡ none
    unfolding authenticate
    handle_user_update_disables c now fields db commit uid token rec later early e off held owner =
        let (new_role, disabled, user, _, e2, _, _, users, tokens) =
          handle_user_update_lem c now fields db commit uid early e in
        let same_token = tokens (h.digest token) in
        let same_user = users uid in ground (arith, bytes_eq_refl uid)

    -- An update is stamped with the clock. Where the clock is before the time at which the user was
    -- created, the record that is stored is one that the server itself refuses: every token of the
    -- user is refused from then on, though it is not disabled, and so is every later update.
    pub handle_user_update_early :
        (c : Codec) (now : ℕ) (fields : Fields) (db : Db) (commit : ℕ) (uid : Bytes) (user : User)
        (created : ℕ)
        → now ≤ last
        → (handle_user_update h a c now (good fields) db).0 ≡ waits_reread commit uid
        → get_user a uid db ≡ ok user
        → parse_utc_timestamp h user.created_at ≡ some created
        → now < created
        → let db' = (handle_user_update h a c now (good fields) db).1 in
          ((token : Bytes) (rec : Token) (later : ℕ)
            → get_token a (h.digest token) db ≡ ok rec
            → rec.user_id ≡ uid
            → authenticate h a token later db' ≡ none)
          × ((later : ℕ) (fields' : Fields) (commit' : ℕ)
              → later ≤ last
              → (handle_user_update h a c later (good fields') db').0 ≢ waits_reread commit' uid)
    handle_user_update_early c now fields db commit uid user created early e found made before =
        let (new_role, disabled, user', _, _, found', _, users, tokens) =
          handle_user_update_lem c now fields db commit uid early e in
        let user'' = changed new_role disabled (h.format_time now) user' in
        let same_user : get_user a uid (handle_user_update h a c now (good fields) db).1
            ≡ ok user'' =
          users uid ∙ rw (bytes_eq_refl uid) in
        let time = laws.time_back now early in
        let bad : valid_user_record h uid user'' ≡ false =
          unfold valid_user_record in ground arith in
        (
          λ token rec later held owner.
              let same_token = tokens (h.digest token) in unfold authenticate in ground arith,
          λ later fields' commit' early' again.
              let (_, _, v, _, _, found'', valid, _, _) =
                handle_user_update_lem c later fields'
                  (handle_user_update h a c now (good fields) db).1 commit' uid early' again in
              ground arith,
        )
