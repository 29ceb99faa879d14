-- ===== src/Server/Accounts/Tokens.antt =====
-- What a new token is good for: `handleTokenCreate` of cmd/medb/handlers.go.
use medb.Base.{
  ◌≡◌, refl, ap, sym, ◌≤◌, inl, inr, ℕ, true, false, Option, Option-cases, none, some, [], ◌∷◌,
  arith, ltb, All, Bytes, bytes, bytes_eq, bytes_eq_refl, if◌then◌else◌,
}
use medb.Result.{Result, ok}
use medb.Codec.{Codec}
use medb.Db.{Db}
use medb.Collection.{set_doc, has}
use medb.Server.{Host}
use medb.Server.Roles.{valid_hex_id, valid_label}
use medb.Server.Auth.{
  User, Token, AuthStore, token_collection, get_user, get_token, parse_utc_timestamp,
  valid_user_record, valid_token_record, valid_expiry, is_live, valid_token, authenticate,
}
use medb.Server.Fields.{Checked, Checked-cases, good, Fields, optional_string_field}
use medb.Server.Fresh.{Draws, IsDraw, Drawn-cases, HostLaws, unique_token, unique_token_lem}
use medb.Server.Handlers.{read_object}
use medb.Server.Records.{RecordLaws, set_token_lem}
use medb.Server.Accounts.{
  TokenView, view_token, Answer, waits_then, created_token, write_answer, label_field, id_field,
  stored_user, expiry_field, create_token, handle_token_create,
}
use medb.Server.Accounts.Users.{write_answer_inv, label_field_lem}

module _ (h : Host) where
  id_field_lem :
      (fields : Fields) (name id : Bytes) (size : ℕ)
      → id_field h fields name size ≡ good id
      → valid_hex_id id size ≡ true
  unfolding id_field
  id_field_lem fields name id size e = ground arith

  stored_user_lem :
      (a : AuthStore) (uid : Bytes) (db : Db) (user : User)
      → stored_user h a uid db ≡ good user
      → (get_user a uid db ≡ ok user) × (valid_user_record h uid user ≡ true)
  unfolding stored_user
  stored_user_lem a uid db user e = (ground arith, ground arith)

  -- An accepted request for a token, in its parts.
  token_create_inv :
      (a : AuthStore) (c : Codec) (draws : Draws) (created : ℕ) (body : Checked Fields) (db : Db)
      (commit : ℕ) (token : Bytes) (v : TokenView)
      → (handle_token_create h a c draws created body db).0
        ≡ waits_then commit (created_token token v)
      → (fields : Fields) × (uid : Bytes) × (label : Bytes) × (user : User) × (expires_at : Option
          Bytes)
        × (valid_hex_id uid 32 ≡ true)
        × (valid_label h label ≡ true)
        × (stored_user h a uid db ≡ good user)
        × (user.disabled ≡ false)
        × (expiry_field h fields created ≡ good expires_at)
        × ((create_token h a c draws created uid label expires_at db).0
            ≡ waits_then commit (created_token token v))
        × ((handle_token_create h a c draws created body db).1
            ≡ (create_token h a c draws created uid label expires_at db).1)
  unfolding handle_token_create
  token_create_inv a c draws created body db commit token v e =
      let required = bytes "user_id" ∷ (bytes "label" ∷ []) in
      let all = bytes "user_id" ∷ (bytes "label" ∷ (bytes "expires_at" ∷ [])) in
      elim (Checked-cases (read_object all required body)) [
        | inr (f, e1) ↦ absurd (ground arith)
        | inl (fields, e1) ↦ elim (Checked-cases (id_field h fields (bytes "user_id") 32)) [
          | inr (f, e2) ↦ absurd (ground arith)
          | inl (uid, e2) ↦ elim (Checked-cases (label_field h fields (bytes "label"))) [
            | inr (f, e3) ↦ absurd (ground arith)
            | inl (label, e3) ↦ elim (Checked-cases (stored_user h a uid db)) [
              | inr (f, e4) ↦ absurd (ground arith)
              | inl (user, e4) ↦ elim (Checked-cases (expiry_field h fields created)) [
                | inr (f, e5) ↦ absurd (ground arith)
                | inl (expires_at, e5) ↦
                    let live : user.disabled ≡ false = ground arith in
                    (
                      fields,
                      uid,
                      label,
                      user,
                      expires_at,
                      id_field_lem fields (bytes "user_id") uid 32 e2,
                      label_field_lem h fields (bytes "label") label e3,
                      e4,
                      live,
                      e5,
                      ground arith,
                      ground arith,
                    )
              ]
            ]
          ]
        ]
      ]

  expiry_field_inv :
      (fields : Fields) (created : ℕ) (value : Bytes)
      → expiry_field h fields created ≡ good (some value)
      → (s : Bytes) × (t : ℕ) × (parse_utc_timestamp h s ≡ some t)
        × (ltb created t ≡ true)
        × (value ≡ h.format_time t)
  unfolding expiry_field
  expiry_field_inv fields created value e =
      elim (Checked-cases (optional_string_field h fields (bytes "expires_at"))) [
        | inr (f, e1) ↦ absurd (ground arith)
        | inl (none, e1) ↦ absurd (ground arith)
        | inl (some s, e1) ↦ elim (Option-cases (parse_utc_timestamp h s)) [
          | inl e2 ↦ absurd (ground arith)
          | inr (t, e2) ↦ (s, t, e2, ground arith, ground arith)
        ]
      ]

  module _ {a : AuthStore} {last : ℕ} (laws : HostLaws h last) (json : RecordLaws h a) where
    expiry_field_lem :
        (fields : Fields) (created : ℕ) (expires_at : Option Bytes)
        → expiry_field h fields created ≡ good expires_at
        → valid_expiry h created expires_at ≡ true
    unfolding valid_expiry
    expiry_field_lem fields created none e = refl
    expiry_field_lem fields created (some value) e =
        let (s, t, parsed, later, same) = expiry_field_inv fields created value e in
        let back = laws.parsed_back s t parsed in ground arith

    create_token_lem :
        (c : Codec) (draws : Draws) (created : ℕ) (uid label : Bytes) (expires_at : Option Bytes)
        (db : Db) (commit : ℕ) (token : Bytes) (v : TokenView)
        → All (IsDraw 32) draws
        → created ≤ last
        → valid_hex_id uid 32 ≡ true
        → valid_label h label ≡ true
        → valid_expiry h created expires_at ≡ true
        → (create_token h a c draws created uid label expires_at db).0
          ≡ waits_then commit (created_token token v)
        → (rec : Token) × (v ≡ view_token (h.digest token) rec)
          × (rec.user_id ≡ uid)
          × (valid_token h token ≡ true)
          × (has token_collection (h.digest token) db ≡ false)
          × (valid_token_record h (h.digest token) rec ≡ true)
          × ((id : Bytes)
              → get_user a id (create_token h a c draws created uid label expires_at db).1
                ≡ get_user a id db)
          × ((tid : Bytes)
              → get_token a tid (create_token h a c draws created uid label expires_at db).1
                ≡ (if bytes_eq (h.digest token) tid then ok rec else get_token a tid db))
    unfolding create_token
    create_token_lem c draws created uid label expires_at db commit token v drawn_bytes early hex
          labelled lasting e =
        elim (Drawn-cases (unique_token h draws db)) [
          | inr (inl e1) ↦ absurd (ground arith)
          | inr (inr e1) ↦ absurd (ground arith)
          | inl ((token', tid), e1) ↦
              let (form, id_same, tid_hex, free) =
                unique_token_lem h laws draws db token' tid drawn_bytes e1 in
              let time = laws.time_back created early in
              let rec : Token = record {
                user_id = uid;
                label = label;
                created_at = h.format_time created;
                expires_at = expires_at;
              } in
              let set : Result ℕ × Db = set_doc a.tokens token_collection c tid rec db in
              let answer : Answer = created_token token' (view_token tid rec) in
              let made : (write_answer answer set).0 ≡ waits_then commit (created_token token v) =
                ground arith in
              let (done, same, db') =
                write_answer_inv answer set commit (created_token token v) made in
              let valid : valid_token_record h tid rec ≡ true =
                unfold valid_token_record in ground arith in
              let (users, tokens) = set_token_lem json c db commit tid rec valid done in
              let token_same : token' ≡ token = ground arith in
              let digest_same : tid ≡ h.digest token = rw id_same (ap h.digest token_same) in
              (
                rec,
                rw (sym digest_same) (ground arith),
                refl,
                rw (sym token_same) form,
                rw (sym digest_same) free,
                rw (sym digest_same) valid,
                λ id. rw (create_token, e1, db') (users id),
                λ tid'. rw (create_token, e1, db', sym digest_same) (tokens tid'),
              )
        ]

    -- A token whose creation was accepted, at a time whose text is read back: its user was stored,
    -- valid and not disabled, and no token had its digest, under which its record is stored as the
    -- answer says. At any time before it expires it is accepted, with its user's role. Every user
    -- and every other token is as it was.
    pub handle_token_create_lem :
        (c : Codec) (draws : Draws) (created : ℕ) (body : Checked Fields) (db : Db) (commit : ℕ)
        (token : Bytes) (v : TokenView)
        → All (IsDraw 32) draws
        → created ≤ last
        → (handle_token_create h a c draws created body db).0
          ≡ waits_then commit (created_token token v)
        → (user : User) × (rec : Token) × (v ≡ view_token (h.digest token) rec)
          × (get_user a v.user_id db ≡ ok user)
          × (user.disabled ≡ false)
          × (has token_collection (h.digest token) db ≡ false)
          × ((now : ℕ)
              → is_live h now v.expires_at ≡ true
              → authenticate h a token now (handle_token_create h a c draws created body db).1
                ≡ some user.role)
          × ((id : Bytes)
              → get_user a id (handle_token_create h a c draws created body db).1
                ≡ get_user a id db)
          × ((tid : Bytes)
              → get_token a tid (handle_token_create h a c draws created body db).1
                ≡ (if bytes_eq (h.digest token) tid then ok rec else get_token a tid db))
    handle_token_create_lem c draws created body db commit token v drawn_bytes early e =
        let (fields, uid, label, user, expires_at, hex, labelled, e4, live, e5, made, db') =
          token_create_inv a c draws created body db commit token v e in
        let (found, valid_user) = stored_user_lem a uid db user e4 in
        let (rec, view, owner, form, free, valid, users, tokens) =
          create_token_lem c draws created uid label expires_at db commit token v drawn_bytes early
            hex labelled (expiry_field_lem fields created expires_at e5) made in
        let same_user = users uid in
        let same_token = tokens (h.digest token) in
        let v_user : v.user_id ≡ uid = unfold view_token in ground arith in
        let v_expiry : v.expires_at ≡ rec.expires_at = unfold view_token in ground arith in
        (
          user,
          rec,
          view,
          rw v_user found,
          live,
          free,
          λ now lasting.
              rw db' (unfold authenticate in ground (arith, bytes_eq_refl (h.digest token))),
          λ id. rw db' (users id),
          λ tid. rw db' (tokens tid),
        )
