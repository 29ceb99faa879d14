-- ===== src/Server/Accounts.antt =====
-- The endpoints of users and tokens: cmd/medb/handlers.go. A handler that writes ends at
-- `commit.wait()`; `finish_write` and `finish_update` are what follows it. The clock is the argument
-- `now`, and what rand.Read gives is `draws`.
pub mod Users
pub mod Updates
pub mod Tokens
mod Tests
use medb.Base.{
  ℕ, Bool, true, false, ◌&&◌, ◌||◌, not, is_some, Option, none, some, List, [], ◌∷◌, ltb, Bytes,
  bytes, bytes_eq, lookup, if◌then◌else◌,
}
use medb.Result.{Error, Result, ok, err, not_found, callback}
use medb.Codec.{Codec}
use medb.Db.{Db}
use medb.Collection.{Seq, seq_end, seq_panic, seq_next, set_doc, delete_doc, update_doc, all_docs}
use medb.Server.{Host}
use medb.Server.Roles.{
  Role, role_reader, role_writer, role_admin, role_other, valid_role, valid_hex_id, valid_label,
}
use medb.Server.Auth.{
  User, Token, AuthStore, user_collection, token_collection, get_user, parse_utc_timestamp,
  valid_user_record, valid_token_record,
}
use medb.Server.Fields.{
  ApiFailure, fail_not_found, fail_internal, fail_invalid_request, fail_user_disabled, Checked,
  good, fail, Fields, string_field, optional_string_field, optional_bool_field,
}
use medb.Server.Fresh.{Draws, drawn, draw_failed, drawing, unique_user_id, unique_token}
use medb.Server.Handlers.{mutation_error, read_object}

pub record UserView : Type 0 where
  pub id : Bytes
  pub name : Bytes
  pub role : Role
  pub disabled : Bool
  pub created_at : Bytes
  pub updated_at : Bytes

pub record TokenView : Type 0 where
  pub token_id : Bytes
  pub user_id : Bytes
  pub label : Bytes
  pub created_at : Bytes
  pub expires_at : Option Bytes

unfoldable pub view_user : Bytes → User → UserView
view_user id user = record {
  id = id;
  name = user.user_name;
  role = user.role;
  disabled = user.disabled;
  created_at = user.created_at;
  updated_at = user.updated_at;
}

unfoldable pub view_token : Bytes → Token → TokenView
view_token id token = record {
  token_id = id;
  user_id = token.user_id;
  label = token.label;
  created_at = token.created_at;
  expires_at = token.expires_at;
}

-- What a handler does at last. `write_failed` is a call of `mutationError`, `panics` a panic that
-- `ServeHTTP` recovers from, `draws_on` a loop that still draws; `waits_then` and `waits_reread` are
-- handlers at `commit.wait()`, with what they do when the commit succeeds.
pub data Answer : Type 0 where
  refused : ApiFailure → Answer
  write_failed : Error → Answer
  panics draws_on no_content : Answer
  user_list : List UserView → Answer
  token_list : List TokenView → Answer
  created_user updated_user : UserView → Answer
  created_token : Bytes → TokenView → Answer
  waits_then : ℕ → Answer → Answer
  waits_reread : ℕ → Bytes → Answer

-- The loops of `handleUsers` and `handleTokens`.
pub data Listing {ℓ} (A : Type ℓ) : Type ℓ where
  listed : List A → Listing A
  malformed panicked : Listing A

abbrev listed_cons {ℓ} : {A : Type ℓ} → A → Listing A → Listing A
listed_cons v (listed vs) = listed (v ∷ vs)
listed_cons v malformed = malformed
listed_cons v panicked = panicked

-- `role(value)`
unfoldable pub to_role : Bytes → Role
to_role value =
    if bytes_eq value (bytes "reader")
    then role_reader
    else if bytes_eq value (bytes "writer")
    then role_writer
    else if bytes_eq value (bytes "admin")
    then role_admin
    else role_other value

-- After `Set` or `Delete` up to `commit.wait()`
unfoldable pub write_answer : Answer → Result ℕ × Db → Answer × Db
write_answer answer (ok commit, db) = (waits_then commit answer, db)
write_answer answer (err e, db) = (write_failed e, db)

unfoldable pub finish_write : Option Error → Answer → Answer
finish_write none answer = answer
finish_write (some e) answer = write_failed e

-- The switch after `Update`, up to `commit.wait()`
unfoldable pub update_answer : Bytes → Option (Result ℕ) × Db → Answer × Db
update_answer uid (none, db) = (panics, db)
update_answer uid (some (ok commit), db) = (waits_reread commit uid, db)
update_answer uid (some (err not_found), db) = (refused fail_not_found, db)
update_answer uid (some (err (callback _)), db) = (refused fail_internal, db)
update_answer uid (some (err e), db) = (write_failed e, db)

unfoldable pub finish_update : AuthStore → Option Error → Bytes → Db → Answer
finish_update a (some e) uid db = write_failed e
finish_update a none uid db = elim (get_user a uid db) [
  | err _ ↦ refused fail_internal
  | ok user ↦ updated_user (view_user uid user)
]

module _ (h : Host) where
  -- A field that is an id, a label, a role; whatever is wrong with it, the request is invalid.
  unfoldable pub id_field : Fields → Bytes → ℕ → Checked Bytes
  id_field fields name size = elim (string_field h fields name) [
    | fail _ ↦ fail fail_invalid_request
    | good id ↦ if not (valid_hex_id id size) then fail fail_invalid_request else good id
  ]

  unfoldable pub label_field : Fields → Bytes → Checked Bytes
  label_field fields name = elim (string_field h fields name) [
    | fail _ ↦ fail fail_invalid_request
    | good value ↦ if not (valid_label h value) then fail fail_invalid_request else good value
  ]

  unfoldable pub role_field : Fields → Checked Role
  role_field fields = elim (string_field h fields (bytes "role")) [
    | fail _ ↦ fail fail_invalid_request
    | good value ↦
        if not (valid_role (to_role value)) then fail fail_invalid_request else good (to_role value)
  ]

  unfoldable pub new_role_field : Fields → Checked (Option Role)
  unfolding role_field
  new_role_field fields = elim (lookup (bytes "role") fields) [
    | none ↦ good none
    | some _ ↦ elim (role_field fields) [ fail f ↦ fail f | good role ↦ good (some role) ]
  ]

  -- The field `expires_at` of a token that is made at this instant.
  unfoldable pub expiry_field : Fields → ℕ → Checked (Option Bytes)
  expiry_field fields created = elim (optional_string_field h fields (bytes "expires_at")) [
    | fail _ ↦ fail fail_invalid_request
    | good none ↦ good none
    | good (some value) ↦ elim (parse_utc_timestamp h value) [
      | none ↦ fail fail_invalid_request
      | some expires ↦
          if not (ltb created expires)
          then fail fail_invalid_request
          else good (some (h.format_time expires))
    ]
  ]

  unfoldable pub user_views : Seq User → Listing UserView
  user_views seq_end = listed []
  user_views (seq_panic id) = panicked
  user_views (seq_next id user rest) =
      let more = user_views rest in
      if not (valid_user_record h id user) then malformed else listed_cons (view_user id user) more

  unfoldable pub token_views : Bytes → Seq Token → Listing TokenView
  token_views uid seq_end = listed []
  token_views uid (seq_panic tid) = panicked
  token_views uid (seq_next tid token rest) =
      let more = token_views uid rest in
      if not (valid_token_record h tid token)
      then malformed
      else if bytes_eq token.user_id uid
      then listed_cons (view_token tid token) more
      else more

  -- The function that `handleUserUpdate` passes to `Update`; its error is `errMalformedAuthRecord`.
  unfoldable pub change_user : Bytes → Option Role → Option Bool → ℕ → User → Option (Result User)
  change_user uid new_role disabled now user =
      if not (valid_user_record h uid user)
      then some (err (callback 0))
      else some (
          ok (record user {
            role = elim new_role [ none ↦ user.role | some role ↦ role ];
            disabled = elim disabled [ none ↦ user.disabled | some d ↦ d ];
            updated_at = h.format_time now;
          }))

  module _ (a : AuthStore) where
    unfoldable pub handle_users : Db → Answer
    handle_users db = elim (user_views (all_docs a.users user_collection db)) [
      | listed users ↦ user_list users
      | malformed ↦ refused fail_internal
      | panicked ↦ panics
    ]

    -- The user of a request about tokens.
    unfoldable pub stored_user : Bytes → Db → Checked User
    stored_user uid db = elim (get_user a uid db) [
      | err not_found ↦ fail fail_not_found
      | err _ ↦ fail fail_internal
      | ok user ↦ if not (valid_user_record h uid user) then fail fail_internal else good user
    ]

    unfoldable pub handle_tokens : Checked Fields → Db → Answer
    handle_tokens body db = elim (read_object (bytes "user_id" ∷ []) (bytes "user_id" ∷ []) body) [
      | fail f ↦ refused f
      | good fields ↦ elim (id_field fields (bytes "user_id") 32) [
        | fail f ↦ refused f
        | good uid ↦ elim (stored_user uid db) [
          | fail f ↦ refused f
          | good _ ↦ elim (token_views uid (all_docs a.tokens token_collection db)) [
            | listed tokens ↦ token_list tokens
            | malformed ↦ refused fail_internal
            | panicked ↦ panics
          ]
        ]
      ]
    ]

    -- From the checked fields of `handleUserCreate` on.
    unfoldable pub create_user : Codec → Draws → ℕ → Bytes → Role → Db → Answer × Db
    create_user c draws now name role db = elim (unique_user_id draws db) [
      | drawing ↦ (draws_on, db)
      | draw_failed ↦ (panics, db)
      | drawn id ↦
          let user : User = record {
            user_name = name;
            role = role;
            disabled = false;
            created_at = h.format_time now;
            updated_at = h.format_time now;
          } in
          write_answer (created_user (view_user id user))
            (set_doc a.users user_collection c id user db)
    ]

    unfoldable pub handle_user_create : Codec → Draws → ℕ → Checked Fields → Db → Answer × Db
    handle_user_create c draws now body db =
        let all = bytes "name" ∷ (bytes "role" ∷ []) in
        elim (read_object all all body) [
          | fail f ↦ (refused f, db)
          | good fields ↦ elim (label_field fields (bytes "name")) [
            | fail f ↦ (refused f, db)
            | good name ↦ elim (role_field fields) [
              | fail f ↦ (refused f, db)
              | good role ↦ create_user c draws now name role db
            ]
          ]
        ]

    -- The end of `handleUserUpdate`, from the checked fields on.
    unfoldable pub update_user : Codec → ℕ → Bytes → Option Role → Option Bool → Db → Answer × Db
    update_user c now uid new_role disabled db =
        update_answer uid
          (update_doc a.users user_collection c uid (change_user uid new_role disabled now) db)

    unfoldable pub handle_user_update : Codec → ℕ → Checked Fields → Db → Answer × Db
    handle_user_update c now body db =
        let all = bytes "user_id" ∷ (bytes "role" ∷ (bytes "disabled" ∷ [])) in
        elim (read_object all (bytes "user_id" ∷ []) body) [
          | fail f ↦ (refused f, db)
          | good fields ↦ elim (id_field fields (bytes "user_id") 32) [
            | fail f ↦ (refused f, db)
            | good uid ↦ elim (new_role_field fields) [
              | fail f ↦ (refused f, db)
              | good new_role ↦ elim (optional_bool_field h fields (bytes "disabled")) [
                | fail _ ↦ (refused fail_invalid_request, db)
                | good disabled ↦
                    if not (is_some new_role) && not (is_some disabled)
                    then (refused fail_invalid_request, db)
                    else update_user c now uid new_role disabled db
              ]
            ]
          ]
        ]

    -- The end of `handleTokenCreate`, from the checked fields on.
    unfoldable pub create_token :
        Codec → Draws → ℕ → Bytes → Bytes → Option Bytes → Db → Answer × Db
    create_token c draws created uid label expires_at db = elim (unique_token h draws db) [
      | drawing ↦ (draws_on, db)
      | draw_failed ↦ (refused fail_internal, db)
      | drawn (token, tid) ↦
          let rec : Token = record {
            user_id = uid;
            label = label;
            created_at = h.format_time created;
            expires_at = expires_at;
          } in
          write_answer (created_token token (view_token tid rec))
            (set_doc a.tokens token_collection c tid rec db)
    ]

    unfoldable pub handle_token_create : Codec → Draws → ℕ → Checked Fields → Db → Answer × Db
    handle_token_create c draws created body db =
        let required = bytes "user_id" ∷ (bytes "label" ∷ []) in
        let all = bytes "user_id" ∷ (bytes "label" ∷ (bytes "expires_at" ∷ [])) in
        elim (read_object all required body) [
          | fail f ↦ (refused f, db)
          | good fields ↦ elim (id_field fields (bytes "user_id") 32) [
            | fail f ↦ (refused f, db)
            | good uid ↦ elim (label_field fields (bytes "label")) [
              | fail f ↦ (refused f, db)
              | good label ↦ elim (stored_user uid db) [
                | fail f ↦ (refused f, db)
                | good user ↦
                    if user.disabled
                    then (refused fail_user_disabled, db)
                    else elim (expiry_field fields created) [
                      | fail f ↦ (refused f, db)
                      | good expires_at ↦ create_token c draws created uid label expires_at db
                    ]
              ]
            ]
          ]
        ]

    unfoldable pub handle_token_revoke : Codec → Checked Fields → Db → Answer × Db
    handle_token_revoke c body db =
        elim (read_object (bytes "token_id" ∷ []) (bytes "token_id" ∷ []) body) [
          | fail f ↦ (refused f, db)
          | good fields ↦ elim (id_field fields (bytes "token_id") 64) [
            | fail f ↦ (refused f, db)
            | good tid ↦ write_answer no_content (delete_doc a.tokens token_collection c tid db)
          ]
        ]
