-- ===== src/Server/Accounts/Tests.antt =====
-- Examples of the endpoints of users and tokens.
use medb.Base.{
  ◌≡◌, ◌≢◌, refl, ◌≤◌, ℕ, zero, suc, true, false, none, some, [], ◌∷◌, ◌++◌, arith, Bytes, bytes,
  bytes_eq, lookup, if◌then◌else◌,
}
use medb.Result.{ok}
use medb.Codec.Sample.{sample_codec}
use medb.Db.{Db, new_db}
use medb.Collection.{has}
use medb.Server.Roles.{role_writer}
use medb.Server.Auth.{
  User, Token, user_collection, token_collection, get_user, get_token, parse_utc_timestamp,
  valid_user_record, is_live, authenticate,
}
use medb.Server.Fields.{good, Fields, optional_bool_field}
use medb.Server.Sample.{
  host, auth_store, host_laws, record_laws, token_id_1, put_user, put_token, take_user, take_token,
  stamp,
}
use medb.Server.Accounts.{
  view_user, view_token, waits_then, waits_reread, created_user, created_token, new_role_field,
  handle_user_create, handle_user_update, handle_token_create,
}
use medb.Server.Accounts.Users.{handle_user_create_lem}
use medb.Server.Accounts.Updates.{handle_user_update_disables, handle_user_update_early}
use medb.Server.Accounts.Tokens.{handle_token_create_lem}
use medb.Server.Handlers.{read_object}
use medb.Server.Fields.{check_fields, string_field, optional_string_field, is_json_null}
use medb.Server.Roles.{valid_label, valid_role, valid_hex_id, all_hex, is_hex_digit}
use medb.Server.Accounts.{
  label_field, role_field, to_role, create_user, write_answer, id_field, update_user, change_user,
  update_answer, stored_user, expiry_field, create_token,
}
use medb.Server.Fresh.{unique_user_id, unique_token, hex_encode, hex_digit_of, new_token}
use medb.Db.{read, write, enqueue, check_doc_size}
use medb.Collection.{get, set_doc, update_doc, update_with}
use medb.Store.{get_doc, docs_of}
use medb.Name.{has_suffix}
use medb.Codec.Sample.{put_record, op_tag, put_field, get_field}
use medb.Server.Sample.{role_tag, tag_role}

abbrev zeros : ℕ → Bytes
zeros zero = []
zeros (suc n) = 0 ∷ zeros n

abbrev secret : Bytes
secret = bytes "medb_" ++ host.encode_base64 (zeros 32)

abbrev uid : Bytes
uid = bytes "00000000000000000000000000000000"

abbrev empty_db : Db
empty_db = new_db 1000 1000 (record { wal = []; files = []; dirs = []; faults = [] })

abbrev create_fields : Fields
create_fields = (bytes "name", bytes "bob") ∷ ((bytes "role", bytes "writer") ∷ [])

abbrev bob : User
bob = record {
  user_name = bytes "bob";
  role = role_writer;
  disabled = false;
  created_at = stamp 5;
  updated_at = stamp 5;
}

created :
    (handle_user_create host auth_store sample_codec
      (some (zeros 16) ∷ [])
      5
      (good create_fields)
      empty_db).0
    ≡ waits_then 0 (created_user (view_user uid bob))
unfolding handle_user_create read_object check_fields bytes_eq lookup string_field is_json_null
    label_field valid_label role_field valid_role to_role create_user unique_user_id has read
    get_doc docs_of hex_encode hex_digit_of write_answer set_doc check_doc_size write enqueue
    put_record op_tag put_user role_tag put_field view_user stamp
created = refl

handle_user_create_lem_example :
    let db' =
      (handle_user_create host auth_store sample_codec
        (some (zeros 16) ∷ [])
        5
        (good create_fields)
        empty_db).1 in
    (user : User) × (view_user uid bob ≡ view_user uid user)
    × (has user_collection uid empty_db ≡ false)
    × (valid_user_record host uid user ≡ true)
    × (user.disabled ≡ false)
    × ((id : Bytes)
        → get_user auth_store id db'
          ≡ (if bytes_eq uid id then ok user else get_user auth_store id empty_db))
    × ((tid : Bytes) → get_token auth_store tid db' ≡ get_token auth_store tid empty_db)
unfolding view_user
handle_user_create_lem_example =
    handle_user_create_lem host host_laws record_laws sample_codec (some (zeros 16) ∷ []) 5
      (good create_fields) empty_db 0 (view_user uid bob) (omega arith) (omega arith) created

-- The user and one of the tokens, stored.
abbrev laptop : Token
laptop = record { user_id = uid; label = bytes "laptop"; created_at = stamp 5; expires_at = none }

abbrev user_db : Db
user_db = record empty_db {
  store = record { colls = (user_collection, (uid, put_user bob) ∷ []) ∷ []; dirty = [] };
}

abbrev token_db : Db
token_db = record empty_db {
  store = record {
    colls =
        (user_collection, (uid, put_user bob) ∷ [])
        ∷ ((token_collection, (token_id_1, put_token laptop) ∷ []) ∷ []);
    dirty = [];
  };
}

abbrev update_fields : Fields
update_fields = (bytes "user_id", uid) ∷ ((bytes "disabled", bytes "true") ∷ [])

updated :
    (handle_user_update host auth_store sample_codec 7 (good update_fields) token_db).0
    ≡ waits_reread 0 uid
unfolding handle_user_update read_object check_fields bytes_eq lookup string_field is_json_null
    id_field new_role_field optional_bool_field update_user update_doc update_with change_user
    update_answer get_doc docs_of take_user get_field tag_role put_user put_field role_tag
    check_doc_size enqueue put_record op_tag valid_user_record valid_hex_id all_hex is_hex_digit
    valid_label valid_role parse_utc_timestamp has_suffix stamp
updated = refl

-- The clock is two ticks before the time of creation.
updated_early :
    (handle_user_update host auth_store sample_codec 3 (good update_fields) token_db).0
    ≡ waits_reread 0 uid
unfolding handle_user_update read_object check_fields bytes_eq lookup string_field is_json_null
    id_field new_role_field optional_bool_field update_user update_doc update_with change_user
    update_answer get_doc docs_of take_user get_field tag_role put_user put_field role_tag
    check_doc_size enqueue put_record op_tag valid_user_record valid_hex_id all_hex is_hex_digit
    valid_label valid_role parse_utc_timestamp has_suffix stamp
updated_early = refl

stored :
    (get_user auth_store uid token_db ≡ ok bob)
    × (get_token auth_store token_id_1 token_db ≡ ok laptop)
    × (parse_utc_timestamp host (stamp 5) ≡ some 5)
unfolding get_user get_token get read get_doc docs_of lookup bytes_eq put_user put_token take_user
    take_token get_field put_field role_tag tag_role parse_utc_timestamp has_suffix stamp
stored = (refl, refl, refl)

switched_off : optional_bool_field host update_fields (bytes "disabled") ≡ good (some true)
unfolding optional_bool_field lookup bytes_eq is_json_null
switched_off = refl

handle_user_update_disables_example :
    authenticate host auth_store secret 9
      (handle_user_update host auth_store sample_codec 7 (good update_fields) token_db).1
    ≡ none
handle_user_update_disables_example =
    handle_user_update_disables host host_laws record_laws sample_codec 7 update_fields token_db 0
      uid secret laptop 9 (omega arith) updated switched_off stored.1 refl

handle_user_update_early_example :
    let db' = (handle_user_update host auth_store sample_codec 3 (good update_fields) token_db).1 in
    ((token : Bytes) (rec : Token) (later : ℕ)
      → get_token auth_store token_id_1 token_db ≡ ok rec
      → rec.user_id ≡ uid
      → authenticate host auth_store token later db' ≡ none)
    × ((later : ℕ) (fields' : Fields) (commit' : ℕ)
        → later ≤ 1000
        → (handle_user_update host auth_store sample_codec later (good fields') db').0
          ≢ waits_reread commit' uid)
handle_user_update_early_example =
    handle_user_update_early host host_laws record_laws sample_codec 3 update_fields token_db 0 uid
      bob 5 (omega arith) updated_early stored.0 stored.2 (omega arith)

abbrev token_fields : Fields
token_fields =
    (bytes "user_id", uid) ∷ ((bytes "label", bytes "phone") ∷ ((bytes "expires_at", stamp 9) ∷ []))

abbrev phone : Token
phone = record {
  user_id = uid;
  label = bytes "phone";
  created_at = stamp 6;
  expires_at = some (stamp 9);
}

token_made :
    (handle_token_create host auth_store sample_codec
      (some (zeros 32) ∷ [])
      6
      (good token_fields)
      user_db).0
    ≡ waits_then 0 (created_token secret (view_token token_id_1 phone))
unfolding handle_token_create read_object check_fields bytes_eq lookup string_field is_json_null
    id_field label_field stored_user get_user get read get_doc docs_of take_user get_field tag_role
    put_token put_user role_tag put_field expiry_field optional_string_field create_token
    unique_token new_token has write_answer set_doc check_doc_size write enqueue put_record op_tag
    view_token valid_user_record valid_hex_id all_hex is_hex_digit valid_label valid_role
    parse_utc_timestamp has_suffix stamp
token_made = refl

handle_token_create_lem_example :
    let db' =
      (handle_token_create host auth_store sample_codec
        (some (zeros 32) ∷ [])
        6
        (good token_fields)
        user_db).1 in
    (user : User) × (rec : Token) × (view_token token_id_1 phone ≡ view_token token_id_1 rec)
    × (get_user auth_store (view_token token_id_1 phone).user_id user_db ≡ ok user)
    × (user.disabled ≡ false)
    × (has token_collection token_id_1 user_db ≡ false)
    × ((now : ℕ)
        → is_live host now (view_token token_id_1 phone).expires_at ≡ true
        → authenticate host auth_store secret now db' ≡ some user.role)
    × ((id : Bytes) → get_user auth_store id db' ≡ get_user auth_store id user_db)
    × ((tid : Bytes)
        → get_token auth_store tid db'
          ≡ (if bytes_eq token_id_1 tid then ok rec else get_token auth_store tid user_db))
handle_token_create_lem_example =
    handle_token_create_lem host host_laws record_laws sample_codec (some (zeros 32) ∷ []) 6
      (good token_fields) user_db 0 secret (view_token token_id_1 phone) (omega arith) (omega arith)
      token_made
