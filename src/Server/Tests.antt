-- ===== src/Server/Tests.antt =====
-- Examples of the server's decisions, with small functions in place of Go's packages.
use medb.Base.{
  ◌≡◌, ◌≢◌, refl, ◌⊎◌, Bool, true, false, none, some, List, [], ◌∷◌, Bytes, Map, bytes, bytes_eq,
  insert, lookup, has_prefix,
}
use medb.Name.{has_suffix, reserved_collection, valid_collection_name}
use medb.Result.{ok}
use medb.Codec.Sample.{sample_codec, put_record, op_tag}
use medb.Db.Opening.{pos, negsuc}
use medb.Db.{Db, new_db, read, write, enqueue, check_doc_size}
use medb.Collection.{Typed, get, set_doc}
use medb.Store.{apply, get_doc, docs_of}
use medb.Server.Sample.{host, token_id_1}
use medb.Server.Roles.{
  role_reader, role_writer, role_admin, role_other, valid_role, role_allows, rank,
  role_allows_order, valid_hex_id, all_hex, is_hex_digit, valid_label,
}
use medb.Server.Auth.{
  User, Token, AuthStore, user_collection, token_collection, get_user, get_token, valid_token,
  parse_utc_timestamp, valid_user_record, valid_token_record, valid_expiry, is_live, authenticate,
}
use medb.Server.Fields.{
  good, fail, fail_auth_required, Fields, check_fields, string_field, is_json_null, document_target,
}
use medb.Server.Dispatch.{
  get_method, post_method, at_collections, Request, Flags, handle, build_routes,
  authenticate_request, authenticate_parts, serve_http, serve_route, serve_http_hides,
}
use medb.Server.Unicode.{valid_json_unicode, valid_json_unicode, Piece, plain, escape, unit, pair}
use medb.Server.Handlers.{handle_set, handle_drop, write_reply, read_object, panics, waits}
use medb.Server.Reserved.{handle_drop_total}
use medb.Server.Body.{Incoming, BodyReader, spell, decode_body, collect}
use medb.Server.Requests.{serve_endpoint, serve_request, replied}
use medb.Server.Requests.Authority.{May, serve_request_authority}

abbrev user_id_1 : Bytes
user_id_1 = bytes "aaaaaaaaaaaaaaaaaaaaaaaaaaaaaaaa"

abbrev alice : User
alice = record {
  user_name = bytes "alice";
  role = role_writer;
  disabled = false;
  created_at = bytes "1Z";
  updated_at = bytes "20Z";
}

abbrev token_1 : Token
token_1 = record {
  user_id = user_id_1;
  label = bytes "laptop";
  created_at = bytes "1Z";
  expires_at = none;
}

abbrev store : AuthStore
store = record {
  state = record {
    marshal = λ s. some (3 ∷ []);
    unmarshal = λ b. some (record { version = pos 1; auth_initialized = true });
  };
  users = record { marshal = λ u. some (1 ∷ []); unmarshal = λ b. some alice };
  tokens = record { marshal = λ t. some (2 ∷ []); unmarshal = λ b. some token_1 };
}

abbrev db : Db
db = record (new_db 100 100 (record { wal = []; files = []; dirs = []; faults = [] })) {
  store = record {
    colls =
        (user_collection, (user_id_1, 1 ∷ []) ∷ [])
        ∷ ((token_collection, (token_id_1, 2 ∷ []) ∷ []) ∷ ((bytes "notes", []) ∷ []));
    dirty = [];
  };
}

abbrev secret : Bytes
secret = bytes "medb_0123456789012345678901234567890123456789abc"

role_allows_order_example :
    (role_allows role_admin role_reader ≡ true)
    × (role_allows role_admin role_admin ≡ true)
    × (role_allows (role_other (bytes "root")) role_writer ≡ false)
unfolding role_allows rank valid_role
role_allows_order_example =
    role_allows_order role_admin role_writer role_reader (bytes "root") refl refl refl

authenticated : authenticate host store secret 9 db ≡ some role_writer
unfolding authenticate get_token get_user get read valid_token has_prefix valid_token_record
    valid_user_record valid_hex_id all_hex is_hex_digit valid_label valid_role parse_utc_timestamp
    valid_expiry is_live get_doc docs_of lookup bytes_eq has_suffix
authenticated = refl

abbrev fields : Fields
fields = (bytes "collection", bytes "notes") ∷ ((bytes "id", bytes "1") ∷ [])

targeted : document_target host 10 fields ≡ good (bytes "notes", bytes "1")
unfolding document_target string_field is_json_null lookup bytes_eq valid_collection_name
    reserved_collection has_prefix
targeted = refl

abbrev list_request : Request
list_request = record {
  method = get_method;
  path = bytes "/v1/collections";
  raw_query = [];
  has_body = false;
  authorization = [];
}

abbrev flags : Bool → Flags
flags no_auth = record { no_auth = no_auth; shutting_down = false; unavailable = false }

handled : serve_http host store 9 db (flags true) list_request ≡ handle at_collections
unfolding serve_http serve_route build_routes role_allows rank lookup bytes_eq has_prefix
handled = refl

abbrev probe : Request
probe = record list_request { path = bytes "/v1/secret" }

anonymous : authenticate_request host store 9 db [] ≡ fail fail_auth_required
unfolding authenticate_request
anonymous = refl

below :
    (has_prefix list_request.path (bytes "/v1/") ≡ true)
    × (has_prefix probe.path (bytes "/v1/") ≡ true)
unfolding has_prefix
below = (refl, refl)

serve_http_hides_example :
    serve_http host store 9 db (flags false) probe
    ≡ serve_http host store 9 db (flags false) list_request
serve_http_hides_example =
    serve_http_hides host store 9 db (flags false) list_request probe fail_auth_required refl
      anonymous refl below.0 below.1

abbrev raw_json : Typed Bytes
raw_json = record { marshal = λ b. some b; unmarshal = λ b. some b }

meta_reserved : reserved_collection user_collection ≡ true
unfolding reserved_collection bytes_eq has_prefix
meta_reserved = refl

abbrev members : Map Bytes
members =
    (bytes "collection", bytes "notes")
    ∷ ((bytes "id", bytes "7") ∷ ((bytes "document", bytes "{}") ∷ []))

abbrev reader : BodyReader
reader = record {
  media_type = λ b. some b;
  valid_json = λ b. true;
  decode = λ b. some (spell members);
}

abbrev set_request : Request
set_request = record {
  method = post_method;
  path = bytes "/v1/set";
  raw_query = [];
  has_body = true;
  authorization = secret ∷ [];
}

abbrev body : Incoming
body = record {
  content_encoding = [];
  content_type = bytes "application/json";
  content_length = negsuc 0;
  sent = bytes "{}";
  broken = false;
}

serve_request_authority_example :
    let db' =
      (serve_request host reader store raw_json sample_codec 10 99 [] 9
        (flags false)
        set_request
        body
        db).1 in
    ((db' ≡ db) ⊎ ((false ≡ true) ⊎ May host store 9 (flags false) set_request db role_writer))
    × ((read user_collection user_id_1 db' ≡ read user_collection user_id_1 db)
        ⊎ ((false ≡ false) × May host store 9 (flags false) set_request db role_admin))
serve_request_authority_example =
    serve_request_authority host reader store raw_json sample_codec 10 99 [] 9 (flags false)
      set_request body db user_collection user_id_1 meta_reserved

-- The run of that request: its document is stored, and the write waits for its commit.
request_runs :
    let (r, db') =
      serve_request host reader store raw_json sample_codec 10 99 [] 9
        (flags false)
        set_request
        body
        db in
    (r ≡ replied (waits 0)) × (read (bytes "notes") (bytes "7") db' ≡ ok (bytes "{}"))
unfolding serve_request serve_endpoint serve_http serve_route build_routes role_allows rank
    authenticate_request authenticate_parts authenticate get_token get_user get read valid_token
    has_prefix valid_token_record valid_user_record valid_hex_id all_hex is_hex_digit valid_label
    valid_role parse_utc_timestamp valid_expiry is_live get_doc docs_of lookup bytes_eq has_suffix
    handle_set read_object decode_body valid_json_unicode spell collect insert check_fields
    document_target string_field is_json_null valid_collection_name reserved_collection set_doc
    check_doc_size write enqueue put_record op_tag write_reply apply
request_runs = (refl, refl)

handle_drop_total_example : (handle_drop host raw_json 10 sample_codec (good fields) db).0 ≢ panics
handle_drop_total_example = handle_drop_total host raw_json 10 sample_codec (good fields) db

-- `a\n\u0041` and a pair of surrogates; the half of a pair, before the closing quote.
abbrev pieces : List Piece
pieces =
    plain b'a'
    ∷ (escape b'n'
        ∷ (unit b'0' b'0' b'4' b'1' ∷ (pair b'D' b'8' b'3' b'D' b'D' b'E' b'0' b'0' ∷ [])))
