-- ===== src/Server/Init/Tests.antt =====
-- An initialization of the server's users from an empty database.
use medb.Base.{
  ◌≡◌, refl, ◌⊎◌, ℕ, zero, suc, true, false, Option, none, some, [], ◌∷◌, ◌++◌, arith, Bytes, bytes,
  bytes_eq, lookup, has_prefix, insert, if◌then◌else◌,
}
use medb.Codec.Sample.{sample_codec, put_record, op_tag, put_field}
use medb.Db.{
  Db, new_db, on_notify, write, enqueue, write_log, log_batch, append_wal, check_doc_size, read,
}
use medb.Db.Run.{outcome}
use medb.Disk.{attempt}
use medb.Wal.{encode_batch}
use medb.Store.{docs_of, get_doc, apply}
use medb.Collection.{get, set_doc, count, collections, sorted}
use medb.Name.{has_suffix}
use medb.Server.Roles.{role_admin, valid_label, valid_role, valid_hex_id, all_hex, is_hex_digit}
use medb.Server.Auth.{
  ServerState, valid_state_record, authenticate, valid_token, get_state, get_token, get_user,
  valid_token_record, valid_user_record, valid_expiry, parse_utc_timestamp,
}
use medb.Server.Fresh.{Draws, unique_user_id, hex_encode, hex_digit_of}
use medb.Collection.{has}
use medb.Server.Sample.{
  host, auth_store, host_laws, record_laws, token_id_1, stamp, put_user, put_token, role_tag,
}
use medb.Server.Init.{
  GetEnv, env_string, initial_token, initialize_auth, done, stops, no_admin, admins_unreadable,
  bad_state, first_conflict, create_admin, initial_record, create_initial_token, initial_user,
  finish_init, set_and_wait,
}
use medb.Server.Init.Calls.{on_notify-IsWorker, Ends}
use medb.Server.Init.Stages.{IsPartial, untouched}
use medb.Server.Init.Resume.{IsComplete}
use medb.Server.Init.Marked.{Answers, initialize_auth_marked}
use medb.Result.{ok}
use medb.Db.Opening.{pos}
use medb.Server.Init.Restart.{initialize_auth_resumes}

abbrev zeros : ℕ → Bytes
zeros zero = []
zeros (suc n) = 0 ∷ zeros n

abbrev secret : Bytes
secret = bytes "medb_" ++ host.encode_base64 (zeros 32)

abbrev empty_db : Db
empty_db = new_db 1000 100000 (record { wal = []; files = []; dirs = []; faults = [] })

abbrev getenv : GetEnv
getenv name = if bytes_eq name (bytes "MEDB_INIT_ADMIN_TOKEN") then some secret else none

abbrev no_file : Bytes → Option Bytes
no_file path = none

abbrev name : Bytes
name = env_string getenv (bytes "MEDB_INIT_ADMIN_NAME") (bytes "admin")

abbrev draws : Draws
draws = some (zeros 16) ∷ []

given : initial_token host getenv no_file ≡ done secret
unfolding initial_token valid_token bytes_eq has_prefix
given = refl

start : IsPartial host auth_store token_id_1 name empty_db
unfolding docs_of lookup
start = record { live = refl; clear = tt; stage = untouched refl refl refl }

labelled : valid_label host name ≡ true
unfolding valid_label env_string bytes_eq
labelled = refl

initialize_auth_resumes_example :
    Ends
      (λ _ db'.
        IsComplete host auth_store token_id_1 name db'
        × ((later : ℕ) → authenticate host auth_store secret later db' ≡ some role_admin))
      (IsPartial host auth_store token_id_1 name)
      (initialize_auth host auth_store sample_codec
        (on_notify sample_codec)
        getenv
        no_file
        draws
        5
        6
        empty_db)
initialize_auth_resumes_example =
    initialize_auth_resumes host_laws record_laws sample_codec (on_notify-IsWorker sample_codec)
      getenv no_file secret given draws 5 6 (omega arith) (omega arith) (omega arith) labelled
      empty_db start

-- The run ends well.
initialized :
    (initialize_auth host auth_store sample_codec
      (on_notify sample_codec)
      getenv
      no_file
      draws
      5
      6
      empty_db).0
    ≡ done tt
unfolding initialize_auth get_state get read get_doc docs_of lookup count collections sorted
    first_conflict env_string bytes_eq valid_label initial_token valid_token has_prefix create_admin
    initial_record get_token create_initial_token unique_user_id has hex_encode hex_digit_of
    set_and_wait set_doc put_token put_field stamp check_doc_size write enqueue put_record op_tag
    apply insert on_notify write_log log_batch append_wal attempt encode_batch outcome initial_user
    get_user put_user role_tag finish_init valid_token_record valid_user_record valid_hex_id all_hex
    is_hex_digit valid_role valid_expiry parse_utc_timestamp has_suffix
initialized = refl

abbrev first_run : Db
first_run =
    (initialize_auth host auth_store sample_codec (on_notify sample_codec) getenv no_file draws 5 6
      empty_db).1

abbrev marker : ServerState
marker = record { version = pos 1; auth_initialized = true }

open_and_marked : (first_run.is_closed ≡ false) × (get_state auth_store first_run ≡ ok marker)
unfolding initialize_auth get_state get read get_doc docs_of lookup count collections sorted
    first_conflict env_string bytes_eq valid_label initial_token valid_token has_prefix create_admin
    initial_record get_token create_initial_token unique_user_id has hex_encode hex_digit_of
    set_and_wait set_doc put_token put_field stamp check_doc_size write enqueue put_record op_tag
    apply insert on_notify write_log log_batch append_wal attempt encode_batch outcome initial_user
    get_user put_user role_tag finish_init valid_token_record valid_user_record valid_hex_id all_hex
    is_hex_digit valid_role valid_expiry parse_utc_timestamp has_suffix
open_and_marked = (refl, refl)

-- The next start, with no variable set.
initialize_auth_marked_example :
    let (r, db') =
      initialize_auth host auth_store sample_codec
        (on_notify sample_codec)
        (λ n. none)
        no_file
        []
        7
        7
        first_run in
    (db' ≡ first_run)
    × (((r ≡ done tt)
          × (valid_state_record marker ≡ true)
          × Answers host auth_store 7 first_run (some true))
        ⊎ (((r ≡ stops no_admin) × Answers host auth_store 7 first_run (some false))
            ⊎ (((r ≡ stops admins_unreadable) × Answers host auth_store 7 first_run none)
                ⊎ ((r ≡ stops bad_state) × (valid_state_record marker ≡ false)))))
initialize_auth_marked_example =
    initialize_auth_marked host auth_store 7 first_run sample_codec (on_notify sample_codec)
      (λ n. none) no_file [] 7 marker open_and_marked.0 open_and_marked.1
