-- ===== src/Server/Recover/Tests.antt =====
-- A recovery on an empty database.
use medb.Base.{
  ◌≡◌, refl, ℕ, zero, suc, true, some, [], ◌∷◌, ◌++◌, arith, Bytes, bytes, bytes_eq, lookup, insert,
}
use medb.Codec.Sample.{sample_codec, put_record, op_tag, put_field}
use medb.Db.{
  Db, new_db, on_notify, write, enqueue, write_log, log_batch, append_wal, check_doc_size, read,
}
use medb.Db.Run.{outcome}
use medb.Disk.{attempt}
use medb.Wal.{encode_batch}
use medb.Store.{docs_of, get_doc, apply}
use medb.Collection.{set_doc, has}
use medb.Server.Roles.{valid_label}
use medb.Server.Fresh.{Draws, unique_user_id, unique_token, new_token, hex_encode, hex_digit_of}
use medb.Server.Sample.{
  host, auth_store, host_laws, record_laws, token_id_1, stamp, put_user, put_token, role_tag,
}
use medb.Server.Init.{done, set_and_wait}
use medb.Server.Init.Calls.{on_notify-IsWorker}
use medb.Server.Recover.{Credential, draw_user_id, draw_token, write_credential, create_credential}
use medb.Server.Recover.Made.{IsMade, create_credential_lem}

abbrev zeros : ℕ → Bytes
zeros zero = []
zeros (suc n) = 0 ∷ zeros n

abbrev empty_db : Db
empty_db = new_db 1000 100000 (record { wal = []; files = []; dirs = []; faults = [] })

abbrev ids : Draws
ids = some (zeros 16) ∷ []

abbrev secrets : Draws
secrets = some (zeros 32) ∷ []

abbrev printed : Credential
printed = record {
  user_id = bytes "00000000000000000000000000000000";
  token_id = token_id_1;
  token = bytes "medb_" ++ host.encode_base64 (zeros 32);
}

made :
    (create_credential host auth_store sample_codec
      (on_notify sample_codec)
      ids
      secrets
      5
      (bytes "root")
      empty_db).0
    ≡ done printed
unfolding create_credential draw_user_id draw_token write_credential unique_user_id unique_token
    new_token has read get_doc docs_of lookup hex_encode hex_digit_of set_and_wait set_doc put_token
    put_user role_tag put_field stamp check_doc_size write enqueue put_record op_tag apply insert
    on_notify write_log log_batch append_wal attempt encode_batch outcome bytes_eq
made = refl

labelled : valid_label host (bytes "root") ≡ true
unfolding valid_label
labelled = refl

create_credential_lem_example :
    IsMade host_laws record_laws sample_codec
      (on_notify-IsWorker sample_codec)
      printed
      empty_db
      (create_credential host auth_store sample_codec
        (on_notify sample_codec)
        ids
        secrets
        5
        (bytes "root")
        empty_db).1
create_credential_lem_example =
    create_credential_lem host_laws record_laws sample_codec (on_notify-IsWorker sample_codec) ids
      secrets 5 (bytes "root") empty_db printed (omega arith) (omega arith) (omega arith) labelled
      made
