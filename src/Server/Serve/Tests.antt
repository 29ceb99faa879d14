-- ===== src/Server/Serve/Tests.antt =====
-- A server that is told to stop with a write in flight.
use medb.Base.{◌≡◌, refl, ◌⊎◌, true, false, none, [], ◌∷◌, bytes}
use medb.Store.Cells.{Cell, view}
use medb.Codec.Sample.{sample_codec, sample_laws, AnyText, IsFilled}
use medb.Db.Invariant.{Holds, IsNamed}
use medb.Db.Tests.{fresh, fresh-Holds, nothing}
use medb.Db.{Db, on_notify}
use medb.Db.Opening.{pos}
use medb.Disk.{success, failure}
use medb.Server.Sample.{host, auth_store}
use medb.Server.Config.{ServeConfig}
use medb.Server.Serve.Start.{start_serve_keeps}
use medb.Server.Serve.{StartError, up, failed_start, start_serve}

abbrev open_config : ServeConfig
open_config = record {
  dir = bytes "db";
  listen = bytes "127.0.0.1:6332";
  no_auth = true;
  max_doc_size = pos 100;
  flush_bytes = pos 50;
  flush_interval = pos 2;
  max_id_size = pos 10;
  max_request_size = pos 2000;
  shutdown_timeout = pos 3;
}

-- Nothing listens, and the calls on the files fail in turn.
start_serve_keeps_example :
    let d = fresh (failure 0 ∷ (success ∷ (failure 0 ∷ []))) in
    let (r, d') =
      start_serve sample_codec host auth_store
        (on_notify sample_codec)
        false
        false
        open_config
        (λ n. none)
        (λ p. none)
        []
        5
        6
        d in
    Holds sample_codec AnyText IsFilled d' nothing
    × (((e : StartError) × (r ≡ failed_start e))
        ⊎ ((db : Db) × (r ≡ up db)
            × (db.disk ≡ d')
            × ((k : Cell) → IsNamed k → view db.store.colls k ≡ nothing k)))
start_serve_keeps_example =
    start_serve_keeps sample_laws host auth_store (on_notify sample_codec) false false open_config
      (λ n. none) (λ p. none) [] 5 6 (fresh (failure 0 ∷ (success ∷ (failure 0 ∷ [])))) nothing refl
      (fresh-Holds (failure 0 ∷ (success ∷ (failure 0 ∷ []))))
