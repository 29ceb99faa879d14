-- ===== src/Server/Serve.antt =====
-- The life of the server process: `serve` and `prepareAuthentication` of cmd/medb/server.go, around the
-- requests that it serves. The listener and the HTTP server are net and net/http; what they answer is
-- an argument.
pub mod Start
mod Tests
use medb.Base.{
  ◌≡◌, refl, ap, sym, ◌∙◌, ℕ, Bool, true, false, Option, none, some, [], arith, Bytes,
  if◌then◌else◌,
}
use medb.Result.{Error, Result, ok, err}
use medb.Codec.{Codec}
use medb.Disk.{Disk}
use medb.Db.{Db}
use medb.Db.Opening.{open_medb}
use medb.Db.Run.{close_db}
use medb.Server.{Host}
use medb.Server.Auth.{AuthStore}
use medb.Server.Fresh.{Draws}
use medb.Server.Config.{ServeConfig, open_settings}
use medb.Server.Init.{
  GetEnv, Init, Ending, done, stops, aborted, draws_on, waits_on, InitError, initialize_auth,
}

-- Why the server did not come up.
pub data StartError : Type 0 where
  not_opened : Error → StartError
  not_initialized : InitError → StartError
  not_listening : StartError

-- The server is up on this database; or it ended before, with an error or a panic, or does not come to
-- an end while it starts.
pub data Started : Type 0 where
  up : Db → Started
  failed_start : StartError → Started
  start_panicked start_hangs : Started

-- What the `select` wakes on: the context, `failureCh`, or the end of `Serve`, of which ErrServerClosed
-- counts as none.
pub data Wake : Type 0 where
  signalled : Wake
  storage_failed : Error → Wake
  http_stopped : Option ℕ → Wake

-- An error that ends the server: of the storage, of net/http, or of closing the database.
pub data Terminal : Type 0 where
  of_storage of_closing : Error → Terminal
  of_http : ℕ → Terminal

pub data ServeEnd : Type 0 where
  ended : ServeEnd
  server_stopped : Terminal → ServeEnd
  shutdown_failed : ℕ → ServeEnd

unfoldable pub terminal_error : Wake → Option Terminal
terminal_error signalled = none
terminal_error (storage_failed e) = some (of_storage e)
terminal_error (http_stopped none) = none
terminal_error (http_stopped (some e)) = some (of_http e)

abbrev add_closing : Option Error → Option Terminal → Option Terminal
add_closing none t = t
add_closing (some e) none = some (of_closing e)
add_closing (some e) (some t) = some t

module _ (c : Codec) where
  -- From the `select` on: `shutdown` is the error of `Shutdown`.
  unfoldable pub end_serve : Wake → Option ℕ → Db → ServeEnd × Disk
  unfolding terminal_error
  end_serve wake shutdown db =
      let (close_err, db') = close_db c db in
      (
        elim (add_closing close_err (terminal_error wake)) [
          | some t ↦ server_stopped t
          | none ↦ elim shutdown [ some e ↦ shutdown_failed e | none ↦ ended ]
        ],
        db'.disk,
      )

  module _ (h : Host) (a : AuthStore) (worker : Db → Db) where
    unfoldable pub prepare_authentication :
        ServeConfig → GetEnv → (Bytes → Option Bytes) → Draws → ℕ → ℕ → Init (Unit {0})
    prepare_authentication cfg getenv read_file draws now now_user db =
        if cfg.no_auth
        then (done tt, db)
        else initialize_auth h a c worker getenv read_file draws now now_user db

    -- Up to the first request; `listens` says whether net.Listen succeeds. What fails after `Open` closes
    -- the database, and its own error counts.
    unfoldable pub start_serve :
        Bool
        → Bool
        → ServeConfig
        → GetEnv
        → (Bytes → Option Bytes)
        → Draws
        → ℕ
        → ℕ
        → Disk
        → Started × Disk
    start_serve held listens cfg getenv read_file draws now now_user d =
        let (opened, d') = open_medb c held (open_settings cfg) d in
        elim opened [
          | err e ↦ (failed_start (not_opened e), d')
          | ok db ↦
              let (r, db') = prepare_authentication cfg getenv read_file draws now now_user db in
              let closed_disk = (close_db c db').1.disk in
              elim r [
                | stops e ↦ (failed_start (not_initialized e), closed_disk)
                | aborted ↦ (start_panicked, closed_disk)
                | draws_on ↦ (start_hangs, db'.disk)
                | waits_on ↦ (start_hangs, db'.disk)
                | done _ ↦
                    if listens
                    then (up db', db'.disk)
                    else (failed_start not_listening, closed_disk)
              ]
        ]

-- A server that is told to stop ends well where the database is closed well.
pub end_serve_signalled :
    (c : Codec) (db : Db) → (close_db c db).0 ≡ none → (end_serve c signalled none db).0 ≡ ended
unfolding end_serve
end_serve_signalled c db e = ground arith
