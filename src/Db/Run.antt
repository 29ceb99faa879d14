-- ===== src/Db/Run.antt =====
-- Whole runs of a database: the calls of its clients and the cases of the `select` in `run`, in any
-- order, and `Close` (medb.go). The model takes the work of one case as one step; Overlap is about the
-- calls that come in between.
pub mod Honest
pub mod Told
pub mod Safe
pub mod Stuck
pub mod Overlap
use medb.Base.{ℕ, Bool, true, false, Option, none, some, List, [], ◌∷◌, ◌++◌, if◌then◌else◌, ◌==◌}
use medb.Result.{Error, Result, ok, err, closed}
use medb.Store.{Record, empty_store}
use medb.Codec.{Codec}
use medb.Disk.{attempt}
use medb.Db.{Db, write, write_log, on_notify, on_tick, on_stop, to_error}

pub data Event : Type 0 where
  -- a call of `DB.write`
  call : Record → Event
  -- `<-db.notify` and `<-ticker.C`
  notify tick : Event

unfoldable pub step : Codec → Event → Db → Db
step c (call rec) db = (write c rec db).1
step c notify db = on_notify c db
step c tick db = on_tick c db

unfoldable pub run : Codec → List Event → Db → Db
run c [] db = db
run c (e ∷ events) db = run c events (step c e db)

-- What the clients know: the records of the writes that were accepted, each with its commit, those
-- whose commit came back without an error apart from the others.
pub record Calls : Type 0 where
  pub told : List (ℕ × Record)
  pub waiting : List (ℕ × Record)

abbrev pub add_waiting : Record → Result ℕ → Calls → Calls
add_waiting rec (ok id) w = record w { waiting = w.waiting ++ (id, rec) ∷ [] }
add_waiting rec (err e) w = w

abbrev pub tell : Option Error → Calls → Calls
tell none w = record { told = w.told ++ w.waiting; waiting = [] }
tell (some e) w = w

unfoldable pub watch : Codec → Event → Db → Calls → Calls
watch c (call rec) db w = add_waiting rec (write c rec db).0 w
watch c notify db w = tell (write_log db).run_err w
watch c tick db w = w

unfoldable pub watch_all : Codec → List Event → Db → Calls → Calls
watch_all c [] db w = w
watch_all c (e ∷ events) db w = watch_all c events (step c e db) (watch c e db w)

-- What `commit.wait` gives a client: the error of the commit, or nothing if it is still open.
unfoldable pub outcome : ℕ → List (ℕ × Option Error) → Option (Option Error)
outcome id [] = none
outcome id ((n, e) ∷ settled) = if n == id then some e else outcome id settled

abbrev first_error : Option Error → Option Error → Option Error
first_error none o = o
first_error (some e) _ = some e

-- `Close`, from the worker's last case to the two files that it closes.
unfoldable pub close_db : Codec → Db → Option Error × Db
close_db c db =
    if db.is_closed
    then (some closed, db)
    else (let db' = on_stop c (record db { is_closed = true }) in
        let (log, d) = attempt db'.disk in
        let (flock, d') = attempt d in
        (
          first_error db'.failed (first_error (to_error log) (to_error flock)),
          record db' { disk = d'; store = empty_store },
        ))
