-- ===== src/Db/Run/Stuck.antt =====
-- What the worker does after one of its calls failed.
use medb.Base.{◌≡◌, refl, ◌∙◌, some, List, [], ◌∷◌, arith}
use medb.Result.{Error}
use medb.Store.{Record}
use medb.Codec.{Codec}
use medb.Db.{Db, write, enqueue, write_log, log_batch, write_snapshot, on_notify, on_tick}
use medb.Db.Run.{Event, call, notify, tick, step, run, Calls, watch, watch_all}

write-disk :
    (c : Codec) (rec : Record) (db : Db)
    → ((write c rec db).1.run_err ≡ db.run_err) × ((write c rec db).1.disk ≡ db.disk)
unfolding write enqueue
write-disk c rec db = (ground arith, ground arith)

write_log_stuck :
    (x : Error) (db : Db)
    → db.run_err ≡ some x
    → ((write_log db).run_err ≡ some x) × ((write_log db).disk ≡ db.disk)
unfolding write_log log_batch
write_log_stuck x db h = (ground arith, ground arith)

write_snapshot_stuck :
    (c : Codec) (x : Error) (db : Db) → db.run_err ≡ some x → write_snapshot c db ≡ db
unfolding write_snapshot
write_snapshot_stuck c x db h = ground arith

on_notify_stuck :
    (c : Codec) (x : Error) (db : Db)
    → db.run_err ≡ some x
    → ((on_notify c db).run_err ≡ some x) × ((on_notify c db).disk ≡ db.disk)
unfolding on_notify
on_notify_stuck c x db h =
    let (failed, disk) = write_log_stuck x db h in
    let same = write_snapshot_stuck c x (write_log db) failed in (ground arith, ground arith)

step_stuck :
    (c : Codec) (e : Event) (x : Error) (db : Db) (w : Calls)
    → db.run_err ≡ some x
    → ((step c e db).run_err ≡ some x)
      × ((step c e db).disk ≡ db.disk)
      × ((watch c e db w).told ≡ w.told)
unfolding step watch on_tick
step_stuck c (call rec) x db w h =
    let (failed, disk) = write-disk c rec db in (failed ∙ h, disk, ground arith)
step_stuck c notify x db w h =
    let (failed, disk) = on_notify_stuck c x db h in
    let (logged, _) = write_log_stuck x db h in (failed, disk, rw logged)
step_stuck c tick x db w h = let same = write_snapshot_stuck c x db h in (rw same h, rw same, refl)

-- Once a call of the worker failed, the first error stays: whatever the clients do and however often
-- the worker wakes, it writes nothing to the disk any more, and no further write is acknowledged.
pub run_stuck :
    (c : Codec) (events : List Event) (x : Error) (db : Db) (w : Calls)
    → db.run_err ≡ some x
    → ((run c events db).run_err ≡ some x)
      × ((run c events db).disk ≡ db.disk)
      × ((watch_all c events db w).told ≡ w.told)
unfolding run watch_all
run_stuck c [] x db w h = (h, refl, refl)
run_stuck c (e ∷ events) x db w h =
    let (failed, disk, told) = step_stuck c e x db w h in
    let (failed', disk', told') = run_stuck c events x (step c e db) (watch c e db w) failed in
    (failed', disk' ∙ disk, told' ∙ told)
