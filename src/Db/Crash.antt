-- ===== src/Db/Crash.antt =====
-- What a database promises, from `Open` over any run to the next `Open` on the same directory.
use medb.Base.{
  fun_ext, ◌≢◌, ◌≡◌, ap, sym, subst, ◌∙◌, true, false, none, some, List, [], All, arith, Bytes, ℕ,
}
use medb.Result.{ok}
use medb.Store.{Record}
use medb.Store.Cells.{Cell, Value, view, over}
use medb.Store.History.{touch_all, touch_all-nil}
use medb.Codec.{Codec, JsonLaws}
use medb.Disk.{Disk, Outcome, attempt}
use medb.Db.{Db, write_log, write_snapshot, take_snapshot, on_stop, open_db, recover}
use medb.Db.Invariant.{Inv, Holds, IsNamed}
use medb.Db.Steps.Log.{write_log-Inv_ok}
use medb.Db.Steps.Tick.{write_snapshot-Inv}
use medb.Db.Recovery.Reopen.{open_db-Reopened, settled-Holds}
use medb.Db.Run.{Event, Calls, run, watch_all, outcome, close_db}
use medb.Db.Run.Honest.{Honest}
use medb.Db.Run.Told.{run-Honest}
use medb.Db.Run.Safe.{
  WireEvents, Kept, Survives, records, run-Kept, reopened-Survives, recovered-Survives,
}

abbrev pub no_calls : Calls
no_calls = record { told = []; waiting = [] }

module _ {c : Codec} {IsText IsJson : Bytes → Type 0} (laws : JsonLaws c IsText IsJson) where
  module _ (m f : ℕ) (d : Disk) (state : Cell → Value) (holds : Holds c IsText IsJson d state)
      (db : Db) (opened : (open_db c m f d).0 ≡ ok db) where
    open_db-Kept : Kept laws (view db.store.colls) db no_calls
    open_db-Kept =
        let re = open_db-Reopened laws m f d state holds in
        let (_, _, inv, _, _, _) = re.opened db opened in
        subst (λ s. Inv c IsText IsJson db s [])
          (fun_ext λ k. ap (λ o. over o (view db.store.colls k)) (sym (touch_all-nil k))) inv

    open_db-Honest : Honest db no_calls
    unfolding outcome
    open_db-Honest =
        let re = open_db-Reopened laws m f d state holds in
        let (_, _, _, _, settled, commit) = re.opened db opened in
        record {
          told = tt;
          untold = tt;
          current = λ _. tt;
          fresh = λ id at. rw settled;
          below = λ id at. absurd (ground arith);
          later = λ id after. rw settled;
        }

  -- Over any calls and worker steps after an `Open`, in any order and whatever call fails: the writes
  -- whose `commit.wait` has returned nil are `told`, and no other accepted write's commit has.
  pub run_told :
      (m f : ℕ) (d : Disk) (state : Cell → Value) (db : Db) (events : List Event)
      → Holds c IsText IsJson d state
      → (open_db c m f d).0 ≡ ok db
      → let db' = run c events db in
        let w = watch_all c events db no_calls in
        All (λ p. outcome p.0 db'.settled ≡ some none) w.told
        × All (λ p. outcome p.0 db'.settled ≢ some none) w.waiting
  run_told m f d state db events holds opened =
      let h = run-Honest c events db no_calls (open_db-Honest m f d state holds db opened) in
      (h.told, h.untold)

  module _ (m f : ℕ) (d : Disk) (state : Cell → Value) (db : Db) (events : List Event)
      (holds : Holds c IsText IsJson d state) (opened : (open_db c m f d).0 ≡ ok db)
      (wire : WireEvents IsText IsJson events) where
    abbrev after : Db
    after = run c events db

    abbrev known : Calls
    known = watch_all c events db no_calls

    run_from_open : Kept laws (view db.store.colls) after known
    run_from_open =
        run-Kept laws (view db.store.colls) events db no_calls wire
          (open_db-Kept m f d state holds db opened)

    -- What survives, told from the state that was opened.
    since_open :
        (again : Db) (k : Cell)
        → IsNamed k
        → touch_all (records known.waiting) k ≡ none
        → Survives laws (view db.store.colls) known again
        → view again.store.colls k ≡ over (touch_all (records known.told) k) (state k)
    since_open again k named untouched survives =
        let (_, _, _, start, _, _) = (open_db-Reopened laws m f d state holds).opened db opened in
        survives k named untouched ∙ ap (over (touch_all (records known.told) k)) (start k named)

  -- Open a directory that holds `state`, run any worker steps and any calls whose records come back from
  -- the log (`IsWire`: a valid name, an id in valid UTF-8, which `write` does not check, a compact
  -- document just where one is set), and stop at any point, be it after a failure of any system call.
  -- Then any later `Open` that succeeds gives every cell of a validly named collection that no write
  -- without an acknowledgement touches the value that `state` and the acknowledged writes give it.
  pub crash_safe :
      (m f : ℕ) (d : Disk) (state : Cell → Value) (db : Db) (events : List Event)
      → Holds c IsText IsJson d state
      → (open_db c m f d).0 ≡ ok db
      → WireEvents IsText IsJson events
      → (m' f' : ℕ) (faults : List Outcome) (again : Db) (k : Cell)
      → (open_db c m' f' (record (run c events db).disk { faults = faults })).0 ≡ ok again
      → IsNamed k
      → let w = watch_all c events db no_calls in
        touch_all (records w.waiting) k ≡ none
        → view again.store.colls k ≡ over (touch_all (records w.told) k) (state k)
  crash_safe m f d state db events holds opened wire m' f' faults again k reopened named untouched =
      since_open m f d state db events holds opened wire again k named untouched (
        reopened-Survives laws (view db.store.colls) (run c events db)
          (watch_all c events db no_calls) m' f' faults again
          (run_from_open m f d state db events holds opened wire) reopened)

  -- After any such run, its calls again with records that come back from the log (`IsWire`: valid name,
  -- UTF-8 id, compact document), loading the snapshots and replaying the log of what is on the disk
  -- succeeds if no call fails. It gives every cell of a validly named collection that no write without
  -- an acknowledgement touches the value that `state` and the acknowledged writes give it.
  pub crash_recovers :
      (m f : ℕ) (d : Disk) (state : Cell → Value) (db : Db) (events : List Event)
      → Holds c IsText IsJson d state
      → (open_db c m f d).0 ≡ ok db
      → WireEvents IsText IsJson events
      → (m' f' : ℕ) (k : Cell) → IsNamed k
      → let w = watch_all c events db no_calls in
        touch_all (records w.waiting) k ≡ none
        → (again : Db) × ((recover c m' f' (record (run c events db).disk { faults = [] })).0
            ≡ ok again)
          × (view again.store.colls k ≡ over (touch_all (records w.told) k) (state k))
  crash_recovers m f d state db events holds opened wire m' f' k named untouched =
      let (again, e, survives) =
        recovered-Survives laws (view db.store.colls) (run c events db)
          (watch_all c events db no_calls) m' f'
          (run_from_open m f d state db events holds opened wire) in
      (
        again,
        e,
        since_open m f d state db events holds opened wire again k named untouched survives,
      )

  -- `writeSnapshot` passes an earlier error on.
  snapshot_error : (db : Db) → (write_snapshot c db).run_err ≡ none → db.run_err ≡ none
  unfolding write_snapshot take_snapshot
  snapshot_error db h = ground arith

  pub same-Holds :
      (d d' : Disk) (state : Cell → Value)
      → d'.wal ≡ d.wal
      → d'.files ≡ d.files
      → Holds c IsText IsJson d state
      → Holds c IsText IsJson d' state
  same-Holds d d' state wal files h = record {
    logged = h.logged;
    torn = h.torn;
    on_disk = record {
      batch = h.on_disk.batch;
      wal = wal ∙ h.on_disk.wal;
      encoded = h.on_disk.encoded;
      wire = h.on_disk.wire;
      line = h.on_disk.line;
      readable = rw files h.on_disk.readable;
      plain = rw files h.on_disk.plain;
    };
    value = rw files h.value;
  }

  close_inv :
      (db : Db)
      → (close_db c db).0 ≡ none
      → let db' = on_stop c (record db { is_closed = true }) in
        (db.is_closed ≡ false)
        × (db'.failed ≡ none)
        × ((close_db c db).1.disk.wal ≡ db'.disk.wal)
        × ((close_db c db).1.disk.files ≡ db'.disk.files)
  unfolding close_db attempt
  close_inv db h = (ground arith, ground arith, ground arith, ground arith)

  pub shut-Inv :
      (db : Db) (acked : Cell → Value) (unacked : List Record)
      → Inv c IsText IsJson db acked unacked
      → Inv c IsText IsJson (record db { is_closed = true }) acked unacked
  shut-Inv db acked unacked inv = record {
    logged = inv.logged;
    torn = inv.torn;
    on_disk = inv.on_disk;
    safe = inv.safe;
    memory = inv.memory;
    plain = inv.plain;
    wire = inv.wire;
    healthy = λ e.
        let h = inv.healthy e in
        record {
          whole = h.whole;
          sized = h.sized;
          pending = h.pending;
          waiting = h.waiting;
          clean = h.clean;
        };
  }

  -- On a database of which the invariant holds, so that every id in memory and in flight is valid UTF-8
  -- and every document compact: if `Close` returns nil, then the records applied in memory are durable,
  -- acknowledged or not, and the directory holds the documents as they are in memory, as far as
  -- collections with valid names go.
  pub close_durable :
      (db : Db) (acked : Cell → Value) (unacked : List Record)
      → Inv c IsText IsJson db acked unacked
      → (close_db c db).0 ≡ none
      → Holds c IsText IsJson (close_db c db).1.disk (view db.store.colls)
  unfolding on_stop
  close_durable db acked unacked inv h =
      let (_, failed, wal, files) = close_inv db h in
      let shut = record db { is_closed = true } in
      let logged = write_log shut in
      let stopped = write_snapshot c logged in
      let told =
        write_log-Inv_ok laws shut acked unacked (shut-Inv db acked unacked inv)
          (snapshot_error logged failed) in
      let stored =
        settled-Holds laws stopped (λ k. over (touch_all unacked k) (acked k))
          (write_snapshot-Inv laws logged _ [] told) in
      same-Holds stopped.disk (close_db c db).1.disk (view db.store.colls) wal files
        (subst (Holds c IsText IsJson stopped.disk) (fun_ext λ k. sym (inv.memory k)) stored)
