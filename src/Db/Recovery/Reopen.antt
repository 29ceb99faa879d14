-- ===== src/Db/Recovery/Reopen.antt =====
-- `Open` as a whole, on a directory that holds a state.
use medb.Base.{◌≡◌, ap, sym, subst, ◌∙◌, inl, inr, Option-cases, none, some, [], arith, Bytes, ℕ}
use medb.Result.{Result, ok, err, Result-cases}
use medb.Store.{Colls}
use medb.Store.Cells.{Cell, Value, view}
use medb.Store.History.{touch_all-nil}
use medb.Codec.{Codec, JsonLaws}
use medb.Disk.{Disk}
use medb.Snapshot.Load.{load_total}
use medb.Db.{Db, recover, open_db, write_snapshot}
use medb.Db.Invariant.{Reopened, Inv, Holds, IsNamed}
use medb.Db.Steps.Tick.{write_snapshot-Inv}
use medb.Db.Recovery.Parts.{write_snapshot-colls, write_snapshot-commits}
use medb.Db.Recovery.Replay.{replay_log-Reopened, replay_log_faultless}

module _ {c : Codec} {IsText IsJson : Bytes → Type 0} (laws : JsonLaws c IsText IsJson) where
  -- Loading the snapshots of a directory that holds a state and replaying its log: whatever fails,
  -- the directory holds the same state after it, and a database that comes of it has that state.
  pub recover-Reopened :
      (m f : ℕ) (d : Disk) (state : Cell → Value)
      → Holds c IsText IsJson d state
      → Reopened c IsText IsJson state (recover c m f d).0 (recover c m f d).1
  unfolding recover
  recover-Reopened m f d state h =
      let (colls, loaded) = load_total c d.files h.on_disk.readable in
      rw (loaded, recover)
        (replay_log-Reopened laws m f d state h.logged h.torn h.on_disk h.value colls loaded)

  -- Where no call fails, it succeeds.
  pub recover_faultless :
      (m f : ℕ) (d : Disk) (state : Cell → Value)
      → Holds c IsText IsJson d state
      → d.faults ≡ []
      → (db : Db) × ((recover c m f d).0 ≡ ok db)
        × ((k : Cell) → IsNamed k → view db.store.colls k ≡ state k)
  unfolding recover
  recover_faultless m f d state h no_faults =
      let (colls, loaded) = load_total c d.files h.on_disk.readable in
      let (db, e) =
        replay_log_faultless laws m f d state h.logged h.torn h.on_disk h.value colls loaded
          no_faults in
      let e' : (recover c m f d).0 ≡ ok db = rw (loaded, recover) e in
      let (_, _, _, view', _, _) = (recover-Reopened m f d state h).opened db e' in (db, e', view')

  -- An invariant says that the directory holds the acknowledged state, where nothing is in flight.
  pub settled-Holds :
      (db : Db) (acked : Cell → Value)
      → Inv c IsText IsJson db acked []
      → Holds c IsText IsJson db.disk acked
  settled-Holds db acked inv = record {
    logged = inv.logged;
    torn = inv.torn;
    on_disk = inv.on_disk;
    value = λ k named. inv.safe k named (touch_all-nil k);
  }

  -- What `Open` does after the recovery.
  first_snapshot :
      (db : Db) (state : Cell → Value)
      → Inv c IsText IsJson db (view db.store.colls) []
      → ((k : Cell) → IsNamed k → view db.store.colls k ≡ state k)
      → db.settled ≡ []
      → db.commit ≡ none
      → let db' = write_snapshot c db in
        Reopened c IsText IsJson state
          (elim db'.run_err [ none ↦ ok db' | some e ↦ err e ])
          db'.disk
  first_snapshot db state inv same settled commit =
      elim (Option-cases (write_snapshot c db).run_err) [
        | inl no_error ↦ rw no_error (record {
          holds = holds;
          opened = λ opened e.
              let here = this opened e in
              (
                ap (λ (x : Db). x.disk) (sym here),
                ap (λ (x : Db). x.run_err) (sym here) ∙ no_error,
                subst (λ x. Inv c IsText IsJson x (view x.store.colls) []) here
                    (subst (λ (s : Colls). Inv c IsText IsJson (write_snapshot c db) (view s) [])
                      (sym (write_snapshot-colls c db)) inv'),
                subst (λ (x : Db). (k : Cell) → IsNamed k → view x.store.colls k ≡ state k) here
                    (rw (write_snapshot-colls c db) same),
                ap (λ (x : Db). x.settled) (sym here) ∙ (write_snapshot-commits c db).0 ∙ settled,
                ap (λ (x : Db). x.commit) (sym here) ∙ (write_snapshot-commits c db).1 ∙ commit,
              );
        })
        | inr (x, failed) ↦ rw failed (record { holds = holds; opened = λ opened e. cc })
      ]
    where
      inv' : Inv c IsText IsJson (write_snapshot c db) (view db.store.colls) []
      inv' = write_snapshot-Inv laws db (view db.store.colls) [] inv

      holds : Holds c IsText IsJson (write_snapshot c db).disk state
      holds =
          let h = settled-Holds (write_snapshot c db) (view db.store.colls) inv' in
          record {
            logged = h.logged;
            torn = h.torn;
            on_disk = h.on_disk;
            value = λ k named. h.value k named ∙ same k named;
          }

      this :
          (x : Db)
          → ◌≡◌ {A = Result Db} (ok (write_snapshot c db)) (ok x)
          → (write_snapshot c db) ≡ x
      this x e = ground arith

  -- `Open` on a directory that holds a state, whichever of its calls fails: the directory still holds
  -- the state, so that an interrupted `Open` can be run again, and the database that it returns has
  -- the state and is ready for the steps that follow.
  pub open_db-Reopened :
      (m f : ℕ) (d : Disk) (state : Cell → Value)
      → Holds c IsText IsJson d state
      → Reopened c IsText IsJson state (open_db c m f d).0 (open_db c m f d).1
  unfolding open_db
  open_db-Reopened m f d state h =
      let re = recover-Reopened m f d state h in
      elim (Result-cases (recover c m f d).0) [
        | inr (x, e) ↦ rw (open_db, e) (record { holds = re.holds; opened = λ db h. cc })
        | inl (db, e) ↦
            let (disk, no_error, inv, same, settled, commit) = re.opened db e in
            rw (open_db, e) (first_snapshot db state inv same settled commit)
      ]
