-- ===== src/Db/Steps/Tick.antt =====
-- `writeSnapshot` of snapshot.go and the invariant: the early return, the errors and the flush.
use medb.Base.{
  ◌≡◌, refl, inl, inr, Bool-cases, Option-cases, none, some, List, [], arith, Bytes, is_empty, ◌&&◌,
  ◌==◌,
}
use medb.Result.{Error, Result, ok, err, Result-cases}
use medb.Store.{Record}
use medb.Store.Cells.{Cell, Value}
use medb.Codec.{Codec, JsonLaws}
use medb.Disk.{Disk}
use medb.Snapshot.{Plan, capture, flush}
use medb.Snapshot.Cut.{Flushed}
use medb.Db.{Db, take_snapshot, write_snapshot}
use medb.Db.Invariant.{Inv}
use medb.Db.Steps.InPlace.{goal, flushed, cut_Inv, uncut_Inv}

module _ {c : Codec} {IsText IsJson : Bytes → Type 0} (laws : JsonLaws c IsText IsJson) where
  -- The invariant after a failure that left the disk and the collections as they were.
  unchanged_Inv :
      (db db' : Db) (acked : Cell → Value) (unacked : List Record) (x : Error)
      → Inv c IsText IsJson db acked unacked
      → db'.run_err ≡ some x
      → db'.disk ≡ db.disk
      → db'.store.colls ≡ db.store.colls
      → Inv c IsText IsJson db' acked unacked
  unchanged_Inv db db' acked unacked x inv failed disk colls = record {
    logged = inv.logged;
    torn = inv.torn;
    on_disk = rw disk inv.on_disk;
    safe = rw disk inv.safe;
    memory = rw colls inv.memory;
    plain = rw colls inv.plain;
    wire = inv.wire;
    healthy = λ e. cc;
  }

  module _ (db : Db) (acked : Cell → Value) (unacked : List Record)
      (inv : Inv c IsText IsJson db acked unacked) (no_error : db.run_err ≡ none) (plan : Plan)
      (captured : capture c db.store.dirty db.store.colls ≡ ok plan) where
    abbrev cleared : Db
    cleared = record db { store = record { colls = db.store.colls; dirty = [] } }

    abbrev after_flush : Result (Unit {0}) × Disk → Db
    after_flush (ok _, d) = record cleared { disk = d; size = 0 }
    after_flush (err e, d) = record cleared { disk = d; run_err = some e }

    take_snapshot-after_flush : take_snapshot c db ≡ after_flush (flush plan db.disk)
    unfolding take_snapshot
    take_snapshot-after_flush = rw (captured, take_snapshot) (ground arith)

    after_flush-Inv :
        (r : Result (Unit {0})) (d' : Disk)
        → Flushed (goal laws db acked unacked inv no_error plan captured) plan db.disk r d'
        → Inv c IsText IsJson (after_flush (r, d')) acked unacked
    after_flush-Inv (ok tt) d' fl =
        let (wal, place) = fl.done refl in
        cut_Inv laws db acked unacked inv no_error plan captured d' (ok tt) fl
          (after_flush (ok tt, d')) refl refl wal place (λ _. (refl, refl, refl))
    after_flush-Inv (err e) d' fl = elim fl.wal [
      | inl same ↦
          uncut_Inv laws db acked unacked inv no_error plan captured d' (err e) fl
            (after_flush (err e, d')) e refl refl refl same
      | inr (empty, place) ↦
          cut_Inv laws db acked unacked inv no_error plan captured d' (err e) fl
            (after_flush (err e, d')) refl refl empty place (λ none_left. cc)
    ]

    captured-Inv : Inv c IsText IsJson (take_snapshot c db) acked unacked
    captured-Inv = rw take_snapshot-after_flush (
        after_flush-Inv (flush plan db.disk).0 (flush plan db.disk).1
          (flushed laws db acked unacked inv no_error plan captured))

  take_snapshot-Inv :
      (db : Db) (acked : Cell → Value) (unacked : List Record)
      → Inv c IsText IsJson db acked unacked
      → db.run_err ≡ none
      → Inv c IsText IsJson (take_snapshot c db) acked unacked
  unfolding take_snapshot
  take_snapshot-Inv db acked unacked inv no_error =
      elim (Result-cases (capture c db.store.dirty db.store.colls)) [
        | inl (plan, captured) ↦ captured-Inv db acked unacked inv no_error plan captured
        | inr (e, failed) ↦
            rw (failed, take_snapshot) (unchanged_Inv db _ acked unacked e inv refl refl refl)
      ]

  -- `writeSnapshot` keeps the invariant, for the same acknowledged state and the same records in
  -- flight, whether it has nothing to do, succeeds, or fails at any of its calls.
  pub write_snapshot-Inv :
      (db : Db) (acked : Cell → Value) (unacked : List Record)
      → Inv c IsText IsJson db acked unacked
      → Inv c IsText IsJson (write_snapshot c db) acked unacked
  unfolding write_snapshot
  write_snapshot-Inv db acked unacked inv = elim (Option-cases db.run_err) [
    | inr (x, failed) ↦ rw (failed, write_snapshot) inv
    | inl no_error ↦ elim (Bool-cases (is_empty db.store.dirty && db.size == 0)) [
      | inl idle ↦ rw (no_error, idle, write_snapshot) inv
      | inr due ↦
          rw (no_error, due, write_snapshot) (take_snapshot-Inv db acked unacked inv no_error)
    ]
  ]
