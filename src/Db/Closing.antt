-- ===== src/Db/Closing.antt =====
-- `Close` of medb.go, on a database with no write in flight.
use medb.Base.{
  fun_ext, ◌≡◌, sym, subst, ◌∙◌, inl, inr, Bool-cases, Option-cases, true, false, [], arith, Bytes,
}
use medb.Store.Cells.{Cell, Value}
use medb.Store.History.{touch_all-nil}
use medb.Codec.{Codec, JsonLaws}
use medb.Disk.{Disk, attempt}
use medb.Db.{Db, write_log, write_snapshot, on_stop}
use medb.Db.Invariant.{Inv, Holds, IsNamed}
use medb.Db.Steps.Log.{write_log-Inv_ok, write_log-Inv_failed}
use medb.Db.Steps.Tick.{write_snapshot-Inv}
use medb.Db.Recovery.Reopen.{settled-Holds}
use medb.Db.Run.{close_db}
use medb.Db.Crash.{same-Holds, shut-Inv}

module _ {c : Codec} {IsText IsJson : Bytes → Type 0} where
  -- What a directory holds is a matter of the validly named collections.
  pub named-Holds :
      (d : Disk) (state state' : Cell → Value)
      → ((k : Cell) → IsNamed k → state k ≡ state' k)
      → Holds c IsText IsJson d state
      → Holds c IsText IsJson d state'
  named-Holds d state state' same h = record {
    logged = h.logged;
    torn = h.torn;
    on_disk = h.on_disk;
    value = λ k named. h.value k named ∙ same k named;
  }

  module _ (laws : JsonLaws c IsText IsJson) where
    settled_log :
        (db : Db) (acked : Cell → Value)
        → Inv c IsText IsJson db acked []
        → Inv c IsText IsJson (write_log db) acked []
    settled_log db acked inv = elim (Option-cases (write_log db).run_err) [
      | inl well ↦
          subst (λ s. Inv c IsText IsJson (write_log db) s []) (fun_ext λ k. rw (touch_all-nil k))
            (write_log-Inv_ok laws db acked [] inv well)
      | inr (x, failed) ↦ write_log-Inv_failed laws db acked [] x inv failed
    ]

    close_files :
        (db : Db)
        → db.is_closed ≡ false
        → let db' = write_snapshot c (write_log (record db { is_closed = true })) in
          ((close_db c db).1.disk.wal ≡ db'.disk.wal)
          × ((close_db c db).1.disk.files ≡ db'.disk.files)
    unfolding close_db on_stop attempt
    close_files db live = (ground arith, ground arith)

    -- Whatever calls fail while a database is closed that has no write in flight, the directory holds the
    -- acknowledged state.
    pub close_settled :
        (db : Db) (acked : Cell → Value)
        → Inv c IsText IsJson db acked []
        → Holds c IsText IsJson (close_db c db).1.disk acked
    close_settled db acked inv = elim (Bool-cases db.is_closed) [
      | inl closed ↦
          let same : (close_db c db).1 ≡ db = unfold close_db in ground arith in
          subst (λ db'. Holds c IsText IsJson db'.disk acked) (sym same)
            (settled-Holds laws db acked inv)
      | inr live ↦
          let logged =
            settled_log (record db { is_closed = true }) acked (shut-Inv laws db acked [] inv) in
          let db' = write_snapshot c (write_log (record db { is_closed = true })) in
          let (wal, files) = close_files db live in
          same-Holds laws db'.disk (close_db c db).1.disk acked wal files (
            settled-Holds laws db' acked (
              write_snapshot-Inv laws (write_log (record db { is_closed = true })) acked [] logged))
    ]
