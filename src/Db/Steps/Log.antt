-- ===== src/Db/Steps/Log.antt =====
-- `writeLog` of wal.go and the invariant.
use medb.Base.{
  ◌≡◌, refl, ap, sym, subst, ◌∙◌, ℕ, inl, inr, Option, Option-cases, none, some, List, [], ◌∷◌,
  ◌++◌, arith, Bytes, length, length-append,
}
use medb.Result.{Error}
use medb.Store.{Record}
use medb.Store.Cells.{Cell, Value, over}
use medb.Store.History.{touch_all, touch_all-nil}
use medb.Codec.{Codec, JsonLaws}
use medb.Wal.{encode_batch}
use medb.Wal.RoundTrip.{Encodes}
use medb.Wal.Prefix.{batch_prefix}
use medb.Disk.{Disk}
use medb.Db.{Db, log_batch, write_log}
use medb.Db.Invariant.{Inv, OnDisk, recovered, IsNamed}
use medb.Db.Steps.Batch.{
  log_batch_ok, log_batch_failed, log_batch_stuck, grown-OnDisk, grown_value, kept_untouched, full,
}

-- The database after a batch with a commit, given what came of the batch.
abbrev after_batch : ℕ → Option Error × Disk × ℕ → Db → Db
after_batch id (e, d, n) db = record db {
  pending = [];
  commit = none;
  disk = d;
  size = n;
  run_err = e;
  settled = (id, e) ∷ db.settled;
}

write_log_idle : (db : Db) → db.commit ≡ none → write_log db ≡ record db { pending = [] }
unfolding write_log
write_log_idle db e = ground arith

write_log_batch :
    (db : Db) (id : ℕ)
    → db.commit ≡ some id
    → write_log db ≡ after_batch id (log_batch db.run_err db.pending db.disk db.size) db
unfolding write_log
write_log_batch db id e = rw (e, write_log)

Encodes-nil : (c : Codec) (recs : List Record) → Encodes c recs [] → recs ≡ []
Encodes-nil c [] e = refl
Encodes-nil c (r ∷ recs) e = absurd e

module _ {c : Codec} {IsText IsJson : Bytes → Type 0} (laws : JsonLaws c IsText IsJson) where
  abbrev acknowledge : List Record → (Cell → Value) → Cell → Value
  acknowledge recs acked k = over (touch_all recs k) (acked k)

  module _ (db : Db) (acked : Cell → Value) (unacked : List Record)
      (inv : Inv c IsText IsJson db acked unacked) where
    batch_Inv_ok :
        (id : ℕ)
        → let r = log_batch db.run_err db.pending db.disk db.size in
          r.0 ≡ none → Inv c IsText IsJson (after_batch id r db) (acknowledge unacked acked) []
    batch_Inv_ok id h =
        let r = log_batch db.run_err db.pending db.disk db.size in
        let (no_error, wal, files, size) = log_batch_ok db.run_err db.pending db.disk db.size h in
        let ok_before = inv.healthy no_error in
        let od : OnDisk c IsText IsJson db.disk inv.logged [] = rw ok_before.whole at inv.on_disk in
        let p = full laws unacked db.pending ok_before.pending in
        record {
          logged = inv.logged ++ unacked;
          torn = [];
          on_disk =
              grown-OnDisk laws db.disk r.1 inv.logged unacked (encode_batch db.pending) od files
                wal inv.wire p;
          safe = λ k named _.
              grown_value laws db.disk r.1 inv.logged unacked k files ∙ acknowledged k named;
          memory = λ k. rw (touch_all-nil k) (inv.memory k);
          plain = inv.plain;
          wire = tt;
          healthy = λ _. record {
            whole = refl;
            sized =
                size
                ∙ omega (
                  arith,
                  ok_before.sized,
                  ap length wal,
                  length-append db.disk.wal (encode_batch db.pending),
                );
            pending = tt;
            waiting = λ _. refl;
            clean = λ k named clean. rw files (ok_before.clean k named clean);
          };
        }
      where
        acknowledged :
            (k : Cell)
            → IsNamed k
            → over (touch_all unacked k) (recovered c db.disk inv.logged k)
              ≡ over (touch_all unacked k) (acked k)
        acknowledged k named = elim (Option-cases (touch_all unacked k)) [
          | inl untouched ↦ rw untouched (inv.safe k named untouched)
          | inr (v, touched) ↦ rw touched
        ]

    batch_Inv_failed :
        (id : ℕ) (x : Error)
        → db.run_err ≡ none
        → let r = log_batch none db.pending db.disk db.size in
          r.0 ≡ some x → Inv c IsText IsJson (after_batch id r db) acked unacked
    batch_Inv_failed id x no_error h =
        let r = log_batch none db.pending db.disk db.size in
        let ((n, wal), files) = log_batch_failed db.pending db.disk db.size x h in
        let ok_before = inv.healthy no_error in
        let od : OnDisk c IsText IsJson db.disk inv.logged [] = rw ok_before.whole at inv.on_disk in
        let p = batch_prefix c laws n unacked db.pending inv.wire ok_before.pending in
        record {
          logged = inv.logged ++ p.kept;
          torn = p.torn;
          on_disk = grown-OnDisk laws db.disk r.1 inv.logged unacked _ od files wal inv.wire p;
          safe = λ k named untouched.
              grown_value laws db.disk r.1 inv.logged p.kept k files
              ∙ (let kept = kept_untouched laws unacked p.kept p.lost k p.parts untouched in
                  rw kept (inv.safe k named untouched));
          memory = inv.memory;
          plain = inv.plain;
          wire = inv.wire;
          healthy = λ e. cc;
        }

    -- With no commit open there is nothing in flight, as long as no call has failed.
    idle_Inv_ok :
        db.commit ≡ none
        → db.run_err ≡ none
        → Inv c IsText IsJson (record db { pending = [] }) (acknowledge unacked acked) []
    idle_Inv_ok idle no_error =
        let h = inv.healthy no_error in
        let none_left : unacked ≡ [] =
          Encodes-nil c unacked (subst (Encodes c unacked) (h.waiting idle) h.pending) in
        let untouched : (k : Cell) → touch_all unacked k ≡ none =
          λ k. rw none_left (touch_all-nil k) in
        record {
          logged = inv.logged;
          torn = inv.torn;
          on_disk = inv.on_disk;
          safe = λ k named _. rw (untouched k) (inv.safe k named (untouched k));
          memory = λ k. rw (touch_all-nil k) (inv.memory k);
          plain = inv.plain;
          wire = tt;
          healthy = λ _. record {
            whole = h.whole;
            sized = h.sized;
            pending = tt;
            waiting = λ _. refl;
            clean = h.clean;
          };
        }

    -- After a failure the queue is dropped and the disk is left alone.
    stuck_Inv :
        (db' : Db) (x : Error)
        → db'.run_err ≡ some x
        → db'.disk ≡ db.disk
        → db'.store ≡ db.store
        → Inv c IsText IsJson db' acked unacked
    stuck_Inv db' x failed disk store = record {
      logged = inv.logged;
      torn = inv.torn;
      on_disk = rw disk inv.on_disk;
      safe = rw disk inv.safe;
      memory = rw store inv.memory;
      plain = rw store inv.plain;
      wire = inv.wire;
      healthy = λ e. cc;
    }

  -- A successful `writeLog` acknowledges every record that was in flight.
  pub write_log-Inv_ok :
      (db : Db) (acked : Cell → Value) (unacked : List Record)
      → Inv c IsText IsJson db acked unacked
      → (write_log db).run_err ≡ none
      → Inv c IsText IsJson (write_log db) (acknowledge unacked acked) []
  write_log-Inv_ok db acked unacked inv h = elim (Option-cases db.commit) [
    | inl idle ↦
        let e = write_log_idle db idle in rw e (idle_Inv_ok db acked unacked inv idle (rw e at h))
    | inr (id, open') ↦
        let e = write_log_batch db id open' in
        rw e (batch_Inv_ok db acked unacked inv id (rw e at h))
  ]

  -- A `writeLog` that fails, or that finds an earlier failure, acknowledges nothing, and what was
  -- acknowledged stays safe.
  pub write_log-Inv_failed :
      (db : Db) (acked : Cell → Value) (unacked : List Record) (x : Error)
      → Inv c IsText IsJson db acked unacked
      → (write_log db).run_err ≡ some x
      → Inv c IsText IsJson (write_log db) acked unacked
  write_log-Inv_failed db acked unacked x inv h = elim (Option-cases db.commit) [
    | inl idle ↦
        let e = write_log_idle db idle in
        rw e (stuck_Inv db acked unacked inv (record db { pending = [] }) x (rw e at h) refl refl)
    | inr (id, open') ↦
        let e = write_log_batch db id open' in
        let h' = rw e at h in
        elim (Option-cases db.run_err) [
          | inl no_error ↦ rw e (
              subst
                (λ o.
                  Inv c IsText IsJson (after_batch id (log_batch o db.pending db.disk db.size) db)
                    acked unacked)
                (sym no_error)
                (batch_Inv_failed db acked unacked inv id x no_error (rw no_error at h')))
          | inr (y, failed) ↦
              let same = log_batch_stuck y db.pending db.disk db.size in
              let db' = after_batch id (log_batch (some y) db.pending db.disk db.size) db in
              rw e (
                subst
                  (λ o.
                    Inv c IsText IsJson (after_batch id (log_batch o db.pending db.disk db.size) db)
                      acked unacked)
                  (sym failed)
                  (stuck_Inv db acked unacked inv db' y (ap (λ t. t.0) same) (ap (λ t. t.1) same)
                    refl))
        ]
  ]
