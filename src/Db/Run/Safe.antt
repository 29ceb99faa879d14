-- ===== src/Db/Run/Safe.antt =====
-- What the disk has, over any run, of what the clients were told.
use medb.Base.{
  Bytes, ◌≡◌, refl, sym, subst, ◌∙◌, inl, inr, Bool-cases, Option-cases, none, List, [], ◌∷◌, ◌++◌,
  arith, ℕ, leb, fun_ext,
}
use medb.Result.{ok, Result-cases}
use medb.Store.{Record}
use medb.Store.Cells.{Cell, Value, view, over}
use medb.Store.History.{touch_all, touch_all-append}
use medb.Codec.{Codec, JsonLaws, IsWire}
use medb.Disk.{Outcome}
use medb.Db.{Db, write, write_log, write_snapshot, on_notify, on_tick, open_db, recover}
use medb.Db.Invariant.{Inv, Holds, IsNamed, recovered}
use medb.Db.Steps.Write.{write-Inv, write_refused}
use medb.Db.Steps.Log.{write_log-Inv_ok, write_log-Inv_failed}
use medb.Db.Steps.Tick.{write_snapshot-Inv}
use medb.Db.Recovery.Reopen.{open_db-Reopened, recover_faultless}
use medb.Db.Run.{Event, call, notify, tick, step, run, Calls, watch, watch_all, add_waiting, tell}

abbrev pub records : List (ℕ × Record) → List Record
records [] = []
records ((_, r) ∷ xs) = r ∷ records xs

records-append : (xs ys : List (ℕ × Record)) → records (xs ++ ys) ≡ records xs ++ records ys
records-append [] ys = refl
records-append ((n, r) ∷ xs) ys = rw (records-append xs ys)

-- The state in which exactly these records were applied, cell by cell.
abbrev pub with_records : List (ℕ × Record) → (Cell → Value) → Cell → Value
with_records xs start k = over (touch_all (records xs) k) (start k)

with_records-append :
    (xs ys : List (ℕ × Record)) (start : Cell → Value)
    → (λ k. over (touch_all (records ys) k) (with_records xs start k))
      ≡ with_records (xs ++ ys) start
with_records-append xs ys start =
    fun_ext λ k. ground (arith, records-append xs ys, touch_all-append (records xs) (records ys) k)

-- The calls of an event list have records that come back from the log.
abbrev pub WireEvents : (IsText IsJson : Bytes → Type 0) → List Event → Type 0
WireEvents IsText IsJson [] = Unit
WireEvents IsText IsJson (call r ∷ events) =
    IsWire IsText IsJson r × WireEvents IsText IsJson events
WireEvents IsText IsJson (notify ∷ events) = WireEvents IsText IsJson events
WireEvents IsText IsJson (tick ∷ events) = WireEvents IsText IsJson events

module _ {c : Codec} {IsText IsJson : Bytes → Type 0} (laws : JsonLaws c IsText IsJson)
    (start : Cell → Value) where
  -- The invariant, with what the clients know.
  abbrev pub Kept : Db → Calls → Type 0
  Kept db w = Inv c IsText IsJson db (with_records w.told start) (records w.waiting)

  write-Kept :
      (r : Record) (db : Db) (w : Calls)
      → IsWire IsText IsJson r
      → Kept db w
      → Kept (write c r db).1 (add_waiting r (write c r db).0 w)
  write-Kept r db w wire inv = elim (Result-cases (write c r db).0) [
    | inl (id, e) ↦ rw e (
        rw (records-append w.waiting ((id, r) ∷ []))
          (write-Inv laws db (with_records w.told start) (records w.waiting) r id inv wire e))
    | inr (x, e) ↦ rw (e, write_refused laws db r x e) inv
  ]

  write_log-Kept :
      (db : Db) (w : Calls) → Kept db w → Kept (write_log db) (tell (write_log db).run_err w)
  write_log-Kept db w inv = elim (Option-cases (write_log db).run_err) [
    | inl e ↦
        subst (λ o. Kept (write_log db) (tell o w)) (sym e)
          (subst (λ s. Inv c IsText IsJson (write_log db) s [])
            (with_records-append w.told w.waiting start)
            (write_log-Inv_ok laws db (with_records w.told start) (records w.waiting) inv e))
    | inr (x, e) ↦
        subst (λ o. Kept (write_log db) (tell o w)) (sym e)
          (write_log-Inv_failed laws db (with_records w.told start) (records w.waiting) x inv e)
  ]

  write_snapshot-Kept : (db : Db) (w : Calls) → Kept db w → Kept (write_snapshot c db) w
  write_snapshot-Kept db w inv =
      write_snapshot-Inv laws db (with_records w.told start) (records w.waiting) inv

  on_notify-Kept : (db : Db) (w : Calls) → Kept (write_log db) w → Kept (on_notify c db) w
  unfolding on_notify
  on_notify-Kept db w inv = elim (Bool-cases (leb (write_log db).flush_bytes (write_log db).size)) [
    | inl full ↦ rw (full, on_notify) (write_snapshot-Kept (write_log db) w inv)
    | inr small ↦ rw (small, on_notify) inv
  ]

  -- Any run keeps the invariant, for what the clients know by then.
  pub run-Kept :
      (events : List Event) (db : Db) (w : Calls)
      → WireEvents IsText IsJson events
      → Kept db w
      → Kept (run c events db) (watch_all c events db w)
  unfolding run watch_all step watch on_tick
  run-Kept [] db w wire inv = inv
  run-Kept (call r ∷ events) db w wire inv =
      run-Kept events _ _ wire.1 (write-Kept r db w wire.0 inv)
  run-Kept (notify ∷ events) db w wire inv =
      run-Kept events _ _ wire (on_notify-Kept db _ (write_log-Kept db w inv))
  run-Kept (tick ∷ events) db w wire inv = run-Kept events _ _ wire (write_snapshot-Kept db w inv)

  Inv-Holds :
      (db : Db) (w : Calls) (faults : List Outcome)
      → (inv : Kept db w)
      → Holds c IsText IsJson (record db.disk { faults = faults }) (recovered c db.disk inv.logged)
  Inv-Holds db w faults inv = record {
    logged = inv.logged;
    torn = inv.torn;
    on_disk = record {
      batch = inv.on_disk.batch;
      wal = inv.on_disk.wal;
      encoded = inv.on_disk.encoded;
      wire = inv.on_disk.wire;
      line = inv.on_disk.line;
      readable = inv.on_disk.readable;
      plain = inv.on_disk.plain;
    };
    value = λ k named. refl;
  }

  -- What a database opened on the disk of another has.
  abbrev pub Survives : Calls → Db → Type 0
  Survives w db =
      (k : Cell)
      → IsNamed k
      → touch_all (records w.waiting) k ≡ none
      → view db.store.colls k ≡ with_records w.told start k

  pub reopened-Survives :
      (db : Db) (w : Calls) (m f : ℕ) (faults : List Outcome) (db' : Db)
      → Kept db w
      → (open_db c m f (record db.disk { faults = faults })).0 ≡ ok db'
      → Survives w db'
  reopened-Survives db w m f faults db' inv e k named untouched =
      let re =
        open_db-Reopened laws m f (record db.disk { faults = faults })
          (recovered c db.disk inv.logged) (Inv-Holds db w faults inv) in
      let (_, _, _, view', _, _) = re.opened db' e in view' k named ∙ inv.safe k named untouched

  pub recovered-Survives :
      (db : Db) (w : Calls) (m f : ℕ)
      → Kept db w
      → (db' : Db) × ((recover c m f (record db.disk { faults = [] })).0 ≡ ok db') × Survives w db'
  recovered-Survives db w m f inv =
      let (db', e, view') =
        recover_faultless laws m f (record db.disk { faults = [] }) (recovered c db.disk inv.logged)
          (Inv-Holds db w [] inv) refl in
      (db', e, λ k named untouched. view' k named ∙ inv.safe k named untouched)
