-- ===== src/Db/Steps/Write.antt =====
-- `DB.write` of medb.go and the invariant.
use medb.Base.{
  ◌≡◌, refl, ap, sym, ◌∙◌, inl, inr, Option-cases, some, List, [], ◌∷◌, ◌++◌, All-append, arith,
  Bytes, bytes_eq_iff, ℕ, suc,
}
use medb.Result.{Error, ok, err}
use medb.Store.{Op, op_set, op_del, op_drop, op_other, Record, Store, apply}
use medb.Store.Cells.{
  Cell, doc_cell, Value, home, view, touch, touch_op, apply-view, view-read, read_cell,
}
use medb.Store.History.{touch_all-snoc, apply-IsClean}
use medb.Codec.{Codec, JsonLaws, IsWire}
use medb.Wal.Prefix.{Encodes-append}
use medb.Db.{Db, write, enqueue}
use medb.Db.Files.{IsPlain}
use medb.Db.Invariant.{Inv}

module _ (IsText IsJson : Bytes → Type 0) where
  wire_doc : (r : Record) → IsWire IsText IsJson r → r.op ≡ op_set → IsJson r.doc
  wire_doc r (_, _, inl (_, json)) e = json
  wire_doc r (_, _, inr (inl (del, _))) e = cc
  wire_doc r (_, _, inr (inr (drop, _))) e = cc

  touch_op-plain :
      (r : Record) (op : Op) (coll i v : Bytes)
      → r.op ≡ op
      → IsWire IsText IsJson r
      → touch_op op r (doc_cell coll i) ≡ some (some v)
      → IsText i × IsJson v
  unfolding touch_op
  touch_op-plain r op_set coll i v e w h =
      let id : r.id ≡ i = ground (arith, bytes_eq_iff r.id i) in
      let doc : r.doc ≡ v = ground arith in (rw id at (w.1), rw doc at (wire_doc r w e))
  touch_op-plain r op_del coll i v e w h = ground arith
  touch_op-plain r op_drop coll i v e w h = ground arith
  touch_op-plain r (op_other x) coll i v e w h = ground arith

  -- A record that comes back from the log leaves only plain documents behind.
  pub apply-IsPlain :
      (r : Record) (s : Store)
      → IsWire IsText IsJson r
      → IsPlain IsText IsJson (view s.colls)
      → IsPlain IsText IsJson (view (apply r s).colls)
  unfolding touch
  apply-IsPlain r s w plain coll i v h = elim (Option-cases (touch r (doc_cell coll i))) [
    | inl untouched ↦
        plain coll i v (rw (untouched) at (sym (apply-view r s (doc_cell coll i)) ∙ h))
    | inr (value, touched) ↦
        touch_op-plain r r.op coll i v refl w
          (touched ∙ ap some (rw (touched) at (sym (apply-view r s (doc_cell coll i)) ∙ h)))
  ]

abbrev enqueued : Bytes → ℕ → ℕ → Db → Db
enqueued buf id n db = record db {
  commit = some id;
  next_commit = n;
  pending = db.pending ++ buf ∷ [];
}

enqueue_lem :
    (buf : Bytes) (db : Db) → (id : ℕ) × (n : ℕ) × ((enqueue buf db).1 ≡ enqueued buf id n db)
unfolding enqueue
enqueue_lem buf db = elim (Option-cases db.commit) [
  | inl e ↦ (db.next_commit, suc db.next_commit, rw (e, enqueue))
  | inr (id, e) ↦ (id, db.next_commit, ground arith)
]

module _ {c : Codec} {IsText IsJson : Bytes → Type 0} (laws : JsonLaws c IsText IsJson) where
  abbrev applied : Record → Db → Db
  applied r db = record db { store = apply r db.store }

  write_inv :
      (db : Db) (r : Record) (id : ℕ)
      → (write c r db).0 ≡ ok id
      → (buf : Bytes) × (c.marshal_record r ≡ some buf)
        × ((write c r db).1 ≡ (enqueue buf (applied r db)).1)
  unfolding write
  write_inv db r id h = ground arith

  module _ (db : Db) (acked : Cell → Value) (unacked : List Record) (r : Record) where
    -- The invariant of the new store and queue, whatever the commit.
    applied-Inv :
        (buf : Bytes) (id n : ℕ)
        → Inv c IsText IsJson db acked unacked
        → IsWire IsText IsJson r
        → c.marshal_record r ≡ some buf
        → Inv c IsText IsJson (enqueued buf id n (applied r db)) acked (unacked ++ r ∷ [])
    applied-Inv buf id n inv w enc = record {
      logged = inv.logged;
      torn = inv.torn;
      on_disk = inv.on_disk;
      safe = λ k named untouched. inv.safe k named (ground (arith, touch_all-snoc unacked r k));
      memory =
          λ k. ground (arith, apply-view r db.store k, touch_all-snoc unacked r k, inv.memory k);
      plain = apply-IsPlain IsText IsJson r db.store w inv.plain;
      wire = All-append (IsWire IsText IsJson) unacked (r ∷ []) inv.wire (w, tt);
      healthy = λ no_error.
          let h = inv.healthy no_error in
          record {
            whole = h.whole;
            sized = h.sized;
            pending = Encodes-append c unacked (r ∷ []) db.pending (buf ∷ []) h.pending (enc, tt);
            waiting = λ e. cc;
            clean = λ k named clean.
                let (before, same) = apply-IsClean r db.store (home k) clean in
                h.clean k named before
                ∙ view-read db.store.colls k
                ∙ ap (λ o. read_cell o k) (sym same)
                ∙ sym (view-read (apply r db.store).colls k);
          };
    }

  -- A write that is accepted keeps the invariant and adds its record to those that are not acknowledged,
  -- where that record comes back from the log (`IsWire`): its collection has a valid name, its id is
  -- valid UTF-8, which `write` does not check, and its document is compact just where one is set.
  pub write-Inv :
      (db : Db) (acked : Cell → Value) (unacked : List Record) (r : Record) (id : ℕ)
      → Inv c IsText IsJson db acked unacked
      → IsWire IsText IsJson r
      → (write c r db).0 ≡ ok id
      → Inv c IsText IsJson (write c r db).1 acked (unacked ++ r ∷ [])
  write-Inv db acked unacked r id inv w h =
      let (buf, enc, e) = write_inv db r id h in
      let (id', n, queued) = enqueue_lem buf (applied r db) in
      rw (e, queued) (applied-Inv db acked unacked r buf id' n inv w enc)

  -- A write that is refused changes nothing.
  pub write_refused :
      (db : Db) (r : Record) (e : Error) → (write c r db).0 ≡ err e → (write c r db).1 ≡ db
  unfolding write
  write_refused db r e h = ground arith
