-- ===== src/Db/Steps/InPlace.antt =====
-- The invariant on a disk that the calls of `writeSnapshot` (snapshot.go) have left.
use medb.Base.{
  ◌≡◌, refl, ap, sym, ◌∙◌, ◌⊎◌, inl, inr, Option, Option-cases, none, some, List, [], Bytes, lookup,
  length,
}
use medb.Result.{Error, Result, ok}
use medb.Store.{Record}
use medb.Store.Cells.{Cell, doc_cell, Value, home, view, over, read_cell}
use medb.Store.History.{touch_all, touch_all-nil}
use medb.Codec.{Codec, JsonLaws}
use medb.Wal.{encode_batch}
use medb.Disk.{Disk}
use medb.Snapshot.{Plan, capture, flush}
use medb.Snapshot.Flush.{file_of}
use medb.Snapshot.Cut.{Flushed, InPlace, flush-Flushed}
use medb.Snapshot.Capture.{target, Captures, capture-Captures}
use medb.Snapshot.Load.{AllReadable}
use medb.Db.{Db}
use medb.Db.Files.{file_view, goal-view, goal-view_encoded, goal-readable}
use medb.Db.Invariant.{Inv, IsHealthy, recovered, IsNamed, PlainCells}

pub same_file :
    (c : Codec) (d d' : Disk) (k : Cell)
    → file_of (home k) d' ≡ file_of (home k) d
    → file_view c d' k ≡ file_view c d k
same_file c d d' k e =
    ap (λ (o : Option Bytes). read_cell (elim o [ none ↦ none | some b ↦ c.unmarshal_docs b ]) k) e

-- A log that gives a cell the value `v` gives it `v` over `v` too.
over_same : (o : Option Value) (f v : Value) → over o f ≡ v → over o v ≡ v
over_same none f v h = refl
over_same (some x) f v h = h

module _ {c : Codec} {IsText IsJson : Bytes → Type 0} (laws : JsonLaws c IsText IsJson) where
  module _ (db : Db) (acked : Cell → Value) (unacked : List Record)
      (inv : Inv c IsText IsJson db acked unacked) (no_error : db.run_err ≡ none) (plan : Plan)
      (captured : capture c db.store.dirty db.store.colls ≡ ok plan) where
    abbrev pub goal : Bytes → Option Bytes
    goal = target c db.store.colls (λ name. file_of name db.disk)

    abbrev before : IsHealthy c IsText IsJson db unacked inv.torn
    before = inv.healthy no_error

    covers : Captures c db.store.colls (λ name. file_of name db.disk) db.store.dirty plan
    covers =
        capture-Captures c db.store.colls (λ name. file_of name db.disk) db.store.dirty plan
          captured

    pub flushed : Flushed goal plan db.disk (flush plan db.disk).0 (flush plan db.disk).1
    flushed = flush-Flushed goal plan covers.snaps covers.drops db.disk

    module _ (d' : Disk) (r : Result (Unit {0})) (fl : Flushed goal plan db.disk r d') where
      -- A file says what it said before, or what the memory says.
      old_or_memory :
          (k : Cell)
          → (file_view c d' k ≡ file_view c db.disk k) ⊎ (file_view c d' k ≡ view db.store.colls k)
      old_or_memory k = elim (fl.files (home k)) [
        | inl same ↦ inl (same_file c db.disk d' k same)
        | inr h ↦ elim (goal-view laws db.store.colls inv.plain db.disk d' (home k) h) [
          | inl same ↦ inl (same_file c db.disk d' k same)
          | inr there ↦ inr (there k refl)
        ]
      ]

      -- Once the files of the plan are in place, every file says what the memory says.
      all_memory :
          InPlace goal plan d' → (k : Cell) → IsNamed k → file_view c d' k ≡ view db.store.colls k
      all_memory place k named = elim (Option-cases (lookup (home k) db.store.dirty)) [
        | inl clean ↦ elim (old_or_memory k) [
          | inl same ↦ same ∙ before.clean k named clean
          | inr there ↦ there
        ]
        | inr (b, dirty) ↦
            goal-view_encoded laws db.store.colls inv.plain db.disk d' (home k)
              (covers.covered (home k) b d' dirty place)
              (λ coll has. covers.encoded (home k) b coll dirty has) k refl
      ]

      flushed-plain : PlainCells c IsText IsJson (file_view c d')
      flushed-plain coll i v named h = elim (old_or_memory (doc_cell coll i)) [
        | inl same ↦ inv.on_disk.plain coll i v named (sym same ∙ h)
        | inr there ↦ inv.plain coll i v (sym there ∙ h)
      ]

      flushed_value :
          (k : Cell)
          → IsNamed k
          → touch_all unacked k ≡ none
          → recovered c db.disk inv.logged k ≡ acked k
          → over (touch_all inv.logged k) (file_view c d' k) ≡ acked k
      flushed_value k named untouched old = elim (old_or_memory k) [
        | inl same ↦ rw same old
        | inr there ↦
            rw (there, inv.memory k, untouched)
              (over_same (touch_all inv.logged k) (file_view c db.disk k) (acked k) old)
      ]

      flushed-AllReadable : AllReadable c d'.files
      flushed-AllReadable =
          goal-readable laws db.store.colls inv.plain db.disk d' inv.on_disk.readable fl.files

      -- The log was not cut.
      pub uncut_Inv :
          (db' : Db) (x : Error)
          → db'.run_err ≡ some x
          → db'.disk ≡ d'
          → db'.store.colls ≡ db.store.colls
          → d'.wal ≡ db.disk.wal
          → Inv c IsText IsJson db' acked unacked
      uncut_Inv db' x failed disk colls wal = record {
        logged = inv.logged;
        torn = inv.torn;
        on_disk = rw disk (record {
          batch = inv.on_disk.batch;
          wal = wal ∙ inv.on_disk.wal;
          encoded = inv.on_disk.encoded;
          wire = inv.on_disk.wire;
          line = inv.on_disk.line;
          readable = flushed-AllReadable;
          plain = flushed-plain;
        });
        safe =
            rw disk
              (λ k named untouched. flushed_value k named untouched (inv.safe k named untouched));
        memory = rw colls inv.memory;
        plain = rw colls inv.plain;
        wire = inv.wire;
        healthy = λ e. cc;
      }

      -- The log was cut: the files have all that the memory has.
      pub cut_Inv :
          (db' : Db)
          → db'.disk ≡ d'
          → db'.store.colls ≡ db.store.colls
          → d'.wal ≡ []
          → InPlace goal plan d'
          → (db'.run_err ≡ none
              → (db'.size ≡ 0) × (db'.pending ≡ db.pending) × (db'.commit ≡ db.commit))
          → Inv c IsText IsJson db' acked unacked
      unfolding encode_batch
      cut_Inv db' disk colls wal place rest = record {
        logged = [];
        torn = [];
        on_disk = rw disk (record {
          batch = [];
          wal = wal;
          encoded = tt;
          wire = tt;
          line = tt;
          readable = flushed-AllReadable;
          plain = flushed-plain;
        });
        safe = rw disk (λ k named untouched.
            ap (λ o. over o (file_view c d' k)) (touch_all-nil k)
            ∙ all_memory place k named
            ∙ inv.memory k
            ∙ ap (λ o. over o (acked k)) untouched);
        memory = rw colls inv.memory;
        plain = rw colls inv.plain;
        wire = inv.wire;
        healthy = λ e.
            let (size, pending, commit) = rest e in
            record {
              whole = refl;
              sized = size ∙ sym (ap length (ap (λ (d : Disk). d.wal) disk ∙ wal));
              pending = rw pending before.pending;
              waiting = rw (pending, commit) before.waiting;
              clean = λ k named _. rw (disk, colls) (all_memory place k named);
            };
      }
