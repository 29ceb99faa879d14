-- ===== src/Db/Recovery/Parts.antt =====
-- What `Open` is made of: the truncation of the log, the loaded collections, records applied in a row.
use medb.Base.{
  ◌≡◌, refl, ap, sym, ◌∙◌, ◌⊎◌, inl, inr, Bool-cases, List, [], ◌∷◌, ◌++◌, All, arith, Bytes, ℕ,
  take, lookup,
}
use medb.Name.{valid_name}
use medb.Result.{ok}
use medb.Store.{Record, Store, Colls, apply, apply_all}
use medb.Store.Cells.{Cell, doc_cell, home, view, view-read, read_cell}
use medb.Store.History.{IsClean, apply-IsClean}
use medb.Codec.{Codec, JsonLaws, IsWire, NoNewline}
use medb.Wal.{encode_batch}
use medb.Disk.{Disk, attempt}
use medb.Snapshot.{load, truncate_wal}
use medb.Snapshot.Load.{load-stored, load-invalid}
use medb.Db.{Db, write_snapshot, take_snapshot}
use medb.Db.Files.{file_view, IsPlain}
use medb.Db.Invariant.{OnDisk, IsNamed, PlainCells}
use medb.Db.Steps.Write.{apply-IsPlain}

-- A truncation leaves the files alone, and the log whole or cut.
pub truncate_wal-effect :
    (n : ℕ) (d : Disk)
    → ((truncate_wal n d).1.files ≡ d.files)
      × (((truncate_wal n d).1.wal ≡ d.wal) ⊎ ((truncate_wal n d).1.wal ≡ take n d.wal))
      × ((truncate_wal n d).0 ≡ ok tt → (truncate_wal n d).1.wal ≡ take n d.wal)
unfolding truncate_wal attempt
truncate_wal-effect n d = (ground arith, ground arith, ground arith)

-- Without a fault it succeeds.
pub truncate_wal_faultless : (n : ℕ) (d : Disk) → d.faults ≡ [] → (truncate_wal n d).0 ≡ ok tt
unfolding truncate_wal attempt
truncate_wal_faultless n d h = ground arith

pub write_snapshot-colls :
    (c : Codec) (db : Db) → (write_snapshot c db).store.colls ≡ db.store.colls
unfolding write_snapshot take_snapshot
write_snapshot-colls c db = ground arith

pub write_snapshot-commits :
    (c : Codec) (db : Db)
    → ((write_snapshot c db).settled ≡ db.settled) × ((write_snapshot c db).commit ≡ db.commit)
unfolding write_snapshot take_snapshot
write_snapshot-commits c db = (ground arith, ground arith)

pub apply_all-IsClean :
    (rs : List Record) (s : Store) (name : Bytes)
    → IsClean name (apply_all rs s)
    → lookup name (apply_all rs s).colls ≡ lookup name s.colls × IsClean name s
unfolding apply_all
apply_all-IsClean [] s name h = (refl, h)
apply_all-IsClean (r ∷ rs) s name h =
    let (same, clean) = apply_all-IsClean rs (apply r s) name h in
    let (before, same') = apply-IsClean r s name clean in (same ∙ same', before)

module _ (IsText IsJson : Bytes → Type 0) where
  pub apply_all-IsPlain :
      (rs : List Record) (s : Store)
      → All (IsWire IsText IsJson) rs
      → IsPlain IsText IsJson (view s.colls)
      → IsPlain IsText IsJson (view (apply_all rs s).colls)
  unfolding apply_all
  apply_all-IsPlain [] s w plain = plain
  apply_all-IsPlain (r ∷ rs) s w plain =
      apply_all-IsPlain rs (apply r s) w.1 (apply-IsPlain IsText IsJson r s w.0 plain)

module _ {c : Codec} {IsText IsJson : Bytes → Type 0} (laws : JsonLaws c IsText IsJson) where
  pub loaded_view :
      (d : Disk) (colls : Colls) (k : Cell)
      → load c d.files ≡ ok colls
      → IsNamed k
      → view colls k ≡ file_view c d k
  loaded_view d colls k loaded named =
      view-read colls k
      ∙ ap (λ o. read_cell o k) (load-stored c d.files colls (home k) named loaded)

  pub loaded-IsPlain :
      (d : Disk) (colls : Colls)
      → load c d.files ≡ ok colls
      → PlainCells c IsText IsJson (file_view c d)
      → IsPlain IsText IsJson (view colls)
  unfolding view
  loaded-IsPlain d colls loaded plain coll i v h = elim (Bool-cases (valid_name coll)) [
    | inl named ↦
        plain coll i v named (sym (loaded_view d colls (doc_cell coll i) loaded named) ∙ h)
    | inr invalid ↦ let gone = load-invalid c d.files colls coll invalid loaded in ground arith
  ]

  -- The log with its torn tail, or without.
  pub cut-OnDisk :
      (d d' : Disk) (logged : List Record) (torn torn' : Bytes)
      → (od : OnDisk c IsText IsJson d logged torn) → d'.files ≡ d.files
      → d'.wal ≡ encode_batch od.batch ++ torn'
      → NoNewline torn'
      → OnDisk c IsText IsJson d' logged torn'
  cut-OnDisk d d' logged torn torn' od files wal line = record {
    batch = od.batch;
    wal = wal;
    encoded = od.encoded;
    wire = od.wire;
    line = line;
    readable = rw files od.readable;
    plain = rw files od.plain;
  }
