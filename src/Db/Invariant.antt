-- ===== src/Db/Invariant.antt =====
-- What holds of a database between the steps of its worker and its clients: how the disk, the
-- memory and the records in flight relate to the state that was acknowledged.
use medb.Base.{◌≡◌, true, none, some, List, [], ◌++◌, All, Bytes, length}
use medb.Name.{valid_name}
use medb.Store.{Record}
use medb.Store.Cells.{Cell, doc_cell, Value, home, view, over}
use medb.Store.History.{touch_all, IsClean}
use medb.Codec.{Codec, IsWire, NoNewline}
use medb.Wal.{encode_batch}
use medb.Wal.RoundTrip.{Encodes}
use medb.Disk.{Disk}
use medb.Snapshot.Load.{AllReadable}
use medb.Result.{Result, ok}
use medb.Db.{Db}
use medb.Db.Files.{file_view, IsPlain}

-- A cell of a collection with a valid name.
abbrev pub IsNamed : Cell → Type 0
IsNamed k = valid_name (home k) ≡ true

-- What replaying the log over the snapshot files gives to a cell.
abbrev pub recovered : Codec → Disk → List Record → Cell → Value
recovered c d logged k = over (touch_all logged k) (file_view c d k)

module _ (c : Codec) (IsText IsJson : Bytes → Type 0) where
  -- Ids are texts that JSON keeps, and documents are compact JSON.
  abbrev pub PlainCells : (Cell → Value) → Type 0
  PlainCells f =
      (coll i v : Bytes)
      → valid_name coll ≡ true
      → f (doc_cell coll i) ≡ some v
      → IsText i × IsJson v

  -- A directory that can be opened: its log holds the encodings of `logged` and the start of a
  -- record, and its snapshots can be decoded.
  pub record OnDisk (d : Disk) (logged : List Record) (torn : Bytes) : Type 0 where
    pub batch : List Bytes
    pub wal : d.wal ≡ encode_batch batch ++ torn
    pub encoded : Encodes c logged batch
    pub wire : All (IsWire IsText IsJson) logged
    pub line : NoNewline torn
    pub readable : AllReadable c d.files
    pub plain : PlainCells (file_view c d)

  -- What holds as long as no call of the worker has failed: the log has no torn tail and its size
  -- is known, the pending batch holds what is not acknowledged, and a collection that is not dirty
  -- is in its file as it is in memory.
  pub record IsHealthy (db : Db) (unacked : List Record) (torn : Bytes) : Type 0 where
    pub whole : torn ≡ []
    pub sized : db.size ≡ length db.disk.wal
    pub pending : Encodes c unacked db.pending
    pub waiting : db.commit ≡ none → db.pending ≡ []
    pub clean :
        (k : Cell)
        → IsNamed k
        → IsClean (home k) db.store
        → file_view c db.disk k ≡ view db.store.colls k

  -- `acked` is the state that the acknowledged records made, `unacked` the records applied since
  -- that were not acknowledged: the memory has both, and the disk has the acknowledged value of
  -- every cell that no unacknowledged record touches.
  pub record Inv (db : Db) (acked : Cell → Value) (unacked : List Record) : Type 0 where
    pub logged : List Record
    pub torn : Bytes
    pub on_disk : OnDisk db.disk logged torn
    pub safe :
        (k : Cell) → IsNamed k → touch_all unacked k ≡ none → recovered c db.disk logged k ≡ acked k
    pub memory : (k : Cell) → view db.store.colls k ≡ over (touch_all unacked k) (acked k)
    pub plain : IsPlain IsText IsJson (view db.store.colls)
    pub wire : All (IsWire IsText IsJson) unacked
    pub healthy : db.run_err ≡ none → IsHealthy db unacked torn

  -- A directory from which `state` is recovered, as far as collections with valid names go.
  pub record Holds (d : Disk) (state : Cell → Value) : Type 0 where
    pub logged : List Record
    pub torn : Bytes
    pub on_disk : OnDisk d logged torn
    pub value : (k : Cell) → IsNamed k → recovered c d logged k ≡ state k

  -- What came of a recovery: the directory still holds the state, and a database that was opened
  -- has it.
  pub record Reopened (state : Cell → Value) (r : Result Db) (d : Disk) : Type 0 where
    pub holds : Holds d state
    pub opened :
        (db : Db)
        → r ≡ ok db
        → (db.disk ≡ d)
          × (db.run_err ≡ none)
          × Inv db (view db.store.colls) []
          × ((k : Cell) → IsNamed k → view db.store.colls k ≡ state k)
          × (db.settled ≡ [])
          × (db.commit ≡ none)
