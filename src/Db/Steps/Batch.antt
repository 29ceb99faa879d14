-- ===== src/Db/Steps/Batch.antt =====
-- The batch that `writeLog` of wal.go writes: what a write and its sync add to the log.
use medb.Base.{
  ◌≡◌, refl, ap, sym, ◌∙◌, ◌+◌, ℕ, Option, none, some, List, [], ◌∷◌, ◌++◌, All, All-append,
  All-append_iff, arith, Bytes, Map, length, take, append-nil, append_assoc,
}
use medb.Result.{Error}
use medb.Store.{Record}
use medb.Store.Cells.{Cell, Value, over}
use medb.Store.History.{touch_all, touch_all-append, or_else}
use medb.Codec.{Codec, JsonLaws, IsWire}
use medb.Wal.{encode_batch}
use medb.Wal.RoundTrip.{Encodes}
use medb.Wal.Prefix.{Encodes-append, encode_batch-append, BatchPrefix}
use medb.Disk.{Disk, Outcome, success, unsupported, failure, ◌>>◌, attempt}
use medb.Db.{log_batch, append_wal}
use medb.Db.Files.{file_view}
use medb.Db.Invariant.{OnDisk, recovered}

take-all : (xs : Bytes) → take (length xs) xs ≡ xs
take-all [] = refl
take-all (x ∷ xs) = ap (λ t. x ∷ t) (take-all xs)

-- A batch that is logged with no error is in the log whole, and counted in its size.
pub log_batch_ok :
    (e : Option Error) (batch : List Bytes) (d : Disk) (size : ℕ)
    → (log_batch e batch d size).0 ≡ none
    → (e ≡ none)
      × ((log_batch e batch d size).1.wal ≡ d.wal ++ encode_batch batch)
      × ((log_batch e batch d size).1.files ≡ d.files)
      × ((log_batch e batch d size).2 ≡ size + length (encode_batch batch))
unfolding log_batch append_wal attempt encode_batch
log_batch_ok (some x) batch d size h = cc
log_batch_ok none [] d size h = (refl, sym (append-nil d.wal), refl, omega arith)
log_batch_ok none (rec ∷ batch) d size h = (refl, ground arith, ground arith, ground arith)

-- After a failure nothing is written any more.
pub log_batch_stuck :
    (x : Error) (batch : List Bytes) (d : Disk) (size : ℕ)
    → log_batch (some x) batch d size ≡ (some x, d, size)
unfolding log_batch
log_batch_stuck x batch d size = refl

-- A write and a sync leave a prefix of what was written.
append_prefix :
    (buf wal : Bytes) (files : Map Bytes) (dirs : List Bytes) (faults : List Outcome)
    → let d : Disk = record { wal = wal; files = files; dirs = dirs; faults = faults } in
      (n : ℕ) × (((append_wal buf >> attempt) d).1.wal ≡ wal ++ take n buf)
unfolding append_wal attempt
append_prefix buf wal files dirs [] = (length buf, ap (λ t. wal ++ t) (sym (take-all buf)))
append_prefix buf wal files dirs (success ∷ faults) = (length buf, ground (arith, take-all buf))
append_prefix buf wal files dirs (unsupported ∷ faults) = (0, sym (append-nil wal))
append_prefix buf wal files dirs (failure n ∷ faults) = (n, refl)

-- Whatever the error, a prefix of the batch is in the log.
pub log_batch_failed :
    (batch : List Bytes) (d : Disk) (size : ℕ) (x : Error)
    → (log_batch none batch d size).0 ≡ some x
    → ((n : ℕ) × ((log_batch none batch d size).1.wal ≡ d.wal ++ take n (encode_batch batch)))
      × ((log_batch none batch d size).1.files ≡ d.files)
unfolding log_batch
log_batch_failed [] d size x h = cc
log_batch_failed (rec ∷ batch) d size x h =
    let (n, e) = append_prefix (encode_batch (rec ∷ batch)) d.wal d.files d.dirs d.faults in
    ((n, ground (arith, e)), unfold append_wal attempt in ground arith)

module _ {c : Codec} {IsText IsJson : Bytes → Type 0} (laws : JsonLaws c IsText IsJson) where
  -- A disk whose log grew by a prefix of a batch.
  pub grown-OnDisk :
      (d d' : Disk) (logged recs : List Record) (front : Bytes)
      → OnDisk c IsText IsJson d logged []
      → d'.files ≡ d.files
      → d'.wal ≡ d.wal ++ front
      → All (IsWire IsText IsJson) recs
      → (p : BatchPrefix c recs front) → OnDisk c IsText IsJson d' (logged ++ p.kept) p.torn
  grown-OnDisk d d' logged recs front od files wal w p = record {
    batch = od.batch ++ p.lines;
    wal =
        wal
        ∙ ap (λ t. t ++ front) (od.wal ∙ append-nil (encode_batch od.batch))
        ∙ ap (λ t. encode_batch od.batch ++ t) p.whole
        ∙ sym (append_assoc (encode_batch od.batch) (encode_batch p.lines) p.torn)
        ∙ ap (λ t. t ++ p.torn) (sym (encode_batch-append od.batch p.lines));
    encoded = Encodes-append c logged p.kept od.batch p.lines od.encoded p.encoded;
    wire =
        All-append (IsWire IsText IsJson) logged p.kept od.wire
          (All-append_iff (IsWire IsText IsJson) p.kept p.lost (rw p.parts at w)).0;
    line = p.line;
    readable = rw files od.readable;
    plain = rw files od.plain;
  }

  pub grown_value :
      (d d' : Disk) (logged more : List Record) (k : Cell)
      → d'.files ≡ d.files
      → recovered c d' (logged ++ more) k ≡ over (touch_all more k) (recovered c d logged k)
  grown_value d d' logged more k files =
      rw (files, touch_all-append logged more k)
        (both (touch_all more k) (touch_all logged k) (file_view c d k))
    where
      both : (a b : Option Value) (v : Value) → over (or_else a b) v ≡ over a (over b v)
      both none b v = refl
      both (some x) b v = refl

  pub kept_untouched :
      (recs kept lost : List Record) (k : Cell)
      → recs ≡ kept ++ lost
      → touch_all recs k ≡ none
      → touch_all kept k ≡ none
  kept_untouched recs kept lost k parts h =
      let h' : touch_all (kept ++ lost) k ≡ none = rw parts at h in
      ground (arith, touch_all-append kept lost k)

  -- The whole batch as a prefix of itself.
  abbrev pub full :
      (recs : List Record) (batch : List Bytes)
      → Encodes c recs batch
      → BatchPrefix c recs (encode_batch batch)
  full recs batch e = record {
    kept = recs;
    lost = [];
    lines = batch;
    torn = [];
    parts = sym (append-nil recs);
    encoded = e;
    whole = sym (append-nil (encode_batch batch));
    line = tt;
  }
