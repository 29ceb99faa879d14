-- ===== src/Wal/Prefix.antt =====
-- What a failed write of `writeLog` (wal.go) leaves of a batch.
use medb.Base.{
  ℕ, zero, suc, ◌≡◌, refl, ap, sym, ◌∙◌, List, [], ◌∷◌, ◌++◌, All, Bytes, take, append_assoc,
}
use medb.Store.{Record}
use medb.Codec.{Codec, JsonLaws, IsWire, NoNewline}
use medb.Wal.{encode_batch}
use medb.Wal.RoundTrip.{Encodes}

pub encode_batch-append :
    (a b : List Bytes) → encode_batch (a ++ b) ≡ encode_batch a ++ encode_batch b
unfolding encode_batch
encode_batch-append [] b = refl
encode_batch-append (r ∷ a) b =
    ap (λ t. r ++ b'\n' ∷ t) (encode_batch-append a b)
    ∙ sym (append_assoc r (b'\n' ∷ encode_batch a) (encode_batch b))

-- A prefix of a line ends within it, or holds it with its newline.
pub data LinePrefix (n : ℕ) (line rest : Bytes) : Type 0 where
  within :
      NoNewline (take n line) → take n (line ++ b'\n' ∷ rest) ≡ take n line → LinePrefix n line rest
  past :
      (m : ℕ) → take n (line ++ b'\n' ∷ rest) ≡ line ++ b'\n' ∷ take m rest → LinePrefix n line rest

line_prefix : (n : ℕ) (line rest : Bytes) → NoNewline line → LinePrefix n line rest
line_prefix zero line rest h = within tt refl
line_prefix (suc n) [] rest h = past n refl
line_prefix (suc n) (c ∷ line) rest h = more (line_prefix n line rest h.1)
  where
    more : LinePrefix n line rest → LinePrefix (suc n) (c ∷ line) rest
    more (within clear e) = within (h.0, clear) (ap (λ t. c ∷ t) e)
    more (past m e) = past m (ap (λ t. c ∷ t) e)

module _ (c : Codec) where
  pub Encodes-append :
      (xs ys : List Record) (as' bs : List Bytes)
      → Encodes c xs as'
      → Encodes c ys bs
      → Encodes c (xs ++ ys) (as' ++ bs)
  Encodes-append [] ys [] bs e f = f
  Encodes-append [] ys (a ∷ as') bs e f = absurd e
  Encodes-append (x ∷ xs) ys [] bs e f = absurd e
  Encodes-append (x ∷ xs) ys (a ∷ as') bs e f = (e.0, Encodes-append xs ys as' bs e.1 f)

  -- The records that a prefix of their batch still holds, and the torn one after them.
  pub record BatchPrefix (recs : List Record) (front : Bytes) : Type 0 where
    pub kept : List Record
    pub lost : List Record
    pub lines : List Bytes
    pub torn : Bytes
    pub parts : recs ≡ kept ++ lost
    pub encoded : Encodes c kept lines
    pub whole : front ≡ encode_batch lines ++ torn
    pub line : NoNewline torn

  module _ {IsText IsJson : Bytes → Type 0} (laws : JsonLaws c IsText IsJson) where
    -- Any prefix of the bytes of a batch is the encoding of its first records, and after it the
    -- start of a line.
    pub batch_prefix :
        (n : ℕ) (recs : List Record) (batch : List Bytes)
        → All (IsWire IsText IsJson) recs
        → Encodes c recs batch
        → BatchPrefix recs (take n (encode_batch batch))
    unfolding encode_batch
    batch_prefix n [] (b ∷ batch) w e = absurd e
    batch_prefix n (r ∷ recs) [] w e = absurd e
    batch_prefix n [] [] w e = record {
      kept = [];
      lost = [];
      lines = [];
      torn = [];
      parts = refl;
      encoded = tt;
      whole = empty n;
      line = tt;
    }
      where
        empty : (n : ℕ) → take {A = ℕ} n [] ≡ []
        empty zero = refl
        empty (suc n) = refl
    batch_prefix n (r ∷ recs) (b ∷ batch) w e =
        go (line_prefix n b (encode_batch batch) (laws.record_line r b w.0 e.0))
          (λ m. batch_prefix m recs batch w.1 e.1)
      where
        go :
            LinePrefix n b (encode_batch batch)
            → ((m : ℕ) → BatchPrefix recs (take m (encode_batch batch)))
            → BatchPrefix (r ∷ recs) (take n (b ++ b'\n' ∷ encode_batch batch))
        go (within clear e') ih = record {
          kept = [];
          lost = r ∷ recs;
          lines = [];
          torn = take n b;
          parts = refl;
          encoded = tt;
          whole = e';
          line = clear;
        }
        go (past m e') ih =
            let p = ih m in
            record {
              kept = r ∷ p.kept;
              lost = p.lost;
              lines = b ∷ p.lines;
              torn = p.torn;
              parts = ap (λ t. r ∷ t) p.parts;
              encoded = (e.0, p.encoded);
              whole =
                  e'
                  ∙ ap (λ t. b ++ b'\n' ∷ t) p.whole
                  ∙ sym (append_assoc b (b'\n' ∷ encode_batch p.lines) p.torn);
              line = p.line;
            }
