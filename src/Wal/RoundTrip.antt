-- ===== src/Wal/RoundTrip.antt =====
-- What `writeLog` appends and what `replayLog` reads of it (wal.go).
use medb.Base.{
  ℕ, zero, suc, ◌+◌, ◌<◌, ◌≡◌, refl, none, some, List, [], ◌∷◌, ◌++◌, arith, length, All, Bytes,
  append_assoc, length-append, ◌∙◌, ap,
}
use medb.Result.{ok}
use medb.Store.{Record, Store, apply, apply_all}
use medb.Codec.{Codec, JsonLaws, IsWire, NoNewline}
use medb.Wal.{read_record, encode_batch, cut_line, replay_lines}

pub cut_line-line :
    (line rest : Bytes) → NoNewline line → cut_line (line ++ b'\n' ∷ rest) ≡ some (line, rest)
unfolding cut_line
cut_line-line [] rest h = refl
cut_line-line (c ∷ line) rest h = ground (arith, cut_line-line line rest h.1)

pub cut_line-torn : (torn : Bytes) → NoNewline torn → cut_line torn ≡ none
unfolding cut_line
cut_line-torn [] h = refl
cut_line-torn (c ∷ torn) h = ground (arith, cut_line-torn torn h.1)

lengths :
    (b : Bytes) (batch : List Bytes) (torn : Bytes)
    → (length (encode_batch (b ∷ batch) ++ torn)
        ≡ length b + 1 + length (encode_batch batch ++ torn))
      × (length (encode_batch (b ∷ batch)) ≡ length b + 1 + length (encode_batch batch))
unfolding encode_batch
lengths b batch torn =
    let rest = encode_batch batch in
    (
      omega (
        arith,
        length-append (b ++ b'\n' ∷ rest) torn,
        length-append b (b'\n' ∷ rest),
        length-append rest torn,
      ),
      omega (arith, length-append b (b'\n' ∷ rest)),
    )

module _ (c : Codec) where
  -- `batch` holds the encodings of `recs`.
  abbrev pub Encodes : List Record → List Bytes → Type 0
  Encodes [] [] = Unit
  Encodes (r ∷ recs) (b ∷ batch) = (c.marshal_record r ≡ some b) × Encodes recs batch
  Encodes _ _ = ⊥

  module _ {IsText IsJson : Bytes → Type 0} (laws : JsonLaws c IsText IsJson) where
    read_record-wire :
        (n : ℕ) (r : Record) (b : Bytes)
        → IsWire IsText IsJson r
        → c.marshal_record r ≡ some b
        → read_record c n b ≡ ok r
    unfolding read_record
    read_record-wire n r b w e =
        let filled = laws.json_filled r.doc in let back = laws.record_back r b w e in ground arith

    -- Replaying the log that holds the encodings of some records, and after them the start of a
    -- record whose newline was not written, applies exactly those records and stops at the torn
    -- tail; a fuel above the length of the log is enough.
    pub replay_lines-encode_batch :
        (recs : List Record) (batch : List Bytes) (torn : Bytes) (fuel n size : ℕ) (s : Store)
        → All (IsWire IsText IsJson) recs
        → Encodes recs batch
        → NoNewline torn
        → length (encode_batch batch ++ torn) < fuel
        → replay_lines c fuel n size (encode_batch batch ++ torn) s
          ≡ some (ok (size + length (encode_batch batch), apply_all recs s))
    unfolding replay_lines encode_batch apply_all
    replay_lines-encode_batch recs batch torn zero n size s w e t f = absurd (omega arith)
    replay_lines-encode_batch [] [] torn (suc fuel) n size s w e t f =
        rw (cut_line-torn torn t, replay_lines) (ground arith)
    replay_lines-encode_batch (r ∷ recs) (b ∷ batch) torn (suc fuel) n size s w e t f =
        let line = laws.record_line r b w.0 e.0 in
        rw
          (
            append_assoc b (b'\n' ∷ encode_batch batch) torn,
            cut_line-line b (encode_batch batch ++ torn) line,
            replay_lines,
          )
          (rw (read_record-wire n r b w.0 e.0) (
            replay_lines-encode_batch recs batch torn fuel (n + 1) (size + length b + 1) (apply r s)
              w.1 e.1 t (omega (arith, lengths b batch torn))
            ∙ ap (λ m. some (ok (m, apply_all recs (apply r s))))
                (omega (arith, lengths b batch []))))
    replay_lines-encode_batch [] (b ∷ batch) torn (suc fuel) n size s w e t f = absurd e
    replay_lines-encode_batch (r ∷ recs) [] torn (suc fuel) n size s w e t f = absurd e
