-- ===== src/Wal/Tail.antt =====
-- `replayLog` of wal.go on any bytes at all.
use medb.Base.{
  ℕ, zero, suc, ◌+◌, ◌<◌, ◌≡◌, refl, Option, none, some, [], ◌∷◌, ◌++◌, arith, length, Bytes,
  append_assoc, length-append, Option-cases, inl, inr, ap, sym, ◌∙◌,
}
use medb.Result.{Result-cases, Result, ok, err}
use medb.Store.{Store, apply}
use medb.Codec.{Codec, NoNewline}
use medb.Wal.RoundTrip.{cut_line-line}
use medb.Wal.{read_record, cut_line, replay_lines}

-- A line that is cut off is what stands before the first newline.
cut_line-split :
    (data' line rest : Bytes)
    → cut_line data' ≡ some (line, rest)
    → (data' ≡ line ++ b'\n' ∷ rest) × NoNewline line
unfolding cut_line
cut_line-split [] line rest h = cc
cut_line-split (c ∷ data') line rest h = elim (Option-cases (cut_line data')) [
  | inl none_left ↦ ground arith
  | inr (next, e) ↦ ground (arith, cut_line-split data' next.0 next.1 e)
]

module _ (c : Codec) where
  -- With more fuel than the log has bytes the loop ends, with a store or with an error.
  pub replay_lines_total :
      (fuel n size : ℕ) (data' : Bytes) (s : Store)
      → length data' < fuel
      → (r : Result (ℕ × Store)) × (replay_lines c fuel n size data' s ≡ some r)
  unfolding replay_lines
  replay_lines_total zero n size data' s h = absurd (omega arith)
  replay_lines_total (suc fuel) n size data' s h = elim (Option-cases (cut_line data')) [
    | inl e ↦ (ok (size, s), rw (e, replay_lines))
    | inr ((line, rest), e) ↦ elim (Result-cases (read_record c n line)) [
      | inl (rec, read) ↦
          let shorter : length rest < fuel = omega (
            arith,
            ap length (cut_line-split data' line rest e).0,
            length-append line (b'\n' ∷ rest),
          ) in
          let (r, ih) =
            replay_lines_total fuel (n + 1) (size + length line + 1) rest (apply rec s) shorter in
          (r, rw (e, read, replay_lines) ih)
      | inr (bad, read) ↦ (err bad, rw (e, read, replay_lines))
    ]
  ]

  -- What a successful replay of `data'` keeps: a prefix up to a newline, as long as the size that
  -- it reports, that replays to the same store whatever torn tail follows it.
  pub record Kept (fuel n size : ℕ) (data' : Bytes) (s : Store) (m : ℕ) (s' : Store) : Type 0 where
    pub kept : Bytes
    pub torn : Bytes
    pub whole : data' ≡ kept ++ torn
    pub torn_line : cut_line torn ≡ none
    pub measured : m ≡ size + length kept
    pub again :
        (other : Bytes)
        → cut_line other ≡ none
        → replay_lines c fuel n size (kept ++ other) s ≡ some (ok (m, s'))

  -- Whatever the bytes of the log are, if the replay succeeds, then the size that it reports is that
  -- of a prefix which a torn line follows, and replaying this prefix, alone or with another torn
  -- line after it, gives the same size and the same store.
  pub replay_lines-Kept :
      (fuel n size : ℕ) (data' : Bytes) (s : Store) (m : ℕ) (s' : Store)
      → replay_lines c fuel n size data' s ≡ some (ok (m, s'))
      → Kept fuel n size data' s m s'
  unfolding replay_lines
  replay_lines-Kept zero n size data' s m s' h = cc
  replay_lines-Kept (suc fuel) n size data' s m s' h = elim (Option-cases (cut_line data')) [
    | inl e ↦ record {
      kept = [];
      torn = data';
      whole = refl;
      torn_line = e;
      measured = ground arith;
      again = λ other t. rw (t, replay_lines) (rw (e, replay_lines) at h);
    }
    | inr ((line, rest), e) ↦ elim (Result-cases (read_record c n line)) [
      | inl (rec, read) ↦
          let (split, clear) = cut_line-split data' line rest e in
          let ih =
            replay_lines-Kept fuel (n + 1) (size + length line + 1) rest (apply rec s) m s'
              (rw (e, read, replay_lines) at h) in
          record {
            kept = line ++ b'\n' ∷ ih.kept;
            torn = ih.torn;
            whole =
                split
                ∙ ap (λ t. line ++ b'\n' ∷ t) ih.whole
                ∙ sym (append_assoc line (b'\n' ∷ ih.kept) ih.torn);
            torn_line = ih.torn_line;
            measured = omega (arith, ih.measured, length-append line (b'\n' ∷ ih.kept));
            again = λ other t.
                rw
                  (
                    append_assoc line (b'\n' ∷ ih.kept) other,
                    cut_line-line line (ih.kept ++ other) clear,
                    read,
                    replay_lines,
                  )
                  (ih.again other t);
          }
      | inr (bad, read) ↦
          let refused : ◌≡◌ {A = Option (Result (ℕ × Store))} (some (err bad)) (some (ok (m, s'))) =
            rw (e, read, replay_lines) at h in
          cc
    ]
  ]
