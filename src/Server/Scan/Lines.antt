-- ===== src/Server/Scan/Lines.antt =====
-- What the client of a scan is sent: the loop of `handleScan` of cmd/medb/handlers.go.
use medb.Base.{
  ◌≡◌, refl, ap, ◌∙◌, ◌⊎◌, inl, inr, ℕ, suc, Bool, Bool-cases, true, false, ◌||◌, Option,
  Option-cases, none, some, is_some, List, [], ◌∷◌, arith, any_of, Bytes, bytes, bytes_eq_refl,
  lookup, keys, length, take,
}
use medb.Name.{reserved_collection}
use medb.Store.{Docs, docs_of}
use medb.Db.{Db}
use medb.Collection.{Typed, Seq, seq_of, all_docs, sorted}
use medb.Collection.Sorted.{IsSorted, sorted-IsSorted, member, member-sorted, member-keys}
use medb.Collection.Seqs.{decoded, seq_of_next, seq_of_panic}
use medb.Server.{Host}
use medb.Server.Fields.{
  Checked, good, Checked-cases, Fields, collection_target, collection_target_lem,
}
use medb.Server.Handlers.{stream, read_object, handle_scan}
use medb.Server.Response.{WriterCall, call_header, call_content, call_flush}
use medb.Server.Scan.{
  Turn, ScanEnd, whole, cut_short, panicked_at, this_turn, later_turns, scan_loop, scan_stream,
}

-- The contents among some calls, in their order.
unfoldable pub sent : List WriterCall → List Bytes
sent [] = []
sent (call_content line ∷ calls) = line ∷ sent calls
sent (call_header code ∷ calls) = sent calls
sent (call_flush can_flush ∷ calls) = sent calls

-- The request's context is done in some turn, or a write fails.
abbrev pub disturbed : List Turn → Bool
disturbed ts = any_of (λ t. t.is_done || t.write_fails) ts

module _ (raw : Typed Bytes) (encode : Bytes → Bytes → Option Bytes) (docs : Docs) where
  -- One line for each id, the encoding of the document that is stored with it.
  abbrev pub AreLines : List Bytes → List Bytes → Type 0
  AreLines [] [] = Unit
  AreLines [] (line ∷ lines) = ⊥
  AreLines (id ∷ ids) [] = ⊥
  AreLines (id ∷ ids) (line ∷ lines) =
      ((document : Bytes) × (decoded raw docs id ≡ some document)
        × (encode id document ≡ some line))
      × AreLines ids lines

  abbrev pub IsDisturbed : List Turn → Type 0
  IsDisturbed ts =
      (disturbed ts ≡ true)
      ⊎ ((id : Bytes) × (document : Bytes) × (decoded raw docs id ≡ some document)
          × (encode id document ≡ none))

  -- After `k` lines of those for `all`: that is all; the loop was cut short; or a document is not decoded.
  abbrev pub EndsAt : List Bytes → List Turn → ℕ → ScanEnd → Type 0
  EndsAt all ts k ending =
      ((ending ≡ whole) × (k ≡ length all))
      ⊎ (((ending ≡ cut_short) × IsDisturbed ts)
          ⊎ ((id : Bytes) × (ending ≡ panicked_at id)
              × (member id all ≡ true)
              × (decoded raw docs id ≡ none)))

  later_IsDisturbed : (ts : List Turn) → IsDisturbed (later_turns ts) → IsDisturbed ts
  later_IsDisturbed [] h = h
  later_IsDisturbed (t ∷ ts) (inl h) = inl (ground arith)
  later_IsDisturbed (t ∷ ts) (inr h) = inr h

  turn_IsDisturbed :
      (ts : List Turn)
      → ((this_turn ts).is_done || (this_turn ts).write_fails) ≡ true
      → IsDisturbed ts
  turn_IsDisturbed [] h = ground arith
  turn_IsDisturbed (t ∷ ts) h = inl (ground arith)

  EndsAt-suc :
      (id : Bytes) (ids : List Bytes) (ts : List Turn) (k : ℕ) (ending : ScanEnd)
      → EndsAt ids (later_turns ts) k ending
      → EndsAt (id ∷ ids) ts (suc k) ending
  EndsAt-suc id ids ts k ending (inl (e, all)) = inl (e, ap suc all)
  EndsAt-suc id ids ts k ending (inr (inl (e, why))) = inr (inl (e, later_IsDisturbed ts why))
  EndsAt-suc id ids ts k ending (inr (inr (id', e, there, why))) =
      inr (inr (id', e, ground arith, why))

  scan_loop_lem :
      (can_flush : Bool) (ids : List Bytes) (ts : List Turn)
      → let (calls, ending) = scan_loop can_flush encode (seq_of raw docs ids) ts in
        (k : ℕ) × AreLines (take k ids) (sent calls) × EndsAt ids ts k ending
  unfolding scan_loop sent
  scan_loop_lem can_flush [] ts = unfold seq_of in (0, tt, inl (refl, refl))
  scan_loop_lem can_flush (id ∷ ids) ts = elim (Option-cases (decoded raw docs id)) [
    | inl e ↦
        rw (seq_of_panic raw docs id ids e) (0, tt, inr (inr (id, refl, rw (bytes_eq_refl id), e)))
    | inr (document, e) ↦ elim (Bool-cases (this_turn ts).is_done) [
      | inl over ↦
          rw (seq_of_next raw docs id ids document e, scan_loop, over)
            (0, tt, inr (inl (refl, turn_IsDisturbed ts (ground arith))))
      | inr on ↦ elim (Option-cases (encode id document)) [
        | inl unencoded ↦
            rw (seq_of_next raw docs id ids document e, scan_loop, on, unencoded)
              (0, tt, inr (inl (refl, inr (id, document, e, unencoded))))
        | inr (line, encoded) ↦ elim (Bool-cases (this_turn ts).write_fails) [
          | inl fails ↦
              rw (seq_of_next raw docs id ids document e, scan_loop, on, encoded, fails)
                (
                  1,
                  ((document, e, encoded), tt),
                  inr (inl (refl, turn_IsDisturbed ts (ground arith))),
                )
          | inr well ↦
              let (k, lines, ends) = scan_loop_lem can_flush ids (later_turns ts) in
              rw (seq_of_next raw docs id ids document e, scan_loop, on, encoded, well)
                (
                  suc k,
                  ((document, e, encoded), lines),
                  EndsAt-suc id ids ts k
                      (scan_loop can_flush encode (seq_of raw docs ids) (later_turns ts)).1 ends,
                )
        ]
      ]
    ]
  ]

-- A scan that is let through names a collection that is not reserved. The client is sent lines for the
-- documents that it has at that moment, in ascending order of their ids: each is the encoding of the
-- document that is stored with its id, and none is left out before the last. Where the stream ends after
-- fewer lines, the request was given up or a write failed, a document cannot be encoded, or the
-- handler panicked at a document that cannot be decoded.
pub scan_lem :
    (h : Host) (raw : Typed Bytes) (max_id_size : ℕ) (can_flush : Bool)
    (encode : Bytes → Bytes → Option Bytes) (body : Checked Fields) (db : Db)
    (documents : Seq Bytes) (ts : List Turn)
    → db.is_closed ≡ false
    → handle_scan h raw max_id_size body db ≡ stream documents
    → (fields : Fields) × (name : Bytes) × (read_object
          (bytes "collection" ∷ [])
          (bytes "collection" ∷ [])
          body
        ≡ good fields)
      × (collection_target h fields ≡ good name)
      × (reserved_collection name ≡ false)
      × (let docs = docs_of name db.store.colls in
          let all = sorted (keys docs) in
          let (calls, ending) = scan_stream can_flush encode documents ts in
          IsSorted all
          × ((id : Bytes) → member id all ≡ is_some (lookup id docs))
          × ((k : ℕ) × AreLines raw encode docs (take k all) (sent calls)
              × EndsAt raw encode docs all ts k ending))
unfolding handle_scan
scan_lem h raw max_id_size can_flush encode body db documents ts live e =
    elim (Checked-cases (read_object (bytes "collection" ∷ []) (bytes "collection" ∷ []) body)) [
      | inr (f, e1) ↦ ground arith
      | inl (fields, e1) ↦ elim (Checked-cases (collection_target h fields)) [
        | inr (f, e2) ↦ ground arith
        | inl (name, e2) ↦
            let docs = docs_of name db.store.colls in
            let all = sorted (keys docs) in
            let same : documents ≡ seq_of raw docs all = unfold all_docs in ground arith in
            (
              fields,
              name,
              e1,
              e2,
              (collection_target_lem h fields name e2).1,
              (
                sorted-IsSorted (keys docs),
                λ id. member-sorted id (keys docs) ∙ member-keys id docs,
                rw same (
                    unfold scan_stream in
                    unfold sent in scan_loop_lem raw encode docs can_flush all ts),
              ),
            )
      ]
    ]
