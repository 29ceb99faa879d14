-- ===== src/Server/Scan.antt =====
-- The stream of `/v1/scan`: the loop of `handleScan` of cmd/medb/handlers.go, with the calls that it
-- makes of the response writer. The encoder of encoding/json is an argument.
pub mod Lines
mod Tests
use medb.Base.{
  ◌≡◌, ◌≢◌, refl, ap, sym, ◌∙◌, ◌⊎◌, inl, inr, ◌≤◌, ℕ, zero, suc, Bool, Bool-cases, true, false,
  ◌||◌, not, Option, Option-cases, none, some, is_some, List, [], ◌∷◌, ◌++◌, arith, any_of, Bytes,
  bytes, lookup, keys, length, take, if◌then◌else◌,
}
use medb.Name.{reserved_collection}
use medb.Store.{Docs, docs_of}
use medb.Db.{Db}
use medb.Collection.{Typed, Seq, seq_end, seq_panic, seq_next, seq_of, all_docs, sorted}
use medb.Collection.Sorted.{IsSorted, sorted-IsSorted, member, member-sorted, member-keys}
use medb.Server.{Host}
use medb.Server.Fields.{Checked, Checked-cases, Fields, collection_target, collection_target_lem}
use medb.Server.Handlers.{Reply, stream, read_object, handle_scan}
use medb.Server.Response.{WriterCall, call_header, call_content, call_flush}

-- A turn of the loop: whether the request's context is done by then, and whether the write fails.
pub record Turn : Type 0 where
  pub is_done : Bool
  pub write_fails : Bool

-- How the loop ends: after the last document, in the panic of `All`, or early.
pub data ScanEnd : Type 0 where
  whole cut_short : ScanEnd
  panicked_at : Bytes → ScanEnd

abbrev pub calm : Turn
calm = record { is_done = false; write_fails = false }

-- The turns that are listed, and calm ones from then on.
abbrev pub this_turn : List Turn → Turn
this_turn [] = calm
this_turn (t ∷ ts) = t

abbrev pub later_turns : List Turn → List Turn
later_turns [] = []
later_turns (t ∷ ts) = ts

module _ (can_flush : Bool) (encode : Bytes → Bytes → Option Bytes) where
  unfoldable pub scan_loop : Seq Bytes → List Turn → List WriterCall × ScanEnd
  scan_loop seq_end ts = ([], whole)
  scan_loop (seq_panic id) ts = ([], panicked_at id)
  scan_loop (seq_next id document rest) ts =
      let (calls, ending) = scan_loop rest (later_turns ts) in
      if (this_turn ts).is_done then ([], cut_short) else elim (encode id document) [
        | none ↦ ([], cut_short)
        | some line ↦
            if (this_turn ts).write_fails
            then (call_content line ∷ [], cut_short)
            else (call_content line ∷ (call_flush can_flush ∷ calls), ending)
      ]

  unfoldable pub scan_stream : Seq Bytes → List Turn → List WriterCall × ScanEnd
  unfolding scan_loop
  scan_stream documents ts =
      let (calls, ending) = scan_loop documents ts in (call_header 200 ∷ calls, ending)
