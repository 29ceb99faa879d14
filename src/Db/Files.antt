-- ===== src/Db/Files.antt =====
-- What the snapshot files say of each cell, and what a snapshot of a store makes of it.
use medb.Base.{◌≡◌, sym, ◌∙◌, ◌⊎◌, inl, inr, Option, Option-cases, none, some, arith, Bytes, lookup}
use medb.Store.{Docs, Colls}
use medb.Store.Cells.{Cell, doc_cell, Value, home, view, read_cell, view-read, read_cell-same}
use medb.Codec.{Codec, JsonLaws}
use medb.Disk.{Disk}
use medb.Snapshot.Flush.{file_of}
use medb.Snapshot.Capture.{target}
use medb.Snapshot.Load.{stored, AllReadable}

-- The value of a cell in the snapshot files.
abbrev pub file_view : Codec → Disk → Cell → Value
file_view c d k = read_cell (stored c d.files (home k)) k

-- Every id is a text that JSON keeps, and every document is compact JSON.
abbrev pub IsPlain : (IsText IsJson : Bytes → Type 0) → (Cell → Value) → Type 0
IsPlain IsText IsJson f = (coll i v : Bytes) → f (doc_cell coll i) ≡ some v → IsText i × IsJson v

module _ {c : Codec} {IsText IsJson : Bytes → Type 0} (laws : JsonLaws c IsText IsJson) where
  docs_plain :
      (colls : Colls) (name : Bytes) (coll : Docs)
      → IsPlain IsText IsJson (view colls)
      → lookup name colls ≡ some coll
      → (i v : Bytes) → lookup i coll ≡ some v
      → IsText i × IsJson v
  docs_plain colls name coll plain has i v e =
      plain name i v (view-read colls (doc_cell name i) ∙ rw has e)

  module _ (colls : Colls) (plain : IsPlain IsText IsJson (view colls)) (d d' : Disk) where
    abbrev goal : Bytes → Option Bytes
    goal = target c colls (λ name. file_of name d)

    goal_gone : (name : Bytes) → lookup name colls ≡ none → goal name ≡ none
    goal_gone name gone = ground arith

    goal_kept :
        (name : Bytes) (coll : Docs)
        → lookup name colls ≡ some coll
        → c.marshal_docs coll ≡ none
        → goal name ≡ file_of name d
    goal_kept name coll has fails = ground arith

    goal_written :
        (name b : Bytes) (coll : Docs)
        → lookup name colls ≡ some coll
        → c.marshal_docs coll ≡ some b
        → goal name ≡ some b
    goal_written name b coll has enc = ground arith

    gone_view :
        (name : Bytes) (k : Cell)
        → home k ≡ name
        → lookup name colls ≡ none
        → file_of name d' ≡ none
        → file_view c d' k ≡ view colls k
    gone_view name k at_name gone no_file =
        let gone' : lookup (home k) colls ≡ none = rw at_name gone in
        let no_file' : file_of (home k) d' ≡ none = rw at_name no_file in
        let nothing : stored c d'.files (home k) ≡ none = ground arith in
        rw (view-read colls k, gone', nothing)

    written_view :
        (name b : Bytes) (k : Cell) (coll : Docs)
        → home k ≡ name
        → lookup name colls ≡ some coll
        → c.marshal_docs coll ≡ some b
        → file_of name d' ≡ some b
        → file_view c d' k ≡ view colls k
    written_view name b k coll at_name has enc file =
        let (back, read, same) = laws.docs_back coll b (docs_plain colls name coll plain has) enc in
        let has' : lookup (home k) colls ≡ some coll = rw at_name has in
        let file' : file_of (home k) d' ≡ some b = rw at_name file in
        let found : stored c d'.files (home k) ≡ some back = ground arith in
        rw (view-read colls k, has', found) (read_cell-same back coll k same)

    -- A file that got its target is unchanged, or holds the collection as it is in memory.
    pub goal-view :
        (name : Bytes)
        → file_of name d' ≡ goal name
        → (file_of name d' ≡ file_of name d)
          ⊎ ((k : Cell) → home k ≡ name → file_view c d' k ≡ view colls k)
    goal-view name h = elim (Option-cases (lookup name colls)) [
      | inl gone ↦ inr λ k at_name. gone_view name k at_name gone (h ∙ goal_gone name gone)
      | inr (coll, has) ↦ elim (Option-cases (c.marshal_docs coll)) [
        | inl fails ↦ inl (h ∙ goal_kept name coll has fails)
        | inr (b, enc) ↦ inr λ k at_name.
            written_view name b k coll at_name has enc (h ∙ goal_written name b coll has enc)
      ]
    ]

    -- Where every encoding succeeded, it does hold the collection as it is in memory.
    pub goal-view_encoded :
        (name : Bytes)
        → file_of name d' ≡ goal name
        → ((coll : Docs)
            → lookup name colls ≡ some coll
            → (b : Bytes) × (c.marshal_docs coll ≡ some b))
        → (k : Cell) → home k ≡ name
        → file_view c d' k ≡ view colls k
    goal-view_encoded name h encoded k at_name = elim (Option-cases (lookup name colls)) [
      | inl gone ↦ gone_view name k at_name gone (h ∙ goal_gone name gone)
      | inr (coll, has) ↦
          let (b, enc) = encoded coll has in
          written_view name b k coll at_name has enc (h ∙ goal_written name b coll has enc)
    ]

    -- A file that is unchanged or got its target can be decoded if all could be before.
    pub goal-readable :
        AllReadable c d.files
        → ((name : Bytes) → (file_of name d' ≡ file_of name d) ⊎ (file_of name d' ≡ goal name))
        → AllReadable c d'.files
    goal-readable old files name content valid has_file = elim (files name) [
      | inl same ↦ old name content valid (sym same ∙ has_file)
      | inr h ↦ elim (Option-cases (lookup name colls)) [
        | inl gone ↦ let none_left = goal_gone name gone in cc
        | inr (coll, has) ↦ elim (Option-cases (c.marshal_docs coll)) [
          | inl fails ↦ old name content valid (sym (h ∙ goal_kept name coll has fails) ∙ has_file)
          | inr (b, enc) ↦
              let (back, read, _) =
                laws.docs_back coll b (docs_plain colls name coll plain has) enc in
              let same : content ≡ b = (let w = goal_written name b coll has enc in ground arith) in
              (back, rw same read)
        ]
      ]
    ]
