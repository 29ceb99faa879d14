-- ===== src/Snapshot/Capture.antt =====
-- What `writeSnapshot` collects under the lock: for every dirty collection, its encoding, or that
-- its file has to go.
use medb.Base.{
  ◌≡◌, ◌⊎◌, Bool, inl, inr, Option, none, some, [], ◌∷◌, arith, Bytes, bytes_eq, bytes_eq_iff,
  Bool-cases, Map, lookup,
}
use medb.Result.{ok}
use medb.Store.{Docs, Colls}
use medb.Codec.{Codec}
use medb.Disk.{Disk}
use medb.Snapshot.{Plan, capture, add_snap, add_dropped}
use medb.Snapshot.Flush.{Snaps, Drops, Done}
use medb.Snapshot.Cut.{InPlace}

module _ (c : Codec) (colls : Colls) (current : Bytes → Option Bytes) where
  -- The content that a snapshot gives to a collection's file. Where the collection cannot be
  -- encoded there is no snapshot, and the file keeps what it has now.
  abbrev pub target : Bytes → Option Bytes
  target name = elim (lookup name colls) [
    | none ↦ none
    | some coll ↦ elim (c.marshal_docs coll) [ none ↦ current name | some b ↦ some b ]
  ]

  -- A plan for these dirty names: it gives files their targets, and covers every dirty name.
  pub record Captures (dirty : Map Bool) (p : Plan) : Type 0 where
    pub snaps : Snaps target p.snaps
    pub drops : Drops target p.dropped
    pub covered :
        (name : Bytes) (b : Bool) (d : Disk)
        → lookup name dirty ≡ some b
        → InPlace target p d
        → Done target name d
    pub encoded :
        (name : Bytes) (b : Bool) (coll : Docs)
        → lookup name dirty ≡ some b
        → lookup name colls ≡ some coll
        → (content : Bytes) × (c.marshal_docs coll ≡ some content)

  Captures-dropped :
      (name : Bytes) (b : Bool) (dirty : Map Bool) (p : Plan)
      → lookup name colls ≡ none
      → Captures dirty p
      → Captures ((name, b) ∷ dirty) (add_dropped name p)
  unfolding lookup
  Captures-dropped name b dirty p gone h = record {
    snaps = h.snaps;
    drops = (ground arith, h.drops);
    covered = λ other v d found place. elim (Bool-cases (bytes_eq name other)) [
      | inl same ↦ let eq = (bytes_eq_iff name other).0 same in rw eq at (place.dropped.0)
      | inr ne ↦
          h.covered other v d (rw ne at found)
            (record { snaps = place.snaps; dropped = place.dropped.1 })
    ];
    encoded = λ other v coll found there. elim (Bool-cases (bytes_eq name other)) [
      | inl same ↦
          let eq = (bytes_eq_iff name other).0 same in
          let gone' : lookup other colls ≡ none = rw eq at gone in cc
      | inr ne ↦ h.encoded other v coll (rw ne at found) there
    ];
  }

  Captures-snap :
      (name content : Bytes) (coll : Docs) (b : Bool) (dirty : Map Bool) (p : Plan)
      → lookup name colls ≡ some coll
      → c.marshal_docs coll ≡ some content
      → Captures dirty p
      → Captures ((name, b) ∷ dirty) (add_snap name content p)
  unfolding lookup
  Captures-snap name content coll b dirty p there enc h = record {
    snaps = (ground arith, h.snaps);
    drops = h.drops;
    covered = λ other v d found place. elim (Bool-cases (bytes_eq name other)) [
      | inl same ↦ let eq = (bytes_eq_iff name other).0 same in rw eq at (place.snaps.0)
      | inr ne ↦
          h.covered other v d (rw ne at found)
            (record { snaps = place.snaps.1; dropped = place.dropped })
    ];
    encoded = λ other v coll' found has. elim (Bool-cases (bytes_eq name other)) [
      | inl same ↦
          let eq = (bytes_eq_iff name other).0 same in
          let there' : lookup other colls ≡ some coll = rw eq at there in
          (content, ground (arith, there', has, enc))
      | inr ne ↦ h.encoded other v coll' (rw ne at found) has
    ];
  }

  -- One dirty name of a capture that succeeds.
  capture_inv :
      (name : Bytes) (b : Bool) (dirty : Map Bool) (p : Plan)
      → capture c ((name, b) ∷ dirty) colls ≡ ok p
      → (rest : Plan) × (capture c dirty colls ≡ ok rest)
        × ((lookup name colls ≡ none) × (p ≡ add_dropped name rest)
            ⊎ ((coll : Docs) × (content : Bytes) × (lookup name colls ≡ some coll)
                × (c.marshal_docs coll ≡ some content)
                × (p ≡ add_snap name content rest)))
  unfolding capture
  capture_inv name b dirty p h = ground arith

  -- A capture that succeeds makes a plan that covers every dirty collection.
  pub capture-Captures :
      (dirty : Map Bool) (p : Plan) → capture c dirty colls ≡ ok p → Captures dirty p
  unfolding capture lookup
  capture-Captures [] p h = rw (← empty) (record {
    snaps = tt;
    drops = tt;
    covered = λ name b d found _. cc;
    encoded = λ name b coll found _. cc;
  })
    where
      empty : record { snaps = []; dropped = [] } ≡ p
      empty = ground arith
  capture-Captures ((name, b) ∷ dirty) p h =
      let (rest, captured, how) = capture_inv name b dirty p h in
      let ih = capture-Captures dirty rest captured in
      elim how [
        | inl (gone, e) ↦ rw e (Captures-dropped name b dirty rest gone ih)
        | inr (coll, content, there, enc, e) ↦
            rw e (Captures-snap name content coll b dirty rest there enc ih)
      ]
