-- ===== src/Db/Run/Honest.antt =====
-- What the commits tell the clients: one write, one batch.
use medb.Base.{
  ◌≡◌, ◌≢◌, refl, ◌<◌, ◌⊎◌, inl, inr, Bool-cases, Option, Option-cases, none, some, List, [], ◌∷◌,
  ◌++◌, All, All-append, All-map, arith, ℕ, ◌==◌, ◌≤◌, if◌then◌else◌, Bytes,
}
use medb.Result.{Error}
use medb.Store.{Record}
use medb.Codec.{Codec}
use medb.Db.{Db, write, enqueue, write_log, log_batch}
use medb.Db.Run.{Calls, outcome, add_waiting, tell}

-- The commits and what the clients know of them: each told record's commit was settled without an
-- error, no other accepted record's was, and as long as no call failed all of these wait for the
-- open commit.
pub record Honest (db : Db) (w : Calls) : Type 0 where
  pub told : All (λ p. outcome p.0 db.settled ≡ some none) w.told
  pub untold : All (λ p. outcome p.0 db.settled ≢ some none) w.waiting
  pub current : db.run_err ≡ none → All (λ p. db.commit ≡ some p.0) w.waiting
  pub fresh : (id : ℕ) → db.commit ≡ some id → outcome id db.settled ≡ none
  pub below : (id : ℕ) → db.commit ≡ some id → id < db.next_commit
  pub later : (id : ℕ) → db.next_commit ≤ id → outcome id db.settled ≡ none

outcome-cons :
    (n id : ℕ) (e : Option Error) (settled : List (ℕ × Option Error))
    → outcome id ((n, e) ∷ settled) ≡ (if n == id then some e else outcome id settled)
unfolding outcome
outcome-cons n id e settled = refl

enqueue-Honest :
    (buf : Bytes) (rec : Record) (db : Db) (w : Calls)
    → Honest db w
    → Honest (enqueue buf db).1 (record w { waiting = w.waiting ++ ((enqueue buf db).0, rec) ∷ [] })
unfolding enqueue
enqueue-Honest buf rec db w h = elim (Option-cases db.commit) [
  | inl e ↦
      rw (e, enqueue)
        (record {
          told = h.told;
          untold =
              All-append (λ p. outcome p.0 db.settled ≢ some none) w.waiting
                ((db.next_commit, rec) ∷ []) h.untold
                ((λ bad. let none_yet = h.later db.next_commit (omega arith) in cc), tt);
          current = λ no_error.
              All-append (λ p. some db.next_commit ≡ some p.0) w.waiting
                ((db.next_commit, rec) ∷ [])
                (All-map w.waiting (λ p old. absurd (ground (arith, e, old))) (h.current no_error))
                (refl, tt);
          fresh = λ id at. h.later id (ground arith);
          below = λ id at. ground arith;
          later = λ id at. h.later id (omega arith);
        })
  | inr (n, e) ↦
      rw (e, enqueue)
        (record {
          told = h.told;
          untold =
              All-append (λ p. outcome p.0 db.settled ≢ some none) w.waiting ((n, rec) ∷ [])
                h.untold ((λ bad. let none_yet = h.fresh n e in cc), tt);
          current = λ no_error.
              All-append (λ p. db.commit ≡ some p.0) w.waiting ((n, rec) ∷ []) (h.current no_error)
                (e, tt);
          fresh = h.fresh;
          below = h.below;
          later = h.later;
        })
]

-- What `Honest` reads of a database.
pub same-Honest :
    (db db' : Db) (w : Calls)
    → Honest db w
    → db'.settled ≡ db.settled
    → db'.commit ≡ db.commit
    → db'.next_commit ≡ db.next_commit
    → (db'.run_err ≡ none → db.run_err ≡ none)
    → Honest db' w
same-Honest db db' w h settled commit next no_error = record {
  told = rw settled h.told;
  untold = rw settled h.untold;
  current = λ e. rw commit (h.current (no_error e));
  fresh = rw (settled, commit) h.fresh;
  below = rw (commit, next) h.below;
  later = rw (settled, next) h.later;
}

pub write-Honest :
    (c : Codec) (rec : Record) (db : Db) (w : Calls)
    → Honest db w
    → Honest (write c rec db).1 (add_waiting rec (write c rec db).0 w)
unfolding write
write-Honest c rec db w h = elim (Option-cases (c.marshal_record rec)) [
  | inl e ↦ rw (e, write) h
  | inr (buf, e) ↦ elim (Bool-cases db.is_closed) [
    | inl shut ↦ rw (e, shut, write) (same-Honest db _ w h refl refl refl (λ e. e))
    | inr live ↦
        rw (e, live, write)
          (enqueue-Honest buf rec _ w (same-Honest db _ w h refl refl refl (λ e. e)))
  ]
]

-- What `writeLog` does to the commits.
pub write_log-commits :
    (db : Db)
    → let db' = write_log db in
      (db'.commit ≡ none)
      × (db'.next_commit ≡ db.next_commit)
      × (db'.run_err ≡ none → db.run_err ≡ none)
      × ((db.commit ≡ none) × (db'.settled ≡ db.settled)
          ⊎ ((id : ℕ) × (db.commit ≡ some id) × (db'.settled ≡ (id, db'.run_err) ∷ db.settled)))
unfolding write_log log_batch
write_log-commits db = (
  ground arith,
  ground arith,
  ground arith,
  elim (Option-cases db.commit) [
    | inl e ↦ inl (e, ground arith)
    | inr (id, e) ↦ inr (id, e, ground arith)
  ],
)

-- A batch that succeeded.
pub told_all :
    (db db' : Db) (w : Calls) (id : ℕ)
    → Honest db w
    → db.commit ≡ some id
    → db.run_err ≡ none
    → db'.settled ≡ (id, none) ∷ db.settled
    → db'.commit ≡ none
    → db'.next_commit ≡ db.next_commit
    → Honest db' (tell none w)
told_all db db' w id h open' no_error settled idle next = record {
  told =
      All-append (λ p. outcome p.0 db'.settled ≡ some none) w.told w.waiting
        (All-map w.told
          (λ p old. rw settled (ground (arith, outcome-cons id p.0 none db.settled, old))) h.told)
        (All-map w.waiting
          (λ p old. rw settled (ground (arith, outcome-cons id p.0 none db.settled, open', old)))
          (h.current no_error));
  untold = tt;
  current = λ _. tt;
  fresh = λ n at. absurd (ground arith);
  below = λ n at. absurd (ground arith);
  later = λ n after. rw settled (
      ground (arith, outcome-cons id n none db.settled, h.below id open', h.later n (omega arith)));
}

-- A batch that failed, or that came after a failure.
pub told_none :
    (db db' : Db) (w : Calls) (id : ℕ) (x : Error)
    → Honest db w
    → db.commit ≡ some id
    → db'.run_err ≡ some x
    → db'.settled ≡ (id, some x) ∷ db.settled
    → db'.commit ≡ none
    → db'.next_commit ≡ db.next_commit
    → Honest db' w
told_none db db' w id x h open' failed settled idle next = record {
  told =
      All-map w.told
        (λ p old.
          rw settled
            (ground (arith, outcome-cons id p.0 (some x) db.settled, old, h.fresh id open')))
        h.told;
  untold =
      All-map w.waiting
        (λ p old.
          rw settled (λ bad. old (ground (arith, outcome-cons id p.0 (some x) db.settled, bad))))
        h.untold;
  current = λ no_error. cc;
  fresh = λ n at. absurd (ground arith);
  below = λ n at. absurd (ground arith);
  later = λ n after. rw settled (
      ground
        (arith, outcome-cons id n (some x) db.settled, h.below id open', h.later n (omega arith)));
}
