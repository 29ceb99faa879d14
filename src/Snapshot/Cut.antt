-- ===== src/Snapshot/Cut.antt =====
-- The whole of the calls of `writeSnapshot` (snapshot.go), up to the cut of the log.
use medb.Base.{◌≡◌, sym, subst, ◌∙◌, ◌⊎◌, inl, inr, [], All, All-map, arith, Option, Bytes}
use medb.Result.{Result, Error, ok, err, Result-cases}
use medb.Disk.{Disk, ◌>>◌, attempt}
use medb.Disk.Keeps.{bind_ok, bind_err}
use medb.Snapshot.{Plan, write_snaps, remove_colls, truncate_wal, flush}
use medb.Snapshot.Flush.{
  file_of, Toward, Toward-order, Done, Done-Toward, Snaps, Drops, write_snaps-Toward,
  write_snaps-Done, remove_colls-Toward, remove_colls-Done,
}

truncate_wal-files : (d : Disk) → (truncate_wal 0 d).1.files ≡ d.files
unfolding truncate_wal attempt
truncate_wal-files d = ground arith

truncate_wal-wal : (d : Disk) → ((truncate_wal 0 d).1.wal ≡ d.wal) ⊎ ((truncate_wal 0 d).1.wal ≡ [])
unfolding truncate_wal attempt
truncate_wal-wal d = ground arith

truncate_wal_ok : (d : Disk) → (truncate_wal 0 d).0 ≡ ok tt → (truncate_wal 0 d).1.wal ≡ []
unfolding truncate_wal attempt
truncate_wal_ok d h = ground arith

module _ (target : Bytes → Option Bytes) (p : Plan) where
  -- Every file that the plan names has its target.
  pub record InPlace (d : Disk) : Type 0 where
    pub snaps : All (λ e. Done target e.0 d) p.snaps
    pub dropped : All (λ name. Done target name d) p.dropped

  -- What a flush has done, whether it succeeded or not.
  pub record Flushed (d : Disk) (r : Result (Unit {0})) (d' : Disk) : Type 0 where
    pub files :
        (name : Bytes) → (file_of name d' ≡ file_of name d) ⊎ (file_of name d' ≡ target name)
    pub wal : (d'.wal ≡ d.wal) ⊎ ((d'.wal ≡ []) × InPlace d')
    pub done : r ≡ ok tt → (d'.wal ≡ []) × InPlace d'

  InPlace-files : (d d' : Disk) → d'.files ≡ d.files → InPlace d → InPlace d'
  InPlace-files d d' e h = record {
    snaps = All-map p.snaps (λ x done. rw e done) h.snaps;
    dropped = All-map p.dropped (λ name done. rw e done) h.dropped;
  }

  module _ (snaps : Snaps target p.snaps) (drops : Drops target p.dropped) (d : Disk) where
    abbrev written : Disk
    written = (write_snaps p.snaps d).1

    abbrev removed : Disk
    removed = (remove_colls p.dropped written).1

    to_written : Toward target d written
    to_written = write_snaps-Toward target p.snaps snaps d

    to_removed : Toward target d removed
    to_removed =
        (Toward-order target).chain d written removed to_written
          (remove_colls-Toward target p.dropped drops written)

    failed : (d' : Disk) (e : Error) → Toward target d d' → Flushed d (err e) d'
    failed d' e t = record { files = t.files; wal = inl t.wal; done = λ h. cc }

    -- The log is cut at a disk where every file is in place.
    cut :
        (write_snaps p.snaps d).0 ≡ ok tt
        → (remove_colls p.dropped written).0 ≡ ok tt
        → Flushed d (truncate_wal 0 removed).0 (truncate_wal 0 removed).1
    cut w r = record {
      files = λ name. rw (truncate_wal-files removed) (to_removed.files name);
      wal = elim (truncate_wal-wal removed) [
        | inl same ↦ inl (same ∙ to_removed.wal)
        | inr empty ↦ inr (empty, there)
      ];
      done = λ h. (truncate_wal_ok removed h, there);
    }
      where
        in_place : InPlace removed
        in_place = record {
          snaps =
              All-map p.snaps
                (λ x done.
                  Done-Toward target x.0 written removed
                    (remove_colls-Toward target p.dropped drops written) done)
                (write_snaps-Done target p.snaps d snaps w);
          dropped = remove_colls-Done target p.dropped written drops r;
        }

        there : InPlace (truncate_wal 0 removed).1
        there =
            InPlace-files removed (truncate_wal 0 removed).1 (truncate_wal-files removed) in_place

    abbrev Effect : Result (Unit {0}) × Disk → Type 0
    Effect (r, d') = Flushed d r d'

    -- Whatever calls fail, each file has its old content or its target; the log is untouched, or
    -- empty with every file of the plan in place; and after a success it is empty.
    pub flush-Flushed : Flushed d (flush p d).0 (flush p d).1
    unfolding flush
    flush-Flushed = elim (Result-cases (write_snaps p.snaps d).0) [
      | inl (_, w) ↦
          let go =
            bind_ok (λ _. remove_colls p.dropped >> truncate_wal 0) (write_snaps p.snaps) d w in
          elim (Result-cases (remove_colls p.dropped written).0) [
            | inl (_, r) ↦
                subst Effect
                  (sym (go ∙ bind_ok (λ _. truncate_wal 0) (remove_colls p.dropped) written r))
                  (cut w r)
            | inr (bad, r) ↦
                subst Effect
                  (sym (go ∙ bind_err (λ _. truncate_wal 0) (remove_colls p.dropped) written r))
                  (failed removed bad to_removed)
          ]
      | inr (bad, w) ↦
          subst Effect
            (sym
              (bind_err (λ _. remove_colls p.dropped >> truncate_wal 0) (write_snaps p.snaps) d w))
            (failed written bad to_written)
    ]
