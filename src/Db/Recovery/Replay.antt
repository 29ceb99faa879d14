-- ===== src/Db/Recovery/Replay.antt =====
-- `replayLog` on a log that the program wrote, over the collections that `load` read.
use medb.Base.{
  Map, ◌≡◌, refl, ap, sym, subst, ◌∙◌, ◌⊎◌, inl, inr, true, false, ltb, Bool-cases, some, List, [],
  ◌∷◌, ◌++◌, arith, Bytes, ℕ, suc, length, take, take-append, append-nil, length-append,
}
use medb.Result.{Result, ok, err, Result-cases}
use medb.Store.{Record, Store, Colls, apply_all}
use medb.Store.Cells.{Cell, Value, home, view, over, view-read, read_cell}
use medb.Store.History.{touch_all, touch_all-nil, apply_all-view}
use medb.Codec.{Codec, JsonLaws, NoNewline}
use medb.Wal.{encode_batch, replay_lines}
use medb.Wal.RoundTrip.{replay_lines-encode_batch}
use medb.Disk.{Disk}
use medb.Snapshot.{load, truncate_wal}
use medb.Snapshot.Load.{stored}
use medb.Db.{Db, replay_log, new_db}
use medb.Db.Invariant.{Reopened, Inv, OnDisk, Holds, recovered, IsNamed}
use medb.Db.Recovery.Parts.{
  truncate_wal-effect, truncate_wal_faultless, apply_all-IsClean, apply_all-IsPlain, loaded_view,
  loaded-IsPlain, cut-OnDisk,
}

module _ {c : Codec} {IsText IsJson : Bytes → Type 0} (laws : JsonLaws c IsText IsJson) where
  module _ (m f : ℕ) (d : Disk) (state : Cell → Value) (logged : List Record) (torn : Bytes)
      (od : OnDisk c IsText IsJson d logged torn)
      (value : (k : Cell) → IsNamed k → recovered c d logged k ≡ state k) (colls : Colls)
      (loaded : load c d.files ≡ ok colls) where
    abbrev loaded_store : Store
    loaded_store = record { colls = colls; dirty = [] }

    abbrev pub base : Db
    base = record (new_db m f d) { store = loaded_store }

    abbrev len : ℕ
    len = length (encode_batch od.batch)

    abbrev result : Disk → Db
    result d' = record base { store = apply_all logged loaded_store; size = len; disk = d' }

    -- What `replayLog` does with a log that the program wrote.
    abbrev cut : Result Db × Disk
    cut = (
      elim (truncate_wal len d).0 [ ok _ ↦ ok (result (truncate_wal len d).1) | err e ↦ err e ],
      (truncate_wal len d).1,
    )

    replay_log-cut :
        replay_log c base
        ≡ (elim (ltb len (length d.wal)) [ true ↦ cut | false ↦ (ok (result d), d) ])
    unfolding replay_log
    replay_log-cut = rw (replayed, replay_log) (ground arith)
      where
        replayed :
            replay_lines c (suc (length d.wal)) 1 0 d.wal loaded_store
            ≡ some (ok (len, apply_all logged loaded_store))
        replayed = rw od.wal (
            replay_lines-encode_batch c laws logged od.batch torn
              (suc (length (encode_batch od.batch ++ torn))) 1 0 loaded_store od.wire od.encoded
              od.line (omega arith)
            ∙ ap (λ n. some (ok (n, apply_all logged loaded_store))) (omega arith))

    view-result : (d' : Disk) (k : Cell) → IsNamed k → view (result d').store.colls k ≡ state k
    view-result d' k named =
        apply_all-view logged loaded_store k
        ∙ ap (over (touch_all logged k)) (loaded_view laws d colls k loaded named)
        ∙ value k named

    result-Inv :
        (d' : Disk)
        → d'.files ≡ d.files
        → d'.wal ≡ encode_batch od.batch
        → Inv c IsText IsJson (result d') (view (result d').store.colls) []
    result-Inv d' files wal = record {
      logged = logged;
      torn = [];
      on_disk =
          cut-OnDisk laws d d' logged torn [] od files
            (wal ∙ sym (append-nil (encode_batch od.batch))) tt;
      safe = λ k named _. rw files (value k named ∙ sym (view-result d' k named));
      memory = λ k. ap (λ o. over o (view (result d').store.colls k)) (sym (touch_all-nil k));
      plain =
          apply_all-IsPlain IsText IsJson logged loaded_store od.wire
            (loaded-IsPlain laws d colls loaded od.plain);
      wire = tt;
      healthy = λ _. record {
        whole = refl;
        sized = ap length (sym wal);
        pending = tt;
        waiting = λ _. refl;
        clean = λ k named clean.
            ap (λ (o : Map Bytes). read_cell (stored c o (home k)) k) files
            ∙ sym (loaded_view laws d colls k loaded named)
            ∙ view-read colls k
            ∙ ap (λ o. read_cell o k) (sym (apply_all-IsClean logged loaded_store (home k) clean).0)
            ∙ sym (view-read (result d').store.colls k);
      };
    }

    -- A cut log that keeps its torn tail, or loses it.
    part-Holds :
        (d' : Disk) (torn' : Bytes)
        → d'.files ≡ d.files
        → d'.wal ≡ encode_batch od.batch ++ torn'
        → NoNewline torn'
        → Holds c IsText IsJson d' state
    part-Holds d' torn' files wal line = record {
      logged = logged;
      torn = torn';
      on_disk = cut-OnDisk laws d d' logged torn torn' od files wal line;
      value = λ k named. rw files (value k named);
    }

    taken : take len d.wal ≡ encode_batch od.batch
    taken = rw od.wal (take-append (encode_batch od.batch) torn)

    uncut : ltb len (length d.wal) ≡ false → d.wal ≡ encode_batch od.batch
    uncut h =
        od.wal
        ∙ ap (λ t. encode_batch od.batch ++ t)
            (nothing torn (ground (arith, od.wal, length-append (encode_batch od.batch) torn)))
        ∙ append-nil (encode_batch od.batch)
      where
        nothing : (t : Bytes) → length t ≡ 0 → t ≡ []
        nothing [] e = refl
        nothing (x ∷ t) e = absurd (omega arith)

    opened_here :
        (d' : Disk)
        → d'.files ≡ d.files
        → d'.wal ≡ encode_batch od.batch
        → Reopened c IsText IsJson state (ok (result d')) d'
    opened_here d' files wal = record {
      holds = part-Holds d' [] files (wal ∙ sym (append-nil (encode_batch od.batch))) tt;
      opened = λ db e. (
        ground arith,
        ground arith,
        subst (λ x. Inv c IsText IsJson x (view x.store.colls) []) (same db e)
            (result-Inv d' files wal),
        subst (λ (x : Db). (k : Cell) → IsNamed k → view x.store.colls k ≡ state k) (same db e)
            (view-result d'),
        ground arith,
        ground arith,
      );
    }
      where
        same : (db : Db) → ◌≡◌ {A = Result Db} (ok (result d')) (ok db) → result d' ≡ db
        same db e = ground arith

    cut-Reopened : Reopened c IsText IsJson state cut.0 cut.1
    cut-Reopened = elim (Result-cases (truncate_wal len d).0) [
      | inl (_, e) ↦ rw (cut, e) (opened_here (truncate_wal len d).1 files (done e ∙ taken))
      | inr (x, e) ↦
          rw (cut, e)
            (record {
              holds = elim wal [
                | inl same ↦ part-Holds (truncate_wal len d).1 torn files (same ∙ od.wal) od.line
                | inr short ↦
                    part-Holds (truncate_wal len d).1 [] files
                      (short ∙ taken ∙ sym (append-nil (encode_batch od.batch))) tt
              ];
              opened = λ db h. cc;
            })
    ]
      where
        files : (truncate_wal len d).1.files ≡ d.files
        files = (truncate_wal-effect len d).0

        wal : ((truncate_wal len d).1.wal ≡ d.wal) ⊎ ((truncate_wal len d).1.wal ≡ take len d.wal)
        wal = (truncate_wal-effect len d).1

        done : (truncate_wal len d).0 ≡ ok tt → (truncate_wal len d).1.wal ≡ take len d.wal
        done = (truncate_wal-effect len d).2

    pub replay_log-Reopened :
        Reopened c IsText IsJson state (replay_log c base).0 (replay_log c base).1
    replay_log-Reopened = elim (Bool-cases (ltb len (length d.wal))) [
      | inl longer ↦ rw (replay_log-cut, longer) cut-Reopened
      | inr whole ↦ rw (replay_log-cut, whole) (opened_here d refl (uncut whole))
    ]

    pub replay_log_faultless : d.faults ≡ [] → (db : Db) × ((replay_log c base).0 ≡ ok db)
    replay_log_faultless h = elim (Bool-cases (ltb len (length d.wal))) [
      | inl longer ↦ (
        result (truncate_wal len d).1,
        rw (replay_log-cut, longer, cut, truncate_wal_faultless len d h),
      )
      | inr whole ↦ (result d, rw (replay_log-cut, whole))
    ]
