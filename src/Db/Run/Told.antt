-- ===== src/Db/Run/Told.antt =====
-- What the commits tell the clients, over any run.
use medb.Base.{
  ◌≡◌, ap, sym, subst, ◌∙◌, inl, inr, Bool-cases, Option-cases, none, some, List, [], ◌∷◌,
  All-append, All-map, arith, leb,
}
use medb.Codec.{Codec}
use medb.Db.{Db, write_log, write_snapshot, take_snapshot, on_notify, on_tick}
use medb.Db.Run.{Event, call, notify, tick, step, run, Calls, watch, watch_all, outcome, tell}
use medb.Db.Run.Honest.{Honest, same-Honest, write-Honest, write_log-commits, told_all, told_none}

write_log-Honest :
    (db : Db) (w : Calls) → Honest db w → Honest (write_log db) (tell (write_log db).run_err w)
write_log-Honest db w h =
    let db' = write_log db in
    let (idle, next, before, how) = write_log-commits db in
    elim how [
      | inl (none_open, same) ↦
          let h' = same-Honest db db' w h same (idle ∙ sym none_open) next before in
          elim (Option-cases db'.run_err) [
            | inr (x, e) ↦ subst (λ o. Honest (write_log db) (tell o w)) (sym e) h'
            | inl e ↦
                subst (λ o. Honest (write_log db) (tell o w)) (sym e)
                  (record {
                    told =
                        All-append (λ p. outcome p.0 db'.settled ≡ some none) w.told w.waiting
                          h'.told
                          (All-map w.waiting (λ p at. absurd (ground (arith, at, idle)))
                            (h'.current e));
                    untold = tt;
                    current = λ _. tt;
                    fresh = h'.fresh;
                    below = h'.below;
                    later = h'.later;
                  })
          ]
      | inr (id, open', settled) ↦ elim (Option-cases db'.run_err) [
        | inl e ↦
            subst (λ o. Honest (write_log db) (tell o w)) (sym e)
              (told_all db db' w id h open' (before e) (settled ∙ ap (λ o. (id, o) ∷ db.settled) e)
                idle next)
        | inr (x, e) ↦
            subst (λ o. Honest (write_log db) (tell o w)) (sym e)
              (told_none db db' w id x h open' e (settled ∙ ap (λ o. (id, o) ∷ db.settled) e) idle
                next)
      ]
    ]

write_snapshot-Honest :
    (c : Codec) (db : Db) (w : Calls) → Honest db w → Honest (write_snapshot c db) w
unfolding write_snapshot take_snapshot
write_snapshot-Honest c db w h =
    same-Honest db (write_snapshot c db) w h (ground arith) (ground arith) (ground arith)
      (λ e. ground arith)

on_notify-Honest :
    (c : Codec) (db : Db) (w : Calls) → Honest (write_log db) w → Honest (on_notify c db) w
unfolding on_notify
on_notify-Honest c db w h = elim (Bool-cases (leb (write_log db).flush_bytes (write_log db).size)) [
  | inl full ↦ rw (full, on_notify) (write_snapshot-Honest c (write_log db) w h)
  | inr small ↦ rw (small, on_notify) h
]

step-Honest :
    (c : Codec) (e : Event) (db : Db) (w : Calls)
    → Honest db w
    → Honest (step c e db) (watch c e db w)
unfolding step watch on_tick
step-Honest c (call rec) db w h = write-Honest c rec db w h
step-Honest c notify db w h = on_notify-Honest c db _ (write_log-Honest db w h)
step-Honest c tick db w h = write_snapshot-Honest c db w h

-- Over any sequence of calls and worker steps: the records that the clients were told are durable
-- are just those whose commit was settled without an error.
pub run-Honest :
    (c : Codec) (events : List Event) (db : Db) (w : Calls)
    → Honest db w
    → Honest (run c events db) (watch_all c events db w)
unfolding run watch_all
run-Honest c [] db w h = h
run-Honest c (e ∷ events) db w h =
    run-Honest c events (step c e db) (watch c e db w) (step-Honest c e db w h)
