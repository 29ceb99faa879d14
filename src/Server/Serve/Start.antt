-- ===== src/Server/Serve/Start.antt =====
-- What the start of the server leaves in the directory: `serve` of cmd/medb/server.go up to its first
-- request, with authentication off.
use medb.Base.{
  ◌≡◌, refl, ap, sym, subst, ◌⊎◌, inl, inr, ℕ, Bool, Bool-cases, true, Option, arith, Bytes,
}
use medb.Result.{Result-cases}
use medb.Store.Cells.{Cell, Value, view}
use medb.Codec.{Codec, JsonLaws}
use medb.Disk.{Disk}
use medb.Db.{Db}
use medb.Db.Invariant.{Holds, IsNamed}
use medb.Db.Opening.{open_medb, open_medb-Reopened}
use medb.Db.Closing.{named-Holds, close_settled}
use medb.Db.Run.{close_db}
use medb.Server.{Host}
use medb.Server.Auth.{AuthStore}
use medb.Server.Fresh.{Draws}
use medb.Server.Config.{ServeConfig, open_settings}
use medb.Server.Init.{GetEnv, done}
use medb.Server.Serve.{
  StartError, up, failed_start, not_opened, not_listening, prepare_authentication, start_serve,
}

-- With authentication off, on a directory that holds a state, and whatever calls fail: after the start of
-- the server the directory still holds the state. The start failed with an error, or the server is up
-- on a database that has the state in its memory.
pub start_serve_keeps :
    {c : Codec} {IsText IsJson : Bytes → Type 0} (laws : JsonLaws c IsText IsJson) (h : Host)
    (a : AuthStore) (worker : Db → Db) (held listens : Bool) (cfg : ServeConfig) (getenv : GetEnv)
    (read_file : Bytes → Option Bytes) (draws : Draws) (now now_user : ℕ) (d : Disk)
    (state : Cell → Value)
    → cfg.no_auth ≡ true
    → Holds c IsText IsJson d state
    → let (r, d') =
        start_serve c h a worker held listens cfg getenv read_file draws now now_user d in
      Holds c IsText IsJson d' state
      × (((e : StartError) × (r ≡ failed_start e))
          ⊎ ((db : Db) × (r ≡ up db)
              × (db.disk ≡ d')
              × ((k : Cell) → IsNamed k → view db.store.colls k ≡ state k)))
unfolding start_serve
start_serve_keeps {c = c} {IsText = IsText} {IsJson = IsJson} laws h a worker held listens cfg
      getenv read_file draws now now_user d state off holds =
    let again = open_medb-Reopened laws held (open_settings cfg) d state holds in
    elim (Result-cases (open_medb c held (open_settings cfg) d).0) [
      | inr (e, failed) ↦ rw (start_serve, failed) (again.holds, inl (not_opened e, refl))
      | inl (db, opened) ↦
          let (disk, _, inv, same, _, _) = again.opened db opened in
          let still = subst (λ x. Holds c IsText IsJson x state) (sym disk) again.holds in
          let prepared : prepare_authentication c h a worker cfg getenv read_file draws now now_user
                db
              ≡ (done tt, db) =
            unfold prepare_authentication in ground arith in
          elim (Bool-cases listens) [
            | inl listening ↦
                let e : start_serve c h a worker held listens cfg getenv read_file draws now
                      now_user d
                    ≡ (up db, db.disk) =
                  rw (
                    start_serve,
                    opened,
                    ap (λ p. p.0) prepared,
                    ap (λ p. p.1) prepared,
                    listening,
                  ) in
                rw e (still, inr (db, refl, refl, same))
            | inr deaf ↦
                let e : start_serve c h a worker held listens cfg getenv read_file draws now
                      now_user d
                    ≡ (failed_start not_listening, (close_db c db).1.disk) =
                  rw (start_serve, opened, ap (λ p. p.0) prepared, ap (λ p. p.1) prepared, deaf) in
                rw e (
                  named-Holds (close_db c db).1.disk (view db.store.colls) state same
                      (close_settled laws db (view db.store.colls) inv),
                  inl (not_listening, refl),
                )
          ]
    ]
