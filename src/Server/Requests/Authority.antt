-- ===== src/Server/Requests/Authority.antt =====
-- Whose requests change what: the roles of the routes of cmd/medb/server.go and the writes of the
-- handlers of cmd/medb/handlers.go.
use medb.Base.{
  ◌≡◌, refl, subst, ◌⊎◌, inl, inr, ℕ, Bool, Bool-cases, true, false, ◌&&◌, ◌||◌, not, some, [], ◌∷◌,
  arith, All, Bytes, bytes_eq, Map, lookup,
}
use medb.Name.{reserved_collection}
use medb.Codec.{Codec}
use medb.Db.{Db, read}
use medb.Collection.{Typed}
use medb.Server.{Host}
use medb.Server.Roles.{Role, role_writer, role_admin, rank, role_allows}
use medb.Server.Auth.{AuthStore}
use medb.Server.Fields.{ApiFailure, Checked, Fields, good}
use medb.Server.Fresh.{Draws}
use medb.Server.Body.{BodyReader, Incoming, decode_body}
use medb.Server.Dispatch.{
  Endpoint, at_set, at_delete, at_drop, at_user_create, at_user_update, at_token_create,
  at_token_revoke, Route, Request, Flags, Decision, answer, healthy, handle, build_routes,
  authenticate_request, serve_http, serve_http_handles,
}
use medb.Server.Reserved.{handlers_keep_reserved}
use medb.Server.Requests.{serve_endpoint, serve_request}

-- What an endpoint may write: nothing, documents, or the users and tokens.
abbrev reads_only : Endpoint → Bool
reads_only at_set = false
reads_only at_delete = false
reads_only at_drop = false
reads_only at_user_create = false
reads_only at_user_update = false
reads_only at_token_create = false
reads_only at_token_revoke = false
reads_only _ = true

abbrev writes_accounts : Endpoint → Bool
writes_accounts at_user_create = true
writes_accounts at_user_update = true
writes_accounts at_token_create = true
writes_accounts at_token_revoke = true
writes_accounts _ = false

-- A route's role is enough for what its endpoint writes; with authentication off no route writes users
-- or tokens.
abbrev IsGuarded : Bool → Route → Type 0
IsGuarded no_auth r =
    ((reads_only r.handler || role_allows r.role role_writer) ≡ true)
    × ((not (writes_accounts r.handler) || (role_allows r.role role_admin && not no_auth)) ≡ true)

lookup-All {ℓ κ} :
    {V : Type ℓ} (P : V → Type κ) (m : Map V) (k : Bytes) (v : V)
    → All (λ p. P p.1) m
    → lookup k m ≡ some v
    → P v
unfolding lookup
lookup-All P [] k v all h = ground arith
lookup-All P ((j, w) ∷ m) k v (here, all) h = elim (Bool-cases (bytes_eq j k)) [
  | inl same ↦ (let at : w ≡ v = ground arith in subst P at here)
  | inr ne ↦ lookup-All P m k v all (ground arith)
]

build_routes-IsGuarded : (no_auth : Bool) → All (λ p. IsGuarded no_auth p.1) (build_routes no_auth)
unfolding build_routes role_allows rank
build_routes-IsGuarded true = (
  (refl, refl),
  (
    (refl, refl),
    (
      (refl, refl),
      ((refl, refl), ((refl, refl), ((refl, refl), ((refl, refl), ((refl, refl), tt))))),
    ),
  ),
)
build_routes-IsGuarded false = (
  (refl, refl),
  (
    (refl, refl),
    (
      (refl, refl),
      (
        (refl, refl),
        (
          (refl, refl),
          (
            (refl, refl),
            (
              (refl, refl),
              (
                (refl, refl),
                (
                  (refl, refl),
                  (
                    (refl, refl),
                    ((refl, refl), ((refl, refl), ((refl, refl), ((refl, refl), tt)))),
                  ),
                ),
              ),
            ),
          ),
        ),
      ),
    ),
  ),
)

Decision-cases :
    (d : Decision)
    → ((f : ApiFailure) × (d ≡ answer f)) ⊎ ((d ≡ healthy) ⊎ ((e : Endpoint) × (d ≡ handle e)))
Decision-cases (answer f) = inl (f, refl)
Decision-cases healthy = inr (inl refl)
Decision-cases (handle e) = inr (inr (e, refl))

role_allows_trans :
    (a b r : Role) → role_allows a b ≡ true → role_allows b r ≡ true → role_allows a r ≡ true
unfolding role_allows
role_allows_trans a b r ab br = ground arith

module _ (h : Host) (a : AuthStore) (now : ℕ) where
  -- What the caller of a request that is handled may do.
  abbrev pub May : Flags → Request → Db → Role → Type 0
  May s r db required =
      (actor : Role) × (authenticate_request h a now db r.authorization ≡ good actor)
      × (role_allows actor required ≡ true)

module _ (h : Host) (reader : BodyReader) (a : AuthStore) (raw : Typed Bytes) (c : Codec)
    (max_id_size max_request_size : ℕ) (draws : Draws) (now : ℕ) where
  reads_only_lem :
      (e : Endpoint) (body : Checked Fields) (db : Db)
      → reads_only e ≡ true
      → (serve_endpoint h reader a raw c max_id_size max_request_size draws now e body db).1 ≡ db
  unfolding serve_endpoint
  reads_only_lem e body db reads = ground arith

  keeps_accounts :
      (e : Endpoint) (body : Checked Fields) (db : Db) (coll id : Bytes)
      → reserved_collection coll ≡ true
      → writes_accounts e ≡ false
      → read coll id
          (serve_endpoint h reader a raw c max_id_size max_request_size draws now e body db).1
        ≡ read coll id db
  unfolding serve_endpoint
  keeps_accounts e body db coll id taken keeps =
      let (set, delete, drop) = handlers_keep_reserved h raw max_id_size c db coll id taken body in
      ground arith

  handled_needs :
      (s : Flags) (r : Request) (db : Db) (e : Endpoint)
      → serve_http h a now db s r ≡ handle e
      → ((reads_only e ≡ true) ⊎ ((s.no_auth ≡ true) ⊎ May h a now s r db role_writer))
        × ((writes_accounts e ≡ false) ⊎ ((s.no_auth ≡ false) × May h a now s r db role_admin))
  handled_needs s r db e reached =
      let (_, _, (selected, found, same, _, how)) = serve_http_handles h a now db s r e reached in
      let (writer, admin) =
        lookup-All (IsGuarded s.no_auth) (build_routes s.no_auth) r.path selected
          (build_routes-IsGuarded s.no_auth) found in
      elim how [
        | inl off ↦ (inr (inl off), inl (ground arith))
        | inr (actor, known, allowed) ↦ (
          elim (Bool-cases (reads_only e)) [
            | inl reads ↦ inl reads
            | inr writes ↦ inr (
                inr (
                  actor,
                  known,
                  role_allows_trans actor selected.role role_writer allowed (ground arith),
                ))
          ],
          elim (Bool-cases (writes_accounts e)) [
            | inr keeps ↦ inl keeps
            | inl writes ↦ inr (
              ground arith,
              (
                actor,
                known,
                role_allows_trans actor selected.role role_admin allowed (ground arith),
              ),
            )
          ],
        )
      ]

  -- A request changes the database only where authentication is off, or where it is authenticated as a
  -- caller whose role allows what a writer's does; and it changes a document of a reserved collection,
  -- those of the users and tokens among them, only where authentication is on and it is authenticated as
  -- a caller whose role allows what an administrator's does. This is of the requests that `ServeHTTP`
  -- hands to any of the fourteen handlers, and of those that it answers itself.
  pub serve_request_authority :
      (s : Flags) (r : Request) (incoming : Incoming) (db : Db) (coll id : Bytes)
      → reserved_collection coll ≡ true
      → let db' =
          (serve_request h reader a raw c max_id_size max_request_size draws now s r incoming
            db).1 in
        ((db' ≡ db) ⊎ ((s.no_auth ≡ true) ⊎ May h a now s r db role_writer))
        × ((read coll id db' ≡ read coll id db)
            ⊎ ((s.no_auth ≡ false) × May h a now s r db role_admin))
  unfolding serve_request
  serve_request_authority s r incoming db coll id taken =
      elim (Decision-cases (serve_http h a now db s r)) [
        | inl (f, e) ↦ rw (serve_request, e) (inl refl, inl refl)
        | inr (inl e) ↦ rw (serve_request, e) (inl refl, inl refl)
        | inr (inr (e, reached)) ↦
            let body = decode_body h reader max_request_size incoming in
            let (writer, admin) = handled_needs s r db e reached in
            rw (serve_request, reached)
              (
                elim writer [
                  | inl reads ↦ inl (reads_only_lem e body db reads)
                  | inr may ↦ inr may
                ],
                elim admin [
                  | inl keeps ↦ inl (keeps_accounts e body db coll id taken keeps)
                  | inr may ↦ inr may
                ],
              )
      ]
