-- ===== src/Server/Dispatch.antt =====
-- Which requests reach a handler: `buildRoutes`, `ServeHTTP`, `handleHealth` and `authenticateRequest`
-- of cmd/medb/server.go.
use medb.Base.{
  ◌≡◌, ◌⊎◌, inl, inr, ℕ, Bool, true, false, ◌&&◌, ◌||◌, not, Bool-cases, none, some, List, [], ◌∷◌,
  ◌++◌, arith, Bytes, bytes, bytes_eq, bytes_eq_iff, ◌≢◌, has_prefix, is_empty, Map, lookup,
  if◌then◌else◌,
}
use medb.Db.{Db}
use medb.Server.{Host}
use medb.Server.Roles.{Role, role_reader, role_writer, role_admin, role_allows}
use medb.Server.Auth.{AuthStore, authenticate}
use medb.Server.Fields.{
  ApiFailure, fail_invalid_request, fail_auth_required, fail_invalid_token, fail_forbidden,
  fail_route_not_found, fail_method, fail_unavailable, Checked, good, fail,
}

-- `other_method` is any method but the two that routes use.
pub data Method : Type 0 where
  get_method post_method : Method
  other_method : Bytes → Method

abbrev pub same_method : Method → Method → Bool
same_method get_method get_method = true
same_method post_method post_method = true
same_method _ _ = false

-- The handlers.
pub data Endpoint : Type 0 where
  at_collections at_get at_set at_delete at_has at_count at_scan at_drop : Endpoint
  at_users at_user_create at_user_update at_token_create at_tokens at_token_revoke : Endpoint

pub record Route : Type 0 where
  pub method : Method
  pub role : Role
  pub handler : Endpoint

abbrev route : Method → Role → Endpoint → Route
route m r e = record { method = m; role = r; handler = e }

abbrev pub data_routes : Map Route
data_routes =
    (bytes "/v1/collections", route get_method role_reader at_collections)
    ∷ ((bytes "/v1/get", route post_method role_reader at_get)
        ∷ ((bytes "/v1/set", route post_method role_writer at_set)
            ∷ ((bytes "/v1/delete", route post_method role_writer at_delete)
                ∷ ((bytes "/v1/has", route post_method role_reader at_has)
                    ∷ ((bytes "/v1/count", route post_method role_reader at_count)
                        ∷ ((bytes "/v1/scan", route post_method role_reader at_scan)
                            ∷ ((bytes "/v1/drop", route post_method role_admin at_drop) ∷ [])))))))

abbrev pub auth_routes : Map Route
auth_routes =
    (bytes "/v1/auth/users", route get_method role_admin at_users)
    ∷ ((bytes "/v1/auth/users/create", route post_method role_admin at_user_create)
        ∷ ((bytes "/v1/auth/users/update", route post_method role_admin at_user_update)
            ∷ ((bytes "/v1/auth/tokens/create", route post_method role_admin at_token_create)
                ∷ ((bytes "/v1/auth/tokens/list", route post_method role_admin at_tokens)
                    ∷ ((
                      bytes "/v1/auth/tokens/revoke",
                      route post_method role_admin at_token_revoke,
                    )
                        ∷ [])))))

-- `buildRoutes`
unfoldable pub build_routes : Bool → Map Route
build_routes no_auth = if no_auth then data_routes else data_routes ++ auth_routes

-- What `ServeHTTP` reads of a request; `has_body` says that its length is not zero or that it has a
-- transfer encoding.
pub record Request : Type 0 where
  pub method : Method
  pub path : Bytes
  pub raw_query : Bytes
  pub has_body : Bool
  pub authorization : List Bytes

-- The two flags of `apiServer`, and its configuration.
pub record Flags : Type 0 where
  pub no_auth : Bool
  pub shutting_down : Bool
  pub unavailable : Bool

-- What is decided on a request before its handler runs.
pub data Decision : Type 0 where
  answer : ApiFailure → Decision
  healthy : Decision
  handle : Endpoint → Decision

unfoldable pub handle_health : Flags → Request → Decision
handle_health s r =
    if not (same_method r.method get_method)
    then answer fail_method
    else if not (is_empty r.raw_query) || r.has_body
    then answer fail_invalid_request
    else if s.shutting_down || s.unavailable
    then answer fail_unavailable
    else healthy

below_v1 :
    (path : Bytes)
    → has_prefix path (bytes "/v1/") ≡ true
    → bytes_eq path (bytes "/healthz") ≡ false
unfolding has_prefix
below_v1 path h = elim (Bool-cases (bytes_eq path (bytes "/healthz"))) [
  | inr ne ↦ ne
  | inl same ↦
      let e = (bytes_eq_iff path (bytes "/healthz")).0 same in
      (let wrong : has_prefix (bytes "/healthz") (bytes "/v1/") ≡ true = rw e at h in cc)
]

module _ (h : Host) (a : AuthStore) (now : ℕ) (db : Db) where
  -- The header's parts, once there is one header.
  unfoldable pub authenticate_parts : List Bytes → Checked Role
  authenticate_parts (scheme ∷ (token ∷ [])) =
      if not (h.equal_fold scheme (bytes "Bearer"))
      then fail fail_invalid_token
      else elim (authenticate h a token now db) [ none ↦ fail fail_invalid_token | some r ↦ good r ]
  authenticate_parts _ = fail fail_invalid_token

  unfoldable pub authenticate_request : List Bytes → Checked Role
  unfolding authenticate_parts
  authenticate_request [] = fail fail_auth_required
  authenticate_request (value ∷ []) = authenticate_parts (h.split_fields value)
  authenticate_request (_ ∷ (_ ∷ _)) = fail fail_invalid_token

  -- From the route lookup on, for a caller with this role.
  unfoldable pub serve_route : Flags → Role → Request → Decision
  serve_route s actor r = elim (lookup r.path (build_routes s.no_auth)) [
    | none ↦ answer fail_route_not_found
    | some selected ↦
        if not (same_method r.method selected.method)
        then answer fail_method
        else if not (is_empty r.raw_query)
        then answer fail_invalid_request
        else if same_method r.method get_method && r.has_body
        then answer fail_invalid_request
        else if not (role_allows actor selected.role)
        then answer fail_forbidden
        else handle selected.handler
  ]

  unfoldable pub serve_http : Flags → Request → Decision
  serve_http s r =
      if bytes_eq r.path (bytes "/healthz")
      then handle_health s r
      else if not (bytes_eq r.path (bytes "/v1")) && not (has_prefix r.path (bytes "/v1/"))
      then answer fail_route_not_found
      else if s.shutting_down || s.unavailable
      then answer fail_unavailable
      else if s.no_auth
      then serve_route s role_admin r
      else elim (authenticate_request r.authorization) [
        | fail f ↦ answer f
        | good actor ↦ serve_route s actor r
      ]

  serve_route_handles :
      (s : Flags) (actor : Role) (r : Request) (e : Endpoint)
      → serve_route s actor r ≡ handle e
      → (selected : Route) × (lookup r.path (build_routes s.no_auth) ≡ some selected)
        × (selected.handler ≡ e)
        × (same_method r.method selected.method ≡ true)
        × (role_allows actor selected.role ≡ true)
  unfolding serve_route
  serve_route_handles s actor r e reached = ground arith

  handle_health_answers : (s : Flags) (r : Request) (e : Endpoint) → handle_health s r ≢ handle e
  unfolding handle_health
  handle_health_answers s r e reached = ground arith

  -- Which caller `ServeHTTP` goes on with.
  serve_http_inv :
      (s : Flags) (r : Request) (e : Endpoint)
      → serve_http s r ≡ handle e
      → (s.shutting_down ≡ false)
        × (s.unavailable ≡ false)
        × ((s.no_auth ≡ true) × (serve_route s role_admin r ≡ handle e)
            ⊎ ((actor : Role) × (authenticate_request r.authorization ≡ good actor)
                × (serve_route s actor r ≡ handle e)))
  unfolding serve_http
  serve_http_inv s r e reached = (
    ground (arith, handle_health_answers s r e),
    ground (arith, handle_health_answers s r e),
    ground (arith, handle_health_answers s r e),
  )

  -- A request reaches a handler only while the server is available, at the handler's own path with
  -- the method of its route, and, unless authentication is off, with a token whose role allows the
  -- role of the route.
  pub serve_http_handles :
      (s : Flags) (r : Request) (e : Endpoint)
      → serve_http s r ≡ handle e
      → (s.shutting_down ≡ false)
        × (s.unavailable ≡ false)
        × ((selected : Route) × (lookup r.path (build_routes s.no_auth) ≡ some selected)
            × (selected.handler ≡ e)
            × (same_method r.method selected.method ≡ true)
            × ((s.no_auth ≡ true)
                ⊎ ((actor : Role) × (authenticate_request r.authorization ≡ good actor)
                    × (role_allows actor selected.role ≡ true))))
  serve_http_handles s r e reached =
      let (up, there, how) = serve_http_inv s r e reached in
      (
        up,
        there,
        elim how [
          | inl (off, go) ↦
              let (selected, at_path, same, method, allowed) =
                serve_route_handles s role_admin r e go in
              (selected, at_path, same, method, inl off)
          | inr (actor, known, go) ↦
              let (selected, at_path, same, method, allowed) = serve_route_handles s actor r e go in
              (selected, at_path, same, method, inr (actor, known, allowed))
        ],
      )

  -- A caller without a valid token cannot probe the routes: below `/v1/` every path, method and query
  -- gets the same answer.
  pub serve_http_hides :
      (s : Flags) (r q : Request) (f : ApiFailure)
      → s.no_auth ≡ false
      → authenticate_request r.authorization ≡ fail f
      → q.authorization ≡ r.authorization
      → has_prefix r.path (bytes "/v1/") ≡ true
      → has_prefix q.path (bytes "/v1/") ≡ true
      → serve_http s q ≡ serve_http s r
  unfolding serve_http
  serve_http_hides s r q f on failed same rp qp =
      ground (arith, below_v1 r.path rp, below_v1 q.path qp)
