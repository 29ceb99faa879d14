-- ===== src/Server/Failures.antt =====
-- How the server stops after a failed write: `markStorageFailure` and `mutationError` of
-- cmd/medb/server.go, with the flags of `apiServer` over a run.
mod Tests
use medb.Base.{
  ◌≡◌, ◌≢◌, refl, ap, ◌∙◌, sym, ℕ, Bool, Bool-cases, true, false, ◌&&◌, ◌||◌, not, Option, none,
  some, List, [], ◌∷◌, arith, inl, inr, Bytes, bytes, bytes_eq, any_of, is_some, if◌then◌else◌,
}
use medb.Result.{
  Error, not_found, closed, too_large, io, not_directory, json, corrupt_wal, corrupt_snapshot,
  bad_option, locked, callback,
}
use medb.Db.{Db}
use medb.Server.{Host}
use medb.Server.Auth.{AuthStore}
use medb.Server.Fields.{ApiFailure, fail_document_too_large, fail_storage, fail_unavailable}
use medb.Server.Handlers.{mutation_error}
use medb.Server.Dispatch.{
  Endpoint, Request, Flags, Decision, handle, healthy, serve_http, serve_http_handles,
  handle_health, serve_route,
}

-- `failureOnce` has run; `failureCh` has room for one error.
pub record Life : Type 0 where
  pub shutting_down : Bool
  pub unavailable : Bool
  pub failure_once : Bool
  pub failure_ch : Option Error

abbrev pub new_life : Life
new_life = record {
  shutting_down = false;
  unavailable = false;
  failure_once = false;
  failure_ch = none;
}

unfoldable pub mark_storage_failure : Error → Life → Life
mark_storage_failure e s = if s.failure_once then s else record s {
  failure_once = true;
  unavailable = true;
  failure_ch = elim s.failure_ch [ none ↦ some e | some first ↦ some first ];
}

-- `mutationError` with an error, and the failure that it answers with.
unfoldable pub fail_mutation : Error → Life → ApiFailure × Life
unfolding mark_storage_failure
fail_mutation too_large s = (fail_document_too_large, s)
fail_mutation closed s = (fail_unavailable, record s { unavailable = true })
fail_mutation e s = (fail_storage, mark_storage_failure e s)

-- What changes the flags: a write that failed, and the end of `serve`, which then may have taken the
-- error from the channel.
pub data LifeEvent : Type 0 where
  failed_write : Error → LifeEvent
  shut_down : Bool → LifeEvent

unfoldable pub live : LifeEvent → Life → Life
unfolding fail_mutation
live (failed_write e) s = (fail_mutation e s).1
live (shut_down taken) s = record s {
  shutting_down = true;
  failure_ch = if taken then none else s.failure_ch;
}

unfoldable pub live_all : List LifeEvent → Life → Life
live_all [] s = s
live_all (e ∷ events) s = live_all events (live e s)

-- An error of the storage: any but a document that is too large and a database that is closed.
abbrev pub is_storage_error : Error → Bool
is_storage_error too_large = false
is_storage_error closed = false
is_storage_error _ = true

abbrev pub makes_unavailable : LifeEvent → Bool
makes_unavailable (failed_write too_large) = false
makes_unavailable (failed_write _) = true
makes_unavailable (shut_down _) = false

abbrev pub is_shut_down : LifeEvent → Bool
is_shut_down (shut_down _) = true
is_shut_down _ = false

-- The first error of the storage.
unfoldable pub first_storage_error : List LifeEvent → Option Error
first_storage_error [] = none
first_storage_error (failed_write e ∷ events) =
    let rest = first_storage_error events in if is_storage_error e then some e else rest
first_storage_error (shut_down _ ∷ events) = first_storage_error events

abbrev IsSound : Life → Type 0
IsSound s = (s.failure_once && not s.unavailable) ≡ false

live-IsSound : (e : LifeEvent) (s : Life) → IsSound s → IsSound (live e s)
unfolding live fail_mutation mark_storage_failure
live-IsSound (failed_write e) s h = ground arith
live-IsSound (shut_down taken) s h = h

live_flags :
    (e : LifeEvent) (s : Life)
    → IsSound s
    → ((live e s).unavailable ≡ (makes_unavailable e || s.unavailable))
      × ((live e s).shutting_down ≡ (is_shut_down e || s.shutting_down))
unfolding live fail_mutation mark_storage_failure
live_flags (failed_write e) s h = (ground arith, ground arith)
live_flags (shut_down taken) s h = (refl, refl)

live_all_flags :
    (events : List LifeEvent) (s : Life)
    → IsSound s
    → ((live_all events s).unavailable ≡ (any_of makes_unavailable events || s.unavailable))
      × ((live_all events s).shutting_down ≡ (any_of is_shut_down events || s.shutting_down))
unfolding live_all
live_all_flags [] s h = (refl, refl)
live_all_flags (e ∷ events) s h =
    let (down, shut) = live_flags e s h in
    let (down', shut') = live_all_flags events (live e s) (live-IsSound e s h) in
    (ground arith, ground arith)

any_of-or :
    (p q : LifeEvent → Bool) (events : List LifeEvent)
    → any_of (λ e. p e || q e) events ≡ (any_of p events || any_of q events)
any_of-or p q [] = refl
any_of-or p q (e ∷ events) = ground (arith, any_of-or p q events)

-- The channel keeps its first error, and takes one only while nothing was reported.
abbrev first_of : Option Error → Option Error → Option Error
first_of none later = later
first_of (some e) later = some e

live_failure :
    (e : Error) (s : Life)
    → s.failure_once ≡ is_some s.failure_ch
    → ((live (failed_write e) s).failure_once ≡ is_some (live (failed_write e) s).failure_ch)
      × ((live (failed_write e) s).failure_ch
          ≡ first_of s.failure_ch (if is_storage_error e then some e else none))
unfolding live fail_mutation mark_storage_failure
live_failure e s h = (ground arith, ground arith)

live_all_failure :
    (events : List LifeEvent) (s : Life)
    → any_of is_shut_down events ≡ false
    → s.failure_once ≡ is_some s.failure_ch
    → (live_all events s).failure_ch ≡ first_of s.failure_ch (first_storage_error events)
unfolding live_all first_storage_error
live_all_failure [] s on h = ground arith
live_all_failure (failed_write e ∷ events) s on h =
    let (h', ch) = live_failure e s h in
    let rest = live_all_failure events (live (failed_write e) s) on h' in ground arith
live_all_failure (shut_down taken ∷ events) s on h = absurd (cc)

-- While `serve` waits, whatever writes fail and in whatever order: the server is unavailable just when a
-- write has failed for another reason than the document's size, and the error that `serve` receives
-- is the first one of the storage, which is none of a closed database.
pub live_all_lem :
    (events : List LifeEvent)
    → any_of is_shut_down events ≡ false
    → ((live_all events new_life).unavailable ≡ any_of makes_unavailable events)
      × ((live_all events new_life).shutting_down ≡ false)
      × ((live_all events new_life).failure_ch ≡ first_storage_error events)
live_all_lem events on =
    let (down, shut) = live_all_flags events new_life refl in
    (ground arith, ground arith, live_all_failure events new_life on refl)

-- The flags as `ServeHTTP` reads them.
abbrev pub flags_of : Bool → Life → Flags
flags_of no_auth s = record {
  no_auth = no_auth;
  shutting_down = s.shutting_down;
  unavailable = s.unavailable;
}

unhealthy :
    (h : Host) (a : AuthStore) (now : ℕ) (db : Db) (s : Flags) (r : Request)
    → s.shutting_down || s.unavailable ≡ true
    → serve_http h a now db s r ≢ healthy
unfolding serve_http handle_health serve_route
unhealthy h a now db s r down healthy_answer = ground arith

-- Once a write failed for another reason than the document's size, or `serve` has begun to shut down, no
-- request reaches a handler any more and none is told that the server is healthy, whatever happens
-- afterwards.
pub live_all_stops :
    (h : Host) (a : AuthStore) (now : ℕ) (db : Db) (no_auth : Bool) (events : List LifeEvent)
    (r : Request) (e : Endpoint)
    → any_of (λ ev. makes_unavailable ev || is_shut_down ev) events ≡ true
    → let s = flags_of no_auth (live_all events new_life) in
      (serve_http h a now db s r ≢ handle e) × (serve_http h a now db s r ≢ healthy)
live_all_stops h a now db no_auth events r e some_stop =
    let s = flags_of no_auth (live_all events new_life) in
    let (down, shut) = live_all_flags events new_life refl in
    let either : (s.shutting_down || s.unavailable) ≡ true =
      ground (arith, any_of-or makes_unavailable is_shut_down events) in
    (
      λ reached. (let (up, there, _) = serve_http_handles h a now db s r e reached in ground arith),
      unhealthy h a now db s r either,
    )
