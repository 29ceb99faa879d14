-- ===== src/Server/Response.antt =====
-- What is written to a client: `trackedResponseWriter` and the recovery in `ServeHTTP` of
-- cmd/medb/server.go, `writeFailure`, `writeJSON` and `writeNoContent` of cmd/medb/protocol.go.
mod Tests
use medb.Base.{
  ◌≡◌, refl, ap, sym, subst, ◌∙◌, ◌⊎◌, inl, inr, ℕ, Bool, Bool-cases, true, false, ◌&&◌, ◌||◌, not,
  Option, none, some, List, [], ◌∷◌, ◌++◌, ◌==◌, arith, All, All-append, Bytes, bytes, bytes_eq,
  append_assoc, if◌then◌else◌,
}
use medb.Server.Fields.{
  ApiFailure, status, fail_invalid_json, fail_invalid_request, fail_invalid_collection,
  fail_invalid_id, fail_auth_required, fail_invalid_token, fail_forbidden, fail_reserved,
  fail_not_found, fail_route_not_found, fail_method, fail_user_disabled, fail_document_too_large,
  fail_request_too_large, fail_media_type, fail_storage, fail_internal, fail_unavailable,
}

-- What reaches the writer of net/http below.
pub data Output : Type 0 where
  header : ℕ → Output
  content : Bytes → Output
  flushed : Output

-- `out` is all that was passed on, oldest first.
pub record Tracked : Type 0 where
  pub wrote_header : Bool
  pub out : List Output

unfoldable pub write_header : ℕ → Tracked → Tracked
write_header code w =
    if w.wrote_header then w else record { wrote_header = true; out = w.out ++ header code ∷ [] }

unfoldable pub ensure_header : Tracked → Tracked
unfolding write_header
ensure_header w = if not w.wrote_header then write_header 200 w else w

unfoldable pub write_content : Bytes → Tracked → Tracked
unfolding ensure_header
write_content b w =
    let w' = ensure_header w in
    record { wrote_header = w'.wrote_header; out = w'.out ++ content b ∷ [] }

-- The writer of net/http can flush (`can_flush`) or not.
unfoldable pub flush_writer : Bool → Tracked → Tracked
unfolding ensure_header
flush_writer can_flush w =
    let w' = ensure_header w in
    if can_flush
    then record { wrote_header = w'.wrote_header; out = w'.out ++ flushed ∷ [] }
    else w'

pub data WriterCall : Type 0 where
  call_header : ℕ → WriterCall
  call_content : Bytes → WriterCall
  call_flush : Bool → WriterCall

unfoldable pub call_writer : WriterCall → Tracked → Tracked
unfolding write_header write_content flush_writer
call_writer (call_header code) w = write_header code w
call_writer (call_content b) w = write_content b w
call_writer (call_flush can_flush) w = flush_writer can_flush w

unfoldable pub call_all : List WriterCall → Tracked → Tracked
call_all [] w = w
call_all (k ∷ calls) w = call_all calls (call_writer k w)

unfoldable pub code : ApiFailure → Bytes
code fail_invalid_json = bytes "invalid_json"
code fail_invalid_request = bytes "invalid_request"
code fail_invalid_collection = bytes "invalid_collection"
code fail_invalid_id = bytes "invalid_id"
code fail_auth_required = bytes "authentication_required"
code fail_invalid_token = bytes "invalid_token"
code fail_forbidden = bytes "forbidden"
code fail_reserved = bytes "reserved_collection"
code fail_not_found = bytes "not_found"
code fail_route_not_found = bytes "route_not_found"
code fail_method = bytes "method_not_allowed"
code fail_user_disabled = bytes "user_disabled"
code fail_document_too_large = bytes "document_too_large"
code fail_request_too_large = bytes "request_too_large"
code fail_media_type = bytes "unsupported_media_type"
code fail_storage = bytes "storage_error"
code fail_internal = bytes "internal_error"
code fail_unavailable = bytes "unavailable"

-- The header `WWW-Authenticate` of `writeFailure`.
unfoldable pub www_authenticate : ApiFailure → Option Bytes
unfolding status code
www_authenticate f =
    if status f == 401
    then some (
        if bytes_eq (code f) (bytes "invalid_token")
        then bytes "Bearer realm=\"medb\", error=\"invalid_token\""
        else bytes "Bearer realm=\"medb\"")
    else none

-- `writeJSON` with the encoded value, `writeFailure` with the encoded envelope, and `writeNoContent`.
unfoldable pub write_json : ℕ → Bytes → List WriterCall
write_json code' encoded = call_header code' ∷ (call_content encoded ∷ [])

unfoldable pub write_no_content : List WriterCall
write_no_content = call_header 204 ∷ []

unfoldable pub write_failure : (ApiFailure → Bytes) → ApiFailure → List WriterCall
unfolding write_json status
write_failure envelope f = write_json (status f) (envelope f)

-- What a handler may panic with: http.ErrAbortHandler, or anything else.
pub data Panic : Type 0 where
  abort_handler other_panic : Panic

-- The deferred function of `ServeHTTP`, on what `recover` gives it: whether it panics again, and the
-- writer. A deliberate abort goes on to net/http; after any other panic the failure `internal_error` is
-- written where no header was.
unfoldable pub recover_panic :
    (ApiFailure → Bytes) → Option Panic → Tracked → Option Panic × Tracked
unfolding call_all write_failure
recover_panic envelope none w = (none, w)
recover_panic envelope (some abort_handler) w = (some abort_handler, w)
recover_panic envelope (some other_panic) w =
    (none, if not w.wrote_header then call_all (write_failure envelope fail_internal) w else w)

abbrev pub NoHeader : Output → Type 0
NoHeader (header code') = ⊥
NoHeader (content b) = Unit
NoHeader flushed = Unit

-- Nothing was written yet, or one header and then no other.
abbrev pub IsResponse : List Output → Type 0
IsResponse [] = Unit
IsResponse (header code' ∷ rest) = All NoHeader rest
IsResponse (content b ∷ rest) = ⊥
IsResponse (flushed ∷ rest) = ⊥

abbrev IsTracked : Tracked → Type 0
IsTracked w =
    ((w.wrote_header ≡ false) × (w.out ≡ []))
    ⊎ ((n : ℕ) × (rest : List Output) × (w.wrote_header ≡ true)
        × (w.out ≡ header n ∷ rest)
        × All NoHeader rest)

pass_on :
    (w : Tracked) (o : Output)
    → NoHeader o
    → w.wrote_header ≡ true
    → IsTracked w
    → IsTracked (record { wrote_header = true; out = w.out ++ o ∷ [] })
pass_on w o plain wrote (inl (unwritten, _)) = absurd (cc)
pass_on w o plain wrote (inr (n, rest, _, out, all)) = inr (
  n,
  rest ++ o ∷ [],
  refl,
  ap (λ l. l ++ o ∷ []) out,
  All-append NoHeader rest (o ∷ []) all (plain, tt),
)

write_header-IsTracked :
    (n : ℕ) (w : Tracked)
    → IsTracked w
    → IsTracked (write_header n w) × ((write_header n w).wrote_header ≡ true)
unfolding write_header
write_header-IsTracked n w (inl (unwritten, out)) =
    (inr (n, [], ground arith, ground arith, tt), ground arith)
write_header-IsTracked n w (inr (m, rest, wrote, out, all)) =
    (inr (m, rest, ground arith, ground arith, all), ground arith)

ensure_header-IsTracked :
    (w : Tracked)
    → IsTracked w
    → IsTracked (ensure_header w) × ((ensure_header w).wrote_header ≡ true)
unfolding ensure_header
ensure_header-IsTracked w h = elim (Bool-cases w.wrote_header) [
  | inl wrote ↦
      let e : ensure_header w ≡ w = ground arith in
      subst (λ (v : Tracked). IsTracked v × (v.wrote_header ≡ true)) (sym e) (h, wrote)
  | inr unwritten ↦
      let e : ensure_header w ≡ write_header 200 w = ground arith in
      subst (λ (v : Tracked). IsTracked v × (v.wrote_header ≡ true)) (sym e)
        (write_header-IsTracked 200 w h)
]

-- One more output after a header that is there.
after_header :
    (w : Tracked) (o : Output)
    → NoHeader o
    → IsTracked w
    → IsTracked (record {
      wrote_header = (ensure_header w).wrote_header;
      out = (ensure_header w).out ++ o ∷ [];
    })
after_header w o plain h =
    let (h', wrote) = ensure_header-IsTracked w h in
    subst (λ b. IsTracked (record { wrote_header = b; out = (ensure_header w).out ++ o ∷ [] }))
      (sym wrote) (pass_on (ensure_header w) o plain wrote h')

call_writer-IsTracked : (k : WriterCall) (w : Tracked) → IsTracked w → IsTracked (call_writer k w)
unfolding call_writer write_content flush_writer
call_writer-IsTracked (call_header n) w h = (write_header-IsTracked n w h).0
call_writer-IsTracked (call_content b) w h = after_header w (content b) tt h
call_writer-IsTracked (call_flush true) w h = after_header w flushed tt h
call_writer-IsTracked (call_flush false) w h = (ensure_header-IsTracked w h).0

call_all-IsTracked :
    (calls : List WriterCall) (w : Tracked) → IsTracked w → IsTracked (call_all calls w)
unfolding call_all
call_all-IsTracked [] w h = h
call_all-IsTracked (k ∷ calls) w h =
    call_all-IsTracked calls (call_writer k w) (call_writer-IsTracked k w h)

IsTracked-IsResponse : (w : Tracked) → IsTracked w → IsResponse w.out
IsTracked-IsResponse w (inl (_, out)) = rw out tt
IsTracked-IsResponse w (inr (n, rest, _, out, all)) = rw out all

internal_failure :
    (envelope : ApiFailure → Bytes) (w : Tracked)
    → IsTracked w
    → w.wrote_header ≡ false
    → (call_all (write_failure envelope fail_internal) w).out
      ≡ header 500 ∷ (content (envelope fail_internal) ∷ [])
unfolding call_all write_failure call_writer write_content ensure_header
internal_failure envelope w (inl (_, out)) unwritten = ground arith
internal_failure envelope w (inr (n, rest, wrote, out, all)) unwritten = absurd (cc)

-- A panic that ServeHTTP does not pass on.
abbrev pub is_caught : Option Panic → Bool
is_caught (some other_panic) = true
is_caught _ = false

abbrev pub new_tracked : Tracked
new_tracked = record { wrote_header = false; out = [] }

recovered :
    (envelope : ApiFailure → Bytes) (w : Tracked)
    → IsTracked w
    → (value : Option Panic)
    → let (again, w') = recover_panic envelope value w in
      IsResponse w'.out
      × (w'.out ≡ (
          if is_caught value && not w.wrote_header
          then header 500 ∷ (content (envelope fail_internal) ∷ [])
          else w.out))
      × (again ≡ (if is_caught value then none else value))
unfolding recover_panic
recovered envelope w h none = (IsTracked-IsResponse w h, refl, refl)
recovered envelope w h (some abort_handler) = (IsTracked-IsResponse w h, refl, refl)
recovered envelope w h (some other_panic) = elim (Bool-cases w.wrote_header) [
  | inl wrote ↦ rw (recover_panic, wrote) (IsTracked-IsResponse w h, refl, refl)
  | inr unwritten ↦
      let written = call_all (write_failure envelope fail_internal) w in
      let e : recover_panic envelope (some other_panic) w ≡ (none, written) = ground arith in
      let out = internal_failure envelope w h unwritten in
      let out' = ap (λ p. p.1.out) e ∙ out in
      (subst IsResponse (sym out') (tt, tt), ground arith, refl)
]

-- Whatever calls a handler makes of the response writer before it returns or panics, and after the
-- deferred function of `ServeHTTP`: net/http is passed at most one header, before anything else. A
-- handler that panics with anything but http.ErrAbortHandler before it wrote a header is answered for
-- with the status 500; in every other case nothing is added. The panic with http.ErrAbortHandler goes on
-- to net/http, and no other does.
pub recover_panic-IsResponse :
    (envelope : ApiFailure → Bytes) (calls : List WriterCall) (value : Option Panic)
    → let w = call_all calls new_tracked in
      let (again, w') = recover_panic envelope value w in
      IsResponse w.out
      × IsResponse w'.out
      × (w'.out ≡ (
          if is_caught value && not w.wrote_header
          then header 500 ∷ (content (envelope fail_internal) ∷ [])
          else w.out))
      × (again ≡ (if is_caught value then none else value))
unfolding recover_panic
recover_panic-IsResponse envelope calls value =
    let w = call_all calls new_tracked in
    let h = call_all-IsTracked calls new_tracked (inl (refl, refl)) in
    let (ok', out, again) = recovered envelope w h value in
    (IsTracked-IsResponse w h, ok', out, again)
