-- ===== src/Server/Response/Tests.antt =====
-- A handler that wrote a part of its answer, and one that panicked before.
use medb.Base.{◌≡◌, refl, ◌&&◌, not, some, none, [], ◌∷◌, bytes, if◌then◌else◌}
use medb.Server.Fields.{fail_internal, status}
use medb.Server.Response.{
  call_content, header, content, call_all, call_writer, new_tracked, abort_handler, other_panic,
  is_caught, recover_panic, code, write_failure, write_json, write_header, write_content,
  IsResponse, recover_panic-IsResponse,
}

recover_panic-IsResponse_example :
    let w = call_all (call_content (bytes "x") ∷ []) new_tracked in
    let (again, w') = recover_panic code (some other_panic) w in
    IsResponse w.out
    × IsResponse w'.out
    × (w'.out ≡ (
        if is_caught (some other_panic) && not w.wrote_header
        then header 500 ∷ (content (code fail_internal) ∷ [])
        else w.out))
    × (again ≡ (if is_caught (some other_panic) then none else some other_panic))
recover_panic-IsResponse_example =
    recover_panic-IsResponse code (call_content (bytes "x") ∷ []) (some other_panic)

unanswered :
    ((recover_panic code (some other_panic) new_tracked).1.out
      ≡ header 500 ∷ (content (bytes "internal_error") ∷ []))
    × (recover_panic code (some abort_handler) new_tracked ≡ (some abort_handler, new_tracked))
unfolding recover_panic call_all call_writer write_failure write_json status write_header
    write_content code
unanswered = (refl, refl)
