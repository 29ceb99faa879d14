-- ===== src/Server/Failures/Tests.antt =====
-- A document that is too large, then failed writes.
use medb.Base.{◌≡◌, refl, true, false, [], ◌∷◌}
use medb.Result.{too_large, io, closed}
use medb.Server.Failures.{failed_write, live_all, new_life, first_storage_error, live_all_lem}

live_all_lem_example :
    let events = failed_write too_large ∷ (failed_write closed ∷ (failed_write io ∷ [])) in
    ((live_all events new_life).unavailable ≡ true)
    × ((live_all events new_life).shutting_down ≡ false)
    × ((live_all events new_life).failure_ch ≡ first_storage_error events)
live_all_lem_example =
    live_all_lem (failed_write too_large ∷ (failed_write closed ∷ (failed_write io ∷ []))) refl
