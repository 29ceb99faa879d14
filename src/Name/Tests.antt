-- ===== src/Name/Tests.antt =====
-- Names and paths at concrete inputs.
use medb.Base.{◌≡◌, refl, ◌↔◌, true, false, bytes, bytes_eq, some, none, has_prefix}
use medb.Name.{valid_name, reserved_collection, snapshot_name, has_suffix, trim_suffix, base_from}
use medb.Name.Grammar.{IsCollName, valid_name_iff}

names_accepted :
    (valid_name (bytes "2026/events") ≡ true)
    × (valid_name (bytes "prod/eu/users") ≡ true)
    × (valid_name (bytes "a//b") ≡ false)
    × (valid_name (bytes "users/") ≡ false)
    × (valid_name (bytes "") ≡ false)
    × (valid_name (bytes "Users") ≡ false)
unfolding valid_name
names_accepted = (refl, refl, refl, refl, refl, refl)

names_reserved :
    (reserved_collection (bytes "_meta/users") ≡ true)
    × (reserved_collection (bytes "_meta") ≡ true)
    × (reserved_collection (bytes "_metadata") ≡ false)
unfolding reserved_collection bytes_eq has_prefix
names_reserved = (refl, refl, refl)

files_loaded :
    (snapshot_name (bytes "prod/users.json") ≡ some (bytes "prod/users"))
    × (snapshot_name (bytes "wal.log") ≡ none)
    × (snapshot_name (bytes "lock") ≡ none)
unfolding snapshot_name has_suffix trim_suffix base_from valid_name bytes_eq
files_loaded = (refl, refl, refl)

events_valid : valid_name (bytes "2026/events") ≡ true
unfolding valid_name
events_valid = refl

valid_name_iff_example :
    (valid_name (bytes "2026/events") ≡ true) ↔ IsCollName (bytes "2026/events")
valid_name_iff_example = valid_name_iff (bytes "2026/events")
