-- ===== src/Snapshot/Paths.antt =====
-- The paths of the snapshots (`collPath` of medb.go) and of the temporary files beside them.
use medb.Base.{◌≡◌, ap, false, arith, Bytes, bytes_eq, bytes_eq_iff, Bool-cases, inl, inr}
use medb.Name.{coll_path, temp_path}
use medb.Name.Files.{coll_path-injective, coll_path-ne-temp_path}

pub bytes_eq-coll_path : (a b : Bytes) → bytes_eq (coll_path a) (coll_path b) ≡ bytes_eq a b
bytes_eq-coll_path a b = ground (
  arith,
  bytes_eq_iff (coll_path a) (coll_path b),
  bytes_eq_iff a b,
  coll_path-injective a b,
  ap coll_path,
)

pub bytes_eq-temp_path : (path name : Bytes) → bytes_eq (temp_path path) (coll_path name) ≡ false
bytes_eq-temp_path path name = elim (Bool-cases (bytes_eq (temp_path path) (coll_path name))) [
  | inl same ↦
      absurd
        (coll_path-ne-temp_path path name ((bytes_eq_iff (temp_path path) (coll_path name)).0 same))
  | inr e ↦ e
]
