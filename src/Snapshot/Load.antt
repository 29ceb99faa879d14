-- ===== src/Snapshot/Load.antt =====
-- `load` reads the collections back from their files.
use medb.Base.{
  ◌≡◌, ap, refl, Bool, Bool-cases, true, false, ◌||◌, inl, inr, Option, Option-cases, none, some,
  List, [], ◌∷◌, All, any_of, arith, Bytes, bytes_eq, bytes_eq_iff, Map, lookup, lookup-nil,
  lookup-insert, insert, if◌then◌else◌, keys, Found, keys-Found, any_of-keys,
}
use medb.Result.{ok}
use medb.Name.{coll_path, snapshot_name, valid_name}
use medb.Name.Files.{snapshot_name_iff}
use medb.Store.{Docs, Colls}
use medb.Codec.{Codec}
use medb.Snapshot.{load, load_paths}
use medb.Snapshot.Paths.{bytes_eq-coll_path}

module _ (c : Codec) (files : Map Bytes) where
  -- The collection that the file of `name` holds.
  abbrev pub stored : Bytes → Option Docs
  stored name = elim (lookup (coll_path name) files) [ none ↦ none | some b ↦ c.unmarshal_docs b ]

  -- Every file of a collection can be decoded.
  abbrev pub AllReadable : Type 0
  AllReadable =
      (name content : Bytes)
      → valid_name name ≡ true
      → lookup (coll_path name) files ≡ some content
      → (coll : Docs) × (c.unmarshal_docs content ≡ some coll)

  abbrev on_path : Bytes → Bytes → Bool
  on_path name path = bytes_eq path (coll_path name)

  -- One loaded file, the rest being loaded already.
  loaded_one :
      (name n content : Bytes) (coll : Docs) (rest : Colls) (more : Bool)
      → lookup (coll_path n) files ≡ some content
      → c.unmarshal_docs content ≡ some coll
      → lookup name rest ≡ (if more then stored name else none)
      → lookup name (insert n coll rest)
        ≡ (if on_path name (coll_path n) || more then stored name else none)
  loaded_one name n content coll rest more found read ih =
      rw (lookup-insert n name coll rest, bytes_eq-coll_path n name)
        (elim (Bool-cases (bytes_eq n name)) [
          | inl same ↦
              let eq = (bytes_eq_iff n name).0 same in
              let here : lookup (coll_path name) files ≡ some content = rw eq at found in
              rw same (ground (arith, here, read))
          | inr ne ↦ rw ne ih
        ])

  -- A file that is skipped holds no collection with a valid name.
  other_path :
      (path name : Bytes)
      → valid_name name ≡ true
      → snapshot_name path ≡ none
      → on_path name path ≡ false
  other_path path name v skipped =
      ground (arith, bytes_eq_iff path (coll_path name), (snapshot_name_iff path name).1)

  -- A load that succeeds has read its first file.
  loaded_inv :
      (path n : Bytes) (paths : List Bytes) (colls : Colls)
      → snapshot_name path ≡ some n
      → load_paths c files (path ∷ paths) ≡ ok colls
      → (content : Bytes) × (coll : Docs) × (rest : Colls) × (lookup path files ≡ some content)
        × (c.unmarshal_docs content ≡ some coll)
        × (load_paths c files paths ≡ ok rest)
        × (colls ≡ insert n coll rest)
  unfolding load_paths
  loaded_inv path n paths colls named h = ground arith

  load_paths-lookup :
      (paths : List Bytes) (colls : Colls) (name : Bytes)
      → valid_name name ≡ true
      → load_paths c files paths ≡ ok colls
      → lookup name colls ≡ (if any_of (on_path name) paths then stored name else none)
  unfolding load_paths
  load_paths-lookup [] colls name v h = ground (arith, lookup-nil {V = Docs} name)
  load_paths-lookup (path ∷ paths) colls name v h = elim (Option-cases (snapshot_name path)) [
    | inl skipped ↦
        rw (other_path path name v skipped)
          (load_paths-lookup paths colls name v (rw (skipped, load_paths) at h))
    | inr (n, named) ↦
        let (at_path, _) = (snapshot_name_iff path n).0 named in
        let (content, coll, rest, found, read, loaded, built) =
          loaded_inv path n paths colls named h in
        rw (built, at_path)
          (loaded_one name n content coll rest (any_of (on_path name) paths) (rw at_path at found)
            read (load_paths-lookup paths rest name v loaded))
  ]

  load_paths_total :
      (paths : List Bytes)
      → All (Found files) paths
      → AllReadable
      → (colls : Colls) × (load_paths c files paths ≡ ok colls)
  unfolding load_paths
  load_paths_total [] f r = ([], refl)
  load_paths_total (path ∷ paths) f r =
      let (colls, ih) = load_paths_total paths f.1 r in
      elim (Option-cases (snapshot_name path)) [
        | inl skipped ↦ (colls, rw (skipped, load_paths) ih)
        | inr (name, named) ↦
            let (at, valid) = (snapshot_name_iff path name).0 named in
            let (content, found) = f.0 in
            let (coll, read) = r name content valid (rw at at found) in
            (insert name coll colls, rw (named, found, read, ih, load_paths))
      ]

  -- If every file of a collection can be decoded, loading succeeds.
  pub load_total : AllReadable → (colls : Colls) × (load c files ≡ ok colls)
  unfolding load
  load_total r = load_paths_total (keys files) (keys-Found files) r

  -- Loading reads each collection with a valid name from its own file, and there is none without.
  pub load-stored :
      (colls : Colls) (name : Bytes)
      → valid_name name ≡ true
      → load c files ≡ ok colls
      → lookup name colls ≡ stored name
  unfolding load
  load-stored colls name v h = elim (Option-cases (lookup (coll_path name) files)) [
    | inl missing ↦ ground (arith, load_paths-lookup (keys files) colls name v h)
    | inr (b, found) ↦
        rw (any_of-keys files (coll_path name) b found) at
          (load_paths-lookup (keys files) colls name v h)
  ]

  load_paths-invalid :
      (paths : List Bytes) (colls : Colls) (name : Bytes)
      → valid_name name ≡ false
      → load_paths c files paths ≡ ok colls
      → lookup name colls ≡ none
  unfolding load_paths
  load_paths-invalid [] colls name v h = ground (arith, lookup-nil {V = Docs} name)
  load_paths-invalid (path ∷ paths) colls name v h = elim (Option-cases (snapshot_name path)) [
    | inl skipped ↦ load_paths-invalid paths colls name v (rw (skipped, load_paths) at h)
    | inr (n, named) ↦
        let (_, valid) = (snapshot_name_iff path n).0 named in
        let (content, coll, rest, _, _, loaded, built) = loaded_inv path n paths colls named h in
        let ih = load_paths-invalid paths rest name v loaded in
        ground (arith, lookup-insert n name coll rest, bytes_eq_iff n name, ap valid_name)
  ]

  -- No collection with an invalid name is loaded.
  pub load-invalid :
      (colls : Colls) (name : Bytes)
      → valid_name name ≡ false
      → load c files ≡ ok colls
      → lookup name colls ≡ none
  unfolding load
  load-invalid colls name v h = load_paths-invalid (keys files) colls name v h
