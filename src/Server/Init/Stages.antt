-- ===== src/Server/Init/Stages.antt =====
-- What an initialization that did not end leaves in the collections: `initializeAuth` of
-- cmd/medb/auth.go writes the token, then the user, then the marker.
use medb.Base.{
  ◌≡◌, refl, ◌∙◌, inl, inr, true, false, none, some, List, [], ◌∷◌, All, Bytes, bytes_eq,
  bytes_eq_refl, insert, keys, Bool-cases,
}
use medb.Store.{Colls, docs_of}
use medb.Db.{Db}
use medb.Db.Opening.{pos}
use medb.Collection.{sorted, insert_sorted, leb_bytes, collections}
use medb.Server.{Host}
use medb.Server.Roles.{role_admin}
use medb.Server.Auth.{
  User, Token, AuthStore, state_collection, user_collection, token_collection, state_id,
  valid_user_record, valid_token_record,
}
use medb.Server.Init.{in_the_way, first_conflict, initial_label}
use medb.Server.Init.Calls.{put_colls, docs_of-put_colls}

module _ (P : Bytes → Type 0) where
  All-insert_sorted : (x : Bytes) (xs : List Bytes) → P x → All P xs → All P (insert_sorted x xs)
  unfolding insert_sorted
  All-insert_sorted x [] h all = (h, tt)
  All-insert_sorted x (y ∷ ys) h (here, rest) = elim (Bool-cases (leb_bytes x y)) [
    | inl first ↦ rw (insert_sorted, first) (h, (here, rest))
    | inr later ↦ rw (insert_sorted, later) (here, All-insert_sorted x ys h rest)
  ]

  All-sorted : (xs : List Bytes) → All P xs → All P (sorted xs)
  unfolding sorted
  All-sorted [] h = tt
  All-sorted (x ∷ xs) (h, hs) = All-insert_sorted x (sorted xs) h (All-sorted xs hs)

  All-keys-insert {ℓ} :
      {V : Type ℓ} (k : Bytes) (v : V) (m : List (Bytes × V))
      → P k
      → All P (keys m)
      → All P (keys (insert k v m))
  unfolding insert
  All-keys-insert k v [] h all = (h, tt)
  All-keys-insert k v ((j, w) ∷ m) h (here, rest) = elim (Bool-cases (bytes_eq j k)) [
    | inl same ↦ rw (insert, same) (h, rest)
    | inr ne ↦ rw (insert, ne) (here, All-keys-insert k v m h rest)
  ]

abbrev IsClear : Bytes → Type 0
IsClear n = in_the_way n ≡ false

first_conflict_clear : (names : List Bytes) → All IsClear names → first_conflict names ≡ none
unfolding first_conflict
first_conflict_clear [] h = refl
first_conflict_clear (n ∷ names) (h, hs) = rw h (first_conflict_clear names hs)

-- Nothing else is stored under `_meta`.
abbrev pub NothingElse : Colls → Type 0
NothingElse colls = All IsClear (keys colls)

pub first_conflict-none :
    (db : Db) → NothingElse db.store.colls → first_conflict (collections db) ≡ none
unfolding collections
first_conflict-none db h = elim (Bool-cases db.is_closed) [
  | inl shut ↦ rw (shut, collections) (first_conflict_clear [] tt)
  | inr live ↦
      rw (live, collections)
        (first_conflict_clear (sorted (keys db.store.colls))
          (All-sorted IsClear (keys db.store.colls) h))
]

pub put_colls-NothingElse :
    (name id raw : Bytes) (colls : Colls)
    → in_the_way name ≡ false
    → NothingElse colls
    → NothingElse (put_colls name id raw colls)
put_colls-NothingElse name id raw colls own h = All-keys-insert IsClear name _ colls own h

pub docs_of-put_colls_first :
    (name id raw : Bytes) (colls : Colls)
    → docs_of name colls ≡ []
    → docs_of name (put_colls name id raw colls) ≡ (id, raw) ∷ []
unfolding insert
docs_of-put_colls_first name id raw colls none_there =
    docs_of-put_colls name id raw colls name ∙ rw (bytes_eq_refl name, none_there)

pub docs_of-put_colls_other :
    (name id raw : Bytes) (colls : Colls) (coll : Bytes)
    → bytes_eq name coll ≡ false
    → docs_of coll (put_colls name id raw colls) ≡ docs_of coll colls
docs_of-put_colls_other name id raw colls coll ne = docs_of-put_colls name id raw colls coll ∙ rw ne

module _ (h : Host) (a : AuthStore) (tid name : Bytes) where
  -- The initial token, and the administrator, alone in their collections.
  pub record HasToken (colls : Colls) (rec : Token) : Type 0 where
    pub raw : Bytes
    pub only : docs_of token_collection colls ≡ (tid, raw) ∷ []
    pub decoded : a.tokens.unmarshal raw ≡ some rec
    pub valid : valid_token_record h tid rec ≡ true
    pub labelled : rec.label ≡ initial_label
    pub lasting : rec.expires_at ≡ none

  pub record HasUser (colls : Colls) (rec : Token) (user : User) : Type 0 where
    pub raw : Bytes
    pub only : docs_of user_collection colls ≡ (rec.user_id, raw) ∷ []
    pub decoded : a.users.unmarshal raw ≡ some user
    pub valid : valid_user_record h rec.user_id user ≡ true
    pub named : user.user_name ≡ name
    pub admin : user.role ≡ role_admin
    pub enabled : user.disabled ≡ false

  pub record HasMarker (colls : Colls) : Type 0 where
    pub raw : Bytes
    pub only : docs_of state_collection colls ≡ (state_id, raw) ∷ []
    pub decoded : a.state.unmarshal raw ≡ some (record { version = pos 1; auth_initialized = true })

  -- How far the writes have come.
  pub data Stage (colls : Colls) : Type 0 where
    untouched :
        docs_of state_collection colls ≡ []
        → docs_of token_collection colls ≡ []
        → docs_of user_collection colls ≡ []
        → Stage colls
    with_token :
        (rec : Token)
        → docs_of state_collection colls ≡ []
        → HasToken colls rec
        → docs_of user_collection colls ≡ []
        → Stage colls
    with_user :
        (rec : Token) (user : User)
        → docs_of state_collection colls ≡ []
        → HasToken colls rec
        → HasUser colls rec user
        → Stage colls
    complete :
        (rec : Token) (user : User)
        → HasMarker colls
        → HasToken colls rec
        → HasUser colls rec user
        → Stage colls

  -- An open database in which an initialization has come so far, with nothing else in its way.
  pub record IsPartial (db : Db) : Type 0 where
    pub live : db.is_closed ≡ false
    pub clear : NothingElse db.store.colls
    pub stage : Stage db.store.colls
