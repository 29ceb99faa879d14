-- ===== src/Server/Init/Marked.antt =====
-- The start of a server whose authentication is initialized: `hasActiveAdmin` and the case of a marker in
-- `initializeAuth` (cmd/medb/auth.go).
use medb.Base.{
  ◌≡◌, ◌≢◌, refl, ap, sym, subst, ◌∙◌, ◌⊎◌, inl, inr, ℕ, Bool, Bool-cases, true, false, Option,
  Option-cases, none, some, is_some, List, [], ◌∷◌, arith, Bytes, bytes_eq, bytes_eq_iff,
  bytes_eq_refl, lookup, keys,
}
use medb.Result.{ok}
use medb.Store.{Docs, docs_of}
use medb.Codec.{Codec}
use medb.Db.{Db, read}
use medb.Store.{get_doc}
use medb.Collection.{seq_of, all_docs, sorted, has}
use medb.Collection.Sorted.{member, member-sorted, member-keys}
use medb.Collection.Seqs.{decoded, seq_of_next, seq_of_panic, get-decoded, decoded-get}
use medb.Server.{Host}
use medb.Server.Auth.{
  ServerState, Token, AuthStore, token_collection, get_state, get_token, valid_state_record,
  is_admin_token, any_admin, has_active_admin, valid_token, authenticate,
}
use medb.Server.Roles.{role_admin}
use medb.Server.Init.Admin.{
  IsActiveAdmin, is_admin_token-IsActiveAdmin, IsActiveAdmin-is_admin_token,
  IsActiveAdmin-authenticate,
}
use medb.Server.Fresh.{Draws}
use medb.Server.Init.{
  GetEnv, done, stops, bad_state, admins_unreadable, no_admin, check_marker, initialize_auth,
}

module _ (h : Host) (a : AuthStore) (now : ℕ) (db : Db) where
  module _ (docs : Docs) where
    -- What the loop found, among these ids.
    abbrev Found : List Bytes → Option Bool → Type 0
    Found ids (some true) =
        (tid : Bytes) × (rec : Token) × (decoded a.tokens docs tid ≡ some rec)
        × (is_admin_token h a tid rec now db ≡ true)
    Found ids (some false) =
        (tid : Bytes) (rec : Token)
        → member tid ids ≡ true
        → decoded a.tokens docs tid ≡ some rec
        → is_admin_token h a tid rec now db ≡ false
    Found ids none = (tid : Bytes) × (member tid ids ≡ true) × (decoded a.tokens docs tid ≡ none)

    skip_idle :
        (id : Bytes) (ids : List Bytes) (rec : Token) (found : Option Bool)
        → decoded a.tokens docs id ≡ some rec
        → is_admin_token h a id rec now db ≡ false
        → Found ids found
        → Found (id ∷ ids) found
    skip_idle id ids rec none e idle (tid, there, broken) = (tid, ground arith, broken)
    skip_idle id ids rec (some true) e idle found = found
    skip_idle id ids rec (some false) e idle found = λ tid rec' there e'.
        elim (Bool-cases (bytes_eq id tid)) [
          | inl same ↦
              let at : id ≡ tid = (bytes_eq_iff id tid).0 same in
              let stored : decoded a.tokens docs tid ≡ some rec =
                subst (λ x. decoded a.tokens docs x ≡ some rec) at e in
              let one : rec ≡ rec' = ground arith in
              subst (λ x. is_admin_token h a tid x now db ≡ false) one
                (subst (λ x. is_admin_token h a x rec now db ≡ false) at idle)
          | inr apart ↦ found tid rec' (ground arith) e'
        ]

    any_admin-Found :
        (ids : List Bytes) → Found ids (any_admin h a (seq_of a.tokens docs ids) now db)
    unfolding any_admin
    any_admin-Found [] = unfold seq_of in λ tid rec there e. ground arith
    any_admin-Found (id ∷ ids) = elim (Option-cases (decoded a.tokens docs id)) [
      | inl e ↦ rw (seq_of_panic a.tokens docs id ids e) (id, rw (bytes_eq_refl id), e)
      | inr (rec, e) ↦ elim (Bool-cases (is_admin_token h a id rec now db)) [
        | inl active ↦
            rw (seq_of_next a.tokens docs id ids rec e, any_admin, active) (id, rec, e, active)
        | inr idle ↦
            rw (seq_of_next a.tokens docs id ids rec e, any_admin, idle)
              (skip_idle id ids rec (any_admin h a (seq_of a.tokens docs ids) now db) e idle
                (any_admin-Found ids))
      ]
    ]

  -- The three answers of `hasActiveAdmin` on an open database. Where it is true, a token with that hash
  -- is authenticated as an administrator's.
  abbrev pub Answers : Option Bool → Type 0
  Answers (some true) =
      (tid : Bytes) × (rec : Token) × (get_token a tid db ≡ ok rec)
      × IsActiveAdmin h a now db tid rec
      × ((token : Bytes)
          → valid_token h token ≡ true
          → h.digest token ≡ tid
          → authenticate h a token now db ≡ some role_admin)
  Answers (some false) =
      (tid : Bytes) (rec : Token) → get_token a tid db ≡ ok rec → ¬ IsActiveAdmin h a now db tid rec
  Answers none =
      (tid : Bytes) × (has token_collection tid db ≡ true)
      × ((rec : Token) → get_token a tid db ≢ ok rec)

  -- On an open database `hasActiveAdmin` answers true where some stored token is an active
  -- administrator's, false where none is, and fails where one cannot be read.
  pub has_active_admin-Answers : db.is_closed ≡ false → Answers (has_active_admin h a now db)
  unfolding has_active_admin
  has_active_admin-Answers live =
      let docs = docs_of token_collection db.store.colls in
      let all = sorted (keys docs) in
      let same : all_docs a.tokens token_collection db ≡ seq_of a.tokens docs all =
        unfold all_docs in ground arith in
      rw same (go (any_admin h a (seq_of a.tokens docs all) now db) (any_admin-Found docs all))
    where
      listed :
          (tid : Bytes)
          → member tid (sorted (keys (docs_of token_collection db.store.colls)))
            ≡ is_some (lookup tid (docs_of token_collection db.store.colls))
      listed tid =
          let docs = docs_of token_collection db.store.colls in
          member-sorted tid (keys docs) ∙ member-keys tid docs

      stored_has :
          (tid : Bytes)
          → member tid (sorted (keys (docs_of token_collection db.store.colls))) ≡ true
          → has token_collection tid db ≡ true
      stored_has tid there =
          unfold has in unfold read in unfold get_doc in ground (arith, listed tid)

      decoded_is_stored :
          (tid : Bytes) (rec : Token)
          → decoded a.tokens (docs_of token_collection db.store.colls) tid ≡ some rec
          → member tid (sorted (keys (docs_of token_collection db.store.colls))) ≡ true
      decoded_is_stored tid rec there = unfold decoded in ground (arith, listed tid)

      go :
          (found : Option Bool)
          → Found
              (docs_of token_collection db.store.colls)
              (sorted (keys (docs_of token_collection db.store.colls)))
              found
          → Answers found
      go none (tid, there, broken) = (
        tid,
        stored_has tid there,
        λ rec e.
            let read_back : decoded a.tokens (docs_of token_collection db.store.colls) tid
                ≡ some rec =
              unfold get_token in decoded-get a.tokens token_collection tid rec db e in
            ground arith,
      )
      go (some true) (tid, rec, there, active) =
          let got : get_token a tid db ≡ ok rec =
            unfold get_token in get-decoded a.tokens token_collection tid rec db live there in
          let admin = is_admin_token-IsActiveAdmin h a now db tid rec active in
          (
            tid,
            rec,
            got,
            admin,
            λ token form hash.
                IsActiveAdmin-authenticate h a now db token rec form
                  (ap (λ t. get_token a t db) hash ∙ got)
                  (subst (λ t. IsActiveAdmin h a now db t rec) (sym hash) admin),
          )
      go (some false) none_active = λ tid rec e admin.
          let there : decoded a.tokens (docs_of token_collection db.store.colls) tid ≡ some rec =
            unfold get_token in decoded-get a.tokens token_collection tid rec db e in
          let idle = none_active tid rec (decoded_is_stored tid rec there) there in
          let active = IsActiveAdmin-is_admin_token h a now db tid rec admin in ground arith

  -- On an open database with a state marker, `initializeAuth` writes nothing. It ends well only where the
  -- marker is valid and some stored token is an active administrator's: it is valid and has not expired,
  -- its user is stored, valid, enabled and an administrator, and a token with this hash is authenticated
  -- as an administrator's. It stops with the error for a missing administrator only where no stored token
  -- that can be read is such a one, with the error for unreadable administrators only where a stored
  -- token cannot be read, and otherwise because the marker is not valid.
  pub initialize_auth_marked :
      (c : Codec) (worker : Db → Db) (getenv : GetEnv) (read_file : Bytes → Option Bytes)
      (draws : Draws) (now_user : ℕ) (s : ServerState)
      → db.is_closed ≡ false
      → get_state a db ≡ ok s
      → let (r, db') = initialize_auth h a c worker getenv read_file draws now now_user db in
        (db' ≡ db)
        × (((r ≡ done tt) × (valid_state_record s ≡ true) × Answers (some true))
            ⊎ (((r ≡ stops no_admin) × Answers (some false))
                ⊎ (((r ≡ stops admins_unreadable) × Answers none)
                    ⊎ ((r ≡ stops bad_state) × (valid_state_record s ≡ false)))))
  unfolding initialize_auth check_marker
  initialize_auth_marked c worker getenv read_file draws now_user s live marked =
      elim (Bool-cases (valid_state_record s)) [
        | inr bad ↦
            rw (initialize_auth, marked, check_marker, bad) (refl, inr (inr (inr (refl, refl))))
        | inl valid ↦ elim (Option-cases (has_active_admin h a now db)) [
          | inl e ↦
              let broken = subst Answers e (has_active_admin-Answers live) in
              rw (initialize_auth, marked, check_marker, valid, e)
                (refl, inr (inr (inl (refl, broken))))
          | inr (true, e) ↦
              let active = subst Answers e (has_active_admin-Answers live) in
              rw (initialize_auth, marked, check_marker, valid, e) (refl, inl (refl, refl, active))
          | inr (false, e) ↦
              let idle = subst Answers e (has_active_admin-Answers live) in
              rw (initialize_auth, marked, check_marker, valid, e) (refl, inr (inl (refl, idle)))
        ]
      ]
