-- ===== src/Server/Init/Admin.antt =====
-- Whose token lets the server start: an independent description of what `hasActiveAdmin`
-- (cmd/medb/auth.go) looks for, and its relation to `authenticate`.
use medb.Base.{
  ◌≡◌, refl, ◌<◌, inl, inr, ℕ, true, false, Option-cases, Option, none, some, arith, Bytes,
}
use medb.Result.{ok, Result-cases}
use medb.Db.{Db}
use medb.Server.{Host}
use medb.Server.Roles.{role_admin}
use medb.Server.Auth.{
  User, Token, AuthStore, get_user, get_token, parse_utc_timestamp, valid_token, valid_token_record,
  valid_user_record, is_live, is_admin_token, authenticate,
}

module _ (h : Host) (a : AuthStore) (now : ℕ) (db : Db) where
  -- The token never expires, or at an instant that is still to come.
  abbrev pub IsUnexpired : Option Bytes → Type 0
  IsUnexpired none = Unit
  IsUnexpired (some stamp) = (end : ℕ) × (parse_utc_timestamp h stamp ≡ some end) × (now < end)

  -- A valid token that has not expired, of a stored and valid user, who is enabled and an administrator.
  abbrev pub IsActiveAdmin : Bytes → Token → Type 0
  IsActiveAdmin tid rec =
      (valid_token_record h tid rec ≡ true)
      × IsUnexpired rec.expires_at
      × ((user : User) × (get_user a rec.user_id db ≡ ok user)
          × (valid_user_record h rec.user_id user ≡ true)
          × (user.disabled ≡ false)
          × (user.role ≡ role_admin))

  is_live-IsUnexpired : (o : Option Bytes) → is_live h now o ≡ true → IsUnexpired o
  unfolding is_live
  is_live-IsUnexpired none e = tt
  is_live-IsUnexpired (some stamp) e = elim (Option-cases (parse_utc_timestamp h stamp)) [
    | inl bad ↦ ground arith
    | inr (end, e') ↦ (end, e', ground arith)
  ]

  IsUnexpired-is_live : (o : Option Bytes) → IsUnexpired o → is_live h now o ≡ true
  unfolding is_live
  IsUnexpired-is_live none e = refl
  IsUnexpired-is_live (some stamp) (end, e, later) = ground arith

  pub is_admin_token-IsActiveAdmin :
      (tid : Bytes) (rec : Token) → is_admin_token h a tid rec now db ≡ true → IsActiveAdmin tid rec
  unfolding is_admin_token
  is_admin_token-IsActiveAdmin tid rec e = elim (Result-cases (get_user a rec.user_id db)) [
    | inr (x, e') ↦ ground arith
    | inl (user, e') ↦ (
      ground arith,
      is_live-IsUnexpired rec.expires_at (ground arith),
      (user, e', ground arith, ground arith, ground arith),
    )
  ]

  pub IsActiveAdmin-is_admin_token :
      (tid : Bytes) (rec : Token) → IsActiveAdmin tid rec → is_admin_token h a tid rec now db ≡ true
  unfolding is_admin_token
  IsActiveAdmin-is_admin_token tid rec (valid, unexpired, (user, e, good, enabled, admin)) =
      let live = IsUnexpired-is_live rec.expires_at unexpired in ground arith

  -- With such a token a caller is authenticated as an administrator.
  pub IsActiveAdmin-authenticate :
      (token : Bytes) (rec : Token)
      → valid_token h token ≡ true
      → get_token a (h.digest token) db ≡ ok rec
      → IsActiveAdmin (h.digest token) rec
      → authenticate h a token now db ≡ some role_admin
  unfolding authenticate
  IsActiveAdmin-authenticate token rec form there
        (valid, unexpired, (user, e, good, enabled, admin)) =
      let live = IsUnexpired-is_live rec.expires_at unexpired in ground arith
