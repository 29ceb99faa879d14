-- ===== src/Server/Roles.antt =====
-- Roles and the checks on names, ids and labels: cmd/medb/auth.go.
use medb.Base.{
  ◌≡◌, ℕ, Bool, true, false, ◌&&◌, ◌||◌, [], ◌∷◌, ◌==◌, ltb, leb, arith, Bytes, length,
  if◌then◌else◌,
}
use medb.Server.{Host}

-- The strings "reader", "writer" and "admin", and any other.
pub data Role : Type 0 where
  role_reader role_writer role_admin : Role
  role_other : Bytes → Role

unfoldable pub valid_role : Role → Bool
valid_role (role_other _) = false
valid_role _ = true

unfoldable pub rank : Role → ℕ
rank role_reader = 1
rank role_writer = 2
rank role_admin = 3
rank (role_other _) = 0

unfoldable pub role_allows : Role → Role → Bool
unfolding rank
role_allows actual required = leb (rank required) (rank actual)

unfoldable pub is_hex_digit : ℕ → Bool
is_hex_digit c = (leb b'0' c && leb c b'9') || (leb b'a' c && leb c b'f')

unfoldable pub all_hex : Bytes → Bool
all_hex [] = true
all_hex (c ∷ rest) = if is_hex_digit c then all_hex rest else false

unfoldable pub valid_hex_id : Bytes → ℕ → Bool
valid_hex_id value size = length value == size && all_hex value

-- `validateLabel`: whether it returns nil.
unfoldable pub valid_label : Host → Bytes → Bool
valid_label h value = h.valid_utf8 value && (ltb 0 (length value) && leb (length value) 256)

-- The role that a caller has allows what a role below it allows, no one's role allows more than an
-- administrator's, and a role that is not one of the three allows nothing that a valid role is
-- required for.
pub role_allows_order :
    (a b r : Role) (name : Bytes)
    → role_allows a b ≡ true
    → role_allows b r ≡ true
    → valid_role b ≡ true
    → (role_allows a r ≡ true)
      × (role_allows role_admin a ≡ true)
      × (role_allows (role_other name) b ≡ false)
unfolding role_allows rank valid_role
role_allows_order a b r name ab br valid = (ground arith, ground arith, ground arith)
