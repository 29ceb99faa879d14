-- ===== src/Server/Unicode.antt =====
-- The escapes in the strings of a request body: `validJSONUnicode` and `parseHex4` of
-- cmd/medb/protocol.go.
use medb.Base.{
  ◌≡◌, refl, ◌<◌, ◌≤◌, ◌+◌, ◌-◌, ◌*◌, ◌%◌, ◌≢◌, ℕ, zero, suc, Bool, true, false, ◌&&◌, not, Option,
  Option-cases, none, some, List, [], ◌∷◌, ◌==◌, ltb, leb, arith, inl, inr, Bytes, length, take,
  drop, if◌then◌else◌,
}

unfoldable pub hex_digit : ℕ → Option ℕ
hex_digit c =
    if leb b'0' c && leb c b'9'
    then some (c - b'0')
    else if leb b'a' c && leb c b'f'
    then some (c - b'a' + 10)
    else if leb b'A' c && leb c b'F'
    then some (c - b'A' + 10)
    else none

-- The loop of `parseHex4` on a uint16: `value <<= 4`, then the digit in the low bits.
unfoldable pub hex_loop : ℕ → Bytes → Option ℕ
hex_loop value [] = some value
hex_loop value (c ∷ cs) = elim (hex_digit c) [
  | none ↦ none
  | some d ↦ hex_loop (value * 16 % 65536 + d) cs
]

-- `parseHex4` at the bytes from `start` on.
unfoldable pub parse_hex4 : Bytes → Option ℕ
unfolding hex_loop
parse_hex4 data' = if ltb (length data') 4 then none else hex_loop 0 (take 4 data')

abbrev pub is_high : ℕ → Bool
is_high v = leb 55296 v && leb v 56319

abbrev pub is_low : ℕ → Bool
is_low v = leb 56320 v && leb v 57343

-- What follows `\u` and the four digits of a high surrogate is `\u` and a low one.
unfoldable pub starts_low : Bytes → Bool
starts_low (c ∷ (d ∷ rest)) =
    (c == b'\\' && d == b'u') && (elim (parse_hex4 rest) [ none ↦ false | some low ↦ is_low low ])
starts_low _ = false

-- The loop of `validJSONUnicode`; none means that the fuel ran out.
unfoldable pub scan : ℕ → Bool → Bytes → Option Bool
scan zero in_string data' = none
scan (suc fuel) in_string [] = some (not in_string)
scan (suc fuel) false (c ∷ rest) = scan fuel (c == b'"') rest
scan (suc fuel) true (c ∷ rest) =
    let after_quote = scan fuel false rest in
    let after_char = scan fuel true rest in
    let escaped = drop 1 rest in
    let after_escape = scan fuel true escaped in
    let after_unit = scan fuel true (drop 4 escaped) in
    let after_pair = scan fuel true (drop 10 escaped) in
    if c == b'"' then after_quote else if not (c == b'\\') then after_char else elim rest [
      | [] ↦ some false
      | d ∷ _ ↦ if not (d == b'u') then after_escape else elim (parse_hex4 escaped) [
        | none ↦ some false
        | some value ↦
            if is_high value
            then (if starts_low (drop 4 escaped) then after_pair else some false)
            else if is_low value
            then some false
            else after_unit
      ]
    ]

unfoldable pub valid_json_unicode : Bytes → Option Bool
unfolding scan
valid_json_unicode data' = scan (suc (length data')) false data'

hex_digit_small : (c d : ℕ) → hex_digit c ≡ some d → d < 16
unfolding hex_digit
hex_digit_small c d h = ground arith

-- The value of four hexadecimal digits, of which no bit is lost in the 16 bits.
pub parse_hex4_lem :
    (a b c d e f g i : ℕ) (rest : Bytes)
    → hex_digit a ≡ some e
    → hex_digit b ≡ some f
    → hex_digit c ≡ some g
    → hex_digit d ≡ some i
    → (parse_hex4 (a ∷ (b ∷ (c ∷ (d ∷ rest)))) ≡ some (e * 4096 + f * 256 + g * 16 + i))
      × (e * 4096 + f * 256 + g * 16 + i < 65536)
unfolding parse_hex4 hex_loop
parse_hex4_lem a b c d e f g i rest ha hb hc hd =
    let ea = hex_digit_small a e ha in
    let eb = hex_digit_small b f hb in
    let ec = hex_digit_small c g hc in
    let ed = hex_digit_small d i hd in (ground arith, omega arith)

length-drop : (n : ℕ) (xs : Bytes) → length (drop n xs) ≤ length xs
length-drop zero xs = omega arith
length-drop (suc n) [] = omega arith
length-drop (suc n) (x ∷ xs) = omega (arith, length-drop n xs)

-- More fuel than bytes is enough.
pub scan_total :
    (fuel : ℕ) (in_string : Bool) (data' : Bytes)
    → length data' < fuel
    → (b : Bool) × (scan fuel in_string data' ≡ some b)
unfolding scan
scan_total zero in_string data' h = absurd (omega arith)
scan_total (suc fuel) in_string [] h = (not in_string, refl)
scan_total (suc fuel) false (c ∷ rest) h = scan_total fuel (c == b'"') rest (omega arith)
scan_total (suc fuel) true (c ∷ rest) h =
    let escaped = drop 1 rest in
    let (q, eq) = scan_total fuel false rest (omega arith) in
    let (p, ep) = scan_total fuel true rest (omega arith) in
    let (s, es) = scan_total fuel true escaped (omega (arith, length-drop 1 rest)) in
    let (u, eu) =
      scan_total fuel true (drop 4 escaped)
        (omega (arith, length-drop 1 rest, length-drop 4 escaped)) in
    let (v, ev) =
      scan_total fuel true (drop 10 escaped)
        (omega (arith, length-drop 1 rest, length-drop 10 escaped)) in
    elim (Option-cases (scan (suc fuel) true (c ∷ rest))) [
      | inr found ↦ found
      | inl none_left ↦ absurd (ground (arith, eq, ep, es, eu, ev))
    ]

-- What may stand between the quotes of a string: a character other than a quote and a backslash,
-- an escape other than `\u`, `\u` with a unit that is no surrogate, or a pair of surrogates.
pub data Piece : Type 0 where
  plain escape : ℕ → Piece
  unit : ℕ → ℕ → ℕ → ℕ → Piece
  pair : (a b c d e f g i : ℕ) → Piece

abbrev four : ℕ → ℕ → ℕ → ℕ → Bytes
four a b c d = a ∷ (b ∷ (c ∷ (d ∷ [])))

-- The four digits have a value that passes the test.
abbrev IsUnit : Bytes → (ℕ → Bool) → Type 0
IsUnit hex test = (v : ℕ) × (hex_loop 0 hex ≡ some v) × (test v ≡ true)

abbrev pub IsPiece : Piece → Type 0
IsPiece (plain c) = (c ≢ b'"') × (c ≢ b'\\')
IsPiece (escape c) = c ≢ b'u'
IsPiece (unit a b c d) = IsUnit (four a b c d) (λ v. not (is_high v) && not (is_low v))
IsPiece (pair a b c d e f g i) = IsUnit (four a b c d) is_high × IsUnit (four e f g i) is_low

abbrev print_pair : (a b c d e f g i : ℕ) → Bytes → Bytes
print_pair a b c d e f g i rest =
    b'\\' ∷ (b'u' ∷ (a ∷ (b ∷ (c ∷ (d ∷ (b'\\' ∷ (b'u' ∷ (e ∷ (f ∷ (g ∷ (i ∷ rest)))))))))))

abbrev pub print_piece : Piece → Bytes → Bytes
print_piece (plain c) rest = c ∷ rest
print_piece (escape c) rest = b'\\' ∷ (c ∷ rest)
print_piece (unit a b c d) rest = b'\\' ∷ (b'u' ∷ (a ∷ (b ∷ (c ∷ (d ∷ rest)))))
print_piece (pair a b c d e f g i) rest = print_pair a b c d e f g i rest

abbrev pub print_pieces : List Piece → Bytes → Bytes
print_pieces [] rest = rest
print_pieces (p ∷ ps) rest = print_piece p (print_pieces ps rest)
