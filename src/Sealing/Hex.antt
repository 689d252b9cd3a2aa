-- ===== src/Sealing/Hex.antt =====
-- utils/crypto.ts: bytes as hexadecimal text.
use vault_drive.Base.{
  ℕ, ◌+◌, ◌-◌, ◌*◌, ◌/◌, ◌%◌, ◌<◌, ◌≡◌, refl, false, ◌&&◌, ◌||◌, Option, none, some, [], ◌∷◌, ◌++◌,
  length, leb, ltb, if◌then◌else◌, get_or, All, Outcome, ok, throw, ◌==◌, number_eq, arith,
}
use vault_drive.Base.JsText.{Text, is_space}
use vault_drive.Sealing.{Bytes, IsByte}

-- The value of a hexadecimal digit of either case.
unfoldable pub hex_value : ℕ → Option ℕ
hex_value c =
    if leb 48 c && leb c 57
    then some (c - 48)
    else if leb 97 c && leb c 102
    then some (c - 87)
    else if leb 65 c && leb c 70
    then some (c - 55)
    else none

-- `parseInt` of the two units to the base 16, as a byte: NaN is 0, and blanks, a sign and `0x` in front
-- of the digits are read over.
unfoldable pub parse_pair : ℕ → ℕ → ℕ
unfolding is_space hex_value
parse_pair a b =
    let last = get_or (hex_value b) 0 in
    if is_space a || a == b'+'
    then last
    else if a == b'-'
    then (256 - last) % 256
    else if a == b'0' && (b == b'x' || b == b'X')
    then 0
    else elim (hex_value a) [
      | none ↦ 0
      | some high ↦ elim (hex_value b) [ none ↦ high | some low ↦ 16 * high + low ]
    ]

-- The rounds of the loop, two units each.
unfoldable pub hex_pairs : Text → Bytes
unfolding parse_pair
hex_pairs [] = []
hex_pairs (a ∷ []) = []
hex_pairs (a ∷ b ∷ hex) = parse_pair a b ∷ hex_pairs hex

unfoldable pub hex_to_bytes : Text → Outcome Bytes
unfolding hex_pairs
hex_to_bytes hex =
    if length hex % 2 == 0 then ok (hex_pairs hex) else throw "Hex string must have even length"

-- `d.toString(16)` of a number below 16.
unfoldable pub hex_digit : ℕ → ℕ
hex_digit d = if ltb d 10 then 48 + d else 87 + d

-- `b.toString(16).padStart(2, '0')` of a byte.
unfoldable pub byte_to_hex : ℕ → Text
unfolding hex_digit
byte_to_hex b =
    if ltb b 16 then b'0' ∷ hex_digit b ∷ [] else hex_digit (b / 16) ∷ hex_digit (b % 16) ∷ []

unfoldable pub bytes_to_hex : Bytes → Text
unfolding byte_to_hex
bytes_to_hex [] = []
bytes_to_hex (b ∷ bytes) = byte_to_hex b ++ bytes_to_hex bytes

hex_value-hex_digit : (d : ℕ) → d < 16 → hex_value (hex_digit d) ≡ some d
unfolding hex_value hex_digit
hex_value-hex_digit d h = ground arith

-- A digit is none of the units that `parseInt` reads over.
IsPlain : ℕ → Type 0
IsPlain c = (is_space c ≡ false) × (47 < c) × (c < 103)

hex_digit-IsPlain : (d : ℕ) → d < 16 → IsPlain (hex_digit d)
unfolding hex_digit is_space IsPlain
hex_digit-IsPlain d h = ground arith

parse_pair_digits :
    (a b h l : ℕ)
    → IsPlain a
    → IsPlain b
    → hex_value a ≡ some h
    → hex_value b ≡ some l
    → parse_pair a b ≡ 16 * h + l
unfolding parse_pair IsPlain
parse_pair_digits a b h l pa pb ha hb = ground (
  arith,
  number_eq.same_iff a b'+',
  number_eq.same_iff a b'-',
  number_eq.same_iff b b'x',
  number_eq.same_iff b b'X',
)

parse_pair-hex_digit :
    (h l : ℕ) → h < 16 → l < 16 → parse_pair (hex_digit h) (hex_digit l) ≡ 16 * h + l
parse_pair-hex_digit h l hh hl =
    parse_pair_digits _ _ h l (hex_digit-IsPlain h hh) (hex_digit-IsPlain l hl)
      (hex_value-hex_digit h hh) (hex_value-hex_digit l hl)

byte_to_hex_digits :
    (b : ℕ) → b < 256 → byte_to_hex b ≡ hex_digit (b / 16) ∷ hex_digit (b % 16) ∷ []
unfolding byte_to_hex hex_digit
byte_to_hex_digits b h = ground arith

hex_pairs-bytes_to_hex : (bytes : Bytes) → All IsByte bytes → hex_pairs (bytes_to_hex bytes) ≡ bytes
unfolding hex_pairs bytes_to_hex
hex_pairs-bytes_to_hex [] h = refl
hex_pairs-bytes_to_hex (b ∷ bytes) (hb, h) =
    let high : b / 16 < 16 = omega arith in
    let low : b % 16 < 16 = omega arith in
    let whole : 16 * (b / 16) + b % 16 ≡ b = omega arith in
    rw
      (
        byte_to_hex_digits b hb,
        parse_pair-hex_digit (b / 16) (b % 16) high low,
        whole,
        hex_pairs-bytes_to_hex bytes h,
      )
      refl

length-bytes_to_hex : (bytes : Bytes) → length (bytes_to_hex bytes) ≡ 2 * length bytes
unfolding bytes_to_hex byte_to_hex
length-bytes_to_hex [] = refl
length-bytes_to_hex (b ∷ bytes) = ground (arith, length-bytes_to_hex bytes)

-- Reading what was written gives the bytes back.
pub hex_to_bytes-bytes_to_hex :
    (bytes : Bytes) → All IsByte bytes → hex_to_bytes (bytes_to_hex bytes) ≡ ok bytes
unfolding hex_to_bytes
hex_to_bytes-bytes_to_hex bytes h =
    ground (arith, length-bytes_to_hex bytes, hex_pairs-bytes_to_hex bytes h)
