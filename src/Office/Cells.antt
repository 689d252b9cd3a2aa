-- ===== src/Office/Cells.antt =====
-- `columnIndexToLetter` and `cellRefToCoords`. Numbers are exact, which JavaScript's are up to 2 ^ 53.
use vault_drive.Base.{
  ℕ, zero, suc, ◌+◌, ◌-◌, ◌*◌, ◌/◌, ◌%◌, Bool, not, ◌&&◌, ◌||◌, Option, none, some, [], ◌∷◌, map,
  all, ltb, leb, if◌then◌else◌, is_empty,
}
use vault_drive.Base.JsText.{Text, trim, is_digit}

-- The loop; `fuel` is the number itself, which falls by more than one half in each round.
unfoldable pub letters_from : ℕ → ℕ → Text → Text
letters_from zero n letters = letters
letters_from (suc fuel) n letters =
    let more = letters_from fuel ((n - 1) / 26) ((65 + (n - 1) % 26) ∷ letters) in
    if ltb 0 n then more else letters

unfoldable pub column_index_to_letter : ℕ → Text
unfolding letters_from
column_index_to_letter index =
    let letters = letters_from (index + 1) (index + 1) [] in
    if is_empty letters then b'A' ∷ [] else letters

abbrev pub is_letter : ℕ → Bool
is_letter c = leb 65 c && leb c 90 || leb 97 c && leb c 122

-- `toUpperCase` of an ASCII letter.
abbrev pub to_upper : ℕ → ℕ
to_upper c = if leb 97 c && leb c 122 then c - 32 else c

-- `/^([A-Za-z]+)(\d+)$/`: the letters, then the digits.
unfoldable pub take_letters : Text → Text × Text
take_letters [] = ([], [])
take_letters (c ∷ s) =
    let (letters, rest) = take_letters s in if is_letter c then (c ∷ letters, rest) else ([], c ∷ s)

-- `parseInt(digits, 10)`, with `n` read so far.
unfoldable pub parse_int : ℕ → Text → ℕ
parse_int n [] = n
parse_int n (c ∷ s) = parse_int (n * 10 + (c - 48)) s

-- The loop over the letters, with `col` so far.
unfoldable pub column_number : ℕ → Text → ℕ
column_number col [] = col
column_number col (c ∷ s) = column_number (col * 26 + (c - 64)) s

pub record Coords : Type 0 where
  pub row : ℕ
  pub col : ℕ

unfoldable pub cell_ref_to_coords : Text → Option Coords
unfolding take_letters parse_int column_number is_digit
cell_ref_to_coords ref =
    let (letters, digits) = take_letters (trim ref) in
    if is_empty letters || is_empty digits || not (all is_digit digits)
    then none
    else if ltb (parse_int 0 digits) 1
    then none
    else some
        (record { row = parse_int 0 digits - 1; col = column_number 0 (map to_upper letters) - 1 })
