-- ===== src/Office/Digits.antt =====
-- `parseXlsxBuffer`: the numbers that it reads, `parseInt(text, 10)` and `/\d+/`.
use vault_drive.Base.{
  ℕ, Bool, true, false, not, ◌&&◌, [], ◌∷◌, if◌then◌else◌, ◌==◌, number_eq, list_eq,
}
use vault_drive.Base.JsText.{Text, trim_start, is_digit}
use vault_drive.Office.Cells.{parse_int}

pub data ParsedInt : Type 0 where
  not_a_number : ParsedInt
  negative : ℕ → ParsedInt
  number : ℕ → ParsedInt

unfoldable pub take_digits : Text → Text × Text
unfolding is_digit
take_digits [] = ([], [])
take_digits (c ∷ s) =
    let (digits, rest) = take_digits s in if is_digit c then (c ∷ digits, rest) else ([], c ∷ s)

-- The digits at the front, under a sign.
abbrev pub signed_int : Bool → Text → ParsedInt
signed_int minus [] = not_a_number
signed_int minus (c ∷ digits) =
    let n = parse_int 0 (c ∷ digits) in if minus && not (n == 0) then negative n else number n

-- `parseInt(text, 10)`
unfoldable pub parse_int_10 : Text → ParsedInt
unfolding take_digits trim_start parse_int
parse_int_10 text = elim (trim_start text) [
  | [] ↦ not_a_number
  | c ∷ s ↦
      if c == b'-'
      then signed_int true (take_digits s).0
      else if c == b'+'
      then signed_int false (take_digits s).0
      else signed_int false (take_digits (c ∷ s)).0
]

-- `text.match(/\d+/)`
unfoldable pub first_digits : Text → Text
unfolding take_digits
first_digits [] = []
first_digits (c ∷ s) =
    let later = first_digits s in if is_digit c then (take_digits (c ∷ s)).0 else later
