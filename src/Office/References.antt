-- ===== src/Office/References.antt =====
-- A cell's name is read back as its row and column.
use vault_drive.Base.{
  ℕ, zero, suc, ◌+◌, ◌-◌, ◌/◌, ◌%◌, ◌≤◌, ◌<◌, Bool, true, false, not, ◌&&◌, some, [], ◌∷◌, ◌++◌,
  map, all, ltb, if◌then◌else◌, is_empty, ◌==◌, number_eq, ◌≡◌, refl, ap, ◌∙◌, inl, inr, arith,
  Bool-cases,
}
use vault_drive.Base.JsText.{
  Text, trim, trim_start, trim_end, is_space, is_digit, decimal, decimal_from,
}
use vault_drive.Office.Cells.{
  letters_from, column_index_to_letter, is_letter, to_upper, take_letters, parse_int, column_number,
  cell_ref_to_coords,
}

parse_int-decimal_from :
    (fuel n : ℕ) (digits : Text)
    → n < fuel
    → parse_int 0 (decimal_from fuel n digits) ≡ parse_int n digits
unfolding decimal_from parse_int
parse_int-decimal_from zero n digits h = absurd (omega arith)
parse_int-decimal_from (suc fuel) n digits h = elim (Bool-cases (n / 10 == 0)) [
  | inl one_digit ↦
      rw (decimal_from, one_digit) (ap (λ k. parse_int k digits) (ground (arith, one_digit)))
  | inr more ↦
      rw (decimal_from, more)
        (parse_int-decimal_from fuel (n / 10) ((48 + n % 10) ∷ digits) (ground (arith, more, h))
          ∙ ap (λ k. parse_int k digits) (omega arith))
]

parse_int-decimal : (n : ℕ) → parse_int 0 (decimal n) ≡ n
unfolding decimal parse_int
parse_int-decimal n = parse_int-decimal_from (suc n) n [] (omega arith)

-- All digits, and at least one.
abbrev is_number : Text → Bool
is_number t = not (is_empty t) && all is_digit t

all-decimal_from :
    (fuel n : ℕ) (digits : Text)
    → all is_digit digits ≡ true
    → all is_digit (decimal_from fuel n digits) ≡ true
unfolding decimal_from is_digit
all-decimal_from zero n digits h = h
all-decimal_from (suc fuel) n digits h =
    ground (arith, h, all-decimal_from fuel (n / 10) ((48 + n % 10) ∷ digits))

nonempty-decimal_from :
    (fuel n : ℕ) (digits : Text)
    → (is_empty digits ≡ false)
    → is_empty (decimal_from fuel n digits) ≡ false
unfolding decimal_from
nonempty-decimal_from zero n digits h = h
nonempty-decimal_from (suc fuel) n digits h =
    ground (arith, nonempty-decimal_from fuel (n / 10) ((48 + n % 10) ∷ digits))

decimal-number : (n : ℕ) → is_number (decimal n) ≡ true
unfolding decimal decimal_from
decimal-number n = ground (
  arith,
  nonempty-decimal_from n (n / 10) ((48 + n % 10) ∷ []) refl,
  all-decimal_from (suc n) n [] refl,
)

column_number-letters_from :
    (fuel n : ℕ) (letters : Text)
    → n ≤ fuel
    → column_number 0 (map to_upper (letters_from fuel n letters))
      ≡ column_number n (map to_upper letters)
unfolding letters_from column_number
column_number-letters_from zero n letters h =
    ap (λ k. column_number k (map to_upper letters)) (omega (arith, h))
column_number-letters_from (suc fuel) n letters h = elim (Bool-cases (ltb 0 n)) [
  | inl more ↦
      rw (letters_from, more)
        (column_number-letters_from fuel ((n - 1) / 26) ((65 + (n - 1) % 26) ∷ letters)
            (ground (arith, h, more))
          ∙ ap (λ k. column_number k (map to_upper letters)) (ground (arith, more)))
  | inr no_more ↦
      rw (letters_from, no_more)
        (ap (λ k. column_number k (map to_upper letters)) (ground (arith, no_more)))
]

all-letters_from :
    (fuel n : ℕ) (letters : Text)
    → all is_letter letters ≡ true
    → all is_letter (letters_from fuel n letters) ≡ true
unfolding letters_from
all-letters_from zero n letters h = h
all-letters_from (suc fuel) n letters h =
    ground (arith, h, all-letters_from fuel ((n - 1) / 26) ((65 + (n - 1) % 26) ∷ letters))

nonempty-letters_from :
    (fuel n : ℕ) (letters : Text)
    → is_empty letters ≡ false
    → is_empty (letters_from fuel n letters) ≡ false
unfolding letters_from
nonempty-letters_from zero n letters h = h
nonempty-letters_from (suc fuel) n letters h =
    ground (arith, h, nonempty-letters_from fuel ((n - 1) / 26) ((65 + (n - 1) % 26) ∷ letters))

letter-not-space : (c : ℕ) → is_letter c ≡ true → is_space c ≡ false
unfolding is_space
letter-not-space c h = ground arith

digit-not-space : (c : ℕ) → is_digit c ≡ true → is_space c ≡ false
unfolding is_space is_digit
digit-not-space c h = ground arith

-- A text without spaces is its own trimming.
abbrev no_spaces : Text → Bool
no_spaces = all (λ c. not (is_space c))

trim_end-no_spaces : (t : Text) → no_spaces t ≡ true → trim_end t ≡ t
unfolding trim_end
trim_end-no_spaces [] h = refl
trim_end-no_spaces (c ∷ t) h = ground (arith, trim_end-no_spaces t)

trim-no_spaces : (t : Text) → no_spaces t ≡ true → trim t ≡ t
unfolding trim trim_start
trim-no_spaces [] h = unfold trim_end in refl
trim-no_spaces (c ∷ t) h = ground (arith, trim_end-no_spaces (c ∷ t))

no_spaces-number : (t : Text) → all is_digit t ≡ true → no_spaces t ≡ true
no_spaces-number [] h = refl
no_spaces-number (c ∷ t) h = ground (arith, digit-not-space c, no_spaces-number t)

no_spaces-letters :
    (letters digits : Text)
    → all is_letter letters ≡ true
    → all is_digit digits ≡ true
    → no_spaces (letters ++ digits) ≡ true
no_spaces-letters [] digits h k = no_spaces-number digits k
no_spaces-letters (c ∷ letters) digits h k =
    ground (arith, h, k, letter-not-space c, no_spaces-letters letters digits)

take_letters-digits :
    (digits : Text) → all is_digit digits ≡ true → take_letters digits ≡ ([], digits)
unfolding take_letters is_digit
take_letters-digits [] h = refl
take_letters-digits (c ∷ digits) h = ground arith

take_letters-letters :
    (letters digits : Text)
    → all is_letter letters ≡ true
    → all is_digit digits ≡ true
    → take_letters (letters ++ digits) ≡ (letters, digits)
unfolding take_letters
take_letters-letters [] digits h k = take_letters-digits digits k
take_letters-letters (c ∷ letters) digits h k =
    ground (arith, h, k, take_letters-letters letters digits)

column_letters : (col : ℕ) → column_index_to_letter col ≡ letters_from (suc col) (suc col) []
unfolding column_index_to_letter letters_from
column_letters col =
    let one_more : col + 1 ≡ suc col = omega arith in
    ap (λ k. if is_empty (letters_from k k []) then b'A' ∷ [] else letters_from k k []) one_more
    ∙ ground (
      arith,
      nonempty-letters_from col ((suc col - 1) / 26) ((65 + (suc col - 1) % 26) ∷ []) refl,
    )

-- The name that a cell of a sheet has, its column's letters and its row's number, is read back as its
-- row and its column, for every row and column.
pub cell_ref_to_coords-column_index_to_letter :
    (row col : ℕ)
    → cell_ref_to_coords (column_index_to_letter col ++ decimal (row + 1))
      ≡ some (record { row = row; col = col })
unfolding cell_ref_to_coords letters_from
cell_ref_to_coords-column_index_to_letter row col =
    let letters = letters_from (suc col) (suc col) [] in
    let digits = decimal (row + 1) in
    let lettered = all-letters_from (suc col) (suc col) [] refl in
    let numbered = decimal-number (row + 1) in
    rw (column_letters col) (
      ground (
        arith,
        lettered,
        numbered,
        nonempty-letters_from col ((suc col - 1) / 26) ((65 + (suc col - 1) % 26) ∷ []) refl,
        trim-no_spaces (letters ++ digits)
            (no_spaces-letters letters digits lettered (ground (arith, numbered))),
        take_letters-letters letters digits lettered (ground (arith, numbered)),
        parse_int-decimal (row + 1),
        column_number-letters_from (suc col) (suc col) [] (omega arith),
      ))
