-- ===== src/Office/Sheet.antt =====
-- What `parseDelimitedText` makes: a rectangle within the limits, and quoted cells as they were.
use vault_drive.Base.{
  ℕ, zero, suc, ◌+◌, ◌<◌, ◌≤◌, some, get_elem?, get_elem?-map, arith, ap₂, false, List, [], ◌∷◌,
  ◌++◌, if◌then◌else◌, min, max, length, length-map, length-take, take, ◌==◌, number_eq, ◌≡◌, refl,
  sym, ap, ◌∙◌, append-nil, append_assoc, All, inl, inr, Bool-cases, ==→eq, ==_refl, subst,
}
use vault_drive.Base.JsText.{Text, decimal}
use vault_drive.Office.Cells.{column_index_to_letter}
use vault_drive.Office.Delimited.{
  Reader, OfficeCell, plain, quoted, end_cell, read_char, read_plain, read_text, indices, cells_of,
  rows_of, widest, raw_rows_of, parse_delimited_text,
}

length-indices : (from left : ℕ) → length (indices from left) ≡ left
unfolding indices
length-indices from zero = refl
length-indices from (suc left) = ap suc (length-indices (suc from) left)

length-rows_of :
    (cols from : ℕ) (rows : List (List Text)) → length (rows_of cols from rows) ≡ length rows
unfolding rows_of
length-rows_of cols from [] = refl
length-rows_of cols from (row ∷ rows) = ap suc (length-rows_of cols (suc from) rows)

rows_of-cols :
    (cols from : ℕ) (rows : List (List Text))
    → All (λ row. length row ≡ cols) (rows_of cols from rows)
unfolding rows_of cells_of
rows_of-cols cols from [] = tt
rows_of-cols cols from (row ∷ rows) =
    (length-map _ (indices 0 cols) ∙ length-indices 0 cols, rows_of-cols cols (suc from) rows)

pub parse_delimited_text-rows :
    (text : Text) (delimiter : ℕ) (sheet_name : Text) (max_rows max_cols : ℕ)
    → All
        (λ row.
          length row
          ≡ length (parse_delimited_text text delimiter sheet_name max_rows max_cols).columns)
        (parse_delimited_text text delimiter sheet_name max_rows max_cols).rows
      × (length (parse_delimited_text text delimiter sheet_name max_rows max_cols).rows
          ≡ min max_rows
              (parse_delimited_text text delimiter sheet_name max_rows max_cols).total_rows)
      × (length (parse_delimited_text text delimiter sheet_name max_rows max_cols).columns
          ≡ min
              (max (parse_delimited_text text delimiter sheet_name max_rows max_cols).total_cols 1)
              max_cols)
unfolding parse_delimited_text
parse_delimited_text-rows text delimiter sheet_name max_rows max_cols =
    let raw_rows = raw_rows_of delimiter text in
    let cols = min (max (widest 0 raw_rows) 1) max_cols in
    let columns =
      length-map vault_drive.Office.Cells.column_index_to_letter (indices 0 cols)
      ∙ length-indices 0 cols in
    (
      rw columns (rows_of-cols cols 0 (take max_rows raw_rows)),
      length-rows_of cols 0 (take max_rows raw_rows) ∙ length-take max_rows raw_rows,
      columns,
    )

get_elem?-indices : (from left i : ℕ) → i < left → get_elem? (indices from left) i ≡ some (from + i)
unfolding indices
get_elem?-indices from zero i h = absurd (omega (arith, h))
get_elem?-indices from (suc left) zero h = ap some (omega arith)
get_elem?-indices from (suc left) (suc i) h =
    get_elem?-indices (suc from) left i (omega (arith, h)) ∙ ap some (omega arith)

get_elem?-rows_of :
    (cols from : ℕ) (rows : List (List Text)) (r : ℕ) (row : List Text)
    → get_elem? rows r ≡ some row
    → get_elem? (rows_of cols from rows) r ≡ some (cells_of cols (from + r) row)
unfolding rows_of
get_elem?-rows_of cols from [] r row h = cc h
get_elem?-rows_of cols from (x ∷ rows) zero row h =
    let e : x ≡ row = cc h in ap some (ap₂ (cells_of cols) (omega arith) e)
get_elem?-rows_of cols from (x ∷ rows) (suc r) row h =
    get_elem?-rows_of cols (suc from) rows r row h
    ∙ ap (λ n. some (cells_of cols n row)) (omega arith)

widest-most : (most : ℕ) (rows : List (List Text)) → most ≤ widest most rows
unfolding widest
widest-most most [] = omega arith
widest-most most (row ∷ rows) = omega (arith, widest-most (max most (length row)) rows)

widest-length :
    (most : ℕ) (rows : List (List Text)) (r : ℕ) (row : List Text)
    → get_elem? rows r ≡ some row
    → length row ≤ widest most rows
unfolding widest
widest-length most [] r row h = cc h
widest-length most (x ∷ rows) zero row h =
    let e : x ≡ row = cc h in rw (← e) (omega (arith, widest-most (max most (length x)) rows))
widest-length most (x ∷ rows) (suc r) row h = widest-length (max most (length x)) rows r row h

get_elem?-take {ℓ} :
    {A : Type ℓ} (n : ℕ) (xs : List A) (i : ℕ) → i < n → get_elem? (take n xs) i ≡ get_elem? xs i
get_elem?-take zero xs i h = absurd (omega (arith, h))
get_elem?-take (suc n) [] i h = refl
get_elem?-take (suc n) (x ∷ xs) zero h = refl
get_elem?-take (suc n) (x ∷ xs) (suc i) h = get_elem?-take n xs i (omega (arith, h))

get_elem?-length {ℓ} :
    {A : Type ℓ} (xs : List A) (i : ℕ) (x : A) → get_elem? xs i ≡ some x → i < length xs
get_elem?-length [] i x h = cc h
get_elem?-length (y ∷ xs) zero x h = omega arith
get_elem?-length (y ∷ xs) (suc i) x h = omega (arith, get_elem?-length xs i x h)

-- What was read at a row and a column within the limits is the value of the cell at that place, under
-- the name of the place, in a row as wide as the sheet's columns; and the sheet has as many rows as were
-- read, up to the limit.
pub parse_delimited_text-cells :
    (text : Text) (delimiter : ℕ) (sheet_name : Text) (max_rows max_cols r c : ℕ) (row : List Text)
    (value : Text)
    → get_elem? (raw_rows_of delimiter text) r ≡ some row
    → get_elem? row c ≡ some value
    → r < max_rows
    → c < max_cols
    → (cells : List OfficeCell) × (get_elem?
          (parse_delimited_text text delimiter sheet_name max_rows max_cols).rows
          r
        ≡ some cells)
      × (get_elem? cells c
          ≡ some (record { ref = column_index_to_letter c ++ decimal (r + 1); value = value }))
      × (length cells
          ≡ length (parse_delimited_text text delimiter sheet_name max_rows max_cols).columns)
      × (length (parse_delimited_text text delimiter sheet_name max_rows max_cols).rows
          ≡ min max_rows (length (raw_rows_of delimiter text)))
unfolding parse_delimited_text cells_of
parse_delimited_text-cells text delimiter sheet_name max_rows max_cols r c row value hr hc below
      left =
    let raw_rows = raw_rows_of delimiter text in
    let cols = min (max (widest 0 raw_rows) 1) max_cols in
    let within : c < cols =
      omega (arith, left, widest-length 0 raw_rows r row hr, get_elem?-length row c value hc) in
    let (wide, high, columns) =
      parse_delimited_text-rows text delimiter sheet_name max_rows max_cols in
    (
      cells_of cols r row,
      get_elem?-rows_of cols 0 (take max_rows raw_rows) r row
            (get_elem?-take max_rows raw_rows r below ∙ hr)
          ∙ ap (λ n. some (cells_of cols n row)) (omega arith),
      get_elem?-map _ (indices 0 cols) c c
            (get_elem?-indices 0 cols c within ∙ ap some (omega arith))
          ∙ rw hc refl,
      length-map _ (indices 0 cols) ∙ length-indices 0 cols ∙ sym columns_are,
      high,
    )
  where
    columns_are :
        length (parse_delimited_text text delimiter sheet_name max_rows max_cols).columns
        ≡ min (max (widest 0 (raw_rows_of delimiter text)) 1) max_cols
    columns_are = (parse_delimited_text-rows text delimiter sheet_name max_rows max_cols).2

-- A cell's text with each quote doubled.
abbrev pub doubled_quotes : Text → Text
doubled_quotes [] = []
doubled_quotes (c ∷ s) = if c == b'"' then c ∷ c ∷ doubled_quotes s else c ∷ doubled_quotes s

abbrev pub with_text_read : Text → Reader → Reader
with_text_read s r = record r { current_cell = r.current_cell ++ s }

read_text-doubled_quotes :
    (delimiter : ℕ) (cell rest : Text) (r : Reader)
    → read_text delimiter (doubled_quotes cell ++ rest) quoted r
      ≡ read_text delimiter rest quoted (with_text_read cell r)
unfolding read_text read_char
read_text-doubled_quotes delimiter [] rest r =
    ap (λ t. read_text delimiter rest quoted (record r { current_cell = t }))
      (sym (append-nil r.current_cell))
read_text-doubled_quotes delimiter (c ∷ cell) rest r = elim (Bool-cases (c == b'"')) [
  | inl quote ↦
      subst
        (λ q.
          read_text delimiter (doubled_quotes (q ∷ cell) ++ rest) quoted r
          ≡ read_text delimiter rest quoted (with_text_read (q ∷ cell) r))
        (sym (==→eq c b'"' quote))
        (read_text-doubled_quotes delimiter cell rest (with_text_read (b'"' ∷ []) r)
          ∙ ap (λ t. read_text delimiter rest quoted (record r { current_cell = t }))
              (append_assoc r.current_cell (b'"' ∷ []) cell))
  | inr other ↦
      rw (other, read_text, read_char, other)
        (read_text-doubled_quotes delimiter cell rest (with_text_read (c ∷ []) r)
          ∙ ap (λ t. read_text delimiter rest quoted (record r { current_cell = t }))
              (append_assoc r.current_cell (c ∷ []) cell))
]

-- A cell in quotes, its own quotes doubled, is read as it was, with the delimiters, quotes and line
-- breaks in it, and is trimmed; what follows the delimiter, which is no quote, is read as a new cell.
pub read_text-quoted_cell :
    (delimiter : ℕ) (cell rest : Text) (r : Reader)
    → (delimiter == b'"') ≡ false
    → read_text delimiter (b'"' ∷ (doubled_quotes cell ++ b'"' ∷ delimiter ∷ rest)) plain r
      ≡ read_text delimiter rest plain (end_cell (with_text_read cell r))
unfolding read_text read_char read_plain
read_text-quoted_cell delimiter cell rest r other =
    read_text-doubled_quotes delimiter cell (b'"' ∷ delimiter ∷ rest) r
    ∙ rw (other, ==_refl delimiter) refl
