-- ===== src/Office/Tests.antt =====
-- Runs on small texts, and the instances of the theorems.
use vault_drive.Base.{
  ℕ, ◌+◌, Bool, true, false, Option, none, some, List, [], ◌∷◌, ◌++◌, ◌≡◌, refl, map, length,
  get_elem?, arith, min, max, All, ◌==◌, number_eq,
}
use vault_drive.Base.JsText.{Text, units, decimal}
use vault_drive.Office.Cells.{column_index_to_letter, cell_ref_to_coords}
use vault_drive.Office.Delimited.{
  OfficeCell, OfficeSheet, Reader, plain, end_cell, read_text, raw_rows_of, parse_delimited_text,
}
use vault_drive.Office.References.{cell_ref_to_coords-column_index_to_letter}
use vault_drive.Office.Sheet.{
  doubled_quotes, with_text_read, parse_delimited_text-cells, read_text-quoted_cell,
}

columns :
    map column_index_to_letter (0 ∷ 25 ∷ 26 ∷ 701 ∷ 702 ∷ [])
    ≡ map units ("A" ∷ "Z" ∷ "AA" ∷ "ZZ" ∷ "AAA" ∷ [])
unfolding column_index_to_letter
columns = refl

lower_case : cell_ref_to_coords (units " ab12 ") ≡ some (record { row = 11; col = 27 })
unfolding cell_ref_to_coords vault_drive.Base.JsText.trim
lower_case = refl

-- A name, a line break, and a quoted cell with a delimiter.
abbrev two_lines : Text
two_lines = units "a,b" ++ 13 ∷ 10 ∷ 34 ∷ (units "x,y" ++ 34 ∷ [])

rows_read : raw_rows_of b',' two_lines ≡ (units "a" ∷ units "b" ∷ []) ∷ (units "x,y" ∷ []) ∷ []
unfolding raw_rows_of vault_drive.Base.JsText.trim
rows_read = refl

cell_ref_to_coords-column_index_to_letter_example :
    cell_ref_to_coords (column_index_to_letter 27 ++ decimal (199 + 1))
    ≡ some (record { row = 199; col = 27 })
cell_ref_to_coords-column_index_to_letter_example = cell_ref_to_coords-column_index_to_letter 199 27

-- The second line is wider than the first.
abbrev widening : Text
widening = units "a" ++ 10 ∷ units "b,c"

second_line : get_elem? (raw_rows_of b',' widening) 1 ≡ some (units "b" ∷ units "c" ∷ [])
unfolding raw_rows_of vault_drive.Base.JsText.trim
second_line = refl

abbrev wide_sheet : OfficeSheet
wide_sheet = parse_delimited_text widening b',' (units "Hoja 1") 200 32

parse_delimited_text-cells_example :
    (cells : List OfficeCell) × (get_elem? wide_sheet.rows 1 ≡ some cells)
    × (get_elem? cells 1
        ≡ some (record { ref = column_index_to_letter 1 ++ decimal (1 + 1); value = units "c" }))
    × (length cells ≡ length wide_sheet.columns)
    × (length wide_sheet.rows ≡ min 200 (length (raw_rows_of b',' widening)))
parse_delimited_text-cells_example =
    parse_delimited_text-cells widening b',' (units "Hoja 1") 200 32 1 1
      (units "b" ∷ units "c" ∷ []) (units "c") second_line refl (omega arith) (omega arith)

abbrev at_start : Reader
at_start = record { raw_rows = []; current_row = []; current_cell = [] }

read_text-quoted_cell_example :
    read_text b',' (34 ∷ (doubled_quotes two_lines ++ 34 ∷ b',' ∷ units "z")) plain at_start
    ≡ read_text b',' (units "z") plain (end_cell (with_text_read two_lines at_start))
read_text-quoted_cell_example = read_text-quoted_cell b',' two_lines (units "z") at_start refl
