-- ===== src/Office/WorkbookBounds.antt =====
-- `parseXlsxBuffer`: what it makes of any workbook stays within its limits.
use vault_drive.Base.{
  ℕ, zero, suc, ◌+◌, ◌≤◌, ◌≡◌, refl, ap, ap₂, ◌∙◌, ◌||◌, Option, none, some, List, [], ◌∷◌, map,
  min, max, leb, filter, ltb, get_or, get_elem?, length, length-map, length-take, All, Outcome, ok,
  >>=-ok, Bool-cases, Option-cases, inl, inr, arith, number_eq, list_eq,
}
use vault_drive.Base.JsText.{Text, units, decimal}
use vault_drive.Base.JsMap.{JsMap, get, All-set, get-All}
use vault_drive.Office.Cells.{column_index_to_letter, parse_int}
use vault_drive.Base.Sorting.{sort}
use vault_drive.Office.Delimited.{indices}
use vault_drive.Office.Dom.{Dom, find_elements_by_local_name, get_attr_ci, or_units}
use vault_drive.Office.Workbook.{
  XlsxCell, XlsxSheet, Archive, Grid, worksheet_paths, is_worksheet_path, shared_strings,
  sheet_names, coords_of, cell_ref, at_least, js_max, add_one, read_cell, read_cells, read_rows,
  row_zero_of, bounded_rows, empty_cell, grid_row, sheet_of, sheets_from, parse_xlsx_buffer,
  sheet_name,
}
use vault_drive.Office.Digits.{parse_int_10, first_digits}

-- Every cell is under its own name.
abbrev IsKeyed : JsMap Text XlsxCell → Type 0
IsKeyed = All (λ e. e.1.ref ≡ e.0)

-- The names of the cells of a grid, by rows.
abbrev pub refs_of : ℕ → ℕ → List (List Text)
refs_of rows cols = map (λ r. map (cell_ref (some r)) (indices 0 cols)) (indices 0 rows)

-- A sheet within the limits, whose rows are as wide as its columns, and whose cells are named by where
-- they stand.
pub record IsSheet (max_rows max_cols : ℕ) (sheet : XlsxSheet) : Type 0 where
  pub few_rows : length sheet.rows ≤ max_rows
  pub few_columns : length sheet.columns ≤ max_cols
  pub rectangular : All (λ row. length row ≡ length sheet.columns) sheet.rows
  pub named :
      map (map (λ (cell : XlsxCell). cell.ref)) sheet.rows
      ≡ refs_of (length sheet.rows) (length sheet.columns)

length-indices : (from n : ℕ) → length (indices from n) ≡ n
unfolding indices
length-indices from zero = refl
length-indices from (suc n) = ap suc (length-indices (suc from) n)

module _ (dom : Dom) (shared : List Text) (max_rows max_cols : ℕ) where
  read_cell-IsKeyed :
      (row_zero : Option ℕ) (c_idx : ℕ) (c_el : dom.Element) (grid : Grid)
      → IsKeyed grid.cell_map
      → IsKeyed (read_cell dom shared max_rows max_cols row_zero c_idx c_el grid).cell_map
  unfolding read_cell
  read_cell-IsKeyed row_zero c_idx c_el grid h =
      let ref_attr =
        or_units (get_attr_ci dom (some c_el) (units "r" ∷ [])) (cell_ref row_zero c_idx) in
      let coords = coords_of ref_attr row_zero c_idx in
      elim (Bool-cases (at_least coords.0 max_rows || leb max_cols coords.1)) [
        | inl skipped ↦ rw (read_cell, skipped) h
        | inr kept ↦ rw (read_cell, kept) (All-set _ _ _ grid.cell_map refl h)
      ]

  read_cells-IsKeyed :
      (row_zero : Option ℕ) (c_idx : ℕ) (cells : List dom.Element) (grid : Grid)
      → IsKeyed grid.cell_map
      → IsKeyed (read_cells dom shared max_rows max_cols row_zero c_idx cells grid).cell_map
  unfolding read_cells
  read_cells-IsKeyed row_zero c_idx [] grid h = h
  read_cells-IsKeyed row_zero c_idx (c_el ∷ cells) grid h =
      read_cells-IsKeyed row_zero (c_idx + 1) cells _ (read_cell-IsKeyed row_zero c_idx c_el grid h)

  read_rows-IsKeyed :
      (r_idx : ℕ) (rows : List dom.Element) (grid : Grid)
      → IsKeyed grid.cell_map
      → IsKeyed (read_rows dom shared max_rows max_cols r_idx rows grid).cell_map
  unfolding read_rows
  read_rows-IsKeyed r_idx [] grid h = h
  read_rows-IsKeyed r_idx (row_el ∷ rows) grid h =
      let attr = or_units (get_attr_ci dom (some row_el) (units "r" ∷ [])) (decimal (r_idx + 1)) in
      let row_zero = row_zero_of (parse_int_10 attr) in
      let seen : Grid = record grid {
        max_row_seen = js_max grid.max_row_seen (add_one row_zero);
      } in
      read_rows-IsKeyed (r_idx + 1) rows _
        (read_cells-IsKeyed row_zero 0 (find_elements_by_local_name dom row_el (units "c")) seen h)

found_or_empty :
    (cell_map : JsMap Text XlsxCell) (ref : Text)
    → IsKeyed cell_map
    → (get_or (get ref cell_map) (empty_cell ref)).ref ≡ ref
found_or_empty cell_map ref h = elim (Option-cases (get ref cell_map)) [
  | inl missing ↦ rw missing refl
  | inr (cell, found) ↦ rw found (get-All _ ref cell cell_map h found)
]

module _ (cell_map : JsMap Text XlsxCell) (keyed : IsKeyed cell_map) (cols : ℕ) where
  refs-row :
      (r : ℕ) (cs : List ℕ)
      → map
          (λ (cell : XlsxCell). cell.ref)
          (map
            (λ c. get_or (get (cell_ref (some r) c) cell_map) (empty_cell (cell_ref (some r) c)))
            cs)
        ≡ map (cell_ref (some r)) cs
  refs-row r [] = refl
  refs-row r (c ∷ cs) =
      ap₂ (λ ref refs. ref ∷ refs) (found_or_empty cell_map (cell_ref (some r) c) keyed)
        (refs-row r cs)

  refs-rows :
      (rs : List ℕ)
      → map (map (λ (cell : XlsxCell). cell.ref)) (map (grid_row cell_map cols) rs)
        ≡ map (λ r. map (cell_ref (some r)) (indices 0 cols)) rs
  unfolding grid_row
  refs-rows [] = refl
  refs-rows (r ∷ rs) = ap₂ (λ row rows. row ∷ rows) (refs-row r (indices 0 cols)) (refs-rows rs)

  rows-cols : (rs : List ℕ) → All (λ row. length row ≡ cols) (map (grid_row cell_map cols) rs)
  unfolding grid_row
  rows-cols [] = tt
  rows-cols (r ∷ rs) = (length-map _ (indices 0 cols) ∙ length-indices 0 cols, rows-cols rs)

sheet_of-IsSheet :
    (name : Text) (max_rows max_cols : ℕ) (grid : Grid)
    → IsKeyed grid.cell_map
    → IsSheet max_rows max_cols (sheet_of name max_rows max_cols grid)
unfolding sheet_of
sheet_of-IsSheet name max_rows max_cols grid h =
    let cols = min (max grid.max_col_seen 1) max_cols in
    let rows = bounded_rows grid.max_row_seen max_rows in
    let wide : length (map column_index_to_letter (indices 0 cols)) ≡ cols =
      length-map column_index_to_letter (indices 0 cols) ∙ length-indices 0 cols in
    let high : length (map (grid_row grid.cell_map cols) (indices 0 rows)) ≡ rows =
      length-map (grid_row grid.cell_map cols) (indices 0 rows) ∙ length-indices 0 rows in
    record {
      few_rows = rw high (bounded grid.max_row_seen);
      few_columns = rw wide (omega arith);
      rectangular = rw wide (rows-cols grid.cell_map h cols (indices 0 rows));
      named = rw (wide, high) (refs-rows grid.cell_map h cols (indices 0 rows));
    }
  where
    bounded : (n : Option ℕ) → bounded_rows n max_rows ≤ max_rows
    bounded none = omega arith
    bounded (some n) = omega arith

sheets_from-IsSheet :
    (dom : Dom) (zip : Archive) (shared names : List Text) (max_rows max_cols idx : ℕ)
    (paths : List Text) (sheets : List XlsxSheet)
    → sheets_from dom zip shared names max_rows max_cols idx paths ≡ ok sheets
    → All (IsSheet max_rows max_cols) sheets × (length sheets ≤ length paths)
unfolding sheets_from
sheets_from-IsSheet dom zip shared names max_rows max_cols idx [] sheets h =
    let e : [] ≡ sheets = cc h in rw (← e) (tt, omega arith)
sheets_from-IsSheet dom zip shared names max_rows max_cols idx (path ∷ paths) sheets h =
    let later = sheets_from-IsSheet dom zip shared names max_rows max_cols (idx + 1) paths in
    elim (Option-cases (zip.file path)) [
      | inl missing ↦
          let (fit, few) = later sheets (rw (sheets_from, missing) at h) in
          (fit, omega (arith, few))
      | inr (file, found) ↦
          let (xml, hx, h1) = >>=-ok file _ (rw (sheets_from, found) at h) in
          let (rest, hr, h2) =
            >>=-ok (sheets_from dom zip shared names max_rows max_cols (idx + 1) paths) _ h1 in
          let (fit, few) = later rest hr in
          let row_nodes =
            find_elements_by_local_name dom (dom.parse_from_string xml) (units "row") in
          let start : Grid = record { max_row_seen = some 0; max_col_seen = 0; cell_map = [] } in
          let grid = read_rows dom shared max_rows max_cols 0 row_nodes start in
          let name = or_units (get_or (get_elem? names idx) []) (sheet_name (idx + 1)) in
          let e : sheet_of name max_rows max_cols grid ∷ rest ≡ sheets = cc h2 in
          let keyed = read_rows-IsKeyed dom shared max_rows max_cols 0 row_nodes start tt in
          rw (← e) ((sheet_of-IsSheet name max_rows max_cols grid keyed, fit), omega (arith, few))
    ]

few_worksheets : (zip : Archive) → length (worksheet_paths zip) ≤ 12
unfolding worksheet_paths
few_worksheets zip =
    let found =
      sort (λ a b. ltb (parse_int 0 (first_digits a)) (parse_int 0 (first_digits b)))
        (filter is_worksheet_path zip.files) in
    rw (length-take 12 found) (omega arith)

-- Whatever the workbook, it gives at most twelve sheets, each within the limits of rows and columns,
-- with rows as wide as its columns, and cells named by where they stand.
pub parse_xlsx_buffer-IsSheet :
    (dom : Dom) (loaded : Outcome Archive) (max_rows max_cols : ℕ) (sheets : List XlsxSheet)
    → parse_xlsx_buffer dom loaded max_rows max_cols ≡ ok sheets
    → All (IsSheet max_rows max_cols) sheets × (length sheets ≤ 12)
unfolding parse_xlsx_buffer
parse_xlsx_buffer-IsSheet dom loaded max_rows max_cols sheets h =
    let (zip, hz, h1) = >>=-ok loaded _ h in
    let (shared, hs, h2) = >>=-ok (shared_strings dom zip) _ h1 in
    let (names, hn, h3) = >>=-ok (sheet_names dom zip) _ h2 in
    let (all_fit, few) =
      sheets_from-IsSheet dom zip shared names max_rows max_cols 0 (worksheet_paths zip) sheets
        h3 in
    (all_fit, omega (arith, few, few_worksheets zip))
