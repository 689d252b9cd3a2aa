-- ===== src/Office/Workbook.antt =====
-- `parseXlsxBuffer`. JSZip and DOMParser are parameters. `none` is the number NaN, which a row whose
-- number is no number gives.
use vault_drive.Base.{
  ℕ, ◌+◌, ◌-◌, Bool, true, false, not, ◌&&◌, ◌||◌, Option, none, some, List, [], ◌∷◌, ◌++◌, map,
  filter, min, max, ltb, leb, if◌then◌else◌, get_or, get_elem?, take, drop, is_empty, is_some, ◌==◌,
  number_eq, list_eq, Outcome, ok, ◌>>=◌,
}
use vault_drive.Base.JsText.{Text, units, trim, decimal, starts_with}
use vault_drive.Base.JsMap.{JsMap, get, set}
use vault_drive.Base.Sorting.{sort}
use vault_drive.Transfer.Failure.{ascii_lower}
use vault_drive.Office.Cells.{column_index_to_letter, parse_int, cell_ref_to_coords}
use vault_drive.Office.Delimited.{indices}
use vault_drive.Office.Dom.{Dom, get_attr_ci, find_elements_by_local_name, first_element, or_units}
use vault_drive.Office.Digits.{
  ParsedInt, not_a_number, negative, number, take_digits, parse_int_10, first_digits,
}

-- A cell and a sheet as `parseXlsxBuffer` makes them.
pub record XlsxCell : Type 0 where
  pub ref : Text
  pub value : Text
  pub formula : Option Text
  pub cache_missing : Option Bool

pub record XlsxSheet : Type 0 where
  pub name : Text
  pub columns : List Text
  pub rows : List (List XlsxCell)
  pub total_rows : Option ℕ
  pub total_cols : ℕ
  pub truncated : Bool

-- What JSZip makes of a buffer: the names of its files, and a file's text, which may fail.
pub record Archive : Type 0 where
  pub files : List Text
  pub file : Text → Option (Outcome Text)

-- `/^xl\/worksheets\/sheet\d+\.xml$/i`
unfoldable pub is_worksheet_path : Text → Bool
unfolding starts_with take_digits
is_worksheet_path path =
    let lowered = map ascii_lower path in
    let (digits, rest) = take_digits (drop 19 lowered) in
    starts_with lowered (units "xl/worksheets/sheet")
    && not (is_empty digits)
    && rest == units ".xml"

unfoldable pub worksheet_paths : Archive → List Text
unfolding is_worksheet_path first_digits parse_int sort
worksheet_paths zip = take 12 (
    sort (λ a b. ltb (parse_int 0 (first_digits a)) (parse_int 0 (first_digits b)))
      (filter is_worksheet_path zip.files))

abbrev pub sheet_name : ℕ → Text
sheet_name n = units "Hoja " ++ decimal n

-- `Math.max` where one of the numbers may be NaN.
abbrev pub js_max : Option ℕ → Option ℕ → Option ℕ
js_max (some a) (some b) = some (max a b)
js_max _ _ = none

abbrev pub add_one : Option ℕ → Option ℕ
add_one none = none
add_one (some n) = some (n + 1)

abbrev pub number_text : Option ℕ → Text
number_text none = units "NaN"
number_text (some n) = decimal n

-- `n >= limit`, which is false of NaN.
abbrev pub at_least : Option ℕ → ℕ → Bool
at_least none limit = false
at_least (some n) limit = leb limit n

-- `Math.max(0, rowNumAttr - 1)`
abbrev pub row_zero_of : ParsedInt → Option ℕ
row_zero_of not_a_number = none
row_zero_of (negative n) = some 0
row_zero_of (number n) = some (n - 1)

pub record Grid : Type 0 where
  pub max_row_seen : Option ℕ
  pub max_col_seen : ℕ
  pub cell_map : JsMap Text XlsxCell

-- `coords`, whose row may be that of the row's element.
abbrev pub coords_of : Text → Option ℕ → ℕ → Option ℕ × ℕ
coords_of ref row_zero c_idx = elim (cell_ref_to_coords ref) [
  | none ↦ (row_zero, c_idx)
  | some coords ↦ (some coords.row, coords.col)
]

abbrev pub cell_ref : Option ℕ → ℕ → Text
cell_ref row col = column_index_to_letter col ++ number_text (add_one row)

module _ (dom : Dom) where
  abbrev pub texts_of : List dom.Element → Text
  texts_of [] = []
  texts_of (t ∷ nodes) = dom.text_content t ++ texts_of nodes

  unfoldable pub shared_strings : Archive → Outcome (List Text)
  unfolding find_elements_by_local_name
  shared_strings zip = elim (zip.file (units "xl/sharedStrings.xml")) [
    | none ↦ ok []
    | some file ↦ file >>= λ xml. ok (
        map (λ si. texts_of (find_elements_by_local_name dom si (units "t")))
          (find_elements_by_local_name dom (dom.parse_from_string xml) (units "si")))
  ]

  unfoldable pub names_from : ℕ → List dom.Element → List Text
  unfolding get_attr_ci decimal
  names_from n [] = []
  names_from n (node ∷ nodes) =
      or_units (get_attr_ci dom (some node) (units "name" ∷ [])) (sheet_name (n + 1))
      ∷ names_from (n + 1) nodes

  unfoldable pub sheet_names : Archive → Outcome (List Text)
  unfolding find_elements_by_local_name names_from
  sheet_names zip = elim (zip.file (units "xl/workbook.xml")) [
    | none ↦ ok []
    | some file ↦ file >>= λ xml.
        ok (
          names_from 0
            (find_elements_by_local_name dom (dom.parse_from_string xml) (units "sheet")))
  ]

  abbrev pub trimmed_content : Option dom.Element → Text
  trimmed_content none = []
  trimmed_content (some el) = trim (dom.text_content el)

  -- `sharedStrings[ssIndex]`, else the raw value.
  abbrev pub shared_value : List Text → Text → Text
  shared_value shared raw_v = elim (parse_int_10 raw_v) [
    | not_a_number ↦ raw_v
    | negative n ↦ raw_v
    | number n ↦ get_or (get_elem? shared n) raw_v
  ]

  abbrev pub inline_text : Option dom.Element → Text
  inline_text none = []
  inline_text (some el) = texts_of (find_elements_by_local_name dom el (units "t"))

  -- The value that is shown, and `cacheMissing`.
  unfoldable pub display_value : List Text → dom.Element → Text × Bool
  unfolding get_attr_ci find_elements_by_local_name parse_int_10 trim
  display_value shared c_el =
      let cell_type = get_attr_ci dom (some c_el) (units "t" ∷ []) in
      let raw_v = trimmed_content (first_element dom c_el (units "v")) in
      let formula = trimmed_content (first_element dom c_el (units "f")) in
      let is_node = first_element dom c_el (units "is") in
      if cell_type == units "s"
      then (shared_value shared raw_v, false)
      else if cell_type == units "inlineStr" && is_some is_node
      then (inline_text is_node, false)
      else if cell_type == units "b"
      then (if raw_v == units "1" then units "TRUE" else units "FALSE", false)
      else if not (is_empty formula) && is_empty raw_v
      then (units "NOT_EVALUABLE (sin caché de fórmula)", true)
      else (raw_v, false)

  -- One round of the loop over the cells of a row.
  unfoldable pub read_cell : List Text → ℕ → ℕ → Option ℕ → ℕ → dom.Element → Grid → Grid
  unfolding display_value column_index_to_letter cell_ref_to_coords decimal
  read_cell shared max_rows max_cols row_zero c_idx c_el grid =
      let ref_attr =
        or_units (get_attr_ci dom (some c_el) (units "r" ∷ [])) (cell_ref row_zero c_idx) in
      let coords = coords_of ref_attr row_zero c_idx in
      let seen : Grid = record grid {
        max_row_seen = js_max grid.max_row_seen (add_one coords.0);
        max_col_seen = max grid.max_col_seen (coords.1 + 1);
      } in
      let formula = trimmed_content (first_element dom c_el (units "f")) in
      let shown = display_value shared c_el in
      let norm_ref = cell_ref coords.0 coords.1 in
      let cell : XlsxCell = record {
        ref = norm_ref;
        value = shown.0;
        formula = if is_empty formula then none else some formula;
        cache_missing = some shown.1;
      } in
      if at_least coords.0 max_rows || leb max_cols coords.1
      then seen
      else record seen { cell_map = set norm_ref cell seen.cell_map }

  unfoldable pub read_cells : List Text → ℕ → ℕ → Option ℕ → ℕ → List dom.Element → Grid → Grid
  unfolding read_cell
  read_cells shared max_rows max_cols row_zero c_idx [] grid = grid
  read_cells shared max_rows max_cols row_zero c_idx (c_el ∷ cells) grid =
      read_cells shared max_rows max_cols row_zero (c_idx + 1) cells
        (read_cell shared max_rows max_cols row_zero c_idx c_el grid)

  -- The loop over the rows.
  unfoldable pub read_rows : List Text → ℕ → ℕ → ℕ → List dom.Element → Grid → Grid
  unfolding read_cells get_attr_ci parse_int_10
  read_rows shared max_rows max_cols r_idx [] grid = grid
  read_rows shared max_rows max_cols r_idx (row_el ∷ rows) grid =
      let attr = or_units (get_attr_ci dom (some row_el) (units "r" ∷ [])) (decimal (r_idx + 1)) in
      let row_zero = row_zero_of (parse_int_10 attr) in
      let seen : Grid = record grid {
        max_row_seen = js_max grid.max_row_seen (add_one row_zero);
      } in
      read_rows shared max_rows max_cols (r_idx + 1) rows (
        read_cells shared max_rows max_cols row_zero 0
          (find_elements_by_local_name dom row_el (units "c")) seen)

-- `Math.min(maxRowSeen, maxRows)`, of which NaN makes no rows.
abbrev pub bounded_rows : Option ℕ → ℕ → ℕ
bounded_rows none max_rows = 0
bounded_rows (some n) max_rows = min n max_rows

abbrev pub empty_cell : Text → XlsxCell
empty_cell ref = record { ref = ref; value = []; formula = none; cache_missing = none }

unfoldable pub grid_row : JsMap Text XlsxCell → ℕ → ℕ → List XlsxCell
unfolding indices
grid_row cell_map cols r =
    map (λ c. get_or (get (cell_ref (some r) c) cell_map) (empty_cell (cell_ref (some r) c)))
      (indices 0 cols)

unfoldable pub sheet_of : Text → ℕ → ℕ → Grid → XlsxSheet
unfolding grid_row indices
sheet_of name max_rows max_cols grid =
    let rows = bounded_rows grid.max_row_seen max_rows in
    let cols = min (max grid.max_col_seen 1) max_cols in
    record {
      name = name;
      columns = map column_index_to_letter (indices 0 cols);
      rows = map (grid_row grid.cell_map cols) (indices 0 rows);
      total_rows = grid.max_row_seen;
      total_cols = grid.max_col_seen;
      truncated = at_least grid.max_row_seen (max_rows + 1) || ltb max_cols grid.max_col_seen;
    }

module _ (dom : Dom) where
  -- The loop over the worksheets, from the position `idx` on.
  unfoldable pub sheets_from :
      Archive → List Text → List Text → ℕ → ℕ → ℕ → List Text → Outcome (List XlsxSheet)
  unfolding read_rows sheet_of find_elements_by_local_name
  sheets_from zip shared names max_rows max_cols idx [] = ok []
  sheets_from zip shared names max_rows max_cols idx (path ∷ paths) =
      let later = sheets_from zip shared names max_rows max_cols (idx + 1) paths in
      elim (zip.file path) [
        | none ↦ later
        | some file ↦ file >>= λ xml.
            let row_nodes =
              find_elements_by_local_name dom (dom.parse_from_string xml) (units "row") in
            let grid =
              read_rows dom shared max_rows max_cols 0 row_nodes
                (record { max_row_seen = some 0; max_col_seen = 0; cell_map = [] }) in
            let name = or_units (get_or (get_elem? names idx) []) (sheet_name (idx + 1)) in
            later >>= λ sheets. ok (sheet_of name max_rows max_cols grid ∷ sheets)
      ]

  -- `parseXlsxBuffer` of what JSZip made of the buffer.
  unfoldable pub parse_xlsx_buffer : Outcome Archive → ℕ → ℕ → Outcome (List XlsxSheet)
  unfolding shared_strings sheet_names worksheet_paths sheets_from
  parse_xlsx_buffer loaded max_rows max_cols = loaded >>= λ zip.
      shared_strings dom zip >>= λ shared. sheet_names dom zip >>= λ names.
      sheets_from zip shared names max_rows max_cols 0 (worksheet_paths zip)
