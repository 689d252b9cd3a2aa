-- ===== src/Office/WorkbookTests.antt =====
-- Runs of the reader of workbooks on a small one.
use vault_drive.Base.{
  ℕ, zero, suc, ◌≤◌, ◌≡◌, refl, Bool, true, false, Option, none, some, List, [], ◌∷◌, All, length,
  Outcome, ok, throw, if◌then◌else◌, ◌==◌, number_eq, list_eq,
}
use vault_drive.Base.JsText.{Text, units}
use vault_drive.Transfer.Failure.{ascii_lower}
use vault_drive.Base.{map}
use vault_drive.Office.Dom.{Attr, Dom}
use vault_drive.Office.Workbook.{
  XlsxCell, XlsxSheet, Archive, parse_xlsx_buffer, shared_strings, sheet_names, sheets_from,
  worksheet_paths,
}
use vault_drive.Office.WorkbookBounds.{IsSheet, parse_xlsx_buffer-IsSheet}

-- A document of one row, 1, with the cell 2, whose value is 3.
small_descendants : ℕ → List ℕ
small_descendants zero = 1 ∷ 2 ∷ 3 ∷ []
small_descendants (suc zero) = 2 ∷ 3 ∷ []
small_descendants (suc (suc zero)) = 3 ∷ []
small_descendants (suc (suc (suc n))) = []

small_attributes : ℕ → List Attr
small_attributes n =
    if n == 1
    then record { name = units "r"; local_name = units "r"; value = units "2" } ∷ []
    else if n == 2
    then record { name = units "r"; local_name = units "r"; value = units "B2" } ∷ []
    else []

small_name : ℕ → Text
small_name zero = units "sheetData"
small_name (suc zero) = units "row"
small_name (suc (suc zero)) = units "c"
small_name (suc (suc (suc n))) = units "v"

abbrev small_dom : Dom
small_dom = record {
  Element = ℕ;
  parse_from_string = λ text. 0;
  has_parse_error = λ el. false;
  document_element = λ el. some 0;
  descendants = small_descendants;
  attributes = small_attributes;
  local_name = small_name;
  tag_name = small_name;
  text_content = λ el. units "5";
  is_parent_of = λ a b. false;
  lower = map ascii_lower;
}

abbrev small_zip : Archive
small_zip = record {
  files = units "xl/worksheets/sheet1.xml" ∷ units "xl/styles.xml" ∷ [];
  file = λ path.
      if path == units "xl/worksheets/sheet1.xml" then some (ok (units "<sheetData/>")) else none;
}

abbrev small_empty : Text → XlsxCell
small_empty ref = record { ref = ref; value = []; formula = none; cache_missing = none }

abbrev small_sheet : XlsxSheet
small_sheet = record {
  name = units "Hoja 1";
  columns = units "A" ∷ units "B" ∷ [];
  rows =
      (small_empty (units "A1") ∷ small_empty (units "B1") ∷ [])
      ∷ (small_empty (units "A2")
          ∷ record {
            ref = units "B2";
            value = units "5";
            formula = none;
            cache_missing = some false;
          }
          ∷ [])
      ∷ [];
  total_rows = some 2;
  total_cols = 2;
  truncated = false;
}

small_read : parse_xlsx_buffer small_dom (ok small_zip) 3 3 ≡ ok (small_sheet ∷ [])
unfolding parse_xlsx_buffer shared_strings sheet_names sheets_from worksheet_paths small_descendants
    small_attributes small_name vault_drive.Base.JsMap.get vault_drive.Base.JsMap.set
small_read = refl

parse_xlsx_buffer-IsSheet_example :
    All (IsSheet 3 3) (small_sheet ∷ []) × (length (small_sheet ∷ []) ≤ 12)
parse_xlsx_buffer-IsSheet_example =
    parse_xlsx_buffer-IsSheet small_dom (ok small_zip) 3 3 (small_sheet ∷ []) small_read

-- A workbook that does not load gives no sheets.
unloaded : parse_xlsx_buffer small_dom (throw "Corrupted zip") 3 3 ≡ throw "Corrupted zip"
unfolding parse_xlsx_buffer
unloaded = refl
