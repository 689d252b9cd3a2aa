-- ===== src/Office/Delimited.antt =====
-- `parseDelimitedText`: the states of its loop over the characters, and the sheet that it makes.
use vault_drive.Base.{
  ℕ, zero, suc, ◌+◌, Bool, true, false, not, ◌&&◌, ◌||◌, List, [], ◌∷◌, ◌++◌, map, any, min, max,
  ltb, if◌then◌else◌, get_or, length, get_elem?, take, is_empty, ◌==◌, number_eq,
}
use vault_drive.Base.JsText.{Text, trim, decimal}
use vault_drive.Office.Cells.{column_index_to_letter}

pub record OfficeCell : Type 0 where
  pub ref : Text
  pub value : Text

pub record OfficeSheet : Type 0 where
  pub name : Text
  pub columns : List Text
  pub rows : List (List OfficeCell)
  pub total_rows : ℕ
  pub total_cols : ℕ
  pub truncated : Bool

-- `.replace(/^\uFEFF/, "")`
abbrev pub strip_bom : Text → Text
strip_bom [] = []
strip_bom (c ∷ s) = if c == 0xFEFF then s else c ∷ s

-- `.replace(/\r\n/g, "\n").replace(/\r/g, "\n")`; the flag says that a `\r` was just turned.
unfoldable pub line_breaks : Bool → Text → Text
line_breaks after_return [] = []
line_breaks after_return (c ∷ s) =
    let turned = line_breaks true s in
    let plain = line_breaks false s in
    if c == 13 then 10 ∷ turned else if after_return && c == 10 then plain else c ∷ plain

pub record Reader : Type 0 where
  pub raw_rows : List (List Text)
  pub current_row : List Text
  pub current_cell : Text

abbrev pub put_char : ℕ → Reader → Reader
put_char c r = record r { current_cell = r.current_cell ++ c ∷ [] }

abbrev pub end_cell : Reader → Reader
end_cell r = record r { current_row = r.current_row ++ trim r.current_cell ∷ []; current_cell = [] }

-- `currentRow.some((c) => c !== "")`
abbrev pub has_text : List Text → Bool
has_text = any (λ c. not (is_empty c))

-- A line's end: an empty first line is dropped.
unfoldable pub end_row : Reader → Reader
end_row r =
    let row = r.current_row ++ trim r.current_cell ∷ [] in
    record {
      raw_rows =
          if has_text row || not (is_empty r.raw_rows) then r.raw_rows ++ row ∷ [] else r.raw_rows;
      current_row = [];
      current_cell = [];
    }

-- Where the loop is: outside quotes, inside, or inside just after a quote, which either ends them or
-- stands for a quote if another follows.
pub data Mode : Type 0 where
  plain quoted after_quote : Mode

unfoldable pub read_plain : ℕ → ℕ → Reader → Mode × Reader
unfolding end_row
read_plain delimiter c r =
    if c == b'"'
    then (quoted, r)
    else if c == delimiter
    then (plain, end_cell r)
    else if c == 10
    then (plain, end_row r)
    else (plain, put_char c r)

unfoldable pub read_char : ℕ → ℕ → Mode → Reader → Mode × Reader
unfolding read_plain
read_char delimiter c plain r = read_plain delimiter c r
read_char delimiter c quoted r = if c == b'"' then (after_quote, r) else (quoted, put_char c r)
read_char delimiter c after_quote r =
    if c == b'"' then (quoted, put_char c r) else read_plain delimiter c r

unfoldable pub read_text : ℕ → Text → Mode → Reader → Reader
unfolding read_char
read_text delimiter [] mode r = r
read_text delimiter (c ∷ s) mode r =
    let (mode', r') = read_char delimiter c mode r in read_text delimiter s mode' r'

-- The last row, if the text does not end in a line break.
unfoldable pub finish_rows : Reader → List (List Text)
finish_rows r =
    if not (is_empty r.current_cell) || not (is_empty r.current_row)
    then (let row = r.current_row ++ trim r.current_cell ∷ [] in
        if has_text row then r.raw_rows ++ row ∷ [] else r.raw_rows)
    else r.raw_rows

unfoldable pub raw_rows_of : ℕ → Text → List (List Text)
unfolding line_breaks read_text finish_rows
raw_rows_of delimiter text = finish_rows (
    read_text delimiter (line_breaks false (strip_bom text)) plain
      (record { raw_rows = []; current_row = []; current_cell = [] }))

-- `rawRows.reduce((max, r) => Math.max(max, r.length), 0)`
unfoldable pub widest : ℕ → List (List Text) → ℕ
widest most [] = most
widest most (row ∷ rows) = widest (max most (length row)) rows

-- `from`, `from + 1`, …, as many as `left`.
unfoldable pub indices : ℕ → ℕ → List ℕ
indices from zero = []
indices from (suc left) = from ∷ indices (suc from) left

unfoldable pub cells_of : ℕ → ℕ → List Text → List OfficeCell
unfolding indices
cells_of cols row_index row =
    map
      (λ col. record {
        ref = column_index_to_letter col ++ decimal (row_index + 1);
        value = get_or (get_elem? row col) [];
      })
      (indices 0 cols)

unfoldable pub rows_of : ℕ → ℕ → List (List Text) → List (List OfficeCell)
unfolding cells_of
rows_of cols row_index [] = []
rows_of cols row_index (row ∷ rows) =
    cells_of cols row_index row ∷ rows_of cols (suc row_index) rows

unfoldable pub parse_delimited_text : Text → ℕ → Text → ℕ → ℕ → OfficeSheet
unfolding raw_rows_of widest rows_of
parse_delimited_text text delimiter sheet_name max_rows max_cols =
    let raw_rows = raw_rows_of delimiter text in
    let total_cols = widest 0 raw_rows in
    let bounded_cols = min (max total_cols 1) max_cols in
    record {
      name = sheet_name;
      columns = map column_index_to_letter (indices 0 bounded_cols);
      rows = rows_of bounded_cols 0 (take max_rows raw_rows);
      total_rows = length raw_rows;
      total_cols = total_cols;
      truncated = ltb max_rows (length raw_rows) || ltb max_cols total_cols;
    }
