-- ===== src/Office/Documents.antt =====
-- `parseFilemonOfficeDocument`, which reads a document by its name's extension, and
-- `buildSpreadsheetCellCitation`.
use vault_drive.Base.{
  ℕ, ◌+◌, Bool, ◌||◌, Option, none, some, List, [], ◌∷◌, ◌++◌, map, get_last?, get_or,
  if◌then◌else◌, length, take, any, ltb, Outcome, ok, throw, ◌==◌, number_eq, list_eq,
}
use vault_drive.Base.JsText.{Text, units, trim, decimal, split}
use vault_drive.Office.Dom.{or_units}
use vault_drive.Office.Delimited.{OfficeCell, OfficeSheet, parse_delimited_text, strip_bom}
use vault_drive.Office.Workbook.{XlsxCell, XlsxSheet, parse_xlsx_buffer, number_text}
use vault_drive.Office.Contract.{
  Browser, Kind, Identity, Contract, contract_of, spreadsheet, pdf, json, markdown, text,
}
use vault_drive.Office.Cfdi.{parse_xml_document}

abbrev pub last_part : List Text → Text
last_part parts = if ltb 1 (length parts) then get_or (get_last? parts) [] else []

unfoldable pub get_file_extension : (Text → Text) → Text → Text
unfolding split trim
get_file_extension lower filename = last_part (split b'.' (trim (lower filename)))

-- `OFFICE_EXTENSIONS`
abbrev pub office_extensions : List Text
office_extensions =
    units "xml"
    ∷ units "xlsx"
    ∷ units "csv"
    ∷ units "tsv"
    ∷ units "pdf"
    ∷ units "json"
    ∷ units "md"
    ∷ units "txt"
    ∷ []

unfoldable pub can_handle_with_filemon_office : (Text → Text) → Text → Bool
unfolding get_file_extension
can_handle_with_filemon_office lower filename =
    any (λ extension. extension == get_file_extension lower filename) office_extensions

unfoldable pub build_spreadsheet_cell_citation : Text → Text → Text → XlsxCell → Text
build_spreadsheet_cell_citation filename sha256 sheet_name cell =
    let short_hash = take 12 (or_units sha256 (units "PENDING")) in
    filename
    ++ (units "#sha256:"
        ++ (short_hash
            ++ (units "!"
                ++ (sheet_name
                    ++ (units "!" ++ (cell.ref ++ (units "=\"" ++ (cell.value ++ units "\""))))))))

-- A delimited sheet's cells have no formula.
abbrev pub plain_cell : OfficeCell → XlsxCell
plain_cell cell = record {
  ref = cell.ref;
  value = cell.value;
  formula = none;
  cache_missing = none;
}

abbrev pub plain_sheet : OfficeSheet → XlsxSheet
plain_sheet sheet = record {
  name = sheet.name;
  columns = sheet.columns;
  rows = map (map plain_cell) sheet.rows;
  total_rows = some sheet.total_rows;
  total_cols = sheet.total_cols;
  truncated = sheet.truncated;
}

-- The sum of the numbers of rows, which NaN takes over.
abbrev pub add_rows : Option ℕ → Option ℕ → Option ℕ
add_rows (some a) (some b) = some (a + b)
add_rows _ _ = none

unfoldable pub total_rows_of : List XlsxSheet → Option ℕ
total_rows_of [] = some 0
total_rows_of (sheet ∷ sheets) = add_rows sheet.total_rows (total_rows_of sheets)

abbrev pub first_name : List XlsxSheet → Text
first_name [] = units "Hoja 1"
first_name (sheet ∷ sheets) = or_units sheet.name (units "Hoja 1")

abbrev pub kind_of : Text → Kind
kind_of extension =
    if extension == units "json" then json else if extension == units "md" then markdown else text

abbrev pub kind_name : Kind → Text
kind_name json = units "json"
kind_name markdown = units "markdown"
kind_name _ = units "text"

module _ (browser : Browser) where
  unfoldable pub workbook_document : Identity → Outcome (List XlsxSheet) → Contract
  unfolding total_rows_of decimal
  workbook_document identity (throw reason) =
      let base =
        contract_of identity spreadsheet (units "FILEMÓN OFFICE • XLSX NO LEGIBLE")
          (units "El libro XLSX está protegido o usa un formato binario no soportado")
          (units
            "No se pudo expandir xl/workbook.xml. Si es un archivo .xls binario o XLSB, guárdalo como .xlsx estándar o descarga el original.")
          (units "sheet://unreadable") in
      record base { spreadsheet = some (record { format = units "xlsx"; sheets = [] }) }
  workbook_document identity (ok sheets) =
      let count = length sheets in
      let noun = if count == 1 then units "Hoja" else units "Hojas" in
      let rows = number_text (total_rows_of sheets) in
      let base =
        contract_of identity spreadsheet (units "FILEMÓN OFFICE • EXCEL XLSX")
          (decimal count ++ (b' ' ∷ noun ++ (units " • " ++ (rows ++ units " filas"))))
          (units
            "Lector de hojas Filemón Office (solo lectura): muestra valores almacenados en caché sin ejecutar macros ni conexiones externas.")
          (units "sheet://" ++ (browser.encode_uri_component (first_name sheets) ++ units "!A1")) in
      record base { spreadsheet = some (record { format = units "xlsx"; sheets = sheets }) }

  unfoldable pub delimited_document : Identity → Text → Text → Contract
  unfolding parse_delimited_text decimal
  delimited_document identity extension raw =
      let tabs = extension == units "tsv" in
      let upper = browser.upper extension in
      let sheet = parse_delimited_text raw (if tabs then 9 else b',') upper 200 32 in
      let base =
        contract_of identity spreadsheet (units "FILEMÓN OFFICE • " ++ upper)
          (units "1 Hoja • "
            ++ (decimal sheet.total_rows
                ++ (units " filas × " ++ (decimal sheet.total_cols ++ units " columnas"))))
          (units
            "Tabla delimitada leída en memoria RAM con formato tabular lista para Quantix ABRN SAT y Amarre Fiscal (Roche).")
          (units "sheet://" ++ (upper ++ units "!A1")) in
      record base {
        raw_text = some raw;
        spreadsheet = some (record {
          format = if tabs then units "tsv" else units "csv";
          sheets = plain_sheet sheet ∷ [];
        });
      }

  abbrev pub pdf_document : Identity → Contract
  pdf_document identity =
      contract_of identity pdf (units "FILEMÓN OFFICE • PDF ORIGINAL")
        (units "Documento PDF (" ++ (browser.kilobytes identity.bytes ++ units " KB)"))
        (units
          "Visor PDF original en memoria RAM. Si tu navegador móvil no incrusta PDFs nativamente, usa 'Abrir en pestaña' o 'Descargar Original'.")
        (units "pdf://page/1")

  -- `rawText.split(/\r?\n/).length`, or 0.
  unfoldable pub line_count : Text → ℕ
  unfolding split
  line_count [] = 0
  line_count (c ∷ raw) = length (split 10 (c ∷ raw))

  unfoldable pub text_document : Identity → Text → Text → Contract
  unfolding line_count decimal
  text_document identity extension decoded =
      let raw = strip_bom decoded in
      let lines = decimal (line_count raw) in
      let kind = kind_of extension in
      let base =
        contract_of identity kind
          (units "FILEMÓN OFFICE • " ++ or_units (browser.upper extension) (units "DOC"))
          (lines ++ (units " líneas • " ++ (browser.kilobytes identity.bytes ++ units " KB")))
          (units "Documento descifrado localmente en memoria RAM.")
          (kind_name kind ++ (units "://lines/1-" ++ lines)) in
      record base { raw_text = some raw }

  unfoldable pub parse_filemon_office_document : Text → Text → List ℕ → Option Text → Contract
  unfolding get_file_extension workbook_document delimited_document text_document parse_xlsx_buffer
      parse_xml_document
  parse_filemon_office_document id filename buffer sha256 =
      let identity : Identity = record {
        document_id = id;
        filename = filename;
        sha256 = or_units (get_or sha256 []) (units "PENDING_SHA256");
        bytes = length buffer;
      } in
      let extension = get_file_extension browser.dom.lower filename in
      let decoded = browser.decode buffer in
      if extension == units "xlsx"
      then workbook_document identity (parse_xlsx_buffer browser.dom (browser.load buffer) 200 32)
      else if extension == units "csv" || extension == units "tsv"
      then delimited_document identity extension decoded
      else if extension == units "xml"
      then parse_xml_document browser decoded identity
      else if extension == units "pdf"
      then pdf_document identity
      else text_document identity extension decoded
