-- ===== src/Office/Kept.antt =====
-- What a contract keeps, and that each branch of the reader of documents keeps it.
use vault_drive.Base.{
  ℕ, ◌≤◌, ◌≡◌, refl, ◌∙◌, true, false, Option, none, some, List, [], ◌∷◌, map, get_or, length,
  length-map, length-take, All, Outcome, ok, throw, arith, number_eq, list_eq, take,
}
use vault_drive.Base.JsText.{Text, units}
use vault_drive.Office.Dom.{first_element, find_elements_by_local_name}
use vault_drive.Office.Delimited.{OfficeCell, parse_delimited_text}
use vault_drive.Office.Sheet.{parse_delimited_text-rows}
use vault_drive.Office.Workbook.{XlsxSheet}
use vault_drive.Office.WorkbookBounds.{IsSheet}
use vault_drive.Office.Contract.{
  Browser, Kind, Invoice, Spreadsheet, Identity, Contract, cfdi_xml, spreadsheet,
}
use vault_drive.Office.External.{declares_external}
use vault_drive.Office.Cfdi.{
  concepto_of, conceptos_of, invoice_of, payload_of, invoice_document, generic_document,
}
use vault_drive.Office.Documents.{
  plain_cell, plain_sheet, workbook_document, delimited_document, pdf_document, text_document,
}

abbrev pub IsNoneOr : {A : Type 0} → (A → Type 0) → Option A → Type 0
IsNoneOr P none = Unit
IsNoneOr P (some a) = P a

-- At most 200 rows, each as wide as the columns, of which there are at most 32.
pub record IsBounded (sheet : XlsxSheet) : Type 0 where
  pub few_rows : length sheet.rows ≤ 200
  pub few_columns : length sheet.columns ≤ 32
  pub rectangular : All (λ row. length row ≡ length sheet.columns) sheet.rows

-- An invoice that is read of a text without external entities.
pub record IsInvoice (kind : Kind) (xml : Text) (invoice : Invoice) : Type 0 where
  pub of_kind : kind ≡ cfdi_xml
  pub no_external : declares_external xml ≡ false
  pub few_conceptos : length invoice.conceptos ≤ 100
  pub counted : invoice.amarre_fiscal_roche_payload.conceptos_count ≡ length invoice.conceptos
  pub same_uuid : invoice.amarre_fiscal_roche_payload.uuid ≡ invoice.timbre.uuid

pub record IsWorkbook (kind : Kind) (book : Spreadsheet) : Type 0 where
  pub of_kind : kind ≡ spreadsheet
  pub few_sheets : length book.sheets ≤ 12
  pub bounded : All IsBounded book.sheets

pub record IsSound (identity : Identity) (xml : Text) (made : Contract) : Type 0 where
  pub same_identity : made.identity ≡ identity
  pub cited : made.citation.sha256 ≡ identity.sha256
  pub read_only : made.readonly ≡ true
  pub invoice : IsNoneOr (IsInvoice made.kind xml) made.cfdi
  pub workbook : IsNoneOr (IsWorkbook made.kind) made.spreadsheet

IsSheet-IsBounded : (sheets : List XlsxSheet) → All (IsSheet 200 32) sheets → All IsBounded sheets
IsSheet-IsBounded [] h = tt
IsSheet-IsBounded (sheet ∷ sheets) (h, hs) = (
  record { few_rows = h.few_rows; few_columns = h.few_columns; rectangular = h.rectangular },
  IsSheet-IsBounded sheets hs,
)

map-plain_cell :
    (n : ℕ) (rows : List (List OfficeCell))
    → All (λ row. length row ≡ n) rows
    → All (λ row. length row ≡ n) (map (map plain_cell) rows)
map-plain_cell n [] h = tt
map-plain_cell n (row ∷ rows) (h, hs) = (length-map plain_cell row ∙ h, map-plain_cell n rows hs)

plain_sheet-IsBounded :
    (raw : Text) (delimiter : ℕ) (name : Text)
    → IsBounded (plain_sheet (parse_delimited_text raw delimiter name 200 32))
plain_sheet-IsBounded raw delimiter name =
    let sheet = parse_delimited_text raw delimiter name 200 32 in
    let (wide, high, columns) = parse_delimited_text-rows raw delimiter name 200 32 in
    record {
      few_rows = rw (length-map (map plain_cell) sheet.rows, high) (omega arith);
      few_columns = rw columns (omega arith);
      rectangular = map-plain_cell (length sheet.columns) sheet.rows wide;
    }

module _ (browser : Browser) (identity : Identity) (xml : Text) where
  pub workbook_document-IsSound :
      (read : Outcome (List XlsxSheet))
      → ((sheets : List XlsxSheet)
          → read ≡ ok sheets
          → All (IsSheet 200 32) sheets × (length sheets ≤ 12))
      → IsSound identity xml (workbook_document browser identity read)
  unfolding workbook_document
  workbook_document-IsSound (throw reason) fits = record {
    same_identity = refl;
    cited = refl;
    read_only = refl;
    invoice = tt;
    workbook = record { of_kind = refl; few_sheets = omega arith; bounded = tt };
  }
  workbook_document-IsSound (ok sheets) fits =
      let (all_fit, few) = fits sheets refl in
      record {
        same_identity = refl;
        cited = refl;
        read_only = refl;
        invoice = tt;
        workbook = record {
          of_kind = refl;
          few_sheets = few;
          bounded = IsSheet-IsBounded sheets all_fit;
        };
      }

  pub delimited_document-IsSound :
      (extension raw : Text)
      → IsSound identity xml (delimited_document browser identity extension raw)
  unfolding delimited_document
  delimited_document-IsSound extension raw = record {
    same_identity = refl;
    cited = refl;
    read_only = refl;
    invoice = tt;
    workbook = record {
      of_kind = refl;
      few_sheets = omega arith;
      bounded = (plain_sheet-IsBounded raw _ _, tt);
    };
  }

  pub text_document-IsSound :
      (extension decoded : Text)
      → IsSound identity xml (text_document browser identity extension decoded)
  unfolding text_document
  text_document-IsSound extension decoded = record {
    same_identity = refl;
    cited = refl;
    read_only = refl;
    invoice = tt;
    workbook = tt;
  }

  pub pdf_document-IsSound : IsSound identity xml (pdf_document browser identity)
  pdf_document-IsSound = record {
    same_identity = refl;
    cited = refl;
    read_only = refl;
    invoice = tt;
    workbook = tt;
  }

  pub generic_document-IsSound :
      (doc : browser.dom.Element) → IsSound identity xml (generic_document browser identity xml doc)
  generic_document-IsSound doc = record {
    same_identity = refl;
    cited = refl;
    read_only = refl;
    invoice = tt;
    workbook = tt;
  }

  length-conceptos_of :
      (comprobante : browser.dom.Element) → length (conceptos_of browser.dom comprobante) ≤ 100
  unfolding conceptos_of
  length-conceptos_of comprobante =
      let container =
        get_or (first_element browser.dom comprobante (units "Conceptos")) comprobante in
      let nodes = find_elements_by_local_name browser.dom container (units "Concepto") in
      rw (length-map (concepto_of browser.dom) (take 100 nodes), length-take 100 nodes)
        (omega arith)

  pub invoice_document-IsSound :
      (comprobante : browser.dom.Element)
      → declares_external xml ≡ false
      → IsSound identity xml (invoice_document browser identity xml comprobante)
  unfolding invoice_document invoice_of payload_of
  invoice_document-IsSound comprobante h = record {
    same_identity = refl;
    cited = refl;
    read_only = refl;
    invoice = record {
      of_kind = refl;
      no_external = h;
      few_conceptos = length-conceptos_of comprobante;
      counted = refl;
      same_uuid = refl;
    };
    workbook = tt;
  }
