-- ===== src/Office/Soundness.antt =====
-- `parseFilemonOfficeDocument`: what every contract that it makes keeps.
use vault_drive.Base.{
  ℕ, refl, ◌||◌, Option, some, List, [], get_or, length, Bool-cases, Option-cases, inl, inr, ◌==◌,
  number_eq, list_eq,
}
use vault_drive.Base.JsText.{Text, units}
use vault_drive.Office.Dom.{or_units, first_element}
use vault_drive.Office.Workbook.{parse_xlsx_buffer}
use vault_drive.Office.WorkbookBounds.{parse_xlsx_buffer-IsSheet}
use vault_drive.Office.Contract.{Browser, Kind, Identity, contract_of}
use vault_drive.Office.External.{declares_external, clean_xml}
use vault_drive.Office.Cfdi.{is_cfdi, parse_xml_document}
use vault_drive.Office.Documents.{get_file_extension, parse_filemon_office_document}
use vault_drive.Office.Kept.{
  IsSound, workbook_document-IsSound, delimited_document-IsSound, text_document-IsSound,
  pdf_document-IsSound, generic_document-IsSound, invoice_document-IsSound,
}

parse_xml_document-IsSound :
    (browser : Browser) (identity : Identity) (raw : Text)
    → IsSound identity (clean_xml raw) (parse_xml_document browser raw identity)
unfolding parse_xml_document
parse_xml_document-IsSound browser identity raw =
    let xml = clean_xml raw in
    let doc = browser.dom.parse_from_string xml in
    elim (Bool-cases (declares_external xml)) [
      | inl blocked ↦ rw (parse_xml_document, blocked) (plain (some xml))
      | inr safe ↦ elim (Bool-cases (browser.dom.has_parse_error doc)) [
        | inl broken ↦ rw (parse_xml_document, safe, broken) (plain (some xml))
        | inr whole ↦ elim (Option-cases (first_element browser.dom doc (units "Comprobante"))) [
          | inl missing ↦
              rw (parse_xml_document, safe, whole, missing)
                (generic_document-IsSound browser identity xml doc)
          | inr (comprobante, found) ↦ elim (Bool-cases (is_cfdi browser.dom xml doc comprobante)) [
            | inl invoiced ↦
                rw (parse_xml_document, safe, whole, found, invoiced)
                  (invoice_document-IsSound browser identity xml comprobante safe)
            | inr other ↦
                rw (parse_xml_document, safe, whole, found, other)
                  (generic_document-IsSound browser identity xml doc)
          ]
        ]
      ]
    ]
  where
    plain :
        {kind : Kind} {badge headline notice locator : Text} (raw_text : Option Text)
        → IsSound identity
            (clean_xml raw)
            (record (contract_of identity kind badge headline notice locator) {
              raw_text = raw_text;
            })
    plain raw_text = record {
      same_identity = refl;
      cited = refl;
      read_only = refl;
      invoice = tt;
      workbook = tt;
    }

-- Every contract names its document (its digest PENDING_SHA256 where none is given, its length) and
-- cites its digest, and is read only. It holds an invoice only as the kind cfdi_xml and of a text without
-- external entities, of at most 100 items, counted in its payload under the same UUID; and sheets only as
-- the kind spreadsheet, at most 12 of 200 rows and 32 columns, with rows as wide as the columns.
pub parse_filemon_office_document-IsSound :
    (browser : Browser) (id filename : Text) (buffer : List ℕ) (sha256 : Option Text)
    → IsSound
        (record {
          document_id = id;
          filename = filename;
          sha256 = or_units (get_or sha256 []) (units "PENDING_SHA256");
          bytes = length buffer;
        })
        (clean_xml (browser.decode buffer))
        (parse_filemon_office_document browser id filename buffer sha256)
unfolding parse_filemon_office_document
parse_filemon_office_document-IsSound browser id filename buffer sha256 =
    let extension = get_file_extension browser.dom.lower filename in
    let decoded = browser.decode buffer in
    let identity : Identity = record {
      document_id = id;
      filename = filename;
      sha256 = or_units (get_or sha256 []) (units "PENDING_SHA256");
      bytes = length buffer;
    } in
    let xml = clean_xml decoded in
    let read = parse_xlsx_buffer browser.dom (browser.load buffer) 200 32 in
    elim (Bool-cases (extension == units "xlsx")) [
      | inl xlsx ↦
          rw (parse_filemon_office_document, xlsx)
            (workbook_document-IsSound browser identity xml read
              (parse_xlsx_buffer-IsSheet browser.dom (browser.load buffer) 200 32))
      | inr not_xlsx ↦ elim (Bool-cases (extension == units "csv" || extension == units "tsv")) [
        | inl delimited ↦
            rw (parse_filemon_office_document, not_xlsx, delimited)
              (delimited_document-IsSound browser identity xml extension decoded)
        | inr not_delimited ↦ elim (Bool-cases (extension == units "xml")) [
          | inl is_xml ↦
              rw (parse_filemon_office_document, not_xlsx, not_delimited, is_xml)
                (parse_xml_document-IsSound browser identity decoded)
          | inr not_xml ↦ elim (Bool-cases (extension == units "pdf")) [
            | inl is_pdf ↦
                rw (parse_filemon_office_document, not_xlsx, not_delimited, not_xml, is_pdf)
                  (pdf_document-IsSound browser identity xml)
            | inr not_pdf ↦
                rw (parse_filemon_office_document, not_xlsx, not_delimited, not_xml, not_pdf)
                  (text_document-IsSound browser identity xml extension decoded)
          ]
        ]
      ]
    ]
