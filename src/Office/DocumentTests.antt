-- ===== src/Office/DocumentTests.antt =====
-- Runs of the reader of documents on an invoice and on an XML text with an external entity.
use vault_drive.Base.{
  ℕ, zero, suc, ◌≡◌, refl, true, false, none, some, List, [], ◌∷◌, ◌++◌, map, throw, number_eq,
}
use vault_drive.Base.JsText.{Text, units, decimal}
use vault_drive.Transfer.Failure.{ascii_lower}
use vault_drive.Office.Dom.{Dom}
use vault_drive.Office.Workbook.{XlsxCell}
use vault_drive.Office.Contract.{Browser, Contract, cfdi_xml}
use vault_drive.Office.External.{declares_external, clean_xml}
use vault_drive.Office.Cfdi.{parse_xml_document}
use vault_drive.Office.Documents.{
  parse_filemon_office_document, can_handle_with_filemon_office, build_spreadsheet_cell_citation,
}
use vault_drive.Office.Kept.{IsSound}
use vault_drive.Office.Soundness.{parse_filemon_office_document-IsSound}

-- A document, 0, with an invoice, 1, of one item, 2.
invoice_descendants : ℕ → List ℕ
invoice_descendants zero = 1 ∷ 2 ∷ []
invoice_descendants (suc zero) = 2 ∷ []
invoice_descendants (suc (suc n)) = []

invoice_name : ℕ → Text
invoice_name zero = []
invoice_name (suc zero) = units "Comprobante"
invoice_name (suc (suc n)) = units "Concepto"

abbrev invoice_tag : ℕ → Text
invoice_tag n = units "cfdi:" ++ invoice_name n

abbrev invoice_dom : Dom
invoice_dom = record {
  Element = ℕ;
  parse_from_string = λ raw. 0;
  has_parse_error = λ el. false;
  document_element = λ el. some 1;
  descendants = invoice_descendants;
  attributes =
      λ el. record { name = units "Total"; local_name = units "Total"; value = units "10" } ∷ [];
  local_name = invoice_name;
  tag_name = invoice_tag;
  text_content = λ el. [];
  is_parent_of = λ a b. false;
  lower = map ascii_lower;
}

abbrev invoice_browser : Browser
invoice_browser = record {
  dom = invoice_dom;
  upper = λ name. name;
  encode_uri_component = λ name. name;
  kilobytes = decimal;
  money = λ amount. none;
  decode = λ buffer. buffer;
  load = λ buffer. throw "Corrupted zip";
}

abbrev invoice_text : Text
invoice_text = units " <cfdi:Comprobante Total='10'/>"

abbrev read_invoice : Contract
read_invoice =
    parse_filemon_office_document invoice_browser (units "7") (units "F.XML") invoice_text none

read_invoice_kind : read_invoice.kind ≡ cfdi_xml
unfolding parse_filemon_office_document parse_xml_document invoice_descendants invoice_name
read_invoice_kind = refl

read_invoice_headline :
    read_invoice.headline ≡ units "10 MXN • Sin nombre de emisor (NOT_EVALUABLE)"
unfolding parse_filemon_office_document parse_xml_document invoice_descendants invoice_name
read_invoice_headline = refl

parse_filemon_office_document-IsSound_example :
    IsSound
      (record {
        document_id = units "7";
        filename = units "F.XML";
        sha256 = units "PENDING_SHA256";
        bytes = 31;
      })
      (clean_xml invoice_text)
      read_invoice
parse_filemon_office_document-IsSound_example =
    parse_filemon_office_document-IsSound invoice_browser (units "7") (units "F.XML") invoice_text
      none

external_entity :
    declares_external (units "<!DOCTYPE a [<!ENTITY b SYSTEM \"file:///etc/passwd\">]><a/>") ≡ true
unfolding declares_external
external_entity = refl

system_identifier : declares_external (units "<!DOCTYPE a System  'a.dtd'><a/>") ≡ true
unfolding declares_external
system_identifier = refl

no_external_entity : declares_external (units "<a href='ecosystem \"x\"'/>") ≡ false
unfolding declares_external
no_external_entity = refl

handled : can_handle_with_filemon_office (map ascii_lower) (units "Libro.XLSX ") ≡ true
unfolding can_handle_with_filemon_office
handled = refl

abbrev cited_cell : XlsxCell
cited_cell = record { ref = units "B2"; value = units "5"; formula = none; cache_missing = none }

cited :
    build_spreadsheet_cell_citation (units "a.csv") [] (units "CSV") cited_cell
    ≡ units "a.csv#sha256:PENDING!CSV!B2=\"5\""
unfolding build_spreadsheet_cell_citation
cited = refl
