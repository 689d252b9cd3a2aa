-- ===== src/Office/Contract.antt =====
-- The contract that the reader of documents makes, and what it calls of the browser (`Browser`).
use vault_drive.Base.{ℕ, Bool, true, Option, none, List, [], ◌∷◌, Outcome}
use vault_drive.Base.JsText.{Text, units}
use vault_drive.Office.Dom.{Dom}
use vault_drive.Office.Workbook.{XlsxSheet, Archive}

pub record Browser : Type 1 where
  pub dom : Dom
  -- `toUpperCase`, `encodeURIComponent`, and `(n / 1024).toFixed(1)`.
  pub upper : Text → Text
  pub encode_uri_component : Text → Text
  pub kilobytes : ℕ → Text
  -- `Number(text)`, if it is a number, as `toLocaleString` writes it with two decimals.
  pub money : Text → Option Text
  -- `TextDecoder` and `JSZip.loadAsync`.
  pub decode : List ℕ → Text
  pub load : List ℕ → Outcome Archive

pub data Kind : Type 0 where
  cfdi_xml : Kind
  generic_xml : Kind
  spreadsheet : Kind
  pdf : Kind
  json : Kind
  markdown : Kind
  text : Kind

pub record Concepto : Type 0 where
  pub clave_prod_serv : Text
  pub cantidad : Text
  pub clave_unidad : Text
  pub descripcion : Text
  pub valor_unitario : Text
  pub importe : Text

pub record Emisor : Type 0 where
  pub rfc : Text
  pub nombre : Text
  pub regimen_fiscal : Text

pub record Receptor : Type 0 where
  pub rfc : Text
  pub nombre : Text
  pub uso_cfdi : Text
  pub domicilio_fiscal_receptor : Text
  pub regimen_fiscal_receptor : Text

pub record Impuestos : Type 0 where
  pub total_impuestos_trasladados : Text
  pub total_impuestos_retenidos : Text

pub record Timbre : Type 0 where
  pub uuid : Text
  pub fecha_timbrado : Text
  pub rfc_prov_certif : Text
  pub sello_cfd : Text
  pub sello_sat : Text

pub record Payload : Type 0 where
  pub plugin : Text
  pub host : Text
  pub target_modules : List Text
  pub document_id : Text
  pub filename : Text
  pub sha256 : Text
  pub uuid : Text
  pub serie_folio : Text
  pub fecha : Text
  pub tipo_comprobante : Text
  pub emisor_rfc : Text
  pub emisor_nombre : Text
  pub emisor_regimen : Text
  pub receptor_rfc : Text
  pub receptor_nombre : Text
  pub receptor_uso_cfdi : Text
  pub subtotal : Text
  pub descuento : Text
  pub iva_trasladado : Text
  pub retenciones : Text
  pub total : Text
  pub moneda : Text
  pub metodo_pago : Text
  pub forma_pago : Text
  pub conceptos_count : ℕ
  pub status_sat : Text

pub record Invoice : Type 0 where
  pub version : Text
  pub serie : Text
  pub folio : Text
  pub fecha : Text
  pub sub_total : Text
  pub descuento : Text
  pub moneda : Text
  pub total : Text
  pub tipo_de_comprobante : Text
  pub metodo_pago : Text
  pub forma_pago : Text
  pub lugar_expedicion : Text
  pub emisor : Emisor
  pub receptor : Receptor
  pub conceptos : List Concepto
  pub impuestos : Impuestos
  pub timbre : Timbre
  pub amarre_fiscal_roche_payload : Payload

pub record Spreadsheet : Type 0 where
  pub format : Text
  pub sheets : List XlsxSheet

pub record Identity : Type 0 where
  pub document_id : Text
  pub filename : Text
  pub sha256 : Text
  pub bytes : ℕ

pub record Plugin : Type 0 where
  pub module_name : Text
  pub host : Text
  pub targets : List Text

pub record Citation : Type 0 where
  pub sha256 : Text
  pub locator : Text

pub record Contract : Type 0 where
  pub identity : Identity
  pub plugin : Plugin
  pub kind : Kind
  pub badge_label : Text
  pub headline : Text
  pub readonly : Bool
  pub raw_text : Option Text
  pub cfdi : Option Invoice
  pub spreadsheet : Option Spreadsheet
  pub notices : List Text
  pub citation : Citation

abbrev pub target_modules : List Text
target_modules = units "Quantix ABRN SAT" ∷ units "Amarre Fiscal (Roche)" ∷ []

-- A contract without text, invoice or sheets, which the branches add.
abbrev pub contract_of : Identity → Kind → Text → Text → Text → Text → Contract
contract_of identity kind badge_label headline notice locator = record {
  identity = identity;
  plugin = record {
    module_name = units "filemon-office-mx";
    host = units "ABRN-Drive";
    targets = target_modules;
  };
  kind = kind;
  badge_label = badge_label;
  headline = headline;
  readonly = true;
  raw_text = none;
  cfdi = none;
  spreadsheet = none;
  notices = notice ∷ [];
  citation = record { sha256 = identity.sha256; locator = locator };
}
