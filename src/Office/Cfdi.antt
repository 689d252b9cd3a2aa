-- ===== src/Office/Cfdi.antt =====
-- `parseXmlDocument`: the invoice that an XML document holds.
use vault_drive.Base.{
  Bool, not, ◌||◌, Option, none, some, List, [], ◌∷◌, ◌++◌, map, filter, find, get_last?, get_or,
  if◌then◌else◌, is_empty, is_some, length, take, ◌==◌, number_eq, list_eq,
}
use vault_drive.Base.JsText.{Text, units, includes, starts_with, join}
use vault_drive.Office.Dom.{Dom, get_attr_ci, find_elements_by_local_name, first_element, or_units}
use vault_drive.Office.Contract.{
  Browser, Concepto, Emisor, Receptor, Impuestos, Timbre, Payload, Invoice, Identity, Contract,
  contract_of, target_modules, cfdi_xml, generic_xml,
}
use vault_drive.Office.External.{declares_external, clean_xml}

module _ (dom : Dom) where
  -- `getAttrCI(el, [name]) || otherwise`
  abbrev pub attr_or : Option dom.Element → Text → Text → Text
  attr_or el name otherwise = or_units (get_attr_ci dom el (name ∷ [])) otherwise

  unfoldable pub emisor_of : Option dom.Element → Emisor
  unfolding get_attr_ci
  emisor_of el = record {
    rfc = attr_or el (units "Rfc") (units "NOT_EVALUABLE");
    nombre = attr_or el (units "Nombre") (units "Sin nombre de emisor");
    regimen_fiscal = attr_or el (units "RegimenFiscal") (units "—");
  }

  unfoldable pub receptor_of : Option dom.Element → Receptor
  unfolding get_attr_ci
  receptor_of el = record {
    rfc = attr_or el (units "Rfc") (units "NOT_EVALUABLE");
    nombre = attr_or el (units "Nombre") (units "Sin nombre de receptor");
    uso_cfdi = attr_or el (units "UsoCFDI") (units "—");
    domicilio_fiscal_receptor = attr_or el (units "DomicilioFiscalReceptor") (units "—");
    regimen_fiscal_receptor = attr_or el (units "RegimenFiscalReceptor") (units "—");
  }

  unfoldable pub concepto_of : dom.Element → Concepto
  unfolding get_attr_ci
  concepto_of el = record {
    clave_prod_serv = attr_or (some el) (units "ClaveProdServ") (units "—");
    cantidad = attr_or (some el) (units "Cantidad") (units "1");
    clave_unidad =
        or_units (get_attr_ci dom (some el) (units "ClaveUnidad" ∷ units "Unidad" ∷ []))
          (units "—");
    descripcion = attr_or (some el) (units "Descripcion") (units "Concepto sin descripción");
    valor_unitario = attr_or (some el) (units "ValorUnitario") (units "NOT_EVALUABLE");
    importe = attr_or (some el) (units "Importe") (units "NOT_EVALUABLE");
  }

  unfoldable pub impuestos_of : Option dom.Element → Impuestos
  unfolding get_attr_ci
  impuestos_of el = record {
    total_impuestos_trasladados = attr_or el (units "TotalImpuestosTrasladados") (units "0.00");
    total_impuestos_retenidos = attr_or el (units "TotalImpuestosRetenidos") (units "0.00");
  }

  unfoldable pub timbre_of : Option dom.Element → Timbre
  unfolding get_attr_ci
  timbre_of el = record {
    uuid = attr_or el (units "UUID") (units "SIN-TIMBRE-UUID");
    fecha_timbrado = attr_or el (units "FechaTimbrado") (units "—");
    rfc_prov_certif = attr_or el (units "RfcProvCertif") (units "—");
    sello_cfd = attr_or el (units "SelloCFD") [];
    sello_sat = attr_or el (units "SelloSAT") [];
  }

  abbrev or_last : Option dom.Element → List dom.Element → Option dom.Element
  or_last (some el) all = some el
  or_last none all = get_last? all

  -- `rootImpuestos`
  unfoldable pub root_impuestos : dom.Element → Option dom.Element
  unfolding find_elements_by_local_name
  root_impuestos comprobante =
      let all_impuestos = find_elements_by_local_name dom comprobante (units "Impuestos") in
      or_last (find (λ el. dom.is_parent_of comprobante el) all_impuestos) all_impuestos

  -- `conceptos`
  unfoldable pub conceptos_of : dom.Element → List Concepto
  unfolding find_elements_by_local_name concepto_of
  conceptos_of comprobante =
      let container = get_or (first_element dom comprobante (units "Conceptos")) comprobante in
      map concepto_of (take 100 (find_elements_by_local_name dom container (units "Concepto")))

  unfoldable pub payload_of : Identity → dom.Element → Payload
  unfolding emisor_of receptor_of impuestos_of timbre_of root_impuestos conceptos_of get_attr_ci
      join
  payload_of identity comprobante =
      let own = some comprobante in
      let emisor = emisor_of (first_element dom comprobante (units "Emisor")) in
      let receptor = receptor_of (first_element dom comprobante (units "Receptor")) in
      let impuestos = impuestos_of (root_impuestos comprobante) in
      let serie = attr_or own (units "Serie") [] in
      let folio = attr_or own (units "Folio") [] in
      let named = filter (λ (t : Text). not (is_empty t)) (serie ∷ folio ∷ []) in
      record {
        plugin = units "filemon-office-mx";
        host = units "ABRN-Drive";
        target_modules = target_modules;
        document_id = identity.document_id;
        filename = identity.filename;
        sha256 = identity.sha256;
        uuid = (timbre_of (first_element dom comprobante (units "TimbreFiscalDigital"))).uuid;
        serie_folio = or_units (join b'-' named) (units "S/F");
        fecha = attr_or own (units "Fecha") (units "NOT_EVALUABLE");
        tipo_comprobante = attr_or own (units "TipoDeComprobante") (units "I");
        emisor_rfc = emisor.rfc;
        emisor_nombre = emisor.nombre;
        emisor_regimen = emisor.regimen_fiscal;
        receptor_rfc = receptor.rfc;
        receptor_nombre = receptor.nombre;
        receptor_uso_cfdi = receptor.uso_cfdi;
        subtotal = attr_or own (units "SubTotal") (units "NOT_EVALUABLE");
        descuento = attr_or own (units "Descuento") (units "0.00");
        iva_trasladado = impuestos.total_impuestos_trasladados;
        retenciones = impuestos.total_impuestos_retenidos;
        total = attr_or own (units "Total") (units "NOT_EVALUABLE");
        moneda = attr_or own (units "Moneda") (units "MXN");
        metodo_pago = attr_or own (units "MetodoPago") (units "PUE");
        forma_pago = attr_or own (units "FormaPago") (units "03");
        conceptos_count = length (conceptos_of comprobante);
        status_sat = units "UNVERIFIED_LOCAL_RAM_PARSE";
      }

  unfoldable pub invoice_of : Identity → dom.Element → Invoice
  unfolding payload_of emisor_of receptor_of impuestos_of timbre_of root_impuestos conceptos_of
      get_attr_ci
  invoice_of identity comprobante =
      let own = some comprobante in
      record {
        version = attr_or own (units "Version") (units "4.0");
        serie = attr_or own (units "Serie") [];
        folio = attr_or own (units "Folio") [];
        fecha = attr_or own (units "Fecha") (units "NOT_EVALUABLE");
        sub_total = attr_or own (units "SubTotal") (units "NOT_EVALUABLE");
        descuento = attr_or own (units "Descuento") (units "0.00");
        moneda = attr_or own (units "Moneda") (units "MXN");
        total = attr_or own (units "Total") (units "NOT_EVALUABLE");
        tipo_de_comprobante = attr_or own (units "TipoDeComprobante") (units "I");
        metodo_pago = attr_or own (units "MetodoPago") (units "PUE");
        forma_pago = attr_or own (units "FormaPago") (units "03");
        lugar_expedicion = attr_or own (units "LugarExpedicion") (units "—");
        emisor = emisor_of (first_element dom comprobante (units "Emisor"));
        receptor = receptor_of (first_element dom comprobante (units "Receptor"));
        conceptos = conceptos_of comprobante;
        impuestos = impuestos_of (root_impuestos comprobante);
        timbre = timbre_of (first_element dom comprobante (units "TimbreFiscalDigital"));
        amarre_fiscal_roche_payload = payload_of identity comprobante;
      }

  -- `isCfdi`, of a document whose element `Comprobante` is there.
  unfoldable pub is_cfdi : Text → dom.Element → dom.Element → Bool
  unfolding includes starts_with find_elements_by_local_name
  is_cfdi xml doc comprobante =
      includes xml (units "http://www.sat.gob.mx/cfd/")
      || starts_with (dom.lower (dom.tag_name comprobante)) (units "cfdi:")
      || is_some (first_element dom doc (units "Emisor"))

module _ (browser : Browser) where
  -- `formattedTotal`
  abbrev pub formatted_total : Text → Text → Text
  formatted_total total moneda =
      let plain = total ++ (b' ' ∷ moneda) in
      let formatted : Text = elim (browser.money total) [
        | none ↦ plain
        | some amount ↦ units "$" ++ (amount ++ (b' ' ∷ moneda))
      ] in
      if total == units "NOT_EVALUABLE" then plain else formatted

  abbrev pub generic_document : Identity → Text → browser.dom.Element → Contract
  generic_document identity xml doc =
      let root_name : Text = elim (browser.dom.document_element doc) [
        | none ↦ units "xml"
        | some el ↦ or_units (browser.dom.tag_name el) (units "xml")
      ] in
      let base =
        contract_of identity generic_xml (units "FILEMÓN OFFICE • XML")
          (units "Documento XML (<" ++ (root_name ++ units ">)"))
          (units "XML genérico leído en memoria RAM (no es un comprobante CFDI del SAT).")
          (units "xml:/" ++ root_name) in
      record base { raw_text = some xml }

  unfoldable pub invoice_document : Identity → Text → browser.dom.Element → Contract
  unfolding invoice_of
  invoice_document identity xml comprobante =
      let invoice = invoice_of browser.dom identity comprobante in
      let base =
        contract_of identity cfdi_xml (units "FILEMÓN OFFICE • CFDI " ++ invoice.version)
          (formatted_total invoice.total invoice.moneda
            ++ (units " • "
                ++ (invoice.emisor.nombre ++ (units " (" ++ (invoice.emisor.rfc ++ units ")")))))
          (units
            "Gemelo en Vivo (Filemón Office): Estructura CFDI leída localmente en memoria RAM. La vigencia ante el SAT no ha sido consultada externamente.")
          (units "cfdi://uuid/" ++ invoice.timbre.uuid) in
      record base { raw_text = some xml; cfdi = some invoice }

  unfoldable pub parse_xml_document : Text → Identity → Contract
  unfolding declares_external is_cfdi invoice_document find_elements_by_local_name
  parse_xml_document raw identity =
      let xml = clean_xml raw in
      let blocked =
        contract_of identity generic_xml (units "FILEMÓN OFFICE • XML BLOQUEADO")
          (units "XML rechazado por política de seguridad (entidades externas DTD)")
          (units
            "Este XML contiene declaraciones DTD o entidades externas (XXE) y su interpretación estructurada fue bloqueada por seguridad.")
          (units "xml:/blocked-dtd") in
      let broken =
        contract_of identity generic_xml (units "FILEMÓN OFFICE • XML")
          (units "XML con formato incompleto · Modo fuente seguro")
          (units
            "El archivo XML no pudo analizarse como árbol completo; se muestra la fuente escapada.")
          (units "xml:/source") in
      let doc = browser.dom.parse_from_string xml in
      if declares_external xml
      then record blocked { raw_text = some xml }
      else if browser.dom.has_parse_error doc
      then record broken { raw_text = some xml }
      else elim (first_element browser.dom doc (units "Comprobante")) [
        | none ↦ generic_document identity xml doc
        | some comprobante ↦
            if is_cfdi browser.dom xml doc comprobante
            then invoice_document identity xml comprobante
            else generic_document identity xml doc
      ]
