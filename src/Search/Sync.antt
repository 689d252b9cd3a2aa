-- ===== src/Search/Sync.antt =====
-- What was learnt of a document is applied again when the documents are synchronised.
use vault_drive.Base.{
  Option, some, List, [], ◌∷◌, ◌≡◌, ◌≢◌, refl, sym, ap, ◌∙◌, inl, inr, get_or, arith, Bool-cases,
  list_eq, number_eq,
}
use vault_drive.Base.JsMap.{get, set, values, get-set_here}
use vault_drive.Base.JsText.{Text}
use vault_drive.Search.Index.{
  IndexDocument, GivenEnrichment, EnrichmentKey, DocumentEnrichment, no_enrichment,
  VaultSearchIndex, apply_enrichment, merge_enrichment, put_document, add_document, add_documents,
  clear, sync_documents, enrich_entry, note_enrichment, reindex, enrich_document, remove_document,
  matches_key, enriched,
}

remove_document-enrichment :
    (doc_id : Text) (index : VaultSearchIndex)
    → (remove_document doc_id index).enrichment_by_id ≡ index.enrichment_by_id
unfolding remove_document
remove_document-enrichment doc_id index = ground arith

module _ (lower nfd : Text → Text) where
  add_document-enrichment :
      (doc : IndexDocument) (index : VaultSearchIndex)
      → (add_document lower nfd doc index).enrichment_by_id ≡ index.enrichment_by_id
  unfolding add_document put_document
  add_document-enrichment doc index = remove_document-enrichment _ index

  reindex-enrichment :
      (key : EnrichmentKey) (docs : List IndexDocument) (index : VaultSearchIndex)
      → (reindex lower nfd key docs index).enrichment_by_id ≡ index.enrichment_by_id
  unfolding reindex
  reindex-enrichment key [] index = refl
  reindex-enrichment key (doc ∷ docs) index = elim (Bool-cases (matches_key lower nfd key doc)) [
    | inl yes_it_does ↦
        rw (reindex, yes_it_does)
          (reindex-enrichment key docs (add_document lower nfd doc index)
            ∙ add_document-enrichment doc index)
    | inr other ↦ rw (reindex, other) (reindex-enrichment key docs index)
  ]

  apply_enrichment-id :
      (index : VaultSearchIndex) (doc : IndexDocument)
      → (apply_enrichment lower nfd index doc).id ≡ doc.id
  unfolding apply_enrichment merge_enrichment
  apply_enrichment-id index doc = ground arith

  apply_enrichment-snippet_text :
      (index : VaultSearchIndex) (doc : IndexDocument) (e : DocumentEnrichment) (s : Text)
      → get doc.id index.enrichment_by_id ≡ some e
      → e.snippet_text ≡ some s
      → (apply_enrichment lower nfd index doc).snippet_text ≡ some s
  unfolding apply_enrichment merge_enrichment
  apply_enrichment-snippet_text index doc e s found text = rw found (ground (arith, text))

  enrich_document-noted :
      (id : Text) (name : Option Text) (given : GivenEnrichment) (index : VaultSearchIndex)
      → id ≢ []
      → (e : DocumentEnrichment) × (get id
            (enrich_document lower nfd
              (record { id = some id; filename = name })
              given
              index).enrichment_by_id
          ≡ some (enriched lower nfd e given))
  unfolding enrich_document note_enrichment enrich_entry
  enrich_document-noted [] name given index named = absurd (named refl)
  enrich_document-noted (c ∷ cs) name given index named = (
    get_or (get (c ∷ cs) index.enrichment_by_id) no_enrichment,
    ap (get (c ∷ cs)) (
          reindex-enrichment (record { id = some (c ∷ cs); filename = name }) (values index.docs)
            (note_enrichment lower nfd (record { id = some (c ∷ cs); filename = name }) given
              index))
        ∙ get-set_here (c ∷ cs) _ index.enrichment_by_id,
  )

  sync_documents-one :
      (doc : IndexDocument) (index : VaultSearchIndex)
      → get doc.id (sync_documents lower nfd (doc ∷ []) index).docs
        ≡ some (apply_enrichment lower nfd (clear lower nfd index) doc)
  unfolding sync_documents add_documents add_document put_document
  sync_documents-one doc index =
      let merged = apply_enrichment lower nfd (clear lower nfd index) doc in
      let docs = (remove_document merged.id (clear lower nfd index)).docs in
      ap (λ k. get k (set merged.id merged docs))
        (sym (apply_enrichment-id (clear lower nfd index) doc))
      ∙ get-set_here merged.id merged docs

  -- A snippet that was given for a document by its id, which is not empty, is the snippet of that
  -- document after a synchronisation with that document alone, whatever snippet it comes with.
  pub sync_documents-enrich_document :
      (doc : IndexDocument) (name : Option Text) (given : GivenEnrichment) (s : Text)
      (index : VaultSearchIndex)
      → doc.id ≢ []
      → given.snippet_text ≡ some (some s)
      → (stored : IndexDocument) × (get doc.id
            (sync_documents lower nfd (doc ∷ []) (
              enrich_document lower nfd
                (record { id = some doc.id; filename = name })
                given
                index)).docs
          ≡ some stored)
        × (stored.snippet_text ≡ some s)
  unfolding clear
  sync_documents-enrich_document doc name given s index named says =
      let noted =
        enrich_document lower nfd (record { id = some doc.id; filename = name }) given index in
      let (e, found) = enrich_document-noted doc.id name given index named in
      (
        apply_enrichment lower nfd (clear lower nfd noted) doc,
        sync_documents-one doc noted,
        apply_enrichment-snippet_text (clear lower nfd noted) doc (enriched lower nfd e given) s
            found (unfold enriched in ground (arith, says)),
      )
