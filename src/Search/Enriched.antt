-- ===== src/Search/Enriched.antt =====
-- Every operation of the index keeps the maps in agreement, and enrichments survive a new sync.
use vault_drive.Base.{
  ℕ, Bool, true, false, not, ◌&&◌, ◌||◌, Option, none, some, List, [], ◌∷◌, ◌≡◌, ◌≢◌, refl, sym, ap,
  ◌∙◌, inl, inr, if◌then◌else◌, get_or, is_some, is_empty, arith, Bool-cases, Option-cases, ◌==◌,
  list_eq, number_eq, list_same_iff, ==_refl,
}
use vault_drive.Base.JsMap.{get, values}
use vault_drive.Base.JsText.{Text}
use vault_drive.Search.Index.{
  IndexDocument, GivenEnrichment, EnrichmentKey, VaultSearchIndex, empty_index, apply_enrichment,
  add_document, add_documents, clear, sync_documents, note_enrichment, reindex, enrich_document,
  remove_document, scrub, matches_key,
}
use vault_drive.Search.Linked.{IsIndex, remove_document-IsIndex, put_document-IsIndex, leads_to}

module _ (lower nfd : Text → Text) where
  -- The operations, as the program calls them.
  pub data IndexStep (index : VaultSearchIndex) : VaultSearchIndex → Type 0 where
    adding : (doc : IndexDocument) → IndexStep index (add_document lower nfd doc index)
    adding_all : (docs : List IndexDocument) → IndexStep index (add_documents lower nfd docs index)
    syncing : (docs : List IndexDocument) → IndexStep index (sync_documents lower nfd docs index)
    enriching :
        (key : EnrichmentKey) (given : GivenEnrichment)
        → IndexStep index (enrich_document lower nfd key given index)
    removing : (doc_id : Text) → IndexStep index (remove_document doc_id index)
    clearing : IndexStep index (clear lower nfd index)
    scrubbing : IndexStep index (scrub lower nfd index)

  pub data IndexReached : VaultSearchIndex → Type 0 where
    created : IndexReached empty_index
    stepped :
        (index next : VaultSearchIndex)
        → IndexReached index
        → IndexStep index next
        → IndexReached next

  add_documents-IsIndex :
      (docs : List IndexDocument) (index : VaultSearchIndex)
      → IsIndex lower nfd index
      → IsIndex lower nfd (add_documents lower nfd docs index)
  unfolding add_documents add_document
  add_documents-IsIndex [] index v = v
  add_documents-IsIndex (doc ∷ docs) index v =
      add_documents-IsIndex docs _
        (put_document-IsIndex lower nfd (apply_enrichment lower nfd index doc) index v)

  no_docs-IsIndex : (index : VaultSearchIndex) → IsIndex lower nfd (clear lower nfd index)
  unfolding clear get leads_to vault_drive.Base.JsSet.member
  no_docs-IsIndex index = record {
    keyed = λ id doc e. cc;
    linked = λ token id. refl;
    prepared = λ id. refl;
  }

  -- The documents, texts and tokens do not depend on the enrichments that are kept.
  noted-IsIndex :
      (index noted : VaultSearchIndex)
      → index.docs ≡ noted.docs
      → index.prepared_docs ≡ noted.prepared_docs
      → index.token_map ≡ noted.token_map
      → IsIndex lower nfd index
      → IsIndex lower nfd noted
  noted-IsIndex index noted d p t v = record {
    keyed = rw (← d) v.keyed;
    linked = rw (← d, ← t) v.linked;
    prepared = rw (← d, ← p) v.prepared;
  }

  reindex-IsIndex :
      (key : EnrichmentKey) (docs : List IndexDocument) (index : VaultSearchIndex)
      → IsIndex lower nfd index
      → IsIndex lower nfd (reindex lower nfd key docs index)
  unfolding reindex add_document
  reindex-IsIndex key [] index v = v
  reindex-IsIndex key (doc ∷ docs) index v = elim (Bool-cases (matches_key lower nfd key doc)) [
    | inl yes_it_does ↦ rw yes_it_does (
        reindex-IsIndex key docs _
          (put_document-IsIndex lower nfd (apply_enrichment lower nfd index doc) index v))
    | inr other ↦ rw other (reindex-IsIndex key docs index v)
  ]

  IndexStep-IsIndex :
      (index next : VaultSearchIndex)
      → IsIndex lower nfd index
      → IndexStep index next
      → IsIndex lower nfd next
  unfolding sync_documents enrich_document note_enrichment scrub clear
  IndexStep-IsIndex index next v (adding doc) = add_documents-IsIndex (doc ∷ []) index v
  IndexStep-IsIndex index next v (adding_all docs) = add_documents-IsIndex docs index v
  IndexStep-IsIndex index next v (syncing docs) =
      add_documents-IsIndex docs (clear lower nfd index) (no_docs-IsIndex index)
  IndexStep-IsIndex index next v (enriching key given) =
      reindex-IsIndex key (values index.docs) _
        (noted-IsIndex index (note_enrichment lower nfd key given index) refl refl refl v)
  IndexStep-IsIndex index next v (removing doc_id) =
      remove_document-IsIndex lower nfd doc_id index v
  IndexStep-IsIndex index next v clearing = no_docs-IsIndex index
  IndexStep-IsIndex index next v scrubbing = no_docs-IsIndex empty_index

  -- In every state that the operations reach, a token leads to exactly the stored documents whose
  -- tokens hold it, what is prepared is that of the stored documents, and each is under its own id.
  pub IndexReached-IsIndex :
      (index : VaultSearchIndex) → IndexReached index → IsIndex lower nfd index
  unfolding clear
  IndexReached-IsIndex index created = no_docs-IsIndex empty_index
  IndexReached-IsIndex index (stepped before _ reached step) =
      IndexStep-IsIndex before index (IndexReached-IsIndex before reached) step
