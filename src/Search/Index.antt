-- ===== src/Search/Index.antt =====
-- The class `VaultSearchIndex`: its maps, and every operation that changes them.
use vault_drive.Base.{
  ℕ, Bool, false, not, ◌&&◌, ◌||◌, Option, none, some, List, [], ◌∷◌, ◌++◌, map, if◌then◌else◌,
  get_or, is_some, length, is_empty, ◌==◌, number_eq, list_eq,
}
use vault_drive.Base.JsMap.{JsMap, get, set, delete, has, keys, values}
use vault_drive.Base.JsSet.{add, of_list, remove}
use vault_drive.Base.JsText.{Text, slice}
use vault_drive.Search.Terms.{normalize_search_term, tokenize_text}

pub record IndexDocument : Type 0 where
  pub id : Text
  pub filename : Text
  pub folder_id : Option Text
  pub folder_name : Option Text
  pub tags : Option (List Text)
  pub snippet_text : Option Text
  pub filesize : ℕ
  pub mime_type : Option Text
  pub updated_at : Option Text
  pub sha256 : Option Text
  pub credential_scheme : Option Text
  pub detected_type : Option Text

-- What is kept of the enrichments.
pub record DocumentEnrichment : Type 0 where
  pub tags : Option (List Text)
  pub snippet_text : Option Text
  pub mime_type : Option Text
  pub sha256 : Option Text
  pub detected_type : Option Text

-- An enrichment as it is given: a field may be left out, or be there as `undefined`.
pub record GivenEnrichment : Type 0 where
  pub tags : Option (List Text)
  pub snippet_text : Option (Option Text)
  pub mime_type : Option (Option Text)
  pub sha256 : Option (Option Text)
  pub detected_type : Option (Option Text)

pub record EnrichmentKey : Type 0 where
  pub id : Option Text
  pub filename : Option Text

pub record PreparedDoc : Type 0 where
  pub norm_filename : Text
  pub norm_folder : Text
  pub norm_type : Text
  pub norm_tags : List Text
  pub norm_snippet : Text
  pub sha_lower : Text

pub record VaultSearchIndex : Type 0 where
  pub docs : JsMap Text IndexDocument
  pub prepared_docs : JsMap Text PreparedDoc
  pub token_map : JsMap Text (List Text)
  pub enrichment_by_id : JsMap Text DocumentEnrichment
  pub enrichment_by_filename : JsMap Text DocumentEnrichment

abbrev pub empty_index : VaultSearchIndex
empty_index = record {
  docs = [];
  prepared_docs = [];
  token_map = [];
  enrichment_by_id = [];
  enrichment_by_filename = [];
}

-- `a ?? b`, as an optional value.
abbrev pub or_else {ℓ} : {A : Type ℓ} → Option A → Option A → Option A
or_else none b = b
or_else (some a) b = some a

-- `o ? f(o) : d` for an optional text.
abbrev pub with_text {ℓ} : {A : Type ℓ} → Option Text → (Text → A) → A → A
with_text none f d = d
with_text (some t) f d = if is_empty t then d else f t

abbrev pub with_some {ℓ κ} : {A : Type ℓ} {B : Type κ} → Option A → (A → B) → B → B
with_some none f d = d
with_some (some a) f d = f a

abbrev pub flat_map {ℓ κ} : {A : Type ℓ} {B : Type κ} → (A → List B) → List A → List B
flat_map f [] = []
flat_map f (x ∷ xs) = f x ++ flat_map f xs

abbrev pub no_enrichment : DocumentEnrichment
no_enrichment = record {
  tags = none;
  snippet_text = none;
  mime_type = none;
  sha256 = none;
  detected_type = none;
}

-- `{ ...doc, tags: …, snippetText: byId?.snippetText ?? byName?.snippetText ?? doc.snippetText, … }`
unfoldable pub merge_enrichment :
    DocumentEnrichment → DocumentEnrichment → IndexDocument → IndexDocument
merge_enrichment by_id by_name doc =
    let merged_tags =
      of_list (get_or doc.tags [] ++ get_or by_name.tags [] ++ get_or by_id.tags []) in
    record doc {
      tags = if is_empty merged_tags then doc.tags else some merged_tags;
      snippet_text = or_else by_id.snippet_text (or_else by_name.snippet_text doc.snippet_text);
      mime_type = or_else by_id.mime_type (or_else by_name.mime_type doc.mime_type);
      sha256 = or_else by_id.sha256 (or_else by_name.sha256 doc.sha256);
      detected_type = or_else by_id.detected_type (or_else by_name.detected_type doc.detected_type);
    }

-- `removeDocument`'s round for one token: its set loses the document, and goes if it is empty.
unfoldable pub clean_token : Text → JsMap Text (List Text) → Text → JsMap Text (List Text)
clean_token doc_id tokens token =
    let set' = remove doc_id (get_or (get token tokens) []) in
    if is_empty set' then delete token tokens else set token set' tokens

unfoldable pub clean_tokens : Text → JsMap Text (List Text) → List Text → JsMap Text (List Text)
unfolding clean_token
clean_tokens doc_id tokens [] = tokens
clean_tokens doc_id tokens (token ∷ rest) =
    clean_tokens doc_id (clean_token doc_id tokens token) rest

unfoldable pub remove_document : Text → VaultSearchIndex → VaultSearchIndex
unfolding clean_tokens
remove_document doc_id index =
    if has doc_id index.docs
    then record index {
      docs = delete doc_id index.docs;
      prepared_docs = delete doc_id index.prepared_docs;
      token_map = clean_tokens doc_id index.token_map (keys index.token_map);
    }
    else index

-- The loop of `addDocument` that enters the document's tokens.
unfoldable pub link_tokens : Text → List Text → JsMap Text (List Text) → JsMap Text (List Text)
link_tokens doc_id [] tokens = tokens
link_tokens doc_id (token ∷ rest) tokens =
    link_tokens doc_id rest (set token (add doc_id (get_or (get token tokens) [])) tokens)

module _ (lower nfd : Text → Text) where
  unfoldable pub apply_enrichment : VaultSearchIndex → IndexDocument → IndexDocument
  unfolding merge_enrichment
  apply_enrichment index doc =
      let by_id = get doc.id index.enrichment_by_id in
      let by_name = get (lower doc.filename) index.enrichment_by_filename in
      if not (is_some by_id) && not (is_some by_name)
      then doc
      else merge_enrichment (get_or by_id no_enrichment) (get_or by_name no_enrichment) doc

  unfoldable pub prepare : IndexDocument → PreparedDoc
  prepare doc = record {
    norm_filename = normalize_search_term lower nfd doc.filename;
    norm_folder = with_text doc.folder_name (normalize_search_term lower nfd) [];
    norm_type = with_text doc.detected_type (normalize_search_term lower nfd) [];
    norm_tags = with_some doc.tags (map (normalize_search_term lower nfd)) [];
    norm_snippet = with_text doc.snippet_text (normalize_search_term lower nfd) [];
    sha_lower = with_text doc.sha256 lower [];
  }

  unfoldable pub all_tokens : IndexDocument → List Text
  all_tokens doc = of_list (
      tokenize_text lower nfd doc.filename
      ++ with_text doc.folder_name (tokenize_text lower nfd) []
      ++ with_some doc.tags (flat_map (tokenize_text lower nfd)) []
      ++ with_text doc.snippet_text (tokenize_text lower nfd) []
      ++ with_text doc.detected_type (tokenize_text lower nfd) []
      ++ with_text doc.sha256 (λ sha. slice 0 12 (lower sha) ∷ lower sha ∷ []) [])

  -- `addDocument` after the enrichment.
  unfoldable pub put_document : IndexDocument → VaultSearchIndex → VaultSearchIndex
  unfolding remove_document prepare all_tokens link_tokens
  put_document doc index =
      let cleared = remove_document doc.id index in
      record cleared {
        docs = set doc.id doc cleared.docs;
        prepared_docs = set doc.id (prepare doc) cleared.prepared_docs;
        token_map = link_tokens doc.id (all_tokens doc) cleared.token_map;
      }

  unfoldable pub add_document : IndexDocument → VaultSearchIndex → VaultSearchIndex
  unfolding apply_enrichment put_document
  add_document raw_doc index = put_document (apply_enrichment index raw_doc) index

  unfoldable pub add_documents : List IndexDocument → VaultSearchIndex → VaultSearchIndex
  unfolding add_document
  add_documents [] index = index
  add_documents (doc ∷ docs) index = add_documents docs (add_document doc index)

  unfoldable pub clear : VaultSearchIndex → VaultSearchIndex
  clear index = record index { docs = []; prepared_docs = []; token_map = [] }

  unfoldable pub sync_documents : List IndexDocument → VaultSearchIndex → VaultSearchIndex
  unfolding add_documents clear
  sync_documents docs index = add_documents docs (clear index)

  -- `{ ...prev, ...enrichment, tags: … }`
  unfoldable pub enriched : DocumentEnrichment → GivenEnrichment → DocumentEnrichment
  enriched prev given = record {
    tags = some (of_list (get_or prev.tags [] ++ get_or given.tags []));
    snippet_text = get_or given.snippet_text prev.snippet_text;
    mime_type = get_or given.mime_type prev.mime_type;
    sha256 = get_or given.sha256 prev.sha256;
    detected_type = get_or given.detected_type prev.detected_type;
  }

  unfoldable pub enrich_entry :
      Text → GivenEnrichment → JsMap Text DocumentEnrichment → JsMap Text DocumentEnrichment
  unfolding enriched
  enrich_entry key given m = set key (enriched (get_or (get key m) no_enrichment) given) m

  abbrev pub matches_key : EnrichmentKey → IndexDocument → Bool
  matches_key key doc =
      with_text key.id (λ id. doc.id == id) false
      || with_text key.filename (λ name. lower doc.filename == lower name) false

  -- The loop that enters the matching documents again.
  unfoldable pub reindex : EnrichmentKey → List IndexDocument → VaultSearchIndex → VaultSearchIndex
  unfolding add_document
  reindex key [] index = index
  reindex key (doc ∷ docs) index =
      reindex key docs (if matches_key key doc then add_document doc index else index)

  -- The first part of `enrichDocument`: both maps take the enrichment.
  unfoldable pub note_enrichment :
      EnrichmentKey → GivenEnrichment → VaultSearchIndex → VaultSearchIndex
  unfolding enrich_entry
  note_enrichment key given index = record index {
    enrichment_by_id =
        with_text key.id (λ id. enrich_entry id given index.enrichment_by_id)
          index.enrichment_by_id;
    enrichment_by_filename =
        with_text key.filename
          (λ name. enrich_entry (lower name) given index.enrichment_by_filename)
          index.enrichment_by_filename;
  }

  unfoldable pub enrich_document :
      EnrichmentKey → GivenEnrichment → VaultSearchIndex → VaultSearchIndex
  unfolding note_enrichment reindex
  enrich_document key given index =
      reindex key (values index.docs) (note_enrichment key given index)

  unfoldable pub scrub : VaultSearchIndex → VaultSearchIndex
  scrub index = empty_index

  unfoldable pub size : VaultSearchIndex → ℕ
  size index = length index.docs

  unfoldable pub get_document : Text → VaultSearchIndex → Option IndexDocument
  get_document doc_id index = get doc_id index.docs
