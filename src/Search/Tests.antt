-- ===== src/Search/Tests.antt =====
-- Runs of the index on two files, and the instances of its theorems.
use vault_drive.Base.{
  ℕ, ◌≤◌, Bool, Option, none, some, List, [], ◌∷◌, ◌++◌, ◌≡◌, ◌≢◌, map, refl, length, All, arith,
  list_eq, number_eq, ap,
}
use vault_drive.Base.JsMap.{get}
use vault_drive.Base.JsText.{Text}
use vault_drive.Search.Terms.{normalize_search_term, tokenize_text}
use vault_drive.Search.Index.{
  IndexDocument, GivenEnrichment, VaultSearchIndex, empty_index, add_documents, sync_documents,
  enrich_document, remove_document,
}
use vault_drive.Search.Query.{SearchMatch, search}
use vault_drive.Search.Linked.{IsIndex}
use vault_drive.Search.Enriched.{
  IndexReached, created, stepped, adding_all, removing, IndexReached-IsIndex,
}
use vault_drive.Search.Sync.{sync_documents-enrich_document}
use vault_drive.Search.Results.{IsMatch, Descending, search-IsMatch}

-- Texts in lower case already.
abbrev as_is : Text → Text
as_is t = t

abbrev file : Text → Text → IndexDocument
file id filename = record {
  id = id;
  filename = filename;
  folder_id = none;
  folder_name = none;
  tags = none;
  snippet_text = none;
  filesize = 10;
  mime_type = none;
  updated_at = none;
  sha256 = none;
  credential_scheme = none;
  detected_type = none;
}

abbrev tax : Text
tax = b't' ∷ b'a' ∷ b'x' ∷ []

-- "tax 1.5" and "taxi"
abbrev tax_file : IndexDocument
tax_file = file (b'a' ∷ []) (tax ++ b' ' ∷ b'1' ∷ b'.' ∷ b'5' ∷ [])

abbrev taxi_file : IndexDocument
taxi_file = file (b'b' ∷ []) (tax ++ b'i' ∷ [])

abbrev two_files : VaultSearchIndex
two_files = add_documents as_is as_is (tax_file ∷ taxi_file ∷ []) empty_index

abbrev ids : Option (List SearchMatch) → List Text
ids none = []
ids (some ms) = map (λ m. m.doc.id) ms

normalized :
    normalize_search_term as_is as_is (b'$' ∷ b'1' ∷ b',' ∷ b'5' ∷ b'!' ∷ b'!' ∷ b'x' ∷ [])
    ≡ b'1' ∷ b'5' ∷ b' ' ∷ b'x' ∷ []
unfolding normalize_search_term vault_drive.Base.JsText.trim vault_drive.Base.JsText.is_word
normalized = refl

both_found : ids (search as_is as_is tax 20 two_files) ≡ (b'a' ∷ []) ∷ (b'b' ∷ []) ∷ []
unfolding search add_documents vault_drive.Base.JsText.trim vault_drive.Base.JsText.is_word
    vault_drive.Base.JsText.split vault_drive.Base.Sorting.sort get vault_drive.Base.JsSet.of_list
    tokenize_text vault_drive.Base.JsMap.has vault_drive.Base.JsMap.set
    vault_drive.Base.JsText.includes vault_drive.Base.JsText.text_less
both_found = refl

-- The number "1.5" is entered as "15", but no field of the file contains it.
joined_number : ids (search as_is as_is (b'1' ∷ b'5' ∷ []) 20 two_files) ≡ []
unfolding search add_documents vault_drive.Base.JsText.trim vault_drive.Base.JsText.is_word
    vault_drive.Base.JsText.split vault_drive.Base.Sorting.sort get vault_drive.Base.JsSet.of_list
    tokenize_text vault_drive.Base.JsMap.has vault_drive.Base.JsMap.set
    vault_drive.Base.JsText.includes
joined_number = refl

reached : IndexReached as_is as_is (remove_document (b'a' ∷ []) two_files)
reached =
    stepped two_files _
      (stepped empty_index two_files created (adding_all (tax_file ∷ taxi_file ∷ [])))
      (removing (b'a' ∷ []))

IndexReached-IsIndex_example : IsIndex as_is as_is (remove_document (b'a' ∷ []) two_files)
IndexReached-IsIndex_example =
    IndexReached-IsIndex as_is as_is (remove_document (b'a' ∷ []) two_files) reached

abbrev given : GivenEnrichment
given = record {
  tags = none;
  snippet_text = some (some tax);
  mime_type = none;
  sha256 = some none;
  detected_type = none;
}

sync_documents-enrich_document_example :
    (stored : IndexDocument) × (get
        (b'b' ∷ [])
        (sync_documents as_is as_is (taxi_file ∷ []) (
          enrich_document as_is as_is
            (record { id = some (b'b' ∷ []); filename = none })
            given
            two_files)).docs
      ≡ some stored)
    × (stored.snippet_text ≡ some tax)
sync_documents-enrich_document_example =
    sync_documents-enrich_document as_is as_is taxi_file none given tax two_files (ground arith)
      refl

search-IsMatch_example :
    (ms : List SearchMatch) × (search as_is as_is tax 1 (remove_document (b'a' ∷ []) two_files)
      ≡ some ms)
    × (length ms ≤ 1)
    × All (IsMatch (remove_document (b'a' ∷ []) two_files)) ms
    × Descending ms
search-IsMatch_example =
    search-IsMatch as_is as_is (remove_document (b'a' ∷ []) two_files) IndexReached-IsIndex_example
      tax 1
