-- ===== src/Search/Query.antt =====
-- `search`: the candidates of each query token, their scores, the order and the excerpt.
use vault_drive.Base.{
  ℕ, ◌+◌, ◌-◌, Bool, true, false, not, ◌&&◌, String, Option, none, some, List, [], ◌∷◌, ◌++◌,
  filter, ltb, if◌then◌else◌, get_or, min, length, take, is_empty, ◌==◌, number_eq, list_eq,
  text_eq,
}
use vault_drive.Base.JsMap.{JsMap, get, set}
use vault_drive.Base.JsSet.{add, add_all}
use vault_drive.Base.JsText.{Text, slice, includes, index_of, trim, text_less}
use vault_drive.Base.Sorting.{sort}
use vault_drive.Search.Terms.{normalize_search_term, raw_tokens}
use vault_drive.Search.Index.{IndexDocument, PreparedDoc, VaultSearchIndex, with_text, with_some}

pub record SearchMatch : Type 0 where
  pub doc : IndexDocument
  pub score : ℕ
  pub matched_fields : List String
  pub snippet : Option Text

pub record Entry : Type 0 where
  pub score : ℕ
  pub matched_fields : List String
  pub hit_token : Option Text

abbrev pub start : Entry
start = record { score = 0; matched_fields = []; hit_token = none }

abbrev pub hit : ℕ → String → Entry → Entry
hit points field entry = record entry {
  score = entry.score + points;
  matched_fields = add field entry.matched_fields;
}

-- The tokens that contain the query's token, with all their documents.
unfoldable pub scan_tokens : Text → JsMap Text (List Text) → List Text → List Text
scan_tokens q_token [] found = found
scan_tokens q_token ((idx_token, doc_ids) ∷ tokens) found =
    scan_tokens q_token tokens (if includes idx_token q_token then add_all doc_ids found else found)

unfoldable pub matched_doc_ids : VaultSearchIndex → Text → List Text
unfolding scan_tokens
matched_doc_ids index q_token =
    let lookup_key = if ltb 12 (length q_token) then slice 0 12 q_token else q_token in
    let direct_set = get_or (get lookup_key index.token_map) [] in
    if is_empty direct_set then scan_tokens q_token index.token_map [] else add_all direct_set []

unfoldable pub score_filename : Text → Text → PreparedDoc → Entry → Entry
score_filename raw_norm q_token prepared entry =
    if prepared.norm_filename == raw_norm
    then hit 120 "filename_exact" entry
    else if includes prepared.norm_filename raw_norm
    then hit 60 "filename" entry
    else if includes prepared.norm_filename q_token
    then hit 35 "filename" entry
    else entry

unfoldable pub score_tags : Text → List Text → Entry → Entry
score_tags q_token [] entry = entry
score_tags q_token (norm_tag ∷ tags) entry = score_tags q_token tags (
    if norm_tag == q_token
    then hit 45 "tags" entry
    else if includes norm_tag q_token
    then hit 30 "tags" entry
    else entry)

-- `if (field && field.includes(qToken))`
unfoldable pub score_field : ℕ → String → Text → Text → Entry → Entry
score_field points name q_token field entry =
    if not (is_empty field) && includes field q_token then hit points name entry else entry

unfoldable pub score_snippet : Text → PreparedDoc → Entry → Entry
score_snippet q_token prepared entry =
    if not (is_empty prepared.norm_snippet) && includes prepared.norm_snippet q_token
    then record (hit 20 "content" entry) {
      hit_token =
          if with_text entry.hit_token (λ t. true) false then entry.hit_token else some q_token;
    }
    else entry

unfoldable pub score_doc : Text → Text → PreparedDoc → Entry → Entry
unfolding score_filename score_tags score_field score_snippet
score_doc raw_norm q_token prepared entry =
    let by_name = score_filename raw_norm q_token prepared entry in
    let by_tags = score_tags q_token prepared.norm_tags by_name in
    let by_type = score_field 25 "type" q_token prepared.norm_type by_tags in
    let by_folder = score_field 20 "folder" q_token prepared.norm_folder by_type in
    let by_sha = score_field 50 "sha256" q_token prepared.sha_lower by_folder in
    score_snippet q_token prepared by_sha

-- The loop over one token's documents, and one round of it.
unfoldable pub score_one :
    VaultSearchIndex → Text → Text → JsMap Text Entry → Text → JsMap Text Entry
unfolding score_doc
score_one index raw_norm q_token scores doc_id = elim (get doc_id index.prepared_docs) [
  | none ↦ scores
  | some prepared ↦
      set doc_id (score_doc raw_norm q_token prepared (get_or (get doc_id scores) start)) scores
]

unfoldable pub score_docs :
    VaultSearchIndex → Text → Text → JsMap Text Entry → List Text → JsMap Text Entry
unfolding score_one
score_docs index raw_norm q_token scores [] = scores
score_docs index raw_norm q_token scores (doc_id ∷ ids) =
    score_docs index raw_norm q_token (score_one index raw_norm q_token scores doc_id) ids

-- The loop over the query's tokens.
unfoldable pub score_tokens :
    VaultSearchIndex → Text → List Text → JsMap Text Entry → JsMap Text Entry
unfolding matched_doc_ids score_docs
score_tokens index raw_norm [] scores = scores
score_tokens index raw_norm (q_token ∷ tokens) scores =
    score_tokens index raw_norm tokens
      (score_docs index raw_norm q_token scores (matched_doc_ids index q_token))

abbrev pub filename_of : VaultSearchIndex → Text → Text
filename_of index doc_id = elim (get doc_id index.docs) [ none ↦ [] | some doc ↦ doc.filename ]

-- The comparator: the higher score first, then the name.
unfoldable pub precedes : VaultSearchIndex → Text × Entry → Text × Entry → Bool
precedes index a b =
    if b.1.score == a.1.score
    then text_less (filename_of index a.0) (filename_of index b.0)
    else ltb b.1.score a.1.score

unfoldable pub candidates : VaultSearchIndex → Text → List Text → ℕ → List (Text × Entry)
unfolding score_tokens precedes
candidates index raw_norm tokens limit =
    take limit (
      sort (precedes index) (filter (λ e. ltb 0 e.1.score) (score_tokens index raw_norm tokens [])))

module _ (lower nfd : Text → Text) where
  -- The part of the snippet around the token that was hit.
  unfoldable pub excerpt : VaultSearchIndex → Text → Text → Text → Text
  excerpt index doc_id snippet_text q_token =
      let raw_hit = index_of (lower snippet_text) q_token in
      let norm_hit : Option ℕ = elim (get doc_id index.prepared_docs) [
        | none ↦ none
        | some prepared ↦ index_of prepared.norm_snippet q_token
      ] in
      let center = get_or raw_hit (with_some norm_hit (λ n. min n (length snippet_text - 1)) 0) in
      let from = center - 30 in
      let to = min (length snippet_text) (center + length q_token + 55) in
      (if ltb 0 from then 8230 ∷ [] else [])
      ++ trim (slice from to snippet_text)
      ++ (if ltb to (length snippet_text) then 8230 ∷ [] else [])

  -- `none` is where the program reads a document that is not there.
  unfoldable pub match_of : VaultSearchIndex → Text × Entry → Option SearchMatch
  unfolding excerpt
  match_of index (doc_id, entry) = elim (get doc_id index.docs) [
    | none ↦ none
    | some doc ↦ some (record {
      doc = doc;
      score = entry.score;
      matched_fields = entry.matched_fields;
      snippet =
          with_text doc.snippet_text
            (λ s. with_text entry.hit_token (λ t. some (excerpt index doc_id s t)) none) none;
    })
  ]

  unfoldable pub matches_of : VaultSearchIndex → List (Text × Entry) → Option (List SearchMatch)
  unfolding match_of
  matches_of index [] = some []
  matches_of index (c ∷ cs) =
      with_some (match_of index c) (λ m. with_some (matches_of index cs) (λ ms. some (m ∷ ms)) none)
        none

  unfoldable pub search : Text → ℕ → VaultSearchIndex → Option (List SearchMatch)
  unfolding normalize_search_term raw_tokens candidates matches_of
  search query limit index =
      let raw_norm = normalize_search_term lower nfd query in
      if is_empty raw_norm
      then some []
      else if is_empty (raw_tokens lower nfd raw_norm)
      then some []
      else matches_of index (candidates index raw_norm (raw_tokens lower nfd raw_norm) limit)
