-- ===== src/Search/Linked.antt =====
-- The tokens that lead to a document are those of its texts, through every operation.
use vault_drive.Base.{
  Bool, true, false, not, ◌&&◌, ◌||◌, none, some, List, [], ◌∷◌, ◌≡◌, inl, inr, if◌then◌else◌,
  get_or, arith, Bool-cases, ◌==◌, number_eq, list_eq, is_empty, list_same_iff, ==_refl,
}
use vault_drive.Base.JsMap.{JsMap, get, set, delete, has, keys, get-set, get-delete}
use vault_drive.Base.JsSet.{member, add, remove, member-add, member-remove, member-cons}
use vault_drive.Base.JsText.{Text}
use vault_drive.Search.Index.{
  IndexDocument, VaultSearchIndex, with_some, all_tokens, clean_token, clean_tokens,
  remove_document, link_tokens, put_document, prepare,
}

-- Does the token lead to the document?
unfoldable pub leads_to : JsMap Text (List Text) → Text → Text → Bool
leads_to tokens token id = member id (get_or (get token tokens) [])

leads_to-set :
    (tokens : JsMap Text (List Text)) (t token id : Text) (ids : List Text)
    → leads_to (set t ids tokens) token id
      ≡ (if t == token then member id ids else leads_to tokens token id)
unfolding leads_to
leads_to-set tokens t token id ids = ground (arith, get-set t token ids tokens)

leads_to-delete :
    (tokens : JsMap Text (List Text)) (t token id : Text)
    → leads_to (delete t tokens) token id ≡ (not (t == token) && leads_to tokens token id)
unfolding leads_to member
leads_to-delete tokens t token id = ground (arith, get-delete t token tokens)

leads_to-link_tokens :
    (doc_id : Text) (ts : List Text) (tokens : JsMap Text (List Text)) (token id : Text)
    → leads_to (link_tokens doc_id ts tokens) token id
      ≡ (leads_to tokens token id || doc_id == id && member token ts)
unfolding link_tokens leads_to member
leads_to-link_tokens doc_id [] tokens token id = ground arith
leads_to-link_tokens doc_id (t ∷ ts) tokens token id = ground (
  arith,
  leads_to-link_tokens doc_id ts (set t (add doc_id (get_or (get t tokens) [])) tokens) token id,
  leads_to-set tokens t token id (add doc_id (get_or (get t tokens) [])),
  member-add doc_id id (get_or (get t tokens) []),
  member-cons t token ts,
  list_same_iff t token,
)

leads_to-clean_token :
    (doc_id : Text) (tokens : JsMap Text (List Text)) (t token id : Text)
    → leads_to (clean_token doc_id tokens t) token id
      ≡ (leads_to tokens token id && not (t == token && doc_id == id))
unfolding clean_token
leads_to-clean_token doc_id tokens t token id =
    let kept = remove doc_id (get_or (get t tokens) []) in
    let member-kept = member-remove doc_id id (get_or (get t tokens) []) in
    elim (Bool-cases (is_empty kept)) [
      | inl gone ↦ rw gone (
          unfold leads_to member in
          ground
            (arith, gone, leads_to-delete tokens t token id, member-kept, list_same_iff t token))
      | inr left ↦ rw left (
          unfold leads_to in
          ground (arith, leads_to-set tokens t token id kept, member-kept, list_same_iff t token))
    ]

leads_to-clean_tokens :
    (doc_id : Text) (ts : List Text) (tokens : JsMap Text (List Text)) (token id : Text)
    → leads_to (clean_tokens doc_id tokens ts) token id
      ≡ (leads_to tokens token id && not (member token ts && doc_id == id))
unfolding clean_tokens member
leads_to-clean_tokens doc_id [] tokens token id = ground arith
leads_to-clean_tokens doc_id (t ∷ ts) tokens token id = ground (
  arith,
  leads_to-clean_tokens doc_id ts (clean_token doc_id tokens t) token id,
  leads_to-clean_token doc_id tokens t token id,
  member-cons t token ts,
)

leads_to-keys :
    (tokens : JsMap Text (List Text)) (token id : Text)
    → leads_to tokens token id ≡ true
    → member token (keys tokens) ≡ true
unfolding leads_to get member
leads_to-keys [] token id h = cc
leads_to-keys ((t, ids) ∷ tokens) token id h = ground (arith, leads_to-keys tokens token id)

-- A removed document is in no token's set, and the other documents keep theirs.
pub leads_to-remove_document :
    (doc_id : Text) (index : VaultSearchIndex) (token id : Text)
    → has doc_id index.docs ≡ true
    → leads_to (remove_document doc_id index).token_map token id
      ≡ (leads_to index.token_map token id && not (doc_id == id))
unfolding remove_document
leads_to-remove_document doc_id index token id there = rw there (
    ground (
      arith,
      leads_to-clean_tokens doc_id (keys index.token_map) index.token_map token id,
      leads_to-keys index.token_map token id,
    ))

module _ (lower nfd : Text → Text) where
  -- The maps agree: a token leads to exactly the stored documents that have it, and what is prepared
  -- is that of the stored documents.
  pub record IsIndex (index : VaultSearchIndex) : Type 0 where
    pub keyed : (id : Text) (doc : IndexDocument) → get id index.docs ≡ some doc → doc.id ≡ id
    pub linked :
        (token id : Text)
        → leads_to index.token_map token id
          ≡ with_some (get id index.docs) (λ doc. member token (all_tokens lower nfd doc)) false
    pub prepared :
        (id : Text)
        → get id index.prepared_docs
          ≡ with_some (get id index.docs) (λ doc. some (prepare lower nfd doc)) none

  pub remove_document-IsIndex :
      (doc_id : Text) (index : VaultSearchIndex)
      → IsIndex index
      → IsIndex (remove_document doc_id index)
  unfolding remove_document
  remove_document-IsIndex doc_id index v = elim (Bool-cases (has doc_id index.docs)) [
    | inl there ↦
        rw (remove_document, there)
          (record {
            keyed = λ id doc e. v.keyed id doc (ground (arith, e, get-delete doc_id id index.docs));
            linked = λ token id. ground (
              arith,
              leads_to-clean_tokens doc_id (keys index.token_map) index.token_map token id,
              leads_to-keys index.token_map token id,
              v.linked token id,
              get-delete doc_id id index.docs,
            );
            prepared = λ id. ground (
              arith,
              v.prepared id,
              get-delete doc_id id index.docs,
              get-delete doc_id id index.prepared_docs,
            );
          })
    | inr missing ↦ rw (remove_document, missing) v
  ]

  -- Once removed, the document is not stored.
  pub get-remove_document :
      (doc_id : Text) (index : VaultSearchIndex)
      → get doc_id (remove_document doc_id index).docs ≡ none
  unfolding remove_document has
  get-remove_document doc_id index =
      ground (arith, get-delete doc_id doc_id index.docs, ==_refl doc_id)

  pub put_document-IsIndex :
      (doc : IndexDocument) (index : VaultSearchIndex)
      → IsIndex index
      → IsIndex (put_document lower nfd doc index)
  unfolding put_document
  put_document-IsIndex doc index v =
      let cleared = remove_document doc.id index in
      let v' = remove_document-IsIndex doc.id index v in
      let fresh = get-remove_document doc.id index in
      record {
        keyed = λ id other e. ground (
          arith,
          e,
          get-set doc.id id doc cleared.docs,
          list_same_iff doc.id id,
          v'.keyed id other,
        );
        linked = λ token id. ground (
          arith,
          leads_to-link_tokens doc.id (all_tokens lower nfd doc) cleared.token_map token id,
          v'.linked token id,
          get-set doc.id id doc cleared.docs,
          list_same_iff doc.id id,
          fresh,
        );
        prepared = λ id. ground (
          arith,
          get-set doc.id id doc cleared.docs,
          get-set doc.id id (prepare lower nfd doc) cleared.prepared_docs,
          v'.prepared id,
        );
      }
