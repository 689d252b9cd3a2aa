-- ===== src/Search/Results.antt =====
-- What a search gives: stored documents, the best first, no more than asked for.
use vault_drive.Base.{
  ℕ, suc, ◌≤◌, ◌<◌, true, false, some, List, [], ◌∷◌, ◌≡◌, refl, ap, ◌∙◌, inl, inr, is_some,
  is_empty, arith, Bool-cases, Option-cases, ltb, length, length-take, filter, All, All-map,
  All-take, All-filter, list_eq, number_eq,
}
use vault_drive.Base.JsMap.{JsMap, get, All-set}
use vault_drive.Base.JsText.{Text, text_less_asymmetric, text_less_trans}
use vault_drive.Base.Sorting.{sort, Sorted, sort-Sorted, All-sort, Sorted-take}
use vault_drive.Search.Terms.{normalize_search_term, raw_tokens}
use vault_drive.Search.Index.{VaultSearchIndex}
use vault_drive.Search.Query.{
  SearchMatch, Entry, score_one, score_docs, score_tokens, precedes, filename_of, candidates,
  matched_doc_ids, match_of, matches_of, search,
}
use vault_drive.Search.Linked.{IsIndex}

precedes_asymmetric :
    (index : VaultSearchIndex) (a b : Text × Entry)
    → precedes index a b ≡ true
    → precedes index b a ≡ false
unfolding precedes
precedes_asymmetric index a b h =
    ground (arith, text_less_asymmetric (filename_of index a.0) (filename_of index b.0))

precedes_trans :
    (index : VaultSearchIndex) (a b c : Text × Entry)
    → precedes index b a ≡ false
    → precedes index c b ≡ false
    → precedes index c a ≡ false
unfolding precedes
precedes_trans index a b c h k =
    ground (
      arith,
      text_less_trans (filename_of index a.0) (filename_of index b.0) (filename_of index c.0),
    )

-- The candidate is prepared, hence stored.
abbrev IsPrepared : VaultSearchIndex → Text × Entry → Type 0
IsPrepared index e = is_some (get e.0 index.prepared_docs) ≡ true

score_one-IsPrepared :
    (index : VaultSearchIndex) (raw_norm q_token : Text) (scores : JsMap Text Entry) (id : Text)
    → All (IsPrepared index) scores
    → All (IsPrepared index) (score_one index raw_norm q_token scores id)
unfolding score_one
score_one-IsPrepared index raw_norm q_token scores id h =
    elim (Option-cases (get id index.prepared_docs)) [
      | inl missing ↦ rw (score_one, missing) h
      | inr (prepared, found) ↦
          rw (score_one, found) (All-set (IsPrepared index) id _ scores (rw found refl) h)
    ]

score_docs-IsPrepared :
    (index : VaultSearchIndex) (raw_norm q_token : Text) (ids : List Text)
    (scores : JsMap Text Entry)
    → All (IsPrepared index) scores
    → All (IsPrepared index) (score_docs index raw_norm q_token scores ids)
unfolding score_docs
score_docs-IsPrepared index raw_norm q_token [] scores h = h
score_docs-IsPrepared index raw_norm q_token (id ∷ ids) scores h =
    score_docs-IsPrepared index raw_norm q_token ids _
      (score_one-IsPrepared index raw_norm q_token scores id h)

score_tokens-IsPrepared :
    (index : VaultSearchIndex) (raw_norm : Text) (tokens : List Text) (scores : JsMap Text Entry)
    → All (IsPrepared index) scores
    → All (IsPrepared index) (score_tokens index raw_norm tokens scores)
unfolding score_tokens
score_tokens-IsPrepared index raw_norm [] scores h = h
score_tokens-IsPrepared index raw_norm (t ∷ tokens) scores h =
    score_tokens-IsPrepared index raw_norm tokens _
      (score_docs-IsPrepared index raw_norm t (matched_doc_ids index t) scores h)

-- A candidate that may be shown.
abbrev IsCandidate : VaultSearchIndex → Text × Entry → Type 0
IsCandidate index e = IsPrepared index e × (ltb 0 e.1.score ≡ true)

candidates-IsCandidate :
    (index : VaultSearchIndex) (raw_norm : Text) (tokens : List Text) (limit : ℕ)
    → All (IsCandidate index) (candidates index raw_norm tokens limit)
unfolding candidates
candidates-IsCandidate index raw_norm tokens limit =
    let scores = score_tokens index raw_norm tokens [] in
    let scored =
      All-filter (IsPrepared index) (λ e. ltb 0 e.1.score) scores
        (score_tokens-IsPrepared index raw_norm tokens [] tt) in
    All-take (IsCandidate index) limit _
      (All-sort (precedes index) (IsCandidate index) (filter (λ e. ltb 0 e.1.score) scores) scored)

candidates-Sorted :
    (index : VaultSearchIndex) (raw_norm : Text) (tokens : List Text) (limit : ℕ)
    → Sorted (precedes index) (candidates index raw_norm tokens limit)
unfolding candidates
candidates-Sorted index raw_norm tokens limit =
    Sorted-take (precedes index) limit _
      (sort-Sorted (precedes index) (precedes_asymmetric index) (precedes_trans index) _)

length-candidates :
    (index : VaultSearchIndex) (raw_norm : Text) (tokens : List Text) (limit : ℕ)
    → length (candidates index raw_norm tokens limit) ≤ limit
unfolding candidates
length-candidates index raw_norm tokens limit = omega (
  arith,
  length-take limit (
      sort (precedes index)
        (filter (λ e. ltb 0 e.1.score) (score_tokens index raw_norm tokens []))),
)

-- A match is of a stored document and has points.
pub record IsMatch (index : VaultSearchIndex) (m : SearchMatch) : Type 0 where
  stored : get m.doc.id index.docs ≡ some m.doc
  scored : 0 < m.score

-- The scores descend.
abbrev pub Descending : List SearchMatch → Type 0
Descending [] = Unit
Descending (m ∷ ms) = All (λ n. n.score ≤ m.score) ms × Descending ms

-- What `matches_of` makes of candidates.
record Shown (index : VaultSearchIndex) (cs : List (Text × Entry)) (ms : List SearchMatch)
    : Type 0 where
  as_many : length ms ≡ length cs
  matching : All (IsMatch index) ms
  bounded : (s : ℕ) → All (λ e. e.1.score ≤ s) cs → All (λ m. m.score ≤ s) ms
  descending : Descending ms

precedes-score :
    (index : VaultSearchIndex) (a b : Text × Entry)
    → precedes index a b ≡ false
    → a.1.score ≤ b.1.score
unfolding precedes
precedes-score index a b h = ground arith

module _ (lower nfd : Text → Text) (index : VaultSearchIndex) (v : IsIndex lower nfd index) where
  match_of-stored :
      (c : Text × Entry)
      → IsCandidate index c
      → (m : SearchMatch) × (match_of lower nfd index c ≡ some m)
        × (m.score ≡ c.1.score)
        × (get m.doc.id index.docs ≡ some m.doc)
  unfolding match_of
  match_of-stored (id, entry) (prepared, scored) = elim (Option-cases (get id index.docs)) [
    | inl missing ↦ absurd (ground (arith, missing, prepared, v.prepared id))
    | inr (doc, found) ↦
        rw (match_of, found)
          (_, refl, refl, ap (λ i. get i index.docs) (v.keyed id doc found) ∙ found)
  ]

  matches_of-Shown :
      (cs : List (Text × Entry))
      → All (IsCandidate index) cs
      → Sorted (precedes index) cs
      → (ms : List SearchMatch) × (matches_of lower nfd index cs ≡ some ms) × Shown index cs ms
  unfolding matches_of
  matches_of-Shown [] h s =
      ([], refl, record { as_many = refl; matching = tt; bounded = λ k b. tt; descending = tt })
  matches_of-Shown (c ∷ cs) (h, hs) (above, s) =
      let (m, e, score, stored) = match_of-stored c h in
      let (ms, es, shown) = matches_of-Shown cs hs s in
      (
        m ∷ ms,
        rw (e, es) refl,
        record {
          as_many = ap suc shown.as_many;
          matching =
              (record { stored = stored; scored = ground (arith, score, h.1) }, shown.matching);
          bounded = λ k (b, bs). (ground (arith, score, b), shown.bounded k bs);
          descending = (
            shown.bounded m.score
                (All-map cs (λ y e'. omega (arith, score, precedes-score index y c e')) above),
            shown.descending,
          );
        },
      )

  -- On an index whose maps agree, a search gives a list, never a failed read: no more matches than
  -- the limit, each a stored document with a positive score, and the scores descend.
  pub search-IsMatch :
      (query : Text) (limit : ℕ)
      → (ms : List SearchMatch) × (search lower nfd query limit index ≡ some ms)
        × (length ms ≤ limit)
        × All (IsMatch index) ms
        × Descending ms
  unfolding search
  search-IsMatch query limit =
      let raw_norm = normalize_search_term lower nfd query in
      let tokens = raw_tokens lower nfd raw_norm in
      elim (Bool-cases (is_empty raw_norm)) [
        | inl nothing ↦ rw nothing ([], refl, omega arith, tt, tt)
        | inr something ↦ elim (Bool-cases (is_empty tokens)) [
          | inl no_tokens ↦ rw (something, no_tokens) ([], refl, omega arith, tt, tt)
          | inr some_tokens ↦
              let (ms, e, shown) =
                matches_of-Shown (candidates index raw_norm tokens limit)
                  (candidates-IsCandidate index raw_norm tokens limit)
                  (candidates-Sorted index raw_norm tokens limit) in
              rw (something, some_tokens)
                (
                  ms,
                  e,
                  omega (arith, shown.as_many, length-candidates index raw_norm tokens limit),
                  shown.matching,
                  shown.descending,
                )
        ]
      ]
