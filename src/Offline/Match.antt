-- ===== src/Offline/Match.antt =====
-- What `matchOfflineSyncResults` makes of the server's answers.
use vault_drive.Base.{
  get_elem?-map, ℕ, true, String, Option, none, some, List, [], ◌∷◌, ◌++◌, filter, filter-append,
  get_elem?, get_or, ◌≡◌, ◌≢◌, ◌↔◌, refl, sym, ap, ◌∙◌, append-nil, append_assoc, truthy_text,
  truthy_text_iff, ◌==◌, text_eq, option_eq, option_same_iff, arith, Option-cases, inl, inr,
}
use vault_drive.Base.JsMap.{JsMap, get, get-set}
use vault_drive.Offline.Sync.{
  SyncableOfflineAction, OfflineSyncResult, remove, group_step, group_results, only_one, outcome_of,
  match_offline_sync_results,
}

-- The results that name an action.
abbrev pub answers : String → List OfflineSyncResult → List OfflineSyncResult
answers id = filter (λ r. r.action_id == some id)

group_round :
    (id : String) (groups : JsMap String (List OfflineSyncResult)) (r : OfflineSyncResult)
    → truthy_text id ≡ true
    → get_or (get id (group_step groups r)) [] ≡ get_or (get id groups) [] ++ answers id (r ∷ [])
unfolding group_step
group_round id groups r h = elim (Option-cases r.action_id) [
  | inl missing ↦
      ground (arith, append-nil (get_or (get id groups) []), option_same_iff r.action_id (some id))
  | inr (other, e) ↦ ground (
    arith,
    get-set other id (get_or (get other groups) [] ++ r ∷ []) groups,
    text_eq.same_iff other id,
    option_same_iff r.action_id (some id),
    append-nil (get_or (get id groups) []),
  )
]

group_results-answers :
    (id : String) (results : List OfflineSyncResult)
    (groups : JsMap String (List OfflineSyncResult))
    → truthy_text id ≡ true
    → get_or (get id (group_results groups results)) []
      ≡ get_or (get id groups) [] ++ answers id results
unfolding group_results
group_results-answers id [] groups h = sym (append-nil _)
group_results-answers id (r ∷ results) groups h =
    group_results-answers id results (group_step groups r) h
    ∙ ap (λ t. t ++ answers id results) (group_round id groups r h)
    ∙ append_assoc _ (answers id (r ∷ [])) (answers id results)
    ∙ ap (λ t. get_or (get id groups) [] ++ t)
        (sym (filter-append (λ q. q.action_id == some id) (r ∷ []) results))

outcome_of-remove :
    (a : SyncableOfflineAction) (o : Option OfflineSyncResult)
    → (outcome_of a o ≡ remove a.id a.action_id) ↔ (
        (r : OfflineSyncResult) × (o ≡ some r)
        × (r.file_id ≡ some a.action.file_id)
        × (r.success ≡ some true))
unfolding outcome_of
outcome_of-remove a none = (λ e. cc, λ w. absurd (ground (arith, w.1)))
outcome_of-remove a (some r) = (
  λ e. (r, refl, ground (arith, option_same_iff r.file_id (some a.action.file_id)), ground arith),
  λ (q, same, file, success).
      ground (arith, same, file, success, option_same_iff r.file_id (some a.action.file_id)),
)

only_one_iff :
    (l : List OfflineSyncResult) (r : OfflineSyncResult) → (only_one l ≡ some r) ↔ (l ≡ r ∷ [])
only_one_iff [] r = ground arith
only_one_iff (q ∷ []) r = ground arith
only_one_iff (q ∷ p ∷ l) r = ground arith

get-nil :
    (id : String) {results : List OfflineSyncResult}
    → get_or (get {V = List OfflineSyncResult} id []) [] ++ results ≡ results
unfolding get
get-nil id = refl

match-outcome_of :
    (actions : List SyncableOfflineAction) (results : List OfflineSyncResult) (i : ℕ)
    (a : SyncableOfflineAction)
    → get_elem? actions i ≡ some a
    → a.action_id ≢ ""
    → get_elem? (match_offline_sync_results actions results) i
      ≡ some (outcome_of a (only_one (answers a.action_id results)))
unfolding match_offline_sync_results
match-outcome_of actions results i a e named =
    get_elem?-map _ actions i a e
    ∙ ap (λ l. some (outcome_of a (only_one l)))
        (group_results-answers a.action_id results [] ((truthy_text_iff a.action_id).1 named)
          ∙ get-nil a.action_id)

-- An action whose identifier is not empty is dropped from the queue exactly when the server gave one
-- answer for it and no more, for the same file, that says success.
pub match_offline_sync_results-remove :
    (actions : List SyncableOfflineAction) (results : List OfflineSyncResult) (i : ℕ)
    (a : SyncableOfflineAction)
    → get_elem? actions i ≡ some a
    → a.action_id ≢ ""
    → (get_elem? (match_offline_sync_results actions results) i ≡ some (remove a.id a.action_id))
      ↔ ((r : OfflineSyncResult) × (answers a.action_id results ≡ r ∷ [])
          × (r.file_id ≡ some a.action.file_id)
          × (r.success ≡ some true))
match_offline_sync_results-remove actions results i a e named =
    rw (match-outcome_of actions results i a e named) (
      (λ dropped.
          let (r, only, file, success) = (outcome_of-remove a _).0 (ground (arith, dropped)) in
          (r, (only_one_iff _ r).0 only, file, success)),
      (λ (r, answer, file, success).
          ap some ((outcome_of-remove a _).1 (r, (only_one_iff _ r).1 answer, file, success))),
    )
