-- ===== src/Offline/Classify.antt =====
-- What `classifyOfflineActions` sends and what it holds back.
use vault_drive.Base.{
  Bool, not, ◌&&◌, String, Option, List, [], ◌∷◌, ◌++◌, map, filter, ◌≡◌, sym, append-nil,
  append_assoc, if◌then◌else◌, truthy, truthy_number, ◌==◌, option_eq, option_same_iff, text_eq,
  arith, Bool-cases, inl, inr,
}
use vault_drive.Offline.Sync.{
  OfflineAction, as_syncable, OfflineActionReview, Classified, is_pending, legacy, different_owner,
  needs_review, Reason, classify_step, classify_from, classify_offline_actions,
}

-- An action that may be sent: complete, of this owner, and still pending.
unfoldable pub is_sendable : Option String → OfflineAction → Bool
is_sendable owner a =
    truthy_number a.id
    && truthy a.action_id
    && truthy owner
    && a.owner_id == owner
    && is_pending a.status

-- Why an action is held back.
unfoldable pub reason_of : Option String → OfflineAction → Reason
reason_of owner a =
    if truthy_number a.id && truthy a.action_id && truthy a.owner_id
    then (if truthy owner && a.owner_id == owner then needs_review else different_owner)
    else legacy

abbrev pub reviewed : Option String → OfflineAction → OfflineActionReview
reviewed owner a = record { action = a; reason = reason_of owner a }

classify_step-sendable :
    (owner : Option String) (c : Classified) (a : OfflineAction)
    → classify_step owner c a ≡ (
        if is_sendable owner a
        then record c { ready = c.ready ++ as_syncable a ∷ [] }
        else record c { review = c.review ++ reviewed owner a ∷ [] })
unfolding classify_step is_sendable reason_of
classify_step-sendable owner c a = ground (arith, option_same_iff a.owner_id owner)

classify_from-filter :
    (owner : Option String) (actions : List OfflineAction) (c : Classified)
    → ((classify_from owner c actions).ready
        ≡ c.ready ++ map as_syncable (filter (is_sendable owner) actions))
      × ((classify_from owner c actions).review
          ≡ c.review ++ map (reviewed owner) (filter (λ a. not (is_sendable owner a)) actions))
unfolding classify_from
classify_from-filter owner [] c = (sym (append-nil _), sym (append-nil _))
classify_from-filter owner (a ∷ actions) c =
    let (ready, review) = classify_from-filter owner actions (classify_step owner c a) in
    elim (Bool-cases (is_sendable owner a)) [
      | inl yes_it_is ↦ ground (
        arith,
        classify_step-sendable owner c a,
        ready,
        review,
        append_assoc c.ready (as_syncable a ∷ [])
            (map as_syncable (filter (is_sendable owner) actions)),
      )
      | inr held ↦ ground (
        arith,
        classify_step-sendable owner c a,
        ready,
        review,
        append_assoc c.review (reviewed owner a ∷ [])
            (map (reviewed owner) (filter (λ b. not (is_sendable owner b)) actions)),
      )
    ]

-- The actions that are ready are, in order, exactly those that are complete, belong to the signed-in
-- owner and are pending; all others are held back, in order, each with the reason that applies.
pub classify_offline_actions-partition :
    (actions : List OfflineAction) (owner : Option String)
    → ((classify_offline_actions actions owner).ready
        ≡ map as_syncable (filter (is_sendable owner) actions))
      × ((classify_offline_actions actions owner).review
          ≡ map (reviewed owner) (filter (λ a. not (is_sendable owner a)) actions))
unfolding classify_offline_actions
classify_offline_actions-partition actions owner = classify_from-filter owner actions _
