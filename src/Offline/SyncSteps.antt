-- ===== src/Offline/SyncSteps.antt =====
-- What each part of `performSync` does to one stored action, whatever the server and the browser answer.
use vault_drive.Base.{
  ℕ, not, ◌||◌, is_true, text_eq, option_eq, String, Option, none, some, List, [], ◌∷◌, ◌≡◌, ◌⊎◌,
  inl, inr, refl, sym, ap, ◌∙◌, subst, Outcome-cases, Bool-cases, ◌==◌, number_eq, get_elem?, suc,
}
use vault_drive.Offline.Sync.{
  SyncableOfflineAction, OfflineSyncResult, OfflineSyncOutcome, remove, keep,
  match_offline_sync_results, outcome_of, OutcomeKind, failed, conflict, unknown,
}
use vault_drive.Offline.Queue.{OfflineQueue}
use vault_drive.Offline.Dashboard.{
  SyncResponse, network_error, http_error, no_results, results, SyncEnvironment, SyncRun,
  waiting_patch, outcome_patch, mark_all, apply_outcome, apply_outcomes, send_chunk, sync_chunk,
  sync_chunks,
}
use vault_drive.Offline.Fate.{
  stored, Fate, untouched, Fate-trans, update_queue_item-Fate, remove_queue_item-Fate,
}
use vault_drive.Base.{get_elem?-map_back}

pub outcome_of-shape :
    (a : SyncableOfflineAction) (r : Option OfflineSyncResult)
    → (outcome_of a r ≡ remove a.id a.action_id)
      ⊎ ((kind : OutcomeKind) × (error : String) × (outcome_of a r
            ≡ keep a.id a.action_id kind error))
unfolding outcome_of
outcome_of-shape a none = inr (unknown, _, refl)
outcome_of-shape a (some r) = elim (Bool-cases (not (r.file_id == some a.action.file_id))) [
  | inl other ↦ rw other (inr (unknown, _, refl))
  | inr same ↦ rw same (elim (Bool-cases (is_true r.success)) [
    | inl done ↦ rw done (inl refl)
    | inr undone ↦ rw undone (elim (Bool-cases (r.code == some "outcome_unknown")) [
      | inl lost ↦ rw lost (inr (unknown, _, refl))
      | inr known ↦
          rw known (elim (Bool-cases (is_true r.conflict || r.code == some "version_conflict")) [
            | inl clash ↦ rw clash (inr (conflict, _, refl))
            | inr rejected ↦ rw rejected (inr (failed, _, refl))
          ])
    ])
  ])
]

pub SyncResponse-cases :
    (r : SyncResponse)
    → ((e : String) × (r ≡ network_error e))
      ⊎ (((status : ℕ) × (r ≡ http_error status))
          ⊎ ((r ≡ no_results) ⊎ ((rs : List OfflineSyncResult) × (r ≡ results rs))))
SyncResponse-cases (network_error e) = inl (e, refl)
SyncResponse-cases (http_error status) = inr (inl (status, refl))
SyncResponse-cases no_results = inr (inr (inl refl))
SyncResponse-cases (results rs) = inr (inr (inr (rs, refl)))

pub match_back :
    (chunk : List SyncableOfflineAction) (rs : List OfflineSyncResult) (i : ℕ)
    (o : OfflineSyncOutcome)
    → get_elem? (match_offline_sync_results chunk rs) i ≡ some o
    → (a : SyncableOfflineAction) × (r : Option OfflineSyncResult) × (get_elem? chunk i ≡ some a)
      × (o ≡ outcome_of a r)
unfolding match_offline_sync_results
match_back chunk rs i o h = let (a, ha, ho) = get_elem?-map_back _ chunk i o h in (a, _, ha, ho)

module _ (P : Type 0) (R : Type 0) where
  mark_all-Fate :
      (env : SyncEnvironment) (at : String) (k : ℕ) (chunk : List SyncableOfflineAction)
      (q : OfflineQueue)
      → ((i : ℕ) (a : SyncableOfflineAction) → get_elem? chunk i ≡ some a → a.id ≡ k → P)
      → Fate P R (stored k q) (stored k (mark_all env at chunk q).1)
  unfolding mark_all
  mark_all-Fate env at k [] q p = untouched refl
  mark_all-Fate env at k (item ∷ chunk) q p =
      Fate-trans P R _ _ _
        (update_queue_item-Fate P R (env.marking item.id) k item.id (waiting_patch at) q
          (p 0 item refl))
        (mark_all-Fate env at k chunk _ (λ i. p (suc i)))

  -- An outcome that keeps the action `k` needs `P`, one that removes it `R`.
  abbrev Concerns : ℕ → OfflineSyncOutcome → Type 0
  Concerns k (remove id action_id) = id ≡ k → R
  Concerns k (keep id action_id kind error) = id ≡ k → P

  apply_outcome-Fate :
      (env : SyncEnvironment) (at : String) (k : ℕ) (outcome : OfflineSyncOutcome) (run : SyncRun)
      → Concerns k outcome
      → Fate P R (stored k run.queue) (stored k (apply_outcome env at outcome run).1.queue)
  unfolding apply_outcome
  apply_outcome-Fate env at k (remove id action_id) run r =
      remove_queue_item-Fate P R (env.settling id) k id run.queue r
  apply_outcome-Fate env at k (keep id action_id kind error) run p =
      update_queue_item-Fate P R (env.settling id) k id (outcome_patch kind error at) run.queue p

  apply_outcomes-Fate :
      (env : SyncEnvironment) (at : String) (k : ℕ) (outcomes : List OfflineSyncOutcome)
      (run : SyncRun)
      → ((i : ℕ) (o : OfflineSyncOutcome) → get_elem? outcomes i ≡ some o → Concerns k o)
      → Fate P R (stored k run.queue) (stored k (apply_outcomes env at outcomes run).1.queue)
  unfolding apply_outcomes
  apply_outcomes-Fate env at k [] run c = untouched refl
  apply_outcomes-Fate env at k (o ∷ outcomes) run c =
      let first = apply_outcome-Fate env at k o run (c 0 o refl) in
      let rest =
        apply_outcomes-Fate env at k outcomes (apply_outcome env at o run).1 (λ i. c (suc i)) in
      elim (Outcome-cases (apply_outcome env at o run).0) [
        | inl (e, fails) ↦ rw (apply_outcomes, fails) first
        | inr (u, goes) ↦ rw (apply_outcomes, goes) (Fate-trans P R _ _ _ first rest)
      ]

  outcome_of-Concerns :
      (k : ℕ) (a : SyncableOfflineAction) (r : Option OfflineSyncResult)
      → (a.id ≡ k → P)
      → (outcome_of a r ≡ remove a.id a.action_id → a.id ≡ k → R)
      → Concerns k (outcome_of a r)
  outcome_of-Concerns k a r p q = elim (outcome_of-shape a r) [
    | inl removes ↦ rw removes (q removes)
    | inr (kind, error, keeps) ↦ rw keeps p
  ]

  send_chunk-Fate :
      (env : SyncEnvironment) (k : ℕ) (chunk : List SyncableOfflineAction) (run : SyncRun)
      → ((i : ℕ) (a : SyncableOfflineAction) → get_elem? chunk i ≡ some a → a.id ≡ k → P)
      → ((rs : List OfflineSyncResult) (i : ℕ) (a : SyncableOfflineAction)
          → env.respond chunk ≡ results rs
          → get_elem? chunk i ≡ some a
          → get_elem? (match_offline_sync_results chunk rs) i ≡ some (remove a.id a.action_id)
          → a.id ≡ k
          → R)
      → Fate P R (stored k run.queue) (stored k (send_chunk env chunk run).1.queue)
  unfolding send_chunk
  send_chunk-Fate env k chunk run p r = elim (SyncResponse-cases (env.respond chunk)) [
    | inl (e, fails) ↦ rw (send_chunk, fails) (untouched refl)
    | inr (inl (status, fails)) ↦ rw (send_chunk, fails) (untouched refl)
    | inr (inr (inl fails)) ↦ rw (send_chunk, fails) (untouched refl)
    | inr (inr (inr (rs, answered))) ↦
        rw (send_chunk, answered)
          (apply_outcomes-Fate env (env.attempted_at chunk) k (match_offline_sync_results chunk rs)
            _
            λ i o h.
              let (a, r', ha, ho) = match_back chunk rs i o h in
              subst (Concerns k) (sym ho) (
                outcome_of-Concerns k a r' (p i a ha)
                  (λ removes. r rs i a answered ha (h ∙ ap some (ho ∙ removes)))))
  ]

  -- Where `P` holds of the keys of a chunk, and `R` of those that its answer confirms.
  abbrev pub Allows : SyncEnvironment → ℕ → List SyncableOfflineAction → Type 0
  Allows env k chunk =
      ((i : ℕ) (a : SyncableOfflineAction) → get_elem? chunk i ≡ some a → a.id ≡ k → P)
      × ((rs : List OfflineSyncResult) (i : ℕ) (a : SyncableOfflineAction)
          → env.respond chunk ≡ results rs
          → get_elem? chunk i ≡ some a
          → get_elem? (match_offline_sync_results chunk rs) i ≡ some (remove a.id a.action_id)
          → a.id ≡ k
          → R)

  sync_chunk-Fate :
      (env : SyncEnvironment) (k : ℕ) (chunk : List SyncableOfflineAction) (run : SyncRun)
      → Allows env k chunk
      → Fate P R (stored k run.queue) (stored k (sync_chunk env chunk run).1.queue)
  unfolding sync_chunk
  sync_chunk-Fate env k chunk run (p, r) =
      let marked = mark_all env (env.attempted_at chunk) chunk run.queue in
      let first = mark_all-Fate env (env.attempted_at chunk) k chunk run.queue p in
      elim (Outcome-cases (mark_all env (env.attempted_at chunk) chunk run.queue).0) [
        | inl (e, fails) ↦ rw (sync_chunk, fails) first
        | inr (u, goes) ↦
            rw (sync_chunk, goes)
              (Fate-trans P R _ _ _ first
                (send_chunk-Fate env k chunk (record run { queue = marked.1 }) p r))
      ]

  pub sync_chunks-Fate :
      (env : SyncEnvironment) (k : ℕ) (chunks : List (List SyncableOfflineAction)) (run : SyncRun)
      → ((i : ℕ) (chunk : List SyncableOfflineAction)
          → get_elem? chunks i ≡ some chunk
          → Allows env k chunk)
      → Fate P R (stored k run.queue) (stored k (sync_chunks env chunks run).1.queue)
  unfolding sync_chunks
  sync_chunks-Fate env k [] run h = untouched refl
  sync_chunks-Fate env k (chunk ∷ chunks) run h =
      let first = sync_chunk-Fate env k chunk run (h 0 chunk refl) in
      let rest = sync_chunks-Fate env k chunks (sync_chunk env chunk run).1 (λ i. h (suc i)) in
      elim (Outcome-cases (sync_chunk env chunk run).0) [
        | inl (e, fails) ↦ rw (sync_chunks, fails) first
        | inr (u, goes) ↦ rw (sync_chunks, goes) (Fate-trans P R _ _ _ first rest)
      ]
