-- ===== src/Offline/SentOnce.antt =====
-- What was sent is not pending any more, so that no later sync sends it by itself again.
use vault_drive.Base.{
  true, false, text_eq, option_eq, String, Option, some, List, [], ◌∷◌, ◌++◌, ◌≡◌, inl, inr, refl,
  sym, ap, ◌∙◌, arith, Outcome, ok, throw, Outcome-cases, Bool-cases, number_eq, is_empty,
}
use vault_drive.Offline.Sync.{
  SyncableOfflineAction, OfflineSyncOutcome, remove, keep, match_offline_sync_results,
  chunk_offline_actions, OutcomeKind, failed, conflict, unknown,
}
use vault_drive.Offline.Queue.{OfflineQueue, update_queue_item}
use vault_drive.Offline.Dashboard.{
  SyncEnvironment, SyncRun, waiting_patch, outcome_patch, both, mark_all, apply_outcome,
  apply_outcomes, send_chunk, sync_chunk, sync_chunks, ready_actions, perform_sync,
}
use vault_drive.Offline.SyncSteps.{SyncResponse-cases}
use vault_drive.Base.{append-nil, append_assoc, All, All-append}
use vault_drive.Offline.Sync.{is_pending, OutcomeKind, conflict, failed, unknown}
use vault_drive.Offline.Chunks.{concat, chunk_offline_actions_requests}
use vault_drive.Offline.Dashboard.{kind_status}
use vault_drive.Offline.Settled.{
  AllSettled, Keeps, AllSettled-Keeps, still_settled, update_queue_item-Keeps,
  update_queue_item-Settled, remove_queue_item-Keeps,
}

both-ok : (a b : Outcome (Unit {0})) → both a b ≡ ok tt → (a ≡ ok tt) × (b ≡ ok tt)
both-ok (ok u) b h = (refl, h)
both-ok (throw e) b h = cc h

kind_status-review : (kind : OutcomeKind) → is_pending (some (kind_status kind)) ≡ false
kind_status-review failed = refl
kind_status-review conflict = refl
kind_status-review unknown = refl

apply_outcome-requests :
    (env : SyncEnvironment) (at : String) (outcome : OfflineSyncOutcome) (run : SyncRun)
    → (apply_outcome env at outcome run).1.requests ≡ run.requests
unfolding apply_outcome
apply_outcome-requests env at (remove id action_id) run = refl
apply_outcome-requests env at (keep id action_id kind error) run = refl

module _ (env : SyncEnvironment) where
  mark_all-Keeps :
      (at : String) (chunk : List SyncableOfflineAction) (q : OfflineQueue)
      → Keeps q (mark_all env at chunk q).1
  unfolding mark_all
  mark_all-Keeps at [] q = λ k s. s
  mark_all-Keeps at (item ∷ chunk) q = λ k s. mark_all-Keeps at chunk _ k (
      update_queue_item-Keeps (env.marking item.id) item.id (waiting_patch at) q
        (some unknown, refl, refl) k s)

  -- When all are marked, all are settled.
  mark_all-Settled :
      (at : String) (chunk : List SyncableOfflineAction) (q : OfflineQueue)
      → (mark_all env at chunk q).0 ≡ ok tt
      → AllSettled (mark_all env at chunk q).1 chunk
  unfolding mark_all
  mark_all-Settled at [] q done = tt
  mark_all-Settled at (item ∷ chunk) q done =
      let q' = (update_queue_item (env.marking item.id) item.id (waiting_patch at) q).1 in
      let (first, rest) = both-ok _ _ done in
      (
        mark_all-Keeps at chunk q' item.id (
            update_queue_item-Settled (env.marking item.id) item.id (waiting_patch at) q
              (some unknown, refl, refl) first),
        mark_all-Settled at chunk q' rest,
      )

  apply_outcome-Keeps :
      (at : String) (outcome : OfflineSyncOutcome) (run : SyncRun)
      → Keeps run.queue (apply_outcome env at outcome run).1.queue
  unfolding apply_outcome
  apply_outcome-Keeps at (remove id action_id) run =
      remove_queue_item-Keeps (env.settling id) id run.queue
  apply_outcome-Keeps at (keep id action_id kind error) run =
      update_queue_item-Keeps (env.settling id) id (outcome_patch kind error at) run.queue
        (some (kind_status kind), refl, kind_status-review kind)

  apply_outcomes-Keeps :
      (at : String) (outcomes : List OfflineSyncOutcome) (run : SyncRun)
      → Keeps run.queue (apply_outcomes env at outcomes run).1.queue
        × ((apply_outcomes env at outcomes run).1.requests ≡ run.requests)
  unfolding apply_outcomes
  apply_outcomes-Keeps at [] run = (λ k s. s, refl)
  apply_outcomes-Keeps at (o ∷ outcomes) run =
      let first = apply_outcome-Keeps at o run in
      let same = apply_outcome-requests env at o run in
      let (rest, same') = apply_outcomes-Keeps at outcomes (apply_outcome env at o run).1 in
      elim (Outcome-cases (apply_outcome env at o run).0) [
        | inl (e, fails) ↦ rw (apply_outcomes, fails) (first, same)
        | inr (u, goes) ↦ rw (apply_outcomes, goes) (λ k s. rest k (first k s), same' ∙ same)
      ]

  -- A request is logged, and what was settled stays so.
  send_chunk-Keeps :
      (chunk : List SyncableOfflineAction) (run : SyncRun)
      → Keeps run.queue (send_chunk env chunk run).1.queue
        × ((send_chunk env chunk run).1.requests ≡ run.requests ++ chunk ∷ [])
  unfolding send_chunk
  send_chunk-Keeps chunk run = elim (SyncResponse-cases (env.respond chunk)) [
    | inl (e, fails) ↦ rw (send_chunk, fails) (λ k s. s, refl)
    | inr (inl (status, fails)) ↦ rw (send_chunk, fails) (λ k s. s, refl)
    | inr (inr (inl fails)) ↦ rw (send_chunk, fails) (λ k s. s, refl)
    | inr (inr (inr (rs, answered))) ↦
        rw (send_chunk, answered)
          (apply_outcomes-Keeps (env.attempted_at chunk) (match_offline_sync_results chunk rs) _)
  ]

  -- All that is in the log is settled.
  abbrev pub SentSettled : SyncRun → Type 0
  SentSettled run = All (AllSettled run.queue) run.requests

  sync_chunk-SentSettled :
      (chunk : List SyncableOfflineAction) (run : SyncRun)
      → SentSettled run
      → SentSettled (sync_chunk env chunk run).1
        × ((sync_chunk env chunk run).0 ≡ ok tt
            → (sync_chunk env chunk run).1.requests ≡ run.requests ++ chunk ∷ [])
  unfolding sync_chunk
  sync_chunk-SentSettled chunk run h =
      let at = env.attempted_at chunk in
      let q' = (mark_all env at chunk run.queue).1 in
      let before : All (AllSettled q') run.requests =
        still_settled run.queue q' run.requests (mark_all-Keeps at chunk run.queue) h in
      elim (Outcome-cases (mark_all env at chunk run.queue).0) [
        | inl (e, fails) ↦ rw (sync_chunk, fails) (before, λ d. cc d)
        | inr (u, goes) ↦
            let marked : SyncRun = record run { queue = q' } in
            let (keeps, logged) = send_chunk-Keeps chunk marked in
            let q'' = (send_chunk env chunk marked).1.queue in
            rw (sync_chunk, goes)
              (
                rw logged (
                    All-append (AllSettled q'') run.requests (chunk ∷ [])
                      (still_settled q' q'' run.requests keeps before)
                      (
                        AllSettled-Keeps q' q'' chunk keeps
                            (mark_all-Settled at chunk run.queue goes),
                        tt,
                      )),
                λ d. logged,
              )
      ]

  sync_chunks-SentSettled :
      (chunks : List (List SyncableOfflineAction)) (run : SyncRun)
      → SentSettled run
      → SentSettled (sync_chunks env chunks run).1
        × ((sync_chunks env chunks run).0 ≡ ok tt
            → (sync_chunks env chunks run).1.requests ≡ run.requests ++ chunks)
  unfolding sync_chunks
  sync_chunks-SentSettled [] run h = (h, λ d. sym (append-nil run.requests))
  sync_chunks-SentSettled (chunk ∷ chunks) run h =
      let (first, logged) = sync_chunk-SentSettled chunk run h in
      let run' = (sync_chunk env chunk run).1 in
      let (rest, logged') = sync_chunks-SentSettled chunks run' first in
      elim (Outcome-cases (sync_chunk env chunk run).0) [
        | inl (e, fails) ↦ rw (sync_chunks, fails) (first, λ d. cc d)
        | inr (u, goes) ↦
            rw (sync_chunks, goes)
              (
                rest,
                λ d.
                    logged' d
                    ∙ ap (λ l. l ++ chunks) (logged goes)
                    ∙ append_assoc run.requests (chunk ∷ []) chunks,
              )
      ]

-- After a sync, whether it succeeds or not, no action of a request that was sent is pending in the
-- store, so that none is sent again by itself; and one that succeeds has sent every ready action.
pub perform_sync-SentSettled :
    (env : SyncEnvironment) (owner : Option String) (reading : Outcome (Unit {0}))
    (q : OfflineQueue)
    → SentSettled env (perform_sync env owner reading q).1
      × ((perform_sync env owner reading q).0 ≡ ok tt
          → concat (perform_sync env owner reading q).1.requests ≡ ready_actions owner q)
unfolding perform_sync
perform_sync-SentSettled env owner (throw e) q = (tt, λ d. cc d)
perform_sync-SentSettled env owner (ok u) q = elim (Bool-cases (is_empty (ready_actions owner q))) [
  | inl nothing ↦
      rw (perform_sync, nothing) (tt, λ d. sym (none_ready (ready_actions owner q) nothing))
  | inr something ↦
      let ready = ready_actions owner q in
      let chunks = chunk_offline_actions env.json_bytes 100 900_000 ready in
      let (settled, logged) =
        sync_chunks-SentSettled env chunks (record { queue = q; requests = []; success_count = 0 })
          tt in
      let all_sent =
        (chunk_offline_actions_requests env.json_bytes 100 900_000 ready (omega arith)).0 in
      rw (perform_sync, something) (settled, λ d. ap concat (logged d) ∙ all_sent)
]
  where
    none_ready : (l : List SyncableOfflineAction) → is_empty l ≡ true → l ≡ []
    none_ready [] h = refl
    none_ready (a ∷ l) h = cc h
