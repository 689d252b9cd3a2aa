-- ===== src/Offline/Dashboard.antt =====
-- components/layout/dashboard-layout.tsx: `triggerSync` and the review of queued actions, over the
-- store of Queue and the functions of Sync. What the browser makes of each transaction, the server's
-- answer to each request and the time are the environment.
use vault_drive.Base.{
  ℕ, ◌+◌, Bool, false, not, ◌||◌, String, Option, some, List, [], ◌∷◌, ◌++◌, is_empty,
  if◌then◌else◌, truthy, ◌==◌, text_eq, option_eq, number_eq, Outcome, ok, throw,
}
use vault_drive.Offline.Sync.{
  Status, failed, conflict, unknown, SyncableOfflineAction, OfflineSyncResult, OutcomeKind,
  OfflineSyncOutcome, remove, keep, classify_offline_actions, match_offline_sync_results,
  chunk_offline_actions,
}
use vault_drive.Offline.Queue.{
  OfflineQueue, Transaction, OfflineActionUpdate, get_offline_queue, update_queue_item,
  remove_queue_item,
}

-- What comes back from the request, up to `data.results`.
pub data SyncResponse : Type 0 where
  network_error : String → SyncResponse
  http_error : ℕ → SyncResponse
  no_results : SyncResponse
  results : List OfflineSyncResult → SyncResponse

-- How the transactions before and after a request settle, by the item they are for.
pub record SyncEnvironment : Type 0 where
  pub marking : ℕ → Transaction
  pub settling : ℕ → Transaction
  pub respond : List SyncableOfflineAction → SyncResponse
  pub attempted_at : List SyncableOfflineAction → String
  pub json_bytes : SyncableOfflineAction → ℕ

-- The store, the requests that were sent, and `successCount`.
pub record SyncRun : Type 0 where
  pub queue : OfflineQueue
  pub requests : List (List SyncableOfflineAction)
  pub success_count : ℕ

abbrev pub kind_status : OutcomeKind → Status
kind_status OutcomeKind.failed = failed
kind_status OutcomeKind.conflict = conflict
kind_status OutcomeKind.unknown = unknown

abbrev pub waiting_patch : String → OfflineActionUpdate
waiting_patch attempted_at = record {
  status = some (some unknown);
  last_error = some (some "Waiting for server confirmation.");
  last_attempt_at = some (some attempted_at);
}

abbrev pub outcome_patch : OutcomeKind → String → String → OfflineActionUpdate
outcome_patch kind error attempted_at = record {
  status = some (some (kind_status kind));
  last_error = some (some error);
  last_attempt_at = some (some attempted_at);
}

-- `Promise.all` of two: all are made, and the first failure is the failure of all.
abbrev pub both : Outcome (Unit {0}) → Outcome (Unit {0}) → Outcome (Unit {0})
both (throw e) s = throw e
both (ok u) s = s

unfoldable pub ready_actions : Option String → OfflineQueue → List SyncableOfflineAction
unfolding classify_offline_actions get_offline_queue
ready_actions owner q = (classify_offline_actions (get_offline_queue q) owner).ready

module _ (env : SyncEnvironment) where
  unfoldable pub mark_all :
      String → List SyncableOfflineAction → OfflineQueue → Outcome (Unit {0}) × OfflineQueue
  unfolding update_queue_item
  mark_all attempted_at [] q = (ok tt, q)
  mark_all attempted_at (item ∷ chunk) q =
      let first = update_queue_item (env.marking item.id) item.id (waiting_patch attempted_at) q in
      let rest = mark_all attempted_at chunk first.1 in (both first.0 rest.0, rest.1)

  -- One round of the loop over the outcomes.
  unfoldable pub apply_outcome :
      String → OfflineSyncOutcome → SyncRun → Outcome (Unit {0}) × SyncRun
  unfolding update_queue_item remove_queue_item
  apply_outcome attempted_at (remove id action_id) run =
      let counted = run.success_count + 1 in
      let removed = remove_queue_item (env.settling id) id run.queue in
      (removed.0, record run { queue = removed.1; success_count = counted })
  apply_outcome attempted_at (keep id action_id kind error) run =
      let updated =
        update_queue_item (env.settling id) id (outcome_patch kind error attempted_at) run.queue in
      (updated.0, record run { queue = updated.1 })

  unfoldable pub apply_outcomes :
      String → List OfflineSyncOutcome → SyncRun → Outcome (Unit {0}) × SyncRun
  unfolding apply_outcome
  apply_outcomes attempted_at [] run = (ok tt, run)
  apply_outcomes attempted_at (outcome ∷ outcomes) run =
      let first = apply_outcome attempted_at outcome run in
      elim first.0 [
        | throw e ↦ (throw e, first.1)
        | ok u ↦ apply_outcomes attempted_at outcomes first.1
      ]

  -- The rest of a round once the items are marked. The message with the status is left without it.
  unfoldable pub send_chunk : List SyncableOfflineAction → SyncRun → Outcome (Unit {0}) × SyncRun
  unfolding apply_outcomes match_offline_sync_results
  send_chunk chunk run =
      let sent : SyncRun = record run { requests = run.requests ++ chunk ∷ [] } in
      elim (env.respond chunk) [
        | network_error e ↦ (throw e, sent)
        | http_error status ↦ (throw "Sync API failed", sent)
        | no_results ↦ (throw "Sync response did not include confirmed results", sent)
        | results rs ↦
            apply_outcomes (env.attempted_at chunk) (match_offline_sync_results chunk rs) sent
      ]

  -- One round of the loop over the chunks.
  unfoldable pub sync_chunk : List SyncableOfflineAction → SyncRun → Outcome (Unit {0}) × SyncRun
  unfolding mark_all send_chunk
  sync_chunk chunk run =
      let marked = mark_all (env.attempted_at chunk) chunk run.queue in
      let run' : SyncRun = record run { queue = marked.1 } in
      elim marked.0 [ throw e ↦ (throw e, run') | ok u ↦ send_chunk chunk run' ]

  unfoldable pub sync_chunks :
      List (List SyncableOfflineAction) → SyncRun → Outcome (Unit {0}) × SyncRun
  unfolding sync_chunk
  sync_chunks [] run = (ok tt, run)
  sync_chunks (chunk ∷ chunks) run =
      let first = sync_chunk chunk run in
      elim first.0 [ throw e ↦ (throw e, first.1) | ok u ↦ sync_chunks chunks first.1 ]

  -- `performSync`; reading the queue may fail.
  unfoldable pub perform_sync :
      Option String → Outcome (Unit {0}) → OfflineQueue → Outcome (Unit {0}) × SyncRun
  unfolding sync_chunks ready_actions chunk_offline_actions
  perform_sync owner reading q =
      let start : SyncRun = record { queue = q; requests = []; success_count = 0 } in
      let ready = ready_actions owner q in
      elim reading [
        | throw e ↦ (throw e, start)
        | ok u ↦
            if is_empty ready
            then (ok tt, start)
            else sync_chunks (chunk_offline_actions env.json_bytes 100 900_000 ready) start
      ]

-- `navigator.locks` is missing, or gives the lock, or another tab has it, or fails.
pub data SyncLock : Type 0 where
  no_locks granted held lock_fails : SyncLock

pub data Toast : Type 0 where
  success : ℕ → Toast
  needs_review held_lock : Toast

pub record Dashboard : Type 0 where
  pub queue : OfflineQueue
  pub sync_in_flight : Bool
  pub requests : List (List SyncableOfflineAction)
  pub toasts : List Toast

-- What `performSync` shows, and its `finally`.
abbrev pub after_sync : Dashboard → Outcome (Unit {0}) × SyncRun → Dashboard
after_sync d (throw e, run) = record {
  queue = run.queue;
  sync_in_flight = false;
  requests = d.requests ++ run.requests;
  toasts = d.toasts ++ needs_review ∷ [];
}
after_sync d (ok u, run) = record {
  queue = run.queue;
  sync_in_flight = false;
  requests = d.requests ++ run.requests;
  toasts = if run.success_count == 0 then d.toasts else d.toasts ++ success run.success_count ∷ [];
}

-- `triggerSync`. The token and the owner may be missing.
unfoldable pub trigger_sync :
    SyncEnvironment
    → SyncLock
    → Outcome (Unit {0})
    → Option String
    → Option String
    → Dashboard
    → Dashboard
unfolding perform_sync
trigger_sync env lock reading token owner d =
    if not (truthy token) || not (truthy owner) || d.sync_in_flight
    then d
    else let synced = after_sync d (perform_sync env owner reading d.queue) in
      elim lock [
        | no_locks ↦ synced
        | granted ↦ synced
        | held ↦ d
        | lock_fails ↦ record d { toasts = d.toasts ++ held_lock ∷ [] }
      ]
