-- ===== src/Offline/Tests.antt =====
-- Runs of the offline queue, and the instances of its theorems.
use vault_drive.Base.{
  ℕ, List, [], ◌∷◌, ◌++◌, ◌≡◌, ◌≢◌, ◌↔◌, ◌≤◌, Bool, true, not, String, Option, none, some, refl,
  filter, number_eq, map, truthy, ◌⊎◌, get_elem?, All, arith, text_eq,
}
use vault_drive.Base.JsMap.{get}
use vault_drive.Offline.Sync.{
  rename, Status, OfflineAction, SyncableOfflineAction, as_syncable, OfflineSyncResult, remove,
  classify_offline_actions, match_offline_sync_results, chunk_offline_actions,
}
use vault_drive.Offline.Queue.{
  OfflineQueue, completes, tx_fails, NewOfflineAction, queue_offline_action, get_offline_queue,
}
use vault_drive.Offline.Classify.{is_sendable, reviewed, classify_offline_actions-partition}
use vault_drive.Offline.Match.{answers, match_offline_sync_results-remove}
use vault_drive.Offline.Chunks.{concat, IsRequest, chunk_offline_actions_requests}
use vault_drive.Offline.Storage.{
  Reachable, created, stepped, queueing, IsQueue, Reachable-IsQueue, queue_offline_action-changes,
}

abbrev rename_report : NewOfflineAction
rename_report = record {
  owner_id = "ana";
  type = rename;
  file_id = "f1";
  filename = some "report.pdf";
  new_filename = some "final.pdf";
  parent_hash = "h0";
  new_hash = some "h0";
  updated_at = "2024-01-01";
}

abbrev one : ℕ
one = 1

abbrev empty_queue : OfflineQueue
empty_queue = record { next_id = 1; items = [] }

abbrev one_queued : OfflineQueue
one_queued = (queue_offline_action completes "a1" "u1" rename_report empty_queue).1

abbrev two_queued : OfflineQueue
two_queued = (queue_offline_action completes "a2" "u2" rename_report one_queued).1

stored_hashes : map (λ a. a.new_hash) (get_offline_queue two_queued) ≡ some "u1" ∷ some "u2" ∷ []
unfolding get_offline_queue queue_offline_action vault_drive.Base.JsMap.set
stored_hashes = refl

failed_write :
    (queue_offline_action (tx_fails "quota") "a2" "u2" rename_report one_queued).1 ≡ one_queued
unfolding queue_offline_action
failed_write = refl

abbrev actions : List OfflineAction
actions = get_offline_queue two_queued

abbrev ready : List SyncableOfflineAction
ready = (classify_offline_actions actions (some "ana")).ready

abbrev first_action : SyncableOfflineAction
first_action = as_syncable (record {
  id = some 1;
  action_id = some "a1";
  owner_id = some "ana";
  type = rename;
  file_id = "f1";
  filename = some "report.pdf";
  new_filename = some "final.pdf";
  parent_hash = "h0";
  new_hash = some "u1";
  updated_at = "2024-01-01";
  status = some Status.pending;
  last_error = none;
  last_attempt_at = none;
})

first_ready : get_elem? ready 0 ≡ some first_action
unfolding classify_offline_actions get_offline_queue queue_offline_action vault_drive.Base.JsMap.set
first_ready = refl

abbrev answer : OfflineSyncResult
answer = record {
  action_id = some "a1";
  file_id = some "f1";
  success = some true;
  conflict = none;
  error = none;
  code = none;
}

classify_offline_actions-partition_example :
    ((classify_offline_actions actions (some "ana")).ready
      ≡ map as_syncable (filter (is_sendable (some "ana")) actions))
    × ((classify_offline_actions actions (some "ana")).review
        ≡ map (reviewed (some "ana")) (filter (λ a. not (is_sendable (some "ana") a)) actions))
classify_offline_actions-partition_example = classify_offline_actions-partition actions (some "ana")

match_offline_sync_results-remove_example :
    (get_elem? (match_offline_sync_results ready (answer ∷ [])) 0 ≡ some (remove 1 "a1")) ↔ (
      (r : OfflineSyncResult) × (answers "a1" (answer ∷ []) ≡ r ∷ [])
      × (r.file_id ≡ some "f1")
      × (r.success ≡ some true))
match_offline_sync_results-remove_example =
    match_offline_sync_results-remove ready (answer ∷ []) 0 first_action first_ready
      (ground (arith, text_eq.same_iff "a1" ""))

-- Two requests for two actions of 600 bytes each, at most 1000 bytes.
chunk_offline_actions_requests_example :
    (concat (chunk_offline_actions (λ a. 600) 25 1000 ready) ≡ ready)
    × All (IsRequest (λ a. 600) 25 1000) (chunk_offline_actions (λ a. 600) 25 1000 ready)
chunk_offline_actions_requests_example =
    chunk_offline_actions_requests (λ a. 600) 25 1000 ready (omega arith)

after_queueing : Reachable two_queued
after_queueing =
    stepped one_queued two_queued
      (stepped empty_queue one_queued created (queueing completes "a1" "u1" rename_report))
      (queueing completes "a2" "u2" rename_report)

Reachable-IsQueue_example : IsQueue two_queued
Reachable-IsQueue_example = Reachable-IsQueue two_queued after_queueing

queue_offline_action-changes_example :
    ((stored : OfflineAction) × (hash : String) × (get 2 two_queued.items ≡ some stored)
      × (stored.new_hash ≡ some hash)
      × (hash ≢ "h0")
      × (truthy (some hash) ≡ true))
    × ((2 ≡ one) ⊎ (get one two_queued.items ≡ get one one_queued.items))
unfolding queue_offline_action
queue_offline_action-changes_example =
    queue_offline_action-changes completes "a2" "u2" rename_report one_queued 2 one refl
      (ground (arith, text_eq.same_iff "u2" "h0")) refl refl
