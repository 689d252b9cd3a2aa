-- ===== src/Offline/SyncTests.antt =====
-- Runs of a whole sync, and the instances of its theorems.
use vault_drive.Base.{
  Bool, ℕ, List, [], ◌∷◌, ◌≡◌, Option, none, some, refl, map, Outcome, ok, throw, String, get_or,
  text_eq, ◌==◌, if◌then◌else◌,
}
use vault_drive.Offline.Sync.{rename, Status, conflict, OfflineAction, OfflineSyncResult}
use vault_drive.Offline.Queue.{
  OfflineQueue, completes, NewOfflineAction, queue_offline_action, get_offline_queue,
}
use vault_drive.Offline.Dashboard.{
  SyncResponse, http_error, results, SyncEnvironment, Dashboard, granted, success, ready_actions,
  perform_sync, trigger_sync,
}
use vault_drive.Offline.Fate.{stored, Fate}
use vault_drive.Offline.Chunks.{concat}
use vault_drive.Offline.SyncFate.{WasReady, Confirmed, perform_sync-Fate}
use vault_drive.Offline.SentOnce.{SentSettled, perform_sync-SentSettled}
use vault_drive.Offline.Review.{
  ServerFile, RenameSeen, reconcile_offline_rename, reconcile_offline_rename-Fate,
}

abbrev rename_of : String → NewOfflineAction
rename_of file = record {
  owner_id = "ana";
  type = rename;
  file_id = file;
  filename = some "report.pdf";
  new_filename = some "final.pdf";
  parent_hash = "h0";
  new_hash = some "h1";
  updated_at = "2024-01-01";
}

abbrev empty_queue : OfflineQueue
empty_queue = record { next_id = 1; items = [] }

-- Two renames are waiting.
abbrev two_queued : OfflineQueue
two_queued =
    (queue_offline_action completes "a2" "u2" (rename_of "f2")
      (queue_offline_action completes "a1" "u1" (rename_of "f1") empty_queue).1).1

abbrev done_first : OfflineSyncResult
done_first = record {
  action_id = some "a1";
  file_id = some "f1";
  success = some Bool.true;
  conflict = none;
  error = none;
  code = none;
}

-- The second clashed with a newer version.
abbrev clash_second : OfflineSyncResult
clash_second = record {
  action_id = some "a2";
  file_id = some "f2";
  success = some Bool.false;
  conflict = some Bool.true;
  error = none;
  code = none;
}

abbrev environment : SyncResponse → SyncEnvironment
environment response = record {
  marking = λ id. completes;
  settling = λ id. completes;
  respond = λ chunk. response;
  attempted_at = λ chunk. "now";
  json_bytes = λ a. 200;
}

abbrev answered : SyncEnvironment
answered = environment (results (done_first ∷ clash_second ∷ []))

abbrev statuses : OfflineQueue → List (Option Status)
statuses q = map (λ (a : OfflineAction). a.status) (get_offline_queue q)

-- The first is gone, the second is held for review.
after_answer :
    statuses (perform_sync answered (some "ana") (ok tt) two_queued).1.queue ≡ some conflict ∷ []
unfolding perform_sync queue_offline_action vault_drive.Base.JsMap.set vault_drive.Base.JsMap.get
    vault_drive.Base.JsMap.delete
after_answer = refl

-- An error of the server leaves both marked.
after_error :
    statuses (perform_sync (environment (http_error 500)) (some "ana") (ok tt) two_queued).1.queue
    ≡ some Status.unknown ∷ some Status.unknown ∷ []
unfolding perform_sync queue_offline_action vault_drive.Base.JsMap.set vault_drive.Base.JsMap.get
after_error = refl

abbrev dashboard : Dashboard
dashboard = record { queue = two_queued; sync_in_flight = Bool.false; requests = []; toasts = [] }

toast_of_one :
    (trigger_sync answered granted (ok tt) (some "token") (some "ana") dashboard).toasts
    ≡ success 1 ∷ []
unfolding trigger_sync queue_offline_action vault_drive.Base.JsMap.set vault_drive.Base.JsMap.get
    vault_drive.Base.JsMap.delete
toast_of_one = refl

perform_sync-Fate_example :
    Fate
      (WasReady (ready_actions (some "ana") two_queued) 1)
      (Confirmed answered (ready_actions (some "ana") two_queued) 1)
      (stored 1 two_queued)
      (stored 1 (perform_sync answered (some "ana") (ok tt) two_queued).1.queue)
perform_sync-Fate_example = perform_sync-Fate answered (some "ana") (ok tt) two_queued 1

perform_sync-SentSettled_example :
    SentSettled answered (perform_sync answered (some "ana") (ok tt) two_queued).1
    × ((perform_sync answered (some "ana") (ok tt) two_queued).0 ≡ ok tt
        → concat (perform_sync answered (some "ana") (ok tt) two_queued).1.requests
          ≡ ready_actions (some "ana") two_queued)
perform_sync-SentSettled_example = perform_sync-SentSettled answered (some "ana") (ok tt) two_queued

abbrev renamed_file : ServerFile
renamed_file = record { id = some "f1"; filename = some "final.pdf"; parent_hash = some "h1" }

abbrev first_item : OfflineAction
first_item = record {
  id = some 1;
  action_id = some "a1";
  owner_id = some "ana";
  type = rename;
  file_id = "f1";
  filename = some "report.pdf";
  new_filename = some "final.pdf";
  parent_hash = "h0";
  new_hash = some "h1";
  updated_at = "2024-01-01";
  status = some Status.unknown;
  last_error = none;
  last_attempt_at = none;
}

reconciled :
    stored 1
      (reconcile_offline_rename completes completes
        (ok (renamed_file ∷ []))
        (some "ana")
        first_item
        two_queued).1
    ≡ none
unfolding reconcile_offline_rename queue_offline_action vault_drive.Base.JsMap.get
    vault_drive.Base.JsMap.delete vault_drive.Base.JsMap.set
reconciled = refl

reconcile_offline_rename-Fate_example :
    Fate
      (get_or first_item.id 0 ≡ 1)
      ((get_or first_item.id 0 ≡ 1) × RenameSeen (ok (renamed_file ∷ [])) first_item)
      (stored 1 two_queued)
      (stored 1
        (reconcile_offline_rename completes completes
          (ok (renamed_file ∷ []))
          (some "ana")
          first_item
          two_queued).1)
reconcile_offline_rename-Fate_example =
    reconcile_offline_rename-Fate completes completes (ok (renamed_file ∷ [])) (some "ana")
      first_item two_queued 1
