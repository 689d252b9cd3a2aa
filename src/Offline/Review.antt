-- ===== src/Offline/Review.antt =====
-- components/layout/dashboard-layout.tsx: what the review panel does with a queued action: retry,
-- discard, and the comparison of a rename with the server's list of files.
use vault_drive.Base.{
  ℕ, Bool, true, false, not, ◌&&◌, ◌||◌, String, Option, none, some, List, find, ◌≡◌, ◌⊎◌, inl, inr,
  refl, if◌then◌else◌, truthy, truthy_number, get_or, ◌==◌, text_eq, option_eq, option_same_iff,
  number_eq, Outcome, ok, throw, Outcome-cases, Bool-cases, arith,
}
use vault_drive.Offline.Sync.{OfflineAction, ActionType, rename, delete, pending, failed, unknown}
use vault_drive.Offline.Queue.{
  OfflineQueue, Transaction, OfflineActionUpdate, update_queue_item, remove_queue_item,
}
use vault_drive.Offline.Dashboard.{SyncEnvironment, SyncLock, Dashboard, trigger_sync}
use vault_drive.Offline.Fate.{
  stored, Fate, untouched, Fate-trans, update_queue_item-Fate, remove_queue_item-Fate,
}

abbrev pub is_rename : ActionType → Bool
is_rename rename = true
is_rename delete = false

-- `item.owner_id === currentOwnerId`, where no owner is `null` and a missing one `undefined`.
abbrev pub is_owner : OfflineAction → Option String → Bool
is_owner item none = false
is_owner item (some owner) = item.owner_id == some owner

-- `retryOfflineAction`: the item is pending again, and a sync is tried.
unfoldable pub retry_offline_action :
    SyncEnvironment
    → SyncLock
    → Outcome (Unit {0})
    → Transaction
    → Option String
    → Option String
    → OfflineAction
    → Dashboard
    → Outcome (Unit {0}) × Dashboard
unfolding trigger_sync update_queue_item
retry_offline_action env lock reading tx token owner item d =
    if not (truthy_number item.id) || not (is_owner item owner) || not (truthy item.action_id)
    then (ok tt, d)
    else let patch : OfflineActionUpdate = record {
      status = some (some pending);
      last_error = some none;
      last_attempt_at = some item.last_attempt_at;
    } in
      let updated = update_queue_item tx (get_or item.id 0) patch d.queue in
      let d' : Dashboard = record d { queue = updated.1 } in
      elim updated.0 [
        | throw e ↦ (throw e, d')
        | ok u ↦ (ok tt, trigger_sync env lock reading token owner d')
      ]

unfoldable pub discard_offline_action :
    Transaction → OfflineAction → OfflineQueue → Outcome (Unit {0}) × OfflineQueue
unfolding remove_queue_item
discard_offline_action tx item q =
    if truthy_number item.id then remove_queue_item tx (get_or item.id 0) q else (ok tt, q)

pub record ServerFile : Type 0 where
  pub id : Option String
  pub filename : Option String
  pub parent_hash : Option String

-- `serverFile && serverFile.filename === … && (!item.new_hash || …)`
unfoldable pub matches_rename : OfflineAction → Option ServerFile → Bool
matches_rename item none = false
matches_rename item (some file) =
    file.filename == item.new_filename
    && (not (truthy item.new_hash) || file.parent_hash == item.new_hash)

abbrev pub server_file : OfflineAction → List ServerFile → Option ServerFile
server_file item = find (λ file. file.id == some item.file_id)

abbrev pub mismatch_patch : OfflineAction → OfflineActionUpdate
mismatch_patch item = record {
  status = some (some failed);
  last_error =
      some (some "The server file does not match the queued rename. Review it before retrying.");
  last_attempt_at = some item.last_attempt_at;
}

abbrev pub inspect_patch : OfflineAction → String → OfflineActionUpdate
inspect_patch item error = record {
  status = some (some unknown);
  last_error = some (some error);
  last_attempt_at = some item.last_attempt_at;
}

-- The `try` block: the list of files may not be had.
unfoldable pub compare_rename :
    Transaction
    → Outcome (List ServerFile)
    → OfflineAction
    → OfflineQueue
    → Outcome (Unit {0}) × OfflineQueue
unfolding matches_rename remove_queue_item update_queue_item
compare_rename tx (throw e) item q = (throw e, q)
compare_rename tx (ok files) item q =
    if matches_rename item (server_file item files)
    then remove_queue_item tx (get_or item.id 0) q
    else update_queue_item tx (get_or item.id 0) (mismatch_patch item) q

-- `reconcileOfflineRename`; the transaction of the `catch` block is the second.
unfoldable pub reconcile_offline_rename :
    Transaction
    → Transaction
    → Outcome (List ServerFile)
    → Option String
    → OfflineAction
    → OfflineQueue
    → Outcome (Unit {0}) × OfflineQueue
unfolding compare_rename update_queue_item
reconcile_offline_rename tx tx' files owner item q =
    if not (truthy_number item.id) || not (is_rename item.type) || not (is_owner item owner)
    then (ok tt, q)
    else let compared = compare_rename tx files item q in
      elim compared.0 [
        | ok u ↦ compared
        | throw e ↦ update_queue_item tx' (get_or item.id 0) (inspect_patch item e) compared.1
      ]

-- The server has the file under the new name, with the new hash if there is one.
pub record RenameSeen (files : Outcome (List ServerFile)) (item : OfflineAction) : Type 0 where
  pub list : List ServerFile
  pub file : ServerFile
  pub listed : files ≡ ok list
  pub found : server_file item list ≡ some file
  pub named : file.filename ≡ item.new_filename
  pub hashed : (truthy item.new_hash ≡ false) ⊎ (file.parent_hash ≡ item.new_hash)

matches_rename_lem :
    (item : OfflineAction) (o : Option ServerFile)
    → matches_rename item o ≡ true
    → (file : ServerFile) × (o ≡ some file)
      × (file.filename ≡ item.new_filename)
      × ((truthy item.new_hash ≡ false) ⊎ (file.parent_hash ≡ item.new_hash))
unfolding matches_rename
matches_rename_lem item none h = cc h
matches_rename_lem item (some file) h = (
  file,
  refl,
  ground (arith, h, option_same_iff file.filename item.new_filename),
  ground (arith, h, option_same_iff file.parent_hash item.new_hash),
)

compare_rename-Fate :
    (tx : Transaction) (files : Outcome (List ServerFile)) (item : OfflineAction) (q : OfflineQueue)
    (k : ℕ)
    → Fate
        (get_or item.id 0 ≡ k)
        ((get_or item.id 0 ≡ k) × RenameSeen files item)
        (stored k q)
        (stored k (compare_rename tx files item q).1)
unfolding compare_rename
compare_rename-Fate tx (throw e) item q k = untouched refl
compare_rename-Fate tx (ok files) item q k =
    elim (Bool-cases (matches_rename item (server_file item files))) [
      | inr other ↦
          rw (compare_rename, other)
            (update_queue_item-Fate _ _ tx k (get_or item.id 0) (mismatch_patch item) q (λ e. e))
      | inl same ↦
          let (file, found, named, hashed) = matches_rename_lem item _ same in
          rw (compare_rename, same)
            (remove_queue_item-Fate _ _ tx k (get_or item.id 0) q λ e. (
              e,
              record {
                list = files;
                file = file;
                listed = refl;
                found = found;
                named = named;
                hashed = hashed;
              },
            ))
    ]

-- Reconciling leaves every stored action as it is but the one under review: of that one it changes at
-- most the status, the error and the time of the attempt, and it removes it only if the server's list
-- shows the file under its new name, and with the new hash if there is one.
pub reconcile_offline_rename-Fate :
    (tx tx' : Transaction) (files : Outcome (List ServerFile)) (owner : Option String)
    (item : OfflineAction) (q : OfflineQueue) (k : ℕ)
    → Fate
        (get_or item.id 0 ≡ k)
        ((get_or item.id 0 ≡ k) × RenameSeen files item)
        (stored k q)
        (stored k (reconcile_offline_rename tx tx' files owner item q).1)
unfolding reconcile_offline_rename
reconcile_offline_rename-Fate tx tx' files owner item q k =
    let compared = compare_rename-Fate tx files item q k in
    elim (Bool-cases
      (not (truthy_number item.id) || not (is_rename item.type) || not (is_owner item owner))) [
        | inl refuses ↦ rw (reconcile_offline_rename, refuses) (untouched refl)
        | inr goes ↦ elim (Outcome-cases (compare_rename tx files item q).0) [
          | inr (u, done) ↦ rw (reconcile_offline_rename, goes, done) compared
          | inl (e, fails) ↦
              rw (reconcile_offline_rename, goes, fails)
                (Fate-trans _ _ _ _ _ compared (
                  update_queue_item-Fate _ _ tx' k (get_or item.id 0) (inspect_patch item e) _
                    (λ h. h)))
        ]
      ]
