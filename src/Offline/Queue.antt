-- ===== src/Offline/Queue.antt =====
-- utils/offline-db.ts: the `queue` store of IndexedDB, whose keys count up from 1. What the browser
-- makes of a transaction, and the random UUIDs, are arguments; a transaction that does not complete
-- leaves the store as it was.
use vault_drive.Base.{
  ℕ, ◌+◌, not, ◌&&◌, String, Option, none, some, List, if◌then◌else◌, get_or, truthy, ◌==◌, text_eq,
  option_eq, number_eq, Outcome, ok, throw,
}
use vault_drive.Base.JsMap.{JsMap, get, set, delete, values}
use vault_drive.Offline.Sync.{
  OfflineAction, ActionType, rename, delete as delete_action, Status, pending,
}

pub record OfflineQueue : Type 0 where
  pub next_id : ℕ
  pub items : JsMap ℕ OfflineAction

pub data Transaction : Type 0 where
  completes : Transaction
  request_fails tx_fails : String → Transaction
  tx_aborts : Option String → Transaction

pub record NewOfflineAction : Type 0 where
  pub owner_id : String
  pub type : ActionType
  pub file_id : String
  pub filename : Option String
  pub new_filename : Option String
  pub parent_hash : String
  pub new_hash : Option String
  pub updated_at : String

-- `none` is a field that the patch does not have, `some none` one that it has as `undefined`.
pub record OfflineActionUpdate : Type 0 where
  pub status : Option (Option Status)
  pub last_error : Option (Option String)
  pub last_attempt_at : Option (Option String)

-- How a transaction settles the promise, if its requests succeed.
unfoldable pub settle {ℓ} :
    {A : Type ℓ} → Transaction → A → OfflineQueue → OfflineQueue → Outcome A × OfflineQueue
settle completes a before after = (ok a, after)
settle (request_fails e) a before after = (throw e, before)
settle (tx_fails e) a before after = (throw e, before)
settle (tx_aborts e) a before after =
    (throw (get_or e "Offline queue transaction was aborted"), before)

-- The new hash of a rename: the given one if it is a change, else a random one.
unfoldable pub fresh_hash : String → NewOfflineAction → Option String
fresh_hash uuid action = elim action.type [
  | rename ↦
      if truthy action.new_hash && not (action.new_hash == some action.parent_hash)
      then action.new_hash
      else some uuid
  | delete_action ↦ action.new_hash
]

unfoldable pub stored_action : ℕ → String → String → NewOfflineAction → OfflineAction
unfolding fresh_hash
stored_action id action_uuid hash_uuid action = record {
  id = some id;
  action_id = some action_uuid;
  owner_id = some action.owner_id;
  type = action.type;
  file_id = action.file_id;
  filename = action.filename;
  new_filename = action.new_filename;
  parent_hash = action.parent_hash;
  new_hash = fresh_hash hash_uuid action;
  updated_at = action.updated_at;
  status = some pending;
  last_error = none;
  last_attempt_at = none;
}

unfoldable pub queue_offline_action :
    Transaction → String → String → NewOfflineAction → OfflineQueue → Outcome ℕ × OfflineQueue
unfolding settle stored_action
queue_offline_action tx action_uuid hash_uuid action q = settle tx q.next_id q (record {
  next_id = q.next_id + 1;
  items = set q.next_id (stored_action q.next_id action_uuid hash_uuid action) q.items;
})

-- `{ ...current, ...patch, id }`
unfoldable pub patched : ℕ → OfflineActionUpdate → OfflineAction → OfflineAction
patched id patch current = record current {
  id = some id;
  status = get_or patch.status current.status;
  last_error = get_or patch.last_error current.last_error;
  last_attempt_at = get_or patch.last_attempt_at current.last_attempt_at;
}

-- The message names the missing item's number, which is left out here.
unfoldable pub update_queue_item :
    Transaction → ℕ → OfflineActionUpdate → OfflineQueue → Outcome (Unit {0}) × OfflineQueue
unfolding settle patched
update_queue_item tx id patch q = elim (get id q.items) [
  | none ↦ (throw "Offline queue item was not found", q)
  | some current ↦ settle tx tt q (record q { items = set id (patched id patch current) q.items })
]

unfoldable pub get_offline_queue : OfflineQueue → List OfflineAction
get_offline_queue q = values q.items

unfoldable pub clear_offline_queue : Transaction → OfflineQueue → Outcome (Unit {0}) × OfflineQueue
unfolding settle
clear_offline_queue tx q = settle tx tt q (record q { items = List.[] })

unfoldable pub remove_queue_item :
    Transaction → ℕ → OfflineQueue → Outcome (Unit {0}) × OfflineQueue
unfolding settle
remove_queue_item tx id q = settle tx tt q (record q { items = delete id q.items })
