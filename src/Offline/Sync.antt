-- ===== src/Offline/Sync.antt =====
-- utils/offline-sync.ts. The size of an action's JSON text in bytes is a parameter.
use vault_drive.Base.{
  ℕ, ◌+◌, Bool, true, false, not, ◌&&◌, ◌||◌, String, Option, none, some, List, [], ◌∷◌, ◌++◌, map,
  ltb, leb, if◌then◌else◌, get_or, length, is_empty, truthy, truthy_text, truthy_number, is_true,
  or_text, ◌==◌, text_eq, option_eq,
}
use vault_drive.Base.JsMap.{JsMap, get, set}

pub data ActionType : Type 0 where
  rename delete : ActionType

pub data Status : Type 0 where
  pending failed conflict unknown : Status

pub record OfflineAction : Type 0 where
  pub id : Option ℕ
  pub action_id : Option String
  pub owner_id : Option String
  pub type : ActionType
  pub file_id : String
  pub filename : Option String
  pub new_filename : Option String
  pub parent_hash : String
  pub new_hash : Option String
  pub updated_at : String
  pub status : Option Status
  pub last_error : Option String
  pub last_attempt_at : Option String

-- An action whose three identifiers are there.
pub record SyncableOfflineAction : Type 0 where
  pub id : ℕ
  pub action_id : String
  pub owner_id : String
  pub action : OfflineAction

pub record OfflineSyncResult : Type 0 where
  pub action_id : Option String
  pub file_id : Option String
  pub success : Option Bool
  pub conflict : Option Bool
  pub error : Option String
  pub code : Option String

pub data Reason : Type 0 where
  legacy different_owner needs_review : Reason

pub record OfflineActionReview : Type 0 where
  pub action : OfflineAction
  pub reason : Reason

pub record Classified : Type 0 where
  pub ready : List SyncableOfflineAction
  pub review : List OfflineActionReview

abbrev pub is_pending : Option Status → Bool
is_pending none = true
is_pending (some pending) = true
is_pending (some _) = false

-- `action as SyncableOfflineAction`
abbrev pub as_syncable : OfflineAction → SyncableOfflineAction
as_syncable action = record {
  id = get_or action.id 0;
  action_id = get_or action.action_id "";
  owner_id = get_or action.owner_id "";
  action = action;
}

-- One round of the loop of `classifyOfflineActions`.
unfoldable pub classify_step : Option String → Classified → OfflineAction → Classified
classify_step owner c action =
    if not (truthy_number action.id)
      || not (truthy action.action_id)
      || not (truthy action.owner_id)
    then record c { review = c.review ++ record { action = action; reason = legacy } ∷ [] }
    else if not (truthy owner) || not (action.owner_id == owner)
    then record c { review = c.review ++ record { action = action; reason = different_owner } ∷ [] }
    else if not (is_pending action.status)
    then record c { review = c.review ++ record { action = action; reason = needs_review } ∷ [] }
    else record c { ready = c.ready ++ as_syncable action ∷ [] }

unfoldable pub classify_from : Option String → Classified → List OfflineAction → Classified
unfolding classify_step
classify_from owner c [] = c
classify_from owner c (action ∷ actions) =
    classify_from owner (classify_step owner c action) actions

unfoldable pub classify_offline_actions : List OfflineAction → Option String → Classified
unfolding classify_from
classify_offline_actions actions owner =
    classify_from owner (record { ready = []; review = [] }) actions

pub data OutcomeKind : Type 0 where
  failed conflict unknown : OutcomeKind

pub data OfflineSyncOutcome : Type 0 where
  remove : ℕ → String → OfflineSyncOutcome
  keep : ℕ → String → OutcomeKind → String → OfflineSyncOutcome

-- The loop that groups the results by their action, and one round of it.
unfoldable pub group_step :
    JsMap String (List OfflineSyncResult)
    → OfflineSyncResult
    → JsMap String (List OfflineSyncResult)
group_step groups r = elim r.action_id [
  | none ↦ groups
  | some id ↦ if truthy_text id then set id (get_or (get id groups) [] ++ r ∷ []) groups else groups
]

unfoldable pub group_results :
    JsMap String (List OfflineSyncResult)
    → List OfflineSyncResult
    → JsMap String (List OfflineSyncResult)
unfolding group_step
group_results groups [] = groups
group_results groups (r ∷ results) = group_results (group_step groups r) results

-- `matches.length === 1 ? matches[0] : undefined`
abbrev pub only_one : List OfflineSyncResult → Option OfflineSyncResult
only_one (r ∷ []) = some r
only_one _ = none

unfoldable pub outcome_of : SyncableOfflineAction → Option OfflineSyncResult → OfflineSyncOutcome
outcome_of a none = keep a.id a.action_id unknown "The server did not confirm this action."
outcome_of a (some r) =
    if not (r.file_id == some a.action.file_id)
    then keep a.id a.action_id unknown "The server did not confirm this action."
    else if is_true r.success
    then remove a.id a.action_id
    else if r.code == some "outcome_unknown"
    then keep a.id a.action_id unknown
        (or_text r.error "The server could not confirm this action's outcome.")
    else if is_true r.conflict || r.code == some "version_conflict"
    then keep a.id a.action_id conflict
        (or_text r.error "The file changed before this action could be applied.")
    else keep a.id a.action_id failed (or_text r.error "The server rejected this action.")

unfoldable pub match_offline_sync_results :
    List SyncableOfflineAction → List OfflineSyncResult → List OfflineSyncOutcome
unfolding group_results outcome_of
match_offline_sync_results actions results =
    let groups = group_results [] results in
    map (λ a. outcome_of a (only_one (get_or (get a.action_id groups) []))) actions

pub record Chunking : Type 0 where
  pub chunks : List (List SyncableOfflineAction)
  pub current : List SyncableOfflineAction
  pub current_bytes : ℕ

module _ (json_bytes : SyncableOfflineAction → ℕ) (max_actions max_bytes : ℕ) where
  -- One round of the loop of `chunkOfflineActions`.
  unfoldable pub chunk_step : Chunking → SyncableOfflineAction → Chunking
  chunk_step c action =
      let action_bytes = json_bytes action + 1 in
      if not (is_empty c.current)
        && (leb max_actions (length c.current) || ltb max_bytes (c.current_bytes + action_bytes))
      then record {
        chunks = c.chunks ++ c.current ∷ [];
        current = action ∷ [];
        current_bytes = 14 + action_bytes;
      }
      else record c {
        current = c.current ++ action ∷ [];
        current_bytes = c.current_bytes + action_bytes;
      }

  unfoldable pub chunk_from : Chunking → List SyncableOfflineAction → Chunking
  unfolding chunk_step
  chunk_from c [] = c
  chunk_from c (action ∷ actions) = chunk_from (chunk_step c action) actions

  unfoldable pub chunk_offline_actions :
      List SyncableOfflineAction → List (List SyncableOfflineAction)
  unfolding chunk_from
  chunk_offline_actions actions =
      let c = chunk_from (record { chunks = []; current = []; current_bytes = 14 }) actions in
      if is_empty c.current then c.chunks else c.chunks ++ c.current ∷ []
