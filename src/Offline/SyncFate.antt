-- ===== src/Offline/SyncFate.antt =====
-- What `triggerSync` does to each stored action, whatever the server and the browser answer.
use vault_drive.Base.{
  ℕ, true, text_eq, option_eq, String, Option, some, List, [], ◌∷◌, ◌≡◌, ◌≢◌, inl, inr, refl, arith,
  Outcome, ok, throw, Option-cases, Bool-cases, number_eq, get_elem?, suc, zero, is_empty,
}
use vault_drive.Offline.Sync.{
  OfflineAction, SyncableOfflineAction, OfflineSyncResult, chunk_offline_actions,
}
use vault_drive.Offline.Queue.{OfflineQueue}
use vault_drive.Offline.Dashboard.{results, SyncEnvironment, ready_actions, perform_sync}
use vault_drive.Offline.Fate.{stored, Fate, untouched}
use vault_drive.Offline.Chunks.{concat, chunk_offline_actions_requests}
use vault_drive.Offline.Classify.{is_sendable, classify_offline_actions-partition}
use vault_drive.Offline.Match.{answers, match_offline_sync_results-remove}
use vault_drive.Base.{filter, truthy_text_iff}
use vault_drive.Offline.Queue.{get_offline_queue}
use vault_drive.Offline.Sync.{as_syncable}
use vault_drive.Base.{get_elem?-map_back, get_elem?-front, get_elem?-behind, get_elem?-filter}
use vault_drive.Offline.SyncSteps.{Allows, sync_chunks-Fate}

-- The action `k` was ready when the queue was read.
abbrev pub WasReady : List SyncableOfflineAction → ℕ → Type 0
WasReady ready k = (n : ℕ) × (a : SyncableOfflineAction) × (get_elem? ready n ≡ some a) × (a.id ≡ k)

-- A request was answered with one result for the action `k`, for its file, that says success.
pub record Confirmed (env : SyncEnvironment) (ready : List SyncableOfflineAction) (k : ℕ)
    : Type 0 where
  pub action : SyncableOfflineAction
  pub position : ℕ
  pub request : List SyncableOfflineAction
  pub response : List OfflineSyncResult
  pub answer : OfflineSyncResult
  pub was_ready : get_elem? ready position ≡ some action
  pub keyed : action.id ≡ k
  pub answered : env.respond request ≡ results response
  pub only_answer : answers action.action_id response ≡ answer ∷ []
  pub same_file : answer.file_id ≡ some action.action.file_id
  pub success : answer.success ≡ some true

get_elem?-concat :
    (chunks : List (List SyncableOfflineAction)) (j i : ℕ) (chunk : List SyncableOfflineAction)
    (a : SyncableOfflineAction)
    → get_elem? chunks j ≡ some chunk
    → get_elem? chunk i ≡ some a
    → (n : ℕ) × (get_elem? (concat chunks) n ≡ some a)
get_elem?-concat [] j i chunk a hj hi = cc hj
get_elem?-concat (c ∷ chunks) zero i chunk a hj hi =
    (i, get_elem?-front c (concat chunks) i a (let e : c ≡ chunk = cc hj in rw e hi))
get_elem?-concat (c ∷ chunks) (suc j) i chunk a hj hi =
    let (n, h) = get_elem?-concat chunks j i chunk a hj hi in
    get_elem?-behind c (concat chunks) n a h

as_syncable-named :
    (owner : Option String) (b : OfflineAction)
    → is_sendable owner b ≡ true
    → (as_syncable b).action_id ≢ ""
unfolding is_sendable
as_syncable-named owner b h = elim (Option-cases b.action_id) [
  | inl missing ↦ absurd (ground (arith, h, missing))
  | inr (id, e) ↦ λ empty. ground (arith, h, e, empty, truthy_text_iff id)
]

ready_named :
    (q : OfflineQueue) (owner : Option String) (n : ℕ) (a : SyncableOfflineAction)
    → get_elem? (ready_actions owner q) n ≡ some a
    → a.action_id ≢ ""
unfolding ready_actions
ready_named q owner n a h =
    let parts = classify_offline_actions-partition (get_offline_queue q) owner in
    let (b, hb, e) =
      get_elem?-map_back as_syncable (filter (is_sendable owner) (get_offline_queue q)) n a
        (rw parts.0 at h) in
    rw e (
      as_syncable-named owner b (get_elem?-filter (is_sendable owner) (get_offline_queue q) n b hb))

-- What the requests' actions and answers allow.
requests_allow :
    (env : SyncEnvironment) (owner : Option String) (q : OfflineQueue) (k j : ℕ)
    (chunk : List SyncableOfflineAction)
    → get_elem? (chunk_offline_actions env.json_bytes 100 900_000 (ready_actions owner q)) j
      ≡ some chunk
    → Allows
        (WasReady (ready_actions owner q) k)
        (Confirmed env (ready_actions owner q) k)
        env
        k
        chunk
requests_allow env owner q k j chunk hj = (
  λ i a hi e. let (n, h) = place i a hi in (n, a, h, e),
  λ rs i a answered hi removes e.
      let (n, h) = place i a hi in
      let (r, only, file, success) =
        (match_offline_sync_results-remove chunk rs i a hi (ready_named q owner n a h)).0 removes in
      record {
        action = a;
        position = n;
        request = chunk;
        response = rs;
        answer = r;
        was_ready = h;
        keyed = e;
        answered = answered;
        only_answer = only;
        same_file = file;
        success = success;
      },
)
  where
    place :
        (i : ℕ) (a : SyncableOfflineAction)
        → get_elem? chunk i ≡ some a
        → (n : ℕ) × (get_elem? (ready_actions owner q) n ≡ some a)
    place i a hi =
        let all_sent =
          (chunk_offline_actions_requests env.json_bytes 100 900_000 (ready_actions owner q)
            (omega arith)).0 in
        let (n, h) = get_elem?-concat _ j i chunk a hj hi in (n, rw all_sent at h)

-- Whatever the server and the browser answer, a sync leaves each stored action as it is, or, if it
-- was ready, changes its status, error and time of attempt alone, or, if it was ready and confirmed,
-- removes it.
pub perform_sync-Fate :
    (env : SyncEnvironment) (owner : Option String) (reading : Outcome (Unit {0}))
    (q : OfflineQueue) (k : ℕ)
    → Fate
        (WasReady (ready_actions owner q) k)
        (Confirmed env (ready_actions owner q) k)
        (stored k q)
        (stored k (perform_sync env owner reading q).1.queue)
unfolding perform_sync
perform_sync-Fate env owner (throw e) q k = untouched refl
perform_sync-Fate env owner (ok u) q k = elim (Bool-cases (is_empty (ready_actions owner q))) [
  | inl nothing ↦ rw (perform_sync, nothing) (untouched refl)
  | inr something ↦
      rw (perform_sync, something)
        (sync_chunks-Fate _ _ env k
          (chunk_offline_actions env.json_bytes 100 900_000 (ready_actions owner q)) _
          (requests_allow env owner q k))
]
