-- ===== src/Offline/Settled.antt =====
-- The operations of the queue keep every action settled that a sync has settled.
use vault_drive.Base.{
  ℕ, false, text_eq, option_eq, Option, none, some, List, ◌≡◌, inl, inr, ok, Option-cases,
  Bool-cases, ◌==◌, number_eq,
}
use vault_drive.Base.JsMap.{get, set, get-set, get-delete}
use vault_drive.Offline.Sync.{OfflineAction, SyncableOfflineAction}
use vault_drive.Offline.Queue.{
  OfflineQueue, Transaction, completes, request_fails, tx_fails, tx_aborts, OfflineActionUpdate,
  settle, patched, update_queue_item, remove_queue_item,
}
use vault_drive.Base.JsMap.{get-set_here}
use vault_drive.Base.{All, All-map}
use vault_drive.Offline.Fate.{stored}
use vault_drive.Offline.Sync.{is_pending, Status}

-- Not there, or not pending: such an action is held for review.
abbrev pub Settled : Option OfflineAction → Type 0
Settled none = Unit
Settled (some a) = is_pending a.status ≡ false

abbrev pub AllSettled : OfflineQueue → List SyncableOfflineAction → Type 0
AllSettled q = All (λ a. Settled (stored a.id q))

abbrev pub Keeps : OfflineQueue → OfflineQueue → Type 0
Keeps q q' = (k : ℕ) → Settled (stored k q) → Settled (stored k q')

pub AllSettled-Keeps :
    (q q' : OfflineQueue) (chunk : List SyncableOfflineAction)
    → Keeps q q'
    → AllSettled q chunk
    → AllSettled q' chunk
AllSettled-Keeps q q' chunk keeps = All-map chunk (λ a. keeps a.id)

pub still_settled :
    (q q' : OfflineQueue) (chunks : List (List SyncableOfflineAction))
    → Keeps q q'
    → All (AllSettled q) chunks
    → All (AllSettled q') chunks
still_settled q q' chunks keeps = All-map chunks (λ c. AllSettled-Keeps q q' c keeps)

pub settle-Keeps :
    (tx : Transaction) (q q' : OfflineQueue) → Keeps q q' → Keeps q (settle tx (tt {0}) q q').1
unfolding settle
settle-Keeps completes q q' h = h
settle-Keeps (request_fails e) q q' h = λ k s. s
settle-Keeps (tx_fails e) q q' h = λ k s. s
settle-Keeps (tx_aborts e) q q' h = λ k s. s

-- A patch whose status is not pending.
abbrev pub IsReview : OfflineActionUpdate → Type 0
IsReview patch = (s : Option Status) × (patch.status ≡ some s) × (is_pending s ≡ false)

pub patched-Settled :
    (id : ℕ) (patch : OfflineActionUpdate) (a : OfflineAction)
    → IsReview patch
    → Settled (some (patched id patch a))
unfolding patched
patched-Settled id patch a (s, e, h) = rw e h

pub set-Keeps :
    (id : ℕ) (a : OfflineAction) (q : OfflineQueue)
    → Settled (some a)
    → Keeps q (record q { items = set id a q.items })
set-Keeps id a q settled k s = elim (Bool-cases (id == k)) [
  | inl same ↦ rw (get-set id k a q.items, same) settled
  | inr other ↦ rw (get-set id k a q.items, other) s
]

pub update_queue_item-Keeps :
    (tx : Transaction) (id : ℕ) (patch : OfflineActionUpdate) (q : OfflineQueue)
    → IsReview patch
    → Keeps q (update_queue_item tx id patch q).1
unfolding update_queue_item
update_queue_item-Keeps tx id patch q h = elim (Option-cases (get id q.items)) [
  | inl missing ↦ rw (update_queue_item, missing) (λ k s. s)
  | inr (a, found) ↦
      rw (update_queue_item, found)
        (settle-Keeps tx q _ (set-Keeps id (patched id patch a) q (patched-Settled id patch a h)))
]

pub settle-Settled :
    (tx : Transaction) (k : ℕ) (q q' : OfflineQueue)
    → (settle tx (tt {0}) q q').0 ≡ ok tt
    → Settled (stored k q')
    → Settled (stored k (settle tx (tt {0}) q q').1)
unfolding settle
settle-Settled completes k q q' done h = h
settle-Settled (request_fails e) k q q' done h = cc done
settle-Settled (tx_fails e) k q q' done h = cc done
settle-Settled (tx_aborts e) k q q' done h = cc done

-- When the update is made, the item is settled.
pub update_queue_item-Settled :
    (tx : Transaction) (id : ℕ) (patch : OfflineActionUpdate) (q : OfflineQueue)
    → IsReview patch
    → (update_queue_item tx id patch q).0 ≡ ok tt
    → Settled (stored id (update_queue_item tx id patch q).1)
unfolding update_queue_item
update_queue_item-Settled tx id patch q h done = elim (Option-cases (get id q.items)) [
  | inl missing ↦ rw (update_queue_item, missing) (rw missing tt)
  | inr (a, found) ↦
      rw (update_queue_item, found)
        (settle-Settled tx id q _ (rw (update_queue_item, found) at done)
          (rw (get-set_here id (patched id patch a) q.items) (patched-Settled id patch a h)))
]

pub remove_queue_item-Keeps :
    (tx : Transaction) (id : ℕ) (q : OfflineQueue) → Keeps q (remove_queue_item tx id q).1
unfolding remove_queue_item
remove_queue_item-Keeps tx id q = settle-Keeps tx q _ λ k s. elim (Bool-cases (id == k)) [
  | inl same ↦ rw (get-delete id k q.items, same) tt
  | inr other ↦ rw (get-delete id k q.items, other) s
]
