-- ===== src/Offline/Storage.antt =====
-- What the stored queue keeps: keys that were given once, and records that carry their key.
use vault_drive.Base.{
  ℕ, ◌+◌, ◌∙◌, true, ◌<◌, ◌≤◌, String, some, [], ◌∷◌, ◌≡◌, ◌≢◌, ◌⊎◌, inl, inr, refl, subst, All,
  All-map, arith, Bool-cases, Option-cases, ◌==◌, number_eq, text_eq, ==→eq, ==_refl, truthy, ok,
  option_eq,
}
use vault_drive.Base.JsMap.{All-set, All-delete, JsMap, get, get-set, set, delete}
use vault_drive.Offline.Sync.{OfflineAction, rename}
use vault_drive.Offline.Queue.{
  OfflineQueue, Transaction, completes, request_fails, tx_fails, tx_aborts, NewOfflineAction,
  OfflineActionUpdate, settle, patched, stored_action, queue_offline_action, update_queue_item,
  clear_offline_queue, remove_queue_item, fresh_hash,
}

-- Every stored record is under its own `id`, which is a key that was given before the next one.
pub record IsEntry (next : ℕ) (entry : ℕ × OfflineAction) : Type 0 where
  keyed : entry.1.id ≡ some entry.0
  positive : 1 ≤ entry.0
  given : entry.0 < next

abbrev pub Ascending : JsMap ℕ OfflineAction → Type 0
Ascending [] = Unit
Ascending (e ∷ items) = All (λ f. e.0 < f.0) items × Ascending items

-- The keys ascend, so that no two are the same.
abbrev pub IsQueue : OfflineQueue → Type 0
IsQueue q = (1 ≤ q.next_id) × All (IsEntry q.next_id) q.items × Ascending q.items

-- The operations, with what the browser and the random source answer.
pub data Step (q : OfflineQueue) : OfflineQueue → Type 0 where
  queueing :
      (tx : Transaction) (action_uuid hash_uuid : String) (action : NewOfflineAction)
      → Step q (queue_offline_action tx action_uuid hash_uuid action q).1
  updating :
      (tx : Transaction) (id : ℕ) (patch : OfflineActionUpdate)
      → Step q (update_queue_item tx id patch q).1
  clearing : (tx : Transaction) → Step q (clear_offline_queue tx q).1
  removing : (tx : Transaction) (id : ℕ) → Step q (remove_queue_item tx id q).1

pub data Reachable : OfflineQueue → Type 0 where
  created : Reachable (record { next_id = 1; items = [] })
  stepped : (q r : OfflineQueue) → Reachable q → Step q r → Reachable r

Ascending-delete :
    (k : ℕ) (items : JsMap ℕ OfflineAction) → Ascending items → Ascending (delete k items)
unfolding delete
Ascending-delete k [] h = tt
Ascending-delete k ((j, b) ∷ items) (above, h) = elim (Bool-cases (j == k)) [
  | inl same ↦ rw same (Ascending-delete k items h)
  | inr other ↦ rw other (All-delete (λ f. j < f.0) k items above, Ascending-delete k items h)
]

get-All {κ} :
    (P : ℕ × OfflineAction → Type κ) (k : ℕ) (a : OfflineAction) (items : JsMap ℕ OfflineAction)
    → All P items
    → get k items ≡ some a
    → P (k, a)
unfolding get
get-All P k a [] h e = cc
get-All P k a ((j, b) ∷ items) (p, h) e = elim (Bool-cases (j == k)) [
  | inl same ↦
      let value : b ≡ a = ground (arith, e, same) in
      subst (λ c. P (k, c)) value (subst (λ i. P (i, b)) (==→eq j k same) p)
  | inr other ↦ get-All P k a items h (ground (arith, e, other))
]

-- A key that is set is either there already or larger than all of them.
Ascending-set :
    (k next : ℕ) (a : OfflineAction) (items : JsMap ℕ OfflineAction)
    → All (IsEntry next) items
    → ((b : OfflineAction) × (get k items ≡ some b)) ⊎ (next ≤ k)
    → Ascending items
    → Ascending (set k a items)
unfolding set get
Ascending-set k next a [] e w h = (tt, tt)
Ascending-set k next a ((j, b) ∷ items) (e, es) w (above, h) = elim (Bool-cases (j == k)) [
  | inl same ↦ rw same (above, h)
  | inr other ↦
      let below : j < k = elim w [
        | inl (c, found) ↦ get-All (λ f. j < f.0) k c items above (ground (arith, found, other))
        | inr fresh ↦ omega (arith, e.given, fresh)
      ] in
      let further : ((b : OfflineAction) × (get k items ≡ some b)) ⊎ (next ≤ k) = elim w [
        | inl (c, found) ↦ inl (c, ground (arith, found, other))
        | inr fresh ↦ inr fresh
      ] in
      rw other
        (All-set (λ f. j < f.0) k a items below above, Ascending-set k next a items es further h)
]

queue_offline_action-IsQueue :
    (tx : Transaction) (action_uuid hash_uuid : String) (action : NewOfflineAction)
    (q : OfflineQueue)
    → IsQueue q
    → IsQueue (queue_offline_action tx action_uuid hash_uuid action q).1
unfolding queue_offline_action stored_action
queue_offline_action-IsQueue completes u v action q (positive, entries, ascending) = (
  omega (arith, positive),
  All-set (IsEntry (q.next_id + 1)) q.next_id _ q.items
      (record { keyed = refl; positive = positive; given = omega arith })
      (All-map q.items
        (λ f e. record { keyed = e.keyed; positive = e.positive; given = omega (arith, e.given) })
        entries),
  Ascending-set q.next_id q.next_id _ q.items entries (inr (omega arith)) ascending,
)
queue_offline_action-IsQueue (request_fails e) u v action q h = h
queue_offline_action-IsQueue (tx_fails e) u v action q h = h
queue_offline_action-IsQueue (tx_aborts e) u v action q h = h

settle-IsQueue :
    (tx : Transaction) (q r : OfflineQueue)
    → IsQueue q
    → IsQueue r
    → IsQueue (settle tx (tt {0}) q r).1
unfolding settle
settle-IsQueue completes q r before after = after
settle-IsQueue (request_fails e) q r before after = before
settle-IsQueue (tx_fails e) q r before after = before
settle-IsQueue (tx_aborts e) q r before after = before

update_queue_item-IsQueue :
    (tx : Transaction) (id : ℕ) (patch : OfflineActionUpdate) (q : OfflineQueue)
    → IsQueue q
    → IsQueue (update_queue_item tx id patch q).1
unfolding update_queue_item patched
update_queue_item-IsQueue tx id patch q (positive, entries, ascending) =
    elim (Option-cases (get id q.items)) [
      | inl missing ↦ rw (update_queue_item, missing) (positive, entries, ascending)
      | inr (current, found) ↦
          let e = get-All (IsEntry q.next_id) id current q.items entries found in
          rw (update_queue_item, found)
            (settle-IsQueue tx q _ (positive, entries, ascending)
              (
                positive,
                All-set (IsEntry q.next_id) id _ q.items
                    (record { keyed = refl; positive = e.positive; given = e.given }) entries,
                Ascending-set id q.next_id _ q.items entries (inl (current, found)) ascending,
              ))
    ]

Step-IsQueue : (q r : OfflineQueue) → IsQueue q → Step q r → IsQueue r
unfolding clear_offline_queue remove_queue_item
Step-IsQueue q r h (queueing tx u v action) = queue_offline_action-IsQueue tx u v action q h
Step-IsQueue q r h (updating tx id patch) = update_queue_item-IsQueue tx id patch q h
Step-IsQueue q r h (clearing tx) = settle-IsQueue tx q _ h (h.0, tt, tt)
Step-IsQueue q r h (removing tx id) =
    settle-IsQueue tx q _ h
      (h.0, All-delete (IsEntry q.next_id) id q.items h.1, Ascending-delete id q.items h.2)

-- In every queue that the operations reach, whatever the browser answers, the keys ascend (none is
-- used twice), each is at least 1 and below the next key, and each record carries its own key.
pub Reachable-IsQueue : (q : OfflineQueue) → Reachable q → IsQueue q
Reachable-IsQueue q created = (omega arith, tt, tt)
Reachable-IsQueue q (stepped p _ before step) = Step-IsQueue p q (Reachable-IsQueue p before) step

fresh_hash-changes :
    (uuid : String) (action : NewOfflineAction)
    → action.type ≡ rename
    → uuid ≢ action.parent_hash
    → truthy (some uuid) ≡ true
    → (hash : String) × (fresh_hash uuid action ≡ some hash)
      × (hash ≢ action.parent_hash)
      × (truthy (some hash) ≡ true)
unfolding fresh_hash
fresh_hash-changes uuid action renames different filled = elim (Option-cases action.new_hash) [
  | inl missing ↦ (uuid, ground (arith, renames, missing), different, filled)
  | inr (given, e) ↦ elim (Bool-cases (truthy (some given))) [
    | inr empty ↦ (uuid, rw (fresh_hash, renames, e, empty) refl, different, filled)
    | inl full ↦ elim (Bool-cases (given == action.parent_hash)) [
      | inl same ↦ (uuid, rw (fresh_hash, renames, e, full, same) refl, different, filled)
      | inr other ↦ (
        given,
        rw (fresh_hash, renames, e, full, other) refl,
        λ eq. ground (arith, other, eq, text_eq.same_iff given action.parent_hash),
        full,
      )
    ]
  ]
]

-- A rename that is queued (the promise gives its key) is stored under that key with a hash that is not
-- empty and not its parent's, whatever hash it came with, if the random UUID is neither; and what was
-- stored under the other keys is as before.
pub queue_offline_action-changes :
    (tx : Transaction) (action_uuid uuid : String) (action : NewOfflineAction) (q : OfflineQueue)
    (id k : ℕ)
    → action.type ≡ rename
    → uuid ≢ action.parent_hash
    → truthy (some uuid) ≡ true
    → (queue_offline_action tx action_uuid uuid action q).0 ≡ ok id
    → ((stored : OfflineAction) × (hash : String) × (get id
            (queue_offline_action tx action_uuid uuid action q).1.items
          ≡ some stored)
        × (stored.new_hash ≡ some hash)
        × (hash ≢ action.parent_hash)
        × (truthy (some hash) ≡ true))
      × ((id ≡ k)
          ⊎ (get k (queue_offline_action tx action_uuid uuid action q).1.items ≡ get k q.items))
unfolding queue_offline_action stored_action settle
queue_offline_action-changes completes action_uuid uuid action q id k renames different filled h =
    let e : q.next_id ≡ id = cc h in
    let (hash, fresh, other, full) = fresh_hash-changes uuid action renames different filled in
    (
      (
        stored_action q.next_id action_uuid uuid action,
        hash,
        rw (← e) (get-set q.next_id q.next_id _ q.items ∙ rw (==_refl q.next_id) refl),
        fresh,
        other,
        full,
      ),
      elim (Bool-cases (q.next_id == k)) [
        | inl same ↦ inl (rw (← e) (==→eq q.next_id k same))
        | inr apart ↦ inr (get-set q.next_id k _ q.items ∙ rw apart refl)
      ],
    )
queue_offline_action-changes (request_fails m) action_uuid uuid action q id k renames different
      filled h =
    cc h
queue_offline_action-changes (tx_fails m) action_uuid uuid action q id k renames different filled
      h =
    cc h
queue_offline_action-changes (tx_aborts m) action_uuid uuid action q id k renames different filled
      h =
    cc h
