-- ===== src/Offline/Fate.antt =====
-- What `triggerSync` does to each stored action.
use vault_drive.Base.{
  ℕ, text_eq, option_eq, Option, none, some, ◌≡◌, inl, inr, refl, sym, ap, ◌∙◌, subst, arith,
  Option-cases, Bool-cases, ◌==◌, number_eq, ==→eq,
}
use vault_drive.Base.JsMap.{get, get-set, get-delete}
use vault_drive.Offline.Sync.{OfflineAction}
use vault_drive.Offline.Queue.{
  OfflineQueue, Transaction, completes, request_fails, tx_fails, tx_aborts, OfflineActionUpdate,
  settle, patched, update_queue_item, remove_queue_item,
}

-- The stored action under a key.
abbrev pub stored : ℕ → OfflineQueue → Option OfflineAction
stored k q = get k q.items

-- The same action, but for its own key, its status, its error and the time of the attempt.
abbrev reviewed_as : OfflineAction → OfflineAction → OfflineAction
reviewed_as a b = record a {
  id = b.id;
  status = b.status;
  last_error = b.last_error;
  last_attempt_at = b.last_attempt_at;
}

abbrev pub SameAction : OfflineAction → OfflineAction → Type 0
SameAction a b = b ≡ reviewed_as a b

-- What may become of a stored action: it stays, or if `P` only its status changes, or if `R` it is
-- removed.
module _ (P : Type 0) (R : Type 0) where
  pub data Fate (o : Option OfflineAction) (o' : Option OfflineAction) : Type 0 where
    untouched : o' ≡ o → Fate o o'
    updated : (a b : OfflineAction) → P → o ≡ some a → o' ≡ some b → SameAction a b → Fate o o'
    removed : R → o' ≡ none → Fate o o'

  pub Fate-trans : (o o' o'' : Option OfflineAction) → Fate o o' → Fate o' o'' → Fate o o''
  Fate-trans o o' o'' (untouched e) f = subst (λ x. Fate x o'') e f
  Fate-trans o o' o'' f (untouched e) = subst (λ x. Fate o x) (sym e) f
  Fate-trans o o' o'' f (removed r e) = removed r e
  Fate-trans o o' o'' (removed r e) (updated a b p h k s) = absurd (ground (arith, e, h))
  Fate-trans o o' o'' (updated a b p h k s) (updated b' c q h' k' t) =
      let e : b ≡ b' = ground (arith, k, h') in
      updated a c p h k' (t ∙ ap (λ x. reviewed_as x c) (sym e ∙ s))

  Fate-settle :
      (tx : Transaction) (k : ℕ) (o : Option OfflineAction) (q r : OfflineQueue)
      → Fate o (stored k q)
      → Fate o (stored k r)
      → Fate o (stored k (settle tx (tt {0}) q r).1)
  unfolding settle
  Fate-settle completes k o q r before after = after
  Fate-settle (request_fails e) k o q r before after = before
  Fate-settle (tx_fails e) k o q r before after = before
  Fate-settle (tx_aborts e) k o q r before after = before

  pub update_queue_item-Fate :
      (tx : Transaction) (k id : ℕ) (patch : OfflineActionUpdate) (q : OfflineQueue)
      → (id ≡ k → P)
      → Fate (stored k q) (stored k (update_queue_item tx id patch q).1)
  unfolding update_queue_item
  update_queue_item-Fate tx k id patch q p = elim (Option-cases (get id q.items)) [
    | inl missing ↦ rw (update_queue_item, missing) (untouched refl)
    | inr (current, found) ↦
        rw (update_queue_item, found)
          (Fate-settle tx k (stored k q) q _ (untouched refl) (elim (Bool-cases (id == k)) [
            | inl same ↦
                updated current (patched id patch current) (p (==→eq id k same))
                  (subst (λ i. stored i q ≡ some current) (==→eq id k same) found)
                  (get-set id k (patched id patch current) q.items ∙ rw same refl)
                  (unfold patched in refl)
            | inr other ↦
                untouched (get-set id k (patched id patch current) q.items ∙ rw other refl)
          ]))
  ]

  pub remove_queue_item-Fate :
      (tx : Transaction) (k id : ℕ) (q : OfflineQueue)
      → (id ≡ k → R)
      → Fate (stored k q) (stored k (remove_queue_item tx id q).1)
  unfolding remove_queue_item
  remove_queue_item-Fate tx k id q r =
      Fate-settle tx k (stored k q) q _ (untouched refl) (elim (Bool-cases (id == k)) [
        | inl same ↦ removed (r (==→eq id k same)) (get-delete id k q.items ∙ rw same refl)
        | inr other ↦ untouched (get-delete id k q.items ∙ rw other refl)
      ])
