-- ===== src/Offline/Chunks.antt =====
-- How `chunkOfflineActions` cuts the queue into requests.
use vault_drive.Base.{
  ℕ, ◌+◌, ◌≤◌, Bool, false, not, ◌&&◌, ◌||◌, leb, ltb, if◌then◌else◌, List, [], ◌∷◌, ◌++◌, ◌≡◌, ◌⊎◌,
  inl, inr, refl, sym, ap, ◌∙◌, append-nil, append_assoc, length, length-append, All, All-append,
  arith, is_empty, Bool-cases,
}
use vault_drive.Offline.Sync.{
  SyncableOfflineAction, Chunking, chunk_step, chunk_from, chunk_offline_actions,
}

abbrev pub concat {ℓ} : {A : Type ℓ} → List (List A) → List A
concat [] = []
concat (l ∷ ls) = l ++ concat ls

concat-append_one {ℓ} :
    {A : Type ℓ} (ls : List (List A)) (l : List A) → concat (ls ++ l ∷ []) ≡ concat ls ++ l
concat-append_one [] l = append-nil l
concat-append_one (m ∷ ls) l =
    ap (λ t. m ++ t) (concat-append_one ls l) ∙ sym (append_assoc m (concat ls) l)

module _ (json_bytes : SyncableOfflineAction → ℕ) where
  -- The bytes of the actions, each with its comma.
  abbrev pub total_bytes : List SyncableOfflineAction → ℕ
  total_bytes [] = 0
  total_bytes (a ∷ rest) = json_bytes a + 1 + total_bytes rest

  total_bytes-append_one :
      (rest : List SyncableOfflineAction) (a : SyncableOfflineAction)
      → total_bytes (rest ++ a ∷ []) ≡ total_bytes rest + (json_bytes a + 1)
  total_bytes-append_one [] a = omega arith
  total_bytes-append_one (b ∷ rest) a = omega (arith, total_bytes-append_one rest a)

module _ (json_bytes : SyncableOfflineAction → ℕ) (max_actions max_bytes : ℕ) where
  -- A request that the server takes: some actions, within both limits; one that is alone may be
  -- larger than the limit of bytes.
  pub record IsRequest (chunk : List SyncableOfflineAction) : Type 0 where
    pub some_actions : 1 ≤ length chunk
    pub few_actions : length chunk ≤ max_actions
    pub few_bytes : (length chunk ≡ 1) ⊎ (14 + total_bytes json_bytes chunk ≤ max_bytes)

  abbrev cuts : Chunking → SyncableOfflineAction → Bool
  cuts c a =
      not (is_empty c.current)
      && (leb max_actions (length c.current)
          || ltb max_bytes (c.current_bytes + (json_bytes a + 1)))

  record IsChunking (c : Chunking) : Type 0 where
    done : All IsRequest c.chunks
    current : (c.current ≡ []) ⊎ IsRequest c.current
    counted : c.current_bytes ≡ 14 + total_bytes json_bytes c.current

  IsRequest-nonempty :
      (chunk : List SyncableOfflineAction)
      → is_empty chunk ≡ false
      → (chunk ≡ []) ⊎ IsRequest chunk
      → IsRequest chunk
  IsRequest-nonempty chunk h (inl e) = absurd (ground arith)
  IsRequest-nonempty chunk h (inr r) = r

  module _ (positive : 1 ≤ max_actions) where
    IsRequest-append_one :
        (chunk : List SyncableOfflineAction) (a : SyncableOfflineAction)
        → (not (is_empty chunk)
            && (leb max_actions (length chunk)
                || ltb max_bytes (14 + total_bytes json_bytes chunk + (json_bytes a + 1))))
          ≡ false
        → IsRequest (chunk ++ a ∷ [])
    IsRequest-append_one [] a h = record {
      some_actions = omega arith;
      few_actions = omega arith;
      few_bytes = inl refl;
    }
    IsRequest-append_one (b ∷ chunk) a h = record {
      some_actions = omega (arith, length-append (b ∷ chunk) (a ∷ []));
      few_actions = ground (arith, length-append (b ∷ chunk) (a ∷ []));
      few_bytes = inr (ground (arith, total_bytes-append_one json_bytes (b ∷ chunk) a));
    }

    chunk_step-IsChunking :
        (c : Chunking) (a : SyncableOfflineAction)
        → IsChunking c
        → IsChunking (chunk_step json_bytes max_actions max_bytes c a)
    unfolding chunk_step
    chunk_step-IsChunking c a v = elim (Bool-cases (cuts c a)) [
      | inl cut ↦ rw cut (record {
        done =
            All-append IsRequest c.chunks (c.current ∷ []) v.done
              (IsRequest-nonempty c.current (ground (arith, cut)) v.current, tt);
        current = inr (IsRequest-append_one [] a refl);
        counted = omega arith;
      })
      | inr fits ↦ rw fits (record {
        done = v.done;
        current = inr (IsRequest-append_one c.current a (rw (← v.counted) fits));
        counted = omega (arith, v.counted, total_bytes-append_one json_bytes c.current a);
      })
    ]

    chunk_from-IsChunking :
        (actions : List SyncableOfflineAction) (c : Chunking)
        → IsChunking c
        → IsChunking (chunk_from json_bytes max_actions max_bytes c actions)
    unfolding chunk_from
    chunk_from-IsChunking [] c v = v
    chunk_from-IsChunking (a ∷ actions) c v =
        chunk_from-IsChunking actions _ (chunk_step-IsChunking c a v)

  chunk_step-concat :
      (c : Chunking) (a : SyncableOfflineAction)
      → concat (chunk_step json_bytes max_actions max_bytes c a).chunks
          ++ (chunk_step json_bytes max_actions max_bytes c a).current
        ≡ (concat c.chunks ++ c.current) ++ a ∷ []
  unfolding chunk_step
  chunk_step-concat c a = ground (
    arith,
    concat-append_one c.chunks c.current,
    append_assoc (concat c.chunks) c.current (a ∷ []),
  )

  chunk_from-concat :
      (actions : List SyncableOfflineAction) (c : Chunking)
      → concat (chunk_from json_bytes max_actions max_bytes c actions).chunks
          ++ (chunk_from json_bytes max_actions max_bytes c actions).current
        ≡ (concat c.chunks ++ c.current) ++ actions
  unfolding chunk_from
  chunk_from-concat [] c = sym (append-nil _)
  chunk_from-concat (a ∷ actions) c =
      chunk_from-concat actions (chunk_step json_bytes max_actions max_bytes c a)
      ∙ ap (λ t. t ++ actions) (chunk_step-concat c a)
      ∙ append_assoc (concat c.chunks ++ c.current) (a ∷ []) actions

-- The requests hold all actions in their order, none is empty, none has more than the allowed
-- number of actions (at least one is allowed), and each fits the limit of bytes, with the brackets
-- and a comma for each action counted, unless it is a single action.
pub chunk_offline_actions_requests :
    (json_bytes : SyncableOfflineAction → ℕ) (max_actions max_bytes : ℕ)
    (actions : List SyncableOfflineAction)
    → 1 ≤ max_actions
    → (concat (chunk_offline_actions json_bytes max_actions max_bytes actions) ≡ actions)
      × All
          (IsRequest json_bytes max_actions max_bytes)
          (chunk_offline_actions json_bytes max_actions max_bytes actions)
unfolding chunk_offline_actions
chunk_offline_actions_requests json_bytes max_actions max_bytes actions positive =
    finish (chunk_from json_bytes max_actions max_bytes start actions)
      (chunk_from-concat json_bytes max_actions max_bytes actions start)
      (chunk_from-IsChunking json_bytes max_actions max_bytes positive actions start
        (record { done = tt; current = inl refl; counted = omega arith }))
  where
    start : Chunking
    start = record { chunks = []; current = []; current_bytes = 14 }

    finish :
        (c : Chunking)
        → concat c.chunks ++ c.current ≡ actions
        → IsChunking json_bytes max_actions max_bytes c
        → (concat (if is_empty c.current then c.chunks else c.chunks ++ c.current ∷ []) ≡ actions)
          × All
              (IsRequest json_bytes max_actions max_bytes)
              (if is_empty c.current then c.chunks else c.chunks ++ c.current ∷ [])
    finish c e v = elim (Bool-cases (is_empty c.current)) [
      | inl none_left ↦
          rw none_left (ground (arith, none_left, e, append-nil (concat c.chunks)), v.done)
      | inr some_left ↦ rw some_left (
        concat-append_one c.chunks c.current ∙ e,
        All-append (IsRequest json_bytes max_actions max_bytes) c.chunks (c.current ∷ []) v.done
            (IsRequest-nonempty json_bytes max_actions max_bytes c.current some_left v.current, tt),
      )
    ]
