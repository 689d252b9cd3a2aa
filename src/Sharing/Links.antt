-- ===== src/Sharing/Links.antt =====
-- The loop over all links: whom it sends to, and what it counts.
use vault_drive.Base.{
  ℕ, ◌+◌, ◌≤◌, true, String, Option, none, some, List, [], ◌∷◌, ◌++◌, ◌≡◌, inl, inr, refl, sym,
  subst, arith, append-nil, append_assoc, filter, length, length-filter-le, is_empty, truthy,
  get_or, text_eq, All, All-map, All-append, All-filter, Bool-cases, ok, Outcome-cases,
}
use vault_drive.Sharing.FileKey.{
  Crypto, CachedCredential, StoredUserKeyState, resolve_owner_private_key_from_session,
}
use vault_drive.Sharing.Sync.{
  SyncableFolderShareLink, SyncResult, Post, History, Server, is_link_currently_active, sync_link,
  count_link, sync_links, all_skipped, sync_folder_share_links_internal,
}
use vault_drive.Sharing.Missing.{
  Among, Sent, nothing, one, IsUpload, sync_single_folder_share_link-Sent,
}

-- The requests that were added to a history.
pub data Grown {κ} (P : Post → Type κ) (h : History) : History → Type κ where
  by : (posts : List Post) → All P posts → Grown P h (h ++ posts)

Grown-refl {κ} : (P : Post → Type κ) (h : History) → Grown P h h
Grown-refl P h = subst (Grown P h) (append-nil h) (by [] tt)

Grown-trans {κ} :
    (P : Post → Type κ) (h h' h2 : History) → Grown P h h' → Grown P h' h2 → Grown P h h2
Grown-trans P h _ _ (by posts a) (by more b) =
    subst (Grown P h) (sym (append_assoc h posts more))
      (by (posts ++ more) (All-append P posts more a b))

module _ (c : Crypto) (server : Server) (auth_token : String) where
  -- The request is for this link, which has a folder key of the owner's.
  pub record IsForLink (link : SyncableFolderShareLink) (post : Post) : Type 0 where
    pub for_link : post.link_id ≡ link.id
    pub recoverable : truthy link.owner_wrapped_folder_key ≡ true

  Sent-Grown :
      (credential : CachedCredential) (key folder_key : c.Key) (link : SyncableFolderShareLink)
      (h h' h0 : History)
      → truthy link.owner_wrapped_folder_key ≡ true
      → Sent (IsUpload c server credential key folder_key link auth_token h0) h h'
      → Grown (IsForLink link) h h'
  Sent-Grown credential key folder_key link h _ h0 recoverable nothing =
      Grown-refl (IsForLink link) h
  Sent-Grown credential key folder_key link h _ h0 recoverable (one post u) =
      by (post ∷ []) (record { for_link = u.for_link; recoverable = recoverable }, tt)

  sync_link-Grown :
      (credential : CachedCredential) (key : c.Key) (link : SyncableFolderShareLink) (h : History)
      → Grown (IsForLink link) h (sync_link c server auth_token credential key link h).1
  unfolding sync_link
  sync_link-Grown credential key link h = elim (Bool-cases (truthy link.owner_wrapped_folder_key)) [
    | inr none_there ↦ rw (sync_link, none_there) (Grown-refl (IsForLink link) h)
    | inl there ↦
        elim (Outcome-cases (c.unwrap_key_with_rsa key (get_or link.owner_wrapped_folder_key ""))) [
          | inl (e, failed) ↦ rw (sync_link, there, failed) (Grown-refl (IsForLink link) h)
          | inr (folder_key, opened) ↦
              rw (sync_link, there, opened)
                (Sent-Grown credential key folder_key link h _ h there (
                  sync_single_folder_share_link-Sent c server credential key folder_key link
                    auth_token none h))
        ]
  ]

  -- The request is for one of these links that is active and has a folder key of the owner's.
  pub record IsForActive (time_of : String → Option ℕ) (now : ℕ)
      (links : List SyncableFolderShareLink) (post : Post) : Type 0 where
    pub link : SyncableFolderShareLink
    pub among : Among link links
    pub active : is_link_currently_active time_of now link ≡ true
    pub for_this : IsForLink link post

  module _ (time_of : String → Option ℕ) (now : ℕ) (links : List SyncableFolderShareLink) where
    abbrev MayTake : SyncableFolderShareLink → Type 0
    MayTake link = Among link links × (is_link_currently_active time_of now link ≡ true)

    sync_links-Grown :
        (credential : CachedCredential) (key : c.Key) (todo : List SyncableFolderShareLink)
        (r : SyncResult) (h : History)
        → All MayTake todo
        → Grown
            (IsForActive time_of now links)
            h
            (sync_links c server auth_token credential key todo r h).1
    unfolding sync_links
    sync_links-Grown credential key [] r h m = Grown-refl (IsForActive time_of now links) h
    sync_links-Grown credential key (link ∷ todo) r h (m, ms) =
        let (counted, h') = sync_link c server auth_token credential key link h in
        Grown-trans (IsForActive time_of now links) h h' _
          (widen link h h' m (sync_link-Grown credential key link h))
          (sync_links-Grown credential key todo (count_link counted r) h' ms)
      where
        widen :
            (link : SyncableFolderShareLink) (h h' : History)
            → MayTake link
            → Grown (IsForLink link) h h'
            → Grown (IsForActive time_of now links) h h'
        widen link h _ (among, active) (by posts a) = by posts (
            All-map posts
              (λ post f. record { link = link; among = among; active = active; for_this = f }) a)

    Among-here : (links : List SyncableFolderShareLink) → All (λ l. Among l links) links
    Among-here [] = tt
    Among-here (l ∷ ls) = (inl refl, All-map ls (λ x a. inr a) (Among-here ls))

    -- Whatever the server answers, and whether or not the whole succeeds, every request that is sent is
    -- for one of the given links, active at this time, and with a folder key wrapped for the owner.
    pub sync_folder_share_links_internal-Grown :
        (credential : Option CachedCredential) (cached_key : Option c.Key)
        (user : Option StoredUserKeyState) (h : History)
        → Grown
            (IsForActive time_of now links)
            h
            (sync_folder_share_links_internal c server time_of now auth_token credential cached_key
              user links h).1
    unfolding sync_folder_share_links_internal
    sync_folder_share_links_internal-Grown none cached_key user h =
        Grown-refl (IsForActive time_of now links) h
    sync_folder_share_links_internal-Grown (some credential) cached_key user h =
        let active = filter (is_link_currently_active time_of now) links in
        elim (Bool-cases (is_empty active)) [
          | inl none_active ↦
              rw (sync_folder_share_links_internal, none_active)
                (Grown-refl (IsForActive time_of now links) h)
          | inr some_active ↦
              elim (Outcome-cases
                (resolve_owner_private_key_from_session c cached_key (some credential) user)) [
                  | inl (e, failed) ↦
                      rw (sync_folder_share_links_internal, some_active, failed)
                        (Grown-refl (IsForActive time_of now links) h)
                  | inr (none, no_key) ↦
                      rw (sync_folder_share_links_internal, some_active, no_key)
                        (Grown-refl (IsForActive time_of now links) h)
                  | inr (some key, has_key) ↦
                      rw (sync_folder_share_links_internal, some_active, has_key)
                        (sync_links-Grown credential key active (all_skipped 0) h (
                          All-filter (λ l. Among l links) (is_link_currently_active time_of now)
                            links (Among-here links)))
                ]
        ]

  count_link-le :
      (o : Option ℕ) (r : SyncResult)
      → (count_link o r).synced_links + (count_link o r).skipped_links
        ≤ r.synced_links + r.skipped_links + 1
  count_link-le none r = omega arith
  count_link-le (some files) r = ground arith

  sync_links-le :
      (credential : CachedCredential) (key : c.Key) (todo : List SyncableFolderShareLink)
      (r : SyncResult) (h : History)
      → (sync_links c server auth_token credential key todo r h).0.synced_links
          + (sync_links c server auth_token credential key todo r h).0.skipped_links
        ≤ r.synced_links + r.skipped_links + length todo
  unfolding sync_links
  sync_links-le credential key [] r h = omega arith
  sync_links-le credential key (link ∷ todo) r h =
      let (counted, h') = sync_link c server auth_token credential key link h in
      omega (
        arith,
        count_link-le counted r,
        sync_links-le credential key todo (count_link counted r) h',
      )

  -- A result never counts more links as synchronised or skipped than were given.
  pub sync_folder_share_links_internal-le :
      (time_of : String → Option ℕ) (now : ℕ) (links : List SyncableFolderShareLink)
      (credential : Option CachedCredential) (cached_key : Option c.Key)
      (user : Option StoredUserKeyState) (h : History) (r : SyncResult)
      → (sync_folder_share_links_internal c server time_of now auth_token credential cached_key user
          links h).0
        ≡ ok r
      → r.synced_links + r.skipped_links ≤ length links
  unfolding sync_folder_share_links_internal
  sync_folder_share_links_internal-le time_of now links none cached_key user h r e =
      ground (arith, e)
  sync_folder_share_links_internal-le time_of now links (some credential) cached_key user h r e =
      let active = filter (is_link_currently_active time_of now) links in
      let fewer = length-filter-le (is_link_currently_active time_of now) links in
      elim (Bool-cases (is_empty active)) [
        | inl none_active ↦ ground (arith, e, none_active)
        | inr some_active ↦
            elim (Outcome-cases
              (resolve_owner_private_key_from_session c cached_key (some credential) user)) [
                | inl (message, failed) ↦ ground (arith, e, some_active, failed)
                | inr (none, no_key) ↦ ground (arith, e, some_active, no_key, fewer)
                | inr (some key, has_key) ↦ ground (
                  arith,
                  e,
                  some_active,
                  has_key,
                  fewer,
                  sync_links-le credential key active (all_skipped 0) h,
                )
              ]
      ]
