-- ===== src/Sharing/Ancestors.antt =====
-- `getAncestorFolderIds` and `filterSyncableLinksForFolder`. The loop has no bound of its own: `none`
-- says that the rounds that were given were not enough.
use vault_drive.Base.{
  ℕ, zero, suc, ◌+◌, ◌<◌, true, false, String, Option, none, some, List, [], ◌∷◌, ◌++◌, ◌≡◌, inl,
  inr, sym, ap, ◌∙◌, append-nil, append_assoc, arith, filter, if◌then◌else◌, truthy_text, get_or,
  Bool-cases, text_eq, Outcome,
}
use vault_drive.Base.JsMap.{JsMap, get, set}
use vault_drive.Base.JsSet.{member, of_list}
use vault_drive.Sharing.FileKey.{Crypto, CachedCredential, StoredUserKeyState}
use vault_drive.Sharing.Sync.{
  SyncableFolderShareLink, SyncResult, Server, History, sync_folder_share_links_internal,
}

pub record FolderNode : Type 0 where
  pub id : String
  pub parent_id : Option String

-- `new Map(folders.map((folder) => [folder.id, folder]))`
unfoldable pub folders_by_id : JsMap String FolderNode → List FolderNode → JsMap String FolderNode
folders_by_id m [] = m
folders_by_id m (folder ∷ folders) = folders_by_id (set folder.id folder m) folders

-- `foldersById.get(currentId)?.parentId ?? null`, where an empty text ends the loop as well.
unfoldable pub parent_of : JsMap String FolderNode → String → String
parent_of m id = elim (get id m) [ none ↦ "" | some folder ↦ get_or folder.parent_id "" ]

unfoldable pub ancestors_from :
    ℕ → JsMap String FolderNode → String → List String → Option (List String)
unfolding parent_of
ancestors_from zero m current ancestors = if truthy_text current then none else some ancestors
ancestors_from (suc rounds) m current ancestors =
    let more = ancestors_from rounds m (parent_of m current) (ancestors ++ current ∷ []) in
    if truthy_text current then more else some ancestors

unfoldable pub get_ancestor_folder_ids : ℕ → String → List FolderNode → Option (List String)
unfolding ancestors_from folders_by_id
get_ancestor_folder_ids rounds folder_id folders =
    ancestors_from rounds (folders_by_id [] folders) folder_id []

unfoldable pub filter_syncable_links_for_folder :
    ℕ
    → String
    → List FolderNode
    → List SyncableFolderShareLink
    → Option (List SyncableFolderShareLink)
unfolding get_ancestor_folder_ids
filter_syncable_links_for_folder rounds folder_id folders links =
    elim (get_ancestor_folder_ids rounds folder_id folders) [
      | none ↦ none
      | some ids ↦
          let ancestor_ids = of_list ids in
          some (filter (λ link. member link.folder_id ancestor_ids) links)
    ]

-- The chain that leads from a folder to the root: each folder is the parent of the one before.
pub data Chain (m : JsMap String FolderNode) : String → List String → Type 0 where
  at_root : (id : String) → truthy_text id ≡ false → Chain m id []
  below :
      (id : String) (ids : List String)
      → truthy_text id ≡ true
      → Chain m (parent_of m id) ids
      → Chain m id (id ∷ ids)

module _ (folders : List FolderNode) (depth : String → ℕ)
    (descends : (id : String)
      → truthy_text id ≡ true
      → depth (parent_of (folders_by_id [] folders) id) < depth id) where
  abbrev pub by_id : JsMap String FolderNode
  by_id = folders_by_id [] folders

  ancestors_from-Chain :
      (rounds : ℕ) (id : String) (before : List String)
      → depth id < rounds
      → (ids : List String) × (ancestors_from rounds by_id id before ≡ some (before ++ ids))
        × Chain by_id id ids
  unfolding ancestors_from
  ancestors_from-Chain zero id before enough = absurd (omega (arith, enough))
  ancestors_from-Chain (suc rounds) id before enough = elim (Bool-cases (truthy_text id)) [
    | inr root ↦
        ([], rw (ancestors_from, root) (sym (ap some (append-nil before))), at_root id root)
    | inl named ↦
        let (ids, e, chain) =
          ancestors_from-Chain rounds (parent_of by_id id) (before ++ id ∷ [])
            (omega (arith, enough, descends id named)) in
        (
          id ∷ ids,
          rw (ancestors_from, named) (e ∙ ap some (append_assoc before (id ∷ []) ids)),
          below id ids named chain,
        )
  ]

  -- Where the parents lead up (some depth falls from each folder to its parent), the loop ends within
  -- that depth, and gives exactly the chain from the folder to the root.
  pub get_ancestor_folder_ids-Chain :
      (folder_id : String)
      → (ids : List String) × (get_ancestor_folder_ids (depth folder_id + 1) folder_id folders
          ≡ some ids)
        × Chain by_id folder_id ids
  unfolding get_ancestor_folder_ids
  get_ancestor_folder_ids-Chain folder_id =
      ancestors_from-Chain (depth folder_id + 1) folder_id [] (omega arith)

-- `syncFolderShareLinksForFolder`; `rounds` are those of the loop over the ancestors.
unfoldable pub sync_folder_share_links_for_folder :
    (c : Crypto)
    → Server
    → ℕ
    → (String → Option ℕ)
    → ℕ
    → String
    → Option CachedCredential
    → Option c.Key
    → Option StoredUserKeyState
    → String
    → List FolderNode
    → List SyncableFolderShareLink
    → History
    → Option (Outcome SyncResult × History)
unfolding filter_syncable_links_for_folder
sync_folder_share_links_for_folder c server rounds time_of now auth_token credential cached_key user
      folder_id folders links h =
    elim (filter_syncable_links_for_folder rounds folder_id folders links) [
      | none ↦ none
      | some own ↦ some (
          sync_folder_share_links_internal c server time_of now auth_token credential cached_key
            user own h)
    ]
