-- ===== src/Sharing/ById.antt =====
-- `syncFolderShareLinkById`: one link is synchronised, and an older one takes a folder key wrapped for
-- its owner.
use vault_drive.Base.{
  Bool, true, false, not, ◌&&◌, String, Option, none, some, [], ◌∷◌, ◌++◌, if◌then◌else◌, truthy,
  get_or, or_text, is_empty, ◌==◌, number_eq, Outcome, ok, throw, ◌>>=◌,
}
use vault_drive.Base.JsText.{Text}
use vault_drive.Sharing.FileKey.{
  Crypto, CachedCredential, StoredUserKeyState, resolve_owner_private_key_from_session,
}
use vault_drive.Sharing.Sync.{
  SyncableFolderShareLink, SyncSingleFolderShareResult, Post, History, body, refused, fails, Server,
  nothing_synced, extract_folder_share_key_from_url, build_folder_share_sync_payload,
  sync_single_folder_share_link,
}

module _ (c : Crypto) (server : Server) (new_url : Text → Option (Text × Text)) where
  -- The folder's key from the URL that was pasted, with the key wrapped for the owner.
  unfoldable pub key_from_url :
      SyncableFolderShareLink → Option StoredUserKeyState → Text → Outcome (c.Key × Option String)
  key_from_url link user url = do
    (token, key_b64) ← extract_folder_share_key_from_url new_url url link.token
    folder_share_key ← c.import_folder_share_key key_b64
    elim user [
      | none ↦ ok (folder_share_key, none)
      | some u ↦
          if truthy u.public_key
          then (c.import_rsa_public_key (get_or u.public_key "") >>= λ owner_key.
              c.wrap_key_with_rsa owner_key folder_share_key >>= λ w. ok (folder_share_key, some w))
          else ok (folder_share_key, none)
    ]

  unfoldable pub folder_key_of :
      SyncableFolderShareLink
      → c.Key
      → Option StoredUserKeyState
      → Text
      → Outcome (c.Key × Option String)
  unfolding key_from_url
  folder_key_of link rsa_private_key user provided_share_url =
      if not (is_empty provided_share_url)
      then key_from_url link user provided_share_url
      else if truthy link.owner_wrapped_folder_key
      then (c.unwrap_key_with_rsa rsa_private_key (get_or link.owner_wrapped_folder_key "") >>= λ k.
          ok (k, none))
      else throw "Paste the original share URL so the browser can recover this older link."

  -- The request that upgrades an older link; a refusal with 400 is passed over.
  unfoldable pub upgrade_link :
      SyncableFolderShareLink → String → Option String → History → Outcome Bool × History
  upgrade_link link auth_token owner_key h =
      if truthy owner_key && not (truthy link.owner_wrapped_folder_key)
      then (let post : Post = record {
        link_id = link.id;
        payload = build_folder_share_sync_payload [] owner_key;
      } in
          (
            elim (server.sync post auth_token h) [
              | body synced ↦ ok true
              | refused status error ↦
                  if status == 400
                  then ok false
                  else throw (or_text error "Failed to upgrade this older shared link.")
              | fails e ↦ throw e
            ],
            h ++ post ∷ [],
          ))
      else (ok false, h)

  unfoldable pub sync_with_key :
      SyncableFolderShareLink
      → String
      → CachedCredential
      → c.Key
      → c.Key
      → Option String
      → History
      → Outcome SyncSingleFolderShareResult × History
  unfolding upgrade_link
  sync_with_key link auth_token credential rsa_private_key folder_share_key owner_key h =
      let (upgraded, h') = upgrade_link link auth_token owner_key h in
      elim upgraded [
        | throw e ↦ (throw e, h')
        | ok did_upgrade ↦
            let (result, h2) =
              sync_single_folder_share_link c server link auth_token credential rsa_private_key
                folder_share_key owner_key h' in
            (result >>= λ r. ok (record r { upgraded = did_upgrade }), h2)
      ]

  unfoldable pub sync_folder_share_link_by_id :
      SyncableFolderShareLink
      → String
      → Option CachedCredential
      → Option c.Key
      → Option StoredUserKeyState
      → Text
      → History
      → Outcome SyncSingleFolderShareResult × History
  unfolding folder_key_of sync_with_key
  sync_folder_share_link_by_id link auth_token none cached_key user url h =
      (ok (nothing_synced true), h)
  sync_folder_share_link_by_id link auth_token (some credential) cached_key user url h =
      elim (resolve_owner_private_key_from_session c cached_key (some credential) user) [
        | throw e ↦ (throw e, h)
        | ok none ↦ (ok (nothing_synced true), h)
        | ok (some key) ↦ elim (folder_key_of link key user url) [
          | throw e ↦ (throw e, h)
          | ok (folder_share_key, owner_key) ↦
              sync_with_key link auth_token credential key folder_share_key owner_key h
        ]
      ]
