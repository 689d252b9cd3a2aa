-- ===== src/Sharing/Tests.antt =====
-- A folder with one new file, and the instances of the theorems.
use vault_drive.Base.{
  ℕ, ◌+◌, ◌≤◌, ◌<◌, Bool, true, false, String, Option, none, some, List, [], ◌∷◌, ◌≡◌, refl, inl,
  inr, Bool-cases, ==→eq, subst, arith, if◌then◌else◌, truthy_text, ◌==◌, text_eq, length, Outcome,
  ok, throw,
}
use vault_drive.Base.JsMap.{JsMap}
use vault_drive.Base.JsText.{Text, units}
use vault_drive.Sharing.FileKey.{Crypto, CachedCredential, CredentialType, StoredUserKeyState}
use vault_drive.Sharing.Sync.{
  SyncableFolderShareLink, SyncableFolderFile, SyncResult, Answer, Server, History,
  sync_folder_share_links_internal,
}
use vault_drive.Sharing.Links.{
  Grown, IsForActive, sync_folder_share_links_internal-Grown, sync_folder_share_links_internal-le,
}
use vault_drive.Sharing.Ancestors.{
  FolderNode, parent_of, folders_by_id, Chain, get_ancestor_folder_ids,
  get_ancestor_folder_ids-Chain,
}

-- Keys are texts, and every operation succeeds.
abbrev plain : Crypto
plain = record {
  Key = String;
  json_parse = λ s. none;
  atob = λ s. none;
  btoa = λ s. s;
  unwrap_key = λ pin s. ok s;
  import_hex_key = λ s. ok s;
  derive_key_from_password = λ p salt. ok p;
  unwrap_key_with_rsa = λ k s. ok s;
  wrap_key_with_aes = λ k s. ok s;
  wrap_key_with_rsa = λ k s. ok s;
  import_rsa_public_key = λ s. ok s;
  import_rsa_private_key = λ s. ok s;
  import_folder_share_key = λ t. ok "folder";
  decrypt_private_key_with_pin = λ p s v. ok s;
  decrypt_private_key_with_password = λ p s v. ok s;
}

abbrev old_file : SyncableFolderFile
old_file = record { id = "old"; encrypted_metadata = "" }

abbrev new_file : SyncableFolderFile
new_file = record { id = "new"; encrypted_metadata = "" }

abbrev server : Server
server = record {
  files_recursive = λ id token h. Answer.body (old_file ∷ new_file ∷ []);
  folder_share_keys = λ token h. Answer.body (("old", "k1") ∷ []);
  access_keys_batch = λ ids token h. Answer.body (("new", "w2") ∷ []);
  sync = λ post token h. Answer.body none;
}

abbrev link : SyncableFolderShareLink
link = record {
  id = "l1";
  token = units "t1";
  folder_id = "b";
  is_active = true;
  expires_at = none;
  owner_wrapped_folder_key = some "fk";
}

abbrev by_pin : CachedCredential
by_pin = record { value = "1234"; type = CredentialType.pin }

abbrev run : Outcome SyncResult × History
run =
    sync_folder_share_links_internal plain server (λ s. none) 0 "auth" (some by_pin) (some "rsa")
      none (link ∷ []) []

one_synced : run.0 ≡ ok (record { synced_links = 1; synced_files = 1; skipped_links = 0 })
unfolding sync_folder_share_links_internal
    vault_drive.Sharing.FileKey.resolve_owner_private_key_from_session vault_drive.Base.JsMap.get
    vault_drive.Sharing.FileKey.resolve_folder_share_file_key vault_drive.Base.JsText.includes
    vault_drive.Base.JsMap.set
one_synced = refl

sync_folder_share_links_internal-Grown_example :
    Grown (IsForActive plain server "auth" (λ s. none) 0 (link ∷ [])) [] run.1
sync_folder_share_links_internal-Grown_example =
    sync_folder_share_links_internal-Grown plain server "auth" (λ s. none) 0 (link ∷ [])
      (some by_pin) (some "rsa") none []

abbrev counted : SyncResult
counted = record { synced_links = 1; synced_files = 1; skipped_links = 0 }

sync_folder_share_links_internal-le_example : counted.synced_links + counted.skipped_links ≤ 1
sync_folder_share_links_internal-le_example =
    sync_folder_share_links_internal-le plain server "auth" (λ s. none) 0 (link ∷ []) (some by_pin)
      (some "rsa") none [] counted one_synced

-- The folder "b" in the folder "a".
abbrev two_folders : List FolderNode
two_folders = record { id = "a"; parent_id = none } ∷ record { id = "b"; parent_id = some "a" } ∷ []

abbrev depth : String → ℕ
depth id = if "b" == id then 2 else if truthy_text id then 1 else 0

parents_above :
    (id : String)
    → truthy_text id ≡ true
    → depth (parent_of (folders_by_id [] two_folders) id) < depth id
unfolding parent_of folders_by_id vault_drive.Base.JsMap.get vault_drive.Base.JsMap.set
parents_above id named = elim (Bool-cases ("b" == id)) [
  | inl in_a ↦
      subst (λ i. depth (parent_of (folders_by_id [] two_folders) i) < depth i) (==→eq "b" id in_a)
        (omega arith)
  | inr other ↦ elim (Bool-cases ("a" == id)) [
    | inl at_top ↦
        subst (λ i. depth (parent_of (folders_by_id [] two_folders) i) < depth i)
          (==→eq "a" id at_top) (omega arith)
    | inr unknown ↦ rw (parent_of, unknown, other, named) (omega arith)
  ]
]

get_ancestor_folder_ids-Chain_example :
    (ids : List String) × (get_ancestor_folder_ids 3 "b" two_folders ≡ some ids)
    × Chain (folders_by_id [] two_folders) "b" ids
get_ancestor_folder_ids-Chain_example =
    get_ancestor_folder_ids-Chain two_folders depth parents_above "b"
