-- ===== src/Sharing/Missing.antt =====
-- What one link's synchronisation sends: keys of missing files only.
use vault_drive.Base.{
  false, String, Option, List, [], ◌∷◌, ◌++◌, ◌≡◌, ◌⊎◌, inl, inr, refl, map, is_empty, text_eq,
  truthy, get_or, All, Bool-cases, Outcome-cases, ok, throw,
}
use vault_drive.Base.JsMap.{JsMap, get, All-set}
use vault_drive.Sharing.FileKey.{Crypto, CachedCredential}
use vault_drive.Sharing.Sync.{
  SyncableFolderShareLink, SyncableFolderFile, Post, History, Answer, body, Server, expect_ok,
  missing_files, rewrap, wrap_step, wrap_keys, send_keys, build_folder_share_sync_payload,
  sync_missing, sync_single_folder_share_link,
}

abbrev pub Among : {A : Type 0} → A → List A → Type 0
Among a [] = ⊥
Among a (x ∷ xs) = (a ≡ x) ⊎ Among a xs

-- Nothing was sent, or one request was.
pub data Sent {κ} (P : Post → Type κ) (h : History) : History → Type κ where
  nothing : Sent P h h
  one : (post : Post) → P post → Sent P h (h ++ post ∷ [])

pub Answer-cases {ℓ} :
    {A : Type ℓ} (answer : Answer A) (message : String)
    → ((e : String) × (expect_ok answer message ≡ throw e))
      ⊎ ((a : A) × (answer ≡ body a) × (expect_ok answer message ≡ ok a))
Answer-cases (body a) message = inr (a, refl, refl)
Answer-cases (Answer.refused status error) message = inl (message, refl)
Answer-cases (Answer.fails e) message = inl (e, refl)

module _ (c : Crypto) (server : Server) (credential : CachedCredential)
    (rsa_private_key folder_share_key : c.Key) where
  -- A file that the server lists without a key.
  abbrev pub IsMissing : List SyncableFolderFile → JsMap String String → SyncableFolderFile → Type 0
  IsMissing files existing file = Among file files × (truthy (get file.id existing) ≡ false)

  -- The key sent is that of a missing file, unwrapped with the session's credential and wrapped again
  -- with the folder's key.
  pub record IsNewKey (files : List SyncableFolderFile) (existing : JsMap String String)
      (entry : String × String) : Type 0 where
    pub file : SyncableFolderFile
    pub wrapped_key : String
    pub named : file.id ≡ entry.0
    pub missing : IsMissing files existing file
    pub rewrapped :
        rewrap c server credential rsa_private_key folder_share_key file wrapped_key ≡ ok entry.1

  -- A request for the link with keys of missing files, and at least one.
  pub record IsUpload (link : SyncableFolderShareLink) (auth_token : String) (h : History)
      (post : Post) : Type 0 where
    pub files : List SyncableFolderFile
    pub existing : JsMap String String
    pub listed : server.files_recursive link.folder_id auth_token h ≡ body files
    pub known : server.folder_share_keys link.token h ≡ body existing
    pub for_link : post.link_id ≡ link.id
    pub new_keys : All (IsNewKey files existing) post.payload.wrapped_keys
    pub some_keys : is_empty post.payload.wrapped_keys ≡ false

  missing_files-IsMissing :
      (existing : JsMap String String) (all_files files : List SyncableFolderFile)
      → ((f : SyncableFolderFile) → Among f files → Among f all_files)
      → All (IsMissing all_files existing) (missing_files existing files)
  unfolding missing_files
  missing_files-IsMissing existing all_files [] sub = tt
  missing_files-IsMissing existing all_files (file ∷ files) sub =
      let rest = missing_files-IsMissing existing all_files files (λ f a. sub f (inr a)) in
      elim (Bool-cases (truthy (get file.id existing))) [
        | inl known ↦ rw known rest
        | inr unknown ↦ rw unknown ((sub file (inl refl), unknown), rest)
      ]

  module _ (files : List SyncableFolderFile) (existing keys_map : JsMap String String) where
    wrap_step-IsNewKey :
        (wrapped : JsMap String String) (file : SyncableFolderFile)
        → IsMissing files existing file
        → All (IsNewKey files existing) wrapped
        → All
            (IsNewKey files existing)
            (wrap_step c server credential rsa_private_key folder_share_key keys_map wrapped file)
    unfolding wrap_step
    wrap_step-IsNewKey wrapped file m h = elim (Bool-cases (truthy (get file.id keys_map))) [
      | inr no_key ↦ rw (wrap_step, no_key) h
      | inl has_key ↦
          elim (Outcome-cases (
            rewrap c server credential rsa_private_key folder_share_key file
              (get_or (get file.id keys_map) ""))) [
                | inl (e, failed) ↦ rw (wrap_step, has_key, failed) h
                | inr (w, wrapped_again) ↦
                    rw (wrap_step, has_key, wrapped_again)
                      (All-set (IsNewKey files existing) file.id w wrapped
                        (record {
                          file = file;
                          wrapped_key = get_or (get file.id keys_map) "";
                          named = refl;
                          missing = m;
                          rewrapped = wrapped_again;
                        })
                        h)
              ]
    ]

    wrap_keys-IsNewKey :
        (missing : List SyncableFolderFile) (wrapped : JsMap String String)
        → All (IsMissing files existing) missing
        → All (IsNewKey files existing) wrapped
        → All (IsNewKey files existing) (
            wrap_keys c server credential rsa_private_key folder_share_key keys_map wrapped missing)
    unfolding wrap_keys
    wrap_keys-IsNewKey [] wrapped m h = h
    wrap_keys-IsNewKey (file ∷ missing) wrapped (m, ms) h =
        wrap_keys-IsNewKey missing _ ms (wrap_step-IsNewKey wrapped file m h)

  send_keys-Sent :
      (link : SyncableFolderShareLink) (auth_token : String) (wrapped : JsMap String String)
      (owner_key : Option String) (h : History) (P : Post → Type 0)
      → (is_empty wrapped ≡ false
          → P (record {
            link_id = link.id;
            payload = build_folder_share_sync_payload wrapped owner_key;
          }))
      → Sent P h (send_keys c server link auth_token wrapped owner_key h).1
  unfolding send_keys
  send_keys-Sent link auth_token wrapped owner_key h P p = elim (Bool-cases (is_empty wrapped)) [
    | inl none_there ↦ rw none_there nothing
    | inr some_there ↦ rw some_there (one _ (p some_there))
  ]

  sync_missing-Sent :
      (link : SyncableFolderShareLink) (auth_token : String) (owner_key : Option String)
      (h : History) (files : List SyncableFolderFile) (existing : JsMap String String)
      → server.files_recursive link.folder_id auth_token h ≡ body files
      → server.folder_share_keys link.token h ≡ body existing
      → (missing : List SyncableFolderFile) → All (IsMissing files existing) missing
      → Sent
          (IsUpload link auth_token h)
          h
          (sync_missing c server link auth_token credential rsa_private_key folder_share_key
            owner_key missing h).1
  unfolding sync_missing
  sync_missing-Sent link auth_token owner_key h files existing listed known [] m = nothing
  sync_missing-Sent link auth_token owner_key h files existing listed known (file ∷ missing) m =
      elim (Answer-cases (server.access_keys_batch (map (λ f. f.id) (file ∷ missing)) auth_token h)
        "Failed to fetch file access keys") [
          | inl (e, failed) ↦ rw (sync_missing, failed) nothing
          | inr (keys_map, answered, ok_keys) ↦
              let wrapped =
                wrap_keys c server credential rsa_private_key folder_share_key keys_map []
                  (file ∷ missing) in
              rw (sync_missing, ok_keys)
                (send_keys-Sent link auth_token wrapped owner_key h (IsUpload link auth_token h)
                  (λ some_there. record {
                    files = files;
                    existing = existing;
                    listed = listed;
                    known = known;
                    for_link = refl;
                    new_keys =
                        unfold build_folder_share_sync_payload in
                        wrap_keys-IsNewKey files existing keys_map (file ∷ missing) [] m tt;
                    some_keys = unfold build_folder_share_sync_payload in some_there;
                  }))
        ]

  pub sync_single_folder_share_link-Sent :
      (link : SyncableFolderShareLink) (auth_token : String) (owner_key : Option String)
      (h : History)
      → Sent
          (IsUpload link auth_token h)
          h
          (sync_single_folder_share_link c server link auth_token credential rsa_private_key
            folder_share_key owner_key h).1
  unfolding sync_single_folder_share_link
  sync_single_folder_share_link-Sent link auth_token owner_key h =
      elim (Answer-cases (server.files_recursive link.folder_id auth_token h)
        "Failed to fetch folder subtree files") [
          | inl (e, failed) ↦ rw (sync_single_folder_share_link, failed) nothing
          | inr (files, listed, ok_files) ↦
              elim (Answer-cases (server.folder_share_keys link.token h)
                "Failed to fetch existing folder share keys") [
                  | inl (e, failed) ↦ rw (sync_single_folder_share_link, ok_files, failed) nothing
                  | inr (existing, known, ok_keys) ↦
                      rw (sync_single_folder_share_link, ok_files, ok_keys)
                        (sync_missing-Sent link auth_token owner_key h files existing listed known
                          (missing_files existing files)
                          (missing_files-IsMissing existing files files (λ f a. a)))
                ]
        ]
