-- ===== src/Sharing/Sync.antt =====
-- utils/folder-share-sync.ts: what is sent to the server for the links of shared folders. The answers
-- of the server may depend on everything that was sent before (`History`), and are a parameter.
use vault_drive.Base.{
  ℕ, ◌+◌, Bool, false, not, ◌&&◌, ◌||◌, String, Option, none, some, List, [], ◌∷◌, ◌++◌, map,
  filter, ltb, if◌then◌else◌, truthy, get_or, or_text, get_last?, is_empty, length, drop, ◌==◌,
  text_eq, number_eq, list_eq, Outcome, ok, throw, ◌>>=◌,
}
use vault_drive.Base.JsMap.{JsMap, get, set}
use vault_drive.Base.JsText.{Text, units, trim, split, starts_with}
use vault_drive.Sharing.FileKey.{
  Crypto, CachedCredential, StoredUserKeyState, resolve_folder_share_file_key,
  resolve_owner_private_key_from_session,
}

pub record SyncableFolderShareLink : Type 0 where
  pub id : String
  pub token : Text
  pub folder_id : String
  pub is_active : Bool
  pub expires_at : Option String
  pub owner_wrapped_folder_key : Option String

pub record SyncableFolderFile : Type 0 where
  pub id : String
  pub encrypted_metadata : String

pub record SyncResult : Type 0 where
  pub synced_links : ℕ
  pub synced_files : ℕ
  pub skipped_links : ℕ

pub record SyncSingleFolderShareResult : Type 0 where
  pub synced_files : ℕ
  pub skipped : Bool
  pub upgraded : Bool

pub record FolderShareSyncPayload : Type 0 where
  pub wrapped_keys : JsMap String String
  pub owner_wrapped_folder_key : Option String

-- A request `POST /folder-share-links/<id>/sync`, and all that were sent, in order.
pub record Post : Type 0 where
  pub link_id : String
  pub payload : FolderShareSyncPayload

abbrev pub History : Type 0
History = List Post

-- An answer: a body, a status that is not `ok` with the error that its body names, or no answer.
pub data Answer {ℓ} (A : Type ℓ) : Type ℓ where
  body : A → Answer A
  refused : ℕ → Option String → Answer A
  fails : String → Answer A

pub record Server : Type 0 where
  pub files_recursive : String → String → History → Answer (List SyncableFolderFile)
  pub folder_share_keys : Text → History → Answer (JsMap String String)
  pub access_keys_batch : List String → String → History → Answer (JsMap String String)
  pub sync : Post → String → History → Answer (Option ℕ)

-- `if (!response.ok) throw new Error(message)`
abbrev pub expect_ok {ℓ} : {A : Type ℓ} → Answer A → String → Outcome A
expect_ok (body a) message = ok a
expect_ok (refused status error) message = throw message
expect_ok (fails e) message = throw e

-- With `readErrorMessage`.
abbrev pub expect_ok_or_error {ℓ} : {A : Type ℓ} → Answer A → String → Outcome A
expect_ok_or_error (body a) fallback = ok a
expect_ok_or_error (refused status error) fallback = throw (or_text error fallback)
expect_ok_or_error (fails e) fallback = throw e

unfoldable pub build_folder_share_sync_payload :
    JsMap String String → Option String → FolderShareSyncPayload
build_folder_share_sync_payload wrapped_keys owner_key = record {
  wrapped_keys = wrapped_keys;
  owner_wrapped_folder_key = if truthy owner_key then owner_key else none;
}

-- The time of a date's text is a parameter, `none` for one that is no date.
unfoldable pub is_link_currently_active : (String → Option ℕ) → ℕ → SyncableFolderShareLink → Bool
is_link_currently_active time_of now link =
    link.is_active
    && (not (truthy link.expires_at)
        || elim (time_of (get_or link.expires_at "")) [ none ↦ false | some t ↦ ltb now t ])

-- `new URL` is a parameter: a path and a hash, `none` where it throws.
unfoldable pub extract_folder_share_key_from_url :
    (Text → Option (Text × Text)) → Text → Text → Outcome (Text × Text)
extract_folder_share_key_from_url new_url share_url expected_token =
    let trimmed = trim share_url in
    let normalized =
      if starts_with trimmed (units "http")
      then trimmed
      else units "https://placeholder.invalid"
        ++ (if starts_with trimmed (units "/") then [] else units "/")
        ++ trimmed in
    elim (new_url normalized) [
      | none ↦ throw "Invalid URL"
      | some (pathname, hash) ↦
          let token =
            get_or (get_last? (filter (λ p. not (is_empty p)) (split b'/' pathname))) [] in
          let key_b64 = if starts_with hash (units "#") then drop 1 hash else hash in
          if is_empty token || is_empty key_b64
          then throw "Paste the full existing share URL so the browser can recover its key."
          else if not (is_empty expected_token) && not (token == expected_token)
          then throw "That URL belongs to a different shared link."
          else ok (token, key_b64)
    ]

abbrev pub nothing_synced : Bool → SyncSingleFolderShareResult
nothing_synced skipped = record { synced_files = 0; skipped = skipped; upgraded = false }

unfoldable pub missing_files :
    JsMap String String → List SyncableFolderFile → List SyncableFolderFile
missing_files existing = filter (λ file. not (truthy (get file.id existing)))

abbrev pub count_link : Option ℕ → SyncResult → SyncResult
count_link none r = record r { skipped_links = r.skipped_links + 1 }
count_link (some files) r =
    if ltb 0 files
    then record r { synced_links = r.synced_links + 1; synced_files = r.synced_files + files }
    else r

abbrev pub all_skipped : ℕ → SyncResult
all_skipped n = record { synced_links = 0; synced_files = 0; skipped_links = n }

module _ (c : Crypto) (server : Server) where
  -- One file's key under the folder's key, if its wrapped key opens.
  unfoldable pub rewrap :
      CachedCredential → c.Key → c.Key → SyncableFolderFile → String → Outcome String
  rewrap credential rsa_private_key folder_share_key file wrapped_key =
      resolve_folder_share_file_key c wrapped_key file.encrypted_metadata credential rsa_private_key
      >>= λ file_key. c.wrap_key_with_aes folder_share_key file_key

  -- One round of the loop over the missing files: what throws is passed over.
  unfoldable pub wrap_step :
      CachedCredential
      → c.Key
      → c.Key
      → JsMap String String
      → JsMap String String
      → SyncableFolderFile
      → JsMap String String
  unfolding rewrap
  wrap_step credential rsa_private_key folder_share_key keys_map wrapped file =
      if not (truthy (get file.id keys_map))
      then wrapped
      else elim (rewrap credential rsa_private_key folder_share_key file
          (get_or (get file.id keys_map) "")) [ ok w ↦ set file.id w wrapped | throw e ↦ wrapped ]

  unfoldable pub wrap_keys :
      CachedCredential
      → c.Key
      → c.Key
      → JsMap String String
      → JsMap String String
      → List SyncableFolderFile
      → JsMap String String
  unfolding wrap_step
  wrap_keys credential rsa_private_key folder_share_key keys_map wrapped [] = wrapped
  wrap_keys credential rsa_private_key folder_share_key keys_map wrapped (file ∷ files) =
      wrap_keys credential rsa_private_key folder_share_key keys_map
        (wrap_step credential rsa_private_key folder_share_key keys_map wrapped file) files

  -- The last part: the keys are sent, if there are any.
  unfoldable pub send_keys :
      SyncableFolderShareLink
      → String
      → JsMap String String
      → Option String
      → History
      → Outcome SyncSingleFolderShareResult × History
  unfolding build_folder_share_sync_payload
  send_keys link auth_token wrapped_keys owner_key h =
      if is_empty wrapped_keys
      then (ok (nothing_synced false), h)
      else let post : Post = record {
        link_id = link.id;
        payload = build_folder_share_sync_payload wrapped_keys owner_key;
      } in
        (
          expect_ok_or_error (server.sync post auth_token h) "Failed to sync folder share link"
              >>= λ synced. ok (record {
                synced_files = get_or synced (length wrapped_keys);
                skipped = false;
                upgraded = false;
              }),
          h ++ post ∷ [],
        )

  unfoldable pub sync_missing :
      SyncableFolderShareLink
      → String
      → CachedCredential
      → c.Key
      → c.Key
      → Option String
      → List SyncableFolderFile
      → History
      → Outcome SyncSingleFolderShareResult × History
  unfolding wrap_keys send_keys
  sync_missing link auth_token credential rsa_private_key folder_share_key owner_key missing h =
      if is_empty missing
      then (ok (nothing_synced false), h)
      else elim (expect_ok (server.access_keys_batch (map (λ f. f.id) missing) auth_token h)
          "Failed to fetch file access keys") [
            | throw e ↦ (throw e, h)
            | ok keys_map ↦
                send_keys link auth_token
                  (wrap_keys credential rsa_private_key folder_share_key keys_map [] missing)
                  owner_key h
          ]

  unfoldable pub sync_single_folder_share_link :
      SyncableFolderShareLink
      → String
      → CachedCredential
      → c.Key
      → c.Key
      → Option String
      → History
      → Outcome SyncSingleFolderShareResult × History
  unfolding sync_missing missing_files
  sync_single_folder_share_link link auth_token credential rsa_private_key folder_share_key
        owner_key h =
      elim (expect_ok (server.files_recursive link.folder_id auth_token h)
        "Failed to fetch folder subtree files") [
          | throw e ↦ (throw e, h)
          | ok files ↦
              elim (expect_ok (server.folder_share_keys link.token h)
                "Failed to fetch existing folder share keys") [
                  | throw e ↦ (throw e, h)
                  | ok existing ↦
                      sync_missing link auth_token credential rsa_private_key folder_share_key
                        owner_key (missing_files existing files) h
                ]
        ]

  -- A link of the loop: its folder key is unwrapped, then its files are synchronised. The flag says
  -- that the link counts as skipped, the number how many files were synchronised.
  unfoldable pub sync_link :
      String → CachedCredential → c.Key → SyncableFolderShareLink → History → Option ℕ × History
  unfolding sync_single_folder_share_link
  sync_link auth_token credential rsa_private_key link h =
      if not (truthy link.owner_wrapped_folder_key)
      then (none, h)
      else elim (c.unwrap_key_with_rsa rsa_private_key (get_or link.owner_wrapped_folder_key "")) [
        | throw e ↦ (none, h)
        | ok folder_share_key ↦
            let (result, h') =
              sync_single_folder_share_link link auth_token credential rsa_private_key
                folder_share_key none h in
            (
              elim result [
                | throw e ↦ none
                | ok r ↦ if r.skipped then none else some r.synced_files
              ],
              h',
            )
      ]

  unfoldable pub sync_links :
      String
      → CachedCredential
      → c.Key
      → List SyncableFolderShareLink
      → SyncResult
      → History
      → SyncResult × History
  unfolding sync_link
  sync_links auth_token credential rsa_private_key [] r h = (r, h)
  sync_links auth_token credential rsa_private_key (link ∷ links) r h =
      let (counted, h') = sync_link auth_token credential rsa_private_key link h in
      sync_links auth_token credential rsa_private_key links (count_link counted r) h'

  unfoldable pub sync_folder_share_links_internal :
      (String → Option ℕ)
      → ℕ
      → String
      → Option CachedCredential
      → Option c.Key
      → Option StoredUserKeyState
      → List SyncableFolderShareLink
      → History
      → Outcome SyncResult × History
  unfolding sync_links is_link_currently_active
  sync_folder_share_links_internal time_of now auth_token none cached_key user links h =
      (ok (all_skipped (length links)), h)
  sync_folder_share_links_internal time_of now auth_token (some credential) cached_key user links
        h =
      let active_links = filter (is_link_currently_active time_of now) links in
      if is_empty active_links
      then (ok (all_skipped 0), h)
      else elim (resolve_owner_private_key_from_session c cached_key (some credential) user) [
        | throw e ↦ (throw e, h)
        | ok none ↦ (ok (all_skipped (length active_links)), h)
        | ok (some key) ↦
            let (r, h') = sync_links auth_token credential key active_links (all_skipped 0) h in
            (ok r, h')
      ]
