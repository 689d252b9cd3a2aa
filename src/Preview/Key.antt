-- ===== src/Preview/Key.antt =====
-- workers/preview.worker.ts and utils/file-request-credential.ts: the metadata of a file, and the
-- key that opens it.
use vault_drive.Base.{
  ℕ, ◌+◌, Bool, true, false, not, ◌&&◌, Option, none, some, [], length, drop, ltb, is_empty,
  is_some, if◌then◌else◌, get_or, Outcome, ok, throw, ◌>>=◌, ◌==◌, number_eq, list_eq, option_eq,
}
use vault_drive.Base.JsText.{Text, units, slice, includes}
use vault_drive.Base.Json.{Json, field, truthy_json, as_text}
use vault_drive.Sealing.{Bytes, WebCrypto}
use vault_drive.Sealing.Hex.{hex_pairs}
use vault_drive.Sealing.Der.{wrap_pkcs1_private_key_as_pkcs8}
use vault_drive.Sealing.Envelope.{only_decrypt}
use vault_drive.Sealing.Pem.{
  remove_first, remove_spaces, pkcs8_header, pkcs8_footer, pkcs1_header, pkcs1_footer, rsa_import,
}
use vault_drive.Sharing.FileKey.{is_salt_text}
use vault_drive.Preview.{
  PreviewFile, PreviewRequest, Attempt, done, failed, ◌then_try◌, attempt, credential, unknown,
}
use vault_drive.Transfer.Failure.{fixed}

-- A text that is there and not empty.
abbrev pub truthy_units : Option Text → Bool
truthy_units none = false
truthy_units (some t) = not (is_empty t)

-- `typeof value.salt`, with a missing salt and `null` allowed.
abbrev pub is_salt_field : Option Json → Bool
is_salt_field none = true
is_salt_field (some Json.null) = true
is_salt_field (some (Json.text t)) = true
is_salt_field (some _) = false

unfoldable pub is_encryption_metadata : Json → Bool
is_encryption_metadata value =
    is_some (as_text (field "iv" value)) && is_salt_field (field "salt" value)

abbrev pub is_folder_scheme : Json → Bool
is_folder_scheme value = as_text (field "credential_scheme" value) == some (units "folder")

-- `file.is_owner !== false`
abbrev pub may_own : PreviewFile → Bool
may_own file = get_or file.is_owner true

-- `file.pin_wrapped_key || (file.is_owner !== false ? wrappedKeyB64 : null)`
abbrev pub pin_wrapped_key_of : PreviewFile → Option Text → Option Text
pin_wrapped_key_of file wrapped_key =
    if truthy_units file.pin_wrapped_key
    then file.pin_wrapped_key
    else if may_own file
    then wrapped_key
    else none

module _ (w : WebCrypto) where
  -- `legacyFileRequestSalt` where the key is read as code units.
  unfoldable pub legacy_salt : Json → Option Text → Option Text
  unfolding is_salt_text
  legacy_salt value none = none
  legacy_salt value (some wrapped_key) =
      let scheme = field "credential_scheme" value in
      if truthy_json scheme && not (as_text scheme == some (units "password"))
      then none
      else if not (is_empty wrapped_key) && is_salt_text wrapped_key
      then elim (w.atob wrapped_key) [
        | throw e ↦ none
        | ok bytes ↦
            if length bytes == 16 && w.btoa bytes == wrapped_key then some wrapped_key else none
      ]
      else none

  -- `metaObj.salt ||= …`
  unfoldable pub salt_of : Json → Option Text → Option Text
  unfolding legacy_salt
  salt_of value wrapped_key =
      if truthy_json (field "salt" value)
      then as_text (field "salt" value)
      else legacy_salt value wrapped_key

  -- `deriveKeyFromPassword` of the worker.
  unfoldable pub worker_derive_key : Text → Bytes → ℕ → Outcome w.Key
  worker_derive_key password salt iterations =
      w.pbkdf2_sha256 (w.encode_text (w.normalize_nfc password)) salt iterations only_decrypt

  -- `unwrapKey` of the worker, whose `hexToBytes` takes texts of odd length.
  unfoldable pub worker_unwrap_key : Text → Text → Outcome Text
  unfolding worker_derive_key hex_pairs
  worker_unwrap_key entered wrapped_key_hex =
      let wrapped = hex_pairs wrapped_key_hex in
      if ltb (length wrapped) (16 + 12 + 16)
      then throw "Invalid wrapped key length"
      else (worker_derive_key entered (slice 0 16 wrapped) 100000 >>= λ key.
          w.aes_decrypt key (slice 16 28 wrapped) (drop 28 wrapped) >>= λ raw.
          ok (w.decode_text raw))

  -- `importRSAPrivateKey` of the worker.
  unfoldable pub worker_import_rsa_private_key : Text → Outcome w.RsaKey
  unfolding remove_first remove_spaces includes wrap_pkcs1_private_key_as_pkcs8
  worker_import_rsa_private_key pem =
      let pem_contents = remove_spaces (
        remove_first pkcs1_footer (
          remove_first pkcs1_header (remove_first pkcs8_footer (remove_first pkcs8_header pem)))) in
      w.atob pem_contents >>= λ binary_der. w.import_rsa (
        rsa_import "pkcs8" "RSA-OAEP" "unwrapKey" (
          if includes pem pkcs1_header
          then wrap_pkcs1_private_key_as_pkcs8 binary_der
          else binary_der))

  -- `if (fileKey) … else`
  abbrev pub first_key : Option w.Key → Attempt (w.Key × Bool) → Attempt (w.Key × Bool)
  first_key (some key) otherwise = done (key, false)
  first_key none otherwise = otherwise

  -- `else if (… && folderKey) … else`
  abbrev pub folder_branch :
      Option Text → Option w.Key → Attempt (w.Key × Bool) → Attempt (w.Key × Bool)
  folder_branch wrapped_key none otherwise = otherwise
  folder_branch wrapped_key (some folder_key) otherwise =
      if truthy_units wrapped_key
      then (attempt unknown (w.atob (get_or wrapped_key [])) then_try λ wrapped.
          attempt unknown (w.aes_decrypt folder_key (slice 0 12 wrapped) (drop 12 wrapped))
          then_try λ raw.
              attempt unknown (w.import_raw raw only_decrypt) then_try λ key. done (key, false))
      else failed unknown (fixed "Reopen the folder to unlock this file.")

  -- The branches below a folder's key: a key under the PIN, the recipient's, and the credential's.
  unfoldable pub pin_branch : PreviewRequest w → Text → Attempt (w.Key × Bool)
  unfolding worker_unwrap_key hex_pairs
  pin_branch request pin_wrapped =
      attempt credential (worker_unwrap_key request.credential pin_wrapped) then_try λ raw_key.
      attempt credential (w.import_raw (hex_pairs raw_key) only_decrypt) then_try λ key.
      done (key, false)

  unfoldable pub rsa_branch : PreviewRequest w → Text → Attempt (w.Key × Bool)
  unfolding worker_import_rsa_private_key
  rsa_branch request wrapped_key =
      if truthy_units request.raw_private_key_pem
      then (attempt unknown (worker_import_rsa_private_key (get_or request.raw_private_key_pem []))
          then_try λ rsa_key. attempt unknown (w.atob wrapped_key) then_try λ bytes.
              attempt unknown (w.rsa_unwrap rsa_key bytes only_decrypt) then_try λ key.
              done (key, false))
      else failed unknown (fixed "Private key PEM required for decryption")

  unfoldable pub salt_branch : PreviewRequest w → Text → Attempt (w.Key × Bool)
  unfolding worker_derive_key
  salt_branch request salt = attempt credential (w.atob salt) then_try λ salt_bytes.
      attempt credential (worker_derive_key request.credential salt_bytes 100000) then_try λ key.
      done (key, true)

  unfoldable pub owned_branch :
      PreviewRequest w → Option Text → Option Text → Attempt (w.Key × Bool)
  unfolding pin_branch rsa_branch salt_branch
  owned_branch request salt wrapped_key =
      let pin_wrapped = pin_wrapped_key_of request.file wrapped_key in
      if not (truthy_units salt) && truthy_units pin_wrapped && may_own request.file
      then pin_branch request (get_or pin_wrapped [])
      else if truthy_units wrapped_key && not (may_own request.file)
      then rsa_branch request (get_or wrapped_key [])
      else if truthy_units salt
      then salt_branch request (get_or salt [])
      else failed unknown (fixed "Missing encryption salt")

  -- The key, and whether the last decryption is what verifies the credential.
  unfoldable pub encryption_key : PreviewRequest w → Json → Option Text → Attempt (w.Key × Bool)
  unfolding salt_of owned_branch
  encryption_key request value wrapped_key = first_key request.file_key (
      folder_branch wrapped_key (if is_folder_scheme value then request.folder_key else none)
        (owned_branch request (salt_of value wrapped_key) wrapped_key))
