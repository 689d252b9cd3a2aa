-- ===== src/Sharing/FileKey.antt =====
-- utils/folder-share.ts, utils/file-request-credential.ts and utils/owner-private-key.ts: which key
-- opens a file, and which private key the session has.
use vault_drive.Base.{
  ℕ, Bool, true, false, not, ◌&&◌, ◌||◌, String, Option, none, some, List, [], ◌∷◌, all, take, drop,
  leb, if◌then◌else◌, truthy, truthy_text, get_or, length, is_some, is_empty, ◌==◌, text_eq,
  number_eq, list_eq, option_eq, Outcome, ok, throw, ◌>>=◌,
}
use vault_drive.Base.JsText.{Text, units, includes, is_digit}
use vault_drive.Base.Json.{Json, field, truthy_json, as_text}

pub data CredentialType : Type 0 where
  pin password : CredentialType

pub record CachedCredential : Type 0 where
  pub value : String
  pub type : CredentialType

pub record StoredUserKeyState : Type 0 where
  pub private_key_encrypted : Option String
  pub private_key_pin_encrypted : Option String
  pub public_key : Option String
  pub kek_envelope_version : Option ℕ

-- What the code calls of utils/crypto.ts and of the browser; each may fail.
pub record Crypto : Type 1 where
  pub Key : Type 0
  pub json_parse : String → Option Json
  pub atob : String → Option String
  pub btoa : String → String
  pub unwrap_key : String → String → Outcome String
  pub import_hex_key : String → Outcome Key
  pub derive_key_from_password : String → Text → Outcome Key
  pub unwrap_key_with_rsa : Key → String → Outcome Key
  pub wrap_key_with_aes : Key → Key → Outcome String
  pub wrap_key_with_rsa : Key → Key → Outcome String
  pub import_rsa_public_key : String → Outcome Key
  pub import_rsa_private_key : String → Outcome Key
  pub import_folder_share_key : Text → Outcome Key
  pub decrypt_private_key_with_pin : String → String → Option ℕ → Outcome String
  pub decrypt_private_key_with_password : String → String → Option ℕ → Outcome String

abbrev pub is_credential_type : CredentialType → CredentialType → Bool
is_credential_type pin pin = true
is_credential_type password password = true
is_credential_type _ _ = false

-- `[A-Za-z0-9+/]`
abbrev pub is_base64 : ℕ → Bool
is_base64 c = leb 65 c && leb c 90 || leb 97 c && leb c 122 || is_digit c || c == b'+' || c == b'/'

-- `/^[A-Za-z0-9+/]{22}==$/`
unfoldable pub is_salt_text : Text → Bool
unfolding is_digit
is_salt_text t = length t == 24 && all is_base64 (take 22 t) && drop 22 t == b'=' ∷ b'=' ∷ []

-- `/^[0-9a-f]+$/i`
unfoldable pub is_hex_text : Text → Bool
unfolding is_digit
is_hex_text t =
    not (is_empty t) && all (λ c. is_digit c || leb 97 c && leb c 102 || leb 65 c && leb c 70) t

module _ (c : Crypto) where
  -- `parseFolderShareMetadata`; an empty text is `{}`.
  unfoldable pub parse_folder_share_metadata : String → Outcome Json
  parse_folder_share_metadata encrypted_metadata =
      if truthy_text encrypted_metadata
      then elim (c.json_parse encrypted_metadata) [
        | none ↦ throw "File metadata is invalid. Refresh the vault and try again."
        | some value ↦ ok value
      ]
      else ok (Json.object vault_drive.Base.Json.Members.last_member)

  unfoldable pub legacy_file_request_salt : Json → Option String → Option String
  unfolding is_salt_text
  legacy_file_request_salt metadata wrapped_key =
      let scheme = field "credential_scheme" metadata in
      if truthy_json scheme && not (as_text scheme == some (units "password"))
      then none
      else elim wrapped_key [
        | none ↦ none
        | some w ↦
            if truthy_text w && is_salt_text (units w)
            then elim (c.atob w) [
              | none ↦ none
              | some bytes ↦
                  if length (units bytes) == 16 && c.btoa bytes == w then some w else none
            ]
            else none
      ]

  abbrev pub pin_message : String
  pin_message =
      "This folder contains files encrypted with your PIN. Open sharing from a trusted PIN session first."

  abbrev pub password_message : String
  password_message =
      "This folder contains files encrypted with your account password. Share it from a password-authenticated session first."

  -- The last part of `resolveFolderShareFileKey`: the key comes from the credential and a salt.
  unfoldable pub resolve_with_salt : Json → CachedCredential → Outcome c.Key
  resolve_with_salt metadata credential =
      let required =
        if as_text (field "credential_scheme" metadata) == some (units "pin")
        then pin
        else password in
      if not (is_credential_type required credential.type)
      then throw (if is_credential_type required password then password_message else pin_message)
      else if not (truthy_json (field "salt" metadata))
      then throw "File metadata is missing the salt required to share this folder."
      else c.derive_key_from_password credential.value (get_or (as_text (field "salt" metadata)) [])

  -- The key once the metadata is read, which fails for `null`.
  unfoldable pub resolve_with_metadata : Json → String → CachedCredential → c.Key → Outcome c.Key
  unfolding legacy_file_request_salt resolve_with_salt is_hex_text
  resolve_with_metadata Json.null wrapped_key credential rsa_private_key =
      throw "Cannot read properties of null (reading 'credential_scheme')"
  resolve_with_metadata metadata wrapped_key credential rsa_private_key =
      elim (legacy_file_request_salt metadata (some wrapped_key)) [
        | some salt ↦
            if not (is_credential_type credential.type password)
            then throw
                "This file needs the sender's file password. Your account PIN cannot unlock it."
            else c.derive_key_from_password credential.value (units salt)
        | none ↦
            if is_hex_text (units wrapped_key)
            then (if not (is_credential_type credential.type pin)
                then throw pin_message
                else c.unwrap_key credential.value wrapped_key >>= c.import_hex_key)
            else if not (includes (units wrapped_key) (units ":"))
            then c.unwrap_key_with_rsa rsa_private_key wrapped_key
            else resolve_with_salt metadata credential
      ]

  unfoldable pub resolve_folder_share_file_key :
      String → String → CachedCredential → c.Key → Outcome c.Key
  unfolding parse_folder_share_metadata resolve_with_metadata
  resolve_folder_share_file_key wrapped_key encrypted_metadata credential rsa_private_key =
      parse_folder_share_metadata encrypted_metadata >>= λ metadata.
      resolve_with_metadata metadata wrapped_key credential rsa_private_key

  -- `if (credential.type === … && user.…) { … }`
  unfoldable pub unlock_private_key : CachedCredential → StoredUserKeyState → Outcome (Option c.Key)
  unlock_private_key credential user =
      if is_credential_type credential.type pin && truthy user.private_key_pin_encrypted
      then (c.decrypt_private_key_with_pin credential.value
            (get_or user.private_key_pin_encrypted "") user.kek_envelope_version
          >>= c.import_rsa_private_key
          >>= λ k. ok (some k))
      else if is_credential_type credential.type password && truthy user.private_key_encrypted
      then (c.decrypt_private_key_with_password credential.value
            (get_or user.private_key_encrypted "") user.kek_envelope_version
          >>= c.import_rsa_private_key
          >>= λ k. ok (some k))
      else ok none

  unfoldable pub resolve_owner_private_key_from_session :
      Option c.Key → Option CachedCredential → Option StoredUserKeyState → Outcome (Option c.Key)
  unfolding unlock_private_key
  resolve_owner_private_key_from_session (some key) credential user = ok (some key)
  resolve_owner_private_key_from_session none (some credential) (some user) =
      unlock_private_key credential user
  resolve_owner_private_key_from_session none _ _ = ok none
