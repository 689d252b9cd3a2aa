-- ===== src/Preview/Tests.antt =====
-- Previews with the stand-in for WebCrypto, and the instances of the theorems.
use vault_drive.Base.{ℕ, ◌≡◌, refl, true, none, some, [], ◌∷◌, ◌++◌, Outcome, ok, throw, arith}
use vault_drive.Base.JsText.{Text, units}
use vault_drive.Base.Json.{Json, last_member, member}
use vault_drive.Sealing.{Bytes}
use vault_drive.Sealing.Hex.{bytes_to_hex}
use vault_drive.Sealing.Envelope.{full_access, derive_key_from_password}
use vault_drive.Sealing.StandIn.{tag, toy, toy_key, toy-Documented}
use vault_drive.Transfer.Failure.{fixed}
use vault_drive.Preview.{
  PreviewFile, PreviewRequest, DownloadResponse, done, failed, auth, credential,
}
use vault_drive.Preview.Worker.{preview}
use vault_drive.Preview.Branches.{Ends}
use vault_drive.Preview.Failures.{Explains, preview-Explains}
use vault_drive.Preview.Opened.{IsUploadMetadata, preview-sealed}

abbrev file : PreviewFile
file = record { metadata = []; pin_wrapped_key = none; is_owner = some true }

abbrev request : Text → PreviewRequest toy
request entered = record {
  file = file;
  credential = entered;
  file_key = none;
  folder_key = none;
  raw_private_key_pem = none;
}

abbrev salt : Bytes
salt = 3 ∷ 4 ∷ []

abbrev iv : Bytes
iv = 5 ∷ 6 ∷ []

-- The metadata that the server stores of an owner's upload.
abbrev upload_metadata : Text → Text → Json
upload_metadata iv_text salt_text = Json.object (
    member "algorithm" (Json.text (units "AES-256-GCM")) (
      member "credential_scheme" (Json.text (units "password"))
        (member "iv" (Json.text iv_text) (member "salt" (Json.text salt_text) last_member))))

stored_metadata :
    (iv_text salt_text : Text)
    → IsUploadMetadata iv_text salt_text (upload_metadata iv_text salt_text)
stored_metadata iv_text salt_text = record { has_iv = refl; has_salt = refl; no_folder = refl }

-- Every metadata is read as that of the upload.
abbrev parse : Text → Outcome Json
parse t = ok (upload_metadata (bytes_to_hex iv) (bytes_to_hex salt))

abbrev response : ℕ → DownloadResponse
response status = record {
  status = status;
  file_metadata = none;
  wrapped_key = some (units "6b6579");
  body = ok (units "text" ++ tag);
}

shown : preview toy parse (request (units "secret")) (ok (response 200)) ≡ done (units "text")
unfolding preview vault_drive.Sealing.Hex.hex_to_bytes bytes_to_hex
shown = refl

expired :
    preview toy parse (request (units "secret")) (ok (response 401))
    ≡ failed auth (fixed "Your session expired. Sign in again.")
unfolding preview
expired = refl

derived :
    derive_key_from_password toy (units "secret") salt 100000
    ≡ ok (toy_key (units "secret" ++ salt) full_access)
unfolding derive_key_from_password
derived = refl

preview-sealed_example :
    preview toy parse (request (units "secret")) (ok (response 200)) ≡ done (units "text")
unfolding bytes_to_hex
preview-sealed_example =
    preview-sealed toy toy-Documented parse (request (units "secret")) (response 200)
      (upload_metadata (bytes_to_hex iv) (bytes_to_hex salt)) salt iv (units "text")
      (units "text" ++ tag) (toy_key (units "secret" ++ salt) full_access) derived refl
      (omega arith) (omega arith) refl refl (stored_metadata _ _) refl refl refl refl

-- A body that breaks off.
abbrev cut_off : DownloadResponse
cut_off = record (response 200) { body = throw "network error" }

cut_off_kind :
    preview toy parse (request (units "wrong")) (ok cut_off)
    ≡ failed credential (fixed "network error")
unfolding preview vault_drive.Sealing.Hex.hex_to_bytes bytes_to_hex
cut_off_kind = refl

preview-Explains_example :
    Ends
      (λ b. Unit {0})
      (Explains toy parse (request (units "wrong")) (ok cut_off))
      (preview toy parse (request (units "wrong")) (ok cut_off))
preview-Explains_example = preview-Explains toy parse (request (units "wrong")) (ok cut_off)
