-- ===== src/Preview/Worker.antt =====
-- workers/preview.worker.ts: the handler of a request.
use vault_drive.Base.{ℕ, Bool, ◌&&◌, [], leb, if◌then◌else◌, get_or, Outcome, ◌==◌, number_eq}
use vault_drive.Base.JsText.{Text}
use vault_drive.Base.Json.{Json, field, as_text}
use vault_drive.Sealing.{Bytes, WebCrypto}
use vault_drive.Transfer.Failure.{fixed, map_download_http_error}
use vault_drive.Preview.{
  FailureKind, credential, auth, storage, metadata, unknown, PreviewRequest, DownloadResponse,
  Attempt, done, failed, ◌then_try◌, attempt,
}
use vault_drive.Preview.Key.{is_encryption_metadata, encryption_key}

-- `response.ok`
abbrev pub is_ok : DownloadResponse → Bool
is_ok response = leb 200 response.status && leb response.status 299

unfoldable pub http_failure_kind : ℕ → FailureKind
http_failure_kind status =
    if status == 401 then auth else if leb 500 status then storage else unknown

module _ (w : WebCrypto) (json_parse : Text → Outcome Json) where
  -- The metadata, and the IV as it is written there.
  unfoldable pub parse_metadata : Text → Attempt (Json × Text)
  unfolding is_encryption_metadata
  parse_metadata meta_str = attempt metadata (json_parse meta_str) then_try λ parsed.
      if is_encryption_metadata parsed
      then done (parsed, get_or (as_text (field "iv" parsed)) [])
      else failed metadata (fixed "Missing encryption IV")

  -- What follows the download.
  unfoldable pub decrypt_response : PreviewRequest w → DownloadResponse → Attempt Bytes
  unfolding parse_metadata encryption_key
  decrypt_response request response =
      parse_metadata (get_or response.file_metadata request.file.metadata) then_try λ m.
      attempt metadata (w.atob m.1) then_try λ iv.
      encryption_key w request m.0 response.wrapped_key then_try λ k.
      attempt (if k.1 then credential else unknown) response.body then_try λ encrypted.
      attempt (if k.1 then credential else unknown) (w.aes_decrypt k.0 iv encrypted)

  -- `onmessage`, up to the message that is posted.
  unfoldable pub preview : PreviewRequest w → Outcome DownloadResponse → Attempt Bytes
  unfolding http_failure_kind decrypt_response map_download_http_error
  preview request fetched = attempt storage fetched then_try λ response.
      if is_ok response
      then decrypt_response request response
      else failed (http_failure_kind response.status) (map_download_http_error response.status)
