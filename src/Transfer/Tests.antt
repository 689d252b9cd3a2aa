-- ===== src/Transfer/Tests.antt =====
-- Runs of the classifications, and the instances of their theorems.
use vault_drive.Base.{
  ℕ, ◌≤◌, ◌<◌, Bool, true, false, Option, none, some, ◌≡◌, ◌⊎◌, ◌↔◌, refl, List, [], ◌∷◌,
}
use vault_drive.Base.JsText.{Text, units}
use vault_drive.Base.Json.{Json, Items, Members}
use vault_drive.Transfer.Upload.{
  PublicUploadEndpoint, UploadEvent, PublicUploadStatus, PublicUploadOutcomeInput,
  has_accepted_receipt, classify_public_upload_outcome, OwnerUploadOutcome,
  read_owner_upload_outcome,
}
use vault_drive.Transfer.Accepted.{
  classify_public_upload_outcome-success, classify_public_upload_outcome-retryable, Receipt,
  read_owner_upload_outcome-confirmed,
}
use vault_drive.Transfer.Failure.{
  TransferFailureKind, type_error, fixed, classify_transfer_error, create_transfer_error,
  classify_transfer_http_error, classify_transfer_http_error-retryable,
}

abbrev created_status : ℕ
created_status = 201

abbrev unavailable_status : ℕ
unavailable_status = 503

-- `{ "success": true, "uploaded": 1, "files": [{ "file_id": "f1" }] }`
abbrev receipt : Json
receipt = Json.object (
    Members.member "success" (Json.boolean true) (
      Members.member "uploaded" (Json.number 1) (
        Members.member "files"
          (Json.array (
            Items.item
              (Json.object (Members.member "file_id" (Json.text (units "f1")) Members.last_member))
              Items.last_item))
          Members.last_member)))

abbrev parse : Text → Option Json
parse [] = none
parse (c ∷ s) = some receipt

abbrev sent : ℕ → PublicUploadOutcomeInput
sent status = record {
  endpoint = PublicUploadEndpoint.drop;
  event = UploadEvent.load;
  status = status;
  response_text = units "{}";
  request_sent = true;
  error_message = none;
}

accepted : (classify_public_upload_outcome parse (sent 200)).status ≡ PublicUploadStatus.success
unfolding classify_public_upload_outcome
accepted = refl

offline :
    (classify_transfer_error (type_error (units "Failed to fetch"))).kind
    ≡ TransferFailureKind.network
unfolding classify_transfer_error vault_drive.Base.JsText.includes
offline = refl

classify_public_upload_outcome-success_example :
    ((classify_public_upload_outcome parse (sent 201)).status ≡ PublicUploadStatus.success) ↔ (
      (UploadEvent.load ≡ UploadEvent.load)
      × (true ≡ true)
      × (200 ≤ 201)
      × (201 < 300)
      × (has_accepted_receipt parse PublicUploadEndpoint.drop (units "{}") ≡ true))
classify_public_upload_outcome-success_example =
    classify_public_upload_outcome-success parse (sent 201)

may_retry : (classify_public_upload_outcome parse (sent 429)).retryable ≡ true
unfolding classify_public_upload_outcome
may_retry = refl

classify_public_upload_outcome-retryable_example :
    (UploadEvent.load ≡ UploadEvent.prepare_error)
    ⊎ ((true ≡ false) ⊎ (((sent 429).status ≡ 408) ⊎ ((sent 429).status ≡ 429)))
classify_public_upload_outcome-retryable_example =
    classify_public_upload_outcome-retryable parse (sent 429) may_retry

read_owner_upload_outcome-confirmed_example :
    (read_owner_upload_outcome 201 (some receipt) ≡ OwnerUploadOutcome.confirmed (units "f1"))
    ↔ ((created_status ≡ 201) × Receipt (some receipt) (units "f1"))
read_owner_upload_outcome-confirmed_example =
    read_owner_upload_outcome-confirmed 201 (some receipt) (units "f1")

classify_transfer_http_error-retryable_example :
    ((classify_transfer_error (
        create_transfer_error
          (classify_transfer_http_error 503)
          (some (fixed "Try later.")))).retryable
      ≡ true)
    ↔ ((unavailable_status ≡ 429) ⊎ (500 ≤ 503))
classify_transfer_http_error-retryable_example =
    classify_transfer_http_error-retryable 503 (some (fixed "Try later."))
