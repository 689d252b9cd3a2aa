-- ===== src/Transfer/Upload.antt =====
-- utils/public-upload-outcome.ts and utils/owner-upload-outcome.ts. `JSON.parse` is a parameter:
-- `none` where it throws. A message with a number in it is a constructor.
use vault_drive.Base.{
  ℕ, Bool, true, false, not, ◌&&◌, ◌||◌, String, Option, none, some, List, map, filter, any, leb,
  ltb, if◌then◌else◌, is_empty, is_true, ◌==◌, text_eq, number_eq, list_eq,
}
use vault_drive.Base.JsText.{Text, trim}
use vault_drive.Base.Json.{Json, boolean, number, field, is_object, truthy_json, as_text, as_array}

pub data PublicUploadEndpoint : Type 0 where
  drop file_request : PublicUploadEndpoint

pub data PublicUploadStatus : Type 0 where
  pending uploading success error unknown cancelled : PublicUploadStatus

pub data UploadEvent : Type 0 where
  load network timeout abort prepare_error : UploadEvent

pub record PublicUploadProgress : Type 0 where
  pub id : String
  pub file_name : String
  pub status : PublicUploadStatus
  pub progress : ℕ
  pub bytes_uploaded : ℕ
  pub bytes_total : ℕ
  pub error : Option String
  pub retryable : Option Bool

pub record PublicUploadOutcomeInput : Type 0 where
  pub endpoint : PublicUploadEndpoint
  pub event : UploadEvent
  pub status : ℕ
  pub response_text : Text
  pub request_sent : Bool
  pub error_message : Option Text

pub data UploadMessage : Type 0 where
  upload_cancelled not_prepared ambiguous : UploadMessage
  rejected_http : ℕ → UploadMessage
  given : Text → UploadMessage

pub record PublicUploadOutcome : Type 0 where
  pub status : PublicUploadStatus
  pub retryable : Bool
  pub message : Option UploadMessage

-- `typeof row.file_id === "string" && row.file_id.length > 0`
abbrev pub has_file_id : Json → Bool
has_file_id row = elim (as_text (field "file_id" row)) [
  | none ↦ false
  | some id ↦ not (is_empty id)
]

abbrev pub is_boolean_true : Option Json → Bool
is_boolean_true (some (boolean b)) = b
is_boolean_true _ = false

abbrev pub is_number_one : Option Json → Bool
is_number_one (some (number n)) = n == 1
is_number_one _ = false

abbrev pub some_item : (Json → Bool) → Option (List Json) → Bool
some_item p none = false
some_item p (some items) = any p items

-- The receipt of one file of the answer to a drop, and to a file request.
unfoldable pub drop_row_accepted : Json → Bool
drop_row_accepted row = is_object row && has_file_id row && not (truthy_json (field "error" row))

unfoldable pub request_row_accepted : Json → Bool
request_row_accepted row = is_object row && has_file_id row

unfoldable pub receipt_accepted : PublicUploadEndpoint → Json → Bool
unfolding drop_row_accepted request_row_accepted
receipt_accepted drop value =
    is_object value
    && is_boolean_true (field "success" value)
    && is_number_one (field "uploaded" value)
    && some_item drop_row_accepted (as_array (field "files" value))
receipt_accepted file_request value =
    is_object value
    && is_number_one (field "count" value)
    && some_item request_row_accepted (as_array (field "uploaded" value))

abbrev pub unconfirmed : PublicUploadOutcome
unconfirmed = record { status = unknown; retryable = false; message = some ambiguous }

-- `errorMessage || "…"`
abbrev pub message_or : Option Text → UploadMessage → UploadMessage
message_or none m = m
message_or (some t) m = if is_empty t then m else given t

module _ (json_parse : Text → Option Json) where
  unfoldable pub read_error_message : Text → Option Text
  read_error_message response_text = elim (json_parse response_text) [
    | none ↦ none
    | some value ↦ elim (as_text (field "error" value)) [
      | none ↦ none
      | some message ↦ if is_empty (trim message) then none else some message
    ]
  ]

  unfoldable pub has_accepted_receipt : PublicUploadEndpoint → Text → Bool
  unfolding receipt_accepted
  has_accepted_receipt endpoint response_text = elim (json_parse response_text) [
    | none ↦ false
    | some value ↦ receipt_accepted endpoint value
  ]

  abbrev pub is_event : UploadEvent → UploadEvent → Bool
  is_event load load = true
  is_event network network = true
  is_event timeout timeout = true
  is_event abort abort = true
  is_event prepare_error prepare_error = true
  is_event _ _ = false

  unfoldable pub classify_public_upload_outcome : PublicUploadOutcomeInput → PublicUploadOutcome
  unfolding has_accepted_receipt read_error_message
  classify_public_upload_outcome input =
      if is_event input.event abort
      then record { status = cancelled; retryable = false; message = some upload_cancelled }
      else if is_event input.event prepare_error || not input.request_sent
      then record {
        status = error;
        retryable = true;
        message = some (message_or input.error_message not_prepared);
      }
      else if is_event input.event network
          || is_event input.event timeout
          || input.status == 0
          || leb 500 input.status
      then unconfirmed
      else if leb 200 input.status && ltb input.status 300
      then (if has_accepted_receipt input.endpoint input.response_text
          then record { status = success; retryable = false; message = none }
          else unconfirmed)
      else record {
        status = error;
        retryable = input.status == 408 || input.status == 429;
        message =
            some (message_or (read_error_message input.response_text) (rejected_http input.status));
      }

abbrev pub is_error : PublicUploadStatus → Bool
is_error error = true
is_error _ = false

unfoldable pub get_retryable_upload_ids : List PublicUploadProgress → List String
get_retryable_upload_ids rows =
    map (λ row. row.id) (filter (λ row. is_error row.status && is_true row.retryable) rows)

pub data OwnerMessage : Type 0 where
  session_expired not_confirmed no_valid_receipt : OwnerMessage
  rejected unexpected_status : ℕ → OwnerMessage

pub data OwnerUploadOutcome : Type 0 where
  confirmed : Text → OwnerUploadOutcome
  failed : OwnerMessage → OwnerUploadOutcome
  unknown : OwnerMessage → OwnerUploadOutcome

-- The receipt's `file_id`, if it is a text that is not empty.
unfoldable pub receipt_file_id : Option Json → Option Text
receipt_file_id none = none
receipt_file_id (some receipt) = elim (as_text (field "file_id" receipt)) [
  | none ↦ none
  | some id ↦ if is_empty id then none else some id
]

-- The response is its status and what `response.json()` gives.
unfoldable pub read_owner_upload_outcome : ℕ → Option Json → OwnerUploadOutcome
unfolding receipt_file_id
read_owner_upload_outcome status json =
    if status == 401
    then failed session_expired
    else if leb 400 status && ltb status 500
    then failed (rejected status)
    else if leb 500 status
    then OwnerUploadOutcome.unknown not_confirmed
    else if not (status == 201)
    then OwnerUploadOutcome.unknown (unexpected_status status)
    else elim (receipt_file_id json) [
      | none ↦ OwnerUploadOutcome.unknown no_valid_receipt
      | some id ↦ confirmed id
    ]
