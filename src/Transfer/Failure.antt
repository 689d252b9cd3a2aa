-- ===== src/Transfer/Failure.antt =====
-- utils/download-error.ts: what a failed transfer is called and whether it may be tried again.
use vault_drive.Base.{
  ℕ, ◌+◌, ◌≤◌, Bool, true, false, ◌&&◌, ◌||◌, Option, none, some, ◌≡◌, ◌⊎◌, ◌↔◌, arith, leb,
  if◌then◌else◌, ◌==◌, number_eq, list_eq, map, String,
}
use vault_drive.Base.JsText.{Text, units, includes}

pub data TransferFailureKind : Type 0 where
  auth forbidden unavailable rate_limit service network metadata credential missing_key unknown :
      TransferFailureKind

-- A message is one of the module's, one with the status in it, or the text of an error.
pub data FailureMessage : Type 0 where
  fixed : String → FailureMessage
  with_status : String → ℕ → FailureMessage
  text : Text → FailureMessage

pub record TransferFailure : Type 0 where
  pub kind : TransferFailureKind
  pub message : FailureMessage
  pub retryable : Bool

-- What may be thrown: an `Error` made here, a `TypeError`, another `Error`, or anything else.
pub data Thrown : Type 0 where
  transfer_error : FailureMessage → TransferFailure → Thrown
  type_error plain_error : Text → Thrown
  no_error : Thrown

unfoldable pub create_transfer_error : TransferFailure → Option FailureMessage → Thrown
create_transfer_error failure none = transfer_error failure.message failure
create_transfer_error failure (some message) =
    transfer_error message (record failure { message = message })

unfoldable pub classify_transfer_http_error : ℕ → TransferFailure
classify_transfer_http_error status =
    if status == 401
    then record {
      kind = auth;
      message = fixed "Your session expired. Sign in again.";
      retryable = false;
    }
    else if status == 403
    then record {
      kind = forbidden;
      message = fixed "You do not have permission to access this file.";
      retryable = false;
    }
    else if status == 404 || status == 410
    then record {
      kind = unavailable;
      message = fixed "This link has expired or is no longer available.";
      retryable = false;
    }
    else if status == 429
    then record {
      kind = rate_limit;
      message = fixed "Too many attempts. Wait a moment, then try again.";
      retryable = true;
    }
    else if leb 500 status
    then record {
      kind = service;
      message = fixed "The service is temporarily unavailable.";
      retryable = true;
    }
    else record {
      kind = unknown;
      message = with_status "Transfer failed (HTTP" status;
      retryable = false;
    }

-- The flag `i` of a pattern in ASCII.
abbrev pub ascii_lower : ℕ → ℕ
ascii_lower c = if leb 65 c && leb c 90 then c + 32 else c

-- `/failed to fetch|network(?:error| request failed)|load failed/i`
unfoldable pub is_network_message : Text → Bool
is_network_message message =
    let m = map ascii_lower message in
    includes m (units "failed to fetch")
    || includes m (units "networkerror")
    || includes m (units "network request failed")
    || includes m (units "load failed")

unfoldable pub classify_transfer_error : Thrown → TransferFailure
unfolding is_network_message
classify_transfer_error (transfer_error message failure) = failure
classify_transfer_error (type_error message) =
    if is_network_message message
    then record {
      kind = network;
      message = fixed "The service could not be reached. Check your connection and try again.";
      retryable = true;
    }
    else record { kind = unknown; message = text message; retryable = false }
classify_transfer_error (plain_error message) = record {
  kind = unknown;
  message = text message;
  retryable = false;
}
classify_transfer_error no_error = record {
  kind = unknown;
  message = fixed "Transfer failed.";
  retryable = false;
}

unfoldable pub map_download_http_error : ℕ → FailureMessage
map_download_http_error status =
    if status == 401
    then fixed "Your session expired. Sign in again."
    else if status == 403
    then fixed "You do not have permission to download this file."
    else if status == 404 || status == 410
    then fixed "This file is no longer available."
    else if leb 500 status
    then fixed "File is temporarily unavailable from storage."
    else with_status "Download failed (HTTP" status

-- An answer may be tried again exactly for 429 and for 500 and above, and keeps that through being
-- thrown and classified, under whatever message it is thrown.
pub classify_transfer_http_error-retryable :
    (status : ℕ) (message : Option FailureMessage)
    → ((classify_transfer_error
          (create_transfer_error (classify_transfer_http_error status) message)).retryable
        ≡ true)
      ↔ ((status ≡ 429) ⊎ (500 ≤ status))
unfolding classify_transfer_error create_transfer_error classify_transfer_http_error
classify_transfer_http_error-retryable status none = ground arith
classify_transfer_http_error-retryable status (some message) = ground arith
