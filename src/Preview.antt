-- ===== src/Preview.antt =====
-- workers/preview.worker.ts: a file is fetched and decrypted away from the page, and a failure is
-- named by what failed.
pub mod Key
pub mod Worker
pub mod Branches
pub mod Failures
pub mod Opened
mod Tests
use vault_drive.Base.{ℕ, String, Option, Bool, Outcome, ok, throw}
use vault_drive.Base.JsText.{Text}
use vault_drive.Base.Json.{Json}
use vault_drive.Sealing.{Bytes, WebCrypto}
use vault_drive.Transfer.Failure.{FailureMessage, fixed}

pub data FailureKind : Type 0 where
  credential auth storage metadata unknown : FailureKind

pub record PreviewFile : Type 0 where
  pub metadata : Text
  pub pin_wrapped_key : Option Text
  pub is_owner : Option Bool

pub record PreviewRequest (w : WebCrypto) : Type 0 where
  pub file : PreviewFile
  pub credential : Text
  pub file_key : Option w.Key
  pub folder_key : Option w.Key
  pub raw_private_key_pem : Option Text

-- What `fetch` gives: the status, the two headers that are read, and the body.
pub record DownloadResponse : Type 0 where
  pub status : ℕ
  pub file_metadata : Option Text
  pub wrapped_key : Option Text
  pub body : Outcome Bytes

-- The handler up to some point: a value, or the message that is posted with `failureKind`.
pub data Attempt {ℓ} (A : Type ℓ) : Type ℓ where
  done : A → Attempt A
  failed : FailureKind → FailureMessage → Attempt A

infixl 5 ◌then_try◌
abbrev pub ◌then_try◌ {ℓ κ} : {A : Type ℓ} {B : Type κ} → Attempt A → (A → Attempt B) → Attempt B
done a then_try f = f a
failed kind message then_try f = failed kind message

-- A call that may throw while `failureKind` has this value.
abbrev pub attempt {ℓ} : {A : Type ℓ} → FailureKind → Outcome A → Attempt A
attempt kind (ok a) = done a
attempt kind (throw e) = failed kind (fixed e)
