-- ===== src/Sealing.antt =====
-- utils/crypto.ts: how keys are written as text and sealed. What the browser does is a parameter,
-- `WebCrypto`; the random bytes that the code draws are arguments.
pub mod Hex
pub mod Der
pub mod Envelope
pub mod Pem
pub mod PemKeys
pub mod Opens
pub mod Files
pub mod Rooms
pub mod StandIn
mod Tests
mod RoomTests
use vault_drive.Base.{
  ℕ, zero, suc, ◌<◌, ◌≡◌, Bool, true, false, Option, none, some, List, [], ◌∷◌, ◌++◌, length, take,
  drop, leb, ltb, if◌then◌else◌, All, Outcome, ok, throw, ◌>>=◌, String,
}
use vault_drive.Base.JsText.{Text}

abbrev pub Bytes : Type 0
Bytes = List ℕ

abbrev pub IsByte : ℕ → Type 0
IsByte b = b < 256

-- What a `CryptoKey` may be used for.
pub record Access : Type 0 where
  pub extractable : Bool
  pub can_encrypt : Bool
  pub can_decrypt : Bool

pub record Argon2Options : Type 0 where
  pub password : Text
  pub salt : Bytes
  pub parallelism : ℕ
  pub iterations : ℕ
  pub memory_size : ℕ
  pub hash_length : ℕ

-- What is passed to `importKey` for a key of an RSA algorithm with SHA-256.
pub record RsaImport : Type 0 where
  pub format : String
  pub key_buffer : Bytes
  pub algorithm : String
  pub usage : String

-- `window.crypto.subtle`, the text coders and `runArgon2`; a rejected promise is a `throw`.
pub record WebCrypto : Type 1 where
  pub Key : Type 0
  pub RsaKey : Type 0
  pub normalize_nfc : Text → Text
  pub encode_text : Text → Bytes
  pub decode_text : Bytes → Text
  pub atob : Text → Outcome Bytes
  pub btoa : Bytes → Text
  pub pbkdf2_sha256 : Bytes → Bytes → ℕ → Access → Outcome Key
  pub sha256 : Bytes → Outcome Bytes
  pub run_argon2 : Argon2Options → Outcome Bytes
  pub import_raw : Bytes → Access → Outcome Key
  pub export_raw : Key → Outcome Bytes
  pub aes_encrypt : Key → Bytes → Bytes → Outcome Bytes
  pub aes_decrypt : Key → Bytes → Bytes → Outcome Bytes
  pub import_rsa : RsaImport → Outcome RsaKey
  pub rsa_unwrap : RsaKey → Bytes → Access → Outcome Key
  pub rsa_encrypt : RsaKey → Bytes → Outcome Bytes
  pub rsa_decrypt : RsaKey → Bytes → Outcome Bytes
