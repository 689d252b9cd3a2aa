-- ===== src/Sealing/Files.antt =====
-- utils/crypto.ts: the encryption of a file with the events that it reports, and of metadata.
use vault_drive.Base.{ℕ, String, List, [], ◌∷◌, ◌++◌, length, Outcome, ok, throw, ◌>>=◌}
use vault_drive.Base.JsText.{Text}
use vault_drive.Base.Json.{Json}
use vault_drive.Sealing.{Bytes, WebCrypto}

-- The durations are arguments of the code below.
pub data CryptoEvent : Type 0 where
  generating_key : String → ℕ → CryptoEvent
  encrypting : ℕ → CryptoEvent
  encrypted : ℕ → ℕ → ℕ → ℕ → CryptoEvent
  uploading : ℕ → CryptoEvent
  complete : CryptoEvent

-- A `File`; reading it may fail.
pub record PlainFile : Type 0 where
  pub name : Text
  pub size : ℕ
  pub mime_type : Text
  pub array_buffer : Outcome Bytes

pub record FileMetadata : Type 0 where
  pub original_name : Text
  pub original_size : ℕ
  pub mime_type : Text

pub record EncryptedFile : Type 0 where
  pub encrypted_data : Bytes
  pub iv : Bytes
  pub metadata : FileMetadata

pub record EncryptedMetadata : Type 0 where
  pub encrypted_metadata : Text
  pub iv : Text

module _ (w : WebCrypto) where
  -- `encryptFile`: the events that were reported, and the result.
  unfoldable pub encrypt_file :
      PlainFile → w.Key → Bytes → ℕ → List CryptoEvent × Outcome EncryptedFile
  encrypt_file file key iv duration_ms =
      let first = generating_key "AES-256-GCM" 256 ∷ [] in
      elim file.array_buffer [
        | throw e ↦ (first, throw e)
        | ok file_buffer ↦
            let second = first ++ encrypting file.size ∷ [] in
            elim (w.aes_encrypt key iv file_buffer) [
              | throw e ↦ (second, throw e)
              | ok encrypted_data ↦ (
                second ++ encrypted file.size (length encrypted_data) duration_ms (length iv) ∷ [],
                ok (record {
                  encrypted_data = encrypted_data;
                  iv = iv;
                  metadata = record {
                    original_name = file.name;
                    original_size = file.size;
                    mime_type = file.mime_type;
                  };
                }),
              )
            ]
      ]

  unfoldable pub encrypt_metadata : (Json → Text) → Json → w.Key → Bytes → Outcome EncryptedMetadata
  encrypt_metadata stringify metadata key iv =
      w.aes_encrypt key iv (w.encode_text (stringify metadata)) >>= λ encrypted_data.
      ok (record { encrypted_metadata = w.btoa encrypted_data; iv = w.btoa iv })

  unfoldable pub decrypt_metadata : (Text → Outcome Json) → Text → w.Key → Text → Outcome Json
  decrypt_metadata json_parse encrypted_metadata key iv =
      w.atob encrypted_metadata >>= λ encrypted_buffer. w.atob iv >>= λ iv_buffer.
      w.aes_decrypt key iv_buffer encrypted_buffer >>= λ decrypted.
      json_parse (w.decode_text decrypted)
