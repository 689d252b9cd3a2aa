-- ===== src/Sealing/Envelope.antt =====
-- utils/crypto.ts: keys and texts under a password, a PIN or another key. An envelope is
-- 16 bytes of salt, 12 bytes of IV and the ciphertext. The random bytes are arguments.
use vault_drive.Base.{
  ℕ, ◌+◌, ◌*◌, Bool, true, false, not, ◌++◌, length, drop, ltb, if◌then◌else◌, Outcome, ok, throw,
  ◌>>=◌, ◌==◌, number_eq, list_eq,
}
use vault_drive.Base.JsText.{Text, slice}
use vault_drive.Sealing.{Bytes, Access, Argon2Options, WebCrypto}
use vault_drive.Sealing.Hex.{hex_to_bytes, bytes_to_hex}

abbrev pub only_encrypt : Access
only_encrypt = record { extractable = false; can_encrypt = true; can_decrypt = false }

abbrev pub only_decrypt : Access
only_decrypt = record { extractable = false; can_encrypt = false; can_decrypt = true }

abbrev pub full_access : Access
full_access = record { extractable = true; can_encrypt = true; can_decrypt = true }

abbrev pub argon2_options : Text → Bytes → Argon2Options
argon2_options password salt = record {
  password = password;
  salt = salt;
  parallelism = 4;
  iterations = 3;
  memory_size = 64 * 1024;
  hash_length = 32;
}

module _ (w : WebCrypto) where
  unfoldable pub derive_key_from_password : Text → Bytes → ℕ → Outcome w.Key
  derive_key_from_password password salt iterations =
      w.pbkdf2_sha256 (w.encode_text (w.normalize_nfc password)) salt iterations full_access

  unfoldable pub unwrap_key : Text → Text → Outcome Text
  unfolding derive_key_from_password hex_to_bytes
  unwrap_key password wrapped_key_hex = hex_to_bytes wrapped_key_hex >>= λ bytes.
      if ltb (length bytes) (16 + 12 + 16)
      then throw "Invalid wrapped key length"
      else derive_key_from_password (w.normalize_nfc password) (slice 0 16 bytes) 100000 >>= λ key.
          w.aes_decrypt key (slice 16 28 bytes) (drop 28 bytes) >>= λ raw. ok (w.decode_text raw)

  -- The key of a PIN.
  unfoldable pub pin_key : Text → Bytes → ℕ → Access → Outcome w.Key
  unfolding derive_key_from_password
  pin_key pin salt kek_envelope_version access =
      if kek_envelope_version == 2
      then (w.run_argon2 (argon2_options pin salt) >>= λ bytes. w.import_raw bytes access)
      else derive_key_from_password pin salt 100000

  unfoldable pub encrypt_private_key_with_pin : Text → Text → ℕ → Bytes → Bytes → Outcome Text
  unfolding pin_key bytes_to_hex
  encrypt_private_key_with_pin pin private_key_pem kek_envelope_version salt iv =
      pin_key pin salt kek_envelope_version only_encrypt >>= λ key.
      w.aes_encrypt key iv (w.encode_text private_key_pem) >>= λ encrypted.
      ok (bytes_to_hex (salt ++ (iv ++ encrypted)))

  unfoldable pub decrypt_private_key_with_pin : Text → Text → ℕ → Outcome Text
  unfolding pin_key hex_to_bytes
  decrypt_private_key_with_pin pin encrypted_hex kek_envelope_version =
      hex_to_bytes encrypted_hex >>= λ bytes.
      if ltb (length bytes) (16 + 12 + 16)
      then throw "Invalid encrypted private key length"
      else pin_key pin (slice 0 16 bytes) kek_envelope_version only_decrypt >>= λ key.
          w.aes_decrypt key (slice 16 28 bytes) (drop 28 bytes) >>= λ decrypted.
          ok (w.decode_text decrypted)

  -- The bytes of the key of a password: Argon2id in version 2, else SHA-256 of salt and password.
  unfoldable pub password_key : Text → Bytes → ℕ → Access → Outcome w.Key
  password_key password salt kek_envelope_version access =
      (if kek_envelope_version == 2
        then w.run_argon2 (argon2_options password salt)
        else w.sha256 (salt ++ w.encode_text password))
      >>= λ bytes. w.import_raw bytes access

  -- `decryptWithPasswordBytes`
  unfoldable pub decrypt_with_password_bytes : Bytes → Bytes → Bytes → ℕ → Text → Outcome Text
  unfolding password_key
  decrypt_with_password_bytes salt iv ciphertext kek_envelope_version candidate_password =
      password_key candidate_password salt kek_envelope_version only_decrypt >>= λ key.
      w.aes_decrypt key iv ciphertext >>= λ decrypted. ok (w.decode_text decrypted)

  unfoldable pub decrypt_private_key_with_password : Text → Text → ℕ → Outcome Text
  unfolding decrypt_with_password_bytes
  decrypt_private_key_with_password password encrypted_private_key_b64 kek_envelope_version =
      w.atob encrypted_private_key_b64 >>= λ bytes.
      if ltb (length bytes) (16 + 12 + 16)
      then throw "Invalid encrypted private key length"
      else let attempt =
          decrypt_with_password_bytes (slice 0 16 bytes) (slice 16 28 bytes) (drop 28 bytes)
            kek_envelope_version in
        let normalized_password = w.normalize_nfc password in
        elim (attempt normalized_password) [
          | ok pem ↦ ok pem
          | throw normalized_error ↦
              if not (normalized_password == password)
              then attempt password
              else throw normalized_error
        ]

  unfoldable pub encrypt_private_key_with_password : Text → Text → ℕ → Bytes → Bytes → Outcome Text
  unfolding password_key
  encrypt_private_key_with_password password private_key_pem kek_envelope_version salt iv =
      password_key (w.normalize_nfc password) salt kek_envelope_version only_encrypt >>= λ key.
      w.aes_encrypt key iv (w.encode_text private_key_pem) >>= λ ciphertext.
      ok (w.btoa (salt ++ (iv ++ ciphertext)))

  -- 12 bytes of IV and the ciphertext.
  unfoldable pub wrap_key_with_aes : w.Key → w.Key → Bytes → Outcome Text
  wrap_key_with_aes wrapping_key file_key iv = w.export_raw file_key >>= λ raw.
      w.aes_encrypt wrapping_key iv raw >>= λ wrapped. ok (w.btoa (iv ++ wrapped))

  unfoldable pub unwrap_key_with_aes : w.Key → Text → Outcome w.Key
  unwrap_key_with_aes wrapping_key wrapped_b64 = w.atob wrapped_b64 >>= λ bytes.
      w.aes_decrypt wrapping_key (slice 0 12 bytes) (drop 12 bytes) >>= λ raw.
      w.import_raw raw full_access

  unfoldable pub wrap_key_with_rsa : w.RsaKey → w.Key → Outcome Text
  wrap_key_with_rsa recipient_public_key aes_key = w.export_raw aes_key >>= λ raw.
      w.rsa_encrypt recipient_public_key raw >>= λ encrypted. ok (w.btoa encrypted)

  unfoldable pub unwrap_key_with_rsa : w.RsaKey → Text → Outcome w.Key
  unwrap_key_with_rsa private_key wrapped_key_b64 = w.atob wrapped_key_b64 >>= λ bytes.
      w.rsa_decrypt private_key bytes >>= λ raw. w.import_raw raw full_access

  -- `exportKey` and `importKey`
  unfoldable pub export_key : w.Key → Outcome Text
  export_key key = w.export_raw key >>= λ raw. ok (w.btoa raw)

  unfoldable pub import_key : Text → Outcome w.Key
  import_key key_string = w.atob key_string >>= λ raw. w.import_raw raw full_access

  unfoldable pub decrypt_file : Bytes → w.Key → Bytes → Outcome Bytes
  decrypt_file encrypted_data key iv = elim (w.aes_decrypt key iv encrypted_data) [
    | ok bytes ↦ ok bytes
    | throw e ↦ throw "Decryption failed. Invalid key or corrupted data."
  ]

  unfoldable pub hash_file : Bytes → Outcome Text
  hash_file bytes = w.sha256 bytes >>= λ hash. ok (w.btoa hash)

  unfoldable pub verify_file_integrity : Bytes → Text → Outcome Bool
  unfolding hash_file
  verify_file_integrity bytes expected_hash =
      hash_file bytes >>= λ actual_hash. ok (actual_hash == expected_hash)
