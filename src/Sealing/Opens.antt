-- ===== src/Sealing/Opens.antt =====
-- utils/crypto.ts: what was sealed is opened again. `Documented` is what the browser promises.
use vault_drive.Base.{
  ℕ, ◌+◌, ◌≡◌, refl, sym, ap, ◌∙◌, true, false, ◌||◌, ◌++◌, length, drop-add, length-append, take,
  drop, take-append, drop-append, ltb, Outcome, ok, ◌>>=◌, >>=-ok, ◌==◌, number_eq, list_eq, All,
  All-append, arith, Bool-cases, inl, inr,
}
use vault_drive.Base.JsText.{Text, slice}
use vault_drive.Sealing.{Bytes, IsByte, Access, WebCrypto}
use vault_drive.Sealing.Hex.{bytes_to_hex, hex_to_bytes-bytes_to_hex}
use vault_drive.Sealing.Envelope.{
  argon2_options, only_encrypt, only_decrypt, full_access, pin_key, password_key,
  derive_key_from_password, encrypt_private_key_with_pin, decrypt_private_key_with_pin,
  decrypt_with_password_bytes, encrypt_private_key_with_password, decrypt_private_key_with_password,
  wrap_key_with_aes, unwrap_key_with_aes,
}

-- WebCrypto: a key has its bytes and its access; AES-GCM adds a tag of 16 bytes and is undone under
-- a key with the same bytes; whether bytes are a key, or what is derived from a password, does not
-- depend on the access that is asked for.
pub record Documented (w : WebCrypto) : Type 0 where
  pub material : w.Key → Bytes
  pub access : w.Key → Access
  pub atob-btoa : (bytes : Bytes) → All IsByte bytes → w.atob (w.btoa bytes) ≡ ok bytes
  pub import_raw-ok :
      (bytes : Bytes) (a : Access) (k : w.Key)
      → w.import_raw bytes a ≡ ok k
      → (material k ≡ bytes) × (access k ≡ a)
  pub import_raw-again :
      (bytes : Bytes) (a : Access) (k : w.Key) (a' : Access)
      → w.import_raw bytes a ≡ ok k
      → (a'.can_encrypt || a'.can_decrypt) ≡ true
      → (k' : w.Key) × (w.import_raw bytes a' ≡ ok k')
  pub export_raw-ok : (k : w.Key) (bytes : Bytes) → w.export_raw k ≡ ok bytes → material k ≡ bytes
  pub pbkdf2-ok :
      (password salt : Bytes) (n : ℕ) (a : Access) (k : w.Key)
      → w.pbkdf2_sha256 password salt n a ≡ ok k
      → access k ≡ a
  pub pbkdf2-again :
      (password salt : Bytes) (n : ℕ) (a : Access) (k : w.Key) (a' : Access)
      → w.pbkdf2_sha256 password salt n a ≡ ok k
      → (a'.can_encrypt || a'.can_decrypt) ≡ true
      → (k' : w.Key) × (w.pbkdf2_sha256 password salt n a' ≡ ok k') × (material k' ≡ material k)
  pub aes_encrypt-ok :
      (k : w.Key) (iv plain c : Bytes)
      → w.aes_encrypt k iv plain ≡ ok c
      → All IsByte c × (length c ≡ length plain + 16)
  pub aes_decrypt-aes_encrypt :
      (k k' : w.Key) (iv plain c : Bytes)
      → w.aes_encrypt k iv plain ≡ ok c
      → material k' ≡ material k
      → (access k').can_decrypt ≡ true
      → w.aes_decrypt k' iv c ≡ ok plain

-- Salt and IV as the code draws them.
pub record IsDrawn (salt iv : Bytes) : Type 0 where
  pub salt_bytes : All IsByte salt
  pub salt_length : length salt ≡ 16
  pub iv_bytes : All IsByte iv
  pub iv_length : length iv ≡ 12

-- The parts of an envelope.
pub envelope_parts :
    (salt iv rest : Bytes)
    → length salt ≡ 16
    → length iv ≡ 12
    → (slice 0 16 (salt ++ (iv ++ rest)) ≡ salt)
      × (slice 16 28 (salt ++ (iv ++ rest)) ≡ iv)
      × (drop 28 (salt ++ (iv ++ rest)) ≡ rest)
envelope_parts salt iv rest hs hi =
    let first : take 16 (salt ++ (iv ++ rest)) ≡ salt = rw hs at (take-append salt (iv ++ rest)) in
    let behind : drop 16 (salt ++ (iv ++ rest)) ≡ iv ++ rest =
      rw hs at (drop-append salt (iv ++ rest)) in
    let second : take 12 (iv ++ rest) ≡ iv = rw hi at (take-append iv rest) in
    let last : drop 12 (iv ++ rest) ≡ rest = rw hi at (drop-append iv rest) in
    (
      first,
      ap (take 12) behind ∙ second,
      drop-add 16 12 (salt ++ (iv ++ rest)) ∙ ap (drop 12) behind ∙ last,
    )

long_enough :
    (salt iv c : Bytes) (n : ℕ)
    → length salt ≡ 16
    → length iv ≡ 12
    → length c ≡ n + 16
    → ltb (length (salt ++ (iv ++ c))) 44 ≡ false
long_enough salt iv c n hs hi hc = ground (arith, length-append salt (iv ++ c), length-append iv c)

module _ (w : WebCrypto) (d : Documented w) where
  -- A key that opens what `k` sealed.
  unfoldable pub IsOpener : w.Key → w.Key → Type 0
  IsOpener k k' = (d.material k' ≡ d.material k) × ((d.access k').can_decrypt ≡ true)

  -- The same bytes, imported once to encrypt and once to decrypt.
  import_again :
      (o : Outcome Bytes) (k : w.Key)
      → (o >>= λ bytes. w.import_raw bytes only_encrypt) ≡ ok k
      → (k' : w.Key) × ((o >>= λ bytes. w.import_raw bytes only_decrypt) ≡ ok k') × IsOpener k k'
  unfolding IsOpener
  import_again o k h =
      let (bytes, e, i) = >>=-ok o _ h in
      let (k', i') = d.import_raw-again bytes only_encrypt k only_decrypt i refl in
      let m = d.import_raw-ok bytes only_encrypt k i in
      let m' = d.import_raw-ok bytes only_decrypt k' i' in
      (k', rw e i', (m'.0 ∙ sym m.0, ap (λ (a : Access). a.can_decrypt) m'.1))

  pin_key_again :
      (pin : Text) (salt : Bytes) (v : ℕ) (k : w.Key)
      → pin_key w pin salt v only_encrypt ≡ ok k
      → (k' : w.Key) × (pin_key w pin salt v only_decrypt ≡ ok k') × IsOpener k k'
  unfolding pin_key derive_key_from_password IsOpener
  pin_key_again pin salt v k h = elim (Bool-cases (v == 2)) [
    | inl e ↦ rw e (import_again (w.run_argon2 (argon2_options pin salt)) k (rw e at h))
    | inr e ↦
        let h' = rw e at h in
        rw e (k, h', (refl, ap (λ (a : Access). a.can_decrypt) (d.pbkdf2-ok _ _ _ _ k h')))
  ]

  -- The text comes out of its ciphertext.
  pub text_opens :
      (k k' : w.Key) (iv c : Bytes) (pem : Text)
      → w.decode_text (w.encode_text pem) ≡ pem
      → w.aes_encrypt k iv (w.encode_text pem) ≡ ok c
      → IsOpener k k'
      → (w.aes_decrypt k' iv c >>= λ plain. ok (w.decode_text plain)) ≡ ok pem
  unfolding IsOpener
  text_opens k k' iv c pem hp h (m, a) =
      rw (d.aes_decrypt-aes_encrypt k k' iv (w.encode_text pem) c h m a, hp) refl

  envelope_bytes :
      (salt iv c plain : Bytes) (k : w.Key)
      → IsDrawn salt iv
      → w.aes_encrypt k iv plain ≡ ok c
      → All IsByte (salt ++ (iv ++ c)) × (ltb (length (salt ++ (iv ++ c))) 44 ≡ false)
  envelope_bytes salt iv c plain k drawn h =
      let (bytes, size) = d.aes_encrypt-ok k iv plain c h in
      (
        All-append IsByte salt (iv ++ c) drawn.salt_bytes
            (All-append IsByte iv c drawn.iv_bytes bytes),
        long_enough salt iv c _ drawn.salt_length drawn.iv_length size,
      )

  -- A private key under a PIN is opened by that PIN, under every version of the envelope.
  pub decrypt_private_key_with_pin-encrypt_private_key_with_pin :
      (pin pem : Text) (v : ℕ) (salt iv : Bytes) (hex : Text)
      → IsDrawn salt iv
      → w.decode_text (w.encode_text pem) ≡ pem
      → encrypt_private_key_with_pin w pin pem v salt iv ≡ ok hex
      → decrypt_private_key_with_pin w pin hex v ≡ ok pem
  unfolding encrypt_private_key_with_pin decrypt_private_key_with_pin
  decrypt_private_key_with_pin-encrypt_private_key_with_pin pin pem v salt iv hex drawn hp h =
      let (k, hk, h1) = >>=-ok (pin_key w pin salt v only_encrypt) _ h in
      let (c, hc, h2) = >>=-ok (w.aes_encrypt k iv (w.encode_text pem)) _ h1 in
      let written : hex ≡ bytes_to_hex (salt ++ (iv ++ c)) = cc h2 in
      let (bytes, size) = envelope_bytes salt iv c _ k drawn hc in
      let (p1, p2, p3) = envelope_parts salt iv c drawn.salt_length drawn.iv_length in
      let (k', hk', opener) = pin_key_again pin salt v k hk in
      rw (written, hex_to_bytes-bytes_to_hex _ bytes, size, p1, p2, p3, hk')
        (text_opens k k' iv c pem hp hc opener)

  password_key_again :
      (password : Text) (salt : Bytes) (v : ℕ) (k : w.Key)
      → password_key w password salt v only_encrypt ≡ ok k
      → (k' : w.Key) × (password_key w password salt v only_decrypt ≡ ok k') × IsOpener k k'
  unfolding password_key
  password_key_again password salt v k h = import_again _ k h

  -- A private key under a password is opened by that password, under every version.
  pub decrypt_private_key_with_password-encrypt_private_key_with_password :
      (password pem : Text) (v : ℕ) (salt iv : Bytes) (b64 : Text)
      → IsDrawn salt iv
      → w.decode_text (w.encode_text pem) ≡ pem
      → encrypt_private_key_with_password w password pem v salt iv ≡ ok b64
      → decrypt_private_key_with_password w password b64 v ≡ ok pem
  unfolding encrypt_private_key_with_password decrypt_private_key_with_password
      decrypt_with_password_bytes
  decrypt_private_key_with_password-encrypt_private_key_with_password password pem v salt iv b64
        drawn hp h =
      let (k, hk, h1) =
        >>=-ok (password_key w (w.normalize_nfc password) salt v only_encrypt) _ h in
      let (c, hc, h2) = >>=-ok (w.aes_encrypt k iv (w.encode_text pem)) _ h1 in
      let written : b64 ≡ w.btoa (salt ++ (iv ++ c)) = cc h2 in
      let (bytes, size) = envelope_bytes salt iv c _ k drawn hc in
      let (p1, p2, p3) = envelope_parts salt iv c drawn.salt_length drawn.iv_length in
      let (k', hk', opener) = password_key_again (w.normalize_nfc password) salt v k hk in
      rw
        (written, d.atob-btoa _ bytes, size, p1, p2, p3, hk', text_opens k k' iv c pem hp hc opener)
        refl

  -- A file key under a folder's key comes out of it with the bytes it had and full access.
  pub unwrap_key_with_aes-wrap_key_with_aes :
      (wrapping_key file_key : w.Key) (iv : Bytes) (b64 : Text) (raw : Bytes) (a : Access)
      → All IsByte iv
      → length iv ≡ 12
      → (d.access wrapping_key).can_decrypt ≡ true
      → w.import_raw raw a ≡ ok file_key
      → wrap_key_with_aes w wrapping_key file_key iv ≡ ok b64
      → (k : w.Key) × (unwrap_key_with_aes w wrapping_key b64 ≡ ok k)
        × (d.material k ≡ d.material file_key)
        × (d.access k ≡ full_access)
  unfolding wrap_key_with_aes unwrap_key_with_aes
  unwrap_key_with_aes-wrap_key_with_aes wrapping_key file_key iv b64 raw a hb hi ha hf h =
      let (exported, he, h1) = >>=-ok (w.export_raw file_key) _ h in
      let (c, hc, h2) = >>=-ok (w.aes_encrypt wrapping_key iv exported) _ h1 in
      let written : b64 ≡ w.btoa (iv ++ c) = cc h2 in
      let bytes = All-append IsByte iv c hb (d.aes_encrypt-ok wrapping_key iv exported c hc).0 in
      let front : take 12 (iv ++ c) ≡ iv = rw hi at (take-append iv c) in
      let back : drop 12 (iv ++ c) ≡ c = rw hi at (drop-append iv c) in
      let plain = d.aes_decrypt-aes_encrypt wrapping_key wrapping_key iv exported c hc refl ha in
      let same : exported ≡ raw =
        sym (d.export_raw-ok file_key exported he) ∙ (d.import_raw-ok raw a file_key hf).0 in
      let (k, hk) = d.import_raw-again raw a file_key full_access hf refl in
      let m = d.import_raw-ok raw full_access k hk in
      let m' = d.import_raw-ok raw a file_key hf in
      (k, rw (written, d.atob-btoa _ bytes, front, back, plain, same) hk, m.0 ∙ sym m'.0, m.1)
