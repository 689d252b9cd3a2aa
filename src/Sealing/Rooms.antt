-- ===== src/Sealing/Rooms.antt =====
-- utils/zk-room-crypto.ts: keys and texts of a room, each with its IV beside it. The random bytes are
-- arguments.
use vault_drive.Base.{◌≡◌, refl, sym, ◌∙◌, true, Outcome, ok, ◌>>=◌, >>=-ok, All}
use vault_drive.Base.JsText.{Text}
use vault_drive.Sealing.{Bytes, IsByte, Access, WebCrypto}
use vault_drive.Sealing.Envelope.{full_access}
use vault_drive.Sealing.Opens.{Documented, IsOpener, text_opens}

pub record WrappedEnvelope : Type 0 where
  pub ciphertext : Text
  pub iv : Text

module _ (w : WebCrypto) where
  unfoldable pub export_room_key : w.Key → Outcome Text
  export_room_key key = w.export_raw key >>= λ exported. ok (w.btoa exported)

  unfoldable pub import_room_key : Text → Outcome w.Key
  import_room_key key_b64 = w.atob key_b64 >>= λ buffer. w.import_raw buffer full_access

  unfoldable pub encrypt_room_key_envelope : w.Key → w.Key → Bytes → Outcome WrappedEnvelope
  encrypt_room_key_envelope shared_secret room_key iv = w.export_raw room_key >>= λ raw_room_key.
      w.aes_encrypt shared_secret iv raw_room_key >>= λ ciphertext.
      ok (record { ciphertext = w.btoa ciphertext; iv = w.btoa iv })

  unfoldable pub decrypt_room_key_envelope : w.Key → WrappedEnvelope → Outcome w.Key
  decrypt_room_key_envelope shared_secret wrapped = w.atob wrapped.ciphertext >>= λ cipher_buffer.
      w.atob wrapped.iv >>= λ iv_buffer.
      w.aes_decrypt shared_secret iv_buffer cipher_buffer >>= λ decrypted_raw.
      w.import_raw decrypted_raw full_access

  unfoldable pub encrypt_room_data : w.Key → Text → Bytes → Outcome WrappedEnvelope
  encrypt_room_data room_key plaintext iv =
      w.aes_encrypt room_key iv (w.encode_text plaintext) >>= λ ciphertext.
      ok (record { ciphertext = w.btoa ciphertext; iv = w.btoa iv })

  unfoldable pub decrypt_room_data : w.Key → WrappedEnvelope → Outcome Text
  decrypt_room_data room_key wrapped = w.atob wrapped.ciphertext >>= λ cipher_buffer.
      w.atob wrapped.iv >>= λ iv_buffer.
      w.aes_decrypt room_key iv_buffer cipher_buffer >>= λ decrypted_bytes.
      ok (w.decode_text decrypted_bytes)

module _ (w : WebCrypto) (d : Documented w) where
  -- Both members of a room reach each other: a room key that one sends under their shared secret
  -- arrives with the key material it had, and a text that one encrypts with the room key is read with
  -- the key that arrived.
  pub rooms_open :
      (ours theirs room_key : w.Key) (raw iv iv' : Bytes) (a : Access) (text : Text)
      (key_envelope text_envelope : WrappedEnvelope)
      → d.material theirs ≡ d.material ours
      → (d.access theirs).can_decrypt ≡ true
      → w.import_raw raw a ≡ ok room_key
      → All IsByte iv
      → All IsByte iv'
      → w.decode_text (w.encode_text text) ≡ text
      → encrypt_room_key_envelope w ours room_key iv ≡ ok key_envelope
      → encrypt_room_data w room_key text iv' ≡ ok text_envelope
      → (arrived : w.Key) × (decrypt_room_key_envelope w theirs key_envelope ≡ ok arrived)
        × (d.material arrived ≡ d.material room_key)
        × (decrypt_room_data w arrived text_envelope ≡ ok text)
  unfolding encrypt_room_key_envelope decrypt_room_key_envelope encrypt_room_data decrypt_room_data
      IsOpener
  rooms_open ours theirs room_key raw iv iv' a text key_envelope text_envelope same may hr hb hb' ht
        he hx =
      let (exported, h1, h2) = >>=-ok (w.export_raw room_key) _ he in
      let (c, h3, h4) = >>=-ok (w.aes_encrypt ours iv exported) _ h2 in
      let (t, h5, h6) = >>=-ok (w.aes_encrypt room_key iv' (w.encode_text text)) _ hx in
      let e : key_envelope ≡ record { ciphertext = w.btoa c; iv = w.btoa iv } = cc h4 in
      let e' : text_envelope ≡ record { ciphertext = w.btoa t; iv = w.btoa iv' } = cc h6 in
      let raw_is : exported ≡ raw =
        sym (d.export_raw-ok room_key exported h1) ∙ (d.import_raw-ok raw a room_key hr).0 in
      let (k, hk) = d.import_raw-again raw a room_key full_access hr refl in
      let m = d.import_raw-ok raw full_access k hk in
      let opened = d.aes_decrypt-aes_encrypt ours theirs iv exported c h3 same may in
      let arrives = m.0 ∙ sym (d.import_raw-ok raw a room_key hr).0 in
      let read = text_opens w d room_key k iv' t text ht h5 (arrives, access_of k m.1) in
      (
        k,
        rw
            (
              e,
              d.atob-btoa c (d.aes_encrypt-ok ours iv exported c h3).0,
              d.atob-btoa iv hb,
              opened,
              raw_is,
            )
            hk,
        arrives,
        rw (e', d.atob-btoa t (d.aes_encrypt-ok room_key iv' _ t h5).0, d.atob-btoa iv' hb') read,
      )
    where
      access_of : (k : w.Key) → d.access k ≡ full_access → (d.access k).can_decrypt ≡ true
      access_of k h = rw h refl
