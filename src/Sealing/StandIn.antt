-- ===== src/Sealing/StandIn.antt =====
-- A small stand-in for WebCrypto that keeps what it documents, for tests.
use vault_drive.Base.{
  ◌+◌, ◌-◌, ◌≡◌, refl, sym, ap, Bool, true, false, [], ◌∷◌, ◌++◌, length, length-append, take,
  take-append, if◌then◌else◌, All, All-append, Outcome, ok, throw, arith, leb,
}
use vault_drive.Sealing.{Bytes, IsByte, Access, RsaImport, WebCrypto}
use vault_drive.Sealing.Hex.{hex_to_bytes, bytes_to_hex, hex_to_bytes-bytes_to_hex}
use vault_drive.Sealing.Opens.{Documented}

-- A key of the stand-in.
pub record ToyKey : Type 0 where
  pub bytes : Bytes
  pub access : Access

abbrev pub tag : Bytes
tag = 0 ∷ 0 ∷ 0 ∷ 0 ∷ 0 ∷ 0 ∷ 0 ∷ 0 ∷ 0 ∷ 0 ∷ 0 ∷ 0 ∷ 0 ∷ 0 ∷ 0 ∷ 0 ∷ []

-- Of a list, the units that are bytes.
abbrev pub only_bytes : Bytes → Bool
only_bytes [] = true
only_bytes (b ∷ bytes) = if leb b 255 then only_bytes bytes else false

-- The ciphertext is the text and a tag, for a key that may encrypt.
abbrev pub toy_encrypt : ToyKey → Bytes → Bytes → Outcome Bytes
toy_encrypt k iv plain =
    if k.access.can_encrypt
    then if only_bytes plain then ok (plain ++ tag) else throw "no bytes"
    else throw "InvalidAccessError"

abbrev pub toy_decrypt : ToyKey → Bytes → Bytes → Outcome Bytes
toy_decrypt k iv c =
    if k.access.can_decrypt then ok (take (length c - 16) c) else throw "InvalidAccessError"

abbrev pub toy : WebCrypto
toy = record {
  Key = ToyKey;
  RsaKey = RsaImport;
  normalize_nfc = λ t. t;
  encode_text = λ t. t;
  decode_text = λ b. b;
  atob = hex_to_bytes;
  btoa = bytes_to_hex;
  pbkdf2_sha256 = λ password salt n a. ok (record { bytes = password ++ salt; access = a });
  sha256 = λ b. ok b;
  run_argon2 = λ o. ok (o.password ++ o.salt);
  import_raw = λ b a. ok (record { bytes = b; access = a });
  export_raw = λ k. if k.access.extractable then ok k.bytes else throw "InvalidAccessError";
  aes_encrypt = toy_encrypt;
  aes_decrypt = toy_decrypt;
  import_rsa = λ r. ok r;
  rsa_unwrap = λ k b a. ok (record { bytes = b; access = a });
  rsa_encrypt = λ k b. ok b;
  rsa_decrypt = λ k b. ok b;
}

only_bytes-IsByte : (bytes : Bytes) → only_bytes bytes ≡ true → All IsByte bytes
only_bytes-IsByte [] h = tt
only_bytes-IsByte (b ∷ bytes) h = ground (arith, only_bytes-IsByte bytes)

toy_encrypt_shape :
    (k : ToyKey) (iv plain c : Bytes)
    → toy_encrypt k iv plain ≡ ok c
    → (only_bytes plain ≡ true) × (plain ++ tag ≡ c)
toy_encrypt_shape k iv plain c h = ground (arith, h)

pub toy_encrypt-ok :
    (k : ToyKey) (iv plain c : Bytes)
    → toy_encrypt k iv plain ≡ ok c
    → All IsByte c × (length c ≡ length plain + 16)
toy_encrypt-ok k iv plain c h =
    let (b, e) = toy_encrypt_shape k iv plain c h in
    rw (← e) (
      All-append IsByte plain tag (only_bytes-IsByte plain b) (omega arith),
      length-append plain tag,
    )

pub toy_decrypt-toy_encrypt :
    (k k' : ToyKey) (iv plain c : Bytes)
    → toy_encrypt k iv plain ≡ ok c
    → k'.access.can_decrypt ≡ true
    → toy_decrypt k' iv c ≡ ok plain
toy_decrypt-toy_encrypt k k' iv plain c h a =
    let (b, e) = toy_encrypt_shape k iv plain c h in
    let size : length (plain ++ tag) - 16 ≡ length plain = omega (arith, length-append plain tag) in
    rw (← e, a, size, take-append) refl

abbrev pub toy_key : Bytes → Access → ToyKey
toy_key bytes access = record { bytes = bytes; access = access }

pub key_of :
    (b : Bytes) (a : Access) (k : ToyKey) → ok (toy_key b a) ≡ ok k → (k.bytes ≡ b) × (k.access ≡ a)
key_of b a k h =
    let e : toy_key b a ≡ k = cc h in
    (sym (ap (λ (x : ToyKey). x.bytes) e), sym (ap (λ (x : ToyKey). x.access) e))

pub exported :
    (k : ToyKey) (b : Bytes)
    → (if k.access.extractable then ok k.bytes else throw "InvalidAccessError") ≡ ok b
    → k.bytes ≡ b
exported k b h = ground (arith, h)

unfoldable pub toy-Documented : Documented toy
toy-Documented = record {
  material = λ k. k.bytes;
  access = λ k. k.access;
  atob-btoa = hex_to_bytes-bytes_to_hex;
  import_raw-ok = λ b a k h. key_of b a k h;
  import_raw-again = λ b a k a' h u. (record { bytes = b; access = a' }, refl);
  export_raw-ok = λ k b h. exported k b h;
  pbkdf2-ok = λ p s n a k h. (key_of (p ++ s) a k h).1;
  pbkdf2-again = λ p s n a k a' h u. (toy_key (p ++ s) a', refl, sym (key_of (p ++ s) a k h).0);
  aes_encrypt-ok = toy_encrypt-ok;
  aes_decrypt-aes_encrypt = λ k k' iv plain c h m a. toy_decrypt-toy_encrypt k k' iv plain c h a;
}
