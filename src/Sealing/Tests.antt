-- ===== src/Sealing/Tests.antt =====
-- Runs of the sealing with a small stand-in for WebCrypto, and the instances of its theorems.
use vault_drive.Base.{◌≡◌, refl, [], ◌∷◌, ◌++◌, ok, throw, arith, some}
use vault_drive.Base.JsText.{Text, units}
use vault_drive.Sealing.{Bytes}
use vault_drive.Sealing.Hex.{hex_to_bytes, bytes_to_hex, hex_to_bytes-bytes_to_hex}
use vault_drive.Sealing.Der.{
  encode_der_length, wrap_pkcs1_private_key_as_pkcs8, read_pkcs8,
  read_pkcs8-wrap_pkcs1_private_key_as_pkcs8,
}
use vault_drive.Sealing.Envelope.{
  full_access, encrypt_private_key_with_pin, decrypt_private_key_with_pin,
  encrypt_private_key_with_password, decrypt_private_key_with_password, wrap_key_with_aes,
  unwrap_key_with_aes,
}
use vault_drive.Sealing.Opens.{
  IsDrawn, decrypt_private_key_with_pin-encrypt_private_key_with_pin,
  decrypt_private_key_with_password-encrypt_private_key_with_password,
  unwrap_key_with_aes-wrap_key_with_aes,
}
use vault_drive.Sealing.Pem.{
  pkcs8_header, pkcs8_footer, pkcs1_header, pkcs1_footer, import_rsa_private_key, remove_spaces,
}
use vault_drive.Sealing.PemKeys.{pem_text, import_rsa_private_key_forms}
use vault_drive.Sealing.StandIn.{ToyKey, tag, toy, toy_key, toy-Documented}

abbrev salt : Bytes
salt = 1 ∷ 2 ∷ 3 ∷ 4 ∷ 5 ∷ 6 ∷ 7 ∷ 8 ∷ 9 ∷ 10 ∷ 11 ∷ 12 ∷ 13 ∷ 14 ∷ 15 ∷ 255 ∷ []

abbrev iv : Bytes
iv = 21 ∷ 22 ∷ 23 ∷ 24 ∷ 25 ∷ 26 ∷ 27 ∷ 28 ∷ 29 ∷ 30 ∷ 31 ∷ 200 ∷ []

drawn : IsDrawn salt iv
drawn = record {
  salt_bytes = omega arith;
  salt_length = refl;
  iv_bytes = omega arith;
  iv_length = refl;
}

abbrev pem : Text
pem = units "pem"

-- "pem" under a PIN, in hexadecimal.
abbrev sealed_hex : Text
sealed_hex =
    units
      "0102030405060708090a0b0c0d0e0fff15161718191a1b1c1d1e1fc870656d00000000000000000000000000000000"

encrypt_pem : encrypt_private_key_with_pin toy (units "1234") pem 2 salt iv ≡ ok sealed_hex
unfolding encrypt_private_key_with_pin
encrypt_pem = refl

read_odd : hex_to_bytes (units "abc") ≡ throw "Hex string must have even length"
unfolding hex_to_bytes
read_odd = refl

-- What `parseInt` reads over.
read_signs : hex_to_bytes (units "-1+2 30x0g") ≡ ok (255 ∷ 2 ∷ 3 ∷ 0 ∷ 0 ∷ [])
unfolding hex_to_bytes
read_signs = refl

length_300 : encode_der_length 300 ≡ 0x82 ∷ 1 ∷ 44 ∷ []
unfolding encode_der_length
length_300 = refl

read_pkcs8-wrap_pkcs1_private_key_as_pkcs8_example :
    read_pkcs8 (wrap_pkcs1_private_key_as_pkcs8 pem) ≡ some pem
read_pkcs8-wrap_pkcs1_private_key_as_pkcs8_example =
    read_pkcs8-wrap_pkcs1_private_key_as_pkcs8 pem (omega arith)

hex_to_bytes-bytes_to_hex_example : hex_to_bytes (bytes_to_hex salt) ≡ ok salt
hex_to_bytes-bytes_to_hex_example = hex_to_bytes-bytes_to_hex salt (omega arith)

decrypt_private_key_with_pin-encrypt_private_key_with_pin_example :
    decrypt_private_key_with_pin toy (units "1234") sealed_hex 2 ≡ ok pem
decrypt_private_key_with_pin-encrypt_private_key_with_pin_example =
    decrypt_private_key_with_pin-encrypt_private_key_with_pin toy toy-Documented (units "1234") pem
      2 salt iv sealed_hex drawn refl encrypt_pem

encrypt_pem_password :
    encrypt_private_key_with_password toy (units "secret") pem 1 salt iv
    ≡ ok (bytes_to_hex (salt ++ (iv ++ (pem ++ tag))))
unfolding encrypt_private_key_with_password
encrypt_pem_password = refl

decrypt_private_key_with_password-encrypt_private_key_with_password_example :
    decrypt_private_key_with_password toy
      (units "secret")
      (bytes_to_hex (salt ++ (iv ++ (pem ++ tag))))
      1
    ≡ ok pem
decrypt_private_key_with_password-encrypt_private_key_with_password_example =
    decrypt_private_key_with_password-encrypt_private_key_with_password toy toy-Documented
      (units "secret") pem 1 salt iv (bytes_to_hex (salt ++ (iv ++ (pem ++ tag)))) drawn refl
      encrypt_pem_password

wrapped_pem :
    wrap_key_with_aes toy (toy_key salt full_access) (toy_key pem full_access) iv
    ≡ ok (bytes_to_hex (iv ++ (pem ++ tag)))
unfolding wrap_key_with_aes
wrapped_pem = refl

unwrap_key_with_aes-wrap_key_with_aes_example :
    (k : ToyKey) × (unwrap_key_with_aes toy
        (toy_key salt full_access)
        (bytes_to_hex (iv ++ (pem ++ tag)))
      ≡ ok k)
    × (k.bytes ≡ pem)
    × (k.access ≡ full_access)
unfolding toy-Documented
unwrap_key_with_aes-wrap_key_with_aes_example =
    unwrap_key_with_aes-wrap_key_with_aes toy toy-Documented (toy_key salt full_access)
      (toy_key pem full_access) iv (bytes_to_hex (iv ++ (pem ++ tag))) pem full_access (omega arith)
      refl refl refl wrapped_pem

-- The stand-in for base 64 is hexadecimal.
abbrev body1 : Text
body1 = units "70656d\n"

abbrev body8 : Text
body8 = units "301702010030\n0d06092a864886f70d01010105000403\n70656d\n"

body1-pem : hex_to_bytes (remove_spaces body1) ≡ ok pem
unfolding hex_to_bytes remove_spaces
body1-pem = refl

body8-pem : hex_to_bytes (remove_spaces body8) ≡ ok (wrap_pkcs1_private_key_as_pkcs8 pem)
unfolding hex_to_bytes remove_spaces wrap_pkcs1_private_key_as_pkcs8
body8-pem = refl

import_rsa_private_key_forms_example :
    import_rsa_private_key toy (pem_text pkcs1_header body1 pkcs1_footer)
    ≡ import_rsa_private_key toy (pem_text pkcs8_header body8 pkcs8_footer)
import_rsa_private_key_forms_example =
    import_rsa_private_key_forms toy body1 body8 pem (omega arith) (omega arith) body1-pem body8-pem
