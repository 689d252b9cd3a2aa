-- ===== src/PinEnrollment/Tests.antt =====
-- A PIN is enrolled after the password was changed, and the instance of the theorem.
use vault_drive.Base.{some, ◌≡◌, refl, ok, throw, if◌then◌else◌, ◌==◌, text_eq}
use vault_drive.Base.JsText.{Text}
use vault_drive.Base.Json.{Json}
use vault_drive.PinEnrollment.{
  KeyWrapping, PinEnrollmentResult, enrolled, create_pin_protected_private_key, IsVerified,
  create_pin_protected_private_key-IsVerified,
}

-- The wrapper is the key itself; the stored one opens with "old" only.
abbrev open_wrappers : KeyWrapping
open_wrappers = record {
  decrypt_with_password = λ p s v.
      if s == "stored" then (if p == "old" then ok "pem" else throw "Decryption failed") else ok s;
  encrypt_with_password = λ p s v. ok s;
  decrypt_with_pin = λ p s v. ok s;
  encrypt_with_pin = λ p s v. ok s;
}

abbrev result : PinEnrollmentResult
result = record { private_key_pin_encrypted = "pem"; re_encrypted_private_key = some "pem" }

abbrev as_is : Text → Text
as_is t = t

repaired :
    create_pin_protected_private_key open_wrappers as_is
      (Json.number 1)
      (some "stored")
      "new"
      "1234"
      (some "old")
    ≡ enrolled result
unfolding create_pin_protected_private_key
repaired = refl

create_pin_protected_private_key-IsVerified_example :
    IsVerified open_wrappers as_is (Json.number 1) (some "stored") "1234" "new" (some "old") result
create_pin_protected_private_key-IsVerified_example =
    create_pin_protected_private_key-IsVerified open_wrappers as_is (Json.number 1) (some "stored")
      "new" "1234" (some "old") result repaired
