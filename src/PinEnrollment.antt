-- ===== src/PinEnrollment.antt =====
-- utils/pin-enrollment.ts: the private key is wrapped under a PIN, and what was wrapped is opened again
-- before it is given back. The operations of utils/crypto.ts are parameters, as is `toLowerCase`.
mod Tests
use vault_drive.Base.{
  ℕ, Bool, true, false, not, ◌||◌, String, Option, none, some, List, [], ◌∷◌, ◌≡◌, ◌⊎◌, inl, inr,
  refl, if◌then◌else◌, truthy, truthy_text, get_or, is_empty, ◌==◌, text_eq, Outcome, ok, throw,
  Outcome-cases, arith, Bool-cases,
}
use vault_drive.Base.JsText.{Text, units, trim, includes}
use vault_drive.Base.Json.{Json, field, truthy_json}

-- What is thrown: one of the module's messages, or the text of another error.
pub data PinError : Type 0 where
  missing_private_key incorrect_password pin_not_verified password_not_verified : PinError
  other_error : Text → PinError
  crypto_error : String → PinError

pub record PinEnrollmentResult : Type 0 where
  pub private_key_pin_encrypted : String
  pub re_encrypted_private_key : Option String

pub data Enrollment : Type 0 where
  enrolled : PinEnrollmentResult → Enrollment
  refused : PinError → Enrollment

-- The four operations, each with the version of the envelope.
pub record KeyWrapping : Type 0 where
  pub decrypt_with_password : String → String → Json → Outcome String
  pub encrypt_with_password : String → String → Json → Outcome String
  pub decrypt_with_pin : String → String → Json → Outcome String
  pub encrypt_with_pin : String → String → Json → Outcome String

-- `getPinEnrollmentErrorMessage` of an `Error` with this message.
unfoldable pub get_pin_enrollment_error_message : (Text → Text) → Text → PinError
get_pin_enrollment_error_message lower raw =
    let message = trim raw in
    let normalized = lower message in
    if is_empty message
    then incorrect_password
    else if includes normalized (units "decryption failed") || includes normalized (units "decrypt")
    then incorrect_password
    else other_error message

-- The version in the stored user, else 1. The arguments are the stored text and `JSON.parse`.
unfoldable pub kek_envelope_version : (String → Option Json) → Option String → Json
kek_envelope_version json_parse none = Json.number 1
kek_envelope_version json_parse (some user_json) =
    if truthy_text user_json
    then elim (json_parse user_json) [
      | none ↦ Json.number 1
      | some user ↦
          if truthy_json (field "kek_envelope_version" user)
          then get_or (field "kek_envelope_version" user) (Json.number 1)
          else Json.number 1
    ]
    else Json.number 1

Either-cases :
    (o : (String × Bool) ⊎ PinError)
    → ((p : String × Bool) × (o ≡ inl p)) ⊎ ((e : PinError) × (o ≡ inr e))
Either-cases (inl p) = inl (p, refl)
Either-cases (inr e) = inr (e, refl)

module _ (k : KeyWrapping) (lower : Text → Text) (version : Json) where
  -- The private key, and whether the previous password opened it.
  unfoldable pub open_private_key : String → String → Option String → (String × Bool) ⊎ PinError
  unfolding get_pin_enrollment_error_message
  open_private_key private_key_encrypted password previous_password =
      elim (k.decrypt_with_password password private_key_encrypted version) [
        | ok pem ↦ inl (pem, false)
        | throw e ↦
            if truthy previous_password
            then elim (k.decrypt_with_password (get_or previous_password "") private_key_encrypted
                version) [
                  | ok pem ↦ inl (pem, true)
                  | throw e' ↦ inr (get_pin_enrollment_error_message lower (units e'))
                ]
            else inr (get_pin_enrollment_error_message lower (units e))
      ]

  -- The wrapper under the password is made again where the previous password was needed.
  unfoldable pub repair_wrapper : String → String → String → Bool → Enrollment
  repair_wrapper password pem pin_encrypted used_recovery =
      if not used_recovery
      then enrolled
          (record { private_key_pin_encrypted = pin_encrypted; re_encrypted_private_key = none })
      else elim (k.encrypt_with_password password pem version) [
        | throw e ↦ refused (crypto_error e)
        | ok again ↦ elim (k.decrypt_with_password password again version) [
          | throw e ↦ refused (crypto_error e)
          | ok verified ↦
              if not (verified == pem)
              then refused password_not_verified
              else enrolled (record {
                private_key_pin_encrypted = pin_encrypted;
                re_encrypted_private_key = some again;
              })
        ]
      ]

  unfoldable pub wrap_with_pin : String → String → String → Bool → Enrollment
  unfolding repair_wrapper
  wrap_with_pin password pin pem used_recovery = elim (k.encrypt_with_pin pin pem version) [
    | throw e ↦ refused (crypto_error e)
    | ok pin_encrypted ↦ elim (k.decrypt_with_pin pin pin_encrypted version) [
      | throw e ↦ refused (crypto_error e)
      | ok verified ↦
          if not (verified == pem)
          then refused pin_not_verified
          else repair_wrapper password pem pin_encrypted used_recovery
    ]
  ]

  unfoldable pub create_pin_protected_private_key :
      Option String → String → String → Option String → Enrollment
  unfolding open_private_key wrap_with_pin
  create_pin_protected_private_key private_key_encrypted password pin previous_password =
      if not (truthy private_key_encrypted)
      then refused missing_private_key
      else elim (open_private_key (get_or private_key_encrypted "") password previous_password) [
        | inr e ↦ refused e
        | inl (pem, used_recovery) ↦ wrap_with_pin password pin pem used_recovery
      ]

  -- The wrapper opens with the secret to the private key that a password opened from the stored one.
  pub record IsVerified (private_key_encrypted : Option String) (pin password : String)
      (previous_password : Option String) (r : PinEnrollmentResult) : Type 0 where
    pub pem : String
    pub used_recovery : Bool
    pub opened :
        open_private_key (get_or private_key_encrypted "") password previous_password
        ≡ inl (pem, used_recovery)
    pub pin_opens : k.decrypt_with_pin pin r.private_key_pin_encrypted version ≡ ok pem
    pub password_opens :
        (again : String)
        → r.re_encrypted_private_key ≡ some again
        → k.decrypt_with_password password again version ≡ ok pem

  repair_wrapper-verified :
      (password pem pin_encrypted : String) (used_recovery : Bool) (r : PinEnrollmentResult)
      → repair_wrapper password pem pin_encrypted used_recovery ≡ enrolled r
      → (r.private_key_pin_encrypted ≡ pin_encrypted)
        × ((again : String)
            → r.re_encrypted_private_key ≡ some again
            → k.decrypt_with_password password again version ≡ ok pem)
  unfolding repair_wrapper
  repair_wrapper-verified password pem pin_encrypted false r e =
      (ground (arith, e), λ again f. absurd (ground (arith, e, f)))
  repair_wrapper-verified password pem pin_encrypted true r e =
      elim (Outcome-cases (k.encrypt_with_password password pem version)) [
        | inl (m, failed) ↦ absurd (ground (arith, e, failed))
        | inr (again, wrapped) ↦
            elim (Outcome-cases (k.decrypt_with_password password again version)) [
              | inl (m, failed) ↦ absurd (ground (arith, e, wrapped, failed))
              | inr (verified, unwrapped) ↦ (
                ground (arith, e, wrapped, unwrapped),
                λ again' f. ground (arith, e, f, wrapped, unwrapped, text_eq.same_iff verified pem),
              )
            ]
      ]

  wrap_with_pin-verified :
      (password pin pem : String) (used_recovery : Bool) (r : PinEnrollmentResult)
      → wrap_with_pin password pin pem used_recovery ≡ enrolled r
      → (k.decrypt_with_pin pin r.private_key_pin_encrypted version ≡ ok pem)
        × ((again : String)
            → r.re_encrypted_private_key ≡ some again
            → k.decrypt_with_password password again version ≡ ok pem)
  unfolding wrap_with_pin
  wrap_with_pin-verified password pin pem used_recovery r e =
      elim (Outcome-cases (k.encrypt_with_pin pin pem version)) [
        | inl (m, failed) ↦ absurd (ground (arith, e, failed))
        | inr (pin_encrypted, wrapped) ↦
            elim (Outcome-cases (k.decrypt_with_pin pin pin_encrypted version)) [
              | inl (m, failed) ↦ absurd (ground (arith, e, wrapped, failed))
              | inr (verified, unwrapped) ↦
                  let (same_wrapper, again_opens) =
                    repair_wrapper-verified password pem pin_encrypted used_recovery r
                      (ground (arith, e, wrapped, unwrapped)) in
                  (
                    ground
                        (arith, same_wrapper, e, wrapped, unwrapped, text_eq.same_iff verified pem),
                    again_opens,
                  )
            ]
      ]

  -- When a PIN is enrolled, the wrapper that is given back opens with the PIN to the private key that
  -- the password (or the previous one) opened, and so does a new wrapper under the password.
  pub create_pin_protected_private_key-IsVerified :
      (private_key_encrypted : Option String) (password pin : String)
      (previous_password : Option String) (r : PinEnrollmentResult)
      → create_pin_protected_private_key private_key_encrypted password pin previous_password
        ≡ enrolled r
      → IsVerified private_key_encrypted pin password previous_password r
  unfolding create_pin_protected_private_key
  create_pin_protected_private_key-IsVerified private_key_encrypted password pin previous_password r
        e =
      elim (Either-cases
        (open_private_key (get_or private_key_encrypted "") password previous_password)) [
          | inr (m, failed) ↦ absurd (ground (arith, e, failed))
          | inl ((pem, used_recovery), opened) ↦
              let (pin_opens, again_opens) =
                wrap_with_pin-verified password pin pem used_recovery r
                  (ground (arith, e, opened)) in
              record {
                pem = pem;
                used_recovery = used_recovery;
                opened = opened;
                pin_opens = pin_opens;
                password_opens = again_opens;
              }
        ]
