-- ===== src/Transfer/Accepted.antt =====
-- When an upload is reported as done, and when the user may send it again.
use vault_drive.Base.{
  refl, ap, is_empty, none, some, false, ℕ, ◌≤◌, ◌<◌, true, false, Option, some, ◌≡◌, ◌⊎◌, inl, inr,
  ◌↔◌, arith, Option-cases, number_eq,
}
use vault_drive.Base.JsText.{Text}
use vault_drive.Base.Json.{Json, as_text, field}
use vault_drive.Transfer.Upload.{
  load, prepare_error, PublicUploadStatus, PublicUploadOutcomeInput, has_accepted_receipt,
  classify_public_upload_outcome, confirmed, receipt_file_id, read_owner_upload_outcome,
}

module _ (json_parse : Text → Option Json) where
  -- A public upload is a success exactly when the request was sent, a response came with a status
  -- from 200 to 299, and it holds an accepted receipt of the endpoint's form.
  pub classify_public_upload_outcome-success :
      (input : PublicUploadOutcomeInput)
      → ((classify_public_upload_outcome json_parse input).status ≡ PublicUploadStatus.success) ↔ (
          (input.event ≡ load)
          × (input.request_sent ≡ true)
          × (200 ≤ input.status)
          × (input.status < 300)
          × (has_accepted_receipt json_parse input.endpoint input.response_text ≡ true))
  unfolding classify_public_upload_outcome
  classify_public_upload_outcome-success input = ground arith

  -- A retry is offered only after an error of preparation, where no request was sent, or for the
  -- statuses 408 and 429.
  pub classify_public_upload_outcome-retryable :
      (input : PublicUploadOutcomeInput)
      → (classify_public_upload_outcome json_parse input).retryable ≡ true
      → (input.event ≡ prepare_error)
        ⊎ ((input.request_sent ≡ false) ⊎ ((input.status ≡ 408) ⊎ (input.status ≡ 429)))
  unfolding classify_public_upload_outcome
  classify_public_upload_outcome-retryable input h = ground (arith, h)

-- The receipt is there and its `file_id` is that text, which is not empty.
abbrev pub Receipt : Option Json → Text → Type 0
Receipt json id =
    (receipt : Json) × (json ≡ some receipt)
    × (as_text (field "file_id" receipt) ≡ some id)
    × (is_empty id ≡ false)

receipt_file_id-Receipt :
    (json : Option Json) (id : Text) → (receipt_file_id json ≡ some id) ↔ Receipt json id
unfolding receipt_file_id
receipt_file_id-Receipt none id = (λ h. cc h, λ r. cc r.1)
receipt_file_id-Receipt (some receipt) id =
    elim (Option-cases (as_text (field "file_id" receipt))) [
      | inl missing ↦ (
        λ h. absurd (ground (arith, missing, h)),
        λ r. absurd (ground (arith, missing, r.2, field_of r.0 r.1)),
      )
      | inr (found, e) ↦ (
        λ h. (receipt, refl, ground (arith, e, h), ground (arith, e, h)),
        λ r. ground (arith, e, r.2, field_of r.0 r.1),
      )
    ]
  where
    field_of :
        (other : Json)
        → some receipt ≡ some other
        → as_text (field "file_id" receipt) ≡ as_text (field "file_id" other)
    field_of other h =
        ap
          (λ (o : Option Json). elim o as (λ _. Option Text) [
            | none ↦ none
            | some r ↦ as_text (field "file_id" r)
          ])
          h

-- An owner's upload is confirmed with an identifier exactly when the status is 201 and a receipt came
-- whose file_id is that identifier, a text that is not empty.
pub read_owner_upload_outcome-confirmed :
    (status : ℕ) (json : Option Json) (id : Text)
    → (read_owner_upload_outcome status json ≡ confirmed id) ↔ ((status ≡ 201) × Receipt json id)
unfolding read_owner_upload_outcome
read_owner_upload_outcome-confirmed status json id = elim (Option-cases (receipt_file_id json)) [
  | inl missing ↦ ground (arith, missing, receipt_file_id-Receipt json id)
  | inr (found, e) ↦ ground (arith, e, receipt_file_id-Receipt json id)
]
