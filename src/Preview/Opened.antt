-- ===== src/Preview/Opened.antt =====
-- A file that was encrypted under its owner's credential is shown in the preview.
use vault_drive.Base.{
  ◌≡◌, refl, ap, ◌∙◌, Bool, true, false, Option, none, some, is_empty, get_or, if◌then◌else◌,
  Outcome, ok, All, Bool-cases, inl, inr,
}
use vault_drive.Base.JsText.{Text}
use vault_drive.Base.Json.{Json, field}
use vault_drive.Sealing.{Bytes, IsByte, WebCrypto}
use vault_drive.Sealing.Envelope.{only_decrypt, full_access, derive_key_from_password}
use vault_drive.Sealing.Opens.{Documented}
use vault_drive.Preview.{PreviewRequest, DownloadResponse, Attempt, done}
use vault_drive.Preview.Key.{
  first_key, encryption_key, owned_branch, salt_branch, salt_of, may_own, worker_derive_key,
  is_encryption_metadata, truthy_units, is_folder_scheme, folder_branch,
}
use vault_drive.Preview.Worker.{is_ok, parse_metadata, decrypt_response, preview}

-- Metadata with this IV and salt, whose scheme, if there is one, is not that of a folder; other members
-- are free.
pub record IsUploadMetadata (iv salt : Text) (value : Json) : Type 0 where
  pub has_iv : field "iv" value ≡ some (Json.text iv)
  pub has_salt : field "salt" value ≡ some (Json.text salt)
  pub no_folder : is_folder_scheme value ≡ false

module _ (w : WebCrypto) (d : Documented w) where
  derive_again :
      (password : Text) (salt : Bytes) (k : w.Key)
      → derive_key_from_password w password salt 100000 ≡ ok k
      → (k' : w.Key) × (worker_derive_key w password salt 100000 ≡ ok k')
        × (d.material k' ≡ d.material k)
        × ((d.access k').can_decrypt ≡ true)
  unfolding derive_key_from_password worker_derive_key
  derive_again password salt k h =
      let (k', h', m) = d.pbkdf2-again _ salt 100000 full_access k only_decrypt h refl in
      (k', h', m, ap (λ a. a.can_decrypt) (d.pbkdf2-ok _ salt 100000 only_decrypt k' h'))

  no_file_key :
      (o : Option w.Key) (rest : Attempt (w.Key × Bool)) → o ≡ none → first_key w o rest ≡ rest
  no_file_key o rest e = rw e refl

  salt_given :
      (salt iv : Text) (value : Json) (wrapped : Option Text)
      → IsUploadMetadata iv salt value
      → is_empty salt ≡ false
      → salt_of w value wrapped ≡ some salt
  unfolding salt_of
  salt_given salt iv value wrapped meta given = rw (salt_of, meta.has_salt, given) refl

  owner_salt :
      (request : PreviewRequest w) (salt : Text) (wrapped : Option Text)
      → may_own request.file ≡ true
      → is_empty salt ≡ false
      → owned_branch w request (some salt) wrapped ≡ salt_branch w request salt
  unfolding owned_branch
  owner_salt request salt wrapped own given = elim (Bool-cases (truthy_units wrapped)) [
    | inl t ↦ rw (owned_branch, given, t, own) refl
    | inr f ↦ rw (owned_branch, given, f) refl
  ]

  salt_text_key :
      (request : PreviewRequest w) (salt iv : Text) (value : Json) (wrapped : Option Text)
      → IsUploadMetadata iv salt value
      → request.file_key ≡ none
      → may_own request.file ≡ true
      → is_empty salt ≡ false
      → encryption_key w request value wrapped ≡ salt_branch w request salt
  unfolding encryption_key
  salt_text_key request salt iv value wrapped meta nf own given =
      no_file_key request.file_key _ nf
      ∙ ap
          (λ b.
            folder_branch w wrapped (if b then request.folder_key else none)
              (owned_branch w request (salt_of w value wrapped) wrapped))
          meta.no_folder
      ∙ ap (λ o. owned_branch w request o wrapped) (salt_given salt iv value wrapped meta given)
      ∙ owner_salt request salt wrapped own given

  metadata_read :
      (json_parse : Text → Outcome Json) (str iv salt : Text) (value : Json)
      → json_parse str ≡ ok value
      → IsUploadMetadata iv salt value
      → parse_metadata w json_parse str ≡ done (value, iv)
  unfolding parse_metadata is_encryption_metadata
  metadata_read json_parse str iv salt value hj meta =
      rw (parse_metadata, hj, is_encryption_metadata, meta.has_iv, meta.has_salt) refl

  -- What was encrypted under a key from a password and a salt is shown to its owner, who enters the
  -- password, when the answer is good and carries metadata with that IV and salt, whatever else is in
  -- it but the folder scheme, and no file key is at hand.
  pub preview-sealed :
      (json_parse : Text → Outcome Json) (request : PreviewRequest w) (response : DownloadResponse)
      (value : Json) (salt iv plain c : Bytes) (k : w.Key)
      → derive_key_from_password w request.credential salt 100000 ≡ ok k
      → w.aes_encrypt k iv plain ≡ ok c
      → All IsByte salt
      → All IsByte iv
      → is_empty (w.btoa salt) ≡ false
      → json_parse (get_or response.file_metadata request.file.metadata) ≡ ok value
      → IsUploadMetadata (w.btoa iv) (w.btoa salt) value
      → request.file_key ≡ none
      → may_own request.file ≡ true
      → is_ok response ≡ true
      → response.body ≡ ok c
      → preview w json_parse request (ok response) ≡ done plain
  unfolding preview decrypt_response salt_branch
  preview-sealed json_parse request response value salt iv plain c k hk hc bs bi given hj meta nf
        own good hb =
      let (k', h', m, a) = derive_again request.credential salt k hk in
      let opened = d.aes_decrypt-aes_encrypt k k' iv plain c hc m a in
      let read = metadata_read json_parse _ (w.btoa iv) (w.btoa salt) value hj meta in
      let key =
        salt_text_key request (w.btoa salt) (w.btoa iv) value response.wrapped_key meta nf own
          given in
      rw
        (
          preview,
          good,
          decrypt_response,
          read,
          d.atob-btoa iv bi,
          key,
          salt_branch,
          d.atob-btoa salt bs,
          h',
          hb,
          opened,
        )
        refl
