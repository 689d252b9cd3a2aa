-- ===== src/Preview/Failures.antt =====
-- What the kind of a failed preview says.
use vault_drive.Base.{
  ◌≤◌, ◌≡◌, ◌≢◌, ◌⊎◌, inl, inr, refl, ap, ◌∙◌, Bool, true, false, String, leb, if◌then◌else◌,
  get_or, Outcome, ok, throw, ◌==◌, ==→eq, number_eq, arith, Bool-cases, Outcome-cases,
}
use vault_drive.Base.JsText.{Text}
use vault_drive.Base.Json.{Json}
use vault_drive.Sealing.{Bytes, WebCrypto}
use vault_drive.Transfer.Failure.{FailureMessage}
use vault_drive.Preview.{
  FailureKind, credential, auth, storage, metadata, unknown, PreviewRequest, DownloadResponse, done,
  failed,
}
use vault_drive.Preview.Key.{is_encryption_metadata, encryption_key}
use vault_drive.Preview.Worker.{is_ok, http_failure_kind, parse_metadata, decrypt_response, preview}
use vault_drive.Preview.Branches.{
  Ends, Attempt-cases, blamed, blames_credential, encryption_key-IsBlamed,
}

module _ (w : WebCrypto) (json_parse : Text → Outcome Json) where
  -- The metadata cannot be read, or its IV is not in base 64.
  abbrev pub Unreadable : Text → Type 0
  Unreadable meta_str =
      ((message : FailureMessage) × (parse_metadata w json_parse meta_str
          ≡ failed metadata message))
      ⊎ ((m : Json × Text) × (e : String) × (parse_metadata w json_parse meta_str ≡ done m)
          × (w.atob m.1 ≡ throw e))

  -- The metadata is this value, with an IV in base 64.
  abbrev pub Readable : Text → Json → Type 0
  Readable meta_str value =
      (iv : Text) × (bytes : Bytes) × (parse_metadata w json_parse meta_str ≡ done (value, iv))
      × (w.atob iv ≡ ok bytes)

  -- A good answer with metadata that can be read, and whether what fails then is the credential's.
  abbrev pub IsBlame : PreviewRequest w → DownloadResponse → Bool → Type 0
  IsBlame request response b =
      (is_ok response ≡ true)
      × ((value : Json) × Readable (get_or response.file_metadata request.file.metadata) value
          × (blames_credential w request value response.wrapped_key ≡ b))

  -- What each kind of failure says of the request and the answer.
  abbrev pub Explains : PreviewRequest w → Outcome DownloadResponse → FailureKind → Type 0
  Explains request (throw e) kind = kind ≡ storage
  Explains request (ok response) auth = response.status ≡ 401
  Explains request (ok response) storage = 500 ≤ response.status
  Explains request (ok response) metadata =
      (is_ok response ≡ true) × Unreadable (get_or response.file_metadata request.file.metadata)
  Explains request (ok response) credential = IsBlame request response true
  Explains request (ok response) unknown =
      ((is_ok response ≡ false) × (response.status ≢ 401) × (response.status ≤ 499))
      ⊎ IsBlame request response false

  parse_metadata-kind :
      (str : Text) (kind : FailureKind) (message : FailureMessage)
      → parse_metadata w json_parse str ≡ failed kind message
      → kind ≡ metadata
  unfolding parse_metadata
  parse_metadata-kind str kind message h = elim (Outcome-cases (json_parse str)) [
    | inl (e, hp) ↦ cc (rw (parse_metadata, hp) at h)
    | inr (v, hp) ↦ elim (Bool-cases (is_encryption_metadata v)) [
      | inl yes_it_is ↦ cc (rw (parse_metadata, hp, yes_it_is) at h)
      | inr other ↦ cc (rw (parse_metadata, hp, other) at h)
    ]
  ]

  blamed-Explains :
      (request : PreviewRequest w) (response : DownloadResponse) (b : Bool)
      → IsBlame request response b
      → Explains request (ok response) (blamed w b)
  blamed-Explains request response true h = h
  blamed-Explains request response false h = inr h

  -- The answer that a failure after the download is explained by.
  decrypt_response-Ends :
      (request : PreviewRequest w) (response : DownloadResponse)
      → is_ok response ≡ true
      → Ends
          (λ b. Unit {0})
          (Explains request (ok response))
          (decrypt_response w json_parse request response)
  unfolding decrypt_response
  decrypt_response-Ends request response good =
      let str = get_or response.file_metadata request.file.metadata in
      elim (Attempt-cases (parse_metadata w json_parse str)) [
        | inl (kind, message, h) ↦
            let e = parse_metadata-kind str kind message h in
            let h' : parse_metadata w json_parse str ≡ failed metadata message =
              h ∙ ap (λ k. failed k message) e in
            rw (decrypt_response, h') (good, inl (message, h'))
        | inr (m, h) ↦ elim (Outcome-cases (w.atob m.1)) [
          | inl (e, h') ↦ rw (decrypt_response, h, h') (good, inr (m, e, h, h'))
          | inr (iv, h') ↦
              let b = blames_credential w request m.0 response.wrapped_key in
              let ends = encryption_key-IsBlamed w request m.0 response.wrapped_key in
              let why = blamed-Explains request response b (good, (m.0, (m.1, iv, h, h'), refl)) in
              elim (Attempt-cases (encryption_key w request m.0 response.wrapped_key)) [
                | inl (kind, message, hk) ↦ rw (decrypt_response, h, h', hk, (rw hk at ends)) why
                | inr (k, hk) ↦
                    let flag : k.1 ≡ b = rw hk at ends in
                    let last : Explains request (ok response)
                        (if k.1 then credential else unknown) =
                      rw flag why in
                    elim (Outcome-cases response.body) [
                      | inl (e, hb) ↦ rw (decrypt_response, h, h', hk, hb) last
                      | inr (b, hb) ↦ elim (Outcome-cases (w.aes_decrypt k.0 iv b)) [
                        | inl (e, hd) ↦ rw (decrypt_response, h, h', hk, hb, hd) last
                        | inr (plain, hd) ↦ rw (decrypt_response, h, h', hk, hb, hd) tt
                      ]
                    ]
              ]
        ]
      ]

  http_failure_kind-Explains :
      (request : PreviewRequest w) (response : DownloadResponse)
      → is_ok response ≡ false
      → Explains request (ok response) (http_failure_kind response.status)
  unfolding http_failure_kind
  http_failure_kind-Explains request response bad = elim (Bool-cases (response.status == 401)) [
    | inl session ↦ rw (http_failure_kind, session) (==→eq response.status 401 session)
    | inr other ↦ elim (Bool-cases (leb 500 response.status)) [
      | inl server ↦ rw (http_failure_kind, other, server) (ground (arith, server))
      | inr client ↦
          rw (http_failure_kind, other, client)
            (inl (bad, ground (arith, other), ground (arith, client)))
    ]
  ]

  -- A failed preview says why: `auth` that the answer was 401; `storage` that nothing came or the
  -- server failed; `metadata` that the metadata of a good answer, or its IV, could not be read. After
  -- those were read it is `credential` where no key was at hand and the key is derived from the
  -- password, whatever fails, or the PIN does not unwrap it, and `unknown` where not, or where the
  -- answer was a refusal other than 401.
  pub preview-Explains :
      (request : PreviewRequest w) (fetched : Outcome DownloadResponse)
      → Ends (λ b. Unit {0}) (Explains request fetched) (preview w json_parse request fetched)
  unfolding preview
  preview-Explains request (throw e) = refl
  preview-Explains request (ok response) = elim (Bool-cases (is_ok response)) [
    | inl good ↦ rw (preview, good) (decrypt_response-Ends request response good)
    | inr bad ↦ rw (preview, bad) (http_failure_kind-Explains request response bad)
  ]
