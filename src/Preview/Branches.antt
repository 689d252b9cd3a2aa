-- ===== src/Preview/Branches.antt =====
-- How the search for a file's key ends, and whether the credential is to blame for what fails.
use vault_drive.Base.{
  ◌≡◌, ◌⊎◌, inl, inr, refl, ◌∙◌, Bool, true, false, not, ◌&&◌, ◌||◌, Outcome, ok, throw, Option,
  none, some, [], drop, if◌then◌else◌, get_or, number_eq, arith, Bool-cases, Outcome-cases, is_some,
}
use vault_drive.Base.JsText.{Text, slice}
use vault_drive.Base.Json.{Json}
use vault_drive.Sealing.{WebCrypto}
use vault_drive.Transfer.Failure.{FailureMessage, fixed}
use vault_drive.Preview.{FailureKind, credential, unknown, PreviewRequest, Attempt, done, failed}
use vault_drive.Sealing.Hex.{hex_pairs}
use vault_drive.Sealing.Envelope.{only_decrypt}
use vault_drive.Preview.Key.{
  rsa_branch, pin_branch, salt_branch, owned_branch, worker_import_rsa_private_key,
  worker_unwrap_key, worker_derive_key, encryption_key, truthy_units, salt_of, may_own,
  is_folder_scheme, pin_wrapped_key_of, first_key, folder_branch,
}

-- How an attempt ends: `D` of its value, or `P` of the kind of its failure.
module _ {ℓ} {A : Type ℓ} (D : A → Type 0) (P : FailureKind → Type 0) where
  abbrev pub Ends : Attempt A → Type 0
  Ends (done a) = D a
  Ends (failed kind message) = P kind

pub Attempt-cases {ℓ} :
    {A : Type ℓ} (m : Attempt A)
    → ((kind : FailureKind) × (message : FailureMessage) × (m ≡ failed kind message))
      ⊎ ((a : A) × (m ≡ done a))
Attempt-cases (done a) = inr (a, refl)
Attempt-cases (failed kind message) = inl (kind, message, refl)

module _ (w : WebCrypto) where
  abbrev succeeds {ℓ} : {A : Type ℓ} → Outcome A → Bool
  succeeds (ok a) = true
  succeeds (throw e) = false

  -- The entered PIN unwraps the file's key, and the key is one.
  unfoldable pub pin_opens : PreviewRequest w → Text → Bool
  pin_opens request pin_wrapped = elim (worker_unwrap_key w request.credential pin_wrapped) [
    | throw e ↦ false
    | ok raw ↦ succeeds (w.import_raw (hex_pairs raw) only_decrypt)
  ]

  -- No key is at hand: neither the file's own nor its folder's.
  abbrev pub asks_credential : PreviewRequest w → Json → Bool
  asks_credential request value =
      not (is_some request.file_key) && not (is_folder_scheme value && is_some request.folder_key)

  -- The key is the password's: there is a salt, and the file is the user's own or comes with no key for
  -- a recipient.
  abbrev uses_password : PreviewRequest w → Option Text → Option Text → Bool
  uses_password request salt wrapped =
      truthy_units salt && (may_own request.file || not (truthy_units wrapped))

  -- The key is wrapped under the PIN: the user's own file, without a salt, with such a key.
  abbrev uses_pin : PreviewRequest w → Option Text → Option Text → Bool
  uses_pin request salt wrapped =
      not (truthy_units salt)
      && (may_own request.file && truthy_units (pin_wrapped_key_of request.file wrapped))

  unfoldable owned_blame : PreviewRequest w → Option Text → Option Text → Bool
  unfolding pin_opens
  owned_blame request salt wrapped =
      uses_password request salt wrapped
      || uses_pin request salt wrapped
        && not (pin_opens request (get_or (pin_wrapped_key_of request.file wrapped) []))

  -- What fails after the metadata was read is the credential's: no key is at hand, and the key is the
  -- password's, or the PIN does not unwrap it.
  unfoldable pub blames_credential : PreviewRequest w → Json → Option Text → Bool
  unfolding owned_blame
  blames_credential request value wrapped =
      asks_credential request value && owned_blame request (salt_of w value wrapped) wrapped

  abbrev pub blamed : Bool → FailureKind
  blamed b = if b then credential else unknown

  -- An attempt that fails with the kind that is to be blamed, or whose key is tested by the last
  -- decryption exactly if that is to be blamed on the credential.
  abbrev pub IsBlamed : Bool → Attempt (w.Key × Bool) → Type 0
  IsBlamed b = Ends (λ r. r.1 ≡ b) (λ kind. kind ≡ blamed b)

  folder_branch-IsBlamed :
      (wrapped : Option Text) (key : w.Key) (rest : Attempt (w.Key × Bool))
      → IsBlamed false (folder_branch w wrapped (some key) rest)
  folder_branch-IsBlamed wrapped key rest = elim (Bool-cases (truthy_units wrapped)) [
    | inr missing ↦ rw missing refl
    | inl given ↦ elim (Outcome-cases (w.atob (get_or wrapped []))) [
      | inl (e, h) ↦ rw (given, h) refl
      | inr (b, h) ↦ elim (Outcome-cases (w.aes_decrypt key (slice 0 12 b) (drop 12 b))) [
        | inl (e, h') ↦ rw (given, h, h') refl
        | inr (raw, h') ↦ elim (Outcome-cases (w.import_raw raw only_decrypt)) [
          | inl (e, h'') ↦ rw (given, h, h', h'') refl
          | inr (k, h'') ↦ rw (given, h, h', h'') refl
        ]
      ]
    ]
  ]

  rsa_branch-IsBlamed :
      (request : PreviewRequest w) (wrapped : Text) → IsBlamed false (rsa_branch w request wrapped)
  unfolding rsa_branch
  rsa_branch-IsBlamed request wrapped =
      elim (Bool-cases (truthy_units request.raw_private_key_pem)) [
        | inr missing ↦ rw (rsa_branch, missing) refl
        | inl given ↦
            elim (Outcome-cases
              (worker_import_rsa_private_key w (get_or request.raw_private_key_pem []))) [
                | inl (e, h) ↦ rw (rsa_branch, given, h) refl
                | inr (rsa_key, h) ↦ elim (Outcome-cases (w.atob wrapped)) [
                  | inl (e, h') ↦ rw (rsa_branch, given, h, h') refl
                  | inr (b, h') ↦ elim (Outcome-cases (w.rsa_unwrap rsa_key b only_decrypt)) [
                    | inl (e, h'') ↦ rw (rsa_branch, given, h, h', h'') refl
                    | inr (k, h'') ↦ rw (rsa_branch, given, h, h', h'') refl
                  ]
                ]
              ]
      ]

  pin_branch-IsBlamed :
      (request : PreviewRequest w) (pin_wrapped : Text)
      → IsBlamed (not (pin_opens request pin_wrapped)) (pin_branch w request pin_wrapped)
  unfolding pin_branch pin_opens
  pin_branch-IsBlamed request pin_wrapped =
      elim (Outcome-cases (worker_unwrap_key w request.credential pin_wrapped)) [
        | inl (e, h) ↦ rw (pin_branch, pin_opens, h) refl
        | inr (raw, h) ↦ elim (Outcome-cases (w.import_raw (hex_pairs raw) only_decrypt)) [
          | inl (e, h') ↦ rw (pin_branch, pin_opens, h, h') refl
          | inr (k, h') ↦ rw (pin_branch, pin_opens, h, h') refl
        ]
      ]

  salt_branch-IsBlamed :
      (request : PreviewRequest w) (salt : Text) → IsBlamed true (salt_branch w request salt)
  unfolding salt_branch
  salt_branch-IsBlamed request salt = elim (Outcome-cases (w.atob salt)) [
    | inl (e, h) ↦ rw (salt_branch, h) refl
    | inr (b, h) ↦ elim (Outcome-cases (worker_derive_key w request.credential b 100000)) [
      | inl (e, h') ↦ rw (salt_branch, h, h') refl
      | inr (k, h') ↦ rw (salt_branch, h, h') refl
    ]
  ]

  -- The Booleans by which the branch below a folder's key is taken.
  pin_blame :
      (salt own pin wrapped opens : Bool)
      → (not salt && pin && own) ≡ true
      → (salt && (own || not wrapped) || not salt && (own && pin) && not opens) ≡ not opens
  pin_blame salt own pin wrapped opens h = ground (arith, h)

  rsa_blame :
      (salt own pin wrapped opens : Bool)
      → (not salt && pin && own) ≡ false
      → (wrapped && not own) ≡ true
      → (salt && (own || not wrapped) || not salt && (own && pin) && not opens) ≡ false
  rsa_blame salt own pin wrapped opens h k = ground (arith, h, k)

  salt_blame :
      (salt own pin wrapped opens : Bool)
      → (not salt && pin && own) ≡ false
      → (wrapped && not own) ≡ false
      → (salt && (own || not wrapped) || not salt && (own && pin) && not opens) ≡ salt
  salt_blame salt own pin wrapped opens h k = ground (arith, h, k)

  rebase :
      (b b' : Bool) (m m' : Attempt (w.Key × Bool))
      → b ≡ b'
      → m ≡ m'
      → IsBlamed b' m'
      → IsBlamed b m
  rebase b b' m m' e f h = rw (e, f) h

  owned_branch-IsBlamed :
      (request : PreviewRequest w) (salt wrapped : Option Text)
      → IsBlamed (owned_blame request salt wrapped) (owned_branch w request salt wrapped)
  unfolding owned_branch owned_blame
  owned_branch-IsBlamed request salt wrapped =
      let pin_wrapped = pin_wrapped_key_of request.file wrapped in
      let s = truthy_units salt in
      let own = may_own request.file in
      let p = truthy_units pin_wrapped in
      let t = truthy_units wrapped in
      let opens = pin_opens request (get_or pin_wrapped []) in
      elim (Bool-cases (not s && p && own)) [
        | inl pin ↦
            rebase _ (not opens) _ (pin_branch w request (get_or pin_wrapped []))
              (unfold owned_blame in pin_blame s own p t opens pin) (rw (owned_branch, pin) refl)
              (pin_branch-IsBlamed request (get_or pin_wrapped []))
        | inr no_pin ↦ elim (Bool-cases (t && not own)) [
          | inl rsa ↦
              rebase _ false _ (rsa_branch w request (get_or wrapped []))
                (unfold owned_blame in rsa_blame s own p t opens no_pin rsa)
                (rw (owned_branch, no_pin, rsa) refl)
                (rsa_branch-IsBlamed request (get_or wrapped []))
          | inr no_rsa ↦ elim (Bool-cases s) [
            | inr no_salt ↦
                rebase _ false _ (failed unknown (fixed "Missing encryption salt"))
                  (unfold owned_blame in salt_blame s own p t opens no_pin no_rsa ∙ no_salt)
                  (rw (owned_branch, no_pin, no_rsa, no_salt) refl) refl
            | inl salted ↦
                rebase _ true _ (salt_branch w request (get_or salt []))
                  (unfold owned_blame in salt_blame s own p t opens no_pin no_rsa ∙ salted)
                  (rw (owned_branch, no_pin, no_rsa, salted) refl)
                  (salt_branch-IsBlamed request (get_or salt []))
          ]
        ]
      ]

  folder_or_rest-IsBlamed :
      (scheme : Bool) (b : Bool) (wrapped : Option Text) (o : Option w.Key)
      (rest : Attempt (w.Key × Bool))
      → IsBlamed b rest
      → IsBlamed
          (not (scheme && is_some o) && b)
          (folder_branch w wrapped (if scheme then o else none) rest)
  folder_or_rest-IsBlamed false b wrapped o rest h = h
  folder_or_rest-IsBlamed true b wrapped none rest h = h
  folder_or_rest-IsBlamed true b wrapped (some key) rest h = folder_branch-IsBlamed wrapped key rest

  first_key-IsBlamed :
      (b c : Bool) (o : Option w.Key) (rest : Attempt (w.Key × Bool))
      → IsBlamed (b && c) rest
      → IsBlamed (not (is_some o) && b && c) (first_key w o rest)
  first_key-IsBlamed b c none rest h = h
  first_key-IsBlamed b c (some key) rest h = refl

  pub encryption_key-IsBlamed :
      (request : PreviewRequest w) (value : Json) (wrapped : Option Text)
      → IsBlamed (blames_credential request value wrapped) (encryption_key w request value wrapped)
  unfolding encryption_key blames_credential
  encryption_key-IsBlamed request value wrapped = first_key-IsBlamed _ _ request.file_key _ (
      folder_or_rest-IsBlamed (is_folder_scheme value) _ wrapped request.folder_key _
        (owned_branch-IsBlamed request (salt_of w value wrapped) wrapped))
