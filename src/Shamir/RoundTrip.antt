-- ===== src/Shamir/RoundTrip.antt =====
-- Any `T` of the shares that `shamirSplit` makes give the secret back by `shamirReconstruct`.
use vault_drive.Base.{
  ℕ, zero, suc, ◌+◌, ◌≤◌, ◌<◌, ◌≡◌, ◌≢◌, refl, sym, ap, ap₂, subst, ◌∙◌, List, [], ◌∷◌, map, length,
  take, drop, All, All-take, All-map, length-take, arith, ok,
}
use vault_drive.Shamir.{
  at, ShamirShare, eval_poly, coefficients, shamir_split, bases_from, interpolate_from, secret_from,
  first_length, shamir_reconstruct,
}
use vault_drive.Shamir.Lagrange.{
  eval, interpolate, Fresh, Distinct, interpolate-eval, eval-zero, zero-add,
}
use vault_drive.Shamir.Reconstruct.{
  Byte, zero_byte, byte_field, vals, weights, bases_from-all, Samples, interpolate_from-interpolate,
}
use vault_drive.Shamir.Split.{
  IsByte, to_bytes, length-to_bytes, coefficients-IsByte, poly, eval_poly-poly, at-row, length-row,
  IsShare, Among, shamir_split-IsShare,
}

-- The shares have pairwise different abscissas.
abbrev pub NotSeen : ℕ → List ShamirShare → Type 0
NotSeen x [] = Unit
NotSeen x (s ∷ ss) = (x ≢ s.x) × NotSeen x ss

abbrev pub DifferentX : List ShamirShare → Type 0
DifferentX [] = Unit
DifferentX (s ∷ ss) = NotSeen s.x ss × DifferentX ss

abbrev xs_of : List ShamirShare → List ℕ
xs_of = map (λ s. s.x)

NotSeen-take : (x n : ℕ) (ss : List ShamirShare) → NotSeen x ss → NotSeen x (take n ss)
NotSeen-take x zero ss h = tt
NotSeen-take x (suc n) [] h = tt
NotSeen-take x (suc n) (s ∷ ss) (ne, h) = (ne, NotSeen-take x n ss h)

take-DifferentX : (n : ℕ) (ss : List ShamirShare) → DifferentX ss → DifferentX (take n ss)
take-DifferentX zero ss d = tt
take-DifferentX (suc n) [] d = tt
take-DifferentX (suc n) (s ∷ ss) (h, d) = (NotSeen-take s.x n ss h, take-DifferentX n ss d)

module _ (random : ℕ → List ℕ) (t : ℕ) (drawn : (j : ℕ) → All IsByte (random j)) (secret : List ℕ)
    (bytes : All IsByte secret) where
  -- The shares' abscissas, as field elements.
  nodes : (ss : List ShamirShare) → All (IsShare random t secret) ss → List Byte
  nodes [] h = []
  nodes (s ∷ ss) (p, h) = (s.x, p.fits) ∷ nodes ss h

  vals-nodes :
      (ss : List ShamirShare) (h : All (IsShare random t secret) ss) → vals (nodes ss h) ≡ xs_of ss
  unfolding nodes
  vals-nodes [] h = refl
  vals-nodes (s ∷ ss) (p, h) = ap (λ l. s.x ∷ l) (vals-nodes ss h)

  length-nodes :
      (ss : List ShamirShare) (h : All (IsShare random t secret) ss)
      → length (nodes ss h) ≡ length ss
  unfolding nodes
  length-nodes [] h = refl
  length-nodes (s ∷ ss) (p, h) = ap suc (length-nodes ss h)

  nodes-Fresh :
      (x : Byte) (ss : List ShamirShare) (h : All (IsShare random t secret) ss)
      → NotSeen x.0 ss
      → Fresh byte_field x (nodes ss h)
  unfolding nodes
  nodes-Fresh x [] h n = tt
  nodes-Fresh x (s ∷ ss) (p, h) (ne, n) =
      ((λ e. ne (ap (λ (b : Byte). b.0) e)), nodes-Fresh x ss h n)

  nodes-Distinct :
      (ss : List ShamirShare) (h : All (IsShare random t secret) ss)
      → DifferentX ss
      → Distinct byte_field (nodes ss h)
  unfolding nodes
  nodes-Distinct [] h d = tt
  nodes-Distinct (s ∷ ss) (p, h) (n, d) = (nodes-Fresh (s.x, p.fits) ss h n, nodes-Distinct ss h d)

  byte_at : (k : ℕ) (rest : List ℕ) → All IsByte rest → k < length rest → IsByte (at rest k)
  byte_at k [] h lt = absurd (omega arith)
  byte_at zero (s ∷ rest) (p, h) lt = p
  byte_at (suc k) (s ∷ rest) (p, h) lt = byte_at k rest h (omega arith)

  -- Byte `k`'s polynomial.
  secret_poly : (k : ℕ) → k < length secret → List Byte
  secret_poly k lt = poly random t drawn k (at secret k) (byte_at k secret bytes lt)

  nodes-Samples :
      (k : ℕ) (lt : k < length secret) (ss : List ShamirShare)
      (h : All (IsShare random t secret) ss)
      → Samples k (eval byte_field (secret_poly k lt)) ss (nodes ss h)
  unfolding nodes secret_poly
  nodes-Samples k lt [] h = tt
  nodes-Samples k lt (s ∷ ss) (p, h) = (
    (ap (λ y. at y k) p.bytes
        ∙ at-row random t drawn (s.x, p.fits) secret 0 k lt
        ∙ ap (λ j. eval_poly (at secret k) (coefficients random t j) s.x) (omega arith)
        ∙ eval_poly-poly random t drawn k (at secret k) (byte_at k secret bytes lt) (s.x, p.fits)),
    nodes-Samples k lt ss h,
  )

  length-coefficients :
      (k : ℕ)
      → 1 ≤ t
      → ((j : ℕ) → length (random j) + 1 ≡ t)
      → length (coefficients random t k) + 1 ≡ t
  unfolding coefficients
  length-coefficients k pos drawn_length = ground (arith, drawn_length k)

  length-secret_poly :
      (k : ℕ) (lt : k < length secret)
      → 1 ≤ t
      → ((j : ℕ) → length (random j) + 1 ≡ t)
      → length (secret_poly k lt) ≡ t
  unfolding secret_poly poly
  length-secret_poly k lt pos drawn_length = omega (
    arith,
    length-to_bytes (coefficients random t k) (coefficients-IsByte random t drawn k),
    length-coefficients k pos drawn_length,
  )

  secret_poly-zero :
      (k : ℕ) (lt : k < length secret)
      → eval byte_field (secret_poly k lt) zero_byte ≡ (at secret k, byte_at k secret bytes lt)
  unfolding secret_poly poly
  secret_poly-zero k lt =
      eval-zero byte_field (at secret k, byte_at k secret bytes lt)
        (to_bytes (coefficients random t k) (coefficients-IsByte random t drawn k))

  -- Interpolation of byte `k` from `t` shares.
  interpolate_from-secret :
      (k : ℕ)
      → k < length secret
      → (ss : List ShamirShare) (h : All (IsShare random t secret) ss) → DifferentX ss
      → length ss ≡ t
      → 1 ≤ t
      → ((j : ℕ) → length (random j) + 1 ≡ t)
      → interpolate_from ss (vals (weights [] (nodes ss h))) k 0 ≡ at secret k
  unfolding nodes
  interpolate_from-secret k lt [] h d e pos drawn_length = absurd (omega arith)
  interpolate_from-secret k lt (s ∷ ss) (p, h) d e pos drawn_length =
      let f = eval byte_field (secret_poly k lt) in
      interpolate_from-interpolate k f (s ∷ ss) (nodes (s ∷ ss) (p, h)) [] [] zero_byte (λ a. refl)
        (nodes-Samples k lt (s ∷ ss) (p, h))
      ∙ ap (λ (b : Byte). b.0)
          (zero-add byte_field (interpolate byte_field [] (nodes (s ∷ ss) (p, h)) f)
            ∙ interpolate-eval byte_field (nodes ss h) (s.x, p.fits) (secret_poly k lt)
                (nodes-Distinct (s ∷ ss) (p, h) d)
                (omega (arith, length-nodes ss h, length-secret_poly k lt pos drawn_length))
            ∙ secret_poly-zero k lt)

  drop-at : (xs : List ℕ) (j : ℕ) → j < length xs → drop j xs ≡ at xs j ∷ drop (suc j) xs
  drop-at [] j h = absurd (omega arith)
  drop-at (x ∷ xs) zero h = refl
  drop-at (x ∷ xs) (suc j) h = drop-at xs j (omega arith)

  drop-length : (xs : List ℕ) → drop (length xs) xs ≡ []
  drop-length [] = refl
  drop-length (x ∷ xs) = drop-length xs

  secret_from-secret :
      (ss : List ShamirShare) (h : All (IsShare random t secret) ss)
      → DifferentX ss
      → length ss ≡ t
      → 1 ≤ t
      → ((j : ℕ) → length (random j) + 1 ≡ t)
      → (left j : ℕ) → j + left ≡ length secret
      → secret_from ss (vals (weights [] (nodes ss h))) left j ≡ drop j secret
  unfolding secret_from
  secret_from-secret ss h d e pos drawn_length zero j total =
      sym (ap (λ i. drop i secret) (omega arith) ∙ drop-length secret)
  secret_from-secret ss h d e pos drawn_length (suc left) j total =
      let lt : j < length secret = omega arith in
      ap₂ ◌∷◌
        (omega (
          arith,
          interpolate_from-secret j lt ss h d e pos drawn_length,
          byte_at j secret bytes lt,
        ))
        (secret_from-secret ss h d e pos drawn_length left (suc j) (omega arith))
      ∙ sym (drop-at secret j lt)

  bases_from-nodes :
      (ss : List ShamirShare) (h : All (IsShare random t secret) ss)
      → DifferentX ss
      → bases_from (xs_of ss) 0 (xs_of ss) ≡ ok (vals (weights [] (nodes ss h)))
  bases_from-nodes ss h d =
      subst (λ xs. bases_from xs 0 xs ≡ ok (vals (weights [] (nodes ss h)))) (vals-nodes ss h)
        (bases_from-all (nodes ss h) (nodes-Distinct ss h d))

  first_length-secret :
      (ss : List ShamirShare)
      → All (IsShare random t secret) ss
      → 1 ≤ length ss
      → first_length ss ≡ ok (length secret)
  unfolding first_length
  first_length-secret [] h pos = absurd (omega arith)
  first_length-secret (s ∷ ss) (p, h) pos =
      ap ok (ap length p.bytes ∙ length-row random t drawn s.x secret 0)

  -- The subset that is taken gives the secret.
  pub shamir_reconstruct-secret :
      (picked : List ShamirShare)
      → All (IsShare random t secret) picked
      → DifferentX picked
      → t ≤ length picked
      → 1 ≤ t
      → ((j : ℕ) → length (random j) + 1 ≡ t)
      → shamir_reconstruct picked t ≡ ok secret
  unfolding shamir_reconstruct
  shamir_reconstruct-secret picked h d enough pos drawn_length =
      let ss = take t picked in
      let h' = All-take (IsShare random t secret) t picked h in
      let d' = take-DifferentX t picked d in
      let e : length ss ≡ t = omega (arith, length-take t picked) in
      ground (
        arith,
        first_length-secret ss h' (omega arith),
        bases_from-nodes ss h' d',
        secret_from-secret ss h' d' e pos drawn_length (length secret) 0 (omega arith),
      )

-- Splitting and reconstructing: of the shares that `shamirSplit` made of a secret with threshold
-- `t`, any `t` or more with different abscissas, in any order, give the secret's bytes back. The
-- random coefficients are `t - 1` bytes for each byte of the secret.
pub shamir_reconstruct-shamir_split :
    (random : ℕ → List ℕ) (secret : List ℕ) (n t : ℕ) (shares picked : List ShamirShare)
    → ((j : ℕ) → All IsByte (random j))
    → ((j : ℕ) → length (random j) + 1 ≡ t)
    → All IsByte secret
    → shamir_split random secret n t ≡ ok shares
    → All (λ s. Among s shares) picked
    → DifferentX picked
    → t ≤ length picked
    → shamir_reconstruct picked t ≡ ok secret
shamir_reconstruct-shamir_split random secret n t shares picked drawn drawn_length bytes e among d
      enough =
    shamir_reconstruct-secret random t drawn secret bytes picked
      (All-map picked (shamir_split-IsShare random secret n t shares drawn bytes e) among) d enough
      (omega (arith, drawn_length 0)) drawn_length
