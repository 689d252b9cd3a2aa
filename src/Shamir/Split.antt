-- ===== src/Shamir/Split.antt =====
-- What `shamirSplit` writes into each share: the values of one polynomial for each byte.
use vault_drive.Base.{
  ℕ, zero, suc, ◌+◌, ◌%◌, ◌≤◌, ◌<◌, ◌≡◌, ◌⊎◌, subst, inl, inr, refl, sym, ap, ◌∙◌, List, [], ltb,
  Bool-cases, ◌∷◌, ◌++◌, length, length-append, append_assoc, All, arith, ok,
}
use vault_drive.Shamir.{
  at, put, zeros, ShamirShare, eval_from, eval_poly, blank_shares, write_byte, coefficients,
  write_bytes, shamir_split,
}
use vault_drive.Shamir.Lagrange.{eval, horner_step, horner_end, horner_start}
use vault_drive.Shamir.Reconstruct.{Byte, one_byte, add_byte, mul_byte, byte_field, vals}

abbrev pub IsByte : ℕ → Type 0
IsByte n = n < 256

abbrev pub to_bytes : (xs : List ℕ) → All IsByte xs → List Byte
to_bytes [] h = []
to_bytes (x ∷ xs) (p, h) = (x, p) ∷ to_bytes xs h

pub vals-to_bytes : (xs : List ℕ) (h : All IsByte xs) → vals (to_bytes xs h) ≡ xs
vals-to_bytes [] h = refl
vals-to_bytes (x ∷ xs) (p, h) = ap (λ t. x ∷ t) (vals-to_bytes xs h)

pub length-to_bytes : (xs : List ℕ) (h : All IsByte xs) → length (to_bytes xs h) ≡ length xs
length-to_bytes [] h = refl
length-to_bytes (x ∷ xs) (p, h) = ap suc (length-to_bytes xs h)

-- The loop of the evaluation is Horner's rule.
eval_from-eval :
    (cs : List ℕ) (h : All IsByte cs) (i v p : Byte)
    → eval_from cs i.0 v.0 p.0
      ≡ (add_byte v (mul_byte p (mul_byte i (eval byte_field (to_bytes cs h) i)))).0
unfolding eval_from eval
eval_from-eval [] h i v p = ap (λ (t : Byte). t.0) (sym (horner_end byte_field v p i))
eval_from-eval (c ∷ cs) (k, h) i v p =
    let p' = mul_byte p i in
    eval_from-eval cs h i (add_byte v (mul_byte (c, k) p')) p'
    ∙ ap (λ (t : Byte). t.0)
        (horner_step byte_field v p i (c, k) (eval byte_field (to_bytes cs h) i))

eval_poly-eval :
    (s : ℕ) (k : IsByte s) (cs : List ℕ) (h : All IsByte cs) (i : Byte)
    → eval_poly s cs i.0 ≡ (eval byte_field ((s, k) ∷ to_bytes cs h) i).0
unfolding eval_poly eval
eval_poly-eval s k cs h i =
    eval_from-eval cs h i (s, k) one_byte
    ∙ ap (λ (t : Byte). t.0) (horner_start byte_field (s, k) i (eval byte_field (to_bytes cs h) i))

-- The shares of `i`, `i + 1`, … whose bytes are given by `ys`.
shares_of : (ℕ → List ℕ) → ℕ → ℕ → List ShamirShare
shares_of ys zero i = []
shares_of ys (suc left) i = record { x = i; y = ys i } ∷ shares_of ys left (suc i)

blank_shares-shares_of :
    (len left i : ℕ) → blank_shares len left i ≡ shares_of (λ _. zeros len) left i
unfolding blank_shares shares_of
blank_shares-shares_of len zero i = refl
blank_shares-shares_of len (suc left) i = rw (blank_shares-shares_of len left (suc i))

write_byte-shares_of :
    (j c0 : ℕ) (cs : List ℕ) (ys : ℕ → List ℕ) (left i : ℕ)
    → write_byte j c0 cs i (shares_of ys left i)
      ≡ shares_of (λ x. put (ys x) j (eval_poly c0 cs x)) left i
unfolding write_byte shares_of
write_byte-shares_of j c0 cs ys zero i = refl
write_byte-shares_of j c0 cs ys (suc left) i = rw (write_byte-shares_of j c0 cs ys left (suc i))

-- The bytes of share `x` after the loop over the secret.
written : (ℕ → List ℕ) → ℕ → ℕ → ℕ → List ℕ → List ℕ → List ℕ
written random t x j [] y = y
written random t x j (s ∷ secret) y =
    written random t x (suc j) secret (put y j (eval_poly s (coefficients random t j) x))

write_bytes-shares_of :
    (random : ℕ → List ℕ) (t j : ℕ) (secret : List ℕ) (ys : ℕ → List ℕ) (n : ℕ)
    → write_bytes random t j secret (shares_of ys n 1)
      ≡ shares_of (λ x. written random t x j secret (ys x)) n 1
unfolding write_bytes written
write_bytes-shares_of random t j [] ys n = refl
write_bytes-shares_of random t j (s ∷ secret) ys n =
    ap (write_bytes random t (suc j) secret)
      (write_byte-shares_of j s (coefficients random t j) ys n 1)
    ∙ write_bytes-shares_of random t (suc j) secret
        (λ x. put (ys x) j (eval_poly s (coefficients random t j) x)) n

put-append :
    (done zs : List ℕ) (z v : ℕ) → put (done ++ z ∷ zs) (length done) v ≡ done ++ (v % 256) ∷ zs
unfolding put
put-append [] zs z v = refl
put-append (d ∷ done) zs z v = ap (λ t. d ∷ t) (put-append done zs z v)

-- The values of every byte's polynomial at `x`.
pub row : (ℕ → List ℕ) → ℕ → ℕ → ℕ → List ℕ → List ℕ
row random t x j [] = []
row random t x j (s ∷ secret) =
    eval_poly s (coefficients random t j) x ∷ row random t x (suc j) secret

module _ (random : ℕ → List ℕ) (t : ℕ) (drawn : (j : ℕ) → All IsByte (random j)) where
  pub coefficients-IsByte : (j : ℕ) → All IsByte (coefficients random t j)
  unfolding coefficients
  coefficients-IsByte j = elim (Bool-cases (ltb 1 t)) [
    | inl more ↦ rw more (drawn j)
    | inr one ↦ rw one tt
  ]

  -- The polynomial of byte `j`, over the field.
  unfoldable pub poly : (j s : ℕ) → IsByte s → List Byte
  poly j s k = (s, k) ∷ to_bytes (coefficients random t j) (coefficients-IsByte j)

  pub eval_poly-poly :
      (j s : ℕ) (k : IsByte s) (x : Byte)
      → eval_poly s (coefficients random t j) x.0 ≡ (eval byte_field (poly j s k) x).0
  unfolding poly
  eval_poly-poly j s k x = eval_poly-eval s k (coefficients random t j) (coefficients-IsByte j) x

  written-row :
      (x : Byte) (secret done : List ℕ) (j : ℕ)
      → All IsByte secret
      → length done ≡ j
      → written random t x.0 j secret (done ++ zeros (length secret))
        ≡ done ++ row random t x.0 j secret
  unfolding written row
  written-row x [] done j h e = refl
  written-row x (s ∷ secret) done j (k, h) e =
      let v : ℕ = eval_poly s (coefficients random t j) x.0 in
      ap (written random t x.0 (suc j) secret) (write_next v refl)
      ∙ written-row x secret (done ++ v ∷ []) (suc j) h (length-append done (v ∷ []) ∙ omega arith)
      ∙ append_assoc done (v ∷ []) _
    where
      fits : eval_poly s (coefficients random t j) x.0 < 256
      fits = rw (eval_poly-poly j s k x) (eval byte_field (poly j s k) x).1

      write_next :
          (v : ℕ)
          → v ≡ eval_poly s (coefficients random t j) x.0
          → put (done ++ 0 ∷ zeros (length secret)) j v ≡ (done ++ v ∷ []) ++ zeros (length secret)
      write_next v same =
          ap (λ i. put (done ++ 0 ∷ zeros (length secret)) i v) (sym e)
          ∙ put-append done (zeros (length secret)) 0 v
          ∙ ap (λ w. done ++ w ∷ zeros (length secret)) (omega (arith, fits))
          ∙ sym (append_assoc done (v ∷ []) (zeros (length secret)))

  pub at-row :
      (x : Byte) (secret : List ℕ) (j i : ℕ)
      → i < length secret
      → at (row random t x.0 j secret) i
        ≡ eval_poly (at secret i) (coefficients random t (j + i)) x.0
  unfolding row
  at-row x [] j i h = absurd (omega arith)
  at-row x (s ∷ secret) j zero h = ap (λ i. eval_poly s (coefficients random t i) x.0) (omega arith)
  at-row x (s ∷ secret) j (suc i) h =
      at-row x secret (suc j) i (omega arith)
      ∙ ap (λ i'. eval_poly (at secret i) (coefficients random t i') x.0) (omega arith)

  pub length-row :
      (x : ℕ) (secret : List ℕ) (j : ℕ) → length (row random t x j secret) ≡ length secret
  unfolding row
  length-row x [] j = refl
  length-row x (s ∷ secret) j = ap suc (length-row x secret (suc j))

-- A share holds an abscissa of 1 … n, and the row of values there.
pub record IsShare (random : ℕ → List ℕ) (t : ℕ) (secret : List ℕ) (s : ShamirShare) : Type 0 where
  pub fits : IsByte s.x
  pub bytes : s.y ≡ row random t s.x 0 secret

-- `s` is one of the list.
abbrev pub Among : ShamirShare → List ShamirShare → Type 0
Among s [] = ⊥
Among s (r ∷ rs) = (s ≡ r) ⊎ Among s rs

Among-shares_of :
    (ys : ℕ → List ℕ) (s : ShamirShare) (n i : ℕ)
    → Among s (shares_of ys n i)
    → (s.x < i + n) × (s.y ≡ ys s.x)
unfolding shares_of
Among-shares_of ys s zero i h = absurd h
Among-shares_of ys s (suc n) i (inl e) = (
  omega (arith, ap (λ (r : ShamirShare). r.x) e),
  ap (λ (r : ShamirShare). r.y) e ∙ ap ys (sym (ap (λ (r : ShamirShare). r.x) e)),
)
Among-shares_of ys s (suc n) i (inr h) =
    let (below, bytes) = Among-shares_of ys s n (suc i) h in (omega arith, bytes)

pub split_result :
    (random : ℕ → List ℕ) (secret : List ℕ) (n t : ℕ) (shares : List ShamirShare)
    → shamir_split random secret n t ≡ ok shares
    → (n < 256)
      × (1 ≤ t)
      × (write_bytes random t 0 secret (blank_shares (length secret) n 1) ≡ shares)
unfolding shamir_split
split_result random secret n t shares e = (ground arith, ground arith, ground arith)

split-shares_of :
    (random : ℕ → List ℕ) (secret : List ℕ) (n t : ℕ)
    → write_bytes random t 0 secret (blank_shares (length secret) n 1)
      ≡ shares_of (λ x. written random t x 0 secret (zeros (length secret))) n 1
split-shares_of random secret n t =
    ap (write_bytes random t 0 secret) (blank_shares-shares_of (length secret) n 1)
    ∙ write_bytes-shares_of random t 0 secret (λ _. zeros (length secret)) n

pub shamir_split-IsShare :
    (random : ℕ → List ℕ) (secret : List ℕ) (n t : ℕ) (shares : List ShamirShare)
    → ((j : ℕ) → All IsByte (random j))
    → All IsByte secret
    → shamir_split random secret n t ≡ ok shares
    → (s : ShamirShare) → Among s shares
    → IsShare random t secret s
shamir_split-IsShare random secret n t shares drawn h e s among =
    let (fits, _, made) = split_result random secret n t shares e in
    let (below, bytes) =
      Among-shares_of (λ x. written random t x 0 secret (zeros (length secret))) s n 1
        (subst (Among s) (sym made ∙ split-shares_of random secret n t) among) in
    record {
      fits = omega arith;
      bytes = bytes ∙ written-row random t drawn (s.x, omega arith) secret [] 0 h refl;
    }
