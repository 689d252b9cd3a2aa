-- ===== src/Shamir/Tests.antt =====
-- Runs of the sharing on a small secret, and the instances of its theorems.
use vault_drive.Base.{ℕ, ◌≡◌, refl, List, [], ◌∷◌, All, ok, throw, arith, inl, inr}
use vault_drive.Shamir.{ShamirShare, gf_mul, gf_div, shamir_split, shamir_reconstruct, tables}
use vault_drive.Shamir.Field.{gf_div-gf_mul_back}
use vault_drive.Shamir.Split.{IsByte, Among}
use vault_drive.Shamir.RoundTrip.{DifferentX, shamir_reconstruct-shamir_split}

-- Two random bytes for each byte of the secret.
abbrev dice : ℕ → List ℕ
dice j = 17 ∷ 200 ∷ []

abbrev hi : List ℕ
hi = b'h' ∷ b'i' ∷ []

-- The shares of "hi" for three of four holders.
abbrev share : ℕ → ℕ → ℕ → ShamirShare
share x a b = record { x = x; y = a ∷ b ∷ [] }

abbrev four_shares : List ShamirShare
four_shares = share 1 177 176 ∷ share 2 77 76 ∷ share 3 148 149 ∷ share 4 48 49 ∷ []

split_four : shamir_split dice hi 4 3 ≡ ok four_shares
unfolding shamir_split tables gf_mul
split_four = refl

too_many :
    shamir_split dice hi 256 3 ≡ throw "Invalid parameters: T must be >= 1, N >= T, and N < 256"
unfolding shamir_split
too_many = refl

-- Too few shares, and the same share twice.
too_few : shamir_reconstruct (share 1 177 176 ∷ []) 2 ≡ throw "Not enough shares to reconstruct"
unfolding shamir_reconstruct
too_few = refl

same_twice :
    shamir_reconstruct (share 1 177 176 ∷ share 1 177 176 ∷ []) 2 ≡ throw "Division by zero"
unfolding shamir_reconstruct gf_div
same_twice = refl

dice-IsByte : (j : ℕ) → All IsByte (dice j)
dice-IsByte j = omega arith

-- Three of the four shares, out of order.
abbrev three_shares : List ShamirShare
three_shares = share 4 48 49 ∷ share 1 177 176 ∷ share 3 148 149 ∷ []

three-Among : All (λ s. Among s four_shares) three_shares
three-Among = (inr (inr (inr (inl refl))), (inl refl, (inr (inr (inl refl)), tt)))

three_different : DifferentX three_shares
three_different = omega arith

shamir_reconstruct-shamir_split_example : shamir_reconstruct three_shares 3 ≡ ok hi
shamir_reconstruct-shamir_split_example =
    shamir_reconstruct-shamir_split dice hi 4 3 four_shares three_shares dice-IsByte (λ j. refl)
      (omega arith) split_four three-Among three_different (omega arith)

gf_div-gf_mul_back_example : gf_div (gf_mul 83 202) 202 ≡ ok 83
gf_div-gf_mul_back_example = gf_div-gf_mul_back 83 202 (omega arith) (omega arith) (omega arith)
