-- ===== src/Shamir/Xor.antt =====
-- `^` of JavaScript on natural numbers: an abelian group in which every element is its own inverse.
use Prim.Native.Nat.{bit_xor, digits, bitwise, differ, bit_xor-bitwise}
use native.Mathlib.Nat.{pow-suc}
use vault_drive.Base.{ℕ, zero, suc, ◌+◌, ◌*◌, ◌/◌, ◌%◌, ◌≤◌, ◌<◌, ◌^◌, ◌≡◌, refl, ap, ◌∙◌, arith}

-- More fuel than the number needs changes no digit; `k` bounds the fuel, for the induction.
spare_fuel :
    (last : ℕ → ℕ) (op : ℕ → ℕ → ℕ) (k fuel a b : ℕ)
    → fuel ≤ k
    → a ≤ fuel
    → digits last op fuel a b ≡ digits last op a a b
spare_fuel last op k zero zero b bound enough = refl
spare_fuel last op k (suc fuel) zero b bound enough = refl
spare_fuel last op k zero (suc a) b bound enough = absurd (omega arith)
spare_fuel last op zero (suc fuel) (suc a) b bound enough = absurd (omega arith)
spare_fuel last op (suc k) (suc fuel) (suc a) b bound enough =
    let halves = spare_fuel last op k fuel (suc a / 2) (b / 2) (omega arith) (omega arith) in
    let halves' = spare_fuel last op k a (suc a / 2) (b / 2) (omega arith) (omega arith) in
    rw (halves, halves')

differ-halves :
    (a b : ℕ)
    → bitwise (λ y. y) differ (suc a) b
      ≡ differ (suc a % 2) (b % 2) + 2 * bitwise (λ y. y) differ (suc a / 2) (b / 2)
differ-halves a b =
    omega (arith, spare_fuel (λ y. y) differ a a (suc a / 2) (b / 2) (omega arith) (omega arith))

differ-parity : (a b : ℕ) → a < 2 → b < 2 → differ a b ≡ (a + b) % 2
differ-parity zero zero h k = refl
differ-parity zero (suc b) h k = omega arith
differ-parity (suc zero) zero h k = refl
differ-parity (suc zero) (suc zero) h k = refl
differ-parity (suc zero) (suc (suc b)) h k = absurd (omega arith)
differ-parity (suc (suc a)) b h k = absurd (omega arith)

pub zero-bit_xor : (b : ℕ) → bit_xor 0 b ≡ b
zero-bit_xor b = simp bit_xor-bitwise

-- The law for the lowest digit.
pub bit_xor_step : (a b : ℕ) → bit_xor a b ≡ bit_xor (a / 2) (b / 2) * 2 + (a + b) % 2
bit_xor_step zero b = omega (arith, zero-bit_xor b, zero-bit_xor (b / 2))
bit_xor_step (suc a) b = omega (
  arith,
  bit_xor-bitwise (suc a) b,
  bit_xor-bitwise (suc a / 2) (b / 2),
  differ-halves a b,
  differ-parity (suc a % 2) (b % 2) (omega arith) (omega arith),
)

-- Each law goes from the halves to the whole, hence the bound `n` for the induction.
self_below : (n a : ℕ) → a ≤ n → bit_xor a a ≡ 0
self_below n zero h = zero-bit_xor 0
self_below zero (suc a) h = absurd (omega arith)
self_below (suc n) (suc a) h =
    omega (arith, bit_xor_step (suc a) (suc a), self_below n (suc a / 2) (omega arith))

pub bit_xor_self : (a : ℕ) → bit_xor a a ≡ 0
bit_xor_self a = self_below a a (omega arith)

comm_below : (n a b : ℕ) → a + b ≤ n → bit_xor a b ≡ bit_xor b a
comm_below n zero zero h = refl
comm_below zero zero (suc b) h = absurd (omega arith)
comm_below zero (suc a) b h = absurd (omega arith)
comm_below (suc n) a b h =
    omega (arith, bit_xor_step a b, bit_xor_step b a, comm_below n (a / 2) (b / 2) (omega arith))

pub bit_xor_comm : (a b : ℕ) → bit_xor a b ≡ bit_xor b a
bit_xor_comm a b = comm_below (a + b) a b (omega arith)

pub bit_xor-zero : (a : ℕ) → bit_xor a 0 ≡ a
bit_xor-zero a = bit_xor_comm a 0 ∙ zero-bit_xor a

step_half : (a b : ℕ) → bit_xor a b / 2 ≡ bit_xor (a / 2) (b / 2)
step_half a b = omega (arith, bit_xor_step a b)

assoc_below : (n a b c : ℕ) → a + b + c ≤ n → bit_xor (bit_xor a b) c ≡ bit_xor a (bit_xor b c)
assoc_below zero zero zero zero h = refl
assoc_below zero (suc a) b c h = absurd (omega arith)
assoc_below zero zero (suc b) c h = absurd (omega arith)
assoc_below zero zero zero (suc c) h = absurd (omega arith)
assoc_below (suc n) a b c h = omega (
  arith,
  bit_xor_step (bit_xor a b) c,
  bit_xor_step a (bit_xor b c),
  step_half a b,
  step_half b c,
  ap (λ t. bit_xor t (c / 2)) (step_half a b),
  ap (λ t. bit_xor (a / 2) t) (step_half b c),
  bit_xor_step a b,
  bit_xor_step b c,
  assoc_below n (a / 2) (b / 2) (c / 2) (omega arith),
)

pub bit_xor_assoc : (a b c : ℕ) → bit_xor (bit_xor a b) c ≡ bit_xor a (bit_xor b c)
bit_xor_assoc a b c = assoc_below (a + b + c) a b c (omega arith)

-- Two numbers of `k` bits give one of `k` bits.
pub bit_xor-lt : (k a b : ℕ) → a < 2 ^ k → b < 2 ^ k → bit_xor a b < 2 ^ k
bit_xor-lt zero zero zero h p = omega arith
bit_xor-lt zero zero (suc b) h p = absurd (omega arith)
bit_xor-lt zero (suc a) b h p = absurd (omega arith)
bit_xor-lt (suc k) a b h p = omega (
  arith,
  bit_xor_step a b,
  pow-suc 2 k,
  bit_xor-lt k (a / 2) (b / 2) (omega (arith, pow-suc 2 k)) (omega (arith, pow-suc 2 k)),
)
