-- ===== src/Shamir/Field.antt =====
-- `gfMul` and `gfDiv` on bytes are the multiplication and division of a field whose addition is
-- `^`.
use Prim.Native.Nat.{bit_xor}
use vault_drive.Base.{ℕ, zero, suc, ◌+◌, ◌-◌, ◌%◌, ◌<◌, ◌≡◌, refl, ap, ap₂, sym, ◌∙◌, arith, ok}
use vault_drive.Shamir.{at, tables, next_power, gf_mul, gf_div}
use vault_drive.Shamir.Table.{
  exp-lt, exp-pos, log-exp, exp_next, log-lt, exp-log, exp_first, log_one, next_power-lt,
  next_power-bit_xor,
}
use vault_drive.Shamir.Xor.{bit_xor-lt}

-- `k` doublings.
doubled : ℕ → ℕ → ℕ
doubled zero a = a
doubled (suc k) a = next_power (doubled k a)

doubled-lt : (k a : ℕ) → a < 256 → doubled k a < 256
unfolding doubled
doubled-lt zero a h = h
doubled-lt (suc k) a h = next_power-lt _ (doubled-lt k a h)

doubled-bit_xor :
    (k a b : ℕ) → a < 256 → b < 256 → doubled k (bit_xor a b) ≡ bit_xor (doubled k a) (doubled k b)
unfolding doubled
doubled-bit_xor zero a b h p = refl
doubled-bit_xor (suc k) a b h p =
    ap next_power (doubled-bit_xor k a b h p)
    ∙ next_power-bit_xor _ _ (doubled-lt k a h) (doubled-lt k b p)

doubled-zero : (k : ℕ) → doubled k 0 ≡ 0
unfolding doubled next_power
doubled-zero zero = refl
doubled-zero (suc k) = rw (doubled-zero k) refl

exp-doubled : (k i : ℕ) → i < 255 → at tables.exp ((i + k) % 255) ≡ doubled k (at tables.exp i)
unfolding doubled
exp-doubled zero i h = ap (at tables.exp) (omega arith)
exp-doubled (suc k) i h =
    let e : (i + suc k) % 255 ≡ ((i + k) % 255 + 1) % 255 = omega arith in
    ap (at tables.exp) e
    ∙ exp_next ((i + k) % 255) (omega arith)
    ∙ ap next_power (exp-doubled k i h)

-- Multiplication by a byte is doubling, as often as its logarithm says.
gf_mul-doubled : (a b : ℕ) → a < 256 → 0 < b → b < 256 → gf_mul a b ≡ doubled (at tables.log b) a
unfolding gf_mul
gf_mul-doubled zero b h pos k = sym (doubled-zero _)
gf_mul-doubled (suc a) b h pos k = ground (
  arith,
  exp-doubled (at tables.log b) (at tables.log (suc a)) (log-lt (suc a) (omega arith) h),
  exp-log (suc a) (omega arith) h,
)

pub gf_mul-lt : (a b : ℕ) → gf_mul a b < 256
unfolding gf_mul
gf_mul-lt a b = ground (arith, exp-lt ((at tables.log a + at tables.log b) % 255) (omega arith))

pub gf_mul_comm : (a b : ℕ) → gf_mul a b ≡ gf_mul b a
unfolding gf_mul
gf_mul_comm a b = ground arith

gf_mul-pos : (a b : ℕ) → 0 < a → 0 < b → 0 < gf_mul a b
unfolding gf_mul
gf_mul-pos a b h k =
    ground (arith, exp-pos ((at tables.log a + at tables.log b) % 255) (omega arith))

pub gf_mul-zero : (a : ℕ) → gf_mul a 0 ≡ 0
unfolding gf_mul
gf_mul-zero a = ground arith

pub zero-gf_mul : (a : ℕ) → gf_mul 0 a ≡ 0
unfolding gf_mul
zero-gf_mul a = refl

pub gf_mul-one : (a : ℕ) → a < 256 → gf_mul a 1 ≡ a
unfolding gf_mul
gf_mul-one zero h = refl
gf_mul-one (suc a) h =
    ground (arith, log_one, log-lt (suc a) (omega arith) h, exp-log (suc a) (omega arith) h)

pub gf_mul-bit_xor :
    (a b c : ℕ)
    → a < 256
    → b < 256
    → c < 256
    → gf_mul (bit_xor a b) c ≡ bit_xor (gf_mul a c) (gf_mul b c)
gf_mul-bit_xor a b zero h k p = gf_mul-zero _ ∙ sym (ap₂ bit_xor (gf_mul-zero a) (gf_mul-zero b))
gf_mul-bit_xor a b (suc c) h k p =
    let pos : 0 < suc c = omega arith in
    gf_mul-doubled _ (suc c) (bit_xor-lt 8 a b h k) pos p
    ∙ doubled-bit_xor _ a b h k
    ∙ sym (ap₂ bit_xor (gf_mul-doubled a (suc c) h pos p) (gf_mul-doubled b (suc c) k pos p))

-- The logarithm of a product.
log-gf_mul :
    (a b : ℕ)
    → 0 < a
    → 0 < b
    → at tables.log (gf_mul a b) ≡ (at tables.log a + at tables.log b) % 255
unfolding gf_mul
log-gf_mul a b h k =
    ground (arith, log-exp ((at tables.log a + at tables.log b) % 255) (omega arith))

gf_mul-pos_eq :
    (a b : ℕ)
    → 0 < a
    → 0 < b
    → gf_mul a b ≡ at tables.exp ((at tables.log a + at tables.log b) % 255)
unfolding gf_mul
gf_mul-pos_eq a b h k = ground arith

pub gf_mul_assoc : (a b c : ℕ) → gf_mul (gf_mul a b) c ≡ gf_mul a (gf_mul b c)
gf_mul_assoc zero b c = rw (zero-gf_mul, zero-gf_mul, zero-gf_mul)
gf_mul_assoc (suc a) zero c = rw (gf_mul-zero, zero-gf_mul, gf_mul-zero)
gf_mul_assoc (suc a) (suc b) zero = rw (gf_mul-zero, gf_mul-zero, gf_mul-zero)
gf_mul_assoc (suc a) (suc b) (suc c) =
    let ab : 0 < gf_mul (suc a) (suc b) = gf_mul-pos (suc a) (suc b) (omega arith) (omega arith) in
    let bc : 0 < gf_mul (suc b) (suc c) = gf_mul-pos (suc b) (suc c) (omega arith) (omega arith) in
    gf_mul-pos_eq _ (suc c) ab (omega arith)
    ∙ ap (at tables.exp) (
        omega (
          arith,
          log-gf_mul (suc a) (suc b) (omega arith) (omega arith),
          log-gf_mul (suc b) (suc c) (omega arith) (omega arith),
        ))
    ∙ sym (gf_mul-pos_eq (suc a) _ (omega arith) bc)

-- The inverse that `gfDiv` multiplies by.
unfoldable pub gf_inv : ℕ → ℕ
gf_inv b = at tables.exp ((255 - at tables.log b) % 255)

pub gf_inv-lt : (b : ℕ) → gf_inv b < 256
unfolding gf_inv
gf_inv-lt b = exp-lt ((255 - at tables.log b) % 255) (omega arith)

pub gf_mul-gf_inv : (b : ℕ) → 0 < b → b < 256 → gf_mul b (gf_inv b) ≡ 1
unfolding gf_inv
gf_mul-gf_inv b h k =
    let small : at tables.log b < 255 = log-lt b h k in
    let i : ℕ = (255 - at tables.log b) % 255 in
    gf_mul-pos_eq b (at tables.exp i) h (exp-pos i (omega arith))
    ∙ ap (at tables.exp) (omega (arith, log-exp i (omega arith)))
    ∙ exp_first

pub gf_div-gf_mul : (a b : ℕ) → a < 256 → 0 < b → b < 256 → gf_div a b ≡ ok (gf_mul a (gf_inv b))
unfolding gf_div gf_inv
gf_div-gf_mul zero b h pos k = ground (arith, zero-gf_mul (gf_inv b))
gf_div-gf_mul (suc a) b h pos k =
    let small : at tables.log b < 255 = log-lt b pos k in
    let i : ℕ = (255 - at tables.log b) % 255 in
    let same : (at tables.log (suc a) + at tables.log (at tables.exp i)) % 255
        ≡ (at tables.log (suc a) + 255 - at tables.log b) % 255 =
      omega (arith, log-exp i (omega arith)) in
    let product : gf_mul (suc a) (at tables.exp i)
        ≡ at tables.exp ((at tables.log (suc a) + 255 - at tables.log b) % 255) =
      gf_mul-pos_eq (suc a) (at tables.exp i) (omega arith) (exp-pos i (omega arith))
      ∙ ap (at tables.exp) same in
    ground (arith, product)

-- Dividing a product of two bytes by the second, which is not zero, gives the first back.
pub gf_div-gf_mul_back : (a b : ℕ) → a < 256 → 0 < b → b < 256 → gf_div (gf_mul a b) b ≡ ok a
gf_div-gf_mul_back a b h pos k =
    gf_div-gf_mul (gf_mul a b) b (gf_mul-lt a b) pos k
    ∙ ap ok (gf_mul_assoc a b (gf_inv b) ∙ ap (gf_mul a) (gf_mul-gf_inv b pos k) ∙ gf_mul-one a h)
