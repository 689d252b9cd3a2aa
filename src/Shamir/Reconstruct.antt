-- ===== src/Shamir/Reconstruct.antt =====
-- The loops of `shamirReconstruct` compute Lagrange's interpolation at zero over the field of
-- bytes.
use Prim.Native.Nat.{bit_xor}
use mathlib.Core.HLevel.{Σ_prop_path}
use native.Mathlib.Bridge.{le_prop}
use vault_drive.Base.{
  ℕ, zero, suc, ◌+◌, ◌≤◌, ◌<◌, ◌≡◌, ◌≢◌, refl, sym, ap, ap₂, ◌∙◌, List, [], ◌∷◌, ◌++◌, length,
  arith, ok, append_assoc, length-append,
}
use vault_drive.Shamir.{at, gf_mul, gf_div, ShamirShare, basis_from, bases_from, interpolate_from}
use vault_drive.Shamir.Xor.{bit_xor_self, bit_xor_comm, bit_xor_assoc, bit_xor-zero, bit_xor-lt}
use vault_drive.Shamir.Field.{
  gf_mul-lt, gf_mul_comm, gf_mul_assoc, gf_mul-zero, gf_mul-one, gf_mul-bit_xor, gf_inv, gf_inv-lt,
  gf_mul-gf_inv, gf_div-gf_mul,
}
use vault_drive.Shamir.Lagrange.{
  BinaryField, weight, interpolate, Fresh, Distinct, eq_of_add-eq-zero, mul_left_comm,
}

abbrev pub Byte : Type 0
Byte = (n : ℕ) × (n < 256)

pub Byte_path : (a b : Byte) → a.0 ≡ b.0 → a ≡ b
Byte_path a b e = Σ_prop_path (λ n. le_prop) e

pub zero_fits : 0 < 256
zero_fits = omega arith

pub one_fits : 1 < 256
one_fits = omega arith

abbrev pub zero_byte : Byte
zero_byte = (0, zero_fits)

abbrev pub one_byte : Byte
one_byte = (1, one_fits)

abbrev pub add_byte : Byte → Byte → Byte
add_byte a b = (bit_xor a.0 b.0, bit_xor-lt 8 a.0 b.0 a.1 b.1)

abbrev pub mul_byte : Byte → Byte → Byte
mul_byte a b = (gf_mul a.0 b.0, gf_mul-lt a.0 b.0)

pub Byte-pos : (a : Byte) → a ≢ zero_byte → 0 < a.0
Byte-pos (zero, h) ne = absurd (ne (Byte_path _ _ refl))
Byte-pos (suc n, h) ne = omega arith

abbrev pub byte_field : BinaryField
byte_field = record {
  F = Byte;
  zero = zero_byte;
  one = one_byte;
  ◌⊕◌ = add_byte;
  ◌⊗◌ = mul_byte;
  inv = λ a. (gf_inv a.0, gf_inv-lt a.0);
  add_comm = λ a b. Byte_path _ _ (bit_xor_comm a.0 b.0);
  add_assoc = λ a b c. Byte_path _ _ (bit_xor_assoc a.0 b.0 c.0);
  add_self = λ a. Byte_path _ _ (bit_xor_self a.0);
  add-zero = λ a. Byte_path _ _ (bit_xor-zero a.0);
  mul_comm = λ a b. Byte_path _ _ (gf_mul_comm a.0 b.0);
  mul_assoc = λ a b c. Byte_path _ _ (gf_mul_assoc a.0 b.0 c.0);
  mul-one = λ a. Byte_path _ _ (gf_mul-one a.0 a.1);
  mul-zero = λ a. Byte_path _ _ (gf_mul-zero a.0);
  add-mul = λ a b c. Byte_path _ _ (gf_mul-bit_xor a.0 b.0 c.0 a.1 b.1 c.1);
  mul-inv = λ a ne. Byte_path _ _ (gf_mul-gf_inv a.0 (Byte-pos a ne) a.1);
}

abbrev pub vals : List Byte → List ℕ
vals [] = []
vals (b ∷ bs) = b.0 ∷ vals bs

pub vals-append : (xs ys : List Byte) → vals (xs ++ ys) ≡ vals xs ++ vals ys
vals-append [] ys = refl
vals-append (x ∷ xs) ys = ap (λ t. x.0 ∷ t) (vals-append xs ys)

-- The quotient `gfDiv(xs[m], xs[k] ^ xs[m])` of two different abscissas.
gf_div-apart :
    (a x : Byte) → a ≢ x → gf_div x.0 (bit_xor a.0 x.0) ≡ ok (gf_mul x.0 (gf_inv (bit_xor a.0 x.0)))
gf_div-apart a x ne =
    gf_div-gf_mul x.0 _ x.1 (Byte-pos (add_byte a x) (λ e. ne (eq_of_add-eq-zero byte_field a x e)))
      (add_byte a x).1

basis_from_step :
    (a : Byte) (k m : ℕ) (x : Byte) (xs : List ℕ) (b : ℕ)
    → m ≢ k
    → a ≢ x
    → basis_from a.0 k m (x.0 ∷ xs) b
      ≡ basis_from a.0 k (suc m) xs (gf_mul b (gf_mul x.0 (gf_inv (bit_xor a.0 x.0))))
unfolding basis_from
basis_from_step a k m x xs b other ne = ground (arith, gf_div-apart a x ne)

-- The loop over `m` away from index `k`.
basis_from-later :
    (a : Byte) (k m : ℕ) (xs : List Byte) (b : Byte)
    → k < m
    → Fresh byte_field a xs
    → basis_from a.0 k m (vals xs) b.0 ≡ ok (mul_byte b (weight byte_field xs a)).0
unfolding weight
basis_from-later a k m [] b h fresh = unfold basis_from in ap ok (sym (gf_mul-one b.0 b.1))
basis_from-later a k m (x ∷ xs) b h (ne, fresh) =
    let factor = (byte_field.◌⊗◌) x ((byte_field.inv) (add_byte a x)) in
    basis_from_step a k m x (vals xs) b.0 (omega arith) ne
    ∙ basis_from-later a k (suc m) xs (mul_byte b factor) (omega arith) fresh
    ∙ ap ok (gf_mul_assoc b.0 factor.0 _)

basis_from-earlier :
    (a : Byte) (k m : ℕ) (xs : List Byte) (rest : List ℕ) (b : Byte)
    → m + length xs ≤ k
    → Fresh byte_field a xs
    → basis_from a.0 k m (vals xs ++ rest) b.0
      ≡ basis_from a.0 k (m + length xs) rest (mul_byte b (weight byte_field xs a)).0
unfolding weight
basis_from-earlier a k m [] rest b h fresh =
    ap₂ (λ i t. basis_from a.0 k i rest t) (omega arith) (sym (gf_mul-one b.0 b.1))
basis_from-earlier a k m (x ∷ xs) rest b h (ne, fresh) =
    let factor = mul_byte x ((byte_field.inv) (add_byte a x)) in
    basis_from_step a k m x (vals xs ++ rest) b.0 (omega arith) ne
    ∙ basis_from-earlier a k (suc m) xs rest (mul_byte b factor) (omega arith) fresh
    ∙ ap₂ (λ i t. basis_from a.0 k i rest t) (omega arith) (gf_mul_assoc b.0 factor.0 _)

-- The whole loop over `m`, at the node `a` between `pre` and `post`.
basis_from-weight :
    (a : Byte) (pre post : List Byte)
    → Fresh byte_field a pre
    → Fresh byte_field a post
    → basis_from a.0 (length pre) 0 (vals pre ++ a.0 ∷ vals post) 1
      ≡ ok (mul_byte (weight byte_field pre a) (weight byte_field post a)).0
basis_from-weight a pre post before after =
    basis_from-earlier a (length pre) 0 pre (a.0 ∷ vals post) one_byte (omega arith) before
    ∙ ap₂ (λ i t. basis_from a.0 (length pre) i (a.0 ∷ vals post) t) (omega arith)
        (gf_mul_comm 1 _ ∙ gf_mul-one _ (weight byte_field pre a).1)
    ∙ skip
    ∙ basis_from-later a (length pre) (suc (length pre)) post (weight byte_field pre a)
        (omega arith) after
  where
    skip :
        basis_from a.0 (length pre) (length pre) (a.0 ∷ vals post) (weight byte_field pre a).0
        ≡ basis_from a.0 (length pre) (suc (length pre)) (vals post) (weight byte_field pre a).0
    skip = unfold basis_from in ground arith

n-add-one : (n : ℕ) → n + length {A = Byte} (one_byte ∷ []) ≡ suc n
n-add-one n = omega arith

-- The basis values at the nodes `xs`, where `pre` stands before them.
pub weights : List Byte → List Byte → List Byte
weights pre [] = []
weights pre (x ∷ xs) =
    mul_byte (weight byte_field pre x) (weight byte_field xs x) ∷ weights (pre ++ x ∷ []) xs

-- Every node of the second list is fresh for the first.
abbrev pub Apart : List Byte → List Byte → Type 0
Apart pre [] = Unit
Apart pre (x ∷ xs) = Fresh byte_field x pre × Apart pre xs

Fresh-append :
    (y x : Byte) (pre : List Byte)
    → Fresh byte_field y pre
    → y ≢ x
    → Fresh byte_field y (pre ++ x ∷ [])
Fresh-append y x [] h ne = (ne, tt)
Fresh-append y x (z ∷ pre) (k, h) ne = (k, Fresh-append y x pre h ne)

Apart-append :
    (pre : List Byte) (x : Byte) (xs : List Byte)
    → Fresh byte_field x xs
    → Apart pre xs
    → Apart (pre ++ x ∷ []) xs
Apart-append pre x [] f h = tt
Apart-append pre x (y ∷ xs) (ne, f) (k, h) =
    (Fresh-append y x pre k (λ e. ne (sym e)), Apart-append pre x xs f h)

Apart-nil : (xs : List Byte) → Apart [] xs
Apart-nil [] = tt
Apart-nil (x ∷ xs) = (tt, Apart-nil xs)

bases_from-weights :
    (pre xs : List Byte)
    → Apart pre xs
    → Distinct byte_field xs
    → bases_from (vals (pre ++ xs)) (length pre) (vals xs) ≡ ok (vals (weights pre xs))
unfolding bases_from weights
bases_from-weights pre [] h d = refl
bases_from-weights pre (x ∷ xs) (before, h) (after, d) = ground (
  arith,
  ap (λ t. basis_from x.0 (length pre) 0 t 1) (vals-append pre (x ∷ xs)),
  basis_from-weight x pre xs before after,
  ap₂ (λ t i. bases_from (vals t) i (vals xs)) (append_assoc pre (x ∷ []) xs)
      (length-append pre (x ∷ []) ∙ n-add-one (length pre)),
  bases_from-weights (pre ++ x ∷ []) xs (Apart-append pre x xs after h) d,
  gf_mul-lt (weight byte_field pre x).0 (weight byte_field xs x).0,
)

pub bases_from-all :
    (xs : List Byte)
    → Distinct byte_field xs
    → bases_from (vals xs) 0 (vals xs) ≡ ok (vals (weights [] xs))
bases_from-all xs d = bases_from-weights [] xs (Apart-nil xs) d

-- Byte `j` of each share is the value of `f` at its abscissa.
abbrev pub Samples : ℕ → (Byte → Byte) → List ShamirShare → List Byte → Type 0
Samples j f [] [] = Unit
Samples j f (s ∷ ss) (x ∷ xs) = (at s.y j ≡ (f x).0) × Samples j f ss xs
Samples j f _ _ = ⊥

-- One factor of a weight.
abbrev factor : Byte → Byte → Byte
factor x a = mul_byte x ((byte_field.inv) (add_byte a x))

weight-append_one :
    (pre : List Byte) (x a : Byte)
    → weight byte_field (pre ++ x ∷ []) a ≡ mul_byte (factor x a) (weight byte_field pre a)
unfolding weight
weight-append_one [] x a = refl
weight-append_one (p ∷ pre) x a =
    ap (λ t. mul_byte (factor p a) t) (weight-append_one pre x a)
    ∙ mul_left_comm byte_field (factor p a) (factor x a) (weight byte_field pre a)

-- The loop that adds up the products.
pub interpolate_from-interpolate :
    (j : ℕ) (f : Byte → Byte) (ss : List ShamirShare) (xs pre pre' : List Byte) (b : Byte)
    → ((a : Byte) → weight byte_field pre a ≡ weight byte_field pre' a)
    → Samples j f ss xs
    → interpolate_from ss (vals (weights pre xs)) j b.0
      ≡ (add_byte b (interpolate byte_field pre' xs f)).0
unfolding interpolate_from interpolate weights
interpolate_from-interpolate j f [] [] pre pre' b same h = sym (bit_xor-zero b.0)
interpolate_from-interpolate j f [] (x ∷ xs) pre pre' b same h = absurd h
interpolate_from-interpolate j f (s ∷ ss) [] pre pre' b same h = absurd h
interpolate_from-interpolate j f (s ∷ ss) (x ∷ xs) pre pre' b same (e, h) =
    let w = mul_byte (weight byte_field pre x) (weight byte_field xs x) in
    let term = mul_byte (f x) w in
    ap (λ t. interpolate_from ss (vals (weights (pre ++ x ∷ []) xs)) j (bit_xor b.0 (gf_mul t w.0)))
      e
    ∙ interpolate_from-interpolate j f ss xs (pre ++ x ∷ []) (x ∷ pre') (add_byte b term)
        (λ a.
          weight-append_one pre x a
          ∙ ap (λ t. mul_byte (factor x a) t) (same a)
          ∙ unfold weight in refl)
        h
    ∙ bit_xor_assoc b.0 term.0 (interpolate byte_field (x ∷ pre') xs f).0
    ∙ ap
        (λ (t : Byte). bit_xor b.0 (
          bit_xor (gf_mul (f x).0 (gf_mul t.0 (weight byte_field xs x).0))
            (interpolate byte_field (x ∷ pre') xs f).0))
        (same x)
