-- ===== src/Base/Keys.antt =====
-- `===` on the values that the program compares, as an interface with its law.
use Prim.Native.Nat.{ℕ}
use Prim.Native.String.{String}
use mathlib.Core.Path.{◌≡◌, refl}
use mathlib.Core.Logic.{◌↔◌}
use mathlib.Core.Bool.{Bool, true, false, ◌&&◌}
use mathlib.Core.List.{List, [], ◌∷◌}
use mathlib.Core.Option.{Option, none, some}
use native.Mathlib.Omega.{arith}
use text.Mathlib.Text.{◌==◌ as str_eq}
use text.Mathlib.TextEquality.{eq_iff}
use vault_drive.Base.Tests.{eqb, eqb_iff}

pub record StrictEq {ℓ} (A : Type ℓ) : Type ℓ where
  pub same : A → A → Bool
  pub same_iff : (a b : A) → (same a b ≡ true) ↔ (a ≡ b)

infix 50 ◌==◌
abbrev pub ◌==◌ {ℓ} : {A : Type ℓ} ⦃e : StrictEq A⦄ → A → A → Bool
◌==◌ ⦃e⦄ = e.same

instance abbrev pub text_eq : StrictEq String
text_eq = record { same = str_eq; same_iff = eq_iff }

instance abbrev pub number_eq : StrictEq ℕ
number_eq = record { same = eqb; same_iff = eqb_iff }

module _ {ℓ} {A : Type ℓ} ⦃e : StrictEq A⦄ where
  pub ==_refl : (a : A) → (a == a) ≡ true
  ==_refl a = (e.same_iff a a).1 refl

  pub ==→eq : (a b : A) → (a == b) ≡ true → a ≡ b
  ==→eq a b h = (e.same_iff a b).0 h

  abbrev pub option_same : Option A → Option A → Bool
  option_same none none = true
  option_same (some a) (some b) = a == b
  option_same _ _ = false

  pub option_same_iff : (a b : Option A) → (option_same a b ≡ true) ↔ (a ≡ b)
  option_same_iff none none = ground arith
  option_same_iff none (some b) = ground arith
  option_same_iff (some a) none = ground arith
  option_same_iff (some a) (some b) = ground (arith, e.same_iff a b)

  abbrev pub list_same : List A → List A → Bool
  list_same [] [] = true
  list_same (x ∷ xs) (y ∷ ys) = x == y && list_same xs ys
  list_same _ _ = false

  pub list_same_iff : (xs ys : List A) → (list_same xs ys ≡ true) ↔ (xs ≡ ys)
  list_same_iff [] [] = ground arith
  list_same_iff [] (y ∷ ys) = ground arith
  list_same_iff (x ∷ xs) [] = ground arith
  list_same_iff (x ∷ xs) (y ∷ ys) = ground (arith, e.same_iff x y, list_same_iff xs ys)

instance abbrev pub option_eq {ℓ} : {A : Type ℓ} ⦃e : StrictEq A⦄ → StrictEq (Option A)
option_eq = record { same = option_same; same_iff = option_same_iff }

instance abbrev pub list_eq {ℓ} : {A : Type ℓ} ⦃e : StrictEq A⦄ → StrictEq (List A)
list_eq = record { same = list_same; same_iff = list_same_iff }
