-- ===== src/Base/JsSet.antt =====
-- JavaScript's `Set`: distinct members in insertion order.
use mathlib.Core.Path.{◌≡◌, refl}
use mathlib.Core.Bool.{Bool, not, ◌&&◌, ◌||◌}
use mathlib.Core.List.{List, [], ◌∷◌, ◌++◌}
use native.Mathlib.Omega.{arith}
use vault_drive.Base.Tests.{if◌then◌else◌}
use vault_drive.Base.Lists.{any, any-append}
use vault_drive.Base.Keys.{StrictEq, ◌==◌}

module _ {ℓ} {A : Type ℓ} ⦃e : StrictEq A⦄ where
  unfoldable pub member : A → List A → Bool
  member a xs = any (λ x. x == a) xs

  unfoldable pub add : A → List A → List A
  unfolding member
  add a xs = if member a xs then xs else xs ++ a ∷ []

  -- `for (const x of ys) set.add(x)`
  unfoldable pub add_all : List A → List A → List A
  unfolding add
  add_all [] xs = xs
  add_all (y ∷ ys) xs = add_all ys (add y xs)

  -- `new Set(ys)`
  unfoldable pub of_list : List A → List A
  unfolding add_all
  of_list ys = add_all ys []

  unfoldable pub remove : A → List A → List A
  remove a [] = []
  remove a (x ∷ xs) = if x == a then remove a xs else x ∷ remove a xs

  pub member-append : (a : A) (xs ys : List A) → member a (xs ++ ys) ≡ (member a xs || member a ys)
  unfolding member
  member-append a xs ys = any-append _ xs ys

  member_one : (a b : A) → member b (a ∷ []) ≡ (a == b)
  unfolding member
  member_one a b = ground arith

  pub member-add : (a b : A) (xs : List A) → member b (add a xs) ≡ (a == b || member b xs)
  unfolding add
  member-add a b xs = ground (arith, e.same_iff a b, member-append b xs (a ∷ []), member_one a b)

  pub member-remove :
      (a b : A) (xs : List A) → member b (remove a xs) ≡ (not (a == b) && member b xs)
  unfolding member remove
  member-remove a b [] = ground arith
  member-remove a b (x ∷ xs) =
      ground (arith, e.same_iff a b, e.same_iff x a, e.same_iff x b, member-remove a b xs)

  pub member-cons : (x b : A) (xs : List A) → member b (x ∷ xs) ≡ (x == b || member b xs)
  unfolding member
  member-cons x b xs = refl

  pub member-add_all :
      (ys : List A) (b : A) (xs : List A) → member b (add_all ys xs) ≡ (member b ys || member b xs)
  unfolding add_all
  member-add_all [] b xs = unfold member in refl
  member-add_all (y ∷ ys) b xs =
      ground (arith, member-add_all ys b (add y xs), member-add y b xs, member-cons y b ys)

  pub member-of_list : (ys : List A) (b : A) → member b (of_list ys) ≡ member b ys
  unfolding of_list
  member-of_list ys b = unfold member in ground (arith, member-add_all ys b [])
