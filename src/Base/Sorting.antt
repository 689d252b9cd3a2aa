-- ===== src/Base/Sorting.antt =====
-- `Array.prototype.sort`, which is stable: `precedes a b` is a comparator's negative answer.
use Prim.Native.Nat.{ℕ, zero, suc, ◌+◌}
use mathlib.Core.Path.{◌≡◌}
use mathlib.Core.Bool.{Bool, true, false}
use mathlib.Core.List.{List, [], ◌∷◌}
use native.Mathlib.Omega.{arith}
use mathlib.Core.Logic.{inl, inr}
use vault_drive.Base.Tests.{if◌then◌else◌, Bool-cases}
use vault_drive.Base.Lists.{length, take, All, All-map, All-take}

module _ {ℓ} {A : Type ℓ} (precedes : A → A → Bool) where
  -- A new element goes before the first one that it precedes.
  unfoldable pub insert_sorted : A → List A → List A
  insert_sorted x [] = x ∷ []
  insert_sorted x (y ∷ ys) = if precedes x y then x ∷ y ∷ ys else y ∷ insert_sorted x ys

  unfoldable pub sort_from : List A → List A → List A
  unfolding insert_sorted
  sort_from sorted [] = sorted
  sort_from sorted (x ∷ xs) = sort_from (insert_sorted x sorted) xs

  unfoldable pub sort : List A → List A
  unfolding sort_from
  sort xs = sort_from [] xs

  length-insert_sorted : (x : A) (ys : List A) → length (insert_sorted x ys) ≡ length ys + 1
  unfolding insert_sorted
  length-insert_sorted x [] = omega arith
  length-insert_sorted x (y ∷ ys) = ground (arith, length-insert_sorted x ys)

  length-sort_from : (ys xs : List A) → length (sort_from ys xs) ≡ length ys + length xs
  unfolding sort_from
  length-sort_from ys [] = omega arith
  length-sort_from ys (x ∷ xs) =
      omega (arith, length-sort_from (insert_sorted x ys) xs, length-insert_sorted x ys)

  pub length-sort : (xs : List A) → length (sort xs) ≡ length xs
  unfolding sort
  length-sort xs = omega (arith, length-sort_from [] xs)

  -- No element precedes one that stands before it.
  abbrev pub Sorted : List A → Type ℓ
  Sorted [] = Unit
  Sorted (x ∷ xs) = All (λ y. precedes y x ≡ false) xs × Sorted xs

module _ {ℓ κ} {A : Type ℓ} (precedes : A → A → Bool) (P : A → Type κ) where
  All-insert_sorted : (x : A) (ys : List A) → P x → All P ys → All P (insert_sorted precedes x ys)
  unfolding insert_sorted
  All-insert_sorted x [] p h = (p, tt)
  All-insert_sorted x (y ∷ ys) p (q, h) = elim (Bool-cases (precedes x y)) [
    | inl before ↦ rw before (p, (q, h))
    | inr after ↦ rw after (q, All-insert_sorted x ys p h)
  ]

  All-sort_from : (ys xs : List A) → All P ys → All P xs → All P (sort_from precedes ys xs)
  unfolding sort_from
  All-sort_from ys [] h k = h
  All-sort_from ys (x ∷ xs) h (p, k) =
      All-sort_from (insert_sorted precedes x ys) xs (All-insert_sorted x ys p h) k

  pub All-sort : (xs : List A) → All P xs → All P (sort precedes xs)
  unfolding sort
  All-sort xs h = All-sort_from [] xs tt h

  All-insert_sorted_back :
      (x : A) (ys : List A) → All P (insert_sorted precedes x ys) → P x × All P ys
  unfolding insert_sorted
  All-insert_sorted_back x [] h = h
  All-insert_sorted_back x (y ∷ ys) h = elim (Bool-cases (precedes x y)) [
    | inl before ↦ rw before at h
    | inr after ↦
        let (q, h') = rw after at h in let (p, k) = All-insert_sorted_back x ys h' in (p, (q, k))
  ]

  All-sort_from_back : (ys xs : List A) → All P (sort_from precedes ys xs) → All P ys × All P xs
  unfolding sort_from
  All-sort_from_back ys [] h = (h, tt)
  All-sort_from_back ys (x ∷ xs) h =
      let (h', k) = All-sort_from_back (insert_sorted precedes x ys) xs h in
      let (p, k') = All-insert_sorted_back x ys h' in (k', (p, k))

  -- Sorting drops nothing.
  pub All-sort_back : (xs : List A) → All P (sort precedes xs) → All P xs
  unfolding sort
  All-sort_back xs h = (All-sort_from_back [] xs h).1

-- The comparator is a strict weak order.
module _ {ℓ} {A : Type ℓ} (precedes : A → A → Bool)
    (asymmetric : (x y : A) → precedes x y ≡ true → precedes y x ≡ false)
    (negatively : (x y z : A)
      → precedes y x ≡ false
      → precedes z y ≡ false
      → precedes z x ≡ false) where
  insert_sorted-Sorted :
      (x : A) (ys : List A) → Sorted precedes ys → Sorted precedes (insert_sorted precedes x ys)
  unfolding insert_sorted
  insert_sorted-Sorted x [] h = (tt, tt)
  insert_sorted-Sorted x (y ∷ ys) (above, h) = elim (Bool-cases (precedes x y)) [
    | inl before ↦ rw before (
      (asymmetric x y before, All-map ys (λ z e. negatively x y z (asymmetric x y before) e) above),
      (above, h),
    )
    | inr after ↦ rw after (
      All-insert_sorted precedes (λ z. precedes z y ≡ false) x ys after above,
      insert_sorted-Sorted x ys h,
    )
  ]

  sort_from-Sorted :
      (ys xs : List A) → Sorted precedes ys → Sorted precedes (sort_from precedes ys xs)
  unfolding sort_from
  sort_from-Sorted ys [] h = h
  sort_from-Sorted ys (x ∷ xs) h =
      sort_from-Sorted (insert_sorted precedes x ys) xs (insert_sorted-Sorted x ys h)

  pub sort-Sorted : (xs : List A) → Sorted precedes (sort precedes xs)
  unfolding sort
  sort-Sorted xs = sort_from-Sorted [] xs tt

pub Sorted-take {ℓ} :
    {A : Type ℓ} (precedes : A → A → Bool) (n : ℕ) (xs : List A)
    → Sorted precedes xs
    → Sorted precedes (take n xs)
Sorted-take precedes zero xs h = tt
Sorted-take precedes (suc n) [] h = tt
Sorted-take precedes (suc n) (x ∷ xs) (above, h) =
    (All-take (λ y. precedes y x ≡ false) n xs above, Sorted-take precedes n xs h)
