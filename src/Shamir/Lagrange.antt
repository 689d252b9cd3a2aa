-- ===== src/Shamir/Lagrange.antt =====
-- Lagrange interpolation at zero over a field in which every element is its own negative: the
-- mathematics behind `shamirReconstruct`, with the loops of the code left aside.
use vault_drive.Base.{
  ℕ, suc, ◌≤◌, ◌≡◌, ◌≢◌, refl, sym, ap, ap₂, ◌∙◌, fun_ext, List, [], ◌∷◌, length, arith,
}

pub record BinaryField : Type 1 where
  pub F : Type 0
  pub zero : F
  pub one : F
  pub ◌⊕◌ : F → F → F
  pub ◌⊗◌ : F → F → F
  pub inv : F → F
  pub add_comm : (a b : F) → ◌⊕◌ a b ≡ ◌⊕◌ b a
  pub add_assoc : (a b c : F) → ◌⊕◌ (◌⊕◌ a b) c ≡ ◌⊕◌ a (◌⊕◌ b c)
  pub add_self : (a : F) → ◌⊕◌ a a ≡ zero
  pub add-zero : (a : F) → ◌⊕◌ a zero ≡ a
  pub mul_comm : (a b : F) → ◌⊗◌ a b ≡ ◌⊗◌ b a
  pub mul_assoc : (a b c : F) → ◌⊗◌ (◌⊗◌ a b) c ≡ ◌⊗◌ a (◌⊗◌ b c)
  pub mul-one : (a : F) → ◌⊗◌ a one ≡ a
  pub mul-zero : (a : F) → ◌⊗◌ a zero ≡ zero
  pub add-mul : (a b c : F) → ◌⊗◌ (◌⊕◌ a b) c ≡ ◌⊕◌ (◌⊗◌ a c) (◌⊗◌ b c)
  pub mul-inv : (a : F) → a ≢ zero → ◌⊗◌ a (inv a) ≡ one

module _ (field : BinaryField) where
  infixl 65 ◌⊕◌
  infixl 70 ◌⊗◌
  open field use {
    F, zero, one, ◌⊕◌, ◌⊗◌, inv, add_comm, add_assoc, add_self, add-zero, mul_comm, mul_assoc,
    mul-one, mul-zero, add-mul, mul-inv,
  }

  pub mul_left_comm : (a b c : F) → a ⊗ (b ⊗ c) ≡ b ⊗ (a ⊗ c)
  mul_left_comm a b c = grind (arith, mul_assoc, mul_comm)

  add_left_comm : (a b c : F) → a ⊕ (b ⊕ c) ≡ b ⊕ (a ⊕ c)
  add_left_comm a b c = grind (arith, add_assoc, add_comm)

  mul-add : (a b c : F) → a ⊗ (b ⊕ c) ≡ a ⊗ b ⊕ a ⊗ c
  mul-add a b c = mul_comm _ _ ∙ add-mul b c a ∙ ap₂ ◌⊕◌ (mul_comm b a) (mul_comm c a)

  zero-mul : (a : F) → zero ⊗ a ≡ zero
  zero-mul a = mul_comm _ _ ∙ mul-zero a

  one-mul : (a : F) → one ⊗ a ≡ a
  one-mul a = mul_comm _ _ ∙ mul-one a

  pub zero-add : (a : F) → zero ⊕ a ≡ a
  zero-add a = add_comm _ _ ∙ add-zero a

  add_four : (a b c d : F) → a ⊕ b ⊕ (c ⊕ d) ≡ a ⊕ c ⊕ (b ⊕ d)
  add_four a b c d = simp (add_assoc, add_comm, add_left_comm)

  shuffle : (d q y i v w : F) → (d ⊗ q) ⊗ (((y ⊗ i) ⊗ v) ⊗ w) ≡ (d ⊗ i) ⊗ (y ⊗ (q ⊗ (v ⊗ w)))
  shuffle d q y i v w = simp (mul_assoc, mul_comm, mul_left_comm)

  -- Adding the same element twice changes nothing.
  add_add_self : (a b : F) → a ⊕ (a ⊕ b) ≡ b
  add_add_self a b = sym (add_assoc a a b) ∙ ap (λ t. t ⊕ b) (add_self a) ∙ zero-add b

  pub eq_of_add-eq-zero : (a b : F) → a ⊕ b ≡ zero → a ≡ b
  eq_of_add-eq-zero a b e = sym (add-zero a) ∙ ap (λ t. a ⊕ t) (sym e) ∙ add_add_self a b

  mul_cancel : (a b c : F) → a ≢ zero → a ⊗ b ≡ a ⊗ c → b ≡ c
  mul_cancel a b c h e = sym (undo b) ∙ ap (λ t. inv a ⊗ t) e ∙ undo c
    where
      undo : (t : F) → inv a ⊗ (a ⊗ t) ≡ t
      undo t =
          sym (mul_assoc _ _ _) ∙ ap (λ u. u ⊗ t) (mul_comm (inv a) a ∙ mul-inv a h) ∙ one-mul t

  -- The basis factor of node `a` against the nodes `xs`: the product of `x / (a + x)`.
  unfoldable pub weight : List F → F → F
  weight [] a = one
  weight (x ∷ xs) a = (x ⊗ inv (a ⊕ x)) ⊗ weight xs a

  -- The interpolant at zero of `f` on the nodes `xs`, where `pre` are the nodes already passed.
  unfoldable pub interpolate : List F → List F → (F → F) → F
  interpolate pre [] f = zero
  interpolate pre (x ∷ xs) f = f x ⊗ (weight pre x ⊗ weight xs x) ⊕ interpolate (x ∷ pre) xs f

  abbrev pub Fresh : F → List F → Type 0
  Fresh x [] = Unit
  Fresh x (y ∷ ys) = (x ≢ y) × Fresh x ys

  abbrev pub Distinct : List F → Type 0
  Distinct [] = Unit
  Distinct (x ∷ xs) = Fresh x xs × Distinct xs

  -- The coefficients' polynomial, lowest first.
  unfoldable pub eval : List F → F → F
  eval [] a = zero
  eval (c ∷ cs) a = c ⊕ a ⊗ eval cs a

  interpolate-add :
      (xs pre : List F) (f g : F → F)
      → interpolate pre xs (λ a. f a ⊕ g a) ≡ interpolate pre xs f ⊕ interpolate pre xs g
  unfolding interpolate
  interpolate-add [] pre f g = sym (add-zero zero)
  interpolate-add (x ∷ xs) pre f g =
      ap₂ ◌⊕◌ (add-mul (f x) (g x) _) (interpolate-add xs (x ∷ pre) f g) ∙ add_four _ _ _ _

  interpolate-mul :
      (xs pre : List F) (c : F) (f : F → F)
      → interpolate pre xs (λ a. c ⊗ f a) ≡ c ⊗ interpolate pre xs f
  unfolding interpolate
  interpolate-mul [] pre c f = sym (mul-zero c)
  interpolate-mul (x ∷ xs) pre c f =
      ap₂ ◌⊕◌ (mul_assoc c (f x) _) (interpolate-mul xs (x ∷ pre) c f) ∙ sym (mul-add c _ _)

  -- Only the weights of the passed nodes matter.
  pub interpolate_passed :
      (xs pre pre' : List F) (f : F → F)
      → ((a : F) → weight pre a ≡ weight pre' a)
      → interpolate pre xs f ≡ interpolate pre' xs f
  unfolding interpolate weight
  interpolate_passed [] pre pre' f h = refl
  interpolate_passed (x ∷ xs) pre pre' f h =
      ap₂ ◌⊕◌ (ap (λ t. f x ⊗ (t ⊗ weight xs x)) (h x))
        (interpolate_passed xs (x ∷ pre) (x ∷ pre') f (λ a. ap (λ t. (x ⊗ inv (a ⊕ x)) ⊗ t) (h a)))

  one_inside : (u w : F) → u ⊗ one ⊗ w ≡ one ⊗ (u ⊗ w)
  one_inside u w = ap (λ t. t ⊗ w) (mul-one u) ∙ sym (one-mul _)

  interpolate_swap :
      (y z : F) (ys : List F) (f : F → F)
      → interpolate [] (y ∷ z ∷ ys) f ≡ interpolate [] (z ∷ y ∷ ys) f
  unfolding interpolate weight
  interpolate_swap y z ys f =
      let both = λ (a : F). mul_left_comm (z ⊗ inv (a ⊕ z)) (y ⊗ inv (a ⊕ y)) one in
      add_left_comm _ _ _
      ∙ ap₂ ◌⊕◌ (ap (λ t. f z ⊗ t) (one_inside _ _)) (
          ap₂ ◌⊕◌ (ap (λ t. f y ⊗ t) (sym (one_inside _ _)))
            (interpolate_passed ys (z ∷ y ∷ []) (y ∷ z ∷ []) f both))

  -- A factor that vanishes at a passed node takes that node away.
  interpolate_factor :
      (xs pre pre' : List F) (y : F) (q : F → F)
      → ((a : F) → weight pre a ≡ (y ⊗ inv (a ⊕ y)) ⊗ weight pre' a)
      → Fresh y xs
      → interpolate pre xs (λ a. (a ⊕ y) ⊗ q a) ≡ y ⊗ interpolate pre' xs q
  unfolding interpolate weight
  interpolate_factor [] pre pre' y q h fresh = sym (mul-zero y)
  interpolate_factor (x ∷ xs) pre pre' y q h (ne, fresh) =
      ap₂ ◌⊕◌
        (ap (λ t. (x ⊕ y) ⊗ q x ⊗ (t ⊗ weight xs x)) (h x)
          ∙ shuffle _ _ _ _ _ _
          ∙ ap (λ t. t ⊗ (y ⊗ (q x ⊗ (weight pre' x ⊗ weight xs x))))
              (mul-inv (x ⊕ y) (λ e. ne (sym (eq_of_add-eq-zero x y e))))
          ∙ one-mul _)
        (interpolate_factor xs (x ∷ pre) (x ∷ pre') y q
          (λ a. ap (λ t. (x ⊗ inv (a ⊕ x)) ⊗ t) (h a) ∙ mul_left_comm _ _ _) fresh)
      ∙ sym (mul-add y _ _)

  -- The same for the first node.
  interpolate_head_factor :
      (y : F) (ys : List F) (q : F → F)
      → Fresh y ys
      → interpolate [] (y ∷ ys) (λ a. (a ⊕ y) ⊗ q a) ≡ y ⊗ interpolate [] ys q
  unfolding interpolate
  interpolate_head_factor y ys q fresh =
      ap₂ ◌⊕◌
        (ap (λ t. t ⊗ q y ⊗ (weight [] y ⊗ weight ys y)) (add_self y)
          ∙ ap (λ t. t ⊗ (weight [] y ⊗ weight ys y)) (zero-mul (q y))
          ∙ zero-mul _)
        (interpolate_factor ys (y ∷ []) [] y q (λ a. unfold weight in refl) fresh)
      ∙ zero-add _

  interpolate_node :
      (y : F) (ys : List F)
      → Fresh y ys
      → interpolate [] (y ∷ ys) (λ a. a) ⊕ y ⊗ interpolate [] (y ∷ ys) (λ a. one)
        ≡ y ⊗ interpolate [] ys (λ a. one)
  interpolate_node y ys fresh =
      ap (λ t. interpolate [] (y ∷ ys) (λ a. a) ⊕ t)
        (sym (interpolate-mul (y ∷ ys) [] y (λ a. one)))
      ∙ sym (interpolate-add (y ∷ ys) [] (λ a. a) (λ a. y ⊗ one))
      ∙ ap (interpolate [] (y ∷ ys))
          (fun_ext (λ a. ap (λ t. a ⊕ t) (mul-one y) ∙ sym (mul-one (a ⊕ y))))
      ∙ interpolate_head_factor y ys (λ a. one) fresh

  -- Two equations for the unknowns `i` and `u` leave `u` no choice.
  solve : (i u y z : F) → y ≢ z → i ⊕ y ⊗ u ≡ y → i ⊕ z ⊗ u ≡ z → u ≡ one
  solve i u y z ne p q =
      mul_cancel (y ⊕ z) u one (λ e. ne (eq_of_add-eq-zero y z e))
        (add-mul y z u
          ∙ sym (zero-add _)
          ∙ ap (λ t. t ⊕ (y ⊗ u ⊕ z ⊗ u)) (sym (add_self i))
          ∙ add_four i i (y ⊗ u) (z ⊗ u)
          ∙ ap₂ ◌⊕◌ p q
          ∙ sym (mul-one _))

  -- The basis sums to one.
  interpolate-one :
      (ys : List F) (y : F) → Distinct (y ∷ ys) → interpolate [] (y ∷ ys) (λ a. one) ≡ one
  interpolate-one [] y d = unfold interpolate weight in (add-zero _ ∙ one-mul _ ∙ one-mul _)
  interpolate-one (z ∷ ys) y ((ne, fresh_y), (fresh_z, distinct)) =
      let at_y =
        interpolate_node y (z ∷ ys) (ne, fresh_y)
        ∙ ap (λ t. y ⊗ t) (interpolate-one ys z (fresh_z, distinct))
        ∙ mul-one y in
      let at_z =
        interpolate_node z (y ∷ ys) ((λ e. ne (sym e)), fresh_z)
        ∙ ap (λ t. z ⊗ t) (interpolate-one ys y (fresh_y, distinct))
        ∙ mul-one z in
      solve _ _ y z ne at_y (
        ap₂ (λ s t. s ⊕ z ⊗ t) (interpolate_swap y z ys (λ a. a))
          (interpolate_swap y z ys (λ a. one))
        ∙ at_z)

  -- One round of a loop that keeps the power `p` of `i`, and its two ends.
  pub horner_step : (v p i c e : F) → v ⊕ c ⊗ (p ⊗ i) ⊕ p ⊗ i ⊗ (i ⊗ e) ≡ v ⊕ p ⊗ (i ⊗ (c ⊕ i ⊗ e))
  horner_step v p i c e = simp (mul-add, mul_assoc, mul_comm, mul_left_comm, add_assoc)

  pub horner_end : (v p i : F) → v ⊕ p ⊗ (i ⊗ zero) ≡ v
  horner_end v p i = simp (mul-zero, add-zero)

  pub horner_start : (c i e : F) → c ⊕ one ⊗ (i ⊗ e) ≡ c ⊕ i ⊗ e
  horner_start c i e = ap (λ t. c ⊕ t) (one-mul _)

  pub eval-zero : (c : F) (cs : List F) → eval (c ∷ cs) zero ≡ c
  unfolding eval
  eval-zero c cs = ap (λ t. c ⊕ t) (zero-mul _) ∙ add-zero c

  -- Synthetic division by `a + y`: the quotient's coefficients.
  quotient : List F → F → List F
  quotient [] y = []
  quotient (c ∷ []) y = []
  quotient (c ∷ d ∷ cs) y = eval (d ∷ cs) y ∷ quotient (d ∷ cs) y

  length-quotient : (c : F) (cs : List F) (y : F) → length (quotient (c ∷ cs) y) ≡ length cs
  unfolding quotient
  length-quotient c [] y = refl
  length-quotient c (d ∷ cs) y = ap suc (length-quotient d cs y)

  division_step : (c a y e q : F) → c ⊕ a ⊗ (e ⊕ (a ⊕ y) ⊗ q) ≡ c ⊕ y ⊗ e ⊕ (a ⊕ y) ⊗ (e ⊕ a ⊗ q)
  division_step c a y e q = simp (
    mul-add, add-mul, mul_assoc, mul_comm, mul_left_comm, add_assoc, add_comm, add_left_comm,
    add_add_self,
  )

  eval-quotient : (cs : List F) (y a : F) → eval cs a ≡ eval cs y ⊕ (a ⊕ y) ⊗ eval (quotient cs y) a
  unfolding eval quotient
  eval-quotient [] y a = sym (zero-add _ ∙ mul-zero _)
  eval-quotient (c ∷ []) y a =
      ap (λ t. c ⊕ t) (mul-zero a ∙ sym (mul-zero y))
      ∙ sym (add-zero _)
      ∙ ap (λ t. c ⊕ y ⊗ zero ⊕ t) (sym (mul-zero _))
  eval-quotient (c ∷ d ∷ cs) y a =
      ap (λ t. c ⊕ a ⊗ t) (eval-quotient (d ∷ cs) y a) ∙ division_step c a y _ _

  length-quotient-le :
      (cs : List F) (y : F) (n : ℕ) → length cs ≤ suc n → length (quotient cs y) ≤ n
  length-quotient-le [] y n h = unfold quotient in omega arith
  length-quotient-le (c ∷ cs) y n h = omega (arith, length-quotient c cs y)

  -- On a single node a constant is met.
  interpolate_single :
      (y : F) (cs : List F) → length cs ≤ 1 → interpolate [] (y ∷ []) (eval cs) ≡ eval cs zero
  unfolding interpolate weight eval
  interpolate_single y [] h = add-zero _ ∙ zero-mul _
  interpolate_single y (c ∷ []) h =
      add-zero _
      ∙ ap (λ t. (c ⊕ y ⊗ zero) ⊗ t) (one-mul one)
      ∙ mul-one _
      ∙ ap (λ t. c ⊕ t) (mul-zero y ∙ sym (mul-zero zero))
  interpolate_single y (c ∷ d ∷ cs) h = absurd (omega arith)

  -- Interpolation at zero of a polynomial on at least as many distinct nodes as it has
  -- coefficients gives its value at zero.
  pub interpolate-eval :
      (ys : List F) (y : F) (cs : List F)
      → Distinct (y ∷ ys)
      → length cs ≤ length (y ∷ ys)
      → interpolate [] (y ∷ ys) (eval cs) ≡ eval cs zero
  interpolate-eval [] y cs d h = interpolate_single y cs h
  interpolate-eval (z ∷ ys) y cs (fresh, distinct) h =
      let q = eval (quotient cs y) in
      let p = eval cs y in
      ap (interpolate [] (y ∷ z ∷ ys))
        (fun_ext (λ a. eval-quotient cs y a ∙ ap (λ t. t ⊕ (a ⊕ y) ⊗ q a) (sym (mul-one p))))
      ∙ interpolate-add (y ∷ z ∷ ys) [] (λ a. p ⊗ one) (λ a. (a ⊕ y) ⊗ q a)
      ∙ ap₂ ◌⊕◌
          (interpolate-mul (y ∷ z ∷ ys) [] p (λ a. one)
            ∙ ap (λ t. p ⊗ t) (interpolate-one (z ∷ ys) y (fresh, distinct))
            ∙ mul-one p)
          (interpolate_head_factor y (z ∷ ys) q fresh
            ∙ ap (λ t. y ⊗ t)
                (interpolate-eval ys z (quotient cs y) distinct
                  (length-quotient-le cs y (length (z ∷ ys)) h))
            ∙ ap (λ t. t ⊗ q zero) (sym (zero-add y)))
      ∙ sym (eval-quotient cs y zero)
