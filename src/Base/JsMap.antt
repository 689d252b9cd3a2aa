-- ===== src/Base/JsMap.antt =====
-- JavaScript's `Map`: entries in insertion order; `set` overwrites in place or appends.
use mathlib.Core.Path.{◌≡◌, refl, sym, subst}
use mathlib.Core.Logic.{inl, inr}
use mathlib.Core.Bool.{Bool}
use mathlib.Core.List.{List, [], ◌∷◌, map}
use mathlib.Core.Option.{Option, none, some}
use native.Mathlib.Omega.{arith}
use vault_drive.Base.Tests.{if◌then◌else◌, is_some, Bool-cases}
use vault_drive.Base.Lists.{All}
use vault_drive.Base.Keys.{StrictEq, ◌==◌, ==→eq}

abbrev pub JsMap {ℓ κ} : Type ℓ → Type κ → Type (ℓ ⊔ κ)
JsMap K V = List (K × V)

module _ {ℓ κ} {K : Type ℓ} {V : Type κ} where
  abbrev pub keys : JsMap K V → List K
  keys = map (λ e. e.0)

  abbrev pub values : JsMap K V → List V
  values = map (λ e. e.1)

module _ {ℓ κ} {K : Type ℓ} {V : Type κ} ⦃e : StrictEq K⦄ where
  unfoldable pub get : K → JsMap K V → Option V
  get k [] = none
  get k ((j, v) ∷ m) = if j == k then some v else get k m

  unfoldable pub has : K → JsMap K V → Bool
  unfolding get
  has k m = is_some (get k m)

  unfoldable pub set : K → V → JsMap K V → JsMap K V
  set k v [] = (k, v) ∷ []
  set k v ((j, w) ∷ m) = if j == k then (j, v) ∷ m else (j, w) ∷ set k v m

  unfoldable pub delete : K → JsMap K V → JsMap K V
  delete k [] = []
  delete k ((j, w) ∷ m) = if j == k then delete k m else (j, w) ∷ delete k m

  pub get-set :
      (k j : K) (v : V) (m : JsMap K V) → get j (set k v m) ≡ (if k == j then some v else get j m)
  unfolding get set
  get-set k j v [] = refl
  get-set k j v ((i, w) ∷ m) =
      ground (arith, e.same_iff k j, e.same_iff i k, e.same_iff i j, get-set k j v m)

  pub get-set_here : (k : K) (v : V) (m : JsMap K V) → get k (set k v m) ≡ some v
  get-set_here k v m = ground (arith, get-set k k v m, e.same_iff k k)

  pub get-delete :
      (k j : K) (m : JsMap K V) → get j (delete k m) ≡ (if k == j then none else get j m)
  unfolding get delete
  get-delete k j [] = ground arith
  get-delete k j ((i, w) ∷ m) =
      ground (arith, e.same_iff k j, e.same_iff i k, e.same_iff i j, get-delete k j m)

module _ {ℓ κ κ'} {K : Type ℓ} {V : Type κ} ⦃e : StrictEq K⦄ (P : K × V → Type κ') where
  pub All-set : (k : K) (v : V) (m : JsMap K V) → P (k, v) → All P m → All P (set k v m)
  unfolding set
  All-set k v [] p h = (p, tt)
  All-set k v ((j, w) ∷ m) p (q, h) = elim (Bool-cases (j == k)) [
    | inl found ↦ rw found (subst (λ i. P (i, v)) (sym (==→eq j k found)) p, h)
    | inr other ↦ rw other (q, All-set k v m p h)
  ]

  pub All-delete : (k : K) (m : JsMap K V) → All P m → All P (delete k m)
  unfolding delete
  All-delete k [] h = tt
  All-delete k ((j, w) ∷ m) (q, h) = elim (Bool-cases (j == k)) [
    | inl found ↦ rw found (All-delete k m h)
    | inr other ↦ rw other (q, All-delete k m h)
  ]

  pub get-All : (k : K) (v : V) (m : JsMap K V) → All P m → get k m ≡ some v → P (k, v)
  unfolding get
  get-All k v [] h found = cc found
  get-All k v ((j, w) ∷ m) (p, h) found = elim (Bool-cases (j == k)) [
    | inr other ↦ get-All k v m h (rw other at found)
    | inl same ↦
        let value : w ≡ v = cc (rw same at found) in
        subst (λ x. P (k, x)) value (subst (λ i. P (i, w)) (==→eq j k same) p)
  ]
