-- ===== src/Base/Sets.antt =====
-- Go's `map[K]struct{}` as a list of distinct keys; two of one size, one inside the other, agree.
use Prim.Native.Nat.{suc}
use mathlib.Core.Path.{◌≡◌, refl}
use mathlib.Core.Logic.{inl, inr}
use mathlib.Core.Bool.{Bool, true, false}
use mathlib.Core.List.{List, [], ◌∷◌}
use native.Mathlib.Omega.{arith}
use gitops_reverser.Base.Tests.{if◌then◌else◌, Bool-cases}
use gitops_reverser.Base.Eq.{EqType, ◌==◌}
use gitops_reverser.Base.Lists.{length, contains, all}

module _ {ℓ} {A : Type ℓ} ⦃e : EqType A⦄ where
  abbrev pub subset : List A → List A → Bool
  subset xs ys = all (λ x. contains x ys) xs

  abbrev pub Distinct : List A → Type 0
  Distinct [] = Unit
  Distinct (x ∷ xs) = (contains x xs ≡ false) × Distinct xs

  erase : A → List A → List A
  erase a [] = []
  erase a (x ∷ xs) = if x == a then xs else x ∷ erase a xs

  length-erase :
      (a : A) (xs : List A) → contains a xs ≡ true → length xs ≡ suc (length (erase a xs))
  unfolding erase
  length-erase a [] h = absurd (cc h)
  length-erase a (x ∷ xs) h = ground (arith, length-erase a xs)

  contains-erase :
      (a b : A) (xs : List A) → (a == b) ≡ false → contains b (erase a xs) ≡ contains b xs
  unfolding erase
  contains-erase a b [] h = refl
  contains-erase a b (x ∷ xs) h = ground (arith, contains-erase a b xs, e.beq_iff x a)

  subset-erase :
      (a : A) (xs ys : List A)
      → contains a xs ≡ false
      → subset xs ys ≡ true
      → subset xs (erase a ys) ≡ true
  subset-erase a [] ys h s = refl
  subset-erase a (x ∷ xs) ys h s =
      ground (arith, subset-erase a xs ys, contains-erase a x ys, e.beq_iff a x, e.beq_iff x a)

  -- distinct elements of a list that is no longer exhaust it
  pub subset_full :
      (xs ys : List A) (b : A)
      → Distinct xs
      → subset xs ys ≡ true
      → length xs ≡ length ys
      → contains b ys ≡ true
      → contains b xs ≡ true
  subset_full [] [] b d s l h = h
  subset_full [] (y ∷ ys) b d s l h = absurd (omega arith)
  subset_full (x ∷ xs) ys b d s l h = elim (Bool-cases (x == b)) [
    | inl q ↦ rw q
    | inr q ↦ rw q (
        subset_full xs (erase x ys) b (d.1) (subset-erase x xs ys (d.0) (ground arith))
          (ground (arith, length-erase x ys)) (ground (arith, contains-erase x b ys)))
  ]

  pub contains_of_subset :
      (xs ys : List A) (a : A) → subset xs ys ≡ true → contains a xs ≡ true → contains a ys ≡ true
  contains_of_subset [] ys a s h = absurd (cc h)
  contains_of_subset (x ∷ xs) ys a s h = elim (Bool-cases (x == a)) [
    | inl q ↦ ground (arith, e.beq_iff x a)
    | inr q ↦ contains_of_subset xs ys a (ground arith) (ground arith)
  ]
