-- ===== src/Base/Lists.antt =====
-- Lists measured by native numbers, Boolean quantifiers, and predicates by recursion.
use Prim.Native.Nat.{ℕ, suc, ◌+◌}
use mathlib.Core.Path.{◌≡◌, refl, sym, ap, ◌∙◌}
use mathlib.Core.Bool.{Bool, true, false, not, ◌&&◌, ◌||◌}
use mathlib.Core.Option.{Option, none, some}
use mathlib.Core.List.{List, [], ◌∷◌, ◌++◌}
use native.Mathlib.Omega.{arith}
use gitops_reverser.Base.Tests.{if◌then◌else◌}
use gitops_reverser.Base.Eq.{EqType, ◌==◌}

module _ {ℓ} {A : Type ℓ} where
  abbrev pub length : List A → ℕ
  length [] = 0
  length (x ∷ xs) = suc (length xs)

  pub append_nil : (xs : List A) → xs ++ [] ≡ xs
  append_nil [] = refl
  append_nil (x ∷ xs) = ap (λ ys. x ∷ ys) (append_nil xs)

  pub append_assoc : (xs ys zs : List A) → (xs ++ ys) ++ zs ≡ xs ++ (ys ++ zs)
  append_assoc [] ys zs = refl
  append_assoc (x ∷ xs) ys zs = ap (λ us. x ∷ us) (append_assoc xs ys zs)

  -- the element, if any, before the list
  abbrev pub onto_some : Option A → List A → List A
  onto_some none xs = xs
  onto_some (some x) xs = x ∷ xs

  pub length-append : (xs ys : List A) → length (xs ++ ys) ≡ length xs + length ys
  length-append [] ys = omega arith
  length-append (x ∷ xs) ys = omega (arith, length-append xs ys)

  abbrev pub any : (A → Bool) → List A → Bool
  any p [] = false
  any p (x ∷ xs) = p x || any p xs

  abbrev pub all : (A → Bool) → List A → Bool
  all p [] = true
  all p (x ∷ xs) = p x && all p xs

  abbrev pub filter : (A → Bool) → List A → List A
  filter p [] = []
  filter p (x ∷ xs) = let rest = filter p xs in if p x then x ∷ rest else rest

  pub any-append : (p : A → Bool) (xs ys : List A) → any p (xs ++ ys) ≡ (any p xs || any p ys)
  any-append p [] ys = refl
  any-append p (x ∷ xs) ys = ground (arith, any-append p xs ys)

module _ {ℓ} {A : Type ℓ} ⦃e : EqType A⦄ where
  abbrev pub contains : A → List A → Bool
  contains a = any (λ x. x == a)

abbrev pub All {ℓ κ} : {A : Type ℓ} → (A → Type κ) → List A → Type κ
All P [] = Unit
All P (x ∷ xs) = P x × All P xs

module _ {ℓ} {A : Type ℓ} where
  pub all-and : (p q : A → Bool) (xs : List A) → all (λ x. p x && q x) xs ≡ (all p xs && all q xs)
  all-and p q [] = refl
  all-and p q (x ∷ xs) = ground (arith, all-and p q xs)

  pub all-any-not :
      {B : Type ℓ} (p : A → B → Bool) (xs : List A) (ys : List B)
      → all (λ x. not (any (p x) ys)) xs ≡ not (any (λ y. any (λ x. p x y) xs) ys)
  all-any-not p xs [] = none_left xs
    where
      none_left : (xs : List A) → all (λ x. true) xs ≡ true
      none_left [] = refl
      none_left (x ∷ xs) = none_left xs
  all-any-not p xs (y ∷ ys) = ground (arith, split xs, all-any-not p xs ys)
    where
      split :
          (xs : List A)
          → all (λ x. not (p x y || any (p x) ys)) xs
            ≡ (not (any (λ x. p x y) xs) && all (λ x. not (any (p x) ys)) xs)
      split [] = refl
      split (x ∷ xs) = ground (arith, split xs)

module _ {ℓ} {A : Type ℓ} ⦃e : EqType A⦄ where
  pub all-contains :
      (p : A → Bool) (xs : List A) (a : A) → all p xs ≡ true → contains a xs ≡ true → p a ≡ true
  all-contains p [] a h c = absurd (cc c)
  all-contains p (x ∷ xs) a h c = ground (arith, all-contains p xs a, e.beq_iff x a)

  pub all_cong :
      (p q : A → Bool) (xs : List A)
      → ((a : A) → contains a xs ≡ true → p a ≡ q a)
      → all p xs ≡ all q xs
  all_cong p q [] h = refl
  all_cong p q (x ∷ xs) h =
      ground (arith, h x, (e.beq_iff x x).1 refl, all_cong p q xs (λ b c. h b (ground arith)))

  all_subset :
      (p : A → Bool) (xs ys : List A)
      → ((a : A) → contains a xs ≡ true → contains a ys ≡ true)
      → all p ys ≡ true
      → all p xs ≡ true
  all_subset p [] ys h a = refl
  all_subset p (x ∷ xs) ys h a = ground (
    arith,
    all-contains p ys x,
    h x,
    (e.beq_iff x x).1 refl,
    all_subset p xs ys (λ b c. h b (ground arith)),
  )

  -- lists with the same elements pass a test on all of them alike
  pub all_same_elements :
      (p : A → Bool) (xs ys : List A)
      → ((a : A) → contains a xs ≡ contains a ys)
      → all p xs ≡ all p ys
  all_same_elements p xs ys h =
      ground (arith, all_subset p xs ys (λ a c. sym (h a) ∙ c), all_subset p ys xs (λ a c. h a ∙ c))
