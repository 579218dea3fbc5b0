-- ===== src/Base/Text.antt =====
-- Text as lists of code points, where the source looks inside a string. A letter changes its case
-- as in ASCII, which covers the names of Kubernetes resources.
use Prim.Native.Nat.{ℕ, ◌+◌, ◌-◌, zero, suc}
use Prim.Native.Char.{code}
use Prim.Native.String
use Prim.Native.String.{String}
use mathlib.Core.Path.{◌≡◌, refl, ap, ◌∙◌}
use mathlib.Core.Logic.{◌↔◌, inl, inr}
use mathlib.Core.Bool.{Bool, true, false, ◌&&◌, ◌||◌}
use mathlib.Core.List.{List, [], ◌∷◌, ◌++◌, map}
use native.Mathlib.Omega.{arith}
use gitops_reverser.Base.Tests.{leb, if◌then◌else◌, Bool-cases}
use gitops_reverser.Base.Eq.{EqType, ◌==◌, nat_eq, eq_true, eq_refl}
use gitops_reverser.Base.Lists.{length, length-append}

abbrev pub codes : String → List ℕ
codes String.[] = []
codes (String.◌∷◌ c s) = code c ∷ codes s

abbrev pub codes_beq : List ℕ → List ℕ → Bool
codes_beq [] [] = true
codes_beq [] (d ∷ t) = false
codes_beq (c ∷ s) [] = false
codes_beq (c ∷ s) (d ∷ t) = c == d && codes_beq s t

pub codes_beq_iff : (s t : List ℕ) → (codes_beq s t ≡ true) ↔ (s ≡ t)
codes_beq_iff [] [] = ground arith
codes_beq_iff [] (d ∷ t) = ground arith
codes_beq_iff (c ∷ s) [] = ground arith
codes_beq_iff (c ∷ s) (d ∷ t) = ground (arith, codes_beq_iff s t)

instance unfoldable pub codes_eq : EqType (List ℕ)
codes_eq = record { beq = codes_beq; beq_iff = codes_beq_iff }

-- strings.HasPrefix(s, p)
unfoldable pub has_prefix : List ℕ → List ℕ → Bool
has_prefix s [] = true
has_prefix [] (d ∷ p) = false
has_prefix (c ∷ s) (d ∷ p) = c == d && has_prefix s p

pub has_prefix_iff : (s p : List ℕ) → (has_prefix s p ≡ true) ↔ ((t : List ℕ) × (s ≡ p ++ t))
unfolding has_prefix
has_prefix_iff s [] = ((λ h. (s, refl)), (λ h. refl))
has_prefix_iff [] (d ∷ p) = ((λ h. absurd (cc h)), (λ h. absurd (cc (h.1))))
has_prefix_iff (c ∷ s) (d ∷ p) =
    let ih = has_prefix_iff s p in
    (
      (λ h. ((ih.0 (ground arith)).0, ground (arith, (ih.0 (ground arith)).1))),
      (λ h. ground (arith, h.1, ih.1 (h.0, ground (arith, h.1)))),
    )

-- strings.HasSuffix(s, p)
unfoldable pub has_suffix : List ℕ → List ℕ → Bool
has_suffix [] p = [] == p
has_suffix (c ∷ s) p = (c ∷ s) == p || has_suffix s p

abbrev pub take : ℕ → List ℕ → List ℕ
take n [] = []
take zero (c ∷ s) = []
take (suc n) (c ∷ s) = c ∷ take n s

-- s[:len(s)-n]
abbrev pub without_last : ℕ → List ℕ → List ℕ
without_last n s = take (length s - n) s

abbrev pub lower : ℕ → ℕ
lower c = if leb 65 c && leb c 90 then c + 32 else c

-- strings.ToLower(s)
unfoldable pub to_lower : List ℕ → List ℕ
to_lower s = map lower s

-- strings.EqualFold(s, t)
unfoldable pub equal_fold : List ℕ → List ℕ → Bool
unfolding to_lower
equal_fold s t = to_lower s == to_lower t

pub to_lower_idem : (s : List ℕ) → to_lower (to_lower s) ≡ to_lower s
unfolding to_lower
to_lower_idem [] = refl
to_lower_idem (c ∷ s) = ground (arith, to_lower_idem s)

pub take-append : (p t : List ℕ) → take (length p) (p ++ t) ≡ p
take-append [] [] = refl
take-append [] (c ∷ t) = refl
take-append (c ∷ p) t = ap (λ s. c ∷ s) (take-append p t)

pub without_last-append : (p t : List ℕ) → without_last (length t) (p ++ t) ≡ p
without_last-append p t =
    ap (λ n. take n (p ++ t)) (omega (arith, length-append p t)) ∙ take-append p t

pub has_suffix-of : (s p : List ℕ) → has_suffix s p ≡ true → (q : List ℕ) × (s ≡ q ++ p)
unfolding has_suffix
has_suffix-of [] p h = ([], eq_true [] p h)
has_suffix-of (c ∷ s) p h = elim (Bool-cases ((c ∷ s) == p)) [
  | inl same ↦ ([], eq_true (c ∷ s) p same)
  | inr other ↦ let (q, e) = has_suffix-of s p (ground arith) in (c ∷ q, ap (λ s. c ∷ s) e)
]

pub has_suffix-append : (q p : List ℕ) → has_suffix (q ++ p) p ≡ true
unfolding has_suffix
has_suffix-append [] [] = ground (arith, eq_refl {A = List ℕ} [])
has_suffix-append [] (d ∷ p) = ground (arith, eq_refl (d ∷ p))
has_suffix-append (c ∷ q) p = ground (arith, has_suffix-append q p)

-- the texts joined
abbrev pub concat_text : List String → String
concat_text [] = ""
concat_text (s ∷ ss) = String.◌++◌ s (concat_text ss)
