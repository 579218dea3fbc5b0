-- ===== src/Paths/Sensitive.antt =====
-- Which lists of additional sensitive types are refused.
use gitops_reverser.Base.{
  ℕ, ◌≡◌, refl, Bool, true, false, not, ◌&&◌, ◌||◌, List, [], ◌∷◌, ltb, arith, Bool-cases, inl, inr,
}
use gitops_reverser.Base.Lists.{any, length}
use gitops_reverser.Base.Result.{Result, failed, ok, Result-cases}
use gitops_reverser.Base.Table.{is_empty}
use gitops_reverser.Base.Text.{codes_eq, to_lower}
use gitops_reverser.Paths.Clean.{trim_space, split_slash}
use gitops_reverser.Paths.Identifier.{
  SensitiveResourceKey, sensitive_key_eq, normalize_sensitive_resource_key, parse_parts,
  parse_sensitive_resource_entry, split_comma, add_entries, parse_sensitive_resource_policy,
}

abbrev pub is_failed : {E A : Type 0} → Result E A → Bool
is_failed (failed e) = true
is_failed (ok a) = false

abbrev pub is_blank : List ℕ → Bool
is_blank s = is_empty (trim_space s)

-- more than two parts between slashes, or a blank one
unfoldable pub is_malformed : List ℕ → Bool
is_malformed entry =
    let parts = split_slash (trim_space entry) in any is_blank parts || ltb 2 (length parts)

is_empty-to_lower : (s : List ℕ) → is_empty (to_lower s) ≡ is_empty s
unfolding is_empty to_lower
is_empty-to_lower [] = refl
is_empty-to_lower (c ∷ s) = refl

parts-failed :
    (s : List ℕ) (ss : List (List ℕ))
    → is_failed (parse_parts (s ∷ ss)) ≡ (any is_blank (s ∷ ss) || ltb 2 (length (s ∷ ss)))
unfolding parse_parts normalize_sensitive_resource_key
parts-failed r [] = ground (arith, is_empty-to_lower (trim_space r))
parts-failed g (r ∷ []) =
    ground (arith, is_empty-to_lower (trim_space g), is_empty-to_lower (trim_space r))
parts-failed a (b ∷ c ∷ ss) = ground arith

split_slash-cons : (s : List ℕ) → is_empty (split_slash s) ≡ false
unfolding split_slash is_empty
split_slash-cons [] = refl
split_slash-cons (c ∷ s) = ground (arith, split_slash-cons s)

entry-failed :
    (entry : List ℕ) → is_failed (parse_sensitive_resource_entry entry) ≡ is_malformed entry
unfolding parse_sensitive_resource_entry is_malformed
entry-failed entry = elim (Bool-cases (is_empty (trim_space entry))) [
  | inl blank ↦
      rw (empty (trim_space entry) blank)
        (unfold split_slash in unfold is_empty in unfold trim_space in refl)
  | inr more ↦
      rw more (parted (split_slash (trim_space entry)) (split_slash-cons (trim_space entry)))
]
  where
    empty : (s : List ℕ) → is_empty s ≡ true → s ≡ []
    empty [] h = refl
    empty (c ∷ s) h = absurd (unfold is_empty in cc h)

    parted :
        (ss : List (List ℕ))
        → is_empty ss ≡ false
        → is_failed (parse_parts ss) ≡ (any is_blank ss || ltb 2 (length ss))
    parted [] h = absurd (unfold is_empty in cc h)
    parted (s ∷ ss) h = parts-failed s ss

add_entries-failed :
    (keys : List SensitiveResourceKey) (entries : List (List ℕ))
    → is_failed (add_entries keys entries) ≡ any is_malformed entries
unfolding add_entries
add_entries-failed keys [] = refl
add_entries-failed keys (entry ∷ entries) =
    elim (Result-cases (parse_sensitive_resource_entry entry)) [
      | inl (e, bad) ↦ ground (arith, bad, entry-failed entry)
      | inr (k, good) ↦ ground (
        arith,
        good,
        entry-failed entry,
        add_entries-failed keys entries,
        add_entries-failed (k ∷ keys) entries,
      )
    ]

-- The list of additional sensitive types is refused exactly when it is not blank and one of its
-- entries, between commas, has more than two parts between slashes or a blank part.
pub parse_policy_refused :
    (additional : List ℕ)
    → is_failed (parse_sensitive_resource_policy additional)
      ≡ (not (is_blank additional) && any is_malformed (split_comma additional))
unfolding parse_sensitive_resource_policy
parse_policy_refused additional = ground (arith, add_entries-failed [] (split_comma additional))
