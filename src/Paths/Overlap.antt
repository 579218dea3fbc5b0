-- ===== src/Paths/Overlap.antt =====
-- internal/controller/gittarget_path_overlap.go: whether two GitTargets write the same files, and
-- which of two that do must give way.
use gitops_reverser.Base.{
  ℕ, Bool, true, false, ◌&&◌, ◌||◌, List, [], ◌∷◌, ◌++◌, ◌==◌, ltb, nat_eq, if◌then◌else◌,
}
use gitops_reverser.Base.Text.{codes, codes_eq, has_prefix}
use gitops_reverser.Paths.Clean.{clean, trim_space}

abbrev pub root : List ℕ
root = codes "/"

unfoldable pub normalize_git_target_path : List ℕ → List ℕ
normalize_git_target_path p = clean (root ++ trim_space p)

unfoldable pub path_is_ancestor : List ℕ → List ℕ → Bool
path_is_ancestor ancestor descendant =
    if ancestor == descendant
    then false
    else if ancestor == root
    then true
    else has_prefix descendant (ancestor ++ root)

unfoldable pub paths_overlap : List ℕ → List ℕ → Bool
unfolding path_is_ancestor
paths_overlap a b =
    let na = normalize_git_target_path a in
    let nb = normalize_git_target_path b in
    if na == nb then true else path_is_ancestor na nb || path_is_ancestor nb na

-- Go's `<` on strings, by code point as the strings are valid UTF-8
unfoldable pub codes_lt : List ℕ → List ℕ → Bool
codes_lt s [] = false
codes_lt [] (d ∷ t) = true
codes_lt (c ∷ s) (d ∷ t) = let rest = codes_lt s t in ltb c d || (c == d && rest)

-- what the choice of the loser reads of a GitTarget
pub record GitTarget : Type 0 where
  pub namespace : List ℕ
  pub name : List ℕ
  pub created : ℕ

unfoldable pub git_target_identity_key : GitTarget → List ℕ
git_target_identity_key t = t.namespace ++ (b'/' ∷ t.name)

unfoldable pub loses_conflict : GitTarget → GitTarget → Bool
loses_conflict target existing =
    if ltb existing.created target.created
    then true
    else if target.created == existing.created
    then codes_lt (git_target_identity_key existing) (git_target_identity_key target)
    else false
