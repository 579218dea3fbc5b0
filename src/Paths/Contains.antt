-- ===== src/Paths/Contains.antt =====
-- Overlap of paths as containment of directories, and the choice of one loser.
use gitops_reverser.Base.{
  ℕ, ◌≡◌, ◌≢◌, refl, sym, Bool, true, false, not, ◌&&◌, ◌||◌, List, [], ◌∷◌, ◌++◌, ◌==◌, nat_eq,
  arith, eq_sym, eq_false,
}
use gitops_reverser.Base.Lists.{All}
use gitops_reverser.Base.Text.{codes_eq, has_prefix}
use gitops_reverser.Paths.Clean.{clean, trim_space, split_slash, join_slash, clean_segments}
use gitops_reverser.Paths.Segments.{
  IsSegment, clean_from-IsSegment, split_slash-NoSlash, is_proper_prefix, same_segments,
  has_prefix-join_slash, eq-join_slash,
}
use gitops_reverser.Paths.Overlap.{
  root, normalize_git_target_path, path_is_ancestor, paths_overlap, codes_lt, GitTarget,
  git_target_identity_key, loses_conflict,
}

-- the directories from the root of the repository down to the path
unfoldable pub directories : List ℕ → List (List ℕ)
directories p = clean_segments (root ++ trim_space p)

-- the first list of directories starts the second
unfoldable pub is_within : List (List ℕ) → List (List ℕ) → Bool
is_within [] ds = true
is_within (c ∷ cs) [] = false
is_within (c ∷ cs) (d ∷ ds) = c == d && is_within cs ds

is_within-split :
    (cs ds : List (List ℕ)) → is_within cs ds ≡ (same_segments cs ds || is_proper_prefix cs ds)
unfolding is_within same_segments is_proper_prefix
is_within-split [] [] = refl
is_within-split [] (d ∷ ds) = refl
is_within-split (c ∷ cs) [] = refl
is_within-split (c ∷ cs) (d ∷ ds) = ground (arith, is_within-split cs ds)

same_segments_sym : (cs ds : List (List ℕ)) → same_segments cs ds ≡ same_segments ds cs
unfolding same_segments
same_segments_sym [] [] = refl
same_segments_sym [] (d ∷ ds) = refl
same_segments_sym (c ∷ cs) [] = refl
same_segments_sym (c ∷ cs) (d ∷ ds) = rw (eq_sym c d, same_segments_sym cs ds) refl

directories-IsSegment : (p : List ℕ) → All IsSegment (directories p)
unfolding directories clean_segments
directories-IsSegment p =
    clean_from-IsSegment true [] (split_slash (root ++ trim_space p))
      (split_slash-NoSlash (root ++ trim_space p)) tt

normalize-directories :
    (p : List ℕ) → normalize_git_target_path p ≡ b'/' ∷ join_slash (directories p)
unfolding normalize_git_target_path directories clean
normalize-directories p = refl

eq-path :
    (cs ds : List (List ℕ))
    → All IsSegment cs
    → All IsSegment ds
    → ((b'/' ∷ join_slash cs) == (b'/' ∷ join_slash ds)) ≡ same_segments cs ds
unfolding codes_eq
eq-path cs ds hc hd = eq-join_slash cs ds hc hd

path_is_ancestor-segments :
    (cs ds : List (List ℕ))
    → All IsSegment cs
    → All IsSegment ds
    → path_is_ancestor (b'/' ∷ join_slash cs) (b'/' ∷ join_slash ds)
      ≡ (not (same_segments cs ds) && is_proper_prefix cs ds)
unfolding path_is_ancestor join_slash has_prefix same_segments
path_is_ancestor-segments [] ds hc hd =
    ground (arith, eq-path [] ds hc hd, codes_eq.beq_iff root root, empty_case ds)
  where
    empty_case : (ds : List (List ℕ)) → not (same_segments [] ds) ≡ is_proper_prefix [] ds
    empty_case [] = unfold is_proper_prefix in refl
    empty_case (d ∷ ds) = unfold is_proper_prefix in refl
path_is_ancestor-segments (c ∷ cs) ds hc hd = ground (
  arith,
  eq-path (c ∷ cs) ds hc hd,
  eq-path (c ∷ cs) [] hc tt,
  has_prefix-join_slash c cs ds hc hd,
)

-- Two GitTargets overlap exactly when, after both paths are cleaned, the directories of one start
-- the directories of the other: one path is the other or lies inside it.
pub paths_overlap_is_containment :
    (a b : List ℕ)
    → paths_overlap a b
      ≡ (is_within (directories a) (directories b) || is_within (directories b) (directories a))
unfolding paths_overlap
paths_overlap_is_containment a b =
    let ha = directories-IsSegment a in
    let hb = directories-IsSegment b in
    rw (normalize-directories a, normalize-directories b)
      (ground (
        arith,
        eq-path (directories a) (directories b) ha hb,
        path_is_ancestor-segments (directories a) (directories b) ha hb,
        path_is_ancestor-segments (directories b) (directories a) hb ha,
        is_within-split (directories a) (directories b),
        is_within-split (directories b) (directories a),
        same_segments_sym (directories a) (directories b),
      ))

codes_lt_total : (s t : List ℕ) → (s == t) ≡ false → codes_lt s t ≡ not (codes_lt t s)
unfolding codes_lt codes_eq
codes_lt_total [] [] h = absurd (ground arith)
codes_lt_total [] (d ∷ t) h = refl
codes_lt_total (c ∷ s) [] h = refl
codes_lt_total (c ∷ s) (d ∷ t) h = ground (arith, codes_lt_total s t)

-- Of two GitTargets with different identity keys, exactly one loses the conflict.
pub one_loses_conflict :
    (a b : GitTarget)
    → git_target_identity_key a ≢ git_target_identity_key b
    → loses_conflict a b ≡ not (loses_conflict b a)
unfolding loses_conflict
one_loses_conflict a b h = ground (
  arith,
  codes_lt_total (git_target_identity_key b) (git_target_identity_key a)
      (eq_false (git_target_identity_key b) (git_target_identity_key a) (λ e. h (sym e))),
)
