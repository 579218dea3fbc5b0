-- ===== src/Paths/Clean.antt =====
-- `path.Clean`, `path.Join`, `strings.Split`, `strings.Join` and `strings.TrimSpace` on text as a
-- list of code points.
use mathlib.Core.List.{reverse}
use gitops_reverser.Base.{
  ℕ, Bool, false, ◌&&◌, ◌||◌, List, [], ◌∷◌, ◌++◌, ◌==◌, leb, nat_eq, if◌then◌else◌,
}
use gitops_reverser.Base.Text.{codes, codes_eq}
use gitops_reverser.Base.Table.{is_empty}

-- strings.Split(s, "/")
abbrev pub onto_first : ℕ → List (List ℕ) → List (List ℕ)
onto_first c [] = (c ∷ []) ∷ []
onto_first c (s ∷ ss) = (c ∷ s) ∷ ss

unfoldable pub split_slash : List ℕ → List (List ℕ)
split_slash [] = [] ∷ []
split_slash (c ∷ s) = let rest = split_slash s in if c == b'/' then [] ∷ rest else onto_first c rest

-- strings.Join(segments, "/")
unfoldable pub join_slash : List (List ℕ) → List ℕ
join_slash [] = []
join_slash (s ∷ []) = s
join_slash (s ∷ t ∷ ss) = s ++ (b'/' ∷ join_slash (t ∷ ss))

abbrev pub dot : List ℕ
dot = codes "."

abbrev pub dot_dot : List ℕ
dot_dot = codes ".."

-- one segment of the path is read; `out` holds the segments kept, the last one first
abbrev pub pop : Bool → List (List ℕ) → List (List ℕ)
pop rooted [] = if rooted then [] else dot_dot ∷ []
pop rooted (last ∷ out) = if last == dot_dot then dot_dot ∷ last ∷ out else out

unfoldable pub clean_step : Bool → List (List ℕ) → List ℕ → List (List ℕ)
clean_step rooted out s =
    if is_empty s || s == dot then out else if s == dot_dot then pop rooted out else s ∷ out

unfoldable pub clean_from : Bool → List (List ℕ) → List (List ℕ) → List (List ℕ)
unfolding clean_step
clean_from rooted out [] = reverse out
clean_from rooted out (s ∷ ss) = clean_from rooted (clean_step rooted out s) ss

abbrev pub is_rooted : List ℕ → Bool
is_rooted [] = false
is_rooted (c ∷ s) = c == b'/'

abbrev pub or_dot : List ℕ → List ℕ
or_dot [] = dot
or_dot (c ∷ s) = c ∷ s

unfoldable pub clean_segments : List ℕ → List (List ℕ)
clean_segments p = clean_from (is_rooted p) [] (split_slash p)

-- path.Clean(p)
unfoldable pub clean : List ℕ → List ℕ
clean p =
    if is_rooted p
    then b'/' ∷ join_slash (clean_segments p)
    else or_dot (join_slash (clean_segments p))

-- unicode.IsSpace
unfoldable pub is_space : ℕ → Bool
is_space c =
    (leb 9 c && leb c 13)
    || c == 32
    || c == 0x85
    || c == 0xa0
    || c == 0x1680
    || (leb 0x2000 c && leb c 0x200a)
    || c == 0x2028
    || c == 0x2029
    || c == 0x202f
    || c == 0x205f
    || c == 0x3000

unfoldable pub trim_left : List ℕ → List ℕ
trim_left [] = []
trim_left (c ∷ s) = let rest = trim_left s in if is_space c then rest else c ∷ s

-- strings.TrimSpace(s)
unfoldable pub trim_space : List ℕ → List ℕ
unfolding trim_left
trim_space s = reverse (trim_left (reverse (trim_left s)))
