-- ===== src/Paths/Segments.antt =====
-- Clean paths as lists of segments: what `path.Clean` leaves, and prefixes of joined segments.
use mathlib.Core.List.{reverse_aux}
use gitops_reverser.Base.{
  ℕ, ◌≡◌, refl, sym, ap, ◌∙◌, Bool, true, false, ◌&&◌, ◌||◌, List, [], ◌∷◌, ◌++◌, ◌==◌, nat_eq,
  arith, Bool-cases, inl, inr,
}
use gitops_reverser.Base.Lists.{All, append_nil, append_assoc}
use gitops_reverser.Base.Table.{is_empty}
use gitops_reverser.Base.Text.{codes_eq, has_prefix}
use gitops_reverser.Paths.Clean.{
  split_slash, onto_first, join_slash, dot, dot_dot, pop, clean_step, clean_from,
}

-- a segment has no slash and is not empty
abbrev pub NoSlash : List ℕ → Type 0
NoSlash [] = Unit
NoSlash (c ∷ s) = ((c == b'/') ≡ false) × NoSlash s

abbrev pub IsSegment : List ℕ → Type 0
IsSegment s = NoSlash s × (is_empty s ≡ false)

onto_first-NoSlash :
    (c : ℕ) (ss : List (List ℕ))
    → (c == b'/') ≡ false
    → All NoSlash ss
    → All NoSlash (onto_first c ss)
onto_first-NoSlash c [] h all = ((h, tt), tt)
onto_first-NoSlash c (s ∷ ss) h all = ((h, all.0), all.1)

pub split_slash-NoSlash : (s : List ℕ) → All NoSlash (split_slash s)
unfolding split_slash
split_slash-NoSlash [] = (tt, tt)
split_slash-NoSlash (c ∷ s) = elim (Bool-cases (c == b'/')) [
  | inl p ↦ rw p (tt, split_slash-NoSlash s)
  | inr p ↦ rw p (onto_first-NoSlash c (split_slash s) p (split_slash-NoSlash s))
]

All-reverse_aux {ℓ} :
    {A : Type ℓ} (P : A → Type 0) (xs acc : List A)
    → All P xs
    → All P acc
    → All P (reverse_aux xs acc)
All-reverse_aux P [] acc h k = k
All-reverse_aux P (x ∷ xs) acc h k = All-reverse_aux P xs (x ∷ acc) (h.1) (h.0, k)

pop-IsSegment :
    (rooted : Bool) (out : List (List ℕ)) → All IsSegment out → All IsSegment (pop rooted out)
unfolding is_empty
pop-IsSegment true [] all = tt
pop-IsSegment false [] all = (((refl, (refl, tt)), refl), tt)
pop-IsSegment rooted (last ∷ out) all = elim (Bool-cases (last == dot_dot)) [
  | inl p ↦ rw p (((refl, (refl, tt)), refl), all)
  | inr p ↦ rw p (all.1)
]

clean_step-IsSegment :
    (rooted : Bool) (out : List (List ℕ)) (s : List ℕ)
    → NoSlash s
    → All IsSegment out
    → All IsSegment (clean_step rooted out s)
unfolding clean_step
clean_step-IsSegment rooted out s h all = elim (Bool-cases (is_empty s || s == dot)) [
  | inl p ↦ rw p all
  | inr p ↦ elim (Bool-cases (s == dot_dot)) [
    | inl q ↦ rw (p, q) (pop-IsSegment rooted out all)
    | inr q ↦ rw (p, q) ((h, ground arith), all)
  ]
]

pub clean_from-IsSegment :
    (rooted : Bool) (out ss : List (List ℕ))
    → All NoSlash ss
    → All IsSegment out
    → All IsSegment (clean_from rooted out ss)
unfolding clean_from
clean_from-IsSegment rooted out [] h all = All-reverse_aux IsSegment out [] all tt
clean_from-IsSegment rooted out (s ∷ ss) h all =
    clean_from-IsSegment rooted (clean_step rooted out s) ss (h.1)
      (clean_step-IsSegment rooted out s (h.0) all)

-- the text goes on with a slash or ends
abbrev pub GoesOn : List ℕ → Type 0
GoesOn [] = Unit
GoesOn (c ∷ s) = c ≡ b'/'

has_prefix-segment :
    (s t rest more : List ℕ)
    → NoSlash s
    → NoSlash t
    → GoesOn rest
    → has_prefix (t ++ rest) (s ++ (b'/' ∷ more)) ≡ (s == t && has_prefix rest (b'/' ∷ more))
unfolding has_prefix codes_eq
has_prefix-segment [] [] rest more hs ht go = refl
has_prefix-segment [] (d ∷ t) rest more hs ht go = ground (arith, ht.0)
has_prefix-segment (c ∷ s) [] [] more hs ht go = refl
has_prefix-segment (c ∷ s) [] (d ∷ rest) more hs ht go = ground (arith, hs.0)
has_prefix-segment (c ∷ s) (d ∷ t) rest more hs ht go =
    ground (arith, has_prefix-segment s t rest more (hs.1) (ht.1) go)

eq-segment :
    (s t rest more : List ℕ)
    → NoSlash s
    → NoSlash t
    → GoesOn rest
    → GoesOn more
    → ((s ++ more) == (t ++ rest)) ≡ (s == t && more == rest)
unfolding codes_eq
eq-segment [] [] rest more hs ht go on = refl
eq-segment [] (d ∷ t) rest [] hs ht go on = refl
eq-segment [] (d ∷ t) rest (c ∷ more) hs ht go on = ground (arith, ht.0)
eq-segment (c ∷ s) [] [] more hs ht go on = refl
eq-segment (c ∷ s) [] (d ∷ rest) more hs ht go on = ground (arith, hs.0)
eq-segment (c ∷ s) (d ∷ t) rest more hs ht go on =
    ground (arith, eq-segment s t rest more (hs.1) (ht.1) go on)

-- what follows the first segment in the joined text
abbrev pub joined_tail : List (List ℕ) → List ℕ
joined_tail [] = []
joined_tail (s ∷ ss) = b'/' ∷ join_slash (s ∷ ss)

join_slash-cons : (s : List ℕ) (ss : List (List ℕ)) → join_slash (s ∷ ss) ≡ s ++ joined_tail ss
unfolding join_slash
join_slash-cons s [] = sym (append_nil s)
join_slash-cons s (t ∷ ss) = refl

GoesOn-joined_tail : (ss : List (List ℕ)) → GoesOn (joined_tail ss)
GoesOn-joined_tail [] = tt
GoesOn-joined_tail (s ∷ ss) = refl

-- `xs` is a proper prefix of `ys`, segment by segment
unfoldable pub is_proper_prefix : List (List ℕ) → List (List ℕ) → Bool
is_proper_prefix [] [] = false
is_proper_prefix [] (t ∷ ts) = true
is_proper_prefix (s ∷ ss) [] = false
is_proper_prefix (s ∷ ss) (t ∷ ts) = s == t && is_proper_prefix ss ts

unfoldable pub same_segments : List (List ℕ) → List (List ℕ) → Bool
same_segments [] [] = true
same_segments [] (t ∷ ts) = false
same_segments (s ∷ ss) [] = false
same_segments (s ∷ ss) (t ∷ ts) = s == t && same_segments ss ts

no_prefix_of_nil : (s more : List ℕ) → has_prefix [] (s ++ (b'/' ∷ more)) ≡ false
unfolding has_prefix
no_prefix_of_nil [] more = refl
no_prefix_of_nil (c ∷ s) more = refl

pub has_prefix-join_slash :
    (s : List ℕ) (ss ts : List (List ℕ))
    → All IsSegment (s ∷ ss)
    → All IsSegment ts
    → has_prefix (join_slash ts) (join_slash (s ∷ ss) ++ (b'/' ∷ [])) ≡ is_proper_prefix (s ∷ ss) ts
unfolding is_proper_prefix
has_prefix-join_slash s ss [] hs ht =
    rw (join_slash-cons s ss, append_assoc s (joined_tail ss) (b'/' ∷ [])) (nil_case ss)
  where
    nil_case :
        (ss : List (List ℕ))
        → has_prefix (join_slash []) (s ++ (joined_tail ss ++ (b'/' ∷ []))) ≡ false
    nil_case [] = unfold join_slash in no_prefix_of_nil s []
    nil_case (u ∷ us) = unfold join_slash in no_prefix_of_nil s (join_slash (u ∷ us) ++ (b'/' ∷ []))
has_prefix-join_slash s [] (t ∷ ts) hs ht =
    rw (join_slash-cons s [], join_slash-cons t ts, append_nil s)
      (has_prefix-segment s t (joined_tail ts) [] (hs.0.0) (ht.0.0) (GoesOn-joined_tail ts)
        ∙ ap (λ b. s == t && b) (last_case ts))
  where
    last_case :
        (ts : List (List ℕ)) → has_prefix (joined_tail ts) (b'/' ∷ []) ≡ is_proper_prefix [] ts
    last_case [] = unfold has_prefix in refl
    last_case (u ∷ us) = unfold has_prefix in refl
has_prefix-join_slash s (u ∷ us) (t ∷ ts) hs ht =
    rw
      (
        join_slash-cons s (u ∷ us),
        join_slash-cons t ts,
        append_assoc s (joined_tail (u ∷ us)) (b'/' ∷ []),
      )
      (has_prefix-segment s t (joined_tail ts) (join_slash (u ∷ us) ++ (b'/' ∷ [])) (hs.0.0)
          (ht.0.0) (GoesOn-joined_tail ts)
        ∙ ap (λ b. s == t && b) (more_case ts (has_prefix-join_slash u us ts (hs.1) (ht.1))))
  where
    more_case :
        (ts : List (List ℕ))
        → has_prefix (join_slash ts) (join_slash (u ∷ us) ++ (b'/' ∷ []))
          ≡ is_proper_prefix (u ∷ us) ts
        → has_prefix (joined_tail ts) (b'/' ∷ (join_slash (u ∷ us) ++ (b'/' ∷ [])))
          ≡ is_proper_prefix (u ∷ us) ts
    more_case [] ih = unfold has_prefix in refl
    more_case (v ∷ vs) ih = unfold has_prefix in ih

eq-joined_tail :
    (ss ts : List (List ℕ))
    → (join_slash ss == join_slash ts) ≡ same_segments ss ts
    → (joined_tail ss == joined_tail ts) ≡ same_segments ss ts
unfolding codes_eq same_segments
eq-joined_tail [] [] ih = refl
eq-joined_tail [] (t ∷ ts) ih = refl
eq-joined_tail (s ∷ ss) [] ih = refl
eq-joined_tail (s ∷ ss) (t ∷ ts) ih = ih

not_nil :
    (s rest : List ℕ)
    → is_empty s ≡ false
    → (((s ++ rest) == []) ≡ false) × (([] == (s ++ rest)) ≡ false)
unfolding codes_eq is_empty
not_nil [] rest h = absurd (ground arith)
not_nil (c ∷ s) rest h = (refl, refl)

pub eq-join_slash :
    (ss ts : List (List ℕ))
    → All IsSegment ss
    → All IsSegment ts
    → (join_slash ss == join_slash ts) ≡ same_segments ss ts
unfolding same_segments
eq-join_slash [] [] hs ht = (codes_eq.beq_iff (join_slash []) (join_slash [])).1 refl
eq-join_slash [] (t ∷ ts) hs ht =
    rw (join_slash-cons t ts) (unfold join_slash in (not_nil t (joined_tail ts) (ht.0.1)).1)
eq-join_slash (s ∷ ss) [] hs ht =
    rw (join_slash-cons s ss) (unfold join_slash in (not_nil s (joined_tail ss) (hs.0.1)).0)
eq-join_slash (s ∷ ss) (t ∷ ts) hs ht =
    rw (join_slash-cons s ss, join_slash-cons t ts)
      (eq-segment s t (joined_tail ts) (joined_tail ss) (hs.0.0) (ht.0.0) (GoesOn-joined_tail ts)
          (GoesOn-joined_tail ss)
        ∙ ap (λ b. s == t && b) (eq-joined_tail ss ts (eq-join_slash ss ts (hs.1) (ht.1))))

split_slash-segment :
    (s rest : List ℕ) → NoSlash s → split_slash (s ++ (b'/' ∷ rest)) ≡ s ∷ split_slash rest
unfolding split_slash
split_slash-segment [] rest h = refl
split_slash-segment (c ∷ s) rest h = rw (h.0, split_slash-segment s rest (h.1)) refl

split_slash-last : (s : List ℕ) → NoSlash s → split_slash s ≡ s ∷ []
unfolding split_slash
split_slash-last [] h = refl
split_slash-last (c ∷ s) h = rw (h.0, split_slash-last s (h.1)) refl

-- splitting undoes joining
pub split_slash-join_slash :
    (s : List ℕ) (ss : List (List ℕ))
    → All NoSlash (s ∷ ss)
    → split_slash (join_slash (s ∷ ss)) ≡ s ∷ ss
unfolding join_slash
split_slash-join_slash s [] h = split_slash-last s (h.0)
split_slash-join_slash s (t ∷ ss) h =
    split_slash-segment s (join_slash (t ∷ ss)) (h.0)
    ∙ ap (λ us. s ∷ us) (split_slash-join_slash t ss (h.1))

pub NoSlash-append : (s t : List ℕ) → NoSlash s → NoSlash t → NoSlash (s ++ t)
NoSlash-append [] t h k = k
NoSlash-append (c ∷ s) t h k = (h.0, NoSlash-append s t (h.1) k)
