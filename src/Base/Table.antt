-- ===== src/Base/Table.antt =====
-- The Go map as an association list, over any key type with equality. The order of the list is one
-- of the orders in which `range` may visit the map; the theorems hold for every list.
use gitops_reverser.Base.Tests.{if◌then◌else◌, Bool-cases, is_some}
use gitops_reverser.Base.Eq.{EqType, ◌==◌, eq_refl}
use mathlib.Core.Path.{◌≡◌, refl}
use mathlib.Core.Bool.{Bool, true, false, ◌||◌}
use mathlib.Core.Logic.{◌⊎◌, inl, inr}
use mathlib.Core.Option
use mathlib.Core.Option.{Option, none, some}
use mathlib.Core.List.{List, [], ◌∷◌}
use native.Mathlib.Omega.{arith}

abbrev pub Table {ℓ κ} : Type ℓ → Type κ → Type (ℓ ⊔ κ)
Table K V = List (K × V)

unfoldable pub is_empty {ℓ} : {A : Type ℓ} → List A → Bool
is_empty [] = true
is_empty (_ ∷ _) = false

module _ {ℓ κ} {K : Type ℓ} {V : Type κ} ⦃e : EqType K⦄ where
  -- m[k], with `ok`
  unfoldable pub get : K → Table K V → Option V
  get k [] = none
  get k ((j, v) ∷ m) = if j == k then some v else get k m

  -- m[k] = v
  unfoldable pub put : K → V → Table K V → Table K V
  put k v [] = (k, v) ∷ []
  put k v ((j, old) ∷ m) = if j == k then (k, v) ∷ m else (j, old) ∷ put k v m

  -- delete(m, k)
  unfoldable pub remove : K → Table K V → Table K V
  remove k [] = []
  remove k ((j, v) ∷ m) = let rest = remove k m in if j == k then rest else (j, v) ∷ rest

  pub get-put :
      (k j : K) (v : V) (m : Table K V) → get j (put k v m) ≡ (if k == j then some v else get j m)
  unfolding get put
  get-put k j v [] = refl
  get-put k j v ((i, w) ∷ m) =
      ground (arith, e.beq_iff k j, e.beq_iff i k, e.beq_iff i j, get-put k j v m)

  pub get-remove :
      (k j : K) (m : Table K V) → get j (remove k m) ≡ (if k == j then none else get j m)
  unfolding get remove
  get-remove k j [] = ground arith
  get-remove k j ((i, w) ∷ m) =
      ground (arith, e.beq_iff k j, e.beq_iff i k, e.beq_iff i j, get-remove k j m)

  -- a loop over the map that rewrites each value in place
  unfoldable pub map_values : (K → V → V) → Table K V → Table K V
  map_values f [] = []
  map_values f ((k, v) ∷ m) = (k, f k v) ∷ map_values f m

  pub get-map_values :
      (f : K → V → V) (k : K) (m : Table K V) → get k (map_values f m) ≡ Option.map (f k) (get k m)
  unfolding get map_values
  get-map_values f k [] = refl
  get-map_values f k ((j, v) ∷ m) = ground (arith, e.beq_iff j k, get-map_values f k m)

abbrev pub carried {κ} : {V : Type κ} → (V → Option V) → Option V → Option V
carried f none = none
carried f (some v) = f v

pub ruleset table_laws = (get-put, get-remove, get-map_values)

module _ {ℓ κ} {K : Type ℓ} {V : Type κ} ⦃e : EqType K⦄ where
  -- the keys of a Go map are distinct
  abbrev pub UniqueKeys : Table K V → Type κ
  UniqueKeys [] = Unit
  UniqueKeys ((k, v) ∷ m) = (get k m ≡ none) × UniqueKeys m

  pub UniqueKeys-put : (k : K) (v : V) (m : Table K V) → UniqueKeys m → UniqueKeys (put k v m)
  unfolding get put
  UniqueKeys-put k v [] u = (refl, tt)
  UniqueKeys-put k v ((j, w) ∷ m) u = elim (Bool-cases (j == k)) [
    | inl p ↦ rw p (rw ((e.beq_iff j k).0 p) at (u.0), u.1)
    | inr p ↦ rw p (
      rw (get-put k j v m) (ground (arith, e.beq_iff j k, e.beq_iff k j, u.0)),
      UniqueKeys-put k v m (u.1),
    )
  ]

  abbrev pub has : K → Table K V → Bool
  has k m = is_some (get k m)

  pub get-put_cases :
      (k j : K) (v x : V) (m : Table K V)
      → get j (put k v m) ≡ some x
      → ((k ≡ j) × (v ≡ x)) ⊎ (get j m ≡ some x)
  get-put_cases k j v x m p = elim (Bool-cases (k == j)) [
    | inl q ↦ inl ((e.beq_iff k j).0 q, ground (arith, get-put k j v m))
    | inr q ↦ inr (ground (arith, get-put k j v m))
  ]

  pub has-put : (k j : K) (v : V) (m : Table K V) → has j (put k v m) ≡ (k == j || has j m)
  has-put k j v m = rw (get-put k j v m) (ground arith)

  abbrev pub put_if_some : K → Option V → Table K V → Table K V
  put_if_some k none m = m
  put_if_some k (some v) m = put k v m

  -- a loop over `prevs` that adds to `next`, for each key absent there, what `f` makes of the value
  unfoldable pub fill_absent : (V → Option V) → Table K V → Table K V → Table K V
  fill_absent f [] next = next
  fill_absent f ((k, v) ∷ prevs) next =
      fill_absent f prevs (if has k next then next else put_if_some k (f v) next)

  get-put_if_some :
      (k j : K) (o : Option V) (m : Table K V)
      → get j (put_if_some k o m) ≡ (if k == j then (if is_some o then o else get j m) else get j m)
  get-put_if_some k j none m = ground arith
  get-put_if_some k j (some v) m = rw (get-put k j v m) (ground arith)

  pub get-fill_absent :
      (f : V → Option V) (j : K) (prevs next : Table K V)
      → UniqueKeys prevs
      → get j (fill_absent f prevs next)
        ≡ (if has j next then get j next else carried f (get j prevs))
  unfolding fill_absent get
  get-fill_absent f j [] next u = ground arith
  get-fill_absent f j ((k, v) ∷ prevs) next u = ground (
    arith,
    get-fill_absent f j prevs (if has k next then next else put_if_some k (f v) next) (u.1),
    get-put_if_some k j (f v) next,
    e.beq_iff k j,
    u.0,
  )

  put_if_some-UniqueKeys :
      (k : K) (o : Option V) (m : Table K V) → UniqueKeys m → UniqueKeys (put_if_some k o m)
  put_if_some-UniqueKeys k none m u = u
  put_if_some-UniqueKeys k (some v) m u = UniqueKeys-put k v m u

  pub fill_absent-UniqueKeys :
      (f : V → Option V) (prevs next : Table K V)
      → UniqueKeys next
      → UniqueKeys (fill_absent f prevs next)
  unfolding fill_absent
  fill_absent-UniqueKeys f [] next u = u
  fill_absent-UniqueKeys f ((k, v) ∷ prevs) next u =
      fill_absent-UniqueKeys f prevs _ (elim (Bool-cases (has k next)) [
        | inl p ↦ rw p u
        | inr p ↦ rw p (put_if_some-UniqueKeys k (f v) next u)
      ])

  pub map_values-UniqueKeys :
      (f : K → V → V) (m : Table K V) → UniqueKeys m → UniqueKeys (map_values f m)
  unfolding map_values
  map_values-UniqueKeys f [] u = tt
  map_values-UniqueKeys f ((k, v) ∷ m) u =
      (ground (arith, get-map_values f k m, u.0), map_values-UniqueKeys f m (u.1))

  pub get-cons_cases :
      (j k : K) (w v : V) (m : Table K V)
      → get k ((j, w) ∷ m) ≡ some v
      → ((j ≡ k) × (w ≡ v)) ⊎ (get k m ≡ some v)
  unfolding get
  get-cons_cases j k w v m p = elim (Bool-cases (j == k)) [
    | inl q ↦ inl ((e.beq_iff j k).0 q, ground arith)
    | inr q ↦ inr (ground arith)
  ]

  pub is_empty-put : (k : K) (v : V) (m : Table K V) → is_empty (put k v m) ≡ false
  unfolding put is_empty
  is_empty-put k v [] = refl
  is_empty-put k v ((j, w) ∷ m) = ground arith

  pub put-put : (k : K) (v w : V) (m : Table K V) → put k w (put k v m) ≡ put k w m
  unfolding put
  put-put k v w [] = rw eq_refl
  put-put k v w ((j, x) ∷ m) = elim (Bool-cases (j == k)) [
    | inl q ↦ rw q (rw eq_refl)
    | inr q ↦ rw q (rw q (rw (put-put k v w m)))
  ]
