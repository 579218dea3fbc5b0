-- ===== src/Facts/Steps.antt =====
-- Every operation of a scope keeps its counter right, and what an eviction does.
use mathlib.Core.Option
use mathlib.Core.Path.{subst}
use gitops_reverser.Base.{
  ℕ, ◌+◌, ◌-◌, ◌≤◌, ◌≡◌, refl, ◌∙◌, Bool, Option, none, some, List, [], ◌∷◌, ◌==◌, arith,
  if◌then◌else◌, string_eq, Option-cases, inl, inr, is_some, some_inj, nat_eq,
}
use gitops_reverser.Base.Lists.{length-append}
use gitops_reverser.Base.Table.{UniqueKeys-put}
use gitops_reverser.Facts.Model.{
  IndexedCollection, FactRef, ScopeFacts, exact_eq, name_key_eq, put_exact, put_latest, put_removal,
  put_rv, put_name, put_collection,
}
use gitops_reverser.Facts.Store.{
  remove_keyed, remove_collection, remove_ref, evict_from, evict_oldest,
}
use gitops_reverser.Facts.Counts.{
  length-put, sweep-IsCounted, length-remove_collection, remove_keyed-length, IsCounted, Step,
}
use gitops_reverser.Facts.Store.{live, live_keyed}
use gitops_reverser.Base.Lists.{any}

-- the counter before an eviction, from the one after it and whether it removed an entry
abbrev pub taken : Bool → ℕ → ℕ
taken removed n = if removed then n + 1 else n

is_some-map {ℓ κ} :
    {A : Type ℓ} {B : Type κ} (f : A → B) (o : Option A) → is_some (Option.map f o) ≡ is_some o
is_some-map f none = refl
is_some-map f (some x) = refl

of_map {ℓ κ} :
    {A : Type ℓ} {B : Type κ} (f : A → B) (o : Option A) (y : B)
    → Option.map f o ≡ some y
    → (x : A) × (o ≡ some x) × (f x ≡ y)
of_map f none y h = absurd (cc h)
of_map f (some x) y h = (x, refl, some_inj h)

module _ {Selector : Type 0} where
  -- an entry has gone from the tables of `s`, and the counter follows
  unfoldable pub IsShort : ScopeFacts Selector → ScopeFacts Selector → Type 0
  IsShort s s' =
      ((order : List FactRef) → IsCounted (record s' { order = order; count = s'.count - 1 }))
      × (1 ≤ s'.count)
      × (s'.count ≡ s.count)

  remove_ref-IsShort :
      (ref : FactRef) (s s' : ScopeFacts Selector)
      → IsCounted s
      → remove_ref ref s ≡ some s'
      → IsShort s s'
  unfolding remove_ref IsShort
  remove_ref-IsShort (FactRef.exact k seq) s s' c h =
      let (m, p, e) = of_map (λ m. record s { exact = m }) (remove_keyed s.exact k seq) s' h in
      let (u, n) = remove_keyed-length s.exact m k seq c.exact_keys p in
      subst (IsShort s) e (
        (λ order. record {
          exact_keys = u;
          latest_keys = c.latest_keys;
          removal_keys = c.removal_keys;
          rv_keys = c.rv_keys;
          name_keys = c.name_keys;
          total = omega (arith, n, c.total);
        }),
        omega (arith, n, c.total),
        refl,
      )
  remove_ref-IsShort (FactRef.latest uid seq) s s' c h =
      let (m, p, e) = of_map (λ m. record s { latest = m }) (remove_keyed s.latest uid seq) s' h in
      let (u, n) = remove_keyed-length s.latest m uid seq c.latest_keys p in
      subst (IsShort s) e (
        (λ order. record {
          exact_keys = c.exact_keys;
          latest_keys = u;
          removal_keys = c.removal_keys;
          rv_keys = c.rv_keys;
          name_keys = c.name_keys;
          total = omega (arith, n, c.total);
        }),
        omega (arith, n, c.total),
        refl,
      )
  remove_ref-IsShort (FactRef.removal uid seq) s s' c h =
      let (m, p, e) =
        of_map (λ m. record s { removals = m }) (remove_keyed s.removals uid seq) s' h in
      let (u, n) = remove_keyed-length s.removals m uid seq c.removal_keys p in
      subst (IsShort s) e (
        (λ order. record {
          exact_keys = c.exact_keys;
          latest_keys = c.latest_keys;
          removal_keys = u;
          rv_keys = c.rv_keys;
          name_keys = c.name_keys;
          total = omega (arith, n, c.total);
        }),
        omega (arith, n, c.total),
        refl,
      )
  remove_ref-IsShort (FactRef.rv r seq) s s' c h =
      let (m, p, e) = of_map (λ m. record s { rv_only = m }) (remove_keyed s.rv_only r seq) s' h in
      let (u, n) = remove_keyed-length s.rv_only m r seq c.rv_keys p in
      subst (IsShort s) e (
        (λ order. record {
          exact_keys = c.exact_keys;
          latest_keys = c.latest_keys;
          removal_keys = c.removal_keys;
          rv_keys = u;
          name_keys = c.name_keys;
          total = omega (arith, n, c.total);
        }),
        omega (arith, n, c.total),
        refl,
      )
  remove_ref-IsShort (FactRef.name k seq) s s' c h =
      let (m, p, e) = of_map (λ m. record s { by_name = m }) (remove_keyed s.by_name k seq) s' h in
      let (u, n) = remove_keyed-length s.by_name m k seq c.name_keys p in
      subst (IsShort s) e (
        (λ order. record {
          exact_keys = c.exact_keys;
          latest_keys = c.latest_keys;
          removal_keys = c.removal_keys;
          rv_keys = c.rv_keys;
          name_keys = u;
          total = omega (arith, n, c.total);
        }),
        omega (arith, n, c.total),
        refl,
      )
  remove_ref-IsShort (FactRef.collection seq) s s' c h =
      let (cs, p, e) =
        of_map (λ cs. record s { collections = cs }) (remove_collection seq s.collections) s' h in
      let n = length-remove_collection seq s.collections cs p in
      subst (IsShort s) e (
        (λ order. record {
          exact_keys = c.exact_keys;
          latest_keys = c.latest_keys;
          removal_keys = c.removal_keys;
          rv_keys = c.rv_keys;
          name_keys = c.name_keys;
          total = omega (arith, n, c.total);
        }),
        omega (arith, n, c.total),
        refl,
      )

  reordered :
      (s : ScopeFacts Selector) (order : List FactRef)
      → IsCounted s
      → IsCounted (record s { order = order })
  reordered s order c = record {
    exact_keys = c.exact_keys;
    latest_keys = c.latest_keys;
    removal_keys = c.removal_keys;
    rv_keys = c.rv_keys;
    name_keys = c.name_keys;
    total = c.total;
  }

  evict_from-IsCounted :
      (order : List FactRef) (s : ScopeFacts Selector)
      → IsCounted s
      → IsCounted (evict_from order s).0
        × (taken (evict_from order s).1 (evict_from order s).0.count ≡ s.count)
  unfolding evict_from IsShort
  evict_from-IsCounted [] s c = (reordered s [] c, refl)
  evict_from-IsCounted (ref ∷ order) s c = elim (Option-cases (remove_ref ref s)) [
    | inl p ↦ rw p (evict_from-IsCounted order s c)
    | inr p ↦
        let (short, least, same_count) = remove_ref-IsShort ref s (p.0) c (p.1) in
        rw (p.1) (short order, omega (arith, least, same_count))
  ]

  -- Every operation of a scope keeps the keys of its tables distinct and `count` equal to the
  -- number of the entries in all of them: the five ways to store a fact, a collection, the sweep
  -- and the eviction.
  pub Step-IsCounted : {s s' : ScopeFacts Selector} → Step s s' → IsCounted s → IsCounted s'
  unfolding put_exact put_latest put_removal put_rv put_name put_collection evict_oldest
  Step-IsCounted (Step.exact uid r e s) c = record {
    exact_keys = UniqueKeys-put _ e s.exact c.exact_keys;
    latest_keys = c.latest_keys;
    removal_keys = c.removal_keys;
    rv_keys = c.rv_keys;
    name_keys = c.name_keys;
    total = ground (arith, length-put (record { uid = uid; rv = r }) e s.exact, c.total);
  }
  Step-IsCounted (Step.latest uid e s) c = record {
    exact_keys = c.exact_keys;
    latest_keys = UniqueKeys-put _ e s.latest c.latest_keys;
    removal_keys = c.removal_keys;
    rv_keys = c.rv_keys;
    name_keys = c.name_keys;
    total = ground (arith, length-put uid e s.latest, c.total);
  }
  Step-IsCounted (Step.removal uid e s) c = record {
    exact_keys = c.exact_keys;
    latest_keys = c.latest_keys;
    removal_keys = UniqueKeys-put _ e s.removals c.removal_keys;
    rv_keys = c.rv_keys;
    name_keys = c.name_keys;
    total = ground (arith, length-put uid e s.removals, c.total);
  }
  Step-IsCounted (Step.rv r e s) c = record {
    exact_keys = c.exact_keys;
    latest_keys = c.latest_keys;
    removal_keys = c.removal_keys;
    rv_keys = UniqueKeys-put _ e s.rv_only c.rv_keys;
    name_keys = c.name_keys;
    total = ground (arith, length-put r e s.rv_only, c.total);
  }
  Step-IsCounted (Step.name ns n e s) c = record {
    exact_keys = c.exact_keys;
    latest_keys = c.latest_keys;
    removal_keys = c.removal_keys;
    rv_keys = c.rv_keys;
    name_keys = UniqueKeys-put _ e s.by_name c.name_keys;
    total = ground (arith, length-put (record { namespace = ns; name = n }) e s.by_name, c.total);
  }
  Step-IsCounted (Step.collection entry s) c = record {
    exact_keys = c.exact_keys;
    latest_keys = c.latest_keys;
    removal_keys = c.removal_keys;
    rv_keys = c.rv_keys;
    name_keys = c.name_keys;
    total = omega (arith, length-append s.collections (entry ∷ []), c.total);
  }
  Step-IsCounted (Step.sweeps cutoff s) c = sweep-IsCounted cutoff s c
  Step-IsCounted (Step.evicts s) c = (evict_from-IsCounted s.order s c).0

  is_some-remove_collection :
      (seq : ℕ) (cs : List (IndexedCollection Selector))
      → is_some (remove_collection seq cs) ≡ any (λ c. c.seq == seq) cs
  unfolding remove_collection
  is_some-remove_collection seq [] = refl
  is_some-remove_collection seq (c ∷ cs) = elim (Option-cases (remove_collection seq cs)) [
    | inl p ↦ ground (arith, is_some-remove_collection seq cs)
    | inr p ↦ ground (arith, is_some-remove_collection seq cs, p.1)
  ]

  is_some-remove_ref :
      (ref : FactRef) (s : ScopeFacts Selector) → is_some (remove_ref ref s) ≡ live s ref
  unfolding remove_ref live live_keyed remove_keyed
  is_some-remove_ref (FactRef.exact k seq) s = ground arith
  is_some-remove_ref (FactRef.latest uid seq) s = ground arith
  is_some-remove_ref (FactRef.removal uid seq) s = ground arith
  is_some-remove_ref (FactRef.rv r seq) s = ground arith
  is_some-remove_ref (FactRef.name k seq) s = ground arith
  is_some-remove_ref (FactRef.collection seq) s =
      is_some-map _ (remove_collection seq s.collections)
      ∙ is_some-remove_collection seq s.collections

  evict_from-live :
      (order : List FactRef) (s : ScopeFacts Selector) → (evict_from order s).1 ≡ any (live s) order
  unfolding evict_from
  evict_from-live [] s = refl
  evict_from-live (ref ∷ order) s = elim (Option-cases (remove_ref ref s)) [
    | inl p ↦ rw p (ground (arith, evict_from-live order s, is_some-remove_ref ref s))
    | inr p ↦ rw (p.1) (ground (arith, is_some-remove_ref ref s))
  ]

  -- In a well-counted scope, `evictOldest` reports an eviction exactly when its order has a
  -- reference to a stored entry; then the counter goes down by one, and otherwise it stays.
  pub evict_oldest_lem :
      (s : ScopeFacts Selector)
      → IsCounted s
      → ((evict_oldest s).1 ≡ any (live s) s.order)
        × (taken (evict_oldest s).1 (evict_oldest s).0.count ≡ s.count)
  unfolding evict_oldest
  evict_oldest_lem s c = (evict_from-live s.order s, (evict_from-IsCounted s.order s c).1)
