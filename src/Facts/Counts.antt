-- ===== src/Facts/Counts.antt =====
-- The counter of a scope agrees with its tables.
use mathlib.Core.Path.{subst}
use gitops_reverser.Facts.Sweeps.{get-fresh_entries_absent}
use gitops_reverser.Base.{
  ℕ, ◌+◌, suc, ◌≡◌, refl, String, none, some, List, [], ◌∷◌, ◌==◌, EqType, arith, ltb, string_eq,
  Bool-cases, Option-cases, inl, inr, nat_eq,
}
use gitops_reverser.Base.Lists.{length}
use gitops_reverser.Base.Table.{Table, get, put, has, remove, get-remove, UniqueKeys}
use gitops_reverser.Facts.Model.{
  IndexedFact, IndexedCollection, ScopeFacts, exact_eq, name_key_eq, counted, put_exact, put_latest,
  put_removal, put_rv, put_name, put_collection,
}
use gitops_reverser.Facts.Store.{
  fresh_entries, stale_count, fresh_collections, stale_collections, compact, sweep, remove_keyed,
  is_at, remove_collection, evict_oldest,
}

module _ {ℓ κ} {K : Type ℓ} {V : Type κ} ⦃same : EqType K⦄ where
  pub length-put :
      (k : K) (v : V) (m : Table K V) → length (put k v m) ≡ counted (has k m) (length m)
  unfolding put get
  length-put k v [] = refl
  length-put k v ((j, w) ∷ m) = ground (arith, length-put k v m)

  length-remove_absent : (k : K) (m : Table K V) → get k m ≡ none → length (remove k m) ≡ length m
  unfolding remove get
  length-remove_absent k [] h = refl
  length-remove_absent k ((j, w) ∷ m) h = ground (arith, length-remove_absent k m)

  length-remove :
      (k : K) (v : V) (m : Table K V)
      → UniqueKeys m
      → get k m ≡ some v
      → suc (length (remove k m)) ≡ length m
  unfolding remove get
  length-remove k v [] u h = absurd (cc h)
  length-remove k v ((j, w) ∷ m) u h =
      ground (arith, length-remove k v m (u.1), length-remove_absent j m (u.0), same.beq_iff j k)

  remove-UniqueKeys : (k : K) (m : Table K V) → UniqueKeys m → UniqueKeys (remove k m)
  unfolding remove get
  remove-UniqueKeys k [] u = tt
  remove-UniqueKeys k ((j, w) ∷ m) u = elim (Bool-cases (j == k)) [
    | inl p ↦ rw p (remove-UniqueKeys k m (u.1))
    | inr p ↦ rw p (ground (arith, get-remove k j m, u.0), remove-UniqueKeys k m (u.1))
  ]

pub length-fresh_entries {ℓ} :
    {K : Type ℓ} (cutoff : ℕ) (m : Table K IndexedFact)
    → length (fresh_entries cutoff m) + stale_count cutoff m ≡ length m
unfolding fresh_entries stale_count
length-fresh_entries cutoff [] = refl
length-fresh_entries cutoff ((k, e) ∷ m) = ground (arith, length-fresh_entries cutoff m)

pub length-fresh_collections :
    {Selector : Type 0} (cutoff : ℕ) (cs : List (IndexedCollection Selector))
    → length (fresh_collections cutoff cs) + stale_collections cutoff cs ≡ length cs
unfolding fresh_collections stale_collections
length-fresh_collections cutoff [] = refl
length-fresh_collections cutoff (c ∷ cs) = ground (arith, length-fresh_collections cutoff cs)

fresh_entries-UniqueKeys {ℓ} :
    {K : Type ℓ} ⦃same : EqType K⦄ (cutoff : ℕ) (m : Table K IndexedFact)
    → UniqueKeys m
    → UniqueKeys (fresh_entries cutoff m)
unfolding fresh_entries
fresh_entries-UniqueKeys cutoff [] u = tt
fresh_entries-UniqueKeys cutoff ((k, e) ∷ m) u = elim (Bool-cases (ltb e.at cutoff)) [
  | inl p ↦ rw p (fresh_entries-UniqueKeys cutoff m (u.1))
  | inr p ↦
      rw p (get-fresh_entries_absent cutoff k m (u.0), fresh_entries-UniqueKeys cutoff m (u.1))
]

-- the keys of each table are distinct, and `count` is the number of all entries
pub record IsCounted {Selector : Type 0} (s : ScopeFacts Selector) : Type 0 where
  pub exact_keys : UniqueKeys s.exact
  pub latest_keys : UniqueKeys s.latest
  pub removal_keys : UniqueKeys s.removals
  pub rv_keys : UniqueKeys s.rv_only
  pub name_keys : UniqueKeys s.by_name
  pub total :
      s.count
      ≡ length s.exact
        + length s.latest
        + length s.removals
        + length s.rv_only
        + length s.by_name
        + length s.collections

module _ {Selector : Type 0} where
  -- an operation of the store on behalf of a stored fact, or one that frees memory
  pub data Step : ScopeFacts Selector → ScopeFacts Selector → Type 0 where
    exact :
        (uid r : String) (e : IndexedFact) (s : ScopeFacts Selector) → Step s (put_exact uid r e s)
    latest :
        (uid : String) (e : IndexedFact) (s : ScopeFacts Selector) → Step s (put_latest uid e s)
    removal :
        (uid : String) (e : IndexedFact) (s : ScopeFacts Selector) → Step s (put_removal uid e s)
    rv : (r : String) (e : IndexedFact) (s : ScopeFacts Selector) → Step s (put_rv r e s)
    name : (ns n : String) (e : IndexedFact) (s : ScopeFacts Selector) → Step s (put_name ns n e s)
    collection :
        (c : IndexedCollection Selector) (s : ScopeFacts Selector) → Step s (put_collection c s)
    sweeps : (cutoff : ℕ) (s : ScopeFacts Selector) → Step s (sweep cutoff s).0
    evicts : (s : ScopeFacts Selector) → Step s (evict_oldest s).0

  pub sweep-IsCounted :
      (cutoff : ℕ) (s : ScopeFacts Selector) → IsCounted s → IsCounted (sweep cutoff s).0
  unfolding sweep compact
  sweep-IsCounted cutoff s c = record {
    exact_keys = fresh_entries-UniqueKeys cutoff s.exact c.exact_keys;
    latest_keys = fresh_entries-UniqueKeys cutoff s.latest c.latest_keys;
    removal_keys = c.removal_keys;
    rv_keys = fresh_entries-UniqueKeys cutoff s.rv_only c.rv_keys;
    name_keys = fresh_entries-UniqueKeys cutoff s.by_name c.name_keys;
    total = omega (
      arith,
      c.total,
      length-fresh_entries cutoff s.exact,
      length-fresh_entries cutoff s.latest,
      length-fresh_entries cutoff s.rv_only,
      length-fresh_entries cutoff s.by_name,
      length-fresh_collections cutoff s.collections,
    );
  }

  pub length-remove_collection :
      (seq : ℕ) (cs cs' : List (IndexedCollection Selector))
      → remove_collection seq cs ≡ some cs'
      → suc (length cs') ≡ length cs
  unfolding remove_collection
  length-remove_collection seq [] cs' h = absurd (cc h)
  length-remove_collection seq (c ∷ cs) cs' h = elim (Option-cases (remove_collection seq cs)) [
    | inl p ↦ ground arith
    | inr p ↦ ground (arith, length-remove_collection seq cs (p.0) (p.1))
  ]

pub remove_keyed-length {ℓ} :
    {K : Type ℓ} ⦃same : EqType K⦄ (m m' : Table K IndexedFact) (k : K) (seq : ℕ)
    → UniqueKeys m
    → remove_keyed m k seq ≡ some m'
    → UniqueKeys m' × (suc (length m') ≡ length m)
unfolding remove_keyed
remove_keyed-length m m' k seq u h = elim (Option-cases (get k m)) [
  | inl p ↦ absurd (ground arith)
  | inr p ↦ elim (Bool-cases (is_at seq (get k m))) [
    | inr q ↦ absurd (ground arith)
    | inl q ↦
        let e : remove k m ≡ m' = ground arith in
        (
          subst UniqueKeys e (remove-UniqueKeys k m u),
          subst (λ x. suc (length x) ≡ length m) e (length-remove k (p.0) m u (p.1)),
        )
  ]
]
