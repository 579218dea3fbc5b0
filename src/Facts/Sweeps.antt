-- ===== src/Facts/Sweeps.antt =====
-- The TTL sweep only frees memory: no lookup can tell whether it ran.
use gitops_reverser.Base.{
  ℕ, ◌≤◌, ◌≡◌, refl, String, Bool, true, false, none, List, [], ◌∷◌, EqType, arith, ltb, string_eq,
  Bool-cases, inl, inr,
}
use gitops_reverser.Base.Table.{Table, get, UniqueKeys}
use gitops_reverser.Facts.Model.{
  IndexedFact, IndexedCollection, ScopeFacts, FactQuery, Externals, live_fact, exact_eq,
  name_key_eq, lookup_exact, lookup_latest, lookup_removal_pointer, lookup_rv, lookup_name, newest,
  covers, match_collection_uid, match_collection_scope,
}
use gitops_reverser.Facts.Store.{fresh_entries, fresh_collections, compact, sweep}

pub get-fresh_entries_absent {ℓ} :
    {K : Type ℓ} ⦃same : EqType K⦄ (cutoff : ℕ) (k : K) (m : Table K IndexedFact)
    → get k m ≡ none
    → get k (fresh_entries cutoff m) ≡ none
unfolding get fresh_entries
get-fresh_entries_absent cutoff k [] h = refl
get-fresh_entries_absent cutoff k ((j, e) ∷ m) h =
    ground (arith, get-fresh_entries_absent cutoff k m)

live_fact-fresh_entries {ℓ} :
    {K : Type ℓ} ⦃same : EqType K⦄ (cutoff later : ℕ) (k : K) (m : Table K IndexedFact)
    → cutoff ≤ later
    → UniqueKeys m
    → live_fact (get k (fresh_entries cutoff m)) later ≡ live_fact (get k m) later
unfolding get fresh_entries live_fact
live_fact-fresh_entries cutoff later k [] h u = refl
live_fact-fresh_entries ⦃same⦄ cutoff later k ((j, e) ∷ m) h u = ground (
  arith,
  live_fact-fresh_entries cutoff later k m h (u.1),
  same.beq_iff j k,
  get-fresh_entries_absent cutoff j m (u.0),
)

-- the keys of the tables that a sweep visits are distinct
pub record HasMaps {Selector : Type 0} (s : ScopeFacts Selector) : Type 0 where
  pub exact_keys : UniqueKeys s.exact
  pub latest_keys : UniqueKeys s.latest
  pub rv_keys : UniqueKeys s.rv_only
  pub name_keys : UniqueKeys s.by_name

module _ {Selector : Type 0} where
  newest-fresh_collections :
      (p : IndexedCollection Selector → Bool) (cutoff later : ℕ)
      (cs : List (IndexedCollection Selector))
      → cutoff ≤ later
      → ((c : IndexedCollection Selector) → p c ≡ true → ltb c.at later ≡ false)
      → newest p (fresh_collections cutoff cs) ≡ newest p cs
  unfolding fresh_collections
  newest-fresh_collections p cutoff later [] h recent = refl
  newest-fresh_collections p cutoff later (c ∷ cs) h recent = elim (Bool-cases (p c)) [
    | inl q ↦ ground (arith, newest-fresh_collections p cutoff later cs h recent, recent c q)
    | inr q ↦ ground (arith, newest-fresh_collections p cutoff later cs h recent)
  ]

  -- After a sweep with a cutoff, every lookup with that or a later cutoff answers as before the
  -- sweep: the five keyed lookups and the two matches against the collections, in tables with
  -- distinct keys.
  pub sweep_unseen :
      (ext : Externals Selector) (s : ScopeFacts Selector) (cutoff later : ℕ)
      → HasMaps s
      → cutoff ≤ later
      → ((uid r : String)
          → lookup_exact uid r later (sweep cutoff s).0 ≡ lookup_exact uid r later s)
        × ((uid : String) → lookup_latest uid later (sweep cutoff s).0 ≡ lookup_latest uid later s)
        × ((uid : String)
            → lookup_removal_pointer uid (sweep cutoff s).0 ≡ lookup_removal_pointer uid s)
        × ((r : String) → lookup_rv r later (sweep cutoff s).0 ≡ lookup_rv r later s)
        × ((ns n : String) → lookup_name ns n later (sweep cutoff s).0 ≡ lookup_name ns n later s)
        × ((q : FactQuery)
            → match_collection_uid q later (sweep cutoff s).0 ≡ match_collection_uid q later s)
        × ((q : FactQuery) (now window : ℕ)
            → match_collection_scope ext q now later window (sweep cutoff s).0
              ≡ match_collection_scope ext q now later window s)
  unfolding sweep compact lookup_exact lookup_latest lookup_removal_pointer lookup_rv lookup_name
      match_collection_uid match_collection_scope covers
  sweep_unseen ext s cutoff later u h = (
    (λ uid r. live_fact-fresh_entries cutoff later _ s.exact h u.exact_keys),
    (λ uid. live_fact-fresh_entries cutoff later uid s.latest h u.latest_keys),
    (λ uid. refl),
    (λ r. live_fact-fresh_entries cutoff later r s.rv_only h u.rv_keys),
    (λ ns n. live_fact-fresh_entries cutoff later _ s.by_name h u.name_keys),
    (λ q. newest-fresh_collections _ cutoff later s.collections h (λ c p. ground arith)),
    (λ q now window. newest-fresh_collections _ cutoff later s.collections h (λ c p. ground arith)),
  )
