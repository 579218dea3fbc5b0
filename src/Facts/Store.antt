-- ===== src/Facts/Store.antt =====
-- internal/queue/fact_index_store.go: the TTL sweep, the eviction and the compaction of the order.
use mathlib.Core.Option
use gitops_reverser.Base.{
  ℕ, ◌+◌, ◌-◌, Bool, true, false, Option, none, some, List, [], ◌∷◌, ◌==◌, EqType, ltb,
  if◌then◌else◌, string_eq, nat_eq,
}
use gitops_reverser.Base.Lists.{any, filter}
use gitops_reverser.Base.Table.{Table, get, remove}
use gitops_reverser.Facts.Model.{
  IndexedFact, IndexedCollection, FactRef, ScopeFacts, exact_eq, name_key_eq,
}

module _ {ℓ} {K : Type ℓ} where
  -- the loop that deletes the entries from before the cutoff
  unfoldable pub fresh_entries : ℕ → Table K IndexedFact → Table K IndexedFact
  fresh_entries cutoff [] = []
  fresh_entries cutoff ((k, e) ∷ m) =
      let rest = fresh_entries cutoff m in if ltb e.at cutoff then rest else (k, e) ∷ rest

  -- how many it deletes
  unfoldable pub stale_count : ℕ → Table K IndexedFact → ℕ
  stale_count cutoff [] = 0
  stale_count cutoff ((k, e) ∷ m) =
      let rest = stale_count cutoff m in if ltb e.at cutoff then rest + 1 else rest

abbrev pub is_at : ℕ → Option IndexedFact → Bool
is_at seq none = false
is_at seq (some entry) = entry.seq == seq

module _ {ℓ} {K : Type ℓ} ⦃same : EqType K⦄ where
  unfoldable pub live_keyed : Table K IndexedFact → K → ℕ → Bool
  live_keyed m k seq = is_at seq (get k m)

  -- the map without the key, if the entry there has the sequence number
  unfoldable pub remove_keyed : Table K IndexedFact → K → ℕ → Option (Table K IndexedFact)
  remove_keyed m k seq = if is_at seq (get k m) then some (remove k m) else none

module _ {Selector : Type 0} where
  unfoldable pub fresh_collections :
      ℕ → List (IndexedCollection Selector) → List (IndexedCollection Selector)
  fresh_collections cutoff [] = []
  fresh_collections cutoff (c ∷ cs) =
      let rest = fresh_collections cutoff cs in if ltb c.at cutoff then rest else c ∷ rest

  unfoldable pub stale_collections : ℕ → List (IndexedCollection Selector) → ℕ
  stale_collections cutoff [] = 0
  stale_collections cutoff (c ∷ cs) =
      let rest = stale_collections cutoff cs in if ltb c.at cutoff then rest + 1 else rest

  unfoldable pub live : ScopeFacts Selector → FactRef → Bool
  live s (FactRef.exact k seq) = live_keyed s.exact k seq
  live s (FactRef.latest uid seq) = live_keyed s.latest uid seq
  live s (FactRef.removal uid seq) = live_keyed s.removals uid seq
  live s (FactRef.rv r seq) = live_keyed s.rv_only r seq
  live s (FactRef.name k seq) = live_keyed s.by_name k seq
  live s (FactRef.collection seq) = any (λ c. c.seq == seq) s.collections

  -- the capacity of the slice is not observable
  unfoldable pub compact : ScopeFacts Selector → ScopeFacts Selector
  compact s = record s { order = filter (live s) s.order }

  -- the second result is the number of entries removed
  unfoldable pub sweep : ℕ → ScopeFacts Selector → ScopeFacts Selector × ℕ
  sweep cutoff s =
      let removed =
        stale_count cutoff s.exact
        + stale_count cutoff s.latest
        + stale_count cutoff s.rv_only
        + stale_count cutoff s.by_name
        + stale_collections cutoff s.collections in
      (
        compact (record s {
          exact = fresh_entries cutoff s.exact;
          latest = fresh_entries cutoff s.latest;
          rv_only = fresh_entries cutoff s.rv_only;
          by_name = fresh_entries cutoff s.by_name;
          collections = fresh_collections cutoff s.collections;
          count = s.count - removed;
        }),
        removed,
      )

  unfoldable pub empty : ScopeFacts Selector → Bool
  empty s = s.count == 0

  unfoldable pub remove_collection :
      ℕ → List (IndexedCollection Selector) → Option (List (IndexedCollection Selector))
  remove_collection seq [] = none
  remove_collection seq (c ∷ cs) =
      let rest = remove_collection seq cs in
      if c.seq == seq then some cs else Option.map (λ xs. c ∷ xs) rest

  -- the tables after `remove`, if it removed the entry of the reference
  unfoldable pub remove_ref : FactRef → ScopeFacts Selector → Option (ScopeFacts Selector)
  remove_ref (FactRef.exact k seq) s =
      Option.map (λ m. record s { exact = m }) (remove_keyed s.exact k seq)
  remove_ref (FactRef.latest uid seq) s =
      Option.map (λ m. record s { latest = m }) (remove_keyed s.latest uid seq)
  remove_ref (FactRef.removal uid seq) s =
      Option.map (λ m. record s { removals = m }) (remove_keyed s.removals uid seq)
  remove_ref (FactRef.rv r seq) s =
      Option.map (λ m. record s { rv_only = m }) (remove_keyed s.rv_only r seq)
  remove_ref (FactRef.name k seq) s =
      Option.map (λ m. record s { by_name = m }) (remove_keyed s.by_name k seq)
  remove_ref (FactRef.collection seq) s =
      Option.map (λ cs. record s { collections = cs }) (remove_collection seq s.collections)

  abbrev pub evicted :
      List FactRef
      → Option (ScopeFacts Selector)
      → ScopeFacts Selector × Bool
      → ScopeFacts Selector × Bool
  evicted order none rest = rest
  evicted order (some s) rest = (record s { order = order; count = s.count - 1 }, true)

  -- the loop over the order: it drops references until one removes an entry
  unfoldable pub evict_from : List FactRef → ScopeFacts Selector → ScopeFacts Selector × Bool
  unfolding remove_ref
  evict_from [] s = (record s { order = [] }, false)
  evict_from (ref ∷ order) s = evicted order (remove_ref ref s) (evict_from order s)

  unfoldable pub evict_oldest : ScopeFacts Selector → ScopeFacts Selector × Bool
  evict_oldest s = evict_from s.order s
