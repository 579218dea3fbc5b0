-- ===== src/Facts/Tiers.antt =====
-- internal/queue/fact_index.go: when `Lookup` gives the sticky answer, and its answers over a
-- sweep.
use text.Mathlib.Text.{◌==◌ as text_eq}
use gitops_reverser.Base.{
  ℕ, ◌-◌, ◌≤◌, ◌≡◌, refl, Bool, true, false, not, ◌&&◌, some, arith, is_some,
}
use gitops_reverser.Facts.Model.{ScopeFacts, Externals, FactQuery, lookup_removal_pointer}
use gitops_reverser.Facts.Store.{sweep}
use gitops_reverser.Facts.Sweeps.{HasMaps, sweep_unseen}
use gitops_reverser.Facts.Lookup.{
  AttributionResult, AuthorResolution, sticky_removal, lookup_removal, lookup_floor, lookup_in,
  lookup,
}

abbrev pub is_sticky : AttributionResult → Bool
is_sticky AttributionResult.delete_sticky = true
is_sticky _ = false

module _ {Selector : Type 0} (ext : Externals Selector) (window : ℕ) where
  floor_not_sticky :
      (s : ScopeFacts Selector) (q : FactQuery) (cutoff : ℕ)
      → is_sticky (lookup_floor ext window s q cutoff).result ≡ false
  unfolding lookup_floor
  floor_not_sticky s q cutoff = ground arith

  removal_not_sticky :
      (s : ScopeFacts Selector) (q : FactQuery) (now cutoff : ℕ) (next : AuthorResolution)
      → is_sticky next.result ≡ false
      → is_sticky (lookup_removal ext window s q now cutoff next).result ≡ false
  unfolding lookup_removal
  removal_not_sticky s q now cutoff next h = ground arith

  -- In a scope that the index holds, the answer is the sticky one exactly when the query is of a
  -- removal, has a uid, and a removal of that uid is on record, however long ago.
  pub lookup_sticky :
      (ttl : ℕ) (s : ScopeFacts Selector) (q : FactQuery) (now : ℕ)
      → is_sticky (lookup ext window ttl (some s) q now).result ≡ (
          not q.exact_capable && not (text_eq q.uid "") && is_some (lookup_removal_pointer q.uid s))
  unfolding lookup lookup_in sticky_removal
  lookup_sticky ttl s q now = ground (
    arith,
    floor_not_sticky s q (now - ttl),
    removal_not_sticky s q now (now - ttl) (lookup_floor ext window s q (now - ttl))
        (floor_not_sticky s q (now - ttl)),
  )

  -- A sweep at one instant leaves the answer to every query at that instant or later as it was, in
  -- a scope whose tables have distinct keys.
  pub lookup-sweep :
      (ttl : ℕ) (s : ScopeFacts Selector) (q : FactQuery) (swept now : ℕ)
      → HasMaps s
      → swept ≤ now
      → lookup ext window ttl (some (sweep (swept - ttl) s).0) q now
        ≡ lookup ext window ttl (some s) q now
  unfolding lookup lookup_in sticky_removal lookup_removal lookup_floor
  lookup-sweep ttl s q swept now u h =
      let (ex, la, re, rv, na, cu, cs) =
        sweep_unseen ext s (swept - ttl) (now - ttl) u (omega (arith, h)) in
      rw
        (
          ex q.uid q.resource_version,
          la q.uid,
          re q.uid,
          rv q.resource_version,
          na q.namespace q.name,
          cu q,
          cs q now window,
        )
        refl
