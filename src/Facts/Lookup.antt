-- ===== src/Facts/Lookup.antt =====
-- internal/queue/fact_index.go, the tiers of `Lookup` over the scope that the query names; `none`
-- stands for a scope that the index does not hold. The clock's reading is the argument `now`.
use text.Mathlib.Text.{◌==◌ as text_eq}
use gitops_reverser.Base.{
  ℕ, ◌-◌, String, Bool, true, false, not, ◌&&◌, ◌||◌, Option, none, some, if◌then◌else◌,
}
use gitops_reverser.Base.Text.{codes, equal_fold}
use gitops_reverser.Facts.Model.{
  AuthorFact, ScopeFacts, Externals, FactQuery, lookup_exact, lookup_latest, lookup_removal_pointer,
  lookup_rv, lookup_name, match_collection_uid, match_collection_scope,
}

pub data AttributionResult : Type 0 where
  delete_sticky exact latest resource_version delete_collection_body_uid name : AttributionResult
  delete_collection_scope absent : AttributionResult

-- `fact` is the zero AuthorFact, here none, when the result is absent
pub record AuthorResolution : Type 0 where
  pub fact : Option AuthorFact
  pub result : AttributionResult

abbrev pub absent_resolution : AuthorResolution
absent_resolution = record { fact = none; result = AttributionResult.absent }

-- the resolution of a tier whose lookup found a fact, and the next tier otherwise
abbrev pub or_else : Option AuthorFact → AttributionResult → AuthorResolution → AuthorResolution
or_else none result next = next
or_else (some fact) result next = record { fact = some fact; result = result }

unfoldable pub is_removal_verb : String → Bool
is_removal_verb verb =
    equal_fold (codes verb) (codes "delete") || equal_fold (codes verb) (codes "deletecollection")

abbrev pub if_removal : Option AuthorFact → Option AuthorFact
if_removal none = none
if_removal (some fact) = if is_removal_verb fact.verb then some fact else none

-- the tiers that are tried only if the test holds
abbrev pub when : Bool → Option AuthorFact → Option AuthorFact
when test o = if test then o else none

module _ {Selector : Type 0} where
  unfoldable pub sticky_removal : ScopeFacts Selector → FactQuery → Option AuthorFact
  sticky_removal s q = if text_eq q.uid "" then none else lookup_removal_pointer q.uid s

module _ {Selector : Type 0} (ext : Externals Selector) (window : ℕ) where
  unfoldable pub lookup_removal :
      ScopeFacts Selector → FactQuery → ℕ → ℕ → AuthorResolution → AuthorResolution
  lookup_removal s q now cutoff next =
      let has_uid = not (text_eq q.uid "") in
      let latest = when has_uid (lookup_latest q.uid cutoff s) in
      or_else (when has_uid (match_collection_uid q cutoff s))
        AttributionResult.delete_collection_body_uid
        (or_else (if_removal latest) AttributionResult.latest (
          or_else
            (when (not (text_eq q.name "")) (if_removal (lookup_name q.namespace q.name cutoff s)))
            AttributionResult.name
            (or_else latest AttributionResult.latest (
              or_else (match_collection_scope ext q now cutoff window s)
                AttributionResult.delete_collection_scope next))))

  -- the last tiers, which every query tries
  unfoldable pub lookup_floor : ScopeFacts Selector → FactQuery → ℕ → AuthorResolution
  lookup_floor s q cutoff =
      or_else (when (not (text_eq q.resource_version "")) (lookup_rv q.resource_version cutoff s))
        AttributionResult.resource_version
        (or_else (when (not (text_eq q.name "")) (lookup_name q.namespace q.name cutoff s))
          AttributionResult.name absent_resolution)

  unfoldable pub lookup_in : ScopeFacts Selector → FactQuery → ℕ → ℕ → AuthorResolution
  unfolding lookup_removal lookup_floor sticky_removal
  lookup_in s q now cutoff =
      or_else (when (not q.exact_capable) (sticky_removal s q)) AttributionResult.delete_sticky (
        or_else
          (when (not (text_eq q.uid "") && not (text_eq q.resource_version ""))
            (lookup_exact q.uid q.resource_version cutoff s))
          AttributionResult.exact
          (if not q.exact_capable
            then lookup_removal s q now cutoff (lookup_floor s q cutoff)
            else lookup_floor s q cutoff))

  unfoldable pub lookup : ℕ → Option (ScopeFacts Selector) → FactQuery → ℕ → AuthorResolution
  unfolding lookup_in
  lookup ttl none q now = absent_resolution
  lookup ttl (some s) q now = lookup_in s q now (now - ttl)

abbrev is_write_tier : AttributionResult → Bool
is_write_tier AttributionResult.exact = true
is_write_tier AttributionResult.latest = true
is_write_tier AttributionResult.resource_version = true
is_write_tier AttributionResult.name = true
is_write_tier _ = false

abbrev verb_of : Option AuthorFact → String
verb_of none = ""
verb_of (some fact) = fact.verb

unfoldable pub awaits_better_evidence : FactQuery → AuthorResolution → Bool
awaits_better_evidence q r =
    if q.exact_capable
    then false
    else is_write_tier r.result && not (is_removal_verb (verb_of r.fact))
