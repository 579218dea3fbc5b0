-- ===== src/Api/Prune.antt =====
-- api/v1alpha3/prune_policy.go: which deletion paths may remove a managed document.
use gitops_reverser.Base.{
  ℕ, String, ◌≡◌, Bool, true, false, ◌&&◌, Option, none, some, arith, ltb, if◌then◌else◌,
}

-- A Go string type: `unset` is "", and `other` any text that is none of the declared modes.
pub data PruneMode : Type 0 where
  unset never on_event always : PruneMode
  other : String → PruneMode

unfoldable pub or_default : PruneMode → PruneMode
or_default unset = PruneMode.on_event
or_default m = m

-- `p.Mode` of a policy that may be nil
unfoldable pub effective_mode : Option PruneMode → PruneMode
unfolding or_default
effective_mode none = PruneMode.on_event
effective_mode (some mode) = or_default mode

unfoldable pub applies_event_deletes : PruneMode → Bool
applies_event_deletes PruneMode.on_event = true
applies_event_deletes PruneMode.always = true
applies_event_deletes _ = false

unfoldable pub sweeps_orphans : PruneMode → Bool
sweeps_orphans PruneMode.always = true
sweeps_orphans _ = false

restrictiveness_of : PruneMode → ℕ
restrictiveness_of PruneMode.always = 2
restrictiveness_of PruneMode.on_event = 1
restrictiveness_of PruneMode.never = 0
restrictiveness_of _ = 0

unfoldable pub restrictiveness : PruneMode → ℕ
unfolding or_default restrictiveness_of
restrictiveness m = restrictiveness_of (or_default m)

unfoldable pub more_restrictive_of : PruneMode → PruneMode → PruneMode
unfolding restrictiveness or_default
more_restrictive_of m n =
    if ltb (restrictiveness n) (restrictiveness m) then or_default n else or_default m

-- A write planned under one mode and applied under another may delete on a path exactly when both
-- modes authorize that path, where an unset mode counts as its default.
pub more_restrictive_of-meet :
    (m n : PruneMode)
    → (applies_event_deletes (more_restrictive_of m n)
        ≡ (applies_event_deletes (or_default m) && applies_event_deletes (or_default n)))
      × (sweeps_orphans (more_restrictive_of m n)
          ≡ (sweeps_orphans (or_default m) && sweeps_orphans (or_default n)))
unfolding more_restrictive_of applies_event_deletes sweeps_orphans
more_restrictive_of-meet m n = ground arith
