-- ===== src/Api/Tests.antt =====
-- Runs of the models of api/v1alpha3 on concrete inputs.
use gitops_reverser.Base.{◌≡◌, refl, ◌&&◌}
use gitops_reverser.Api.Prune.{
  PruneMode, or_default, restrictiveness, applies_event_deletes, sweeps_orphans,
  more_restrictive_of, more_restrictive_of-meet,
}

tightened : more_restrictive_of PruneMode.always PruneMode.unset ≡ PruneMode.on_event
unfolding more_restrictive_of restrictiveness or_default
tightened = refl

more_restrictive_of-meet_example :
    (applies_event_deletes (more_restrictive_of PruneMode.always PruneMode.unset) ≡ (
      applies_event_deletes (or_default PruneMode.always)
      && applies_event_deletes (or_default PruneMode.unset)))
    × (sweeps_orphans (more_restrictive_of PruneMode.always PruneMode.unset) ≡ (
        sweeps_orphans (or_default PruneMode.always)
        && sweeps_orphans (or_default PruneMode.unset)))
more_restrictive_of-meet_example = more_restrictive_of-meet PruneMode.always PruneMode.unset
