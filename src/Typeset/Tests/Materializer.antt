-- ===== src/Typeset/Tests/Materializer.antt =====
-- A type that is claimed, activated, synced, and released when its claim lapses.
use gitops_reverser.Base.{String, ◌≡◌, refl, true, false, some, List, [], ◌∷◌, arith, string_eq}
use gitops_reverser.Base.Table.{get, put, map_values, is_empty, UniqueKeys}
use gitops_reverser.Base.Lists.{contains}
use gitops_reverser.Typeset.Model.{Gvr, gvr_eq}
use gitops_reverser.Typeset.Lifecycle.{EventKind}
use gitops_reverser.Typeset.Sync.{
  Phase, TypeState, maybe_request, activate, begin_state, succeed, release, sweep_type, sweep_phase,
}
use gitops_reverser.Typeset.Materializer.{
  Materializer, new_materializer, state_of, refs_of, claimed, declare_one, declare_all,
  on_lifecycle_activated, on_lifecycle_kind, begin_sync, sync_succeeded, sweep_state, gc_claims,
  gc_unclaimed, live_refs, touch_all, sweep_types, phase_of, checkpoint, pending_syncs,
}
use gitops_reverser.Typeset.Materializer.Frames.{
  declares, Reach, here, next, AllSound, Reach-AllSound,
}
use gitops_reverser.Typeset.Materializer.Maps.{Reach-AreMaps}
use gitops_reverser.Typeset.Materializer.Claims.{
  Declaration, declare_each, last_named, is_waiting, sweep_leases, sweep_releases, sweep_serves,
}
use gitops_reverser.Typeset.Materializer.Orders.{
  claim_activation_converge, pending_begins, late_result_dropped,
}

abbrev pods : Gvr
pods = record { group = ""; version = "v1"; resource = "pods" }

abbrev wanted : Materializer
wanted = (declare_all "team-a" 1 (pods ∷ []) (new_materializer 0)).0

abbrev active : Materializer
active = (on_lifecycle_kind EventKind.activated pods 2 wanted).0

abbrev syncing : Materializer
syncing = (begin_sync pods 3 active).0

abbrev synced : Materializer
synced = (sync_succeeded pods "100" 4 syncing).0

-- the first sweep finds the claim renewed, the second does not
abbrev swept_once : Materializer
swept_once = sweep_state 10 synced

abbrev swept_twice : Materializer
swept_twice = sweep_state 20 swept_once

abbrev requested_state : TypeState
requested_state = record {
  phase = Phase.requested;
  followable = true;
  frozen = false;
  pending_resync = false;
  checkpoint_rv = "";
}

active_pods : get pods active.types ≡ some requested_state
unfolding new_materializer declare_all declare_one on_lifecycle_kind on_lifecycle_activated activate
    maybe_request state_of claimed refs_of get put is_empty gvr_eq
active_pods = refl

synced_serves : checkpoint synced pods ≡ "100"
unfolding new_materializer declare_all declare_one on_lifecycle_kind on_lifecycle_activated activate
    maybe_request state_of claimed refs_of get put is_empty gvr_eq begin_sync begin_state
    sync_succeeded succeed checkpoint
synced_serves = refl

lapsed : claimed swept_twice.claims pods ≡ false
unfolding new_materializer declare_all declare_one on_lifecycle_kind on_lifecycle_activated activate
    maybe_request state_of claimed refs_of get put is_empty gvr_eq begin_sync begin_state
    sync_succeeded succeed sweep_state gc_claims live_refs
lapsed = refl

still_claimed : claimed swept_once.claims pods ≡ true
unfolding new_materializer declare_all declare_one on_lifecycle_kind on_lifecycle_activated activate
    maybe_request state_of claimed refs_of get put is_empty gvr_eq begin_sync begin_state
    sync_succeeded succeed sweep_state gc_claims live_refs
still_claimed = refl

unfrozen : (state_of swept_twice.types pods).frozen ≡ false
unfolding new_materializer declare_all declare_one on_lifecycle_kind on_lifecycle_activated activate
    maybe_request state_of claimed refs_of get put is_empty gvr_eq begin_sync begin_state
    sync_succeeded succeed sweep_state gc_claims live_refs gc_unclaimed touch_all sweep_types
    map_values sweep_type sweep_phase release
unfrozen = refl

sweep_releases_example : is_waiting (phase_of swept_twice pods) ≡ false
sweep_releases_example = sweep_releases swept_once 20 pods lapsed unfrozen

sweep_serves_example : checkpoint swept_once pods ≡ checkpoint synced pods
sweep_serves_example = sweep_serves synced 10 pods still_claimed

wanted_reached : Reach true (new_materializer 0) wanted
wanted_reached = next here (declares (new_materializer 0) "team-a" (pods ∷ []) 1)

-- after a sweep at 10, "team-a" no longer names the type, and "team-b" does
abbrev declarations : List Declaration
declarations = record { ref = "team-b"; desired = pods ∷ []; now = 12 } ∷ []

claimed_early : get "team-a" (refs_of wanted.claims pods) ≡ some 1
unfolding new_materializer declare_all declare_one refs_of get put gvr_eq
claimed_early = refl

sweep_leases_example :
    get "team-a"
      (refs_of (sweep_state 20 (declare_each declarations (sweep_state 10 wanted))).claims pods)
    ≡ last_named "team-a" pods declarations
sweep_leases_example =
    sweep_leases wanted 10 20 declarations pods "team-a" (Reach-AreMaps 0 wanted_reached)
      (rw claimed_early (omega arith)) (omega arith, tt)

Reach-AllSound_example : AllSound true wanted.types
Reach-AllSound_example = Reach-AllSound true 0 wanted_reached

claim_activation_converge_example :
    let a =
      (on_lifecycle_activated pods 2 (declare_one "team-a" 1 pods (new_materializer 0)).0).0 in
    let b =
      (declare_one "team-a" 1 pods (on_lifecycle_activated pods 2 (new_materializer 0)).0).0 in
    (state_of a.types pods ≡ state_of b.types pods) × (a.claims ≡ b.claims)
claim_activation_converge_example =
    claim_activation_converge (new_materializer 0) "team-a" pods 1 2 pods

abbrev gvr_text : Gvr → String
gvr_text g = g.resource

active_distinct : UniqueKeys active.types
unfolding new_materializer declare_all declare_one on_lifecycle_kind on_lifecycle_activated activate
    maybe_request state_of claimed refs_of get put is_empty gvr_eq
active_distinct = (refl, tt)

pending_begins_example :
    contains pods (pending_syncs gvr_text active) ≡ (begin_sync pods 3 active).2
pending_begins_example = pending_begins gvr_text active pods 3 active_distinct

late_result_dropped_example :
    let gone = (on_lifecycle_kind EventKind.removed pods 5 active).0 in
    ((sync_succeeded pods "7" 6 gone).0.types ≡ gone.types) × (phase_of gone pods ≡ Phase.dormant)
late_result_dropped_example = late_result_dropped active pods "7" 5 6 requested_state active_pods
