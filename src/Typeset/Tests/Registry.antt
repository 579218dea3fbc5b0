-- ===== src/Typeset/Tests/Registry.antt =====
-- A deployment type that is seen once, goes absent, and is dropped after its grace.
use mathlib.Core.Path.{subst}
use gitops_reverser.Base.{
  ℕ, ◌*◌, ◌-◌, ◌<◌, String, ◌≡◌, refl, sym, ap, ◌∙◌, true, none, some, [], ◌∷◌, arith,
}
use gitops_reverser.Base.Lists.{any}
use gitops_reverser.Base.Keys.{keys_where}
use gitops_reverser.Base.Table.{get, put, fill_absent, map_values, is_empty}
use gitops_reverser.Typeset.Model.{Gvr, gvr_eq, is_followable, failed}
use gitops_reverser.Typeset.Lifecycle.{
  RecordKey, key_eq, Entry, second, lifecycle_step, settle_entry, due_activation,
  append_transition_event, transition_between, compute_lifecycle, lifecycle_entries, removal_grace,
}
use gitops_reverser.Typeset.Registry.{
  Registry, new_registry, fresh_entry, record_from_observation, observation_key, observe_all,
  retain_absent, update, absent_from, same_key_set, followable_keys,
}
use gitops_reverser.Typeset.Registry.Retention.{IsWellFormed}
use gitops_reverser.Typeset.Registry.Published.{
  IsWellFormed-empty, update-IsWellFormed, lifecycle_step-keeps, reported,
}
use gitops_reverser.Typeset.Registry.Grace.{
  Round, run, HeldSince, update-HeldSince, absence_held, absence_expires,
}
use gitops_reverser.Typeset.Registry.Removal.{announces_removal, removal_announced}
use gitops_reverser.Typeset.Registry.Revision.{live_at, revision_unchanged}
use gitops_reverser.Typeset.Funnel.{
  evaluate, derive_verdict, all_checks, served_check, trusted_check, stable_check, identity_check,
  scope_check, verbs_check, origin_check, policy_check, sensitivity_check, scale_check,
  failed_checks, has_reason, only_transient_failures, missing_verbs,
}
use gitops_reverser.Typeset.Tests.Funnel.{deployment, deployment_followable}

abbrev show : Gvr → String
show g = g.resource

abbrev key : RecordKey
key = record {
  gvk = record { group = "apps"; version = "v1"; kind = "Deployment" };
  gvr = record { group = "apps"; version = "v1"; resource = "deployments" };
  scope = deployment.identity.scope;
}

abbrev seen : Registry
seen = (update show (deployment ∷ []) 1 0 new_registry).0

seen-IsWellFormed : IsWellFormed seen.entries
seen-IsWellFormed =
    update-IsWellFormed show (deployment ∷ []) 1 0 new_registry
      (unfold new_registry in IsWellFormed-empty)

update-IsWellFormed_example :
    IsWellFormed (update show (deployment ∷ []) 1 0 new_registry).0.entries
unfolding new_registry
update-IsWellFormed_example =
    update-IsWellFormed show (deployment ∷ []) 1 0 new_registry IsWellFormed-empty

abbrev seen_entry : Entry
seen_entry = (lifecycle_step none (fresh_entry deployment 1) 0 1).0

get-seen : get key seen.entries ≡ some seen_entry
unfolding update compute_lifecycle lifecycle_entries map_values retain_absent fill_absent
    observe_all observation_key get put new_registry key_eq
get-seen = refl

fresh_live : is_followable (fresh_entry deployment 1).type_record ≡ true
unfolding is_followable fresh_entry record_from_observation
fresh_live = rw deployment_followable

seen_live : is_followable seen_entry.type_record ≡ true
seen_live =
    ap is_followable (lifecycle_step-keeps none (fresh_entry deployment 1) 0 1).1 ∙ fresh_live

seen_present : seen_entry.absent_since ≡ none
unfolding fresh_entry
seen_present = (lifecycle_step-keeps none (fresh_entry deployment 1) 0 1).2

abbrev quiet : ℕ → Round
quiet t = record { observations = []; generation = 1; now = t * second }

unreported : (t : ℕ) → reported [] 1 key ≡ none
unfolding observe_all get
unreported t = refl

abbrev absent : Registry
absent = run show (quiet 10 ∷ []) seen

absent_held : HeldSince key (10 * second) absent
unfolding absent_from
absent_held =
    subst (λ t. HeldSince key t absent) (ap (λ o. absent_from o (10 * second)) seen_present)
      (update-HeldSince show key seen (quiet 10) seen_entry seen-IsWellFormed get-seen seen_live
        (unreported 10)
        (subst (λ o. 10 * second - absent_from o (10 * second) < removal_grace) (sym seen_present)
          (omega arith)))

absence_held_example : HeldSince key (10 * second) (run show (quiet 40 ∷ quiet 69 ∷ []) absent)
absence_held_example =
    absence_held show key (10 * second) (quiet 40 ∷ quiet 69 ∷ []) absent
      (update-IsWellFormed show [] 1 (10 * second) seen seen-IsWellFormed) absent_held
      ((unreported 40, omega arith), ((unreported 69, omega arith), tt))

absence_expires_example :
    get key (run show (quiet 70 ∷ []) (run show (quiet 40 ∷ []) absent)).entries ≡ none
absence_expires_example =
    absence_expires show key (10 * second) (quiet 40 ∷ []) absent (quiet 70)
      (update-IsWellFormed show [] 1 (10 * second) seen seen-IsWellFormed) absent_held
      ((unreported 40, omega arith), tt) (unreported 70) (omega arith)

abbrev gone : Registry
gone = (update show [] 1 (70 * second) absent).0

removal_announced_example :
    any (announces_removal key.gvr) (update show [] 1 (70 * second) absent).1 ≡ true
removal_announced_example =
    removal_announced show [] 1 (70 * second) absent key (absent_held.0)
      (update-IsWellFormed show [] 1 (10 * second) seen seen-IsWellFormed) (absent_held.1)
      (absent_held.2)
      (absence_expires show key (10 * second) [] absent (quiet 70)
        (update-IsWellFormed show [] 1 (10 * second) seen seen-IsWellFormed) absent_held tt
        (unreported 70) (omega arith))

revision_kept : (update show (deployment ∷ []) 1 second seen).0.revision ≡ seen.revision
unfolding update compute_lifecycle lifecycle_entries map_values retain_absent fill_absent
    observe_all observation_key get put new_registry key_eq same_key_set followable_keys keys_where
    fresh_entry record_from_observation is_followable lifecycle_step settle_entry due_activation
    evaluate derive_verdict all_checks served_check trusted_check stable_check identity_check
    scope_check verbs_check origin_check policy_check sensitivity_check scale_check failed_checks
    has_reason only_transient_failures missing_verbs is_empty failed append_transition_event
    transition_between
revision_kept = refl

revision_unchanged_example :
    (◌≡◌ {A = ℕ} 1 seen.generation)
    × ((k : RecordKey)
        → live_at k (update show (deployment ∷ []) 1 second seen).0.entries
          ≡ live_at k seen.entries)
revision_unchanged_example =
    revision_unchanged show (deployment ∷ []) 1 second seen seen-IsWellFormed revision_kept
