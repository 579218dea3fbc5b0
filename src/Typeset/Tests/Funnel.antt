-- ===== src/Typeset/Tests/Funnel.antt =====
-- One deployment type, and what the funnel and the lifecycle say of it.
use gitops_reverser.Base.{
  ◌≡◌, refl, true, false, none, some, List, [], ◌∷◌, ◌≤◌, ◌-◌, ◌*◌, ℕ, nat_eq,
}
use gitops_reverser.Base.Lists.{any}
use gitops_reverser.Base.Table.{is_empty}
use gitops_reverser.Typeset.Model.{
  Scope, OriginKind, Confidence, Verdict, verdict_eq, first_failure, failed,
}
use gitops_reverser.Typeset.Funnel.{
  Observation, evaluate, derive_verdict, all_checks, served_check, trusted_check, stable_check,
  identity_check, scope_check, verbs_check, origin_check, policy_check, sensitivity_check,
  scale_check, failed_checks, has_reason, only_transient_failures, missing_verbs, summarize,
  reason_phrase,
}
use gitops_reverser.Typeset.Funnel.Verdicts.{permanent, expected_verdict, evaluate-verdict}
use gitops_reverser.Typeset.Lifecycle.{
  Entry, EventKind, second, settle_window, verdict_of, lifecycle_step, settle_entry, due_activation,
  append_transition_event, lifecycle_event,
}
use gitops_reverser.Typeset.Lifecycle.Streak.{
  Round, is_kind, count_kind, run_events, activated_once, activated_settled,
}
use gitops_reverser.Typeset.Registry.{fresh_entry, record_from_observation}

abbrev pub deployment : Observation
deployment = record {
  identity = record {
    gvk = record { group = "apps"; version = "v1"; kind = "Deployment" };
    gvr = record { group = "apps"; version = "v1"; resource = "deployments" };
    scope = Scope.namespaced;
  };
  origin = record { kind = OriginKind.builtin; confidence = Confidence.inferred; evidence = "" };
  preferred = true;
  verbs = "get" ∷ "list" ∷ "watch" ∷ [];
  subresources = record {
    status_enabled = true;
    scale = record {
      enabled = false;
      source = "";
      response_gvk = record { group = ""; version = ""; kind = "" };
      spec_replicas_path = "";
      status_replicas_path = "";
      selector_path = "";
      selector_kind = "";
      usable = false;
    };
  };
  served = true;
  subresource_only = false;
  trusted = true;
  catalog_ready = true;
  absence_expired = false;
  gvk_unique = true;
  gvr_unique = true;
  gvk_conflict_detail = "";
  gvr_conflict_detail = "";
  denied = false;
  deny_detail = "";
  sensitive = false;
  sensitive_supported = true;
}

-- discovery of its group fails
abbrev degraded : Observation
degraded = record deployment { trusted = false }

degraded-retained : (evaluate degraded).verdict ≡ Verdict.retained
unfolding expected_verdict permanent missing_verbs is_empty
degraded-retained = evaluate-verdict degraded

degraded_summary :
    (evaluate degraded).summary ≡ "retained — discovery degraded for its group/version"
unfolding evaluate derive_verdict all_checks served_check trusted_check stable_check identity_check
    scope_check verbs_check origin_check policy_check sensitivity_check scale_check failed_checks
    has_reason only_transient_failures missing_verbs is_empty failed summarize first_failure
    reason_phrase
degraded_summary = refl

evaluate-verdict_example : (evaluate degraded).verdict ≡ expected_verdict degraded
evaluate-verdict_example = evaluate-verdict degraded

abbrev healthy_rounds : List Round
healthy_rounds =
    record { entry = fresh_entry deployment 1; now = 0; generation = 1 }
    ∷ record { entry = fresh_entry deployment 2; now = settle_window; generation = 2 }
    ∷ record { entry = fresh_entry deployment 3; now = 20 * second; generation = 3 }
    ∷ []

pub deployment_followable : (evaluate deployment).verdict ≡ Verdict.followable
unfolding expected_verdict permanent missing_verbs is_empty
deployment_followable = evaluate-verdict deployment

activated_once_example : count_kind EventKind.activated (run_events none healthy_rounds) ≤ 1
unfolding fresh_entry record_from_observation
activated_once_example =
    activated_once none healthy_rounds
      (deployment_followable, (deployment_followable, (deployment_followable, tt)))

abbrev settling : Entry
settling = record (fresh_entry deployment 1) { followable_since = some 0 }

activates_at_window :
    any
      (is_kind EventKind.activated)
      (lifecycle_step (some settling) (fresh_entry deployment 2) settle_window 2).1
    ≡ true
unfolding fresh_entry record_from_observation lifecycle_step settle_entry due_activation
    append_transition_event lifecycle_event
activates_at_window = rw deployment_followable

activated_settled_example :
    (verdict_of (fresh_entry deployment 2) ≡ Verdict.followable)
    × (verdict_of settling ≡ Verdict.followable)
    × (settling.activated ≡ false)
    × ((since : ℕ) × (settling.followable_since ≡ some since)
        × (settle_window ≤ settle_window - since))
unfolding fresh_entry
activated_settled_example =
    activated_settled settling (fresh_entry deployment 2) settle_window 2 refl activates_at_window
