-- ===== src/Typeset/Funnel/Verdicts.antt =====
-- The verdict of `Evaluate`, described without the list of checks.
use gitops_reverser.Base.{
  ◌≡◌, refl, Bool, false, not, ◌&&◌, ◌||◌, List, [], ◌∷◌, false, arith, ◌==◌, nat_eq, if◌then◌else◌,
}
use gitops_reverser.Base.Table.{is_empty}
use gitops_reverser.Base.Lists.{any, all}
use gitops_reverser.Typeset.Model.{
  Verdict, verdict_eq, was_live, Reason, reason_index, Check, failed,
}
use gitops_reverser.Typeset.Funnel.{
  Observation, scope_known, origin_known, is_transient, missing_verbs, failed_checks, has_reason,
  only_transient_failures, derive_verdict, all_checks, evaluate, served_check, trusted_check,
  stable_check, identity_check, scope_check, verbs_check, origin_check, policy_check,
  sensitivity_check, scale_check,
}

-- The facts that no grace covers: each must hold for the type to be live.
unfoldable pub permanent : Observation → Bool
permanent obs =
    not obs.absence_expired
    && obs.gvk_unique
    && obs.gvr_unique
    && scope_known obs.identity.scope
    && is_empty (missing_verbs obs.verbs)
    && origin_known obs.origin.kind
    && not obs.denied
    && (not obs.sensitive || obs.sensitive_supported)
    && (not obs.subresources.scale.enabled || obs.subresources.scale.usable)

unfoldable pub expected_verdict : Observation → Verdict
unfolding permanent
expected_verdict obs =
    if not obs.trusted && not obs.catalog_ready
    then Verdict.unknown
    else if not (permanent obs)
    then Verdict.refused
    else if obs.served && obs.trusted
    then Verdict.followable
    else Verdict.retained

pub failed_checks-is_empty :
    (cs : List Check) → is_empty (failed_checks cs) ≡ all (λ c. not (failed c)) cs
unfolding failed_checks is_empty
failed_checks-is_empty [] = refl
failed_checks-is_empty (c ∷ cs) = ground (arith, failed_checks-is_empty cs)

pub has_reason-failed_checks :
    (cs : List Check) (why : Reason)
    → has_reason (failed_checks cs) why
      ≡ any (λ c. failed c && reason_index c.reason == reason_index why) cs
unfolding failed_checks has_reason
has_reason-failed_checks [] why = refl
has_reason-failed_checks (c ∷ cs) why = ground (arith, has_reason-failed_checks cs why)

pub only_transient-failed_checks :
    (cs : List Check)
    → only_transient_failures (failed_checks cs)
      ≡ all (λ c. not (failed c) || is_transient c.requirement) cs
unfolding failed_checks only_transient_failures
only_transient-failed_checks [] = refl
only_transient-failed_checks (c ∷ cs) = ground (arith, only_transient-failed_checks cs)

abbrev unavailable : Check → Bool
unavailable c = failed c && reason_index c.reason == reason_index Reason.catalog_unavailable

module _ (obs : Observation) where
  all_pass :
      all (λ c. not (failed c)) (all_checks obs) ≡ (obs.served && obs.trusted && permanent obs)
  unfolding all_checks failed permanent served_check trusted_check stable_check identity_check
      scope_check verbs_check origin_check policy_check sensitivity_check scale_check
  all_pass = ground arith

  unavailable-stable : unavailable (stable_check obs) ≡ false
  unfolding stable_check failed
  unavailable-stable = ground arith

  unavailable-identity : unavailable (identity_check obs) ≡ false
  unfolding identity_check failed
  unavailable-identity = ground arith

  unavailable-scope : unavailable (scope_check obs) ≡ false
  unfolding scope_check failed
  unavailable-scope = ground arith

  unavailable-verbs : unavailable (verbs_check obs) ≡ false
  unfolding verbs_check failed
  unavailable-verbs = ground arith

  unavailable-origin : unavailable (origin_check obs) ≡ false
  unfolding origin_check failed
  unavailable-origin = ground arith

  unavailable-policy : unavailable (policy_check obs) ≡ false
  unfolding policy_check failed
  unavailable-policy = ground arith

  unavailable-sensitivity : unavailable (sensitivity_check obs) ≡ false
  unfolding sensitivity_check failed
  unavailable-sensitivity = ground arith

  unavailable-scale : unavailable (scale_check obs) ≡ false
  unfolding scale_check failed
  unavailable-scale = ground arith

  unavailable-served : unavailable (served_check obs) ≡ false
  unfolding served_check failed
  unavailable-served = ground arith

  unavailable-trusted : unavailable (trusted_check obs) ≡ (not obs.trusted && not obs.catalog_ready)
  unfolding trusted_check failed
  unavailable-trusted = ground arith

  some_unavailable : any unavailable (all_checks obs) ≡ (not obs.trusted && not obs.catalog_ready)
  unfolding all_checks
  some_unavailable = ground (
    arith, unavailable-stable, unavailable-identity, unavailable-scope, unavailable-verbs,
    unavailable-origin, unavailable-policy, unavailable-sensitivity, unavailable-scale,
    unavailable-served, unavailable-trusted,
  )

  only_transient :
      all (λ c. not (failed c) || is_transient c.requirement) (all_checks obs) ≡ permanent obs
  unfolding all_checks failed permanent served_check trusted_check stable_check identity_check
      scope_check verbs_check origin_check policy_check sensitivity_check scale_check
  only_transient = ground arith

-- The funnel decides: unknown exactly when nothing trusted was ever discovered, otherwise refused
-- when a permanent requirement fails, otherwise followable when the type is served and trusted, and
-- retained when it is not.
pub evaluate-verdict : (obs : Observation) → (evaluate obs).verdict ≡ expected_verdict obs
unfolding evaluate derive_verdict expected_verdict
evaluate-verdict obs =
    rw
      (
        failed_checks-is_empty, has_reason-failed_checks, only_transient-failed_checks, all_pass,
        some_unavailable, only_transient,
      )
      (ground arith)

-- A type is in the live set exactly when every permanent requirement holds and either it is trusted
-- or the catalog is ready.
pub evaluate-was_live :
    (obs : Observation)
    → was_live (evaluate obs).verdict ≡ (permanent obs && (obs.trusted || obs.catalog_ready))
unfolding was_live expected_verdict
evaluate-was_live obs = rw evaluate-verdict (ground arith)
