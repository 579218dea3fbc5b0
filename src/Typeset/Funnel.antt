-- ===== src/Typeset/Funnel.antt =====
-- internal/typeset/funnel.go: one observation of a type is judged by ten checks in a fixed order.
pub mod Verdicts
use Prim.Native.String.{◌++◌ as text_append}
use gitops_reverser.Base.{
  ℕ, String, Bool, true, false, not, ◌&&◌, ◌||◌, Option, none, some, List, [], ◌∷◌, ◌==◌, string_eq,
  nat_eq, if◌then◌else◌,
}
use gitops_reverser.Base.Table.{is_empty}
use gitops_reverser.Base.Lists.{contains}
use gitops_reverser.Typeset.Model.{
  Identity, Scope, Origin, OriginKind, Subresources, ScaleBinding, Verdict, Requirement,
  requirement_index, Result, Reason, reason_index, Check, Followability, failed, first_failure,
}

pub record Observation : Type 0 where
  pub identity : Identity
  pub origin : Origin
  pub preferred : Bool
  pub verbs : List String
  pub subresources : Subresources
  pub served : Bool
  pub subresource_only : Bool
  pub trusted : Bool
  pub catalog_ready : Bool
  pub absence_expired : Bool
  pub gvk_unique : Bool
  pub gvr_unique : Bool
  pub gvk_conflict_detail : String
  pub gvr_conflict_detail : String
  pub denied : Bool
  pub deny_detail : String
  pub sensitive : Bool
  pub sensitive_supported : Bool

abbrev pub required_verbs : List String
required_verbs = "get" ∷ "list" ∷ "watch" ∷ []

abbrev pub pass_check : Requirement → Check
pass_check req = record {
  requirement = req;
  result = Result.pass;
  reason = Reason.unset;
  detail = "";
}

abbrev pub skip_check : Requirement → Check
skip_check req = record {
  requirement = req;
  result = Result.skip;
  reason = Reason.unset;
  detail = "";
}

abbrev pub fail_check : Requirement → Reason → String → Check
fail_check req why more = record {
  requirement = req;
  result = Result.fail;
  reason = why;
  detail = more;
}

unfoldable pub served_check : Observation → Check
served_check obs =
    if obs.served
    then pass_check Requirement.served
    else if obs.subresource_only
    then fail_check Requirement.served Reason.subresource_only ""
    else fail_check Requirement.served Reason.not_served ""

unfoldable pub trusted_check : Observation → Check
trusted_check obs =
    if obs.trusted
    then pass_check Requirement.trusted
    else if not obs.catalog_ready
    then fail_check Requirement.trusted Reason.catalog_unavailable ""
    else fail_check Requirement.trusted Reason.discovery_degraded ""

unfoldable pub stable_check : Observation → Check
stable_check obs =
    if obs.absence_expired
    then fail_check Requirement.stable Reason.absence_expired ""
    else pass_check Requirement.stable

unfoldable pub identity_check : Observation → Check
identity_check obs =
    if not obs.gvk_unique
    then fail_check Requirement.identity Reason.gvk_not_unique obs.gvk_conflict_detail
    else if not obs.gvr_unique
    then fail_check Requirement.identity Reason.gvr_not_unique obs.gvr_conflict_detail
    else pass_check Requirement.identity

abbrev pub scope_known : Scope → Bool
scope_known Scope.unknown = false
scope_known Scope.unset = false
scope_known _ = true

unfoldable pub scope_check : Observation → Check
scope_check obs =
    if scope_known obs.identity.scope
    then pass_check Requirement.scope
    else fail_check Requirement.scope Reason.scope_unknown ""

unfoldable pub missing_from : List String → List String → List String
missing_from advertised [] = []
missing_from advertised (req ∷ reqs) =
    let rest = missing_from advertised reqs in if contains req advertised then rest else req ∷ rest

unfoldable pub missing_verbs : List String → List String
unfolding missing_from
missing_verbs advertised = missing_from advertised required_verbs

-- strings.Join(missing, ", ")
unfoldable pub join_verbs : List String → String
join_verbs [] = ""
join_verbs (v ∷ []) = v
join_verbs (v ∷ w ∷ rest) = text_append v (text_append ", " (join_verbs (w ∷ rest)))

unfoldable pub verbs_check : Observation → Check
verbs_check obs =
    if is_empty (missing_verbs obs.verbs)
    then pass_check Requirement.verbs
    else fail_check Requirement.verbs Reason.missing_verb (join_verbs (missing_verbs obs.verbs))

abbrev pub origin_known : OriginKind → Bool
origin_known OriginKind.unknown = false
origin_known OriginKind.unset = false
origin_known _ = true

unfoldable pub origin_check : Observation → Check
origin_check obs =
    if origin_known obs.origin.kind
    then pass_check Requirement.origin
    else fail_check Requirement.origin Reason.origin_unknown ""

unfoldable pub policy_check : Observation → Check
policy_check obs =
    if obs.denied
    then fail_check Requirement.policy Reason.denied_by_policy obs.deny_detail
    else pass_check Requirement.policy

unfoldable pub sensitivity_check : Observation → Check
sensitivity_check obs =
    if obs.sensitive && not obs.sensitive_supported
    then fail_check Requirement.sensitivity Reason.sensitive_unsupported ""
    else pass_check Requirement.sensitivity

unfoldable pub scale_check : Observation → Check
scale_check obs =
    if not obs.subresources.scale.enabled
    then skip_check Requirement.scale
    else if not obs.subresources.scale.usable
    then fail_check Requirement.scale Reason.scale_path_unresolved ""
    else pass_check Requirement.scale

unfoldable pub failed_checks : List Check → List Check
failed_checks [] = []
failed_checks (c ∷ cs) = let rest = failed_checks cs in if failed c then c ∷ rest else rest

unfoldable pub has_reason : List Check → Reason → Bool
has_reason [] why = false
has_reason (c ∷ cs) why = reason_index c.reason == reason_index why || has_reason cs why

abbrev pub is_transient : Requirement → Bool
is_transient Requirement.served = true
is_transient Requirement.trusted = true
is_transient _ = false

unfoldable pub only_transient_failures : List Check → Bool
only_transient_failures [] = true
only_transient_failures (c ∷ cs) = is_transient c.requirement && only_transient_failures cs

unfoldable pub derive_verdict : List Check → Verdict
derive_verdict checks =
    if is_empty (failed_checks checks)
    then Verdict.followable
    else if has_reason (failed_checks checks) Reason.catalog_unavailable
    then Verdict.unknown
    else if only_transient_failures (failed_checks checks)
    then Verdict.retained
    else Verdict.refused

unfoldable pub all_checks : Observation → List Check
all_checks obs =
    served_check obs
    ∷ trusted_check obs
    ∷ stable_check obs
    ∷ identity_check obs
    ∷ scope_check obs
    ∷ verbs_check obs
    ∷ origin_check obs
    ∷ policy_check obs
    ∷ sensitivity_check obs
    ∷ scale_check obs
    ∷ []

abbrev pub reason_phrases : Reason → Option String
reason_phrases Reason.not_served = some "not served"
reason_phrases Reason.subresource_only = some "served only as a subresource"
reason_phrases Reason.discovery_degraded = some "discovery degraded for its group/version"
reason_phrases Reason.catalog_unavailable = some "API catalog unavailable"
reason_phrases Reason.absence_expired = some "no longer served (removal grace elapsed)"
reason_phrases Reason.gvk_not_unique = some "GVK served by more than one resource"
reason_phrases Reason.gvr_not_unique = some "resource resolves to more than one kind"
reason_phrases Reason.scope_unknown = some "scope unknown"
reason_phrases Reason.missing_verb = some "missing required verb"
reason_phrases Reason.origin_unknown = some "origin could not be classified"
reason_phrases Reason.denied_by_policy = some "denied by policy"
reason_phrases Reason.sensitive_unsupported = some "sensitive type without supported write handling"
reason_phrases Reason.scale_path_unresolved = some "scale parent replica path unresolved"
reason_phrases Reason.unset = none

abbrev pub detail_appended_reason : Reason → Bool
detail_appended_reason Reason.gvk_not_unique = true
detail_appended_reason Reason.gvr_not_unique = true
detail_appended_reason Reason.missing_verb = true
detail_appended_reason _ = false

-- With no phrase the source returns the reason's own text, which is "" for the unset reason.
with_detail : Option String → Check → String
with_detail none c = ""
with_detail (some phrase) c =
    if not (c.detail == "") && detail_appended_reason c.reason
    then text_append phrase (text_append ": " c.detail)
    else phrase

unfoldable pub reason_phrase : Check → String
unfolding with_detail
reason_phrase c =
    if reason_index c.reason == reason_index Reason.denied_by_policy && not (c.detail == "")
    then c.detail
    else with_detail (reason_phrases c.reason) c

-- `string(verdict)`
abbrev pub verdict_text : Verdict → String
verdict_text Verdict.followable = "followable"
verdict_text Verdict.retained = "retained"
verdict_text Verdict.refused = "refused"
verdict_text Verdict.unknown = "unknown"
verdict_text Verdict.unset = ""

summary_of_failure : Verdict → Option Check → String
summary_of_failure v none = verdict_text v
summary_of_failure Verdict.retained (some c) = text_append "retained — " (reason_phrase c)
summary_of_failure v (some c) = text_append "not followable — " (reason_phrase c)

unfoldable pub summarize : Verdict → List Check → String
unfolding summary_of_failure
summarize Verdict.followable checks = "followable"
summarize v checks = summary_of_failure v (first_failure checks)

unfoldable pub evaluate : Observation → Followability
evaluate obs =
    let checks = all_checks obs in
    let verdict = derive_verdict checks in
    record { verdict = verdict; summary = summarize verdict checks; checks = checks }
