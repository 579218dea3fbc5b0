-- ===== src/Typeset/Model.antt =====
-- internal/typeset/model.go, and the names of apimachinery's schema package that it uses.
use gitops_reverser.Base.{
  ℕ, String, ◌≡◌, ◌↔◌, Bool, true, false, ◌&&◌, ◌||◌, Option, none, some, List, [], ◌∷◌, arith,
  EqType, ◌==◌, string_eq, nat_eq, if◌then◌else◌,
}
use text.Mathlib.TextEquality.{eq_iff}

pub record GroupVersion : Type 0 where
  pub group : String
  pub version : String

pub record Gvk : Type 0 where
  pub group : String
  pub version : String
  pub kind : String

pub record Gvr : Type 0 where
  pub group : String
  pub version : String
  pub resource : String

abbrev pub gv_beq : GroupVersion → GroupVersion → Bool
gv_beq a b = a.group == b.group && a.version == b.version

pub gv_beq_iff : (a b : GroupVersion) → (gv_beq a b ≡ true) ↔ (a ≡ b)
gv_beq_iff a b = ground (arith, eq_iff a.group b.group, eq_iff a.version b.version)

instance unfoldable pub gv_eq : EqType GroupVersion
gv_eq = record { beq = gv_beq; beq_iff = gv_beq_iff }

abbrev pub gvk_beq : Gvk → Gvk → Bool
gvk_beq a b = a.group == b.group && a.version == b.version && a.kind == b.kind

pub gvk_beq_iff : (a b : Gvk) → (gvk_beq a b ≡ true) ↔ (a ≡ b)
gvk_beq_iff a b =
    ground (arith, eq_iff a.group b.group, eq_iff a.version b.version, eq_iff a.kind b.kind)

instance unfoldable pub gvk_eq : EqType Gvk
gvk_eq = record { beq = gvk_beq; beq_iff = gvk_beq_iff }

abbrev pub gvr_beq : Gvr → Gvr → Bool
gvr_beq a b = a.group == b.group && a.version == b.version && a.resource == b.resource

pub gvr_beq_iff : (a b : Gvr) → (gvr_beq a b ≡ true) ↔ (a ≡ b)
gvr_beq_iff a b =
    ground (arith, eq_iff a.group b.group, eq_iff a.version b.version, eq_iff a.resource b.resource)

instance unfoldable pub gvr_eq : EqType Gvr
gvr_eq = record { beq = gvr_beq; beq_iff = gvr_beq_iff }

abbrev pub group_version_of : Gvr → GroupVersion
group_version_of r = record { group = r.group; version = r.version }

-- `unset` is the empty string.
pub data Scope : Type 0 where
  namespaced cluster_scoped unknown unset : Scope

abbrev pub scope_index : Scope → ℕ
scope_index Scope.namespaced = 0
scope_index Scope.cluster_scoped = 1
scope_index Scope.unknown = 2
scope_index Scope.unset = 3

pub scope_beq_iff : (a b : Scope) → ((scope_index a == scope_index b) ≡ true) ↔ (a ≡ b)
scope_beq_iff a b = ground arith

instance abbrev pub scope_eq : EqType Scope
scope_eq = record { beq = λ a b. scope_index a == scope_index b; beq_iff = scope_beq_iff }

pub record Identity : Type 0 where
  pub gvk : Gvk
  pub gvr : Gvr
  pub scope : Scope

pub data OriginKind : Type 0 where
  builtin crd aggregated unknown unset : OriginKind

pub data Confidence : Type 0 where
  observed inferred unknown unset : Confidence

pub record Origin : Type 0 where
  pub kind : OriginKind
  pub confidence : Confidence
  pub evidence : String

pub record ScaleBinding : Type 0 where
  pub enabled : Bool
  pub source : String
  pub response_gvk : Gvk
  pub spec_replicas_path : String
  pub status_replicas_path : String
  pub selector_path : String
  pub selector_kind : String
  pub usable : Bool

pub record Subresources : Type 0 where
  pub status_enabled : Bool
  pub scale : ScaleBinding

-- `unset` is the empty verdict of a transition with no prior record.
pub data Verdict : Type 0 where
  followable retained refused unknown unset : Verdict

abbrev pub verdict_index : Verdict → ℕ
verdict_index Verdict.followable = 0
verdict_index Verdict.retained = 1
verdict_index Verdict.refused = 2
verdict_index Verdict.unknown = 3
verdict_index Verdict.unset = 4

pub verdict_beq_iff : (a b : Verdict) → ((verdict_index a == verdict_index b) ≡ true) ↔ (a ≡ b)
verdict_beq_iff a b = ground arith

instance abbrev pub verdict_eq : EqType Verdict
verdict_eq = record { beq = λ a b. verdict_index a == verdict_index b; beq_iff = verdict_beq_iff }

pub data Requirement : Type 0 where
  served trusted stable identity scope verbs origin policy sensitivity scale : Requirement

abbrev pub requirement_index : Requirement → ℕ
requirement_index Requirement.served = 0
requirement_index Requirement.trusted = 1
requirement_index Requirement.stable = 2
requirement_index Requirement.identity = 3
requirement_index Requirement.scope = 4
requirement_index Requirement.verbs = 5
requirement_index Requirement.origin = 6
requirement_index Requirement.policy = 7
requirement_index Requirement.sensitivity = 8
requirement_index Requirement.scale = 9

pub data Result : Type 0 where
  pass fail skip unknown : Result

-- `unset` is the empty reason of a check that did not fail.
pub data Reason : Type 0 where
  not_served subresource_only discovery_degraded catalog_unavailable absence_expired : Reason
  gvk_not_unique gvr_not_unique scope_unknown missing_verb origin_unknown : Reason
  denied_by_policy sensitive_unsupported scale_path_unresolved unset : Reason

abbrev pub reason_index : Reason → ℕ
reason_index Reason.not_served = 0
reason_index Reason.subresource_only = 1
reason_index Reason.discovery_degraded = 2
reason_index Reason.catalog_unavailable = 3
reason_index Reason.absence_expired = 4
reason_index Reason.gvk_not_unique = 5
reason_index Reason.gvr_not_unique = 6
reason_index Reason.scope_unknown = 7
reason_index Reason.missing_verb = 8
reason_index Reason.origin_unknown = 9
reason_index Reason.denied_by_policy = 10
reason_index Reason.sensitive_unsupported = 11
reason_index Reason.scale_path_unresolved = 12
reason_index Reason.unset = 13

pub record Check : Type 0 where
  pub requirement : Requirement
  pub result : Result
  pub reason : Reason
  pub detail : String

abbrev pub is_fail : Result → Bool
is_fail Result.fail = true
is_fail _ = false

unfoldable pub failed : Check → Bool
failed c = is_fail c.result

pub record Followability : Type 0 where
  pub verdict : Verdict
  pub summary : String
  pub checks : List Check

-- `Followability.FirstFailure`, and the funnel's `firstFailure`
unfoldable pub first_failure : List Check → Option Check
unfolding failed
first_failure [] = none
first_failure (c ∷ cs) = if failed c then some c else first_failure cs

-- `Followability.Check`
unfoldable pub check_of : Requirement → List Check → Option Check
check_of req [] = none
check_of req (c ∷ cs) =
    if requirement_index c.requirement == requirement_index req then some c else check_of req cs

pub record TypeRecord : Type 0 where
  pub identity : Identity
  pub origin : Origin
  pub preferred : Bool
  pub verbs : List String
  pub subresources : Subresources
  pub sensitive : Bool
  pub followability : Followability
  pub generation : ℕ

-- `wasLive`: the verdict of a type in the live set
unfoldable pub was_live : Verdict → Bool
was_live v = v == Verdict.followable || v == Verdict.retained

-- `TypeRecord.Followable`
unfoldable pub is_followable : TypeRecord → Bool
unfolding was_live
is_followable r =
    r.followability.verdict == Verdict.followable || r.followability.verdict == Verdict.retained
