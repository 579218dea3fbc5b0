-- ===== src/Rules/Match.antt =====
-- internal/rulestore/store.go: whether a compiled rule matches an event. An OperationType is its
-- text; the names of resources are lists of code points, as the source looks inside them.
use text.Mathlib.Text.{◌==◌ as text_eq}
use gitops_reverser.Base.{
  ℕ, String, Bool, true, false, not, ◌||◌, List, [], ◌++◌, ◌==◌, if◌then◌else◌,
}
use gitops_reverser.Base.Lists.{any}
use gitops_reverser.Base.Table.{is_empty}
use gitops_reverser.Base.Text.{
  codes, codes_eq, has_prefix, has_suffix, without_last, to_lower, equal_fold,
}

pub record NamespacedName : Type 0 where
  pub namespace : String
  pub name : String

pub record CompiledResourceRule : Type 0 where
  pub operations : List String
  pub api_groups : List String
  pub api_versions : List String
  pub resources : List (List ℕ)
  pub source_namespaces : List String

-- GitTarget, GitProvider, branch and path, which the store hands on
pub record Destination : Type 0 where
  pub git_target_ref : String
  pub git_target_namespace : String
  pub git_provider_ref : String
  pub git_provider_namespace : String
  pub branch : String
  pub path : String

pub record CompiledRule : Type 0 where
  pub source : NamespacedName
  pub destination : Destination
  pub is_cluster_scoped : Bool
  pub resource_rules : List CompiledResourceRule

pub record CompiledClusterResourceRule : Type 0 where
  pub operations : List String
  pub api_groups : List String
  pub api_versions : List String
  pub resources : List (List ℕ)

pub record CompiledClusterRule : Type 0 where
  pub source : NamespacedName
  pub destination : Destination
  pub rules : List CompiledClusterResourceRule

-- what an event says of its object
pub record Event : Type 0 where
  pub resource_plural : List ℕ
  pub operation : String
  pub api_group : String
  pub api_version : String

abbrev pub wildcard : String
wildcard = "*"

abbrev pub operation_all : String
operation_all = "*"

abbrev pub star : List ℕ
star = codes "*"

abbrev pub slash : List ℕ
slash = codes "/"

abbrev pub slash_star : List ℕ
slash_star = codes "/*"

unfoldable pub matches_source_namespace : CompiledResourceRule → String → Bool
matches_source_namespace r ns =
    if text_eq ns "" then true else any (λ n. text_eq n ns) r.source_namespaces

unfoldable pub matches_operations : CompiledResourceRule → String → Bool
matches_operations r operation =
    if is_empty r.operations
    then true
    else any (λ op. text_eq op operation_all || text_eq op operation) r.operations

unfoldable pub matches_api_groups : CompiledResourceRule → String → Bool
matches_api_groups r api_group =
    if is_empty r.api_groups
    then true
    else any (λ group. text_eq group wildcard || text_eq group api_group) r.api_groups

unfoldable pub matches_api_versions : CompiledResourceRule → String → Bool
matches_api_versions r api_version =
    if is_empty r.api_versions
    then true
    else any (λ version. text_eq version wildcard || text_eq version api_version) r.api_versions

unfoldable pub single_resource_matches : List ℕ → List ℕ → Bool
single_resource_matches rule_resource resource_plural =
    if rule_resource == []
    then false
    else if rule_resource == star
    then true
    else if equal_fold rule_resource resource_plural
    then true
    else if has_suffix rule_resource slash_star
    then has_prefix (to_lower resource_plural) (to_lower (without_last 2 rule_resource) ++ slash)
    else false

unfoldable pub resource_matches : CompiledResourceRule → List ℕ → Bool
resource_matches r plural = any (λ res. single_resource_matches res plural) r.resources

unfoldable pub resource_rule_matches : CompiledResourceRule → String → Event → Bool
resource_rule_matches r ns ev =
    if not (matches_source_namespace r ns)
    then false
    else if not (matches_operations r ev.operation)
    then false
    else if not (matches_api_groups r ev.api_group)
    then false
    else if not (matches_api_versions r ev.api_version)
    then false
    else resource_matches r ev.resource_plural

unfoldable pub rule_matches : CompiledRule → String → Event → Bool
rule_matches rule ns ev = any (λ r. resource_rule_matches r ns ev) rule.resource_rules

-- The source repeats the tests above for the rules of a ClusterWatchRule.
unfoldable pub cluster_operations : CompiledClusterResourceRule → String → Bool
cluster_operations r operation =
    if is_empty r.operations
    then true
    else any (λ op. text_eq op operation_all || text_eq op operation) r.operations

unfoldable pub cluster_api_groups : CompiledClusterResourceRule → String → Bool
cluster_api_groups r api_group =
    if is_empty r.api_groups
    then true
    else any (λ group. text_eq group wildcard || text_eq group api_group) r.api_groups

unfoldable pub cluster_api_versions : CompiledClusterResourceRule → String → Bool
cluster_api_versions r api_version =
    if is_empty r.api_versions
    then true
    else any (λ version. text_eq version wildcard || text_eq version api_version) r.api_versions

unfoldable pub cluster_single_resource : List ℕ → List ℕ → Bool
cluster_single_resource rule_resource resource_plural =
    if rule_resource == []
    then false
    else if rule_resource == star
    then true
    else if equal_fold rule_resource resource_plural
    then true
    else if has_suffix rule_resource slash_star
    then has_prefix (to_lower resource_plural) (to_lower (without_last 2 rule_resource) ++ slash)
    else false

unfoldable pub cluster_resource : CompiledClusterResourceRule → List ℕ → Bool
cluster_resource r plural = any (λ res. cluster_single_resource res plural) r.resources

unfoldable pub matches_cluster : CompiledClusterResourceRule → Event → Bool
matches_cluster r ev =
    if not (cluster_operations r ev.operation)
    then false
    else if not (cluster_api_groups r ev.api_group)
    then false
    else if not (cluster_api_versions r ev.api_version)
    then false
    else cluster_resource r ev.resource_plural

unfoldable pub cluster_rule_matches : CompiledClusterRule → Event → Bool → Bool
cluster_rule_matches rule ev is_cluster_scoped =
    if not is_cluster_scoped then false else any (λ r. matches_cluster r ev) rule.rules
