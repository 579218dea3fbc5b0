-- ===== src/Rules/Store.antt =====
-- internal/rulestore/store.go: the store. Its mutex makes each operation one step. A deep copy is
-- the value itself, as values are not shared here.
use text.Mathlib.Text.{◌==◌ as text_eq}
use text.Mathlib.TextEquality.{eq_iff}
use gitops_reverser.Base.{
  ℕ, String, ◌≡◌, ◌↔◌, Bool, true, false, not, ◌&&◌, Option, List, [], ◌∷◌, ◌==◌, EqType, bool_eq,
  arith, if◌then◌else◌,
}
use gitops_reverser.Base.Table.{Table, get, put, remove}
use gitops_reverser.Rules.Match.{
  NamespacedName, CompiledResourceRule, CompiledRule, CompiledClusterResourceRule,
  CompiledClusterRule, Destination, Event, rule_matches, cluster_rule_matches,
}

abbrev pub name_beq : NamespacedName → NamespacedName → Bool
name_beq a b = text_eq a.namespace b.namespace && text_eq a.name b.name

pub name_beq_iff : (a b : NamespacedName) → (name_beq a b ≡ true) ↔ (a ≡ b)
name_beq_iff a b = ground (arith, eq_iff a.namespace b.namespace, eq_iff a.name b.name)

instance unfoldable pub name_eq : EqType NamespacedName
name_eq = record { beq = name_beq; beq_iff = name_beq_iff }

pub record RuleStore : Type 0 where
  pub rules : Table NamespacedName CompiledRule
  pub cluster_rules : Table NamespacedName CompiledClusterRule
  pub ready : Bool

unfoldable pub new_store : RuleStore
new_store = record { rules = []; cluster_rules = []; ready = false }

-- the fields of a ResourceRule of the API that the store reads
pub record ResourceRule : Type 0 where
  pub operations : List String
  pub api_groups : List String
  pub api_versions : List String
  pub resources : List (List ℕ)

-- a WatchRule or a ClusterWatchRule, of which the latter has no namespace
pub record WatchRule : Type 0 where
  pub name : String
  pub namespace : String
  pub rules : List ResourceRule

abbrev pub compile_rule : ResourceRule → List String → CompiledResourceRule
compile_rule r namespaces = record {
  operations = r.operations;
  api_groups = r.api_groups;
  api_versions = r.api_versions;
  resources = r.resources;
  source_namespaces = namespaces;
}

-- the loop over the rules, with the namespaces at the same index; past their end there are none
unfoldable pub compile_rules : List ResourceRule → List (List String) → List CompiledResourceRule
compile_rules [] namespaces = []
compile_rules (r ∷ rules) [] = compile_rule r [] ∷ compile_rules rules []
compile_rules (r ∷ rules) (ns ∷ namespaces) = compile_rule r ns ∷ compile_rules rules namespaces

abbrev pub key_of : WatchRule → NamespacedName
key_of rule = record { name = rule.name; namespace = rule.namespace }

unfoldable pub compiled : WatchRule → List (List String) → Destination → CompiledRule
compiled rule namespaces dest = record {
  source = key_of rule;
  destination = dest;
  is_cluster_scoped = false;
  resource_rules = compile_rules rule.rules namespaces;
}

unfoldable pub add_or_update : WatchRule → List (List String) → Destination → RuleStore → RuleStore
add_or_update rule namespaces dest s = record s {
  rules = put (key_of rule) (compiled rule namespaces dest) s.rules;
}

unfoldable pub get_watch_rule : NamespacedName → RuleStore → Option CompiledRule
get_watch_rule k s = get k s.rules

unfoldable pub compile_cluster_rules : List ResourceRule → List CompiledClusterResourceRule
compile_cluster_rules [] = []
compile_cluster_rules (r ∷ rules) =
    record {
      operations = r.operations;
      api_groups = r.api_groups;
      api_versions = r.api_versions;
      resources = r.resources;
    }
    ∷ compile_cluster_rules rules

abbrev pub cluster_key : WatchRule → NamespacedName
cluster_key rule = record { name = rule.name; namespace = "" }

unfoldable pub add_or_update_cluster : WatchRule → Destination → RuleStore → RuleStore
add_or_update_cluster rule dest s = record s {
  cluster_rules =
      put (cluster_key rule)
        (record {
          source = cluster_key rule;
          destination = dest;
          rules = compile_cluster_rules rule.rules;
        })
        s.cluster_rules;
}

unfoldable pub delete : NamespacedName → RuleStore → RuleStore
delete k s = record s { rules = remove k s.rules }

unfoldable pub delete_cluster : NamespacedName → RuleStore → RuleStore
delete_cluster k s = record s { cluster_rules = remove k s.cluster_rules }

unfoldable pub mark_ready : RuleStore → RuleStore
mark_ready s = record s { ready = true }

-- the loops of `GetMatchingRules` and `GetMatchingClusterRules`
unfoldable pub matching_in :
    Table NamespacedName CompiledRule → String → Event → Bool → List CompiledRule
matching_in [] ns ev scoped = []
matching_in ((k, rule) ∷ rules) ns ev scoped =
    let rest = matching_in rules ns ev scoped in
    if not (rule.is_cluster_scoped == scoped)
    then rest
    else if rule_matches rule ns ev
    then rule ∷ rest
    else rest

unfoldable pub get_matching_rules : String → Event → Bool → RuleStore → List CompiledRule
get_matching_rules ns ev scoped s = matching_in s.rules ns ev scoped

unfoldable pub matching_clusters_in :
    Table NamespacedName CompiledClusterRule → Event → Bool → List CompiledClusterRule
matching_clusters_in [] ev scoped = []
matching_clusters_in ((k, rule) ∷ rules) ev scoped =
    let rest = matching_clusters_in rules ev scoped in
    if cluster_rule_matches rule ev scoped then rule ∷ rest else rest

unfoldable pub get_matching_cluster_rules : Event → Bool → RuleStore → List CompiledClusterRule
get_matching_cluster_rules ev scoped s = matching_clusters_in s.cluster_rules ev scoped

unfoldable pub values {ℓ κ} : {K : Type ℓ} {V : Type κ} → Table K V → List V
values [] = []
values ((k, v) ∷ m) = v ∷ values m

unfoldable pub snapshot_watch_rules : RuleStore → List CompiledRule
unfolding values
snapshot_watch_rules s = values s.rules

unfoldable pub snapshot_cluster_watch_rules : RuleStore → List CompiledClusterRule
unfolding values
snapshot_cluster_watch_rules s = values s.cluster_rules
