-- ===== src/Rules/Tests.antt =====
-- A WatchRule on the pods of one namespace, with their subresources, and a store that holds it.
use gitops_reverser.Base.{String, ◌≡◌, refl, ◌↔◌, true, false, some, List, [], ◌∷◌}
use gitops_reverser.Base.Table.{is_empty}
use gitops_reverser.Base.Text.{codes, codes_eq, equal_fold, has_suffix, has_prefix}
use gitops_reverser.Rules.Match.{
  NamespacedName, CompiledResourceRule, CompiledClusterResourceRule, Destination, Event,
  resource_rule_matches, rule_matches, matches_source_namespace, matches_operations,
  matches_api_groups, matches_api_versions, resource_matches, single_resource_matches,
}
use gitops_reverser.Rules.Store.{WatchRule, compiled, key_of, get_watch_rule, get_matching_rules}
use gitops_reverser.Rules.Spec.{Exists, Selects, resource_rule_matches_iff}
use gitops_reverser.Rules.Histories.{
  Op, after, latest, get_watch_rule-latest, no_cluster_match, unresolved_closed,
}
use gitops_reverser.Rules.Matching.{Chosen, get_matching_rules_exact}

abbrev pods_rule : CompiledResourceRule
pods_rule = record {
  operations = "CREATE" ∷ "UPDATE" ∷ [];
  api_groups = "" ∷ [];
  api_versions = [];
  resources = codes "Pods" ∷ codes "pods/*" ∷ [];
  source_namespaces = "team-a" ∷ [];
}

abbrev pods_cluster_rule : CompiledClusterResourceRule
pods_cluster_rule = record {
  operations = "CREATE" ∷ [];
  api_groups = "*" ∷ [];
  api_versions = [];
  resources = codes "pods" ∷ [];
}

abbrev event_of : String → Event
event_of plural = record {
  resource_plural = codes plural;
  operation = "CREATE";
  api_group = "";
  api_version = "v1";
}

pods_matched : resource_rule_matches pods_rule "team-a" (event_of "pods") ≡ true
unfolding resource_rule_matches matches_source_namespace matches_operations matches_api_groups
    matches_api_versions resource_matches single_resource_matches is_empty codes_eq equal_fold
    has_suffix has_prefix
pods_matched = refl

log_matched : resource_rule_matches pods_rule "team-a" (event_of "pods/log") ≡ true
unfolding resource_rule_matches matches_source_namespace matches_operations matches_api_groups
    matches_api_versions resource_matches single_resource_matches is_empty codes_eq equal_fold
    has_suffix has_prefix
log_matched = refl

other_unmatched : resource_rule_matches pods_rule "team-b" (event_of "pods") ≡ false
unfolding resource_rule_matches matches_source_namespace
other_unmatched = refl

resource_rule_matches_iff_example :
    (resource_rule_matches pods_rule "team-a" (event_of "pods/log") ≡ true)
    ↔ Selects pods_rule "team-a" (event_of "pods/log")
resource_rule_matches_iff_example =
    resource_rule_matches_iff pods_rule "team-a" (event_of "pods/log")

abbrev watch_rule : WatchRule
watch_rule = record {
  name = "pods";
  namespace = "team-a";
  rules =
      record { operations = []; api_groups = []; api_versions = []; resources = codes "pods" ∷ [] }
      ∷ [];
}

abbrev destination : Destination
destination = record {
  git_target_ref = "target";
  git_target_namespace = "team-a";
  git_provider_ref = "provider";
  git_provider_namespace = "team-a";
  branch = "main";
  path = "clusters/a";
}

abbrev history : List Op
history =
    Op.marks
    ∷ Op.adds watch_rule (("team-a" ∷ []) ∷ []) destination
    ∷ Op.deletes (key_of watch_rule)
    ∷ []

get_watch_rule-latest_example :
    get_watch_rule (key_of watch_rule) (after history) ≡ latest (key_of watch_rule) history
get_watch_rule-latest_example = get_watch_rule-latest (key_of watch_rule) history

no_cluster_match_example : get_matching_rules "" (event_of "pods") true (after history) ≡ []
no_cluster_match_example = no_cluster_match history "" (event_of "pods")

unresolved_closed_example :
    rule_matches (compiled watch_rule [] destination) "team-a" (event_of "pods") ≡ false
unresolved_closed_example = unresolved_closed watch_rule destination "team-a" (event_of "pods") refl

get_matching_rules_exact_example :
    Exists
      (λ r. r ≡ compiled watch_rule (("team-a" ∷ []) ∷ []) destination)
      (get_matching_rules "team-a" (event_of "pods") false (after history))
    ↔ ((k : NamespacedName) × (latest k history
          ≡ some (compiled watch_rule (("team-a" ∷ []) ∷ []) destination))
        × Chosen
            (compiled watch_rule (("team-a" ∷ []) ∷ []) destination)
            "team-a"
            (event_of "pods")
            false)
get_matching_rules_exact_example =
    get_matching_rules_exact history "team-a" (event_of "pods") false
      (compiled watch_rule (("team-a" ∷ []) ∷ []) destination)
