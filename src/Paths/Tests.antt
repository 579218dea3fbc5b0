-- ===== src/Paths/Tests.antt =====
-- Paths of three GitTargets.
use gitops_reverser.Base.{
  ℕ, ◌≡◌, refl, Bool, ◌==◌, true, false, ◌||◌, not, different, List, [], ◌∷◌, some, ◌&&◌, arith,
  nat_eq, ltb,
}
use gitops_reverser.Base.Text.{codes, codes_eq}
use gitops_reverser.Paths.Overlap.{normalize_git_target_path, paths_overlap, GitTarget}
use gitops_reverser.Base.Lists.{any}
use gitops_reverser.Paths.Identifier.{
  ResourceIdentifier, to_git_path, SensitiveResourcePolicy, parse_sensitive_resource_policy,
  split_comma,
}
use gitops_reverser.Paths.Files.{IsPlain, generate_file_path_distinct}
use gitops_reverser.Paths.Sensitive.{is_failed, is_blank, is_malformed, parse_policy_refused}
use gitops_reverser.Paths.Contains.{directories, is_within, paths_overlap_is_containment}

normalized_run :
    normalize_git_target_path (codes " clusters//prod/../dev/ ") ≡ codes "/clusters/dev"
unfolding normalize_git_target_path gitops_reverser.Paths.Clean.clean
    gitops_reverser.Paths.Clean.join_slash gitops_reverser.Paths.Clean.clean_segments
    gitops_reverser.Paths.Clean.clean_from gitops_reverser.Paths.Clean.split_slash
    gitops_reverser.Paths.Clean.trim_space gitops_reverser.Paths.Clean.is_space
    gitops_reverser.Base.Table.is_empty codes_eq
normalized_run = refl

abbrev prod : List ℕ
prod = codes "clusters/prod"

sibling_run : paths_overlap prod (codes "clusters/prod-eu") ≡ false
unfolding paths_overlap codes_eq normalize_git_target_path gitops_reverser.Paths.Clean.clean
    gitops_reverser.Paths.Clean.join_slash gitops_reverser.Paths.Clean.clean_segments
    gitops_reverser.Paths.Clean.clean_from gitops_reverser.Paths.Clean.split_slash
    gitops_reverser.Paths.Clean.trim_space gitops_reverser.Paths.Clean.is_space
    gitops_reverser.Base.Table.is_empty gitops_reverser.Base.Text.has_prefix
sibling_run = refl

nested_run : paths_overlap (codes "./clusters/prod/apps/") prod ≡ true
unfolding paths_overlap codes_eq normalize_git_target_path gitops_reverser.Paths.Clean.clean
    gitops_reverser.Paths.Clean.join_slash gitops_reverser.Paths.Clean.clean_segments
    gitops_reverser.Paths.Clean.clean_from gitops_reverser.Paths.Clean.split_slash
    gitops_reverser.Paths.Clean.trim_space gitops_reverser.Paths.Clean.is_space
    gitops_reverser.Base.Table.is_empty gitops_reverser.Base.Text.has_prefix
nested_run = refl

paths_overlap_is_containment_example : paths_overlap prod (codes "clusters/prod/apps") ≡ (
    is_within (directories prod) (directories (codes "clusters/prod/apps"))
    || is_within (directories (codes "clusters/prod/apps")) (directories prod))
paths_overlap_is_containment_example =
    paths_overlap_is_containment prod (codes "clusters/prod/apps")

abbrev older : GitTarget
older = record { namespace = codes "team-a"; name = codes "main"; created = 3 }

abbrev newer : GitTarget
newer = record { namespace = codes "team-a"; name = codes "copy"; created = 3 }

abbrev web : ResourceIdentifier
web = record {
  group = codes "apps";
  version = codes "v1";
  resource = codes "deployments";
  namespace = codes "prod";
  name = codes "web";
}

-- the same object in a later version
abbrev web_later : ResourceIdentifier
web_later = record web { version = codes "v2" }

web-IsPlain : IsPlain web
unfolding codes_eq
web-IsPlain = record {
  group_plain = (refl, (refl, (refl, (refl, tt))));
  resource_plain =
      (refl, (refl, (refl, (refl, (refl, (refl, (refl, (refl, (refl, (refl, (refl, tt)))))))))));
  namespace_plain = (refl, (refl, (refl, (refl, tt))));
  name_plain = (refl, (refl, (refl, tt)));
  not_cluster = refl;
}

web_later-IsPlain : IsPlain web_later
unfolding codes_eq
web_later-IsPlain = record {
  group_plain = (refl, (refl, (refl, (refl, tt))));
  resource_plain =
      (refl, (refl, (refl, (refl, (refl, (refl, (refl, (refl, (refl, (refl, (refl, tt)))))))))));
  namespace_plain = (refl, (refl, (refl, (refl, tt))));
  name_plain = (refl, (refl, (refl, tt)));
  not_cluster = refl;
}

abbrev with_deployments : SensitiveResourcePolicy
with_deployments = record {
  additional = record { group = codes "apps"; resource = codes "deployments" } ∷ [];
}

generate_file_path_distinct_example :
    (web.group ≡ web_later.group)
    × (web.resource ≡ web_later.resource)
    × (web.namespace ≡ web_later.namespace)
    × (web.name ≡ web_later.name)
unfolding gitops_reverser.Paths.Identifier.generate_file_path to_git_path
generate_file_path_distinct_example =
    generate_file_path_distinct with_deployments web web_later web-IsPlain web_later-IsPlain refl

parse_policy_refused_example :
    is_failed (parse_sensitive_resource_policy (codes "apps/deployments, a/b/c")) ≡ (
      not (is_blank (codes "apps/deployments, a/b/c"))
      && any is_malformed (split_comma (codes "apps/deployments, a/b/c")))
parse_policy_refused_example = parse_policy_refused (codes "apps/deployments, a/b/c")
