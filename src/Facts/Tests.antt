-- ===== src/Facts/Tests.antt =====
-- One write and one removal of an object, swept and evicted.
use text.Mathlib.Text.{◌==◌ as text_eq}
use gitops_reverser.Base.{not, ◌&&◌, is_some, Bool, true, false}
use gitops_reverser.Facts.Lookup.{AttributionResult, lookup, lookup_in, sticky_removal}
use gitops_reverser.Base.Text.{equal_fold, codes_eq}
use gitops_reverser.Facts.Filing.{file, bears_on, lookup-file}
use gitops_reverser.Facts.Tiers.{is_sticky, lookup_sticky}
use gitops_reverser.Base.{ℕ, ◌≡◌, refl, String, none, some, [], string_eq, arith}
use gitops_reverser.Base.Lists.{any}
use gitops_reverser.Base.Table.{has, get, put}
use gitops_reverser.Facts.Model.{
  AuthorFact, ScopeFacts, Externals, FactQuery, new_scope_facts, put_latest, put_removal,
  lookup_exact, lookup_latest, lookup_removal_pointer, lookup_rv, lookup_name, match_collection_uid,
  match_collection_scope,
}
use gitops_reverser.Facts.Store.{sweep, evict_oldest, live, compact}
use gitops_reverser.Facts.Counts.{IsCounted, Step}
use gitops_reverser.Facts.Steps.{taken, Step-IsCounted, evict_oldest_lem}
use gitops_reverser.Facts.Sweeps.{HasMaps, sweep_unseen}

abbrev by_key : Externals String
by_key = record {
  parse_selector = λ text. some text;
  selector_matches = λ key labels. has key labels;
  parse_stamp = λ stamp. none;
}

abbrev fact_by : String → AuthorFact
fact_by author = record {
  namespace = "team-a";
  uid = "u1";
  name = "web";
  author = author;
  display_name = "";
  email = "";
  verb = "update";
  audit_id = "a1";
  resource_version = "7";
  stage_timestamp = "";
  label_selector = "";
  uids = [];
}

abbrev written : ScopeFacts String
written = put_latest "u1" (record { fact = fact_by "ada"; at = 10; seq = 1 }) new_scope_facts

abbrev removed : ScopeFacts String
removed = put_removal "u1" (record { fact = fact_by "bob"; at = 20; seq = 2 }) written

new-IsCounted : IsCounted {Selector = String} new_scope_facts
unfolding new_scope_facts
new-IsCounted = record {
  exact_keys = tt;
  latest_keys = tt;
  removal_keys = tt;
  rv_keys = tt;
  name_keys = tt;
  total = refl;
}

written-IsCounted : IsCounted written
written-IsCounted =
    Step-IsCounted
      (Step.latest "u1" (record { fact = fact_by "ada"; at = 10; seq = 1 }) new_scope_facts)
      new-IsCounted

Step-IsCounted_example : IsCounted removed
Step-IsCounted_example =
    Step-IsCounted (Step.removal "u1" (record { fact = fact_by "bob"; at = 20; seq = 2 }) written)
      written-IsCounted

evict_oldest_lem_example :
    ((evict_oldest removed).1 ≡ any (live removed) removed.order)
    × (taken (evict_oldest removed).1 (evict_oldest removed).0.count ≡ removed.count)
evict_oldest_lem_example = evict_oldest_lem removed Step-IsCounted_example

removed-HasMaps : HasMaps removed
removed-HasMaps = record {
  exact_keys = removed_counted.exact_keys;
  latest_keys = removed_counted.latest_keys;
  rv_keys = removed_counted.rv_keys;
  name_keys = removed_counted.name_keys;
}
  where
    removed_counted : IsCounted removed
    removed_counted =
        Step-IsCounted
          (Step.removal "u1" (record { fact = fact_by "bob"; at = 20; seq = 2 }) written)
          written-IsCounted

-- the sweep frees the write, which a lookup at that instant no longer returns, and keeps the
-- removal
sweep_kept_removal : lookup_removal_pointer "u1" (sweep 15 removed).0 ≡ some (fact_by "bob")
unfolding lookup_removal_pointer sweep compact put_removal put_latest new_scope_facts get put
sweep_kept_removal = refl

sweep_unseen_example :
    ((uid r : String) → lookup_exact uid r 15 (sweep 15 removed).0 ≡ lookup_exact uid r 15 removed)
    × ((uid : String) → lookup_latest uid 15 (sweep 15 removed).0 ≡ lookup_latest uid 15 removed)
    × ((uid : String)
        → lookup_removal_pointer uid (sweep 15 removed).0 ≡ lookup_removal_pointer uid removed)
    × ((r : String) → lookup_rv r 15 (sweep 15 removed).0 ≡ lookup_rv r 15 removed)
    × ((ns n : String) → lookup_name ns n 15 (sweep 15 removed).0 ≡ lookup_name ns n 15 removed)
    × ((q : FactQuery)
        → match_collection_uid q 15 (sweep 15 removed).0 ≡ match_collection_uid q 15 removed)
    × ((q : FactQuery) (now window : ℕ)
        → match_collection_scope by_key q now 15 window (sweep 15 removed).0
          ≡ match_collection_scope by_key q now 15 window removed)
sweep_unseen_example = sweep_unseen by_key removed 15 15 removed-HasMaps (omega arith)

abbrev query : Bool → FactQuery
query capable = record {
  audit_route = "main";
  group_resource = ("apps", "deployments");
  uid = "u1";
  resource_version = "";
  namespace = "team-a";
  labels = [];
  name = "web";
  exact_capable = capable;
}

-- a removal is attributed to who removed the object, long after the TTL
removal_attributed :
    lookup by_key 5 100 (some removed) (query false) 100_000
    ≡ record { fact = some (fact_by "bob"); result = AttributionResult.delete_sticky }
unfolding lookup lookup_in sticky_removal lookup_removal_pointer put_removal put_latest
    new_scope_facts get put
removal_attributed = refl

-- a deletion of the object is filed, and then the write of version 7 is asked for
abbrev deletion : AuthorFact
deletion = record (fact_by "bob") { verb = "delete"; resource_version = "9" }

abbrev write_query : FactQuery
write_query = record (query true) { resource_version = "7" }

lookup-file_example :
    lookup by_key 5 100 (some (file by_key deletion 25 2 written).0) write_query 30
    ≡ lookup by_key 5 100 (some written) write_query 30
unfolding equal_fold codes_eq
lookup-file_example =
    lookup-file by_key 5 100 deletion write_query 25 2 30 written refl (unfold bears_on in refl)

lookup_sticky_example : is_sticky (lookup by_key 5 100 (some removed) (query false) 30).result ≡ (
    not (query false).exact_capable
    && not (text_eq (query false).uid "")
    && is_some (lookup_removal_pointer (query false).uid removed))
lookup_sticky_example = lookup_sticky by_key 5 100 removed (query false) 30
