-- ===== src/Rules/Histories.antt =====
-- What a store holds after any history of operations, and what it therefore matches.
use text.Mathlib.Text.{◌==◌ as text_eq}
use gitops_reverser.Base.{
  String, ◌≡◌, refl, ap, ◌∙◌, inl, inr, true, false, Option, none, some, List, [], ◌∷◌, ◌==◌, arith,
  if◌then◌else◌, Bool-cases, bool_eq,
}
use gitops_reverser.Base.Lists.{any, all, All}
use gitops_reverser.Base.Table.{Table, get, put, remove, get-put, get-remove}
use gitops_reverser.Rules.Match.{
  NamespacedName, CompiledRule, Destination, Event, resource_rule_matches, rule_matches,
  matches_source_namespace,
}
use gitops_reverser.Rules.Store.{
  name_eq, RuleStore, new_store, ResourceRule, WatchRule, compile_rules, key_of, compiled,
  add_or_update, get_watch_rule, add_or_update_cluster, delete, delete_cluster, mark_ready,
  matching_in, get_matching_rules,
}

pub data Op : Type 0 where
  adds : WatchRule → List (List String) → Destination → Op
  adds_cluster : WatchRule → Destination → Op
  deletes : NamespacedName → Op
  deletes_cluster : NamespacedName → Op
  marks : Op

abbrev pub apply : Op → RuleStore → RuleStore
apply (Op.adds rule namespaces dest) s = add_or_update rule namespaces dest s
apply (Op.adds_cluster rule dest) s = add_or_update_cluster rule dest s
apply (Op.deletes k) s = delete k s
apply (Op.deletes_cluster k) s = delete_cluster k s
apply Op.marks s = mark_ready s

-- the store after a history, whose latest operation stands first
abbrev pub after : List Op → RuleStore
after [] = new_store
after (op ∷ ops) = apply op (after ops)

-- what the latest operation on the key says of it
abbrev pub latest : NamespacedName → List Op → Option CompiledRule
latest k [] = none
latest k (Op.adds rule namespaces dest ∷ ops) =
    if key_of rule == k then some (compiled rule namespaces dest) else latest k ops
latest k (Op.adds_cluster rule dest ∷ ops) = latest k ops
latest k (Op.deletes j ∷ ops) = if j == k then none else latest k ops
latest k (Op.deletes_cluster j ∷ ops) = latest k ops
latest k (Op.marks ∷ ops) = latest k ops

-- After any history of operations on a new store, the rule that `GetWatchRule` returns for a key is
-- the compiled form of the latest WatchRule added under it, and none if it was deleted since.
pub get_watch_rule-latest :
    (k : NamespacedName) (ops : List Op) → get_watch_rule k (after ops) ≡ latest k ops
unfolding get_watch_rule add_or_update add_or_update_cluster delete delete_cluster mark_ready
    new_store get
get_watch_rule-latest k [] = refl
get_watch_rule-latest k (Op.adds rule namespaces dest ∷ ops) =
    get-put (key_of rule) k (compiled rule namespaces dest) (after ops).rules
    ∙ ap (λ o. if key_of rule == k then some (compiled rule namespaces dest) else o)
        (get_watch_rule-latest k ops)
get_watch_rule-latest k (Op.adds_cluster rule dest ∷ ops) = get_watch_rule-latest k ops
get_watch_rule-latest k (Op.deletes j ∷ ops) =
    get-remove j k (after ops).rules
    ∙ ap (λ o. if j == k then none else o) (get_watch_rule-latest k ops)
get_watch_rule-latest k (Op.deletes_cluster j ∷ ops) = get_watch_rule-latest k ops
get_watch_rule-latest k (Op.marks ∷ ops) = get_watch_rule-latest k ops

abbrev AllNamespaced : Table NamespacedName CompiledRule → Type 0
AllNamespaced = All (λ (x : NamespacedName × CompiledRule). x.1.is_cluster_scoped ≡ false)

AllNamespaced-put :
    (k : NamespacedName) (rule : CompiledRule) (m : Table NamespacedName CompiledRule)
    → rule.is_cluster_scoped ≡ false
    → AllNamespaced m
    → AllNamespaced (put k rule m)
unfolding put
AllNamespaced-put k rule [] h all = (h, tt)
AllNamespaced-put k rule ((j, old) ∷ m) h all = elim (Bool-cases (j == k)) [
  | inl p ↦ rw p (h, all.1)
  | inr p ↦ rw p (all.0, AllNamespaced-put k rule m h (all.1))
]

AllNamespaced-remove :
    (k : NamespacedName) (m : Table NamespacedName CompiledRule)
    → AllNamespaced m
    → AllNamespaced (remove k m)
unfolding remove
AllNamespaced-remove k [] all = tt
AllNamespaced-remove k ((j, old) ∷ m) all = elim (Bool-cases (j == k)) [
  | inl p ↦ rw p (AllNamespaced-remove k m (all.1))
  | inr p ↦ rw p (all.0, AllNamespaced-remove k m (all.1))
]

after-AllNamespaced : (ops : List Op) → AllNamespaced (after ops).rules
unfolding new_store add_or_update add_or_update_cluster delete delete_cluster mark_ready
after-AllNamespaced [] = tt
after-AllNamespaced (Op.adds rule namespaces dest ∷ ops) =
    AllNamespaced-put (key_of rule) (compiled rule namespaces dest) (after ops).rules
      (unfold compiled in refl) (after-AllNamespaced ops)
after-AllNamespaced (Op.adds_cluster rule dest ∷ ops) = after-AllNamespaced ops
after-AllNamespaced (Op.deletes j ∷ ops) =
    AllNamespaced-remove j (after ops).rules (after-AllNamespaced ops)
after-AllNamespaced (Op.deletes_cluster j ∷ ops) = after-AllNamespaced ops
after-AllNamespaced (Op.marks ∷ ops) = after-AllNamespaced ops

matching_in-cluster :
    (m : Table NamespacedName CompiledRule) (ns : String) (ev : Event)
    → AllNamespaced m
    → matching_in m ns ev true ≡ []
unfolding matching_in
matching_in-cluster [] ns ev all = refl
matching_in-cluster ((k, rule) ∷ m) ns ev all =
    ground (arith, all.0, matching_in-cluster m ns ev (all.1))

-- After any history of operations on a new store, no WatchRule matches an event on a cluster-scoped
-- resource: such resources are reached only through a ClusterWatchRule.
pub no_cluster_match :
    (ops : List Op) (ns : String) (ev : Event) → get_matching_rules ns ev true (after ops) ≡ []
unfolding get_matching_rules
no_cluster_match ops ns ev = matching_in-cluster (after ops).rules ns ev (after-AllNamespaced ops)

compile_rules_closed :
    (rules : List ResourceRule) (ns : String) (ev : Event)
    → text_eq ns "" ≡ false
    → any (λ r. resource_rule_matches r ns ev) (compile_rules rules []) ≡ false
unfolding compile_rules resource_rule_matches matches_source_namespace
compile_rules_closed [] ns ev h = refl
compile_rules_closed (r ∷ rules) ns ev h = ground (arith, compile_rules_closed rules ns ev h)

-- A WatchRule whose source namespaces were not resolved, so that the list given with it is empty,
-- matches no event on an object that has a namespace.
pub unresolved_closed :
    (rule : WatchRule) (dest : Destination) (ns : String) (ev : Event)
    → text_eq ns "" ≡ false
    → rule_matches (compiled rule [] dest) ns ev ≡ false
unfolding rule_matches compiled
unresolved_closed rule dest ns ev h = compile_rules_closed rule.rules ns ev h
