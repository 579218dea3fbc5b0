-- ===== src/Rules/Matching.antt =====
-- Which rules of a store match an event, after any history of operations.
use gitops_reverser.Base.{
  String, ◌≡◌, refl, ap, ◌∙◌, inl, inr, Bool, true, false, none, some, List, [], ◌∷◌, ◌==◌, arith,
  if◌then◌else◌, Bool-cases, ◌↔◌, ◌&&◌, sym, bool_eq, bool_beq_iff, eq_refl,
}
use mathlib.Core.Path.{subst}
use gitops_reverser.Base.Lists.{any}
use gitops_reverser.Base.Table.{
  Table, get, remove, get-remove, get-cons_cases, UniqueKeys, UniqueKeys-put,
}
use gitops_reverser.Rules.Match.{
  NamespacedName, CompiledRule, CompiledResourceRule, Event, resource_rule_matches, rule_matches,
}
use gitops_reverser.Rules.Spec.{Exists, Selects, any_iff, resource_rule_matches_iff}
use gitops_reverser.Rules.Store.{
  name_eq, new_store, key_of, compiled, add_or_update, get_watch_rule, add_or_update_cluster,
  delete, delete_cluster, mark_ready, matching_in, get_matching_rules,
}
use gitops_reverser.Rules.Histories.{Op, after, latest, get_watch_rule-latest}

any-Selects :
    (rules : List CompiledResourceRule) (ns : String) (ev : Event)
    → (any (λ r. resource_rule_matches r ns ev) rules ≡ true) ↔ Exists (λ r. Selects r ns ev) rules
any-Selects rules ns ev =
    any_iff (λ r. Selects r ns ev) (λ r. resource_rule_matches r ns ev) rules
      (λ r. resource_rule_matches_iff r ns ev)

-- the rule is of the asked scope, and one of its resource rules selects the event
abbrev pub Chosen : CompiledRule → String → Event → Bool → Type 0
Chosen rule ns ev scoped =
    (rule.is_cluster_scoped ≡ scoped) × Exists (λ r. Selects r ns ev) rule.resource_rules

is_chosen : CompiledRule → String → Event → Bool → Bool
is_chosen rule ns ev scoped = rule.is_cluster_scoped == scoped && rule_matches rule ns ev

is_chosen_iff :
    (rule : CompiledRule) (ns : String) (ev : Event) (scoped : Bool)
    → (is_chosen rule ns ev scoped ≡ true) ↔ Chosen rule ns ev scoped
unfolding is_chosen rule_matches
is_chosen_iff rule ns ev scoped =
    let (to, from) = any-Selects rule.resource_rules ns ev in
    (
      (λ h. (ground (arith, bool_beq_iff rule.is_cluster_scoped scoped), to (ground arith))),
      (λ h. ground (arith, bool_beq_iff rule.is_cluster_scoped scoped, h.0, from (h.1))),
    )

matching_in-cons :
    (k : NamespacedName) (first : CompiledRule) (m : Table NamespacedName CompiledRule)
    (ns : String) (ev : Event) (scoped : Bool)
    → matching_in ((k, first) ∷ m) ns ev scoped ≡ (
        if is_chosen first ns ev scoped
        then first ∷ matching_in m ns ev scoped
        else matching_in m ns ev scoped)
unfolding matching_in is_chosen
matching_in-cons k first m ns ev scoped = ground arith

get-after_cons :
    (j k : NamespacedName) (first rule : CompiledRule) (m : Table NamespacedName CompiledRule)
    → get j m ≡ none
    → get k m ≡ some rule
    → get k ((j, first) ∷ m) ≡ some rule
unfolding get
get-after_cons j k first rule m free held = ground (arith, free, held, name_eq.beq_iff j k)

-- the table holds the rule, which is chosen
abbrev Holds : Table NamespacedName CompiledRule → String → Event → Bool → CompiledRule → Type 0
Holds m ns ev scoped rule =
    (k : NamespacedName) × (get k m ≡ some rule) × (is_chosen rule ns ev scoped ≡ true)

matching_in_sound :
    (m : Table NamespacedName CompiledRule) (ns : String) (ev : Event) (scoped : Bool)
    (rule : CompiledRule)
    → UniqueKeys m
    → Exists (λ r. r ≡ rule) (matching_in m ns ev scoped)
    → Holds m ns ev scoped rule
matching_in_sound [] ns ev scoped rule u found = absurd (unfold matching_in in found)
matching_in_sound ((j, first) ∷ m) ns ev scoped rule u found =
    by_choice
      (λ rest.
        let (k, held, chosen) = matching_in_sound m ns ev scoped rule (u.1) rest in
        (k, get-after_cons j k first rule m (u.0) held, chosen))
      (is_chosen first ns ev scoped) refl
      (subst (Exists (λ r. r ≡ rule)) (matching_in-cons j first m ns ev scoped) found)
  where
    by_choice :
        (Exists (λ r. r ≡ rule) (matching_in m ns ev scoped)
          → Holds ((j, first) ∷ m) ns ev scoped rule)
        → (b : Bool) → is_chosen first ns ev scoped ≡ b
        → Exists
            (λ r. r ≡ rule)
            (if b then first ∷ matching_in m ns ev scoped else matching_in m ns ev scoped)
        → Holds ((j, first) ∷ m) ns ev scoped rule
    by_choice later true chosen (inl same) = (
      j,
      unfold get in rw (eq_refl j) (ap some same),
      subst (λ r. is_chosen r ns ev scoped ≡ true) same chosen,
    )
    by_choice later true chosen (inr rest) = later rest
    by_choice later false chosen rest = later rest

matching_in_complete :
    (m : Table NamespacedName CompiledRule) (ns : String) (ev : Event) (scoped : Bool)
    (k : NamespacedName) (rule : CompiledRule)
    → get k m ≡ some rule
    → is_chosen rule ns ev scoped ≡ true
    → Exists (λ r. r ≡ rule) (matching_in m ns ev scoped)
matching_in_complete [] ns ev scoped k rule h match = absurd (unfold get in cc h)
matching_in_complete ((j, first) ∷ m) ns ev scoped k rule h match =
    subst (Exists (λ r. r ≡ rule)) (sym (matching_in-cons j first m ns ev scoped))
      (elim (get-cons_cases j k first rule m h) [
        | inl both ↦ rw (both.1, match) (inl refl)
        | inr held ↦
            onward (is_chosen first ns ev scoped)
              (matching_in_complete m ns ev scoped k rule held match)
      ])
  where
    onward :
        (b : Bool)
        → Exists (λ r. r ≡ rule) (matching_in m ns ev scoped)
        → Exists
            (λ r. r ≡ rule)
            (if b then first ∷ matching_in m ns ev scoped else matching_in m ns ev scoped)
    onward true rest = inr rest
    onward false rest = rest

UniqueKeys-remove :
    (k : NamespacedName) (m : Table NamespacedName CompiledRule)
    → UniqueKeys m
    → UniqueKeys (remove k m)
unfolding remove
UniqueKeys-remove k [] u = tt
UniqueKeys-remove k ((j, old) ∷ m) u = elim (Bool-cases (j == k)) [
  | inl p ↦ rw p (UniqueKeys-remove k m (u.1))
  | inr p ↦ rw p (ground (arith, get-remove k j m, u.0), UniqueKeys-remove k m (u.1))
]

after-UniqueKeys : (ops : List Op) → UniqueKeys (after ops).rules
unfolding new_store add_or_update add_or_update_cluster delete delete_cluster mark_ready
after-UniqueKeys [] = tt
after-UniqueKeys (Op.adds rule namespaces dest ∷ ops) =
    UniqueKeys-put (key_of rule) (compiled rule namespaces dest) (after ops).rules
      (after-UniqueKeys ops)
after-UniqueKeys (Op.adds_cluster rule dest ∷ ops) = after-UniqueKeys ops
after-UniqueKeys (Op.deletes j ∷ ops) = UniqueKeys-remove j (after ops).rules (after-UniqueKeys ops)
after-UniqueKeys (Op.deletes_cluster j ∷ ops) = after-UniqueKeys ops
after-UniqueKeys (Op.marks ∷ ops) = after-UniqueKeys ops

get_rules-latest : (k : NamespacedName) (ops : List Op) → get k (after ops).rules ≡ latest k ops
get_rules-latest k ops = unfold get_watch_rule in get_watch_rule-latest k ops

-- After any history of operations on a new store, `GetMatchingRules` returns a rule exactly when it
-- is what the latest operation on some key left there, is of the asked scope, and has a resource
-- rule whose namespaces, operations, groups, versions and resource patterns select the event.
pub get_matching_rules_exact :
    (ops : List Op) (ns : String) (ev : Event) (scoped : Bool) (rule : CompiledRule)
    → Exists (λ r. r ≡ rule) (get_matching_rules ns ev scoped (after ops))
      ↔ ((k : NamespacedName) × (latest k ops ≡ some rule) × Chosen rule ns ev scoped)
unfolding get_matching_rules
get_matching_rules_exact ops ns ev scoped rule =
    let (to, from) = is_chosen_iff rule ns ev scoped in
    (
      (λ found.
          let (k, held, chosen) =
            matching_in_sound (after ops).rules ns ev scoped rule (after-UniqueKeys ops) found in
          (k, sym (get_rules-latest k ops) ∙ held, to chosen)),
      (λ h.
          matching_in_complete (after ops).rules ns ev scoped (h.0) rule
            (get_rules-latest (h.0) ops ∙ h.1) (from (h.2))),
    )
