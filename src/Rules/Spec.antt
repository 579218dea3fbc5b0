-- ===== src/Rules/Spec.antt =====
-- A declarative description of what a compiled rule selects.
use text.Mathlib.Text.{◌==◌ as text_eq}
use text.Mathlib.TextEquality.{eq_iff}
use mathlib.Core.Path.{subst}
use gitops_reverser.Base.{
  ℕ, String, ◌≡◌, ◌≢◌, refl, sym, ap, ◌∙◌, ◌↔◌, ◌⊎◌, inl, inr, Bool, true, ◌||◌, List, [], ◌∷◌,
  ◌++◌, ◌==◌, arith, if◌then◌else◌, Bool-cases, eq_true,
}
use gitops_reverser.Base.Lists.{any}
use gitops_reverser.Base.Table.{is_empty}
use gitops_reverser.Base.Text.{
  codes_eq, has_prefix, has_prefix_iff, has_suffix, has_suffix-of, has_suffix-append, without_last,
  without_last-append, to_lower, equal_fold,
}
use gitops_reverser.Rules.Match.{
  CompiledResourceRule, CompiledClusterResourceRule, Event, star, slash, slash_star, wildcard,
  matches_source_namespace, matches_operations, matches_api_groups, matches_api_versions,
  single_resource_matches, resource_matches, resource_rule_matches, cluster_operations,
  cluster_api_groups, cluster_api_versions, cluster_single_resource, cluster_resource,
  matches_cluster,
}

-- some element of the list has the property
abbrev pub Exists {ℓ} : {A : Type ℓ} → (A → Type 0) → List A → Type 0
Exists P [] = ⊥
Exists P (x ∷ xs) = P x ⊎ Exists P xs

pub any_iff {ℓ} :
    {A : Type ℓ} (P : A → Type 0) (p : A → Bool) (xs : List A)
    → ((x : A) → (p x ≡ true) ↔ P x)
    → (any p xs ≡ true) ↔ Exists P xs
any_iff P p [] f = ((λ h. absurd (cc h)), (λ h. absurd h))
any_iff P p (x ∷ xs) f =
    let (to, from) = any_iff P p xs f in
    (
      (λ h. elim (Bool-cases (p x)) [ inl q ↦ inl ((f x).0 q) | inr q ↦ inr (to (ground arith)) ]),
      (λ h. elim h [ inl q ↦ ground (arith, (f x).1 q) | inr q ↦ ground (arith, from q) ]),
    )

-- a resource pattern: `*`, a name whatever its case, or `name/*` for its subresources
abbrev pub SelectsName : List ℕ → List ℕ → Type 0
SelectsName pattern plural =
    (pattern ≢ [])
    × ((pattern ≡ star)
        ⊎ ((to_lower pattern ≡ to_lower plural)
            ⊎ ((name : List ℕ) × (sub : List ℕ) × (pattern ≡ name ++ slash_star)
                × (to_lower plural ≡ (to_lower name ++ slash) ++ sub))))

subresource-of :
    (pattern plural : List ℕ)
    → has_suffix pattern slash_star ≡ true
    → has_prefix (to_lower plural) (to_lower (without_last 2 pattern) ++ slash) ≡ true
    → (name : List ℕ) × (sub : List ℕ) × (pattern ≡ name ++ slash_star)
      × (to_lower plural ≡ (to_lower name ++ slash) ++ sub)
subresource-of pattern plural hs hp =
    let (name, e) = has_suffix-of pattern slash_star hs in
    let (sub, e') =
      (has_prefix_iff (to_lower plural) (to_lower (without_last 2 pattern) ++ slash)).0 hp in
    (
      name,
      sub,
      e,
      subst (λ q. to_lower plural ≡ (to_lower q ++ slash) ++ sub)
          (ap (without_last 2) e ∙ without_last-append name slash_star) e',
    )

subresource-matches :
    (name sub plural : List ℕ)
    → to_lower plural ≡ (to_lower name ++ slash) ++ sub
    → has_prefix (to_lower plural) (to_lower (without_last 2 (name ++ slash_star)) ++ slash) ≡ true
subresource-matches name sub plural e =
    subst (λ q. has_prefix (to_lower plural) (to_lower q ++ slash) ≡ true)
      (sym (without_last-append name slash_star))
      ((has_prefix_iff (to_lower plural) (to_lower name ++ slash)).1 (sub, e))

single_resource_matches_iff :
    (pattern plural : List ℕ)
    → (single_resource_matches pattern plural ≡ true) ↔ SelectsName pattern plural
unfolding single_resource_matches equal_fold
single_resource_matches_iff pattern plural = (
  (λ h. (
    (λ e. ground (arith, codes_eq.beq_iff pattern [])),
    elim (Bool-cases (pattern == star)) [
      | inl p ↦ inl (eq_true pattern star p)
      | inr p ↦ elim (Bool-cases (to_lower pattern == to_lower plural)) [
        | inl q ↦ inr (inl (eq_true (to_lower pattern) (to_lower plural) q))
        | inr q ↦ inr (inr (subresource-of pattern plural (ground arith) (ground arith)))
      ]
    ],
  )),
  (λ h. elim (h.1) [
    | inl p ↦ ground (arith, codes_eq.beq_iff pattern [], codes_eq.beq_iff pattern star, h.0)
    | inr r ↦ elim r [
      | inl q ↦ ground (
        arith,
        codes_eq.beq_iff pattern [],
        codes_eq.beq_iff (to_lower pattern) (to_lower plural),
        h.0,
      )
      | inr (name, sub, e, e') ↦ ground (
        arith,
        codes_eq.beq_iff pattern [],
        h.0,
        subst (λ p. has_suffix p slash_star ≡ true) (sym e) (has_suffix-append name slash_star),
        subst (λ p. has_prefix (to_lower plural) (to_lower (without_last 2 p) ++ slash) ≡ true)
            (sym e) (subresource-matches name sub plural e'),
      )
    ]
  ]),
)

-- an empty list selects everything, and so does the wildcard
abbrev pub SelectsText : List String → String → Type 0
SelectsText [] value = Unit
SelectsText (x ∷ xs) value = Exists (λ y. (y ≡ wildcard) ⊎ (y ≡ value)) (x ∷ xs)

wildcard_or_iff :
    (xs : List String) (value : String)
    → ((if is_empty xs then true else any (λ x. text_eq x wildcard || text_eq x value) xs) ≡ true)
      ↔ SelectsText xs value
unfolding is_empty
wildcard_or_iff [] value = ((λ h. tt), (λ h. refl))
wildcard_or_iff (x ∷ xs) value =
    any_iff (λ y. (y ≡ wildcard) ⊎ (y ≡ value)) (λ y. text_eq y wildcard || text_eq y value)
      (x ∷ xs) (λ y. ground (arith, eq_iff y wildcard, eq_iff y value))

abbrev pub SelectsNamespace : List String → String → Type 0
SelectsNamespace namespaces ns = (ns ≡ "") ⊎ Exists (λ n. n ≡ ns) namespaces

namespace_iff :
    (r : CompiledResourceRule) (ns : String)
    → (matches_source_namespace r ns ≡ true) ↔ SelectsNamespace r.source_namespaces ns
unfolding matches_source_namespace
namespace_iff r ns =
    let (to, from) =
      any_iff (λ n. n ≡ ns) (λ n. text_eq n ns) r.source_namespaces (λ n. eq_iff n ns) in
    (
      (λ h. elim (Bool-cases (text_eq ns "")) [
        | inl p ↦ inl ((eq_iff ns "").0 p)
        | inr p ↦ inr (to (ground arith))
      ]),
      (λ h. elim h [ inl p ↦ ground (arith, eq_iff ns "") | inr p ↦ ground (arith, from p) ]),
    )

abbrev pub Selects : CompiledResourceRule → String → Event → Type 0
Selects r ns ev =
    SelectsNamespace r.source_namespaces ns
    × SelectsText r.operations ev.operation
    × SelectsText r.api_groups ev.api_group
    × SelectsText r.api_versions ev.api_version
    × Exists (λ pattern. SelectsName pattern ev.resource_plural) r.resources

-- A compiled resource rule matches an event exactly when the namespace of the object is empty or
-- among the source namespaces; the operation, the API group and the API version are each listed,
-- covered by `*`, or not constrained by the rule; and one of its resource patterns is `*`, is the
-- resource whatever the case, or is `name/*` where the resource is a subresource of the name.
pub resource_rule_matches_iff :
    (r : CompiledResourceRule) (ns : String) (ev : Event)
    → (resource_rule_matches r ns ev ≡ true) ↔ Selects r ns ev
unfolding resource_rule_matches matches_operations matches_api_groups matches_api_versions
    resource_matches
resource_rule_matches_iff r ns ev =
    let (n, n') = namespace_iff r ns in
    let (o, o') = wildcard_or_iff r.operations ev.operation in
    let (g, g') = wildcard_or_iff r.api_groups ev.api_group in
    let (v, v') = wildcard_or_iff r.api_versions ev.api_version in
    let (s, s') =
      any_iff (λ p. SelectsName p ev.resource_plural)
        (λ p. single_resource_matches p ev.resource_plural) r.resources
        (λ p. single_resource_matches_iff p ev.resource_plural) in
    (
      (λ h. (
        n (ground arith),
        o (ground arith),
        g (ground arith),
        v (ground arith),
        s (ground arith),
      )),
      (λ h. ground (arith, n' (h.0), o' (h.1), g' (h.2), v' (h.3), s' (h.4))),
    )

-- A rule of a ClusterWatchRule matches an event exactly when a rule of a WatchRule with the same
-- operations, groups, versions and resources matches it on an object without a namespace: the two
-- copies of the matching code agree.
pub matches_cluster_agrees :
    (r : CompiledClusterResourceRule) (namespaces : List String) (ev : Event)
    → matches_cluster r ev
      ≡ resource_rule_matches
          (record {
            operations = r.operations;
            api_groups = r.api_groups;
            api_versions = r.api_versions;
            resources = r.resources;
            source_namespaces = namespaces;
          })
          ""
          ev
unfolding matches_cluster cluster_operations cluster_api_groups cluster_api_versions
    cluster_resource cluster_single_resource resource_rule_matches matches_source_namespace
    matches_operations matches_api_groups matches_api_versions resource_matches
    single_resource_matches
matches_cluster_agrees r namespaces ev = refl
