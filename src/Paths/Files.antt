-- ===== src/Paths/Files.antt =====
-- internal/types/identifier.go and internal/git/git.go: which objects share a file.
use gitops_reverser.Base.{
  ℕ, ◌≡◌, refl, sym, ap, ◌∙◌, true, false, List, [], ◌∷◌, ◌++◌, ◌==◌, nat_eq, if◌then◌else◌, arith,
  Bool-cases, inl, inr,
}
use gitops_reverser.Base.Lists.{length, append_assoc}
use gitops_reverser.Base.Table.{is_empty}
use gitops_reverser.Base.Text.{codes_eq, without_last, without_last-append, has_suffix-append}
use gitops_reverser.Paths.Clean.{join_slash, split_slash}
use gitops_reverser.Paths.Segments.{NoSlash, split_slash-join_slash, NoSlash-append}
use gitops_reverser.Paths.Identifier.{
  ResourceIdentifier, cluster_scope, yaml, sops_yaml, to_git_path, SensitiveResourcePolicy,
  is_sensitive, generate_file_path,
}

-- what the API server admits of the parts: no slash, and no namespace is called "_cluster"
pub record IsPlain (r : ResourceIdentifier) : Type 0 where
  pub group_plain : NoSlash r.group
  pub resource_plain : NoSlash r.resource
  pub namespace_plain : NoSlash r.namespace
  pub name_plain : NoSlash r.name
  pub not_cluster : (r.namespace == cluster_scope) ≡ false

abbrev scope_of : ResourceIdentifier → List ℕ
scope_of r = if is_empty r.namespace then cluster_scope else r.namespace

-- the segments of the file with a given ending
segments : List ℕ → ResourceIdentifier → List (List ℕ)
segments ending r =
    if is_empty r.group
    then scope_of r ∷ r.resource ∷ (r.name ++ ending) ∷ []
    else scope_of r ∷ r.group ∷ r.resource ∷ (r.name ++ ending) ∷ []

yaml-NoSlash : NoSlash yaml
yaml-NoSlash = (refl, (refl, (refl, (refl, (refl, tt)))))

sops-NoSlash : NoSlash sops_yaml
sops-NoSlash = (refl, (refl, (refl, (refl, (refl, (refl, (refl, (refl, (refl, (refl, tt))))))))))

scope-NoSlash : (r : ResourceIdentifier) → IsPlain r → NoSlash (scope_of r)
scope-NoSlash r h = elim (Bool-cases (is_empty r.namespace)) [
  | inl p ↦ rw p (refl, (refl, (refl, (refl, (refl, (refl, (refl, (refl, tt))))))))
  | inr p ↦ rw p h.namespace_plain
]

split-segments :
    (ending : List ℕ) (r : ResourceIdentifier)
    → NoSlash ending
    → IsPlain r
    → split_slash (join_slash (segments ending r)) ≡ segments ending r
unfolding segments
split-segments ending r e h =
    let file = NoSlash-append r.name ending h.name_plain e in
    elim (Bool-cases (is_empty r.group)) [
      | inl p ↦ rw p (
          split_slash-join_slash (scope_of r) (r.resource ∷ (r.name ++ ending) ∷ [])
            (scope-NoSlash r h, (h.resource_plain, (file, tt))))
      | inr p ↦ rw p (
          split_slash-join_slash (scope_of r) (r.group ∷ r.resource ∷ (r.name ++ ending) ∷ [])
            (scope-NoSlash r h, (h.group_plain, (h.resource_plain, (file, tt)))))
    ]

to_git_path-segments : (r : ResourceIdentifier) → to_git_path r ≡ join_slash (segments yaml r)
unfolding to_git_path segments
to_git_path-segments r = ground arith

empty : (s : List ℕ) → is_empty s ≡ true → s ≡ []
unfolding is_empty
empty [] h = refl
empty (c ∷ s) h = absurd (cc h)

namespace-scope_of :
    (r : ResourceIdentifier)
    → IsPlain r
    → (if scope_of r == cluster_scope then [] else scope_of r) ≡ r.namespace
namespace-scope_of r h = elim (Bool-cases (is_empty r.namespace)) [
  | inl p ↦ ground (arith, p, empty r.namespace p, codes_eq.beq_iff cluster_scope cluster_scope)
  | inr p ↦ ground (arith, p, h.not_cluster)
]

join_slash-append :
    (a : List ℕ) (ss : List (List ℕ)) (s ending : List ℕ)
    → join_slash (a ∷ (ss ++ ((s ++ ending) ∷ []))) ≡ join_slash (a ∷ (ss ++ (s ∷ []))) ++ ending
unfolding join_slash
join_slash-append a [] s ending = sym (append_assoc a (b'/' ∷ s) ending)
join_slash-append a (b ∷ ss) s ending =
    ap (λ t. a ++ (b'/' ∷ t)) (join_slash-append b ss s ending)
    ∙ sym (append_assoc a (b'/' ∷ join_slash (b ∷ (ss ++ (s ∷ [])))) ending)

stem : ResourceIdentifier → List ℕ
stem r =
    if is_empty r.group
    then join_slash (scope_of r ∷ r.resource ∷ r.name ∷ [])
    else join_slash (scope_of r ∷ r.group ∷ r.resource ∷ r.name ∷ [])

join_slash-segments :
    (ending : List ℕ) (r : ResourceIdentifier) → join_slash (segments ending r) ≡ stem r ++ ending
unfolding segments stem
join_slash-segments ending r = elim (Bool-cases (is_empty r.group)) [
  | inl p ↦ rw p (join_slash-append (scope_of r) (r.resource ∷ []) r.name ending)
  | inr p ↦ rw p (join_slash-append (scope_of r) (r.group ∷ r.resource ∷ []) r.name ending)
]

abbrev ending_of : SensitiveResourcePolicy → ResourceIdentifier → List ℕ
ending_of p r = if is_sensitive p r.group r.resource then sops_yaml else yaml

generate-segments :
    (p : SensitiveResourcePolicy) (r : ResourceIdentifier)
    → generate_file_path p r ≡ join_slash (segments (ending_of p r) r)
unfolding generate_file_path
generate-segments p r =
    rw
      (
        to_git_path-segments r,
        join_slash-segments yaml r,
        join_slash-segments (ending_of p r) r,
        has_suffix-append (stem r) yaml,
        without_last-append (stem r) yaml,
      )
      (ground arith)

ending_of-NoSlash : (p : SensitiveResourcePolicy) (r : ResourceIdentifier) → NoSlash (ending_of p r)
ending_of-NoSlash p r = elim (Bool-cases (is_sensitive p r.group r.resource)) [
  | inl s ↦ rw s sops-NoSlash
  | inr s ↦ rw s yaml-NoSlash
]

-- scope, group, resource and file
parts : List (List ℕ) → (List ℕ × List ℕ) × (List ℕ × List ℕ)
parts (scope ∷ resource ∷ file ∷ []) = ((scope, []), (resource, file))
parts (scope ∷ group ∷ resource ∷ file ∷ []) = ((scope, group), (resource, file))
parts _ = (([], []), ([], []))

parts-segments :
    (ending : List ℕ) (r : ResourceIdentifier)
    → parts (segments ending r) ≡ ((scope_of r, r.group), (r.resource, r.name ++ ending))
unfolding parts segments
parts-segments ending r = elim (Bool-cases (is_empty r.group)) [
  | inl p ↦ rw p (rw (empty r.group p) refl)
  | inr p ↦ rw p refl
]

append_cancel : (s t ending : List ℕ) → s ++ ending ≡ t ++ ending → s ≡ t
append_cancel s t ending e =
    sym (without_last-append s ending)
    ∙ ap (without_last (length ending)) e
    ∙ without_last-append t ending

-- Under one policy for sensitive types, two identifiers whose parts hold no slash, and whose
-- namespaces are not called "_cluster", get the same file only if group, resource, namespace and
-- name are equal.
pub generate_file_path_distinct :
    (p : SensitiveResourcePolicy) (a b : ResourceIdentifier)
    → IsPlain a
    → IsPlain b
    → generate_file_path p a ≡ generate_file_path p b
    → (a.group ≡ b.group)
      × (a.resource ≡ b.resource)
      × (a.namespace ≡ b.namespace)
      × (a.name ≡ b.name)
generate_file_path_distinct p a b ha hb e =
    let same : segments (ending_of p a) a ≡ segments (ending_of p b) b =
      sym (split-segments (ending_of p a) a (ending_of-NoSlash p a) ha)
      ∙ ap split_slash (sym (generate-segments p a) ∙ e ∙ generate-segments p b)
      ∙ split-segments (ending_of p b) b (ending_of-NoSlash p b) hb in
    let both =
      sym (parts-segments (ending_of p a) a) ∙ ap parts same ∙ parts-segments (ending_of p b) b in
    let group = ap (λ x. x.0.1) both in
    let resource = ap (λ x. x.1.0) both in
    let ending : ending_of p a ≡ ending_of p b = rw (group, resource) refl in
    (
      group,
      resource,
      sym (namespace-scope_of a ha)
          ∙ ap (λ s. if s == cluster_scope then [] else s) (ap (λ x. x.0.0) both)
          ∙ namespace-scope_of b hb,
      append_cancel a.name b.name (ending_of p b)
          (ap (λ t. a.name ++ t) (sym ending) ∙ ap (λ x. x.1.1) both),
    )
