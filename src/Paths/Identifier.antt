-- ===== src/Paths/Identifier.antt =====
-- internal/types/identifier.go and sensitive_resource.go, and `sanitizePath`, `IsValidTargetPath`
-- and `generateFilePath` of internal/git/git.go: the file of an object, and the types kept
-- encrypted.
use gitops_reverser.Base.{
  ℕ, ◌≡◌, ◌↔◌, Bool, true, not, ◌&&◌, ◌||◌, List, [], ◌∷◌, ◌++◌, ◌==◌, nat_eq, if◌then◌else◌,
  EqType, arith,
}
use mathlib.Core.List.{reverse}
use gitops_reverser.Base.Lists.{contains, length}
use gitops_reverser.Base.Result.{Result, failed, ok}
use gitops_reverser.Base.Table.{is_empty}
use gitops_reverser.Base.Text.{codes, codes_eq, has_prefix, has_suffix, without_last, to_lower}
use gitops_reverser.Paths.Clean.{
  clean, join_slash, split_slash, trim_space, dot, dot_dot, onto_first,
}

pub record ResourceIdentifier : Type 0 where
  pub group : List ℕ
  pub version : List ℕ
  pub resource : List ℕ
  pub namespace : List ℕ
  pub name : List ℕ

-- fmt.Sprintf with the parts between slashes
unfoldable pub key : ResourceIdentifier → List ℕ
key r =
    if not (is_empty r.namespace)
    then join_slash (r.group ∷ r.version ∷ r.resource ∷ r.namespace ∷ r.name ∷ [])
    else join_slash (r.group ∷ r.version ∷ r.resource ∷ r.name ∷ [])

abbrev pub cluster_scope : List ℕ
cluster_scope = codes "_cluster"

abbrev pub yaml : List ℕ
yaml = codes ".yaml"

abbrev pub sops_yaml : List ℕ
sops_yaml = codes ".sops.yaml"

unfoldable pub to_git_path : ResourceIdentifier → List ℕ
to_git_path r =
    let scope : List ℕ = if is_empty r.namespace then cluster_scope else r.namespace in
    if is_empty r.group
    then join_slash (scope ∷ r.resource ∷ (r.name ++ yaml) ∷ [])
    else join_slash (scope ∷ r.group ∷ r.resource ∷ (r.name ++ yaml) ∷ [])

unfoldable pub is_cluster_scoped : ResourceIdentifier → Bool
is_cluster_scoped r = is_empty r.namespace

unfoldable pub identifier_string : ResourceIdentifier → List ℕ
identifier_string r =
    if is_empty r.group
    then join_slash (r.version ∷ r.resource ∷ r.name ∷ [])
    else join_slash (r.group ∷ r.version ∷ r.resource ∷ r.name ∷ [])

pub record SensitiveResourceKey : Type 0 where
  pub group : List ℕ
  pub resource : List ℕ

abbrev pub same_key : SensitiveResourceKey → SensitiveResourceKey → Bool
same_key a b = a.group == b.group && a.resource == b.resource

pub same_key_iff : (a b : SensitiveResourceKey) → (same_key a b ≡ true) ↔ (a ≡ b)
same_key_iff a b =
    ground (arith, codes_eq.beq_iff a.group b.group, codes_eq.beq_iff a.resource b.resource)

instance unfoldable pub sensitive_key_eq : EqType SensitiveResourceKey
sensitive_key_eq = record { beq = same_key; beq_iff = same_key_iff }

-- the additional types, a set
pub record SensitiveResourcePolicy : Type 0 where
  pub additional : List SensitiveResourceKey

unfoldable pub normalize_sensitive_resource_key : List ℕ → List ℕ → SensitiveResourceKey
normalize_sensitive_resource_key group resource = record {
  group = to_lower (trim_space group);
  resource = to_lower (trim_space resource);
}

unfoldable pub is_core_secrets : SensitiveResourceKey → Bool
is_core_secrets k = is_empty k.group && k.resource == codes "secrets"

unfoldable pub is_sensitive : SensitiveResourcePolicy → List ℕ → List ℕ → Bool
is_sensitive p group resource =
    let k = normalize_sensitive_resource_key group resource in
    if is_core_secrets k then true else contains k p.additional

pub data EntryError : Type 0 where
  entry_is_empty : EntryError
  resource_is_empty : EntryError
  group_is_empty : EntryError
  bad_form : EntryError

-- the switch over the number of parts
unfoldable pub parse_parts : List (List ℕ) → Result EntryError SensitiveResourceKey
parse_parts (r ∷ []) = one (normalize_sensitive_resource_key [] r)
  where
    one : SensitiveResourceKey → Result EntryError SensitiveResourceKey
    one k = if is_empty k.resource then failed EntryError.resource_is_empty else ok k
parse_parts (g ∷ r ∷ []) = two (normalize_sensitive_resource_key g r)
  where
    two : SensitiveResourceKey → Result EntryError SensitiveResourceKey
    two k =
        if is_empty k.group
        then failed EntryError.group_is_empty
        else if is_empty k.resource
        then failed EntryError.resource_is_empty
        else ok k
parse_parts _ = failed EntryError.bad_form

unfoldable pub parse_sensitive_resource_entry : List ℕ → Result EntryError SensitiveResourceKey
unfolding parse_parts
parse_sensitive_resource_entry entry =
    let trimmed = trim_space entry in
    if is_empty trimmed then failed EntryError.entry_is_empty else parse_parts (split_slash trimmed)

-- strings.Split(s, ",")
unfoldable pub split_comma : List ℕ → List (List ℕ)
split_comma [] = [] ∷ []
split_comma (c ∷ s) = let rest = split_comma s in if c == b',' then [] ∷ rest else onto_first c rest

-- one entry of the loop, and the entries after it
unfoldable pub add_entries :
    List SensitiveResourceKey → List (List ℕ) → Result EntryError SensitiveResourcePolicy
add_entries keys [] = ok (record { additional = keys })
add_entries keys (entry ∷ entries) = elim (parse_sensitive_resource_entry entry) [
  | failed e ↦ failed e
  | ok k ↦
      if is_core_secrets k
      then add_entries keys entries
      else add_entries (if contains k keys then keys else k ∷ keys) entries
]

unfoldable pub parse_sensitive_resource_policy : List ℕ → Result EntryError SensitiveResourcePolicy
parse_sensitive_resource_policy additional =
    if is_empty (trim_space additional)
    then ok (record { additional = [] })
    else add_entries [] (split_comma additional)

-- strings.Contains(s, p)
unfoldable pub contains_text : List ℕ → List ℕ → Bool
contains_text [] p = is_empty p
contains_text (c ∷ s) p = has_prefix (c ∷ s) p || contains_text s p

-- strings.Trim(s, "/")
unfoldable pub trim_slashes_left : List ℕ → List ℕ
trim_slashes_left [] = []
trim_slashes_left (c ∷ s) = let rest = trim_slashes_left s in if c == b'/' then rest else c ∷ s

unfoldable pub trim_slashes : List ℕ → List ℕ
trim_slashes s = reverse (trim_slashes_left (reverse (trim_slashes_left s)))

unfoldable pub sanitize_path : List ℕ → List ℕ
sanitize_path base =
    let trimmed = trim_space base in
    let cleaned = trim_slashes (clean trimmed) in
    if is_empty trimmed
    then []
    else if has_prefix trimmed (codes "/") || contains b'\\' trimmed
    then []
    else if contains_text trimmed dot_dot
    then []
    else if is_empty cleaned || cleaned == dot
    then []
    else cleaned

unfoldable pub is_valid_target_path : List ℕ → Bool
is_valid_target_path p =
    let trimmed = trim_space p in
    if is_empty trimmed || trimmed == dot then true else not (is_empty (sanitize_path trimmed))

unfoldable pub generate_file_path : SensitiveResourcePolicy → ResourceIdentifier → List ℕ
generate_file_path p id =
    let default_path = to_git_path id in
    if not (is_sensitive p id.group id.resource)
    then default_path
    else if has_suffix default_path yaml
    then without_last (length yaml) default_path ++ sops_yaml
    else default_path ++ sops_yaml
