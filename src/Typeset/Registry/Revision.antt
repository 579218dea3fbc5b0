-- ===== src/Typeset/Registry/Revision.antt =====
-- A consumer that caches a projection of the registry gates its rebuild on the revision.
use gitops_reverser.Base.{ℕ, ◌≡◌, refl, String, Bool, true, false, sym, ◌∙◌, List, arith, nat_eq}
use gitops_reverser.Base.Table.{Table, get, UniqueKeys}
use gitops_reverser.Base.Sets.{subset_full, contains_of_subset}
use gitops_reverser.Base.Keys.{keys_where, passes, contains-keys_where, keys_where-Distinct}
use gitops_reverser.Typeset.Model.{Gvr, is_followable}
use gitops_reverser.Typeset.Funnel.{Observation}
use gitops_reverser.Typeset.Lifecycle.{RecordKey, key_eq, Entry}
use gitops_reverser.Typeset.Registry.{Registry, followable_keys, same_key_set, update}
use gitops_reverser.Typeset.Registry.Retention.{IsWellFormed}
use gitops_reverser.Typeset.Registry.Published.{update-IsWellFormed}

-- whether a key is in the live set
abbrev pub live_at : RecordKey → Table RecordKey Entry → Bool
live_at k entries = passes (λ e. is_followable e.type_record) (get k entries)

bool_eq : (a b : Bool) → (a ≡ true → b ≡ true) → (b ≡ true → a ≡ true) → a ≡ b
bool_eq true b f g = sym (f refl)
bool_eq false true f g = g refl
bool_eq false false f g = refl

same_key_set-live_at :
    (a b : Table RecordKey Entry) (k : RecordKey)
    → UniqueKeys a
    → UniqueKeys b
    → same_key_set (followable_keys a) (followable_keys b) ≡ true
    → live_at k a ≡ live_at k b
unfolding same_key_set followable_keys
same_key_set-live_at a b k ua ub h =
    let live = λ (e : Entry). is_followable e.type_record in
    sym (contains-keys_where live k a ua)
    ∙ bool_eq _ _ (contains_of_subset (keys_where live a) (keys_where live b) k (ground arith)) (
        subset_full (keys_where live a) (keys_where live b) k (keys_where-Distinct live a ua)
          (ground arith) (ground arith))
    ∙ contains-keys_where live k b ub

-- As long as an update of a well-formed table leaves the revision as it was, the generation and the
-- live set are those from before, for every key: a consumer that rebuilds only on a new revision
-- misses no change.
pub revision_unchanged :
    (gvr_text : Gvr → String) (observations : List Observation) (gen now : ℕ) (r : Registry)
    → IsWellFormed r.entries
    → (update gvr_text observations gen now r).0.revision ≡ r.revision
    → (gen ≡ r.generation)
      × ((k : RecordKey)
          → live_at k (update gvr_text observations gen now r).0.entries ≡ live_at k r.entries)
unfolding update
revision_unchanged gvr_text observations gen now r w h = (
  ground arith,
  λ k. sym (
      same_key_set-live_at r.entries _ k w.distinct
        (update-IsWellFormed gvr_text observations gen now r w).distinct (ground arith)),
)
