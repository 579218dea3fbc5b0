-- ===== src/Typeset/Registry.antt =====
-- internal/typeset/registry.go: the published records, the removal grace and the revision.
-- The clock's reading is the argument `now` of an update. Locks are not modelled: each operation is
-- one step, as the registry's mutexes make it.
pub mod Retention
pub mod Published
pub mod Revision
pub mod Removal
pub mod Grace
use gitops_reverser.Base.{
  ℕ, ◌+◌, ◌-◌, String, Bool, true, false, not, ◌&&◌, ◌||◌, Option, none, some, List, [], ◌∷◌, ◌==◌,
  leb, if◌then◌else◌, is_some, nat_eq,
}
use Prim.Native.Nat.{◌%◌, ◌^◌}
use gitops_reverser.Base.Table.{Table, put, fill_absent}
use gitops_reverser.Base.Lists.{length}
use gitops_reverser.Base.Sets.{subset}
use gitops_reverser.Base.Keys.{keys_where}
use gitops_reverser.Typeset.Model.{Gvr, TypeRecord, is_followable}
use gitops_reverser.Typeset.Funnel.{Observation, evaluate}
use gitops_reverser.Typeset.Lifecycle.{
  RecordKey, key_eq, Entry, LifecycleEvent, removal_grace, compute_lifecycle,
}

pub record Registry : Type 0 where
  pub entries : Table RecordKey Entry
  pub generation : ℕ
  pub revision : ℕ
  pub ready : Bool

unfoldable pub new_registry : Registry
new_registry = record { entries = []; generation = 0; revision = 0; ready = false }

unfoldable pub observation_key : Observation → RecordKey
observation_key obs = record {
  gvk = obs.identity.gvk;
  gvr = obs.identity.gvr;
  scope = obs.identity.scope;
}

unfoldable pub record_from_observation : Observation → ℕ → TypeRecord
record_from_observation obs gen = record {
  identity = obs.identity;
  origin = obs.origin;
  preferred = obs.preferred;
  verbs = obs.verbs;
  subresources = obs.subresources;
  sensitive = obs.sensitive;
  followability = evaluate obs;
  generation = gen;
}

unfoldable pub fresh_entry : Observation → ℕ → Entry
fresh_entry o gen = record {
  obs = o;
  type_record = record_from_observation o gen;
  absent_since = none;
  followable_since = none;
  activated = false;
}

-- the loop over the observations; a later one of the same key wins
unfoldable pub observe_all : List Observation → ℕ → Table RecordKey Entry → Table RecordKey Entry
observe_all [] gen next = next
observe_all (obs ∷ rest) gen next =
    observe_all rest gen (put (observation_key obs) (fresh_entry obs gen) next)

unfoldable pub absent_from : Option ℕ → ℕ → ℕ
absent_from none now = now
absent_from (some since) now = since

unfoldable pub absent_observation : Entry → ℕ → Observation
absent_observation prev now = record prev.obs {
  served = false;
  absence_expired = leb removal_grace (now - absent_from prev.absent_since now);
}

-- what a key that the scan did not report holds next, if it stays
unfoldable pub retained_entry : Entry → ℕ → ℕ → Option Entry
retained_entry prev now gen =
    if not (is_followable prev.type_record)
    then none
    else let o = absent_observation prev now in
      let rec = record_from_observation o gen in
      if not (is_followable rec)
      then none
      else some (record {
        obs = o;
        type_record = rec;
        absent_since = some (absent_from prev.absent_since now);
        followable_since = none;
        activated = false;
      })

-- the loop of `retainAbsentLocked` over the previous entries
unfoldable pub retain_absent :
    Table RecordKey Entry → ℕ → ℕ → Table RecordKey Entry → Table RecordKey Entry
retain_absent prevs now gen next = fill_absent (λ prev. retained_entry prev now gen) prevs next

unfoldable pub followable_keys : Table RecordKey Entry → List RecordKey
followable_keys entries = keys_where (λ e. is_followable e.type_record) entries

unfoldable pub same_key_set : List RecordKey → List RecordKey → Bool
same_key_set a b = length a == length b && subset a b

module _ (gvr_text : Gvr → String) where
  -- `Update`: the registry, and the events that its observers are then handed
  unfoldable pub update : List Observation → ℕ → ℕ → Registry → Registry × List LifecycleEvent
  update observations gen now r =
      let next = retain_absent r.entries now gen (observe_all observations gen []) in
      let (published, events) = compute_lifecycle gvr_text r.entries next now gen in
      (
        record {
          entries = published;
          generation = gen;
          revision =
              if not r.ready
                || not (gen == r.generation)
                || not (same_key_set (followable_keys r.entries) (followable_keys published))
              then (r.revision + 1) % 2 ^ 64
              else r.revision;
          ready = true;
        },
        events,
      )
