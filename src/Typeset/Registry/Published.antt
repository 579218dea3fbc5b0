-- ===== src/Typeset/Registry/Published.antt =====
-- What `update` publishes for each key, and the records that every update leaves consistent.
use mathlib.Core.Path.{subst}
use mathlib.Core.Option
use gitops_reverser.Base.{
  some_inj, ℕ, ◌≡◌, refl, String, Option, none, some, sym, ◌∙◌, List, [], if◌then◌else◌, is_some,
  arith,
}
use gitops_reverser.Base.Table.{
  get, UniqueKeys, carried, get-fill_absent, fill_absent-UniqueKeys, get-map_values,
  map_values-UniqueKeys,
}
use gitops_reverser.Typeset.Model.{Gvr}
use gitops_reverser.Typeset.Funnel.{Observation}
use gitops_reverser.Typeset.Lifecycle.{
  RecordKey, key_eq, Entry, settle_entry, due_activation, lifecycle_step, lifecycle_entries,
  compute_lifecycle,
}
use gitops_reverser.Typeset.Registry.{
  Registry, observation_key, record_from_observation, absent_observation, observe_all,
  retained_entry, retain_absent, update,
}
use gitops_reverser.Typeset.Registry.Retention.{
  IsConsistent, IsWellFormed, observe_all-IsWellFormed,
}

-- what an update holds for a key before the lifecycle bookkeeping
abbrev pub next_entry : Option Entry → Option Entry → ℕ → ℕ → Option Entry
next_entry (some fresh) prev now gen = some fresh
next_entry none prev now gen = carried (λ p. retained_entry p now gen) prev

abbrev pub stepped : Option Entry → Option Entry → ℕ → ℕ → Option Entry
stepped prev o now gen = Option.map (λ e. (lifecycle_step prev e now gen).0) o

abbrev pub reported : List Observation → ℕ → RecordKey → Option Entry
reported observations gen k = get k (observe_all observations gen [])

stepped-if_some :
    (o prev : Option Entry) (now gen : ℕ)
    → stepped prev (if is_some o then o else carried (λ p. retained_entry p now gen) prev) now gen
      ≡ stepped prev (next_entry o prev now gen) now gen
stepped-if_some none prev now gen = refl
stepped-if_some (some e) prev now gen = refl

-- the bookkeeping changes nothing of what the funnel and the grace decided
pub lifecycle_step-keeps :
    (prev : Option Entry) (e : Entry) (now gen : ℕ)
    → ((lifecycle_step prev e now gen).0.obs ≡ e.obs)
      × ((lifecycle_step prev e now gen).0.type_record ≡ e.type_record)
      × ((lifecycle_step prev e now gen).0.absent_since ≡ e.absent_since)
unfolding lifecycle_step settle_entry due_activation
lifecycle_step-keeps none e now gen = ground arith
lifecycle_step-keeps (some prev) e now gen = ground arith

step-IsConsistent :
    (k : RecordKey) (prev : Option Entry) (e : Entry) (now gen : ℕ)
    → IsConsistent k e
    → IsConsistent k (lifecycle_step prev e now gen).0
step-IsConsistent k prev e now gen c =
    let (same_obs, same_record, _) = lifecycle_step-keeps prev e now gen in
    record {
      judged = rw (same_obs, same_record) c.judged;
      named = rw (same_obs, same_record) c.named;
      keyed = rw same_obs c.keyed;
    }

carried-IsConsistent :
    (k : RecordKey) (prev e : Entry) (now gen : ℕ)
    → IsConsistent k prev
    → retained_entry prev now gen ≡ some e
    → IsConsistent k e
unfolding retained_entry observation_key record_from_observation absent_observation
carried-IsConsistent k prev e now gen c h = record {
  judged = ground arith;
  named = ground arith;
  keyed = ground (arith, c.keyed);
}

stepped-IsConsistent :
    (k : RecordKey) (prev o : Option Entry) (e : Entry) (now gen : ℕ)
    → ((x : Entry) → o ≡ some x → IsConsistent k x)
    → stepped prev o now gen ≡ some e
    → IsConsistent k e
stepped-IsConsistent k prev none e now gen c h = absurd (cc h)
stepped-IsConsistent k prev (some x) e now gen c h =
    subst (IsConsistent k) (some_inj h) (step-IsConsistent k prev x now gen (c x refl))

next_entry-IsConsistent :
    (k : RecordKey) (fresh prev : Option Entry) (e : Entry) (now gen : ℕ)
    → ((x : Entry) → fresh ≡ some x → IsConsistent k x)
    → ((x : Entry) → prev ≡ some x → IsConsistent k x)
    → next_entry fresh prev now gen ≡ some e
    → IsConsistent k e
next_entry-IsConsistent k (some x) prev e now gen f g h =
    subst (IsConsistent k) (some_inj h) (f x refl)
next_entry-IsConsistent k none none e now gen f g h = absurd (cc h)
next_entry-IsConsistent k none (some x) e now gen f g h =
    carried-IsConsistent k x e now gen (g x refl) h

pub IsWellFormed-empty : IsWellFormed []
unfolding get
IsWellFormed-empty = record { distinct = tt; consistent = λ k e p. absurd (cc p) }

reported-IsConsistent :
    (observations : List Observation) (gen : ℕ) (k : RecordKey) (e : Entry)
    → reported observations gen k ≡ some e
    → IsConsistent k e
reported-IsConsistent observations gen =
    (observe_all-IsWellFormed observations gen [] IsWellFormed-empty).consistent

module _ (gvr_text : Gvr → String) (observations : List Observation) (gen now : ℕ)
    (r : Registry) where
  pub get-update :
      (k : RecordKey)
      → UniqueKeys r.entries
      → get k (update gvr_text observations gen now r).0.entries
        ≡ stepped
            (get k r.entries)
            (next_entry (reported observations gen k) (get k r.entries) now gen)
            now
            gen
  unfolding update compute_lifecycle lifecycle_entries retain_absent
  get-update k u = rw get-map_values (
      rw
        (get-fill_absent (λ p. retained_entry p now gen) k r.entries
          (observe_all observations gen []) u)
        (stepped-if_some (reported observations gen k) (get k r.entries) now gen))

  -- Every update of a well-formed table publishes a well-formed table: distinct keys, and under
  -- each key a record that is the funnel's judgement of the observation kept there.
  pub update-IsWellFormed :
      IsWellFormed r.entries → IsWellFormed (update gvr_text observations gen now r).0.entries
  unfolding update compute_lifecycle lifecycle_entries retain_absent
  update-IsWellFormed w = record {
    distinct = map_values-UniqueKeys _ _ (
        fill_absent-UniqueKeys _ _ _
          (observe_all-IsWellFormed observations gen [] IsWellFormed-empty).distinct);
    consistent = λ k e p.
        stepped-IsConsistent k (get k r.entries) _ e now gen
          (λ x.
            next_entry-IsConsistent k (reported observations gen k) (get k r.entries) x now gen
              (reported-IsConsistent observations gen k) (w.consistent k))
          (sym (get-update k w.distinct) ∙ p);
  }
