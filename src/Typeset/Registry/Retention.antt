-- ===== src/Typeset/Registry/Retention.antt =====
-- What one update publishes for each key, and how long an absent type stays live.
use gitops_reverser.Base.{
  ℕ, ◌-◌, ◌<◌, ◌≤◌, ◌≡◌, refl, true, false, not, none, some, List, [], ◌∷◌, leb, arith, inl, inr,
}
use mathlib.Core.Path.{subst₂}
use gitops_reverser.Base.Table.{Table, get, put, get-put_cases, UniqueKeys, UniqueKeys-put}
use gitops_reverser.Typeset.Model.{is_followable, was_live}
use gitops_reverser.Typeset.Funnel.{Observation, evaluate}
use gitops_reverser.Typeset.Funnel.Verdicts.{evaluate-was_live, permanent}
use gitops_reverser.Typeset.Lifecycle.{RecordKey, key_eq, Entry, removal_grace}
use gitops_reverser.Typeset.Registry.{
  observation_key, record_from_observation, fresh_entry, observe_all, absent_from,
  absent_observation, retained_entry,
}

-- A published record is the judgement of the observation it keeps, under that observation's key.
pub record IsConsistent (k : RecordKey) (e : Entry) : Type 0 where
  pub judged : e.type_record.followability ≡ evaluate e.obs
  pub named : e.type_record.identity ≡ e.obs.identity
  pub keyed : observation_key e.obs ≡ k

pub record IsWellFormed (entries : Table RecordKey Entry) : Type 0 where
  pub distinct : UniqueKeys entries
  pub consistent : (k : RecordKey) (e : Entry) → get k entries ≡ some e → IsConsistent k e

IsConsistent-fresh_entry :
    (o : Observation) (gen : ℕ) → IsConsistent (observation_key o) (fresh_entry o gen)
unfolding fresh_entry record_from_observation
IsConsistent-fresh_entry o gen = record { judged = refl; named = refl; keyed = refl }

pub IsWellFormed-put :
    (k : RecordKey) (e : Entry) (m : Table RecordKey Entry)
    → IsConsistent k e
    → IsWellFormed m
    → IsWellFormed (put k e m)
IsWellFormed-put k e m c w = record {
  distinct = UniqueKeys-put k e m w.distinct;
  consistent = λ j x p. elim (get-put_cases k j e x m p) [
    | inl q ↦ subst₂ IsConsistent (q.0) (q.1) c
    | inr q ↦ w.consistent j x q
  ];
}

pub observe_all-IsWellFormed :
    (observations : List Observation) (gen : ℕ) (next : Table RecordKey Entry)
    → IsWellFormed next
    → IsWellFormed (observe_all observations gen next)
unfolding observe_all
observe_all-IsWellFormed [] gen next w = w
observe_all-IsWellFormed (o ∷ rest) gen next w = observe_all-IsWellFormed rest gen _ (
    IsWellFormed-put (observation_key o) (fresh_entry o gen) next (IsConsistent-fresh_entry o gen)
      w)

-- the record of a type that the scan did not report is live exactly until the grace has passed
retained-live :
    (k : RecordKey) (prev : Entry) (now gen : ℕ)
    → IsConsistent k prev
    → is_followable prev.type_record ≡ true
    → is_followable (record_from_observation (absent_observation prev now) gen)
      ≡ not (leb removal_grace (now - absent_from prev.absent_since now))
unfolding is_followable record_from_observation absent_observation permanent was_live
retained-live k prev now gen c live =
    ground
      (arith, c.judged, evaluate-was_live prev.obs, evaluate-was_live (absent_observation prev now))

-- How long a live type stays: the entry that replaces it, or nothing once the grace has passed.
pub retained_entry-within :
    (k : RecordKey) (prev : Entry) (now gen : ℕ)
    → IsConsistent k prev
    → is_followable prev.type_record ≡ true
    → now - absent_from prev.absent_since now < removal_grace
    → (e : Entry) × (retained_entry prev now gen ≡ some e)
      × (is_followable e.type_record ≡ true)
      × (e.absent_since ≡ some (absent_from prev.absent_since now))
      × IsConsistent k e
unfolding retained_entry observation_key record_from_observation absent_observation
retained_entry-within k prev now gen c live within = (
  record {
    obs = absent_observation prev now;
    type_record = record_from_observation (absent_observation prev now) gen;
    absent_since = some (absent_from prev.absent_since now);
    followable_since = none;
    activated = false;
  },
  ground (arith, retained-live k prev now gen c live),
  ground (arith, retained-live k prev now gen c live),
  refl,
  record { judged = refl; named = refl; keyed = c.keyed },
)

pub retained_entry-expired :
    (k : RecordKey) (prev : Entry) (now gen : ℕ)
    → IsConsistent k prev
    → removal_grace ≤ now - absent_from prev.absent_since now
    → retained_entry prev now gen ≡ none
unfolding retained_entry
retained_entry-expired k prev now gen c past = ground (arith, retained-live k prev now gen c)
