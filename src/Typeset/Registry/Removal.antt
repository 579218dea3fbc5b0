-- ===== src/Typeset/Registry/Removal.antt =====
-- A live type that an update drops is announced to the observers.
use gitops_reverser.Base.{
  ℕ, ◌≡◌, refl, String, Bool, true, false, ◌&&◌, ◌||◌, Option, none, some, sym, ap, ◌∙◌, List, [],
  ◌∷◌, ◌==◌, arith, nat_eq, Bool-cases, inl, inr, is_some, eq_refl,
}
use mathlib.Core.Option
use mathlib.Core.Path.{subst₂}
use gitops_reverser.Base.Table.{Table, get, has, get-map_values, get-cons_cases}
use gitops_reverser.Base.Lists.{any, any-append}
use gitops_reverser.Base.Sort.{any-sort_by}
use gitops_reverser.Typeset.Model.{Gvr, gvr_eq, is_followable}
use gitops_reverser.Typeset.Funnel.{Observation}
use gitops_reverser.Typeset.Lifecycle.{
  RecordKey, key_eq, Entry, EventKind, LifecycleEvent, lifecycle_event, removal_events,
  sort_lifecycle_events, compute_lifecycle, lifecycle_entries,
}
use gitops_reverser.Typeset.Lifecycle.Streak.{is_kind}
use gitops_reverser.Typeset.Registry.{Registry, observation_key, update, retain_absent, observe_all}
use gitops_reverser.Typeset.Registry.Retention.{IsConsistent, IsWellFormed}

abbrev pub announces_removal : Gvr → LifecycleEvent → Bool
announces_removal g ev = is_kind EventKind.removed ev && ev.gvr == g

gvr-keyed : (k : RecordKey) (e : Entry) → IsConsistent k e → e.type_record.identity.gvr ≡ k.gvr
unfolding observation_key
gvr-keyed k e c = ap (λ i. i.gvr) c.named ∙ ap (λ (j : RecordKey). j.gvr) c.keyed

map_is_none {ℓ} :
    {A : Type ℓ} (f : A → A) (o : Option A) → Option.map f o ≡ none → is_some o ≡ false
map_is_none f none h = refl
map_is_none f (some x) h = absurd (cc h)

or_true : (b : Bool) → (b || true) ≡ true
or_true b = ground arith

module _ (next : Table RecordKey Entry) (now gen : ℕ) (g : Gvr) where
  removal_events-head :
      (k : RecordKey) (prev : Entry) (prevs : Table RecordKey Entry)
      → prev.type_record.identity.gvr ≡ g
      → is_followable prev.type_record ≡ true
      → has k next ≡ false
      → any (announces_removal g) (removal_events next ((k, prev) ∷ prevs) now gen) ≡ true
  unfolding removal_events lifecycle_event
  removal_events-head k prev prevs same live gone = rw (gone, live, same, eq_refl g)

  removal_events-tail :
      (k : RecordKey) (prev : Entry) (prevs : Table RecordKey Entry)
      → any (announces_removal g) (removal_events next prevs now gen) ≡ true
      → any (announces_removal g) (removal_events next ((k, prev) ∷ prevs) now gen) ≡ true
  unfolding removal_events
  removal_events-tail k prev prevs h = elim (Bool-cases (has k next)) [
    | inl q ↦ rw q h
    | inr q ↦ rw q (ground arith)
  ]

any-removal_events :
    (next prevs : Table RecordKey Entry) (now gen : ℕ) (k : RecordKey) (prev : Entry)
    → IsConsistent k prev
    → is_followable prev.type_record ≡ true
    → has k next ≡ false
    → get k prevs ≡ some prev
    → any (announces_removal k.gvr) (removal_events next prevs now gen) ≡ true
any-removal_events next [] now gen k prev c live gone p = absurd (unfold get in cc p)
any-removal_events next ((j, e) ∷ prevs) now gen k prev c live gone p =
    elim (get-cons_cases j k e prev prevs p) [
      | inl q ↦
          subst₂
            (λ i x.
              any (announces_removal k.gvr) (removal_events next ((i, x) ∷ prevs) now gen) ≡ true)
            (sym (q.0)) (sym (q.1))
            (removal_events-head next now gen k.gvr k prev prevs (gvr-keyed k prev c) live gone)
      | inr q ↦
          removal_events-tail next now gen k.gvr j e prevs
            (any-removal_events next prevs now gen k prev c live gone q)
    ]

-- A live type that an update of a well-formed table no longer knows is never lost in silence: a
-- TypeRemoved event for its resource is among those handed to the observers.
pub removal_announced :
    (gvr_text : Gvr → String) (observations : List Observation) (gen now : ℕ) (r : Registry)
    (k : RecordKey) (prev : Entry)
    → IsWellFormed r.entries
    → get k r.entries ≡ some prev
    → is_followable prev.type_record ≡ true
    → get k (update gvr_text observations gen now r).0.entries ≡ none
    → any (announces_removal k.gvr) (update gvr_text observations gen now r).1 ≡ true
unfolding update compute_lifecycle sort_lifecycle_events lifecycle_entries
removal_announced gvr_text observations gen now r k prev w p live gone =
    let next = retain_absent r.entries now gen (observe_all observations gen []) in
    let unknown : has k next ≡ false =
      map_is_none _ (get k next) (sym (get-map_values _ k next) ∙ gone) in
    rw any-sort_by (
      rw any-append (
        rw (any-removal_events next r.entries now gen k prev (w.consistent k prev p) live unknown p)
          (or_true _)))
