-- ===== src/Typeset/Lifecycle/Streak.antt =====
-- The settle window: activation comes after five quiet seconds, and once in a followable streak.
use gitops_reverser.Base.{
  ℕ, suc, ◌+◌, ◌-◌, ◌≤◌, ◌≡◌, Bool, true, false, ◌&&◌, Option, none, some, List, [], ◌∷◌, ◌++◌,
  ◌==◌, nat_eq, arith, if◌then◌else◌, Option-cases, inl, inr,
}
use gitops_reverser.Base.Lists.{All, any}
use gitops_reverser.Typeset.Model.{Verdict, verdict_eq}
use gitops_reverser.Typeset.Lifecycle.{
  Entry, EventKind, LifecycleEvent, kind_index, verdict_of, lifecycle_event, transition_between,
  append_transition_event, settle_entry, due_activation, lifecycle_step, settle_window,
}

abbrev pub is_kind : EventKind → LifecycleEvent → Bool
is_kind k ev = kind_index ev.kind == kind_index k

abbrev pub count_kind : EventKind → List LifecycleEvent → ℕ
count_kind k [] = 0
count_kind k (ev ∷ evs) = if is_kind k ev then suc (count_kind k evs) else count_kind k evs

pub count_kind-append :
    (k : EventKind) (xs ys : List LifecycleEvent)
    → count_kind k (xs ++ ys) ≡ count_kind k xs + count_kind k ys
count_kind-append k [] ys = omega arith
count_kind-append k (x ∷ xs) ys = ground (arith, count_kind-append k xs ys)

-- one type over successive updates: each round gives the entry that the update builds for it
pub record Round : Type 0 where
  pub entry : Entry
  pub now : ℕ
  pub generation : ℕ

abbrev pub run_events : Option Entry → List Round → List LifecycleEvent
run_events prev [] = []
run_events prev (x ∷ rounds) =
    let (e, events) = lifecycle_step prev x.entry x.now x.generation in
    events ++ run_events (some e) rounds

-- how many activations a previous entry still allows while the type stays followable
abbrev budget : Option Entry → ℕ
budget none = 1
budget (some prev) = if verdict_of prev == Verdict.followable && prev.activated then 0 else 1

step_budget :
    (prev : Option Entry) (e : Entry) (now gen : ℕ)
    → verdict_of e ≡ Verdict.followable
    → (count_kind EventKind.activated (lifecycle_step prev e now gen).1
          + budget (some (lifecycle_step prev e now gen).0)
        ≤ budget prev)
      × (verdict_of (lifecycle_step prev e now gen).0 ≡ Verdict.followable)
unfolding lifecycle_step settle_entry due_activation append_transition_event transition_between
    lifecycle_event
step_budget none e now gen h = ground arith
step_budget (some prev) e now gen h = ground arith

run_budget :
    (prev : Option Entry) (rounds : List Round)
    → All (λ (x : Round). verdict_of x.entry ≡ Verdict.followable) rounds
    → count_kind EventKind.activated (run_events prev rounds) ≤ budget prev
run_budget prev [] all = omega arith
run_budget prev (x ∷ rounds) all =
    let (e, events) = lifecycle_step prev x.entry x.now x.generation in
    omega (
      arith,
      count_kind-append EventKind.activated events (run_events (some e) rounds),
      (step_budget prev x.entry x.now x.generation (all.0)).0,
      run_budget (some e) rounds (all.1),
    )

-- However many updates find a type followable, with no other verdict between them, at most one
-- TypeActivated is emitted for it, whatever the type was before.
pub activated_once :
    (prev : Option Entry) (rounds : List Round)
    → All (λ (x : Round). verdict_of x.entry ≡ Verdict.followable) rounds
    → count_kind EventKind.activated (run_events prev rounds) ≤ 1
activated_once prev rounds all = ground (arith, run_budget prev rounds all)

-- For a type known before, whose fresh entry has no activation yet, an update emits TypeActivated
-- only if the type is followable now, was not activated before in this streak, and has been
-- followable for the whole settle window.
pub activated_settled :
    (prev : Entry) (e : Entry) (now gen : ℕ)
    → e.activated ≡ false
    → any (is_kind EventKind.activated) (lifecycle_step (some prev) e now gen).1 ≡ true
    → (verdict_of e ≡ Verdict.followable)
      × (verdict_of prev ≡ Verdict.followable)
      × (prev.activated ≡ false)
      × ((since : ℕ) × (prev.followable_since ≡ some since) × (settle_window ≤ now - since))
unfolding lifecycle_step settle_entry due_activation append_transition_event transition_between
    lifecycle_event
activated_settled prev e now gen f h = (
  ground arith,
  ground arith,
  ground arith,
  elim (Option-cases prev.followable_since) [
    | inl q ↦ absurd (ground arith)
    | inr q ↦ (q.0, q.1, ground (arith, q.1))
  ],
)
