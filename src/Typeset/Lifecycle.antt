-- ===== src/Typeset/Lifecycle.antt =====
-- internal/typeset/lifecycle.go, with the entry of internal/typeset/registry.go that it compares.
-- A zero time.Time is `none`; times and durations are nanoseconds.
pub mod Streak
use gitops_reverser.Base.{
  ℕ, ◌-◌, ◌*◌, String, Bool, true, false, not, ◌&&◌, Option, none, some, List, [], ◌∷◌, ◌++◌, ◌==◌,
  leb, if◌then◌else◌, is_some,
}
use gitops_reverser.Base.Table.{Table, get, has, map_values}
use gitops_reverser.Base.Sort.{text_lt, sort_by}
use text.Mathlib.Text.{◌==◌ as text_eq}
use gitops_reverser.Typeset.Model.{
  Gvk, Gvr, Scope, Verdict, verdict_eq, verdict_index, Reason, Check, first_failure, TypeRecord,
  was_live, is_followable, gvk_beq, gvr_beq, gvk_beq_iff, gvr_beq_iff, scope_index, scope_beq_iff,
}
use gitops_reverser.Typeset.Funnel.{Observation}
use gitops_reverser.Base.{EqType, ◌≡◌, ◌↔◌, arith, nat_eq}

abbrev pub second : ℕ
second = 1_000_000_000

abbrev pub settle_window : ℕ
settle_window = 5 * second

abbrev pub removal_grace : ℕ
removal_grace = 60 * second

pub record RecordKey : Type 0 where
  pub gvk : Gvk
  pub gvr : Gvr
  pub scope : Scope

abbrev pub key_beq : RecordKey → RecordKey → Bool
key_beq a b =
    gvk_beq a.gvk b.gvk && gvr_beq a.gvr b.gvr && scope_index a.scope == scope_index b.scope

pub key_beq_iff : (a b : RecordKey) → (key_beq a b ≡ true) ↔ (a ≡ b)
key_beq_iff a b =
    ground (arith, gvk_beq_iff a.gvk b.gvk, gvr_beq_iff a.gvr b.gvr, scope_beq_iff a.scope b.scope)

instance unfoldable pub key_eq : EqType RecordKey
key_eq = record { beq = key_beq; beq_iff = key_beq_iff }

pub record Entry : Type 0 where
  pub obs : Observation
  pub type_record : TypeRecord
  pub absent_since : Option ℕ
  pub followable_since : Option ℕ
  pub activated : Bool

pub data EventKind : Type 0 where
  activated wobbling recovered removed refused : EventKind

abbrev pub kind_text : EventKind → String
kind_text EventKind.activated = "TypeActivated"
kind_text EventKind.wobbling = "TypeWobbling"
kind_text EventKind.recovered = "TypeRecovered"
kind_text EventKind.removed = "TypeRemoved"
kind_text EventKind.refused = "TypeRefused"

abbrev pub kind_index : EventKind → ℕ
kind_index EventKind.activated = 0
kind_index EventKind.wobbling = 1
kind_index EventKind.recovered = 2
kind_index EventKind.removed = 3
kind_index EventKind.refused = 4

pub record LifecycleEvent : Type 0 where
  pub kind : EventKind
  pub gvk : Gvk
  pub gvr : Gvr
  pub from : Verdict
  pub to : Verdict
  pub reason : Reason
  pub generation : ℕ
  pub time : ℕ

unfoldable pub lifecycle_event :
    EventKind → TypeRecord → Verdict → Verdict → Reason → ℕ → ℕ → LifecycleEvent
lifecycle_event k rec v w why now gen = record {
  kind = k;
  gvk = rec.identity.gvk;
  gvr = rec.identity.gvr;
  from = v;
  to = w;
  reason = why;
  generation = gen;
  time = now;
}

abbrev pub verdict_of : Entry → Verdict
verdict_of e = e.type_record.followability.verdict

unfoldable pub from_verdict : Option Entry → Verdict
from_verdict none = Verdict.unset
from_verdict (some prev) = verdict_of prev

abbrev reason_of_check : Option Check → Reason
reason_of_check none = Reason.unset
reason_of_check (some c) = c.reason

unfoldable pub reason_of : TypeRecord → Reason
reason_of rec = reason_of_check (first_failure rec.followability.checks)

-- the switch of `appendTransitionEvent`, for a type that was known before
unfoldable pub transition_between : Verdict → Verdict → TypeRecord → ℕ → ℕ → List LifecycleEvent
unfolding was_live
transition_between v w rec now gen =
    if v == w
    then []
    else if v == Verdict.followable && w == Verdict.retained
    then lifecycle_event EventKind.wobbling rec v w (reason_of rec) now gen ∷ []
    else if v == Verdict.retained && w == Verdict.followable
    then lifecycle_event EventKind.recovered rec v w Reason.unset now gen ∷ []
    else if w == Verdict.refused && was_live v
    then lifecycle_event EventKind.refused rec v w (reason_of rec) now gen ∷ []
    else []

unfoldable pub append_transition_event :
    List LifecycleEvent → Option Entry → Entry → ℕ → ℕ → List LifecycleEvent
unfolding transition_between
append_transition_event events none cur now gen = events
append_transition_event events (some prev) cur now gen =
    events ++ transition_between (verdict_of prev) (verdict_of cur) cur.type_record now gen

-- the settle bookkeeping of one entry of `next`
unfoldable pub settle_entry : Option Entry → Entry → ℕ → Entry
settle_entry none e now =
    if verdict_of e == Verdict.followable
    then record e { followable_since = some now; activated = false }
    else e
settle_entry (some prev) e now =
    if verdict_of e == Verdict.followable
    then (if verdict_of prev == Verdict.followable
        then record e { followable_since = prev.followable_since; activated = prev.activated }
        else record e { followable_since = some now; activated = false })
    else e

abbrev pub settled : Option ℕ → ℕ → Bool
settled none now = false
settled (some since) now = leb settle_window (now - since)

unfoldable pub due_activation : Entry → ℕ → Bool
due_activation e now =
    verdict_of e == Verdict.followable && not e.activated && settled e.followable_since now

-- one round of the loop over `next`: the entry with its bookkeeping, and the events it crosses
unfoldable pub lifecycle_step : Option Entry → Entry → ℕ → ℕ → Entry × List LifecycleEvent
lifecycle_step prev e now gen =
    let e' = settle_entry prev e now in
    let events = append_transition_event [] prev e' now gen in
    if due_activation e' now
    then (
      record e' { activated = true },
      events
          ++ lifecycle_event EventKind.activated e'.type_record (from_verdict prev)
              Verdict.followable Reason.unset now gen
            ∷ [],
    )
    else (e', events)

-- the loop over `next`, whose entries it rewrites
unfoldable pub lifecycle_entries :
    Table RecordKey Entry → Table RecordKey Entry → ℕ → ℕ → Table RecordKey Entry
lifecycle_entries prevs next now gen =
    map_values (λ k e. (lifecycle_step (get k prevs) e now gen).0) next

unfoldable pub lifecycle_events :
    Table RecordKey Entry → Table RecordKey Entry → ℕ → ℕ → List LifecycleEvent
lifecycle_events prevs [] now gen = []
lifecycle_events prevs ((k, e) ∷ next) now gen =
    (lifecycle_step (get k prevs) e now gen).1 ++ lifecycle_events prevs next now gen

-- the loop over the previous records: a live key that is absent from `next` was removed
unfoldable pub removal_events :
    Table RecordKey Entry → Table RecordKey Entry → ℕ → ℕ → List LifecycleEvent
removal_events next [] now gen = []
removal_events next ((k, prev) ∷ prevs) now gen =
    let rest = removal_events next prevs now gen in
    if has k next
    then rest
    else if not (is_followable prev.type_record)
    then rest
    else lifecycle_event EventKind.removed prev.type_record (verdict_of prev) Verdict.refused
        Reason.absence_expired now gen
      ∷ rest

-- `GVR.String()` of apimachinery is a parameter of whatever sorts.
module _ (gvr_text : Gvr → String) where
  unfoldable pub event_less : LifecycleEvent → LifecycleEvent → Bool
  event_less a b =
      if not (text_eq (gvr_text a.gvr) (gvr_text b.gvr))
      then text_lt (gvr_text a.gvr) (gvr_text b.gvr)
      else text_lt (kind_text a.kind) (kind_text b.kind)

  unfoldable pub sort_lifecycle_events : List LifecycleEvent → List LifecycleEvent
  sort_lifecycle_events events = sort_by event_less events

  unfoldable pub compute_lifecycle :
      Table RecordKey Entry
      → Table RecordKey Entry
      → ℕ
      → ℕ
      → Table RecordKey Entry × List LifecycleEvent
  compute_lifecycle prevs next now gen = (
    lifecycle_entries prevs next now gen,
    sort_lifecycle_events
        (lifecycle_events prevs next now gen ++ removal_events next prevs now gen),
  )

-- every event to every observer, in order; an observer is an action on whatever state it keeps
unfoldable pub dispatch_to {ℓ κ} : {E : Type ℓ} {S : Type κ} → List (E → S → S) → E → S → S
dispatch_to [] ev s = s
dispatch_to (obs ∷ observers) ev s = dispatch_to observers ev (obs ev s)

unfoldable pub dispatch {ℓ κ} : {E : Type ℓ} {S : Type κ} → List (E → S → S) → List E → S → S
unfolding dispatch_to
dispatch observers [] s = s
dispatch observers (ev ∷ events) s = dispatch observers events (dispatch_to observers ev s)
