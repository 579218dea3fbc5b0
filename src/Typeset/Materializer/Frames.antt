-- ===== src/Typeset/Materializer/Frames.antt =====
-- The operations seen through the state of one type, and the invariant that all of them keep.
use text.Mathlib.Text.{◌==◌ as text_eq}
use mathlib.Core.Option
use mathlib.Core.Path.{subst}
use gitops_reverser.Base.{
  ℕ, String, ◌≡◌, refl, sym, ap, ◌∙◌, Bool, true, false, Option, none, some, List, [], ◌∷◌, ◌==◌,
  arith, eq_refl, Bool-cases, Option-cases, inl, inr, if◌then◌else◌,
}
use gitops_reverser.Base.Table.{Table, get, put, get-put, get-map_values}
use gitops_reverser.Typeset.Model.{Gvr, gvr_eq}
use gitops_reverser.Typeset.Lifecycle.{EventKind, LifecycleEvent}
use gitops_reverser.Typeset.Sync.{
  TypeState, SyncEvent, SyncEventKind, wobble, lose, sweep_type, begin_state, resync_state,
}
use gitops_reverser.Typeset.Sync.Safety.{
  IsSound, IsSound-new_state, maybe_request-IsSound, activate-IsSound, wobble-IsSound, lose-IsSound,
  fail_sync-IsSound, sweep_type-IsSound, begin_state-IsSound, resync_state-IsSound, succeed-IsSound,
  restore_state-IsSound,
}
use gitops_reverser.Typeset.Materializer.{
  Materializer, new_materializer, state_of, state_or_new, claimed, declare_one, declare_all,
  on_existing, on_lifecycle_activated, on_lifecycle_kind, on_lifecycle_event, start, then_state,
  begin_sync, sync_succeeded, sync_failed, restore_synced, request_resync, touch_all, sweep_types,
  sweep_state,
}

pub state_of-put :
    (g k : Gvr) (st : TypeState) (types : Table Gvr TypeState)
    → state_of (put g st types) k ≡ (if g == k then st else state_of types k)
unfolding state_of
state_of-put g k st types = rw get-put (ground arith)

pub state_of-put_self :
    (g : Gvr) (st : TypeState) (types : Table Gvr TypeState) → state_of (put g st types) g ≡ st
state_of-put_self g st types = rw state_of-put (rw (eq_refl g))

pub state_of-some :
    (g : Gvr) (st : TypeState) (types : Table Gvr TypeState)
    → get g types ≡ some st
    → state_of types g ≡ st
unfolding state_of
state_of-some g st types h = rw h

pub state_of-touch_all :
    (gs : List Gvr) (types : Table Gvr TypeState) (k : Gvr)
    → state_of (touch_all gs types) k ≡ state_of types k
unfolding touch_all
state_of-touch_all [] types k = refl
state_of-touch_all (g ∷ gs) types k = ground (
  arith,
  state_of-touch_all gs (put g (state_of types g) types) k,
  state_of-put g k (state_of types g) types,
  gvr_eq.beq_iff g k,
)

sweep_type-map :
    (g : Gvr) (live : Bool) (now : ℕ) (o : Option TypeState)
    → state_or_new (Option.map (λ st. (sweep_type g live st now).0) o)
      ≡ (sweep_type g live (state_or_new o) now).0
unfolding sweep_type
sweep_type-map g live now none = refl
sweep_type-map g live now (some st) = refl

-- a sweep, seen from one type
pub state_of-sweep_types :
    (claims : Table Gvr (Table String ℕ)) (now : ℕ) (types : Table Gvr TypeState) (k : Gvr)
    → state_of (sweep_types claims now types) k
      ≡ (sweep_type k (claimed claims k) (state_of types k) now).0
unfolding state_of sweep_types
state_of-sweep_types claims now types k =
    rw get-map_values (sweep_type-map k (claimed claims k) now (get k types))

abbrev pub AllSound : Bool → Table Gvr TypeState → Type 0
AllSound named types = (k : Gvr) → IsSound named (state_of types k)

pub AllSound-put :
    {named : Bool} (g : Gvr) (st : TypeState) (types : Table Gvr TypeState)
    → IsSound named st
    → AllSound named types
    → AllSound named (put g st types)
AllSound-put {named = named} g st types s all k =
    rw state_of-put (elim (g == k) as (λ b. IsSound named (if b then st else state_of types k)) [
      | true ↦ s
      | false ↦ all k
    ])

-- Every operation of the Materializer, as one step. The last argument of `SyncSucceeded` may be
-- empty; `named` says whether each sync that succeeds names a revision.
pub data Step (named : Bool) : Materializer → Materializer → Type 0 where
  declares :
      (m : Materializer) (ref : String) (desired : List Gvr) (now : ℕ)
      → Step named m (declare_all ref now desired m).0
  hears :
      (m : Materializer) (ev : LifecycleEvent) (now : ℕ)
      → Step named m (on_lifecycle_event ev now m).0
  begins : (m : Materializer) (g : Gvr) (now : ℕ) → Step named m (begin_sync g now m).0
  succeeds :
      (m : Materializer) (g : Gvr) (rv : String) (now : ℕ)
      → (named ≡ true → text_eq rv "" ≡ false)
      → Step named m (sync_succeeded g rv now m).0
  fails : (m : Materializer) (g : Gvr) (now : ℕ) → Step named m (sync_failed g now m).0
  restores : (m : Materializer) (g : Gvr) (rv : String) → Step named m (restore_synced g rv m)
  nudges : (m : Materializer) (g : Gvr) (now : ℕ) → Step named m (request_resync g now m).0
  sweeps : (m : Materializer) (now : ℕ) → Step named m (sweep_state now m)

pub data Reach (named : Bool) (start : Materializer) : Materializer → Type 0 where
  here : Reach named start start
  next : {m m' : Materializer} → Reach named start m → Step named m m' → Reach named start m'

on_existing-AllSound :
    {named : Bool} (g : Gvr) (f : TypeState → TypeState × List SyncEvent) (o : Option TypeState)
    (m : Materializer)
    → ((st : TypeState) → IsSound named st → IsSound named (f st).0)
    → o ≡ get g m.types
    → AllSound named m.types
    → AllSound named (on_existing g f o m).0.types
on_existing-AllSound g f none m keeps h all = all
on_existing-AllSound {named = named} g f (some st) m keeps h all =
    AllSound-put g (f st).0 m.types
      (keeps st (subst (IsSound named) (ap state_or_new (sym h)) (unfold state_of in all g))) all

start-AllSound :
    {named : Bool} (k : SyncEventKind) (g : Gvr) (now : ℕ) (m : Materializer) (o : Option TypeState)
    → ((st : TypeState) → o ≡ some st → IsSound named st)
    → AllSound named m.types
    → AllSound named (start k g o now m).0.types
start-AllSound k g now m none keeps all = all
start-AllSound k g now m (some st) keeps all = AllSound-put g st m.types (keeps st refl) all

then_state-IsSound :
    {named : Bool} (g : Gvr) (f : TypeState → Option TypeState) (types : Table Gvr TypeState)
    → ((st st' : TypeState) → IsSound named st → f st ≡ some st' → IsSound named st')
    → AllSound named types
    → (st : TypeState) → then_state (get g types) f ≡ some st
    → IsSound named st
then_state-IsSound {named = named} g f types keeps all st h = elim (Option-cases (get g types)) [
  | inl p ↦ absurd (cc (sym (ap (λ o. then_state o f) p) ∙ h))
  | inr p ↦
      keeps (p.0) st (subst (IsSound named) (ap state_or_new (p.1)) (unfold state_of in all g))
        (sym (ap (λ o. then_state o f) (p.1)) ∙ h)
]

activated-AllSound :
    {named : Bool} (m : Materializer) (g : Gvr) (now : ℕ)
    → AllSound named m.types
    → AllSound named (on_lifecycle_activated g now m).0.types
unfolding on_lifecycle_activated
activated-AllSound m g now all =
    AllSound-put g _ m.types
      (activate-IsSound g (claimed m.claims g) (state_of m.types g) now (all g)) all

lifecycle-AllSound :
    {named : Bool} (m : Materializer) (k : EventKind) (g : Gvr) (now : ℕ)
    → AllSound named m.types
    → AllSound named (on_lifecycle_kind k g now m).0.types
unfolding on_lifecycle_kind
lifecycle-AllSound m EventKind.activated g now all = activated-AllSound m g now all
lifecycle-AllSound m EventKind.recovered g now all = activated-AllSound m g now all
lifecycle-AllSound m EventKind.wobbling g now all =
    on_existing-AllSound g (λ st. (wobble st, [])) _ m (λ st s. wobble-IsSound g true st now s) refl
      all
lifecycle-AllSound m EventKind.removed g now all =
    on_existing-AllSound g (λ st. lose g st now) _ m (λ st s. lose-IsSound g true st now s) refl all
lifecycle-AllSound m EventKind.refused g now all =
    on_existing-AllSound g (λ st. lose g st now) _ m (λ st s. lose-IsSound g true st now s) refl all

declare_all-AllSound :
    {named : Bool} (ref : String) (now : ℕ) (desired : List Gvr) (m : Materializer)
    → AllSound named m.types
    → AllSound named (declare_all ref now desired m).0.types
unfolding declare_all declare_one
declare_all-AllSound ref now [] m all = all
declare_all-AllSound ref now (g ∷ desired) m all =
    declare_all-AllSound ref now desired (declare_one ref now g m).0
      (AllSound-put g _ m.types (maybe_request-IsSound g _ (state_of m.types g) now (all g)) all)

sweep-AllSound :
    {named : Bool} (m : Materializer) (now : ℕ)
    → AllSound named m.types
    → AllSound named (sweep_state now m).types
unfolding sweep_state
sweep-AllSound m now all k =
    rw state_of-sweep_types (sweep_type-IsSound k _ _ now (rw state_of-touch_all (all k)))

restore-AllSound :
    {named : Bool} (m : Materializer) (g : Gvr) (rv : String)
    → AllSound named m.types
    → AllSound named (restore_synced g rv m).types
unfolding restore_synced
restore-AllSound m g rv all = elim (Bool-cases (text_eq rv "")) [
  | inl p ↦ rw p all
  | inr p ↦ rw p (AllSound-put g _ m.types (restore_state-IsSound rv _ p) all)
]

pub Step-AllSound :
    {named : Bool} {m m' : Materializer}
    → Step named m m'
    → AllSound named m.types
    → AllSound named m'.types
unfolding on_lifecycle_event begin_sync sync_succeeded sync_failed request_resync
Step-AllSound (declares m ref desired now) all = declare_all-AllSound ref now desired m all
Step-AllSound (hears m ev now) all = lifecycle-AllSound m ev.kind ev.gvr now all
Step-AllSound (begins m g now) all =
    start-AllSound _ g now m _
      (then_state-IsSound g begin_state m.types
        (λ st st' s h. begin_state-IsSound g true st now s st' h) all)
      all
Step-AllSound (succeeds m g rv now h) all =
    on_existing-AllSound g _ _ m (λ st s. succeed-IsSound g true st now s rv h) refl all
Step-AllSound (fails m g now) all =
    on_existing-AllSound g _ _ m (λ st s. fail_sync-IsSound g true st now s) refl all
Step-AllSound (restores m g rv) all = restore-AllSound m g rv all
Step-AllSound (nudges m g now) all =
    start-AllSound _ g now m _
      (then_state-IsSound g (resync_state (claimed m.claims g)) m.types
        (λ st st' s h. resync_state-IsSound g (claimed m.claims g) st now s st' h) all)
      all
Step-AllSound (sweeps m now) all = sweep-AllSound m now all

Reach-keeps :
    {named : Bool} {s m : Materializer}
    → AllSound named s.types
    → Reach named s m
    → AllSound named m.types
Reach-keeps all here = all
Reach-keeps all (next r st) = Step-AllSound st (Reach-keeps all r)

-- From an empty Materializer, after any operations in any order: a type that is not followable is
-- Dormant, only a Synced, Resyncing or Failing type serves a checkpoint, and only a Synced type is
-- flagged for a re-anchor. If every call of SyncSucceeded was given a revision that is not empty, a
-- Synced or Resyncing type does serve a checkpoint.
pub Reach-AllSound :
    (named : Bool) (start_time : ℕ) {m : Materializer}
    → Reach named (new_materializer start_time) m
    → AllSound named m.types
unfolding new_materializer state_of get
Reach-AllSound named start_time r = Reach-keeps (λ k. IsSound-new_state) r
