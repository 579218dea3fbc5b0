-- ===== src/Typeset/Materializer.antt =====
-- internal/typeset/materializer.go: the claim table, the states of all types, and the operations.
-- The clock's reading is the argument `now`; the events that an operation hands to its observers
-- are its second result. A lock is not modelled: each operation is one step.
pub mod Frames
pub mod Maps
pub mod Claims
pub mod Orders
use text.Mathlib.Text.{◌==◌ as text_eq}
use gitops_reverser.Base.{
  ℕ, String, Bool, true, false, not, ◌&&◌, ◌||◌, Option, none, some, List, [], ◌∷◌, ◌++◌, string_eq,
  ltb, if◌then◌else◌, map,
}
use gitops_reverser.Base.Lists.{filter}
use gitops_reverser.Base.Table.{Table, get, put, map_values, is_empty}
use gitops_reverser.Base.Sort.{text_lt, sort_by}
use gitops_reverser.Typeset.Model.{Gvr, gvr_eq}
use gitops_reverser.Typeset.Lifecycle.{EventKind, LifecycleEvent}
use gitops_reverser.Typeset.Sync.{
  Phase, TypeState, SyncEvent, SyncEventKind, sync_kind_text, event, new_state, maybe_request,
  activate, wobble, lose, begin_state, succeed, fail_sync, restore_state, resync_state, sweep_type,
  pending,
}

-- A GitTargetRef is opaque text.
pub record Materializer : Type 0 where
  pub claims : Table Gvr (Table String ℕ)
  pub types : Table Gvr TypeState
  pub last_sweep_at : ℕ

unfoldable pub new_materializer : ℕ → Materializer
new_materializer now = record { claims = []; types = []; last_sweep_at = now }

abbrev pub refs_or_empty : Option (Table String ℕ) → Table String ℕ
refs_or_empty none = []
refs_or_empty (some refs) = refs

-- m.claims[gvr]; a missing key reads as an empty map
unfoldable pub refs_of : Table Gvr (Table String ℕ) → Gvr → Table String ℕ
refs_of claims g = refs_or_empty (get g claims)

-- len(m.claims[gvr]) > 0
unfoldable pub claimed : Table Gvr (Table String ℕ) → Gvr → Bool
claimed claims g = not (is_empty (refs_of claims g))

abbrev pub state_or_new : Option TypeState → TypeState
state_or_new none = new_state
state_or_new (some st) = st

-- the state that `stateLocked` returns
unfoldable pub state_of : Table Gvr TypeState → Gvr → TypeState
state_of types g = state_or_new (get g types)

-- one round of the loop of `Declare`
unfoldable pub declare_one : String → ℕ → Gvr → Materializer → Materializer × List SyncEvent
declare_one ref now g m =
    let claims' = put g (put ref now (refs_of m.claims g)) m.claims in
    let (st, events) = maybe_request g (claimed claims' g) (state_of m.types g) now in
    (record m { claims = claims'; types = put g st m.types }, events)

unfoldable pub declare_all : String → ℕ → List Gvr → Materializer → Materializer × List SyncEvent
declare_all ref now [] m = (m, [])
declare_all ref now (g ∷ desired) m =
    let (m', events) = declare_one ref now g m in
    let (m'', rest) = declare_all ref now desired m' in (m'', events ++ rest)

-- a state that exists is replaced by what `f` makes of it
abbrev pub on_existing :
    Gvr
    → (TypeState → TypeState × List SyncEvent)
    → Option TypeState
    → Materializer
    → Materializer × List SyncEvent
on_existing g f none m = (m, [])
on_existing g f (some st) m =
    let (st', events) = f st in (record m { types = put g st' m.types }, events)

unfoldable pub on_lifecycle_activated : Gvr → ℕ → Materializer → Materializer × List SyncEvent
on_lifecycle_activated g now m =
    let (st, events) = activate g (claimed m.claims g) (state_of m.types g) now in
    (record m { types = put g st m.types }, events)

unfoldable pub on_lifecycle_kind :
    EventKind → Gvr → ℕ → Materializer → Materializer × List SyncEvent
unfolding on_lifecycle_activated
on_lifecycle_kind EventKind.activated g now m = on_lifecycle_activated g now m
on_lifecycle_kind EventKind.recovered g now m = on_lifecycle_activated g now m
on_lifecycle_kind EventKind.wobbling g now m =
    on_existing g (λ st. (wobble st, [])) (get g m.types) m
on_lifecycle_kind EventKind.removed g now m = on_existing g (λ st. lose g st now) (get g m.types) m
on_lifecycle_kind EventKind.refused g now m = on_existing g (λ st. lose g st now) (get g m.types) m

unfoldable pub on_lifecycle_event :
    LifecycleEvent → ℕ → Materializer → Materializer × List SyncEvent
unfolding on_lifecycle_kind
on_lifecycle_event ev now m = on_lifecycle_kind ev.kind ev.gvr now m

-- what `BeginSync` and `RequestResync` do with the state that they may have moved on
abbrev pub start :
    SyncEventKind → Gvr → Option TypeState → ℕ → Materializer → Materializer × List SyncEvent × Bool
start k g none now m = (m, [], false)
start k g (some st) now m = (record m { types = put g st m.types }, event k g st now ∷ [], true)

abbrev pub then_state : Option TypeState → (TypeState → Option TypeState) → Option TypeState
then_state none f = none
then_state (some st) f = f st

unfoldable pub begin_sync : Gvr → ℕ → Materializer → Materializer × List SyncEvent × Bool
begin_sync g now m =
    start SyncEventKind.sync_started g (then_state (get g m.types) begin_state) now m

unfoldable pub sync_succeeded : Gvr → String → ℕ → Materializer → Materializer × List SyncEvent
sync_succeeded g rv now m = on_existing g (λ st. succeed g rv st now) (get g m.types) m

unfoldable pub sync_failed : Gvr → ℕ → Materializer → Materializer × List SyncEvent
sync_failed g now m = on_existing g (λ st. fail_sync g st now) (get g m.types) m

unfoldable pub restore_synced : Gvr → String → Materializer → Materializer
restore_synced g rv m =
    if text_eq rv ""
    then m
    else record m { types = put g (restore_state rv (state_of m.types g)) m.types }

unfoldable pub request_resync : Gvr → ℕ → Materializer → Materializer × List SyncEvent × Bool
request_resync g now m =
    start SyncEventKind.sync_requested g
      (then_state (get g m.types) (resync_state (claimed m.claims g))) now m

-- the claims that were renewed at or after the previous sweep
unfoldable pub live_refs : ℕ → Table String ℕ → Table String ℕ
live_refs previous [] = []
live_refs previous ((ref, renewed) ∷ refs) =
    let rest = live_refs previous refs in
    if ltb renewed previous then rest else (ref, renewed) ∷ rest

-- `gcLeasesLocked`: the claims that stay, and the types whose last claim went
unfoldable pub gc_claims : ℕ → Table Gvr (Table String ℕ) → Table Gvr (Table String ℕ)
gc_claims previous [] = []
gc_claims previous ((g, refs) ∷ claims) =
    let rest = gc_claims previous claims in
    if is_empty (live_refs previous refs) then rest else (g, live_refs previous refs) ∷ rest

unfoldable pub gc_unclaimed : ℕ → Table Gvr (Table String ℕ) → List Gvr
gc_unclaimed previous [] = []
gc_unclaimed previous ((g, refs) ∷ claims) =
    let rest = gc_unclaimed previous claims in
    if is_empty (live_refs previous refs) && not (is_empty refs) then g ∷ rest else rest

-- the loop over the unclaimed types: `stateLocked` creates the state that is missing
unfoldable pub touch_all : List Gvr → Table Gvr TypeState → Table Gvr TypeState
touch_all [] types = types
touch_all (g ∷ gs) types = touch_all gs (put g (state_of types g) types)

unfoldable pub unclaimed_events : List Gvr → ℕ → Table Gvr TypeState → List SyncEvent
unclaimed_events [] now types = []
unclaimed_events (g ∷ gs) now types =
    event SyncEventKind.unclaimed g (state_of types g) now ∷ unclaimed_events gs now types

unfoldable pub sweep_events : Table Gvr (Table String ℕ) → ℕ → Table Gvr TypeState → List SyncEvent
sweep_events claims now [] = []
sweep_events claims now ((g, st) ∷ types) =
    (sweep_type g (claimed claims g) st now).1 ++ sweep_events claims now types

-- the loop over `m.types`
unfoldable pub sweep_types :
    Table Gvr (Table String ℕ) → ℕ → Table Gvr TypeState → Table Gvr TypeState
sweep_types claims now types = map_values (λ g st. (sweep_type g (claimed claims g) st now).0) types

unfoldable pub sweep_state : ℕ → Materializer → Materializer
sweep_state now m =
    let claims' = gc_claims m.last_sweep_at m.claims in
    record {
      claims = claims';
      types = sweep_types claims' now (touch_all (gc_unclaimed m.last_sweep_at m.claims) m.types);
      last_sweep_at = now;
    }

-- `Phase`, `Checkpoint`
unfoldable pub phase_of : Materializer → Gvr → Phase
phase_of m g = (state_of m.types g).phase

unfoldable pub checkpoint : Materializer → Gvr → String
checkpoint m g = (state_of m.types g).checkpoint_rv

abbrev pub pending_keys : Table Gvr TypeState → List Gvr
pending_keys [] = []
pending_keys ((g, st) ∷ types) =
    let rest = pending_keys types in if pending st then g ∷ rest else rest

-- `GVR.String()` of apimachinery is a parameter of whatever sorts.
module _ (gvr_text : Gvr → String) where
  unfoldable pub sync_event_less : SyncEvent → SyncEvent → Bool
  sync_event_less a b =
      if not (text_eq (gvr_text a.gvr) (gvr_text b.gvr))
      then text_lt (gvr_text a.gvr) (gvr_text b.gvr)
      else text_lt (sync_kind_text a.kind) (sync_kind_text b.kind)

  unfoldable pub declare : String → List Gvr → ℕ → Materializer → Materializer × List SyncEvent
  declare ref desired now m =
      let (m', events) = declare_all ref now desired m in (m', sort_by sync_event_less events)

  unfoldable pub sweep : ℕ → Materializer → Materializer × List SyncEvent
  sweep now m =
      let gone = gc_unclaimed m.last_sweep_at m.claims in
      (
        sweep_state now m,
        sort_by sync_event_less (
            unclaimed_events gone now m.types
            ++ sweep_events (gc_claims m.last_sweep_at m.claims) now (touch_all gone m.types)),
      )

  unfoldable pub pending_syncs : Materializer → List Gvr
  pending_syncs m = sort_by (λ a b. text_lt (gvr_text a) (gvr_text b)) (pending_keys m.types)

unfoldable pub claimants : Materializer → Gvr → List String
claimants m g = sort_by text_lt (map (λ entry. entry.0) (refs_of m.claims g))
