-- ===== src/Typeset/Sync.antt =====
-- internal/typeset/materializer.go, what happens to the state of one type: its phase, its gate and
-- its checkpoint. `claimed` stands for `len(m.claims[gvr]) > 0`.
pub mod Safety
use text.Mathlib.Text.{◌==◌ as text_eq}
use gitops_reverser.Base.{
  ℕ, String, Bool, true, false, not, ◌&&◌, ◌||◌, Option, none, some, List, [], ◌∷◌, ◌++◌,
  if◌then◌else◌,
}
use gitops_reverser.Typeset.Model.{Gvr}

pub data Phase : Type 0 where
  dormant requested syncing synced resyncing failing : Phase

pub record TypeState : Type 0 where
  pub phase : Phase
  pub followable : Bool
  pub frozen : Bool
  pub pending_resync : Bool
  pub checkpoint_rv : String

pub data SyncEventKind : Type 0 where
  sync_requested sync_started type_synced sync_failed released unclaimed : SyncEventKind

abbrev pub sync_kind_text : SyncEventKind → String
sync_kind_text SyncEventKind.sync_requested = "SyncRequested"
sync_kind_text SyncEventKind.sync_started = "SyncStarted"
sync_kind_text SyncEventKind.type_synced = "TypeSynced"
sync_kind_text SyncEventKind.sync_failed = "SyncFailed"
sync_kind_text SyncEventKind.released = "Released"
sync_kind_text SyncEventKind.unclaimed = "Unclaimed"

abbrev pub sync_kind_index : SyncEventKind → ℕ
sync_kind_index SyncEventKind.sync_requested = 0
sync_kind_index SyncEventKind.sync_started = 1
sync_kind_index SyncEventKind.type_synced = 2
sync_kind_index SyncEventKind.sync_failed = 3
sync_kind_index SyncEventKind.released = 4
sync_kind_index SyncEventKind.unclaimed = 5

pub record SyncEvent : Type 0 where
  pub kind : SyncEventKind
  pub gvr : Gvr
  pub phase : Phase
  pub rv : String
  pub time : ℕ

abbrev pub event : SyncEventKind → Gvr → TypeState → ℕ → SyncEvent
event k g st now = record { kind = k; gvr = g; phase = st.phase; rv = st.checkpoint_rv; time = now }

-- the state that `stateLocked` creates on first reference
abbrev pub new_state : TypeState
new_state = record {
  phase = Phase.dormant;
  followable = false;
  frozen = false;
  pending_resync = false;
  checkpoint_rv = "";
}

abbrev pub is_dormant : Phase → Bool
is_dormant Phase.dormant = true
is_dormant _ = false

abbrev pub is_synced : Phase → Bool
is_synced Phase.synced = true
is_synced _ = false

-- a sync is in flight
abbrev pub in_flight : Phase → Bool
in_flight Phase.syncing = true
in_flight Phase.resyncing = true
in_flight _ = false

unfoldable pub maybe_request : Gvr → Bool → TypeState → ℕ → TypeState × List SyncEvent
maybe_request g claimed st now =
    if st.followable && not st.frozen && is_dormant st.phase && claimed
    then (let st' = record st { phase = Phase.requested } in
        (st', event SyncEventKind.sync_requested g st' now ∷ []))
    else (st, [])

unfoldable pub release : Gvr → TypeState → ℕ → TypeState × List SyncEvent
release g st now =
    let st' = record st { phase = Phase.dormant; checkpoint_rv = ""; pending_resync = false } in
    (st', event SyncEventKind.released g st' now ∷ [])

unfoldable pub force_release : Gvr → TypeState → ℕ → TypeState × List SyncEvent
unfolding release
force_release g st now = if is_dormant st.phase then (st, []) else release g st now

-- `OnLifecycleEvent`, case TypeActivated or TypeRecovered
unfoldable pub activate : Gvr → Bool → TypeState → ℕ → TypeState × List SyncEvent
unfolding maybe_request
activate g claimed st now =
    let (st', events) =
      maybe_request g claimed (record st { followable = true; frozen = false }) now in
    if is_synced st'.phase && claimed
    then (st', events ++ event SyncEventKind.type_synced g st' now ∷ [])
    else (st', events)

-- case TypeWobbling
unfoldable pub wobble : TypeState → TypeState
wobble st = record st { frozen = true }

-- case TypeRemoved or TypeRefused
unfoldable pub lose : Gvr → TypeState → ℕ → TypeState × List SyncEvent
unfolding force_release
lose g st now = force_release g (record st { followable = false }) now

-- the switch of `BeginSync`, for a state that is not frozen: the new state, if a sync starts
unfoldable pub begin_phase : Phase → TypeState → Option TypeState
begin_phase Phase.requested st = some (record st { phase = Phase.syncing })
begin_phase Phase.synced st =
    if st.pending_resync
    then some (record st { pending_resync = false; phase = Phase.resyncing })
    else none
begin_phase Phase.failing st =
    if not (text_eq st.checkpoint_rv "")
    then some (record st { phase = Phase.resyncing })
    else some (record st { phase = Phase.syncing })
begin_phase _ st = none

unfoldable pub begin_state : TypeState → Option TypeState
unfolding begin_phase
begin_state st = if not st.frozen then begin_phase st.phase st else none

-- `SyncSucceeded`
unfoldable pub succeed : Gvr → String → TypeState → ℕ → TypeState × List SyncEvent
succeed g rv st now =
    if in_flight st.phase
    then (let st' = record st {
      phase = Phase.synced;
      checkpoint_rv = rv;
      pending_resync = false;
    } in
        (st', event SyncEventKind.type_synced g st' now ∷ []))
    else (st, [])

-- `SyncFailed`
unfoldable pub fail_sync : Gvr → TypeState → ℕ → TypeState × List SyncEvent
fail_sync g st now =
    if in_flight st.phase
    then (let st' = record st { phase = Phase.failing } in
        (st', event SyncEventKind.sync_failed g st' now ∷ []))
    else (st, [])

-- `RestoreSynced` for a revision that is not empty
unfoldable pub restore_state : String → TypeState → TypeState
restore_state rv st = record st {
  phase = Phase.synced;
  checkpoint_rv = rv;
  followable = true;
  frozen = false;
  pending_resync = false;
}

-- `RequestResync`: the new state, if a resync was requested
unfoldable pub resync_state : Bool → TypeState → Option TypeState
resync_state claimed st =
    if not st.frozen && is_synced st.phase && not st.pending_resync && claimed
    then some (record st { pending_resync = true })
    else none

-- the switch of `sweepTypeLocked`, for a state that is not frozen
unfoldable pub sweep_phase : Phase → Gvr → Bool → TypeState → ℕ → TypeState × List SyncEvent
unfolding release
sweep_phase Phase.synced g live st now =
    if not live
    then release g st now
    else if not st.pending_resync
    then (let st' = record st { pending_resync = true } in
        (st', event SyncEventKind.sync_requested g st' now ∷ []))
    else (st, [])
sweep_phase Phase.requested g live st now = if not live then release g st now else (st, [])
sweep_phase Phase.failing g live st now = if not live then release g st now else (st, [])
sweep_phase _ g live st now = (st, [])

unfoldable pub sweep_type : Gvr → Bool → TypeState → ℕ → TypeState × List SyncEvent
unfolding sweep_phase
sweep_type g live st now = if st.frozen then (st, []) else sweep_phase st.phase g live st now

-- whether `PendingSyncs` lists the type
unfoldable pub pending : TypeState → Bool
pending st = not st.frozen && elim st.phase [
  | Phase.requested ↦ true
  | Phase.failing ↦ true
  | Phase.synced ↦ st.pending_resync
  | _ ↦ false
]

-- `TypeMaterialization.Serviceable`, and the second result of `Checkpoint`
unfoldable pub serviceable : TypeState → Bool
serviceable st = not (text_eq st.checkpoint_rv "")
