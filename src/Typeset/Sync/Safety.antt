-- ===== src/Typeset/Sync/Safety.antt =====
-- One type on the materialization axis: what every transition keeps.
use text.Mathlib.Text.{◌==◌ as text_eq}
use gitops_reverser.Base.{
  ℕ, String, ◌≡◌, refl, Bool, true, false, some, arith, is_some, Bool-cases, inl, inr,
  if◌then◌else◌, [],
}
use gitops_reverser.Typeset.Model.{Gvr}
use gitops_reverser.Typeset.Sync.{
  Phase, TypeState, new_state, maybe_request, release, force_release, activate, wobble, lose,
  begin_state, succeed, fail_sync, restore_state, resync_state, sweep_type, sweep_phase, is_dormant,
  pending, is_synced,
}

abbrev pub needs_checkpoint : Phase → Bool
needs_checkpoint Phase.synced = true
needs_checkpoint Phase.resyncing = true
needs_checkpoint _ = false

abbrev pub may_serve : Phase → Bool
may_serve Phase.synced = true
may_serve Phase.resyncing = true
may_serve Phase.failing = true
may_serve _ = false

-- `named` says whether the syncs that succeed name a revision
pub record IsSound (named : Bool) (st : TypeState) : Type 0 where
  pub served_when_synced :
      named ≡ true → needs_checkpoint st.phase ≡ true → text_eq st.checkpoint_rv "" ≡ false
  pub nothing_early : may_serve st.phase ≡ false → text_eq st.checkpoint_rv "" ≡ true
  pub pending_only_synced : st.pending_resync ≡ true → is_synced st.phase ≡ true
  pub followable_unless_dormant : st.followable ≡ false → st.phase ≡ Phase.dormant

pub IsSound-new_state : {named : Bool} → IsSound named new_state
IsSound-new_state = ground arith

release-IsSound :
    {named : Bool} (g : Gvr) (st : TypeState) (now : ℕ) → IsSound named (release g st now).0
unfolding release
release-IsSound g st now = record {
  served_when_synced = λ n h. absurd (cc h);
  nothing_early = λ h. refl;
  pending_only_synced = λ h. absurd (cc h);
  followable_unless_dormant = λ h. refl;
}

sweep_phase-IsSound :
    {named : Bool} (p : Phase) (g : Gvr) (claimed : Bool) (st : TypeState) (now : ℕ)
    → p ≡ st.phase
    → IsSound named st
    → IsSound named (sweep_phase p g claimed st now).0
unfolding sweep_phase
sweep_phase-IsSound Phase.synced g true st now q s = ground arith
sweep_phase-IsSound Phase.synced g false st now q s = release-IsSound g st now
sweep_phase-IsSound Phase.requested g true st now q s = s
sweep_phase-IsSound Phase.requested g false st now q s = release-IsSound g st now
sweep_phase-IsSound Phase.failing g true st now q s = s
sweep_phase-IsSound Phase.failing g false st now q s = release-IsSound g st now
sweep_phase-IsSound _ g claimed st now q s = s

module _ {named : Bool} (g : Gvr) (claimed : Bool) (st : TypeState) (now : ℕ)
    (s : IsSound named st) where
  pub maybe_request-IsSound : IsSound named (maybe_request g claimed st now).0
  unfolding maybe_request
  maybe_request-IsSound = ground arith

  pub activate-IsSound : IsSound named (activate g claimed st now).0
  unfolding activate
  activate-IsSound = ground arith

  pub wobble-IsSound : IsSound named (wobble st)
  unfolding wobble
  wobble-IsSound = ground arith

  pub lose-IsSound : IsSound named (lose g st now).0
  unfolding lose force_release
  lose-IsSound = elim (Bool-cases (is_dormant st.phase)) [
    | inl p ↦ rw p (ground arith)
    | inr p ↦ rw p (release-IsSound g (record st { followable = false }) now)
  ]

  pub fail_sync-IsSound : IsSound named (fail_sync g st now).0
  unfolding fail_sync
  fail_sync-IsSound = ground arith

  pub sweep_type-IsSound : IsSound named (sweep_type g claimed st now).0
  unfolding sweep_type
  sweep_type-IsSound =
      elim st.frozen
        as (λ b. IsSound named (if b then (st, []) else sweep_phase st.phase g claimed st now).0) [
          | true ↦ s
          | false ↦ sweep_phase-IsSound st.phase g claimed st now refl s
        ]

  pub begin_state-IsSound : (st' : TypeState) → begin_state st ≡ some st' → IsSound named st'
  unfolding begin_state
  begin_state-IsSound st' h = ground arith

  pub resync_state-IsSound :
      (st' : TypeState) → resync_state claimed st ≡ some st' → IsSound named st'
  unfolding resync_state
  resync_state-IsSound st' h = ground arith

  pub succeed-IsSound :
      (rv : String) → (named ≡ true → text_eq rv "" ≡ false) → IsSound named (succeed g rv st now).0
  unfolding succeed
  succeed-IsSound rv h = ground arith

pub restore_state-IsSound :
    {named : Bool} (rv : String) (st : TypeState)
    → text_eq rv "" ≡ false
    → IsSound named (restore_state rv st)
unfolding restore_state
restore_state-IsSound rv st h = ground arith

-- The driver's pull query and the transition agree: a type is pending exactly when a sync of it
-- would start.
pub pending-begin_state : (st : TypeState) → pending st ≡ is_some (begin_state st)
unfolding pending begin_state
pending-begin_state st = ground arith
