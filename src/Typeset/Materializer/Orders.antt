-- ===== src/Typeset/Materializer/Orders.antt =====
-- internal/typeset/materializer.go: operations in either order, the pull query of a driver, and the
-- results of syncs.
use gitops_reverser.Base.{
  ℕ, String, ◌≡◌, refl, sym, ap, ◌∙◌, Bool, true, false, Option, none, some, [], ◌∷◌, ◌==◌, arith,
  Bool-cases, Option-cases, inl, inr, string_eq, eq_refl, is_some,
}
use gitops_reverser.Base.Lists.{contains}
use gitops_reverser.Base.Sort.{text_lt, any-sort_by}
use gitops_reverser.Base.Table.{Table, get, put, get-put, UniqueKeys, is_empty-put, put-put}
use gitops_reverser.Typeset.Model.{Gvr, gvr_eq}
use gitops_reverser.Typeset.Lifecycle.{EventKind}
use gitops_reverser.Typeset.Sync.{
  TypeState, SyncEventKind, Phase, maybe_request, activate, begin_state, pending, fail_sync,
  succeed, lose, force_release, release, is_dormant,
}
use gitops_reverser.Typeset.Sync.Safety.{pending-begin_state}
use gitops_reverser.Typeset.Materializer.{
  Materializer, state_of, refs_of, claimed, declare_one, on_existing, on_lifecycle_activated,
  on_lifecycle_kind, start, then_state, begin_sync, sync_succeeded, sync_failed, checkpoint,
  phase_of, pending_keys, pending_syncs,
}
use gitops_reverser.Typeset.Materializer.Frames.{state_of-put, state_of-put_self, state_of-some}

claimed-put :
    (g : Gvr) (ref : String) (now : ℕ) (claims : Table Gvr (Table String ℕ))
    → claimed (put g (put ref now (refs_of claims g)) claims) g ≡ true
unfolding claimed refs_of
claimed-put g ref now claims = rw (get-put, eq_refl g) (rw is_empty-put)

activate-request :
    (g : Gvr) (c : Bool) (st : TypeState) (t u : ℕ)
    → (activate g true (maybe_request g true st t).0 u).0
      ≡ (maybe_request g true (activate g c st u).0 t).0
unfolding activate maybe_request
activate-request g c st t u = ground arith

-- The first claim of a type and its activation may come in either order: in both the type ends with
-- the same claims and in the same state, and so do all other types.
pub claim_activation_converge :
    (m : Materializer) (ref : String) (g : Gvr) (t u : ℕ) (k : Gvr)
    → let a = (on_lifecycle_activated g u (declare_one ref t g m).0).0 in
      let b = (declare_one ref t g (on_lifecycle_activated g u m).0).0 in
      (state_of a.types k ≡ state_of b.types k) × (a.claims ≡ b.claims)
unfolding on_lifecycle_activated declare_one
claim_activation_converge m ref g t u k = (
  simp (state_of-put, claimed-put, eq_refl)
      (ground (arith, activate-request g (claimed m.claims g) (state_of m.types g) t u)),
  refl,
)

begin_state-rv :
    (st st' : TypeState) → begin_state st ≡ some st' → st'.checkpoint_rv ≡ st.checkpoint_rv
unfolding begin_state
begin_state-rv st st' h = ground arith

lose-dormant : (g : Gvr) (st : TypeState) (t : ℕ) → (lose g st t).0.phase ≡ Phase.dormant
unfolding lose force_release release
lose-dormant g st t = elim (Bool-cases (is_dormant st.phase)) [
  | inl p ↦ rw p (ground arith)
  | inr p ↦ rw p
]

succeed-dormant :
    (g : Gvr) (rv : String) (st : TypeState) (u : ℕ)
    → st.phase ≡ Phase.dormant
    → (succeed g rv st u).0 ≡ st
unfolding succeed
succeed-dormant g rv st u h = ground arith

module _ (m : Materializer) (g : Gvr) (now : ℕ) (k : Gvr) where
  put_serves :
      (st : TypeState)
      → st.checkpoint_rv ≡ (state_of m.types g).checkpoint_rv
      → (state_of (put g st m.types) k).checkpoint_rv ≡ (state_of m.types k).checkpoint_rv
  put_serves st h = rw state_of-put (ground (arith, gvr_eq.beq_iff g k))

  begin_serves :
      (o : Option TypeState)
      → get g m.types ≡ o
      → (state_of
          (start SyncEventKind.sync_started g (then_state o begin_state) now m).0.types
          k).checkpoint_rv
        ≡ (state_of m.types k).checkpoint_rv
  begin_serves none h = refl
  begin_serves (some st) h = elim (Option-cases (begin_state st)) [
    | inl p ↦ rw p refl
    | inr p ↦ rw (p.1) (
        put_serves (p.0) (
          begin_state-rv st (p.0) (p.1)
          ∙ ap (λ (x : TypeState). x.checkpoint_rv) (sym (state_of-some g st m.types h))))
  ]

  fail_serves :
      (o : Option TypeState)
      → get g m.types ≡ o
      → (state_of (on_existing g (λ st. fail_sync g st now) o m).0.types k).checkpoint_rv
        ≡ (state_of m.types k).checkpoint_rv
  fail_serves none h = refl
  fail_serves (some st) h =
      put_serves (fail_sync g st now).0 (unfold fail_sync state_of in rw h (ground arith))

-- The sync that a driver starts, and a sync that fails, leave the checkpoint that each type serves
-- as it was.
pub sync_serves :
    (m : Materializer) (g : Gvr) (now : ℕ) (k : Gvr)
    → (checkpoint (begin_sync g now m).0 k ≡ checkpoint m k)
      × (checkpoint (sync_failed g now m).0 k ≡ checkpoint m k)
unfolding checkpoint begin_sync sync_failed
sync_serves m g now k = (begin_serves m g now k _ refl, fail_serves m g now k _ refl)

contains-absent :
    (g : Gvr) (types : Table Gvr TypeState)
    → get g types ≡ none
    → contains g (pending_keys types) ≡ false
unfolding get
contains-absent g [] h = refl
contains-absent g ((j, st) ∷ types) h = ground (arith, h, contains-absent g types)

pending_or_not : Option TypeState → Bool
pending_or_not none = false
pending_or_not (some st) = pending st

contains-pending_keys :
    (g : Gvr) (types : Table Gvr TypeState)
    → UniqueKeys types
    → contains g (pending_keys types) ≡ pending_or_not (get g types)
unfolding get pending_or_not
contains-pending_keys g [] u = refl
contains-pending_keys g ((j, st) ∷ types) u =
    ground
      (arith, contains-pending_keys g types (u.1), contains-absent g types, gvr_eq.beq_iff j g, u.0)

started :
    (g : Gvr) (now : ℕ) (m : Materializer) (o : Option TypeState)
    → (start SyncEventKind.sync_started g o now m).2 ≡ is_some o
started g now m none = refl
started g now m (some st) = refl

begins_pending : (o : Option TypeState) → is_some (then_state o begin_state) ≡ pending_or_not o
unfolding pending_or_not
begins_pending none = refl
begins_pending (some st) = sym (pending-begin_state st)

-- Where each type has one state, the list of `PendingSyncs` contains a type exactly when
-- `BeginSync` would start a sync of it, for every type, also for one without a state.
pub pending_begins :
    (gvr_text : Gvr → String) (m : Materializer) (g : Gvr) (now : ℕ)
    → UniqueKeys m.types
    → contains g (pending_syncs gvr_text m) ≡ (begin_sync g now m).2
unfolding begin_sync pending_syncs
pending_begins gvr_text m g now u =
    any-sort_by (λ a c. text_lt (gvr_text a) (gvr_text c)) (λ k. k == g) (pending_keys m.types)
    ∙ contains-pending_keys g m.types u
    ∙ sym (begins_pending (get g m.types))
    ∙ sym (started g now m (then_state (get g m.types) begin_state))

-- Once a known type is removed, the successful result of a sync that was in flight changes the
-- state of no type, and the removed type is Dormant.
pub late_result_dropped :
    (m : Materializer) (g : Gvr) (rv : String) (t u : ℕ) (st : TypeState)
    → get g m.types ≡ some st
    → let gone = (on_lifecycle_kind EventKind.removed g t m).0 in
      ((sync_succeeded g rv u gone).0.types ≡ gone.types) × (phase_of gone g ≡ Phase.dormant)
unfolding sync_succeeded on_lifecycle_kind phase_of
late_result_dropped m g rv t u st h = rw h (
    rw (get-put, eq_refl g)
      (
        rw (put-put g (lose g st t).0 _ m.types)
            (rw (succeed-dormant g rv (lose g st t).0 u (lose-dormant g st t))),
        ap (λ (x : TypeState). x.phase) (state_of-put_self g (lose g st t).0 m.types)
            ∙ lose-dormant g st t,
      ))
