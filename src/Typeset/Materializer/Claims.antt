-- ===== src/Typeset/Materializer/Claims.antt =====
-- internal/typeset/materializer.go: the claims that a sweep keeps, and what it does to the state of
-- a type with and without a claim.
use mathlib.Core.Path.{subst}
use gitops_reverser.Base.{
  ℕ, String, ◌≡◌, ◌≤◌, ◌<◌, refl, sym, ap, ◌∙◌, Bool, true, false, ◌&&◌, Option, none, some, List,
  [], ◌∷◌, ◌==◌, arith, string_eq, is_some, if◌then◌else◌,
}
use gitops_reverser.Base.Lists.{contains, All}
use gitops_reverser.Base.Table.{get, put, get-put}
use gitops_reverser.Typeset.Model.{Gvr, gvr_eq}
use gitops_reverser.Typeset.Sync.{TypeState, sweep_type, sweep_phase, release, Phase}
use gitops_reverser.Typeset.Materializer.{
  Materializer, state_of, refs_of, claimed, sweep_state, phase_of, checkpoint, declare_one,
  declare_all,
}
use gitops_reverser.Typeset.Materializer.Maps.{
  keep_renewed, get-live_refs, refs_of-gc_claims, AreMaps, refs_of-put, declare_all-AreMaps,
  AreMaps-gc_claims,
}
use gitops_reverser.Typeset.Materializer.Frames.{state_of-sweep_types, state_of-touch_all}

-- the claim of a GitTarget on a type after one sweep
get-swept :
    (m : Materializer) (now : ℕ) (g : Gvr) (ref : String)
    → AreMaps m.claims
    → get ref (refs_of (sweep_state now m).claims g)
      ≡ keep_renewed m.last_sweep_at (get ref (refs_of m.claims g))
unfolding sweep_state
get-swept m now g ref maps =
    rw (refs_of-gc_claims m.last_sweep_at m.claims g maps.types_distinct)
      (get-live_refs m.last_sweep_at (refs_of m.claims g) ref (maps.refs_distinct g))

-- one call of `Declare`
pub record Declaration : Type 0 where
  pub ref : String
  pub desired : List Gvr
  pub now : ℕ

unfoldable pub declare_each : List Declaration → Materializer → Materializer
declare_each [] m = m
declare_each (d ∷ ds) m = declare_each ds (declare_all d.ref d.now d.desired m).0

-- when the GitTarget last named the type
unfoldable pub last_named : String → Gvr → List Declaration → Option ℕ
last_named ref g [] = none
last_named ref g (d ∷ ds) =
    let later = last_named ref g ds in
    if is_some later
    then later
    else if d.ref == ref && contains g d.desired
    then some d.now
    else none

abbrev or_else : Option ℕ → Option ℕ → Option ℕ
or_else none o = o
or_else (some t) o = some t

get-declare_all :
    (r : String) (t : ℕ) (gs : List Gvr) (m : Materializer) (g : Gvr) (ref : String)
    → get ref (refs_of (declare_all r t gs m).0.claims g)
      ≡ (if r == ref && contains g gs then some t else get ref (refs_of m.claims g))
unfolding declare_all declare_one
get-declare_all r t [] m g ref = ground arith
get-declare_all r t (h ∷ gs) m g ref = ground (
  arith,
  get-declare_all r t gs (declare_one r t h m).0 g ref,
  refs_of-put h g (put r t (refs_of m.claims h)) m.claims,
  get-put r ref t (refs_of m.claims h),
  gvr_eq.beq_iff h g,
)

get-declare_each :
    (ds : List Declaration) (m : Materializer) (g : Gvr) (ref : String)
    → get ref (refs_of (declare_each ds m).claims g)
      ≡ or_else (last_named ref g ds) (get ref (refs_of m.claims g))
unfolding declare_each last_named
get-declare_each [] m g ref = refl
get-declare_each (d ∷ ds) m g ref = ground (
  arith,
  get-declare_each ds (declare_all d.ref d.now d.desired m).0 g ref,
  get-declare_all d.ref d.now d.desired m g ref,
)

declare_all-last_sweep_at :
    (r : String) (t : ℕ) (gs : List Gvr) (m : Materializer)
    → (declare_all r t gs m).0.last_sweep_at ≡ m.last_sweep_at
unfolding declare_all declare_one
declare_all-last_sweep_at r t [] m = refl
declare_all-last_sweep_at r t (g ∷ gs) m = declare_all-last_sweep_at r t gs (declare_one r t g m).0

declare_each-last_sweep_at :
    (ds : List Declaration) (m : Materializer) → (declare_each ds m).last_sweep_at ≡ m.last_sweep_at
unfolding declare_each
declare_each-last_sweep_at [] m = refl
declare_each-last_sweep_at (d ∷ ds) m =
    declare_each-last_sweep_at ds (declare_all d.ref d.now d.desired m).0
    ∙ declare_all-last_sweep_at d.ref d.now d.desired m

declare_each-AreMaps :
    (ds : List Declaration) (m : Materializer)
    → AreMaps m.claims
    → AreMaps (declare_each ds m).claims
unfolding declare_each
declare_each-AreMaps [] m maps = maps
declare_each-AreMaps (d ∷ ds) m maps =
    declare_each-AreMaps ds (declare_all d.ref d.now d.desired m).0
      (declare_all-AreMaps d.ref d.now d.desired m maps)

last_named-kept :
    (since : ℕ) (ref : String) (g : Gvr) (ds : List Declaration)
    → All (λ (d : Declaration). since ≤ d.now) ds
    → keep_renewed since (last_named ref g ds) ≡ last_named ref g ds
unfolding last_named
last_named-kept since ref g [] all = refl
last_named-kept since ref g (d ∷ ds) all =
    ground (arith, all.0, last_named-kept since ref g ds (all.1))

-- whether a claim, if there is one, was renewed before an instant
abbrev pub IsOlder : ℕ → Option ℕ → Type 0
IsOlder instant none = Unit
IsOlder instant (some renewed) = renewed < instant

older_dropped :
    (since previous : ℕ) (o named : Option ℕ)
    → IsOlder since o
    → keep_renewed since named ≡ named
    → keep_renewed since (or_else named (keep_renewed previous o)) ≡ named
older_dropped since previous o (some t) old kept = kept
older_dropped since previous none none old kept = refl
older_dropped since previous (some t) none old kept = ground (arith, old)

-- A claim is a lease. Take two sweeps between which GitTargets declare what they want, none before
-- the first sweep, and a claim last renewed before the first sweep, if there is one, in claim
-- tables with distinct keys. After the second sweep the GitTarget holds a claim on the type exactly
-- if it named the type between the sweeps, and then with the time at which it last did.
pub sweep_leases :
    (m : Materializer) (first second : ℕ) (ds : List Declaration) (g : Gvr) (ref : String)
    → AreMaps m.claims
    → IsOlder first (get ref (refs_of m.claims g))
    → All (λ (d : Declaration). first ≤ d.now) ds
    → get ref (refs_of (sweep_state second (declare_each ds (sweep_state first m))).claims g)
      ≡ last_named ref g ds
sweep_leases m first second ds g ref maps old all =
    let once = sweep_state first m in
    let swept_maps : AreMaps (sweep_state first m).claims =
      unfold sweep_state in AreMaps-gc_claims m.last_sweep_at m.claims maps in
    get-swept (declare_each ds once) second g ref (declare_each-AreMaps ds once swept_maps)
    ∙ rw
        (
          declare_each-last_sweep_at ds once,
          get-declare_each ds once g ref,
          get-swept m first g ref maps,
        )
        (unfold sweep_state in
          older_dropped first m.last_sweep_at (get ref (refs_of m.claims g)) (last_named ref g ds)
            old (last_named-kept first ref g ds all))

abbrev pub is_waiting : Phase → Bool
is_waiting Phase.synced = true
is_waiting Phase.requested = true
is_waiting Phase.failing = true
is_waiting _ = false

sweep_type-released :
    (g : Gvr) (st : TypeState) (now : ℕ)
    → (sweep_type g false st now).0.frozen ≡ false
    → is_waiting (sweep_type g false st now).0.phase ≡ false
unfolding sweep_type sweep_phase release
sweep_type-released g st now h = ground arith

sweep_type-served :
    (g : Gvr) (st : TypeState) (now : ℕ)
    → (sweep_type g true st now).0.checkpoint_rv ≡ st.checkpoint_rv
unfolding sweep_type sweep_phase release
sweep_type-served g st now = ground arith

state_of-sweep_state :
    (m : Materializer) (now : ℕ) (g : Gvr)
    → state_of (sweep_state now m).types g
      ≡ (sweep_type g (claimed (sweep_state now m).claims g) (state_of m.types g) now).0
unfolding sweep_state
state_of-sweep_state m now g = rw (state_of-sweep_types, state_of-touch_all)

swept :
    (m : Materializer) (now : ℕ) (g : Gvr) (live : Bool)
    → claimed (sweep_state now m).claims g ≡ live
    → state_of (sweep_state now m).types g ≡ (sweep_type g live (state_of m.types g) now).0
swept m now g live c =
    state_of-sweep_state m now g ∙ ap (λ b. (sweep_type g b (state_of m.types g) now).0) c

-- After a sweep no type that nobody claims is Synced, awaits a first sync or awaits a retry, unless
-- a wobble has frozen it.
pub sweep_releases :
    (m : Materializer) (now : ℕ) (g : Gvr)
    → claimed (sweep_state now m).claims g ≡ false
    → (state_of (sweep_state now m).types g).frozen ≡ false
    → is_waiting (phase_of (sweep_state now m) g) ≡ false
unfolding phase_of
sweep_releases m now g c f =
    let e = swept m now g false c in
    subst (λ (st : TypeState). is_waiting st.phase ≡ false) (sym e)
      (sweep_type-released g (state_of m.types g) now
        (subst (λ (st : TypeState). st.frozen ≡ false) e f))

-- A sweep keeps the checkpoint of every type that still has a claimant.
pub sweep_serves :
    (m : Materializer) (now : ℕ) (g : Gvr)
    → claimed (sweep_state now m).claims g ≡ true
    → checkpoint (sweep_state now m) g ≡ checkpoint m g
unfolding checkpoint
sweep_serves m now g c =
    ap (λ (st : TypeState). st.checkpoint_rv) (swept m now g true c)
    ∙ sweep_type-served g (state_of m.types g) now
