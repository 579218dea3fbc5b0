-- ===== src/Typeset/Materializer/Maps.antt =====
-- The claim table as Go maps, and what the lease collection of a sweep leaves in it.
use mathlib.Core.Path.{subst}
use gitops_reverser.Base.{
  ℕ, String, ◌≡◌, refl, sym, ap, ◌∙◌, Bool, true, false, Option, none, some, List, [], ◌∷◌, ◌==◌,
  arith, if◌then◌else◌, string_eq, ltb,
}
use gitops_reverser.Base.Table.{Table, get, put, get-put, UniqueKeys, UniqueKeys-put, is_empty}
use gitops_reverser.Typeset.Model.{Gvr, gvr_eq}
use gitops_reverser.Typeset.Sync.{TypeState, SyncEvent, SyncEventKind}
use gitops_reverser.Typeset.Materializer.{
  Materializer, refs_of, refs_or_empty, declare_one, live_refs, gc_claims, sweep_state,
}
use gitops_reverser.Typeset.Lifecycle.{EventKind}
use gitops_reverser.Typeset.Materializer.{
  new_materializer, declare_all, on_existing, on_lifecycle_activated, on_lifecycle_kind,
  on_lifecycle_event, start, begin_sync, sync_succeeded, sync_failed, restore_synced,
  request_resync,
}
use gitops_reverser.Typeset.Materializer.Frames.{
  Step, declares, hears, begins, succeeds, fails, restores, nudges, sweeps, Reach, here, next,
}

-- whether a lease was renewed at or after an instant
abbrev pub keep_renewed : ℕ → Option ℕ → Option ℕ
keep_renewed previous none = none
keep_renewed previous (some renewed) = if ltb renewed previous then none else some renewed

pub get-live_refs :
    (previous : ℕ) (refs : Table String ℕ) (ref : String)
    → UniqueKeys refs
    → get ref (live_refs previous refs) ≡ keep_renewed previous (get ref refs)
unfolding live_refs get
get-live_refs previous [] ref u = refl
get-live_refs previous ((r, renewed) ∷ refs) ref u =
    ground (arith, get-live_refs previous refs ref (u.1), string_eq.beq_iff r ref, u.0)

live_or_empty : ℕ → Option (Table String ℕ) → Option (Table String ℕ)
live_or_empty previous none = none
live_or_empty previous (some refs) =
    if is_empty (live_refs previous refs) then none else some (live_refs previous refs)

get-gc_claims :
    (previous : ℕ) (claims : Table Gvr (Table String ℕ)) (g : Gvr)
    → UniqueKeys claims
    → get g (gc_claims previous claims) ≡ live_or_empty previous (get g claims)
unfolding gc_claims live_or_empty get
get-gc_claims previous [] g u = refl
get-gc_claims previous ((j, refs) ∷ claims) g u =
    ground (arith, get-gc_claims previous claims g (u.1), gvr_eq.beq_iff j g, u.0)

if_empty :
    (refs : Table String ℕ) → refs_or_empty (if is_empty refs then none else some refs) ≡ refs
unfolding is_empty
if_empty [] = refl
if_empty (x ∷ refs) = refl

refs_or_empty-live :
    (previous : ℕ) (o : Option (Table String ℕ))
    → refs_or_empty (live_or_empty previous o) ≡ live_refs previous (refs_or_empty o)
unfolding live_or_empty live_refs
refs_or_empty-live previous none = refl
refs_or_empty-live previous (some refs) = if_empty (live_refs previous refs)

-- the claims of each type after the lease collection of a sweep
pub refs_of-gc_claims :
    (previous : ℕ) (claims : Table Gvr (Table String ℕ)) (g : Gvr)
    → UniqueKeys claims
    → refs_of (gc_claims previous claims) g ≡ live_refs previous (refs_of claims g)
unfolding refs_of
refs_of-gc_claims previous claims g u =
    rw (get-gc_claims previous claims g u) (refs_or_empty-live previous (get g claims))

-- the claim tables as Go maps: distinct types, and distinct claimants of each
pub record AreMaps (claims : Table Gvr (Table String ℕ)) : Type 0 where
  pub types_distinct : UniqueKeys claims
  pub refs_distinct : (g : Gvr) → UniqueKeys (refs_of claims g)

pub refs_of-put :
    (g k : Gvr) (refs : Table String ℕ) (claims : Table Gvr (Table String ℕ))
    → refs_of (put g refs claims) k ≡ (if g == k then refs else refs_of claims k)
unfolding refs_of
refs_of-put g k refs claims = rw get-put (ground arith)

AreMaps-put :
    (g : Gvr) (ref : String) (now : ℕ) (claims : Table Gvr (Table String ℕ))
    → AreMaps claims
    → AreMaps (put g (put ref now (refs_of claims g)) claims)
AreMaps-put g ref now claims maps = record {
  types_distinct = UniqueKeys-put g _ claims maps.types_distinct;
  refs_distinct = λ k.
      rw refs_of-put
        (elim (g == k)
          as (λ b. UniqueKeys (if b then put ref now (refs_of claims g) else refs_of claims k)) [
            | true ↦ UniqueKeys-put ref now (refs_of claims g) (maps.refs_distinct g)
            | false ↦ maps.refs_distinct k
          ]);
}

pub declare_all-AreMaps :
    (ref : String) (now : ℕ) (desired : List Gvr) (m : Materializer)
    → AreMaps m.claims
    → AreMaps (declare_all ref now desired m).0.claims
unfolding declare_all declare_one
declare_all-AreMaps ref now [] m maps = maps
declare_all-AreMaps ref now (g ∷ desired) m maps =
    declare_all-AreMaps ref now desired (declare_one ref now g m).0
      (AreMaps-put g ref now m.claims maps)

live_refs-UniqueKeys :
    (previous : ℕ) (refs : Table String ℕ) → UniqueKeys refs → UniqueKeys (live_refs previous refs)
unfolding live_refs
live_refs-UniqueKeys previous [] u = tt
live_refs-UniqueKeys previous ((r, t) ∷ refs) u =
    elim (ltb t previous)
      as (λ b.
        UniqueKeys (if b then live_refs previous refs else (r, t) ∷ live_refs previous refs)) [
          | true ↦ live_refs-UniqueKeys previous refs (u.1)
          | false ↦ (
            get-live_refs previous refs r (u.1) ∙ ap (keep_renewed previous) (u.0),
            live_refs-UniqueKeys previous refs (u.1),
          )
        ]

gc_claims-UniqueKeys :
    (previous : ℕ) (claims : Table Gvr (Table String ℕ))
    → UniqueKeys claims
    → UniqueKeys (gc_claims previous claims)
unfolding gc_claims live_or_empty
gc_claims-UniqueKeys previous [] u = tt
gc_claims-UniqueKeys previous ((g, refs) ∷ claims) u =
    elim (is_empty (live_refs previous refs))
      as (λ b. UniqueKeys (
        if b
        then gc_claims previous claims
        else (g, live_refs previous refs) ∷ gc_claims previous claims)) [
          | true ↦ gc_claims-UniqueKeys previous claims (u.1)
          | false ↦ (
            get-gc_claims previous claims g (u.1) ∙ ap (live_or_empty previous) (u.0),
            gc_claims-UniqueKeys previous claims (u.1),
          )
        ]

pub AreMaps-gc_claims :
    (previous : ℕ) (claims : Table Gvr (Table String ℕ))
    → AreMaps claims
    → AreMaps (gc_claims previous claims)
AreMaps-gc_claims previous claims maps = record {
  types_distinct = gc_claims-UniqueKeys previous claims maps.types_distinct;
  refs_distinct = λ g.
      subst UniqueKeys (sym (refs_of-gc_claims previous claims g maps.types_distinct))
        (live_refs-UniqueKeys previous (refs_of claims g) (maps.refs_distinct g));
}

claims-on_existing :
    (g : Gvr) (f : TypeState → TypeState × List SyncEvent) (o : Option TypeState) (m : Materializer)
    → (on_existing g f o m).0.claims ≡ m.claims
claims-on_existing g f none m = refl
claims-on_existing g f (some st) m = refl

claims-start :
    (k : SyncEventKind) (g : Gvr) (o : Option TypeState) (now : ℕ) (m : Materializer)
    → (start k g o now m).0.claims ≡ m.claims
claims-start k g none now m = refl
claims-start k g (some st) now m = refl

claims-on_lifecycle_kind :
    (k : EventKind) (g : Gvr) (now : ℕ) (m : Materializer)
    → (on_lifecycle_kind k g now m).0.claims ≡ m.claims
unfolding on_lifecycle_kind on_lifecycle_activated
claims-on_lifecycle_kind EventKind.activated g now m = refl
claims-on_lifecycle_kind EventKind.recovered g now m = refl
claims-on_lifecycle_kind EventKind.wobbling g now m = claims-on_existing g _ (get g m.types) m
claims-on_lifecycle_kind EventKind.removed g now m = claims-on_existing g _ (get g m.types) m
claims-on_lifecycle_kind EventKind.refused g now m = claims-on_existing g _ (get g m.types) m

claims-restore_synced :
    (g : Gvr) (rv : String) (m : Materializer) → (restore_synced g rv m).claims ≡ m.claims
unfolding restore_synced
claims-restore_synced g rv m = ground arith

pub Step-AreMaps :
    {named : Bool} {m m' : Materializer} → Step named m m' → AreMaps m.claims → AreMaps m'.claims
unfolding on_lifecycle_event begin_sync sync_succeeded sync_failed request_resync sweep_state
Step-AreMaps (declares m ref desired now) maps = declare_all-AreMaps ref now desired m maps
Step-AreMaps (hears m ev now) maps =
    subst AreMaps (sym (claims-on_lifecycle_kind ev.kind ev.gvr now m)) maps
Step-AreMaps (begins m g now) maps = subst AreMaps (sym (claims-start _ g _ now m)) maps
Step-AreMaps (succeeds m g rv now h) maps = subst AreMaps (sym (claims-on_existing g _ _ m)) maps
Step-AreMaps (fails m g now) maps = subst AreMaps (sym (claims-on_existing g _ _ m)) maps
Step-AreMaps (restores m g rv) maps = subst AreMaps (sym (claims-restore_synced g rv m)) maps
Step-AreMaps (nudges m g now) maps = subst AreMaps (sym (claims-start _ g _ now m)) maps
Step-AreMaps (sweeps m now) maps = AreMaps-gc_claims m.last_sweep_at m.claims maps

Reach-keeps_maps :
    {named : Bool} {s m : Materializer} → AreMaps s.claims → Reach named s m → AreMaps m.claims
Reach-keeps_maps maps here = maps
Reach-keeps_maps maps (next r st) = Step-AreMaps st (Reach-keeps_maps maps r)

-- the claim table of every reachable Materializer is a table of maps
pub Reach-AreMaps :
    {named : Bool} (start_time : ℕ) {m : Materializer}
    → Reach named (new_materializer start_time) m
    → AreMaps m.claims
unfolding new_materializer refs_of get
Reach-AreMaps start_time r =
    Reach-keeps_maps (record { types_distinct = tt; refs_distinct = λ g. tt }) r
