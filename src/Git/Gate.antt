-- ===== src/Git/Gate.antt =====
-- internal/git/render_fidelity_gate.go: whether a target accepts live writes in the current epoch.
-- `GVR.String` of apimachinery is a parameter; the mutex makes each operation one step.
use gitops_reverser.Base.{
  ℕ, ◌+◌, Bool, true, false, not, ◌&&◌, Option, none, some, List, [], ◌∷◌, ◌==◌, String, string_eq,
  nat_eq, bool_eq, if◌then◌else◌, is_none, is_some,
}
use Prim.Native.Nat.{◌%◌, ◌^◌}
use gitops_reverser.Base.Lists.{length}
use gitops_reverser.Base.Text.{concat_text}
use gitops_reverser.Base.Sort.{sort_by, text_lt}
use gitops_reverser.Base.Table.{Table, get, put, remove}

-- NewResourceReference and Key, internal/types/reference.go
pub record ResourceReference : Type 0 where
  pub name : String
  pub namespace : String
  pub uid : String

unfoldable pub new_resource_reference : String → String → ResourceReference
new_resource_reference name namespace = record { name = name; namespace = namespace; uid = "" }

unfoldable pub reference_key : ResourceReference → String
reference_key r = concat_text (r.namespace ∷ "/" ∷ r.name ∷ [])

pub record RenderDivergence : Type 0 where
  pub field : String
  pub token : String

pub data RenderFidelityState : Type 0 where
  unknown : RenderFidelityState
  holds : RenderFidelityState
  fails : RenderFidelityState

abbrev pub is_true_state : RenderFidelityState → Bool
is_true_state RenderFidelityState.unknown = false
is_true_state RenderFidelityState.holds = true
is_true_state RenderFidelityState.fails = false

pub record RenderFidelityStatus : Type 0 where
  pub epoch : ℕ
  pub state : RenderFidelityState
  pub reason : String
  pub message : String
  pub divergence : Option RenderDivergence
  pub scope_count : ℕ
  pub clean_scopes : ℕ

pub record ScopeResult : Type 0 where
  pub clean : Bool
  pub finished : Bool
  pub divergence : Option RenderDivergence

-- the zero value
abbrev pub pending_result : ScopeResult
pending_result = record { clean = false; finished = false; divergence = none }

abbrev pub result_at : Option ScopeResult → ScopeResult
result_at none = pending_result
result_at (some r) = r

pub record TargetState : Type 0 where
  pub epoch : ℕ
  pub scopes : Table String ScopeResult

abbrev pub state_at : Option TargetState → TargetState
state_at none = record { epoch = 0; scopes = [] }
state_at (some s) = s

-- the targets of a RenderFidelityGate
abbrev pub Gate : Type 0
Gate = Table String TargetState

unfoldable pub new_render_fidelity_gate : Gate
new_render_fidelity_gate = []

unfoldable pub ready_status : ℕ → ℕ → ℕ → RenderFidelityStatus
ready_status epoch scopes clean = record {
  epoch = epoch;
  state = RenderFidelityState.holds;
  reason = "RenderMatchesLive";
  message = "Every rendered token matches live";
  divergence = none;
  scope_count = scopes;
  clean_scopes = clean;
}

abbrev pub keys : Table String ScopeResult → List String
keys [] = []
keys ((k, r) ∷ m) = k ∷ keys m

-- the loop over the sorted keys: the first divergence with the clean scopes before it, if any
unfoldable pub reduce_scopes :
    Table String ScopeResult → ℕ → List String → (Option RenderDivergence) × ℕ
reduce_scopes scopes clean [] = (none, clean)
reduce_scopes scopes clean (key ∷ rest) =
    let result = result_at (get key scopes) in
    let skipped = reduce_scopes scopes clean rest in
    let counted = reduce_scopes scopes (if result.clean then clean + 1 else clean) rest in
    if not result.finished
    then skipped
    else if is_some result.divergence
    then (result.divergence, clean)
    else counted

unfoldable pub reduce_render_fidelity : TargetState → RenderFidelityStatus
reduce_render_fidelity st = reduced (reduce_scopes st.scopes 0 (sort_by text_lt (keys st.scopes)))
  where
    count : ℕ
    count = length st.scopes

    reduced : (Option RenderDivergence) × ℕ → RenderFidelityStatus
    reduced (some d, clean) = record {
      epoch = st.epoch;
      state = RenderFidelityState.fails;
      reason = "RenderDoesNotMatchLive";
      message =
          concat_text
            ("Rendered token " ∷ d.token ∷ " at " ∷ d.field ∷ " does not match live" ∷ []);
      divergence = some d;
      scope_count = count;
      clean_scopes = clean;
    }
    reduced (none, clean) =
        if not (clean == count)
        then record {
          epoch = st.epoch;
          state = RenderFidelityState.unknown;
          reason = "Rechecking";
          message = "Waiting for every render scope in the current epoch";
          divergence = none;
          scope_count = count;
          clean_scopes = clean;
        }
        else ready_status st.epoch count clean

-- the receiver is not nil
unfoldable pub status : ResourceReference → Gate → RenderFidelityStatus
status target g = of (get (reference_key target) g)
  where
    of : Option TargetState → RenderFidelityStatus
    of none = ready_status 0 0 0
    of (some st) = reduce_render_fidelity st

unfoldable pub allows_writes : ResourceReference → Gate → Bool
allows_writes target g = is_true_state (status target g).state

unfoldable pub forget : ResourceReference → Gate → Gate
forget target g = remove (reference_key target) g

unfoldable pub fail : ResourceReference → RenderDivergence → Gate → Gate × RenderFidelityStatus
fail target divergence g =
    let st = failed (get (reference_key target) g) in
    (put (reference_key target) st g, reduce_render_fidelity st)
  where
    write : ScopeResult
    write = record { clean = false; finished = true; divergence = some divergence }

    failed : Option TargetState → TargetState
    failed none = record { epoch = 1; scopes = ("write", write) ∷ [] }
    failed (some st) = record st { scopes = put "write" write st.scopes }

module _ {Gvr : Type 0} (gvr_string : Gvr → String) where
  pub record RenderFidelityScope : Type 0 where
    pub gvr : Gvr
    pub namespace : String

  unfoldable pub scope_key : RenderFidelityScope → String
  scope_key s = concat_text (gvr_string s.gvr ∷ "|" ∷ s.namespace ∷ [])

  unfoldable pub pending_scopes :
      Table String ScopeResult → List RenderFidelityScope → Table String ScopeResult
  pending_scopes m [] = m
  pending_scopes m (s ∷ ss) = pending_scopes (put (scope_key s) pending_result m) ss

  -- the epoch is a uint64
  unfoldable pub begin :
      ResourceReference → List RenderFidelityScope → Gate → Gate × RenderFidelityStatus
  begin target scopes g =
      let old = state_at (get (reference_key target) g) in
      let st : TargetState = record {
        epoch = (old.epoch + 1) % 2 ^ 64;
        scopes = pending_scopes [] scopes;
      } in
      (put (reference_key target) st g, reduce_render_fidelity st)

  -- the gate afterwards, and the status if the result was applied
  unfoldable pub record_scope :
      ResourceReference
      → ℕ
      → RenderFidelityScope
      → Option RenderDivergence
      → Gate
      → Gate × (Option RenderFidelityStatus)
  record_scope target epoch scope divergence g = found (get (reference_key target) g)
    where
      applied : TargetState → Option ScopeResult → Gate × (Option RenderFidelityStatus)
      applied st none = (g, none)
      applied st (some result) =
          if is_some result.divergence && is_none divergence
          then (g, some (reduce_render_fidelity st))
          else let next : TargetState = record st {
            scopes =
                put (scope_key scope)
                  (record { finished = true; clean = is_none divergence; divergence = divergence })
                  st.scopes;
          } in
            (put (reference_key target) next g, some (reduce_render_fidelity next))

      found : Option TargetState → Gate × (Option RenderFidelityStatus)
      found none = (g, none)
      found (some st) =
          if not (st.epoch == epoch)
          then (g, none)
          else applied st (get (scope_key scope) st.scopes)

  unfoldable pub record_scope_clean :
      ResourceReference → ℕ → RenderFidelityScope → Gate → Gate × (Option RenderFidelityStatus)
  record_scope_clean target epoch scope g = record_scope target epoch scope none g

  unfoldable pub record_scope_divergence :
      ResourceReference
      → ℕ
      → RenderFidelityScope
      → RenderDivergence
      → Gate
      → Gate × (Option RenderFidelityStatus)
  record_scope_divergence target epoch scope divergence g =
      record_scope target epoch scope (some divergence) g
