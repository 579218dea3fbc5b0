-- ===== src/Git/Pending.antt =====
-- internal/git/pending_writes.go, types.go and resync_flush.go: the units that wait for a push, and
-- how they are built. go-git, the API server and the plan and flush of one unit are a `Backend`
-- over a world `W`.
use gitops_reverser.Base.{
  ℕ, ◌+◌, Bool, true, false, not, ◌&&◌, ◌||◌, Option, none, some, List, [], ◌∷◌, ◌++◌, ◌==◌, String,
  string_eq, if◌then◌else◌, EqType, ◌↔◌, ◌≡◌, arith, map,
}
use gitops_reverser.Base.Result.{Result, failed, ok}
use gitops_reverser.Base.Table.{Table, get, put, is_empty}
use gitops_reverser.Base.Text.{codes_eq}
use gitops_reverser.Api.Prune.{PruneMode}
use gitops_reverser.Git.Model.{Event, CommitRequestId}

pub data PendingWriteKind : Type 0 where
  commit_kind atomic_kind resync_kind : PendingWriteKind

pub record TargetKey : Type 0 where
  pub name : String
  pub namespace : String

abbrev pub same_target : TargetKey → TargetKey → Bool
same_target a b = a.name == b.name && a.namespace == b.namespace

pub same_target_iff : (a b : TargetKey) → (same_target a b ≡ true) ↔ (a ≡ b)
same_target_iff a b =
    ground (arith, string_eq.beq_iff a.name b.name, string_eq.beq_iff a.namespace b.namespace)

instance unfoldable pub target_key_eq : EqType TargetKey
target_key_eq = record { beq = same_target; beq_iff = same_target_iff }

-- the encryption, bootstrap and placement settings are the backend's
pub record ResolvedTargetMetadata : Type 0 where
  pub name : String
  pub namespace : String
  pub path : List ℕ
  pub prune_mode : PruneMode
  pub source_cluster : String

pub record GitError : Type 0 where
  pub text : String
  -- whether it wraps an AcceptanceRefusedError
  pub is_refusal : Bool

pub record ResyncScope : Type 0 where
  pub group : String
  pub version : String
  pub resource : String
  pub namespace : String

-- a zero hash is none; `committed` is read only for a resync
pub record PendingWrite (Object Desired : Type 0) : Type 0 where
  pub kind : PendingWriteKind
  pub events : List (Event Object)
  pub commit_message : String
  pub git_target_name : String
  pub git_target_namespace : String
  pub targets : Table TargetKey ResolvedTargetMetadata
  pub byte_size : ℕ
  pub desired : Desired
  pub scope : Option ResyncScope
  pub revision : String
  pub committed : Bool
  pub commit_request : Option CommitRequestId
  pub commit_sha : Option String

pub data CommitMode : Type 0 where
  per_event atomic : CommitMode

pub record WriteRequest (Object : Type 0) : Type 0 where
  pub events : List (Event Object)
  pub commit_message : String
  pub git_target_name : String
  pub git_target_namespace : String
  pub commit_mode : CommitMode

-- `result` names the channel of the reply
pub record ResyncRequest (Desired : Type 0) : Type 0 where
  pub desired : Desired
  pub revision : String
  pub git_target_name : String
  pub git_target_namespace : String
  pub scope : Option ResyncScope
  pub heal : Bool
  pub result : ℕ

pub data CurrentMode : Type 0 where
  target_gone : CurrentMode
  read_failed : GitError → CurrentMode
  current : PruneMode → CurrentMode

-- the branch and the hash from which the commits of a push cycle start
pub record CycleRoot : Type 0 where
  pub branch : String
  pub hash : Option String

pub record Backend (Object Desired W : Type 0) : Type 0 where
  -- the branch of the worker
  pub branch : String
  pub max_bytes : ℕ
  -- the length of the object's YAML, 0 if it has none
  pub size : Object → ℕ
  pub desired_size : Desired → ℕ
  pub no_resources : Desired
  -- reads of the API server: the GitProvider, its signer, a GitTarget and its prune mode
  pub provider : W → Option GitError
  pub signer : W → Option GitError
  pub target : String → String → W → Result GitError ResolvedTargetMetadata
  pub current_mode : TargetKey → W → CurrentMode
  -- the credentials, PrepareBranch, PlainOpen, and ensureWriteBranch
  pub auth : W → Option GitError
  pub prepare_branch : W → Option GitError × W
  pub open_repository : W → Option GitError
  pub ensure_write_branch : W → Result GitError CycleRoot × W
  -- the plan and flush of one unit, and its commit: the hash, or none without a change
  pub apply : PendingWrite Object Desired → W → Result GitError (Option String) × W
  pub push_atomic : CycleRoot → W → Option GitError × W
  pub fetch_remote_branch_hash : String → W → Result GitError (Option String) × W
  pub sync_to_remote : W → Option GitError × W

abbrev pub event_size : {Object : Type 0} → (Object → ℕ) → Event Object → ℕ
event_size size e = elim e.object [ none ↦ 0 | some o ↦ size o ]

module _ {Object Desired W : Type 0} (b : Backend Object Desired W) where
  unfoldable pub estimate_event_size : Event Object → ℕ
  estimate_event_size e = event_size b.size e

  unfoldable pub estimate_events_size : List (Event Object) → ℕ
  unfolding estimate_event_size
  estimate_events_size [] = 0
  estimate_events_size (e ∷ es) = estimate_event_size e + estimate_events_size es

  abbrev pub with_target : ResolvedTargetMetadata → Event Object → Event Object
  with_target md e = record e {
    path = if is_empty e.path then md.path else e.path;
    git_target_name = md.name;
    git_target_namespace = md.namespace;
  }

  abbrev pub Resolved : Type 0
  Resolved = List (Event Object) × Table TargetKey ResolvedTargetMetadata

  abbrev pub key_of : ResolvedTargetMetadata → TargetKey
  key_of md = record { name = md.name; namespace = md.namespace }

  -- what the target's metadata, already known or else read, makes of the event, handed on
  abbrev pub resolve_event :
      W
      → Event Object
      → Table TargetKey ResolvedTargetMetadata
      → (Event Object → Table TargetKey ResolvedTargetMetadata → Result GitError Resolved)
      → Result GitError Resolved
  resolve_event world e targets next =
      if e.git_target_name == "" || e.git_target_namespace == ""
      then next e targets
      else known
          (get (record { name = e.git_target_name; namespace = e.git_target_namespace }) targets)
    where
      resolved : Result GitError ResolvedTargetMetadata → Result GitError Resolved
      resolved (failed err) = failed err
      resolved (ok md) = next (with_target md e) (put (key_of md) md targets)

      known : Option ResolvedTargetMetadata → Result GitError Resolved
      known (some md) = next (with_target md e) targets
      known none = resolved (b.target e.git_target_name e.git_target_namespace world)

  -- the events from `events` on, after `done`
  unfoldable pub resolve_events :
      W
      → List (Event Object)
      → Table TargetKey ResolvedTargetMetadata
      → List (Event Object)
      → Result GitError Resolved
  resolve_events world done targets [] = ok (done, targets)
  resolve_events world done targets (e ∷ events) =
      resolve_event world e targets
        (λ e targets. resolve_events world (done ++ (e ∷ [])) targets events)

  abbrev pub or_error : {A : Type 0} → Option GitError → Result GitError A → Result GitError A
  or_error (some err) next = failed err
  or_error none next = next

  abbrev pub no_events_error : String → GitError
  no_events_error text = record { text = text; is_refusal = false }

  unfoldable pub build_grouped_pending_write :
      List (Event Object) → W → Result GitError (PendingWrite Object Desired)
  build_grouped_pending_write [] world =
      failed (no_events_error "grouped pending write requires at least one event")
  build_grouped_pending_write (e ∷ es) world =
      or_error (b.provider world)
        (or_error (b.signer world) (built (resolve_events world [] [] (e ∷ es))))
    where
      built : Result GitError Resolved → Result GitError (PendingWrite Object Desired)
      built (failed err) = failed err
      built (ok (events, targets)) = ok (record {
        kind = PendingWriteKind.commit_kind;
        events = events;
        commit_message = "";
        git_target_name = "";
        git_target_namespace = "";
        targets = targets;
        byte_size = estimate_events_size events;
        desired = b.no_resources;
        scope = none;
        revision = "";
        committed = false;
        commit_request = none;
        commit_sha = none;
      })

  unfoldable pub build_atomic_pending_write :
      WriteRequest Object → W → Result GitError (PendingWrite Object Desired)
  build_atomic_pending_write request world =
      if is_empty request.events
      then failed (no_events_error "atomic pending write requires at least one event")
      else or_error (b.provider world) (
          or_error (b.signer world) (
            if not (request.git_target_name == "") && not (request.git_target_namespace == "")
            then for_target (b.target request.git_target_name request.git_target_namespace world)
            else built request.events []))
    where
      built :
          List (Event Object)
          → Table TargetKey ResolvedTargetMetadata
          → Result GitError (PendingWrite Object Desired)
      built events targets = ok (record {
        kind = PendingWriteKind.atomic_kind;
        events = events;
        commit_message = request.commit_message;
        git_target_name = request.git_target_name;
        git_target_namespace = request.git_target_namespace;
        targets = targets;
        byte_size = estimate_events_size events;
        desired = b.no_resources;
        scope = none;
        revision = "";
        committed = false;
        commit_request = none;
        commit_sha = none;
      })

      for_target :
          Result GitError ResolvedTargetMetadata → Result GitError (PendingWrite Object Desired)
      for_target (failed err) = failed err
      for_target (ok md) = built (map (with_target md) request.events) ((key_of md, md) ∷ [])

  unfoldable pub build_resync_pending_write :
      ResyncRequest Desired → W → Result GitError (PendingWrite Object Desired)
  build_resync_pending_write request world =
      if request.git_target_name == "" || request.git_target_namespace == ""
      then failed (no_events_error "resync request requires a GitTarget name and namespace")
      else or_error (b.provider world) (
          or_error (b.signer world)
            (built (b.target request.git_target_name request.git_target_namespace world)))
    where
      built : Result GitError ResolvedTargetMetadata → Result GitError (PendingWrite Object Desired)
      built (failed err) = failed err
      built (ok md) = ok (record {
        kind = PendingWriteKind.resync_kind;
        events = [];
        commit_message = "";
        git_target_name = md.name;
        git_target_namespace = md.namespace;
        targets = (key_of md, md) ∷ [];
        byte_size = b.desired_size request.desired;
        desired = request.desired;
        scope = request.scope;
        revision = request.revision;
        committed = false;
        commit_request = none;
        commit_sha = none;
      })
