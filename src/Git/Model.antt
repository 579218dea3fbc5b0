-- ===== src/Git/Model.antt =====
-- internal/git/types.go, open_window.go and commit_request_attach.go: events, the open window, and
-- CommitRequests. `Object` is the unstructured object of apimachinery. Of an event, the field
-- patch, the audit stream, the source cluster and the bootstrap options only travel along and are
-- left out.
use gitops_reverser.Base.{
  ℕ, ◌≡◌, ◌↔◌, Bool, true, false, not, ◌&&◌, Option, none, some, List, [], ◌∷◌, ◌++◌, ◌==◌, String,
  string_eq, nat_eq, if◌then◌else◌, EqType, bool_eq, arith,
}
use gitops_reverser.Base.Lists.{onto_some}
use gitops_reverser.Base.Table.{Table, get, put, has, is_empty}
use gitops_reverser.Base.Text.{codes_eq}
use gitops_reverser.Paths.Identifier.{
  ResourceIdentifier, SensitiveResourcePolicy, sanitize_path, generate_file_path,
}

pub data AttributionOutcome : Type 0 where
  not_attempted resolved unresolved : AttributionOutcome

unfoldable pub names_actor : AttributionOutcome → Bool
names_actor AttributionOutcome.not_attempted = false
names_actor AttributionOutcome.resolved = true
names_actor AttributionOutcome.unresolved = false

abbrev pub same_outcome : AttributionOutcome → AttributionOutcome → Bool
same_outcome AttributionOutcome.not_attempted AttributionOutcome.not_attempted = true
same_outcome AttributionOutcome.resolved AttributionOutcome.resolved = true
same_outcome AttributionOutcome.unresolved AttributionOutcome.unresolved = true
same_outcome a b = false

pub record UserInfo : Type 0 where
  pub username : String
  pub uid : String
  pub display_name : String
  pub email : String

pub record Event (Object : Type 0) : Type 0 where
  pub object : Option Object
  pub identifier : ResourceIdentifier
  pub operation : String
  pub user_info : UserInfo
  pub attribution : AttributionOutcome
  pub path : List ℕ
  pub git_target_name : String
  pub git_target_namespace : String

pub record CommitRequestId : Type 0 where
  pub namespace : String
  pub name : String
  pub uid : String

abbrev pub same_request : CommitRequestId → CommitRequestId → Bool
same_request a b = a.namespace == b.namespace && (a.name == b.name && a.uid == b.uid)

pub same_request_iff : (a b : CommitRequestId) → (same_request a b ≡ true) ↔ (a ≡ b)
same_request_iff a b = ground (
  arith,
  string_eq.beq_iff a.namespace b.namespace,
  string_eq.beq_iff a.name b.name,
  string_eq.beq_iff a.uid b.uid,
)

instance unfoldable pub request_eq : EqType CommitRequestId
request_eq = record { beq = same_request; beq_iff = same_request_iff }

pub record AttachCommitRequest : Type 0 where
  pub namespace : String
  pub name : String
  pub uid : String
  pub author : String
  pub attribution : AttributionOutcome
  pub git_target_name : String
  pub git_target_namespace : String
  pub message : String
  pub close_delay_seconds : ℕ

unfoldable pub request_id : AttachCommitRequest → CommitRequestId
request_id a = record { namespace = a.namespace; name = a.name; uid = a.uid }

-- times in nanoseconds
pub record PendingCommitRequest : Type 0 where
  pub id : CommitRequestId
  pub author : String
  pub attribution : AttributionOutcome
  pub git_target_name : String
  pub git_target_namespace : String
  pub message : String
  pub finalize_at : ℕ
  pub attached : Bool

pub data FinalizeOutcome : Type 0 where
  committed no_open_window window_mismatch already_present : FinalizeOutcome

pub record FinalizeResult : Type 0 where
  pub outcome : Option FinalizeOutcome
  pub sha : String
  pub branch : String
  pub err : Option String

pub record OutcomeEntry : Type 0 where
  pub result : FinalizeResult
  pub resolved_at : ℕ

pub record OpenWindow (Object : Type 0) : Type 0 where
  pub author : String
  pub attribution : AttributionOutcome
  pub git_target : String
  pub git_target_namespace : String
  pub path_order : List (List ℕ)
  pub path_to_event : Table (List ℕ) (Event Object)
  pub pending_message : String
  pub pending_cr : Option CommitRequestId

module _ {Object : Type 0} where
  -- the writer is the argument of the operations that use it
  unfoldable pub new_open_window : Event Object → OpenWindow Object
  new_open_window e = record {
    author = e.user_info.username;
    attribution = e.attribution;
    git_target = e.git_target_name;
    git_target_namespace = e.git_target_namespace;
    path_order = [];
    path_to_event = [];
    pending_message = "";
    pending_cr = none;
  }

  unfoldable pub can_append : Option (OpenWindow Object) → Event Object → Bool
  can_append none e = false
  can_append (some w) e =
      same_outcome e.attribution w.attribution
      && (e.user_info.username == w.author
          && (e.git_target_name == w.git_target
              && e.git_target_namespace == w.git_target_namespace))

  unfoldable pub window_path_key : SensitiveResourcePolicy → Event Object → List ℕ
  window_path_key policy e =
      let file_path = generate_file_path policy e.identifier in
      let base = sanitize_path e.path in
      if not (is_empty base) then base ++ (b'/' ∷ file_path) else file_path

  unfoldable pub add :
      SensitiveResourcePolicy → Event Object → OpenWindow Object → OpenWindow Object
  add policy e w =
      let key = window_path_key policy e in
      record w {
        path_order =
            if not (has key w.path_to_event) then w.path_order ++ (key ∷ []) else w.path_order;
        path_to_event = put key e w.path_to_event;
      }

  -- the loop over the path order; a key without an event, which `add` never leaves, is skipped
  unfoldable pub events_at : Table (List ℕ) (Event Object) → List (List ℕ) → List (Event Object)
  events_at m [] = []
  events_at m (k ∷ ks) = onto_some (get k m) (events_at m ks)

  unfoldable pub ordered_events : OpenWindow Object → List (Event Object)
  ordered_events w = events_at w.path_to_event w.path_order

  unfoldable pub matches_window : PendingCommitRequest → Option (OpenWindow Object) → Bool
  matches_window p none = false
  matches_window p (some w) =
      p.author == w.author
      && (names_actor p.attribution == names_actor w.attribution
          && (p.git_target_name == w.git_target
              && p.git_target_namespace == w.git_target_namespace))
