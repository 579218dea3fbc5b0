-- ===== src/Git/Tests.antt =====
-- A worker that writes for one GitTarget, with a remote that takes every push and one that
-- conflicts.
use mathlib.Core.Option
use gitops_reverser.Base.{
  ℕ, ◌+◌, ◌*◌, ◌≡◌, refl, true, false, not, ◌&&◌, none, some, List, [], ◌∷◌, String, string_eq,
  nat_eq, arith, if◌then◌else◌, leb,
}
use gitops_reverser.Base.Result.{ok}
use gitops_reverser.Base.Lists.{any}
use gitops_reverser.Base.Table.{get, has, is_empty}
use gitops_reverser.Base.Text.{codes, codes_eq}
use gitops_reverser.Api.Prune.{PruneMode}
use gitops_reverser.Paths.Identifier.{SensitiveResourcePolicy}
use gitops_reverser.Git.Gate.{
  RenderDivergence, RenderFidelityScope, begin, allows_writes, new_render_fidelity_gate,
  new_resource_reference,
}
use gitops_reverser.Git.Epoch.{is_recorded_clean, scope_keys, begin-allows_writes}
use gitops_reverser.Git.Reports.{Report, run, is_failure}
use gitops_reverser.Git.Model.{
  Event, AttributionOutcome, OpenWindow, new_open_window, ordered_events, CommitRequestId,
  request_eq,
}
use gitops_reverser.Git.Window.{add_all, last_events, first_files, ordered_events-add_all}
use gitops_reverser.Git.Pending.{
  Backend, PendingWrite, PendingWriteKind, CurrentMode, ResyncScope, CommitMode,
}
use gitops_reverser.Git.Push.{push_pending_commits}
use gitops_reverser.Git.Worker.{
  Loop, second, push_pending, finalize_open_window, maybe_schedule_push, push_cooldown,
}
use gitops_reverser.Git.Timers.{is_spaced}
use gitops_reverser.Git.Cooldown.{wake-is_spaced}
use gitops_reverser.Git.Loop.{WorkItem, Wake, wake, new_branch_worker_event_loop, Reach}
use gitops_reverser.Git.Accounts.{is_accounted}
use gitops_reverser.Git.Balance.{Reach-is_accounted}
use gitops_reverser.Git.Replies.{tally, submitted, tally-wake}
use gitops_reverser.Git.Outcomes.{carried_sha, committed_entry, push_pending-outcome}
use gitops_reverser.Git.Closing.{is_settled, finalize-IsResolved}

abbrev gvr_name : String → String
gvr_name s = s

abbrev pods : RenderFidelityScope gvr_name
pods = record { gvr = "pods"; namespace = "team-a" }

abbrev jobs : RenderFidelityScope gvr_name
jobs = record { gvr = "jobs"; namespace = "team-a" }

abbrev token : RenderDivergence
token = record { field = "spec.image"; token = "TAG" }

abbrev history : List (Report gvr_name)
history =
    Report.scope 1 pods none ∷ Report.scope 7 jobs (some token) ∷ Report.scope 1 jobs none ∷ []

begin-allows_writes_example :
    allows_writes (new_resource_reference "main" "team-a") (
      run gvr_name (new_resource_reference "main" "team-a") history (
        (begin gvr_name
          (new_resource_reference "main" "team-a")
          (pods ∷ jobs ∷ [])
          new_render_fidelity_gate).0))
    ≡ (not (any (is_failure gvr_name) history)
        && is_recorded_clean gvr_name
            ((begin gvr_name
                (new_resource_reference "main" "team-a")
                (pods ∷ jobs ∷ [])
                new_render_fidelity_gate).1
              ).epoch
            (scope_keys gvr_name (pods ∷ jobs ∷ []))
            history)
begin-allows_writes_example =
    begin-allows_writes gvr_name (new_resource_reference "main" "team-a") (pods ∷ jobs ∷ [])
      new_render_fidelity_gate history

abbrev plain_policy : SensitiveResourcePolicy
plain_policy = record { additional = [] }

abbrev event_of : String → ℕ → Event ℕ
event_of name size = record {
  object = some size;
  identifier = record {
    group = [];
    version = codes "v1";
    resource = codes "configmaps";
    namespace = codes "team-a";
    name = codes name;
  };
  operation = "UPDATE";
  user_info = record { username = "ada"; uid = ""; display_name = ""; email = "" };
  attribution = AttributionOutcome.resolved;
  path = codes "apps";
  git_target_name = "main";
  git_target_namespace = "team-a";
}

abbrev burst : List (Event ℕ)
burst = event_of "one" 3 ∷ event_of "two" 4 ∷ event_of "one" 5 ∷ []

ordered_events-add_all_example :
    ordered_events (add_all plain_policy burst (new_open_window (event_of "one" 3)))
    ≡ last_events plain_policy (first_files plain_policy [] burst) burst
ordered_events-add_all_example = ordered_events-add_all plain_policy (event_of "one" 3) burst

-- the world counts the commits
abbrev steady : Backend ℕ ℕ ℕ
steady = record {
  branch = "trunk";
  max_bytes = 1000;
  size = λ n. n;
  desired_size = λ n. n;
  no_resources = 0;
  provider = λ w. none;
  signer = λ w. none;
  target = λ name namespace w. ok (record {
    name = name;
    namespace = namespace;
    path = codes "apps";
    prune_mode = PruneMode.on_event;
    source_cluster = "default";
  });
  current_mode = λ key w. CurrentMode.current PruneMode.on_event;
  auth = λ w. none;
  prepare_branch = λ w. (none, w);
  open_repository = λ w. none;
  ensure_write_branch = λ w. (ok (record { branch = "trunk"; hash = some "c0" }), w);
  apply = λ p w. (ok (some "c1"), w + 1);
  push_atomic = λ root w. (none, w);
  fetch_remote_branch_hash = λ branch w. (ok (some "c0"), w);
  sync_to_remote = λ w. (none, w);
}

abbrev scope_name : ResyncScope → String
scope_name s = s.resource

abbrev fresh_loop : Loop ℕ ℕ ℕ
fresh_loop = new_branch_worker_event_loop steady scope_name plain_policy (5 * second) none 0

abbrev burst_item : Wake steady scope_name plain_policy
burst_item = Wake.item (
    WorkItem.request (record {
      events = burst;
      commit_message = "";
      git_target_name = "";
      git_target_namespace = "";
      commit_mode = CommitMode.per_event;
    }))

Reach-is_accounted_example :
    is_accounted (wake steady scope_name plain_policy burst_item 7 fresh_loop) ≡ true
Reach-is_accounted_example =
    Reach-is_accounted steady scope_name plain_policy 7
      (wake steady scope_name plain_policy burst_item 7 fresh_loop)
      (Reach.woken (Reach.start (5 * second) none 0) burst_item 7 (omega arith) tt)

abbrev heal : Wake steady scope_name plain_policy
heal = Wake.item (
    WorkItem.resync (record {
      desired = 2;
      revision = "9";
      git_target_name = "main";
      git_target_namespace = "team-a";
      scope = none;
      heal = true;
      result = 4;
    }))

tally-wake_example :
    tally 4 (
      wake steady scope_name plain_policy heal 8
        (wake steady scope_name plain_policy burst_item 7 fresh_loop))
    ≡ tally 4 (wake steady scope_name plain_policy burst_item 7 fresh_loop)
      + submitted steady scope_name plain_policy 8 4 heal
tally-wake_example =
    tally-wake steady scope_name plain_policy 8 4 heal
      (wake steady scope_name plain_policy burst_item 7 fresh_loop)

abbrev request : CommitRequestId
request = record { namespace = "team-a"; name = "release"; uid = "" }

abbrev claimed_window : OpenWindow ℕ
claimed_window = record {
  author = "ada";
  attribution = AttributionOutcome.resolved;
  git_target = "main";
  git_target_namespace = "team-a";
  path_order = codes "apps/a.yaml" ∷ [];
  path_to_event = (codes "apps/a.yaml", event_of "one" 3) ∷ [];
  pending_message = "release 1";
  pending_cr = some request;
}

abbrev claimed_loop : Loop ℕ ℕ ℕ
claimed_loop = record fresh_loop { open_window = some claimed_window; window_bytes = 3 }

finalize-IsResolved_example :
    (is_settled request ((finalize_open_window steady 9 claimed_loop).0) ≡ true)
    × ((has request ((finalize_open_window steady 9 claimed_loop).0.pending_crs) ≡ false)
        × ((finalize_open_window steady 9 claimed_loop).0.open_window ≡ none))
finalize-IsResolved_example =
    finalize-IsResolved steady 9 request claimed_window claimed_loop refl refl

abbrev retained : PendingWrite ℕ ℕ
retained = record {
  kind = PendingWriteKind.commit_kind;
  events = event_of "one" 3 ∷ [];
  commit_message = "release 1";
  git_target_name = "";
  git_target_namespace = "";
  targets = [];
  byte_size = 3;
  desired = 0;
  scope = none;
  revision = "";
  committed = false;
  commit_request = some request;
  commit_sha = some "c1";
}

abbrev retaining_loop : Loop ℕ ℕ ℕ
retaining_loop = record fresh_loop { pending_writes = retained ∷ []; pending_writes_bytes = 3 }

-- the first push conflicts, and the replay finds that the remote has the change
abbrev conflicting : Backend ℕ ℕ ℕ
conflicting = record steady {
  apply = λ p w. (ok none, w);
  push_atomic = λ root w.
      (if leb 1 w then none else some (record { text = "rejected"; is_refusal = false }), w + 1);
  fetch_remote_branch_hash = λ branch w. (ok (some "c9"), w);
}

push_pending-outcome_example :
    (get request (push_pending conflicting 9 retaining_loop).cr_outcomes
      ≡ Option.map (committed_entry conflicting 9) (
          carried_sha request
            (push_pending_commits conflicting retaining_loop.pending_writes retaining_loop.root
              retaining_loop.world).writes))
    × ((push_pending conflicting 9 retaining_loop).pending_writes ≡ [])
unfolding is_empty push_pending_commits new_branch_worker_event_loop
    gitops_reverser.Git.Push.rebuild_pending_writes
    gitops_reverser.Git.Push.tighten_pending_prune_modes gitops_reverser.Git.Push.tighten_targets
    gitops_reverser.Git.Commit.execute_pending_writes get
push_pending-outcome_example =
    push_pending-outcome conflicting 9 request retaining_loop refl refl refl

-- the request is then neither waiting, nor retained, nor resolved
lost_run : get request (push_pending conflicting 9 retaining_loop).cr_outcomes ≡ none
unfolding get push_pending is_empty push_pending_commits request_eq new_branch_worker_event_loop
    gitops_reverser.Git.Push.rebuild_pending_writes
    gitops_reverser.Git.Push.tighten_pending_prune_modes gitops_reverser.Git.Push.tighten_targets
    gitops_reverser.Git.Commit.execute_pending_writes
    gitops_reverser.Git.Worker.resolve_pushed_commit_requests
lost_run = refl

-- without a commit window, the events are committed and pushed at once
abbrev pushed_loop : Loop ℕ ℕ ℕ
pushed_loop =
    wake steady scope_name plain_policy burst_item 7
      (new_branch_worker_event_loop steady scope_name plain_policy 0 none 0)

wake-is_spaced_example :
    is_spaced pushed_loop.last_push_at 9
      (wake steady scope_name plain_policy burst_item 9 pushed_loop).last_push_at
    ≡ true
wake-is_spaced_example =
    wake-is_spaced steady scope_name plain_policy burst_item 7 9 pushed_loop
      (Reach.woken (Reach.start 0 none 0) burst_item 7 (omega arith) tt) (omega arith) tt
