-- ===== src/Git/Loop.antt =====
-- internal/git/branch_worker.go: what each wake of the event loop does.
use gitops_reverser.Base.{
  ℕ, ◌≡◌, ◌≤◌, ◌+◌, true, not, ◌&&◌, ◌||◌, Option, none, some, List, [], ◌∷◌, ◌++◌, ◌==◌, String,
  string_eq, nat_eq, if◌then◌else◌, is_some, leb,
}
use gitops_reverser.Base.Result.{Result, failed, ok}
use gitops_reverser.Base.Table.{is_empty}
use gitops_reverser.Paths.Identifier.{SensitiveResourcePolicy}
use gitops_reverser.Git.Gate.{Gate}
use gitops_reverser.Git.Model.{
  Event, OpenWindow, new_open_window, can_append, add, AttachCommitRequest,
}
use gitops_reverser.Git.Pending.{
  PendingWrite, GitError, Backend, ResyncRequest, ResyncScope, WriteRequest, CommitMode,
  build_atomic_pending_write, estimate_event_size,
}
use gitops_reverser.Git.Commit.{Committed, commit_pending_writes}
use gitops_reverser.Git.Worker.{
  Loop, normal_writes_allowed, report_path_refusal, finalize_open_window, maybe_schedule_push,
  push_pending,
}
use gitops_reverser.Git.Requests.{handle_attach_commit_request, service_commit_requests}
use gitops_reverser.Git.Resyncs.{apply_deferred_heals, handle_resync_request}

-- `gvr_string` is GroupVersionResource.String of apimachinery
module _ {Object Desired W : Type 0} (b : Backend Object Desired W)
    (gvr_string : ResyncScope → String) (policy : SensitiveResourcePolicy) where
  -- name and namespace
  unfoldable pub atomic_refusal_target : WriteRequest Object → String × String
  atomic_refusal_target request =
      if not (request.git_target_name == "") && not (request.git_target_namespace == "")
      then (request.git_target_name, request.git_target_namespace)
      else first_named request.events
    where
      first_named : List (Event Object) → String × String
      first_named [] = ("", "")
      first_named (e ∷ es) =
          if not (e.git_target_name == "") && not (e.git_target_namespace == "")
          then (e.git_target_name, e.git_target_namespace)
          else first_named es

  -- an atomic request once the window and the parked heals are settled
  unfoldable pub apply_settled_atomic :
      WriteRequest Object → ℕ → Loop Object Desired W → Loop Object Desired W
  unfolding atomic_refusal_target maybe_schedule_push report_path_refusal
  apply_settled_atomic request now l = built (build_atomic_pending_write b request l.world)
    where
      by_result :
          PendingWrite Object Desired
          → Option GitError
          → Loop Object Desired W
          → Loop Object Desired W
      by_result pw (some err) l =
          let target = atomic_refusal_target request in
          report_path_refusal b err (target.0) (target.1) l
      by_result pw none l = maybe_schedule_push b now (record l {
        pending_writes = l.pending_writes ++ (pw ∷ []);
        pending_writes_bytes = l.pending_writes_bytes + pw.byte_size;
      })

      committed : PendingWrite Object Desired → Committed b → Loop Object Desired W
      committed pw c = by_result pw c.error (record l { root = c.root; world = c.world })

      built : Result GitError (PendingWrite Object Desired) → Loop Object Desired W
      built (failed err) = l
      built (ok pw) =
          committed pw
            (commit_pending_writes b (pw ∷ []) (not (is_empty l.pending_writes)) l.root l.world)

  unfoldable pub handle_atomic_request :
      WriteRequest Object → ℕ → Loop Object Desired W → Loop Object Desired W
  unfolding finalize_open_window apply_deferred_heals apply_settled_atomic
  handle_atomic_request request now l =
      apply_settled_atomic request now
        (apply_deferred_heals b gvr_string now (finalize_open_window b now l).0)

  -- the window is closed, and its commit scheduled for a push
  unfoldable pub close_window : ℕ → Loop Object Desired W → Loop Object Desired W
  unfolding finalize_open_window maybe_schedule_push
  close_window now l = maybe_schedule_push b now (finalize_open_window b now l).0

  -- the window that has just grown is closed at the byte cap or without a commit window, and
  -- otherwise stays open until the timer fires
  unfoldable pub limit_window : ℕ → Loop Object Desired W → Loop Object Desired W
  unfolding close_window
  limit_window now l =
      if leb b.max_bytes (l.window_bytes + l.pending_writes_bytes) || l.commit_window == 0
      then close_window now l
      else record l { commit_timer = some (now + l.commit_window) }

  abbrev pub window_or_new : Event Object → Option (OpenWindow Object) → OpenWindow Object
  window_or_new event none = new_open_window event
  window_or_new event (some w) = w

  -- the event joins the open window, or a new one
  unfoldable pub add_event : Event Object → ℕ → Loop Object Desired W → Loop Object Desired W
  unfolding limit_window
  add_event event now l = limit_window now (record l {
    open_window = some (add policy event (window_or_new event l.open_window));
    window_bytes = l.window_bytes + estimate_event_size b event;
  })

  -- one event of a request
  unfoldable pub handle_event : Event Object → ℕ → Loop Object Desired W → Loop Object Desired W
  unfolding close_window add_event apply_deferred_heals
  handle_event event now l =
      if not (normal_writes_allowed b event.git_target_name event.git_target_namespace l)
      then l
      else if is_some l.open_window && not (can_append l.open_window event)
      then add_event event now (apply_deferred_heals b gvr_string now (close_window now l))
      else add_event event now l

  unfoldable pub handle_events :
      List (Event Object) → ℕ → Loop Object Desired W → Loop Object Desired W
  unfolding handle_event
  handle_events [] now l = l
  handle_events (e ∷ es) now l = handle_events es now (handle_event e now l)

  pub data WorkItem : Type 0 where
    request : WriteRequest Object → WorkItem
    attach : AttachCommitRequest → WorkItem
    resync : ResyncRequest Desired → WorkItem

  unfoldable pub handle_queue_item : WorkItem → ℕ → Loop Object Desired W → Loop Object Desired W
  unfolding handle_events handle_atomic_request handle_attach_commit_request handle_resync_request
  handle_queue_item (WorkItem.attach req) now l = handle_attach_commit_request req now l
  handle_queue_item (WorkItem.resync req) now l = handle_resync_request b gvr_string req now l
  handle_queue_item (WorkItem.request req) now l = by_mode req.commit_mode
    where
      target : String × String
      target = atomic_refusal_target req

      by_mode : CommitMode → Loop Object Desired W
      by_mode CommitMode.atomic =
          if not (normal_writes_allowed b (target.0) (target.1) l)
          then l
          else handle_atomic_request req now l
      by_mode CommitMode.per_event = handle_events req.events now l

  -- what wakes the loop
  pub data Wake : Type 0 where
    item : WorkItem → Wake
    commit_fires push_fires attach_fires : Wake

  unfoldable pub wake : Wake → ℕ → Loop Object Desired W → Loop Object Desired W
  unfolding handle_queue_item close_window push_pending service_commit_requests apply_deferred_heals
  wake cause now l =
      apply_deferred_heals b gvr_string now (service_commit_requests b now (handled cause))
    where
      handled : Wake → Loop Object Desired W
      handled (Wake.item i) = handle_queue_item i now l
      handled Wake.commit_fires = close_window now (record l { commit_timer = none })
      handled Wake.push_fires = push_pending b now (record l { push_timer = none })
      handled Wake.attach_fires = record l { attach_timer = none }

  abbrev pub IsAfter : Option ℕ → ℕ → Type 0
  IsAfter none now = Unit
  IsAfter (some t) now = t ≤ now

  -- a timer that fires was set, and its time has come
  abbrev pub IsDue : Wake → ℕ → Loop Object Desired W → Type 0
  IsDue (Wake.item i) now l = Unit
  IsDue Wake.commit_fires now l = (is_some l.commit_timer ≡ true) × IsAfter l.commit_timer now
  IsDue Wake.push_fires now l = (is_some l.push_timer ≡ true) × IsAfter l.push_timer now
  IsDue Wake.attach_fires now l = (is_some l.attach_timer ≡ true) × IsAfter l.attach_timer now

  -- what is left in the queue is dropped
  unfoldable pub handle_shutdown : ℕ → Loop Object Desired W → Loop Object Desired W
  unfolding finalize_open_window apply_deferred_heals push_pending
  handle_shutdown now l =
      pushed (apply_deferred_heals b gvr_string now (finalize_open_window b now l).0)
    where
      pushed : Loop Object Desired W → Loop Object Desired W
      pushed l = if is_empty l.pending_writes then l else push_pending b now l

  -- newBranchWorkerEventLoop, for a worker without outcomes
  unfoldable pub new_branch_worker_event_loop : ℕ → Option Gate → W → Loop Object Desired W
  new_branch_worker_event_loop commit_window gate world = record {
    commit_window = commit_window;
    open_window = none;
    window_bytes = 0;
    pending_writes = [];
    pending_writes_bytes = 0;
    last_push_at = none;
    commit_timer = none;
    push_timer = none;
    attach_timer = none;
    deferred_heals = [];
    pending_crs = [];
    cr_outcomes = [];
    root = record { branch = ""; hash = none };
    gate = gate;
    world = world;
    replies = [];
    refusals = [];
  }

  -- the states between wakes: others change the gate and the world, and the clock does not go back
  pub data Reach : ℕ → Loop Object Desired W → Type 0 where
    start :
        (commit_window : ℕ) (gate : Option Gate) (world : W)
        → Reach 0 (new_branch_worker_event_loop commit_window gate world)
    woken :
        {t : ℕ} {l : Loop Object Desired W}
        → Reach t l
        → (cause : Wake) (now : ℕ) → t ≤ now
        → IsDue cause now l
        → Reach now (wake cause now l)
    gated :
        {t : ℕ} {l : Loop Object Desired W}
        → Reach t l
        → (gate : Option Gate) → Reach t (record l { gate = gate })
    changed :
        {t : ℕ} {l : Loop Object Desired W}
        → Reach t l
        → (world : W) → Reach t (record l { world = world })
