-- ===== src/Git/Requests.antt =====
-- internal/git/commit_request_attach_loop.go: how CommitRequests wait for a window, claim it, and
-- run out. The order of the list of requests is one in which `range` may visit the map.
use gitops_reverser.Base.{
  ℕ, ◌+◌, ◌-◌, ◌*◌, Bool, true, false, not, ◌||◌, Option, none, some, List, [], ◌∷◌, ◌==◌,
  if◌then◌else◌, is_some, ltb, leb,
}
use gitops_reverser.Base.Table.{Table, get, put, has, is_empty}
use gitops_reverser.Git.Model.{
  OpenWindow, CommitRequestId, request_eq, PendingCommitRequest, FinalizeOutcome,
  AttachCommitRequest, request_id, matches_window, OutcomeEntry,
}
use gitops_reverser.Git.Pending.{Backend}
use gitops_reverser.Git.Worker.{
  Loop, second, resolve_commit_request, outcome, finalize_open_window, maybe_schedule_push,
}

-- the requests whose time is up
unfoldable pub due_requests : ℕ → Table CommitRequestId PendingCommitRequest → List CommitRequestId
due_requests now [] = []
due_requests now ((id, p) ∷ m) =
    let rest = due_requests now m in if leb p.finalize_at now then id ∷ rest else rest

-- the earliest deadline
unfoldable pub earliest : Option ℕ → Table CommitRequestId PendingCommitRequest → Option ℕ
earliest found [] = found
earliest found ((id, p) ∷ m) = earliest (sooner found) m
  where
    sooner : Option ℕ → Option ℕ
    sooner none = some p.finalize_at
    sooner (some t) = if ltb p.finalize_at t then some p.finalize_at else some t

module _ {Object : Type 0} where
  -- the loop over the requests, with the oldest match so far
  unfoldable pub oldest_match :
      OpenWindow Object
      → Option PendingCommitRequest
      → Table CommitRequestId PendingCommitRequest
      → Option PendingCommitRequest
  oldest_match w oldest [] = oldest
  oldest_match w oldest ((id, p) ∷ m) =
      oldest_match w
        (if p.attached || not (matches_window p (some w)) then oldest else older oldest) m
    where
      older : Option PendingCommitRequest → Option PendingCommitRequest
      older none = some p
      older (some o) = if ltb p.finalize_at o.finalize_at then some p else some o

  abbrev pub claims : CommitRequestId → Option (OpenWindow Object) → Bool
  claims id none = false
  claims id (some w) = elim w.pending_cr [ none ↦ false | some claimer ↦ claimer == id ]

module _ {Object Desired W : Type 0} where
  unfoldable pub lookup_commit_request_outcome :
      CommitRequestId → Loop Object Desired W → Option OutcomeEntry
  lookup_commit_request_outcome id l = get id l.cr_outcomes

  unfoldable pub handle_attach_commit_request :
      AttachCommitRequest → ℕ → Loop Object Desired W → Loop Object Desired W
  handle_attach_commit_request req now l =
      let id = request_id req in
      if has id l.cr_outcomes then l else if has id l.pending_crs then l else record l {
        pending_crs =
            put id
              (record {
                id = id;
                author = req.author;
                attribution = req.attribution;
                git_target_name = req.git_target_name;
                git_target_namespace = req.git_target_namespace;
                message = req.message;
                finalize_at = now + req.close_delay_seconds * second;
                attached = false;
              })
              l.pending_crs;
      }

  -- the pointer `pcr` is the entry of the map
  unfoldable pub attach_to_open_window :
      PendingCommitRequest → OpenWindow Object → Loop Object Desired W → Loop Object Desired W
  attach_to_open_window p w l = record l {
    open_window = some (record w { pending_message = p.message; pending_cr = some p.id });
    pending_crs = put p.id (record p { attached = true }) l.pending_crs;
  }

  unfoldable pub attach_waiting_commit_requests : Loop Object Desired W → Loop Object Desired W
  unfolding attach_to_open_window oldest_match
  attach_waiting_commit_requests l = with_window l.open_window
    where
      with_oldest : OpenWindow Object → Option PendingCommitRequest → Loop Object Desired W
      with_oldest w none = l
      with_oldest w (some p) = attach_to_open_window p w l

      with_window : Option (OpenWindow Object) → Loop Object Desired W
      with_window none = l
      with_window (some w) =
          if is_some w.pending_cr then l else with_oldest w (oldest_match w none l.pending_crs)

  unfoldable pub rearm_attach_timer : ℕ → Loop Object Desired W → Loop Object Desired W
  unfolding earliest
  rearm_attach_timer now l = armed (earliest none l.pending_crs)
    where
      armed : Option ℕ → Loop Object Desired W
      armed none = record l { attach_timer = none }
      armed (some t) = record l { attach_timer = some (now + (t - now)) }

module _ {Object Desired W : Type 0} (b : Backend Object Desired W) where
  -- one due request
  unfoldable pub process_due : ℕ → CommitRequestId → Loop Object Desired W → Loop Object Desired W
  unfolding finalize_open_window maybe_schedule_push resolve_commit_request
  process_due now id l =
      if not (has id l.pending_crs)
      then l
      else if claims id l.open_window
      then unresolved (maybe_schedule_push b now (finalize_open_window b now l).0)
      else resolve_commit_request b id (outcome b FinalizeOutcome.no_open_window) now l
    where
      unresolved : Loop Object Desired W → Loop Object Desired W
      unresolved l2 =
          if has id l2.pending_crs
          then resolve_commit_request b id (outcome b FinalizeOutcome.no_open_window) now l2
          else l2

  unfoldable pub process_each_due :
      ℕ → List CommitRequestId → Loop Object Desired W → Loop Object Desired W
  unfolding process_due
  process_each_due now [] l = l
  process_each_due now (id ∷ ids) l = process_each_due now ids (process_due now id l)

  unfoldable pub process_due_commit_requests : ℕ → Loop Object Desired W → Loop Object Desired W
  unfolding process_each_due due_requests
  process_due_commit_requests now l = process_each_due now (due_requests now l.pending_crs) l

  unfoldable pub service_commit_requests : ℕ → Loop Object Desired W → Loop Object Desired W
  unfolding attach_waiting_commit_requests process_due_commit_requests rearm_attach_timer
  service_commit_requests now l =
      if is_empty l.pending_crs
      then record l { attach_timer = none }
      else rearm_attach_timer now
          (process_due_commit_requests now (attach_waiting_commit_requests l))
