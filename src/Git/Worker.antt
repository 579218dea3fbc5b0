-- ===== src/Git/Worker.antt =====
-- internal/git/branch_worker.go: the state of the event loop, the outcomes of CommitRequests, the
-- push and its cooldown, and how the open window becomes a commit. A timer is the time at which it
-- fires. Each wake reads the clock once, and logs and metrics are left out.
use gitops_reverser.Base.{
  ℕ, ◌+◌, ◌-◌, ◌*◌, Bool, true, false, not, ◌||◌, Option, none, some, List, [], ◌∷◌, ◌++◌, ◌==◌,
  String, string_eq, nat_eq, if◌then◌else◌, is_none, ltb, leb,
}
use gitops_reverser.Base.Result.{Result, failed, ok}
use gitops_reverser.Base.Table.{Table, put, remove, is_empty}
use gitops_reverser.Base.Text.{concat_text}
use gitops_reverser.Git.Gate.{Gate, allows_writes, new_resource_reference}
use gitops_reverser.Git.Model.{
  OpenWindow, ordered_events, CommitRequestId, request_eq, PendingCommitRequest, FinalizeOutcome,
  FinalizeResult, OutcomeEntry,
}
use gitops_reverser.Git.Pending.{
  PendingWrite, GitError, CycleRoot, Backend, ResyncRequest, build_grouped_pending_write,
}
use gitops_reverser.Git.Commit.{Committed, commit_pending_writes}
use gitops_reverser.Git.Push.{Pushed, push_pending_commits}

-- nanoseconds
abbrev pub second : ℕ
second = 1000000000

unfoldable pub push_cooldown : ℕ
push_cooldown = 5 * second

unfoldable pub commit_request_outcome_ttl : ℕ
commit_request_outcome_ttl = 15 * 60 * second

-- what a resync replies: the error, if any; the counts are those of the backend
pub record ResyncReply : Type 0 where
  pub result : ℕ
  pub err : Option GitError

pub record Loop (Object Desired W : Type 0) : Type 0 where
  pub commit_window : ℕ
  pub open_window : Option (OpenWindow Object)
  pub window_bytes : ℕ
  pub pending_writes : List (PendingWrite Object Desired)
  pub pending_writes_bytes : ℕ
  pub last_push_at : Option ℕ
  pub commit_timer : Option ℕ
  pub push_timer : Option ℕ
  pub attach_timer : Option ℕ
  pub deferred_heals : List (ResyncRequest Desired)
  pub pending_crs : Table CommitRequestId PendingCommitRequest
  -- of the worker
  pub cr_outcomes : Table CommitRequestId OutcomeEntry
  pub root : CycleRoot
  pub gate : Option Gate
  pub world : W
  -- what left the loop: replies to resyncs, and refusals reported for targets, by namespace and
  -- name
  pub replies : List ResyncReply
  pub refusals : List (String × String)

-- `for k, entry := range` with the deletion of the stale ones
unfoldable pub fresh_outcomes :
    ℕ → Table CommitRequestId OutcomeEntry → Table CommitRequestId OutcomeEntry
fresh_outcomes now [] = []
fresh_outcomes now ((k, entry) ∷ m) =
    let rest = fresh_outcomes now m in
    if ltb commit_request_outcome_ttl (now - entry.resolved_at) then rest else (k, entry) ∷ rest

unfoldable pub record_commit_request_outcome :
    CommitRequestId
    → FinalizeResult
    → ℕ
    → Table CommitRequestId OutcomeEntry
    → Table CommitRequestId OutcomeEntry
unfolding fresh_outcomes
record_commit_request_outcome id result now m =
    fresh_outcomes now (put id (record { result = result; resolved_at = now }) m)

module _ {Object Desired W : Type 0} (b : Backend Object Desired W) where
  unfoldable pub normal_writes_allowed : String → String → Loop Object Desired W → Bool
  normal_writes_allowed name namespace l = elim l.gate [
    | none ↦ true
    | some g ↦
        if name == "" || namespace == ""
        then true
        else allows_writes (new_resource_reference name namespace) g
  ]

  -- the loop after it reported the refusal, if the error is one; only a refusal of a named target
  -- is handed to the reporter
  unfoldable pub report_path_refusal :
      GitError → String → String → Loop Object Desired W → Loop Object Desired W
  report_path_refusal err name namespace l =
      if not err.is_refusal
      then l
      else if name == "" || namespace == ""
      then l
      else record l { refusals = l.refusals ++ ((namespace, name) ∷ []) }

  unfoldable pub resolve_commit_request :
      CommitRequestId → FinalizeResult → ℕ → Loop Object Desired W → Loop Object Desired W
  unfolding record_commit_request_outcome
  resolve_commit_request id result now l =
      let with_branch : FinalizeResult =
        if result.branch == "" then record result { branch = b.branch } else result in
      record l {
        cr_outcomes = record_commit_request_outcome id with_branch now l.cr_outcomes;
        pending_crs = remove id l.pending_crs;
      }

  abbrev pub outcome : FinalizeOutcome → FinalizeResult
  outcome o = record { outcome = some o; sha = ""; branch = ""; err = none }

  abbrev pub resolve_if_claimed :
      Option CommitRequestId → FinalizeResult → ℕ → Loop Object Desired W → Loop Object Desired W
  resolve_if_claimed none result now l = l
  resolve_if_claimed (some id) result now l = resolve_commit_request id result now l

  unfoldable pub drop_open_window :
      Option CommitRequestId → String → ℕ → Loop Object Desired W → Loop Object Desired W
  drop_open_window pending_cr cause now l =
      resolve_if_claimed pending_cr
        (record { outcome = none; sha = ""; branch = b.branch; err = some cause }) now
        (record l { open_window = none; window_bytes = 0 })

  -- one write that a push carried
  abbrev pub resolve_pushed :
      PendingWrite Object Desired → ℕ → Loop Object Desired W → Loop Object Desired W
  resolve_pushed pw now l = both pw.commit_request pw.commit_sha
    where
      both : Option CommitRequestId → Option String → Loop Object Desired W
      both (some id) (some sha) =
          resolve_commit_request id
            (record {
              outcome = some FinalizeOutcome.committed;
              sha = sha;
              branch = b.branch;
              err = none;
            })
            now l
      both id sha = l

  unfoldable pub resolve_pushed_commit_requests :
      List (PendingWrite Object Desired) → ℕ → Loop Object Desired W → Loop Object Desired W
  unfolding resolve_commit_request
  resolve_pushed_commit_requests [] now l = l
  resolve_pushed_commit_requests (pw ∷ pws) now l =
      resolve_pushed_commit_requests pws now (resolve_pushed pw now l)

  unfoldable pub push_pending : ℕ → Loop Object Desired W → Loop Object Desired W
  push_pending now l =
      if is_empty l.pending_writes
      then record l { push_timer = none }
      else after (push_pending_commits b l.pending_writes l.root l.world)
    where
      after : Pushed b → Loop Object Desired W
      after p = by_error p.error
        where
          carried : Loop Object Desired W
          carried = record l { pending_writes = p.writes; root = p.root; world = p.world }

          by_error : Option GitError → Loop Object Desired W
          by_error (some err) = record carried { push_timer = none }
          by_error none = record (resolve_pushed_commit_requests p.writes now carried) {
            pending_writes = [];
            pending_writes_bytes = 0;
            last_push_at = some now;
            push_timer = none;
          }

  unfoldable pub maybe_schedule_push : ℕ → Loop Object Desired W → Loop Object Desired W
  unfolding push_pending
  maybe_schedule_push now l = if is_empty l.pending_writes then l else by_last l.last_push_at
    where
      by_last : Option ℕ → Loop Object Desired W
      by_last none = push_pending now l
      by_last (some last) =
          let elapsed = now - last in
          if leb push_cooldown elapsed
          then push_pending now l
          else if is_none l.push_timer
          then record l { push_timer = some (now + (push_cooldown - elapsed)) }
          else l

  -- the commit of the window's events with the message, the target and the request given
  abbrev pub commit_window_write :
      ℕ
      → OpenWindow Object
      → PendingWrite Object Desired
      → Loop Object Desired W
      → Loop Object Desired W × Bool
  commit_window_write now w pw l =
      committed (commit_pending_writes b (pw ∷ []) (not (is_empty l.pending_writes)) l.root l.world)
    where
      retained : PendingWrite Object Desired → Loop Object Desired W → Loop Object Desired W
      retained q l = record l {
        pending_writes = l.pending_writes ++ (q ∷ []);
        pending_writes_bytes = l.pending_writes_bytes + q.byte_size;
        open_window = none;
        window_bytes = 0;
      }

      claimed :
          PendingWrite Object Desired
          → Option CommitRequestId
          → Loop Object Desired W
          → Loop Object Desired W
      claimed q none l = retained q l
      claimed q (some id) l =
          if is_none q.commit_sha
          then resolve_commit_request id (outcome FinalizeOutcome.already_present) now
              (retained (record q { commit_request = none }) l)
          else record (retained q l) { pending_crs = remove id l.pending_crs }

      by_result :
          Option GitError
          → List (PendingWrite Object Desired)
          → Loop Object Desired W
          → Loop Object Desired W × Bool
      by_result (some err) qs l = (
        drop_open_window w.pending_cr (concat_text ("commit failed: " ∷ err.text ∷ [])) now
            (report_path_refusal err w.git_target w.git_target_namespace l),
        false,
      )
      by_result none [] l = (l, false)
      by_result none (q ∷ qs) l = (claimed q w.pending_cr l, true)

      committed : Committed b → Loop Object Desired W × Bool
      committed c = by_result c.error c.writes (record l { root = c.root; world = c.world })

  -- whether the window was closed into a pending write; the reason is only logged
  unfoldable pub finalize_open_window_with_message :
      String → ℕ → Loop Object Desired W → Loop Object Desired W × Bool
  unfolding drop_open_window report_path_refusal resolve_commit_request
  finalize_open_window_with_message message now l = with_window l.open_window
    where
      stopped : Loop Object Desired W
      stopped = record l { commit_timer = none }

      effective : OpenWindow Object → String
      effective w = if message == "" then w.pending_message else message

      built :
          OpenWindow Object
          → Result GitError (PendingWrite Object Desired)
          → Loop Object Desired W × Bool
      built w (failed err) = (
        drop_open_window w.pending_cr (concat_text ("build pending write: " ∷ err.text ∷ [])) now
            stopped,
        false,
      )
      built w (ok pw) =
          commit_window_write now w
            (record pw { commit_message = effective w; commit_request = w.pending_cr }) stopped

      with_window : Option (OpenWindow Object) → Loop Object Desired W × Bool
      with_window none = (l, false)
      with_window (some w) =
          if not (normal_writes_allowed w.git_target w.git_target_namespace stopped)
          then (drop_open_window w.pending_cr "render fidelity gate is closed" now stopped, false)
          else built w (build_grouped_pending_write b (ordered_events w) stopped.world)

  unfoldable pub finalize_open_window : ℕ → Loop Object Desired W → Loop Object Desired W × Bool
  unfolding finalize_open_window_with_message
  finalize_open_window now l = finalize_open_window_with_message "" now l
