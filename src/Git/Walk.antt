-- ===== src/Git/Walk.antt =====
-- What every wake of the event loop keeps, if its parts keep it: each handler taken apart once.
use gitops_reverser.Base.{
  ℕ, ◌+◌, ◌≡◌, refl, sym, Bool, true, false, not, ◌&&◌, ◌||◌, none, some, List, [], ◌∷◌, String,
  if◌then◌else◌, arith, Option-cases, inl, inr, is_some, leb, nat_eq, ◌==◌,
}
use mathlib.Core.Path.{subst}
use gitops_reverser.Base.Table.{is_empty, has}
use gitops_reverser.Paths.Identifier.{SensitiveResourcePolicy}
use gitops_reverser.Git.Model.{
  Event, OpenWindow, CommitRequestId, can_append, add, AttachCommitRequest, request_id,
  PendingCommitRequest, FinalizeOutcome, request_eq,
}
use gitops_reverser.Git.Pending.{
  Backend, ResyncRequest, ResyncScope, WriteRequest, CommitMode, estimate_event_size,
}
use gitops_reverser.Git.Frames.{rest_of}
use gitops_reverser.Git.Worker.{
  Loop, normal_writes_allowed, push_pending, maybe_schedule_push, finalize_open_window,
  resolve_commit_request, outcome,
}
use gitops_reverser.Git.Requests.{
  handle_attach_commit_request, attach_waiting_commit_requests, process_due, process_each_due,
  claims, process_due_commit_requests, service_commit_requests, rearm_attach_timer, earliest,
  due_requests, oldest_match, attach_to_open_window,
}
use gitops_reverser.Git.Resyncs.{apply_deferred_heals}
use gitops_reverser.Git.Loop.{
  apply_settled_atomic, handle_atomic_request, close_window, limit_window, window_or_new, add_event,
  handle_event, handle_events, WorkItem, handle_queue_item, Wake, wake, atomic_refusal_target,
}

module _ {Object Desired W : Type 0} (b : Backend Object Desired W)
    (gvr_string : ResyncScope → String) (policy : SensitiveResourcePolicy) (now : ℕ) where
  -- a predicate that the parts of the handlers keep, resyncs and the push timer aside
  pub record IsKept (P : Loop Object Desired W → Type 0) : Type 0 where
    pub same_rest : (l m : Loop Object Desired W) → rest_of m ≡ rest_of l → P l → P m
    pub finalized : (l : Loop Object Desired W) → P l → P ((finalize_open_window b now l).0)
    pub scheduled : (l : Loop Object Desired W) → P l → P (maybe_schedule_push b now l)
    pub healed : (l : Loop Object Desired W) → P l → P (apply_deferred_heals b gvr_string now l)
    pub wrote :
        (req : WriteRequest Object) (l : Loop Object Desired W)
        → P l
        → P (apply_settled_atomic b gvr_string policy req now l)
    pub opened :
        (w : OpenWindow Object) (n : ℕ) (l : Loop Object Desired W)
        → P l
        → P (record l { open_window = some w; window_bytes = n })

module _ {Object Desired W : Type 0} (b : Backend Object Desired W)
    (gvr_string : ResyncScope → String) (policy : SensitiveResourcePolicy) (now : ℕ)
    (P : Loop Object Desired W → Type 0) (k : IsKept b gvr_string policy now P) where
  closed_keeps : (l : Loop Object Desired W) → P l → P (close_window b gvr_string policy now l)
  unfolding close_window
  closed_keeps l h = k.scheduled ((finalize_open_window b now l).0) (k.finalized l h)

  atomic_keeps :
      (req : WriteRequest Object) (l : Loop Object Desired W)
      → P l
      → P (handle_atomic_request b gvr_string policy req now l)
  unfolding handle_atomic_request
  atomic_keeps req l h =
      k.wrote req (apply_deferred_heals b gvr_string now ((finalize_open_window b now l).0))
        (k.healed ((finalize_open_window b now l).0) (k.finalized l h))

  if_keeps : (c : Bool) (l m : Loop Object Desired W) → P l → P m → P (if c then l else m)
  if_keeps true l m h g = h
  if_keeps false l m h g = g

  limit_keeps : (l : Loop Object Desired W) → P l → P (limit_window b gvr_string policy now l)
  unfolding limit_window
  limit_keeps l h =
      if_keeps (leb b.max_bytes (l.window_bytes + l.pending_writes_bytes) || l.commit_window == 0)
        (close_window b gvr_string policy now l)
        (record l { commit_timer = some (now + l.commit_window) }) (closed_keeps l h)
        (k.same_rest l (record l { commit_timer = some (now + l.commit_window) }) refl h)

  add_event_keeps :
      (e : Event Object) (l : Loop Object Desired W)
      → P l
      → P (add_event b gvr_string policy e now l)
  unfolding add_event
  add_event_keeps e l h = limit_keeps _ (
      k.opened (add policy e (window_or_new b gvr_string policy e l.open_window))
        (l.window_bytes + estimate_event_size b e) l h)

  handle_event_keeps :
      (e : Event Object) (l : Loop Object Desired W)
      → P l
      → P (handle_event b gvr_string policy e now l)
  unfolding handle_event
  handle_event_keeps e l h =
      let l2 : Loop Object Desired W = close_window b gvr_string policy now l in
      let l3 : Loop Object Desired W = apply_deferred_heals b gvr_string now l2 in
      if_keeps (not (normal_writes_allowed b e.git_target_name e.git_target_namespace l)) l _ h (
        if_keeps (is_some l.open_window && not (can_append l.open_window e))
          (add_event b gvr_string policy e now l3) (add_event b gvr_string policy e now l)
          (add_event_keeps e l3 (k.healed l2 (closed_keeps l h))) (add_event_keeps e l h))

  handle_events_keeps :
      (es : List (Event Object)) (l : Loop Object Desired W)
      → P l
      → P (handle_events b gvr_string policy es now l)
  unfolding handle_events
  handle_events_keeps [] l h = h
  handle_events_keeps (e ∷ es) l h =
      handle_events_keeps es (handle_event b gvr_string policy e now l) (handle_event_keeps e l h)

  attach_keeps :
      (req : AttachCommitRequest) (l : Loop Object Desired W)
      → P l
      → P (handle_attach_commit_request req now l)
  unfolding handle_attach_commit_request
  attach_keeps req l h =
      if_keeps (has (request_id req) l.cr_outcomes) l _ h
        (if_keeps (has (request_id req) l.pending_crs) l _ h (k.same_rest l _ refl h))

  -- an item that is not a resync
  unfoldable pub is_resync : WorkItem b gvr_string policy → Bool
  is_resync (WorkItem.request req) = false
  is_resync (WorkItem.attach req) = false
  is_resync (WorkItem.resync req) = true

  pub handle_item_keeps :
      (i : WorkItem b gvr_string policy) (l : Loop Object Desired W)
      → is_resync i ≡ false
      → P l
      → P (handle_queue_item b gvr_string policy i now l)
  unfolding handle_queue_item is_resync normal_writes_allowed
      gitops_reverser.Git.Gate.new_resource_reference gitops_reverser.Git.Gate.allows_writes
      gitops_reverser.Git.Pending.build_atomic_pending_write
  handle_item_keeps (WorkItem.attach req) l e h = attach_keeps req l h
  handle_item_keeps (WorkItem.resync req) l e h = absurd (cc e)
  handle_item_keeps (WorkItem.request req) l e h = by_mode req.commit_mode refl
    where
      target : String × String
      target = atomic_refusal_target b gvr_string policy req

      by_mode :
          (mode : CommitMode)
          → req.commit_mode ≡ mode
          → P (handle_queue_item b gvr_string policy (WorkItem.request req) now l)
      by_mode CommitMode.atomic m =
          unfold handle_queue_item in
          rw m (
            if_keeps (not (normal_writes_allowed b (target.0) (target.1) l)) l _ h
              (atomic_keeps req l h))
      by_mode CommitMode.per_event m =
          unfold handle_queue_item in rw m (handle_events_keeps req.events l h)

  claim_keeps :
      (p : PendingCommitRequest) (w : OpenWindow Object) (l : Loop Object Desired W)
      → P l
      → P (attach_to_open_window p w l)
  unfolding attach_to_open_window
  claim_keeps p w l h =
      let w2 : OpenWindow Object = record w {
        pending_message = p.message;
        pending_cr = some p.id;
      } in
      k.same_rest (record l { open_window = some w2; window_bytes = l.window_bytes }) _ refl
        (k.opened w2 l.window_bytes l h)

  waiting_keeps : (l : Loop Object Desired W) → P l → P (attach_waiting_commit_requests l)
  waiting_keeps l h = elim (Option-cases l.open_window) [
    | inl closed ↦ subst P (sym (same_waiting closed)) h
    | inr (w, shown) ↦ elim (Option-cases (oldest_match w none l.pending_crs)) [
      | inl nobody ↦ subst P (sym (nobody_waiting w shown nobody)) h
      | inr (p, found) ↦
          subst P (sym (oldest_claims w p shown found))
            (if_keeps (is_some w.pending_cr) l _ h (claim_keeps p w l h))
    ]
  ]
    where
      same_waiting : l.open_window ≡ none → attach_waiting_commit_requests l ≡ l
      same_waiting closed = unfold attach_waiting_commit_requests in ground (arith, closed)

      nobody_waiting :
          (w : OpenWindow Object)
          → l.open_window ≡ some w
          → oldest_match w none l.pending_crs ≡ none
          → attach_waiting_commit_requests l ≡ l
      nobody_waiting w shown nobody =
          unfold attach_waiting_commit_requests in ground (arith, shown, nobody)

      oldest_claims :
          (w : OpenWindow Object) (p : PendingCommitRequest)
          → l.open_window ≡ some w
          → oldest_match w none l.pending_crs ≡ some p
          → attach_waiting_commit_requests l
            ≡ (if is_some w.pending_cr then l else attach_to_open_window p w l)
      oldest_claims w p shown found =
          unfold attach_waiting_commit_requests in ground (arith, shown, found)

  resolve_keeps :
      (id : CommitRequestId) (l : Loop Object Desired W)
      → P l
      → P (resolve_commit_request b id (outcome b FinalizeOutcome.no_open_window) now l)
  unfolding resolve_commit_request
  resolve_keeps id l h = k.same_rest l _ refl h

  due_keeps : (id : CommitRequestId) (l : Loop Object Desired W) → P l → P (process_due b now id l)
  unfolding process_due
  due_keeps id l h =
      let l2 : Loop Object Desired W =
        maybe_schedule_push b now ((finalize_open_window b now l).0) in
      let h2 : P l2 = k.scheduled ((finalize_open_window b now l).0) (k.finalized l h) in
      if_keeps (not (has id l.pending_crs)) l _ h (
        if_keeps (claims id l.open_window) _ _
          (if_keeps (has id l2.pending_crs) _ l2 (resolve_keeps id l2 h2) h2)
          (resolve_keeps id l h))

  each_due_keeps :
      (ids : List CommitRequestId) (l : Loop Object Desired W)
      → P l
      → P (process_each_due b now ids l)
  unfolding process_each_due
  each_due_keeps [] l h = h
  each_due_keeps (id ∷ ids) l h = each_due_keeps ids (process_due b now id l) (due_keeps id l h)

  rearm_keeps : (l : Loop Object Desired W) → P l → P (rearm_attach_timer now l)
  unfolding rearm_attach_timer
  rearm_keeps l h = elim (Option-cases (earliest none l.pending_crs)) [
    | inl never ↦ rw never (k.same_rest l _ refl h)
    | inr (t, found) ↦ rw found (k.same_rest l _ refl h)
  ]

  service_keeps : (l : Loop Object Desired W) → P l → P (service_commit_requests b now l)
  unfolding service_commit_requests process_due_commit_requests
  service_keeps l h =
      let l2 : Loop Object Desired W = attach_waiting_commit_requests l in
      if_keeps (is_empty l.pending_crs) _ _ (k.same_rest l _ refl h) (
        rearm_keeps (process_each_due b now (due_requests now l2.pending_crs) l2)
          (each_due_keeps (due_requests now l2.pending_crs) l2 (waiting_keeps l h)))

  -- what a wake keeps after an item is handled
  pub item_wake_keeps :
      (i : WorkItem b gvr_string policy) (l : Loop Object Desired W)
      → P (handle_queue_item b gvr_string policy i now l)
      → P (wake b gvr_string policy (Wake.item i) now l)
  unfolding wake
  item_wake_keeps i l h =
      k.healed (service_commit_requests b now (handle_queue_item b gvr_string policy i now l))
        (service_keeps (handle_queue_item b gvr_string policy i now l) h)

  -- a timer that fires
  unfoldable pub is_item : Wake b gvr_string policy → Bool
  is_item (Wake.item i) = true
  is_item Wake.commit_fires = false
  is_item Wake.push_fires = false
  is_item Wake.attach_fires = false

  unfoldable pub is_push : Wake b gvr_string policy → Bool
  is_push Wake.push_fires = true
  is_push _ = false

  pub timer_wake_keeps :
      (cause : Wake b gvr_string policy) (l : Loop Object Desired W)
      → is_item cause ≡ false
      → P l
      → (is_push cause ≡ true → P (push_pending b now (record l { push_timer = none })))
      → P (wake b gvr_string policy cause now l)
  unfolding is_item is_push wake
  timer_wake_keeps (Wake.item i) l e h pushed = absurd (cc e)
  timer_wake_keeps Wake.commit_fires l e h pushed =
      let l2 : Loop Object Desired W =
        close_window b gvr_string policy now (record l { commit_timer = none }) in
      k.healed (service_commit_requests b now l2) (
        service_keeps l2 (closed_keeps (record l { commit_timer = none }) (k.same_rest l _ refl h)))
  timer_wake_keeps Wake.push_fires l e h pushed =
      let l2 : Loop Object Desired W = push_pending b now (record l { push_timer = none }) in
      k.healed (service_commit_requests b now l2) (service_keeps l2 (pushed refl))
  timer_wake_keeps Wake.attach_fires l e h pushed =
      k.healed (service_commit_requests b now (record l { attach_timer = none }))
        (service_keeps (record l { attach_timer = none }) (k.same_rest l _ refl h))
