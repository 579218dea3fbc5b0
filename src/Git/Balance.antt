-- ===== src/Git/Balance.antt =====
-- Every wake of the event loop keeps the account of the retained bytes.
use gitops_reverser.Base.{
  ℕ, ◌+◌, ◌≡◌, refl, ◌∙◌, Bool, true, false, not, Option, none, List, [], ◌∷◌, ◌++◌, String, arith,
  inl, inr, nat_eq,
}
use gitops_reverser.Base.Result.{Result-cases}
use gitops_reverser.Base.Table.{is_empty}
use gitops_reverser.Paths.Identifier.{SensitiveResourcePolicy}
use gitops_reverser.Git.Gate.{Gate}
use gitops_reverser.Git.Pending.{
  PendingWrite, Backend, ResyncRequest, ResyncScope, WriteRequest, build_resync_pending_write,
  build_atomic_pending_write,
}
use gitops_reverser.Git.Commit.{Committed, commit_pending_writes}
use gitops_reverser.Git.Worker.{Loop, report_path_refusal, finalize_open_window}
use gitops_reverser.Git.Resyncs.{
  apply_resync, apply_settled_resync, stash_deferred_heal, apply_each, apply_deferred_heals,
  handle_resync_request,
}
use gitops_reverser.Git.Loop.{
  apply_settled_atomic, WorkItem, handle_queue_item, Wake, wake, Reach,
  new_branch_worker_event_loop,
}
use gitops_reverser.Git.Frames.{rest_of}
use gitops_reverser.Git.Walk.{
  IsKept, handle_item_keeps, item_wake_keeps, timer_wake_keeps, is_resync, is_item,
}
use gitops_reverser.Git.Accounts.{
  is_accounted, total-ledger-append, head_or, push_pending-is_accounted,
  maybe_schedule_push-is_accounted, finalize-is_accounted,
}

module _ {Object Desired W : Type 0} (b : Backend Object Desired W)
    (gvr_string : ResyncScope → String) (policy : SensitiveResourcePolicy) (now : ℕ) where
  abbrev retain : PendingWrite Object Desired → Loop Object Desired W → Loop Object Desired W
  retain q l = record l {
    pending_writes = l.pending_writes ++ (q ∷ []);
    pending_writes_bytes = l.pending_writes_bytes + q.byte_size;
  }

  retain-is_accounted :
      (q : PendingWrite Object Desired) (l : Loop Object Desired W)
      → is_accounted l ≡ true
      → is_accounted (retain q l) ≡ true
  unfolding is_accounted
  retain-is_accounted q l h = ground (arith, h, total-ledger-append l.pending_writes q)

  settled-is_accounted :
      (req : ResyncRequest Desired) (closed : Bool) (l : Loop Object Desired W)
      → is_accounted l ≡ true
      → is_accounted (apply_settled_resync b gvr_string req now closed l) ≡ true
  unfolding is_accounted apply_settled_resync
  settled-is_accounted req closed l h =
      elim (Result-cases (build_resync_pending_write b req l.world)) [
        | inl (err, bad) ↦ ground (arith, h, bad)
        | inr (pw, good) ↦
            let c : Committed b =
              commit_pending_writes b (pw ∷ []) (not (is_empty l.pending_writes)) l.root l.world in
            let l2 : Loop Object Desired W = record l { root = c.root; world = c.world } in
            let q = head_or b pw c.writes in
            ground (
              arith,
              h,
              good,
              retain-is_accounted q l2,
              maybe_schedule_push-is_accounted b now l2,
              maybe_schedule_push-is_accounted b now (retain q l2),
            )
      ]

  apply_resync-is_accounted :
      (req : ResyncRequest Desired) (l : Loop Object Desired W)
      → is_accounted l ≡ true
      → is_accounted (apply_resync b gvr_string req now l) ≡ true
  unfolding apply_resync
  apply_resync-is_accounted req l h = ground (
    arith,
    finalize-is_accounted b now l h,
    settled-is_accounted req false l h,
    settled-is_accounted req ((finalize_open_window b now l).1) ((finalize_open_window b now l).0),
  )

  apply_each-is_accounted :
      (reqs : List (ResyncRequest Desired)) (l : Loop Object Desired W)
      → is_accounted l ≡ true
      → is_accounted (apply_each b gvr_string reqs now l) ≡ true
  unfolding apply_each
  apply_each-is_accounted [] l h = h
  apply_each-is_accounted (req ∷ reqs) l h =
      apply_each-is_accounted reqs (apply_resync b gvr_string req now l)
        (apply_resync-is_accounted req l h)

  heals-is_accounted :
      (l : Loop Object Desired W)
      → is_accounted l ≡ true
      → is_accounted (apply_deferred_heals b gvr_string now l) ≡ true
  unfolding apply_deferred_heals
  heals-is_accounted l h = ground (
    arith,
    h,
    apply_each-is_accounted l.deferred_heals (record l { deferred_heals = [] })
        (unfold is_accounted in h),
  )

  stash-is_accounted :
      (req : ResyncRequest Desired) (l : Loop Object Desired W)
      → is_accounted l ≡ true
      → is_accounted (stash_deferred_heal b gvr_string req l) ≡ true
  unfolding is_accounted stash_deferred_heal
  stash-is_accounted req l h = ground (arith, h)

  settled_atomic-is_accounted :
      (req : WriteRequest Object) (l : Loop Object Desired W)
      → is_accounted l ≡ true
      → is_accounted (apply_settled_atomic b gvr_string policy req now l) ≡ true
  unfolding is_accounted apply_settled_atomic report_path_refusal
  settled_atomic-is_accounted req l h =
      elim (Result-cases (build_atomic_pending_write b req l.world)) [
        | inl (err, bad) ↦ ground (arith, h, bad)
        | inr (pw, good) ↦
            let c : Committed b =
              commit_pending_writes b (pw ∷ []) (not (is_empty l.pending_writes)) l.root l.world in
            let l2 : Loop Object Desired W = record l { root = c.root; world = c.world } in
            ground (
              arith,
              h,
              good,
              retain-is_accounted pw l2,
              maybe_schedule_push-is_accounted b now (retain pw l2),
            )
      ]

  is_accounted_kept : IsKept b gvr_string policy now (λ l. is_accounted l ≡ true)
  is_accounted_kept = record {
    same_rest = same;
    finalized = λ l h. finalize-is_accounted b now l h;
    scheduled = λ l h. maybe_schedule_push-is_accounted b now l h;
    healed = heals-is_accounted;
    wrote = settled_atomic-is_accounted;
    opened = λ w n l h. unfold is_accounted in ground (arith, h);
  }
    where
      same :
          (l m : Loop Object Desired W)
          → rest_of m ≡ rest_of l
          → is_accounted l ≡ true
          → is_accounted m ≡ true
      same l m e h = unfold is_accounted in ground (arith, e, h)

  resync-is_accounted :
      (req : ResyncRequest Desired) (l : Loop Object Desired W)
      → is_accounted l ≡ true
      → is_accounted (handle_resync_request b gvr_string req now l) ≡ true
  unfolding handle_resync_request
  resync-is_accounted req l h =
      ground (arith, apply_resync-is_accounted req l h, stash-is_accounted req l h)

  wake-is_accounted :
      (cause : Wake b gvr_string policy) (l : Loop Object Desired W)
      → is_accounted l ≡ true
      → is_accounted (wake b gvr_string policy cause now l) ≡ true
  wake-is_accounted (Wake.item (WorkItem.resync req)) l h =
      item_wake_keeps b gvr_string policy now _ is_accounted_kept (WorkItem.resync req) l
        (unfold handle_queue_item in resync-is_accounted req l h)
  wake-is_accounted (Wake.item (WorkItem.request req)) l h =
      item_wake_keeps b gvr_string policy now _ is_accounted_kept (WorkItem.request req) l (
        handle_item_keeps b gvr_string policy now _ is_accounted_kept (WorkItem.request req) l
          (unfold is_resync in refl) h)
  wake-is_accounted (Wake.item (WorkItem.attach req)) l h =
      item_wake_keeps b gvr_string policy now _ is_accounted_kept (WorkItem.attach req) l (
        handle_item_keeps b gvr_string policy now _ is_accounted_kept (WorkItem.attach req) l
          (unfold is_resync in refl) h)
  wake-is_accounted cause l h =
      timer_wake_keeps b gvr_string policy now _ is_accounted_kept cause l (unfold is_item in refl)
        h
        (λ e.
          push_pending-is_accounted b now (record l { push_timer = none })
            (unfold is_accounted in h))

reset-is_accounted :
    {Object Desired W : Type 0} (l : Loop Object Desired W) (gate : Option Gate) (world : W)
    → is_accounted (record l { gate = gate; world = world }) ≡ is_accounted l
unfolding is_accounted
reset-is_accounted l gate world = refl

-- In every state that the event loop reaches, whatever the backend does, the retained bytes are the
-- sum over the pending writes, and no bytes are counted for a window that is not open.
pub Reach-is_accounted :
    {Object Desired W : Type 0} (b : Backend Object Desired W) (gvr_string : ResyncScope → String)
    (policy : SensitiveResourcePolicy) (t : ℕ) (l : Loop Object Desired W)
    → Reach b gvr_string policy t l
    → is_accounted l ≡ true
unfolding new_branch_worker_event_loop
Reach-is_accounted b gvr_string policy t l (Reach.start cw gate world) = unfold is_accounted in refl
Reach-is_accounted b gvr_string policy t l (Reach.woken r cause now le due) =
    wake-is_accounted b gvr_string policy now cause _ (Reach-is_accounted b gvr_string policy _ _ r)
Reach-is_accounted b gvr_string policy t l (Reach.gated {l = l2} r gate) =
    reset-is_accounted l2 gate l2.world ∙ Reach-is_accounted b gvr_string policy _ _ r
Reach-is_accounted b gvr_string policy t l (Reach.changed {l = l2} r world) =
    reset-is_accounted l2 l2.gate world ∙ Reach-is_accounted b gvr_string policy _ _ r
