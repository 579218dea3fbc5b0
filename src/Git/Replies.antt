-- ===== src/Git/Replies.antt =====
-- Every resync that reaches the event loop is answered once, or parked until it is.
use gitops_reverser.Base.{
  ℕ, ◌+◌, ◌≡◌, refl, ◌∙◌, Bool, false, not, Option, none, some, List, [], ◌∷◌, ◌++◌, ◌==◌, String,
  if◌then◌else◌, arith, Option-cases, inl, inr, nat_eq,
}
use gitops_reverser.Base.Result.{Result-cases}
use gitops_reverser.Base.Table.{is_empty}
use gitops_reverser.Base.Text.{concat_text}
use gitops_reverser.Paths.Identifier.{SensitiveResourcePolicy}
use gitops_reverser.Git.Model.{OpenWindow, CommitRequestId, ordered_events}
use gitops_reverser.Git.Pending.{
  PendingWrite, Backend, ResyncRequest, ResyncScope, WriteRequest, build_resync_pending_write,
  build_atomic_pending_write, build_grouped_pending_write,
}
use gitops_reverser.Git.Commit.{Committed, commit_pending_writes}
use gitops_reverser.Git.Push.{Pushed, push_pending_commits}
use gitops_reverser.Git.Ledger.{ledger-commit_pending_writes}
use gitops_reverser.Git.Accounts.{head_or}
use gitops_reverser.Git.Frames.{rest-resolve_pushed}
use gitops_reverser.Git.Worker.{
  Loop, ResyncReply, report_path_refusal, push_pending, maybe_schedule_push, commit_window_write,
  finalize_open_window, resolve_commit_request, drop_open_window,
}
use gitops_reverser.Git.Resyncs.{
  apply_resync, apply_settled_resync, stash_deferred_heal, park_heal, apply_each,
  apply_deferred_heals, handle_resync_request,
}
use gitops_reverser.Git.Loop.{handle_queue_item, apply_settled_atomic, WorkItem, Wake, wake}
use gitops_reverser.Git.Walk.{
  IsKept, handle_item_keeps, item_wake_keeps, timer_wake_keeps, is_resync, is_item,
}

abbrev pub one_if : Bool → ℕ
one_if b = if b then 1 else 0

unfoldable pub replied : ℕ → List ResyncReply → ℕ
replied k [] = 0
replied k (r ∷ rs) = one_if (r.result == k) + replied k rs

module _ {Desired : Type 0} where
  unfoldable pub parked : ℕ → List (ResyncRequest Desired) → ℕ
  parked k [] = 0
  parked k (r ∷ rs) = one_if (r.result == k) + parked k rs

module _ {Object Desired W : Type 0} where
  -- how often a request's channel was replied to, or waits among the parked heals
  unfoldable pub tally : ℕ → Loop Object Desired W → ℕ
  tally k l = replied k l.replies + parked k l.deferred_heals

  abbrev parcel : Loop Object Desired W → List ResyncReply × List (ResyncRequest Desired)
  parcel l = (l.replies, l.deferred_heals)

replied-append :
    (k : ℕ) (rs : List ResyncReply) (r : ResyncReply)
    → replied k (rs ++ (r ∷ [])) ≡ replied k rs + one_if (r.result == k)
unfolding replied
replied-append k [] r = ground arith
replied-append k (x ∷ rs) r = ground (arith, replied-append k rs r)

module _ {Object Desired W : Type 0} (b : Backend Object Desired W) (now : ℕ) where
  parcel-drop :
      (cr : Option CommitRequestId) (cause : String) (l : Loop Object Desired W)
      → parcel (drop_open_window b cr cause now l) ≡ parcel l
  unfolding drop_open_window resolve_commit_request
  parcel-drop cr cause l = ground arith

  parcel-write :
      (w : OpenWindow Object) (pw : PendingWrite Object Desired) (l : Loop Object Desired W)
      → parcel ((commit_window_write b now w pw l).0) ≡ parcel l
  unfolding drop_open_window resolve_commit_request report_path_refusal
  parcel-write w pw l = ground arith

  parcel-push : (l : Loop Object Desired W) → parcel (push_pending b now l) ≡ parcel l
  unfolding push_pending
  parcel-push l =
      let p : Pushed b = push_pending_commits b l.pending_writes l.root l.world in
      ground (
        arith,
        rest-resolve_pushed b p.writes now
            (record l { pending_writes = p.writes; root = p.root; world = p.world }),
      )

  parcel-schedule : (l : Loop Object Desired W) → parcel (maybe_schedule_push b now l) ≡ parcel l
  unfolding maybe_schedule_push
  parcel-schedule l = ground (arith, parcel-push l)

  parcel-finalize :
      (l : Loop Object Desired W) → parcel ((finalize_open_window b now l).0) ≡ parcel l
  unfolding finalize_open_window
  parcel-finalize l = elim (Option-cases l.open_window) [
    | inl closed ↦ ground (arith, closed)
    | inr (w, opened) ↦ with_window w opened
  ]
    where
      l2 : Loop Object Desired W
      l2 = record l { commit_timer = none }

      with_window :
          (w : OpenWindow Object)
          → l.open_window ≡ some w
          → parcel ((finalize_open_window b now l).0) ≡ parcel l
      with_window w opened =
          elim (Result-cases (build_grouped_pending_write b (ordered_events w) l2.world)) [
            | inl (err, bad) ↦ ground (
              arith,
              opened,
              bad,
              parcel-drop w.pending_cr "render fidelity gate is closed" l2,
              parcel-drop w.pending_cr (concat_text ("build pending write: " ∷ err.text ∷ [])) l2,
            )
            | inr (pw, good) ↦ ground (
              arith,
              opened,
              good,
              parcel-drop w.pending_cr "render fidelity gate is closed" l2,
              parcel-write w
                  (record pw { commit_message = w.pending_message; commit_request = w.pending_cr })
                  l2,
            )
          ]

module _ {Object Desired W : Type 0} (b : Backend Object Desired W)
    (gvr_string : ResyncScope → String) (policy : SensitiveResourcePolicy) (now : ℕ) (k : ℕ) where
  abbrev is_for : ResyncRequest Desired → ℕ
  is_for req = one_if (req.result == k)

  tally_of_parcel : (l m : Loop Object Desired W) → parcel m ≡ parcel l → tally k m ≡ tally k l
  unfolding tally
  tally_of_parcel l m e = ground (arith, e)

  tally-settled :
      (req : ResyncRequest Desired) (closed : Bool) (l : Loop Object Desired W)
      → tally k (apply_settled_resync b gvr_string req now closed l) ≡ tally k l + is_for req
  unfolding tally apply_settled_resync
  tally-settled req closed l = elim (Result-cases (build_resync_pending_write b req l.world)) [
    | inl (err, bad) ↦
        ground
          (arith, bad, replied-append k l.replies (record { result = req.result; err = some err }))
    | inr (pw, good) ↦
        let c : Committed b =
          commit_pending_writes b (pw ∷ []) (not (is_empty l.pending_writes)) l.root l.world in
        let l2 : Loop Object Desired W = record l { root = c.root; world = c.world } in
        let q = head_or b pw c.writes in
        ground (
          arith,
          good,
          ledger-commit_pending_writes b (pw ∷ []) (not (is_empty l.pending_writes)) l.root l.world,
          replied-append k l.replies (record { result = req.result; err = c.error }),
          parcel-schedule b now l2,
          parcel-schedule b now (record l2 {
            pending_writes = l2.pending_writes ++ (q ∷ []);
            pending_writes_bytes = l2.pending_writes_bytes + q.byte_size;
          }),
        )
  ]

  tally-apply_resync :
      (req : ResyncRequest Desired) (l : Loop Object Desired W)
      → tally k (apply_resync b gvr_string req now l) ≡ tally k l + is_for req
  unfolding apply_resync
  tally-apply_resync req l =
      let settled : Loop Object Desired W × Bool = finalize_open_window b now l in
      ground (
        arith,
        tally-settled req false l,
        tally-settled req (settled.1) (settled.0),
        tally_of_parcel l (settled.0) (parcel-finalize b now l),
      )

  tally-apply_each :
      (reqs : List (ResyncRequest Desired)) (l : Loop Object Desired W)
      → tally k (apply_each b gvr_string reqs now l) ≡ tally k l + parked k reqs
  unfolding apply_each parked
  tally-apply_each [] l = ground arith
  tally-apply_each (req ∷ reqs) l =
      ground (
        arith,
        tally-apply_each reqs (apply_resync b gvr_string req now l),
        tally-apply_resync req l,
      )

  tally-heals :
      (l : Loop Object Desired W) → tally k (apply_deferred_heals b gvr_string now l) ≡ tally k l
  unfolding apply_deferred_heals
  tally-heals l =
      ground (arith, tally-apply_each l.deferred_heals (record l { deferred_heals = [] }), moved)
    where
      moved : tally k (record l { deferred_heals = [] }) + parked k l.deferred_heals ≡ tally k l
      moved = unfold tally in unfold parked in omega arith

  parked-park_heal :
      (req : ResyncRequest Desired) (heals : List (ResyncRequest Desired))
      → parked k ((park_heal b gvr_string req heals).1)
          + (elim (park_heal b gvr_string req heals).0 [ none ↦ 0 | some old ↦ is_for old ])
        ≡ parked k heals + is_for req
  unfolding parked park_heal
  parked-park_heal req [] = ground arith
  parked-park_heal req (r ∷ rs) = ground (arith, parked-park_heal req rs)

  tally-stash :
      (req : ResyncRequest Desired) (l : Loop Object Desired W)
      → tally k (stash_deferred_heal b gvr_string req l) ≡ tally k l + is_for req
  unfolding tally stash_deferred_heal
  tally-stash req l = elim (Option-cases ((park_heal b gvr_string req l.deferred_heals).0)) [
    | inl fresh ↦ ground (arith, fresh, parked-park_heal req l.deferred_heals)
    | inr (old, replaced) ↦ ground (
      arith,
      replaced,
      parked-park_heal req l.deferred_heals,
      replied-append k l.replies (record { result = old.result; err = none }),
    )
  ]

  tally-resync :
      (req : ResyncRequest Desired) (l : Loop Object Desired W)
      → tally k (handle_resync_request b gvr_string req now l) ≡ tally k l + is_for req
  unfolding handle_resync_request
  tally-resync req l = ground (arith, tally-apply_resync req l, tally-stash req l)

  parcel-settled_atomic :
      (req : WriteRequest Object) (l : Loop Object Desired W)
      → parcel (apply_settled_atomic b gvr_string policy req now l) ≡ parcel l
  unfolding apply_settled_atomic report_path_refusal
  parcel-settled_atomic req l = elim (Result-cases (build_atomic_pending_write b req l.world)) [
    | inl (err, bad) ↦ ground (arith, bad)
    | inr (pw, good) ↦
        let c : Committed b =
          commit_pending_writes b (pw ∷ []) (not (is_empty l.pending_writes)) l.root l.world in
        let l2 : Loop Object Desired W = record l { root = c.root; world = c.world } in
        ground (
          arith,
          good,
          parcel-schedule b now (record l2 {
            pending_writes = l2.pending_writes ++ (pw ∷ []);
            pending_writes_bytes = l2.pending_writes_bytes + pw.byte_size;
          }),
        )
  ]

  tally_kept : (n : ℕ) → IsKept b gvr_string policy now (λ l. tally k l ≡ n)
  tally_kept n = record {
    same_rest = λ l m e h. tally_of_parcel l m (ground (arith, e)) ∙ h;
    finalized = λ l h. tally_of_parcel l _ (parcel-finalize b now l) ∙ h;
    scheduled = λ l h. tally_of_parcel l _ (parcel-schedule b now l) ∙ h;
    healed = λ l h. tally-heals l ∙ h;
    wrote = λ req l h. tally_of_parcel l _ (parcel-settled_atomic req l) ∙ h;
    opened = λ w n l h. tally_of_parcel l _ refl ∙ h;
  }

  -- the requests under the channel that a wake submits
  unfoldable pub submitted : Wake b gvr_string policy → ℕ
  submitted (Wake.item (WorkItem.resync req)) = is_for req
  submitted cause = 0

  -- Whatever wakes the loop and whatever the backend does, the replies to a resync's channel and
  -- the parked heals that wait for it together grow by exactly the resyncs that the wake submits
  -- under it.
  pub tally-wake :
      (cause : Wake b gvr_string policy) (l : Loop Object Desired W)
      → tally k (wake b gvr_string policy cause now l) ≡ tally k l + submitted cause
  unfolding submitted
  tally-wake (Wake.item (WorkItem.resync req)) l =
      item_wake_keeps b gvr_string policy now _ (tally_kept (tally k l + is_for req))
        (WorkItem.resync req) l (unfold handle_queue_item in tally-resync req l)
  tally-wake (Wake.item (WorkItem.request req)) l =
      item_wake_keeps b gvr_string policy now _ (tally_kept (tally k l + 0)) (WorkItem.request req)
        l
        (handle_item_keeps b gvr_string policy now _ (tally_kept (tally k l + 0))
          (WorkItem.request req) l (unfold is_resync in refl) (omega arith))
  tally-wake (Wake.item (WorkItem.attach req)) l =
      item_wake_keeps b gvr_string policy now _ (tally_kept (tally k l + 0)) (WorkItem.attach req) l
        (handle_item_keeps b gvr_string policy now _ (tally_kept (tally k l + 0))
          (WorkItem.attach req) l (unfold is_resync in refl) (omega arith))
  tally-wake cause l =
      timer_wake_keeps b gvr_string policy now _ (tally_kept (tally k l + 0)) cause l
        (unfold is_item in refl) (omega arith)
        (λ e.
          tally_of_parcel l _ (parcel-push b now (record l { push_timer = none })) ∙ omega arith)
