-- ===== src/Git/Accounts.antt =====
-- The retained bytes that the event loop counts are those of the writes that it holds.
use gitops_reverser.Base.{
  ℕ, ◌+◌, ◌≡◌, Bool, true, not, ◌&&◌, ◌||◌, Option, none, some, List, [], ◌∷◌, ◌++◌, ◌==◌, String,
  arith, Option-cases, inl, inr, is_some, nat_eq,
}
use gitops_reverser.Base.Result.{Result-cases}
use gitops_reverser.Base.Text.{concat_text}
use gitops_reverser.Base.Table.{is_empty}
use gitops_reverser.Git.Model.{OpenWindow, CommitRequestId, ordered_events}
use gitops_reverser.Git.Pending.{PendingWrite, Backend, build_grouped_pending_write}
use gitops_reverser.Git.Commit.{Committed, commit_pending_writes}
use gitops_reverser.Git.Push.{Pushed, push_pending_commits}
use gitops_reverser.Git.Ledger.{ledger, ledger-push_pending_commits}
use gitops_reverser.Git.Frames.{rest-resolve_pushed}
use gitops_reverser.Git.Worker.{
  Loop, report_path_refusal, resolve_commit_request, drop_open_window, push_pending,
  maybe_schedule_push, commit_window_write, finalize_open_window,
}

abbrev pub total : List (ℕ × Option CommitRequestId) → ℕ
total [] = 0
total (e ∷ es) = e.0 + total es

module _ {Object Desired W : Type 0} where
  -- the retained bytes are the sum over the pending writes, and without a window the window has
  -- none
  unfoldable pub is_accounted : Loop Object Desired W → Bool
  is_accounted l =
      l.pending_writes_bytes == total (ledger l.pending_writes)
      && (is_some l.open_window || l.window_bytes == 0)

module _ {Object Desired : Type 0} where
  pub total-ledger-append :
      (ps : List (PendingWrite Object Desired)) (q : PendingWrite Object Desired)
      → total (ledger (ps ++ (q ∷ []))) ≡ total (ledger ps) + q.byte_size
  total-ledger-append [] q = ground arith
  total-ledger-append (p ∷ ps) q = ground (arith, total-ledger-append ps q)

module _ {Object Desired W : Type 0} (b : Backend Object Desired W) where
  pub drop-is_accounted :
      (cr : Option CommitRequestId) (cause : String) (now : ℕ) (l : Loop Object Desired W)
      → is_accounted l ≡ true
      → is_accounted (drop_open_window b cr cause now l) ≡ true
  unfolding is_accounted drop_open_window resolve_commit_request
  drop-is_accounted cr cause now l h = ground (arith, h)

  pub push_pending-is_accounted :
      (now : ℕ) (l : Loop Object Desired W)
      → is_accounted l ≡ true
      → is_accounted (push_pending b now l) ≡ true
  unfolding is_accounted push_pending
  push_pending-is_accounted now l h =
      let p : Pushed b = push_pending_commits b l.pending_writes l.root l.world in
      ground (
        arith,
        h,
        ledger-push_pending_commits b l.pending_writes l.root l.world,
        rest-resolve_pushed b p.writes now
            (record l { pending_writes = p.writes; root = p.root; world = p.world }),
      )

  pub maybe_schedule_push-is_accounted :
      (now : ℕ) (l : Loop Object Desired W)
      → is_accounted l ≡ true
      → is_accounted (maybe_schedule_push b now l) ≡ true
  unfolding is_accounted maybe_schedule_push
  maybe_schedule_push-is_accounted now l h = ground (arith, h, push_pending-is_accounted now l h)

  abbrev pub head_or :
      PendingWrite Object Desired → List (PendingWrite Object Desired) → PendingWrite Object Desired
  head_or p [] = p
  head_or p (q ∷ qs) = q

  commit_window_write-is_accounted :
      (now : ℕ) (w : OpenWindow Object) (pw : PendingWrite Object Desired)
      (l : Loop Object Desired W)
      → is_accounted l ≡ true
      → is_accounted ((commit_window_write b now w pw l).0) ≡ true
  unfolding is_accounted drop_open_window resolve_commit_request report_path_refusal
  commit_window_write-is_accounted now w pw l h =
      let c : Committed b =
        commit_pending_writes b (pw ∷ []) (not (is_empty l.pending_writes)) l.root l.world in
      let q = head_or pw c.writes in
      ground (
        arith,
        h,
        total-ledger-append l.pending_writes q,
        total-ledger-append l.pending_writes (record q { commit_request = none }),
      )

  pub finalize-is_accounted :
      (now : ℕ) (l : Loop Object Desired W)
      → is_accounted l ≡ true
      → is_accounted ((finalize_open_window b now l).0) ≡ true
  unfolding is_accounted finalize_open_window drop_open_window resolve_commit_request
      report_path_refusal
  finalize-is_accounted now l h = elim (Option-cases l.open_window) [
    | inl closed ↦ ground (arith, h, closed)
    | inr (w, opened) ↦ with_window w opened
  ]
    where
      l2 : Loop Object Desired W
      l2 = record l { commit_timer = none }

      with_window :
          (w : OpenWindow Object)
          → l.open_window ≡ some w
          → is_accounted ((finalize_open_window b now l).0) ≡ true
      with_window w opened =
          elim (Result-cases (build_grouped_pending_write b (ordered_events w) l2.world)) [
            | inl (err, bad) ↦ ground (
              arith,
              opened,
              bad,
              drop-is_accounted w.pending_cr "render fidelity gate is closed" now l2,
              drop-is_accounted w.pending_cr (concat_text ("build pending write: " ∷ err.text ∷ []))
                  now l2,
            )
            | inr (pw, good) ↦ ground (
              arith,
              opened,
              good,
              drop-is_accounted w.pending_cr "render fidelity gate is closed" now l2,
              commit_window_write-is_accounted now w
                  (record pw { commit_message = w.pending_message; commit_request = w.pending_cr })
                  l2,
            )
          ]
