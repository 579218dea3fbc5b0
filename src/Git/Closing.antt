-- ===== src/Git/Closing.antt =====
-- What becomes of a CommitRequest when the window that it claims is closed.
use gitops_reverser.Base.{
  ℕ, ◌+◌, ◌≡◌, refl, Bool, true, false, not, ◌&&◌, ◌||◌, none, some, [], ◌∷◌, ◌++◌, ◌==◌, String,
  if◌then◌else◌, arith, Option-cases, inl, inr, is_some, nat_eq, string_eq, eq_refl,
}
use gitops_reverser.Base.Result.{Result-cases}
use gitops_reverser.Base.Lists.{any, any-append}
use gitops_reverser.Base.Table.{put, has, is_empty, get-put, get-remove}
use gitops_reverser.Base.Text.{concat_text}
use gitops_reverser.Git.Model.{
  OpenWindow, CommitRequestId, request_eq, FinalizeOutcome, FinalizeResult, OutcomeEntry,
  ordered_events,
}
use gitops_reverser.Git.Pending.{PendingWrite, Backend, build_grouped_pending_write}
use gitops_reverser.Git.Commit.{Committed, commit_pending_writes}
use gitops_reverser.Git.Ledger.{ledger-commit_pending_writes}
use gitops_reverser.Git.Accounts.{head_or}
use gitops_reverser.Git.Worker.{
  Loop, report_path_refusal, commit_window_write, finalize_open_window, resolve_commit_request,
  drop_open_window, record_commit_request_outcome, outcome, commit_request_outcome_ttl,
}
use gitops_reverser.Git.Outcomes.{carries, get-fresh_some}

module _ {Object Desired W : Type 0} where
  -- the request has an outcome, or a retained write carries it with a hash
  unfoldable pub is_settled : CommitRequestId → Loop Object Desired W → Bool
  is_settled id l =
      has id l.cr_outcomes || any (λ p. carries id p && is_some p.commit_sha) l.pending_writes

module _ {Object Desired W : Type 0} (b : Backend Object Desired W) (now : ℕ) where
  has-resolve :
      (id : CommitRequestId) (r : FinalizeResult) (l : Loop Object Desired W)
      → (has id (resolve_commit_request b id r now l).cr_outcomes ≡ true)
        × (has id (resolve_commit_request b id r now l).pending_crs ≡ false)
  unfolding resolve_commit_request record_commit_request_outcome commit_request_outcome_ttl
  has-resolve id r l =
      let r2 : FinalizeResult = if r.branch == "" then record r { branch = b.branch } else r in
      let e : OutcomeEntry = record { result = r2; resolved_at = now } in
      (
        ground (
          arith,
          get-put id id e l.cr_outcomes,
          eq_refl id,
          get-fresh_some now id e (put id e l.cr_outcomes),
        ),
        ground (arith, get-remove id id l.pending_crs, eq_refl id),
      )

  abbrev IsResolved : CommitRequestId → Loop Object Desired W → Type 0
  IsResolved id l =
      (is_settled id l ≡ true) × ((has id l.pending_crs ≡ false) × (l.open_window ≡ none))

  drop-IsResolved :
      (id : CommitRequestId) (cause : String) (l : Loop Object Desired W)
      → IsResolved id (drop_open_window b (some id) cause now l)
  unfolding is_settled drop_open_window
  drop-IsResolved id cause l =
      let r : FinalizeResult = record {
        outcome = none;
        sha = "";
        branch = b.branch;
        err = some cause;
      } in
      let both = has-resolve id r (record l { open_window = none; window_bytes = 0 }) in
      (ground (arith, both.0), (both.1, unfold resolve_commit_request in refl))

  write-IsResolved :
      (id : CommitRequestId) (w : OpenWindow Object) (pw : PendingWrite Object Desired)
      (l : Loop Object Desired W)
      → w.pending_cr ≡ some id
      → pw.commit_request ≡ some id
      → IsResolved id ((commit_window_write b now w pw l).0)
  unfolding is_settled
  write-IsResolved id w pw l claimed carried =
      let c : Committed b =
        commit_pending_writes b (pw ∷ []) (not (is_empty l.pending_writes)) l.root l.world in
      let l2 : Loop Object Desired W = record l { root = c.root; world = c.world } in
      let q = head_or b pw c.writes in
      let same =
        ledger-commit_pending_writes b (pw ∷ []) (not (is_empty l.pending_writes)) l.root l.world in
      elim (Option-cases c.error) [
        | inr (err, bad) ↦
            let dropped =
              drop-IsResolved id (concat_text ("commit failed: " ∷ err.text ∷ []))
                (report_path_refusal b err w.git_target w.git_target_namespace l2) in
            (
              ground (arith, claimed, bad, dropped.0),
              (
                ground (arith, claimed, bad, dropped.1.0),
                ground (arith, claimed, bad, dropped.1.1),
              ),
            )
        | inl fine ↦ elim (Option-cases q.commit_sha) [
          | inl zero ↦
              let l3 : Loop Object Desired W = record l2 {
                pending_writes = l2.pending_writes ++ (record q { commit_request = none } ∷ []);
                pending_writes_bytes = l2.pending_writes_bytes + q.byte_size;
                open_window = none;
                window_bytes = 0;
              } in
              let both = has-resolve id (outcome b FinalizeOutcome.already_present) l3 in
              (
                ground (arith, claimed, fine, same, zero, both.0),
                (
                  ground (arith, claimed, fine, same, zero, both.1),
                  ground (arith, claimed, fine, same, zero, unresolved l3),
                ),
              )
          | inr (sha, made) ↦ (
            ground (
              arith,
              claimed,
              carried,
              fine,
              same,
              made,
              eq_refl id,
              any-append (λ p. carries id p && is_some p.commit_sha) l.pending_writes (q ∷ []),
            ),
            (
              ground (arith, claimed, fine, same, made, get-remove id id l.pending_crs, eq_refl id),
              ground (arith, claimed, fine, same, made),
            ),
          )
        ]
      ]
    where
      unresolved :
          (l : Loop Object Desired W)
          → (resolve_commit_request b id
              (outcome b FinalizeOutcome.already_present)
              now
              l).open_window
            ≡ l.open_window
      unresolved l = unfold resolve_commit_request in refl

  -- When the window that a CommitRequest claims is closed, by whatever end, the window is gone, the
  -- request no longer waits, and it has an outcome or a retained write carries it with a hash.
  pub finalize-IsResolved :
      (id : CommitRequestId) (w : OpenWindow Object) (l : Loop Object Desired W)
      → l.open_window ≡ some w
      → w.pending_cr ≡ some id
      → (is_settled id ((finalize_open_window b now l).0) ≡ true)
        × ((has id ((finalize_open_window b now l).0).pending_crs ≡ false)
            × ((finalize_open_window b now l).0.open_window ≡ none))
  unfolding finalize_open_window
  finalize-IsResolved id w l opened claimed =
      let l2 : Loop Object Desired W = record l { commit_timer = none } in
      let closed = drop-IsResolved id "render fidelity gate is closed" l2 in
      elim (Result-cases (build_grouped_pending_write b (ordered_events w) l2.world)) [
        | inl (err, bad) ↦
            let dropped =
              drop-IsResolved id (concat_text ("build pending write: " ∷ err.text ∷ [])) l2 in
            (
              ground (arith, opened, claimed, bad, closed.0, dropped.0),
              (
                ground (arith, opened, claimed, bad, closed.1.0, dropped.1.0),
                ground (arith, opened, claimed, bad, closed.1.1, dropped.1.1),
              ),
            )
        | inr (pw, good) ↦
            let pw2 : PendingWrite Object Desired = record pw {
              commit_message = w.pending_message;
              commit_request = w.pending_cr;
            } in
            let wrote = write-IsResolved id w pw2 l2 claimed claimed in
            (
              ground (arith, opened, claimed, good, closed.0, wrote.0),
              (
                ground (arith, opened, claimed, good, closed.1.0, wrote.1.0),
                ground (arith, opened, claimed, good, closed.1.1, wrote.1.1),
              ),
            )
      ]
