-- ===== src/Git/Ledger.antt =====
-- Commits and pushes never touch the size of a retained write or the CommitRequest that it carries.
use gitops_reverser.Base.{
  ℕ, ◌≡◌, refl, Bool, false, Option, none, some, List, [], ◌∷◌, arith, zero, suc,
}
use gitops_reverser.Base.Result.{Result, failed, ok}
use gitops_reverser.Git.Model.{CommitRequestId}
use gitops_reverser.Git.Pending.{PendingWrite, GitError, CycleRoot, Backend}
use gitops_reverser.Git.Commit.{
  execute_pending_write, execute_pending_writes, commit_pending_writes,
}
use gitops_reverser.Git.Push.{
  tighten_pending_prune_modes, rebuild_pending_writes, push_rounds, push_pending_commits,
  or_worker_branch,
}

module _ {Object Desired : Type 0} where
  abbrev pub entry : PendingWrite Object Desired → ℕ × Option CommitRequestId
  entry p = (p.byte_size, p.commit_request)

  abbrev pub ledger : List (PendingWrite Object Desired) → List (ℕ × Option CommitRequestId)
  ledger [] = []
  ledger (p ∷ ps) = entry p ∷ ledger ps

module _ {Object Desired W : Type 0} (b : Backend Object Desired W) where
  abbrev entry_of :
      PendingWrite Object Desired
      → Result GitError (PendingWrite Object Desired)
      → ℕ × Option CommitRequestId
  entry_of p (failed err) = entry p
  entry_of p (ok q) = entry q

  entry-execute_pending_write :
      (p : PendingWrite Object Desired) (world : W)
      → entry_of p (execute_pending_write b p world).0 ≡ entry p
  unfolding execute_pending_write
  entry-execute_pending_write p world = ground arith

  ledger-execute_pending_writes :
      (ps : List (PendingWrite Object Desired)) (world : W)
      → ledger ((execute_pending_writes b ps world).1.0) ≡ ledger ps
  unfolding execute_pending_writes
  ledger-execute_pending_writes [] world = refl
  ledger-execute_pending_writes (p ∷ ps) world = ground (
    arith,
    entry-execute_pending_write p world,
    ledger-execute_pending_writes ps (execute_pending_write b p world).1,
  )

  pub ledger-commit_pending_writes :
      (ps : List (PendingWrite Object Desired)) (has_pending : Bool) (root : CycleRoot) (world : W)
      → ledger (commit_pending_writes b ps has_pending root world).writes ≡ ledger ps
  unfolding commit_pending_writes
  ledger-commit_pending_writes [] has_pending root world = refl
  ledger-commit_pending_writes (p ∷ ps) has_pending root world =
      let prepared = b.prepare_branch world in
      let branched = b.ensure_write_branch world in
      let rebranched = b.ensure_write_branch (prepared.1) in
      ground (
        arith,
        ledger-execute_pending_writes (p ∷ ps) (branched.1),
        ledger-execute_pending_writes (p ∷ ps) (rebranched.1),
      )

  ledger-tighten :
      (world : W) (ps : List (PendingWrite Object Desired))
      → ledger ((tighten_pending_prune_modes b world ps).1) ≡ ledger ps
  unfolding tighten_pending_prune_modes
  ledger-tighten world [] = refl
  ledger-tighten world (p ∷ ps) = ground (arith, ledger-tighten world ps)

  ledger-rebuild :
      (ps : List (PendingWrite Object Desired)) (root : CycleRoot) (world : W)
      → ledger (rebuild_pending_writes b ps root world).writes ≡ ledger ps
  unfolding rebuild_pending_writes
  ledger-rebuild ps root world =
      let base = b.ensure_write_branch world in
      let tightened = tighten_pending_prune_modes b (base.1) ps in
      ground
        (arith, ledger-tighten (base.1) ps, ledger-execute_pending_writes (tightened.1) (base.1))

  abbrev or_err : GitError → Option GitError → GitError
  or_err err none = err
  or_err err (some e) = e

  ledger-push_rounds :
      (n : ℕ) (err : GitError) (ps : List (PendingWrite Object Desired)) (root : CycleRoot)
      (world : W)
      → ledger (push_rounds b n err ps root world).writes ≡ ledger ps
  unfolding push_rounds
  ledger-push_rounds zero err ps root world = refl
  ledger-push_rounds (suc n) err ps root world =
      let pushed : Option GitError × W = b.push_atomic (or_worker_branch b root) world in
      let fetched = b.fetch_remote_branch_hash (or_worker_branch b root).branch (pushed.1) in
      let synced = b.sync_to_remote (fetched.1) in
      let rebuilt = rebuild_pending_writes b ps root (synced.1) in
      ground (
        arith,
        ledger-rebuild ps root (synced.1),
        ledger-push_rounds n (or_err err (pushed.0)) rebuilt.writes rebuilt.root rebuilt.world,
      )

  pub ledger-push_pending_commits :
      (ps : List (PendingWrite Object Desired)) (root : CycleRoot) (world : W)
      → ledger (push_pending_commits b ps root world).writes ≡ ledger ps
  unfolding push_pending_commits
  ledger-push_pending_commits [] root world = refl
  ledger-push_pending_commits (p ∷ ps) root world = ground (
    arith,
    ledger-push_rounds 3 (record { text = "push failed"; is_refusal = false }) (p ∷ ps) root world,
  )
