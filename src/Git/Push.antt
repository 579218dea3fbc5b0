-- ===== src/Git/Push.antt =====
-- internal/git/branch_worker.go: the push of the retained writes, and their replay on the remote's
-- tip after a conflict, under prune modes that may only tighten.
use gitops_reverser.Base.{
  ℕ, Bool, true, false, Option, none, some, List, [], ◌∷◌, ◌==◌, String, string_eq, if◌then◌else◌,
  zero, suc,
}
use gitops_reverser.Base.Result.{Result, failed, ok}
use gitops_reverser.Base.Table.{Table}
use gitops_reverser.Api.Prune.{PruneMode, or_default, more_restrictive_of}
use gitops_reverser.Git.Pending.{
  PendingWrite, TargetKey, ResolvedTargetMetadata, GitError, CurrentMode, CycleRoot, Backend,
}
use gitops_reverser.Git.Commit.{execute_pending_writes}

abbrev pub same_mode : PruneMode → PruneMode → Bool
same_mode PruneMode.unset PruneMode.unset = true
same_mode PruneMode.never PruneMode.never = true
same_mode PruneMode.on_event PruneMode.on_event = true
same_mode PruneMode.always PruneMode.always = true
same_mode (PruneMode.other s) (PruneMode.other t) = s == t
same_mode m n = false

abbrev pub same_hash : Option String → Option String → Bool
same_hash none none = true
same_hash (some s) (some t) = s == t
same_hash g h = false

unfoldable pub tightened_to : PruneMode → ResolvedTargetMetadata → ResolvedTargetMetadata
tightened_to mode md =
    let tightened = more_restrictive_of md.prune_mode mode in
    if same_mode tightened (or_default md.prune_mode)
    then md
    else record md { prune_mode = tightened }

module _ {Object Desired W : Type 0} (b : Backend Object Desired W) where
  -- The current modes are read from one world, so that the cache of them is left out. A read that
  -- fails stops the loop; what was tightened before stays so.
  unfoldable pub tighten_targets :
      W
      → Table TargetKey ResolvedTargetMetadata
      → Option GitError × Table TargetKey ResolvedTargetMetadata
  tighten_targets world [] = (none, [])
  tighten_targets world ((key, md) ∷ targets) =
      by_mode (tighten_targets world targets) (b.current_mode key world)
    where
      Tightened : Type 0
      Tightened = Option GitError × Table TargetKey ResolvedTargetMetadata

      by_mode : Tightened → CurrentMode → Tightened
      by_mode rest CurrentMode.target_gone =
          (rest.0, (key, tightened_to PruneMode.never md) ∷ rest.1)
      by_mode rest (CurrentMode.read_failed err) = (some err, (key, md) ∷ targets)
      by_mode rest (CurrentMode.current mode) = (rest.0, (key, tightened_to mode md) ∷ rest.1)

  unfoldable pub tighten_pending_prune_modes :
      W → List (PendingWrite Object Desired) → Option GitError × List (PendingWrite Object Desired)
  tighten_pending_prune_modes world [] = (none, [])
  tighten_pending_prune_modes world (p ∷ ps) =
      next (tighten_pending_prune_modes world ps) (tighten_targets world p.targets)
    where
      Tightened : Type 0
      Tightened = Option GitError × List (PendingWrite Object Desired)

      next : Tightened → Option GitError × Table TargetKey ResolvedTargetMetadata → Tightened
      next rest (some err, targets) = (some err, record p { targets = targets } ∷ ps)
      next rest (none, targets) = (rest.0, record p { targets = targets } ∷ rest.1)

  pub record Pushed : Type 0 where
    pub error : Option GitError
    -- the retained writes, with the hashes that a replay wrote back
    pub writes : List (PendingWrite Object Desired)
    pub root : CycleRoot
    pub world : W

  abbrev pub no_root : CycleRoot
  no_root = record { branch = ""; hash = none }

  -- the root is left as it is if an error stops the rebuild
  unfoldable pub rebuild_pending_writes :
      List (PendingWrite Object Desired) → CycleRoot → W → Pushed
  rebuild_pending_writes ps root world = on_branch (b.ensure_write_branch world)
    where
      executed : CycleRoot → Option GitError × (List (PendingWrite Object Desired) × W) → Pushed
      executed base (some err, (writes, world)) = record {
        error = some err;
        writes = writes;
        root = root;
        world = world;
      }
      executed base (none, (writes, world)) = record {
        error = none;
        writes = writes;
        root = base;
        world = world;
      }

      tightened : CycleRoot → W → Option GitError × List (PendingWrite Object Desired) → Pushed
      tightened base world (some err, writes) = record {
        error = some err;
        writes = writes;
        root = root;
        world = world;
      }
      tightened base world (none, writes) = executed base (execute_pending_writes b writes world)

      on_branch : Result GitError CycleRoot × W → Pushed
      on_branch (failed err, world) = record {
        error = some err;
        writes = ps;
        root = root;
        world = world;
      }
      on_branch (ok base, world) = tightened base world (tighten_pending_prune_modes world ps)

  -- the branch that a root names, or else the worker's
  abbrev pub or_worker_branch : CycleRoot → CycleRoot
  or_worker_branch root = record root {
    branch = if root.branch == "" then b.branch else root.branch;
  }

  -- `rounds` attempts are left
  unfoldable pub push_rounds :
      ℕ → GitError → List (PendingWrite Object Desired) → CycleRoot → W → Pushed
  push_rounds zero last ps root world = record {
    error = some last;
    writes = ps;
    root = root;
    world = world;
  }
  push_rounds (suc rounds) last ps root world =
      pushed (λ err p. push_rounds rounds err p.writes p.root p.world)
        (b.push_atomic (or_worker_branch root) world)
    where
      stopped : GitError → W → Pushed
      stopped err world = record { error = some err; writes = ps; root = root; world = world }

      rebuilt : (GitError → Pushed → Pushed) → GitError → Pushed → Pushed
      rebuilt again err p = elim p.error [ some failure ↦ p | none ↦ again err p ]

      synced : (GitError → Pushed → Pushed) → GitError → Option GitError × W → Pushed
      synced again err (some failure, world) = stopped failure world
      synced again err (none, world) = rebuilt again err (rebuild_pending_writes ps root world)

      moved : (GitError → Pushed → Pushed) → GitError → Result GitError (Option String) × W → Pushed
      moved again err (failed failure, world) = stopped err world
      moved again err (ok hash, world) =
          if same_hash hash root.hash
          then stopped err world
          else synced again err (b.sync_to_remote world)

      pushed : (GitError → Pushed → Pushed) → Option GitError × W → Pushed
      pushed again (none, world) = record {
        error = none;
        writes = ps;
        root = no_root;
        world = world;
      }
      pushed again (some err, world) =
          moved again err (b.fetch_remote_branch_hash (or_worker_branch root).branch world)

  -- maxRetries
  abbrev pub max_retries : ℕ
  max_retries = 3

  unfoldable pub push_pending_commits : List (PendingWrite Object Desired) → CycleRoot → W → Pushed
  unfolding push_rounds
  push_pending_commits [] root world = record {
    error = none;
    writes = [];
    root = root;
    world = world;
  }
  push_pending_commits (p ∷ ps) root world = checked (b.provider world) (
      checked (b.auth world) (
        checked (b.open_repository world) (push_rounds max_retries no_attempt (p ∷ ps) root world)))
    where
      no_attempt : GitError
      no_attempt = record { text = "push failed"; is_refusal = false }

      checked : Option GitError → Pushed → Pushed
      checked (some err) next = record {
        error = some err;
        writes = p ∷ ps;
        root = root;
        world = world;
      }
      checked none next = next
