-- ===== src/Git/Commit.antt =====
-- internal/git/commit_executor.go and branch_worker.go: the commits of pending writes. The mutex of
-- the repository makes each call one step.
use gitops_reverser.Base.{
  Bool, not, ◌||◌, Option, none, some, List, [], ◌∷◌, String, string_eq, if◌then◌else◌, is_some,
}
use gitops_reverser.Base.Result.{Result, failed, ok}
use gitops_reverser.Git.Model.{Event}
use gitops_reverser.Git.Pending.{PendingWrite, PendingWriteKind, GitError, CycleRoot, Backend}

module _ {Object Desired W : Type 0} (b : Backend Object Desired W) where
  abbrev pub Executed : Type 0
  Executed = Result GitError (PendingWrite Object Desired) × W

  -- the unit with the hash, or with `committed`, written back; an error leaves it as it is
  unfoldable pub execute_pending_write : PendingWrite Object Desired → W → Executed
  execute_pending_write p world = by_kind p.kind
    where
      resynced : Result GitError (Option String) × W → Executed
      resynced (failed err, world) = (failed err, world)
      resynced (ok sha, world) =
          (ok (record p { committed = p.committed || is_some sha; commit_sha = none }), world)

      applied : Result GitError (Option String) × W → Executed
      applied (failed err, world) = (failed err, world)
      applied (ok sha, world) = (ok (record p { commit_sha = sha }), world)

      with_events : List (Event Object) → Executed
      with_events [] = (ok (record p { commit_sha = none }), world)
      with_events (e ∷ es) = applied (b.apply p world)

      by_kind : PendingWriteKind → Executed
      by_kind PendingWriteKind.resync_kind = resynced (b.apply p world)
      by_kind PendingWriteKind.commit_kind = with_events p.events
      by_kind PendingWriteKind.atomic_kind = with_events p.events

  -- an error stops the loop; the units before it keep what was written back
  unfoldable pub execute_pending_writes :
      List (PendingWrite Object Desired)
      → W
      → Option GitError × (List (PendingWrite Object Desired) × W)
  unfolding execute_pending_write
  execute_pending_writes [] world = (none, ([], world))
  execute_pending_writes (p ∷ ps) world =
      next (λ world. execute_pending_writes ps world) (execute_pending_write p world)
    where
      next :
          (W → Option GitError × (List (PendingWrite Object Desired) × W))
          → Executed
          → Option GitError × (List (PendingWrite Object Desired) × W)
      next rest (failed err, world) = (some err, (p ∷ ps, world))
      next rest (ok q, world) = ((rest world).0, (q ∷ (rest world).1.0, (rest world).1.1))

  pub record Committed : Type 0 where
    pub error : Option GitError
    pub writes : List (PendingWrite Object Desired)
    pub root : CycleRoot
    pub world : W

  unfoldable pub commit_pending_writes :
      List (PendingWrite Object Desired) → Bool → CycleRoot → W → Committed
  commit_pending_writes [] has_pending root world = record {
    error = none;
    writes = [];
    root = root;
    world = world;
  }
  commit_pending_writes (p ∷ ps) has_pending root world = with_provider (b.provider world)
    where
      stopped : GitError → CycleRoot → W → Committed
      stopped err root world = record {
        error = some err;
        writes = p ∷ ps;
        root = root;
        world = world;
      }

      executed : CycleRoot → Option GitError × (List (PendingWrite Object Desired) × W) → Committed
      executed root (err, (writes, world)) = record {
        error = err;
        writes = writes;
        root = root;
        world = world;
      }

      on_branch : Result GitError CycleRoot × W → Committed
      on_branch (failed err, world) = stopped err root world
      on_branch (ok base, world) =
          executed (if has_pending then root else base) (execute_pending_writes (p ∷ ps) world)

      opened : W → Option GitError → Committed
      opened world (some err) = stopped err root world
      opened world none = on_branch (b.ensure_write_branch world)

      prepared : Option GitError × W → Committed
      prepared (some err, world) = stopped err root world
      prepared (none, world) = opened world (b.open_repository world)

      with_auth : Option GitError → Committed
      with_auth (some err) = stopped err root world
      with_auth none = prepared (b.prepare_branch world)

      with_provider : Option GitError → Committed
      with_provider (some err) = stopped err root world
      with_provider none =
          if not has_pending
          then with_auth (b.auth world)
          else opened world (b.open_repository world)
