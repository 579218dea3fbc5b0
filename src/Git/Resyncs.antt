-- ===== src/Git/Resyncs.antt =====
-- internal/git/resync_flush.go: resyncs, and the heals that are put off while a window is open.
use gitops_reverser.Base.{
  ℕ, ◌+◌, Bool, false, not, ◌&&◌, ◌||◌, Option, none, some, List, [], ◌∷◌, ◌++◌, ◌==◌, String,
  string_eq, nat_eq, if◌then◌else◌, is_some,
}
use gitops_reverser.Base.Result.{Result, failed, ok}
use gitops_reverser.Base.Table.{is_empty}
use gitops_reverser.Base.Text.{concat_text}
use gitops_reverser.Git.Pending.{
  PendingWrite, GitError, Backend, ResyncRequest, ResyncScope, build_resync_pending_write,
}
use gitops_reverser.Git.Commit.{Committed, commit_pending_writes}
use gitops_reverser.Git.Worker.{Loop, finalize_open_window, maybe_schedule_push}

-- `gvr_string` is GroupVersionResource.String of apimachinery
module _ {Object Desired W : Type 0} (b : Backend Object Desired W)
    (gvr_string : ResyncScope → String) where
  unfoldable pub scope_string : Option ResyncScope → String
  scope_string none = ""
  scope_string (some s) =
      if s.namespace == ""
      then gvr_string s
      else concat_text (gvr_string s ∷ " in " ∷ s.namespace ∷ [])

  -- whether the heal keys are equal
  unfoldable pub same_heal_key : ResyncRequest Desired → ResyncRequest Desired → Bool
  unfolding scope_string
  same_heal_key r s =
      r.git_target_name == s.git_target_name
      && (r.git_target_namespace == s.git_target_namespace
          && scope_string r.scope == scope_string s.scope)

  -- the channel takes one reply, and each request gets one
  abbrev pub reply :
      ResyncRequest Desired → Option GitError → Loop Object Desired W → Loop Object Desired W
  reply req err l = record l {
    replies = l.replies ++ (record { result = req.result; err = err } ∷ []);
  }

  -- a resync once the window is settled, which it closed or not
  unfoldable pub apply_settled_resync :
      ResyncRequest Desired → ℕ → Bool → Loop Object Desired W → Loop Object Desired W
  unfolding maybe_schedule_push
  apply_settled_resync req now closed l = built (build_resync_pending_write b req l.world)
    where
      scheduled : Bool → Loop Object Desired W → Loop Object Desired W
      scheduled due l = if due then maybe_schedule_push b now l else l

      retained : PendingWrite Object Desired → Loop Object Desired W → Loop Object Desired W
      retained q l =
          if q.committed
          then record l {
            pending_writes = l.pending_writes ++ (q ∷ []);
            pending_writes_bytes = l.pending_writes_bytes + q.byte_size;
          }
          else l

      by_result :
          Option GitError
          → List (PendingWrite Object Desired)
          → Loop Object Desired W
          → Loop Object Desired W
      by_result (some err) qs l = reply req (some err) l
      by_result none [] l = l
      by_result none (q ∷ qs) l = reply req none (scheduled (q.committed || closed) (retained q l))

      committed : Committed b → Loop Object Desired W
      committed c = by_result c.error c.writes (record l { root = c.root; world = c.world })

      built : Result GitError (PendingWrite Object Desired) → Loop Object Desired W
      built (failed err) = reply req (some err) l
      built (ok pw) =
          committed
            (commit_pending_writes b (pw ∷ []) (not (is_empty l.pending_writes)) l.root l.world)

  unfoldable pub apply_resync :
      ResyncRequest Desired → ℕ → Loop Object Desired W → Loop Object Desired W
  unfolding finalize_open_window apply_settled_resync
  apply_resync req now l =
      let settled = finalize_open_window b now l in
      if not req.heal
      then apply_settled_resync req now (settled.1) (settled.0)
      else apply_settled_resync req now false l

  -- the heals with the request parked: the ticket of the one it replaces, and the list
  unfoldable pub park_heal :
      ResyncRequest Desired
      → List (ResyncRequest Desired)
      → Option (ResyncRequest Desired) × List (ResyncRequest Desired)
  unfolding same_heal_key
  park_heal req [] = (none, req ∷ [])
  park_heal req (r ∷ rs) =
      let rest = park_heal req rs in
      if same_heal_key r req then (some r, req ∷ rs) else (rest.0, r ∷ rest.1)

  unfoldable pub stash_deferred_heal :
      ResyncRequest Desired → Loop Object Desired W → Loop Object Desired W
  unfolding park_heal
  stash_deferred_heal req l = stashed (park_heal req l.deferred_heals)
    where
      stashed :
          Option (ResyncRequest Desired) × List (ResyncRequest Desired) → Loop Object Desired W
      stashed (none, heals) = record l { deferred_heals = heals }
      stashed (some old, heals) = reply old none (record l { deferred_heals = heals })

  unfoldable pub apply_each :
      List (ResyncRequest Desired) → ℕ → Loop Object Desired W → Loop Object Desired W
  unfolding apply_resync
  apply_each [] now l = l
  apply_each (req ∷ reqs) now l = apply_each reqs now (apply_resync req now l)

  unfoldable pub apply_deferred_heals : ℕ → Loop Object Desired W → Loop Object Desired W
  unfolding apply_each
  apply_deferred_heals now l =
      if is_some l.open_window || is_empty l.deferred_heals
      then l
      else apply_each l.deferred_heals now (record l { deferred_heals = [] })

  unfoldable pub handle_resync_request :
      ResyncRequest Desired → ℕ → Loop Object Desired W → Loop Object Desired W
  unfolding stash_deferred_heal apply_resync
  handle_resync_request req now l =
      if req.heal && is_some l.open_window
      then stash_deferred_heal req l
      else apply_resync req now l
