-- ===== src/Git/Frames.antt =====
-- Resolving CommitRequests leaves windows, writes, timers and resyncs alone.
use gitops_reverser.Base.{ℕ, ◌≡◌, refl, ◌∙◌, Option, none, some, List, [], ◌∷◌, String}
use gitops_reverser.Git.Model.{CommitRequestId, FinalizeResult, OpenWindow}
use gitops_reverser.Git.Pending.{PendingWrite, Backend, ResyncRequest}
use gitops_reverser.Git.Worker.{
  Loop, ResyncReply, resolve_commit_request, resolve_pushed, resolve_pushed_commit_requests,
}

pub record Rest (Object Desired : Type 0) : Type 0 where
  pub open_window : Option (OpenWindow Object)
  pub window_bytes : ℕ
  pub pending_writes : List (PendingWrite Object Desired)
  pub pending_writes_bytes : ℕ
  pub last_push_at : Option ℕ
  pub push_timer : Option ℕ
  pub deferred_heals : List (ResyncRequest Desired)
  pub replies : List ResyncReply

module _ {Object Desired W : Type 0} where
  abbrev pub rest_of : Loop Object Desired W → Rest Object Desired
  rest_of l = record {
    open_window = l.open_window;
    window_bytes = l.window_bytes;
    pending_writes = l.pending_writes;
    pending_writes_bytes = l.pending_writes_bytes;
    last_push_at = l.last_push_at;
    push_timer = l.push_timer;
    deferred_heals = l.deferred_heals;
    replies = l.replies;
  }

module _ {Object Desired W : Type 0} (b : Backend Object Desired W) where
  pub rest-resolve :
      (id : CommitRequestId) (r : FinalizeResult) (now : ℕ) (l : Loop Object Desired W)
      → rest_of (resolve_commit_request b id r now l) ≡ rest_of l
  unfolding resolve_commit_request
  rest-resolve id r now l = refl

  rest-resolve_one :
      (cr : Option CommitRequestId) (sha : Option String) (p : PendingWrite Object Desired)
      (now : ℕ) (l : Loop Object Desired W)
      → rest_of (resolve_pushed b (record p { commit_request = cr; commit_sha = sha }) now l)
        ≡ rest_of l
  unfolding resolve_commit_request
  rest-resolve_one none sha p now l = refl
  rest-resolve_one (some id) none p now l = refl
  rest-resolve_one (some id) (some sha) p now l = refl

  pub rest-resolve_pushed :
      (ps : List (PendingWrite Object Desired)) (now : ℕ) (l : Loop Object Desired W)
      → rest_of (resolve_pushed_commit_requests b ps now l) ≡ rest_of l
  unfolding resolve_pushed_commit_requests
  rest-resolve_pushed [] now l = refl
  rest-resolve_pushed (p ∷ ps) now l =
      rest-resolve_pushed ps now (resolve_pushed b p now l)
      ∙ rest-resolve_one p.commit_request p.commit_sha p now l
