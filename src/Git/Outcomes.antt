-- ===== src/Git/Outcomes.antt =====
-- What a push makes of the CommitRequests that the pushed writes carry.
use mathlib.Core.Option
use gitops_reverser.Base.{
  ℕ, ◌-◌, ◌≡◌, refl, Bool, true, false, Option, none, some, List, [], ◌∷◌, ◌==◌, String,
  if◌then◌else◌, arith, Option-cases, inl, inr, is_some, nat_eq, string_eq, Bool-cases, ltb,
}
use gitops_reverser.Base.Table.{Table, get, put, is_empty, get-put}
use gitops_reverser.Git.Model.{
  CommitRequestId, request_eq, FinalizeOutcome, FinalizeResult, OutcomeEntry,
}
use gitops_reverser.Git.Pending.{PendingWrite, Backend}
use gitops_reverser.Git.Push.{Pushed, push_pending_commits}
use gitops_reverser.Git.Worker.{
  Loop, push_pending, resolve_commit_request, fresh_outcomes, record_commit_request_outcome,
  commit_request_outcome_ttl, resolve_pushed, resolve_pushed_commit_requests,
}

abbrev pub is_stale : ℕ → OutcomeEntry → Bool
is_stale now e = ltb commit_request_outcome_ttl (now - e.resolved_at)

pub get-fresh_some :
    (now : ℕ) (id : CommitRequestId) (e : OutcomeEntry) (m : Table CommitRequestId OutcomeEntry)
    → get id m ≡ some e
    → is_stale now e ≡ false
    → get id (fresh_outcomes now m) ≡ some e
unfolding get fresh_outcomes
get-fresh_some now id e [] h f = absurd (cc h)
get-fresh_some now id e ((j, x) ∷ m) h f = ground (arith, h, f, get-fresh_some now id e m)

get-fresh_none :
    (now : ℕ) (id : CommitRequestId) (m : Table CommitRequestId OutcomeEntry)
    → get id m ≡ none
    → get id (fresh_outcomes now m) ≡ none
unfolding get fresh_outcomes
get-fresh_none now id [] h = refl
get-fresh_none now id ((j, x) ∷ m) h = ground (arith, h, get-fresh_none now id m)

module _ {Object Desired : Type 0} where
  abbrev pub carries : CommitRequestId → PendingWrite Object Desired → Bool
  carries id p = elim p.commit_request [ none ↦ false | some j ↦ j == id ]

  -- the hash of the last write that carries the request and has one
  unfoldable pub carried_sha : CommitRequestId → List (PendingWrite Object Desired) → Option String
  carried_sha id [] = none
  carried_sha id (p ∷ ps) =
      let later = carried_sha id ps in
      if is_some later then later else if carries id p then p.commit_sha else none

module _ {Object Desired W : Type 0} (b : Backend Object Desired W) (now : ℕ) where
  abbrev pub committed_entry : String → OutcomeEntry
  committed_entry sha = record {
    result = record {
      outcome = some FinalizeOutcome.committed;
      sha = sha;
      branch = b.branch;
      err = none;
    };
    resolved_at = now;
  }

  -- the outcome of the request so far, or else that of a push in which it has the hash
  abbrev after_push : Option OutcomeEntry → Option String → Option OutcomeEntry
  after_push old none = old
  after_push old (some sha) = some (committed_entry sha)

  -- either nothing is recorded, or an entry of this very moment
  abbrev is_current : Option OutcomeEntry → Bool
  is_current none = true
  is_current (some e) = e.resolved_at == now

  outcome-record :
      (id j : CommitRequestId) (r : FinalizeResult) (m : Table CommitRequestId OutcomeEntry)
      → is_current (get id m) ≡ true
      → get id (record_commit_request_outcome j r now m)
        ≡ (if j == id then some (record { result = r; resolved_at = now }) else get id m)
  unfolding record_commit_request_outcome commit_request_outcome_ttl
  outcome-record id j r m h =
      let e : OutcomeEntry = record { result = r; resolved_at = now } in
      let m2 = put j e m in
      elim (Bool-cases (j == id)) [
        | inl same ↦ ground (arith, same, get-put j id e m, get-fresh_some now id e m2)
        | inr other ↦ elim (Option-cases (get id m)) [
          | inl absent ↦ ground (arith, other, absent, get-put j id e m, get-fresh_none now id m2)
          | inr (old, there) ↦
              ground (arith, other, there, h, get-put j id e m, get-fresh_some now id old m2)
        ]
      ]

  outcome-resolve :
      (id j : CommitRequestId) (sha : String) (l : Loop Object Desired W)
      → is_current (get id l.cr_outcomes) ≡ true
      → get id (resolve_commit_request b j (committed_entry sha).result now l).cr_outcomes
        ≡ (if j == id then some (committed_entry sha) else get id l.cr_outcomes)
  unfolding resolve_commit_request
  outcome-resolve id j sha l h =
      ground (arith, outcome-record id j (committed_entry sha).result l.cr_outcomes h)

  outcome-resolve_one :
      (id : CommitRequestId) (p : PendingWrite Object Desired) (l : Loop Object Desired W)
      → is_current (get id l.cr_outcomes) ≡ true
      → get id (resolve_pushed b p now l).cr_outcomes
        ≡ after_push (get id l.cr_outcomes) (if carries id p then p.commit_sha else none)
  outcome-resolve_one id p l h = elim (Option-cases p.commit_request) [
    | inl free ↦ ground (arith, free)
    | inr (j, claimed) ↦ elim (Option-cases p.commit_sha) [
      | inl zero ↦ ground (arith, claimed, zero)
      | inr (sha, made) ↦ ground (arith, claimed, made, outcome-resolve id j sha l h)
    ]
  ]

  outcome-resolve_pushed :
      (id : CommitRequestId) (ps : List (PendingWrite Object Desired)) (l : Loop Object Desired W)
      → is_current (get id l.cr_outcomes) ≡ true
      → get id (resolve_pushed_commit_requests b ps now l).cr_outcomes
        ≡ after_push (get id l.cr_outcomes) (carried_sha id ps)
  unfolding resolve_pushed_commit_requests carried_sha
  outcome-resolve_pushed id [] l h = refl
  outcome-resolve_pushed id (p ∷ ps) l h = ground (
    arith,
    h,
    outcome-resolve_one id p l h,
    outcome-resolve_pushed id ps (resolve_pushed b p now l),
  )

  -- A push of retained writes that succeeds records, for a CommitRequest without an outcome so far,
  -- the hash of the last pushed write that carries it with a hash; a request that only writes
  -- without a hash carry gets no outcome; and no write is retained.
  pub push_pending-outcome :
      (id : CommitRequestId) (l : Loop Object Desired W)
      → is_empty l.pending_writes ≡ false
      → (push_pending_commits b l.pending_writes l.root l.world).error ≡ none
      → get id l.cr_outcomes ≡ none
      → (get id (push_pending b now l).cr_outcomes
          ≡ Option.map committed_entry
              (carried_sha id (push_pending_commits b l.pending_writes l.root l.world).writes))
        × ((push_pending b now l).pending_writes ≡ [])
  unfolding push_pending
  push_pending-outcome id l some_left pushed fresh =
      let p : Pushed b = push_pending_commits b l.pending_writes l.root l.world in
      let l2 : Loop Object Desired W = record l {
        pending_writes = p.writes;
        root = p.root;
        world = p.world;
      } in
      (
        ground (arith, some_left, pushed, fresh, outcome-resolve_pushed id p.writes l2),
        ground (arith, some_left, pushed),
      )
