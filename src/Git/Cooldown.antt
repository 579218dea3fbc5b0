-- ===== src/Git/Cooldown.antt =====
-- The interval between the pushes of a branch, over all wakes of the event loop.
use gitops_reverser.Base.{
  ℕ, ◌+◌, ◌≡◌, ◌≤◌, refl, ap, Bool, true, false, not, ◌&&◌, ◌||◌, Option, none, some, List, [], ◌∷◌,
  ◌++◌, String, if◌then◌else◌, arith, leb, nat_eq, Option-cases, inl, inr, ◌⊎◌,
}
use gitops_reverser.Base.Result.{Result-cases}
use gitops_reverser.Base.Table.{is_empty}
use gitops_reverser.Paths.Identifier.{SensitiveResourcePolicy}
use gitops_reverser.Git.Pending.{
  PendingWrite, GitError, Backend, ResyncRequest, ResyncScope, WriteRequest,
  build_resync_pending_write, build_atomic_pending_write,
}
use gitops_reverser.Git.Commit.{Committed, commit_pending_writes}
use gitops_reverser.Git.Worker.{
  Loop, push_cooldown, push_pending, maybe_schedule_push, finalize_open_window, report_path_refusal,
}
use gitops_reverser.Git.Resyncs.{
  apply_resync, apply_settled_resync, stash_deferred_heal, apply_each, apply_deferred_heals,
  handle_resync_request, reply,
}
use gitops_reverser.Git.Loop.{
  apply_settled_atomic, atomic_refusal_target, WorkItem, handle_queue_item, Wake, wake, Reach,
  new_branch_worker_event_loop, IsDue,
}
use gitops_reverser.Git.Walk.{
  IsKept, handle_item_keeps, item_wake_keeps, timer_wake_keeps, is_resync, is_item, is_push,
}
use gitops_reverser.Git.Timers.{
  is_cooled, is_spaced, timers, is_paced, is_paced_same, push_pending-is_paced,
  maybe_schedule_push-is_paced, timers-finalize,
}

List-cases {ℓ} :
    {A : Type ℓ} (xs : List A) → (xs ≡ []) ⊎ ((x : A) × (rest : List A) × (xs ≡ x ∷ rest))
List-cases [] = inl refl
List-cases (x ∷ rest) = inr (x, rest, refl)

module _ {Object Desired W : Type 0} (b : Backend Object Desired W)
    (gvr_string : ResyncScope → String) (policy : SensitiveResourcePolicy) (old : Option ℕ)
    (now : ℕ) where
  finalize-is_paced :
      (l : Loop Object Desired W)
      → is_paced old now l ≡ true
      → is_paced old now ((finalize_open_window b now l).0) ≡ true
  finalize-is_paced l h =
      is_paced_same old now l ((finalize_open_window b now l).0) (timers-finalize b now l) h

  abbrev retain : PendingWrite Object Desired → Loop Object Desired W → Loop Object Desired W
  retain q l = record l {
    pending_writes = l.pending_writes ++ (q ∷ []);
    pending_writes_bytes = l.pending_writes_bytes + q.byte_size;
  }

  -- a reply, or a retained write, changes no timer
  replied :
      (req : ResyncRequest Desired) (err : Option GitError) (l : Loop Object Desired W)
      → is_paced old now l ≡ true
      → is_paced old now (reply b gvr_string req err l) ≡ true
  replied req err l h = is_paced_same old now l (reply b gvr_string req err l) refl h

  retained :
      (q : PendingWrite Object Desired) (l : Loop Object Desired W)
      → is_paced old now l ≡ true
      → is_paced old now (retain q l) ≡ true
  retained q l h = is_paced_same old now l (retain q l) refl h

  scheduled :
      (req : ResyncRequest Desired) (l : Loop Object Desired W)
      → is_paced old now l ≡ true
      → is_paced old now (reply b gvr_string req none (maybe_schedule_push b now l)) ≡ true
  scheduled req l h =
      replied req none (maybe_schedule_push b now l) (maybe_schedule_push-is_paced b old now l h)

  flagged :
      (req : ResyncRequest Desired) (q : PendingWrite Object Desired) (l : Loop Object Desired W)
      (kept closed : Bool)
      → is_paced old now l ≡ true
      → is_paced old now (
          reply b gvr_string req none (
            if kept || closed
            then maybe_schedule_push b now (if kept then retain q l else l)
            else if kept
            then retain q l
            else l))
        ≡ true
  flagged req q l true closed h = scheduled req (retain q l) (retained q l h)
  flagged req q l false true h = scheduled req l h
  flagged req q l false false h = replied req none l h

  settled-is_paced :
      (req : ResyncRequest Desired) (closed : Bool) (l : Loop Object Desired W)
      → is_paced old now l ≡ true
      → is_paced old now (apply_settled_resync b gvr_string req now closed l) ≡ true
  unfolding apply_settled_resync
  settled-is_paced req closed l h = elim (Result-cases (build_resync_pending_write b req l.world)) [
    | inl (err, bad) ↦ rw bad (replied req (some err) l h)
    | inr (pw, good) ↦
        let c : Committed b =
          commit_pending_writes b (pw ∷ []) (not (is_empty l.pending_writes)) l.root l.world in
        let l2 : Loop Object Desired W = record l { root = c.root; world = c.world } in
        let paced : is_paced old now l2 ≡ true = is_paced_same old now l l2 refl h in
        elim (Option-cases c.error) [
          | inr (err, bad) ↦ rw (good, bad) (replied req (some err) l2 paced)
          | inl fine ↦ elim (List-cases c.writes) [
            | inl nothing ↦ rw (good, fine, nothing) paced
            | inr (q, rest, wrote) ↦
                rw (good, fine, wrote) (flagged req q l2 q.committed closed paced)
          ]
        ]
  ]

  apply_resync-is_paced :
      (req : ResyncRequest Desired) (l : Loop Object Desired W)
      → is_paced old now l ≡ true
      → is_paced old now (apply_resync b gvr_string req now l) ≡ true
  unfolding apply_resync
  apply_resync-is_paced req l h = ground (
    arith,
    finalize-is_paced l h,
    settled-is_paced req false l h,
    settled-is_paced req ((finalize_open_window b now l).1) ((finalize_open_window b now l).0),
  )

  apply_each-is_paced :
      (reqs : List (ResyncRequest Desired)) (l : Loop Object Desired W)
      → is_paced old now l ≡ true
      → is_paced old now (apply_each b gvr_string reqs now l) ≡ true
  unfolding apply_each
  apply_each-is_paced [] l h = h
  apply_each-is_paced (req ∷ reqs) l h =
      apply_each-is_paced reqs (apply_resync b gvr_string req now l) (apply_resync-is_paced req l h)

  heals-is_paced :
      (l : Loop Object Desired W)
      → is_paced old now l ≡ true
      → is_paced old now (apply_deferred_heals b gvr_string now l) ≡ true
  unfolding apply_deferred_heals
  heals-is_paced l h = ground (
    arith,
    h,
    apply_each-is_paced l.deferred_heals (record l { deferred_heals = [] }) (unfold is_paced in h),
  )

  resync-is_paced :
      (req : ResyncRequest Desired) (l : Loop Object Desired W)
      → is_paced old now l ≡ true
      → is_paced old now (handle_resync_request b gvr_string req now l) ≡ true
  unfolding handle_resync_request
  resync-is_paced req l h = ground (arith, apply_resync-is_paced req l h, stash)
    where
      stash : is_paced old now (stash_deferred_heal b gvr_string req l) ≡ true
      stash = unfold is_paced in unfold stash_deferred_heal in ground (arith, h)

  refused_same :
      (err : GitError) (name namespace : String) (l : Loop Object Desired W)
      → is_paced old now l ≡ true
      → is_paced old now (report_path_refusal b err name namespace l) ≡ true
  refused_same err name namespace l h =
      is_paced_same old now l (report_path_refusal b err name namespace l)
        (unfold report_path_refusal in ground arith) h

  settled_atomic-is_paced :
      (req : WriteRequest Object) (l : Loop Object Desired W)
      → is_paced old now l ≡ true
      → is_paced old now (apply_settled_atomic b gvr_string policy req now l) ≡ true
  unfolding apply_settled_atomic
  settled_atomic-is_paced req l h = elim (Result-cases (build_atomic_pending_write b req l.world)) [
    | inl (err, bad) ↦ rw bad h
    | inr (pw, good) ↦
        let c : Committed b =
          commit_pending_writes b (pw ∷ []) (not (is_empty l.pending_writes)) l.root l.world in
        let l2 : Loop Object Desired W = record l { root = c.root; world = c.world } in
        let paced : is_paced old now l2 ≡ true = is_paced_same old now l l2 refl h in
        elim (Option-cases c.error) [
          | inl fine ↦
              rw (good, fine)
                (maybe_schedule_push-is_paced b old now (retain pw l2) (retained pw l2 paced))
          | inr (err, bad) ↦ rw (good, bad) (refused_same err (target.0) (target.1) l2 paced)
        ]
  ]
    where
      target : String × String
      target = atomic_refusal_target b gvr_string policy req

  is_paced_kept : IsKept b gvr_string policy now (λ l. is_paced old now l ≡ true)
  is_paced_kept = record {
    same_rest = λ l m e h. is_paced_same old now l m (ap (λ r. (r.last_push_at, r.push_timer)) e) h;
    finalized = finalize-is_paced;
    scheduled = maybe_schedule_push-is_paced b old now;
    healed = heals-is_paced;
    wrote = settled_atomic-is_paced;
    opened = λ w n l h. unfold is_paced in h;
  }

  wake-is_paced :
      (cause : Wake b gvr_string policy) (l : Loop Object Desired W)
      → is_paced old now l ≡ true
      → (is_push b gvr_string policy now _ is_paced_kept cause ≡ true
          → is_paced old now (push_pending b now (record l { push_timer = none })) ≡ true)
      → is_paced old now (wake b gvr_string policy cause now l) ≡ true
  wake-is_paced (Wake.item (WorkItem.resync req)) l h pushed =
      item_wake_keeps b gvr_string policy now _ is_paced_kept (WorkItem.resync req) l
        (unfold handle_queue_item in resync-is_paced req l h)
  wake-is_paced (Wake.item (WorkItem.request req)) l h pushed =
      item_wake_keeps b gvr_string policy now _ is_paced_kept (WorkItem.request req) l (
        handle_item_keeps b gvr_string policy now _ is_paced_kept (WorkItem.request req) l
          (unfold is_resync in refl) h)
  wake-is_paced (Wake.item (WorkItem.attach req)) l h pushed =
      item_wake_keeps b gvr_string policy now _ is_paced_kept (WorkItem.attach req) l (
        handle_item_keeps b gvr_string policy now _ is_paced_kept (WorkItem.attach req) l
          (unfold is_resync in refl) h)
  wake-is_paced cause l h pushed =
      timer_wake_keeps b gvr_string policy now _ is_paced_kept cause l (unfold is_item in refl) h
        pushed

paced_parts :
    {Object Desired W : Type 0} (old : Option ℕ) (now : ℕ) (l : Loop Object Desired W)
    → is_paced old now l ≡ true
    → (is_cooled now (timers l) ≡ true) × (is_spaced old now l.last_push_at ≡ true)
unfolding is_paced
paced_parts old now l h = (ground (arith, h), ground (arith, h))

is_cooled-paced :
    {Object Desired W : Type 0} (t now : ℕ) (l : Loop Object Desired W)
    → t ≤ now
    → is_cooled t (timers l) ≡ true
    → is_paced l.last_push_at now l ≡ true
unfolding is_paced
is_cooled-paced t now l later h = elim (Option-cases l.last_push_at) [
  | inl never ↦ ground (arith, never)
  | inr (q, last) ↦ elim (Option-cases l.push_timer) [
    | inl off ↦ ground (arith, last, off, later, h)
    | inr (s, set) ↦ ground (arith, last, set, later, h)
  ]
]

module _ {Object Desired W : Type 0} (b : Backend Object Desired W)
    (gvr_string : ResyncScope → String) (policy : SensitiveResourcePolicy) where
  due_push :
      (cause : Wake b gvr_string policy) (t now : ℕ) (l : Loop Object Desired W)
      → t ≤ now
      → is_cooled t (timers l) ≡ true
      → IsDue b gvr_string policy cause now l
      → is_push b gvr_string policy now _
          (is_paced_kept b gvr_string policy l.last_push_at now)
          cause
        ≡ true
      → is_paced l.last_push_at now (push_pending b now (record l { push_timer = none })) ≡ true
  unfolding is_push
  due_push Wake.push_fires t now l later h due e =
      push_pending-is_paced b l.last_push_at now (record l { push_timer = none })
        (unfold is_paced in paced) over
    where
      paced :
          (is_cooled now (l.last_push_at, none) && is_spaced l.last_push_at now l.last_push_at)
          ≡ true
      paced = elim (Option-cases l.last_push_at) [
        | inl never ↦ ground (arith, never)
        | inr (q, last) ↦ elim (Option-cases l.push_timer) [
          | inl off ↦ ground (arith, last, off, later, h)
          | inr (s, set) ↦ ground (arith, last, set, later, h)
        ]
      ]

      over : (elim l.last_push_at [ none ↦ true | some q ↦ leb (q + push_cooldown) now ]) ≡ true
      over = elim (Option-cases l.last_push_at) [
        | inl never ↦ ground (arith, never)
        | inr (q, last) ↦ elim (Option-cases l.push_timer) [
          | inl off ↦ absurd (ground (arith, off, due.0))
          | inr (s, set) ↦ ground (arith, last, set, h, rw set at (due.1))
        ]
      ]
  due_push _ t now l later h due e = absurd (cc e)

  wake-is_cooled :
      (cause : Wake b gvr_string policy) (t now : ℕ) (l : Loop Object Desired W)
      → t ≤ now
      → is_cooled t (timers l) ≡ true
      → IsDue b gvr_string policy cause now l
      → is_paced l.last_push_at now (wake b gvr_string policy cause now l) ≡ true
  wake-is_cooled cause t now l later h due =
      wake-is_paced b gvr_string policy l.last_push_at now cause l (is_cooled-paced t now l later h)
        (due_push cause t now l later h due)

  Reach-is_cooled :
      (t : ℕ) (l : Loop Object Desired W)
      → Reach b gvr_string policy t l
      → is_cooled t (timers l) ≡ true
  unfolding new_branch_worker_event_loop
  Reach-is_cooled t l (Reach.start cw gate world) = refl
  Reach-is_cooled t l (Reach.woken {t = t2} {l = l2} r cause now later due) =
      (paced_parts _ now _ (wake-is_cooled cause t2 now l2 later (Reach-is_cooled t2 l2 r) due)).0
  Reach-is_cooled t l (Reach.gated {l = l2} r gate) = Reach-is_cooled t l2 r
  Reach-is_cooled t l (Reach.changed {l = l2} r world) = Reach-is_cooled t l2 r

  -- In every state that the event loop reaches, whatever the backend does, and for every wake of
  -- it: the last successful push after the wake is the one before it, or was made at the wake, and
  -- then the one before it, if any, is at least the cooldown of 5 seconds ago. The push
  -- at shutdown is no wake.
  pub wake-is_spaced :
      (cause : Wake b gvr_string policy) (t now : ℕ) (l : Loop Object Desired W)
      → Reach b gvr_string policy t l
      → t ≤ now
      → IsDue b gvr_string policy cause now l
      → is_spaced l.last_push_at now (wake b gvr_string policy cause now l).last_push_at ≡ true
  wake-is_spaced cause t now l r later due =
      (paced_parts _ now _ (wake-is_cooled cause t now l later (Reach-is_cooled t l r) due)).1
