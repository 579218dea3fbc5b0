-- ===== src/Git/Timers.antt =====
-- The time of the last push and the timer of the next, and what keeps them in step.
use gitops_reverser.Base.{
  ℕ, ◌+◌, ◌≡◌, refl, ap, ◌∙◌, Bool, true, ◌&&◌, ◌||◌, Option, none, some, [], ◌∷◌, ◌==◌, String,
  arith, is_none, leb, nat_eq, Option-cases, inl, inr,
}
use gitops_reverser.Base.Result.{Result-cases}
use gitops_reverser.Base.Text.{concat_text}
use gitops_reverser.Git.Model.{OpenWindow, CommitRequestId, ordered_events}
use gitops_reverser.Git.Pending.{PendingWrite, Backend, build_grouped_pending_write}
use gitops_reverser.Git.Push.{Pushed, push_pending_commits}
use gitops_reverser.Git.Worker.{
  Loop, push_cooldown, push_pending, maybe_schedule_push, finalize_open_window, commit_window_write,
  drop_open_window, report_path_refusal, resolve_commit_request,
}

-- The last push and the timer of the next. The last push is not in the future, and the timer is not
-- set before the end of its cooldown.
abbrev pub is_cooled : ℕ → Option ℕ × Option ℕ → Bool
is_cooled now (none, timer) = true
is_cooled now (some q, none) = leb q now
is_cooled now (some q, some t) = leb q now && leb (q + push_cooldown) t

-- the last push is `old`, or was made now, after the cooldown of `old`
abbrev pub is_spaced : Option ℕ → ℕ → Option ℕ → Bool
is_spaced old now none = is_none old
is_spaced none now (some q) = q == now
is_spaced (some p) now (some q) = q == p || (q == now && leb (p + push_cooldown) now)

-- the time of the last push, and the timer of the next
abbrev pub timers : {Object Desired W : Type 0} → Loop Object Desired W → Option ℕ × Option ℕ
timers l = (l.last_push_at, l.push_timer)

module _ {Object Desired W : Type 0} where
  unfoldable pub is_paced : Option ℕ → ℕ → Loop Object Desired W → Bool
  is_paced old now l = is_cooled now (timers l) && is_spaced old now l.last_push_at

module _ {Object Desired W : Type 0} (b : Backend Object Desired W) (old : Option ℕ) (now : ℕ) where
  pub push_pending-is_paced :
      (l : Loop Object Desired W)
      → is_paced old now l ≡ true
      → (elim l.last_push_at [ none ↦ true | some q ↦ leb (q + push_cooldown) now ]) ≡ true
      → is_paced old now (push_pending b now l) ≡ true
  unfolding is_paced push_pending push_cooldown
  push_pending-is_paced l h due =
      let p : Pushed b = push_pending_commits b l.pending_writes l.root l.world in
      ground (arith, h, due)

  pub maybe_schedule_push-is_paced :
      (l : Loop Object Desired W)
      → is_paced old now l ≡ true
      → is_paced old now (maybe_schedule_push b now l) ≡ true
  unfolding is_paced maybe_schedule_push push_cooldown
  maybe_schedule_push-is_paced l h = ground (arith, h, push_pending-is_paced l h)

module _ {Object Desired W : Type 0} where
  pub is_paced_same :
      (old : Option ℕ) (now : ℕ) (l m : Loop Object Desired W)
      → timers m ≡ timers l
      → is_paced old now l ≡ true
      → is_paced old now m ≡ true
  unfolding is_paced
  is_paced_same old now l m e h = ap (λ x. is_cooled now x && is_spaced old now (x.0)) e ∙ h

module _ {Object Desired W : Type 0} (b : Backend Object Desired W) (now : ℕ) where
  timers-drop :
      (cr : Option CommitRequestId) (cause : String) (l : Loop Object Desired W)
      → timers (drop_open_window b cr cause now l) ≡ timers l
  unfolding drop_open_window resolve_commit_request
  timers-drop none cause l = refl
  timers-drop (some id) cause l = refl

  timers-commit_window_write :
      (w : OpenWindow Object) (pw : PendingWrite Object Desired) (l : Loop Object Desired W)
      → timers ((commit_window_write b now w pw l).0) ≡ timers l
  unfolding drop_open_window resolve_commit_request report_path_refusal
  timers-commit_window_write w pw l = ground arith

  pub timers-finalize :
      (l : Loop Object Desired W) → timers ((finalize_open_window b now l).0) ≡ timers l
  unfolding finalize_open_window
  timers-finalize l = elim (Option-cases l.open_window) [
    | inl closed ↦ ground (arith, closed)
    | inr (w, opened) ↦
        let l2 : Loop Object Desired W = record l { commit_timer = none } in
        elim (Result-cases (build_grouped_pending_write b (ordered_events w) l2.world)) [
          | inl (err, bad) ↦ ground (
            arith,
            opened,
            bad,
            timers-drop w.pending_cr "render fidelity gate is closed" l2,
            timers-drop w.pending_cr (concat_text ("build pending write: " ∷ err.text ∷ [])) l2,
          )
          | inr (pw, good) ↦ ground (
            arith,
            opened,
            good,
            timers-drop w.pending_cr "render fidelity gate is closed" l2,
            timers-commit_window_write w
                (record pw { commit_message = w.pending_message; commit_request = w.pending_cr })
                l2,
          )
        ]
  ]
