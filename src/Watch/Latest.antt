-- ===== src/Watch/Latest.antt =====
-- What the roll-up holds after a history of reports.
use gitops_reverser.Base.{
  ℕ, ◌≡◌, ◌<◌, refl, Bool, ◌&&◌, Option, none, some, List, [], ◌∷◌, ◌==◌, String, string_eq, nat_eq,
  if◌then◌else◌, arith, Option-cases, Bool-cases, inl, inr, ltb, EqType,
}
use gitops_reverser.Base.Table.{Table, get, put, get-put}
use gitops_reverser.Api.Prune.{or_default}
use gitops_reverser.Git.Gate.{reference_key}
use gitops_reverser.Watch.Retention.{Mark, TargetRetentionState, mark_target_retention, scopes_of}

module _ {K : Type 0} ⦃e : EqType K⦄ where
  -- the table after a history of reports, the newest first
  unfoldable pub marked : List (Mark K) → Table String (TargetRetentionState K)
  marked [] = []
  marked (m ∷ ms) = (mark_target_retention m (marked ms)).0

  abbrev pub is_about : String → Mark K → Bool
  is_about target m = reference_key m.git_dest == target

  unfoldable pub latest_epoch : String → List (Mark K) → ℕ
  latest_epoch target [] = 0
  latest_epoch target (m ∷ ms) =
      let rest = latest_epoch target ms in
      if is_about target m && ltb rest m.epoch then m.epoch else rest

  -- the count of the newest report of the epoch for the scope
  unfoldable pub newest : String → ℕ → K → List (Mark K) → Option ℕ
  newest target epoch k [] = none
  newest target epoch k (m ∷ ms) =
      let rest = newest target epoch k ms in
      if is_about target m && (m.epoch == epoch && m.key == k) then some m.retained else rest

  newest-later :
      (target : String) (epoch : ℕ) (k : K) (ms : List (Mark K))
      → latest_epoch target ms < epoch
      → newest target epoch k ms ≡ none
  unfolding newest latest_epoch
  newest-later target epoch k [] h = refl
  newest-later target epoch k (m ∷ ms) h = ground (arith, h, newest-later target epoch k ms)

  abbrev pub count_in : K → Option (TargetRetentionState K) → Option ℕ
  count_in k none = none
  count_in k (some st) = get k st.scopes

  abbrev pub epoch_in : Option (TargetRetentionState K) → ℕ
  epoch_in none = 0
  epoch_in (some st) = st.epoch

  -- the state of the target of a report, after it
  abbrev after : Mark K → Option (TargetRetentionState K) → Option (TargetRetentionState K)
  after m old =
      if ltb m.epoch (epoch_in old)
      then old
      else some (record {
        epoch = m.epoch;
        scopes = put m.key m.retained (scopes_of m.epoch old);
        mode = or_default m.mode;
        observed = m.now;
      })

  get-mark :
      (target : String) (m : Mark K) (table : Table String (TargetRetentionState K))
      → get target ((mark_target_retention m table).0)
        ≡ (if is_about target m then after m (get target table) else get target table)
  unfolding mark_target_retention
  get-mark target m table =
      let here = reference_key m.git_dest in
      let fresh : Option (TargetRetentionState K) → TargetRetentionState K = λ old. record {
        epoch = m.epoch;
        scopes = put m.key m.retained (scopes_of m.epoch old);
        mode = or_default m.mode;
        observed = m.now;
      } in
      elim (Option-cases (get here table)) [
        | inl absent ↦
            ground
              (arith, absent, get-put here target (fresh none) table, string_eq.beq_iff here target)
        | inr (st, there) ↦ ground (
          arith,
          there,
          get-put here target (fresh (some st)) table,
          string_eq.beq_iff here target,
        )
      ]

  epoch_in-after :
      (m : Mark K) (old : Option (TargetRetentionState K))
      → epoch_in (after m old) ≡ (if ltb (epoch_in old) m.epoch then m.epoch else epoch_in old)
  epoch_in-after m none = ground arith
  epoch_in-after m (some st) = ground arith

  count_in-after :
      (m : Mark K) (k : K) (old : Option (TargetRetentionState K))
      → count_in k (after m old) ≡ (
          if m.epoch == epoch_in (after m old) && m.key == k
          then some m.retained
          else if ltb (epoch_in old) m.epoch
          then none
          else count_in k old)
  unfolding get
  count_in-after m k none = ground (arith, get-put m.key k m.retained [])
  count_in-after m k (some st) =
      ground (arith, get-put m.key k m.retained st.scopes, get-put m.key k m.retained [])

  -- After any history of reports, from an empty roll-up and without a deletion, the roll-up of a
  -- target stands at the latest epoch that a report for the target names, and holds for each scope
  -- the count of the newest report of that epoch for it, and no count for a scope without one.
  pub count_in-marked :
      (target : String) (k : K) (ms : List (Mark K))
      → (epoch_in (get target (marked ms)) ≡ latest_epoch target ms)
        × (count_in k (get target (marked ms)) ≡ newest target (latest_epoch target ms) k ms)
  unfolding marked latest_epoch newest get
  count_in-marked target k [] = (refl, refl)
  count_in-marked target k (m ∷ ms) =
      let old = get target (marked ms) in
      let both = count_in-marked target k ms in
      let moved = epoch_in-after m old in
      let counted = count_in-after m k old in
      rw (get-mark target m (marked ms)) (elim (Bool-cases (is_about target m)) [
        | inr other ↦ (ground (arith, other, both.0), ground (arith, other, both.1))
        | inl here ↦ (
          ground (arith, here, both.0, moved),
          ground (arith, here, both.0, both.1, moved, counted, newest-later target m.epoch k ms),
        )
      ])
