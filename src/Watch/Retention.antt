-- ===== src/Watch/Retention.antt =====
-- internal/watch/retention_rollup.go: what the prune policy of a target kept, summed over its
-- scopes.
use gitops_reverser.Base.{
  ℕ, ◌+◌, Bool, true, false, not, ◌||◌, Option, none, some, [], ◌∷◌, ◌==◌, String, string_eq,
  nat_eq, if◌then◌else◌, ltb, EqType,
}
use gitops_reverser.Base.Table.{Table, get, put, remove}
use gitops_reverser.Api.Prune.{PruneMode, or_default}
use gitops_reverser.Git.Gate.{ResourceReference, reference_key}

pub record RetentionSummary : Type 0 where
  pub reported : Bool
  pub mode : PruneMode
  pub retained_documents : ℕ
  pub observed_time : Option ℕ

-- `K` is targetWatchKey, a group, version, resource and namespace
pub record TargetRetentionState (K : Type 0) : Type 0 where
  pub epoch : ℕ
  pub scopes : Table K ℕ
  pub mode : PruneMode
  pub observed : ℕ

unfoldable pub total : {K : Type 0} → Table K ℕ → ℕ
total [] = 0
total ((k, retained) ∷ scopes) = retained + total scopes

-- the arguments of MarkTargetRetention, with the time of the call
pub record Mark (K : Type 0) : Type 0 where
  pub git_dest : ResourceReference
  pub key : K
  pub epoch : ℕ
  pub mode : PruneMode
  pub retained : ℕ
  pub now : ℕ

unfoldable pub same_mode : PruneMode → PruneMode → Bool
same_mode PruneMode.unset PruneMode.unset = true
same_mode PruneMode.never PruneMode.never = true
same_mode PruneMode.on_event PruneMode.on_event = true
same_mode PruneMode.always PruneMode.always = true
same_mode (PruneMode.other m) (PruneMode.other n) = m == n
same_mode _ _ = false

module _ {K : Type 0} ⦃e : EqType K⦄ where
  -- the scopes that the report adds to: those of its epoch, or none of an older one
  abbrev pub scopes_of : ℕ → Option (TargetRetentionState K) → Table K ℕ
  scopes_of epoch none = []
  scopes_of epoch (some st) = if ltb st.epoch epoch then [] else st.scopes

  -- the state after the report, with the flag that asks for a refresh of the status
  unfoldable pub mark_target_retention :
      Mark K → Table String (TargetRetentionState K) → Table String (TargetRetentionState K) × Bool
  unfolding total same_mode or_default
  mark_target_retention m table = found (get (reference_key m.git_dest) table)
    where
      next : Option (TargetRetentionState K) → (TargetRetentionState K)
      next old = record {
        epoch = m.epoch;
        scopes = put m.key m.retained (scopes_of m.epoch old);
        mode = or_default m.mode;
        observed = m.now;
      }

      found : Option (TargetRetentionState K) → Table String (TargetRetentionState K) × Bool
      found none = (put (reference_key m.git_dest) (next none) table, true)
      found (some st) =
          if ltb m.epoch st.epoch
          then (table, false)
          else let new = next (some st) in
            (
              put (reference_key m.git_dest) new table,
              not (total new.scopes == total st.scopes) || not (same_mode new.mode st.mode),
            )

  unfoldable pub retention_for_git_target :
      ResourceReference → Table String (TargetRetentionState K) → RetentionSummary
  unfolding total
  retention_for_git_target git_dest table = of (get (reference_key git_dest) table)
    where
      of : Option (TargetRetentionState K) → RetentionSummary
      of none = record {
        reported = false;
        mode = PruneMode.unset;
        retained_documents = 0;
        observed_time = none;
      }
      of (some st) = record {
        reported = true;
        mode = st.mode;
        retained_documents = total st.scopes;
        observed_time = some st.observed;
      }

  unfoldable pub forget_target_retention :
      ResourceReference
      → Table String (TargetRetentionState K)
      → Table String (TargetRetentionState K)
  forget_target_retention git_dest table = remove (reference_key git_dest) table
