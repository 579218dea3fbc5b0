-- ===== src/Git/Reports.antt =====
-- What the reports that reach the gate make of the results of the scopes.
use gitops_reverser.Base.{
  ℕ, ◌≡◌, refl, Bool, true, false, not, ◌&&◌, ◌||◌, Option, none, some, List, [], ◌∷◌, ◌==◌, String,
  string_eq, nat_eq, if◌then◌else◌, is_none, is_some, arith, Option-cases, inl, inr, eq_refl,
}
use gitops_reverser.Base.Lists.{any}
use gitops_reverser.Base.Table.{Table, get, put, has, get-put, has-put}
use gitops_reverser.Git.Gate.{
  RenderDivergence, ScopeResult, result_at, TargetState, Gate, ResourceReference, reference_key,
  fail, RenderFidelityScope, scope_key, record_scope,
}
use gitops_reverser.Git.Reduction.{is_clean_at}

module _ {Gvr : Type 0} (gvr_string : Gvr → String) where
  -- what may reach the gate during an epoch
  pub data Report : Type 0 where
    scope : ℕ → RenderFidelityScope gvr_string → Option RenderDivergence → Report
    failure : RenderDivergence → Report

  abbrev pub report : ResourceReference → Report → Gate → Gate
  report target (Report.scope e s d) g = (record_scope gvr_string target e s d g).0
  report target (Report.failure d) g = (fail target d g).0

  unfoldable pub run : ResourceReference → List Report → Gate → Gate
  run target [] g = g
  run target (r ∷ rs) g = run target rs (report target r g)

  -- a clean result of the epoch for the key
  unfoldable pub is_clean_report : ℕ → String → Report → Bool
  is_clean_report e k (Report.scope e2 s d) = e2 == e && (scope_key gvr_string s == k && is_none d)
  is_clean_report e k (Report.failure d) = false

  -- a divergence of the epoch for the key
  unfoldable pub is_divergence : ℕ → String → Report → Bool
  is_divergence e k (Report.scope e2 s d) = e2 == e && (scope_key gvr_string s == k && is_some d)
  is_divergence e k (Report.failure d) = false

  abbrev pub is_failure : Report → Bool
  is_failure (Report.scope e2 s d) = false
  is_failure (Report.failure d) = true

  recorded :
      String
      → Option RenderDivergence
      → Option ScopeResult
      → Table String ScopeResult
      → Table String ScopeResult
  recorded k d none m = m
  recorded k d (some r) m =
      if is_some r.divergence && is_none d
      then m
      else put k (record { finished = true; clean = is_none d; divergence = d }) m

  next_scopes : ℕ → Report → Table String ScopeResult → Table String ScopeResult
  unfolding recorded
  next_scopes e (Report.scope e2 s d) m =
      if e == e2 then recorded (scope_key gvr_string s) d (get (scope_key gvr_string s) m) m else m
  next_scopes e (Report.failure d) m =
      put "write" (record { clean = false; finished = true; divergence = some d }) m

  report-next :
      (target : ResourceReference) (r : Report) (g : Gate) (st : TargetState)
      → get (reference_key target) g ≡ some st
      → get (reference_key target) (report target r g)
        ≡ some (record st { scopes = next_scopes st.epoch r st.scopes })
  unfolding record_scope fail next_scopes recorded
  report-next target (Report.scope e s d) g st h =
      let r : Report = Report.scope e s d in
      elim (Option-cases (get (scope_key gvr_string s) st.scopes)) [
        | inl absent ↦ ground (arith, h, absent)
        | inr (result, found) ↦ ground (
          arith,
          h,
          found,
          get-put (reference_key target) (reference_key target)
              (record st { scopes = next_scopes st.epoch r st.scopes }) g,
          eq_refl (reference_key target),
        )
      ]
  report-next target (Report.failure d) g st h = ground (
    arith,
    h,
    get-put (reference_key target) (reference_key target)
        (record st { scopes = next_scopes st.epoch (Report.failure d) st.scopes }) g,
    eq_refl (reference_key target),
  )

  pub final_scopes : ℕ → List Report → Table String ScopeResult → Table String ScopeResult
  final_scopes e [] m = m
  final_scopes e (r ∷ rs) m = final_scopes e rs (next_scopes e r m)

  pub run-final :
      (target : ResourceReference) (rs : List Report) (g : Gate) (st : TargetState)
      → get (reference_key target) g ≡ some st
      → get (reference_key target) (run target rs g)
        ≡ some (record st { scopes = final_scopes st.epoch rs st.scopes })
  unfolding run final_scopes
  run-final target [] g st h = h
  run-final target (r ∷ rs) g st h =
      run-final target rs (report target r g) _ (report-next target r g st h)

  has-next :
      (e : ℕ) (r : Report) (m : Table String ScopeResult) (k : String)
      → has k (next_scopes e r m) ≡ (has k m || (is_failure r && "write" == k))
  unfolding next_scopes recorded
  has-next e (Report.scope e2 s d) m k = elim (Option-cases (get (scope_key gvr_string s) m)) [
    | inl absent ↦ rw absent (ground arith)
    | inr (result, found) ↦ rw found (
        ground (
          arith,
          has-put (scope_key gvr_string s) k
              (record { finished = true; clean = is_none d; divergence = d }) m,
          string_eq.beq_iff (scope_key gvr_string s) k,
        ))
  ]
  has-next e (Report.failure d) m k = rw (has-put "write" k _ m) (ground arith)

  pub has-final :
      (e : ℕ) (rs : List Report) (m : Table String ScopeResult) (k : String)
      → has k (final_scopes e rs m) ≡ (has k m || (any is_failure rs && "write" == k))
  unfolding final_scopes
  has-final e [] m k = ground arith
  has-final e (r ∷ rs) m k = ground (arith, has-final e rs (next_scopes e r m) k, has-next e r m k)

  unfoldable pub is_open : Table String ScopeResult → String → Bool
  is_open m k = is_none (result_at (get k m)).divergence

  open-next :
      (e : ℕ) (r : Report) (m : Table String ScopeResult) (k : String)
      → has k m ≡ true
      → is_failure r ≡ false
      → is_open (next_scopes e r m) k ≡ (is_open m k && not (is_divergence e k r))
  unfolding is_open next_scopes recorded is_divergence
  open-next e (Report.scope e2 s d) m k h f = elim (Option-cases (get (scope_key gvr_string s) m)) [
    | inl absent ↦ ground (arith, h, absent, string_eq.beq_iff (scope_key gvr_string s) k)
    | inr (result, found) ↦ ground (
      arith,
      h,
      found,
      get-put (scope_key gvr_string s) k
          (record { finished = true; clean = is_none d; divergence = d }) m,
      string_eq.beq_iff (scope_key gvr_string s) k,
    )
  ]
  open-next e (Report.failure d) m k h f = absurd (cc f)

  -- what the result of a key that is there says after one more report
  clean-next :
      (e : ℕ) (r : Report) (m : Table String ScopeResult) (k : String)
      → has k m ≡ true
      → is_failure r ≡ false
      → is_clean_at (next_scopes e r m) k
        ≡ (not (is_divergence e k r) && (is_open m k && (is_clean_at m k || is_clean_report e k r)))
  unfolding is_open next_scopes recorded is_divergence is_clean_report is_clean_at
  clean-next e (Report.scope e2 s d) m k h f =
      elim (Option-cases (get (scope_key gvr_string s) m)) [
        | inl absent ↦ ground (arith, h, absent, string_eq.beq_iff (scope_key gvr_string s) k)
        | inr (result, found) ↦ ground (
          arith,
          h,
          found,
          get-put (scope_key gvr_string s) k
              (record { finished = true; clean = is_none d; divergence = d }) m,
          string_eq.beq_iff (scope_key gvr_string s) k,
        )
      ]
  clean-next e (Report.failure d) m k h f = absurd (cc f)

  pub clean-final :
      (e : ℕ) (rs : List Report) (m : Table String ScopeResult) (k : String)
      → has k m ≡ true
      → any is_failure rs ≡ false
      → is_clean_at (final_scopes e rs m) k ≡ (
          not (any (is_divergence e k) rs)
          && (is_open m k && (is_clean_at m k || any (is_clean_report e k) rs)))
  unfolding final_scopes
  clean-final e [] m k h f = ground (arith, clean_open)
    where
      clean_open : is_clean_at m k ≡ true → is_open m k ≡ true
      clean_open = unfold is_clean_at in unfold is_open in λ c. ground arith
  clean-final e (r ∷ rs) m k h f = ground (
    arith,
    clean-final e rs (next_scopes e r m) k,
    has-next e r m k,
    open-next e r m k,
    clean-next e r m k,
  )

  -- a failed write leaves the key "write" diverged
  write-next :
      (e : ℕ) (r : Report) (m : Table String ScopeResult)
      → is_open m "write" ≡ false
      → is_open (next_scopes e r m) "write" ≡ false
  unfolding is_open next_scopes recorded
  write-next e (Report.scope e2 s d) m h = elim (Option-cases (get (scope_key gvr_string s) m)) [
    | inl absent ↦ ground (arith, h, absent)
    | inr (result, found) ↦ ground (
      arith,
      h,
      found,
      get-put (scope_key gvr_string s) "write"
          (record { finished = true; clean = is_none d; divergence = d }) m,
      string_eq.beq_iff (scope_key gvr_string s) "write",
    )
  ]
  write-next e (Report.failure d) m h =
      rw
        (get-put "write" "write" (record { clean = false; finished = true; divergence = some d }) m)
        refl

  write-failure :
      (e : ℕ) (r : Report) (m : Table String ScopeResult)
      → is_failure r ≡ true
      → is_open (next_scopes e r m) "write" ≡ false
  unfolding is_open next_scopes
  write-failure e (Report.scope e2 s d) m f = absurd (cc f)
  write-failure e (Report.failure d) m f =
      rw
        (get-put "write" "write" (record { clean = false; finished = true; divergence = some d }) m)
        refl

  pub write-final :
      (e : ℕ) (rs : List Report) (m : Table String ScopeResult)
      → (is_open m "write" && not (any is_failure rs)) ≡ false
      → is_open (final_scopes e rs m) "write" ≡ false
  unfolding final_scopes
  write-final e [] m h = ground arith
  write-final e (r ∷ rs) m h =
      write-final e rs (next_scopes e r m)
        (ground (arith, h, write-next e r m, write-failure e r m))

  pub open_of_clean :
      (m : Table String ScopeResult) (k : String) → is_clean_at m k ≡ true → is_open m k ≡ true
  unfolding is_open is_clean_at
  open_of_clean m k h = ground arith
