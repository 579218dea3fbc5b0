-- ===== src/Git/Epoch.antt =====
-- What the reports of one epoch decide about the live writes of a target.
use gitops_reverser.Base.{
  ℕ, ◌+◌, ◌≡◌, refl, ◌∙◌, Bool, true, false, not, ◌&&◌, ◌||◌, List, [], ◌∷◌, map, String, string_eq,
  nat_eq, arith, eq_refl,
}
use Prim.Native.Nat.{◌%◌, ◌^◌}
use gitops_reverser.Base.Lists.{
  any, all, contains, all-and, all_cong, all-any-not, all_same_elements, all-contains,
}
use gitops_reverser.Base.Table.{Table, get, put, has, get-put, has-put}
use gitops_reverser.Git.Gate.{
  ScopeResult, pending_result, result_at, TargetState, state_at, Gate, keys, reduce_render_fidelity,
  ResourceReference, reference_key, allows_writes, status, RenderFidelityScope, scope_key,
  pending_scopes, begin, ready_status,
}
use gitops_reverser.Git.Reduction.{is_clean_at, contains-keys, reduce-all_clean}
use gitops_reverser.Git.Reports.{
  Report, run, is_clean_report, is_divergence, is_failure, is_open, final_scopes, run-final,
  has-final, clean-final, write-final, open_of_clean,
}

module _ {Gvr : Type 0} (gvr_string : Gvr → String) where
  abbrev pub scope_keys : List (RenderFidelityScope gvr_string) → List String
  scope_keys scopes = map (scope_key gvr_string) scopes

  has-pending_scopes :
      (scopes : List (RenderFidelityScope gvr_string)) (m : Table String ScopeResult) (k : String)
      → has k (pending_scopes gvr_string m scopes) ≡ (has k m || contains k (scope_keys scopes))
  unfolding pending_scopes
  has-pending_scopes [] m k = ground arith
  has-pending_scopes (s ∷ ss) m k = ground (
    arith,
    has-pending_scopes ss (put (scope_key gvr_string s) pending_result m) k,
    has-put (scope_key gvr_string s) k pending_result m,
  )

  has-begun :
      (scopes : List (RenderFidelityScope gvr_string)) (k : String)
      → has k (pending_scopes gvr_string [] scopes) ≡ contains k (scope_keys scopes)
  unfolding get
  has-begun scopes k = has-pending_scopes scopes [] k

  pending_scopes-pending :
      (scopes : List (RenderFidelityScope gvr_string)) (m : Table String ScopeResult) (k : String)
      → result_at (get k m) ≡ pending_result
      → result_at (get k (pending_scopes gvr_string m scopes)) ≡ pending_result
  unfolding pending_scopes
  pending_scopes-pending [] m k h = h
  pending_scopes-pending (s ∷ ss) m k h =
      pending_scopes-pending ss (put (scope_key gvr_string s) pending_result m) k
        (ground (arith, h, get-put (scope_key gvr_string s) k pending_result m))

  final-failed :
      (e : ℕ) (rs : List (Report gvr_string)) (m : Table String ScopeResult)
      → any (is_failure gvr_string) rs ≡ true
      → all (is_clean_at (final_scopes gvr_string e rs m)) (keys (final_scopes gvr_string e rs m))
        ≡ false
  final-failed e rs m f =
      let m2 = final_scopes gvr_string e rs m in
      ground (
        arith,
        all-contains (is_clean_at m2) (keys m2) "write",
        contains-keys "write" m2,
        has-final gvr_string e rs m "write",
        eq_refl {A = String} "write",
        write-final gvr_string e rs m,
        open_of_clean gvr_string m2 "write",
      )

  -- the verdict on the keys of the epoch, from the reports alone
  abbrev pub is_recorded_clean : ℕ → List String → List (Report gvr_string) → Bool
  is_recorded_clean e ks rs =
      all (λ k. any (is_clean_report gvr_string e k) rs) ks
      && not (any (λ r. any (λ k. is_divergence gvr_string e k r) ks) rs)

  final-steady :
      (e : ℕ) (rs : List (Report gvr_string)) (scopes : List (RenderFidelityScope gvr_string))
      → any (is_failure gvr_string) rs ≡ false
      → all
          (is_clean_at (final_scopes gvr_string e rs (pending_scopes gvr_string [] scopes)))
          (keys (final_scopes gvr_string e rs (pending_scopes gvr_string [] scopes)))
        ≡ is_recorded_clean e (scope_keys scopes) rs
  final-steady e rs scopes f =
      let m : Table String ScopeResult = pending_scopes gvr_string [] scopes in
      let m2 : Table String ScopeResult = final_scopes gvr_string e rs m in
      let ks : List String = scope_keys scopes in
      all_same_elements (is_clean_at m2) (keys m2) ks
        (λ k. ground (arith, contains-keys k m2, has-final gvr_string e rs m k, has-begun scopes k))
      ∙ all_cong (is_clean_at m2)
          (λ k.
            not (any (is_divergence gvr_string e k) rs) && any (is_clean_report gvr_string e k) rs)
          ks
          (λ k c. ground (
            arith,
            c,
            clean-final gvr_string e rs m k,
            has-begun scopes k,
            pending m k (pending_scopes-pending scopes [] k (unfold get in refl)),
          ))
      ∙ all-and (λ k. not (any (is_divergence gvr_string e k) rs))
          (λ k. any (is_clean_report gvr_string e k) rs) ks
      ∙ ground (arith, all-any-not (λ k r. is_divergence gvr_string e k r) ks rs)
    where
      pending :
          (m : Table String ScopeResult) (k : String)
          → result_at (get k m) ≡ pending_result
          → (is_open gvr_string m k ≡ true) × (is_clean_at m k ≡ false)
      pending m k h = unfold is_open in unfold is_clean_at in (rw h refl, rw h refl)

  epoch-reduce : (st : TargetState) → (reduce_render_fidelity st).epoch ≡ st.epoch
  unfolding reduce_render_fidelity ready_status
  epoch-reduce st = ground (arith)

  -- After an epoch begins for a target, and after any results and failures that reach the gate for
  -- it, the gate allows live writes exactly when no write failed, every scope of the epoch has a
  -- clean result that names the epoch, and no such result of one of those scopes reports a
  -- divergence.
  pub begin-allows_writes :
      (target : ResourceReference) (scopes : List (RenderFidelityScope gvr_string)) (g : Gate)
      (rs : List (Report gvr_string))
      → allows_writes target (run gvr_string target rs ((begin gvr_string target scopes g).0)) ≡ (
          not (any (is_failure gvr_string) rs)
          && is_recorded_clean ((begin gvr_string target scopes g).1).epoch (scope_keys scopes) rs)
  unfolding begin allows_writes status
  begin-allows_writes target scopes g rs =
      let st : TargetState = record {
        epoch = ((state_at (get (reference_key target) g)).epoch + 1) % 2 ^ 64;
        scopes = pending_scopes gvr_string [] scopes;
      } in
      let g2 : Gate = put (reference_key target) st g in
      rw
        (
          run-final gvr_string target rs g2 st (
              rw
                (
                  get-put (reference_key target) (reference_key target) st g,
                  eq_refl (reference_key target),
                )
                refl),
          epoch-reduce st,
        )
        (ground (
          arith,
          reduce-all_clean (record st { scopes = final_scopes gvr_string st.epoch rs st.scopes }),
          final-failed st.epoch rs st.scopes,
          final-steady st.epoch rs scopes,
        ))
