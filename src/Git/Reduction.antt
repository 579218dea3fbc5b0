-- ===== src/Git/Reduction.antt =====
-- How the gate reduces the results of the scopes of a target.
use gitops_reverser.Base.{
  ℕ, ◌+◌, ◌≡◌, ◌≤◌, refl, Bool, true, ◌&&◌, List, [], ◌∷◌, ◌==◌, String, string_eq, nat_eq, is_none,
  arith,
}
use gitops_reverser.Base.Lists.{length, all, contains}
use gitops_reverser.Base.Sort.{sort_by, text_lt, all-sort_by, length-sort_by}
use gitops_reverser.Base.Table.{Table, get, has}
use gitops_reverser.Git.Gate.{
  is_true_state, ScopeResult, result_at, TargetState, keys, reduce_scopes, reduce_render_fidelity,
  ready_status,
}

abbrev pub is_clean_result : ScopeResult → Bool
is_clean_result r = r.finished && (is_none r.divergence && r.clean)

unfoldable pub is_clean_at : Table String ScopeResult → String → Bool
is_clean_at m k = is_clean_result (result_at (get k m))

reduce_scopes_bound :
    (m : Table String ScopeResult) (n : ℕ) (ks : List String)
    → is_none ((reduce_scopes m n ks).0) ≡ true
    → (reduce_scopes m n ks).1 ≤ n + length ks
unfolding reduce_scopes
reduce_scopes_bound m n [] h = ground arith
reduce_scopes_bound m n (k ∷ ks) h =
    ground (arith, reduce_scopes_bound m n ks, reduce_scopes_bound m (n + 1) ks)

reduce_scopes-all :
    (m : Table String ScopeResult) (n : ℕ) (ks : List String)
    → (is_none ((reduce_scopes m n ks).0) && (reduce_scopes m n ks).1 == n + length ks)
      ≡ all (is_clean_at m) ks
unfolding reduce_scopes is_clean_at
reduce_scopes-all m n [] = ground arith
reduce_scopes-all m n (k ∷ ks) =
    ground
      (arith, reduce_scopes-all m n ks, reduce_scopes-all m (n + 1) ks, reduce_scopes_bound m n ks)

length-keys : (m : Table String ScopeResult) → length (keys m) ≡ length m
length-keys [] = refl
length-keys ((k, r) ∷ m) = ground (arith, length-keys m)

pub contains-keys : (k : String) (m : Table String ScopeResult) → contains k (keys m) ≡ has k m
unfolding get
contains-keys k [] = refl
contains-keys k ((j, r) ∷ m) = ground (arith, contains-keys k m)

pub reduce-all_clean :
    (st : TargetState)
    → is_true_state (reduce_render_fidelity st).state ≡ all (is_clean_at st.scopes) (keys st.scopes)
unfolding reduce_render_fidelity ready_status
reduce-all_clean st = ground (
  arith,
  reduce_scopes-all st.scopes 0 (sort_by text_lt (keys st.scopes)),
  all-sort_by text_lt (is_clean_at st.scopes) (keys st.scopes),
  length-sort_by text_lt (keys st.scopes),
  length-keys st.scopes,
)
