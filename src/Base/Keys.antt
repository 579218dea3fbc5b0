-- ===== src/Base/Keys.antt =====
-- The set of the keys whose values pass a test.
use mathlib.Core.Path.{◌≡◌, refl}
use mathlib.Core.Bool.{Bool, true, false}
use mathlib.Core.Option.{Option, none, some}
use mathlib.Core.List.{List, [], ◌∷◌}
use native.Mathlib.Omega.{arith}
use gitops_reverser.Base.Tests.{if◌then◌else◌}
use gitops_reverser.Base.Eq.{EqType}
use gitops_reverser.Base.Lists.{contains}
use gitops_reverser.Base.Sets.{Distinct}
use gitops_reverser.Base.Table.{Table, get, UniqueKeys}

abbrev pub passes {κ} : {V : Type κ} → (V → Bool) → Option V → Bool
passes p none = false
passes p (some v) = p v

module _ {ℓ κ} {K : Type ℓ} {V : Type κ} ⦃e : EqType K⦄ (p : V → Bool) where
  unfoldable pub keys_where : Table K V → List K
  keys_where [] = []
  keys_where ((k, v) ∷ m) = let rest = keys_where m in if p v then k ∷ rest else rest

  keys_where_fresh : (k : K) (m : Table K V) → get k m ≡ none → contains k (keys_where m) ≡ false
  unfolding get keys_where
  keys_where_fresh k [] h = refl
  keys_where_fresh k ((j, v) ∷ m) h = ground (arith, keys_where_fresh k m)

  pub contains-keys_where :
      (k : K) (m : Table K V) → UniqueKeys m → contains k (keys_where m) ≡ passes p (get k m)
  unfolding get keys_where
  contains-keys_where k [] u = refl
  contains-keys_where k ((j, v) ∷ m) u =
      ground (arith, contains-keys_where k m (u.1), keys_where_fresh j m (u.0), e.beq_iff j k)

  pub keys_where-Distinct : (m : Table K V) → UniqueKeys m → Distinct (keys_where m)
  unfolding keys_where
  keys_where-Distinct [] u = tt
  keys_where-Distinct ((j, v) ∷ m) u =
      if_keeps (p v) j (keys_where m) (keys_where_fresh j m (u.0)) (keys_where-Distinct m (u.1))
    where
      if_keeps :
          (b : Bool) (k : K) (ks : List K)
          → contains k ks ≡ false
          → Distinct ks
          → Distinct (if b then k ∷ ks else ks)
      if_keeps true k ks h d = (h, d)
      if_keeps false k ks h d = d
