-- ===== src/Base/Holds.antt =====
-- Predicates on all entries of a dictionary.
use mathlib.Core.Path.{◌≡◌, subst}
use mathlib.Core.Logic.{inl, inr}
use mathlib.Core.Option.{some, some-injective}
use mathlib.Core.List.{[]}
use fund_forge.Base.Tests.{Eq, ◌==◌, Bool-cases}
use fund_forge.Base.Dict.{Dict, lookup, insert, erase, lookup-insert, lookup-erase}

module _ {ℓ κ μ} {K : Type ℓ} {V : Type κ} ⦃e : Eq K⦄ (P : K → V → Type μ) where
  -- Every entry that a lookup finds has the property.
  unfoldable pub Holds : Dict K V → Type (ℓ ⊔ κ ⊔ μ)
  Holds m = (k : K) (v : V) → lookup k m ≡ some v → P k v

  pub nil-Holds : Holds []
  unfolding Holds lookup
  nil-Holds k v h = cc

  pub lookup-Holds : (k : K) (v : V) (m : Dict K V) → Holds m → lookup k m ≡ some v → P k v
  unfolding Holds
  lookup-Holds k v m all h = all k v h

  pub insert-Holds : (k : K) (v : V) (m : Dict K V) → P k v → Holds m → Holds (insert k v m)
  unfolding Holds
  insert-Holds k v m p all j w h = elim (Bool-cases (k == j)) [
    | inl same ↦
        subst (λ i. P i w) ((e.beq_iff k j).0 same)
          (subst (P k) (some-injective _ _ (rw (lookup-insert, same) at h)) p)
    | inr different ↦ all j w (rw (lookup-insert, different) at h)
  ]

  pub erase-Holds : (k : K) (m : Dict K V) → Holds m → Holds (erase k m)
  unfolding Holds
  erase-Holds k m all j w h = elim (Bool-cases (k == j)) [
    | inl same ↦ cc (rw (lookup-erase, same) at h)
    | inr different ↦ all j w (rw (lookup-erase, different) at h)
  ]
