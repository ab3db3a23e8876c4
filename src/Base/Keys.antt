-- ===== src/Base/Keys.antt =====
-- Dictionaries in which every key stands once.
use mathlib.Core.Path.{◌≡◌, refl, subst}
use mathlib.Core.Logic.{inl, inr}
use mathlib.Core.Option.{none}
use mathlib.Core.List.{[], ◌∷◌}
use native.Mathlib.Omega.{arith}
use fund_forge.Base.Tests.{Eq, ◌==◌, Bool-cases, beq_refl}
use fund_forge.Base.Lists.{All}
use fund_forge.Base.Dict.{Dict, lookup, insert, erase, lookup-insert, lookup-erase}
use fund_forge.Base.Holds.{Holds}

module _ {ℓ κ} {K : Type ℓ} {V : Type κ} ⦃e : Eq K⦄ where
  unfoldable pub IsUnique : Dict K V → Type κ
  IsUnique [] = Unit
  IsUnique ((k, _) ∷ m) = (lookup k m ≡ none) × IsUnique m

  pub insert-IsUnique : (k : K) (v : V) (m : Dict K V) → IsUnique m → IsUnique (insert k v m)
  unfolding IsUnique insert lookup
  insert-IsUnique k v [] h = (refl, tt)
  insert-IsUnique k v ((j, w) ∷ m) (fresh, others) = elim (Bool-cases (j == k)) [
    | inl same ↦ rw same (subst (λ i. lookup i m ≡ none) ((e.beq_iff j k).0 same) fresh, others)
    | inr different ↦ rw different (
      ground (arith, lookup-insert k j v m, e.beq_iff j k, e.beq_iff k j, fresh, different),
      insert-IsUnique k v m others,
    )
  ]

  pub erase-IsUnique : (k : K) (m : Dict K V) → IsUnique m → IsUnique (erase k m)
  unfolding IsUnique erase
  erase-IsUnique k [] h = tt
  erase-IsUnique k ((j, w) ∷ m) (fresh, others) = elim (Bool-cases (j == k)) [
    | inl same ↦ rw same (erase-IsUnique k m others)
    | inr different ↦
        rw different (ground (arith, lookup-erase k j m, fresh), erase-IsUnique k m others)
  ]

  -- What holds of the entries that a lookup finds holds of all entries.
  pub Holds-All :
      (P : K → V → Type 0) (m : Dict K V)
      → IsUnique m
      → Holds P m
      → All (λ entry. P entry.0 entry.1) m
  unfolding IsUnique Holds lookup
  Holds-All P [] h all = tt
  Holds-All P ((k, v) ∷ m) (fresh, others) all = (
    all k v (ground (arith, beq_refl k)),
    Holds-All P m others λ j w found. elim (Bool-cases (k == j)) [
      | inl same ↦ cc (subst (λ i. lookup i m ≡ none) ((e.beq_iff k j).0 same) fresh, found)
      | inr different ↦ all j w (rw different found)
    ],
  )
