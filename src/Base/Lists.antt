-- ===== src/Base/Lists.antt =====
-- Lists measured by native numbers, predicates on their elements, and Rust's double-ended queues.
use Prim.Native.Nat.{ℕ, suc, ◌+◌}
use mathlib.Core.Path.{◌≡◌, refl, ap, subst}
use mathlib.Core.Option.{Option, none, some}
use mathlib.Core.List.{List, [], ◌∷◌, ◌++◌}
use mathlib.Core.Bool.{Bool, false, ◌||◌}
use native.Mathlib.Omega.{arith}

module _ {ℓ} {A : Type ℓ} where
  abbrev pub length : List A → ℕ
  length [] = 0
  length (x ∷ xs) = suc (length xs)

  pub length-append : (xs ys : List A) → length (xs ++ ys) ≡ length xs + length ys
  length-append [] ys = omega arith
  length-append (x ∷ xs) ys = omega (arith, length-append xs ys)

  abbrev pub All {κ} : (A → Type κ) → List A → Type κ
  All P [] = Unit
  All P (x ∷ xs) = P x × All P xs

  -- `VecDeque::pop_front`
  abbrev pub pop_front : List A → Option (A × List A)
  pop_front [] = none
  pop_front (x ∷ xs) = some (x, xs)

  -- `VecDeque::pop_back`
  abbrev pub pop_back : List A → Option (A × List A)
  pop_back [] = none
  pop_back (x ∷ xs) = elim (pop_back xs) [ none ↦ some (x, []) | some (y, ys) ↦ some (y, x ∷ ys) ]

  -- `push_back`, also that of `Vec::push`
  abbrev pub push_back : List A → A → List A
  push_back xs x = xs ++ (x ∷ [])

  abbrev IsPopped : List A → Option (A × List A) → Type ℓ
  IsPopped xs none = xs ≡ []
  IsPopped xs (some (y, ys)) = xs ≡ push_back ys y

  pop_back-IsPopped : (xs : List A) → IsPopped xs (pop_back xs)
  pop_back-IsPopped [] = refl
  pop_back-IsPopped (x ∷ xs) = add_front (pop_back xs) (pop_back-IsPopped xs)
    where
      add_front :
          (r : Option (A × List A))
          → IsPopped xs r
          → IsPopped (x ∷ xs) (elim r [ none ↦ some (x, []) | some (y, ys) ↦ some (y, x ∷ ys) ])
      add_front none h = ap (◌∷◌ x) h
      add_front (some (y, ys)) h = ap (◌∷◌ x) h

  -- What `pop_back` returns stood at the end.
  pub push_back-pop_back :
      (xs : List A) (y : A) (ys : List A) → pop_back xs ≡ some (y, ys) → xs ≡ push_back ys y
  push_back-pop_back xs y ys h = subst (IsPopped xs) h (pop_back-IsPopped xs)

  pub pop_back-none : (xs : List A) → pop_back xs ≡ none → xs ≡ []
  pop_back-none xs h = subst (IsPopped xs) h (pop_back-IsPopped xs)

  pub length-push_back : (xs : List A) (x : A) → length (push_back xs x) ≡ suc (length xs)
  length-push_back [] x = refl
  length-push_back (y ∷ xs) x = ap suc (length-push_back xs x)

  pub All-push_back {κ} :
      (P : A → Type κ) (xs : List A) (x : A) → All P xs → P x → All P (push_back xs x)
  All-push_back P [] x h k = (k, tt)
  All-push_back P (y ∷ xs) x h k = (h.0, All-push_back P xs x h.1 k)

  pub All-init {κ} :
      (P : A → Type κ) (xs : List A) (x : A) → All P (push_back xs x) → P x × All P xs
  All-init P [] x h = (h.0, tt)
  All-init P (y ∷ xs) x h = let (px, pxs) = All-init P xs x h.1 in (px, (h.0, pxs))

  abbrev pub any : (A → Bool) → List A → Bool
  any test [] = false
  any test (x ∷ xs) = test x || any test xs

  pub any-push_back :
      (test : A → Bool) (xs : List A) (x : A) → any test (push_back xs x) ≡ (any test xs || test x)
  any-push_back test [] x = ground arith
  any-push_back test (y ∷ xs) x = ground (arith, any-push_back test xs x)
