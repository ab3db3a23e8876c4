-- ===== src/Window/Latest.antt =====
-- The items of a rolling window among all that were added to it
-- (ff_standard_lib/src/standardized_types/rolling_window.rs).
use fund_forge.Base.{ℕ, zero, suc, ◌≡◌, refl, sym, ap, inl, inr, List, [], ◌∷◌, arith}
use fund_forge.Base.Tests.{if◌then◌else◌, Bool-cases, ltb, leb}
use fund_forge.Base.Lists.{length}
use fund_forge.Window.{RollingWindow, pop, take, new_window, add, is_full}

ltb-suc : (n k : ℕ) → ltb (suc n) (suc k) ≡ ltb n k
ltb-suc n k = ground arith

module _ {ℓ} {T : Type ℓ} where
  -- A new window after items have been added, of which the list has the latest first.
  unfoldable pub filled : (number : ℕ) → (items : List T) → RollingWindow T
  filled number [] = new_window number
  filled number (item ∷ items) = add item (filled number items)

  take_nil : (n : ℕ) → take {T = T} n [] ≡ []
  take_nil zero = refl
  take_nil (suc n) = refl

  -- To add to a full window is to take one item more.
  add_take :
      (n : ℕ) (x : T) (xs : List T)
      → (if ltb n (length (x ∷ take n xs)) then pop (x ∷ take n xs) else x ∷ take n xs)
        ≡ take n (x ∷ xs)
  unfolding pop
  add_take zero x xs = refl
  add_take (suc n) x [] = rw (take_nil n) (ground arith)
  add_take (suc n) x (y ∷ ys) = elim (Bool-cases (ltb n (suc (length (take n ys))))) [
    | inl over ↦
        rw (ltb-suc n (suc (length (take n ys))), over) (ap (◌∷◌ x) (rw over at (add_take n y ys)))
    | inr fits ↦
        rw (ltb-suc n (suc (length (take n ys))), fits) (ap (◌∷◌ x) (rw fits at (add_take n y ys)))
  ]

  filled-number : (number : ℕ) (items : List T) → (filled number items).number ≡ number
  unfolding filled new_window add
  filled-number number [] = refl
  filled-number number (item ∷ items) = filled-number number items

  -- After any items have been added to a new rolling window, its history is the latest of them, as
  -- many as its number.
  pub history-filled :
      (number : ℕ) (items : List T) → (filled number items).history ≡ take number items
  unfolding filled new_window add
  history-filled number [] = sym (take_nil number)
  history-filled number (item ∷ items) =
      rw (filled-number number items, history-filled number items) (add_take number item items)

  pub length-take :
      (n : ℕ) (xs : List T) → length (take n xs) ≡ (if leb n (length xs) then n else length xs)
  length-take zero xs = ground arith
  length-take (suc n) [] = ground arith
  length-take (suc n) (x ∷ xs) = ground (arith, length-take n xs)

  -- A window is full as soon as it was given as many items as it holds.
  pub is_full-filled :
      (number : ℕ) (items : List T) → is_full (filled number items) ≡ leb number (length items)
  unfolding is_full
  is_full-filled number items =
      rw (history-filled number items, filled-number number items)
        (ground (arith, length-take number items))
