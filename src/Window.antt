-- ===== src/Window.antt =====
-- The rolling window that indicators and consolidators keep their history in
-- (ff_standard_lib/src/standardized_types/rolling_window.rs).
pub mod Latest
pub mod Tests
use fund_forge.Base.{ℕ, zero, suc, Bool, true, false, Option, none, some, List, [], ◌∷◌}
use fund_forge.Base.Tests.{if◌then◌else◌, ltb, leb, nat_beq}
use fund_forge.Base.Lists.{length}

pub record RollingWindow {ℓ} (T : Type ℓ) : Type ℓ where
  pub history : List T
  pub number : ℕ

module _ {ℓ} {T : Type ℓ} where
  -- `Vec::pop`, without the element that it returns
  unfoldable pub pop : List T → List T
  pop [] = []
  pop (x ∷ []) = []
  pop (x ∷ y ∷ ys) = x ∷ pop (y ∷ ys)

  -- The first `n` elements; the whole list if there are fewer.
  abbrev pub take : ℕ → List T → List T
  take zero xs = []
  take (suc n) [] = []
  take (suc n) (x ∷ xs) = x ∷ take n xs

  -- `Vec::get`
  abbrev pub get_elem? : List T → ℕ → Option T
  get_elem? [] i = none
  get_elem? (x ∷ xs) zero = some x
  get_elem? (x ∷ xs) (suc i) = get_elem? xs i

  unfoldable pub new_window : (number : ℕ) → RollingWindow T
  new_window number = record { history = []; number = number }

  unfoldable pub clear : RollingWindow T → RollingWindow T
  clear w = record w { history = [] }

  unfoldable pub is_empty : RollingWindow T → Bool
  is_empty w = elim w.history [ [] ↦ true | _ ∷ _ ↦ false ]

  unfoldable pub add : T → RollingWindow T → RollingWindow T
  unfolding pop
  add item w =
      let history = item ∷ w.history in
      record w { history = if ltb w.number (length history) then pop history else history }

  unfoldable pub get : ℕ → RollingWindow T → Option T
  get index w = get_elem? w.history index

  unfoldable pub last : RollingWindow T → Option T
  unfolding get
  last w = get 0 w

  unfoldable pub len : RollingWindow T → ℕ
  len w = length w.history

  unfoldable pub is_full : RollingWindow T → Bool
  is_full w = nat_beq (length w.history) w.number

  unfoldable pub last_n : ℕ → RollingWindow T → List T
  last_n n w = let count = length w.history in take (if leb n count then n else count) w.history
