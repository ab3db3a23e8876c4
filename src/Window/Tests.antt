-- ===== src/Window/Tests.antt =====
-- A window of two items to which three were added
-- (ff_standard_lib/src/standardized_types/rolling_window.rs).
use fund_forge.Base.{ℕ, ◌≡◌, [], ◌∷◌}
use fund_forge.Window.Latest.{filled, history-filled}

history-filled_example : (filled {T = ℕ} 2 (3 ∷ 2 ∷ 1 ∷ [])).history ≡ 3 ∷ 2 ∷ []
history-filled_example = history-filled 2 (3 ∷ 2 ∷ 1 ∷ [])
