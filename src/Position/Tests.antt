-- ===== src/Position/Tests.antt =====
-- Runs of the position's methods on whole numbers, and the theorems at concrete inputs
-- (ff_standard_lib/src/standardized_types/position.rs, ff_standard_lib/src/helpers/decimal_calculators.rs).
use fund_forge.Base.{◌≡◌, refl, true, Option, none, some, [], ◌∷◌}
use fund_forge.Base.Tests.{Returns}
use fund_forge.Decimal.{◌⊕◌}
use fund_forge.Decimal.Whole.{ℤ, pos, whole, whole_exact, whole_signs}
use fund_forge.Market.{Brokerage, PositionSide, SymbolInfo, Currency, StrategyMode}
use fund_forge.Pnl.{calculate_theoretical_pnl}
use fund_forge.Pnl.Sign.{IsNonneg, IsNonpos, pnl-IsNonneg, pnl-IsNonpos}
use fund_forge.Position.Types.{
  PositionCalculationMode, Position, PositionUpdateEvent, new, origin, increased,
}
use fund_forge.Position.Exit.{ExitOrder, exit_entries, exit_entry, restore}
use fund_forge.Position.Update.{
  reduce_position_size, add_to_position, first_exits, book_reduction, average_left, new_exit_price,
  finish_reduction, open_pnl_after, weigh,
}
use fund_forge.Position.Valid.{IsValid, Reduces, reduce-IsValid, add-IsValid}
use fund_forge.Position.Total.{reduce-Returns}

abbrev info : SymbolInfo ℤ
info = record {
  symbol_name = "NQ";
  base_currency = none;
  pnl_currency = Currency.usd;
  value_per_tick = pos 5;
  tick_size = pos 1;
  decimal_accuracy = 2;
}

-- Two contracts at 100.
abbrev opened : PositionCalculationMode → Position ℤ
unfolding new
opened mode =
    new "NQ" "NQZ4" "order 1" (record { brokerage = Brokerage.test; account_id = "a" })
      PositionSide.long (pos 2) (pos 100) "id" info (pos 1) "tag" 0 mode

abbrev exit_at : ℤ → ExitOrder ℤ
exit_at price = record {
  commission_info = λ _. none;
  market_price = price;
  order_id = "order 2";
  account_currency = Currency.usd;
  exchange_rate = pos 1;
  time = 9;
}

-- Three more at 110.
abbrev added : PositionCalculationMode → Option (Position ℤ × PositionUpdateEvent ℤ)
unfolding add_to_position open_pnl_after weigh origin calculate_theoretical_pnl new
added mode =
    add_to_position StrategyMode.backtest true "order 3" Currency.usd (pos 110) (pos 3) 5 "tag"
      (opened mode)

abbrev position_of : Option (Position ℤ × PositionUpdateEvent ℤ) → Position ℤ → Position ℤ
position_of none p = p
position_of (some (p, _)) _ = p

abbrev event_of : Option (Position ℤ × PositionUpdateEvent ℤ) → Position ℤ → PositionUpdateEvent ℤ
unfolding origin
event_of none p = increased (origin p "" 0) (pos 0) (pos 0) (pos 0) (pos 0)
event_of (some (_, e)) _ = e

abbrev held : PositionCalculationMode → Position ℤ
unfolding added event_of
held mode = position_of (added mode) (opened mode)

-- Three of the five are sold at 120.
abbrev reduced : PositionCalculationMode → Option (Position ℤ × PositionUpdateEvent ℤ)
unfolding held reduce_position_size exit_entries exit_entry restore first_exits book_reduction
    average_left new_exit_price finish_reduction
reduced mode = reduce_position_size (exit_at (pos 120)) (pos 3) "tag" (held mode)

abbrev left_open : PositionCalculationMode → Position ℤ
unfolding reduced
left_open mode = position_of (reduced mode) (held mode)

fifo_sells_the_oldest :
    (left_open PositionCalculationMode.fifo).open_entry_prices
    ≡ record { volume = pos 2; price = pos 110; order_id = "order 3" } ∷ []
unfolding left_open
fifo_sells_the_oldest = refl

lifo_sells_the_newest :
    (left_open PositionCalculationMode.lifo).open_entry_prices
    ≡ record { volume = pos 2; price = pos 100; order_id = "order 1" } ∷ []
unfolding left_open
lifo_sells_the_newest = refl

fifo_books : (left_open PositionCalculationMode.fifo).booked_pnl ≡ pos 250
unfolding left_open
fifo_books = refl

opened-IsValid : IsValid (opened PositionCalculationMode.fifo)
unfolding new
opened-IsValid = record { matched = refl; held = (refl, tt); exited = refl; booked = refl }

held-IsValid : IsValid (held PositionCalculationMode.fifo)
unfolding held
held-IsValid = record { matched = refl; held = (refl, (refl, tt)); exited = refl; booked = refl }

add-IsValid_example :
    let p = opened PositionCalculationMode.fifo in
    let p' = held PositionCalculationMode.fifo in
    IsValid p'
    × (p'.quantity_open ≡ p.quantity_open ⊕ pos 3)
    × (p'.quantity_closed ≡ p.quantity_closed)
    × (p'.booked_pnl ≡ p.booked_pnl)
unfolding held
add-IsValid_example =
    add-IsValid whole_exact StrategyMode.backtest true "order 3" Currency.usd (pos 110) (pos 3) 5
      "tag" (opened PositionCalculationMode.fifo) (held PositionCalculationMode.fifo)
      (event_of (added PositionCalculationMode.fifo) (opened PositionCalculationMode.fifo))
      opened-IsValid refl refl

reduce-IsValid_example :
    IsValid (left_open PositionCalculationMode.fifo)
    × Reduces (pos 3) (held PositionCalculationMode.fifo) (left_open PositionCalculationMode.fifo)
unfolding left_open
reduce-IsValid_example =
    reduce-IsValid whole_exact (exit_at (pos 120)) (pos 3) "tag" (held PositionCalculationMode.fifo)
      (left_open PositionCalculationMode.fifo)
      (event_of (reduced PositionCalculationMode.fifo) (held PositionCalculationMode.fifo))
      held-IsValid refl refl

reduce-Returns_example :
    Returns
      (λ _. Unit)
      (reduce_position_size (exit_at (pos 120)) (pos 3) "tag" (held PositionCalculationMode.fifo))
unfolding held
reduce-Returns_example =
    reduce-Returns whole_exact whole_signs (exit_at (pos 120)) (pos 3) "tag"
      (held PositionCalculationMode.fifo) held-IsValid
      (record { not_flat = (λ e. cc); tick_pos = refl; value_nonneg = refl; rate_pos = refl })
      (refl, (refl, tt)) refl refl refl

pnl-IsNonneg_example : Returns IsNonneg (
    calculate_theoretical_pnl Brokerage.test PositionSide.short
      (pos 110)
      (pos 100)
      (pos 2)
      info
      (pos 1)
      Currency.usd)
pnl-IsNonneg_example =
    pnl-IsNonneg whole_exact whole_signs Brokerage.test PositionSide.short (pos 110) (pos 100)
      (pos 2) info (pos 1) Currency.usd refl refl refl refl refl refl

pnl-IsNonpos_example : Returns IsNonpos (
    calculate_theoretical_pnl Brokerage.test PositionSide.long
      (pos 110)
      (pos 100)
      (pos 2)
      info
      (pos 1)
      Currency.usd)
pnl-IsNonpos_example =
    pnl-IsNonpos whole_exact whole_signs Brokerage.test PositionSide.long (pos 110) (pos 100)
      (pos 2) info (pos 1) Currency.usd refl refl refl refl refl refl
