-- ===== src/Position/Exit.antt =====
-- The loop of `Position::reduce_position_size` that exits the open entries one by one
-- (ff_standard_lib/src/standardized_types/position.rs). `none` is a panic.
use fund_forge.Base.{ℕ, zero, suc, Option, none, some, List, [], ◌∷◌}
use fund_forge.Base.Tests.{if◌then◌else◌, ◌>>=◌}
use fund_forge.Base.Lists.{pop_front, pop_back, push_back}
use fund_forge.Decimal.{Decimal, ◌⊕◌, ◌⊖◌, ◌⊗◌, ◌≺◌, min}
use fund_forge.Market.{Time, SymbolName, OrderId, Currency, CommissionInfo}
use fund_forge.Pnl.{calculate_theoretical_pnl}
use fund_forge.Position.Types.{
  PositionCalculationMode, fifo, lifo, EntryPrice, TradeResult, Trade, Position,
}

-- The variables of the loop; `entries` and `trades` are fields of the position.
pub record Exits (D : Type 0) : Type 0 where
  pub remaining_exit_quantity : D
  pub total_booked_pnl : D
  pub temp_entries : List (EntryPrice D)
  pub entries : List (EntryPrice D)
  pub trades : List (Trade D)

-- The call's arguments, with the commission table of the product maps.
pub record ExitOrder (D : Type 0) : Type 0 where
  pub commission_info : SymbolName → Option (CommissionInfo D)
  pub market_price : D
  pub order_id : OrderId
  pub account_currency : Currency
  pub exchange_rate : D
  pub time : Time

module _ {D : Type 0} ⦃d : Decimal D⦄ where
  unfoldable pub pop_entry :
      PositionCalculationMode → List (EntryPrice D) → Option (EntryPrice D × List (EntryPrice D))
  pop_entry fifo entries = pop_front entries
  pop_entry lifo entries = pop_back entries

  unfoldable pub keep_entry :
      PositionCalculationMode → EntryPrice D → List (EntryPrice D) → List (EntryPrice D)
  keep_entry fifo e temp_entries = push_back temp_entries e
  keep_entry lifo e temp_entries = e ∷ temp_entries

  -- `while let Some(entry) = temp_entries.pop_front()`
  unfoldable pub restore :
      PositionCalculationMode → List (EntryPrice D) → List (EntryPrice D) → List (EntryPrice D)
  restore mode [] entries = entries
  restore fifo (e ∷ temp_entries) entries = restore fifo temp_entries (e ∷ entries)
  restore lifo (e ∷ temp_entries) entries = restore lifo temp_entries (push_back entries e)

  -- The commission for both sides of a trade.
  unfoldable pub commissions : Option (CommissionInfo D) → D → D → D
  commissions none exit_quantity exchange_rate = d.dec 0
  commissions (some info) exit_quantity exchange_rate =
      exit_quantity ⊗ info.per_side ⊗ exchange_rate ⊗ d.dec 2

  unfoldable pub net_pnl : Option (CommissionInfo D) → D → D → D
  net_pnl none portion commission = portion
  net_pnl (some info) portion commission = portion ⊖ commission

  unfoldable pub trade_result : D → TradeResult
  trade_result pnl =
      if d.dec 0 ≺ pnl
      then TradeResult.win
      else if pnl ≺ d.dec 0
      then TradeResult.loss
      else TradeResult.break_even

  -- A round of the loop once the profit and loss of the portion is known.
  unfoldable pub book_exit : ExitOrder D → Position D → EntryPrice D → Exits D → D → Exits D
  unfolding keep_entry commissions net_pnl trade_result
  book_exit x p entry s portion =
      let exit_quantity = min s.remaining_exit_quantity entry.volume in
      let info = x.commission_info p.symbol_name in
      let commission = commissions info exit_quantity x.exchange_rate in
      let booked = net_pnl info portion commission in
      let trade : Trade D = record {
        entry_price = entry.price;
        entry_order_id = entry.order_id;
        entry_quantity = exit_quantity;
        exit_price = x.market_price;
        exit_order_id = x.order_id;
        exit_quantity = exit_quantity;
        entry_time = p.open_time;
        exit_time = x.time;
        profit = booked;
        result = trade_result booked;
        commissions = commission;
      } in
      let left = entry.volume ⊖ exit_quantity in
      record {
        remaining_exit_quantity = s.remaining_exit_quantity ⊖ exit_quantity;
        total_booked_pnl = s.total_booked_pnl ⊕ booked;
        temp_entries =
            if d.dec 0 ≺ left
            then keep_entry p.position_calculation_mode (record entry { volume = left })
                s.temp_entries
            else s.temp_entries;
        entries = s.entries;
        trades = push_back s.trades trade;
      }

  -- One round of the loop, after `entry` has been popped.
  unfoldable pub exit_entry : ExitOrder D → Position D → EntryPrice D → Exits D → Option (Exits D)
  unfolding book_exit
  exit_entry x p entry s = do
    portion ←
        calculate_theoretical_pnl p.account.brokerage p.side entry.price x.market_price
          (min s.remaining_exit_quantity entry.volume) p.symbol_info x.exchange_rate
          x.account_currency
    some (book_exit x p entry s portion)

  -- `while remaining_exit_quantity > dec!(0.0)`. Each round pops one entry, so that one more unit of
  -- fuel than there are entries is enough.
  unfoldable pub exit_entries : ExitOrder D → Position D → ℕ → Exits D → Option (Exits D)
  unfolding pop_entry
  exit_entries x p zero s = none
  exit_entries x p (suc fuel) s =
      let rest = pop_entry p.position_calculation_mode s.entries >>= λ popped.
      exit_entry x p popped.0 (record s { entries = popped.1 }) >>= exit_entries x p fuel in
      if d.dec 0 ≺ s.remaining_exit_quantity then rest else some s
