-- ===== src/Position/Update.antt =====
-- The methods of `Position` that change it (ff_standard_lib/src/standardized_types/position.rs).
use fund_forge.Base.{suc, Bool, true, false, ◌||◌, Option, none, some, List, [], ◌∷◌, String}
use fund_forge.Base.Tests.{if◌then◌else◌, ◌>>=◌}
use fund_forge.Base.Lists.{length, push_back}
use fund_forge.Decimal.{Decimal, ◌⊕◌, ◌⊖◌, ◌⊗◌, ◌≺◌, ◌≼◌, ◌≐◌, min, max}
use fund_forge.Market.{Time, OrderId, Currency, PositionSide, long, short, flat, StrategyMode, live}
use fund_forge.BaseData.{BaseData, candle, quote_bar, tick, quote, fundamental}
use fund_forge.Pnl.{calculate_theoretical_pnl}
use fund_forge.Position.Types.{
  EntryPrice, Position, PositionUpdateEvent, increased, position_reduced, position_closed, origin,
}
use fund_forge.Position.Exit.{ExitOrder, Exits, exit_entries, restore}

-- `mode != StrategyMode::Live`
unfoldable pub is_not_live : StrategyMode → Bool
is_not_live live = false
is_not_live _ = true

module _ {D : Type 0} ⦃d : Decimal D⦄ where
  -- The fold over the entries: the volume, and the volume times the price.
  unfoldable pub weigh : D × D → List (EntryPrice D) → D × D
  weigh sums [] = sums
  weigh (sum_vol, sum_price) (e ∷ entries) =
      weigh (sum_vol ⊕ e.volume, sum_price ⊕ e.volume ⊗ e.price) entries

  -- The market price, the highest and the lowest price of one item of data for a side.
  unfoldable pub market_prices : PositionSide → BaseData D → Option (D × D × D)
  market_prices side (candle c) = some (c.close, c.high, c.low)
  market_prices side (tick t) = some (t.price, t.price, t.price)
  market_prices long (quote_bar b) = some (b.ask_close, b.ask_high, b.ask_low)
  market_prices short (quote_bar b) = some (b.bid_close, b.bid_high, b.bid_low)
  market_prices flat (quote_bar b) = none
  market_prices long (quote q) = some (q.ask, q.ask, q.ask)
  market_prices short (quote q) = some (q.bid, q.bid, q.bid)
  market_prices flat (quote q) = none
  market_prices side (fundamental f) = none

  -- The new position, and the open profit and loss that is returned.
  unfoldable pub update_base_data : BaseData D → Currency → Position D → Option (Position D × D)
  unfolding market_prices
  update_base_data data_item account_currency p = elim p.is_closed [
    | true ↦ some (p, d.dec 0)
    | false ↦ do
      (market_price, highest_price, lowest_price) ← market_prices p.side data_item
      pnl ←
          calculate_theoretical_pnl p.account.brokerage p.side p.average_price market_price
            p.quantity_open p.symbol_info p.exchange_rate_multiplier account_currency
      some (
        record p {
          highest_recoded_price = max p.highest_recoded_price highest_price;
          lowest_recoded_price = min p.lowest_recoded_price lowest_price;
          open_pnl = pnl;
        },
        pnl,
      )
  ]

  -- The average entry price of what is left after an exit.
  unfoldable pub average_left : Position D → List (EntryPrice D) → Option D
  unfolding weigh
  average_left p [] = some (d.dec 0)
  average_left p (e ∷ entries) = do
    let (total_volume, total_weighted_price) = weigh (d.dec 0, d.dec 0) (e ∷ entries)
    average ← d.div total_weighted_price total_volume
    some (d.round_dp p.symbol_info.decimal_accuracy average)

  unfoldable pub new_exit_price : Position D → Option D → D → D → Option D
  new_exit_price p none market_price quantity = some market_price
  new_exit_price p (some existing) market_price quantity = do
    average ←
        d.div (existing ⊗ p.quantity_closed ⊕ market_price ⊗ quantity)
          (p.quantity_closed ⊕ quantity)
    some (d.round_dp p.symbol_info.decimal_accuracy average)

  -- The end of `reduce_position_size`: the quantities, and the event.
  unfoldable pub finish_reduction :
      Position D
      → (quantity booked exit_price : D) → Time
      → String
      → Position D × PositionUpdateEvent D
  unfolding origin
  finish_reduction p quantity booked exit_price time tag =
      let open_left = p.quantity_open ⊖ quantity in
      let closed = p.quantity_closed ⊕ quantity in
      if open_left ≼ d.dec 0
      then (
        record p {
          quantity_open = open_left;
          quantity_closed = closed;
          is_closed = true;
          open_pnl = d.dec 0;
          close_time = some time;
        },
        position_closed (origin p tag time) open_left closed p.average_price booked exit_price,
      )
      else (
        record p { quantity_open = open_left; quantity_closed = closed; is_closed = false },
        position_reduced (origin p tag time) open_left closed p.average_price p.open_pnl booked
            exit_price,
      )

  -- The variables of the exit loop before its first round.
  unfoldable pub first_exits : (quantity : D) → Position D → Exits D
  first_exits quantity p = record {
    remaining_exit_quantity = quantity;
    total_booked_pnl = d.dec 0;
    temp_entries = [];
    entries = p.open_entry_prices;
    trades = p.completed_trades;
  }

  -- The position after the loop, the averages and the profit, before its quantities change.
  unfoldable pub book_reduction :
      ExitOrder D
      → Position D
      → Exits D
      → List (EntryPrice D)
      → (average_price exit_price : D) → Position D
  book_reduction x p s entries average_price exit_price = record p {
    exchange_rate_multiplier = x.exchange_rate;
    open_entry_prices = entries;
    completed_trades = s.trades;
    average_price = average_price;
    booked_pnl = p.booked_pnl ⊕ s.total_booked_pnl;
    open_pnl = p.open_pnl ⊖ s.total_booked_pnl;
    average_exit_price = some exit_price;
  }

  unfoldable pub reduce_position_size :
      ExitOrder D
      → (quantity : D) → (tag : String) → Position D
      → Option (Position D × PositionUpdateEvent D)
  reduce_position_size x quantity tag p = if p.quantity_open ≺ quantity then none else do
    s ← exit_entries x p (suc (length p.open_entry_prices)) (first_exits quantity p)
    let entries = restore p.position_calculation_mode s.temp_entries s.entries
    average_price ← average_left p entries
    exit_price ← new_exit_price p p.average_exit_price x.market_price quantity
    some (
        finish_reduction (book_reduction x p s entries average_price exit_price) quantity
          s.total_booked_pnl exit_price x.time tag)

  -- The open profit and loss after an addition, recalculated unless live results are synchronized.
  unfoldable pub open_pnl_after :
      StrategyMode
      → Bool
      → Currency
      → (market_price average_price quantity_open : D) → Position D
      → Option D
  unfolding is_not_live
  open_pnl_after mode is_simulating_pnl account_currency market_price average_price quantity_open
        p =
      let theoretical =
        calculate_theoretical_pnl p.account.brokerage p.side average_price market_price
          quantity_open p.symbol_info p.exchange_rate_multiplier account_currency in
      if is_not_live mode || is_simulating_pnl then theoretical else some p.open_pnl

  unfoldable pub add_to_position :
      StrategyMode
      → (is_simulating_pnl : Bool) → OrderId
      → Currency
      → (market_price quantity : D) → Time
      → (tag : String) → Position D
      → Option (Position D × PositionUpdateEvent D)
  add_to_position mode is_simulating_pnl order_id account_currency market_price quantity time tag
        p =
      let new_entry : EntryPrice D = record {
        volume = quantity;
        price = market_price;
        order_id = order_id;
      } in
      let entries = push_back p.open_entry_prices new_entry in
      let (total_volume, total_weighted_price) = weigh (d.dec 0, d.dec 0) entries in
      let open_now = p.quantity_open ⊕ quantity in
      if total_volume ≐ d.dec 0 then none else do
        average ← d.div total_weighted_price total_volume
        let average_price = d.round_dp p.symbol_info.decimal_accuracy average
        pnl ←
            open_pnl_after mode is_simulating_pnl account_currency market_price average_price
              open_now p
        some (
          record p {
            open_entry_prices = entries;
            average_price = average_price;
            quantity_open = open_now;
            open_pnl = pnl;
          },
          increased (origin p tag time) open_now average_price pnl p.booked_pnl,
        )
