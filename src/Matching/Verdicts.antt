-- ===== src/Matching/Verdicts.antt =====
-- What the matching of one order comes to
-- (ff_standard_lib/src/strategies/handlers/market_handler/backtest_matching_engine.rs,
-- `simulated_order_matching`). `none` is a panic.
use fund_forge.Base.{Bool, not, ◌&&◌, ◌||◌, Option, none, some, String}
use fund_forge.Base.Tests.{◌>>=◌, if◌then◌else◌, leb}
use fund_forge.Decimal.{Decimal, ◌≺◌, ◌≼◌, ◌≐◌}
use fund_forge.Market.{OrderId, OrderSide, buy, sell}
use fund_forge.Prices.{get_market_price, estimate_fill_price, estimate_limit_fill}
use fund_forge.Orders.{TimeInForce, OrderType, Order}
use fund_forge.Ledger.Service.{
  LedgerService, is_long, is_short, position_size, paper_exit_position, run_task,
}
use fund_forge.Matching.{Moment, priced}

-- The entry that the matching of an order adds to one of the four lists, if any.
pub data Verdict (D : Type 0) : Type 0 where
  waits : Verdict D
  -- a pair of `rejected`, in which the id comes first
  rejects cancels : OrderId → (reason : String) → Verdict D
  fills : OrderId → (price : D) → Verdict D
  fills_part : OrderId → (price volume : D) → Verdict D

unfoldable pub touch_reason : OrderSide → String
touch_reason buy = "Invalid Price: Buy MIT Price Must Be Below Market Price"
touch_reason sell = "Invalid Price: Sell MIT Price Must Be Above Market Price"

module _ {D : Type 0} ⦃d : Decimal D⦄ where
  -- The day has a time at which the market closes, or none if it does not open.
  unfoldable pub day_ends : Moment D → Order D → Option (Verdict D)
  day_ends m o = elim (m.close_time o) [
    | none ↦ some (cancels o.id "Market Closed")
    | some close_time ↦
        if leb close_time m.time
        then some (cancels o.id "Time In Force Expired: TimeInForce::Day")
        else none
  ]

  -- The time in force: the verdict that it comes to, if it ends the matching.
  unfoldable pub time_ends : TimeInForce → Moment D → Order D → Option (Verdict D)
  unfolding day_ends
  time_ends TimeInForce.gtc m o = none
  time_ends TimeInForce.ioc m o = none
  time_ends TimeInForce.fok m o = none
  time_ends TimeInForce.day m o = day_ends m o
  time_ends (TimeInForce.until none) m o =
      some (rejects o.id "Time In Force Expired: TimeInForce::Time")
  time_ends (TimeInForce.until (some cancel_time)) m o =
      if leb cancel_time m.time
      then some (cancels o.id "Time In Force Expired: TimeInForce::Time")
      else none

  unfoldable pub expiry : Moment D → Order D → Option (Verdict D)
  unfolding time_ends
  expiry m o = time_ends o.time_in_force m o

  -- The market price of an order's side; no price is a panic.
  unfoldable pub market_price : Moment D → Order D → Option D
  market_price m o = get_market_price o.side o.symbol_name o.symbol_code m.prices

  -- The order is filled at the estimate for a quantity, or waits if there is none.
  unfoldable pub fill_at_market : Moment D → Order D → (quantity : D) → Option (Verdict D)
  fill_at_market m o quantity = do
    estimate ← estimate_fill_price o.side o.symbol_name o.symbol_code quantity m.prices
    some (elim estimate [ some price ↦ fills o.id price | none ↦ waits ])

  unfoldable pub limit_verdict : Order D → Option (D × D) → Verdict D
  limit_verdict o none = waits
  limit_verdict o (some (price, volume)) =
      if volume ≐ o.quantity_open then fills o.id price else fills_part o.id price volume

  unfoldable pub limit_triggered : OrderSide → (market limit : D) → Bool
  limit_triggered buy market limit = market ≼ limit
  limit_triggered sell market limit = limit ≼ market

  unfoldable pub match_limit : Moment D → Order D → Option (Verdict D)
  unfolding limit_triggered limit_verdict
  match_limit m o = do
    market ← market_price m o
    limit ← o.limit_price
    let filled =
        estimate_limit_fill o.side o.symbol_name o.symbol_code o.quantity_open limit m.prices
        >>= λ fill. some (limit_verdict o fill)
    if limit_triggered o.side market limit then filled else some waits

  unfoldable pub stop_triggered : OrderSide → (market trigger : D) → Bool
  stop_triggered buy market trigger = trigger ≼ market
  stop_triggered sell market trigger = market ≼ trigger

  unfoldable pub match_stop_market : Moment D → Order D → Option (Verdict D)
  unfolding stop_triggered
  match_stop_market m o = do
    market ← market_price m o
    trigger ← o.trigger_price
    let filled = fill_at_market m o o.quantity_open
    if stop_triggered o.side market trigger then filled else some waits

  -- The test of a MarketIfTouched order's trigger, which rejects the order.
  unfoldable pub touch_invalid : OrderSide → (market trigger : D) → Bool
  touch_invalid buy market trigger = market ≼ trigger
  touch_invalid sell market trigger = trigger ≼ market

  unfoldable pub touch_triggered : OrderSide → (market trigger : D) → Bool
  touch_triggered buy market trigger = market ≼ trigger
  touch_triggered sell market trigger = trigger ≼ market

  -- The pair that rejects the order has the reason where the id is expected, and the id as reason.
  unfoldable pub match_touch : Moment D → Order D → Option (Verdict D)
  unfolding touch_invalid touch_reason touch_triggered
  match_touch m o = do
    market ← market_price m o
    trigger ← o.trigger_price
    let filled = fill_at_market m o o.quantity_open
    if touch_invalid o.side market trigger
        then some (rejects (touch_reason o.side) o.id)
        else if touch_triggered o.side market trigger
        then filled
        else some waits

  unfoldable pub stop_limit_triggered : OrderSide → (market limit trigger : D) → Bool
  stop_limit_triggered buy market limit trigger = (market ≼ trigger) && (limit ≺ market)
  stop_limit_triggered sell market limit trigger = (trigger ≼ market) && (market ≺ limit)

  unfoldable pub match_stop_limit : Moment D → Order D → Option (Verdict D)
  unfolding stop_limit_triggered limit_verdict
  match_stop_limit m o = do
    market ← market_price m o
    trigger ← o.trigger_price
    limit ← o.limit_price
    fill ← estimate_limit_fill o.side o.symbol_name o.symbol_code o.quantity_open limit m.prices
    some (if stop_limit_triggered o.side market limit trigger then limit_verdict o fill else waits)

  unfoldable pub enter : Moment D → Order D → LedgerService D → Option (Verdict D × LedgerService D)
  enter m o s = do verdict ← fill_at_market m o o.quantity_open; some (verdict, s)

  -- The exit of a position on the other side is sent before the entry.
  unfoldable pub leave_and_enter :
      Moment D → Order D → (tag : String) → LedgerService D → Option (Verdict D × LedgerService D)
  leave_and_enter m o tag s = do
    estimate ←
        estimate_fill_price o.side o.symbol_name o.symbol_code
          (position_size o.account o.symbol_code s) m.prices
    elim estimate [
      | none ↦ some (waits, s)
      | some price ↦ enter m o (paper_exit_position o.account o.symbol_code o.id m.time price tag s)
    ]

  -- `opposite` says if there is a position on the other side.
  unfoldable pub match_enter :
      Moment D
      → Order D
      → (opposite : Bool) → (tag : String) → LedgerService D
      → Option (Verdict D × LedgerService D)
  match_enter m o opposite tag s = if opposite then leave_and_enter m o tag s else enter m o s

  -- An exit is rejected without a position on its side; its price is estimated for what is open.
  unfoldable pub match_exit :
      Moment D
      → Order D
      → (has_side : Bool) → (reason : String) → LedgerService D
      → Option (Verdict D)
  match_exit m o has_side reason s =
      let size = position_size o.account o.symbol_code s in
      let adjusted_size = if size ≺ o.quantity_open then size else o.quantity_open in
      let filled = fill_at_market m o adjusted_size in
      if (size ≼ d.dec 0) || not has_side then some (rejects o.id reason) else filled

  -- `match &order.order_type`
  unfoldable pub match_type :
      OrderType → Moment D → Order D → LedgerService D → Option (Verdict D × LedgerService D)
  match_type OrderType.limit m o s = do verdict ← match_limit m o; some (verdict, s)
  match_type OrderType.market m o s = do
    verdict ← fill_at_market m o o.quantity_open
    some (verdict, s)
  match_type OrderType.stop_market m o s = do verdict ← match_stop_market m o; some (verdict, s)
  match_type OrderType.market_if_touched m o s = do verdict ← match_touch m o; some (verdict, s)
  match_type OrderType.stop_limit m o s = do verdict ← match_stop_limit m o; some (verdict, s)
  match_type OrderType.enter_long m o s =
      match_enter m o (is_short o.account o.symbol_code s) "Force Exit By Enter Long" s
  match_type OrderType.enter_short m o s =
      match_enter m o (is_long o.account o.symbol_code s) "Force Exit By Enter Short" s
  match_type OrderType.exit_long m o s = do
    verdict ← match_exit m o (is_long o.account o.symbol_code s) "No Long Position To Exit" s
    some (verdict, s)
  match_type OrderType.exit_short m o s = do
    verdict ← match_exit m o (is_short o.account o.symbol_code s) "No Short Position To Exit" s
    some (verdict, s)

  -- The round of the loop for one open order, before which the ledger's task may have run.
  unfoldable pub match_order :
      Moment D → Order D → LedgerService D → Option (Verdict D × LedgerService D)
  match_order m o s = do
    ran ← run_task (priced m) (m.received o.id) o.account s
    elim (expiry m o) [
      | some verdict ↦ some (verdict, ran)
      | none ↦ match_type o.order_type m o ran
    ]
