-- ===== src/Matching/Reached.antt =====
-- The open orders from whose price the market is away
-- (ff_standard_lib/src/strategies/handlers/market_handler/backtest_matching_engine.rs).
use fund_forge.Base.{◌≡◌, refl, arith, ◌⊎◌, inl, inr, Bool, true, false, Option, none, some}
use fund_forge.Base.Tests.{
  if◌then◌else◌, Option-cases, leb, Always, Always-some, >>=-Always, >>=-Always_any, >>=-Always_eq,
  if-Always, string_eq,
}
use fund_forge.Decimal.{Decimal, ◌≺◌}
use fund_forge.Market.{OrderId, OrderSide, buy, sell}
use fund_forge.Prices.{estimate_limit_fill}
use fund_forge.Orders.{TimeInForce, OrderType, Order}
use fund_forge.Ledger.Service.{LedgerService, is_long, is_short, run_task}
use fund_forge.Matching.{Moment, priced}
use fund_forge.Matching.Verdicts.{
  touch_reason, day_ends, time_ends, expiry, market_price, fill_at_market, limit_triggered,
  match_limit, stop_triggered, match_stop_market, stop_limit_triggered, match_stop_limit,
  match_touch, match_exit, match_type, match_order,
}
use fund_forge.Matching.Names.{
  Names, fill_at_market-Names, match_limit-Names, match_stop_market-Names, match_stop_limit-Names,
  match_touch-Names, match_enter-Names, match_exit-Names,
}

module _ {D : Type 0} ⦃d : Decimal D⦄ where
  -- The test of the market price and a price of an order; without one of them there is no matching.
  abbrev pub holds_of : (D → D → Bool) → Option D → Option D → Bool
  holds_of test none _ = true
  holds_of test (some _) none = true
  holds_of test (some market) (some price) = test market price

  -- A purchase is off its limit above it, and a sale under it.
  abbrev pub off_limit : OrderSide → (market limit : D) → Bool
  off_limit buy market limit = limit ≺ market
  off_limit sell market limit = market ≺ limit

  -- A purchase waits for the market to rise to its trigger, and a sale for it to fall.
  abbrev pub before_trigger : OrderSide → (market trigger : D) → Bool
  before_trigger buy market trigger = market ≺ trigger
  before_trigger sell market trigger = trigger ≺ market

  -- The market is past the trigger and off the limit, or before the trigger and not off the limit.
  abbrev pub off_either : OrderSide → (market limit trigger : D) → Bool
  off_either side market limit trigger =
      if off_limit side market limit
      then before_trigger side trigger market
      else before_trigger side market trigger

  -- Whether the market is away from the price of an order. An order at a price that is touched is
  -- never filled, and an order without a price is at the market.
  abbrev pub is_away : OrderType → Moment D → Order D → Bool
  is_away OrderType.limit m o = holds_of (off_limit o.side) (market_price m o) o.limit_price
  is_away OrderType.stop_market m o =
      holds_of (before_trigger o.side) (market_price m o) o.trigger_price
  is_away OrderType.stop_limit m o = elim o.limit_price [
    | none ↦ true
    | some limit ↦
        holds_of (λ market trigger. off_either o.side market limit trigger) (market_price m o)
          o.trigger_price
  ]
  is_away OrderType.market_if_touched m o = true
  is_away _ m o = false

  limit_waits :
      (side : OrderSide) (market limit : D)
      → off_limit side market limit ≡ true
      → limit_triggered side market limit ≡ false
  unfolding limit_triggered
  limit_waits buy market limit h = rw h refl
  limit_waits sell market limit h = rw h refl

  stop_waits :
      (side : OrderSide) (market trigger : D)
      → before_trigger side market trigger ≡ true
      → stop_triggered side market trigger ≡ false
  unfolding stop_triggered
  stop_waits buy market trigger h = rw h refl
  stop_waits sell market trigger h = rw h refl

  stop_limit_waits :
      (side : OrderSide) (market limit trigger : D)
      → off_either side market limit trigger ≡ true
      → stop_limit_triggered side market limit trigger ≡ false
  unfolding stop_limit_triggered
  stop_limit_waits buy market limit trigger h = grind (arith, h)
  stop_limit_waits sell market limit trigger h = grind (arith, h)

  module _ (P : OrderId → Type 0) (r : (side : OrderSide) → P (touch_reason side)) where
    match_type-Names :
        (t : OrderType) (m : Moment D) (o : Order D) (s : LedgerService D)
        → P o.id
        → Always (λ r. Names P r.0) (match_type t m o s)
    unfolding match_type
    match_type-Names OrderType.limit m o s h =
        >>=-Always (Names P) (λ r. Names P r.0) (match_limit m o) _ (match_limit-Names P m o h)
          λ _ n. n
    match_type-Names OrderType.market m o s h =
        >>=-Always (Names P) (λ r. Names P r.0) (fill_at_market m o o.quantity_open) _
          (fill_at_market-Names P m o o.quantity_open h) λ _ n. n
    match_type-Names OrderType.stop_market m o s h =
        >>=-Always (Names P) (λ r. Names P r.0) (match_stop_market m o) _
          (match_stop_market-Names P m o h) λ _ n. n
    match_type-Names OrderType.market_if_touched m o s h =
        >>=-Always (Names P) (λ r. Names P r.0) (match_touch m o) _ (match_touch-Names P m o r)
          λ _ n. n
    match_type-Names OrderType.stop_limit m o s h =
        >>=-Always (Names P) (λ r. Names P r.0) (match_stop_limit m o) _
          (match_stop_limit-Names P m o h) λ _ n. n
    match_type-Names OrderType.enter_long m o s h =
        match_enter-Names P m o (is_short o.account o.symbol_code s) "Force Exit By Enter Long" s h
    match_type-Names OrderType.enter_short m o s h =
        match_enter-Names P m o (is_long o.account o.symbol_code s) "Force Exit By Enter Short" s h
    match_type-Names OrderType.exit_long m o s h =
        >>=-Always (Names P) (λ r. Names P r.0)
          (match_exit m o (is_long o.account o.symbol_code s) "No Long Position To Exit" s) _
          (match_exit-Names P m o (is_long o.account o.symbol_code s) "No Long Position To Exit" s
            h)
          λ _ n. n
    match_type-Names OrderType.exit_short m o s h =
        >>=-Always (Names P) (λ r. Names P r.0)
          (match_exit m o (is_short o.account o.symbol_code s) "No Short Position To Exit" s) _
          (match_exit-Names P m o (is_short o.account o.symbol_code s) "No Short Position To Exit" s
            h)
          λ _ n. n

    -- An order from whose price the market is away is not named.
    quiet-Names :
        (t : OrderType) (m : Moment D) (o : Order D) (s : LedgerService D)
        → is_away t m o ≡ true
        → Always (λ r. Names P r.0) (match_type t m o s)
    unfolding match_type match_limit match_stop_market match_stop_limit market_price
    quiet-Names OrderType.limit m o s h =
        >>=-Always (Names P) (λ r. Names P r.0) (match_limit m o) _
          (>>=-Always_eq (Names P) (market_price m o) _ λ market known.
            >>=-Always_eq (Names P) o.limit_price _
              λ limit given. rw (limit_waits o.side market limit (rw (known, given) at h)) tt)
          λ _ n. n
    quiet-Names OrderType.stop_market m o s h =
        >>=-Always (Names P) (λ r. Names P r.0) (match_stop_market m o) _
          (>>=-Always_eq (Names P) (market_price m o) _ λ market known.
            >>=-Always_eq (Names P) o.trigger_price _
              λ trigger given. rw (stop_waits o.side market trigger (rw (known, given) at h)) tt)
          λ _ n. n
    quiet-Names OrderType.market_if_touched m o s h =
        >>=-Always (Names P) (λ r. Names P r.0) (match_touch m o) _ (match_touch-Names P m o r)
          λ _ n. n
    quiet-Names OrderType.market m o s h = cc
    quiet-Names OrderType.stop_limit m o s h =
        >>=-Always (Names P) (λ r. Names P r.0) (match_stop_limit m o) _
          (>>=-Always_eq (Names P) (market_price m o) _ λ market known.
            >>=-Always_eq (Names P) o.trigger_price _ λ trigger given.
              >>=-Always_eq (Names P) o.limit_price _ λ limit bound.
                >>=-Always_any (Names P)
                  (estimate_limit_fill o.side o.symbol_name o.symbol_code o.quantity_open limit
                    m.prices)
                  _
                  λ fill.
                    rw
                      (stop_limit_waits o.side market limit trigger (rw (bound, known, given) at h))
                      tt)
          λ _ n. n
    quiet-Names OrderType.enter_long m o s h = cc
    quiet-Names OrderType.enter_short m o s h = cc
    quiet-Names OrderType.exit_long m o s h = cc
    quiet-Names OrderType.exit_short m o s h = cc

    day_ends-Names : (m : Moment D) (o : Order D) → P o.id → Always (Names P) (day_ends m o)
    unfolding day_ends
    day_ends-Names m o h = elim (Option-cases (m.close_time o)) [
      | inl closed ↦ rw (day_ends, closed) h
      | inr (close_time, open_day) ↦
          rw (day_ends, open_day) (if-Always (Names P) (leb close_time m.time) _ _ h tt)
    ]

    expiry-Names :
        (t : TimeInForce) (m : Moment D) (o : Order D) → P o.id → Always (Names P) (time_ends t m o)
    unfolding time_ends
    expiry-Names TimeInForce.gtc m o h = tt
    expiry-Names TimeInForce.ioc m o h = tt
    expiry-Names TimeInForce.fok m o h = tt
    expiry-Names TimeInForce.day m o h = day_ends-Names m o h
    expiry-Names (TimeInForce.until none) m o h = h
    expiry-Names (TimeInForce.until (some cancel_time)) m o h =
        if-Always (Names P) (leb cancel_time m.time) _ _ h tt

    pub match_order-Names :
        (m : Moment D) (o : Order D) (s : LedgerService D)
        → P o.id ⊎ ((expiry m o ≡ none) × (is_away o.order_type m o ≡ true))
        → Always (λ r. Names P r.0) (match_order m o s)
    unfolding match_order expiry
    match_order-Names m o s (inl h) =
        >>=-Always_any (λ r. Names P r.0) (run_task (priced m) (m.received o.id) o.account s) _
          λ ran. elim (Option-cases (expiry m o)) [
            | inl in_force ↦ rw in_force (match_type-Names o.order_type m o ran h)
            | inr (verdict, over) ↦
                rw over
                  (Always-some (Names P) (expiry m o) (expiry-Names o.time_in_force m o h) over)
          ]
    match_order-Names m o s (inr (in_force, quiet)) =
        >>=-Always_any (λ r. Names P r.0) (run_task (priced m) (m.received o.id) o.account s) _
          λ ran. rw in_force (quiet-Names o.order_type m o ran quiet)
