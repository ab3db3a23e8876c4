-- ===== src/Matching/Names.antt =====
-- The orders that the matching of an order names in its verdict
-- (ff_standard_lib/src/strategies/handlers/market_handler/backtest_matching_engine.rs).
use fund_forge.Base.{inl, inr, Bool, not, ◌||◌, Option, none, some, String}
use fund_forge.Base.Tests.{
  if◌then◌else◌, Bool-cases, Always, >>=-Always, >>=-Always_any, if-Always, elim-Always, string_eq,
}
use fund_forge.Decimal.{Decimal, ◌≺◌, ◌≼◌, ◌≐◌}
use fund_forge.Market.{OrderId, OrderSide, buy, sell}
use fund_forge.Prices.{estimate_fill_price, estimate_limit_fill}
use fund_forge.Orders.{Order}
use fund_forge.Ledger.Service.{LedgerService, position_size, paper_exit_position}
use fund_forge.Matching.{Moment}
use fund_forge.Matching.Verdicts.{
  Verdict, waits, rejects, cancels, fills, fills_part, touch_reason, market_price, fill_at_market,
  limit_verdict, limit_triggered, match_limit, stop_triggered, match_stop_market, touch_invalid,
  touch_triggered, match_touch, stop_limit_triggered, match_stop_limit, enter, leave_and_enter,
  match_enter, match_exit,
}

-- The identifier in a verdict, if any, has the property.
abbrev pub Names : {D : Type 0} → (OrderId → Type 0) → Verdict D → Type 0
Names P waits = Unit
Names P (rejects id _) = P id
Names P (cancels id _) = P id
Names P (fills id _) = P id
Names P (fills_part id _ _) = P id

module _ {D : Type 0} ⦃d : Decimal D⦄ (P : OrderId → Type 0) where
  fills-Names :
      (id : OrderId) (estimate : Option D)
      → P id
      → Names P (elim estimate [ some price ↦ fills id price | none ↦ waits ])
  fills-Names id none h = tt
  fills-Names id (some price) h = h

  pub fill_at_market-Names :
      (m : Moment D) (o : Order D) (volume : D)
      → P o.id
      → Always (Names P) (fill_at_market m o volume)
  unfolding fill_at_market
  fill_at_market-Names m o volume h =
      >>=-Always_any (Names P)
        (estimate_fill_price o.side o.symbol_name o.symbol_code volume m.prices) _
        λ estimate. fills-Names o.id estimate h

  limit_verdict-Names :
      (o : Order D) (fill : Option (D × D)) → P o.id → Names P (limit_verdict o fill)
  unfolding limit_verdict
  limit_verdict-Names o none h = tt
  limit_verdict-Names o (some (price, volume)) h = elim (Bool-cases (volume ≐ o.quantity_open)) [
    | inl whole ↦ rw (limit_verdict, whole) h
    | inr part ↦ rw (limit_verdict, part) h
  ]

  pub match_limit-Names : (m : Moment D) (o : Order D) → P o.id → Always (Names P) (match_limit m o)
  unfolding match_limit
  match_limit-Names m o h = >>=-Always_any (Names P) (market_price m o) _ λ market.
      >>=-Always_any (Names P) o.limit_price _ λ limit.
        if-Always (Names P) (limit_triggered o.side market limit) _ _
          (>>=-Always_any (Names P)
            (estimate_limit_fill o.side o.symbol_name o.symbol_code o.quantity_open limit m.prices)
            _ λ fill. limit_verdict-Names o fill h)
          tt

  pub match_stop_market-Names :
      (m : Moment D) (o : Order D) → P o.id → Always (Names P) (match_stop_market m o)
  unfolding match_stop_market
  match_stop_market-Names m o h = >>=-Always_any (Names P) (market_price m o) _ λ market.
      >>=-Always_any (Names P) o.trigger_price _ λ trigger.
        if-Always (Names P) (stop_triggered o.side market trigger) _ _
          (fill_at_market-Names m o o.quantity_open h) tt

  pub match_stop_limit-Names :
      (m : Moment D) (o : Order D) → P o.id → Always (Names P) (match_stop_limit m o)
  unfolding match_stop_limit
  match_stop_limit-Names m o h = >>=-Always_any (Names P) (market_price m o) _ λ market.
      >>=-Always_any (Names P) o.trigger_price _ λ trigger.
        >>=-Always_any (Names P) o.limit_price _ λ limit.
          >>=-Always_any (Names P)
            (estimate_limit_fill o.side o.symbol_name o.symbol_code o.quantity_open limit m.prices)
            _
            λ fill. elim (Bool-cases (stop_limit_triggered o.side market limit trigger)) [
              | inl reached ↦ rw reached (limit_verdict-Names o fill h)
              | inr early ↦ rw early tt
            ]

  -- The test that rejects a MarketIfTouched order is the one that would fill it.
  touched :
      (side : OrderSide) (market trigger : D) (id : OrderId) (filled : Option (Verdict D))
      → ((side : OrderSide) → P (touch_reason side))
      → Always (Names P) (
          if touch_invalid side market trigger
          then some (rejects (touch_reason side) id)
          else if touch_triggered side market trigger
          then filled
          else some waits)
  unfolding touch_invalid touch_triggered
  touched buy market trigger id filled r = elim (Bool-cases (market ≼ trigger)) [
    | inl below ↦ rw (touch_invalid, below) (r buy)
    | inr above ↦ rw (touch_invalid, touch_triggered, above) tt
  ]
  touched sell market trigger id filled r = elim (Bool-cases (trigger ≼ market)) [
    | inl above ↦ rw (touch_invalid, above) (r sell)
    | inr below ↦ rw (touch_invalid, touch_triggered, below) tt
  ]

  pub match_touch-Names :
      (m : Moment D) (o : Order D)
      → ((side : OrderSide) → P (touch_reason side))
      → Always (Names P) (match_touch m o)
  unfolding match_touch
  match_touch-Names m o r = >>=-Always_any (Names P) (market_price m o) _ λ market.
      >>=-Always_any (Names P) o.trigger_price _
        λ trigger. touched o.side market trigger o.id (fill_at_market m o o.quantity_open) r

  enter-Names :
      (m : Moment D) (o : Order D) (s : LedgerService D)
      → P o.id
      → Always (λ r. Names P r.0) (enter m o s)
  unfolding enter
  enter-Names m o s h =
      >>=-Always (Names P) (λ r. Names P r.0) (fill_at_market m o o.quantity_open) _
        (fill_at_market-Names m o o.quantity_open h) λ _ named. named

  pub match_enter-Names :
      (m : Moment D) (o : Order D) (opposite : Bool) (tag : String) (s : LedgerService D)
      → P o.id
      → Always (λ r. Names P r.0) (match_enter m o opposite tag s)
  unfolding match_enter leave_and_enter
  match_enter-Names m o opposite tag s h =
      if-Always (λ r. Names P r.0) opposite (leave_and_enter m o tag s) (enter m o s)
        (>>=-Always_any (λ r. Names P r.0)
          (estimate_fill_price o.side o.symbol_name o.symbol_code
            (position_size o.account o.symbol_code s) m.prices)
          _
          λ estimate.
            elim-Always (λ r. Names P r.0) estimate _ _ tt
              λ price.
                enter-Names m o
                  (paper_exit_position o.account o.symbol_code o.id m.time price tag s) h)
        (enter-Names m o s h)

  pub match_exit-Names :
      (m : Moment D) (o : Order D) (has_side : Bool) (reason : String) (s : LedgerService D)
      → P o.id
      → Always (Names P) (match_exit m o has_side reason s)
  unfolding match_exit
  match_exit-Names m o has_side reason s h =
      let size = position_size o.account o.symbol_code s in
      if-Always (Names P) ((size ≼ d.dec 0) || not has_side) _ _ h
        (fill_at_market-Names m o (if size ≺ o.quantity_open then size else o.quantity_open) h)
