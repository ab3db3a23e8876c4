-- ===== src/Matching/Untouched.antt =====
-- The orders that stay open as they are
-- (ff_standard_lib/src/strategies/handlers/market_handler/backtest_matching_engine.rs).
use mathlib.Core.Option.{some-injective}
use mathlib.Core.Path.{subst}
use fund_forge.Base.{◌≡◌, sym, ap, ◌∙◌, ◌≢◌, inl, inr, true, none, some}
use fund_forge.Base.Tests.{◌==◌, Bool-cases, beq_refl, Always, >>=-Always, string_eq}
use fund_forge.Base.Lists.{All}
use fund_forge.Base.Dict.{lookup}
use fund_forge.Base.Keys.{Holds-All}
use fund_forge.Base.Holds.{Holds}
use fund_forge.Decimal.{Decimal}
use fund_forge.Market.{OrderId, OrderSide}
use fund_forge.Orders.{Order}
use fund_forge.Matching.{Engine, Moment}
use fund_forge.Matching.Verdicts.{touch_reason, expiry}
use fund_forge.Matching.Settlement.{no_verdicts, match_orders, simulated_order_matching}
use fund_forge.Matching.Tidy.{IsTidy}
use fund_forge.Matching.Reached.{is_away}
use fund_forge.Matching.Frame.{
  IsPassedOver, NamesAll, Stays, match_orders-Names, settle_verdicts-Stays,
}

module _ {D : Type 0} ⦃d : Decimal D⦄ where
  passed_over :
      (m : Moment D) (id : OrderId) (o : Order D) (e : Engine D)
      → IsTidy e
      → lookup id e.open_orders ≡ some o
      → expiry m o ≡ none
      → is_away o.order_type m o ≡ true
      → All (IsPassedOver (λ other. other ≢ id) m) e.open_orders
  unfolding Holds
  passed_over m id o e (unique, keyed, _) found in_force quiet =
      Holds-All (λ k v. IsPassedOver (λ other. other ≢ id) m (k, v)) e.open_orders unique
        λ k v held. elim (Bool-cases (k == id)) [
          | inl same ↦
              let here =
                subst (λ i. lookup i e.open_orders ≡ some v) ((string_eq.beq_iff k id).0 same)
                  held in
              inr (
                subst (λ x. (expiry m x ≡ none) × (is_away x.order_type m x ≡ true))
                  (some-injective _ _ (sym found ∙ here)) (in_force, quiet))
          | inr other ↦
              inl λ equal. cc (ap (λ i. i == id) (sym (keyed k v held) ∙ equal), beq_refl id, other)
        ]

  -- In tidy caches, an open order whose time is not over is still open and unchanged after a round
  -- of matching that does not panic, if its identifier is not the text of a reason and the market
  -- price of its side is away from it: above the limit of a Limit order to buy, under that of one
  -- to sell; under the trigger of a StopMarket order to buy, above that of one to sell; for a
  -- StopLimit order off the limit and past the trigger, or not off the limit and before the trigger.
  -- From a MarketIfTouched order it is always away.
  pub untouched :
      (m : Moment D) (id : OrderId) (o : Order D) (e : Engine D)
      → IsTidy e
      → lookup id e.open_orders ≡ some o
      → expiry m o ≡ none
      → is_away o.order_type m o ≡ true
      → ((side : OrderSide) → touch_reason side ≢ id)
      → Always (λ after. lookup id after.open_orders ≡ some o) (simulated_order_matching m e)
  unfolding simulated_order_matching no_verdicts
  untouched m id o e h found in_force quiet fresh =
      >>=-Always (λ r. NamesAll (λ other. other ≢ id) r.0) (Stays id (some o))
        (match_orders m e.open_orders no_verdicts e.ledgers) _
        (match_orders-Names (λ other. other ≢ id) m e.open_orders no_verdicts e.ledgers fresh
          (passed_over m id o e h found in_force quiet) (tt, tt, tt, tt))
        λ r named. settle_verdicts-Stays id (some o) m r.0 (record e { ledgers = r.1 }) named found
