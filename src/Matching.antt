-- ===== src/Matching.antt =====
-- The matching engine of a backtest
-- (ff_standard_lib/src/strategies/handlers/market_handler/backtest_matching_engine.rs).
pub mod Verdicts
pub mod Settlement
pub mod Requests
pub mod Cash
pub mod Loops
pub mod Induction
pub mod Capital
pub mod Tidy
pub mod Ids
pub mod Names
pub mod Reached
pub mod Frame
pub mod Untouched
pub mod Gone
pub mod Due
pub mod Totals
pub mod CancelAll
pub mod Tests
use fund_forge.Base.{ℕ, Option, none, some, List, String}
use fund_forge.Base.Tests.{◌>>=◌, string_eq}
use fund_forge.Base.Dict.{Dict}
use fund_forge.Decimal.{Decimal}
use fund_forge.Market.{Time, OrderId, PositionId, OrderSide, SymbolName, SymbolCode}
use fund_forge.Orders.{Order, OrderUpdateEvent}
use fund_forge.Prices.{MarketPriceService, estimate_fill_price}
use fund_forge.Ledger.State.{Services}
use fund_forge.Ledger.Service.{LedgerService}

-- What the engine's task shares with the rest of the strategy, and the order events that it sends.
pub record Engine (D : Type 0) : Type 0 where
  pub open_orders : Dict OrderId (Order D)
  pub closed_orders : Dict OrderId (Order D)
  pub ledgers : LedgerService D
  pub sent : List (OrderUpdateEvent D)

-- What stays as it is while the engine handles one message.
pub record Moment (D : Type 0) : Type 0 where
  -- `get_backtest_time()`
  pub time : Time
  pub prices : MarketPriceService D
  pub services : Services D
  -- When an order for the day ends, by the broker's time zone and trading hours; `none` for a day
  -- on which the market is closed.
  pub close_time : Order D → Option Time
  -- The random part of the identifier of a position that an order opens.
  pub new_id : OrderId → PositionId
  -- How many messages the task of the account's ledger has received, of those that wait, by the
  -- time the engine looks at the ledger for an order.
  pub received : OrderId → ℕ

-- The services of the ledgers, with the estimates of the price service.
unfoldable pub priced : {D : Type 0} ⦃d : Decimal D⦄ → Moment D → Services D
priced m = record m.services {
  fill_price = λ side name code volume. estimate_fill_price side name code volume m.prices;
}
