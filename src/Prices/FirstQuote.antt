-- ===== src/Prices/FirstQuote.antt =====
-- The market price after the first quote of a symbol
-- (ff_standard_lib/src/strategies/handlers/market_handler/price_service.rs).
use fund_forge.Base.{◌≡◌, ◌⊎◌, none}
use fund_forge.Base.Tests.{string_eq, nat_eq}
use fund_forge.Base.Dict.{lookup}
use fund_forge.Decimal.{Decimal}
use fund_forge.Market.{SymbolName, SymbolCode, OrderSide, buy, sell}
use fund_forge.BaseData.{Quote}
use fund_forge.Prices.{MarketPriceService, side_books}

module _ {D : Type 0} ⦃d : Decimal D⦄ where
  -- The price of a quote that an order of a side pays or is paid.
  abbrev pub quoted_price : OrderSide → Quote D → D
  quoted_price buy q = q.ask
  quoted_price sell q = q.bid

  -- An order's code is the symbol's name, or one that has no book of its own.
  abbrev pub IsPricedByName : OrderSide → SymbolName → SymbolCode → MarketPriceService D → Type 0
  IsPricedByName side name code m = (code ≡ name) ⊎ (lookup code (side_books side m) ≡ none)
