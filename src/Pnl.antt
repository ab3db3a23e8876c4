-- ===== src/Pnl.antt =====
-- Profit and loss of a price move
-- (ff_standard_lib/src/helpers/decimal_calculators.rs). `none` is a panic.
pub mod Sign
use fund_forge.Base.{Bool, Option, none, some}
use fund_forge.Base.Tests.{if◌then◌else◌, ◌==◌, ◌>>=◌}
use fund_forge.Decimal.{Decimal, ◌⊖◌, ◌⊗◌, ◌≐◌}
use fund_forge.Market.{
  Currency, currency_eq, Brokerage, PositionSide, long, short, flat, SymbolInfo,
}

module _ {D : Type 0} ⦃d : Decimal D⦄ where
  unfoldable pub round_to_tick_size : D → D → Option D
  round_to_tick_size value tick_size = do
    steps ← d.div value tick_size
    some (d.round steps ⊗ tick_size)

  -- The move of the price in the position's favour; a flat position is `unreachable!`.
  unfoldable pub price_move : PositionSide → D → D → Option D
  price_move long entry_price market_price = some (market_price ⊖ entry_price)
  price_move short entry_price market_price = some (entry_price ⊖ market_price)
  price_move flat entry_price market_price = none

  unfoldable pub raw_ticks : Brokerage → SymbolInfo D → D → Option D
  raw_ticks (Brokerage.rithmic _) info move = do
    steps ← d.div move info.tick_size
    round_to_tick_size steps info.tick_size
  raw_ticks _ info move = do
    steps ← d.div move info.tick_size
    some (d.round_dp info.decimal_accuracy steps)

  -- Into the account's currency.
  unfoldable pub convert_pnl : Option Currency → Currency → Currency → D → D → D → Option D
  convert_pnl none pnl_currency account_currency pnl entry_price rate = some (pnl ⊗ rate)
  convert_pnl (some base) pnl_currency account_currency pnl entry_price rate =
      if account_currency == base
      then d.div pnl entry_price
      else if account_currency == pnl_currency
      then some pnl
      else d.div pnl rate

  unfoldable pub calculate_theoretical_pnl :
      Brokerage → PositionSide → D → D → D → SymbolInfo D → D → Currency → Option D
  unfolding price_move raw_ticks convert_pnl round_to_tick_size
  calculate_theoretical_pnl brokerage side entry_price market_price quantity info rate
        account_currency =
      do
        move ← price_move side entry_price market_price
        ticks ← raw_ticks brokerage info move
        let pnl = ticks ⊗ info.value_per_tick ⊗ quantity
        let converted =
            convert_pnl info.base_currency info.pnl_currency account_currency pnl entry_price rate
        if ticks ≐ d.dec 0 then some (d.dec 0) else converted
