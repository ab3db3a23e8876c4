-- ===== src/Consolidator/Tests.antt =====
-- A candle of two ticks
-- (ff_standard_lib/src/strategies/consolidators/count.rs).
use fund_forge.Base.{refl, true, Option, none, some, [], ◌∷◌}
use fund_forge.Base.Tests.{Always}
use fund_forge.Decimal.Whole.{ℤ, pos, whole}
use fund_forge.Market.{Symbol, MarketType, DataVendor}
use fund_forge.BaseData.{
  Candle, Tick, Aggressor, Resolution, CandleType, BaseDataType, DataSubscription, new_candle,
}
use fund_forge.Consolidator.{
  CountConsolidator, round_price, first_tick, every_tick, give_out, update_tick,
}
use fund_forge.Consolidator.Candles.{GivesOut, Continues, fed_ticks, update_tick-GivesOut}

abbrev pub cfd : Symbol
cfd = record { name = "NQ"; market_type = MarketType.cfd; data_vendor = DataVendor.bitget }

abbrev by_ticks : DataSubscription
by_ticks = record {
  symbol = cfd;
  resolution = Resolution.ticks 2;
  base_data_type = BaseDataType.ticks;
  market_type = MarketType.cfd;
  candle_type = some CandleType.candle_stick;
}

abbrev trade : (price volume : ℤ) → Tick ℤ
trade price volume = record {
  symbol = cfd;
  price = price;
  time = 1;
  volume = volume;
  aggressor = Aggressor.nobody;
}

abbrev pairs : Candle ℤ → CountConsolidator ℤ
pairs current = record {
  number = 2;
  counter = 0;
  current_data = current;
  subscription = by_ticks;
  decimal_accuracy = 2;
  tick_size = pos 1;
  market_type = MarketType.cfd;
}

abbrev blank : Candle ℤ
unfolding new_candle
blank =
    new_candle cfd (pos 0) (pos 0) (pos 0) (pos 0) 0 (Resolution.ticks 2) CandleType.candle_stick

-- After a tick at 100 of a volume of 3.
abbrev halfway : Option (CountConsolidator ℤ) → CountConsolidator ℤ
halfway none = pairs blank
halfway (some c) = c

abbrev started : CountConsolidator ℤ
unfolding fed_ticks update_tick first_tick every_tick round_price give_out
started = halfway (fed_ticks (pairs blank) (trade (pos 100) (pos 3) ∷ []))

update_tick-GivesOut_example :
    Always
      (λ r.
        GivesOut true (trade (pos 90) (pos 4)) (trade (pos 100) (pos 3) ∷ []) r.0
        × Continues true 2 (trade (pos 90) (pos 4)) (trade (pos 100) (pos 3) ∷ []) r.1)
      (update_tick started (trade (pos 90) (pos 4)))
unfolding started fed_ticks update_tick first_tick every_tick round_price give_out
update_tick-GivesOut_example =
    update_tick-GivesOut (pairs blank) (trade (pos 90) (pos 4)) (trade (pos 100) (pos 3) ∷ [])
      started refl refl refl
