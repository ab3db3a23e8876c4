-- ===== src/MovingAverage/Tests.antt =====
-- A moving average of two closes
-- (ff_standard_lib/src/strategies/indicators/built_in/moving_average.rs).
use fund_forge.Base.{suc, ◌≡◌, refl, true, false, Option, none, some, [], ◌∷◌}
use fund_forge.Base.Tests.{◌>>=◌}
use fund_forge.Decimal.Whole.{ℤ, pos, whole, whole_exact}
use fund_forge.BaseData.{
  BaseData, candle, Resolution, CandleType, BaseDataType, DataSubscription, is_closed,
}
use fund_forge.Consolidator.Tests.{cfd}
use fund_forge.Window.{new_window, add, is_full}
use fund_forge.MovingAverage.{MovingAverage, new_average, update_base_data, after_add}
use fund_forge.MovingAverage.Latest.{closed_bars, fed}
use fund_forge.MovingAverage.Mean.{expected}
use fund_forge.MovingAverage.Reported.{update-fed}

abbrev bars_of : DataSubscription
bars_of = record {
  symbol = cfd;
  resolution = Resolution.minutes 1;
  base_data_type = BaseDataType.candles;
  market_type = cfd.market_type;
  candle_type = some CandleType.candle_stick;
}

abbrev bar : (close : ℤ) → BaseData ℤ
bar close = candle (record {
  symbol = cfd;
  high = close;
  low = close;
  open_price = close;
  close = close;
  volume = pos 1;
  ask_volume = pos 0;
  bid_volume = pos 0;
  range = pos 0;
  time = 1;
  is_closed = true;
  resolution = Resolution.minutes 1;
  candle_type = CandleType.candle_stick;
})

abbrev of_two : MovingAverage ℤ
unfolding new_average new_window
of_two =
    new_average "average" bars_of 10 (suc 1) (record { red = 0; green = 0; blue = 0 }) false 2
      (pos 1)

abbrev or_first : Option (MovingAverage ℤ) → MovingAverage ℤ
or_first none = of_two
or_first (some m) = m

abbrev after_one : MovingAverage ℤ
unfolding fed update_base_data after_add is_closed add is_full of_two
after_one = or_first (fed of_two (bar (pos 10) ∷ []))

update-fed_example :
    (update_base_data (bar (pos 20)) after_one >>= λ r. some r.0)
    ≡ expected of_two (bar (pos 20)) (closed_bars (bar (pos 10) ∷ []))
unfolding after_one fed update_base_data after_add is_closed add is_full of_two
update-fed_example =
    update-fed whole_exact "average" bars_of 10 1 (record { red = 0; green = 0; blue = 0 }) false 2
      (pos 1) (bar (pos 20)) (bar (pos 10) ∷ []) after_one refl
