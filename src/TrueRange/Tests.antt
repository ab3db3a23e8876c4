-- ===== src/TrueRange/Tests.antt =====
-- An average true range of three bars
-- (ff_standard_lib/src/strategies/indicators/built_in/average_true_range.rs).
use fund_forge.Base.{◌≡◌, refl, some, true}
use fund_forge.Base.Tests.{Returns}
use fund_forge.Decimal.Whole.{ℤ, pos, whole, whole_exact, whole_signs}
use fund_forge.BaseData.{BaseData, candle, Resolution, CandleType, BaseDataType, DataSubscription}
use fund_forge.Consolidator.Tests.{cfd}
use fund_forge.Window.{new_window, add}
use fund_forge.Pnl.{round_to_tick_size}
use fund_forge.Pnl.Sign.{IsNonneg}
use fund_forge.MovingAverage.{sum_onto}
use fund_forge.TrueRange.{
  AverageTrueRange, new_true_range, calculate_true_range, true_ranges, ranges_from, range_between,
  true_range, gap, average_range,
}
use fund_forge.TrueRange.Sign.{calculate_true_range-IsNonneg}

abbrev bars_of : DataSubscription
bars_of = record {
  symbol = cfd;
  resolution = Resolution.minutes 1;
  base_data_type = BaseDataType.candles;
  market_type = cfd.market_type;
  candle_type = some CandleType.candle_stick;
}

abbrev bar : (high low close : ℤ) → BaseData ℤ
bar high low close = candle (record {
  symbol = cfd;
  high = high;
  low = low;
  open_price = close;
  close = close;
  volume = pos 1;
  ask_volume = pos 0;
  bid_volume = pos 0;
  range = pos 0;
  time = 1;
  is_closed = true;
  resolution = Resolution.minutes 1;
  candle_type = CandleType.candle_stick;
})

abbrev of_three : AverageTrueRange ℤ
unfolding new_true_range new_window add
of_three =
    let empty =
      new_true_range "range" bars_of 10 3 (record { red = 0; green = 0; blue = 0 }) true 2
        (pos 1) in
    record empty {
      base_data_history = add (bar (pos 30) (pos 21) (pos 25)) (
          add (bar (pos 20) (pos 11) (pos 15))
            (add (bar (pos 10) (pos 5) (pos 8)) empty.base_data_history));
    }

-- Each range is taken from the close of the bar after it, since the latest bar is the first.
calculate_true_range_test : calculate_true_range of_three ≡ some (pos 12)
unfolding of_three calculate_true_range true_ranges ranges_from range_between true_range gap
    average_range sum_onto round_to_tick_size
calculate_true_range_test = refl

calculate_true_range-IsNonneg_example : Returns IsNonneg (calculate_true_range of_three)
unfolding of_three
calculate_true_range-IsNonneg_example =
    calculate_true_range-IsNonneg whole_exact whole_signs of_three refl (tt, (tt, tt))
