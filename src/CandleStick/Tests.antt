-- ===== src/CandleStick/Tests.antt =====
-- Candles of a second from ticks
-- (ff_standard_lib/src/strategies/consolidators/candlesticks.rs).
use fund_forge.Base.{◌≡◌, refl, false, Option, none, some, List, [], ◌∷◌}
use fund_forge.Base.Tests.{Always}
use fund_forge.Base.Lists.{All}
use fund_forge.Decimal.Whole.{ℤ, pos, whole, whole_exact}
use fund_forge.Market.{Time}
use fund_forge.BaseData.{
  BaseData, tick, Aggressor, Resolution, CandleType, BaseDataType, DataSubscription,
}
use fund_forge.Consolidator.Tests.{cfd}
use fund_forge.BaseData.{new_candle}
use fund_forge.BaseData.Times.{
  open_time, open_second, floor_to, as_duration, time_utc, time_closed_utc, set_is_closed,
}
use fund_forge.Consolidator.{ConsolidatedData, round_price}
use fund_forge.CandleStick.{
  CandleStickConsolidator, update_candles, start_candle, meet_candle, roll_candle,
  merge_into_candle, merge_candle, next_open, first_candle, sides, add_side, keep_close, rounded,
}
use fund_forge.CandleStick.Proper.{IfAnyIsProper}
use fund_forge.CandleStick.Session.{consolidate, IsGivenProper, consolidate-IsGivenProper}

abbrev by_second : DataSubscription
by_second = record {
  symbol = cfd;
  resolution = Resolution.seconds 1;
  base_data_type = BaseDataType.ticks;
  market_type = cfd.market_type;
  candle_type = some CandleType.candle_stick;
}

abbrev fresh : CandleStickConsolidator ℤ
fresh = record {
  current_data = none;
  subscription = by_second;
  decimal_accuracy = 2;
  tick_size = pos 1;
  last_close = none;
  last_ask_close = none;
  last_bid_close = none;
  fill_forward = false;
  market_type = cfd.market_type;
  last_bar_open = 0;
}

abbrev trade_at : Time → (price : ℤ) → BaseData ℤ
trade_at time price =
    tick (record {
      symbol = cfd;
      price = price;
      time = time;
      volume = pos 1;
      aggressor = Aggressor.buy;
    })

-- Two in one second and one in the next.
abbrev trades : List (BaseData ℤ)
trades =
    trade_at 5000000001 (pos 100) ∷ trade_at 5500000000 (pos 90) ∷ trade_at 6100000000 (pos 95) ∷ []

consolidate-IsGivenProper_example :
    Always
      (λ r. All IsGivenProper r.0 × IfAnyIsProper r.1.current_data)
      (consolidate 0 trades fresh)
consolidate-IsGivenProper_example =
    consolidate-IsGivenProper whole_exact 0 trades fresh (tt, (tt, (tt, tt))) tt

abbrev kept_of :
    Option (List (ConsolidatedData ℤ) × CandleStickConsolidator ℤ) → CandleStickConsolidator ℤ
kept_of none = fresh
kept_of (some (_, c)) = c

-- The third tick closes the candle of the first two.
close_of_the_first_candle : (kept_of (consolidate 0 trades fresh)).last_close ≡ some (pos 90)
unfolding consolidate update_candles start_candle meet_candle roll_candle merge_into_candle
    merge_candle next_open first_candle sides add_side keep_close rounded round_price open_time
    open_second floor_to as_duration time_utc time_closed_utc set_is_closed new_candle
close_of_the_first_candle = refl
