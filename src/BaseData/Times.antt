-- ===== src/BaseData/Times.antt =====
-- Resolutions and the times of bars (ff_standard_lib/src/standardized_types/resolution.rs,
-- base_data/base_data_enum.rs and helpers/converters.rs). Times and durations are in nanoseconds, so
-- that a time is on the hour if it is a multiple of an hour. `none` is a panic.
use Prim.Native.Nat.{◌/◌, ◌-◌, ◌%◌}
use fund_forge.Base.{ℕ, zero, suc, ◌+◌, ◌*◌, Bool, false, Option, none, some}
use fund_forge.Base.Tests.{if◌then◌else◌, leb}
use fund_forge.Decimal.{Decimal, ◌⊖◌}
use fund_forge.Market.{Time, Symbol}
use fund_forge.BaseData.{
  Resolution, instant, ticks, seconds, minutes, hours, day, CandleType, QuoteBar, BaseData, candle,
  quote_bar, tick, quote, fundamental,
}

abbrev pub nanos_per_second : ℕ
nanos_per_second = 1000000000

abbrev pub nanos_per_minute : ℕ
nanos_per_minute = 60000000000

abbrev pub nanos_per_hour : ℕ
nanos_per_hour = 3600000000000

abbrev pub nanos_per_day : ℕ
nanos_per_day = 86400000000000

-- `Resolution::as_duration`
unfoldable pub as_duration : Resolution → ℕ
as_duration instant = 0
as_duration (ticks _) = 0
as_duration (seconds val) = val * nanos_per_second
as_duration (minutes val) = val * nanos_per_minute
as_duration (hours val) = val * nanos_per_hour
as_duration day = nanos_per_day

-- `Resolution::number_of`
unfoldable pub number_of : Resolution → ℕ
number_of instant = 0
number_of (ticks val) = val
number_of (seconds val) = val
number_of (minutes val) = val
number_of (hours val) = val
number_of day = 1

-- `Resolution::is_greater_or_equal`
unfoldable pub is_greater_or_equal : Resolution → Resolution → Bool
unfolding as_duration
is_greater_or_equal r other = leb (as_duration other) (as_duration r)

module _ {D : Type 0} where
  unfoldable pub time_utc : BaseData D → Time
  time_utc (candle c) = c.time
  time_utc (quote_bar b) = b.time
  time_utc (tick t) = t.time
  time_utc (quote q) = q.time
  time_utc (fundamental f) = f.time

  unfoldable pub time_closed_utc : BaseData D → Time
  unfolding as_duration
  time_closed_utc (candle c) = c.time + as_duration c.resolution
  time_closed_utc (quote_bar b) = b.time + as_duration b.resolution
  time_closed_utc (tick t) = t.time
  time_closed_utc (quote q) = q.time
  time_closed_utc (fundamental f) = f.time

  unfoldable pub set_is_closed : Bool → BaseData D → BaseData D
  set_is_closed closed (candle c) = candle (record c { is_closed = closed })
  set_is_closed closed (quote_bar b) = quote_bar (record b { is_closed = closed })
  set_is_closed closed other = other

-- `QuoteBar::new`
unfoldable pub new_quotebar :
    {D : Type 0} ⦃d : Decimal D⦄
    → Symbol
    → (bid_price ask_price volume ask_volume bid_volume : D) → Time
    → Resolution
    → CandleType
    → QuoteBar D
new_quotebar ⦃d⦄ symbol bid ask volume ask_volume bid_volume time resolution candle_type = record {
  symbol = symbol;
  bid_high = bid;
  bid_low = bid;
  bid_open = bid;
  bid_close = bid;
  ask_high = ask;
  ask_low = ask;
  ask_open = ask;
  ask_close = ask;
  volume = volume;
  ask_volume = ask_volume;
  bid_volume = bid_volume;
  range = d.dec 0;
  time = time;
  spread = ask ⊖ bid;
  is_closed = false;
  resolution = resolution;
  candle_type = candle_type;
}

-- A multiple of `step` at or before `value`.
unfoldable pub floor_to : (value step : ℕ) → ℕ
floor_to value step = value - value % step

-- A whole number of seconds of the Unix time, rounded towards 1970, which is at `epoch`.
unfoldable pub open_second : (epoch : Time) → (interval : ℕ) → Time → Time
unfolding floor_to
open_second epoch interval time =
    if leb epoch time
    then epoch + floor_to ((time - epoch) / nanos_per_second) interval * nanos_per_second
    else epoch
      - floor_to ((epoch - time + (nanos_per_second - 1)) / nanos_per_second) interval
        * nanos_per_second

-- `open_time`: an interval of zero is a panic.
unfoldable pub open_time : (epoch : Time) → Resolution → Time → Option Time
unfolding open_second floor_to
open_time epoch (seconds zero) time = none
open_time epoch (seconds (suc n)) time = some (open_second epoch (suc n) time)
open_time epoch (minutes zero) time = none
open_time epoch (minutes (suc n)) time = some (
    floor_to time nanos_per_hour
    + time % nanos_per_hour / nanos_per_minute / suc n * suc n * nanos_per_minute)
open_time epoch (hours zero) time = none
open_time epoch (hours (suc n)) time = some (
    floor_to time nanos_per_day
    + time % nanos_per_day / nanos_per_hour / suc n * suc n * nanos_per_hour)
open_time epoch _ time = some time
