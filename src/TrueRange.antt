-- ===== src/TrueRange.antt =====
-- The average true range of bars
-- (ff_standard_lib/src/strategies/indicators/built_in/average_true_range.rs). `none` is a panic.
mod Tests
pub mod Sign
use fund_forge.Base.{ℕ, Bool, true, false, ◌||◌, Option, none, some, List, [], ◌∷◌, String}
use fund_forge.Base.Tests.{◌>>=◌, if◌then◌else◌, string_eq}
use fund_forge.Base.Dict.{insert}
use fund_forge.Base.Lists.{length}
use fund_forge.Decimal.{Decimal, ◌⊕◌, ◌⊖◌, ◌≺◌, ◌≐◌, max}
use fund_forge.Market.{Time, MarketType}
use fund_forge.BaseData.{
  BaseData, candle, quote_bar, tick, quote, fundamental, is_closed, DataSubscription,
}
use fund_forge.BaseData.Times.{time_closed_utc}
use fund_forge.Pnl.{round_to_tick_size}
use fund_forge.Window.{RollingWindow, new_window, clear, add, is_full}
use fund_forge.MovingAverage.{Color, IndicatorPlot, IndicatorValues, sum_onto}

pub record AverageTrueRange (D : Type 0) : Type 0 where
  pub name : String
  pub subscription : DataSubscription
  pub history : RollingWindow (IndicatorValues D)
  pub base_data_history : RollingWindow (BaseData D)
  pub market_type : MarketType
  pub tick_size : D
  pub decimal_accuracy : ℕ
  pub is_ready : Bool
  pub plot_color : Color
  pub period : ℕ
  pub tick_rounding : Bool

module _ {D : Type 0} ⦃d : Decimal D⦄ where
  -- The decimal accuracy and the tick size are those that the data vendor knows of the symbol.
  unfoldable pub new_true_range :
      (name : String)
      → DataSubscription
      → (history_to_retain period : ℕ) → Color
      → (tick_rounding : Bool) → (decimal_accuracy : ℕ) → (tick_size : D) → AverageTrueRange D
  unfolding new_window
  new_true_range name subscription history_to_retain period color rounding accuracy tick_size =
      record {
        name = name;
        subscription = subscription;
        history = new_window history_to_retain;
        base_data_history = new_window period;
        market_type = subscription.symbol.market_type;
        tick_size = tick_size;
        decimal_accuracy = accuracy;
        is_ready = false;
        plot_color = color;
        period = period;
        tick_rounding = rounding;
      }

  -- `value.abs()`
  abbrev pub abs : D → D
  abs a = if a ≺ d.dec 0 then d.dec 0 ⊖ a else a

  -- The gap between the close of one bar and the open of another.
  unfoldable pub gap : (close first_price : D) → D
  gap close first_price =
      if close ≺ first_price
      then first_price ⊖ close
      else if first_price ≺ close
      then close ⊖ first_price
      else d.dec 0

  unfoldable pub true_range : (close first_price high low : D) → D
  unfolding gap
  true_range close first_price high low =
      max (max (max (high ⊖ low) (abs (high ⊖ close))) (abs (low ⊖ close))) (gap close first_price)

  -- The range of two neighbours in the history, of which the source takes the first as the earlier
  -- one.
  unfoldable pub range_between : BaseData D → BaseData D → Option D
  unfolding true_range
  range_between (quote_bar before) (quote_bar bar) =
      some (true_range before.bid_close bar.bid_open bar.bid_high bar.bid_low)
  range_between (candle before) (candle bar) =
      some (true_range before.close bar.open_price bar.high bar.low)
  range_between _ _ = none

  unfoldable pub ranges_from : BaseData D → List (BaseData D) → Option (List D)
  unfolding range_between
  ranges_from before [] = some []
  ranges_from before (bar ∷ bars) = do
    range ← range_between before bar
    ranges ← ranges_from bar bars
    some (range ∷ ranges)

  unfoldable pub true_ranges : List (BaseData D) → Option (List D)
  unfolding ranges_from
  true_ranges [] = some []
  true_ranges (bar ∷ bars) = ranges_from bar bars

  unfoldable pub average_range :
      (tick_rounding : Bool) → (tick_size : D) → (decimal_accuracy : ℕ) → List D → Option D
  unfolding sum_onto round_to_tick_size
  average_range rounding tick_size accuracy [] = some (d.dec 0)
  average_range rounding tick_size accuracy (range ∷ ranges) =
      let sum = sum_onto (d.dec 0) (range ∷ ranges) in
      let average = d.div sum (d.dec (length (range ∷ ranges))) >>= λ mean.
      if rounding then round_to_tick_size mean tick_size else some (d.round_dp accuracy mean) in
      if sum ≐ d.dec 0 then some (d.dec 0) else average

  unfoldable pub calculate_true_range : AverageTrueRange D → Option D
  unfolding true_ranges average_range
  calculate_true_range m = do
    ranges ← true_ranges m.base_data_history.history
    average_range m.tick_rounding m.tick_size m.decimal_accuracy ranges

  unfoldable pub range_values : Time → (average : D) → AverageTrueRange D → IndicatorValues D
  range_values time average m = record {
    name = m.name;
    time = time;
    subscription = m.subscription;
    plots = insert "atr" (record { name = "atr"; value = average; color = m.plot_color }) [];
  }

  unfoldable pub publish_range :
      Time → AverageTrueRange D → Option (Option (List (IndicatorValues D)) × AverageTrueRange D)
  unfolding calculate_true_range range_values
  publish_range time m = do
    average ← calculate_true_range m
    let values = range_values time average m
    some (
        if average ≐ d.dec 0
        then (none, m)
        else (some (values ∷ []), record m { history = add values m.history }))

  unfoldable pub after_bar :
      Time → AverageTrueRange D → Option (Option (List (IndicatorValues D)) × AverageTrueRange D)
  unfolding publish_range
  after_bar time m =
      let published = publish_range time (record m { is_ready = true }) in
      if m.is_ready || is_full m.base_data_history then published else some (none, m)

  unfoldable pub update_range :
      BaseData D
      → AverageTrueRange D
      → Option (Option (List (IndicatorValues D)) × AverageTrueRange D)
  unfolding after_bar time_closed_utc
  update_range b m =
      let updated =
        after_bar (time_closed_utc b)
          (record m { base_data_history = add b m.base_data_history }) in
      if is_closed b then updated else some (none, m)

  -- The average stays ready.
  unfoldable pub reset_range : AverageTrueRange D → AverageTrueRange D
  reset_range m = record m {
    history = clear m.history;
    base_data_history = clear m.base_data_history;
  }
