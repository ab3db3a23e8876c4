-- ===== src/MovingAverage.antt =====
-- The moving average of the closes of bars
-- (ff_standard_lib/src/strategies/indicators/built_in/moving_average.rs). `none` is a panic.
pub mod Latest
pub mod Mean
pub mod Reported
pub mod Tests
use fund_forge.Base.{ℕ, Bool, true, false, ◌||◌, Option, none, some, List, [], ◌∷◌, String}
use fund_forge.Base.Tests.{◌>>=◌, if◌then◌else◌, string_eq}
use fund_forge.Base.Dict.{Dict, insert}
use fund_forge.Base.Lists.{length}
use fund_forge.Decimal.{Decimal, ◌⊕◌, ◌≐◌}
use fund_forge.Market.{Time, MarketType}
use fund_forge.BaseData.{
  BaseData, candle, quote_bar, tick, quote, fundamental, is_closed, DataSubscription,
}
use fund_forge.BaseData.Times.{time_closed_utc}
use fund_forge.Pnl.{round_to_tick_size}
use fund_forge.Window.{RollingWindow, new_window, clear, add, get, last, is_full, len}

pub record Color : Type 0 where
  pub red : ℕ
  pub green : ℕ
  pub blue : ℕ

pub record IndicatorPlot (D : Type 0) : Type 0 where
  pub name : String
  pub value : D
  pub color : Color

pub record IndicatorValues (D : Type 0) : Type 0 where
  pub name : String
  pub time : Time
  pub subscription : DataSubscription
  pub plots : Dict String (IndicatorPlot D)

pub record MovingAverage (D : Type 0) : Type 0 where
  pub name : String
  pub subscription : DataSubscription
  pub history : RollingWindow (IndicatorValues D)
  pub base_data_history : RollingWindow (BaseData D)
  pub market_type : MarketType
  pub tick_size : D
  pub decimal_accuracy : ℕ
  pub is_ready : Bool
  pub plot_color : Color
  pub period : ℕ
  pub tick_rounding : Bool

module _ {D : Type 0} ⦃d : Decimal D⦄ where
  -- The decimal accuracy and the tick size are those that the data vendor knows of the symbol.
  unfoldable pub new_average :
      (name : String)
      → DataSubscription
      → (history_to_retain period : ℕ) → Color
      → (tick_rounding : Bool) → (decimal_accuracy : ℕ) → (tick_size : D) → MovingAverage D
  unfolding new_window
  new_average name subscription history_to_retain period color rounding accuracy tick_size =
      record {
        name = name;
        subscription = subscription;
        history = new_window history_to_retain;
        base_data_history = new_window period;
        market_type = subscription.symbol.market_type;
        tick_size = tick_size;
        decimal_accuracy = accuracy;
        is_ready = false;
        plot_color = color;
        period = period;
        tick_rounding = rounding;
      }

  -- The price of a bar; other data is a panic.
  unfoldable pub close_price : BaseData D → Option D
  close_price (quote_bar b) = some b.bid_close
  close_price (candle c) = some c.close
  close_price _ = none

  unfoldable pub close_prices : List (BaseData D) → Option (List D)
  unfolding close_price
  close_prices [] = some []
  close_prices (b ∷ bars) = do
    value ← close_price b
    values ← close_prices bars
    some (value ∷ values)

  -- `values.iter().sum()`
  unfoldable pub sum_onto : D → List D → D
  sum_onto total [] = total
  sum_onto total (value ∷ values) = sum_onto (total ⊕ value) values

  unfoldable pub average_of :
      (tick_rounding : Bool) → (tick_size : D) → (decimal_accuracy : ℕ) → List D → Option D
  unfolding sum_onto
  average_of rounding tick_size accuracy [] = some (d.dec 0)
  average_of rounding tick_size accuracy (value ∷ values) =
      let sum = sum_onto (d.dec 0) (value ∷ values) in
      let average = d.div sum (d.dec (length (value ∷ values))) >>= λ mean.
      if rounding then round_to_tick_size mean tick_size else some (d.round_dp accuracy mean) in
      if sum ≐ d.dec 0 then some (d.dec 0) else average

  unfoldable pub calculate_average : MovingAverage D → Option D
  unfolding close_prices average_of
  calculate_average m = do
    values ← close_prices m.base_data_history.history
    average_of m.tick_rounding m.tick_size m.decimal_accuracy values

  unfoldable pub values_at : Time → (average : D) → MovingAverage D → IndicatorValues D
  values_at time average m = record {
    name = m.name;
    time = time;
    subscription = m.subscription;
    plots = insert "ma" (record { name = "ma"; value = average; color = m.plot_color }) [];
  }

  -- The end of the update, when enough bars are there.
  unfoldable pub publish :
      Time → MovingAverage D → Option (Option (List (IndicatorValues D)) × MovingAverage D)
  unfolding calculate_average values_at
  publish time m = do
    average ← calculate_average m
    let values = values_at time average m
    some (
        if average ≐ d.dec 0
        then (none, m)
        else (some (values ∷ []), record m { history = add values m.history }))

  -- The update after a closed bar has been added.
  unfoldable pub after_add :
      Time → MovingAverage D → Option (Option (List (IndicatorValues D)) × MovingAverage D)
  unfolding publish
  after_add time m =
      let published = publish time (record m { is_ready = true }) in
      if m.is_ready || is_full m.base_data_history then published else some (none, m)

  unfoldable pub update_base_data :
      BaseData D → MovingAverage D → Option (Option (List (IndicatorValues D)) × MovingAverage D)
  unfolding after_add time_closed_utc
  update_base_data b m =
      let updated =
        after_add (time_closed_utc b)
          (record m { base_data_history = add b m.base_data_history }) in
      if is_closed b then updated else some (none, m)

  unfoldable pub reset : MovingAverage D → MovingAverage D
  reset m = record m {
    history = clear m.history;
    base_data_history = clear m.base_data_history;
    is_ready = false;
  }

  unfoldable pub index : ℕ → MovingAverage D → Option (IndicatorValues D)
  index i m = if m.is_ready then get i m.history else none

  unfoldable pub current : MovingAverage D → Option (IndicatorValues D)
  current m = if m.is_ready then last m.history else none
