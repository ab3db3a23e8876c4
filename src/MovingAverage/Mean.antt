-- ===== src/MovingAverage/Mean.antt =====
-- The mean of the closes of bars, as a reference for the moving average
-- (ff_standard_lib/src/strategies/indicators/built_in/moving_average.rs).
use fund_forge.Base.{
  suc, ◌≡◌, refl, sym, ap, ◌∙◌, ◌⊎◌, inl, inr, true, ◌&&◌, Option, none, some, List, [], ◌∷◌, arith,
}
use fund_forge.Base.Tests.{◌>>=◌, if◌then◌else◌, Bool-cases, leb, string_eq}
use fund_forge.Base.Dict.{insert}
use fund_forge.Base.Lists.{length}
use fund_forge.Decimal.{Decimal, IsExact, ◌⊕◌, ◌⊗◌, ◌≐◌}
use fund_forge.Market.{Time}
use fund_forge.BaseData.{BaseData, candle, quote_bar, tick, quote, fundamental, is_closed}
use fund_forge.BaseData.Times.{time_closed_utc}
use fund_forge.Pnl.{round_to_tick_size}
use fund_forge.Window.{take}
use fund_forge.Window.Latest.{length-take}
use fund_forge.MovingAverage.{
  IndicatorValues, MovingAverage, close_price, close_prices, sum_onto, average_of, values_at,
}
use fund_forge.MovingAverage.Latest.{shown, report}

module _ {D : Type 0} ⦃d : Decimal D⦄ where
  -- The sum of the closes of candles and of the bid closes of quote bars; there is none over
  -- other data.
  abbrev pub sum_of_closes : List (BaseData D) → Option D
  sum_of_closes [] = some (d.dec 0)
  sum_of_closes (candle c ∷ bars) = sum_of_closes bars >>= λ rest. some (c.close ⊕ rest)
  sum_of_closes (quote_bar b ∷ bars) = sum_of_closes bars >>= λ rest. some (b.bid_close ⊕ rest)
  sum_of_closes _ = none

  -- To the nearest tick, or to the decimals that the symbol has.
  abbrev pub rounded : MovingAverage D → D → Option D
  rounded start mean =
      if start.tick_rounding
      then (d.div mean start.tick_size >>= λ ticks. some (d.round ticks ⊗ start.tick_size))
      else some (d.round_dp start.decimal_accuracy mean)

  -- One plot of a value, if it is not zero.
  abbrev pub plotted : MovingAverage D → Time → D → Option (List (IndicatorValues D))
  plotted start time value =
      if value ≐ d.dec 0
      then none
      else some (
          record {
            name = start.name;
            time = time;
            subscription = start.subscription;
            plots = ("ma", record { name = "ma"; value = value; color = start.plot_color }) ∷ [];
          }
          ∷ [])

  -- The sum over the period, rounded; a sum of zero is not shown.
  abbrev pub mean_shown : MovingAverage D → Time → D → Option (Option (List (IndicatorValues D)))
  mean_shown start time sum =
      if sum ≐ d.dec 0
      then some none
      else (d.div sum (d.dec start.period) >>= rounded start >>= λ value.
          some (plotted start time value))

  -- What is reported for a bar, after some closed bars.
  abbrev pub expected :
      MovingAverage D → BaseData D → List (BaseData D) → Option (Option (List (IndicatorValues D)))
  expected start b bars =
      if is_closed b && leb start.period (length (b ∷ bars))
      then (sum_of_closes (take start.period (b ∷ bars)) >>= mean_shown start (time_closed_utc b))
      else some none

  module _ (ex : IsExact d) where
    open ex use {gain-dec, loss-dec, add_parts, beq_parts, eq_of_parts}

    add_assoc : (a b c : D) → a ⊕ b ⊕ c ≡ a ⊕ (b ⊕ c)
    add_assoc a b c = grind (arith, add_parts, eq_of_parts)

    add_zero : (a : D) → d.dec 0 ⊕ a ≡ a ⊕ d.dec 0
    add_zero a = grind (arith, add_parts, eq_of_parts)

    zero_is_zero : (d.dec 0 ≐ d.dec 0) ≡ true
    zero_is_zero = grind (arith, beq_parts)

    sum_onto-add : (a b : D) (values : List D) → sum_onto (a ⊕ b) values ≡ a ⊕ sum_onto b values
    unfolding sum_onto
    sum_onto-add a b [] = refl
    sum_onto-add a b (value ∷ values) =
        ap (λ t. sum_onto t values) (add_assoc a b value) ∙ sum_onto-add a (b ⊕ value) values

    sum_onto-cons :
        (value : D) (values : List D)
        → sum_onto (d.dec 0) (value ∷ values) ≡ value ⊕ sum_onto (d.dec 0) values
    unfolding sum_onto
    sum_onto-cons value values =
        ap (λ t. sum_onto t values) (add_zero value) ∙ sum_onto-add value (d.dec 0) values

    -- The closes, if all data are bars, are as many as the bars and have their sum.
    record Closes (bars : List (BaseData D)) : Type 0 where
      values : List D
      priced : close_prices bars ≡ some values
      summed : sum_of_closes bars ≡ some (sum_onto (d.dec 0) values)
      as_many : length values ≡ length bars

    priced_or_none :
        (bars : List (BaseData D))
        → ((close_prices bars ≡ none) × (sum_of_closes bars ≡ none)) ⊎ Closes bars
    unfolding close_prices close_price sum_onto
    priced_or_none [] = inr (record { values = []; priced = refl; summed = refl; as_many = refl })
    priced_or_none (candle c ∷ bars) = elim (priced_or_none bars) [
      | inl (failed, unsummed) ↦ inl (rw (close_prices, failed) refl, rw unsummed refl)
      | inr known ↦ inr (record {
        values = c.close ∷ known.values;
        priced = rw (close_prices, known.priced) refl;
        summed = rw known.summed (ap some (sym (sum_onto-cons c.close known.values)));
        as_many = ap suc known.as_many;
      })
    ]
    priced_or_none (quote_bar b ∷ bars) = elim (priced_or_none bars) [
      | inl (failed, unsummed) ↦ inl (rw (close_prices, failed) refl, rw unsummed refl)
      | inr known ↦ inr (record {
        values = b.bid_close ∷ known.values;
        priced = rw (close_prices, known.priced) refl;
        summed = rw known.summed (ap some (sym (sum_onto-cons b.bid_close known.values)));
        as_many = ap suc known.as_many;
      })
    ]
    priced_or_none (tick t ∷ bars) = inl (refl, refl)
    priced_or_none (quote q ∷ bars) = inl (refl, refl)
    priced_or_none (fundamental f ∷ bars) = inl (refl, refl)

    -- The average of as many closes as the period is shown as their mean.
    average-mean :
        (start : MovingAverage D) (time : Time) (values : List D)
        → leb 1 start.period ≡ true
        → length values ≡ start.period
        → (average_of start.tick_rounding start.tick_size start.decimal_accuracy values
            >>= λ average.
                some (if average ≐ d.dec 0 then none else some (values_at time average start ∷ [])))
          ≡ mean_shown start time (sum_onto (d.dec 0) values)
    unfolding average_of values_at insert round_to_tick_size
    average-mean start time [] given many = absurd (grind (arith, given, many))
    average-mean start time (value ∷ values) given many =
        elim (Bool-cases (sum_onto (d.dec 0) (value ∷ values) ≐ d.dec 0)) [
          | inl nothing ↦ rw (average_of, nothing, zero_is_zero) refl
          | inr something ↦ rw (average_of, something, many) refl
        ]

    shown-mean :
        (start : MovingAverage D) (time : Time) (bars : List (BaseData D))
        → leb 1 start.period ≡ true
        → length bars ≡ start.period
        → shown start time bars ≡ (sum_of_closes bars >>= mean_shown start time)
    shown-mean start time bars given many = elim (priced_or_none bars) [
      | inl (failed, unsummed) ↦ rw (failed, unsummed) refl
      | inr known ↦
          rw (known.priced, known.summed)
            (average-mean start time known.values given (known.as_many ∙ many))
    ]

    pub report-expected :
        (start : MovingAverage D) (b : BaseData D) (bars : List (BaseData D))
        → leb 1 start.period ≡ true
        → report start b bars ≡ expected start b bars
    report-expected start b bars given =
        elim (Bool-cases (is_closed b && leb start.period (length (b ∷ bars)))) [
          | inl reached ↦ rw reached (
              shown-mean start (time_closed_utc b) (take start.period (b ∷ bars)) given
                (grind (arith, reached, length-take start.period (b ∷ bars))))
          | inr early ↦ rw early refl
        ]
