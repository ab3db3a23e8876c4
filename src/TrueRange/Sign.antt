-- ===== src/TrueRange/Sign.antt =====
-- The average true range is not negative
-- (ff_standard_lib/src/strategies/indicators/built_in/average_true_range.rs).
use fund_forge.Base.{ℕ, suc, ◌*◌, ◌<◌, Bool, List, [], ◌∷◌, arith}
use fund_forge.Base.Tests.{Returns, >>=-Returns, if-Returns}
use fund_forge.Base.Lists.{length, All}
use fund_forge.Decimal.{Decimal, IsExact, HasSigns, ◌⊕◌, ◌≐◌, max}
use fund_forge.BaseData.{BaseData, candle, quote_bar}
use fund_forge.Pnl.{round_to_tick_size}
use fund_forge.Pnl.Sign.{IsNonneg, IsPositive, IsPositive-IsNonneg, IsNonneg-IsClosed}
use fund_forge.MovingAverage.{sum_onto}
use fund_forge.TrueRange.{
  AverageTrueRange, gap, true_range, range_between, ranges_from, true_ranges, average_range,
  calculate_true_range,
}

module _ {D : Type 0} ⦃d : Decimal D⦄ where
  -- Two candles, or two quote bars.
  abbrev pub AreAlike : BaseData D → BaseData D → Type 0
  AreAlike (quote_bar before) (quote_bar bar) = Unit
  AreAlike (candle before) (candle bar) = Unit
  AreAlike _ _ = ⊥

  abbrev pub AreFrom : BaseData D → List (BaseData D) → Type 0
  AreFrom before [] = Unit
  AreFrom before (bar ∷ bars) = AreAlike before bar × AreFrom bar bars

  -- Only candles, or only quote bars.
  abbrev pub AreBars : List (BaseData D) → Type 0
  AreBars [] = Unit
  AreBars (bar ∷ bars) = AreFrom bar bars

  module _ (ex : IsExact d) (signs : HasSigns d) where
    open ex use {scale, scale_pos, lt_parts, add_parts, sub_parts, gain-dec, loss-dec}

    max-IsNonneg : (a b : D) → IsNonneg b → IsNonneg (max a b)
    max-IsNonneg a b h = grind (arith, lt_parts)

    gap-IsNonneg : (close first : D) → IsNonneg (gap close first)
    unfolding gap
    gap-IsNonneg close first = grind (arith, lt_parts, sub_parts, gain-dec, loss-dec)

    true_range-IsNonneg : (close first high low : D) → IsNonneg (true_range close first high low)
    unfolding true_range
    true_range-IsNonneg close first high low =
        max-IsNonneg _ (gap close first) (gap-IsNonneg close first)

    between-Returns :
        (before bar : BaseData D)
        → AreAlike before bar
        → Returns IsNonneg (range_between before bar)
    unfolding range_between
    between-Returns (quote_bar before) (quote_bar bar) h = true_range-IsNonneg _ _ _ _
    between-Returns (candle before) (candle bar) h = true_range-IsNonneg _ _ _ _
    between-Returns _ _ h = absurd h

    from-Returns :
        (before : BaseData D) (bars : List (BaseData D))
        → AreFrom before bars
        → Returns (All IsNonneg) (ranges_from before bars)
    unfolding ranges_from
    from-Returns before [] h = tt
    from-Returns before (bar ∷ bars) (h, k) =
        >>=-Returns IsNonneg (All IsNonneg) _ _ (between-Returns before bar h) λ range n.
          >>=-Returns (All IsNonneg) (All IsNonneg) _ _ (from-Returns bar bars k)
            λ ranges ns. (n, ns)

    ranges-Returns :
        (bars : List (BaseData D)) → AreBars bars → Returns (All IsNonneg) (true_ranges bars)
    unfolding true_ranges
    ranges-Returns [] h = tt
    ranges-Returns (bar ∷ bars) h = from-Returns bar bars h

    sum_onto-IsNonneg :
        (total : D) (values : List D)
        → IsNonneg total
        → All IsNonneg values
        → IsNonneg (sum_onto total values)
    unfolding sum_onto
    sum_onto-IsNonneg total [] h k = h
    sum_onto-IsNonneg total (value ∷ values) h (n, ns) =
        sum_onto-IsNonneg (total ⊕ value) values
          (grind (arith, lt_parts, add_parts, gain-dec, loss-dec)) ns

    scale-suc : (n : ℕ) → 0 < suc n * scale
    scale-suc n = grind (arith, scale_pos)

    dec-IsPositive : (n : ℕ) → IsPositive (d.dec (suc n))
    dec-IsPositive n = grind (arith, lt_parts, gain-dec, loss-dec, scale-suc)

    average_range-Returns :
        (rounding : Bool) (tick_size : D) (accuracy : ℕ) (ranges : List D)
        → IsPositive tick_size
        → All IsNonneg ranges
        → Returns IsNonneg (average_range rounding tick_size accuracy ranges)
    unfolding average_range round_to_tick_size
    average_range-Returns rounding tick_size accuracy [] pos h =
        let closed = IsNonneg-IsClosed ex signs in closed.at_zero
    average_range-Returns rounding tick_size accuracy (range ∷ ranges) pos h =
        let closed = IsNonneg-IsClosed ex signs in
        if-Returns IsNonneg (sum_onto (d.dec 0) (range ∷ ranges) ≐ d.dec 0) _ _ closed.at_zero (
          >>=-Returns IsNonneg IsNonneg _ _
            (closed.of_div _ _ (sum_onto-IsNonneg (d.dec 0) (range ∷ ranges) closed.at_zero h)
              (dec-IsPositive (length ranges)))
            λ mean n.
              if-Returns IsNonneg rounding _ _
                (>>=-Returns IsNonneg IsNonneg _ _ (closed.of_div mean tick_size n pos) λ steps ns.
                  closed.of_mul (d.round steps) tick_size (closed.of_round steps ns)
                    (IsPositive-IsNonneg ex signs tick_size pos))
                (closed.of_round_dp accuracy mean n))

    -- With exact decimals and a positive tick size, the average true range of a history of candles
    -- only, or of quote bars only, is calculated without a panic, and is not negative.
    pub calculate_true_range-IsNonneg :
        (m : AverageTrueRange D)
        → IsPositive m.tick_size
        → AreBars m.base_data_history.history
        → Returns IsNonneg (calculate_true_range m)
    unfolding calculate_true_range
    calculate_true_range-IsNonneg m pos h =
        >>=-Returns (All IsNonneg) IsNonneg _ _ (ranges-Returns m.base_data_history.history h)
          λ ranges ns.
            average_range-Returns m.tick_rounding m.tick_size m.decimal_accuracy ranges pos ns
