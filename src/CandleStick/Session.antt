-- ===== src/CandleStick/Session.antt =====
-- The candles of a sequence of ticks and candles
-- (ff_standard_lib/src/strategies/consolidators/candlesticks.rs).
use fund_forge.Base.{Option, some, List, [], ◌∷◌}
use fund_forge.Base.Tests.{◌>>=◌, Always, >>=-Always}
use fund_forge.Base.Lists.{All}
use fund_forge.Decimal.{Decimal, IsExact}
use fund_forge.Market.{Time}
use fund_forge.BaseData.{BaseData}
use fund_forge.Consolidator.{ConsolidatedData}
use fund_forge.CandleStick.{CandleStickConsolidator, update_candles}
use fund_forge.CandleStick.Proper.{ItemIsProper, IfAnyIsProper, GivesProper, update-GivesProper}

module _ {D : Type 0} ⦃d : Decimal D⦄ where
  -- What the consolidator gives out for one item after the other.
  unfoldable pub consolidate :
      (epoch : Time)
      → List (BaseData D)
      → CandleStickConsolidator D
      → Option (List (ConsolidatedData D) × CandleStickConsolidator D)
  consolidate epoch [] c = some ([], c)
  consolidate epoch (item ∷ items) c = do
    (given, after) ← update_candles epoch c item
    (others, final) ← consolidate epoch items after
    some (given ∷ others, final)

  abbrev pub IsGivenProper : ConsolidatedData D → Type 0
  IsGivenProper given = ItemIsProper given.open_data × IfAnyIsProper given.closed_data

  -- With exact decimals, over every sequence of ticks, candles and other data, that does not
  -- panic, if the opens and closes of the candles lie between their lows and highs, so do those of
  -- every candle that is given out or kept.
  pub consolidate-IsGivenProper :
      (ex : IsExact d) (epoch : Time) (items : List (BaseData D)) (c : CandleStickConsolidator D)
      → All ItemIsProper items
      → IfAnyIsProper c.current_data
      → Always
          (λ r. All IsGivenProper r.0 × IfAnyIsProper r.1.current_data)
          (consolidate epoch items c)
  unfolding consolidate
  consolidate-IsGivenProper ex epoch [] c h k = (tt, k)
  consolidate-IsGivenProper ex epoch (item ∷ items) c (h, others) k =
      >>=-Always GivesProper _ (update_candles epoch c item) _
        (update-GivesProper ex epoch c item h k)
        λ r (shown, closed, kept).
          >>=-Always (λ r. All IsGivenProper r.0 × IfAnyIsProper r.1.current_data) _
            (consolidate epoch items r.1) _
            (consolidate-IsGivenProper ex epoch items r.1 others kept)
            λ rest (given, left). (((shown, closed), given), left)
