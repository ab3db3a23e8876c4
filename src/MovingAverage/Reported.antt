-- ===== src/MovingAverage/Reported.antt =====
-- What a moving average reports after any data
-- (ff_standard_lib/src/strategies/indicators/built_in/moving_average.rs).
use mathlib.Core.Path.{subst}
use fund_forge.Base.{
  ℕ, suc, ◌≡◌, refl, sym, ◌∙◌, Bool, true, false, arith, some, List, [], ◌∷◌, String,
}
use fund_forge.Base.Tests.{◌>>=◌, leb, Always, Always-some, >>=-Always}
use fund_forge.Decimal.{Decimal, IsExact}
use fund_forge.BaseData.{BaseData, DataSubscription}
use fund_forge.Window.{new_window}
use fund_forge.Window.Latest.{filled}
use fund_forge.MovingAverage.{Color, MovingAverage, new_average, update_base_data}
use fund_forge.MovingAverage.Mean.{expected, report-expected}
use fund_forge.MovingAverage.Latest.{closed_bars, fed, seen, update-report, Follows, update-Follows}

at_least_one : (p : ℕ) → leb 1 (suc p) ≡ true
at_least_one p = ground arith

none_of_some : (p : ℕ) → leb (suc p) 0 ≡ false
none_of_some p = ground arith

module _ {D : Type 0} ⦃d : Decimal D⦄ where
  fed-Follows :
      (start : MovingAverage D)
      → leb 1 start.period ≡ true
      → start ≡ seen start [] start.history
      → (bars : List (BaseData D)) → Always (Follows start bars) (fed start bars)
  unfolding fed Follows
  fed-Follows start given fresh [] = (start.history, fresh)
  fed-Follows start given fresh (b ∷ bars) =
      >>=-Always (Follows start bars) (Follows start (b ∷ bars)) (fed start bars) _
        (fed-Follows start given fresh bars)
        λ m (h, e).
          >>=-Always (λ r. Follows start (b ∷ bars) r.1) (Follows start (b ∷ bars))
            (update_base_data b m) _
            (subst (λ x. Always (λ r. Follows start (b ∷ bars) r.1) (update_base_data b x)) (sym e)
              (update-Follows start given b bars h))
            λ _ kept. kept

  -- With exact decimals, a new moving average of a positive period, after any data that does not
  -- panic, reports for the next item nothing if that is an open bar or if there are fewer closed
  -- bars than the period, and otherwise the sum of the latest closes of the period over the period,
  -- rounded to ticks or to decimals, unless the sum or the rounded mean is zero.
  pub update-fed :
      (ex : IsExact d) (name : String) (subscription : DataSubscription) (retain p : ℕ)
      (color : Color) (rounding : Bool) (accuracy : ℕ) (tick_size : D) (b : BaseData D)
      (bars : List (BaseData D)) (m : MovingAverage D)
      → let start =
          new_average name subscription retain (suc p) color rounding accuracy tick_size in
        fed start bars ≡ some m
        → (update_base_data b m >>= λ r. some r.0) ≡ expected start b (closed_bars bars)
  unfolding new_average new_window filled Follows
  update-fed ex name subscription retain p color rounding accuracy tick_size b bars m known =
      let start = new_average name subscription retain (suc p) color rounding accuracy tick_size in
      let given = at_least_one p in
      let (h, e) =
        Always-some (Follows start bars) (fed start bars)
          (fed-Follows start given (rw (none_of_some p) refl) bars) known in
      rw e (
        update-report start given b (closed_bars bars) h
        ∙ report-expected ex start b (closed_bars bars) given)
