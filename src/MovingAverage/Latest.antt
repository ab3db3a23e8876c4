-- ===== src/MovingAverage/Latest.antt =====
-- The bars that a moving average is taken over
-- (ff_standard_lib/src/strategies/indicators/built_in/moving_average.rs).
use fund_forge.Base.{
  ℕ, suc, ◌≡◌, refl, ap, ◌∙◌, inl, inr, Bool, true, false, ◌&&◌, ◌||◌, Option, none, some, List, [],
  ◌∷◌, arith,
}
use fund_forge.Base.Tests.{
  ◌>>=◌, if◌then◌else◌, Bool-cases, Option-cases, leb, Always, >>=-Always_any, Always-map,
}
use fund_forge.Base.Lists.{length}
use fund_forge.Decimal.{Decimal, ◌≐◌}
use fund_forge.Market.{Time}
use fund_forge.BaseData.{BaseData, is_closed}
use fund_forge.BaseData.Times.{time_closed_utc}
use fund_forge.Window.{RollingWindow, take, add, is_full}
use fund_forge.Window.Latest.{filled, history-filled, is_full-filled}
use fund_forge.MovingAverage.{
  IndicatorValues, MovingAverage, close_prices, average_of, calculate_average, values_at, publish,
  after_add, update_base_data,
}

ready :
    (p n : ℕ) (full : Bool)
    → leb 1 p ≡ true
    → full ≡ leb p (suc n)
    → (leb p n || full) ≡ leb p (suc n)
ready p n full h e = ground (arith, h, e)

early_before : (p n : ℕ) → leb p (suc n) ≡ false → leb p n ≡ leb p (suc n)
early_before p n h = ground (arith, h)

module _ {D : Type 0} ⦃d : Decimal D⦄ where
  -- The closed bars among some data, and the average after all the data, the latest first in both.
  abbrev pub closed_bars : List (BaseData D) → List (BaseData D)
  closed_bars [] = []
  closed_bars (b ∷ bars) =
      let others = closed_bars bars in if is_closed b then b ∷ others else others

  unfoldable pub fed : MovingAverage D → List (BaseData D) → Option (MovingAverage D)
  fed start [] = some start
  fed start (b ∷ bars) = do m ← fed start bars; (_, after) ← update_base_data b m; some after

  -- The state after closed bars, up to the history of values.
  abbrev pub seen :
      MovingAverage D → List (BaseData D) → RollingWindow (IndicatorValues D) → MovingAverage D
  seen start bars history = record start {
    base_data_history = filled start.period bars;
    is_ready = leb start.period (length bars);
    history = history;
  }

  -- What the average reports at a time, over some bars.
  abbrev pub shown :
      MovingAverage D → Time → List (BaseData D) → Option (Option (List (IndicatorValues D)))
  shown start time bars =
      close_prices bars
      >>= average_of start.tick_rounding start.tick_size start.decimal_accuracy
      >>= λ average.
          some (if average ≐ d.dec 0 then none else some (values_at time average start ∷ []))

  -- What it reports for a bar, when it has seen closed bars before.
  abbrev pub report :
      MovingAverage D → BaseData D → List (BaseData D) → Option (Option (List (IndicatorValues D)))
  report start b bars =
      if is_closed b && leb start.period (length (b ∷ bars))
      then shown start (time_closed_utc b) (take start.period (b ∷ bars))
      else some none

  publish-shown :
      (time : Time) (m : MovingAverage D)
      → (publish time m >>= λ r. some r.0) ≡ shown m time m.base_data_history.history
  unfolding publish calculate_average
  publish-shown time m = elim (Option-cases (calculate_average m)) [
    | inl failed ↦ rw (publish, failed) refl
    | inr (average, known) ↦ elim (Bool-cases (average ≐ d.dec 0)) [
      | inl zero_average ↦ rw (publish, known, zero_average) refl
      | inr shows ↦ rw (publish, known, shows) refl
    ]
  ]

  -- The publication changes the history of values only.
  publish-history :
      (time : Time) (m : MovingAverage D)
      → Always
          (λ r. (h : RollingWindow (IndicatorValues D)) × (r.1 ≡ record m { history = h }))
          (publish time m)
  unfolding publish
  publish-history time m = >>=-Always_any _ (calculate_average m) _ λ average.
      elim (Bool-cases (average ≐ d.dec 0)) [
        | inl zero_average ↦ rw zero_average (m.history, refl)
        | inr shows ↦ rw shows (add (values_at time average m) m.history, refl)
      ]

  -- The average is in the state after the closed bars among what it was fed.
  unfoldable pub Follows : MovingAverage D → List (BaseData D) → MovingAverage D → Type 0
  Follows start bars m =
      (h : RollingWindow (IndicatorValues D)) × (m ≡ seen start (closed_bars bars) h)

  module _ (start : MovingAverage D) (given : leb 1 start.period ≡ true) where
    enough :
        (b : BaseData D) (bars : List (BaseData D))
        → (leb start.period (length bars) || is_full (filled start.period (b ∷ bars)))
          ≡ leb start.period (length (b ∷ bars))
    enough b bars =
        ready start.period (length bars) _ given (is_full-filled start.period (b ∷ bars))

    -- The state when a closed bar has been added.
    abbrev added :
        BaseData D → List (BaseData D) → RollingWindow (IndicatorValues D) → Bool → MovingAverage D
    added b bars h is_ready = record start {
      base_data_history = filled start.period (b ∷ bars);
      is_ready = is_ready;
      history = h;
    }

    update-open :
        (b : BaseData D) (m : MovingAverage D)
        → is_closed b ≡ false
        → update_base_data b m ≡ some (none, m)
    unfolding update_base_data
    update-open b m open_bar = rw (update_base_data, open_bar) refl

    update-early :
        (b : BaseData D) (bars : List (BaseData D)) (h : RollingWindow (IndicatorValues D))
        → is_closed b ≡ true
        → leb start.period (length (b ∷ bars)) ≡ false
        → update_base_data b (seen start bars h)
          ≡ some (none, added b bars h (leb start.period (length bars)))
    unfolding update_base_data after_add filled
    update-early b bars h closed early =
        rw (update_base_data, closed, after_add, enough b bars ∙ early) refl

    update-ready :
        (b : BaseData D) (bars : List (BaseData D)) (h : RollingWindow (IndicatorValues D))
        → is_closed b ≡ true
        → leb start.period (length (b ∷ bars)) ≡ true
        → update_base_data b (seen start bars h) ≡ publish (time_closed_utc b) (added b bars h true)
    unfolding update_base_data after_add filled
    update-ready b bars h closed reached =
        rw (update_base_data, closed, after_add, enough b bars ∙ reached) refl

    pub update-report :
        (b : BaseData D) (bars : List (BaseData D)) (h : RollingWindow (IndicatorValues D))
        → (update_base_data b (seen start bars h) >>= λ r. some r.0) ≡ report start b bars
    unfolding values_at
    update-report b bars h = elim (Bool-cases (is_closed b)) [
      | inl closed ↦ elim (Bool-cases (leb start.period (length (b ∷ bars)))) [
        | inl reached ↦
            rw (update-ready b bars h closed reached, closed, reached)
              (publish-shown (time_closed_utc b) (added b bars h true)
                ∙ ap (shown start (time_closed_utc b)) (history-filled start.period (b ∷ bars)))
        | inr early ↦ rw (update-early b bars h closed early, closed, early) refl
      ]
      | inr open_bar ↦ rw (update-open b (seen start bars h) open_bar, open_bar) refl
    ]

    pub update-Follows :
        (b : BaseData D) (bars : List (BaseData D)) (h : RollingWindow (IndicatorValues D))
        → Always
            (λ r. Follows start (b ∷ bars) r.1)
            (update_base_data b (seen start (closed_bars bars) h))
    unfolding Follows
    update-Follows b bars h = elim (Bool-cases (is_closed b)) [
      | inl closed ↦ elim (Bool-cases (leb start.period (length (b ∷ closed_bars bars)))) [
        | inl reached ↦
            rw (update-ready b (closed_bars bars) h closed reached, closed, reached)
              (Always-map _ _ (publish (time_closed_utc b) (added b (closed_bars bars) h true))
                (publish-history (time_closed_utc b) (added b (closed_bars bars) h true))
                λ r kept. kept)
        | inr early ↦
            rw
              (
                update-early b (closed_bars bars) h closed early,
                closed,
                early_before start.period (length (closed_bars bars)) early,
              )
              (h, refl)
      ]
      | inr open_bar ↦ rw (update-open b _ open_bar, open_bar) (h, refl)
    ]
