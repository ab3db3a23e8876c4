-- ===== src/CandleStick/Proper.antt =====
-- The candles of the consolidator
-- (ff_standard_lib/src/strategies/consolidators/candlesticks.rs).
use fund_forge.Base.{◌≡◌, inl, inr, Bool, true, Option, none, some, arith}
use fund_forge.Base.Tests.{Option-cases, ltb, leb, Always, >>=-Always, >>=-Always_any, if-Always}
use fund_forge.Decimal.{Decimal, IsExact, ◌⊕◌, ◌⊖◌, ◌≼◌, max, min}
use fund_forge.Market.{Time}
use fund_forge.BaseData.{
  Candle, Tick, Aggressor, BaseData, candle, quote_bar, tick, quote, fundamental, new_candle,
}
use fund_forge.BaseData.Times.{time_utc, time_closed_utc, set_is_closed}
use fund_forge.Consolidator.{ConsolidatedData}
use fund_forge.CandleStick.{
  CandleStickConsolidator, rounded, next_open, first_candle, start_candle, add_side, merge_candle,
  keep_close, roll_candle, merge_into_candle, meet_candle, update_candles,
}

module _ {D : Type 0} ⦃d : Decimal D⦄ where
  -- The open and the close of a candle lie between its low and its high.
  abbrev pub IsProper : Candle D → Type 0
  IsProper c =
      ((c.low ≼ c.open_price) ≡ true)
      × ((c.open_price ≼ c.high) ≡ true)
      × ((c.low ≼ c.close) ≡ true)
      × ((c.close ≼ c.high) ≡ true)

  abbrev pub ItemIsProper : BaseData D → Type 0
  ItemIsProper (candle c) = IsProper c
  ItemIsProper _ = Unit

  abbrev pub IfAnyIsProper : Option (BaseData D) → Type 0
  IfAnyIsProper none = Unit
  IfAnyIsProper (some b) = ItemIsProper b

  -- The candles that an update gives out, and the one that it keeps.
  abbrev pub GivesProper : ConsolidatedData D × CandleStickConsolidator D → Type 0
  GivesProper (given, c) =
      ItemIsProper given.open_data × IfAnyIsProper given.closed_data × IfAnyIsProper c.current_data

  module _ (ex : IsExact d) where
    self_le : (a : D) → (a ≼ a) ≡ true
    self_le a = ground (arith, ex.lt_parts a a)

    le-max : (a high p : D) → (a ≼ high) ≡ true → (a ≼ max high p) ≡ true
    le-max a high p h = ground (arith, ex.lt_parts high a, ex.lt_parts p high, ex.lt_parts p a, h)

    new-max : (high p : D) → (p ≼ max high p) ≡ true
    new-max high p = ground (arith, ex.lt_parts p high, ex.lt_parts high p, ex.lt_parts p p)

    min-le : (a low p : D) → (low ≼ a) ≡ true → (min low p ≼ a) ≡ true
    min-le a low p h = ground (arith, ex.lt_parts a low, ex.lt_parts p low, ex.lt_parts a p, h)

    new-min : (low p : D) → (min low p ≼ p) ≡ true
    new-min low p = ground (arith, ex.lt_parts p low, ex.lt_parts p p)

    above-max : (a high p : D) → (a ≼ p) ≡ true → (a ≼ max high p) ≡ true
    above-max a high p h =
        ground (arith, ex.lt_parts high a, ex.lt_parts p high, ex.lt_parts p a, h)

    below-min : (a low p : D) → (p ≼ a) ≡ true → (min low p ≼ a) ≡ true
    below-min a low p h = ground (arith, ex.lt_parts a low, ex.lt_parts p low, ex.lt_parts a p, h)

    add_side-IsProper : (t : Tick D) (c : Candle D) → IsProper c → IsProper (add_side t c)
    unfolding add_side
    add_side-IsProper t c h =
        elim t.aggressor
          as (λ a. IsProper (elim a [
            | Aggressor.buy ↦ record c { bid_volume = c.bid_volume ⊕ t.volume }
            | Aggressor.sell ↦ record c { ask_volume = c.ask_volume ⊕ t.volume }
            | Aggressor.nobody ↦ c
          ])) [ Aggressor.buy ↦ h | Aggressor.sell ↦ h | Aggressor.nobody ↦ h ]

    first_candle-IsProper :
        (c : CandleStickConsolidator D) (opens : Time) (item : BaseData D)
        → ItemIsProper item
        → Always IsProper (first_candle c opens item)
    unfolding first_candle new_candle
    first_candle-IsProper c opens (tick t) h =
        >>=-Always_any IsProper c.subscription.candle_type _
          λ _. (self_le t.price, self_le t.price, self_le t.price, self_le t.price)
    first_candle-IsProper c opens (candle other) h = h
    first_candle-IsProper c opens (quote_bar b) h = tt
    first_candle-IsProper c opens (quote q) h = tt
    first_candle-IsProper c opens (fundamental f) h = tt

    merge_candle-IsProper :
        (c : CandleStickConsolidator D) (item : BaseData D) (current : Candle D)
        → ItemIsProper item
        → IsProper current
        → Always IsProper (merge_candle c item current)
    unfolding merge_candle
    merge_candle-IsProper c (tick t) current h (a, b, _, _) =
        >>=-Always_any IsProper (rounded c (max current.high t.price ⊖ min current.low t.price)) _
          λ range. add_side-IsProper t _ (
            min-le current.open_price current.low t.price a,
            le-max current.open_price current.high t.price b,
            new-min current.low t.price,
            new-max current.high t.price,
          )
    merge_candle-IsProper c (candle other) current (_, _, low_close, close_high) (a, b, _, _) =
        >>=-Always_any IsProper
          (rounded c (max current.high other.high ⊖ min current.low other.low)) _
          λ range. (
            min-le current.open_price current.low other.low a,
            le-max current.open_price current.high other.high b,
            below-min other.close current.low other.low low_close,
            above-max other.close current.high other.high close_high,
          )
    merge_candle-IsProper c (quote_bar b) current h k = tt
    merge_candle-IsProper c (quote q) current h k = tt
    merge_candle-IsProper c (fundamental f) current h k = tt

    set_is_closed-IsProper :
        (closed : Bool) (b : BaseData D) → ItemIsProper b → ItemIsProper (set_is_closed closed b)
    unfolding set_is_closed
    set_is_closed-IsProper closed (candle c) h = h
    set_is_closed-IsProper closed (quote_bar b) h = tt
    set_is_closed-IsProper closed (tick t) h = tt
    set_is_closed-IsProper closed (quote q) h = tt
    set_is_closed-IsProper closed (fundamental f) h = tt

    start_candle-IsProper :
        (epoch : Time) (c : CandleStickConsolidator D) (item : BaseData D)
        → ItemIsProper item
        → Always (λ r. IsProper r.0) (start_candle epoch c item)
    unfolding start_candle
    start_candle-IsProper epoch c item h =
        >>=-Always_any (λ r. IsProper r.0) (next_open epoch c (time_utc item)) _
          λ opens.
            >>=-Always IsProper (λ r. IsProper r.0) (first_candle c opens item) _
              (first_candle-IsProper c opens item h) λ first k. k

    merge_into-GivesProper :
        (c : CandleStickConsolidator D) (item current : BaseData D)
        → ItemIsProper item
        → ItemIsProper current
        → Always GivesProper (merge_into_candle c item current)
    unfolding merge_into_candle
    merge_into-GivesProper c item (candle current) h k =
        >>=-Always IsProper GivesProper (merge_candle c item current) _
          (merge_candle-IsProper c item current h k) λ merged p. (p, tt, p)
    merge_into-GivesProper c item (quote_bar b) h k = tt
    merge_into-GivesProper c item (tick t) h k = tt
    merge_into-GivesProper c item (quote q) h k = tt
    merge_into-GivesProper c item (fundamental f) h k = tt

    meet-GivesProper :
        (epoch : Time) (c : CandleStickConsolidator D) (item current : BaseData D)
        → c.current_data ≡ some current
        → ItemIsProper item
        → ItemIsProper current
        → Always GivesProper (meet_candle epoch c item current)
    unfolding meet_candle roll_candle
    meet-GivesProper epoch c item current held h k =
        if-Always GivesProper (ltb (time_closed_utc item) (time_utc current)) _ _ (k, tt, rw held k)
          (if-Always GivesProper (leb (time_closed_utc current) (time_utc item)) _ _
            (>>=-Always (λ r. IsProper r.0) GivesProper
              (start_candle epoch (keep_close current c) item) _
              (start_candle-IsProper epoch (keep_close current c) item h)
              λ r p. (p, set_is_closed-IsProper true current k, p))
            (merge_into-GivesProper c item current h k))

    pub update-GivesProper :
        (epoch : Time) (c : CandleStickConsolidator D) (item : BaseData D)
        → ItemIsProper item
        → IfAnyIsProper c.current_data
        → Always GivesProper (update_candles epoch c item)
    unfolding update_candles
    update-GivesProper epoch c item h k = elim (Option-cases c.current_data) [
      | inl absent ↦
          rw (update_candles, absent)
            (>>=-Always (λ r. IsProper r.0) GivesProper (start_candle epoch c item) _
              (start_candle-IsProper epoch c item h) λ r p. (p, tt, p))
      | inr (current, held) ↦
          rw (update_candles, held) (meet-GivesProper epoch c item current held h (rw held at k))
    ]
