-- ===== src/CandleStick/Forward.antt =====
-- The bars that the consolidator fills forward when no data comes
-- (ff_standard_lib/src/strategies/consolidators/candlesticks.rs). `none` is a panic.
use fund_forge.Base.{true, Option, none, some}
use fund_forge.Base.Tests.{◌>>=◌, if◌then◌else◌, ltb, leb}
use fund_forge.Decimal.{Decimal, ◌⊖◌}
use fund_forge.Market.{Time}
use fund_forge.BaseData.{BaseData, candle, quote_bar, CandleType, BaseDataType, new_candle}
use fund_forge.BaseData.Times.{time_utc, time_closed_utc, set_is_closed, new_quotebar, open_time}
use fund_forge.CandleStick.{CandleStickConsolidator, rounded, next_open}

module _ {D : Type 0} ⦃d : Decimal D⦄ where
  -- A bar at the last closes, or none without them.
  unfoldable pub forward_quotes :
      (epoch : Time) → CandleStickConsolidator D → Time → Option (CandleStickConsolidator D)
  unfolding new_quotebar
  forward_quotes epoch c time = elim c.last_bid_close [
    | none ↦ some c
    | some bid ↦ elim c.last_ask_close [
      | none ↦ some c
      | some ask ↦ do
        opens ← next_open epoch c time
        spread ← rounded c (ask ⊖ bid)
        shown ← open_time epoch c.subscription.resolution opens
        let bar =
            new_quotebar c.subscription.symbol bid ask (d.dec 0) (d.dec 0) (d.dec 0) shown
              c.subscription.resolution CandleType.candle_stick
        some (record c {
          current_data = some (quote_bar (record bar { spread = spread }));
          last_bar_open = opens;
        })
    ]
  ]

  unfoldable pub forward_candle :
      (epoch : Time) → CandleStickConsolidator D → Time → Option (CandleStickConsolidator D)
  unfolding new_candle
  forward_candle epoch c time = elim c.last_close [
    | none ↦ some c
    | some close ↦ do
      opens ← next_open epoch c time
      shown ← open_time epoch c.subscription.resolution opens
      some (record c {
        current_data = some (
            candle (
              new_candle c.subscription.symbol close (d.dec 0) (d.dec 0) (d.dec 0) shown
                c.subscription.resolution CandleType.candle_stick));
        last_bar_open = opens;
      })
  ]

  unfoldable pub forward_type :
      BaseDataType
      → (epoch : Time) → CandleStickConsolidator D
      → Time
      → Option (CandleStickConsolidator D)
  unfolding forward_quotes forward_candle
  forward_type BaseDataType.quote_bars epoch c time = forward_quotes epoch c time
  forward_type BaseDataType.candles epoch c time = forward_candle epoch c time
  forward_type _ epoch c time = some c

  unfoldable pub forward_bar :
      (epoch : Time) → CandleStickConsolidator D → Time → Option (CandleStickConsolidator D)
  unfolding forward_type
  forward_bar epoch c time =
      let forwarded = forward_type c.subscription.base_data_type epoch c time in
      if c.fill_forward then forwarded else some c

  -- `update_time`, with the bar that the time closes, if there is one.
  unfoldable pub update_time :
      (epoch : Time)
      → CandleStickConsolidator D
      → Time
      → Option (Option (BaseData D) × CandleStickConsolidator D)
  unfolding forward_bar
  update_time epoch c time = elim c.current_data [
    | none ↦ do after ← forward_bar epoch c time; some (none, after)
    | some current ↦
        let closing = forward_bar epoch (record c { current_data = none }) time >>= λ after.
        some (some (set_is_closed true current), after) in
        if ltb time (time_utc current)
        then some (none, c)
        else if leb (time_closed_utc current) time
        then closing
        else some (none, c)
  ]
