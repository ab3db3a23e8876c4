-- ===== src/CandleStick/Quotes.antt =====
-- The quote bars of the consolidator, the bars that it fills forward, and its dispatch
-- (ff_standard_lib/src/strategies/consolidators/candlesticks.rs). `none` is a panic.
use fund_forge.Base.{true, false, Option, none, some}
use fund_forge.Base.Tests.{◌>>=◌, if◌then◌else◌, ltb, leb}
use fund_forge.Decimal.{Decimal, ◌⊕◌, ◌⊖◌, max, min}
use fund_forge.Market.{Time}
use fund_forge.BaseData.{
  QuoteBar, BaseData, candle, quote_bar, tick, quote, fundamental, CandleType,
}
use fund_forge.BaseData.Times.{time_utc, time_closed_utc, set_is_closed, new_quotebar}
use fund_forge.Consolidator.{ConsolidatedData}
use fund_forge.CandleStick.{CandleStickConsolidator, rounded, next_open, update_candles}

module _ {D : Type 0} ⦃d : Decimal D⦄ where
  -- The first bar of an item; the volume of a quote is twice the bid volume.
  unfoldable pub first_bar : CandleStickConsolidator D → Time → BaseData D → Option (QuoteBar D)
  unfolding new_quotebar
  first_bar c opens (quote_bar bar) =
      some (record bar { is_closed = false; time = opens; resolution = c.subscription.resolution })
  first_bar c opens (quote q) = some (
      new_quotebar c.subscription.symbol q.bid q.ask (q.bid_volume ⊕ q.bid_volume) q.ask_volume
        q.bid_volume opens c.subscription.resolution CandleType.candle_stick)
  first_bar c opens _ = none

  unfoldable pub start_bar :
      (epoch : Time)
      → CandleStickConsolidator D
      → BaseData D
      → Option (QuoteBar D × CandleStickConsolidator D)
  unfolding first_bar
  start_bar epoch c item = do
    opens ← next_open epoch c (time_utc item)
    first ← first_bar c opens item
    some (first, record c { last_bar_open = opens })

  -- The range and the spread of a bar, rounded.
  unfoldable pub measure : CandleStickConsolidator D → QuoteBar D → Option (QuoteBar D)
  measure c bar = do
    range ← rounded c (bar.ask_high ⊖ bar.bid_low)
    spread ← rounded c (bar.ask_close ⊖ bar.bid_close)
    some (record bar { range = range; spread = spread })

  -- An item that falls into the current bar. The low of the bid is that of the latest bar.
  unfoldable pub merge_bar :
      CandleStickConsolidator D → BaseData D → QuoteBar D → Option (QuoteBar D)
  unfolding measure
  merge_bar c (quote q) current = measure c (record current {
    ask_high = max current.ask_high q.ask;
    ask_low = min current.ask_low q.ask;
    bid_high = max current.bid_high q.bid;
    bid_low = min current.bid_low q.bid;
    ask_close = q.ask;
    bid_close = q.bid;
    volume = current.volume ⊕ (q.ask_volume ⊕ q.bid_volume);
    bid_volume = current.bid_volume ⊕ q.bid_volume;
    ask_volume = current.ask_volume ⊕ q.ask_volume;
  })
  merge_bar c (quote_bar bar) current = measure c (record current {
    ask_high = max current.ask_high bar.ask_high;
    ask_low = min current.ask_low bar.ask_low;
    bid_high = max current.bid_high bar.bid_high;
    bid_low = min bar.bid_low bar.bid_low;
    ask_close = bar.ask_close;
    bid_close = bar.bid_close;
    volume = current.volume ⊕ bar.volume;
    bid_volume = current.bid_volume ⊕ bar.bid_volume;
    ask_volume = current.ask_volume ⊕ bar.ask_volume;
  })
  merge_bar c _ current = none

  unfoldable pub keep_closes : BaseData D → CandleStickConsolidator D → CandleStickConsolidator D
  keep_closes (quote_bar closed) c = record c {
    last_ask_close = some closed.ask_close;
    last_bid_close = some closed.bid_close;
  }
  keep_closes _ c = c

  unfoldable pub roll_bar :
      (epoch : Time)
      → CandleStickConsolidator D
      → BaseData D
      → BaseData D
      → Option (ConsolidatedData D × CandleStickConsolidator D)
  unfolding start_bar keep_closes
  roll_bar epoch c item current = do
    (next, after) ← start_bar epoch c item
    some (
      record { open_data = quote_bar next; closed_data = some (set_is_closed true current) },
      record (keep_closes current after) { current_data = some (quote_bar next) },
    )

  unfoldable pub merge_into_bar :
      CandleStickConsolidator D
      → BaseData D
      → BaseData D
      → Option (ConsolidatedData D × CandleStickConsolidator D)
  unfolding merge_bar
  merge_into_bar c item (quote_bar current) = do
    merged ← merge_bar c item current
    some (
      record { open_data = quote_bar merged; closed_data = none },
      record c { current_data = some (quote_bar merged) },
    )
  merge_into_bar c item _ = none

  unfoldable pub meet_bar :
      (epoch : Time)
      → CandleStickConsolidator D
      → BaseData D
      → BaseData D
      → Option (ConsolidatedData D × CandleStickConsolidator D)
  unfolding roll_bar merge_into_bar
  meet_bar epoch c item current =
      let rolled = roll_bar epoch c item current in
      let merged = merge_into_bar c item current in
      if ltb (time_utc item) (time_utc current)
      then some (record { open_data = current; closed_data = none }, c)
      else if leb (time_closed_utc current) (time_utc item)
      then rolled
      else merged

  unfoldable pub update_quote_bars :
      (epoch : Time)
      → CandleStickConsolidator D
      → BaseData D
      → Option (ConsolidatedData D × CandleStickConsolidator D)
  unfolding start_bar meet_bar
  update_quote_bars epoch c item = elim c.current_data [
    | none ↦ do
      (first, after) ← start_bar epoch c item
      some (
        record { open_data = quote_bar first; closed_data = none },
        record after { current_data = some (quote_bar first) },
      )
    | some current ↦ meet_bar epoch c item current
  ]

  -- `CandleStickConsolidator::update`
  unfoldable pub update_bars :
      (epoch : Time)
      → CandleStickConsolidator D
      → BaseData D
      → Option (ConsolidatedData D × CandleStickConsolidator D)
  unfolding update_quote_bars
  update_bars epoch c (tick t) = update_candles epoch c (tick t)
  update_bars epoch c (candle other) = update_candles epoch c (candle other)
  update_bars epoch c (quote q) = update_quote_bars epoch c (quote q)
  update_bars epoch c (quote_bar bar) = update_quote_bars epoch c (quote_bar bar)
  update_bars epoch c (fundamental f) = none
