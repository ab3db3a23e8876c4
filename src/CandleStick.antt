-- ===== src/CandleStick.antt =====
-- The consolidator of ticks, quotes and bars into bars of a length of time
-- (ff_standard_lib/src/strategies/consolidators/candlesticks.rs). `none` is a panic.
pub mod Quotes
pub mod Forward
pub mod Proper
pub mod Session
pub mod Tests
use fund_forge.Base.{ℕ, suc, ◌+◌, Bool, true, false, Option, none, some}
use fund_forge.Base.Tests.{◌>>=◌, if◌then◌else◌, ltb, leb, nat_beq}
use fund_forge.Decimal.{Decimal, ◌⊕◌, ◌⊖◌, ◌≺◌, max, min}
use fund_forge.Market.{Time, Symbol, MarketType}
use fund_forge.BaseData.{
  Candle, QuoteBar, Tick, Quote, Aggressor, BaseData, candle, quote_bar, tick, quote, fundamental,
  Resolution, CandleType, BaseDataType, DataSubscription, new_candle,
}
use fund_forge.BaseData.Times.{
  as_duration, time_utc, time_closed_utc, set_is_closed, new_quotebar, open_time,
}
use fund_forge.Consolidator.{
  ConsolidatedData, ConsolidatorError, invalid_resolution, invalid_base_data_type, Created, created,
  refused, round_price,
}

pub record CandleStickConsolidator (D : Type 0) : Type 0 where
  pub current_data : Option (BaseData D)
  pub subscription : DataSubscription
  pub decimal_accuracy : ℕ
  pub tick_size : D
  pub last_close : Option D
  pub last_ask_close : Option D
  pub last_bid_close : Option D
  pub fill_forward : Bool
  pub market_type : MarketType
  pub last_bar_open : Time

module _ {D : Type 0} ⦃d : Decimal D⦄ where
  unfoldable pub new_candlestick :
      DataSubscription
      → (fill_forward : Bool) → (decimal_accuracy : ℕ) → (tick_size : D)
      → Created (CandleStickConsolidator D)
  new_candlestick subscription forward accuracy tick_size =
      let made = created (record {
        current_data = none;
        subscription = subscription;
        decimal_accuracy = accuracy;
        tick_size = tick_size;
        last_close = none;
        last_ask_close = none;
        last_bid_close = none;
        fill_forward = forward;
        market_type = subscription.symbol.market_type;
        last_bar_open = 0;
      }) in
      elim subscription.base_data_type [
        | BaseDataType.fundamentals ↦ refused invalid_base_data_type
        | _ ↦ elim subscription.resolution [
          | Resolution.ticks _ ↦ refused invalid_resolution
          | _ ↦ made
        ]
      ]

  unfoldable pub rounded : CandleStickConsolidator D → (value : D) → Option D
  unfolding round_price
  rounded c value = round_price c.market_type value c.tick_size c.decimal_accuracy

  -- When the next bar opens: a bar later than the last one, if that opened at the same time.
  unfoldable pub next_open : (epoch : Time) → CandleStickConsolidator D → Time → Option Time
  unfolding open_time as_duration
  next_open epoch c time = open_time epoch c.subscription.resolution time >>= λ opens. some (
      if nat_beq opens c.last_bar_open
      then opens + as_duration c.subscription.resolution
      else opens)

  -- The ask and the bid volume of a tick.
  unfoldable pub sides : Tick D → D × D
  sides t = elim t.aggressor [
    | Aggressor.buy ↦ (d.dec 0, t.volume)
    | Aggressor.sell ↦ (t.volume, d.dec 0)
    | Aggressor.nobody ↦ (d.dec 0, d.dec 0)
  ]

  -- The first candle of an item that opens at a time.
  unfoldable pub first_candle : CandleStickConsolidator D → Time → BaseData D → Option (Candle D)
  unfolding new_candle sides
  first_candle c opens (tick t) = do
    candle_type ← c.subscription.candle_type
    some (
        new_candle c.subscription.symbol t.price t.volume (sides t).0 (sides t).1 opens
          c.subscription.resolution candle_type)
  first_candle c opens (candle other) =
      some
        (record other { is_closed = false; resolution = c.subscription.resolution; time = opens })
  first_candle c opens _ = none

  unfoldable pub start_candle :
      (epoch : Time)
      → CandleStickConsolidator D
      → BaseData D
      → Option (Candle D × CandleStickConsolidator D)
  unfolding next_open first_candle
  start_candle epoch c item = do
    opens ← next_open epoch c (time_utc item)
    first ← first_candle c opens item
    some (first, record c { last_bar_open = opens })

  -- The volume of a tick by its aggressor.
  unfoldable pub add_side : Tick D → Candle D → Candle D
  add_side t current = elim t.aggressor [
    | Aggressor.buy ↦ record current { bid_volume = current.bid_volume ⊕ t.volume }
    | Aggressor.sell ↦ record current { ask_volume = current.ask_volume ⊕ t.volume }
    | Aggressor.nobody ↦ current
  ]

  -- An item that falls into the current candle.
  unfoldable pub merge_candle :
      CandleStickConsolidator D → BaseData D → Candle D → Option (Candle D)
  unfolding rounded add_side
  merge_candle c (tick t) current =
      let high = max current.high t.price in
      let low = min current.low t.price in
      rounded c (high ⊖ low) >>= λ range. some (
        add_side t (record current {
          high = high;
          low = low;
          close = t.price;
          range = range;
          volume = current.volume ⊕ t.volume;
        }))
  merge_candle c (candle other) current =
      let high = max current.high other.high in
      let low = min current.low other.low in
      rounded c (high ⊖ low) >>= λ range. some (record current {
        high = high;
        low = low;
        close = other.close;
        range = range;
        volume = current.volume ⊕ other.volume;
        ask_volume = current.ask_volume ⊕ other.ask_volume;
        bid_volume = current.bid_volume ⊕ other.bid_volume;
      })
  merge_candle c _ current = none

  -- The current bar is closed by an item, which opens the next candle.
  unfoldable pub keep_close : BaseData D → CandleStickConsolidator D → CandleStickConsolidator D
  keep_close (candle closed) c = record c { last_close = some closed.close }
  keep_close _ c = c

  unfoldable pub roll_candle :
      (epoch : Time)
      → CandleStickConsolidator D
      → BaseData D
      → BaseData D
      → Option (ConsolidatedData D × CandleStickConsolidator D)
  unfolding start_candle keep_close
  roll_candle epoch c item current = do
    (next, after) ← start_candle epoch (keep_close current c) item
    some (
      record { open_data = candle next; closed_data = some (set_is_closed true current) },
      record after { current_data = some (candle next) },
    )

  unfoldable pub merge_into_candle :
      CandleStickConsolidator D
      → BaseData D
      → BaseData D
      → Option (ConsolidatedData D × CandleStickConsolidator D)
  unfolding merge_candle
  merge_into_candle c item (candle current) = do
    merged ← merge_candle c item current
    some (
      record { open_data = candle merged; closed_data = none },
      record c { current_data = some (candle merged) },
    )
  merge_into_candle c item _ = none

  -- An item when there is a current bar: it is too old, or closes the bar, or falls into it.
  unfoldable pub meet_candle :
      (epoch : Time)
      → CandleStickConsolidator D
      → BaseData D
      → BaseData D
      → Option (ConsolidatedData D × CandleStickConsolidator D)
  unfolding roll_candle merge_into_candle
  meet_candle epoch c item current =
      let rolled = roll_candle epoch c item current in
      let merged = merge_into_candle c item current in
      if ltb (time_closed_utc item) (time_utc current)
      then some (record { open_data = current; closed_data = none }, c)
      else if leb (time_closed_utc current) (time_utc item)
      then rolled
      else merged

  unfoldable pub update_candles :
      (epoch : Time)
      → CandleStickConsolidator D
      → BaseData D
      → Option (ConsolidatedData D × CandleStickConsolidator D)
  unfolding start_candle meet_candle
  update_candles epoch c item = elim c.current_data [
    | none ↦ do
      (first, after) ← start_candle epoch c item
      some (
        record { open_data = candle first; closed_data = none },
        record after { current_data = some (candle first) },
      )
    | some current ↦ meet_candle epoch c item current
  ]
