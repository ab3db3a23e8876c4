-- ===== src/Consolidator.antt =====
-- The consolidator of a number of ticks into a candle
-- (ff_standard_lib/src/strategies/consolidators/count.rs). `none` is a panic.
pub mod Candles
pub mod Tests
use fund_forge.Base.{ℕ, zero, suc, Bool, true, false, Option, none, some}
use fund_forge.Base.Tests.{◌>>=◌, if◌then◌else◌, nat_beq}
use fund_forge.Decimal.{Decimal, ◌⊕◌, ◌⊖◌, ◌≺◌, max, min}
use fund_forge.Market.{Time, Symbol, MarketType}
use fund_forge.BaseData.{
  Candle, Tick, BaseData, candle, quote_bar, tick, quote, fundamental, Resolution, CandleType,
  BaseDataType, DataSubscription, new_candle,
}
use fund_forge.Pnl.{round_to_tick_size}

-- The errors of the constructor, without their texts.
pub data ConsolidatorError : Type 0 where
  invalid_resolution invalid_base_data_type : ConsolidatorError

pub data Created (A : Type 0) : Type 0 where
  created : A → Created A
  refused : ConsolidatorError → Created A

pub record ConsolidatedData (D : Type 0) : Type 0 where
  pub open_data : BaseData D
  pub closed_data : Option (BaseData D)

pub record CountConsolidator (D : Type 0) : Type 0 where
  pub number : ℕ
  pub counter : ℕ
  pub current_data : Candle D
  pub subscription : DataSubscription
  pub decimal_accuracy : ℕ
  pub tick_size : D
  pub market_type : MarketType

module _ {D : Type 0} ⦃d : Decimal D⦄ where
  -- `MarketType::round_price`
  unfoldable pub round_price :
      MarketType → (value tick_size : D) → (decimal_accuracy : ℕ) → Option D
  round_price (MarketType.futures _) value tick_size accuracy = round_to_tick_size value tick_size
  round_price _ value tick_size accuracy = some (d.round_dp accuracy value)

  -- An empty candle of a subscription to ticks; another type of data, or no type of candle, is a
  -- panic.
  unfoldable pub empty_candle : DataSubscription → Time → (number : ℕ) → Option (Candle D)
  unfolding new_candle
  empty_candle subscription time number = elim subscription.base_data_type [
    | BaseDataType.ticks ↦ do
      candle_type ← subscription.candle_type
      some (
          new_candle subscription.symbol (d.dec 0) (d.dec 0) (d.dec 0) (d.dec 0) time
            (Resolution.ticks number) candle_type)
    | _ ↦ none
  ]

  -- The constructor; the time of its first candle is empty.
  unfoldable pub new_consolidator :
      (empty_time : Time)
      → DataSubscription
      → (decimal_accuracy : ℕ) → (tick_size : D) → Option (Created (CountConsolidator D))
  unfolding empty_candle
  new_consolidator empty_time subscription accuracy tick_size = elim subscription.resolution [
    | Resolution.ticks number ↦ elim subscription.base_data_type [
      | BaseDataType.ticks ↦ do
        current ← empty_candle subscription empty_time number
        some (
            created (record {
              number = number;
              counter = 0;
              current_data = current;
              subscription = subscription;
              decimal_accuracy = accuracy;
              tick_size = tick_size;
              market_type = subscription.symbol.market_type;
            }))
      | _ ↦ some (refused invalid_base_data_type)
    ]
    | _ ↦ some (refused invalid_resolution)
  ]

  -- The first tick of a candle.
  unfoldable pub first_tick : Tick D → Candle D → Candle D
  first_tick t current = record current {
    symbol = t.symbol;
    time = t.time;
    open_price = t.price;
    volume = t.volume;
    high = t.price;
    low = t.price;
  }

  unfoldable pub every_tick : CountConsolidator D → Tick D → Candle D → Option (Candle D)
  unfolding round_price
  every_tick c t current =
      let high = max current.high t.price in
      let low = min current.low t.price in
      round_price c.market_type (high ⊖ low) c.tick_size c.decimal_accuracy >>= λ range.
      some (record current {
        high = high;
        low = low;
        range = range;
        close = t.price;
        volume = current.volume ⊕ t.volume;
      })

  -- The candle is given out, closed, when it has its number of ticks.
  unfoldable pub give_out :
      CountConsolidator D → Tick D → Candle D → Option (ConsolidatedData D × CountConsolidator D)
  unfolding empty_candle
  give_out c t current =
      let counted = suc c.counter in
      let closing = empty_candle c.subscription t.time c.number >>= λ next. some (
        record {
          open_data = candle next;
          closed_data = some (candle (record current { is_closed = true }));
        },
        record c { counter = 0; current_data = next },
      ) in
      if nat_beq counted c.number
      then closing
      else some (
        record { open_data = candle current; closed_data = none },
        record c { counter = counted; current_data = current },
      )

  unfoldable pub update_tick :
      CountConsolidator D → Tick D → Option (ConsolidatedData D × CountConsolidator D)
  unfolding first_tick every_tick give_out
  update_tick c t = do
    current ←
        every_tick c t (if nat_beq c.counter 0 then first_tick t c.current_data else c.current_data)
    give_out c t current

  -- Data other than ticks is a panic.
  unfoldable pub update_count :
      CountConsolidator D → BaseData D → Option (ConsolidatedData D × CountConsolidator D)
  unfolding update_tick
  update_count c (tick t) = update_tick c t
  update_count c _ = none
