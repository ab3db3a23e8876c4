-- ===== src/BaseData.antt =====
-- The market data that drives the engine (ff_standard_lib/src/standardized_types/base_data and
-- time_slices.rs, subscriptions.rs, resolution.rs).
pub mod Times
use fund_forge.Base.{ℕ, Bool, true, false, Option, List, String}
use fund_forge.Base.Tests.{if◌then◌else◌}
use fund_forge.Base.Dict.{Dict}
use fund_forge.Decimal.{Decimal, ◌⊖◌}
use fund_forge.Market.{Time, Symbol, MarketType}

pub data Resolution : Type 0 where
  instant : Resolution
  ticks seconds minutes hours : ℕ → Resolution
  day : Resolution

pub data CandleType : Type 0 where
  heikin_ashi candle_stick : CandleType

pub data Aggressor : Type 0 where
  buy sell nobody : Aggressor

pub record Candle (D : Type 0) : Type 0 where
  pub symbol : Symbol
  pub high : D
  pub low : D
  pub open_price : D
  pub close : D
  pub volume : D
  pub ask_volume : D
  pub bid_volume : D
  pub range : D
  pub time : Time
  pub is_closed : Bool
  pub resolution : Resolution
  pub candle_type : CandleType

pub record QuoteBar (D : Type 0) : Type 0 where
  pub symbol : Symbol
  pub bid_high : D
  pub bid_low : D
  pub bid_open : D
  pub bid_close : D
  pub ask_high : D
  pub ask_low : D
  pub ask_open : D
  pub ask_close : D
  pub volume : D
  pub ask_volume : D
  pub bid_volume : D
  pub range : D
  pub time : Time
  pub spread : D
  pub is_closed : Bool
  pub resolution : Resolution
  pub candle_type : CandleType

pub record Tick (D : Type 0) : Type 0 where
  pub symbol : Symbol
  pub price : D
  pub time : Time
  pub volume : D
  pub aggressor : Aggressor

pub record Quote (D : Type 0) : Type 0 where
  pub symbol : Symbol
  pub ask : D
  pub bid : D
  pub ask_volume : D
  pub bid_volume : D
  pub time : Time

pub record Fundamental (D : Type 0) : Type 0 where
  pub symbol : Symbol
  pub time : Time
  pub resolution : Resolution
  pub values : Dict String D
  pub value_string : Option String
  pub value_bytes : Option (List ℕ)
  pub name : String

-- `BaseDataEnum`
pub data BaseData (D : Type 0) : Type 0 where
  candle : Candle D → BaseData D
  quote_bar : QuoteBar D → BaseData D
  tick : Tick D → BaseData D
  quote : Quote D → BaseData D
  fundamental : Fundamental D → BaseData D

module _ {D : Type 0} where
  -- `BaseDataEnum::symbol`
  unfoldable pub symbol : BaseData D → Symbol
  symbol (candle c) = c.symbol
  symbol (quote_bar b) = b.symbol
  symbol (tick t) = t.symbol
  symbol (quote q) = q.symbol
  symbol (fundamental f) = f.symbol

  -- `BaseDataEnum::is_closed`
  unfoldable pub is_closed : BaseData D → Bool
  is_closed (candle c) = c.is_closed
  is_closed (quote_bar b) = b.is_closed
  is_closed _ = true

-- The items of a slice of time in the order in which `TimeSlice::iter` yields them.
abbrev pub TimeSlice : Type 0 → Type 0
TimeSlice D = List (BaseData D)

pub data BaseDataType : Type 0 where
  ticks quotes quote_bars candles fundamentals : BaseDataType

pub record DataSubscription : Type 0 where
  pub symbol : Symbol
  pub resolution : Resolution
  pub base_data_type : BaseDataType
  pub market_type : MarketType
  pub candle_type : Option CandleType

module _ {D : Type 0} ⦃d : Decimal D⦄ where
  -- `Candle::new`
  unfoldable pub new_candle :
      Symbol
      → (first_price volume ask_volume bid_volume : D) → Time
      → Resolution
      → CandleType
      → Candle D
  new_candle symbol first_price volume ask_volume bid_volume time resolution candle_type = record {
    symbol = symbol;
    high = first_price;
    low = first_price;
    open_price = first_price;
    close = first_price;
    volume = volume;
    ask_volume = ask_volume;
    bid_volume = bid_volume;
    range = d.dec 0;
    time = time;
    is_closed = false;
    resolution = resolution;
    candle_type = candle_type;
  }

  -- `Candle::from_quotebar`
  unfoldable pub from_quotebar : QuoteBar D → (bid : Bool) → Candle D
  from_quotebar b bid =
      let high = if bid then b.bid_high else b.ask_high in
      let low = if bid then b.bid_low else b.ask_low in
      record {
        symbol = b.symbol;
        high = high;
        low = low;
        open_price = if bid then b.bid_open else b.ask_open;
        close = if bid then b.bid_close else b.ask_close;
        volume = b.volume;
        ask_volume = b.ask_volume;
        bid_volume = b.bid_volume;
        range = high ⊖ low;
        time = b.time;
        is_closed = b.is_closed;
        resolution = b.resolution;
        candle_type = CandleType.candle_stick;
      }
