-- ===== src/Position/Types.antt =====
-- The data of a position (ff_standard_lib/src/standardized_types/position.rs).
use fund_forge.Base.{Bool, false, Option, none, List, [], ◌∷◌, String}
use fund_forge.Decimal.{Decimal}
use fund_forge.Market.{
  Time, SymbolName, SymbolCode, OrderId, PositionId, Account, PositionSide, SymbolInfo,
}

pub data PositionCalculationMode : Type 0 where
  fifo lifo : PositionCalculationMode

pub record EntryPrice (D : Type 0) : Type 0 where
  pub volume : D
  pub price : D
  pub order_id : OrderId

pub data TradeResult : Type 0 where
  win loss break_even : TradeResult

pub record Trade (D : Type 0) : Type 0 where
  pub entry_price : D
  pub entry_order_id : OrderId
  pub entry_quantity : D
  pub exit_price : D
  pub exit_order_id : OrderId
  pub exit_quantity : D
  pub entry_time : Time
  pub exit_time : Time
  pub profit : D
  pub result : TradeResult
  pub commissions : D

pub record Position (D : Type 0) : Type 0 where
  pub symbol_name : SymbolName
  pub symbol_code : SymbolCode
  pub account : Account
  pub side : PositionSide
  pub open_time : Time
  pub quantity_open : D
  pub quantity_closed : D
  pub close_time : Option Time
  pub average_price : D
  pub open_pnl : D
  pub booked_pnl : D
  pub highest_recoded_price : D
  pub lowest_recoded_price : D
  pub exchange_rate_multiplier : D
  pub average_exit_price : Option D
  pub is_closed : Bool
  pub position_id : PositionId
  pub symbol_info : SymbolInfo D
  pub tag : String
  pub position_calculation_mode : PositionCalculationMode
  pub open_entry_prices : List (EntryPrice D)
  pub completed_trades : List (Trade D)

-- What an event says of its position.
pub record Origin : Type 0 where
  pub position_id : PositionId
  pub side : PositionSide
  pub symbol_name : SymbolName
  pub symbol_code : SymbolCode
  pub account : Account
  pub originating_order_tag : String
  pub time : Time

pub data PositionUpdateEvent (D : Type 0) : Type 0 where
  position_opened : Origin → (average_price : D) → PositionUpdateEvent D
  increased :
      Origin → (total_quantity_open average_price open_pnl booked_pnl : D) → PositionUpdateEvent D
  position_reduced :
      Origin
      → (total_quantity_open total_quantity_closed average_price open_pnl booked_pnl : D)
      → (average_exit_price : D) → PositionUpdateEvent D
  position_closed :
      Origin
      → (total_quantity_open total_quantity_closed average_price booked_pnl : D)
      → (average_exit_price : D) → PositionUpdateEvent D

module _ {D : Type 0} ⦃d : Decimal D⦄ where
  -- `Position::new`
  unfoldable pub new :
      SymbolName
      → SymbolCode
      → OrderId
      → Account
      → PositionSide
      → (quantity average_price : D) → PositionId
      → SymbolInfo D
      → (exchange_rate_multiplier : D) → String
      → Time
      → PositionCalculationMode
      → Position D
  new name code entry_order_id account side quantity average_price id info rate tag time mode =
      record {
        symbol_name = name;
        symbol_code = code;
        account = account;
        side = side;
        open_time = time;
        quantity_open = quantity;
        quantity_closed = d.dec 0;
        close_time = none;
        average_price = average_price;
        open_pnl = d.dec 0;
        booked_pnl = d.dec 0;
        highest_recoded_price = average_price;
        lowest_recoded_price = average_price;
        exchange_rate_multiplier = rate;
        average_exit_price = none;
        is_closed = false;
        position_id = id;
        symbol_info = info;
        tag = tag;
        position_calculation_mode = mode;
        open_entry_prices =
            record { volume = quantity; price = average_price; order_id = entry_order_id } ∷ [];
        completed_trades = [];
      }

  -- The part of an event that is copied from the position.
  unfoldable pub origin : Position D → String → Time → Origin
  origin p tag time = record {
    position_id = p.position_id;
    side = p.side;
    symbol_name = p.symbol_name;
    symbol_code = p.symbol_code;
    account = p.account;
    originating_order_tag = tag;
    time = time;
  }
