-- ===== src/Orders/New.antt =====
-- The constructors of an order (ff_standard_lib/src/standardized_types/orders.rs).
use fund_forge.Base.{Option, none, some, String}
use fund_forge.Decimal.{Decimal}
use fund_forge.Market.{Time, SymbolName, SymbolCode, OrderId, Account, OrderSide, buy, sell}
use fund_forge.Orders.{TimeInForce, OrderType, OrderState, Order}

-- What every constructor of an order takes.
pub record Ticket (D : Type 0) : Type 0 where
  pub symbol_name : SymbolName
  pub symbol_code : Option SymbolCode
  pub account : Account
  pub quantity : D
  pub tag : String
  pub order_id : OrderId
  pub time : Time
  pub exchange : Option String

module _ {D : Type 0} ⦃d : Decimal D⦄ where
  -- The record literal that the nine constructors share.
  unfoldable pub new_order :
      Ticket D → OrderSide → OrderType → TimeInForce → (limit_at trigger_at : Option D) → Order D
  new_order t side order_type tif limit_at trigger_at = record {
    symbol_name = t.symbol_name;
    symbol_code = elim t.symbol_code [ some code ↦ code | none ↦ t.symbol_name ];
    account = t.account;
    quantity_open = t.quantity;
    quantity_filled = d.dec 0;
    average_fill_price = none;
    limit_price = limit_at;
    trigger_price = trigger_at;
    side = side;
    order_type = order_type;
    time_in_force = tif;
    tag = t.tag;
    id = t.order_id;
    time_created_utc = t.time;
    time_filled_utc = none;
    state = OrderState.created;
    fees = d.dec 0;
    value = d.dec 0;
    exchange = t.exchange;
  }

  unfoldable pub limit_order : Ticket D → OrderSide → (price : D) → TimeInForce → Order D
  unfolding new_order
  limit_order t side price tif = new_order t side OrderType.limit tif (some price) none

  unfoldable pub market_if_touched : Ticket D → OrderSide → (price : D) → TimeInForce → Order D
  unfolding new_order
  market_if_touched t side price tif =
      new_order t side OrderType.market_if_touched tif none (some price)

  unfoldable pub stop : Ticket D → OrderSide → (price : D) → TimeInForce → Order D
  unfolding new_order
  stop t side price tif = new_order t side OrderType.stop_market tif none (some price)

  unfoldable pub stop_limit :
      Ticket D → OrderSide → (limit_at trigger_at : D) → TimeInForce → Order D
  unfolding new_order
  stop_limit t side limit_at trigger_at tif =
      new_order t side OrderType.stop_limit tif (some limit_at) (some trigger_at)

  unfoldable pub market_order : Ticket D → OrderSide → Order D
  unfolding new_order
  market_order t side = new_order t side OrderType.market TimeInForce.fok none none

  unfoldable pub exit_long : Ticket D → Order D
  unfolding new_order
  exit_long t = new_order t sell OrderType.exit_long TimeInForce.fok none none

  unfoldable pub exit_short : Ticket D → Order D
  unfolding new_order
  exit_short t = new_order t buy OrderType.exit_short TimeInForce.fok none none

  unfoldable pub enter_long : Ticket D → Order D
  unfolding new_order
  enter_long t = new_order t buy OrderType.enter_long TimeInForce.fok none none

  unfoldable pub enter_short : Ticket D → Order D
  unfolding new_order
  enter_short t = new_order t sell OrderType.enter_short TimeInForce.fok none none
