-- ===== src/Orders.antt =====
-- Orders, order requests and order events (ff_standard_lib/src/standardized_types/orders.rs).
pub mod New
pub mod Events
use fund_forge.Base.{Bool, true, false, ◌&&◌, Option, none, some, String}
use fund_forge.Decimal.{Decimal}
use fund_forge.Market.{
  Time, SymbolName, SymbolCode, OrderId, Account, OrderSide, buy, sell, Brokerage,
}

pub data TimeInForce : Type 0 where
  gtc ioc fok day : TimeInForce
  -- Until a time, with `none` for a timestamp that chrono does not accept.
  until : Option Time → TimeInForce

pub data OrderType : Type 0 where
  limit market market_if_touched stop_market stop_limit : OrderType
  enter_long enter_short exit_long exit_short : OrderType

pub data OrderState : Type 0 where
  created accepted filled partially_filled cancelled : OrderState
  rejected : String → OrderState

pub record Order (D : Type 0) : Type 0 where
  pub symbol_name : SymbolName
  pub symbol_code : SymbolCode
  pub account : Account
  pub quantity_open : D
  pub quantity_filled : D
  pub average_fill_price : Option D
  pub limit_price : Option D
  pub trigger_price : Option D
  pub side : OrderSide
  pub order_type : OrderType
  pub time_in_force : TimeInForce
  pub tag : String
  pub id : OrderId
  pub time_created_utc : Time
  pub time_filled_utc : Option Time
  pub state : OrderState
  pub fees : D
  pub value : D
  pub exchange : Option String

pub data OrderUpdateType (D : Type 0) : Type 0 where
  limit_price trigger_price quantity : D → OrderUpdateType D

pub data OrderRequest (D : Type 0) : Type 0 where
  create : Account → Order D → OrderType → OrderRequest D
  cancel : Account → OrderId → OrderRequest D
  update : Account → OrderId → OrderUpdateType D → OrderRequest D
  cancel_all flatten_all_for : Account → OrderRequest D

pub data OrderUpdateEvent (D : Type 0) : Type 0 where
  order_accepted :
      Account → SymbolName → SymbolCode → OrderId → (tag : String) → Time → OrderUpdateEvent D
  order_filled order_partially_filled :
      Account
      → SymbolName
      → SymbolCode
      → OrderId
      → OrderSide
      → (price quantity : D) → (tag : String) → Time
      → OrderUpdateEvent D
  order_cancelled order_rejected :
      Account
      → SymbolName
      → SymbolCode
      → OrderId
      → (reason tag : String) → Time
      → OrderUpdateEvent D
  order_updated :
      Account
      → SymbolName
      → SymbolCode
      → OrderId
      → OrderUpdateType D
      → (text tag : String) → Time
      → OrderUpdateEvent D
  order_update_rejected : Account → OrderId → (reason : String) → Time → OrderUpdateEvent D

module _ {D : Type 0} where
  -- `OrderRequest::brokerage`
  unfoldable pub brokerage : OrderRequest D → Brokerage
  brokerage (create account _ _) = account.brokerage
  brokerage (cancel account _) = account.brokerage
  brokerage (update account _ _) = account.brokerage
  brokerage (cancel_all account) = account.brokerage
  brokerage (flatten_all_for account) = account.brokerage

is_working : OrderState → Bool
is_working OrderState.created = true
is_working OrderState.accepted = true
is_working OrderState.partially_filled = true
is_working _ = false

rests_on_book : OrderType → Bool
rests_on_book OrderType.limit = true
rests_on_book OrderType.stop_limit = true
rests_on_book OrderType.stop_market = true
rests_on_book OrderType.market_if_touched = true
rests_on_book _ = false

-- `Order::can_cancel`, which asks for the state and for the type of the order.
unfoldable pub can_cancel : {D : Type 0} → Order D → Bool
unfolding is_working rests_on_book
can_cancel o = is_working o.state && rests_on_book o.order_type
