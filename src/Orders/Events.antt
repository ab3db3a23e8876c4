-- ===== src/Orders/Events.antt =====
-- What an order event says (ff_standard_lib/src/standardized_types/orders.rs, `OrderUpdateEvent`).
use fund_forge.Base.{Option, none, some}
use fund_forge.Market.{Time, SymbolCode, OrderId, Account, Brokerage}
use fund_forge.Orders.{
  OrderState, OrderUpdateEvent, order_accepted, order_filled, order_partially_filled,
  order_cancelled, order_rejected, order_updated, order_update_rejected,
}

module _ {D : Type 0} where
  unfoldable pub event_time : OrderUpdateEvent D → Time
  event_time (order_accepted _ _ _ _ _ time_of) = time_of
  event_time (order_filled _ _ _ _ _ _ _ _ time_of) = time_of
  event_time (order_partially_filled _ _ _ _ _ _ _ _ time_of) = time_of
  event_time (order_cancelled _ _ _ _ _ _ time_of) = time_of
  event_time (order_rejected _ _ _ _ _ _ time_of) = time_of
  event_time (order_updated _ _ _ _ _ _ _ time_of) = time_of
  event_time (order_update_rejected _ _ _ time_of) = time_of

  unfoldable pub event_order_id : OrderUpdateEvent D → OrderId
  event_order_id (order_accepted _ _ _ order_id_of _ _) = order_id_of
  event_order_id (order_filled _ _ _ order_id_of _ _ _ _ _) = order_id_of
  event_order_id (order_partially_filled _ _ _ order_id_of _ _ _ _ _) = order_id_of
  event_order_id (order_cancelled _ _ _ order_id_of _ _ _) = order_id_of
  event_order_id (order_rejected _ _ _ order_id_of _ _ _) = order_id_of
  event_order_id (order_updated _ _ _ order_id_of _ _ _ _) = order_id_of
  event_order_id (order_update_rejected _ order_id_of _ _) = order_id_of

  unfoldable pub event_symbol_code : OrderUpdateEvent D → Option SymbolCode
  event_symbol_code (order_accepted _ _ symbol_code_of _ _ _) = some symbol_code_of
  event_symbol_code (order_filled _ _ symbol_code_of _ _ _ _ _ _) = some symbol_code_of
  event_symbol_code (order_partially_filled _ _ symbol_code_of _ _ _ _ _ _) = some symbol_code_of
  event_symbol_code (order_cancelled _ _ symbol_code_of _ _ _ _) = some symbol_code_of
  event_symbol_code (order_rejected _ _ symbol_code_of _ _ _ _) = some symbol_code_of
  event_symbol_code (order_updated _ _ symbol_code_of _ _ _ _ _) = some symbol_code_of
  event_symbol_code (order_update_rejected _ _ _ _) = none

  unfoldable pub event_account : OrderUpdateEvent D → Account
  event_account (order_accepted account_of _ _ _ _ _) = account_of
  event_account (order_filled account_of _ _ _ _ _ _ _ _) = account_of
  event_account (order_partially_filled account_of _ _ _ _ _ _ _ _) = account_of
  event_account (order_cancelled account_of _ _ _ _ _ _) = account_of
  event_account (order_rejected account_of _ _ _ _ _ _) = account_of
  event_account (order_updated account_of _ _ _ _ _ _ _) = account_of
  event_account (order_update_rejected account_of _ _ _) = account_of

  unfoldable pub event_brokerage : OrderUpdateEvent D → Brokerage
  unfolding event_account
  event_brokerage event = (event_account event).brokerage

  -- The state that the event gives to the order, if it changes the state.
  unfoldable pub state_change : OrderUpdateEvent D → Option OrderState
  state_change (order_accepted _ _ _ _ _ _) = some OrderState.accepted
  state_change (order_filled _ _ _ _ _ _ _ _ _) = some OrderState.filled
  state_change (order_partially_filled _ _ _ _ _ _ _ _ _) = some OrderState.partially_filled
  state_change (order_cancelled _ _ _ _ _ _ _) = some OrderState.cancelled
  state_change (order_rejected _ _ _ _ reason _ _) = some (OrderState.rejected reason)
  state_change (order_updated _ _ _ _ _ _ _ _) = none
  state_change (order_update_rejected _ _ _ _) = none
