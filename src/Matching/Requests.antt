-- ===== src/Matching/Requests.antt =====
-- The requests and messages that the matching engine handles
-- (ff_standard_lib/src/strategies/handlers/market_handler/backtest_matching_engine.rs,
-- `backtest_matching_engine`). `none` is a panic.
use fund_forge.Base.{Bool, true, false, Option, none, some, List, [], ◌∷◌, String}
use fund_forge.Base.Tests.{◌==◌, ◌>>=◌, if◌then◌else◌, string_eq}
use fund_forge.Base.Dict.{Dict, lookup, insert}
use fund_forge.Decimal.{Decimal, ◌≺◌, ◌≼◌}
use fund_forge.Market.{OrderId, Account, account_eq, OrderSide, buy, sell}
use fund_forge.Orders.{
  OrderType, OrderState, Order, OrderRequest, create, cancel, update, cancel_all, flatten_all_for,
  OrderUpdateType, limit_price, trigger_price, quantity, order_accepted, order_cancelled,
  order_rejected, order_updated, order_update_rejected,
}
use fund_forge.Ledger.Service.{is_long, is_short, run_task, flatten_all_for_paper_account}
use fund_forge.Matching.{Engine, Moment, priced}
use fund_forge.Matching.Verdicts.{market_price}
use fund_forge.Matching.Settlement.{
  send_event, close_order, take_out, for_each, try_each, simulated_order_matching,
}

unfoldable pub has_limit : OrderType → Bool
has_limit OrderType.stop_limit = true
has_limit OrderType.limit = true
has_limit _ = false

unfoldable pub has_trigger : OrderType → Bool
has_trigger OrderType.stop_market = true
has_trigger OrderType.stop_limit = true
has_trigger OrderType.market_if_touched = true
has_trigger _ = false

unfoldable pub limit_reason : OrderSide → String
limit_reason buy = "Buy Limit Price Must Be Below or Equal to Market Price"
limit_reason sell = "Sell Limit Price Must Be Above or Equal to Market Price"

unfoldable pub trigger_reason : OrderSide → String
trigger_reason buy = "Buy Trigger Price Must Be Above Market Price"
trigger_reason sell = "Sell Trigger Price Must Be Below Market Price"

module _ {D : Type 0} ⦃d : Decimal D⦄ where
  -- Whether a limit price is on the wrong side of the market.
  unfoldable pub limit_misplaced : OrderSide → (limit market : D) → Bool
  limit_misplaced buy limit market = market ≺ limit
  limit_misplaced sell limit market = limit ≺ market

  unfoldable pub trigger_misplaced : OrderSide → (trigger market : D) → Bool
  trigger_misplaced buy trigger market = trigger ≼ market
  trigger_misplaced sell trigger market = market ≼ trigger

  -- The checks of a new order: the reason to reject it, if there is one. The inner `none` is an
  -- order that passes, the outer one the panic of `unwrap`.
  unfoldable pub limit_check : Order D → (market : D) → Option (Option String)
  unfolding limit_misplaced limit_reason has_limit
  limit_check o market =
      let checked = o.limit_price >>= λ limit.
      some (if limit_misplaced o.side limit market then some (limit_reason o.side) else none) in
      if has_limit o.order_type then checked else some none

  unfoldable pub trigger_check : Order D → (market : D) → Option (Option String)
  unfolding trigger_misplaced trigger_reason has_trigger
  trigger_check o market =
      let checked = o.trigger_price >>= λ trigger.
      some
        (if trigger_misplaced o.side trigger market then some (trigger_reason o.side) else none) in
      if has_trigger o.order_type then checked else some none

  -- An exit needs a position on its side.
  unfoldable pub exit_check : Order D → (long_held short_held : Bool) → Option String
  exit_check o long_held short_held = elim o.order_type [
    | OrderType.exit_long ↦ if long_held then none else some "No Long Position To Exit"
    | OrderType.exit_short ↦ if short_held then none else some "No Short Position To Exit"
    | _ ↦ none
  ]

  -- The first reason of the three checks.
  unfoldable pub check_order :
      Order D → (market : D) → (long_held short_held : Bool) → Option (Option String)
  unfolding limit_check trigger_check exit_check
  check_order o market long_held short_held = do
    limit_reason ← limit_check o market
    elim limit_reason [
      | some reason ↦ some (some reason)
      | none ↦ do
        trigger_reason ← trigger_check o market
        some (elim trigger_reason [
          | some reason ↦ some reason
          | none ↦ exit_check o long_held short_held
        ])
    ]

  unfoldable pub reject_new : Moment D → Account → Order D → (reason : String) → Engine D → Engine D
  unfolding send_event
  reject_new m account o reason e =
      send_event (order_rejected account o.symbol_name o.symbol_code o.id reason o.tag m.time) e

  unfoldable pub accept : Moment D → Account → Order D → Engine D → Engine D
  unfolding send_event
  accept m account o e =
      send_event (order_accepted account o.symbol_name o.symbol_code o.id o.tag m.time) (record e {
        open_orders = insert o.id (record o { state = OrderState.accepted }) e.open_orders;
      })

  -- A new order whose quantity is positive: rejected, or accepted and matched with the others.
  unfoldable pub admit :
      Moment D → Account → Order D → (reason : Option String) → Engine D → Option (Engine D)
  unfolding accept reject_new
  admit m account o none e = simulated_order_matching m (accept m account o e)
  admit m account o (some reason) e = some (reject_new m account o reason e)

  unfoldable pub admit_checked :
      Moment D → Account → Order D → (market : D) → Engine D → Option (Engine D)
  admit_checked m account o market e = do
    ran ← run_task (priced m) (m.received o.id) account e.ledgers
    reason ←
        check_order o market (is_long account o.symbol_code ran)
          (is_short account o.symbol_code ran)
    admit m account o reason (record e { ledgers = ran })

  -- An open order with the identifier of a new order without a quantity is taken out.
  unfoldable pub create_order : Moment D → Account → Order D → Engine D → Option (Engine D)
  unfolding take_out reject_new
  create_order m account o e = do
    market ← market_price m o
    let admitted = admit_checked m account o market e
    if o.quantity_open ≼ d.dec 0
        then some
            (reject_new m account o "Order Quantity Must Be Greater Than Zero" (take_out o.id e))
        else admitted

  -- The state of an order that its owner cancels stays as it was.
  unfoldable pub cancel_one : Moment D → Account → OrderId → Engine D → Engine D
  unfolding send_event close_order take_out
  cancel_one m account id e = elim (lookup id e.open_orders) [
    | some o ↦
        let after =
          send_event
            (order_cancelled account o.symbol_name o.symbol_code id "User Request" o.tag m.time)
            (take_out id e) in
        record after { closed_orders = insert id o after.closed_orders }
    | none ↦ send_event (order_update_rejected account id "No pending order found" m.time) e
  ]

  unfoldable pub updated : OrderUpdateType D → Order D → Order D
  updated (limit_price price) o = elim o.limit_price [
    | some _ ↦ record o { limit_price = some price }
    | none ↦ o
  ]
  updated (trigger_price price) o = elim o.trigger_price [
    | some _ ↦ record o { trigger_price = some price }
    | none ↦ o
  ]
  updated (quantity volume) o = record o { quantity_open = volume }

  -- The event has the symbol's name in the place of its code.
  unfoldable pub update_one : Moment D → Account → OrderId → OrderUpdateType D → Engine D → Engine D
  unfolding send_event updated
  update_one m account id change e = elim (lookup id e.open_orders) [
    | some o ↦
        let after = updated change o in
        send_event
          (order_updated account after.symbol_name after.symbol_name after.id change "User Request"
            after.tag m.time)
          (record e { open_orders = insert id after e.open_orders })
    | none ↦ send_event (order_update_rejected account id "No pending order found" m.time) e
  ]

  -- The identifiers of the open orders of an account.
  unfoldable pub orders_of : Account → Dict OrderId (Order D) → List OrderId
  orders_of account [] = []
  orders_of account ((_, o) ∷ orders) =
      let others = orders_of account orders in
      if o.account == account then o.id ∷ others else others

  -- The identifiers in the event and in the cache, then the order that has been taken out.
  unfoldable pub cancel_taken_out :
      Moment D
      → Account
      → (reason : String) → (event_id key : OrderId) → Order D
      → Engine D
      → Engine D
  unfolding send_event
  cancel_taken_out m account reason event_id key o e =
      let after =
        send_event
          (order_cancelled account o.symbol_name o.symbol_code event_id reason o.tag m.time) e in
      record after {
        closed_orders = insert key (record o { state = OrderState.cancelled }) after.closed_orders;
      }

  unfoldable pub cancel_with :
      Moment D → Account → (reason : String) → OrderId → Engine D → Engine D
  unfolding cancel_taken_out take_out
  cancel_with m account reason id e = elim (lookup id e.open_orders) [
    | none ↦ e
    | some o ↦ cancel_taken_out m account reason o.id id o (take_out id e)
  ]

  -- All orders of an account, one after the other.
  unfoldable pub cancel_account : Moment D → Account → (reason : String) → Engine D → Engine D
  unfolding cancel_with
  cancel_account m account reason e =
      for_each (cancel_with m account reason) (orders_of account e.open_orders) e

  -- The same when the account is flattened, where an identifier that finds no order is a panic.
  unfoldable pub flatten_with :
      Moment D → Account → (reason : String) → OrderId → Engine D → Option (Engine D)
  unfolding cancel_taken_out take_out
  flatten_with m account reason id e = elim (lookup id e.open_orders) [
    | none ↦ none
    | some o ↦ some (cancel_taken_out m account reason id o.id o (take_out id e))
  ]

  unfoldable pub flatten_account : Moment D → Account → Engine D → Option (Engine D)
  unfolding flatten_with
  flatten_account m account e = do
    after ← try_each (flatten_with m account "Flatten All") (orders_of account e.open_orders) e
    some (record after { ledgers = flatten_all_for_paper_account account m.time after.ledgers })

  -- `match order_request`
  unfoldable pub handle_request : Moment D → OrderRequest D → Engine D → Option (Engine D)
  handle_request m (create account o _) e = create_order m account o e
  handle_request m (cancel account id) e = simulated_order_matching m (cancel_one m account id e)
  handle_request m (update account id change) e =
      simulated_order_matching m (update_one m account id change e)
  handle_request m (cancel_all account) e =
      simulated_order_matching m (cancel_account m account "OrderRequest::CancelAll" e)
  handle_request m (flatten_all_for account) e = flatten_account m account e

-- `BackTestEngineMessage`
pub data EngineMessage (D : Type 0) : Type 0 where
  order_request : OrderRequest D → EngineMessage D
  tick_buffer_time : EngineMessage D

module _ {D : Type 0} ⦃d : Decimal D⦄ where
  unfoldable pub handle_message : Moment D → EngineMessage D → Engine D → Option (Engine D)
  handle_message m (order_request r) e = handle_request m r e
  handle_message m tick_buffer_time e = elim e.open_orders [
    | [] ↦ some e
    | _ ∷ _ ↦ simulated_order_matching m e
  ]

  -- `while let Some(backtest_message) = receiver.recv().await`, each message at its moment
  unfoldable pub run_engine : List (Moment D × EngineMessage D) → Engine D → Option (Engine D)
  run_engine [] e = some e
  run_engine ((m, message) ∷ messages) e = handle_message m message e >>= run_engine messages
