-- ===== src/Matching/Settlement.antt =====
-- The settlement of matched orders
-- (ff_standard_lib/src/strategies/handlers/market_handler/backtest_matching_engine.rs: the ends of
-- `simulated_order_matching`, and what they call). `none` is a panic.
use fund_forge.Base.{Option, none, some, List, [], ◌∷◌, String}
use fund_forge.Base.Tests.{◌>>=◌, if◌then◌else◌, string_eq}
use fund_forge.Base.Lists.{push_back}
use fund_forge.Base.Dict.{Dict, lookup, insert, erase}
use fund_forge.Decimal.{Decimal, ◌⊕◌, ◌⊖◌, ◌≼◌}
use fund_forge.Market.{OrderId}
use fund_forge.Orders.{
  OrderState, Order, OrderUpdateEvent, order_filled, order_partially_filled, order_cancelled,
  order_rejected,
}
use fund_forge.Ledger.Paper.{Fill}
use fund_forge.Ledger.Service.{LedgerService, update_or_create_position}
use fund_forge.Matching.{Engine, Moment, priced}
use fund_forge.Matching.Verdicts.{Verdict, waits, rejects, cancels, fills, fills_part, match_order}

-- The lists that the loop over the open orders fills.
pub record Verdicts (D : Type 0) : Type 0 where
  pub rejected : List (OrderId × String)
  pub filled : List (OrderId × D)
  pub partially_filled : List (OrderId × D × D)
  pub cancelled : List (OrderId × String)

module _ {D : Type 0} where
  unfoldable pub no_verdicts : Verdicts D
  no_verdicts = record { rejected = []; filled = []; partially_filled = []; cancelled = [] }

  unfoldable pub add_verdict : Verdict D → Verdicts D → Verdicts D
  add_verdict waits vs = vs
  add_verdict (rejects id reason) vs = record vs { rejected = push_back vs.rejected (id, reason) }
  add_verdict (cancels id reason) vs = record vs { cancelled = push_back vs.cancelled (id, reason) }
  add_verdict (fills id price) vs = record vs { filled = push_back vs.filled (id, price) }
  add_verdict (fills_part id price volume) vs = record vs {
    partially_filled = push_back vs.partially_filled (id, price, volume);
  }

  unfoldable pub send_event : OrderUpdateEvent D → Engine D → Engine D
  send_event event e = record e { sent = push_back e.sent event }

  -- `closed_order_cache.insert(order.id, order)`
  unfoldable pub close_order : Order D → Engine D → Engine D
  close_order o e = record e { closed_orders = insert o.id o e.closed_orders }

  -- `open_order_cache.remove(order_id)`
  unfoldable pub take_out : OrderId → Engine D → Engine D
  take_out id e = record e { open_orders = erase id e.open_orders }

module _ {D : Type 0} ⦃d : Decimal D⦄ where
  -- The loop over the open orders.
  unfoldable pub match_orders :
      Moment D
      → Dict OrderId (Order D)
      → Verdicts D
      → LedgerService D
      → Option (Verdicts D × LedgerService D)
  match_orders m [] vs s = some (vs, s)
  match_orders m ((_, o) ∷ orders) vs s = do
    (verdict, after) ← match_order m o s
    match_orders m orders (add_verdict verdict vs) after

  -- An order that has been taken out, after it has been rejected.
  unfoldable pub reject_taken : Moment D → (reason : String) → Order D → Engine D → Engine D
  unfolding close_order send_event
  reject_taken m reason o e =
      send_event (order_rejected o.account o.symbol_name o.symbol_code o.id reason o.tag m.time)
        (close_order (record o { state = OrderState.rejected reason; time_created_utc = m.time }) e)

  unfoldable pub reject_order : Moment D → OrderId × String → Engine D → Engine D
  reject_order m (id, reason) e = elim (lookup id e.open_orders) [
    | none ↦ e
    | some o ↦ reject_taken m reason o (take_out id e)
  ]

  -- The state of an order that is cancelled is `Rejected` too.
  unfoldable pub cancel_taken : Moment D → (reason : String) → Order D → Engine D → Engine D
  unfolding close_order send_event
  cancel_taken m reason o e =
      send_event (order_cancelled o.account o.symbol_name o.symbol_code o.id reason o.tag m.time)
        (close_order (record o { state = OrderState.rejected reason; time_created_utc = m.time }) e)

  unfoldable pub cancel_order : Moment D → OrderId × String → Engine D → Engine D
  cancel_order m (id, reason) e = elim (lookup id e.open_orders) [
    | none ↦ e
    | some o ↦ cancel_taken m reason o (take_out id e)
  ]

  -- The message that a fill sends to the ledger.
  unfoldable pub ledger_fill : Moment D → OrderId → Order D → (price volume : D) → Fill D
  ledger_fill m id o price volume = record {
    symbol_name = o.symbol_name;
    symbol_code = o.symbol_code;
    quantity = volume;
    side = o.side;
    time = m.time;
    market_fill_price = price;
    tag = o.tag;
    order_id = id;
    new_id = m.new_id id;
  }

  -- The ledger's event, sent on, and the order closed as rejected.
  unfoldable pub close_refused : Order D → OrderUpdateEvent D → Engine D → Engine D
  unfolding close_order send_event
  close_refused o event e =
      close_order (record o { state = OrderState.rejected "Insufficient Funds" })
        (send_event event e)

  -- The response to the whole of an order. Without one the order is in neither cache any more. The
  -- state of an order that is filled stays as it was.
  unfoldable pub settle_fill :
      Moment D → Order D → (price : D) → Option (Option (OrderUpdateEvent D)) → Engine D → Engine D
  unfolding close_order send_event close_refused
  settle_fill m o price none e = e
  settle_fill m o price (some (some event)) e = close_refused o event e
  settle_fill m o price (some none) e =
      close_order
        (record o {
          quantity_filled = o.quantity_filled ⊕ o.quantity_open;
          quantity_open = d.dec 0;
        })
        (send_event
          (order_filled o.account o.symbol_name o.symbol_code o.id o.side price o.quantity_open
            o.tag m.time)
          e)

  unfoldable pub fill_taken :
      Moment D → OrderId → (price : D) → Order D → Engine D → Option (Engine D)
  unfolding ledger_fill
  fill_taken m id price o e = do
    (response, after) ←
        update_or_create_position (priced m) o.account (ledger_fill m id o price o.quantity_open)
          e.ledgers
    some (settle_fill m o price response (record e { ledgers = after }))

  unfoldable pub fill_order : Moment D → OrderId × D → Engine D → Option (Engine D)
  fill_order m (id, price) e = elim (lookup id e.open_orders) [
    | none ↦ some e
    | some o ↦ fill_taken m id price o (take_out id e)
  ]

  -- An order of which a volume has been filled.
  unfoldable pub part_filled : (volume : D) → Order D → Order D
  part_filled volume o = record o {
    quantity_open = o.quantity_open ⊖ volume;
    quantity_filled = o.quantity_filled ⊕ volume;
  }

  -- The response to a part of an order, which stays open if some of it is left.
  unfoldable pub settle_part :
      Moment D
      → OrderId
      → Order D
      → (price volume : D) → Option (Option (OrderUpdateEvent D))
      → Engine D
      → Engine D
  unfolding close_order send_event close_refused part_filled
  settle_part m id o price volume none e = e
  settle_part m id o price volume (some (some event)) e = close_refused o event e
  settle_part m id o price volume (some none) e =
      let filled = part_filled volume o in
      if filled.quantity_open ≼ d.dec 0
      then close_order filled (
          send_event
            (order_filled o.account o.symbol_name o.symbol_code o.id o.side price volume o.tag
              m.time)
            e)
      else let after =
          send_event
            (order_partially_filled o.account o.symbol_name o.symbol_code o.id o.side price volume
              o.tag m.time)
            e in
        record after { open_orders = insert id filled after.open_orders }

  unfoldable pub part_fill_taken :
      Moment D → OrderId → (price volume : D) → Order D → Engine D → Option (Engine D)
  unfolding ledger_fill
  part_fill_taken m id price volume o e = do
    (response, after) ←
        update_or_create_position (priced m) o.account (ledger_fill m id o price volume) e.ledgers
    some (settle_part m id o price volume response (record e { ledgers = after }))

  unfoldable pub partially_fill_order : Moment D → OrderId × D × D → Engine D → Option (Engine D)
  partially_fill_order m (id, price, volume) e = elim (lookup id e.open_orders) [
    | none ↦ some e
    | some o ↦ part_fill_taken m id price volume o (take_out id e)
  ]

  -- A loop over one of the lists, of calls that cannot panic.
  unfoldable pub for_each {ℓ} :
      {A : Type ℓ} → (A → Engine D → Engine D) → List A → Engine D → Engine D
  for_each call [] e = e
  for_each call (a ∷ items) e = for_each call items (call a e)

  -- The same for calls that may panic.
  unfoldable pub try_each {ℓ} :
      {A : Type ℓ} → (A → Engine D → Option (Engine D)) → List A → Engine D → Option (Engine D)
  try_each call [] e = some e
  try_each call (a ∷ items) e = call a e >>= try_each call items

  unfoldable pub settle_verdicts : Moment D → Verdicts D → Engine D → Option (Engine D)
  settle_verdicts m vs e = do
    filled ← try_each (fill_order m) vs.filled (for_each (reject_order m) vs.rejected e)
    settled ← try_each (partially_fill_order m) vs.partially_filled filled
    some (for_each (cancel_order m) vs.cancelled settled)

  unfoldable pub simulated_order_matching : Moment D → Engine D → Option (Engine D)
  unfolding no_verdicts
  simulated_order_matching m e = do
    (vs, after) ← match_orders m e.open_orders no_verdicts e.ledgers
    settle_verdicts m vs (record e { ledgers = after })
