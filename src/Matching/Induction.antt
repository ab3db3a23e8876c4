-- ===== src/Matching/Induction.antt =====
-- Properties of the matching engine's state that every one of its operations keeps
-- (ff_standard_lib/src/strategies/handlers/market_handler/backtest_matching_engine.rs).
use fund_forge.Base.{ℕ, Option, none, some, List, [], ◌∷◌, String}
use fund_forge.Base.Dict.{Dict}
use fund_forge.Base.Tests.{Always, >>=-Always, >>=-Always_any, if-Always, string_eq}
use fund_forge.Decimal.{Decimal, ◌≼◌}
use fund_forge.Market.{OrderId, Account}
use fund_forge.Orders.{
  Order, OrderRequest, create, cancel, update, cancel_all, flatten_all_for, OrderUpdateType,
  OrderUpdateEvent,
}
use fund_forge.Ledger.Service.{is_long, is_short, run_task, flatten_all_for_paper_account}
use fund_forge.Matching.{Engine, Moment, priced}
use fund_forge.Matching.Verdicts.{market_price}
use fund_forge.Matching.Settlement.{
  Verdicts, no_verdicts, send_event, take_out, match_orders, reject_order, cancel_order, fill_order,
  partially_fill_order, for_each, try_each, settle_verdicts, simulated_order_matching,
}
use fund_forge.Matching.Requests.{
  check_order, reject_new, accept, admit, admit_checked, create_order, cancel_one, update_one,
  orders_of, cancel_with, cancel_account, flatten_with, flatten_account, handle_request,
  EngineMessage, order_request, tick_buffer_time, handle_message, run_engine,
}
use fund_forge.Matching.Loops.{for_each_invariant, try_each-Always, run_engine-Always}

-- The steps that a round of matching is composed of keep a property.
pub record IsKeptByRound {D : Type 0} ⦃d : Decimal D⦄ (P : Engine D → Type 0) : Type 0 where
  pub after_matching :
      (m : Moment D) (e : Engine D)
      → P e
      → Always
          (λ r. P (record e { ledgers = r.1 }))
          (match_orders m e.open_orders no_verdicts e.ledgers)
  pub after_reject :
      (m : Moment D) (entry : OrderId × String) (e : Engine D) → P e → P (reject_order m entry e)
  pub after_cancel :
      (m : Moment D) (entry : OrderId × String) (e : Engine D) → P e → P (cancel_order m entry e)
  pub after_fill :
      (m : Moment D) (entry : OrderId × D) (e : Engine D) → P e → Always P (fill_order m entry e)
  pub after_part :
      (m : Moment D) (entry : OrderId × D × D) (e : Engine D)
      → P e
      → Always P (partially_fill_order m entry e)

-- The steps that all operations are composed of keep a property.
pub record IsKept {D : Type 0} ⦃d : Decimal D⦄ (P : Engine D → Type 0) : Type 0 where
  pub round : IsKeptByRound {D = D} P
  pub after_send : (event : OrderUpdateEvent D) (e : Engine D) → P e → P (send_event event e)
  pub after_task :
      (m : Moment D) (n : ℕ) (account : Account) (e : Engine D)
      → P e
      → Always (λ s. P (record e { ledgers = s })) (run_task (priced m) n account e.ledgers)
  pub after_flatten :
      (m : Moment D) (account : Account) (e : Engine D)
      → P e
      → P (record e { ledgers = flatten_all_for_paper_account account m.time e.ledgers })
  pub after_accept :
      (m : Moment D) (account : Account) (o : Order D) (e : Engine D)
      → P e
      → P (accept m account o e)
  pub after_take_out : (id : OrderId) (e : Engine D) → P e → P (take_out id e)
  pub after_cancel_one :
      (m : Moment D) (account : Account) (id : OrderId) (e : Engine D)
      → P e
      → P (cancel_one m account id e)
  pub after_update_one :
      (m : Moment D) (account : Account) (id : OrderId) (change : OrderUpdateType D) (e : Engine D)
      → P e
      → P (update_one m account id change e)
  pub after_cancel_with :
      (m : Moment D) (account : Account) (reason : String) (id : OrderId) (e : Engine D)
      → P e
      → P (cancel_with m account reason id e)
  pub after_flatten_with :
      (m : Moment D) (account : Account) (reason : String) (id : OrderId) (e : Engine D)
      → P e
      → Always P (flatten_with m account reason id e)

module _ {D : Type 0} ⦃d : Decimal D⦄ (P : Engine D → Type 0) (k : IsKeptByRound {D = D} P) where
  settle_verdicts-Keeps :
      (m : Moment D) (vs : Verdicts D) (e : Engine D) → P e → Always P (settle_verdicts m vs e)
  unfolding settle_verdicts
  settle_verdicts-Keeps m vs e b =
      >>=-Always P P (try_each (fill_order m) vs.filled (for_each (reject_order m) vs.rejected e)) _
        (try_each-Always P (fill_order m) vs.filled _ (k.after_fill m)
          (for_each_invariant P (reject_order m) vs.rejected e (k.after_reject m) b))
        λ filled kept.
          >>=-Always P P (try_each (partially_fill_order m) vs.partially_filled filled) _
            (try_each-Always P (partially_fill_order m) vs.partially_filled filled (k.after_part m)
              kept)
            λ settled kept'.
              for_each_invariant P (cancel_order m) vs.cancelled settled (k.after_cancel m) kept'

  pub matching-Keeps : (m : Moment D) (e : Engine D) → P e → Always P (simulated_order_matching m e)
  unfolding simulated_order_matching
  matching-Keeps m e b =
      >>=-Always (λ r. P (record e { ledgers = r.1 })) P
        (match_orders m e.open_orders no_verdicts e.ledgers) _ (k.after_matching m e b)
        λ r kept. settle_verdicts-Keeps m r.0 (record e { ledgers = r.1 }) kept

module _ {D : Type 0} ⦃d : Decimal D⦄ (P : Engine D → Type 0) (k : IsKept {D = D} P) where
  admit-Keeps :
      (m : Moment D) (account : Account) (o : Order D) (reason : Option String) (e : Engine D)
      → P e
      → Always P (admit m account o reason e)
  unfolding admit reject_new
  admit-Keeps m account o none e b =
      matching-Keeps P k.round m (accept m account o e) (k.after_accept m account o e b)
  admit-Keeps m account o (some reason) e b = k.after_send _ e b

  create_order-Keeps :
      (m : Moment D) (account : Account) (o : Order D) (e : Engine D)
      → P e
      → Always P (create_order m account o e)
  unfolding create_order admit_checked reject_new
  create_order-Keeps m account o e b = >>=-Always_any P (market_price m o) _ λ market.
      if-Always P (o.quantity_open ≼ d.dec 0) _ (admit_checked m account o market e)
        (k.after_send _ _ (k.after_take_out o.id e b))
        (>>=-Always (λ s. P (record e { ledgers = s })) P
          (run_task (priced m) (m.received o.id) account e.ledgers) _
          (k.after_task m (m.received o.id) account e b)
          λ ran kept.
            >>=-Always_any P
              (check_order o market (is_long account o.symbol_code ran)
                (is_short account o.symbol_code ran))
              _ λ reason. admit-Keeps m account o reason (record e { ledgers = ran }) kept)

  flatten_account-Keeps :
      (m : Moment D) (account : Account) (e : Engine D)
      → P e
      → Always P (flatten_account m account e)
  unfolding flatten_account
  flatten_account-Keeps m account e b =
      >>=-Always P P
        (try_each (flatten_with m account "Flatten All") (orders_of account e.open_orders) e) _
        (try_each-Always P (flatten_with m account "Flatten All") (orders_of account e.open_orders)
          e (k.after_flatten_with m account "Flatten All") b)
        λ after kept. k.after_flatten m account after kept

  handle_request-Keeps :
      (m : Moment D) (r : OrderRequest D) (e : Engine D) → P e → Always P (handle_request m r e)
  unfolding handle_request cancel_account
  handle_request-Keeps m (create account o _) e b = create_order-Keeps m account o e b
  handle_request-Keeps m (cancel account id) e b =
      matching-Keeps P k.round m (cancel_one m account id e) (k.after_cancel_one m account id e b)
  handle_request-Keeps m (update account id change) e b =
      matching-Keeps P k.round m (update_one m account id change e)
        (k.after_update_one m account id change e b)
  handle_request-Keeps m (cancel_all account) e b =
      matching-Keeps P k.round m (cancel_account m account "OrderRequest::CancelAll" e) (
        for_each_invariant P (cancel_with m account "OrderRequest::CancelAll")
          (orders_of account e.open_orders) e
          (k.after_cancel_with m account "OrderRequest::CancelAll") b)
  handle_request-Keeps m (flatten_all_for account) e b = flatten_account-Keeps m account e b

  handle_message-Keeps :
      (m : Moment D) (message : EngineMessage D) (e : Engine D)
      → P e
      → Always P (handle_message m message e)
  unfolding handle_message
  handle_message-Keeps m (order_request r) e b = handle_request-Keeps m r e b
  handle_message-Keeps m tick_buffer_time e b = tick e.open_orders
    where
      tick :
          (orders : Dict OrderId (Order D))
          → Always P (elim orders [ [] ↦ some e | _ ∷ _ ↦ simulated_order_matching m e ])
      tick [] = b
      tick (_ ∷ _) = matching-Keeps P k.round m e b

  pub run_engine-Keeps :
      (messages : List (Moment D × EngineMessage D)) (e : Engine D)
      → P e
      → Always P (run_engine messages e)
  run_engine-Keeps messages e b = run_engine-Always P messages e handle_message-Keeps b
