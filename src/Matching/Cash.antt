-- ===== src/Matching/Cash.antt =====
-- The cash of the accounts under the matching engine
-- (ff_standard_lib/src/strategies/handlers/market_handler/backtest_matching_engine.rs).
use fund_forge.Base.{inl, inr, Bool, Option, none, some, [], ◌∷◌, String}
use fund_forge.Base.Tests.{
  Bool-cases, Option-cases, Always, >>=-Always, >>=-Always_any, if-Always, elim-Always, string_eq,
}
use fund_forge.Base.Dict.{Dict, lookup}
use fund_forge.Decimal.{Decimal, IsExact, ◌⊖◌, ◌≼◌}
use fund_forge.Market.{OrderId, Account}
use fund_forge.Prices.{estimate_fill_price}
use fund_forge.Orders.{OrderType, Order, OrderUpdateType, OrderUpdateEvent}
use fund_forge.Ledger.Service.{
  LedgerService, is_long, is_short, position_size, paper_exit_position, run_task,
  update_or_create_position,
}
use fund_forge.Ledger.Books.{Books, paper_exit-Books, run_task-Books, update_or_create-Books}
use fund_forge.Matching.{Engine, Moment, priced}
use fund_forge.Matching.Verdicts.{
  Verdict, expiry, fill_at_market, match_limit, match_stop_market, match_touch, match_stop_limit,
  enter, leave_and_enter, match_enter, match_exit, match_type, match_order,
}
use fund_forge.Matching.Settlement.{
  Verdicts, add_verdict, send_event, close_order, take_out, match_orders, reject_taken,
  reject_order, cancel_taken, cancel_order, ledger_fill, close_refused, settle_fill, fill_taken,
  fill_order, settle_part, part_filled, part_fill_taken, partially_fill_order,
}
use fund_forge.Matching.Requests.{
  cancel_one, update_one, cancel_taken_out, cancel_with, flatten_with,
}

module _ {D : Type 0} ⦃d : Decimal D⦄ (c : Account → D) where
  -- The books of a result that has a service.
  abbrev VerdictBooks : Verdict D × LedgerService D → Type 0
  VerdictBooks r = Books c r.1

  abbrev pub EngineBooks : Engine D → Type 0
  EngineBooks e = Books c e.ledgers

  enter-Books :
      (m : Moment D) (o : Order D) (s : LedgerService D)
      → Books c s
      → Always VerdictBooks (enter m o s)
  unfolding enter
  enter-Books m o s b = >>=-Always_any VerdictBooks (fill_at_market m o o.quantity_open) _ λ _. b

  leave_and_enter-Books :
      (m : Moment D) (o : Order D) (tag : String) (s : LedgerService D)
      → Books c s
      → Always VerdictBooks (leave_and_enter m o tag s)
  unfolding leave_and_enter
  leave_and_enter-Books m o tag s b =
      >>=-Always_any VerdictBooks
        (estimate_fill_price o.side o.symbol_name o.symbol_code
          (position_size o.account o.symbol_code s) m.prices)
        _
        λ estimate. elim-Always VerdictBooks estimate _ _ b λ price.
          enter-Books m o (paper_exit_position o.account o.symbol_code o.id m.time price tag s)
            (paper_exit-Books c o.account o.symbol_code o.id m.time price tag s b)

  match_enter-Books :
      (m : Moment D) (o : Order D) (opposite : Bool) (tag : String) (s : LedgerService D)
      → Books c s
      → Always VerdictBooks (match_enter m o opposite tag s)
  unfolding match_enter
  match_enter-Books m o opposite tag s b =
      if-Always VerdictBooks opposite (leave_and_enter m o tag s) (enter m o s)
        (leave_and_enter-Books m o tag s b) (enter-Books m o s b)

  match_type-Books :
      (t : OrderType) (m : Moment D) (o : Order D) (s : LedgerService D)
      → Books c s
      → Always VerdictBooks (match_type t m o s)
  unfolding match_type
  match_type-Books OrderType.limit m o s b = >>=-Always_any VerdictBooks (match_limit m o) _ λ _. b
  match_type-Books OrderType.market m o s b =
      >>=-Always_any VerdictBooks (fill_at_market m o o.quantity_open) _ λ _. b
  match_type-Books OrderType.stop_market m o s b =
      >>=-Always_any VerdictBooks (match_stop_market m o) _ λ _. b
  match_type-Books OrderType.market_if_touched m o s b =
      >>=-Always_any VerdictBooks (match_touch m o) _ λ _. b
  match_type-Books OrderType.stop_limit m o s b =
      >>=-Always_any VerdictBooks (match_stop_limit m o) _ λ _. b
  match_type-Books OrderType.enter_long m o s b =
      match_enter-Books m o (is_short o.account o.symbol_code s) "Force Exit By Enter Long" s b
  match_type-Books OrderType.enter_short m o s b =
      match_enter-Books m o (is_long o.account o.symbol_code s) "Force Exit By Enter Short" s b
  match_type-Books OrderType.exit_long m o s b =
      >>=-Always_any VerdictBooks
        (match_exit m o (is_long o.account o.symbol_code s) "No Long Position To Exit" s) _ λ _. b
  match_type-Books OrderType.exit_short m o s b =
      >>=-Always_any VerdictBooks
        (match_exit m o (is_short o.account o.symbol_code s) "No Short Position To Exit" s) _ λ _. b

  pub reject-ledgers :
      (m : Moment D) (entry : OrderId × String) (e : Engine D)
      → EngineBooks e
      → EngineBooks (reject_order m entry e)
  unfolding reject_order reject_taken close_order send_event take_out
  reject-ledgers m (id, reason) e b = elim (Option-cases (lookup id e.open_orders)) [
    | inl absent ↦ rw (reject_order, absent) b
    | inr (o, found) ↦ rw (reject_order, found) b
  ]

  pub cancel-ledgers :
      (m : Moment D) (entry : OrderId × String) (e : Engine D)
      → EngineBooks e
      → EngineBooks (cancel_order m entry e)
  unfolding cancel_order cancel_taken close_order send_event take_out
  cancel-ledgers m (id, reason) e b = elim (Option-cases (lookup id e.open_orders)) [
    | inl absent ↦ rw (cancel_order, absent) b
    | inr (o, found) ↦ rw (cancel_order, found) b
  ]

  pub cancel_one-Books :
      (m : Moment D) (account : Account) (id : OrderId) (e : Engine D)
      → EngineBooks e
      → EngineBooks (cancel_one m account id e)
  unfolding cancel_one close_order send_event take_out
  cancel_one-Books m account id e b = elim (Option-cases (lookup id e.open_orders)) [
    | inl absent ↦ rw (cancel_one, absent) b
    | inr (o, found) ↦ rw (cancel_one, found) b
  ]

  pub update_one-Books :
      (m : Moment D) (account : Account) (id : OrderId) (change : OrderUpdateType D) (e : Engine D)
      → EngineBooks e
      → EngineBooks (update_one m account id change e)
  unfolding update_one send_event
  update_one-Books m account id change e b = elim (Option-cases (lookup id e.open_orders)) [
    | inl absent ↦ rw (update_one, absent) b
    | inr (o, found) ↦ rw (update_one, found) b
  ]

  pub cancel_with-Books :
      (m : Moment D) (account : Account) (reason : String) (id : OrderId) (e : Engine D)
      → EngineBooks e
      → EngineBooks (cancel_with m account reason id e)
  unfolding cancel_with cancel_taken_out send_event take_out
  cancel_with-Books m account reason id e b = elim (Option-cases (lookup id e.open_orders)) [
    | inl absent ↦ rw (cancel_with, absent) b
    | inr (o, found) ↦ rw (cancel_with, found) b
  ]

  pub flatten_with-Books :
      (m : Moment D) (account : Account) (reason : String) (id : OrderId) (e : Engine D)
      → EngineBooks e
      → Always EngineBooks (flatten_with m account reason id e)
  unfolding flatten_with cancel_taken_out send_event take_out
  flatten_with-Books m account reason id e b = elim (Option-cases (lookup id e.open_orders)) [
    | inl absent ↦ rw (flatten_with, absent) tt
    | inr (o, found) ↦ rw (flatten_with, found) b
  ]

  settle_fill-Books :
      (m : Moment D) (o : Order D) (price : D) (r : Option (Option (OrderUpdateEvent D)))
      (e : Engine D)
      → EngineBooks e
      → EngineBooks (settle_fill m o price r e)
  unfolding settle_fill close_refused close_order send_event
  settle_fill-Books m o price none e b = b
  settle_fill-Books m o price (some (some event)) e b = b
  settle_fill-Books m o price (some none) e b = b

  settle_part-Books :
      (m : Moment D) (id : OrderId) (o : Order D) (price volume : D)
      (r : Option (Option (OrderUpdateEvent D))) (e : Engine D)
      → EngineBooks e
      → EngineBooks (settle_part m id o price volume r e)
  unfolding settle_part close_refused close_order send_event part_filled
  settle_part-Books m id o price volume none e b = b
  settle_part-Books m id o price volume (some (some event)) e b = b
  settle_part-Books m id o price volume (some none) e b =
      elim (Bool-cases ((o.quantity_open ⊖ volume) ≼ d.dec 0)) [
        | inl done ↦ rw (settle_part, done) b
        | inr left ↦ rw (settle_part, left) b
      ]

  module _ (ex : IsExact d) where
    match_order-Books :
        (m : Moment D) (o : Order D) (s : LedgerService D)
        → Books c s
        → Always VerdictBooks (match_order m o s)
    unfolding match_order
    match_order-Books m o s b =
        >>=-Always (Books c) VerdictBooks (run_task (priced m) (m.received o.id) o.account s) _
          (run_task-Books ex (priced m) (m.received o.id) c o.account s b)
          λ ran kept.
            elim-Always VerdictBooks (expiry m o) _ _ (match_type-Books o.order_type m o ran kept)
              λ _. kept

    pub match_orders-Books :
        (m : Moment D) (orders : Dict OrderId (Order D)) (vs : Verdicts D) (s : LedgerService D)
        → Books c s
        → Always (λ r. Books c r.1) (match_orders m orders vs s)
    unfolding match_orders
    match_orders-Books m [] vs s b = b
    match_orders-Books m ((_, o) ∷ orders) vs s b =
        >>=-Always VerdictBooks (λ r. Books c r.1) (match_order m o s) _ (match_order-Books m o s b)
          λ r kept. match_orders-Books m orders (add_verdict r.0 vs) r.1 kept

    pub fill_order-Books :
        (m : Moment D) (entry : OrderId × D) (e : Engine D)
        → EngineBooks e
        → Always EngineBooks (fill_order m entry e)
    unfolding fill_order fill_taken take_out
    fill_order-Books m (id, price) e b = elim (Option-cases (lookup id e.open_orders)) [
      | inl absent ↦ rw (fill_order, absent) b
      | inr (o, found) ↦
          rw (fill_order, found)
            (>>=-Always (λ r. Books c r.1) EngineBooks
              (update_or_create_position (priced m) o.account
                (ledger_fill m id o price o.quantity_open) e.ledgers)
              _
              (update_or_create-Books ex (priced m) c o.account
                (ledger_fill m id o price o.quantity_open) e.ledgers b)
              λ r kept. settle_fill-Books m o price r.0 _ kept)
    ]

    pub partially_fill_order-Books :
        (m : Moment D) (entry : OrderId × D × D) (e : Engine D)
        → EngineBooks e
        → Always EngineBooks (partially_fill_order m entry e)
    unfolding partially_fill_order part_fill_taken take_out
    partially_fill_order-Books m (id, price, volume) e b =
        elim (Option-cases (lookup id e.open_orders)) [
          | inl absent ↦ rw (partially_fill_order, absent) b
          | inr (o, found) ↦
              rw (partially_fill_order, found)
                (>>=-Always (λ r. Books c r.1) EngineBooks
                  (update_or_create_position (priced m) o.account (ledger_fill m id o price volume)
                    e.ledgers)
                  _
                  (update_or_create-Books ex (priced m) c o.account
                    (ledger_fill m id o price volume) e.ledgers b)
                  λ r kept. settle_part-Books m id o price volume r.0 _ kept)
        ]
