-- ===== src/Matching/Ids.antt =====
-- The identifiers of the orders while the matching engine handles its messages
-- (ff_standard_lib/src/strategies/handlers/market_handler/backtest_matching_engine.rs).
use fund_forge.Base.{refl, inl, inr, List}
use fund_forge.Base.Tests.{Option-cases, Always, >>=-Always_any, Always-intro, string_eq}
use fund_forge.Base.Dict.{lookup}
use fund_forge.Decimal.{Decimal}
use fund_forge.Market.{OrderId}
use fund_forge.Ledger.Service.{run_task, update_or_create_position}
use fund_forge.Matching.{Engine, Moment, priced}
use fund_forge.Matching.Settlement.{
  no_verdicts, send_event, take_out, match_orders, ledger_fill, fill_taken, fill_order,
  part_fill_taken, partially_fill_order,
}
use fund_forge.Matching.Requests.{accept, EngineMessage, run_engine}
use fund_forge.Matching.Tidy.{
  IsTidy, take_out-IsTidy, open-IsTidy, found-IsKeyed, reject-IsTidy, cancel-IsTidy,
  cancel_one-IsTidy, update_one-IsTidy, cancel_with-IsTidy, flatten_with-IsTidy, settle_fill-IsTidy,
  settle_part-IsTidy,
}
use fund_forge.Matching.Induction.{IsKept, run_engine-Keeps}

module _ {D : Type 0} ⦃d : Decimal D⦄ where
  fill_order-IsTidy :
      (m : Moment D) (entry : OrderId × D) (e : Engine D)
      → IsTidy e
      → Always IsTidy (fill_order m entry e)
  unfolding fill_order fill_taken
  fill_order-IsTidy m (id, price) e h = elim (Option-cases (lookup id e.open_orders)) [
    | inl absent ↦ rw (fill_order, absent) h
    | inr (o, found) ↦
        rw (fill_order, found)
          (>>=-Always_any IsTidy
            (update_or_create_position (priced m) o.account
              (ledger_fill m id o price o.quantity_open) (take_out id e).ledgers)
            _ λ r. settle_fill-IsTidy m o price r.0 _ (take_out-IsTidy id e h))
  ]

  partially_fill_order-IsTidy :
      (m : Moment D) (entry : OrderId × D × D) (e : Engine D)
      → IsTidy e
      → Always IsTidy (partially_fill_order m entry e)
  unfolding partially_fill_order part_fill_taken
  partially_fill_order-IsTidy m (id, price, volume) e h =
      elim (Option-cases (lookup id e.open_orders)) [
        | inl absent ↦ rw (partially_fill_order, absent) h
        | inr (o, found) ↦
            rw (partially_fill_order, found)
              (>>=-Always_any IsTidy
                (update_or_create_position (priced m) o.account (ledger_fill m id o price volume)
                  (take_out id e).ledgers)
                _
                λ r.
                  settle_part-IsTidy m id o price volume r.0 _ (found-IsKeyed id o e h found)
                    (take_out-IsTidy id e h))
      ]

  IsTidy-IsKept : IsKept {D = D} IsTidy
  unfolding send_event accept
  IsTidy-IsKept = record {
    round = record {
      after_matching = λ m e h.
          Always-intro (λ r. IsTidy (record e { ledgers = r.1 }))
            (match_orders m e.open_orders no_verdicts e.ledgers) λ _ _. h;
      after_reject = reject-IsTidy;
      after_cancel = cancel-IsTidy;
      after_fill = fill_order-IsTidy;
      after_part = partially_fill_order-IsTidy;
    };
    after_send = λ event e h. h;
    after_task = λ m n account e h.
        Always-intro (λ s. IsTidy (record e { ledgers = s }))
          (run_task (priced m) n account e.ledgers) λ _ _. h;
    after_flatten = λ m account e h. h;
    after_accept = λ m account o e h. open-IsTidy o.id _ e refl h;
    after_take_out = take_out-IsTidy;
    after_cancel_one = cancel_one-IsTidy;
    after_update_one = update_one-IsTidy;
    after_cancel_with = cancel_with-IsTidy;
    after_flatten_with = flatten_with-IsTidy;
  }

  -- Over every sequence of requests and ticks that does not panic, no identifier stands twice
  -- among the open orders and every order of both caches stands under its own identifier, if this
  -- was so before.
  pub run_engine-IsTidy :
      (messages : List (Moment D × EngineMessage D)) (e : Engine D)
      → IsTidy e
      → Always IsTidy (run_engine messages e)
  run_engine-IsTidy messages e h = run_engine-Keeps IsTidy IsTidy-IsKept messages e h
