-- ===== src/Matching/Capital.antt =====
-- The cash of the accounts while the matching engine handles its messages
-- (ff_standard_lib/src/strategies/handlers/market_handler/backtest_matching_engine.rs).
use fund_forge.Base.{List}
use fund_forge.Base.Tests.{Always, string_eq}
use fund_forge.Decimal.{Decimal, IsExact}
use fund_forge.Market.{Account}
use fund_forge.Ledger.Books.{flatten-Books, run_task-Books}
use fund_forge.Matching.{Engine, Moment, priced}
use fund_forge.Matching.Settlement.{no_verdicts, send_event, take_out}
use fund_forge.Matching.Requests.{accept, EngineMessage, run_engine}
use fund_forge.Matching.Cash.{
  EngineBooks, match_orders-Books, reject-ledgers, cancel-ledgers, cancel_one-Books,
  update_one-Books, cancel_with-Books, flatten_with-Books, fill_order-Books,
  partially_fill_order-Books,
}
use fund_forge.Matching.Induction.{IsKept, run_engine-Keeps}

module _ {D : Type 0} ⦃d : Decimal D⦄ (ex : IsExact d) (c : Account → D) where
  EngineBooks-IsKept : IsKept (EngineBooks c)
  unfolding send_event accept take_out
  EngineBooks-IsKept = record {
    round = record {
      after_matching = λ m e b. match_orders-Books c ex m e.open_orders no_verdicts e.ledgers b;
      after_reject = reject-ledgers c;
      after_cancel = cancel-ledgers c;
      after_fill = fill_order-Books c ex;
      after_part = partially_fill_order-Books c ex;
    };
    after_send = λ event e b. b;
    after_task = λ m n account e b. run_task-Books ex (priced m) n c account e.ledgers b;
    after_flatten = λ m account e b. flatten-Books c account m.time e.ledgers b;
    after_accept = λ m account o e b. b;
    after_take_out = λ id e b. b;
    after_cancel_one = cancel_one-Books c;
    after_update_one = update_one-Books c;
    after_cancel_with = cancel_with-Books c;
    after_flatten_with = flatten_with-Books c;
  }

  -- With exact decimals, over every sequence of requests and ticks, each at its own moment, the
  -- balance less the booked profit and loss of every account stays the same, if the sequence does
  -- not panic and no message that sets the cash of a live account waits at its start.
  pub run_engine-Books :
      (messages : List (Moment D × EngineMessage D)) (e : Engine D)
      → EngineBooks c e
      → Always (EngineBooks c) (run_engine messages e)
  run_engine-Books messages e b = run_engine-Keeps (EngineBooks c) EngineBooks-IsKept messages e b
