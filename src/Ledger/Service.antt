-- ===== src/Ledger/Service.antt =====
-- The ledgers of all accounts, each behind a channel of messages
-- (ff_standard_lib/src/strategies/ledgers/ledger_service.rs). `none` is a panic.
use fund_forge.Base.{ℕ, zero, suc, Bool, true, false, Option, none, some, List, [], ◌∷◌, String}
use fund_forge.Base.Tests.{◌>>=◌, if◌then◌else◌}
use fund_forge.Base.Lists.{push_back}
use fund_forge.Base.Dict.{Dict, lookup, insert, contains_key}
use fund_forge.Decimal.{Decimal}
use fund_forge.Market.{Time, SymbolCode, OrderId, Account, account_eq, Currency, StrategyMode}
use fund_forge.BaseData.{TimeSlice}
use fund_forge.Position.Types.{PositionCalculationMode}
use fund_forge.Orders.{OrderUpdateEvent}
use fund_forge.Ledger.State.{Ledger, Services, balance}
use fund_forge.Ledger.Paper.{Fill, Reply}
use fund_forge.Ledger.Messages.{
  LedgerMessage, time_slice_update, exit_paper_position, paper_flatten_all, live_account_update,
  handle, ledger_updates, update_or_create_paper_position,
}
use fund_forge.Ledger.Views

-- An account's ledger, and the messages in its channel that its task has not received yet.
pub record Slot (D : Type 0) : Type 0 where
  pub ledger : Ledger D
  pub pending : List (LedgerMessage D)

-- `ledgers` and `ledger_senders`, which have the same keys.
abbrev pub LedgerService : Type 0 → Type 0
LedgerService D = Dict Account (Slot D)

module _ {D : Type 0} ⦃d : Decimal D⦄ where
  -- The ledger of an account of a simulation before its first message.
  unfoldable pub paper_ledger : Account → StrategyMode → (starting_cash : D) → Currency → Ledger D
  paper_ledger account mode starting_cash currency = record {
    account = account;
    cash_value = starting_cash;
    cash_available = starting_cash;
    currency = currency;
    cash_used = d.dec 0;
    positions = [];
    last_update = [];
    symbol_code_map = [];
    margin_used = [];
    positions_closed = [];
    symbol_closed_pnl = [];
    symbol_info = [];
    open_pnl = [];
    total_booked_pnl = d.dec 0;
    mode = mode;
    is_simulating_pnl = true;
    rates = [];
    position_calculation_mode = PositionCalculationMode.lifo;
  }

  -- `init_ledger` in the modes Backtest and LivePaperTrading.
  unfoldable pub init_ledger :
      Account → StrategyMode → (starting_cash : D) → Currency → LedgerService D → LedgerService D
  unfolding paper_ledger
  init_ledger account mode starting_cash currency s =
      let slot : Slot D = record {
        ledger = paper_ledger account mode starting_cash currency;
        pending = [];
      } in
      if contains_key account s then s else insert account slot s

  -- `sender.send(msg)`, for an account that has a ledger
  unfoldable pub send : Account → LedgerMessage D → LedgerService D → LedgerService D
  send account message s = elim (lookup account s) [
    | none ↦ s
    | some slot ↦ insert account (record slot { pending = push_back slot.pending message }) s
  ]

  unfoldable pub flatten_all_for_paper_account : Account → Time → LedgerService D → LedgerService D
  unfolding send
  flatten_all_for_paper_account account time = send account (paper_flatten_all time)

  unfoldable pub paper_exit_position :
      Account
      → SymbolCode
      → OrderId
      → Time
      → (market_price : D) → (tag : String) → LedgerService D
      → LedgerService D
  unfolding send
  paper_exit_position account code order_id time market_price tag =
      send account (exit_paper_position code order_id time market_price tag)

  unfoldable pub live_account_updates :
      Account → (cash_value cash_available cash_used : D) → LedgerService D → LedgerService D
  unfolding send
  live_account_updates account value available used =
      send account (live_account_update value available used)

  unfoldable pub timeslice_updates : TimeSlice D → LedgerService D → LedgerService D
  timeslice_updates items [] = []
  timeslice_updates items ((account, slot) ∷ s) =
      (account, record slot { pending = push_back slot.pending (time_slice_update items) })
      ∷ timeslice_updates items s

  -- The ledger's task receives up to `n` of the messages that wait.
  unfoldable pub receive : Services D → ℕ → List (LedgerMessage D) → Ledger D → Option (Slot D)
  receive sv zero messages l = some (record { ledger = l; pending = messages })
  receive sv (suc n) [] l = some (record { ledger = l; pending = [] })
  receive sv (suc n) (message ∷ messages) l =
      handle sv message l >>= λ after. receive sv n messages after

  -- The task of an account's ledger runs for a while.
  unfoldable pub run_task : Services D → ℕ → Account → LedgerService D → Option (LedgerService D)
  run_task sv n account s = elim (lookup account s) [
    | none ↦ some s
    | some slot ↦ do after ← receive sv n slot.pending slot.ledger; some (insert account after s)
  ]

  -- A ledger's answer to a fill: all messages before it are received first.
  unfoldable pub answer_fill : Services D → Fill D → Slot D → Option (Reply D × Slot D)
  answer_fill sv f slot = do
    caught_up ← ledger_updates sv slot.pending slot.ledger
    (reply, after) ← update_or_create_paper_position sv f caught_up
    some (reply, record { ledger = after; pending = [] })

  -- `update_or_create_position`, with the response that the caller waits for. There is none if the
  -- account has no ledger, as the sender of the response is dropped.
  unfoldable pub update_or_create_position :
      Services D
      → Account
      → Fill D
      → LedgerService D
      → Option (Option (Option (OrderUpdateEvent D)) × LedgerService D)
  update_or_create_position sv account f s = elim (lookup account s) [
    | none ↦ some (none, s)
    | some slot ↦ do
      (reply, after) ← answer_fill sv f slot
      some (some reply.response, insert account after s)
  ]

  -- What a ledger answers, or what the service answers without one.
  ask {ℓ} : {A : Type ℓ} → Account → (Ledger D → A) → A → LedgerService D → A
  ask account view otherwise s = elim (lookup account s) [
    | some slot ↦ view slot.ledger
    | none ↦ otherwise
  ]

  unfoldable pub account_balance : Account → LedgerService D → D
  unfolding ask
  account_balance account = ask account balance (d.dec 0)

  unfoldable pub booked_pnl_account : Account → LedgerService D → D
  unfolding ask
  booked_pnl_account account = ask account (λ l. l.total_booked_pnl) (d.dec 0)

  unfoldable pub is_long : Account → SymbolCode → LedgerService D → Bool
  unfolding ask
  is_long account code = ask account (Views.is_long code) false

  unfoldable pub is_short : Account → SymbolCode → LedgerService D → Bool
  unfolding ask
  is_short account code = ask account (Views.is_short code) false

  unfoldable pub is_flat : Account → SymbolCode → LedgerService D → Bool
  unfolding ask
  is_flat account code = ask account (Views.is_flat code) true

  unfoldable pub position_size : Account → SymbolCode → LedgerService D → D
  unfolding ask
  position_size account code = ask account (Views.position_size code) (d.dec 0)

  unfoldable pub open_pnl : Account → LedgerService D → D
  unfolding ask
  open_pnl account = ask account Views.get_open_pnl (d.dec 0)

  unfoldable pub open_pnl_symbol : Account → SymbolCode → LedgerService D → D
  unfolding ask
  open_pnl_symbol account code = ask account (Views.pnl code) (d.dec 0)

  unfoldable pub booked_pnl : Account → SymbolCode → LedgerService D → D
  unfolding ask
  booked_pnl account code = ask account (Views.booked_pnl code) (d.dec 0)

  unfoldable pub in_profit : Account → SymbolCode → LedgerService D → Bool
  unfolding ask
  in_profit account code = ask account (Views.in_profit code) false

  unfoldable pub in_drawdown : Account → SymbolCode → LedgerService D → Bool
  unfolding ask
  in_drawdown account code = ask account (Views.in_drawdown code) false
