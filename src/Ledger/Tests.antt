-- ===== src/Ledger/Tests.antt =====
-- A session of a simulated ledger on whole numbers, and the theorems at concrete inputs
-- (ff_standard_lib/src/strategies/ledgers).
use fund_forge.Base.{◌≡◌, refl, true, Option, none, some, List, [], ◌∷◌}
use fund_forge.Base.Tests.{string_eq}
use fund_forge.Base.Dict.{lookup, insert, erase}
use fund_forge.Decimal.{◌⊗◌}
use fund_forge.Decimal.Whole.{ℤ, pos, whole, whole_exact}
use fund_forge.Market.{
  Brokerage, SymbolInfo, Currency, currency_eq, Currency-discrete, OrderSide, PositionSide,
  StrategyMode,
}
use fund_forge.Pnl.{calculate_theoretical_pnl}
use fund_forge.Position.Types.{PositionCalculationMode, Position, new}
use fund_forge.Position.Exit.{exit_entries, exit_entry, restore}
use fund_forge.Position.Update.{
  reduce_position_size, add_to_position, first_exits, book_reduction, average_left, new_exit_price,
  finish_reduction, open_pnl_after, weigh,
}
use fund_forge.Ledger.State.{
  Ledger, ok, Services, release_margin_used, margin_rate, add_margin, take_margin, charge_margin,
  commit_margin, booking_rate, book_pnl, settle, push_closed,
}
use fund_forge.Ledger.Paper.{
  Fill, symbol_info, rejection, meet_existing, reduce_existing, after_reduction, put_back,
  add_to_existing, add_committed, paper_exit_position, exit_removed, book_exit_event, exit_side,
}
use fund_forge.Ledger.Messages.{
  open_new, open_committed, opened, insert_opened, finish_fill, update_or_create_paper_position,
  flatten_one, flatten, flatten_all_for_paper_account, LedgerMessage, update_or_create_position,
  paper_flatten_all, handle, ledger_updates,
}
use fund_forge.Ledger.Cash.{capital}
use fund_forge.Ledger.Session.{IsSimulated, capital-ledger_updates}
use fund_forge.Ledger.Valid.{HoldsValid}
use fund_forge.Ledger.Valid.Session.{FillsSome, ledger_updates-HoldsValid}
use fund_forge.Ledger.Rejected.{margin_of_addition, rejected_addition}

abbrev pub info : SymbolInfo ℤ
info = record {
  symbol_name = "NQ";
  base_currency = none;
  pnl_currency = Currency.usd;
  value_per_tick = pos 5;
  tick_size = pos 1;
  decimal_accuracy = 2;
}

-- A margin of 10 for a contract, and a price of 120 for every exit.
abbrev pub services : Services ℤ
services = record {
  exchange_rate = λ _ _ _ _. none;
  margin_required = λ _ _ quantity _ _ _ _ _. ok (some (quantity ⊗ pos 10));
  commission_info = λ _. none;
  futures_info = λ _. none;
  oanda_info = λ _. none;
  brokerage_info = λ _ _. some info;
  fill_price = λ _ _ _ _. some (some (pos 120));
}

abbrev pub first : Ledger ℤ
first = record {
  account = record { brokerage = Brokerage.test; account_id = "a" };
  cash_value = pos 100;
  cash_available = pos 100;
  currency = Currency.usd;
  cash_used = pos 0;
  positions = [];
  last_update = [];
  symbol_code_map = [];
  margin_used = [];
  positions_closed = [];
  symbol_closed_pnl = [];
  symbol_info = [];
  open_pnl = [];
  total_booked_pnl = pos 0;
  mode = StrategyMode.backtest;
  is_simulating_pnl = true;
  rates = [];
  position_calculation_mode = PositionCalculationMode.fifo;
}

abbrev fill : OrderSide → (quantity price : ℤ) → Fill ℤ
fill side quantity price = record {
  symbol_name = "NQ";
  symbol_code = "NQZ4";
  quantity = quantity;
  side = side;
  time = 1;
  market_fill_price = price;
  tag = "tag";
  order_id = "order";
  new_id = "id";
}

-- Two bought at 100, three sold at 110, of which one opens a short position, and the exit at 120.
abbrev messages : List (LedgerMessage ℤ)
messages =
    update_or_create_position (fill OrderSide.buy (pos 2) (pos 100))
    ∷ update_or_create_position (fill OrderSide.sell (pos 3) (pos 110))
    ∷ paper_flatten_all 3
    ∷ []

abbrev ledger_of : Option (Ledger ℤ) → Ledger ℤ
ledger_of none = first
ledger_of (some l) = l

abbrev run : List (LedgerMessage ℤ) → Option (Ledger ℤ)
unfolding ledger_updates handle update_or_create_paper_position meet_existing reduce_existing
    add_to_existing after_reduction put_back add_committed finish_fill open_new open_committed
    insert_opened symbol_info release_margin_used margin_rate add_margin take_margin charge_margin
    commit_margin booking_rate book_pnl settle push_closed flatten_all_for_paper_account flatten
    flatten_one paper_exit_position exit_removed book_exit_event lookup insert erase
    calculate_theoretical_pnl reduce_position_size exit_entries exit_entry restore first_exits
    book_reduction average_left new_exit_price finish_reduction add_to_position open_pnl_after weigh
run messages = ledger_updates services messages first

session_balance : (ledger_of (run messages)).cash_value ≡ pos 150
unfolding run Currency-discrete opened new exit_side
session_balance = refl

capital-ledger_updates_example : capital (ledger_of (run messages)) ≡ capital first
unfolding run Currency-discrete opened new exit_side IsSimulated
capital-ledger_updates_example =
    capital-ledger_updates whole_exact services messages first (ledger_of (run messages))
      (tt, (tt, (tt, tt))) refl

-- Two held, and twenty more that the account cannot pay the margin of.
abbrev holding : Ledger ℤ
unfolding run
holding = ledger_of (run (update_or_create_position (fill OrderSide.buy (pos 2) (pos 100)) ∷ []))

abbrev held : Position ℤ
unfolding new
held =
    new "NQ" "NQZ4" "order" first.account PositionSide.long (pos 2) (pos 100) "id" info (pos 1)
      "tag" 1 PositionCalculationMode.fifo

rejected_addition_example :
    let f = fill OrderSide.buy (pos 20) (pos 100) in
    let after = (margin_of_addition services f held holding).1 in
    (update_or_create_paper_position services f holding
      ≡ some
          (record { response = some (rejection f "Insufficient funds" after); events = [] }, after))
    × (lookup "NQZ4" after.positions ≡ none)
unfolding holding held Currency-discrete opened run commit_margin charge_margin take_margin
    margin_rate
rejected_addition_example =
    rejected_addition services (fill OrderSide.buy (pos 20) (pos 100)) held "Insufficient funds"
      holding refl refl refl refl

-- The trades of the session, which leave a short position of one.
abbrev trades : List (LedgerMessage ℤ)
trades =
    update_or_create_position (fill OrderSide.buy (pos 2) (pos 100))
    ∷ update_or_create_position (fill OrderSide.sell (pos 3) (pos 110))
    ∷ []

first-HoldsValid : HoldsValid first.positions
unfolding HoldsValid lookup
first-HoldsValid code p h = cc

ledger_updates-HoldsValid_example : HoldsValid (ledger_of (run trades)).positions
unfolding run Currency-discrete opened new exit_side FillsSome
ledger_updates-HoldsValid_example =
    ledger_updates-HoldsValid whole_exact services trades first (ledger_of (run trades))
      (refl, (refl, tt)) first-HoldsValid refl
