-- ===== src/Ledger/State.antt =====
-- The state of a ledger, what it asks of the rest of the system, and its margin
-- (ff_standard_lib/src/strategies/ledgers/ledger.rs and historical_ledger.rs). `none` is a panic.
use fund_forge.Base.{Bool, Option, none, some, List, []}
use fund_forge.Base.Tests.{◌==◌, if◌then◌else◌, string_eq}
use fund_forge.Base.Lists.{push_back}
use fund_forge.Base.Dict.{Dict, lookup, insert, erase}
use fund_forge.Decimal.{Decimal, ◌⊕◌, ◌⊖◌, ◌⊗◌, ◌≺◌}
use fund_forge.Market.{
  Time, SymbolName, SymbolCode, Account, Currency, currency_eq, OrderSide, StrategyMode, SymbolInfo,
  Brokerage, CommissionInfo,
}
use fund_forge.Position.Types.{Position, PositionCalculationMode}
use Prim.Native.String.{String}

pub record Ledger (D : Type 0) : Type 0 where
  pub account : Account
  pub cash_value : D
  pub cash_available : D
  pub currency : Currency
  pub cash_used : D
  pub positions : Dict SymbolCode (Position D)
  pub last_update : Dict SymbolCode Time
  pub symbol_code_map : Dict SymbolName (List SymbolCode)
  pub margin_used : Dict SymbolCode D
  pub positions_closed : Dict SymbolCode (List (Position D))
  pub symbol_closed_pnl : Dict SymbolCode D
  pub symbol_info : Dict SymbolName (SymbolInfo D)
  pub open_pnl : Dict SymbolCode D
  pub total_booked_pnl : D
  pub mode : StrategyMode
  pub is_simulating_pnl : Bool
  pub rates : Dict Currency D
  pub position_calculation_mode : PositionCalculationMode

-- `Ok`, or `Err` with the text of the error.
pub data Outcome {ℓ} (A : Type ℓ) : Type ℓ where
  ok : A → Outcome A
  err : String → Outcome A

-- What the ledger asks of the data server, of the product tables and of the price service.
pub record Services (D : Type 0) : Type 0 where
  -- `get_exchange_rate`, with `none` for an error
  pub exchange_rate : Currency → Currency → Time → OrderSide → Option D
  -- `Brokerage::intraday_margin_required`
  pub margin_required :
      Brokerage
      → SymbolName
      → (quantity market_price : D) → Currency
      → Option Currency
      → Currency
      → (rate : D) → Outcome (Option D)
  -- `get_futures_commissions_info`
  pub commission_info : SymbolName → Option (CommissionInfo D)
  -- `find_base_symbol`, then `get_futures_symbol_info`: no base symbol, or the information, or none
  pub futures_info : SymbolName → Option (Option (SymbolInfo D))
  -- `OANDA_SYMBOL_INFO`
  pub oanda_info : SymbolName → Option (SymbolInfo D)
  -- `Brokerage::symbol_info`
  pub brokerage_info : Brokerage → SymbolName → Option (SymbolInfo D)
  -- `MarketPriceService::estimate_fill_price`; the outer `none` is a panic
  pub fill_price : OrderSide → SymbolName → SymbolCode → (volume : D) → Option (Option D)

module _ {D : Type 0} ⦃d : Decimal D⦄ where
  -- `Ledger::balance`
  abbrev pub balance : Ledger D → D
  balance l = l.cash_used ⊕ l.cash_available

  unfoldable pub get_exchange_multiplier : Currency → Ledger D → D
  get_exchange_multiplier to_currency l =
      let found : D = elim (lookup to_currency l.rates) [ some rate ↦ rate | none ↦ d.dec 1 ] in
      if l.currency == to_currency then d.dec 1 else found

  unfoldable pub release_margin_used : SymbolCode → Ledger D → Ledger D
  release_margin_used symbol_code l = elim (lookup symbol_code l.margin_used) [
    | none ↦ l
    | some margin_used ↦ record l {
      margin_used = erase symbol_code l.margin_used;
      cash_used = l.cash_used ⊖ margin_used;
      cash_available = l.cash_available ⊕ margin_used;
    }
  ]

  -- The rate to the position's currency, and the ledger with that rate remembered.
  unfoldable pub margin_rate : Services D → Currency → Time → OrderSide → Ledger D → D × Ledger D
  margin_rate sv position_currency time side l =
      let asked : D = elim (sv.exchange_rate position_currency l.currency time side) [
        | some rate ↦ rate
        | none ↦ d.dec 1
      ] in
      let fresh : D × Ledger D = elim (lookup position_currency l.rates) [
        | some rate ↦ (rate, l)
        | none ↦ (asked, record l { rates = insert position_currency asked l.rates })
      ] in
      if position_currency == l.currency then (d.dec 1, l) else fresh

  -- The margin of a symbol with a further amount, and the cash moved to it.
  unfoldable pub add_margin : SymbolCode → (margin : D) → Ledger D → Ledger D
  add_margin symbol_code margin l =
      let total_margin : D = elim (lookup symbol_code l.margin_used) [
        | some existing ↦ margin ⊕ existing
        | none ↦ margin
      ] in
      record l {
        margin_used = insert symbol_code total_margin l.margin_used;
        cash_used = l.cash_used ⊕ margin;
        cash_available = l.cash_available ⊖ margin;
      }

  -- Takes the margin out of the available cash, or reports that there is too little of it. (The
  -- text of the error has the two amounts too.)
  unfoldable pub take_margin : SymbolCode → (margin : D) → Ledger D → Outcome (Unit {0}) × Ledger D
  take_margin code margin l =
      if l.cash_available ≺ margin
      then (err "Insufficient funds", l)
      else (ok tt, add_margin code margin l)

  -- Takes what the brokerage requires, or else the whole value of the trade.
  unfoldable pub charge_margin :
      SymbolCode
      → (value : D) → (required : Outcome (Option D)) → Ledger D
      → Outcome (Unit {0}) × Ledger D
  charge_margin code value (err e) l = (err e, l)
  charge_margin code value (ok (some margin)) l = take_margin code margin l
  charge_margin code value (ok none) l = take_margin code value l

  -- The ledger comes back after an error too: the rate that was asked for stays in it.
  unfoldable pub commit_margin :
      Services D
      → SymbolName
      → SymbolCode
      → (quantity market_price : D) → Time
      → OrderSide
      → Option Currency
      → Currency
      → Ledger D
      → Outcome (Unit {0}) × Ledger D
  commit_margin sv name code quantity market_price time side base_currency position_currency l =
      let (rate, rated) = margin_rate sv position_currency time side l in
      let required =
        sv.margin_required l.account.brokerage name quantity market_price l.currency base_currency
          position_currency rate in
      charge_margin code (quantity ⊗ market_price ⊗ rate) required rated

  -- The rate between the account's and a position's currency; a fresh one is remembered.
  unfoldable pub booking_rate : Services D → Currency → Time → OrderSide → Ledger D → D × Ledger D
  unfolding get_exchange_multiplier
  booking_rate sv pnl_currency time side l =
      let asked : D × Ledger D = elim (sv.exchange_rate l.currency pnl_currency time side) [
        | some rate ↦ (rate, record l { rates = insert pnl_currency rate l.rates })
        | none ↦ (get_exchange_multiplier pnl_currency l, l)
      ] in
      if l.currency == pnl_currency then (d.dec 1, l) else asked

  -- `symbol_closed_pnl.entry(code).and_modify(|pnl| *pnl += booked).or_insert(booked)`, and the cash.
  unfoldable pub book_pnl : SymbolCode → (booked_pnl : D) → Ledger D → Ledger D
  book_pnl code booked_pnl l =
      let closed_pnl : D = elim (lookup code l.symbol_closed_pnl) [
        | some pnl ↦ pnl ⊕ booked_pnl
        | none ↦ booked_pnl
      ] in
      record l {
        symbol_closed_pnl = insert code closed_pnl l.symbol_closed_pnl;
        total_booked_pnl = l.total_booked_pnl ⊕ booked_pnl;
        cash_available = l.cash_available ⊕ booked_pnl;
      }

  -- `self.cash_value = self.cash_used + self.cash_available`
  unfoldable pub settle : Ledger D → Ledger D
  settle l = record l { cash_value = l.cash_used ⊕ l.cash_available }

  -- `positions_closed.entry(code).or_insert_with(Vec::new).push(position)`
  unfoldable pub push_closed : SymbolCode → Position D → Ledger D → Ledger D
  push_closed code p l =
      let before : List (Position D) = elim (lookup code l.positions_closed) [
        | some ps ↦ ps
        | none ↦ []
      ] in
      record l { positions_closed = insert code (push_back before p) l.positions_closed }
