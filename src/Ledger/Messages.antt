-- ===== src/Ledger/Messages.antt =====
-- The opening of positions, the valuation at market data, and the messages that a ledger receives
-- (ff_standard_lib/src/strategies/ledgers/historical_ledger.rs and ledger.rs). `none` is a panic.
use mathlib.Core.List.{◌++◌}
use fund_forge.Base.{Bool, false, ◌||◌, Option, none, some, List, [], ◌∷◌, String}
use fund_forge.Base.Tests.{◌==◌, if◌then◌else◌, ◌>>=◌, string_eq}
use fund_forge.Base.Lists.{push_back}
use fund_forge.Base.Dict.{Dict, lookup, insert}
use fund_forge.Decimal.{Decimal, ◌≺◌}
use fund_forge.Market.{Time, SymbolName, SymbolCode, OrderId, SymbolInfo}
use fund_forge.BaseData.{BaseData, TimeSlice, symbol}
use fund_forge.Position.Types.{Position, PositionUpdateEvent, position_opened, new, origin}
use fund_forge.Position.Update.{is_not_live, update_base_data}
use fund_forge.Ledger.State.{
  Ledger, Outcome, ok, err, Services, commit_margin, booking_rate, settle,
}
use fund_forge.Ledger.Paper.{
  Fill, Reply, Stage, stopped, remaining, position_side, exit_side, symbol_info, rejection,
  meet_existing, paper_exit_position,
}

-- The list of a key, which an empty list is entered for if the key is not there.
unfoldable pub entry {ℓ} : {V : Type ℓ} → String → Dict String (List V) → List V
entry k m = elim (lookup k m) [ some vs ↦ vs | none ↦ [] ]

unfoldable pub contains : String → List String → Bool
contains s [] = false
contains s (t ∷ ts) = s == t || contains s ts

-- The codes of a symbol after a position has been opened. The code is entered twice if it is new.
unfoldable pub map_codes :
    SymbolName → SymbolCode → Dict SymbolName (List SymbolCode) → Dict SymbolName (List SymbolCode)
unfolding entry contains
map_codes name code m =
    let codes = entry name m in
    let once = if contains code codes then codes else push_back codes code in
    if name == code then m else insert name (push_back once code) m

module _ {D : Type 0} ⦃d : Decimal D⦄ where
  -- The position that a fill opens.
  unfoldable pub opened : Fill D → SymbolInfo D → (rate quantity : D) → Ledger D → Position D
  unfolding position_side
  opened f info rate quantity l =
      new f.symbol_name f.symbol_code f.order_id l.account (position_side f.side) quantity
        f.market_fill_price f.new_id info rate f.tag f.time l.position_calculation_mode

  unfoldable pub insert_opened : Fill D → Position D → Ledger D → Ledger D
  unfolding map_codes entry
  insert_opened f p l = record l {
    positions = insert f.symbol_code p l.positions;
    positions_closed =
        insert f.symbol_code (entry f.symbol_code l.positions_closed) l.positions_closed;
    symbol_code_map = map_codes f.symbol_name f.symbol_code l.symbol_code_map;
  }

  -- The opening of a position, if its margin has been committed. If it is rejected, the events
  -- that the fill has caused so far are not sent.
  unfoldable pub open_committed :
      Services D
      → Fill D
      → SymbolInfo D
      → (remaining_quantity : D) → List (PositionUpdateEvent D)
      → Outcome (Unit {0})
      → Ledger D
      → Reply D × Ledger D
  open_committed sv f info remaining_quantity events (err reason) l =
      (record { response = some (rejection f reason l); events = [] }, l)
  open_committed sv f info remaining_quantity events (ok _) l =
      let (rate, rated) = booking_rate sv info.pnl_currency f.time f.side l in
      let p = opened f info rate remaining_quantity rated in
      let event = position_opened (origin p f.tag f.time) f.market_fill_price in
      (
        record { response = none; events = push_back events event },
        settle (insert_opened f p rated),
      )

  -- The margin is that of the whole fill, whatever part of it is left to open a position with.
  unfoldable pub open_new :
      Services D
      → Fill D
      → (remaining_quantity : D) → List (PositionUpdateEvent D)
      → Ledger D
      → Option (Reply D × Ledger D)
  open_new sv f remaining_quantity events l = do
    info ← symbol_info sv f.symbol_name l.mode l.account.brokerage l
    let (outcome, after) =
        commit_margin sv f.symbol_name f.symbol_code f.quantity f.market_fill_price f.time f.side
          info.base_currency info.pnl_currency l
    some (open_committed sv f info remaining_quantity events outcome after)

  -- What is left of a fill opens a new position.
  unfoldable pub finish_fill : Services D → Fill D → Stage D → Option (Reply D × Ledger D)
  finish_fill sv f (stopped response l) = some (record { response = some response; events = [] }, l)
  finish_fill sv f (remaining quantity events l) =
      if d.dec 0 ≺ quantity
      then open_new sv f quantity events l
      else some (record { response = none; events = events }, l)

  unfoldable pub update_or_create_paper_position :
      Services D → Fill D → Ledger D → Option (Reply D × Ledger D)
  update_or_create_paper_position sv f l =
      if is_not_live l.mode then meet_existing sv f l >>= finish_fill sv f else none

  -- The exit of one of the positions that were there when the flattening began.
  unfoldable pub flatten_one :
      Services D
      → Time
      → SymbolCode × Position D
      → Ledger D
      → Option (List (PositionUpdateEvent D) × Ledger D)
  flatten_one sv time (code, p) l = do
    side ← exit_side p.side
    asked ← sv.fill_price side p.symbol_name code p.quantity_open
    elim asked [
      | none ↦ some ([], l)
      | some price ↦ paper_exit_position sv "Flatten All" code time price "Flatten All" l
    ]

  unfoldable pub flatten :
      Services D
      → Time
      → Dict SymbolCode (Position D)
      → Ledger D
      → Option (List (PositionUpdateEvent D) × Ledger D)
  flatten sv time [] l = some ([], l)
  flatten sv time (held ∷ positions) l = do
    (sent, l1) ← flatten_one sv time held l
    (more, l2) ← flatten sv time positions l1
    some (sent ++ more, l2)

  unfoldable pub flatten_all_for_paper_account :
      Services D → Time → Ledger D → Option (List (PositionUpdateEvent D) × Ledger D)
  flatten_all_for_paper_account sv time l = flatten sv time l.positions l

  -- A position's value at new market data.
  unfoldable pub value_position :
      BaseData D → SymbolCode → Position D → Ledger D → Option (Ledger D)
  value_position item code p l = do
    (p', pnl) ← update_base_data item l.currency p
    some (record l {
      positions = insert code p' l.positions;
      open_pnl = insert (symbol item).name pnl l.open_pnl;
    })

  unfoldable pub value_codes : BaseData D → List SymbolCode → Ledger D → Option (Ledger D)
  value_codes item [] l = some l
  value_codes item (code ∷ codes) l =
      elim (lookup code l.positions) [ none ↦ some l | some p ↦ value_position item code p l ]
      >>= value_codes item codes

  -- A position that is kept under the symbol's name. One that is closed is skipped.
  unfoldable pub value_named : BaseData D → Position D → Ledger D → Option (Ledger D)
  value_named item p l =
      let valued = value_position item (symbol item).name p l in
      if p.is_closed
      then some l
      else if is_not_live l.mode || l.is_simulating_pnl
      then valued
      else some l

  unfoldable pub value_item : BaseData D → Ledger D → Option (Ledger D)
  value_item item l = elim (lookup (symbol item).name l.symbol_code_map) [
    | some codes ↦ value_codes item codes l
    | none ↦ elim (lookup (symbol item).name l.positions) [
      | some p ↦ value_named item p l
      | none ↦ some l
    ]
  ]

  unfoldable pub value_items : TimeSlice D → Ledger D → Option (Ledger D)
  value_items [] l = some l
  value_items (item ∷ items) l = value_item item l >>= value_items items

  -- The check for a closed position after its valuation is left out: a valuation closes nothing.
  unfoldable pub timeslice_update : TimeSlice D → Ledger D → Option (Ledger D)
  timeslice_update items l = do
    valued ← value_items items l
    some (if is_not_live valued.mode then settle valued else valued)

  -- `Ledger::update`
  unfoldable pub update : (cash_value cash_available cash_used : D) → Ledger D → Ledger D
  update cash_value cash_available cash_used l = record l {
    cash_value = cash_value;
    cash_available = cash_available;
    cash_used = cash_used;
  }

pub data LedgerMessage (D : Type 0) : Type 0 where
  -- ignored, as its handler is commented out
  sync_position : LedgerMessage D
  update_or_create_position : Fill D → LedgerMessage D
  time_slice_update : TimeSlice D → LedgerMessage D
  live_account_update : (cash_value cash_available cash_used : D) → LedgerMessage D
  exit_paper_position :
      SymbolCode → OrderId → Time → (market_fill_price : D) → (tag : String) → LedgerMessage D
  paper_flatten_all : Time → LedgerMessage D

module _ {D : Type 0} ⦃d : Decimal D⦄ where
  -- A message's handler in the modes Backtest and LivePaperTrading, without what it sends.
  unfoldable pub handle : Services D → LedgerMessage D → Ledger D → Option (Ledger D)
  handle sv sync_position l = some l
  handle sv (update_or_create_position f) l = do
    (_, after) ← update_or_create_paper_position sv f l
    some after
  handle sv (time_slice_update items) l = timeslice_update items l
  handle sv (live_account_update value available used) l = some (update value available used l)
  handle sv (exit_paper_position code order_id time price tag) l = do
    (_, after) ← paper_exit_position sv order_id code time price tag l
    some after
  handle sv (paper_flatten_all time) l = do
    (_, after) ← flatten_all_for_paper_account sv time l
    some after

  -- `while let Some(message) = receiver.recv().await`
  unfoldable pub ledger_updates : Services D → List (LedgerMessage D) → Ledger D → Option (Ledger D)
  ledger_updates sv [] l = some l
  ledger_updates sv (message ∷ messages) l = handle sv message l >>= ledger_updates sv messages
