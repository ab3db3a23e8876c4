-- ===== src/Ledger/Paper.antt =====
-- Fills and exits of a ledger that simulates its account
-- (ff_standard_lib/src/strategies/ledgers/historical_ledger.rs). `none` is a panic.
use fund_forge.Base.{Bool, true, false, Option, none, some, List, [], ◌∷◌, String}
use fund_forge.Base.Tests.{◌==◌, if◌then◌else◌, ◌>>=◌, string_eq}
use fund_forge.Base.Dict.{lookup, insert, erase}
use fund_forge.Decimal.{Decimal, ◌⊖◌, min}
use fund_forge.Market.{
  Time, SymbolName, SymbolCode, OrderId, PositionId, Currency, currency_eq, OrderSide, buy, sell,
  PositionSide, long, short, flat, StrategyMode, Brokerage, SymbolInfo,
}
use fund_forge.Position.Types.{Position, PositionUpdateEvent, position_reduced, position_closed}
use fund_forge.Position.Exit.{ExitOrder}
use fund_forge.Position.Update.{reduce_position_size, add_to_position}
use fund_forge.Orders.{OrderUpdateEvent, order_rejected}
use fund_forge.Ledger.State.{
  Ledger, Outcome, ok, err, Services, release_margin_used, commit_margin, booking_rate, book_pnl,
  settle, push_closed,
}

-- The arguments of `update_or_create_paper_position`, with the identifier that the source makes
-- out of a random UUID if it opens a position.
pub record Fill (D : Type 0) : Type 0 where
  pub symbol_name : SymbolName
  pub symbol_code : SymbolCode
  pub quantity : D
  pub side : OrderSide
  pub time : Time
  pub market_fill_price : D
  pub tag : String
  pub order_id : OrderId
  pub new_id : PositionId

-- What a fill sends: the response to the matching engine, and the events to the strategy.
pub record Reply (D : Type 0) : Type 0 where
  pub response : Option (OrderUpdateEvent D)
  pub events : List (PositionUpdateEvent D)

-- How far a fill came with the position that was there before.
pub data Stage (D : Type 0) : Type 0 where
  -- an early return
  stopped : OrderUpdateEvent D → Ledger D → Stage D
  remaining : (quantity : D) → List (PositionUpdateEvent D) → Ledger D → Stage D

-- `OrderSide` of the trades that a position was opened with, and of those that close it.
unfoldable pub entry_side : PositionSide → Option OrderSide
entry_side long = some buy
entry_side short = some sell
entry_side flat = none

unfoldable pub exit_side : PositionSide → Option OrderSide
exit_side long = some sell
exit_side short = some buy
exit_side flat = none

unfoldable pub position_side : OrderSide → PositionSide
position_side buy = long
position_side sell = short

unfoldable pub is_reducing : PositionSide → OrderSide → Bool
is_reducing long sell = true
is_reducing short buy = true
is_reducing _ _ = false

module _ {D : Type 0} ⦃d : Decimal D⦄ where
  pub exit_order : Services D → OrderId → (market_price rate : D) → Time → Ledger D → ExitOrder D
  exit_order sv order_id market_price rate time l = record {
    commission_info = sv.commission_info;
    market_price = market_price;
    order_id = order_id;
    account_currency = l.currency;
    exchange_rate = rate;
    time = time;
  }

  -- The information that a ledger knows of a symbol, or asks the brokerage for.
  pub known_info : Services D → SymbolName → Ledger D → Option (SymbolInfo D)
  known_info sv name l = elim (lookup name l.symbol_info) [
    | some info ↦ some info
    | none ↦ sv.brokerage_info l.account.brokerage name
  ]

  -- `Ledger::symbol_info`
  unfoldable pub symbol_info :
      Services D → SymbolName → StrategyMode → Brokerage → Ledger D → Option (SymbolInfo D)
  unfolding known_info
  symbol_info sv name StrategyMode.backtest (Brokerage.rithmic _) l = elim (sv.futures_info name) [
    | some info ↦ info
    | none ↦ known_info sv name l
  ]
  symbol_info sv name StrategyMode.backtest Brokerage.oanda l = sv.oanda_info name
  symbol_info sv name _ _ l = known_info sv name l

  unfoldable pub rejection : Fill D → (reason : String) → Ledger D → OrderUpdateEvent D
  rejection f reason l =
      order_rejected l.account f.symbol_name f.symbol_code f.order_id reason f.tag f.time

  -- The bookings of `paper_exit_position`; only the closing of the position is expected.
  unfoldable pub book_exit_event :
      SymbolCode → Position D → PositionUpdateEvent D → Ledger D → Option (Ledger D)
  book_exit_event code p (position_closed _ _ _ _ booked_pnl _) l =
      some (push_closed code p (settle (book_pnl code booked_pnl l)))
  book_exit_event _ _ _ _ = none

  -- The side that a rate is asked for. The source looks at it only if the currencies differ.
  pub exit_rate_side : Currency → Position D → Option OrderSide
  unfolding entry_side
  exit_rate_side currency p =
      if currency == p.symbol_info.pnl_currency then some buy else entry_side p.side

  -- The exit of a position that has been taken out of the map.
  unfoldable pub exit_removed :
      Services D
      → OrderId
      → SymbolCode
      → Time
      → (market_price : D) → (tag : String) → Position D
      → Ledger D
      → Option (List (PositionUpdateEvent D) × Ledger D)
  unfolding exit_order exit_rate_side
  exit_removed sv order_id code time market_price tag p l = do
    let released = release_margin_used code l
    side ← exit_rate_side l.currency p
    let (rate, rated) = booking_rate sv p.symbol_info.pnl_currency time side released
    (p', event) ←
        reduce_position_size (exit_order sv order_id market_price rate time rated) p.quantity_open
          tag (record p { is_closed = true })
    booked ← book_exit_event code p' event rated
    some (event ∷ [], booked)

  unfoldable pub paper_exit_position :
      Services D
      → OrderId
      → SymbolCode
      → Time
      → (market_price : D) → (tag : String) → Ledger D
      → Option (List (PositionUpdateEvent D) × Ledger D)
  paper_exit_position sv order_id code time market_price tag l = elim (lookup code l.positions) [
    | none ↦ some ([], l)
    | some p ↦
        exit_removed sv order_id code time market_price tag p
          (record l { positions = erase code l.positions })
  ]

  -- A reduced position goes back into the map once its margin is committed; `unwrap` panics if not.
  unfoldable pub put_back :
      SymbolCode → Position D → (booked_pnl : D) → Outcome (Unit {0}) → Ledger D → Option (Ledger D)
  put_back code p booked_pnl (err _) l = none
  put_back code p booked_pnl (ok _) l =
      some (book_pnl code booked_pnl (record l { positions = insert code p l.positions }))

  -- What follows a reduction: the margin of the rest is committed anew, or the position is closed.
  unfoldable pub after_reduction :
      Services D → Fill D → Position D → PositionUpdateEvent D → Ledger D → Option (Ledger D)
  after_reduction sv f p (position_reduced _ _ _ _ _ booked_pnl _) l =
      let released = release_margin_used f.symbol_code l in
      let (outcome, after) =
        commit_margin sv f.symbol_name f.symbol_code p.quantity_open p.average_price f.time f.side
          p.symbol_info.base_currency p.symbol_info.pnl_currency released in
      put_back f.symbol_code p booked_pnl outcome after
  after_reduction sv f p (position_closed _ _ _ _ booked_pnl _) l = some (
      push_closed f.symbol_code p
        (book_pnl f.symbol_code booked_pnl (release_margin_used f.symbol_code l)))
  after_reduction _ _ _ _ _ = none

  -- The fill meets a position of the other side.
  unfoldable pub reduce_existing : Services D → Fill D → Position D → Ledger D → Option (Stage D)
  unfolding exit_order
  reduce_existing sv f p l = do
    let (rate, rated) = booking_rate sv p.symbol_info.pnl_currency f.time f.side l
    (p', event) ←
        reduce_position_size (exit_order sv f.order_id f.market_fill_price rate f.time rated)
          (min f.quantity p.quantity_open) f.tag p
    booked ← after_reduction sv f p' event rated
    some (remaining (f.quantity ⊖ p.quantity_open) (event ∷ []) (settle booked))

  -- The addition, if its margin has been committed. If the margin is rejected, the position has
  -- left the map and does not come back.
  unfoldable pub add_committed :
      Fill D → Position D → Outcome (Unit {0}) → Ledger D → Option (Stage D)
  add_committed f p (err reason) l = some (stopped (rejection f reason l) l)
  add_committed f p (ok _) l = do
    (p', event) ←
        add_to_position l.mode l.is_simulating_pnl f.order_id l.currency f.market_fill_price
          f.quantity f.time f.tag p
    some (
        remaining (d.dec 0) (event ∷ [])
          (settle (record l { positions = insert f.symbol_code p' l.positions })))

  -- The fill meets a position of its own side, which is no longer in the map.
  unfoldable pub add_to_existing : Services D → Fill D → Position D → Ledger D → Option (Stage D)
  add_to_existing sv f p l =
      let (outcome, after) =
        commit_margin sv f.symbol_name f.symbol_code f.quantity f.market_fill_price f.time f.side
          p.symbol_info.base_currency p.symbol_info.pnl_currency l in
      add_committed f p outcome after

  unfoldable pub meet_existing : Services D → Fill D → Ledger D → Option (Stage D)
  unfolding is_reducing
  meet_existing sv f l = elim (lookup f.symbol_code l.positions) [
    | none ↦ some (remaining f.quantity [] l)
    | some p ↦
        let removed = record l { positions = erase f.symbol_code l.positions } in
        if is_reducing p.side f.side
        then reduce_existing sv f p removed
        else add_to_existing sv f p removed
  ]
