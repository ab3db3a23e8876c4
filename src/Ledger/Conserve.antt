-- ===== src/Ledger/Conserve.antt =====
-- The exits and fills of a simulated ledger, and its cash
-- (ff_standard_lib/src/strategies/ledgers/historical_ledger.rs and ledger.rs).
use fund_forge.Base.{◌≡◌, refl, ◌∙◌, true, none, List, String}
use fund_forge.Base.Tests.{
  ◌>>=◌, Always, >>=-Always, >>=-Always_any, if-Always, Always-map, elim-Always, string_eq,
}
use fund_forge.Base.Dict.{lookup, insert, erase}
use fund_forge.Decimal.{Decimal, IsExact, ◌≺◌, min}
use fund_forge.Market.{Time, SymbolCode, OrderId, SymbolInfo}
use fund_forge.Position.Types.{
  Position, PositionUpdateEvent, position_opened, increased, position_reduced, position_closed,
}
use fund_forge.Position.Update.{is_not_live, reduce_position_size, add_to_position}
use fund_forge.Ledger.State.{
  Ledger, Outcome, ok, err, Services, release_margin_used, commit_margin, booking_rate, book_pnl,
  settle, push_closed,
}
use fund_forge.Ledger.Paper.{
  Fill, Reply, Stage, stopped, remaining, is_reducing, symbol_info, put_back, after_reduction,
  reduce_existing, add_committed, add_to_existing, meet_existing, book_exit_event, exit_order,
  exit_rate_side, exit_removed, paper_exit_position,
}
use fund_forge.Ledger.Messages.{
  insert_opened, open_committed, open_new, finish_fill, update_or_create_paper_position,
}
use fund_forge.Ledger.Cash.{
  capital, capital-release, capital-commit_margin, capital-booking_rate, capital-book_pnl,
}

module _ {D : Type 0} ⦃d : Decimal D⦄ where
  -- The ledger of a result has the capital of `l`.
  abbrev pub Keeps : Ledger D → Ledger D → Type 0
  Keeps l l' = capital l' ≡ capital l

  abbrev stage_ledger : Stage D → Ledger D
  stage_ledger (stopped _ l) = l
  stage_ledger (remaining _ _ l) = l

  abbrev StageKeeps : Ledger D → Stage D → Type 0
  StageKeeps l stage = Keeps l (stage_ledger stage)

  abbrev pub SendKeeps : Ledger D → List (PositionUpdateEvent D) × Ledger D → Type 0
  SendKeeps l r = Keeps l r.1

  abbrev pub ReplyKeeps : Ledger D → Reply D × Ledger D → Type 0
  ReplyKeeps l r = Keeps l r.1

module _ {D : Type 0} ⦃d : Decimal D⦄ (ex : IsExact d) where
  book-Keeps :
      (code : SymbolCode) (p : Position D) (event : PositionUpdateEvent D) (l : Ledger D)
      → Always (Keeps l) (book_exit_event code p event l)
  unfolding book_exit_event push_closed settle
  book-Keeps code p (position_closed _ _ _ _ booked _) l = capital-book_pnl ex code booked l
  book-Keeps code p (position_opened _ _) l = tt
  book-Keeps code p (increased _ _ _ _ _) l = tt
  book-Keeps code p (position_reduced _ _ _ _ _ _ _) l = tt

  exit_removed-Keeps :
      (sv : Services D) (order : OrderId) (code : SymbolCode) (time : Time) (price : D)
      (tag : String) (p : Position D) (l : Ledger D)
      → Always (SendKeeps l) (exit_removed sv order code time price tag p l)
  unfolding exit_removed
  exit_removed-Keeps sv order code time price tag p l =
      let released = release_margin_used code l in
      >>=-Always_any (SendKeeps l) (exit_rate_side l.currency p) _ λ side.
        let rated = booking_rate sv p.symbol_info.pnl_currency time side released in
        let x = exit_order sv order price rated.0 time rated.1 in
        >>=-Always_any (SendKeeps l)
          (reduce_position_size x p.quantity_open tag (record p { is_closed = true })) _
          λ reduced.
            >>=-Always (Keeps rated.1) (SendKeeps l)
              (book_exit_event code reduced.0 reduced.1 rated.1) _
              (book-Keeps code reduced.0 reduced.1 rated.1)
              λ booked same.
                same
                ∙ capital-booking_rate ex sv p.symbol_info.pnl_currency time side released
                ∙ capital-release ex code l

  pub exit-Keeps :
      (sv : Services D) (order : OrderId) (code : SymbolCode) (time : Time) (price : D)
      (tag : String) (l : Ledger D)
      → Always (SendKeeps l) (paper_exit_position sv order code time price tag l)
  unfolding paper_exit_position
  exit-Keeps sv order code time price tag l =
      elim-Always (SendKeeps l) (lookup code l.positions) _ _ refl λ p.
        exit_removed-Keeps sv order code time price tag p
          (record l { positions = erase code l.positions })

  put_back-Keeps :
      (code : SymbolCode) (p : Position D) (booked : D) (outcome : Outcome (Unit {0}))
      (l : Ledger D)
      → Always (Keeps l) (put_back code p booked outcome l)
  unfolding put_back
  put_back-Keeps code p booked (err _) l = tt
  put_back-Keeps code p booked (ok _) l =
      capital-book_pnl ex code booked (record l { positions = insert code p l.positions })

  after-Keeps :
      (sv : Services D) (f : Fill D) (p : Position D) (event : PositionUpdateEvent D) (l : Ledger D)
      → Always (Keeps l) (after_reduction sv f p event l)
  unfolding after_reduction push_closed book_pnl
  after-Keeps sv f p (position_closed _ _ _ _ booked _) l =
      capital-book_pnl ex f.symbol_code booked (release_margin_used f.symbol_code l)
      ∙ capital-release ex f.symbol_code l
  after-Keeps sv f p (position_opened _ _) l = tt
  after-Keeps sv f p (increased _ _ _ _ _) l = tt
  after-Keeps sv f p (position_reduced _ _ _ _ _ booked _) l =
      let released = release_margin_used f.symbol_code l in
      let margin =
        commit_margin sv f.symbol_name f.symbol_code p.quantity_open p.average_price f.time f.side
          p.symbol_info.base_currency p.symbol_info.pnl_currency released in
      Always-map (Keeps margin.1) (Keeps l) _
        (put_back-Keeps f.symbol_code p booked margin.0 margin.1)
        λ after same.
          same
          ∙ capital-commit_margin ex sv f.symbol_name f.symbol_code p.quantity_open p.average_price
              f.time f.side p.symbol_info.base_currency p.symbol_info.pnl_currency released
          ∙ capital-release ex f.symbol_code l

  reduce-Keeps :
      (sv : Services D) (f : Fill D) (p : Position D) (l : Ledger D)
      → Always (StageKeeps l) (reduce_existing sv f p l)
  unfolding reduce_existing settle
  reduce-Keeps sv f p l =
      let rated = booking_rate sv p.symbol_info.pnl_currency f.time f.side l in
      let x = exit_order sv f.order_id f.market_fill_price rated.0 f.time rated.1 in
      >>=-Always_any (StageKeeps l)
        (reduce_position_size x (min f.quantity p.quantity_open) f.tag p) _
        λ reduced.
          >>=-Always (Keeps rated.1) (StageKeeps l)
            (after_reduction sv f reduced.0 reduced.1 rated.1) _
            (after-Keeps sv f reduced.0 reduced.1 rated.1)
            λ booked same.
              same ∙ capital-booking_rate ex sv p.symbol_info.pnl_currency f.time f.side l

  add_committed-Keeps :
      (f : Fill D) (p : Position D) (outcome : Outcome (Unit {0})) (l : Ledger D)
      → Always (StageKeeps l) (add_committed f p outcome l)
  unfolding add_committed settle
  add_committed-Keeps f p (err reason) l = refl
  add_committed-Keeps f p (ok _) l =
      >>=-Always_any (StageKeeps l)
        (add_to_position l.mode l.is_simulating_pnl f.order_id l.currency f.market_fill_price
          f.quantity f.time f.tag p)
        _ λ _. refl

  add-Keeps :
      (sv : Services D) (f : Fill D) (p : Position D) (l : Ledger D)
      → Always (StageKeeps l) (add_to_existing sv f p l)
  unfolding add_to_existing
  add-Keeps sv f p l =
      let margin =
        commit_margin sv f.symbol_name f.symbol_code f.quantity f.market_fill_price f.time f.side
          p.symbol_info.base_currency p.symbol_info.pnl_currency l in
      Always-map (StageKeeps margin.1) (StageKeeps l) _ (add_committed-Keeps f p margin.0 margin.1)
        λ stage same.
          same
          ∙ capital-commit_margin ex sv f.symbol_name f.symbol_code f.quantity f.market_fill_price
              f.time f.side p.symbol_info.base_currency p.symbol_info.pnl_currency l

  meet-Keeps :
      (sv : Services D) (f : Fill D) (l : Ledger D) → Always (StageKeeps l) (meet_existing sv f l)
  unfolding meet_existing
  meet-Keeps sv f l = elim-Always (StageKeeps l) (lookup f.symbol_code l.positions) _ _ refl λ p.
      let removed = record l { positions = erase f.symbol_code l.positions } in
      if-Always (StageKeeps l) (is_reducing p.side f.side) (reduce_existing sv f p removed)
        (add_to_existing sv f p removed) (reduce-Keeps sv f p removed) (add-Keeps sv f p removed)

  open_committed-Keeps :
      (sv : Services D) (f : Fill D) (info : SymbolInfo D) (quantity : D)
      (events : List (PositionUpdateEvent D)) (outcome : Outcome (Unit {0})) (l : Ledger D)
      → Keeps l (open_committed sv f info quantity events outcome l).1
  unfolding open_committed settle insert_opened
  open_committed-Keeps sv f info quantity events (err reason) l = refl
  open_committed-Keeps sv f info quantity events (ok _) l =
      capital-booking_rate ex sv info.pnl_currency f.time f.side l

  open-Keeps :
      (sv : Services D) (f : Fill D) (quantity : D) (events : List (PositionUpdateEvent D))
      (l : Ledger D)
      → Always (ReplyKeeps l) (open_new sv f quantity events l)
  unfolding open_new
  open-Keeps sv f quantity events l =
      >>=-Always_any (ReplyKeeps l) (symbol_info sv f.symbol_name l.mode l.account.brokerage l) _
        λ info.
          let margin =
            commit_margin sv f.symbol_name f.symbol_code f.quantity f.market_fill_price f.time
              f.side info.base_currency info.pnl_currency l in
          open_committed-Keeps sv f info quantity events margin.0 margin.1
          ∙ capital-commit_margin ex sv f.symbol_name f.symbol_code f.quantity f.market_fill_price
              f.time f.side info.base_currency info.pnl_currency l

  finish-Keeps :
      (sv : Services D) (f : Fill D) (stage : Stage D)
      → Always (ReplyKeeps (stage_ledger stage)) (finish_fill sv f stage)
  unfolding finish_fill
  finish-Keeps sv f (stopped response l) = refl
  finish-Keeps sv f (remaining quantity events l) =
      if-Always (ReplyKeeps l) (d.dec 0 ≺ quantity) (open_new sv f quantity events l) _
        (open-Keeps sv f quantity events l) refl

  -- A fill, whether it opens, enlarges, reduces, closes or flips a position or is rejected, changes
  -- the balance by what it books.
  pub fill-Keeps :
      (sv : Services D) (f : Fill D) (l : Ledger D)
      → Always (ReplyKeeps l) (update_or_create_paper_position sv f l)
  unfolding update_or_create_paper_position
  fill-Keeps sv f l =
      if-Always (ReplyKeeps l) (is_not_live l.mode) (meet_existing sv f l >>= finish_fill sv f) none
        (>>=-Always (StageKeeps l) (ReplyKeeps l) (meet_existing sv f l) (finish_fill sv f)
          (meet-Keeps sv f l)
          λ stage same.
            Always-map (ReplyKeeps (stage_ledger stage)) (ReplyKeeps l) _ (finish-Keeps sv f stage)
              λ r same'. same' ∙ same)
        tt
