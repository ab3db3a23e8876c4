-- ===== src/Ledger/Valid/Openings.antt =====
-- The invariant of the positions of a ledger, and fills that open one
-- (ff_standard_lib/src/strategies/ledgers/historical_ledger.rs).
use mathlib.Core.Path.{subst}
use fund_forge.Base.{◌≡◌, sym, inl, inr, true, none, List}
use fund_forge.Base.Tests.{◌>>=◌, Bool-cases, Always, >>=-Always, >>=-Always_any, if-Always}
use fund_forge.Decimal.{Decimal, IsExact, ◌≺◌}
use fund_forge.Market.{SymbolInfo}
use fund_forge.Position.Types.{PositionUpdateEvent}
use fund_forge.Position.Valid.{IsValid, new-IsValid}
use fund_forge.Position.Update.{is_not_live}
use fund_forge.Ledger.State.{
  Ledger, Outcome, ok, err, Services, commit_margin, booking_rate, settle,
}
use fund_forge.Ledger.Paper.{
  Fill, Stage, stopped, remaining, position_side, symbol_info, meet_existing,
}
use fund_forge.Ledger.Messages.{
  opened, insert_opened, open_committed, open_new, finish_fill, update_or_create_paper_position,
}
use fund_forge.Ledger.Rejected.{positions-commit_margin}
use fund_forge.Ledger.Valid.{HoldsValid, insert-HoldsValid, positions-booking_rate}
use fund_forge.Ledger.Valid.Fills.{LedgerValid, StageValid, ReplyValid, meet-StageValid}

module _ {D : Type 0} ⦃d : Decimal D⦄ (ex : IsExact d) where
  opened-IsValid :
      (f : Fill D) (info : SymbolInfo D) (rate quantity : D) (l : Ledger D)
      → (d.dec 0 ≺ quantity) ≡ true
      → IsValid (opened f info rate quantity l)
  unfolding opened
  opened-IsValid f info rate quantity l h =
      new-IsValid ex f.symbol_name f.symbol_code f.order_id l.account (position_side f.side)
        quantity f.market_fill_price f.new_id info rate f.tag f.time l.position_calculation_mode h

  open_committed-ReplyValid :
      (sv : Services D) (f : Fill D) (info : SymbolInfo D) (quantity : D)
      (events : List (PositionUpdateEvent D)) (outcome : Outcome (Unit {0})) (l : Ledger D)
      → (d.dec 0 ≺ quantity) ≡ true
      → LedgerValid l
      → ReplyValid (open_committed sv f info quantity events outcome l)
  unfolding open_committed settle insert_opened
  open_committed-ReplyValid sv f info quantity events (err reason) l q h = h
  open_committed-ReplyValid sv f info quantity events (ok _) l q h =
      let rated = booking_rate sv info.pnl_currency f.time f.side l in
      insert-HoldsValid f.symbol_code (opened f info rated.0 quantity rated.1) rated.1.positions
        (opened-IsValid f info rated.0 quantity rated.1 q)
        (subst HoldsValid (sym (positions-booking_rate sv info.pnl_currency f.time f.side l)) h)

  open-ReplyValid :
      (sv : Services D) (f : Fill D) (quantity : D) (events : List (PositionUpdateEvent D))
      (l : Ledger D)
      → (d.dec 0 ≺ quantity) ≡ true
      → LedgerValid l
      → Always ReplyValid (open_new sv f quantity events l)
  unfolding open_new
  open-ReplyValid sv f quantity events l q h =
      >>=-Always_any ReplyValid (symbol_info sv f.symbol_name l.mode l.account.brokerage l) _
        λ info.
          let margin =
            commit_margin sv f.symbol_name f.symbol_code f.quantity f.market_fill_price f.time
              f.side info.base_currency info.pnl_currency l in
          open_committed-ReplyValid sv f info quantity events margin.0 margin.1 q (
            subst HoldsValid
              (sym (
                positions-commit_margin sv f.symbol_name f.symbol_code f.quantity
                  f.market_fill_price f.time f.side info.base_currency info.pnl_currency l))
              h)

  finish-ReplyValid :
      (sv : Services D) (f : Fill D) (stage : Stage D)
      → StageValid stage
      → Always ReplyValid (finish_fill sv f stage)
  unfolding finish_fill
  finish-ReplyValid sv f (stopped response l) h = h
  finish-ReplyValid sv f (remaining quantity events l) h = elim (Bool-cases (d.dec 0 ≺ quantity)) [
    | inl more ↦ rw (finish_fill, more) (open-ReplyValid sv f quantity events l more h)
    | inr done ↦ rw (finish_fill, done) h
  ]

  pub fill-ReplyValid :
      (sv : Services D) (f : Fill D) (l : Ledger D)
      → (d.dec 0 ≺ f.quantity) ≡ true
      → LedgerValid l
      → Always ReplyValid (update_or_create_paper_position sv f l)
  unfolding update_or_create_paper_position
  fill-ReplyValid sv f l q h =
      if-Always ReplyValid (is_not_live l.mode) (meet_existing sv f l >>= finish_fill sv f) none
        (>>=-Always StageValid ReplyValid (meet_existing sv f l) (finish_fill sv f)
          (meet-StageValid ex sv f l q h) λ stage holds. finish-ReplyValid sv f stage holds)
        tt
