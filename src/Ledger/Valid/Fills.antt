-- ===== src/Ledger/Valid/Fills.antt =====
-- The invariant of the positions of a ledger, and fills
-- (ff_standard_lib/src/strategies/ledgers/historical_ledger.rs).
use fund_forge.Base.{◌≡◌, sym, ◌∙◌, inl, inr, true}
use mathlib.Core.Path.{subst}
use fund_forge.Base.Tests.{Option-cases, Always, >>=-Always, if-Always, Always-intro, string_eq}
use fund_forge.Base.Dict.{lookup, erase}
use fund_forge.Decimal.{Decimal, IsExact, ◌≺◌, min}
use fund_forge.Market.{SymbolCode}
use fund_forge.Position.Types.{
  Position, PositionUpdateEvent, position_opened, increased, position_reduced, position_closed,
}
use fund_forge.Position.Valid.{IsValid, add-IsValid}
use fund_forge.Position.Update.{reduce_position_size, add_to_position}
use fund_forge.Ledger.State.{
  Ledger, Outcome, ok, err, Services, release_margin_used, commit_margin, booking_rate, book_pnl,
  settle, push_closed,
}
use fund_forge.Ledger.Paper.{
  Fill, Reply, Stage, stopped, remaining, is_reducing, exit_order, put_back, after_reduction,
  reduce_existing, add_committed, add_to_existing, meet_existing,
}
use fund_forge.Ledger.Rejected.{positions-commit_margin}
use fund_forge.Ledger.Valid.{
  HoldsValid, insert-HoldsValid, erase-HoldsValid, positions-release, positions-booking_rate,
  exit_nonneg, reduced-IsValid,
}

module _ {D : Type 0} ⦃d : Decimal D⦄ where
  abbrev pub LedgerValid : Ledger D → Type 0
  LedgerValid l = HoldsValid l.positions

  abbrev pub StageValid : Stage D → Type 0
  StageValid (stopped _ l) = LedgerValid l
  StageValid (remaining _ _ l) = LedgerValid l

  abbrev pub ReplyValid : Reply D × Ledger D → Type 0
  ReplyValid r = LedgerValid r.1

  put_back-LedgerValid :
      (code : SymbolCode) (p : Position D) (booked : D) (outcome : Outcome (Unit {0}))
      (l : Ledger D)
      → IsValid p
      → LedgerValid l
      → Always LedgerValid (put_back code p booked outcome l)
  unfolding put_back book_pnl
  put_back-LedgerValid code p booked (err _) l v h = tt
  put_back-LedgerValid code p booked (ok _) l v h = insert-HoldsValid code p l.positions v h

  after-LedgerValid :
      (sv : Services D) (f : Fill D) (p : Position D) (event : PositionUpdateEvent D) (l : Ledger D)
      → IsValid p
      → LedgerValid l
      → Always LedgerValid (after_reduction sv f p event l)
  unfolding after_reduction push_closed book_pnl
  after-LedgerValid sv f p (position_closed _ _ _ _ booked _) l v h =
      subst HoldsValid (sym (positions-release f.symbol_code l)) h
  after-LedgerValid sv f p (position_opened _ _) l v h = tt
  after-LedgerValid sv f p (increased _ _ _ _ _) l v h = tt
  after-LedgerValid sv f p (position_reduced _ _ _ _ _ booked _) l v h =
      let released = release_margin_used f.symbol_code l in
      let margin =
        commit_margin sv f.symbol_name f.symbol_code p.quantity_open p.average_price f.time f.side
          p.symbol_info.base_currency p.symbol_info.pnl_currency released in
      put_back-LedgerValid f.symbol_code p booked margin.0 margin.1 v (
        subst HoldsValid
          (sym (
            positions-commit_margin sv f.symbol_name f.symbol_code p.quantity_open p.average_price
              f.time f.side p.symbol_info.base_currency p.symbol_info.pnl_currency released
            ∙ positions-release f.symbol_code l))
          h)

  add_committed-StageValid :
      (ex : IsExact d) (f : Fill D) (p : Position D) (outcome : Outcome (Unit {0})) (l : Ledger D)
      → (d.dec 0 ≺ f.quantity) ≡ true
      → IsValid p
      → LedgerValid l
      → Always StageValid (add_committed f p outcome l)
  unfolding add_committed settle
  add_committed-StageValid ex f p (err reason) l q v h = h
  add_committed-StageValid ex f p (ok _) l q v h =
      let added =
        add_to_position l.mode l.is_simulating_pnl f.order_id l.currency f.market_fill_price
          f.quantity f.time f.tag p in
      >>=-Always (λ r. IsValid r.0) StageValid added _
        (Always-intro (λ r. IsValid r.0) added
          λ r e.
            (add-IsValid ex l.mode l.is_simulating_pnl f.order_id l.currency f.market_fill_price
              f.quantity f.time f.tag p r.0 r.1 v q e).0)
        λ r valid. insert-HoldsValid f.symbol_code r.0 l.positions valid h

  module _ (ex : IsExact d) where
    reduce-StageValid :
        (sv : Services D) (f : Fill D) (p : Position D) (l : Ledger D)
        → (d.dec 0 ≺ f.quantity) ≡ true
        → IsValid p
        → LedgerValid l
        → Always StageValid (reduce_existing sv f p l)
    unfolding reduce_existing settle
    reduce-StageValid sv f p l q v h =
        let rated = booking_rate sv p.symbol_info.pnl_currency f.time f.side l in
        let x = exit_order sv f.order_id f.market_fill_price rated.0 f.time rated.1 in
        let quantity = min f.quantity p.quantity_open in
        >>=-Always (λ r. IsValid r.0) StageValid (reduce_position_size x quantity f.tag p) _
          (reduced-IsValid ex x quantity f.tag p v (exit_nonneg ex f.quantity p v q))
          λ reduced valid.
            >>=-Always LedgerValid StageValid (after_reduction sv f reduced.0 reduced.1 rated.1) _
              (after-LedgerValid sv f reduced.0 reduced.1 rated.1 valid (
                subst HoldsValid
                  (sym (positions-booking_rate sv p.symbol_info.pnl_currency f.time f.side l)) h))
              λ booked holds. holds

    add-StageValid :
        (sv : Services D) (f : Fill D) (p : Position D) (l : Ledger D)
        → (d.dec 0 ≺ f.quantity) ≡ true
        → IsValid p
        → LedgerValid l
        → Always StageValid (add_to_existing sv f p l)
    unfolding add_to_existing
    add-StageValid sv f p l q v h =
        let margin =
          commit_margin sv f.symbol_name f.symbol_code f.quantity f.market_fill_price f.time f.side
            p.symbol_info.base_currency p.symbol_info.pnl_currency l in
        add_committed-StageValid ex f p margin.0 margin.1 q v (
          subst HoldsValid
            (sym (
              positions-commit_margin sv f.symbol_name f.symbol_code f.quantity f.market_fill_price
                f.time f.side p.symbol_info.base_currency p.symbol_info.pnl_currency l))
            h)

    pub meet-StageValid :
        (sv : Services D) (f : Fill D) (l : Ledger D)
        → (d.dec 0 ≺ f.quantity) ≡ true
        → LedgerValid l
        → Always StageValid (meet_existing sv f l)
    unfolding meet_existing HoldsValid
    meet-StageValid sv f l q h = elim (Option-cases (lookup f.symbol_code l.positions)) [
      | inl absent ↦ rw (meet_existing, absent) h
      | inr (p, found) ↦
          let removed = record l { positions = erase f.symbol_code l.positions } in
          let left = erase-HoldsValid f.symbol_code l.positions h in
          let v = h f.symbol_code p found in
          rw (meet_existing, found)
            (if-Always StageValid (is_reducing p.side f.side) (reduce_existing sv f p removed)
              (add_to_existing sv f p removed) (reduce-StageValid sv f p removed q v left)
              (add-StageValid sv f p removed q v left))
    ]
