-- ===== src/Ledger/Rejected.antt =====
-- An addition to a position that the account cannot afford
-- (ff_standard_lib/src/strategies/ledgers/historical_ledger.rs).
use fund_forge.Base.{◌≡◌, refl, ap, ◌∙◌, inl, inr, true, false, Option, none, some, [], String}
use fund_forge.Base.Tests.{◌==◌, ◌>>=◌, Bool-cases, Option-cases, string_eq}
use fund_forge.Base.Dict.{lookup, erase, lookup-erase_self}
use fund_forge.Decimal.{Decimal, ◌≺◌}
use fund_forge.Market.{Time, SymbolName, SymbolCode, Currency, currency_eq, OrderSide}
use fund_forge.Position.Types.{Position}
use fund_forge.Position.Update.{is_not_live}
use fund_forge.Ledger.State.{
  Ledger, Outcome, ok, err, Services, margin_rate, add_margin, take_margin, charge_margin,
  commit_margin,
}
use fund_forge.Ledger.Paper.{
  Fill, stopped, is_reducing, rejection, add_committed, add_to_existing, meet_existing,
}
use fund_forge.Ledger.Messages.{finish_fill, update_or_create_paper_position}

module _ {D : Type 0} ⦃d : Decimal D⦄ where
  positions-margin_rate :
      (sv : Services D) (currency : Currency) (time : Time) (side : OrderSide) (l : Ledger D)
      → (margin_rate sv currency time side l).1.positions ≡ l.positions
  unfolding margin_rate
  positions-margin_rate sv currency time side l = elim (Bool-cases (currency == l.currency)) [
    | inl same ↦ rw same
    | inr other ↦ elim (Option-cases (lookup currency l.rates)) [
      | inl fresh ↦ rw (other, fresh)
      | inr (rate, known) ↦ rw (other, known)
    ]
  ]

  positions-take_margin :
      (code : SymbolCode) (margin : D) (l : Ledger D)
      → (take_margin code margin l).1.positions ≡ l.positions
  unfolding take_margin add_margin
  positions-take_margin code margin l = elim (Bool-cases (l.cash_available ≺ margin)) [
    | inl short_of ↦ rw short_of
    | inr enough ↦ rw enough
  ]

  positions-charge_margin :
      (code : SymbolCode) (value : D) (required : Outcome (Option D)) (l : Ledger D)
      → (charge_margin code value required l).1.positions ≡ l.positions
  unfolding charge_margin
  positions-charge_margin code value (err e) l = refl
  positions-charge_margin code value (ok (some margin)) l = positions-take_margin code margin l
  positions-charge_margin code value (ok none) l = positions-take_margin code value l

  pub positions-commit_margin :
      (sv : Services D) (name : SymbolName) (code : SymbolCode) (quantity price : D) (time : Time)
      (side : OrderSide) (base : Option Currency) (currency : Currency) (l : Ledger D)
      → (commit_margin sv name code quantity price time side base currency l).1.positions
        ≡ l.positions
  unfolding commit_margin
  positions-commit_margin sv name code quantity price time side base currency l =
      positions-charge_margin code _ _ _ ∙ positions-margin_rate sv currency time side l

  -- What a fill asks the ledger for, once the position it adds to has left the map.
  abbrev pub margin_of_addition :
      Services D → Fill D → Position D → Ledger D → Outcome (Unit {0}) × Ledger D
  margin_of_addition sv f p l =
      commit_margin sv f.symbol_name f.symbol_code f.quantity f.market_fill_price f.time f.side
        p.symbol_info.base_currency p.symbol_info.pnl_currency
        (record l { positions = erase f.symbol_code l.positions })

  add-rejected :
      (sv : Services D) (f : Fill D) (p : Position D) (reason : String) (l : Ledger D)
      → let margin =
          commit_margin sv f.symbol_name f.symbol_code f.quantity f.market_fill_price f.time f.side
            p.symbol_info.base_currency p.symbol_info.pnl_currency l in
        margin.0 ≡ err reason
        → add_to_existing sv f p l ≡ some (stopped (rejection f reason margin.1) margin.1)
  unfolding add_to_existing add_committed
  add-rejected sv f p reason l refused =
      let after =
        (commit_margin sv f.symbol_name f.symbol_code f.quantity f.market_fill_price f.time f.side
          p.symbol_info.base_currency p.symbol_info.pnl_currency l).1 in
      ap (λ outcome. add_committed f p outcome after) refused

  meet-rejected :
      (sv : Services D) (f : Fill D) (p : Position D) (reason : String) (l : Ledger D)
      → lookup f.symbol_code l.positions ≡ some p
      → is_reducing p.side f.side ≡ false
      → (margin_of_addition sv f p l).0 ≡ err reason
      → let after = (margin_of_addition sv f p l).1 in
        meet_existing sv f l ≡ some (stopped (rejection f reason after) after)
  unfolding meet_existing
  meet-rejected sv f p reason l held adding refused =
      rw (meet_existing, held, adding)
        (add-rejected sv f p reason (record l { positions = erase f.symbol_code l.positions })
          refused)

  -- A fill on the side of the position that is there, for which the margin is refused, is rejected
  -- without an event, and the position that was there is no longer in the ledger, although none of
  -- it has been sold.
  pub rejected_addition :
      (sv : Services D) (f : Fill D) (p : Position D) (reason : String) (l : Ledger D)
      → is_not_live l.mode ≡ true
      → lookup f.symbol_code l.positions ≡ some p
      → is_reducing p.side f.side ≡ false
      → (margin_of_addition sv f p l).0 ≡ err reason
      → let after = (margin_of_addition sv f p l).1 in
        (update_or_create_paper_position sv f l
          ≡ some (record { response = some (rejection f reason after); events = [] }, after))
        × (lookup f.symbol_code after.positions ≡ none)
  unfolding update_or_create_paper_position finish_fill
  rejected_addition sv f p reason l simulated held adding refused = (
    rw (update_or_create_paper_position, simulated)
        (ap (λ stage. stage >>= finish_fill sv f)
          (meet-rejected sv f p reason l held adding refused)),
    ap (lookup f.symbol_code) (
          positions-commit_margin sv f.symbol_name f.symbol_code f.quantity f.market_fill_price
            f.time f.side p.symbol_info.base_currency p.symbol_info.pnl_currency
            (record l { positions = erase f.symbol_code l.positions }))
        ∙ lookup-erase_self f.symbol_code l.positions,
  )
