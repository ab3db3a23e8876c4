-- ===== src/Ledger/Cash.antt =====
-- The cash of a simulated ledger, and the calls that move it
-- (ff_standard_lib/src/strategies/ledgers/historical_ledger.rs and ledger.rs).
use fund_forge.Base.{◌≡◌, refl, ◌∙◌, inl, inr, Option, none, some, arith}
use fund_forge.Base.Tests.{◌==◌, Bool-cases, Option-cases, string_eq}
use fund_forge.Base.Dict.{lookup}
use fund_forge.Decimal.{Decimal, IsExact, ◌⊖◌, ◌≺◌}
use fund_forge.Market.{Time, SymbolName, SymbolCode, Currency, currency_eq, OrderSide}
use fund_forge.Position.Types.{Position}
use fund_forge.Ledger.State.{
  Ledger, Outcome, ok, err, Services, balance, release_margin_used, margin_rate, add_margin,
  take_margin, charge_margin, commit_margin, booking_rate, book_pnl, settle, push_closed,
}

module _ {D : Type 0} ⦃d : Decimal D⦄ where
  -- The cash without what the positions have booked: what the account was opened with.
  abbrev pub capital : Ledger D → D
  capital l = balance l ⊖ l.total_booked_pnl

  module _ (ex : IsExact d) where
    open ex use {gain, loss, gain-dec, loss-dec, add_parts, sub_parts, lt_parts, eq_of_parts}

    pub capital-release :
        (code : SymbolCode) (l : Ledger D) → capital (release_margin_used code l) ≡ capital l
    unfolding release_margin_used
    capital-release code l = elim (Option-cases (lookup code l.margin_used)) [
      | inl absent ↦ rw (release_margin_used, absent)
      | inr (margin, found) ↦
          rw (release_margin_used, found) (grind (arith, add_parts, sub_parts, eq_of_parts))
    ]

    capital-add_margin :
        (code : SymbolCode) (margin : D) (l : Ledger D)
        → capital (add_margin code margin l) ≡ capital l
    unfolding add_margin
    capital-add_margin code margin l = grind (arith, add_parts, sub_parts, eq_of_parts)

    capital-take_margin :
        (code : SymbolCode) (margin : D) (l : Ledger D)
        → capital (take_margin code margin l).1 ≡ capital l
    unfolding take_margin
    capital-take_margin code margin l = elim (Bool-cases (l.cash_available ≺ margin)) [
      | inl short_of ↦ rw short_of
      | inr enough ↦ rw enough (capital-add_margin code margin l)
    ]

    capital-charge_margin :
        (code : SymbolCode) (value : D) (required : Outcome (Option D)) (l : Ledger D)
        → capital (charge_margin code value required l).1 ≡ capital l
    unfolding charge_margin
    capital-charge_margin code value (err e) l = refl
    capital-charge_margin code value (ok (some margin)) l = capital-take_margin code margin l
    capital-charge_margin code value (ok none) l = capital-take_margin code value l

    capital-margin_rate :
        (sv : Services D) (currency : Currency) (time : Time) (side : OrderSide) (l : Ledger D)
        → capital (margin_rate sv currency time side l).1 ≡ capital l
    unfolding margin_rate
    capital-margin_rate sv currency time side l = elim (Bool-cases (currency == l.currency)) [
      | inl same ↦ rw same
      | inr other ↦ elim (Option-cases (lookup currency l.rates)) [
        | inl fresh ↦ rw (other, fresh)
        | inr (rate, known) ↦ rw (other, known)
      ]
    ]

    pub capital-commit_margin :
        (sv : Services D) (name : SymbolName) (code : SymbolCode) (quantity price : D) (time : Time)
        (side : OrderSide) (base : Option Currency) (currency : Currency) (l : Ledger D)
        → capital (commit_margin sv name code quantity price time side base currency l).1
          ≡ capital l
    unfolding commit_margin
    capital-commit_margin sv name code quantity price time side base currency l =
        capital-charge_margin code _ _ _ ∙ capital-margin_rate sv currency time side l

    pub capital-booking_rate :
        (sv : Services D) (currency : Currency) (time : Time) (side : OrderSide) (l : Ledger D)
        → capital (booking_rate sv currency time side l).1 ≡ capital l
    unfolding booking_rate
    capital-booking_rate sv currency time side l = elim (Bool-cases (l.currency == currency)) [
      | inl same ↦ rw same
      | inr other ↦ elim (Option-cases (sv.exchange_rate l.currency currency time side)) [
        | inl failed ↦ rw (other, failed)
        | inr (rate, asked) ↦ rw (other, asked)
      ]
    ]

    pub capital-book_pnl :
        (code : SymbolCode) (booked : D) (l : Ledger D)
        → capital (book_pnl code booked l) ≡ capital l
    unfolding book_pnl
    capital-book_pnl code booked l = grind (arith, add_parts, sub_parts, eq_of_parts)

    capital-settle : (l : Ledger D) → capital (settle l) ≡ capital l
    unfolding settle
    capital-settle l = refl

    capital-push_closed :
        (code : SymbolCode) (p : Position D) (l : Ledger D)
        → capital (push_closed code p l) ≡ capital l
    unfolding push_closed
    capital-push_closed code p l = refl
