-- ===== src/Ledger/Views.antt =====
-- What a ledger answers about its positions (ff_standard_lib/src/strategies/ledgers/ledger.rs).
-- The argument is compared with the keys of the positions, which are symbol codes.
use fund_forge.Base.{Bool, true, false, none, some, [], ◌∷◌}
use fund_forge.Base.Tests.{string_eq}
use fund_forge.Base.Dict.{Dict, lookup}
use fund_forge.Decimal.{Decimal, ◌⊕◌, ◌≺◌}
use fund_forge.Market.{SymbolCode, PositionSide, long, short}
use fund_forge.Ledger.State.{Ledger}

abbrev is_long_side : PositionSide → Bool
is_long_side long = true
is_long_side _ = false

abbrev is_short_side : PositionSide → Bool
is_short_side short = true
is_short_side _ = false

module _ {D : Type 0} ⦃d : Decimal D⦄ where
  unfoldable pub is_long : SymbolCode → Ledger D → Bool
  is_long code l = elim (lookup code l.positions) [ some p ↦ is_long_side p.side | none ↦ false ]

  unfoldable pub is_short : SymbolCode → Ledger D → Bool
  is_short code l = elim (lookup code l.positions) [ some p ↦ is_short_side p.side | none ↦ false ]

  unfoldable pub is_flat : SymbolCode → Ledger D → Bool
  is_flat code l = elim (lookup code l.positions) [ some p ↦ false | none ↦ true ]

  unfoldable pub position_size : SymbolCode → Ledger D → D
  position_size code l = elim (lookup code l.positions) [
    | some p ↦ p.quantity_open
    | none ↦ d.dec 0
  ]

  unfoldable pub pnl : SymbolCode → Ledger D → D
  pnl code l = elim (lookup code l.positions) [ some p ↦ p.open_pnl | none ↦ d.dec 0 ]

  unfoldable pub booked_pnl : SymbolCode → Ledger D → D
  booked_pnl code l = elim (lookup code l.positions) [ some p ↦ p.booked_pnl | none ↦ d.dec 0 ]

  unfoldable pub in_profit : SymbolCode → Ledger D → Bool
  in_profit code l = elim (lookup code l.positions) [ some p ↦ d.dec 0 ≺ p.open_pnl | none ↦ false ]

  unfoldable pub in_drawdown : SymbolCode → Ledger D → Bool
  in_drawdown code l = elim (lookup code l.positions) [
    | some p ↦ p.open_pnl ≺ d.dec 0
    | none ↦ false
  ]

  sum_pnl : D → Dict SymbolCode D → D
  sum_pnl sum [] = sum
  sum_pnl sum ((_, price) ∷ prices) = sum_pnl (sum ⊕ price) prices

  unfoldable pub get_open_pnl : Ledger D → D
  unfolding sum_pnl
  get_open_pnl l = sum_pnl (d.dec 0) l.open_pnl
