-- ===== src/Ledger/Valid.antt =====
-- The invariant of the positions of a ledger
-- (ff_standard_lib/src/strategies/ledgers/historical_ledger.rs and ledger.rs).
pub mod Fills
pub mod Openings
pub mod Session
use mathlib.Core.Path.{subst}
use mathlib.Core.Option.{some-injective}
use fund_forge.Base.{
  ◌≡◌, refl, sym, ap, ◌∙◌, inl, inr, Bool, true, false, ◌||◌, Option, none, some, List, [], ◌∷◌,
  String, arith,
}
use fund_forge.Base.Tests.{
  if◌then◌else◌, ◌==◌, ◌>>=◌, Bool-cases, Option-cases, Always, >>=-Always, >>=-Always_any,
  if-Always, elim-Always, Always-map, Always-intro, string_eq,
}
use fund_forge.Base.Lists.{All}
use fund_forge.Base.Dict.{Dict, lookup, insert, erase, lookup-insert, lookup-erase}
use fund_forge.Decimal.{Decimal, IsExact, ◌⊕◌, ◌⊖◌, ◌≺◌, min}
use fund_forge.Market.{
  Time, SymbolName, SymbolCode, OrderId, Currency, currency_eq, OrderSide, SymbolInfo,
}
use fund_forge.BaseData.{BaseData, TimeSlice, symbol}
use fund_forge.Position.Types.{
  Position, EntryPrice, PositionUpdateEvent, position_opened, increased, position_reduced,
  position_closed, new,
}
use fund_forge.Position.Sums.{volume, IsHeld}
use fund_forge.Position.Valid.{IsValid, reduce-IsValid, add-IsValid, new-IsValid}
use fund_forge.Position.Exit.{ExitOrder}
use fund_forge.Position.Update.{
  update_base_data, market_prices, reduce_position_size, add_to_position,
}
use fund_forge.Pnl.{calculate_theoretical_pnl}
use fund_forge.Ledger.State.{
  Ledger, Outcome, ok, err, Services, release_margin_used, commit_margin, booking_rate, book_pnl,
  settle, push_closed,
}
use fund_forge.Ledger.Rejected.{positions-commit_margin}

module _ {D : Type 0} ⦃d : Decimal D⦄ where
  -- Every position of the map is valid.
  unfoldable pub HoldsValid : Dict SymbolCode (Position D) → Type 0
  HoldsValid m = (code : SymbolCode) (p : Position D) → lookup code m ≡ some p → IsValid p

  if-IsValid :
      (b : Bool) (p q : Position D) (o : Option (Position D))
      → IsValid p
      → (o ≡ some q → IsValid q)
      → (if b then some p else o) ≡ some q
      → IsValid q
  if-IsValid true p q o v rest h = subst IsValid (some-injective _ _ h) v
  if-IsValid false p q o v rest h = rest h

  pub insert-HoldsValid :
      (code : SymbolCode) (p : Position D) (m : Dict SymbolCode (Position D))
      → IsValid p
      → HoldsValid m
      → HoldsValid (insert code p m)
  unfolding HoldsValid
  insert-HoldsValid code p m v all other q h =
      if-IsValid (code == other) p q (lookup other m) v (all other q)
        (sym (lookup-insert code other p m) ∙ h)

  pub erase-HoldsValid :
      (code : SymbolCode) (m : Dict SymbolCode (Position D))
      → HoldsValid m
      → HoldsValid (erase code m)
  unfolding HoldsValid
  erase-HoldsValid code m all other q h = elim (Bool-cases (code == other)) [
    | inl same ↦ cc (rw (lookup-erase, same) at h)
    | inr different ↦ all other q (rw (lookup-erase, different) at h)
  ]

  -- A valuation changes neither the entries nor the quantities.
  pub update_base_data-IsValid :
      (item : BaseData D) (currency : Currency) (p : Position D)
      → IsValid p
      → Always (λ r. IsValid r.0) (update_base_data item currency p)
  unfolding update_base_data
  update_base_data-IsValid item currency p v = elim (Bool-cases p.is_closed) [
    | inl closed ↦ rw (update_base_data, closed) v
    | inr live ↦
        rw (update_base_data, live)
          (>>=-Always_any (λ r. IsValid r.0) (market_prices p.side item) _
            λ prices.
              >>=-Always_any (λ r. IsValid r.0)
                (calculate_theoretical_pnl p.account.brokerage p.side p.average_price prices.0
                  p.quantity_open p.symbol_info p.exchange_rate_multiplier currency)
                _
                λ pnl. record {
                  matched = v.matched;
                  held = v.held;
                  exited = v.exited;
                  booked = v.booked;
                })
  ]

  pub positions-release :
      (code : SymbolCode) (l : Ledger D) → (release_margin_used code l).positions ≡ l.positions
  unfolding release_margin_used
  positions-release code l = elim (Option-cases (lookup code l.margin_used)) [
    | inl absent ↦ rw (release_margin_used, absent)
    | inr (margin, found) ↦ rw (release_margin_used, found)
  ]

  pub positions-booking_rate :
      (sv : Services D) (currency : Currency) (time : Time) (side : OrderSide) (l : Ledger D)
      → (booking_rate sv currency time side l).1.positions ≡ l.positions
  unfolding booking_rate
  positions-booking_rate sv currency time side l = elim (Bool-cases (l.currency == currency)) [
    | inl same ↦ rw same
    | inr other ↦ elim (Option-cases (sv.exchange_rate l.currency currency time side)) [
      | inl failed ↦ rw (other, failed)
      | inr (rate, asked) ↦ rw (other, asked)
    ]
  ]

  module _ (ex : IsExact d) where
    open ex use {gain, loss, gain-dec, loss-dec, add_parts, sub_parts, lt_parts, eq_of_parts}

    volume_nonneg :
        (entries : List (EntryPrice D)) → All IsHeld entries → (volume entries ≺ d.dec 0) ≡ false
    volume_nonneg [] h = grind (arith, lt_parts)
    volume_nonneg (e ∷ entries) h =
        grind (arith, volume_nonneg entries h.1, h.0, lt_parts, add_parts, gain-dec, loss-dec)

    -- The open quantity of a valid position is not negative.
    pub open_nonneg : (p : Position D) → IsValid p → (p.quantity_open ≺ d.dec 0) ≡ false
    open_nonneg p v =
        subst (λ q. (q ≺ d.dec 0) ≡ false) v.matched (volume_nonneg p.open_entry_prices v.held)

    pub exit_nonneg :
        (quantity : D) (p : Position D)
        → IsValid p
        → (d.dec 0 ≺ quantity) ≡ true
        → (min quantity p.quantity_open ≺ d.dec 0) ≡ false
    exit_nonneg quantity p v h = elim (Bool-cases (p.quantity_open ≺ quantity)) [
      | inl less ↦ rw less (open_nonneg p v)
      | inr more ↦ rw more (grind (arith, h, lt_parts, gain-dec, loss-dec))
    ]

    pub reduced-IsValid :
        (x : ExitOrder D) (quantity : D) (tag : String) (p : Position D)
        → IsValid p
        → (quantity ≺ d.dec 0) ≡ false
        → Always (λ r. IsValid r.0) (reduce_position_size x quantity tag p)
    reduced-IsValid x quantity tag p v h =
        Always-intro (λ r. IsValid r.0) (reduce_position_size x quantity tag p)
          λ r e. (reduce-IsValid ex x quantity tag p r.0 r.1 v h e).0
