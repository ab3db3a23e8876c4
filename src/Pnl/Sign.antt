-- ===== src/Pnl/Sign.antt =====
-- The sign of the profit and loss (ff_standard_lib/src/helpers/decimal_calculators.rs).
use fund_forge.Base.{ℕ, ◌≡◌, ◌≢◌, refl, true, false, Option, none, some, arith}
use fund_forge.Base.Tests.{Returns, >>=-Returns, if-Returns, of_some-Returns, ◌==◌}
use fund_forge.Decimal.{Decimal, IsExact, HasSigns, ◌≺◌, ◌≼◌, ◌⊗◌, ◌≐◌}
use fund_forge.Market.{
  Currency, currency_eq, Brokerage, PositionSide, long, short, flat, SymbolInfo,
}
use fund_forge.Pnl.{
  calculate_theoretical_pnl, price_move, raw_ticks, convert_pnl, round_to_tick_size,
}

module _ {D : Type 0} ⦃d : Decimal D⦄ where
  -- The market has not moved against the position.
  abbrev pub IsFavourable : PositionSide → D → D → Type 0
  IsFavourable long entry market = (entry ≼ market) ≡ true
  IsFavourable short entry market = (market ≼ entry) ≡ true
  IsFavourable flat entry market = ⊥

  -- The market has not moved for the position.
  abbrev pub IsAdverse : PositionSide → D → D → Type 0
  IsAdverse long entry market = (market ≼ entry) ≡ true
  IsAdverse short entry market = (entry ≼ market) ≡ true
  IsAdverse flat entry market = ⊥

  abbrev pub IsNonneg : D → Type 0
  IsNonneg a = (a ≺ d.dec 0) ≡ false

  abbrev pub IsNonpos : D → Type 0
  IsNonpos a = (d.dec 0 ≺ a) ≡ false

  abbrev pub IsPositive : D → Type 0
  IsPositive a = (d.dec 0 ≺ a) ≡ true

  -- A set of decimals that no step of the calculation leaves: the nonnegative ones, or the
  -- nonpositive ones.
  pub record IsClosed (P : D → Type 0) : Type 0 where
    pub at_zero : P (d.dec 0)
    pub of_mul : (a b : D) → P a → IsNonneg b → P (a ⊗ b)
    pub of_div : (a b : D) → P a → IsPositive b → Returns P (d.div a b)
    pub of_round : (a : D) → P a → P (d.round a)
    pub of_round_dp : (n : ℕ) (a : D) → P a → P (d.round_dp n a)

  module _ (P : D → Type 0) (closed : IsClosed P) where
    open closed use {at_zero, of_mul, of_div, of_round, of_round_dp}

    raw_ticks-Returns :
        (b : Brokerage) (info : SymbolInfo D) (m : D)
        → IsPositive info.tick_size
        → IsNonneg info.tick_size
        → P m
        → Returns P (raw_ticks b info m)
    unfolding raw_ticks round_to_tick_size
    raw_ticks-Returns (Brokerage.rithmic s) info m pos nonneg pm =
        >>=-Returns P P _ _ (of_div m info.tick_size pm pos) λ c pc.
          >>=-Returns P P _ _ (of_div c info.tick_size pc pos)
            λ e pe. of_mul (d.round e) info.tick_size (of_round e pe) nonneg
    raw_ticks-Returns _ info m pos nonneg pm =
        >>=-Returns P P _ _ (of_div m info.tick_size pm pos)
          λ c pc. of_round_dp info.decimal_accuracy c pc

    convert_pnl-Returns :
        (base : Option Currency) (quoted account : Currency) (pnl entry rate : D)
        → IsPositive entry
        → IsPositive rate
        → IsNonneg rate
        → P pnl
        → Returns P (convert_pnl base quoted account pnl entry rate)
    unfolding convert_pnl
    convert_pnl-Returns none quoted account pnl entry rate pe pr nr pp = of_mul pnl rate pp nr
    convert_pnl-Returns (some base) quoted account pnl entry rate pe pr nr pp =
        if-Returns P (account == base) _ _ (of_div pnl entry pp pe)
          (if-Returns P (account == quoted) _ _ pp (of_div pnl rate pp pr))

    -- From a move of the price in the set, over positive sizes, the result is in the set.
    calculate-Returns :
        (b : Brokerage) (side : PositionSide) (entry market quantity : D) (info : SymbolInfo D)
        (rate : D) (account : Currency)
        → IsPositive info.tick_size
        → IsNonneg info.tick_size
        → IsNonneg info.value_per_tick
        → IsNonneg quantity
        → IsPositive entry
        → IsPositive rate
        → IsNonneg rate
        → Returns P (price_move side entry market)
        → Returns P (calculate_theoretical_pnl b side entry market quantity info rate account)
    unfolding calculate_theoretical_pnl
    calculate-Returns b side entry market quantity info rate account pt nt nv nq pe pr nr move =
        >>=-Returns P P _ _ move λ m pm.
          >>=-Returns P P _ _ (raw_ticks-Returns b info m pt nt pm) λ t ticks.
            if-Returns P (t ≐ d.dec 0) _ _ at_zero (
              convert_pnl-Returns info.base_currency info.pnl_currency account _ entry rate pe pr nr
                (of_mul _ quantity (of_mul t info.value_per_tick ticks nv) nq))

  module _ (ex : IsExact d) (signs : HasSigns d) where
    open ex use {gain, loss, lt_parts, sub_parts, gain-dec, loss-dec}
    open signs use {div_defined}

    pub IsPositive-IsNonneg : (a : D) → IsPositive a → IsNonneg a
    IsPositive-IsNonneg a h = grind (arith, lt_parts)

    pub IsNonneg-IsClosed : IsClosed IsNonneg
    IsNonneg-IsClosed = record {
      at_zero = grind (arith, lt_parts);
      of_mul = signs.mul_nonneg;
      of_div = λ a b pa pb.
          let (c, e) = div_defined a b pb in
          of_some-Returns IsNonneg (d.div a b) e (signs.div_nonneg a b c pa pb e);
      of_round = signs.round_nonneg;
      of_round_dp = signs.round_dp_nonneg;
    }

    IsNonpos-IsClosed : IsClosed IsNonpos
    IsNonpos-IsClosed = record {
      at_zero = grind (arith, lt_parts);
      of_mul = signs.mul_nonpos;
      of_div = λ a b pa pb.
          let (c, e) = div_defined a b pb in
          of_some-Returns IsNonpos (d.div a b) e (signs.div_nonpos a b c pa pb e);
      of_round = signs.round_nonpos;
      of_round_dp = signs.round_dp_nonpos;
    }

    move-IsNonneg :
        (side : PositionSide) (entry market : D)
        → IsFavourable side entry market
        → Returns IsNonneg (price_move side entry market)
    unfolding price_move
    move-IsNonneg long entry market h = grind (arith, lt_parts, sub_parts, gain-dec, loss-dec)
    move-IsNonneg short entry market h = grind (arith, lt_parts, sub_parts, gain-dec, loss-dec)
    move-IsNonneg flat entry market h = absurd h

    move-IsNonpos :
        (side : PositionSide) (entry market : D)
        → IsAdverse side entry market
        → Returns IsNonpos (price_move side entry market)
    unfolding price_move
    move-IsNonpos long entry market h = grind (arith, lt_parts, sub_parts, gain-dec, loss-dec)
    move-IsNonpos short entry market h = grind (arith, lt_parts, sub_parts, gain-dec, loss-dec)
    move-IsNonpos flat entry market h = absurd h

    any-IsClosed : IsClosed (λ _. Unit)
    any-IsClosed = record {
      at_zero = tt;
      of_mul = λ a b _ _. tt;
      of_div = λ a b _ pb.
          let (c, e) = div_defined a b pb in of_some-Returns (λ _. Unit) (d.div a b) e tt;
      of_round = λ a _. tt;
      of_round_dp = λ n a _. tt;
    }

    move_defined :
        (side : PositionSide) (entry market : D)
        → side ≢ flat
        → Returns (λ _. Unit) (price_move side entry market)
    unfolding price_move
    move_defined long entry market h = tt
    move_defined short entry market h = tt
    move_defined flat entry market h = absurd (h refl)

    -- The calculation does not panic.
    pub calculate_defined :
        (b : Brokerage) (side : PositionSide) (entry market quantity : D) (info : SymbolInfo D)
        (rate : D) (account : Currency)
        → side ≢ flat
        → IsPositive info.tick_size
        → IsNonneg info.value_per_tick
        → IsNonneg quantity
        → IsPositive entry
        → IsPositive rate
        → Returns
            (λ _. Unit)
            (calculate_theoretical_pnl b side entry market quantity info rate account)
    calculate_defined b side entry market quantity info rate account h pt nv nq pe pr =
        calculate-Returns (λ _. Unit) any-IsClosed b side entry market quantity info rate account pt
          (IsPositive-IsNonneg info.tick_size pt) nv nq pe pr (IsPositive-IsNonneg rate pr)
          (move_defined side entry market h)

    -- For positive tick sizes, entry prices and exchange rates, and tick values and quantities that
    -- are not negative, the profit and loss is calculated without a panic, for every brokerage and
    -- currency, and it is not negative if the market price is not on the losing side
    -- of the entry price for the position's side.
    pub pnl-IsNonneg :
        (b : Brokerage) (side : PositionSide) (entry market quantity : D) (info : SymbolInfo D)
        (rate : D) (account : Currency)
        → IsPositive info.tick_size
        → IsNonneg info.value_per_tick
        → IsNonneg quantity
        → IsPositive entry
        → IsPositive rate
        → IsFavourable side entry market
        → Returns IsNonneg
            (calculate_theoretical_pnl b side entry market quantity info rate account)
    pnl-IsNonneg b side entry market quantity info rate account pt nv nq pe pr h =
        calculate-Returns IsNonneg IsNonneg-IsClosed b side entry market quantity info rate account
          pt (IsPositive-IsNonneg info.tick_size pt) nv nq pe pr (IsPositive-IsNonneg rate pr)
          (move-IsNonneg side entry market h)

    -- For positive tick sizes, entry prices and exchange rates, and tick values and quantities that
    -- are not negative, the profit and loss is calculated without a panic, for every brokerage and
    -- currency, and it is not positive if the market price is not on the winning side
    -- of the entry price for the position's side.
    pub pnl-IsNonpos :
        (b : Brokerage) (side : PositionSide) (entry market quantity : D) (info : SymbolInfo D)
        (rate : D) (account : Currency)
        → IsPositive info.tick_size
        → IsNonneg info.value_per_tick
        → IsNonneg quantity
        → IsPositive entry
        → IsPositive rate
        → IsAdverse side entry market
        → Returns IsNonpos
            (calculate_theoretical_pnl b side entry market quantity info rate account)
    pnl-IsNonpos b side entry market quantity info rate account pt nv nq pe pr h =
        calculate-Returns IsNonpos IsNonpos-IsClosed b side entry market quantity info rate account
          pt (IsPositive-IsNonneg info.tick_size pt) nv nq pe pr (IsPositive-IsNonneg rate pr)
          (move-IsNonpos side entry market h)
