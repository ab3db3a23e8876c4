-- ===== src/Position/Total.antt =====
-- The panics of a reduction, and the rounds of its loop
-- (ff_standard_lib/src/standardized_types/position.rs).
use fund_forge.Base.{
  ℕ, zero, suc, ◌<◌, ◌≡◌, ◌≢◌, inl, inr, true, false, Option, none, some, List, [], ◌∷◌, String,
  arith,
}
use fund_forge.Base.Tests.{◌>>=◌, Bool-cases, Option-cases, Returns, >>=-Returns, Returns-some}
use fund_forge.Base.Lists.{All, length}
use fund_forge.Decimal.{Decimal, IsExact, HasSigns, ◌⊕◌, ◌⊖◌, ◌⊗◌, ◌≺◌, min}
use fund_forge.Market.{flat}
use fund_forge.Pnl.{calculate_theoretical_pnl}
use fund_forge.Pnl.Sign.{IsNonneg, IsPositive, calculate_defined}
use fund_forge.Position.Types.{EntryPrice, Position}
use fund_forge.Position.Exit.{
  ExitOrder, Exits, book_exit, exit_entry, exit_entries, pop_entry, restore,
}
use fund_forge.Position.Update.{
  first_exits, average_left, new_exit_price, reduce_position_size, weigh,
}
use fund_forge.Position.Sums.{
  volume, IsHeld, volume-pop_entry, pop_entry-All, pop_entry-none, pop_entry-length, restore-IsHeld,
}
use fund_forge.Position.Loop.{Tracks, Effect-Tracks, exit_entry-Effect, exit_entries-Tracks}
use fund_forge.Position.Valid.{IsValid, start-Tracks}

module _ {D : Type 0} ⦃d : Decimal D⦄ where
  abbrev pub HasPrice : EntryPrice D → Type 0
  HasPrice e = IsPositive e.price

  -- What a position and an exit need for a profit and loss to be calculated.
  pub record IsPriced (x : ExitOrder D) (p : Position D) : Type 0 where
    pub not_flat : p.side ≢ flat
    pub tick_pos : IsPositive p.symbol_info.tick_size
    pub value_nonneg : IsNonneg p.symbol_info.value_per_tick
    pub rate_pos : IsPositive x.exchange_rate

  module _ (ex : IsExact d) (signs : HasSigns d) where
    open ex use {gain, loss, gain-dec, loss-dec, add_parts, sub_parts, lt_parts, eq_of_parts}

    min-IsNonneg : (r v : D) → (r ≺ d.dec 0) ≡ false → (d.dec 0 ≺ v) ≡ true → IsNonneg (min r v)
    min-IsNonneg r v h k = grind (arith, lt_parts, gain-dec, loss-dec)

    exit_entry_defined :
        (x : ExitOrder D) (p : Position D) (e : EntryPrice D) (s : Exits D)
        → IsPriced x p
        → IsHeld e
        → HasPrice e
        → (s.remaining_exit_quantity ≺ d.dec 0) ≡ false
        → Returns (λ _. Unit) (exit_entry x p e s)
    unfolding exit_entry
    exit_entry_defined x p e s priced held price r =
        >>=-Returns (λ _. Unit) (λ _. Unit)
          (calculate_theoretical_pnl p.account.brokerage p.side e.price x.market_price
            (min s.remaining_exit_quantity e.volume) p.symbol_info x.exchange_rate
            x.account_currency)
          (λ portion. some (book_exit x p e s portion))
          (calculate_defined ex signs p.account.brokerage p.side e.price x.market_price
            (min s.remaining_exit_quantity e.volume) p.symbol_info x.exchange_rate
            x.account_currency priced.not_flat priced.tick_pos priced.value_nonneg
            (min-IsNonneg _ _ r held) price priced.rate_pos)
          (λ _ _. tt)

    not_empty :
        (v temp r : D)
        → d.dec 0 ⊕ d.dec 0 ≡ r ⊕ v
        → (d.dec 0 ≺ r) ≡ true
        → (v ≺ d.dec 0) ≡ false
        → ⊥
    not_empty v temp r h k l = grind (arith, lt_parts, add_parts, gain-dec, loss-dec)

    -- One more unit of fuel than there are entries is enough.
    exit_entries_defined :
        (x : ExitOrder D) (p : Position D) (v q b : D) (fuel : ℕ) (s : Exits D)
        → IsPriced x p
        → (v ≺ d.dec 0) ≡ false
        → length s.entries < fuel
        → Tracks v q b s
        → All HasPrice s.entries
        → Returns (λ _. Unit) (exit_entries x p fuel s)
    unfolding exit_entries
    exit_entries_defined x p v q b zero s priced vn len t prices = elim len [ ]
    exit_entries_defined x p v q b (suc fuel) s priced vn len t prices =
        elim (Bool-cases (d.dec 0 ≺ s.remaining_exit_quantity)) [
          | inr done ↦ rw done tt
          | inl more ↦ elim (Option-cases (pop_entry p.position_calculation_mode s.entries)) [
            | inl nothing ↦
                let no_entries = pop_entry-none p.position_calculation_mode s.entries nothing in
                absurd (
                  not_empty v (d.dec 0) s.remaining_exit_quantity
                    (rw (no_entries, t.temp_waits more) at t.volumes) more vn)
            | inr ((e, es), pop) ↦
                let mode = p.position_calculation_mode in
                let (held, rest) = pop_entry-All IsHeld mode s.entries e es pop t.entries_held in
                let (price, others) = pop_entry-All HasPrice mode s.entries e es pop prices in
                let (s1, once, _) =
                  Returns-some (λ _. Unit) (exit_entry x p e (record s { entries = es }))
                    (exit_entry_defined x p e (record s { entries = es }) priced held price
                      t.left_nonneg) in
                let effect = exit_entry-Effect ex x p e (record s { entries = es }) s1 once in
                let next =
                  exit_entries_defined x p v q b fuel s1 priced vn
                    (rw effect.same_entries
                      (omega (arith, pop_entry-length mode s.entries e es pop)))
                    (Effect-Tracks ex v q b e es s s1 t
                      (volume-pop_entry ex mode s.entries e es pop) rest more effect)
                    (rw effect.same_entries others) in
                rw (more, pop, once, ◌>>=◌) next
          ]
        ]

    weigh-volume :
        (sums : D × D) (entries : List (EntryPrice D))
        → (weigh sums entries).0 ≡ sums.0 ⊕ volume entries
    unfolding weigh
    weigh-volume sums [] = grind (arith, add_parts, eq_of_parts)
    weigh-volume sums (e ∷ entries) = grind (
      arith,
      weigh-volume (sums.0 ⊕ e.volume, sums.1 ⊕ e.volume ⊗ e.price) entries,
      add_parts,
      eq_of_parts,
    )

    volume-IsNonneg :
        (entries : List (EntryPrice D)) → All IsHeld entries → IsNonneg (volume entries)
    volume-IsNonneg [] h = grind (arith, lt_parts)
    volume-IsNonneg (e ∷ entries) h =
        grind (arith, volume-IsNonneg entries h.1, h.0, lt_parts, add_parts, gain-dec, loss-dec)

    weight_pos :
        (e : EntryPrice D) (entries : List (EntryPrice D))
        → All IsHeld (e ∷ entries)
        → IsPositive (weigh (d.dec 0, d.dec 0) (e ∷ entries)).0
    weight_pos e entries h =
        rw (weigh-volume (d.dec 0, d.dec 0) (e ∷ entries))
          (grind (arith, volume-IsNonneg entries h.1, h.0, lt_parts, add_parts, gain-dec, loss-dec))

    average_left_defined :
        (p : Position D) (entries : List (EntryPrice D))
        → All IsHeld entries
        → Returns (λ _. Unit) (average_left p entries)
    unfolding average_left
    average_left_defined p [] h = tt
    average_left_defined p (e ∷ entries) h =
        let sums = weigh (d.dec 0, d.dec 0) (e ∷ entries) in
        let (c, divided) = signs.div_defined sums.1 sums.0 (weight_pos e entries h) in
        rw (divided, ◌>>=◌) tt

    new_exit_price_defined :
        (p : Position D) (old : Option D) (price quantity : D)
        → IsNonneg p.quantity_closed
        → IsPositive quantity
        → Returns (λ _. Unit) (new_exit_price p old price quantity)
    unfolding new_exit_price
    new_exit_price_defined p none price quantity h k = tt
    new_exit_price_defined p (some e) price quantity h k =
        let (c, divided) =
          signs.div_defined (e ⊗ p.quantity_closed ⊕ price ⊗ quantity)
            (p.quantity_closed ⊕ quantity)
            (grind (arith, lt_parts, add_parts, gain-dec, loss-dec)) in
        rw (divided, ◌>>=◌) tt

    covered : (open_now q : D) → (open_now ≺ q) ≡ false → IsNonneg (open_now ⊖ q)
    covered open_now q h = grind (arith, lt_parts, sub_parts, gain-dec, loss-dec)

    not_negative : (q : D) → IsPositive q → IsNonneg q
    not_negative q h = grind (arith, lt_parts)

    -- A valid position can be reduced by every positive quantity up to the open one, if it is not
    -- flat, its entry prices, tick size and exchange rate are positive, and its tick value and closed
    -- quantity are not negative: the call does not panic, so its loop does not run out of entries.
    pub reduce-Returns :
        (x : ExitOrder D) (quantity : D) (tag : String) (p : Position D)
        → IsValid p
        → IsPriced x p
        → All HasPrice p.open_entry_prices
        → IsNonneg p.quantity_closed
        → IsPositive quantity
        → (p.quantity_open ≺ quantity) ≡ false
        → Returns (λ _. Unit) (reduce_position_size x quantity tag p)
    unfolding reduce_position_size first_exits
    reduce-Returns x quantity tag p v priced prices closed pos enough =
        let start = start-Tracks ex quantity p v (not_negative quantity pos) in
        let fuel = suc (length p.open_entry_prices) in
        let (s, loop, _) =
          Returns-some (λ _. Unit) (exit_entries x p fuel (first_exits quantity p))
            (exit_entries_defined x p _ _ _ fuel (first_exits quantity p) priced
              (covered p.quantity_open quantity enough) (omega arith) start prices) in
        let (t, _) = exit_entries-Tracks ex x p _ _ _ fuel _ s start loop in
        let entries = restore p.position_calculation_mode s.temp_entries s.entries in
        let (average, averaged, _) =
          Returns-some (λ _. Unit) (average_left p entries)
            (average_left_defined p entries (
              restore-IsHeld p.position_calculation_mode s.temp_entries s.entries t.temp_held
                t.entries_held)) in
        let (price, exits, _) =
          Returns-some (λ _. Unit) (new_exit_price p p.average_exit_price x.market_price quantity)
            (new_exit_price_defined p p.average_exit_price x.market_price quantity closed pos) in
        rw (enough, loop, averaged, exits, ◌>>=◌) tt
