-- ===== src/Position/Loop.antt =====
-- The exit loop of `Position::reduce_position_size`: what each round does, and what holds at its end
-- (ff_standard_lib/src/standardized_types/position.rs).
use mathlib.Core.Path.{subst}
use mathlib.Core.Option.{some-injective}
use fund_forge.Base.{ℕ, zero, ◌∙◌, true, [], suc, ◌≡◌, refl, inl, inr, false, some, List, arith}
use fund_forge.Base.Tests.{if◌then◌else◌, >>=-eq-some, Bool-cases}
use fund_forge.Base.Lists.{All}
use fund_forge.Decimal.{Decimal, IsExact, ◌⊕◌, ◌⊖◌, ◌≺◌, min}
use fund_forge.Position.Types.{EntryPrice, Position}
use fund_forge.Position.Exit.{
  ExitOrder, Exits, book_exit, exit_entry, exit_entries, pop_entry, keep_entry,
}
use fund_forge.Pnl.{calculate_theoretical_pnl}
use fund_forge.Position.Sums.{
  volume, traded, profits, IsHeld, traded-push_back, profits-push_back, volume-pop_entry,
  volume-keep_entry, pop_entry-All, keep_entry-IsHeld,
}

module _ {D : Type 0} ⦃d : Decimal D⦄ where
  -- What one round does with the quantity that it takes from an entry.
  pub record Effect (entry : EntryPrice D) (s s' : Exits D) : Type 0 where
    profit : D
    left :
        s'.remaining_exit_quantity
        ≡ s.remaining_exit_quantity ⊖ min s.remaining_exit_quantity entry.volume
    pub same_entries : s'.entries ≡ s.entries
    booked : s'.total_booked_pnl ≡ s.total_booked_pnl ⊕ profit
    traded_more : traded s'.trades ≡ traded s.trades ⊕ min s.remaining_exit_quantity entry.volume
    profits_more : profits s'.trades ≡ profits s.trades ⊕ profit
    kept :
        volume s'.temp_entries
        ≡ volume s.temp_entries ⊕ (entry.volume ⊖ min s.remaining_exit_quantity entry.volume)
    held : All IsHeld s.temp_entries → All IsHeld s'.temp_entries
    waits : (d.dec 0 ≺ s'.remaining_exit_quantity) ≡ true → s'.temp_entries ≡ s.temp_entries

  -- What holds before and after each round: `v` is the volume that stays, `q` the quantity that
  -- all trades will have exited, `b` the profit of the trades from before.
  pub record Tracks (v q b : D) (s : Exits D) : Type 0 where
    pub volumes : volume s.entries ⊕ volume s.temp_entries ≡ s.remaining_exit_quantity ⊕ v
    pub exited : traded s.trades ⊕ s.remaining_exit_quantity ≡ q
    pub profited : profits s.trades ≡ b ⊕ s.total_booked_pnl
    pub left_nonneg : (s.remaining_exit_quantity ≺ d.dec 0) ≡ false
    pub entries_held : All IsHeld s.entries
    pub temp_held : All IsHeld s.temp_entries
    pub temp_waits : (d.dec 0 ≺ s.remaining_exit_quantity) ≡ true → s.temp_entries ≡ []

  module _ (ex : IsExact d) where
    open ex use {gain, loss, gain-dec, loss-dec, add_parts, sub_parts, lt_parts, eq_of_parts}

    kept_volume :
        (p : Position D) (e : EntryPrice D) (left : D) (temp : List (EntryPrice D))
        → (left ≺ d.dec 0) ≡ false
        → volume (
            if d.dec 0 ≺ left
            then keep_entry p.position_calculation_mode (record e { volume = left }) temp
            else temp)
          ≡ volume temp ⊕ left
    kept_volume p e left temp h = elim (Bool-cases (d.dec 0 ≺ left)) [
      | inl some_left ↦
          rw some_left
            (volume-keep_entry ex p.position_calculation_mode (record e { volume = left }) temp)
      | inr none_left ↦ rw none_left (grind (arith, lt_parts, add_parts, eq_of_parts))
    ]

    kept_held :
        (p : Position D) (e : EntryPrice D) (left : D) (temp : List (EntryPrice D))
        → All IsHeld temp
        → All IsHeld (
            if d.dec 0 ≺ left
            then keep_entry p.position_calculation_mode (record e { volume = left }) temp
            else temp)
    kept_held p e left temp h = elim (Bool-cases (d.dec 0 ≺ left)) [
      | inl some_left ↦ rw some_left (
          keep_entry-IsHeld p.position_calculation_mode (record e { volume = left }) temp some_left
            h)
      | inr none_left ↦ rw none_left h
    ]

    -- An entry that leaves something open is the last one that is needed.
    used_up : (r v : D) → (d.dec 0 ≺ (r ⊖ min r v)) ≡ true → (d.dec 0 ≺ (v ⊖ min r v)) ≡ false
    used_up r v h = grind (arith, lt_parts, sub_parts, gain-dec, loss-dec)

    still_more :
        (r m : D) → (m ≺ d.dec 0) ≡ false → (d.dec 0 ≺ (r ⊖ m)) ≡ true → (d.dec 0 ≺ r) ≡ true
    still_more r m k h = grind (arith, lt_parts, sub_parts, gain-dec, loss-dec)

    rest_nonneg : (r v : D) → ((v ⊖ min r v) ≺ d.dec 0) ≡ false
    rest_nonneg r v = grind (arith, lt_parts, sub_parts, gain-dec, loss-dec)

    book_exit-Effect :
        (x : ExitOrder D) (p : Position D) (entry : EntryPrice D) (s : Exits D) (portion : D)
        → Effect entry s (book_exit x p entry s portion)
    unfolding book_exit
    book_exit-Effect x p entry s portion = record {
      profit = _;
      left = refl;
      same_entries = refl;
      booked = refl;
      traded_more = traded-push_back ex s.trades _;
      profits_more = profits-push_back ex s.trades _;
      kept = kept_volume p entry _ s.temp_entries (rest_nonneg _ _);
      held = kept_held p entry _ s.temp_entries;
      waits = λ more. rw (used_up s.remaining_exit_quantity entry.volume more);
    }

    pub exit_entry-Effect :
        (x : ExitOrder D) (p : Position D) (entry : EntryPrice D) (s s' : Exits D)
        → exit_entry x p entry s ≡ some s'
        → Effect entry s s'
    unfolding exit_entry
    exit_entry-Effect x p entry s s' h =
        let (portion, priced, e) =
          >>=-eq-some
            (calculate_theoretical_pnl p.account.brokerage p.side entry.price x.market_price
              (min s.remaining_exit_quantity entry.volume) p.symbol_info x.exchange_rate
              x.account_currency)
            (λ portion. some (book_exit x p entry s portion)) h in
        subst (Effect entry s) (some-injective _ _ e) (book_exit-Effect x p entry s portion)

    shift_volume :
        (all temp r v one others m : D)
        → all ⊕ temp ≡ r ⊕ v
        → all ≡ one ⊕ others
        → others ⊕ (temp ⊕ (one ⊖ m)) ≡ r ⊖ m ⊕ v
    shift_volume all temp r v one others m h k = grind (arith, add_parts, sub_parts, eq_of_parts)

    shift_exited : (t r q m : D) → t ⊕ r ≡ q → t ⊕ m ⊕ (r ⊖ m) ≡ q
    shift_exited t r q m h = grind (arith, add_parts, sub_parts, eq_of_parts)

    shift_profit : (f b t m : D) → f ≡ b ⊕ t → f ⊕ m ≡ b ⊕ (t ⊕ m)
    shift_profit f b t m h = grind (arith, add_parts, eq_of_parts)

    pub left_over : (r m : D) → ((r ⊖ min r m) ≺ d.dec 0) ≡ false
    left_over r m = grind (arith, lt_parts, sub_parts, gain-dec, loss-dec)

    pub Effect-Tracks :
        (v q b : D) (entry : EntryPrice D) (entries : List (EntryPrice D)) (s s' : Exits D)
        → Tracks v q b s
        → volume s.entries ≡ entry.volume ⊕ volume entries
        → All IsHeld entries
        → (d.dec 0 ≺ s.remaining_exit_quantity) ≡ true
        → Effect entry (record s { entries = entries }) s'
        → Tracks v q b s'
    Effect-Tracks v q b entry entries s s' t popped held more e = record {
      volumes = rw (e.same_entries, e.kept, e.left) (shift_volume _ _ _ _ _ _ _ t.volumes popped);
      exited = rw (e.traded_more, e.left) (shift_exited _ _ _ _ t.exited);
      profited = rw (e.profits_more, e.booked) (shift_profit _ _ _ _ t.profited);
      left_nonneg = rw e.left (left_over _ _);
      entries_held = rw e.same_entries held;
      temp_held = e.held t.temp_held;
      temp_waits = λ h. e.waits h ∙ t.temp_waits more;
    }

    -- The loop keeps the sums, and ends with nothing left to exit.
    pub exit_entries-Tracks :
        (x : ExitOrder D) (p : Position D) (v q b : D) (fuel : ℕ) (s s' : Exits D)
        → Tracks v q b s
        → exit_entries x p fuel s ≡ some s'
        → Tracks v q b s' × ((d.dec 0 ≺ s'.remaining_exit_quantity) ≡ false)
    unfolding exit_entries
    exit_entries-Tracks x p v q b zero s s' t h = cc
    exit_entries-Tracks x p v q b (suc fuel) s s' t h =
        elim (Bool-cases (d.dec 0 ≺ s.remaining_exit_quantity)) [
          | inr done ↦
              let e = some-injective _ _ (rw done at h) in
              (
                subst (Tracks v q b) e t,
                subst (λ u. (d.dec 0 ≺ u.remaining_exit_quantity) ≡ false) e done,
              )
          | inl more ↦
              let (popped, pop, after) =
                >>=-eq-some (pop_entry p.position_calculation_mode s.entries) _ (rw more at h) in
              let (s1, once, rest) =
                >>=-eq-some (exit_entry x p popped.0 (record s { entries = popped.1 }))
                  (exit_entries x p fuel) after in
              exit_entries-Tracks x p v q b fuel s1 s'
                (Effect-Tracks v q b popped.0 popped.1 s s1 t
                  (volume-pop_entry ex p.position_calculation_mode s.entries popped.0 popped.1 pop)
                  (pop_entry-All IsHeld p.position_calculation_mode s.entries popped.0 popped.1 pop
                    t.entries_held).1
                  more (exit_entry-Effect x p popped.0 (record s { entries = popped.1 }) s1 once))
                rest
        ]
