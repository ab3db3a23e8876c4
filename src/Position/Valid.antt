-- ===== src/Position/Valid.antt =====
-- The invariant of a position, and the methods that change it
-- (ff_standard_lib/src/standardized_types/position.rs).
use mathlib.Core.Path.{subst}
use mathlib.Core.Option.{some-injective}
use fund_forge.Base.{suc, ◌≡◌, refl, sym, ap, ◌∙◌, inl, inr, Bool, true, false, some, String, arith}
use fund_forge.Base.Tests.{>>=-eq-some, Bool-cases}
use fund_forge.Base.Lists.{All, length, push_back, All-push_back}
use fund_forge.Decimal.{Decimal, IsExact, ◌⊕◌, ◌⊖◌, ◌≺◌, ◌≼◌, ◌≐◌}
use fund_forge.Market.{
  Time, SymbolName, SymbolCode, OrderId, PositionId, Account, PositionSide, SymbolInfo, Currency,
  StrategyMode,
}
use fund_forge.Position.Types.{
  PositionCalculationMode, EntryPrice, Position, PositionUpdateEvent, new,
}
use fund_forge.Position.Exit.{ExitOrder, Exits, exit_entries, restore}
use fund_forge.Position.Update.{
  open_pnl_after, weigh, first_exits, book_reduction, reduce_position_size, add_to_position,
  finish_reduction, average_left, new_exit_price,
}
use fund_forge.Position.Sums.{
  volume, traded, profits, IsHeld, volume-push_back, volume-restore, restore-IsHeld,
}
use fund_forge.Position.Loop.{Tracks, exit_entries-Tracks}

module _ {D : Type 0} ⦃d : Decimal D⦄ where
  -- The open entries, none of them empty, make up the open quantity; the trades make up the closed
  -- quantity and the booked profit.
  pub record IsValid (p : Position D) : Type 0 where
    pub matched : volume p.open_entry_prices ≡ p.quantity_open
    pub held : All IsHeld p.open_entry_prices
    pub exited : traded p.completed_trades ≡ p.quantity_closed
    pub booked : profits p.completed_trades ≡ p.booked_pnl

  -- What a reduction by `quantity` does to a position.
  pub record Reduces (quantity : D) (p p' : Position D) : Type 0 where
    pub less_open : p'.quantity_open ≡ p.quantity_open ⊖ quantity
    pub more_closed : p'.quantity_closed ≡ p.quantity_closed ⊕ quantity
    pub closes : p'.is_closed ≡ (p'.quantity_open ≼ d.dec 0)
    pub same_side : p'.side ≡ p.side

  module _ (ex : IsExact d) where
    open ex use {gain, loss, gain-dec, loss-dec, add_parts, sub_parts, lt_parts, eq_of_parts}

    pub start-Tracks :
        (quantity : D) (p : Position D)
        → IsValid p
        → (quantity ≺ d.dec 0) ≡ false
        → Tracks
            (p.quantity_open ⊖ quantity)
            (p.quantity_closed ⊕ quantity)
            p.booked_pnl
            (first_exits quantity p)
    unfolding first_exits
    start-Tracks quantity p v h = record {
      volumes = rw v.matched (grind (arith, add_parts, sub_parts, eq_of_parts));
      exited = rw v.exited;
      profited = rw v.booked (grind (arith, add_parts, eq_of_parts));
      left_nonneg = h;
      entries_held = v.held;
      temp_held = tt;
      temp_waits = λ _. refl;
    }

    -- After the loop, the restored entries hold the open quantity that is left.
    left_matched :
        (mode : PositionCalculationMode) (q closed b : D) (p : Position D) (s : Exits D)
        → Tracks (p.quantity_open ⊖ q) closed b s
        → (d.dec 0 ≺ s.remaining_exit_quantity) ≡ false
        → (volume (restore mode s.temp_entries s.entries) ≡ p.quantity_open ⊖ q)
          × (traded s.trades ≡ closed)
    left_matched mode q closed b p s t done = (
      rw (volume-restore ex mode s.temp_entries s.entries) (
          grind (
            arith, t.volumes, t.left_nonneg, lt_parts, add_parts, sub_parts, eq_of_parts, gain-dec,
            loss-dec,
          )),
      grind (arith, t.exited, t.left_nonneg, lt_parts, add_parts, eq_of_parts, gain-dec, loss-dec),
    )

    finish-IsValid :
        (p : Position D) (q booked exit_price : D) (time : Time) (tag : String)
        → volume p.open_entry_prices ≡ p.quantity_open ⊖ q
        → All IsHeld p.open_entry_prices
        → traded p.completed_trades ≡ p.quantity_closed ⊕ q
        → profits p.completed_trades ≡ p.booked_pnl
        → let p' = (finish_reduction p q booked exit_price time tag).0 in
          IsValid p' × Reduces q p p'
    unfolding finish_reduction
    finish-IsValid p q booked exit_price time tag m h t b =
        elim (Bool-cases ((p.quantity_open ⊖ q) ≼ d.dec 0)) [
          | inl closed ↦ rw closed (
            record { matched = m; held = h; exited = t; booked = b },
            record { less_open = refl; more_closed = refl; closes = sym closed; same_side = refl },
          )
          | inr still_open ↦ rw still_open (
            record { matched = m; held = h; exited = t; booked = b },
            record {
              less_open = refl;
              more_closed = refl;
              closes = sym still_open;
              same_side = refl;
            },
          )
        ]

    booked-IsValid :
        (x : ExitOrder D) (quantity : D) (tag : String) (p : Position D) (s : Exits D)
        (average exit_price : D)
        → IsValid p
        → Tracks (p.quantity_open ⊖ quantity) (p.quantity_closed ⊕ quantity) p.booked_pnl s
        → (d.dec 0 ≺ s.remaining_exit_quantity) ≡ false
        → let entries = restore p.position_calculation_mode s.temp_entries s.entries in
          let booked = book_reduction x p s entries average exit_price in
          let p' = (finish_reduction booked quantity s.total_booked_pnl exit_price x.time tag).0 in
          IsValid p' × Reduces quantity p p'
    unfolding book_reduction
    booked-IsValid x quantity tag p s average exit_price v t done =
        let entries = restore p.position_calculation_mode s.temp_entries s.entries in
        let (m, e) = left_matched p.position_calculation_mode quantity _ _ p s t done in
        let (valid, r) =
          finish-IsValid (book_reduction x p s entries average exit_price) quantity
            s.total_booked_pnl exit_price x.time tag m
            (restore-IsHeld p.position_calculation_mode s.temp_entries s.entries t.temp_held
              t.entries_held)
            e t.profited in
        (
          valid,
          record {
            less_open = r.less_open;
            more_closed = r.more_closed;
            closes = r.closes;
            same_side = r.same_side;
          },
        )

    -- A reduction of a valid position by a quantity that is not negative, if it does not panic,
    -- leaves a valid position, moves the quantity from open to closed, and marks the position as
    -- closed exactly when nothing stays open.
    pub reduce-IsValid :
        (x : ExitOrder D) (quantity : D) (tag : String) (p p' : Position D)
        (event : PositionUpdateEvent D)
        → IsValid p
        → (quantity ≺ d.dec 0) ≡ false
        → reduce_position_size x quantity tag p ≡ some (p', event)
        → IsValid p' × Reduces quantity p p'
    unfolding reduce_position_size
    reduce-IsValid x quantity tag p p' event v nonneg h =
        elim (Bool-cases (p.quantity_open ≺ quantity)) [
          | inl too_much ↦ cc (rw too_much at h)
          | inr enough ↦
              let (s, loop, h1) =
                >>=-eq-some
                  (exit_entries x p (suc (length p.open_entry_prices)) (first_exits quantity p)) _
                  (rw enough at h) in
              let entries = restore p.position_calculation_mode s.temp_entries s.entries in
              let (average, averaged, h2) = >>=-eq-some (average_left p entries) _ h1 in
              let (exit_price, priced, h3) =
                >>=-eq-some (new_exit_price p p.average_exit_price x.market_price quantity) _ h2 in
              let (t, done) =
                exit_entries-Tracks ex x p _ _ _ _ _ s (start-Tracks quantity p v nonneg) loop in
              subst
                (λ (r : Position D × PositionUpdateEvent D). IsValid r.0 × Reduces quantity p r.0)
                (some-injective _ _ h3)
                (booked-IsValid x quantity tag p s average exit_price v t done)
        ]

    -- A new position is valid if its quantity is positive.
    pub new-IsValid :
        (name : SymbolName) (code : SymbolCode) (order : OrderId) (account : Account)
        (side : PositionSide) (quantity price : D) (id : PositionId) (info : SymbolInfo D)
        (rate : D) (tag : String) (time : Time) (mode : PositionCalculationMode)
        → (d.dec 0 ≺ quantity) ≡ true
        → IsValid (new name code order account side quantity price id info rate tag time mode)
    unfolding new
    new-IsValid name code order account side quantity price id info rate tag time mode h = record {
      matched = grind (arith, add_parts, eq_of_parts);
      held = (h, tt);
      exited = refl;
      booked = refl;
    }

    -- Adding a positive quantity to a valid position, if it does not panic, leaves a valid position
    -- whose open quantity has grown by that quantity, and whose closed quantity and booked profit
    -- are as before.
    pub add-IsValid :
        (mode : StrategyMode) (simulating : Bool) (order : OrderId) (currency : Currency)
        (price quantity : D) (time : Time) (tag : String) (p p' : Position D)
        (event : PositionUpdateEvent D)
        → IsValid p
        → (d.dec 0 ≺ quantity) ≡ true
        → add_to_position mode simulating order currency price quantity time tag p
          ≡ some (p', event)
        → IsValid p'
          × (p'.quantity_open ≡ p.quantity_open ⊕ quantity)
          × (p'.quantity_closed ≡ p.quantity_closed)
          × (p'.booked_pnl ≡ p.booked_pnl)
    unfolding add_to_position
    add-IsValid mode simulating order currency price quantity time tag p p' event v h e =
        let entry : EntryPrice D = record { volume = quantity; price = price; order_id = order } in
        let entries = push_back p.open_entry_prices entry in
        let sums = weigh (d.dec 0, d.dec 0) entries in
        elim (Bool-cases (sums.0 ≐ d.dec 0)) [
          | inl empty ↦ cc (rw empty at e)
          | inr weighed ↦
              let (average, averaged, e1) = >>=-eq-some (d.div sums.1 sums.0) _ (rw weighed at e) in
              let rounded = d.round_dp p.symbol_info.decimal_accuracy average in
              let (pnl, priced, e2) =
                >>=-eq-some
                  (open_pnl_after mode simulating currency price rounded
                    (p.quantity_open ⊕ quantity) p)
                  _ e1 in
              subst
                (λ (r : Position D × PositionUpdateEvent D).
                  IsValid r.0
                  × (r.0.quantity_open ≡ p.quantity_open ⊕ quantity)
                  × (r.0.quantity_closed ≡ p.quantity_closed)
                  × (r.0.booked_pnl ≡ p.booked_pnl))
                (some-injective _ _ e2)
                (
                  record {
                    matched =
                        volume-push_back ex p.open_entry_prices entry
                        ∙ ap (λ s. s ⊕ quantity) v.matched;
                    held = All-push_back IsHeld p.open_entry_prices entry v.held h;
                    exited = v.exited;
                    booked = v.booked;
                  },
                  refl,
                  refl,
                  refl,
                )
        ]
