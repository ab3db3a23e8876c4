-- ===== src/Position/Sums.antt =====
-- Sums over the entries and the trades of a position, under the operations of the exit loop
-- (ff_standard_lib/src/standardized_types/position.rs).
use fund_forge.Base.{suc, ◌≡◌, refl, none, some, List, [], ◌∷◌, true, arith}
use mathlib.Core.Path.{subst}
use mathlib.Core.Option.{some-injective}
use fund_forge.Base.Lists.{
  All, length, push_back, push_back-pop_back, pop_back-none, length-push_back, All-push_back,
  All-init,
}
use fund_forge.Decimal.{Decimal, IsExact, ◌⊕◌, ◌≺◌}
use fund_forge.Position.Types.{PositionCalculationMode, fifo, lifo, EntryPrice, Trade}
use fund_forge.Position.Exit.{pop_entry, keep_entry, restore}

module _ {D : Type 0} ⦃d : Decimal D⦄ where
  -- The volume of all entries.
  abbrev pub volume : List (EntryPrice D) → D
  volume [] = d.dec 0
  volume (e ∷ entries) = e.volume ⊕ volume entries

  -- The quantity that all trades exited.
  abbrev pub traded : List (Trade D) → D
  traded [] = d.dec 0
  traded (t ∷ trades) = t.exit_quantity ⊕ traded trades

  -- The profit of all trades.
  abbrev pub profits : List (Trade D) → D
  profits [] = d.dec 0
  profits (t ∷ trades) = t.profit ⊕ profits trades

  -- An entry is held as long as some of its volume is open.
  abbrev pub IsHeld : EntryPrice D → Type 0
  IsHeld e = (d.dec 0 ≺ e.volume) ≡ true

  module _ (ex : IsExact d) where
    open ex use {gain, loss, gain-dec, loss-dec, add_parts, eq_of_parts}

    pub volume-push_back :
        (xs : List (EntryPrice D)) (e : EntryPrice D)
        → volume (push_back xs e) ≡ volume xs ⊕ e.volume
    volume-push_back [] e = grind (arith, add_parts, eq_of_parts)
    volume-push_back (x ∷ xs) e = grind (arith, volume-push_back xs e, add_parts, eq_of_parts)

    pub traded-push_back :
        (xs : List (Trade D)) (t : Trade D) → traded (push_back xs t) ≡ traded xs ⊕ t.exit_quantity
    traded-push_back [] t = grind (arith, add_parts, eq_of_parts)
    traded-push_back (x ∷ xs) t = grind (arith, traded-push_back xs t, add_parts, eq_of_parts)

    pub profits-push_back :
        (xs : List (Trade D)) (t : Trade D) → profits (push_back xs t) ≡ profits xs ⊕ t.profit
    profits-push_back [] t = grind (arith, add_parts, eq_of_parts)
    profits-push_back (x ∷ xs) t = grind (arith, profits-push_back xs t, add_parts, eq_of_parts)

    -- What is popped and what stays make up the volume.
    pub volume-pop_entry :
        (mode : PositionCalculationMode) (xs : List (EntryPrice D)) (e : EntryPrice D)
        (es : List (EntryPrice D))
        → pop_entry mode xs ≡ some (e, es)
        → volume xs ≡ e.volume ⊕ volume es
    unfolding pop_entry
    volume-pop_entry fifo [] e es h = cc
    volume-pop_entry fifo (x ∷ xs) e es h = cc
    volume-pop_entry lifo xs e es h =
        rw (push_back-pop_back xs e es h)
          (grind (arith, volume-push_back es e, add_parts, eq_of_parts))

    pub volume-keep_entry :
        (mode : PositionCalculationMode) (e : EntryPrice D) (temp : List (EntryPrice D))
        → volume (keep_entry mode e temp) ≡ volume temp ⊕ e.volume
    unfolding keep_entry
    volume-keep_entry fifo e temp = volume-push_back temp e
    volume-keep_entry lifo e temp = grind (arith, add_parts, eq_of_parts)

    pub volume-restore :
        (mode : PositionCalculationMode) (temp entries : List (EntryPrice D))
        → volume (restore mode temp entries) ≡ volume temp ⊕ volume entries
    unfolding restore
    volume-restore fifo [] entries = grind (arith, add_parts, eq_of_parts)
    volume-restore lifo [] entries = grind (arith, add_parts, eq_of_parts)
    volume-restore fifo (e ∷ temp) entries =
        grind (arith, volume-restore fifo temp (e ∷ entries), add_parts, eq_of_parts)
    volume-restore lifo (e ∷ temp) entries = grind (
      arith,
      volume-restore lifo temp (push_back entries e),
      volume-push_back entries e,
      add_parts,
      eq_of_parts,
    )

  pub pop_entry-All :
      (P : EntryPrice D → Type 0) (mode : PositionCalculationMode) (xs : List (EntryPrice D))
      (e : EntryPrice D) (es : List (EntryPrice D))
      → pop_entry mode xs ≡ some (e, es)
      → All P xs
      → P e × All P es
  unfolding pop_entry
  pop_entry-All P fifo [] e es h k = cc
  pop_entry-All P fifo (x ∷ xs) e es h k =
      subst (λ (r : EntryPrice D × List (EntryPrice D)). P r.0 × All P r.1) (some-injective _ _ h) k
  pop_entry-All P lifo xs e es h k = All-init P es e (rw (push_back-pop_back xs e es h) at k)

  pub pop_entry-length :
      (mode : PositionCalculationMode) (xs : List (EntryPrice D)) (e : EntryPrice D)
      (es : List (EntryPrice D))
      → pop_entry mode xs ≡ some (e, es)
      → length xs ≡ suc (length es)
  unfolding pop_entry
  pop_entry-length fifo [] e es h = cc
  pop_entry-length fifo (x ∷ xs) e es h = ground arith
  pop_entry-length lifo xs e es h = rw (push_back-pop_back xs e es h) (length-push_back es e)

  pub pop_entry-none :
      (mode : PositionCalculationMode) (xs : List (EntryPrice D))
      → pop_entry mode xs ≡ none
      → xs ≡ []
  unfolding pop_entry
  pop_entry-none fifo [] h = refl
  pop_entry-none fifo (x ∷ xs) h = cc
  pop_entry-none lifo xs h = pop_back-none xs h

  pub keep_entry-IsHeld :
      (mode : PositionCalculationMode) (e : EntryPrice D) (temp : List (EntryPrice D))
      → IsHeld e
      → All IsHeld temp
      → All IsHeld (keep_entry mode e temp)
  unfolding keep_entry
  keep_entry-IsHeld fifo e temp h k = All-push_back IsHeld temp e k h
  keep_entry-IsHeld lifo e temp h k = (h, k)

  pub restore-IsHeld :
      (mode : PositionCalculationMode) (temp entries : List (EntryPrice D))
      → All IsHeld temp
      → All IsHeld entries
      → All IsHeld (restore mode temp entries)
  unfolding restore
  restore-IsHeld fifo [] entries h k = k
  restore-IsHeld lifo [] entries h k = k
  restore-IsHeld fifo (e ∷ temp) entries h k = restore-IsHeld fifo temp (e ∷ entries) h.1 (h.0, k)
  restore-IsHeld lifo (e ∷ temp) entries h k =
      restore-IsHeld lifo temp (push_back entries e) h.1 (All-push_back IsHeld entries e k h.0)
