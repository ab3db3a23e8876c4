-- ===== src/Prices/Fuel.antt =====
-- The fuel of the walk through a book
-- (ff_standard_lib/src/strategies/handlers/market_handler/price_service.rs).
use fund_forge.Base.{
  ℕ, zero, suc, ◌+◌, ◌<◌, ◌≡◌, refl, sym, ap, ◌≢◌, ◌∙◌, inl, inr, Bool, true, false, ◌&&◌, none,
  some, [], ◌∷◌, arith,
}
use fund_forge.Base.Tests.{if◌then◌else◌, ◌==◌, Option-cases, Bool-cases, nat_eq, beq_ne}
use fund_forge.Base.Lists.{length}
use fund_forge.Base.Dict.{Dict, lookup, erase, lookup-erase}
use fund_forge.Decimal.{Decimal, ◌≐◌}
use fund_forge.Prices.{
  Book, BookLevel, Walk, Ending, unknown_volume, all_filled, book_ended, out_of_fuel, take_level,
  walk,
}

length-erase_le : {V : Type 0} (k : ℕ) (m : Dict ℕ V) → length (erase k m) < suc (length m)
unfolding erase
length-erase_le k [] = omega arith
length-erase_le k ((j, v) ∷ m) = ground (arith, length-erase_le k m)

-- A key that is found takes an entry with it when it is removed.
length-erase :
    {V : Type 0} (k : ℕ) (m : Dict ℕ V) {v : V}
    → lookup k m ≡ some v
    → length (erase k m) < length m
unfolding erase lookup
length-erase k [] h = cc
length-erase k ((j, v) ∷ m) h = elim (Bool-cases (j == k)) [
  | inl same ↦ rw same (length-erase_le k m)
  | inr other ↦ rw other (grind (arith, length-erase k m (rw other at h)))
]

module _ {D : Type 0} ⦃d : Decimal D⦄ where
  -- The cases of one level, by what the walk of the next levels gives.
  abbrev at_level :
      (beyond : D → Bool) (at_first : Bool)
      → BookLevel D
      → Walk D
      → (skip next : Ending D) → Ending D
  unfolding take_level
  at_level beyond at_first b w skip next =
      if b.volume ≐ d.dec 0
      then (if (w.total_volume_filled ≐ d.dec 0) && at_first then unknown_volume b.price else skip)
      else if beyond b.price
      then book_ended w
      else if (take_level b w).remaining_volume ≐ d.dec 0
      then all_filled (take_level b w)
      else next

  at_level-ap :
      (beyond : D → Bool) (at_first : Bool) (b : BookLevel D) (w : Walk D)
      {skip skip' next next' : Ending D}
      → skip ≡ skip'
      → next ≡ next'
      → at_level beyond at_first b w skip next ≡ at_level beyond at_first b w skip' next'
  at_level-ap beyond at_first b w {skip} {skip'} {next} {next'} s n =
      ap (λ k. at_level beyond at_first b w k next) s
      ∙ ap (λ k. at_level beyond at_first b w skip' k) n

  walk-absent :
      (beyond : D → Bool) (at_start : ℕ → Bool) (book : Book D) (fuel level : ℕ) (w : Walk D)
      → lookup level book ≡ none
      → walk beyond at_start book (suc fuel) level w ≡ book_ended w
  unfolding walk
  walk-absent beyond at_start book fuel level w h = rw (walk, h)

  walk-found :
      (beyond : D → Bool) (at_start : ℕ → Bool) (book : Book D) (fuel level : ℕ) (w : Walk D)
      (b : BookLevel D)
      → lookup level book ≡ some b
      → walk beyond at_start book (suc fuel) level w
        ≡ at_level beyond
            (at_start level)
            b
            w
            (walk beyond at_start book fuel (suc level) w)
            (walk beyond at_start book fuel (suc level) (take_level b w))
  unfolding walk at_level
  walk-found beyond at_start book fuel level w b h = rw (walk, h)

  -- The levels that have been visited do not matter.
  walk-erase :
      (beyond : D → Bool) (at_start : ℕ → Bool) (book : Book D) (fuel visited level : ℕ)
      (w : Walk D)
      → visited < level
      → walk beyond at_start (erase visited book) fuel level w
        ≡ walk beyond at_start book fuel level w
  unfolding walk
  walk-erase beyond at_start book zero visited level w h = refl
  walk-erase beyond at_start book (suc fuel) visited level w h =
      let same : lookup level (erase visited book) ≡ lookup level book =
        rw (lookup-erase visited level book, beq_ne visited level (λ e. omega (arith, h, e))) in
      let later = λ (v : Walk D).
        walk-erase beyond at_start book fuel visited (suc level) v (omega (arith, h)) in
      elim (Option-cases (lookup level book)) [
        | inl absent ↦
            walk-absent beyond at_start (erase visited book) fuel level w (same ∙ absent)
            ∙ sym (walk-absent beyond at_start book fuel level w absent)
        | inr (b, found) ↦
            walk-found beyond at_start (erase visited book) fuel level w b (same ∙ found)
            ∙ at_level-ap beyond (at_start level) b w (later w) (later (take_level b w))
            ∙ sym (walk-found beyond at_start book fuel level w b found)
      ]

  -- One more unit of fuel makes no difference if there are more units than levels.
  walk-suc :
      (beyond : D → Bool) (at_start : ℕ → Bool) (book : Book D) (fuel level : ℕ) (w : Walk D)
      → length book < fuel
      → walk beyond at_start book (suc fuel) level w ≡ walk beyond at_start book fuel level w
  walk-suc beyond at_start book zero level w h = absurd (omega (arith, h))
  walk-suc beyond at_start book (suc fuel) level w h = elim (Option-cases (lookup level book)) [
    | inl absent ↦
        walk-absent beyond at_start book (suc fuel) level w absent
        ∙ sym (walk-absent beyond at_start book fuel level w absent)
    | inr (b, found) ↦
        let rest = erase level book in
        let fewer : length rest < fuel = omega (arith, length-erase level book found, h) in
        let later = λ (v : Walk D).
          sym (walk-erase beyond at_start book (suc fuel) level (suc level) v (omega arith))
          ∙ walk-suc beyond at_start rest fuel (suc level) v fewer
          ∙ walk-erase beyond at_start book fuel level (suc level) v (omega arith) in
        walk-found beyond at_start book (suc fuel) level w b found
        ∙ at_level-ap beyond (at_start level) b w (later w) (later (take_level b w))
        ∙ sym (walk-found beyond at_start book fuel level w b found)
  ]

  -- A level ends the walk, or hands it to a walk that ends.
  if_Ends :
      (unknown at_first beyond done : Bool) (price : D) (w taken : Walk D) (skip next : Ending D)
      → skip ≢ out_of_fuel
      → next ≢ out_of_fuel
      → (if unknown
          then (if at_first then unknown_volume price else skip)
          else if beyond
          then book_ended w
          else if done
          then all_filled taken
          else next)
        ≢ out_of_fuel
  if_Ends true true beyond done price w taken skip next s n h = cc
  if_Ends true false beyond done price w taken skip next s n h = s h
  if_Ends false at_first true done price w taken skip next s n h = cc
  if_Ends false at_first false true price w taken skip next s n h = cc
  if_Ends false at_first false false price w taken skip next s n h = n h

  walk-Ends :
      (beyond : D → Bool) (at_start : ℕ → Bool) (book : Book D) (fuel level : ℕ) (w : Walk D)
      → length book < fuel
      → walk beyond at_start book fuel level w ≢ out_of_fuel
  unfolding at_level
  walk-Ends beyond at_start book zero level w h = absurd (omega (arith, h))
  walk-Ends beyond at_start book (suc fuel) level w h = elim (Option-cases (lookup level book)) [
    | inl absent ↦ λ e. cc (walk-absent beyond at_start book fuel level w absent, e)
    | inr (b, found) ↦
        let later = λ (v : Walk D) (e : walk beyond at_start book fuel (suc level) v ≡ out_of_fuel).
          walk-Ends beyond at_start (erase level book) fuel (suc level) v
            (omega (arith, length-erase level book found, h))
            (walk-erase beyond at_start book fuel level (suc level) v (omega arith) ∙ e) in
        λ e.
          if_Ends (b.volume ≐ d.dec 0) ((w.total_volume_filled ≐ d.dec 0) && at_start level)
            (beyond b.price) ((take_level b w).remaining_volume ≐ d.dec 0) b.price w
            (take_level b w) _ _ (later w) (later (take_level b w))
            (sym (walk-found beyond at_start book fuel level w b found) ∙ e)
  ]

  more_fuel :
      (beyond : D → Bool) (at_start : ℕ → Bool) (book : Book D) (further fuel level : ℕ)
      (w : Walk D)
      → length book < fuel
      → walk beyond at_start book (further + fuel) level w ≡ walk beyond at_start book fuel level w
  more_fuel beyond at_start book zero fuel level w h =
      ap (λ units. walk beyond at_start book units level w) (omega arith)
  more_fuel beyond at_start book (suc further) fuel level w h =
      ap (λ units. walk beyond at_start book units level w) (omega arith)
      ∙ walk-suc beyond at_start book (further + fuel) level w (omega (arith, h))
      ∙ more_fuel beyond at_start book further fuel level w h

  -- With more units of fuel than the book has levels, the walk through a book ends before it is out
  -- of fuel, and with whatever further fuel it ends in the same way.
  pub walk-enough :
      (beyond : D → Bool) (at_start : ℕ → Bool) (book : Book D) (further fuel level : ℕ)
      (w : Walk D)
      → length book < fuel
      → (walk beyond at_start book fuel level w ≢ out_of_fuel)
        × (walk beyond at_start book (further + fuel) level w
            ≡ walk beyond at_start book fuel level w)
  walk-enough beyond at_start book further fuel level w h = (
    walk-Ends beyond at_start book fuel level w h,
    more_fuel beyond at_start book further fuel level w h,
  )
