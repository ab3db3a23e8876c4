-- ===== src/Prices/Volume.antt =====
-- The volume of an estimated fill
-- (ff_standard_lib/src/strategies/handlers/market_handler/price_service.rs).
use fund_forge.Base.{
  ℕ, zero, suc, ◌≡◌, inl, inr, Bool, true, false, ◌&&◌, Option, none, some, arith,
}
use fund_forge.Base.Tests.{
  if◌then◌else◌, Bool-cases, Option-cases, nat_eq, nat_beq, string_eq, Always, >>=-Always,
  >>=-Always_any, if-Always, elim-Always, Always-some,
}
use fund_forge.Base.Lists.{length}
use fund_forge.Base.Dict.{lookup}
use fund_forge.Decimal.{Decimal, IsExact, ◌⊕◌, ◌≺◌, ◌≐◌}
use fund_forge.Market.{SymbolName, SymbolCode, OrderSide}
use fund_forge.Prices.{
  Book, BookLevel, Walk, Ending, unknown_volume, all_filled, book_ended, out_of_fuel, start,
  take_level, walk, averaged, estimate, estimate_book, or_last_price, order_book, beyond_limit,
  estimate_limit_fill, MarketPriceService,
}

module _ {D : Type 0} ⦃d : Decimal D⦄ where
  -- What is filled and what remains make up the volume, and what remains is not negative.
  record Splits (volume : D) (w : Walk D) : Type 0 where
    pub whole_volume : w.total_volume_filled ⊕ w.remaining_volume ≡ volume
    pub rest_nonneg : (w.remaining_volume ≺ d.dec 0) ≡ false

  abbrev EndSplits : D → Ending D → Type 0
  EndSplits volume (unknown_volume _) = Unit
  EndSplits volume (all_filled w) = Splits volume w
  EndSplits volume (book_ended w) = Splits volume w
  EndSplits volume out_of_fuel = Unit

  -- The cases of one level.
  level-Splits :
      (volume : D) (unknown at_first beyond done : Bool) (price : D) (w taken : Walk D)
      (skip next : Ending D)
      → Splits volume w
      → Splits volume taken
      → EndSplits volume skip
      → EndSplits volume next
      → EndSplits volume (
          if unknown
          then (if at_first then unknown_volume price else skip)
          else if beyond
          then book_ended w
          else if done
          then all_filled taken
          else next)
  level-Splits volume true true beyond done price w taken skip next h t k n = tt
  level-Splits volume true false beyond done price w taken skip next h t k n = k
  level-Splits volume false at_first true done price w taken skip next h t k n = h
  level-Splits volume false at_first false true price w taken skip next h t k n = t
  level-Splits volume false at_first false false price w taken skip next h t k n = n

  -- A fill of at most the volume.
  abbrev pub AtMost : D → Option (D × D) → Type 0
  AtMost volume none = Unit
  AtMost volume (some (price, filled)) = (volume ≺ filled) ≡ false

  module _ (ex : IsExact d) where
    open ex use {gain, loss, gain-dec, loss-dec, add_parts, sub_parts, lt_parts, eq_of_parts}

    start-Splits : (volume : D) → (volume ≺ d.dec 0) ≡ false → Splits volume (start volume)
    unfolding start
    start-Splits volume h = record {
      whole_volume = grind (arith, gain-dec, loss-dec, add_parts, eq_of_parts);
      rest_nonneg = h;
    }

    take-Splits :
        (volume : D) (b : BookLevel D) (w : Walk D)
        → Splits volume w
        → Splits volume (take_level b w)
    unfolding take_level
    take-Splits volume b w h = elim (Bool-cases (b.volume ≺ w.remaining_volume)) [
      | inl more ↦
          rw (take_level, more)
            (record {
              whole_volume = grind (arith, h.whole_volume, add_parts, sub_parts, eq_of_parts);
              rest_nonneg = grind (arith, more, lt_parts, sub_parts, gain-dec, loss-dec);
            })
      | inr enough ↦
          rw (take_level, enough)
            (record {
              whole_volume = grind (arith, h.whole_volume, add_parts, sub_parts, eq_of_parts);
              rest_nonneg = grind (arith, lt_parts, sub_parts, gain-dec, loss-dec);
            })
    ]

    walk-Splits :
        (beyond : D → Bool) (at_start : ℕ → Bool) (volume : D) (book : Book D) (fuel level : ℕ)
        (w : Walk D)
        → Splits volume w
        → EndSplits volume (walk beyond at_start book fuel level w)
    unfolding walk
    walk-Splits beyond at_start volume book zero level w h = tt
    walk-Splits beyond at_start volume book (suc fuel) level w h =
        elim (Option-cases (lookup level book)) [
          | inl absent ↦ rw (walk, EndSplits, absent) h
          | inr (b, found) ↦
              rw (walk, found)
                (level-Splits volume (b.volume ≐ d.dec 0)
                  ((w.total_volume_filled ≐ d.dec 0) && at_start level) (beyond b.price)
                  ((take_level b w).remaining_volume ≐ d.dec 0) b.price w (take_level b w) _ _ h
                  (take-Splits volume b w h)
                  (walk-Splits beyond at_start volume book fuel (suc level) w h)
                  (walk-Splits beyond at_start volume book fuel (suc level) (take_level b w)
                    (take-Splits volume b w h)))
        ]

    -- The fill is what the volume was less what remains.
    filled_at_most :
        (volume : D) (w : Walk D) → Splits volume w → (volume ≺ w.total_volume_filled) ≡ false
    filled_at_most volume w h =
        grind (arith, h.whole_volume, h.rest_nonneg, lt_parts, add_parts, gain-dec, loss-dec)

    averaged-AtMost :
        (volume : D) (w : Walk D) → Splits volume w → Always (AtMost volume) (averaged w)
    unfolding averaged
    averaged-AtMost volume w h =
        >>=-Always_any (AtMost volume) (d.div w.total_price_volume w.total_volume_filled) _
          λ _. filled_at_most volume w h

    same_volume : (volume : D) → (volume ≺ volume) ≡ false
    same_volume volume = grind (arith, lt_parts)

    estimate-AtMost :
        (volume : D) (ending : Ending D)
        → EndSplits volume ending
        → Always (AtMost volume) (estimate volume ending)
    unfolding estimate
    estimate-AtMost volume (unknown_volume price) h = same_volume volume
    estimate-AtMost volume (all_filled w) h = averaged-AtMost volume w h
    estimate-AtMost volume (book_ended w) h =
        if-Always (AtMost volume) (d.dec 0 ≺ w.total_volume_filled) (averaged w) _
          (averaged-AtMost volume w h) tt
    estimate-AtMost volume out_of_fuel h = tt

    last-AtMost :
        (name : SymbolName) (volume : D) (m : MarketPriceService D) (fill : Option (D × D))
        → AtMost volume fill
        → AtMost volume (or_last_price name volume m fill)
    unfolding or_last_price
    last-AtMost name volume m (some (price, filled)) h = h
    last-AtMost name volume m none h = elim (Option-cases (lookup name m.last_price)) [
      | inl absent ↦ rw (or_last_price, absent) tt
      | inr (price, found) ↦ rw (or_last_price, found) (same_volume volume)
    ]

    book-AtMost :
        (beyond : D → Bool) (at_start : ℕ → Bool) (side : OrderSide) (name : SymbolName)
        (code : SymbolCode) (volume : D) (m : MarketPriceService D)
        → (volume ≺ d.dec 0) ≡ false
        → Always (AtMost volume) (estimate_book beyond at_start side name code volume m)
    unfolding estimate_book
    book-AtMost beyond at_start side name code volume m h =
        elim-Always (AtMost volume) (order_book side name code m) _ _ tt λ book.
          let ending = walk beyond at_start book (suc (length book)) 0 (start volume) in
          estimate-AtMost volume ending (
            walk-Splits beyond at_start volume book (suc (length book)) 0 (start volume)
              (start-Splits volume h))

    limit_fill-AtMost :
        (side : OrderSide) (name : SymbolName) (code : SymbolCode) (volume limit : D)
        (m : MarketPriceService D)
        → (volume ≺ d.dec 0) ≡ false
        → Always (AtMost volume) (estimate_limit_fill side name code volume limit m)
    unfolding estimate_limit_fill
    limit_fill-AtMost side name code volume limit m h =
        >>=-Always (AtMost volume) (AtMost volume)
          (estimate_book (beyond_limit side limit) (λ level. nat_beq level 0) side name code volume
            m)
          _
          (book-AtMost (beyond_limit side limit) (λ level. nat_beq level 0) side name code volume m
            h)
          (last-AtMost name volume m)

    -- An estimate of a limit order's fill, if it does not panic, is for no more than the volume that
    -- is asked for, which must not be negative.
    pub fill_at_most :
        (side : OrderSide) (name : SymbolName) (code : SymbolCode) (volume limit price filled : D)
        (m : MarketPriceService D)
        → (volume ≺ d.dec 0) ≡ false
        → estimate_limit_fill side name code volume limit m ≡ some (some (price, filled))
        → (volume ≺ filled) ≡ false
    fill_at_most side name code volume limit price filled m h e =
        Always-some (AtMost volume) (estimate_limit_fill side name code volume limit m)
          (limit_fill-AtMost side name code volume limit m h) e
