-- ===== src/Consolidator/Candles.antt =====
-- The candles of a number of ticks
-- (ff_standard_lib/src/strategies/consolidators/count.rs).
use fund_forge.Base.{
  ℕ, suc, ◌≡◌, refl, ap, inl, inr, Bool, true, false, Option, none, some, List, [], ◌∷◌, arith,
}
use fund_forge.Base.Tests.{
  ◌>>=◌, if◌then◌else◌, Bool-cases, leb, nat_beq, Always, Always-some, >>=-Always, >>=-Always_any,
}
use fund_forge.Base.Lists.{length}
use fund_forge.Decimal.{Decimal, ◌⊕◌, ◌⊖◌, ◌≺◌, max, min}
use fund_forge.BaseData.{Candle, Tick, candle}
use fund_forge.Consolidator.{
  ConsolidatedData, CountConsolidator, round_price, empty_candle, first_tick, every_tick, give_out,
  update_tick,
}

fewer : (n k : ℕ) → leb (suc (suc n)) k ≡ true → nat_beq (suc n) k ≡ false
fewer n k h = ground (arith, h)

starts : (n : ℕ) → nat_beq (suc n) 0 ≡ false
starts n = ground arith

module _ {D : Type 0} ⦃d : Decimal D⦄ where
  -- What a candle is to say of some ticks, of which the latest comes first.
  abbrev pub first_price : Tick D → List (Tick D) → D
  first_price t [] = t.price
  first_price t (u ∷ ticks) = first_price u ticks

  abbrev pub highest : Tick D → List (Tick D) → D
  highest t [] = t.price
  highest t (u ∷ ticks) = max (highest u ticks) t.price

  abbrev pub lowest : Tick D → List (Tick D) → D
  lowest t [] = t.price
  lowest t (u ∷ ticks) = min (lowest u ticks) t.price

  -- The volume of the first tick is there twice.
  abbrev pub traded : Tick D → List (Tick D) → D
  traded t [] = t.volume ⊕ t.volume
  traded t (u ∷ ticks) = traded u ticks ⊕ t.volume

  abbrev pub Summarises : Tick D → List (Tick D) → Candle D → Type 0
  Summarises t ticks c =
      (c.open_price ≡ first_price t ticks)
      × (c.close ≡ t.price)
      × (c.high ≡ highest t ticks)
      × (c.low ≡ lowest t ticks)
      × (c.volume ≡ traded t ticks)

  max_self : (a : D) → max a a ≡ a
  max_self a = elim (Bool-cases (a ≺ a)) [
    | inl below ↦ rw below refl
    | inr not_below ↦ rw not_below refl
  ]

  min_self : (a : D) → min a a ≡ a
  min_self a = elim (Bool-cases (a ≺ a)) [
    | inl below ↦ rw below refl
    | inr not_below ↦ rw not_below refl
  ]

  first-Summarises :
      (c : CountConsolidator D) (t : Tick D) (current : Candle D)
      → Always (Summarises t []) (every_tick c t (first_tick t current))
  unfolding every_tick first_tick
  first-Summarises c t current =
      >>=-Always_any (Summarises t [])
        (round_price c.market_type (max t.price t.price ⊖ min t.price t.price) c.tick_size
          c.decimal_accuracy)
        _ λ range. (refl, refl, max_self t.price, min_self t.price, refl)

  next-Summarises :
      (c : CountConsolidator D) (t u : Tick D) (ticks : List (Tick D)) (current : Candle D)
      → Summarises u ticks current
      → Always (Summarises t (u ∷ ticks)) (every_tick c t current)
  unfolding every_tick
  next-Summarises c t u ticks current (o, _, h, l, v) =
      >>=-Always_any (Summarises t (u ∷ ticks))
        (round_price c.market_type (max current.high t.price ⊖ min current.low t.price) c.tick_size
          c.decimal_accuracy)
        _
        λ range.
          (o, refl, ap (λ x. max x t.price) h, ap (λ x. min x t.price) l, ap (λ x. x ⊕ t.volume) v)

  -- What is given out after the latest of some ticks: a closed candle of all of them, if their number
  -- is reached, and none otherwise.
  abbrev pub GivesOut : Bool → Tick D → List (Tick D) → ConsolidatedData D → Type 0
  GivesOut true t ticks r =
      (c : Candle D) × (r.closed_data ≡ some (candle c))
      × (c.is_closed ≡ true)
      × Summarises t ticks c
  GivesOut false t ticks r = r.closed_data ≡ none

  -- The ticks of the current candle.
  abbrev pub HoldsTicks : ℕ → List (Tick D) → CountConsolidator D → Type 0
  HoldsTicks number [] c = (c.number ≡ number) × (c.counter ≡ 0)
  HoldsTicks number (t ∷ ticks) c =
      (c.number ≡ number) × (c.counter ≡ suc (length ticks)) × Summarises t ticks c.current_data

  -- The state after the latest of some ticks.
  abbrev pub Continues : Bool → ℕ → Tick D → List (Tick D) → CountConsolidator D → Type 0
  Continues true number t ticks c = HoldsTicks number [] c
  Continues false number t ticks c = HoldsTicks number (t ∷ ticks) c

  abbrev pub Steps : ℕ → Tick D → List (Tick D) → ConsolidatedData D × CountConsolidator D → Type 0
  Steps number t ticks (given, c) =
      GivesOut (nat_beq (suc (length ticks)) number) t ticks given
      × Continues (nat_beq (suc (length ticks)) number) number t ticks c

  give_out-Steps :
      (number : ℕ) (c : CountConsolidator D) (t : Tick D) (ticks : List (Tick D))
      (current : Candle D)
      → c.number ≡ number
      → c.counter ≡ length ticks
      → Summarises t ticks current
      → Always (Steps number t ticks) (give_out c t current)
  unfolding give_out
  give_out-Steps number c t ticks current e k h =
      elim (Bool-cases (nat_beq (suc (length ticks)) number)) [
        | inl last_one ↦
            rw (give_out, k, e, last_one)
              (>>=-Always_any _ (empty_candle c.subscription t.time number) _ λ next.
                rw last_one ((record current { is_closed = true }, refl, refl, h), (refl, refl)))
        | inr more ↦ rw (give_out, k, e, more) (rw more (refl, (refl, refl, h)))
      ]

  update_tick-Steps :
      (number : ℕ) (c : CountConsolidator D) (t : Tick D) (ticks : List (Tick D))
      → HoldsTicks number ticks c
      → Always (Steps number t ticks) (update_tick c t)
  unfolding update_tick
  update_tick-Steps number c t [] (e, k) =
      >>=-Always (Summarises t []) (Steps number t [])
        (every_tick c t
          (if nat_beq c.counter 0 then first_tick t c.current_data else c.current_data))
        _ (rw k (first-Summarises c t c.current_data))
        λ current h. give_out-Steps number c t [] current e k h
  update_tick-Steps number c t (u ∷ ticks) (e, k, held) =
      >>=-Always (Summarises t (u ∷ ticks)) (Steps number t (u ∷ ticks))
        (every_tick c t
          (if nat_beq c.counter 0 then first_tick t c.current_data else c.current_data))
        _ (rw (k, starts (length ticks)) (next-Summarises c t u ticks c.current_data held))
        λ current h. give_out-Steps number c t (u ∷ ticks) current e k h

  -- The consolidator after some ticks, of which the latest comes first.
  unfoldable pub fed_ticks : CountConsolidator D → List (Tick D) → Option (CountConsolidator D)
  fed_ticks c [] = some c
  fed_ticks c (t ∷ ticks) = do m ← fed_ticks c ticks; (_, after) ← update_tick m t; some after

  fed-HoldsTicks :
      (c : CountConsolidator D) (ticks : List (Tick D))
      → c.counter ≡ 0
      → leb (suc (length ticks)) c.number ≡ true
      → Always (HoldsTicks c.number ticks) (fed_ticks c ticks)
  unfolding fed_ticks
  fed-HoldsTicks c [] start h = (refl, start)
  fed-HoldsTicks c (t ∷ ticks) start h =
      >>=-Always (HoldsTicks c.number ticks) (HoldsTicks c.number (t ∷ ticks)) (fed_ticks c ticks) _
        (fed-HoldsTicks c ticks start (ground (arith, h)))
        λ m held.
          >>=-Always (Steps c.number t ticks) (HoldsTicks c.number (t ∷ ticks)) (update_tick m t) _
            (update_tick-Steps c.number m t ticks held)
            λ r (_, continues). rw (fewer (length ticks) c.number h) at continues

  -- From a state without ticks on, a tick up to the one that completes the number gives out a
  -- closed candle exactly if it completes it: with the first price, the last, the highest, the
  -- lowest, and the volume of all ticks with that of the first counted twice. The state after it
  -- is again one without ticks, if no call panics.
  pub update_tick-GivesOut :
      (c : CountConsolidator D) (t : Tick D) (ticks : List (Tick D)) (m : CountConsolidator D)
      → c.counter ≡ 0
      → leb (suc (length ticks)) c.number ≡ true
      → fed_ticks c ticks ≡ some m
      → Always
          (λ r.
            GivesOut (nat_beq (suc (length ticks)) c.number) t ticks r.0
            × Continues (nat_beq (suc (length ticks)) c.number) c.number t ticks r.1)
          (update_tick m t)
  update_tick-GivesOut c t ticks m start h known = update_tick-Steps c.number m t ticks (
      Always-some (HoldsTicks c.number ticks) (fed_ticks c ticks) (fed-HoldsTicks c ticks start h)
        known)
