-- ===== src/Matching/Gone.antt =====
-- The orders that a round of the matching engine takes out of the open ones
-- (ff_standard_lib/src/strategies/handlers/market_handler/backtest_matching_engine.rs).
use fund_forge.Base.{◌≡◌, ap, ◌∙◌, ◌≢◌, ◌⊎◌, inl, inr, true, false, none, some, String}
use fund_forge.Base.Tests.{
  ◌==◌, ◌>>=◌, Bool-cases, Option-cases, beq_refl, Always, Always-map, Always-intro, >>=-Always,
  >>=-Always_any, string_eq,
}
use fund_forge.Base.Lists.{any}
use fund_forge.Base.Dict.{lookup, lookup-erase_self}
use fund_forge.Decimal.{Decimal}
use fund_forge.Market.{OrderId}
use fund_forge.Ledger.Service.{update_or_create_position}
use fund_forge.Matching.{Engine, Moment, priced}
use fund_forge.Matching.Settlement.{
  Verdicts, send_event, close_order, take_out, reject_taken, reject_order, cancel_taken,
  cancel_order, ledger_fill, fill_taken, fill_order, partially_fill_order, for_each, try_each,
  settle_verdicts,
}
use fund_forge.Matching.Loops.{for_each_invariant, try_each-Always, for_each-hit, try_each-hit}
use fund_forge.Matching.Frame.{
  reject-Stays, cancel-Stays, fill-Stays, part-Stays, settle_fill-Stays,
}

differs : (id other : OrderId) → (other == id) ≡ false → other ≢ id
differs id other h equal = cc (ap (λ i. i == id) equal, beq_refl id, h)

module _ {D : Type 0} ⦃d : Decimal D⦄ (id : OrderId) where
  -- No open order has the identifier.
  abbrev pub IsGone : Engine D → Type 0
  IsGone e = lookup id e.open_orders ≡ none

  erased-IsGone :
      (other : OrderId) (e : Engine D) → (other == id) ≡ true → IsGone (take_out other e)
  unfolding take_out
  erased-IsGone other e same =
      rw ((string_eq.beq_iff other id).0 same) (lookup-erase_self id e.open_orders)

  reject-makes :
      (m : Moment D) (entry : OrderId × String) (e : Engine D)
      → (entry.0 == id) ≡ true
      → IsGone (reject_order m entry e)
  unfolding reject_order reject_taken close_order send_event
  reject-makes m (other, reason) e same = elim (Option-cases (lookup other e.open_orders)) [
    | inl absent ↦ rw (reject_order, absent) (rw ((string_eq.beq_iff other id).0 same) at absent)
    | inr (o, found) ↦ rw (reject_order, found) (erased-IsGone other e same)
  ]

  cancel-makes :
      (m : Moment D) (entry : OrderId × String) (e : Engine D)
      → (entry.0 == id) ≡ true
      → IsGone (cancel_order m entry e)
  unfolding cancel_order cancel_taken close_order send_event
  cancel-makes m (other, reason) e same = elim (Option-cases (lookup other e.open_orders)) [
    | inl absent ↦ rw (cancel_order, absent) (rw ((string_eq.beq_iff other id).0 same) at absent)
    | inr (o, found) ↦ rw (cancel_order, found) (erased-IsGone other e same)
  ]

  fill-makes :
      (m : Moment D) (entry : OrderId × D) (e : Engine D)
      → (entry.0 == id) ≡ true
      → Always IsGone (fill_order m entry e)
  unfolding fill_order fill_taken
  fill-makes m (other, price) e same = elim (Option-cases (lookup other e.open_orders)) [
    | inl absent ↦ rw (fill_order, absent) (rw ((string_eq.beq_iff other id).0 same) at absent)
    | inr (o, found) ↦
        rw (fill_order, found)
          (>>=-Always_any IsGone
            (update_or_create_position (priced m) o.account
              (ledger_fill m other o price o.quantity_open) (take_out other e).ledgers)
            _ λ r. settle_fill-Stays id none m o price r.0 _ (erased-IsGone other e same))
  ]

  reject-keeps :
      (m : Moment D) (entry : OrderId × String) (e : Engine D)
      → IsGone e
      → IsGone (reject_order m entry e)
  reject-keeps m entry e gone = elim (Bool-cases (entry.0 == id)) [
    | inl same ↦ reject-makes m entry e same
    | inr other ↦ reject-Stays id none m entry e (differs id entry.0 other) gone
  ]

  cancel-keeps :
      (m : Moment D) (entry : OrderId × String) (e : Engine D)
      → IsGone e
      → IsGone (cancel_order m entry e)
  cancel-keeps m entry e gone = elim (Bool-cases (entry.0 == id)) [
    | inl same ↦ cancel-makes m entry e same
    | inr other ↦ cancel-Stays id none m entry e (differs id entry.0 other) gone
  ]

  fill-keeps :
      (m : Moment D) (entry : OrderId × D) (e : Engine D)
      → IsGone e
      → Always IsGone (fill_order m entry e)
  fill-keeps m entry e gone = elim (Bool-cases (entry.0 == id)) [
    | inl same ↦ fill-makes m entry e same
    | inr other ↦ fill-Stays id none m entry e (differs id entry.0 other) gone
  ]

  part-keeps :
      (m : Moment D) (entry : OrderId × D × D) (e : Engine D)
      → IsGone e
      → Always IsGone (partially_fill_order m entry e)
  unfolding partially_fill_order
  part-keeps m (other, price, volume) e gone = elim (Bool-cases (other == id)) [
    | inl same ↦
        rw
          (
            partially_fill_order,
            ap (λ i. lookup i e.open_orders) ((string_eq.beq_iff other id).0 same) ∙ gone,
          )
          gone
    | inr different ↦
        part-Stays id none m (other, price, volume) e (differs id other different) gone
  ]

  -- Whether one of the lists that take an order out has the identifier.
  abbrev pub IsListed : Verdicts D → Type 0
  IsListed vs =
      (any (λ entry. entry.0 == id) vs.rejected ≡ true)
      ⊎ (any (λ entry. entry.0 == id) vs.filled ≡ true)
      ⊎ (any (λ entry. entry.0 == id) vs.cancelled ≡ true)

  after_rejections :
      (m : Moment D) (vs : Verdicts D) (e : Engine D)
      → IsListed vs
      → IsGone (for_each (reject_order m) vs.rejected e)
        ⊎ (any (λ entry. entry.0 == id) vs.filled ≡ true)
        ⊎ (any (λ entry. entry.0 == id) vs.cancelled ≡ true)
  after_rejections m vs e (inl h) = inl (
      for_each-hit IsGone (λ entry. entry.0 == id) (reject_order m) vs.rejected e (reject-makes m)
        (reject-keeps m) h)
  after_rejections m vs e (inr h) = inr h

  after_fills :
      (m : Moment D) (vs : Verdicts D) (e : Engine D)
      → IsGone e
        ⊎ (any (λ entry. entry.0 == id) vs.filled ≡ true)
        ⊎ (any (λ entry. entry.0 == id) vs.cancelled ≡ true)
      → Always
          (λ after. IsGone after ⊎ (any (λ entry. entry.0 == id) vs.cancelled ≡ true))
          (try_each (fill_order m) vs.filled e)
  after_fills m vs e (inl gone) =
      Always-map IsGone _ (try_each (fill_order m) vs.filled e)
        (try_each-Always IsGone (fill_order m) vs.filled e (fill-keeps m) gone) λ _. inl
  after_fills m vs e (inr (inl h)) =
      Always-map IsGone _ (try_each (fill_order m) vs.filled e)
        (try_each-hit IsGone (λ entry. entry.0 == id) (fill_order m) vs.filled e (fill-makes m)
          (fill-keeps m) h)
        λ _. inl
  after_fills m vs e (inr (inr h)) =
      Always-intro _ (try_each (fill_order m) vs.filled e) λ _ _. inr h

  after_parts :
      (m : Moment D) (vs : Verdicts D) (e : Engine D)
      → IsGone e ⊎ (any (λ entry. entry.0 == id) vs.cancelled ≡ true)
      → Always IsGone (
          try_each (partially_fill_order m) vs.partially_filled e >>= λ settled.
          some (for_each (cancel_order m) vs.cancelled settled))
  after_parts m vs e (inl gone) =
      >>=-Always IsGone IsGone (try_each (partially_fill_order m) vs.partially_filled e) _
        (try_each-Always IsGone (partially_fill_order m) vs.partially_filled e (part-keeps m) gone)
        λ settled gone'.
          for_each_invariant IsGone (cancel_order m) vs.cancelled settled (cancel-keeps m) gone'
  after_parts m vs e (inr h) =
      >>=-Always_any IsGone (try_each (partially_fill_order m) vs.partially_filled e) _ λ settled.
        for_each-hit IsGone (λ entry. entry.0 == id) (cancel_order m) vs.cancelled settled
          (cancel-makes m) (cancel-keeps m) h

  pub settle_verdicts-IsGone :
      (m : Moment D) (vs : Verdicts D) (e : Engine D)
      → IsListed vs
      → Always IsGone (settle_verdicts m vs e)
  unfolding settle_verdicts
  settle_verdicts-IsGone m vs e h =
      >>=-Always (λ after. IsGone after ⊎ (any (λ entry. entry.0 == id) vs.cancelled ≡ true)) IsGone
        (try_each (fill_order m) vs.filled (for_each (reject_order m) vs.rejected e)) _
        (after_fills m vs _ (after_rejections m vs e h)) λ filled h'. after_parts m vs filled h'
