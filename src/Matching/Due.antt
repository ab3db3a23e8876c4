-- ===== src/Matching/Due.antt =====
-- The open orders that end in the next round of matching
-- (ff_standard_lib/src/strategies/handlers/market_handler/backtest_matching_engine.rs).
use mathlib.Core.Option.{some-injective}
use mathlib.Core.Path.{subst}
use fund_forge.Base.{◌≡◌, refl, sym, ap, ◌∙◌, arith, ◌⊎◌, inl, inr, true, none, some, List, [], ◌∷◌}
use fund_forge.Base.Tests.{
  ◌==◌, leb, Bool-cases, Option-cases, beq_refl, Always, Always-some, if-Always, >>=-Always,
  >>=-Always_any, string_eq,
}
use fund_forge.Base.Lists.{any, push_back, any-push_back}
use fund_forge.Base.Dict.{Dict, lookup}
use fund_forge.Base.Holds.{Holds}
use fund_forge.Decimal.{Decimal}
use fund_forge.Market.{OrderId}
use fund_forge.Prices.{estimate_fill_price}
use fund_forge.Orders.{OrderType, TimeInForce, Order}
use fund_forge.Ledger.Service.{LedgerService, run_task}
use fund_forge.Matching.{Engine, Moment, priced}
use fund_forge.Matching.Verdicts.{
  Verdict, waits, rejects, cancels, fills, fills_part, day_ends, time_ends, expiry, fill_at_market,
  match_type, match_order,
}
use fund_forge.Matching.Settlement.{
  Verdicts, no_verdicts, add_verdict, match_orders, simulated_order_matching,
}
use fund_forge.Matching.Tidy.{IsTidy}
use fund_forge.Matching.Gone.{IsGone, IsListed, settle_verdicts-IsGone}

add-hit :
    {A : Type 0} (id : OrderId) (entries : List (OrderId × A)) (a : A) (other : OrderId)
    → other ≡ id
    → any (λ entry. entry.0 == id) (push_back entries (other, a)) ≡ true
add-hit id entries a other h =
    any-push_back (λ entry. entry.0 == id) entries (other, a)
    ∙ ground (arith, beq_refl id, ap (λ i. i == id) h)

add-kept :
    {A : Type 0} (id : OrderId) (entries : List (OrderId × A)) (entry : OrderId × A)
    → any (λ entry. entry.0 == id) entries ≡ true
    → any (λ entry. entry.0 == id) (push_back entries entry) ≡ true
add-kept id entries entry h =
    any-push_back (λ entry. entry.0 == id) entries entry ∙ ground (arith, h)

module _ {D : Type 0} ⦃d : Decimal D⦄ where
  -- The verdict takes the order out of the open ones.
  abbrev pub Ends : OrderId → Verdict D → Type 0
  Ends id waits = ⊥
  Ends id (rejects other _) = other ≡ id
  Ends id (cancels other _) = other ≡ id
  Ends id (fills other _) = other ≡ id
  Ends id (fills_part _ _ _) = ⊥

  Ends-IsListed :
      (id : OrderId) (verdict : Verdict D) (vs : Verdicts D)
      → Ends id verdict
      → IsListed id (add_verdict verdict vs)
  unfolding add_verdict
  Ends-IsListed id waits vs h = absurd h
  Ends-IsListed id (rejects other reason) vs h = inl (add-hit id vs.rejected reason other h)
  Ends-IsListed id (cancels other reason) vs h = inr (inr (add-hit id vs.cancelled reason other h))
  Ends-IsListed id (fills other price) vs h = inr (inl (add-hit id vs.filled price other h))
  Ends-IsListed id (fills_part other price volume) vs h = absurd h

  kept-IsListed :
      (id : OrderId) (verdict : Verdict D) (vs : Verdicts D)
      → IsListed id vs
      → IsListed id (add_verdict verdict vs)
  unfolding add_verdict
  kept-IsListed id waits vs h = h
  kept-IsListed id (rejects other reason) vs (inl h) =
      inl (add-kept id vs.rejected (other, reason) h)
  kept-IsListed id (rejects other reason) vs (inr h) = inr h
  kept-IsListed id (cancels other reason) vs (inl h) = inl h
  kept-IsListed id (cancels other reason) vs (inr (inl h)) = inr (inl h)
  kept-IsListed id (cancels other reason) vs (inr (inr h)) =
      inr (inr (add-kept id vs.cancelled (other, reason) h))
  kept-IsListed id (fills other price) vs (inl h) = inl h
  kept-IsListed id (fills other price) vs (inr (inl h)) =
      inr (inl (add-kept id vs.filled (other, price) h))
  kept-IsListed id (fills other price) vs (inr (inr h)) = inr (inr h)
  kept-IsListed id (fills_part other price volume) vs h = h

  module _ (m : Moment D) (id : OrderId) where
    match_orders-kept :
        (orders : Dict OrderId (Order D)) (vs : Verdicts D) (s : LedgerService D)
        → IsListed id vs
        → Always (λ r. IsListed id r.0) (match_orders m orders vs s)
    unfolding match_orders
    match_orders-kept [] vs s h = h
    match_orders-kept ((_, o) ∷ orders) vs s h =
        >>=-Always_any (λ r. IsListed id r.0) (match_order m o s) _
          λ r. match_orders-kept orders (add_verdict r.0 vs) r.1 (kept-IsListed id r.0 vs h)

    match_orders-IsListed :
        (o : Order D) (orders : Dict OrderId (Order D)) (vs : Verdicts D) (s : LedgerService D)
        → ((s : LedgerService D) → Always (λ r. Ends id r.0) (match_order m o s))
        → lookup id orders ≡ some o
        → Always (λ r. IsListed id r.0) (match_orders m orders vs s)
    unfolding match_orders lookup
    match_orders-IsListed o [] vs s ends found = cc
    match_orders-IsListed o ((k, x) ∷ orders) vs s ends found = elim (Bool-cases (k == id)) [
      | inl same ↦
          >>=-Always (λ r. Ends id r.0) (λ r. IsListed id r.0) (match_order m x s) _
            (subst (λ y. Always (λ r. Ends id r.0) (match_order m y s))
              (sym (some-injective _ _ (rw same at found))) (ends s))
            λ r h. match_orders-kept orders (add_verdict r.0 vs) r.1 (Ends-IsListed id r.0 vs h)
      | inr other ↦
          >>=-Always_any (λ r. IsListed id r.0) (match_order m x s) _
            λ r. match_orders-IsListed o orders (add_verdict r.0 vs) r.1 ends (rw other at found)
    ]

    round-IsGone :
        (o : Order D) (e : Engine D)
        → ((s : LedgerService D) → Always (λ r. Ends id r.0) (match_order m o s))
        → lookup id e.open_orders ≡ some o
        → Always (IsGone id) (simulated_order_matching m e)
    unfolding simulated_order_matching
    round-IsGone o e ends found =
        >>=-Always (λ r. IsListed id r.0) (IsGone id)
          (match_orders m e.open_orders no_verdicts e.ledgers) _
          (match_orders-IsListed o e.open_orders no_verdicts e.ledgers ends found)
          λ r listed. settle_verdicts-IsGone id m r.0 (record e { ledgers = r.1 }) listed

  -- An order is due if its time is over, or if it is for the market and its price is known.
  abbrev pub IsDue : Moment D → Order D → Type 0
  IsDue m o =
      ((verdict : Verdict D) × (expiry m o ≡ some verdict))
      ⊎ ((expiry m o ≡ none)
          × (o.order_type ≡ OrderType.market)
          × ((price : D) × (estimate_fill_price o.side o.symbol_name o.symbol_code o.quantity_open
                  m.prices
                ≡ some (some price))))

  time_ends-Ends :
      (t : TimeInForce) (m : Moment D) (o : Order D) → Always (Ends o.id) (time_ends t m o)
  unfolding time_ends day_ends
  time_ends-Ends TimeInForce.gtc m o = tt
  time_ends-Ends TimeInForce.ioc m o = tt
  time_ends-Ends TimeInForce.fok m o = tt
  time_ends-Ends TimeInForce.day m o = elim (Option-cases (m.close_time o)) [
    | inl closed ↦ rw (day_ends, closed) refl
    | inr (close_time, open_day) ↦
        rw (day_ends, open_day) (if-Always (Ends o.id) (leb close_time m.time) _ _ refl tt)
  ]
  time_ends-Ends (TimeInForce.until none) m o = refl
  time_ends-Ends (TimeInForce.until (some cancel_time)) m o =
      if-Always (Ends o.id) (leb cancel_time m.time) _ _ refl tt

  match_order-Ends :
      (m : Moment D) (o : Order D) (s : LedgerService D)
      → IsDue m o
      → Always (λ r. Ends o.id r.0) (match_order m o s)
  unfolding match_order expiry match_type fill_at_market
  match_order-Ends m o s (inl (verdict, over)) =
      >>=-Always_any (λ r. Ends o.id r.0) (run_task (priced m) (m.received o.id) o.account s) _
        λ ran.
          rw over (Always-some (Ends o.id) (expiry m o) (time_ends-Ends o.time_in_force m o) over)
  match_order-Ends m o s (inr (in_force, for_market, (price, known))) =
      >>=-Always_any (λ r. Ends o.id r.0) (run_task (priced m) (m.received o.id) o.account s) _
        λ ran. rw (in_force, for_market, fill_at_market, known) refl

  -- In tidy caches, an open order whose time is over, or an order for the market whose price is
  -- known, is no longer open after a round of matching that does not panic.
  pub due-IsGone :
      (m : Moment D) (id : OrderId) (o : Order D) (e : Engine D)
      → IsTidy e
      → lookup id e.open_orders ≡ some o
      → IsDue m o
      → Always (λ after. lookup id after.open_orders ≡ none) (simulated_order_matching m e)
  unfolding Holds
  due-IsGone m id o e (_, keyed, _) found due =
      round-IsGone m id o e
        (λ s.
          subst (λ i. Always (λ r. Ends i r.0) (match_order m o s)) (keyed id o found)
            (match_order-Ends m o s due))
        found
