-- ===== src/Matching/Frame.antt =====
-- The open orders that a round of the matching engine does not concern
-- (ff_standard_lib/src/strategies/handlers/market_handler/backtest_matching_engine.rs).
use fund_forge.Base.{◌≡◌, ◌≢◌, ◌⊎◌, inl, inr, true, Option, none, some, [], ◌∷◌, String}
use fund_forge.Base.Tests.{
  Bool-cases, Option-cases, beq_ne, Always, >>=-Always, >>=-Always_any, string_eq,
}
use fund_forge.Base.Lists.{All, All-push_back}
use fund_forge.Base.Dict.{Dict, lookup, lookup-insert, lookup-erase}
use fund_forge.Decimal.{Decimal, ◌⊖◌, ◌≼◌}
use fund_forge.Market.{OrderId, OrderSide}
use fund_forge.Orders.{Order, OrderUpdateEvent}
use fund_forge.Ledger.Service.{LedgerService, update_or_create_position}
use fund_forge.Matching.{Engine, Moment, priced}
use fund_forge.Matching.Verdicts.{
  Verdict, waits, rejects, cancels, fills, fills_part, touch_reason, expiry, match_order,
}
use fund_forge.Matching.Settlement.{
  Verdicts, add_verdict, send_event, close_order, take_out, match_orders, reject_taken,
  reject_order, cancel_taken, cancel_order, ledger_fill, close_refused, settle_fill, fill_taken,
  fill_order, part_filled, settle_part, part_fill_taken, partially_fill_order, try_each,
  settle_verdicts,
}
use fund_forge.Matching.Loops.{for_each-All, try_each-All}
use fund_forge.Matching.Names.{Names}
use fund_forge.Matching.Reached.{is_away, match_order-Names}

module _ {D : Type 0} ⦃d : Decimal D⦄ where
  -- The identifiers in the four lists have the property.
  abbrev pub NamesAll : (OrderId → Type 0) → Verdicts D → Type 0
  NamesAll P vs =
      All (λ entry. P entry.0) vs.rejected
      × All (λ entry. P entry.0) vs.filled
      × All (λ entry. P entry.0) vs.partially_filled
      × All (λ entry. P entry.0) vs.cancelled

  add_verdict-NamesAll :
      (P : OrderId → Type 0) (verdict : Verdict D) (vs : Verdicts D)
      → Names P verdict
      → NamesAll P vs
      → NamesAll P (add_verdict verdict vs)
  unfolding add_verdict
  add_verdict-NamesAll P waits vs n h = h
  add_verdict-NamesAll P (rejects id reason) vs n (a, b, c, e) =
      (All-push_back (λ entry. P entry.0) vs.rejected (id, reason) a n, b, c, e)
  add_verdict-NamesAll P (cancels id reason) vs n (a, b, c, e) =
      (a, b, c, All-push_back (λ entry. P entry.0) vs.cancelled (id, reason) e n)
  add_verdict-NamesAll P (fills id price) vs n (a, b, c, e) =
      (a, All-push_back (λ entry. P entry.0) vs.filled (id, price) b n, c, e)
  add_verdict-NamesAll P (fills_part id price volume) vs n (a, b, c, e) =
      (a, b, All-push_back (λ entry. P entry.0) vs.partially_filled (id, price, volume) c n, e)

  -- Every open order either has the property, or its time is not over and the market is away from its price.
  abbrev pub IsPassedOver : (OrderId → Type 0) → Moment D → OrderId × Order D → Type 0
  IsPassedOver P m (_, o) = P o.id ⊎ ((expiry m o ≡ none) × (is_away o.order_type m o ≡ true))

  pub match_orders-Names :
      (P : OrderId → Type 0) (m : Moment D) (orders : Dict OrderId (Order D)) (vs : Verdicts D)
      (s : LedgerService D)
      → ((side : OrderSide) → P (touch_reason side))
      → All (IsPassedOver P m) orders
      → NamesAll P vs
      → Always (λ r. NamesAll P r.0) (match_orders m orders vs s)
  unfolding match_orders
  match_orders-Names P m [] vs s r h n = n
  match_orders-Names P m ((_, o) ∷ orders) vs s r (h, others) n =
      >>=-Always (λ r. Names P r.0) (λ r. NamesAll P r.0) (match_order m o s) _
        (match_order-Names P r m o s h)
        λ result named.
          match_orders-Names P m orders (add_verdict result.0 vs) result.1 r others
            (add_verdict-NamesAll P result.0 vs named n)

  module _ (id : OrderId) (kept : Option (Order D)) where
    -- What the open orders have under the identifier.
    abbrev pub Stays : Engine D → Type 0
    Stays e = lookup id e.open_orders ≡ kept

    pub erased-Stays :
        (other : OrderId) (e : Engine D) → other ≢ id → Stays e → Stays (take_out other e)
    unfolding take_out
    erased-Stays other e ne h = rw (lookup-erase other id e.open_orders, beq_ne other id ne) h

    pub reject-Stays :
        (m : Moment D) (entry : OrderId × String) (e : Engine D)
        → entry.0 ≢ id
        → Stays e
        → Stays (reject_order m entry e)
    unfolding reject_order reject_taken close_order send_event
    reject-Stays m (other, reason) e ne h = elim (Option-cases (lookup other e.open_orders)) [
      | inl absent ↦ rw (reject_order, absent) h
      | inr (o, found) ↦ rw (reject_order, found) (erased-Stays other e ne h)
    ]

    pub cancel-Stays :
        (m : Moment D) (entry : OrderId × String) (e : Engine D)
        → entry.0 ≢ id
        → Stays e
        → Stays (cancel_order m entry e)
    unfolding cancel_order cancel_taken close_order send_event
    cancel-Stays m (other, reason) e ne h = elim (Option-cases (lookup other e.open_orders)) [
      | inl absent ↦ rw (cancel_order, absent) h
      | inr (o, found) ↦ rw (cancel_order, found) (erased-Stays other e ne h)
    ]

    pub settle_fill-Stays :
        (m : Moment D) (o : Order D) (price : D) (r : Option (Option (OrderUpdateEvent D)))
        (e : Engine D)
        → Stays e
        → Stays (settle_fill m o price r e)
    unfolding settle_fill close_refused close_order send_event
    settle_fill-Stays m o price none e h = h
    settle_fill-Stays m o price (some (some event)) e h = h
    settle_fill-Stays m o price (some none) e h = h

    settle_part-Stays :
        (m : Moment D) (other : OrderId) (o : Order D) (price volume : D)
        (r : Option (Option (OrderUpdateEvent D))) (e : Engine D)
        → other ≢ id
        → Stays e
        → Stays (settle_part m other o price volume r e)
    unfolding settle_part close_refused close_order send_event part_filled
    settle_part-Stays m other o price volume none e ne h = h
    settle_part-Stays m other o price volume (some (some event)) e ne h = h
    settle_part-Stays m other o price volume (some none) e ne h =
        elim (Bool-cases ((o.quantity_open ⊖ volume) ≼ d.dec 0)) [
          | inl done ↦ rw (settle_part, done) h
          | inr left ↦
              rw (settle_part, left)
                (rw
                  (lookup-insert other id (part_filled volume o) e.open_orders, beq_ne other id ne)
                  h)
        ]

    pub fill-Stays :
        (m : Moment D) (entry : OrderId × D) (e : Engine D)
        → entry.0 ≢ id
        → Stays e
        → Always Stays (fill_order m entry e)
    unfolding fill_order fill_taken
    fill-Stays m (other, price) e ne h = elim (Option-cases (lookup other e.open_orders)) [
      | inl absent ↦ rw (fill_order, absent) h
      | inr (o, found) ↦
          rw (fill_order, found)
            (>>=-Always_any Stays
              (update_or_create_position (priced m) o.account
                (ledger_fill m other o price o.quantity_open) (take_out other e).ledgers)
              _ λ r. settle_fill-Stays m o price r.0 _ (erased-Stays other e ne h))
    ]

    pub part-Stays :
        (m : Moment D) (entry : OrderId × D × D) (e : Engine D)
        → entry.0 ≢ id
        → Stays e
        → Always Stays (partially_fill_order m entry e)
    unfolding partially_fill_order part_fill_taken
    part-Stays m (other, price, volume) e ne h = elim (Option-cases (lookup other e.open_orders)) [
      | inl absent ↦ rw (partially_fill_order, absent) h
      | inr (o, found) ↦
          rw (partially_fill_order, found)
            (>>=-Always_any Stays
              (update_or_create_position (priced m) o.account (ledger_fill m other o price volume)
                (take_out other e).ledgers)
              _ λ r. settle_part-Stays m other o price volume r.0 _ ne (erased-Stays other e ne h))
    ]

    pub settle_verdicts-Stays :
        (m : Moment D) (vs : Verdicts D) (e : Engine D)
        → NamesAll (λ other. other ≢ id) vs
        → Stays e
        → Always Stays (settle_verdicts m vs e)
    unfolding settle_verdicts
    settle_verdicts-Stays m vs e (a, b, c, w) h =
        >>=-Always Stays Stays (try_each (fill_order m) vs.filled _) _
          (try_each-All Stays (λ entry. entry.0 ≢ id) (fill_order m) vs.filled _ (fill-Stays m) b
            (for_each-All Stays (λ entry. entry.0 ≢ id) (reject_order m) vs.rejected e
              (reject-Stays m) a h))
          λ filled h'.
            >>=-Always Stays Stays (try_each (partially_fill_order m) vs.partially_filled filled) _
              (try_each-All Stays (λ entry. entry.0 ≢ id) (partially_fill_order m)
                vs.partially_filled filled (part-Stays m) c h')
              λ settled h''.
                for_each-All Stays (λ entry. entry.0 ≢ id) (cancel_order m) vs.cancelled settled
                  (cancel-Stays m) w h''
