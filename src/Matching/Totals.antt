-- ===== src/Matching/Totals.antt =====
-- The quantities of the orders in a round of the matching engine
-- (ff_standard_lib/src/strategies/handlers/market_handler/backtest_matching_engine.rs).
use mathlib.Core.Path.{subst}
use fund_forge.Base.{◌≡◌, refl, sym, ◌∙◌, arith, ◌⊎◌, inl, inr, Option, none, some, String}
use fund_forge.Base.Tests.{
  Bool-cases, Option-cases, Always, Always-intro, >>=-Always_any, string_eq,
}
use fund_forge.Base.Dict.{lookup, insert}
use fund_forge.Base.Holds.{Holds, lookup-Holds, insert-Holds, erase-Holds}
use fund_forge.Decimal.{Decimal, IsExact, ◌⊕◌, ◌⊖◌, ◌≼◌}
use fund_forge.Market.{OrderId}
use fund_forge.Orders.{Order, OrderUpdateEvent}
use fund_forge.Ledger.Service.{update_or_create_position}
use fund_forge.Matching.{Engine, Moment, priced}
use fund_forge.Matching.Settlement.{
  no_verdicts, match_orders, send_event, close_order, take_out, reject_taken, reject_order,
  cancel_taken, cancel_order, ledger_fill, close_refused, settle_fill, fill_taken, fill_order,
  part_filled, settle_part, part_fill_taken, partially_fill_order, simulated_order_matching,
}
use fund_forge.Matching.Tidy.{IsTidy}
use fund_forge.Matching.Induction.{IsKeptByRound, matching-Keeps}

module _ {D : Type 0} ⦃d : Decimal D⦄ where
  -- What an order is for in all.
  abbrev pub total : Order D → D
  total o = o.quantity_open ⊕ o.quantity_filled

  module _ (ex : IsExact d) where
    part_total : (a b v : D) → (a ⊖ v) ⊕ (b ⊕ v) ≡ a ⊕ b
    part_total a b v = ex.eq_of_parts _ _ (
        omega (
          arith,
          ex.add_parts (a ⊖ v) (b ⊕ v),
          ex.sub_parts a v,
          ex.add_parts b v,
          ex.add_parts a b,
        ))

    fill_total : (a b : D) → d.dec 0 ⊕ (b ⊕ a) ≡ a ⊕ b
    fill_total a b = ex.eq_of_parts _ _ (
        omega (
          arith,
          ex.add_parts (d.dec 0) (b ⊕ a),
          ex.gain-dec 0,
          ex.loss-dec 0,
          ex.add_parts b a,
          ex.add_parts a b,
        ))

  module _ (before : Engine D) where
    -- An order comes from the one that was open under its identifier, for the same quantity in all.
    abbrev pub Stems : OrderId → Order D → Type 0
    Stems id o =
        (o.id ≡ id)
        × ((first : Order D) × (lookup id before.open_orders ≡ some first)
            × (total o ≡ total first))

    -- The same of a closed order that was not closed before.
    abbrev pub StemsOrStays : OrderId → Order D → Type 0
    StemsOrStays id o = (lookup id before.closed_orders ≡ some o) ⊎ Stems id o

    abbrev pub Accounted : Engine D → Type 0
    Accounted e = Holds Stems e.open_orders × Holds StemsOrStays e.closed_orders

    changed-Stems :
        (id : OrderId) (o after : Order D)
        → Stems id o
        → after.id ≡ o.id
        → total after ≡ total o
        → Stems id after
    changed-Stems id o after (keyed, (first, found, same)) k e =
        (k ∙ keyed, (first, found, e ∙ same))

    closed-Accounted :
        (id : OrderId) (o after : Order D) (e : Engine D)
        → Stems id o
        → after.id ≡ o.id
        → total after ≡ total o
        → Accounted e
        → Accounted (record e { closed_orders = insert o.id after e.closed_orders })
    closed-Accounted id o after e h k same (working, done) = (
      working,
      insert-Holds StemsOrStays o.id after e.closed_orders
          (inr (changed-Stems o.id o after (subst (λ i. Stems i o) (sym h.0) h) k same)) done,
    )

    take_out-Accounted : (id : OrderId) (e : Engine D) → Accounted e → Accounted (take_out id e)
    unfolding take_out
    take_out-Accounted id e (working, done) = (erase-Holds Stems id e.open_orders working, done)

    found-Stems :
        (id : OrderId) (o : Order D) (e : Engine D)
        → Accounted e
        → lookup id e.open_orders ≡ some o
        → Stems id o
    found-Stems id o e h found = lookup-Holds Stems id o e.open_orders h.0 found

    reject-Accounted :
        (m : Moment D) (entry : OrderId × String) (e : Engine D)
        → Accounted e
        → Accounted (reject_order m entry e)
    unfolding reject_order reject_taken close_order send_event
    reject-Accounted m (id, reason) e h = elim (Option-cases (lookup id e.open_orders)) [
      | inl absent ↦ rw (reject_order, absent) h
      | inr (o, found) ↦
          rw (reject_order, found)
            (closed-Accounted id o _ (take_out id e) (found-Stems id o e h found) refl refl
              (take_out-Accounted id e h))
    ]

    cancel-Accounted :
        (m : Moment D) (entry : OrderId × String) (e : Engine D)
        → Accounted e
        → Accounted (cancel_order m entry e)
    unfolding cancel_order cancel_taken close_order send_event
    cancel-Accounted m (id, reason) e h = elim (Option-cases (lookup id e.open_orders)) [
      | inl absent ↦ rw (cancel_order, absent) h
      | inr (o, found) ↦
          rw (cancel_order, found)
            (closed-Accounted id o _ (take_out id e) (found-Stems id o e h found) refl refl
              (take_out-Accounted id e h))
    ]

    module _ (ex : IsExact d) where
      settle_fill-Accounted :
          (m : Moment D) (id : OrderId) (o : Order D) (price : D)
          (r : Option (Option (OrderUpdateEvent D))) (e : Engine D)
          → Stems id o
          → Accounted e
          → Accounted (settle_fill m o price r e)
      unfolding settle_fill close_refused close_order send_event
      settle_fill-Accounted m id o price none e k h = h
      settle_fill-Accounted m id o price (some (some event)) e k h =
          closed-Accounted id o _ e k refl refl h
      settle_fill-Accounted m id o price (some none) e k h =
          closed-Accounted id o _ e k refl (fill_total ex o.quantity_open o.quantity_filled) h

      settle_part-Accounted :
          (m : Moment D) (id : OrderId) (o : Order D) (price volume : D)
          (r : Option (Option (OrderUpdateEvent D))) (e : Engine D)
          → Stems id o
          → Accounted e
          → Accounted (settle_part m id o price volume r e)
      unfolding settle_part close_refused close_order send_event part_filled
      settle_part-Accounted m id o price volume none e k h = h
      settle_part-Accounted m id o price volume (some (some event)) e k h =
          closed-Accounted id o _ e k refl refl h
      settle_part-Accounted m id o price volume (some none) e k h =
          let same = part_total ex o.quantity_open o.quantity_filled volume in
          elim (Bool-cases ((o.quantity_open ⊖ volume) ≼ d.dec 0)) [
            | inl done ↦ rw (settle_part, done) (closed-Accounted id o _ e k refl same h)
            | inr left ↦
                rw (settle_part, left)
                  (
                    insert-Holds Stems id (part_filled volume o) e.open_orders
                        (changed-Stems id o (part_filled volume o) k refl same) h.0,
                    h.1,
                  )
          ]

      fill-Accounted :
          (m : Moment D) (entry : OrderId × D) (e : Engine D)
          → Accounted e
          → Always Accounted (fill_order m entry e)
      unfolding fill_order fill_taken
      fill-Accounted m (id, price) e h = elim (Option-cases (lookup id e.open_orders)) [
        | inl absent ↦ rw (fill_order, absent) h
        | inr (o, found) ↦
            rw (fill_order, found)
              (>>=-Always_any Accounted
                (update_or_create_position (priced m) o.account
                  (ledger_fill m id o price o.quantity_open) (take_out id e).ledgers)
                _
                λ r.
                  settle_fill-Accounted m id o price r.0 _ (found-Stems id o e h found)
                    (take_out-Accounted id e h))
      ]

      part-Accounted :
          (m : Moment D) (entry : OrderId × D × D) (e : Engine D)
          → Accounted e
          → Always Accounted (partially_fill_order m entry e)
      unfolding partially_fill_order part_fill_taken
      part-Accounted m (id, price, volume) e h = elim (Option-cases (lookup id e.open_orders)) [
        | inl absent ↦ rw (partially_fill_order, absent) h
        | inr (o, found) ↦
            rw (partially_fill_order, found)
              (>>=-Always_any Accounted
                (update_or_create_position (priced m) o.account (ledger_fill m id o price volume)
                  (take_out id e).ledgers)
                _
                λ r.
                  settle_part-Accounted m id o price volume r.0 _ (found-Stems id o e h found)
                    (take_out-Accounted id e h))
      ]

      Accounted-IsKept : IsKeptByRound Accounted
      Accounted-IsKept = record {
        after_matching = λ m e h.
            Always-intro (λ r. Accounted (record e { ledgers = r.1 }))
              (match_orders m e.open_orders no_verdicts e.ledgers) λ _ _. h;
        after_reject = reject-Accounted;
        after_cancel = cancel-Accounted;
        after_fill = fill-Accounted;
        after_part = part-Accounted;
      }

  -- From tidy caches, with exact decimals, after a round of matching that does not panic, every
  -- order that is open, or that is closed and was not before, comes from the one that was open
  -- under its identifier, and its open and filled quantities add up to the same.
  pub matching-Accounted :
      (ex : IsExact d) (m : Moment D) (e : Engine D)
      → IsTidy e
      → Always (Accounted e) (simulated_order_matching m e)
  unfolding Holds
  matching-Accounted ex m e (_, keyed, _) =
      matching-Keeps (Accounted e) (Accounted-IsKept e ex) m e
        (λ id o found. (keyed id o found, (o, found, refl)), λ id o found. inl found)
