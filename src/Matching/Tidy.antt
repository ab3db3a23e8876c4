-- ===== src/Matching/Tidy.antt =====
-- The keys of the engine's caches of orders
-- (ff_standard_lib/src/strategies/handlers/market_handler/backtest_matching_engine.rs).
use fund_forge.Base.{◌≡◌, refl, inl, inr, Option, none, some, String}
use fund_forge.Base.Tests.{Bool-cases, Option-cases, Always, string_eq}
use fund_forge.Base.Dict.{lookup, insert}
use fund_forge.Base.Holds.{Holds, lookup-Holds, insert-Holds, erase-Holds}
use fund_forge.Base.Keys.{IsUnique, insert-IsUnique, erase-IsUnique}
use fund_forge.Decimal.{Decimal, ◌⊖◌, ◌≼◌}
use fund_forge.Market.{OrderId, Account}
use fund_forge.Orders.{
  Order, OrderUpdateType, limit_price, trigger_price, quantity, OrderUpdateEvent,
}
use fund_forge.Matching.{Engine, Moment}
use fund_forge.Matching.Settlement.{
  send_event, close_order, take_out, reject_taken, reject_order, cancel_taken, cancel_order,
  close_refused, settle_fill, part_filled, settle_part,
}
use fund_forge.Matching.Requests.{
  cancel_one, updated, update_one, cancel_taken_out, cancel_with, flatten_with,
}

module _ {D : Type 0} where
  -- The order stands under its own identifier.
  abbrev pub IsKeyed : OrderId → Order D → Type 0
  IsKeyed id o = o.id ≡ id

  -- No identifier stands twice among the open orders, and each order stands under its own.
  abbrev pub IsTidy : Engine D → Type 0
  IsTidy e = IsUnique e.open_orders × Holds IsKeyed e.open_orders × Holds IsKeyed e.closed_orders

  pub take_out-IsTidy : (id : OrderId) (e : Engine D) → IsTidy e → IsTidy (take_out id e)
  unfolding take_out
  take_out-IsTidy id e (unique, working, done) =
      (erase-IsUnique id e.open_orders unique, erase-Holds IsKeyed id e.open_orders working, done)

  pub open-IsTidy :
      (id : OrderId) (o : Order D) (e : Engine D)
      → IsKeyed id o
      → IsTidy e
      → IsTidy (record e { open_orders = insert id o e.open_orders })
  open-IsTidy id o e k (unique, working, done) = (
    insert-IsUnique id o e.open_orders unique,
    insert-Holds IsKeyed id o e.open_orders k working,
    done,
  )

  closed-IsTidy :
      (id : OrderId) (o : Order D) (e : Engine D)
      → IsKeyed id o
      → IsTidy e
      → IsTidy (record e { closed_orders = insert id o e.closed_orders })
  closed-IsTidy id o e k (unique, working, done) =
      (unique, working, insert-Holds IsKeyed id o e.closed_orders k done)

  pub found-IsKeyed :
      (id : OrderId) (o : Order D) (e : Engine D)
      → IsTidy e
      → lookup id e.open_orders ≡ some o
      → IsKeyed id o
  found-IsKeyed id o e h found = lookup-Holds IsKeyed id o e.open_orders h.1 found

module _ {D : Type 0} ⦃d : Decimal D⦄ where
  updated-IsKeyed :
      (id : OrderId) (change : OrderUpdateType D) (o : Order D)
      → IsKeyed id o
      → IsKeyed id (updated change o)
  unfolding updated
  updated-IsKeyed id (limit_price price) o k = elim (Option-cases o.limit_price) [
    | inl absent ↦ rw absent k
    | inr (_, found) ↦ rw found k
  ]
  updated-IsKeyed id (trigger_price price) o k = elim (Option-cases o.trigger_price) [
    | inl absent ↦ rw absent k
    | inr (_, found) ↦ rw found k
  ]
  updated-IsKeyed id (quantity volume) o k = k

  pub reject-IsTidy :
      (m : Moment D) (entry : OrderId × String) (e : Engine D)
      → IsTidy e
      → IsTidy (reject_order m entry e)
  unfolding reject_order reject_taken close_order send_event
  reject-IsTidy m (id, reason) e h = elim (Option-cases (lookup id e.open_orders)) [
    | inl absent ↦ rw (reject_order, absent) h
    | inr (o, found) ↦
        rw (reject_order, found)
          (closed-IsTidy o.id _ (take_out id e) refl (take_out-IsTidy id e h))
  ]

  pub cancel-IsTidy :
      (m : Moment D) (entry : OrderId × String) (e : Engine D)
      → IsTidy e
      → IsTidy (cancel_order m entry e)
  unfolding cancel_order cancel_taken close_order send_event
  cancel-IsTidy m (id, reason) e h = elim (Option-cases (lookup id e.open_orders)) [
    | inl absent ↦ rw (cancel_order, absent) h
    | inr (o, found) ↦
        rw (cancel_order, found)
          (closed-IsTidy o.id _ (take_out id e) refl (take_out-IsTidy id e h))
  ]

  pub cancel_one-IsTidy :
      (m : Moment D) (account : Account) (id : OrderId) (e : Engine D)
      → IsTidy e
      → IsTidy (cancel_one m account id e)
  unfolding cancel_one send_event
  cancel_one-IsTidy m account id e h = elim (Option-cases (lookup id e.open_orders)) [
    | inl absent ↦ rw (cancel_one, absent) h
    | inr (o, found) ↦
        rw (cancel_one, found)
          (closed-IsTidy id o (take_out id e) (found-IsKeyed id o e h found)
            (take_out-IsTidy id e h))
  ]

  pub update_one-IsTidy :
      (m : Moment D) (account : Account) (id : OrderId) (change : OrderUpdateType D) (e : Engine D)
      → IsTidy e
      → IsTidy (update_one m account id change e)
  unfolding update_one send_event
  update_one-IsTidy m account id change e h = elim (Option-cases (lookup id e.open_orders)) [
    | inl absent ↦ rw (update_one, absent) h
    | inr (o, found) ↦
        rw (update_one, found)
          (open-IsTidy id (updated change o) e
            (updated-IsKeyed id change o (found-IsKeyed id o e h found)) h)
  ]

  pub cancel_with-IsTidy :
      (m : Moment D) (account : Account) (reason : String) (id : OrderId) (e : Engine D)
      → IsTidy e
      → IsTidy (cancel_with m account reason id e)
  unfolding cancel_with cancel_taken_out send_event
  cancel_with-IsTidy m account reason id e h = elim (Option-cases (lookup id e.open_orders)) [
    | inl absent ↦ rw (cancel_with, absent) h
    | inr (o, found) ↦
        rw (cancel_with, found)
          (closed-IsTidy id _ (take_out id e) (found-IsKeyed id o e h found)
            (take_out-IsTidy id e h))
  ]

  pub flatten_with-IsTidy :
      (m : Moment D) (account : Account) (reason : String) (id : OrderId) (e : Engine D)
      → IsTidy e
      → Always IsTidy (flatten_with m account reason id e)
  unfolding flatten_with cancel_taken_out send_event
  flatten_with-IsTidy m account reason id e h = elim (Option-cases (lookup id e.open_orders)) [
    | inl absent ↦ rw (flatten_with, absent) tt
    | inr (o, found) ↦
        rw (flatten_with, found)
          (closed-IsTidy o.id _ (take_out id e) refl (take_out-IsTidy id e h))
  ]

  pub settle_fill-IsTidy :
      (m : Moment D) (o : Order D) (price : D) (r : Option (Option (OrderUpdateEvent D)))
      (e : Engine D)
      → IsTidy e
      → IsTidy (settle_fill m o price r e)
  unfolding settle_fill close_refused close_order send_event
  settle_fill-IsTidy m o price none e h = h
  settle_fill-IsTidy m o price (some (some event)) e h = closed-IsTidy o.id _ e refl h
  settle_fill-IsTidy m o price (some none) e h = closed-IsTidy o.id _ e refl h

  pub settle_part-IsTidy :
      (m : Moment D) (id : OrderId) (o : Order D) (price volume : D)
      (r : Option (Option (OrderUpdateEvent D))) (e : Engine D)
      → IsKeyed id o
      → IsTidy e
      → IsTidy (settle_part m id o price volume r e)
  unfolding settle_part close_refused close_order send_event part_filled
  settle_part-IsTidy m id o price volume none e k h = h
  settle_part-IsTidy m id o price volume (some (some event)) e k h = closed-IsTidy o.id _ e refl h
  settle_part-IsTidy m id o price volume (some none) e k h =
      elim (Bool-cases ((o.quantity_open ⊖ volume) ≼ d.dec 0)) [
        | inl done ↦ rw (settle_part, done) (closed-IsTidy o.id _ e refl h)
        | inr left ↦ rw (settle_part, left) (open-IsTidy id _ e k h)
      ]
