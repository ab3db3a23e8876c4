-- ===== src/Matching/CancelAll.antt =====
-- The cancellation of all orders of an account
-- (ff_standard_lib/src/strategies/handlers/market_handler/backtest_matching_engine.rs,
-- `OrderRequest::CancelAll`).
use mathlib.Core.Option.{some-injective}
use mathlib.Core.Path.{subst}
use fund_forge.Base.{
  ◌≡◌, refl, sym, ap, ◌∙◌, arith, ◌≢◌, inl, inr, Bool, true, false, ◌||◌, Option, none, some, List,
  [], ◌∷◌, String,
}
use fund_forge.Base.Tests.{
  ◌==◌, if◌then◌else◌, Bool-cases, Option-cases, beq_refl, beq_ne, string_eq,
}
use fund_forge.Base.Lists.{All}
use fund_forge.Base.Dict.{
  Dict, lookup, lookup-insert, lookup-erase, lookup-insert_self, lookup-erase_self,
}
use fund_forge.Base.Keys.{Holds-All}
use fund_forge.Base.Holds.{Holds}
use fund_forge.Decimal.{Decimal}
use fund_forge.Market.{OrderId, Account, account_eq}
use fund_forge.Orders.{OrderState, Order}
use fund_forge.Matching.{Engine, Moment}
use fund_forge.Matching.Settlement.{send_event, take_out, for_each}
use fund_forge.Matching.Requests.{orders_of, cancel_taken_out, cancel_with, cancel_account}
use fund_forge.Matching.Tidy.{IsTidy}
use fund_forge.Matching.Loops.{for_each_invariant, for_each-All}

module _ {D : Type 0} ⦃d : Decimal D⦄ where
  -- The order has left the open orders and stands among the closed ones as cancelled.
  abbrev pub IsCancelled : OrderId → Order D → Engine D → Type 0
  IsCancelled id o e =
      (lookup id e.open_orders ≡ none)
      × (lookup id e.closed_orders ≡ some (record o { state = OrderState.cancelled }))

  module _ (m : Moment D) (account : Account) (reason : String) (id : OrderId) (o : Order D) where
    found-IsCancelled :
        (e : Engine D)
        → lookup id e.open_orders ≡ some o
        → IsCancelled id o (cancel_with m account reason id e)
    unfolding cancel_with cancel_taken_out take_out send_event
    found-IsCancelled e found =
        rw (cancel_with, found)
          (lookup-erase_self id e.open_orders, lookup-insert_self id _ e.closed_orders)

    cancel_with-IsCancelled :
        (other : OrderId) (e : Engine D)
        → IsCancelled id o e
        → IsCancelled id o (cancel_with m account reason other e)
    unfolding cancel_with cancel_taken_out take_out send_event
    cancel_with-IsCancelled other e (gone, closed) =
        elim (Option-cases (lookup other e.open_orders)) [
          | inl absent ↦ rw (cancel_with, absent) (gone, closed)
          | inr (x, found) ↦ elim (Bool-cases (other == id)) [
            | inl same ↦ cc (
              ap (λ i. lookup i e.open_orders) ((string_eq.beq_iff other id).0 same),
              found,
              gone,
            )
            | inr different ↦
                rw (cancel_with, found)
                  (
                    rw (lookup-erase other id e.open_orders, different) gone,
                    rw
                        (
                          lookup-insert other id (record x { state = OrderState.cancelled })
                              e.closed_orders,
                          different,
                        )
                        closed,
                  )
          ]
        ]

    -- The order is open, and the closed orders have what they had under its identifier.
    abbrev IsOpen : Option (Order D) → Engine D → Type 0
    IsOpen closed e = (lookup id e.open_orders ≡ some o) × (lookup id e.closed_orders ≡ closed)

    other-IsOpen :
        (closed : Option (Order D)) (other : OrderId) (e : Engine D)
        → other ≢ id
        → IsOpen closed e
        → IsOpen closed (cancel_with m account reason other e)
    unfolding cancel_with cancel_taken_out take_out send_event
    other-IsOpen closed other e ne (found, same) =
        elim (Option-cases (lookup other e.open_orders)) [
          | inl absent ↦ rw (cancel_with, absent) (found, same)
          | inr (x, taken) ↦
              rw (cancel_with, taken)
                (
                  rw (lookup-erase other id e.open_orders, beq_ne other id ne) found,
                  rw
                      (
                        lookup-insert other id (record x { state = OrderState.cancelled })
                            e.closed_orders,
                        beq_ne other id ne,
                      )
                      same,
                )
        ]

    abbrev lists_id : List OrderId → Bool
    lists_id [] = false
    lists_id (i ∷ ids) = (i == id) || lists_id ids

    for_each-IsCancelled :
        (ids : List OrderId) (e : Engine D)
        → lists_id ids ≡ true
        → lookup id e.open_orders ≡ some o
        → IsCancelled id o (for_each (cancel_with m account reason) ids e)
    unfolding for_each
    for_each-IsCancelled [] e h found = cc
    for_each-IsCancelled (i ∷ ids) e h found = elim (Bool-cases (i == id)) [
      | inl same ↦
          for_each_invariant (IsCancelled id o) (cancel_with m account reason) ids _
            cancel_with-IsCancelled
            (subst (λ j. IsCancelled id o (cancel_with m account reason j e))
              (sym ((string_eq.beq_iff i id).0 same)) (found-IsCancelled e found))
      | inr different ↦
          for_each-IsCancelled ids (cancel_with m account reason i e) (rw different at h) (
            (other-IsOpen (lookup id e.closed_orders) i e
              (λ equal. cc (ap (λ j. j == id) equal, beq_refl id, different)) (found, refl)).0)
    ]

    orders_of-lists_id :
        (orders : Dict OrderId (Order D))
        → lookup id orders ≡ some o
        → o.id ≡ id
        → o.account ≡ account
        → lists_id (orders_of account orders) ≡ true
    unfolding orders_of lookup
    orders_of-lists_id [] found keyed own = cc
    orders_of-lists_id ((k, x) ∷ orders) found keyed own = elim (Bool-cases (k == id)) [
      | inl same ↦
          let here = some-injective _ _ (rw same at found) in
          rw
            (
              ap (λ y. y.account == account) here,
              own,
              beq_refl account,
              ap (λ y. y.id) here,
              keyed,
              beq_refl id,
            )
            refl
      | inr different ↦
          let later = orders_of-lists_id orders (rw different at found) keyed own in
          elim (Bool-cases (x.account == account)) [
            | inl listed ↦ rw (listed, later) (ground arith)
            | inr skipped ↦ rw (skipped, later) refl
          ]
    ]

    orders_of-others :
        (orders : Dict OrderId (Order D))
        → All (λ entry. (entry.1.account == account) ≡ true → entry.1.id ≢ id) orders
        → All (λ i. i ≢ id) (orders_of account orders)
    unfolding orders_of
    orders_of-others [] h = tt
    orders_of-others ((k, x) ∷ orders) (h, others) = elim (Bool-cases (x.account == account)) [
      | inl listed ↦ rw listed (h listed, orders_of-others orders others)
      | inr skipped ↦ rw skipped (orders_of-others orders others)
    ]

    not_of_account :
        (e : Engine D)
        → IsTidy e
        → lookup id e.open_orders ≡ some o
        → (o.account == account) ≡ false
        → All (λ entry. (entry.1.account == account) ≡ true → entry.1.id ≢ id) e.open_orders
    unfolding Holds
    not_of_account e (unique, keyed, _) found foreign =
        Holds-All (λ k x. (x.account == account) ≡ true → x.id ≢ id) e.open_orders unique
          λ k x held own equal.
            let same = sym (keyed k x held) ∙ equal in
            let here =
              some-injective _ _ (sym held ∙ ap (λ j. lookup j e.open_orders) same ∙ found) in
            cc (own, ap (λ y. y.account == account) here, foreign)

module _ {D : Type 0} ⦃d : Decimal D⦄ where
  -- In tidy caches, the cancellation of an account's orders moves each of its open orders to the
  -- closed ones as cancelled, and leaves what both caches have under the identifiers of the open
  -- orders of other accounts.
  pub lookup-cancel_account :
      (m : Moment D) (account : Account) (reason : String) (id : OrderId) (o : Order D)
      (e : Engine D)
      → IsTidy e
      → lookup id e.open_orders ≡ some o
      → let after = cancel_account m account reason e in
        let own = o.account == account in
        (lookup id after.open_orders ≡ (if own then none else some o))
        × (lookup id after.closed_orders ≡ (
            if own
            then some (record o { state = OrderState.cancelled })
            else lookup id e.closed_orders))
  unfolding cancel_account Holds
  lookup-cancel_account m account reason id o e h found = elim (Bool-cases (o.account == account)) [
    | inl own ↦ rw own (
        for_each-IsCancelled m account reason id o (orders_of account e.open_orders) e
          (orders_of-lists_id m account reason id o e.open_orders found (h.1 id o found)
            ((account_eq.beq_iff o.account account).0 own))
          found)
    | inr foreign ↦ rw foreign (
        for_each-All (IsOpen m account reason id o (lookup id e.closed_orders)) (λ i. i ≢ id)
          (cancel_with m account reason) (orders_of account e.open_orders) e
          (λ other e' ne stays.
            other-IsOpen m account reason id o (lookup id e.closed_orders) other e' ne stays)
          (orders_of-others m account reason id o e.open_orders
            (not_of_account m account reason id o e h found foreign))
          (found, refl))
  ]
