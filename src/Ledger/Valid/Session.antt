-- ===== src/Ledger/Valid/Session.antt =====
-- The invariant of the positions of a ledger, and its messages
-- (ff_standard_lib/src/strategies/ledgers/historical_ledger.rs and ledger.rs).
use mathlib.Core.Path.{subst}
use fund_forge.Base.{◌≡◌, sym, ◌∙◌, inl, inr, true, ◌||◌, none, some, List, [], ◌∷◌, String}
use fund_forge.Base.Tests.{
  Bool-cases, Option-cases, Always, >>=-Always, >>=-Always_any, if-Always, elim-Always, Always-some,
  string_eq,
}
use fund_forge.Base.Lists.{All}
use fund_forge.Base.Dict.{Dict, lookup, erase}
use fund_forge.Decimal.{Decimal, IsExact, ◌≺◌}
use fund_forge.Market.{Time, SymbolCode, OrderId}
use fund_forge.BaseData.{BaseData, TimeSlice, symbol}
use fund_forge.Position.Types.{
  Position, PositionUpdateEvent, position_opened, increased, position_reduced, position_closed,
}
use fund_forge.Position.Valid.{IsValid}
use fund_forge.Position.Update.{is_not_live, update_base_data, reduce_position_size}
use fund_forge.Ledger.State.{
  Ledger, Services, release_margin_used, booking_rate, book_pnl, settle, push_closed,
}
use fund_forge.Ledger.Paper.{
  exit_side, exit_rate_side, exit_order, book_exit_event, exit_removed, paper_exit_position,
}
use fund_forge.Ledger.Messages.{
  update_or_create_paper_position, flatten_one, flatten, flatten_all_for_paper_account,
  value_position, value_codes, value_named, value_item, value_items, timeslice_update, update,
  LedgerMessage, sync_position, update_or_create_position, time_slice_update, live_account_update,
  exit_paper_position, paper_flatten_all, handle, ledger_updates,
}
use fund_forge.Ledger.Valid.{
  HoldsValid, insert-HoldsValid, erase-HoldsValid, update_base_data-IsValid, positions-release,
  positions-booking_rate,
}
use fund_forge.Ledger.Valid.Fills.{LedgerValid, ReplyValid}
use fund_forge.Ledger.Valid.Openings.{fill-ReplyValid}

module _ {D : Type 0} ⦃d : Decimal D⦄ where
  -- A fill is for a positive quantity.
  unfoldable pub FillsSome : LedgerMessage D → Type 0
  FillsSome (update_or_create_position f) = (d.dec 0 ≺ f.quantity) ≡ true
  FillsSome _ = Unit

  value_position-LedgerValid :
      (item : BaseData D) (code : SymbolCode) (p : Position D) (l : Ledger D)
      → IsValid p
      → LedgerValid l
      → Always LedgerValid (value_position item code p l)
  unfolding value_position
  value_position-LedgerValid item code p l v h =
      >>=-Always (λ r. IsValid r.0) LedgerValid (update_base_data item l.currency p) _
        (update_base_data-IsValid item l.currency p v)
        λ r valid. insert-HoldsValid code r.0 l.positions valid h

  -- The valuation of the position under a code, if there is one.
  value_code-LedgerValid :
      (item : BaseData D) (code : SymbolCode) (l : Ledger D)
      → LedgerValid l
      → Always LedgerValid
          (elim (lookup code l.positions) [ none ↦ some l | some p ↦ value_position item code p l ])
  unfolding HoldsValid
  value_code-LedgerValid item code l h = elim (Option-cases (lookup code l.positions)) [
    | inl absent ↦ rw absent h
    | inr (p, found) ↦ rw found (value_position-LedgerValid item code p l (h code p found) h)
  ]

  value_codes-LedgerValid :
      (item : BaseData D) (codes : List SymbolCode) (l : Ledger D)
      → LedgerValid l
      → Always LedgerValid (value_codes item codes l)
  unfolding value_codes
  value_codes-LedgerValid item [] l h = h
  value_codes-LedgerValid item (code ∷ codes) l h =
      >>=-Always LedgerValid LedgerValid
        (elim (lookup code l.positions) [ none ↦ some l | some p ↦ value_position item code p l ])
        (value_codes item codes) (value_code-LedgerValid item code l h)
        λ after holds. value_codes-LedgerValid item codes after holds

  value_named-LedgerValid :
      (item : BaseData D) (p : Position D) (l : Ledger D)
      → IsValid p
      → LedgerValid l
      → Always LedgerValid (value_named item p l)
  unfolding value_named
  value_named-LedgerValid item p l v h =
      let valued = value_position item (symbol item).name p l in
      if-Always LedgerValid p.is_closed (some l) _ h (
        if-Always LedgerValid (is_not_live l.mode || l.is_simulating_pnl) valued (some l)
          (value_position-LedgerValid item (symbol item).name p l v h) h)

  value_item-LedgerValid :
      (item : BaseData D) (l : Ledger D) → LedgerValid l → Always LedgerValid (value_item item l)
  unfolding value_item HoldsValid
  value_item-LedgerValid item l h =
      elim (Option-cases (lookup (symbol item).name l.symbol_code_map)) [
        | inr (codes, known) ↦ rw (value_item, known) (value_codes-LedgerValid item codes l h)
        | inl unknown ↦ elim (Option-cases (lookup (symbol item).name l.positions)) [
          | inl absent ↦ rw (value_item, unknown, absent) h
          | inr (p, found) ↦
              rw (value_item, unknown, found)
                (value_named-LedgerValid item p l (h (symbol item).name p found) h)
        ]
      ]

  value_items-LedgerValid :
      (items : TimeSlice D) (l : Ledger D)
      → LedgerValid l
      → Always LedgerValid (value_items items l)
  unfolding value_items
  value_items-LedgerValid [] l h = h
  value_items-LedgerValid (item ∷ items) l h =
      >>=-Always LedgerValid LedgerValid (value_item item l) (value_items items)
        (value_item-LedgerValid item l h) λ after holds. value_items-LedgerValid items after holds

  timeslice-LedgerValid :
      (items : TimeSlice D) (l : Ledger D)
      → LedgerValid l
      → Always LedgerValid (timeslice_update items l)
  unfolding timeslice_update settle
  timeslice-LedgerValid items l h =
      >>=-Always LedgerValid LedgerValid (value_items items l) _ (value_items-LedgerValid items l h)
        λ valued holds. elim (Bool-cases (is_not_live valued.mode)) [
          | inl simulated ↦ rw simulated holds
          | inr real ↦ rw real holds
        ]

  abbrev SendValid : List (PositionUpdateEvent D) × Ledger D → Type 0
  SendValid r = LedgerValid r.1

  book-LedgerValid :
      (code : SymbolCode) (p : Position D) (event : PositionUpdateEvent D) (l : Ledger D)
      → LedgerValid l
      → Always LedgerValid (book_exit_event code p event l)
  unfolding book_exit_event push_closed settle book_pnl
  book-LedgerValid code p (position_closed _ _ _ _ booked _) l h = h
  book-LedgerValid code p (position_opened _ _) l h = tt
  book-LedgerValid code p (increased _ _ _ _ _) l h = tt
  book-LedgerValid code p (position_reduced _ _ _ _ _ _ _) l h = tt

  exit_removed-SendValid :
      (sv : Services D) (order : OrderId) (code : SymbolCode) (time : Time) (price : D)
      (tag : String) (p : Position D) (l : Ledger D)
      → LedgerValid l
      → Always SendValid (exit_removed sv order code time price tag p l)
  unfolding exit_removed
  exit_removed-SendValid sv order code time price tag p l h =
      let released = release_margin_used code l in
      >>=-Always_any SendValid (exit_rate_side l.currency p) _ λ side.
        let rated = booking_rate sv p.symbol_info.pnl_currency time side released in
        let x = exit_order sv order price rated.0 time rated.1 in
        >>=-Always_any SendValid
          (reduce_position_size x p.quantity_open tag (record p { is_closed = true })) _
          λ reduced.
            >>=-Always LedgerValid SendValid (book_exit_event code reduced.0 reduced.1 rated.1) _
              (book-LedgerValid code reduced.0 reduced.1 rated.1 (
                subst HoldsValid
                  (sym (
                    positions-booking_rate sv p.symbol_info.pnl_currency time side released
                    ∙ positions-release code l))
                  h))
              λ booked holds. holds

  exit-SendValid :
      (sv : Services D) (order : OrderId) (code : SymbolCode) (time : Time) (price : D)
      (tag : String) (l : Ledger D)
      → LedgerValid l
      → Always SendValid (paper_exit_position sv order code time price tag l)
  unfolding paper_exit_position
  exit-SendValid sv order code time price tag l h =
      elim-Always SendValid (lookup code l.positions) _ _ h λ p.
        exit_removed-SendValid sv order code time price tag p
          (record l { positions = erase code l.positions }) (erase-HoldsValid code l.positions h)

  flatten_one-SendValid :
      (sv : Services D) (time : Time) (held : SymbolCode × Position D) (l : Ledger D)
      → LedgerValid l
      → Always SendValid (flatten_one sv time held l)
  unfolding flatten_one
  flatten_one-SendValid sv time (code, p) l h =
      >>=-Always_any SendValid (exit_side p.side) _ λ side.
        >>=-Always_any SendValid (sv.fill_price side p.symbol_name code p.quantity_open) _ λ asked.
          elim-Always SendValid asked _ _ h
            λ price. exit-SendValid sv "Flatten All" code time price "Flatten All" l h

  flatten-SendValid :
      (sv : Services D) (time : Time) (positions : Dict SymbolCode (Position D)) (l : Ledger D)
      → LedgerValid l
      → Always SendValid (flatten sv time positions l)
  unfolding flatten
  flatten-SendValid sv time [] l h = h
  flatten-SendValid sv time (held ∷ positions) l h =
      >>=-Always SendValid SendValid (flatten_one sv time held l) _
        (flatten_one-SendValid sv time held l h)
        λ sent holds.
          >>=-Always SendValid SendValid (flatten sv time positions sent.1) _
            (flatten-SendValid sv time positions sent.1 holds) λ more holds'. holds'

  module _ (ex : IsExact d) where
    handle-LedgerValid :
        (sv : Services D) (message : LedgerMessage D) (l : Ledger D)
        → FillsSome message
        → LedgerValid l
        → Always LedgerValid (handle sv message l)
    unfolding handle FillsSome flatten_all_for_paper_account update
    handle-LedgerValid sv sync_position l q h = h
    handle-LedgerValid sv (update_or_create_position f) l q h =
        >>=-Always ReplyValid LedgerValid (update_or_create_paper_position sv f l) _
          (fill-ReplyValid ex sv f l q h) λ r holds. holds
    handle-LedgerValid sv (time_slice_update items) l q h = timeslice-LedgerValid items l h
    handle-LedgerValid sv (live_account_update _ _ _) l q h = h
    handle-LedgerValid sv (exit_paper_position code order time price tag) l q h =
        >>=-Always SendValid LedgerValid (paper_exit_position sv order code time price tag l) _
          (exit-SendValid sv order code time price tag l h) λ r holds. holds
    handle-LedgerValid sv (paper_flatten_all time) l q h =
        >>=-Always SendValid LedgerValid (flatten sv time l.positions l) _
          (flatten-SendValid sv time l.positions l h) λ r holds. holds

    updates-LedgerValid :
        (sv : Services D) (messages : List (LedgerMessage D)) (l : Ledger D)
        → All FillsSome messages
        → LedgerValid l
        → Always LedgerValid (ledger_updates sv messages l)
    unfolding ledger_updates
    updates-LedgerValid sv [] l q h = h
    updates-LedgerValid sv (message ∷ messages) l (first, others) h =
        >>=-Always LedgerValid LedgerValid (handle sv message l) (ledger_updates sv messages)
          (handle-LedgerValid sv message l first h)
          λ after holds. updates-LedgerValid sv messages after others holds

    -- After every sequence of messages whose fills are for positive quantities, and that does not
    -- panic, a ledger whose positions were valid holds valid positions only: the entries of each add
    -- up to its open quantity, its trades to its closed quantity and to its booked profit and loss.
    pub ledger_updates-HoldsValid :
        (sv : Services D) (messages : List (LedgerMessage D)) (l l' : Ledger D)
        → All FillsSome messages
        → HoldsValid l.positions
        → ledger_updates sv messages l ≡ some l'
        → HoldsValid l'.positions
    ledger_updates-HoldsValid sv messages l l' q h e =
        Always-some LedgerValid (ledger_updates sv messages l)
          (updates-LedgerValid sv messages l q h) e
