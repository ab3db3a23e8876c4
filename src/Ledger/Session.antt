-- ===== src/Ledger/Session.antt =====
-- The messages to a simulated ledger, and its cash
-- (ff_standard_lib/src/strategies/ledgers/historical_ledger.rs and ledger.rs).
use fund_forge.Base.{◌≡◌, refl, ◌∙◌, inl, inr, ◌||◌, none, some, List, [], ◌∷◌}
use fund_forge.Base.Tests.{
  Bool-cases, Always, >>=-Always, >>=-Always_any, if-Always, Always-map, elim-Always, Always-some,
  string_eq,
}
use fund_forge.Base.Lists.{All}
use fund_forge.Base.Dict.{Dict, lookup}
use fund_forge.Decimal.{Decimal, IsExact}
use fund_forge.Market.{Time, SymbolCode}
use fund_forge.BaseData.{BaseData, TimeSlice, symbol}
use fund_forge.Position.Types.{Position}
use fund_forge.Position.Update.{is_not_live, update_base_data}
use fund_forge.Ledger.State.{Ledger, Services, settle}
use fund_forge.Ledger.Paper.{exit_side, paper_exit_position}
use fund_forge.Ledger.Messages.{
  update_or_create_paper_position, flatten_one, flatten, flatten_all_for_paper_account,
  value_position, value_codes, value_named, value_item, value_items, timeslice_update,
  LedgerMessage, sync_position, update_or_create_position, time_slice_update, live_account_update,
  exit_paper_position, paper_flatten_all, handle, ledger_updates,
}
use fund_forge.Ledger.Cash.{capital}
use fund_forge.Ledger.Conserve.{Keeps, SendKeeps, ReplyKeeps, exit-Keeps, fill-Keeps}

-- The messages of a strategy that trades on paper: all but the update from a live account.
unfoldable pub IsSimulated : {D : Type 0} → LedgerMessage D → Type 0
IsSimulated (live_account_update _ _ _) = ⊥
IsSimulated _ = Unit

module _ {D : Type 0} ⦃d : Decimal D⦄ where
  value_position-Keeps :
      (item : BaseData D) (code : SymbolCode) (p : Position D) (l : Ledger D)
      → Always (Keeps l) (value_position item code p l)
  unfolding value_position
  value_position-Keeps item code p l =
      >>=-Always_any (Keeps l) (update_base_data item l.currency p) _ λ _. refl

  value_codes-Keeps :
      (item : BaseData D) (codes : List SymbolCode) (l : Ledger D)
      → Always (Keeps l) (value_codes item codes l)
  unfolding value_codes
  value_codes-Keeps item [] l = refl
  value_codes-Keeps item (code ∷ codes) l =
      >>=-Always (Keeps l) (Keeps l)
        (elim (lookup code l.positions) [ none ↦ some l | some p ↦ value_position item code p l ])
        (value_codes item codes)
        (elim-Always (Keeps l) (lookup code l.positions) _ _ refl
          λ p. value_position-Keeps item code p l)
        λ after same.
          Always-map (Keeps after) (Keeps l) _ (value_codes-Keeps item codes after)
            λ last same'. same' ∙ same

  value_named-Keeps :
      (item : BaseData D) (p : Position D) (l : Ledger D) → Always (Keeps l) (value_named item p l)
  unfolding value_named
  value_named-Keeps item p l =
      let valued = value_position item (symbol item).name p l in
      if-Always (Keeps l) p.is_closed (some l) _ refl (
        if-Always (Keeps l) (is_not_live l.mode || l.is_simulating_pnl) valued (some l)
          (value_position-Keeps item (symbol item).name p l) refl)

  value_item-Keeps : (item : BaseData D) (l : Ledger D) → Always (Keeps l) (value_item item l)
  unfolding value_item
  value_item-Keeps item l =
      elim-Always (Keeps l) (lookup (symbol item).name l.symbol_code_map) _ _
        (elim-Always (Keeps l) (lookup (symbol item).name l.positions) _ _ refl
          λ p. value_named-Keeps item p l)
        λ codes. value_codes-Keeps item codes l

  value_items-Keeps : (items : TimeSlice D) (l : Ledger D) → Always (Keeps l) (value_items items l)
  unfolding value_items
  value_items-Keeps [] l = refl
  value_items-Keeps (item ∷ items) l =
      >>=-Always (Keeps l) (Keeps l) (value_item item l) (value_items items)
        (value_item-Keeps item l)
        λ after same.
          Always-map (Keeps after) (Keeps l) _ (value_items-Keeps items after)
            λ last same'. same' ∙ same

  timeslice-Keeps :
      (items : TimeSlice D) (l : Ledger D) → Always (Keeps l) (timeslice_update items l)
  unfolding timeslice_update settle
  timeslice-Keeps items l =
      >>=-Always (Keeps l) (Keeps l) (value_items items l) _ (value_items-Keeps items l)
        λ valued same. elim (Bool-cases (is_not_live valued.mode)) [
          | inl simulated ↦ rw simulated same
          | inr real ↦ rw real same
        ]

  module _ (ex : IsExact d) where
    flatten_one-Keeps :
        (sv : Services D) (time : Time) (held : SymbolCode × Position D) (l : Ledger D)
        → Always (SendKeeps l) (flatten_one sv time held l)
    unfolding flatten_one
    flatten_one-Keeps sv time (code, p) l =
        >>=-Always_any (SendKeeps l) (exit_side p.side) _ λ side.
          >>=-Always_any (SendKeeps l) (sv.fill_price side p.symbol_name code p.quantity_open) _
            λ asked.
              elim-Always (SendKeeps l) asked _ _ refl
                λ price. exit-Keeps ex sv "Flatten All" code time price "Flatten All" l

    flatten-Keeps :
        (sv : Services D) (time : Time) (positions : Dict SymbolCode (Position D)) (l : Ledger D)
        → Always (SendKeeps l) (flatten sv time positions l)
    unfolding flatten
    flatten-Keeps sv time [] l = refl
    flatten-Keeps sv time (held ∷ positions) l =
        >>=-Always (SendKeeps l) (SendKeeps l) (flatten_one sv time held l) _
          (flatten_one-Keeps sv time held l)
          λ sent same.
            >>=-Always (SendKeeps sent.1) (SendKeeps l) (flatten sv time positions sent.1) _
              (flatten-Keeps sv time positions sent.1) λ more same'. same' ∙ same

    pub handle-Keeps :
        (sv : Services D) (message : LedgerMessage D) (l : Ledger D)
        → IsSimulated message
        → Always (Keeps l) (handle sv message l)
    unfolding handle IsSimulated flatten_all_for_paper_account
    handle-Keeps sv sync_position l h = refl
    handle-Keeps sv (update_or_create_position f) l h =
        >>=-Always (ReplyKeeps l) (Keeps l) (update_or_create_paper_position sv f l) _
          (fill-Keeps ex sv f l) λ r same. same
    handle-Keeps sv (time_slice_update items) l h = timeslice-Keeps items l
    handle-Keeps sv (live_account_update _ _ _) l h = absurd h
    handle-Keeps sv (exit_paper_position code order time price tag) l h =
        >>=-Always (SendKeeps l) (Keeps l) (paper_exit_position sv order code time price tag l) _
          (exit-Keeps ex sv order code time price tag l) λ r same. same
    handle-Keeps sv (paper_flatten_all time) l h =
        >>=-Always (SendKeeps l) (Keeps l) (flatten sv time l.positions l) _
          (flatten-Keeps sv time l.positions l) λ r same. same

    pub updates-Keeps :
        (sv : Services D) (messages : List (LedgerMessage D)) (l : Ledger D)
        → All IsSimulated messages
        → Always (Keeps l) (ledger_updates sv messages l)
    unfolding ledger_updates
    updates-Keeps sv [] l h = refl
    updates-Keeps sv (message ∷ messages) l (first, others) =
        >>=-Always (Keeps l) (Keeps l) (handle sv message l) (ledger_updates sv messages)
          (handle-Keeps sv message l first)
          λ after same.
            Always-map (Keeps after) (Keeps l) _ (updates-Keeps sv messages after others)
              λ last same'. same' ∙ same

    -- Over every sequence of fills, exits, valuations and flattenings, each with whatever outcome,
    -- the balance of a simulated ledger, less the profit and loss that it has booked, stays the same:
    -- the margin that is committed and released only moves cash. Messages that set the cash of a
    -- live account are left out, and the sequence must not panic.
    pub capital-ledger_updates :
        (sv : Services D) (messages : List (LedgerMessage D)) (l l' : Ledger D)
        → All IsSimulated messages
        → ledger_updates sv messages l ≡ some l'
        → capital l' ≡ capital l
    capital-ledger_updates sv messages l l' h e =
        Always-some (Keeps l) (ledger_updates sv messages l) (updates-Keeps sv messages l h) e
