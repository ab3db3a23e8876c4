-- ===== src/Ledger/Books.antt =====
-- The cash of every account of the ledger service
-- (ff_standard_lib/src/strategies/ledgers/ledger_service.rs).
use fund_forge.Base.{ℕ, zero, suc, ◌≡◌, ◌∙◌, inl, inr, List, [], ◌∷◌, String}
use fund_forge.Base.Tests.{Option-cases, Always, >>=-Always}
use fund_forge.Base.Lists.{All, push_back, All-push_back}
use fund_forge.Base.Dict.{lookup}
use fund_forge.Base.Holds.{Holds, insert-Holds, lookup-Holds}
use fund_forge.Decimal.{Decimal, IsExact}
use fund_forge.Market.{Time, SymbolCode, OrderId, Account, account_eq}
use fund_forge.Ledger.State.{Ledger, Services}
use fund_forge.Ledger.Paper.{Fill}
use fund_forge.Ledger.Messages.{
  LedgerMessage, handle, ledger_updates, update_or_create_paper_position,
}
use fund_forge.Ledger.Service.{
  Slot, LedgerService, send, paper_exit_position, flatten_all_for_paper_account, receive, run_task,
  answer_fill, update_or_create_position,
}
use fund_forge.Ledger.Cash.{capital}
use fund_forge.Ledger.Conserve.{Keeps, ReplyKeeps, fill-Keeps}
use fund_forge.Ledger.Session.{IsSimulated, handle-Keeps, updates-Keeps}

module _ {D : Type 0} ⦃d : Decimal D⦄ where
  -- The ledger has the capital, and no message waits that sets the cash of a live account.
  abbrev pub SlotHas : D → Slot D → Type 0
  SlotHas c slot = (capital slot.ledger ≡ c) × All IsSimulated slot.pending

  -- Every account's ledger has the capital that `c` gives for the account.
  abbrev pub Books : (c : Account → D) → LedgerService D → Type 0
  Books c s = Holds (λ account slot. SlotHas (c account) slot) s

  pub send-Books :
      (c : Account → D) (account : Account) (message : LedgerMessage D) (s : LedgerService D)
      → IsSimulated message
      → Books c s
      → Books c (send account message s)
  unfolding send
  send-Books c account message s h b = elim (Option-cases (lookup account s)) [
    | inl absent ↦ rw (send, absent) b
    | inr (slot, found) ↦
        let (same, waiting) = lookup-Holds (λ a sl. SlotHas (c a) sl) account slot s b found in
        rw (send, found)
          (insert-Holds (λ a sl. SlotHas (c a) sl) account
            (record slot { pending = push_back slot.pending message }) s
            (same, All-push_back IsSimulated slot.pending message waiting h) b)
  ]

  pub paper_exit-Books :
      (c : Account → D) (account : Account) (code : SymbolCode) (order : OrderId) (time : Time)
      (price : D) (tag : String) (s : LedgerService D)
      → Books c s
      → Books c (paper_exit_position account code order time price tag s)
  unfolding paper_exit_position IsSimulated
  paper_exit-Books c account code order time price tag s b = send-Books c account _ s tt b

  pub flatten-Books :
      (c : Account → D) (account : Account) (time : Time) (s : LedgerService D)
      → Books c s
      → Books c (flatten_all_for_paper_account account time s)
  unfolding flatten_all_for_paper_account IsSimulated
  flatten-Books c account time s b = send-Books c account _ s tt b

  module _ (ex : IsExact d) where
    receive-SlotHas :
        (sv : Services D) (n : ℕ) (c : D) (messages : List (LedgerMessage D)) (l : Ledger D)
        → capital l ≡ c
        → All IsSimulated messages
        → Always (SlotHas c) (receive sv n messages l)
    unfolding receive
    receive-SlotHas sv zero c messages l same h = (same, h)
    receive-SlotHas sv (suc n) c [] l same h = (same, tt)
    receive-SlotHas sv (suc n) c (message ∷ messages) l same (first, others) =
        >>=-Always (Keeps l) (SlotHas c) (handle sv message l) _
          (handle-Keeps ex sv message l first)
          λ after kept. receive-SlotHas sv n c messages after (kept ∙ same) others

    pub run_task-Books :
        (sv : Services D) (n : ℕ) (c : Account → D) (account : Account) (s : LedgerService D)
        → Books c s
        → Always (Books c) (run_task sv n account s)
    unfolding run_task
    run_task-Books sv n c account s b = elim (Option-cases (lookup account s)) [
      | inl absent ↦ rw (run_task, absent) b
      | inr (slot, found) ↦
          let (same, waiting) = lookup-Holds (λ a sl. SlotHas (c a) sl) account slot s b found in
          rw (run_task, found)
            (>>=-Always (SlotHas (c account)) (Books c) (receive sv n slot.pending slot.ledger) _
              (receive-SlotHas sv n (c account) slot.pending slot.ledger same waiting)
              λ after kept. insert-Holds (λ a sl. SlotHas (c a) sl) account after s kept b)
    ]

    answer_fill-SlotHas :
        (sv : Services D) (f : Fill D) (c : D) (slot : Slot D)
        → SlotHas c slot
        → Always (λ r. SlotHas c r.1) (answer_fill sv f slot)
    unfolding answer_fill
    answer_fill-SlotHas sv f c slot (same, waiting) =
        >>=-Always (Keeps slot.ledger) (λ r. SlotHas c r.1)
          (ledger_updates sv slot.pending slot.ledger) _
          (updates-Keeps ex sv slot.pending slot.ledger waiting)
          λ caught_up kept.
            >>=-Always (ReplyKeeps caught_up) (λ r. SlotHas c r.1)
              (update_or_create_paper_position sv f caught_up) _ (fill-Keeps ex sv f caught_up)
              λ answer kept'. (kept' ∙ kept ∙ same, tt)

    pub update_or_create-Books :
        (sv : Services D) (c : Account → D) (account : Account) (f : Fill D) (s : LedgerService D)
        → Books c s
        → Always (λ r. Books c r.1) (update_or_create_position sv account f s)
    unfolding update_or_create_position
    update_or_create-Books sv c account f s b = elim (Option-cases (lookup account s)) [
      | inl absent ↦ rw (update_or_create_position, absent) b
      | inr (slot, found) ↦
          let h = lookup-Holds (λ a sl. SlotHas (c a) sl) account slot s b found in
          rw (update_or_create_position, found)
            (>>=-Always (λ r. SlotHas (c account) r.1) (λ r. Books c r.1) (answer_fill sv f slot) _
              (answer_fill-SlotHas sv f (c account) slot h)
              λ answer kept. insert-Holds (λ a sl. SlotHas (c a) sl) account answer.1 s kept b)
    ]
