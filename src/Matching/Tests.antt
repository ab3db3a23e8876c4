-- ===== src/Matching/Tests.antt =====
-- A session of the matching engine on whole numbers, and the theorems at concrete inputs
-- (ff_standard_lib/src/strategies/handlers/market_handler/backtest_matching_engine.rs).
use mathlib.Core.Option
use fund_forge.Base.{◌≡◌, refl, Option, none, some, List, [], ◌∷◌}
use fund_forge.Base.Tests.{Always, string_eq}
use fund_forge.Base.Dict.{lookup, insert, erase}
use fund_forge.Base.Holds.{nil-Holds, insert-Holds}
use fund_forge.Decimal.Whole.{ℤ, pos, whole, whole_exact}
use fund_forge.Market.{account_eq, OrderSide, Brokerage-discrete}
use fund_forge.Orders.{Order, OrderType, OrderState, TimeInForce, create, flatten_all_for}
use fund_forge.Prices.{Book, MarketPriceService}
use fund_forge.Ledger.Cash.{capital}
use fund_forge.Ledger.Books.{SlotHas}
use fund_forge.Ledger.Tests.{first, services}
use fund_forge.Matching.{Engine, Moment}
use fund_forge.Matching.Requests.{EngineMessage, order_request, tick_buffer_time, run_engine}
use fund_forge.Base.{◌≢◌}
use fund_forge.Base.Tests.{◌==◌, if◌then◌else◌}
use fund_forge.Base.Keys.{IsUnique}
use fund_forge.Matching.Tidy.{IsKeyed, IsTidy}
use fund_forge.Matching.Ids.{run_engine-IsTidy}
use fund_forge.Matching.Untouched.{untouched}
use fund_forge.Base.{inr}
use fund_forge.Matching.Due.{due-IsGone}
use fund_forge.Matching.Totals.{Accounted, matching-Accounted}
use fund_forge.Matching.CancelAll.{lookup-cancel_account}
use fund_forge.Matching.Cash.{EngineBooks}
use fund_forge.Matching.Capital.{run_engine-Books}
use fund_forge.Matching.Verdicts.{
  touch_reason, day_ends, time_ends, expiry, market_price, fill_at_market, limit_verdict,
  limit_triggered, match_limit, stop_triggered, match_stop_market, touch_invalid, touch_triggered,
  match_touch, stop_limit_triggered, match_stop_limit, enter, leave_and_enter, match_enter,
  match_exit, match_type, match_order,
}
use fund_forge.Matching.Settlement.{
  no_verdicts, add_verdict, send_event, close_order, take_out, match_orders, reject_taken,
  reject_order, cancel_taken, cancel_order, ledger_fill, close_refused, settle_fill, fill_taken,
  fill_order, part_filled, settle_part, part_fill_taken, partially_fill_order, for_each, try_each,
  settle_verdicts, simulated_order_matching,
}
use fund_forge.Matching.Requests.{
  has_limit, has_trigger, limit_reason, trigger_reason, limit_misplaced, trigger_misplaced,
  limit_check, trigger_check, exit_check, check_order, reject_new, accept, admit, admit_checked,
  create_order, cancel_one, updated, update_one, orders_of, cancel_taken_out, cancel_with,
  cancel_account, flatten_with, flatten_account, handle_request, handle_message, run_engine,
}
use fund_forge.Matching.{priced}
use fund_forge.Ledger.Service.{
  send, flatten_all_for_paper_account, receive, run_task, answer_fill, update_or_create_position,
  is_long, is_short,
}
use fund_forge.Ledger.Messages.{
  ledger_updates, handle, update_or_create_paper_position, finish_fill, open_new, open_committed,
  insert_opened, flatten_all_for_paper_account as ledger_flatten_all_for_paper_account, flatten,
  flatten_one, opened,
}
use fund_forge.Ledger.Paper.{
  meet_existing, reduce_existing, add_to_existing, after_reduction, put_back, add_committed,
  symbol_info, paper_exit_position, exit_removed, book_exit_event, exit_side,
}
use fund_forge.Ledger.State.{
  release_margin_used, margin_rate, add_margin, take_margin, charge_margin, commit_margin,
  booking_rate, book_pnl, settle, push_closed,
}
use fund_forge.Pnl.{calculate_theoretical_pnl}
use fund_forge.Position.Update.{
  reduce_position_size, first_exits, book_reduction, average_left, new_exit_price, finish_reduction,
  add_to_position, open_pnl_after, weigh,
}
use fund_forge.Position.Exit.{exit_entries, exit_entry, restore}
use fund_forge.Position.Types.{new}
use fund_forge.Market.{Currency-discrete}
use fund_forge.Prices.{
  get_market_price, order_book, estimate_fill_price, estimate_book, estimate, walk, start,
  take_level, averaged, or_last_price,
}

abbrev pub order : OrderType → OrderSide → (quantity : ℤ) → Order ℤ
order t side quantity = record {
  symbol_name = "NQ";
  symbol_code = "NQ";
  account = first.account;
  quantity_open = quantity;
  quantity_filled = pos 0;
  average_fill_price = none;
  limit_price = some (pos 100);
  trigger_price = some (pos 90);
  side = side;
  order_type = t;
  time_in_force = TimeInForce.gtc;
  tag = "tag";
  id = "order";
  time_created_utc = 0;
  time_filled_utc = none;
  state = OrderState.created;
  fees = pos 0;
  value = pos 0;
  exchange = none;
}

-- One level, of a volume of 5.
abbrev best : (price : ℤ) → Book ℤ
best price = (0, record { level = 0; price = price; volume = pos 5 }) ∷ []

abbrev quoted : MarketPriceService ℤ
quoted = record {
  bid_books = ("NQ", best (pos 99)) ∷ [];
  ask_books = ("NQ", best (pos 100)) ∷ [];
  has_quotes = [];
  last_price = [];
}

abbrev pub moment : Moment ℤ
moment = record {
  time = 1;
  prices = quoted;
  services = services;
  close_time = λ _. none;
  new_id = λ id. id;
  received = λ _. 5;
}

abbrev pub idle : Engine ℤ
idle = record {
  open_orders = [];
  closed_orders = [];
  ledgers = (first.account, record { ledger = first; pending = [] }) ∷ [];
  sent = [];
}

-- Two are bought at the market, and the account is flattened; the ledger has exited
-- by the time of the next order.
abbrev session : List (Moment ℤ × EngineMessage ℤ)
session =
    (
      moment,
      order_request
          (create first.account (order OrderType.market OrderSide.buy (pos 2)) OrderType.market),
    )
    ∷ (moment, order_request (flatten_all_for first.account))
    ∷ (
      moment,
      order_request
          (create first.account (order OrderType.limit OrderSide.sell (pos 3)) OrderType.limit),
    )
    ∷ (moment, tick_buffer_time)
    ∷ []

run_engine-Books_example : Always (EngineBooks (λ _. capital first)) (run_engine session idle)
unfolding insert
run_engine-Books_example =
    run_engine-Books whole_exact (λ _. capital first) session idle
      (insert-Holds (λ _ slot. SlotHas (capital first) slot) first.account
        (record { ledger = first; pending = [] }) [] (refl, tt)
        (nil-Holds (λ _ slot. SlotHas (capital first) slot)))

abbrev end_of : Option (Engine ℤ) → Engine ℤ
end_of none = idle
end_of (some e) = e

session_cash :
    Option.map
      (λ slot. slot.ledger.cash_value)
      (lookup first.account (end_of (run_engine session idle)).ledgers)
    ≡ some (pos 90)
unfolding lookup insert erase touch_reason day_ends time_ends expiry market_price fill_at_market
    limit_verdict limit_triggered match_limit stop_triggered match_stop_market touch_invalid
    touch_triggered match_touch stop_limit_triggered match_stop_limit enter leave_and_enter
    match_enter match_exit match_type match_order no_verdicts add_verdict send_event close_order
    take_out match_orders reject_taken reject_order cancel_taken cancel_order ledger_fill
    close_refused settle_fill fill_taken fill_order part_filled settle_part part_fill_taken
    partially_fill_order for_each try_each settle_verdicts simulated_order_matching has_limit
    has_trigger limit_reason trigger_reason limit_misplaced trigger_misplaced limit_check
    trigger_check exit_check check_order reject_new accept admit admit_checked create_order
    cancel_one updated update_one orders_of cancel_taken_out cancel_with cancel_account flatten_with
    flatten_account handle_request handle_message run_engine priced send
    flatten_all_for_paper_account receive run_task answer_fill update_or_create_position is_long
    is_short ledger_updates handle update_or_create_paper_position finish_fill open_new
    open_committed insert_opened ledger_flatten_all_for_paper_account flatten flatten_one opened
    meet_existing reduce_existing add_to_existing after_reduction put_back add_committed symbol_info
    paper_exit_position exit_removed book_exit_event exit_side release_margin_used margin_rate
    add_margin take_margin charge_margin commit_margin booking_rate book_pnl settle push_closed
    calculate_theoretical_pnl reduce_position_size first_exits book_reduction average_left
    new_exit_price finish_reduction add_to_position open_pnl_after weigh exit_entries exit_entry
    restore new Currency-discrete get_market_price order_book estimate_fill_price estimate_book
    estimate walk start take_level averaged or_last_price Brokerage-discrete
session_cash = refl

-- An order to buy once the market touches 90, with the market at 100.
abbrev touch_order : Order ℤ
touch_order = order OrderType.market_if_touched OrderSide.buy (pos 2)

abbrev waiting : Engine ℤ
waiting = record {
  open_orders = ("order", touch_order) ∷ [];
  closed_orders = [];
  ledgers = idle.ledgers;
  sent = [];
}

waiting-IsTidy : IsTidy waiting
unfolding IsUnique insert lookup
waiting-IsTidy = (
  (refl, tt),
  insert-Holds IsKeyed "order" touch_order [] refl (nil-Holds IsKeyed),
  nil-Holds IsKeyed,
)

run_engine-IsTidy_example : Always IsTidy (run_engine session waiting)
run_engine-IsTidy_example = run_engine-IsTidy session waiting waiting-IsTidy

other_reason : (side : OrderSide) → touch_reason side ≢ "order"
unfolding touch_reason
other_reason OrderSide.buy h = cc
other_reason OrderSide.sell h = cc

-- An order to sell for 100, with a bid of 99.
abbrev resting_order : Order ℤ
resting_order = order OrderType.limit OrderSide.sell (pos 2)

abbrev resting : Engine ℤ
resting = record {
  open_orders = ("order", resting_order) ∷ [];
  closed_orders = [];
  ledgers = idle.ledgers;
  sent = [];
}

resting-IsTidy : IsTidy resting
unfolding IsUnique insert lookup
resting-IsTidy = (
  (refl, tt),
  insert-Holds IsKeyed "order" resting_order [] refl (nil-Holds IsKeyed),
  nil-Holds IsKeyed,
)

untouched_example :
    Always
      (λ after. lookup "order" after.open_orders ≡ some resting_order)
      (simulated_order_matching moment resting)
unfolding lookup expiry time_ends market_price get_market_price order_book
untouched_example =
    untouched moment "order" resting_order resting resting-IsTidy refl refl refl other_reason

lookup-cancel_account_example :
    let after = cancel_account moment first.account "all" waiting in
    let own = touch_order.account == first.account in
    (lookup "order" after.open_orders ≡ (if own then none else some touch_order))
    × (lookup "order" after.closed_orders ≡ (
        if own
        then some (record touch_order { state = OrderState.cancelled })
        else lookup "order" waiting.closed_orders))
unfolding lookup
lookup-cancel_account_example =
    lookup-cancel_account moment first.account "all" "order" touch_order waiting waiting-IsTidy refl

-- An order to sell 2 at the market.
abbrev market_sale : Order ℤ
market_sale = order OrderType.market OrderSide.sell (pos 2)

abbrev selling : Engine ℤ
selling = record {
  open_orders = ("order", market_sale) ∷ [];
  closed_orders = [];
  ledgers = idle.ledgers;
  sent = [];
}

selling-IsTidy : IsTidy selling
unfolding IsUnique insert lookup
selling-IsTidy = (
  (refl, tt),
  insert-Holds IsKeyed "order" market_sale [] refl (nil-Holds IsKeyed),
  nil-Holds IsKeyed,
)

due-IsGone_example :
    Always
      (λ after. lookup "order" after.open_orders ≡ none)
      (simulated_order_matching moment selling)
unfolding lookup expiry time_ends estimate_fill_price order_book estimate_book estimate walk start
    take_level averaged or_last_price
due-IsGone_example =
    due-IsGone moment "order" market_sale selling selling-IsTidy refl
      (inr (refl, refl, (pos 99, refl)))

matching-Accounted_example : Always (Accounted selling) (simulated_order_matching moment selling)
matching-Accounted_example = matching-Accounted whole_exact moment selling selling-IsTidy
