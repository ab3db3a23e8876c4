-- ===== src/Lib.antt =====
-- fund-forge: a framework for backtesting and running trading strategies. This library models the
-- core of its simulated trading: what a strategy's fills do to positions, to the cash of an account
-- and to the margin, and how the prices of the fills are estimated.
--
-- The parts, each with the files it is about (paths under ff_standard_lib/src):
--   Decimal   the operations of the crate rust_decimal that the source calls, as a parameter: a type
--             with its operations (`Decimal`) and the laws that the proofs rely on (`IsExact`,
--             `HasSigns`). Decimal/Whole has an instance, the whole numbers, for the tests.
--   Market, BaseData   the enums and structs of standardized_types: accounts, symbols, sides,
--             candles, quotes, ticks. Market/Currencies has the codes of the currencies.
--   Pnl       helpers/decimal_calculators.rs. `calculate_theoretical_pnl` and the rounding to ticks;
--             Pnl/Sign is about its sign.
--   Position  standardized_types/position.rs. Types has the data, Exit the loop of
--             `reduce_position_size` over the open entries, Update the methods
--             `update_base_data`, `reduce_position_size` and `add_to_position`. The proofs are in
--             Sums (sums over entries and trades), Loop (the loop's invariant), Valid (the
--             position's invariant) and Total (no panic).
--   Orders    standardized_types/orders.rs: orders, requests and events, and the constructors of
--             orders (Orders/New) and what an event says (Orders/Events).
--   Ledger    strategies/ledgers/ledger.rs and historical_ledger.rs. State has the struct, the
--             margin and the bookings, Paper the exits and the meeting of a fill with the position
--             that is there, Messages the opening of positions, the valuation at market data and the
--             loop over messages. The proofs are in Cash, Conserve and Session (the cash of
--             the account), in Valid with its children (the positions of a ledger) and in Rejected.
--             Views has the getters. Service is strategies/ledgers/ledger_service.rs: the ledgers of
--             all accounts, each with the messages that wait in its channel; Books is about the cash
--             of every account there.
--   Prices    strategies/handlers/market_handler/price_service.rs: the best bids and asks, the
--             market price and the estimates of fills. The proofs are in Best (before the first
--             quote of a symbol), Frozen and FirstQuote (after it), Fuel and Volume.
--   Matching  strategies/handlers/market_handler/backtest_matching_engine.rs, over Orders, Prices and
--             Ledger/Service. Verdicts has what the matching of one order comes to, Settlement the
--             fills, rejections and cancellations, Requests the requests of the strategy and the
--             loop over messages. Induction says what an operation has to keep for the whole engine
--             to keep it. The proofs are in Cash and Capital (the cash of the accounts), in Tidy
--             and Ids (the keys of the caches), in Names, Reached, Frame and Untouched (orders that
--             a round does not concern), in Gone and Due (orders that a round ends), in Totals (their
--             quantities) and in CancelAll.
--   Window    standardized_types/rolling_window.rs. Window/Latest is about the items it holds.
--   MovingAverage   strategies/indicators/built_in/moving_average.rs over Window: its state after
--             some data is in Latest, the reference it is compared with in Mean, the comparison in
--             Reported.
--   TrueRange   strategies/indicators/built_in/average_true_range.rs over Window; Sign has the sign of
--             the average.
--   Consolidator   strategies/consolidators/count.rs: ticks into candles, with the proofs in Candles.
--   CandleStick   strategies/consolidators/candlesticks.rs: bars of a length of time. Quotes has the
--             quote bars, Forward the bars filled forward; the proofs are in Proper and Session. The
--             times of bars are in BaseData/Times (helpers/converters.rs, standardized_types/resolution.rs),
--             where a time is a number of nanoseconds and 1970 is a parameter (`epoch`).
--   RateLimiter   ff_data_server/src/rate_limiter.rs (this path from the root). The semaphore of the
--             crate tokio is a parameter (`Semaphore`, with the law `IsCounting`). The actions of
--             callers and of the task that refills are interleaved as a list.
--
-- How the code is read. A method that changes `self` is a function from the old state to the new one.
-- A panic (`unwrap`, `panic!`, `unreachable!`, a division by zero) is `none`; an error that the code
-- returns is `err`. A DashMap or BTreeMap is an association list, whose order stands for the order of
-- iteration. What is sent to a channel is returned. Times are numbers of nanoseconds.
-- What is asked of the data server, of the product tables and of the random UUIDs is a parameter
-- (`Services`, the field `new_id` of `Fill`, `commission_info` of `ExitOrder`). The estimate of a fill
-- that a flattening asks the price service for is a field of `Services` too; the matching engine sets it
-- to the model of the price service (`priced`).
--
-- The ledgers are tasks of their own. How many of its waiting messages a ledger has received by the time
-- the engine looks at it is a parameter (`received` of `Moment`), so that a statement about every moment
-- is one about every interleaving. A fill waits for the ledger's answer, hence all messages before it are
-- received first. The time at which an order for the day ends is a parameter too (`close_time`), as it
-- comes from the exchange's calendar and time zones; its calculation is taken not to panic. A ledger is
-- read once for an order, where the code reads its size and its side one after the other. The events that a ledger sends are left out here.
--
-- Bounds and fuel. Decimals are exact in the proofs that use `IsExact`, which holds of rust_decimal as
-- long as no result leaves its 96 bits of digits. The exit loop takes one unit of fuel more than there
-- are open entries, as each round pops one; the walk through a book takes one more than the book has
-- levels, as it visits them in order and stops at one that is missing; a walk that is out of fuel has an
-- outcome of its own. The levels of a book are counted in a u16 there and are numbers here, so that a
-- book is taken to have fewer than 2 ^ 16.
--
-- Not modelled: the live ledger and the synchronization with brokers, the
-- strategy's tasks and channels, the other consolidators and indicators,
-- the data server's broker APIs (network), storage (files), the product tables (data), the byte encoding
-- of messages (derived), the graphical interface (rendering), and reports in text, CSV and JSON.
pub mod Base
pub mod Decimal
pub mod Market
pub mod BaseData
pub mod Pnl
pub mod Position
pub mod Orders
pub mod Ledger
pub mod Prices
pub mod Matching
pub mod Window
pub mod MovingAverage
pub mod RateLimiter
pub mod Consolidator
pub mod CandleStick
pub mod TrueRange
