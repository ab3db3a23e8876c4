-- ===== src/Prices/Tests.antt =====
-- Market prices on whole numbers, and the theorems at concrete inputs
-- (ff_standard_lib/src/strategies/handlers/market_handler/price_service.rs).
use fund_forge.Base.{◌≡◌, ◌≢◌, ◌+◌, arith, true, refl, false, some, [], ◌∷◌}
use fund_forge.Base.Tests.{string_eq, nat_eq}
use fund_forge.Base.Dict.{lookup, insert, contains_key}
use fund_forge.Decimal.{◌≺◌}
use fund_forge.Decimal.Whole.{ℤ, pos, whole, whole_exact}
use fund_forge.Market.{Symbol, MarketType, DataVendor, OrderSide}
use fund_forge.BaseData.{Aggressor, BaseData, tick, quote, symbol, TimeSlice}
use fund_forge.Prices.{
  Book, MarketPriceService, out_of_fuel, book_entry, set_best, set_books, update_item,
  update_market_data, get_market_price, order_book, estimate_limit_fill, walk, start, take_level,
  estimate, averaged, estimate_book, or_last_price,
}
use fund_forge.Prices.Best.{best, best-update_market_data}
use fund_forge.Prices.Fuel.{walk-enough}
use fund_forge.Prices.Volume.{fill_at_most}

abbrev empty : MarketPriceService ℤ
empty = record { bid_books = []; ask_books = []; has_quotes = []; last_price = [] }

abbrev nq : Symbol
nq = record { name = "NQ"; market_type = MarketType.cfd; data_vendor = DataVendor.bitget }

abbrev quote_at : (bid ask : ℤ) → BaseData ℤ
quote_at bid ask =
    quote (record {
      symbol = nq;
      ask = ask;
      bid = bid;
      ask_volume = pos 2;
      bid_volume = pos 2;
      time = 1;
    })

abbrev quoted : MarketPriceService ℤ
unfolding update_market_data update_item set_books set_best book_entry insert contains_key lookup
quoted = update_market_data (quote_at (pos 99) (pos 100) ∷ []) empty

price_of_the_first_quote :
    get_market_price OrderSide.buy "NQ" "NQ"
      (update_market_data (quote_at (pos 119) (pos 120) ∷ []) quoted)
    ≡ some (pos 100)
unfolding quoted get_market_price order_book
price_of_the_first_quote = refl

abbrev tick_at : Aggressor → (price : ℤ) → BaseData ℤ
tick_at aggressor price =
    tick (record { symbol = nq; price = price; volume = pos 1; time = 1; aggressor = aggressor })

-- The bid is that of the trade at 98, the ask that of the trade at 101.
best-update_market_data_example :
    let m =
      update_market_data
        (tick_at Aggressor.sell (pos 99)
          ∷ tick_at Aggressor.buy (pos 101)
          ∷ tick_at Aggressor.sell (pos 98)
          ∷ [])
        empty in
    (best "NQ" m.bid_books ≡ some (pos 98)) × (best "NQ" m.ask_books ≡ some (pos 101))
unfolding symbol lookup contains_key
best-update_market_data_example =
    best-update_market_data "NQ"
      (tick_at Aggressor.sell (pos 99)
        ∷ tick_at Aggressor.buy (pos 101)
        ∷ tick_at Aggressor.sell (pos 98)
        ∷ [])
      empty refl (tt, (tt, (tt, tt)))

-- Five are asked for, two are there.
fill_at_most_example : (pos 5 ≺ pos 2) ≡ false
unfolding quoted estimate_limit_fill walk start take_level estimate averaged estimate_book
    or_last_price order_book
fill_at_most_example =
    fill_at_most whole_exact OrderSide.buy "NQ" "NQ" (pos 5) (pos 100) (pos 100) (pos 2) quoted refl
      refl

abbrev later : TimeSlice ℤ
later = quote_at (pos 119) (pos 120) ∷ []

abbrev book : Book ℤ
book = (0, record { level = 0; price = pos 100; volume = pos 2 }) ∷ []

walk-enough_example :
    (walk (λ _. false) (λ _. true) book 2 0 (start (pos 5)) ≢ out_of_fuel)
    × (walk (λ _. false) (λ _. true) book (3 + 2) 0 (start (pos 5))
        ≡ walk (λ _. false) (λ _. true) book 2 0 (start (pos 5)))
walk-enough_example = walk-enough (λ _. false) (λ _. true) book 3 2 0 (start (pos 5)) (omega arith)
