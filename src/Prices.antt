-- ===== src/Prices.antt =====
-- The service that keeps the market prices of the symbols and estimates the prices of fills
-- (ff_standard_lib/src/strategies/handlers/market_handler/price_service.rs).
pub mod Best
pub mod Frozen
pub mod FirstQuote
pub mod Fuel
pub mod Volume
pub mod Tests
use fund_forge.Base.{
  ℕ, zero, suc, ◌+◌, Bool, true, false, not, ◌&&◌, Option, none, some, List, [], ◌∷◌,
}
use fund_forge.Base.Tests.{◌==◌, if◌then◌else◌, ◌>>=◌, nat_eq, nat_beq, string_eq}
use fund_forge.Base.Lists.{length}
use fund_forge.Base.Dict.{Dict, lookup, insert, contains_key}
use fund_forge.Decimal.{Decimal, ◌⊕◌, ◌⊖◌, ◌⊗◌, ◌≺◌, ◌≐◌, min}
use fund_forge.Market.{SymbolName, SymbolCode, OrderSide, buy, sell}
use fund_forge.BaseData.{
  Aggressor, BaseData, candle, quote_bar, tick, quote, fundamental, TimeSlice,
}

pub record BookLevel (D : Type 0) : Type 0 where
  pub level : ℕ
  pub price : D
  pub volume : D

abbrev pub Book : Type 0 → Type 0
Book D = Dict ℕ (BookLevel D)

pub record MarketPriceService (D : Type 0) : Type 0 where
  pub bid_books : Dict SymbolName (Book D)
  pub ask_books : Dict SymbolName (Book D)
  pub has_quotes : Dict SymbolName Bool
  pub last_price : Dict SymbolName D

-- The sums of the walk through a book.
pub record Walk (D : Type 0) : Type 0 where
  pub total_price_volume : D
  pub total_volume_filled : D
  pub remaining_volume : D

-- How a walk ends: at a level of which no volume is known, with the volume filled, or at the end of
-- the book or of the prices that the limit allows. A walk that is out of fuel has not ended.
pub data Ending (D : Type 0) : Type 0 where
  unknown_volume : (price : D) → Ending D
  all_filled book_ended : Walk D → Ending D
  out_of_fuel : Ending D

module _ {D : Type 0} where
  -- `books.entry(name).or_insert_with(BTreeMap::new)`
  unfoldable pub book_entry : SymbolName → Dict SymbolName (Book D) → Book D
  book_entry name books = elim (lookup name books) [ some book ↦ book | none ↦ [] ]

  -- Sets the best level of a symbol's book.
  unfoldable pub set_best :
      SymbolName → (price volume : D) → Dict SymbolName (Book D) → Dict SymbolName (Book D)
  unfolding book_entry
  set_best name price volume books =
      insert name
        (insert 0 (record { level = 0; price = price; volume = volume }) (book_entry name books))
        books

  -- Makes sure that a symbol has a book.
  unfoldable pub touch : SymbolName → Dict SymbolName (Book D) → Dict SymbolName (Book D)
  unfolding book_entry
  touch name books = insert name (book_entry name books) books

  unfoldable pub set_books :
      SymbolName → (bid bid_volume ask ask_volume : D) → MarketPriceService D → MarketPriceService D
  unfolding set_best
  set_books name bid bid_volume ask ask_volume m = record m {
    bid_books = set_best name bid bid_volume m.bid_books;
    ask_books = set_best name ask ask_volume m.ask_books;
  }

module _ {D : Type 0} ⦃d : Decimal D⦄ where
  -- A trade at the ask or at the bid.
  unfoldable pub set_traded :
      Aggressor → SymbolName → (price : D) → MarketPriceService D → MarketPriceService D
  unfolding set_best touch
  set_traded Aggressor.buy name price m = record m {
    bid_books = touch name m.bid_books;
    ask_books = set_best name price (d.dec 0) m.ask_books;
  }
  set_traded Aggressor.sell name price m = record m {
    bid_books = set_best name price (d.dec 0) m.bid_books;
    ask_books = touch name m.ask_books;
  }
  set_traded Aggressor.nobody name price m = m

  unfoldable pub set_last : SymbolName → (price : D) → MarketPriceService D → MarketPriceService D
  set_last name price m = record m { last_price = insert name price m.last_price }

  -- One item of `update_market_data`.
  unfoldable pub update_item : BaseData D → MarketPriceService D → MarketPriceService D
  update_item (candle c) m = set_last c.symbol.name c.close m
  update_item (quote_bar b) m =
      if contains_key b.symbol.name m.has_quotes
      then m
      else set_books b.symbol.name b.bid_close (d.dec 0) b.ask_close (d.dec 0) m
  update_item (tick t) m =
      let priced = set_last t.symbol.name t.price m in
      if contains_key t.symbol.name m.has_quotes
      then priced
      else set_traded t.aggressor t.symbol.name t.price priced
  update_item (quote q) m =
      if contains_key q.symbol.name m.has_quotes
      then m
      else set_books q.symbol.name q.bid q.bid_volume q.ask q.ask_volume
          (record m { has_quotes = insert q.symbol.name true m.has_quotes })
  update_item (fundamental f) m = m

  unfoldable pub update_market_data : TimeSlice D → MarketPriceService D → MarketPriceService D
  update_market_data [] m = m
  update_market_data (item ∷ items) m = update_market_data items (update_item item m)

  unfoldable pub side_books : OrderSide → MarketPriceService D → Dict SymbolName (Book D)
  side_books buy m = m.ask_books
  side_books sell m = m.bid_books

  -- The book that an order meets: that of the code, or else that of the name.
  unfoldable pub order_book :
      OrderSide → SymbolName → SymbolCode → MarketPriceService D → Option (Book D)
  unfolding side_books
  order_book side name code m = elim (lookup code (side_books side m)) [
    | some book ↦ some book
    | none ↦ lookup name (side_books side m)
  ]

  unfoldable pub get_market_price :
      OrderSide → SymbolName → SymbolCode → MarketPriceService D → Option D
  unfolding order_book
  get_market_price side name code m = elim (order_book side name code m) [
    | some book ↦ do best ← lookup 0 book; some best.price
    | none ↦ lookup name m.last_price
  ]

  unfoldable pub start : (volume : D) → Walk D
  start volume = record {
    total_price_volume = d.dec 0;
    total_volume_filled = d.dec 0;
    remaining_volume = volume;
  }

  unfoldable pub take_level : BookLevel D → Walk D → Walk D
  take_level b w =
      let volume_to_use = min w.remaining_volume b.volume in
      record {
        total_price_volume = w.total_price_volume ⊕ b.price ⊗ volume_to_use;
        total_volume_filled = w.total_volume_filled ⊕ volume_to_use;
        remaining_volume = w.remaining_volume ⊖ volume_to_use;
      }

module _ {D : Type 0} ⦃d : Decimal D⦄ where
  -- `for level in 0..` of both estimates; `beyond` is the test of the limit, and `at_start` the
  -- further test that `estimate_limit_fill` makes of the level. A level is counted in a `u16` there.
  unfoldable pub walk :
      (beyond : D → Bool) (at_start : ℕ → Bool) → Book D → (fuel level : ℕ) → Walk D → Ending D
  unfolding take_level
  walk beyond at_start book zero level w = out_of_fuel
  walk beyond at_start book (suc fuel) level w =
      let skip = walk beyond at_start book fuel (suc level) w in
      elim (lookup level book) [
        | none ↦ book_ended w
        | some b ↦
            let taken = take_level b w in
            let next = walk beyond at_start book fuel (suc level) taken in
            if b.volume ≐ d.dec 0
            then (if (w.total_volume_filled ≐ d.dec 0) && at_start level
                then unknown_volume b.price
                else skip)
            else if beyond b.price
            then book_ended w
            else if taken.remaining_volume ≐ d.dec 0
            then all_filled taken
            else next
      ]

  -- The average price and the volume that a walk has filled; `none` is the panic of a division by zero.
  unfoldable pub averaged : Walk D → Option (Option (D × D))
  averaged w = do
    price ← d.div w.total_price_volume w.total_volume_filled
    some (some (price, w.total_volume_filled))

  -- The inner `none` is an estimate that the book does not give. A walk that has not ended has no
  -- result.
  unfoldable pub estimate : (volume : D) → Ending D → Option (Option (D × D))
  unfolding averaged
  estimate volume (unknown_volume price) = some (some (price, volume))
  estimate volume (all_filled w) = averaged w
  estimate volume (book_ended w) =
      let filled = averaged w in if d.dec 0 ≺ w.total_volume_filled then filled else some none
  estimate volume out_of_fuel = none

  -- The estimate of the book, or the last price with the whole volume.
  unfoldable pub or_last_price :
      SymbolName → (volume : D) → MarketPriceService D → Option (D × D) → Option (D × D)
  or_last_price name volume m (some fill) = some fill
  or_last_price name volume m none = elim (lookup name m.last_price) [
    | some price ↦ some (price, volume)
    | none ↦ none
  ]

  unfoldable pub estimate_book :
      (beyond : D → Bool) (at_start : ℕ → Bool)
      → OrderSide
      → SymbolName
      → SymbolCode
      → (volume : D) → MarketPriceService D
      → Option (Option (D × D))
  estimate_book beyond at_start side name code volume m = elim (order_book side name code m) [
    | some book ↦ estimate volume (walk beyond at_start book (suc (length book)) 0 (start volume))
    | none ↦ some none
  ]

  unfoldable pub estimate_fill_price :
      OrderSide → SymbolName → SymbolCode → (volume : D) → MarketPriceService D → Option (Option D)
  unfolding estimate_book or_last_price
  estimate_fill_price side name code volume m = do
    fill ← estimate_book (λ price. false) (λ level. true) side name code volume m
    some (elim (or_last_price name volume m fill) [ some (price, _) ↦ some price | none ↦ none ])

  -- `book_level.price > limit` for a purchase, `book_level.price < limit` for a sale
  unfoldable pub beyond_limit : OrderSide → (limit price : D) → Bool
  beyond_limit buy limit price = limit ≺ price
  beyond_limit sell limit price = price ≺ limit

  unfoldable pub estimate_limit_fill :
      OrderSide
      → SymbolName
      → SymbolCode
      → (volume limit : D) → MarketPriceService D
      → Option (Option (D × D))
  unfolding estimate_book beyond_limit
  estimate_limit_fill side name code volume limit m = do
    fill ←
        estimate_book (beyond_limit side limit) (λ level. nat_beq level 0) side name code volume m
    some (or_last_price name volume m fill)
