-- ===== src/Prices/Best.antt =====
-- The best bid and the best ask of a symbol before its first quote
-- (ff_standard_lib/src/strategies/handlers/market_handler/price_service.rs).
use mathlib.Core.Path.{subst}
use fund_forge.Base.{
  ◌≡◌, refl, sym, ap, ◌∙◌, inl, inr, Bool, true, false, Option, none, some, [], ◌∷◌,
}
use fund_forge.Base.Tests.{
  ◌==◌, if◌then◌else◌, ◌>>=◌, Bool-cases, Option-cases, string_eq, nat_eq, beq_ne,
}
use fund_forge.Base.Dict.{
  Dict, lookup, contains_key, lookup-insert, lookup-insert_self, contains_key-insert,
}
use fund_forge.Decimal.{Decimal}
use fund_forge.Market.{SymbolName}
use fund_forge.BaseData.{
  Aggressor, BaseData, candle, quote_bar, tick, quote, fundamental, symbol, TimeSlice,
}
use fund_forge.Prices.{
  Book, MarketPriceService, book_entry, set_best, touch, set_books, set_traded, set_last,
  update_item, update_market_data,
}

if_same : {A : Type 0} (b : Bool) (a : A) → (if b then a else a) ≡ a
if_same true a = refl
if_same false a = refl

module _ {D : Type 0} where
  -- The price of the best level of a symbol's book.
  abbrev pub best : SymbolName → Dict SymbolName (Book D) → Option D
  best s books = lookup s books >>= λ book. lookup 0 book >>= λ level. some level.price

  best-set_best :
      (s name : SymbolName) (price volume : D) (books : Dict SymbolName (Book D))
      → best s (set_best name price volume books) ≡ (if name == s then some price else best s books)
  unfolding set_best
  best-set_best s name price volume books = elim (Bool-cases (name == s)) [
    | inl same ↦ rw (lookup-insert, same, lookup-insert_self) refl
    | inr other ↦ rw (lookup-insert, other) refl
  ]

  best-touch :
      (s name : SymbolName) (books : Dict SymbolName (Book D))
      → best s (touch name books) ≡ best s books
  unfolding touch book_entry lookup
  best-touch s name books = elim (Bool-cases (name == s)) [
    | inl same ↦
        subst (λ k. best k (touch name books) ≡ best k books) ((string_eq.beq_iff name s).0 same)
          (elim (Option-cases (lookup name books)) [
            | inl absent ↦ rw (lookup-insert_self, book_entry, absent) refl
            | inr (book, found) ↦ rw (lookup-insert_self, book_entry, found) refl
          ])
    | inr other ↦ rw (lookup-insert, other) refl
  ]

  abbrev pub bid_traded : Aggressor → (price : D) → Option D
  bid_traded Aggressor.sell price = some price
  bid_traded _ price = none

  abbrev pub ask_traded : Aggressor → (price : D) → Option D
  ask_traded Aggressor.buy price = some price
  ask_traded _ price = none

  -- The bid, or the ask, that an item of data tells.
  abbrev pub bid_told : BaseData D → Option D
  bid_told (quote_bar b) = some b.bid_close
  bid_told (tick t) = bid_traded t.aggressor t.price
  bid_told (quote q) = some q.bid
  bid_told _ = none

  abbrev pub ask_told : BaseData D → Option D
  ask_told (quote_bar b) = some b.ask_close
  ask_told (tick t) = ask_traded t.aggressor t.price
  ask_told (quote q) = some q.ask
  ask_told _ = none

  -- What is told of a symbol, or else what was known.
  abbrev pub told_or : (told known : Option D) → Option D
  told_or (some price) known = some price
  told_or none known = known

  abbrev pub after_told : SymbolName → SymbolName → (told known : Option D) → Option D
  after_told s name told known = if name == s then told_or told known else known

  -- The latest price that some data tell of a symbol.
  abbrev pub latest_told : (BaseData D → Option D) → SymbolName → TimeSlice D → Option D → Option D
  latest_told told s [] known = known
  latest_told told s (item ∷ items) known =
      latest_told told s items (after_told s (symbol item).name (told item) known)

  -- No item is a quote of the symbol.
  abbrev pub IsNoQuote : SymbolName → BaseData D → Type 0
  IsNoQuote s (quote q) = (q.symbol.name == s) ≡ false
  IsNoQuote s _ = Unit

  abbrev pub HasNoQuote : SymbolName → TimeSlice D → Type 0
  HasNoQuote s [] = Unit
  HasNoQuote s (item ∷ items) = IsNoQuote s item × HasNoQuote s items

module _ {D : Type 0} ⦃d : Decimal D⦄ where
  -- The best prices of a symbol that has no quotes yet.
  record Shows (s : SymbolName) (bid ask : Option D) (m : MarketPriceService D) : Type 0 where
    pub bids : best s m.bid_books ≡ bid
    pub asks : best s m.ask_books ≡ ask
    pub unquoted : contains_key s m.has_quotes ≡ false

  traded-Shows :
      (s name : SymbolName) (aggressor : Aggressor) (price : D) (m : MarketPriceService D)
      → contains_key s m.has_quotes ≡ false
      → Shows s
          (after_told s name (bid_traded aggressor price) (best s m.bid_books))
          (after_told s name (ask_traded aggressor price) (best s m.ask_books))
          (set_traded aggressor name price m)
  unfolding set_traded
  traded-Shows s name Aggressor.buy price m fresh = record {
    bids = best-touch s name m.bid_books ∙ sym (if_same (name == s) (best s m.bid_books));
    asks = best-set_best s name price (d.dec 0) m.ask_books;
    unquoted = fresh;
  }
  traded-Shows s name Aggressor.sell price m fresh = record {
    bids = best-set_best s name price (d.dec 0) m.bid_books;
    asks = best-touch s name m.ask_books ∙ sym (if_same (name == s) (best s m.ask_books));
    unquoted = fresh;
  }
  traded-Shows s name Aggressor.nobody price m fresh = record {
    bids = sym (if_same (name == s) (best s m.bid_books));
    asks = sym (if_same (name == s) (best s m.ask_books));
    unquoted = fresh;
  }

  -- A symbol that has quotes is not one that has none.
  quoted_is_other :
      (s name : SymbolName) (m : MarketPriceService D)
      → contains_key s m.has_quotes ≡ false
      → contains_key name m.has_quotes ≡ true
      → (name == s) ≡ false
  quoted_is_other s name m fresh known = beq_ne name s (λ same. cc)

  item-Shows :
      (s : SymbolName) (item : BaseData D) (m : MarketPriceService D)
      → contains_key s m.has_quotes ≡ false
      → IsNoQuote s item
      → Shows s
          (after_told s (symbol item).name (bid_told item) (best s m.bid_books))
          (after_told s (symbol item).name (ask_told item) (best s m.ask_books))
          (update_item item m)
  unfolding update_item symbol set_books set_last
  item-Shows s (candle c) m fresh h = record {
    bids = sym (if_same (c.symbol.name == s) (best s m.bid_books));
    asks = sym (if_same (c.symbol.name == s) (best s m.ask_books));
    unquoted = fresh;
  }
  item-Shows s (quote_bar b) m fresh h =
      elim (Bool-cases (contains_key b.symbol.name m.has_quotes)) [
        | inl known ↦
            rw (known, quoted_is_other s b.symbol.name m fresh known)
              (record { bids = refl; asks = refl; unquoted = fresh })
        | inr new ↦ rw new (record {
          bids = best-set_best s b.symbol.name b.bid_close (d.dec 0) m.bid_books;
          asks = best-set_best s b.symbol.name b.ask_close (d.dec 0) m.ask_books;
          unquoted = fresh;
        })
      ]
  item-Shows s (tick t) m fresh h = elim (Bool-cases (contains_key t.symbol.name m.has_quotes)) [
    | inl known ↦
        rw (known, quoted_is_other s t.symbol.name m fresh known)
          (record { bids = refl; asks = refl; unquoted = fresh })
    | inr new ↦
        rw new (
          traded-Shows s t.symbol.name t.aggressor t.price (set_last t.symbol.name t.price m) fresh)
  ]
  item-Shows s (quote q) m fresh h = elim (Bool-cases (contains_key q.symbol.name m.has_quotes)) [
    | inl known ↦ rw (known, h) (record { bids = refl; asks = refl; unquoted = fresh })
    | inr new ↦
        rw (new, h)
          (record {
            bids = best-set_best s q.symbol.name q.bid q.bid_volume m.bid_books ∙ rw h refl;
            asks = best-set_best s q.symbol.name q.ask q.ask_volume m.ask_books ∙ rw h refl;
            unquoted = rw (contains_key-insert, h) fresh;
          })
  ]
  item-Shows s (fundamental f) m fresh h = record {
    bids = sym (if_same (f.symbol.name == s) (best s m.bid_books));
    asks = sym (if_same (f.symbol.name == s) (best s m.ask_books));
    unquoted = fresh;
  }

  -- As long as no quote of a symbol has come, the best bid and the best ask in its books are the
  -- latest that the data tell: by a quote bar its closes, by a trade the price on the side that it
  -- took.
  pub best-update_market_data :
      (s : SymbolName) (items : TimeSlice D) (m : MarketPriceService D)
      → contains_key s m.has_quotes ≡ false
      → HasNoQuote s items
      → let after = update_market_data items m in
        (best s after.bid_books ≡ latest_told bid_told s items (best s m.bid_books))
        × (best s after.ask_books ≡ latest_told ask_told s items (best s m.ask_books))
  unfolding update_market_data
  best-update_market_data s [] m fresh h = (refl, refl)
  best-update_market_data s (item ∷ items) m fresh (h, k) =
      let first = item-Shows s item m fresh h in
      let (bids, asks) = best-update_market_data s items (update_item item m) first.unquoted k in
      (
        bids ∙ ap (latest_told bid_told s items) first.bids,
        asks ∙ ap (latest_told ask_told s items) first.asks,
      )
