-- ===== src/Prices/Frozen.antt =====
-- The books of a symbol after its first quote
-- (ff_standard_lib/src/strategies/handlers/market_handler/price_service.rs).
use fund_forge.Base.{◌≡◌, refl, ◌∙◌, inl, inr, true, false, [], ◌∷◌}
use fund_forge.Base.Tests.{◌==◌, Bool-cases, string_eq, beq_ne}
use fund_forge.Base.Dict.{lookup, insert, contains_key, lookup-insert, contains_key-insert}
use fund_forge.Decimal.{Decimal}
use fund_forge.Market.{SymbolName}
use fund_forge.BaseData.{
  Aggressor, BaseData, candle, quote_bar, tick, quote, fundamental, TimeSlice,
}
use fund_forge.Prices.{
  MarketPriceService, set_best, touch, set_books, set_traded, set_last, update_item,
  update_market_data,
}

module _ {D : Type 0} ⦃d : Decimal D⦄ where
  -- A symbol's books are those of `m`, and it still counts as quoted.
  record Frozen (s : SymbolName) (m m' : MarketPriceService D) : Type 0 where
    pub same_bids : lookup s m'.bid_books ≡ lookup s m.bid_books
    pub same_asks : lookup s m'.ask_books ≡ lookup s m.ask_books
    pub still_quoted : contains_key s m'.has_quotes ≡ true

  Frozen-trans :
      (s : SymbolName) (m m1 m2 : MarketPriceService D)
      → Frozen s m m1
      → Frozen s m1 m2
      → Frozen s m m2
  Frozen-trans s m m1 m2 f g = record {
    same_bids = g.same_bids ∙ f.same_bids;
    same_asks = g.same_asks ∙ f.same_asks;
    still_quoted = g.still_quoted;
  }

  -- The books of another symbol may be set.
  set_books-Frozen :
      (s name : SymbolName) (bid bid_volume ask ask_volume : D) (m : MarketPriceService D)
      → (name == s) ≡ false
      → contains_key s m.has_quotes ≡ true
      → Frozen s m (set_books name bid bid_volume ask ask_volume m)
  unfolding set_books set_best
  set_books-Frozen s name bid bid_volume ask ask_volume m other quoted = record {
    same_bids = rw (lookup-insert, other);
    same_asks = rw (lookup-insert, other);
    still_quoted = quoted;
  }

  set_traded-Frozen :
      (s name : SymbolName) (aggressor : Aggressor) (price : D) (m : MarketPriceService D)
      → (name == s) ≡ false
      → contains_key s m.has_quotes ≡ true
      → Frozen s m (set_traded aggressor name price m)
  unfolding set_traded set_best touch
  set_traded-Frozen s name Aggressor.buy price m other quoted = record {
    same_bids = rw (lookup-insert, other);
    same_asks = rw (lookup-insert, other);
    still_quoted = quoted;
  }
  set_traded-Frozen s name Aggressor.sell price m other quoted = record {
    same_bids = rw (lookup-insert, other);
    same_asks = rw (lookup-insert, other);
    still_quoted = quoted;
  }
  set_traded-Frozen s name Aggressor.nobody price m other quoted = record {
    same_bids = refl;
    same_asks = refl;
    still_quoted = quoted;
  }

  -- A symbol that has no quotes is not one that has.
  unquoted_is_other :
      (s name : SymbolName) (m : MarketPriceService D)
      → contains_key s m.has_quotes ≡ true
      → contains_key name m.has_quotes ≡ false
      → (name == s) ≡ false
  unquoted_is_other s name m quoted unquoted = beq_ne name s (λ same. cc)

  -- Only the last price changes.
  set_last-Frozen :
      (s name : SymbolName) (price : D) (m : MarketPriceService D)
      → contains_key s m.has_quotes ≡ true
      → Frozen s m (set_last name price m)
  unfolding set_last
  set_last-Frozen s name price m quoted = record {
    same_bids = refl;
    same_asks = refl;
    still_quoted = quoted;
  }

  add_quoted-Frozen :
      (s name : SymbolName) (m : MarketPriceService D)
      → (name == s) ≡ false
      → contains_key s m.has_quotes ≡ true
      → Frozen s m (record m { has_quotes = insert name true m.has_quotes })
  add_quoted-Frozen s name m other quoted = record {
    same_bids = refl;
    same_asks = refl;
    still_quoted = rw (contains_key-insert name s true m.has_quotes, other) quoted;
  }

  update_item-Frozen :
      (s : SymbolName) (item : BaseData D) (m : MarketPriceService D)
      → contains_key s m.has_quotes ≡ true
      → Frozen s m (update_item item m)
  unfolding update_item set_last
  update_item-Frozen s (candle c) m quoted = set_last-Frozen s c.symbol.name c.close m quoted
  update_item-Frozen s (quote_bar b) m quoted =
      elim (Bool-cases (contains_key b.symbol.name m.has_quotes)) [
        | inl known ↦
            rw known (record { same_bids = refl; same_asks = refl; still_quoted = quoted })
        | inr fresh ↦ rw fresh (
            set_books-Frozen s b.symbol.name b.bid_close (d.dec 0) b.ask_close (d.dec 0) m
              (unquoted_is_other s b.symbol.name m quoted fresh) quoted)
      ]
  update_item-Frozen s (tick t) m quoted =
      let priced = set_last-Frozen s t.symbol.name t.price m quoted in
      elim (Bool-cases (contains_key t.symbol.name m.has_quotes)) [
        | inl known ↦ rw known priced
        | inr fresh ↦ rw fresh (
            Frozen-trans s _ _ _ priced (
              set_traded-Frozen s t.symbol.name t.aggressor t.price
                (set_last t.symbol.name t.price m)
                (unquoted_is_other s t.symbol.name m quoted fresh) quoted))
      ]
  update_item-Frozen s (quote q) m quoted =
      elim (Bool-cases (contains_key q.symbol.name m.has_quotes)) [
        | inl known ↦
            rw known (record { same_bids = refl; same_asks = refl; still_quoted = quoted })
        | inr fresh ↦
            let other = unquoted_is_other s q.symbol.name m quoted fresh in
            let added = add_quoted-Frozen s q.symbol.name m other quoted in
            rw fresh (
              Frozen-trans s _ _ _ added (
                set_books-Frozen s q.symbol.name q.bid q.bid_volume q.ask q.ask_volume
                  (record m { has_quotes = insert q.symbol.name true m.has_quotes }) other
                  added.still_quoted))
      ]
  update_item-Frozen s (fundamental f) m quoted = record {
    same_bids = refl;
    same_asks = refl;
    still_quoted = quoted;
  }

  update-Frozen :
      (s : SymbolName) (items : TimeSlice D) (m : MarketPriceService D)
      → contains_key s m.has_quotes ≡ true
      → Frozen s m (update_market_data items m)
  unfolding update_market_data
  update-Frozen s [] m quoted = record { same_bids = refl; same_asks = refl; still_quoted = quoted }
  update-Frozen s (item ∷ items) m quoted =
      let first = update_item-Frozen s item m quoted in
      Frozen-trans s _ _ _ first (update-Frozen s items (update_item item m) first.still_quoted)

  -- Once a symbol has had a quote, no later data, quotes included, changes its books: the service
  -- keeps the bid and the ask of the first quote.
  pub lookup-update_market_data :
      (s : SymbolName) (items : TimeSlice D) (m : MarketPriceService D)
      → contains_key s m.has_quotes ≡ true
      → (lookup s (update_market_data items m).bid_books ≡ lookup s m.bid_books)
        × (lookup s (update_market_data items m).ask_books ≡ lookup s m.ask_books)
  lookup-update_market_data s items m quoted =
      let f = update-Frozen s items m quoted in (f.same_bids, f.same_asks)
