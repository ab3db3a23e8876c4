-- ===== src/Market/Currencies.antt =====
-- The codes of the currencies (ff_standard_lib/src/standardized_types/accounts.rs). `none` is a panic.
use fund_forge.Base.{◌≡◌, refl, ap, ◌∙◌, ◌↔◌, inl, inr, Option, none, some, String}
use fund_forge.Base.Tests.{◌==◌, if◌then◌else◌, string_eq, Bool-cases, Always, Always-some}
use fund_forge.Market.{Currency}

-- The text of `Display`.
unfoldable pub to_string : Currency → String
to_string Currency.aud = "AUD"
to_string Currency.usd = "USD"
to_string Currency.cad = "CAD"
to_string Currency.eur = "EUR"
to_string Currency.jpy = "JPY"
to_string Currency.chf = "CHF"
to_string Currency.gbp = "GBP"
to_string Currency.sek = "SEK"
to_string Currency.nok = "NOK"
to_string Currency.try = "TRY"
to_string Currency.pln = "PLN"
to_string Currency.huf = "HUF"
to_string Currency.czk = "CZK"
to_string Currency.mxn = "MXN"
to_string Currency.zar = "ZAR"
to_string Currency.hkd = "HKD"
to_string Currency.sgd = "SGD"
to_string Currency.nzd = "NZD"
to_string Currency.cnh = "CNH"
to_string Currency.bch = "BCH"
to_string Currency.btc = "BTC"
to_string Currency.eth = "ETH"
to_string Currency.ltc = "LTC"

unfoldable pub from_str : String → Option Currency
from_str s =
    if s == "AUD"
    then some Currency.aud
    else if s == "USD"
    then some Currency.usd
    else if s == "CAD"
    then some Currency.cad
    else if s == "EUR"
    then some Currency.eur
    else if s == "JPY"
    then some Currency.jpy
    else if s == "CHF"
    then some Currency.chf
    else if s == "GBP"
    then some Currency.gbp
    else if s == "SEK"
    then some Currency.sek
    else if s == "NOK"
    then some Currency.nok
    else if s == "TRY"
    then some Currency.try
    else if s == "PLN"
    then some Currency.pln
    else if s == "HUF"
    then some Currency.huf
    else if s == "CZK"
    then some Currency.czk
    else if s == "MXN"
    then some Currency.mxn
    else if s == "ZAR"
    then some Currency.zar
    else if s == "HKD"
    then some Currency.hkd
    else if s == "SGD"
    then some Currency.sgd
    else if s == "NZD"
    then some Currency.nzd
    else if s == "CNH"
    then some Currency.cnh
    else if s == "BCH"
    then some Currency.bch
    else if s == "BTC"
    then some Currency.btc
    else if s == "ETH"
    then some Currency.eth
    else if s == "LTC"
    then some Currency.ltc
    else none

from_str-to_string : (c : Currency) → from_str (to_string c) ≡ some c
unfolding from_str to_string
from_str-to_string Currency.aud = refl
from_str-to_string Currency.usd = refl
from_str-to_string Currency.cad = refl
from_str-to_string Currency.eur = refl
from_str-to_string Currency.jpy = refl
from_str-to_string Currency.chf = refl
from_str-to_string Currency.gbp = refl
from_str-to_string Currency.sek = refl
from_str-to_string Currency.nok = refl
from_str-to_string Currency.try = refl
from_str-to_string Currency.pln = refl
from_str-to_string Currency.huf = refl
from_str-to_string Currency.czk = refl
from_str-to_string Currency.mxn = refl
from_str-to_string Currency.zar = refl
from_str-to_string Currency.hkd = refl
from_str-to_string Currency.sgd = refl
from_str-to_string Currency.nzd = refl
from_str-to_string Currency.cnh = refl
from_str-to_string Currency.bch = refl
from_str-to_string Currency.btc = refl
from_str-to_string Currency.eth = refl
from_str-to_string Currency.ltc = refl

module _ (s : String) where
  abbrev IsText : Currency → Type 0
  IsText c = s ≡ to_string c

  tested-IsText :
      (code : String) (c : Currency) (others : Option Currency)
      → code ≡ to_string c
      → Always IsText others
      → Always IsText (if s == code then some c else others)
  tested-IsText code c others e h = elim (Bool-cases (s == code)) [
    | inl same ↦ rw same ((string_eq.beq_iff s code).0 same ∙ e)
    | inr different ↦ rw different h
  ]

  from_str-IsText : Always IsText (from_str s)
  unfolding from_str to_string
  from_str-IsText = tested-IsText "AUD" Currency.aud _ refl (
      tested-IsText "USD" Currency.usd _ refl (
        tested-IsText "CAD" Currency.cad _ refl (
          tested-IsText "EUR" Currency.eur _ refl (
            tested-IsText "JPY" Currency.jpy _ refl (
              tested-IsText "CHF" Currency.chf _ refl (
                tested-IsText "GBP" Currency.gbp _ refl (
                  tested-IsText "SEK" Currency.sek _ refl (
                    tested-IsText "NOK" Currency.nok _ refl (
                      tested-IsText "TRY" Currency.try _ refl (
                        tested-IsText "PLN" Currency.pln _ refl (
                          tested-IsText "HUF" Currency.huf _ refl (
                            tested-IsText "CZK" Currency.czk _ refl (
                              tested-IsText "MXN" Currency.mxn _ refl (
                                tested-IsText "ZAR" Currency.zar _ refl (
                                  tested-IsText "HKD" Currency.hkd _ refl (
                                    tested-IsText "SGD" Currency.sgd _ refl (
                                      tested-IsText "NZD" Currency.nzd _ refl (
                                        tested-IsText "CNH" Currency.cnh _ refl (
                                          tested-IsText "BCH" Currency.bch _ refl (
                                            tested-IsText "BTC" Currency.btc _ refl (
                                              tested-IsText "ETH" Currency.eth _ refl (
                                                tested-IsText "LTC" Currency.ltc _ refl
                                                  (tt)))))))))))))))))))))))

-- A text is parsed as a currency exactly if it is the text that the currency is printed as; every
-- other text is a panic.
pub from_str_iff : (s : String) (c : Currency) → (from_str s ≡ some c) ↔ (s ≡ to_string c)
from_str_iff s c = (
  λ parsed. Always-some (IsText s) (from_str s) (from_str-IsText s) parsed,
  λ same. ap from_str same ∙ from_str-to_string c,
)
