-- ===== src/Market.antt =====
-- The data types that all parts share (ff_standard_lib/src/standardized_types: accounts.rs,
-- broker_enum.rs, enums.rs, symbol_info.rs, new_types.rs, and apis/rithmic/rithmic_systems.rs).
-- A `DateTime<Utc>` is the number of nanoseconds since the earliest one that chrono can represent;
-- where the source stores a time as its text, the model stores the time.
pub mod Currencies
pub mod Tests
use fund_forge.Base.{ℕ, ◌≡◌, ◌↔◌, Bool, true, ◌&&◌, Option, String, arith}
use fund_forge.Base.Tests.{Eq, ◌==◌, string_eq, of_discrete}

abbrev pub Time : Type 0
Time = ℕ

abbrev pub SymbolName : Type 0
SymbolName = String

abbrev pub SymbolCode : Type 0
SymbolCode = String

abbrev pub OrderId : Type 0
OrderId = String

abbrev pub PositionId : Type 0
PositionId = String

pub data Currency : Type 0 where
  aud usd cad eur jpy chf gbp sek nok try pln huf czk mxn zar hkd sgd nzd cnh bch btc eth ltc :
      Currency

unfoldable pub Currency-discrete : Discrete Currency
Currency-discrete = hlevel

instance abbrev pub currency_eq : Eq Currency
currency_eq = of_discrete Currency-discrete

pub data OrderSide : Type 0 where
  buy sell : OrderSide

pub data PositionSide : Type 0 where
  long short flat : PositionSide

pub data StrategyMode : Type 0 where
  backtest live live_paper_trading : StrategyMode

pub data RithmicSystem : Type 0 where
  rithmic_04_colo rithmic_01 rithmic_paper_trading topstep_trader speed_up : RithmicSystem
  trade_fundrr u_profit_trader apex mes_capital the_trading_pit : RithmicSystem
  funded_futures_network bulenox prop_shop_trader four_prop_trader : RithmicSystem
  fast_track_trading test : RithmicSystem

pub data Brokerage : Type 0 where
  test : Brokerage
  rithmic : RithmicSystem → Brokerage
  bitget oanda : Brokerage

unfoldable pub Brokerage-discrete : Discrete Brokerage
Brokerage-discrete = hlevel

instance abbrev pub brokerage_eq : Eq Brokerage
brokerage_eq = of_discrete Brokerage-discrete

pub record Account : Type 0 where
  pub brokerage : Brokerage
  pub account_id : String

abbrev same_account : Account → Account → Bool
same_account a b = a.brokerage == b.brokerage && a.account_id == b.account_id

pub same_account_iff : (a b : Account) → (same_account a b ≡ true) ↔ (a ≡ b)
same_account_iff a b = ground (
  arith,
  brokerage_eq.beq_iff a.brokerage b.brokerage,
  string_eq.beq_iff a.account_id b.account_id,
)

instance abbrev pub account_eq : Eq Account
account_eq = record { beq = same_account; beq_iff = same_account_iff }

pub record SymbolInfo (D : Type 0) : Type 0 where
  pub symbol_name : SymbolName
  pub base_currency : Option Currency
  pub pnl_currency : Currency
  pub value_per_tick : D
  pub tick_size : D
  pub decimal_accuracy : ℕ

pub record CommissionInfo (D : Type 0) : Type 0 where
  pub per_side : D
  pub currency : Currency

pub data FuturesExchange : Type 0 where
  cbot cme comex nymex mgex nybot : FuturesExchange

pub data Exchange : Type 0 where
  nasdaq : Exchange

pub data MarketType : Type 0 where
  forex cfd : MarketType
  futures : FuturesExchange → MarketType
  equities : Exchange → MarketType
  crypto etf fundamentals : MarketType

pub data DataVendor : Type 0 where
  data_bento rithmic bitget oanda : DataVendor

pub record Symbol : Type 0 where
  pub name : SymbolName
  pub market_type : MarketType
  pub data_vendor : DataVendor
