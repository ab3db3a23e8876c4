-- ===== src/Market/Tests.antt =====
-- The code of a currency (ff_standard_lib/src/standardized_types/accounts.rs).
use fund_forge.Base.{◌≡◌, ◌↔◌, some}
use fund_forge.Market.{Currency}
use fund_forge.Market.Currencies.{from_str, to_string, from_str_iff}

from_str_iff_example : (from_str "JPY" ≡ some Currency.jpy) ↔ ("JPY" ≡ to_string Currency.jpy)
from_str_iff_example = from_str_iff "JPY" Currency.jpy
