-- ===== src/Exchange.antt =====
-- The errors of the exchange adapters, and the mapping of a venue's reasons
-- (src/exchange/exchange_execution_adapter.cpp, include/exchange/exchange_market_data_adapter.hpp).
pub mod MarketAdapter
pub mod Normalized
pub mod ExecutionAdapter
pub mod Router
pub mod Routing
pub mod LiveFeed
pub mod Reconnects
use Prim.Native.Char.{code}
use wall.Prelude.{Bool, String, false, if◌then◌else◌, refl, true, ◌&&◌, ◌==◌, ◌||◌, ◌≡◌}
use wall.Prelude.Text.{is_empty, translate}

pub data ExchangeAdapterErrorCode : Type 0 where
  malformed_payload missing_required_field invalid_numeric_field : ExchangeAdapterErrorCode
  unsupported_message_type symbol_mismatch rejected_by_exchange : ExchangeAdapterErrorCode
  transport_failure unknown : ExchangeAdapterErrorCode

pub record ExchangeAdapterError : Type 0 where
  pub code : ExchangeAdapterErrorCode
  pub message : String
  pub retryable : Bool

-- `std::tolower` on each character
unfoldable pub to_lower_copy : String → String
unfolding translate
to_lower_copy String.[] = ""
to_lower_copy (String.◌∷◌ c s) =
    String.◌∷◌ (translate "ABCDEFGHIJKLMNOPQRSTUVWXYZ" "abcdefghijklmnopqrstuvwxyz" c)
      (to_lower_copy s)

unfoldable pub starts_with : String → String → Bool
starts_with String.[] s = true
starts_with (String.◌∷◌ a t) String.[] = false
starts_with (String.◌∷◌ a t) (String.◌∷◌ b s) = code a == code b && starts_with t s

-- `s.find(t) != std::string::npos`
unfoldable pub finds : String → String → Bool
unfolding starts_with
finds t String.[] = is_empty t
finds t (String.◌∷◌ c s) = starts_with t (String.◌∷◌ c s) || finds t s

unfoldable pub map_exchange_error : String → ExchangeAdapterErrorCode
unfolding finds to_lower_copy
map_exchange_error reason =
    let normalized = to_lower_copy reason in
    if finds "unsupported" normalized || finds "invalid type" normalized
    then unsupported_message_type
    else if finds "insufficient" normalized
        || (finds "rejected" normalized || finds "risk" normalized)
    then rejected_by_exchange
    else if finds "timeout" normalized
        || (finds "connection" normalized || finds "unavailable" normalized)
    then transport_failure
    else unknown

mapped_test : map_exchange_error "Connection reset" ≡ transport_failure
unfolding map_exchange_error
mapped_test = refl
