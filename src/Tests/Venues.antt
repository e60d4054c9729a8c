-- ===== src/Tests/Venues.antt =====
-- Messages, orders and disconnects of the parts under src/exchange.
use mathlib.Core.Option
use wall.Core.{MarketEvent, buy, ticker}
use wall.Exchange.ExecutionAdapter.{ExecutionAdapter, live, new_live_adapter}
use wall.Exchange.LiveFeed.{disconnects, new_feed, start}
use wall.Exchange.MarketAdapter.{normalize, normalized, parse_fields}
use wall.Exchange.Normalized.{Describes, normalize-Describes}
use wall.Exchange.Reconnects.{GivenUp, Survived, disconnects-start}
use wall.Exchange.Routing.{
  RouterCall, adapter_after, addressed, answer_of, cancels, routed, routed_refines, router_after,
  submits,
}
use wall.Prelude.{List, String, [], arith, false, none, refl, some, true, ◌<◌, ◌∷◌, ◌≡◌, ◌≤◌}
use wall.Prelude.Dict.{Dict, insert, lookup}
use wall.Prelude.Int.{pos}
use wall.Prelude.Text.{dec_str}
use wall.Samples.{btc, order_at, truncating}
use wall.Tests.Numbers.{scientific_text}

abbrev router : Dict ExecutionAdapter
router = ("sim", live new_live_adapter) ∷ []

-- An order for the exchange that is there, and a cancel for one that is not.
abbrev router_calls : List RouterCall
router_calls = submits (order_at buy 5 100) ∷ cancels "other" "order-1" "client-1" ∷ []

routed_refines_example :
    ((name : String)
      → lookup name (router_after truncating router router_calls)
        ≡ Option.map
            (λ a. adapter_after truncating a (addressed name router_calls))
            (lookup name router))
    × ((routed truncating
          (router_after truncating router router_calls)
          (cancels "sim" "order-1" "client-1")).1
        ≡ answer_of truncating (cancels "sim" "order-1" "client-1") (
            Option.map
              (λ a. adapter_after truncating a (addressed "sim" router_calls))
              (lookup "sim" router)))
routed_refines_example =
    routed_refines truncating router router_calls (cancels "sim" "order-1" "client-1")

-- Three disconnects where two reconnects are allowed.
disconnects-start_example :
    (3 ≤ 2
      → ((disconnects 3 (start (new_feed ("BTCUSD" ∷ []) 2 true))).1 ≡ false)
        × Survived
            (start (new_feed ("BTCUSD" ∷ []) 2 true))
            3
            (disconnects 3 (start (new_feed ("BTCUSD" ∷ []) 2 true))).0)
    × (2 < 3
        → ((disconnects 3 (start (new_feed ("BTCUSD" ∷ []) 2 true))).1 ≡ true)
          × GivenUp
              (start (new_feed ("BTCUSD" ∷ []) 2 true))
              (disconnects 3 (start (new_feed ("BTCUSD" ∷ []) 2 true))).0)
disconnects-start_example = disconnects-start ("BTCUSD" ∷ []) 2 3 true (omega arith)

abbrev payload : String
payload = "type=ticker;event_id=event-1;symbol=BTCUSD;exchange_ts=1000"

abbrev ticked : MarketEvent
ticked = record {
  event_id = "event-1";
  event_type = ticker;
  instrument = btc;
  price = pos 0;
  quantity = pos 0;
  bid_price = none;
  ask_price = none;
  bid_levels = [];
  ask_levels = [];
  exchange_timestamp = pos 1000;
  receive_timestamp = pos 1001;
  process_timestamp = pos 1002;
}

payload-accepted : normalize scientific_text btc payload (pos 1001) (pos 1002) ≡ normalized ticked
unfolding normalize lookup insert dec_str
payload-accepted = refl

normalize-Describes_example :
    (d : Dict String) × (parse_fields payload ≡ some d)
    × Describes scientific_text btc d (pos 1001) (pos 1002) ticked
normalize-Describes_example =
    normalize-Describes scientific_text btc payload (pos 1001) (pos 1002) ticked payload-accepted
