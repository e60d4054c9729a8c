-- ===== src/Tests/Stores.antt =====
-- Stored states and their health: src/market_data, src/monitoring, src/storage and src/app/recovery_service.cpp.
use wall.Core.{OrderRecord, OrderStatus, OrderUpdate, buy}
use wall.MarketData.{
  MarketState, MarketStateStore, apply_all, blank_state, get, is_out_of_order, next_state, state_of,
  updated,
}
use wall.MarketData.Feed.{FeedHealthTracker, feed_status, new_feed, on_connect, on_message}
use wall.MarketData.Feed.Machine.{ReachableFeed, connect, feed_status-healthy, message, start, step}
use wall.MarketData.Store.{NoOlder, apply_all-NoOlder}
use wall.Monitoring.{RuntimeHealthStatus, healthy, new_health, risk, set_status, unavailable}
use wall.Prelude.{[], arith, false, foldl, length, none, refl, some, true, ℕ, ◌↔◌, ◌∷◌, ◌≡◌}
use wall.Prelude.Dict.{Dict, insert, lookup, lookup-insert_self}
use wall.Prelude.Int.{eqb_ℤ, ltb_ℤ, pos, ◌-ℤ◌, ◌<ℤ◌}
use wall.Prelude.Text.{dec_str}
use wall.Recovery.{note_record}
use wall.Recovery.Offsets.{AllReached, note_records-AllReached}
use wall.Samples.{order_at, quote_at, units}
use wall.Storage.{KafkaCheckpoint, TransactionRecord, save_order}

abbrev first_state : MarketState
first_state = next_state blank_state (quote_at 3 95)

abbrev seen : MarketStateStore
seen = insert "BTC-USD" first_state []

is_seen : get seen "BTC-USD" ≡ some first_state
unfolding get
is_seen = lookup-insert_self "BTC-USD" first_state []

is_timed : pos 0 <ℤ first_state.last_process_timestamp
unfolding updated
is_timed = omega arith

apply_all-NoOlder_example :
    NoOlder (apply_all seen (quote_at 1 90 ∷ quote_at 2 91 ∷ [])) "BTC-USD" first_state
apply_all-NoOlder_example =
    apply_all-NoOlder (quote_at 1 90 ∷ quote_at 2 91 ∷ []) seen "BTC-USD" first_state is_seen
      is_timed

is_in_order : is_out_of_order (state_of seen "BTC-USD") (quote_at 1 90) ≡ false
unfolding updated lookup insert dec_str
is_in_order = refl

abbrev live_feed : FeedHealthTracker
live_feed = on_message (on_connect new_feed) (pos 1000)

live_feed-ReachableFeed : ReachableFeed live_feed
live_feed-ReachableFeed =
    step (on_connect new_feed) live_feed
      (step new_feed (on_connect new_feed) start (connect new_feed))
      (message (on_connect new_feed) (pos 1000))

feed_status-healthy_example : (feed_status live_feed (pos 1200) (pos 500) (pos 100) ≡ healthy) ↔ (
    (live_feed.subscribed ≡ true)
    × (eqb_ℤ live_feed.last_message_timestamp (pos 0) ≡ false)
    × (ltb_ℤ (pos 500) (pos 1200 -ℤ live_feed.last_message_timestamp) ≡ false))
feed_status-healthy_example =
    feed_status-healthy live_feed (pos 1200) (pos 500) (pos 100) live_feed-ReachableFeed

abbrev risk_down : RuntimeHealthStatus
risk_down = set_status new_health risk unavailable

four_slots : length new_health.component_statuses ≡ 4
unfolding new_health
four_slots = omega arith

abbrev filled_update : OrderUpdate
filled_update = record {
  order_id = "order-1";
  client_order_id = "client-1";
  status = OrderStatus.filled;
  filled_quantity = units 5;
  reason = none;
}

abbrev stored_orders : Dict OrderRecord
stored_orders = save_order [] (order_at buy 5 100) "order-1" "client-1"

abbrev checkpoint : KafkaCheckpoint
checkpoint = record { topic = "transactions"; partition = pos 0; offset = pos 9 }

abbrev processed_at : ℕ → TransactionRecord
processed_at n = record {
  transaction_id = "transaction-1";
  status = "processed";
  kafka_topic = "transactions";
  kafka_partition = pos 0;
  kafka_offset = pos n;
}

note_records-AllReached_example :
    AllReached
      (foldl note_record [] (processed_at 4 ∷ processed_at 7 ∷ processed_at 5 ∷ []))
      (processed_at 4 ∷ processed_at 7 ∷ processed_at 5 ∷ [])
note_records-AllReached_example =
    note_records-AllReached (processed_at 4 ∷ processed_at 7 ∷ processed_at 5 ∷ []) []
