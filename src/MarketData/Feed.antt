-- ===== src/MarketData/Feed.antt =====
-- src/market_data/feed_health_tracker.cpp: the connectivity of a feed as a state machine. The clock's
-- time is an argument of the calls that read it.
pub mod Machine
use wall.Core.{Int64}
use wall.Monitoring.{HealthStatus, degraded, healthy, unavailable, unknown}
use wall.Prelude.{Bool, false, if◌then◌else◌, inc_u64, not, true, ℕ}
use wall.Prelude.Int.{eqb_ℤ, ltb_ℤ, pos, ◌-ℤ◌}

pub record FeedHealthTracker : Type 0 where
  pub connected : Bool
  pub subscribed : Bool
  pub last_message_timestamp : Int64
  pub last_disconnect_timestamp : Int64
  pub disconnect_count : ℕ

unfoldable pub new_feed : FeedHealthTracker
new_feed = record {
  connected = false;
  subscribed = false;
  last_message_timestamp = pos 0;
  last_disconnect_timestamp = pos 0;
  disconnect_count = 0;
}

unfoldable pub on_connect : FeedHealthTracker → FeedHealthTracker
on_connect f = record f { connected = true; subscribed = false }

unfoldable pub on_subscribe_success : FeedHealthTracker → FeedHealthTracker
on_subscribe_success f = record f { connected = true; subscribed = true }

unfoldable pub on_message : FeedHealthTracker → Int64 → FeedHealthTracker
on_message f receive_timestamp = record f {
  connected = true;
  subscribed = true;
  last_message_timestamp = receive_timestamp;
}

unfoldable pub on_disconnect : FeedHealthTracker → Int64 → FeedHealthTracker
on_disconnect f now_ms = record f {
  connected = false;
  subscribed = false;
  last_disconnect_timestamp = now_ms;
  disconnect_count = inc_u64 f.disconnect_count;
}

unfoldable pub feed_status : FeedHealthTracker → Int64 → Int64 → Int64 → HealthStatus
feed_status f now_ms stale_after_ms disconnect_grace_ms =
    if not f.connected
    then (if eqb_ℤ f.last_disconnect_timestamp (pos 0)
        then unknown
        else if ltb_ℤ disconnect_grace_ms (now_ms -ℤ f.last_disconnect_timestamp)
        then unavailable
        else degraded)
    else if not f.subscribed
    then degraded
    else if eqb_ℤ f.last_message_timestamp (pos 0)
    then unknown
    else if ltb_ℤ stale_after_ms (now_ms -ℤ f.last_message_timestamp)
    then degraded
    else healthy
