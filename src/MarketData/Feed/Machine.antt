-- ===== src/MarketData/Feed/Machine.antt =====
-- The states that the calls of src/market_data/feed_health_tracker.cpp lead to, and what its status
-- says of them.
use wall.Core.{Int64}
use wall.MarketData.Feed.{
  FeedHealthTracker, feed_status, new_feed, on_connect, on_disconnect, on_message,
  on_subscribe_success,
}
use wall.Monitoring.{healthy}
use wall.Prelude.{arith, false, refl, true, ◌↔◌, ◌≡◌}
use wall.Prelude.Int.{eqb_ℤ, ltb_ℤ, pos, ◌-ℤ◌}

-- One call of the tracker, with the time that it is given or reads.
pub data FeedStep : FeedHealthTracker → FeedHealthTracker → Type 0 where
  connect : (f : FeedHealthTracker) → FeedStep f (on_connect f)
  subscribe : (f : FeedHealthTracker) → FeedStep f (on_subscribe_success f)
  message : (f : FeedHealthTracker) (at : Int64) → FeedStep f (on_message f at)
  disconnect : (f : FeedHealthTracker) (now_ms : Int64) → FeedStep f (on_disconnect f now_ms)

-- The states that a new tracker reaches.
pub data ReachableFeed : FeedHealthTracker → Type 0 where
  start : ReachableFeed new_feed
  step : (f g : FeedHealthTracker) → ReachableFeed f → FeedStep f g → ReachableFeed g

-- A feed is subscribed only while it is connected.
abbrev pub Sound : FeedHealthTracker → Type 0
Sound f = f.subscribed ≡ true → f.connected ≡ true

step-Sound : (f g : FeedHealthTracker) → FeedStep f g → Sound f → Sound g
unfolding on_connect on_subscribe_success on_message on_disconnect
step-Sound _ _ (connect f) h = λ e. refl
step-Sound _ _ (subscribe f) h = λ e. refl
step-Sound _ _ (message f at) h = λ e. refl
step-Sound _ _ (disconnect f now_ms) h = λ e. e

reachable-Sound : (f : FeedHealthTracker) → ReachableFeed f → Sound f
unfolding new_feed
reachable-Sound _ start = λ e. e
reachable-Sound _ (step f g r s) = step-Sound f g s (reachable-Sound f r)

-- In every state that the tracker's calls reach, the status is healthy exactly when the feed is
-- subscribed, and the timestamp of its last message is not zero and no older than the limit.
pub feed_status-healthy :
    (f : FeedHealthTracker) (now_ms stale_after_ms disconnect_grace_ms : Int64)
    → ReachableFeed f
    → (feed_status f now_ms stale_after_ms disconnect_grace_ms ≡ healthy) ↔ (
        (f.subscribed ≡ true)
        × (eqb_ℤ f.last_message_timestamp (pos 0) ≡ false)
        × (ltb_ℤ stale_after_ms (now_ms -ℤ f.last_message_timestamp) ≡ false))
unfolding feed_status
feed_status-healthy f now_ms stale_after_ms disconnect_grace_ms r =
    ground (arith, reachable-Sound f r)
