-- ===== src/Tests/Accounts.antt =====
-- Orders that are checked, filled and booked: src/risk/risk_engine.cpp,
-- src/portfolio/portfolio_service.cpp and src/execution/simulated_execution_engine.cpp.
use wall.Core.{ExecutionResult, FillEvent, Position, buy, sell}
use wall.MarketData.{MarketStateStore, apply}
use wall.Portfolio.{
  apply_fill, apply_fill_to_position, apply_fills, get_balance, get_position, new_portfolio,
  position_of, update_unrealized,
}
use wall.Portfolio.Balances.{apply_fill-balances, base_after, quote_after}
use wall.Portfolio.Positions.{
  FlatIsClean, PortfolioCall, apply_fills-net_quantity, calls, calls-FlatIsClean, fill_call, net_of,
}
use wall.Prelude.{List, String, [], false, is_some, not, refl, some, true, ◌↔◌, ◌∷◌, ◌≡◌, ◌≢◌}
use wall.Prelude.Dict.{contains, insert, lookup}
use wall.Prelude.Int.{pos, ◌+ℤ◌, ◌-ℤ◌}
use wall.Prelude.Text.{dec_str, ne_of_test, to_string}
use wall.Risk.{RiskConfig, evaluate}
use wall.Risk.Limits.{WithinLimits, evaluate-WithinLimits}
use wall.Samples.{btc, fill_of, order_at, quote_at, truncating, units}
use wall.Simulator.{
  SimulatedExecutionEngine, execute, new_simulator, sim_order_id, submit, turned_down,
}

abbrev limits : RiskConfig
limits = record {
  max_order_quantity = units 10;
  max_order_notional = units 1000;
  max_position_quantity = units 20;
  stale_after_ms = pos 100;
  kill_switch_enabled = false;
}

abbrev seen : MarketStateStore
seen = apply [] (quote_at 3 95)

evaluate-WithinLimits_example :
    (((evaluate truncating limits seen (pos 1050) (order_at buy 5 100)).approved ≡ true)
      ↔ WithinLimits truncating limits seen (pos 1050) (order_at buy 5 100))
    × (is_some (evaluate truncating limits seen (pos 1050) (order_at buy 5 100)).reason
        ≡ not (evaluate truncating limits seen (pos 1050) (order_at buy 5 100)).approved)
evaluate-WithinLimits_example =
    evaluate-WithinLimits truncating limits seen (pos 1050) (order_at buy 5 100)

abbrev trades : List FillEvent
trades = fill_of buy 5 100 ∷ fill_of sell 2 110 ∷ fill_of sell 3 120 ∷ []

apply_fills-net_quantity_example :
    (position_of (apply_fills truncating new_portfolio trades) "BTC-USD").net_quantity
    ≡ (position_of new_portfolio "BTC-USD").net_quantity +ℤ net_of "BTC-USD" trades
apply_fills-net_quantity_example =
    apply_fills-net_quantity truncating trades new_portfolio "BTC-USD"

abbrev booked : List PortfolioCall
booked = fill_call (fill_of buy 5 100) ∷ fill_call (fill_of sell 5 110) ∷ []

abbrev closed_position : Position
closed_position = record {
  position_id = "position-BTC-USD";
  instrument = btc;
  net_quantity = pos 0;
  average_entry_price = pos 0;
  realized_pnl = units 50;
  unrealized_pnl = pos 0;
}

is_closed : get_position (calls truncating new_portfolio booked) "BTC-USD" ≡ some closed_position
unfolding get_position new_portfolio lookup insert dec_str apply_fill apply_fill_to_position
    update_unrealized ◌+ℤ◌ ◌-ℤ◌
is_closed = refl

calls-FlatIsClean_example : FlatIsClean closed_position
calls-FlatIsClean_example = calls-FlatIsClean truncating booked "BTC-USD" closed_position is_closed

btc_is_not_usd : btc.base_asset ≢ btc.quote_asset
btc_is_not_usd = ne_of_test btc.base_asset btc.quote_asset refl

abbrev bought : FillEvent
bought = fill_of buy 5 100

apply_fill-balances_example :
    (get_balance (apply_fill truncating new_portfolio bought) btc.base_asset
      ≡ base_after bought (get_balance new_portfolio btc.base_asset))
    × (get_balance (apply_fill truncating new_portfolio bought) btc.quote_asset
        ≡ quote_after truncating bought (get_balance new_portfolio btc.quote_asset))
    × ((k : String)
        → k ≢ btc.base_asset
        → k ≢ btc.quote_asset
        → get_balance (apply_fill truncating new_portfolio bought) k ≡ get_balance new_portfolio k)
apply_fill-balances_example = apply_fill-balances truncating new_portfolio bought btc_is_not_usd

-- A simulator that fills half of an order of 10 or more at once.
abbrev half : SimulatedExecutionEngine
half =
    new_simulator
      (record { partial_fill_threshold = units 10; partial_fill_ratio = pos 500_000_000_000 })

is_fresh : contains (sim_order_id half) half.open_orders ≡ false
unfolding lookup new_simulator
is_fresh = refl

is_opened :
    contains (sim_order_id half) (submit truncating half (order_at buy 12 100)).0.open_orders ≡ true
unfolding submit execute lookup insert dec_str new_simulator to_string
is_opened = refl

abbrev missing : ExecutionResult
missing = turned_down "sim-order-1" "" "open order not found"
