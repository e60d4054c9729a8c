-- ===== src/Lib.antt =====
-- A model of wall, an event-driven trading engine in C++, and what is proved of it.
--
-- The engine handles one event at a time. A market event updates the market state and is swept
-- against the orders that rest in the local matching engine; the strategies answer the event with
-- order requests; the risk engine approves or refuses each; an approved request is submitted to the
-- matching engine; and the fills that come out are booked in the portfolio and stored. Around this
-- stand the ingestion of transactions from Kafka, the controller with its queue, the tracker of
-- orders that rest at an exchange, and the recovery of the state after a restart.
--
-- The files, with the code that they follow:
--   Core, Core/Arithmetic: include/core/types.hpp, OrderRecord of include/storage/storage_interfaces.hpp
--   OrderBook: src/execution/order_book.cpp (add_order, cancel_order, apply_fill, find_order, the best
--     levels and orders); OrderBook/PriceLevels has the loops over the levels and the queues. The
--     invariant is in OrderBook/Validity, by way of Ranked, Stocked and Weigh, and Safety, Front and
--     Added say what the operations do. OrderBook/Ladder is an abstract book, a list for each side in
--     the order in which it trades, and its children compare the book with it call by call.
--   MatchingEngine: src/execution/matching_engine.cpp; submit in MatchingEngine/Submit,
--     process_market_event in Sweep, cancel, restore_open_order, get_order and find_book in Lifecycle.
--     Rounds, Matches and SweepRounds are about one round of a loop and its end, Outcome, SubmitLaws,
--     Guarantees, SweepLaws, Calls and Cancel about whole calls, Priority and TradeOrder about the
--     order in which a submit takes the orders that rest.
--   LiveTracker, LiveTracker/Reports: src/execution/live_execution_tracker.cpp
--   Simulator: src/execution/simulated_execution_engine.cpp
--   MarketData, MarketData/Feed: src/market_data/market_state_store.cpp, feed_health_tracker.cpp
--   Risk: src/risk/risk_engine.cpp
--   Portfolio: src/portfolio/portfolio_service.cpp
--   Storage: src/storage/storage_interfaces.cpp
--   RedisCache: the caches of src/infrastructure/redis_cache.cpp that are kept in memory
--   Fields: how the parts below cut texts at separators, print and read integers (Fields/Integers), doubles
--     (Fields/Doubles) and instruments (Fields/Instruments)
--   FileStore: the repositories of src/infrastructure/postgres_repositories.cpp that keep a file;
--     FileStore/Transactions, Orders, Journals and Accounts are the repositories, Reload, Reopen and Resume what
--     a restart reads
--   Replay: src/storage/replay_service.cpp
--   Messages: src/infrastructure/kafka_transaction_consumer.cpp and the payload of
--     src/infrastructure/kafka_transaction_producer.cpp
--   Config: src/config/config_loader.cpp
--   Exchange: src/exchange; the market adapter, the execution adapters, the routers and the feed
--   Strategy, Strategy/Threshold, Strategy/SpreadCapture: src/strategy
--   Ingestion: src/ingestion/transaction_ingestor.cpp, transaction_consumer.cpp
--   Controller: src/app/engine_controller.cpp, src/app/mock_event_sources.cpp,
--     include/core/event_dispatcher.hpp
--   Runtime: src/app/simulation_runtime.cpp
--   Recovery: src/app/recovery_service.cpp
--   Monitoring: src/monitoring/health_status.cpp, metrics.cpp, logger.cpp
--   Backtest: src/app/backtest_runner.cpp
--   Application: src/app/application.cpp, with the parts that it starts with in Application/Startup;
--     Application/Journal joins it to Backtest
--   Publisher: src/app/transaction_publisher_application.cpp
--   Prelude: lists, integers, texts and dictionaries; Samples and Tests: the tests.
--
-- How the code is read. A class is a record of its members, a method takes the record and returns the
-- new one with its result; a reference to another part is that part's state. A `double` is an integer
-- number of units of 1e-12: sums, differences and comparisons are exact, and products and quotients
-- are the functions of an `Arithmetic` that an operation is given, of which nothing is assumed. NaN and the
-- infinities are left out, and an `std::int64_t` is unbounded. A counter of type `std::size_t` wraps
-- at 2^64. An `std::unordered_map` is an association list whose order stands for the iteration order
-- that the standard leaves open; the `std::map` of a book's levels is a list in the order of its comparator. The
-- time of the clock is an argument of the operations that read it, and stands still while the runtime
-- handles one event. A pointer that may be null is an `Option`.
-- A file is its text, or none where there is no file, and the environment is a function. How the standard
-- library prints and reads a `double` is the parameter `DoubleText`: of it only what is documented is
-- assumed, with the digits of a number coming back where a theorem says so. An integer in a file that
-- names no enumerator, which a `static_cast` lets pass, is refused like a text that is no number. In the
-- ingestor a call of another part may throw: the calls are values, and the theorems hold whichever of
-- them throws. Elsewhere the queue of messages, the session of a feed, the handlers of events and the
-- files do what they are asked without throwing.
--
-- Fuel. The two `while` loops of the matching engine run on one round for each order that rests on the
-- side that they take from and one more: each round but the last takes an order off that side. The loop
-- over the fields of a JSON object has one round for each character and one more. `drain` runs
-- on a given number of rounds, since a handler may enqueue events for ever.
--
-- Not modelled: the clients of PostgreSQL over libpq, of Redis and of Kafka over librdkafka, the command lines
-- and what they print, and the choice of the clients, which are input and output; the key of a published
-- message, which prints the time.
pub mod Prelude
pub mod Core
pub mod Fields
pub mod Monitoring
pub mod MarketData
pub mod Risk
pub mod Portfolio
pub mod Storage
pub mod RedisCache
pub mod FileStore
pub mod Replay
pub mod Messages
pub mod Config
pub mod OrderBook
pub mod MatchingEngine
pub mod LiveTracker
pub mod Simulator
pub mod Exchange
pub mod Publisher
pub mod Strategy
pub mod Ingestion
pub mod Controller
pub mod Runtime
pub mod Recovery
pub mod Backtest
pub mod Application
pub mod Samples
pub mod Tests
