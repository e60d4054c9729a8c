-- ===== src/Tests.antt =====
-- The tests of the model, by part.
mod Books
mod Queues
mod Reports
mod Accounts
mod Stores
mod Streams
mod Engine
mod Numbers
mod Files
mod Journals
mod Messages
mod Settings
mod Venues
mod Backtests
mod Publications
