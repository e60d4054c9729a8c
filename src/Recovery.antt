-- ===== src/Recovery.antt =====
-- include/app/recovery_service.hpp and src/app/recovery_service.cpp: the state that a restart rebuilds from the
-- repositories, and the offsets at which consumption resumes.
pub mod Offsets
use Prim.Native.String.{◌++◌ as ◌<>◌}
use wall.Core.{BalanceSnapshot, Int64, OrderRecord, Position}
use wall.Core.Arithmetic.{Arithmetic}
use wall.Portfolio.{restore_balance, restore_position}
use wall.Prelude.{
  Bool, List, Option, String, [], foldl, if◌then◌else◌, ite, map, none, some, suc, true, ◌∷◌,
}
use wall.Prelude.Dict.{Dict, insert, lookup, values}
use wall.Prelude.Int.{ltb_ℤ, negsuc, pos, ◌+ℤ◌}
use wall.Prelude.Text.{dec_str, to_string}
use wall.Runtime.{RuntimeState, restore_market_snapshot, restore_open_order}
use wall.Storage.{
  KafkaCheckpoint, MarketSnapshot, TransactionRecord, TransactionRepository, all_open_orders,
  set_status, upsert_snapshot,
}

pub record RecoverySnapshot : Type 0 where
  pub open_orders : List OrderRecord
  pub positions : List Position
  pub balances : List BalanceSnapshot
  pub kafka_checkpoints : List KafkaCheckpoint

-- The repositories that are read and the two caches that are written.
pub record RecoveryService : Type 0 where
  pub transaction_repository : TransactionRepository
  pub order_repository : Dict OrderRecord
  pub position_repository : Dict Position
  pub balance_repository : Dict BalanceSnapshot
  pub market_cache : Dict MarketSnapshot
  pub transaction_cache : Dict String

-- `std::to_string` of an `int`
abbrev pub int_text : Int64 → String
int_text (pos n) = to_string n
int_text (negsuc n) = "-" <> to_string (suc n)

abbrev pub checkpoint_key : String → Int64 → String
checkpoint_key topic partition = topic <> "#" <> int_text partition

abbrev pub record_key : TransactionRecord → String
record_key r = checkpoint_key r.kafka_topic r.kafka_partition

abbrev pub checkpoint_of : TransactionRecord → KafkaCheckpoint
checkpoint_of r = record {
  topic = r.kafka_topic;
  partition = r.kafka_partition;
  offset = r.kafka_offset;
}

abbrev pub is_newer : TransactionRecord → Option KafkaCheckpoint → Bool
is_newer r none = true
is_newer r (some c) = ltb_ℤ c.offset r.kafka_offset

-- The part of the loop over the records that keeps the largest processed offset of each partition.
unfoldable pub note_record : Dict KafkaCheckpoint → TransactionRecord → Dict KafkaCheckpoint
note_record d r =
    ite (dec_str r.status "processed")
      (if is_newer r (lookup (record_key r) d)
        then insert (record_key r) (checkpoint_of r) d
        else d)
      d

abbrev pub cached_status : Dict String → TransactionRecord → Dict String
cached_status d r = set_status d r.transaction_id r.status

unfoldable pub kafka_checkpoints_of : TransactionRepository → List KafkaCheckpoint
unfolding note_record
kafka_checkpoints_of s = elim s.checkpoints [
  | [] ↦ values (foldl note_record [] s.records)
  | c ∷ cs ↦ c ∷ cs
]

abbrev pub position_snapshot : Position → MarketSnapshot
position_snapshot s = record {
  instrument_id = s.instrument.instrument_id;
  best_bid = none;
  best_ask = none;
  last_trade_price =
      if ltb_ℤ (pos 0) s.average_entry_price then some s.average_entry_price else none;
  last_trade_quantity = none;
  last_process_timestamp = pos 0;
}

abbrev pub warmed : Dict MarketSnapshot → List MarketSnapshot → List Position → Dict MarketSnapshot
warmed d [] positions = foldl upsert_snapshot d (map position_snapshot positions)
warmed d (m ∷ ms) positions = foldl upsert_snapshot d (m ∷ ms)

unfoldable pub recover : RecoveryService → List MarketSnapshot → RecoveryService × RecoverySnapshot
unfolding kafka_checkpoints_of
recover s exchange_snapshots = (
  record s {
    transaction_cache = foldl cached_status s.transaction_cache s.transaction_repository.records;
    market_cache = warmed s.market_cache exchange_snapshots (values s.position_repository);
  },
  record {
    open_orders = all_open_orders s.order_repository;
    positions = values s.position_repository;
    balances = values s.balance_repository;
    kafka_checkpoints = kafka_checkpoints_of s.transaction_repository;
  },
)

module _ {ℓ} {S : Type ℓ} where
  abbrev pub position_restored : RuntimeState S → Position → RuntimeState S
  position_restored t s = record t { portfolio_service = restore_position t.portfolio_service s }

  abbrev pub balance_restored : RuntimeState S → BalanceSnapshot → RuntimeState S
  balance_restored t b = record t { portfolio_service = restore_balance t.portfolio_service b }

  abbrev pub snapshot_restored :
      Arithmetic → RuntimeState S → Option MarketSnapshot → RuntimeState S
  snapshot_restored A t none = t
  snapshot_restored A t (some m) = restore_market_snapshot A t m

  unfoldable pub restore_runtime :
      Arithmetic → RecoveryService → RecoverySnapshot → RuntimeState S → RuntimeState S
  restore_runtime A s snapshot t =
      let t1 = foldl position_restored t snapshot.positions in
      let t2 = foldl balance_restored t1 snapshot.balances in
      let t3 = foldl restore_open_order t2 snapshot.open_orders in
      foldl (λ x p. snapshot_restored A x (lookup p.instrument.instrument_id s.market_cache)) t3
        snapshot.positions

-- The calls of `seek`: topic, partition and offset.
unfoldable pub resume_kafka : RecoverySnapshot → List (String × Int64 × Int64)
resume_kafka snapshot =
    map (λ c. (c.topic, c.partition, c.offset +ℤ pos 1)) snapshot.kafka_checkpoints
