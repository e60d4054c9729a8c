-- ===== src/Storage.antt =====
-- src/storage/storage_interfaces.cpp: the in-memory repositories and caches.
pub mod Laws
use wall.Core.{
  BalanceSnapshot, Double, FillEvent, Int64, OrderRecord, OrderRequest, OrderSide, OrderStatus,
  OrderType, OrderUpdate, Position, TransactionCommand, acknowledged, buy, created, limit,
  partially_filled, pending_cancel, pending_submit,
}
use wall.Prelude.{
  Bool, List, Option, String, [], false, if◌then◌else◌, ite, none, some, true, value_or, ◌++◌, ◌∷◌,
}
use wall.Prelude.Dict.{Dict, insert, lookup, modify, values}
use wall.Prelude.Int.{eqb_ℤ, pos}
use wall.Prelude.Text.{dec_str}

pub record TransactionRecord : Type 0 where
  pub transaction_id : String
  pub status : String
  pub kafka_topic : String
  pub kafka_partition : Int64
  pub kafka_offset : Int64

pub record KafkaCheckpoint : Type 0 where
  pub topic : String
  pub partition : Int64
  pub offset : Int64

pub record MarketSnapshot : Type 0 where
  pub instrument_id : String
  pub best_bid : Option Double
  pub best_ask : Option Double
  pub last_trade_price : Option Double
  pub last_trade_quantity : Option Double
  pub last_process_timestamp : Int64

pub record OrderIntentRecord : Type 0 where
  pub request_id : String
  pub strategy_id : String
  pub instrument_id : String
  pub side : OrderSide
  pub order_type : OrderType
  pub quantity : Double
  pub price : Option Double

pub record ExecutionReportRecord : Type 0 where
  pub report_id : String
  pub order_id : String
  pub client_order_id : String
  pub instrument_id : String
  pub side : OrderSide
  pub status : OrderStatus
  pub cumulative_filled_quantity : Double
  pub last_fill_price : Option Double
  pub last_fill_fee : Double
  pub reason : Option String
  pub exchange_timestamp : Int64

-- `InMemoryTransactionRepository`
pub record TransactionRepository : Type 0 where
  pub records : List TransactionRecord
  pub checkpoints : List KafkaCheckpoint

unfoldable pub new_transactions : TransactionRepository
new_transactions = record { records = []; checkpoints = [] }

unfoldable pub save_received : TransactionRepository → TransactionCommand → TransactionRepository
save_received s c = record s {
  records =
      s.records
      ++ ((record {
        transaction_id = c.transaction_id;
        status = "received";
        kafka_topic = c.kafka_topic;
        kafka_partition = c.kafka_partition;
        kafka_offset = c.kafka_offset;
      })
          ∷ []);
}

-- The loop of `save_processed` and the record that it adds when no record matches.
unfoldable pub processed_in : String → String → List TransactionRecord → List TransactionRecord
processed_in id st [] =
    (record {
      transaction_id = id;
      status = st;
      kafka_topic = "";
      kafka_partition = pos 0;
      kafka_offset = pos 0;
    })
    ∷ []
processed_in id st (x ∷ xs) =
    ite (dec_str x.transaction_id id) (record x { status = st } ∷ xs) (x ∷ processed_in id st xs)

unfoldable pub save_processed : TransactionRepository → String → String → TransactionRepository
unfolding processed_in
save_processed s id st = record s { records = processed_in id st s.records }

abbrev pub same_partition : KafkaCheckpoint → KafkaCheckpoint → Bool
same_partition a b = ite (dec_str a.topic b.topic) (eqb_ℤ a.partition b.partition) false

-- The loop of `save_checkpoint` and the `push_back` after it.
unfoldable pub checkpoint_in : KafkaCheckpoint → List KafkaCheckpoint → List KafkaCheckpoint
checkpoint_in c [] = c ∷ []
checkpoint_in c (x ∷ xs) =
    let rest = checkpoint_in c xs in
    if same_partition x c then record x { offset = c.offset } ∷ xs else x ∷ rest

unfoldable pub save_checkpoint : TransactionRepository → KafkaCheckpoint → TransactionRepository
unfolding checkpoint_in
save_checkpoint s c = record s { checkpoints = checkpoint_in c s.checkpoints }

abbrev pub all_records : TransactionRepository → List TransactionRecord
all_records s = s.records

abbrev pub all_checkpoints : TransactionRepository → List KafkaCheckpoint
all_checkpoints s = s.checkpoints

-- `InMemoryTransactionCache`: a vector of pairs, searched from its front.
unfoldable pub set_status : Dict String → String → String → Dict String
set_status d id st = insert id st d

unfoldable pub get_status : Dict String → String → String
get_status d id = value_or (lookup id d) ""

-- `InMemoryOrderRepository`
unfoldable pub save_order : Dict OrderRecord → OrderRequest → String → String → Dict OrderRecord
save_order d r id client_id =
    insert id
      (record {
        order_id = id;
        client_order_id = client_id;
        strategy_id = r.strategy_id;
        instrument_id = r.instrument.instrument_id;
        side = r.side;
        order_type = r.order_type;
        status = created;
        quantity = r.quantity;
        price = r.price;
        filled_quantity = pos 0;
      })
      d

-- The record of an update whose order is not stored: the other fields have their default values.
abbrev pub record_of_update : OrderUpdate → OrderRecord
record_of_update u = record {
  order_id = u.order_id;
  client_order_id = u.client_order_id;
  strategy_id = "";
  instrument_id = "";
  side = buy;
  order_type = limit;
  status = u.status;
  quantity = pos 0;
  price = none;
  filled_quantity = u.filled_quantity;
}

abbrev pub with_update : OrderUpdate → OrderRecord → OrderRecord
with_update u o = record o {
  client_order_id = u.client_order_id;
  status = u.status;
  filled_quantity = u.filled_quantity;
}

unfoldable pub save_order_update : Dict OrderRecord → OrderUpdate → Dict OrderRecord
save_order_update d u = elim (lookup u.order_id d) [
  | none ↦ insert u.order_id (record_of_update u) d
  | some o ↦ modify u.order_id (with_update u) d
]

unfoldable pub get_order : Dict OrderRecord → String → Option OrderRecord
get_order d id = lookup id d

abbrev pub is_open : OrderStatus → Bool
is_open created = true
is_open pending_submit = true
is_open acknowledged = true
is_open partially_filled = true
is_open pending_cancel = true
is_open _ = false

unfoldable pub all_open_orders : Dict OrderRecord → List OrderRecord
all_open_orders [] = []
all_open_orders ((k, o) ∷ d) =
    let rest = all_open_orders d in if is_open o.status then o ∷ rest else rest

-- `InMemoryFillRepository`
unfoldable pub append_fill : List FillEvent → FillEvent → List FillEvent
append_fill fs f = fs ++ (f ∷ [])

abbrev pub all_fills : List FillEvent → List FillEvent
all_fills fs = fs

-- `InMemoryOrderIntentRepository` and `InMemoryExecutionReportRepository`
unfoldable pub append_intent : List OrderIntentRecord → OrderIntentRecord → List OrderIntentRecord
append_intent is i = is ++ (i ∷ [])

abbrev pub all_intents : List OrderIntentRecord → List OrderIntentRecord
all_intents is = is

unfoldable pub append_report :
    List ExecutionReportRecord → ExecutionReportRecord → List ExecutionReportRecord
append_report rs r = rs ++ (r ∷ [])

abbrev pub all_reports : List ExecutionReportRecord → List ExecutionReportRecord
all_reports rs = rs

-- `InMemoryPositionRepository`, `InMemoryBalanceRepository` and `InMemoryMarketStateCache`
unfoldable pub save_position : Dict Position → Position → Dict Position
save_position d s = insert s.instrument.instrument_id s d

unfoldable pub save_balance : Dict BalanceSnapshot → BalanceSnapshot → Dict BalanceSnapshot
save_balance d b = insert b.asset b d

unfoldable pub upsert_snapshot : Dict MarketSnapshot → MarketSnapshot → Dict MarketSnapshot
upsert_snapshot d m = insert m.instrument_id m d

unfoldable pub get_position : Dict Position → String → Option Position
get_position d id = lookup id d

abbrev pub all_positions : Dict Position → List Position
all_positions d = values d

unfoldable pub get_balance : Dict BalanceSnapshot → String → Option BalanceSnapshot
get_balance d asset = lookup asset d

abbrev pub all_balances : Dict BalanceSnapshot → List BalanceSnapshot
all_balances d = values d

unfoldable pub get_snapshot : Dict MarketSnapshot → String → Option MarketSnapshot
get_snapshot d id = lookup id d
