-- ===== src/FileStore/Transactions.antt =====
-- `PostgresTransactionRepository` of src/infrastructure/postgres_repositories.cpp.
pub mod Restart
use Prim.Native.String.{◌++◌ as ◌<>◌}
use wall.Core.{TransactionCommand}
use wall.Fields.{◌>>=◌}
use wall.Fields.Integers.{print_integer, stoi, stoll}
use wall.FileStore.{File, Format, Table, no_table, open_table, saved, stored}
use wall.Prelude.{List, Option, String, [], foldl, none, some, ◌∷◌}
use wall.Prelude.Dict.{Dict, lookup, modify, values}
use wall.Prelude.Int.{pos}
use wall.Storage.{KafkaCheckpoint, TransactionRecord}

pub record PostgresTransactionRepository : Type 0 where
  pub records : Table TransactionRecord
  pub checkpoints : Table KafkaCheckpoint

unfoldable pub transaction_fields : TransactionRecord → List String
transaction_fields r =
    r.transaction_id
    ∷ r.status
    ∷ r.kafka_topic
    ∷ print_integer r.kafka_partition
    ∷ print_integer r.kafka_offset
    ∷ []

-- The body of the loop of `load`, on a line of five fields.
unfoldable pub transaction_of : List String → Option TransactionRecord
transaction_of (id ∷ status ∷ topic ∷ partition ∷ offset ∷ []) = do
  p ← stoi partition
  o ← stoll offset
  some (record {
    transaction_id = id;
    status = status;
    kafka_topic = topic;
    kafka_partition = p;
    kafka_offset = o;
  })
transaction_of _ = none

-- `checkpoint.topic + "#" + std::to_string(checkpoint.partition)`
unfoldable pub checkpoint_key : KafkaCheckpoint → String
checkpoint_key c = c.topic <> "#" <> print_integer c.partition

unfoldable pub checkpoint_fields : KafkaCheckpoint → List String
checkpoint_fields c = c.topic ∷ print_integer c.partition ∷ print_integer c.offset ∷ []

unfoldable pub checkpoint_record : List String → Option KafkaCheckpoint
checkpoint_record (topic ∷ partition ∷ offset ∷ []) = do
  p ← stoi partition
  o ← stoll offset
  some (record { topic = topic; partition = p; offset = o })
checkpoint_record _ = none

abbrev pub transactions : Format TransactionRecord
transactions = record {
  width = 5;
  record_of = transaction_of;
  fields_of = transaction_fields;
  key = λ (r : TransactionRecord). r.transaction_id;
}

abbrev pub checkpoints : Format KafkaCheckpoint
checkpoints = record {
  width = 3;
  record_of = checkpoint_record;
  fields_of = checkpoint_fields;
  key = checkpoint_key;
}

abbrev pub repository_of :
    Option (Table TransactionRecord)
    → Option (Table KafkaCheckpoint)
    → Option PostgresTransactionRepository
repository_of (some r) (some c) = some (record { records = r; checkpoints = c })
repository_of _ _ = none

-- The constructor, on the two files that are there; `none` is an exception.
unfoldable pub open_transactions : File → File → Option PostgresTransactionRepository
unfolding open_table
open_transactions file checkpoint_file =
    repository_of (open_table transactions file) (open_table checkpoints checkpoint_file)

abbrev pub received : TransactionCommand → TransactionRecord
received c = record {
  transaction_id = c.transaction_id;
  status = "received";
  kafka_topic = c.kafka_topic;
  kafka_partition = c.kafka_partition;
  kafka_offset = c.kafka_offset;
}

unfoldable pub save_received :
    PostgresTransactionRepository → TransactionCommand → PostgresTransactionRepository
save_received s c = record s {
  records = saved transactions (stored transactions (received c) s.records.rows);
}

abbrev pub unseen : String → String → TransactionRecord
unseen id status = record {
  transaction_id = id;
  status = status;
  kafka_topic = "";
  kafka_partition = pos 0;
  kafka_offset = pos 0;
}

abbrev pub with_status : String → TransactionRecord → TransactionRecord
with_status status r = record r { status = status }

abbrev pub status_set :
    String → String → Dict TransactionRecord → Option TransactionRecord → Dict TransactionRecord
status_set id status d none = stored transactions (unseen id status) d
status_set id status d (some r) = modify id (with_status status) d

unfoldable pub save_processed :
    PostgresTransactionRepository → String → String → PostgresTransactionRepository
save_processed s id status = record s {
  records = saved transactions (status_set id status s.records.rows (lookup id s.records.rows));
}

unfoldable pub save_checkpoint :
    PostgresTransactionRepository → KafkaCheckpoint → PostgresTransactionRepository
save_checkpoint s c = record s {
  checkpoints = saved checkpoints (stored checkpoints c s.checkpoints.rows);
}

unfoldable pub get_record : PostgresTransactionRepository → String → Option TransactionRecord
get_record s id = lookup id s.records.rows

unfoldable pub all_records : PostgresTransactionRepository → List TransactionRecord
all_records s = values s.records.rows

unfoldable pub all_checkpoints : PostgresTransactionRepository → List KafkaCheckpoint
all_checkpoints s = values s.checkpoints.rows

-- The calls that change the repository, and a new one in an empty directory.
pub data Call : Type 0 where
  receives : TransactionCommand → Call
  processes : String → String → Call
  checkpoints_at : KafkaCheckpoint → Call

unfoldable pub call : PostgresTransactionRepository → Call → PostgresTransactionRepository
unfolding save_received save_processed save_checkpoint
call s (receives c) = save_received s c
call s (processes id status) = save_processed s id status
call s (checkpoints_at c) = save_checkpoint s c

abbrev pub new_repository : PostgresTransactionRepository
new_repository = record { records = no_table; checkpoints = no_table }

-- The repository after calls on a new one.
abbrev pub after : List Call → PostgresTransactionRepository
after cs = foldl call new_repository cs
