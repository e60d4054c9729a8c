-- ===== src/FileStore/Transactions/Restart.antt =====
-- The transactions and checkpoints of src/infrastructure/postgres_repositories.cpp survive a restart.
use wall.Fields.Digits.{
  Fits, print_integer-IsField, print_integer-ne_nil, stoi-print_integer, stoll-print_integer,
}
use wall.Fields.Integers.{int32_bound, int64_bound}
use wall.Fields.Laws.{IsField}
use wall.FileStore.Reload.{Storable}
use wall.FileStore.Reopen.{
  IsKeyedBy, IsSaved, modify-IsKeyedBy, no_table-IsSaved, open_table-IsSaved, saved-IsSaved,
  stored-IsKeyedBy,
}
use wall.FileStore.Transactions.{
  Call, PostgresTransactionRepository, after, call, checkpoint_fields, checkpoint_record,
  checkpoints, checkpoints_at, get_record, new_repository, open_transactions, processes, received,
  receives, status_set, transaction_fields, transaction_of, transactions, unseen, with_status,
}
use wall.Prelude.{List, Option, String, [], foldl, none, refl, some, ◌∷◌, ◌≡◌, ◌⊳◌}
use wall.Prelude.Dict.{Dict, lookup}
use wall.Storage.{KafkaCheckpoint, TransactionRecord}

-- A record whose texts stand between tabs and whose numbers have the types of the code.
pub record WritableRecord (r : TransactionRecord) : Type 0 where
  pub id_field : IsField r.transaction_id
  pub status_field : IsField r.status
  pub topic_field : IsField r.kafka_topic
  pub partition_fits : Fits int32_bound r.kafka_partition
  pub offset_fits : Fits int64_bound r.kafka_offset

pub record WritableCheckpoint (c : KafkaCheckpoint) : Type 0 where
  pub topic_field : IsField c.topic
  pub partition_fits : Fits int32_bound c.partition
  pub offset_fits : Fits int64_bound c.offset

WritableRecord-Storable :
    (r : TransactionRecord) → WritableRecord r → Storable 5 transaction_of transaction_fields r
unfolding transaction_of transaction_fields
WritableRecord-Storable r w = record {
  fields =
      w.id_field
      ⊳ w.status_field
      ⊳ w.topic_field
      ⊳ print_integer-IsField r.kafka_partition
      ⊳ print_integer-IsField r.kafka_offset
      ⊳ tt;
  last = print_integer-ne_nil r.kafka_offset;
  width_is = refl;
  read =
      rw
        (
          stoi-print_integer r.kafka_partition w.partition_fits,
          stoll-print_integer r.kafka_offset w.offset_fits,
        )
        refl;
}

WritableCheckpoint-Storable :
    (c : KafkaCheckpoint) → WritableCheckpoint c → Storable 3 checkpoint_record checkpoint_fields c
unfolding checkpoint_record checkpoint_fields
WritableCheckpoint-Storable c w = record {
  fields = w.topic_field ⊳ print_integer-IsField c.partition ⊳ print_integer-IsField c.offset ⊳ tt;
  last = print_integer-ne_nil c.offset;
  width_is = refl;
  read =
      rw
        (
          stoi-print_integer c.partition w.partition_fits,
          stoll-print_integer c.offset w.offset_fits,
        )
        refl;
}

-- Both maps are in their files.
record IsDurable (s : PostgresTransactionRepository) : Type 0 where
  records_saved : IsSaved transactions s.records
  checkpoints_saved : IsSaved checkpoints s.checkpoints

status_set-IsKeyedBy :
    (id status : String) (d : Dict TransactionRecord) (o : Option TransactionRecord)
    → IsKeyedBy transactions d
    → IsKeyedBy transactions (status_set id status d o)
status_set-IsKeyedBy id status d none h = stored-IsKeyedBy transactions d (unseen id status) h
status_set-IsKeyedBy id status d (some x) h =
    modify-IsKeyedBy transactions d id (with_status status) (λ y. refl) h

call-IsDurable : (s : PostgresTransactionRepository) (c : Call) → IsDurable s → IsDurable (call s c)
unfolding call
call-IsDurable s (receives c) h = record {
  records_saved =
      saved-IsSaved transactions _
        (stored-IsKeyedBy transactions s.records.rows (received c) h.records_saved.keyed);
  checkpoints_saved = h.checkpoints_saved;
}
call-IsDurable s (processes id status) h = record {
  records_saved = saved-IsSaved transactions _ (
      status_set-IsKeyedBy id status s.records.rows (lookup id s.records.rows)
        h.records_saved.keyed);
  checkpoints_saved = h.checkpoints_saved;
}
call-IsDurable s (checkpoints_at c) h = record {
  records_saved = h.records_saved;
  checkpoints_saved =
      saved-IsSaved checkpoints _
        (stored-IsKeyedBy checkpoints s.checkpoints.rows c h.checkpoints_saved.keyed);
}

calls-IsDurable :
    (s : PostgresTransactionRepository) (cs : List Call) → IsDurable s → IsDurable (foldl call s cs)
calls-IsDurable s [] h = h
calls-IsDurable s (c ∷ cs) h = calls-IsDurable (call s c) cs (call-IsDurable s c h)

-- Every stored record and checkpoint can be written.
pub record IsWritable (s : PostgresTransactionRepository) : Type 0 where
  pub records_writable :
      (id : String) (r : TransactionRecord) → lookup id s.records.rows ≡ some r → WritableRecord r
  pub checkpoints_writable :
      (k : String) (c : KafkaCheckpoint)
      → lookup k s.checkpoints.rows ≡ some c
      → WritableCheckpoint c

-- The two repositories answer alike.
abbrev pub SameTransactions : PostgresTransactionRepository → PostgresTransactionRepository → Type 0
SameTransactions s s' =
    ((id : String) → get_record s' id ≡ get_record s id)
    × ((k : String) → lookup k s'.checkpoints.rows ≡ lookup k s.checkpoints.rows)

-- After any calls on a repository in an empty directory, one that is opened on the two files that it
-- left finds the record of each transaction and the checkpoint of each partition as they stood: if
-- the texts of the stored records hold no tab and no line end, and the partitions and offsets fit
-- the integers of the code.
pub open_transactions-calls :
    (cs : List Call)
    → IsWritable (after cs)
    → (s' : PostgresTransactionRepository) × (open_transactions
          (after cs).records.file
          (after cs).checkpoints.file
        ≡ some s')
      × SameTransactions (after cs) s'
unfolding open_transactions get_record
open_transactions-calls cs w =
    let s = after cs in
    let h = calls-IsDurable new_repository cs (record {
      records_saved = no_table-IsSaved transactions;
      checkpoints_saved = no_table-IsSaved checkpoints;
    }) in
    let (r, er, same_r) =
      open_table-IsSaved transactions s.records h.records_saved
        (λ k x e. WritableRecord-Storable x (w.records_writable k x e)) in
    let (c, ec, same_c) =
      open_table-IsSaved checkpoints s.checkpoints h.checkpoints_saved
        (λ k x e. WritableCheckpoint-Storable x (w.checkpoints_writable k x e)) in
    (record { records = r; checkpoints = c }, rw (er, ec) refl, (same_r, same_c))
