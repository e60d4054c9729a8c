-- ===== src/Tests/Files.antt =====
-- Repositories of src/infrastructure/postgres_repositories.cpp that are opened again.
use wall.Fields.Laws.{lacks, tag-IsField}
use wall.FileStore.Transactions.{
  Call, PostgresTransactionRepository, after, call, checkpoints_at, open_transactions, processes,
  receives, save_checkpoint, save_processed, save_received,
}
use wall.FileStore.Transactions.Restart.{
  SameTransactions, WritableCheckpoint, WritableRecord, open_transactions-calls,
}
use wall.Prelude.{
  All, List, String, [], arith, if_neg, if_pos, refl, some, some_inj, subst, sym, ◌∙◌, ◌∷◌, ◌≡◌,
  ◌⊳◌,
}
use wall.Prelude.Dict.{Dict, insert, lookup, modify, values}
use wall.Prelude.Int.{pos}
use wall.Prelude.Text.{dec_str}
use wall.Samples.{command_of}
use wall.Storage.{KafkaCheckpoint}

-- What holds of every value of a map holds of one that is found.
pub lookup-All :
    {V : Type 0} (P : V → Type 0) (d : Dict V) (k : String) (v : V)
    → All P (values d)
    → lookup k d ≡ some v
    → P v
unfolding lookup
lookup-All P [] k v a h = absurd (cc)
lookup-All P ((j, x) ∷ d) k v a h = elim (dec_str k j) [
  | yes e ↦ subst P (some_inj (sym (if_pos (dec_str k j) e (some x) (lookup k d)) ∙ h)) a.0
  | no n ↦ lookup-All P d k v a.1 (sym (if_neg (dec_str k j) n (some x) (lookup k d)) ∙ h)
]

abbrev checkpoint : KafkaCheckpoint
checkpoint = record { topic = "transactions"; partition = pos 0; offset = pos 7 }

-- One transaction is received and processed, another is processed that was not received.
abbrev transaction_calls : List Call
transaction_calls =
    receives (command_of "transaction-1" 5)
    ∷ processes "transaction-1" "processed"
    ∷ processes "transaction-2" "rejected"
    ∷ checkpoints_at checkpoint
    ∷ []

transactions_writable : All WritableRecord (values (after transaction_calls).records.rows)
unfolding call save_received save_processed save_checkpoint insert lookup modify dec_str lacks
transactions_writable =
    record {
      id_field = tag-IsField "transaction-1" refl refl;
      status_field = tag-IsField "processed" refl refl;
      topic_field = tag-IsField "transactions" refl refl;
      partition_fits = omega arith;
      offset_fits = omega arith;
    }
    ⊳ record {
      id_field = tag-IsField "transaction-2" refl refl;
      status_field = tag-IsField "rejected" refl refl;
      topic_field = (tt, tt);
      partition_fits = omega arith;
      offset_fits = omega arith;
    }
    ⊳ tt

checkpoints_writable : All WritableCheckpoint (values (after transaction_calls).checkpoints.rows)
unfolding call save_received save_processed save_checkpoint insert lookup modify dec_str lacks
checkpoints_writable =
    record {
      topic_field = tag-IsField "transactions" refl refl;
      partition_fits = omega arith;
      offset_fits = omega arith;
    }
    ⊳ tt

open_transactions-calls_example :
    (s' : PostgresTransactionRepository) × (open_transactions
        (after transaction_calls).records.file
        (after transaction_calls).checkpoints.file
      ≡ some s')
    × SameTransactions (after transaction_calls) s'
open_transactions-calls_example = open_transactions-calls transaction_calls (record {
  records_writable = λ id r.
      lookup-All WritableRecord (after transaction_calls).records.rows id r transactions_writable;
  checkpoints_writable = λ k c.
      lookup-All WritableCheckpoint (after transaction_calls).checkpoints.rows k c
        checkpoints_writable;
})
