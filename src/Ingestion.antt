-- ===== src/Ingestion.antt =====
-- src/ingestion/transaction_ingestor.cpp and src/ingestion/transaction_consumer.cpp: transactions taken
-- from a consumer, stored, published and committed. The calls that the ingestor makes of the other
-- parts are values, which are performed in their order until one throws.
pub mod Order
use wall.Core.{TransactionCommand}
use wall.Prelude.{
  Bool, List, Option, String, [], false, get_elem?, if◌then◌else◌, inc_u64, leb, length, none, some,
  true, ℕ, ◌&&◌, ◌++◌, ◌||◌, ◌∷◌,
}
use wall.Prelude.Int.{ltb_ℤ, pos}
use wall.Prelude.Text.{is_empty}

-- `MockTransactionConsumer`: the commands, `next_index_` and the committed commands.
pub record TransactionConsumer : Type 0 where
  pub commands : List TransactionCommand
  pub next_index : ℕ
  pub committed : List TransactionCommand

unfoldable pub poll : TransactionConsumer → TransactionConsumer × Option TransactionCommand
poll s =
    if leb (length s.commands) s.next_index
    then (s, none)
    else (record s { next_index = inc_u64 s.next_index }, get_elem? s.next_index s.commands)

unfoldable pub commit : TransactionConsumer → TransactionCommand → TransactionConsumer
commit s c = record s { committed = s.committed ++ (c ∷ []) }

unfoldable pub is_valid : TransactionCommand → Bool
is_valid c =
    if is_empty c.transaction_id || (is_empty c.kafka_topic || ltb_ℤ c.kafka_offset (pos 0))
    then false
    else if is_empty c.account_id || (is_empty c.command_type || is_empty c.instrument_symbol)
    then false
    else ltb_ℤ (pos 0) c.quantity

-- A call of another part.
pub data Effect : Type 0 where
  save_received : TransactionCommand → Effect
  save_processed : String → String → Effect
  set_status : String → String → Effect
  publish : TransactionCommand → Effect
  commit_offset : TransactionCommand → Effect
  increment : String → Effect
  observe_latency : String → Effect

-- `metrics_ != nullptr` and `clock_ != nullptr`
pub record Observers : Type 0 where
  pub has_metrics : Bool
  pub has_clock : Bool

-- A call that throws stops the handler. Only the calls of the repository are in a `try`, which counts
-- the failure before the exception goes on.
abbrev pub counted : Observers → Effect → List Effect
counted o (save_received c) = if o.has_metrics then increment "persistence_failures" ∷ [] else []
counted o (save_processed id st) =
    if o.has_metrics then increment "persistence_failures" ∷ [] else []
counted o _ = []

-- The calls that were made, and whether the handler came to its end.
unfoldable pub perform : (Effect → Bool) → Observers → List Effect → List Effect × Bool
perform throws o [] = ([], true)
perform throws o (e ∷ es) =
    let (done, ended) = perform throws o es in
    if throws e then (counted o e, false) else (e ∷ done, ended)

abbrev pub when : Bool → Effect → List Effect
when b e = if b then e ∷ [] else []

abbrev pub latency_seen : Observers → List Effect
latency_seen o =
    when (o.has_metrics && o.has_clock) (observe_latency "transaction_processing_latency_ms")

-- The calls of the steps 2 and 3 for a command that is refused, and of the steps 2, 4 and 5 for one
-- that is valid.
abbrev pub receipt : Observers → TransactionCommand → List Effect
receipt o c =
    save_received c
    ∷ set_status c.transaction_id "received"
    ∷ when o.has_metrics (increment "transactions_received")

abbrev pub refusal : Observers → TransactionCommand → List Effect
refusal o c =
    save_processed c.transaction_id "rejected"
    ∷ set_status c.transaction_id "rejected"
    ∷ commit_offset c
    ∷ (when o.has_metrics (increment "transactions_rejected") ++ latency_seen o)

abbrev pub processing : Observers → TransactionCommand → List Effect
processing o c =
    publish c
    ∷ save_processed c.transaction_id "processed"
    ∷ set_status c.transaction_id "processed"
    ∷ commit_offset c
    ∷ (when o.has_metrics (increment "transactions_processed") ++ latency_seen o)

unfoldable pub handling : Observers → TransactionCommand → List Effect
unfolding is_valid
handling o c = receipt o c ++ (if is_valid c then processing o c else refusal o c)

pub data Outcome : Type 0 where
  idle handled threw : Outcome

-- `process_next` of what the consumer polled.
unfoldable pub process_next :
    (Effect → Bool) → Observers → Option TransactionCommand → List Effect × Outcome
unfolding perform handling
process_next throws o none = ([], idle)
process_next throws o (some c) =
    let (done, ended) = perform throws o (handling o c) in (done, if ended then handled else threw)
