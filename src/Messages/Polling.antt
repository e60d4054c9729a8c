-- ===== src/Messages/Polling.antt =====
-- The loop of `KafkaTransactionConsumer::poll` (src/infrastructure/kafka_transaction_consumer.cpp).
use mathlib.Core.List.{append-nil, append_assoc}
use wall.Core.{TransactionCommand}
use wall.Fields.Doubles.{DoubleText}
use wall.Messages.{
  Client, Commit, RawKafkaMessage, committed, offset_of, poll_messages, poll_queue, wanted,
}
use wall.Prelude.{
  All, List, Option, Option-cases, String, [], ap, inl, inr, map, none, refl, some, subst, sym,
  ◌++◌, ◌∷◌, ◌≡◌,
}

abbrev pub IsUnwanted : DoubleText → String → RawKafkaMessage → Type 0
IsUnwanted N topic m = wanted N topic m ≡ none

-- What a poll does: the messages that it passes over are committed in their order, and a message
-- that it returns is not.
pub data Polled (N : DoubleText) (topic : String) (s : Client)
    : Client → Option TransactionCommand → Type 0 where
  found :
      (passed queue : List RawKafkaMessage) (m : RawKafkaMessage) (c : TransactionCommand)
      → s.queue ≡ passed ++ (m ∷ queue)
      → All (IsUnwanted N topic) passed
      → wanted N topic m ≡ some c
      → Polled N topic s
          (record { queue = queue; commits = s.commits ++ map offset_of passed })
          (some c)
  exhausted :
      All (IsUnwanted N topic) s.queue
      → Polled N topic s (record { queue = []; commits = s.commits ++ map offset_of s.queue }) none

-- A message in front that is not wanted.
passed_over :
    (N : DoubleText) (topic : String) (m : RawKafkaMessage) (ms : List RawKafkaMessage)
    (cs : List Commit) (s' : Client) (o : Option TransactionCommand)
    → IsUnwanted N topic m
    → Polled N topic (record { queue = ms; commits = committed cs m }) s' o
    → Polled N topic (record { queue = m ∷ ms; commits = cs }) s' o
passed_over N topic m ms cs _ _ u (found passed queue x c e a w) =
    subst
      (λ k.
        Polled N topic (record { queue = m ∷ ms; commits = cs })
          (record { queue = queue; commits = k }) (some c))
      (sym (append_assoc cs (offset_of m ∷ []) (map offset_of passed)))
      (found (m ∷ passed) queue x c (ap (◌∷◌ m) e) (u, a) w)
passed_over N topic m ms cs _ _ u (exhausted a) =
    subst
      (λ k.
        Polled N topic (record { queue = m ∷ ms; commits = cs })
          (record { queue = []; commits = k }) none)
      (sym (append_assoc cs (offset_of m ∷ []) (map offset_of ms))) (exhausted (u, a))

poll_queue-Polled :
    (N : DoubleText) (topic : String) (ms : List RawKafkaMessage) (cs : List Commit)
    → Polled N topic
        (record { queue = ms; commits = cs })
        (poll_queue N topic ms cs).0
        (poll_queue N topic ms cs).1
unfolding poll_queue
poll_queue-Polled N topic [] cs =
    subst
      (λ k.
        Polled N topic (record { queue = []; commits = cs }) (record { queue = []; commits = k })
          none)
      (append-nil cs) (exhausted tt)
poll_queue-Polled N topic (m ∷ ms) cs = elim (Option-cases (wanted N topic m)) [
  | inl e ↦ rw e (passed_over N topic m ms cs _ _ e (poll_queue-Polled N topic ms (committed cs m)))
  | inr (c, e) ↦ rw e (
      subst
        (λ k.
          Polled N topic (record { queue = m ∷ ms; commits = cs })
            (record { queue = ms; commits = k }) (some c))
        (append-nil cs) (found [] ms m c refl tt e))
]

-- A poll passes over the messages of other topics and those that are no transaction, commits each of them
-- in its order, and returns the first other message as a transaction, without a commit; the messages
-- behind that one stay. Without such a message it commits all of them and returns nothing.
pub poll_messages-Polled :
    (N : DoubleText) (topic : String) (s : Client)
    → Polled N topic s (poll_messages N topic s).0 (poll_messages N topic s).1
unfolding poll_messages
poll_messages-Polled N topic s = poll_queue-Polled N topic s.queue s.commits
