-- ===== src/Driver/Consumer/Assign.antt =====
-- internal/driver/consumer.go: AssignAll and `discoverPartitions`.
use easykafka_config_go.Prelude.{ℕ, Option, none, some, List, map, is_empty, if◌then◌else◌}
use easykafka_config_go.Prelude.Words.{ℤ}
use easykafka_config_go.Errors.{
  Bytes, Err, sentinel, wrap, Context, Result, ok, err, topic_not_found, not_assigned,
}
use easykafka_config_go.Errors
use easykafka_config_go.Driver.Consumer.{Consumer}

-- What GetMetadata says of the topic: absent, or its error and its partitions.
pub record TopicMetadata : Type 0 where
  pub error : Option Err
  pub partitions : List ℕ

-- what `discoverPartitions` makes of the answer of GetMetadata
unfoldable pub partitions_of : Result (Option TopicMetadata) → Result (List ℕ)
partitions_of (err e) = err (wrap Context.detail e)
partitions_of (ok none) = err (wrap Context.detail (sentinel topic_not_found))
partitions_of (ok (some t)) = elim t.error [
  | some e ↦ err (wrap Context.detail e)
  | none ↦
      if is_empty t.partitions
      then err (wrap Context.detail (sentinel topic_not_found))
      else ok t.partitions
]

-- `discoverPartitions`, by the context's error and the client's GetMetadata of a topic
unfoldable pub discover_partitions :
    Option Err → (Bytes → Result (Option TopicMetadata)) → Consumer → Result (List ℕ)
unfolding partitions_of
discover_partitions (some e) metadata c = err e
discover_partitions none metadata c = partitions_of (metadata c.cfg.topic)

-- The offset of an assignment: one of the client's logical offsets, of which AssignAll names
-- `kafka.OffsetBeginning`, or an offset of the partition.
pub data StartOffset : Type 0 where
  offset_beginning offset_end offset_stored offset_invalid : StartOffset
  at_offset : ℤ → StartOffset

-- the request that AssignAll makes of the client's Assign
abbrev pub from_beginning : List ℕ → List (ℕ × StartOffset)
from_beginning ids = map (λ id. (id, offset_beginning)) ids

-- the assignment of the discovered partitions, by the client's Assign
unfoldable pub assign :
    Result (List ℕ) → (List (ℕ × StartOffset) → Option Err) → Consumer → Consumer × Result (List ℕ)
assign (err e) client_assign c = (c, err e)
assign (ok ids) client_assign c = elim (client_assign (from_beginning ids)) [
  | some e ↦ (c, err (wrap Context.detail e))
  | none ↦ (record c { assigned = ids }, ok ids)
]

-- `AssignAll`
unfoldable pub assign_all :
    Option Err
    → (Bytes → Result (Option TopicMetadata))
    → (List (ℕ × StartOffset) → Option Err)
    → Consumer
    → Consumer × Result (List ℕ)
unfolding discover_partitions assign
assign_all ctx_err metadata client_assign c =
    if c.closed
    then (c, err (sentinel Errors.closed))
    else assign (discover_partitions ctx_err metadata c) client_assign c
