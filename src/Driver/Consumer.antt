-- ===== src/Driver/Consumer.antt =====
-- internal/driver/consumer.go: one consumer over confluent-kafka-go. What the Kafka client answers
-- to a call is an argument of the operation that makes the call; each operation is one critical
-- section of `handleMu`, except Close, whose flag is set before it.
pub mod Create
pub mod Assign
pub mod Assigned
pub mod Connection
pub mod Handle
use mathlib.Core.Option
use easykafka_config_go.Prelude.{
  ℕ, ◌+◌, Bool, true, false, ◌&&◌, not, Option, none, some, List, [], ◌∷◌, ◌++◌, map, is_empty,
  if◌then◌else◌,
}
use easykafka_config_go.Prelude.Words.{ℤ, pos, negsuc}
use easykafka_config_go.Errors.{
  Bytes, Err, sentinel, wrap, Context, Result, ok, err, topic_not_found, not_assigned,
}
use easykafka_config_go.Errors
use easykafka_config_go.Text.{Slice}
use easykafka_config_go.Driver.Config.{Config, Value, with_defaults, validate, build_config_map}
use easykafka_config_go.Driver.Event.{Record, Event, record_read, eof, idle, failure}
use easykafka_config_go.Driver.Throttle.{Throttle, new_throttle, allow, reset}

-- The log lines about the connection, with the count of suppressed ones.
pub data Line : Type 0 where
  fatal_error : Line
  connection_lost : Line
  still_unreachable : ℤ → Line
  non_fatal_error : ℤ → Line
  connection_restored : Line

-- `consumer`, without the client's handle.
pub record Consumer : Type 0 where
  pub cfg : Config
  pub closed : Bool
  pub connected : Bool
  pub err_log : Throttle
  pub assigned : List ℕ
  pub lines : List Line

-- The codes that `classifyError` tells apart: ErrTransport, ErrAllBrokersDown and the rest.
pub data Code : Type 0 where
  transport all_brokers_down another : Code

-- What the client's Poll returns; `nothing` is nil, `unhandled` an event of another type.
pub data KafkaEvent : Type 0 where
  message :
      (topic : Option Bytes) (partition : ℕ) (offset : ℤ) (key value : Slice) (timestamp : ℕ)
      → KafkaEvent
  partition_eof : (partition : ℕ) (offset : ℤ) → KafkaEvent
  kafka_error : (e : Err) (is_fatal : Bool) (code : Code) → KafkaEvent
  nothing unhandled : KafkaEvent

-- `New`, once the client's constructor has succeeded
unfoldable pub new_consumer : Config → Consumer
unfolding new_throttle
new_consumer cfg = record {
  cfg = cfg;
  closed = false;
  connected = true;
  err_log = new_throttle cfg.error_log_interval;
  assigned = [];
  lines = [];
}

-- `M` is `kafka.ConfigMap`, as in Driver.Config.
module _ {M : Type 0} (of_list : List (Bytes × Value) → M)
    (set_key : Bytes → Value → M → Result M) where
  -- `New`, by the answer of the client's constructor to a property map
  unfoldable pub new : (M → Option Err) → Config → Result Consumer
  unfolding new_consumer
  new create cfg =
      let cfg' = with_defaults cfg in
      elim (validate cfg') [
        | some e ↦ err (wrap Context.driver_config e)
        | none ↦ elim (build_config_map of_list set_key cfg') [
          | err e ↦ err e
          | ok m ↦ elim (create m) [
            | some e ↦ err (wrap Context.detail e)
            | none ↦ ok (new_consumer cfg')
          ]
        ]
      ]

abbrev log : Line → Consumer → Consumer
log line c = record c { lines = c.lines ++ line ∷ [] }

-- `if allowed, suppressed := c.errLog.allow(); allowed { … }`
unfoldable pub log_throttled : ℕ → (ℤ → Line) → Consumer → Consumer
log_throttled now line c =
    let (t, (allowed, suppressed)) = allow now c.err_log in
    let c' : Consumer = record c { err_log = t } in if allowed then log (line suppressed) c' else c'

abbrev pub is_unreachable : Code → Bool
is_unreachable another = false
is_unreachable _ = true

-- the `switch` of `classifyError`
unfoldable pub note_error : ℕ → Code → Consumer → Consumer
note_error now code c =
    if is_unreachable code
    then (if c.connected
        then log connection_lost (record c { connected = false })
        else log_throttled now still_unreachable c)
    else log_throttled now non_fatal_error c

-- `classifyError`
unfoldable pub classify_error : ℕ → Err → Bool → Code → Consumer → Consumer × Event
classify_error now e true code c = (log fatal_error c, failure (some e) true)
classify_error now e false code c = (note_error now code c, failure (some e) false)

-- `noteConnected`
unfoldable pub note_connected : Consumer → Consumer
note_connected c =
    if c.connected
    then c
    else log connection_restored (record c { connected = true; err_log = reset c.err_log })

-- `derefTopic`
unfoldable pub deref_topic : Option Bytes → Bytes → Bytes
deref_topic none fallback = fallback
deref_topic (some topic) fallback = topic

-- the `switch` of `Poll`
unfoldable pub dispatch : ℕ → KafkaEvent → Consumer → Consumer × Event
dispatch now (message topic partition offset key value timestamp) c = (
  note_connected c,
  record_read (record {
    topic = deref_topic topic c.cfg.topic;
    partition = partition;
    offset = offset;
    key = key;
    payload = value;
    timestamp = timestamp;
  }),
)
dispatch now (partition_eof partition offset) c = (note_connected c, eof partition offset)
dispatch now (kafka_error e is_fatal code) c = classify_error now e is_fatal code c
dispatch now nothing c = (c, idle)
dispatch now unhandled c = (c, idle)

-- `Poll`, where the client's Poll would return the event
unfoldable pub poll : ℕ → KafkaEvent → Consumer → Consumer × Event
poll now event c =
    if c.closed then (c, failure (some (sentinel Errors.closed)) true) else dispatch now event c

-- `fmt.Errorf("…: %w", err)` of a client's error
abbrev wrap_error : {A : Type 0} → Result A → Result A
wrap_error (err e) = err (wrap Context.detail e)
wrap_error (ok a) = ok a

-- `Watermarks`, by the client's answer
unfoldable pub watermarks : Result (ℤ × ℤ) → Consumer → Result (ℤ × ℤ)
watermarks answer c = if c.closed then err (sentinel Errors.closed) else wrap_error answer

abbrev is_negative : ℤ → Bool
is_negative (pos n) = false
is_negative (negsuc n) = true

-- the loop of `Positions`, which leaves out logical offsets
unfoldable pub real_positions : List (ℕ × ℤ) → List (ℕ × ℤ)
real_positions [] = []
real_positions ((partition, offset) ∷ ps) =
    let rest = real_positions ps in if is_negative offset then rest else (partition, offset) ∷ rest

abbrev found : Result (List (ℕ × ℤ)) → Result (List (ℕ × ℤ))
found (err e) = err (wrap Context.detail e)
found (ok ps) = ok (real_positions ps)

-- `Positions`, by the client's Position of the partitions asked for
unfoldable pub positions : (List ℕ → Result (List (ℕ × ℤ))) → Consumer → Result (List (ℕ × ℤ))
unfolding real_positions
positions client_position c =
    if c.closed
    then err (sentinel Errors.closed)
    else (if is_empty c.assigned
        then err (sentinel not_assigned)
        else found (client_position c.assigned))

-- `Close`: the new state, whether the client's Close is called, and the result by its answer
unfoldable pub close : Option Err → Consumer → Consumer × (Bool × Option Err)
close answer c =
    if c.closed
    then (c, (false, none))
    else (record c { closed = true }, (true, Option.map (wrap Context.detail) answer))
