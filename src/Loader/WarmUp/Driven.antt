-- ===== src/Loader/WarmUp/Driven.antt =====
-- `warmUpBinding` of loader.go with the consumer of internal/driver/consumer.go: its AssignAll, and
-- the turns that its polls make of what the Kafka client returns.
pub mod Polls
pub mod Loaded
use easykafka_config_go.Prelude.{
  ℕ, ◌≡◌, refl, sym, ap, ◌∙◌, Bool, true, false, Option, none, some, List, [], ◌∷◌, ◌++◌, ◌||◌, any,
  All, map, arith, ◌==◌, if◌then◌else◌,
}
use easykafka_config_go.Prelude.Words.{ℤ}
use easykafka_config_go.Errors.{Bytes, Err, Result, ok, err}
use easykafka_config_go.Text.{Slice}
use easykafka_config_go.Binding.{Binding}
use easykafka_config_go.Store.{Store, new_store, get}
use easykafka_config_go.Store.History.{last_write}
use easykafka_config_go.Registration.{Cell, new_cell, Registration}
use easykafka_config_go.Registration.Replay.{writes}
use easykafka_config_go.Detect.{Detector, partition_eof}
use easykafka_config_go.Detect.Laws.{is_end_of, ended}
use easykafka_config_go.Driver.Event.{Record, Event}
use easykafka_config_go.Driver.Consumer.{
  Consumer, KafkaEvent, message, kafka_error, nothing, unhandled, poll, dispatch, classify_error,
  note_error, note_connected, log_throttled, deref_topic,
}
use easykafka_config_go.Driver.Consumer.Assign.{TopicMetadata, StartOffset, assign_all}
use easykafka_config_go.Driver.Consumer.Assigned.{Covers, assign_all-Covers}
use easykafka_config_go.Driver.Consumer
use easykafka_config_go.Loader.WarmUp.{Turn, Outcome, loaded, warm_up_binding}
use easykafka_config_go.Loader.WarmUp.Laws.{Calm, events}
use easykafka_config_go.Loader.WarmUp.Complete.{WholeTopic, warm_up_binding-WholeTopic}
use easykafka_config_go.Loader.WarmUp.Records.{records}

-- What one round of the loop meets: the context's error, the clock of the driver, what the client's
-- Poll returns, the clock when the record is applied, and the time since the start of warm-up.
pub record Round : Type 0 where
  pub ctx_err : Option Err
  pub polled_at : ℕ
  pub kafka : KafkaEvent
  pub now : ℕ
  pub took : ℕ

-- `event := c.Poll(…)`, round by round
unfoldable pub turns_of : List Round → Consumer → List Turn
turns_of [] c = []
turns_of (r ∷ rs) c =
    record {
      ctx_err = r.ctx_err;
      event = (poll r.polled_at r.kafka c).1;
      now = r.now;
      took = r.took;
    }
    ∷ turns_of rs (poll r.polled_at r.kafka c).0

-- `warmUpBinding` on a driver's consumer, by the answers of the context and the client
unfoldable pub warm_up_driven :
    {S A : Type 0}
    → Registration S A
    → ℤ
    → Detector
    → Option Err
    → (Bytes → Result (Option TopicMetadata))
    → (List (ℕ × StartOffset) → Option Err)
    → List Round
    → Consumer
    → Cell S
    → Cell S × Outcome
unfolding turns_of
warm_up_driven reg timeout detector ctx_err metadata client_assign rounds consumer cell =
    let (consumer', assigned) = assign_all ctx_err metadata client_assign consumer in
    warm_up_binding reg timeout detector assigned (turns_of rounds consumer') cell

-- whether the client reports the end of a partition
abbrev pub reports_end : ℕ → Round → Bool
reports_end p r = elim r.kafka [ Consumer.partition_eof q offset ↦ q == p | _ ↦ false ]

-- the messages that the client returns, as records with the time at which they are applied
abbrev pub messages : Bytes → List Round → List (Record × ℕ)
messages topic [] = []
messages topic (r ∷ rs) = elim r.kafka [
  | message t partition offset key value timestamp ↦
      (
        record {
          topic = deref_topic t topic;
          partition = partition;
          offset = offset;
          key = key;
          payload = value;
          timestamp = timestamp;
        },
        r.now,
      )
      ∷ messages topic rs
  | _ ↦ messages topic rs
]
