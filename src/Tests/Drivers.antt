-- ===== src/Tests/Drivers.antt =====
-- The driver at concrete inputs.
use easykafka_config_go.Prelude.{
  ℕ, ◌≡◌, ◌↔◌, ◌⊎◌, refl, ◌+◌, true, false, Option, none, some, List, [], ◌∷◌, arith, ℕ_discrete,
}
use easykafka_config_go.Prelude.Words.{leb_ℤ, pos}
use easykafka_config_go.Errors.{Bytes, Err, foreign, Result, ok, err, join_errors}
use easykafka_config_go.Text.{
  bytes, is_blank, trim_space, trim_left, trim_left_reversed, same_bytes,
}
use easykafka_config_go.Driver.Throttle.{new_throttle}
use easykafka_config_go.Driver.Throttle.Laws.{answers, after, accounted, Spaced, allow_complete}
use easykafka_config_go.Driver.Config.{
  Value, text, Config, with_defaults, complaints, validate, build_config_map, base_properties,
  is_reserved,
}
use easykafka_config_go.Driver.Config.Pinned.{entry}
use easykafka_config_go.Driver.Consumer.{
  KafkaEvent, partition_eof, kafka_error, transport, another, Consumer, new, new_consumer,
}
use easykafka_config_go.Driver.Consumer.Assign.{TopicMetadata, StartOffset, assign_all}
use easykafka_config_go.Driver.Consumer.Assigned.{Covers, assign_all_iff}
use easykafka_config_go.Driver.Consumer.Create.{Pinned, new-Pinned}
use easykafka_config_go.Driver.Consumer.Connection.{read_log, poll_all, poll_all-read_log}
use easykafka_config_go.Driver.Consumer.Handle.{
  Shared, outside, waiting, locked, calling, closing, move, call, lock, test, Reach, start, later,
  swap, calling-alive,
}

allow_complete_example :
    (accounted (answers (1 ∷ 5 ∷ 12 ∷ []) (new_throttle (pos 10)))
        + (after (1 ∷ 5 ∷ 12 ∷ []) (new_throttle (pos 10))).suppressed
      ≡ 3)
    × Spaced 10 none (1 ∷ 5 ∷ 12 ∷ []) (answers (1 ∷ 5 ∷ 12 ∷ []) (new_throttle (pos 10)))
allow_complete_example = allow_complete 10 (1 ∷ 5 ∷ 12 ∷ []) (omega arith)

abbrev pub settings : Config
settings = record {
  brokers = bytes "a" ∷ bytes "b" ∷ [];
  topic = bytes "t";
  group_id = bytes "g";
  security_protocol = bytes "SASL_SSL";
  sasl_mechanism = bytes "PLAIN";
  sasl_username = bytes "u";
  sasl_password = bytes "p";
  metadata_timeout = pos 0;
  error_log_interval = pos 0;
  extra = (bytes "client.id", text (bytes "c")) ∷ [];
}

abbrev pub fresh : Consumer
fresh = new_consumer (with_defaults settings)

-- A map as the list of its entries, the newest first.
abbrev of_list : List (Bytes × Value) → List (Bytes × Value)
of_list es = es

abbrev set_key : Bytes → Value → List (Bytes × Value) → Result (List (Bytes × Value))
set_key k v m = ok ((k, v) ∷ m)

get-set_key :
    (j k : Bytes) (v : Value) (m m' : List (Bytes × Value))
    → set_key k v m ≡ ok m'
    → is_reserved j ≡ true
    → same_bytes j k ≡ false
    → entry j m' ≡ entry j m
unfolding entry
get-set_key j k v m m' h r other = ground arith

abbrev pinned_map : List (Bytes × Value)
pinned_map =
    (bytes "client.id", text (bytes "c"))
    ∷ (bytes "sasl.password", text (bytes "p"))
    ∷ (bytes "sasl.username", text (bytes "u"))
    ∷ (bytes "sasl.mechanism", text (bytes "PLAIN"))
    ∷ (bytes "security.protocol", text (bytes "SASL_SSL"))
    ∷ base_properties settings

abbrev create : List (Bytes × Value) → Option Err
create m = none

new-Pinned_example :
    ((m : List (Bytes × Value)) × Pinned entry create m)
    × ((fresh.closed ≡ false) × (fresh.connected ≡ true) × (fresh.assigned ≡ []))
    × ((leb_ℤ fresh.cfg.metadata_timeout (pos 0) ≡ false)
        × (leb_ℤ fresh.cfg.error_log_interval (pos 0) ≡ false))
unfolding new with_defaults validate complaints is_blank trim_space trim_left trim_left_reversed
    is_reserved same_bytes build_config_map join_errors new_consumer
new-Pinned_example =
    new-Pinned of_list set_key entry (λ j es. refl) get-set_key create settings fresh refl

abbrev pub metadata : Bytes → Result (Option TopicMetadata)
metadata topic = ok (some (record { error = none; partitions = 0 ∷ 1 ∷ [] }))

abbrev pub accepts : List (ℕ × StartOffset) → Option Err
accepts request = none

-- the context reports no error
abbrev absent : Option Err
absent = none

abbrev assigned_both : Consumer
assigned_both = record fresh { assigned = 0 ∷ 1 ∷ [] }

assign_all_iff_example :
    ((assign_all absent metadata accepts fresh ≡ (assigned_both, ok (0 ∷ 1 ∷ [])))
      ↔ ((absent ≡ none) × Covers metadata accepts fresh assigned_both (0 ∷ 1 ∷ [])))
    × (((e : Err) × (assign_all absent metadata accepts fresh ≡ (fresh, err e)))
        ⊎ ((l : List ℕ) × (assign_all absent metadata accepts fresh
              ≡ (record fresh { assigned = l }, ok l))))
assign_all_iff_example = assign_all_iff absent metadata accepts fresh assigned_both (0 ∷ 1 ∷ [])

-- the connection is lost, stays lost, and comes back
abbrev polls : List (ℕ × KafkaEvent)
polls =
    (1, kafka_error (foreign 3) false transport)
    ∷ (2, kafka_error (foreign 3) false transport)
    ∷ (3, kafka_error (foreign 4) false another)
    ∷ (4, partition_eof 0 (pos 0))
    ∷ []

poll_all-read_log_example :
    read_log (poll_all polls (new_consumer settings)).lines true
    ≡ some (poll_all polls (new_consumer settings)).connected
poll_all-read_log_example = poll_all-read_log settings polls

abbrev quiet : Shared
quiet = record { closed = false; owner = none; destroyed = 0; pcs = λ i. outside }

-- goroutine 0 in a call of the client
abbrev in_call : Shared
in_call = move (move (record (move quiet 0 waiting) { owner = some 0 }) 0 locked) 0 calling

in_call-Reach : Reach 2 in_call
unfolding ℕ_discrete
in_call-Reach =
    later (later (later start (call 0 (omega arith) refl)) (lock 0 (omega arith) refl refl))
      (test 0 (omega arith) refl)

-- goroutine 1 has begun to close the consumer in the meantime
abbrev closing_too : Shared
closing_too = move (record in_call { closed = true }) 1 closing

closing_too-Reach : Reach 2 closing_too
unfolding ℕ_discrete
closing_too-Reach = later in_call-Reach (swap 1 (omega arith) refl)

calling-alive_example : closing_too.destroyed ≡ 0
unfolding ℕ_discrete
calling-alive_example = calling-alive 0 closing_too-Reach refl
