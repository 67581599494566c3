-- ===== src/Tests/Services.antt =====
-- A service with two bindings, from Start to a live update.
use mathlib.Core.List.{lookup}
use easykafka_config_go.Prelude.{
  ℕ, ◌≡◌, refl, false, true, Option, none, List, [], ◌∷◌, map, pick, arith, ℕ_discrete, some,
}
use easykafka_config_go.Prelude.Words.{pos}
use easykafka_config_go.Errors.{Bytes, Context, wrap, foreign, Result, ok, join_errors}
use easykafka_config_go.Text.{is_blank, trim_space, trim_left, trim_left_reversed}
use easykafka_config_go.Codec.{tombstone_on_blank_payload}
use easykafka_config_go.Driver.Event.{record_read}
use easykafka_config_go.Store.{Store, new_store}
use easykafka_config_go.Store.History.{run}
use easykafka_config_go.Registration.{Registration, apply_func, rejected, registration_of}
use easykafka_config_go.Detect.{partition_eof, begin, observe}
use easykafka_config_go.Loader.WarmUp.{warm_up_binding}
use easykafka_config_go.Loader.Serve.{
  Worker, checking, dying, closing, System, Step, Started, Reach, later, check, handle, with_worker,
  checked, polled,
}
use easykafka_config_go.Loader.Serve
use easykafka_config_go.Loader.Start.{Bound, Script, serving, start}
use easykafka_config_go.Loader.Start.Handover.{hand_over, start-Started}
use easykafka_config_go.Loader.Start.Handover.Served
use easykafka_config_go.Loader.Start.Handover.Served.{Decoded, bound, start-get}
use easykafka_config_go.Tests.{
  byte_key, byte_value, show_key, prices, registered, record_of, two_ends, both,
}
use easykafka_config_go.Driver.Consumer.{
  KafkaEvent, message, kafka_error, nothing, transport, another, new_consumer,
}
use easykafka_config_go.Registration.Replay.{writes}
use easykafka_config_go.Loader.WarmUp.Driven.{messages}
use easykafka_config_go.Loader.Serve.Driven.{
  Visit, serve_polls, ending, before_end, serve_polls-before_end,
}
use easykafka_config_go.Tests.Drivers.{fresh}
use easykafka_config_go.Tests.WarmUps.{loaded_cell}

abbrev decoded : Decoded ℕ ℕ × Script
decoded = (
  record { binding = prices; decode_key = byte_key; decode_value = byte_value },
  record { assigned = ok both; turns = two_ends },
)

abbrev loaded_binding : Bound (Store ℕ ℕ) (Option ℕ)
loaded_binding = record { reg = registered; cell = loaded_cell }

abbrev answers : List (Bytes × Result ℕ)
answers = (b'p' ∷ [], ok 7) ∷ (b'p' ∷ [], ok 8) ∷ []

abbrev closed_none : List ℕ
closed_none = []

serves :
    start
      (pos 0)
      partition_eof
      answers
      (map (bound ℕ_discrete show_key true (pos 0)) (decoded ∷ decoded ∷ []))
    ≡ (loaded_binding ∷ loaded_binding ∷ [], (serving, closed_none))
unfolding start warm_up_binding begin observe registration_of apply_func tombstone_on_blank_payload
    is_blank trim_space trim_left trim_left_reversed rejected ℕ_discrete new_store lookup
    join_errors
serves = refl

abbrev handed : System (Store ℕ ℕ)
handed = hand_over false loaded_binding (loaded_binding ∷ [])

start-Started_example :
    (closed_none ≡ [])
    × (map (λ b. b.reg) (loaded_binding ∷ loaded_binding ∷ [])
        ≡ map
            (λ b. b.0.reg)
            (map (bound ℕ_discrete show_key true (pos 0)) (decoded ∷ decoded ∷ [])))
    × Started 2
        (λ i. (pick loaded_binding (loaded_binding ∷ loaded_binding ∷ []) i).reg)
        true
        handed
start-Started_example =
    start-Started (pos 0) answers
      (map (bound ℕ_discrete show_key true (pos 0)) (decoded ∷ decoded ∷ [])) false true serves

abbrev regs : ℕ → Registration (Store ℕ ℕ) (Option ℕ)
regs i =
    Served.registered ℕ_discrete show_key true (pos 0) (pick decoded (decoded ∷ decoded ∷ []) i).0

abbrev about_to_poll : System (Store ℕ ℕ)
about_to_poll = with_worker handed 1 (check false (handed.workers 1))

abbrev updated : System (Store ℕ ℕ)
updated =
    with_worker about_to_poll 1
      (handle registered (record_read (record_of (2 ∷ []) (70 ∷ []))) 20 (about_to_poll.workers 1))

handed-Started : Started 2 regs true handed
handed-Started =
    (start-Started (pos 0) answers
      (map (bound ℕ_discrete show_key true (pos 0)) (decoded ∷ decoded ∷ [])) false true serves).2

abbrev began : Reach 2 regs true handed
began = Serve.start handed-Started

check_step : Step 2 regs true handed about_to_poll
unfolding hand_over
check_step = checked 1 (omega arith) refl

poll_step : Step 2 regs true about_to_poll updated
unfolding hand_over check ℕ_discrete
poll_step = polled 1 (record_read (record_of (2 ∷ []) (70 ∷ []))) 20 (omega arith) refl

abbrev updated_reached : Reach 2 regs true updated
updated_reached = later (later began check_step) poll_step

abbrev visit_of : KafkaEvent → Visit
visit_of event = record {
  ctx_err = none;
  loader_err = none;
  polled_at = 3;
  kafka = event;
  now = 10;
}

-- The broker is lost for a while, and then the client fails for good.
abbrev visits : List Visit
visits =
    visit_of (message none 0 (pos 0) (some (1 ∷ [])) (some (65 ∷ [])) 0)
    ∷ visit_of (kafka_error (foreign 5) false transport)
    ∷ visit_of (message none 0 (pos 1) (some (2 ∷ [])) (some (66 ∷ [])) 0)
    ∷ visit_of (kafka_error (foreign 6) true another)
    ∷ visit_of nothing
    ∷ []

abbrev alone : Worker (Store ℕ ℕ)
alone = record { cell = loaded_cell; pc = checking; closes = 0 }

serve_polls-before_end_example :
    ((serve_polls registered visits fresh alone).1.pc ≡ ending prices.name visits)
    × ((serve_polls registered visits fresh alone).1.cell.store
        ≡ run ℕ_discrete
            (writes ℕ_discrete show_key true prices byte_key byte_value
              (messages fresh.cfg.topic (before_end visits)))
            loaded_cell.store)
unfolding new_consumer
serve_polls-before_end_example =
    serve_polls-before_end ℕ_discrete show_key true prices byte_key byte_value visits fresh alone
      refl refl

-- where that leaves the goroutine
dies_of_the_last :
    ending prices.name visits ≡ dying (wrap (Context.binding prices.name) (foreign 6))
unfolding ending
dies_of_the_last = refl

-- where the error that another binding has recorded leaves it
stops_for_another :
    ending prices.name (
      record {
        ctx_err = none;
        loader_err = some (foreign 9);
        polled_at = 3;
        kafka = nothing;
        now = 10;
      }
      ∷ visits)
    ≡ closing
unfolding ending
stops_for_another = refl
