-- ===== src/Tests/Lost.antt =====
-- The service of Live when the Kafka client fails for good under one of its bindings.
use easykafka_config_go.Prelude.{ℕ, ◌<◌, refl, true, none, arith, ℕ_discrete}
use easykafka_config_go.Errors.{Err, Context, wrap, foreign}
use easykafka_config_go.Driver.Consumer
use easykafka_config_go.Driver.Consumer.{Consumer, KafkaEvent, message, kafka_error, another}
use easykafka_config_go.Store.{Store}
use easykafka_config_go.Registration.{registration_of}
use easykafka_config_go.Loader.Serve.{closing, check, handle, with_worker, binding_died, loader_err}
use easykafka_config_go.Loader.Serve.Fleet.{
  Fleet, Manned, Step, Reach, poll_by, close_by, beginning, checked, polled, died, closed, later,
  cancelled,
}
use easykafka_config_go.Loader.Serve.Fleet
use easykafka_config_go.Loader.Serve.Wait.{wait_until_stopped}
use easykafka_config_go.Loader.Serve.Fleet.Blame.{Blamed, wait_until_stopped-Blamed}
use easykafka_config_go.Loader.Start.Handover.Live.{man}
use easykafka_config_go.Tests.{prices}
use easykafka_config_go.Tests.Live.{about_to_poll, regs, began, check_step}

-- The client fails for good under the second goroutine, and both come to their end.
abbrev lost : KafkaEvent
lost = kafka_error (foreign 6) true another

abbrev reported : Err
reported = wrap (Context.binding prices.name) (foreign 6)

abbrev failed : Fleet (Store ℕ ℕ)
failed = poll_by (regs 1) 1 30 lost 31 about_to_poll

abbrev told : Fleet (Store ℕ ℕ)
told = record failed {
  system =
      with_worker (binding_died true reported failed.system) 1
        (record (failed.system.workers 1) { pc = closing });
}

abbrev one_down : Fleet (Store ℕ ℕ)
one_down = close_by 1 none told

abbrev noticed : Fleet (Store ℕ ℕ)
noticed = record one_down {
  system = with_worker one_down.system 0 (check true (one_down.system.workers 0));
}

abbrev all_down : Fleet (Store ℕ ℕ)
all_down = close_by 0 none noticed

fail_step : Step 2 regs true about_to_poll failed
unfolding man check ℕ_discrete
fail_step = polled 1 30 lost 31 (omega arith) refl

tell_step : Step 2 regs true failed told
unfolding man check ℕ_discrete poll_by handle Consumer.poll Consumer.dispatch
    Consumer.classify_error registration_of easykafka_config_go.Driver.Consumer.Assign.assign_all
    Consumer.new_consumer Consumer.note_connected
tell_step = died 1 reported (omega arith) refl

one_down_step : Step 2 regs true told one_down
unfolding man check ℕ_discrete binding_died
one_down_step = closed 1 none (omega arith) refl

notice_step : Step 2 regs true one_down noticed
unfolding man check ℕ_discrete binding_died close_by poll_by
notice_step = checked 0 (omega arith) refl

all_down_step : Step 2 regs true noticed all_down
unfolding man check ℕ_discrete binding_died close_by poll_by
all_down_step = closed 0 none (omega arith) refl

abbrev all_down_reached : Reach 2 regs true all_down
all_down_reached =
    later
      (later
        (later (later (later (later (Fleet.start began) check_step) fail_step) tell_step)
          one_down_step)
        notice_step)
      all_down_step

wait_until_stopped-Blamed_example :
    (i : ℕ) × (i < 2) × Blamed 2 regs true i reported all_down all_down_reached
unfolding wait_until_stopped man check ℕ_discrete binding_died close_by poll_by
    easykafka_config_go.Loader.Serve.close
wait_until_stopped-Blamed_example = wait_until_stopped-Blamed 2 regs true all_down_reached refl
