-- ===== src/Tests/Live.antt =====
-- A service with two bindings on consumers of the driver, from Start to a live update and the end.
use mathlib.Core.List.{lookup}
use easykafka_config_go.Prelude.{
  ℕ, ◌+◌, ◌≤◌, ◌≡◌, refl, false, true, Option, none, some, List, [], ◌∷◌, ◌++◌, if◌then◌else◌,
  arith, ℕ_discrete,
}
use easykafka_config_go.Prelude.Words.{pos}
use easykafka_config_go.Errors.{Bytes, Result, ok, join_errors}
use easykafka_config_go.Text.{is_blank, trim_space, trim_left, trim_left_reversed}
use easykafka_config_go.Codec.{tombstone_on_blank_payload}
use easykafka_config_go.Driver.Consumer
use easykafka_config_go.Driver.Consumer.{Consumer, KafkaEvent, message, kafka_error, another}
use easykafka_config_go.Store.{Store, new_store, get}
use easykafka_config_go.Store.History.{last_write}
use easykafka_config_go.Registration.{Registration, apply_func, rejected, registration_of}
use easykafka_config_go.Registration.Replay.{writes}
use easykafka_config_go.Detect.{partition_eof, begin, observe}
use easykafka_config_go.Loader.WarmUp.{warm_up_binding}
use easykafka_config_go.Loader.WarmUp.Driven.{Round, messages}
use easykafka_config_go.Loader.WarmUp.Driven.Loaded.{ReadWhole}
use easykafka_config_go.Loader.Serve.{check, with_worker, loader_err}
use easykafka_config_go.Loader.Serve.Fleet.{
  Fleet, Manned, Step, Reach, poll_by, close_by, beginning, checked, polled, died, closed, later,
  cancelled,
}
use easykafka_config_go.Loader.Serve.Fleet
use easykafka_config_go.Loader.Serve.Wait.{has_exited, wait_until_stopped}
use easykafka_config_go.Loader.Serve.Fleet.Shutdown.{
  Run, done, more, closed_once, wait_until_stopped-closed_once,
}
use easykafka_config_go.Loader.Serve.Fleet.Closing.{Reach-client_closes}
use easykafka_config_go.Loader.Serve.Fleet.Returned.{returned_to}
use easykafka_config_go.Loader.Start.{Bound, serving, start}
use easykafka_config_go.Loader.Start.Handover.Served.{Decoded}
use easykafka_config_go.Loader.Start.Handover.Live.{Feed, man, attached, regs_of, feeds_of}
use easykafka_config_go.Loader.Start.Handover.Manned.{start-Manned}
use easykafka_config_go.Loader.Start.Handover.Reading.{start-live}
use easykafka_config_go.Tests.{byte_key, byte_value, show_key, prices, registered}
use easykafka_config_go.Tests.Drivers.{fresh, metadata, accepts}
use easykafka_config_go.Tests.Composed.{rounds, driven_cell}

abbrev fed : Decoded ℕ ℕ × Feed
fed = (
  record { binding = prices; decode_key = byte_key; decode_value = byte_value },
  record {
    consumer = fresh;
    ctx_err = none;
    metadata = metadata;
    client_assign = accepts;
    rounds = rounds;
  },
)

abbrev loaded_binding : Bound (Store ℕ ℕ) (Option ℕ)
loaded_binding = record { reg = registered; cell = driven_cell }

abbrev answers : List (Bytes × Result Consumer)
answers = (b'p' ∷ [], ok fresh) ∷ (b'p' ∷ [], ok fresh) ∷ []

abbrev closed_none : List Consumer
closed_none = []

serves :
    start (pos 0) partition_eof answers (attached ℕ_discrete show_key true (pos 0) (fed ∷ fed ∷ []))
    ≡ (loaded_binding ∷ loaded_binding ∷ [], (serving, closed_none))
unfolding start easykafka_config_go.Loader.Start.Handover.Live.script_of
    easykafka_config_go.Loader.WarmUp.Driven.warm_up_driven warm_up_binding
    easykafka_config_go.Driver.Consumer.Assign.assign_all Consumer.new_consumer begin Consumer.poll
    Consumer.dispatch observe Consumer.note_connected registration_of ℕ_discrete apply_func
    tombstone_on_blank_payload is_blank trim_space trim_left trim_left_reversed rejected new_store
    lookup join_errors
serves = refl

-- what the warm-ups polled before they returned
abbrev polled_rounds : ℕ → List Round
polled_rounds i = rounds

abbrev manned : Fleet (Store ℕ ℕ)
manned = man false (feeds_of fed (fed ∷ [])) polled_rounds loaded_binding (loaded_binding ∷ [])

abbrev pub regs : ℕ → Registration (Store ℕ ℕ) (Option ℕ)
regs = regs_of ℕ_discrete show_key true (pos 0) fed (fed ∷ [])

pub began : Manned 2 regs true manned
began =
    start-Manned ℕ_discrete show_key true (pos 0) answers fed (fed ∷ []) false true polled_rounds
      serves

abbrev pub about_to_poll : Fleet (Store ℕ ℕ)
about_to_poll = record manned {
  system = with_worker manned.system 1 (check false (manned.system.workers 1));
}

-- the client returns a message to the second goroutine
abbrev update_message : KafkaEvent
update_message = message none 0 (pos 2) (some (2 ∷ [])) (some (70 ∷ [])) 0

abbrev updated : Fleet (Store ℕ ℕ)
updated = poll_by (regs 1) 1 30 update_message 31 about_to_poll

pub check_step : Step 2 regs true manned about_to_poll
unfolding man
check_step = checked 1 (omega arith) refl

poll_step : Step 2 regs true about_to_poll updated
unfolding man check ℕ_discrete
poll_step = polled 1 30 update_message 31 (omega arith) refl

abbrev updated_reached : Reach 2 regs true updated
updated_reached = later (later (Fleet.start began) check_step) poll_step

start-live_example :
    (w : ReadWhole ℕ_discrete show_key true prices byte_key byte_value metadata accepts fresh rounds
      driven_cell)
    × ((q : ℕ)
        → get ℕ_discrete q (updated.system.workers 1).cell.store
          ≡ last_write ℕ_discrete q
              (writes ℕ_discrete show_key true prices byte_key byte_value
                (messages fresh.cfg.topic w.heard ++ returned_to fresh.cfg.topic 1 updated_reached))
              (none, false))
unfolding beginning
start-live_example =
    start-live ℕ_discrete show_key true (pos 0) answers fed (fed ∷ []) false true polled_rounds
      serves updated_reached refl 1 (omega arith)

-- The context is done, and the second goroutine stops.
abbrev stopping : Fleet (Store ℕ ℕ)
stopping = record manned { system = record manned.system { ctx_done = true } }

abbrev about_to_close : Fleet (Store ℕ ℕ)
about_to_close = record stopping {
  system = with_worker stopping.system 1 (check true (stopping.system.workers 1));
}

abbrev closed_down : Fleet (Store ℕ ℕ)
closed_down = close_by 1 none about_to_close

stop_step : Step 2 regs true stopping about_to_close
unfolding man
stop_step = checked 1 (omega arith) refl

close_step : Step 2 regs true about_to_close closed_down
unfolding man check ℕ_discrete
close_step = closed 1 none (omega arith) refl

abbrev closed_reached : Reach 2 regs true closed_down
closed_reached = later (later (cancelled (Fleet.start began)) stop_step) close_step

Reach-client_closes_example :
    let pc = (closed_down.system.workers 1).pc in
    ((closed_down.consumers 1).closed ≡ has_exited pc)
    × (closed_down.client_closes 1 ≡ (if has_exited pc then 1 else 0))
    × ((closed_down.consumers 1).cfg ≡ ((beginning 2 regs true closed_reached).consumers 1).cfg)
Reach-client_closes_example = Reach-client_closes 2 regs true 1 closed_reached

-- From the state in which the context is done, the second goroutine has made a step.
stopping_reached : Reach 2 regs true stopping
stopping_reached = cancelled (Fleet.start began)

wait_until_stopped-closed_once_example :
    (k : ℕ) × (h : Fleet (Store ℕ ℕ)) × Run 2 regs true about_to_close k h
    × (1 + k ≤ 6)
    × (wait_until_stopped 2 h.system ≡ some (loader_err h.system))
    × (closed_once 2 h ≡ true)
wait_until_stopped-closed_once_example =
    wait_until_stopped-closed_once 2 regs true stopping_reached refl (more done stop_step)
