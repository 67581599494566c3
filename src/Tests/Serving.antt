-- ===== src/Tests/Serving.antt =====
-- Starts and serving goroutines at concrete inputs.
use easykafka_config_go.Prelude.{
  ℕ, ◌≡◌, refl, ◌⊎◌, is_some, true, false, Option, none, some, List, [], ◌∷◌, arith, ℕ_discrete,
}
use easykafka_config_go.Prelude.Words.{pos}
use easykafka_config_go.Errors.{
  Bytes, Err, sentinel, foreign, wrap, Context, Result, ok, err, empty_topic,
}
use easykafka_config_go.Driver.Event.{failure}
use easykafka_config_go.Observer.{Phase}
use easykafka_config_go.Store.{Store, new_store}
use easykafka_config_go.Registration.{new_cell}
use easykafka_config_go.Detect.{partition_eof}
use easykafka_config_go.Loader.WarmUp.{Outcome, failed, loaded}
use easykafka_config_go.Loader.Start.{Bound, Script, built, conclude, start}
use easykafka_config_go.Loader.Start.AllOrNothing.{
  Concluded, Closes, conclude-Concluded, start-Closes,
}
use easykafka_config_go.Loader.Serve.{
  Worker, System, checking, polling, exited, must_stop, check, handle, binding_died, close,
  with_worker, loader_err, Step, checked, polled, died, closed, Started, Reach, later,
}
use easykafka_config_go.Loader.Serve
use easykafka_config_go.Loader.Serve.Stop.{calls_for, Reach-exited}
use easykafka_config_go.Loader.Serve.Wait.{wait_until_stopped, wait_until_stopped-Reach}
use easykafka_config_go.Tests.{registered, two_ends, both}

abbrev pub bound : Bound (Store ℕ ℕ) (Option ℕ)
bound = record { reg = registered; cell = new_cell new_store }

abbrev consumers : List ℕ
consumers = 7 ∷ 8 ∷ []

-- a binding that loaded and one whose topic was empty
abbrev outcomes : List Outcome
outcomes = loaded ∷ failed (sentinel empty_topic) ∷ []

conclude-Concluded_example :
    Concluded consumers outcomes (conclude consumers outcomes).0 (conclude consumers outcomes).1
conclude-Concluded_example = conclude-Concluded consumers outcomes

-- one consumer that is built, and one that is not
abbrev answers : List (Bytes × Result ℕ)
answers = (b'p' ∷ [], ok 7) ∷ (b'q' ∷ [], err (foreign 3)) ∷ []

abbrev pub scripts : List (Bound (Store ℕ ℕ) (Option ℕ) × Script)
scripts =
    (bound, record { assigned = ok both; turns = two_ends })
    ∷ (bound, record { assigned = err (foreign 4); turns = [] })
    ∷ []

start-Closes_example :
    Closes
      (built answers)
      (start (pos 0) partition_eof answers scripts).1.0
      (start (pos 0) partition_eof answers scripts).1.1
start-Closes_example = start-Closes (pos 0) partition_eof answers scripts

abbrev worker : Worker (Store ℕ ℕ)
worker = record {
  cell = record (new_cell new_store) { phase = Phase.steady };
  pc = checking;
  closes = 0;
}

-- two workers that Start has left serving
abbrev pub serving : System (Store ℕ ℕ)
serving = record { err = none; ctx_done = false; handled = []; workers = λ i. worker }

serving-Reach : Reach 2 (λ i. registered) true serving
serving-Reach = Serve.start (refl, refl, λ i. (refl, refl, refl))

abbrev about_to_poll : System (Store ℕ ℕ)
about_to_poll = with_worker serving 1 (check false worker)

about_to_poll-Reach : Reach 2 (λ i. registered) true about_to_poll
about_to_poll-Reach = later serving-Reach (checked 1 (omega arith) refl)

abbrev polled_worker : Worker (Store ℕ ℕ)
polled_worker = handle registered (failure (some (foreign 3)) true) 20 (check false worker)

abbrev pub fatal : Err
fatal = wrap (Context.binding registered.name) (foreign 3)

abbrev after_poll : System (Store ℕ ℕ)
after_poll = with_worker about_to_poll 1 polled_worker

abbrev after_death : System (Store ℕ ℕ)
after_death =
    with_worker (binding_died true fatal after_poll) 1 (record polled_worker { pc = Serve.closing })

abbrev after_close : System (Store ℕ ℕ)
after_close = with_worker after_death 1 (close (record polled_worker { pc = Serve.closing }))

poll_step : Step 2 (λ i. registered) true about_to_poll after_poll
unfolding check ℕ_discrete
poll_step = polled 1 (failure (some (foreign 3)) true) 20 (omega arith) refl

death_step : Step 2 (λ i. registered) true after_poll after_death
unfolding handle ℕ_discrete
death_step = died 1 fatal (omega arith) refl

close_step : Step 2 (λ i. registered) true after_death after_close
unfolding binding_died ℕ_discrete
close_step = closed 1 (omega arith) refl

after_death-Reach : Reach 2 (λ i. registered) true after_death
after_death-Reach = later (later about_to_poll-Reach poll_step) death_step

after_close-Reach : Reach 2 (λ i. registered) true after_close
after_close-Reach = later after_death-Reach close_step

Reach-exited_example :
    ((after_close.workers 1).closes ≡ 1)
    × ((after_close.workers 1).cell.phase ≡ Phase.stopped)
    × (must_stop after_close ≡ true)
unfolding close binding_died ℕ_discrete
Reach-exited_example = Reach-exited 2 (λ i. registered) true 1 after_close-Reach refl

-- the other worker sees the error at its next check, and closes
abbrev both_closing : System (Store ℕ ℕ)
both_closing = with_worker after_close 0 (check true worker)

abbrev pub both_closed : System (Store ℕ ℕ)
both_closed = with_worker both_closing 0 (close (check true worker))

see_step : Step 2 (λ i. registered) true after_close both_closing
unfolding binding_died ℕ_discrete
see_step = checked 0 (omega arith) refl

last_step : Step 2 (λ i. registered) true both_closing both_closed
unfolding check ℕ_discrete
last_step = closed 0 (omega arith) refl

pub both_closed-Reach : Reach 2 (λ i. registered) true both_closed
both_closed-Reach = later (later after_close-Reach see_step) last_step

wait_until_stopped-Reach_example :
    ((both_closed.workers 0).closes ≡ 1)
    × ((both_closed.workers 0).cell.phase ≡ Phase.stopped)
    × (both_closed.handled ≡ calls_for true (some fatal))
    × (¬ ((t : System (Store ℕ ℕ)) × Step 2 (λ i. registered) true both_closed t))
    × ((both_closed.ctx_done ≡ true) ⊎ (is_some (some fatal) ≡ true))
unfolding wait_until_stopped close binding_died ℕ_discrete
wait_until_stopped-Reach_example =
    wait_until_stopped-Reach 2 (λ i. registered) true 0 both_closed-Reach refl (omega arith)
