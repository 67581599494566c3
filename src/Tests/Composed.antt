-- ===== src/Tests/Composed.antt =====
-- Warm-ups, starts and serving composed, at concrete inputs.
use mathlib.Core.List.{lookup}
use easykafka_config_go.Prelude.{
  ℕ, ◌≡◌, ◌%◌, refl, ◌≤◌, true, false, none, some, List, [], ◌∷◌, length, arith, ℕ_discrete,
}
use easykafka_config_go.Prelude.Words.{pos, word_mod}
use easykafka_config_go.Errors.{ok}
use easykafka_config_go.Text.{is_blank, trim_space, trim_left, trim_left_reversed}
use easykafka_config_go.Codec.{tombstone_on_blank_payload}
use easykafka_config_go.Driver.Event.{record_read}
use easykafka_config_go.Store.{Store, new_store}
use easykafka_config_go.Registration.{stats, Cell, new_cell, apply_func, rejected, registration_of}
use easykafka_config_go.Detect.{partition_eof, begin, observe}
use easykafka_config_go.Loader.WarmUp.{loaded, warm_up_binding}
use easykafka_config_go.Loader.WarmUp.Driven.{Round, warm_up_driven}
use easykafka_config_go.Loader.WarmUp.Driven.Loaded.{ReadWhole, warm_up_driven-ReadWhole}
use easykafka_config_go.Loader.WarmUp.Progress.Paced.{Reported}
use easykafka_config_go.Loader.WarmUp.Progress.Reports.{warm_up_binding-Reported}
use easykafka_config_go.Observer.{Phase}
use easykafka_config_go.Registration.Accounting.{
  total, upsert_weight, delete_weight, filtered_weight, error_weight,
}
use easykafka_config_go.Loader.Serve
use easykafka_config_go.Loader.Serve.{
  System, Step, Reach, checking, check, handle, with_worker, later, checked, polled,
}
use easykafka_config_go.Loader.Serve.Applied.{origin}
use easykafka_config_go.Loader.Serve.Counted.{stats-Tallied}
use easykafka_config_go.Tests.{
  byte_key, byte_value, show_key, prices, registered, record_of, two_ends, both,
}
use easykafka_config_go.Driver.Consumer
use easykafka_config_go.Driver.Consumer.{KafkaEvent, message, nothing}
use easykafka_config_go.Tests.Drivers.{fresh, metadata, accepts}
use easykafka_config_go.Tests.WarmUps.{loaded_cell}

warm_up_binding-Reported_example :
    Reported loaded_cell × (loaded_cell.warmup_applied ≤ length two_ends)
warm_up_binding-Reported_example =
    warm_up_binding-Reported ℕ_discrete show_key true prices byte_key byte_value (pos 0)
      partition_eof (ok both) two_ends new_store (omega arith)

-- one binding, just handed over by its warm-up
abbrev handed_over : System (Store ℕ ℕ)
handed_over = record {
  err = none;
  ctx_done = false;
  handled = [];
  workers = λ i. record { cell = loaded_cell; pc = checking; closes = 0 };
}

abbrev about_to_poll : System (Store ℕ ℕ)
about_to_poll = with_worker handed_over 0 (check false (handed_over.workers 0))

abbrev updated : System (Store ℕ ℕ)
updated =
    with_worker about_to_poll 0
      (handle registered (record_read (record_of (2 ∷ []) (70 ∷ []))) 20 (about_to_poll.workers 0))

loaded_steady : loaded_cell.phase ≡ Phase.steady
unfolding warm_up_binding begin observe registration_of apply_func tombstone_on_blank_payload
    is_blank trim_space trim_left trim_left_reversed rejected ℕ_discrete new_store lookup
loaded_steady = refl

abbrev began : Reach 1 (λ i. registered) true handed_over
began = Serve.start (refl, refl, λ i. (refl, refl, loaded_steady))

check_step : Step 1 (λ i. registered) true handed_over about_to_poll
check_step = checked 0 (omega arith) refl

poll_step : Step 1 (λ i. registered) true about_to_poll updated
unfolding check ℕ_discrete
poll_step = polled 0 (record_read (record_of (2 ∷ []) (70 ∷ []))) 20 (omega arith) refl

stats-Tallied_example :
    let c = (updated.workers 0).cell in
    ((stats registered c).upserts ≡ total upsert_weight c.trace % word_mod)
    × ((stats registered c).deletes ≡ total delete_weight c.trace % word_mod)
    × ((stats registered c).filtered ≡ total filtered_weight c.trace % word_mod)
    × ((stats registered c).decode_errors ≡ total error_weight c.trace % word_mod)
unfolding origin
stats-Tallied_example =
    stats-Tallied ℕ_discrete show_key true (λ i. prices) (λ i. byte_key) (λ i. byte_value) (pos 0)
      partition_eof (λ i. record { assigned = ok both; turns = two_ends }) (λ i. new_store)
      (later (later began check_step) poll_step) (λ i. refl) 0

abbrev pub round_of : KafkaEvent → Round
round_of event = record { ctx_err = none; polled_at = 3; kafka = event; now = 10; took = 7 }

-- what the client returns of a topic with two partitions, and one message more
abbrev pub rounds : List Round
rounds =
    round_of (message none 0 (pos 0) (some (1 ∷ [])) (some (65 ∷ [])) 0)
    ∷ round_of nothing
    ∷ round_of (Consumer.partition_eof 0 (pos 1))
    ∷ round_of (Consumer.partition_eof 1 (pos 0))
    ∷ round_of (message none 0 (pos 1) (some (1 ∷ [])) (some (66 ∷ [])) 0)
    ∷ []

abbrev pub driven_cell : Cell (Store ℕ ℕ)
driven_cell =
    (warm_up_driven registered (pos 0) partition_eof none metadata accepts rounds fresh
      (new_cell new_store)).0

driven_loaded :
    warm_up_driven registered
      (pos 0)
      partition_eof
      none
      metadata
      accepts
      rounds
      fresh
      (new_cell new_store)
    ≡ (driven_cell, loaded)
unfolding warm_up_driven warm_up_binding easykafka_config_go.Driver.Consumer.Assign.assign_all
    Consumer.new_consumer begin Consumer.poll Consumer.dispatch observe Consumer.note_connected
    registration_of ℕ_discrete apply_func tombstone_on_blank_payload is_blank trim_space trim_left
    trim_left_reversed rejected new_store lookup
driven_loaded = refl

warm_up_driven-ReadWhole_example :
    ReadWhole ℕ_discrete show_key true prices byte_key byte_value metadata accepts fresh rounds
      driven_cell
warm_up_driven-ReadWhole_example =
    warm_up_driven-ReadWhole ℕ_discrete show_key true prices byte_key byte_value metadata accepts
      fresh (pos 0) none rounds driven_cell driven_loaded
