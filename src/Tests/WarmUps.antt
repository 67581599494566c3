-- ===== src/Tests/WarmUps.antt =====
-- Warm-ups at concrete inputs.
use mathlib.Core.List.{lookup}
use easykafka_config_go.Prelude.{
  ℕ, ◌≡◌, refl, true, ◌&&◌, ◌||◌, some, List, [], ◌∷◌, ◌++◌, ℕ_discrete,
}
use easykafka_config_go.Prelude.Words.{pos}
use easykafka_config_go.Errors.{
  sentinel, foreign, wrap, Context, ok, is, deadline_exceeded, warmup_timeout, empty_topic,
}
use easykafka_config_go.Text.{is_blank, trim_space, trim_left, trim_left_reversed}
use easykafka_config_go.Codec.{tombstone_on_blank_payload}
use easykafka_config_go.Driver.Event.{record_read, eof, idle, failure}
use easykafka_config_go.Observer.{on_kafka_error}
use easykafka_config_go.Store.{Store, new_store}
use easykafka_config_go.Registration.{
  Cell, new_cell, tell, apply_func, rejected, final_key, registration_of,
}
use easykafka_config_go.Registration.Replay.{writes, write_of}
use easykafka_config_go.Detect.{partition_eof, begin, observe}
use easykafka_config_go.Loader.WarmUp.{
  Turn, failed, load_progress_every, name_timeout, positive, wrap_option, warm_up_binding,
}
use easykafka_config_go.Loader.WarmUp.Laws.{warmed}
use easykafka_config_go.Loader.WarmUp.Ends.{Ended}
use easykafka_config_go.Loader.WarmUp.Complete.{WholeTopic, warm_up_binding-WholeTopic}
use easykafka_config_go.Loader.WarmUp.Stops.{
  warm_up_binding-Ended, warm_up_binding-interrupted, warm_up_binding-fatal,
}
use easykafka_config_go.Loader.WarmUp.Empty.{warm_up_binding-empty}
use easykafka_config_go.Tests.{
  byte_key, byte_value, show_key, prices, registered, record_of, turn, two_ends, both,
}

abbrev pub loaded_cell : Cell (Store ℕ ℕ)
loaded_cell =
    (warm_up_binding registered (pos 0) partition_eof (ok both) two_ends (new_cell new_store)).0

warm_up_binding-WholeTopic_example :
    WholeTopic ℕ_discrete show_key true prices byte_key byte_value both two_ends loaded_cell
unfolding warm_up_binding begin observe registration_of apply_func tombstone_on_blank_payload
    is_blank trim_space trim_left trim_left_reversed rejected ℕ_discrete new_store lookup
warm_up_binding-WholeTopic_example =
    warm_up_binding-WholeTopic ℕ_discrete show_key true prices byte_key byte_value (pos 0) both
      two_ends loaded_cell refl

abbrev heard : List Turn
heard = turn idle ∷ turn (record_read (record_of (9 ∷ []) (68 ∷ []))) ∷ turn (eof 0 (pos 1)) ∷ []

abbrev at_end : Turn
at_end = turn (eof 1 (pos 0))

warm_up_binding-Ended_example :
    Ended registered
      (pos 0)
      (warm_up_binding registered
        (pos 0)
        partition_eof
        (ok both)
        ((at_end ∷ heard) ++ two_ends)
        (new_cell new_store)).1
warm_up_binding-Ended_example =
    warm_up_binding-Ended registered (pos 0) both at_end heard two_ends (new_cell new_store)
      ((refl, refl), ((refl, refl), ((refl, refl), ((refl, refl), tt)))) (refl, (refl, tt))

-- the deadline of WithWarmupTimeout has passed
abbrev late : Turn
late = record (turn idle) { ctx_err = some (sentinel deadline_exceeded) }

warm_up_binding-interrupted_example :
    (warm_up_binding registered
        (pos 5)
        partition_eof
        (ok both)
        (heard ++ late ∷ two_ends)
        (new_cell new_store)
      ≡ (
        warmed registered load_progress_every heard (new_cell new_store),
        failed (
            wrap
              (Context.binding registered.name)
              (name_timeout (pos 5) (sentinel deadline_exceeded))),
      ))
    × (is warmup_timeout (
          wrap
            (Context.binding registered.name)
            (name_timeout (pos 5) (sentinel deadline_exceeded)))
        ≡ (positive (pos 5) && is deadline_exceeded (sentinel deadline_exceeded))
          || is warmup_timeout (sentinel deadline_exceeded))
warm_up_binding-interrupted_example =
    warm_up_binding-interrupted registered (pos 5) both heard two_ends late (new_cell new_store) 1
      ((refl, refl), ((refl, refl), ((refl, refl), tt))) refl refl refl

abbrev broken : Turn
broken = turn (failure (some (foreign 3)) true)

warm_up_binding-fatal_example :
    warm_up_binding registered
      (pos 0)
      partition_eof
      (ok both)
      (heard ++ broken ∷ two_ends)
      (new_cell new_store)
    ≡ (
      tell
          (on_kafka_error registered.name (some (foreign 3)))
          (warmed registered load_progress_every heard (new_cell new_store)),
      failed (wrap_option (Context.binding registered.name) (some (foreign 3))),
    )
warm_up_binding-fatal_example =
    warm_up_binding-fatal registered (pos 0) both heard two_ends broken (new_cell new_store) 1
      ((refl, refl), ((refl, refl), ((refl, refl), tt))) refl refl refl refl

-- a topic with one record, which the filter rejects
warm_up_binding-empty_example :
    (warm_up_binding registered
      (pos 0)
      partition_eof
      (ok both)
      ((at_end ∷ heard) ++ [])
      (new_cell new_store)).1
    ≡ failed (wrap (Context.binding_on_topic prices.name prices.topic) (sentinel empty_topic))
unfolding writes write_of tombstone_on_blank_payload is_blank trim_space trim_left
    trim_left_reversed rejected final_key
warm_up_binding-empty_example =
    warm_up_binding-empty ℕ_discrete show_key true prices byte_key byte_value (pos 0) both at_end
      heard [] ((refl, refl), ((refl, refl), ((refl, refl), ((refl, refl), tt)))) (refl, (refl, tt))
      refl refl
