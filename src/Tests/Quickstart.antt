-- ===== src/Tests/Quickstart.antt =====
-- The example program at concrete inputs.
use mathlib.Core.List.{List-discrete, lookup}
use mathlib.Core.Option
use easykafka_config_go.Prelude.{
  length, ℕ, ◌≡◌, refl, Option, none, some, List, [], ◌∷◌, arith, ℕ_discrete,
}
use easykafka_config_go.Prelude.Words.{pos}
use easykafka_config_go.Errors.{Bytes, Result, ok, wrap, Context}
use easykafka_config_go.Text.{bytes, is_blank, trim_space, trim_left, trim_left_reversed}
use easykafka_config_go.Codec.{tombstone_on_blank_payload, string_key, json_value}
use easykafka_config_go.Driver.Event.{Record}
use easykafka_config_go.Store.{new_store}
use easykafka_config_go.Store.Iterate.Racing.{Reflects}
use easykafka_config_go.Registration.{apply_func, rejected}
use easykafka_config_go.Loader.Serve.Wait.{wait_until_stopped}
use easykafka_config_go.Quickstart.{PlayerConfig, Line, run, main, players, handler_lines}
use easykafka_config_go.Quickstart.Exit.{store_of, writes_in, failure_lines, run-after_done}
use easykafka_config_go.Tests.{registered}
use easykafka_config_go.Tests.Serving.{both_closed, both_closed-Reach, fatal}

abbrev same_bytes : Discrete Bytes
same_bytes = List-discrete ℕ_discrete

abbrev show_bytes : Bytes → Bytes
show_bytes k = k

-- stands in for json.Unmarshal: a player whose limit is the number of bytes
abbrev unmarshal : Bytes → Result PlayerConfig
unmarshal bs = ok (record { player_id = bs; limit = pos 7 })

abbrev player : ℕ → Record
player key = record {
  topic = bytes "player-config.compact";
  partition = 0;
  offset = pos 0;
  key = some (key ∷ []);
  payload = some (65 ∷ []);
  timestamp = 0;
}

-- one player in the store, and another one written while the program walks over it
abbrev first_player : List (Record × ℕ)
first_player = (player 1, 10) ∷ []

abbrev second_player : List (Record × ℕ)
second_player = (player 2, 20) ∷ []

abbrev seen : List (Bytes × Option PlayerConfig)
seen = (1 ∷ [], some (record { player_id = 65 ∷ []; limit = pos 7 })) ∷ []

seen-Reflects :
    Reflects same_bytes
      (store_of same_bytes show_bytes unmarshal first_player)
      (writes_in same_bytes show_bytes unmarshal second_player)
      seen
unfolding easykafka_config_go.Registration.Replay.replay apply_func tombstone_on_blank_payload
    is_blank trim_space trim_left trim_left_reversed rejected new_store lookup players string_key
    json_value easykafka_config_go.Store.History.run easykafka_config_go.Store.put
seen-Reflects = record { once = (refl, tt); some_point = λ q. ([], _, refl, refl) }

run-after_done_example :
    (lines : List Line) × (run {C = ℕ} (ok 7) none (pos 1) seen (some fatal)
      ≡ some (lines, Option.map (wrap Context.detail) (some fatal)))
    × (handler_lines both_closed.handled ≡ failure_lines (some fatal))
    × (main (Option.map (wrap Context.detail) (some fatal))
        ≡ length (handler_lines both_closed.handled))
unfolding wait_until_stopped easykafka_config_go.Loader.Serve.close
    easykafka_config_go.Loader.Serve.binding_died ℕ_discrete
run-after_done_example =
    run-after_done same_bytes show_bytes unmarshal 2 (λ i. registered) 0 7 (pos 1) first_player
      second_player seen seen-Reflects both_closed-Reach refl (omega arith)
