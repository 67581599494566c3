-- ===== src/Quickstart.antt =====
-- examples/quickstart/main.go: the example program, by what the loader answers. The lines that it
-- prints are data; `unmarshal` is json.Unmarshal into a PlayerConfig.
pub mod Setup
pub mod Exit
use easykafka_config_go.Prelude.{
  ℕ, ◌+◌, ◌-◌, ◌%◌, Bool, true, false, Option, none, some, List, [], ◌∷◌, ◌++◌, map, if◌then◌else◌,
  ltb,
}
use easykafka_config_go.Prelude.Words.{ℤ, sign_mod}
use easykafka_config_go.Errors.{Bytes, Err, wrap, Context, Result, ok, err}
use easykafka_config_go.Text.{bytes, Slice}
use easykafka_config_go.Codec.{string_key, json_value}
use easykafka_config_go.Observer.{
  Phase, Notice, on_upsert, on_delete, on_decode_error, on_phase, nop_observer,
}
use easykafka_config_go.Binding.{Binding}
use easykafka_config_go.Options.{
  LoaderConfig, Setting, with_brokers, with_client_group_id, with_observer, with_fatal_handler,
}

-- `PlayerConfig`
pub record PlayerConfig : Type 0 where
  pub player_id : Bytes
  pub limit : ℤ

-- A line that the program prints.
pub data Line : Type 0 where
  loading stopped_cleanly : Line
  loaded_entries : ℤ → Line
  entry : Bytes → ℤ → Line
  loader_failed : Err → Line
  upserted deleted : Bytes → Line
  skipped : Bytes → Err → Slice → Line
  phase_reached : Bytes → Phase → ℤ → ℕ → Line

abbrev millisecond : ℕ
millisecond = 1_000_000

-- `took.Round(time.Millisecond)` of a duration that is not negative
unfoldable pub round_to_millisecond : ℕ → ℕ
round_to_millisecond took =
    let r = took % millisecond in
    let up = took + (millisecond - r) in
    if ltb (r + r) millisecond then took - r else (if ltb up sign_mod then up else sign_mod - 1)

-- `printingObserver`: its own methods, and those of NopObserver that it embeds
unfoldable pub printed : Notice → List Line
unfolding round_to_millisecond nop_observer
printed (on_upsert name warmup) = if warmup then [] else upserted name ∷ []
printed (on_delete name warmup) = if warmup then [] else deleted name ∷ []
printed (on_decode_error name e raw) = skipped name e raw ∷ []
printed (on_phase name phase applied took) =
    phase_reached name phase applied (round_to_millisecond took) ∷ []
printed notice = nop_observer notice

-- the arguments of `NewLoader`
unfoldable pub options : {L O H F : Type 0} → O → H → List (Option (Setting (LoaderConfig L O H F)))
unfolding with_brokers with_client_group_id with_observer with_fatal_handler
options printing_observer handler =
    some (with_brokers (bytes "localhost:9092" ∷ []))
    ∷ some (with_client_group_id (bytes "quickstart"))
    ∷ some (with_observer (some printing_observer))
    ∷ some (with_fatal_handler (some handler))
    ∷ []

-- the argument of `Bind`
unfoldable pub players : (Bytes → Result PlayerConfig) → Binding Bytes PlayerConfig
unfolding string_key json_value
players unmarshal = record {
  name = bytes "PlayerConfig";
  topic = bytes "player-config.compact";
  decode_key = some string_key;
  decode_value = some (json_value unmarshal);
  key_from_value = none;
  verify_key_agreement = false;
  filter = none;
  tombstone = none;
  allow_empty = true;
}

-- the loop over `players.All()`, or none where it dereferences a nil pointer
unfoldable pub entry_lines : List (Bytes × Option PlayerConfig) → Option (List Line)
entry_lines [] = some []
entry_lines ((key, none) ∷ visited) = none
entry_lines ((key, some cfg) ∷ visited) = elim (entry_lines visited) [
  | none ↦ none
  | some lines ↦ some (entry key cfg.limit ∷ lines)
]

-- the end of `run`, after `<-ctx.Done()`, by what WaitUntilStopped returns
unfoldable pub after_done : Option Err → List Line × Option Err
after_done (some e) = ([], some (wrap Context.detail e))
after_done none = (stopped_cleanly ∷ [], none)

-- `run`, by what NewLoader, Start, Len, All and WaitUntilStopped return: what it prints itself and
-- its error, or none where it panics
unfoldable pub run :
    {C : Type 0}
    → Result C
    → Option Err
    → ℤ
    → List (Bytes × Option PlayerConfig)
    → Option Err
    → Option (List Line × Option Err)
unfolding entry_lines after_done
run (err e) started size visited stopped = some ([], some (wrap Context.detail e))
run (ok loader) (some e) size visited stopped = some (loading ∷ [], some (wrap Context.detail e))
run (ok loader) none size visited stopped = elim (entry_lines visited) [
  | none ↦ none
  | some lines ↦
      let (last, result) = after_done stopped in
      some (loading ∷ loaded_entries size ∷ lines ++ last, result)
]

-- the fatal handler: the line that it prints; it then cancels the context
abbrev pub handler_lines : List Err → List Line
handler_lines es = map loader_failed es

-- `main`: the exit status, by what `run` returns; log.Fatal exits with status 1
unfoldable pub main : Option Err → ℕ
main none = 0
main (some e) = 1
