-- ===== src/Quickstart/Setup.antt =====
-- examples/quickstart/main.go: the part of `run` before `Start`.
use easykafka_config_go.Prelude.{◌≡◌, refl, true, false, Option, none, some, [], ◌∷◌}
use easykafka_config_go.Prelude.Family.{update}
use easykafka_config_go.Errors.{Bytes, Result, ok, join_errors}
use easykafka_config_go.Text.{bytes, is_blank, trim_space, trim_left, trim_left_reversed}
use easykafka_config_go.Store.{Store, new_store}
use easykafka_config_go.Registration.{new_cell, registration_of}
use easykafka_config_go.Codec.{string_key, json_value}
use easykafka_config_go.Binding
use easykafka_config_go.Driver.Config
use easykafka_config_go.Options
use easykafka_config_go.Options.{LoaderConfig, default_loader_config, consumer_config, new_loader}
use easykafka_config_go.Loader.Start.Bind.{Heap, Loader, added, bind, claim}
use easykafka_config_go.Quickstart.{PlayerConfig, options, players}

-- the configuration that NewLoader makes
abbrev pub configured : {L O H F : Type 0} → L → O → F → O → H → LoaderConfig L O H F
configured logger nop_observer driver_new printing_observer handler =
    record (default_loader_config logger nop_observer driver_new) {
      brokers = bytes "localhost:9092" ∷ [];
      group_id = bytes "quickstart";
      observer = some printing_observer;
      on_fatal = some handler;
    }

module _ (unmarshal : Bytes → Result PlayerConfig) (dec : Discrete Bytes)
    (show : Bytes → Bytes) where
  -- the loader after Bind
  abbrev pub bound_loader : Loader (Store Bytes PlayerConfig) (Option PlayerConfig)
  bound_loader = record {
    regs =
        record {
          reg =
              registration_of dec show false (players unmarshal) string_key (json_value unmarshal);
          cell = new_cell 0;
        }
        ∷ [];
    started = false;
  }

  -- The example program comes as far as warm-up whatever its environment: NewLoader accepts its
  -- options, with the printing observer and the fatal handler in the place of the defaults, the
  -- driver accepts the configuration that is made from them for its topic, Bind accepts its binding
  -- over a new store, and Start then goes on to build the consumers.
  pub options-accepted :
      {L O H F : Type 0} (logger : L) (nop_observer : O) (driver_new : F) (printing_observer : O)
      (handler : H) (heap : Heap (Store Bytes PlayerConfig))
      → let cfg = configured logger nop_observer driver_new printing_observer handler in
        (new_loader
            (default_loader_config logger nop_observer driver_new)
            (options printing_observer handler)
          ≡ ok cfg)
        × (Config.validate
              (Config.with_defaults (consumer_config (bytes "player-config.compact") cfg))
            ≡ none)
        × (bind dec show false (players unmarshal) 0 heap (record { regs = []; started = false })
            ≡ (update heap 0 new_store, added bound_loader))
        × (claim bound_loader ≡ (record bound_loader { started = true }, none))
  unfolding new_loader options default_loader_config Options.validate is_blank trim_space trim_left
      trim_left_reversed join_errors consumer_config Config.validate Config.with_defaults players
      Binding.validate bind claim
  options-accepted logger nop_observer driver_new printing_observer handler heap =
      (refl, refl, refl, refl)
