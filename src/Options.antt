-- ===== src/Options.antt =====
-- options.go: the resolved configuration of a loader, the options that write it, and the driver's
-- configuration made from it. The types of the logger, the observer, the fatal handler and the
-- consumer factory are parameters; a nil one is `none`.
pub mod Resolved
use easykafka_config_go.Prelude.{
  ℕ, Bool, true, false, ◌||◌, not, Option, none, some, List, [], ◌∷◌, ◌++◌, map, any, is_empty,
  is_some, if◌then◌else◌,
}
use easykafka_config_go.Prelude.Words.{ℤ, pos, negsuc, leb_ℤ}
use easykafka_config_go.Errors.{Bytes, Err, problem, wrap, Context, Result, ok, err, join_errors}
use easykafka_config_go.Text.{bytes, is_blank, same_bytes}
use easykafka_config_go.Detect.{Detector, partition_eof}
use easykafka_config_go.Driver.Config
use easykafka_config_go.Driver.Config.{Value, default_metadata_timeout}

-- `loaderConfig`; of the driver's configuration in `security` only the SASL fields are used.
-- Durations are nanoseconds.
pub record LoaderConfig (L O H F : Type 0) : Type 0 where
  pub brokers : List Bytes
  pub group_id : Bytes
  pub kafka : Option (List (Bytes × Value))
  pub security_protocol : Bytes
  pub sasl_mechanism : Bytes
  pub sasl_username : Bytes
  pub sasl_password : Bytes
  pub detector : Option Detector
  pub steady_poll_timeout : ℤ
  pub warmup_timeout : ℤ
  pub metadata_timeout : ℤ
  pub logger : L
  pub observer : Option O
  pub on_fatal : Option H
  pub log_errors : Bool
  pub consumer_factory : Option F

-- `DefaultSteadyPollTimeout`
abbrev pub default_steady_poll_timeout : ℤ
default_steady_poll_timeout = pos 100_000_000

-- d < 0
abbrev pub negative : ℤ → Bool
negative (pos n) = false
negative (negsuc n) = true

abbrev complain : Bool → List Err
complain bad = if bad then problem 0 ∷ [] else []

-- the entries of a map that may be nil
abbrev pub entries_of : Option (List (Bytes × Value)) → List (Bytes × Value)
entries_of none = []
entries_of (some m) = m

-- `maps.Copy(m, entries)`, on the entries of a map
unfoldable pub set_entry : Bytes → Value → List (Bytes × Value) → List (Bytes × Value)
set_entry key value [] = (key, value) ∷ []
set_entry key value ((k, v) ∷ m) =
    let rest = set_entry key value m in if same_bytes key k then (key, value) ∷ m else (k, v) ∷ rest

unfoldable pub copy_entries : List (Bytes × Value) → List (Bytes × Value) → List (Bytes × Value)
unfolding set_entry
copy_entries m [] = m
copy_entries m ((key, value) ∷ entries) = copy_entries (set_entry key value m) entries

-- `Option`: what it makes of the configuration, or its error
abbrev pub Setting : Type 0 → Type 0
Setting C = C → Result C

module _ {L O H F : Type 0} where
  -- `defaultLoaderConfig`, with the zero logger, `NopObserver{}` and `driver.New`
  unfoldable pub default_loader_config : L → O → F → LoaderConfig L O H F
  default_loader_config logger nop_observer driver_new = record {
    brokers = [];
    group_id = bytes "easykafka-config-go";
    kafka = none;
    security_protocol = [];
    sasl_mechanism = [];
    sasl_username = [];
    sasl_password = [];
    detector = some partition_eof;
    steady_poll_timeout = default_steady_poll_timeout;
    warmup_timeout = pos 0;
    metadata_timeout = default_metadata_timeout;
    logger = logger;
    observer = some nop_observer;
    on_fatal = none;
    log_errors = false;
    consumer_factory = some driver_new;
  }

  -- The errors that `validate` collects; the loop over the brokers stops at the first blank one.
  unfoldable pub complaints : LoaderConfig L O H F → List Err
  complaints c =
      complain (is_empty c.brokers)
      ++ (complain (any is_blank c.brokers)
          ++ (complain (is_blank c.group_id)
              ++ (complain (not (is_some c.detector))
                  ++ (complain (leb_ℤ c.steady_poll_timeout (pos 0))
                      ++ (complain (negative c.warmup_timeout)
                          ++ (complain (not (is_some c.observer))
                              ++ complain (not (is_some c.consumer_factory))))))))

  -- `validate`
  unfoldable pub validate : LoaderConfig L O H F → Option Err
  unfolding complaints
  validate c = join_errors (map some (complaints c))

  -- an option that checks its argument first
  abbrev guarded :
      Bool → (LoaderConfig L O H F → LoaderConfig L O H F) → Setting (LoaderConfig L O H F)
  guarded bad set c = if bad then err (problem 0) else ok (set c)

  unfoldable pub with_brokers : List Bytes → Setting (LoaderConfig L O H F)
  with_brokers brokers = guarded (is_empty brokers) (λ c. record c { brokers = brokers })

  unfoldable pub with_client_group_id : Bytes → Setting (LoaderConfig L O H F)
  with_client_group_id id = guarded (is_blank id) (λ c. record c { group_id = id })

  unfoldable pub with_sasl : Bytes → Bytes → Bytes → Bytes → Setting (LoaderConfig L O H F)
  with_sasl protocol mechanism username password = guarded (is_blank protocol) (λ c. record c {
    security_protocol = protocol;
    sasl_mechanism = mechanism;
    sasl_username = username;
    sasl_password = password;
  })

  -- `WithKafkaConfig`; the argument is nil or the entries of a map
  unfoldable pub with_kafka_config : Option (List (Bytes × Value)) → Setting (LoaderConfig L O H F)
  unfolding copy_entries
  with_kafka_config none c = err (problem 0)
  with_kafka_config (some entries) c =
      ok (record c { kafka = some (copy_entries (entries_of c.kafka) entries) })

  unfoldable pub with_initial_load_detector : Option Detector → Setting (LoaderConfig L O H F)
  with_initial_load_detector d = guarded (not (is_some d)) (λ c. record c { detector = d })

  unfoldable pub with_steady_poll_timeout : ℤ → Setting (LoaderConfig L O H F)
  with_steady_poll_timeout d = guarded (leb_ℤ d (pos 0)) (λ c. record c { steady_poll_timeout = d })

  unfoldable pub with_warmup_timeout : ℤ → Setting (LoaderConfig L O H F)
  with_warmup_timeout d = guarded (negative d) (λ c. record c { warmup_timeout = d })

  unfoldable pub with_metadata_timeout : ℤ → Setting (LoaderConfig L O H F)
  with_metadata_timeout d = guarded (leb_ℤ d (pos 0)) (λ c. record c { metadata_timeout = d })

  unfoldable pub with_logger : L → Setting (LoaderConfig L O H F)
  with_logger logger c = ok (record c { logger = logger })

  unfoldable pub with_observer : Option O → Setting (LoaderConfig L O H F)
  with_observer o = guarded (not (is_some o)) (λ c. record c { observer = o })

  unfoldable pub with_fatal_handler : Option H → Setting (LoaderConfig L O H F)
  with_fatal_handler h = guarded (not (is_some h)) (λ c. record c { on_fatal = h })

  unfoldable pub with_error_logging : Setting (LoaderConfig L O H F)
  with_error_logging c = ok (record c { log_errors = true })

  unfoldable pub with_consumer_factory : Option F → Setting (LoaderConfig L O H F)
  with_consumer_factory f = guarded (not (is_some f)) (λ c. record c { consumer_factory = f })

  -- `errorLogger`, with `zerolog.Nop()`
  unfoldable pub error_logger : L → LoaderConfig L O H F → L
  error_logger disabled c = if c.log_errors then c.logger else disabled

  -- `consumerConfig`
  unfoldable pub consumer_config : Bytes → LoaderConfig L O H F → Config.Config
  consumer_config topic c = record {
    brokers = c.brokers;
    topic = topic;
    group_id = c.group_id;
    security_protocol = c.security_protocol;
    sasl_mechanism = c.sasl_mechanism;
    sasl_username = c.sasl_username;
    sasl_password = c.sasl_password;
    metadata_timeout = c.metadata_timeout;
    error_log_interval = pos 0;
    extra = entries_of c.kafka;
  }

  -- the loop of `newLoaderConfig`; an option may be nil
  unfoldable pub apply_options :
      List (Option (Setting (LoaderConfig L O H F)))
      → LoaderConfig L O H F
      → Result (LoaderConfig L O H F)
  apply_options [] c = ok c
  apply_options (none ∷ opts) c = err (problem 1)
  apply_options (some opt ∷ opts) c = elim (opt c) [ err e ↦ err e | ok c' ↦ apply_options opts c' ]

  -- the end of `newLoaderConfig`
  unfoldable pub checked : Result (LoaderConfig L O H F) → Result (LoaderConfig L O H F)
  unfolding validate
  checked (err e) = err e
  checked (ok c) = elim (validate c) [ some e ↦ err e | none ↦ ok c ]

  -- `newLoaderConfig`, over the defaults
  unfoldable pub new_loader_config :
      LoaderConfig L O H F
      → List (Option (Setting (LoaderConfig L O H F)))
      → Result (LoaderConfig L O H F)
  unfolding apply_options checked
  new_loader_config defaults opts = checked (apply_options opts defaults)

  -- the error of `NewLoader`
  abbrev pub named_error : Result (LoaderConfig L O H F) → Result (LoaderConfig L O H F)
  named_error (err e) = err (wrap Context.package_name e)
  named_error (ok c) = ok c

  -- `NewLoader`: the configuration of the new loader
  unfoldable pub new_loader :
      LoaderConfig L O H F
      → List (Option (Setting (LoaderConfig L O H F)))
      → Result (LoaderConfig L O H F)
  unfolding new_loader_config
  new_loader defaults opts = named_error (new_loader_config defaults opts)
