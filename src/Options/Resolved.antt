-- ===== src/Options/Resolved.antt =====
-- options.go: the configurations that NewLoader lets through, against the driver's validation.
use easykafka_config_go.Prelude.{
  ◌≡◌, refl, true, false, Option, none, some, List, [], ◌∷◌, map, any, is_empty, is_some, All,
  arith, ap,
}
use easykafka_config_go.Prelude.Words.{pos, leb_ℤ}
use easykafka_config_go.Errors.{Bytes, Result, ok, err, join_errors, none-join_errors}
use easykafka_config_go.Text.{is_blank}
use easykafka_config_go.Driver.Config
use easykafka_config_go.Driver.Config.{Value, is_reserved, reserved_errors, with_defaults}
use easykafka_config_go.Options.{
  LoaderConfig, Setting, complaints, validate, checked, new_loader_config, named_error, new_loader,
  apply_options, consumer_config, negative,
}

-- What a usable configuration has.
pub record Usable {L O H F : Type 0} (c : LoaderConfig L O H F) : Type 0 where
  pub some_broker : is_empty c.brokers ≡ false
  pub brokers_named : any is_blank c.brokers ≡ false
  pub group_named : is_blank c.group_id ≡ false
  pub detects : is_some c.detector ≡ true
  pub steady_positive : leb_ℤ c.steady_poll_timeout (pos 0) ≡ false
  pub warmup_bounded : negative c.warmup_timeout ≡ false
  pub observed : is_some c.observer ≡ true
  pub builds : is_some c.consumer_factory ≡ true

reserved_errors_of_All :
    (es : List (Bytes × Value)) → All (λ e. is_reserved e.0 ≡ false) es → reserved_errors es ≡ []
unfolding reserved_errors
reserved_errors_of_All [] h = refl
reserved_errors_of_All ((k, v) ∷ es) h = ground (arith, reserved_errors_of_All es h.1)

module _ {L O H F : Type 0} where
  Usable-of_complaints : (c : LoaderConfig L O H F) → complaints c ≡ [] → Usable c
  unfolding complaints
  Usable-of_complaints c h = record {
    some_broker = ground arith;
    brokers_named = ground arith;
    group_named = ground arith;
    detects = ground arith;
    steady_positive = ground arith;
    warmup_bounded = ground arith;
    observed = ground arith;
    builds = ground arith;
  }

  checked-ok :
      (r : Result (LoaderConfig L O H F)) (c : LoaderConfig L O H F)
      → checked r ≡ ok c
      → validate c ≡ none
  unfolding checked
  checked-ok (err e) c h = absurd (ground arith)
  checked-ok (ok c') c h = ground arith

  -- Whatever the options and the defaults, the configuration that NewLoader accepts is usable: it
  -- has a broker and no blank one, a group id, a detector, an observer, a consumer factory, a
  -- positive poll timeout and no negative warm-up bound; and the configuration that it gives the
  -- driver for a topic passes the driver's own validation, if the topic's name is not blank and no
  -- property of WithKafkaConfig is reserved.
  pub new_loader-Usable :
      (defaults : LoaderConfig L O H F) (opts : List (Option (Setting (LoaderConfig L O H F))))
      (c : LoaderConfig L O H F) (topic : Bytes)
      → new_loader defaults opts ≡ ok c
      → is_blank topic ≡ false
      → All (λ e. is_reserved e.0 ≡ false) (consumer_config topic c).extra
      → Usable c × (Config.validate (with_defaults (consumer_config topic c)) ≡ none)
  unfolding validate new_loader new_loader_config consumer_config with_defaults Config.validate
      Config.complaints join_errors
  new_loader-Usable defaults opts c topic h named free =
      let usable = Usable-of_complaints c (
        none-join_errors (complaints c) (
          checked-ok (apply_options opts defaults) c
            (by_config (new_loader_config defaults opts) h))) in
      (usable, ap (λ es. join_errors (map some es)) (nothing_wrong usable))
    where
      by_config : (r : Result (LoaderConfig L O H F)) → named_error r ≡ ok c → r ≡ ok c
      by_config (err e) k = absurd (ground arith)
      by_config (ok c') k = k

      nothing_wrong : Usable c → Config.complaints (with_defaults (consumer_config topic c)) ≡ []
      nothing_wrong u = ground (
        arith,
        u.some_broker,
        u.brokers_named,
        u.group_named,
        reserved_errors_of_All (consumer_config topic c).extra free,
      )
