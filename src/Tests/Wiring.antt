-- ===== src/Tests/Wiring.antt =====
-- Bindings and options at concrete inputs.
use easykafka_config_go.Prelude.{
  ltb, leb, ℕ, ℕ_discrete, arith, true, false, ◌≡◌, refl, ◌↔◌, Option, none, some, List, [], ◌∷◌,
  is_some, ◌==◌, if◌then◌else◌,
}
use easykafka_config_go.Prelude.Words.{pos, negsuc, sign_mod}
use easykafka_config_go.Errors.{ok, is_option, invalid_binding, join_errors}
use easykafka_config_go.Text.{bytes, is_blank, trim_space, trim_left, trim_left_reversed}
use easykafka_config_go.Codec.{int_key, int64_key}
use easykafka_config_go.Codec.Numbers.{value, negative, in_range, int64_key-value}
use easykafka_config_go.Binding
use easykafka_config_go.Binding.Checked as BindingChecked
use easykafka_config_go.Driver.Config
use easykafka_config_go.Driver.Config.{with_defaults}
use easykafka_config_go.Options.{
  LoaderConfig, Setting, default_loader_config, with_brokers, with_warmup_timeout, consumer_config,
  validate, new_loader,
}
use easykafka_config_go.Options.Resolved.{Usable, new_loader-Usable}
use easykafka_config_go.Codec.Decimal.{format_int, int64_key-format_int}
use easykafka_config_go.Store.{Store, new_store}
use easykafka_config_go.Registration.{new_cell}
use easykafka_config_go.Loader.Start.Bind.{Loader}
use easykafka_config_go.Loader.Start.Lookup.{Taken, bind_to-Taken}
use easykafka_config_go.Store.History.{write, run}
use easykafka_config_go.Registration.{rejected, final_key}
use easykafka_config_go.Registration.Replay.{write_of, writes}
use easykafka_config_go.Codec.{tombstone_on_blank_payload}
use easykafka_config_go.Loader.Start.Bind.{Address}
use easykafka_config_go.Loader.Start.Sharing
use easykafka_config_go.Loader.Start.Sharing.{Memory, Call, apply_all, writes_to, heap-apply_all}
use easykafka_config_go.Tests.{prices, registered, show_key, record_of, byte_key, byte_value}

validate-Usable_example :
    ((Binding.validate prices ≡ none) ↔ BindingChecked.Usable prices)
    × (is_option invalid_binding (Binding.validate prices) ≡ is_some (Binding.validate prices))
validate-Usable_example = BindingChecked.validate-Usable prices

abbrev defaults : LoaderConfig ℕ ℕ ℕ ℕ
defaults = default_loader_config 1 2 3

abbrev opts : List (Option (Setting (LoaderConfig ℕ ℕ ℕ ℕ)))
opts = some (with_brokers (bytes "a" ∷ [])) ∷ some (with_warmup_timeout (pos 5)) ∷ []

abbrev resolved : LoaderConfig ℕ ℕ ℕ ℕ
resolved = record defaults { brokers = bytes "a" ∷ []; warmup_timeout = pos 5 }

new_loader-Usable_example :
    Usable resolved
    × (Config.validate (with_defaults (consumer_config (bytes "t") resolved)) ≡ none)
unfolding new_loader with_brokers with_warmup_timeout default_loader_config validate is_blank
    trim_space trim_left trim_left_reversed join_errors consumer_config
new_loader-Usable_example = new_loader-Usable defaults opts resolved (bytes "t") refl refl tt

int64_key-value_example :
    (int64_key (some (b'1' ∷ b'2' ∷ []))
      ≡ in_range (ltb (value 0 (b'1' ∷ b'2' ∷ [])) sign_mod) (pos (value 0 (b'1' ∷ b'2' ∷ []))))
    × (int64_key (some (b'-' ∷ b'1' ∷ b'2' ∷ []))
        ≡ in_range
            (leb (value 0 (b'1' ∷ b'2' ∷ [])) sign_mod)
            (negative (value 0 (b'1' ∷ b'2' ∷ []))))
    × (int_key (some (b'1' ∷ b'2' ∷ [])) ≡ int64_key (some (b'1' ∷ b'2' ∷ [])))
    × (int_key (some (b'-' ∷ b'1' ∷ b'2' ∷ [])) ≡ int64_key (some (b'-' ∷ b'1' ∷ b'2' ∷ [])))
int64_key-value_example = int64_key-value b'1' (b'2' ∷ []) refl

int64_key-format_int_example :
    (int64_key (some (format_int (negsuc 41))) ≡ ok (negsuc 41))
    × (int_key (some (format_int (negsuc 41))) ≡ ok (negsuc 41))
int64_key-format_int_example = int64_key-format_int (negsuc 41) (omega arith)

abbrev empty_loader : Loader (Store ℕ ℕ) (Option ℕ)
empty_loader = record { regs = []; started = false }

abbrev one_binding : Loader (Store ℕ ℕ) (Option ℕ)
one_binding = record { regs = record { reg = registered; cell = new_cell 7 } ∷ []; started = false }

bind_to-Taken_example : Taken ℕ_discrete show_key true prices 7 empty_loader one_binding
unfolding easykafka_config_go.Loader.Start.Bind.bind_to Binding.validate join_errors is_blank
bind_to-Taken_example =
    bind_to-Taken ℕ_discrete show_key true prices 7 empty_loader one_binding refl

-- Two registrations over the store at 7, and one over the store at 8.
abbrev addresses : ℕ → Address
addresses i = if i == 2 then 8 else 7

abbrev three : Memory (Store ℕ ℕ)
three = record { heap = λ a. new_store; cells = λ i. new_cell (addresses i) }

-- a record for each, and one more for the first
abbrev calls : List Call
calls =
    (0, (record_of (1 ∷ []) (65 ∷ []), 10))
    ∷ (2, (record_of (1 ∷ []) (66 ∷ []), 11))
    ∷ (1, (record_of (1 ∷ []) (67 ∷ []), 12))
    ∷ (0, (record_of (2 ∷ []) (68 ∷ []), 13))
    ∷ []

heap-apply_all_example :
    (apply_all
        (Sharing.regs ℕ_discrete show_key true (λ i. prices) (λ i. byte_key) (λ i. byte_value))
        calls
        three).heap
      7
    ≡ run ℕ_discrete
        (writes_to ℕ_discrete show_key true
          (λ i. prices)
          (λ i. byte_key)
          (λ i. byte_value)
          addresses
          7
          calls)
        new_store
heap-apply_all_example =
    heap-apply_all ℕ_discrete show_key true (λ i. prices) (λ i. byte_key) (λ i. byte_value) calls
      three 7

-- what is read there
shared_store :
    run ℕ_discrete
      (writes_to ℕ_discrete show_key true
        (λ i. prices)
        (λ i. byte_key)
        (λ i. byte_value)
        addresses
        7
        calls)
      new_store
    ≡ run ℕ_discrete (write 1 (some 65) ∷ write 1 (some 67) ∷ write 2 (some 68) ∷ []) new_store
unfolding writes_to writes write_of tombstone_on_blank_payload is_blank trim_space trim_left
    trim_left_reversed rejected final_key ℕ_discrete
shared_store = refl
