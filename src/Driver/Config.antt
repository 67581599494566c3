-- ===== src/Driver/Config.antt =====
-- internal/driver/config.go, and `buildConfigMap` of consumer.go: the configuration of one consumer
-- and the librdkafka properties made from it.
pub mod Pinned
use easykafka_config_go.Prelude.{
  ℕ, Bool, true, false, ◌||◌, Option, none, some, List, [], ◌∷◌, ◌++◌, map, any, is_empty,
  if◌then◌else◌,
}
use easykafka_config_go.Prelude.Words.{ℤ, pos, leb_ℤ}
use easykafka_config_go.Errors.{Bytes, Err, problem, Result, ok, err, join_errors, wrap, Context}
use easykafka_config_go.Text.{bytes, is_blank, same_bytes}

-- A property's value, `any` in Go; `other` is a value of some further type.
pub data Value : Type 0 where
  text : Bytes → Value
  number : ℕ → Value
  flag : Bool → Value
  other : ℕ → Value

-- `Config`, without its Logger; durations are nanoseconds. The map `extra` is the list of its
-- entries, in the order of the range loops.
pub record Config : Type 0 where
  pub brokers : List Bytes
  pub topic : Bytes
  pub group_id : Bytes
  pub security_protocol : Bytes
  pub sasl_mechanism : Bytes
  pub sasl_username : Bytes
  pub sasl_password : Bytes
  pub metadata_timeout : ℤ
  pub error_log_interval : ℤ
  pub extra : List (Bytes × Value)

abbrev pub default_metadata_timeout : ℤ
default_metadata_timeout = pos 5_000_000_000

abbrev pub default_error_log_interval : ℤ
default_error_log_interval = pos 30_000_000_000

-- `reservedKeys`, without the reasons
abbrev pub reserved_keys : List Bytes
reserved_keys =
    bytes "bootstrap.servers"
    ∷ bytes "group.id"
    ∷ bytes "auto.offset.reset"
    ∷ bytes "enable.auto.commit"
    ∷ bytes "enable.auto.offset.store"
    ∷ bytes "enable.partition.eof"
    ∷ []

unfoldable pub is_reserved : Bytes → Bool
is_reserved key = any (same_bytes key) reserved_keys

-- `withDefaults`
unfoldable pub with_defaults : Config → Config
with_defaults c = record c {
  metadata_timeout =
      if leb_ℤ c.metadata_timeout (pos 0) then default_metadata_timeout else c.metadata_timeout;
  error_log_interval =
      if leb_ℤ c.error_log_interval (pos 0)
      then default_error_log_interval
      else c.error_log_interval;
}

-- `if bad { errs = append(errs, …) }`
abbrev pub complain : Bool → List Err
complain bad = if bad then problem 0 ∷ [] else []

-- the loop over `Extra`
unfoldable pub reserved_errors : List (Bytes × Value) → List Err
reserved_errors [] = []
reserved_errors ((key, value) ∷ extra) =
    let rest = reserved_errors extra in
    if is_reserved key then wrap Context.detail (problem 0) ∷ rest else rest

-- The errors that `validate` collects; the loop over the brokers stops at the first blank one.
unfoldable pub complaints : Config → List Err
unfolding reserved_errors
complaints c =
    complain (is_empty c.brokers)
    ++ (complain (any is_blank c.brokers)
        ++ (complain (is_blank c.topic)
            ++ (complain (is_blank c.group_id) ++ reserved_errors c.extra)))

-- `validate`
unfoldable pub validate : Config → Option Err
unfolding complaints
validate c = join_errors (map some (complaints c))

-- `strings.Join(parts, ",")`
unfoldable pub join_commas : List Bytes → Bytes
join_commas [] = []
join_commas (part ∷ []) = part
join_commas (part ∷ next ∷ parts) = part ++ (b',' ∷ join_commas (next ∷ parts))

-- The literal of `buildConfigMap`.
unfoldable pub base_properties : Config → List (Bytes × Value)
unfolding join_commas
base_properties c =
    (bytes "bootstrap.servers", text (join_commas c.brokers))
    ∷ (bytes "group.id", text c.group_id)
    ∷ (bytes "enable.auto.commit", flag false)
    ∷ (bytes "enable.auto.offset.store", flag false)
    ∷ (bytes "auto.offset.reset", text (bytes "earliest"))
    ∷ (bytes "enable.partition.eof", flag true)
    ∷ (bytes "reconnect.backoff.ms", number 100)
    ∷ (bytes "reconnect.backoff.max.ms", number 10_000)
    ∷ []

-- the SASL properties, in one order of the range loop
abbrev pub sasl_properties : Config → List (Bytes × Value)
sasl_properties c =
    (bytes "security.protocol", text c.security_protocol)
    ∷ (bytes "sasl.mechanism", text c.sasl_mechanism)
    ∷ (bytes "sasl.username", text c.sasl_username)
    ∷ (bytes "sasl.password", text c.sasl_password)
    ∷ []

-- `M` is `kafka.ConfigMap`; `of_list` makes one of the entries of a literal, and `set_key` is its
-- method SetKey.
module _ {M : Type 0} (of_list : List (Bytes × Value) → M)
    (set_key : Bytes → Value → M → Result M) where
  -- a loop that calls SetKey for each entry, and returns at the first error
  unfoldable pub set_keys : List (Bytes × Value) → M → Result M
  set_keys [] m = ok m
  set_keys ((key, value) ∷ entries) m = elim (set_key key value m) [
    | err e ↦ err (wrap Context.detail e)
    | ok m' ↦ set_keys entries m'
  ]

  -- the literal, and the SASL properties if a security protocol is set
  unfoldable pub with_sasl : Config → Result M
  unfolding set_keys
  with_sasl c =
      let base = of_list (base_properties c) in
      if is_empty c.security_protocol then ok base else set_keys (sasl_properties c) base

  -- `buildConfigMap`
  unfoldable pub build_config_map : Config → Result M
  unfolding with_sasl
  build_config_map c = elim (with_sasl c) [ err e ↦ err e | ok m ↦ set_keys c.extra m ]
