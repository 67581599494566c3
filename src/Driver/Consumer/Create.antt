-- ===== src/Driver/Consumer/Create.antt =====
-- `New` of internal/driver/consumer.go: the client and the property map under a consumer.
use easykafka_config_go.Prelude.{◌≡◌, true, false, Option, none, some, List, [], arith}
use easykafka_config_go.Prelude.Words.{pos, leb_ℤ}
use easykafka_config_go.Errors.{Bytes, Err, Result, ok}
use easykafka_config_go.Text.{bytes, same_bytes}
use easykafka_config_go.Driver.Config.{
  Value, text, flag, Config, is_reserved, with_defaults, validate, build_config_map,
}
use easykafka_config_go.Driver.Config.Pinned.{entry, build_config_map-pinned}
use easykafka_config_go.Driver.Consumer.{Consumer, new, new_consumer}

-- The client's property map keeps the driver's guarantees.
pub record Pinned {M : Type 0} (get : Bytes → M → Option Value) (create : M → Option Err) (m : M)
    : Type 0 where
  pub created : create m ≡ none
  pub reports_eof : get (bytes "enable.partition.eof") m ≡ some (flag true)
  pub commits_nothing : get (bytes "enable.auto.commit") m ≡ some (flag false)
  pub stores_no_offset : get (bytes "enable.auto.offset.store") m ≡ some (flag false)
  pub from_beginning : get (bytes "auto.offset.reset") m ≡ some (text (bytes "earliest"))

positive-with_defaults :
    (c : Config)
    → (leb_ℤ (with_defaults c).metadata_timeout (pos 0) ≡ false)
      × (leb_ℤ (with_defaults c).error_log_interval (pos 0) ≡ false)
unfolding with_defaults
positive-with_defaults c = ground arith

-- What the driver relies on of `kafka.ConfigMap`, as in Driver.Config.Pinned.
module _ {M : Type 0} (of_list : List (Bytes × Value) → M) (set_key : Bytes → Value → M → Result M)
    (get : Bytes → M → Option Value)
    (get-of_list : (j : Bytes) (es : List (Bytes × Value)) → get j (of_list es) ≡ entry j es)
    (get-set_key : (j k : Bytes) (v : Value) (m m' : M)
      → set_key k v m ≡ ok m'
      → is_reserved j ≡ true
      → same_bytes j k ≡ false
      → get j m' ≡ get j m) where
  new-ok :
      (create : M → Option Err) (cfg : Config) (c : Consumer)
      → new of_list set_key create cfg ≡ ok c
      → (m : M) × (validate (with_defaults cfg) ≡ none)
        × (build_config_map of_list set_key (with_defaults cfg) ≡ ok m)
        × (create m ≡ none)
        × (c ≡ new_consumer (with_defaults cfg))
  unfolding new
  new-ok create cfg c h = ground arith

  -- A consumer that New returns stands on a client that was created without error from a property
  -- map that reports the end of a partition, commits and stores no offsets and starts at the
  -- beginning, whatever the configuration; it starts open, connected and with nothing assigned,
  -- and its metadata timeout and log interval are positive.
  pub new-Pinned :
      (create : M → Option Err) (cfg : Config) (c : Consumer)
      → new of_list set_key create cfg ≡ ok c
      → ((m : M) × Pinned get create m)
        × ((c.closed ≡ false) × (c.connected ≡ true) × (c.assigned ≡ []))
        × ((leb_ℤ c.cfg.metadata_timeout (pos 0) ≡ false)
            × (leb_ℤ c.cfg.error_log_interval (pos 0) ≡ false))
  unfolding new_consumer
  new-Pinned create cfg c h =
      let (m, valid, built, created, same) = new-ok create cfg c h in
      let p =
        build_config_map-pinned of_list set_key get get-of_list get-set_key (with_defaults cfg) m
          valid built in
      (
        (
          m,
          record {
            created = created;
            reports_eof = p.0;
            commits_nothing = p.1;
            stores_no_offset = p.2;
            from_beginning = p.3;
          },
        ),
        ground (arith, same),
        ground (arith, same, positive-with_defaults cfg),
      )
