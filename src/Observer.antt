-- ===== src/Observer.antt =====
-- observer.go: the calls that the loader makes on the Observer, as data. An observer is code of the
-- service: the model keeps the sequence of calls, and of the warnings of WithErrorLogging.
use easykafka_config_go.Prelude.{ℕ, Bool, Option, List, []}
use easykafka_config_go.Prelude.Words.{ℤ}
use easykafka_config_go.Errors.{Bytes, Err}
use easykafka_config_go.Text.{Slice}

pub data Phase : Type 0 where
  warmup steady stopped : Phase

-- A call of a method of Observer, with its arguments.
pub data Notice : Type 0 where
  on_upsert on_delete : (name : Bytes) (warmup : Bool) → Notice
  on_filtered : (name : Bytes) → Notice
  on_decode_error : (name : Bytes) (err : Err) (raw : Slice) → Notice
  on_key_mismatch : (name from_key from_value : Bytes) → Notice
  on_load_progress : (name : Bytes) (applied : ℤ) → Notice
  on_phase : (name : Bytes) (phase : Phase) (applied : ℤ) (took : ℕ) → Notice
  on_kafka_error : (name : Bytes) (err : Option Err) → Notice

-- A warning of the error logger.
pub data Warning : Type 0 where
  bad_key bad_payload : (name : Bytes) (err : Err) (key : Slice) → Warning
  keys_disagree : (name record_key payload_key : Bytes) → Warning

pub data Effect : Type 0 where
  notify : Notice → Effect
  warn : Warning → Effect

-- `BindingStats`; the zero `time.Time` is `none`.
pub record BindingStats : Type 0 where
  pub name : Bytes
  pub topic : Bytes
  pub phase : Phase
  pub size : ℤ
  pub upserts : ℕ
  pub deletes : ℕ
  pub filtered : ℕ
  pub decode_errors : ℕ
  pub warmup_applied : ℤ
  pub warmup_took : ℕ
  pub last_record_at : Option ℕ

-- `NopObserver`: what its methods do, in an observer that keeps a list of what it does
unfoldable pub nop_observer : {A : Type 0} → Notice → List A
nop_observer notice = []
