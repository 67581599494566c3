-- ===== src/Driver/Event.antt =====
-- internal/driver/event.go: what one poll returns.
use easykafka_config_go.Prelude.{ℕ, Bool, Option}
use easykafka_config_go.Prelude.Words.{ℤ}
use easykafka_config_go.Errors.{Bytes, Err}
use easykafka_config_go.Text.{Slice}

pub record Record : Type 0 where
  pub topic : Bytes
  pub partition : ℕ  -- int32, only compared
  pub offset : ℤ
  pub key : Slice
  pub payload : Slice
  pub timestamp : ℕ

-- The closed set of results; `err` of a failure may be nil.
pub data Event : Type 0 where
  record_read : Record → Event
  eof : (partition : ℕ) (offset : ℤ) → Event
  idle : Event
  failure : (err : Option Err) (fatal : Bool) → Event
