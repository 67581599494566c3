-- ===== src/Tests.antt =====
-- A small binding, its records and its turns: the concrete data of the tests and examples.
pub mod Stores
pub mod WarmUps
pub mod Serving
pub mod Drivers
pub mod Wiring
pub mod Composed
pub mod Services
pub mod Live
pub mod Lost
pub mod Views
pub mod Quickstart
use easykafka_config_go.Prelude.{
  ℕ, ◌≡◌, refl, Bool, true, false, not, Option, none, some, List, [], ◌∷◌, ◌==◌, ℕ_discrete, ite,
}
use easykafka_config_go.Prelude.Words.{ℤ, pos}
use easykafka_config_go.Errors.{Bytes, Err, sentinel, Result, ok, err, invalid_syntax}
use easykafka_config_go.Text.{Slice}
use easykafka_config_go.Driver.Event.{Record, Event, record_read, eof, idle, failure}
use easykafka_config_go.Binding.{Binding}
use easykafka_config_go.Store.{Store}
use easykafka_config_go.Registration.{Registration, registration_of}
use easykafka_config_go.Loader.WarmUp.{Turn}

-- a key of one byte
abbrev pub byte_key : Slice → Result ℕ
byte_key (some (x ∷ xs)) = ok x
byte_key _ = err (sentinel invalid_syntax)

-- a value of one byte
abbrev pub byte_value : Slice → Result (Option ℕ)
byte_value (some (x ∷ xs)) = ok (some x)
byte_value _ = err (sentinel invalid_syntax)

abbrev pub show_key : ℕ → Bytes
show_key k = k ∷ []

-- a binding that keeps all keys but 9
abbrev pub prices : Binding ℕ ℕ
prices = record {
  name = b'p' ∷ [];
  topic = b't' ∷ [];
  decode_key = some byte_key;
  decode_value = some byte_value;
  key_from_value = none;
  verify_key_agreement = false;
  filter = some (λ k v. not (k == 9));
  tombstone = none;
  allow_empty = false;
}

abbrev pub registered : Registration (Store ℕ ℕ) (Option ℕ)
registered = registration_of ℕ_discrete show_key true prices byte_key byte_value

abbrev pub record_of : Bytes → Bytes → Record
record_of key payload = record {
  topic = b't' ∷ [];
  partition = 0;
  offset = pos 0;
  key = some key;
  payload = some payload;
  timestamp = 0;
}

-- Writes key 1, writes key 2, writes key 1 again, deletes key 2, is filtered, and does not decode.
abbrev pub topic_records : List (Record × ℕ)
topic_records =
    (record_of (1 ∷ []) (65 ∷ []), 10)
    ∷ (record_of (2 ∷ []) (66 ∷ []), 11)
    ∷ (record_of (1 ∷ []) (67 ∷ []), 12)
    ∷ (record_of (2 ∷ []) [], 13)
    ∷ (record_of (9 ∷ []) (68 ∷ []), 14)
    ∷ (record_of [] (69 ∷ []), 15)
    ∷ []

abbrev pub turn : Event → Turn
turn event = record { ctx_err = none; event = event; now = 10; took = 7 }

-- Two partitions read to their ends.
abbrev pub two_ends : List Turn
two_ends =
    turn (record_read (record_of (1 ∷ []) (65 ∷ [])))
    ∷ turn idle
    ∷ turn (eof 0 (pos 1))
    ∷ turn (failure none false)
    ∷ turn (record_read (record_of (2 ∷ []) (66 ∷ [])))
    ∷ turn (eof 1 (pos 1))
    ∷ []

abbrev pub both : List ℕ
both = 0 ∷ 1 ∷ []
