-- ===== src/Loader/WarmUp/Records.antt =====
-- The records that a warm-up of loader.go polls, and their writes.
use easykafka_config_go.Prelude.{ℕ, ◌≡◌, refl, Bool, Option, List, [], ◌∷◌, ◌++◌, arith}
use easykafka_config_go.Errors.{Bytes, Result}
use easykafka_config_go.Text.{Slice}
use easykafka_config_go.Driver.Event.{Record, record_read}
use easykafka_config_go.Binding.{Binding}
use easykafka_config_go.Store.History.{Write}
use easykafka_config_go.Registration.Replay.{writes}
use easykafka_config_go.Loader.WarmUp.{Turn}

-- the records among the polls, each with the time at which it is applied
abbrev pub records : List Turn → List (Record × ℕ)
records [] = []
records (t ∷ ts) = elim t.event [ record_read rec ↦ (rec, t.now) ∷ records ts | _ ↦ records ts ]

pub records-append : (xs ys : List Turn) → records (xs ++ ys) ≡ records xs ++ records ys
records-append [] ys = refl
records-append (t ∷ xs) ys = ground (arith, records-append xs ys)

-- the writes of the records among the polls
abbrev pub effects :
    {K V : Type 0}
    → Discrete K
    → (K → Bytes)
    → Bool
    → Binding K V
    → (Slice → Result K)
    → (Slice → Result (Option V))
    → List Turn
    → List (Write K V)
effects dec show log_errors b decode_key decode_value ts =
    writes dec show log_errors b decode_key decode_value (records ts)
