-- ===== src/Detect.antt =====
-- detect.go: when a topic has been read to its end. The one detector waits for the end of every
-- assigned partition.
pub mod Laws
use easykafka_config_go.Prelude.{
  ℕ, ◌+◌, Bool, true, false, not, ◌||◌, List, [], ◌∷◌, any, is_empty, ◌==◌, if◌then◌else◌,
}
use easykafka_config_go.Errors.{Result, ok}
use easykafka_config_go.Driver.Event.{Record, Event, record_read, eof, idle, failure}

-- The configuration half; nanoseconds.
pub data Detector : Type 0 where
  partition_eof : Detector

-- `DefaultWarmupPollTimeout`
abbrev pub default_warmup_poll_timeout : ℕ
default_warmup_poll_timeout = 500_000_000

unfoldable pub poll_timeout : Detector → ℕ
poll_timeout partition_eof = default_warmup_poll_timeout

-- The state half, `eofDetection`: a Go map used as a set of partitions.
pub record Detection : Type 0 where
  pub remaining : List ℕ

-- `delete(remaining, p)`
unfoldable pub discard : ℕ → List ℕ → List ℕ
discard p [] = []
discard p (x ∷ xs) = let rest = discard p xs in if x == p then rest else x ∷ rest

abbrev pub mem : ℕ → List ℕ → Bool
mem p xs = any (λ x. x == p) xs

-- the loop `for _, p := range partitions { remaining[p] = struct{}{} }`
unfoldable pub insert_all : List ℕ → List ℕ → List ℕ
insert_all [] set = set
insert_all (p ∷ ps) set = insert_all ps (if mem p set then set else p ∷ set)

-- `begin`; the consumer is not asked anything
unfoldable pub begin : Detector → List ℕ → Result Detection
unfolding insert_all
begin partition_eof partitions = ok (record { remaining = insert_all partitions [] })

-- the partitions left after an event
unfoldable pub after_event : Event → List ℕ → List ℕ
unfolding discard
after_event (eof p offset) rs = discard p rs
after_event _ rs = rs

-- `observe`: the new state, and whether warm-up is complete
unfoldable pub observe : Event → Detection → Detection × Bool
unfolding after_event
observe ev d = let rs = after_event ev d.remaining in (record { remaining = rs }, is_empty rs)
