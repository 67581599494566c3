-- ===== src/Driver/Consumer/Connection.antt =====
-- internal/driver/consumer.go: the connection as the log tells it, read line by line.
use easykafka_config_go.Prelude.{
  ℕ, ◌≡◌, refl, Bool, true, false, Option, none, some, List, [], ◌∷◌, ◌++◌, arith, Bool-cases, inl,
  inr,
}
use easykafka_config_go.Prelude.Words.{ℤ}
use easykafka_config_go.Errors.{Err}
use easykafka_config_go.Driver.Config.{Config}
use easykafka_config_go.Driver.Throttle.{allow}
use easykafka_config_go.Driver.Consumer.{
  Line, fatal_error, connection_lost, still_unreachable, non_fatal_error, connection_restored,
  Consumer, Code, is_unreachable, KafkaEvent, message, partition_eof, kafka_error, nothing,
  unhandled, new_consumer, log_throttled, note_error, classify_error, note_connected, dispatch,
  poll,
}

-- Whether the broker is reachable according to one more line; `none` where the line does not fit.
abbrev pub read_line : Line → Bool → Option Bool
read_line fatal_error connected = some connected
read_line (non_fatal_error n) connected = some connected
read_line connection_lost true = some false
read_line connection_lost false = none
read_line connection_restored true = none
read_line connection_restored false = some true
read_line (still_unreachable n) true = none
read_line (still_unreachable n) false = some false

-- The lines read in order, the connection being up before the first.
unfoldable pub read_log : List Line → Bool → Option Bool
read_log [] connected = some connected
read_log (l ∷ ls) connected = elim (read_line l connected) [ none ↦ none | some b ↦ read_log ls b ]

-- The consumer after polls at the given times, with what the client's Poll returns.
unfoldable pub poll_all : List (ℕ × KafkaEvent) → Consumer → Consumer
poll_all [] c = c
poll_all ((now, event) ∷ polls) c = poll_all polls (poll now event c).0

read_log-snoc :
    (ls : List Line) (l : Line) (b : Bool) {d : Bool}
    → read_log ls b ≡ some d
    → read_log (ls ++ l ∷ []) b ≡ read_line l d
unfolding read_log
read_log-snoc [] l b h = ground arith
read_log-snoc (x ∷ ls) l b {d} h =
    by_line (read_line x b) refl (λ d'. read_log-snoc ls l d' {d = d})
  where
    by_line :
        (r : Option Bool)
        → read_line x b ≡ r
        → ((d' : Bool) → read_log ls d' ≡ some d → read_log (ls ++ l ∷ []) d' ≡ read_line l d)
        → read_log (x ∷ (ls ++ l ∷ [])) b ≡ read_line l d
    by_line none e ih = ground (arith, e)
    by_line (some d') e ih = ground (arith, e, ih d')

-- The log agrees with the flag `connected`.
abbrev pub Told : Consumer → Type 0
Told c = read_log c.lines true ≡ some c.connected

log_throttled-Told :
    (now : ℕ) (line : ℤ → Line) (c : Consumer)
    → ((n : ℤ) → read_line (line n) c.connected ≡ some c.connected)
    → Told c
    → Told (log_throttled now line c)
unfolding log_throttled
log_throttled-Told now line c fits h =
    let answer = (allow now c.err_log).1 in
    ground (arith, read_log-snoc c.lines (line answer.1) true h, fits answer.1)

note_error-Told : (now : ℕ) (code : Code) (c : Consumer) → Told c → Told (note_error now code c)
unfolding note_error
note_error-Told now code c h = elim (Bool-cases (is_unreachable code)) [
  | inl unreachable ↦ elim (Bool-cases c.connected) [
    | inl up ↦ ground (arith, unreachable, up, read_log-snoc c.lines connection_lost true h)
    | inr down ↦ ground (
      arith,
      unreachable,
      down,
      log_throttled-Told now still_unreachable c (λ n. ground (arith, down)) h,
    )
  ]
  | inr other ↦ rw other (log_throttled-Told now non_fatal_error c (λ n. refl) h)
]

note_connected-Told : (c : Consumer) → Told c → Told (note_connected c)
unfolding note_connected
note_connected-Told c h = ground (arith, read_log-snoc c.lines connection_restored true h)

classify_error-Told :
    (now : ℕ) (e : Err) (is_fatal : Bool) (code : Code) (c : Consumer)
    → Told c
    → Told (classify_error now e is_fatal code c).0
unfolding classify_error
classify_error-Told now e true code c h = read_log-snoc c.lines fatal_error true h
classify_error-Told now e false code c h = note_error-Told now code c h

dispatch-Told :
    (now : ℕ) (event : KafkaEvent) (c : Consumer) → Told c → Told (dispatch now event c).0
unfolding dispatch
dispatch-Told now (message topic p o k v ts) c h = note_connected-Told c h
dispatch-Told now (partition_eof p o) c h = note_connected-Told c h
dispatch-Told now (kafka_error e f code) c h = classify_error-Told now e f code c h
dispatch-Told now nothing c h = h
dispatch-Told now unhandled c h = h

poll-Told : (now : ℕ) (event : KafkaEvent) (c : Consumer) → Told c → Told (poll now event c).0
unfolding poll
poll-Told now event c h = elim (Bool-cases c.closed) [
  | inl gone ↦ ground (arith, gone)
  | inr here ↦ ground (arith, here, dispatch-Told now event c h)
]

poll_all-Told : (polls : List (ℕ × KafkaEvent)) (c : Consumer) → Told c → Told (poll_all polls c)
unfolding poll_all
poll_all-Told [] c h = h
poll_all-Told ((now, event) ∷ polls) c h = poll_all-Told polls _ (poll-Told now event c h)

-- Whatever a new consumer's polls return and whenever they are made, the log tells the connection
-- faithfully: losses and recoveries alternate, beginning with a loss, "still unreachable" stands
-- only between a loss and a recovery, and after the last line the consumer's flag says what the
-- log says.
pub poll_all-read_log :
    (cfg : Config) (polls : List (ℕ × KafkaEvent))
    → read_log (poll_all polls (new_consumer cfg)).lines true
      ≡ some (poll_all polls (new_consumer cfg)).connected
unfolding new_consumer read_log
poll_all-read_log cfg polls = poll_all-Told polls _ refl
