-- ===== src/Loader/WarmUp.antt =====
-- loader.go: `warmUpBinding`, the reading of one topic to its end, with `classify` and
-- `nameTimeout`. What the consumer, the context and the clock answer is a list of turns, one for
-- each round of the loop.
pub mod Laws
pub mod Ends
pub mod Records
pub mod Complete
pub mod Stops
pub mod Empty
pub mod Driven
pub mod Progress
pub mod Keeps
use easykafka_config_go.Prelude.{
  ℕ, ◌+◌, ◌%◌, ◌≡◌, Bool, true, false, ◌&&◌, not, Option, none, some, List, [], ◌∷◌, ◌==◌,
  if◌then◌else◌,
}
use easykafka_config_go.Prelude.Words.{ℤ, pos, negsuc, word_mod, signed, leb_ℤ}
use easykafka_config_go.Errors.{
  Bytes, Err, sentinel, problem, wrap, Context, Result, ok, err, is, deadline_exceeded,
  warmup_timeout, empty_topic,
}
use easykafka_config_go.Driver.Event.{Record, Event, record_read, eof, idle, failure}
use easykafka_config_go.Observer.{Phase, on_kafka_error, on_load_progress, on_phase}
use easykafka_config_go.Registration.{Cell, Registration, tell}
use easykafka_config_go.Detect.{Detector, Detection, begin, observe}

-- `loadProgressEvery`
abbrev pub load_progress_every : ℕ
load_progress_every = 100_000

-- One round: what `ctx.Err()` says, what the poll returns, the clock when the record is applied,
-- and the time since the start of warm-up.
pub record Turn : Type 0 where
  pub ctx_err : Option Err
  pub event : Event
  pub now : ℕ
  pub took : ℕ

-- What became of warm-up; `running` after the turns given.
pub data Outcome : Type 0 where
  running : Outcome
  failed : Err → Outcome
  loaded : Outcome

-- How a round of the loop ends: by a return or the `break`, or in the next round with the threshold
-- of the progress reports, the detection and the state.
pub data Next (S : Type 0) : Type 0 where
  stop : Cell S → Outcome → Next S
  go_on : ℕ → Detection → Cell S → Next S

abbrev pub positive : ℤ → Bool
positive (pos n) = not (n == 0)
positive (negsuc n) = false

-- `nameTimeout`, for the bound of WithWarmupTimeout in nanoseconds
unfoldable pub name_timeout : ℤ → Err → Err
name_timeout timeout e =
    if positive timeout && is deadline_exceeded e
    then wrap Context.after_duration (sentinel warmup_timeout)
    else e

-- `fmt.Errorf("…: %w", err)` of an error that may be nil
abbrev pub wrap_option : Context → Option Err → Err
wrap_option context none = wrap context (problem 0)
wrap_option context (some e) = wrap context e

module _ {S A : Type 0} (reg : Registration S A) where
  -- `classify`: Kafka errors go to the observer; the error, and whether it is fatal
  unfoldable pub classify : Event → Cell S → Cell S × (Option Err × Bool)
  classify (failure e fatal) c = (tell (on_kafka_error reg.name e) c, (e, fatal))
  classify _ c = (c, (none, false))

  -- `if rec, ok := event.(*driver.Record)` of the warm-up loop, with the progress reports; the
  -- threshold `progressAt` is an int, as its bit pattern
  unfoldable pub apply_warming : Event → ℕ → ℕ → Cell S → ℕ × Cell S
  apply_warming (record_read rec) now progress_at c =
      let c' = reg.apply rec now c in
      if leb_ℤ (signed progress_at) (signed c'.warmup_applied)
      then (
        (c'.warmup_applied + load_progress_every) % word_mod,
        tell (on_load_progress reg.name (signed c'.warmup_applied)) c',
      )
      else (progress_at, c')
  apply_warming _ now progress_at c = (progress_at, c)

  -- from the `break` of the loop on
  unfoldable pub finish : ℕ → Cell S → Cell S × Outcome
  finish took c =
      if c.warmup_applied == 0 && not reg.allow_empty
      then (c, failed (wrap (Context.binding_on_topic reg.name reg.topic) (sentinel empty_topic)))
      else (
        tell (on_phase reg.name Phase.steady (signed c.warmup_applied) took)
            (record c { warmup_took = took; phase = Phase.steady }),
        loaded,
      )

  module _ (timeout : ℤ) where
    -- the end of a round whose poll is not fatal
    unfoldable pub after_poll : Turn → Detection → ℕ × Cell S → Next S
    unfolding finish
    after_poll t d (progress_at, c) =
        let (d', done) = observe t.event d in
        let (c', outcome) = finish t.took c in
        if done then stop c' outcome else go_on progress_at d' c

    -- one round of the loop
    unfoldable pub round : ℕ → Detection → Turn → Cell S → Next S
    unfolding name_timeout classify apply_warming after_poll
    round progress_at d t c = elim t.ctx_err [
      | some e ↦ stop c (failed (wrap (Context.binding reg.name) (name_timeout timeout e)))
      | none ↦
          let (c', (e, fatal)) = classify t.event c in
          if fatal
          then stop c' (failed (wrap_option (Context.binding reg.name) e))
          else after_poll t d (apply_warming t.event t.now progress_at c')
    ]

    -- the loop, with the detection in progress
    unfoldable pub warm_loop : ℕ → Detection → List Turn → Cell S → Cell S × Outcome
    unfolding round
    warm_loop progress_at d [] c = (c, running)
    warm_loop progress_at d (t ∷ ts) c = elim (round progress_at d t c) [
      | stop c' outcome ↦ (c', outcome)
      | go_on progress' d' c' ↦ warm_loop progress' d' ts c'
    ]

    -- `warmUpBinding`; `assigned` is what AssignAll returns
    unfoldable pub warm_up_binding :
        Detector → Result (List ℕ) → List Turn → Cell S → Cell S × Outcome
    unfolding warm_loop
    warm_up_binding detector (err e) turns c =
        (c, failed (wrap (Context.binding reg.name) (name_timeout timeout e)))
    warm_up_binding detector (ok partitions) turns c = elim (begin detector partitions) [
      | err e ↦ (c, failed (wrap (Context.preparing_detection reg.name) e))
      | ok d ↦ warm_loop load_progress_every d turns c
    ]
