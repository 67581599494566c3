-- ===== src/Loader/Serve.antt =====
-- loader.go: the serving goroutines, `serveBinding` for each binding, interleaved in any order, with
-- `bindingDied` and `Err`. They share the loader's `err` and the context; each
-- owns its consumer, its store and its counters.
pub mod Stop
pub mod Ends
pub mod Applied
pub mod Wait
pub mod Driven
pub mod Keeps
pub mod Counted
pub mod Fleet
use easykafka_config_go.Prelude.{
  ℕ, ◌+◌, ◌<◌, ◌≡◌, Bool, true, false, ◌||◌, Option, none, some, List, [], ◌∷◌, ◌++◌, is_some,
  if◌then◌else◌,
}
use easykafka_config_go.Prelude.Family.{update}
use easykafka_config_go.Errors.{Err, Context}
use easykafka_config_go.Driver.Event.{Record, Event, record_read}
use easykafka_config_go.Observer.{Phase}
use easykafka_config_go.Registration.{Cell, Registration}
use easykafka_config_go.Loader.WarmUp.{classify, wrap_option}

-- Where a goroutine stands in `serveBinding`.
pub data Pc : Type 0 where
  checking : Pc  -- at the head of the loop
  polling : Pc  -- before the poll
  dying : Err → Pc  -- before `bindingDied`
  closing : Pc  -- at the deferred function
  exited : Pc

pub record Worker (S : Type 0) : Type 0 where
  pub cell : Cell S
  pub pc : Pc
  pub closes : ℕ  -- how often the consumer's Close has been called

-- `handled` are the calls of the fatal handler.
pub record System (S : Type 0) : Type 0 where
  pub err : Option Err
  pub ctx_done : Bool
  pub handled : List Err
  pub workers : ℕ → Worker S

-- `ctx.Err() != nil || l.Err() != nil`
abbrev pub must_stop : {S : Type 0} → System S → Bool
must_stop s = s.ctx_done || is_some s.err

-- the check between two polls
unfoldable pub check : {S : Type 0} → Bool → Worker S → Worker S
check stop_now w = record w { pc = if stop_now then closing else polling }

-- `if rec, ok := event.(*driver.Record); ok { reg.apply(rec) }`
unfoldable pub apply_serving : {S A : Type 0} → Registration S A → Event → ℕ → Cell S → Cell S
apply_serving reg (record_read rec) now c = reg.apply rec now c
apply_serving reg _ now c = c

-- a poll that returned the event, with what is done about it before the next shared access
unfoldable pub handle : {S A : Type 0} → Registration S A → Event → ℕ → Worker S → Worker S
unfolding classify apply_serving
handle reg event now w =
    let (c, (e, fatal)) = classify reg event w.cell in
    if fatal
    then record w { cell = c; pc = dying (wrap_option (Context.binding reg.name) e) }
    else record w { cell = apply_serving reg event now c; pc = checking }

-- `bindingDied`: the compare-and-swap, and the handler if the swap was made
unfoldable pub binding_died : {S : Type 0} → Bool → Err → System S → System S
binding_died has_handler e s = elim s.err [
  | none ↦ record s {
    err = some e;
    handled = if has_handler then s.handled ++ e ∷ [] else s.handled;
  }
  | some first ↦ s
]

-- the deferred function: the phase, then the consumer's Close
unfoldable pub close : {S : Type 0} → Worker S → Worker S
close w = record w {
  cell = record w.cell { phase = Phase.stopped };
  pc = exited;
  closes = w.closes + 1;
}

-- `Err`
abbrev pub loader_err : {S : Type 0} → System S → Option Err
loader_err s = s.err

-- the system with worker `i` replaced
abbrev pub with_worker : {S : Type 0} → System S → ℕ → Worker S → System S
with_worker s i w = record s { workers = update s.workers i w }

-- `n` workers, with their registrations, and whether WithFatalHandler was given
module _ {S A : Type 0} (n : ℕ) (regs : ℕ → Registration S A) (has_handler : Bool) where
  -- One step of one goroutine.
  pub data Step (s : System S) : System S → Type 0 where
    checked :
        (i : ℕ)
        → i < n
        → (s.workers i).pc ≡ checking
        → Step s (with_worker s i (check (must_stop s) (s.workers i)))
    polled :
        (i : ℕ) (event : Event) (now : ℕ)
        → i < n
        → (s.workers i).pc ≡ polling
        → Step s (with_worker s i (handle (regs i) event now (s.workers i)))
    died :
        (i : ℕ) (e : Err)
        → i < n
        → (s.workers i).pc ≡ dying e
        → Step s
            (with_worker (binding_died has_handler e s) i (record (s.workers i) { pc = closing }))
    closed :
        (i : ℕ)
        → i < n
        → (s.workers i).pc ≡ closing
        → Step s (with_worker s i (close (s.workers i)))

  -- What `Start` leaves behind: every worker at the head of its loop, warmed up.
  abbrev pub Started : System S → Type 0
  Started s =
      (s.err ≡ none)
      × (s.handled ≡ [])
      × ((i : ℕ)
          → ((s.workers i).pc ≡ checking)
            × ((s.workers i).closes ≡ 0)
            × ((s.workers i).cell.phase ≡ Phase.steady))

  -- The states reached; `cancelled` is the caller's cancelling of the context.
  pub data Reach : System S → Type 0 where
    start : {s : System S} → Started s → Reach s
    later : {s t : System S} → Reach s → Step s t → Reach t
    cancelled : {s : System S} → Reach s → Reach (record s { ctx_done = true })
