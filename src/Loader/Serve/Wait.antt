-- ===== src/Loader/Serve/Wait.antt =====
-- `WaitUntilStopped` of loader.go: the wait for the serving goroutines, and the end that it sees.
use easykafka_config_go.Prelude.{
  ℕ, ℕ_discrete, zero, suc, ◌+◌, ◌*◌, ◌≤◌, ◌<◌, ◌≡◌, refl, ap, ◌∙◌, ◌≢◌, ◌⊎◌, inl, inr, Bool, true,
  false, ◌&&◌, ◌||◌, Option, none, some, if◌then◌else◌, arith, Bool-cases, is_some,
}
use easykafka_config_go.Errors.{Err}
use easykafka_config_go.Observer.{Phase}
use easykafka_config_go.Registration.{Registration}
use easykafka_config_go.Loader.Serve.{
  Pc, checking, polling, dying, closing, exited, Worker, System, must_stop, loader_err, Step,
  checked, polled, died, closed, Reach,
}
use easykafka_config_go.Loader.Serve.Stop.{calls_for, Reach-exited, Reach-handled}
use easykafka_config_go.Loader.Serve.Ends.{
  Run, done, more, total, total-le, Run-total, Step-total, Step-enabled,
}

abbrev pub has_exited : Pc → Bool
has_exited exited = true
has_exited _ = false

-- the WaitGroup `serving` of `n` goroutines is at zero
unfoldable pub all_exited : {S : Type 0} → ℕ → (ℕ → Worker S) → Bool
all_exited zero workers = true
all_exited (suc n) workers = has_exited (workers n).pc && all_exited n workers

-- `WaitUntilStopped`: what it returns, or none while it blocks
unfoldable pub wait_until_stopped : {S : Type 0} → ℕ → System S → Option (Option Err)
unfolding all_exited
wait_until_stopped n s = if all_exited n s.workers then some (loader_err s) else none

exited_of : (pc : Pc) → has_exited pc ≡ true → pc ≡ exited
exited_of exited h = refl
exited_of checking h = absurd (ground arith)
exited_of polling h = absurd (ground arith)
exited_of (dying e) h = absurd (ground arith)
exited_of closing h = absurd (ground arith)

all_exited-at :
    {S : Type 0} (n : ℕ) (workers : ℕ → Worker S) (i : ℕ)
    → all_exited n workers ≡ true
    → i < n
    → (workers i).pc ≡ exited
unfolding all_exited
all_exited-at zero workers i h lt = absurd (omega (arith, lt))
all_exited-at (suc n) workers i h lt = elim (ℕ_discrete i n) [
  | yes e ↦ ap (λ j. (workers j).pc) e ∙ exited_of (workers n).pc (ground arith)
  | no ne ↦ all_exited-at n workers i (ground arith) (omega (arith, lt, ne))
]

-- Some goroutine has not exited, or all have.
pub running_or_exited :
    {S : Type 0} (n : ℕ) (workers : ℕ → Worker S)
    → (all_exited n workers ≡ true) ⊎ ((i : ℕ) × ((i < n) × ((workers i).pc ≢ exited)))
unfolding all_exited
running_or_exited zero workers = inl refl
running_or_exited (suc n) workers = elim (Bool-cases (has_exited (workers n).pc)) [
  | inr running ↦ inr (n, (omega arith, λ e. absurd (ground arith)))
  | inl last ↦ elim (running_or_exited n workers) [
    | inl others ↦ inl (rw (last, others) refl)
    | inr (i, (lt, running)) ↦ inr (i, (omega (arith, lt), running))
  ]
]

module _ {S A : Type 0} (n : ℕ) (regs : ℕ → Registration S A) (has_handler : Bool) where
  exited-halted :
      {s t : System S}
      → ((i : ℕ) → i < n → (s.workers i).pc ≡ exited)
      → ¬ Step n regs has_handler s t
  exited-halted h (checked i lt e) = absurd (ground (arith, h i lt))
  exited-halted h (polled i event now lt e) = absurd (ground (arith, h i lt))
  exited-halted h (died i x lt e) = absurd (ground (arith, h i lt))
  exited-halted h (closed i lt e) = absurd (ground (arith, h i lt))

  pub wait_returns :
      (s : System S) {e : Option Err}
      → wait_until_stopped n s ≡ some e
      → (all_exited n s.workers ≡ true) × (s.err ≡ e)
  unfolding wait_until_stopped
  wait_returns s h = ground arith

  reason_of :
      (ctx_done : Bool) (recorded e : Option Err)
      → recorded ≡ e
      → ctx_done || is_some recorded ≡ true
      → (ctx_done ≡ true) ⊎ (is_some e ≡ true)
  reason_of true recorded e same h = inl refl
  reason_of false recorded e same h = inr (rw same at h)

  -- If WaitUntilStopped returns in a state that the serving goroutines reach, in any interleaving,
  -- then every one of them has called its consumer's Close exactly once and left the phase at
  -- stopped, none makes a further step, the error that it returns is the one, if any, with which
  -- the fatal handler was called, where WithFatalHandler was given, and if it returns nil the
  -- context is done.
  pub wait_until_stopped-Reach :
      {s : System S} {e : Option Err} (i : ℕ)
      → Reach n regs has_handler s
      → wait_until_stopped n s ≡ some e
      → i < n
      → ((s.workers i).closes ≡ 1)
        × ((s.workers i).cell.phase ≡ Phase.stopped)
        × (s.handled ≡ calls_for has_handler e)
        × (¬ ((t : System S) × Step n regs has_handler s t))
        × ((s.ctx_done ≡ true) ⊎ (is_some e ≡ true))
  wait_until_stopped-Reach {s} {e} i r h lt =
      let (zero_left, recorded) = wait_returns s h in
      let at_exit : (j : ℕ) → j < n → (s.workers j).pc ≡ exited =
        λ j below. all_exited-at n s.workers j zero_left below in
      let (closes, phase, reason) = Reach-exited n regs has_handler i r (at_exit i lt) in
      (
        closes,
        phase,
        Reach-handled n regs has_handler r ∙ ap (calls_for has_handler) recorded,
        (λ further. exited-halted at_exit further.1),
        reason_of s.ctx_done s.err e recorded reason,
      )

  waits_or_steps :
      (s : System S)
      → (wait_until_stopped n s ≡ some (loader_err s))
        ⊎ ((t : System S) × Step n regs has_handler s t)
  unfolding wait_until_stopped
  waits_or_steps s = elim (running_or_exited n s.workers) [
    | inl all ↦ inl (rw all refl)
    | inr (i, (lt, running)) ↦ inr (Step-enabled n regs has_handler s i lt running)
  ]

  -- A run goes on until WaitUntilStopped returns.
  to_return :
      (fuel : ℕ) {s t : System S} {j : ℕ}
      → Run n regs has_handler s j t
      → must_stop t ≡ true
      → total n regs has_handler t ≤ fuel
      → (k : ℕ) × (u : System S) × Run n regs has_handler s k u
        × (wait_until_stopped n u ≡ some (loader_err u))
  to_return zero {s} {t} {j} r stop_now le = elim (waits_or_steps t) [
    | inl returned ↦ (j, t, r, returned)
    | inr (u, st) ↦ absurd (omega (arith, Step-total n regs has_handler st stop_now, le))
  ]
  to_return (suc fuel) {s} {t} {j} r stop_now le = elim (waits_or_steps t) [
    | inl returned ↦ (j, t, r, returned)
    | inr (u, st) ↦
        let (lower_now, still) = Step-total n regs has_handler st stop_now in
        to_return fuel (more r st) still (omega (arith, lower_now, le))
  ]

  -- Once the context is done or an error is recorded, WaitUntilStopped returns: every run of the
  -- goroutines from there, of any length, can go on to a state where it returns, and the whole run
  -- has at most 3 * n steps.
  pub wait_until_stopped-Run :
      {s t : System S} {j : ℕ}
      → Run n regs has_handler s j t
      → must_stop s ≡ true
      → (k : ℕ) × (u : System S) × Run n regs has_handler t k u
        × (j + k ≤ n * 3)
        × (wait_until_stopped n u ≡ some (loader_err u))
  wait_until_stopped-Run {s} {t} {j} r stop_now =
      let (spent, still) = Run-total n regs has_handler r stop_now in
      let (k, u, later_run, returned) =
        to_return (total n regs has_handler t) done still (omega arith) in
      let (left, _) = Run-total n regs has_handler later_run still in
      (k, u, later_run, omega (arith, spent, left, total-le n regs has_handler s), returned)
