-- ===== src/Loader/Serve/Fleet/Shutdown.antt =====
-- loader.go and internal/driver/consumer.go: how the serving goroutines and their consumers come to an
-- end, as `WaitUntilStopped` sees it.
use easykafka_config_go.Prelude.{
  ℕ, zero, suc, ◌+◌, ◌*◌, ◌≤◌, ◌<◌, ◌≡◌, refl, ◌≢◌, Bool, true, ◌&&◌, ◌==◌, none, some, arith, ◌⊎◌,
  inl, inr,
}
use easykafka_config_go.Registration.{Registration}
use easykafka_config_go.Driver.Consumer.{nothing}
use easykafka_config_go.Loader.Serve.{
  Pc, checking, polling, dying, closing, exited, must_stop, loader_err,
}
use easykafka_config_go.Loader.Serve.Ends.{total, total-le, Step-total}
use easykafka_config_go.Loader.Serve.Wait.{all_exited, wait_until_stopped, running_or_exited}
use easykafka_config_go.Loader.Serve.Fleet.{
  Fleet, Step, checked, polled, died, closed, Reach, later, forget-Step,
}
use easykafka_config_go.Loader.Serve.Fleet.Closing.{Reach-client_closes}

-- every one of the first `n` consumers is closed, by one call of the client's Close
unfoldable pub closed_once : {S : Type 0} → ℕ → Fleet S → Bool
closed_once zero f = true
closed_once (suc n) f = (f.consumers n).closed && (f.client_closes n == 1) && closed_once n f

module _ {S A : Type 0} (n : ℕ) (regs : ℕ → Registration S A) (has_handler : Bool) where
  -- A run of `k` steps of the goroutines with their consumers.
  pub data Run (f : Fleet S) : ℕ → Fleet S → Type 0 where
    done : Run f 0 f
    more : {k : ℕ} {g h : Fleet S} → Run f k g → Step n regs has_handler g h → Run f (suc k) h

  Reach-Run :
      {f g : Fleet S} {k : ℕ} → Reach n regs has_handler f → Run f k g → Reach n regs has_handler g
  Reach-Run r done = r
  Reach-Run r (more run st) = later (Reach-Run r run) st

  Run-total :
      {f g : Fleet S} {k : ℕ}
      → Run f k g
      → must_stop f.system ≡ true
      → (k + total n regs has_handler g.system ≤ total n regs has_handler f.system)
        × (must_stop g.system ≡ true)
  Run-total done h = (omega arith, h)
  Run-total (more run st) h =
      let (so_far, stop_now) = Run-total run h in
      let (lower_now, still) =
        Step-total n regs has_handler (forget-Step n regs has_handler st) stop_now in
      (omega arith, still)

  -- A goroutine that has not exited can make a step, whatever its consumer answers.
  Step-enabled :
      (f : Fleet S) (i : ℕ)
      → i < n
      → (f.system.workers i).pc ≢ exited
      → (g : Fleet S) × Step n regs has_handler f g
  Step-enabled f i lt h = by_pc (f.system.workers i).pc refl
    where
      by_pc : (pc : Pc) → (f.system.workers i).pc ≡ pc → (g : Fleet S) × Step n regs has_handler f g
      by_pc checking e = (_, checked i lt e)
      by_pc polling e = (_, polled i 0 nothing 0 lt e)
      by_pc (dying x) e = (_, died i x lt e)
      by_pc closing e = (_, closed i none lt e)
      by_pc exited e = absurd (h e)

  exits_or_steps :
      (f : Fleet S)
      → (all_exited n f.system.workers ≡ true) ⊎ ((g : Fleet S) × Step n regs has_handler f g)
  exits_or_steps f = elim (running_or_exited n f.system.workers) [
    | inl all ↦ inl all
    | inr (i, (lt, running)) ↦ inr (Step-enabled f i lt running)
  ]

  -- A run goes on until every goroutine has exited.
  to_exit :
      (fuel : ℕ) {f g : Fleet S} {j : ℕ}
      → Run f j g
      → must_stop g.system ≡ true
      → total n regs has_handler g.system ≤ fuel
      → (k : ℕ) × (h : Fleet S) × Run f k h × (all_exited n h.system.workers ≡ true)
  to_exit zero {f} {g} {j} run stop_now le = elim (exits_or_steps g) [
    | inl all ↦ (j, g, run, all)
    | inr (h, st) ↦
        let lower_now =
          Step-total n regs has_handler (forget-Step n regs has_handler st) stop_now in
        absurd (omega (arith, lower_now, le))
  ]
  to_exit (suc fuel) {f} {g} {j} run stop_now le = elim (exits_or_steps g) [
    | inl all ↦ (j, g, run, all)
    | inr (h, st) ↦
        let (lower_now, still) =
          Step-total n regs has_handler (forget-Step n regs has_handler st) stop_now in
        to_exit fuel (more run st) still (omega (arith, lower_now, le))
  ]

  closed_once-exited :
      (m : ℕ) {f : Fleet S}
      → Reach n regs has_handler f
      → all_exited m f.system.workers ≡ true
      → closed_once m f ≡ true
  unfolding all_exited closed_once
  closed_once-exited zero r all = refl
  closed_once-exited (suc m) {f} r all =
      let (is_closed, closes, _) = Reach-client_closes n regs has_handler m r in
      ground (arith, is_closed, closes, closed_once-exited m r)

  waits_at_exit :
      (f : Fleet S)
      → all_exited n f.system.workers ≡ true
      → wait_until_stopped n f.system ≡ some (loader_err f.system)
  unfolding wait_until_stopped
  waits_at_exit f all = rw all refl

  -- Once the context is done or an error is recorded, the service comes to its end: every run of the
  -- goroutines from there, of any length and whatever the client answers, can go on to a state where
  -- WaitUntilStopped returns and where every consumer is closed, by one call of the client's Close
  -- on each, and the whole run has at most 3 * n steps.
  pub wait_until_stopped-closed_once :
      {f g : Fleet S} {j : ℕ}
      → Reach n regs has_handler f
      → must_stop f.system ≡ true
      → Run f j g
      → (k : ℕ) × (h : Fleet S) × Run g k h
        × (j + k ≤ n * 3)
        × (wait_until_stopped n h.system ≡ some (loader_err h.system))
        × (closed_once n h ≡ true)
  wait_until_stopped-closed_once {f} {g} {j} r stop_now run =
      let (spent, still) = Run-total run stop_now in
      let (k, h, later_run, all) =
        to_exit (total n regs has_handler g.system) done still (omega arith) in
      let (left, _) = Run-total later_run still in
      (
        k,
        h,
        later_run,
        omega (arith, spent, left, total-le n regs has_handler f.system),
        waits_at_exit h all,
        closed_once-exited n (Reach-Run (Reach-Run r run) later_run) all,
      )
