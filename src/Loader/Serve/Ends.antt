-- ===== src/Loader/Serve/Ends.antt =====
-- `serveBinding` of loader.go: runs of steps, and the steps that a goroutine has left.
use easykafka_config_go.Prelude.{ℕ, suc, ◌+◌, ◌*◌, ◌≤◌, ◌<◌, ◌≡◌, refl, ◌≢◌, Bool, true, arith}
use easykafka_config_go.Prelude.Family.{update, sum, sum-update, sum-le}
use easykafka_config_go.Errors.{Err}
use easykafka_config_go.Driver.Event.{Event, idle}
use easykafka_config_go.Registration.{Registration}
use easykafka_config_go.Loader.Serve.{
  Pc, checking, polling, dying, closing, exited, Worker, System, must_stop, check, handle, close,
  Step, checked, polled, died, closed,
}
use easykafka_config_go.Loader.Serve.Stop.{workers-binding_died, must_stop-binding_died}

-- Steps that a worker can still make once there is a reason to stop.
abbrev pub rank_at : Pc → ℕ
rank_at exited = 0
rank_at closing = 1
rank_at checking = 2
rank_at (dying e) = 2
rank_at polling = 3

abbrev pub rank : {S : Type 0} → Worker S → ℕ
rank w = rank_at w.pc

module _ {S A : Type 0} (n : ℕ) (regs : ℕ → Registration S A) (has_handler : Bool) where
  -- A run of `k` steps of the goroutines.
  pub data Run (s : System S) : ℕ → System S → Type 0 where
    done : Run s 0 s
    more : {k : ℕ} {t u : System S} → Run s k t → Step n regs has_handler t u → Run s (suc k) u

  abbrev pub total : System S → ℕ
  total s = sum rank n s.workers

  lower :
      (i : ℕ) (members : ℕ → Worker S) (w : Worker S)
      → i < n
      → rank w < rank (members i)
      → sum rank n (update members i w) < sum rank n members
  lower i members w lt less = omega (arith, sum-update rank n members i w lt)

  check-rank : (w : Worker S) → w.pc ≡ checking → rank (check true w) < rank w
  unfolding check
  check-rank w e = ground arith

  handle-rank :
      (i : ℕ) (event : Event) (now : ℕ) (w : Worker S)
      → w.pc ≡ polling
      → rank (handle (regs i) event now w) < rank w
  unfolding handle
  handle-rank i event now w e = ground arith

  dying-rank : (e : Err) (w : Worker S) → w.pc ≡ dying e → rank (record w { pc = closing }) < rank w
  dying-rank e w h = ground arith

  close-rank : (w : Worker S) → w.pc ≡ closing → rank (close w) < rank w
  unfolding close
  close-rank w e = ground arith

  -- Each step brings the workers closer to their exit, and the reason to stop stays.
  pub Step-total :
      {s t : System S}
      → Step n regs has_handler s t
      → must_stop s ≡ true
      → (total t < total s) × (must_stop t ≡ true)
  Step-total {s} (checked i lt e) h =
      (lower i s.workers _ lt (rw h (check-rank (s.workers i) e)), h)
  Step-total {s} (polled i event now lt e) h =
      (lower i s.workers _ lt (handle-rank i event now (s.workers i) e), h)
  Step-total {s} (died i x lt e) h = (
    rw (workers-binding_died n regs has_handler x s)
        (lower i s.workers _ lt (dying-rank x (s.workers i) e)),
    must_stop-binding_died n regs has_handler x s,
  )
  Step-total {s} (closed i lt e) h = (lower i s.workers _ lt (close-rank (s.workers i) e), h)

  pub Run-total :
      {s t : System S} {k : ℕ}
      → Run s k t
      → must_stop s ≡ true
      → (k + total t ≤ total s) × (must_stop t ≡ true)
  Run-total done h = (omega arith, h)
  Run-total (more r st) h =
      let (so_far, stop_now) = Run-total r h in
      let (lower_now, still) = Step-total st stop_now in (omega arith, still)

  rank-le : (w : Worker S) → rank w ≤ 3
  rank-le w = ground arith

  pub total-le : (s : System S) → total s ≤ n * 3
  total-le s = sum-le rank 3 rank-le n s.workers

  -- Once the context is done or an error is recorded, the `n` goroutines make at most 3 * n more
  -- steps between them, whatever the polls return.
  pub Run-bound : {s t : System S} {k : ℕ} → Run s k t → must_stop s ≡ true → k ≤ n * 3
  Run-bound {s} r h = omega (arith, Run-total r h, total-le s)

  -- No goroutine waits for another: in every state, a worker that has not exited can make a step.
  pub Step-enabled :
      (s : System S) (i : ℕ)
      → i < n
      → (s.workers i).pc ≢ exited
      → (t : System S) × Step n regs has_handler s t
  Step-enabled s i lt h = by_pc (s.workers i).pc refl
    where
      by_pc : (pc : Pc) → (s.workers i).pc ≡ pc → (t : System S) × Step n regs has_handler s t
      by_pc checking e = (_, checked i lt e)
      by_pc polling e = (_, polled i idle 0 lt e)
      by_pc (dying x) e = (_, died i x lt e)
      by_pc closing e = (_, closed i lt e)
      by_pc exited e = absurd (h e)
