-- ===== src/Loader/Serve/Stop.antt =====
-- `serveBinding` and `bindingDied` of loader.go: what holds of the goroutines where they stand.
use easykafka_config_go.Prelude.{
  ℕ, ◌≡◌, refl, Bool, true, Option, none, some, List, [], ◌∷◌, if◌then◌else◌, arith,
}
use easykafka_config_go.Prelude.Family.{update-all}
use easykafka_config_go.Errors.{Err}
use easykafka_config_go.Driver.Event.{Event}
use easykafka_config_go.Observer.{Phase}
use easykafka_config_go.Registration.{Registration}
use easykafka_config_go.Loader.Serve.{
  Pc, checking, polling, dying, closing, exited, Worker, System, must_stop, check, handle,
  binding_died, close, Step, checked, polled, died, closed, Started, Reach, start, later, cancelled,
}

-- What holds of a worker where it stands, given whether there is a reason to stop.
abbrev FitsAt : Pc → Bool → ℕ → Phase → Type 0
FitsAt exited stop_now closes phase = (closes ≡ 1) × (phase ≡ Phase.stopped) × (stop_now ≡ true)
FitsAt closing stop_now closes phase = (closes ≡ 0) × (stop_now ≡ true)
FitsAt _ stop_now closes phase = closes ≡ 0

abbrev Fits : {S : Type 0} → Bool → Worker S → Type 0
Fits stop_now w = FitsAt w.pc stop_now w.closes w.cell.phase

-- the calls of the handler that go with the recorded error
abbrev pub calls_for : Bool → Option Err → List Err
calls_for has_handler none = []
calls_for has_handler (some e) = if has_handler then e ∷ [] else []

module _ {S A : Type 0} (n : ℕ) (regs : ℕ → Registration S A) (has_handler : Bool) where
  record Inv (s : System S) : Type 0 where
    fits : (i : ℕ) → Fits (must_stop s) (s.workers i)
    reported : s.handled ≡ calls_for has_handler s.err

  FitsAt-true :
      (pc : Pc) (b : Bool) (closes : ℕ) (phase : Phase)
      → FitsAt pc b closes phase
      → FitsAt pc true closes phase
  FitsAt-true exited b closes phase h = ground arith
  FitsAt-true closing b closes phase h = ground arith
  FitsAt-true checking b closes phase h = h
  FitsAt-true polling b closes phase h = h
  FitsAt-true (dying e) b closes phase h = h

  check-Fits : (b : Bool) (w : Worker S) → w.pc ≡ checking → Fits b w → Fits b (check b w)
  unfolding check
  check-Fits b w e h = ground arith

  handle-Fits :
      (b : Bool) (i : ℕ) (event : Event) (now : ℕ) (w : Worker S)
      → w.pc ≡ polling
      → Fits b w
      → Fits b (handle (regs i) event now w)
  unfolding handle
  handle-Fits b i event now w e h = ground arith

  close-Fits : (b : Bool) (w : Worker S) → w.pc ≡ closing → Fits b w → Fits b (close w)
  unfolding close
  close-Fits b w e h = ground arith

  pub workers-binding_died :
      (e : Err) (s : System S) → (binding_died has_handler e s).workers ≡ s.workers
  unfolding binding_died
  workers-binding_died e s = ground arith

  pub must_stop-binding_died :
      (e : Err) (s : System S) → must_stop (binding_died has_handler e s) ≡ true
  unfolding binding_died
  must_stop-binding_died e s = ground arith

  reported-binding_died :
      (e : Err) (s : System S)
      → s.handled ≡ calls_for has_handler s.err
      → (binding_died has_handler e s).handled
        ≡ calls_for has_handler (binding_died has_handler e s).err
  unfolding binding_died
  reported-binding_died e s h = ground arith

  dying-Fits :
      (b : Bool) (e : Err) (w : Worker S)
      → w.pc ≡ dying e
      → Fits b w
      → Fits true (record w { pc = closing })
  dying-Fits b e w h fit = ground arith

  Step-Inv : {s t : System S} → Step n regs has_handler s t → Inv s → Inv t
  Step-Inv {s} (checked i lt e) v = record {
    fits =
        update-all (Fits (must_stop s)) s.workers i _ v.fits
          (check-Fits (must_stop s) (s.workers i) e (v.fits i));
    reported = v.reported;
  }
  Step-Inv {s} (polled i event now lt e) v = record {
    fits =
        update-all (Fits (must_stop s)) s.workers i _ v.fits
          (handle-Fits (must_stop s) i event now (s.workers i) e (v.fits i));
    reported = v.reported;
  }
  Step-Inv {s} (died i x lt e) v = record {
    fits =
        rw (must_stop-binding_died x s, workers-binding_died x s)
          (update-all (Fits true) s.workers i _
            (λ j. FitsAt-true (s.workers j).pc (must_stop s) _ _ (v.fits j))
            (dying-Fits (must_stop s) x (s.workers i) e (v.fits i)));
    reported = reported-binding_died x s v.reported;
  }
  Step-Inv {s} (closed i lt e) v = record {
    fits =
        update-all (Fits (must_stop s)) s.workers i _ v.fits
          (close-Fits (must_stop s) (s.workers i) e (v.fits i));
    reported = v.reported;
  }

  Started-Inv : (s : System S) → Started n regs has_handler s → Inv s
  Started-Inv s (fresh, unreported, ready) = record {
    fits = λ i. fit i (s.workers i) (ready i).0 (ready i).1;
    reported = rw fresh unreported;
  }
    where
      fit : (i : ℕ) (w : Worker S) → w.pc ≡ checking → w.closes ≡ 0 → Fits (must_stop s) w
      fit i w e c = ground arith

  Reach-Inv : {s : System S} → Reach n regs has_handler s → Inv s
  Reach-Inv (start {s} st) = Started-Inv s st
  Reach-Inv (later r st) = Step-Inv st (Reach-Inv r)
  Reach-Inv (cancelled {s} r) = record {
    fits = λ i. FitsAt-true (s.workers i).pc (must_stop s) _ _ ((Reach-Inv r).fits i);
    reported = (Reach-Inv r).reported;
  }

  -- In every state that the serving goroutines reach, in every interleaving, the fatal handler has
  -- been called exactly once if an error is recorded and WithFatalHandler was given, with that
  -- error, and not at all otherwise.
  pub Reach-handled :
      {s : System S} → Reach n regs has_handler s → s.handled ≡ calls_for has_handler s.err
  Reach-handled r = (Reach-Inv r).reported

  -- The error recorded first stays: no later step of a goroutine replaces it or calls the handler
  -- again.
  pub Step-err :
      {s t : System S} {e : Err}
      → Step n regs has_handler s t
      → s.err ≡ some e
      → (t.err ≡ some e) × (t.handled ≡ s.handled)
  unfolding binding_died
  Step-err (checked i lt h) e = (e, refl)
  Step-err (polled i event now lt h) e = (e, refl)
  Step-err (died i x lt h) e = ground arith
  Step-err (closed i lt h) e = (e, refl)

  -- In every reachable state, a worker that has exited has called its consumer's Close exactly
  -- once, its phase is stopped, and the context is done or an error is recorded.
  pub Reach-exited :
      {s : System S} (i : ℕ)
      → Reach n regs has_handler s
      → (s.workers i).pc ≡ exited
      → ((s.workers i).closes ≡ 1)
        × ((s.workers i).cell.phase ≡ Phase.stopped)
        × (must_stop s ≡ true)
  Reach-exited {s} i r = at_exit (s.workers i) ((Reach-Inv r).fits i)
    where
      at_exit :
          (w : Worker S)
          → Fits (must_stop s) w
          → w.pc ≡ exited
          → (w.closes ≡ 1) × (w.cell.phase ≡ Phase.stopped) × (must_stop s ≡ true)
      at_exit w fit e = ground arith

  -- In every reachable state, a worker that is about to poll has not closed its consumer.
  pub Reach-polling :
      {s : System S} (i : ℕ)
      → Reach n regs has_handler s
      → (s.workers i).pc ≡ polling
      → (s.workers i).closes ≡ 0
  Reach-polling {s} i r = at_poll (s.workers i) ((Reach-Inv r).fits i)
    where
      at_poll : (w : Worker S) → Fits (must_stop s) w → w.pc ≡ polling → w.closes ≡ 0
      at_poll w fit e = ground arith
