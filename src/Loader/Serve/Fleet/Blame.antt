-- ===== src/Loader/Serve/Fleet/Blame.antt =====
-- loader.go and internal/driver/consumer.go: where the error that stops the loader comes from.
use easykafka_config_go.Prelude.{
  ℕ, ◌<◌, ◌≡◌, refl, ap, ◌∙◌, ◌≢◌, ◌⊎◌, inl, inr, Bool, true, false, some, arith,
}
use easykafka_config_go.Prelude.Family.{update, update-each}
use easykafka_config_go.Errors.{Err, Context, wrap}
use easykafka_config_go.Registration.{Registration}
use easykafka_config_go.Driver.Consumer.{
  Consumer, KafkaEvent, message, partition_eof, kafka_error, nothing, unhandled, poll, dispatch,
  classify_error,
}
use easykafka_config_go.Loader.WarmUp.{classify}
use easykafka_config_go.Loader.Serve.{
  polling, dying, closing, Worker, System, check, handle, close, binding_died,
}
use easykafka_config_go.Loader.Serve.Driven.{fatal_error_of}
use easykafka_config_go.Loader.Serve.Stop.{workers-binding_died}
use easykafka_config_go.Loader.Serve.Wait.{wait_until_stopped, wait_returns}
use easykafka_config_go.Loader.Serve.Fleet.{
  Fleet, poll_by, close_by, Step, checked, polled, died, closed, Reach, start, later, cancelled,
}
use easykafka_config_go.Loader.Serve.Fleet.Closing.{Reach-polled_open}

module _ {S : Type 0} where
  -- A poll kills its goroutine only with a fatal error of the client, under the binding's name.
  poll-dying :
      {A : Type 0} (reg : Registration S A) (polled_at : ℕ) (kafka : KafkaEvent) (now : ℕ)
      (c : Consumer) (w : Worker S) {x : Err}
      → c.closed ≡ false
      → (handle reg (poll polled_at kafka c).1 now w).pc ≡ dying x
      → (e : Err) × (fatal_error_of kafka ≡ some e) × (x ≡ wrap (Context.binding reg.name) e)
  unfolding handle poll dispatch classify_error classify
  poll-dying reg polled_at (kafka_error e true code) now c w h d = (e, refl, ground arith)
  poll-dying reg polled_at (kafka_error e false code) now c w h d = absurd (ground arith)
  poll-dying reg polled_at (message t p o k v s) now c w h d = absurd (ground arith)
  poll-dying reg polled_at (partition_eof p o) now c w h d = absurd (ground arith)
  poll-dying reg polled_at nothing now c w h d = absurd (ground arith)
  poll-dying reg polled_at unhandled now c w h d = absurd (ground arith)

  check-dying : (b : Bool) (w : Worker S) (x : Err) → (check b w).pc ≢ dying x
  unfolding check
  check-dying b w x d = ground arith

  close-dying : (w : Worker S) (x : Err) → (close w).pc ≢ dying x
  unfolding close
  close-dying w x d = ground arith

  -- what `bindingDied` records
  err-binding_died :
      (has_handler : Bool) (e x : Err) (s : System S)
      → (binding_died has_handler e s).err ≡ some x
      → (s.err ≡ some x) ⊎ (e ≡ x)
  unfolding binding_died
  err-binding_died has_handler e x s h = ground arith

module _ {S A : Type 0} (n : ℕ) (regs : ℕ → Registration S A) (has_handler : Bool) where
  -- The client has returned a fatal error to goroutine `i`, and this is it, under its binding's name.
  pub data Blamed (i : ℕ) (x : Err) : (f : Fleet S) → Reach n regs has_handler f → Type 0 where
    here :
        {f : Fleet S} (r : Reach n regs has_handler f) (polled_at : ℕ) (kafka : KafkaEvent)
        (now : ℕ) (lt : i < n) (at : (f.system.workers i).pc ≡ polling) (e : Err)
        → fatal_error_of kafka ≡ some e
        → x ≡ wrap (Context.binding (regs i).name) e
        → Blamed i x _ (later r (polled i polled_at kafka now lt at))
    before :
        {f g : Fleet S} {r : Reach n regs has_handler f} (st : Step n regs has_handler f g)
        → Blamed i x f r
        → Blamed i x g (later r st)
    and_cancelled :
        {f : Fleet S} {r : Reach n regs has_handler f} → Blamed i x f r → Blamed i x _ (cancelled r)

  -- Every error on its way to `bindingDied`, and the one recorded, have their cause.
  record Caused {f : Fleet S} (r : Reach n regs has_handler f) : Type 0 where
    dying_of : (i : ℕ) (x : Err) → (f.system.workers i).pc ≡ dying x → Blamed i x f r
    recorded_of : (x : Err) → f.system.err ≡ some x → (i : ℕ) × (i < n) × Blamed i x f r

  later-recorded :
      {f g : Fleet S} {r : Reach n regs has_handler f} (st : Step n regs has_handler f g) (x : Err)
      → (i : ℕ) × (i < n) × Blamed i x f r
      → (i : ℕ) × (i < n) × Blamed i x g (later r st)
  later-recorded st x (i, lt, b) = (i, lt, before st b)

  -- after a step that replaces worker `j` by one that is not dying
  others_dying :
      {f g : Fleet S} {r : Reach n regs has_handler f} (st : Step n regs has_handler f g) (j : ℕ)
      (w : Worker S)
      → Caused r
      → ((x : Err) → w.pc ≢ dying x)
      → (i : ℕ) (x : Err) → (update f.system.workers j w i).pc ≡ dying x
      → Blamed i x g (later r st)
  others_dying {f} {g} {r} st j w c alive i =
      update-each (λ k v. (x : Err) → v.pc ≡ dying x → Blamed k x g (later r st)) f.system.workers j
        w (λ k ne x d. before st (c.dying_of k x d)) (λ x d. absurd (alive x d)) i

  Step-Caused :
      {f g : Fleet S} (r : Reach n regs has_handler f) (st : Step n regs has_handler f g)
      → Caused r
      → Caused (later r st)
  unfolding poll_by close_by
  Step-Caused {f} r (checked j lt e) c = record {
    dying_of = others_dying (checked j lt e) j _ c (check-dying _ (f.system.workers j));
    recorded_of = λ x h. later-recorded (checked j lt e) x (c.recorded_of x h);
  }
  Step-Caused {f} r (polled j polled_at kafka now lt e) c = record {
    dying_of = λ i.
        update-each
          (λ k v.
            (x : Err) → v.pc ≡ dying x → Blamed k x _ (later r (polled j polled_at kafka now lt e)))
          f.system.workers j _
          (λ k ne x d. before (polled j polled_at kafka now lt e) (c.dying_of k x d))
          (λ x d.
            let (cause, fatal, named) =
              poll-dying (regs j) polled_at kafka now (f.consumers j) (f.system.workers j)
                (Reach-polled_open n regs has_handler j r e).0 d in
            here r polled_at kafka now lt e cause fatal named)
          i;
    recorded_of = λ x h. later-recorded (polled j polled_at kafka now lt e) x (c.recorded_of x h);
  }
  Step-Caused {f} r (died j y lt e) c = record {
    dying_of = λ i x d.
        others_dying (died j y lt e) j (record (f.system.workers j) { pc = closing }) c
          (λ x d. absurd (cc (d))) i x
          (rw (workers-binding_died n regs has_handler y f.system) at d);
    recorded_of = λ x h. elim (err-binding_died has_handler y x f.system h) [
      | inl old ↦ later-recorded (died j y lt e) x (c.recorded_of x old)
      | inr new ↦ (j, lt, before (died j y lt e) (c.dying_of j x (e ∙ ap dying new)))
    ];
  }
  Step-Caused {f} r (closed j answer lt e) c = record {
    dying_of = others_dying (closed j answer lt e) j _ c (close-dying (f.system.workers j));
    recorded_of = λ x h. later-recorded (closed j answer lt e) x (c.recorded_of x h);
  }

  Reach-Caused : {f : Fleet S} (r : Reach n regs has_handler f) → Caused r
  Reach-Caused (start m) = record {
    dying_of = λ i x d. absurd (cc (d, (m.started.2 i).0));
    recorded_of = λ x h. absurd (cc (h, m.started.0));
  }
  Reach-Caused (later r st) = Step-Caused r st (Reach-Caused r)
  Reach-Caused (cancelled r) =
      let c = Reach-Caused r in
      record {
        dying_of = λ i x d. and_cancelled (c.dying_of i x d);
        recorded_of = λ x h. let (i, lt, b) = c.recorded_of x h in (i, lt, and_cancelled b);
      }

  -- If WaitUntilStopped returns an error in a state that the goroutines reach with their consumers,
  -- in any interleaving, then the Kafka client has returned a fatal error to one of the goroutines in
  -- the run that led there, and the error is that one, under the name of that goroutine's binding.
  pub wait_until_stopped-Blamed :
      {f : Fleet S} {x : Err} (r : Reach n regs has_handler f)
      → wait_until_stopped n f.system ≡ some (some x)
      → (i : ℕ) × (i < n) × Blamed i x f r
  wait_until_stopped-Blamed {f} {x} r h =
      (Reach-Caused r).recorded_of x (wait_returns n regs has_handler f.system h).1
