-- ===== src/Loader/Serve/Fleet/Closing.antt =====
-- loader.go and internal/driver/consumer.go: each serving goroutine closes its consumer once, when it
-- exits, and polls it open.
use easykafka_config_go.Prelude.{ℕ, ◌+◌, ◌≡◌, Bool, true, false, Option, if◌then◌else◌, arith}
use easykafka_config_go.Prelude.Family.{update, update-each, updates-each, updates-each_three}
use easykafka_config_go.Errors.{Err}
use easykafka_config_go.Registration.{Registration}
use easykafka_config_go.Driver.Config.{Config}
use easykafka_config_go.Driver.Consumer.{Consumer, KafkaEvent, poll}
use easykafka_config_go.Driver.Consumer
use easykafka_config_go.Loader.WarmUp.Driven.Polls.{poll-kept}
use easykafka_config_go.Loader.Serve.{
  Pc, checking, polling, dying, closing, exited, Worker, System, check, handle,
}
use easykafka_config_go.Loader.Serve
use easykafka_config_go.Loader.Serve.Stop.{workers-binding_died}
use easykafka_config_go.Loader.Serve.Wait.{has_exited}
use easykafka_config_go.Loader.Serve.Fleet.{
  Fleet, poll_by, close_by, Step, checked, polled, died, closed, Reach, start, later, cancelled,
  beginning,
}

-- What holds of a consumer by where its goroutine stands.
abbrev pub HeldAt : Pc → Bool → ℕ → Type 0
HeldAt exited is_closed closes = (is_closed ≡ true) × (closes ≡ 1)
HeldAt _ is_closed closes = (is_closed ≡ false) × (closes ≡ 0)

-- The same of a goroutine and its consumer, whose configuration stays what it was.
abbrev Held : {S : Type 0} → Config → Worker S → Consumer → ℕ → Type 0
Held cfg w c closes = HeldAt w.pc c.closed closes × (c.cfg ≡ cfg)

module _ {S : Type 0} where
  check-Held :
      (stop_now : Bool) (cfg : Config) (w : Worker S) (c : Consumer) (closes : ℕ)
      → w.pc ≡ checking
      → Held cfg w c closes
      → Held cfg (check stop_now w) c closes
  unfolding check
  check-Held stop_now cfg w c closes e h = ground arith

  handle-Held :
      {A : Type 0} (reg : Registration S A) (polled_at : ℕ) (kafka : KafkaEvent) (now : ℕ)
      (cfg : Config) (w : Worker S) (c : Consumer) (closes : ℕ)
      → w.pc ≡ polling
      → Held cfg w c closes
      → Held cfg (handle reg (poll polled_at kafka c).1 now w) (poll polled_at kafka c).0 closes
  unfolding handle
  handle-Held reg polled_at kafka now cfg w c closes e h =
      let open_now : c.closed ≡ false = ground arith in
      let (still, same) = poll-kept polled_at kafka c open_now in ground (arith, still, same)

  dying-Held :
      (x : Err) (cfg : Config) (w : Worker S) (c : Consumer) (closes : ℕ)
      → w.pc ≡ dying x
      → Held cfg w c closes
      → Held cfg (record w { pc = closing }) c closes
  dying-Held x cfg w c closes e h = ground arith

  start-Held :
      (w : Worker S) (c : Consumer) (closes : ℕ)
      → w.pc ≡ checking
      → c.closed ≡ false
      → closes ≡ 0
      → Held c.cfg w c closes
  start-Held w c closes e open_now unclosed = ground arith

  close-Held :
      (answer : Option Err) (cfg : Config) (w : Worker S) (c : Consumer) (closes : ℕ)
      → w.pc ≡ closing
      → Held cfg w c closes
      → let (c', (called, result)) = Consumer.close answer c in
        Held cfg (Serve.close w) c' (closes + (if called then 1 else 0))
  unfolding Consumer.close Serve.close
  close-Held answer cfg w c closes e h = ground arith

module _ {S A : Type 0} (n : ℕ) (regs : ℕ → Registration S A) (has_handler : Bool) where
  abbrev AllHeld : (ℕ → Config) → Fleet S → Type 0
  AllHeld cfgs f = (i : ℕ) → Held (cfgs i) (f.system.workers i) (f.consumers i) (f.client_closes i)

  -- a step that leaves the consumers alone
  worker-Held :
      (cfgs : ℕ → Config) (f : Fleet S) (i : ℕ) (w : Worker S)
      → AllHeld cfgs f
      → Held (cfgs i) w (f.consumers i) (f.client_closes i)
      → (j : ℕ) → Held (cfgs j) (update f.system.workers i w j) (f.consumers j) (f.client_closes j)
  worker-Held cfgs f i w h =
      update-each (λ j v. Held (cfgs j) v (f.consumers j) (f.client_closes j)) f.system.workers i w
        (λ j ne. h j)

  poll_by-Held :
      (cfgs : ℕ → Config) (f : Fleet S) (i polled_at : ℕ) (kafka : KafkaEvent) (now : ℕ)
      → AllHeld cfgs f
      → (f.system.workers i).pc ≡ polling
      → AllHeld cfgs (poll_by (regs i) i polled_at kafka now f)
  unfolding poll_by
  poll_by-Held cfgs f i polled_at kafka now h e =
      updates-each (λ j w c. Held (cfgs j) w c (f.client_closes j)) f.system.workers f.consumers i
        (handle (regs i) (poll polled_at kafka (f.consumers i)).1 now (f.system.workers i))
        (poll polled_at kafka (f.consumers i)).0 h
        (handle-Held (regs i) polled_at kafka now (cfgs i) (f.system.workers i) (f.consumers i)
          (f.client_closes i) e (h i))

  Step-Held :
      (cfgs : ℕ → Config) {f g : Fleet S}
      → Step n regs has_handler f g
      → AllHeld cfgs f
      → AllHeld cfgs g
  unfolding close_by
  Step-Held cfgs {f} (checked i lt e) h =
      worker-Held cfgs f i _ h
        (check-Held _ (cfgs i) (f.system.workers i) (f.consumers i) _ e (h i))
  Step-Held cfgs {f} (polled i polled_at kafka now lt e) h =
      poll_by-Held cfgs f i polled_at kafka now h e
  Step-Held cfgs {f} (died i x lt e) h = rw (workers-binding_died n regs has_handler x f.system) (
      worker-Held cfgs f i _ h
        (dying-Held x (cfgs i) (f.system.workers i) (f.consumers i) _ e (h i)))
  Step-Held cfgs {f} (closed i answer lt e) h =
      updates-each_three (λ j. Held (cfgs j)) f.system.workers f.consumers f.client_closes i _ _ _ h
        (close-Held answer (cfgs i) (f.system.workers i) (f.consumers i) (f.client_closes i) e
          (h i))

  Reach-Held :
      {f : Fleet S} (r : Reach n regs has_handler f)
      → AllHeld (λ i. ((beginning n regs has_handler r).consumers i).cfg) f
  unfolding beginning
  Reach-Held (start {f} m) = λ i.
      start-Held (f.system.workers i) (f.consumers i) (f.client_closes i) (m.started.2 i).0
        (m.open_all i) (m.unclosed i)
  Reach-Held (later r st) = Step-Held _ st (Reach-Held r)
  Reach-Held (cancelled r) = Reach-Held r

  -- a goroutine that is about to poll has its consumer open, configured as at the beginning
  pub Reach-polled_open :
      {f : Fleet S} (i : ℕ) (r : Reach n regs has_handler f)
      → (f.system.workers i).pc ≡ polling
      → ((f.consumers i).closed ≡ false)
        × ((f.consumers i).cfg ≡ ((beginning n regs has_handler r).consumers i).cfg)
  Reach-polled_open {f} i r e =
      let (held, same) = Reach-Held r i in
      (open_at (f.system.workers i).pc (f.consumers i).closed (f.client_closes i) e held, same)
    where
      open_at :
          (pc : Pc) (is_closed : Bool) (closes : ℕ)
          → pc ≡ polling
          → HeldAt pc is_closed closes
          → is_closed ≡ false
      open_at pc is_closed closes e h = ground arith

  held_at :
      (pc : Pc) (is_closed : Bool) (closes : ℕ)
      → HeldAt pc is_closed closes
      → (is_closed ≡ has_exited pc) × (closes ≡ (if has_exited pc then 1 else 0))
  held_at pc is_closed closes h = ground arith

  -- In every state that the serving goroutines reach with their consumers, in every interleaving: a
  -- goroutine's consumer is closed exactly if the goroutine has exited, the client's Close has been
  -- called on it once then and not at all before, and the consumer's configuration is the one with
  -- which serving began.
  pub Reach-client_closes :
      {f : Fleet S} (i : ℕ) (r : Reach n regs has_handler f)
      → let pc = (f.system.workers i).pc in
        ((f.consumers i).closed ≡ has_exited pc)
        × (f.client_closes i ≡ (if has_exited pc then 1 else 0))
        × ((f.consumers i).cfg ≡ ((beginning n regs has_handler r).consumers i).cfg)
  Reach-client_closes {f} i r =
      let (held, same) = Reach-Held r i in
      let (once, counted) =
        held_at (f.system.workers i).pc (f.consumers i).closed (f.client_closes i) held in
      (once, counted, same)
