-- ===== src/Loader/Serve/Fleet.antt =====
-- loader.go and internal/driver/consumer.go: the serving goroutines, each with the driver's consumer
-- that it polls and closes, interleaved in any order.
pub mod Closing
pub mod Returned
pub mod Shutdown
pub mod Blame
use easykafka_config_go.Prelude.{ℕ, ◌+◌, ◌<◌, ◌≡◌, Bool, true, false, Option, none, if◌then◌else◌}
use easykafka_config_go.Prelude.Family.{update}
use easykafka_config_go.Errors.{Err}
use easykafka_config_go.Registration.{Registration}
use easykafka_config_go.Driver.Consumer.{Consumer, KafkaEvent, poll}
use easykafka_config_go.Driver.Consumer
use easykafka_config_go.Loader.Serve.{
  Pc, checking, polling, dying, closing, System, must_stop, with_worker, check, handle,
  binding_died, Started,
}
use easykafka_config_go.Loader.Serve

-- The goroutines with their consumers; `client_closes` counts the calls of the Kafka client's Close
-- on each.
pub record Fleet (S : Type 0) : Type 0 where
  pub system : System S
  pub consumers : ℕ → Consumer
  pub client_closes : ℕ → ℕ

-- `event := c.Poll(l.cfg.steadyPollTimeout)` by goroutine `i`, and what is done about it
unfoldable pub poll_by :
    {S A : Type 0} → Registration S A → ℕ → ℕ → KafkaEvent → ℕ → Fleet S → Fleet S
poll_by reg i polled_at kafka now f =
    let (c, event) = poll polled_at kafka (f.consumers i) in
    record f {
      system = with_worker f.system i (handle reg event now (f.system.workers i));
      consumers = update f.consumers i c;
    }

-- the deferred function of goroutine `i`, where the client's Close would answer with the error
unfoldable pub close_by : {S : Type 0} → ℕ → Option Err → Fleet S → Fleet S
close_by i answer f =
    let (c, (called, result)) = Consumer.close answer (f.consumers i) in
    record {
      system = with_worker f.system i (Serve.close (f.system.workers i));
      consumers = update f.consumers i c;
      client_closes = update f.client_closes i (f.client_closes i + (if called then 1 else 0));
    }

-- `n` goroutines, with their registrations, and whether WithFatalHandler was given
module _ {S A : Type 0} (n : ℕ) (regs : ℕ → Registration S A) (has_handler : Bool) where
  -- One step of one goroutine: `polled` at some time, with what the client's Poll returns, and the
  -- time at which a record is applied; `closed` with what the client's Close answers.
  pub data Step (f : Fleet S) : Fleet S → Type 0 where
    checked :
        (i : ℕ)
        → i < n
        → (f.system.workers i).pc ≡ checking
        → Step f (record f {
          system = with_worker f.system i (check (must_stop f.system) (f.system.workers i));
        })
    polled :
        (i polled_at : ℕ) (kafka : KafkaEvent) (now : ℕ)
        → i < n
        → (f.system.workers i).pc ≡ polling
        → Step f (poll_by (regs i) i polled_at kafka now f)
    died :
        (i : ℕ) (e : Err)
        → i < n
        → (f.system.workers i).pc ≡ dying e
        → Step f (record f {
          system =
              with_worker
                (binding_died has_handler e f.system)
                i
                (record (f.system.workers i) { pc = closing });
        })
    closed :
        (i : ℕ) (answer : Option Err)
        → i < n
        → (f.system.workers i).pc ≡ closing
        → Step f (close_by i answer f)

  -- What `Start` leaves behind: the goroutines at the head of their loops, their consumers open.
  pub record Manned (f : Fleet S) : Type 0 where
    pub started : Started n regs has_handler f.system
    pub open_all : (i : ℕ) → (f.consumers i).closed ≡ false
    pub unclosed : (i : ℕ) → f.client_closes i ≡ 0

  -- The states reached; `cancelled` is the caller's cancelling of the context.
  pub data Reach : Fleet S → Type 0 where
    start : {f : Fleet S} → Manned f → Reach f
    later : {f g : Fleet S} → Reach f → Step f g → Reach g
    cancelled :
        {f : Fleet S} → Reach f → Reach (record f { system = record f.system { ctx_done = true } })

  -- the step of the goroutines alone
  unfoldable pub forget-Step :
      {f g : Fleet S} → Step f g → Serve.Step n regs has_handler f.system g.system
  unfolding poll_by close_by
  forget-Step {f} (checked i lt e) = Serve.checked i lt e
  forget-Step {f} (polled i polled_at kafka now lt e) =
      Serve.polled i (poll polled_at kafka (f.consumers i)).1 now lt e
  forget-Step (died i x lt e) = Serve.died i x lt e
  forget-Step (closed i answer lt e) = Serve.closed i lt e

  -- what is reached by the goroutines alone
  unfoldable pub forget : {f : Fleet S} → Reach f → Serve.Reach n regs has_handler f.system
  forget (start m) = Serve.start m.started
  forget (later r st) = Serve.later (forget r) (forget-Step st)
  forget (cancelled r) = Serve.cancelled (forget r)

  -- The state in which Start left the goroutines and their consumers.
  unfoldable pub beginning : {f : Fleet S} → Reach f → Fleet S
  beginning (start {f} m) = f
  beginning (later r st) = beginning r
  beginning (cancelled r) = beginning r
