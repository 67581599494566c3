-- ===== src/Loader/Serve/Applied.antt =====
-- `serveBinding` of loader.go: the records that a goroutine has polled, and what its store holds.
use easykafka_config_go.Prelude.{
  ℕ, ◌≡◌, refl, sym, ap, ◌∙◌, Bool, false, Option, none, List, [], ◌∷◌, ◌++◌, ◌==◌, arith,
  if◌then◌else◌,
}
use easykafka_config_go.Prelude.Words.{ℤ}
use easykafka_config_go.Prelude.Family.{update, update-each}
use easykafka_config_go.Errors.{Bytes, Result, ok}
use easykafka_config_go.Text.{Slice}
use easykafka_config_go.Driver.Event.{Record, Event, record_read, eof, idle, failure}
use easykafka_config_go.Binding.{Binding}
use easykafka_config_go.Store.{Store, new_store, get}
use easykafka_config_go.Store.History.{Write, run, run-append, last_write, get-run}
use easykafka_config_go.Registration.{Registration, new_cell, registration_of}
use easykafka_config_go.Registration.Replay.{writes-append, writes, store-apply_func}
use easykafka_config_go.Loader.WarmUp.{Turn, loaded, warm_up_binding}
use easykafka_config_go.Loader.WarmUp.Complete.{WholeTopic, warm_up_binding-WholeTopic}
use easykafka_config_go.Loader.WarmUp.Records.{effects}
use easykafka_config_go.Detect.{partition_eof}
use easykafka_config_go.Loader.Serve.Stop.{workers-binding_died}
use easykafka_config_go.Loader.Serve.{
  Worker, System, handle, check, close, Step, checked, polled, died, closed, Reach, start, later,
  cancelled,
}

-- the record of an event, with the time at which it is applied
abbrev pub record_of_event : Event → ℕ → List (Record × ℕ)
record_of_event (record_read rec) now = (rec, now) ∷ []
record_of_event _ now = []

module _ {S A : Type 0} {n : ℕ} {regs : ℕ → Registration S A} {has_handler : Bool} where
  -- what a step polls for goroutine `i`
  abbrev pub polled_in : {s t : System S} → ℕ → Step n regs has_handler s t → List (Record × ℕ)
  polled_in i (polled j event now lt e) = if j == i then record_of_event event now else []
  polled_in i (checked j lt e) = []
  polled_in i (died j x lt e) = []
  polled_in i (closed j lt e) = []

  -- The records that goroutine `i` has polled since Start, in order.
  unfoldable pub polled_by : {s : System S} → ℕ → Reach n regs has_handler s → List (Record × ℕ)
  polled_by i (start st) = []
  polled_by i (later r st) = polled_by i r ++ polled_in i st
  polled_by i (cancelled r) = polled_by i r

  -- The state in which Start left the system.
  unfoldable pub origin : {s : System S} → Reach n regs has_handler s → System S
  origin (start {s} st) = s
  origin (later r st) = origin r
  origin (cancelled r) = origin r

module _ {K V : Type 0} (dec : Discrete K) (show : K → Bytes) (log_errors : Bool)
    (bindings : ℕ → Binding K V) (decode_key : ℕ → Slice → Result K)
    (decode_value : ℕ → Slice → Result (Option V)) where
  abbrev pub regs : ℕ → Registration (Store K V) (Option V)
  regs i = registration_of dec show log_errors (bindings i) (decode_key i) (decode_value i)

  -- the writes of records polled by goroutine `i`
  abbrev pub writes_by : ℕ → List (Record × ℕ) → List (Write K V)
  writes_by i = writes dec show log_errors (bindings i) (decode_key i) (decode_value i)

  pub store-handle :
      (i : ℕ) (event : Event) (now : ℕ) (w : Worker (Store K V))
      → (handle (regs i) event now w).cell.store
        ≡ run dec (writes_by i (record_of_event event now)) w.cell.store
  unfolding handle registration_of writes run
  store-handle i (record_read rec) now w = ground (
    arith,
    store-apply_func dec show log_errors (bindings i) (decode_key i) (decode_value i) rec now
        w.cell,
  )
  store-handle i (eof p o) now w = ground arith
  store-handle i idle now w = ground arith
  store-handle i (failure e f) now w = ground arith

  -- an update that leaves the store of the goroutine that it is about
  store-update :
      (members : ℕ → Worker (Store K V)) (j i : ℕ) (w : Worker (Store K V))
      → w.cell.store ≡ (members j).cell.store
      → (update members j w i).cell.store ≡ (members i).cell.store
  store-update members j i w h =
      update-each (λ k v. v.cell.store ≡ (members k).cell.store) members j w (λ k ne. refl) h i

  -- a poll by one goroutine
  store-polled :
      (members : ℕ → Worker (Store K V)) (j i : ℕ) (event : Event) (now : ℕ)
      → (update members j (handle (regs j) event now (members j)) i).cell.store
        ≡ run dec
            (writes_by i (if j == i then record_of_event event now else []))
            (members i).cell.store
  unfolding writes run
  store-polled members j i event now =
      update-each
        (λ k v.
          v.cell.store
          ≡ run dec (writes_by k (if j == k then record_of_event event now else []))
              (members k).cell.store)
        members j _ (λ k ne. ground (arith, ne))
        (ground (arith, store-handle j event now (members j))) i

  -- what a step does to the store of goroutine `i`
  store-Step :
      {n : ℕ} {has_handler : Bool} (i : ℕ) {s t : System (Store K V)}
      (st : Step n regs has_handler s t)
      → (t.workers i).cell.store ≡ run dec (writes_by i (polled_in i st)) (s.workers i).cell.store
  unfolding writes run check close
  store-Step i {s} (checked j lt e) = store-update s.workers j i _ refl
  store-Step i {s} (polled j event now lt e) = store-polled s.workers j i event now
  store-Step {n} {has_handler} i {s} (died j x lt e) =
      rw (workers-binding_died n regs has_handler x s) (store-update s.workers j i _ refl)
  store-Step i {s} (closed j lt e) = store-update s.workers j i _ refl

  -- In every interleaving, the store of a binding is that with which serving began, after the writes
  -- of the records that its own goroutine has polled, in order.
  pub store-Reach :
      {n : ℕ} {has_handler : Bool} {s : System (Store K V)} (i : ℕ) (r : Reach n regs has_handler s)
      → (s.workers i).cell.store
        ≡ run dec (writes_by i (polled_by i r)) ((origin r).workers i).cell.store
  unfolding polled_by origin writes run
  store-Reach i (start st) = refl
  store-Reach i (later r st) =
      let before = ((origin r).workers i).cell.store in
      store-Step i st
      ∙ ap (run dec (writes_by i (polled_in i st))) (store-Reach i r)
      ∙ sym (run-append dec (writes_by i (polled_by i r)) _ before)
      ∙ ap (λ ws. run dec ws before)
          (sym (
            writes-append dec show log_errors (bindings i) (decode_key i) (decode_value i)
              (polled_by i r) (polled_in i st)))
  store-Reach i (cancelled r) = store-Reach i r

  -- Take a binding whose warm-up over a new store has loaded its topic, and the serving goroutines as
  -- Start leaves them. Then at any later time, in every interleaving with the other bindings, `Get`
  -- finds under every key what the last effective record left there among all records that the
  -- binding has read: those of its warm-up, which has read the topic whole, and then those that its
  -- goroutine has polled, each applied once and in order.
  pub get-Reach :
      {n : ℕ} {has_handler : Bool} {s : System (Store K V)} (i : ℕ) (r : Reach n regs has_handler s)
      (timeout : ℤ) (ps : List ℕ) (turns : List Turn)
      → warm_up_binding (regs i) timeout partition_eof (ok ps) turns (new_cell new_store)
        ≡ (((origin r).workers i).cell, loaded)
      → (w : WholeTopic dec show log_errors
          (bindings i)
          (decode_key i)
          (decode_value i)
          ps
          turns
          ((origin r).workers i).cell)
        × ((q : K)
            → get dec q (s.workers i).cell.store
              ≡ last_write dec q
                  (effects dec show log_errors (bindings i) (decode_key i) (decode_value i) w.heard
                    ++ writes_by i (polled_by i r))
                  (none, false))
  get-Reach {s} i r timeout ps turns h = (
    whole,
    λ q.
        ap (get dec q) all_writes ∙ (get-run dec (heard_writes ++ writes_by i (polled_by i r)) q).0,
  )
    where
      whole :
          WholeTopic dec show log_errors
            (bindings i)
            (decode_key i)
            (decode_value i)
            ps
            turns
            ((origin r).workers i).cell
      whole =
          warm_up_binding-WholeTopic dec show log_errors (bindings i) (decode_key i)
            (decode_value i) timeout ps turns ((origin r).workers i).cell h

      heard_writes : List (Write K V)
      heard_writes =
          effects dec show log_errors (bindings i) (decode_key i) (decode_value i) whole.heard

      all_writes :
          (s.workers i).cell.store ≡ run dec (heard_writes ++ writes_by i (polled_by i r)) new_store
      all_writes =
          store-Reach i r
          ∙ ap (run dec (writes_by i (polled_by i r))) whole.stored
          ∙ sym (run-append dec heard_writes (writes_by i (polled_by i r)) new_store)
