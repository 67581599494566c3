-- ===== src/Loader/Serve/Fleet/Returned.antt =====
-- loader.go and internal/driver/consumer.go: the messages that the Kafka client has returned to each
-- serving goroutine.
use easykafka_config_go.Prelude.{
  ℕ, ◌≡◌, refl, ap, ◌∙◌, Bool, true, false, Option, none, List, [], ◌∷◌, ◌++◌, ◌==◌, if◌then◌else◌,
  arith,
}
use easykafka_config_go.Errors.{Bytes, Result}
use easykafka_config_go.Text.{Slice}
use easykafka_config_go.Binding.{Binding}
use easykafka_config_go.Store.{Store}
use easykafka_config_go.Store.History.{run}
use easykafka_config_go.Registration.{Registration}
use easykafka_config_go.Driver.Event.{Record}
use easykafka_config_go.Driver.Consumer.{KafkaEvent}
use easykafka_config_go.Loader.WarmUp.Driven.{Round, messages}
use easykafka_config_go.Loader.Serve.Driven.{record_of_poll}
use easykafka_config_go.Loader.Serve.Applied.{
  polled_in, polled_by, origin, regs, writes_by, store-Reach,
}
use easykafka_config_go.Loader.Serve.Fleet.{
  Fleet, Step, checked, polled, died, closed, Reach, start, later, cancelled, beginning, forget,
  forget-Step,
}
use easykafka_config_go.Loader.Serve.Fleet.Closing.{Reach-polled_open}

-- one poll as a round of the loop; `serveBinding` has looked at the context in the step before
abbrev pub round_at : ℕ → KafkaEvent → ℕ → Round
round_at polled_at kafka now = record {
  ctx_err = none;
  polled_at = polled_at;
  kafka = kafka;
  now = now;
  took = 0;
}

if-cong :
    (b : Bool) (xs ys : List (Record × ℕ))
    → (b ≡ true → xs ≡ ys)
    → (if b then xs else []) ≡ (if b then ys else [])
if-cong true xs ys h = h refl
if-cong false xs ys h = refl

module _ {S A : Type 0} {n : ℕ} {regs : ℕ → Registration S A} {has_handler : Bool} where
  -- what a step returns to goroutine `i`, whose consumer has the topic
  abbrev pub returned_in :
      {f g : Fleet S} → Bytes → ℕ → Step n regs has_handler f g → List (Record × ℕ)
  returned_in topic i (polled j polled_at kafka now lt e) =
      if j == i then messages topic (round_at polled_at kafka now ∷ []) else []
  returned_in topic i (checked j lt e) = []
  returned_in topic i (died j x lt e) = []
  returned_in topic i (closed j answer lt e) = []

  -- The messages that the client has returned to goroutine `i` since Start, in order.
  unfoldable pub returned_to :
      {f : Fleet S} → Bytes → ℕ → Reach n regs has_handler f → List (Record × ℕ)
  returned_to topic i (start m) = []
  returned_to topic i (later r st) = returned_to topic i r ++ returned_in topic i st
  returned_to topic i (cancelled r) = returned_to topic i r

  polled_in-returned :
      {f g : Fleet S} (i : ℕ) (r : Reach n regs has_handler f) (st : Step n regs has_handler f g)
      → polled_in i (forget-Step n regs has_handler st)
        ≡ returned_in ((beginning n regs has_handler r).consumers i).cfg.topic i st
  unfolding forget-Step
  polled_in-returned {f} i r (polled j polled_at kafka now lt e) = if-cong (j == i) _ _ λ same.
      let (open_now, kept) = Reach-polled_open n regs has_handler j r e in
      let round = round_at polled_at kafka now in
      let began = beginning n regs has_handler r in
      record_of_poll round (f.consumers j) open_now
      ∙ ap (λ cfg. messages cfg.topic (round ∷ [])) kept
      ∙ ap (λ k. messages (began.consumers k).cfg.topic (round ∷ [])) (ground (arith, same))
  polled_in-returned i r (checked j lt e) = refl
  polled_in-returned i r (died j x lt e) = refl
  polled_in-returned i r (closed j answer lt e) = refl

  -- The records that a goroutine polls are the messages that the client returns to it.
  pub polled_by-returned :
      {f : Fleet S} (i : ℕ) (r : Reach n regs has_handler f)
      → polled_by i (forget n regs has_handler r)
        ≡ returned_to ((beginning n regs has_handler r).consumers i).cfg.topic i r
  unfolding forget polled_by returned_to beginning
  polled_by-returned i (start m) = refl
  polled_by-returned i (later r st) =
      ap (λ rs. rs ++ polled_in i (forget-Step n regs has_handler st)) (polled_by-returned i r)
      ∙ ap (λ rs. returned_to ((beginning n regs has_handler r).consumers i).cfg.topic i r ++ rs)
          (polled_in-returned i r st)
  polled_by-returned i (cancelled r) = polled_by-returned i r

  pub origin-forget :
      {f : Fleet S} (r : Reach n regs has_handler f)
      → origin (forget n regs has_handler r) ≡ (beginning n regs has_handler r).system
  unfolding origin forget beginning
  origin-forget (start m) = refl
  origin-forget (later r st) = origin-forget r
  origin-forget (cancelled r) = origin-forget r

-- The store of a binding is that with which serving began, after the writes of the messages that the
-- client has returned to its goroutine.
pub store-returned :
    {K V : Type 0} (dec : Discrete K) (show : K → Bytes) (log_errors : Bool)
    (bindings : ℕ → Binding K V) (decode_key : ℕ → Slice → Result K)
    (decode_value : ℕ → Slice → Result (Option V)) {n : ℕ} {has_handler : Bool}
    {f : Fleet (Store K V)} (i : ℕ)
    (r : Reach n (regs dec show log_errors bindings decode_key decode_value) has_handler f)
    → let began =
        beginning n (regs dec show log_errors bindings decode_key decode_value) has_handler r in
      (f.system.workers i).cell.store
      ≡ run dec
          (writes_by dec show log_errors bindings decode_key decode_value i
            (returned_to (began.consumers i).cfg.topic i r))
          (began.system.workers i).cell.store
store-returned dec show log_errors bindings decode_key decode_value {n} {has_handler} i r =
    let served = regs dec show log_errors bindings decode_key decode_value in
    let by = writes_by dec show log_errors bindings decode_key decode_value i in
    let origin_store = ((origin (forget n served has_handler r)).workers i).cell.store in
    store-Reach dec show log_errors bindings decode_key decode_value i
      (forget n served has_handler r)
    ∙ ap (λ rs. run dec (by rs) origin_store) (polled_by-returned i r)
    ∙ ap
        (λ s.
          run dec (by (returned_to ((beginning n served has_handler r).consumers i).cfg.topic i r))
            (s.workers i).cell.store)
        (origin-forget r)
