-- ===== src/Loader/Serve/Driven.antt =====
-- `serveBinding` of loader.go with the consumer of internal/driver/consumer.go: the loop of one
-- goroutine, by what the context, `l.Err` and the Kafka client answer in each round.
use easykafka_config_go.Prelude.{
  ℕ, ◌≡◌, refl, sym, ap, ◌∙◌, Bool, true, false, Option, none, some, List, [], ◌∷◌, ◌++◌, is_some,
  if◌then◌else◌, arith, Option-cases, Bool-cases, ◌||◌, inl, inr,
}
use easykafka_config_go.Errors.{Bytes, Err, Context, wrap, Result}
use easykafka_config_go.Text.{Slice}
use easykafka_config_go.Binding.{Binding}
use easykafka_config_go.Store.{Store}
use easykafka_config_go.Store.History.{Write, run, run-append}
use easykafka_config_go.Registration.{Registration, registration_of}
use easykafka_config_go.Registration.Replay.{writes, writes-append}
use easykafka_config_go.Driver.Consumer.{
  Consumer, KafkaEvent, kafka_error, poll, dispatch, classify_error,
}
use easykafka_config_go.Loader.WarmUp.Driven.{Round, messages}
use easykafka_config_go.Loader.WarmUp.Driven.Polls.{poll-kept}
use easykafka_config_go.Loader.Serve.Applied.{record_of_event, store-handle}
use easykafka_config_go.Loader.Serve.{Pc, checking, dying, closing, Worker, check, handle}

-- What one round of the loop meets: the answers of `ctx.Err` and `l.Err` at its head, and what the
-- client's Poll returns after that.
pub record Visit : Type 0 where
  pub ctx_err : Option Err
  pub loader_err : Option Err
  pub polled_at : ℕ
  pub kafka : KafkaEvent
  pub now : ℕ

-- `ctx.Err() != nil || l.Err() != nil`
abbrev stop_now : Visit → Bool
stop_now v = is_some v.ctx_err || is_some v.loader_err

-- the poll of a visit
abbrev round_of_visit : Visit → Round
round_of_visit v = record {
  ctx_err = none;
  polled_at = v.polled_at;
  kafka = v.kafka;
  now = v.now;
  took = 0;
}

-- whether the goroutine has left its loop to report an error
abbrev pub is_dying : Pc → Bool
is_dying (dying e) = true
is_dying _ = false

-- the loop of `serveBinding`, up to the end of the rounds given
unfoldable pub serve_polls :
    {S A : Type 0} → Registration S A → List Visit → Consumer → Worker S → Consumer × Worker S
unfolding check handle
serve_polls reg [] c w = (c, w)
serve_polls reg (r ∷ rs) c w =
    let w1 = check (stop_now r) w in
    let (c', event) = poll r.polled_at r.kafka c in
    let w2 = handle reg event r.now w1 in
    let rest = serve_polls reg rs c' w2 in
    if stop_now r then (c, w1) else (if is_dying w2.pc then (c', w2) else rest)

-- the fatal error that the client returns
abbrev pub fatal_error_of : KafkaEvent → Option Err
fatal_error_of (kafka_error e true code) = some e
fatal_error_of _ = none

-- where the loop leaves a goroutine of the binding `name`, told from the answers alone
unfoldable pub ending : Bytes → List Visit → Pc
ending name [] = checking
ending name (r ∷ rs) =
    let rest = ending name rs in
    if is_some r.ctx_err || is_some r.loader_err then closing else elim (fatal_error_of r.kafka) [
      | none ↦ rest
      | some e ↦ dying (wrap (Context.binding name) e)
    ]

-- the polls before the round that ends the loop
unfoldable pub before_end : List Visit → List Round
before_end [] = []
before_end (r ∷ rs) =
    let rest = before_end rs in
    if is_some r.ctx_err || is_some r.loader_err
    then []
    else elim (fatal_error_of r.kafka) [ none ↦ round_of_visit r ∷ rest | some e ↦ [] ]

-- the record that a poll of an open consumer hands to `apply`
pub record_of_poll :
    (r : Round) (c : Consumer)
    → c.closed ≡ false
    → record_of_event (poll r.polled_at r.kafka c).1 r.now ≡ messages c.cfg.topic (r ∷ [])
unfolding poll dispatch classify_error
record_of_poll r c h = ground arith

module _ {K V : Type 0} (dec : Discrete K) (show : K → Bytes) (log_errors : Bool) (b : Binding K V)
    (decode_key : Slice → Result K) (decode_value : Slice → Result (Option V)) where
  abbrev reg : Registration (Store K V) (Option V)
  reg = registration_of dec show log_errors b decode_key decode_value

  checking-handle :
      (r : Round) (c : Consumer) (w : Worker (Store K V))
      → c.closed ≡ false
      → fatal_error_of r.kafka ≡ none
      → (handle reg (poll r.polled_at r.kafka c).1 r.now w).pc ≡ checking
  unfolding handle poll dispatch classify_error
  checking-handle r c w h mild = ground arith

  -- one poll, whatever it returns
  store-poll :
      (r : Round) (c : Consumer) (w : Worker (Store K V))
      → c.closed ≡ false
      → (handle reg (poll r.polled_at r.kafka c).1 r.now w).cell.store
        ≡ run dec
            (writes dec show log_errors b decode_key decode_value (messages c.cfg.topic (r ∷ [])))
            w.cell.store
  store-poll r c w h =
      store-handle dec show log_errors (λ i. b) (λ i. decode_key) (λ i. decode_value) 0
        (poll r.polled_at r.kafka c).1 r.now w
      ∙ ap (λ rs. run dec (writes dec show log_errors b decode_key decode_value rs) w.cell.store)
          (record_of_poll r c h)

  handle-fatal :
      (r : Round) (c : Consumer) (w : Worker (Store K V)) {e : Err}
      → c.closed ≡ false
      → fatal_error_of r.kafka ≡ some e
      → let w' = handle reg (poll r.polled_at r.kafka c).1 r.now w in
        (w'.pc ≡ dying (wrap (Context.binding b.name) e)) × (w'.cell.store ≡ w.cell.store)
  unfolding handle poll dispatch classify_error registration_of
  handle-fatal r c w h fatal = ground arith

  messages-cons :
      (topic : Bytes) (r : Round) (rs : List Round)
      → messages topic (r ∷ rs) ≡ messages topic (r ∷ []) ++ messages topic rs
  messages-cons topic r rs = ground arith

  abbrev writes_of : Bytes → List Round → List (Write K V)
  writes_of topic rs = writes dec show log_errors b decode_key decode_value (messages topic rs)

  run-cons :
      (topic : Bytes) (r : Round) (rs : List Round) (s : Store K V)
      → run dec (writes_of topic (r ∷ rs)) s
        ≡ run dec (writes_of topic rs) (run dec (writes_of topic (r ∷ [])) s)
  run-cons topic r rs s =
      ap (λ ws. run dec ws s)
        (ap (writes dec show log_errors b decode_key decode_value) (messages-cons topic r rs)
          ∙ writes-append dec show log_errors b decode_key decode_value (messages topic (r ∷ []))
              (messages topic rs))
      ∙ run-append dec (writes_of topic (r ∷ [])) (writes_of topic rs) s

  -- A goroutine at the head of its loop, with an open consumer, ends exactly where the answers that
  -- it gets send it: before its deferred function in the first round in which the context is done or
  -- an error is recorded on the loader, before `bindingDied` with the first fatal error of the client,
  -- and else at the head of its loop again, whatever non-fatal errors there were; and its store has
  -- had the writes of exactly the messages before that, in order.
  pub serve_polls-before_end :
      (rs : List Visit) (c : Consumer) (w : Worker (Store K V))
      → c.closed ≡ false
      → w.pc ≡ checking
      → let w' = (serve_polls reg rs c w).1 in
        (w'.pc ≡ ending b.name rs)
        × (w'.cell.store ≡ run dec (writes_of c.cfg.topic (before_end rs)) w.cell.store)
  unfolding serve_polls ending before_end check writes run
  serve_polls-before_end [] c w h at_head = (at_head, refl)
  serve_polls-before_end (r ∷ rs) c w h at_head =
      elim (Bool-cases (is_some r.ctx_err || is_some r.loader_err)) [
        | inl done ↦ rw done (refl, refl)
        | inr going ↦ elim (Option-cases (fatal_error_of r.kafka)) [
          | inr (e, fatal) ↦
              let died = handle-fatal (round_of_visit r) c (check false w) h fatal in
              rw (going, fatal, died.0) (died.0, died.1)
          | inl mild ↦
              let w1 = handle reg (poll r.polled_at r.kafka c).1 r.now (check false w) in
              let head = checking-handle (round_of_visit r) c (check false w) h mild in
              let kept = poll-kept r.polled_at r.kafka c h in
              let later = serve_polls-before_end rs (poll r.polled_at r.kafka c).0 w1 kept.0 head in
              rw (going, mild, head)
                (
                  later.0,
                  later.1
                      ∙ ap (λ cfg. run dec (writes_of cfg.topic (before_end rs)) w1.cell.store)
                          kept.1
                      ∙ ap (run dec (writes_of c.cfg.topic (before_end rs)))
                          (store-poll (round_of_visit r) c (check false w) h)
                      ∙ sym (run-cons c.cfg.topic (round_of_visit r) (before_end rs) w.cell.store),
                )
        ]
      ]
