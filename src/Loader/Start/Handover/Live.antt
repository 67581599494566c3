-- ===== src/Loader/Start/Handover/Live.antt =====
-- loader.go and internal/driver/consumer.go, from `Start` to `serveBinding`: the bindings of a loader
-- with the consumers that are built for them.
use easykafka_config_go.Prelude.{
  ℕ, ◌≡◌, refl, ◌∙◌, Bool, false, Option, List, [], ◌∷◌, map, pick, arith,
}
use easykafka_config_go.Prelude.Words.{ℤ}
use easykafka_config_go.Errors.{Bytes, Err, Result}
use easykafka_config_go.Store.{Store}
use easykafka_config_go.Registration.{Registration}
use easykafka_config_go.Driver.Consumer.{Consumer, poll}
use easykafka_config_go.Driver.Consumer.Assign.{TopicMetadata, StartOffset, assign, assign_all}
use easykafka_config_go.Loader.WarmUp.Driven.{Round, turns_of}
use easykafka_config_go.Loader.WarmUp.Driven.Polls.{poll-kept}
use easykafka_config_go.Loader.Serve.Fleet.{Fleet}
use easykafka_config_go.Loader.Start.{Bound, Script}
use easykafka_config_go.Loader.Start.Handover.{hand_over}
use easykafka_config_go.Loader.Start.Handover.Served.{Decoded, registered, bound}

-- A binding's consumer as the factory built it, and what its warm-up meets: the answers of the
-- context and of the client, and the rounds of the loop.
pub record Feed : Type 0 where
  pub consumer : Consumer
  pub ctx_err : Option Err
  pub metadata : Bytes → Result (Option TopicMetadata)
  pub client_assign : List (ℕ × StartOffset) → Option Err
  pub rounds : List Round

-- the consumer after AssignAll
abbrev pub assigned_of : Feed → Consumer
assigned_of feed = (assign_all feed.ctx_err feed.metadata feed.client_assign feed.consumer).0

-- `c.AssignAll(ctx)` and the polls, as the warm-up meets them
unfoldable pub script_of : Feed → Script
unfolding turns_of
script_of feed = record {
  assigned = (assign_all feed.ctx_err feed.metadata feed.client_assign feed.consumer).1;
  turns = turns_of feed.rounds (assigned_of feed);
}

-- the consumer after some polls
unfoldable pub consumer_after : List Round → Consumer → Consumer
consumer_after [] c = c
consumer_after (r ∷ rs) c = consumer_after rs (poll r.polled_at r.kafka c).0

-- `l.serving.Go(…)` for each binding and its consumer, which its warm-up has polled some rounds
unfoldable pub man :
    {S A : Type 0} → Bool → (ℕ → Feed) → (ℕ → List Round) → Bound S A → List (Bound S A) → Fleet S
unfolding hand_over consumer_after
man ctx_done feeds polled b bs = record {
  system = hand_over ctx_done b bs;
  consumers = λ i. consumer_after (polled i) (assigned_of (feeds i));
  client_closes = λ i. 0;
}

consumer_after-kept :
    (rs : List Round) (c : Consumer)
    → c.closed ≡ false
    → ((consumer_after rs c).closed ≡ false) × ((consumer_after rs c).cfg ≡ c.cfg)
unfolding consumer_after
consumer_after-kept [] c h = (h, refl)
consumer_after-kept (r ∷ rs) c h =
    let (still, same) = poll-kept r.polled_at r.kafka c h in
    let (later, same_later) = consumer_after-kept rs (poll r.polled_at r.kafka c).0 still in
    (later, same_later ∙ same)

assign_all-kept :
    (ctx_err : Option Err) (metadata : Bytes → Result (Option TopicMetadata))
    (client_assign : List (ℕ × StartOffset) → Option Err) (c : Consumer)
    → let c' = (assign_all ctx_err metadata client_assign c).0 in
      (c'.closed ≡ c.closed) × (c'.cfg ≡ c.cfg)
unfolding assign_all assign
assign_all-kept ctx_err metadata client_assign c = ground arith

-- AssignAll and the polls of a warm-up keep an open consumer open, with its configuration.
pub driven-kept :
    (rs : List Round) (feed : Feed)
    → feed.consumer.closed ≡ false
    → ((consumer_after rs (assigned_of feed)).closed ≡ false)
      × ((consumer_after rs (assigned_of feed)).cfg ≡ feed.consumer.cfg)
driven-kept rs feed h =
    let (closed_as, cfg_as) =
      assign_all-kept feed.ctx_err feed.metadata feed.client_assign feed.consumer in
    let (still, same) = consumer_after-kept rs (assigned_of feed) (closed_as ∙ h) in
    (still, same ∙ cfg_as)

abbrev pub with_script : {K V : Type 0} → Decoded K V × Feed → Decoded K V × Script
with_script (d, feed) = (d, script_of feed)

-- what the warm-up of the binding at each index meets
abbrev pub feeds_of : {K V : Type 0} → Decoded K V × Feed → List (Decoded K V × Feed) → ℕ → Feed
feeds_of t ts i = (pick t (t ∷ ts) i).1

module _ {K V : Type 0} (dec : Discrete K) (show : K → Bytes) (log_errors : Bool)
    (timeout : ℤ) where
  -- the bindings of a loader, over new stores, with their warm-ups
  abbrev pub attached : List (Decoded K V × Feed) → List (Bound (Store K V) (Option V) × Script)
  attached xs = map (bound dec show log_errors timeout) (map with_script xs)

  abbrev pub regs_of :
      Decoded K V × Feed → List (Decoded K V × Feed) → ℕ → Registration (Store K V) (Option V)
  regs_of t ts i = registered dec show log_errors timeout (pick t (t ∷ ts) i).0
