-- ===== src/Loader/WarmUp/Driven/Loaded.antt =====
-- `warmUpBinding` of loader.go on a driver's consumer: what the client must have returned by the time
-- that the topic counts as loaded.
use easykafka_config_go.Prelude.{
  ℕ, ◌≡◌, refl, sym, ap, ◌∙◌, Bool, true, false, Option, none, List, [], ◌∷◌, ◌++◌, any, All, arith,
}
use easykafka_config_go.Prelude.Words.{ℤ}
use easykafka_config_go.Errors.{Bytes, Err, Result, ok, err}
use easykafka_config_go.Text.{Slice}
use easykafka_config_go.Binding.{Binding}
use easykafka_config_go.Store.{Store, new_store, get}
use easykafka_config_go.Store.History.{last_write, run, get-run}
use easykafka_config_go.Registration.{Cell, new_cell, registration_of}
use easykafka_config_go.Registration.Replay.{writes}
use easykafka_config_go.Detect.{partition_eof}
use easykafka_config_go.Detect.Laws.{ended}
use easykafka_config_go.Driver.Consumer.{Consumer, poll}
use easykafka_config_go.Driver.Consumer.Assign.{TopicMetadata, StartOffset, assign_all}
use easykafka_config_go.Driver.Consumer.Assigned.{Covers, assign_all-Covers}
use easykafka_config_go.Loader.WarmUp.{Turn, loaded, warm_up_binding}
use easykafka_config_go.Loader.WarmUp.Laws.{Calm, events}
use easykafka_config_go.Loader.WarmUp.Complete.{WholeTopic, warm_up_binding-WholeTopic}
use easykafka_config_go.Loader.WarmUp.Records.{records}
use easykafka_config_go.Loader.WarmUp.Driven.Polls.{ended-turns_of, records-turns_of}
use easykafka_config_go.Loader.WarmUp.Driven.{
  Round, turns_of, warm_up_driven, reports_end, messages,
}

-- The rounds behind the first turns.
record Split (rounds : List Round) (c : Consumer) (heard : List Turn) : Type 0 where
  first : List Round
  rest : List Round
  whole : rounds ≡ first ++ rest
  turns : turns_of first c ≡ heard

Split-turns_of :
    (heard rest : List Turn) (rounds : List Round) (c : Consumer)
    → turns_of rounds c ≡ heard ++ rest
    → Split rounds c heard
unfolding turns_of
Split-turns_of [] rest rounds c h = record { first = []; rest = rounds; whole = refl; turns = refl }
Split-turns_of (t ∷ heard) rest [] c h = absurd (cc)
Split-turns_of (t ∷ heard) rest (r ∷ rounds) c h =
    let later = Split-turns_of heard rest rounds (poll r.polled_at r.kafka c).0 (cc) in
    record {
      first = r ∷ later.first;
      rest = later.rest;
      whole = ap (λ l. r ∷ l) later.whole;
      turns = cc (later.turns);
    }

uninterrupted_of_Calm :
    (rs : List Round) (c : Consumer) → All Calm (turns_of rs c) → All (λ r. r.ctx_err ≡ none) rs
unfolding turns_of
uninterrupted_of_Calm [] c h = tt
uninterrupted_of_Calm (r ∷ rs) c h = (h.0.0, uninterrupted_of_Calm rs _ h.1)

module _ {K V : Type 0} (dec : Discrete K) (show : K → Bytes) (log_errors : Bool) (b : Binding K V)
    (decode_key : Slice → Result K) (decode_value : Slice → Result (Option V))
    (metadata : Bytes → Result (Option TopicMetadata))
    (client_assign : List (ℕ × StartOffset) → Option Err) (consumer : Consumer) where
  -- What the broker and the client have said by the end of a warm-up that loads the topic.
  pub record ReadWhole (rounds : List Round) (c' : Cell (Store K V)) : Type 0 where
    pub partitions : List ℕ
    pub assigned : Consumer
    pub covers : Covers metadata client_assign consumer assigned partitions
    pub heard : List Round
    pub rest : List Round
    pub split : rounds ≡ heard ++ rest
    pub uninterrupted : All (λ r. r.ctx_err ≡ none) heard
    pub ends : All (λ p. any (reports_end p) heard ≡ true) partitions
    pub stored :
        c'.store
        ≡ run dec
            (writes dec show log_errors b decode_key decode_value
              (messages consumer.cfg.topic heard))
            new_store
    pub contents :
        (q : K)
        → get dec q c'.store
          ≡ last_write dec q
              (writes dec show log_errors b decode_key decode_value
                (messages consumer.cfg.topic heard))
              (none, false)

  All-ends :
      (ps : List ℕ) (rs : List Round) (c : Consumer)
      → c.closed ≡ false
      → All (λ p. ended p (events (turns_of rs c)) ≡ true) ps
      → All (λ p. any (reports_end p) rs ≡ true) ps
  All-ends [] rs c h a = tt
  All-ends (p ∷ ps) rs c h a = (sym (ended-turns_of p rs c h) ∙ a.0, All-ends ps rs c h a.1)

  WholeTopic-ReadWhole :
      (timeout : ℤ) (rounds : List Round) (c' : Cell (Store K V)) (assigned : Consumer)
      (ids : List ℕ)
      → Covers metadata client_assign consumer assigned ids
      → WholeTopic dec show log_errors b decode_key decode_value ids (turns_of rounds assigned) c'
      → ReadWhole rounds c'
  WholeTopic-ReadWhole timeout rounds c' assigned ids covers w =
      let s = Split-turns_of w.heard w.rest rounds assigned w.split in
      let open_still : assigned.closed ≡ false = ground (arith, covers.kept, covers.open_before) in
      let same : assigned.cfg ≡ consumer.cfg = ap (λ c. c.cfg) covers.kept in
      let all_writes =
        w.stored
        ∙ ap (λ rs. run dec (writes dec show log_errors b decode_key decode_value rs) new_store)
            (ap records (sym s.turns)
              ∙ records-turns_of s.first assigned open_still
              ∙ ap (λ cfg. messages cfg.topic s.first) same) in
      record {
        partitions = ids;
        assigned = assigned;
        covers = covers;
        heard = s.first;
        rest = s.rest;
        split = s.whole;
        uninterrupted = uninterrupted_of_Calm s.first assigned (rw s.turns w.calm);
        ends = All-ends ids s.first assigned open_still (rw s.turns w.all_ended);
        stored = all_writes;
        contents = λ q.
            ap (get dec q) all_writes
            ∙ (get-run dec
                (writes dec show log_errors b decode_key decode_value
                  (messages consumer.cfg.topic s.first))
                q).0;
      }

  -- If the warm-up of a binding over a new store, on a driver's consumer, reports the topic loaded,
  -- then the consumer was assigned every partition that the broker reports of its topic, each from
  -- the beginning; the rounds begin with rounds in which the context was never done and the client
  -- reported the end of every one of those partitions; and `Get` finds under every key what the last
  -- effective message that the client returned in those rounds left there.
  pub warm_up_driven-ReadWhole :
      (timeout : ℤ) (ctx_err : Option Err) (rounds : List Round) (c' : Cell (Store K V))
      → warm_up_driven
          (registration_of dec show log_errors b decode_key decode_value)
          timeout
          partition_eof
          ctx_err
          metadata
          client_assign
          rounds
          consumer
          (new_cell new_store)
        ≡ (c', loaded)
      → ReadWhole rounds c'
  unfolding warm_up_driven warm_up_binding
  warm_up_driven-ReadWhole timeout ctx_err rounds c' h =
      by_assigned (assign_all ctx_err metadata client_assign consumer) refl h
    where
      by_assigned :
          (r : Consumer × Result (List ℕ))
          → assign_all ctx_err metadata client_assign consumer ≡ r
          → warm_up_binding
              (registration_of dec show log_errors b decode_key decode_value)
              timeout
              partition_eof
              r.1
              (turns_of rounds r.0)
              (new_cell new_store)
            ≡ (c', loaded)
          → ReadWhole rounds c'
      by_assigned (c1, err e) same k = absurd (ground (arith))
      by_assigned (c1, ok ids) same k =
          WholeTopic-ReadWhole timeout rounds c' c1 ids
            (assign_all-Covers ctx_err metadata client_assign consumer c1 ids same)
            (warm_up_binding-WholeTopic dec show log_errors b decode_key decode_value timeout ids
              (turns_of rounds c1) c' k)
