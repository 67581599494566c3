-- ===== src/Loader/Start/Handover/Reading.antt =====
-- loader.go and internal/driver/consumer.go, from `Start` to `serveBinding`: what a service reads from
-- a store that it has bound, told from what the Kafka client returns.
use easykafka_config_go.Prelude.{
  ℕ, ◌<◌, ◌≡◌, sym, ap, ◌∙◌, Bool, false, Option, none, List, ◌∷◌, ◌++◌, length, pick,
}
use easykafka_config_go.Prelude.Words.{ℤ}
use easykafka_config_go.Errors.{Bytes, Result}
use easykafka_config_go.Store.{Store, new_store, get}
use easykafka_config_go.Store.History.{last_write, run, run-append, get-run}
use easykafka_config_go.Registration.{Cell}
use easykafka_config_go.Registration.Replay.{writes, writes-append}
use easykafka_config_go.Detect.{partition_eof}
use easykafka_config_go.Driver.Event.{Record}
use easykafka_config_go.Loader.WarmUp.Driven.{Round, messages}
use easykafka_config_go.Loader.WarmUp.Driven.Loaded.{ReadWhole, warm_up_driven-ReadWhole}
use easykafka_config_go.Loader.Serve.Fleet.{Fleet, Reach, beginning}
use easykafka_config_go.Loader.Serve.Fleet.Returned.{returned_to, store-returned}
use easykafka_config_go.Loader.Start.{Bound, serving, start}
use easykafka_config_go.Loader.Start.Handover.{hand_over}
use easykafka_config_go.Loader.Start.Handover.Served.{Decoded}
use easykafka_config_go.Loader.Start.Handover.Live.{
  Feed, man, driven-kept, attached, regs_of, feeds_of,
}
use easykafka_config_go.Loader.Start.Handover.Manned.{warmed_driven}

module _ {K V : Type 0} (dec : Discrete K) (show : K → Bytes) (log_errors : Bool)
    (timeout : ℤ) where
  -- what `Get` finds after a warm-up and the writes of further messages
  get-live :
      (d : Decoded K V) (feed : Feed) {c : Cell (Store K V)} {s : Store K V}
      (w : ReadWhole dec show log_errors d.binding d.decode_key d.decode_value feed.metadata
        feed.client_assign feed.consumer feed.rounds c)
      (since : List (Record × ℕ))
      → s ≡ run dec (writes dec show log_errors d.binding d.decode_key d.decode_value since) c.store
      → (q : K)
      → get dec q s
        ≡ last_write dec q
            (writes dec show log_errors d.binding d.decode_key d.decode_value
              (messages feed.consumer.cfg.topic w.heard ++ since))
            (none, false)
  get-live d feed w since e q =
      let of = writes dec show log_errors d.binding d.decode_key d.decode_value in
      let heard = messages feed.consumer.cfg.topic w.heard in
      let all_writes =
        e
        ∙ ap (run dec (of since)) w.stored
        ∙ sym (run-append dec (of heard) (of since) new_store)
        ∙ ap (λ ws. run dec ws new_store)
            (sym (
              writes-append dec show log_errors d.binding d.decode_key d.decode_value heard
                since)) in
      ap (get dec q) all_writes ∙ (get-run dec (of (heard ++ since)) q).0

  -- Take a Start over new stores that ends up serving, and the goroutines that it hands the bindings
  -- and their consumers to, at any later time and in any interleaving. Then for every binding: its
  -- warm-up was assigned every partition that the broker reports of the topic, from the beginning,
  -- and the client reported the end of each; and `Get` finds under every key what the last effective
  -- message left there among those that the client returned in that part of the warm-up and then to
  -- the serving goroutine, each applied once and in order.
  pub start-live :
      {C : Type 0} (answers : List (Bytes × Result C)) (t : Decoded K V × Feed)
      (ts : List (Decoded K V × Feed)) (ctx_done has_handler : Bool) (polled : ℕ → List Round)
      {b : Bound (Store K V) (Option V)} {bs' : List (Bound (Store K V) (Option V))}
      {closed : List C} {f : Fleet (Store K V)}
      → start timeout partition_eof answers (attached dec show log_errors timeout (t ∷ ts))
        ≡ (b ∷ bs', (serving, closed))
      → (r : Reach (length (t ∷ ts)) (regs_of dec show log_errors timeout t ts) has_handler f)
      → beginning (length (t ∷ ts)) (regs_of dec show log_errors timeout t ts) has_handler r
        ≡ man ctx_done (feeds_of t ts) polled b bs'
      → (i : ℕ) → i < length (t ∷ ts)
      → let (d, feed) = pick t (t ∷ ts) i in
        (w : ReadWhole dec show log_errors d.binding d.decode_key d.decode_value feed.metadata
          feed.client_assign feed.consumer feed.rounds
          (pick b (b ∷ bs') i).cell)
        × ((q : K)
            → get dec q (f.system.workers i).cell.store
              ≡ last_write dec q
                  (writes dec show log_errors d.binding d.decode_key d.decode_value (
                    messages feed.consumer.cfg.topic w.heard
                    ++ returned_to feed.consumer.cfg.topic i r))
                  (none, false))
  unfolding man hand_over
  start-live answers t ts ctx_done has_handler polled {b} {bs'} h r began i lt =
      let (d, feed) = pick t (t ∷ ts) i in
      let whole =
        warm_up_driven-ReadWhole dec show log_errors d.binding d.decode_key d.decode_value
          feed.metadata feed.client_assign feed.consumer timeout feed.ctx_err feed.rounds
          (pick b (b ∷ bs') i).cell
          (warmed_driven dec show log_errors timeout answers t ts h i lt) in
      let kept = driven-kept (polled i) feed whole.covers.open_before in
      let of = writes dec show log_errors d.binding d.decode_key d.decode_value in
      let stored =
        store-returned dec show log_errors (λ j. (pick t (t ∷ ts) j).0.binding)
          (λ j. (pick t (t ∷ ts) j).0.decode_key) (λ j. (pick t (t ∷ ts) j).0.decode_value) i r
        ∙ ap
            (λ g.
              run dec (of (returned_to (g.consumers i).cfg.topic i r))
                (g.system.workers i).cell.store)
            began
        ∙ ap (λ cfg. run dec (of (returned_to cfg.topic i r)) (pick b (b ∷ bs') i).cell.store)
            kept.1 in
      (whole, get-live d feed whole (returned_to feed.consumer.cfg.topic i r) stored)
