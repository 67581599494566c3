-- ===== src/Loader/Start/Handover/Manned.antt =====
-- `Start` of loader.go on consumers of the driver: the warm-ups that it ran, and the consumers that it
-- hands over.
use easykafka_config_go.Prelude.{
  ℕ, ◌<◌, ◌≡◌, refl, sym, ap, ◌∙◌, Bool, false, Option, List, ◌∷◌, map, length, pick, pick-map,
  pick-cases, inl, inr, length-map, arith,
}
use mathlib.Core.Path.{subst}
use easykafka_config_go.Prelude.Words.{ℤ}
use easykafka_config_go.Errors.{Bytes, Result}
use easykafka_config_go.Store.{Store, new_store}
use easykafka_config_go.Registration.{new_cell}
use easykafka_config_go.Detect.{partition_eof}
use easykafka_config_go.Loader.WarmUp.{loaded, warm_up_binding}
use easykafka_config_go.Loader.WarmUp.Driven.{Round, warm_up_driven}
use easykafka_config_go.Loader.WarmUp.Driven.Loaded.{warm_up_driven-ReadWhole}
use easykafka_config_go.Loader.Serve.Fleet.{Manned}
use easykafka_config_go.Loader.Start.{Bound, serving, start}
use easykafka_config_go.Loader.Start.Handover.{start-serving, start-Started}
use easykafka_config_go.Loader.Start.Handover.Served.{Decoded, registered, warmed_at}
use easykafka_config_go.Loader.Start.Handover.Live.{
  Feed, script_of, man, driven-kept, with_script, attached, regs_of, feeds_of,
}

module _ {K V : Type 0} (dec : Discrete K) (show : K → Bytes) (log_errors : Bool)
    (timeout : ℤ) where
  pub warmed_driven :
      {C : Type 0} (answers : List (Bytes × Result C)) (t : Decoded K V × Feed)
      (ts : List (Decoded K V × Feed)) {b : Bound (Store K V) (Option V)}
      {bs' : List (Bound (Store K V) (Option V))} {closed : List C}
      → start timeout partition_eof answers (attached dec show log_errors timeout (t ∷ ts))
        ≡ (b ∷ bs', (serving, closed))
      → (i : ℕ) → i < length (t ∷ ts)
      → let (d, feed) = pick t (t ∷ ts) i in
        warm_up_driven
          (registered dec show log_errors timeout d)
          timeout
          partition_eof
          feed.ctx_err
          feed.metadata
          feed.client_assign
          feed.rounds
          feed.consumer
          (new_cell new_store)
        ≡ ((pick b (b ∷ bs') i).cell, loaded)
  unfolding warm_up_driven script_of
  warmed_driven answers t ts {b} {bs'} h i lt =
      let (same, all, _) =
        start-serving timeout answers (attached dec show log_errors timeout (t ∷ ts)) h in
      let warmed =
        warmed_at dec show log_errors timeout (map with_script (t ∷ ts)) i (with_script t) b
          (rw (length-map with_script ts) lt) all in
      subst
        (λ x.
          warm_up_binding (registered dec show log_errors timeout x.0) timeout partition_eof
            x.1.assigned x.1.turns (new_cell new_store)
          ≡ ((pick b (b ∷ bs') i).cell, loaded))
        (pick-map with_script t (t ∷ ts) i)
        (warmed ∙ ap (λ bs. ((pick b bs i).cell, loaded)) (sym same))

  -- a start that serves has found every consumer open
  open_before :
      {C : Type 0} (answers : List (Bytes × Result C)) (t : Decoded K V × Feed)
      (ts : List (Decoded K V × Feed)) {b : Bound (Store K V) (Option V)}
      {bs' : List (Bound (Store K V) (Option V))} {closed : List C}
      → start timeout partition_eof answers (attached dec show log_errors timeout (t ∷ ts))
        ≡ (b ∷ bs', (serving, closed))
      → (i : ℕ) → (feeds_of t ts i).consumer.closed ≡ false
  open_before answers t ts {b} {bs'} h i = elim (pick-cases t (t ∷ ts) i) [
    | inl lt ↦ read_open i lt
    | inr past ↦ ap (λ x. x.1.consumer.closed) past ∙ read_open 0 (omega arith)
  ]
    where
      read_open : (i : ℕ) → i < length (t ∷ ts) → (feeds_of t ts i).consumer.closed ≡ false
      read_open i lt =
          let (d, feed) = pick t (t ∷ ts) i in
          (warm_up_driven-ReadWhole dec show log_errors d.binding d.decode_key d.decode_value
            feed.metadata feed.client_assign feed.consumer timeout feed.ctx_err feed.rounds
            (pick b (b ∷ bs') i).cell (warmed_driven answers t ts h i lt)).covers.open_before

  -- If Start ends up serving, the goroutines and consumers that it hands the bindings to are as
  -- `Fleet` takes them to be at the start: every goroutine at the head of its loop, every consumer
  -- open.
  pub start-Manned :
      {C : Type 0} (answers : List (Bytes × Result C)) (t : Decoded K V × Feed)
      (ts : List (Decoded K V × Feed)) (ctx_done has_handler : Bool) (polled : ℕ → List Round)
      {b : Bound (Store K V) (Option V)} {bs' : List (Bound (Store K V) (Option V))}
      {closed : List C}
      → start timeout partition_eof answers (attached dec show log_errors timeout (t ∷ ts))
        ≡ (b ∷ bs', (serving, closed))
      → Manned
          (length (t ∷ ts))
          (regs_of dec show log_errors timeout t ts)
          has_handler
          (man ctx_done (feeds_of t ts) polled b bs')
  unfolding man
  start-Manned answers t ts ctx_done has_handler polled h =
      let (_, _, ready) =
        start-Started timeout answers (attached dec show log_errors timeout (t ∷ ts)) ctx_done
          has_handler h in
      record {
        started = ready;
        open_all = λ i. (driven-kept (polled i) (feeds_of t ts i) (open_before answers t ts h i)).0;
        unclosed = λ i. refl;
      }
