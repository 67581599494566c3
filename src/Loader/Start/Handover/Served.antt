-- ===== src/Loader/Start/Handover/Served.antt =====
-- loader.go, from `Start` to `serveBinding`: what a service reads from a store that it has bound.
use easykafka_config_go.Prelude.{
  ℕ, zero, suc, ◌<◌, ◌≡◌, sym, ap, ◌∙◌, Bool, false, Option, none, List, [], ◌∷◌, ◌++◌, map, All,
  length, pick, arith,
}
use easykafka_config_go.Prelude.Words.{ℤ}
use easykafka_config_go.Errors.{Bytes, Result, ok}
use easykafka_config_go.Text.{Slice}
use easykafka_config_go.Binding.{Binding}
use easykafka_config_go.Store.{Store, new_store, get}
use easykafka_config_go.Store.History.{last_write}
use easykafka_config_go.Registration.{new_cell, Registration, registration_of}
use easykafka_config_go.Detect.{partition_eof}
use easykafka_config_go.Loader.WarmUp.{loaded, warm_up_binding}
use easykafka_config_go.Loader.WarmUp.Complete.{WholeTopic}
use easykafka_config_go.Loader.WarmUp.Records.{effects}
use easykafka_config_go.Loader.Serve.{System, Reach}
use easykafka_config_go.Loader.Serve.Applied.{writes_by, polled_by, origin, get-Reach}
use easykafka_config_go.Loader.Start.{Bound, Script, serving, warm_all, start}
use easykafka_config_go.Loader.Start.Handover.{hand_over, start-serving}

-- A binding with its decoders.
pub record Decoded (K V : Type 0) : Type 0 where
  pub binding : Binding K V
  pub decode_key : Slice → Result K
  pub decode_value : Slice → Result (Option V)

module _ {K V : Type 0} (dec : Discrete K) (show : K → Bytes) (log_errors : Bool)
    (timeout : ℤ) where
  abbrev pub registered : Decoded K V → Registration (Store K V) (Option V)
  registered t = registration_of dec show log_errors t.binding t.decode_key t.decode_value

  -- what Bind leaves in the loader, over a new store
  abbrev pub bound : Decoded K V × Script → Bound (Store K V) (Option V) × Script
  bound (t, script) = (record { reg = registered t; cell = new_cell new_store }, script)

  -- the warm-up of the binding at an index
  pub warmed_at :
      (bs : List (Decoded K V × Script)) (i : ℕ) (t : Decoded K V × Script)
      (b : Bound (Store K V) (Option V))
      → i < length bs
      → All (λ o. o ≡ loaded) (map (λ r. r.1) (warm_all timeout partition_eof (map bound bs)))
      → warm_up_binding
          (registered (pick t bs i).0)
          timeout
          partition_eof
          (pick t bs i).1.assigned
          (pick t bs i).1.turns
          (new_cell new_store)
        ≡ ((pick b (map (λ r. r.0) (warm_all timeout partition_eof (map bound bs))) i).cell, loaded)
  unfolding warm_all
  warmed_at [] i t b lt all = absurd (omega (arith, lt))
  warmed_at ((d, script) ∷ bs) zero t b lt all =
      ap
        (λ o. (
          (warm_up_binding (registered d) timeout partition_eof script.assigned script.turns
              (new_cell new_store)).0,
          o,
        ))
        all.0
  warmed_at (x ∷ bs) (suc i) t b lt all = warmed_at bs i t b (omega (arith, lt)) all.1

  -- Take a Start over new stores that ends up serving, and the state of the goroutines at any later
  -- time, in any interleaving. Then in the store of every binding `Get` finds under every key what
  -- the last effective record left there among all that the binding has read: those of its warm-up,
  -- which has read the partitions assigned to it to their ends, and then those that its serving
  -- goroutine has polled, each applied once and in order.
  pub start-get :
      {C : Type 0} (answers : List (Bytes × Result C)) (t : Decoded K V × Script)
      (ts : List (Decoded K V × Script)) (ctx_done has_handler : Bool)
      {b : Bound (Store K V) (Option V)} {bs' : List (Bound (Store K V) (Option V))}
      {closed : List C} {s : System (Store K V)}
      → start timeout partition_eof answers (map bound (t ∷ ts)) ≡ (b ∷ bs', (serving, closed))
      → (r : Reach (length (t ∷ ts)) (λ i. registered (pick t (t ∷ ts) i).0) has_handler s)
      → origin r ≡ hand_over ctx_done b bs'
      → (i : ℕ) (ps : List ℕ) → i < length (t ∷ ts)
      → (pick t (t ∷ ts) i).1.assigned ≡ ok ps
      → let d = (pick t (t ∷ ts) i).0 in
        (w : WholeTopic dec show log_errors d.binding d.decode_key d.decode_value ps
          (pick t (t ∷ ts) i).1.turns
          ((origin r).workers i).cell)
        × ((q : K)
            → get dec q (s.workers i).cell.store
              ≡ last_write dec q
                  (effects dec show log_errors d.binding d.decode_key d.decode_value w.heard
                    ++ writes_by dec show log_errors
                        (λ j. (pick t (t ∷ ts) j).0.binding)
                        (λ j. (pick t (t ∷ ts) j).0.decode_key)
                        (λ j. (pick t (t ∷ ts) j).0.decode_value)
                        i
                        (polled_by i r))
                  (none, false))
  unfolding hand_over
  start-get answers t ts ctx_done has_handler {b} {bs'} h r began i ps lt assigned =
      let (same, all, _) = start-serving timeout answers (map bound (t ∷ ts)) h in
      let (d, script) = pick t (t ∷ ts) i in
      get-Reach dec show log_errors (λ j. (pick t (t ∷ ts) j).0.binding)
        (λ j. (pick t (t ∷ ts) j).0.decode_key) (λ j. (pick t (t ∷ ts) j).0.decode_value) i r
        timeout ps script.turns
        (ap
            (λ a.
              warm_up_binding (registered d) timeout partition_eof a script.turns
                (new_cell new_store))
            (sym assigned)
          ∙ warmed_at (t ∷ ts) i t b lt all
          ∙ ap (λ bs. ((pick b bs i).cell, loaded)) (sym same)
          ∙ ap (λ s. ((s.workers i).cell, loaded)) (sym began))
