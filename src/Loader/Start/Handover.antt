-- ===== src/Loader/Start/Handover.antt =====
-- `Start` of loader.go: the handover of every binding from its warm-up to its serving goroutine.
pub mod Served
pub mod Live
pub mod Manned
pub mod Reading
use easykafka_config_go.Prelude.{
  ℕ, zero, suc, ◌<◌, ◌≡◌, ◌≢◌, refl, sym, ap, ◌∙◌, Bool, true, false, Option, none, some, List, [],
  ◌∷◌, ◌++◌, map, All, length, pick, All-pick, arith,
}
use mathlib.Core.Path.{subst}
use easykafka_config_go.Prelude.Words.{ℤ}
use easykafka_config_go.Errors.{Bytes, Err, Result, ok, err, join_errors}
use easykafka_config_go.Text.{Slice}
use easykafka_config_go.Observer.{Phase}
use easykafka_config_go.Binding.{Binding}
use easykafka_config_go.Store.{Store, new_store, get}
use easykafka_config_go.Store.History.{last_write}
use easykafka_config_go.Registration.{Cell, new_cell, Registration, registration_of}
use easykafka_config_go.Detect.{Detector, Detection, partition_eof, begin, insert_all}
use easykafka_config_go.Loader.WarmUp.{
  Turn, Outcome, loaded, load_progress_every, finish, warm_loop, warm_up_binding,
}
use easykafka_config_go.Loader.WarmUp.Laws.{warmed, Completed, warm_loop-Completed}
use easykafka_config_go.Loader.WarmUp.Complete.{WholeTopic}
use easykafka_config_go.Loader.WarmUp.Records.{effects}
use easykafka_config_go.Loader.Serve.{System, Worker, checking, Started, Reach}
use easykafka_config_go.Loader.Serve.Applied.{writes_by, polled_by, origin, get-Reach}
use easykafka_config_go.Loader.Start.{
  Bound, Script, Progress, warming, refused, serving, warm_all, conclude, start_with, constructed,
  new_consumers, built, construction_errors, start,
}
use easykafka_config_go.Loader.Start.AllOrNothing.{Concluded, conclude-Concluded}

-- `l.serving.Go(…)` for each binding: the goroutines at the head of their loops. An index past the
-- last binding stands for no goroutine.
unfoldable pub hand_over : {S A : Type 0} → Bool → Bound S A → List (Bound S A) → System S
hand_over ctx_done b bs = record {
  err = none;
  ctx_done = ctx_done;
  handled = [];
  workers = λ i. record { cell = (pick b (b ∷ bs) i).cell; pc = checking; closes = 0 };
}

refused-ne-serving : {e : Err} → refused e ≢ serving
refused-ne-serving h = cc

module _ {S A : Type 0} (timeout : ℤ) where
  finish-steady :
      (reg : Registration S A) (took : ℕ) (c c' : Cell S)
      → finish reg took c ≡ (c', loaded)
      → c'.phase ≡ Phase.steady
  unfolding finish
  finish-steady reg took c c' h = ground arith

  warm_up_binding-steady :
      (reg : Registration S A) (assigned : Result (List ℕ)) (turns : List Turn) (c : Cell S)
      → (warm_up_binding reg timeout partition_eof assigned turns c).1 ≡ loaded
      → (warm_up_binding reg timeout partition_eof assigned turns c).0.phase ≡ Phase.steady
  unfolding warm_up_binding begin
  warm_up_binding-steady reg (err e) turns c h = absurd (ground arith)
  warm_up_binding-steady reg (ok ps) turns c h =
      let d : Detection = record { remaining = insert_all ps [] } in
      let c' = (warm_loop reg timeout load_progress_every d turns c).0 in
      let done =
        warm_loop-Completed reg timeout load_progress_every d turns c c' (ap (λ o. (c', o)) h) in
      finish-steady reg done.took _ c' done.result

  All-steady :
      (bs : List (Bound S A × Script))
      → All (λ o. o ≡ loaded) (map (λ r. r.1) (warm_all timeout partition_eof bs))
      → All (λ b. b.cell.phase ≡ Phase.steady) (map (λ r. r.0) (warm_all timeout partition_eof bs))
  unfolding warm_all
  All-steady [] h = tt
  All-steady ((b, script) ∷ bs) h =
      (warm_up_binding-steady b.reg script.assigned script.turns b.cell h.0, All-steady bs h.1)

  -- a start that serves has loaded every binding
  pub start-serving :
      {C : Type 0} (answers : List (Bytes × Result C)) (bs : List (Bound S A × Script))
      {bs' : List (Bound S A)} {closed : List C}
      → start timeout partition_eof answers bs ≡ (bs', (serving, closed))
      → (bs' ≡ map (λ r. r.0) (warm_all timeout partition_eof bs))
        × All (λ o. o ≡ loaded) (map (λ r. r.1) (warm_all timeout partition_eof bs))
        × (closed ≡ [])
  unfolding start start_with Concluded
  start-serving {C} answers bs {bs'} {closed} h = built_all (new_consumers answers) h
    where
      built_all :
          (r : Result (List C) × List C)
          → start_with timeout partition_eof bs r ≡ (bs', (serving, closed))
          → (bs' ≡ map (λ r. r.0) (warm_all timeout partition_eof bs))
            × All (λ o. o ≡ loaded) (map (λ r. r.1) (warm_all timeout partition_eof bs))
            × (closed ≡ [])
      built_all (err e, cs) h = absurd (refused-ne-serving (ap (λ r. r.1.0) h))
      built_all (ok consumers, cs) h =
          let outcomes = map (λ r. r.1) (warm_all timeout partition_eof bs) in
          let promise : Concluded consumers outcomes serving closed =
            subst (λ p. Concluded consumers outcomes p.0 p.1) (ap (λ r. r.1) h)
              (conclude-Concluded consumers outcomes) in
          (sym (ap (λ r. r.0) h), promise.1, promise.0)

  registrations_kept :
      (bs : List (Bound S A × Script))
      → map (λ b. b.reg) (map (λ r. r.0) (warm_all timeout partition_eof bs))
        ≡ map (λ b. b.0.reg) bs
  unfolding warm_all
  registrations_kept [] = refl
  registrations_kept ((b, script) ∷ bs) = ap (◌∷◌ b.reg) (registrations_kept bs)

  -- If Start ends up serving, it has closed no consumer, every binding has its registration still,
  -- and the goroutines that it hands them to are as `Serve` takes them to be at the start: nothing
  -- recorded, every goroutine at the head of its loop with its consumer open, and every phase
  -- steady.
  pub start-Started :
      {C : Type 0} (answers : List (Bytes × Result C)) (bs : List (Bound S A × Script))
      (ctx_done has_handler : Bool) {b : Bound S A} {bs' : List (Bound S A)} {closed : List C}
      → start timeout partition_eof answers bs ≡ (b ∷ bs', (serving, closed))
      → (closed ≡ [])
        × (map (λ b. b.reg) (b ∷ bs') ≡ map (λ b. b.0.reg) bs)
        × Started (length bs) (λ i. (pick b (b ∷ bs') i).reg) has_handler (hand_over ctx_done b bs')
  unfolding hand_over
  start-Started answers bs ctx_done has_handler {b} {bs'} h =
      let (same, all, nothing_closed) = start-serving answers bs h in
      let steady : All (λ b. b.cell.phase ≡ Phase.steady) (b ∷ bs') =
        subst (All (λ b. b.cell.phase ≡ Phase.steady)) (sym same) (All-steady bs all) in
      (
        nothing_closed,
        ap (map (λ b. b.reg)) same ∙ registrations_kept bs,
        (
          refl,
          refl,
          λ i. (
            refl,
            refl,
            All-pick (λ b. b.cell.phase ≡ Phase.steady) b (b ∷ bs') i steady.0 steady,
          ),
        ),
      )
