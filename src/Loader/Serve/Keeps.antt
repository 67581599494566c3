-- ===== src/Loader/Serve/Keeps.antt =====
-- `serveBinding` of loader.go: a property of a binding's state that each of its actions keeps is kept
-- in every interleaving.
use easykafka_config_go.Prelude.{ℕ, Bool, Bool-cases, inl, inr}
use easykafka_config_go.Prelude.Family.{update-each}
use easykafka_config_go.Driver.Event.{Event, record_read, eof, idle, failure}
use easykafka_config_go.Registration.{Cell, Registration}
use easykafka_config_go.Loader.WarmUp.{classify}
use easykafka_config_go.Loader.WarmUp.Keeps.{Kept, classify-kept}
use easykafka_config_go.Loader.Serve.{
  Worker, System, apply_serving, handle, check, close, Step, checked, polled, died, closed, Reach,
  start, later, cancelled,
}
use easykafka_config_go.Loader.Serve.Stop.{workers-binding_died}
use easykafka_config_go.Loader.Serve.Applied.{origin}

module _ {κ} {S A : Type 0} {regs : ℕ → Registration S A} (P : ℕ → Cell S → Type κ)
    (kept : (i : ℕ) → Kept (regs i) (P i)) where
  apply_serving-kept :
      (i : ℕ) (ev : Event) (now : ℕ) (c : Cell S) → P i c → P i (apply_serving (regs i) ev now c)
  unfolding apply_serving
  apply_serving-kept i (record_read rec) now c h = (kept i).applies rec now c h
  apply_serving-kept i (eof p o) now c h = h
  apply_serving-kept i idle now c h = h
  apply_serving-kept i (failure e fatal) now c h = h

  handle-kept :
      (i : ℕ) (ev : Event) (now : ℕ) (w : Worker S)
      → P i w.cell
      → P i (handle (regs i) ev now w).cell
  unfolding handle
  handle-kept i ev now w h =
      let heard = classify-kept (regs i) (kept i) ev w.cell h in
      elim (Bool-cases (classify (regs i) ev w.cell).1.1) [
        | inl fatal ↦ rw fatal heard
        | inr mild ↦ rw mild (apply_serving-kept i ev now _ heard)
      ]

  abbrev Holds : System S → Type κ
  Holds s = (i : ℕ) → P i (s.workers i).cell

  Step-kept :
      {n : ℕ} {has_handler : Bool} {s t : System S}
      → Step n regs has_handler s t
      → Holds s
      → Holds t
  unfolding check close
  Step-kept {s = s} (checked i lt e) h =
      update-each (λ k w. P k w.cell) s.workers i _ (λ k ne. h k) (h i)
  Step-kept {s = s} (polled i ev now lt e) h =
      update-each (λ k w. P k w.cell) s.workers i _ (λ k ne. h k) (handle-kept i ev now _ (h i))
  Step-kept {n} {has_handler} {s} (died i x lt e) h =
      rw (workers-binding_died n regs has_handler x s)
        (update-each (λ k w. P k w.cell) s.workers i _ (λ k ne. h k) (h i))
  Step-kept {s = s} (closed i lt e) h =
      update-each (λ k w. P k w.cell) s.workers i _ (λ k ne. h k) ((kept i).stops _ (h i))

  pub Reach-kept :
      {n : ℕ} {has_handler : Bool} {s : System S} (r : Reach n regs has_handler s)
      → ((i : ℕ) → P i ((origin r).workers i).cell)
      → (i : ℕ) → P i (s.workers i).cell
  unfolding origin
  Reach-kept (start st) h = h
  Reach-kept (later r st) h = Step-kept st (Reach-kept r h)
  Reach-kept (cancelled r) h = Reach-kept r h
