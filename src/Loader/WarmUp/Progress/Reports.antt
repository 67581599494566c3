-- ===== src/Loader/WarmUp/Progress/Reports.antt =====
-- `warmUpBinding` of loader.go: the reports of progress that a whole warm-up makes.
use easykafka_config_go.Prelude.{
  ℕ, ◌+◌, ◌<◌, ◌≤◌, ◌≡◌, refl, ◌∙◌, Bool, Option, List, [], ◌∷◌, length, arith, Bool-cases,
  Option-cases, ◌==◌, ◌&&◌, not, inl, inr,
}
use native.Mathlib.Nat.{zero-add}
use easykafka_config_go.Prelude.Words.{ℤ, sign_mod}
use easykafka_config_go.Errors.{Bytes, Result, ok, err}
use easykafka_config_go.Text.{Slice}
use easykafka_config_go.Binding.{Binding}
use easykafka_config_go.Store.{Store}
use easykafka_config_go.Registration.{Cell, new_cell, Registration, registration_of}
use easykafka_config_go.Detect.{Detector, Detection, partition_eof, begin, insert_all, observe}
use easykafka_config_go.Loader.WarmUp.{
  load_progress_every, Turn, Next, stop, go_on, classify, finish, after_poll, round, warm_loop,
  warm_up_binding,
}
use easykafka_config_go.Loader.WarmUp.Laws.{warm_loop-stop, warm_loop-go_on}
use easykafka_config_go.Loader.WarmUp.Progress.{multiples, progress_counts-quiet}
use easykafka_config_go.Loader.WarmUp.Progress.Paced.{
  Reported, Paced, After, classify-Paced, apply_warming-After,
}

module _ {K V : Type 0} (dec : Discrete K) (show : K → Bytes) (log_errors : Bool) (b : Binding K V)
    (decode_key : Slice → Result K) (decode_value : Slice → Result (Option V)) where
  abbrev reg : Registration (Store K V) (Option V)
  reg = registration_of dec show log_errors b decode_key decode_value

  finish-Reported :
      (took : ℕ) (c : Cell (Store K V))
      → Reported c
      → Reported (finish reg took c).0 × ((finish reg took c).0.warmup_applied ≡ c.warmup_applied)
  unfolding finish registration_of
  finish-Reported took c h = elim (Bool-cases ((c.warmup_applied == 0) && not b.allow_empty)) [
    | inl empty ↦ rw empty (h, refl)
    | inr kept ↦ rw kept (progress_counts-quiet c.trace _ refl ∙ h, refl)
  ]

  -- how a round may end
  Leaves : Cell (Store K V) → Next (Store K V) → Type 0
  Leaves c (stop c' o) = Reported c' × (c'.warmup_applied ≤ c.warmup_applied + 1)
  Leaves c (go_on p' d' c') = After p' c c'

  after_poll-Leaves :
      (timeout : ℤ) (t : Turn) (d : Detection) (p : ℕ) (c c' : Cell (Store K V))
      → After p c c'
      → Leaves c (after_poll reg timeout t d (p, c'))
  unfolding after_poll Leaves
  after_poll-Leaves timeout t d p c c' h =
      let (reported, same) = finish-Reported t.took c' h.paced.reported in
      elim (Bool-cases (observe t.event d).1) [
        | inl ended ↦ rw ended (reported, omega (arith, same, h.counted))
        | inr going ↦ rw going h
      ]

  round-Leaves :
      (timeout : ℤ) (p : ℕ) (d : Detection) (t : Turn) (c : Cell (Store K V))
      → Paced p c
      → c.warmup_applied + load_progress_every + 1 < sign_mod
      → Leaves c (round reg timeout p d t c)
  unfolding round Leaves
  round-Leaves timeout p d t c h small = elim (Option-cases t.ctx_err) [
    | inr (e, done) ↦ rw done (h.reported, omega arith)
    | inl going ↦
        let heard = classify-Paced dec show log_errors b decode_key decode_value p t.event c h in
        let c1 = (classify reg t.event c).0 in
        let applied =
          apply_warming-After dec show log_errors b decode_key decode_value p t.event t.now c1
            heard.0 (rw heard.1 small) in
        elim (Bool-cases (classify reg t.event c).1.1) [
          | inl fatal ↦ rw (going, fatal) (heard.0.reported, omega (arith, heard.1))
          | inr mild ↦
              rw (going, mild)
                (after_poll-Leaves timeout t d _ c _
                  (record { paced = applied.paced; counted = rw heard.1 at applied.counted }))
        ]
  ]

  -- what the loop makes of a state that keeps pace
  abbrev Keeps : ℤ → ℕ → Detection → List Turn → Cell (Store K V) → Type 0
  Keeps timeout p d ts c =
      Paced p c
      → c.warmup_applied + length ts + load_progress_every < sign_mod
      → let c' = (warm_loop reg timeout p d ts c).0 in
        Reported c' × (c'.warmup_applied ≤ c.warmup_applied + length ts)

  round-Keeps :
      (timeout : ℤ) (p : ℕ) (d : Detection) (t : Turn) (ts : List Turn) (c : Cell (Store K V))
      → ((p' : ℕ) (d' : Detection) (c1 : Cell (Store K V)) → Keeps timeout p' d' ts c1)
      → (n : Next (Store K V)) → round reg timeout p d t c ≡ n
      → c.warmup_applied + length (t ∷ ts) + load_progress_every < sign_mod
      → Leaves c n
      → let c' = (warm_loop reg timeout p d (t ∷ ts) c).0 in
        Reported c' × (c'.warmup_applied ≤ c.warmup_applied + length (t ∷ ts))
  unfolding Leaves
  round-Keeps timeout p d t ts c ih (stop c1 o) e small (reported, counted) =
      rw (warm_loop-stop reg timeout p d t ts c e) (reported, omega (arith, counted))
  round-Keeps timeout p d t ts c ih (go_on p' d' c1) e small after =
      let later = ih p' d' c1 after.paced (omega (arith, after.counted, small)) in
      rw (warm_loop-go_on reg timeout p d t ts c e) (later.0, omega (arith, later.1, after.counted))

  warm_loop-Keeps :
      (timeout : ℤ) (p : ℕ) (d : Detection) (ts : List Turn) (c : Cell (Store K V))
      → Keeps timeout p d ts c
  unfolding warm_loop
  warm_loop-Keeps timeout p d [] c h small = (h.reported, omega arith)
  warm_loop-Keeps timeout p d (t ∷ ts) c h small =
      round-Keeps timeout p d t ts c (λ p' d' c1. warm_loop-Keeps timeout p' d' ts c1)
        (round reg timeout p d t c) refl small
        (round-Leaves timeout p d t c h (omega (arith, small)))

  -- Warm-up on a new state reports its progress exactly once for every `loadProgressEvery` records
  -- applied, however it ends: if fewer than 2 ^ 63 - `loadProgressEvery` turns are given, the
  -- OnLoadProgress calls in the trace carry, in order, the first a / `loadProgressEvery` positive
  -- multiples of `loadProgressEvery`, where a is the count of applied records, which is at most
  -- the number of turns and has not wrapped.
  pub warm_up_binding-Reported :
      (timeout : ℤ) (detector : Detector) (assigned : Result (List ℕ)) (turns : List Turn)
      (s : Store K V)
      → length turns + load_progress_every < sign_mod
      → let c' = (warm_up_binding reg timeout detector assigned turns (new_cell s)).0 in
        Reported c' × (c'.warmup_applied ≤ length turns)
  unfolding warm_up_binding multiples begin
  warm_up_binding-Reported timeout detector (err e) turns s small = (refl, omega arith)
  warm_up_binding-Reported timeout partition_eof (ok ps) turns s small =
      let start : Paced load_progress_every (new_cell s) = record {
        warming = refl;
        threshold = refl;
        reported = refl;
      } in
      rw zero-add at (
        warm_loop-Keeps timeout load_progress_every (record { remaining = insert_all ps [] }) turns
          (new_cell s) start (omega (arith, small)))
