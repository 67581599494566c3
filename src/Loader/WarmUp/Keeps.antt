-- ===== src/Loader/WarmUp/Keeps.antt =====
-- `warmUpBinding` of loader.go: a property of a binding's state that each of its actions keeps is
-- kept by the whole.
use easykafka_config_go.Prelude.{
  ℕ, ◌==◌, ◌&&◌, not, Option, List, [], ◌∷◌, Option-cases, Bool-cases, inl, inr,
}
use easykafka_config_go.Prelude.Words.{ℤ, signed, leb_ℤ}
use easykafka_config_go.Errors.{Err, Result, ok, err}
use easykafka_config_go.Driver.Event.{Record, Event, record_read, eof, idle, failure}
use easykafka_config_go.Observer.{Phase, on_kafka_error, on_load_progress, on_phase}
use easykafka_config_go.Registration.{Cell, Registration, tell}
use easykafka_config_go.Detect.{Detector, Detection, partition_eof, begin, observe}
use easykafka_config_go.Loader.WarmUp.{
  load_progress_every, Turn, Outcome, Next, stop, go_on, classify, apply_warming, finish,
  after_poll, round, warm_loop, warm_up_binding,
}

module _ {S A : Type 0} (reg : Registration S A) where
  -- A property that the actions of a binding's goroutine keep.
  pub record Kept {κ} (P : Cell S → Type κ) : Type κ where
    pub applies : (rec : Record) (now : ℕ) (c : Cell S) → P c → P (reg.apply rec now c)
    pub tells_error : (e : Option Err) (c : Cell S) → P c → P (tell (on_kafka_error reg.name e) c)
    pub tells_progress : (n : ℤ) (c : Cell S) → P c → P (tell (on_load_progress reg.name n) c)
    pub steadies :
        (n : ℤ) (took : ℕ) (c : Cell S)
        → P c
        → P (
            tell
              (on_phase reg.name Phase.steady n took)
              (record c { warmup_took = took; phase = Phase.steady }))
    pub stops : (c : Cell S) → P c → P (record c { phase = Phase.stopped })

  module _ {κ} {P : Cell S → Type κ} (kept : Kept P) where
    pub classify-kept : (ev : Event) (c : Cell S) → P c → P (classify reg ev c).0
    unfolding classify
    classify-kept (failure e fatal) c h = kept.tells_error e c h
    classify-kept (record_read rec) c h = h
    classify-kept (eof p o) c h = h
    classify-kept idle c h = h

    apply_warming-kept :
        (ev : Event) (now p : ℕ) (c : Cell S) → P c → P (apply_warming reg ev now p c).1
    unfolding apply_warming
    apply_warming-kept (record_read rec) now p c h =
        let c' = reg.apply rec now c in
        elim (Bool-cases (leb_ℤ (signed p) (signed c'.warmup_applied))) [
          | inl reached ↦ rw reached (kept.tells_progress _ c' (kept.applies rec now c h))
          | inr below ↦ rw below (kept.applies rec now c h)
        ]
    apply_warming-kept (failure e fatal) now p c h = h
    apply_warming-kept (eof q o) now p c h = h
    apply_warming-kept idle now p c h = h

    finish-kept : (took : ℕ) (c : Cell S) → P c → P (finish reg took c).0
    unfolding finish
    finish-kept took c h = elim (Bool-cases ((c.warmup_applied == 0) && not reg.allow_empty)) [
      | inl empty ↦ rw empty h
      | inr full ↦ rw full (kept.steadies _ took c h)
    ]

    -- the state that a round leaves
    left_by : Next S → Cell S
    left_by (stop c o) = c
    left_by (go_on p d c) = c

    module _ (timeout : ℤ) where
      after_poll-kept :
          (t : Turn) (d : Detection) (r : ℕ × Cell S)
          → P r.1
          → P (left_by (after_poll reg timeout t d r))
      unfolding after_poll left_by
      after_poll-kept t d (p, c) h = elim (Bool-cases (observe t.event d).1) [
        | inl ended ↦ rw ended (finish-kept t.took c h)
        | inr going ↦ rw going h
      ]

      round-kept :
          (p : ℕ) (d : Detection) (t : Turn) (c : Cell S)
          → P c
          → P (left_by (round reg timeout p d t c))
      unfolding round left_by
      round-kept p d t c h = elim (Option-cases t.ctx_err) [
        | inr (e, done) ↦ rw done h
        | inl going ↦ elim (Bool-cases (classify reg t.event c).1.1) [
          | inl fatal ↦ rw (going, fatal) (classify-kept t.event c h)
          | inr mild ↦
              rw (going, mild)
                (after_poll-kept t d _
                  (apply_warming-kept t.event t.now p _ (classify-kept t.event c h)))
        ]
      ]

      warm_loop-kept :
          (p : ℕ) (d : Detection) (ts : List Turn) (c : Cell S)
          → P c
          → P (warm_loop reg timeout p d ts c).0
      unfolding warm_loop left_by
      warm_loop-kept p d [] c h = h
      warm_loop-kept p d (t ∷ ts) c h =
          by_next (round reg timeout p d t c) (round-kept p d t c h)
            (λ p' d' c'. warm_loop-kept p' d' ts c')
        where
          by_next :
              (n : Next S)
              → P (left_by n)
              → ((p' : ℕ) (d' : Detection) (c' : Cell S)
                  → P c'
                  → P (warm_loop reg timeout p' d' ts c').0)
              → P
                  (elim n as (λ x. Cell S × Outcome) [
                    | stop c' o ↦ (c', o)
                    | go_on p' d' c' ↦ warm_loop reg timeout p' d' ts c'
                  ]).0
          by_next (stop c' o) k ih = k
          by_next (go_on p' d' c') k ih = ih p' d' c' k

      pub warm_up_binding-kept :
          (detector : Detector) (assigned : Result (List ℕ)) (turns : List Turn) (c : Cell S)
          → P c
          → P (warm_up_binding reg timeout detector assigned turns c).0
      unfolding warm_up_binding begin
      warm_up_binding-kept partition_eof (err e) turns c h = h
      warm_up_binding-kept partition_eof (ok ps) turns c h =
          warm_loop-kept load_progress_every _ turns c h
