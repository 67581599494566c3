-- ===== src/Loader/WarmUp/Ends.antt =====
-- The loop of `warmUpBinding` of loader.go, round by round.
use easykafka_config_go.Prelude.{
  ℕ, ◌≡◌, refl, ◌⊎◌, inl, inr, Bool, true, false, Option, none, some, List, [], ◌∷◌, ◌++◌, All,
  is_empty, arith, ◌∙◌, sym, ap, Bool-cases,
}
use easykafka_config_go.Prelude.Words.{ℤ}
use easykafka_config_go.Errors.{Err, sentinel, wrap, Context, empty_topic}
use easykafka_config_go.Driver.Event.{Event, record_read, eof, idle, failure}
use easykafka_config_go.Registration.{Cell, Registration}
use easykafka_config_go.Detect.{Detection, discard, after_event, observe}
use easykafka_config_go.Detect.Laws.{observe_all}
use easykafka_config_go.Loader.WarmUp.{
  Turn, Outcome, failed, loaded, stop, go_on, name_timeout, wrap_option, classify, apply_warming,
  finish, after_poll, round, warm_loop,
}
use easykafka_config_go.Loader.WarmUp.Laws.{Calm, events, warmed, warm_loop-stop, warm_loop-go_on}

-- Once complete, a detection stays complete.
observe_all-done :
    (evs : List Event) (d : Detection) (done : Bool)
    → is_empty d.remaining ≡ true
    → done ≡ true
    → (observe_all evs (d, done)).1 ≡ true
unfolding observe_all observe after_event discard
observe_all-done [] d done e h = h
observe_all-done (ev ∷ evs) d done e h =
    observe_all-done evs _ _ (kept ev d.remaining e) (kept ev d.remaining e)
  where
    kept : (ev : Event) (rs : List ℕ) → is_empty rs ≡ true → is_empty (after_event ev rs) ≡ true
    kept (eof p offset) [] e = refl
    kept (record_read r) [] e = refl
    kept idle [] e = refl
    kept (failure x f) [] e = refl
    kept ev (r ∷ rs) e = cc

observe-flag :
    (ev : Event) (d : Detection)
    → (observe ev d).1 ≡ true
    → is_empty (observe ev d).0.remaining ≡ true
unfolding observe
observe-flag ev d h = h

module _ {S A : Type 0} (reg : Registration S A) (timeout : ℤ) where
  -- The state before the detection is asked about a turn.
  abbrev step : ℕ → Turn → Cell S → ℕ × Cell S
  step p t c = apply_warming reg t.event t.now p (classify reg t.event c).0

  round-done :
      (p : ℕ) (d : Detection) (t : Turn) (c : Cell S)
      → Calm t
      → (observe t.event d).1 ≡ true
      → round reg timeout p d t c
        ≡ stop (finish reg t.took (step p t c).1).0 (finish reg t.took (step p t c).1).1
  unfolding round after_poll classify
  round-done p d t c calm h = ground arith

  round-more :
      (p : ℕ) (d : Detection) (t : Turn) (c : Cell S)
      → Calm t
      → (observe t.event d).1 ≡ false
      → round reg timeout p d t c ≡ go_on (step p t c).0 (observe t.event d).0 (step p t c).1
  unfolding round after_poll classify
  round-more p d t c calm h = ground arith

  -- loaded, or ErrEmptyTopic
  abbrev pub Ended : Outcome → Type 0
  Ended o =
      (o ≡ loaded)
      ⊎ (o ≡ failed (wrap (Context.binding_on_topic reg.name reg.topic) (sentinel empty_topic)))

  finish-Ended : (took : ℕ) (c : Cell S) → Ended (finish reg took c).1
  unfolding finish
  finish-Ended took c = ground arith

  pub warm_loop-Ended :
      (p : ℕ) (d : Detection) (heard rest : List Turn) (c : Cell S)
      → All Calm heard
      → (observe_all (events heard) (d, false)).1 ≡ true
      → Ended (warm_loop reg timeout p d (heard ++ rest) c).1
  unfolding observe_all
  warm_loop-Ended p d [] rest c calm h = absurd (ground arith)
  warm_loop-Ended p d (t ∷ heard) rest c calm h = elim (Bool-cases (observe t.event d).1) [
    | inl done ↦
        rw (warm_loop-stop reg timeout p d t (heard ++ rest) c (round-done p d t c calm.0 done))
          (finish-Ended t.took (step p t c).1)
    | inr more ↦
        rw (warm_loop-go_on reg timeout p d t (heard ++ rest) c (round-more p d t c calm.0 more)) (
          warm_loop-Ended (step p t c).0 (observe t.event d).0 heard rest (step p t c).1 calm.1
            (ap (λ b. (observe_all (events heard) ((observe t.event d).0, b)).1) (sym more) ∙ h))
  ]

  -- The loop after calm turns that do not complete the detection.
  pub warm_loop-Calm :
      (p : ℕ) (d : Detection) (heard rest : List Turn) (c : Cell S)
      → All Calm heard
      → (observe_all (events heard) (d, false)).1 ≡ false
      → (q : ℕ) × (warm_loop reg timeout p d (heard ++ rest) c
          ≡ warm_loop reg timeout q
              (observe_all (events heard) (d, false)).0
              rest
              (warmed reg p heard c))
  unfolding observe_all warmed
  warm_loop-Calm p d [] rest c calm h = (p, refl)
  warm_loop-Calm p d (t ∷ heard) rest c calm h = elim (Bool-cases (observe t.event d).1) [
    | inl done ↦ absurd (
        ground (
          arith,
          observe_all-done (events heard) (observe t.event d).0 (observe t.event d).1
              (observe-flag t.event d done) done,
        ))
    | inr more ↦
        let seen = λ (b : Bool). observe_all (events heard) ((observe t.event d).0, b) in
        let (p', c') = step p t c in
        let (q, e) =
          warm_loop-Calm p' (observe t.event d).0 heard rest c' calm.1
            (ap (λ b. (seen b).1) (sym more) ∙ h) in
        (
          q,
          warm_loop-go_on reg timeout p d t (heard ++ rest) c (round-more p d t c calm.0 more)
              ∙ e
              ∙ ap (λ b. warm_loop reg timeout q (seen b).0 rest (warmed reg p' heard c'))
                  (sym more),
        )
  ]

  -- The loop at a turn whose context is done.
  pub warm_loop-interrupted :
      (q : ℕ) (d : Detection) (t : Turn) (rest : List Turn) (c : Cell S) {e : Err}
      → t.ctx_err ≡ some e
      → warm_loop reg timeout q d (t ∷ rest) c
        ≡ (c, failed (wrap (Context.binding reg.name) (name_timeout timeout e)))
  unfolding warm_loop round
  warm_loop-interrupted q d t rest c h = ground arith

  -- The loop at a turn whose poll is a fatal failure.
  pub warm_loop-fatal :
      (q : ℕ) (d : Detection) (t : Turn) (rest : List Turn) (c : Cell S) {e : Option Err}
      → t.ctx_err ≡ none
      → t.event ≡ failure e true
      → warm_loop reg timeout q d (t ∷ rest) c
        ≡ ((classify reg (failure e true) c).0, failed (wrap_option (Context.binding reg.name) e))
  unfolding warm_loop round classify
  warm_loop-fatal q d t rest c h k = ground arith
