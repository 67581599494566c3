-- ===== src/Loader/WarmUp/Stops.antt =====
-- The returns of `warmUpBinding` of loader.go, told from the polls and the context.
use easykafka_config_go.Prelude.{
  ℕ, ◌≡◌, refl, true, false, ◌&&◌, ◌||◌, Option, none, some, List, [], ◌∷◌, ◌++◌, All, arith, ◌∙◌,
  Bool-cases, inl, inr,
}
use easykafka_config_go.Prelude.Words.{ℤ}
use easykafka_config_go.Errors.{
  Err, ok, wrap, Context, is, warmup_timeout, deadline_exceeded, same_sentinel_refl,
}
use easykafka_config_go.Driver.Event.{failure}
use easykafka_config_go.Observer.{on_kafka_error}
use easykafka_config_go.Registration.{Cell, Registration, tell}
use easykafka_config_go.Detect.{partition_eof, Detection, mem, begin}
use easykafka_config_go.Detect.Laws.{ended, ended_of_All, observe_all, observe_all_complete}
use easykafka_config_go.Loader.WarmUp.{
  load_progress_every, Turn, failed, name_timeout, positive, wrap_option, classify, warm_up_binding,
}
use easykafka_config_go.Loader.WarmUp.Laws.{Calm, events, warmed}
use easykafka_config_go.Loader.WarmUp.Ends.{
  Ended, warm_loop-Ended, warm_loop-Calm, warm_loop-interrupted, warm_loop-fatal,
}

-- While a partition has not ended the detection is not complete.
incomplete :
    (ps : List ℕ) (d : Detection) (p : ℕ) (heard : List Turn)
    → begin partition_eof ps ≡ ok d
    → mem p ps ≡ true
    → ended p (events heard) ≡ false
    → (observe_all (events heard) (d, false)).1 ≡ false
unfolding observe_all
incomplete ps d p [] begun m open_ = refl
incomplete ps d p (t ∷ ts) begun m open_ =
    elim (Bool-cases (observe_all (events (t ∷ ts)) (d, false)).1) [
      | inl done ↦
          let all = (observe_all_complete ps d t.event (events ts) begun).0 done in
          absurd (ground (arith, ended_of_All ps (events (t ∷ ts)) all p m))
      | inr more ↦ more
    ]

is-name_timeout :
    (timeout : ℤ) (e : Err)
    → is warmup_timeout (name_timeout timeout e)
      ≡ (positive timeout && is deadline_exceeded e) || is warmup_timeout e
unfolding name_timeout is
is-name_timeout timeout e = elim (Bool-cases (positive timeout && is deadline_exceeded e)) [
  | inl deadline ↦ rw deadline (same_sentinel_refl warmup_timeout)
  | inr other ↦ rw other
]

module _ {S A : Type 0} (reg : Registration S A) (timeout : ℤ) (ps : List ℕ) where
  -- Once every assigned partition has reported its end, in turns in which the context is not done
  -- and no poll is a fatal failure, warm-up has returned: the topic is loaded, or the error is
  -- ErrEmptyTopic for the binding and its topic, whatever turns follow.
  pub warm_up_binding-Ended :
      (t : Turn) (heard rest : List Turn) (c : Cell S)
      → All Calm (t ∷ heard)
      → All (λ p. ended p (events (t ∷ heard)) ≡ true) ps
      → Ended reg timeout
          (warm_up_binding reg timeout partition_eof (ok ps) ((t ∷ heard) ++ rest) c).1
  unfolding warm_up_binding begin
  warm_up_binding-Ended t heard rest c calm ends =
      warm_loop-Ended reg timeout load_progress_every _ (t ∷ heard) rest c calm
        ((observe_all_complete ps _ t.event (events heard) refl).1 ends)

  -- While some assigned partition has not reported its end, a turn in which the context is done
  -- stops warm-up before its poll: every record so far is applied, and the error names the binding
  -- and wraps the context's error, which is ErrWarmupTimeout if WithWarmupTimeout is set and the
  -- context's error is a passed deadline.
  pub warm_up_binding-interrupted :
      (heard rest : List Turn) (t : Turn) (c : Cell S) (p : ℕ) {e : Err}
      → All Calm heard
      → mem p ps ≡ true
      → ended p (events heard) ≡ false
      → t.ctx_err ≡ some e
      → (warm_up_binding reg timeout partition_eof (ok ps) (heard ++ t ∷ rest) c ≡ (
        warmed reg load_progress_every heard c,
        failed (wrap (Context.binding reg.name) (name_timeout timeout e)),
      ))
        × (is warmup_timeout (wrap (Context.binding reg.name) (name_timeout timeout e))
            ≡ (positive timeout && is deadline_exceeded e) || is warmup_timeout e)
  unfolding warm_up_binding begin is
  warm_up_binding-interrupted heard rest t c p {e} calm m still h =
      let (q, run) =
        warm_loop-Calm reg timeout load_progress_every _ heard (t ∷ rest) c calm
          (incomplete ps _ p heard refl m still) in
      (run ∙ warm_loop-interrupted reg timeout q _ t rest _ h, is-name_timeout timeout e)

  -- While some assigned partition has not reported its end, a fatal failure stops warm-up: every
  -- record so far is applied, the observer is told of the failure, and the error names the binding
  -- and wraps the failure's.
  pub warm_up_binding-fatal :
      (heard rest : List Turn) (t : Turn) (c : Cell S) (p : ℕ) {e : Option Err}
      → All Calm heard
      → mem p ps ≡ true
      → ended p (events heard) ≡ false
      → t.ctx_err ≡ none
      → t.event ≡ failure e true
      → warm_up_binding reg timeout partition_eof (ok ps) (heard ++ t ∷ rest) c ≡ (
        tell (on_kafka_error reg.name e) (warmed reg load_progress_every heard c),
        failed (wrap_option (Context.binding reg.name) e),
      )
  unfolding warm_up_binding begin classify
  warm_up_binding-fatal heard rest t c p calm m still h k =
      let (q, run) =
        warm_loop-Calm reg timeout load_progress_every _ heard (t ∷ rest) c calm
          (incomplete ps _ p heard refl m still) in
      run ∙ warm_loop-fatal reg timeout q _ t rest _ h k
