-- ===== src/Loader/WarmUp/Empty.antt =====
-- `warmUpBinding` of loader.go: topics without an effective record.
use easykafka_config_go.Prelude.{
  ℕ, ◌≡◌, refl, inl, inr, Bool, true, false, Option, List, [], ◌∷◌, ◌++◌, All, ap, ◌∙◌, sym,
}
use easykafka_config_go.Prelude.Words.{ℤ}
use easykafka_config_go.Errors.{Bytes, Result, ok, sentinel, wrap, Context, empty_topic}
use easykafka_config_go.Text.{Slice}
use easykafka_config_go.Binding.{Binding}
use easykafka_config_go.Store.{Store, new_store}
use easykafka_config_go.Registration.{Cell, Registration, new_cell, registration_of}
use easykafka_config_go.Registration.Replay.{writes, writes-append}
use easykafka_config_go.Detect.{partition_eof}
use easykafka_config_go.Detect.Laws.{ended}
use easykafka_config_go.Loader.WarmUp.{Turn, Outcome, failed, loaded, warm_up_binding}
use easykafka_config_go.Loader.WarmUp.Laws.{Calm, events}
use easykafka_config_go.Loader.WarmUp.Complete.{WholeTopic, warm_up_binding-WholeTopic}
use easykafka_config_go.Loader.WarmUp.Records.{records, records-append, effects}
use easykafka_config_go.Loader.WarmUp.Ends.{Ended}
use easykafka_config_go.Loader.WarmUp.Stops.{warm_up_binding-Ended}

effects-append :
    {K V : Type 0} (dec : Discrete K) (show : K → Bytes) (log_errors : Bool) (b : Binding K V)
    (decode_key : Slice → Result K) (decode_value : Slice → Result (Option V)) (xs ys : List Turn)
    → effects dec show log_errors b decode_key decode_value (xs ++ ys)
      ≡ effects dec show log_errors b decode_key decode_value xs
        ++ effects dec show log_errors b decode_key decode_value ys
effects-append dec show log_errors b decode_key decode_value xs ys =
    ap (writes dec show log_errors b decode_key decode_value) (records-append xs ys)
    ∙ writes-append dec show log_errors b decode_key decode_value (records xs) (records ys)

nil_of_append {ℓ} : {A : Type ℓ} (xs ys : List A) → xs ++ ys ≡ [] → xs ≡ []
nil_of_append [] ys h = refl
nil_of_append (x ∷ xs) ys h = cc

module _ {K V : Type 0} (dec : Discrete K) (show : K → Bytes) (log_errors : Bool) (b : Binding K V)
    (decode_key : Slice → Result K) (decode_value : Slice → Result (Option V)) where
  no_effect :
      (ps : List ℕ) (turns : List Turn) {c' : Cell (Store K V)}
      → effects dec show log_errors b decode_key decode_value turns ≡ []
      → (w : WholeTopic dec show log_errors b decode_key decode_value ps turns c')
      → effects dec show log_errors b decode_key decode_value w.heard ≡ []
  no_effect ps turns nothing w =
      nil_of_append _ (effects dec show log_errors b decode_key decode_value w.rest) (
        sym (effects-append dec show log_errors b decode_key decode_value w.heard w.rest)
        ∙ ap (effects dec show log_errors b decode_key decode_value) (sym w.split)
        ∙ nothing)

  not-WholeTopic :
      (ps : List ℕ) (turns : List Turn) (c' : Cell (Store K V))
      → b.allow_empty ≡ false
      → effects dec show log_errors b decode_key decode_value turns ≡ []
      → ¬ WholeTopic dec show log_errors b decode_key decode_value ps turns c'
  not-WholeTopic ps turns c' not_allowed nothing w = elim w.some_effect [
    | inl some_write ↦ some_write (no_effect ps turns nothing w)
    | inr allowed ↦ cc
  ]

  -- A topic counts as empty if no record was effective, though it may have held records: if every
  -- assigned partition reports its end in calm turns, AllowEmpty is not set, and no record among
  -- all the turns is effective, because its key or payload does not decode or the filter rejects
  -- it, then warm-up returns ErrEmptyTopic.
  pub warm_up_binding-empty :
      (timeout : ℤ) (ps : List ℕ) (t : Turn) (heard rest : List Turn)
      → All Calm (t ∷ heard)
      → All (λ p. ended p (events (t ∷ heard)) ≡ true) ps
      → b.allow_empty ≡ false
      → effects dec show log_errors b decode_key decode_value ((t ∷ heard) ++ rest) ≡ []
      → (warm_up_binding
          (registration_of dec show log_errors b decode_key decode_value)
          timeout
          partition_eof
          (ok ps)
          ((t ∷ heard) ++ rest)
          (new_cell new_store)).1
        ≡ failed (wrap (Context.binding_on_topic b.name b.topic) (sentinel empty_topic))
  unfolding registration_of
  warm_up_binding-empty timeout ps t heard rest calm ends not_allowed nothing =
      elim ended_or_empty [ inl done ↦ absurd (not_loaded done) | inr empty ↦ empty ]
    where
      reg : Registration (Store K V) (Option V)
      reg = registration_of dec show log_errors b decode_key decode_value

      result : Cell (Store K V) × Outcome
      result =
          warm_up_binding reg timeout partition_eof (ok ps) ((t ∷ heard) ++ rest)
            (new_cell new_store)

      ended_or_empty : Ended reg timeout result.1
      ended_or_empty =
          warm_up_binding-Ended reg timeout ps t heard rest (new_cell new_store) calm ends

      not_loaded : result.1 ≡ loaded → ⊥
      not_loaded done = not-WholeTopic ps ((t ∷ heard) ++ rest) result.0 not_allowed nothing (
          warm_up_binding-WholeTopic dec show log_errors b decode_key decode_value timeout ps
            ((t ∷ heard) ++ rest) result.0 (ap (λ o. (result.0, o)) done))
