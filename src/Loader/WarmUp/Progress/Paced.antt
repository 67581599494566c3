-- ===== src/Loader/WarmUp/Progress/Paced.antt =====
-- `warmUpBinding` of loader.go: how its reports of progress keep pace with the records applied.
use easykafka_config_go.Prelude.{
  ℕ, ◌+◌, ◌*◌, ◌/◌, ◌%◌, ◌<◌, ◌≤◌, ◌≡◌, refl, sym, ap, ◌∙◌, Bool, true, false, Option, List, [],
  ◌∷◌, ◌++◌, arith, Bool-cases, ◌⊎◌, inl, inr, leb,
}
use native.Mathlib.Numerals.{add-one}
use easykafka_config_go.Prelude.Words.{pos, word_mod, sign_mod, signed, leb_ℤ}
use easykafka_config_go.Errors.{Bytes, Result}
use easykafka_config_go.Text.{Slice}
use easykafka_config_go.Driver.Event.{Record, Event, record_read, eof, idle, failure}
use easykafka_config_go.Observer.{Phase, Effect, notify, on_load_progress}
use easykafka_config_go.Binding.{Binding}
use easykafka_config_go.Store.{Store}
use easykafka_config_go.Registration.{Cell, Registration, registration_of, apply_func, tell}
use easykafka_config_go.Loader.WarmUp.{load_progress_every, classify, apply_warming}
use easykafka_config_go.Loader.WarmUp.Complete.{applied-apply_func}
use easykafka_config_go.Loader.WarmUp.Progress.{
  progress_counts, multiples, progress_counts-quiet, progress_counts-append,
  progress_counts-apply_func,
}

-- the reports made so far are those of the multiples of `load_progress_every` that the count has
-- reached
abbrev pub Reported : {S : Type 0} → Cell S → Type 0
Reported c = progress_counts c.trace ≡ multiples (c.warmup_applied / load_progress_every)

-- A state between two rounds, with the threshold of the next report.
pub record Paced {S : Type 0} (progress_at : ℕ) (c : Cell S) : Type 0 where
  pub warming : c.phase ≡ Phase.warmup
  pub threshold : progress_at ≡ (c.warmup_applied / load_progress_every + 1) * load_progress_every
  pub reported : Reported c

-- What a round leaves behind: the counts keep pace and go up by at most one.
pub record After {S : Type 0} (progress_at : ℕ) (c c' : Cell S) : Type 0 where
  pub paced : Paced progress_at c'
  pub counted : c'.warmup_applied ≤ c.warmup_applied + 1

-- The count of one record more, against the threshold.
count_below :
    (a a' : ℕ)
    → (a' ≡ a) ⊎ (a' ≡ a + 1)
    → leb ((a / load_progress_every + 1) * load_progress_every) a' ≡ false
    → a' / load_progress_every ≡ a / load_progress_every
count_below a a' (inl e) h = ap (λ n. n / load_progress_every) e
count_below a a' (inr e) h = ground arith

count_reached :
    (a a' : ℕ)
    → (a' ≡ a) ⊎ (a' ≡ a + 1)
    → leb ((a / load_progress_every + 1) * load_progress_every) a' ≡ true
    → (a' ≡ (a / load_progress_every + 1) * load_progress_every)
      × (a' / load_progress_every ≡ a / load_progress_every + 1)
count_reached a a' (inl e) h = absurd (ground arith)
count_reached a a' (inr e) h = ground arith

signed_pos : (a : ℕ) → a < sign_mod → signed a ≡ pos a
signed_pos a h = ground arith

reported_next :
    (name : Bytes) (es : List Effect) (q a : ℕ)
    → progress_counts es ≡ multiples q
    → a ≡ (q + 1) * load_progress_every
    → a < sign_mod
    → progress_counts (es ++ notify (on_load_progress name (signed a)) ∷ []) ≡ multiples (q + 1)
unfolding multiples
reported_next name es q a h e small =
    progress_counts-append es (notify (on_load_progress name (signed a)) ∷ [])
    ∙ ap (λ xs. xs ++ signed a ∷ []) h
    ∙ ap (λ n. multiples q ++ n ∷ []) (signed_pos a small ∙ ap pos e)
    ∙ rw add-one refl

leb_ℤ-signed : (a b : ℕ) → a < sign_mod → b < sign_mod → leb_ℤ (signed a) (signed b) ≡ leb a b
leb_ℤ-signed a b ha hb = ground arith

module _ {K V : Type 0} (dec : Discrete K) (show : K → Bytes) (log_errors : Bool) (b : Binding K V)
    (decode_key : Slice → Result K) (decode_value : Slice → Result (Option V)) where
  abbrev reg : Registration (Store K V) (Option V)
  reg = registration_of dec show log_errors b decode_key decode_value

  -- the count goes up by at most one, with no report
  apply-step :
      (rec : Record) (now : ℕ) (c : Cell (Store K V))
      → c.phase ≡ Phase.warmup
      → c.warmup_applied + 1 < sign_mod
      → let c' = reg.apply rec now c in
        (c'.phase ≡ Phase.warmup)
        × ((c'.warmup_applied ≡ c.warmup_applied) ⊎ (c'.warmup_applied ≡ c.warmup_applied + 1))
  unfolding registration_of
  apply-step rec now c h small =
      ground (arith, applied-apply_func dec show log_errors b decode_key decode_value rec now c h)

  below-After :
      (p : ℕ) (c c' : Cell (Store K V))
      → Paced p c
      → c'.phase ≡ Phase.warmup
      → (c'.warmup_applied ≡ c.warmup_applied) ⊎ (c'.warmup_applied ≡ c.warmup_applied + 1)
      → progress_counts c'.trace ≡ progress_counts c.trace
      → leb p c'.warmup_applied ≡ false
      → After p c c'
  below-After p c c' h warming step same e =
      let quotient = count_below c.warmup_applied c'.warmup_applied step (rw h.threshold at e) in
      record {
        paced = record {
          warming = warming;
          threshold = h.threshold ∙ ap (λ q. (q + 1) * load_progress_every) (sym quotient);
          reported = same ∙ h.reported ∙ ap multiples (sym quotient);
        };
        counted = omega (arith, step);
      }

  reached-After :
      (p : ℕ) (c c' : Cell (Store K V))
      → Paced p c
      → c'.phase ≡ Phase.warmup
      → (c'.warmup_applied ≡ c.warmup_applied) ⊎ (c'.warmup_applied ≡ c.warmup_applied + 1)
      → progress_counts c'.trace ≡ progress_counts c.trace
      → c.warmup_applied + load_progress_every + 1 < sign_mod
      → leb p c'.warmup_applied ≡ true
      → After
          ((c'.warmup_applied + load_progress_every) % word_mod)
          c
          (tell (on_load_progress b.name (signed c'.warmup_applied)) c')
  reached-After p c c' h warming step same small e =
      let (count, quotient) =
        count_reached c.warmup_applied c'.warmup_applied step (rw h.threshold at e) in
      record {
        paced = record {
          warming = warming;
          threshold = omega (arith, count, step, small);
          reported =
              reported_next b.name c'.trace (c.warmup_applied / load_progress_every)
                c'.warmup_applied (same ∙ h.reported) count (omega (arith, step, small))
              ∙ ap multiples (sym quotient);
        };
        counted = omega (arith, step);
      }

  pub classify-Paced :
      (p : ℕ) (ev : Event) (c : Cell (Store K V))
      → Paced p c
      → Paced p (classify reg ev c).0 × ((classify reg ev c).0.warmup_applied ≡ c.warmup_applied)
  unfolding classify
  classify-Paced p (failure e fatal) c h = (
    record {
      warming = h.warming;
      threshold = h.threshold;
      reported = progress_counts-quiet c.trace _ refl ∙ h.reported;
    },
    refl,
  )
  classify-Paced p idle c h = (h, refl)
  classify-Paced p (eof q o) c h = (h, refl)
  classify-Paced p (record_read rec) c h = (h, refl)

  pub apply_warming-After :
      (p : ℕ) (ev : Event) (now : ℕ) (c : Cell (Store K V))
      → Paced p c
      → c.warmup_applied + load_progress_every + 1 < sign_mod
      → let (p', c') = apply_warming reg ev now p c in After p' c c'
  unfolding apply_warming registration_of
  apply_warming-After p idle now c h small = record { paced = h; counted = omega arith }
  apply_warming-After p (eof q o) now c h small = record { paced = h; counted = omega arith }
  apply_warming-After p (failure e f) now c h small = record { paced = h; counted = omega arith }
  apply_warming-After p (record_read rec) now c h small =
      let c' = apply_func dec show log_errors b decode_key decode_value rec now c in
      let (warming, step) = apply-step rec now c h.warming (omega (arith, small)) in
      let same =
        progress_counts-apply_func dec show log_errors b decode_key decode_value rec now c in
      let test =
        leb_ℤ-signed p c'.warmup_applied (omega (arith, h.threshold, small))
          (omega (arith, step, small)) in
      elim (Bool-cases (leb p c'.warmup_applied)) [
        | inl reached ↦ rw (test, reached) (reached-After p c c' h warming step same small reached)
        | inr below ↦ rw (test, below) (below-After p c c' h warming step same below)
      ]
