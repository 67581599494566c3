-- ===== src/Loader/Serve/Counted.antt =====
-- `Stats` of loader.go while the bindings are served: its counters against the observer's calls.
use easykafka_config_go.Prelude.{
  ℕ, ◌%◌, ◌≡◌, refl, sym, ap, ◌∙◌, Bool, Option, [], ◌∷◌, ◌++◌, arith,
}
use mathlib.Core.Path.{subst}
use easykafka_config_go.Prelude.Words.{ℤ, word_mod}
use easykafka_config_go.Errors.{Bytes, Result}
use easykafka_config_go.Text.{Slice}
use easykafka_config_go.Observer.{Effect}
use easykafka_config_go.Binding.{Binding}
use easykafka_config_go.Store.{Store}
use easykafka_config_go.Registration.{Cell, new_cell, registration_of, stats}
use easykafka_config_go.Registration.Accounting.{
  total, total-snoc, upsert_weight, delete_weight, filtered_weight, error_weight,
}
use easykafka_config_go.Registration.Emitted.Tally.{Tallied, apply_func-Tallied}
use easykafka_config_go.Detect.{Detector}
use easykafka_config_go.Loader.WarmUp.{warm_up_binding}
use easykafka_config_go.Loader.WarmUp.Keeps.{Kept, warm_up_binding-kept}
use easykafka_config_go.Loader.Start.{Script}
use easykafka_config_go.Loader.Serve.{System, Reach}
use easykafka_config_go.Loader.Serve.Applied.{regs, origin}
use easykafka_config_go.Loader.Serve.Keeps.{Reach-kept}

-- A call that no counter counts.
record Uncounted (e : Effect) : Type 0 where
  upsert : upsert_weight e ≡ 0
  delete : delete_weight e ≡ 0
  filtered : filtered_weight e ≡ 0
  error : error_weight e ≡ 0

-- A state with one such call more, and the same counters.
emit-Tallied :
    {S : Type 0} (e : Effect) (c c' : Cell S)
    → Uncounted e
    → c'.trace ≡ c.trace ++ e ∷ []
    → c'.upserts ≡ c.upserts
    → c'.deletes ≡ c.deletes
    → c'.filtered ≡ c.filtered
    → c'.decode_errors ≡ c.decode_errors
    → Tallied c
    → Tallied c'
emit-Tallied e c c' u made same_upserts same_deletes same_filtered same_errors h = record {
  upserts = counted upsert_weight u.upsert c'.upserts c.upserts same_upserts h.upserts;
  deletes = counted delete_weight u.delete c'.deletes c.deletes same_deletes h.deletes;
  filtered = counted filtered_weight u.filtered c'.filtered c.filtered same_filtered h.filtered;
  decode_errors =
      counted error_weight u.error c'.decode_errors c.decode_errors same_errors h.decode_errors;
}
  where
    counted :
        (w : Effect → ℕ)
        → w e ≡ 0
        → (n' n : ℕ) → n' ≡ n
        → n ≡ total w c.trace % word_mod
        → n' ≡ total w c'.trace % word_mod
    counted w none_counted n' n same before =
        omega (arith, same, before, none_counted, ap (total w) made ∙ total-snoc w c.trace e)

new-Tallied : {S : Type 0} (s : S) → Tallied (new_cell s)
unfolding total
new-Tallied s = record { upserts = refl; deletes = refl; filtered = refl; decode_errors = refl }

module _ {K V : Type 0} (dec : Discrete K) (show : K → Bytes) (log_errors : Bool) where
  Tallied-Kept :
      (b : Binding K V) (decode_key : Slice → Result K) (decode_value : Slice → Result (Option V))
      → Kept (registration_of dec show log_errors b decode_key decode_value) Tallied
  unfolding registration_of
  Tallied-Kept b decode_key decode_value = record {
    applies = apply_func-Tallied dec show log_errors b decode_key decode_value;
    tells_error = λ e c h.
        emit-Tallied _ c _ (record { upsert = refl; delete = refl; filtered = refl; error = refl })
          refl refl refl refl refl h;
    tells_progress = λ n c h.
        emit-Tallied _ c _ (record { upsert = refl; delete = refl; filtered = refl; error = refl })
          refl refl refl refl refl h;
    steadies = λ n took c h.
        emit-Tallied _ c _ (record { upsert = refl; delete = refl; filtered = refl; error = refl })
          refl refl refl refl refl h;
    stops = λ c h. record {
      upserts = h.upserts;
      deletes = h.deletes;
      filtered = h.filtered;
      decode_errors = h.decode_errors;
    };
  }

  -- Whatever a binding's warm-up over a new state and its serving goroutine have met, and in every
  -- interleaving with the other bindings, the four counters that Stats reports of it are, modulo
  -- 2 ^ 64, the numbers of the OnUpsert, OnDelete, OnFiltered and OnDecodeError calls that it has
  -- made on the observer.
  pub stats-Tallied :
      (bindings : ℕ → Binding K V) (decode_key : ℕ → Slice → Result K)
      (decode_value : ℕ → Slice → Result (Option V)) (timeout : ℤ) (detector : Detector)
      (scripts : ℕ → Script) (stores : ℕ → Store K V) {n : ℕ} {has_handler : Bool}
      {s : System (Store K V)}
      (r : Reach n (regs dec show log_errors bindings decode_key decode_value) has_handler s)
      → ((i : ℕ)
          → ((origin r).workers i).cell
            ≡ (warm_up_binding
                (regs dec show log_errors bindings decode_key decode_value i)
                timeout
                detector
                (scripts i).assigned
                (scripts i).turns
                (new_cell (stores i))).0)
      → (i : ℕ)
      → let c = (s.workers i).cell in
        let shown = stats (regs dec show log_errors bindings decode_key decode_value i) c in
        (shown.upserts ≡ total upsert_weight c.trace % word_mod)
        × (shown.deletes ≡ total delete_weight c.trace % word_mod)
        × (shown.filtered ≡ total filtered_weight c.trace % word_mod)
        × (shown.decode_errors ≡ total error_weight c.trace % word_mod)
  unfolding stats
  stats-Tallied bindings decode_key decode_value timeout detector scripts stores {s = s} r began i =
      let family = regs dec show log_errors bindings decode_key decode_value in
      let tallied : Tallied (s.workers i).cell =
        Reach-kept (λ k. Tallied) (λ k. Tallied-Kept (bindings k) (decode_key k) (decode_value k)) r
          (λ k. subst Tallied (sym (began k)) (
            warm_up_binding-kept (family k)
              (Tallied-Kept (bindings k) (decode_key k) (decode_value k)) timeout detector
              (scripts k).assigned (scripts k).turns (new_cell (stores k))
              (new-Tallied (stores k))))
          i in
      (tallied.upserts, tallied.deletes, tallied.filtered, tallied.decode_errors)
