-- ===== src/Loader/WarmUp/Progress.antt =====
-- `warmUpBinding` of loader.go: its reports of progress, one for every `loadProgressEvery` records
-- applied.
pub mod Paced
pub mod Reports
use easykafka_config_go.Prelude.{
  ℕ, zero, suc, ◌+◌, ◌*◌, ◌≡◌, refl, ap, ◌∙◌, Bool, true, false, Option, List, [], ◌∷◌, ◌++◌,
  append-nil, arith,
}
use easykafka_config_go.Prelude.Words.{ℤ, pos}
use easykafka_config_go.Errors.{Bytes, Result}
use easykafka_config_go.Text.{Slice}
use easykafka_config_go.Driver.Event.{Record}
use easykafka_config_go.Observer.{Effect, notify, warn, on_load_progress}
use easykafka_config_go.Binding.{Binding}
use easykafka_config_go.Store.{Store}
use easykafka_config_go.Registration.{Cell, in_warmup, apply_func}
use easykafka_config_go.Registration.Emitted.{emitted, mismatch, verdict, trace-apply_func}
use easykafka_config_go.Loader.WarmUp.{load_progress_every}

-- the counts of the progress reports among the calls, in order
abbrev pub progress_counts : List Effect → List ℤ
progress_counts [] = []
progress_counts (notify (on_load_progress name applied) ∷ es) = applied ∷ progress_counts es
progress_counts (e ∷ es) = progress_counts es

-- the first multiples of `load_progress_every`
unfoldable pub multiples : ℕ → List ℤ
multiples zero = []
multiples (suc k) = multiples k ++ pos (suc k * load_progress_every) ∷ []

pub progress_counts-append :
    (es fs : List Effect) → progress_counts (es ++ fs) ≡ progress_counts es ++ progress_counts fs
progress_counts-append [] fs = refl
progress_counts-append (notify n ∷ es) fs = ground (arith, progress_counts-append es fs)
progress_counts-append (warn w ∷ es) fs = ground (arith, progress_counts-append es fs)

abbrev pub quiet : Effect → Bool
quiet (notify (on_load_progress name applied)) = false
quiet e = true

pub progress_counts-quiet :
    (es : List Effect) (e : Effect)
    → quiet e ≡ true
    → progress_counts (es ++ e ∷ []) ≡ progress_counts es
progress_counts-quiet [] e h = ground arith
progress_counts-quiet (notify n ∷ es) e h = ground (arith, progress_counts-quiet es e h)
progress_counts-quiet (warn w ∷ es) e h = ground (arith, progress_counts-quiet es e h)

module _ {K V : Type 0} (dec : Discrete K) (show : K → Bytes) (log_errors : Bool) (b : Binding K V)
    (decode_key : Slice → Result K) (decode_value : Slice → Result (Option V)) where
  no_progress_counts :
      (warming : Bool) (rec : Record)
      → progress_counts (emitted dec show log_errors b decode_key decode_value warming rec) ≡ []
  unfolding emitted mismatch verdict
  no_progress_counts warming rec = grind (arith, progress_counts-append)

  -- Folding a record into the store reports no progress.
  pub progress_counts-apply_func :
      (rec : Record) (now : ℕ) (c : Cell (Store K V))
      → progress_counts (apply_func dec show log_errors b decode_key decode_value rec now c).trace
        ≡ progress_counts c.trace
  progress_counts-apply_func rec now c =
      ap progress_counts (trace-apply_func dec show log_errors b decode_key decode_value rec now c)
      ∙ progress_counts-append c.trace _
      ∙ ap (◌++◌ (progress_counts c.trace)) (no_progress_counts (in_warmup c) rec)
      ∙ append-nil (progress_counts c.trace)
