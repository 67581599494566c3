-- ===== src/Registration/Emitted.antt =====
-- registration.go: the calls that one record makes on the observer and the error logger, told from
-- the record alone.
pub mod Agreement
pub mod Tally
use easykafka_config_go.Prelude.{
  ℕ, ◌≡◌, refl, Bool, true, false, Option, none, some, List, [], ◌∷◌, ◌++◌, append_assoc,
  append-nil, if◌then◌else◌, arith, sym, ap, ◌∙◌, Bool-cases, inl, inr,
}
use easykafka_config_go.Errors.{Bytes, Err, Result, ok, err}
use easykafka_config_go.Text.{Slice}
use easykafka_config_go.Driver.Event.{Record}
use easykafka_config_go.Observer.{
  Phase, on_upsert, on_delete, on_filtered, on_decode_error, on_key_mismatch, Warning, bad_key,
  bad_payload, keys_disagree, Effect, notify, warn,
}
use easykafka_config_go.Binding.{Binding}
use easykafka_config_go.Store.{Store}
use easykafka_config_go.Registration.{
  Cell, in_warmup, tombstone, final_key, keys_differ, rejected, apply_func, apply_value,
  report_mismatch,
}

-- what `errLog` makes of a warning
abbrev pub warned : Bool → Warning → List Effect
warned log_errors w = if log_errors then warn w ∷ [] else []

module _ {K V : Type 0} (dec : Discrete K) (show : K → Bytes) (log_errors : Bool) (b : Binding K V)
    (decode_key : Slice → Result K) (decode_value : Slice → Result (Option V)) where
  -- the report of keys that differ
  unfoldable pub mismatch : K → Option V → List Effect
  mismatch key value =
      let derived = final_key dec show log_errors b decode_key decode_value key value in
      if keys_differ dec show log_errors b decode_key decode_value key value
      then warned log_errors (keys_disagree b.name (show key) (show derived))
        ++ notify (on_key_mismatch b.name (show key) (show derived)) ∷ []
      else []

  -- the last call of a record whose payload decodes
  unfoldable pub verdict : Bool → K → Option V → Effect
  verdict warming key value =
      let key' = final_key dec show log_errors b decode_key decode_value key value in
      if rejected dec show log_errors b decode_key decode_value key' value
      then notify (on_filtered b.name)
      else notify (on_upsert b.name warming)

  -- the calls of one record, given whether the binding is in warm-up
  unfoldable pub emitted : Bool → Record → List Effect
  emitted warming rec = elim (decode_key rec.key) [
    | err e ↦
        warned log_errors (bad_key b.name e rec.key)
        ++ notify (on_decode_error b.name e rec.key) ∷ []
    | ok key ↦
        if tombstone dec show log_errors b decode_key decode_value rec.payload
        then notify (on_delete b.name warming) ∷ []
        else elim (decode_value rec.payload) [
          | err e ↦
              warned log_errors (bad_payload b.name e rec.key)
              ++ notify (on_decode_error b.name e rec.payload) ∷ []
          | ok value ↦ mismatch key value ++ verdict warming key value ∷ []
        ]
  ]

  trace-report_mismatch :
      (key : K) (value : Option V) (c : Cell (Store K V))
      → (report_mismatch dec show log_errors b decode_key decode_value key value c).trace
        ≡ c.trace ++ mismatch key value
  unfolding report_mismatch mismatch
  trace-report_mismatch key value c = grind (arith, append_assoc, append-nil)

  -- One record adds its calls to those made before.
  pub trace-apply_func :
      (rec : Record) (now : ℕ) (c : Cell (Store K V))
      → (apply_func dec show log_errors b decode_key decode_value rec now c).trace
        ≡ c.trace ++ emitted (in_warmup c) rec
  unfolding apply_func emitted verdict
  trace-apply_func rec now c = grind (arith, append_assoc, append-nil, trace-report_mismatch)
