-- ===== src/Registration/Emitted/Agreement.antt =====
-- registration.go: VerifyKeyAgreement, which reports every record whose own key is not the one that
-- KeyFromValue derives.
use easykafka_config_go.Prelude.{
  ℕ, ◌+◌, ◌≡◌, refl, sym, ap, ◌∙◌, Bool, true, false, Option, none, List, [], ◌∷◌, ◌++◌,
  if◌then◌else◌, arith, ite,
}
use easykafka_config_go.Errors.{Bytes, Result, ok, err}
use easykafka_config_go.Text.{Slice}
use easykafka_config_go.Driver.Event.{Record}
use easykafka_config_go.Observer.{on_key_mismatch, Effect, notify}
use easykafka_config_go.Binding.{Binding}
use easykafka_config_go.Store.{Store}
use easykafka_config_go.Store.History.{run}
use easykafka_config_go.Registration.{
  Cell, in_warmup, tombstone, final_key, keys_differ, rejected, apply_func,
}
use easykafka_config_go.Registration.Replay.{write_of, writes, replay, store-replay}
use easykafka_config_go.Registration.Accounting.{total}
use easykafka_config_go.Registration.Emitted.{emitted, mismatch, verdict, trace-apply_func}

-- the calls of OnKeyMismatch
abbrev pub mismatch_weight : Effect → ℕ
mismatch_weight (notify (on_key_mismatch name was derived)) = 1
mismatch_weight _ = 0

pub total-append :
    (w : Effect → ℕ) (es fs : List Effect) → total w (es ++ fs) ≡ total w es + total w fs
unfolding total
total-append w [] fs = omega arith
total-append w (e ∷ es) fs = omega (arith, total-append w es fs)

-- the binding without KeyFromValue
abbrev pub by_own_key : {K V : Type 0} → Binding K V → Binding K V
by_own_key b = record b { key_from_value = none }

module _ {K V : Type 0} (dec : Discrete K) (show : K → Bytes) (log_errors : Bool) (b : Binding K V)
    (decode_key : Slice → Result K) (decode_value : Slice → Result (Option V)) where
  -- 1 if the payload decodes and the key that KeyFromValue derives is not the record's own
  unfoldable pub disagrees : Record → ℕ
  disagrees rec = elim (decode_key rec.key) [
    | err e ↦ 0
    | ok key ↦
        if tombstone dec show log_errors b decode_key decode_value rec.payload
        then 0
        else elim (decode_value rec.payload) [
          | err e ↦ 0
          | ok value ↦
              if ite (dec (final_key dec show log_errors b decode_key decode_value key value) key)
                true false
              then 0
              else 1
        ]
  ]

  total-emitted :
      (warming : Bool) (rec : Record)
      → b.verify_key_agreement ≡ true
      → total mismatch_weight (emitted dec show log_errors b decode_key decode_value warming rec)
        ≡ disagrees rec
  unfolding emitted mismatch verdict total disagrees keys_differ final_key
  total-emitted warming rec on = grind (arith, total-append)

  agreeing :
      (rec : Record)
      → disagrees rec ≡ 0
      → write_of dec show log_errors b decode_key decode_value rec
        ≡ write_of dec show log_errors (by_own_key b) decode_key decode_value rec
  unfolding write_of disagrees final_key rejected
  agreeing rec h = ground arith

  total-apply_func :
      (rec : Record) (now : ℕ) (c : Cell (Store K V))
      → b.verify_key_agreement ≡ true
      → total mismatch_weight
          (apply_func dec show log_errors b decode_key decode_value rec now c).trace
        ≡ total mismatch_weight c.trace + disagrees rec
  total-apply_func rec now c on =
      ap (total mismatch_weight)
        (trace-apply_func dec show log_errors b decode_key decode_value rec now c)
      ∙ total-append mismatch_weight c.trace _
      ∙ ap (◌+◌ (total mismatch_weight c.trace)) (total-emitted (in_warmup c) rec on)

  -- the records whose keys differ
  unfoldable pub disagreements : List (Record × ℕ) → ℕ
  disagreements [] = 0
  disagreements ((rec, now) ∷ rs) = disagrees rec + disagreements rs

  -- Each of them is reported once.
  pub total-replay :
      (rs : List (Record × ℕ)) (c : Cell (Store K V))
      → b.verify_key_agreement ≡ true
      → total mismatch_weight (replay dec show log_errors b decode_key decode_value rs c).trace
        ≡ total mismatch_weight c.trace + disagreements rs
  unfolding replay disagreements
  total-replay [] c on = omega arith
  total-replay ((rec, now) ∷ rs) c on = omega (
    arith,
    total-replay rs (apply_func dec show log_errors b decode_key decode_value rec now c) on,
    total-apply_func rec now c on,
  )

  writes-agreeing :
      (rs : List (Record × ℕ))
      → disagreements rs ≡ 0
      → writes dec show log_errors b decode_key decode_value rs
        ≡ writes dec show log_errors (by_own_key b) decode_key decode_value rs
  unfolding writes disagreements
  writes-agreeing [] h = refl
  writes-agreeing ((rec, now) ∷ rs) h =
      ground (arith, agreeing rec (omega (arith, h)), writes-agreeing rs (omega (arith, h)))

  -- VerifyKeyAgreement misses nothing: if it is set, and no OnKeyMismatch is among the calls made by
  -- the end of a run of records, then the store is the one that the binding without KeyFromValue
  -- would have built from them, under the records' own keys.
  pub replay-agreeing :
      (rs : List (Record × ℕ)) (c : Cell (Store K V))
      → b.verify_key_agreement ≡ true
      → total mismatch_weight (replay dec show log_errors b decode_key decode_value rs c).trace ≡ 0
      → (replay dec show log_errors b decode_key decode_value rs c).store
        ≡ (replay dec show log_errors (by_own_key b) decode_key decode_value rs c).store
  replay-agreeing rs c on none_reported =
      store-replay dec show log_errors b decode_key decode_value rs c
      ∙ ap (λ ws. run dec ws c.store)
          (writes-agreeing rs (omega (arith, total-replay rs c on, none_reported)))
      ∙ sym (store-replay dec show log_errors (by_own_key b) decode_key decode_value rs c)
