-- ===== src/Registration/Accounting.antt =====
-- registration.go: the counters of a binding against the calls that its observer gets.
use easykafka_config_go.Prelude.{
  ℕ, ◌+◌, ◌%◌, ◌≡◌, refl, Bool, Option, List, [], ◌∷◌, ◌++◌, length, arith, Bool-cases, inl, inr,
}
use native.Mathlib.Nat.{zero-add, add-zero, add-suc, suc-add}
use native.Mathlib.Numerals.{add-one}
use easykafka_config_go.Prelude.Words.{word_mod}
use easykafka_config_go.Errors.{Bytes, Err, Result, ok, err}
use easykafka_config_go.Text.{Slice}
use easykafka_config_go.Driver.Event.{Record}
use easykafka_config_go.Observer.{
  Phase, on_upsert, on_delete, on_filtered, on_decode_error, Effect, notify,
}
use easykafka_config_go.Binding.{Binding}
use easykafka_config_go.Store.{Store}
use easykafka_config_go.Registration.{
  Cell, new_cell, skip_key, skip_value, apply_tombstone, apply_filtered, apply_upsert,
  report_mismatch, apply_func, apply_value, after_key, after_value, tombstone, final_key, rejected,
}
use easykafka_config_go.Registration.Replay.{replay}

-- Each kind of call, as a weight of effects.
abbrev pub upsert_weight : Effect → ℕ
upsert_weight (notify (on_upsert n w)) = 1
upsert_weight _ = 0

abbrev pub delete_weight : Effect → ℕ
delete_weight (notify (on_delete n w)) = 1
delete_weight _ = 0

abbrev pub filtered_weight : Effect → ℕ
filtered_weight (notify (on_filtered n)) = 1
filtered_weight _ = 0

abbrev pub error_weight : Effect → ℕ
error_weight (notify (on_decode_error n e r)) = 1
error_weight _ = 0

unfoldable pub total : (Effect → ℕ) → List Effect → ℕ
total w [] = 0
total w (e ∷ es) = w e + total w es

pub total-snoc :
    (w : Effect → ℕ) (es : List Effect) (e : Effect) → total w (es ++ e ∷ []) ≡ total w es + w e
unfolding total
total-snoc w [] e = omega arith
total-snoc w (x ∷ es) e = omega (arith, total-snoc w es e)

-- The state of a binding in warm-up that has been handed `n` records.
pub record Accounts {S : Type 0} (n : ℕ) (c : Cell S) : Type 0 where
  pub warming : c.phase ≡ Phase.warmup
  pub upserts : c.upserts ≡ total upsert_weight c.trace % word_mod
  pub deletes : c.deletes ≡ total delete_weight c.trace % word_mod
  pub filtered : c.filtered ≡ total filtered_weight c.trace % word_mod
  pub decode_errors : c.decode_errors ≡ total error_weight c.trace % word_mod
  pub applied :
      c.warmup_applied ≡ (total upsert_weight c.trace + total delete_weight c.trace) % word_mod
  pub complete :
      total upsert_weight c.trace
        + total delete_weight c.trace
        + (total filtered_weight c.trace + total error_weight c.trace)
      ≡ n

module _ {K V : Type 0} (dec : Discrete K) (show : K → Bytes) (log_errors : Bool) (b : Binding K V)
    (decode_key : Slice → Result K) (decode_value : Slice → Result (Option V)) where
  skip_key-Accounts :
      (rec : Record) (e : Err) {n : ℕ} (c : Cell (Store K V))
      → Accounts n c
      → Accounts (n + 1) (skip_key dec show log_errors b decode_key decode_value rec e c)
  unfolding skip_key total
  skip_key-Accounts rec e c h = grind (arith, total-snoc)

  skip_value-Accounts :
      (rec : Record) (e : Err) {n : ℕ} (c : Cell (Store K V))
      → Accounts n c
      → Accounts (n + 1) (skip_value dec show log_errors b decode_key decode_value rec e c)
  unfolding skip_value total
  skip_value-Accounts rec e c h = grind (arith, total-snoc)

  apply_tombstone-Accounts :
      (now : ℕ) (key : K) {n : ℕ} (c : Cell (Store K V))
      → Accounts n c
      → Accounts (n + 1) (apply_tombstone dec show log_errors b decode_key decode_value now key c)
  unfolding apply_tombstone total
  apply_tombstone-Accounts now key c h = grind (arith, total-snoc)

  apply_filtered-Accounts :
      {n : ℕ} (c : Cell (Store K V))
      → Accounts n c
      → Accounts (n + 1) (apply_filtered dec show log_errors b decode_key decode_value c)
  unfolding apply_filtered total
  apply_filtered-Accounts c h = grind (arith, total-snoc)

  apply_upsert-Accounts :
      (now : ℕ) (key : K) (v : Option V) {n : ℕ} (c : Cell (Store K V))
      → Accounts n c
      → Accounts (n + 1) (apply_upsert dec show log_errors b decode_key decode_value now key v c)
  unfolding apply_upsert total
  apply_upsert-Accounts now key v c h = grind (arith, total-snoc)

  report_mismatch-Accounts :
      (key : K) (v : Option V) {n : ℕ} (c : Cell (Store K V))
      → Accounts n c
      → Accounts n (report_mismatch dec show log_errors b decode_key decode_value key v c)
  unfolding report_mismatch total
  report_mismatch-Accounts key v c h = grind (arith, total-snoc)

  apply_value-Accounts :
      (now : ℕ) (key : K) (v : Option V) {n : ℕ} (c : Cell (Store K V))
      → Accounts n c
      → Accounts (n + 1) (apply_value dec show log_errors b decode_key decode_value now key v c)
  unfolding apply_value
  apply_value-Accounts now key v c h =
      let c' = report_mismatch dec show log_errors b decode_key decode_value key v c in
      let key' = final_key dec show log_errors b decode_key decode_value key v in
      elim (Bool-cases (rejected dec show log_errors b decode_key decode_value key' v)) [
        | inl out ↦ rw out (apply_filtered-Accounts c' (report_mismatch-Accounts key v c h))
        | inr kept ↦
            rw kept (apply_upsert-Accounts now key' v c' (report_mismatch-Accounts key v c h))
      ]

  after_value-Accounts :
      (rec : Record) (now : ℕ) (key : K) (r : Result (Option V)) {n : ℕ} (c : Cell (Store K V))
      → Accounts n c
      → Accounts (n + 1) (after_value dec show log_errors b decode_key decode_value rec now key r c)
  unfolding after_value
  after_value-Accounts rec now key (err e) c h = skip_value-Accounts rec e c h
  after_value-Accounts rec now key (ok v) c h = apply_value-Accounts now key v c h

  after_key-Accounts :
      (rec : Record) (now : ℕ) (r : Result K) {n : ℕ} (c : Cell (Store K V))
      → Accounts n c
      → Accounts (n + 1) (after_key dec show log_errors b decode_key decode_value rec now r c)
  unfolding after_key
  after_key-Accounts rec now (err e) c h = skip_key-Accounts rec e c h
  after_key-Accounts rec now (ok key) c h =
      let gone = tombstone dec show log_errors b decode_key decode_value rec.payload in
      elim (Bool-cases gone) [
        | inl yes_gone ↦ rw yes_gone (apply_tombstone-Accounts now key c h)
        | inr still ↦ rw still (after_value-Accounts rec now key (decode_value rec.payload) c h)
      ]

  pub apply_func-Accounts :
      (rec : Record) (now : ℕ) {n : ℕ} (c : Cell (Store K V))
      → Accounts n c
      → Accounts (n + 1) (apply_func dec show log_errors b decode_key decode_value rec now c)
  unfolding apply_func
  apply_func-Accounts rec now c h = after_key-Accounts rec now (decode_key rec.key) c h

  pub replay-Accounts_from :
      (rs : List (Record × ℕ)) {n : ℕ} (c : Cell (Store K V))
      → Accounts n c
      → Accounts (n + length rs) (replay dec show log_errors b decode_key decode_value rs c)
  unfolding replay
  replay-Accounts_from [] c h = rw add-zero h
  replay-Accounts_from ((rec, now) ∷ rs) {n} c h =
      rw (add-suc n (length rs), ← suc-add n (length rs))
        (rw add-one at (replay-Accounts_from rs _ (apply_func-Accounts rec now c h)))

  -- During warm-up, whatever the records, each is reported to the observer by exactly one call of
  -- OnUpsert, OnDelete, OnFiltered or OnDecodeError, and the binding's four counters and its
  -- count of applied records are, modulo 2 ^ 64, the numbers of those calls; the phase stays.
  pub replay-Accounts :
      (rs : List (Record × ℕ)) (s : Store K V)
      → Accounts (length rs) (replay dec show log_errors b decode_key decode_value rs (new_cell s))
  unfolding total
  replay-Accounts rs s = rw zero-add at (
      replay-Accounts_from rs (new_cell s) (record {
        warming = refl;
        upserts = refl;
        deletes = refl;
        filtered = refl;
        decode_errors = refl;
        applied = refl;
        complete = refl;
      }))
