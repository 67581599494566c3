-- ===== src/Registration/Emitted/Tally.antt =====
-- registration.go: the counters of Stats against the observer's calls, at any time.
use easykafka_config_go.Prelude.{ℕ, ◌+◌, ◌%◌, ◌≡◌, ap, ◌∙◌, Bool, Option, List, ◌++◌, arith}
use easykafka_config_go.Prelude.Words.{word_mod}
use easykafka_config_go.Errors.{Bytes, Result}
use easykafka_config_go.Text.{Slice}
use easykafka_config_go.Driver.Event.{Record}
use easykafka_config_go.Observer.{Effect}
use easykafka_config_go.Binding.{Binding}
use easykafka_config_go.Store.{Store}
use easykafka_config_go.Registration.{Cell, in_warmup, apply_func}
use easykafka_config_go.Registration.Accounting.{
  total, upsert_weight, delete_weight, filtered_weight, error_weight,
}
use easykafka_config_go.Registration.Emitted.{emitted, mismatch, verdict, trace-apply_func}
use easykafka_config_go.Registration.Emitted.Agreement.{total-append}

-- The four counters are the numbers of the calls that they count.
pub record Tallied {S : Type 0} (c : Cell S) : Type 0 where
  pub upserts : c.upserts ≡ total upsert_weight c.trace % word_mod
  pub deletes : c.deletes ≡ total delete_weight c.trace % word_mod
  pub filtered : c.filtered ≡ total filtered_weight c.trace % word_mod
  pub decode_errors : c.decode_errors ≡ total error_weight c.trace % word_mod

-- A counter that grows by the calls that are made stays their number.
counter-append :
    (w : Effect → ℕ) (es fs all : List Effect) (n n' : ℕ)
    → n ≡ total w es % word_mod
    → n' ≡ (n + total w fs) % word_mod
    → all ≡ es ++ fs
    → n' ≡ total w all % word_mod
counter-append w es fs all n n' before grown made =
    omega (arith, before, grown, ap (total w) made ∙ total-append w es fs)

module _ {K V : Type 0} (dec : Discrete K) (show : K → Bytes) (log_errors : Bool) (b : Binding K V)
    (decode_key : Slice → Result K) (decode_value : Slice → Result (Option V)) where
  abbrev after : Record → ℕ → Cell (Store K V) → Cell (Store K V)
  after = apply_func dec show log_errors b decode_key decode_value

  abbrev calls : Record → Cell (Store K V) → List Effect
  calls rec c = emitted dec show log_errors b decode_key decode_value (in_warmup c) rec

  upserts-apply_func :
      (rec : Record) (now : ℕ) (c : Cell (Store K V))
      → c.upserts ≡ c.upserts % word_mod
      → (after rec now c).upserts ≡ (c.upserts + total upsert_weight (calls rec c)) % word_mod
  unfolding apply_func emitted mismatch verdict total
  upserts-apply_func rec now c h = grind (arith, total-append)

  deletes-apply_func :
      (rec : Record) (now : ℕ) (c : Cell (Store K V))
      → c.deletes ≡ c.deletes % word_mod
      → (after rec now c).deletes ≡ (c.deletes + total delete_weight (calls rec c)) % word_mod
  unfolding apply_func emitted mismatch verdict total
  deletes-apply_func rec now c h = grind (arith, total-append)

  filtered-apply_func :
      (rec : Record) (now : ℕ) (c : Cell (Store K V))
      → c.filtered ≡ c.filtered % word_mod
      → (after rec now c).filtered ≡ (c.filtered + total filtered_weight (calls rec c)) % word_mod
  unfolding apply_func emitted mismatch verdict total
  filtered-apply_func rec now c h = grind (arith, total-append)

  decode_errors-apply_func :
      (rec : Record) (now : ℕ) (c : Cell (Store K V))
      → c.decode_errors ≡ c.decode_errors % word_mod
      → (after rec now c).decode_errors
        ≡ (c.decode_errors + total error_weight (calls rec c)) % word_mod
  unfolding apply_func emitted mismatch verdict total
  decode_errors-apply_func rec now c h = grind (arith, total-append)

  pub apply_func-Tallied :
      (rec : Record) (now : ℕ) (c : Cell (Store K V)) → Tallied c → Tallied (after rec now c)
  apply_func-Tallied rec now c h =
      let made = trace-apply_func dec show log_errors b decode_key decode_value rec now c in
      record {
        upserts =
            counter-append upsert_weight c.trace (calls rec c) (after rec now c).trace _ _ h.upserts
              (upserts-apply_func rec now c (omega (arith, h.upserts))) made;
        deletes =
            counter-append delete_weight c.trace (calls rec c) (after rec now c).trace _ _ h.deletes
              (deletes-apply_func rec now c (omega (arith, h.deletes))) made;
        filtered =
            counter-append filtered_weight c.trace (calls rec c) (after rec now c).trace _ _
              h.filtered (filtered-apply_func rec now c (omega (arith, h.filtered))) made;
        decode_errors =
            counter-append error_weight c.trace (calls rec c) (after rec now c).trace _ _
              h.decode_errors (decode_errors-apply_func rec now c (omega (arith, h.decode_errors)))
              made;
      }
