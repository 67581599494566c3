-- ===== src/Prelude/Words.antt =====
-- 64-bit words: `atomic.Uint64`, and `atomic.Int64` as the bit pattern that it holds.
use Prim.Native.Nat.{ℕ, ◌+◌, ◌-◌, ◌%◌, ◌^◌}
use mathlib.Core.Bool.{Bool, true, false}
use easykafka_config_go.Prelude.Tests.{ltb, leb, if◌then◌else◌}

-- `negsuc n` is -(n + 1).
pub data ℤ : Type 0 where
  pos : ℕ → ℤ
  negsuc : ℕ → ℤ

-- one past the largest word
abbrev pub word_mod : ℕ
word_mod = 2 ^ 64

-- one past the largest signed word
abbrev pub sign_mod : ℕ
sign_mod = 2 ^ 63

-- `Add(1)`
abbrev pub increment : ℕ → ℕ
increment n = (n + 1) % word_mod

-- `Add(-1)`
abbrev pub decrement : ℕ → ℕ
decrement n = (n + (word_mod - 1)) % word_mod

-- the int64 that a bit pattern stands for
abbrev pub signed : ℕ → ℤ
signed n = if ltb n sign_mod then pos n else negsuc (word_mod - 1 - n)

-- a ≤ b
abbrev pub leb_ℤ : ℤ → ℤ → Bool
leb_ℤ (pos a) (pos b) = leb a b
leb_ℤ (pos a) (negsuc b) = false
leb_ℤ (negsuc a) (pos b) = true
leb_ℤ (negsuc a) (negsuc b) = leb b a
