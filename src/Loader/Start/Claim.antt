-- ===== src/Loader/Start/Claim.antt =====
-- `Start` and `add` of loader.go: the flag `started` between calls of Bind and Start.
use native.Mathlib.Omega.{arith}
use easykafka_config_go.Prelude.{Bool-cases, inl, inr, ◌≡◌, true, none, is_empty}
use easykafka_config_go.Errors.{is, already_started, is_option}
use easykafka_config_go.Loader.Start.Bind.{Registered, Loader, panicked, after_start, add, claim}

-- A claim that succeeds is the only one: with `l` the loader after it, every later claim leaves
-- the loader as it is and answers already_started, and every later Bind panics for that reason.
pub claim-once :
    {S A : Type 0} (l : Loader S A)
    → (claim l).1 ≡ none
    → (b : Registered S A)
    → (claim (claim l).0).0 ≡ (claim l).0
      × (is_option already_started (claim (claim l).0).1 ≡ true
          × add b (claim l).0 ≡ panicked after_start)
unfolding claim add is
claim-once l h b = elim (Bool-cases l.started) [
  | inl p ↦ absurd (cc)
  | inr p ↦ elim (Bool-cases (is_empty l.regs)) [ inl q ↦ absurd (cc) | inr q ↦ ground arith ]
]
