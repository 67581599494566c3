-- ===== src/Driver/Throttle/Laws.antt =====
-- internal/driver/throttle.go: runs of calls of `allow`.
use easykafka_config_go.Prelude.{
  ℕ, ◌+◌, ◌≤◌, ◌<◌, ◌≡◌, refl, Bool, true, false, Option, none, some, List, [], ◌∷◌, length, arith,
}
use easykafka_config_go.Prelude.Words.{ℤ, pos, negsuc, sign_mod}
use easykafka_config_go.Driver.Throttle.{Throttle, new_throttle, allow, reset}

-- The answers to calls at the given times.
unfoldable pub answers : List ℕ → Throttle → List (Bool × ℤ)
answers [] t = []
answers (now ∷ nows) t = (allow now t).1 ∷ answers nows (allow now t).0

-- how many calls the answers account for: each that is let through, and those it reports; a
-- negative report accounts for none
abbrev pub accounted : List (Bool × ℤ) → ℕ
accounted [] = 0
accounted ((true, pos suppressed) ∷ rs) = suppressed + 1 + accounted rs
accounted ((true, negsuc n) ∷ rs) = 1 + accounted rs
accounted ((false, n) ∷ rs) = accounted rs

-- the state after calls at the given times
unfoldable pub after : List ℕ → Throttle → Throttle
after [] t = t
after (now ∷ nows) t = after nows (allow now t).0

-- Each time is at least the interval after the one that was let through before it.
abbrev pub Spaced : ℕ → Option ℕ → List ℕ → List (Bool × ℤ) → Type 0
Spaced every last [] rs = Unit
Spaced every last (now ∷ nows) [] = Unit
Spaced every last (now ∷ nows) ((false, n) ∷ rs) = Spaced every last nows rs
Spaced every none (now ∷ nows) ((true, n) ∷ rs) = Spaced every (some now) nows rs
Spaced every (some last) (now ∷ nows) ((true, n) ∷ rs) =
    (last + every ≤ now) × Spaced every (some now) nows rs

accounted_from :
    (nows : List ℕ) (t : Throttle)
    → t.suppressed + length nows < sign_mod
    → accounted (answers nows t) + (after nows t).suppressed ≡ t.suppressed + length nows
unfolding answers after allow
accounted_from [] t h = omega arith
accounted_from (now ∷ nows) t h = ground (arith, accounted_from nows (allow now t).0)

Spaced-from :
    (every : ℕ) (nows : List ℕ) (t : Throttle)
    → t.every ≡ pos every
    → Spaced every t.last nows (answers nows t)
unfolding answers allow
Spaced-from every [] t h = tt
Spaced-from every (now ∷ nows) t h = ground (arith, Spaced-from every nows (allow now t).0)

-- Of fewer than 2 ^ 63 calls of a new throttle none is lost: those let through, those that they
-- report as suppressed and those still pending are all of them; and with a non-negative interval
-- each call let through comes at least the interval after the one let through before it.
pub allow_complete :
    (every : ℕ) (nows : List ℕ)
    → length nows < sign_mod
    → (accounted (answers nows (new_throttle (pos every)))
          + (after nows (new_throttle (pos every))).suppressed
        ≡ length nows)
      × Spaced every none nows (answers nows (new_throttle (pos every)))
unfolding new_throttle
allow_complete every nows h =
    let t : Throttle = record { every = pos every; last = none; suppressed = 0 } in
    let all : accounted (answers nows t) + (after nows t).suppressed ≡ 0 + length nows =
      accounted_from nows t (omega arith) in
    (omega arith, Spaced-from every nows t refl)

-- The first call after `newThrottle` or `reset` is always let through, at any time and interval,
-- and reports no suppressed call.
pub allow_first :
    (now : ℕ) (every : ℤ) (t : Throttle)
    → ((allow now (new_throttle every)).1 ≡ (true, pos 0))
      × ((allow now (reset t)).1 ≡ (true, pos 0))
unfolding allow new_throttle reset
allow_first now every t = (refl, refl)
