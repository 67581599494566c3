-- ===== src/Loader/Start/AllOrNothing.antt =====
-- `Start` of loader.go: its verdict over all bindings, and the consumers that it closes.
use native.Mathlib.Omega.{arith}
use easykafka_config_go.Prelude.{
  ◌||◌, sym, ◌≡◌, refl, Bool, true, false, Option, none, some, List, [], ◌∷◌, any, All, map, ap,
  ◌∙◌,
}
use easykafka_config_go.Prelude.Words.{ℤ}
use easykafka_config_go.Errors.{
  Bytes, Sentinel, Err, Result, is, is_option, join_errors, is-join_errors, join_errors-none,
}
use easykafka_config_go.Detect.{Detector}
use easykafka_config_go.Loader.WarmUp.{Outcome, running, failed, loaded}
use easykafka_config_go.Loader.Start.{
  Bound, Script, Progress, warming, refused, serving, is_running, error_of, finished, start_with,
  close_all, constructed, built, new_consumers, construction_errors, conclude, start,
}

-- `closeAll` closes every consumer once, in order.
close_all_self : {C : Type 0} (consumers : List C) → close_all consumers ≡ consumers
unfolding close_all
close_all_self [] = refl
close_all_self (c ∷ cs) = ap (◌∷◌ c) (close_all_self cs)

-- What the end of a start promises, with the consumers and the outcomes given.
unfoldable pub Concluded : {C : Type 0} → List C → List Outcome → Progress → List C → Type 0
Concluded consumers outcomes warming closed = closed ≡ [] × any is_running outcomes ≡ true
Concluded consumers outcomes serving closed = closed ≡ [] × All (λ o. o ≡ loaded) outcomes
Concluded consumers outcomes (refused e) closed =
    closed ≡ consumers
    × (any is_running outcomes ≡ false
        × ((s : Sentinel) → is s e ≡ any (λ o. is_option s (error_of o)) outcomes))

any_none :
    (s : Sentinel) (outcomes : List Outcome)
    → any (is_option s) (map error_of outcomes) ≡ any (λ o. is_option s (error_of o)) outcomes
any_none s [] = refl
any_none s (o ∷ os) = ap (λ b. is_option s (error_of o) || b) (any_none s os)

All-loaded :
    (outcomes : List Outcome)
    → any is_running outcomes ≡ false
    → All (λ r. r ≡ none) (map error_of outcomes)
    → All (λ o. o ≡ loaded) outcomes
All-loaded [] h k = tt
All-loaded (loaded ∷ os) h k = (refl, All-loaded os h k.1)
All-loaded (running ∷ os) h k = ground arith
All-loaded (failed e ∷ os) h k = ground arith

-- What the end of Start does, with the outcomes of the warm-ups given: while one runs it has
-- closed nothing; it serves only if every binding loaded, and then no consumer is closed; it
-- refuses only if none runs, and then every consumer is closed and errors.Is finds exactly the
-- sentinels that it finds in some binding's error.
pub conclude-Concluded :
    {C : Type 0} (consumers : List C) (outcomes : List Outcome)
    → Concluded consumers outcomes (conclude consumers outcomes).0 (conclude consumers outcomes).1
unfolding conclude Concluded is
conclude-Concluded consumers outcomes =
    decided (any is_running outcomes) refl (join_errors (map error_of outcomes)) refl
  where
    decided :
        (b : Bool)
        → any is_running outcomes ≡ b
        → (o : Option Err) → join_errors (map error_of outcomes) ≡ o
        → Concluded consumers outcomes (finished consumers b o).0 (finished consumers b o).1
    decided true h o k = (refl, h)
    decided false h none k = (refl, All-loaded outcomes h (join_errors-none _ k))
    decided false h (some e) k = (
      close_all_self consumers,
      (
        h,
        λ s.
            ap (is_option s) (sym k)
            ∙ (is-join_errors s (map error_of outcomes) ∙ any_none s outcomes),
      ),
    )

-- What closing promises for each way that Start stands.
abbrev pub Closes : {C : Type 0} → List C → Progress → List C → Type 0
Closes consumers (refused e) closed = closed ≡ consumers
Closes consumers _ closed = closed ≡ []

-- Whatever fails, the construction of consumers or a warm-up, a refused Start has closed exactly
-- the consumers that were built, each once; one that has not returned, or serves, has closed none.
pub start-Closes :
    {S A C : Type 0} (timeout : ℤ) (detector : Detector) (answers : List (Bytes × Result C))
    (bs : List (Bound S A × Script))
    → Closes
        (built answers)
        (start timeout detector answers bs).1.0
        (start timeout detector answers bs).1.1
unfolding start start_with conclude new_consumers
start-Closes timeout detector answers bs = decided (join_errors (construction_errors answers))
  where
    ended :
        {C : Type 0} (consumers : List C) (b : Bool) (o : Option Err)
        → Closes consumers (finished consumers b o).0 (finished consumers b o).1
    ended consumers true o = refl
    ended consumers false none = refl
    ended consumers false (some e) = close_all_self consumers

    decided :
        (o : Option Err)
        → Closes
            (built answers)
            (start_with timeout detector bs (constructed (built answers) o)).1.0
            (start_with timeout detector bs (constructed (built answers) o)).1.1
    decided (some e) = close_all_self (built answers)
    decided none = ended (built answers) _ _
