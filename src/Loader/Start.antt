-- ===== src/Loader/Start.antt =====
-- loader.go: `Start` after its claim, `newConsumers` and `closeAll`, over bindings each with a store of
-- its own, whose warm-ups `warm_all` runs one after the other; Bind has the loader before that.
pub mod Bind
pub mod Claim
pub mod AllOrNothing
pub mod Lookup
pub mod Handover
pub mod Sharing
use easykafka_config_go.Prelude.{
  ℕ, Bool, true, false, ◌||◌, Option, none, some, List, [], ◌∷◌, ◌++◌, map, any, is_empty,
  if◌then◌else◌,
}
use easykafka_config_go.Prelude.Words.{ℤ}
use easykafka_config_go.Prelude.Family.{update}
use easykafka_config_go.Errors.{
  Bytes, Err, sentinel, wrap, Context, Result, ok, err, join_errors, already_started, no_bindings,
  unknown_binding,
}
use easykafka_config_go.Text.{Slice, same_bytes}
use easykafka_config_go.Observer.{BindingStats}
use easykafka_config_go.Binding.{Binding, validate}
use easykafka_config_go.Store.{Store, new_store}
use easykafka_config_go.Registration.{Cell, new_cell, Registration, stats, registration_of}
use easykafka_config_go.Detect.{Detector}
use easykafka_config_go.Loader.WarmUp.{Turn, Outcome, running, failed, loaded, warm_up_binding}

-- A registration with the state that its goroutine writes, the store of its own included.
pub record Bound (S A : Type 0) : Type 0 where
  pub reg : Registration S A
  pub cell : Cell S

-- What the consumer factory answers for each registration, by its name.
module _ {C : Type 0} where
  -- `closeAll`: the Close calls that it makes; what they return is only logged
  unfoldable pub close_all : List C → List C
  close_all [] = []
  close_all (c ∷ cs) = c ∷ close_all cs

  -- the consumers that were built
  unfoldable pub built : List (Bytes × Result C) → List C
  built [] = []
  built ((name, err e) ∷ answers) = built answers
  built ((name, ok c) ∷ answers) = c ∷ built answers

  -- the errors, each with its binding
  unfoldable pub construction_errors : List (Bytes × Result C) → List (Option Err)
  construction_errors [] = []
  construction_errors ((name, err e) ∷ answers) =
      some (wrap (Context.binding name) e) ∷ construction_errors answers
  construction_errors ((name, ok c) ∷ answers) = construction_errors answers

  -- the end of `newConsumers`, given the joined errors
  unfoldable pub constructed : List C → Option Err → Result (List C) × List C
  unfolding close_all
  constructed consumers (some e) = (err e, close_all consumers)
  constructed consumers none = (ok consumers, [])

  -- `newConsumers`: its result, and the Close calls that it has made
  unfoldable pub new_consumers : List (Bytes × Result C) → Result (List C) × List C
  unfolding built construction_errors constructed
  new_consumers answers = constructed (built answers) (join_errors (construction_errors answers))

-- What a binding's warm-up meets: the answer to AssignAll, and the rounds of its loop.
pub record Script : Type 0 where
  pub assigned : Result (List ℕ)
  pub turns : List Turn

-- How Start stands after the rounds given: still in warm-up, returned with an error, or serving.
pub data Progress : Type 0 where
  warming : Progress
  refused : Err → Progress
  serving : Progress

abbrev pub is_running : Outcome → Bool
is_running running = true
is_running _ = false

-- the slot of `results` that an outcome writes
abbrev pub error_of : Outcome → Option Err
error_of (failed e) = some e
error_of _ = none

-- every binding's warm-up, one after the other, each on a store of its own
unfoldable pub warm_all :
    {S A : Type 0} → ℤ → Detector → List (Bound S A × Script) → List (Bound S A × Outcome)
warm_all timeout detector [] = []
warm_all timeout detector ((b, script) ∷ bs) =
    let (cell, outcome) =
      warm_up_binding b.reg timeout detector script.assigned script.turns b.cell in
    (record b { cell = cell }, outcome) ∷ warm_all timeout detector bs

-- the end of `Start`, given whether a warm-up still runs and the joined errors
unfoldable pub finished : {C : Type 0} → List C → Bool → Option Err → Progress × List C
unfolding close_all
finished consumers true e = (warming, [])
finished consumers false (some e) =
    (refused (wrap Context.package_name (wrap Context.warm_up_failed e)), close_all consumers)
finished consumers false none = (serving, [])

-- the end of `Start` once every warm-up has run: how it stands, and the Close calls it has made
unfoldable pub conclude : {C : Type 0} → List C → List Outcome → Progress × List C
unfolding finished
conclude consumers outcomes =
    finished consumers (any is_running outcomes) (join_errors (map error_of outcomes))

-- `Start` after `newConsumers`: the bindings, how it stands, and the consumers closed
unfoldable pub start_with :
    {S A C : Type 0}
    → ℤ
    → Detector
    → List (Bound S A × Script)
    → Result (List C) × List C
    → List (Bound S A) × (Progress × List C)
unfolding warm_all conclude
start_with timeout detector bs (err e, closed) =
    (map (λ b. b.0) bs, (refused (wrap Context.package_name e), closed))
start_with timeout detector bs (ok consumers, _) =
    let results = warm_all timeout detector bs in
    (map (λ r. r.0) results, conclude consumers (map (λ r. r.1) results))

-- `Start` after the claim
unfoldable pub start :
    {S A C : Type 0}
    → ℤ
    → Detector
    → List (Bytes × Result C)
    → List (Bound S A × Script)
    → List (Bound S A) × (Progress × List C)
unfolding new_consumers start_with
start timeout detector answers bs = start_with timeout detector bs (new_consumers answers)
