-- ===== src/Loader/Start/Sharing.antt =====
-- `BindTo` of loader.go with one store for several bindings: their calls of `apply`, each of which
-- works on the store behind its registration's pointer, one call after the other.
use easykafka_config_go.Prelude.{
  ℕ, ◌≡◌, refl, sym, ap, ◌∙◌, Bool, Option, List, [], ◌∷◌, ◌++◌, ite, ℕ_discrete, append-nil, arith,
}
use easykafka_config_go.Prelude.Family.{update}
use easykafka_config_go.Errors.{Bytes, Result}
use easykafka_config_go.Text.{Slice}
use easykafka_config_go.Driver.Event.{Record}
use easykafka_config_go.Binding.{Binding}
use easykafka_config_go.Store.{Store}
use easykafka_config_go.Store.History.{Write, run, run-append}
use easykafka_config_go.Registration.{Cell, Registration, registration_of}
use easykafka_config_go.Registration.Replay.{writes, store-apply_func}
use easykafka_config_go.Loader.Start.Bind.{Address, Heap, deref}

-- The stores in memory, and of each registration its own atomics and its pointer.
pub record Memory (S : Type 0) : Type 0 where
  pub heap : Heap S
  pub cells : ℕ → Cell Address

-- a registration's own state, with the pointer to its store
abbrev point : {S : Type 0} → Address → Cell S → Cell Address
point address c = record {
  store = address;
  phase = c.phase;
  upserts = c.upserts;
  deletes = c.deletes;
  filtered = c.filtered;
  decode_errors = c.decode_errors;
  last_record_at = c.last_record_at;
  warmup_applied = c.warmup_applied;
  warmup_took = c.warmup_took;
  trace = c.trace;
}

-- A call of `apply`: the registration, the record, and the time.
abbrev pub Call : Type 0
Call = ℕ × (Record × ℕ)

module _ {S A : Type 0} (regs : ℕ → Registration S A) where
  -- `reg.apply(rec)`
  unfoldable apply_through : Call → Memory S → Memory S
  apply_through (i, (rec, now)) m =
      let address = (m.cells i).store in
      let c = (regs i).apply rec now (deref m.heap (m.cells i)) in
      record { heap = update m.heap address c.store; cells = update m.cells i (point address c) }

  -- calls of any registrations, in order
  unfoldable pub apply_all : List Call → Memory S → Memory S
  unfolding apply_through
  apply_all [] m = m
  apply_all (call ∷ calls) m = apply_all calls (apply_through call m)

  address-apply_through :
      (call : Call) (m : Memory S) (j : ℕ)
      → ((apply_through call m).cells j).store ≡ (m.cells j).store
  unfolding apply_through
  address-apply_through (i, (rec, now)) m j = elim (ℕ_discrete i j) [
    | yes same ↦ ground (arith, same)
    | no other ↦ ground (arith, other)
  ]

  -- the calls of one registration
  unfoldable calls_of : ℕ → List Call → List (Record × ℕ)
  calls_of j [] = []
  calls_of j ((i, r) ∷ calls) = let rest = calls_of j calls in ite (ℕ_discrete i j) (r ∷ rest) rest

  -- the calls of a registration that has its store for itself
  unfoldable apply_own : ℕ → List (Record × ℕ) → Cell S → Cell S
  apply_own j [] c = c
  apply_own j ((rec, now) ∷ rs) c = apply_own j rs ((regs j).apply rec now c)

  -- No other registration points to the store of this one.
  abbrev Alone : Memory S → ℕ → Type 0
  Alone m j = (i : ℕ) → (m.cells i).store ≡ (m.cells j).store → i ≡ j

  Alone-apply_through :
      (call : Call) (m : Memory S) (j : ℕ) → Alone m j → Alone (apply_through call m) j
  Alone-apply_through call m j alone i same =
      alone i (sym (address-apply_through call m i) ∙ same ∙ address-apply_through call m j)

  deref-apply_through :
      (call : Call) (m : Memory S) (j : ℕ)
      → Alone m j
      → let m' = apply_through call m in
        deref m'.heap (m'.cells j) ≡ apply_own j (calls_of j (call ∷ [])) (deref m.heap (m.cells j))
  unfolding apply_through calls_of apply_own
  deref-apply_through (i, (rec, now)) m j alone = elim (ℕ_discrete i j) [
    | yes same ↦ ground (arith, same)
    | no other ↦ ground (arith, other, alone i)
  ]

  apply_own-calls_of :
      (call : Call) (calls : List Call) (j : ℕ) (c : Cell S)
      → apply_own j (calls_of j (call ∷ calls)) c
        ≡ apply_own j (calls_of j calls) (apply_own j (calls_of j (call ∷ [])) c)
  unfolding apply_own calls_of
  apply_own-calls_of (i, r) calls j c = ground arith

  -- However the calls of all registrations follow each other, one whose store no other has ends with
  -- the state and the store that its own calls alone leave.
  deref-apply_all :
      (calls : List Call) (m : Memory S) (j : ℕ)
      → Alone m j
      → let m' = apply_all calls m in
        deref m'.heap (m'.cells j) ≡ apply_own j (calls_of j calls) (deref m.heap (m.cells j))
  unfolding apply_all apply_own calls_of
  deref-apply_all [] m j alone = refl
  deref-apply_all (call ∷ calls) m j alone =
      deref-apply_all calls (apply_through call m) j (Alone-apply_through call m j alone)
      ∙ ap (apply_own j (calls_of j calls)) (deref-apply_through call m j alone)
      ∙ sym (apply_own-calls_of call calls j (deref m.heap (m.cells j)))

module _ {K V : Type 0} (dec : Discrete K) (show : K → Bytes) (log_errors : Bool)
    (bindings : ℕ → Binding K V) (decode_key : ℕ → Slice → Result K)
    (decode_value : ℕ → Slice → Result (Option V)) where
  abbrev pub regs : ℕ → Registration (Store K V) (Option V)
  regs i = registration_of dec show log_errors (bindings i) (decode_key i) (decode_value i)

  abbrev writes_by : ℕ → List (Record × ℕ) → List (Write K V)
  writes_by i = writes dec show log_errors (bindings i) (decode_key i) (decode_value i)

  -- the writes of the calls whose registration points to an address, in order
  unfoldable pub writes_to : (ℕ → Address) → Address → List Call → List (Write K V)
  writes_to address a [] = []
  writes_to address a ((i, r) ∷ calls) =
      let rest = writes_to address a calls in
      ite (ℕ_discrete (address i) a) (writes_by i (r ∷ []) ++ rest) rest

  store-apply_through :
      (call : Call) (m : Memory (Store K V)) (a : Address)
      → (apply_through regs call m).heap a
        ≡ run dec (writes_to (λ i. (m.cells i).store) a (call ∷ [])) (m.heap a)
  unfolding apply_through writes_to writes run registration_of
  store-apply_through (i, (rec, now)) m a = elim (ℕ_discrete (m.cells i).store a) [
    | yes same ↦ ground (
      arith,
      same,
      store-apply_func dec show log_errors (bindings i) (decode_key i) (decode_value i) rec now
          (deref m.heap (m.cells i)),
    )
    | no other ↦ ground (arith, other)
  ]

  writes_to-ext :
      (f g : ℕ → Address) (a : Address) (calls : List Call)
      → ((i : ℕ) → f i ≡ g i)
      → writes_to f a calls ≡ writes_to g a calls
  unfolding writes_to
  writes_to-ext f g a [] h = refl
  writes_to-ext f g a ((i, r) ∷ calls) h = rw (h i, writes_to-ext f g a calls h) refl

  writes_to-cons :
      (f : ℕ → Address) (a : Address) (call : Call) (calls : List Call)
      → writes_to f a (call ∷ calls) ≡ writes_to f a (call ∷ []) ++ writes_to f a calls
  unfolding writes_to
  writes_to-cons f a (i, r) calls = ground (arith, append-nil (writes_by i (r ∷ [])))

  -- However the calls of all registrations follow each other, and whichever of them point to the same
  -- store, every store in memory ends with the writes of the calls of exactly those registrations that
  -- point to it, in the order of the calls.
  pub heap-apply_all :
      (calls : List Call) (m : Memory (Store K V)) (a : Address)
      → (apply_all regs calls m).heap a
        ≡ run dec (writes_to (λ i. (m.cells i).store) a calls) (m.heap a)
  unfolding apply_all writes_to run
  heap-apply_all [] m a = refl
  heap-apply_all (call ∷ calls) m a =
      let m' = apply_through regs call m in
      let address : ℕ → Address = λ i. (m.cells i).store in
      heap-apply_all calls m' a
      ∙ ap (λ ws. run dec ws (m'.heap a))
          (writes_to-ext (λ i. (m'.cells i).store) address a calls
            (address-apply_through regs call m))
      ∙ ap (run dec (writes_to address a calls)) (store-apply_through call m a)
      ∙ sym
          (run-append dec (writes_to address a (call ∷ [])) (writes_to address a calls) (m.heap a))
      ∙ ap (λ ws. run dec ws (m.heap a)) (sym (writes_to-cons address a call calls))
