-- ===== src/Loader/Start/Bind.antt =====
-- loader.go: the loader, `Bind`, `BindTo`, `add`, the claim of `Start`, `Stats` and `LookupRaw`, with
-- the stores behind pointers, so that bindings may share one.
use easykafka_config_go.Prelude.{
  ℕ, Bool, true, Option, none, some, List, [], ◌∷◌, ◌++◌, map, any, is_empty, if◌then◌else◌,
}
use easykafka_config_go.Prelude.Family.{update}
use easykafka_config_go.Errors.{
  Bytes, Err, sentinel, wrap, Context, Result, err, already_started, no_bindings, unknown_binding,
}
use easykafka_config_go.Text.{same_bytes}
use easykafka_config_go.Observer.{BindingStats}
use easykafka_config_go.Binding.{Binding, validate}
use easykafka_config_go.Store.{Store, new_store}
use easykafka_config_go.Registration.{Cell, new_cell, Registration, stats, registration_of}

-- A `*Store` that is not nil: which of the stores in memory.
abbrev pub Address : Type 0
Address = ℕ

-- what the stores in memory hold
abbrev pub Heap : Type 0 → Type 0
Heap S = Address → S

-- A registration as the loader keeps it: its own atomics, and a pointer to its store, which the
-- caller of BindTo has as well and may give to other bindings.
pub record Registered (S A : Type 0) : Type 0 where
  pub reg : Registration S A
  pub cell : Cell Address

-- a registration's state, with the store behind its pointer
abbrev pub deref : {S : Type 0} → Heap S → Cell Address → Cell S
deref heap c = record {
  store = heap c.store;
  phase = c.phase;
  upserts = c.upserts;
  deletes = c.deletes;
  filtered = c.filtered;
  decode_errors = c.decode_errors;
  last_record_at = c.last_record_at;
  warmup_applied = c.warmup_applied;
  warmup_took = c.warmup_took;
  trace = c.trace;
}

-- `Loader`; `byName` holds the registrations of `regs`, so it is the search in them by name.
pub record Loader (S A : Type 0) : Type 0 where
  pub regs : List (Registered S A)
  pub started : Bool

-- Why a call of Bind panics.
pub data Panic : Type 0 where
  nil_store after_start duplicate_name nil_function : Panic
  invalid : Err → Panic

pub data Added (L : Type 0) : Type 0 where
  added : L → Added L
  panicked : Panic → Added L

-- `l.byName[name]`
unfoldable pub find : {S A : Type 0} → Bytes → List (Registered S A) → Option (Registered S A)
find name [] = none
find name (b ∷ bs) = if same_bytes b.reg.name name then some b else find name bs

abbrev pub is_bound : {S A : Type 0} → Bytes → List (Registered S A) → Bool
is_bound name bs = any (λ b. same_bytes b.reg.name name) bs

-- `add`
unfoldable pub add : {S A : Type 0} → Registered S A → Loader S A → Added (Loader S A)
add b l =
    if l.started
    then panicked after_start
    else (if is_bound b.reg.name l.regs
        then panicked duplicate_name
        else added (record l { regs = l.regs ++ b ∷ [] }))

-- `BindTo`, for a loader of bindings of one type; the pointer to the store may be nil. A binding
-- that Validate accepts has both decoders, so `nil_function` does not occur.
unfoldable pub bind_to :
    {K V : Type 0}
    → Discrete K
    → (K → Bytes)
    → Bool
    → Binding K V
    → Option Address
    → Loader (Store K V) (Option V)
    → Added (Loader (Store K V) (Option V))
unfolding add
bind_to dec show log_errors b none l = panicked nil_store
bind_to dec show log_errors b (some address) l = elim (validate b) [
  | some e ↦ panicked (invalid e)
  | none ↦ elim b.decode_key [
    | none ↦ panicked nil_function
    | some decode_key ↦ elim b.decode_value [
      | none ↦ panicked nil_function
      | some decode_value ↦
          add
            (record {
              reg = registration_of dec show log_errors b decode_key decode_value;
              cell = new_cell address;
            })
            l
    ]
  ]
]

-- `Bind`, with `address` the one that NewStore returns: the stores in memory, and what BindTo does
unfoldable pub bind :
    {K V : Type 0}
    → Discrete K
    → (K → Bytes)
    → Bool
    → Binding K V
    → Address
    → Heap (Store K V)
    → Loader (Store K V) (Option V)
    → Heap (Store K V) × Added (Loader (Store K V) (Option V))
unfolding bind_to
bind dec show log_errors b address heap l =
    (update heap address new_store, bind_to dec show log_errors b (some address) l)

-- The locked section of `Start`: the new state, and the error that it returns at once.
unfoldable pub claim : {S A : Type 0} → Loader S A → Loader S A × Option Err
claim l =
    if l.started
    then (l, some (wrap Context.package_name (sentinel already_started)))
    else (if is_empty l.regs
        then (l, some (wrap Context.package_name (sentinel no_bindings)))
        else (record l { started = true }, none))

-- `Stats`
unfoldable pub all_stats : {S A : Type 0} → Heap S → Loader S A → List BindingStats
unfolding stats
all_stats heap l = map (λ b. stats b.reg (deref heap b.cell)) l.regs

-- `LookupRaw`
unfoldable pub lookup_raw : {S A : Type 0} → Heap S → Bytes → Bytes → Loader S A → Result (A × Bool)
unfolding find
lookup_raw heap name raw l = elim (find name l.regs) [
  | none ↦ err (wrap Context.detail (sentinel unknown_binding))
  | some b ↦ b.reg.lookup raw (deref heap b.cell)
]
