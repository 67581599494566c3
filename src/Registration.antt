-- ===== src/Registration.antt =====
-- registration.go: one bound topic as the loader sees it. The closures act on a store whose type
-- the loader does not know, here the parameter `S`.
pub mod Replay
pub mod Partitions
pub mod Accounting
pub mod Emitted
use easykafka_config_go.Prelude.{
  ℕ, Bool, true, false, ◌&&◌, not, Option, none, some, List, [], ◌∷◌, ◌++◌, ite, is_some, ◌==◌,
  if◌then◌else◌,
}
use easykafka_config_go.Prelude.Words.{ℤ, increment, signed}
use easykafka_config_go.Errors.{Bytes, Err, wrap, Context, Result, ok, err}
use easykafka_config_go.Text.{Slice}
use easykafka_config_go.Codec.{TombstonePolicy, tombstone_on_blank_payload}
use easykafka_config_go.Driver.Event.{Record}
use easykafka_config_go.Observer.{
  Phase, Notice, on_upsert, on_delete, on_filtered, on_decode_error, on_key_mismatch, Warning,
  bad_key, bad_payload, keys_disagree, Effect, notify, warn, BindingStats,
}
use easykafka_config_go.Binding.{Binding}
use easykafka_config_go.Store
use easykafka_config_go.Store.{Store}

-- What a binding's goroutine writes: the store, the atomics of its registration, and the calls
-- that it makes on the observer and the error logger, in order.
pub record Cell (S : Type 0) : Type 0 where
  pub store : S
  pub phase : Phase
  pub upserts : ℕ
  pub deletes : ℕ
  pub filtered : ℕ
  pub decode_errors : ℕ
  pub last_record_at : ℕ  -- UnixNano, of a clock between 1970 and 2262
  pub warmup_applied : ℕ  -- the bit pattern of the atomic.Int64
  pub warmup_took : ℕ
  pub trace : List Effect

-- the atomics of a new registration
abbrev pub new_cell : {S : Type 0} → S → Cell S
new_cell s = record {
  store = s;
  phase = Phase.warmup;
  upserts = 0;
  deletes = 0;
  filtered = 0;
  decode_errors = 0;
  last_record_at = 0;
  warmup_applied = 0;
  warmup_took = 0;
  trace = [];
}

-- The fixed part of `registration`; `lookup` gives the pointer as any, here as its type `A`.
pub record Registration (S A : Type 0) : Type 0 where
  pub name : Bytes
  pub topic : Bytes
  pub allow_empty : Bool
  pub apply : Record → ℕ → Cell S → Cell S
  pub lookup : Bytes → Cell S → Result (A × Bool)
  pub size : Cell S → ℤ

-- `inWarmup`
abbrev pub in_warmup : {S : Type 0} → Cell S → Bool
in_warmup c = elim c.phase [ Phase.warmup ↦ true | _ ↦ false ]

abbrev pub emit : {S : Type 0} → Effect → Cell S → Cell S
emit e c = record c { trace = c.trace ++ e ∷ [] }

abbrev pub tell : {S : Type 0} → Notice → Cell S → Cell S
tell n = emit (notify n)

-- a warning by `errLog`, which discards it unless WithErrorLogging is set
abbrev pub log_error : {S : Type 0} → Bool → Warning → Cell S → Cell S
log_error log_errors w c = if log_errors then emit (warn w) c else c

-- `noteRecord`, at the time `now`
unfoldable pub note_record : {S : Type 0} → ℕ → Cell S → Cell S
note_record now c = record c {
  last_record_at = now;
  warmup_applied = if in_warmup c then increment c.warmup_applied else c.warmup_applied;
}

-- `stats`
unfoldable pub stats : {S A : Type 0} → Registration S A → Cell S → BindingStats
stats r c = record {
  name = r.name;
  topic = r.topic;
  phase = c.phase;
  size = r.size c;
  upserts = c.upserts;
  deletes = c.deletes;
  filtered = c.filtered;
  decode_errors = c.decode_errors;
  warmup_applied = signed c.warmup_applied;
  warmup_took = c.warmup_took;
  last_record_at = if c.last_record_at == 0 then none else some c.last_record_at;
}

-- `show` is `fmt.Sprint` at the key's type; `decode_key` and `decode_value` are the fields of the
-- binding, which are not nil once it has been validated.
module _ {K V : Type 0} (dec : Discrete K) (show : K → Bytes) (log_errors : Bool) (b : Binding K V)
    (decode_key : Slice → Result K) (decode_value : Slice → Result (Option V)) where
  -- the policy in use: the binding's, or the default
  abbrev pub tombstone : TombstonePolicy
  tombstone = elim b.tombstone [ none ↦ tombstone_on_blank_payload | some policy ↦ policy ]

  unfoldable pub skip_key : Record → Err → Cell (Store K V) → Cell (Store K V)
  skip_key rec e c = tell (on_decode_error b.name e rec.key) (
      log_error log_errors (bad_key b.name e rec.key)
        (record c { decode_errors = increment c.decode_errors }))

  unfoldable pub apply_tombstone : ℕ → K → Cell (Store K V) → Cell (Store K V)
  unfolding note_record
  apply_tombstone now key c =
      let c' =
        note_record now
          (record c { store = Store.delete dec key c.store; deletes = increment c.deletes }) in
      tell (on_delete b.name (in_warmup c')) c'

  unfoldable pub skip_value : Record → Err → Cell (Store K V) → Cell (Store K V)
  skip_value rec e c = tell (on_decode_error b.name e rec.payload) (
      log_error log_errors (bad_payload b.name e rec.key)
        (record c { decode_errors = increment c.decode_errors }))

  -- the key that the entry goes under
  unfoldable pub final_key : K → Option V → K
  final_key key value = elim b.key_from_value [ none ↦ key | some derive ↦ derive value ]

  -- `VerifyKeyAgreement && derived != key`, which is asked only where KeyFromValue is set
  unfoldable pub keys_differ : K → Option V → Bool
  unfolding final_key
  keys_differ key value =
      is_some b.key_from_value
      && (b.verify_key_agreement && not (ite (dec (final_key key value) key) true false))

  unfoldable pub report_mismatch : K → Option V → Cell (Store K V) → Cell (Store K V)
  unfolding keys_differ
  report_mismatch key value c =
      let derived = final_key key value in
      if keys_differ key value
      then tell (on_key_mismatch b.name (show key) (show derived))
          (log_error log_errors (keys_disagree b.name (show key) (show derived)) c)
      else c

  -- `b.Filter != nil && !b.Filter(key, value)`
  unfoldable pub rejected : K → Option V → Bool
  rejected key value = elim b.filter [ none ↦ false | some keep ↦ not (keep key value) ]

  unfoldable pub apply_filtered : Cell (Store K V) → Cell (Store K V)
  apply_filtered c = tell (on_filtered b.name) (record c { filtered = increment c.filtered })

  unfoldable pub apply_upsert : ℕ → K → Option V → Cell (Store K V) → Cell (Store K V)
  unfolding note_record
  apply_upsert now key value c =
      let c' =
        note_record now
          (record c { store = Store.put dec key value c.store; upserts = increment c.upserts }) in
      tell (on_upsert b.name (in_warmup c')) c'

  -- from the decoded payload on
  unfoldable pub apply_value : ℕ → K → Option V → Cell (Store K V) → Cell (Store K V)
  unfolding report_mismatch rejected apply_filtered apply_upsert
  apply_value now key value c =
      let c' = report_mismatch key value c in
      let key' = final_key key value in
      if rejected key' value then apply_filtered c' else apply_upsert now key' value c'

  -- from the result of DecodeValue on
  unfoldable pub after_value :
      Record → ℕ → K → Result (Option V) → Cell (Store K V) → Cell (Store K V)
  unfolding skip_value apply_value
  after_value rec now key (err e) c = skip_value rec e c
  after_value rec now key (ok value) c = apply_value now key value c

  -- from the result of DecodeKey on
  unfoldable pub after_key : Record → ℕ → Result K → Cell (Store K V) → Cell (Store K V)
  unfolding skip_key apply_tombstone after_value
  after_key rec now (err e) c = skip_key rec e c
  after_key rec now (ok key) c =
      if tombstone rec.payload
      then apply_tombstone now key c
      else after_value rec now key (decode_value rec.payload) c

  -- The closure of `applyFunc`: one record folded into the store, at the time `now`.
  unfoldable pub apply_func : Record → ℕ → Cell (Store K V) → Cell (Store K V)
  unfolding after_key
  apply_func rec now c = after_key rec now (decode_key rec.key) c

  -- The closure of `lookupFunc`: a raw key, decoded and looked up.
  unfoldable pub lookup_func : Bytes → Cell (Store K V) → Result (Option V × Bool)
  lookup_func raw c = elim (decode_key (some raw)) [
    | err e ↦ err (wrap (Context.decoding_key raw b.name) e)
    | ok key ↦ ok (Store.get dec key c.store)
  ]

  -- The registration that `BindTo` builds.
  unfoldable pub registration_of : Registration (Store K V) (Option V)
  unfolding apply_func lookup_func
  registration_of = record {
    name = b.name;
    topic = b.topic;
    allow_empty = b.allow_empty;
    apply = apply_func;
    lookup = lookup_func;
    size = λ c. Store.len c.store;
  }
