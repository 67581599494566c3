-- ===== src/Loader/Start/Lookup.antt =====
-- `BindTo`, `add` and `LookupRaw` of loader.go: what is found by name after a call of BindTo.
use mathlib.Core.Path.{subst}
use easykafka_config_go.Prelude.{
  ◌≡◌, ap, ◌∙◌, Bool, false, Option, none, some, List, [], ◌∷◌, ◌++◌, if◌then◌else◌, arith,
  Bool-cases, Option-cases, inl, inr,
}
use easykafka_config_go.Errors.{Bytes, Context, wrap, Result, ok, err}
use easykafka_config_go.Text.{Slice, same_bytes, same_bytes_refl, eq_of_same_bytes}
use easykafka_config_go.Binding.{Binding, validate}
use easykafka_config_go.Store.{Store, get}
use easykafka_config_go.Registration.{new_cell, registration_of}
use easykafka_config_go.Loader.Start.Bind.{
  Heap, Address, Registered, Loader, added, find, is_bound, add, bind_to, lookup_raw,
}

module _ {S A : Type 0} where
  find-snoc_other :
      (name : Bytes) (bs : List (Registered S A)) (b : Registered S A)
      → same_bytes b.reg.name name ≡ false
      → find name (bs ++ b ∷ []) ≡ find name bs
  unfolding find
  find-snoc_other name [] b h = ground (arith, h)
  find-snoc_other name (x ∷ bs) b h = ground (arith, find-snoc_other name bs b h)

  find-snoc_self :
      (bs : List (Registered S A)) (b : Registered S A)
      → is_bound b.reg.name bs ≡ false
      → find b.reg.name (bs ++ b ∷ []) ≡ some b
  unfolding find
  find-snoc_self [] b h = ground (arith, same_bytes_refl b.reg.name)
  find-snoc_self (x ∷ bs) b h = ground (arith, find-snoc_self bs b)

  -- A loader after a binding has been added.
  record Extends (b : Registered S A) (l l' : Loader S A) : Type 0 where
    early : l.started ≡ false
    fresh : is_bound b.reg.name l.regs ≡ false
    kept : l' ≡ record l { regs = l.regs ++ b ∷ [] }

  add-Extends : (b : Registered S A) (l l' : Loader S A) → add b l ≡ added l' → Extends b l l'
  unfolding add
  add-Extends b l l' h = elim (Bool-cases l.started) [
    | inl late ↦ absurd (ground (arith, late))
    | inr early ↦ elim (Bool-cases (is_bound b.reg.name l.regs)) [
      | inl twice ↦ absurd (ground (arith, early, twice))
      | inr fresh ↦ record { early = early; fresh = fresh; kept = ground (arith, early, fresh) }
    ]
  ]

  find-add :
      (name : Bytes) (b : Registered S A) (l l' : Loader S A)
      → Extends b l l'
      → find name l'.regs ≡ (if same_bytes b.reg.name name then some b else find name l.regs)
  find-add name b l l' x =
      ap (λ k. find name k.regs) x.kept ∙ elim (Bool-cases (same_bytes b.reg.name name)) [
        | inl same ↦ rw same (
            subst (λ q. find q (l.regs ++ b ∷ []) ≡ some b) (eq_of_same_bytes b.reg.name name same)
              (find-snoc_self l.regs b x.fresh))
        | inr other ↦ rw other (find-snoc_other name l.regs b other)
      ]

module _ {K V : Type 0} (dec : Discrete K) (show : K → Bytes) (log_errors : Bool) (b : Binding K V)
    (address : Address) where
  -- A binding that the loader has taken.
  pub record Taken (l l' : Loader (Store K V) (Option V)) : Type 0 where
    pub decode_key : Slice → Result K
    pub decode_value : Slice → Result (Option V)
    pub has_decode_key : b.decode_key ≡ some decode_key
    pub has_decode_value : b.decode_value ≡ some decode_value
    pub usable : validate b ≡ none
    pub early : l.started ≡ false
    pub fresh : is_bound b.name l.regs ≡ false
    pub found :
        (heap : Heap (Store K V)) (name raw : Bytes)
        → lookup_raw heap name raw l' ≡ (
            if same_bytes b.name name
            then elim (decode_key (some raw)) [
              | err e ↦ err (wrap (Context.decoding_key raw b.name) e)
              | ok key ↦ ok (get dec key (heap address))
            ]
            else lookup_raw heap name raw l)

  bound_of : (Slice → Result K) → (Slice → Result (Option V)) → Registered (Store K V) (Option V)
  bound_of decode_key decode_value = record {
    reg = registration_of dec show log_errors b decode_key decode_value;
    cell = new_cell address;
  }

  lookup_raw_of_Extends :
      (decode_key : Slice → Result K) (decode_value : Slice → Result (Option V))
      (l l' : Loader (Store K V) (Option V))
      → Extends (bound_of decode_key decode_value) l l'
      → (heap : Heap (Store K V)) (name raw : Bytes)
      → lookup_raw heap name raw l' ≡ (
          if same_bytes b.name name
          then elim (decode_key (some raw)) [
            | err e ↦ err (wrap (Context.decoding_key raw b.name) e)
            | ok key ↦ ok (get dec key (heap address))
          ]
          else lookup_raw heap name raw l)
  unfolding lookup_raw registration_of bound_of
  lookup_raw_of_Extends decode_key decode_value l l' x heap name raw =
      elim (Bool-cases (same_bytes b.name name)) [
        | inl same ↦ ground (arith, same, find-add name (bound_of decode_key decode_value) l l' x)
        | inr other ↦ ground (arith, other, find-add name (bound_of decode_key decode_value) l l' x)
      ]

  -- If BindTo takes a binding with a pointer to a store, then Validate accepts it, the loader has not
  -- been started, and no binding of it has that name; and afterwards, whatever the stores in memory
  -- hold by then, LookupRaw by that name decodes the raw key with the binding's DecodeKey and gives
  -- what `Get` finds in the store behind the pointer, or the decoder's error in its context, while by
  -- any other name it gives what it gives without the binding.
  pub bind_to-Taken :
      (l l' : Loader (Store K V) (Option V))
      → bind_to dec show log_errors b (some address) l ≡ added l'
      → Taken l l'
  unfolding bind_to bound_of registration_of
  bind_to-Taken l l' h = elim (Option-cases (validate b)) [
    | inr (e, broken) ↦ absurd (ground (arith, broken))
    | inl usable ↦ elim (Option-cases b.decode_key) [
      | inl missing ↦ absurd (ground (arith, usable, missing))
      | inr (decode_key, has_key) ↦ elim (Option-cases b.decode_value) [
        | inl missing ↦ absurd (ground (arith, usable, has_key, missing))
        | inr (decode_value, has_value) ↦
            let x : Extends (bound_of decode_key decode_value) l l' =
              add-Extends (bound_of decode_key decode_value) l l'
                (ground (arith, usable, has_key, has_value)) in
            record {
              decode_key = decode_key;
              decode_value = decode_value;
              has_decode_key = has_key;
              has_decode_value = has_value;
              usable = usable;
              early = x.early;
              fresh = x.fresh;
              found = lookup_raw_of_Extends decode_key decode_value l l' x;
            }
      ]
    ]
  ]
