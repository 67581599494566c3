-- ===== src/Driver/Config/Pinned.antt =====
-- `buildConfigMap` of internal/driver/consumer.go: the reserved properties in the map that it makes.
use easykafka_config_go.Prelude.{
  ◌≡◌, refl, true, false, Option, none, some, List, [], ◌∷◌, ◌++◌, any, is_empty, All,
  if◌then◌else◌, arith, ◌∙◌, Bool-cases, inl, inr,
}
use easykafka_config_go.Errors.{Bytes, Result, ok, err, none-join_errors}
use easykafka_config_go.Text.{bytes, is_blank, same_bytes, eq_of_same_bytes}
use easykafka_config_go.Driver.Config.{
  Value, text, flag, Config, is_reserved, reserved_errors, complaints, validate, complain,
  base_properties, sasl_properties, set_keys, with_sasl, join_commas, build_config_map,
}

-- the value of a key among the entries of a map literal
unfoldable pub entry : Bytes → List (Bytes × Value) → Option Value
entry j [] = none
entry j ((k, v) ∷ es) = if same_bytes j k then some v else entry j es

-- A list of properties that the driver does not reserve.
abbrev Unreserved : List (Bytes × Value) → Type 0
Unreserved = All (λ e. is_reserved e.0 ≡ false)

Unreserved-of_errors : (es : List (Bytes × Value)) → reserved_errors es ≡ [] → Unreserved es
unfolding reserved_errors
Unreserved-of_errors [] h = tt
Unreserved-of_errors ((k, v) ∷ es) h = elim (Bool-cases (is_reserved k)) [
  | inl reserved ↦ absurd (ground (arith, reserved))
  | inr free ↦ (free, Unreserved-of_errors es (ground (arith, free)))
]

nil_right {ℓ} : {A : Type ℓ} (xs ys : List A) → xs ++ ys ≡ [] → ys ≡ []
nil_right [] ys h = h
nil_right (x ∷ xs) ys h = cc

Unreserved-of_validate : (c : Config) → validate c ≡ none → Unreserved c.extra
unfolding validate complaints
Unreserved-of_validate c h = Unreserved-of_errors c.extra (
    nil_right (complain (is_blank c.group_id)) _ (
      nil_right (complain (is_blank c.topic)) _ (
        nil_right (complain (any is_blank c.brokers)) _
          (nil_right (complain (is_empty c.brokers)) _ (none-join_errors (complaints c) h)))))

different : (j k : Bytes) → is_reserved j ≡ true → is_reserved k ≡ false → same_bytes j k ≡ false
different j k r f = elim (Bool-cases (same_bytes j k)) [
  | inl same ↦ absurd (ground (arith, eq_of_same_bytes j k same))
  | inr other ↦ other
]

Unreserved-sasl_properties : (c : Config) → Unreserved (sasl_properties c)
unfolding is_reserved same_bytes
Unreserved-sasl_properties c = (refl, (refl, (refl, (refl, tt))))

-- What the driver relies on of `kafka.ConfigMap`: a map literal holds its entries, and SetKey
-- leaves the reserved keys other than the one that it sets.
module _ {M : Type 0} (of_list : List (Bytes × Value) → M) (set_key : Bytes → Value → M → Result M)
    (get : Bytes → M → Option Value)
    (get-of_list : (j : Bytes) (es : List (Bytes × Value)) → get j (of_list es) ≡ entry j es)
    (get-set_key : (j k : Bytes) (v : Value) (m m' : M)
      → set_key k v m ≡ ok m'
      → is_reserved j ≡ true
      → same_bytes j k ≡ false
      → get j m' ≡ get j m) where
  set_keys-ok :
      (k : Bytes) (v : Value) (es : List (Bytes × Value)) (m m' : M)
      → set_keys of_list set_key ((k, v) ∷ es) m ≡ ok m'
      → (m1 : M) × (set_key k v m ≡ ok m1) × (set_keys of_list set_key es m1 ≡ ok m')
  unfolding set_keys
  set_keys-ok k v es m m' h = ground arith

  get-set_keys :
      (j : Bytes) (es : List (Bytes × Value)) (m m' : M)
      → is_reserved j ≡ true
      → Unreserved es
      → set_keys of_list set_key es m ≡ ok m'
      → get j m' ≡ get j m
  get-set_keys j [] m m' r u h = unfold set_keys in ground arith
  get-set_keys j ((k, v) ∷ es) m m' r u h =
      let (m1, first, others) = set_keys-ok k v es m m' h in
      get-set_keys j es m1 m' r u.1 others ∙ get-set_key j k v m m1 first r (different j k r u.0)

  build_config_map-ok :
      (c : Config) (m : M)
      → build_config_map of_list set_key c ≡ ok m
      → (m1 : M) × (with_sasl of_list set_key c ≡ ok m1)
        × (set_keys of_list set_key c.extra m1 ≡ ok m)
  unfolding build_config_map
  build_config_map-ok c m h = by_result (with_sasl of_list set_key c) refl h
    where
      by_result :
          (r : Result M)
          → with_sasl of_list set_key c ≡ r
          → build_config_map of_list set_key c ≡ ok m
          → (m1 : M) × (with_sasl of_list set_key c ≡ ok m1)
            × (set_keys of_list set_key c.extra m1 ≡ ok m)
      by_result (err e) e1 h1 = absurd (ground (arith, e1))
      by_result (ok m1) e1 h1 = (m1, e1, ground (arith, e1))

  get-with_sasl :
      (j : Bytes) (c : Config) (m : M)
      → is_reserved j ≡ true
      → with_sasl of_list set_key c ≡ ok m
      → get j m ≡ entry j (base_properties c)
  unfolding with_sasl
  get-with_sasl j c m r h = elim (Bool-cases (is_empty c.security_protocol)) [
    | inl plain ↦
        let same : of_list (base_properties c) ≡ m = ground (arith, plain) in
        rw (← same) (get-of_list j (base_properties c))
    | inr secured ↦
        get-set_keys j (sasl_properties c) (of_list (base_properties c)) m r
          (Unreserved-sasl_properties c) (ground (arith, secured))
        ∙ get-of_list j (base_properties c)
  ]

  -- Whatever the configuration, if it is valid and a property map is built from it, then the map
  -- has every reserved property as the driver sets it, among them that offsets are not committed
  -- and that the end of a partition is reported: nothing in Extra or the SASL settings overrides
  -- one. This relies on `kafka.ConfigMap` as the section states it.
  pub build_config_map-pinned :
      (c : Config) (m : M)
      → validate c ≡ none
      → build_config_map of_list set_key c ≡ ok m
      → (get (bytes "enable.partition.eof") m ≡ some (flag true))
        × (get (bytes "enable.auto.commit") m ≡ some (flag false))
        × (get (bytes "enable.auto.offset.store") m ≡ some (flag false))
        × (get (bytes "auto.offset.reset") m ≡ some (text (bytes "earliest")))
        × (get (bytes "group.id") m ≡ some (text c.group_id))
        × (get (bytes "bootstrap.servers") m ≡ some (text (join_commas c.brokers)))
  unfolding is_reserved entry same_bytes base_properties
  build_config_map-pinned c m valid built =
      let (m1, base, extra) = build_config_map-ok c m built in
      let pinned = λ (j : Bytes) (r : is_reserved j ≡ true).
        get-set_keys j c.extra m1 m r (Unreserved-of_validate c valid) extra
        ∙ get-with_sasl j c m1 r base in
      (
        pinned (bytes "enable.partition.eof") refl,
        pinned (bytes "enable.auto.commit") refl,
        pinned (bytes "enable.auto.offset.store") refl,
        pinned (bytes "auto.offset.reset") refl,
        pinned (bytes "group.id") refl,
        pinned (bytes "bootstrap.servers") refl,
      )
