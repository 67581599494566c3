-- ===== src/Binding/Checked.antt =====
-- binding.go: `Validate` against what a usable binding has.
use easykafka_config_go.Prelude.{
  append-nil, ◌≡◌, refl, ◌↔◌, Bool, true, false, ◌&&◌, not, none, some, List, [], ◌∷◌, ◌++◌, map,
  is_some, All, arith, ◌∙◌,
}
use easykafka_config_go.Errors.{
  Err, is, is_option, join_errors, none-join_errors, is-join_errors, invalid_binding,
  same_sentinel_refl,
}
use easykafka_config_go.Text.{is_blank}
use easykafka_config_go.Binding.{Binding, complain, complaints, validate}

-- A binding that Bind can use.
pub record Usable {K V : Type 0} (b : Binding K V) : Type 0 where
  pub named : is_blank b.name ≡ false
  pub topic_named : is_blank b.topic ≡ false
  pub key_decoded : is_some b.decode_key ≡ true
  pub value_decoded : is_some b.decode_value ≡ true
  pub verifiable : b.verify_key_agreement && not (is_some b.key_from_value) ≡ false

Usable-of_complaints : {K V : Type 0} (b : Binding K V) → complaints b ≡ [] → Usable b
unfolding complaints
Usable-of_complaints b h = record {
  named = ground arith;
  topic_named = ground arith;
  key_decoded = ground arith;
  value_decoded = ground arith;
  verifiable = ground arith;
}

-- Whether every error collected is an ErrInvalidBinding.
abbrev AllInvalid : List Err → Type 0
AllInvalid = All (λ e. is invalid_binding e ≡ true)

AllInvalid-prepend : (bad : Bool) (es : List Err) → AllInvalid es → AllInvalid (complain bad ++ es)
unfolding is
AllInvalid-prepend true es h = (same_sentinel_refl invalid_binding, h)
AllInvalid-prepend false es h = h

AllInvalid-complaints : {K V : Type 0} (b : Binding K V) → AllInvalid (complaints b)
unfolding complaints
AllInvalid-complaints b =
    let last = complain (b.verify_key_agreement && not (is_some b.key_from_value)) in
    let fourth = complain (not (is_some b.decode_value)) ++ last in
    let third = complain (not (is_some b.decode_key)) ++ fourth in
    let second = complain (is_blank b.topic) ++ third in
    AllInvalid-prepend (is_blank b.name) second (
      AllInvalid-prepend (is_blank b.topic) third (
        AllInvalid-prepend (not (is_some b.decode_key)) fourth (
          AllInvalid-prepend (not (is_some b.decode_value)) last (
            rw (append-nil last) at (
              AllInvalid-prepend (b.verify_key_agreement && not (is_some b.key_from_value)) []
                tt)))))

is-joined :
    (es : List Err)
    → AllInvalid es
    → is_option invalid_binding (join_errors (map some es)) ≡ is_some (join_errors (map some es))
unfolding join_errors
is-joined [] h = refl
is-joined (x ∷ es) h = is-join_errors invalid_binding (map some (x ∷ es)) ∙ ground (arith, h.0)

-- Validate accepts a binding exactly if its name and topic are not blank, both decoders are set,
-- and VerifyKeyAgreement comes with a KeyFromValue; any error that it returns is an
-- ErrInvalidBinding to errors.Is.
pub validate-Usable :
    {K V : Type 0} (b : Binding K V)
    → ((validate b ≡ none) ↔ Usable b)
      × (is_option invalid_binding (validate b) ≡ is_some (validate b))
unfolding validate complaints join_errors
validate-Usable b = (
  (
    λ h. Usable-of_complaints b (none-join_errors (complaints b) h),
    λ u. ground (arith, u.named, u.topic_named, u.key_decoded, u.value_decoded, u.verifiable),
  ),
  is-joined (complaints b) (AllInvalid-complaints b),
)
