-- ===== src/Binding.antt =====
-- binding.go: how one topic is projected into one store. A function field may be nil.
pub mod Checked
use easykafka_config_go.Prelude.{
  ℕ, Bool, true, false, ◌&&◌, not, Option, none, some, List, [], ◌∷◌, ◌++◌, map, is_some,
  if◌then◌else◌,
}
use easykafka_config_go.Errors.{
  Bytes, Err, sentinel, wrap, Context, Result, join_errors, invalid_binding,
}
use easykafka_config_go.Text.{Slice, is_blank}
use easykafka_config_go.Codec.{TombstonePolicy}

pub record Binding (K V : Type 0) : Type 0 where
  pub name : Bytes
  pub topic : Bytes
  pub decode_key : Option (Slice → Result K)
  pub decode_value : Option (Slice → Result (Option V))
  pub key_from_value : Option (Option V → K)
  pub verify_key_agreement : Bool
  pub filter : Option (K → Option V → Bool)
  pub tombstone : Option TombstonePolicy
  pub allow_empty : Bool

-- `if problem { errs = append(errs, …) }`, of an error that wraps ErrInvalidBinding
abbrev pub complain : Bool → List Err
complain problem = if problem then wrap Context.detail (sentinel invalid_binding) ∷ [] else []

-- The errors that `Validate` collects.
unfoldable pub complaints : {K V : Type 0} → Binding K V → List Err
complaints b =
    complain (is_blank b.name)
    ++ (complain (is_blank b.topic)
        ++ (complain (not (is_some b.decode_key))
            ++ (complain (not (is_some b.decode_value))
                ++ complain (b.verify_key_agreement && not (is_some b.key_from_value)))))

-- `Validate`
unfoldable pub validate : {K V : Type 0} → Binding K V → Option Err
unfolding complaints
validate b = join_errors (map some (complaints b))
