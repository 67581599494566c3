-- ===== src/Codec.antt =====
-- codec.go: the decoders of keys and values, and the tombstone policies.
pub mod Numbers
pub mod Decimal
use easykafka_config_go.Prelude.{
  ℕ, ◌+◌, ◌-◌, ◌*◌, Bool, true, false, ◌&&◌, Option, none, some, [], ◌∷◌, leb, ltb, ◌==◌,
  if◌then◌else◌,
}
use easykafka_config_go.Prelude.Words.{ℤ, pos, negsuc, word_mod, sign_mod}
use easykafka_config_go.Errors.{
  Bytes, sentinel, wrap, Context, Result, ok, err, invalid_syntax, value_out_of_range,
}
use easykafka_config_go.Text.{Slice, content, is_blank}

-- `StringKey`
unfoldable pub string_key : Slice → Result Bytes
string_key raw = ok (content raw)

-- an ASCII digit
abbrev pub is_digit : ℕ → Bool
is_digit c = leb b'0' c && leb c b'9'

-- The loop of `strconv.ParseUint(s, 10, 64)`; a value that does not fit ends it at once.
unfoldable pub parse_digits : ℕ → Bytes → Result ℕ
parse_digits n [] = ok n
parse_digits n (c ∷ bs) =
    let next = n * 10 + (c - b'0') in
    let rest = parse_digits next bs in
    if is_digit c
    then (if ltb next word_mod then rest else err (sentinel value_out_of_range))
    else err (sentinel invalid_syntax)

-- `strconv.ParseUint(s, 10, 64)`
unfoldable pub parse_uint : Bytes → Result ℕ
unfolding parse_digits
parse_uint [] = err (sentinel invalid_syntax)
parse_uint (c ∷ bs) = parse_digits 0 (c ∷ bs)

-- The int64 with the given magnitude and sign, if there is one.
abbrev pub with_sign : Bool → ℕ → Result ℤ
with_sign false n = if ltb n sign_mod then ok (pos n) else err (sentinel value_out_of_range)
with_sign true n =
    if leb n sign_mod
    then ok (if n == 0 then pos 0 else negsuc (n - 1))
    else err (sentinel value_out_of_range)

abbrev signed_digits : Bool → Bytes → Result ℤ
signed_digits negative bs = elim (parse_uint bs) [ err e ↦ err e | ok n ↦ with_sign negative n ]

-- `strconv.ParseInt(s, 10, 64)`, and `strconv.Atoi(s)` where an int has 64 bits
unfoldable pub parse_int : Bytes → Result ℤ
unfolding parse_uint
parse_int [] = err (sentinel invalid_syntax)
parse_int (c ∷ bs) =
    if c == b'-'
    then signed_digits true bs
    else (if c == b'+' then signed_digits false bs else signed_digits false (c ∷ bs))

-- `IntKey` and `Int64Key`: the number, or an error that wraps the parser's.
unfoldable pub int64_key : Slice → Result ℤ
unfolding parse_int
int64_key raw = elim (parse_int (content raw)) [ err e ↦ err (wrap Context.detail e) | ok n ↦ ok n ]

-- `IntKey`
unfoldable pub int_key : Slice → Result ℤ
unfolding parse_int
int_key raw = elim (parse_int (content raw)) [ err e ↦ err (wrap Context.detail e) | ok n ↦ ok n ]

-- `JSONValue`: `unmarshal` is `json.Unmarshal` into a new V, which it returns filled in.
unfoldable pub json_value {ℓ} : {V : Type ℓ} → (Bytes → Result V) → Slice → Result (Option V)
json_value unmarshal raw = elim (unmarshal (content raw)) [
  | err e ↦ err (wrap Context.detail e)
  | ok v ↦ ok (some v)
]

-- `TombstonePolicy`
abbrev pub TombstonePolicy : Type 0
TombstonePolicy = Slice → Bool

-- `TombstoneOnBlankPayload`
unfoldable pub tombstone_on_blank_payload : TombstonePolicy
tombstone_on_blank_payload raw = is_blank (content raw)

-- `TombstoneOnNilPayload`
unfoldable pub tombstone_on_nil_payload : TombstonePolicy
tombstone_on_nil_payload none = true
tombstone_on_nil_payload (some bs) = false

-- `TombstoneNever`
unfoldable pub tombstone_never : TombstonePolicy
tombstone_never raw = false
