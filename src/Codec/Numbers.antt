-- ===== src/Codec/Numbers.antt =====
-- codec.go: Int64Key and IntKey against the numbers that digits write.
use easykafka_config_go.Prelude.{
  ℕ, zero, suc, ◌+◌, ◌-◌, ◌*◌, ◌≤◌, ◌<◌, ◌≡◌, refl, Bool, true, false, not, some, [], ◌∷◌, any, leb,
  ltb, if◌then◌else◌, arith, Bool-cases, inl, inr,
}
use easykafka_config_go.Prelude.Words.{ℤ, pos, negsuc, word_mod, sign_mod}
use easykafka_config_go.Errors.{Bytes, sentinel, wrap, Context, Result, ok, err, value_out_of_range}
use easykafka_config_go.Codec.{is_digit, parse_digits, parse_uint, parse_int, int_key, int64_key}

-- the number that decimal digits write, after digits that write `n`
unfoldable pub value : ℕ → Bytes → ℕ
value n [] = n
value n (c ∷ bs) = value (n * 10 + (c - b'0')) bs

abbrev pub all_digits : Bytes → Bool
all_digits bs = not (any (λ c. not (is_digit c)) bs)

-- the negative of a number
abbrev pub negative : ℕ → ℤ
negative zero = pos 0
negative (suc n) = negsuc n

-- What a key gives if its number is one of an int64, and a range error otherwise.
abbrev pub in_range : Bool → ℤ → Result ℤ
in_range true n = ok n
in_range false n = err (wrap Context.detail (sentinel value_out_of_range))

le_value : (n : ℕ) (bs : Bytes) → n ≤ value n bs
unfolding value
le_value n [] = omega arith
le_value n (c ∷ bs) = omega (arith, le_value (n * 10 + (c - b'0')) bs)

parse_digits-value :
    (n : ℕ) (bs : Bytes)
    → all_digits bs ≡ true
    → n < word_mod
    → parse_digits n bs
      ≡ (if ltb (value n bs) word_mod then ok (value n bs) else err (sentinel value_out_of_range))
unfolding parse_digits value
parse_digits-value n [] h small = ground arith
parse_digits-value n (c ∷ bs) h small =
    let next = n * 10 + (c - b'0') in
    elim (Bool-cases (ltb next word_mod)) [
      | inl fits ↦ ground (arith, fits, parse_digits-value next bs (ground arith) (ground arith))
      | inr over ↦ ground (arith, over, le_value next bs)
    ]

parse_uint-value :
    (c : ℕ) (bs : Bytes)
    → all_digits (c ∷ bs) ≡ true
    → parse_uint (c ∷ bs) ≡ (
        if ltb (value 0 (c ∷ bs)) word_mod
        then ok (value 0 (c ∷ bs))
        else err (sentinel value_out_of_range))
unfolding parse_uint
parse_uint-value c bs h = parse_digits-value 0 (c ∷ bs) h (omega arith)

-- For every non-empty run of decimal digits, Int64Key and IntKey give the number that it writes if
-- that is below 2 ^ 63, and with a minus sign in front its negative if the number is at most 2 ^ 63;
-- otherwise they give an error that wraps strconv.ErrRange. Leading zeros are allowed.
pub int64_key-value :
    (c : ℕ) (bs : Bytes)
    → all_digits (c ∷ bs) ≡ true
    → (int64_key (some (c ∷ bs))
        ≡ in_range (ltb (value 0 (c ∷ bs)) sign_mod) (pos (value 0 (c ∷ bs))))
      × (int64_key (some (b'-' ∷ c ∷ bs))
          ≡ in_range (leb (value 0 (c ∷ bs)) sign_mod) (negative (value 0 (c ∷ bs))))
      × (int_key (some (c ∷ bs)) ≡ int64_key (some (c ∷ bs)))
      × (int_key (some (b'-' ∷ c ∷ bs)) ≡ int64_key (some (b'-' ∷ c ∷ bs)))
unfolding int64_key int_key parse_int
int64_key-value c bs h =
    (ground (arith, parse_uint-value c bs h), ground (arith, parse_uint-value c bs h), refl, refl)
