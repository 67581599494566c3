-- ===== src/Codec/Decimal.antt =====
-- codec.go: Int64Key and IntKey on numbers in decimal notation.
use easykafka_config_go.Prelude.{
  ℕ, zero, suc, ◌+◌, ◌*◌, ◌/◌, ◌%◌, ◌<◌, ◌≡◌, ◌≢◌, refl, ap, ◌∙◌, true, some, [], ◌∷◌, leb, ltb,
  if◌then◌else◌, arith, Bool-cases, inl, inr,
}
use easykafka_config_go.Prelude.Words.{ℤ, pos, negsuc, sign_mod}
use easykafka_config_go.Errors.{Bytes, ok}
use easykafka_config_go.Codec.{int_key, int64_key}
use easykafka_config_go.Codec.Numbers.{value, all_digits, negative, in_range, int64_key-value}

-- the digit of a number below ten
abbrev digit : ℕ → ℕ
digit n = n + b'0'

-- The decimal digits of a number, before the digits that stand already; the fuel is above it.
unfoldable pub digits_from : ℕ → ℕ → Bytes → Bytes
digits_from zero n bs = bs
digits_from (suc fuel) n bs =
    let more = digits_from fuel (n / 10) (digit (n % 10) ∷ bs) in
    if ltb n 10 then digit n ∷ bs else more

-- `strconv.FormatInt(n, 10)` of a number that is not negative
unfoldable pub digits : ℕ → Bytes
unfolding digits_from
digits n = digits_from (suc n) n []

-- `strconv.FormatInt(n, 10)`, and `fmt.Sprint(n)`
unfoldable pub format_int : ℤ → Bytes
unfolding digits
format_int (pos n) = digits n
format_int (negsuc n) = b'-' ∷ digits (n + 1)

-- the integers of an int64
abbrev pub IsInt64 : ℤ → Type 0
IsInt64 (pos n) = n < sign_mod
IsInt64 (negsuc n) = n < sign_mod

value-digit : (m n k : ℕ) (bs : Bytes) → m * 10 + n ≡ k → value m (digit n ∷ bs) ≡ value k bs
unfolding value
value-digit m n k bs h = ap (λ l. value l bs) (omega arith)

all_digits-digit :
    (n : ℕ) (bs : Bytes) → n < 10 → all_digits bs ≡ true → all_digits (digit n ∷ bs) ≡ true
all_digits-digit n bs h d = ground arith

-- The digits of a number, read after zero, write what the number and the digits after it write.
value-digits_from :
    (fuel n : ℕ) (bs : Bytes)
    → n < fuel
    → all_digits bs ≡ true
    → (value 0 (digits_from fuel n bs) ≡ value n bs) × (all_digits (digits_from fuel n bs) ≡ true)
unfolding digits_from
value-digits_from zero n bs h d = absurd (omega arith)
value-digits_from (suc fuel) n bs h d = elim (Bool-cases (ltb n 10)) [
  | inl small ↦
      rw small (value-digit 0 n n bs (omega arith), all_digits-digit n bs (ground arith) d)
  | inr big ↦
      let (same, proper) =
        value-digits_from fuel (n / 10) (digit (n % 10) ∷ bs) (ground arith)
          (all_digits-digit (n % 10) bs (omega arith) d) in
      rw big (same ∙ value-digit (n / 10) (n % 10) n bs (omega arith), proper)
]

digits_from-ne-nil : (fuel n c : ℕ) (bs : Bytes) → digits_from fuel n (c ∷ bs) ≢ []
unfolding digits_from
digits_from-ne-nil zero n c bs h = cc
digits_from-ne-nil (suc fuel) n c bs h =
    ground (arith, digits_from-ne-nil fuel (n / 10) (digit (n % 10)) (c ∷ bs))

digits-ne-nil : (n : ℕ) → digits n ≢ []
unfolding digits
digits-ne-nil n h = ground (arith, digits_from-ne-nil n (n / 10) (digit (n % 10)) [])

value-digits : (n : ℕ) → (value 0 (digits n) ≡ n) × (all_digits (digits n) ≡ true)
unfolding digits value
value-digits n =
    let (same, proper) = value-digits_from (suc n) n [] (omega arith) refl in (same, proper)

-- What the keys make of digits that write the number.
read_digits :
    (n : ℕ) (bs : Bytes)
    → bs ≢ []
    → value 0 bs ≡ n
    → all_digits bs ≡ true
    → (int64_key (some bs) ≡ in_range (ltb n sign_mod) (pos n))
      × (int64_key (some (b'-' ∷ bs)) ≡ in_range (leb n sign_mod) (negative n))
      × (int_key (some bs) ≡ int64_key (some bs))
      × (int_key (some (b'-' ∷ bs)) ≡ int64_key (some (b'-' ∷ bs)))
read_digits n [] ne v d = absurd (ne refl)
read_digits n (c ∷ bs) ne v d = rw (← v) (int64_key-value c bs d)

read_own_digits :
    (n : ℕ)
    → (int64_key (some (digits n)) ≡ in_range (ltb n sign_mod) (pos n))
      × (int64_key (some (b'-' ∷ digits n)) ≡ in_range (leb n sign_mod) (negative n))
      × (int_key (some (digits n)) ≡ int64_key (some (digits n)))
      × (int_key (some (b'-' ∷ digits n)) ≡ int64_key (some (b'-' ∷ digits n)))
read_own_digits n = read_digits n (digits n) (digits-ne-nil n) (value-digits n).0 (value-digits n).1

negative_add_one : (n : ℕ) → negative (n + 1) ≡ negsuc n
negative_add_one n = ground arith

-- Int64Key reads back what the decimal notation of any int64 writes, and so does IntKey.
pub int64_key-format_int :
    (n : ℤ)
    → IsInt64 n
    → (int64_key (some (format_int n)) ≡ ok n) × (int_key (some (format_int n)) ≡ ok n)
unfolding format_int
int64_key-format_int (pos n) h =
    let (read, _, same, _) = read_own_digits n in
    let fits : ltb n sign_mod ≡ true = ground arith in
    let e : int64_key (some (digits n)) ≡ ok (pos n) = read ∙ ap (λ b. in_range b (pos n)) fits in
    (e, same ∙ e)
int64_key-format_int (negsuc n) h =
    let (_, read, _, same) = read_own_digits (n + 1) in
    let fits : leb (n + 1) sign_mod ≡ true = ground arith in
    let e : int64_key (some (b'-' ∷ digits (n + 1))) ≡ ok (negsuc n) =
      read ∙ ap (λ b. in_range b (negative (n + 1))) fits ∙ ap ok (negative_add_one n) in
    (e, same ∙ e)
