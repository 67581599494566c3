-- ===== src/Text.antt =====
-- Go strings and byte slices: `strings.TrimSpace` and `bytes.TrimSpace` of the standard library, on
-- bytes in UTF-8, and the difference between a nil slice and an empty one.
use easykafka_config_go.Prelude.{
  ℕ, ◌≡◌, refl, Bool, true, false, ◌&&◌, ◌||◌, arith, Option, none, some, [], ◌∷◌, leb, ◌==◌,
  if◌then◌else◌, is_empty,
}
use Prim.Native.Char.{code}
use Prim.Native.String.{String}
use mathlib.Core.List.{reverse}
use easykafka_config_go.Errors.{Bytes}

-- A `[]byte`: `none` is nil, which has no content but is not the empty slice.
abbrev pub Slice : Type 0
Slice = Option Bytes

-- the bytes of a slice; those of nil are none
abbrev pub content : Slice → Bytes
content none = []
content (some bs) = bs

-- the white space of one byte: tab, newline, vertical tab, form feed, return and space
abbrev space1 : ℕ → Bool
space1 a = (leb 9 a && leb a 13) || a == 32

-- U+0085 and U+00A0
abbrev space2 : ℕ → ℕ → Bool
space2 a b = a == 0xc2 && (b == 0x85 || b == 0xa0)

-- U+1680, U+2000 to U+200A, U+2028, U+2029, U+202F, U+205F and U+3000
abbrev space3 : ℕ → ℕ → ℕ → Bool
space3 a b c =
    (a == 0xe1 && b == 0x9a && c == 0x80)
    || (a == 0xe2
        && b == 0x80
        && ((leb 0x80 c && leb c 0x8a) || c == 0xa8 || c == 0xa9 || c == 0xaf))
    || (a == 0xe2 && b == 0x81 && c == 0x9f)
    || (a == 0xe3 && b == 0x80 && c == 0x80)

-- The bytes after the leading white space.
unfoldable pub trim_left : Bytes → Bytes
trim_left [] = []
trim_left (a ∷ []) = if space1 a then [] else a ∷ []
trim_left (a ∷ b ∷ []) =
    let rest = trim_left (b ∷ []) in
    if space1 a then rest else (if space2 a b then [] else a ∷ b ∷ [])
trim_left (a ∷ b ∷ c ∷ bs) =
    let one = trim_left (b ∷ c ∷ bs) in
    let two = trim_left (c ∷ bs) in
    let three = trim_left bs in
    if space1 a
    then one
    else (if space2 a b then two else (if space3 a b c then three else a ∷ b ∷ c ∷ bs))

-- The same from the other end, on the reversed bytes.
unfoldable pub trim_left_reversed : Bytes → Bytes
trim_left_reversed [] = []
trim_left_reversed (a ∷ []) = if space1 a then [] else a ∷ []
trim_left_reversed (b ∷ a ∷ []) =
    let rest = trim_left_reversed (a ∷ []) in
    if space1 b then rest else (if space2 a b then [] else b ∷ a ∷ [])
trim_left_reversed (c ∷ b ∷ a ∷ bs) =
    let one = trim_left_reversed (b ∷ a ∷ bs) in
    let two = trim_left_reversed (a ∷ bs) in
    let three = trim_left_reversed bs in
    if space1 c
    then one
    else (if space2 b c then two else (if space3 a b c then three else c ∷ b ∷ a ∷ bs))

-- `TrimSpace`
unfoldable pub trim_space : Bytes → Bytes
unfolding trim_left trim_left_reversed
trim_space bs = reverse (trim_left_reversed (reverse (trim_left bs)))

-- `strings.TrimSpace(s) == ""` and `len(bytes.TrimSpace(s)) == 0`
unfoldable pub is_blank : Bytes → Bool
unfolding trim_space
is_blank bs = is_empty (trim_space bs)

-- The bytes of a text literal in ASCII.
abbrev pub bytes : String → Bytes
bytes String.[] = []
bytes (String.◌∷◌ c s) = code c ∷ bytes s

-- `==` on strings
unfoldable pub same_bytes : Bytes → Bytes → Bool
same_bytes [] [] = true
same_bytes (x ∷ xs) (y ∷ ys) = x == y && same_bytes xs ys
same_bytes _ _ = false

pub same_bytes_refl : (a : Bytes) → same_bytes a a ≡ true
unfolding same_bytes
same_bytes_refl [] = refl
same_bytes_refl (x ∷ xs) = ground (arith, same_bytes_refl xs)

pub eq_of_same_bytes : (a b : Bytes) → same_bytes a b ≡ true → a ≡ b
unfolding same_bytes
eq_of_same_bytes [] [] h = refl
eq_of_same_bytes (x ∷ xs) (y ∷ ys) h = ground (arith, eq_of_same_bytes xs ys)
eq_of_same_bytes [] (y ∷ ys) h = cc
eq_of_same_bytes (x ∷ xs) [] h = cc
