-- ===== src/Prelude/Lists.antt =====
-- Lists measured by native numbers, and the predicates on lists that the statements use.
use Prim.Native.Nat.{ℕ, zero, suc, ◌+◌, ◌<◌}
use mathlib.Core.Path.{◌≡◌, refl, ap}
use mathlib.Core.Logic.{◌⊎◌, inl, inr}
use mathlib.Core.Bool.{Bool, true, false, ◌||◌}
use mathlib.Core.List.{List, [], ◌∷◌, ◌++◌, map}
use native.Mathlib.Omega.{arith}

module _ {ℓ} {A : Type ℓ} where
  abbrev pub length : List A → ℕ
  length [] = 0
  length (x ∷ xs) = suc (length xs)

  abbrev pub is_empty : List A → Bool
  is_empty [] = true
  is_empty (x ∷ xs) = false

  abbrev pub any : (A → Bool) → List A → Bool
  any p [] = false
  any p (x ∷ xs) = p x || any p xs

  -- the element at an index, or the first argument past the end
  abbrev pub pick : A → List A → ℕ → A
  pick a [] i = a
  pick a (x ∷ xs) zero = x
  pick a (x ∷ xs) (suc i) = pick a xs i

  pub any-append : (p : A → Bool) (xs ys : List A) → any p xs ≡ true → any p (xs ++ ys) ≡ true
  any-append p [] ys h = absurd (ground arith)
  any-append p (x ∷ xs) ys h = ground (arith, any-append p xs ys)

  pub length-append : (xs ys : List A) → length (xs ++ ys) ≡ length xs + length ys
  length-append [] ys = omega arith
  length-append (x ∷ xs) ys = omega (arith, length-append xs ys)

-- An index is below the length, or the element that stands in past the end is picked.
pub pick-cases {ℓ} :
    {A : Type ℓ} (a : A) (xs : List A) (i : ℕ) → (i < length xs) ⊎ (pick a xs i ≡ a)
pick-cases a [] i = inr refl
pick-cases a (x ∷ xs) zero = inl (omega arith)
pick-cases a (x ∷ xs) (suc i) = elim (pick-cases a xs i) [
  | inl lt ↦ inl (omega (arith, lt))
  | inr past ↦ inr past
]

-- every element of the list satisfies the predicate
abbrev pub All {ℓ κ} : {A : Type ℓ} → (A → Type κ) → List A → Type κ
All P [] = Unit
All P (x ∷ xs) = P x × All P xs

-- What holds of every element, and of the one that stands in past the end, holds of the picked one.
pub All-pick {ℓ κ} :
    {A : Type ℓ} (P : A → Type κ) (a : A) (xs : List A) (i : ℕ) → P a → All P xs → P (pick a xs i)
All-pick P a [] i h all = h
All-pick P a (x ∷ xs) zero h all = all.0
All-pick P a (x ∷ xs) (suc i) h all = All-pick P a xs i h all.1

pub pick-map {ℓ κ} :
    {A : Type ℓ} {B : Type κ} (g : A → B) (a : A) (xs : List A) (i : ℕ)
    → pick (g a) (map g xs) i ≡ g (pick a xs i)
pick-map g a [] i = refl
pick-map g a (x ∷ xs) zero = refl
pick-map g a (x ∷ xs) (suc i) = pick-map g a xs i

pub length-map {ℓ κ} :
    {A : Type ℓ} {B : Type κ} (g : A → B) (xs : List A) → length (map g xs) ≡ length xs
length-map g [] = refl
length-map g (x ∷ xs) = ap suc (length-map g xs)
