-- ===== src/Prelude/Family.antt =====
-- Families indexed by numbers, one member for each goroutine: an update of one member, and sums.
use Prim.Native.Nat.{ℕ, zero, suc, ◌+◌, ◌*◌, ◌≤◌, ◌<◌}
use mathlib.Core.Path.{◌≡◌, refl, subst}
use mathlib.Core.Logic.{◌≢◌, ite, if_pos, if_neg}
use native.Mathlib.Decide.{dec_lt, ℕ_discrete}
use native.Mathlib.Omega.{arith}

abbrev pub update {ℓ} : {A : Type ℓ} → (ℕ → A) → ℕ → A → ℕ → A
update members i a j = ite (ℕ_discrete i j) a (members j)

-- A property of every member is kept by an update with a member that has it.
pub update-all {ℓ κ} :
    {A : Type ℓ} (P : A → Type κ) (members : ℕ → A) (i : ℕ) (a : A)
    → ((j : ℕ) → P (members j))
    → P a
    → (j : ℕ) → P (update members i a j)
update-all P members i a all new j = elim (ℕ_discrete i j) [
  | yes e ↦ rw (if_pos _ e) new
  | no ne ↦ rw (if_neg _ ne) (all j)
]

-- A property of a member and its index, for all members after an update.
pub update-each {ℓ κ} :
    {A : Type ℓ} (P : ℕ → A → Type κ) (members : ℕ → A) (i : ℕ) (a : A)
    → ((j : ℕ) → i ≢ j → P j (members j))
    → P i a
    → (j : ℕ) → P j (update members i a j)
update-each P members i a others new j = elim (ℕ_discrete i j) [
  | yes e ↦ rw (if_pos _ e) (subst (λ k. P k a) e new)
  | no ne ↦ rw (if_neg _ ne) (others j ne)
]

update_same {ℓ} : {A : Type ℓ} (members : ℕ → A) (i : ℕ) (a : A) → update members i a i ≡ a
update_same members i a = rw (if_pos _ refl) refl

update_other {ℓ} :
    {A : Type ℓ} (members : ℕ → A) (i : ℕ) (a : A) {j : ℕ}
    → i ≢ j
    → update members i a j ≡ members j
update_other members i a ne = rw (if_neg _ ne) refl

-- The same for two families updated at once.
pub updates-each {ℓ κ} :
    {A B : Type ℓ} (P : ℕ → A → B → Type κ) (ms : ℕ → A) (ns : ℕ → B) (i : ℕ) (a : A) (b : B)
    → ((j : ℕ) → P j (ms j) (ns j))
    → P i a b
    → (j : ℕ) → P j (update ms i a j) (update ns i b j)
updates-each P ms ns i a b others new j = elim (ℕ_discrete i j) [
  | yes e ↦
      subst (λ k. P k (update ms i a k) (update ns i b k)) e
        (rw (update_same ms i a, update_same ns i b) new)
  | no ne ↦ rw (update_other ms i a ne, update_other ns i b ne) (others j)
]

-- The same for three families updated at once.
pub updates-each_three {ℓ κ} :
    {A B C : Type ℓ} (P : ℕ → A → B → C → Type κ) (ms : ℕ → A) (ns : ℕ → B) (os : ℕ → C) (i : ℕ)
    (a : A) (b : B) (c : C)
    → ((j : ℕ) → P j (ms j) (ns j) (os j))
    → P i a b c
    → (j : ℕ) → P j (update ms i a j) (update ns i b j) (update os i c j)
updates-each_three P ms ns os i a b c others new j = elim (ℕ_discrete i j) [
  | yes e ↦
      subst (λ k. P k (update ms i a k) (update ns i b k) (update os i c k)) e
        (rw (update_same ms i a, update_same ns i b, update_same os i c) new)
  | no ne ↦ rw (update_other ms i a ne, update_other ns i b ne, update_other os i c ne) (others j)
]

module _ {ℓ} {A : Type ℓ} (weight : A → ℕ) where
  -- the sum over the first `n` members
  unfoldable pub sum : ℕ → (ℕ → A) → ℕ
  sum zero members = 0
  sum (suc n) members = sum n members + weight (members n)

  sum-update_above :
      (n : ℕ) (members : ℕ → A) (i : ℕ) (a : A) → n ≤ i → sum n (update members i a) ≡ sum n members
  unfolding sum
  sum-update_above zero members i a h = refl
  sum-update_above (suc n) members i a h = ground (arith, sum-update_above n members i a)

  -- An update changes the sum by the change of its member.
  pub sum-update :
      (n : ℕ) (members : ℕ → A) (i : ℕ) (a : A)
      → i < n
      → sum n (update members i a) + weight (members i) ≡ sum n members + weight a
  unfolding sum
  sum-update zero members i a h = absurd (omega arith)
  sum-update (suc n) members i a h = elim (dec_lt i n) [
    | yes below ↦ ground (arith, sum-update n members i a below)
    | no last ↦ ground (arith, sum-update_above n members i a)
  ]

  pub sum-le :
      (bound : ℕ)
      → ((a : A) → weight a ≤ bound)
      → (n : ℕ) (members : ℕ → A) → sum n members ≤ n * bound
  unfolding sum
  sum-le bound each zero members = omega arith
  sum-le bound each (suc n) members = omega (arith, sum-le bound each n members, each (members n))

  pub sum-zero : (n : ℕ) (members : ℕ → A) → ((i : ℕ) → weight (members i) ≡ 0) → sum n members ≡ 0
  unfolding sum
  sum-zero zero members h = refl
  sum-zero (suc n) members h = omega (arith, sum-zero n members h, h n)
