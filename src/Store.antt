-- ===== src/Store.antt =====
-- store.go: the map from keys to values, with its size counter. The `sync.Map` is an association
-- list with its keys distinct; a `*V` is an `Option V`, `none` being the nil pointer.
pub mod Laws
pub mod History
pub mod Concurrent
pub mod Iterate
pub mod View
use mathlib.Core.List.{lookup}
use easykafka_config_go.Prelude.{
  ℕ, Bool, true, false, Option, none, some, List, [], ◌∷◌, ite, is_some, if◌then◌else◌,
}
use easykafka_config_go.Prelude.Words.{ℤ, increment, decrement, signed}

pub record Store {ℓ} (K V : Type ℓ) : Type ℓ where
  pub entries : List (K × Option V)
  pub size : ℕ  -- the bit pattern of the atomic.Int64

-- `NewStore`
unfoldable pub new_store {ℓ} : {K V : Type ℓ} → Store K V
new_store = record { entries = []; size = 0 }

-- `Len`
unfoldable pub len {ℓ} : {K V : Type ℓ} → Store K V → ℤ
len s = signed s.size

-- `size.Add(1)`
abbrev pub add_one {ℓ} : {K V : Type ℓ} → Store K V → Store K V
add_one s = record s { size = increment s.size }

-- `size.Add(-1)`
abbrev pub sub_one {ℓ} : {K V : Type ℓ} → Store K V → Store K V
sub_one s = record s { size = decrement s.size }

module _ {ℓ} {K V : Type ℓ} (dec : Discrete K) where
  -- the map after `Swap(key, value)`
  unfoldable pub put_entry : K → Option V → List (K × Option V) → List (K × Option V)
  put_entry key value [] = (key, value) ∷ []
  put_entry key value ((k, v) ∷ l) =
      ite (dec key k) ((key, value) ∷ l) ((k, v) ∷ put_entry key value l)

  -- the map after `LoadAndDelete(key)`
  unfoldable pub remove_entry : K → List (K × Option V) → List (K × Option V)
  remove_entry key [] = []
  remove_entry key ((k, v) ∷ l) = ite (dec key k) l ((k, v) ∷ remove_entry key l)

  -- the second result of `Load`, `Swap` and `LoadAndDelete`: whether the key was there
  abbrev pub loaded : K → List (K × Option V) → Bool
  loaded key l = is_some (lookup dec key l)

  -- `Get`: the pointer, nil if the key is absent, and whether it was present
  unfoldable pub get : K → Store K V → Option V × Bool
  get key s = elim (lookup dec key s.entries) [ none ↦ (none, false) | some v ↦ (v, true) ]

  -- `GetOrNil`
  unfoldable pub get_or_nil : K → Store K V → Option V
  unfolding get
  get_or_nil key s = (get key s).0

  -- `Has`
  unfoldable pub has : K → Store K V → Bool
  has key s = loaded key s.entries

  -- `Swap(key, value)`: the new map, and whether the key was there
  unfoldable pub swap : K → Option V → Store K V → Store K V × Bool
  unfolding put_entry
  swap key value s = (record s { entries = put_entry key value s.entries }, loaded key s.entries)

  -- `LoadAndDelete(key)`
  unfoldable pub load_and_delete : K → Store K V → Store K V × Bool
  unfolding remove_entry
  load_and_delete key s = (record s { entries = remove_entry key s.entries }, loaded key s.entries)

  -- `Put`
  unfoldable pub put : K → Option V → Store K V → Store K V
  unfolding swap
  put key value s = let (s', there) = swap key value s in if there then s' else add_one s'

  -- `Delete`
  unfoldable pub delete : K → Store K V → Store K V
  unfolding load_and_delete
  delete key s = let (s', there) = load_and_delete key s in if there then sub_one s' else s'
