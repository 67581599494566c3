-- ===== src/Store/Iterate.antt =====
-- store.go: All, Keys and Snapshot, while nothing writes the store. sync.Map leaves open the order in
-- which Range visits the entries.
pub mod Racing
use mathlib.Core.List.{lookup}
use easykafka_config_go.Prelude.{
  ◌≡◌, refl, sym, ◌∙◌, ap, Bool, true, Option, none, some, List, [], ◌∷◌, ◌++◌, ite, arith, map,
  if◌then◌else◌,
}
use easykafka_config_go.Store.{Store, put_entry}
use easykafka_config_go.Store.Laws.{UniqueKeys, IsValid, lookup-put_entry, UniqueKeys-put_entry}

-- The orders in which the entries can be visited: any entry first, then the others.
pub data Order {ℓ} {E : Type ℓ} : List E → List E → Type ℓ where
  done : Order [] []
  visit :
      (xs : List E) (e : E) (ys : List E) {zs : List E}
      → Order (xs ++ ys) zs
      → Order (xs ++ e ∷ ys) (e ∷ zs)

module _ {ℓ} {K V : Type ℓ} where
  -- `All` by a loop that goes on while `yield` answers true: the entries that it is called with
  unfoldable pub all : (K → Option V → Bool) → List (K × Option V) → List (K × Option V)
  all yield [] = []
  all yield ((k, v) ∷ order) =
      let rest = all yield order in (k, v) ∷ (if yield k v then rest else [])

  -- `Keys` by such a loop: the keys that it is called with
  unfoldable pub keys : (K → Bool) → List (K × Option V) → List K
  keys yield [] = []
  keys yield ((k, v) ∷ order) = let rest = keys yield order in k ∷ (if yield k then rest else [])

module _ {ℓ} {K V : Type ℓ} (dec : Discrete K) where
  -- the loop of `maps.Collect`, which assigns each entry to a map
  unfoldable pub collect : List (K × Option V) → List (K × Option V) → List (K × Option V)
  collect m [] = m
  collect m ((k, v) ∷ es) = collect (put_entry dec k v m) es

  -- `Snapshot`, where Range visits the entries in the given order
  unfoldable pub snapshot : List (K × Option V) → List (K × Option V)
  unfolding collect all
  snapshot order = collect [] (all (λ k v. true) order)

  pub all-true : (order : List (K × Option V)) → all (λ k v. true) order ≡ order
  unfolding all
  all-true [] = refl
  all-true ((k, v) ∷ order) = ap (λ l. (k, v) ∷ l) (all-true order)

  lookup-middle :
      (q : K) (xs : List (K × Option V)) (e : K × Option V) (ys : List (K × Option V))
      → UniqueKeys dec (xs ++ e ∷ ys)
      → lookup dec q (xs ++ e ∷ ys) ≡ ite (dec q e.0) (some e.1) (lookup dec q (xs ++ ys))
  unfolding lookup
  lookup-middle q [] (k, v) ys u = ground arith
  lookup-middle q ((j, w) ∷ xs) (k, v) ys u =
      ground (arith, lookup-middle q xs (k, v) ys u.1, lookup-middle j xs (k, v) ys u.1)

  UniqueKeys-middle :
      (xs : List (K × Option V)) (e : K × Option V) (ys : List (K × Option V))
      → UniqueKeys dec (xs ++ e ∷ ys)
      → UniqueKeys dec (xs ++ ys) × (lookup dec e.0 (xs ++ ys) ≡ none)
  unfolding lookup
  UniqueKeys-middle [] (k, v) ys u = (u.1, u.0)
  UniqueKeys-middle ((j, w) ∷ xs) (k, v) ys u =
      ground (arith, UniqueKeys-middle xs (k, v) ys u.1, lookup-middle j xs (k, v) ys u.1)

  -- Any order holds the same map.
  lookup-Order :
      {l zs : List (K × Option V)}
      → Order l zs
      → UniqueKeys dec l
      → UniqueKeys dec zs × ((q : K) → lookup dec q zs ≡ lookup dec q l)
  unfolding lookup
  lookup-Order done u = (tt, λ q. refl)
  lookup-Order (visit xs e ys {zs} o) u =
      let (rest, fresh) = UniqueKeys-middle xs e ys u in
      let (unique, same) = lookup-Order o rest in
      (
        (same e.0 ∙ fresh, unique),
        λ q. ap (λ r. ite (dec q e.0) (some e.1) r) (same q) ∙ sym (lookup-middle q xs e ys u),
      )

  -- the first optional value that is there
  abbrev pub first_of : Option (Option V) → Option (Option V) → Option (Option V)
  first_of none r = r
  first_of (some v) r = some v

  pub lookup-collect :
      (q : K) (es m : List (K × Option V))
      → UniqueKeys dec es
      → lookup dec q (collect m es) ≡ first_of (lookup dec q es) (lookup dec q m)
  unfolding collect lookup
  lookup-collect q [] m u = refl
  lookup-collect q ((k, v) ∷ es) m u =
      ground
        (arith, lookup-collect q es (put_entry dec k v m) u.1, lookup-put_entry dec k q v m, u.0)

  pub UniqueKeys-collect :
      (es m : List (K × Option V)) → UniqueKeys dec m → UniqueKeys dec (collect m es)
  unfolding collect
  UniqueKeys-collect [] m u = u
  UniqueKeys-collect ((k, v) ∷ es) m u =
      UniqueKeys-collect es (put_entry dec k v m) (UniqueKeys-put_entry dec k v m u)

  pub first_of-none : (r : Option (Option V)) → first_of r none ≡ r
  first_of-none none = refl
  first_of-none (some v) = refl

  keys-all :
      (order : List (K × Option V))
      → keys (λ k. true) order ≡ map (λ e. e.0) (all (λ k v. true) order)
  unfolding keys all
  keys-all [] = refl
  keys-all ((k, v) ∷ order) = ap (λ l. k ∷ l) (keys-all order)

  -- Of a valid store that nothing writes in the meantime, in whichever order Range visits the
  -- entries: All visits no key twice, Snapshot is a map with exactly the entries of the store, a nil
  -- pointer told apart from an absent key, and Keys visits the keys that All visits.
  pub snapshot-Order :
      (s : Store K V) {order : List (K × Option V)}
      → IsValid dec s
      → Order s.entries order
      → UniqueKeys dec (all (λ k v. true) order)
        × UniqueKeys dec (snapshot order)
        × ((q : K) → lookup dec q (snapshot order) ≡ lookup dec q s.entries)
        × (keys (λ k. true) order ≡ map (λ e. e.0) (all (λ k v. true) order))
  unfolding snapshot lookup
  snapshot-Order s {order} v o =
      let (unique, same) = lookup-Order o v.unique in
      let visited = all (λ k v. true) order in
      (
        rw (all-true order) unique,
        UniqueKeys-collect visited [] tt,
        λ q.
            ap (λ es. lookup dec q (collect [] es)) (all-true order)
            ∙ lookup-collect q order [] unique
            ∙ first_of-none (lookup dec q order)
            ∙ same q,
        keys-all order,
      )
