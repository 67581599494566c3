-- ===== src/Store/Iterate/Racing.antt =====
-- store.go: All, Keys and Snapshot, while writers run.
use mathlib.Core.List.{lookup}
use easykafka_config_go.Prelude.{
  ◌≡◌, refl, ◌∙◌, ap, Bool, true, false, Option, none, some, List, [], ◌∷◌, ◌++◌, arith, ◌⊎◌, inl,
  inr, any, any-append, if◌then◌else◌,
}
use easykafka_config_go.Store.{Store, get}
use easykafka_config_go.Store.Laws.{UniqueKeys, IsValid}
use easykafka_config_go.Store.History.{
  Write, run, last_write, touches, last_write-touches, get-run_from,
}
use easykafka_config_go.Store.Iterate.{
  all, snapshot, collect, all-true, lookup-collect, UniqueKeys-collect, first_of-none,
}

module _ {ℓ} {K V : Type ℓ} where
  -- the entries that a loop over All does not come to
  abbrev unvisited : (K → Option V → Bool) → List (K × Option V) → List (K × Option V)
  unvisited yield [] = []
  unvisited yield ((k, v) ∷ order) =
      let rest = unvisited yield order in if yield k v then rest else order

  all-unvisited :
      (yield : K → Option V → Bool) (order : List (K × Option V))
      → all yield order ++ unvisited yield order ≡ order
  unfolding all
  all-unvisited yield [] = refl
  all-unvisited yield ((k, v) ∷ order) = ground (arith, all-unvisited yield order)

module _ {ℓ} {K V : Type ℓ} (dec : Discrete K) where
  -- What Range visits while the writes go on: no key twice, and for every key the mapping, or its
  -- absence, at some point between the writes.
  pub record Reflects (s : Store K V) (ws : List (Write K V)) (visited : List (K × Option V))
      : Type ℓ where
    pub once : UniqueKeys dec visited
    pub some_point :
        (q : K)
        → (earlier later : List (Write K V)) × (ws ≡ earlier ++ later)
          × (lookup dec q visited ≡ lookup dec q (run dec earlier s).entries)

  -- `m[key]` of a map with these entries: the pointer, nil if the key is absent, and whether it is
  -- there
  abbrev pub entry : K → List (K × Option V) → Option V × Bool
  entry q m = elim (lookup dec q m) [ none ↦ (none, false) | some v ↦ (v, true) ]

  -- what the key held before the writes, or after some of them
  abbrev pub LeftBy : Store K V → List (Write K V) → K → Option V × Bool → Type ℓ
  LeftBy s ws q found =
      (earlier later : List (Write K V)) × (ws ≡ earlier ++ later)
      × (found ≡ last_write dec q earlier (get dec q s))

  lookup-prefix :
      (q : K) (xs ys : List (K × Option V))
      → (lookup dec q xs ≡ none) ⊎ (lookup dec q xs ≡ lookup dec q (xs ++ ys))
  unfolding lookup
  lookup-prefix q [] ys = inl refl
  lookup-prefix q ((k, v) ∷ xs) ys = ground (arith, lookup-prefix q xs ys)

  UniqueKeys-prefix : (xs ys : List (K × Option V)) → UniqueKeys dec (xs ++ ys) → UniqueKeys dec xs
  UniqueKeys-prefix [] ys u = tt
  UniqueKeys-prefix ((k, v) ∷ xs) ys u = (
    elim (lookup-prefix k xs ys) [ inl fresh ↦ fresh | inr same ↦ same ∙ u.0 ],
    UniqueKeys-prefix xs ys u.1,
  )

  pub entry-Reflects :
      {s : Store K V} {ws : List (Write K V)} {visited : List (K × Option V)} (q : K)
      → IsValid dec s
      → Reflects s ws visited
      → LeftBy s ws q (entry q visited)
  unfolding get
  entry-Reflects {s} q v r =
      let (earlier, later, split, same) = r.some_point q in
      (
        earlier,
        later,
        split,
        ap (λ l. elim l [ none ↦ (none, false) | some v ↦ (v, true) ]) same
            ∙ get-run_from dec earlier q s v,
      )

  lookup-snapshot :
      (q : K) (visited : List (K × Option V))
      → UniqueKeys dec visited
      → lookup dec q (snapshot dec visited) ≡ lookup dec q visited
  unfolding snapshot lookup
  lookup-snapshot q visited u =
      ap (λ es. lookup dec q (collect dec [] es)) (all-true dec visited)
      ∙ lookup-collect dec q visited [] u
      ∙ first_of-none dec (lookup dec q visited)

  abbrev pub entry_of : Option (Option V) → Option V × Bool
  entry_of found = elim found [ none ↦ (none, false) | some v ↦ (v, true) ]

  same_left :
      (s : Store K V) (ws : List (Write K V)) (q : K) {found found' : Option V × Bool}
      → found' ≡ found
      → LeftBy s ws q found
      → LeftBy s ws q found'
  same_left s ws q e (earlier, later, split, left) = (earlier, later, split, e ∙ left)

  untouched :
      (s : Store K V) (ws : List (Write K V)) (q : K) (found : Option V × Bool)
      → LeftBy s ws q found
      → (found ≡ get dec q s) ⊎ (any (touches dec q) ws ≡ true)
  untouched s ws q found (earlier, later, split, left) =
      elim (last_write-touches dec q earlier (get dec q s)) [
        | inl kept ↦ inl (left ∙ kept)
        | inr touched ↦
            inr (ap (any (touches dec q)) split ∙ any-append (touches dec q) earlier later touched)
      ]

  -- Let Range visit a valid store while any writes go on, no key twice and of every key the mapping,
  -- or its absence, at some point between them. Then Snapshot is a map that holds under every key
  -- what the key held before the writes or after some of them, a nil pointer told apart from an
  -- absent key, and what it held before if none of the writes is about it; and a loop over All,
  -- however early it stops, sees no key twice, and of every key nothing or what it held at such a
  -- point.
  pub snapshot-Reflects :
      (s : Store K V) (ws : List (Write K V)) (visited : List (K × Option V))
      (yield : K → Option V → Bool) (q : K)
      → IsValid dec s
      → Reflects s ws visited
      → UniqueKeys dec (snapshot dec visited)
        × LeftBy s ws q (entry q (snapshot dec visited))
        × ((entry q (snapshot dec visited) ≡ get dec q s) ⊎ (any (touches dec q) ws ≡ true))
        × UniqueKeys dec (all yield visited)
        × ((entry q (all yield visited) ≡ (none, false))
            ⊎ LeftBy s ws q (entry q (all yield visited)))
  unfolding snapshot
  snapshot-Reflects s ws visited yield q v r =
      let left = entry-Reflects q v r in
      let copy_left = same_left s ws q (ap entry_of (lookup-snapshot q visited r.once)) left in
      let prefix = all-unvisited yield visited in
      (
        UniqueKeys-collect dec (all (λ k v. true) visited) [] tt,
        copy_left,
        untouched s ws q (entry q (snapshot dec visited)) copy_left,
        UniqueKeys-prefix (all yield visited) (unvisited yield visited) (rw prefix r.once),
        elim (lookup-prefix q (all yield visited) (unvisited yield visited)) [
          | inl unseen ↦ inl (ap entry_of unseen)
          | inr seen ↦ inr (same_left s ws q (ap entry_of (seen ∙ ap (lookup dec q) prefix)) left)
        ],
      )
