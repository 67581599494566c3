-- ===== src/Store/Concurrent.antt =====
-- store.go: concurrent writers. `Put` and `Delete` change the map in one atomic step and the counter in a
-- later one, and any number of goroutines may stand between the two.
use mathlib.Core.List.{lookup}
use easykafka_config_go.Prelude.{
  ℕ, ◌+◌, ◌-◌, ◌%◌, ◌<◌, ◌≡◌, refl, Option, none, some, length, arith, if◌then◌else◌,
}
use easykafka_config_go.Prelude.Words.{pos, word_mod, sign_mod, decrement}
use easykafka_config_go.Store.{
  Store, new_store, len, swap, load_and_delete, put_entry, add_one, sub_one,
}
use easykafka_config_go.Store.Laws.{
  IsValid, UniqueKeys, UniqueKeys-put_entry, UniqueKeys-remove_entry, length-put_entry,
  length-remove_entry, lookup-put_entry, remove_entry-put_entry, len_of_IsValid,
}

-- The store, and how many goroutines stand before their `size.Add(1)` and `size.Add(-1)`.
pub record Shared {ℓ} (K V : Type ℓ) : Type ℓ where
  pub store : Store K V
  pub adding : ℕ
  pub removing : ℕ

module _ {ℓ} {K V : Type ℓ} (dec : Discrete K) where
  -- the `Swap` of a `Put`, which goes on to the counter if the key was new
  unfoldable pub begin_put : K → Option V → Shared K V → Shared K V
  unfolding swap
  begin_put k v c =
      let (s, there) = swap dec k v c.store in
      record c { store = s; adding = if there then c.adding else c.adding + 1 }

  -- the `LoadAndDelete` of a `Delete`
  unfoldable pub begin_delete : K → Shared K V → Shared K V
  unfolding load_and_delete
  begin_delete k c =
      let (s, there) = load_and_delete dec k c.store in
      record c { store = s; removing = if there then c.removing + 1 else c.removing }

  pub data Step (c : Shared K V) : Shared K V → Type ℓ where
    swapped : (k : K) (v : Option V) → Step c (begin_put k v c)
    deleted : (k : K) → Step c (begin_delete k c)
    added : 0 < c.adding → Step c (record c { store = add_one c.store; adding = c.adding - 1 })
    subtracted :
        0 < c.removing → Step c (record c { store = sub_one c.store; removing = c.removing - 1 })

  pub data Reach : Shared K V → Type ℓ where
    start : Reach (record { store = new_store; adding = 0; removing = 0 })
    later : {c d : Shared K V} → Reach c → Step c d → Reach d

  -- The counter is right but for the updates on their way.
  record Inv (c : Shared K V) : Type ℓ where
    unique : UniqueKeys dec c.store.entries
    balanced :
        (c.store.size + c.adding) % word_mod ≡ (length c.store.entries + c.removing) % word_mod
    word : c.store.size < word_mod

  Step-Inv : {c d : Shared K V} → Step c d → Inv c → Inv d
  unfolding begin_put begin_delete
  Step-Inv {c} (swapped k v) i = record {
    unique = UniqueKeys-put_entry dec k v c.store.entries i.unique;
    balanced = ground (arith, length-put_entry dec k v c.store.entries);
    word = i.word;
  }
  Step-Inv {c} (deleted k) i = record {
    unique = UniqueKeys-remove_entry dec k c.store.entries i.unique;
    balanced = ground (arith, length-remove_entry dec k c.store.entries);
    word = i.word;
  }
  Step-Inv (added h) i = record { unique = i.unique; balanced = omega arith; word = omega arith }
  Step-Inv (subtracted h) i = record {
    unique = i.unique;
    balanced = omega arith;
    word = omega arith;
  }

  Reach-Inv : {c : Shared K V} → Reach c → Inv c
  unfolding new_store
  Reach-Inv start = record { unique = tt; balanced = refl; word = omega arith }
  Reach-Inv (later r s) = Step-Inv s (Reach-Inv r)

  -- However the steps of concurrent `Put` and `Delete` calls interleave on a new store, once no
  -- call is under way the map holds no key twice and `Len` is the number of its entries, as long
  -- as that is below 2 ^ 63.
  pub Reach-len :
      {c : Shared K V}
      → Reach c
      → c.adding ≡ 0
      → c.removing ≡ 0
      → length c.store.entries < sign_mod
      → IsValid dec c.store × (len c.store ≡ pos (length c.store.entries))
  Reach-len {c} r none_adding none_removing small =
      let i = Reach-Inv r in
      let v : IsValid dec c.store = record { unique = i.unique; counted = omega arith } in
      (v, len_of_IsValid dec c.store v small)

  -- While calls are under way `Len` can be off. From any reachable state in which no call is under
  -- way and a key is absent, take the first step of a `Put` of the key and then both steps of a
  -- `Delete` of it: the `Delete` is over, the `Put` still stands before its update of the counter,
  -- the entries are those from before, and the counter is one lower than before, so one below the
  -- number of entries, modulo 2 ^ 64.
  pub overtaking_delete :
      {c : Shared K V} (k : K) (v : Option V)
      → Reach c
      → c.adding ≡ 0
      → c.removing ≡ 0
      → lookup dec k c.store.entries ≡ none
      → let begun = begin_put k v c in
        let dropped = begin_delete k begun in
        let over : Shared K V = record dropped {
          store = sub_one dropped.store;
          removing = dropped.removing - 1;
        } in
        Step c begun
        × Step begun dropped
        × Step dropped over
        × (over.adding ≡ 1)
        × (over.removing ≡ 0)
        × (over.store.entries ≡ c.store.entries)
        × (over.store.size ≡ decrement c.store.size)
        × ((over.store.size + 1) % word_mod ≡ length over.store.entries % word_mod)
  unfolding begin_put begin_delete
  overtaking_delete {c} k v r none_adding none_removing absent =
      let i = Reach-Inv r in
      let entries = c.store.entries in
      let found : lookup dec k (put_entry dec k v entries) ≡ some v =
        rw (lookup-put_entry dec k k v entries) (ground arith) in
      let same = remove_entry-put_entry dec k v entries absent in
      (
        swapped k v,
        deleted k,
        subtracted (ground (arith, found)),
        ground (arith, found),
        ground (arith, found),
        ground (arith, found, same),
        ground (arith, found),
        ground (arith, found, same, i.balanced),
      )
