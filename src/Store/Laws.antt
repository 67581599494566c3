-- ===== src/Store/Laws.antt =====
-- store.go: one write, a read after it, and the size.
use mathlib.Core.List.{lookup}
use easykafka_config_go.Prelude.{
  ◌+◌, ◌%◌, ◌<◌, ◌≡◌, refl, ◌≢◌, true, false, Option, none, some, List, [], ◌∷◌, ite, length, arith,
}
use easykafka_config_go.Prelude.Words.{pos, word_mod, sign_mod}
use easykafka_config_go.Store.{
  Store, new_store, len, put_entry, remove_entry, loaded, get, put, delete,
}

-- no key stands twice
abbrev pub UniqueKeys {ℓ} : {K V : Type ℓ} → Discrete K → List (K × V) → Type ℓ
UniqueKeys dec [] = Unit
UniqueKeys dec (e ∷ l) = (lookup dec e.0 l ≡ none) × UniqueKeys dec l

-- The entries are a map, and the counter holds their number as an int64 does.
pub record IsValid {ℓ} {K V : Type ℓ} (dec : Discrete K) (s : Store K V) : Type ℓ where
  pub unique : UniqueKeys dec s.entries
  pub counted : s.size ≡ length s.entries % word_mod

module _ {ℓ} {K V : Type ℓ} (dec : Discrete K) where
  pub lookup-put_entry :
      (k q : K) (v : Option V) (l : List (K × Option V))
      → lookup dec q (put_entry dec k v l) ≡ ite (dec q k) (some v) (lookup dec q l)
  unfolding lookup put_entry
  lookup-put_entry k q v [] = refl
  lookup-put_entry k q v ((j, w) ∷ l) = ground (arith, lookup-put_entry k q v l)

  pub UniqueKeys-put_entry :
      (k : K) (v : Option V) (l : List (K × Option V))
      → UniqueKeys dec l
      → UniqueKeys dec (put_entry dec k v l)
  unfolding lookup put_entry
  UniqueKeys-put_entry k v [] u = (refl, tt)
  UniqueKeys-put_entry k v ((j, w) ∷ l) u =
      ground (arith, lookup-put_entry k j v l, UniqueKeys-put_entry k v l)

  pub lookup-remove_entry_ne :
      (k q : K) (l : List (K × Option V))
      → q ≢ k
      → lookup dec q (remove_entry dec k l) ≡ lookup dec q l
  unfolding lookup remove_entry
  lookup-remove_entry_ne k q [] h = refl
  lookup-remove_entry_ne k q ((j, w) ∷ l) h = ground (arith, lookup-remove_entry_ne k q l)

  pub lookup-remove_entry_self :
      (k : K) (l : List (K × Option V))
      → UniqueKeys dec l
      → lookup dec k (remove_entry dec k l) ≡ none
  unfolding lookup remove_entry
  lookup-remove_entry_self k [] u = refl
  lookup-remove_entry_self k ((j, w) ∷ l) u = ground (arith, lookup-remove_entry_self k l)

  pub remove_entry-put_entry :
      (k : K) (v : Option V) (l : List (K × Option V))
      → lookup dec k l ≡ none
      → remove_entry dec k (put_entry dec k v l) ≡ l
  unfolding lookup put_entry remove_entry
  remove_entry-put_entry k v [] h = ground arith
  remove_entry-put_entry k v ((j, w) ∷ l) h = ground (arith, remove_entry-put_entry k v l)

  pub UniqueKeys-remove_entry :
      (k : K) (l : List (K × Option V)) → UniqueKeys dec l → UniqueKeys dec (remove_entry dec k l)
  unfolding lookup remove_entry
  UniqueKeys-remove_entry k [] u = tt
  UniqueKeys-remove_entry k ((j, w) ∷ l) u =
      ground (arith, lookup-remove_entry_ne k j l, UniqueKeys-remove_entry k l)

  pub length-put_entry :
      (k : K) (v : Option V) (l : List (K × Option V))
      → length (put_entry dec k v l)
        ≡ elim (loaded dec k l) [ true ↦ length l | false ↦ length l + 1 ]
  unfolding lookup put_entry
  length-put_entry k v [] = refl
  length-put_entry k v ((j, w) ∷ l) = ground (arith, length-put_entry k v l)

  pub length-remove_entry :
      (k : K) (l : List (K × Option V))
      → length (remove_entry dec k l) + elim (loaded dec k l) [ true ↦ 1 | false ↦ 0 ] ≡ length l
  unfolding lookup remove_entry
  length-remove_entry k [] = refl
  length-remove_entry k ((j, w) ∷ l) = ground (arith, length-remove_entry k l)

  pub new_store-IsValid : IsValid dec (new_store {K = K} {V = V})
  unfolding new_store
  new_store-IsValid = record { unique = tt; counted = refl }

  pub entries-put :
      (k : K) (v : Option V) (s : Store K V) → (put dec k v s).entries ≡ put_entry dec k v s.entries
  unfolding put
  entries-put k v s = ground arith

  pub entries-delete :
      (k : K) (s : Store K V) → (delete dec k s).entries ≡ remove_entry dec k s.entries
  unfolding delete
  entries-delete k s = ground arith

  pub put-IsValid :
      (k : K) (v : Option V) (s : Store K V) → IsValid dec s → IsValid dec (put dec k v s)
  unfolding put
  put-IsValid k v s h = record {
    unique = rw (entries-put k v s) (UniqueKeys-put_entry k v s.entries h.unique);
    counted = ground (arith, length-put_entry k v s.entries);
  }

  pub delete-IsValid : (k : K) (s : Store K V) → IsValid dec s → IsValid dec (delete dec k s)
  unfolding delete
  delete-IsValid k s h = record {
    unique = rw (entries-delete k s) (UniqueKeys-remove_entry k s.entries h.unique);
    counted = ground (arith, length-remove_entry k s.entries);
  }

  pub get-put :
      (k q : K) (v : Option V) (s : Store K V)
      → get dec q (put dec k v s) ≡ ite (dec q k) (v, true) (get dec q s)
  unfolding get put
  get-put k q v s = ground (arith, lookup-put_entry k q v s.entries)

  pub get-delete :
      (k q : K) (s : Store K V)
      → IsValid dec s
      → get dec q (delete dec k s) ≡ ite (dec q k) (none, false) (get dec q s)
  unfolding get delete
  get-delete k q s h =
      ground (arith, lookup-remove_entry_ne k q s.entries, lookup-remove_entry_self k s.entries)

-- The counter reads as the number of entries.
pub len_of_IsValid {ℓ} :
    {K V : Type ℓ} (dec : Discrete K) (s : Store K V)
    → IsValid dec s
    → length s.entries < sign_mod
    → len s ≡ pos (length s.entries)
unfolding len
len_of_IsValid dec s h small = ground arith
