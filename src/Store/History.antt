-- ===== src/Store/History.antt =====
-- store.go: sequences of writes, against the last write to each key.
use mathlib.Core.List.{lookup}
use mathlib.Core.Logic.{if_pos, if_neg}
use easykafka_config_go.Prelude.{
  ◌<◌, ◌≡◌, refl, Bool, true, false, Option, none, List, [], ◌∷◌, ◌++◌, ite, length, arith, ap, ◌∙◌,
  ◌⊎◌, inl, inr, any, ◌≢◌,
}
use easykafka_config_go.Prelude.Words.{pos, sign_mod}
use easykafka_config_go.Store.{Store, new_store, len, get, get_or_nil, has, put, delete}
use easykafka_config_go.Store.Laws.{
  IsValid, new_store-IsValid, put-IsValid, delete-IsValid, get-put, get-delete, len_of_IsValid,
}

-- A call that writes.
pub data Write {ℓ} (K V : Type ℓ) : Type ℓ where
  write : K → Option V → Write K V
  erase : K → Write K V

-- the key that a write is about
abbrev pub target {ℓ} : {K V : Type ℓ} → Write K V → K
target (write k v) = k
target (erase k) = k

module _ {ℓ} {K V : Type ℓ} (dec : Discrete K) where
  abbrev pub apply_write : Write K V → Store K V → Store K V
  apply_write (write k v) s = put dec k v s
  apply_write (erase k) s = delete dec k s

  -- The writes in order, the first one first.
  unfoldable pub run : List (Write K V) → Store K V → Store K V
  run [] s = s
  run (w ∷ ws) s = run ws (apply_write w s)

  -- What the writes leave under a key that holds `found` before them.
  unfoldable pub last_write : K → List (Write K V) → Option V × Bool → Option V × Bool
  last_write q [] found = found
  last_write q (write k v ∷ ws) found = last_write q ws (ite (dec q k) (v, true) found)
  last_write q (erase k ∷ ws) found = last_write q ws (ite (dec q k) (none, false) found)

  pub run-append : (ws vs : List (Write K V)) (s : Store K V) → run (ws ++ vs) s ≡ run vs (run ws s)
  unfolding run
  run-append [] vs s = refl
  run-append (w ∷ ws) vs s = run-append ws vs _

  pub run-IsValid : (ws : List (Write K V)) (s : Store K V) → IsValid dec s → IsValid dec (run ws s)
  unfolding run
  run-IsValid [] s h = h
  run-IsValid (write k v ∷ ws) s h = run-IsValid ws _ (put-IsValid dec k v s h)
  run-IsValid (erase k ∷ ws) s h = run-IsValid ws _ (delete-IsValid dec k s h)

  -- whether a write is about the key
  abbrev pub touches : K → Write K V → Bool
  touches q w = ite (dec q (target w)) true false

  last_write-other :
      (q : K) (w : Write K V) (ws : List (Write K V)) (found : Option V × Bool)
      → q ≢ target w
      → last_write q (w ∷ ws) found ≡ last_write q ws found
  unfolding last_write
  last_write-other q (write k v) ws found other = rw (if_neg _ other) refl
  last_write-other q (erase k) ws found other = rw (if_neg _ other) refl

  -- Writes leave what a key holds, unless one of them is about it.
  pub last_write-touches :
      (q : K) (ws : List (Write K V)) (found : Option V × Bool)
      → (last_write q ws found ≡ found) ⊎ (any (touches q) ws ≡ true)
  unfolding last_write
  last_write-touches q [] found = inl refl
  last_write-touches q (w ∷ ws) found = elim (dec q (target w)) [
    | yes same ↦ inr (rw (if_pos _ same) refl)
    | no other ↦ elim (last_write-touches q ws found) [
      | inl kept ↦ inl (last_write-other q w ws found other ∙ kept)
      | inr later ↦ inr (rw (if_neg _ other) later)
    ]
  ]

  pub get-run_from :
      (ws : List (Write K V)) (q : K) (s : Store K V)
      → IsValid dec s
      → get dec q (run ws s) ≡ last_write q ws (get dec q s)
  unfolding run last_write
  get-run_from [] q s h = refl
  get-run_from (write k v ∷ ws) q s h = rw (get-run_from ws q _ (put-IsValid dec k v s h), get-put)
  get-run_from (erase k ∷ ws) q s h =
      rw (get-run_from ws q _ (delete-IsValid dec k s h), get-delete dec k q s h)

  has-get : (q : K) (s : Store K V) → has dec q s ≡ (get dec q s).1
  unfolding has get
  has-get q s = ground arith

  get-new_store : (q : K) → get dec q (new_store {K = K} {V = V}) ≡ (none, false)
  unfolding get new_store lookup
  get-new_store q = refl

  -- After any writes to a new store, for every key: `Get` gives what the last write to it left, a
  -- stored nil pointer told apart from an absent key; `GetOrNil` gives the same pointer, and `Has`
  -- the same presence.
  pub get-run :
      (ws : List (Write K V)) (q : K)
      → (get dec q (run ws new_store) ≡ last_write q ws (none, false))
        × (get_or_nil dec q (run ws new_store) ≡ (last_write q ws (none, false)).0)
        × (has dec q (run ws new_store) ≡ (last_write q ws (none, false)).1)
  unfolding get_or_nil
  get-run ws q =
      let e = get-run_from ws q new_store (new_store-IsValid dec) ∙ ap (last_write q ws) get-new in
      (e, ap (λ r. r.0) e, has-get q _ ∙ ap (λ r. r.1) e)
    where
      get-new : get dec q (new_store {K = K} {V = V}) ≡ (none, false)
      get-new = get-new_store q

  -- After any writes to a new store no key stands twice in it, and `Len` is the number of its
  -- entries, as long as that is below 2 ^ 63.
  pub len-run :
      (ws : List (Write K V))
      → length (run ws new_store).entries < sign_mod
      → IsValid dec (run ws new_store)
        × (len (run ws new_store) ≡ pos (length (run ws new_store).entries))
  len-run ws small =
      let v = run-IsValid ws new_store (new_store-IsValid dec) in (v, len_of_IsValid dec _ v small)
