-- ===== src/Store/View.antt =====
-- store.go: the store as a map, the order of its entries forgotten.
use mathlib.Core.List.{lookup}
use mathlib.Core.Logic.{if_pos, if_neg}
use mathlib.Core.Option.{none-ne-some}
use mathlib.Core.Quot
use mathlib.Core.Quot.{Quot, Quot-set}
use easykafka_config_go.Prelude.{
  suc, ◌≡◌, refl, sym, ap, ◌∙◌, ◌≢◌, Bool, true, false, Option, none, some, List, [], ◌∷◌, ite,
  length, arith, ◌%◌,
}
use easykafka_config_go.Prelude.Words.{ℤ, signed, word_mod}
use easykafka_config_go.Store.{Store, new_store, len, get, put, delete, remove_entry}
use easykafka_config_go.Store.Laws.{
  IsValid, UniqueKeys, new_store-IsValid, put-IsValid, delete-IsValid, get-put, get-delete,
  length-remove_entry, lookup-remove_entry_ne, lookup-remove_entry_self, UniqueKeys-remove_entry,
}

ℤ_set : IsSet ℤ
ℤ_set = hlevel

module _ {ℓ} {K : Type ℓ} (dec : Discrete K) where
  abbrev pub ValidStore : Type ℓ → Type ℓ
  ValidStore V = (s : Store K V) × IsValid dec s

  -- `Get` finds the same under every key.
  abbrev pub SameContents : {V : Type ℓ} → ValidStore V → ValidStore V → Type ℓ
  SameContents a b = (q : K) → get dec q a.0 ≡ get dec q b.0

  -- A store of which only that is seen.
  abbrev pub View : Type ℓ → Type ℓ
  View V = Quot (SameContents {V = V})

module _ {ℓ} {K V : Type ℓ} (dec : Discrete K) where
  SameContents-put :
      (k : K) (v : Option V) (a b : ValidStore dec V)
      → SameContents dec a b
      → SameContents dec
          (put dec k v a.0, put-IsValid dec k v a.0 a.1)
          (put dec k v b.0, put-IsValid dec k v b.0 b.1)
  SameContents-put k v a b h q =
      get-put dec k q v a.0
      ∙ ap (λ r. ite (dec q k) (v, true) r) (h q)
      ∙ sym (get-put dec k q v b.0)

  SameContents-delete :
      (k : K) (a b : ValidStore dec V)
      → SameContents dec a b
      → SameContents dec
          (delete dec k a.0, delete-IsValid dec k a.0 a.1)
          (delete dec k b.0, delete-IsValid dec k b.0 b.1)
  SameContents-delete k a b h q =
      get-delete dec k q a.0 a.1
      ∙ ap (λ r. ite (dec q k) (none, false) r) (h q)
      ∙ sym (get-delete dec k q b.0 b.1)

  -- The same under every key of two lists of entries.
  abbrev Same : List (K × Option V) → List (K × Option V) → Type ℓ
  Same l m = (q : K) → lookup dec q l ≡ lookup dec q m

  pub lookup_head :
      (k : K) (v : Option V) (l : List (K × Option V)) → lookup dec k ((k, v) ∷ l) ≡ some v
  unfolding lookup
  lookup_head k v l = rw (if_pos _ refl) refl

  lookup_tail :
      (k q : K) (v : Option V) (l : List (K × Option V))
      → q ≢ k
      → lookup dec q ((k, v) ∷ l) ≡ lookup dec q l
  unfolding lookup
  lookup_tail k q v l other = rw (if_neg _ other) refl

  -- without the first entry of one, and the entry of its key in the other
  Same-tail :
      (k : K) (v : Option V) (l m : List (K × Option V))
      → UniqueKeys dec ((k, v) ∷ l)
      → UniqueKeys dec m
      → Same ((k, v) ∷ l) m
      → Same l (remove_entry dec k m)
  Same-tail k v l m u w h q = elim (dec q k) [
    | yes same ↦
        ap (λ j. lookup dec j l) same
        ∙ u.0
        ∙ sym (lookup-remove_entry_self dec k m w)
        ∙ ap (λ j. lookup dec j (remove_entry dec k m)) (sym same)
    | no other ↦
        sym (lookup_tail k q v l other) ∙ h q ∙ sym (lookup-remove_entry_ne dec k q m other)
  ]

  length-remove_loaded :
      (k : K) (v : Option V) (m : List (K × Option V))
      → lookup dec k m ≡ some v
      → suc (length (remove_entry dec k m)) ≡ length m
  length-remove_loaded k v m there = ground (arith, length-remove_entry dec k m)

  Same-length :
      (l m : List (K × Option V))
      → UniqueKeys dec l
      → UniqueKeys dec m
      → Same l m
      → length l ≡ length m
  unfolding lookup
  Same-length [] [] u w h = refl
  Same-length [] ((j, x) ∷ m) u w h = absurd (none-ne-some x (h j ∙ lookup_head j x m))
  Same-length ((k, v) ∷ l) m u w h =
      ap suc (
        Same-length l (remove_entry dec k m) u.1 (UniqueKeys-remove_entry dec k m w)
          (Same-tail k v l m u w h))
      ∙ length-remove_loaded k v m (sym (h k) ∙ lookup_head k v l)

  lookup_of_get :
      (q : K) (s t : Store K V)
      → get dec q s ≡ get dec q t
      → lookup dec q s.entries ≡ lookup dec q t.entries
  unfolding get
  lookup_of_get q s t h = ground arith

  len_same : (a b : ValidStore dec V) → length a.0.entries ≡ length b.0.entries → len a.0 ≡ len b.0
  unfolding len
  len_same a b h = ap signed (a.1.counted ∙ ap (λ n. n % word_mod) h ∙ sym b.1.counted)

  -- Two stores in which `Get` finds the same have the same `Len`.
  SameContents-len : (a b : ValidStore dec V) → SameContents dec a b → len a.0 ≡ len b.0
  SameContents-len a b h = len_same a b (
      Same-length a.0.entries b.0.entries a.1.unique b.1.unique
        (λ q. lookup_of_get q a.0 b.0 (h q)))

  pub empty_view : View dec V
  empty_view = Quot.mk (new_store, new_store-IsValid dec)

  -- `Put`, `Delete`, `Len` and `Get` of such a store
  pub put_view : K → Option V → View dec V → View dec V
  put_view k v =
      Quot.lift Quot-set (λ a. Quot.mk (put dec k v a.0, put-IsValid dec k v a.0 a.1))
        (λ a b h. Quot.sound (SameContents-put k v a b h))

  pub delete_view : K → View dec V → View dec V
  delete_view k =
      Quot.lift Quot-set (λ a. Quot.mk (delete dec k a.0, delete-IsValid dec k a.0 a.1))
        (λ a b h. Quot.sound (SameContents-delete k a b h))

  pub len_view : View dec V → ℤ
  len_view = Quot.lift ℤ_set (λ a. len a.0) SameContents-len

  found_set : IsSet V → IsSet (Option V × Bool)
  found_set h = hlevel

  pub look : IsSet V → K → View dec V → Option V × Bool
  look h q = Quot.lift (found_set h) (λ a. get dec q a.0) (λ a b same. same q)

  pub look-put_view :
      (h : IsSet V) (k q : K) (v : Option V) (x : View dec V)
      → look h q (put_view k v x) ≡ ite (dec q k) (v, true) (look h q x)
  unfolding look put_view
  look-put_view h k q v = Quot.ind (λ x. found_set h _ _) (λ a. get-put dec k q v a.0)

  look-delete_view :
      (h : IsSet V) (k q : K) (x : View dec V)
      → look h q (delete_view k x) ≡ ite (dec q k) (none, false) (look h q x)
  unfolding look delete_view
  look-delete_view h k q = Quot.ind (λ x. found_set h _ _) (λ a. get-delete dec k q a.0 a.1)

  View-ext : (h : IsSet V) (x y : View dec V) → ((q : K) → look h q x ≡ look h q y) → x ≡ y
  unfolding look
  View-ext h =
      Quot.ind (λ x. hlevel (Quot-set))
        (λ a. Quot.ind (λ y. hlevel (Quot-set)) (λ b same. Quot.sound same))

  -- Take the valid stores up to what Get finds in them; Put, Delete, Get and Len are functions on
  -- these. Two of them in which Get finds the same under every key are equal, and so is their Len;
  -- Get after Put or Delete of a key finds the new entry under it and the old one under every other
  -- key; and in a new store it finds nothing.
  pub look-View :
      (h : IsSet V) (k q : K) (v : Option V) (x y : View dec V)
      → ((p : K) → look h p x ≡ look h p y)
      → (x ≡ y)
        × (len_view x ≡ len_view y)
        × (look h q (put_view k v x) ≡ ite (dec q k) (v, true) (look h q y))
        × (look h q (delete_view k x) ≡ ite (dec q k) (none, false) (look h q y))
        × (look h q empty_view ≡ (none, false))
  unfolding look empty_view new_store get lookup
  look-View h k q v x y same =
      let equal = View-ext h x y same in
      (
        equal,
        ap len_view equal,
        look-put_view h k q v x ∙ ap (λ r. ite (dec q k) (v, true) r) (same q),
        look-delete_view h k q x ∙ ap (λ r. ite (dec q k) (none, false) r) (same q),
        refl,
      )
