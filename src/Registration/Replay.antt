-- ===== src/Registration/Replay.antt =====
-- registration.go: runs of records through `apply_func`, the writes that they make, and topics that
-- compaction has shortened.
use easykafka_config_go.Prelude.{
  ℕ, ◌≡◌, refl, ◌≢◌, Bool, true, false, Option, none, some, List, [], ◌∷◌, ◌++◌, ite, if◌then◌else◌,
  arith, sym, ap, ◌∙◌,
}
use easykafka_config_go.Errors.{Bytes, Result, ok, err}
use easykafka_config_go.Text.{Slice}
use easykafka_config_go.Driver.Event.{Record}
use easykafka_config_go.Binding.{Binding}
use easykafka_config_go.Store
use easykafka_config_go.Store.{Store, new_store}
use easykafka_config_go.Store.History.{
  Write, target, write, erase, apply_write, run, last_write, get-run,
}
use easykafka_config_go.Registration.{Cell, new_cell, tombstone, final_key, rejected, apply_func}

module _ {K V : Type 0} (dec : Discrete K) (show : K → Bytes) (log_errors : Bool) (b : Binding K V)
    (decode_key : Slice → Result K) (decode_value : Slice → Result (Option V)) where
  -- What one record does to the store, told from the record alone.
  unfoldable pub write_of : Record → Option (Write K V)
  write_of rec = elim (decode_key rec.key) [
    | err e ↦ none
    | ok key ↦
        if tombstone dec show log_errors b decode_key decode_value rec.payload
        then some (erase key)
        else elim (decode_value rec.payload) [
          | err e ↦ none
          | ok value ↦
              let key' = final_key dec show log_errors b decode_key decode_value key value in
              if rejected dec show log_errors b decode_key decode_value key' value
              then none
              else some (write key' value)
        ]
  ]

  -- The store after an optional write.
  abbrev pub perform : Option (Write K V) → Store K V → Store K V
  perform none s = s
  perform (some w) s = apply_write dec w s

  -- The records in order, each with the time at which it is applied.
  unfoldable pub replay : List (Record × ℕ) → Cell (Store K V) → Cell (Store K V)
  replay [] c = c
  replay ((rec, now) ∷ rs) c =
      replay rs (apply_func dec show log_errors b decode_key decode_value rec now c)

  -- the writes of the records, in order
  unfoldable pub writes : List (Record × ℕ) → List (Write K V)
  writes [] = []
  writes ((rec, now) ∷ rs) = elim (write_of rec) [ none ↦ writes rs | some w ↦ w ∷ writes rs ]

  pub writes-append : (xs ys : List (Record × ℕ)) → writes (xs ++ ys) ≡ writes xs ++ writes ys
  unfolding writes
  writes-append [] ys = refl
  writes-append ((rec, now) ∷ xs) ys = ground (arith, writes-append xs ys)

  pub store-apply_func :
      (rec : Record) (now : ℕ) (c : Cell (Store K V))
      → (apply_func dec show log_errors b decode_key decode_value rec now c).store
        ≡ perform (write_of rec) c.store
  unfolding apply_func write_of
  store-apply_func rec now c = ground arith

  pub store-replay :
      (rs : List (Record × ℕ)) (c : Cell (Store K V))
      → (replay rs c).store ≡ run dec (writes rs) c.store
  unfolding replay writes run
  store-replay [] c = refl
  store-replay ((rec, now) ∷ rs) c = ground (
    arith,
    store-replay rs (apply_func dec show log_errors b decode_key decode_value rec now c),
    store-apply_func rec now c,
  )

  -- However many records are applied to a new store, for every key `Get` finds what the last
  -- effective record of the key left: a record is effective if its key decodes and it is a
  -- tombstone, or if its payload decodes too and the filter keeps it, and then its key is that of
  -- KeyFromValue where that is set.
  pub get-replay :
      (rs : List (Record × ℕ)) (q : K)
      → Store.get dec q (replay rs (new_cell new_store)).store
        ≡ last_write dec q (writes rs) (none, false)
  get-replay rs q = rw (store-replay rs (new_cell new_store)) ((get-run dec (writes rs) q).0)

  -- A later record among `rs` writes or erases the key.
  pub data Overwritten (k : K) : List (Record × ℕ) → Type 0 where
    here :
        {r : Record × ℕ} {rs : List (Record × ℕ)} (w : Write K V)
        → write_of r.0 ≡ some w
        → target w ≡ k
        → Overwritten k (r ∷ rs)
    there : {r : Record × ℕ} {rs : List (Record × ℕ)} → Overwritten k rs → Overwritten k (r ∷ rs)

  -- `ss` is `rs` without some records that had no effect or were superseded later in `rs`, as
  -- compaction may leave it.
  pub data Compacted : List (Record × ℕ) → List (Record × ℕ) → Type 0 where
    finish : Compacted [] []
    keep :
        (r : Record × ℕ) {rs ss : List (Record × ℕ)} → Compacted rs ss → Compacted (r ∷ rs) (r ∷ ss)
    drop_idle :
        (r : Record × ℕ) {rs ss : List (Record × ℕ)}
        → write_of r.0 ≡ none
        → Compacted rs ss
        → Compacted (r ∷ rs) ss
    drop_superseded :
        (r : Record × ℕ) {rs ss : List (Record × ℕ)} (w : Write K V)
        → write_of r.0 ≡ some w
        → Overwritten (target w) rs
        → Compacted rs ss
        → Compacted (r ∷ rs) ss

  -- What one write leaves under a key.
  abbrev pub after : K → Option (Write K V) → Option V × Bool → Option V × Bool
  after q none found = found
  after q (some (write k v)) found = ite (dec q k) (v, true) found
  after q (some (erase k)) found = ite (dec q k) (none, false) found

  pub last_write-writes :
      (q : K) (r : Record × ℕ) (rs : List (Record × ℕ)) (found : Option V × Bool)
      → last_write dec q (writes (r ∷ rs)) found
        ≡ last_write dec q (writes rs) (after q (write_of r.0) found)
  unfolding writes last_write
  last_write-writes q (rec, now) rs found = ground arith

  after-target :
      (q : K) (w : Write K V) (found found' : Option V × Bool)
      → target w ≡ q
      → after q (some w) found ≡ after q (some w) found'
  after-target q (write k v) found found' same = ground arith
  after-target q (erase k) found found' same = ground arith

  pub after-other :
      (q : K) (w : Write K V) (found : Option V × Bool)
      → q ≢ target w
      → after q (some w) found ≡ found
  after-other q (write k v) found other = ground arith
  after-other q (erase k) found other = ground arith

  -- What a key held before does not matter once the key is overwritten.
  Overwritten-last_write :
      (q : K) {rs : List (Record × ℕ)}
      → Overwritten q rs
      → (found found' : Option V × Bool)
      → last_write dec q (writes rs) found ≡ last_write dec q (writes rs) found'
  Overwritten-last_write q (here {r} {rs} w e t) found found' =
      left_by_here found
      ∙ ap (last_write dec q (writes rs)) (after-target q w found found' t)
      ∙ sym (left_by_here found')
    where
      left_by_here :
          (before : Option V × Bool)
          → last_write dec q (writes (r ∷ rs)) before
            ≡ last_write dec q (writes rs) (after q (some w) before)
      left_by_here before =
          last_write-writes q r rs before
          ∙ ap (λ o. last_write dec q (writes rs) (after q o before)) e
  Overwritten-last_write q (there {r} {rs} o) found found' =
      last_write-writes q r rs found
      ∙ Overwritten-last_write q o _ _
      ∙ sym (last_write-writes q r rs found')

  -- A write to a key that is overwritten later changes nothing in the end.
  superseded :
      (q : K) (w : Write K V) {rs : List (Record × ℕ)}
      → Overwritten (target w) rs
      → (found : Option V × Bool)
      → last_write dec q (writes rs) (after q (some w) found) ≡ last_write dec q (writes rs) found
  superseded q w {rs} o found = elim (dec q (target w)) [
    | yes same ↦ Overwritten-last_write q (rw same o) _ found
    | no other ↦ ap (last_write dec q (writes rs)) (after-other q w found other)
  ]

  Compacted-last_write :
      (q : K) {rs ss : List (Record × ℕ)}
      → Compacted rs ss
      → (found : Option V × Bool)
      → last_write dec q (writes rs) found ≡ last_write dec q (writes ss) found
  Compacted-last_write q finish found = refl
  Compacted-last_write q (keep r {rs} {ss} c) found =
      last_write-writes q r rs found
      ∙ Compacted-last_write q c _
      ∙ sym (last_write-writes q r ss found)
  Compacted-last_write q (drop_idle r {rs} idle c) found =
      last_write-writes q r rs found
      ∙ ap (λ o. last_write dec q (writes rs) (after q o found)) idle
      ∙ Compacted-last_write q c found
  Compacted-last_write q (drop_superseded r {rs} w e o c) found =
      last_write-writes q r rs found
      ∙ ap (λ x. last_write dec q (writes rs) (after q x found)) e
      ∙ superseded q w o found
      ∙ Compacted-last_write q c found

  -- A store built from a compacted topic is the store built from the whole topic: if `ss` is `rs`
  -- without some records that had no effect, or whose key a later record writes or erases, then
  -- after either is applied to a new store `Get` finds the same under every key.
  pub get-Compacted :
      {rs ss : List (Record × ℕ)}
      → Compacted rs ss
      → (q : K)
      → Store.get dec q (replay rs (new_cell new_store)).store
        ≡ Store.get dec q (replay ss (new_cell new_store)).store
  get-Compacted {rs} {ss} c q =
      get-replay rs q ∙ Compacted-last_write q c (none, false) ∙ sym (get-replay ss q)
