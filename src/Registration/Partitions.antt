-- ===== src/Registration/Partitions.antt =====
-- registration.go: records of several partitions, interleaved as Kafka happens to deliver them.
use easykafka_config_go.Prelude.{
  ℕ, ◌≡◌, refl, sym, ap, ◌∙◌, Bool, false, Bool-cases, inl, inr, Option, none, some, List, [], ◌∷◌,
  All, map, ◌==◌, if◌then◌else◌, arith,
}
use mathlib.Core.Quot
use easykafka_config_go.Errors.{Bytes, Result}
use easykafka_config_go.Text.{Slice}
use easykafka_config_go.Driver.Event.{Record}
use easykafka_config_go.Binding.{Binding}
use easykafka_config_go.Store.{new_store}
use easykafka_config_go.Store.Laws.{IsValid, new_store-IsValid}
use easykafka_config_go.Store.History.{Write, target, run-IsValid, last_write}
use easykafka_config_go.Store.View.{View}
use easykafka_config_go.Registration.{new_cell}
use easykafka_config_go.Registration.Replay.{
  write_of, writes, replay, store-replay, get-replay, after, last_write-writes, after-other,
}

-- the records of one partition, in order
unfoldable pub of_partition : ℕ → List (Record × ℕ) → List Record
of_partition p [] = []
of_partition p ((rec, now) ∷ rs) =
    let rest = of_partition p rs in if rec.partition == p then rec ∷ rest else rest

-- records as if all were applied at time zero
abbrev stamped : List Record → List (Record × ℕ)
stamped recs = map (λ rec. (rec, 0)) recs

module _ {K V : Type 0} (dec : Discrete K) (show : K → Bytes) (log_errors : Bool) (b : Binding K V)
    (decode_key : Slice → Result K) (decode_value : Slice → Result (Option V)) where
  abbrev pub write_in : Record × ℕ → Option (Write K V)
  write_in r = write_of dec show log_errors b decode_key decode_value r.0

  abbrev writes_in : List (Record × ℕ) → List (Write K V)
  writes_in = writes dec show log_errors b decode_key decode_value

  -- A write, if any, is about a key of the partition.
  abbrev pub WritesHome : (K → ℕ) → ℕ → Option (Write K V) → Type 0
  WritesHome home p none = Unit
  WritesHome home p (some w) = home (target w) ≡ p

  -- A record stands in the partition of the key that it writes.
  abbrev pub AtHome : (K → ℕ) → Record × ℕ → Type 0
  AtHome home r = WritesHome home r.0.partition (write_in r)

  -- A write of a record in another partition does not touch the key.
  after-away :
      (home : K → ℕ) (q : K) (p : ℕ) (o : Option (Write K V)) (found : Option V × Bool)
      → WritesHome home p o
      → p == home q ≡ false
      → after dec show log_errors b decode_key decode_value q o found ≡ found
  after-away home q p none found h away = refl
  after-away home q p (some w) found h away =
      after-other dec show log_errors b decode_key decode_value q w found
        (λ same. absurd (ground (arith, ap home same)))

  last_write-of_partition :
      (home : K → ℕ) (q : K) (rs : List (Record × ℕ)) (found : Option V × Bool)
      → All (AtHome home) rs
      → last_write dec q (writes_in rs) found
        ≡ last_write dec q (writes_in (stamped (of_partition (home q) rs))) found
  unfolding of_partition
  last_write-of_partition home q [] found all = refl
  last_write-of_partition home q (r ∷ rs) found all =
      let left = after dec show log_errors b decode_key decode_value q (write_in r) found in
      let first =
        last_write-writes dec show log_errors b decode_key decode_value q r rs found
        ∙ last_write-of_partition home q rs left all.1 in
      let rest = stamped (of_partition (home q) rs) in
      elim (Bool-cases (r.0.partition == home q)) [
        | inl here ↦ rw here (
            first
            ∙ sym (
                last_write-writes dec show log_errors b decode_key decode_value q (r.0, 0) rest
                  found))
        | inr away ↦ rw away (
            first
            ∙ ap (last_write dec q (writes_in rest))
                (after-away home q r.0.partition (write_in r) found all.0 away))
      ]

  pub replay-IsValid :
      (rs : List (Record × ℕ))
      → IsValid dec
          (replay dec show log_errors b decode_key decode_value rs (new_cell new_store)).store
  replay-IsValid rs =
      rw (store-replay dec show log_errors b decode_key decode_value rs (new_cell new_store))
        (run-IsValid dec (writes_in rs) new_store (new_store-IsValid dec))

  -- What the records leave in a new store, up to the order of the entries.
  abbrev pub contents_of : List (Record × ℕ) → View dec V
  contents_of rs = Quot.mk (
    (replay dec show log_errors b decode_key decode_value rs (new_cell new_store)).store,
    replay-IsValid rs,
  )

  -- Replicas agree, however Kafka interleaves the partitions of a topic for each: if each key is
  -- written in one partition only, and two runs of records have the same records of every partition
  -- in the same order, then applied to a new store, at whatever times, they leave the same store, up
  -- to the order of its entries.
  pub replay-of_partition :
      (home : K → ℕ) (rs ss : List (Record × ℕ))
      → All (AtHome home) rs
      → All (AtHome home) ss
      → ((p : ℕ) → of_partition p rs ≡ of_partition p ss)
      → contents_of rs ≡ contents_of ss
  replay-of_partition home rs ss at_home at_home' same = Quot.sound (λ q.
      get-replay dec show log_errors b decode_key decode_value rs q
      ∙ last_write-of_partition home q rs (none, false) at_home
      ∙ ap (λ ts. last_write dec q (writes_in (stamped ts)) (none, false)) (same (home q))
      ∙ sym (last_write-of_partition home q ss (none, false) at_home')
      ∙ sym (get-replay dec show log_errors b decode_key decode_value ss q))
