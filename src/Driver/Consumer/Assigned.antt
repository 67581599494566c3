-- ===== src/Driver/Consumer/Assigned.antt =====
-- `AssignAll` of internal/driver/consumer.go, against the broker's metadata and the client's request.
use easykafka_config_go.Prelude.{
  ℕ, ◌≡◌, ◌↔◌, refl, sym, ap, ◌∙◌, false, Option, none, some, List, [], ◌∷◌, map, All, is_empty,
  arith, Bool-cases, Option-cases, ◌⊎◌, inl, inr,
}
use easykafka_config_go.Errors.{Bytes, Err, sentinel, wrap, Context, Result, ok, err}
use easykafka_config_go.Errors
use easykafka_config_go.Driver.Consumer.{Consumer}
use easykafka_config_go.Driver.Consumer.Assign.{
  TopicMetadata, StartOffset, offset_beginning, partitions_of, discover_partitions, from_beginning,
  assign, assign_all,
}

-- An assignment of every partition that the broker reports of the topic.
pub record Covers (metadata : Bytes → Result (Option TopicMetadata))
    (client_assign : List (ℕ × StartOffset) → Option Err) (c c' : Consumer) (ids : List ℕ)
    : Type 0 where
  pub open_before : c.closed ≡ false
  pub topic : TopicMetadata
  pub reported : metadata c.cfg.topic ≡ ok (some topic)
  pub healthy : topic.error ≡ none
  pub every : topic.partitions ≡ ids
  pub some_partition : is_empty ids ≡ false
  pub request : List (ℕ × StartOffset)
  pub asked : map (λ p. p.0) request ≡ ids
  pub from_start : All (λ p. p.1 ≡ offset_beginning) request
  pub accepted : client_assign request ≡ none
  pub kept : c' ≡ record c { assigned = ids }

partitions_of-ok :
    (r : Result (Option TopicMetadata)) (ids : List ℕ)
    → partitions_of r ≡ ok ids
    → (t : TopicMetadata) × (r ≡ ok (some t))
      × (t.error ≡ none)
      × (t.partitions ≡ ids)
      × (is_empty ids ≡ false)
unfolding partitions_of
partitions_of-ok (err e) ids h = absurd (ground arith)
partitions_of-ok (ok none) ids h = absurd (ground arith)
partitions_of-ok (ok (some t)) ids h = (t, refl, ground arith, ground arith, ground arith)

discover_partitions-ok :
    (ctx_err : Option Err) (metadata : Bytes → Result (Option TopicMetadata)) (c : Consumer)
    (ids : List ℕ)
    → discover_partitions ctx_err metadata c ≡ ok ids
    → partitions_of (metadata c.cfg.topic) ≡ ok ids
unfolding discover_partitions
discover_partitions-ok none metadata c ids h = h
discover_partitions-ok (some e) metadata c ids h = absurd (ground arith)

assign-ok :
    (r : Result (List ℕ)) (client_assign : List (ℕ × StartOffset) → Option Err) (c c' : Consumer)
    (ids : List ℕ)
    → assign r client_assign c ≡ (c', ok ids)
    → (r ≡ ok ids)
      × (client_assign (from_beginning ids) ≡ none)
      × (c' ≡ record c { assigned = ids })
unfolding assign
assign-ok (err e) client_assign c c' ids h = absurd (ground arith)
assign-ok (ok l) client_assign c c' ids h = ground arith

ids_of_from_beginning : (ids : List ℕ) → map (λ p. p.0) (from_beginning ids) ≡ ids
ids_of_from_beginning [] = refl
ids_of_from_beginning (id ∷ ids) = ap (λ l. id ∷ l) (ids_of_from_beginning ids)

All-from_beginning : (ids : List ℕ) → All (λ p. p.1 ≡ offset_beginning) (from_beginning ids)
All-from_beginning [] = tt
All-from_beginning (id ∷ ids) = (refl, All-from_beginning ids)

-- A request of these partitions, each from the beginning, is the one that AssignAll makes.
from_beginning_unique :
    (request : List (ℕ × StartOffset))
    → All (λ p. p.1 ≡ offset_beginning) request
    → from_beginning (map (λ p. p.0) request) ≡ request
from_beginning_unique [] h = refl
from_beginning_unique ((id, offset) ∷ request) h =
    ground (arith, from_beginning_unique request h.1, h.0)

-- If AssignAll succeeds, the consumer was open, the broker reported the topic without an error and
-- with at least one partition, the client has accepted an assignment of exactly the partitions that
-- it reported, each from the beginning, and those are what the consumer has assigned and returns.
pub assign_all-Covers :
    (ctx_err : Option Err) (metadata : Bytes → Result (Option TopicMetadata))
    (client_assign : List (ℕ × StartOffset) → Option Err) (c c' : Consumer) (ids : List ℕ)
    → assign_all ctx_err metadata client_assign c ≡ (c', ok ids)
    → Covers metadata client_assign c c' ids
unfolding assign_all
assign_all-Covers ctx_err metadata client_assign c c' ids h = elim (Bool-cases c.closed) [
  | inl gone ↦ absurd (ground (arith, gone))
  | inr here ↦
      let (found, accepted, kept) =
        assign-ok (discover_partitions ctx_err metadata c) client_assign c c' ids
          (ground (arith, here)) in
      let (t, reported, healthy, every, some_partition) =
        partitions_of-ok (metadata c.cfg.topic) ids
          (discover_partitions-ok ctx_err metadata c ids found) in
      record {
        open_before = here;
        topic = t;
        reported = reported;
        healthy = healthy;
        every = every;
        some_partition = some_partition;
        request = from_beginning ids;
        asked = ids_of_from_beginning ids;
        from_start = All-from_beginning ids;
        accepted = accepted;
        kept = kept;
      }
]

assign_all_of_Covers :
    (metadata : Bytes → Result (Option TopicMetadata))
    (client_assign : List (ℕ × StartOffset) → Option Err) (c c' : Consumer) (ids : List ℕ)
    → Covers metadata client_assign c c' ids
    → assign_all none metadata client_assign c ≡ (c', ok ids)
unfolding assign_all discover_partitions partitions_of assign
assign_all_of_Covers metadata client_assign c c' ids x =
    let same : from_beginning ids ≡ x.request =
      ap from_beginning (sym x.asked) ∙ from_beginning_unique x.request x.from_start in
    simp (x.open_before, x.reported, x.healthy, x.every, x.some_partition, same, x.accepted, x.kept)

assign-cases :
    (r : Result (List ℕ)) (client_assign : List (ℕ × StartOffset) → Option Err) (c : Consumer)
    → ((e : Err) × (assign r client_assign c ≡ (c, err e)))
      ⊎ ((l : List ℕ) × (assign r client_assign c ≡ (record c { assigned = l }, ok l)))
unfolding assign
assign-cases (err e) client_assign c = inl (e, refl)
assign-cases (ok l) client_assign c = elim (Option-cases (client_assign (from_beginning l))) [
  | inl accepted ↦ inr (l, ground (arith, accepted))
  | inr (e, refused) ↦ inl (wrap Context.detail e, ground (arith, refused))
]

-- The context has no error when AssignAll succeeds.
assign_all-ctx :
    (ctx_err : Option Err) (metadata : Bytes → Result (Option TopicMetadata))
    (client_assign : List (ℕ × StartOffset) → Option Err) (c c' : Consumer) (ids : List ℕ)
    → assign_all ctx_err metadata client_assign c ≡ (c', ok ids)
    → ctx_err ≡ none
unfolding assign_all discover_partitions assign
assign_all-ctx none metadata client_assign c c' ids h = refl
assign_all-ctx (some e) metadata client_assign c c' ids h = elim (Bool-cases c.closed) [
  | inl gone ↦ absurd (ground (arith, gone))
  | inr here ↦ absurd (ground (arith, here))
]

-- AssignAll succeeds with `ids` exactly when the consumer is open, the context has no error, the
-- broker reports the topic without an error and with `ids`, at least one, as its partitions, and the
-- client accepts a request of exactly those, each from the beginning; the consumer then has `ids`
-- assigned and is otherwise as before. In every other case it returns an error and leaves the
-- consumer, and what was assigned before, as it was.
pub assign_all_iff :
    (ctx_err : Option Err) (metadata : Bytes → Result (Option TopicMetadata))
    (client_assign : List (ℕ × StartOffset) → Option Err) (c c' : Consumer) (ids : List ℕ)
    → let answer = assign_all ctx_err metadata client_assign c in
      ((answer ≡ (c', ok ids)) ↔ ((ctx_err ≡ none) × Covers metadata client_assign c c' ids))
      × (((e : Err) × (answer ≡ (c, err e)))
          ⊎ ((l : List ℕ) × (answer ≡ (record c { assigned = l }, ok l))))
unfolding assign_all
assign_all_iff ctx_err metadata client_assign c c' ids = (
  (
    λ h. (
      assign_all-ctx ctx_err metadata client_assign c c' ids h,
      assign_all-Covers ctx_err metadata client_assign c c' ids h,
    ),
    λ h.
        ap (λ e. assign_all e metadata client_assign c) h.0
        ∙ assign_all_of_Covers metadata client_assign c c' ids h.1,
  ),
  elim (Bool-cases c.closed) [
    | inl gone ↦ inl (sentinel Errors.closed, ground (arith, gone))
    | inr here ↦ elim (assign-cases (discover_partitions ctx_err metadata c) client_assign c) [
      | inl (e, failed) ↦ inl (e, ground (arith, here, failed))
      | inr (l, covered) ↦ inr (l, ground (arith, here, covered))
    ]
  ],
)
