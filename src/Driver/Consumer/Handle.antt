-- ===== src/Driver/Consumer/Handle.antt =====
-- internal/driver/consumer.go: `handleMu` and the closed flag, with any number of goroutines calling
-- one consumer, and where each stands with respect to the client's handle.
use easykafka_config_go.Prelude.{
  Bool-cases, inl, inr, ℕ, ◌+◌, ◌≤◌, ◌<◌, ◌≡◌, refl, ◌≢◌, Bool, true, false, Option, none, some,
  if◌then◌else◌, arith,
}
use easykafka_config_go.Prelude.Family.{update, sum, sum-update, sum-zero}

-- Where a goroutine stands.
pub data Pc : Type 0 where
  outside : Pc
  waiting : Pc  -- in AssignAll, Poll, Watermarks or Positions, before `handleMu.Lock()`
  locked : Pc  -- before `c.closed.Load()`
  calling : Pc  -- in a call of the client
  leaving : Pc  -- before `handleMu.Unlock()`
  closing : Pc  -- in Close, past `closed.Swap(true)`, before the lock
  destroying : Pc  -- in the client's Close

-- `owner` is the goroutine that holds `handleMu`; `destroyed` counts the calls of the client's
-- Close that have ended.
pub record Shared : Type 0 where
  pub closed : Bool
  pub owner : Option ℕ
  pub destroyed : ℕ
  pub pcs : ℕ → Pc

abbrev pub move : Shared → ℕ → Pc → Shared
move s i pc = record s { pcs = update s.pcs i pc }

-- One step of goroutine `i` of `n`.
pub data Step (n : ℕ) (s : Shared) : Shared → Type 0 where
  call : (i : ℕ) → i < n → s.pcs i ≡ outside → Step n s (move s i waiting)
  lock :
      (i : ℕ)
      → i < n
      → s.pcs i ≡ waiting
      → s.owner ≡ none
      → Step n s (move (record s { owner = some i }) i locked)
  test :
      (i : ℕ)
      → i < n
      → s.pcs i ≡ locked
      → Step n s (move s i (if s.closed then leaving else calling))
  return : (i : ℕ) → i < n → s.pcs i ≡ calling → Step n s (move s i leaving)
  unlock :
      (i : ℕ) → i < n → s.pcs i ≡ leaving → Step n s (move (record s { owner = none }) i outside)
  swap :
      (i : ℕ)
      → i < n
      → s.pcs i ≡ outside
      → Step n s (move (record s { closed = true }) i (if s.closed then outside else closing))
  take :
      (i : ℕ)
      → i < n
      → s.pcs i ≡ closing
      → s.owner ≡ none
      → Step n s (move (record s { owner = some i }) i destroying)
  destroy :
      (i : ℕ)
      → i < n
      → s.pcs i ≡ destroying
      → Step n s (move (record s { destroyed = s.destroyed + 1 }) i leaving)

pub data Reach (n : ℕ) : Shared → Type 0 where
  start : Reach n (record { closed = false; owner = none; destroyed = 0; pcs = λ i. outside })
  later : {s t : Shared} → Reach n s → Step n s t → Reach n t

-- a Close on its way
abbrev pending : Pc → ℕ
pending closing = 1
pending destroying = 1
pending _ = 0

-- What holds of goroutine `i` where it stands.
abbrev FitsAt : ℕ → Pc → Option ℕ → ℕ → Type 0
FitsAt i locked owner destroyed = owner ≡ some i
FitsAt i calling owner destroyed = (owner ≡ some i) × (destroyed ≡ 0)
FitsAt i leaving owner destroyed = owner ≡ some i
FitsAt i destroying owner destroyed = owner ≡ some i
FitsAt i _ owner destroyed = Unit

record Inv (n : ℕ) (s : Shared) : Type 0 where
  fits : (i : ℕ) → FitsAt i (s.pcs i) s.owner s.destroyed
  once : sum pending n s.pcs + s.destroyed ≡ (if s.closed then 1 else 0)

Step-fits :
    {n : ℕ} {s t : Shared} → Step n s t → Inv n s → (j : ℕ) → FitsAt j (t.pcs j) t.owner t.destroyed
Step-fits (call i lt e) v j = ground (arith, v.fits j)
Step-fits (lock i lt e free) v j = ground (arith, v.fits j)
Step-fits {s} (test i lt e) v j = ground (arith, v.fits j, v.once)
Step-fits (return i lt e) v j = ground (arith, v.fits j, v.fits i)
Step-fits (unlock i lt e) v j = ground (arith, v.fits j, v.fits i)
Step-fits (swap i lt e) v j = ground (arith, v.fits j)
Step-fits (take i lt e free) v j = ground (arith, v.fits j)
Step-fits (destroy i lt e) v j = ground (arith, v.fits j, v.fits i)

Step-once :
    {n : ℕ} {s t : Shared}
    → Step n s t
    → Inv n s
    → sum pending n t.pcs + t.destroyed ≡ (if t.closed then 1 else 0)
Step-once {n} {s} (call i lt e) v = ground (arith, v.once, sum-update pending n s.pcs i waiting lt)
Step-once {n} {s} (lock i lt e free) v =
    ground (arith, v.once, sum-update pending n s.pcs i locked lt)
Step-once {n} {s} (test i lt e) v =
    ground (arith, v.once, sum-update pending n s.pcs i (if s.closed then leaving else calling) lt)
Step-once {n} {s} (return i lt e) v =
    ground (arith, v.once, sum-update pending n s.pcs i leaving lt)
Step-once {n} {s} (unlock i lt e) v =
    ground (arith, v.once, sum-update pending n s.pcs i outside lt)
Step-once {n} {s} (swap i lt e) v =
    ground (arith, v.once, sum-update pending n s.pcs i (if s.closed then outside else closing) lt)
Step-once {n} {s} (take i lt e free) v =
    ground (arith, v.once, sum-update pending n s.pcs i destroying lt)
Step-once {n} {s} (destroy i lt e) v =
    ground (arith, v.once, sum-update pending n s.pcs i leaving lt)

Inv-start :
    (n : ℕ) → Inv n (record { closed = false; owner = none; destroyed = 0; pcs = λ i. outside })
Inv-start n = record { fits = λ i. tt; once = omega (arith, quiet n) }
  where
    quiet : (k : ℕ) → sum pending k (λ i. outside) ≡ 0
    quiet k = sum-zero pending k (λ i. outside) (λ i. refl)

Reach-Inv : {n : ℕ} {s : Shared} → Reach n s → Inv n s
Reach-Inv {n} start = Inv-start n
Reach-Inv (later r st) = record {
  fits = Step-fits st (Reach-Inv r);
  once = Step-once st (Reach-Inv r);
}

-- a goroutine inside a call of the client, its Close included
abbrev pub in_client : Pc → Bool
in_client calling = true
in_client destroying = true
in_client _ = false

-- However AssignAll, Poll, Watermarks, Positions and Close calls of any number of goroutines
-- interleave, while one goroutine is inside the client no other one is.
pub in_client_unique :
    {n : ℕ} {s : Shared} (i j : ℕ)
    → Reach n s
    → i ≢ j
    → in_client (s.pcs i) ≡ true
    → in_client (s.pcs j) ≡ false
in_client_unique {n} {s} i j r differ hi = elim (Bool-cases (in_client (s.pcs j))) [
  | inr out ↦ out
  | inl hj ↦ absurd (
      differ (
        ground (
          arith,
          owns i (s.pcs i) ((Reach-Inv r).fits i) hi,
          owns j (s.pcs j) ((Reach-Inv r).fits j) hj,
        )))
]
  where
    owns :
        (k : ℕ) (pc : Pc) → FitsAt k pc s.owner s.destroyed → in_client pc ≡ true → s.owner ≡ some k
    owns k pc fit h = ground arith

-- However the calls interleave, a goroutine that is in a call of the client finds its handle not
-- destroyed.
pub calling-alive : {n : ℕ} {s : Shared} (i : ℕ) → Reach n s → s.pcs i ≡ calling → s.destroyed ≡ 0
calling-alive {n} {s} i r h = alive (s.pcs i) ((Reach-Inv r).fits i) h
  where
    alive : (pc : Pc) → FitsAt i pc s.owner s.destroyed → pc ≡ calling → s.destroyed ≡ 0
    alive pc fit e = ground arith

-- Whatever the interleaving, the client's handle is destroyed at most once.
pub destroyed-le-one : {n : ℕ} {s : Shared} → Reach n s → s.destroyed ≤ 1
destroyed-le-one r = ground (arith, (Reach-Inv r).once)
