-- ===== src/Detect/Laws.antt =====
-- detect.go: runs of events through `observe`, against the partitions whose end they report.
use easykafka_config_go.Prelude.{
  ℕ, ◌≡◌, refl, ◌↔◌, Bool, true, false, not, ◌&&◌, ◌||◌, List, [], ◌∷◌, any, is_empty, ◌==◌, ==_iff,
  if◌then◌else◌, arith, ◌∙◌, ap, sym, Bool-cases, inl, inr, All,
}
use easykafka_config_go.Errors.{ok}
use easykafka_config_go.Driver.Event.{Event, record_read, eof, idle, failure}
use easykafka_config_go.Detect.{
  partition_eof, Detection, discard, mem, insert_all, begin, after_event, observe,
}

-- whether the event is the end of the partition
abbrev pub is_end_of : ℕ → Event → Bool
is_end_of p (eof q offset) = q == p
is_end_of p _ = false

-- whether the events hold the end of the partition
abbrev pub ended : ℕ → List Event → Bool
ended p evs = any (is_end_of p) evs

-- The detection after a run of events, and whether the last of them completed it.
unfoldable pub observe_all : List Event → Detection × Bool → Detection × Bool
observe_all [] r = r
observe_all (ev ∷ evs) (d, done) = observe_all evs (observe ev d)

mem-discard : (q p : ℕ) (xs : List ℕ) → mem q (discard p xs) ≡ mem q xs && not (p == q)
unfolding discard
mem-discard q p [] = refl
mem-discard q p (x ∷ xs) = ground (arith, mem-discard q p xs)

mem-insert_all : (q : ℕ) (ps set : List ℕ) → mem q (insert_all ps set) ≡ mem q ps || mem q set
unfolding insert_all
mem-insert_all q [] set = refl
mem-insert_all q (p ∷ ps) set =
    ground (arith, mem-insert_all q ps (if mem p set then set else p ∷ set))

mem-after_event :
    (q : ℕ) (ev : Event) (rs : List ℕ)
    → mem q (after_event ev rs) ≡ mem q rs && not (is_end_of q ev)
unfolding after_event
mem-after_event q (eof p offset) rs = mem-discard q p rs
mem-after_event q (record_read r) rs = ground arith
mem-after_event q idle rs = ground arith
mem-after_event q (failure e f) rs = ground arith

mem-observe_all :
    (q : ℕ) (evs : List Event) (r : Detection × Bool)
    → mem q (observe_all evs r).0.remaining ≡ mem q r.0.remaining && not (ended q evs)
unfolding observe_all observe
mem-observe_all q [] r = ground arith
mem-observe_all q (ev ∷ evs) (d, done) =
    ground (arith, mem-observe_all q evs (observe ev d), mem-after_event q ev d.remaining)

is_empty_of_mem : (xs : List ℕ) → ((q : ℕ) → mem q xs ≡ false) → is_empty xs ≡ true
is_empty_of_mem [] h = refl
is_empty_of_mem (x ∷ xs) h = ground (arith, h x)

observe_all-flag :
    (evs : List Event) (r : Detection × Bool)
    → r.1 ≡ is_empty r.0.remaining
    → (observe_all evs r).1 ≡ is_empty (observe_all evs r).0.remaining
unfolding observe_all observe
observe_all-flag [] r h = h
observe_all-flag (ev ∷ evs) (d, done) h = observe_all-flag evs (observe ev d) refl

mem_of_is_empty : (q : ℕ) (xs : List ℕ) → is_empty xs ≡ true → mem q xs ≡ false
mem_of_is_empty q [] h = refl
mem_of_is_empty q (x ∷ xs) h = cc

observe-flag : (ev : Event) (d : Detection) → (observe ev d).1 ≡ is_empty (observe ev d).0.remaining
unfolding observe
observe-flag ev d = refl

mem-begin :
    (q : ℕ) (ps : List ℕ) (d : Detection)
    → begin partition_eof ps ≡ ok d
    → mem q d.remaining ≡ mem q ps
unfolding begin
mem-begin q ps d h = ground (arith, mem-insert_all q ps [])

All-ended_of_mem :
    (ps : List ℕ) (evs : List Event)
    → ((q : ℕ) → mem q ps ≡ true → ended q evs ≡ true)
    → All (λ p. ended p evs ≡ true) ps
All-ended_of_mem [] evs h = tt
All-ended_of_mem (p ∷ ps) evs h =
    (h p (ground arith), All-ended_of_mem ps evs (λ q m. h q (ground arith)))

pub ended_of_All :
    (ps : List ℕ) (evs : List Event)
    → All (λ p. ended p evs ≡ true) ps
    → (q : ℕ) → mem q ps ≡ true
    → ended q evs ≡ true
ended_of_All [] evs h q m = cc
ended_of_All (p ∷ ps) evs h q m = elim (Bool-cases (p == q)) [
  | inl same ↦ rw (← (==_iff p q).0 same) h.0
  | inr other ↦ ended_of_All ps evs h.1 q (ground arith)
]

-- However the events come, the detection that `begin` starts over the assigned partitions is
-- complete after an event exactly when each of those partitions has reported its end in one of the
-- events so far; records, idle polls and failures never count.
pub observe_all_complete :
    (ps : List ℕ) (d : Detection) (ev : Event) (evs : List Event)
    → begin partition_eof ps ≡ ok d
    → ((observe_all (ev ∷ evs) (d, false)).1 ≡ true) ↔ All (λ p. ended p (ev ∷ evs) ≡ true) ps
unfolding observe observe_all
observe_all_complete ps d ev evs h = (
  λ done. All-ended_of_mem ps (ev ∷ evs) (λ q m. has_ended q m (sym (flag) ∙ done)),
  λ ends. flag ∙ is_empty_of_mem _ (λ q. none_left q (ended_of_All ps (ev ∷ evs) ends q)),
)
  where
    final : Detection × Bool
    final = observe_all (ev ∷ evs) (d, false)

    flag : final.1 ≡ is_empty final.0.remaining
    flag = observe_all-flag evs (observe ev d) (observe-flag ev d)

    left : (q : ℕ) → mem q final.0.remaining ≡ mem q ps && not (ended q (ev ∷ evs))
    left q =
        mem-observe_all q (ev ∷ evs) (d, false)
        ∙ ap (λ m. m && not (ended q (ev ∷ evs))) (mem-begin q ps d h)

    has_ended :
        (q : ℕ) → mem q ps ≡ true → is_empty final.0.remaining ≡ true → ended q (ev ∷ evs) ≡ true
    has_ended q m e = ground (arith, left q, mem_of_is_empty q final.0.remaining e)

    none_left :
        (q : ℕ) → (mem q ps ≡ true → ended q (ev ∷ evs) ≡ true) → mem q final.0.remaining ≡ false
    none_left q m = ground (arith, left q)
