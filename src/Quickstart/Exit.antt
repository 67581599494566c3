-- ===== src/Quickstart/Exit.antt =====
-- examples/quickstart/main.go: how `run` ends.
use mathlib.Core.List.{lookup}
use mathlib.Core.Option
use easykafka_config_go.Prelude.{
  sym, length, ℕ, ◌<◌, ◌≡◌, refl, ap, ◌∙◌, Bool, true, false, Option, none, some, List, [], ◌∷◌,
  ◌++◌, All, is_some, ite, arith,
}
use easykafka_config_go.Prelude.Words.{ℤ}
use easykafka_config_go.Errors.{Bytes, Err, wrap, Context, Result, ok}
use easykafka_config_go.Codec.{string_key, json_value}
use easykafka_config_go.Driver.Event.{Record}
use easykafka_config_go.Store.{Store, new_store, get}
use easykafka_config_go.Store.Laws.{UniqueKeys}
use easykafka_config_go.Store.History.{Write, write, erase, last_write}
use easykafka_config_go.Store.Iterate.Racing.{Reflects, LeftBy, entry-Reflects}
use easykafka_config_go.Store.Iterate.Racing
use easykafka_config_go.Store.View.{lookup_head}
use easykafka_config_go.Registration.{Registration, new_cell}
use easykafka_config_go.Registration.Replay.{write_of, writes, replay, get-replay}
use easykafka_config_go.Registration.Partitions.{replay-IsValid}
use easykafka_config_go.Loader.Serve.{System, Reach}
use easykafka_config_go.Loader.Serve.Stop.{calls_for}
use easykafka_config_go.Loader.Serve.Wait.{wait_until_stopped, wait_until_stopped-Reach}
use easykafka_config_go.Quickstart
use easykafka_config_go.Quickstart.{
  main, PlayerConfig, Line, loader_failed, loading, loaded_entries, entry_lines, after_done,
  players, run, handler_lines,
}

-- present exactly if there is a pointer that is not nil
abbrev Solid : {V : Type 0} → Option V × Bool → Type 0
Solid found = found.1 ≡ is_some found.0

abbrev NonNil : {K V : Type 0} → Write K V → Type 0
NonNil (write k v) = is_some v ≡ true
NonNil (erase k) = Unit

last_write-Solid :
    {K V : Type 0} (dec : Discrete K) (q : K) (ws : List (Write K V)) (found : Option V × Bool)
    → All NonNil ws
    → Solid found
    → Solid (last_write dec q ws found)
unfolding last_write
last_write-Solid dec q [] found all h = h
last_write-Solid dec q (write k v ∷ ws) found all h =
    last_write-Solid dec q ws (ite (dec q k) (v, true) found) all.1 (ground (arith))
last_write-Solid dec q (erase k ∷ ws) found all h =
    last_write-Solid dec q ws (ite (dec q k) (none, false) found) all.1 (ground (arith))

All-front {ℓ} : {A : Type ℓ} (P : A → Type 0) (xs ys : List A) → All P (xs ++ ys) → All P xs
All-front P [] ys all = tt
All-front P (x ∷ xs) ys all = (all.0, All-front P xs ys all.1)

-- the line of the fatal handler that goes with what WaitUntilStopped returns
abbrev pub failure_lines : Option Err → List Line
failure_lines none = []
failure_lines (some e) = loader_failed e ∷ []

exit_status :
    (stopped : Option Err)
    → main (Option.map (wrap Context.detail) stopped) ≡ length (failure_lines stopped)
unfolding main
exit_status none = refl
exit_status (some e) = refl

told : (stopped : Option Err) → handler_lines (calls_for true stopped) ≡ failure_lines stopped
told none = refl
told (some e) = refl

module _ (dec : Discrete Bytes) (show : Bytes → Bytes)
    (unmarshal : Bytes → Result PlayerConfig) where
  abbrev pub writes_in : List (Record × ℕ) → List (Write Bytes PlayerConfig)
  writes_in = writes dec show false (players unmarshal) string_key (json_value unmarshal)

  abbrev pub write_in : Record → Option (Write Bytes PlayerConfig)
  write_in = write_of dec show false (players unmarshal) string_key (json_value unmarshal)

  abbrev pub store_of : List (Record × ℕ) → Store Bytes PlayerConfig
  store_of rs =
      (replay dec show false (players unmarshal) string_key (json_value unmarshal) rs
        (new_cell new_store)).store

  -- JSONValue never gives a nil pointer.
  write_of-NonNil :
      (rec : Record) (w : Write Bytes PlayerConfig)
      → write_of dec show false (players unmarshal) string_key (json_value unmarshal) rec ≡ some w
      → NonNil w
  unfolding write_of json_value
  write_of-NonNil rec (erase k) e = tt
  write_of-NonNil rec (write k v) e = ground arith

  -- with the write, if any, of one more record
  NonNil-first :
      (o : Option (Write Bytes PlayerConfig)) (ws : List (Write Bytes PlayerConfig))
      → ((w : Write Bytes PlayerConfig) → o ≡ some w → NonNil w)
      → All NonNil ws
      → All NonNil
          (elim o as (λ o. List (Write Bytes PlayerConfig)) [ none ↦ ws | some w ↦ w ∷ ws ])
  NonNil-first none ws h all = all
  NonNil-first (some w) ws h all = (h w refl, all)

  writes-NonNil : (rs : List (Record × ℕ)) → All NonNil (writes_in rs)
  unfolding writes
  writes-NonNil [] = tt
  writes-NonNil ((rec, now) ∷ rs) =
      NonNil-first (write_in rec) (writes_in rs) (write_of-NonNil rec) (writes-NonNil rs)

  entry_head :
      (k : Bytes) (v : Option PlayerConfig) (l : List (Bytes × Option PlayerConfig))
      → Racing.entry dec k ((k, v) ∷ l) ≡ (v, true)
  entry_head k v l = ap (Racing.entry_of dec) (lookup_head dec k v l)

  tail_Solid :
      (k q : Bytes) (v : Option PlayerConfig) (l : List (Bytes × Option PlayerConfig))
      → lookup dec k l ≡ none
      → Solid (Racing.entry dec q ((k, v) ∷ l))
      → Solid (Racing.entry dec q l)
  unfolding lookup
  tail_Solid k q v l fresh h = ground arith

  Solid-entry_lines :
      (visited : List (Bytes × Option PlayerConfig))
      → UniqueKeys dec visited
      → ((q : Bytes) → Solid (Racing.entry dec q visited))
      → (lines : List Line) × (entry_lines visited ≡ some lines)
  unfolding entry_lines
  Solid-entry_lines [] u h = ([], refl)
  Solid-entry_lines ((k, none) ∷ visited) u h = absurd (cc (h k, entry_head k none visited))
  Solid-entry_lines ((k, some cfg) ∷ visited) u h =
      let (lines, e) =
        Solid-entry_lines visited u.1 (λ q. tail_Solid k q (some cfg) visited u.0 (h q)) in
      (Quickstart.entry k cfg.limit ∷ lines, rw e refl)

  Solid-get : (rs : List (Record × ℕ)) (q : Bytes) → Solid (get dec q (store_of rs))
  Solid-get rs q =
      rw (get-replay dec show false (players unmarshal) string_key (json_value unmarshal) rs q)
        (last_write-Solid dec q (writes_in rs) (none, false) (writes-NonNil rs) refl)

  -- what the walk over the store sees
  Solid-visited :
      (rs ss : List (Record × ℕ)) (visited : List (Bytes × Option PlayerConfig)) (q : Bytes)
      → Reflects dec (store_of rs) (writes_in ss) visited
      → Solid (Racing.entry dec q visited)
  Solid-visited rs ss visited q r =
      let (earlier, later, split, left) =
        entry-Reflects dec q
          (replay-IsValid dec show false (players unmarshal) string_key (json_value unmarshal) rs)
          r in
      rw left (
        last_write-Solid dec q earlier (get dec q (store_of rs))
          (All-front NonNil earlier later (rw split at (writes-NonNil ss))) (Solid-get rs q))

  run_stopped :
      {C : Type 0} (loader : C) (size : ℤ) (visited : List (Bytes × Option PlayerConfig))
      (stopped : Option Err) (entries : List Line)
      → entry_lines visited ≡ some entries
      → run (ok loader) none size visited stopped
        ≡ some (
          loading ∷ loaded_entries size ∷ entries ++ (after_done stopped).0,
          Option.map (wrap Context.detail) stopped,
        )
  unfolding run after_done
  run_stopped loader size visited none entries e = rw (e, run) refl
  run_stopped loader size visited (some x) entries e = rw (e, run) refl

  -- Let the loader have applied the records `rs` to the new store of the program's binding, let the
  -- serving goroutine apply `ss` while the program walks the store, and let the goroutines then reach
  -- a state in which WaitUntilStopped returns. Then `run` does not panic: it dereferences no nil
  -- pointer; it returns an error exactly if WaitUntilStopped does, wrapped; the line by which the
  -- fatal handler tells of that error has been printed once then, and otherwise no such line has;
  -- and the exit status of the program is the number of those lines.
  pub run-after_done :
      {S A C : Type 0} (n : ℕ) (regs : ℕ → Registration S A) (i : ℕ) {s : System S}
      {stopped : Option Err} (loader : C) (size : ℤ) (rs ss : List (Record × ℕ))
      (visited : List (Bytes × Option PlayerConfig))
      → Reflects dec (store_of rs) (writes_in ss) visited
      → Reach n regs true s
      → wait_until_stopped n s ≡ some stopped
      → i < n
      → (lines : List Line) × (run (ok loader) none size visited stopped
          ≡ some (lines, Option.map (wrap Context.detail) stopped))
        × (handler_lines s.handled ≡ failure_lines stopped)
        × (main (Option.map (wrap Context.detail) stopped) ≡ length (handler_lines s.handled))
  run-after_done n regs i {stopped = stopped} loader size rs ss visited r reached returned lt =
      let (entries, all_visited) =
        Solid-entry_lines visited r.once (λ q. Solid-visited rs ss visited q r) in
      let (_, _, handled, _, _) = wait_until_stopped-Reach n regs true i reached returned lt in
      (
        loading ∷ loaded_entries size ∷ entries ++ (after_done stopped).0,
        run_stopped loader size visited stopped entries all_visited,
        ap handler_lines handled ∙ told stopped,
        exit_status stopped ∙ sym (ap length (ap handler_lines handled ∙ told stopped)),
      )
