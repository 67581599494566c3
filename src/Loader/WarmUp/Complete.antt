-- ===== src/Loader/WarmUp/Complete.antt =====
-- `warmUpBinding` of loader.go on a registration that BindTo builds: its store after the turns.
use easykafka_config_go.Prelude.{
  ℕ, ◌+◌, ◌%◌, ◌<◌, ◌≡◌, refl, ◌≢◌, ◌⊎◌, inl, inr, Bool, true, false, Option, none, some, List, [],
  ◌∷◌, ◌++◌, All, length, arith, ◌∙◌, sym, ap,
}
use easykafka_config_go.Prelude.Words.{ℤ, word_mod}
use easykafka_config_go.Errors.{Bytes, Result, ok}
use easykafka_config_go.Text.{Slice}
use easykafka_config_go.Driver.Event.{Record, Event, record_read, eof, idle, failure}
use easykafka_config_go.Observer.{Phase}
use easykafka_config_go.Binding.{Binding}
use easykafka_config_go.Store
use easykafka_config_go.Store.{Store, new_store}
use easykafka_config_go.Store.History.{Write, run, last_write, get-run}
use easykafka_config_go.Registration.{Cell, new_cell, Registration, apply_func, registration_of}
use easykafka_config_go.Registration.Replay.{write_of, perform, writes, store-apply_func}
use easykafka_config_go.Detect.{partition_eof, Detection, begin}
use easykafka_config_go.Detect.Laws.{ended, observe_all, observe_all_complete}
use easykafka_config_go.Loader.WarmUp.{
  load_progress_every, Turn, loaded, classify, apply_warming, finish, warm_up_binding,
}
use easykafka_config_go.Loader.WarmUp.Laws.{Calm, events, warmed, Completed, warm_loop-Completed}
use easykafka_config_go.Loader.WarmUp.Records.{effects}

All-ended_of_detected :
    (ps : List ℕ) (d : Detection) (ts : List Turn)
    → begin partition_eof ps ≡ ok d
    → (observe_all (events ts) (d, false)).1 ≡ true
    → All (λ p. ended p (events ts) ≡ true) ps
unfolding observe_all
All-ended_of_detected ps d [] begun e = absurd (ground arith)
All-ended_of_detected ps d (t ∷ ts) begun e =
    (observe_all_complete ps d t.event (events ts) begun).0 e

ne_nil {ℓ κ} :
    {A : Type ℓ} {Q : Type κ} (ws : List A) (n : ℕ)
    → n ≡ (0 + length ws) % word_mod
    → (n ≢ 0) ⊎ Q
    → (ws ≢ []) ⊎ Q
ne_nil [] n e (inl h) = absurd (h (omega arith))
ne_nil (w ∷ ws) n e (inl h) = inl (λ e. cc)
ne_nil ws n e (inr q) = inr q

module _ {K V : Type 0} (dec : Discrete K) (show : K → Bytes) (log_errors : Bool) (b : Binding K V)
    (decode_key : Slice → Result K) (decode_value : Slice → Result (Option V)) where
  abbrev pub reg : Registration (Store K V) (Option V)
  reg = registration_of dec show log_errors b decode_key decode_value

  abbrev effects_in : List Turn → List (Write K V)
  effects_in = effects dec show log_errors b decode_key decode_value

  -- The count of applied records is that of the effective ones, and the phase stays.
  pub applied-apply_func :
      (rec : Record) (now : ℕ) (c : Cell (Store K V))
      → c.phase ≡ Phase.warmup
      → ((apply_func dec show log_errors b decode_key decode_value rec now c).phase ≡ Phase.warmup)
        × ((apply_func dec show log_errors b decode_key decode_value rec now c).warmup_applied
            ≡ elim (write_of dec show log_errors b decode_key decode_value rec) [
              | none ↦ c.warmup_applied
              | some w ↦ (c.warmup_applied + 1) % word_mod
            ])
  unfolding apply_func write_of
  applied-apply_func rec now c h = ground arith

  -- What turns have made of a state in warm-up.
  record Warm (ts : List Turn) (c c' : Cell (Store K V)) : Type 0 where
    phase : c'.phase ≡ Phase.warmup
    applied : c'.warmup_applied ≡ (c.warmup_applied + length (effects_in ts)) % word_mod
    stored : c'.store ≡ run dec (effects_in ts) c.store

  abbrev effect_of : Event → Option (Write K V)
  effect_of (record_read rec) = write_of dec show log_errors b decode_key decode_value rec
  effect_of _ = none

  abbrev prepend : Option (Write K V) → List (Write K V) → List (Write K V)
  prepend none ws = ws
  prepend (some w) ws = w ∷ ws

  effects-cons :
      (t : Turn) (ts : List Turn)
      → effects_in (t ∷ ts) ≡ prepend (effect_of t.event) (effects_in ts)
  unfolding writes
  effects-cons t ts = ground arith

  abbrev counted : Option (Write K V) → ℕ → ℕ
  counted none n = n
  counted (some w) n = (n + 1) % word_mod

  run-prepend :
      (o : Option (Write K V)) (ws : List (Write K V)) (s : Store K V)
      → run dec (prepend o ws) s
        ≡ run dec ws (perform dec show log_errors b decode_key decode_value o s)
  unfolding run
  run-prepend none ws s = refl
  run-prepend (some w) ws s = refl

  counted-prepend :
      (o : Option (Write K V)) (ws : List (Write K V)) (n : ℕ)
      → (counted o n + length ws) % word_mod ≡ (n + length (prepend o ws)) % word_mod
  counted-prepend none ws n = refl
  counted-prepend (some w) ws n = omega arith

  counted-lt : (o : Option (Write K V)) (n : ℕ) → n < word_mod → counted o n < word_mod
  counted-lt none n h = h
  counted-lt (some w) n h = omega arith

  -- one turn
  turn_lem :
      (ev : Event) (now p : ℕ) (c : Cell (Store K V))
      → c.phase ≡ Phase.warmup
      → ((apply_warming reg ev now p (classify reg ev c).0).1.phase ≡ Phase.warmup)
        × ((apply_warming reg ev now p (classify reg ev c).0).1.warmup_applied
            ≡ counted (effect_of ev) c.warmup_applied)
        × ((apply_warming reg ev now p (classify reg ev c).0).1.store
            ≡ perform dec show log_errors b decode_key decode_value (effect_of ev) c.store)
  unfolding apply_warming classify registration_of
  turn_lem (record_read rec) now p c h = ground (
    arith,
    applied-apply_func rec now c h,
    store-apply_func dec show log_errors b decode_key decode_value rec now c,
  )
  turn_lem (eof q offset) now p c h = (h, refl, refl)
  turn_lem idle now p c h = (h, refl, refl)
  turn_lem (failure e f) now p c h = (h, refl, refl)

  warmed-Warm :
      (p : ℕ) (ts : List Turn) (c : Cell (Store K V))
      → c.phase ≡ Phase.warmup
      → c.warmup_applied < word_mod
      → Warm ts c (warmed reg p ts c)
  unfolding warmed writes run
  warmed-Warm p [] c h w = record { phase = h; applied = omega arith; stored = refl }
  warmed-Warm p (t ∷ ts) c h w =
      let next = apply_warming reg t.event t.now p (classify reg t.event c).0 in
      let (phase, applied, stored) = turn_lem t.event t.now p c h in
      let later =
        warmed-Warm next.0 ts next.1 phase
          (rw applied (counted-lt (effect_of t.event) c.warmup_applied w)) in
      record {
        phase = later.phase;
        applied =
            later.applied
            ∙ ap (λ n. (n + length (effects_in ts)) % word_mod) applied
            ∙ counted-prepend (effect_of t.event) (effects_in ts) c.warmup_applied
            ∙ ap (λ ws. (c.warmup_applied + length ws) % word_mod) (sym (effects-cons t ts));
        stored =
            later.stored
            ∙ ap (run dec (effects_in ts)) stored
            ∙ sym (run-prepend (effect_of t.event) (effects_in ts) c.store)
            ∙ ap (λ ws. run dec ws c.store) (sym (effects-cons t ts));
      }

  finish-loaded :
      (took : ℕ) (c c' : Cell (Store K V))
      → finish reg took c ≡ (c', loaded)
      → (c'.phase ≡ Phase.steady)
        × (c'.store ≡ c.store)
        × ((c.warmup_applied ≢ 0) ⊎ (b.allow_empty ≡ true))
  unfolding finish registration_of
  finish-loaded took c c' h = ground arith

  -- A warm-up over the partitions `ps` that has read its topic whole.
  pub record WholeTopic (ps : List ℕ) (turns : List Turn) (c' : Cell (Store K V)) : Type 0 where
    pub heard : List Turn
    pub rest : List Turn
    pub split : turns ≡ heard ++ rest
    pub calm : All Calm heard
    pub all_ended : All (λ p. ended p (events heard) ≡ true) ps
    pub steady : c'.phase ≡ Phase.steady
    pub stored : c'.store ≡ run dec (effects_in heard) new_store
    pub contents :
        (q : K) → Store.get dec q c'.store ≡ last_write dec q (effects_in heard) (none, false)
    pub some_effect : (effects_in heard ≢ []) ⊎ (b.allow_empty ≡ true)

  Completed-WholeTopic :
      (ps : List ℕ) (d : Detection) (timeout : ℤ) (turns : List Turn) (c' : Cell (Store K V))
      → begin partition_eof ps ≡ ok d
      → Completed reg timeout load_progress_every d turns (new_cell new_store) c'
      → WholeTopic ps turns c'
  Completed-WholeTopic ps d timeout turns c' begun done = record {
    heard = done.heard;
    rest = done.rest;
    split = done.split;
    calm = done.calm;
    all_ended = All-ended_of_detected ps d done.heard begun done.detected;
    steady = finished.0;
    stored = finished.1 ∙ warm.stored;
    contents = λ q.
        ap (Store.get dec q) (finished.1 ∙ warm.stored) ∙ (get-run dec (effects_in done.heard) q).0;
    some_effect = ne_nil (effects_in done.heard) _ warm.applied finished.2;
  }
    where
      warm :
          Warm done.heard
            (new_cell new_store)
            (warmed reg load_progress_every done.heard (new_cell new_store))
      warm = warmed-Warm load_progress_every done.heard (new_cell new_store) refl (omega arith)

      finished :
          (c'.phase ≡ Phase.steady)
          × (c'.store ≡ (warmed reg load_progress_every done.heard (new_cell new_store)).store)
          × (((warmed reg load_progress_every done.heard (new_cell new_store)).warmup_applied ≢ 0)
              ⊎ (b.allow_empty ≡ true))
      finished = finish-loaded done.took _ c' done.result

  -- If the warm-up of a registration over a new store, with the partitions `ps` assigned, reports
  -- the topic loaded, then the turns begin with turns `heard` in which the context was never done
  -- and no poll was a fatal failure, every assigned partition reported its end among them, the
  -- phase is steady, `Get` finds under every key what the last effective record of `heard` left
  -- there, and either some record of `heard` was effective or AllowEmpty is set.
  pub warm_up_binding-WholeTopic :
      (timeout : ℤ) (ps : List ℕ) (turns : List Turn) (c' : Cell (Store K V))
      → warm_up_binding reg timeout partition_eof (ok ps) turns (new_cell new_store) ≡ (c', loaded)
      → WholeTopic ps turns c'
  unfolding warm_up_binding begin
  warm_up_binding-WholeTopic timeout ps turns c' h =
      Completed-WholeTopic ps _ timeout turns c' refl
        (warm_loop-Completed reg timeout load_progress_every _ turns (new_cell new_store) c' h)
