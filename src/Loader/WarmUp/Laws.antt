-- ===== src/Loader/WarmUp/Laws.antt =====
-- The turns that a warm-up of loader.go has heard, and the state that they leave.
use easykafka_config_go.Prelude.{
  ℕ, ◌≡◌, refl, Bool, true, false, none, List, [], ◌∷◌, ◌++◌, map, All, arith, ◌∙◌, sym, ap,
}
use easykafka_config_go.Prelude.Words.{ℤ}
use easykafka_config_go.Driver.Event.{Event, failure}
use easykafka_config_go.Registration.{Cell, Registration}
use easykafka_config_go.Detect.{Detection, observe}
use easykafka_config_go.Detect.Laws.{observe_all}
use easykafka_config_go.Loader.WarmUp.{
  Turn, Outcome, running, failed, loaded, Next, stop, go_on, classify, apply_warming, finish,
  after_poll, round, warm_loop,
}

abbrev pub is_fatal : Event → Bool
is_fatal (failure e fatal) = fatal
is_fatal _ = false

-- the context is not done, and the poll is no fatal failure
abbrev pub Calm : Turn → Type 0
Calm t = (t.ctx_err ≡ none) × (is_fatal t.event ≡ false)

abbrev pub events : List Turn → List Event
events = map (λ t. t.event)

module _ {S A : Type 0} (reg : Registration S A) where
  -- The state after turns in which nothing stops the loop: each record is applied.
  unfoldable pub warmed : ℕ → List Turn → Cell S → Cell S
  warmed p [] c = c
  warmed p (t ∷ ts) c =
      let (p', c') = apply_warming reg t.event t.now p (classify reg t.event c).0 in warmed p' ts c'

  module _ (timeout : ℤ) where
    round-go_on :
        (p : ℕ) (d : Detection) (t : Turn) (c : Cell S) {p' : ℕ} {d' : Detection} {c' : Cell S}
        → round reg timeout p d t c ≡ go_on p' d' c'
        → Calm t
          × (observe t.event d ≡ (d', false))
          × (apply_warming reg t.event t.now p (classify reg t.event c).0 ≡ (p', c'))
    unfolding round after_poll classify
    round-go_on p d t c h = ground arith

    round-loaded :
        (p : ℕ) (d : Detection) (t : Turn) (c : Cell S) {c' : Cell S}
        → round reg timeout p d t c ≡ stop c' loaded
        → Calm t
          × ((observe t.event d).1 ≡ true)
          × (finish reg t.took (apply_warming reg t.event t.now p (classify reg t.event c).0).1
              ≡ (c', loaded))
    unfolding round after_poll classify
    round-loaded p d t c h = ground arith

    -- The turns that a successful loop has used.
    pub record Completed (p : ℕ) (d : Detection) (turns : List Turn) (c c' : Cell S) : Type 0 where
      pub heard : List Turn
      pub rest : List Turn
      pub took : ℕ
      pub split : turns ≡ heard ++ rest
      pub calm : All Calm heard
      pub detected : (observe_all (events heard) (d, false)).1 ≡ true
      pub result : finish reg took (warmed p heard c) ≡ (c', loaded)

    Completed-stop :
        (p : ℕ) (d : Detection) (t : Turn) (ts : List Turn) (c : Cell S) {c' : Cell S}
        → round reg timeout p d t c ≡ stop c' loaded
        → Completed p d (t ∷ ts) c c'
    unfolding warmed observe_all
    Completed-stop p d t ts c e =
        let (calm, seen, result) = round-loaded p d t c e in
        record {
          heard = t ∷ [];
          rest = ts;
          took = t.took;
          split = refl;
          calm = (calm, tt);
          detected = seen;
          result = result;
        }

    Completed-go_on :
        (p : ℕ) (d : Detection) (t : Turn) (ts : List Turn) (c : Cell S) (c' : Cell S) {p' : ℕ}
        {d' : Detection} {c1 : Cell S}
        → round reg timeout p d t c ≡ go_on p' d' c1
        → Completed p' d' ts c1 c'
        → Completed p d (t ∷ ts) c c'
    unfolding warmed observe_all
    Completed-go_on p d t ts c c' e later =
        let (calm, unseen, applied) = round-go_on p d t c e in
        record {
          heard = t ∷ later.heard;
          rest = later.rest;
          took = later.took;
          split = ap (◌∷◌ t) later.split;
          calm = (calm, later.calm);
          detected = ap (λ r. (observe_all (events later.heard) r).1) unseen ∙ later.detected;
          result =
              ap (λ r. finish reg later.took (warmed r.0 later.heard r.1)) applied ∙ later.result;
        }

    pub warm_loop-stop :
        (p : ℕ) (d : Detection) (t : Turn) (ts : List Turn) (c : Cell S) {c1 : Cell S} {o : Outcome}
        → round reg timeout p d t c ≡ stop c1 o
        → warm_loop reg timeout p d (t ∷ ts) c ≡ (c1, o)
    unfolding warm_loop
    warm_loop-stop p d t ts c e = ground arith

    pub warm_loop-go_on :
        (p : ℕ) (d : Detection) (t : Turn) (ts : List Turn) (c : Cell S) {p' : ℕ} {d' : Detection}
        {c1 : Cell S}
        → round reg timeout p d t c ≡ go_on p' d' c1
        → warm_loop reg timeout p d (t ∷ ts) c ≡ warm_loop reg timeout p' d' ts c1
    unfolding warm_loop
    warm_loop-go_on p d t ts c e = ground arith

    -- A loop that ends with the topic loaded has used turns up to the one that completed the
    -- detection.
    pub warm_loop-Completed :
        (p : ℕ) (d : Detection) (turns : List Turn) (c c' : Cell S)
        → warm_loop reg timeout p d turns c ≡ (c', loaded)
        → Completed p d turns c c'
    unfolding warm_loop
    warm_loop-Completed p d [] c c' h = absurd (ground arith)
    warm_loop-Completed p d (t ∷ ts) c c' h =
        by_round (round reg timeout p d t c) refl (λ p' d' c1. warm_loop-Completed p' d' ts c1 c')
      where
        by_round :
            (n : Next S)
            → round reg timeout p d t c ≡ n
            → ((p' : ℕ) (d' : Detection) (c1 : Cell S)
                → warm_loop reg timeout p' d' ts c1 ≡ (c', loaded)
                → Completed p' d' ts c1 c')
            → Completed p d (t ∷ ts) c c'
        by_round (stop c1 running) e ih =
            absurd (ground (arith, sym (warm_loop-stop p d t ts c e) ∙ h))
        by_round (stop c1 (failed x)) e ih =
            absurd (ground (arith, sym (warm_loop-stop p d t ts c e) ∙ h))
        by_round (stop c1 loaded) e ih =
            Completed-stop p d t ts c
              (e ∙ ap (λ r. stop r.0 loaded) (sym (warm_loop-stop p d t ts c e) ∙ h))
        by_round (go_on p' d' c1) e ih =
            Completed-go_on p d t ts c c' e (ih p' d' c1 (sym (warm_loop-go_on p d t ts c e) ∙ h))
