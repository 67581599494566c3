-- ===== src/Errors.antt =====
-- errors.go and internal/driver/errors.go: the sentinel errors, Go's wrapped and joined errors as a
-- tree, `errors.Is` and `errors.Join`.
use easykafka_config_go.Prelude.{
  ℕ, ◌≡◌, refl, Bool, true, false, ◌||◌, Option, none, some, List, [], ◌∷◌, map, ite, if_pos, any,
  All, ap, ◌∙◌,
}

-- A Go string, and the content of a byte slice, as its bytes.
abbrev pub Bytes : Type 0
Bytes = List ℕ

-- The package's sentinels, the driver's, the two of the package `context` and the two
-- of `strconv`.
pub data Sentinel : Type 0 where
  invalid_binding empty_topic warmup_timeout bind_after_start : Sentinel
  already_started no_bindings unknown_binding : Sentinel
  closed topic_not_found not_assigned : Sentinel
  deadline_exceeded canceled : Sentinel
  invalid_syntax value_out_of_range : Sentinel

pub Sentinel-discrete : Discrete Sentinel
Sentinel-discrete = hlevel

-- What a layer adds in front of an error by `fmt.Errorf("…: %w", …)`.
pub data Context : Type 0 where
  package_name warm_up_failed driver_config detail : Context
  binding : Bytes → Context
  binding_on_topic : Bytes → Bytes → Context
  preparing_detection : Bytes → Context
  decoding_key : Bytes → Bytes → Context
  after_duration : Context

-- `problem` is an `errors.New` in place, numbered by what it says; `foreign` is an error of code
-- outside the repository, such as Kafka's.
mutual
  pub data Err : Type 0 where
    sentinel : Sentinel → Err
    problem : ℕ → Err
    foreign : ℕ → Err
    wrap : Context → Err → Err
    join : Errs → Err

  pub data Errs : Type 0 where
    nil : Errs
    cons : Err → Errs → Errs

abbrev pub same_sentinel : Sentinel → Sentinel → Bool
same_sentinel s t = ite (Sentinel-discrete s t) true false

-- The results `(a, nil)` and `(_, err)` of a fallible function.
pub data Result {ℓ} (A : Type ℓ) : Type ℓ where
  ok : A → Result A
  err : Err → Result A

-- `errors.Is(err, s)`, which unwraps both `Unwrap() error` and `Unwrap() []error`.
unfoldable mutual
  pub is : Sentinel → Err → Bool
  is s (sentinel t) = same_sentinel t s
  is s (problem _) = false
  is s (foreign _) = false
  is s (wrap _ e) = is s e
  is s (join es) = is_any s es

  pub is_any : Sentinel → Errs → Bool
  is_any s nil = false
  is_any s (cons e es) = is s e || is_any s es

-- The list that `errors.Join` keeps: its arguments without the nil ones.
unfoldable pub non_nil : List (Option Err) → Errs
non_nil [] = nil
non_nil (none ∷ rs) = non_nil rs
non_nil (some e ∷ rs) = cons e (non_nil rs)

abbrev joined : Errs → Option Err
joined nil = none
joined (cons e es) = some (join (cons e es))

-- `errors.Join(rs...)`: nil if every argument is nil.
unfoldable pub join_errors : List (Option Err) → Option Err
unfolding non_nil
join_errors rs = joined (non_nil rs)

pub same_sentinel_refl : (s : Sentinel) → same_sentinel s s ≡ true
same_sentinel_refl s = if_pos (Sentinel-discrete s s) refl true false

-- No error joined is no error.
pub none-join_errors : (es : List Err) → join_errors (map some es) ≡ none → es ≡ []
unfolding join_errors
none-join_errors [] h = refl
none-join_errors (e ∷ es) h = cc

-- whether an optional error is the sentinel, `errors.Is(err, s)` with a nil error
abbrev pub is_option : Sentinel → Option Err → Bool
is_option s none = false
is_option s (some e) = is s e

is_any-non_nil :
    (s : Sentinel) (rs : List (Option Err)) → is_any s (non_nil rs) ≡ any (is_option s) rs
unfolding is_any non_nil
is_any-non_nil s [] = refl
is_any-non_nil s (none ∷ rs) = is_any-non_nil s rs
is_any-non_nil s (some e ∷ rs) = ap (λ b. is s e || b) (is_any-non_nil s rs)

-- `errors.Is` finds a sentinel in joined errors exactly if it finds it in one of them.
pub is-join_errors :
    (s : Sentinel) (rs : List (Option Err)) → is_option s (join_errors rs) ≡ any (is_option s) rs
unfolding join_errors
is-join_errors s rs = joined_lem (non_nil rs) ∙ is_any-non_nil s rs
  where
    joined_lem : (es : Errs) → is_option s (joined es) ≡ is_any s es
    joined_lem nil = unfold is_any in refl
    joined_lem (cons e es) = unfold is in refl

-- Joining gives no error exactly if there is none to join.
pub join_errors-none : (rs : List (Option Err)) → join_errors rs ≡ none → All (λ r. r ≡ none) rs
unfolding join_errors non_nil
join_errors-none [] h = tt
join_errors-none (none ∷ rs) h = (refl, join_errors-none rs h)
join_errors-none (some e ∷ rs) h = cc
