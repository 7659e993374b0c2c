-- ===== src/Retry/Attempts.antt =====
-- pkg/internal/retry/retry.go and pkg/v1/remote/transport/retry.go.
use go_containerregistry.Prelude.{
  ℕ, Bool, true, false, List, [], ◌∷◌, Option, none, some, if◌then◌else◌,
}
use go_containerregistry.Retry.Wait.{Backoff, Floats, Condition, exponential_backoff}

-- What Retry returns, `returned none` being nil.
pub data Retried (E : Type 0) : Type 0 where
  nil_f : Retried E
  nil_p : Retried E
  returned : Option E → Retried E

module _ {E S : Type 0} where
  -- The condition of Retry: the function is called, and its error is assigned to `err`.
  unfoldable pub conditioned : (Option E → Bool) → Option E × S → (Bool × Option E) × (S × Option E)
  conditioned p (e, s) = if p e then ((false, none), (s, e)) else ((true, e), (s, e))

  unfoldable pub condition : (S → Option E × S) → (Option E → Bool) → Condition E (S × Option E)
  unfolding conditioned
  condition f p (s, e) = conditioned p (f s)

module _ {F E S : Type 0} (floats : Floats F) (draws : ℕ → F) where
  -- Retry
  unfoldable pub retry :
      Option (S → Option E × S) → Option (Option E → Bool) → Backoff F → S → Retried E × S
  retry none p backoff s = (nil_f, s)
  retry (some f) none backoff s = (nil_p, s)
  retry (some f) (some p) backoff s =
      let w = (exponential_backoff floats draws (condition f p) backoff (s, none)).world in
      (returned w.1, w.0)

-- IsTemporary, for errors of which some are the deadline's and some have a method Temporary
unfoldable pub is_temporary : {E : Type 0} → (E → Bool) → (E → Option Bool) → Option E → Bool
is_temporary is_deadline has_temporary none = false
is_temporary is_deadline has_temporary (some e) =
    if is_deadline e then false else elim (has_temporary e) [ none ↦ false | some t ↦ t ]

pub record Options (F E : Type 0) : Type 0 where
  pub backoff : Backoff F
  pub predicate : Option E → Bool

-- A functional option of NewRetry.
pub data RetryOption (F E : Type 0) : Type 0 where
  with_retry_backoff : Backoff F → RetryOption F E
  with_retry_predicate : (Option E → Bool) → RetryOption F E

-- The options that NewRetry applies to its defaults.
unfoldable pub make_options : {F E : Type 0} → Options F E → List (RetryOption F E) → Options F E
make_options o [] = o
make_options o (with_retry_backoff b ∷ opts) = make_options (record o { backoff = b }) opts
make_options o (with_retry_predicate p ∷ opts) = make_options (record o { predicate = p }) opts

-- Sleep for 0.1, 0.3, 0.9, 2.7 seconds; the durations are in nanoseconds.
abbrev pub default_backoff : {F : Type 0} → F → F → Backoff F
default_backoff factor jitter = record {
  duration = 100000000;
  factor = factor;
  jitter = jitter;
  steps = 5;
  cap = 0;
}

module _ {F E S R : Type 0} (floats : Floats F) (draws : ℕ → F) where
  -- The function `roundtrip`, which assigns the response to `out`.
  assigned : (Option R × Option E) × S → Option E × (S × Option R)
  assigned ((out, e), s) = (e, (s, out))

  unfoldable pub roundtrip :
      (S → (Option R × Option E) × S) → S × Option R → Option E × (S × Option R)
  unfolding assigned
  roundtrip inner (s, out) = assigned (inner s)

  -- retryTransport.RoundTrip
  unfoldable pub round_trip :
      (S → (Option R × Option E) × S) → Options F E → S → Retried E × (S × Option R)
  round_trip inner t s =
      retry floats draws (some (roundtrip inner)) (some t.predicate) t.backoff (s, none)
