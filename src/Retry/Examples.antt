-- ===== src/Retry/Examples.antt =====
-- Three attempts, of which the last succeeds.
use go_containerregistry.Prelude.{
  ℕ, suc, ◌+◌, ◌*◌, ◌<◌, ◌==◌, ◌≡◌, ◌⊎◌, Bool, true, false, Option, none, some, ltb, arith,
  if◌then◌else◌,
}
use go_containerregistry.Retry.Wait.{Floats, backoff_loop}
use go_containerregistry.Retry.Attempts.{condition, returned, retry, default_backoff}
use go_containerregistry.Retry.Fuel.{backoff_loop-fuel}
use go_containerregistry.Retry.Bounded.{after, outcome, retry-EndsAt}

-- natural numbers in the place of float64
abbrev toy_floats : Floats ℕ
toy_floats = record {
  is_zero = λ f. f == 0;
  is_positive = λ f. ltb 0 f;
  one = 1;
  scale = λ d f. d * f;
  spread = λ r f d. r * f * d;
}

abbrev no_draws : ℕ → ℕ
no_draws i = 0

-- fails, with the number of the attempt as the error, until the third attempt
abbrev third_time : ℕ → Option ℕ × ℕ
third_time n = (if ltb n 2 then some n else none, n + 1)

abbrev is_some : Option ℕ → Bool
is_some none = false
is_some (some n) = true

retry-EndsAt_example :
    (k : ℕ) × (k < 5)
    × (retry toy_floats no_draws (some third_time) (some is_some) (default_backoff 3 0) 0
        ≡ (returned (outcome third_time k 0), after third_time (suc k) 0))
    × ((j : ℕ) → j < k → is_some (outcome third_time j 0) ≡ true)
    × ((is_some (outcome third_time k 0) ≡ false) ⊎ (suc k ≡ 5) ⊎ (0 < 0))
retry-EndsAt_example =
    retry-EndsAt toy_floats no_draws third_time is_some (default_backoff 3 0) 0 (omega arith)

backoff_loop-fuel_example :
    backoff_loop toy_floats no_draws 9 0
      (condition third_time is_some)
      (default_backoff 3 0)
      (0, none)
    ≡ backoff_loop toy_floats no_draws 5 0
        (condition third_time is_some)
        (default_backoff 3 0)
        (0, none)
backoff_loop-fuel_example =
    backoff_loop-fuel toy_floats no_draws 9 5 0 (condition third_time is_some) (default_backoff 3 0)
      (0, none) (omega arith) (omega arith)
