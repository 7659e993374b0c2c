-- ===== src/Retry/Wait.antt =====
-- pkg/internal/retry/wait/kubernetes_apimachinery_wait.go, pkg/internal/retry/retry.go and the
-- round trip of pkg/v1/remote/transport/retry.go. The world that the attempts act on is an explicit
-- state; a sleep is kept as its duration, and the random numbers are a sequence of draws. Durations
-- are not negative, and a step count that is not positive is zero.
use go_containerregistry.Prelude.{
  ℕ, zero, suc, ◌+◌, ltb, ◌==◌, Bool, true, false, not, List, [], ◌∷◌, Option, none, some,
  if◌then◌else◌,
}

pub record Backoff (F : Type 0) : Type 0 where
  pub duration : ℕ
  pub factor : F
  pub jitter : F
  pub steps : ℕ
  pub cap : ℕ

-- The arithmetic on float64 that the package uses.
pub record Floats (F : Type 0) : Type 0 where
  pub is_zero : F → Bool
  pub is_positive : F → Bool
  pub one : F
  -- `time.Duration(float64(d) * f)`
  pub scale : ℕ → F → ℕ
  -- `time.Duration(r * maxFactor * float64(d))`
  pub spread : F → F → ℕ → ℕ

module _ {F : Type 0} (floats : Floats F) where
  -- Jitter, with the number that rand.Float64 returns
  unfoldable pub jitter : F → ℕ → F → ℕ
  jitter draw duration max_factor =
      duration
      + floats.spread draw (if floats.is_positive max_factor then max_factor else floats.one)
          duration

  -- `if b.Jitter > 0 { duration = Jitter(duration, b.Jitter) }`
  unfoldable pub jittered : F → ℕ → F → ℕ
  unfolding jitter
  jittered draw duration factor =
      if floats.is_positive factor then jitter draw duration factor else duration

  -- `b` with one step less and its next duration, before the cap is applied
  unfoldable pub capped : Backoff F → ℕ → ℕ → Backoff F
  capped b steps next =
      if ltb 0 b.cap
      then (if ltb b.cap next
          then record b { duration = b.cap; steps = 0 }
          else record b { duration = next; steps = steps })
      else record b { duration = next; steps = steps }

  unfoldable pub stepped : Backoff F → ℕ → Backoff F
  unfolding capped
  stepped b steps =
      if not (floats.is_zero b.factor)
      then capped b steps (floats.scale b.duration b.factor)
      else record b { steps = steps }

  -- Backoff.Step: the time to sleep, and the receiver afterwards
  unfoldable pub step_from : F → Backoff F → ℕ → ℕ × Backoff F
  unfolding jittered stepped
  step_from draw b zero = (jittered draw b.duration b.jitter, b)
  step_from draw b (suc steps) = (jittered draw b.duration b.jitter, stepped b steps)

  unfoldable pub step : F → Backoff F → ℕ × Backoff F
  unfolding step_from
  step draw b = step_from draw b b.steps

-- What the loop leaves behind: the error it returns (`none` is nil), the world, and its sleeps.
pub data WaitError (E : Type 0) : Type 0 where
  failed : E → WaitError E
  wait_timeout : WaitError E

pub record Waited (E S : Type 0) : Type 0 where
  pub error : Option (WaitError E)
  pub world : S
  pub slept : List ℕ

-- A ConditionFunc: whether it is done, and its error.
abbrev pub Condition : Type 0 → Type 0 → Type 0
Condition E S = S → (Bool × Option E) × S

module _ {E S : Type 0} where
  unfoldable pub timed_out : S → Waited E S
  timed_out s = record { error = some wait_timeout; world = s; slept = [] }

  -- The branch on what the condition answered, `rest` being the next rounds of the loop.
  unfoldable pub answered : (Bool × Option E) → S → Waited E S → Waited E S
  answered (done, some e) s rest = record { error = some (failed e); world = s; slept = [] }
  answered (true, none) s rest = record { error = none; world = s; slept = [] }
  answered (false, none) s rest = rest

  -- `if backoff.Steps == 1 { break }; time.Sleep(backoff.Step())`
  unfoldable pub after_sleep : ℕ → ℕ → S → Waited E S → Waited E S
  unfolding timed_out
  after_sleep steps slept s rest =
      if steps == 1 then timed_out s else record rest { slept = slept ∷ rest.slept }

module _ {F E S : Type 0} (floats : Floats F) (draws : ℕ → F) where
  -- The loop of ExponentialBackoff on fuel, from the draw with the number `i`.
  unfoldable pub backoff_loop : ℕ → ℕ → Condition E S → Backoff F → S → Waited E S
  unfolding answered after_sleep timed_out
  backoff_loop zero i condition b s = timed_out s
  backoff_loop (suc fuel) i condition b s =
      let rest = backoff_loop fuel (suc i) condition (step floats (draws i) b).1 (condition s).1 in
      if ltb 0 b.steps
      then answered (condition s).0 (condition s).1
          (after_sleep b.steps (step floats (draws i) b).0 (condition s).1 rest)
      else timed_out s

  -- ExponentialBackoff: every step takes at least one from the count, which is the fuel
  unfoldable pub exponential_backoff : Condition E S → Backoff F → S → Waited E S
  unfolding backoff_loop
  exponential_backoff condition b s = backoff_loop b.steps 0 condition b s
