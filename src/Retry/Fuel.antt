-- ===== src/Retry/Fuel.antt =====
-- The loop of ExponentialBackoff ends by itself: no fuel beyond the number of steps is used.
use go_containerregistry.Prelude.{
  ℕ, zero, suc, ◌≤◌, ◌≡◌, false, refl, sym, ap, ltb, arith, if◌then◌else◌,
}
use go_containerregistry.Retry.Wait.{
  Backoff, Floats, Condition, step, step_from, backoff_loop, answered, after_sleep, timed_out,
}
use go_containerregistry.Retry.Bounded.{step-bound}

module _ {F : Type 0} (floats : Floats F) where
  no_more_steps :
      (draw : F) (b : Backoff F) (m fuel : ℕ)
      → b.steps ≡ m
      → b.steps ≤ suc fuel
      → (step floats draw b).1.steps ≤ fuel
  unfolding step
  no_more_steps draw b zero fuel h l = rw h (unfold step_from in omega arith)
  no_more_steps draw b (suc n) fuel h l = step-bound floats draw b n fuel h l

module _ {F E S : Type 0} (floats : Floats F) (draws : ℕ → F) where
  none_left :
      (fuel i : ℕ) (condition : Condition E S) (b : Backoff F) (s : S)
      → b.steps ≡ 0
      → backoff_loop floats draws fuel i condition b s ≡ timed_out s
  unfolding backoff_loop
  none_left zero i condition b s h = refl
  none_left (suc fuel) i condition b s h = let l : ltb 0 b.steps ≡ false = ground arith in rw l

  -- Whatever the condition does, the loop gives the same on every fuel that is at least the number
  -- of steps: it ends by its own tests, after at most that many rounds.
  pub backoff_loop-fuel :
      (m n i : ℕ) (condition : Condition E S) (b : Backoff F) (s : S)
      → b.steps ≤ m
      → b.steps ≤ n
      → backoff_loop floats draws m i condition b s ≡ backoff_loop floats draws n i condition b s
  unfolding backoff_loop
  backoff_loop-fuel zero n i condition b s h k = sym (none_left n i condition b s (omega arith))
  backoff_loop-fuel (suc m) zero i condition b s h k =
      none_left (suc m) i condition b s (omega arith)
  backoff_loop-fuel (suc m) (suc n) i condition b s h k =
      ap
        (λ rest.
          if ltb 0 b.steps
          then answered (condition s).0 (condition s).1
              (after_sleep b.steps (step floats (draws i) b).0 (condition s).1 rest)
          else timed_out s)
        (backoff_loop-fuel m n (suc i) condition (step floats (draws i) b).1 (condition s).1
          (no_more_steps floats (draws i) b b.steps m refl h)
          (no_more_steps floats (draws i) b b.steps n refl k))
