-- ===== src/Retry/Bounded.antt =====
-- How many attempts pkg/internal/retry makes, and which outcome it returns.
use go_containerregistry.Prelude.{
  ℕ, zero, suc, ◌<◌, ◌≤◌, ltb, ◌==◌, ◌≡◌, ◌⊎◌, inl, inr, refl, sym, ap, Bool, true, false, Option,
  none, some, arith, Bool-cases,
}
use go_containerregistry.Retry.Wait.{
  Backoff, Floats, Waited, exponential_backoff, backoff_loop, step, step_from, stepped, capped,
  answered, after_sleep, timed_out,
}
use go_containerregistry.Retry.Attempts.{returned, condition, conditioned, retry}

module _ {F : Type 0} (floats : Floats F) where
  stepped-steps :
      (b : Backoff F) (n : ℕ)
      → ((stepped floats b n).cap ≡ b.cap)
        × (((stepped floats b n).steps ≡ n) ⊎ (((stepped floats b n).steps ≡ 0) × (0 < b.cap)))
  unfolding stepped capped
  stepped-steps b n = ground arith

  step_from-steps :
      (draw : F) (b : Backoff F) (m n : ℕ)
      → m ≡ suc n
      → ((step_from floats draw b m).1.cap ≡ b.cap)
        × (((step_from floats draw b m).1.steps ≡ n)
            ⊎ (((step_from floats draw b m).1.steps ≡ 0) × (0 < b.cap)))
  unfolding step_from
  step_from-steps draw b zero n h = absurd (omega arith)
  step_from-steps draw b (suc m) n h = let e : m ≡ n = omega arith in rw e (stepped-steps b n)

  -- A step takes one from the count, or all of it where there is a cap.
  step-steps :
      (draw : F) (b : Backoff F) (n : ℕ)
      → b.steps ≡ suc n
      → ((step floats draw b).1.cap ≡ b.cap)
        × (((step floats draw b).1.steps ≡ n) ⊎ (((step floats draw b).1.steps ≡ 0) × (0 < b.cap)))
  unfolding step step_from stepped capped
  step-steps draw b n h = step_from-steps draw b b.steps n h

  pub step-bound :
      (draw : F) (b : Backoff F) (n fuel : ℕ)
      → b.steps ≡ suc n
      → b.steps ≤ suc fuel
      → (step floats draw b).1.steps ≤ fuel
  step-bound draw b n fuel h l = elim (step-steps draw b n h).1 [
    | inl e ↦ omega arith
    | inr e ↦ (let z = e.0 in omega arith)
  ]

module _ {S E : Type 0} (f : S → Option E × S) where
  -- the world after `k` attempts
  unfoldable pub after : ℕ → S → S
  after zero s = s
  after (suc k) s = after k (f s).1

  -- the error of the attempt that `k` attempts precede
  abbrev pub outcome : ℕ → S → Option E
  outcome k s = (f (after k s)).0

module _ {F E S : Type 0} (floats : Floats F) (draws : ℕ → F) (f : S → Option E × S)
    (p : Option E → Bool) where
  -- The loop ends after attempt `k`, all the attempts before it were to be retried, and it is
  -- accepted, the last, or cut off by the cap.
  abbrev pub EndsAt : Backoff F → S → S × Option E → Type 0
  EndsAt b s w =
      (k : ℕ) × (k < b.steps)
      × (w ≡ (after f (suc k) s, outcome f k s))
      × ((j : ℕ) → j < k → p (outcome f j s) ≡ true)
      × ((p (outcome f k s) ≡ false) ⊎ (suc k ≡ b.steps) ⊎ (0 < b.cap))

  conditioned-retried :
      (q : Option E × S) → p q.0 ≡ true → conditioned p q ≡ ((false, none), (q.1, q.0))
  unfolding conditioned
  conditioned-retried (e, s) h = rw h

  conditioned-done :
      (q : Option E × S) → p q.0 ≡ false → conditioned p q ≡ ((true, q.0), (q.1, q.0))
  unfolding conditioned
  conditioned-done (e, s) h = rw h

  answered-done :
      (e : Option E) (w : S × Option E) (rest : Waited E (S × Option E))
      → (answered (true, e) w rest).world ≡ w
  unfolding answered
  answered-done none w rest = refl
  answered-done (some e) w rest = refl

  round-done :
      (fuel i : ℕ) (b : Backoff F) (s : S) (e : Option E)
      → 0 < b.steps
      → p (f s).0 ≡ false
      → (backoff_loop floats draws (suc fuel) i (condition f p) b (s, e)).world ≡ ((f s).1, (f s).0)
  unfolding backoff_loop condition
  round-done fuel i b s e h q =
      let l : ltb 0 b.steps ≡ true = ground arith in
      rw (l, conditioned-done (f s) q) (answered-done (f s).0 ((f s).1, (f s).0) _)

  round-last :
      (fuel i : ℕ) (b : Backoff F) (s : S) (e : Option E)
      → b.steps ≡ 1
      → p (f s).0 ≡ true
      → (backoff_loop floats draws (suc fuel) i (condition f p) b (s, e)).world ≡ ((f s).1, (f s).0)
  unfolding backoff_loop condition
  round-last fuel i b s e h q =
      let l : ltb 0 b.steps ≡ true = ground arith in
      let l₁ : (b.steps == 1) ≡ true = ground arith in
      unfold answered after_sleep timed_out in rw (l, conditioned-retried (f s) q, l₁)

  round-again :
      (fuel i : ℕ) (b : Backoff F) (s : S) (e : Option E)
      → 1 < b.steps
      → p (f s).0 ≡ true
      → (backoff_loop floats draws (suc fuel) i (condition f p) b (s, e)).world
        ≡ (backoff_loop floats draws fuel
            (suc i)
            (condition f p)
            (step floats (draws i) b).1
            ((f s).1, (f s).0)).world
  unfolding backoff_loop condition
  round-again fuel i b s e h q =
      let l : ltb 0 b.steps ≡ true = ground arith in
      let l₁ : (b.steps == 1) ≡ false = ground arith in
      unfold answered after_sleep in rw (l, conditioned-retried (f s) q, l₁)

  -- A first attempt that is to be retried, before a loop that ends at a later one.
  later-EndsAt :
      (b b' : Backoff F) (s : S) (w : S × Option E)
      → p (f s).0 ≡ true
      → b'.cap ≡ b.cap
      → suc b'.steps ≡ b.steps
      → EndsAt b' (f s).1 w
      → EndsAt b s w
  unfolding after
  later-EndsAt b b' s w q c n (k, lt, e, before, why) = (suc k, omega arith, e, earlier, last why)
    where
      earlier : (j : ℕ) → j < suc k → p (outcome f j s) ≡ true
      earlier zero lt = q
      earlier (suc j) lt = before j (omega arith)

      last :
          ((p (outcome f k (f s).1) ≡ false) ⊎ (suc k ≡ b'.steps) ⊎ (0 < b'.cap))
          → ((p (outcome f (suc k) s) ≡ false) ⊎ (suc (suc k) ≡ b.steps) ⊎ (0 < b.cap))
      last (inl x) = inl x
      last (inr (inl x)) = inr (inl (omega arith))
      last (inr (inr x)) = inr (inr (rw c at x))

  -- no step is left
  spent :
      (fuel i : ℕ) (b : Backoff F) (w : S × Option E)
      → b.steps ≡ 0
      → (backoff_loop floats draws fuel i (condition f p) b w).world ≡ w
  unfolding backoff_loop timed_out
  spent zero i b w h = refl
  spent (suc fuel) i b w h = let l : ltb 0 b.steps ≡ false = ground arith in rw l

  -- The first attempt is to be retried and is followed by `rest`.
  retried :
      (b : Backoff F) (s : S) (n : ℕ) (b' : Backoff F) (w : S × Option E)
      → 1 < b.steps
      → b.steps ≡ suc n
      → p (f s).0 ≡ true
      → (b'.cap ≡ b.cap) × ((b'.steps ≡ n) ⊎ ((b'.steps ≡ 0) × (0 < b.cap)))
      → (b'.steps ≡ 0 → w ≡ ((f s).1, (f s).0))
      → (0 < b'.steps → EndsAt b' (f s).1 w)
      → EndsAt b s w
  unfolding after
  retried b s n b' w h m q (c, inl e) stop go =
      later-EndsAt b b' s w q c (omega arith) (go (omega arith))
  retried b s n b' w h m q (c, inr (e, x)) stop go =
      (0, omega arith, stop e, λ j lt. absurd (omega arith), inr (inr x))

  predecessor : (m : ℕ) → 0 < m → (m ≡ 1) ⊎ ((n : ℕ) × (1 < m) × (m ≡ suc n))
  predecessor zero h = absurd (omega arith)
  predecessor (suc zero) h = inl refl
  predecessor (suc (suc n)) h = inr (suc n, omega arith, refl)

  backoff_loop-EndsAt :
      (fuel i : ℕ) (b : Backoff F) (s : S) (e : Option E)
      → 0 < b.steps
      → b.steps ≤ fuel
      → EndsAt b s (backoff_loop floats draws fuel i (condition f p) b (s, e)).world
  unfolding after
  backoff_loop-EndsAt zero i b s e h l = absurd (omega arith)
  backoff_loop-EndsAt (suc fuel) i b s e h l = elim (Bool-cases (p (f s).0)) [
    | inr q ↦ (0, h, round-done fuel i b s e h q, λ j lt. absurd (omega arith), inl q)
    | inl q ↦ elim (predecessor b.steps h) [
      | inl x ↦ (0, h, round-last fuel i b s e x q, λ j lt. absurd (omega arith), inr (inl (sym x)))
      | inr (n, more, x) ↦ rw (round-again fuel i b s e more q) (
          retried b s n (step floats (draws i) b).1 _ more x q (step-steps floats (draws i) b n x)
            (λ z. spent fuel (suc i) (step floats (draws i) b).1 ((f s).1, (f s).0) z)
            (λ z.
              backoff_loop-EndsAt fuel (suc i) (step floats (draws i) b).1 (f s).1 (f s).0 z
                (step-bound floats (draws i) b n fuel x l)))
    ]
  ]

  -- With at least one step, Retry calls the function until an attempt `k` below the number of steps
  -- and returns that attempt's error, in the world it left. Every attempt before it was one to be
  -- retried, and it is itself not to be retried, or the last that the steps allow, or there is a
  -- cap, which may end the attempts.
  pub retry-EndsAt :
      (b : Backoff F) (s : S)
      → 0 < b.steps
      → (k : ℕ) × (k < b.steps)
        × (retry floats draws (some f) (some p) b s ≡ (returned (outcome f k s), after f (suc k) s))
        × ((j : ℕ) → j < k → p (outcome f j s) ≡ true)
        × ((p (outcome f k s) ≡ false) ⊎ (suc k ≡ b.steps) ⊎ (0 < b.cap))
  unfolding retry exponential_backoff
  retry-EndsAt b s h = shown (backoff_loop-EndsAt b.steps 0 b s none h (omega arith))
    where
      shown :
          EndsAt b s (backoff_loop floats draws b.steps 0 (condition f p) b (s, none)).world
          → (k : ℕ) × (k < b.steps)
            × (retry floats draws (some f) (some p) b s
                ≡ (returned (outcome f k s), after f (suc k) s))
            × ((j : ℕ) → j < k → p (outcome f j s) ≡ true)
            × ((p (outcome f k s) ≡ false) ⊎ (suc k ≡ b.steps) ⊎ (0 < b.cap))
      shown (k, lt, e, before, why) = (k, lt, ap (λ w. (returned w.1, w.0)) e, before, why)

  -- Without a step, Retry does not call the function and returns nil.
  pub retry-no_steps :
      (b : Backoff F) (s : S)
      → b.steps ≡ 0
      → retry floats draws (some f) (some p) b s ≡ (returned none, s)
  unfolding retry exponential_backoff
  retry-no_steps b s h = ap (λ w. (returned w.1, w.0)) (spent b.steps 0 b (s, none) h)
