-- ===== src/RateLimiter/Bounds.antt =====
-- The permits of the limiter over every interleaving of its callers and its task
-- (ff_data_server/src/rate_limiter.rs).
use fund_forge.Base.{
  ℕ, suc, ◌+◌, ◌*◌, ◌≤◌, ◌≡◌, refl, inl, inr, Option, none, some, List, [], ◌∷◌, arith,
}
use fund_forge.Base.Tests.{Option-cases, Always, Always-map, Always-some, >>=-Always_eq}
use fund_forge.RateLimiter.{
  Semaphore, IsCounting, RateLimiter, Action, new_limiter, acquire, read_available, refill, act,
  run,
}

-- How many permits a sequence of actions acquires, and how often it refills them.
abbrev pub acquired : List Action → ℕ
acquired [] = 0
acquired (Action.acquires ∷ actions) = suc (acquired actions)
acquired (_ ∷ actions) = acquired actions

abbrev pub refills : List Action → ℕ
refills [] = 0
refills (Action.adds_permits ∷ actions) = suc (refills actions)
refills (_ ∷ actions) = refills actions

abbrev pending : Option ℕ → ℕ
pending none = 0
pending (some permits) = permits

module _ {S : Type 0} ⦃q : Semaphore S⦄ (counts : IsCounting q) where
  -- The permits that are there and those that the task is about to add are at most the maximum.
  abbrev IsBounded : ℕ → RateLimiter S → Type 0
  IsBounded most l =
      (l.max_tokens ≡ most) × (q.available_permits l.semaphore + pending l.to_add ≤ most)

  act-IsBounded :
      (most : ℕ) (a : Action) (l : RateLimiter S)
      → IsBounded most l
      → Always (IsBounded most) (act a l)
  unfolding act acquire read_available refill
  act-IsBounded most Action.acquires l (same, bound) =
      >>=-Always_eq (IsBounded most) (q.take_permit l.semaphore) _
        λ after taken. (same, omega (arith, counts.available-take l.semaphore after taken))
  act-IsBounded most Action.reads_available l (same, bound) = elim (Option-cases l.to_add) [
    | inl idle ↦ rw (read_available, idle) (same, omega (arith, same, rw idle at bound))
    | inr (k, busy) ↦ rw (read_available, busy) tt
  ]
  act-IsBounded most Action.adds_permits l (same, bound) = elim (Option-cases l.to_add) [
    | inl idle ↦ rw (refill, idle) tt
    | inr (k, busy) ↦
        rw (refill, busy)
          (same, omega (arith, counts.available-add k l.semaphore, rw busy at bound))
  ]

  act-acquired :
      (most : ℕ) (a : Action) (actions : List Action) (l : RateLimiter S)
      → IsBounded most l
      → Always
          (λ after.
            (r : ℕ)
            → acquired actions + r ≤ q.available_permits after.semaphore + refills actions * most
            → acquired (a ∷ actions) + r
              ≤ q.available_permits l.semaphore + refills (a ∷ actions) * most)
          (act a l)
  unfolding act acquire read_available refill
  act-acquired most Action.acquires actions l (same, bound) =
      >>=-Always_eq _ (q.take_permit l.semaphore) _
        λ after taken r h. omega (arith, counts.available-take l.semaphore after taken, h)
  act-acquired most Action.reads_available actions l (same, bound) = elim (Option-cases l.to_add) [
    | inl idle ↦ rw (read_available, idle) λ r h. h
    | inr (k, busy) ↦ rw (read_available, busy) tt
  ]
  act-acquired most Action.adds_permits actions l (same, bound) = elim (Option-cases l.to_add) [
    | inl idle ↦ rw (refill, idle) tt
    | inr (k, busy) ↦
        rw (refill, busy)
          λ r h. omega (arith, h, counts.available-add k l.semaphore, rw busy at bound)
  ]

  run-IsBounded :
      (most : ℕ) (actions : List Action) (l : RateLimiter S)
      → IsBounded most l
      → Always
          (λ after.
            IsBounded most after
            × (acquired actions + q.available_permits after.semaphore
                ≤ q.available_permits l.semaphore + refills actions * most))
          (run actions l)
  unfolding run
  run-IsBounded most [] l h = (h, omega arith)
  run-IsBounded most (a ∷ actions) l h = >>=-Always_eq _ (act a l) _ λ after done.
      Always-map _ _ (run actions after)
        (run-IsBounded most actions after
          (Always-some (IsBounded most) (act a l) (act-IsBounded most a l h) done))
        λ final (bounded, spent).
          (bounded, Always-some _ (act a l) (act-acquired most a actions l h) done _ spent)

  -- Over every interleaving of callers and refills that is possible, if the semaphore counts, no
  -- more permits are there than the maximum, and no more are acquired than the maximum for the
  -- start and for every refill.
  pub run-bound :
      (most : ℕ) (actions : List Action) (after : RateLimiter S)
      → run actions (new_limiter most) ≡ some after
      → (q.available_permits after.semaphore ≤ most)
        × (acquired actions + q.available_permits after.semaphore ≤ suc (refills actions) * most)
  unfolding new_limiter
  run-bound most actions after ends =
      let ((same, bound), spent) =
        Always-some _ (run actions (new_limiter most))
          (run-IsBounded most actions (new_limiter most)
            (refl, omega (arith, counts.available-new most)))
          ends in
      (omega (arith, bound), omega (arith, spent, counts.available-new most))
