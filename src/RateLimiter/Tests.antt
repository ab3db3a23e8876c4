-- ===== src/RateLimiter/Tests.antt =====
-- A semaphore that is a number, and the theorems at a concrete run
-- (ff_data_server/src/rate_limiter.rs).
use mathlib.Core.Option.{some-injective}
use fund_forge.Base.{ℕ, zero, suc, ◌+◌, ◌*◌, ◌≤◌, ◌≡◌, refl, ap, Option, none, some, List, [], ◌∷◌}
use fund_forge.RateLimiter.{
  Semaphore, IsCounting, Action, new_limiter, acquire, read_available, refill, act, run,
}
use fund_forge.RateLimiter.Bounds.{acquired, refills, run-bound}

abbrev take_one : ℕ → Option ℕ
take_one zero = none
take_one (suc n) = some n

instance abbrev counter : Semaphore ℕ
counter = record {
  new_semaphore = λ permits. permits;
  available_permits = λ s. s;
  add_permits = λ permits s. s + permits;
  take_permit = take_one;
}

take_one_lem : (s after : ℕ) → take_one s ≡ some after → s ≡ suc after
take_one_lem zero after h = cc
take_one_lem (suc n) after h = ap suc (some-injective _ _ h)

abbrev counting : IsCounting counter
counting = record {
  available-new = λ permits. refl;
  available-add = λ permits s. refl;
  available-take = take_one_lem;
}

-- One of two permits, a refill during which the other is taken, and one more.
abbrev actions : List Action
actions =
    Action.acquires ∷ Action.reads_available ∷ Action.acquires ∷ Action.adds_permits
    ∷ Action.acquires ∷ []

run-bound_example : (0 ≤ 2) × (acquired actions + 0 ≤ suc (refills actions) * 2)
unfolding run act acquire read_available refill new_limiter
run-bound_example =
    run-bound counting 2 actions (record { semaphore = 0; max_tokens = 2; to_add = none }) refl
