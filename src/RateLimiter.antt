-- ===== src/RateLimiter.antt =====
-- The limiter of the rate of requests to a broker (ff_data_server/src/rate_limiter.rs).
pub mod Bounds
pub mod Tests
use fund_forge.Base.{ℕ, zero, suc, ◌+◌, ◌-◌, ◌≡◌, Option, none, some, List, [], ◌∷◌}
use fund_forge.Base.Tests.{◌>>=◌}

-- The semaphore of the crate tokio, of which the limiter calls these operations.
pub record Semaphore (S : Type 0) : Type 0 where
  pub new_semaphore : (permits : ℕ) → S
  pub available_permits : S → ℕ
  pub add_permits : (permits : ℕ) → S → S
  -- `acquire().await` and `forget`; `none` while it waits
  pub take_permit : S → Option S

-- The semaphore counts its permits.
pub record IsCounting {S : Type 0} (q : Semaphore S) : Type 0 where
  pub available-new : (permits : ℕ) → q.available_permits (q.new_semaphore permits) ≡ permits
  pub available-add :
      (permits : ℕ) (s : S)
      → q.available_permits (q.add_permits permits s) ≡ q.available_permits s + permits
  pub available-take :
      (s after : S)
      → q.take_permit s ≡ some after
      → q.available_permits s ≡ suc (q.available_permits after)

-- The limiter, and what its task has read of the semaphore but not added to it yet.
pub record RateLimiter (S : Type 0) : Type 0 where
  pub semaphore : S
  pub max_tokens : ℕ
  pub to_add : Option ℕ

-- What happens next: a caller acquires a permit, or the task does one of the two calls of a refill,
-- between which callers may acquire permits.
pub data Action : Type 0 where
  acquires reads_available adds_permits : Action

module _ {S : Type 0} ⦃q : Semaphore S⦄ where
  unfoldable pub new_limiter : (max_tokens : ℕ) → RateLimiter S
  new_limiter max_tokens = record {
    semaphore = q.new_semaphore max_tokens;
    max_tokens = max_tokens;
    to_add = none;
  }

  unfoldable pub acquire : RateLimiter S → Option (RateLimiter S)
  acquire l = do after ← q.take_permit l.semaphore; some (record l { semaphore = after })

  unfoldable pub read_available : RateLimiter S → Option (RateLimiter S)
  read_available l = elim l.to_add [
    | none ↦ some (record l { to_add = some (l.max_tokens - q.available_permits l.semaphore) })
    | some _ ↦ none
  ]

  unfoldable pub refill : RateLimiter S → Option (RateLimiter S)
  refill l = elim l.to_add [
    | none ↦ none
    | some permits ↦
        some (record l { semaphore = q.add_permits permits l.semaphore; to_add = none })
  ]

  -- `none` for an action that cannot happen yet.
  unfoldable pub act : Action → RateLimiter S → Option (RateLimiter S)
  unfolding acquire read_available refill
  act Action.acquires l = acquire l
  act Action.reads_available l = read_available l
  act Action.adds_permits l = refill l

  unfoldable pub run : List Action → RateLimiter S → Option (RateLimiter S)
  run [] l = some l
  run (a ∷ actions) l = act a l >>= run actions
