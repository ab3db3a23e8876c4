-- ===== src/Matching/Loops.antt =====
-- The loops of the matching engine over its lists
-- (ff_standard_lib/src/strategies/handlers/market_handler/backtest_matching_engine.rs).
use fund_forge.Base.{◌≡◌, inl, inr, Bool, true, Option, List, [], ◌∷◌}
use fund_forge.Base.Tests.{Bool-cases, Always, >>=-Always, >>=-Always_any}
use fund_forge.Base.Lists.{All, any}
use fund_forge.Decimal.{Decimal}
use fund_forge.Matching.{Engine, Moment}
use fund_forge.Matching.Requests.{EngineMessage, handle_message, run_engine}
use fund_forge.Matching.Settlement.{for_each, try_each}

module _ {D : Type 0} ⦃d : Decimal D⦄ (P : Engine D → Type 0) where
  pub for_each_invariant {ℓ} :
      {A : Type ℓ} (call : A → Engine D → Engine D) (items : List A) (e : Engine D)
      → ((a : A) (e : Engine D) → P e → P (call a e))
      → P e
      → P (for_each call items e)
  unfolding for_each
  for_each_invariant call [] e k h = h
  for_each_invariant call (a ∷ items) e k h = for_each_invariant call items (call a e) k (k a e h)

  pub try_each-Always {ℓ} :
      {A : Type ℓ} (call : A → Engine D → Option (Engine D)) (items : List A) (e : Engine D)
      → ((a : A) (e : Engine D) → P e → Always P (call a e))
      → P e
      → Always P (try_each call items e)
  unfolding try_each
  try_each-Always call [] e k h = h
  try_each-Always call (a ∷ items) e k h =
      >>=-Always P P (call a e) _ (k a e h) λ after kept. try_each-Always call items after k kept

  pub run_engine-Always :
      (messages : List (Moment D × EngineMessage D)) (e : Engine D)
      → ((m : Moment D) (message : EngineMessage D) (e : Engine D)
          → P e
          → Always P (handle_message m message e))
      → P e
      → Always P (run_engine messages e)
  unfolding run_engine
  run_engine-Always [] e k h = h
  run_engine-Always ((m, message) ∷ messages) e k h =
      >>=-Always P P (handle_message m message e) _ (k m message e h)
        λ after kept. run_engine-Always messages after k kept

  -- The same when the items have a property that the calls rely on.
  pub for_each-All {ℓ} :
      {A : Type ℓ} (Q : A → Type 0) (call : A → Engine D → Engine D) (items : List A) (e : Engine D)
      → ((a : A) (e : Engine D) → Q a → P e → P (call a e))
      → All Q items
      → P e
      → P (for_each call items e)
  unfolding for_each
  for_each-All Q call [] e k q h = h
  for_each-All Q call (a ∷ items) e k (q, others) h =
      for_each-All Q call items (call a e) k others (k a e q h)

  pub try_each-All {ℓ} :
      {A : Type ℓ} (Q : A → Type 0) (call : A → Engine D → Option (Engine D)) (items : List A)
      (e : Engine D)
      → ((a : A) (e : Engine D) → Q a → P e → Always P (call a e))
      → All Q items
      → P e
      → Always P (try_each call items e)
  unfolding try_each
  try_each-All Q call [] e k q h = h
  try_each-All Q call (a ∷ items) e k (q, others) h =
      >>=-Always P P (call a e) _ (k a e q h)
        λ after kept. try_each-All Q call items after k others kept

  -- One of the items makes the property hold, and no call ends it.
  pub for_each-hit {ℓ} :
      {A : Type ℓ} (hit : A → Bool) (call : A → Engine D → Engine D) (items : List A) (e : Engine D)
      → ((a : A) (e : Engine D) → hit a ≡ true → P (call a e))
      → ((a : A) (e : Engine D) → P e → P (call a e))
      → any hit items ≡ true
      → P (for_each call items e)
  unfolding for_each
  for_each-hit hit call [] e makes keeps h = cc
  for_each-hit hit call (a ∷ items) e makes keeps h = elim (Bool-cases (hit a)) [
    | inl found ↦ for_each_invariant call items (call a e) keeps (makes a e found)
    | inr other ↦ for_each-hit hit call items (call a e) makes keeps (rw other at h)
  ]

  pub try_each-hit {ℓ} :
      {A : Type ℓ} (hit : A → Bool) (call : A → Engine D → Option (Engine D)) (items : List A)
      (e : Engine D)
      → ((a : A) (e : Engine D) → hit a ≡ true → Always P (call a e))
      → ((a : A) (e : Engine D) → P e → Always P (call a e))
      → any hit items ≡ true
      → Always P (try_each call items e)
  unfolding try_each
  try_each-hit hit call [] e makes keeps h = cc
  try_each-hit hit call (a ∷ items) e makes keeps h = elim (Bool-cases (hit a)) [
    | inl found ↦
        >>=-Always P P (call a e) _ (makes a e found)
          λ after made. try_each-Always call items after keeps made
    | inr other ↦
        >>=-Always_any P (call a e) _
          λ after. try_each-hit hit call items after makes keeps (rw other at h)
  ]
