-- ===== src/Decimal.antt =====
-- The decimal numbers of the crate rust_decimal, which prices, volumes and cash are made of
-- (ff_standard_lib/src/standardized_types/new_types.rs: `Price` and `Volume` are `Decimal`).
-- The crate is a parameter: a type `D` with the operations that the source calls. What the proofs
-- rely on are the laws of `IsExact` and `HasSigns`, which hold as long as no result leaves the
-- 96 bits of a Decimal's digits.
pub mod Whole
use fund_forge.Base.{ℕ, ◌+◌, ◌*◌, ◌<◌, ◌≡◌, Bool, true, false, not, Option, none, some, arith}
use fund_forge.Base.Tests.{ltb, nat_beq, if◌then◌else◌}

pub record Decimal (D : Type 0) : Type 0 where
  -- the literal `dec!(n)`
  pub dec : ℕ → D
  pub add : D → D → D
  pub sub : D → D → D
  pub mul : D → D → D
  -- `none` is the panic of a division by zero
  pub div : D → D → Option D
  pub lt : D → D → Bool
  pub beq : D → D → Bool
  -- to the nearest whole number
  pub round : D → D
  pub round_dp : ℕ → D → D

module _ {D : Type 0} ⦃d : Decimal D⦄ where
  infixl 65 ◌⊕◌ ◌⊖◌
  infixl 70 ◌⊗◌
  infix 50 ◌≺◌ ◌≼◌ ◌≐◌
  abbrev pub ◌⊕◌ : D → D → D
  ◌⊕◌ = d.add

  abbrev pub ◌⊖◌ : D → D → D
  ◌⊖◌ = d.sub

  abbrev pub ◌⊗◌ : D → D → D
  ◌⊗◌ = d.mul

  -- `a < b`
  abbrev pub ◌≺◌ : D → D → Bool
  ◌≺◌ = d.lt

  -- `a <= b`; the order of decimals is total
  abbrev pub ◌≼◌ : D → D → Bool
  a ≼ b = not (d.lt b a)

  -- `a == b`
  abbrev pub ◌≐◌ : D → D → Bool
  ◌≐◌ = d.beq

  -- `a.max(b)`, `a.min(b)`
  abbrev pub max : D → D → D
  max a b = if b ≺ a then a else b

  abbrev pub min : D → D → D
  min a b = if b ≺ a then b else a

-- Sums, differences and comparisons are exact. A decimal is the difference of two numbers, `gain`
-- and `loss`, of units of the last digit that a Decimal can have.
pub record IsExact {D : Type 0} (d : Decimal D) : Type 0 where
  pub gain : D → ℕ
  pub loss : D → ℕ
  pub scale : ℕ
  pub scale_pos : 0 < scale
  pub gain-dec : (n : ℕ) → gain (d.dec n) ≡ n * scale
  pub loss-dec : (n : ℕ) → loss (d.dec n) ≡ 0
  pub add_parts :
      (a b : D) → gain (d.add a b) + loss a + loss b ≡ loss (d.add a b) + gain a + gain b
  pub sub_parts :
      (a b : D) → gain (d.sub a b) + loss a + gain b ≡ loss (d.sub a b) + gain a + loss b
  pub lt_parts : (a b : D) → d.lt a b ≡ ltb (gain a + loss b) (gain b + loss a)
  pub beq_parts : (a b : D) → d.beq a b ≡ nat_beq (gain a + loss b) (gain b + loss a)
  pub eq_of_parts : (a b : D) → gain a + loss b ≡ gain b + loss a → a ≡ b

-- The signs of products, quotients and rounded values.
pub record HasSigns {D : Type 0} (d : Decimal D) : Type 0 where
  pub mul_nonneg :
      (a b : D)
      → d.lt a (d.dec 0) ≡ false
      → d.lt b (d.dec 0) ≡ false
      → d.lt (d.mul a b) (d.dec 0) ≡ false
  pub mul_nonpos :
      (a b : D)
      → d.lt (d.dec 0) a ≡ false
      → d.lt b (d.dec 0) ≡ false
      → d.lt (d.dec 0) (d.mul a b) ≡ false
  pub div_defined : (a b : D) → d.lt (d.dec 0) b ≡ true → (c : D) × (d.div a b ≡ some c)
  pub div_nonneg :
      (a b c : D)
      → d.lt a (d.dec 0) ≡ false
      → d.lt (d.dec 0) b ≡ true
      → d.div a b ≡ some c
      → d.lt c (d.dec 0) ≡ false
  pub div_nonpos :
      (a b c : D)
      → d.lt (d.dec 0) a ≡ false
      → d.lt (d.dec 0) b ≡ true
      → d.div a b ≡ some c
      → d.lt (d.dec 0) c ≡ false
  pub round_nonneg : (a : D) → d.lt a (d.dec 0) ≡ false → d.lt (d.round a) (d.dec 0) ≡ false
  pub round_nonpos : (a : D) → d.lt (d.dec 0) a ≡ false → d.lt (d.dec 0) (d.round a) ≡ false
  pub round_dp_nonneg :
      (n : ℕ) (a : D) → d.lt a (d.dec 0) ≡ false → d.lt (d.round_dp n a) (d.dec 0) ≡ false
  pub round_dp_nonpos :
      (n : ℕ) (a : D) → d.lt (d.dec 0) a ≡ false → d.lt (d.dec 0) (d.round_dp n a) ≡ false
