-- ===== src/Decimal/Whole.antt =====
-- Whole numbers as decimals: a concrete type that meets the laws of `Decimal`. The examples run
-- the model on it. Division drops the fraction; rounding has nothing to do.
use Prim.Native.Nat.{◌/◌, ◌-◌}
use fund_forge.Base.{ℕ, suc, ◌+◌, ◌*◌, ◌≡◌, refl, true, false, none, some, arith}
use fund_forge.Base.Tests.{ltb, leb, nat_beq, if◌then◌else◌}
use fund_forge.Decimal.{Decimal, IsExact, HasSigns}

-- `negsuc n` is -(n + 1).
pub data ℤ : Type 0 where
  pos : ℕ → ℤ
  negsuc : ℕ → ℤ

abbrev pub pos_part : ℤ → ℕ
pos_part (pos n) = n
pos_part (negsuc n) = 0

abbrev pub neg_part : ℤ → ℕ
neg_part (pos n) = 0
neg_part (negsuc n) = suc n

abbrev pub sub_ℕ : ℕ → ℕ → ℤ
sub_ℕ a b = if leb b a then pos (a - b) else negsuc (b - a - 1)

abbrev quotient : ℤ → ℤ → ℤ
quotient a b =
    sub_ℕ (pos_part a / pos_part b + neg_part a / neg_part b)
      (pos_part a / neg_part b + neg_part a / pos_part b)

instance abbrev pub whole : Decimal ℤ
whole = record {
  dec = pos;
  add = λ a b. sub_ℕ (pos_part a + pos_part b) (neg_part a + neg_part b);
  sub = λ a b. sub_ℕ (pos_part a + neg_part b) (neg_part a + pos_part b);
  mul = λ a b.
      sub_ℕ (pos_part a * pos_part b + neg_part a * neg_part b)
        (pos_part a * neg_part b + neg_part a * pos_part b);
  div = λ a b. if nat_beq (pos_part b + neg_part b) 0 then none else some (quotient a b);
  lt = λ a b. ltb (pos_part a + neg_part b) (pos_part b + neg_part a);
  beq = λ a b. nat_beq (pos_part a + neg_part b) (pos_part b + neg_part a);
  round = λ a. a;
  round_dp = λ _ a. a;
}

pub add_lem :
    (a b : ℤ)
    → pos_part (whole.add a b) + neg_part a + neg_part b
      ≡ neg_part (whole.add a b) + pos_part a + pos_part b
add_lem a b = ground arith

pub sub_lem :
    (a b : ℤ)
    → pos_part (whole.sub a b) + neg_part a + pos_part b
      ≡ neg_part (whole.sub a b) + pos_part a + neg_part b
sub_lem a b = ground arith

pub eq_lem : (a b : ℤ) → pos_part a + neg_part b ≡ pos_part b + neg_part a → a ≡ b
eq_lem a b h = ground arith

instance abbrev pub whole_exact : IsExact whole
whole_exact = record {
  gain = pos_part;
  loss = neg_part;
  scale = 1;
  scale_pos = omega arith;
  gain-dec = λ n. omega arith;
  loss-dec = λ n. refl;
  add_parts = add_lem;
  sub_parts = sub_lem;
  lt_parts = λ a b. refl;
  beq_parts = λ a b. refl;
  eq_of_parts = eq_lem;
}

mul_nonneg_lem :
    (a b : ℤ)
    → whole.lt a (pos 0) ≡ false
    → whole.lt b (pos 0) ≡ false
    → whole.lt (whole.mul a b) (pos 0) ≡ false
mul_nonneg_lem (pos a) (pos b) h k = ground arith
mul_nonneg_lem (pos a) (negsuc b) h k = ground arith
mul_nonneg_lem (negsuc a) b h k = ground arith

mul_nonpos_lem :
    (a b : ℤ)
    → whole.lt (pos 0) a ≡ false
    → whole.lt b (pos 0) ≡ false
    → whole.lt (pos 0) (whole.mul a b) ≡ false
mul_nonpos_lem a (negsuc b) h k = ground arith
mul_nonpos_lem (pos a) (pos b) h k = grind arith
mul_nonpos_lem (negsuc a) (pos b) h k = ground arith

div_defined_lem : (a b : ℤ) → whole.lt (pos 0) b ≡ true → (c : ℤ) × (whole.div a b ≡ some c)
div_defined_lem a b h = (quotient a b, ground arith)

div_nonneg_lem :
    (a b c : ℤ)
    → whole.lt a (pos 0) ≡ false
    → whole.lt (pos 0) b ≡ true
    → whole.div a b ≡ some c
    → whole.lt c (pos 0) ≡ false
div_nonneg_lem (pos a) (pos b) c h k e = ground arith
div_nonneg_lem (pos a) (negsuc b) c h k e = ground arith
div_nonneg_lem (negsuc a) b c h k e = ground arith

div_nonpos_lem :
    (a b c : ℤ)
    → whole.lt (pos 0) a ≡ false
    → whole.lt (pos 0) b ≡ true
    → whole.div a b ≡ some c
    → whole.lt (pos 0) c ≡ false
div_nonpos_lem (pos a) (pos b) c h k e = ground arith
div_nonpos_lem (pos a) (negsuc b) c h k e = ground arith
div_nonpos_lem (negsuc a) (pos b) c h k e = ground arith
div_nonpos_lem (negsuc a) (negsuc b) c h k e = ground arith

pub whole_signs : HasSigns whole
whole_signs = record {
  mul_nonneg = mul_nonneg_lem;
  mul_nonpos = mul_nonpos_lem;
  div_defined = div_defined_lem;
  div_nonneg = div_nonneg_lem;
  div_nonpos = div_nonpos_lem;
  round_nonneg = λ a h. h;
  round_nonpos = λ a h. h;
  round_dp_nonneg = λ n a h. h;
  round_dp_nonpos = λ n a h. h;
}
