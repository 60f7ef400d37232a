-- ===== src/Kernel/Health/FixedPoint.antt =====
-- The 16.16 fixed point of infnoise_health.c: ranges, and the absence of truncation.
use infnoise.Base.{ℕ, ◌+◌, ◌*◌, ◌/◌, ◌^◌, ◌≤◌, ◌<◌, ◌≡◌, arith}
use native.Mathlib.Nat.{le-div_iff_mul-le, div-lt_iff_lt-mul}
use infnoise.Kernel.Const.{fp_one, fp_half}
use infnoise.Kernel.Health.{fp_mul, fp_div, scale_prob}

-- The quotient by itself, before the casts.
ratio-le-one : (a b : ℕ) → 0 < b → a ≤ b → a * 2 ^ 16 / b ≤ fp_one
ratio-le-one a b pos le =
    omega (arith, (div-lt_iff_lt-mul {k = b} {x = a * 2 ^ 16} {y = 2 ^ 16 + 1} pos).1 (omega arith))

-- A quotient of two 32-bit numbers, the first at most the second, is computed exactly.
pub fp_div_exact : (a b : ℕ) → 0 < b → a ≤ b → b < 2 ^ 32 → fp_div a b ≡ a * 2 ^ 16 / b
unfolding fp_div
fp_div_exact a b pos le lt = ground (arith, ratio-le-one a b pos le)

pub fp_div-le-one : (a b : ℕ) → 0 < b → a ≤ b → b < 2 ^ 32 → fp_div a b ≤ fp_one
fp_div-le-one a b pos le lt = rw (fp_div_exact a b pos le lt) (ratio-le-one a b pos le)

pub fp_div-ge : (a b : ℕ) → 0 < a → a ≤ b → b ≤ 2 ^ 15 → 2 ≤ fp_div a b
fp_div-ge a b pos le lt =
    rw (fp_div_exact a b (omega arith) le (omega arith))
      ((le-div_iff_mul-le {k = b} {x = 2} {y = a * 2 ^ 16} (omega arith)).1 (omega arith))

product-ge : (p f : ℕ) → fp_half < p → 2 ≤ f → 2 ^ 16 < p * f
product-ge p f lo flo = grind arith

product-le : (p f : ℕ) → f ≤ fp_one → p * f ≤ p * 2 ^ 16
product-le p f hi = grind arith

-- A probability over one half times a frequency of at least 2 / 65536 is not 0.
pub fp_mul_range :
    (p f : ℕ) → fp_half < p → p ≤ fp_one → 2 ≤ f → f ≤ fp_one → (0 < fp_mul p f) × (fp_mul p f ≤ p)
unfolding fp_mul
fp_mul_range p f lo hi flo fhi = omega (arith, product-ge p f lo flo, product-le p f fhi)

-- With at most 2 ^ 15 samples in a context the probability stays positive and does not grow.
pub scale_prob_range :
    (p seen total : ℕ)
    → fp_half < p
    → p ≤ fp_one
    → seen ≤ total
    → total ≤ 2 ^ 15
    → (0 < scale_prob p seen total) × (scale_prob p seen total ≤ fp_one)
unfolding scale_prob
scale_prob_range p seen total lo hi le small =
    ground
      (arith, fp_div-ge seen total, fp_div-le-one seen total, fp_mul_range p (fp_div seen total))
