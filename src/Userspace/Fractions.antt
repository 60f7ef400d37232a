-- ===== src/Userspace/Fractions.antt =====
-- Fractions as the floating-point numbers: an instance of the laws of `Floats` for concrete inputs.
use native.Mathlib.Nat.{pow-suc, mul-le-mul, le-mul_of_pos_right}
use infnoise.Base.{
  ℕ, zero, suc, ◌+◌, ◌-◌, ◌*◌, ◌/◌, ◌^◌, ◌≤◌, ◌<◌, ◌≡◌, ◌∙◌, Bool, ap, subst, arith, ltb, leb,
}
use infnoise.Userspace.Floats.{Floats, AreLaws}

abbrev Fraction : Type 0
Fraction = ℕ × ℕ

abbrev mul : Fraction → Fraction → Fraction
mul (a, b) (c, d) = (a * c, b * d)

abbrev div : Fraction → Fraction → Fraction
div (a, b) (c, d) = (a * d, b * c)

abbrev le : Fraction → Fraction → Bool
le (a, b) (c, d) = leb (a * d) (c * b)

abbrev lt : Fraction → Fraction → Bool
lt (a, b) (c, d) = ltb (a * d) (c * b)

abbrev pub fractions : Floats
fractions = record {
  Double = Fraction;
  one = (1, 1);
  half = (1, 2);
  two = (2, 1);
  accuracy = (103, 100);
  mul = mul;
  div = div;
  add = λ x y. (x.0 * y.1 + y.0 * x.1, x.1 * y.1);
  sub = λ x y. (x.0 * y.1 - y.0 * x.1, x.1 * y.1);
  million = (1000000, 1);
  thousand = (1000, 1);
  le = le;
  lt = lt;
  of_u32 = λ n. (n, 1);
  to_u32 = λ x. x.0 / x.1;
  log2_of = λ x. (88, 100);
  exp2_of = λ x. x;
}

-- The fraction is positive and at least `2 ^ -k`.
abbrev AtLeast : Fraction → ℕ → Type 0
AtLeast (a, b) k = (0 < a) × (b ≤ a * 2 ^ k)

positive : (a x : ℕ) → 0 < a → 0 < x → 0 < a * (x * 1)
positive a x p q = grind arith

two_pow_add : (k m : ℕ) → 2 ^ (k + m) ≡ 2 ^ k * 2 ^ m
two_pow_add k zero = ap (λ t. 2 ^ t) {x = k + 0} {y = k} (omega arith) ∙ omega arith
two_pow_add k (suc m) =
    ap (λ t. 2 ^ t) {x = k + suc m} {y = suc (k + m)} (omega arith)
    ∙ pow-suc 2 (k + m)
    ∙ rw (two_pow_add k m, pow-suc 2 m) (omega arith)

product :
    (a b x y k m : ℕ) → b ≤ a * 2 ^ k → 0 < x → y ≤ 2 ^ m → b * (1 * y) ≤ a * (x * 1) * 2 ^ (k + m)
product a b x y k m p q r =
    rw (two_pow_add k m) (omega (arith, mul-le-mul p r, le-mul_of_pos_right (a * 2 ^ k * 2 ^ m) q))

pub fractions-AreLaws : AreLaws fractions
fractions-AreLaws = record {
  AtLeast = AtLeast;
  one-AtLeast = (omega arith, omega arith);
  above_half = λ p e. (ground arith, ground arith);
  times_ratio = λ p k a b m at pos le small few.
      (positive p.0 a at.0 pos, product p.0 p.1 a b k m at.1 pos small);
  doubled =
      λ p k at few. (omega arith, omega (arith, subst (λ t. p.1 ≤ p.0 * t) (pow-suc 2 k) at.1));
  done = λ p at. ground arith;
}
