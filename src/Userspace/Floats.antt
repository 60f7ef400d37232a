-- ===== src/Userspace/Floats.antt =====
-- The arithmetic of `double` that the programs use, as an interface: the model computes with any
-- implementation of it, and the laws say what the proofs need.
use infnoise.Base.{ℕ, suc, ◌+◌, ◌≤◌, ◌<◌, ◌^◌, ◌≡◌, Bool, false}

pub record Floats : Type 1 where
  pub Double : Type 0
  pub one : Double
  pub half : Double
  pub two : Double
  -- INM_ACCURACY
  pub accuracy : Double
  pub mul : Double → Double → Double
  pub div : Double → Double → Double
  pub add : Double → Double → Double
  pub sub : Double → Double → Double
  -- 1.0e6 and 1000.0
  pub million : Double
  pub thousand : Double
  pub le : Double → Double → Bool
  pub lt : Double → Double → Bool
  -- The conversions from and to `uint32_t`.
  pub of_u32 : ℕ → Double
  pub to_u32 : Double → ℕ
  -- `log(x) / log(2.0)` and `pow(2.0, x)`.
  pub log2_of : Double → Double
  pub exp2_of : Double → Double

-- What the loop that doubles a probability relies on, for bounds down to `2 ^ -16` only. `AtLeast p k`
-- is for a `p` that is not below `2 ^ -k`: a number that is not above one half is one that compares so,
-- and a NaN passes. A product of such a `p` with a quotient `a / b ≤ 1` of counters is not below
-- `2 ^ -(k + m)` if `b ≤ 2 ^ m`, doubling is exact on powers of two, and 1 is more than one half.
pub record AreLaws (f : Floats) : Type 1 where
  pub AtLeast : f.Double → ℕ → Type 0
  pub one-AtLeast : AtLeast f.one 0
  pub above_half : (p : f.Double) → f.le p f.half ≡ false → AtLeast p 1
  pub times_ratio :
      (p : f.Double) (k a b m : ℕ)
      → AtLeast p k
      → 0 < a
      → a ≤ b
      → b ≤ 2 ^ m
      → k + m ≤ 16
      → AtLeast (f.mul p (f.div (f.of_u32 a) (f.of_u32 b))) (k + m)
  pub doubled : (p : f.Double) (k : ℕ) → AtLeast p (suc k) → k < 16 → AtLeast (f.mul p f.two) k
  pub done : (p : f.Double) → AtLeast p 0 → f.le p f.half ≡ false
