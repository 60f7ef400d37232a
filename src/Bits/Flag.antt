-- ===== src/Bits/Flag.antt =====
-- One bit of a number as a flag: `x & (1u << k)` and `x | (1u << k)`.
use Prim.Native.Nat.{bit_and-bitwise}
use native.Mathlib.Nat.{pow-suc}
use infnoise.Base.{
  ℕ, zero, suc, ◌/◌, ◌^◌, ◌%◌, ◌≡◌, Bool, false, not, ◌||◌, bit_and, bit_or, ◌==◌, arith,
}
use infnoise.Bits.{bit_and_mask, bit_or-zero}
use infnoise.Bits.Digit.{and_digit, or_digit}

-- `(x & (1u << k)) != 0`
unfoldable pub has_flag : ℕ → ℕ → Bool
has_flag x k = not (bit_and x (2 ^ k) == 0)

has_flag-suc : (x k : ℕ) → has_flag x (suc k) ≡ has_flag (x / 2) k
unfolding has_flag
has_flag-suc x k = ground (arith, and_digit x (2 ^ suc k), pow-suc 2 k)

has_flag-zero : (x : ℕ) → has_flag x 0 ≡ (x % 2 == 1)
unfolding has_flag
has_flag-zero x = ground (arith, bit_and_mask 1 x)

or_high :
    (x k : ℕ)
    → (bit_or x (2 ^ suc k) / 2 ≡ bit_or (x / 2) (2 ^ k)) × (bit_or x (2 ^ suc k) % 2 ≡ x % 2)
or_high x k = (
  ground (arith, or_digit x (2 ^ suc k), pow-suc 2 k),
  ground (arith, or_digit x (2 ^ suc k), pow-suc 2 k),
)

or_low : (x : ℕ) → (bit_or x 1 / 2 ≡ x / 2) × (bit_or x 1 % 2 ≡ 1)
or_low x = (
  ground (arith, or_digit x 1, bit_or-zero (x / 2)),
  ground (arith, or_digit x 1, bit_or-zero (x / 2)),
)

-- Setting flag `k` changes flag `k` only.
pub has_flag-bit_or : (x k j : ℕ) → has_flag (bit_or x (2 ^ k)) j ≡ (has_flag x j || (j == k))
has_flag-bit_or x zero zero = rw (has_flag-zero (bit_or x 1), (or_low x).1) (ground arith)
has_flag-bit_or x zero (suc j) =
    rw (has_flag-suc (bit_or x 1) j, has_flag-suc x j, (or_low x).0) (ground arith)
has_flag-bit_or x (suc k) zero =
    rw (has_flag-zero (bit_or x (2 ^ suc k)), has_flag-zero x, (or_high x k).1) (ground arith)
has_flag-bit_or x (suc k) (suc j) =
    rw
      (
        has_flag-suc (bit_or x (2 ^ suc k)) j,
        has_flag-suc x j,
        (or_high x k).0,
        has_flag-bit_or (x / 2) k j,
      )
      (ground arith)

zero-bit_and : (x : ℕ) → bit_and 0 x ≡ 0
zero-bit_and x = simp bit_and-bitwise (omega arith)

pub has_flag-none : (k : ℕ) → has_flag 0 k ≡ false
unfolding has_flag
has_flag-none k = ground (arith, zero-bit_and (2 ^ k))
