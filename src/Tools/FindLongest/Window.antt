-- ===== src/Tools/FindLongest/Window.antt =====
-- The value of the loop is the number that a window of the bits stands for.
use native.Mathlib.Nat.{pow-suc, pow-le-pow_right, mul-add-mod_self_right, mod-eq_of_lt}
use infnoise.Base.{
  ℕ, zero, suc, ◌+◌, ◌*◌, ◌^◌, ◌%◌, ◌<◌, ◌≤◌, ◌≡◌, refl, ap, Bool, false, List, Bool-cases, inl,
  inr, ◌==◌, bit_or, bit, u64, get_or, arith,
}
use infnoise.Bits.{bit_or_fields, bit_and_mask}
use infnoise.Tools.FindLongest.{bit_at, first_value, next_value}

-- The number of `len` bits from bit `i` on, the first one being the most significant.
unfoldable pub window : List Bool → ℕ → ℕ → ℕ
window bits i zero = 0
window bits i (suc len) = 2 * window bits i len + bit_at bits (i + len)

bit_at-lt : (bits : List Bool) (i : ℕ) → bit_at bits i < 2
bit_at-lt bits i = ground arith

pub window-lt : (bits : List Bool) (i len : ℕ) → window bits i len < 2 ^ len
unfolding window
window-lt bits i zero = omega arith
window-lt bits i (suc len) =
    omega (arith, window-lt bits i len, bit_at-lt bits (i + len), pow-suc 2 len)

scaled : (b len : ℕ) → b * 2 ^ suc len ≡ 2 * (b * 2 ^ len)
scaled b len = rw (pow-suc 2 len) (grind arith)

i_plus_zero : (i : ℕ) → i + 0 ≡ i
i_plus_zero i = omega arith

-- The first bit is the most significant one.
window_head :
    (bits : List Bool) (i len : ℕ)
    → window bits i (suc len) ≡ bit_at bits i * 2 ^ len + window bits (suc i) len
unfolding window
window_head bits i zero = rw (i_plus_zero i) (omega arith)
window_head bits i (suc len) = omega (
  arith,
  window_head bits i len,
  ap (bit_at bits) {x = i + suc len} {y = suc i + len} (omega arith),
  scaled (bit_at bits i) len,
)

module _ (bits : List Bool) where
  -- `(value << 1u) | data[i]`
  shifted :
      (w len i : ℕ)
      → w < 2 ^ len
      → len ≤ 62
      → bit_or (u64 (w * 2)) (bit_at bits i) ≡ 2 * w + bit_at bits i
  shifted w len i lt few =
      let fits : w * 2 % 2 ^ 64 ≡ w * 2 ^ 1 =
        omega (arith, lt, pow-le-pow_right {n = 2} (omega arith) {i = len} {j = 62} few) in
      rw (fits, bit_or_fields 1 w (bit_at bits i) (bit_at-lt bits i)) (omega arith)

  pub first_value_lem : (len : ℕ) → len ≤ 62 → first_value bits len ≡ window bits 0 len
  unfolding first_value window
  first_value_lem zero le = refl
  first_value_lem (suc len) le =
      rw (first_value_lem len (omega (arith, le)), zero_plus len)
        (shifted (window bits 0 len) len len (window-lt bits 0 len) (omega (arith, le)))
    where
      zero_plus : (i : ℕ) → 0 + i ≡ i
      zero_plus i = omega arith

  -- The window moves on by one bit.
  pub next_value-window :
      (len i : ℕ)
      → len ≤ 62
      → next_value bits len (window bits i len) (i + len) ≡ window bits (suc i) len
  unfolding next_value
  next_value-window len i le =
      let whole : 2 * window bits i len + bit_at bits (i + len) ≡ window bits i (suc len) =
        unfold window in refl in
      rw
        (
          shifted (window bits i len) len (i + len) (window-lt bits i len) le,
          bit_and_mask len (2 * window bits i len + bit_at bits (i + len)),
          whole,
          window_head bits i len,
          mul-add-mod_self_right (bit_at bits i) (2 ^ len) (window bits (suc i) len),
          mod-eq_of_lt (window-lt bits (suc i) len),
        )
        refl

-- Two numbers are equal when the bits of the windows are.
pub window-same :
    (bits : List Bool) (i j len : ℕ)
    → window bits i len ≡ window bits j len
    → (k : ℕ) → k < len
    → get_or bits (i + k) false ≡ get_or bits (j + k) false
unfolding window
window-same bits i j zero e k lt = absurd (omega arith)
window-same bits i j (suc len) e k lt = elim (Bool-cases (k == len)) [
  | inl last ↦
      let k_len : k ≡ len = ground (arith, last) in
      rw k_len
        (bit_injective _ _ (omega (arith, e, bit_at-lt bits (i + len), bit_at-lt bits (j + len))))
  | inr other ↦
      window-same bits i j len
        (omega (arith, e, bit_at-lt bits (i + len), bit_at-lt bits (j + len))) k
        (ground (arith, lt, other))
]
  where
    bit_injective : (a b : Bool) → bit a ≡ bit b → a ≡ b
    bit_injective a b e = ground (arith, e)

pub same-window :
    (bits : List Bool) (i j len : ℕ)
    → ((k : ℕ) → k < len → get_or bits (i + k) false ≡ get_or bits (j + k) false)
    → window bits i len ≡ window bits j len
unfolding window
same-window bits i j zero same = refl
same-window bits i j (suc len) same =
    rw (same-window bits i j len (λ k lt. same k (omega (arith, lt))), same len (omega arith)) refl
