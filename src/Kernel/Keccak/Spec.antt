-- ===== src/Kernel/Keccak/Spec.antt =====
-- Keccak-f[1600] as its standard states it: each step by coordinates, the rotation as arithmetic,
-- and the two tables from their generating rules.
use infnoise.Base.{
  ◌≡◌, refl, ℕ, zero, suc, ◌+◌, ◌-◌, ◌*◌, ◌/◌, ◌%◌, ◌^◌, bit_and, bit_xor, List, ltb, if◌then◌else◌,
  get_or, set, replicate, for_range, tabulate,
}

abbrev pub at : List ℕ → ℕ → ℕ → ℕ
at state x y = get_or state (x + 5 * y) 0

-- A state given by coordinates.
unfoldable pub by_coordinates : (ℕ → ℕ → ℕ) → List ℕ
unfolding tabulate
by_coordinates f = tabulate 25 0 (λ k. f (k % 5) (k / 5))

-- Rotation of a 64-bit word to the left.
unfoldable pub rotate : ℕ → ℕ → ℕ
rotate a n = a * 2 ^ n % 2 ^ 64 + a % 2 ^ 64 / 2 ^ (64 - n)

-- The linear feedback shift register of x^8 + x^6 + x^5 + x^4 + 1, after `t` steps.
register : ℕ → ℕ
register zero = 1
register (suc t) = let r = register t in if ltb r 128 then 2 * r else bit_xor ((2 * r) % 256) 0x71

-- Bit 2^j - 1 of the constant of round `i` is the output of step j + 7 i.
unfoldable pub round_constant : ℕ → ℕ
unfolding for_range register
round_constant i = for_range 7 0 (λ j c. c + register (j + 7 * i) % 2 * 2 ^ (2 ^ j - 1)) 0

-- The walk (1, 0), ..., (x, y) to (y, 2x + 3y), on which step t has offset (t + 1)(t + 2) / 2.
offset_from : ℕ → ℕ → ℕ → ℕ → List ℕ → List ℕ
offset_from zero t x y offsets = offsets
offset_from (suc left) t x y offsets =
    offset_from left (t + 1) y ((2 * x + 3 * y) % 5)
      (set offsets (x + 5 * y) ((t + 1) * (t + 2) / 2 % 64))

unfoldable pub offsets : List ℕ
unfolding offset_from replicate
offsets = offset_from 24 0 1 0 (replicate 25 0)

module _ (state : List ℕ) where
  unfoldable pub column : ℕ → ℕ
  column x =
      bit_xor
        (bit_xor (bit_xor (bit_xor (at state x 0) (at state x 1)) (at state x 2)) (at state x 3))
        (at state x 4)

  unfoldable pub theta : List ℕ
  unfolding by_coordinates
  theta = by_coordinates λ x y.
      bit_xor (at state x y) (bit_xor (rotate (column ((x + 1) % 5)) 1) (column ((x + 4) % 5)))

  -- rho and pi together: the lane at (x, y) comes from (x + 3y, x), rotated.
  unfoldable pub rho_pi : List ℕ
  unfolding offsets by_coordinates
  rho_pi =
      by_coordinates λ x y. rotate (at state ((x + 3 * y) % 5) x) (at offsets ((x + 3 * y) % 5) x)

  unfoldable pub chi : List ℕ
  unfolding by_coordinates
  chi = by_coordinates λ x y.
      bit_xor (at state x y)
        (bit_and (2 ^ 64 - 1 - at state ((x + 1) % 5) y) (at state ((x + 2) % 5) y))

  unfoldable pub iota : ℕ → List ℕ
  unfolding by_coordinates
  iota i =
      by_coordinates
        λ x y. if ltb 0 (x + 5 * y) then at state x y else bit_xor (at state x y) (round_constant i)

unfoldable pub keccak_round : ℕ → List ℕ → List ℕ
keccak_round i state = iota (chi (rho_pi (theta state))) i

unfoldable pub keccak_f : List ℕ → List ℕ
unfolding for_range
keccak_f state = for_range 24 0 keccak_round state

offset_sample : at offsets 2 3 ≡ 15
unfolding offsets
offset_sample = refl
