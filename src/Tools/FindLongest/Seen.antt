-- ===== src/Tools/FindLongest/Seen.antt =====
-- A set of numbers in the bits of an array.
use infnoise.Base.{
  ℕ, zero, suc, ◌*◌, ◌%◌, ◌<◌, ◌≡◌, inl, inr, refl, false, ◌||◌, List, bit_or, ◌^◌, ◌>>>◌, ◌==◌,
  get_or, length, length-set, get_or-set_self, get_or-set_ne, replicate, Bool-cases, arith,
}
use infnoise.Bits.Flag.{has_flag-bit_or, has_flag-none}
use infnoise.Tools.FindLongest.{is_seen, mark}

pub length-mark : (seen : List ℕ) (value : ℕ) → length (mark seen value) ≡ length seen
unfolding mark
length-mark seen value = length-set seen (value >>> 3) _

zeros_at : (n i : ℕ) → get_or (replicate n 0) i 0 ≡ zero
unfolding replicate
zeros_at zero i = refl
zeros_at (suc n) zero = refl
zeros_at (suc n) (suc i) = zeros_at n i

pub is_seen-empty : (n v : ℕ) → is_seen (replicate n 0) v ≡ false
unfolding is_seen
is_seen-empty n v = rw (zeros_at n (v >>> 3)) (has_flag-none (v % 8))

-- The set has one more number.
pub is_seen-mark :
    (seen : List ℕ) (value v : ℕ)
    → value < 8 * length seen
    → is_seen (mark seen value) v ≡ (is_seen seen v || (v == value))
unfolding is_seen mark
is_seen-mark seen value v lt = elim (Bool-cases (v >>> 3 == value >>> 3)) [
  | inl same ↦
      let e : v >>> 3 ≡ value >>> 3 = ground (arith, same) in
      rw
        (
          e,
          get_or-set_self seen (value >>> 3)
              (bit_or (get_or seen (value >>> 3) 0) (2 ^ (value % 8))) 0 (omega (arith, lt)),
          has_flag-bit_or (get_or seen (value >>> 3) 0) (value % 8) (v % 8),
        )
        (ground (arith, e))
  | inr other ↦
      rw
        (get_or-set_ne seen (value >>> 3) (v >>> 3)
          (bit_or (get_or seen (value >>> 3) 0) (2 ^ (value % 8))) 0 (ground (arith, other)))
        (ground (arith, other))
]
