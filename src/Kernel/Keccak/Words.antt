-- ===== src/Kernel/Keccak/Words.antt =====
-- Words and bytes: the rotation is the arithmetic one, and the conversions are inverse.
use native.Mathlib.Nat.{pow-suc}
use native.Mathlib.Nat.{add-suc, div-add-mod, mod-lt, div-lt_iff_lt-mul, one-le-pow}
use infnoise.Base.{
  ℕ, zero, suc, ◌+◌, ◌-◌, ◌*◌, ◌/◌, ◌%◌, ◌^◌, ◌<◌, ◌≡◌, sym, ap, ◌∙◌, bit_and, bit_or, arith,
}
use infnoise.Bits.{bit_or_fields, bit_and_mask}
use infnoise.Kernel.Keccak.{rol64}
use infnoise.Kernel.Keccak.Spec.{rotate}

pow_split : (a b : ℕ) → 2 ^ (a + b) ≡ 2 ^ a * 2 ^ b
pow_split a zero = let e : a + 0 ≡ a = omega arith in rw e (omega arith)
pow_split a (suc b) =
    ap (λ (n : ℕ). 2 ^ n) (add-suc a b)
    ∙ omega (arith, pow-suc 2 (a + b), pow_split a b, ap (λ (t : ℕ). 2 ^ a * t) (pow-suc 2 b))

-- A 64-bit word times `p` is cut to its low part times `p`, where `p * m` is 2 ^ 64.
cut_product : (x p m : ℕ) → p * m ≡ 2 ^ 64 → 0 < m → x * p ≡ 2 ^ 64 * (x / m) + x % m * p
cut_product x p m e pos =
    omega (arith, ap (λ (t : ℕ). t * p) (div-add-mod x m), ap (λ (t : ℕ). x / m * t) e)

low-lt : (x p m : ℕ) → p * m ≡ 2 ^ 64 → 0 < m → 0 < p → x % m * p < 2 ^ 64
low-lt x p m e pos pos' = grind (arith, mod-lt)

shift_left_low : (x p m : ℕ) → p * m ≡ 2 ^ 64 → 0 < m → 0 < p → x * p % 2 ^ 64 ≡ x % m * p
shift_left_low x p m e pos pos' = omega (arith, cut_product x p m e pos, low-lt x p m e pos pos')

shift_left_cast : (a p : ℕ) → a % 2 ^ 64 * p % 2 ^ 64 ≡ a * p % 2 ^ 64
shift_left_cast a p = omega (arith, ap (λ (t : ℕ). t * p) (div-add-mod a (2 ^ 64)))

shift_right-lt : (x p m : ℕ) → p * m ≡ 2 ^ 64 → 0 < m → x < 2 ^ 64 → x / m < p
shift_right-lt x p m e pos lt = (div-lt_iff_lt-mul {k = m} {x = x} {y = p} pos).1 (omega arith)

rol64_unmasked :
    (a n : ℕ)
    → 0 < n
    → n < 64
    → rol64 a n ≡ bit_or (a % 2 ^ 64 * 2 ^ n % 2 ^ 64) (a % 2 ^ 64 / 2 ^ (64 - n))
unfolding rol64
rol64_unmasked a n pos lt =
    let masked : bit_and n 63 ≡ n = omega (arith, bit_and_mask 6 n) in rw masked (ground arith)

-- The two shifts of `keccak_rol64` fill disjoint bits, so `|` is a sum.
pub rol64-eq-rotate : (a n : ℕ) → n < 64 → rol64 a n ≡ rotate a n
unfolding rotate
rol64-eq-rotate a zero lt = unfold rol64 in omega arith
rol64-eq-rotate a (suc k) lt =
    rol64_unmasked a n (omega arith) lt
    ∙ ap (λ (t : ℕ). bit_or t (x / m)) low
    ∙ bit_or_fields n (x % m) (x / m) (shift_right-lt x (2 ^ n) m whole pos (omega arith))
    ∙ ap (λ (t : ℕ). t + x / m) (omega (arith, low, shift_left_cast a (2 ^ n)))
  where
    n : ℕ
    n = suc k

    x : ℕ
    x = a % 2 ^ 64

    m : ℕ
    m = 2 ^ (64 - n)

    pos : 0 < m
    pos = one-le-pow (64 - n) 2 (omega arith)

    whole : 2 ^ n * m ≡ 2 ^ 64
    whole =
        sym (pow_split n (64 - n))
        ∙ ap (λ (t : ℕ). 2 ^ t) (let e : n + (64 - n) ≡ 64 = omega arith in e)

    low : x * 2 ^ n % 2 ^ 64 ≡ x % m * 2 ^ n
    low = shift_left_low x (2 ^ n) m whole pos (one-le-pow n 2 (omega arith))
