-- ===== src/Kernel/Health/Estimate.antt =====
-- The verdict of the health check in exact arithmetic: the fixed-point estimate is not cut off,
-- and the two tests of the driver are comparisons of whole numbers.
use native.Mathlib.Nat.{le-div_iff_mul-le, div-lt_iff_lt-mul}
use infnoise.Base.{
  ℕ, ◌+◌, ◌*◌, ◌/◌, ◌^◌, ◌≤◌, ◌<◌, ◌≡◌, ◌↔◌, Bool, true, false, arith, some, inl, inr, Bool-cases,
}
use infnoise.Kernel.Const.{min_data, buflen}
use infnoise.Kernel.Health.{
  Health, fp_div, ok, estimate_entropy_per_bit, entropy_on_target, add_bit, take_bit,
  track_misfires, push_history, check_stuck, measure,
}
use infnoise.Kernel.Health.Invariant.{IsValid, InRange, take_bit-IsValid}
use infnoise.Kernel.Health.Measure.{Measured, measured}
use infnoise.Kernel.Health.Total.{selected, add_bit-fault, add_bit-good}

-- A bit counts for at most sixteen bits of entropy.
abbrev pub IsBounded : Health → Type 0
IsBounded h = h.num_bits_of_entropy ≤ 16 * h.num_bits_sampled

Measured-IsBounded :
    {h h' : Health} {even b : Bool} → InRange h → IsBounded h → Measured h even b h' → IsBounded h'
Measured-IsBounded r e m = ground (arith, m.sampled, m.entropy, m.at_most_16)

take_bit-IsBounded :
    (h : Health) (even_bit odd_bit even : Bool)
    → IsBounded h
    → IsBounded (take_bit h even_bit odd_bit even).0
unfolding take_bit track_misfires push_history check_stuck
take_bit-IsBounded h even_bit odd_bit even e = ground arith

take_bit-level :
    (h : Health) (even_bit odd_bit even : Bool)
    → (take_bit h even_bit odd_bit even).0.entropy_level ≡ h.entropy_level
unfolding take_bit track_misfires push_history check_stuck
take_bit-level h even_bit odd_bit even = ground arith

-- The estimate of entropy per bit is the quotient in 16.16, with nothing cut off.
pub estimate_exact :
    (h : Health)
    → 0 < h.num_bits_sampled
    → h.num_bits_sampled < min_data
    → IsBounded h
    → estimate_entropy_per_bit h ≡ h.num_bits_of_entropy * 2 ^ 16 / h.num_bits_sampled
unfolding estimate_entropy_per_bit fp_div
estimate_exact h pos lt e =
    ground (arith, (div-lt_iff_lt-mul {k = n} {x = q * 2 ^ 16} {y = 2 ^ 32} pos).1 (omega arith))
  where
    open h use {num_bits_sampled as n, num_bits_of_entropy as q}

-- For a window of between 1 and 79999 samples that counts at most sixteen bits of entropy for
-- each, `infnoise_health_ok` accepts exactly when 80000 bits were seen and the measured entropy
-- per bit lies in [55991, 59402) / 65536.
pub ok_iff :
    (h : Health)
    → 0 < h.num_bits_sampled
    → h.num_bits_sampled < min_data
    → IsBounded h
    → (ok h ≡ true) ↔ (
        (min_data ≤ h.total_bits)
        × (55991 * h.num_bits_sampled ≤ h.num_bits_of_entropy * 2 ^ 16)
        × (h.num_bits_of_entropy * 2 ^ 16 < 59402 * h.num_bits_sampled))
unfolding ok
ok_iff h pos lt e = ground (
  arith,
  estimate_exact h pos lt e,
  le-div_iff_mul-le {k = n} {x = 55991} {y = q * 2 ^ 16} pos,
  div-lt_iff_lt-mul {k = n} {x = q * 2 ^ 16} {y = 59402} pos,
)
  where
    open h use {num_bits_sampled as n, num_bits_of_entropy as q}

-- For one transfer of 512 bits the target is 437 bits of entropy, as long as the product of the
-- test fits 32 bits.
pub entropy_on_target_iff :
    (entropy : ℕ) → entropy ≤ 63627 → (entropy_on_target entropy buflen ≡ true) ↔ (437 ≤ entropy)
unfolding entropy_on_target
entropy_on_target_iff entropy small = ground arith

-- From a valid state that counts at most sixteen bits of entropy for each sample, every call of
-- `infnoise_health_add_bit` returns, leaves such a state, and adds at most 16 to the entropy
-- level.
pub add_bit-IsBounded :
    (h : Health) (even_bit odd_bit even : Bool)
    → IsValid h
    → IsBounded h
    → (h' : Health) × (good : Bool) × (add_bit h even_bit odd_bit even ≡ some (h', good))
      × IsValid h'
      × IsBounded h'
      × (h'.entropy_level ≤ h.entropy_level + 16)
add_bit-IsBounded h even_bit odd_bit even v e =
    elim (Bool-cases (take_bit h even_bit odd_bit even).1) [
      | inl good ↦ (
        after.0,
        true,
        add_bit-good h even_bit odd_bit even good after.1,
        after.2.valid,
        Measured-IsBounded taken.1 bounded after.2,
        ground (arith, after.2.level, after.2.at_most_16, same),
      )
      | inr bad ↦ (
        h1,
        false,
        add_bit-fault h even_bit odd_bit even bad,
        taken,
        bounded,
        omega (arith, same),
      )
    ]
  where
    h1 : Health
    h1 = (take_bit h even_bit odd_bit even).0

    taken : IsValid h1
    taken = take_bit-IsValid h even_bit odd_bit even v

    bounded : IsBounded h1
    bounded = take_bit-IsBounded h even_bit odd_bit even e

    same : h1.entropy_level ≡ h.entropy_level
    same = take_bit-level h even_bit odd_bit even

    after :
        (h' : Health) × (measure h1 even (selected even_bit odd_bit even) ≡ some h')
        × Measured h1 even (selected even_bit odd_bit even) h'
    after = measured h1 even (selected even_bit odd_bit even) taken
