-- ===== src/Kernel/Health/Invariant.antt =====
-- The invariant of `struct infnoise_health`, and that every call of `infnoise_health_add_bit`
-- returns and keeps it.
use infnoise.Base.{ℕ, ◌+◌, ◌*◌, ◌%◌, ◌^◌, ◌≤◌, ◌<◌, ◌≡◌, Bool, true, false, arith, u32, bit, inc32}
use infnoise.Bits.{bit_or_fields, bit_and_mask}
use infnoise.Kernel.Const.{table_size, max_count, min_data, fp_half, fp_one}
use infnoise.Kernel.Health.{
  Health, track_misfires, next_prev_bits, push_history, check_stuck, take_bit, update_probability,
  zeros_of, ones_of, update_tables, scale_stats, scale_entropy, scale_zero_one_counts,
  record_outcome, ok,
}
use infnoise.Kernel.Health.FixedPoint.{scale_prob_range}
use infnoise.Kernel.Health.Doubling.{doubled, Normalises, count_entropy-Stops, Stops}
use infnoise.Kernel.Health.Tables.{
  AreTables, SameTables, AreTables-SameTables, update_tables-AreTables, counters-lt,
}

-- The numbers of the state: the context indexes the tables, the probability lies in (1/2, 1] and
-- the window of samples is not full.
pub record InRange (h : Health) : Type 0 where
  pub context : h.prev_bits < table_size
  pub over_half : fp_half < h.current_prob
  pub at_most_one : h.current_prob ≤ fp_one
  pub window : h.num_bits_sampled < min_data
  pub entropy : h.num_bits_of_entropy < 2 ^ 32
  pub level : h.entropy_level < 2 ^ 32

abbrev pub IsValid : Health → Type 0
IsValid h = AreTables max_count h × InRange h

-- The context is shifted by the previous bit, and keeps its last 14 bits.
pub next_prev_bits_lem :
    (p : ℕ) (b : Bool) → p < table_size → next_prev_bits p b ≡ (2 * p + bit b) % 2 ^ 14
unfolding next_prev_bits
next_prev_bits_lem p true lt = ground (arith, bit_or_fields 1 p 1, bit_and_mask 14 (2 * p + 1))
next_prev_bits_lem p false lt = ground (arith, bit_or_fields 1 p 0, bit_and_mask 14 (2 * p))

take_bit-InRange :
    (h : Health) (even_bit odd_bit even : Bool)
    → InRange h
    → InRange (take_bit h even_bit odd_bit even).0
unfolding take_bit track_misfires push_history check_stuck
take_bit-InRange h even_bit odd_bit even r =
    ground (arith, next_prev_bits_lem h.prev_bits h.prev_bit)

take_bit-SameTables :
    (h : Health) (even_bit odd_bit even : Bool) → SameTables h (take_bit h even_bit odd_bit even).0
unfolding take_bit track_misfires push_history check_stuck
take_bit-SameTables h even_bit odd_bit even = ground arith

pub take_bit-IsValid :
    (h : Health) (even_bit odd_bit even : Bool)
    → IsValid h
    → IsValid (take_bit h even_bit odd_bit even).0
take_bit-IsValid h even_bit odd_bit even v = (
  AreTables-SameTables (take_bit-SameTables h even_bit odd_bit even) v.0,
  take_bit-InRange h even_bit odd_bit even v.1,
)

-- The probability that the doubling loop starts from.
pub update_probability_range :
    (h : Health) (even b : Bool)
    → IsValid h
    → (0 < (update_probability h even b).current_prob)
      × ((update_probability h even b).current_prob ≤ fp_one)
unfolding update_probability
update_probability_range h even b v = ground (
  arith,
  counters-lt h even v.0,
  scale_prob_range h.current_prob (ones_of h even) (u32 (zeros_of h even + ones_of h even)),
  scale_prob_range h.current_prob (zeros_of h even) (u32 (zeros_of h even + ones_of h even)),
)

-- The loop ends, after at most sixteen doublings.
pub count_entropy_returns :
    (h : Health) (even b : Bool) → IsValid h → Stops 16 (update_probability h even b)
count_entropy_returns h even b v =
    count_entropy-Stops 16 (update_probability h even b) bounds.1 (omega (arith, bounds.0))
      entropy_fits level_fits
  where
    bounds :
        (0 < (update_probability h even b).current_prob)
        × ((update_probability h even b).current_prob ≤ fp_one)
    bounds = update_probability_range h even b v

    entropy_fits : (update_probability h even b).num_bits_of_entropy < 2 ^ 32
    entropy_fits = unfold update_probability in omega arith

    level_fits : (update_probability h even b).entropy_level < 2 ^ 32
    level_fits = unfold update_probability in omega arith

-- The numbers that the tables do not change.
pub record SameNumbers (h h' : Health) : Type 0 where
  pub prev_bits : h'.prev_bits ≡ h.prev_bits
  pub num_bits_sampled : h'.num_bits_sampled ≡ h.num_bits_sampled
  pub num_bits_of_entropy : h'.num_bits_of_entropy ≡ h.num_bits_of_entropy
  pub entropy_level : h'.entropy_level ≡ h.entropy_level
  pub current_prob : h'.current_prob ≡ h.current_prob
  pub total_bits : h'.total_bits ≡ h.total_bits
  pub total_ones : h'.total_ones ≡ h.total_ones
  pub total_zeros : h'.total_zeros ≡ h.total_zeros
  pub even_misfires : h'.even_misfires ≡ h.even_misfires
  pub odd_misfires : h'.odd_misfires ≡ h.odd_misfires
  pub seq_zeros : h'.seq_zeros ≡ h.seq_zeros
  pub seq_ones : h'.seq_ones ≡ h.seq_ones
  pub prev_bit : h'.prev_bit ≡ h.prev_bit

pub update_tables-SameNumbers :
    (h : Health) (even b : Bool) → SameNumbers h (update_tables h even b)
unfolding update_tables scale_stats
update_tables-SameNumbers h even b = ground arith

-- The two scalings at the end, and the new verdict.
unfoldable pub settle : Health → Health
settle h = let h2 = scale_zero_one_counts (scale_entropy h) in record h2 { ok_to_use = ok h2 }

settle-SameTables : (h : Health) → SameTables h (settle h)
unfolding settle scale_zero_one_counts scale_entropy
settle-SameTables h = ground arith

settle-InRange :
    (h : Health)
    → h.prev_bits < table_size
    → fp_half < h.current_prob
    → h.current_prob ≤ fp_one
    → h.num_bits_sampled ≤ min_data
    → h.num_bits_of_entropy < 2 ^ 32
    → h.entropy_level < 2 ^ 32
    → InRange (settle h)
unfolding settle scale_zero_one_counts scale_entropy
settle-InRange h c lo hi w e l = ground arith

pub record_outcome-IsValid :
    (h : Health) (even b : Bool) → IsValid h → IsValid (record_outcome h even b)
unfolding record_outcome settle
record_outcome-IsValid h even b v = (
  AreTables-SameTables (settle-SameTables h1) (update_tables-AreTables h0 even b v.1.context v.0),
  settle-InRange h1 (omega (arith, same.prev_bits)) (omega (arith, same.current_prob))
      (omega (arith, same.current_prob)) (omega (arith, same.num_bits_sampled))
      (omega (arith, same.num_bits_of_entropy)) (omega (arith, same.entropy_level)),
)
  where
    h0 : Health
    h0 = record h { num_bits_sampled = inc32 h.num_bits_sampled }

    h1 : Health
    h1 = update_tables h0 even b

    same : SameNumbers h0 h1
    same = update_tables-SameNumbers h0 even b

pub doubled-IsValid :
    (h : Health) (k : ℕ)
    → AreTables max_count h
    → h.prev_bits < table_size
    → h.num_bits_sampled < min_data
    → h.entropy_level < 2 ^ 32
    → Normalises h.current_prob k
    → IsValid (doubled h k)
doubled-IsValid h k t c w l n = (t, ground arith)
