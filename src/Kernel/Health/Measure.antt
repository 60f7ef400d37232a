-- ===== src/Kernel/Health/Measure.antt =====
-- What one bit adds to the estimate: the part of `infnoise_health_add_bit` after the stuck-at test.
use native.Mathlib.Nat.{pow-le-pow_right}
use native.Mathlib.Decide.{dec_lt}
use infnoise.Base.{
  ℕ, ◌+◌, ◌*◌, ◌/◌, ◌^◌, ◌≤◌, ◌<◌, ◌≡◌, refl, Bool, arith, leb, if◌then◌else◌, u32, sym, some,
  inc32,
}
use infnoise.Kernel.Const.{min_data}
use infnoise.Kernel.Health.{
  Health, estimate_entropy_per_bit, update_probability, count_entropy, doublings, update_tables,
  scale_entropy, scale_zero_one_counts, record_outcome, measure, ok,
}
use infnoise.Kernel.Health.Doubling.{doubled, Normalises, Stops}
use infnoise.Kernel.Health.Invariant.{
  IsValid, count_entropy_returns, doubled-IsValid, record_outcome-IsValid, SameNumbers,
  update_tables-SameNumbers, settle, update_probability_range,
}

measure-eq :
    (h : Health) (even b : Bool) {h1 : Health}
    → count_entropy doublings (update_probability h even b) ≡ some h1
    → measure h even b ≡ some (record_outcome h1 even b)
unfolding measure
measure-eq h even b e = rw (e, measure)

-- A positive probability needs at most sixteen doublings.
Normalises-le : (p k : ℕ) → 0 < p → Normalises p k → k ≤ 16
Normalises-le p k pos n = elim (dec_lt 16 k) [
  | yes many ↦ absurd (grind (arith, pow-le-pow_right {n = 2} (omega arith) {i = 17} {j = k} many))
  | no few ↦ omega arith
]

-- The outcome of one bit: how many bits of entropy it counts for, and what it leaves.
pub record Measured (h : Health) (even b : Bool) (h' : Health) : Type 0 where
  pub surprise : ℕ
  pub normalises : Normalises (update_probability h even b).current_prob surprise
  pub at_most_16 : surprise ≤ 16
  pub probability : h'.current_prob ≡ (update_probability h even b).current_prob * 2 ^ surprise
  pub sampled : h'.num_bits_sampled ≡ (
      if leb min_data (h.num_bits_sampled + 1)
      then (h.num_bits_sampled + 1) / 2
      else h.num_bits_sampled + 1)
  pub entropy : h'.num_bits_of_entropy ≡ (
      if leb min_data (h.num_bits_sampled + 1)
      then u32 (h.num_bits_of_entropy + surprise) / 2
      else u32 (h.num_bits_of_entropy + surprise))
  pub level :
      h'.entropy_level ≡ (if h.ok_to_use then u32 (h.entropy_level + surprise) else h.entropy_level)
  pub seq_ones : h'.seq_ones ≡ h.seq_ones
  pub seq_zeros : h'.seq_zeros ≡ h.seq_zeros
  pub prev_bits : h'.prev_bits ≡ h.prev_bits
  pub prev_bit : h'.prev_bit ≡ h.prev_bit
  pub total_bits : h'.total_bits ≡ h.total_bits
  pub verdict : h'.ok_to_use ≡ ok h'
  pub valid : IsValid h'

ok-verdict : (h : Health) (v : Bool) → ok (record h { ok_to_use = v }) ≡ ok h
unfolding ok estimate_entropy_per_bit
ok-verdict h v = refl

-- What `record_outcome` does to the numbers, its scalings included.
record Settled (h h' : Health) : Type 0 where
  sampled : h'.num_bits_sampled ≡ (
      if leb min_data (h.num_bits_sampled + 1)
      then (h.num_bits_sampled + 1) / 2
      else h.num_bits_sampled + 1)
  entropy : h'.num_bits_of_entropy ≡ (
      if leb min_data (h.num_bits_sampled + 1)
      then h.num_bits_of_entropy / 2
      else h.num_bits_of_entropy)
  level : h'.entropy_level ≡ h.entropy_level
  probability : h'.current_prob ≡ h.current_prob
  seq_ones : h'.seq_ones ≡ h.seq_ones
  seq_zeros : h'.seq_zeros ≡ h.seq_zeros
  prev_bits : h'.prev_bits ≡ h.prev_bits
  prev_bit : h'.prev_bit ≡ h.prev_bit
  total_bits : h'.total_bits ≡ h.total_bits

settle-Settled :
    (h h1 : Health)
    → h.num_bits_sampled < min_data
    → SameNumbers (record h { num_bits_sampled = inc32 h.num_bits_sampled }) h1
    → Settled h (settle h1)
unfolding settle scale_entropy scale_zero_one_counts
settle-Settled h h1 lt same = ground arith

settle-verdict : (h : Health) → (settle h).ok_to_use ≡ ok (settle h)
unfolding settle
settle-verdict h = sym (ok-verdict (scale_zero_one_counts (scale_entropy h)) _)

record_outcome-Settled :
    (h : Health) (even b : Bool)
    → h.num_bits_sampled < min_data
    → Settled h (record_outcome h even b)
      × ((record_outcome h even b).ok_to_use ≡ ok (record_outcome h even b))
unfolding record_outcome settle
record_outcome-Settled h even b lt =
    let h0 = record h { num_bits_sampled = inc32 h.num_bits_sampled } in
    (
      settle-Settled h (update_tables h0 even b) lt (update_tables-SameNumbers h0 even b),
      settle-verdict (update_tables h0 even b),
    )

-- `update_probability` changes the probability alone.
update_probability-same :
    (h : Health) (even b : Bool)
    → update_probability h even b
      ≡ record h { current_prob = (update_probability h even b).current_prob }
unfolding update_probability
update_probability-same h even b = refl

Measured-Settled :
    (h : Health) (even b : Bool) (k : ℕ) (h' : Health)
    → Normalises (update_probability h even b).current_prob k
    → k ≤ 16
    → Settled (doubled (update_probability h even b) k) h'
    → h'.ok_to_use ≡ ok h'
    → IsValid h'
    → Measured h even b h'
unfolding update_probability
Measured-Settled h even b k h' n few s verdict v = record {
  surprise = k;
  normalises = n;
  at_most_16 = few;
  probability = s.probability;
  sampled = s.sampled;
  entropy = s.entropy;
  level = s.level;
  seq_ones = s.seq_ones;
  seq_zeros = s.seq_zeros;
  prev_bits = s.prev_bits;
  prev_bit = s.prev_bit;
  total_bits = s.total_bits;
  verdict = verdict;
  valid = v;
}

-- After the stuck-at test a call returns from every valid state: the doubling loop ends, and the
-- new state is as `Measured` says.
pub measured :
    (h : Health) (even b : Bool)
    → IsValid h
    → (h' : Health) × (measure h even b ≡ some h') × Measured h even b h'
measured h even b v = (
  record_outcome h2 even b,
  measure-eq h even b loop.1,
  Measured-Settled h even b loop.0 _ loop.2
      (Normalises-le _ loop.0 (update_probability_range h even b v).0 loop.2) (settled.0)
      (settled.1) (record_outcome-IsValid h2 even b h2-IsValid),
)
  where
    h1 : Health
    h1 = update_probability h even b

    loop : Stops 16 h1
    loop = count_entropy_returns h even b v

    h2 : Health
    h2 = doubled h1 loop.0

    h2-IsValid : IsValid h2
    h2-IsValid =
        unfold update_probability in
        doubled-IsValid h1 loop.0 v.0 v.1.context v.1.window v.1.level loop.2

    settled :
        Settled h2 (record_outcome h2 even b)
        × ((record_outcome h2 even b).ok_to_use ≡ ok (record_outcome h2 even b))
    settled = record_outcome-Settled h2 even b (h2-IsValid.1.window)
