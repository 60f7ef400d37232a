-- ===== src/Userspace/Health.antt =====
-- software/healthcheck.c: the health check of the library, in floating point. What it prints is
-- left out.
pub mod Invariant
pub mod Doubling
pub mod Total
pub mod Start
use infnoise.Base.{
  ℕ, zero, suc, ◌+◌, ◌-◌, ◌*◌, ◌^◌, Bool, true, false, ◌&&◌, ◌||◌, not, List, [], Option, none,
  some, bit_and, bit_or, u32, ◌<<<◌, ◌>>>◌, inc32, inc64, ltb, leb, ◌==◌, if◌then◌else◌, bool_eq,
  get_or, replicate,
}
use infnoise.Counters.{bump, halve, reaches}
use infnoise.Userspace.Floats.{Floats}

abbrev pub min_data : ℕ
min_data = 80000

abbrev pub max_sequence : ℕ
max_sequence = 20

abbrev pub max_count : ℕ
max_count = 2 ^ 14

-- A NULL table is the empty list.
pub record Health (f : Floats) : Type 0 where
  pub n : ℕ
  pub k : f.Double
  pub expected_entropy_per_bit : f.Double
  pub debug : Bool
  pub ones_even : List ℕ
  pub zeros_even : List ℕ
  pub ones_odd : List ℕ
  pub zeros_odd : List ℕ
  pub prev_bits : ℕ
  pub num_bits_sampled : ℕ
  pub num_bits_of_entropy : ℕ
  pub current_probability : f.Double
  pub total_bits : ℕ
  pub prev_bit : Bool
  pub entropy_level : ℕ
  pub num_sequential_zeros : ℕ
  pub num_sequential_ones : ℕ
  pub total_ones : ℕ
  pub total_zeros : ℕ
  pub even_misfires : ℕ
  pub odd_misfires : ℕ
  pub prev_even : Bool
  pub prev_odd : Bool

-- `calloc((size_t)1u << N, sizeof(uint32_t))`
unfoldable pub calloc_table : ℕ → Bool → List ℕ
calloc_table n got = if got then replicate (2 ^ n) 0 else []

-- `(prevBits << 1) & ((1 << N) - 1)`, with the previous bit joined afterwards.
unfoldable pub next_prev_bits : ℕ → ℕ → Bool → ℕ
next_prev_bits n prev b =
    let shifted = bit_and (u32 (prev <<< 1)) (2 ^ n - 1) in if b then bit_or shifted 1 else shifted

-- `currentProbability *= (double)seen/total`, unless nothing was seen.
unfoldable pub scale_probability : (f : Floats) → f.Double → ℕ → ℕ → f.Double
scale_probability f p seen total =
    if seen == 0 then p else f.mul p (f.div (f.of_u32 seen) (f.of_u32 total))

module _ {f : Floats} where
  open f use {one, half, two, accuracy, mul, div, le, lt, of_u32, to_u32, log2_of, exp2_of}

  -- `inmHealthCheckStop`
  unfoldable pub stop : Health f → Health f
  stop h = record h { ones_even = []; zeros_even = []; ones_odd = []; zeros_odd = [] }

  unfoldable pub reset_stats : Health f → Health f
  reset_stats h = record h {
    num_bits_sampled = 0;
    current_probability = one;
    num_bits_of_entropy = 0;
    entropy_level = 0;
    total_ones = 0;
    total_zeros = 0;
    even_misfires = 0;
    odd_misfires = 0;
  }

  -- `inmHealthCheckStart`; the four Booleans say which allocations succeed.
  unfoldable pub start :
      Health f → ℕ → f.Double → Bool → Bool → Bool → Bool → Bool → Health f × Bool
  unfolding stop reset_stats calloc_table
  start h n k debug a b c d =
      let h1 = reset_stats (record h {
        debug = debug;
        k = k;
        n = n;
        prev_bits = 0;
        ones_even = calloc_table n a;
        zeros_even = calloc_table n b;
        ones_odd = calloc_table n c;
        zeros_odd = calloc_table n d;
        expected_entropy_per_bit = log2_of k;
        total_bits = 0;
        prev_bit = false;
        num_sequential_zeros = 0;
        num_sequential_ones = 0;
      }) in
      if ltb n 1 || ltb 30 n
      then (h, false)
      else (if a && b && c && d then (h1, true) else (stop h1, false))

  unfoldable pub scale_stats : Health f → Health f
  scale_stats h = record h {
    zeros_even = halve h.zeros_even;
    ones_even = halve h.ones_even;
    zeros_odd = halve h.zeros_odd;
    ones_odd = halve h.ones_odd;
  }

  unfoldable pub scale_entropy : Health f → Health f
  scale_entropy h =
      if h.num_bits_sampled == min_data
      then record h {
        num_bits_of_entropy = h.num_bits_of_entropy >>> 1;
        num_bits_sampled = h.num_bits_sampled >>> 1;
        even_misfires = h.even_misfires >>> 1;
        odd_misfires = h.odd_misfires >>> 1;
      }
      else h

  unfoldable pub scale_zero_one_counts : Health f → Health f
  scale_zero_one_counts h =
      let max_val = if leb h.total_ones h.total_zeros then h.total_zeros else h.total_ones in
      if max_val == min_data
      then record h { total_zeros = h.total_zeros >>> 1; total_ones = h.total_ones >>> 1 }
      else h

  unfoldable pub estimate_entropy_per_bit : Health f → f.Double
  estimate_entropy_per_bit h = div (of_u32 h.num_bits_of_entropy) (of_u32 h.num_bits_sampled)

  unfoldable pub estimate_k : Health f → f.Double
  estimate_k h = exp2_of (div (of_u32 h.num_bits_of_entropy) (of_u32 h.num_bits_sampled))

  unfoldable pub ok_to_use_data : Health f → Bool
  ok_to_use_data h =
      let entropy = estimate_entropy_per_bit h in
      leb min_data h.total_bits
      && le h.expected_entropy_per_bit (mul entropy accuracy)
      && le (div entropy accuracy) h.expected_entropy_per_bit

  -- The selection of the bit, the misfire counters and the remembered comparators.
  unfoldable pub track_misfires : Health f → Bool → Bool → Bool → Health f
  track_misfires h even_bit odd_bit even =
      let h1 =
        if even
        then record h {
          even_misfires =
              if bool_eq even_bit h.prev_even then h.even_misfires else inc32 h.even_misfires;
        }
        else record h {
          odd_misfires =
              if bool_eq odd_bit h.prev_odd then h.odd_misfires else inc32 h.odd_misfires;
        } in
      record h1 { prev_even = even_bit; prev_odd = odd_bit; total_bits = inc64 h1.total_bits }

  unfoldable pub push_history : Health f → Bool → Health f
  unfolding next_prev_bits
  push_history h b = record h {
    prev_bits = next_prev_bits h.n h.prev_bits h.prev_bit;
    prev_bit = b;
  }

  -- The test for long runs; a run that is too long is forgotten when it is reported.
  unfoldable pub check_sequence : Health f → Bool → Health f × Bool
  check_sequence h b =
      let ones = record h {
        total_ones = inc32 h.total_ones;
        num_sequential_ones = inc32 h.num_sequential_ones;
        num_sequential_zeros = 0;
      } in
      let zeros = record h {
        total_zeros = inc32 h.total_zeros;
        num_sequential_zeros = inc32 h.num_sequential_zeros;
        num_sequential_ones = 0;
      } in
      if ltb 100 h.num_bits_sampled
      then if b
        then if ltb max_sequence ones.num_sequential_ones
          then (record ones { num_sequential_ones = 0 }, false)
          else (ones, true)
        else if ltb max_sequence zeros.num_sequential_zeros
        then (record zeros { num_sequential_zeros = 0 }, false)
        else (zeros, true)
      else (h, true)

  unfoldable pub zeros_of : Health f → Bool → ℕ
  zeros_of h even = get_or (if even then h.zeros_even else h.zeros_odd) h.prev_bits 0

  unfoldable pub ones_of : Health f → Bool → ℕ
  ones_of h even = get_or (if even then h.ones_even else h.ones_odd) h.prev_bits 0

  unfoldable pub update_probability : Health f → Bool → Bool → Health f
  update_probability h even b =
      let zeros = zeros_of h even in
      let ones = ones_of h even in
      record h {
        current_probability =
            scale_probability f h.current_probability (if b then ones else zeros)
              (u32 (zeros + ones));
      }

  -- One round of the loop that counts entropy.
  unfoldable pub double_probability : Health f → Health f
  double_probability h =
      let h1 = record h {
        current_probability = mul h.current_probability two;
        num_bits_of_entropy = inc32 h.num_bits_of_entropy;
      } in
      if ok_to_use_data h1 then record h1 { entropy_level = inc32 h1.entropy_level } else h1

  -- `while (currentProbability <= 0.5)`, on fuel.
  unfoldable pub count_entropy : ℕ → Health f → Option (Health f)
  unfolding double_probability
  count_entropy zero h = none
  count_entropy (suc fuel) h =
      let rest = count_entropy fuel (double_probability h) in
      if le h.current_probability half then rest else some h

  -- `if (table[prevBits] == INM_MAX_COUNT) scaleStats(hc)`
  unfoldable pub scale_if : Bool → Health f → Health f
  scale_if reached h = if reached then scale_stats h else h

  unfoldable pub update_tables : Health f → Bool → Bool → Health f
  unfolding scale_if
  update_tables h even b =
      let ones_even = bump h.ones_even h.prev_bits in
      let ones_odd = bump h.ones_odd h.prev_bits in
      let zeros_even = bump h.zeros_even h.prev_bits in
      let zeros_odd = bump h.zeros_odd h.prev_bits in
      if b
      then if even
        then scale_if (reaches max_count ones_even h.prev_bits) (record h { ones_even = ones_even })
        else scale_if (reaches max_count ones_odd h.prev_bits) (record h { ones_odd = ones_odd })
      else if even
      then scale_if (reaches max_count zeros_even h.prev_bits)
          (record h { zeros_even = zeros_even })
      else scale_if (reaches max_count zeros_odd h.prev_bits) (record h { zeros_odd = zeros_odd })

  -- What follows the loop.
  unfoldable pub record_outcome : Health f → Bool → Bool → Health f
  record_outcome h even b =
      let h1 = record h { num_bits_sampled = inc32 h.num_bits_sampled } in
      scale_zero_one_counts (scale_entropy (update_tables h1 even b))

  -- What follows the test for long runs.
  unfoldable pub measure : ℕ → Health f → Bool → Bool → Option (Health f)
  measure fuel h even b = elim (count_entropy fuel (update_probability h even b)) [
    | none ↦ none
    | some h1 ↦ some (record_outcome h1 even b)
  ]

  unfoldable pub take_bit : Health f → Bool → Bool → Bool → Health f × Bool
  take_bit h even_bit odd_bit even =
      let b = if even then even_bit else odd_bit in
      check_sequence (push_history (track_misfires h even_bit odd_bit even) b) b

  -- `inmHealthCheckAddBit`; `none` says that the loop has not ended within the fuel.
  unfoldable pub add_bit : ℕ → Health f → Bool → Bool → Bool → Option (Health f × Bool)
  add_bit fuel h even_bit odd_bit even =
      let (h1, good) = take_bit h even_bit odd_bit even in
      if good
      then elim (measure fuel h1 even (if even then even_bit else odd_bit)) [
        | none ↦ none
        | some h2 ↦ some (h2, true)
      ]
      else some (h1, false)

  unfoldable pub get_entropy_level : Health f → ℕ
  get_entropy_level h = h.entropy_level

  unfoldable pub clear_entropy_level : Health f → Health f
  clear_entropy_level h = record h { entropy_level = 0 }

  unfoldable pub entropy_on_target : Health f → ℕ → ℕ → Bool
  entropy_on_target h entropy num_bits =
      let expected = to_u32 (mul (of_u32 num_bits) h.expected_entropy_per_bit) in
      lt (of_u32 expected) (mul (of_u32 entropy) accuracy)
