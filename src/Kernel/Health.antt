-- ===== src/Kernel/Health.antt =====
-- software/kernel/infnoise_health.c: the entropy estimate and the fault tests that every bit of
-- the noise source is fed through. The state is `struct infnoise_health`.
pub mod FixedPoint
pub mod Doubling
pub mod Tables
pub mod Invariant
pub mod Measure
pub mod Total
pub mod History
pub mod Estimate
pub mod Faults
use infnoise.Base.{
  ℕ, zero, suc, ◌+◌, ◌-◌, ◌*◌, ◌/◌, bit_and, bit_or, Bool, true, false, ◌&&◌, not, List, [], map,
  Option, none, some, u32, u64, ◌<<<◌, ◌>>>◌, inc32, inc64, ltb, leb, ◌==◌, if◌then◌else◌, bool_eq,
  bit, get_or, set, replicate,
}
use infnoise.Kernel.Const.{
  table_size, min_data, min_sample_size, max_sequence, max_count, fp_shift, fp_one, fp_half,
  expected_entropy_fp, accuracy_fp,
}

-- A NULL table is the empty list: no index of it can be read.
pub record Health : Type 0 where
  pub ones_even : List ℕ
  pub zeros_even : List ℕ
  pub ones_odd : List ℕ
  pub zeros_odd : List ℕ
  pub prev_bits : ℕ
  pub num_bits_sampled : ℕ
  pub num_bits_of_entropy : ℕ
  pub entropy_level : ℕ
  pub total_bits : ℕ
  pub total_ones : ℕ
  pub total_zeros : ℕ
  pub even_misfires : ℕ
  pub odd_misfires : ℕ
  pub seq_zeros : ℕ
  pub seq_ones : ℕ
  pub current_prob : ℕ
  pub prev_bit : Bool
  pub prev_even : Bool
  pub prev_odd : Bool
  pub ok_to_use : Bool

-- `(u32)(((u64)a * b) >> FP_SHIFT)`
unfoldable pub fp_mul : ℕ → ℕ → ℕ
fp_mul a b = u32 (u64 (a * b) >>> fp_shift)

-- `(u32)(((u64)a << FP_SHIFT) / b)`
unfoldable pub fp_div : ℕ → ℕ → ℕ
fp_div a b = if b == 0 then fp_one else u32 (u64 (a <<< fp_shift) / b)

-- What `memset` leaves, with every pointer NULL.
abbrev pub cleared : Health
cleared = record {
  ones_even = [];
  zeros_even = [];
  ones_odd = [];
  zeros_odd = [];
  prev_bits = 0;
  num_bits_sampled = 0;
  num_bits_of_entropy = 0;
  entropy_level = 0;
  total_bits = 0;
  total_ones = 0;
  total_zeros = 0;
  even_misfires = 0;
  odd_misfires = 0;
  seq_zeros = 0;
  seq_ones = 0;
  current_prob = 0;
  prev_bit = false;
  prev_even = false;
  prev_odd = false;
  ok_to_use = false;
}

-- `vzalloc(table_size)`: zeroed memory, or NULL where the allocation fails.
unfoldable pub vzalloc_table : Bool → List ℕ
vzalloc_table got = if got then replicate table_size 0 else []

unfoldable pub free : Health → Health
free h = record h { ones_even = []; zeros_even = []; ones_odd = []; zeros_odd = [] }

-- The four arguments say which allocations succeed. `true` is the return value 0, and `false` is
-- -ENOMEM.
unfoldable pub init : Bool → Bool → Bool → Bool → Health × Bool
unfolding free
init a b c d =
    let h = record cleared {
      ones_even = vzalloc_table a;
      zeros_even = vzalloc_table b;
      ones_odd = vzalloc_table c;
      zeros_odd = vzalloc_table d;
    } in
    if a && b && c && d
    then (record h { current_prob = fp_one; ok_to_use = false }, true)
    else (free h, false)

unfoldable pub reset : Health → Health
reset h = record h {
  num_bits_sampled = 0;
  current_prob = fp_one;
  num_bits_of_entropy = 0;
  entropy_level = 0;
  total_ones = 0;
  total_zeros = 0;
  even_misfires = 0;
  odd_misfires = 0;
}

-- One table of the loop of `scale_stats`.
unfoldable pub halve_table : List ℕ → List ℕ
halve_table t = map (λ c. c >>> 1) t

unfoldable pub scale_stats : Health → Health
scale_stats h = record h {
  zeros_even = halve_table h.zeros_even;
  ones_even = halve_table h.ones_even;
  zeros_odd = halve_table h.zeros_odd;
  ones_odd = halve_table h.ones_odd;
}

unfoldable pub scale_entropy : Health → Health
scale_entropy h =
    if leb min_data h.num_bits_sampled
    then record h {
      num_bits_of_entropy = h.num_bits_of_entropy >>> 1;
      num_bits_sampled = h.num_bits_sampled >>> 1;
      even_misfires = h.even_misfires >>> 1;
      odd_misfires = h.odd_misfires >>> 1;
    }
    else h

unfoldable pub scale_zero_one_counts : Health → Health
scale_zero_one_counts h =
    let max_val = if ltb h.total_zeros h.total_ones then h.total_ones else h.total_zeros in
    if leb min_data max_val
    then record h { total_zeros = h.total_zeros >>> 1; total_ones = h.total_ones >>> 1 }
    else h

unfoldable pub estimate_entropy_per_bit : Health → ℕ
estimate_entropy_per_bit h =
    if h.num_bits_sampled == 0 then 0 else fp_div h.num_bits_of_entropy h.num_bits_sampled

unfoldable pub estimate_k : Health → ℕ
estimate_k h = u32 (fp_one + fp_mul (estimate_entropy_per_bit h) 62806)

unfoldable pub ok : Health → Bool
unfolding fp_mul fp_div
ok h =
    if ltb h.total_bits min_data
    then false
    else let entropy = estimate_entropy_per_bit h in
      leb (fp_div expected_entropy_fp accuracy_fp) entropy
      && leb entropy (fp_mul expected_entropy_fp accuracy_fp)

-- The selection of the bit, the misfire counters and the remembered comparators.
unfoldable pub track_misfires : Health → Bool → Bool → Bool → Health
track_misfires h even_bit odd_bit even =
    let h1 =
      if even
      then if bool_eq even_bit h.prev_even
        then h
        else record h { even_misfires = inc32 h.even_misfires }
      else if bool_eq odd_bit h.prev_odd
      then h
      else record h { odd_misfires = inc32 h.odd_misfires } in
    record h1 { prev_even = even_bit; prev_odd = odd_bit; total_bits = inc64 h1.total_bits }

-- `((prev_bits << 1) | prev_bit) & mask`
unfoldable pub next_prev_bits : ℕ → Bool → ℕ
next_prev_bits prev b = bit_and (bit_or (u32 (prev <<< 1)) (bit b)) (table_size - 1)

unfoldable pub push_history : Health → Bool → Health
push_history h b = record h { prev_bits = next_prev_bits h.prev_bits h.prev_bit; prev_bit = b }

-- The stuck-at test; `false` where the function returns false from it.
unfoldable pub check_stuck : Health → Bool → Health × Bool
check_stuck h b =
    let ones = record h {
      total_ones = inc32 h.total_ones;
      seq_ones = inc32 h.seq_ones;
      seq_zeros = 0;
    } in
    let zeros = record h {
      total_zeros = inc32 h.total_zeros;
      seq_zeros = inc32 h.seq_zeros;
      seq_ones = 0;
    } in
    if ltb min_sample_size h.num_bits_sampled
    then if b
      then (ones, not (ltb max_sequence ones.seq_ones))
      else (zeros, not (ltb max_sequence zeros.seq_zeros))
    else (h, true)

-- The counters of the current context, `zeros` and `ones`.
unfoldable pub zeros_of : Health → Bool → ℕ
zeros_of h even = get_or (if even then h.zeros_even else h.zeros_odd) h.prev_bits 0

unfoldable pub ones_of : Health → Bool → ℕ
ones_of h even = get_or (if even then h.ones_even else h.ones_odd) h.prev_bits 0

-- The probability after an outcome that was seen `seen` times out of `total`.
unfoldable pub scale_prob : ℕ → ℕ → ℕ → ℕ
scale_prob prob seen total =
    if ltb 0 total then if ltb 0 seen then fp_mul prob (fp_div seen total) else prob else prob

unfoldable pub update_probability : Health → Bool → Bool → Health
update_probability h even b =
    let zeros = zeros_of h even in
    let ones = ones_of h even in
    let total = u32 (zeros + ones) in
    record h { current_prob = scale_prob h.current_prob (if b then ones else zeros) total }

-- `while (current_prob <= FP_HALF)`, on fuel; `none` says that the fuel ran out.
unfoldable pub count_entropy : ℕ → Health → Option Health
count_entropy zero h = none
count_entropy (suc fuel) h =
    let rest = count_entropy fuel (record h {
      current_prob = u32 (h.current_prob <<< 1);
      num_bits_of_entropy = inc32 h.num_bits_of_entropy;
      entropy_level = if h.ok_to_use then inc32 h.entropy_level else h.entropy_level;
    }) in
    if leb h.current_prob fp_half then rest else some h

-- Sixteen doublings take any probability above 0 over one half.
abbrev pub doublings : ℕ
doublings = 17

-- `table[prev_bits]++`
unfoldable pub bump : List ℕ → ℕ → List ℕ
bump t i = set t i (inc32 (get_or t i 0))

unfoldable pub full_at : List ℕ → ℕ → Bool
full_at t i = leb max_count (get_or t i 0)

-- `if (table[prev_bits] >= INM_MAX_COUNT) scale_stats(health)`
unfoldable pub scale_if : Bool → Health → Health
scale_if reached h = if reached then scale_stats h else h

unfoldable pub update_tables : Health → Bool → Bool → Health
unfolding bump full_at scale_if
update_tables h even b =
    let ones_even = bump h.ones_even h.prev_bits in
    let ones_odd = bump h.ones_odd h.prev_bits in
    let zeros_even = bump h.zeros_even h.prev_bits in
    let zeros_odd = bump h.zeros_odd h.prev_bits in
    if b
    then if even
      then scale_if (full_at ones_even h.prev_bits) (record h { ones_even = ones_even })
      else scale_if (full_at ones_odd h.prev_bits) (record h { ones_odd = ones_odd })
    else if even
    then scale_if (full_at zeros_even h.prev_bits) (record h { zeros_even = zeros_even })
    else scale_if (full_at zeros_odd h.prev_bits) (record h { zeros_odd = zeros_odd })

-- What follows the doubling loop, up to `return true`.
unfoldable pub record_outcome : Health → Bool → Bool → Health
record_outcome h even b =
    let h1 = update_tables (record h { num_bits_sampled = inc32 h.num_bits_sampled }) even b in
    let h2 = scale_zero_one_counts (scale_entropy h1) in record h2 { ok_to_use = ok h2 }

-- What follows the stuck-at test.
unfoldable pub measure : Health → Bool → Bool → Option Health
measure h even b = elim (count_entropy doublings (update_probability h even b)) [
  | none ↦ none
  | some h1 ↦ some (record_outcome h1 even b)
]

-- Everything up to the end of the stuck-at test.
unfoldable pub take_bit : Health → Bool → Bool → Bool → Health × Bool
take_bit h even_bit odd_bit even =
    let b = if even then even_bit else odd_bit in
    check_stuck (push_history (track_misfires h even_bit odd_bit even) b) b

-- `none` says that the doubling loop does not stop.
unfoldable pub add_bit : Health → Bool → Bool → Bool → Option (Health × Bool)
add_bit h even_bit odd_bit even =
    let (h1, good) = take_bit h even_bit odd_bit even in
    if good
    then elim (measure h1 even (if even then even_bit else odd_bit)) [
      | none ↦ none
      | some h2 ↦ some (h2, true)
    ]
    else some (h1, false)

unfoldable pub get_entropy : Health → ℕ
get_entropy h = h.entropy_level

unfoldable pub clear_entropy : Health → Health
clear_entropy h = record h { entropy_level = 0 }

-- Every product is taken in 32 bits, as in the source.
unfoldable pub entropy_on_target : ℕ → ℕ → Bool
unfolding fp_mul
entropy_on_target entropy num_bits =
    let expected = fp_mul (u32 (num_bits <<< fp_shift)) expected_entropy_fp >>> fp_shift in
    leb (u32 (expected <<< fp_shift)) (u32 (entropy * accuracy_fp))

-- `struct infnoise_stats`, without the padding.
pub record Stats : Type 0 where
  pub total_bits : ℕ
  pub total_ones : ℕ
  pub total_zeros : ℕ
  pub even_misfires : ℕ
  pub odd_misfires : ℕ
  pub entropy_estimate : ℕ
  pub k_estimate : ℕ
  pub warmup_complete : Bool
  pub health_ok : Bool

unfoldable pub get_stats : Health → Stats
get_stats h = record {
  total_bits = h.total_bits;
  total_ones = h.total_ones;
  total_zeros = h.total_zeros;
  even_misfires = h.even_misfires;
  odd_misfires = h.odd_misfires;
  entropy_estimate = estimate_entropy_per_bit h;
  k_estimate = estimate_k h;
  warmup_complete = leb min_data h.total_bits;
  health_ok = h.ok_to_use;
}
