-- ===== src/Tools/EntCheck/Scale.antt =====
-- The counts of the entropy check stay within their bounds, from the first state on.
use native.Mathlib.Nat.{one-le-pow}
use infnoise.Base.{
  ℕ, ◌+◌, ◌*◌, ◌^◌, ◌≤◌, ◌<◌, ◌≡◌, inl, inr, Bool, false, length-replicate, All-replicate,
  replicate, leb, arith, if◌then◌else◌, Bool-cases, ◌==◌,
}
use infnoise.Counters.{IsTable, zeroed-IsTable}
use infnoise.Userspace.Floats.{Floats}
use infnoise.Tools.EntCheck.{
  EntCheck, min_data, max_count, initial, scale_stats, scale_entropy, scale_zero_one_counts,
  scale_if, update_tables, record_bit,
}
use infnoise.Tools.EntCheck.Tables.{AreTables}
use infnoise.Tools.EntCheck.Valid.{IsWithin, IsValid, update_tables-IsWithin}

module _ {f : Floats} where
  -- The counts and the probability may be any within the bounds.
  pub recounted-IsWithin :
      {limit most limit' most' samples bits ones zeros : ℕ} {p : f.Double} (s : EntCheck f)
      → IsWithin limit most s
      → samples < most'
      → bits ≤ 16 * samples
      → ones < limit'
      → zeros < limit'
      → f.le p f.half ≡ false
      → IsWithin limit' most' (record s {
        num_bits_sampled = samples;
        num_bits_of_entropy = bits;
        total_ones = ones;
        total_zeros = zeros;
        current_probability = p;
      })
  recounted-IsWithin s v few little few_ones few_zeros over = record {
    at_least_one = v.at_least_one;
    at_most_30 = v.at_most_30;
    some_streams = v.some_streams;
    few_streams = v.few_streams;
    ones = v.ones;
    zeros = v.zeros;
    context = v.context;
    window = few;
    total_ones = few_ones;
    total_zeros = few_zeros;
    credited = little;
    over_half = over;
  }

  scale_entropy-IsWithin :
      {limit : ℕ} (s : EntCheck f)
      → IsWithin limit (min_data + 1) s
      → IsWithin limit min_data (scale_entropy s)
  unfolding scale_entropy
  scale_entropy-IsWithin s v = elim (Bool-cases (s.num_bits_sampled == min_data)) [
    | inl full ↦ rw full (
        recounted-IsWithin s v (ground (arith, v.window)) (ground (arith, v.credited, full))
          v.total_ones v.total_zeros v.over_half)
    | inr room ↦ rw room (
        recounted-IsWithin s v (ground (arith, v.window, room)) v.credited v.total_ones
          v.total_zeros v.over_half)
  ]

  scale_zero_one_counts-IsValid :
      (s : EntCheck f) → IsWithin (min_data + 1) min_data s → IsValid (scale_zero_one_counts s)
  unfolding scale_zero_one_counts
  scale_zero_one_counts-IsValid s v =
      elim (Bool-cases
        ((if leb s.total_ones s.total_zeros then s.total_zeros else s.total_ones) == min_data)) [
          | inl full ↦ rw full (
              recounted-IsWithin s v v.window v.credited (ground (arith, v.total_ones))
                (ground (arith, v.total_zeros)) v.over_half)
          | inr room ↦ rw room (
              recounted-IsWithin s v v.window v.credited
                (ground (arith, v.total_ones, v.total_zeros, room))
                (ground (arith, v.total_ones, v.total_zeros, room)) v.over_half)
        ]

  -- After the loop, `p` and `bits` being what it ends with.
  pub record_bit-IsValid :
      (s : EntCheck f) (p : f.Double) (bits stream : ℕ) (b : Bool)
      → stream < s.num_streams
      → IsWithin (min_data + 1) min_data s
      → f.le p f.half ≡ false
      → bits ≤ s.num_bits_of_entropy + 16
      → IsValid
          (record_bit (record s { current_probability = p; num_bits_of_entropy = bits }) stream b)
  unfolding record_bit
  record_bit-IsValid s p bits stream b lt v over few = scale_zero_one_counts-IsValid _ (
      scale_entropy-IsWithin _ (
        update_tables-IsWithin _ stream b lt (
          recounted-IsWithin s v (omega (arith, v.window)) (omega (arith, v.window, v.credited))
            v.total_ones v.total_zeros over)))

  pub initial-IsValid :
      (n num_streams : ℕ)
      → 1 ≤ n
      → n ≤ 30
      → 0 < num_streams
      → num_streams < 256
      → f.le f.one f.half ≡ false
      → IsValid {f = f} (initial n num_streams)
  unfolding initial
  initial-IsValid n num_streams low high some_streams few over = record {
    at_least_one = low;
    at_most_30 = high;
    some_streams = some_streams;
    few_streams = few;
    ones = fresh_tables;
    zeros = fresh_tables;
    context = omega (arith, one-le-pow n 2);
    window = omega arith;
    total_ones = omega arith;
    total_zeros = omega arith;
    credited = omega arith;
    over_half = over;
  }
    where
      fresh_tables : AreTables n num_streams max_count (replicate num_streams (replicate (2 ^ n) 0))
      fresh_tables = record {
        allocated = length-replicate num_streams _;
        each =
            All-replicate (λ t. IsTable (2 ^ n) max_count t) num_streams _
              (zeroed-IsTable (omega arith));
      }

  pub total_bits-record_bit :
      (s : EntCheck f) (stream : ℕ) (b : Bool) → (record_bit s stream b).total_bits ≡ s.total_bits
  unfolding record_bit scale_zero_one_counts scale_entropy update_tables scale_if scale_stats
  total_bits-record_bit s stream b = ground arith
