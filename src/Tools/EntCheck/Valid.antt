-- ===== src/Tools/EntCheck/Valid.antt =====
-- The invariant of the state of the entropy check, and the steps on the tables.
use native.Mathlib.Nat.{mod-lt, one-le-pow}
use infnoise.Base.{
  ℕ, ◌+◌, ◌*◌, ◌^◌, ◌≤◌, ◌<◌, ◌≡◌, inl, inr, refl, Bool, true, false, List, [], get_or, subst, sym,
  arith, Bool-cases, bit,
}
use infnoise.Counters.{bump, reaches}
use infnoise.Userspace.Floats.{Floats}
use infnoise.Userspace.Health.Invariant.{next_prev_bits_lem}
use infnoise.Tools.EntCheck.{
  EntCheck, min_data, max_count, scale_stats, take_bit, scale_if, update_tables,
}
use infnoise.Tools.EntCheck.Tables.{
  AreTables, loose-AreTables, halve-AreTables, bumped-loose, bumped-AreTables,
}

module _ {f : Floats} where
  -- The context indexes the tables, there is a table of each kind for each of at most 255 streams, no
  -- counter has reached its limit, the totals of ones and zeros are below `limit` and the samples are
  -- below `most`, at most sixteen bits
  -- of entropy are credited for a sample, and the probability is above one half.
  pub record IsWithin (limit most : ℕ) (s : EntCheck f) : Type 0 where
    pub at_least_one : 1 ≤ s.n
    pub at_most_30 : s.n ≤ 30
    pub some_streams : 0 < s.num_streams
    pub few_streams : s.num_streams < 256
    pub ones : AreTables s.n s.num_streams max_count s.ones
    pub zeros : AreTables s.n s.num_streams max_count s.zeros
    pub context : s.prev_bits < 2 ^ s.n
    pub window : s.num_bits_sampled < most
    pub total_ones : s.total_ones < limit
    pub total_zeros : s.total_zeros < limit
    pub credited : s.num_bits_of_entropy ≤ 16 * s.num_bits_sampled
    pub over_half : f.le s.current_probability f.half ≡ false

  abbrev pub IsValid : EntCheck f → Type 0
  IsValid s = IsWithin min_data min_data s

  pub take_bit-IsWithin :
      (s : EntCheck f) (b : Bool) → IsValid s → IsWithin (min_data + 1) min_data (take_bit s b)
  unfolding take_bit
  take_bit-IsWithin s b v = record {
    at_least_one = v.at_least_one;
    at_most_30 = v.at_most_30;
    some_streams = v.some_streams;
    few_streams = v.few_streams;
    ones = v.ones;
    zeros = v.zeros;
    context =
        rw (next_prev_bits_lem s.n s.prev_bits s.prev_bit v.at_least_one v.at_most_30 v.context)
          (mod-lt (2 * s.prev_bits + bit s.prev_bit) (omega (arith, one-le-pow s.n 2)));
    window = v.window;
    total_ones = ground (arith, v.total_ones);
    total_zeros = ground (arith, v.total_zeros);
    credited = v.credited;
    over_half = v.over_half;
  }

  -- The part of the state that `scale_if` works on.
  update_tables-AreTables :
      (s : EntCheck f) (stream : ℕ) (b : Bool)
      → stream < s.num_streams
      → s.prev_bits < 2 ^ s.n
      → AreTables s.n s.num_streams max_count s.ones
      → AreTables s.n s.num_streams max_count s.zeros
      → AreTables s.n s.num_streams max_count (update_tables s stream b).ones
        × AreTables s.n s.num_streams max_count (update_tables s stream b).zeros
  unfolding update_tables scale_if scale_stats
  update_tables-AreTables s stream true lt inside o z =
      elim (Bool-cases
        (reaches max_count (bump (get_or s.ones stream []) s.prev_bits) s.prev_bits)) [
          | inl full ↦ rw full (
            halve-AreTables _ (omega arith)
                (bumped-loose s.ones stream s.prev_bits (omega arith) lt o),
            halve-AreTables s.zeros (omega arith) (loose-AreTables s.zeros z),
          )
          | inr room ↦ rw room (
            bumped-AreTables s.ones stream s.prev_bits (omega arith) lt inside (omega arith) o room,
            z,
          )
        ]
  update_tables-AreTables s stream false lt inside o z =
      elim (Bool-cases
        (reaches max_count (bump (get_or s.zeros stream []) s.prev_bits) s.prev_bits)) [
          | inl full ↦ rw full (
            halve-AreTables s.ones (omega arith) (loose-AreTables s.ones o),
            halve-AreTables _ (omega arith)
                (bumped-loose s.zeros stream s.prev_bits (omega arith) lt z),
          )
          | inr room ↦ rw room (
            o,
            bumped-AreTables s.zeros stream s.prev_bits (omega arith) lt inside (omega arith) z
                room,
          )
        ]

  update_tables_lem :
      (s : EntCheck f) (stream : ℕ) (b : Bool)
      → update_tables s stream b ≡ record s {
        ones = (update_tables s stream b).ones;
        zeros = (update_tables s stream b).zeros;
      }
  unfolding update_tables scale_if scale_stats
  update_tables_lem s stream true =
      elim (Bool-cases
        (reaches max_count (bump (get_or s.ones stream []) s.prev_bits) s.prev_bits)) [
          | inl full ↦ rw full refl
          | inr room ↦ rw room refl
        ]
  update_tables_lem s stream false =
      elim (Bool-cases
        (reaches max_count (bump (get_or s.zeros stream []) s.prev_bits) s.prev_bits)) [
          | inl full ↦ rw full refl
          | inr room ↦ rw room refl
        ]

  with_tables :
      {limit most : ℕ} (s : EntCheck f) {ones zeros : List (List ℕ)}
      → IsWithin limit most s
      → AreTables s.n s.num_streams max_count ones
      → AreTables s.n s.num_streams max_count zeros
      → IsWithin limit most (record s { ones = ones; zeros = zeros })
  with_tables s v o z = record {
    at_least_one = v.at_least_one;
    at_most_30 = v.at_most_30;
    some_streams = v.some_streams;
    few_streams = v.few_streams;
    ones = o;
    zeros = z;
    context = v.context;
    window = v.window;
    total_ones = v.total_ones;
    total_zeros = v.total_zeros;
    credited = v.credited;
    over_half = v.over_half;
  }

  pub update_tables-IsWithin :
      {limit most : ℕ} (s : EntCheck f) (stream : ℕ) (b : Bool)
      → stream < s.num_streams
      → IsWithin limit most s
      → IsWithin limit most (update_tables s stream b)
  update_tables-IsWithin {limit} {most} s stream b lt v =
      let tables = update_tables-AreTables s stream b lt v.context v.ones v.zeros in
      subst (IsWithin limit most) (sym (update_tables_lem s stream b))
        (with_tables s v tables.0 tables.1)
