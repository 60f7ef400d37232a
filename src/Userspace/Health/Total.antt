-- ===== src/Userspace/Health/Total.antt =====
-- Every call of `inmHealthCheckAddBit` returns, and what it leaves.
use infnoise.Base.{
  ◌⊎◌, ℕ, ◌+◌, ◌^◌, ◌≤◌, ◌<◌, ◌≡◌, refl, ◌∙◌, Bool, true, false, arith, some, if◌then◌else◌, ◌%◌,
  inl, inr, Bool-cases,
}
use infnoise.Userspace.Floats.{Floats, AreLaws}
use infnoise.Userspace.Health.{
  Health, min_data, take_bit, update_probability, scale_if, scale_stats, update_tables,
  scale_entropy, scale_zero_one_counts, record_outcome, measure, add_bit,
}
use infnoise.Userspace.Health.Invariant.{
  IsWithin, IsValid, take_bit-IsWithin, take_bit_level, take_bit_expected, IsValid-loose,
  update_tables-AreTables,
}
use infnoise.Userspace.Health.Doubling.{
  Counted-then, Counted-IsWithin, Normalised, Normalised-weaken, updated-Counted,
  count_entropy-Normalised, update_probability-AtLeast,
}

module _ {f : Floats} where
  -- What counting in the tables leaves alone.
  record SameCounts (h h' : Health f) : Type 0 where
    n : h'.n ≡ h.n
    prev_bits : h'.prev_bits ≡ h.prev_bits
    sampled : h'.num_bits_sampled ≡ h.num_bits_sampled
    ones : h'.total_ones ≡ h.total_ones
    zeros : h'.total_zeros ≡ h.total_zeros
    level : h'.entropy_level ≡ h.entropy_level
    expected : h'.expected_entropy_per_bit ≡ h.expected_entropy_per_bit
    probability : h'.current_probability ≡ h.current_probability

  update_tables-SameCounts : (h : Health f) (even b : Bool) → SameCounts h (update_tables h even b)
  unfolding update_tables scale_if scale_stats
  update_tables-SameCounts h even b = ground arith

  record Scaled (h h' : Health f) : Type 0 where
    n : h'.n ≡ h.n
    ones_even : h'.ones_even ≡ h.ones_even
    zeros_even : h'.zeros_even ≡ h.zeros_even
    ones_odd : h'.ones_odd ≡ h.ones_odd
    zeros_odd : h'.zeros_odd ≡ h.zeros_odd
    prev_bits : h'.prev_bits ≡ h.prev_bits
    window : h'.num_bits_sampled < min_data
    ones : h'.total_ones < min_data
    zeros : h'.total_zeros < min_data
    level : h'.entropy_level ≡ h.entropy_level
    expected : h'.expected_entropy_per_bit ≡ h.expected_entropy_per_bit
    probability : h'.current_probability ≡ h.current_probability

  scale-Scaled :
      (h : Health f)
      → h.num_bits_sampled ≤ min_data
      → h.total_ones ≤ min_data
      → h.total_zeros ≤ min_data
      → Scaled h (scale_zero_one_counts (scale_entropy h))
  unfolding scale_zero_one_counts scale_entropy
  scale-Scaled h p q r = ground arith

  record_outcome-IsValid :
      (h : Health f) (even b : Bool)
      → IsWithin (min_data + 1) h
      → IsValid (record_outcome h even b)
        × ((record_outcome h even b).entropy_level ≡ h.entropy_level)
        × ((record_outcome h even b).expected_entropy_per_bit ≡ h.expected_entropy_per_bit)
  unfolding record_outcome
  record_outcome-IsValid h even b v =
      let h1 = record h { num_bits_sampled = (h.num_bits_sampled + 1) % 2 ^ 32 } in
      let u = update_tables-SameCounts h1 even b in
      let t = update_tables-AreTables h1 even b v.context v.tables in
      let s =
        scale-Scaled (update_tables h1 even b) (omega (arith, u.sampled, v.window))
          (omega (arith, u.ones, v.ones)) (omega (arith, u.zeros, v.zeros)) in
      (
        record {
          at_least_one = omega (arith, s.n, u.n, v.at_least_one);
          at_most_30 = omega (arith, s.n, u.n, v.at_most_30);
          tables = (
            rw (s.n, s.ones_even) t.0,
            rw (s.n, s.zeros_even) t.1,
            rw (s.n, s.ones_odd) t.2,
            rw (s.n, s.zeros_odd) t.3,
          );
          context = rw (s.n, s.prev_bits, u.n, u.prev_bits) v.context;
          window = s.window;
          ones = s.ones;
          zeros = s.zeros;
          over_half = rw (s.probability, u.probability) v.over_half;
        },
        s.level ∙ u.level,
        s.expected ∙ u.expected,
      )

  -- What a call that ends in `measure` leaves.
  pub record Measured (fuel k : ℕ) (h : Health f) (even b : Bool) : Type 0 where
    pub after : Health f
    pub returns : measure fuel h even b ≡ some after
    pub valid : IsValid after
    pub level : after.entropy_level ≤ h.entropy_level + k
    pub expected : after.expected_entropy_per_bit ≡ h.expected_entropy_per_bit

  measured :
      (fuel k : ℕ) (h h1 : Health f) (even b : Bool)
      → IsWithin (min_data + 1) h
      → Normalised fuel k (update_probability h even b) h1
      → Measured fuel k h even b
  unfolding measure
  measured fuel k h h1 even b v r =
      let o =
        record_outcome-IsValid h1 even b
          (Counted-IsWithin (Counted-then (updated-Counted h even b) r.counted) r.over_half v) in
      record {
        after = record_outcome h1 even b;
        returns = rw (measure, r.returns) refl;
        valid = o.0;
        expected = o.2 ∙ (Counted-then (updated-Counted h even b) r.counted).expected;
        level = omega (arith, o.1, (Counted-then (updated-Counted h even b) r.counted).level);
      }

  -- What a call of `inmHealthCheckAddBit` leaves: a valid state when it accepts the bit; when it
  -- does not, the totals may stand at their limit.
  pub record Added (fuel : ℕ) (h : Health f) (even_bit odd_bit even : Bool) : Type 0 where
    pub after : Health f
    pub returns :
        add_bit fuel h even_bit odd_bit even ≡ some (after, (take_bit h even_bit odd_bit even).1)
    pub within : IsWithin (min_data + 1) after
    pub settled : ((take_bit h even_bit odd_bit even).1 ≡ false) ⊎ IsValid after
    pub level : after.entropy_level ≤ h.entropy_level + 16
    pub expected : after.expected_entropy_per_bit ≡ h.expected_entropy_per_bit

  add_bit-bad :
      (fuel : ℕ) (h : Health f) (even_bit odd_bit even : Bool)
      → IsValid h
      → (take_bit h even_bit odd_bit even).1 ≡ false
      → Added fuel h even_bit odd_bit even
  unfolding add_bit
  add_bit-bad fuel h even_bit odd_bit even v bad = record {
    after = (take_bit h even_bit odd_bit even).0;
    returns = rw (bad) refl;
    within = take_bit-IsWithin h even_bit odd_bit even v;
    settled = inl bad;
    level = omega (arith, take_bit_level h even_bit odd_bit even);
    expected = take_bit_expected h even_bit odd_bit even;
  }

  add_bit-good :
      (fuel : ℕ) (h : Health f) (even_bit odd_bit even : Bool)
      → (take_bit h even_bit odd_bit even).1 ≡ true
      → Measured fuel 16
          (take_bit h even_bit odd_bit even).0
          even
          (if even then even_bit else odd_bit)
      → Added fuel h even_bit odd_bit even
  unfolding add_bit
  add_bit-good fuel h even_bit odd_bit even good r = record {
    after = r.after;
    returns = rw (good, r.returns) refl;
    within = IsValid-loose r.valid;
    settled = inr r.valid;
    level = omega (arith, take_bit_level h even_bit odd_bit even, r.level);
    expected = r.expected ∙ take_bit_expected h even_bit odd_bit even;
  }

  module _ (laws : AreLaws f) where
    -- By the laws of the floating-point numbers, with fuel for more than sixteen rounds every call
    -- from a valid state returns, and its verdict is that of the test for long runs. When it accepts
    -- the bit the state is valid again; otherwise the totals of ones and zeros may stand at 80000.
    -- The entropy level grows by at most 16.
    pub add_bit_returns :
        (fuel : ℕ) (h : Health f) (even_bit odd_bit even : Bool)
        → IsValid h
        → 16 < fuel
        → Added fuel h even_bit odd_bit even
    add_bit_returns fuel h even_bit odd_bit even v lt =
        elim (Bool-cases (take_bit h even_bit odd_bit even).1) [
          | inr bad ↦ add_bit-bad fuel h even_bit odd_bit even v bad
          | inl good ↦
              let w = take_bit-IsWithin h even_bit odd_bit even v in
              let h1 = (take_bit h even_bit odd_bit even).0 in
              let b = if even then even_bit else odd_bit in
              let p = update_probability-AtLeast laws (min_data + 1) h1 even b w in
              let r =
                count_entropy-Normalised laws p.0 fuel (update_probability h1 even b) p.2 p.1
                  (omega (arith, p.1, lt)) in
              add_bit-good fuel h even_bit odd_bit even good
                (measured fuel 16 h1 r.0 even b w (Normalised-weaken p.1 r.1))
        ]
