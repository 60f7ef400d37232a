-- ===== src/Userspace/Health/Doubling.antt =====
-- The loop of `inmHealthCheckAddBit` that doubles the probability ends after at most sixteen rounds,
-- by the laws of the floating-point numbers.
use infnoise.Base.{
  ℕ, zero, suc, ◌+◌, ◌^◌, ◌≤◌, ◌<◌, ◌≡◌, refl, ◌∙◌, Bool, true, false, arith, some, if◌then◌else◌,
  u32, ◌==◌, inl, inr, Bool-cases,
}
use infnoise.Counters.{get_or-IsTable}
use infnoise.Userspace.Floats.{Floats, AreLaws}
use infnoise.Userspace.Health.{
  Health, max_count, zeros_of, ones_of, scale_probability, update_probability, double_probability,
  count_entropy,
}
use infnoise.Userspace.Health.Invariant.{IsWithin}

module _ {f : Floats} where
  -- The second state differs from the first in the probability and the counts of entropy only, and
  -- the level is at most `k` higher.
  pub record Counted (k : ℕ) (h h' : Health f) : Type 0 where
    pub n : h'.n ≡ h.n
    pub ones_even : h'.ones_even ≡ h.ones_even
    pub zeros_even : h'.zeros_even ≡ h.zeros_even
    pub ones_odd : h'.ones_odd ≡ h.ones_odd
    pub zeros_odd : h'.zeros_odd ≡ h.zeros_odd
    pub prev_bits : h'.prev_bits ≡ h.prev_bits
    pub sampled : h'.num_bits_sampled ≡ h.num_bits_sampled
    pub ones : h'.total_ones ≡ h.total_ones
    pub zeros : h'.total_zeros ≡ h.total_zeros
    pub level : h'.entropy_level ≤ h.entropy_level + k
    pub expected : h'.expected_entropy_per_bit ≡ h.expected_entropy_per_bit

  Counted-refl : (h : Health f) → Counted 0 h h
  Counted-refl h = record {
    n = refl;
    ones_even = refl;
    zeros_even = refl;
    ones_odd = refl;
    zeros_odd = refl;
    prev_bits = refl;
    sampled = refl;
    ones = refl;
    zeros = refl;
    expected = refl;
    level = omega arith;
  }

  Counted-step :
      (h : Health f) (k : ℕ) {h' : Health f}
      → Counted k (double_probability h) h'
      → Counted (suc k) h h'
  unfolding double_probability
  Counted-step h k c = ground arith

  pub Counted-weaken : {h h' : Health f} {j k : ℕ} → j ≤ k → Counted j h h' → Counted k h h'
  Counted-weaken le c = ground arith

  doubled_probability :
      (h : Health f)
      → (double_probability h).current_probability ≡ f.mul h.current_probability f.two
  unfolding double_probability
  doubled_probability h = ground arith

  -- The result of the loop.
  pub record Normalised (fuel k : ℕ) (h h' : Health f) : Type 0 where
    pub returns : count_entropy fuel h ≡ some h'
    pub counted : Counted k h h'
    pub over_half : f.le h'.current_probability f.half ≡ false

  pub Normalised-weaken :
      {fuel j k : ℕ} {h h' : Health f} → j ≤ k → Normalised fuel j h h' → Normalised fuel k h h'
  Normalised-weaken le r = record {
    returns = r.returns;
    counted = Counted-weaken le r.counted;
    over_half = r.over_half;
  }

  stops_at_once :
      (fuel k : ℕ) (h : Health f)
      → f.le h.current_probability f.half ≡ false
      → Normalised (suc fuel) k h h
  unfolding count_entropy
  stops_at_once fuel k h e = record {
    returns = rw e refl;
    counted = Counted-weaken (omega arith) (Counted-refl h);
    over_half = e;
  }

  goes_on :
      (fuel k : ℕ) (h : Health f) {h' : Health f}
      → f.le h.current_probability f.half ≡ true
      → Normalised fuel k (double_probability h) h'
      → Normalised (suc fuel) (suc k) h h'
  unfolding count_entropy
  goes_on fuel k h e r = record {
    returns = rw e r.returns;
    counted = Counted-step h k r.counted;
    over_half = r.over_half;
  }

  module _ (laws : AreLaws f) where
    open laws use {AtLeast, above_half, times_ratio, doubled, done}

    pub count_entropy-Normalised :
        (k fuel : ℕ) (h : Health f)
        → AtLeast h.current_probability k
        → k ≤ 16
        → k < fuel
        → (h' : Health f) × Normalised fuel k h h'
    count_entropy-Normalised k zero h p few lt = absurd (omega arith)
    count_entropy-Normalised zero (suc fuel) h p few lt =
        (h, stops_at_once fuel 0 h (done h.current_probability p))
    count_entropy-Normalised (suc k) (suc fuel) h p few lt =
        elim (Bool-cases (f.le h.current_probability f.half)) [
          | inr over ↦ (h, stops_at_once fuel (suc k) h over)
          | inl under ↦
              let rest =
                count_entropy-Normalised k fuel (double_probability h)
                  (rw (doubled_probability h) (doubled h.current_probability k p (omega arith)))
                  (omega arith) (omega arith) in
              (rest.0, goes_on fuel k h under rest.1)
        ]

    pub scale_probability-AtLeast :
        (p : f.Double) (seen total : ℕ)
        → f.le p f.half ≡ false
        → seen ≤ total
        → total ≤ 2 ^ 15
        → (k : ℕ) × (k ≤ 16) × AtLeast (scale_probability f p seen total) k
    unfolding scale_probability
    scale_probability-AtLeast p zero total over le small = (1, omega arith, above_half p over)
    scale_probability-AtLeast p (suc seen) total over le small =
        let some_seen : (suc seen == 0) ≡ false = ground arith in
        (
          16,
          omega arith,
          rw some_seen (
              times_ratio p 1 (suc seen) total 15 (above_half p over) (omega arith) le small
                (omega arith)),
        )

    pub update_probability-AtLeast :
        (limit : ℕ) (h : Health f) (even b : Bool)
        → IsWithin limit h
        → (k : ℕ) × (k ≤ 16) × AtLeast (update_probability h even b).current_probability k
    unfolding update_probability zeros_of ones_of
    update_probability-AtLeast limit h even b v =
        scale_probability-AtLeast h.current_probability
          (if b then ones_of h even else zeros_of h even) (u32 (zeros_of h even + ones_of h even))
          v.over_half (seen b) (omega (arith, small))
      where
        counters : (even : Bool) → (zeros_of h even < max_count) × (ones_of h even < max_count)
        counters true = (
          get_or-IsTable h.prev_bits (omega arith) v.tables.1,
          get_or-IsTable h.prev_bits (omega arith) v.tables.0,
        )
        counters false = (
          get_or-IsTable h.prev_bits (omega arith) v.tables.3,
          get_or-IsTable h.prev_bits (omega arith) v.tables.2,
        )

        small : (zeros_of h even < max_count) × (ones_of h even < max_count)
        small = counters even

        seen :
            (b : Bool)
            → (if b then ones_of h even else zeros_of h even)
              ≤ u32 (zeros_of h even + ones_of h even)
        seen true = omega (arith, small.0, small.1)
        seen false = omega (arith, small.0, small.1)

  pub updated-Counted : (h : Health f) (even b : Bool) → Counted 0 h (update_probability h even b)
  unfolding update_probability
  updated-Counted h even b = ground arith

  pub Counted-IsWithin :
      {limit k : ℕ} {h h' : Health f}
      → Counted k h h'
      → f.le h'.current_probability f.half ≡ false
      → IsWithin limit h
      → IsWithin limit h'
  Counted-IsWithin c over v = record {
    at_least_one = omega (arith, c.n, v.at_least_one);
    at_most_30 = omega (arith, c.n, v.at_most_30);
    tables = (
      rw (c.n, c.ones_even) v.tables.0,
      rw (c.n, c.zeros_even) v.tables.1,
      rw (c.n, c.ones_odd) v.tables.2,
      rw (c.n, c.zeros_odd) v.tables.3,
    );
    context = rw (c.n, c.prev_bits) v.context;
    window = omega (arith, c.sampled, v.window);
    ones = omega (arith, c.ones, v.ones);
    zeros = omega (arith, c.zeros, v.zeros);
    over_half = over;
  }

  pub Counted-then :
      {h h1 h2 : Health f} {k : ℕ} → Counted 0 h h1 → Counted k h1 h2 → Counted k h h2
  Counted-then c d = record {
    n = d.n ∙ c.n;
    ones_even = d.ones_even ∙ c.ones_even;
    zeros_even = d.zeros_even ∙ c.zeros_even;
    ones_odd = d.ones_odd ∙ c.ones_odd;
    zeros_odd = d.zeros_odd ∙ c.zeros_odd;
    prev_bits = d.prev_bits ∙ c.prev_bits;
    sampled = d.sampled ∙ c.sampled;
    ones = d.ones ∙ c.ones;
    zeros = d.zeros ∙ c.zeros;
    expected = d.expected ∙ c.expected;
    level = omega (arith, c.level, d.level);
  }
