-- ===== src/Userspace/Health/Invariant.antt =====
-- What every call of the library's health check keeps: the tests for equality with a limit halve
-- the counters in time.
use native.Mathlib.Nat.{mod-eq_of_lt, mod-eq-sub-mod, pow-suc, pow-le-pow_right, mod-lt, one-le-pow}
use native.Mathlib.Decide.{dec_lt}
use infnoise.Base.{
  ℕ, zero, suc, ◌+◌, ◌-◌, ◌*◌, ◌/◌, ◌%◌, ◌^◌, ◌≤◌, ◌<◌, ◌≡◌, refl, sym, ap, ap₂, ◌∙◌, Bool, true,
  false, arith, bit, bit_and, bit_or, u32, if◌then◌else◌,
}
use infnoise.Bits.{bit_or_fields, bit_and_mask}
use infnoise.Counters.{IsTable, bump, bump-IsTable, bump-loose, halve-IsTable, IsTable-loose}
use infnoise.Userspace.Floats.{Floats}
use infnoise.Userspace.Health.{
  Health, min_data, max_count, next_prev_bits, take_bit, track_misfires, push_history,
  check_sequence, scale_if, scale_stats, update_tables,
}

module _ {f : Floats} where
  -- Four allocated tables of `2 ^ n` counters below `limit`, in the order of the fields.
  abbrev pub AreTables : ℕ → Health f → Type 0
  AreTables limit h =
      IsTable (2 ^ h.n) limit h.ones_even
      × IsTable (2 ^ h.n) limit h.zeros_even
      × IsTable (2 ^ h.n) limit h.ones_odd
      × IsTable (2 ^ h.n) limit h.zeros_odd

  -- The context indexes the tables, the probability is above one half, no counter has reached its
  -- limit, and the totals of ones and zeros are below `limit`.
  pub record IsWithin (limit : ℕ) (h : Health f) : Type 0 where
    pub at_least_one : 1 ≤ h.n
    pub at_most_30 : h.n ≤ 30
    pub tables : AreTables max_count h
    pub context : h.prev_bits < 2 ^ h.n
    pub window : h.num_bits_sampled < min_data
    pub ones : h.total_ones < limit
    pub zeros : h.total_zeros < limit
    pub over_half : f.le h.current_probability f.half ≡ false

  abbrev pub IsValid : Health f → Type 0
  IsValid h = IsWithin min_data h

pow_bound : (m : ℕ) → m ≤ 29 → 2 ^ m ≤ 2 ^ 29
pow_bound m le = pow-le-pow_right {n = 2} (omega arith) le

pow_pos : (n : ℕ) → 0 < 2 ^ n
pow_pos n = omega (arith, one-le-pow n 2)

shift_low : (q p c : ℕ) → p < 2 * q → c < 2 → 2 * p % (2 * q) + c ≡ (2 * p + c) % (2 * q)
shift_low q p c lt small = elim (dec_lt p q) [
  | yes low ↦
      ap (λ (t : ℕ). t + c) (mod-eq_of_lt {n = 2 * p} {m = 2 * q} (omega arith))
      ∙ sym (mod-eq_of_lt {n = 2 * p + c} {m = 2 * q} (omega arith))
  | no high ↦
      ap (λ (t : ℕ). t + c)
        (mod-eq-sub-mod {n = 2 * p} {m = 2 * q} (omega arith)
          ∙ mod-eq_of_lt {n = 2 * p - 2 * q} {m = 2 * q} (omega arith))
      ∙ sym (
          mod-eq-sub-mod {n = 2 * p + c} {m = 2 * q} (omega arith)
          ∙ mod-eq_of_lt {n = 2 * p + c - 2 * q} {m = 2 * q} (omega arith)
          ∙ omega arith)
]

even_mod : (q p : ℕ) → p < 2 * q → 2 * p % (2 * q) ≡ 2 * (2 * p % (2 * q) / 2)
even_mod q p lt = elim (dec_lt p q) [
  | yes low ↦ rw (mod-eq_of_lt {n = 2 * p} {m = 2 * q} (omega arith)) (omega arith)
  | no high ↦
      rw
        (mod-eq-sub-mod {n = 2 * p} {m = 2 * q} (omega arith)
          ∙ mod-eq_of_lt {n = 2 * p - 2 * q} {m = 2 * q} (omega arith))
        (omega arith)
]

-- The context is shifted by the previous bit and keeps its last `n` bits.
pub next_prev_bits_lem :
    (n p : ℕ) (b : Bool)
    → 1 ≤ n
    → n ≤ 30
    → p < 2 ^ n
    → next_prev_bits n p b ≡ (2 * p + bit b) % 2 ^ n
unfolding next_prev_bits
next_prev_bits_lem zero p b pos le lt = absurd (omega arith)
next_prev_bits_lem (suc m) p b pos le lt = joined b
  where
    twice : 2 ^ suc m ≡ 2 * 2 ^ m
    twice = omega (arith, pow-suc 2 m)

    below : p < 2 * 2 ^ m
    below = omega (arith, twice)

    shifted : bit_and (u32 (p * 2 ^ 1)) (2 ^ suc m - 1) ≡ 2 * p % (2 * 2 ^ m)
    shifted =
        bit_and_mask (suc m) (u32 (p * 2 ^ 1))
        ∙ ap₂ ◌%◌ {x = u32 (p * 2 ^ 1)} {y = 2 * p}
            (omega (arith, pow_bound m (omega arith), below)) twice

    or_one : (x : ℕ) → x ≡ 2 * (x / 2) → bit_or x 1 ≡ x + 1
    or_one x e =
        let y : x ≡ x / 2 * 2 ^ 1 = omega arith in
        ap (λ (t : ℕ). bit_or t 1) y ∙ bit_or_fields 1 (x / 2) 1 (omega arith) ∙ omega arith

    joined :
        (b : Bool)
        → (if b
            then bit_or (bit_and (u32 (p * 2 ^ 1)) (2 ^ suc m - 1)) 1
            else bit_and (u32 (p * 2 ^ 1)) (2 ^ suc m - 1))
          ≡ (2 * p + bit b) % 2 ^ suc m
    joined true =
        rw (shifted, twice)
          (or_one (2 * p % (2 * 2 ^ m)) (even_mod (2 ^ m) p below)
            ∙ shift_low (2 ^ m) p 1 below (omega arith))
    joined false = rw (shifted, twice) (ap (λ (t : ℕ). t % (2 * 2 ^ m)) (omega arith))

module _ {f : Floats} where
  -- What the test for long runs leaves alone.
  pub record Taken (h h' : Health f) : Type 0 where
    pub n : h'.n ≡ h.n
    pub ones_even : h'.ones_even ≡ h.ones_even
    pub zeros_even : h'.zeros_even ≡ h.zeros_even
    pub ones_odd : h'.ones_odd ≡ h.ones_odd
    pub zeros_odd : h'.zeros_odd ≡ h.zeros_odd
    pub sampled : h'.num_bits_sampled ≡ h.num_bits_sampled
    pub level : h'.entropy_level ≡ h.entropy_level
    pub expected : h'.expected_entropy_per_bit ≡ h.expected_entropy_per_bit
    pub probability : h'.current_probability ≡ h.current_probability
    pub ones : h'.total_ones ≤ h.total_ones + 1
    pub zeros : h'.total_zeros ≤ h.total_zeros + 1
    pub context : h'.prev_bits ≡ next_prev_bits h.n h.prev_bits h.prev_bit

  take_bit-Taken :
      (h : Health f) (even_bit odd_bit even : Bool) → Taken h (take_bit h even_bit odd_bit even).0
  unfolding take_bit track_misfires push_history check_sequence
  take_bit-Taken h even_bit odd_bit even = ground arith

  pub take_bit_level :
      (h : Health f) (even_bit odd_bit even : Bool)
      → (take_bit h even_bit odd_bit even).0.entropy_level ≡ h.entropy_level
  take_bit_level h even_bit odd_bit even = (take_bit-Taken h even_bit odd_bit even).level

  pub take_bit_expected :
      (h : Health f) (even_bit odd_bit even : Bool)
      → (take_bit h even_bit odd_bit even).0.expected_entropy_per_bit ≡ h.expected_entropy_per_bit
  take_bit_expected h even_bit odd_bit even = (take_bit-Taken h even_bit odd_bit even).expected

  pub IsValid-loose : {h : Health f} → IsValid h → IsWithin (min_data + 1) h
  IsValid-loose v = record {
    at_least_one = v.at_least_one;
    at_most_30 = v.at_most_30;
    tables = v.tables;
    context = v.context;
    window = v.window;
    ones = omega (arith, v.ones);
    zeros = omega (arith, v.zeros);
    over_half = v.over_half;
  }

  AreTables-Taken :
      {limit : ℕ} {h h' : Health f} → Taken h h' → AreTables limit h → AreTables limit h'
  AreTables-Taken t a = (
    rw (t.n, t.ones_even) a.0,
    rw (t.n, t.zeros_even) a.1,
    rw (t.n, t.ones_odd) a.2,
    rw (t.n, t.zeros_odd) a.3,
  )

  pub take_bit-IsWithin :
      (h : Health f) (even_bit odd_bit even : Bool)
      → IsValid h
      → IsWithin (min_data + 1) (take_bit h even_bit odd_bit even).0
  take_bit-IsWithin h even_bit odd_bit even v =
      let t = take_bit-Taken h even_bit odd_bit even in
      record {
        at_least_one = omega (arith, t.n, v.at_least_one);
        at_most_30 = omega (arith, t.n, v.at_most_30);
        tables = AreTables-Taken t v.tables;
        context =
            rw
              (
                t.n,
                t.context,
                next_prev_bits_lem h.n h.prev_bits h.prev_bit v.at_least_one v.at_most_30 v.context,
              )
              (mod-lt (2 * h.prev_bits + bit h.prev_bit) (pow_pos h.n));
        window = omega (arith, t.sampled, v.window);
        ones = omega (arith, t.ones, v.ones);
        zeros = omega (arith, t.zeros, v.zeros);
        over_half = rw t.probability v.over_half;
      }

  scale_if-AreTables :
      (reached : Bool) (h : Health f)
      → AreTables (max_count + 1) h
      → (reached ≡ false → AreTables max_count h)
      → AreTables max_count (scale_if reached h)
  unfolding scale_if scale_stats
  scale_if-AreTables true h loose exact = (
    halve-IsTable (omega arith) loose.0,
    halve-IsTable (omega arith) loose.1,
    halve-IsTable (omega arith) loose.2,
    halve-IsTable (omega arith) loose.3,
  )
  scale_if-AreTables false h loose exact = exact refl

  pub update_tables-AreTables :
      (h : Health f) (even b : Bool)
      → h.prev_bits < 2 ^ h.n
      → AreTables max_count h
      → AreTables max_count (update_tables h even b)
  unfolding update_tables
  update_tables-AreTables h true true lt a =
      scale_if-AreTables _ (record h { ones_even = bump h.ones_even h.prev_bits })
        ((
          bump-loose h.prev_bits (omega arith) a.0,
          IsTable-loose a.1,
          IsTable-loose a.2,
          IsTable-loose a.3,
        ))
        (λ e. (bump-IsTable h.prev_bits (omega arith) lt (omega arith) a.0 e, a.1, a.2, a.3))
  update_tables-AreTables h false true lt a =
      scale_if-AreTables _ (record h { ones_odd = bump h.ones_odd h.prev_bits })
        ((
          IsTable-loose a.0,
          IsTable-loose a.1,
          bump-loose h.prev_bits (omega arith) a.2,
          IsTable-loose a.3,
        ))
        (λ e. (a.0, a.1, bump-IsTable h.prev_bits (omega arith) lt (omega arith) a.2 e, a.3))
  update_tables-AreTables h true false lt a =
      scale_if-AreTables _ (record h { zeros_even = bump h.zeros_even h.prev_bits })
        ((
          IsTable-loose a.0,
          bump-loose h.prev_bits (omega arith) a.1,
          IsTable-loose a.2,
          IsTable-loose a.3,
        ))
        (λ e. (a.0, bump-IsTable h.prev_bits (omega arith) lt (omega arith) a.1 e, a.2, a.3))
  update_tables-AreTables h false false lt a =
      scale_if-AreTables _ (record h { zeros_odd = bump h.zeros_odd h.prev_bits })
        ((
          IsTable-loose a.0,
          IsTable-loose a.1,
          IsTable-loose a.2,
          bump-loose h.prev_bits (omega arith) a.3,
        ))
        (λ e. (a.0, a.1, a.2, bump-IsTable h.prev_bits (omega arith) lt (omega arith) a.3 e))
