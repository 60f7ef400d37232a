-- ===== src/Userspace/Health/Start.antt =====
-- The start of the library's health check, and its context beside that of the driver.
use infnoise.Base.{
  ℕ, ◌^◌, ◌≤◌, ◌<◌, ◌≡◌, ◌⊎◌, inl, inr, refl, sym, ◌∙◌, Bool, true, false, ◌&&◌, ◌||◌, [], arith,
  ltb, if◌then◌else◌, Bool-cases,
}
use native.Mathlib.Nat.{one-le-pow}
use infnoise.Kernel.Health as Kernel
use infnoise.Kernel.Health.Invariant.{next_prev_bits_lem as kernel_lem}
use infnoise.Counters.{IsTable, zeroed-IsTable}
use infnoise.Userspace.Floats.{Floats, AreLaws}
use infnoise.Userspace.Health.{
  Health, max_count, calloc_table, stop, reset_stats, start, next_prev_bits,
}
use infnoise.Userspace.Health.Invariant.{IsValid, next_prev_bits_lem}

allocated : (n : ℕ) → IsTable (2 ^ n) max_count (calloc_table n true)
unfolding calloc_table
allocated n = zeroed-IsTable (omega arith)

-- The four conjuncts.
all_true :
    (a b c d : Bool) → (a && b && c && d) ≡ true → (a ≡ true) × (b ≡ true) × (c ≡ true) × (d ≡ true)
all_true true true true true e = (refl, refl, refl, refl)
all_true false b c d e = absurd (cc)
all_true true false c d e = absurd (cc)
all_true true true false d e = absurd (cc)
all_true true true true false e = absurd (cc)

in_range : (n : ℕ) → (ltb n 1 || ltb 30 n) ≡ false → (1 ≤ n) × (n ≤ 30)
in_range n e = elim (Bool-cases (ltb n 1)) [
  | inl small ↦ absurd (cc)
  | inr one ↦ elim (Bool-cases (ltb 30 n)) [
    | inl big ↦ absurd (cc)
    | inr fits ↦ (ground arith, ground arith)
  ]
]

out_of_range : (n : ℕ) → (ltb n 1 || ltb 30 n) ≡ true → (n < 1) ⊎ (30 < n)
out_of_range n e = elim (Bool-cases (ltb n 1)) [
  | inl small ↦ inl (ground arith)
  | inr one ↦ elim (Bool-cases (ltb 30 n)) [ inl big ↦ inr (ground arith) | inr fits ↦ absurd (cc) ]
]

-- The library's context is shifted as the driver's is, with the number of bits that the library
-- passes.
pub next_prev_bits-kernel :
    (p : ℕ) (b : Bool) → p < 2 ^ 14 → next_prev_bits 14 p b ≡ Kernel.next_prev_bits p b
next_prev_bits-kernel p b lt =
    next_prev_bits_lem 14 p b (omega arith) (omega arith) lt ∙ sym (kernel_lem p b lt)

module _ {f : Floats} where
  -- No table is left.
  pub record IsFreed (h : Health f) : Type 0 where
    pub ones_even : h.ones_even ≡ []
    pub zeros_even : h.zeros_even ≡ []
    pub ones_odd : h.ones_odd ≡ []
    pub zeros_odd : h.zeros_odd ≡ []

  -- A start with a context of `n` bits, by whether all its allocations succeed.
  pub data Started (h : Health f) (n : ℕ) (all : Bool) : Health f × Bool → Type 0 where
    refused : (n < 1) ⊎ (30 < n) → Started h n all (h, false)
    good : {h' : Health f} → all ≡ true → h'.n ≡ n → IsValid h' → Started h n all (h', true)
    failed :
        {h' : Health f} → 1 ≤ n → n ≤ 30 → all ≡ false → IsFreed h' → Started h n all (h', false)

  stopped-IsFreed : (h : Health f) → IsFreed (stop h)
  unfolding stop
  stopped-IsFreed h = record {
    ones_even = refl;
    zeros_even = refl;
    ones_odd = refl;
    zeros_odd = refl;
  }

  settle :
      (h h1 : Health f) (n : ℕ) (all : Bool)
      → 1 ≤ n
      → n ≤ 30
      → h1.n ≡ n
      → (all ≡ true → IsValid h1)
      → Started h n all (if all then (h1, true) else (stop h1, false))
  settle h h1 n true some_bits few same valid = Started.good refl same (valid refl)
  settle h h1 n false some_bits few same valid =
      Started.failed some_bits few refl (stopped-IsFreed h1)

  module _ (laws : AreLaws f) where
    -- By the laws of the floating-point numbers: the start refuses exactly a context of no bits or of
    -- more than 30, and then changes nothing. Otherwise it succeeds exactly when all four allocations
    -- do, and leaves a valid state with that many bits of context; where one fails, no table is left.
    pub start-Started :
        (h : Health f) (n : ℕ) (k : f.Double) (debug a b c d : Bool)
        → Started h n (a && b && c && d) (start h n k debug a b c d)
    unfolding start reset_stats
    start-Started h n k debug a b c d = elim (Bool-cases (ltb n 1 || ltb 30 n)) [
      | inl out ↦ rw out (Started.refused (out_of_range n out))
      | inr within ↦
          let r = in_range n within in
          rw within (
            settle h _ n (a && b && c && d) r.0 r.1 refl (λ all.
              let t = all_true a b c d all in
              record {
                at_least_one = r.0;
                at_most_30 = r.1;
                tables = (
                  rw t.0 (allocated n),
                  rw t.1 (allocated n),
                  rw t.2 (allocated n),
                  rw t.3 (allocated n),
                );
                context = omega (arith, one-le-pow n 2);
                window = omega arith;
                ones = omega arith;
                zeros = omega arith;
                over_half = laws.done f.one laws.one-AtLeast;
              }))
    ]
