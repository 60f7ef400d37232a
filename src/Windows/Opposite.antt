-- ===== src/Windows/Opposite.antt =====
-- The bits that the program collects are not those that the health check measures.
use infnoise.Base.{
  ℕ, zero, suc, ◌+◌, ◌-◌, ◌*◌, ◌%◌, ◌^◌, ◌<◌, ◌≤◌, ◌≡◌, refl, ◌∙◌, Bool, true, List, get_or, bit_or,
  bit, u8, if◌then◌else◌, ◌==◌, arith,
}
use native.Mathlib.Nat.{one-le-pow, pow-suc, pow-le-pow_right}
use infnoise.Bits.{bit_or_fields}
use infnoise.Bits.Flag.{has_flag}
use infnoise.Windows.{HealthCheck, Result, extract_bits, comp1, comp2}

-- The bit that `inmHealthCheckAddBit` of healthcheck.c chooses.
unfoldable pub measured_bit : Bool → Bool → Bool → Bool
measured_bit even_bit odd_bit even = if even then even_bit else odd_bit

-- A health check that collects the bits that it measures in a byte, as `extractBytes` collects its own.
unfoldable pub collects : HealthCheck ℕ
unfolding measured_bit
collects = record {
  start = λ debug h. (true, h);
  clear_entropy_level = λ h. 0;
  add_bit = λ even_bit odd_bit even h.
      (true, bit_or (u8 (h * 2)) (bit (measured_bit even_bit odd_bit even)));
  entropy_level = λ h. h;
  ok_to_use_data = λ h. true;
  entropy_on_target = λ entropy h. true;
  entropy_cap = λ h. 512;
}

-- The comparators differ in the samples of byte `i`.
pub record Differ (in_buf : List ℕ) (i : ℕ) : Type 0 where
  pub differ :
      (j : ℕ)
      → j < 8
      → bit (has_flag (get_or in_buf (i * 8 + j) 0) comp1)
          + bit (has_flag (get_or in_buf (i * 8 + j) 0) comp2)
        ≡ 1

-- The byte of the program and that of the health check have no bit in common.
pub record Opposite (j : ℕ) (result : Result ℕ ℕ) : Type 0 where
  pub byte : ℕ
  pub measured : ℕ
  pub returns : result ≡ Result.went byte measured
  pub complement : byte + measured ≡ 2 ^ j - 1

appended : (j x : ℕ) (b : Bool) → j ≤ 7 → x < 2 ^ j → bit_or (u8 (x * 2)) (bit b) ≡ x * 2 + bit b
appended j x b few lt =
    let fits : x * 2 % 2 ^ 8 ≡ x * 2 ^ 1 =
      omega (arith, lt, pow-le-pow_right {n = 2} (omega arith) {i = j} {j = 7} few) in
    rw fits (bit_or_fields 1 x (bit b) (ground arith))

Opposite-from :
    (in_buf : List ℕ) (i left j byte measured : ℕ)
    → Differ in_buf i
    → j + left ≡ 8
    → byte + measured ≡ 2 ^ j - 1
    → Opposite 8 (extract_bits collects left i j in_buf byte measured)
unfolding extract_bits collects measured_bit
Opposite-from in_buf i zero j byte measured d e sum =
    let all : j ≡ 8 = omega (arith, e) in
    record { byte = byte; measured = measured; returns = refl; complement = sum ∙ rw all refl }
Opposite-from in_buf i (suc left) j byte measured d e sum =
    let val = get_or in_buf (i * 8 + j) 0 in
    let even = j % 2 == 1 in
    let b1 = if even then has_flag val comp1 else has_flag val comp2 in
    let b2 = if even then has_flag val comp2 else has_flag val comp1 in
    let apart : bit b1 + bit b2 ≡ 1 = ground (arith, d.differ j (omega (arith, e))) in
    rw
      (
        appended j byte b1 (omega (arith, e)) (omega (arith, sum, one-le-pow j 2)),
        appended j measured b2 (omega (arith, e)) (omega (arith, sum, one-le-pow j 2)),
      )
      (Opposite-from in_buf i left (j + 1) (byte * 2 + bit b1) (measured * 2 + bit b2) d
        (omega (arith, e))
        (next_sum j (byte * 2 + bit b1) (measured * 2 + bit b2)
          (omega (arith, sum, apart, one-le-pow j 2))))
  where
    next_sum : (j x y : ℕ) → x + y ≡ 2 * 2 ^ j - 1 → x + y ≡ 2 ^ (j + 1) - 1
    next_sum j x y e =
        let same : j + 1 ≡ suc j = omega arith in rw (same, pow-suc 2 j) (omega (arith, e))

-- For a byte whose samples have comparators that differ, the byte that the program keeps is the
-- complement of the bits that the health check has measured: `extractBytes` takes the comparator that
-- the health check does not.
pub extract_bits-Opposite :
    (in_buf : List ℕ) (i : ℕ)
    → Differ in_buf i
    → Opposite 8 (extract_bits collects 8 i 0 in_buf 0 0)
extract_bits-Opposite in_buf i d = Opposite-from in_buf i 8 0 0 0 d refl refl
