-- ===== src/Windows/Address.antt =====
-- The address of a sample goes out and comes back on the four address pins.
use infnoise.Base.{
  ℕ, ◌%◌, ◌≡◌, Bool, true, false, refl, sym, subst, ◌∙◌, ◌&&◌, not, ◌==◌, all_below,
  all_below_sound, ==_iff, arith, bool_eq,
}
use infnoise.Bits.Flag.{has_flag}
use infnoise.Windows.{make_address, extract_address, comp1, comp2, swen1, swen2, copy_flag}
use infnoise.Windows.Program.{clock_byte}

-- What a byte of the clock carries: its address, one of the two switches, and no comparator.
pub record Clocked (i byte : ℕ) : Type 0 where
  pub address : extract_address byte ≡ i % 16
  pub second : has_flag byte swen2 ≡ (i % 2 == 1)
  pub first : has_flag byte swen1 ≡ (i % 2 == 0)
  pub quiet1 : has_flag byte comp1 ≡ false
  pub quiet2 : has_flag byte comp2 ≡ false

abbrev carries : ℕ → ℕ → Bool
carries i byte =
    (extract_address byte == i % 16)
    && bool_eq (has_flag byte swen2) (i % 2 == 1)
    && bool_eq (has_flag byte swen1) (i % 2 == 0)
    && not (has_flag byte comp1)
    && not (has_flag byte comp2)

clock_byte-period : (i : ℕ) → clock_byte i ≡ clock_byte (i % 16)
unfolding clock_byte
clock_byte-period i =
    let same : i % 16 % 16 ≡ i % 16 = omega arith in
    let parity : i % 16 % 2 ≡ i % 2 = omega arith in rw (same, parity) refl

carries-all : all_below (λ k. carries k (clock_byte k)) 16 ≡ true
unfolding all_below clock_byte make_address extract_address copy_flag has_flag
carries-all = refl

-- Every byte of the clock carries the low four bits of its index as its address, turns on the second
-- switch at the odd indices and the first one at the even indices, and leaves the comparators alone.
pub clock_byte-Clocked : (i : ℕ) → Clocked i (clock_byte i)
clock_byte-Clocked i =
    let tested =
      all_below_sound (λ k. carries k (clock_byte k)) 16 (i % 16) carries-all (omega arith) in
    let same : i % 16 % 16 ≡ i % 16 = omega arith in
    let parity : i % 16 % 2 ≡ i % 2 = omega arith in
    let low = from_test (i % 16) (clock_byte (i % 16)) tested in
    rw (clock_byte-period i) (record {
      address = low.address ∙ same;
      second = subst (λ m. has_flag (clock_byte (i % 16)) swen2 ≡ (m == 1)) parity low.second;
      first = subst (λ m. has_flag (clock_byte (i % 16)) swen1 ≡ (m == 0)) parity low.first;
      quiet1 = low.quiet1;
      quiet2 = low.quiet2;
    })
  where
    bool_eq-eq : (a b : Bool) → bool_eq a b ≡ true → a ≡ b
    bool_eq-eq true b e = sym e
    bool_eq-eq false true e = e
    bool_eq-eq false false e = refl

    all_five :
        (p q r s t : Bool)
        → (p && q && r && s && t) ≡ true
        → (p ≡ true) × (q ≡ true) × (r ≡ true) × (s ≡ true) × (t ≡ true)
    all_five true true true true true e = (refl, refl, refl, refl, refl)
    all_five true true true true false e = ground (arith, e)
    all_five true true true false t e = ground (arith, e)
    all_five true true false s t e = ground (arith, e)
    all_five true false r s t e = ground (arith, e)
    all_five false q r s t e = ground (arith, e)

    from_test : (i byte : ℕ) → carries i byte ≡ true → Clocked i byte
    from_test i byte e =
        let parts =
          all_five (extract_address byte == i % 16) (bool_eq (has_flag byte swen2) (i % 2 == 1))
            (bool_eq (has_flag byte swen1) (i % 2 == 0)) (not (has_flag byte comp1))
            (not (has_flag byte comp2)) e in
        record {
          address = (==_iff _ _).0 parts.0;
          second = bool_eq-eq _ _ parts.1;
          first = bool_eq-eq _ _ parts.2;
          quiet1 = ground (arith, parts.3);
          quiet2 = ground (arith, parts.4);
        }
