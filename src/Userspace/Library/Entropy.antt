-- ===== src/Userspace/Library/Entropy.antt =====
-- Without a multiplier the library hands out the entropy that it has measured, up to the bound for the
-- design of the device, and no more.
use infnoise.Base.{
  ℕ, ◌+◌, ◌-◌, ◌/◌, ◌^◌, u32, ◌<◌, ◌≤◌, ◌≡◌, ◌∙◌, refl, inl, inr, true, false, List, length,
  length-take, take, min, Bool-cases, arith,
}
use infnoise.Userspace.Floats.{Floats}
use infnoise.Userspace.Steps.{Code}
use infnoise.Userspace.Context.{Sponge, Context, Output, buflen}
use infnoise.Userspace.Library.{entropy_cap, cap_entropy, process_bytes}
use infnoise.Userspace.Library.Total.{IsSponge}

-- A number that the conversion to `uint32_t` is defined for: not negative, no NaN, below 2 ^ 32 - 1.
pub record IsU32 (f : Floats) (x : f.Double) : Type 0 where
  pub not_negative : f.lt x (f.of_u32 0) ≡ false
  pub in_range : f.lt x (f.of_u32 (2 ^ 32 - 1)) ≡ true

-- The conversion of such a number rounds down: it is at most an `n` that the number is below, and at
-- least an `n` that the number is not below.
pub record IsTruncating (f : Floats) : Type 0 where
  pub below :
      (x : f.Double) (n : ℕ) → IsU32 f x → n < 2 ^ 32 → f.lt x (f.of_u32 n) ≡ true → f.to_u32 x ≤ n
  pub reaches :
      (x : f.Double) (n : ℕ) → IsU32 f x → n < 2 ^ 32 → f.lt x (f.of_u32 n) ≡ false → n ≤ f.to_u32 x

-- The most bits of entropy that 512 samples are believed to hold: the expected entropy of a bit times
-- 512, by 1.03.
pub most_bits : (f : Floats) → f.Double → ℕ
most_bits f expected = f.to_u32 (f.div (f.mul expected (f.of_u32 512)) f.accuracy)

module _ {f : Floats} {sponge : Sponge} where
  -- What a transfer yields with a multiplier of 0 and whitening: whole bytes for the bits of entropy
  -- measured in the samples, up to the bound, all of them stored, from the front of what the sponge
  -- gives once it has absorbed the samples.
  pub record Conservative (c : Context f sponge) (bytes : List ℕ) (out : Output) : Type 0 where
    pub bits : ℕ
    pub least : bits ≡ min c.entropy_this_time (most_bits f c.health.expected_entropy_per_bit)
    pub code : out.code ≡ Code.given (bits / 8)
    pub stored : length out.written ≡ bits / 8
    pub whitened :
        out.written
        ≡ take (bits / 8) (sponge.extract (sponge.absorb c.keccak_state bytes 8) ((bits + 63) / 64))

  module _ (truncating : IsTruncating f) (is_sponge : IsSponge sponge) where
    capped :
        (c : Context f sponge)
        → IsU32 f (entropy_cap c)
        → c.entropy_this_time < 2 ^ 32
        → (cap_entropy c).entropy_this_time
          ≡ min c.entropy_this_time (most_bits f c.health.expected_entropy_per_bit)
    unfolding cap_entropy entropy_cap most_bits
    capped c valid small =
        let cap = entropy_cap c in
        let n = c.entropy_this_time in
        elim (Bool-cases (f.lt cap (f.of_u32 n))) [
          | inl over ↦ rw over (omega (arith, truncating.below cap n valid small over))
          | inr under ↦ rw under (omega (arith, truncating.reaches cap n valid small under))
        ]

    cap_entropy_keccak : (c : Context f sponge) → (cap_entropy c).keccak_state ≡ c.keccak_state
    unfolding cap_entropy
    cap_entropy_keccak c = elim (Bool-cases (f.lt (entropy_cap c) (f.of_u32 c.entropy_this_time))) [
      | inl over ↦ rw over refl
      | inr under ↦ rw under refl
    ]

    -- With a multiplier of 0 and whitening, for conversions that round down and a bound that fits 32
    -- bits, `processBytes` returns an eighth of the measured bits of entropy or of the bound on them,
    -- whichever is less, rounded down. It stores that many bytes from the front of what the sponge gives
    -- after absorbing the samples. The entropy of 512 samples is at most 8192 bits.
    pub process_bytes-Conservative :
        (c : Context f sponge) (bytes : List ℕ)
        → IsU32 f (entropy_cap c)
        → c.entropy_this_time ≤ 8192
        → Conservative c bytes (process_bytes c bytes true false 0).0
    unfolding process_bytes
    process_bytes-Conservative c bytes valid few =
        let e = (cap_entropy c).entropy_this_time in
        let le = capped c valid (omega (arith, few)) in
        let same : u32 (e + 63) ≡ e + 63 = omega (arith, le, few) in
        let state = sponge.absorb (cap_entropy c).keccak_state bytes (buflen / 64) in
        record {
          bits = e;
          least = le;
          code = refl;
          stored =
              length-take (e / 8) (sponge.extract state (u32 (e + 63) / 64))
              ∙ omega (arith, is_sponge.length_extract state (u32 (e + 63) / 64), same);
          whitened = rw (same, cap_entropy_keccak c) refl;
        }
