-- ===== src/Tools/EntCheck/Total.antt =====
-- The entropy check of a file returns on every bit and keeps its state valid.
use native.Mathlib.Nat.{mod-lt}
use infnoise.Base.{
  ℕ, zero, suc, ◌+◌, ◌*◌, ◌%◌, ◌^◌, ◌≤◌, ◌<◌, ◌≡◌, inl, inr, refl, ◌∙◌, Bool, true, false, List, [],
  ◌∷◌, Option, some, length, u8, u32, u64, ◌>>>◌, arith, if◌then◌else◌, Bool-cases, ◌==◌,
}
use infnoise.Userspace.Floats.{Floats, AreLaws}
use infnoise.Userspace.Health.Doubling.{scale_probability-AtLeast}
use infnoise.Tools.EntCheck.{
  EntCheck, min_data, max_count, rounds, take_bit, zeros_of, ones_of, next_probability,
  count_entropy, record_bit, add_bit, add_bits, add_bytes,
}
use infnoise.Tools.EntCheck.Tables.{count_below}
use infnoise.Tools.EntCheck.Valid.{IsWithin, IsValid, take_bit-IsWithin}
use infnoise.Tools.EntCheck.Scale.{record_bit-IsValid, total_bits-record_bit}

-- What the loop ends with.
record Normalised (f : Floats) (fuel k : ℕ) (p : f.Double) (bits : ℕ) : Type 0 where
  pub last : f.Double
  pub counted : ℕ
  pub returns : count_entropy f fuel p bits ≡ some (last, counted)
  pub over_half : f.le last f.half ≡ false
  pub few : counted ≤ bits + k

-- A valid state that has taken `k` more bits than `s`, the count of them being modulo `2 ^ 64`.
pub record Counted {f : Floats} (s : EntCheck f) (result : Option (EntCheck f)) (k : ℕ)
    : Type 0 where
  pub next : EntCheck f
  pub returns : result ≡ some next
  pub valid : IsValid next
  pub counted : next.total_bits ≡ u64 (s.total_bits + k)

module _ {f : Floats} where
  module _ (laws : AreLaws f) where
    open laws use {AtLeast, above_half, doubled, done}

    count_entropy-Normalised :
        (k fuel : ℕ) (p : f.Double) (bits : ℕ)
        → AtLeast p k
        → k ≤ 16
        → k < fuel
        → Normalised f fuel k p bits
    unfolding count_entropy
    count_entropy-Normalised k zero p bits at few lt = absurd (omega arith)
    count_entropy-Normalised zero (suc fuel) p bits at few lt =
        let over = done p at in
        record {
          last = p;
          counted = bits;
          returns = rw over refl;
          over_half = over;
          few = omega arith;
        }
    count_entropy-Normalised (suc k) (suc fuel) p bits at few lt =
        elim (Bool-cases (f.le p f.half)) [
          | inr over ↦ record {
            last = p;
            counted = bits;
            returns = rw over refl;
            over_half = over;
            few = omega arith;
          }
          | inl under ↦
              let rest =
                count_entropy-Normalised k fuel (f.mul p f.two) (u32 (bits + 1))
                  (doubled p k at (omega arith)) (omega arith) (omega arith) in
              record {
                last = rest.last;
                counted = rest.counted;
                returns = rw under rest.returns;
                over_half = rest.over_half;
                few = omega (arith, rest.few);
              }
        ]

    next_probability-AtLeast :
        (limit most : ℕ) (s : EntCheck f) (stream : ℕ) (b : Bool)
        → stream < s.num_streams
        → IsWithin limit most s
        → (k : ℕ) × (k ≤ 16) × AtLeast (next_probability s stream b) k
    unfolding next_probability zeros_of ones_of
    next_probability-AtLeast limit most s stream b lt v =
        scale_probability-AtLeast laws s.current_probability
          (if b then ones_of s stream else zeros_of s stream)
          (u32 (zeros_of s stream + ones_of s stream)) v.over_half (seen b)
          (omega (arith, few_zeros, few_ones))
      where
        few_zeros : zeros_of s stream < max_count
        few_zeros = count_below s.zeros stream s.prev_bits (omega arith) lt v.zeros

        few_ones : ones_of s stream < max_count
        few_ones = count_below s.ones stream s.prev_bits (omega arith) lt v.ones

        seen :
            (b : Bool)
            → (if b then ones_of s stream else zeros_of s stream)
              ≤ u32 (zeros_of s stream + ones_of s stream)
        seen true = omega (arith, few_zeros, few_ones)
        seen false = omega (arith, few_zeros, few_ones)

    stream_below :
        (total num_streams : ℕ)
        → 0 < num_streams
        → num_streams < 256
        → u8 (total % num_streams) < num_streams
    stream_below total num_streams pos few = omega (arith, mod-lt total pos)

    add_bit-Counted : (s : EntCheck f) (b : Bool) → IsValid s → Counted s (add_bit s b) 1
    unfolding add_bit
    add_bit-Counted s b v =
        let stream = u8 (s.total_bits % s.num_streams) in
        let s1 = take_bit s b in
        let lt : stream < s1.num_streams =
          unfold take_bit in stream_below s.total_bits s.num_streams v.some_streams v.few_streams in
        let w = take_bit-IsWithin s b v in
        let at = next_probability-AtLeast (min_data + 1) min_data s1 stream b lt w in
        let end =
          count_entropy-Normalised at.0 rounds (next_probability s1 stream b) s1.num_bits_of_entropy
            at.2 at.1 (omega (arith, at.1)) in
        record {
          next =
              record_bit
                (record s1 { current_probability = end.last; num_bits_of_entropy = end.counted })
                stream b;
          returns = rw (add_bit, end.returns) refl;
          valid =
              record_bit-IsValid s1 end.last end.counted stream b lt w end.over_half
                (omega (arith, end.few, at.1));
          counted = total_bits-record_bit _ stream b ∙ unfold take_bit in refl;
        }

    add_bits-Counted :
        (left value : ℕ) (s : EntCheck f)
        → IsValid s
        → s.total_bits < 2 ^ 64
        → Counted s (add_bits left value s) left
    unfolding add_bits
    add_bits-Counted zero value s v small = record {
      next = s;
      returns = refl;
      valid = v;
      counted = omega (arith, small);
    }
    add_bits-Counted (suc left) value s v small =
        let first = add_bit-Counted s ((value >>> left) % 2 == 1) v in
        let rest =
          add_bits-Counted left value first.next first.valid (omega (arith, first.counted)) in
        record {
          next = rest.next;
          returns = rw (add_bits, first.returns) rest.returns;
          valid = rest.valid;
          counted = omega (arith, rest.counted, first.counted);
        }

    pub add_bytes-Counted :
        (input : List ℕ) (s : EntCheck f)
        → IsValid s
        → s.total_bits < 2 ^ 64
        → Counted s (add_bytes input s) (8 * length input)
    unfolding add_bytes
    add_bytes-Counted [] s v small = record {
      next = s;
      returns = refl;
      valid = v;
      counted = omega (arith, small);
    }
    add_bytes-Counted (value ∷ input) s v small =
        let first = add_bits-Counted 8 value s v small in
        let rest = add_bytes-Counted input first.next first.valid (omega (arith, first.counted)) in
        record {
          next = rest.next;
          returns = rw (add_bytes, first.returns) rest.returns;
          valid = rest.valid;
          counted = omega (arith, rest.counted, first.counted);
        }
