-- ===== src/Tools/EntCheck.antt =====
-- software/tools/entcheck.c: the entropy of a file, by prediction from its previous bits, with one
-- pair of tables for each stream. What the program prints is left out.
pub mod Main
pub mod Scale
pub mod Tables
pub mod Total
pub mod Valid
use infnoise.Base.{
  ℕ, zero, suc, ◌+◌, ◌-◌, ◌*◌, ◌/◌, ◌%◌, ◌^◌, Bool, true, false, ◌&&◌, ◌||◌, not, List, [], ◌∷◌,
  map, Option, none, some, u8, u32, ◌>>>◌, inc32, inc64, ltb, leb, ◌==◌, if◌then◌else◌, get_or, set,
  replicate, same_text,
}
use infnoise.Counters.{bump, halve, reaches}
use infnoise.Userspace.Floats.{Floats}
use infnoise.Userspace.Options.{Text}
use infnoise.Userspace.Steps.{Code}
use infnoise.Userspace.Health.{next_prev_bits, scale_probability}

-- The conversion of an `int` to `uint8_t`.
unfoldable pub byte_of : Code → ℕ
byte_of (Code.given n) = u8 n
byte_of (Code.failed n) = u8 (256 - u8 n)

-- The arguments of main, `n` and `num_streams` being what has been read; `none` is a call of usage.
unfoldable pub take_arguments : (Text → Code) → List Text → ℕ → ℕ → Option (ℕ × ℕ)
unfolding byte_of
take_arguments atoi [] n num_streams = some (n, num_streams)
take_arguments atoi (argument ∷ []) n num_streams = none
take_arguments atoi (argument ∷ text ∷ rest) n num_streams =
    let value = byte_of (atoi text) in
    let after_n = take_arguments atoi rest value num_streams in
    let after_s = take_arguments atoi rest n value in
    if same_text argument (45 ∷ 78 ∷ [])
    then if value == 0 then none else after_n
    else if same_text argument (45 ∷ 115 ∷ [])
    then if value == 0 || ltb 32 value then none else after_s
    else none

abbrev pub min_data : ℕ
min_data = 80000

abbrev pub max_count : ℕ
max_count = 2 ^ 14

-- The fuel of the loop that doubles the probability.
abbrev pub rounds : ℕ
rounds = 17

-- The static variables; a table for each stream.
pub record EntCheck (f : Floats) : Type 0 where
  pub n : ℕ
  pub num_streams : ℕ
  pub prev_bits : ℕ
  pub num_bits_sampled : ℕ
  pub ones : List (List ℕ)
  pub zeros : List (List ℕ)
  pub num_bits_of_entropy : ℕ
  pub current_probability : f.Double
  pub total_bits : ℕ
  pub prev_bit : Bool
  pub total_ones : ℕ
  pub total_zeros : ℕ

-- The two allocations for each stream, from allocation `i` on; `got` says which succeed.
unfoldable pub allocates : (ℕ → Bool) → ℕ → ℕ → Bool
allocates got zero i = true
allocates got (suc streams) i =
    let rest = allocates got streams (i + 2) in if got i && got (i + 1) then rest else false

-- The allocations of `inmEntCheckStart`: the two arrays of pointers, then the tables.
unfoldable pub all_allocated : (ℕ → Bool) → ℕ → Bool
unfolding allocates
all_allocated got num_streams = got 0 && got 1 && allocates got num_streams 2

-- `while (inmCurrentProbability <= 0.5)`, on fuel, with the count of the bits of entropy.
unfoldable pub count_entropy : (f : Floats) → ℕ → f.Double → ℕ → Option (f.Double × ℕ)
count_entropy f zero p bits = none
count_entropy f (suc fuel) p bits =
    let rest = count_entropy f fuel (f.mul p f.two) (inc32 bits) in
    if f.le p f.half then rest else some (p, bits)

module _ {f : Floats} where
  open f use {one, div, of_u32}

  -- The variables after the assignments of `inmEntCheckStart`.
  unfoldable pub initial : ℕ → ℕ → EntCheck f
  initial n num_streams = record {
    n = n;
    num_streams = num_streams;
    prev_bits = 0;
    num_bits_sampled = 0;
    ones = replicate num_streams (replicate (2 ^ n) 0);
    zeros = replicate num_streams (replicate (2 ^ n) 0);
    num_bits_of_entropy = 0;
    current_probability = one;
    total_bits = 0;
    prev_bit = false;
    total_ones = 0;
    total_zeros = 0;
  }

  -- `inmEntCheckStart`; `none` is false.
  unfoldable pub start : ℕ → ℕ → (ℕ → Bool) → Option (EntCheck f)
  start n num_streams got =
      if (ltb n 1 || ltb 30 n) || not (all_allocated got num_streams)
      then none
      else some (initial n num_streams)

  unfoldable pub scale_stats : EntCheck f → EntCheck f
  scale_stats s = record s { zeros = map halve s.zeros; ones = map halve s.ones }

  unfoldable pub scale_entropy : EntCheck f → EntCheck f
  scale_entropy s =
      if s.num_bits_sampled == min_data
      then record s {
        num_bits_of_entropy = s.num_bits_of_entropy >>> 1;
        num_bits_sampled = s.num_bits_sampled >>> 1;
      }
      else s

  unfoldable pub scale_zero_one_counts : EntCheck f → EntCheck f
  scale_zero_one_counts s =
      let max_val = if leb s.total_ones s.total_zeros then s.total_zeros else s.total_ones in
      if max_val == min_data
      then record s { total_zeros = s.total_zeros >>> 1; total_ones = s.total_ones >>> 1 }
      else s

  -- The context and the totals.
  unfoldable pub take_bit : EntCheck f → Bool → EntCheck f
  take_bit s b =
      let many = ltb 100 s.num_bits_sampled in
      record s {
        total_bits = inc64 s.total_bits;
        prev_bits = next_prev_bits s.n s.prev_bits s.prev_bit;
        prev_bit = b;
        total_ones = if many && b then inc32 s.total_ones else s.total_ones;
        total_zeros = if many && not b then inc32 s.total_zeros else s.total_zeros;
      }

  -- The counts of one stream.
  unfoldable pub zeros_of : EntCheck f → ℕ → ℕ
  zeros_of s stream = get_or (get_or s.zeros stream []) s.prev_bits 0

  unfoldable pub ones_of : EntCheck f → ℕ → ℕ
  ones_of s stream = get_or (get_or s.ones stream []) s.prev_bits 0

  -- The probability of the string with the bit that is added.
  unfoldable pub next_probability : EntCheck f → ℕ → Bool → f.Double
  next_probability s stream b =
      let zeros = zeros_of s stream in
      let ones = ones_of s stream in
      scale_probability f s.current_probability (if b then ones else zeros) (u32 (zeros + ones))

  -- `if (table[inmPrevBits] == INM_MAX_COUNT) scaleStats()`
  unfoldable pub scale_if : Bool → EntCheck f → EntCheck f
  scale_if reached s = if reached then scale_stats s else s

  unfoldable pub update_tables : EntCheck f → ℕ → Bool → EntCheck f
  unfolding scale_if
  update_tables s stream b =
      let ones = bump (get_or s.ones stream []) s.prev_bits in
      let zeros = bump (get_or s.zeros stream []) s.prev_bits in
      if b
      then scale_if (reaches max_count ones s.prev_bits)
          (record s { ones = set s.ones stream ones })
      else scale_if (reaches max_count zeros s.prev_bits)
          (record s { zeros = set s.zeros stream zeros })

  -- What follows the loop.
  unfoldable pub record_bit : EntCheck f → ℕ → Bool → EntCheck f
  record_bit s stream b = scale_zero_one_counts (
      scale_entropy
        (update_tables (record s { num_bits_sampled = inc32 s.num_bits_sampled }) stream b))

  -- `inmEntCheckAddBit`; `none` says that the loop has not ended within the fuel.
  unfoldable pub add_bit : EntCheck f → Bool → Option (EntCheck f)
  add_bit s b =
      let stream = u8 (s.total_bits % s.num_streams) in
      let s1 = take_bit s b in
      elim (count_entropy f rounds (next_probability s1 stream b) s1.num_bits_of_entropy) [
        | none ↦ none
        | some (p, bits) ↦ some (
            record_bit (record s1 { current_probability = p; num_bits_of_entropy = bits }) stream b)
      ]

  unfoldable pub estimate_entropy_per_bit : EntCheck f → f.Double
  estimate_entropy_per_bit s = div (of_u32 s.num_bits_of_entropy) (of_u32 s.num_bits_sampled)

  -- The bits of a byte, `left` of them to go, the most significant one first.
  unfoldable pub add_bits : ℕ → ℕ → EntCheck f → Option (EntCheck f)
  add_bits zero value s = some s
  add_bits (suc left) value s = elim (add_bit s ((value >>> left) % 2 == 1)) [
    | none ↦ none
    | some s1 ↦ add_bits left value s1
  ]

  -- The loop of main over the input.
  unfoldable pub add_bytes : List ℕ → EntCheck f → Option (EntCheck f)
  add_bytes [] s = some s
  add_bytes (value ∷ input) s = elim (add_bits 8 value s) [
    | none ↦ none
    | some s1 ↦ add_bytes input s1
  ]

-- How main ends.
pub data Ending (f : Floats) : Type 0 where
  usage : Ending f
  no_memory : Ending f
  finished : EntCheck f → Ending f

-- The main program on its arguments and its input; `none` says that a loop has not ended.
unfoldable pub main :
    {f : Floats} → (Text → Code) → (ℕ → Bool) → List Text → List ℕ → Option (Ending f)
main atoi got arguments input = elim (take_arguments atoi arguments 12 2) [
  | none ↦ some Ending.usage
  | some (n, num_streams) ↦ elim (start n num_streams got) [
    | none ↦ some Ending.no_memory
    | some s ↦ elim (add_bytes input s) [ none ↦ none | some s1 ↦ some (Ending.finished s1) ]
  ]
]
