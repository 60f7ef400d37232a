-- ===== src/Tools/FindLongest.antt =====
-- software/tools/findlongest.c: the longest repeated sub-string of the bits of a file, with a set of the
-- strings seen in the bits of an array. The test data of `--test` and what is printed are left out.
pub mod Seen
pub mod Window
pub mod Repeats
use infnoise.Base.{
  ℕ, zero, suc, ◌+◌, ◌-◌, ◌*◌, ◌^◌, ◌%◌, Bool, true, false, not, List, [], ◌∷◌, bit_and, bit_or,
  bit, u32, u64, ◌<<<◌, ◌>>>◌, ltb, ◌==◌, if◌then◌else◌, get_or, set, replicate, length,
}
use infnoise.Bits.Flag.{has_flag}

abbrev pub max_string_size : ℕ
max_string_size = 34

-- The bytes of `stringsSeen` that main allocates.
abbrev pub allocated : ℕ
allocated = 2 ^ 30

-- The array in memory is longer than the file; what follows the bits of a short file is false.
abbrev pub bit_at : List Bool → ℕ → ℕ
bit_at bits i = bit (get_or bits i false)

-- `stringsSeen[value >> 3u] & (1u << (value & 0x7u))`
unfoldable pub is_seen : List ℕ → ℕ → Bool
is_seen seen value = has_flag (get_or seen (value >>> 3) 0) (value % 8)

unfoldable pub mark : List ℕ → ℕ → List ℕ
mark seen value = set seen (value >>> 3) (bit_or (get_or seen (value >>> 3) 0) (2 ^ (value % 8)))

-- The first loop.
unfoldable pub first_value : List Bool → ℕ → ℕ
first_value bits zero = 0
first_value bits (suc i) = bit_or (u64 (first_value bits i * 2)) (bit_at bits i)

unfoldable pub next_value : List Bool → ℕ → ℕ → ℕ → ℕ
next_value bits len value i = bit_and (bit_or (u64 (value * 2)) (bit_at bits i)) (2 ^ len - 1)

-- The second loop, with `left` rounds to go.
unfoldable pub search : List Bool → ℕ → List ℕ → ℕ → ℕ → ℕ → Bool
search bits len seen value i zero = false
search bits len seen value i (suc left) =
    let rest = search bits len (mark seen value) (next_value bits len value i) (i + 1) left in
    if is_seen seen value then true else rest

-- `hasSubstringOfLength`, `data_len` being a `uint32_t`.
unfoldable pub has_substring_of_length : ℕ → List Bool → ℕ → Bool
has_substring_of_length len bits data_len =
    search bits len (replicate (2 ^ (len - 3)) 0) (first_value bits len) len (data_len - len)

pub data Found : Type 0 where
  longest : ℕ → Found
  at_least : ℕ → Found
  -- The call of memset writes past the end of `stringsSeen`.
  overrun : Found

-- The loop of main, with `left` rounds to go.
unfoldable pub find : List Bool → ℕ → ℕ → Found
find bits len zero = Found.at_least max_string_size
find bits len (suc left) =
    let rest = find bits (len + 1) left in
    if ltb allocated (2 ^ (len - 3))
    then Found.overrun
    else if has_substring_of_length len bits (u32 (length bits))
    then rest
    else Found.longest (len - 1)

unfoldable pub find_longest : List Bool → Found
find_longest bits = find bits 4 31
