-- ===== src/Kernel/Keccak.antt =====
-- software/kernel/infnoise_keccak.c: the Keccak-f[1600] permutation and the sponge over it.
-- A state of words is a list of 25 numbers below 2 ^ 64, a state of bytes one of 200 below 256.
pub mod Spec
pub mod Words
pub mod Sponge
pub mod Bytes
pub mod Refines
use infnoise.Base.{
  u32, ℕ, zero, suc, ◌+◌, ◌-◌, ◌*◌, ◌%◌, ◌^◌, bit_and, bit_or, bit_xor, List, [], ◌∷◌, u64, ◌<<<◌,
  ◌>>>◌, ◌==◌, ltb, if◌then◌else◌, get_or, set, take, drop, replicate, for_range, tabulate,
}
use infnoise.Kernel.Const.{lanes, rounds, state_size}

abbrev pub round_constants : List ℕ
round_constants =
    0x0000000000000001 ∷ 0x0000000000008082 ∷ 0x800000000000808a ∷ 0x8000000080008000
    ∷ 0x000000000000808b ∷ 0x0000000080000001 ∷ 0x8000000080008081 ∷ 0x8000000000008009
    ∷ 0x000000000000008a ∷ 0x0000000000000088 ∷ 0x0000000080008009 ∷ 0x000000008000000a
    ∷ 0x000000008000808b ∷ 0x800000000000008b ∷ 0x8000000000008089 ∷ 0x8000000000008003
    ∷ 0x8000000000008002 ∷ 0x8000000000000080 ∷ 0x000000000000800a ∷ 0x800000008000000a
    ∷ 0x8000000080008081 ∷ 0x8000000000008080 ∷ 0x0000000080000001 ∷ 0x8000000080008008 ∷ []

abbrev pub rho_offsets : List ℕ
rho_offsets =
    0 ∷ 1 ∷ 62 ∷ 28 ∷ 27 ∷ 36 ∷ 44 ∷ 6 ∷ 55 ∷ 20 ∷ 3 ∷ 10 ∷ 43 ∷ 25 ∷ 39 ∷ 41 ∷ 45 ∷ 15 ∷ 21 ∷ 8
    ∷ 18 ∷ 2 ∷ 61 ∷ 56 ∷ 14 ∷ []

abbrev pub index : ℕ → ℕ → ℕ
index x y = x % 5 + 5 * (y % 5)

-- The parameter is a `u64`, so a call takes it modulo 2 ^ 64.
unfoldable pub rol64 : ℕ → ℕ → ℕ
rol64 a n =
    let x = u64 a in
    let m = bit_and n 63 in if m == 0 then x else bit_or (u64 (x <<< m)) (x >>> (64 - m))

-- `~x` on a `u64`
abbrev pub not64 : ℕ → ℕ
not64 x = 2 ^ 64 - 1 - x

-- The column parity `c[x]`.
unfoldable pub parity : List ℕ → ℕ → ℕ
unfolding for_range
parity state x = for_range 5 0 (λ y c. bit_xor c (get_or state (index x y) 0)) 0

unfoldable pub theta : List ℕ → List ℕ
unfolding for_range tabulate parity
theta state =
    let c = tabulate 5 0 (parity state) in
    let d =
      tabulate 5 0 (λ x. bit_xor (rol64 (get_or c ((x + 1) % 5) 0) 1) (get_or c ((x + 4) % 5) 0)) in
    for_range 5 0
      (λ x s.
        for_range 5 0
          (λ y s'. set s' (index x y) (bit_xor (get_or s' (index x y) 0) (get_or d x 0))) s)
      state

unfoldable pub rho : List ℕ → List ℕ
unfolding for_range
rho state = for_range lanes 0 (λ i s. set s i (rol64 (get_or s i 0) (get_or rho_offsets i 0))) state

unfoldable pub pi : List ℕ → List ℕ
unfolding for_range
pi state =
    for_range 5 0
      (λ x s.
        for_range 5 0 (λ y s'. set s' (index y (2 * x + 3 * y)) (get_or state (index x y) 0)) s)
      state

-- The row `c` of one `y`, computed before the row is overwritten.
unfoldable pub chi_row : List ℕ → ℕ → List ℕ
unfolding tabulate
chi_row state y = tabulate 5 0 (λ x.
    bit_xor (get_or state (index x y) 0)
      (bit_and (not64 (get_or state (index (x + 1) y) 0)) (get_or state (index (x + 2) y) 0)))

unfoldable pub chi : List ℕ → List ℕ
unfolding for_range chi_row
chi state =
    for_range 5 0
      (λ y s. let c = chi_row s y in for_range 5 0 (λ x s'. set s' (index x y) (get_or c x 0)) s)
      state

unfoldable pub iota : List ℕ → ℕ → List ℕ
iota state round = set state 0 (bit_xor (get_or state 0 0) (get_or round_constants round 0))

unfoldable pub round_on_words : ℕ → List ℕ → List ℕ
round_on_words i state = iota (chi (pi (rho (theta state)))) i

unfoldable pub permutation_on_words : List ℕ → List ℕ
unfolding for_range
permutation_on_words state = for_range rounds 0 round_on_words state

-- One word of `keccak_bytes_to_words`, from the eight bytes in front of the list.
unfoldable pub load64 : List ℕ → ℕ
unfolding for_range
load64 bytes = for_range 8 0 (λ j w. bit_or w (u64 (get_or bytes j 0 <<< (8 * j)))) 0

-- The loop of `keccak_bytes_to_words` over `n` words.
unfoldable pub bytes_to_words : ℕ → List ℕ → List ℕ
bytes_to_words zero bytes = []
bytes_to_words (suc n) bytes = load64 bytes ∷ bytes_to_words n (drop 8 bytes)

-- The eight bytes that the inner loop of `keccak_words_to_bytes` stores for a word, before `rest`.
unfoldable pub store64 : ℕ → List ℕ → List ℕ
store64 w rest =
    bit_and (w >>> 0) 0xff
    ∷ bit_and (w >>> 8) 0xff
    ∷ bit_and (w >>> 16) 0xff
    ∷ bit_and (w >>> 24) 0xff
    ∷ bit_and (w >>> 32) 0xff
    ∷ bit_and (w >>> 40) 0xff
    ∷ bit_and (w >>> 48) 0xff
    ∷ bit_and (w >>> 56) 0xff
    ∷ rest

unfoldable pub words_to_bytes : List ℕ → List ℕ
words_to_bytes [] = []
words_to_bytes (w ∷ ws) = store64 w (words_to_bytes ws)

-- On a little-endian machine the cast of the bytes to words reads the same numbers.
unfoldable pub permutation : List ℕ → List ℕ
permutation state = words_to_bytes (permutation_on_words (bytes_to_words lanes state))

unfoldable pub init : List ℕ
unfolding replicate
init = replicate state_size 0

-- `for (i = 0; i < bytes && i < KECCAK_STATE_SIZE; i++) state[i] ^= data[i]`
unfoldable pub xor_into : ℕ → List ℕ → List ℕ → List ℕ
xor_into zero state input = state
xor_into (suc n) [] input = []
xor_into (suc n) (s ∷ state) [] = s ∷ state
xor_into (suc n) (s ∷ state) (d ∷ input) = bit_xor s d ∷ xor_into n state input

unfoldable pub absorb : List ℕ → List ℕ → ℕ → List ℕ
absorb state input n = permutation (xor_into (u32 (n * 8)) state input)

-- `memcpy` of `n` bytes from the start of the state; a read past its end is a 0 here.
unfoldable pub copy_out : ℕ → List ℕ → List ℕ
copy_out zero state = []
copy_out (suc n) [] = 0 ∷ copy_out n []
copy_out (suc n) (b ∷ state) = b ∷ copy_out n state

-- What is copied out.
unfoldable pub extract : List ℕ → ℕ → List ℕ
unfolding copy_out
extract state n =
    let bytes = u32 (n * 8) in copy_out (if ltb state_size bytes then state_size else bytes) state
