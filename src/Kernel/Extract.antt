-- ===== src/Kernel/Extract.antt =====
-- `infnoise_extract_bytes`: one bit from each sampled byte, eight to a byte of output, each fed
-- to the health check.
pub mod Pack
use infnoise.Base.{
  ℕ, zero, suc, ◌+◌, ◌*◌, ◌==◌, bit_and, bit_or, Bool, true, false, List, Option, none, some, u8,
  ◌<<<◌, ◌>>>◌, get_or, set, if◌then◌else◌, bit,
}
use infnoise.Kernel.Const.{comp1, comp2, bytes_out}
use infnoise.Kernel.Health.{Health, add_bit, clear_entropy, get_entropy}

abbrev pub even_bit_of : ℕ → Bool
even_bit_of val = bit_and (val >>> comp2) 1 == 1

abbrev pub odd_bit_of : ℕ → Bool
odd_bit_of val = bit_and (val >>> comp1) 1 == 1

-- `j & 1`
abbrev pub even_at : ℕ → Bool
even_at j = bit_and j 1 == 1

-- The inner loop for one byte, from bit `j` on; the samples of the byte begin at `base`. The
-- Boolean is false where the health check fails.
unfoldable pub extract_bits : ℕ → ℕ → ℕ → List ℕ → ℕ → Health → Option (ℕ × Bool × Health)
extract_bits zero j base in_buf byte h = some (byte, true, h)
extract_bits (suc left) j base in_buf byte h =
    let val = get_or in_buf (base + j) 0 in
    let b = if even_at j then even_bit_of val else odd_bit_of val in
    let byte' = u8 (bit_or (byte <<< 1) (bit b)) in
    elim (add_bit h (even_bit_of val) (odd_bit_of val) (even_at j)) [
      | none ↦ none
      | some (h', good) ↦ elim good [
        | true ↦ extract_bits left (j + 1) base in_buf byte' h'
        | false ↦ some (byte', false, h')
      ]
    ]

-- The outer loop, from byte `i` on, over the output buffer.
unfoldable pub extract_loop : ℕ → ℕ → List ℕ → List ℕ → Health → Option (List ℕ × Bool × Health)
extract_loop zero i in_buf bytes h = some (bytes, true, h)
extract_loop (suc left) i in_buf bytes h = elim (extract_bits 8 0 (i * 8) in_buf 0 h) [
  | none ↦ none
  | some (byte, good, h') ↦ elim good [
    | true ↦ extract_loop left (i + 1) in_buf (set bytes i byte) h'
    | false ↦ some (bytes, false, h')
  ]
]

-- With the entropy counter cleared first; the count of entropy is read by the caller.
unfoldable pub extract : ℕ → List ℕ → List ℕ → Health → Option (List ℕ × Bool × Health)
extract length in_buf bytes h = extract_loop length 0 in_buf bytes (clear_entropy h)
