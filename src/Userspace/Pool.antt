-- ===== src/Userspace/Pool.antt =====
-- software/writeentropy.c: the entropy pool of the Linux kernel. What the program prints is left out.
pub mod Number
use infnoise.Base.{
  ℕ, ◌+◌, ◌-◌, ◌*◌, Bool, ◌&&◌, List, [], ◌∷◌, ◌++◌, Option, none, some, u32, ltb, leb,
  if◌then◌else◌, length, drop, replicate,
}
use infnoise.Userspace.Steps.{Code, is_negative}

-- The calls of the system: /dev/random, memory, the file with the watermark, the count of entropy,
-- the wait, and the addition of entropy with its count of bits.
pub record Random (W : Type 0) : Type 0 where
  pub open_random : W → Code × W
  pub calloc : W → Bool × W
  pub watermark_file : W → Option (List ℕ) × W
  pub entropy_count : W → Code × W
  pub poll : ℕ → W → W
  pub add_entropy : ℕ → List ℕ → W → W
  pub reseed : W → W

-- The watermark, and the buffer of `inmPoolInfo`.
pub record Pool : Type 0 where
  pub fill_watermark : ℕ
  pub buf : List ℕ

-- `readNumberFromFile` on the characters of the file, from a value on.
unfoldable pub read_number : ℕ → List ℕ → ℕ
read_number value [] = value
read_number value (c ∷ text) =
    if leb 48 c && leb c 57 then read_number (u32 (u32 (value * 10) + (c - 48))) text else value

-- `memcpy` of the bytes to the front of the buffer; `none` where it runs past the end.
unfoldable pub copy_to_front : List ℕ → List ℕ → Option (List ℕ)
copy_to_front bytes buf =
    if leb (length bytes) (length buf) then some (bytes ++ drop (length bytes) buf) else none

module _ {W : Type 0} (random : Random W) where
  -- `inmWriteEntropyStart`; `none` is an exit with status 1.
  unfoldable pub write_entropy_start : ℕ → W → Option Pool × W
  write_entropy_start buf_len w =
      let (fd, w1) = random.open_random w in
      let (got, w2) = random.calloc w1 in
      let (text, w3) = random.watermark_file w2 in
      if is_negative fd
      then (none, w1)
      else if got
      then elim text [
        | none ↦ (none, w3)
        | some characters ↦ (
          some (record { fill_watermark = read_number 0 characters; buf = replicate buf_len 0 }),
          w3,
        )
      ]
      else (none, w2)

  -- `inmWaitForPoolToHaveRoom`
  unfoldable pub wait_for_pool : Pool → ℕ → W → W
  wait_for_pool pool feed_frequency w =
      let (count, w1) = random.entropy_count w in
      elim count [
        | Code.given n ↦
            if ltb n pool.fill_watermark then w1 else random.poll (u32 (1000 * feed_frequency)) w1
        | Code.failed n ↦ random.poll (u32 (1000 * feed_frequency)) w1
      ]

  -- `inmWriteEntropyToPool`; `none` where the copy runs past the end of the buffer.
  unfoldable pub write_entropy_to_pool : Pool → List ℕ → ℕ → W → Option (Pool × W)
  write_entropy_to_pool pool bytes entropy w = elim (copy_to_front bytes pool.buf) [
    | none ↦ none
    | some buf ↦ some (record pool { buf = buf }, random.add_entropy entropy bytes w)
  ]
