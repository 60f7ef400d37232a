-- ===== src/Userspace/Library.antt =====
-- software/libinfnoise.c: `readData` and what it calls.
pub mod Startup
pub mod Devices
pub mod Samples
pub mod Total
pub mod Read
pub mod Drain
pub mod Entropy
use infnoise.Base.{
  ℕ, zero, suc, ◌+◌, ◌-◌, ◌*◌, ◌/◌, ◌%◌, ◌^◌, Bool, true, false, not, ◌&&◌, List, [], ◌∷◌, ◌++◌,
  Option, none, some, bit, bit_or, u8, u32, ◌<<<◌, inc32, ltb, leb, ◌==◌, if◌then◌else◌, get_or,
  set, take, replicate,
}
use infnoise.Kernel.Extract.{even_bit_of, odd_bit_of, even_at}
use infnoise.Userspace.Floats.{Floats}
use infnoise.Userspace.Steps.{Code, is_negative, M, ◌>>=◌, ◌>>◌, return}
use infnoise.Userspace.Health
use infnoise.Userspace.Health.{Health}
use infnoise.Userspace.Context.{
  buflen, max_microsec, Message, Sponge, Timespec, Libftdi, Context, State, Output, nothing,
  is_exactly, service, get_ctx, put_ctx, complain,
}

-- The fuel of the loop of the health check.
abbrev pub rounds : ℕ
rounds = 17

-- The clock signal: SWEN1 and SWEN2 in turn, from index `i` on.
unfoldable pub clock_from : ℕ → ℕ → List ℕ → List ℕ
clock_from zero i buf = buf
clock_from (suc pairs) i buf = clock_from pairs (i + 2) (set (set buf i (2 ^ 2)) (i + 1) (2 ^ 0))

-- `diffTime`: the difference of the nanoseconds has a sign of its own.
unfoldable pub diff_time : (f : Floats) → Timespec → Timespec → f.Double
diff_time f start end =
    let seconds = f.mul (f.of_u32 (u32 (end.tv_sec + 2 ^ 32 - u32 start.tv_sec))) f.million in
    if leb start.tv_nsec end.tv_nsec
    then f.add seconds (f.div (f.of_u32 (end.tv_nsec - start.tv_nsec)) f.thousand)
    else f.sub seconds (f.div (f.of_u32 (start.tv_nsec - end.tv_nsec)) f.thousand)

module _ {f : Floats} where
  -- The inner loop of `extractBytes` for one byte, from bit `j` on.
  unfoldable pub extract_bits : ℕ → ℕ → ℕ → List ℕ → ℕ → Health f → Option (ℕ × Bool × Health f)
  extract_bits zero j base in_buf byte h = some (byte, true, h)
  extract_bits (suc left) j base in_buf byte h =
      let val = get_or in_buf (base + j) 0 in
      let b = if even_at j then even_bit_of val else odd_bit_of val in
      let byte' = u8 (bit_or (byte <<< 1) (bit b)) in
      elim (Health.add_bit rounds h (even_bit_of val) (odd_bit_of val) (even_at j)) [
        | none ↦ none
        | some (h', good) ↦ elim good [
          | true ↦ extract_bits left (j + 1) base in_buf byte' h'
          | false ↦ some (byte', false, h')
        ]
      ]

  -- The outer loop; what is stored before a failure is kept.
  unfoldable pub extract_loop : ℕ → ℕ → List ℕ → Health f → Option (List ℕ × Bool × Health f)
  extract_loop zero i in_buf h = some ([], true, h)
  extract_loop (suc left) i in_buf h = elim (extract_bits 8 0 (i * 8) in_buf 0 h) [
    | none ↦ none
    | some (byte, good, h') ↦ elim good [
      | false ↦ some ([], false, h')
      | true ↦ elim (extract_loop left (i + 1) in_buf h') [
        | none ↦ none
        | some (bytes, good', h'') ↦ some (byte ∷ bytes, good', h'')
      ]
    ]
  ]

module _ {f : Floats} {sponge : Sponge} where
  unfoldable pub prepare_output_buffer : Context f sponge → Context f sponge
  prepare_output_buffer c = record c { out_buf = clock_from (buflen / 2) 0 c.out_buf }

  -- `extractBytes`
  unfoldable pub extract_bytes :
      Context f sponge → ℕ → List ℕ → Option (List ℕ × Bool × Context f sponge)
  extract_bytes c length in_buf =
      elim (extract_loop length 0 in_buf (Health.clear_entropy_level c.health)) [
        | none ↦ none
        | some (bytes, good, h) ↦
            if good
            then some (
              bytes,
              true,
              record c { health = h; entropy_this_time = Health.get_entropy_level h },
            )
            else some (bytes, false, record c { health = h; message = Message.health_failed })
      ]

  -- `expectedEntropyPerBit * BUFLEN / INM_ACCURACY`
  unfoldable pub entropy_cap : Context f sponge → f.Double
  entropy_cap c = f.div (f.mul c.health.expected_entropy_per_bit (f.of_u32 buflen)) f.accuracy

  -- The lower of the measured entropy and the bound on it.
  unfoldable pub cap_entropy : Context f sponge → Context f sponge
  cap_entropy c =
      if f.lt (entropy_cap c) (f.of_u32 c.entropy_this_time)
      then record c { entropy_this_time = f.to_u32 (entropy_cap c) }
      else c

  -- At most 128 of the bytes that are left of an absorption.
  unfoldable pub squeeze : Context f sponge → Output × Context f sponge
  squeeze c =
      let bytes_to_write = if ltb c.keccak_bytes_given 128 then c.keccak_bytes_given else 128 in
      (
        record {
          written = sponge.extract c.keccak_state (bytes_to_write / 8);
          code = Code.given bytes_to_write;
        },
        record c {
          keccak_state = sponge.permutation c.keccak_state;
          keccak_bytes_given = u32 (c.keccak_bytes_given + 2 ^ 32 - bytes_to_write);
        },
      )

  -- `processBytes`. The Boolean says whether there is a buffer for the result; with a positive
  -- multiplier the code writes to it without a test.
  unfoldable pub process_bytes :
      Context f sponge → List ℕ → Bool → Bool → ℕ → Output × Context f sponge
  process_bytes c0 bytes buffer raw multiplier =
      let c = cap_entropy c0 in
      let absorbed = record c { keccak_state = sponge.absorb c.keccak_state bytes (buflen / 64) } in
      let e = c.entropy_this_time in
      let data_out = sponge.extract absorbed.keccak_state (u32 (e + 63) / 64) in
      if raw
      then (
        record {
          written = if buffer then take (buflen / 8) bytes else [];
          code = Code.given (buflen / 8);
        },
        c,
      )
      else if multiplier == 0
      then (
        record {
          written = if buffer then take (e / 8) data_out else [];
          code = Code.given (e / 8);
        },
        absorbed,
      )
      else if c.keccak_bytes_given == 0
      then squeeze (record absorbed { keccak_bytes_given = u32 (multiplier * 256) / 8 })
      else (nothing (Code.given 0), absorbed)

  -- The two health tests after the samples are extracted.
  unfoldable pub passes : Context f sponge → Bool
  passes c =
      Health.ok_to_use_data c.health && Health.entropy_on_target c.health c.entropy_this_time buflen

module _ {f : Floats} {sponge : Sponge} {W : Type 0} (ftdi : Libftdi W) where
  -- What follows `extractBytes` in `readData`.
  unfoldable pub use_samples : List ℕ → Bool → Bool → ℕ → M (State f sponge W) Output
  use_samples in_buf buffer raw multiplier s = elim (extract_bytes s.ctx (buflen / 8) in_buf) [
    | none ↦ none
    | some (bytes, good, c) ↦
        if good
        then if passes c
          then (let (out, c') = process_bytes c bytes buffer raw multiplier in
              some (out, record s { ctx = c' }))
          else some (nothing (Code.given 0), record s { ctx = c })
        else some (nothing (Code.failed 3), record s { ctx = c })
  ]

  -- The part of `readData` that collects new entropy.
  unfoldable pub read_fresh : Bool → Bool → ℕ → M (State f sponge W) Output
  read_fresh buffer raw multiplier = do
    start ← service ftdi.clock
    c ← get_ctx
    sent ← service (ftdi.write_data c.out_buf)
    if is_exactly sent buflen
        then (do
          (got, in_buf) ← service (ftdi.read_data buflen)
          if is_exactly got buflen
              then (do
                end ← service ftdi.clock
                if f.lt (f.of_u32 max_microsec) (diff_time f start end)
                    then return (nothing (Code.given 0))
                    else use_samples in_buf buffer raw multiplier)
              else complain Message.read_failed (nothing (Code.failed 2)))
        else complain Message.write_failed (nothing (Code.failed 1))

  -- `readData`
  unfoldable pub read_data : Bool → Bool → ℕ → M (State f sponge W) Output
  read_data buffer raw multiplier = do
    c ← get_ctx
    if c.keccak_bytes_given == 0
        then read_fresh buffer raw multiplier
        else (let (out, c') = squeeze c in do put_ctx c'; return out)
