-- ===== src/Windows.antt =====
-- software/infnoise_win.c: the program for Windows, up to the data that it writes. It calls functions of
-- the health check that are declared nowhere in this form, so the health check is an interface here,
-- as the driver of the device, the file and the copied Keccak code are.
pub mod Address
pub mod Chunks
pub mod Opposite
pub mod Silent
pub mod Multiplier
pub mod Options
pub mod Program
pub mod Tests
use infnoise.Base.{
  ℕ, zero, suc, ◌+◌, ◌-◌, ◌*◌, ◌/◌, ◌%◌, ◌^◌, Bool, true, false, ◌&&◌, not, List, [], ◌∷◌, bit_and,
  bit_or, bit, u8, u32, ◌>>>◌, ltb, leb, ◌==◌, if◌then◌else◌, get_or, length, take,
}
use infnoise.Bits.Flag.{has_flag}
use infnoise.Userspace.Context.{Sponge, buflen}

-- The pins.
abbrev pub comp1 : ℕ
comp1 = 1

abbrev pub comp2 : ℕ
comp2 = 4

abbrev pub swen1 : ℕ
swen1 = 2

abbrev pub swen2 : ℕ
swen2 = 0

abbrev pub addr0 : ℕ
addr0 = 3

abbrev pub addr1 : ℕ
addr1 = 5

abbrev pub addr2 : ℕ
addr2 = 6

abbrev pub addr3 : ℕ
addr3 = 7

-- `if(from & (1 << i)) { value |= 1 << j; }`
unfoldable pub copy_flag : ℕ → ℕ → ℕ → ℕ → ℕ
copy_flag from i j value = if has_flag from i then bit_or value (2 ^ j) else value

unfoldable pub make_address : ℕ → ℕ
unfolding copy_flag
make_address addr =
    copy_flag addr 3 addr3
      (copy_flag addr 2 addr2 (copy_flag addr 1 addr1 (copy_flag addr 0 addr0 0)))

unfoldable pub extract_address : ℕ → ℕ
unfolding copy_flag
extract_address value =
    copy_flag value addr3 3
      (copy_flag value addr2 2 (copy_flag value addr1 1 (copy_flag value addr0 0 0)))

-- The health check on a state `H`, the cap being that of `outputBytes`.
pub record HealthCheck (H : Type 0) : Type 0 where
  pub start : Bool → H → Bool × H
  pub clear_entropy_level : H → H
  pub add_bit : Bool → Bool → Bool → H → Bool × H
  pub entropy_level : H → ℕ
  pub ok_to_use_data : H → Bool
  pub entropy_on_target : ℕ → H → Bool
  pub entropy_cap : H → ℕ

-- Why the program ends.
pub data Exit : Type 0 where
  health_failed : Exit
  unable_to_write : Exit
  no_dev_random : Exit
  write_failed : Exit
  read_failed : Exit
  no_health : Exit
  no_usb : Exit
  no_file : Exit
  no_binary_mode : Exit
  -- The fuel of a loop is used up.
  no_fuel : Exit

pub data Result (S A : Type 0) : Type 0 where
  ended : Exit → S → Result S A
  went : A → S → Result S A

-- What follows, unless the program has ended.
unfoldable pub next : {S A B : Type 0} → Result S A → (S → Result S B) → Result S B
next (Result.ended why s) rest = Result.ended why s
next (Result.went a s) rest = rest s

module _ {H : Type 0} (check : HealthCheck H) where
  open check use {add_bit, clear_entropy_level, entropy_level}

  -- The loop over the bits of a byte, from bit `j` on, `left` of them to go.
  unfoldable pub extract_bits : ℕ → ℕ → ℕ → List ℕ → ℕ → H → Result H ℕ
  extract_bits zero i j in_buf byte h = Result.went byte h
  extract_bits (suc left) i j in_buf byte h =
      let val = get_or in_buf (i * 8 + j) 0 in
      let even_bit = has_flag val comp2 in
      let odd_bit = has_flag val comp1 in
      let even = j % 2 == 1 in
      let b = if even then odd_bit else even_bit in
      let (healthy, h1) = add_bit even_bit odd_bit even h in
      let rest = extract_bits left i (j + 1) in_buf (bit_or (u8 (byte * 2)) (bit b)) h1 in
      if healthy then rest else Result.ended Exit.health_failed h1

  unfoldable pub extract_loop : ℕ → ℕ → List ℕ → H → Result H (List ℕ)
  extract_loop zero i in_buf h = Result.went [] h
  extract_loop (suc left) i in_buf h = elim (extract_bits 8 i 0 in_buf 0 h) [
    | Result.ended why h1 ↦ Result.ended why h1
    | Result.went byte h1 ↦ elim (extract_loop left (i + 1) in_buf h1) [
      | Result.ended why h2 ↦ Result.ended why h2
      | Result.went bytes h2 ↦ Result.went (byte ∷ bytes) h2
    ]
  ]

  -- The bytes and the entropy.
  unfoldable pub extract_bytes : List ℕ → H → Result H (List ℕ × ℕ)
  extract_bytes in_buf h = elim (extract_loop (buflen / 8) 0 in_buf (clear_entropy_level h)) [
    | Result.ended why h1 ↦ Result.ended why h1
    | Result.went bytes h1 ↦ Result.went (bytes, entropy_level h1) h1
  ]

-- The file that the program writes to.
pub record File (W : Type 0) : Type 0 where
  pub fwrite : List ℕ → W → ℕ × W

-- The lanes of one round of `processBytes`.
unfoldable pub num_lanes : ℕ → ℕ
num_lanes output_multiplier = if ltb output_multiplier 4 then u32 (output_multiplier * 4) else 16

module _ {W : Type 0} (file : File W) where
  -- The entropy goes nowhere: the branch for /dev/random ends the program.
  unfoldable pub output_bytes : List ℕ → Bool → W → Result W (Unit {0})
  output_bytes bytes write_dev_random w =
      if write_dev_random
      then Result.ended Exit.no_dev_random w
      else let (written, w1) = file.fwrite bytes w in
        if written == length bytes then Result.went tt w1 else Result.ended Exit.unable_to_write w1

  module _ (sponge : Sponge) where
    -- The loop of `processBytes`, on fuel, with the state of the sponge and the entropy that is left.
    unfoldable pub squeeze_loop : ℕ → sponge.State → ℕ → ℕ → Bool → W → Result W sponge.State
    squeeze_loop zero keccak entropy output_multiplier dev w = Result.ended Exit.no_fuel w
    squeeze_loop (suc fuel) keccak entropy output_multiplier dev w =
        let lanes = num_lanes output_multiplier in
        let now = if ltb (lanes * 64) entropy then lanes * 64 else entropy in
        if output_multiplier == 0
        then Result.went keccak w
        else elim (output_bytes (sponge.extract keccak lanes) dev w) [
          | Result.ended why w1 ↦ Result.ended why w1
          | Result.went u w1 ↦
              squeeze_loop fuel (sponge.permutation keccak) (entropy - now)
                (output_multiplier - lanes / 4) dev w1
        ]

    unfoldable pub process_bytes :
        sponge.State → List ℕ → ℕ → Bool → Bool → ℕ → W → Result W sponge.State
    process_bytes keccak bytes entropy raw dev output_multiplier w =
        if raw
        then elim (output_bytes (take (buflen / 8) bytes) dev w) [
          | Result.ended why w1 ↦ Result.ended why w1
          | Result.went u w1 ↦ Result.went keccak w1
        ]
        else squeeze_loop (suc output_multiplier) (sponge.absorb keccak bytes (buflen / 64)) entropy
            output_multiplier dev w
