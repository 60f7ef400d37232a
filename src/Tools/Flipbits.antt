-- ===== src/Tools/Flipbits.antt =====
-- software/tools/flipbits.c. The static variables are a record; the streams are lists.
use infnoise.Base.{
  ℕ, zero, suc, ◌+◌, ◌-◌, ◌^◌, Bool, true, false, List, [], ◌∷◌, ◌++◌, ◌==◌, ltb, if◌then◌else◌,
  bit_or, bit_and, u8, u64, ◌<<<◌, ◌>>>◌, ◌||◌, Option, none, some,
}

pub record Bits : Type 0 where
  pub available_in_bits : ℕ
  pub available_out_bits : ℕ
  pub current_in_byte : ℕ
  pub current_out_byte : ℕ

-- The state, what is left of the input and what is written.
pub record Stream : Type 0 where
  pub bits : Bits
  pub input : List ℕ
  pub output : List ℕ

-- The test of one bit of the input, in the loop of `readVal`.
unfoldable pub take_input_bit : ℕ → ℕ → Bits → ℕ × ℕ × Bits
take_input_bit value mask b = (
  if bit_and b.current_in_byte mask == 0 then value else bit_or value 1,
  mask >>> 1,
  record b { available_in_bits = u8 (b.available_in_bits + 2 ^ 8 - 1) },
)

-- The loop of `readVal`: the value, the flag for the end of the input, and the stream.
unfoldable pub read_val_loop : ℕ → ℕ → ℕ → Stream → ℕ × Bool × Stream
unfolding take_input_bit
read_val_loop zero value mask s = (value, false, s)
read_val_loop (suc width) value mask s = elim (s.bits.available_in_bits == 0) [
  | false ↦
      let (value', mask', b) = take_input_bit (u64 (value <<< 1)) mask s.bits in
      read_val_loop width value' mask' (record s { bits = b })
  | true ↦ elim s.input [
    | [] ↦ (u64 (value <<< 1), true, s)
    | c ∷ rest ↦
        let (value', mask', b) =
          take_input_bit (u64 (value <<< 1)) (2 ^ 7)
            (record s.bits { current_in_byte = u8 c; available_in_bits = 8 }) in
        read_val_loop width value' mask' (record s { bits = b; input = rest })
  ]
]

-- The first mask is not used where no bit is available.
unfoldable pub read_val : ℕ → Stream → ℕ × Bool × Stream
read_val width s =
    let available = s.bits.available_in_bits in
    read_val_loop width 0 (if available == 0 then 0 else 2 ^ (available - 1)) s

-- One round of the loop of `writeValReverse`.
unfoldable pub write_bit : ℕ → Stream → Stream
write_bit value s =
    let out = bit_or (u8 (s.bits.current_out_byte <<< 1)) (bit_and value 1) in
    let available = u8 (s.bits.available_out_bits + 1) in
    if available == 8
    then record s {
      bits = record s.bits { current_out_byte = out; available_out_bits = 0 };
      output = s.output ++ (out ∷ []);
    }
    else record s {
      bits = record s.bits { current_out_byte = out; available_out_bits = available };
    }

unfoldable pub write_val_reverse : ℕ → ℕ → Stream → Stream
unfolding write_bit
write_val_reverse value zero s = s
write_val_reverse value (suc width) s = write_val_reverse (value >>> 1) width (write_bit value s)

-- The loop of `main`, on fuel.
unfoldable pub flip_loop : ℕ → ℕ → Stream → Option Stream
unfolding read_val write_val_reverse
flip_loop zero width s = none
flip_loop (suc fuel) width s =
    let (value, end_of_input, s') = read_val width s in
    elim end_of_input [
      | true ↦ some s'
      | false ↦ flip_loop fuel width (write_val_reverse value width s')
    ]

-- `none` in the result is the usage message.
unfoldable pub flipbits : ℕ → ℕ → List ℕ → Option (Option Stream)
unfolding flip_loop
flipbits fuel width input =
    if width == 0 || ltb 64 width
    then some none
    else elim (flip_loop fuel width (record {
      bits = record {
        available_in_bits = 0;
        available_out_bits = 0;
        current_in_byte = 0;
        current_out_byte = 0;
      };
      input = input;
      output = [];
    })) [ none ↦ none | some s ↦ some (some s) ]
