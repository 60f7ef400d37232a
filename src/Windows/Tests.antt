-- ===== src/Windows/Tests.antt =====
-- The theorems on concrete inputs: a file that counts the bytes that it takes, a sponge that yields
-- zeros, and a device that answers with alternating comparators.
use infnoise.Base.{
  ℕ, ◌+◌, ◌*◌, ◌≡◌, refl, Bool, true, false, List, [], ◌∷◌, length, replicate, length-replicate,
  some, same_text, arith, bit, get_or, ◌==◌, ==_iff, all_below, all_below_sound,
}
use infnoise.Bits.Flag.{has_flag}
use infnoise.Userspace.Context.{Sponge}
use infnoise.Userspace.Library.Total.{IsSponge}
use infnoise.Userspace.Options.{Text}
use infnoise.Userspace.Steps.{Code}
use infnoise.Windows.{comp1, comp2, File, process_bytes, extract_bits}
use infnoise.Windows.Chunks.{Written, process_bytes-Written}
use infnoise.Windows.Multiplier.{IsUsable, take_arguments-IsUsable}
use infnoise.Windows.Opposite.{Differ, Opposite, collects, extract_bits-Opposite}
use infnoise.Windows.Options.{
  Settings, init_settings, take_arguments, take_flag, take_last, word_of, no_output_text,
  multiplier_text,
}
use infnoise.Windows.Program.{Driver, Running, main_loop, clock_byte}
use infnoise.Windows.Address.{Clocked, clock_byte-Clocked}
use infnoise.Windows.Silent.{main_loop-silent}

abbrev zeros : Sponge
zeros = record {
  State = ℕ;
  initial = 0;
  absorb = λ s bytes lanes. s + 1;
  extract = λ s lanes. replicate (lanes * 8) 0;
  permutation = λ s. s + 1;
}

zeros-IsSponge : IsSponge zeros
zeros-IsSponge = record { length_extract = λ s lanes. length-replicate (lanes * 8) 0 }

abbrev counting : File ℕ
counting = record { fwrite = λ bytes w. (length bytes, w + length bytes) }

abbrev broken : File ℕ
broken = record { fwrite = λ bytes w. (0, w) }

process_bytes-Written_example :
    Written counting zeros
      (λ bytes w. w + length bytes)
      (λ bytes w. refl)
      6
      5
      0
      (process_bytes counting zeros 5 (replicate 64 1) 437 false false 5 0)
process_bytes-Written_example =
    process_bytes-Written counting zeros (λ bytes w. w + length bytes) (λ bytes w. refl)
      zeros-IsSponge 5 (replicate 64 1) 437 5 0

clock_byte-Clocked_example : Clocked 13 (clock_byte 13)
clock_byte-Clocked_example = clock_byte-Clocked 13

-- The second comparator is on in every sample.
abbrev second_on : List ℕ
second_on = 16 ∷ 16 ∷ 16 ∷ 16 ∷ 16 ∷ 16 ∷ 16 ∷ 16 ∷ []

abbrev one_on : ℕ → Bool
one_on j =
    bit (has_flag (get_or second_on (0 * 8 + j) 0) comp1)
      + bit (has_flag (get_or second_on (0 * 8 + j) 0) comp2)
    == 1

second_on-Differ : Differ second_on 0
unfolding has_flag all_below
second_on-Differ = record { differ = λ j lt. (==_iff _ _).0 (all_below_sound one_on 8 j refl lt) }

extract_bits-Opposite_example : Opposite 8 (extract_bits collects 8 0 0 second_on 0 0)
extract_bits-Opposite_example = extract_bits-Opposite second_on 0 second_on-Differ

abbrev atoi : Text → Code
atoi text = Code.given (length text)

abbrev settings : Settings
settings = record init_settings {
  no_output = true;
  output_multiplier = 3;
  out_file = some (97 ∷ []);
}

abbrev arguments : List Text
arguments = no_output_text ∷ multiplier_text ∷ (49 ∷ 49 ∷ 49 ∷ []) ∷ (97 ∷ []) ∷ []

arguments-taken : take_arguments atoi arguments init_settings ≡ some settings
unfolding take_arguments take_flag take_last word_of same_text
arguments-taken = refl

take_arguments-IsUsable_example : IsUsable arguments init_settings settings
take_arguments-IsUsable_example =
    take_arguments-IsUsable atoi arguments init_settings settings (omega arith) (omega arith)
      arguments-taken

abbrev answering : Driver ℕ
answering = record {
  open_device = λ w. (true, w);
  set_baud_rate = λ rate w. (true, w);
  set_bit_mode = λ mask mode w. (true, w);
  write = λ bytes w. ((true, length bytes), w);
  read = λ n w. ((true, n, replicate n 16), w);
}

abbrev running : Running ℕ ℕ ℕ
running = record { health = 0; keccak = 0; world = 0; good = 0 }

main_loop-silent_example :
    main_loop collects answering counting zeros 3 settings running
    ≡ main_loop collects answering broken zeros 3 settings running
main_loop-silent_example =
    main_loop-silent collects answering counting broken zeros settings 3 running refl
