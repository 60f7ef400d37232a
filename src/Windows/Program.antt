-- ===== src/Windows/Program.antt =====
-- software/infnoise_win.c: the device, and the endless loop.
use infnoise.Base.{
  ℕ, zero, suc, ◌+◌, ◌-◌, ◌%◌, ◌^◌, Bool, ◌&&◌, not, List, [], ◌∷◌, Option, none, some, bit_or,
  ◌==◌, inc64, if◌then◌else◌, length, replicate,
}
use infnoise.Userspace.Context.{Sponge, buflen}
use infnoise.Userspace.Options.{Text}
use infnoise.Windows.Options.{Settings}
use infnoise.Windows.{
  HealthCheck, File, Exit, Result, next, make_address, swen1, swen2, comp1, comp2, extract_bytes,
  process_bytes,
}

-- The driver: `true` is FT_OK.
pub record Driver (W : Type 0) : Type 0 where
  pub open_device : W → Bool × W
  pub set_baud_rate : ℕ → W → Bool × W
  pub set_bit_mode : ℕ → ℕ → W → Bool × W
  pub write : List ℕ → W → (Bool × ℕ) × W
  pub read : ℕ → W → (Bool × ℕ × List ℕ) × W

abbrev pub mask : ℕ
mask = 255 - 2 ^ comp1 - 2 ^ comp2

pub data Trouble : Type 0 where
  cannot_find : Trouble
  baud_rate_failed : Trouble
  cannot_enable_bit_bang : Trouble
  write_failed : Trouble
  read_failed : Trouble

-- `outBuf[i]`
unfoldable pub clock_byte : ℕ → ℕ
clock_byte i = bit_or (if i % 2 == 1 then 2 ^ swen2 else 2 ^ swen1) (make_address (i % 16))

unfoldable pub clock_from : ℕ → ℕ → List ℕ
clock_from i zero = []
clock_from i (suc left) = clock_byte i ∷ clock_from (i + 1) left

module _ {W : Type 0} (driver : Driver W) where
  open driver use {open_device, set_baud_rate, set_bit_mode, write, read}

  -- `FT_Write(...) != FT_OK || bytesWritten != n`, negated.
  unfoldable pub write_all : List ℕ → W → Bool × W
  write_all bytes w = let ((ok, n), w1) = write bytes w in (ok && (n == length bytes), w1)

  unfoldable pub read_all : ℕ → W → (Bool × List ℕ) × W
  read_all n w = let ((ok, m, bytes), w1) = read n w in ((ok && (m == n), bytes), w1)

  -- `none` is success.
  unfoldable pub initialize_usb : W → Option Trouble × W
  unfolding write_all read_all
  initialize_usb w =
      let (opened, w1) = open_device w in
      let (rated, w2) = set_baud_rate 30000 w1 in
      let (moded, w3) = set_bit_mode mask 4 w2 in
      let (wrote, w4) = write_all (replicate 64 0) w3 in
      let ((got, bytes), w5) = read_all 64 w4 in
      if not opened
      then (some Trouble.cannot_find, w1)
      else if not rated
      then (some Trouble.baud_rate_failed, w2)
      else if not moded
      then (some Trouble.cannot_enable_bit_bang, w3)
      else if not wrote
      then (some Trouble.write_failed, w4)
      else if not got
      then (some Trouble.read_failed, w5)
      else (none, w5)

  -- The second attempt.
  unfoldable pub initialize_twice : W → Option Trouble × W
  initialize_twice w =
      let (first, w1) = initialize_usb w in
      let second = initialize_usb w1 in elim first [ none ↦ (none, w1) | some trouble ↦ second ]

-- What main keeps in its loop.
pub record Running (H S W : Type 0) : Type 0 where
  pub health : H
  pub keccak : S
  pub world : W
  pub good : ℕ

module _ {H W : Type 0} (check : HealthCheck H) (driver : Driver W) (file : File W)
    (sponge : Sponge) where
  open check use {ok_to_use_data, entropy_on_target, start}

  -- `!noOutput && inmHealthCheckOkToUseData() && inmEntropyOnTarget(entropy, BUFLEN)`
  unfoldable pub passes : Settings → ℕ → H → Bool
  passes o entropy h = not o.no_output && ok_to_use_data h && entropy_on_target entropy h

  -- What a round does with what `extractBytes` returns.
  unfoldable pub deliver :
      Settings
      → Running H sponge.State W
      → Result H (List ℕ × ℕ)
      → Result (Running H sponge.State W) (Unit {0})
  unfolding passes
  deliver o r (Result.ended why h) = Result.ended why (record r { health = h })
  deliver o r (Result.went (bytes, entropy) h) =
      let after = record r { health = h; good = inc64 r.good } in
      let output =
        process_bytes file sponge r.keccak bytes entropy o.raw o.dev_random o.output_multiplier
          r.world in
      if passes o entropy h
      then elim output [
        | Result.ended why w ↦ Result.ended why (record r { health = h; world = w })
        | Result.went keccak w ↦ Result.went tt (record after { keccak = keccak; world = w })
      ]
      else Result.went tt after

  unfoldable pub main_round :
      Settings → Running H sponge.State W → Result (Running H sponge.State W) (Unit {0})
  unfolding write_all read_all
  main_round o r =
      let (wrote, w1) = write_all driver (clock_from 0 buflen) r.world in
      let ((got, in_buf), w2) = read_all driver buflen w1 in
      let rest = deliver o (record r { world = w2 }) (extract_bytes check in_buf r.health) in
      if not wrote
      then Result.ended Exit.write_failed (record r { world = w1 })
      else if not got
      then Result.ended Exit.read_failed (record r { world = w2 })
      else rest

  -- The loop of main, for a number of rounds.
  unfoldable pub main_loop :
      ℕ → Settings → Running H sponge.State W → Result (Running H sponge.State W) (Unit {0})
  main_loop zero o r = Result.went tt r
  main_loop (suc rounds) o r = next (main_round o r) (main_loop rounds o)

  -- The start of main, after the arguments.
  unfoldable pub prepare :
      (open_file : Option Text → W → Option Exit × W)
      → Settings
      → H
      → W
      → Result (H × W) (Running H sponge.State W)
  unfolding initialize_twice
  prepare open_file o h w =
      let (refused, w1) = open_file o.out_file w in
      let (healthy, h1) = start o.debug h in
      let (trouble, w2) = initialize_twice driver w1 in
      elim refused [
        | some why ↦ Result.ended why (h, w1)
        | none ↦ if not healthy then Result.ended Exit.no_health (h1, w1) else elim trouble [
          | some t ↦ Result.ended Exit.no_usb (h1, w2)
          | none ↦
              Result.went (record { health = h1; keccak = sponge.initial; world = w2; good = 0 })
                (h1, w2)
        ]
      ]
