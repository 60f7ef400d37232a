-- ===== src/Userspace/Tests.antt =====
-- The theorems on concrete inputs: fractions as the numbers with a point, a sponge that yields
-- zeros, a device that answers every transfer in full, and one that is gone.
use native.Mathlib.Nat.{div-le_of_le-mul, le-div_iff_mul-le}
use infnoise.Base.{
  ℕ, u32, map, ◌++◌, ◌+◌, ◌*◌, ◌≡◌, ◌<◌, ◌⊎◌, ◌∙◌, subst, sym, inl, inr, refl, true, false, ◌&&◌,
  List, [], ◌∷◌, Option, none, some, length, replicate, length-replicate, arith, ltb, if◌then◌else◌,
}
use infnoise.Kernel.Health as Kernel
use infnoise.Counters.{IsTable, bump, reaches, halve}
use infnoise.Userspace.Fractions.{fractions, fractions-AreLaws}
use infnoise.Userspace.Steps.{Code}
use infnoise.Userspace.Health
use infnoise.Userspace.Health.{Health, max_count, start, ok_to_use_data, next_prev_bits}
use infnoise.Userspace.Health.Invariant.{IsValid}
use infnoise.Userspace.Health.Total.{Added, add_bit_returns}
use infnoise.Userspace.Health.Start.{Started, start-Started, next_prev_bits-kernel}
use infnoise.Userspace.Steps.{◌>>=◌, ◌>>◌, return}
use infnoise.Userspace.Context.{
  Sponge, Node, Libftdi, Context, State, Output, Message, is_exactly, service, get_ctx, put_ctx,
  complain,
}
use infnoise.Userspace.Library.{
  read_data, read_fresh, use_samples, extract_bytes, extract_loop, extract_bits, cap_entropy,
  entropy_cap, squeeze, passes, diff_time, process_bytes,
}
use infnoise.Userspace.Library.Startup.{warmup_loop}
use infnoise.Userspace.Library.Devices.{Heap, list_usb_devices, list_usb_devices-nodes}
use infnoise.Userspace.Library.Total.{IsSponge, IsCapped, IsReady}
use infnoise.Userspace.Library.Read.{Served, read_data-Served}
use infnoise.Userspace.Library.Drain.{
  IsGone, Drained, read_left, read_left-Drained, warmup_loop-gone,
}
use infnoise.Userspace.Library.Entropy.{IsTruncating, Conservative, process_bytes-Conservative}
use infnoise.Userspace.Options.{
  Text, Event, Opts, Environment, Request, init_opts, take_options, take_option, set_multiplier,
  take_names, take_multiplier, take_default, read_environment, decide_request,
}
use infnoise.Userspace.Options.Precedence.{expected_multiplier, decide_request-multiplier}
use infnoise.Userspace.Pool.{Random, read_number}
use infnoise.Userspace.Pool.Number.{place_value, read_number-place_value}
use infnoise.Userspace.Program.{Host, Ending, Step, Running, main_round, main_loop}
use infnoise.Userspace.Program.Safe.{IsLooping, IsSound, Ends, main_round-IsSound, main_loop-safe}
use infnoise.Userspace.Program.Overrun.{main_round-overrun}

abbrev zeros : Sponge
zeros = record {
  State = ℕ;
  initial = 0;
  absorb = λ s bytes lanes. s + 1;
  extract = λ s lanes. replicate (lanes * 8) 0;
  permutation = λ s. s + 1;
}

zeros-IsSponge : IsSponge zeros
zeros-IsSponge = record { length_extract = λ s lanes. length-replicate (lanes * 8) 0 }

-- A health check over one bit of context.
abbrev fresh : Health fractions
fresh = record {
  n = 1;
  k = (184, 100);
  expected_entropy_per_bit = (88, 100);
  debug = false;
  ones_even = 0 ∷ 0 ∷ [];
  zeros_even = 0 ∷ 0 ∷ [];
  ones_odd = 0 ∷ 0 ∷ [];
  zeros_odd = 0 ∷ 0 ∷ [];
  prev_bits = 0;
  num_bits_sampled = 0;
  num_bits_of_entropy = 0;
  current_probability = (1, 1);
  total_bits = 0;
  prev_bit = false;
  entropy_level = 0;
  num_sequential_zeros = 0;
  num_sequential_ones = 0;
  total_ones = 0;
  total_zeros = 0;
  even_misfires = 0;
  odd_misfires = 0;
  prev_even = false;
  prev_odd = false;
}

two_zeros-IsTable : IsTable 2 max_count (0 ∷ 0 ∷ [])
two_zeros-IsTable = record { allocated = refl; below = (omega arith, (omega arith, tt)) }

fresh-IsValid : IsValid fresh
fresh-IsValid = record {
  at_least_one = omega arith;
  at_most_30 = omega arith;
  tables = (two_zeros-IsTable, two_zeros-IsTable, two_zeros-IsTable, two_zeros-IsTable);
  context = omega arith;
  window = omega arith;
  ones = omega arith;
  zeros = omega arith;
  over_half = refl;
}

add_bit_returns_example : Added 17 fresh true false true
add_bit_returns_example =
    add_bit_returns fractions-AreLaws 17 fresh true false true fresh-IsValid (omega arith)

start-Started_example :
    Started fresh 14
      (true && true && false && true)
      (start fresh 14 (184, 100) false true true false true)
start-Started_example =
    start-Started fractions-AreLaws fresh 14 (184, 100) false true true false true

next_prev_bits-kernel_example : next_prev_bits 14 12345 true ≡ Kernel.next_prev_bits 12345 true
next_prev_bits-kernel_example = next_prev_bits-kernel 12345 true (omega arith)

abbrev node : Node
node = record { manufacturer = 49 ∷ []; description = 50 ∷ []; serial = 51 ∷ [] }

-- The second device does not answer.
abbrev bench : (bytes_written : ℕ → ℕ) → Libftdi ℕ
bench bytes_written = record {
  init = λ w. (Code.given 0, w);
  find_all = λ w. ((Code.given 2, 5 ∷ 6 ∷ []), w);
  list_free = λ w. w;
  get_strings = λ dev w. (if ltb dev 6 then some node else none, w);
  usb_open = λ w. (Code.given 0, w);
  usb_open_desc = λ serial w. (Code.given 0, w);
  set_baudrate = λ rate w. (Code.given 0, w);
  set_bitmode = λ mask mode w. (Code.given 0, w);
  write_data = λ bytes w. (Code.given (bytes_written (length bytes)), w + 1);
  read_data = λ n w. ((Code.given n, replicate n 0), w + 1);
  usb_close = λ w. w;
  deinit = λ w. w;
  clock = λ w. (record { tv_sec = 0; tv_nsec = w }, w);
  is_super_user = λ w. (true, w);
  calloc = λ w. (true, w);
}

abbrev healthy : Libftdi ℕ
healthy = bench (λ n. n)

abbrev heap : Heap ℕ
heap = record { world = 0; nodes = 3; message = Message.empty }

list_usb_devices-nodes_example :
    (list_usb_devices healthy heap).1.nodes ≡ 3 + length (list_usb_devices healthy heap).0
list_usb_devices-nodes_example = list_usb_devices-nodes healthy heap

-- A context with `left` bytes of the last absorption.
abbrev context : ℕ → Context fractions zeros
context left = record {
  entropy_this_time = 437;
  message = Message.empty;
  keccak_bytes_given = left;
  keccak_state = 7;
  out_buf = replicate 512 4;
  health = fresh;
}

abbrev state : ℕ → State fractions zeros ℕ
state left = record { ctx = context left; world = 0 }

capped : IsCapped fractions (88, 100)
capped = record { converted = omega arith; compared = λ n e. ground arith }

context-IsReady : IsReady {f = fractions} {sponge = zeros} false 2 (context 0)
context-IsReady = record {
  health = fresh-IsValid;
  capped = capped;
  lanes = refl;
  range = omega arith;
  small = inl refl;
}

read_data-Served_example : Served false 2 (read_data healthy true false 2 (state 0))
read_data-Served_example =
    read_data-Served healthy fractions-AreLaws zeros-IsSponge false 2 (state 0) context-IsReady

read_left-Drained_example : Drained healthy (state 320) (read_left healthy 3 false 10 (state 320))
read_left-Drained_example =
    read_left-Drained healthy 3 false 10 (state 320) zeros-IsSponge refl (omega arith) (omega arith)

abbrev unplugged : Libftdi ℕ
unplugged = bench (λ n. 0)

unplugged-IsGone : IsGone unplugged (λ w. Unit {0})
unfolding is_exactly
unplugged-IsGone = record { clock = λ w g. tt; write = λ bytes w g. tt; fails = λ bytes w g. refl }

warmup_loop-gone_example : warmup_loop unplugged 6000 0 (state 0) ≡ none
unfolding ok_to_use_data
warmup_loop-gone_example =
    warmup_loop-gone unplugged (λ w. Unit {0}) 6000 0 (state 0) unplugged-IsGone tt refl refl

-- A number of strokes.
abbrev atoi : Text → Code
atoi text = Code.given (length text)

abbrev events : List Event
events = Event.multiplier (49 ∷ []) ∷ Event.dev_random ∷ Event.multiplier (replicate 8 49) ∷ []

abbrev environment : Environment
environment = record { serial = some (55 ∷ []); debug = none; multiplier = some (49 ∷ 49 ∷ []) }

abbrev opts : Opts
opts = record init_opts {
  output_multiplier = 8;
  multiplier_assigned = true;
  dev_random = true;
  serial = some (55 ∷ []);
}

events-decided : decide_request atoi events environment ≡ some (Request.run opts)
unfolding decide_request take_options take_option set_multiplier take_names take_multiplier
    take_default read_environment replicate
events-decided = refl

decide_request-multiplier_example : 8 ≡ expected_multiplier atoi events environment
decide_request-multiplier_example =
    decide_request-multiplier atoi events environment opts events-decided

abbrev random : Random ℕ
random = record {
  open_random = λ w. (Code.given 3, w);
  calloc = λ w. (true, w);
  watermark_file = λ w. (some (50 ∷ 53 ∷ 54 ∷ 10 ∷ []), w);
  entropy_count = λ w. (Code.given 100, w);
  poll = λ ms w. w;
  add_entropy = λ bits bytes w. w + 1;
  reseed = λ w. w;
}

abbrev host : Host ℕ
host = record {
  fwrite = λ bytes w. (length bytes, w);
  running = λ w. (ltb w 100, w);
  fork = λ w. (Code.given 0, w);
  getpid = λ w. (12, w);
  fopen = λ name w. (true, w);
  print_pid = λ pid w. (true, w);
}

abbrev two : Opts
two = record opts { output_multiplier = 2 }

abbrev running : ℕ → Running fractions zeros ℕ
running left = record {
  state = state left;
  pool = record { fill_watermark = 256; buf = replicate 64 0 };
  total_bytes_written = 0;
}

running-IsLooping : IsLooping two (running 0)
running-IsLooping = record { ready = context-IsReady; room = length-replicate 64 0 }

main_round-IsSound_example :
    (step : Step (Running fractions zeros ℕ)) × (main_round random host healthy two (running 0)
      ≡ some step)
    × IsSound two step
main_round-IsSound_example =
    main_round-IsSound random host healthy fractions-AreLaws zeros-IsSponge two (running 0)
      running-IsLooping (inr refl)

main_loop-safe_example : Ends (main_loop random host healthy 50 two (running 0))
main_loop-safe_example =
    main_loop-safe random host healthy fractions-AreLaws zeros-IsSponge 50 two (running 0)
      running-IsLooping (inr refl)

-- A health check that has warmed up, with as many ones as zeros, and a device whose comparators give
-- both in turn.
abbrev warm : Health fractions
warm = record fresh {
  ones_even = 8000 ∷ 8000 ∷ [];
  zeros_even = 8000 ∷ 8000 ∷ [];
  ones_odd = 8000 ∷ 8000 ∷ [];
  zeros_odd = 8000 ∷ 8000 ∷ [];
  num_bits_sampled = 40000;
  num_bits_of_entropy = 35200;
  total_bits = 90000;
}

abbrev warm_state : State fractions zeros ℕ
warm_state = record { ctx = record (context 0) { health = warm }; world = 0 }

abbrev warm_running : Running fractions zeros ℕ
warm_running = record (running 0) { state = warm_state }

abbrev in_turn : Libftdi ℕ
in_turn = record healthy { read_data = λ n w. ((Code.given n, replicate n 16), w + 1) }

-- The count of bytes that a read returns.
abbrev given_count : Option (Output × State fractions zeros ℕ) → ℕ
given_count none = 0
given_count (some (out, s)) = elim out.code [ Code.failed n ↦ 0 | Code.given n ↦ n ]

given_count-pos :
    (r : Option (Output × State fractions zeros ℕ))
    → 0 < given_count r
    → (out : Output) × (s : State fractions zeros ℕ) × (r ≡ some (out, s))
      × (out.code ≡ Code.given (given_count r))
given_count-pos none pos = absurd (omega arith)
given_count-pos (some (out, s)) pos = elim (code_cases out.code) [
  | inl failed ↦ absurd (ground arith)
  | inr given ↦ (out, s, refl, given.1 ∙ rw given.1 refl)
]
  where
    code_cases : (c : Code) → ((n : ℕ) × (c ≡ Code.failed n)) ⊎ ((n : ℕ) × (c ≡ Code.given n))
    code_cases (Code.failed n) = inl (n, refl)
    code_cases (Code.given n) = inr (n, refl)

warm_count : given_count (read_data in_turn true false 8 warm_state) ≡ 128
unfolding read_data read_fresh use_samples extract_bytes extract_loop extract_bits process_bytes
    squeeze cap_entropy entropy_cap passes diff_time Health.add_bit Health.measure Health.take_bit
    Health.check_sequence Health.push_history Health.track_misfires Health.next_prev_bits
    Health.update_probability Health.zeros_of Health.ones_of Health.scale_probability
    Health.count_entropy Health.double_probability Health.ok_to_use_data
    Health.estimate_entropy_per_bit Health.record_outcome Health.update_tables Health.scale_if
    Health.scale_stats Health.scale_entropy Health.scale_zero_one_counts Health.entropy_on_target
    Health.clear_entropy_level Health.get_entropy_level bump reaches halve service get_ctx put_ctx
    complain is_exactly ◌>>=◌ ◌>>◌ return replicate
warm_count = refl

-- The read of the warm device succeeds.
warm_read :
    (out : Output) × (s : State fractions zeros ℕ) × (read_data in_turn true false 8 warm_state
      ≡ some (out, s))
    × (out.code ≡ Code.given (given_count (read_data in_turn true false 8 warm_state)))
warm_read =
    given_count-pos (read_data in_turn true false 8 warm_state)
      (subst (λ n. 0 < n) (sym warm_count) (omega arith))

main_round-overrun_example :
    main_round random host in_turn opts warm_running ≡ some (Step.ended Ending.overrun)
main_round-overrun_example =
    main_round-overrun random host in_turn opts warm_running warm_read.0 warm_read.1
      (given_count (read_data in_turn true false 8 warm_state)) zeros-IsSponge refl refl refl
      (omega arith) (omega arith) (length-replicate 64 0) refl warm_read.2 warm_read.3
      (subst (λ n. 0 < n) (sym warm_count) (omega arith))

fractions-IsTruncating : IsTruncating fractions
fractions-IsTruncating = record {
  below = λ x n v small e. div-le_of_le-mul x.1 (ground arith);
  reaches = λ x n v small e.
      let positive = v.in_range in
      (le-div_iff_mul-le {k = x.1} {x = n} {y = x.0} (ground arith)).1 (ground arith);
}

process_bytes-Conservative_example :
    Conservative
      (context 0)
      (replicate 64 90)
      (process_bytes (context 0) (replicate 64 90) true false 0).0
unfolding entropy_cap
process_bytes-Conservative_example =
    process_bytes-Conservative fractions-IsTruncating zeros-IsSponge (context 0) (replicate 64 90)
      (record { not_negative = refl; in_range = refl }) (omega arith)

read_number-place_value_example :
    read_number 0 (map (λ d. 48 + d) (2 ∷ 5 ∷ 6 ∷ []) ++ (10 ∷ []))
    ≡ u32 (place_value (2 ∷ 5 ∷ 6 ∷ []))
read_number-place_value_example =
    read_number-place_value (2 ∷ 5 ∷ 6 ∷ []) (10 ∷ [])
      (omega arith, (omega arith, (omega arith, tt))) refl
