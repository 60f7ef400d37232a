-- ===== src/Kernel/Tests.antt =====
-- The theorems on concrete inputs: a state that the health check starts from, bytes and words, and
-- a USB core that accepts every write and answers every read with zeros.
use infnoise.Base.{
  ℕ, ◌+◌, ◌-◌, ◌*◌, ◌/◌, ◌%◌, ◌^◌, ◌≤◌, ◌<◌, ◌≡◌, ◌↔◌, refl, Bool, true, false, List, [], ◌∷◌,
  length, replicate, arith, some, leb, ltb, get_or, if◌then◌else◌, bit_xor, min, length-replicate,
}
use infnoise.Kernel.Const.{buflen, max_count, min_data, max_sequence, bytes_out, usb_read_size}
use infnoise.Kernel.Health
use infnoise.Kernel.Health.{Health}
use infnoise.Kernel.Health.Invariant.{IsValid}
use infnoise.Kernel.Health.Tables.{AreTables, update_tables-AreTables}
use infnoise.Kernel.Health.Measure.{Measured, measured}
use infnoise.Kernel.Health.Total.{add_bit_total, init-IsValid}
use infnoise.Kernel.Health.Faults.{Reading, Judges, feed, run_of, feed_stretch}
use infnoise.Kernel.Health.History.{Fed, feed-Fed}
use infnoise.Kernel.Health.Estimate.{IsBounded, ok_iff, entropy_on_target_iff, add_bit-IsBounded}
use infnoise.Kernel.Keccak
use infnoise.Kernel.Keccak.Spec
use infnoise.Kernel.Keccak.Refines.{permutation_on_words-keccak_f}
use infnoise.Kernel.Keccak.Bytes.{bytes_to_words-inverse, words_to_bytes-inverse}
use infnoise.Kernel.Keccak.Sponge.{get_or-xor_into, Extracted, extract-Extracted, init-IsState}
use infnoise.Kernel.Device.{Device, Usb, State, ok}
use infnoise.Kernel.Device.Triple.{Returns}
use infnoise.Kernel.Extract.Pack.{Sampled, extract-Sampled}
use infnoise.Kernel.Ftdi.{strip_status}
use infnoise.Kernel.Ftdi.Strip.{IsStripped, strip_status-IsStripped}
use infnoise.Kernel.Ftdi.Control.{IsRecovery, try_recovery_lem}
use infnoise.Kernel.Transfer.{usb_transfer}
use infnoise.Kernel.Transfer.Total.{IsReady, Fits, Settled, usb_transfer_total}
use infnoise.Kernel.Read.{read_data, squeeze_left, warmup_work}
use infnoise.Kernel.Read.Total.{
  Served, Warmed, read_data_total, squeeze_left_accounts, warmup_work_total,
}
use infnoise.Kernel.Interface.{hwrng_read, char_read}
use infnoise.Kernel.Interface.Total.{Copied, hwrng_read_total, char_read_total}
use infnoise.Kernel.Probe.{Held, nothing_held, Answers, ready_device, probe, disconnect}
use infnoise.Kernel.Probe.Ledger.{
  Probed, ready_device-IsReady, init-IsBounded, probe_total, disconnect-nothing_held,
}

abbrev start : Health
start = (Health.init true true true true).0

start-IsValid : IsValid start
unfolding Health.init
start-IsValid = (init-IsValid true true true true).1 refl

start-IsBounded : IsBounded start
start-IsBounded = init-IsBounded true true true true

add_bit_total_example :
    (h' : Health) × (Health.add_bit start true false true
      ≡ some (h', (Health.take_bit start true false true).1))
    × IsValid h'
add_bit_total_example = add_bit_total start true false true start-IsValid

add_bit-IsBounded_example :
    (h' : Health) × (good : Bool) × (Health.add_bit start true false true ≡ some (h', good))
    × IsValid h'
    × IsBounded h'
    × (h'.entropy_level ≤ start.entropy_level + 16)
add_bit-IsBounded_example = add_bit-IsBounded start true false true start-IsValid start-IsBounded

measured_example :
    (h' : Health) × (Health.measure start true true ≡ some h') × Measured start true true h'
measured_example = measured start true true start-IsValid

-- A state that has seen enough samples to judge runs, in a run of nineteen ones.
abbrev judging : Health
judging = record start { num_bits_sampled = 200; seq_ones = 19 }

judging-Judges : Judges true judging
judging-Judges = record {
  valid = (
    start-IsValid.0,
    record {
      context = start-IsValid.1.context;
      over_half = start-IsValid.1.over_half;
      at_most_one = start-IsValid.1.at_most_one;
      window = omega arith;
      entropy = start-IsValid.1.entropy;
      level = start-IsValid.1.level;
    },
  );
  enough = omega arith;
  short = omega arith;
}

abbrev one_read : Reading
one_read = record { even_bit = true; odd_bit = false; even = true }

feed_stretch_example :
    (h' : Health) × (feed judging (one_read ∷ one_read ∷ [])
      ≡ some (h', leb (run_of true judging + length (one_read ∷ one_read ∷ [])) max_sequence))
feed_stretch_example =
    feed_stretch true (one_read ∷ one_read ∷ []) judging judging-Judges (refl, (refl, tt))

feed-Fed_example : (h' : Health) × (good : Bool) × Fed start (one_read ∷ one_read ∷ []) h' good
feed-Fed_example = feed-Fed (one_read ∷ one_read ∷ []) start start-IsValid

abbrev healthy : Health
healthy = record start { num_bits_sampled = 10000; num_bits_of_entropy = 8800; total_bits = 90000 }

ok_iff_example : (Health.ok healthy ≡ true) ↔ (
    (min_data ≤ healthy.total_bits)
    × (55991 * healthy.num_bits_sampled ≤ healthy.num_bits_of_entropy * 2 ^ 16)
    × (healthy.num_bits_of_entropy * 2 ^ 16 < 59402 * healthy.num_bits_sampled))
ok_iff_example = ok_iff healthy (omega arith) (omega arith) (omega arith)

entropy_on_target_iff_example : (Health.entropy_on_target 450 buflen ≡ true) ↔ (437 ≤ 450)
entropy_on_target_iff_example = entropy_on_target_iff 450 (omega arith)

update_tables-AreTables_example : AreTables max_count (Health.update_tables start true false)
update_tables-AreTables_example =
    update_tables-AreTables start true false start-IsValid.1.context start-IsValid.0

permutation_on_words-keccak_f_example :
    Keccak.permutation_on_words (replicate 25 7) ≡ Spec.keccak_f (replicate 25 7)
permutation_on_words-keccak_f_example =
    permutation_on_words-keccak_f (replicate 25 7) (length-replicate 25 7)

abbrev eight : List ℕ
eight = 1 ∷ 2 ∷ 3 ∷ 4 ∷ 255 ∷ 6 ∷ 7 ∷ 128 ∷ []

bytes_to_words-inverse_example : Keccak.words_to_bytes (Keccak.bytes_to_words 1 eight) ≡ eight
bytes_to_words-inverse_example = bytes_to_words-inverse 1 eight refl (
  omega arith,
  (
    omega arith,
    (omega arith, (omega arith, (omega arith, (omega arith, (omega arith, (omega arith, tt)))))),
  ),
)

abbrev two_words : List ℕ
two_words = 0x0123456789abcdef ∷ 2 ^ 63 ∷ []

words_to_bytes-inverse_example :
    Keccak.bytes_to_words (length two_words) (Keccak.words_to_bytes two_words) ≡ two_words
words_to_bytes-inverse_example = words_to_bytes-inverse two_words (omega arith, (omega arith, tt))

get_or-xor_into_example :
    get_or (Keccak.xor_into 2 eight (5 ∷ 6 ∷ [])) 1 0
    ≡ (if ltb 1 2 then bit_xor (get_or eight 1 0) (get_or (5 ∷ 6 ∷ []) 1 0) else get_or eight 1 0)
get_or-xor_into_example = get_or-xor_into 2 eight (5 ∷ 6 ∷ []) 1 (omega arith) (omega arith)

extract-Extracted_example : Extracted Keccak.init 30 (Keccak.extract Keccak.init 30)
extract-Extracted_example = extract-Extracted Keccak.init 30 init-IsState.size

extract-Sampled_example :
    (out : List ℕ) × (good : Bool) × (h' : Health) × Sampled
      (replicate buflen 2)
      (replicate bytes_out 0)
      start
      out
      good
      h'
extract-Sampled_example =
    extract-Sampled (replicate buflen 2) (replicate bytes_out 0) start
      (length-replicate bytes_out 0) start-IsValid start-IsBounded

abbrev full_read : List ℕ
full_read = replicate usb_read_size 7

abbrev empty_buffer : List ℕ
empty_buffer = replicate buflen 0

full_read-length : 576 ≤ length full_read
full_read-length = omega (arith, length-replicate {A = ℕ} usb_read_size 7)

strip_status-IsStripped_example :
    let (out, n) = strip_status 576 full_read empty_buffer in
    (n ≡ min buflen (62 * (576 / 64) + (576 % 64 - 2))) × IsStripped n full_read empty_buffer out
strip_status-IsStripped_example =
    strip_status-IsStripped 576 full_read empty_buffer (length-replicate buflen 0) full_read-length

-- A USB core without a state of its own.
abbrev zeros_usb : Usb (Unit {0})
zeros_usb = record {
  control = λ r v i w. (ok tt, w);
  clear_halt_out = λ w. w;
  clear_halt_in = λ w. w;
  bulk_out = λ bytes w. (ok (length bytes), w);
  bulk_in = λ n w. (ok (replicate n 0), w);
  reset_device = λ w. (ok tt, w);
  kmalloc = λ n w. (true, w);
  msleep = λ n w. w;
  wait = λ d w. (ok tt, d, w);
  signal_pending = λ w. (false, w);
  copy_to_user = λ bytes w. (true, w);
}

zeros_usb-reads : (n : ℕ) (w : Unit {0}) → Fits n (zeros_usb.bulk_in n w).0
zeros_usb-reads n w = omega (arith, length-replicate {A = ℕ} n 0)

abbrev all_granted : Answers
all_granted = record {
  endpoints = ok tt;
  structure = true;
  clock = true;
  usb = true;
  read = true;
  out = true;
  ones_even = true;
  zeros_even = true;
  ones_odd = true;
  zeros_odd = true;
  clock_bytes = λ i. i;
  usb_bytes = λ i. 3 * i;
  read_bytes = λ i. 255;
  out_bytes = λ i. i + 1;
  register_dev = ok tt;
  register_hwrng = ok tt;
}

abbrev attached : Device
attached = record (ready_device all_granted start) {
  present = true;
  hwrng_reg = true;
  keccak_bytes_left = 64;
}

attached-IsReady : IsReady attached
attached-IsReady =
    let r = ready_device-IsReady all_granted start start-IsValid start-IsBounded in
    record {
      usb_size = r.usb_size;
      read_size = r.read_size;
      out_size = r.out_size;
      health = r.health;
      bounded = r.bounded;
      sponge = r.sponge;
      stock = omega arith;
    }

abbrev running : State (Unit {0})
running = record { dev = attached; world = tt }

try_recovery_lem_example : IsRecovery zeros_usb running
try_recovery_lem_example = try_recovery_lem zeros_usb running

usb_transfer_total_example : Returns (usb_transfer zeros_usb) Settled running
usb_transfer_total_example = usb_transfer_total zeros_usb zeros_usb-reads running attached-IsReady

read_data_total_example : Returns (read_data zeros_usb 2 32 false) (Served 32) running
read_data_total_example =
    read_data_total zeros_usb zeros_usb-reads 2 32 false running attached-IsReady

warmup_work_total_example : Returns (warmup_work zeros_usb 2) Warmed running
warmup_work_total_example = warmup_work_total zeros_usb zeros_usb-reads 2 running attached-IsReady

squeeze_left_accounts_example :
    let (out, d') = squeeze_left attached 32 in
    (out.count ≡ min (min 32 attached.keccak_bytes_left) 128)
    × (d'.keccak_bytes_left + out.count ≡ attached.keccak_bytes_left)
squeeze_left_accounts_example = squeeze_left_accounts attached 32 (omega arith)

hwrng_read_total_example : Returns (hwrng_read zeros_usb false 2 32 true) (Served 32) running
hwrng_read_total_example =
    hwrng_read_total zeros_usb false 2 zeros_usb-reads (λ d w r. r) 32 true running attached-IsReady

char_read_total_example :
    Returns (char_read zeros_usb false 2 (100 + 1) true true 100) (Copied 100) running
char_read_total_example =
    char_read_total zeros_usb false 2 zeros_usb-reads (λ d w r. r) true 100 running attached-IsReady

probe_total_example : Returns (probe zeros_usb false all_granted) Probed running
probe_total_example = probe_total zeros_usb false all_granted running

abbrev all_held : Held
all_held = record {
  structure = true;
  clock = true;
  usb = true;
  read = true;
  out = true;
  udev = true;
  tables = true;
  intfdata = true;
  chardev = true;
  hwrng = true;
  work = true;
}

disconnect-nothing_held_example :
    ((disconnect all_held attached).0 ≡ some nothing_held)
    × ((disconnect all_held attached).1.present ≡ false)
    × ((disconnect all_held attached).1.hwrng_reg ≡ false)
    × ((disconnect all_held attached).1.health ≡ Health.free attached.health)
disconnect-nothing_held_example = disconnect-nothing_held all_held attached (record {
  structure = refl;
  buffers = refl;
  udev = refl;
  tables = refl;
  intfdata = refl;
  chardev = refl;
  work = refl;
  hwrng = refl;
  present = refl;
  ready = attached-IsReady;
})
