-- ===== src/Kernel/Const.antt =====
-- The constants of software/kernel/infnoise.h, and the error codes that the driver returns.
use infnoise.Base.{ℕ, ◌+◌, ◌-◌, ◌*◌, ◌/◌, ◌^◌}

abbrev pub comp1 : ℕ
comp1 = 1

abbrev pub comp2 : ℕ
comp2 = 4

abbrev pub swen1 : ℕ
swen1 = 2

abbrev pub swen2 : ℕ
swen2 = 0

abbrev pub buflen : ℕ
buflen = 512

abbrev pub bytes_out : ℕ
bytes_out = buflen / 8

abbrev pub packet_size : ℕ
packet_size = 64

abbrev pub status_size : ℕ
status_size = 2

abbrev pub data_per_packet : ℕ
data_per_packet = packet_size - status_size

abbrev pub usb_read_size : ℕ
usb_read_size = ((buflen + data_per_packet - 1) / data_per_packet) * packet_size

abbrev pub table_size : ℕ
table_size = 2 ^ 14

abbrev pub min_data : ℕ
min_data = 80000

abbrev pub min_sample_size : ℕ
min_sample_size = 100

abbrev pub max_sequence : ℕ
max_sequence = 20

abbrev pub max_count : ℕ
max_count = 2 ^ 14

abbrev pub fp_shift : ℕ
fp_shift = 16

abbrev pub fp_one : ℕ
fp_one = 2 ^ 16

abbrev pub fp_half : ℕ
fp_half = fp_one / 2

abbrev pub expected_entropy_fp : ℕ
expected_entropy_fp = 57671

abbrev pub accuracy_fp : ℕ
accuracy_fp = 67502

abbrev pub state_size : ℕ
state_size = 200

abbrev pub lanes : ℕ
lanes = 25

abbrev pub rounds : ℕ
rounds = 24

abbrev pub quality_raw : ℕ
quality_raw = 880

abbrev pub quality_whitened : ℕ
quality_whitened = 990

abbrev pub warmup_rounds : ℕ
warmup_rounds = 5000

abbrev pub max_retries : ℕ
max_retries = 3

abbrev pub recovery_threshold : ℕ
recovery_threshold = 5

-- The error numbers that the driver names; `other` is any further one of the kernel's.
pub data Errno : Type 0 where
  epipe etimedout eproto eilseq eoverflow eio enodev eshutdown enoent : Errno
  enomem eagain erestartsys efault enotty : Errno
  other : ℕ → Errno
