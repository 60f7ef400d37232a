-- ===== src/Lib.antt =====
-- A model of the programs for the Infinite Noise TRNG: a USB device whose comparators are sampled
-- through an FTDI bridge, a health check that measures the entropy of every bit, and a Keccak sponge
-- that whitens the samples. It exists twice: as the driver in software/kernel with the two
-- interfaces that hand the bytes out, and as the library and program in software.
--
-- The parts and how they interact. A read (Kernel/Interface) takes bytes that the sponge still owes
-- or asks for a transfer (Kernel/Read). A transfer writes the clock pattern, reads 576 bytes, takes
-- the status bytes out (Kernel/Ftdi), and turns the 512 samples into 64 bytes while every bit goes
-- through the health check (Kernel/Extract, Kernel/Health); a failure is counted, and retried with
-- recovery (Kernel/Transfer). Samples that pass go into the sponge (Kernel/Keccak). The probe
-- (Kernel/Probe) sets a device up, the disconnect takes it down. In user space the options and the
-- environment (Userspace/Options) decide what is asked for; the main loop (Userspace/Program) reads
-- from the library (Userspace/Library), which has a health check of its own (Userspace/Health), and
-- writes to the standard output or to the kernel's pool of entropy (Userspace/Pool).
--
-- Which file models what:
--   Kernel/Const      software/kernel/infnoise.h: the constants; the error numbers
--   Kernel/Health     software/kernel/infnoise_health.c: every function. `Health` is
--                     `struct infnoise_health`; `add_bit` is infnoise_health_add_bit, composed of
--                     `take_bit` (up to the stuck-at test) and `measure`
--   Kernel/Keccak     software/kernel/infnoise_keccak.c: every function. Kernel/Keccak/Spec states
--                     the permutation as the standard does, by coordinates and generated tables
--   Kernel/Device     `struct infnoise_device`, and the kernel's services as a record `Usb`
--   Kernel/Extract    infnoise_extract_bytes of software/kernel/infnoise_main.c
--   Kernel/Ftdi       infnoise_configure_ftdi, infnoise_test_transfer, infnoise_try_recovery,
--                     infnoise_prepare_clock_buffer, infnoise_strip_ftdi_status
--   Kernel/Transfer   infnoise_usb_transfer_once, infnoise_usb_transfer
--   Kernel/Read       infnoise_keccak_squeeze, infnoise_read_data, infnoise_warmup_work
--   Kernel/Interface  infnoise_hwrng_read, its registration, infnoise_open, infnoise_char_read,
--                     infnoise_ioctl
--   Kernel/Probe      infnoise_probe, infnoise_disconnect
--   Tools             software/tools/bin2hex.c, software/tools/hex2bin.c, software/tools/flipbits.c,
--                     and in Tools/Dice software/tools/dice.c and software/tools/passgen.c
--   Tools/FindLongest software/tools/findlongest.c, Tools/EntCheck software/tools/entcheck.c
--   Windows           software/infnoise_win.c
--   Userspace/Floats  the operations on double that the programs use, and their laws
--   Userspace/Steps   return values and steps on a state
--   Userspace/Health  software/healthcheck.c: `add_bit` is inmHealthCheckAddBit, composed of
--                     `take_bit` (up to the test for long runs) and `measure`
--   Userspace/Context software/libinfnoise.h: the context, and libftdi as a record `Libftdi`
--   Userspace/Library software/libinfnoise.c: `read_data` is readData, `process_bytes` is
--                     processBytes; Startup has initInfnoise, Devices has listUSBDevices
--   Userspace/Options software/infnoise.c: main up to the first use of a device
--   Userspace/Pool    software/writeentropy.c
--   Userspace/Program software/infnoise.c: outputBytes and the loop of main; software/daemon.c
--   Counters          the tables of counters of the health check in user space
--   Base, Bits        lists, words, loops and the bit operations that the parts share
--
-- Conventions. Numbers are natural numbers, and every 32- or 64-bit operation that can wrap has its
-- reduction written out. Driver functions are steps on a state of the device and of a world; `none`
-- says that a step does not return. The kernel's services are a parameter: what is assumed of them
-- is that a read returns at most the bytes asked for, and that the threads that run during the wait
-- for the warm-up keep the device well formed. In user space libftdi, the calls of the system, double
-- and the copied Keccak reference code are parameters. Assumed of double are a few laws on bounds of
-- products and quotients down to 2 ^ -16, that the bound on the entropy of 512 samples is at most 512,
-- and that the conversion of a number from 0 to 2 ^ 32 - 1 rounds down; of Keccak, that a lane is eight
-- bytes; of libftdi, nothing. The memory for a node of the device list is always given, as the code
-- takes it to be. A reset of the USB device is taken to leave the driver bound; the kernel may unbind
-- the driver instead and so free the structure that the recovery goes on with. A disconnect that gives
-- back what is not held, or frees the structure while something leads to it, is a fault. A write past
-- the end of the buffer for the entropy pool is an outcome of its own.
--
-- Fuel. The doubling loop of the health check has fuel 17: a probability above 0 exceeds one half
-- after at most 16 doublings. The loop that reads the samples has fuel 577, since each round reads
-- at least one of 576 bytes. A read of `count` bytes of the character device that may not block has
-- fuel `count + 1`, since each round copies at least a byte. A read that may block need not end.
-- The doubling loop in user space has fuel 17 too: the counters of its tables stay below 2 ^ 14, so
-- that a probability is at least 2 ^ -16. The warm-up of the library and the main loop have no bound.
-- A roll of a die has fuel for one round more than the file has bytes, since a round reads one.
-- The loop of hex2bin has fuel for one round more than there are bytes.
--
-- Not modelled: locks, log and debug messages, the kernel's tables of operations, and reads that go
-- on while a disconnect or a reset frees the device; the printing of the device list, the usage and the
-- version, and builds of infnoise.c for other systems than Linux; the dump and the test program of
-- software/healthcheck.c, what software/tools/findlongest.c reads into its array and its test data, the
-- dump of software/tools/entcheck.c, the health check of software/infnoise_win.c, which the repository
-- does not declare in the form that is called, the copied Keccak reference code and the tests.
pub mod Base
pub mod Bits
pub mod Counters
pub mod Kernel
pub mod Tools
pub mod Userspace
pub mod Windows
