-- ===== src/Kernel/Ftdi.antt =====
-- The FTDI bridge: its configuration over control transfers, the test transfer, the clock
-- pattern, and the removal of the modem status bytes from what is read.
pub mod Strip
pub mod Control
use infnoise.Base.{
  ℕ, zero, suc, ◌+◌, ◌-◌, ◌*◌, ◌/◌, ◌%◌, Bool, true, false, ◌&&◌, List, [], ◌∷◌, ◌++◌, take, drop,
  ltb, if◌then◌else◌, min, ◌^◌, bit_or, bit_and, set, inc32, replicate, ◌<<<◌,
}
use infnoise.Kernel.Const.{
  comp1, comp2, swen1, swen2, buflen, packet_size, status_size, data_per_packet, Errno, enomem,
  enodev,
}
use infnoise.Kernel.Device.{
  Device, Usb, State, M, Result, ok, err, ◌>>=◌, ◌>>◌, return, get_dev, put_dev, service, silently,
  check,
}

-- `0xFF & ~(1 << COMP1) & ~(1 << COMP2)`
abbrev pub mask : ℕ
mask = bit_and (bit_and 0xff (2 ^ 32 - 1 - 2 ^ comp1)) (2 ^ 32 - 1 - 2 ^ comp2)

abbrev sio_reset : ℕ
sio_reset = 0

abbrev sio_set_baudrate : ℕ
sio_set_baudrate = 3

abbrev sio_set_latency_timer : ℕ
sio_set_latency_timer = 9

abbrev sio_set_bitmode : ℕ
sio_set_bitmode = 0x0b

abbrev bitmode_syncbb : ℕ
bitmode_syncbb = 4

abbrev interface_a : ℕ
interface_a = 1

-- The loop of `infnoise_prepare_clock_buffer`, with `n` pairs left from index `i`.
unfoldable pub prepare_clock_buffer : ℕ → ℕ → List ℕ → List ℕ
prepare_clock_buffer zero i buf = buf
prepare_clock_buffer (suc n) i buf =
    prepare_clock_buffer n (i + 2) (set (set buf i (2 ^ swen1)) (i + 1) (2 ^ swen2))

-- `memcpy(dst + off, src, n)`
unfoldable pub copy_at : List ℕ → ℕ → List ℕ → ℕ → List ℕ
copy_at dst off src n = take off dst ++ (take n src ++ drop (off + n) dst)

-- The loop over the full packets, from packet `i` on.
unfoldable pub strip_packets : ℕ → ℕ → List ℕ → List ℕ → ℕ → List ℕ × ℕ
strip_packets zero i usb_buf read_buf data_bytes = (read_buf, data_bytes)
strip_packets (suc left) i usb_buf read_buf data_bytes =
    let src = drop (i * packet_size + status_size) usb_buf in
    let copy_len = min data_per_packet (buflen - data_bytes) in
    strip_packets left (i + 1) usb_buf
      (if ltb 0 copy_len then copy_at read_buf data_bytes src copy_len else read_buf)
      (if ltb 0 copy_len then data_bytes + copy_len else data_bytes)

-- The partial packet at the end.
unfoldable pub strip_leftover : ℕ → ℕ → List ℕ → List ℕ × ℕ → List ℕ × ℕ
strip_leftover packets leftover usb_buf (read_buf, data_bytes) =
    let copy_len = min (leftover - status_size) (buflen - data_bytes) in
    let src = drop (packets * packet_size + status_size) usb_buf in
    if ltb status_size leftover && ltb data_bytes buflen
    then (copy_at read_buf data_bytes src copy_len, data_bytes + copy_len)
    else (read_buf, data_bytes)

-- The new `read_buf`, and the number of data bytes in it.
unfoldable pub strip_status : ℕ → List ℕ → List ℕ → List ℕ × ℕ
unfolding strip_leftover
strip_status usb_bytes usb_buf read_buf =
    let packets = usb_bytes / packet_size in
    strip_leftover packets (usb_bytes % packet_size) usb_buf
      (strip_packets packets 0 usb_buf read_buf 0)

module _ {W : Type 0} (usb : Usb W) where
  open usb use {
    control, clear_halt_out, clear_halt_in, bulk_out, bulk_in, reset_device, kmalloc, msleep,
  }

  unfoldable pub configure : M W (Result (Unit {0}))
  configure = do
    r1 ← service (control sio_reset 0 interface_a)
    check r1 λ _. do
      r2 ← service (control sio_set_latency_timer 1 interface_a)
      check r2 λ _. do
        r3 ← service (control sio_set_baudrate 0x64 interface_a)
        check r3 λ _. do
          r4 ← service (control sio_set_bitmode (bit_or (bitmode_syncbb <<< 8) mask) interface_a)
          check r4 λ _. do
            r5 ← service (control sio_reset 1 interface_a)
            check r5 λ _. do
              r6 ← service (control sio_reset 2 interface_a)
              check r6 λ _. do silently (msleep 50); return (ok tt)

  unfoldable pub test_transfer : M W (Result (Unit {0}))
  unfolding replicate
  test_transfer = do
    got ← service (kmalloc 64)
    if got
        then (do
          silently clear_halt_out
          silently clear_halt_in
          written ← service (bulk_out (replicate 64 0))
          check written λ _. do received ← service (bulk_in 64); check received λ _. return (ok tt))
        else return (err enomem)

  -- What follows a successful configuration in `infnoise_try_recovery`.
  unfoldable pub recovered : M W (Result (Unit {0}))
  recovered = do
    d ← get_dev
    put_dev (record d { recoveries = inc32 d.recoveries; consecutive_errors = 0 })
    return (ok tt)

  -- The last resort of `infnoise_try_recovery`.
  unfoldable pub reset_and_configure : M W (Result (Unit {0}))
  reset_and_configure = do r ← service reset_device; check r λ _. do silently (msleep 50); configure

  -- Where the configuration failed, the full reset.
  unfoldable pub reset_if_failed : Result (Unit {0}) → M W (Result (Unit {0}))
  reset_if_failed (ok _) = return (ok tt)
  reset_if_failed (err _) = reset_and_configure

  -- `infnoise_try_recovery` behind its first test.
  unfoldable pub attempt_recovery : M W (Result (Unit {0}))
  unfolding recovered reset_if_failed
  attempt_recovery = do
    silently clear_halt_out
    silently clear_halt_in
    silently (msleep 10)
    r ← configure
    r' ← reset_if_failed r
    check r' λ _. recovered

  unfoldable pub try_recovery : M W (Result (Unit {0}))
  unfolding attempt_recovery
  try_recovery = do d ← get_dev; if d.present then attempt_recovery else return (err enodev)
