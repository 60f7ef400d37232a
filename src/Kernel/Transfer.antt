-- ===== src/Kernel/Transfer.antt =====
-- One transfer of samples, and its retries with recovery.
pub mod Total
use infnoise.Base.{
  ℕ, zero, suc, ◌+◌, ◌-◌, Bool, true, false, not, List, none, some, Option, length, ltb, leb, ◌==◌,
  if◌then◌else◌, inc32,
}
use infnoise.Kernel.Const.{
  buflen, bytes_out, usb_read_size, max_retries, recovery_threshold, Errno, epipe, etimedout,
  eproto, eilseq, eoverflow, eio, enodev, eshutdown, enoent,
}
use infnoise.Kernel.Health.{Health, get_entropy}
use infnoise.Kernel.Device.{
  Device, Usb, State, M, Result, ok, err, ◌>>=◌, ◌>>◌, return, get_dev, put_dev, service, silently,
  check,
}
use infnoise.Kernel.Extract.{extract}
use infnoise.Kernel.Ftdi.{copy_at, strip_status, try_recovery}

unfoldable pub is_recoverable_error : Errno → Bool
is_recoverable_error epipe = true
is_recoverable_error etimedout = true
is_recoverable_error eproto = true
is_recoverable_error eilseq = true
is_recoverable_error eoverflow = true
is_recoverable_error eio = true
is_recoverable_error enodev = false
is_recoverable_error eshutdown = false
is_recoverable_error enoent = false
is_recoverable_error _ = false

-- The health check over the samples in `read_buf`, and what it leaves in the device. `-EIO` and
-- the flag INFNOISE_HEALTH_FAIL are what a failure of it gives.
unfoldable pub keep_extracted :
    {W : Type 0} → Device → Option (List ℕ × Bool × Health) → M W (Result ℕ)
keep_extracted d none = λ s. none
keep_extracted d (some (out, true, h)) = do
  put_dev (record d { out_buf = out; health = h })
  return (ok (get_entropy h))
keep_extracted d (some (out, false, h)) = do
  put_dev (record d { out_buf = out; health = h; health_fail = true })
  return (err eio)

unfoldable pub extract_samples : {W : Type 0} → M W (Result ℕ)
unfolding keep_extracted
extract_samples = do d ← get_dev; keep_extracted d (extract bytes_out d.read_buf d.out_buf d.health)

module _ {W : Type 0} (usb : Usb W) where
  open usb use {bulk_out, bulk_in, msleep}

  -- `usb_buf + total_read` filled with what was read.
  unfoldable pub store_samples : ℕ → List ℕ → M W (Unit {0})
  store_samples total_read bytes = do
    d ← get_dev
    put_dev (record d { usb_buf = copy_at d.usb_buf total_read bytes (length bytes) })

  -- The loop `while (total_read < INFNOISE_USB_READ_SIZE)`, on fuel; it returns `total_read`.
  unfoldable pub read_samples : ℕ → ℕ → M W (Result ℕ)
  unfolding store_samples
  read_samples zero total_read = λ s. none
  read_samples (suc fuel) total_read = elim (ltb total_read usb_read_size) [
    | false ↦ return (ok total_read)
    | true ↦ do
      r ← service (bulk_in (usb_read_size - total_read))
      check r λ bytes. elim (length bytes == 0) [
        | true ↦ return (err etimedout)
        | false ↦ do store_samples total_read bytes; read_samples fuel (total_read + length bytes)
      ]
  ]

  -- Removing the status bytes, and the test for a short read.
  unfoldable pub strip_samples : ℕ → M W (Result ℕ)
  strip_samples total_read = do
    d ← get_dev
    let stripped = strip_status total_read d.usb_buf d.read_buf
    put_dev (record d { read_buf = stripped.0 })
    if ltb stripped.1 buflen then return (err eio) else extract_samples

  unfoldable pub usb_transfer_once : M W (Result ℕ)
  usb_transfer_once = do
    d ← get_dev
    written ← service (bulk_out d.clock_buf)
    check written λ actual.
        if actual == buflen
        then (do total ← read_samples (usb_read_size + 1) 0; check total strip_samples)
        else return (err eio)

  -- The bookkeeping of a failed attempt.
  unfoldable pub count_error : M W (Unit {0})
  count_error = do
    d ← get_dev
    put_dev (record d {
      usb_errors = inc32 d.usb_errors;
      consecutive_errors = inc32 d.consecutive_errors;
    })

  unfoldable pub clear_errors : M W (Unit {0})
  clear_errors = do d ← get_dev; put_dev (record d { consecutive_errors = 0 })

  -- Recovery, if the threshold is reached.
  unfoldable pub maybe_recover : M W (Result (Unit {0}))
  maybe_recover = do
    d ← get_dev
    if leb recovery_threshold d.consecutive_errors then try_recovery usb else return (ok tt)

  -- What attempt `retry` leads to by its result; `again` is the rest of the loop.
  unfoldable pub settle_attempt : ℕ → (Errno → M W (Result ℕ)) → Result ℕ → M W (Result ℕ)
  unfolding count_error clear_errors maybe_recover
  settle_attempt retry again (ok n) = do clear_errors; return (ok n)
  settle_attempt retry again (err e) = do
    count_error
    if is_recoverable_error e
        then (do
          rec ← maybe_recover
          check rec λ _. do
            if ltb retry (max_retries - 1) then silently (msleep 10) else return tt
            again e)
        else return (err e)

  -- The loop with `left` attempts to go after `retry`; `last` is the error of the attempt before.
  unfoldable pub retry_transfer : ℕ → ℕ → Errno → M W (Result ℕ)
  unfolding settle_attempt
  retry_transfer zero retry last = return (err last)
  retry_transfer (suc left) retry last = do
    r ← usb_transfer_once
    settle_attempt retry (retry_transfer left (retry + 1)) r

  -- `ret` is not read before the first attempt sets it.
  unfoldable pub usb_transfer : M W (Result ℕ)
  usb_transfer = retry_transfer max_retries 0 (Errno.other 0)
