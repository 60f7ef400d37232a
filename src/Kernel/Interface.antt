-- ===== src/Kernel/Interface.antt =====
-- The two interfaces that hand out data: the hwrng source and the character device with its
-- ioctls. `raw_mode` and `multiplier` are the module parameters.
pub mod Total
use infnoise.Base.{
  ℕ, zero, suc, ◌+◌, ◌-◌, Bool, true, false, not, ◌&&◌, ◌||◌, Option, none, some, List, [], take,
  ltb, ◌==◌, if◌then◌else◌, min,
}
use infnoise.Kernel.Const.{
  quality_raw, quality_whitened, Errno, enodev, eio, eagain, erestartsys, efault, enotty,
}
use infnoise.Kernel.Health.{Stats, get_stats, get_entropy}
use infnoise.Kernel.Device.{
  Device, Usb, State, M, Result, ok, err, ◌>>=◌, ◌>>◌, return, get_dev, put_dev, service, await,
  silently, check,
}
use infnoise.Kernel.Read.{Output, read_data}

abbrev pub quality_of : Bool → ℕ
quality_of raw = if raw then quality_raw else quality_whitened

-- The request of an ioctl: the three that the driver knows, with the word that SET_RAW reads from
-- the caller, which is missing where that read fails, and any other.
pub data Request : Type 0 where
  request_stats : Request
  request_raw : Option ℕ → Request
  request_entropy : Request
  request_other : Request

-- What an ioctl stores for the caller.
pub data Reply : Type 0 where
  no_reply : Reply
  stats_reply : Stats → Reply
  entropy_reply : ℕ → Reply

-- The Boolean answers whether a copy to the caller succeeds.
unfoldable pub ioctl : Bool → Request → Device → Result Reply × Device
ioctl copies request_stats d =
    (if copies then ok (stats_reply (get_stats d.health)) else err efault, d)
ioctl copies (request_raw none) d = (err efault, d)
ioctl copies (request_raw (some raw)) d = (ok no_reply, record d { raw_mode = not (raw == 0) })
ioctl copies request_entropy d =
    (if copies then ok (entropy_reply (get_entropy d.health)) else err efault, d)
ioctl copies request_other d = (err enotty, d)

-- The device of an open: none where the minor has no interface or no device.
unfoldable pub open_device : Option Device → Result Device
open_device none = err enodev
open_device (some d) = if d.present then ok d else err enodev

-- The registration of the hwrng, with the return value of `hwrng_register`.
unfoldable pub hwrng_register : Bool → Result (Unit {0}) → Device → Result (Unit {0}) × Device
hwrng_register raw_mode (ok _) d =
    (ok tt, record d { quality = quality_of (raw_mode || d.raw_mode); hwrng_reg = true })
hwrng_register raw_mode (err e) d =
    (err e, record d { quality = quality_of (raw_mode || d.raw_mode) })

-- The Boolean says whether `hwrng_unregister` of the kernel is called.
unfoldable pub hwrng_unregister : Device → Bool × Device
hwrng_unregister d = (d.hwrng_reg, record d { hwrng_reg = false })

module _ {W : Type 0} (usb : Usb W) (raw_mode : Bool) (multiplier : ℕ) where
  -- The wait that both interfaces begin with.
  unfoldable pub wait_warmup : Bool → M W (Result (Unit {0}))
  wait_warmup wait = do d ← get_dev; if wait && not d.warmup_done then await usb else return (ok tt)

  unfoldable pub hwrng_fetch : ℕ → Bool → M W (Result Output)
  hwrng_fetch max_len raw = do
    d ← get_dev
    if d.warmup_done
        then (if d.health_fail then return (err eio) else read_data usb multiplier max_len raw)
        else return (ok (record { written = []; count = 0 }))

  unfoldable pub hwrng_read : ℕ → Bool → M W (Result Output)
  unfolding wait_warmup hwrng_fetch
  hwrng_read max_len wait = do
    d ← get_dev
    let raw = raw_mode || d.raw_mode
    if d.present
        then (do
          put_dev (record d { quality = quality_of raw })
          r ← wait_warmup wait
          check r λ _. hwrng_fetch max_len raw)
        else return (err enodev)

  -- Where `read_data` gives no byte: `total` bytes are in the caller's buffer.
  unfoldable pub char_idle : Bool → ℕ → M W (Result ℕ) → M W (Result ℕ)
  char_idle nonblock total next =
      if ltb 0 total
      then return (ok total)
      else (if nonblock then return (err eagain) else (do
        silently (usb.msleep 10)
        signal ← service usb.signal_pending
        if signal then return (err erestartsys) else next))

  -- What a round of the loop makes of the result of `read_data`; `again` is the rest of the loop,
  -- from the new total.
  unfoldable pub char_step : Bool → ℕ → (ℕ → M W (Result ℕ)) → Result Output → M W (Result ℕ)
  unfolding char_idle
  char_step nonblock total again (err e) = if ltb 0 total then return (ok total) else return (err e)
  char_step nonblock total again (ok out) = elim (out.count == 0) [
    | true ↦ char_idle nonblock total (again total)
    | false ↦ do
      copied ← service (usb.copy_to_user (take out.count out.written))
      if copied then again (total + out.count) else return (err efault)
  ]

  -- The loop `while (total < count)`, on fuel.
  unfoldable pub char_loop : ℕ → Bool → ℕ → ℕ → M W (Result ℕ)
  unfolding char_step
  char_loop zero nonblock count total = λ s. none
  char_loop (suc fuel) nonblock count total = elim (ltb total count) [
    | false ↦ return (ok total)
    | true ↦ do
      d ← get_dev
      r ← read_data usb multiplier (min (count - total) 128) (raw_mode || d.raw_mode)
      char_step nonblock total (char_loop fuel nonblock count) r
  ]

  -- What follows the test of `private_data` and the wait.
  unfoldable pub char_ready : ℕ → Bool → ℕ → M W (Result ℕ)
  char_ready fuel nonblock count = do
    d ← get_dev
    if d.health_fail then return (err eio) else char_loop fuel nonblock count 0

  -- `opened` says that `private_data` is set.
  unfoldable pub char_read : ℕ → Bool → Bool → ℕ → M W (Result ℕ)
  unfolding wait_warmup char_ready
  char_read fuel opened nonblock count = do
    d ← get_dev
    if opened
        then (if nonblock && not d.warmup_done
            then return (err eagain)
            else (do r ← wait_warmup true; check r λ _. char_ready fuel nonblock count))
        else return (err enodev)
