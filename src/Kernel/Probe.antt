-- ===== src/Kernel/Probe.antt =====
-- `infnoise_probe` and `infnoise_disconnect`: what they acquire, and what they give back.
pub mod Ledger
use infnoise.Base.{
  ℕ, zero, suc, ◌+◌, ◌-◌, ◌/◌, Bool, true, false, ◌&&◌, ◌||◌, Option, none, some, List, [], ◌∷◌,
  ◌++◌, u8, replicate, if◌then◌else◌,
}
use infnoise.Kernel.Const.{buflen, bytes_out, usb_read_size, Errno, enomem}
use infnoise.Kernel.Health
use infnoise.Kernel.Keccak
use infnoise.Kernel.Device.{
  Device, Usb, State, M, Result, ok, err, ◌>>=◌, ◌>>◌, return, put_dev, service, silently, check,
}
use infnoise.Kernel.Read.{on_device}
use infnoise.Kernel.Ftdi.{prepare_clock_buffer, configure, test_transfer}
use infnoise.Kernel.Interface.{hwrng_register, hwrng_unregister}

-- What the driver holds of the kernel: memory, the reference to the USB device, the tables of the
-- health check, and what is registered.
pub record Held : Type 0 where
  pub structure : Bool
  pub clock : Bool
  pub usb : Bool
  pub read : Bool
  pub out : Bool
  pub udev : Bool
  pub tables : Bool
  pub intfdata : Bool
  pub chardev : Bool
  pub hwrng : Bool
  pub work : Bool

abbrev pub nothing_held : Held
nothing_held = record {
  structure = false;
  clock = false;
  usb = false;
  read = false;
  out = false;
  udev = false;
  tables = false;
  intfdata = false;
  chardev = false;
  hwrng = false;
  work = false;
}

-- The answers of the kernel's allocator and registries in one run of the probe.
pub record Answers : Type 0 where
  pub endpoints : Result (Unit {0})
  pub structure : Bool
  pub clock : Bool
  pub usb : Bool
  pub read : Bool
  pub out : Bool
  pub ones_even : Bool
  pub zeros_even : Bool
  pub ones_odd : Bool
  pub zeros_odd : Bool
  -- What stands in the memory that `kmalloc` gives.
  pub clock_bytes : ℕ → ℕ
  pub usb_bytes : ℕ → ℕ
  pub read_bytes : ℕ → ℕ
  pub out_bytes : ℕ → ℕ
  pub register_dev : Result (Unit {0})
  pub register_hwrng : Result (Unit {0})

-- `err_buffers`: the four buffers, the reference and the structure go.
unfoldable pub err_buffers : Held → Held
err_buffers held = record held {
  structure = false;
  clock = false;
  usb = false;
  read = false;
  out = false;
  udev = false;
}

-- `err_health` falls through to `err_buffers`.
unfoldable pub err_health : Held → Held
unfolding err_buffers
err_health held = err_buffers (record held { tables = false })

-- What the buffers and the structure take.
unfoldable pub allocate : Answers → Held
allocate a = record nothing_held {
  structure = true;
  udev = true;
  clock = a.clock;
  usb = a.usb;
  read = a.read;
  out = a.out;
}

-- `n` bytes of memory with the given contents.
unfoldable pub memory : (ℕ → ℕ) → ℕ → List ℕ
memory contents zero = []
memory contents (suc n) = memory contents n ++ (u8 (contents n) ∷ [])

-- The device as `kzalloc` and the four `kmalloc` leave it: a structure of zeros, and buffers that
-- hold whatever the memory held.
unfoldable pub allocated_device : Answers → Device
unfolding memory
allocated_device a = record {
  clock_buf = memory a.clock_bytes buflen;
  usb_buf = memory a.usb_bytes usb_read_size;
  read_buf = memory a.read_bytes buflen;
  out_buf = memory a.out_bytes bytes_out;
  health = Health.cleared;
  keccak = replicate 200 0;
  keccak_bytes_left = 0;
  quality = 0;
  raw_mode = false;
  present = false;
  warmup_done = false;
  hwrng_reg = false;
  health_fail = false;
  bytes_generated = 0;
  usb_errors = 0;
  consecutive_errors = 0;
  recoveries = 0;
}

-- The device when the software state is set up.
unfoldable pub ready_device : Answers → Health.Health → Device
unfolding allocated_device
ready_device a health = record (allocated_device a) {
  health = health;
  keccak = Keccak.init;
  clock_buf = prepare_clock_buffer (buflen / 2) 0 (memory a.clock_bytes buflen);
}

-- What remains once the device answers: the registrations, and the warm-up. The results are those
-- of `usb_register_dev` and `hwrng_register`; the second is a warning only.
unfoldable pub register :
    Bool → Result (Unit {0}) → Result (Unit {0}) → Held → Device → Result (Unit {0}) × Held × Device
unfolding err_health
register raw_mode (err e) r held d =
    (err e, err_health (record held { intfdata = true }), record d { present = true })
register raw_mode (ok _) r held d =
    let (r', d') = hwrng_register raw_mode r (record d { present = true }) in
    (ok tt, record held { intfdata = true; chardev = true; hwrng = d'.hwrng_reg; work = true }, d')

-- The outcome of the configuration and the test transfer decides whether to go on.
unfoldable pub finish_probe :
    Bool → Answers → Held → Result (Unit {0}) → Device → Result (Unit {0}) × Held × Device
unfolding err_health register
finish_probe raw_mode a held (err e) d = (err e, err_health held, d)
finish_probe raw_mode a held (ok _) d = register raw_mode a.register_dev a.register_hwrng held d

module _ {W : Type 0} (usb : Usb W) where
  unfoldable pub start_hardware : M W (Result (Unit {0}))
  start_hardware = do r ← configure usb; check r λ _. test_transfer usb

  -- The probe behind the health check's initialisation.
  unfoldable pub probe_hardware : Bool → Answers → Held → M W (Result (Unit {0}) × Held)
  unfolding start_hardware finish_probe
  probe_hardware raw_mode a held = do
    r ← start_hardware
    on_device (λ d. let (r', held', d') = finish_probe raw_mode a held r d in ((r', held'), d'))

  -- The probe behind the allocation of the structure; the pair is the result of the
  -- initialisation of the health check.
  unfoldable pub probe_health :
      Bool → Answers → Health.Health × Bool → M W (Result (Unit {0}) × Held)
  unfolding probe_hardware err_buffers
  probe_health raw_mode a (health, true) = do
    put_dev (ready_device a health)
    probe_hardware raw_mode a (record (allocate a) { tables = true })
  probe_health raw_mode a (health, false) = return (err enomem, err_buffers (allocate a))

  unfoldable pub probe_buffers : Bool → Answers → M W (Result (Unit {0}) × Held)
  unfolding probe_health err_buffers
  probe_buffers raw_mode a =
      if a.clock && a.usb && a.read && a.out
      then probe_health raw_mode a (Health.init a.ones_even a.zeros_even a.ones_odd a.zeros_odd)
      else return (err enomem, err_buffers (allocate a))

  -- What follows the search for the endpoints.
  unfoldable pub probe_endpoints :
      Bool → Answers → Result (Unit {0}) → M W (Result (Unit {0}) × Held)
  unfolding probe_buffers
  probe_endpoints raw_mode a (err e) = return (err e, nothing_held)
  probe_endpoints raw_mode a (ok _) =
      if a.structure then probe_buffers raw_mode a else return (err enomem, nothing_held)

  -- The result of the reset is not used.
  unfoldable pub probe : Bool → Answers → M W (Result (Unit {0}) × Held)
  unfolding probe_endpoints
  probe raw_mode a = do r ← service usb.reset_device; probe_endpoints raw_mode a a.endpoints

-- To give back what is not held is a fault, such as a second `kfree`.
unfoldable pub give_back : Bool → Held → Option Held
give_back true held = some held
give_back false held = none

-- `kfree(dev)`: a fault while something is held that leads to the structure.
unfoldable pub free_structure : Held → Option Held
free_structure held =
    if held.work || held.hwrng || held.chardev || held.intfdata
    then none
    else give_back held.structure (record held { structure = false })

infixl 5 ◌>=>◌
abbrev pub ◌>=>◌ : Option Held → (Held → Option Held) → Option Held
none >=> f = none
some held >=> f = f held

-- What `infnoise_disconnect` gives back, in order, and `none` for a fault. To cancel work that is not
-- there, to clear the pointer of the interface and to free missing tables are no faults. The Boolean
-- says whether the hwrng is unregistered.
unfoldable pub release_all : Bool → Held → Option Held
unfolding give_back free_structure
release_all unregister held =
    some (record held { work = false })
    >=> (λ h. if unregister then give_back h.hwrng (record h { hwrng = false }) else some h)
    >=> (λ h. give_back h.chardev (record h { chardev = false }))
    >=> (λ h. some (record h { intfdata = false }))
    >=> (λ h. some (record h { tables = false }))
    >=> (λ h. give_back h.clock (record h { clock = false }))
    >=> (λ h. give_back h.usb (record h { usb = false }))
    >=> (λ h. give_back h.read (record h { read = false }))
    >=> (λ h. give_back h.out (record h { out = false }))
    >=> (λ h. give_back h.udev (record h { udev = false }))
    >=> (λ h. free_structure h)

-- `infnoise_disconnect`, whose early return is for an interface that points to no device. The device
-- is what a thread that still runs sees just before it is freed.
unfoldable pub disconnect : Held → Device → Option Held × Device
unfolding release_all
disconnect held d =
    let (unregistered, d') = hwrng_unregister (record d { present = false }) in
    if held.intfdata
    then (release_all unregistered held, record d' { health = Health.free d.health })
    else (some held, d)
