-- ===== src/Kernel/Probe/Ledger.antt =====
-- What the probe holds when it returns, on every path, and that a disconnect gives all of it back.
use infnoise.Base.{
  some, ℕ, zero, suc, ◌+◌, List, ◌≡◌, refl, ◌∙◌, Bool, true, false, ◌&&◌, arith, length,
  length-append, length-set,
}
use infnoise.Kernel.Const.{buflen, usb_read_size, bytes_out}
use infnoise.Kernel.Health
use infnoise.Kernel.Health.Invariant.{IsValid}
use infnoise.Kernel.Health.Estimate.{IsBounded}
use infnoise.Kernel.Health.Total.{init-IsValid}
use infnoise.Kernel.Keccak.Sponge.{init-IsState}
use infnoise.Kernel.Device.{Device, Usb, State, Result, ok, err}
use infnoise.Kernel.Device.Triple.{
  Returns, Triple, Triple-bind, Triple-return, Triple-service, Triple-check, Triple-if,
  Triple-weaken, Triple-then, Triple-put,
}
use infnoise.Kernel.Ftdi.{prepare_clock_buffer}
use infnoise.Kernel.Ftdi.Control.{configure_keeps, test_transfer_keeps}
use infnoise.Kernel.Transfer.Total.{IsReady, IsReady-flags}
use infnoise.Kernel.Read.Total.{on_device_lem}
use infnoise.Kernel.Interface.{hwrng_register, hwrng_unregister}
use infnoise.Kernel.Probe.{
  Held, nothing_held, Answers, err_buffers, err_health, allocate, memory, allocated_device,
  ready_device, give_back, free_structure, release_all, register, finish_probe, probe_health,
  probe_endpoints, start_hardware, probe_hardware, probe_buffers, probe, disconnect,
}

-- Everything is held, and the hwrng where it is registered.
pub record IsAttached (held : Held) (d : Device) : Type 0 where
  pub structure : held.structure ≡ true
  pub buffers : (held.clock && held.usb && held.read && held.out) ≡ true
  pub udev : held.udev ≡ true
  pub tables : held.tables ≡ true
  pub intfdata : held.intfdata ≡ true
  pub chardev : held.chardev ≡ true
  pub work : held.work ≡ true
  pub hwrng : held.hwrng ≡ d.hwrng_reg
  pub present : d.present ≡ true
  pub ready : IsReady d

-- The outcome of the probe: all is held, or nothing but the pointer that the interface keeps.
abbrev pub Probed : Result (Unit {0}) × Held → Device → Type 0
Probed (ok _, held) d = IsAttached held d
Probed (err e, held) d = held ≡ record nothing_held { intfdata = held.intfdata }

hwrng_register-IsReady :
    (raw_mode : Bool) (r : Result (Unit {0})) (d : Device)
    → IsReady d
    → IsReady (hwrng_register raw_mode r d).1
unfolding hwrng_register
hwrng_register-IsReady raw_mode (ok _) d r = IsReady-flags r
hwrng_register-IsReady raw_mode (err e) d r = IsReady-flags r

length-prepare_clock_buffer :
    (n i : ℕ) (buf : List ℕ) → length (prepare_clock_buffer n i buf) ≡ length buf
unfolding prepare_clock_buffer
length-prepare_clock_buffer zero i buf = refl
length-prepare_clock_buffer (suc n) i buf =
    length-prepare_clock_buffer n (i + 2) _ ∙ length-set _ (i + 1) _ ∙ length-set buf i _

length-memory : (contents : ℕ → ℕ) (n : ℕ) → length (memory contents n) ≡ n
unfolding memory
length-memory contents zero = refl
length-memory contents (suc n) =
    length-append (memory contents n) _ ∙ omega (arith, length-memory contents n)

pub ready_device-IsReady :
    (a : Answers) (health : Health.Health)
    → IsValid health
    → IsBounded health
    → IsReady (ready_device a health)
unfolding ready_device allocated_device
ready_device-IsReady a health v b = record {
  usb_size = length-memory a.usb_bytes usb_read_size;
  read_size = length-memory a.read_bytes buflen;
  out_size = length-memory a.out_bytes bytes_out;
  health = v;
  bounded = b;
  sponge = init-IsState;
  stock = omega arith;
}

pub init-IsBounded : (a b c d : Bool) → IsBounded (Health.init a b c d).0
unfolding Health.init Health.free
init-IsBounded a b c d = ground arith

still_present :
    (raw_mode : Bool) (r : Result (Unit {0})) (d : Device)
    → (hwrng_register raw_mode r (record d { present = true })).1.present ≡ true
unfolding hwrng_register
still_present raw_mode (ok _) d = refl
still_present raw_mode (err e) d = refl

register_lem :
    (raw_mode : Bool) (a : Answers) (r1 r2 : Result (Unit {0})) (d : Device)
    → (a.clock && a.usb && a.read && a.out) ≡ true
    → IsReady d
    → let (r, held, d') = register raw_mode r1 r2 (record (allocate a) { tables = true }) d in
      Probed (r, held) d'
unfolding register allocate err_health err_buffers
register_lem raw_mode a (err e) r2 d all p = refl
register_lem raw_mode a (ok _) r2 d all p = record {
  structure = refl;
  buffers = all;
  udev = refl;
  tables = refl;
  intfdata = refl;
  chardev = refl;
  work = refl;
  hwrng = refl;
  present = still_present raw_mode r2 d;
  ready = hwrng_register-IsReady raw_mode r2 (record d { present = true }) (IsReady-flags p);
}

finish_probe_lem :
    (raw_mode : Bool) (a : Answers) (r : Result (Unit {0})) (d : Device)
    → (a.clock && a.usb && a.read && a.out) ≡ true
    → IsReady d
    → let (r', held, d') = finish_probe raw_mode a (record (allocate a) { tables = true }) r d in
      Probed (r', held) d'
unfolding finish_probe allocate err_health err_buffers
finish_probe_lem raw_mode a (err e) d all p = refl
finish_probe_lem raw_mode a (ok _) d all p =
    register_lem raw_mode a a.register_dev a.register_hwrng d all p

module _ {W : Type 0} (usb : Usb W) where
  start_hardware_keeps : {P : Device → Type 0} → Triple P (start_hardware usb) (λ _. P)
  unfolding start_hardware
  start_hardware_keeps =
      Triple-bind (configure_keeps usb)
        (λ r. Triple-check r _ (λ _ _. test_transfer_keeps usb) (λ e d p. p))

  Anything : Device → Type 0
  Anything d = Unit {0}

  probe_health_total :
      (raw_mode : Bool) (a : Answers) (health : Health.Health) (good : Bool)
      → (a.clock && a.usb && a.read && a.out) ≡ true
      → (good ≡ true → IsValid health)
      → IsBounded health
      → Triple Anything (probe_health usb raw_mode a (health, good)) Probed
  unfolding probe_health probe_hardware err_buffers allocate
  probe_health_total raw_mode a health true all v b =
      Triple-then (Triple-put {Q = IsReady} _ (ready_device-IsReady a health (v refl) b)) (
        Triple-bind start_hardware_keeps
          (λ r. on_device_lem _ (λ d p. finish_probe_lem raw_mode a r d all p)))
  probe_health_total raw_mode a health false all v b = Triple-return _ (λ d _. refl)

  probe_buffers_total :
      (raw_mode : Bool) (a : Answers) → Triple Anything (probe_buffers usb raw_mode a) Probed
  unfolding probe_buffers err_buffers allocate
  probe_buffers_total raw_mode a =
      Triple-if (a.clock && a.usb && a.read && a.out)
        (λ all.
          probe_health_total raw_mode a _ _ all
            (init-IsValid a.ones_even a.zeros_even a.ones_odd a.zeros_odd).1
            (init-IsBounded a.ones_even a.zeros_even a.ones_odd a.zeros_odd))
        (λ _. Triple-return _ (λ d _. refl))

  probe_endpoints_total :
      (raw_mode : Bool) (a : Answers) (r : Result (Unit {0}))
      → Triple Anything (probe_endpoints usb raw_mode a r) Probed
  unfolding probe_endpoints
  probe_endpoints_total raw_mode a (err e) = Triple-return _ (λ d _. refl)
  probe_endpoints_total raw_mode a (ok _) =
      Triple-if a.structure (λ _. probe_buffers_total raw_mode a)
        (λ _. Triple-return _ (λ d _. refl))

  pub probe-Triple :
      (raw_mode : Bool) (a : Answers) → Triple (λ _. Unit {0}) (probe usb raw_mode a) Probed
  unfolding probe Anything
  probe-Triple raw_mode a =
      Triple-bind
        (Triple-weaken (λ d p. p) (λ r d p. p.1) (Triple-service {F = λ _. Unit {0}} _ (λ w. tt)))
        (λ r. probe_endpoints_total raw_mode a a.endpoints)

  -- The probe returns for all answers of the kernel and of the hardware. Where it succeeds the
  -- device is well formed and present and all is held; where it fails, all memory, the reference
  -- and the registrations are given back.
  pub probe_total :
      (raw_mode : Bool) (a : Answers) (s : State W) → Returns (probe usb raw_mode a) Probed s
  probe_total raw_mode a s = (probe-Triple raw_mode a).run s tt

-- A disconnect of a device that the probe attached gives back all that is held, each thing once and
-- the structure after all that leads to it, and leaves the device absent, with the hwrng unregistered
-- and no tables.
pub disconnect-nothing_held :
    (held : Held) (d : Device)
    → IsAttached held d
    → ((disconnect held d).0 ≡ some nothing_held)
      × ((disconnect held d).1.present ≡ false)
      × ((disconnect held d).1.hwrng_reg ≡ false)
      × ((disconnect held d).1.health ≡ Health.free d.health)
unfolding disconnect release_all give_back free_structure hwrng_unregister
disconnect-nothing_held held d a =
    let b = a.buffers in (ground arith, ground arith, ground arith, ground arith)
