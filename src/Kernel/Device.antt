-- ===== src/Kernel/Device.antt =====
-- `struct infnoise_device`, the calls of the USB core that the driver makes, and the steps of the
-- driver over both. The USB core is a parameter.
pub mod Triple
use infnoise.Base.{ℕ, ◌+◌, Bool, List, Option, none, some, u32, inc32}
use infnoise.Kernel.Const.{Errno}
use infnoise.Kernel.Health.{Health}

-- A return value: not negative, or a negated error number.
pub data Result {ℓ} (A : Type ℓ) : Type ℓ where
  ok : A → Result A
  err : Errno → Result A

-- The bits of `flags` stand as fields of their own, and so does `hwrng.quality`.
pub record Device : Type 0 where
  pub clock_buf : List ℕ
  pub usb_buf : List ℕ
  pub read_buf : List ℕ
  pub out_buf : List ℕ
  pub health : Health
  pub keccak : List ℕ
  pub keccak_bytes_left : ℕ
  pub quality : ℕ
  pub raw_mode : Bool
  pub present : Bool
  pub warmup_done : Bool
  pub hwrng_reg : Bool
  pub health_fail : Bool
  pub bytes_generated : ℕ
  pub usb_errors : ℕ
  pub consecutive_errors : ℕ
  pub recoveries : ℕ

-- The kernel's services over a world `W`: control transfers (request, value, index), the bulk
-- endpoints, which report how much was written and what was read, resets, memory, time, the wait
-- for the warm-up, which returns the device as other threads leave it, signals, and the copy to a
-- reader, which reports whether it succeeds. A reset leaves the driver bound and its structure alone:
-- `usb_reset_device` may also unbind a driver that has no `pre_reset` and `post_reset`, as this one,
-- which would then go on with a structure that is freed; that is not modelled.
pub record Usb (W : Type 0) : Type 0 where
  pub control : ℕ → ℕ → ℕ → W → Result (Unit {0}) × W
  pub clear_halt_out : W → W
  pub clear_halt_in : W → W
  pub bulk_out : List ℕ → W → Result ℕ × W
  pub bulk_in : ℕ → W → Result (List ℕ) × W
  pub reset_device : W → Result (Unit {0}) × W
  pub kmalloc : ℕ → W → Bool × W
  pub msleep : ℕ → W → W
  pub wait : Device → W → Result (Unit {0}) × Device × W
  pub signal_pending : W → Bool × W
  pub copy_to_user : List ℕ → W → Bool × W

pub record State (W : Type 0) : Type 0 where
  pub dev : Device
  pub world : W

-- A call of a driver function. `none` says that it does not return.
abbrev pub M : Type 0 → Type 0 → Type 0
M W A = State W → Option (A × State W)

infixl 5 ◌>>=◌ ◌>>◌
unfoldable pub ◌>>=◌ : {W A B : Type 0} → M W A → (A → M W B) → M W B
◌>>=◌ m f s = elim (m s) [ none ↦ none | some (a, s') ↦ f a s' ]

unfoldable pub ◌>>◌ : {W B : Type 0} → M W (Unit {0}) → M W B → M W B
unfolding ◌>>=◌
m >> k = m >>= λ _. k

unfoldable pub return : {W A : Type 0} → A → M W A
return a s = some (a, s)

unfoldable pub get_dev : {W : Type 0} → M W Device
get_dev s = some (s.dev, s)

unfoldable pub put_dev : {W : Type 0} → Device → M W (Unit {0})
put_dev d s = some (tt, record s { dev = d })

-- A service of the kernel as a step.
unfoldable pub service : {W A : Type 0} → (W → A × W) → M W A
service f s = let (a, w) = f s.world in some (a, record s { world = w })

-- The wait for the warm-up: other threads may change the device meanwhile.
unfoldable pub await : {W : Type 0} → Usb W → M W (Result (Unit {0}))
await usb s = let (r, d, w) = usb.wait s.dev s.world in some (r, record { dev = d; world = w })

unfoldable pub silently : {W : Type 0} → (W → W) → M W (Unit {0})
silently f s = some (tt, record s { world = f s.world })

-- The rest of a function behind `if (ret < 0) return ret`.
unfoldable pub check : {W A B : Type 0} → Result A → (A → M W (Result B)) → M W (Result B)
unfolding return
check (Result.ok a) k = k a
check (Result.err e) k = return (Result.err e)
