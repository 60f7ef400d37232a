-- ===== src/Kernel/Read.antt =====
-- `infnoise_read_data`, the data path of both interfaces, with the sponge and its multiplier.
pub mod Total
use infnoise.Base.{
  ℕ, zero, suc, ◌+◌, ◌-◌, ◌*◌, ◌/◌, ◌%◌, ◌^◌, Bool, true, false, not, ◌&&◌, List, [], none, some,
  Option, take, ltb, leb, ◌==◌, if◌then◌else◌, min, u32, u64, length,
}
use infnoise.Kernel.Const.{buflen, bytes_out, warmup_rounds, Errno, enodev}
use infnoise.Kernel.Health
use infnoise.Kernel.Keccak
use infnoise.Kernel.Device.{
  Device, Usb, State, M, Result, ok, err, ◌>>=◌, ◌>>◌, return, get_dev, put_dev, service, silently,
  check,
}
use infnoise.Kernel.Transfer.{usb_transfer}

-- What a call stores at the front of the caller's buffer, and the count that it returns.
pub record Output : Type 0 where
  pub written : List ℕ
  pub count : ℕ

abbrev pub nothing : Output
nothing = record { written = []; count = 0 }

-- `infnoise_keccak_squeeze`: whole lanes are stored, also where `max_len` ends inside a lane.
unfoldable pub keccak_squeeze : List ℕ → ℕ → Output × List ℕ
keccak_squeeze state max_len =
    let out_bytes = min max_len 128 in
    (
      record { written = Keccak.extract state ((out_bytes + 7) / 8); count = out_bytes },
      Keccak.permutation state,
    )

-- The squeeze of at most `max_len` bytes of those that are left, with its bookkeeping.
unfoldable pub squeeze_left : Device → ℕ → Output × Device
squeeze_left d max_len =
    let (out, state) = keccak_squeeze d.keccak (min max_len d.keccak_bytes_left) in
    (
      out,
      record d {
        keccak = state;
        keccak_bytes_left = u32 (d.keccak_bytes_left + 2 ^ 32 - out.count);
        bytes_generated = u64 (d.bytes_generated + out.count);
      },
    )

-- The number of bytes that one absorption yields.
unfoldable pub output_size : ℕ → ℕ → ℕ
output_size multiplier entropy =
    let mult = if ltb 10 multiplier then 10 else multiplier in
    if mult == 0 then entropy / 8 else mult * 32

-- What follows a transfer that passed both health tests.
unfoldable pub deliver : ℕ → ℕ → ℕ → Bool → Device → Output × Device
deliver multiplier entropy max_len raw d =
    let n = min max_len bytes_out in
    let absorbed = record d {
      keccak = Keccak.absorb d.keccak d.out_buf (bytes_out / 8);
      keccak_bytes_left = u32 (output_size multiplier entropy);
    } in
    if raw
    then (
      record { written = take n d.out_buf; count = n },
      record d { bytes_generated = u64 (d.bytes_generated + n) },
    )
    else squeeze_left absorbed max_len

-- A step on the device alone.
unfoldable pub on_device : {W A : Type 0} → (Device → A × Device) → M W A
on_device f s = let (a, d) = f s.dev in some (a, record s { dev = d })

-- The two health tests after a transfer.
unfoldable pub passes : Device → ℕ → Bool
passes d entropy = Health.ok d.health && Health.entropy_on_target entropy buflen

-- The flags that the warm-up sets; the Boolean is whether it completes the waiters.
unfoldable pub finish_warmup : ℕ → Device → Bool × Device
finish_warmup done d =
    if d.present
    then if leb warmup_rounds done
      then (true, record d { health_fail = true })
      else (true, record d { warmup_done = true })
    else (false, d)

-- What `infnoise_read_data` makes of the result of a transfer.
unfoldable pub use_transfer : {W : Type 0} → ℕ → ℕ → Bool → Result ℕ → M W (Result Output)
use_transfer multiplier max_len raw (ok entropy) = do
  d ← get_dev
  if passes d entropy
      then (do out ← on_device (deliver multiplier entropy max_len raw); return (ok out))
      else return (ok nothing)
use_transfer multiplier max_len raw (err e) = return (err e)

module _ {W : Type 0} (usb : Usb W) where
  -- The part of `infnoise_read_data` that needs new entropy.
  unfoldable pub read_fresh : ℕ → ℕ → Bool → M W (Result Output)
  unfolding use_transfer
  read_fresh multiplier max_len raw = do r ← usb_transfer usb; use_transfer multiplier max_len raw r

  unfoldable pub read_data : ℕ → ℕ → Bool → M W (Result Output)
  read_data multiplier max_len raw = do
    d ← get_dev
    if d.present
        then (if ltb 0 d.keccak_bytes_left && not raw
            then (do out ← on_device (λ d'. squeeze_left d' max_len); return (ok out))
            else read_fresh multiplier max_len raw)
        else return (err enodev)

  -- The loop of `infnoise_warmup_work`, with `left` rounds to go; it returns the rounds done.
  unfoldable pub warmup_loop : ℕ → ℕ → ℕ → M W ℕ
  warmup_loop multiplier zero done = return done
  warmup_loop multiplier (suc left) done = do
    d ← get_dev
    elim (not (Health.ok d.health) && d.present) [
      | false ↦ return done
      | true ↦ do r ← read_data multiplier 64 true; warmup_loop multiplier left (done + 1)
    ]

  unfoldable pub warmup_work : ℕ → M W Bool
  unfolding finish_warmup
  warmup_work multiplier = do
    done ← warmup_loop multiplier warmup_rounds 0
    on_device (finish_warmup done)
