-- ===== src/Kernel/Transfer/Total.antt =====
-- `infnoise_usb_transfer` returns for every behaviour of the USB core, within the fuel, and keeps
-- the device well formed.
use infnoise.Base.{
  ℕ, zero, suc, ◌+◌, ◌-◌, ◌≤◌, ◌<◌, ◌≡◌, refl, subst, ◌∙◌, Bool, true, false, List, length, arith,
  ltb, leb, ◌==◌, if◌then◌else◌, some,
}
use infnoise.Kernel.Const.{buflen, bytes_out, usb_read_size, recovery_threshold, max_retries, Errno}
use infnoise.Kernel.Health.{Health, get_entropy}
use infnoise.Kernel.Health.Invariant.{IsValid}
use infnoise.Kernel.Health.Estimate.{IsBounded}
use infnoise.Kernel.Keccak.Bytes.{IsState}
use infnoise.Kernel.Extract.Pack.{Sampled, extract-Sampled}
use infnoise.Kernel.Device.{Device, Usb, State, M, Result, ok, err, return, check, silently}
use infnoise.Kernel.Device.Triple.{
  Returns, Triple, Triple-bind, Triple-return, Triple-service, Triple-check, Triple-get, Triple-put,
  Triple-if, Triple-weaken, Triple-call, Triple-then, Triple-silently, Triple-elim, Triple-fact,
}
use infnoise.Kernel.Ftdi.{strip_status}
use infnoise.Kernel.Ftdi.Strip.{length-copy_at, strip_status-IsStripped}
use infnoise.Kernel.Ftdi.Control.{Recovered, try_recovery-Triple}
use infnoise.Kernel.Transfer.{
  is_recoverable_error, keep_extracted, extract_samples, store_samples, read_samples, strip_samples,
  usb_transfer_once, count_error, clear_errors, maybe_recover, settle_attempt, retry_transfer,
  usb_transfer,
}

-- The buffers have their sizes, the health check and the sponge are well formed, and at most 1024
-- bytes are left of the last absorption.
pub record IsReady (d : Device) : Type 0 where
  pub usb_size : length d.usb_buf ≡ usb_read_size
  pub read_size : length d.read_buf ≡ buflen
  pub out_size : length d.out_buf ≡ bytes_out
  pub health : IsValid d.health
  pub bounded : IsBounded d.health
  pub sponge : IsState d.keccak
  pub stock : d.keccak_bytes_left ≤ 1024

-- The flags and the counters of the device do not matter.
pub IsReady-flags :
    {d : Device} {quality bytes_generated usb_errors consecutive_errors recoveries : ℕ}
    {raw_mode present warmup_done hwrng_reg health_fail : Bool}
    → IsReady d
    → IsReady (record d {
      quality = quality;
      raw_mode = raw_mode;
      present = present;
      warmup_done = warmup_done;
      hwrng_reg = hwrng_reg;
      health_fail = health_fail;
      bytes_generated = bytes_generated;
      usb_errors = usb_errors;
      consecutive_errors = consecutive_errors;
      recoveries = recoveries;
    })
IsReady-flags r = record {
  usb_size = r.usb_size;
  read_size = r.read_size;
  out_size = r.out_size;
  health = r.health;
  bounded = r.bounded;
  sponge = r.sponge;
  stock = r.stock;
}

-- A transfer that succeeds counts at most 8192 bits of entropy.
abbrev pub Counted : Result ℕ → Device → Type 0
Counted (ok n) d = (n ≤ 8192) × IsReady d
Counted (err e) d = IsReady d

-- What `infnoise_usb_transfer` returns.
abbrev pub Settled : Result ℕ → Device → Type 0
Settled (ok n) d = (n ≤ 8192) × (d.consecutive_errors ≡ 0) × IsReady d
Settled (err e) d = IsReady d

abbrev pub Fits : ℕ → Result (List ℕ) → Type 0
Fits n (ok bytes) = length bytes ≤ n
Fits n (err e) = Unit

keep_extracted_total :
    {W : Type 0} (d : Device) {in_buf bytes out : List ℕ} {h : Health} (good : Bool) {h' : Health}
    → IsReady d
    → length bytes ≡ bytes_out
    → Sampled in_buf bytes h out good h'
    → Triple {W = W} (λ d'. d' ≡ d) (keep_extracted d (some (out, good, h'))) Counted
unfolding keep_extracted get_entropy
keep_extracted_total d true r e s =
    Triple-then
      (Triple-put {Q = IsReady} _ (record {
        usb_size = r.usb_size;
        read_size = r.read_size;
        out_size = s.size;
        health = s.valid;
        bounded = s.bounded;
        sponge = r.sponge;
        stock = r.stock;
      }))
      (Triple-return _ (λ d' r'. (s.at_most_8192, r')))
keep_extracted_total d false r e s =
    Triple-then
      (Triple-put {Q = IsReady} _ (record {
        usb_size = r.usb_size;
        read_size = r.read_size;
        out_size = s.size;
        health = s.valid;
        bounded = s.bounded;
        sponge = r.sponge;
        stock = r.stock;
      }))
      (Triple-return _ (λ d' r'. r'))

extract_samples_total : {W : Type 0} → Triple {W = W} IsReady extract_samples Counted
unfolding extract_samples
extract_samples_total = Triple-get (λ d r.
    let run = extract-Sampled d.read_buf d.out_buf d.health r.out_size r.health r.bounded in
    rw run.3.returns (keep_extracted_total d run.1 r r.out_size run.3))

module _ {W : Type 0} (usb : Usb W) (reads : (n : ℕ) (w : W) → Fits n (usb.bulk_in n w).0) where
  store_samples_total :
      (total_read : ℕ) (bytes : List ℕ)
      → total_read + length bytes ≤ usb_read_size
      → Triple IsReady (store_samples usb total_read bytes) (λ _. IsReady)
  unfolding store_samples
  store_samples_total total_read bytes le = Triple-get (λ d r. Triple-put _ (record {
    usb_size =
        length-copy_at d.usb_buf total_read bytes (length bytes) (omega (arith, r.usb_size))
          (omega arith)
        ∙ r.usb_size;
    read_size = r.read_size;
    out_size = r.out_size;
    health = r.health;
    bounded = r.bounded;
    sponge = r.sponge;
    stock = r.stock;
  }))

  Filled : Result ℕ → Device → Type 0
  Filled (ok n) d = (n ≡ usb_read_size) × IsReady d
  Filled (err e) d = IsReady d

  read_samples_total :
      (fuel total_read : ℕ)
      → total_read ≤ usb_read_size
      → usb_read_size < total_read + fuel
      → Triple IsReady (read_samples usb fuel total_read) Filled
  unfolding read_samples Filled
  read_samples_total zero total_read le lt = absurd (omega arith)
  read_samples_total (suc fuel) total_read le lt =
      Triple-elim (ltb total_read usb_read_size)
        (λ done. Triple-return _ (λ d r. (ground arith, r)))
        (λ more.
          Triple-bind
            (Triple-service {F = Fits (usb_read_size - total_read)} _
              (reads (usb_read_size - total_read)))
            (λ r.
              Triple-check r _
                (λ bytes e.
                  Triple-elim (length bytes == 0)
                    (λ some_read.
                      Triple-weaken
                        {P = λ d. (total_read + length bytes ≤ usb_read_size) × IsReady d}
                        (λ d p.
                          (room bytes more (subst (Fits (usb_read_size - total_read)) e p.0), p.1))
                        (λ a d q. q)
                        (Triple-fact (λ fits.
                          Triple-then (store_samples_total total_read bytes fits) (
                            read_samples_total fuel (total_read + length bytes) fits
                              (further bytes some_read)))))
                    (λ none_read. Triple-return _ (λ d p. p.1)))
                (λ e d p. p.1)))
    where
      room :
          (bytes : List ℕ)
          → ltb total_read usb_read_size ≡ true
          → length bytes ≤ usb_read_size - total_read
          → total_read + length bytes ≤ usb_read_size
      room bytes more fits = omega arith

      further :
          (bytes : List ℕ)
          → (length bytes == 0) ≡ false
          → usb_read_size < total_read + length bytes + fuel
      further bytes some_read = ground arith

  strip_samples_total :
      (total_read : ℕ)
      → total_read ≡ usb_read_size
      → Triple IsReady (strip_samples usb total_read) Counted
  unfolding strip_samples
  strip_samples_total total_read e = Triple-get (λ d r.
      let s =
        strip_status-IsStripped total_read d.usb_buf d.read_buf r.read_size
          (omega (arith, r.usb_size)) in
      Triple-then
        (Triple-put {Q = IsReady} _ (record {
          usb_size = r.usb_size;
          read_size = s.1.size ∙ r.read_size;
          out_size = r.out_size;
          health = r.health;
          bounded = r.bounded;
          sponge = r.sponge;
          stock = r.stock;
        }))
        (Triple-if (ltb (strip_status total_read d.usb_buf d.read_buf).1 buflen)
          (λ _. Triple-return _ (λ d' r'. r')) (λ _. extract_samples_total)))

  after_read : (total : Result ℕ) → Triple (Filled total) (check total (strip_samples usb)) Counted
  unfolding check Filled
  after_read (ok n) = Triple-fact (strip_samples_total n)
  after_read (err e) = Triple-return _ (λ d r. r)

  usb_transfer_once_total : Triple IsReady (usb_transfer_once usb) Counted
  unfolding usb_transfer_once
  usb_transfer_once_total = Triple-get (λ d r.
      Triple-weaken {P = IsReady} (λ d' e. rw e r) (λ a d' q. q)
        (Triple-call _
          (λ actual.
            Triple-if (actual == buflen)
              (λ _.
                Triple-bind (read_samples_total (usb_read_size + 1) 0 (omega arith) (omega arith))
                  after_read)
              (λ _. Triple-return _ (λ d' r'. r')))
          (λ e d' r'. r')))

  -- The device after an attempt that failed.
  count_error_keeps : Triple {W = W} IsReady (count_error usb) (λ _. IsReady)
  unfolding count_error
  count_error_keeps = Triple-get (λ d r. Triple-put _ ((IsReady-flags r)))

  Recovered-IsReady :
      (d : Device) (r : Result (Unit {0})) (d' : Device) → IsReady d → Recovered d r d' → IsReady d'
  Recovered-IsReady d (ok _) d' ready e = rw e ((IsReady-flags ready))
  Recovered-IsReady d (err _) d' ready e = rw e ready

  maybe_recover_keeps : Triple IsReady (maybe_recover usb) (λ _. IsReady)
  unfolding maybe_recover
  maybe_recover_keeps = Triple-get (λ d r.
      Triple-if (leb recovery_threshold d.consecutive_errors)
        (λ _.
          Triple-weaken (λ d' e. e) (λ a d' h. Recovered-IsReady d a d' r h)
            (try_recovery-Triple usb d))
        (λ _. Triple-return _ (λ d' e. rw e r)))

  pause_keeps :
      (more : Bool)
      → Triple IsReady (if more then silently (usb.msleep 10) else return tt) (λ _. IsReady)
  pause_keeps more = Triple-if more (λ _. Triple-silently _) (λ _. Triple-return _ (λ d r. r))

  clear_errors_lem :
      (n : ℕ) → Triple (λ d. (n ≤ 8192) × IsReady d) (clear_errors usb) (λ _. Settled (ok n))
  unfolding clear_errors
  clear_errors_lem n = Triple-get (λ d p. Triple-put _ (p.0, refl, (IsReady-flags p.1)))

  settle_attempt_total :
      (retry : ℕ) (again : Errno → M W (Result ℕ)) (r : Result ℕ)
      → ((e : Errno) → Triple IsReady (again e) Settled)
      → Triple (Counted r) (settle_attempt usb retry again r) Settled
  unfolding settle_attempt
  settle_attempt_total retry again (ok n) next =
      Triple-then (clear_errors_lem n) (Triple-return _ (λ d q. q))
  settle_attempt_total retry again (err e) next = Triple-then count_error_keeps (
      Triple-if (is_recoverable_error e)
        (λ _. Triple-bind maybe_recover_keeps (λ rec.
          Triple-check rec _
            (λ _ _. Triple-then (pause_keeps (ltb retry (max_retries - 1))) (next e))
            (λ e' d r. r)))
        (λ _. Triple-return _ (λ d r. r)))

  retry_transfer_total :
      (left retry : ℕ) (last : Errno) → Triple IsReady (retry_transfer usb left retry last) Settled
  unfolding retry_transfer
  retry_transfer_total zero retry last = Triple-return _ (λ d r. r)
  retry_transfer_total (suc left) retry last =
      Triple-bind (usb_transfer_once_total)
        (λ r. settle_attempt_total retry _ r (retry_transfer_total left (retry + 1)))

  pub usb_transfer-Triple : Triple IsReady (usb_transfer usb) Settled
  unfolding usb_transfer
  usb_transfer-Triple = retry_transfer_total max_retries 0 _

  -- For a USB core that reads at most what is asked for, `infnoise_usb_transfer` returns from every
  -- well-formed device, whatever fails, and leaves a well-formed device. On success it counts at
  -- most 8192 bits of entropy and no error is pending.
  pub usb_transfer_total : (s : State W) → IsReady s.dev → Returns (usb_transfer usb) Settled s
  usb_transfer_total s r = usb_transfer-Triple.run s r
