-- ===== src/Kernel/Interface/Total.antt =====
-- Reads of the character device: a read that may not block returns, and no read gives more than it
-- was asked for.
use infnoise.Base.{
  ℕ, zero, suc, ◌+◌, ◌-◌, ◌≤◌, ◌<◌, Bool, true, ◌||◌, ◌&&◌, not, arith, ltb, ◌==◌, min,
}
use infnoise.Kernel.Device.{Device, Usb, State, M, Result, ok, err}
use infnoise.Kernel.Device.Triple.{
  Returns, Triple, Triple-bind, Triple-return, Triple-service, Triple-check, Triple-get, Triple-if,
  Triple-elim, Triple-weaken, Triple-fact, Triple-then, Triple-put, Triple-await,
}
use infnoise.Kernel.Transfer.Total.{IsReady, IsReady-flags, Fits}
use infnoise.Kernel.Read.{Output}
use infnoise.Kernel.Read.Total.{nothing-Fills, Served, read_data-Triple}
use infnoise.Kernel.Interface.{
  char_idle, char_loop, char_step, char_ready, char_read, wait_warmup, hwrng_fetch, hwrng_read,
}

-- A read of `count` bytes that has a result gives at most `count`.
abbrev pub Copied : ℕ → Result ℕ → Device → Type 0
Copied count (ok n) d = (n ≤ count) × IsReady d
Copied count (err e) d = IsReady d

module _ {W : Type 0} (usb : Usb W) (raw_mode : Bool) (multiplier : ℕ)
    (reads : (n : ℕ) (w : W) → Fits n (usb.bulk_in n w).0) where
  char_idle_total :
      (count total : ℕ) (next : M W (Result ℕ))
      → total ≤ count
      → Triple IsReady (char_idle usb raw_mode multiplier true total next) (Copied count)
  unfolding char_idle
  char_idle_total count total next le =
      Triple-if (ltb 0 total) (λ _. Triple-return _ (λ d r. (le, r)))
        (λ _. Triple-return _ (λ d r. r))

  char_step_total :
      (count total : ℕ) (again : ℕ → M W (Result ℕ)) (r : Result Output)
      → total < count
      → ((t : ℕ) → total < t → t ≤ count → Triple IsReady (again t) (Copied count))
      → Triple
          (Served (min (count - total) 128) r)
          (char_step usb raw_mode multiplier true total again r)
          (Copied count)
  unfolding char_step
  char_step_total count total again (err e) lt next =
      Triple-if (ltb 0 total) (λ _. Triple-return _ (λ d r. (omega arith, r)))
        (λ _. Triple-return _ (λ d r. r))
  char_step_total count total again (ok out) lt next = Triple-fact (λ fills.
      Triple-elim (out.count == 0)
        (λ some_read.
          Triple-bind
            (Triple-weaken (λ d r. r) (λ a d q. q.1)
              (Triple-service {F = λ _. Unit {0}} _ (λ w. tt)))
            (λ copied.
              Triple-if copied
                (λ _. next (total + out.count) (ground arith) (omega (arith, fills.within)))
                (λ _. Triple-return _ (λ d r. r))))
        (λ _. char_idle_total count total (again total) (omega arith)))

  -- Without blocking, the loop of a read of `count` bytes returns within `count + 1` rounds from
  -- every well-formed device and leaves one. It gives at most `count` bytes.
  pub char_loop_total :
      (fuel count total : ℕ)
      → total ≤ count
      → count < total + fuel
      → Triple IsReady (char_loop usb raw_mode multiplier fuel true count total) (Copied count)
  unfolding char_loop
  char_loop_total zero count total le lt = absurd (omega arith)
  char_loop_total (suc fuel) count total le lt =
      Triple-elim (ltb total count) (λ done. Triple-return _ (λ d r. (le, r)))
        (λ more. Triple-get (λ d p.
          Triple-weaken {P = IsReady} (λ d' e. rw e p) (λ a d' q. q)
            (Triple-bind
              (read_data-Triple usb reads multiplier (min (count - total) 128)
                (raw_mode || d.raw_mode))
              (λ r.
                char_step_total count total _ r (ground arith)
                  (λ t gt le'. char_loop_total fuel count t le' (omega arith))))))

  module _ (waits : (d : Device) (w : W) → IsReady d → IsReady (usb.wait d w).1) where
    wait_warmup_keeps :
        (wait : Bool) → Triple IsReady (wait_warmup usb raw_mode multiplier wait) (λ _. IsReady)
    unfolding wait_warmup
    wait_warmup_keeps wait = Triple-get (λ d p.
        Triple-weaken {P = IsReady} (λ d' e. rw e p) (λ a d' q. q)
          (Triple-if (wait && not d.warmup_done) (λ _. Triple-await usb waits)
            (λ _. Triple-return _ (λ d' r. r))))

    hwrng_fetch_total :
        (max_len : ℕ) (raw : Bool)
        → Triple IsReady (hwrng_fetch usb raw_mode multiplier max_len raw) (Served max_len)
    unfolding hwrng_fetch
    hwrng_fetch_total max_len raw = Triple-get (λ d p.
        Triple-weaken {P = IsReady} (λ d' e. rw e p) (λ a d' q. q)
          (Triple-if d.warmup_done
            (λ _.
              Triple-if d.health_fail (λ _. Triple-return _ (λ d' r. r))
                (λ _. read_data-Triple usb reads multiplier max_len raw))
            (λ _. Triple-return _ (λ d' r. (nothing-Fills max_len, r)))))

    set_quality_keeps : (d : Device) (q : ℕ) → IsReady d → IsReady (record d { quality = q })
    set_quality_keeps d q r = (IsReady-flags r)

    pub hwrng_read-Triple :
        (max_len : ℕ) (wait : Bool)
        → Triple IsReady (hwrng_read usb raw_mode multiplier max_len wait) (Served max_len)
    unfolding hwrng_read
    hwrng_read-Triple max_len wait = Triple-get (λ d p.
        Triple-if d.present
          (λ _. Triple-then (Triple-put {Q = IsReady} _ (set_quality_keeps d _ p)) (
            Triple-bind (wait_warmup_keeps wait) (λ r.
              Triple-check r _ (λ _ _. hwrng_fetch_total max_len (raw_mode || d.raw_mode))
                (λ e d' q. q))))
          (λ _. Triple-return _ (λ d' e. rw e p)))

    -- For a USB core that reads at most what is asked for, and a wait for the warm-up that keeps
    -- the device well formed, a read of the hwrng returns from every well-formed device and leaves
    -- one. What it counts is stored, is at most 128 bytes and at most what was asked for, and
    -- nothing is stored past the lane in which the request ends.
    pub hwrng_read_total :
        (max_len : ℕ) (wait : Bool) (s : State W)
        → IsReady s.dev
        → Returns (hwrng_read usb raw_mode multiplier max_len wait) (Served max_len) s
    hwrng_read_total max_len wait s r = (hwrng_read-Triple max_len wait).run s r

    char_ready_total :
        (count : ℕ)
        → Triple IsReady (char_ready usb raw_mode multiplier (count + 1) true count) (Copied count)
    unfolding char_ready
    char_ready_total count = Triple-get (λ d p.
        Triple-weaken {P = IsReady} (λ d' e. rw e p) (λ a d' q. q)
          (Triple-if d.health_fail (λ _. Triple-return _ (λ d' r. r))
            (λ _. char_loop_total (count + 1) count 0 (omega arith) (omega arith))))

    pub char_read-Triple :
        (opened : Bool) (count : ℕ)
        → Triple IsReady
            (char_read usb raw_mode multiplier (count + 1) opened true count)
            (Copied count)
    unfolding char_read
    char_read-Triple opened count = Triple-get (λ d p.
        Triple-weaken {P = IsReady} (λ d' e. rw e p) (λ a d' q. q)
          (Triple-if opened
            (λ _.
              Triple-if (true && not d.warmup_done) (λ _. Triple-return _ (λ d' r. r))
                (λ _.
                  Triple-bind (wait_warmup_keeps true)
                    (λ r. Triple-check r _ (λ _ _. char_ready_total count) (λ e d' q. q))))
            (λ _. Triple-return _ (λ d' r. r))))

    -- For a USB core that reads at most what is asked for, and a wait for the warm-up that keeps
    -- the device well formed, a read of the character device that may not block returns within
    -- `count + 1` rounds of its loop, from every well-formed device, and leaves one. It gives at
    -- most `count` bytes.
    pub char_read_total :
        (opened : Bool) (count : ℕ) (s : State W)
        → IsReady s.dev
        → Returns (char_read usb raw_mode multiplier (count + 1) opened true count) (Copied count) s
    char_read_total opened count s r = (char_read-Triple opened count).run s r
