-- ===== src/Kernel/Read/Total.antt =====
-- `infnoise_read_data` and the warm-up return for every behaviour of the USB core, and what a call
-- stores and counts.
use infnoise.Base.{
  ℕ, zero, suc, ◌+◌, ◌*◌, ◌/◌, ◌^◌, ◌≤◌, ◌<◌, ◌≡◌, ◌⊎◌, subst, refl, Bool, true, false, not, ◌&&◌,
  length, arith, ltb, leb, min, length-take, u32, inl, inr, Bool-cases,
}
use infnoise.Kernel.Const.{bytes_out, state_size, warmup_rounds}
use infnoise.Kernel.Health
use infnoise.Kernel.Keccak.{extract}
use infnoise.Kernel.Keccak.Sponge.{length-extract, permuted-IsState, absorb-IsState}
use infnoise.Kernel.Device.{Device, Usb, State, Result, ok, err}
use infnoise.Kernel.Device.Triple.{
  Returns, Triple, Triple-bind, Triple-return, Triple-get, Triple-if, Triple-elim, Triple-weaken,
  Triple-fact,
}
use infnoise.Kernel.Transfer.Total.{IsReady, IsReady-flags, Fits, Settled, usb_transfer-Triple}
use infnoise.Kernel.Read.{
  Output, nothing, keccak_squeeze, squeeze_left, output_size, deliver, on_device, passes,
  use_transfer, read_fresh, read_data, warmup_loop, finish_warmup, warmup_work,
}

-- An output for a caller that asks for `max_len` bytes: the count is at most 128, the bytes it
-- counts are stored, and what is stored ends within the lane that `max_len` ends in.
pub record Fills (max_len : ℕ) (out : Output) : Type 0 where
  pub within : out.count ≤ max_len
  pub at_most_128 : out.count ≤ 128
  pub stored : out.count ≤ length out.written
  pub ends : length out.written ≤ (max_len + 7) / 8 * 8

squeeze_left-Fills :
    (d : Device) (max_len : ℕ)
    → IsReady d
    → Fills max_len (squeeze_left d max_len).0 × IsReady (squeeze_left d max_len).1
unfolding squeeze_left keccak_squeeze
squeeze_left-Fills d max_len s = (
  record {
    within = omega arith;
    at_most_128 = omega arith;
    stored = omega (arith, len);
    ends = omega (arith, len);
  },
  record {
    usb_size = s.usb_size;
    read_size = s.read_size;
    out_size = s.out_size;
    health = s.health;
    bounded = s.bounded;
    sponge = permuted-IsState d.keccak;
    stock = omega (arith, s.stock);
  },
)
  where
    n : ℕ
    n = min (min max_len d.keccak_bytes_left) 128

    len : length (extract d.keccak ((n + 7) / 8)) ≡ min (u32 (8 * ((n + 7) / 8))) state_size
    len = length-extract d.keccak ((n + 7) / 8)

-- With the bytes left below 2 ^ 32, a call counts what the caller asks for, at most what is left
-- and at most 128, and the bytes left go down by just that.
pub squeeze_left_accounts :
    (d : Device) (max_len : ℕ)
    → d.keccak_bytes_left < 2 ^ 32
    → let (out, d') = squeeze_left d max_len in
      (out.count ≡ min (min max_len d.keccak_bytes_left) 128)
      × (d'.keccak_bytes_left + out.count ≡ d.keccak_bytes_left)
unfolding squeeze_left keccak_squeeze
squeeze_left_accounts d max_len lt = (refl, omega arith)

output_size-bound :
    (multiplier entropy : ℕ) → entropy ≤ 8192 → output_size multiplier entropy ≤ 1024
unfolding output_size
output_size-bound multiplier entropy le = ground arith

deliver-Fills :
    (multiplier entropy max_len : ℕ) (raw : Bool) (d : Device)
    → entropy ≤ 8192
    → IsReady d
    → Fills max_len (deliver multiplier entropy max_len raw d).0
      × IsReady (deliver multiplier entropy max_len raw d).1
unfolding deliver
deliver-Fills multiplier entropy max_len true d le s = (
  record {
    within = omega arith;
    at_most_128 = omega arith;
    stored = omega (arith, length-take (min max_len bytes_out) d.out_buf, s.out_size);
    ends = omega (arith, length-take (min max_len bytes_out) d.out_buf);
  },
  (IsReady-flags s),
)
deliver-Fills multiplier entropy max_len false d le s = squeeze_left-Fills _ max_len (record {
  usb_size = s.usb_size;
  read_size = s.read_size;
  out_size = s.out_size;
  health = s.health;
  bounded = s.bounded;
  sponge = absorb-IsState d.keccak d.out_buf (bytes_out / 8);
  stock = omega (arith, output_size-bound multiplier entropy le);
})

-- What a read returns: an error, or an output that fills the request.
abbrev pub Served : ℕ → Result Output → Device → Type 0
Served max_len (ok out) d = Fills max_len out × IsReady d
Served max_len (err e) d = IsReady d

pub nothing-Fills : (max_len : ℕ) → Fills max_len nothing
nothing-Fills max_len = record {
  within = omega arith;
  at_most_128 = omega arith;
  stored = omega arith;
  ends = omega arith;
}

pub on_device_lem :
    {W A : Type 0} {P : Device → Type 0} {Q : A → Device → Type 0} (f : Device → A × Device)
    → ((d : Device) → P d → Q (f d).0 (f d).1)
    → Triple {W = W} P (on_device f) Q
unfolding on_device
on_device_lem f h = record {
  run = λ s p. record {
    value = (f s.dev).0;
    after = record s { dev = (f s.dev).1 };
    runs = refl;
    holds = h s.dev p;
  };
}

-- What the warm-up leaves, by whether it wakes the waiters. They are told that it is done only where
-- the health check accepts the data; otherwise they are told of a failure.
pub record Warmed (woken : Bool) (d : Device) : Type 0 where
  pub ready : IsReady d
  pub present : woken ≡ d.present
  pub told :
      woken ≡ true → ((Health.ok d.health ≡ true) × (d.warmup_done ≡ true)) ⊎ (d.health_fail ≡ true)

-- Where the loop of the warm-up stops: the rounds are used up, or one of its tests fails.
record Stopped (last done : ℕ) (d : Device) : Type 0 where
  ready : IsReady d
  at_most : done ≤ last
  reason : (done ≡ last) ⊎ (Health.ok d.health ≡ true) ⊎ (d.present ≡ false)

finish_warmup_lem :
    (done : ℕ) (d : Device)
    → Stopped warmup_rounds done d
    → Warmed (finish_warmup done d).0 (finish_warmup done d).1
unfolding finish_warmup
finish_warmup_lem done d r = elim (Bool-cases d.present) [
  | inl here ↦ elim (Bool-cases (leb warmup_rounds done)) [
    | inl late ↦ rw (here, late) (record { ready = ready; present = refl; told = λ _. inr refl })
    | inr early ↦
        rw (here, early)
          (record {
            ready = ready;
            present = refl;
            told = λ _. inl (accepted here early r.reason, refl);
          })
  ]
  | inr gone ↦ rw gone (record { ready = ready; present = refl; told = λ e. absurd (cc) })
]
  where
    ready :
        {present warmup_done health_fail : Bool}
        → IsReady
            (record d { present = present; warmup_done = warmup_done; health_fail = health_fail })
    ready = (IsReady-flags r.ready)

    accepted :
        d.present ≡ true
        → leb warmup_rounds done ≡ false
        → (done ≡ warmup_rounds) ⊎ (Health.ok d.health ≡ true) ⊎ (d.present ≡ false)
        → Health.ok d.health ≡ true
    accepted here early (inl all) = absurd (ground arith)
    accepted here early (inr (inl good)) = good
    accepted here early (inr (inr gone)) = absurd (cc)

module _ {W : Type 0} (usb : Usb W) (reads : (n : ℕ) (w : W) → Fits n (usb.bulk_in n w).0) where
  after_transfer :
      (multiplier max_len : ℕ) (raw : Bool) (r : Result ℕ)
      → Triple {W = W} (Settled r) (use_transfer multiplier max_len raw r) (Served max_len)
  unfolding use_transfer
  after_transfer multiplier max_len raw (ok n) = Triple-get (λ d p.
      Triple-weaken {P = λ d'. (n ≤ 8192) × IsReady d'} (λ d' e. rw e (p.0, p.2)) (λ a d' q. q)
        (Triple-fact (λ le.
          Triple-if (passes d n)
            (λ _.
              Triple-bind
                (on_device_lem _ (λ d' r'. deliver-Fills multiplier n max_len raw d' le r'))
                (λ out. Triple-return _ (λ d' q. q)))
            (λ _. Triple-return _ (λ d' r'. (nothing-Fills max_len, r'))))))
  after_transfer multiplier max_len raw (err e) = Triple-return _ (λ d r. r)

  read_fresh_total :
      (multiplier max_len : ℕ) (raw : Bool)
      → Triple IsReady (read_fresh usb multiplier max_len raw) (Served max_len)
  unfolding read_fresh
  read_fresh_total multiplier max_len raw =
      Triple-bind (usb_transfer-Triple usb reads) (after_transfer multiplier max_len raw)

  pub read_data-Triple :
      (multiplier max_len : ℕ) (raw : Bool)
      → Triple IsReady (read_data usb multiplier max_len raw) (Served max_len)
  unfolding read_data
  read_data-Triple multiplier max_len raw = Triple-get (λ d p.
      Triple-weaken {P = IsReady} (λ d' e. rw e p) (λ a d' q. q)
        (Triple-if d.present
          (λ _.
            Triple-if (ltb 0 d.keccak_bytes_left && not raw)
              (λ _.
                Triple-bind (on_device_lem _ (λ d' r. squeeze_left-Fills d' max_len r))
                  (λ out. Triple-return _ (λ d' q. q)))
              (λ _. read_fresh_total multiplier max_len raw))
          (λ _. Triple-return _ (λ d' r. r))))

  -- For a USB core that reads at most what is asked for, `infnoise_read_data` returns from every
  -- well-formed device and leaves one. What it counts is stored, is at most 128 bytes and at most
  -- what was asked for, and nothing is stored past the lane in which the request ends.
  pub read_data_total :
      (multiplier max_len : ℕ) (raw : Bool) (s : State W)
      → IsReady s.dev
      → Returns (read_data usb multiplier max_len raw) (Served max_len) s
  read_data_total multiplier max_len raw s r = (read_data-Triple multiplier max_len raw).run s r

  warmup_loop_total :
      (multiplier left done : ℕ)
      → Triple IsReady (warmup_loop usb multiplier left done) (Stopped (done + left))
  unfolding warmup_loop
  warmup_loop_total multiplier zero done =
      Triple-return _
        (λ d r. record { ready = r; at_most = omega arith; reason = inl (omega arith) })
  warmup_loop_total multiplier (suc left) done = Triple-get (λ d p.
      Triple-elim (not (Health.ok d.health) && d.present)
        (λ settled. Triple-return _ (λ d' same.
          rw same (record { ready = p; at_most = omega arith; reason = inr (ground arith) })))
        (λ _.
          Triple-weaken {P = IsReady} (λ d' same. rw same p) (λ a d' q. q)
            (Triple-bind
              (Triple-weaken (λ d' r. r) (ignored 64) (read_data-Triple multiplier 64 true))
              (λ _.
                Triple-weaken (λ d' r. r)
                  (λ a d' q. subst (λ t. Stopped t a d') {x = done + 1 + left} (omega arith) q)
                  (warmup_loop_total multiplier left (done + 1))))))
    where
      ignored : (max_len : ℕ) (r : Result Output) (d : Device) → Served max_len r d → IsReady d
      ignored max_len (ok out) d q = q.1
      ignored max_len (err e) d q = q

  pub warmup_work-Triple : (multiplier : ℕ) → Triple IsReady (warmup_work usb multiplier) Warmed
  unfolding warmup_work finish_warmup
  warmup_work-Triple multiplier =
      Triple-bind (warmup_loop_total multiplier warmup_rounds 0)
        (λ done. on_device_lem _ (λ d p. finish_warmup_lem done d p))

  -- For a USB core that reads at most what is asked for, the warm-up returns from every well-formed
  -- device and leaves one. It wakes the waiters exactly where the device is present. Then the device
  -- is marked as warmed up and the health check accepts its data, or the failure flag is set.
  pub warmup_work_total :
      (multiplier : ℕ) (s : State W) → IsReady s.dev → Returns (warmup_work usb multiplier) Warmed s
  warmup_work_total multiplier s r = (warmup_work-Triple multiplier).run s r
