-- ===== src/Kernel/Ftdi/Control.antt =====
-- The control paths of the FTDI bridge return, whatever the USB core answers, and what they leave
-- of the device.
use infnoise.Base.{
  ◌≡◌, refl, ap, ◌∙◌, inc32, true, false, Option, none, some, inl, inr, Bool-cases, if◌then◌else◌,
}
use infnoise.Kernel.Const.{Errno}
use infnoise.Kernel.Device.{
  Device, Usb, State, M, Result, ok, err, ◌>>=◌, ◌>>◌, return, get_dev, put_dev, service, silently,
  check,
}
use infnoise.Kernel.Device.Triple.{
  Triple, Triple-bind, Triple-return, Triple-service, Triple-check, Triple-get, Triple-put,
  Triple-if, Triple-weaken, Triple-call, Triple-after, Triple-then,
}
use infnoise.Kernel.Ftdi.{
  configure, test_transfer, recovered, reset_and_configure, reset_if_failed, attempt_recovery,
  try_recovery,
}

module _ {W : Type 0} (usb : Usb W) {P : Device → Type 0} where
  pub configure_keeps : Triple P (configure usb) (λ _. P)
  unfolding configure
  configure_keeps =
      Triple-call _
        (λ _.
          Triple-call _
            (λ _.
              Triple-call _
                (λ _.
                  Triple-call _
                    (λ _.
                      Triple-call _
                        (λ _. Triple-call _ (λ _. Triple-after _ (Triple-return _ (λ d p. p))) same)
                        same)
                    same)
                same)
            same)
        same
    where
      same : (e : Errno) (d : Device) → P d → P d
      same e d p = p

  pub test_transfer_keeps : Triple P (test_transfer usb) (λ _. P)
  unfolding test_transfer
  test_transfer_keeps =
      Triple-bind
        (Triple-weaken (λ d p. p) (λ a d p. p.1) (Triple-service {F = λ _. Unit {0}} _ (λ w. tt)))
        (λ got.
          Triple-if got
            (λ _. Triple-after _ (
              Triple-after _ (
                Triple-call _ (λ _. Triple-call _ (λ _. Triple-return _ (λ d p. p)) (λ e d p. p))
                  (λ e d p. p))))
            (λ _. Triple-return _ (λ d p. p)))

  pub reset_and_configure_keeps : Triple P (reset_and_configure usb) (λ _. P)
  unfolding reset_and_configure
  reset_and_configure_keeps = Triple-call _ (λ _. Triple-after _ configure_keeps) (λ e d p. p)

abbrev mend : Device → Device
mend d = record d { recoveries = inc32 d.recoveries; consecutive_errors = 0 }

-- What `infnoise_try_recovery` leaves of the device `d`, by what it returns.
abbrev pub Recovered : Device → Result (Unit {0}) → Device → Type 0
Recovered d (ok _) d' = d' ≡ mend d
Recovered d (err e) d' = d' ≡ d

reset_if_failed_keeps :
    {W : Type 0} (usb : Usb W) {P : Device → Type 0} (r : Result (Unit {0}))
    → Triple P (reset_if_failed usb r) (λ _. P)
unfolding reset_if_failed
reset_if_failed_keeps usb (ok a) = Triple-return _ (λ d p. p)
reset_if_failed_keeps usb (err e) = reset_and_configure_keeps usb

recovered_lem :
    {W : Type 0} (usb : Usb W) (d : Device) → Triple (λ d'. d' ≡ d) (recovered usb) (Recovered d)
unfolding recovered
recovered_lem usb d =
    Triple-get
      (λ d1 e1. Triple-then (Triple-put _ refl) (Triple-return _ (λ d2 e2. e2 ∙ ap mend e1)))

pub try_recovery-Triple :
    {W : Type 0} (usb : Usb W) (d : Device) → Triple (λ d'. d' ≡ d) (try_recovery usb) (Recovered d)
unfolding try_recovery attempt_recovery
try_recovery-Triple usb d = Triple-get (λ d1 e1.
    Triple-if d1.present
      (λ _. Triple-after _ (
        Triple-after _ (
          Triple-after _ (
            Triple-bind (configure_keeps usb) (λ r. Triple-bind (reset_if_failed_keeps usb r) (λ r'.
              Triple-check r' _
                (λ _ _. Triple-weaken (λ d2 e2. e2 ∙ e1) (λ _ _ h. h) (recovered_lem usb d))
                (λ e d2 e2. e2 ∙ e1)))))))
      (λ _. Triple-return _ (λ d2 e2. e2 ∙ e1)))

-- The world when the recovery has cleared both endpoints and waited.
abbrev rested : {W : Type 0} → Usb W → W → W
rested usb w = usb.msleep 10 (usb.clear_halt_in (usb.clear_halt_out w))

-- A recovery, by what it has done: the device is absent and nothing is done; the bridge is configured
-- at once; or that fails, and the device is reset, which fails, or is configured once more after it.
pub data Recovery {W : Type 0} (usb : Usb W) (s : State W)
    : Result (Unit {0}) → State W → Type 0 where
  absent : s.dev.present ≡ false → Recovery usb s (err Errno.enodev) s
  configured :
      {w : W}
      → s.dev.present ≡ true
      → configure usb (record s { world = rested usb s.world })
        ≡ some (ok tt, record s { world = w })
      → Recovery usb s (ok tt) (record { dev = mend s.dev; world = w })
  reset_failed :
      {e e' : Errno} {w w' : W}
      → s.dev.present ≡ true
      → configure usb (record s { world = rested usb s.world })
        ≡ some (err e, record s { world = w })
      → usb.reset_device w ≡ (err e', w')
      → Recovery usb s (err e') (record s { world = w' })
  configured_again :
      {e : Errno} {w w' w'' : W}
      → s.dev.present ≡ true
      → configure usb (record s { world = rested usb s.world })
        ≡ some (err e, record s { world = w })
      → usb.reset_device w ≡ (ok tt, w')
      → configure usb (record s { world = usb.msleep 50 w' })
        ≡ some (ok tt, record s { world = w'' })
      → Recovery usb s (ok tt) (record { dev = mend s.dev; world = w'' })
  failed_again :
      {e e' : Errno} {w w' w'' : W}
      → s.dev.present ≡ true
      → configure usb (record s { world = rested usb s.world })
        ≡ some (err e, record s { world = w })
      → usb.reset_device w ≡ (ok tt, w')
      → configure usb (record s { world = usb.msleep 50 w' })
        ≡ some (err e', record s { world = w'' })
      → Recovery usb s (err e') (record s { world = w'' })

-- What a recovery returns and leaves is as one of these says.
pub record IsRecovery {W : Type 0} (usb : Usb W) (s : State W) : Type 0 where
  pub result : Result (Unit {0})
  pub after : State W
  pub returns : try_recovery usb s ≡ some (result, after)
  pub recovery : Recovery usb s result after

-- A step that has run, and what follows it.
>>=-some :
    {W A B : Type 0} (m : M W A) (f : A → M W B) {s s' : State W} {a : A}
    → m s ≡ some (a, s')
    → (m >>= f) s ≡ f a s'
unfolding ◌>>=◌
>>=-some m f e = ap (λ r. elim r [ none ↦ none | some (a, s') ↦ f a s' ]) e

module _ {W : Type 0} (usb : Usb W) (s : State W) where
  configure_runs :
      (w : W)
      → (r : Result (Unit {0})) × (w' : W) × (configure usb (record s { world = w })
          ≡ some (r, record s { world = w' }))
  configure_runs w =
      let x = (configure_keeps usb {P = λ d. d ≡ s.dev}).run (record s { world = w }) refl in
      (
        x.value,
        x.after.world,
        x.runs ∙ ap (λ d. some (x.value, record { dev = d; world = x.after.world })) x.holds,
      )

  attempts : s.dev.present ≡ true → try_recovery usb s ≡ attempt_recovery usb s
  unfolding try_recovery get_dev return ◌>>=◌
  attempts here = ap (λ b. (if b then attempt_recovery usb else return (err Errno.enodev)) s) here

  -- What follows the first configuration.
  abbrev settle : Result (Unit {0}) → M W (Result (Unit {0}))
  settle r = reset_if_failed usb r >>= λ r'. check r' λ _. recovered usb

  settled :
      {w : W} {r : Result (Unit {0})}
      → s.dev.present ≡ true
      → configure usb (record s { world = rested usb s.world }) ≡ some (r, record s { world = w })
      → try_recovery usb s ≡ settle r (record s { world = w })
  unfolding attempt_recovery silently ◌>>=◌ ◌>>◌
  settled here first = attempts here ∙ >>=-some (configure usb) settle first

  -- The reset, from its answer on.
  after_answer : Result (Unit {0}) × W → Option (Result (Unit {0}) × State W)
  after_answer x =
      (check x.0 λ _. (silently (usb.msleep 50) >> configure usb)) (record s { world = x.1 })

  reset_runs :
      {w w' w'' : W} {r r' : Result (Unit {0})}
      → usb.reset_device w ≡ (r, w')
      → after_answer (r, w') ≡ some (r', record s { world = w'' })
      → reset_and_configure usb (record s { world = w }) ≡ some (r', record s { world = w'' })
  unfolding after_answer reset_and_configure service ◌>>=◌
  reset_runs answer rest = ap after_answer answer ∙ rest

  after_reset :
      {e : Errno} {w : W}
      → s.dev.present ≡ true
      → configure usb (record s { world = rested usb s.world })
        ≡ some (err e, record s { world = w })
      → (r : Result (Unit {0})) (w' : W) → usb.reset_device w ≡ (r, w')
      → (x : Result (Unit {0})) × (w'' : W) × (configure usb (record s { world = usb.msleep 50 w' })
          ≡ some (x, record s { world = w'' }))
      → IsRecovery usb s
  unfolding after_answer recovered reset_if_failed check silently get_dev put_dev return ◌>>=◌ ◌>>◌
  after_reset here first (err e') w' failed again = record {
    result = err e';
    after = record s { world = w' };
    returns =
        settled here first
        ∙ >>=-some (reset_and_configure usb) (λ r. check r λ _. recovered usb)
            (reset_runs failed refl);
    recovery = Recovery.reset_failed here first failed;
  }
  after_reset here first (ok _) w' done (ok _, w'', again) = record {
    result = ok tt;
    after = record { dev = mend s.dev; world = w'' };
    returns =
        settled here first
        ∙ >>=-some (reset_and_configure usb) (λ r. check r λ _. recovered usb)
            (reset_runs done again);
    recovery = Recovery.configured_again here first done again;
  }
  after_reset here first (ok _) w' done (err e', w'', again) = record {
    result = err e';
    after = record s { world = w'' };
    returns =
        settled here first
        ∙ >>=-some (reset_and_configure usb) (λ r. check r λ _. recovered usb)
            (reset_runs done again);
    recovery = Recovery.failed_again here first done again;
  }

  after_configure :
      (r : Result (Unit {0})) (w : W)
      → s.dev.present ≡ true
      → configure usb (record s { world = rested usb s.world }) ≡ some (r, record s { world = w })
      → IsRecovery usb s
  unfolding recovered reset_if_failed check get_dev put_dev return ◌>>=◌ ◌>>◌
  after_configure (ok _) w here first = record {
    result = ok tt;
    after = record { dev = mend s.dev; world = w };
    returns = settled here first;
    recovery = Recovery.configured here first;
  }
  after_configure (err e) w here first =
      after_reset here first (usb.reset_device w).0 (usb.reset_device w).1 refl
        (configure_runs (usb.msleep 50 (usb.reset_device w).1))

  gone : s.dev.present ≡ false → IsRecovery usb s
  unfolding try_recovery get_dev return ◌>>=◌
  gone away = record {
    result = err Errno.enodev;
    after = s;
    returns = ap (λ b. (if b then attempt_recovery usb else return (err Errno.enodev)) s) away;
    recovery = Recovery.absent away;
  }

-- The recovery returns for every behaviour of the USB core, given that a reset leaves the driver bound.
-- For an absent device it touches nothing and returns -ENODEV. Otherwise it succeeds where the
-- configuration does that follows the clearing of the endpoints, or else the one that follows a
-- successful reset; then the device has one more recovery and no consecutive error. Where the reset or
-- the configuration after it fails, that error is returned and the device is as before.
pub try_recovery_lem : {W : Type 0} (usb : Usb W) (s : State W) → IsRecovery usb s
try_recovery_lem usb s = elim (Bool-cases s.dev.present) [
  | inr away ↦ gone usb s away
  | inl here ↦
      let first = configure_runs usb s (rested usb s.world) in
      after_configure usb s first.0 first.1 here first.2
]
