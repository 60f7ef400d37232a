-- ===== src/Kernel/Device/Triple.antt =====
-- Total correctness of driver steps: from a device with `P` the step returns, with `Q` of its value
-- and of the device that it leaves, whatever the world does.
use infnoise.Kernel.Const.{Errno}
use infnoise.Base.{◌≡◌, refl, ap, ◌∙◌, none, some, Bool, true, false, if◌then◌else◌}
use infnoise.Kernel.Device.{
  Device, Usb, State, M, Result, ok, err, await, ◌>>=◌, ◌>>◌, return, get_dev, put_dev, service,
  silently, check,
}

-- The step returns a value and a state with `Q`.
pub record Returns {W A : Type 0} (m : M W A) (Q : A → Device → Type 0) (s : State W) : Type 0 where
  pub value : A
  pub after : State W
  pub runs : m s ≡ some (value, after)
  pub holds : Q value after.dev

pub record Triple {W A : Type 0} (P : Device → Type 0) (m : M W A) (Q : A → Device → Type 0)
    : Type 0 where
  pub run : (s : State W) → P s.dev → Returns m Q s

pub Triple-bind :
    {W A B : Type 0} {P : Device → Type 0} {Q : A → Device → Type 0} {R : B → Device → Type 0}
    {m : M W A} {f : A → M W B}
    → Triple P m Q
    → ((a : A) → Triple (Q a) (f a) R)
    → Triple P (m >>= f) R
unfolding ◌>>=◌
Triple-bind {m} {f} first next = record {
  run = λ s p.
      let one = first.run s p in
      let two = (next one.value).run one.after one.holds in
      record {
        value = two.value;
        after = two.after;
        runs = ap (λ r. elim r [ none ↦ none | some (a, s') ↦ f a s' ]) one.runs ∙ two.runs;
        holds = two.holds;
      };
}

pub Triple-return :
    {W A : Type 0} {P : Device → Type 0} {Q : A → Device → Type 0} (a : A)
    → ((d : Device) → P d → Q a d)
    → Triple {W = W} P (return a) Q
unfolding return
Triple-return a h = record {
  run = λ s p. record { value = a; after = s; runs = refl; holds = h s.dev p };
}

-- A service of the kernel leaves the device alone; a fact on its values can be used.
pub Triple-service :
    {W A : Type 0} {P : Device → Type 0} {F : A → Type 0} (f : W → A × W)
    → ((w : W) → F (f w).0)
    → Triple P (service f) (λ a d. F a × P d)
unfolding service
Triple-service f fact = record {
  run = λ s p. record {
    value = (f s.world).0;
    after = record s { world = (f s.world).1 };
    runs = refl;
    holds = (fact s.world, p);
  };
}

pub Triple-check :
    {W A B : Type 0} {P : Device → Type 0} {Q : Result B → Device → Type 0} (r : Result A)
    (k : A → M W (Result B))
    → ((a : A) → r ≡ ok a → Triple P (k a) Q)
    → ((e : Errno) (d : Device) → P d → Q (err e) d)
    → Triple P (check r k) Q
unfolding check
Triple-check (ok a) k good bad = good a refl
Triple-check (err e) k good bad = Triple-return (err e) (bad e)

-- A step that reads the device.
pub Triple-get :
    {W A : Type 0} {P : Device → Type 0} {Q : A → Device → Type 0} {f : Device → M W A}
    → ((d : Device) → P d → Triple (λ d'. d' ≡ d) (f d) Q)
    → Triple P (get_dev >>= f) Q
unfolding ◌>>=◌ get_dev
Triple-get h = record {
  run = λ s p.
      let one = (h s.dev p).run s refl in
      record { value = one.value; after = one.after; runs = one.runs; holds = one.holds };
}

pub Triple-silently :
    {W : Type 0} {P : Device → Type 0} (f : W → W) → Triple P (silently f) (λ _. P)
unfolding silently
Triple-silently f = record {
  run =
      λ s p. record { value = tt; after = record s { world = f s.world }; runs = refl; holds = p };
}

pub Triple-put :
    {W : Type 0} {P Q : Device → Type 0} (d : Device) → Q d → Triple {W = W} P (put_dev d) (λ _. Q)
unfolding put_dev
Triple-put d q = record {
  run = λ s p. record { value = tt; after = record s { dev = d }; runs = refl; holds = q };
}

pub Triple-if :
    {W A : Type 0} {P : Device → Type 0} {Q : A → Device → Type 0} (c : Bool) {m n : M W A}
    → (c ≡ true → Triple P m Q)
    → (c ≡ false → Triple P n Q)
    → Triple P (if c then m else n) Q
Triple-if true h k = h refl
Triple-if false h k = k refl

-- A weaker precondition, a stronger conclusion.
pub Triple-weaken :
    {W A : Type 0} {P P' : Device → Type 0} {Q Q' : A → Device → Type 0} {m : M W A}
    → ((d : Device) → P' d → P d)
    → ((a : A) (d : Device) → Q a d → Q' a d)
    → Triple P m Q
    → Triple P' m Q'
Triple-weaken pre post t = record {
  run = λ s p.
      let one = t.run s (pre s.dev p) in
      record {
        value = one.value;
        after = one.after;
        runs = one.runs;
        holds = post one.value one.after.dev one.holds;
      };
}

-- A service, and the early return where it fails.
pub Triple-call :
    {W A B : Type 0} {P : Device → Type 0} {Q : Result B → Device → Type 0} (f : W → Result A × W)
    {k : A → M W (Result B)}
    → ((a : A) → Triple P (k a) Q)
    → ((e : Errno) (d : Device) → P d → Q (err e) d)
    → Triple P (service f >>= λ r. check r k) Q
Triple-call f {k} good bad =
    Triple-bind
      (Triple-weaken (λ d p. p) (λ a d p. p.1) (Triple-service {F = λ _. Unit {0}} f (λ w. tt)))
      (λ r. Triple-check r k (λ a e. good a) bad)

-- A silent step before another.
pub Triple-after :
    {W A : Type 0} {P : Device → Type 0} {Q : A → Device → Type 0} (f : W → W) {m : M W A}
    → Triple P m Q
    → Triple P (silently f >> m) Q
unfolding ◌>>◌
Triple-after f t = Triple-bind (Triple-silently f) (λ _. t)

pub Triple-then :
    {W A : Type 0} {P R : Device → Type 0} {Q : A → Device → Type 0} {first : M W (Unit {0})}
    {m : M W A}
    → Triple P first (λ _. R)
    → Triple R m Q
    → Triple P (first >> m) Q
unfolding ◌>>◌
Triple-then one t = Triple-bind one (λ _. t)

pub Triple-elim :
    {W A : Type 0} {P : Device → Type 0} {Q : A → Device → Type 0} (c : Bool) {m n : M W A}
    → (c ≡ false → Triple P n Q)
    → (c ≡ true → Triple P m Q)
    → Triple P (elim c [ false ↦ n | true ↦ m ]) Q
Triple-elim true h k = k refl
Triple-elim false h k = h refl

-- A fact that does not depend on the device is taken out of the precondition.
pub Triple-fact :
    {W A F : Type 0} {P : Device → Type 0} {Q : A → Device → Type 0} {m : M W A}
    → (F → Triple P m Q)
    → Triple (λ d. F × P d) m Q
Triple-fact t = record { run = λ s p. (t p.0).run s p.1 }

-- The wait for the warm-up, for a property that the other threads keep.
pub Triple-await :
    {W : Type 0} {P : Device → Type 0} (usb : Usb W)
    → ((d : Device) (w : W) → P d → P (usb.wait d w).1)
    → Triple P (await usb) (λ _. P)
unfolding await
Triple-await usb keeps = record {
  run = λ s p. record {
    value = (usb.wait s.dev s.world).0;
    after = record { dev = (usb.wait s.dev s.world).1; world = (usb.wait s.dev s.world).2 };
    runs = refl;
    holds = keeps s.dev s.world p;
  };
}
