-- ===== src/Userspace/Library/Samples.antt =====
-- The loops of `extractBytes` return.
use infnoise.Base.{
  ℕ, zero, suc, ◌+◌, ◌*◌, ◌≡◌, ◌⊎◌, inl, inr, refl, ap, ◌∙◌, Bool, true, false, arith, List, [],
  ◌∷◌, Option, none, some, length, if◌then◌else◌, Bool-cases, bit, bit_or, u8, ◌<<<◌, get_or,
}
use infnoise.Kernel.Extract.{even_bit_of, odd_bit_of, even_at}
use infnoise.Userspace.Floats.{Floats, AreLaws}
use infnoise.Userspace.Health.{Health, take_bit}
use infnoise.Userspace.Health.Invariant.{IsValid}
use infnoise.Userspace.Health.Total.{Added, add_bit_returns}
use infnoise.Userspace.Library.{rounds, extract_bits, extract_loop}

module _ {f : Floats} where
  -- A loop of the extraction returns; where it succeeds its state is valid and its value is as `P`
  -- says.
  pub record Extracted {A : Type 0} (P : A → Type 0) (h : Health f)
      (r : Option (A × Bool × Health f)) : Type 0 where
    pub value : A
    pub good : Bool
    pub after : Health f
    pub returns : r ≡ some (value, good, after)
    pub settled : (good ≡ false) ⊎ (IsValid after × P value)
    pub expected : after.expected_entropy_per_bit ≡ h.expected_entropy_per_bit

  Extracted-at_once :
      {A : Type 0} {P : A → Type 0} (value : A) (h : Health f)
      → IsValid h
      → P value
      → Extracted P h (some (value, true, h))
  Extracted-at_once value h v p = record {
    value = value;
    good = true;
    after = h;
    returns = refl;
    settled = inr (v, p);
    expected = refl;
  }

  -- The loop goes on from a later state.
  Extracted-later :
      {A : Type 0} {P : A → Type 0} {h h1 : Health f} {r r1 : Option (A × Bool × Health f)}
      → r ≡ r1
      → h1.expected_entropy_per_bit ≡ h.expected_entropy_per_bit
      → Extracted P h1 r1
      → Extracted P h r
  Extracted-later e k x = record {
    value = x.value;
    good = x.good;
    after = x.after;
    returns = e ∙ x.returns;
    settled = x.settled;
    expected = x.expected ∙ k;
  }

  Extracted-failed :
      {A : Type 0} {P : A → Type 0} {h : Health f} {r : Option (A × Bool × Health f)} (value : A)
      (after : Health f)
      → r ≡ some (value, false, after)
      → after.expected_entropy_per_bit ≡ h.expected_entropy_per_bit
      → Extracted P h r
  Extracted-failed value after e k = record {
    value = value;
    good = false;
    after = after;
    returns = e;
    settled = inl refl;
    expected = k;
  }

  IsValid-after :
      {fuel : ℕ} {h : Health f} {even_bit odd_bit even : Bool}
      (a : Added fuel h even_bit odd_bit even)
      → (take_bit h even_bit odd_bit even).1 ≡ true
      → IsValid a.after
  IsValid-after a good = elim a.settled [ inl bad ↦ absurd (cc) | inr v ↦ v ]

  -- One bit: what follows the call of the health check.
  fed : ℕ → ℕ → ℕ → List ℕ → ℕ → Option (Health f × Bool) → Option (ℕ × Bool × Health f)
  fed left j base in_buf byte' r = elim r [
    | none ↦ none
    | some (h', good) ↦ elim good [
      | true ↦ extract_bits left (j + 1) base in_buf byte' h'
      | false ↦ some (byte', false, h')
    ]
  ]

  -- One byte: what follows the inner loop.
  stored : ℕ → ℕ → List ℕ → Option (ℕ × Bool × Health f) → Option (List ℕ × Bool × Health f)
  stored left i in_buf r = elim r [
    | none ↦ none
    | some (byte, good, h') ↦ elim good [
      | false ↦ some ([], false, h')
      | true ↦ elim (extract_loop left (i + 1) in_buf h') [
        | none ↦ none
        | some (bytes, good', h'') ↦ some (byte ∷ bytes, good', h'')
      ]
    ]
  ]

  stored-Extracted :
      (left i : ℕ) (in_buf : List ℕ) (h : Health f) (r : Option (ℕ × Bool × Health f))
      (x : Extracted (λ _. Unit {0}) h r)
      → x.good ≡ true
      → Extracted (λ bytes. length bytes ≡ left) x.after (extract_loop left (i + 1) in_buf x.after)
      → Extracted (λ bytes. length bytes ≡ suc left) h (stored left i in_buf r)
  unfolding stored
  stored-Extracted left i in_buf h r x good y = record {
    value = x.value ∷ y.value;
    good = y.good;
    after = y.after;
    returns = rw (x.returns, good, y.returns) refl;
    settled = elim y.settled [ inl bad ↦ inl bad | inr ok ↦ inr (ok.0, ap suc ok.1) ];
    expected = y.expected ∙ x.expected;
  }

module _ {f : Floats} (laws : AreLaws f) where
  extract_bits-Extracted :
      (left j base : ℕ) (in_buf : List ℕ) (byte : ℕ) (h : Health f)
      → IsValid h
      → Extracted (λ _. Unit {0}) h (extract_bits left j base in_buf byte h)
  unfolding extract_bits fed
  extract_bits-Extracted zero j base in_buf byte h v = Extracted-at_once byte h v tt
  extract_bits-Extracted (suc left) j base in_buf byte h v =
      let val = get_or in_buf (base + j) 0 in
      let b = if even_at j then even_bit_of val else odd_bit_of val in
      let byte' = u8 (bit_or (byte <<< 1) (bit b)) in
      let a =
        add_bit_returns laws rounds h (even_bit_of val) (odd_bit_of val) (even_at j) v
          (omega arith) in
      elim (Bool-cases (take_bit h (even_bit_of val) (odd_bit_of val) (even_at j)).1) [
        | inr bad ↦
            Extracted-failed byte' a.after
              (ap (fed left j base in_buf byte')
                (a.returns ∙ ap (λ good. some (a.after, good)) bad))
              a.expected
        | inl good ↦
            Extracted-later
              (ap (fed left j base in_buf byte')
                (a.returns ∙ ap (λ good. some (a.after, good)) good))
              a.expected
              (extract_bits-Extracted left (j + 1) base in_buf byte' a.after (IsValid-after a good))
      ]

  pub extract_loop-Extracted :
      (left i : ℕ) (in_buf : List ℕ) (h : Health f)
      → IsValid h
      → Extracted (λ bytes. length bytes ≡ left) h (extract_loop left i in_buf h)
  unfolding extract_loop stored
  extract_loop-Extracted zero i in_buf h v = Extracted-at_once [] h v refl
  extract_loop-Extracted (suc left) i in_buf h v =
      let x = extract_bits-Extracted 8 0 (i * 8) in_buf 0 h v in
      elim x.settled [
        | inl bad ↦
            Extracted-failed [] x.after
              (ap (stored left i in_buf)
                (x.returns ∙ ap (λ good. some (x.value, good, x.after)) bad))
              x.expected
        | inr ok ↦ elim (Bool-cases x.good) [
          | inr bad ↦
              Extracted-failed [] x.after
                (ap (stored left i in_buf)
                  (x.returns ∙ ap (λ good. some (x.value, good, x.after)) bad))
                x.expected
          | inl good ↦
              stored-Extracted left i in_buf h (extract_bits 8 0 (i * 8) in_buf 0 h) x good
                (extract_loop-Extracted left (i + 1) in_buf x.after ok.0)
        ]
      ]
