-- ===== src/Kernel/Extract/Pack.antt =====
-- What `infnoise_extract_bytes` computes: the packed bits, the health state and its bounds.
use infnoise.Base.{
  ℕ, zero, suc, ◌+◌, ◌*◌, ◌/◌, ◌%◌, ◌≤◌, ◌<◌, ◌≡◌, refl, ap, subst, ◌∙◌, bit_or, Bool, true, false,
  List, some, u8, ◌<<<◌, get_or, set, if◌then◌else◌, bit, arith, length, length-set,
  get_or-set_self, get_or-set_ne, inl, inr, Bool-cases,
}
use native.Mathlib.Nat.{add-zero}
use native.Mathlib.Decide.{ℕ_discrete}
use infnoise.Bits.{bit_or_fields, bit_and_mask}
use infnoise.Kernel.Const.{bytes_out}
use infnoise.Kernel.Health.{Health, add_bit, clear_entropy}
use infnoise.Kernel.Health.Invariant.{IsValid}
use infnoise.Kernel.Health.Total.{clear_entropy-IsValid}
use infnoise.Kernel.Health.Estimate.{IsBounded, add_bit-IsBounded}
use infnoise.Kernel.Extract.{even_bit_of, odd_bit_of, even_at, extract_bits, extract_loop, extract}

abbrev selected_at : ℕ → ℕ → List ℕ → Bool
selected_at j base in_buf =
    let val = get_or in_buf (base + j) 0 in if even_at j then even_bit_of val else odd_bit_of val

-- The loop over the bits of one byte, without the health check.
pack : ℕ → ℕ → ℕ → List ℕ → ℕ → ℕ
pack zero j base in_buf byte = byte
pack (suc left) j base in_buf byte =
    pack left (j + 1) base in_buf ((2 * byte + bit (selected_at j base in_buf)) % 256)

-- The bit of the comparator that is read in phase `j`: COMP1 at even places, COMP2 at odd ones.
abbrev pub comp1_bit : List ℕ → ℕ → ℕ
comp1_bit in_buf i = get_or in_buf i 0 / 2 % 2

abbrev pub comp2_bit : List ℕ → ℕ → ℕ
comp2_bit in_buf i = get_or in_buf i 0 / 16 % 2

-- Byte `k` of the output: eight samples, the first one on top.
abbrev pub sampled_byte : List ℕ → ℕ → ℕ
sampled_byte in_buf k =
    128 * comp1_bit in_buf (k * 8)
    + 64 * comp2_bit in_buf (k * 8 + 1)
    + 32 * comp1_bit in_buf (k * 8 + 2)
    + 16 * comp2_bit in_buf (k * 8 + 3)
    + 8 * comp1_bit in_buf (k * 8 + 4)
    + 4 * comp2_bit in_buf (k * 8 + 5)
    + 2 * comp1_bit in_buf (k * 8 + 6)
    + comp2_bit in_buf (k * 8 + 7)

even_bit_lem : (val : ℕ) → bit (even_bit_of val) ≡ val / 16 % 2
even_bit_lem val = ground (arith, bit_and_mask 1 (val / 16))

odd_bit_lem : (val : ℕ) → bit (odd_bit_of val) ≡ val / 2 % 2
odd_bit_lem val = ground (arith, bit_and_mask 1 (val / 2))

-- Eight binary digits do not overflow a byte.
horner :
    (a b c d e f g h : ℕ)
    → a < 2
    → b < 2
    → c < 2
    → d < 2
    → e < 2
    → f < 2
    → g < 2
    → h < 2
    → (2
            * ((2
                    * ((2
                            * ((2
                                    * ((2 * ((2 * ((2 * ((0 + a) % 256) + b) % 256) + c) % 256) + d)
                                        % 256)
                                  + e)
                                % 256)
                          + f)
                        % 256)
                  + g)
                % 256)
          + h)
        % 256
      ≡ 128 * a + 64 * b + 32 * c + 16 * d + 8 * e + 4 * f + 2 * g + h
horner a b c d e f g h pa pb pc pd pe pf pg ph = omega arith

pack_byte : (in_buf : List ℕ) (k : ℕ) → pack 8 0 (k * 8) in_buf 0 ≡ sampled_byte in_buf k
unfolding pack
pack_byte in_buf k =
    simp (even_bit_lem, odd_bit_lem, add-zero)
      (horner (comp1_bit in_buf (k * 8)) (comp2_bit in_buf (k * 8 + 1))
        (comp1_bit in_buf (k * 8 + 2)) (comp2_bit in_buf (k * 8 + 3)) (comp1_bit in_buf (k * 8 + 4))
        (comp2_bit in_buf (k * 8 + 5)) (comp1_bit in_buf (k * 8 + 6)) (comp2_bit in_buf (k * 8 + 7))
        (omega arith) (omega arith) (omega arith) (omega arith) (omega arith) (omega arith)
        (omega arith) (omega arith))

shifted_in : (byte : ℕ) (b : Bool) → u8 (bit_or (byte <<< 1) (bit b)) ≡ (2 * byte + bit b) % 256
shifted_in byte true = omega (arith, bit_or_fields 1 byte 1)
shifted_in byte false = omega (arith, bit_or_fields 1 byte 0)

-- What the loops keep: the bounds of the health state, with at most 16 bits of entropy a sample.
pub record Checked (samples : ℕ) (h h' : Health) : Type 0 where
  pub valid : IsValid h'
  pub bounded : IsBounded h'
  pub level : h'.entropy_level ≤ h.entropy_level + 16 * samples

-- The loop over one byte returns; without a fault the byte is the packed one.
record Collected (left j base : ℕ) (in_buf : List ℕ) (byte : ℕ) (h : Health) (out : ℕ) (good : Bool)
    (h' : Health) : Type 0 where
  returns : extract_bits left j base in_buf byte h ≡ some (out, good, h')
  checked : Checked left h h'
  packed : good ≡ true → out ≡ pack left j base in_buf byte

Collected-cons :
    (left j base : ℕ) (in_buf : List ℕ) (byte : ℕ) (h : Health) {h1 h' : Health} {out : ℕ}
    {good : Bool}
    → add_bit h
        (even_bit_of (get_or in_buf (base + j) 0))
        (odd_bit_of (get_or in_buf (base + j) 0))
        (even_at j)
      ≡ some (h1, true)
    → h1.entropy_level ≤ h.entropy_level + 16
    → Collected left
        (j + 1)
        base
        in_buf
        ((2 * byte + bit (selected_at j base in_buf)) % 256)
        h1
        out
        good
        h'
    → Collected (suc left) j base in_buf byte h out good h'
unfolding extract_bits pack
Collected-cons left j base in_buf byte h e l r = record {
  returns = rw (e, extract_bits, shifted_in byte (selected_at j base in_buf)) r.returns;
  checked = record {
    valid = r.checked.valid;
    bounded = r.checked.bounded;
    level = omega (arith, r.checked.level);
  };
  packed = r.packed;
}

Collected-fault :
    (left j base : ℕ) (in_buf : List ℕ) (byte : ℕ) (h : Health) {h1 : Health}
    → add_bit h
        (even_bit_of (get_or in_buf (base + j) 0))
        (odd_bit_of (get_or in_buf (base + j) 0))
        (even_at j)
      ≡ some (h1, false)
    → Checked 1 h h1
    → Collected
        (suc left)
        j
        base
        in_buf
        byte
        h
        (u8 (bit_or (byte <<< 1) (bit (selected_at j base in_buf))))
        false
        h1
unfolding extract_bits
Collected-fault left j base in_buf byte h e c = record {
  returns = rw (e, extract_bits);
  checked = record { valid = c.valid; bounded = c.bounded; level = omega (arith, c.level) };
  packed = λ g. cc;
}

extract_bits-Collected :
    (left j base : ℕ) (in_buf : List ℕ) (byte : ℕ) (h : Health)
    → IsValid h
    → IsBounded h
    → (out : ℕ) × (good : Bool) × (h' : Health) × Collected left j base in_buf byte h out good h'
extract_bits-Collected zero j base in_buf byte h v b = (
  byte,
  true,
  h,
  record {
    returns = unfold extract_bits in refl;
    checked = record { valid = v; bounded = b; level = omega arith };
    packed = λ _. unfold pack in refl;
  },
)
extract_bits-Collected (suc left) j base in_buf byte h v b =
    let val = get_or in_buf (base + j) 0 in
    let call = add_bit-IsBounded h (even_bit_of val) (odd_bit_of val) (even_at j) v b in
    elim (Bool-cases call.1) [
      | inl good ↦
          let byte' = (2 * byte + bit (selected_at j base in_buf)) % 256 in
          let rest = extract_bits-Collected left (j + 1) base in_buf byte' call.0 call.3 call.4 in
          (
            rest.0,
            rest.1,
            rest.2,
            Collected-cons left j base in_buf byte h (call.2 ∙ ap (λ g. some (call.0, g)) good)
                call.5 rest.3,
          )
      | inr bad ↦ (
        u8 (bit_or (byte <<< 1) (bit (selected_at j base in_buf))),
        false,
        call.0,
        Collected-fault left j base in_buf byte h (call.2 ∙ ap (λ g. some (call.0, g)) bad)
            (record { valid = call.3; bounded = call.4; level = omega (arith, call.5) }),
      )
    ]

-- The outer loop from byte `i` on: the bytes before it stay, and without a fault those from it on
-- are the packed samples.
pub record Extracted (left i : ℕ) (in_buf bytes : List ℕ) (h : Health) (out : List ℕ) (good : Bool)
    (h' : Health) : Type 0 where
  pub returns : extract_loop left i in_buf bytes h ≡ some (out, good, h')
  pub checked : Checked (8 * left) h h'
  pub size : length out ≡ length bytes
  pub before : (k : ℕ) → k < i → get_or out k 0 ≡ get_or bytes k 0
  pub packed : good ≡ true → (k : ℕ) → i ≤ k → k < i + left → get_or out k 0 ≡ sampled_byte in_buf k

loop-cons :
    (left i : ℕ) (in_buf bytes : List ℕ) (h : Health) {h1 h' : Health} {byte : ℕ} {out : List ℕ}
    {good : Bool}
    → i < length bytes
    → Collected 8 0 (i * 8) in_buf 0 h byte true h1
    → Extracted left (i + 1) in_buf (set bytes i byte) h1 out good h'
    → Extracted (suc left) i in_buf bytes h out good h'
loop-cons left i in_buf bytes h {byte} {out} lt first rest = record {
  returns = unfold extract_loop in rw (first.returns, extract_loop) rest.returns;
  checked = record {
    valid = rest.checked.valid;
    bounded = rest.checked.bounded;
    level = omega (arith, rest.checked.level, first.checked.level);
  };
  size = rest.size ∙ length-set bytes i byte;
  before = λ k p. rest.before k (omega arith) ∙ get_or-set_ne bytes i k byte 0 (omega arith);
  packed = λ g k p q. elim (ℕ_discrete k i) [
    | yes e ↦ rw e (
        rest.before i (omega arith)
        ∙ get_or-set_self bytes i byte 0 lt
        ∙ first.packed refl
        ∙ pack_byte in_buf i)
    | no ne ↦ rest.packed g k (omega arith) (omega arith)
  ];
}

loop-fault :
    (left i : ℕ) (in_buf bytes : List ℕ) (h : Health) {h1 : Health} {byte : ℕ}
    → Collected 8 0 (i * 8) in_buf 0 h byte false h1
    → Extracted (suc left) i in_buf bytes h bytes false h1
loop-fault left i in_buf bytes h first = record {
  returns = unfold extract_loop in rw (first.returns, extract_loop);
  checked = record {
    valid = first.checked.valid;
    bounded = first.checked.bounded;
    level = omega (arith, first.checked.level);
  };
  size = refl;
  before = λ k p. refl;
  packed = λ g. cc;
}

extract_loop-Extracted :
    (left i : ℕ) (in_buf bytes : List ℕ) (h : Health)
    → i + left ≤ length bytes
    → IsValid h
    → IsBounded h
    → (out : List ℕ) × (good : Bool) × (h' : Health) × Extracted left i in_buf bytes h out good h'
extract_loop-Extracted zero i in_buf bytes h le v b = (
  bytes,
  true,
  h,
  record {
    returns = unfold extract_loop in refl;
    checked = record { valid = v; bounded = b; level = omega arith };
    size = refl;
    before = λ k p. refl;
    packed = λ g k p q. absurd (omega arith);
  },
)
extract_loop-Extracted (suc left) i in_buf bytes h le v b =
    let first = extract_bits-Collected 8 0 (i * 8) in_buf 0 h v b in
    elim (Bool-cases first.1) [
      | inl good ↦
          let bits = subst (λ g. Collected 8 0 (i * 8) in_buf 0 h first.0 g first.2) good first.3 in
          let rest =
            extract_loop-Extracted left (i + 1) in_buf (set bytes i first.0) first.2
              (omega (arith, length-set bytes i first.0)) first.3.checked.valid
              first.3.checked.bounded in
          (rest.0, rest.1, rest.2, loop-cons left i in_buf bytes h (omega arith) bits rest.3)
      | inr bad ↦
          let bits = subst (λ g. Collected 8 0 (i * 8) in_buf 0 h first.0 g first.2) bad first.3 in
          (bytes, false, first.2, loop-fault left i in_buf bytes h bits)
    ]

-- The outcome of extracting 64 bytes from 512 samples.
pub record Sampled (in_buf bytes : List ℕ) (h : Health) (out : List ℕ) (good : Bool) (h' : Health)
    : Type 0 where
  pub returns : extract bytes_out in_buf bytes h ≡ some (out, good, h')
  pub valid : IsValid h'
  pub bounded : IsBounded h'
  pub at_most_8192 : h'.entropy_level ≤ 8192
  pub size : length out ≡ bytes_out
  pub packed : good ≡ true → (k : ℕ) → k < bytes_out → get_or out k 0 ≡ sampled_byte in_buf k

-- From a valid state that counts at most sixteen bits of entropy for each sample,
-- `infnoise_extract_bytes` fills a buffer of 64 bytes from 512 samples: it returns, leaves such a
-- state, and counts at most 8192 bits of entropy. Without a fault, byte `k` of the output is
-- samples 8k to 8k + 7, the first on top, taken from COMP1 and COMP2 in turn.
pub extract-Sampled :
    (in_buf bytes : List ℕ) (h : Health)
    → length bytes ≡ bytes_out
    → IsValid h
    → IsBounded h
    → (out : List ℕ) × (good : Bool) × (h' : Health) × Sampled in_buf bytes h out good h'
extract-Sampled in_buf bytes h e v b = (
  run.0,
  run.1,
  run.2,
  record {
    returns = unfold extract in run.3.returns;
    valid = run.3.checked.valid;
    bounded = run.3.checked.bounded;
    at_most_8192 = unfold clear_entropy in omega (arith, run.3.checked.level);
    size = run.3.size ∙ e;
    packed = λ g k lt. run.3.packed g k (omega arith) (omega arith);
  },
)
  where
    run :
        (out : List ℕ) × (good : Bool) × (h' : Health) × Extracted bytes_out 0 in_buf bytes
          (clear_entropy h)
          out
          good
          h'
    run =
        extract_loop-Extracted bytes_out 0 in_buf bytes (clear_entropy h) (omega arith)
          (clear_entropy-IsValid v) (unfold clear_entropy in b)
