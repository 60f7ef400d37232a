-- ===== src/Kernel/Keccak/Sponge.antt =====
-- The operations of the sponge: sizes, and what absorbing changes.
use infnoise.Base.{
  ℕ, zero, suc, ◌*◌, ◌≤◌, ◌<◌, ◌≡◌, refl, ap, subst, u32, ◌∙◌, bit_xor, List, [], ◌∷◌, get_or,
  arith, length, min, ltb, if◌then◌else◌, length-replicate, All-replicate,
}
use infnoise.Kernel.Const.{state_size, lanes}
use infnoise.Kernel.Keccak.{bytes_to_words, permutation, xor_into, absorb, copy_out, extract, init}
use infnoise.Kernel.Keccak.Spec
use infnoise.Kernel.Keccak.Bytes.{IsState, length-bytes_to_words, permutation-IsState}
use infnoise.Kernel.Keccak.Refines.{permutation_on_words-keccak_f, length-rounds}

-- The permutation, and so absorbing, leaves a state of 200 bytes.
pub permuted-IsState : (state : List ℕ) → IsState (permutation state)
permuted-IsState state = permutation-IsState state (
    ap length (permutation_on_words-keccak_f words (length-bytes_to_words lanes state))
    ∙ unfold Spec.keccak_f in length-rounds 24 0 words (length-bytes_to_words lanes state))
  where
    words : List ℕ
    words = bytes_to_words lanes state

pub absorb-IsState : (state input : List ℕ) (n : ℕ) → IsState (absorb state input n)
unfolding absorb
absorb-IsState state input n = permuted-IsState (xor_into (u32 (n * 8)) state input)

pub init-IsState : IsState init
unfolding init
init-IsState = record {
  size = length-replicate {A = ℕ} state_size 0;
  bytes = All-replicate (λ b. b < 256) state_size 0 (omega arith);
}

length-copy_out : (n : ℕ) (state : List ℕ) → length (copy_out n state) ≡ n
unfolding copy_out
length-copy_out zero state = refl
length-copy_out (suc n) [] = omega (arith, length-copy_out n [])
length-copy_out (suc n) (b ∷ state) = omega (arith, length-copy_out n state)

get_or-copy_out :
    (n : ℕ) (state : List ℕ) (i : ℕ) → i < n → get_or (copy_out n state) i 0 ≡ get_or state i 0
unfolding copy_out
get_or-copy_out zero state i h = absurd (omega arith)
get_or-copy_out (suc n) [] zero h = refl
get_or-copy_out (suc n) [] (suc i) h = get_or-copy_out n [] i (omega arith)
get_or-copy_out (suc n) (b ∷ state) zero h = refl
get_or-copy_out (suc n) (b ∷ state) (suc i) h = get_or-copy_out n state i (omega arith)

-- What an extraction stores: bytes from the front of the state, never more than the state has.
pub record Extracted (state : List ℕ) (n : ℕ) (out : List ℕ) : Type 0 where
  pub size : length out ≡ min (u32 (8 * n)) state_size
  pub within : length out ≤ length state
  pub copied : (i : ℕ) → i < length out → get_or out i 0 ≡ get_or state i 0

pub length-extract :
    (state : List ℕ) (n : ℕ) → length (extract state n) ≡ min (u32 (8 * n)) state_size
unfolding extract
length-extract state n =
    let bytes = u32 (n * 8) in
    length-copy_out (if ltb state_size bytes then state_size else bytes) state ∙ ground arith

-- From a state of 200 bytes, extraction of `n` lanes stores `8 n` bytes modulo 2 ^ 32, but no more
-- than the state holds. They are the first bytes of the state.
pub extract-Extracted :
    (state : List ℕ) (n : ℕ) → length state ≡ state_size → Extracted state n (extract state n)
extract-Extracted state n size = record {
  size = length-extract state n;
  within = omega (arith, length-extract state n, size);
  copied = λ i lt.
      let bytes = u32 (n * 8) in
      let len = length-copy_out (if ltb state_size bytes then state_size else bytes) state in
      unfold extract in
      get_or-copy_out (if ltb state_size bytes then state_size else bytes) state i
        (subst (λ t. i < t) len (unfold extract in lt));
}

pub length-xor_into :
    (n : ℕ) (state input : List ℕ) → length (xor_into n state input) ≡ length state
unfolding xor_into
length-xor_into zero state input = refl
length-xor_into (suc n) [] input = refl
length-xor_into (suc n) (s ∷ state) [] = refl
length-xor_into (suc n) (s ∷ state) (d ∷ input) = ap suc (length-xor_into n state input)

-- For `n` within the state and the input, the xor stage of absorbing changes the first `n` bytes
-- by the input and no other byte.
pub get_or-xor_into :
    (n : ℕ) (state input : List ℕ) (i : ℕ)
    → n ≤ length state
    → n ≤ length input
    → get_or (xor_into n state input) i 0
      ≡ (if ltb i n then bit_xor (get_or state i 0) (get_or input i 0) else get_or state i 0)
unfolding xor_into
get_or-xor_into zero state input i h k = ground arith
get_or-xor_into (suc n) [] input i h k = absurd (omega arith)
get_or-xor_into (suc n) (s ∷ state) [] i h k = absurd (omega arith)
get_or-xor_into (suc n) (s ∷ state) (d ∷ input) zero h k = ground arith
get_or-xor_into (suc n) (s ∷ state) (d ∷ input) (suc i) h k =
    get_or-xor_into n state input i (omega arith) (omega arith) ∙ ground arith
