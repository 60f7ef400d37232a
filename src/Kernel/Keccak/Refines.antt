-- ===== src/Kernel/Keccak/Refines.antt =====
-- The permutation of infnoise_keccak.c is Keccak-f[1600].
use infnoise.Base.{
  ℕ, zero, suc, ◌+◌, ◌*◌, ◌%◌, ◌≤◌, ◌<◌, ◌≡◌, refl, sym, ap, ap₂, ◌∙◌, All, List, [], ◌∷◌, get_or,
  for_range, tabulate, arith, length,
}
use infnoise.Base.{◌==◌, ==_iff, all_below, all_below_sound, true}
use infnoise.Bits.{zero-bit_xor}
use infnoise.Kernel.Keccak.{
  rol64, parity, theta, rho, pi, chi, iota, round_on_words, permutation_on_words, round_constants,
}
use infnoise.Kernel.Keccak.Spec
use infnoise.Kernel.Keccak.Spec.{rotate, column}
use infnoise.Kernel.Keccak.Words.{rol64-eq-rotate}

tabulate-suc : (n i : ℕ) (f : ℕ → ℕ) → tabulate n (i + 1) f ≡ tabulate n i (λ k. f (suc k))
unfolding tabulate
tabulate-suc zero i f = refl
tabulate-suc (suc n) i f =
    let e : i + 1 ≡ suc i = omega arith in
    rw (tabulate-suc n (i + 1) f) (ap (λ k. f k ∷ tabulate n (i + 1) (λ j. f (suc j))) e)

tabulate-get_or : (xs : List ℕ) → tabulate (length xs) 0 (λ k. get_or xs k 0) ≡ xs
unfolding tabulate
tabulate-get_or [] = refl
tabulate-get_or (x ∷ xs) =
    ap (λ ys. x ∷ ys) (tabulate-suc (length xs) 0 (λ k. get_or (x ∷ xs) k 0) ∙ tabulate-get_or xs)

-- The words of a state, one by one.
abbrev words : List ℕ → List ℕ
unfolding tabulate
words st = tabulate 25 0 (λ k. get_or st k 0)

words_lem : (st : List ℕ) → length st ≡ 25 → words st ≡ st
unfolding words
words_lem st e = ap (λ (n : ℕ). tabulate n 0 (λ k. get_or st k 0)) (sym e) ∙ tabulate-get_or st

rol_one : (a : ℕ) → rol64 a 1 ≡ rotate a 1
rol_one a = rol64-eq-rotate a 1 (omega arith)

zip_with : (ℕ → ℕ → ℕ) → List ℕ → List ℕ → List ℕ
zip_with f [] ns = []
zip_with f (a ∷ as') [] = []
zip_with f (a ∷ as') (n ∷ ns) = f a n ∷ zip_with f as' ns

rotated :
    (words' ns : List ℕ)
    → All (λ n. n < 64) ns
    → zip_with rol64 words' ns ≡ zip_with rotate words' ns
unfolding zip_with
rotated [] ns h = refl
rotated (a ∷ rest) [] h = refl
rotated (a ∷ rest) (n ∷ ns) h = ap₂ ◌∷◌ (rol64-eq-rotate a n h.0) (rotated rest ns h.1)

module _ (st : List ℕ) where
  parity0 : parity (words st) 0 ≡ column st 0
  unfolding parity column words
  parity0 = rw zero-bit_xor

  parity1 : parity (words st) 1 ≡ column st 1
  unfolding parity column words
  parity1 = rw zero-bit_xor

  parity2 : parity (words st) 2 ≡ column st 2
  unfolding parity column words
  parity2 = rw zero-bit_xor

  parity3 : parity (words st) 3 ≡ column st 3
  unfolding parity column words
  parity3 = rw zero-bit_xor

  parity4 : parity (words st) 4 ≡ column st 4
  unfolding parity column words
  parity4 = rw zero-bit_xor

  theta-words : theta (words st) ≡ Spec.theta st
  unfolding words theta Spec.theta
  theta-words = simp (parity0, parity1, parity2, parity3, parity4, rol_one)

  pi-rho-words : pi (rho (words st)) ≡ Spec.rho_pi st
  unfolding words rho pi Spec.rho_pi zip_with
  pi-rho-words =
      rotated (Spec.by_coordinates (λ x y. Spec.at st ((x + 3 * y) % 5) x))
        (Spec.by_coordinates (λ x y. Spec.at Spec.offsets ((x + 3 * y) % 5) x)) (omega arith)

  chi-words : chi (words st) ≡ Spec.chi st
  unfolding words chi Spec.chi
  chi-words = refl

  iota-words :
      (i : ℕ)
      → get_or round_constants i 0 ≡ Spec.round_constant i
      → iota (words st) i ≡ Spec.iota st i
  unfolding words iota Spec.iota
  iota-words i e = rw e

-- Each step on a state of 25 words is the step of the standard.
module _ (st : List ℕ) (e : length st ≡ 25) where
  theta-Spec : theta st ≡ Spec.theta st
  theta-Spec = ap theta (sym (words_lem st e)) ∙ theta-words st

  pi-rho-Spec : pi (rho st) ≡ Spec.rho_pi st
  pi-rho-Spec = ap (λ s. pi (rho s)) (sym (words_lem st e)) ∙ pi-rho-words st

  chi-Spec : chi st ≡ Spec.chi st
  chi-Spec = ap chi (sym (words_lem st e)) ∙ chi-words st

  iota-Spec :
      (i : ℕ) → get_or round_constants i 0 ≡ Spec.round_constant i → iota st i ≡ Spec.iota st i
  iota-Spec i c = ap (λ s. iota s i) (sym (words_lem st e)) ∙ iota-words st i c

length-theta : (st : List ℕ) → length (Spec.theta st) ≡ 25
unfolding Spec.theta
length-theta st = refl

length-rho_pi : (st : List ℕ) → length (Spec.rho_pi st) ≡ 25
unfolding Spec.rho_pi
length-rho_pi st = refl

length-chi : (st : List ℕ) → length (Spec.chi st) ≡ 25
unfolding Spec.chi
length-chi st = refl

length-iota : (st : List ℕ) (i : ℕ) → length (Spec.iota st i) ≡ 25
unfolding Spec.iota
length-iota st i = refl

round-Spec :
    (i : ℕ) (st : List ℕ)
    → length st ≡ 25
    → get_or round_constants i 0 ≡ Spec.round_constant i
    → round_on_words i st ≡ Spec.keccak_round i st
unfolding round_on_words Spec.keccak_round
round-Spec i st e c =
    ap (λ s. iota (chi (pi (rho s))) i) (theta-Spec st e)
    ∙ ap (λ s. iota (chi s) i) (pi-rho-Spec (Spec.theta st) (length-theta st))
    ∙ ap (λ s. iota s i) (chi-Spec (Spec.rho_pi (Spec.theta st)) (length-rho_pi (Spec.theta st)))
    ∙ iota-Spec (Spec.chi (Spec.rho_pi (Spec.theta st))) (length-chi (Spec.rho_pi (Spec.theta st)))
        i c

length-round : (i : ℕ) (st : List ℕ) → length (Spec.keccak_round i st) ≡ 25
unfolding Spec.keccak_round
length-round i st = length-iota (Spec.chi (Spec.rho_pi (Spec.theta st))) i

-- The table of the driver holds the constants that the register generates.
constants-agree : (i : ℕ) → i < 24 → get_or round_constants i 0 ≡ Spec.round_constant i
constants-agree i lt =
    (==_iff _ _).0
      (all_below_sound (λ k. get_or round_constants k 0 == Spec.round_constant k) 24 i table lt)
  where
    table : all_below (λ k. get_or round_constants k 0 == Spec.round_constant k) 24 ≡ true
    table = unfold all_below Spec.round_constant in refl

rounds-agree :
    (n i : ℕ) (st : List ℕ)
    → i + n ≤ 24
    → length st ≡ 25
    → for_range n i round_on_words st ≡ for_range n i Spec.keccak_round st
unfolding for_range
rounds-agree zero i st le e = refl
rounds-agree (suc n) i st le e =
    ap (for_range n (i + 1) round_on_words) (round-Spec i st e (constants-agree i (omega arith)))
    ∙ rounds-agree n (i + 1) (Spec.keccak_round i st) (omega arith) (length-round i st)

-- On every state of 25 words the in-place permutation of the driver, with its stored tables, is
-- Keccak-f[1600] as the standard defines it by coordinates, with the tables that it generates.
pub permutation_on_words-keccak_f :
    (state : List ℕ) → length state ≡ 25 → permutation_on_words state ≡ Spec.keccak_f state
unfolding permutation_on_words Spec.keccak_f
permutation_on_words-keccak_f state e = rounds-agree 24 0 state (omega arith) e

pub length-rounds :
    (n i : ℕ) (st : List ℕ) → length st ≡ 25 → length (for_range n i Spec.keccak_round st) ≡ 25
unfolding for_range
length-rounds zero i st e = e
length-rounds (suc n) i st e = length-rounds n (i + 1) (Spec.keccak_round i st) (length-round i st)
