-- ===== src/Userspace/Pool/Number.antt =====
-- The number that `readNumberFromFile` reads.
use native.Mathlib.Nat.{pow-suc}
use infnoise.Base.{
  ℕ, ◌+◌, ◌-◌, ◌*◌, ◌/◌, ◌^◌, ◌≤◌, ◌<◌, ◌≡◌, refl, ap, ◌∙◌, true, false, ◌&&◌, List, [], ◌∷◌, ◌++◌,
  map, All, length, leb, arith, u32,
}
use infnoise.Userspace.Pool.{read_number}

-- The value of digits by their places, the most significant digit first.
pub place_value : List ℕ → ℕ
place_value [] = 0
place_value (d ∷ digits) = d * 10 ^ length digits + place_value digits

-- A text that no digit begins.
abbrev pub IsOver : List ℕ → Type 0
IsOver [] = Unit
IsOver (c ∷ text) = (leb 48 c && leb c 57) ≡ false

read_number-IsOver : (value : ℕ) (text : List ℕ) → IsOver text → read_number value text ≡ value
unfolding read_number
read_number-IsOver value [] e = refl
read_number-IsOver value (c ∷ text) e = rw e refl

-- Wrapping around in each round is wrapping around once.
wrap_once : (v d t p : ℕ) → u32 (u32 (u32 (v * 10) + d) * t + p) ≡ u32 (v * (t * 10) + (d * t + p))
wrap_once v d t p =
    let w = u32 (u32 (v * 10) + d) in
    let q = (v * 10 + d) / 2 ^ 32 in
    let whole : w + 2 ^ 32 * q ≡ v * 10 + d = omega arith in
    let times : (w + 2 ^ 32 * q) * t ≡ (v * 10 + d) * t = ap (λ x. x * t) whole in
    omega (arith, times)

digits_value :
    (v : ℕ) (digits text : List ℕ)
    → v < 2 ^ 32
    → All (λ d. d ≤ 9) digits
    → IsOver text
    → read_number v (map (λ d. 48 + d) digits ++ text)
      ≡ u32 (v * 10 ^ length digits + place_value digits)
unfolding read_number place_value
digits_value v [] text lt a e = read_number-IsOver v text e ∙ omega arith
digits_value v (d ∷ digits) text lt a e =
    let low : leb 48 (48 + d) ≡ true = ground arith in
    let high : leb (48 + d) 57 ≡ true = ground (arith, a.0) in
    let digit : (leb 48 (48 + d) && leb (48 + d) 57) ≡ true = rw (low, high) refl in
    let same : 48 + d - 48 ≡ d = omega arith in
    rw (digit, same, pow-suc 10 (length digits))
      (digits_value (u32 (u32 (v * 10) + d)) digits text (omega arith) a.1 e
        ∙ wrap_once v d (10 ^ length digits) (place_value digits))

-- Of decimal digits up to the end of the file or another character, the program reads the number that
-- they stand for, modulo 2 ^ 32.
pub read_number-place_value :
    (digits text : List ℕ)
    → All (λ d. d ≤ 9) digits
    → IsOver text
    → read_number 0 (map (λ d. 48 + d) digits ++ text) ≡ u32 (place_value digits)
read_number-place_value digits text a e =
    digits_value 0 digits text (omega arith) a e
    ∙ ap u32 {x = 0 * 10 ^ length digits + place_value digits} (omega arith)
