-- ===== src/Kernel/Health/History.antt =====
-- The context of a prediction, as a number made of the bits that came before.
use infnoise.Base.{
  ℕ, ◌+◌, ◌*◌, ◌%◌, ◌^◌, ◌<◌, ◌≡◌, refl, sym, Bool, true, false, arith, ap, ◌∙◌, some, inl, inr,
  Bool-cases, List, [], ◌∷◌, bit,
}
use infnoise.Kernel.Health.{
  Health, add_bit, take_bit, track_misfires, push_history, check_stuck, measure,
}
use infnoise.Kernel.Health.Invariant.{IsValid, take_bit-IsValid, next_prev_bits_lem}
use infnoise.Kernel.Health.Measure.{Measured, measured}
use infnoise.Kernel.Health.Total.{add_bit-fault, add_bit-good}
use infnoise.Kernel.Health.Faults.{Reading, value, feed, feed-good, feed-fault}

-- The context and the bit that comes after it, read as one binary number.
abbrev pub history : Health → ℕ
history h = 2 * h.prev_bits + bit h.prev_bit

-- The binary number of the bits of a sequence, behind those of `w`.
pub shift_in : ℕ → List Reading → ℕ
shift_in w [] = w
shift_in w (r ∷ rs) = shift_in (2 * w + bit (value r)) rs

bit-lt : (b : Bool) → bit b < 2
bit-lt true = omega arith
bit-lt false = omega arith

take_bit-history :
    (h : Health) (r : Reading)
    → IsValid h
    → history (take_bit h r.even_bit r.odd_bit r.even).0 ≡ (2 * history h + bit (value r)) % 2 ^ 15
unfolding take_bit track_misfires push_history check_stuck
take_bit-history h r v = ground (arith, next_prev_bits_lem h.prev_bits h.prev_bit v.1.context)

shift_in_mod :
    (w : ℕ) (rs : List Reading) → shift_in (w % 2 ^ 15) rs % 2 ^ 15 ≡ shift_in w rs % 2 ^ 15
unfolding shift_in
shift_in_mod w [] = omega arith
shift_in_mod w (r ∷ rs) =
    sym (shift_in_mod (2 * (w % 2 ^ 15) + bit (value r)) rs)
    ∙ ap (λ (t : ℕ). shift_in t rs % 2 ^ 15) (omega arith)
    ∙ shift_in_mod (2 * w + bit (value r)) rs

-- One call that reports no fault.
record Advances (h : Health) (r : Reading) (h' : Health) : Type 0 where
  returns : add_bit h r.even_bit r.odd_bit r.even ≡ some (h', true)
  valid : IsValid h'
  shifted : history h' ≡ (2 * history h + bit (value r)) % 2 ^ 15

add_bit-Advances :
    (h : Health) (r : Reading)
    → IsValid h
    → (take_bit h r.even_bit r.odd_bit r.even).1 ≡ true
    → (h' : Health) × Advances h r h'
add_bit-Advances h r v good = (
  after.0,
  record {
    returns = add_bit-good h r.even_bit r.odd_bit r.even good after.1;
    valid = after.2.valid;
    shifted = ground (arith, take_bit-history h r v, after.2.prev_bits, after.2.prev_bit);
  },
)
  where
    h1 : Health
    h1 = (take_bit h r.even_bit r.odd_bit r.even).0

    after :
        (h' : Health) × (measure h1 r.even (value r) ≡ some h') × Measured h1 r.even (value r) h'
    after = measured h1 r.even (value r) (take_bit-IsValid h r.even_bit r.odd_bit r.even v)

-- Where a sequence of calls ends, and what it leaves.
pub record Fed (h : Health) (rs : List Reading) (h' : Health) (good : Bool) : Type 0 where
  pub returns : feed h rs ≡ some (h', good)
  pub valid : IsValid h'
  pub context : good ≡ true → history h' ≡ shift_in (history h) rs % 2 ^ 15

Fed-cons :
    (h : Health) (r : Reading) (rs : List Reading) {h1 h' : Health} {good : Bool}
    → Advances h r h1
    → Fed h1 rs h' good
    → Fed h (r ∷ rs) h' good
unfolding shift_in
Fed-cons h r rs {h1} a f = record {
  returns = feed-good h r rs a.returns ∙ f.returns;
  valid = f.valid;
  context = λ g.
      f.context g
      ∙ ap (λ (t : ℕ). shift_in t rs % 2 ^ 15) a.shifted
      ∙ shift_in_mod (2 * history h + bit (value r)) rs;
}

-- Every sequence of calls returns, from every valid state, and leaves a valid state. After a
-- sequence with no fault the context and the previous bit are the last fifteen bits, in order.
pub feed-Fed :
    (rs : List Reading) (h : Health) → IsValid h → (h' : Health) × (good : Bool) × Fed h rs h' good
feed-Fed [] h v = (
  h,
  true,
  record {
    returns = unfold feed in refl;
    valid = v;
    context = λ _. unfold shift_in in omega (arith, v.1.context, bit-lt h.prev_bit);
  },
)
feed-Fed (r ∷ rs) h v = elim (Bool-cases (take_bit h r.even_bit r.odd_bit r.even).1) [
  | inl good ↦
      let first = add_bit-Advances h r v good in
      let rest = feed-Fed rs first.0 first.1.valid in
      (rest.0, rest.1, Fed-cons h r rs first.1 rest.2)
  | inr bad ↦ (
    (take_bit h r.even_bit r.odd_bit r.even).0,
    false,
    record {
      returns = feed-fault h r rs (add_bit-fault h r.even_bit r.odd_bit r.even bad);
      valid = take_bit-IsValid h r.even_bit r.odd_bit r.even v;
      context = λ e. cc;
    },
  )
]
