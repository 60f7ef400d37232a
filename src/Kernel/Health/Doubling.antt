-- ===== src/Kernel/Health/Doubling.antt =====
-- The doubling loop of `infnoise_health_add_bit`: it stops, and what it leaves.
use native.Mathlib.Nat.{pow-suc}
use native.Mathlib.Decide.{dec_lt}
use infnoise.Base.{
  ℕ, zero, suc, ◌+◌, ◌*◌, ◌^◌, ◌≤◌, ◌<◌, ◌≡◌, arith, if◌then◌else◌, u32, some, ap, ◌∙◌,
}
use infnoise.Kernel.Const.{fp_one, fp_half}
use infnoise.Kernel.Health.{Health, count_entropy}

-- The state after `k` doublings.
abbrev pub doubled : Health → ℕ → Health
doubled h k = record h {
  current_prob = h.current_prob * 2 ^ k;
  num_bits_of_entropy = u32 (h.num_bits_of_entropy + k);
  entropy_level = if h.ok_to_use then u32 (h.entropy_level + k) else h.entropy_level;
}

-- `k` doublings take the probability `p` into the range (1/2, 1].
pub record Normalises (p k : ℕ) : Type 0 where
  pub above : fp_half < p * 2 ^ k
  pub within : p * 2 ^ k ≤ fp_one

count_entropy-stop :
    (fuel : ℕ) (h : Health) → fp_half < h.current_prob → count_entropy (suc fuel) h ≡ some h
unfolding count_entropy
count_entropy-stop fuel h lo = ground arith

twice_pow : (p k : ℕ) → p * 2 * 2 ^ k ≡ p * 2 ^ suc k
twice_pow p k = omega (arith, ap (λ (t : ℕ). p * t) (pow-suc 2 k))

step : Health → Health
step h = record h {
  current_prob = h.current_prob * 2;
  num_bits_of_entropy = u32 (h.num_bits_of_entropy + 1);
  entropy_level = if h.ok_to_use then u32 (h.entropy_level + 1) else h.entropy_level;
}

count_entropy-step :
    (fuel : ℕ) (h : Health)
    → h.current_prob ≤ fp_half
    → count_entropy (suc fuel) h ≡ count_entropy fuel (step h)
unfolding count_entropy step
count_entropy-step fuel h hi = ground arith

doubled-step : (h : Health) (k : ℕ) → doubled (step h) k ≡ doubled h (suc k)
unfolding step
doubled-step h k = ground (arith, twice_pow h.current_prob k)

doubled-zero :
    (h : Health) → h.num_bits_of_entropy < 2 ^ 32 → h.entropy_level < 2 ^ 32 → h ≡ doubled h 0
doubled-zero h lo hi = ground arith

-- What the loop leaves when it ends on `fuel + 1` rounds.
abbrev pub Stops : ℕ → Health → Type 0
Stops fuel h =
    (k : ℕ) × (count_entropy (suc fuel) h ≡ some (doubled h k)) × Normalises h.current_prob k

Stops-at_once :
    (fuel : ℕ) (h : Health)
    → h.current_prob ≤ fp_one
    → fp_half < h.current_prob
    → h.num_bits_of_entropy < 2 ^ 32
    → h.entropy_level < 2 ^ 32
    → Stops fuel h
Stops-at_once fuel h hi lo e l =
    (0, count_entropy-stop fuel h lo ∙ ap some (doubled-zero h e l), omega arith)

Stops-step :
    (fuel : ℕ) (h : Health) → h.current_prob ≤ fp_half → Stops fuel (step h) → Stops (suc fuel) h
unfolding step
Stops-step fuel h hi (k, runs, ends) = (
  suc k,
  count_entropy-step (suc fuel) h hi ∙ runs ∙ ap some (doubled-step h k),
  omega (arith, twice_pow h.current_prob k),
)

pub count_entropy-Stops :
    (fuel : ℕ) (h : Health)
    → h.current_prob ≤ fp_one
    → fp_half < h.current_prob * 2 ^ fuel
    → h.num_bits_of_entropy < 2 ^ 32
    → h.entropy_level < 2 ^ 32
    → Stops fuel h
unfolding step
count_entropy-Stops zero h hi enough e l = Stops-at_once zero h hi (omega arith) e l
count_entropy-Stops (suc fuel) h hi enough e l = elim (dec_lt fp_half h.current_prob) [
  | yes over ↦ Stops-at_once (suc fuel) h hi over e l
  | no under ↦ Stops-step fuel h (omega arith) (
      count_entropy-Stops fuel (step h) (omega arith) (omega (arith, twice_pow h.current_prob fuel))
        (omega arith) (ground arith))
]
