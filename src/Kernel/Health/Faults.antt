-- ===== src/Kernel/Health/Faults.antt =====
-- The stuck-at test over a sequence of bits: when a run of equal bits is reported.
use native.Mathlib.Decide.{dec_lt}
use infnoise.Base.{
  ◌∙◌, ap, ℕ, ◌+◌, ◌≤◌, ◌<◌, ◌≡◌, Bool, true, false, arith, ltb, leb, if◌then◌else◌, Option, none,
  some, List, [], ◌∷◌, length, All, inc32, not,
}
use infnoise.Kernel.Const.{min_sample_size, max_sequence}
use infnoise.Kernel.Health.{
  Health, add_bit, take_bit, track_misfires, push_history, check_stuck, measure,
}
use infnoise.Kernel.Health.Invariant.{IsValid, take_bit-IsValid}
use infnoise.Kernel.Health.Measure.{Measured, measured}
use infnoise.Kernel.Health.Total.{selected, add_bit-fault, add_bit-good}

-- What the two comparators read, and the phase of the clock.
pub record Reading : Type 0 where
  pub even_bit : Bool
  pub odd_bit : Bool
  pub even : Bool

abbrev pub value : Reading → Bool
value r = selected r.even_bit r.odd_bit r.even

-- The calls of `infnoise_health_add_bit` on a sequence of readings, up to the first that fails.
unfoldable pub feed : Health → List Reading → Option (Health × Bool)
feed h [] = some (h, true)
feed h (r ∷ rs) = elim (add_bit h r.even_bit r.odd_bit r.even) [
  | none ↦ none
  | some (h', good) ↦ elim good [ true ↦ feed h' rs | false ↦ some (h', false) ]
]

-- The length of the current run of the value `b`.
abbrev pub run_of : Bool → Health → ℕ
run_of b h = if b then h.seq_ones else h.seq_zeros

record Taken (h : Health) (b : Bool) (out : Health × Bool) : Type 0 where
  result : out.1 ≡ not (ltb max_sequence (inc32 (run_of b h)))
  run : run_of b out.0 ≡ inc32 (run_of b h)
  sampled : out.0.num_bits_sampled ≡ h.num_bits_sampled

take_bit-Taken :
    (h : Health) (b : Bool) (r : Reading)
    → value r ≡ b
    → min_sample_size < h.num_bits_sampled
    → Taken h b (take_bit h r.even_bit r.odd_bit r.even)
unfolding take_bit track_misfires push_history check_stuck
take_bit-Taken h b r e lt = ground arith

-- The state can judge a run of `b`: enough samples, and the run is of at most twenty bits.
pub record Judges (b : Bool) (h : Health) : Type 0 where
  pub valid : IsValid h
  pub enough : min_sample_size < h.num_bits_sampled
  pub short : run_of b h ≤ max_sequence

Measured-run :
    (b : Bool) {h h' : Health} {even v : Bool} → Measured h even v h' → run_of b h' ≡ run_of b h
Measured-run true m = m.seq_ones
Measured-run false m = m.seq_zeros

Measured-enough :
    {h h' : Health} {even v : Bool}
    → Measured h even v h'
    → min_sample_size < h.num_bits_sampled
    → min_sample_size < h'.num_bits_sampled
Measured-enough m lt = ground (arith, m.sampled)

module _ (b : Bool) (h : Health) (r : Reading) (j : Judges b h) (e : value r ≡ b) where
  pub add_bit_run_ends :
      run_of b h ≡ max_sequence
      → (h' : Health) × (add_bit h r.even_bit r.odd_bit r.even ≡ some (h', false))
  add_bit_run_ends m = (
    (take_bit h r.even_bit r.odd_bit r.even).0,
    add_bit-fault h r.even_bit r.odd_bit r.even (ground (arith, take_bit-Taken h b r e j.enough)),
  )

  pub add_bit_run_grows :
      run_of b h < max_sequence
      → (h' : Health) × (add_bit h r.even_bit r.odd_bit r.even ≡ some (h', true))
        × Judges b h'
        × (run_of b h' ≡ run_of b h + 1)
  add_bit_run_grows m = (
    after.0,
    add_bit-good h r.even_bit r.odd_bit r.even (ground (arith, taken)) after.1,
    record {
      valid = after.2.valid;
      enough = Measured-enough after.2 (omega (arith, taken.sampled, j.enough));
      short = omega (arith, Measured-run b after.2, taken.run);
    },
    omega (arith, Measured-run b after.2, taken.run),
  )
    where
      h1 : Health
      h1 = (take_bit h r.even_bit r.odd_bit r.even).0

      taken : Taken h b (take_bit h r.even_bit r.odd_bit r.even)
      taken = take_bit-Taken h b r e j.enough

      after :
          (h' : Health) × (measure h1 r.even (value r) ≡ some h') × Measured h1 r.even (value r) h'
      after = measured h1 r.even (value r) (take_bit-IsValid h r.even_bit r.odd_bit r.even j.valid)

pub feed-fault :
    (h : Health) (r : Reading) (rs : List Reading) {h' : Health}
    → add_bit h r.even_bit r.odd_bit r.even ≡ some (h', false)
    → feed h (r ∷ rs) ≡ some (h', false)
unfolding feed
feed-fault h r rs e = rw (e, feed)

pub feed-good :
    (h : Health) (r : Reading) (rs : List Reading) {h' : Health}
    → add_bit h r.even_bit r.odd_bit r.even ≡ some (h', true)
    → feed h (r ∷ rs) ≡ feed h' rs
unfolding feed
feed-good h r rs e = rw (e, feed)

-- In a valid state with more than 100 samples and a run of at most twenty bits, a stretch of equal
-- bits is reported as a stuck-at fault exactly when it takes their run over twenty, counting the
-- run that was going on before it.
pub feed_stretch :
    (b : Bool) (rs : List Reading) (h : Health)
    → Judges b h
    → All (λ r. value r ≡ b) rs
    → (h' : Health) × (feed h rs ≡ some (h', leb (run_of b h + length rs) max_sequence))
feed_stretch b [] h j all = (h, unfold feed in ground (arith, j.short))
feed_stretch b (r ∷ rs) h j all = elim (dec_lt (run_of b h) max_sequence) [
  | yes more ↦
      let grown = add_bit_run_grows b h r j all.0 more in
      let rest = feed_stretch b rs grown.0 grown.2 all.1 in
      (
        rest.0,
        feed-good h r rs grown.1
            ∙ rest.1
            ∙ ap (λ (n : ℕ). some (rest.0, leb n max_sequence)) (omega (arith, grown.3)),
      )
  | no over ↦
      let ended = add_bit_run_ends b h r j all.0 (omega (arith, j.short)) in
      (
        ended.0,
        feed-fault h r rs ended.1 ∙ ap (λ (t : Bool). some (ended.0, t)) (ground (arith, j.short)),
      )
]
