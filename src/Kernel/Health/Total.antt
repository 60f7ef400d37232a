-- ===== src/Kernel/Health/Total.antt =====
-- `infnoise_health_add_bit` returns on every input, and the operations of the health check keep
-- the invariant.
use infnoise.Base.{
  ◌<◌, ◌≡◌, refl, Bool, true, false, arith, if◌then◌else◌, inl, inr, Bool-cases, ap, ◌∙◌, sym, some,
  ◌&&◌, length-replicate, All-replicate,
}
use infnoise.Kernel.Const.{table_size, max_count}
use infnoise.Kernel.Health.{
  Health, init, free, vzalloc_table, reset, take_bit, measure, add_bit, clear_entropy,
}
use infnoise.Kernel.Health.Tables.{IsTable}
use infnoise.Kernel.Health.Invariant.{IsValid, take_bit-IsValid}
use infnoise.Kernel.Health.Measure.{Measured, measured}

abbrev pub selected : Bool → Bool → Bool → Bool
selected even_bit odd_bit even = if even then even_bit else odd_bit

module _ (h : Health) (even_bit odd_bit even : Bool) where
  pub add_bit-fault :
      (take_bit h even_bit odd_bit even).1 ≡ false
      → add_bit h even_bit odd_bit even ≡ some ((take_bit h even_bit odd_bit even).0, false)
  unfolding add_bit
  add_bit-fault e = ground arith

  pub add_bit-good :
      {h' : Health}
      → (take_bit h even_bit odd_bit even).1 ≡ true
      → measure (take_bit h even_bit odd_bit even).0 even (selected even_bit odd_bit even) ≡ some h'
      → add_bit h even_bit odd_bit even ≡ some (h', true)
  unfolding add_bit
  add_bit-good e m = ground arith

  -- From a valid state every call of `infnoise_health_add_bit` returns, whatever the comparators
  -- read, and leaves a valid state. It reports a fault exactly where the stuck-at test does.
  pub add_bit_total :
      IsValid h
      → (h' : Health) × (add_bit h even_bit odd_bit even
          ≡ some (h', (take_bit h even_bit odd_bit even).1))
        × IsValid h'
  add_bit_total v = elim (Bool-cases (take_bit h even_bit odd_bit even).1) [
    | inl good ↦
        (after.0, add_bit-good good after.1 ∙ ap (λ r. some (after.0, r)) (sym good), after.2.valid)
    | inr bad ↦ (
      (take_bit h even_bit odd_bit even).0,
      add_bit-fault bad ∙ ap (λ r. some ((take_bit h even_bit odd_bit even).0, r)) (sym bad),
      taken,
    )
  ]
    where
      taken : IsValid (take_bit h even_bit odd_bit even).0
      taken = take_bit-IsValid h even_bit odd_bit even v

      after :
          (h' : Health) × (measure
              (take_bit h even_bit odd_bit even).0
              even
              (selected even_bit odd_bit even)
            ≡ some h')
          × Measured (take_bit h even_bit odd_bit even).0 even (selected even_bit odd_bit even) h'
      after =
          measured (take_bit h even_bit odd_bit even).0 even (selected even_bit odd_bit even) taken

zeroed-IsTable : IsTable max_count (vzalloc_table true)
unfolding vzalloc_table
zeroed-IsTable = record {
  allocated = length-replicate table_size 0;
  below = All-replicate (λ c. c < max_count) table_size 0 (omega arith);
}

-- `infnoise_health_init` gives a valid state when the four allocations succeed. Otherwise it
-- reports failure and leaves no table allocated.
pub init-IsValid :
    (a b c d : Bool)
    → let (h, good) = init a b c d in
      (good ≡ (a && b && c && d)) × (good ≡ true → IsValid h) × (good ≡ false → (h ≡ free h))
unfolding init
init-IsValid true true true true = (
  refl,
  (λ _. ((zeroed-IsTable, zeroed-IsTable, zeroed-IsTable, zeroed-IsTable), omega arith)),
  λ e. cc,
)
init-IsValid true true true false = (refl, (λ e. cc), λ _. refl)
init-IsValid true true false d = (refl, (λ e. cc), λ _. refl)
init-IsValid true false c d = (refl, (λ e. cc), λ _. refl)
init-IsValid false b c d = (refl, (λ e. cc), λ _. refl)

-- `infnoise_health_reset` and `infnoise_health_clear_entropy` keep the invariant.
pub reset-IsValid : {h : Health} → IsValid h → IsValid (reset h)
unfolding reset
reset-IsValid v = (v.0, ground arith)

pub clear_entropy-IsValid : {h : Health} → IsValid h → IsValid (clear_entropy h)
unfolding clear_entropy
clear_entropy-IsValid v = (v.0, ground arith)
