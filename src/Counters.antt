-- ===== src/Counters.antt =====
-- Tables of counters that are halved together: the arrays of the prediction statistics in user
-- space, of any size and with any limit.
use infnoise.Base.{
  ℕ, ◌+◌, ◌^◌, ◌<◌, ◌≡◌, ◌∙◌, Bool, false, arith, List, [], ◌∷◌, map, length, All, set, get_or,
  replicate, length-map, length-set, length-replicate, All-set, All-get_or, All-replicate,
  get_or-set_self, inc32, ◌>>>◌, ◌==◌,
}

-- `table[i]++`
unfoldable pub bump : List ℕ → ℕ → List ℕ
bump table i = set table i (inc32 (get_or table i 0))

-- `table[i] >>= 1u` for every index.
unfoldable pub halve : List ℕ → List ℕ
halve table = map (λ count. count >>> 1) table

-- `table[i] == limit`
unfoldable pub reaches : ℕ → List ℕ → ℕ → Bool
reaches limit table i = get_or table i 0 == limit

-- A table of `size` counters, all below `limit`.
pub record IsTable (size limit : ℕ) (table : List ℕ) : Type 0 where
  pub allocated : length table ≡ size
  pub below : All (λ count. count < limit) table

All-below_loose :
    (limit : ℕ) (table : List ℕ) → All (λ c. c < limit) table → All (λ c. c < limit + 1) table
All-below_loose limit [] h = tt
All-below_loose limit (c ∷ table) h = (omega arith, All-below_loose limit table h.1)

All-halve :
    (limit : ℕ) (table : List ℕ)
    → 1 < limit
    → All (λ c. c < limit + 1) table
    → All (λ c. c < limit) (halve table)
unfolding halve
All-halve limit [] lt h = tt
All-halve limit (c ∷ table) lt h = (omega arith, All-halve limit table lt h.1)

module _ {size limit : ℕ} where
  pub zeroed-IsTable : 0 < limit → IsTable size limit (replicate size 0)
  zeroed-IsTable pos = record {
    allocated = length-replicate size 0;
    below = All-replicate (λ c. c < limit) size 0 pos;
  }

  pub IsTable-loose : {table : List ℕ} → IsTable size limit table → IsTable size (limit + 1) table
  IsTable-loose {table} t = record {
    allocated = t.allocated;
    below = All-below_loose limit table t.below;
  }

  pub halve-IsTable :
      {table : List ℕ}
      → 1 < limit
      → IsTable size (limit + 1) table
      → IsTable size limit (halve table)
  unfolding halve
  halve-IsTable {table} lt t = record {
    allocated = length-map table _ ∙ t.allocated;
    below = All-halve limit table lt t.below;
  }

  pub get_or-IsTable :
      {table : List ℕ} (i : ℕ) → 0 < limit → IsTable size limit table → get_or table i 0 < limit
  get_or-IsTable {table} i pos t = All-get_or (λ c. c < limit) table i 0 pos t.below

  -- A counter that grows by one at a time and starts below the limit cannot pass it.
  pub bump-loose :
      {table : List ℕ} (i : ℕ)
      → 0 < limit
      → IsTable size limit table
      → IsTable size (limit + 1) (bump table i)
  unfolding bump
  bump-loose {table} i pos t = record {
    allocated = length-set table i _ ∙ t.allocated;
    below =
        All-set (λ c. c < limit + 1) table i _
          (omega (arith, get_or-IsTable {table = table} i pos t))
          (IsTable-loose {table = table} t).below;
  }

  pub bump-IsTable :
      {table : List ℕ} (i : ℕ)
      → 0 < limit
      → i < size
      → limit < 2 ^ 32
      → IsTable size limit table
      → reaches limit (bump table i) i ≡ false
      → IsTable size limit (bump table i)
  unfolding bump reaches
  bump-IsTable {table} i pos lt small t e = record {
    allocated = length-set table i _ ∙ t.allocated;
    below =
        All-set (λ c. c < limit) table i _
          (ground (
            arith,
            get_or-set_self table i (inc32 (get_or table i 0)) 0,
            t.allocated,
            All-get_or (λ c. c < limit) table i 0 pos t.below,
          ))
          t.below;
  }
