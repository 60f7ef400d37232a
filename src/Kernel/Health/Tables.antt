-- ===== src/Kernel/Health/Tables.antt =====
-- The four prediction tables: every counter stays below INM_MAX_COUNT, because the step that
-- reaches it halves all the tables.
use infnoise.Base.{
  ℕ, ◌+◌, ◌≤◌, ◌<◌, ◌≡◌, refl, Bool, true, false, arith, ◌∙◌, List, [], ◌∷◌, length, All, get_or,
  length-map, length-set, All-set, All-get_or, get_or-set_self, inc32,
}
use infnoise.Kernel.Const.{table_size, max_count}
use infnoise.Kernel.Health.{
  Health, halve_table, bump, full_at, scale_stats, scale_if, update_tables, zeros_of, ones_of,
}

abbrev pub AllBelow : ℕ → List ℕ → Type 0
AllBelow n t = All (λ c. c < n) t

pub record IsTable (n : ℕ) (t : List ℕ) : Type 0 where
  pub allocated : length t ≡ table_size
  pub below : AllBelow n t

-- Four allocated tables with counters below `n`, in the order of the fields of `Health`.
abbrev pub AreTables : ℕ → Health → Type 0
AreTables n h =
    IsTable n h.ones_even × IsTable n h.zeros_even × IsTable n h.ones_odd × IsTable n h.zeros_odd

-- The second state has the tables of the first.
pub record SameTables (h h' : Health) : Type 0 where
  pub ones_even : h'.ones_even ≡ h.ones_even
  pub zeros_even : h'.zeros_even ≡ h.zeros_even
  pub ones_odd : h'.ones_odd ≡ h.ones_odd
  pub zeros_odd : h'.zeros_odd ≡ h.zeros_odd

pub AreTables-SameTables :
    {n : ℕ} {h h' : Health} → SameTables h h' → AreTables n h → AreTables n h'
AreTables-SameTables s t =
    (rw s.ones_even t.0, rw s.zeros_even t.1, rw s.ones_odd t.2, rw s.zeros_odd t.3)

AllBelow-mono : (t : List ℕ) (m n : ℕ) → m ≤ n → AllBelow m t → AllBelow n t
AllBelow-mono [] m n le h = tt
AllBelow-mono (c ∷ t) m n le h = (omega arith, AllBelow-mono t m n le h.1)

IsTable-loose : {t : List ℕ} → IsTable max_count t → IsTable (max_count + 1) t
IsTable-loose {t} h = record {
  allocated = h.allocated;
  below = AllBelow-mono t max_count (max_count + 1) (omega arith) h.below;
}

halve-AllBelow : (t : List ℕ) → AllBelow (max_count + 1) t → AllBelow max_count (halve_table t)
unfolding halve_table
halve-AllBelow [] h = tt
halve-AllBelow (c ∷ t) h = (omega arith, halve-AllBelow t h.1)

halve-IsTable : {t : List ℕ} → IsTable (max_count + 1) t → IsTable max_count (halve_table t)
unfolding halve_table
halve-IsTable {t} h = record {
  allocated = length-map t _ ∙ h.allocated;
  below = halve-AllBelow t h.below;
}

bump-loose : {t : List ℕ} (i : ℕ) → IsTable max_count t → IsTable (max_count + 1) (bump t i)
unfolding bump
bump-loose {t} i h = record {
  allocated = length-set t i _ ∙ h.allocated;
  below =
      All-set (λ c. c < max_count + 1) t i _
        (omega (arith, All-get_or (λ c. c < max_count) t i 0 (omega arith) h.below))
        (IsTable-loose h).below;
}

-- A counter that does not reach the limit leaves the table within it.
bump-IsTable :
    {t : List ℕ} (i : ℕ)
    → i < table_size
    → IsTable max_count t
    → full_at (bump t i) i ≡ false
    → IsTable max_count (bump t i)
unfolding bump full_at
bump-IsTable {t} i lt h e = record {
  allocated = length-set t i _ ∙ h.allocated;
  below =
      All-set (λ c. c < max_count) t i _
        (ground (arith, get_or-set_self t i (inc32 (get_or t i 0)) 0, h.allocated)) h.below;
}

scale_if-AreTables :
    (reached : Bool) (h : Health)
    → AreTables (max_count + 1) h
    → (reached ≡ false → AreTables max_count h)
    → AreTables max_count (scale_if reached h)
unfolding scale_if scale_stats
scale_if-AreTables true h loose exact =
    (halve-IsTable loose.0, halve-IsTable loose.1, halve-IsTable loose.2, halve-IsTable loose.3)
scale_if-AreTables false h loose exact = exact refl

-- From four tables with counters below INM_MAX_COUNT and a context inside them, no counter reaches
-- INM_MAX_COUNT, whichever table the bit is counted in.
pub update_tables-AreTables :
    (h : Health) (even b : Bool)
    → h.prev_bits < table_size
    → AreTables max_count h
    → AreTables max_count (update_tables h even b)
unfolding update_tables
update_tables-AreTables h true true lt t =
    scale_if-AreTables _ (record h { ones_even = bump h.ones_even h.prev_bits })
      (bump-loose h.prev_bits t.0, IsTable-loose t.1, IsTable-loose t.2, IsTable-loose t.3)
      (λ e. (bump-IsTable h.prev_bits lt t.0 e, t.1, t.2, t.3))
update_tables-AreTables h false true lt t =
    scale_if-AreTables _ (record h { ones_odd = bump h.ones_odd h.prev_bits })
      (IsTable-loose t.0, IsTable-loose t.1, bump-loose h.prev_bits t.2, IsTable-loose t.3)
      (λ e. (t.0, t.1, bump-IsTable h.prev_bits lt t.2 e, t.3))
update_tables-AreTables h true false lt t =
    scale_if-AreTables _ (record h { zeros_even = bump h.zeros_even h.prev_bits })
      (IsTable-loose t.0, bump-loose h.prev_bits t.1, IsTable-loose t.2, IsTable-loose t.3)
      (λ e. (t.0, bump-IsTable h.prev_bits lt t.1 e, t.2, t.3))
update_tables-AreTables h false false lt t =
    scale_if-AreTables _ (record h { zeros_odd = bump h.zeros_odd h.prev_bits })
      (IsTable-loose t.0, IsTable-loose t.1, IsTable-loose t.2, bump-loose h.prev_bits t.3)
      (λ e. (t.0, t.1, t.2, bump-IsTable h.prev_bits lt t.3 e))

-- The counters of any context are below the limit.
pub counters-lt :
    (h : Health) (even : Bool)
    → AreTables max_count h
    → (zeros_of h even < max_count) × (ones_of h even < max_count)
unfolding zeros_of ones_of
counters-lt h true t = (
  All-get_or (λ c. c < max_count) h.zeros_even h.prev_bits 0 (omega arith) (t.1).below,
  All-get_or (λ c. c < max_count) h.ones_even h.prev_bits 0 (omega arith) (t.0).below,
)
counters-lt h false t = (
  All-get_or (λ c. c < max_count) h.zeros_odd h.prev_bits 0 (omega arith) (t.3).below,
  All-get_or (λ c. c < max_count) h.ones_odd h.prev_bits 0 (omega arith) (t.2).below,
)
