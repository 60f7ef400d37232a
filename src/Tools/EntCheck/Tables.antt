-- ===== src/Tools/EntCheck/Tables.antt =====
-- The tables of all streams.
use infnoise.Base.{
  ℕ, zero, suc, ◌+◌, ◌^◌, ◌<◌, ◌≡◌, ◌∙◌, false, List, [], ◌∷◌, map, All, length, length-set,
  length-map, All-set, get_or, set, arith,
}
use infnoise.Counters.{
  IsTable, bump, halve, reaches, IsTable-loose, halve-IsTable, get_or-IsTable, bump-loose,
  bump-IsTable,
}

-- One table for each stream, of `2 ^ n` counters below `limit`.
pub record AreTables (n streams limit : ℕ) (tables : List (List ℕ)) : Type 0 where
  pub allocated : length tables ≡ streams
  pub each : All (λ t. IsTable (2 ^ n) limit t) tables

All-get :
    {A : Type 0} (P : A → Type 0) (xs : List A) (i : ℕ) (d : A)
    → i < length xs
    → All P xs
    → P (get_or xs i d)
All-get P [] i d lt a = absurd (omega arith)
All-get P (x ∷ xs) zero d lt a = a.0
All-get P (x ∷ xs) (suc i) d lt a = All-get P xs i d (omega arith) a.1

All-loose :
    (n limit : ℕ) (tables : List (List ℕ))
    → All (λ t. IsTable (2 ^ n) limit t) tables
    → All (λ t. IsTable (2 ^ n) (limit + 1) t) tables
All-loose n limit [] a = tt
All-loose n limit (t ∷ tables) a = (IsTable-loose a.0, All-loose n limit tables a.1)

All-halve :
    (n limit : ℕ) (tables : List (List ℕ))
    → 1 < limit
    → All (λ t. IsTable (2 ^ n) (limit + 1) t) tables
    → All (λ t. IsTable (2 ^ n) limit t) (map halve tables)
All-halve n limit [] lt a = tt
All-halve n limit (t ∷ tables) lt a = (halve-IsTable lt a.0, All-halve n limit tables lt a.1)

module _ {n streams limit : ℕ} (tables : List (List ℕ)) where
  pub loose-AreTables : AreTables n streams limit tables → AreTables n streams (limit + 1) tables
  loose-AreTables a = record { allocated = a.allocated; each = All-loose n limit tables a.each }

  pub halve-AreTables :
      1 < limit
      → AreTables n streams (limit + 1) tables
      → AreTables n streams limit (map halve tables)
  halve-AreTables lt a = record {
    allocated = length-map tables halve ∙ a.allocated;
    each = All-halve n limit tables lt a.each;
  }

  module _ (stream i : ℕ) where
    pub bumped-loose :
        0 < limit
        → stream < streams
        → AreTables n streams limit tables
        → AreTables n streams (limit + 1) (set tables stream (bump (get_or tables stream []) i))
    bumped-loose pos lt a = record {
      allocated = length-set tables stream _ ∙ a.allocated;
      each =
          All-set (λ t. IsTable (2 ^ n) (limit + 1) t) tables stream _
            (bump-loose i pos (
              All-get (λ t. IsTable (2 ^ n) limit t) tables stream [] (omega (arith, a.allocated))
                a.each))
            (All-loose n limit tables a.each);
    }

    pub bumped-AreTables :
        0 < limit
        → stream < streams
        → i < 2 ^ n
        → limit < 2 ^ 32
        → AreTables n streams limit tables
        → reaches limit (bump (get_or tables stream []) i) i ≡ false
        → AreTables n streams limit (set tables stream (bump (get_or tables stream []) i))
    bumped-AreTables pos lt inside small a e = record {
      allocated = length-set tables stream _ ∙ a.allocated;
      each =
          All-set (λ t. IsTable (2 ^ n) limit t) tables stream _
            (bump-IsTable i pos inside small
              (All-get (λ t. IsTable (2 ^ n) limit t) tables stream [] (omega (arith, a.allocated))
                a.each)
              e)
            a.each;
    }

    pub count_below :
        0 < limit
        → stream < streams
        → AreTables n streams limit tables
        → get_or (get_or tables stream []) i 0 < limit
    count_below pos lt a = get_or-IsTable i pos (
        All-get (λ t. IsTable (2 ^ n) limit t) tables stream [] (omega (arith, a.allocated)) a.each)
