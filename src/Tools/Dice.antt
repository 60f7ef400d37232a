-- ===== src/Tools/Dice.antt =====
-- software/tools/dice.c and software/tools/passgen.c: `rollDie`, which both have. The file is a list
-- of bytes.
pub mod Ranges
use infnoise.Base.{
  ℕ, zero, suc, ◌+◌, ◌-◌, ◌*◌, ◌/◌, ◌%◌, ◌^◌, ◌≤◌, ◌<◌, ◌≡◌, ◌⊎◌, inl, inr, refl, sym, subst, ◌∙◌,
  Bool, true, false, List, [], ◌∷◌, Option, none, some, u32, bit_or, ◌<<<◌, leb, map, if◌then◌else◌,
  length, arith, Bool-cases, All, length-map, ap,
}

-- The end of the data, or a value and the rest of the file.
pub data Roll : Type 0 where
  ran_out : Roll
  rolled : ℕ → List ℕ → Roll

-- `randVal = (randVal << 8u) | getc(file)` after the byte that is only tested for the end; at the end
-- of the file the second call yields -1.
unfoldable pub next_value : ℕ → List ℕ → ℕ × List ℕ
next_value value [] = (bit_or (u32 (value <<< 8)) (2 ^ 32 - 1), [])
next_value value (c ∷ file) = (bit_or (u32 (value <<< 8)) c, file)

-- The inner loop from `num_bytes` on. Its condition shifts by less than 32 for `sides` below
-- `2 ^ 24`.
unfoldable pub gather : ℕ → ℕ → ℕ → ℕ → List ℕ → Option Roll
gather zero sides num_bytes value file = none
gather (suc fuel) sides num_bytes value file =
    if leb (2 ^ (8 * num_bytes)) sides
    then elim file [
      | [] ↦ some Roll.ran_out
      | c ∷ rest ↦
          gather fuel sides (num_bytes + 1) (next_value value rest).0 (next_value value rest).1
    ]
    else some (Roll.rolled value file)

-- `rollDie`: values are drawn until one is below `sides`.
unfoldable pub roll_die : ℕ → ℕ → List ℕ → Option Roll
roll_die zero sides file = none
roll_die (suc fuel) sides file = elim (gather 4 sides 0 0 file) [
  | none ↦ none
  | some Roll.ran_out ↦ some Roll.ran_out
  | some (Roll.rolled value rest) ↦
      if leb sides value then roll_die fuel sides rest else some (Roll.rolled value rest)
]

-- The rolls of one of the main programs, and whether the data has lasted. A call gets fuel for one
-- round more than the file has bytes.
unfoldable pub draws : ℕ → ℕ → List ℕ → Option (List ℕ × Bool)
draws zero sides file = some ([], true)
draws (suc left) sides file = elim (roll_die (length file + 1) sides file) [
  | none ↦ none
  | some Roll.ran_out ↦ some ([], false)
  | some (Roll.rolled value rest) ↦ elim (draws left sides rest) [
    | none ↦ none
    | some (values, lasted) ↦ some ((value ∷ values), lasted)
  ]
]

-- dice.c: the numbers that are printed.
unfoldable pub roll_dice : ℕ → ℕ → List ℕ → Option (List ℕ × Bool)
roll_dice dice sides file = elim (draws dice sides file) [
  | none ↦ none
  | some (values, lasted) ↦ some (map (λ value. value + 1) values, lasted)
]

-- passgen.c: the characters that are printed.
unfoldable pub password : ℕ → List ℕ → Option (List ℕ × Bool)
password keys file = elim (draws keys 32 file) [
  | none ↦ none
  | some (values, lasted) ↦ some (map (λ value. 97 + value) values, lasted)
]
