-- ===== src/Tools/Dice/Ranges.antt =====
-- The rolls of a die end, and are in range.
use infnoise.Base.{
  ℕ, zero, suc, ◌+◌, ◌*◌, ◌^◌, ◌≤◌, ◌<◌, ◌≡◌, ◌⊎◌, inl, inr, refl, sym, subst, ◌∙◌, Bool, true,
  false, List, [], ◌∷◌, Option, some, leb, map, length, arith, Bool-cases, All, length-map, ap,
}
use infnoise.Tools.Dice.{Roll, next_value, gather, roll_die, draws, roll_dice, password}

-- A loop ends: the data has run out, or the value is as `P` says and at most `left` bytes are left.
pub Draws : (ℕ → Type 0) → ℕ → Option Roll → Type 0
Draws P left r =
    (r ≡ some Roll.ran_out)
    ⊎ ((value : ℕ) × (rest : List ℕ) × (r ≡ some (Roll.rolled value rest))
        × P value
        × (length rest ≤ left))

Draws-weaken :
    (P : ℕ → Type 0) (j k : ℕ) (r r' : Option Roll) → j ≤ k → r' ≡ r → Draws P j r → Draws P k r'
unfolding Draws
Draws-weaken P j k r r' le same (inl e) = inl (same ∙ e)
Draws-weaken P j k r r' le same (inr d) = inr (d.0, d.1, same ∙ d.2, d.3, omega (arith, d.4))

next_value-length : (value : ℕ) (file : List ℕ) → length (next_value value file).1 ≤ length file
unfolding next_value
next_value-length value [] = omega arith
next_value-length value (c ∷ file) = omega arith

gather-step :
    (fuel sides k value c : ℕ) (rest : List ℕ)
    → leb (2 ^ (8 * k)) sides ≡ true
    → gather (suc fuel) sides k value (c ∷ rest)
      ≡ gather fuel sides (k + 1) (next_value value rest).0 (next_value value rest).1
unfolding gather
gather-step fuel sides k value c rest e = rw (gather, e) refl

gather-Draws :
    (fuel sides k m value : ℕ) (file : List ℕ)
    → m ≡ k + fuel
    → sides < 2 ^ (8 * m)
    → Draws (λ v. Unit {0}) (length file) (gather (suc fuel) sides k value file)
unfolding gather Draws
gather-Draws fuel sides k m value [] e lt = elim (Bool-cases (leb (2 ^ (8 * k)) sides)) [
  | inl on ↦ rw on (inl refl)
  | inr off ↦ rw off (inr (value, [], refl, tt, omega arith))
]
gather-Draws zero sides k m value (c ∷ rest) e lt =
    let same : k ≡ m = omega arith in
    let off : leb (2 ^ (8 * k)) sides ≡ false =
      subst (λ t. leb (2 ^ (8 * t)) sides ≡ false) (sym same) (ground arith) in
    rw off (inr (value, c ∷ rest, refl, tt, omega arith))
gather-Draws (suc fuel) sides k m value (c ∷ rest) e lt =
    elim (Bool-cases (leb (2 ^ (8 * k)) sides)) [
      | inl on ↦
          let next = next_value value rest in
          Draws-weaken (λ v. Unit {0}) (length next.1) (length (c ∷ rest))
            (gather (suc fuel) sides (k + 1) next.0 next.1)
            (gather (suc (suc fuel)) sides k value (c ∷ rest))
            (omega (arith, next_value-length value rest))
            (gather-step (suc fuel) sides k value c rest on)
            (gather-Draws fuel sides (k + 1) m next.0 next.1 (omega arith) lt)
      | inr off ↦ rw off (inr (value, c ∷ rest, refl, tt, omega arith))
    ]

-- A draw reads at least two bytes, or one if it is the last.
first-Draws :
    (sides c : ℕ) (rest : List ℕ)
    → 0 < sides
    → sides < 2 ^ 24
    → Draws (λ v. Unit {0}) (length rest) (gather 4 sides 0 0 (c ∷ rest))
first-Draws sides c rest pos small =
    let on : leb (2 ^ (8 * 0)) sides ≡ true = ground arith in
    let next = next_value 0 rest in
    Draws-weaken (λ v. Unit {0}) (length next.1) (length rest) (gather 3 sides 1 next.0 next.1)
      (gather 4 sides 0 0 (c ∷ rest)) (next_value-length 0 rest) (gather-step 3 sides 0 0 c rest on)
      (gather-Draws 2 sides 1 3 next.0 next.1 refl small)

-- A die of fewer than 2 ^ 24 sides: with fuel for one round more than the file has bytes the roll
-- ends, because the data has run out or with a value below the number of sides.
pub roll_die-Draws :
    (fuel sides : ℕ) (file : List ℕ)
    → 0 < sides
    → sides < 2 ^ 24
    → length file < fuel
    → Draws (λ value. value < sides) (length file) (roll_die fuel sides file)
unfolding roll_die Draws gather
roll_die-Draws zero sides file pos small lt = absurd (omega arith)
roll_die-Draws (suc fuel) sides [] pos small lt =
    let on : leb (2 ^ (8 * 0)) sides ≡ true = ground arith in inl (rw (roll_die, gather, on) refl)
roll_die-Draws (suc fuel) sides (c ∷ rest) pos small lt =
    elim (first-Draws sides c rest pos small) [
      | inl ran ↦ inl (rw (roll_die, ran) refl)
      | inr (value, left, e, t, le) ↦ elim (Bool-cases (leb sides value)) [
        | inr below ↦ inr (value, left, rw (roll_die, e, below) refl, ground arith, omega arith)
        | inl above ↦
            Draws-weaken (λ v. v < sides) (length left) (length (c ∷ rest))
              (roll_die fuel sides left) (roll_die (suc fuel) sides (c ∷ rest)) (omega arith)
              (rw (roll_die, e, above) refl)
              (roll_die-Draws fuel sides left pos small (omega arith))
      ]
    ]

-- The rolls of a program return: values that are as `P` says, all of them unless the data has run
-- out.
pub record Rolled (P : ℕ → Type 0) (count : ℕ) (r : Option (List ℕ × Bool)) : Type 0 where
  pub values : List ℕ
  pub lasted : Bool
  pub returns : r ≡ some (values, lasted)
  pub in_range : All P values
  pub complete : (lasted ≡ false) ⊎ (length values ≡ count)

Rolled-later :
    (P : ℕ → Type 0) (left sides value : ℕ) (file rest : List ℕ)
    → roll_die (length file + 1) sides file ≡ some (Roll.rolled value rest)
    → P value
    → Rolled P left (draws left sides rest)
    → Rolled P (suc left) (draws (suc left) sides file)
unfolding draws
Rolled-later P left sides value file rest e p r = record {
  values = value ∷ r.values;
  lasted = r.lasted;
  returns = rw (draws, e, r.returns) refl;
  in_range = (p, r.in_range);
  complete = elim r.complete [ inl short ↦ inl short | inr all ↦ inr (ap suc all) ];
}

draws-Rolled :
    (left sides : ℕ) (file : List ℕ)
    → 0 < sides
    → sides < 2 ^ 24
    → Rolled (λ v. v < sides) left (draws left sides file)
unfolding draws Draws
draws-Rolled zero sides file pos small = record {
  values = [];
  lasted = true;
  returns = refl;
  in_range = tt;
  complete = inr refl;
}
draws-Rolled (suc left) sides file pos small =
    elim (roll_die-Draws (length file + 1) sides file pos small (omega arith)) [
      | inl ran ↦ record {
        values = [];
        lasted = false;
        returns = rw (draws, ran) refl;
        in_range = tt;
        complete = inl refl;
      }
      | inr (value, rest, e, below, le) ↦
          Rolled-later (λ v. v < sides) left sides value file rest e below
            (draws-Rolled left sides rest pos small)
    ]

All-map :
    (P Q : ℕ → Type 0) (f : ℕ → ℕ) (values : List ℕ)
    → ((v : ℕ) → P v → Q (f v))
    → All P values
    → All Q (map f values)
All-map P Q f [] h a = tt
All-map P Q f (v ∷ values) h a = (h v a.0, All-map P Q f values h a.1)

-- Dice of one to 2 ^ 24 - 1 sides: the program returns, and what it prints are numbers from 1 to the
-- number of sides, one for each die unless the data has run out.
pub roll_dice-Rolled :
    (dice sides : ℕ) (file : List ℕ)
    → 0 < sides
    → sides < 2 ^ 24
    → Rolled (λ v. (0 < v) × (v ≤ sides)) dice (roll_dice dice sides file)
unfolding roll_dice
roll_dice-Rolled dice sides file pos small =
    let r = draws-Rolled dice sides file pos small in
    record {
      values = map (λ value. value + 1) r.values;
      lasted = r.lasted;
      returns = rw (roll_dice, r.returns) refl;
      in_range =
          All-map (λ v. v < sides) (λ v. (0 < v) × (v ≤ sides)) (λ v. v + 1) r.values
            (λ v lt. (omega arith, omega arith)) r.in_range;
      complete = elim r.complete [
        | inl short ↦ inl short
        | inr all ↦ inr (length-map r.values (λ v. v + 1) ∙ all)
      ];
    }

-- The password generator returns, and what it prints are characters with codes from 97 to 128, one
-- for each key unless the data has run out.
pub password-Rolled :
    (keys : ℕ) (file : List ℕ) → Rolled (λ c. (97 ≤ c) × (c ≤ 128)) keys (password keys file)
unfolding password
password-Rolled keys file =
    let r = draws-Rolled keys 32 file (omega arith) (omega arith) in
    record {
      values = map (λ value. 97 + value) r.values;
      lasted = r.lasted;
      returns = rw (password, r.returns) refl;
      in_range =
          All-map (λ v. v < 32) (λ c. (97 ≤ c) × (c ≤ 128)) (λ v. 97 + v) r.values
            (λ v lt. (omega arith, omega arith)) r.in_range;
      complete = elim r.complete [
        | inl short ↦ inl short
        | inr all ↦ inr (length-map r.values (λ v. 97 + v) ∙ all)
      ];
    }
