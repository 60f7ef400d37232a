-- ===== src/Tools/Tests.antt =====
-- The tools on concrete inputs.
use infnoise.Base.{ℕ, ◌*◌, ◌≡◌, ◌<◌, ◌≤◌, Bool, true, false, List, [], ◌∷◌, length, some, arith}
use infnoise.Tools.Dice.{roll_dice}
use infnoise.Tools.Dice.Ranges.{Rolled, roll_dice-Rolled}
use infnoise.Tools.EntCheck.{Ending, main}
use infnoise.Tools.EntCheck.Main.{IsSound, main-IsSound}
use infnoise.Userspace.Fractions.{fractions, fractions-AreLaws}
use infnoise.Userspace.Options.{Text}
use infnoise.Userspace.Steps.{Code}
use infnoise.Tools.Hex.{bin2hex, hex2bin, hex2bin-bin2hex}

hex2bin-bin2hex_example : hex2bin 4 (bin2hex 62 (0 ∷ 255 ∷ 0x5a ∷ [])) ≡ some (0 ∷ 255 ∷ 0x5a ∷ [])
hex2bin-bin2hex_example =
    hex2bin-bin2hex (0 ∷ 255 ∷ 0x5a ∷ []) 62 4 (omega arith, (omega arith, (omega arith, tt)))
      (omega arith)

roll_dice-Rolled_example :
    Rolled (λ v. (0 < v) × (v ≤ 6)) 3 (roll_dice 3 6 (9 ∷ 4 ∷ 9 ∷ 200 ∷ 9 ∷ 0 ∷ 9 ∷ 5 ∷ []))
roll_dice-Rolled_example =
    roll_dice-Rolled 3 6 (9 ∷ 4 ∷ 9 ∷ 200 ∷ 9 ∷ 0 ∷ 9 ∷ 5 ∷ []) (omega arith) (omega arith)

-- The context is one bit, and the tables are those of two streams.
abbrev argument : List Text
argument = (45 ∷ 78 ∷ []) ∷ (49 ∷ []) ∷ []

abbrev strokes : Text → Code
strokes text = Code.given (length text)

main-IsSound_example :
    (ending : Ending fractions) × (main strokes (λ i. true) argument (90 ∷ 60 ∷ []) ≡ some ending)
    × IsSound (8 * length {A = ℕ} (90 ∷ 60 ∷ [])) ending
main-IsSound_example = main-IsSound fractions-AreLaws strokes (λ i. true) argument (90 ∷ 60 ∷ [])

abbrev alternating : List Bool
alternating = true ∷ false ∷ true ∷ false ∷ true ∷ false ∷ true ∷ false ∷ []
