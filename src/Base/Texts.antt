-- ===== src/Base/Texts.antt =====
-- Strings of C as lists of bytes, less the byte that ends them.
use Prim.Native.Nat.{ℕ}
use mathlib.Core.Bool.{Bool, true, false}
use mathlib.Core.List.{List, [], ◌∷◌}
use infnoise.Base.Tests.{◌==◌, if◌then◌else◌}

-- `!strcmp(text, other)`
unfoldable pub same_text : List ℕ → List ℕ → Bool
same_text [] [] = true
same_text [] (d ∷ other) = false
same_text (c ∷ text) [] = false
same_text (c ∷ text) (d ∷ other) = let rest = same_text text other in if c == d then rest else false
