-- ===== src/Base/Loops.antt =====
-- Counted loops, and arrays that a loop fills.
use Prim.Native.Nat.{ℕ, zero, suc, ◌+◌}
use mathlib.Core.List.{List, [], ◌∷◌}

-- for (k = from; k < from + count; k++) s = body(k, s)
unfoldable pub for_range {ℓ} : {S : Type ℓ} (count from : ℕ) (body : ℕ → S → S) (s : S) → S
for_range zero from body s = s
for_range (suc count) from body s = for_range count (from + 1) body (body from s)

-- An array of `n` elements, of which the loop stores `f k` at index `k`.
unfoldable pub tabulate {ℓ} : {A : Type ℓ} → ℕ → ℕ → (ℕ → A) → List A
tabulate zero i f = []
tabulate (suc n) i f = f i ∷ tabulate n (i + 1) f
