-- ===== src/Userspace/Steps.antt =====
-- The steps of the programs in user space, on a state of their own: `none` says that a call does not
-- return, which is how a loop without a bound shows.
use infnoise.Base.{ℕ, Bool, true, false, Option, none, some}

-- A return value of C: not negative, or its negation.
pub data Code : Type 0 where
  given : ℕ → Code
  failed : ℕ → Code

-- `code < 0`
abbrev pub is_negative : Code → Bool
is_negative (Code.given n) = false
is_negative (Code.failed n) = true

abbrev pub M : Type 0 → Type 0 → Type 0
M S A = S → Option (A × S)

infixl 5 ◌>>=◌ ◌>>◌
unfoldable pub ◌>>=◌ : {S A B : Type 0} → M S A → (A → M S B) → M S B
◌>>=◌ m f s = elim (m s) [ none ↦ none | some (a, s') ↦ f a s' ]

unfoldable pub ◌>>◌ : {S B : Type 0} → M S (Unit {0}) → M S B → M S B
unfolding ◌>>=◌
m >> k = m >>= λ _. k

unfoldable pub return : {S A : Type 0} → A → M S A
return a s = some (a, s)
