-- ===== src/Windows/Multiplier.antt =====
-- What the arguments of the program can set.
use mathlib.Core.Option.{some-injective}
use infnoise.Base.{
  ◌<◌, ◌^◌, ◌≡◌, ◌⊎◌, inl, inr, refl, subst, ◌∙◌, List, [], ◌∷◌, Option, none, some, same_text,
  if◌then◌else◌, ◌==◌, Option-cases, arith,
}
use infnoise.Userspace.Steps.{Code}
use infnoise.Userspace.Options.{Text}
use infnoise.Windows.Options.{
  Settings, take_flag, take_last, take_arguments, word_of, multiplier_text,
}

-- The last of the arguments.
unfoldable pub last_of : List Text → Option Text
last_of [] = none
last_of (argument ∷ []) = some argument
last_of (argument ∷ text ∷ rest) = last_of (text ∷ rest)

-- A positive multiplier of 32 bits, and as the file the last argument or that of `before`.
pub record IsUsable (arguments : List Text) (before after : Settings) : Type 0 where
  pub positive : 0 < after.output_multiplier
  pub word : after.output_multiplier < 2 ^ 32
  pub file : (after.out_file ≡ before.out_file) ⊎ (after.out_file ≡ last_of arguments)

take_flag-kept :
    (argument : Text) (o o1 : Settings)
    → take_flag argument o ≡ some o1
    → (o1.output_multiplier ≡ o.output_multiplier) × (o1.out_file ≡ o.out_file)
unfolding take_flag
take_flag-kept argument o o1 e = ground (arith, e)

take_last-kept :
    (argument : Text) (o o1 : Settings)
    → take_last argument o ≡ some o1
    → (o1.output_multiplier ≡ o.output_multiplier) × (o1.out_file ≡ some argument)
unfolding take_last
take_last-kept argument o o1 e = ground (arith, e)

word_of-lt : (c : Code) → word_of c < 2 ^ 32
unfolding word_of
word_of-lt (Code.given n) = omega arith
word_of-lt (Code.failed n) = omega arith

-- The branch of an option with a value.
take_value :
    (atoi : Text → Code) (argument text : Text) (rest : List Text) (o after : Settings)
    → (if same_text argument multiplier_text
        then if word_of (atoi text) == 0
          then none
          else take_arguments atoi rest (record o { output_multiplier = word_of (atoi text) })
        else none)
      ≡ some after
    → (0 < word_of (atoi text))
      × (word_of (atoi text) < 2 ^ 32)
      × (take_arguments atoi rest (record o { output_multiplier = word_of (atoi text) })
          ≡ some after)
take_value atoi argument text rest o after e =
    (ground (arith, e), word_of-lt (atoi text), ground (arith, e))

-- The rest of the arguments has the last one, where it has one at all.
IsUsable-tail :
    {argument text : Text} {rest : List Text} {o o1 after : Settings}
    → o1.out_file ≡ o.out_file
    → IsUsable (text ∷ rest) o1 after
    → IsUsable (argument ∷ text ∷ rest) o after
unfolding last_of
IsUsable-tail same u = record {
  positive = u.positive;
  word = u.word;
  file = elim u.file [ inl kept ↦ inl (kept ∙ same) | inr last ↦ inr last ];
}

-- The settings that the program starts with have a multiplier between 1 and `2 ^ 32 - 1`, where those
-- before the arguments have, and write to the file of the last argument or to that of before.
pub take_arguments-IsUsable :
    (atoi : Text → Code) (arguments : List Text) (o after : Settings)
    → 0 < o.output_multiplier
    → o.output_multiplier < 2 ^ 32
    → take_arguments atoi arguments o ≡ some after
    → IsUsable arguments o after
unfolding take_arguments last_of
take_arguments-IsUsable atoi [] o after pos word e =
    let same = some-injective o after e in
    subst (λ s. IsUsable [] o s) same (record { positive = pos; word = word; file = inl refl })
take_arguments-IsUsable atoi (argument ∷ []) o after pos word e =
    elim (Option-cases (take_flag argument o)) [
      | inl other ↦
          let named = take_last-kept argument o after (rw (take_arguments, other) at e) in
          record {
            positive = omega (arith, pos, named.0);
            word = omega (arith, word, named.0);
            file = inr named.1;
          }
      | inr (o1, flag) ↦
          let kept = take_flag-kept argument o o1 flag in
          let same : o1 ≡ after = some-injective o1 after (rw (take_arguments, flag) at e) in
          subst (λ s. IsUsable (argument ∷ []) o s) same
            (record {
              positive = omega (arith, pos, kept.0);
              word = omega (arith, word, kept.0);
              file = inl kept.1;
            })
    ]
take_arguments-IsUsable atoi (argument ∷ text ∷ []) o after pos word e =
    elim (Option-cases (take_flag argument o)) [
      | inl other ↦
          let read = take_value atoi argument text [] o after (rw (take_arguments, other) at e) in
          let same =
            some-injective (record o { output_multiplier = word_of (atoi text) }) after read.2 in
          subst (λ s. IsUsable (argument ∷ text ∷ []) o s) same
            (record { positive = read.0; word = read.1; file = inl refl })
      | inr (o1, flag) ↦
          let kept = take_flag-kept argument o o1 flag in
          IsUsable-tail kept.1 (
            take_arguments-IsUsable atoi (text ∷ []) o1 after (omega (arith, pos, kept.0))
              (omega (arith, word, kept.0)) (rw (take_arguments, flag) at e))
    ]
take_arguments-IsUsable atoi (argument ∷ text ∷ second ∷ rest) o after pos word e =
    elim (Option-cases (take_flag argument o)) [
      | inl other ↦
          let read =
            take_value atoi argument text (second ∷ rest) o after
              (rw (take_arguments, other) at e) in
          IsUsable-tail {o1 = record o { output_multiplier = word_of (atoi text) }} refl (
            IsUsable-tail refl (
              take_arguments-IsUsable atoi (second ∷ rest)
                (record o { output_multiplier = word_of (atoi text) }) after read.0 read.1 read.2))
      | inr (o1, flag) ↦
          let kept = take_flag-kept argument o o1 flag in
          IsUsable-tail kept.1 (
            take_arguments-IsUsable atoi (text ∷ second ∷ rest) o1 after
              (omega (arith, pos, kept.0)) (omega (arith, word, kept.0))
              (rw (take_arguments, flag) at e))
    ]
